-- ===== src/Signer/AuthEntry.antt =====
-- src/x402-auth-entry.ts: an entry is signed only if it authorizes exactly the intended payment.
use vellar_sdk.Prelude.{
  ℤ, String, Bool, true, not, Option, none, some, List, [], ◌∷◌, Result, ok, err, ◌>>◌, throw_if,
  ◌==◌, string_eq, ◌≡◌, refl, ◌↔◌, arith, eq_iff, nat_eq, Option-cases, inl, inr, le_ℤ, ◌&&◌,
  >>=-eq-ok, ap, ◌∙◌,
}
use vellar_sdk.Signer.Entry.{
  AuthorizedFunction, contract_fn, other_fn, Invocation, invocation, Invocations, no_more, also,
  Credentials, Entry,
}

pub record ExpectedInvocation : Type 0 where
  pub contract : String
  pub function_name : String
  pub from : String
  pub to : String
  pub amount : ℤ

-- The `field` of an `AuthEntryMismatchError`.
pub data Mismatch : Type 0 where
  function_type contract_differs function_differs argument_count : Mismatch
  from_differs to_differs amount_differs sub_invocations : Mismatch

-- Equality of `bigint`s.
abbrev pub same_amount : ℤ → ℤ → Bool
same_amount a b = le_ℤ a b && le_ℤ b a

same_amount-eq : (a b : ℤ) → same_amount a b ≡ true → a ≡ b
same_amount-eq a b h = ground arith

same_amount_refl : (a : ℤ) → same_amount a a ≡ true
same_amount_refl a = ground arith

-- `Address.fromScVal` and `BigInt(scValToNative(v))`, which throw (`none`) on other values.
module _ {V : Type 0} (address_of : V → Option String) (number_of : V → Option ℤ) where
  -- An address argument: not an address, or not the expected one.
  abbrev check_address : V → String → Mismatch → Result Mismatch (Unit {0})
  check_address v expected e = elim (address_of v) [
    | none ↦ err e
    | some a ↦ throw_if (not (a == expected)) e
  ]

  abbrev check_amount : V → ℤ → Result Mismatch (Unit {0})
  check_amount v expected = elim (number_of v) [
    | none ↦ err amount_differs
    | some n ↦ throw_if (not (same_amount n expected)) amount_differs
  ]

  abbrev check_subs : Invocations V → Result Mismatch (Unit {0})
  check_subs no_more = ok tt
  check_subs (also i is) = err sub_invocations

  abbrev check_args : List V → Invocations V → ExpectedInvocation → Result Mismatch (Unit {0})
  check_args (a ∷ b ∷ c ∷ []) subs expected = do
    check_address a expected.from from_differs
    check_address b expected.to to_differs
    check_amount c expected.amount
    check_subs subs
  check_args _ subs expected = err argument_count

  unfoldable pub assert_auth_entry_invocation :
      Entry V → ExpectedInvocation → Result Mismatch (Unit {0})
  assert_auth_entry_invocation entry expected = elim entry.root_invocation [
    | invocation fn subs ↦ elim fn [
      | other_fn name ↦ err function_type
      | contract_fn contract name args ↦ (do
        throw_if (not (contract == expected.contract)) contract_differs
        throw_if (not (name == expected.function_name)) function_differs
        check_args args subs expected)
    ]
  ]

  -- The entry calls the expected function with the three expected arguments, and nothing else.
  abbrev pub IsIntended : Entry V → ExpectedInvocation → Type 0
  IsIntended entry expected =
      (from : V) × (to : V) × (amount : V) × (entry.root_invocation
        ≡ invocation
            (contract_fn expected.contract expected.function_name (from ∷ to ∷ amount ∷ []))
            no_more)
      × (address_of from ≡ some expected.from)
      × (address_of to ≡ some expected.to)
      × (number_of amount ≡ some expected.amount)

  check_address-ok :
      (v : V) (expected : String) (e : Mismatch)
      → check_address v expected e ≡ ok tt
      → address_of v ≡ some expected
  check_address-ok v expected e h = elim (Option-cases (address_of v)) [
    | inl none_there ↦ cc (rw (none_there, check_address) at h)
    | inr (a, there) ↦
        let passes = rw (there, check_address) at h in
        let same : a ≡ expected = ground (arith, eq_iff a expected) in there ∙ ap some same
  ]

  check_amount-ok :
      (v : V) (expected : ℤ) → check_amount v expected ≡ ok tt → number_of v ≡ some expected
  check_amount-ok v expected h = elim (Option-cases (number_of v)) [
    | inl none_there ↦ cc (rw (none_there, check_amount) at h)
    | inr (n, there) ↦
        let passes = rw (there, check_amount) at h in
        let same : n ≡ expected = same_amount-eq n expected (ground arith) in there ∙ ap some same
  ]

  check_subs-ok : (subs : Invocations V) → check_subs subs ≡ ok tt → subs ≡ no_more
  check_subs-ok no_more h = refl
  check_subs-ok (also i is) h = cc

  args_intended :
      (args : List V) (subs : Invocations V) (expected : ExpectedInvocation)
      → check_args args subs expected ≡ ok tt
      → (from : V) × (to : V) × (amount : V) × (args ≡ from ∷ to ∷ amount ∷ [])
        × (subs ≡ no_more)
        × (address_of from ≡ some expected.from)
        × (address_of to ≡ some expected.to)
        × (number_of amount ≡ some expected.amount)
  args_intended [] subs expected h = cc
  args_intended (a ∷ []) subs expected h = cc
  args_intended (a ∷ b ∷ []) subs expected h = cc
  args_intended (a ∷ b ∷ c ∷ d ∷ ds) subs expected h = cc
  args_intended (a ∷ b ∷ c ∷ []) subs expected h =
      let (u, from, h₁) = >>=-eq-ok (check_address a expected.from from_differs) _ h in
      let (u, to, h₂) = >>=-eq-ok (check_address b expected.to to_differs) _ h₁ in
      let (u, amount, h₃) = >>=-eq-ok (check_amount c expected.amount) _ h₂ in
      (
        a,
        b,
        c,
        refl,
        check_subs-ok subs h₃,
        check_address-ok a expected.from from_differs from,
        check_address-ok b expected.to to_differs to,
        check_amount-ok c expected.amount amount,
      )

  fn_intended :
      (fn : AuthorizedFunction V) (subs : Invocations V) (expected : ExpectedInvocation)
      (c : Credentials)
      → assert_auth_entry_invocation
          (record { credentials = c; root_invocation = invocation fn subs })
          expected
        ≡ ok tt
      → (contract : String) × (name : String) × (args : List V) × (fn
          ≡ contract_fn contract name args)
        × (contract ≡ expected.contract)
        × (name ≡ expected.function_name)
        × (check_args args subs expected ≡ ok tt)
  unfolding assert_auth_entry_invocation
  fn_intended (other_fn name) subs expected c h = cc
  fn_intended (contract_fn contract name args) subs expected c h =
      let (u, h₁, h₂) =
        >>=-eq-ok (throw_if (not (contract == expected.contract)) contract_differs) _ h in
      let (u, h₃, h₄) =
        >>=-eq-ok (throw_if (not (name == expected.function_name)) function_differs) _ h₂ in
      (
        contract,
        name,
        args,
        refl,
        ground (arith, eq_iff contract expected.contract),
        ground (arith, eq_iff name expected.function_name),
        h₄,
      )

  intended :
      (i : Invocation V) (expected : ExpectedInvocation) (c : Credentials)
      → assert_auth_entry_invocation (record { credentials = c; root_invocation = i }) expected
        ≡ ok tt
      → IsIntended (record { credentials = c; root_invocation = i }) expected
  intended (invocation fn subs) expected c h =
      let (contract, name, args, at_fn, at_contract, at_name, checked) =
        fn_intended fn subs expected c h in
      let (from, to, amount, at_args, at_subs, e, f, g) =
        args_intended args subs expected checked in
      (from, to, amount, rw (at_fn, at_contract, at_name, at_args, at_subs) refl, e, f, g)

  passes :
      (from to amount : V) (expected : ExpectedInvocation)
      → address_of from ≡ some expected.from
      → address_of to ≡ some expected.to
      → number_of amount ≡ some expected.amount
      → check_args (from ∷ to ∷ amount ∷ []) no_more expected ≡ ok tt
  passes from to amount expected e f g = ground (
    arith,
    eq_iff expected.from expected.from,
    eq_iff expected.to expected.to,
    same_amount_refl expected.amount,
  )

  -- The check passes exactly when the entry's root invocation calls the expected function of the
  -- expected contract with three arguments, which are the expected payer, recipient and amount, and
  -- it has no sub-invocation.
  pub assert_auth_entry_invocation-ok_iff :
      (entry : Entry V) (expected : ExpectedInvocation)
      → (assert_auth_entry_invocation entry expected ≡ ok tt) ↔ IsIntended entry expected
  unfolding assert_auth_entry_invocation
  assert_auth_entry_invocation-ok_iff entry expected = (
    intended entry.root_invocation expected entry.credentials,
    λ (from, to, amount, root, e, f, g).
        let checked = passes from to amount expected e f g in
        rw (root, assert_auth_entry_invocation)
          (ground (
            arith,
            eq_iff expected.contract expected.contract,
            eq_iff expected.function_name expected.function_name,
          )),
  )
