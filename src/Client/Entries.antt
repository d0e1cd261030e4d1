-- ===== src/Client/Entries.antt =====
-- src/x402-client.ts: what is signed of the entries that the simulation returns, and for how long.
use vellar_sdk.Prelude.{
  ℕ, suc, ◌+◌, ◌≤◌, true, false, Option, List, [], ◌∷◌, ok, >>=-eq-ok, ok-eq, ◌>>=◌, ◌≡◌, refl, sym,
  ◌∙◌, ◌⊎◌, inl, inr, arith, Bool-cases, Result-cases, nat_eq, any,
}
use vellar_sdk.Signer.Entry.{Entry}
use vellar_sdk.Signer.AuthEntry.{
  ExpectedInvocation, assert_auth_entry_invocation, IsIntended, assert_auth_entry_invocation-ok_iff,
}
use vellar_sdk.Client.{
  window_ledgers, ceiling_or_default, expiration_offset_for, Services, is_own, check_entry,
  sign_one, sign_entries, sign_auth,
}

-- A signature is valid for at least three ledgers; and for no more than that, unless it is within
-- the client's ceiling (58 ledgers where none is set) and at least two ledgers short of the timeout
-- that the seller asks for.
pub expiration_offset_for-bounds :
    (timeout ceiling : Option ℕ)
    → (3 ≤ expiration_offset_for timeout ceiling)
      × ((expiration_offset_for timeout ceiling ≡ 3)
          ⊎ ((expiration_offset_for timeout ceiling ≤ ceiling_or_default ceiling)
              × (expiration_offset_for timeout ceiling + 2 ≤ window_ledgers timeout)))
unfolding expiration_offset_for
expiration_offset_for-bounds timeout ceiling = ground arith

module _ {V : Type 0} (s : Services V) (expected : ExpectedInvocation) (expiration : ℕ) where
  -- Entry by entry: one of the wallet is the intended payment and was signed, every other one is as
  -- it was.
  abbrev pub AreSigned : List (Entry V) → List (Entry V) → Type 0
  AreSigned [] [] = Unit
  AreSigned [] (o ∷ os) = ⊥
  AreSigned (e ∷ es) [] = ⊥
  AreSigned (e ∷ es) (o ∷ os) =
      (((is_own s e ≡ true)
          × IsIntended s.address_of s.number_of e expected
          × (s.sign expiration e ≡ ok o))
        ⊎ ((is_own s e ≡ false) × (o ≡ e)))
      × AreSigned es os

  check_entry-ok :
      (e : Entry V)
      → check_entry s expected e ≡ ok tt
      → IsIntended s.address_of s.number_of e expected
  check_entry-ok e h =
      elim (Result-cases (assert_auth_entry_invocation s.address_of s.number_of e expected)) [
        | inl (x, k) ↦ cc (rw (k, check_entry) at h)
        | inr (u, k) ↦ (assert_auth_entry_invocation-ok_iff s.address_of s.number_of e expected).0 k
      ]

  sign_one-ok : (e o : Entry V) → sign_one s expiration e ≡ ok o → s.sign expiration e ≡ ok o
  sign_one-ok e o h = elim (Result-cases (s.sign expiration e)) [
    | inl (x, k) ↦ cc (rw (k, sign_one) at h)
    | inr (p, k) ↦ let same = rw (k, sign_one) at h in ground arith
  ]

  own_entry :
      (e : Entry V) (es : List (Entry V))
      → is_own s e ≡ true
      → sign_entries s expected expiration (e ∷ es) ≡ (
          check_entry s expected e >>= λ u. sign_one s expiration e >>= λ signed.
          sign_entries s expected expiration es >>= λ (r : List (Entry V) × ℕ).
          ok (signed ∷ r.0, suc r.1))
  unfolding sign_entries
  own_entry e es own = rw own refl

  other_entry :
      (e : Entry V) (es : List (Entry V))
      → is_own s e ≡ false
      → sign_entries s expected expiration (e ∷ es)
        ≡ (sign_entries s expected expiration es >>= λ (r : List (Entry V) × ℕ). ok (e ∷ r.0, r.1))
  unfolding sign_entries
  other_entry e es foreign = rw foreign refl

  sign_entries-AreSigned :
      (auth : List (Entry V)) (out : List (Entry V) × ℕ)
      → sign_entries s expected expiration auth ≡ ok out
      → AreSigned auth out.0
  unfolding sign_entries
  sign_entries-AreSigned [] out h = let same : out ≡ ([], 0) = ground arith in rw same tt
  sign_entries-AreSigned (e ∷ es) out h = elim (Bool-cases (is_own s e)) [
    | inl own ↦
        let (u, checked, h₁) =
          >>=-eq-ok (check_entry s expected e) _ (sym (own_entry e es own) ∙ h) in
        let (signed, at_signed, h₂) = >>=-eq-ok (sign_one s expiration e) _ h₁ in
        let (r, at_rest, h₃) = >>=-eq-ok (sign_entries s expected expiration es) _ h₂ in
        let same : out ≡ (signed ∷ r.0, suc r.1) = sym (ok-eq h₃) in
        rw same (
          inl (own, check_entry-ok e checked, sign_one-ok e signed at_signed),
          sign_entries-AreSigned es r at_rest,
        )
    | inr foreign ↦
        let (r, at_rest, h₁) =
          >>=-eq-ok (sign_entries s expected expiration es) _
            (sym (other_entry e es foreign) ∙ h) in
        let same : out ≡ (e ∷ r.0, r.1) = sym (ok-eq h₁) in
        rw same (inr (foreign, refl), sign_entries-AreSigned es r at_rest)
  ]

  -- When the client has signed what the simulation returned: every entry with address credentials of
  -- its wallet authorizes exactly the expected transfer and nothing else, and was signed for the
  -- expiration ledger; every other entry is as it was.
  pub sign_auth-AreSigned :
      (auth out : List (Entry V))
      → sign_auth s expected expiration auth ≡ ok out
      → AreSigned auth out
  unfolding sign_auth
  sign_auth-AreSigned auth out h =
      let (r, at_r, h₁) = >>=-eq-ok (sign_entries s expected expiration auth) _ h in
      let same : out ≡ r.0 = ground arith in rw same (sign_entries-AreSigned auth r at_r)

  sign_entries-own :
      (auth : List (Entry V)) (out : List (Entry V) × ℕ)
      → sign_entries s expected expiration auth ≡ ok out
      → (any (is_own s) auth ≡ true) ⊎ (out.1 ≡ 0)
  unfolding sign_entries
  sign_entries-own [] out h = let same : out ≡ ([], 0) = ground arith in rw same (inr refl)
  sign_entries-own (e ∷ es) out h = elim (Bool-cases (is_own s e)) [
    | inl own ↦ inl (rw own refl)
    | inr foreign ↦
        let (r, at_rest, h₁) =
          >>=-eq-ok (sign_entries s expected expiration es) _
            (sym (other_entry e es foreign) ∙ h) in
        let same : out ≡ (e ∷ r.0, r.1) = sym (ok-eq h₁) in
        rw (same, foreign) (sign_entries-own es r at_rest)
  ]

  -- Entries without one of the wallet are not signed.
  pub sign_auth-own :
      (auth out : List (Entry V))
      → sign_auth s expected expiration auth ≡ ok out
      → any (is_own s) auth ≡ true
  unfolding sign_auth
  sign_auth-own auth out h =
      let (r, at_r, h₁) = >>=-eq-ok (sign_entries s expected expiration auth) _ h in
      elim (sign_entries-own auth r at_r) [ inl own ↦ own | inr zero ↦ cc (rw zero at h₁) ]
