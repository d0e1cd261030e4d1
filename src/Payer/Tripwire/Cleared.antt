-- ===== src/Payer/Tripwire/Cleared.antt =====
-- packages/mcp-x402-payer/src/signer.ts: what a smart-account signer signs.
use vellar_sdk.Prelude.{
  ℕ, String, true, List, [], ◌∷◌, Option, none, some, Result, ok, err, ◌≡◌, refl, sym, ap, ◌∙◌,
  ◌==◌, nat_eq, >>=-eq-ok, ok-eq, ◌>>=◌, Result-cases, inl, inr, arith, ◌⊎◌,
}
use mathlib.Core.Path.{subst}
use vellar_sdk.Payer.Scheme.{SchemeRequirement, SchemeHost, create_payment_payload}
use vellar_sdk.Payer.Scheme.Payload.{IsRequired, create_payload-IsRequired}
use vellar_sdk.Payer.Tripwire.{
  SignerError, before_payment_creation, Library, sign_payment, sign_payments, smart_account_scheme,
}

-- What the library documents: it selects an option, awaits the hook on it, which stops the payment by
-- throwing, and takes the payload from the scheme for that option.
abbrev pub RunsHook : Library → Type 0
RunsHook create_payload =
    (hook : ℕ → Result SignerError (Unit {0})) (scheme : ℕ → Result SignerError String)
    (accepts : List ℕ) (payload : String)
    → create_payload hook scheme accepts ≡ ok payload
    → (selected : ℕ) × (hook selected ≡ ok tt) × (scheme selected ≡ ok payload)

before_payment_creation-ok :
    (cleared selected : ℕ)
    → before_payment_creation (some cleared) selected ≡ ok tt
    → selected ≡ cleared
unfolding before_payment_creation
before_payment_creation-ok cleared selected h = ground arith

module _ {V : Type 0} (host : SchemeHost V) (heap : ℕ → SchemeRequirement)
    (create_payload : Library) (runs : RunsHook create_payload)
    (encode_header : String → String) where
  smart_account_scheme-ok :
      (selected : ℕ) (payload : String)
      → smart_account_scheme host heap selected ≡ ok payload
      → create_payment_payload host (heap selected) ≡ ok payload
  unfolding smart_account_scheme
  smart_account_scheme-ok selected payload h =
      elim (Result-cases (create_payment_payload host (heap selected))) [
        | inl (e, k) ↦ cc (rw (k, smart_account_scheme) at h)
        | inr (t, k) ↦ k ∙ ap ok (ok-eq (rw (k, smart_account_scheme) at h))
      ]

  -- The challenge has one option, and the header carries a payload for exactly its requirement.
  abbrev pub IsCleared : List ℕ → String → Type 0
  IsCleared accepts header =
      (cleared : ℕ) × (payload : String) × (accepts ≡ cleared ∷ [])
      × IsRequired host (heap cleared) payload
      × (header ≡ encode_header payload)

  sign_payment-IsCleared :
      (expected : Option ℕ) (accepts : List ℕ) (header : String)
      → (sign_payment create_payload encode_header
          (smart_account_scheme host heap)
          expected
          accepts).1
        ≡ ok header
      → IsCleared accepts header
  unfolding sign_payment
  sign_payment-IsCleared expected [] header h = cc h
  sign_payment-IsCleared expected (x ∷ y ∷ accepts) header h = cc h
  sign_payment-IsCleared expected (cleared ∷ []) header h =
      let (payload, made, same) =
        >>=-eq-ok
          (create_payload (before_payment_creation (some cleared)) (smart_account_scheme host heap)
            (cleared ∷ []))
          _ h in
      let (selected, passed, taken) =
        runs (before_payment_creation (some cleared)) (smart_account_scheme host heap)
          (cleared ∷ []) payload made in
      let chosen = before_payment_creation-ok cleared selected passed in
      (
        cleared,
        payload,
        refl,
        subst (λ r. IsRequired host (heap r) payload) chosen
            (create_payload-IsRequired host (heap selected) payload
              (smart_account_scheme-ok selected payload taken)),
        sym (ok-eq same),
      )

  -- Challenge by challenge: no header, or one for the option that was cleared.
  abbrev pub AreCleared : List (List ℕ) → List (Result SignerError String) → Type 0
  AreCleared [] [] = Unit
  AreCleared [] (r ∷ rs) = ⊥
  AreCleared (a ∷ rest) [] = ⊥
  AreCleared (a ∷ rest) (r ∷ rs) =
      (((e : SignerError) × (r ≡ err e))
        ⊎ ((header : String) × (r ≡ ok header) × IsCleared a header))
      × AreCleared rest rs

  -- Whatever option the library selects, a smart-account signer gives, for each of the challenges that
  -- it is handed one after another, an error or the header of a payload for exactly the one option of
  -- that challenge.
  pub sign_payments-AreCleared :
      (expected : Option ℕ) (challenges : List (List ℕ))
      → AreCleared challenges (
          sign_payments create_payload encode_header
            (smart_account_scheme host heap)
            expected
            challenges)
  unfolding sign_payments
  sign_payments-AreCleared expected [] = tt
  sign_payments-AreCleared expected (a ∷ rest) =
      let call =
        sign_payment create_payload encode_header (smart_account_scheme host heap) expected a in
      (
        elim (Result-cases call.1) [
          | inl (e, k) ↦ inl (e, k)
          | inr (header, k) ↦ inr (header, k, sign_payment-IsCleared expected a header k)
        ],
        sign_payments-AreCleared call.0 rest,
      )

  -- With a library that selects the one option there is, the signer gives what the scheme gives.
  pub sign_payment-scheme :
      (expected : Option ℕ) (cleared : ℕ)
      → ((hook : ℕ → Result SignerError (Unit {0})) (scheme : ℕ → Result SignerError String)
          → create_payload hook scheme (cleared ∷ []) ≡ (hook cleared >>= λ _. scheme cleared))
      → sign_payment create_payload encode_header
          (smart_account_scheme host heap)
          expected
          (cleared ∷ [])
        ≡ (none, smart_account_scheme host heap cleared >>= λ payload. ok (encode_header payload))
  unfolding sign_payment before_payment_creation
  sign_payment-scheme expected cleared selects =
      let same : (cleared == cleared) ≡ true = ground arith in
      rw (selects (before_payment_creation (some cleared)) (smart_account_scheme host heap), same)
        refl
