-- ===== src/Payer/Tripwire.antt =====
-- packages/mcp-x402-payer/src/signer.ts: signPayment and its selection tripwire. The objects of a
-- challenge are references into a heap, so that the tripwire compares identities as the code does. The
-- x402 client library is a parameter: it is given the hook and the scheme that are registered with it.
pub mod Cleared
mod Tests
use vellar_sdk.Prelude.{
  ℕ, String, Bool, true, false, List, [], ◌∷◌, Option, none, some, Result, ok, err, ◌>>=◌, length,
  ◌==◌, nat_eq, if◌then◌else◌,
}
use vellar_sdk.Payer.Scheme.{SchemeRequirement, SchemeError, SchemeHost, create_payment_payload}

pub data SignerError : Type 0 where
  nothing_cleared selection_mismatch library_failed : SignerError
  not_one_option : ℕ → SignerError
  scheme_failed : SchemeError → SignerError

-- The hook that `install` registers, where `expected.current` is `expected`.
unfoldable pub before_payment_creation : Option ℕ → ℕ → Result SignerError (Unit {0})
before_payment_creation none selected = err nothing_cleared
before_payment_creation (some cleared) selected =
    if selected == cleared then ok tt else err selection_mismatch

-- `createPaymentPayload` of the library: from the hook, the scheme and the options of a challenge.
abbrev pub Library : Type 0
Library =
    (ℕ → Result SignerError (Unit {0}))
    → (ℕ → Result SignerError String)
    → List ℕ
    → Result SignerError String

module _ (create_payload : Library) (encode_header : String → String)
    (scheme : ℕ → Result SignerError String) where
  -- `expected.current` afterwards, and the header.
  unfoldable pub sign_payment : Option ℕ → List ℕ → Option ℕ × Result SignerError String
  sign_payment expected [] = (expected, err (not_one_option 0))
  sign_payment expected (x ∷ y ∷ accepts) =
      (expected, err (not_one_option (length (x ∷ y ∷ accepts))))
  sign_payment expected (cleared ∷ []) = (
    none,
    create_payload (before_payment_creation (some cleared)) scheme (cleared ∷ []) >>= λ payload.
        ok (encode_header payload),
  )

  -- The headers of challenges that are signed one after another.
  unfoldable pub sign_payments : Option ℕ → List (List ℕ) → List (Result SignerError String)
  sign_payments expected [] = []
  sign_payments expected (accepts ∷ rest) =
      let (after, signed) = sign_payment expected accepts in signed ∷ sign_payments after rest

-- The scheme that `createSmartAccountSigner` registers, on the requirement of a reference.
unfoldable pub smart_account_scheme :
    {V : Type 0} → SchemeHost V → (ℕ → SchemeRequirement) → ℕ → Result SignerError String
smart_account_scheme host heap selected = elim (create_payment_payload host (heap selected)) [
  | err e ↦ err (scheme_failed e)
  | ok transaction ↦ ok transaction
]
