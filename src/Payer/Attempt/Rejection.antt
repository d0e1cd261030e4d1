-- ===== src/Payer/Attempt/Rejection.antt =====
-- packages/mcp-x402-payer/src/payer.ts: a settled payment in a response with an error status.
use vellar_sdk.Prelude.{ℕ, String, Option, err, ◌≡◌, refl, inl, inr, Bool-cases}
use vellar_sdk.Http.{Response}
use vellar_sdk.X402.{PaymentRequirements, PaymentRequired, payment_rejected}
use vellar_sdk.Guards.Settlement.{
  decode_settle_response_header, is_retryable_settle_failure, settled, classify_settlement,
}
use vellar_sdk.Guards.Settlement.Outcomes.{retryable-not_spent_iff}
use vellar_sdk.Payer.Errors.{guard_error}
use vellar_sdk.Payer.Wire.{Codecs, World}
use vellar_sdk.Payer.Attempt.{after_rejection}

-- A paid response with an error status is never debited, whatever its settle header says: when the
-- header is that of a confirmed settlement, the payment fails as rejected and the ledger and the log
-- stay as they were.
pub after_rejection-settled :
    (parse : Codecs) (chosen : PaymentRequirements) (amount : ℕ) (narrowed : PaymentRequired)
    (signer_address : String) (attempt : ℕ) (res : Response) (w : World) (tx : String)
    (payer : Option String)
    → classify_settlement parse.settle res ≡ settled tx payer
    → (reason : Option String) × (after_rejection parse chosen amount narrowed signer_address
          attempt res w
        ≡ (err (guard_error (payment_rejected reason)), w))
unfolding after_rejection
after_rejection-settled parse chosen amount narrowed signer_address attempt res w tx payer h =
    elim (Bool-cases
      (is_retryable_settle_failure (decode_settle_response_header parse.settle res))) [
        | inl retry ↦ let (reason, k) = (retryable-not_spent_iff parse.settle res).0 retry in cc
        | inr final ↦ rw final (_, refl)
      ]
