-- ===== src/Payer/Attempt.antt =====
-- packages/mcp-x402-payer/src/payer.ts: one round of the loop of `payExclusively`.
pub mod Ends
pub mod Rounds
pub mod Rejection
use vellar_sdk.Prelude.{
  ℕ, ℤ, String, Bool, true, Option, none, some, ok, err, leb, ◌||◌, ◌==◌, nat_eq, if◌then◌else◌,
}
use vellar_sdk.Http.{Response}
use vellar_sdk.X402.{PaymentRequirements, PaymentRequired, payment_rejected}
use vellar_sdk.Guards.Settlement.{
  SettleResult, coalesce, decode_settle_response_header, extract_rejection_reason,
  is_retryable_settle_failure, settled, not_spent, indeterminate, classify_settlement,
}
use vellar_sdk.Payer.Errors.{
  LastReason, rejected_unspent, accepted_unspent, guard_error, indeterminate_settlement,
}
use vellar_sdk.Payer.Wire.{
  Codecs, Paying, ◌>>=◌, ◌>>◌, lift, send_paid, sign_payment, check, debit, remaining, read_content,
}

pub record Settlement : Type 0 where
  pub transaction : String
  pub payer : String
  pub asset : String
  pub amount : ℕ

pub record PayResult : Type 0 where
  pub paid : Bool
  pub content : String
  pub settlement : Option Settlement
  pub attempts : Option ℕ
  pub session_remaining : Option ℤ
  pub status : ℕ

-- What a round that does not throw ends in: `continue`, or the function's result.
pub data Round : Type 0 where
  again : LastReason → Round
  finished : PayResult → Round

abbrev pub is_rejected : Response → Bool
is_rejected res = res.status == 402 || leb 400 res.status

abbrev pub reason_of : Option SettleResult → Option String
reason_of none = none
reason_of (some settle) = settle.error_reason

-- The cleared option, its price, the narrowed challenge, and the address of the signer.
module _ (parse : Codecs) (chosen : PaymentRequirements) (amount : ℕ) (narrowed : PaymentRequired)
    (signer_address : String) where
  unfoldable pub after_rejection : ℕ → Response → Paying Round
  after_rejection attempt res =
      let settle = decode_settle_response_header parse.settle res in
      if is_retryable_settle_failure settle
      then lift (ok (again (rejected_unspent (reason_of settle) attempt)))
      else lift (
          err (
            guard_error (
              payment_rejected
                (coalesce (reason_of settle) (extract_rejection_reason parse.rejection res)))))

  abbrev pub payer_or_signer : Option String → String
  payer_or_signer none = signer_address
  payer_or_signer (some payer) = payer

  unfoldable pub after_acceptance : ℕ → Response → Paying Round
  after_acceptance attempt res = elim (classify_settlement parse.settle res) [
    | not_spent reason ↦ lift (ok (again (accepted_unspent attempt reason)))
    | indeterminate reason raw ↦ (do
      debit chosen.asset amount
      lift (err (indeterminate_settlement reason chosen.asset amount raw)))
    | settled transaction payer ↦ (do
      debit chosen.asset amount
      content ← lift (read_content res)
      left ← remaining chosen.asset
      lift (
          ok (
            finished (record {
              paid = true;
              content = content;
              settlement = some (record {
                transaction = transaction;
                payer = payer_or_signer payer;
                asset = chosen.asset;
                amount = amount;
              });
              attempts = some attempt;
              session_remaining = some left;
              status = res.status;
            }))))
  ]

  unfoldable pub attempt_once : ℕ → Paying Round
  attempt_once attempt = do
    check chosen.asset amount
    headers ← sign_payment narrowed
    res ← send_paid headers
    if is_rejected res then after_rejection attempt res else after_acceptance attempt res
