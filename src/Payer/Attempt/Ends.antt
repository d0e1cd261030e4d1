-- ===== src/Payer/Attempt/Ends.antt =====
-- packages/mcp-x402-payer/src/payer.ts: every way in which a round of the payment loop can end.
use vellar_sdk.Prelude.{
  ℕ, pos, String, true, Option, some, List, ◌∷◌, Result, ok, err, ◌≡◌, refl, ◌≢◌, inl, inr, arith,
  Bool-cases, Option-cases, Result-cases, sym, ◌∙◌,
}
use vellar_sdk.Http.{Response}
use vellar_sdk.X402.{PaymentRequirements, PaymentRequired, payment_rejected}
use vellar_sdk.Guards.Settlement.{
  coalesce, extract_rejection_reason, SettlementOutcome, decode_settle_response_header,
  is_retryable_settle_failure, settled, not_spent, indeterminate, classify_settlement,
}
use vellar_sdk.Guards.Settlement.Outcomes.{retryable-not_spent_iff}
use vellar_sdk.Payer.Errors.{
  PayerError, LastReason, rejected_unspent, accepted_unspent, guard_error, indeterminate_settlement,
  body_unreadable,
}
use vellar_sdk.Payer.Ledger.{SpendLedger, assert_within_ceiling, record_spend, remaining_for}
use vellar_sdk.Payer.Wire.{Codecs, Act, signed, answered, debited, World, ◌>>=◌, debit, remaining}
use vellar_sdk.Payer.Attempt.{
  reason_of, Settlement, PayResult, Round, again, finished, payer_or_signer, after_rejection,
  after_acceptance,
}

-- The response is evidence that nothing was spent.
abbrev pub IsUnspent : Codecs → Response → Type 0
IsUnspent parse res =
    is_retryable_settle_failure (decode_settle_response_header parse.settle res) ≡ true

module _ (parse : Codecs) (chosen : PaymentRequirements) (amount : ℕ) (narrowed : PaymentRequired)
    (signer_address : String) where
  -- How a round ends, from the ledger and the log that it starts with.
  pub data Ends (l : SpendLedger) (log : List Act) (t : Result PayerError Round) (w : World)
      : Type 0 where
    refused : (e : PayerError) → t ≡ err e → w.ledger ≡ l → w.log ≡ log → Ends l log t w
    unsent :
        (e : PayerError) → t ≡ err e → w.ledger ≡ l → w.log ≡ signed narrowed ∷ log → Ends l log t w
    rejected :
        (e : PayerError) (res : Response)
        → t ≡ err e
        → w.ledger ≡ l
        → w.log ≡ answered res ∷ signed narrowed ∷ log
        → Ends l log t w
    retried :
        (r : LastReason) (res : Response)
        → t ≡ ok (again r)
        → w.ledger ≡ l
        → w.log ≡ answered res ∷ signed narrowed ∷ log
        → IsUnspent parse res
        → Ends l log t w
    charged :
        (e : PayerError) (res : Response)
        → t ≡ err e
        → assert_within_ceiling l chosen.asset (pos amount) ≡ ok tt
        → record_spend l chosen.asset (pos amount) ≡ ok w.ledger
        → w.log ≡ debited chosen.asset amount ∷ answered res ∷ signed narrowed ∷ log
        → ¬ IsUnspent parse res
        → Ends l log t w
    paid :
        (p : PayResult) (s : Settlement) (res : Response) (payer : Option String)
        → t ≡ ok (finished p)
        → assert_within_ceiling l chosen.asset (pos amount) ≡ ok tt
        → record_spend l chosen.asset (pos amount) ≡ ok w.ledger
        → w.log ≡ debited chosen.asset amount ∷ answered res ∷ signed narrowed ∷ log
        → classify_settlement parse.settle res ≡ settled s.transaction payer
        → p.paid ≡ true
        → p.settlement ≡ some s
        → s.asset ≡ chosen.asset
        → s.amount ≡ amount
        → Ends l log t w

  pub after_rejection-Ends :
      (attempt : ℕ) (res : Response) (w : World) (l : SpendLedger) (log : List Act)
      → w.ledger ≡ l
      → w.log ≡ answered res ∷ signed narrowed ∷ log
      → Ends l log
          (after_rejection parse chosen amount narrowed signer_address attempt res w).0
          (after_rejection parse chosen amount narrowed signer_address attempt res w).1
  unfolding after_rejection
  after_rejection-Ends attempt res w l log same at_log =
      let settle = decode_settle_response_header parse.settle res in
      elim (Bool-cases (is_retryable_settle_failure settle)) [
        | inl e ↦
            retried (rejected_unspent (reason_of settle) attempt) res (ground arith) (ground arith)
              (ground arith) e
        | inr e ↦
            rejected
              (guard_error (
                payment_rejected
                  (coalesce (reason_of settle) (extract_rejection_reason parse.rejection res))))
              res (ground arith) (ground arith) (ground arith)
      ]

  spent_evidence :
      (res : Response) (o : SettlementOutcome)
      → classify_settlement parse.settle res ≡ o
      → ((reason : Option String) → o ≢ not_spent reason)
      → ¬ IsUnspent parse res
  spent_evidence res o e other unspent =
      let (reason, h) = (retryable-not_spent_iff parse.settle res).0 unspent in
      other reason (sym e ∙ h)

  module _ (attempt : ℕ) (res : Response) (w : World) (l : SpendLedger) (log : List Act)
      (same : w.ledger ≡ l) (at_log : w.log ≡ answered res ∷ signed narrowed ∷ log)
      (checked : assert_within_ceiling l chosen.asset (pos amount) ≡ ok tt) where
    abbrev pub EndsAccepted : Type 0
    EndsAccepted =
        Ends l log (after_acceptance parse chosen amount narrowed signer_address attempt res w).0
          (after_acceptance parse chosen amount narrowed signer_address attempt res w).1

    -- The ledger refused the debit.
    not_recorded :
        (o : SettlementOutcome) (e : PayerError)
        → classify_settlement parse.settle res ≡ o
        → ((reason : Option String) → o ≢ not_spent reason)
        → record_spend w.ledger chosen.asset (pos amount) ≡ err e
        → EndsAccepted
    unfolding after_acceptance ◌>>=◌ debit
    not_recorded (not_spent reason) e at_o other at_r = absurd (other reason refl)
    not_recorded (indeterminate reason raw) e at_o other at_r =
        rejected e res (ground arith) (ground arith) (ground arith)
    not_recorded (settled tx payer) e at_o other at_r =
        rejected e res (ground arith) (ground arith) (ground arith)

    paid_in_full :
        (tx : String) (payer : Option String) (l' : SpendLedger)
        → classify_settlement parse.settle res ≡ settled tx payer
        → record_spend w.ledger chosen.asset (pos amount) ≡ ok l'
        → EndsAccepted
    unfolding after_acceptance ◌>>=◌ debit remaining
    paid_in_full tx payer l' at_o at_r =
        let unproven = spent_evidence res (settled tx payer) at_o (λ reason. cc) in
        let s : Settlement = record {
          transaction = tx;
          payer = payer_or_signer parse chosen amount narrowed signer_address payer;
          asset = chosen.asset;
          amount = amount;
        } in
        elim (Option-cases res.body) [
          | inl missing ↦
              charged body_unreadable res (ground arith) checked (ground arith) (ground arith)
                unproven
          | inr (text, there) ↦ elim (Result-cases (remaining_for l' chosen.asset)) [
            | inl (e, at_left) ↦
                charged e res (ground arith) checked (ground arith) (ground arith) unproven
            | inr (left, at_left) ↦
                paid
                  (record {
                    paid = true;
                    content = text;
                    settlement = some s;
                    attempts = some attempt;
                    session_remaining = some left;
                    status = res.status;
                  })
                  s res payer (ground arith) checked (ground arith) (ground arith) at_o refl refl
                  refl refl
          ]
        ]

    pub after_acceptance-Ends : EndsAccepted
    unfolding after_acceptance ◌>>=◌ debit
    after_acceptance-Ends = by_outcome (classify_settlement parse.settle res) refl
      where
        by_outcome :
            (o : SettlementOutcome) → classify_settlement parse.settle res ≡ o → EndsAccepted
        by_outcome (not_spent reason) at_o =
            retried (accepted_unspent attempt reason) res (ground arith) (ground arith)
              (ground arith) ((retryable-not_spent_iff parse.settle res).1 (reason, at_o))
        by_outcome (indeterminate reason raw) at_o =
            elim (Result-cases (record_spend w.ledger chosen.asset (pos amount))) [
              | inl (e, at_r) ↦ not_recorded (indeterminate reason raw) e at_o (λ r. cc) at_r
              | inr (l', at_r) ↦
                  charged (indeterminate_settlement reason chosen.asset amount raw) res
                    (ground arith) checked (ground arith) (ground arith)
                    (spent_evidence res (indeterminate reason raw) at_o (λ r. cc))
            ]
        by_outcome (settled tx payer) at_o =
            elim (Result-cases (record_spend w.ledger chosen.asset (pos amount))) [
              | inl (e, at_r) ↦ not_recorded (settled tx payer) e at_o (λ r. cc) at_r
              | inr (l', at_r) ↦ paid_in_full tx payer l' at_o at_r
            ]
