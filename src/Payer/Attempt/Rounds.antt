-- ===== src/Payer/Attempt/Rounds.antt =====
-- packages/mcp-x402-payer/src/payer.ts: every round of the payment loop ends in a way of `Ends`.
use vellar_sdk.Prelude.{
  ℕ, pos, String, List, ◌∷◌, Result, ok, err, ◌≡◌, refl, inl, inr, Bool-cases, Result-cases, ap,
  ◌∙◌, if◌then◌else◌,
}
use vellar_sdk.Http.{Response}
use vellar_sdk.X402.{PaymentRequirements, PaymentRequired}
use vellar_sdk.Payer.Errors.{PayerError}
use vellar_sdk.Payer.Ledger.{SpendLedger, assert_within_ceiling}
use vellar_sdk.Payer.Wire.{
  Codecs, Act, signed, answered, World, ◌>>=◌, send_paid, sign_payment, check,
}
use vellar_sdk.Payer.Wire.Steps.{sign_payment-cases, send_paid-cases}
use vellar_sdk.Payer.Attempt.Ends.{
  Ends, refused, unsent, after_rejection-Ends, after_acceptance-Ends,
}
use vellar_sdk.Payer.Attempt.{Round, is_rejected, after_rejection, after_acceptance, attempt_once}

module _ (parse : Codecs) (chosen : PaymentRequirements) (amount : ℕ) (narrowed : PaymentRequired)
    (signer_address : String) where
  abbrev pub EndsAt : SpendLedger → List Act → Result PayerError Round × World → Type 0
  EndsAt l log t = Ends parse chosen amount narrowed signer_address l log t.0 t.1

  -- The round once its response is there.
  after_response-Ends :
      (attempt : ℕ) (res : Response) (w : World) (l : SpendLedger) (log : List Act)
      → w.ledger ≡ l
      → w.log ≡ answered res ∷ signed narrowed ∷ log
      → assert_within_ceiling l chosen.asset (pos amount) ≡ ok tt
      → EndsAt l log (
          (if is_rejected res
              then after_rejection parse chosen amount narrowed signer_address attempt res
              else after_acceptance parse chosen amount narrowed signer_address attempt res)
            w)
  after_response-Ends attempt res w l log same at_log checked =
      elim (Bool-cases (is_rejected res)) [
        | inl e ↦ rw e (
            after_rejection-Ends parse chosen amount narrowed signer_address attempt res w l log
              same at_log)
        | inr e ↦ rw e (
            after_acceptance-Ends parse chosen amount narrowed signer_address attempt res w l log
              same at_log checked)
      ]

  module _ (attempt : ℕ) (w : World) where
    abbrev Once : Result PayerError Round × World
    Once = attempt_once parse chosen amount narrowed signer_address attempt w

    refused_once :
        (e : PayerError)
        → assert_within_ceiling w.ledger chosen.asset (pos amount) ≡ err e
        → Once ≡ (err e, w)
    unfolding attempt_once ◌>>=◌ check
    refused_once e h = rw h

    module _ (checked : assert_within_ceiling w.ledger chosen.asset (pos amount) ≡ ok tt) where
      unsigned_once :
          (e : PayerError) (w₁ : World) → sign_payment narrowed w ≡ (err e, w₁) → Once ≡ (err e, w₁)
      unfolding attempt_once ◌>>=◌ check
      unsigned_once e w₁ h = rw (checked, h)

      unsent_once :
          (headers : String) (w₁ : World) (e : PayerError) (w₂ : World)
          → sign_payment narrowed w ≡ (ok headers, w₁)
          → send_paid headers w₁ ≡ (err e, w₂)
          → Once ≡ (err e, w₂)
      unfolding attempt_once ◌>>=◌ check
      unsent_once headers w₁ e w₂ h k = rw (checked, h, k)

      answered_once :
          (headers : String) (w₁ : World) (res : Response) (w₂ : World)
          → sign_payment narrowed w ≡ (ok headers, w₁)
          → send_paid headers w₁ ≡ (ok res, w₂)
          → Once
            ≡ (if is_rejected res
                  then after_rejection parse chosen amount narrowed signer_address attempt res
                  else after_acceptance parse chosen amount narrowed signer_address attempt res)
                w₂
      unfolding attempt_once ◌>>=◌ check
      answered_once headers w₁ res w₂ h k = rw (checked, h, k)

  -- Every round of the loop ends in one of the six ways of `Ends`.
  pub attempt_once-Ends :
      (attempt : ℕ) (w : World)
      → EndsAt w.ledger w.log (attempt_once parse chosen amount narrowed signer_address attempt w)
  attempt_once-Ends attempt w =
      elim (Result-cases (assert_within_ceiling w.ledger chosen.asset (pos amount))) [
        | inl (e, failed) ↦ rw (refused_once attempt w e failed) (refused e refl refl refl)
        | inr (u, passed) ↦ elim (sign_payment-cases narrowed w) [
          | inl (e, w₁, h, (same, at_log)) ↦
              rw (unsigned_once attempt w passed e w₁ h) (unsent e refl same at_log)
          | inr (headers, w₁, h, (same, at_log)) ↦ elim (send_paid-cases headers w₁) [
            | inl (e, w₂, k, (same', at_log')) ↦
                rw (unsent_once attempt w passed headers w₁ e w₂ h k)
                  (unsent e refl (same' ∙ same) (at_log' ∙ at_log))
            | inr (res, w₂, k, (same', at_log')) ↦
                rw (answered_once attempt w passed headers w₁ res w₂ h k) (
                  after_response-Ends attempt res w₂ w.ledger w.log (same' ∙ same)
                    (at_log' ∙ ap (λ l. answered res ∷ l) at_log) passed)
          ]
        ]
      ]
