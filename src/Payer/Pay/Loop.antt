-- ===== src/Payer/Pay/Loop.antt =====
-- packages/mcp-x402-payer/src/payer.ts: every way in which the loop over the attempts can end.
use vellar_sdk.Prelude.{
  ℕ, zero, suc, ◌+◌, ◌≤◌, pos, String, true, Option, some, List, [], ◌∷◌, Result, ok, err, ◌≡◌,
  refl, ap, ◌∙◌, arith,
}
use vellar_sdk.Http.{Response}
use vellar_sdk.X402.{PaymentRequirements, PaymentRequired}
use vellar_sdk.Guards.Settlement.{settled, classify_settlement}
use vellar_sdk.Payer.Errors.{LastReason, PayerError, settlement_failed}
use vellar_sdk.Payer.Ledger.{SpendLedger, assert_within_ceiling, record_spend}
use vellar_sdk.Payer.Wire.{Codecs, Act, signed, answered, debited, World, ◌>>=◌}
use vellar_sdk.Payer.Attempt.{Settlement, PayResult, Round, again, finished, attempt_once}
use vellar_sdk.Payer.Attempt.Ends.{
  IsUnspent, Ends, refused, unsent, rejected, retried, charged, paid,
}
use vellar_sdk.Payer.Attempt.Rounds.{attempt_once-Ends}
use vellar_sdk.Payer.Pay.{PayerConfig, max_attempts, attempts_from}

-- Nothing in the log can have cost anything: it holds signatures of the one narrowed challenge and
-- responses that are evidence of no spend, and no debit.
abbrev pub AllUnspent : Codecs → PaymentRequired → List Act → Type 0
AllUnspent parse narrowed [] = Unit
AllUnspent parse narrowed (signed c ∷ log) = (c ≡ narrowed) × AllUnspent parse narrowed log
AllUnspent parse narrowed (answered res ∷ log) = IsUnspent parse res × AllUnspent parse narrowed log
AllUnspent parse narrowed (debited asset amount ∷ log) = ⊥

-- The same, but for the newest response.
abbrev pub AllButLast : Codecs → PaymentRequired → List Act → Type 0
AllButLast parse narrowed (answered res ∷ log) = AllUnspent parse narrowed log
AllButLast parse narrowed log = AllUnspent parse narrowed log

pub AllUnspent-last :
    (parse : Codecs) (narrowed : PaymentRequired) (log : List Act)
    → AllUnspent parse narrowed log
    → AllButLast parse narrowed log
AllUnspent-last parse narrowed [] h = tt
AllUnspent-last parse narrowed (answered res ∷ log) h = h.1
AllUnspent-last parse narrowed (signed c ∷ log) h = h
AllUnspent-last parse narrowed (debited asset amount ∷ log) h = h

-- The signatures in a log.
abbrev pub signatures : List Act → ℕ
signatures [] = 0
signatures (signed c ∷ log) = suc (signatures log)
signatures (_ ∷ log) = signatures log

module _ (parse : Codecs) (config : PayerConfig) (chosen : PaymentRequirements) (amount : ℕ)
    (narrowed : PaymentRequired) where
  -- How the loop ends, from the ledger `l`, after at most `most` signatures.
  pub data LoopEnds (l : SpendLedger) (most : ℕ) (t : Result PayerError PayResult) (w : World)
      : Type 0 where
    unpaid :
        (e : PayerError)
        → t ≡ err e
        → w.ledger ≡ l
        → AllButLast parse narrowed w.log
        → signatures w.log ≤ most
        → LoopEnds l most t w
    charged_once :
        (e : PayerError) (res : Response) (log : List Act)
        → t ≡ err e
        → assert_within_ceiling l chosen.asset (pos amount) ≡ ok tt
        → record_spend l chosen.asset (pos amount) ≡ ok w.ledger
        → w.log ≡ debited chosen.asset amount ∷ answered res ∷ log
        → AllUnspent parse narrowed log
        → ¬ IsUnspent parse res
        → signatures w.log ≤ most
        → LoopEnds l most t w
    paid_once :
        (p : PayResult) (s : Settlement) (res : Response) (payer : Option String) (log : List Act)
        → t ≡ ok p
        → assert_within_ceiling l chosen.asset (pos amount) ≡ ok tt
        → record_spend l chosen.asset (pos amount) ≡ ok w.ledger
        → w.log ≡ debited chosen.asset amount ∷ answered res ∷ log
        → AllUnspent parse narrowed log
        → classify_settlement parse.settle res ≡ settled s.transaction payer
        → p.paid ≡ true
        → p.settlement ≡ some s
        → s.asset ≡ chosen.asset
        → s.amount ≡ amount
        → signatures w.log ≤ most
        → LoopEnds l most t w

  abbrev pub LoopEndsAt : SpendLedger → ℕ → Result PayerError PayResult × World → Type 0
  LoopEndsAt l most t = LoopEnds l most t.0 t.1

  -- What the loop does with the end of a round.
  module _ (left attempt : ℕ) (last : Option LastReason) (w w₁ : World) where
    abbrev Loop : Result PayerError PayResult × World
    Loop = attempts_from parse config chosen amount narrowed (suc left) attempt last w

    abbrev Once : Result PayerError Round × World
    Once = attempt_once parse chosen amount narrowed config.signer_address attempt w

    loop_err : (e : PayerError) → Once ≡ (err e, w₁) → Loop ≡ (err e, w₁)
    unfolding attempts_from ◌>>=◌
    loop_err e h = rw h

    loop_again :
        (r : LastReason)
        → Once ≡ (ok (again r), w₁)
        → Loop ≡ attempts_from parse config chosen amount narrowed left (attempt + 1) (some r) w₁
    unfolding attempts_from ◌>>=◌
    loop_again r h = rw h

    loop_finished : (p : PayResult) → Once ≡ (ok (finished p), w₁) → Loop ≡ (ok p, w₁)
    unfolding attempts_from ◌>>=◌
    loop_finished p h = rw h

  -- The round's end, brought to the loop: `later` is the loop's end from the world after a retry.
  round-LoopEnds :
      (left attempt most : ℕ) (last : Option LastReason) (w w₁ : World) (l : SpendLedger)
      (t : Result PayerError Round)
      → w.ledger ≡ l
      → AllUnspent parse narrowed w.log
      → signatures w.log + suc left ≤ most
      → attempt_once parse chosen amount narrowed config.signer_address attempt w ≡ (t, w₁)
      → Ends parse chosen amount narrowed config.signer_address w.ledger w.log t w₁
      → ((r : LastReason)
          → w₁.ledger ≡ l
          → AllUnspent parse narrowed w₁.log
          → signatures w₁.log + left ≤ most
          → LoopEndsAt l most
              (attempts_from parse config chosen amount narrowed left (attempt + 1) (some r) w₁))
      → LoopEndsAt l most
          (attempts_from parse config chosen amount narrowed (suc left) attempt last w)
  round-LoopEnds left attempt most last w w₁ l t same clean few at_t (refused e te sl at_log)
        later =
      rw (loop_err left attempt last w w₁ e (at_t ∙ ap (λ r. (r, w₁)) te)) (
        unpaid e refl (sl ∙ same) (rw at_log (AllUnspent-last parse narrowed w.log clean))
          (rw at_log (omega arith)))
  round-LoopEnds left attempt most last w w₁ l t same clean few at_t (unsent e te sl at_log) later =
      rw (loop_err left attempt last w w₁ e (at_t ∙ ap (λ r. (r, w₁)) te))
        (unpaid e refl (sl ∙ same) (rw at_log (refl, clean)) (rw at_log (omega arith)))
  round-LoopEnds left attempt most last w w₁ l t same clean few at_t (rejected e res te sl at_log)
        later =
      rw (loop_err left attempt last w w₁ e (at_t ∙ ap (λ r. (r, w₁)) te))
        (unpaid e refl (sl ∙ same) (rw at_log (refl, clean)) (rw at_log (omega arith)))
  round-LoopEnds left attempt most last w w₁ l t same clean few at_t (retried r res te sl at_log h)
        later =
      rw (loop_again left attempt last w w₁ r (at_t ∙ ap (λ q. (q, w₁)) te))
        (later r (sl ∙ same) (rw at_log (h, (refl, clean))) (rw at_log (omega arith)))
  round-LoopEnds left attempt most last w w₁ l t same clean few at_t
        (charged e res te checked recorded at_log h) later =
      rw (loop_err left attempt last w w₁ e (at_t ∙ ap (λ r. (r, w₁)) te)) (
        charged_once e res (signed narrowed ∷ w.log) refl (rw (← same) checked)
          (rw (← same) recorded) at_log (refl, clean) h (rw at_log (omega arith)))
  round-LoopEnds left attempt most last w w₁ l t same clean few at_t
        (paid p s res payer te checked recorded at_log h a b c d) later =
      rw (loop_finished left attempt last w w₁ p (at_t ∙ ap (λ r. (r, w₁)) te)) (
        paid_once p s res payer (signed narrowed ∷ w.log) refl (rw (← same) checked)
          (rw (← same) recorded) at_log (refl, clean) h a b c d (rw at_log (omega arith)))

  pub attempts_from-LoopEnds :
      (left attempt most : ℕ) (last : Option LastReason) (w : World) (l : SpendLedger)
      → w.ledger ≡ l
      → AllUnspent parse narrowed w.log
      → signatures w.log + left ≤ most
      → LoopEndsAt l most (attempts_from parse config chosen amount narrowed left attempt last w)
  unfolding attempts_from
  attempts_from-LoopEnds zero attempt most last w l same clean few =
      unpaid (settlement_failed max_attempts last) refl same
        (AllUnspent-last parse narrowed w.log clean) (omega arith)
  attempts_from-LoopEnds (suc left) attempt most last w l same clean few =
      round-LoopEnds left attempt most last w
        (attempt_once parse chosen amount narrowed config.signer_address attempt w).1 l
        (attempt_once parse chosen amount narrowed config.signer_address attempt w).0 same clean few
        refl (attempt_once-Ends parse chosen amount narrowed config.signer_address attempt w)
        (λ r.
          attempts_from-LoopEnds left (attempt + 1) most (some r)
            (attempt_once parse chosen amount narrowed config.signer_address attempt w).1 l)
