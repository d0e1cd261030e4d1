-- ===== src/Payer/Pay/Payment.antt =====
-- packages/mcp-x402-payer/src/payer.ts: every way in which a payment can end.
use vellar_sdk.Prelude.{
  ℕ, pos, String, true, false, not, none, some, List, Option, [], ◌∷◌, Result, ok, err, ◌≡◌, ◌∙◌,
  sym, ℤ, arith, inl, inr, Result-cases, Bool-cases, Option-cases, ◌==◌, nat_eq,
}
use vellar_sdk.Http.{Response}
use vellar_sdk.X402.{str, X402Error, PaymentRequirements, PaymentRequired}
use vellar_sdk.Guards.Amount.{parse_amount}
use vellar_sdk.Guards.Select.{select_requirements}
use vellar_sdk.Guards.Select.Sound.{IsChoice, select-IsChoice}
use vellar_sdk.Payer.Errors.{PayerError, guard_error, body_unreadable}
use vellar_sdk.Payer.Ledger.{SpendLedger, assert_within_ceiling}
use vellar_sdk.Payer.Wire.{narrow_to, Codecs, World, ◌>>=◌, check}
use vellar_sdk.Payer.Wire.Steps.{fetch-cases, fetch-head}
use vellar_sdk.Payer.Attempt.{PayResult}
use vellar_sdk.Payer.Pay.{
  PayerConfig, max_attempts, pay_options, clear_one_option, pay_cleared, challenge_of, after_first,
  pay_exclusively,
}
use vellar_sdk.Payer.Pay.Loop.{LoopEnds, attempts_from-LoopEnds}

module _ (parse : Codecs) (config : PayerConfig) where
  clear_one_option-eq :
      (challenge : PaymentRequired) (max_amount : ℤ) (r : PaymentRequirements) (n : ℕ)
      → select_requirements challenge (pay_options parse config max_amount) config.caip2 ≡ ok r
      → parse_amount r.amount ≡ ok n
      → clear_one_option parse config challenge max_amount ≡ ok (r, n)
  unfolding clear_one_option
  clear_one_option-eq challenge max_amount r n h price = ground arith

  clear_one_option-err :
      (challenge : PaymentRequired) (max_amount : ℤ) (x : X402Error)
      → select_requirements challenge (pay_options parse config max_amount) config.caip2 ≡ err x
      → clear_one_option parse config challenge max_amount ≡ err (guard_error x)
  unfolding clear_one_option
  clear_one_option-err challenge max_amount x h = ground arith

  -- The option that is cleared is the one that the guards choose, and its price is parsed.
  pub clear_one_option-IsChoice :
      (challenge : PaymentRequired) (max_amount : ℤ) (chosen : PaymentRequirements) (amount : ℕ)
      → clear_one_option parse config challenge max_amount ≡ ok (chosen, amount)
      → IsChoice challenge (pay_options parse config max_amount) config.caip2 chosen amount
  clear_one_option-IsChoice challenge max_amount chosen amount e =
      elim (Result-cases
        (select_requirements challenge (pay_options parse config max_amount) config.caip2)) [
          | inl (x, h) ↦ cc (clear_one_option-err challenge max_amount x h)
          | inr (r, h) ↦
              let (n, choice) = select-IsChoice challenge _ config.caip2 r h in
              let same = sym e ∙ clear_one_option-eq challenge max_amount r n h choice.price in
              let same_option : chosen ≡ r = cc same in
              let same_price : amount ≡ n = cc same in rw same_option (rw same_price choice)
        ]

  -- The first answer of a script is a response that carries the challenge.
  abbrev pub IsOffered : List (Option Response) → PaymentRequired → Type 0
  IsOffered script challenge =
      (first : Response) × (rest : List (Option Response)) × (script ≡ some first ∷ rest)
      × (first.status ≡ 402)
      × (challenge_of parse config first ≡ ok challenge)

  -- How a payment with the parsed limit `max` ends, from the ledger `l` and an empty log, where the
  -- endpoint answers as the script says.
  pub data PayEnds (script : List (Option Response)) (l : SpendLedger) (max : ℕ)
      (t : Result PayerError PayResult) (w : World) : Type 0 where
    -- no challenge was answered, or one was refused before anything was signed
    unsigned :
        w.ledger ≡ l
        → w.log ≡ []
        → ((p : PayResult) → t ≡ ok p → (p.paid ≡ false) × (p.settlement ≡ none))
        → PayEnds script l max t w
    -- one option was cleared, and the loop has run for it
    cleared :
        (challenge : PaymentRequired) (chosen : PaymentRequirements) (amount : ℕ)
        → IsOffered script challenge
        → IsChoice challenge (pay_options parse config (pos max)) config.caip2 chosen amount
        → LoopEnds parse config chosen amount (narrow_to challenge chosen) l max_attempts t w
        → PayEnds script l max t w

  abbrev pub PayEndsAt :
      List (Option Response) → SpendLedger → ℕ → Result PayerError PayResult × World → Type 0
  PayEndsAt script l max t = PayEnds script l max t.0 t.1

  module _ (script : List (Option Response)) (max : ℕ) (w : World) (l : SpendLedger)
      (same : w.ledger ≡ l) (empty : w.log ≡ []) where
    failed : (e : PayerError) → PayEndsAt script l max (err e, w)
    failed e = unsigned same empty (λ p h. cc h)

    pay_cleared-PayEnds :
        (challenge : PaymentRequired) (chosen : PaymentRequirements) (amount : ℕ)
        → IsOffered script challenge
        → IsChoice challenge (pay_options parse config (pos max)) config.caip2 chosen amount
        → PayEndsAt script l max (pay_cleared parse config challenge (chosen, amount) w)
    unfolding pay_cleared ◌>>=◌ check
    pay_cleared-PayEnds challenge chosen amount offer choice =
        elim (Result-cases (assert_within_ceiling w.ledger chosen.asset (pos amount))) [
          | inl (e, h) ↦ rw h (failed e)
          | inr (u, h) ↦ rw h (
              cleared challenge chosen amount offer choice (
                attempts_from-LoopEnds parse config chosen amount (narrow_to challenge chosen)
                  max_attempts 1 max_attempts none w l same (rw empty tt) (rw empty (omega arith))))
        ]

    free-PayEnds :
        (first : Response)
        → not (first.status == 402) ≡ true
        → PayEndsAt script l max (after_first parse config max first w)
    unfolding after_first ◌>>=◌
    free-PayEnds first h = elim (Option-cases first.body) [
      | inl missing ↦ rw (h, missing) (failed body_unreadable)
      | inr (text, there) ↦
          rw (h, there) (unsigned same empty (λ p e. (ground arith, ground arith)))
    ]

    after_first-PayEnds :
        (first : Response) (rest : List (Option Response))
        → script ≡ some first ∷ rest
        → PayEndsAt script l max (after_first parse config max first w)
    unfolding after_first ◌>>=◌
    after_first-PayEnds first rest at_head = elim (Bool-cases (not (first.status == 402))) [
      | inl h ↦ free-PayEnds first h
      | inr h ↦ elim (Result-cases (challenge_of parse config first)) [
        | inl (e, k) ↦ rw (h, k) (failed e)
        | inr (challenge, k) ↦
            elim (Result-cases (clear_one_option parse config challenge (pos max))) [
              | inl (e, c) ↦ rw (h, k, c) (failed e)
              | inr ((chosen, amount), c) ↦
                  rw (h, k, c)
                    (pay_cleared-PayEnds challenge chosen amount
                      (first, rest, at_head, ground (arith, h), k)
                      (clear_one_option-IsChoice challenge (pos max) chosen amount c))
            ]
      ]
    ]

  -- A payment whose limit is the text of `max` ends in one of the ways of `PayEnds`.
  pub pay_exclusively-PayEnds :
      (max_amount : String) (max : ℕ) (w : World)
      → parse_amount (str max_amount) ≡ ok max
      → w.log ≡ []
      → PayEndsAt w.fetches w.ledger max (pay_exclusively parse config max_amount w)
  unfolding pay_exclusively ◌>>=◌
  pay_exclusively-PayEnds max_amount max w limit empty = elim (fetch-cases w) [
    | inl (e, w₁, h, (same, at_log)) ↦
        rw (limit, h) (failed w.fetches max w₁ w.ledger same (at_log ∙ empty) e)
    | inr (first, w₁, h, (same, at_log)) ↦
        rw (limit, h)
          (after_first-PayEnds w.fetches max w₁ w.ledger same (at_log ∙ empty) first w₁.fetches
            (fetch-head w first w₁ h))
  ]

  -- A limit that does not parse fails the payment before anything is sent.
  pub pay_exclusively-bad_limit :
      (max_amount : String) (x : X402Error) (w : World)
      → parse_amount (str max_amount) ≡ err x
      → pay_exclusively parse config max_amount w ≡ (err (guard_error x), w)
  unfolding pay_exclusively ◌>>=◌
  pay_exclusively-bad_limit max_amount x w h = rw h
