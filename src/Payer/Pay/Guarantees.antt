-- ===== src/Payer/Pay/Guarantees.antt =====
-- packages/mcp-x402-payer/src/payer.ts: what `payExclusively` guarantees, for every script of what
-- the endpoint answers and the signer signs.
use vellar_sdk.Prelude.{
  ℕ, ◌≤◌, pos, String, List, [], ◌∷◌, Result, ok, err, ◌≡◌, refl, ◌⊎◌, arith, inl, inr,
  Result-cases, string_eq,
}
use vellar_sdk.X402.{str, X402Error, PaymentRequirements, PaymentRequired}
use vellar_sdk.Guards.Amount.{parse_amount}
use vellar_sdk.Guards.Select.Sound.{IsChoice}
use vellar_sdk.Payer.Errors.{PayerError}
use vellar_sdk.Payer.Ledger.Spent.{IsWithin, record_spend-IsWithin}
use vellar_sdk.Payer.Wire.{narrow_to, Codecs, Act, signed, answered, debited, World}
use vellar_sdk.Payer.Attempt.{PayResult}
use vellar_sdk.Payer.Attempt.Ends.{IsUnspent}
use vellar_sdk.Payer.Pay.{PayerConfig, max_attempts, pay_options, pay_exclusively}
use vellar_sdk.Payer.Pay.Loop.{AllUnspent, AllButLast, signatures, unpaid, charged_once, paid_once}
use vellar_sdk.Payer.Pay.Payment.{
  PayEnds, IsOffered, unsigned, cleared, pay_exclusively-PayEnds, pay_exclusively-bad_limit,
}

-- No debit is in the log, and every response in it is evidence that nothing was spent.
abbrev pub IsFree : Codecs → List Act → Type 0
IsFree parse [] = Unit
IsFree parse (signed c ∷ log) = IsFree parse log
IsFree parse (answered res ∷ log) = IsUnspent parse res × IsFree parse log
IsFree parse (debited asset amount ∷ log) = ⊥

-- A log, newest entry first, in which nothing is signed, and nothing debited a second time, after
-- anything that may have cost something: before each signature the log is free, and before a debit
-- it is free but for the response that the debit is for.
abbrev pub IsCareful : Codecs → List Act → Type 0
IsCareful parse [] = Unit
IsCareful parse (signed c ∷ log) = IsFree parse log
IsCareful parse (answered res ∷ log) = IsFree parse log
IsCareful parse (debited asset amount ∷ []) = ⊥
IsCareful parse (debited asset amount ∷ answered res ∷ log) = IsFree parse log
IsCareful parse (debited asset amount ∷ a ∷ log) = ⊥

-- Every signature in the log is over one and the same challenge.
abbrev pub OnlySigned : PaymentRequired → List Act → Type 0
OnlySigned narrowed [] = Unit
OnlySigned narrowed (signed c ∷ log) = (c ≡ narrowed) × OnlySigned narrowed log
OnlySigned narrowed (_ ∷ log) = OnlySigned narrowed log

module _ (parse : Codecs) (narrowed : PaymentRequired) where
  AllUnspent-IsFree : (log : List Act) → AllUnspent parse narrowed log → IsFree parse log
  AllUnspent-IsFree [] h = tt
  AllUnspent-IsFree (signed c ∷ log) (_, h) = AllUnspent-IsFree log h
  AllUnspent-IsFree (answered res ∷ log) (u, h) = (u, AllUnspent-IsFree log h)
  AllUnspent-IsFree (debited asset amount ∷ log) h = absurd h

  AllButLast-IsCareful : (log : List Act) → AllButLast parse narrowed log → IsCareful parse log
  AllButLast-IsCareful [] h = tt
  AllButLast-IsCareful (signed c ∷ log) (_, h) = AllUnspent-IsFree log h
  AllButLast-IsCareful (answered res ∷ log) h = AllUnspent-IsFree log h
  AllButLast-IsCareful (debited asset amount ∷ log) h = absurd h

  AllUnspent-OnlySigned : (log : List Act) → AllUnspent parse narrowed log → OnlySigned narrowed log
  AllUnspent-OnlySigned [] h = tt
  AllUnspent-OnlySigned (signed c ∷ log) (e, h) = (e, AllUnspent-OnlySigned log h)
  AllUnspent-OnlySigned (answered res ∷ log) (u, h) = AllUnspent-OnlySigned log h
  AllUnspent-OnlySigned (debited asset amount ∷ log) h = absurd h

  AllButLast-OnlySigned : (log : List Act) → AllButLast parse narrowed log → OnlySigned narrowed log
  AllButLast-OnlySigned [] h = tt
  AllButLast-OnlySigned (signed c ∷ log) (e, h) = (e, AllUnspent-OnlySigned log h)
  AllButLast-OnlySigned (answered res ∷ log) h = AllUnspent-OnlySigned log h
  AllButLast-OnlySigned (debited asset amount ∷ log) h = absurd h

module _ (parse : Codecs) (config : PayerConfig) (max_amount : String) (w : World)
    (empty : w.log ≡ []) where
  abbrev pub Paid : Result PayerError PayResult × World
  Paid = pay_exclusively parse config max_amount w

  -- A payment ends as `PayEnds` says, or its limit does not parse and it does nothing.
  module _ (P : Result PayerError PayResult × World → Type 0) where
    pub by_ends :
        ((x : X402Error) (e : PayerError) → parse_amount (str max_amount) ≡ err x → P (err e, w))
        → ((max : ℕ)
            → parse_amount (str max_amount) ≡ ok max
            → PayEnds parse config w.fetches w.ledger max Paid.0 Paid.1
            → P Paid)
        → P Paid
    by_ends failed ended = elim (Result-cases (parse_amount (str max_amount))) [
      | inl (x, h) ↦ rw (pay_exclusively-bad_limit parse config max_amount x w h) (failed x _ h)
      | inr (max, h) ↦ ended max h (pay_exclusively-PayEnds parse config max_amount max w h empty)
    ]

  -- A payment that starts on a ledger within its ceilings leaves one, whatever the endpoint and the
  -- signer do and whether or not it fails.
  pub pay-IsWithin : IsWithin w.ledger → IsWithin Paid.1.ledger
  pay-IsWithin within = by_ends (λ t. IsWithin t.1.ledger) (λ x e h. within) (λ max h. kept max)
    where
      kept :
          (max : ℕ)
          → PayEnds parse config w.fetches w.ledger max Paid.0 Paid.1
          → IsWithin Paid.1.ledger
      kept max (unsigned same _ _) = rw same within
      kept max (cleared _ chosen amount _ _ (unpaid _ _ same _ _)) = rw same within
      kept max (cleared _ chosen amount _ _ (charged_once _ _ _ _ checked recorded _ _ _ _)) =
          record_spend-IsWithin w.ledger Paid.1.ledger chosen.asset (pos amount) within checked
            recorded
      kept max
            (cleared _ chosen amount _ _ (paid_once _ _ _ _ _ _ checked recorded _ _ _ _ _ _ _ _)) =
          record_spend-IsWithin w.ledger Paid.1.ledger chosen.asset (pos amount) within checked
            recorded

  -- Nothing is signed after anything that may have cost something: in what a payment does, before
  -- each signature no debit was made and every response so far is evidence that nothing was spent,
  -- and there is at most one debit, directly after the response that it is for. At most
  -- MAX_ATTEMPTS payments are signed.
  pub pay-IsCareful : IsCareful parse Paid.1.log × (signatures Paid.1.log ≤ max_attempts)
  pay-IsCareful =
      by_ends (λ t. IsCareful parse t.1.log × (signatures t.1.log ≤ max_attempts))
        (λ x e h. rw empty (tt, omega arith)) (λ max h. kept max)
    where
      kept :
          (max : ℕ)
          → PayEnds parse config w.fetches w.ledger max Paid.0 Paid.1
          → IsCareful parse Paid.1.log × (signatures Paid.1.log ≤ max_attempts)
      kept max (unsigned _ nothing _) = rw nothing (tt, omega arith)
      kept max (cleared c chosen _ _ _ (unpaid _ _ _ clean few)) =
          (AllButLast-IsCareful parse (narrow_to c chosen) Paid.1.log clean, few)
      kept max (cleared c chosen _ _ _ (charged_once _ _ log _ _ _ at_log clean _ few)) =
          (rw at_log (AllUnspent-IsFree parse (narrow_to c chosen) log clean), few)
      kept max (cleared c chosen _ _ _ (paid_once _ _ _ _ log _ _ _ at_log clean _ _ _ _ _ few)) =
          (rw at_log (AllUnspent-IsFree parse (narrow_to c chosen) log clean), few)

  -- Either nothing is signed, or the first answer of the endpoint is a response 402 whose header
  -- decodes to a challenge, and every signature is over this challenge narrowed to one and
  -- the same of its options, a cheapest one under the caller's limit in the configured assets.
  pub pay-signs-IsChoice :
      (signatures Paid.1.log ≡ 0)
      ⊎ ((max : ℕ) × (challenge : PaymentRequired) × (chosen : PaymentRequirements) × (amount : ℕ)
          × (parse_amount (str max_amount) ≡ ok max)
          × IsOffered parse config w.fetches challenge
          × IsChoice challenge (pay_options parse config (pos max)) config.caip2 chosen amount
          × OnlySigned (narrow_to challenge chosen) Paid.1.log)
  pay-signs-IsChoice =
      by_ends
        (λ t.
          (signatures t.1.log ≡ 0)
          ⊎ ((max : ℕ) × (challenge : PaymentRequired) × (chosen : PaymentRequirements)
              × (amount : ℕ) × (parse_amount (str max_amount) ≡ ok max)
              × IsOffered parse config w.fetches challenge
              × IsChoice challenge (pay_options parse config (pos max)) config.caip2 chosen amount
              × OnlySigned (narrow_to challenge chosen) t.1.log))
        (λ x e h. inl (rw empty refl)) kept
    where
      kept :
          (max : ℕ)
          → parse_amount (str max_amount) ≡ ok max
          → PayEnds parse config w.fetches w.ledger max Paid.0 Paid.1
          → (signatures Paid.1.log ≡ 0)
            ⊎ ((max : ℕ) × (challenge : PaymentRequired) × (chosen : PaymentRequirements)
                × (amount : ℕ) × (parse_amount (str max_amount) ≡ ok max)
                × IsOffered parse config w.fetches challenge
                × IsChoice challenge (pay_options parse config (pos max)) config.caip2 chosen amount
                × OnlySigned (narrow_to challenge chosen) Paid.1.log)
      kept max h (unsigned _ nothing _) = inl (rw nothing refl)
      kept max h (cleared c chosen n offer choice (unpaid _ _ _ clean few)) = inr (
        max,
        c,
        chosen,
        n,
        h,
        offer,
        choice,
        AllButLast-OnlySigned parse (narrow_to c chosen) Paid.1.log clean,
      )
      kept max h (cleared c chosen n offer choice (charged_once _ _ log _ _ _ at_log clean _ _)) =
          inr (
            max,
            c,
            chosen,
            n,
            h,
            offer,
            choice,
            rw at_log (AllUnspent-OnlySigned parse (narrow_to c chosen) log clean),
          )
      kept max h
            (cleared c chosen n offer choice
              (paid_once _ _ _ _ log _ _ _ at_log clean _ _ _ _ _ _)) =
          inr (
            max,
            c,
            chosen,
            n,
            h,
            offer,
            choice,
            rw at_log (AllUnspent-OnlySigned parse (narrow_to c chosen) log clean),
          )
