-- ===== src/Payer/Pay/Outcome.antt =====
-- packages/mcp-x402-payer/src/payer.ts: what a finished payment has spent and what its result says,
-- and what a quote says of the payment that follows it.
use vellar_sdk.Prelude.{
  ℕ, ◌≤◌, pos, ℤ, ◌+ℤ◌, le_ℤ, String, true, false, Option, none, some, List, [], Result, ok, err,
  ◌≡◌, refl, ◌⊎◌, ◌↔◌, arith, inl, inr, Result-cases, Bool-cases, ◌==◌, string_eq, if◌then◌else◌,
  eq_iff,
}
use vellar_sdk.Http.{Response}
use vellar_sdk.X402.{str, PaymentRequirements, PaymentRequired}
use vellar_sdk.Guards.Amount.{parse_amount}
use vellar_sdk.Guards.Select.{includes}
use vellar_sdk.Guards.Settlement.{settled, classify_settlement}
use vellar_sdk.Guards.Select.Sound.{IsChoice}
use vellar_sdk.Payer.Errors.{PayerError}
use vellar_sdk.Payer.Ledger.{
  SpendLedger, spent_for, assert_within_ceiling, record_spend, remaining_for,
}
use vellar_sdk.Payer.Ledger.Spent.{IsWithin, spent_for-record_spend, assert-remaining_iff}
use vellar_sdk.Payer.Wire.{Codecs, World}
use vellar_sdk.Payer.Attempt.{Settlement, PayResult}
use vellar_sdk.Payer.Pay.{
  PayerConfig, pay_options, pay_exclusively, QuoteResult, over_remaining, quote_cleared,
}
use vellar_sdk.Payer.Pay.Loop.{unpaid, charged_once, paid_once}
use vellar_sdk.Payer.Pay.Payment.{PayEnds, unsigned, cleared}
use vellar_sdk.Payer.Pay.Guarantees.{by_ends}

module _ (parse : Codecs) (config : PayerConfig) (max_amount : String) where
  -- What a ledger may have more spent of the asset `k` after a payment: nothing, or once an amount
  -- of at most the caller's limit, of an asset that the configuration allows.
  abbrev pub SpentAtMost : String → SpendLedger → SpendLedger → Type 0
  SpentAtMost k l l' =
      (spent_for l' k ≡ spent_for l k)
      ⊎ ((max : ℕ) × (amount : ℕ) × (parse_amount (str max_amount) ≡ ok max)
          × (amount ≤ max)
          × (includes config.allowed_assets k ≡ true)
          × (spent_for l' k ≡ spent_for l k +ℤ pos amount))

  -- The result of a payment that does not fail: the free content, with nothing signed and the ledger
  -- as it was, or a settlement of at most the caller's limit that the facilitator confirmed and the
  -- ledger has recorded.
  pub data IsReceipt (w w' : World) (p : PayResult) : Type 0 where
    free :
        p.paid ≡ false → p.settlement ≡ none → w'.ledger ≡ w.ledger → w'.log ≡ [] → IsReceipt w w' p
    confirmed :
        (s : Settlement) (res : Response) (payer : Option String) (max : ℕ)
        → p.paid ≡ true
        → p.settlement ≡ some s
        → classify_settlement parse.settle res ≡ settled s.transaction payer
        → parse_amount (str max_amount) ≡ ok max
        → s.amount ≤ max
        → includes config.allowed_assets s.asset ≡ true
        → record_spend w.ledger s.asset (pos s.amount) ≡ ok w'.ledger
        → IsReceipt w w' p

  module _ (w : World) (empty : w.log ≡ []) where
    abbrev Paid : Result PayerError PayResult × World
    Paid = pay_exclusively parse config max_amount w

    charged_at_most :
        (k : String) (l' : SpendLedger) (max : ℕ) (c : PaymentRequired)
        (chosen : PaymentRequirements) (amount : ℕ)
        → parse_amount (str max_amount) ≡ ok max
        → IsChoice c (pay_options parse config (pos max)) config.caip2 chosen amount
        → record_spend w.ledger chosen.asset (pos amount) ≡ ok l'
        → SpentAtMost k w.ledger l'
    charged_at_most k l' max c chosen amount h choice recorded =
        let (_, spent) = spent_for-record_spend w.ledger l' chosen.asset k (pos amount) recorded in
        let bound : amount ≤ max = ground (arith, choice.within) in
        let allowed : includes config.allowed_assets chosen.asset ≡ true = choice.payable.allowed in
        elim (Bool-cases (chosen.asset == k)) [
          | inl same ↦
              let e : chosen.asset ≡ k = (eq_iff chosen.asset k).0 same in
              inr (max, amount, h, bound, rw (← e) allowed, ground (arith, eq_iff chosen.asset k))
          | inr differ ↦ inl (ground arith)
        ]

    -- A payment spends, of any asset, nothing or one amount of at most the caller's limit; and the
    -- latter only of an asset that the configuration allows.
    pub pay-spent_for : (k : String) → SpentAtMost k w.ledger Paid.1.ledger
    pay-spent_for k =
        by_ends parse config max_amount w empty (λ t. SpentAtMost k w.ledger t.1.ledger)
          (λ x e h. inl refl) spends
      where
        spends :
            (max : ℕ)
            → parse_amount (str max_amount) ≡ ok max
            → PayEnds parse config w.fetches w.ledger max Paid.0 Paid.1
            → SpentAtMost k w.ledger Paid.1.ledger
        spends max h (unsigned same _ _) = inl (rw same refl)
        spends max h (cleared _ _ _ _ _ (unpaid _ _ same _ _)) = inl (rw same refl)
        spends max h (cleared c chosen n offer choice (charged_once _ _ _ _ _ recorded _ _ _ _)) =
            charged_at_most k Paid.1.ledger max c chosen n h choice recorded
        spends max h
              (cleared c chosen n offer choice (paid_once _ _ _ _ _ _ _ recorded _ _ _ _ _ _ _ _)) =
            charged_at_most k Paid.1.ledger max c chosen n h choice recorded

    -- A payment that does not fail returns the content for free, with nothing signed or spent, or a
    -- receipt: the facilitator's response is classified as settled with the receipt's transaction,
    -- the amount is at most the caller's limit, the asset is allowed, and the ledger has recorded
    -- just this spend.
    pub pay-IsReceipt : (p : PayResult) → Paid.0 ≡ ok p → IsReceipt w Paid.1 p
    pay-IsReceipt p e =
        by_ends parse config max_amount w empty (λ t. t.0 ≡ ok p → IsReceipt w t.1 p)
          (λ x y h k. cc) receipt e
      where
        receipt :
            (max : ℕ)
            → parse_amount (str max_amount) ≡ ok max
            → PayEnds parse config w.fetches w.ledger max Paid.0 Paid.1
            → Paid.0 ≡ ok p
            → IsReceipt w Paid.1 p
        receipt max h (unsigned same nothing when_ok) e =
            let (none_paid, no_settlement) = when_ok p e in
            free none_paid no_settlement same nothing
        receipt max h (cleared _ _ _ _ _ (unpaid _ failed _ _ _)) e = cc
        receipt max h (cleared _ _ _ _ _ (charged_once _ _ _ failed _ _ _ _ _ _)) e = cc
        receipt max h
              (cleared c chosen n offer choice (
                paid_once q s res payer _ is_ok _ recorded _ _ by_class is_paid has at_asset
                  at_amount _))
              e =
            let same : p ≡ q = cc in
            let bound : n ≤ max = ground (arith, choice.within) in
            confirmed s res payer max (rw same is_paid) (rw same has) by_class h
              (rw at_amount bound) (rw at_asset choice.payable.allowed)
              (rw (at_asset, at_amount) recorded)

quote_cleared-eq :
    (parse : Codecs) (config : PayerConfig) (l : SpendLedger) (status : ℕ)
    (offered : List PaymentRequirements) (chosen : PaymentRequirements) (amount : ℕ) (r : ℤ)
    → remaining_for l chosen.asset ≡ ok r
    → (q : QuoteResult) × (quote_cleared parse config l status offered (chosen, amount) ≡ ok q)
      × (q.payable ≡ le_ℤ (pos amount) r)
unfolding quote_cleared
quote_cleared-eq parse config l status offered chosen amount r h = (
  record {
    requires_payment = true;
    offered = offered;
    selected = some chosen;
    payable = le_ℤ (pos amount) r;
    refusal = if le_ℤ (pos amount) r then none else some (over_remaining amount r);
    session_remaining = some r;
    status = status;
  },
  ground arith,
  refl,
)

quote_cleared-err :
    (parse : Codecs) (config : PayerConfig) (l : SpendLedger) (status : ℕ)
    (offered : List PaymentRequirements) (chosen : PaymentRequirements) (amount : ℕ)
    (e : PayerError)
    → remaining_for l chosen.asset ≡ err e
    → quote_cleared parse config l status offered (chosen, amount) ≡ err e
unfolding quote_cleared
quote_cleared-err parse config l status offered chosen amount e h = ground arith

-- A quote for an option that was cleared says that it is payable exactly when the check that a
-- payment makes for it passes, on a ledger that is within its ceilings.
pub quote_cleared-payable_iff :
    (parse : Codecs) (config : PayerConfig) (l : SpendLedger) (status : ℕ)
    (offered : List PaymentRequirements) (chosen : PaymentRequirements) (amount : ℕ)
    → IsWithin l
    → (assert_within_ceiling l chosen.asset (pos amount) ≡ ok tt) ↔ (
        (q : QuoteResult) × (quote_cleared parse config l status offered (chosen, amount) ≡ ok q)
        × (q.payable ≡ true))
quote_cleared-payable_iff parse config l status offered chosen amount within =
    let check = assert-remaining_iff l chosen.asset (pos amount) within in
    elim (Result-cases (remaining_for l chosen.asset)) [
      | inl (e, h) ↦
          let refused = quote_cleared-err parse config l status offered chosen amount e h in
          (λ passed. let (r, k, _) = check.0 passed in cc, λ (q, k, _). cc)
      | inr (r, h) ↦
          let (q, at_q, payable) =
            quote_cleared-eq parse config l status offered chosen amount r h in
          (
            λ passed. let (r', k, le) = check.0 passed in (q, at_q, ground arith),
            λ (q', k, is_payable). let same : q ≡ q' = cc in check.1 (r, h, ground arith),
          )
    ]
