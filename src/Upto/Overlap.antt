-- ===== src/Upto/Overlap.antt =====
-- contrib/issue-507-510-515/upto-settlement-receipt.ts: a session budget under payments that overlap, as
-- the documentation of SessionBudget describes its use. A payment reserves its ceiling, and later settles
-- with a receipt under this ceiling or is released; payments in flight do so in any order.
use vellar_sdk.Prelude.{
  ℕ, zero, suc, ◌+◌, ℤ, pos, ◌≤ℤ◌, All, String, Option, none, some, List, [], ◌∷◌, ok, err, ◌≡◌,
  ◌==◌, string_eq, if◌then◌else◌,
}
use vellar_sdk.Payer.Ledger.{Amounts, get}
use vellar_sdk.Upto.{SettlementReceiptInput, ReportedAmount, build_settlement_receipt}
use vellar_sdk.Upto.Budget.{
  SessionBudget, create_session_budget, amount_in, reserve, settle, release,
}

abbrev pub Payments : Type 0
Payments = List (String × ℤ)

-- The budget, the payments in flight with their ceilings, and what was settled, payment by payment.
pub record Session : Type 0 where
  pub budget : SessionBudget
  pub in_flight : Payments
  pub settled : Payments

-- A payment is signed, a response to the one at this place reports an amount, or this one fails.
pub data Op : Type 0 where
  started : (asset : String) → (ceiling : ℤ) → Op
  confirmed : (place : ℕ) → ReportedAmount → Op
  cancelled : (place : ℕ) → Op

-- The payment at a place, and the others.
abbrev pub take_at : ℕ → Payments → Option ((String × ℤ) × Payments)
take_at n [] = none
take_at zero (p ∷ ps) = some (p, ps)
take_at (suc n) (p ∷ ps) = elim (take_at n ps) [ none ↦ none | some (q, qs) ↦ some (q, p ∷ qs) ]

abbrev pub input_for : String → ℤ → ReportedAmount → SettlementReceiptInput
input_for asset ceiling reported = record {
  authorized_ceiling = ceiling;
  reported_settled_amount = reported;
  transaction = "";
  payer = none;
  asset = asset;
  network = "";
}

unfoldable pub begin_payment : String → ℤ → Session → Session
begin_payment asset ceiling s = elim (reserve s.budget asset ceiling) [
  | err e ↦ s
  | ok b ↦ record s { budget = b; in_flight = (asset, ceiling) ∷ s.in_flight }
]

unfoldable pub confirm_payment : String × ℤ → Payments → ReportedAmount → Session → Session
confirm_payment (asset, ceiling) others reported s =
    elim (build_settlement_receipt (input_for asset ceiling reported)) [
      | err e ↦ s
      | ok receipt ↦ elim (settle s.budget asset receipt) [
        | err e ↦ s
        | ok b ↦ record {
          budget = b;
          in_flight = others;
          settled = (asset, receipt.settled_amount) ∷ s.settled;
        }
      ]
    ]

unfoldable pub cancel_payment : String × ℤ → Payments → Session → Session
cancel_payment (asset, ceiling) others s = elim (release s.budget asset ceiling) [
  | err e ↦ s
  | ok b ↦ record s { budget = b; in_flight = others }
]

unfoldable pub run_op : Op → Session → Session
run_op (started asset ceiling) s = begin_payment asset ceiling s
run_op (confirmed place reported) s = elim (take_at place s.in_flight) [
  | none ↦ s
  | some (payment, others) ↦ confirm_payment payment others reported s
]
run_op (cancelled place) s = elim (take_at place s.in_flight) [
  | none ↦ s
  | some (payment, others) ↦ cancel_payment payment others s
]

abbrev pub run_ops : List Op → Session → Session
run_ops [] s = s
run_ops (op ∷ ops) s = run_ops ops (run_op op s)

abbrev pub open_session : Amounts → Session
open_session ceilings = record {
  budget = create_session_budget ceilings;
  in_flight = [];
  settled = [];
}

abbrev pub pos_of : ℤ → ℕ
pos_of (pos n) = n
pos_of _ = 0

-- An amount that is not negative.
abbrev pub IsCounted : String × ℤ → Type 0
IsCounted (asset, n) = pos (pos_of n) ≡ n

-- A payment under a ceiling that is not negative, or the end of one.
abbrev pub IsPayment : Op → Type 0
IsPayment (started asset ceiling) = pos 0 ≤ℤ ceiling
IsPayment (confirmed place reported) = Unit
IsPayment (cancelled place) = Unit

-- The payments of an asset, together; amounts that are negative do not count.
abbrev pub held : String → Payments → ℕ
held asset [] = 0
held asset ((a, n) ∷ ps) = (if a == asset then pos_of n else 0) + held asset ps

-- The budget counts, for every asset, exactly the ceilings in flight as reserved and exactly what was
-- settled as spent, and the two stay within the ceiling of the asset.
pub record IsHeld (ceilings : Amounts) (s : Session) : Type 0 where
  pub same : s.budget.ceilings ≡ ceilings
  pub counted : All IsCounted s.in_flight
  pub at_reserved : (k : String) → amount_in k s.budget.reserved ≡ pos (held k s.in_flight)
  pub at_spent : (k : String) → amount_in k s.budget.spent ≡ pos (held k s.settled)
  pub at_ceiling :
      (k : String) (c : ℤ)
      → get k ceilings ≡ some c
      → pos (held k s.settled + held k s.in_flight) ≤ℤ c
