-- ===== src/Upto/Budget.antt =====
-- contrib/issue-507-510-515/upto-settlement-receipt.ts: createSessionBudget. The `Map`s are association
-- lists, and `onReserve` is the log of what it was called with.
use vellar_sdk.Prelude.{
  ℤ, pos, ◌+ℤ◌, ◌-ℤ◌, le_ℤ, lt_ℤ, String, none, some, List, [], ◌∷◌, ◌++◌, map, Result, ok, err,
  ◌>>=◌, if◌then◌else◌,
}
use vellar_sdk.Payer.Ledger.{Amounts, get, put}
use vellar_sdk.Upto.{SettlementReceipt}

pub record SessionBudget : Type 0 where
  pub ceilings : Amounts
  pub spent : Amounts
  pub reserved : Amounts
  pub notified : Amounts

pub data BudgetError : Type 0 where
  over_session_ceiling : (asset : String) (requested committed ceiling : ℤ) → BudgetError

abbrev pub create_session_budget : Amounts → SessionBudget
create_session_budget ceilings = record {
  ceilings = ceilings;
  spent = [];
  reserved = [];
  notified = [];
}

-- `map.get(asset) ?? 0n`.
unfoldable pub amount_in : String → Amounts → ℤ
amount_in asset m = elim (get asset m) [ none ↦ pos 0 | some n ↦ n ]

unfoldable pub budget_ceiling_for : SessionBudget → String → Result BudgetError ℤ
budget_ceiling_for b asset = elim (get asset b.ceilings) [
  | none ↦ err (over_session_ceiling asset (pos 0) (pos 0) (pos 0))
  | some ceiling ↦ ok ceiling
]

-- What stays of a reservation.
unfoldable pub drop_reservation : SessionBudget → String → ℤ → SessionBudget
drop_reservation b asset authorized =
    let current = amount_in asset b.reserved in
    record b {
      reserved =
          put asset (if le_ℤ authorized current then current -ℤ authorized else pos 0) b.reserved;
    }

abbrev pub committed : SessionBudget → String → ℤ
committed b asset = amount_in asset b.spent +ℤ amount_in asset b.reserved

abbrev pub with_reservation : SessionBudget → String → ℤ → SessionBudget
with_reservation b asset authorized = record b {
  reserved = put asset (amount_in asset b.reserved +ℤ authorized) b.reserved;
  notified = b.notified ++ (asset, authorized) ∷ [];
}

unfoldable pub reserve : SessionBudget → String → ℤ → Result BudgetError SessionBudget
reserve b asset authorized = do
  ceiling ← budget_ceiling_for b asset
  if lt_ℤ ceiling (committed b asset +ℤ authorized)
      then err (over_session_ceiling asset authorized (committed b asset) ceiling)
      else ok (with_reservation b asset authorized)

unfoldable pub settle :
    SessionBudget → String → SettlementReceipt → Result BudgetError SessionBudget
settle b asset receipt = do
  ceiling ← budget_ceiling_for b asset
  let dropped = drop_reservation b asset receipt.authorized_ceiling
  ok (record dropped {
    spent = put asset (amount_in asset dropped.spent +ℤ receipt.settled_amount) dropped.spent;
  })

unfoldable pub release : SessionBudget → String → ℤ → Result BudgetError SessionBudget
release b asset authorized = do
  ceiling ← budget_ceiling_for b asset
  ok (drop_reservation b asset authorized)

-- `remaining > 0n ? remaining : 0n`.
abbrev pub floored : ℤ → ℤ
floored n = if lt_ℤ (pos 0) n then n else pos 0

unfoldable pub budget_remaining_for : SessionBudget → String → Result BudgetError ℤ
budget_remaining_for b asset = do
  ceiling ← budget_ceiling_for b asset
  ok (floored (ceiling -ℤ committed b asset))

pub record BudgetSnapshotRow : Type 0 where
  pub asset : String
  pub spent : ℤ
  pub reserved : ℤ
  pub ceiling : ℤ
  pub remaining : ℤ

abbrev pub snapshot_row : SessionBudget → String × ℤ → BudgetSnapshotRow
snapshot_row b (asset, ceiling) = record {
  asset = asset;
  spent = amount_in asset b.spent;
  reserved = amount_in asset b.reserved;
  ceiling = ceiling;
  remaining = floored (ceiling -ℤ committed b asset);
}

unfoldable pub budget_snapshot : SessionBudget → List BudgetSnapshotRow
budget_snapshot b = map (snapshot_row b) b.ceilings
