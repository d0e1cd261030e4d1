-- ===== src/Payer/Ledger.antt =====
-- packages/mcp-x402-payer/src/ledger.ts: the spend ledger. The two `Map`s are association lists; the
-- code never removes an entry.
pub mod Spent
use vellar_sdk.Prelude.{
  ℤ, pos, ◌+ℤ◌, ◌-ℤ◌, le_ℤ, lt_ℤ, String, Bool, Option, none, some, List, [], ◌∷◌, map, Result, ok,
  err, ◌>>=◌, ◌==◌, string_eq, if◌then◌else◌,
}
use vellar_sdk.Payer.Errors.{PayerError, session_ceiling_exceeded}

abbrev pub Amounts : Type 0
Amounts = List (String × ℤ)

-- `map.get(key)`.
unfoldable pub get : String → Amounts → Option ℤ
get key [] = none
get key ((k, v) ∷ m) = if k == key then some v else get key m

-- `map.set(key, value)`.
unfoldable pub put : String → ℤ → Amounts → Amounts
put key v [] = (key, v) ∷ []
put key v ((k, w) ∷ m) = if k == key then (k, v) ∷ m else (k, w) ∷ put key v m

pub record SpendLedger : Type 0 where
  pub ceilings : Amounts
  pub spent : Amounts

-- `createSpendLedger(ceilings)`.
abbrev pub create_spend_ledger : Amounts → SpendLedger
create_spend_ledger ceilings = record { ceilings = ceilings; spent = [] }

unfoldable pub ceiling_for : SpendLedger → String → Result PayerError ℤ
ceiling_for l asset = elim (get asset l.ceilings) [
  | none ↦ err (session_ceiling_exceeded asset (pos 0) (pos 0) (pos 0))
  | some ceiling ↦ ok ceiling
]

unfoldable pub spent_for : SpendLedger → String → ℤ
spent_for l asset = elim (get asset l.spent) [ none ↦ pos 0 | some n ↦ n ]

unfoldable pub assert_within_ceiling : SpendLedger → String → ℤ → Result PayerError (Unit {0})
assert_within_ceiling l asset amount = do
  ceiling ← ceiling_for l asset
  let already = spent_for l asset
  if lt_ℤ ceiling (already +ℤ amount)
      then err (session_ceiling_exceeded asset amount already ceiling)
      else ok tt

unfoldable pub record_spend : SpendLedger → String → ℤ → Result PayerError SpendLedger
record_spend l asset amount = do
  ceiling ← ceiling_for l asset
  ok (record l { spent = put asset (spent_for l asset +ℤ amount) l.spent })

abbrev pub positive_part : ℤ → ℤ
positive_part n = if lt_ℤ (pos 0) n then n else pos 0

unfoldable pub remaining_for : SpendLedger → String → Result PayerError ℤ
remaining_for l asset = do
  ceiling ← ceiling_for l asset
  ok (positive_part (ceiling -ℤ spent_for l asset))

pub record SpendSnapshot : Type 0 where
  pub asset : String
  pub spent : ℤ
  pub ceiling : ℤ
  pub remaining : ℤ

unfoldable pub snapshot : SpendLedger → List SpendSnapshot
snapshot l =
    map
      (λ (e : String × ℤ). record {
        asset = e.0;
        spent = spent_for l e.0;
        ceiling = e.1;
        remaining = positive_part (e.1 -ℤ spent_for l e.0);
      })
      l.ceilings
