-- ===== src/Budget.antt =====
-- src/x402-budget-attributes.ts: budgets by merchant, category and time, and the running totals.
-- A rule has a `reference`, by which the tracker's WeakMap tells rules apart. A date is its UTC hour
-- and day of the week.
pub mod Window
pub mod Totals
mod Tests
use vellar_sdk.Prelude.{
  ℕ, ℤ, pos, ◌+ℤ◌, le_ℤ, lt_ℤ, String, Bool, true, false, not, ◌&&◌, ◌||◌, Option, none, some, List,
  [], ◌∷◌, Result, ok, err, any, find, leb, ltb, is_empty, ◌==◌, nat_eq, string_eq, if◌then◌else◌,
}

pub record UtcTime : Type 0 where
  pub hour : ℕ
  pub day : ℕ

pub record BudgetAttributeRequest : Type 0 where
  pub merchant : String
  pub category : Option String
  pub amount : ℤ
  pub at_time : UtcTime

pub record BudgetTimeWindow : Type 0 where
  pub start_hour_utc : Option ℕ
  pub end_hour_utc : Option ℕ
  pub days_utc : Option (List ℕ)

pub record BudgetAttributeRule : Type 0 where
  pub reference : ℕ
  pub merchant : String
  pub category : Option String
  pub max_amount : ℤ
  pub window : Option BudgetTimeWindow
  pub period_max_amount : Option ℤ

pub data BudgetDenied : Type 0 where
  no_matching_rule : BudgetDenied
  over_payment_ceiling : ℤ → BudgetDenied
  over_period_ceiling : (ceiling spent : ℤ) → BudgetDenied

abbrev pub matches_merchant : BudgetAttributeRule → BudgetAttributeRequest → Bool
matches_merchant rule request = rule.merchant == "*" || rule.merchant == request.merchant

abbrev same_category : String → Option String → Bool
same_category c none = false
same_category c (some d) = c == d

abbrev pub matches_category : BudgetAttributeRule → BudgetAttributeRequest → Bool
matches_category rule request = elim rule.category [
  | none ↦ true
  | some c ↦ c == "*" || same_category c request.category
]

abbrev pub matches_days : Option (List ℕ) → ℕ → Bool
matches_days none day = true
matches_days (some days) day = any (λ d. d == day) days

-- `matchesWindow`, on the hours.
unfoldable pub matches_hours : ℕ → ℕ → ℕ → Bool
matches_hours start end_hour hour =
    if leb start end_hour
    then leb start hour && leb hour end_hour
    else leb start hour || leb hour end_hour

abbrev pub matches_optional_hours : Option ℕ → Option ℕ → ℕ → Bool
matches_optional_hours (some start) (some end_hour) hour = matches_hours start end_hour hour
matches_optional_hours _ _ hour = true

unfoldable pub matches_window : Option BudgetTimeWindow → UtcTime → Bool
matches_window none t = true
matches_window (some w) t =
    if not (matches_days w.days_utc t.day)
    then false
    else matches_optional_hours w.start_hour_utc w.end_hour_utc t.hour

unfoldable pub matching_budget_rule :
    List BudgetAttributeRule → BudgetAttributeRequest → Option BudgetAttributeRule
matching_budget_rule rules request =
    find
      (λ rule.
        matches_merchant rule request
        && matches_category rule request
        && matches_window rule.window request.at_time)
      rules

unfoldable pub evaluate_budget_attributes : List BudgetAttributeRule → BudgetAttributeRequest → Bool
evaluate_budget_attributes rules request =
    if is_empty rules then true else elim (matching_budget_rule rules request) [
      | none ↦ false
      | some rule ↦ le_ℤ request.amount rule.max_amount
    ]

-- The tracker of `createInMemoryBudgetAttributeTracker`: the total of each reference.
abbrev pub Tracker : Type 0
Tracker = ℕ → ℤ

abbrev pub create_tracker : Tracker
create_tracker reference = pos 0

abbrev pub record_spent : Tracker → BudgetAttributeRule → ℤ → Tracker
record_spent t rule amount reference =
    if reference == rule.reference then t reference +ℤ amount else t reference

-- The last test, where there is a tracker.
abbrev pub assert_period : BudgetAttributeRule → ℤ → Option Tracker → Result BudgetDenied (Unit {0})
assert_period rule amount none = ok tt
assert_period rule amount (some t) = elim rule.period_max_amount [
  | none ↦ ok tt
  | some ceiling ↦
      if lt_ℤ ceiling (t rule.reference +ℤ amount)
      then err (over_period_ceiling ceiling (t rule.reference))
      else ok tt
]

unfoldable pub assert_budget_attributes :
    List BudgetAttributeRule
    → BudgetAttributeRequest
    → Option Tracker
    → Result BudgetDenied (Unit {0})
assert_budget_attributes rules request tracker =
    if is_empty rules then ok tt else elim (matching_budget_rule rules request) [
      | none ↦ err no_matching_rule
      | some rule ↦
          if lt_ℤ rule.max_amount request.amount
          then err (over_payment_ceiling rule.max_amount)
          else assert_period rule request.amount tracker
    ]

-- The request as it is made when the clock is read again.
abbrev pub read_again : BudgetAttributeRequest → UtcTime → BudgetAttributeRequest
read_again request later = record request { at_time = later }

-- What an accepted payment of src/x402-client.ts does with the tracker: it is checked; then, with the
-- clock read again, it is recorded against the rule that now matches, where it has a period ceiling.
unfoldable pub spend :
    List BudgetAttributeRule → BudgetAttributeRequest × UtcTime → Tracker → Tracker
spend rules (request, later) t = elim (assert_budget_attributes rules request (some t)) [
  | err e ↦ t
  | ok u ↦ elim (matching_budget_rule rules (read_again request later)) [
    | none ↦ t
    | some rule ↦ elim rule.period_max_amount [
      | none ↦ t
      | some ceiling ↦ record_spent t rule request.amount
    ]
  ]
]
