-- ===== src/Budget/Window.antt =====
-- src/x402-budget-attributes.ts: the hours of a window, and the two checks of a payment.
use vellar_sdk.Prelude.{
  ℕ, ◌+◌, ◌-◌, ◌%◌, ◌≤◌, ◌<◌, ◌≡◌, ◌↔◌, true, none, List, ok, arith, Option-cases, inl, inr,
}
use vellar_sdk.Budget.{
  BudgetAttributeRule, BudgetAttributeRequest, matches_hours, matching_budget_rule,
  evaluate_budget_attributes, assert_budget_attributes,
}

-- An hour matches a window, one that wraps past midnight included, exactly when going round the
-- clock from the window's first hour comes to it no later than to the window's last hour.
pub matches_hours_iff :
    (start last hour : ℕ)
    → start < 24
    → last < 24
    → hour < 24
    → (matches_hours start last hour ≡ true) ↔ ((hour + 24 - start) % 24 ≤ (last + 24 - start) % 24)
unfolding matches_hours
matches_hours_iff start last hour a b c = ground arith

-- Without a tracker, a payment is let through exactly when the rules permit it.
pub assert-evaluate_iff :
    (rules : List BudgetAttributeRule) (request : BudgetAttributeRequest)
    → (assert_budget_attributes rules request none ≡ ok tt)
      ↔ (evaluate_budget_attributes rules request ≡ true)
unfolding assert_budget_attributes evaluate_budget_attributes
assert-evaluate_iff rules request = elim (Option-cases (matching_budget_rule rules request)) [
  | inl missing ↦ ground arith
  | inr (rule, found) ↦ ground arith
]
