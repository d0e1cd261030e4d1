-- ===== src/Budget/Tests.antt =====
-- src/x402-budget-attributes.ts: a night window, and a rule with a period ceiling.
use vellar_sdk.Prelude.{List, refl, pos, ◌≡◌, none, some, [], ◌∷◌, arith, Memᴰ, ◌∙◌, sym}
use vellar_sdk.Budget.{
  BudgetAttributeRule, BudgetAttributeRequest, UtcTime, create_tracker, matching_budget_rule,
  matches_window,
}
use vellar_sdk.Budget.Totals.{HasReferences, IsWithin, spend_all, spend_all-IsWithin}

abbrev rule : BudgetAttributeRule
rule = record {
  reference = 1;
  merchant = "*";
  category = none;
  max_amount = pos 60;
  window = none;
  period_max_amount = some (pos 100);
}

abbrev request : BudgetAttributeRequest
request = record {
  merchant = "GSHOP";
  category = none;
  amount = pos 60;
  at_time = record { hour = 12; day = 1 };
}

only_rule : (r : BudgetAttributeRule) → Memᴰ r (rule ∷ []) → r ≡ rule
only_rule r (Memᴰ.head e) = e
only_rule r (Memᴰ.tail m) = elim m [ ]

HasReferences-rule : HasReferences (rule ∷ [])
HasReferences-rule = λ r s m n e. only_rule r m ∙ sym (only_rule s n)

IsWithin-create : IsWithin (rule ∷ []) create_tracker
IsWithin-create = record { at_rule = λ r ceiling m has. let e = only_rule r m in ground arith }

-- Two payments, of which each is recorded an hour after it is checked.
abbrev payments : List (BudgetAttributeRequest × UtcTime)
payments = (request, record { hour = 13; day = 1 }) ∷ (request, record { hour = 13; day = 1 }) ∷ []

spend_all-IsWithin_example : IsWithin (rule ∷ []) (spend_all (rule ∷ []) payments create_tracker)
unfolding matching_budget_rule matches_window
spend_all-IsWithin_example =
    spend_all-IsWithin (rule ∷ []) HasReferences-rule payments create_tracker (refl, (refl, tt))
      IsWithin-create
