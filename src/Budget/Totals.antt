-- ===== src/Budget/Totals.antt =====
-- src/x402-budget-attributes.ts: the running totals stay within the period ceilings.
use vellar_sdk.Prelude.{
  ℤ, ◌+ℤ◌, ◌≤ℤ◌, Bool, some, List, [], ◌∷◌, ok, ◌≡◌, sym, ap, ◌∙◌, Memᴰ, All, arith, Option-cases,
  Result-cases, inl, inr, Bool-cases, ◌==◌, nat_eq, find,
}
use vellar_sdk.Budget.{
  BudgetAttributeRule, BudgetAttributeRequest, UtcTime, read_again, Tracker, record_spent,
  matching_budget_rule, assert_budget_attributes, spend,
}

-- Rules with the same reference are the same rule.
abbrev pub HasReferences : List BudgetAttributeRule → Type 0
HasReferences rules =
    (r s : BudgetAttributeRule) → Memᴰ r rules → Memᴰ s rules → r.reference ≡ s.reference → r ≡ s

-- No rule has more spent than its period ceiling, where it has one.
pub record IsWithin (rules : List BudgetAttributeRule) (t : Tracker) : Type 0 where
  pub at_rule :
      (r : BudgetAttributeRule) (ceiling : ℤ)
      → Memᴰ r rules
      → r.period_max_amount ≡ some ceiling
      → t r.reference ≤ℤ ceiling

abbrev pub spend_all :
    List BudgetAttributeRule → List (BudgetAttributeRequest × UtcTime) → Tracker → Tracker
spend_all rules [] t = t
spend_all rules (q ∷ qs) t = spend_all rules qs (spend rules q t)

-- Both readings of the clock find the same rule.
abbrev pub IsSteady : List BudgetAttributeRule → BudgetAttributeRequest × UtcTime → Type 0
IsSteady rules (request, later) =
    matching_budget_rule rules (read_again request later) ≡ matching_budget_rule rules request

find-mem :
    (p : BudgetAttributeRule → Bool) (l : List BudgetAttributeRule) (r : BudgetAttributeRule)
    → find p l ≡ some r
    → Memᴰ r l
find-mem p [] r h = cc
find-mem p (s ∷ l) r h = elim (Bool-cases (p s)) [
  | inl here ↦ Memᴰ.head (ground arith)
  | inr not_here ↦ Memᴰ.tail (find-mem p l r (ground arith))
]

matching-mem :
    (rules : List BudgetAttributeRule) (q : BudgetAttributeRequest) (r : BudgetAttributeRule)
    → matching_budget_rule rules q ≡ some r
    → Memᴰ r rules
unfolding matching_budget_rule
matching-mem rules q r h = find-mem _ rules r h

module _ (rules : List BudgetAttributeRule) (references : HasReferences rules) where
  assert_period-fits :
      (rules' : List BudgetAttributeRule) (q : BudgetAttributeRequest) (t : Tracker)
      (r : BudgetAttributeRule) (ceiling : ℤ)
      → matching_budget_rule rules' q ≡ some r
      → Memᴰ r rules'
      → assert_budget_attributes rules' q (some t) ≡ ok tt
      → r.period_max_amount ≡ some ceiling
      → t r.reference +ℤ q.amount ≤ℤ ceiling
  unfolding assert_budget_attributes
  assert_period-fits [] q t r ceiling found m h has = elim m [ ]
  assert_period-fits (x ∷ xs) q t r ceiling found m h has = ground arith

  recorded :
      (q : BudgetAttributeRequest) (t : Tracker)
      → IsWithin rules t
      → (u : Unit {0}) (rule : BudgetAttributeRule)
      → assert_budget_attributes rules q (some t) ≡ ok u
      → matching_budget_rule rules q ≡ some rule
      → IsWithin rules (record_spent t rule q.amount)
  recorded q t w u rule passed found = record {
    at_rule = λ r ceiling m has. elim (Bool-cases (r.reference == rule.reference)) [
      | inl same ↦
          let at_rule : r ≡ rule =
            references r rule m (matching-mem rules q rule found) (ground arith) in
          let at_r : matching_budget_rule rules q ≡ some r = found ∙ ap some (sym at_rule) in
          rw same (assert_period-fits rules q t r ceiling at_r m passed has)
      | inr differ ↦ rw differ (w.at_rule r ceiling m has)
    ];
  }

  spend-IsWithin :
      (q : BudgetAttributeRequest) (later : UtcTime) (t : Tracker)
      → IsSteady rules (q, later)
      → IsWithin rules t
      → IsWithin rules (spend rules (q, later) t)
  unfolding spend
  spend-IsWithin q later t steady w =
      elim (Result-cases (assert_budget_attributes rules q (some t))) [
        | inl (e, refused) ↦ rw (refused, spend) w
        | inr (u, passed) ↦ elim (Option-cases (matching_budget_rule rules q)) [
          | inl missing ↦ rw (passed, steady ∙ missing, spend) w
          | inr (rule, found) ↦ elim (Option-cases rule.period_max_amount) [
            | inl unlimited ↦ rw (passed, steady ∙ found, unlimited, spend) w
            | inr (c, limited) ↦
                rw (passed, steady ∙ found, limited, spend) (recorded q t w u rule passed found)
          ]
        ]
      ]

  -- If rules with one reference are one rule: whatever payments are made one after another, of each of
  -- which the clock readings at its check and at its record find the same rule, no rule's total passes
  -- its period ceiling, if none did before.
  pub spend_all-IsWithin :
      (qs : List (BudgetAttributeRequest × UtcTime)) (t : Tracker)
      → All (IsSteady rules) qs
      → IsWithin rules t
      → IsWithin rules (spend_all rules qs t)
  spend_all-IsWithin [] t steady w = w
  spend_all-IsWithin ((q, later) ∷ qs) t (steady, rest) w =
      spend_all-IsWithin qs (spend rules (q, later) t) rest (spend-IsWithin q later t steady w)
