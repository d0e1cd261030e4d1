-- ===== src/Upto/Counts.antt =====
-- contrib/issue-507-510-515/upto-settlement-receipt.ts: what one operation of a session budget does to
-- the counts of payments.
use vellar_sdk.Prelude.{
  ℕ, zero, suc, ◌+◌, ℤ, pos, ◌+ℤ◌, ◌-ℤ◌, ◌≤ℤ◌, le_ℤ, lt_ℤ, All, String, true, false, some, [], ◌∷◌,
  ok, ◌≡◌, refl, ap, ◌∙◌, arith, Bool-cases, Option-cases, inl, inr, ◌==◌, string_eq, eq_iff,
  if◌then◌else◌,
}
use mathlib.Core.Path.{subst}
use vellar_sdk.Payer.Ledger.{Amounts, get, put}
use vellar_sdk.Payer.Ledger.Spent.{get-put}
use vellar_sdk.Upto.{SettlementReceipt}
use vellar_sdk.Upto.Budget.{
  SessionBudget, amount_in, budget_ceiling_for, drop_reservation, committed, reserve,
  with_reservation, settle, release,
}
use vellar_sdk.Upto.Overlap.{Payments, take_at, IsCounted, held}

pub pos-add : (a b : ℕ) → pos a +ℤ pos b ≡ pos (a + b)
unfolding ◌+ℤ◌
pos-add a b = ground arith

pub amount_in-put :
    (key k : String) (v : ℤ) (m : Amounts)
    → amount_in k (put key v m) ≡ (if key == k then v else amount_in k m)
unfolding amount_in
amount_in-put key k v m = ground (arith, get-put key k v m)

pub take_at-held :
    (n : ℕ) (ps : Payments) (q : String × ℤ) (qs : Payments) (k : String)
    → take_at n ps ≡ some (q, qs)
    → held k ps ≡ held k (q ∷ qs)
take_at-held n [] q qs k h = cc h
take_at-held zero (p ∷ ps) q qs k h = ground arith
take_at-held (suc n) (p ∷ ps) q qs k h = elim (Option-cases (take_at n ps)) [
  | inl missing ↦ cc (rw missing at h)
  | inr ((r, rs), found) ↦
      let rest = take_at-held n ps r rs k found in
      let same = rw found at h in ground (arith, rest, same)
]

pub take_at-All :
    (n : ℕ) (ps : Payments) (q : String × ℤ) (qs : Payments)
    → take_at n ps ≡ some (q, qs)
    → All IsCounted ps
    → IsCounted q × All IsCounted qs
take_at-All n [] q qs h a = cc h
take_at-All zero (p ∷ ps) q qs h (a, more) =
    let first : p ≡ q = cc h in
    let rest : ps ≡ qs = cc h in (subst IsCounted first a, subst (All IsCounted) rest more)
take_at-All (suc n) (p ∷ ps) q qs h (a, more) = elim (Option-cases (take_at n ps)) [
  | inl missing ↦ cc (rw missing at h)
  | inr ((r, rs), found) ↦
      let (counted, rest) = take_at-All n ps r rs found more in
      let same = rw found at h in
      let first : r ≡ q = cc same in
      let others : p ∷ rs ≡ qs = cc same in
      (subst IsCounted first counted, subst (All IsCounted) others (a, rest))
]

pub reserve-ok :
    (b b' : SessionBudget) (asset : String) (n : ℤ)
    → reserve b asset n ≡ ok b'
    → (c : ℤ) × (get asset b.ceilings ≡ some c)
      × (committed b asset +ℤ n ≤ℤ c)
      × (b'.ceilings ≡ b.ceilings)
      × (b'.spent ≡ b.spent)
      × (b'.reserved ≡ put asset (amount_in asset b.reserved +ℤ n) b.reserved)
unfolding reserve budget_ceiling_for
reserve-ok b b' asset n e = elim (Option-cases (get asset b.ceilings)) [
  | inl missing ↦ ground arith
  | inr (c, found) ↦ (c, found, ground arith, ground arith, ground arith, ground arith)
]

pub reserve-of_fits :
    (b : SessionBudget) (asset : String) (n c : ℤ)
    → get asset b.ceilings ≡ some c
    → committed b asset +ℤ n ≤ℤ c
    → (b' : SessionBudget) × (reserve b asset n ≡ ok b')
unfolding reserve budget_ceiling_for
reserve-of_fits b asset n c found fits =
    let passes : lt_ℤ c (committed b asset +ℤ n) ≡ false = ground arith in
    (with_reservation b asset n, rw (reserve, budget_ceiling_for, found, passes) refl)

-- One more payment of a held amount.
pub put-held :
    (asset : String) (n : ℕ) (m m' : Amounts) (ps : Payments)
    → m' ≡ put asset (amount_in asset m +ℤ pos n) m
    → ((k : String) → amount_in k m ≡ pos (held k ps))
    → (k : String) → amount_in k m' ≡ pos (held k ((asset, pos n) ∷ ps))
put-held asset n m m' ps e h k = elim (Bool-cases (asset == k)) [
  | inl here ↦
      let at : asset ≡ k = ground (arith, eq_iff asset k) in
      rw
        (
          e,
          amount_in-put asset k (amount_in asset m +ℤ pos n) m,
          here,
          h asset,
          pos-add (held asset ps) n,
        )
        (ground (arith, ap (λ x. held x ps) at))
  | inr there ↦
      rw (e, amount_in-put asset k (amount_in asset m +ℤ pos n) m, there)
        (h k ∙ ap pos (omega arith))
]

pub pos-sub_held : (a b : ℕ) → pos (a + b) -ℤ pos a ≡ pos b
unfolding ◌-ℤ◌
pos-sub_held a b = ground arith

-- One payment less.
pub drop-held :
    (b : SessionBudget) (asset : String) (n : ℕ) (ps qs : Payments)
    → ((k : String) → amount_in k b.reserved ≡ pos (held k ps))
    → ((k : String) → held k ps ≡ held k ((asset, pos n) ∷ qs))
    → (k : String) → amount_in k (drop_reservation b asset (pos n)).reserved ≡ pos (held k qs)
unfolding drop_reservation
drop-held b asset n ps qs h t k =
    let here : held asset ps ≡ n + held asset qs = ground (arith, t asset, eq_iff asset asset) in
    let current : amount_in asset b.reserved ≡ pos (n + held asset qs) = h asset ∙ ap pos here in
    let enough : le_ℤ (pos n) (pos (n + held asset qs)) ≡ true = ground arith in
    rw
      (
        current,
        enough,
        pos-sub_held n (held asset qs),
        amount_in-put asset k (pos (held asset qs)) b.reserved,
      )
      (elim (Bool-cases (asset == k)) [
        | inl at ↦ rw at (ground (arith, ap (λ x. held x qs) ((eq_iff asset k).0 at)))
        | inr off ↦ rw off (h k ∙ ap pos (t k ∙ (rw off (omega arith))))
      ])

pub settle-eq :
    (b b' : SessionBudget) (asset : String) (r : SettlementReceipt)
    → settle b asset r ≡ ok b'
    → (b'.ceilings ≡ b.ceilings)
      × (b'.spent ≡ put asset (amount_in asset b.spent +ℤ r.settled_amount) b.spent)
      × (b'.reserved ≡ (drop_reservation b asset r.authorized_ceiling).reserved)
unfolding settle budget_ceiling_for drop_reservation
settle-eq b b' asset r e = ground arith

pub release-eq :
    (b b' : SessionBudget) (asset : String) (n : ℤ)
    → release b asset n ≡ ok b'
    → b' ≡ drop_reservation b asset n
unfolding release budget_ceiling_for
release-eq b b' asset n e = ground arith
