-- ===== src/Upto/Fits.antt =====
-- contrib/issue-507-510-515/upto-settlement-receipt.ts: which payments a session budget lets in.
use vellar_sdk.Prelude.{
  ℕ, ◌+◌, ℤ, All, pos, ◌+ℤ◌, ◌≤ℤ◌, String, some, List, ok, ◌≡◌, sym, ap, ◌∙◌, string_eq, ◌↔◌,
}
use mathlib.Core.Path.{subst}
use vellar_sdk.Payer.Ledger.{Amounts, get}
use vellar_sdk.Upto.Budget.{SessionBudget, committed, reserve}
use vellar_sdk.Upto.Overlap.{Op, run_ops, open_session, IsPayment, held}
use vellar_sdk.Upto.Counts.{pos-add, reserve-ok, reserve-of_fits}
use vellar_sdk.Upto.Held.{committed-held, budget-IsHeld}

module _ (ceilings : Amounts) where
  -- If no ceiling of the budget and no ceiling of a payment, this one included, is negative, then
  -- however payments overlapped before, a payment is let in exactly if its asset has a ceiling that
  -- holds what was settled, what is in flight and its own ceiling together.
  pub reserve-fits_iff :
      (ops : List Op) (asset : String) (n : ℕ)
      → All IsPayment ops
      → ((k : String) (c : ℤ) → get k ceilings ≡ some c → pos 0 ≤ℤ c)
      → let s = run_ops ops (open_session ceilings) in
        ((b : SessionBudget) × (reserve s.budget asset (pos n) ≡ ok b)) ↔ (
          (c : ℤ) × (get asset ceilings ≡ some c)
          × (pos (held asset s.settled + held asset s.in_flight + n) ≤ℤ c))
  reserve-fits_iff ops asset n payments nonneg =
      let s = run_ops ops (open_session ceilings) in
      let h = budget-IsHeld ceilings ops payments nonneg in
      let sum : committed s.budget asset +ℤ pos n
          ≡ pos (held asset s.settled + held asset s.in_flight + n) =
        rw (committed-held ceilings s asset h)
          (pos-add (held asset s.settled + held asset s.in_flight) n) in
      (
        λ (b, done).
            let (c, found, fits, ceilings_same, spent_same, reserved_same) =
              reserve-ok s.budget b asset (pos n) done in
            (c, ap (get asset) (sym h.same) ∙ found, subst (λ z. z ≤ℤ c) sum fits),
        λ (c, found, fits).
            reserve-of_fits s.budget asset (pos n) c (ap (get asset) h.same ∙ found)
              (subst (λ z. z ≤ℤ c) (sym sum) fits),
      )
