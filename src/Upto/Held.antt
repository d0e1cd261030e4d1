-- ===== src/Upto/Held.antt =====
-- contrib/issue-507-510-515/upto-settlement-receipt.ts: what a session budget counts while payments
-- overlap.
use vellar_sdk.Prelude.{
  ℕ, ◌+◌, ℤ, All, negsuc, pos, ◌+ℤ◌, ◌≤ℤ◌, String, some, List, [], ◌∷◌, ◌≡◌, refl, sym, ap, ◌∙◌,
  arith, Bool-cases, Option-cases, Result-cases, inl, inr, ◌==◌, string_eq, eq_iff,
}
use mathlib.Core.Path.{subst}
use vellar_sdk.Payer.Ledger.{Amounts, get, put}
use vellar_sdk.Upto.{ReportedAmount}
use vellar_sdk.Upto.Receipts.{build-IsReceipt}
use vellar_sdk.Upto.Budget.{amount_in, drop_reservation, committed, reserve, settle, release}
use vellar_sdk.Upto.Overlap.{
  Payments, Session, Op, started, confirmed, cancelled, take_at, input_for, begin_payment,
  confirm_payment, cancel_payment, run_op, run_ops, open_session, held, IsHeld, IsCounted,
  IsPayment,
}
use vellar_sdk.Upto.Counts.{
  pos-add, take_at-held, take_at-All, reserve-ok, put-held, drop-held, settle-eq, release-eq,
}

module _ (ceilings : Amounts) where
  pub committed-held :
      (s : Session) (k : String)
      → IsHeld ceilings s
      → committed s.budget k ≡ pos (held k s.settled + held k s.in_flight)
  committed-held s k h =
      rw (h.at_spent k, h.at_reserved k) (pos-add (held k s.settled) (held k s.in_flight))

  begin-IsHeld :
      (asset : String) (ceiling : ℕ) (s : Session)
      → IsHeld ceilings s
      → IsHeld ceilings (begin_payment asset (pos ceiling) s)
  unfolding begin_payment
  begin-IsHeld asset ceiling s h = elim (Result-cases (reserve s.budget asset (pos ceiling))) [
    | inl (e, refused) ↦ rw (refused, begin_payment) h
    | inr (b, done) ↦
        let (c, found, fits, same, spent, reserved) =
          reserve-ok s.budget b asset (pos ceiling) done in
        let sum : committed s.budget asset +ℤ pos ceiling
            ≡ pos (held asset s.settled + held asset s.in_flight + ceiling) =
          rw (committed-held s asset h)
            (pos-add (held asset s.settled + held asset s.in_flight) ceiling) in
        rw (done, begin_payment)
          record {
            same = same ∙ h.same;
            counted = (refl, h.counted);
            at_reserved =
                put-held asset ceiling s.budget.reserved b.reserved s.in_flight reserved
                  h.at_reserved;
            at_spent = λ k. rw spent (h.at_spent k);
            at_ceiling = λ k d at. elim (Bool-cases (asset == k)) [
              | inl here ↦
                  let is : asset ≡ k = (eq_iff asset k).0 here in
                  let both : some c ≡ some d =
                    sym found ∙ ap (get asset) h.same ∙ ap (λ x. get x ceilings) is ∙ at in
                  rw here (
                    ground (
                      arith,
                      subst (λ z. z ≤ℤ c) sum fits,
                      both,
                      ap (λ x. held x s.settled) is,
                      ap (λ x. held x s.in_flight) is,
                    ))
              | inr there ↦ rw there (omega (arith, h.at_ceiling k d at))
            ];
          }
  ]

  confirm-IsHeld :
      (asset : String) (ceiling : ℕ) (others : Payments) (reported : ReportedAmount) (s : Session)
      → ((k : String) → held k s.in_flight ≡ held k ((asset, pos ceiling) ∷ others))
      → All IsCounted others
      → IsHeld ceilings s
      → IsHeld ceilings (confirm_payment (asset, pos ceiling) others reported s)
  unfolding confirm_payment
  confirm-IsHeld asset ceiling others reported s t counted h =
      let (receipt, built, is) =
        build-IsReceipt ceiling (input_for asset (pos ceiling) reported) refl in
      elim (Result-cases (settle s.budget asset receipt)) [
        | inl (e, refused) ↦ rw (confirm_payment, built, refused) h
        | inr (b, done) ↦
            let (same, spent, reserved) = settle-eq s.budget b asset receipt done in
            rw (confirm_payment, built, done, is.at_charge)
              record {
                same = same ∙ h.same;
                counted = counted;
                at_reserved = λ k.
                    rw (reserved, is.at_ceiling)
                      (drop-held s.budget asset ceiling s.in_flight others h.at_reserved t k);
                at_spent =
                    put-held asset is.charge s.budget.spent b.spent s.settled
                      (spent
                        ∙ ap (λ z. put asset (amount_in asset s.budget.spent +ℤ z) s.budget.spent)
                            is.at_charge)
                      h.at_spent;
                at_ceiling = λ k c at. ground (arith, t k, is.within, h.at_ceiling k c at);
              }
      ]

  cancel-IsHeld :
      (asset : String) (ceiling : ℕ) (others : Payments) (s : Session)
      → ((k : String) → held k s.in_flight ≡ held k ((asset, pos ceiling) ∷ others))
      → All IsCounted others
      → IsHeld ceilings s
      → IsHeld ceilings (cancel_payment (asset, pos ceiling) others s)
  unfolding cancel_payment drop_reservation
  cancel-IsHeld asset ceiling others s t counted h =
      elim (Result-cases (release s.budget asset (pos ceiling))) [
        | inl (e, refused) ↦ rw (cancel_payment, refused) h
        | inr (b, done) ↦
            let same = release-eq s.budget b asset (pos ceiling) done in
            rw (cancel_payment, done, same)
              record {
                same = h.same;
                counted = counted;
                at_reserved = drop-held s.budget asset ceiling s.in_flight others h.at_reserved t;
                at_spent = h.at_spent;
                at_ceiling = λ k c at. ground (arith, t k, h.at_ceiling k c at);
              }
      ]

  confirmed-IsHeld :
      (asset : String) (n : ℤ) (others : Payments) (reported : ReportedAmount) (s : Session)
      → IsCounted (asset, n)
      → ((k : String) → held k s.in_flight ≡ held k ((asset, n) ∷ others))
      → All IsCounted others
      → IsHeld ceilings s
      → IsHeld ceilings (confirm_payment (asset, n) others reported s)
  confirmed-IsHeld asset (pos n) others reported s e t counted h =
      confirm-IsHeld asset n others reported s t counted h
  confirmed-IsHeld asset (negsuc n) others reported s e t counted h = cc e

  cancelled-IsHeld :
      (asset : String) (n : ℤ) (others : Payments) (s : Session)
      → IsCounted (asset, n)
      → ((k : String) → held k s.in_flight ≡ held k ((asset, n) ∷ others))
      → All IsCounted others
      → IsHeld ceilings s
      → IsHeld ceilings (cancel_payment (asset, n) others s)
  cancelled-IsHeld asset (pos n) others s e t counted h = cancel-IsHeld asset n others s t counted h
  cancelled-IsHeld asset (negsuc n) others s e t counted h = cc e

  run_op-IsHeld :
      (op : Op) (s : Session) → IsPayment op → IsHeld ceilings s → IsHeld ceilings (run_op op s)
  unfolding run_op
  run_op-IsHeld (started asset (pos n)) s p h = begin-IsHeld asset n s h
  run_op-IsHeld (started asset (negsuc n)) s p h = absurd (omega arith)
  run_op-IsHeld (confirmed place reported) s p h = elim (Option-cases (take_at place s.in_flight)) [
    | inl missing ↦ rw (run_op, missing) h
    | inr (((asset, n), others), found) ↦
        let (counted, rest) = take_at-All place s.in_flight (asset, n) others found h.counted in
        rw (run_op, found)
          (confirmed-IsHeld asset n others reported s counted
            (λ k. take_at-held place s.in_flight (asset, n) others k found) rest h)
  ]
  run_op-IsHeld (cancelled place) s p h = elim (Option-cases (take_at place s.in_flight)) [
    | inl missing ↦ rw (run_op, missing) h
    | inr (((asset, n), others), found) ↦
        let (counted, rest) = take_at-All place s.in_flight (asset, n) others found h.counted in
        rw (run_op, found)
          (cancelled-IsHeld asset n others s counted
            (λ k. take_at-held place s.in_flight (asset, n) others k found) rest h)
  ]

  run_ops-IsHeld :
      (ops : List Op) (s : Session)
      → All IsPayment ops
      → IsHeld ceilings s
      → IsHeld ceilings (run_ops ops s)
  run_ops-IsHeld [] s p h = h
  run_ops-IsHeld (op ∷ ops) s (p, ps) h =
      run_ops-IsHeld ops (run_op op s) ps (run_op-IsHeld op s p h)

  -- If no ceiling of the budget and no ceiling of a payment is negative, then however payments
  -- overlap: reserved is the sum of the ceilings in flight, spent the sum of what was settled, for
  -- every asset, and both together stay within the ceiling.
  pub budget-IsHeld :
      (ops : List Op)
      → All IsPayment ops
      → ((k : String) (c : ℤ) → get k ceilings ≡ some c → pos 0 ≤ℤ c)
      → IsHeld ceilings (run_ops ops (open_session ceilings))
  unfolding amount_in get
  budget-IsHeld ops payments nonneg = run_ops-IsHeld ops (open_session ceilings) payments record {
    same = refl;
    counted = tt;
    at_reserved = λ k. refl;
    at_spent = λ k. refl;
    at_ceiling = nonneg;
  }
