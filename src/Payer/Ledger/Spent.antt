-- ===== src/Payer/Ledger/Spent.antt =====
-- packages/mcp-x402-payer/src/ledger.ts: the ceiling holds, and spend is counted for its asset alone.
use vellar_sdk.Prelude.{
  ℤ, pos, ◌+ℤ◌, ◌-ℤ◌, ◌≤ℤ◌, +ℤ_parts, -ℤ_parts, String, some, [], ◌∷◌, ok, ◌==◌, string_eq,
  if◌then◌else◌, ◌≡◌, refl, ◌↔◌, arith, eq_iff, Option-cases, inl, inr, ap, sym, ◌∙◌,
}
use vellar_sdk.Payer.Ledger.{
  Amounts, get, put, SpendLedger, create_spend_ledger, ceiling_for, spent_for,
  assert_within_ceiling, record_spend, remaining_for, positive_part,
}

pub get-put :
    (key k : String) (v : ℤ) (m : Amounts)
    → get k (put key v m) ≡ (if key == k then some v else get k m)
unfolding get put
get-put key k v [] = refl
get-put key k v ((j, w) ∷ m) =
    ground (arith, eq_iff key k, eq_iff j key, eq_iff j k, get-put key k v m)

spent_for-put :
    (l : SpendLedger) (asset k : String) (v : ℤ)
    → spent_for (record l { spent = put asset v l.spent }) k
      ≡ (if asset == k then v else spent_for l k)
unfolding spent_for
spent_for-put l asset k v = ground (arith, get-put asset k v l.spent)

record_spend-eq :
    (l l' : SpendLedger) (asset : String) (amount : ℤ)
    → record_spend l asset amount ≡ ok l'
    → l' ≡ record l { spent = put asset (spent_for l asset +ℤ amount) l.spent }
unfolding record_spend ceiling_for
record_spend-eq l l' asset amount e = ground arith

-- A recorded spend adds the amount to what is spent in its asset and changes no other asset's spend
-- and no ceiling.
pub spent_for-record_spend :
    (l l' : SpendLedger) (asset k : String) (amount : ℤ)
    → record_spend l asset amount ≡ ok l'
    → (l'.ceilings ≡ l.ceilings)
      × (spent_for l' k ≡ (if asset == k then spent_for l asset +ℤ amount else spent_for l k))
spent_for-record_spend l l' asset k amount e =
    let same = record_spend-eq l l' asset amount e in
    rw same (refl, spent_for-put l asset k (spent_for l asset +ℤ amount))

-- What a passed check says.
pub assert_within-ok :
    (l : SpendLedger) (asset : String) (amount : ℤ)
    → assert_within_ceiling l asset amount ≡ ok tt
    → (c : ℤ) × (get asset l.ceilings ≡ some c) × (spent_for l asset +ℤ amount ≤ℤ c)
unfolding assert_within_ceiling ceiling_for
assert_within-ok l asset amount e = elim (Option-cases (get asset l.ceilings)) [
  | inl missing ↦ ground arith
  | inr (c, found) ↦ (c, found, ground arith)
]

-- No asset has more spent than its ceiling allows.
pub record IsWithin (l : SpendLedger) : Type 0 where
  pub at_asset : (k : String) (c : ℤ) → get k l.ceilings ≡ some c → spent_for l k ≤ℤ c

-- A spend that is recorded after the check for it has passed keeps every asset's total within its
-- ceiling.
pub record_spend-IsWithin :
    (l l' : SpendLedger) (asset : String) (amount : ℤ)
    → IsWithin l
    → assert_within_ceiling l asset amount ≡ ok tt
    → record_spend l asset amount ≡ ok l'
    → IsWithin l'
record_spend-IsWithin l l' asset amount w checked e = record {
  at_asset = λ k c found.
      let (c', found', fits) = assert_within-ok l asset amount checked in
      let (ceilings, spent) = spent_for-record_spend l l' asset k amount e in
      let found_before : get k l.ceilings ≡ some c = ap (get k) (sym ceilings) ∙ found in
      ground (arith, w.at_asset k c, eq_iff asset k);
}

-- A fresh ledger is within every ceiling, where no ceiling is negative.
pub IsWithin-create :
    (ceilings : Amounts)
    → ((k : String) (c : ℤ) → get k ceilings ≡ some c → pos 0 ≤ℤ c)
    → IsWithin (create_spend_ledger ceilings)
unfolding spent_for get
IsWithin-create ceilings h = record { at_asset = h }

-- The remaining amount that a quote reports decides the check that a payment makes: on a ledger
-- within its ceilings, an amount passes the check for an asset exactly when it is at most the
-- remaining amount of the asset, and never when the asset has no ceiling.
pub assert-remaining_iff :
    (l : SpendLedger) (asset : String) (amount : ℤ)
    → IsWithin l
    → (assert_within_ceiling l asset amount ≡ ok tt)
      ↔ ((r : ℤ) × (remaining_for l asset ≡ ok r) × (amount ≤ℤ r))
unfolding assert_within_ceiling remaining_for ceiling_for
assert-remaining_iff l asset amount w = elim (Option-cases (get asset l.ceilings)) [
  | inl missing ↦ (λ h. ground arith, λ (r, h, le). ground arith)
  | inr (c, found) ↦
      let s = spent_for l asset in
      (
        λ h. (
          positive_part (c -ℤ s),
          ground arith,
          ground (arith, w.at_asset asset c, -ℤ_parts c s, +ℤ_parts s amount),
        ),
        λ (r, h, le). ground (arith, w.at_asset asset c, -ℤ_parts c s, +ℤ_parts s amount),
      )
]
