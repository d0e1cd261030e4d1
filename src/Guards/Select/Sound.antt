-- ===== src/Guards/Select/Sound.antt =====
-- src/x402-guards.ts, `selectRequirements`: what holds of the option that is paid.
use vellar_sdk.Prelude.{
  ℕ, ℤ, pos, String, true, false, ◌≡◌, refl, ◌≤◌, Option, none, some, List, [], ◌∷◌, Memᴰ, ok,
  >>=-eq-ok, keep, ltb, ◌≤ℤ◌, keep-mem, mem-keep, All-mem, ◌≢◌, ap, ◌∙◌, string_eq, if◌then◌else◌,
  All, arith, Bool-cases, inl, inr, eq_iff,
}
use vellar_sdk.X402.{JsonValue, PaymentRequirements, PaymentRequired, X402PayOptions}
use vellar_sdk.Guards.Amount.{parse_amount}
use vellar_sdk.Guards.Select.{
  options_of, is_on_network, declares_fees, is_allowed, cheapest_from, pay_cheapest, refuse_assets,
  from_allowed, from_candidates, from_on_network, select_requirements,
}

-- An option that passes every filter.
pub record IsPayable (opts : X402PayOptions) (our_caip2 : String) (a : PaymentRequirements)
    : Type 0 where
  pub exact : a.scheme ≡ "exact"
  pub network : a.network ≡ our_caip2
  pub fees : declares_fees true a ≡ true
  pub allowed : is_allowed opts.allowed_assets a ≡ true

-- `n` is the least price among the options of the list.
abbrev pub IsLeast : ℕ → List PaymentRequirements → Type 0
IsLeast n = All (λ a. (m : ℕ) × (parse_amount a.amount ≡ ok m) × (n ≤ m))

-- One round, when both prices parse.
cheapest_from-cons :
    (best a : PaymentRequirements) (rest : List PaymentRequirements) {x y : ℕ}
    → parse_amount a.amount ≡ ok x
    → parse_amount best.amount ≡ ok y
    → cheapest_from best (a ∷ rest) ≡ cheapest_from (if ltb x y then a else best) rest
unfolding cheapest_from
cheapest_from-cons best a rest ex ey = rw (ex, ey)

pub cheapest_from-mem :
    (best : PaymentRequirements) (rest : List PaymentRequirements) (r : PaymentRequirements)
    → cheapest_from best rest ≡ ok r
    → Memᴰ r (best ∷ rest)
unfolding cheapest_from
cheapest_from-mem best [] r e = Memᴰ.head (ground arith)
cheapest_from-mem best (a ∷ rest) r e =
    let (x, ex, e₁) = >>=-eq-ok (parse_amount a.amount) _ e in
    let (y, ey, e₂) = >>=-eq-ok (parse_amount best.amount) _ e₁ in
    let shorter = rw (cheapest_from-cons best a rest ex ey) at e in
    elim (Bool-cases (ltb x y)) [
      | inl less ↦ Memᴰ.tail (cheapest_from-mem a rest r (rw less at shorter))
      | inr more ↦ skip_second (cheapest_from-mem best rest r (rw more at shorter))
    ]
  where
    skip_second : Memᴰ r (best ∷ rest) → Memᴰ r (best ∷ a ∷ rest)
    skip_second (Memᴰ.head h) = Memᴰ.head h
    skip_second (Memᴰ.tail h) = Memᴰ.tail (Memᴰ.tail h)

le_of_ltb : (x y : ℕ) {n : ℕ} → n ≤ x → ltb x y ≡ true → n ≤ y
le_of_ltb x y h less = ground arith

le_of_not_ltb : (x y : ℕ) {n : ℕ} → n ≤ y → ltb x y ≡ false → n ≤ x
le_of_not_ltb x y h more = ground arith

-- The price that a bound was found for is the price that was parsed.
parsed_le :
    (v : JsonValue) {x n : ℕ}
    → parse_amount v ≡ ok x
    → (m : ℕ) × (parse_amount v ≡ ok m) × (n ≤ m)
    → n ≤ x
parsed_le v ex (m, em, le) = ground arith

pub cheapest_from-IsLeast :
    (best : PaymentRequirements) (rest : List PaymentRequirements) (r : PaymentRequirements) (n : ℕ)
    → cheapest_from best rest ≡ ok r
    → parse_amount r.amount ≡ ok n
    → IsLeast n (best ∷ rest)
unfolding cheapest_from
cheapest_from-IsLeast best [] r n e p =
    let same : best ≡ r = ground arith in ((n, rw same p, omega arith), tt)
cheapest_from-IsLeast best (a ∷ rest) r n e p =
    let (x, ex, e₁) = >>=-eq-ok (parse_amount a.amount) _ e in
    let (y, ey, e₂) = >>=-eq-ok (parse_amount best.amount) _ e₁ in
    let shorter = rw (cheapest_from-cons best a rest ex ey) at e in
    elim (Bool-cases (ltb x y)) [
      | inl less ↦
          let (first, later) = cheapest_from-IsLeast a rest r n (rw less at shorter) p in
          ((y, ey, le_of_ltb x y (parsed_le _ ex first) less), (first, later))
      | inr more ↦
          let (first, later) = cheapest_from-IsLeast best rest r n (rw more at shorter) p in
          (first, ((x, ex, le_of_not_ltb x y (parsed_le _ ey first) more), later))
    ]

refuse_assets-ne-ok :
    (assets : Option (List String)) (l : List PaymentRequirements) (r : PaymentRequirements)
    → refuse_assets assets l ≢ ok r
refuse_assets-ne-ok none l r = cc
refuse_assets-ne-ok (some assets) [] r = cc
refuse_assets-ne-ok (some assets) (c ∷ cs) r = cc

module _ (opts : X402PayOptions) (r : PaymentRequirements) where
  -- The list is not empty, and the last part of the function has run on it.
  abbrev Paid : List PaymentRequirements → Type 0
  Paid l =
      (first : PaymentRequirements) × (rest : List PaymentRequirements) × (l ≡ first ∷ rest)
      × (pay_cheapest opts.max_amount first rest ≡ ok r)

  from_allowed-Paid :
      (candidates l : List PaymentRequirements) → from_allowed opts candidates l ≡ ok r → Paid l
  from_allowed-Paid candidates [] e =
      absurd (refuse_assets-ne-ok opts.allowed_assets candidates r e)
  from_allowed-Paid candidates (a ∷ rest) e = (a, rest, refl, e)

  from_candidates-Paid :
      (on_network l : List PaymentRequirements)
      → from_candidates opts on_network l ≡ ok r
      → Paid (keep (is_allowed opts.allowed_assets) l)
  from_candidates-Paid on_network [] e = cc
  from_candidates-Paid on_network (c ∷ cs) e = from_allowed-Paid (c ∷ cs) _ e

  from_on_network-Paid :
      (l : List PaymentRequirements)
      → from_on_network opts l ≡ ok r
      → Paid (keep (is_allowed opts.allowed_assets) (keep (declares_fees true) l))
  from_on_network-Paid [] e = cc
  from_on_network-Paid (a ∷ rest) e = from_candidates-Paid (a ∷ rest) _ e

pay_cheapest-parts :
    (max_amount : ℤ) (first : PaymentRequirements) (rest : List PaymentRequirements)
    (r : PaymentRequirements)
    → pay_cheapest max_amount first rest ≡ ok r
    → (cheapest_from first rest ≡ ok r)
      × (n : ℕ) × (parse_amount r.amount ≡ ok n)
      × (pos n ≤ℤ max_amount)
unfolding pay_cheapest
pay_cheapest-parts max_amount first rest r e =
    let (u, eu, e₁) = >>=-eq-ok (cheapest_from first rest) _ e in
    let (n, en, e₂) = >>=-eq-ok (parse_amount u.amount) _ e₁ in
    let same : u ≡ r = ground arith in (eu ∙ ap ok same, n, cc, ground arith)

module _ (decoded : PaymentRequired) (opts : X402PayOptions) (our_caip2 : String) where
  -- The options that pass every filter, in the order of the challenge.
  abbrev pub payable : List PaymentRequirements
  payable =
      keep (is_allowed opts.allowed_assets)
        (keep (declares_fees true) (keep (is_on_network our_caip2) (options_of decoded)))

  pub mem-payable :
      (a : PaymentRequirements)
      → Memᴰ a payable
      → Memᴰ a (options_of decoded) × IsPayable opts our_caip2 a
  mem-payable a m =
      let (m₁, allowed) = keep-mem (is_allowed opts.allowed_assets) _ a m in
      let (m₂, fees) = keep-mem (declares_fees true) _ a m₁ in
      let (m₃, network) = keep-mem (is_on_network our_caip2) _ a m₂ in
      (
        m₃,
        record {
          exact = ground (arith, eq_iff a.scheme "exact");
          network = ground (arith, eq_iff a.network our_caip2);
          fees = fees;
          allowed = allowed;
        },
      )

  pub payable-mem :
      (a : PaymentRequirements)
      → Memᴰ a (options_of decoded)
      → IsPayable opts our_caip2 a
      → Memᴰ a payable
  payable-mem a m h =
      let here : is_on_network our_caip2 a ≡ true =
        ground (arith, eq_iff a.scheme "exact", eq_iff a.network our_caip2) in
      mem-keep _ _ a (mem-keep _ _ a (mem-keep _ _ a m here) h.fees) h.allowed

  -- What a successful selection promises of the option `r` and its price `n`.
  pub record IsChoice (r : PaymentRequirements) (n : ℕ) : Type 0 where
    pub offered : Memᴰ r (options_of decoded)
    pub payable : IsPayable opts our_caip2 r
    pub price : parse_amount r.amount ≡ ok n
    pub within : pos n ≤ℤ opts.max_amount
    pub least :
        (a : PaymentRequirements)
        → Memᴰ a (options_of decoded)
        → IsPayable opts our_caip2 a
        → (m : ℕ) × (parse_amount a.amount ≡ ok m) × (n ≤ m)

  -- Whenever an option is selected, it is one of the options that the challenge offered; its scheme
  -- is "exact" on the wallet's network, it declares sponsored fees and an allowed asset; its amount
  -- parses to a price of at most `maxAmount`; and every offered option that passes the same filters
  -- has an amount that parses, to no lower a price.
  pub select-IsChoice :
      (r : PaymentRequirements)
      → select_requirements decoded opts our_caip2 ≡ ok r
      → (n : ℕ) × IsChoice r n
  unfolding select_requirements
  select-IsChoice r e =
      let (first, rest, same, paid) =
        from_on_network-Paid opts r (keep (is_on_network our_caip2) (options_of decoded)) e in
      let (chosen, n, price, within) = pay_cheapest-parts opts.max_amount first rest r paid in
      let (offered, fits) = mem-payable r (rw same (cheapest_from-mem first rest r chosen)) in
      let bound = cheapest_from-IsLeast first rest r n chosen price in
      (
        n,
        record {
          offered = offered;
          payable = fits;
          price = price;
          within = within;
          least = λ a m h. All-mem _ _ a bound (rw same at (payable-mem a m h));
        },
      )
