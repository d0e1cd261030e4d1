-- ===== src/Guards/Select/Complete.antt =====
-- src/x402-guards.ts, `selectRequirements`: when an option is found.
use vellar_sdk.Prelude.{
  ℕ, ℤ, pos, String, true, false, ◌≡◌, refl, List, [], ◌∷◌, Memᴰ, ok, keep, ltb, lt_ℤ, ◌≤ℤ◌,
  string_eq, All-mem, ◌∙◌, All, arith, Bool-cases, inl, inr,
}
use vellar_sdk.X402.{PaymentRequirements, PaymentRequired, X402PayOptions}
use vellar_sdk.Guards.Amount.{parse_amount}
use vellar_sdk.Guards.Select.{
  options_of, is_on_network, declares_fees, is_allowed, cheapest_from, pay_cheapest,
  from_candidates, from_on_network, select_requirements,
}
use vellar_sdk.Guards.Select.Sound.{
  IsPayable, payable, mem-payable, payable-mem, cheapest_from-IsLeast, cheapest_from-mem,
}

module _ (opts : X402PayOptions) {first : PaymentRequirements}
    {rest : List PaymentRequirements} where
  from_candidates-cons :
      (on_network l : List PaymentRequirements)
      → keep (is_allowed opts.allowed_assets) l ≡ first ∷ rest
      → from_candidates opts on_network l ≡ pay_cheapest opts.max_amount first rest
  from_candidates-cons on_network [] h = cc
  from_candidates-cons on_network (c ∷ cs) h = rw h

  from_on_network-cons :
      (l : List PaymentRequirements)
      → keep (is_allowed opts.allowed_assets) (keep (declares_fees true) l) ≡ first ∷ rest
      → from_on_network opts l ≡ pay_cheapest opts.max_amount first rest
  from_on_network-cons [] h = cc
  from_on_network-cons (a ∷ l) h = from_candidates-cons (a ∷ l) _ h

-- The amount of the option parses.
abbrev pub HasPrice : PaymentRequirements → Type 0
HasPrice a = (m : ℕ) × (parse_amount a.amount ≡ ok m)

cheapest_from_total :
    (best : PaymentRequirements) (rest : List PaymentRequirements)
    → HasPrice best
    → All HasPrice rest
    → (r : PaymentRequirements) × (cheapest_from best rest ≡ ok r)
unfolding cheapest_from
cheapest_from_total best [] h k = (best, refl)
cheapest_from_total best (a ∷ rest) (y, ey) ((x, ex), k) = elim (Bool-cases (ltb x y)) [
  | inl less ↦ let (r, e) = cheapest_from_total a rest (x, ex) k in (r, rw (ex, ey, less) e)
  | inr more ↦ let (r, e) = cheapest_from_total best rest (y, ey) k in (r, rw (ex, ey, more) e)
]

pay_cheapest_total :
    (max_amount : ℤ) (first : PaymentRequirements) (rest : List PaymentRequirements)
    (a : PaymentRequirements) (m : ℕ)
    → All HasPrice (first ∷ rest)
    → Memᴰ a (first ∷ rest)
    → parse_amount a.amount ≡ ok m
    → pos m ≤ℤ max_amount
    → (r : PaymentRequirements) × (pay_cheapest max_amount first rest ≡ ok r)
unfolding pay_cheapest
pay_cheapest_total max_amount first rest a m (p, ps) there price within =
    let (r, e) = cheapest_from_total first rest p ps in
    let (n, en) = All-mem HasPrice (first ∷ rest) r (p, ps) (cheapest_from-mem first rest r e) in
    let (k, ek, le) = All-mem _ _ a (cheapest_from-IsLeast first rest r n e en) there in
    let affordable : lt_ℤ max_amount (pos n) ≡ false = ground arith in (r, rw (e, en, affordable))

All-of-mem :
    {P : PaymentRequirements → Type 0} (l : List PaymentRequirements)
    → ((a : PaymentRequirements) → Memᴰ a l → P a)
    → All P l
All-of-mem [] h = tt
All-of-mem (a ∷ l) h = (h a (Memᴰ.head refl), All-of-mem l (λ b m. h b (Memᴰ.tail m)))

uncons_of_mem :
    (l : List PaymentRequirements) (a : PaymentRequirements)
    → Memᴰ a l
    → (first : PaymentRequirements) × (rest : List PaymentRequirements) × (l ≡ first ∷ rest)
uncons_of_mem [] a m = elim m [ ]
uncons_of_mem (first ∷ rest) a m = (first, rest, refl)

module _ (decoded : PaymentRequired) (opts : X402PayOptions) (our_caip2 : String) where
  select-of-payable :
      (first : PaymentRequirements) (rest : List PaymentRequirements)
      → payable decoded opts our_caip2 ≡ first ∷ rest
      → select_requirements decoded opts our_caip2 ≡ pay_cheapest opts.max_amount first rest
  unfolding select_requirements
  select-of-payable first rest h =
      from_on_network-cons opts (keep (is_on_network our_caip2) (options_of decoded)) h

  -- If the amount of every offered option that passes the filters parses, and one of these options
  -- costs at most `maxAmount`, then the selection does not throw: it returns an option.
  pub select_total :
      (a : PaymentRequirements) (m : ℕ)
      → ((b : PaymentRequirements)
          → Memᴰ b (options_of decoded)
          → IsPayable opts our_caip2 b
          → HasPrice b)
      → Memᴰ a (options_of decoded)
      → IsPayable opts our_caip2 a
      → parse_amount a.amount ≡ ok m
      → pos m ≤ℤ opts.max_amount
      → (r : PaymentRequirements) × (select_requirements decoded opts our_caip2 ≡ ok r)
  select_total a m prices offered fits price within =
      let there = payable-mem decoded opts our_caip2 a offered fits in
      let (first, rest, same) = uncons_of_mem (payable decoded opts our_caip2) a there in
      let priced : All HasPrice (payable decoded opts our_caip2) =
        All-of-mem _ (λ b n. let (o, f) = mem-payable decoded opts our_caip2 b n in prices b o f) in
      let (r, e) =
        pay_cheapest_total opts.max_amount first rest a m (rw same at priced) (rw same at there)
          price within in
      (r, select-of-payable first rest same ∙ e)
