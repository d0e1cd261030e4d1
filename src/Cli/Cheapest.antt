-- ===== src/Cli/Cheapest.antt =====
-- packages/cli/src/commands/pay.ts: which option selectRequirement chooses.
use vellar_sdk.Prelude.{
  ℤ, ◌≤ℤ◌, lt_ℤ, true, String, Option, none, some, List, [], ◌∷◌, Memᴰ, Memᴰ-cases, mem-keep,
  keep-mem, ◌≡◌, refl, sym, ap, ◌∙◌, arith, Bool-cases, Option-cases, inl, inr, nat_eq, string_eq,
  eq_iff,
}
use mathlib.Core.Path.{subst}
use vellar_sdk.Cli.{
  CliRequirement, is_given, price_of, cheapest_option, cheapest_exact, on_network_of, exact_of,
  from_on_network_of, Selection, chosen, select_requirement,
}

-- No option of the list is cheaper, as far as the prices parse.
abbrev pub NoDearer : CliRequirement → List CliRequirement → Type 0
NoDearer r options =
    (x : CliRequirement) (p q : ℤ)
    → Memᴰ x options
    → price_of r ≡ some p
    → price_of x ≡ some q
    → p ≤ℤ q

some_ℤ-eq : {a b : ℤ} → ◌≡◌ {A = Option ℤ} (some a) (some b) → a ≡ b
some_ℤ-eq h = cc h

-- One more option, which is not cheaper than one of them.
NoDearer-cons :
    (r n y : CliRequirement) (options : List CliRequirement) (t s : ℤ)
    → NoDearer r options
    → Memᴰ n options
    → price_of n ≡ some t
    → price_of y ≡ some s
    → t ≤ℤ s
    → NoDearer r (y ∷ options)
NoDearer-cons r n y options t s least m at_n at_y le x p q mx at_r at_x = elim (Memᴰ-cases mx) [
  | inr later ↦ least x p q later at_r at_x
  | inl here ↦
      let same : s ≡ q = some_ℤ-eq (sym at_y ∙ (ap price_of (sym here) ∙ at_x)) in
      omega (arith, least n p t m at_r at_n, le, subst (λ z. t ≤ℤ z) same le)
]

swap-mem :
    {x y z : CliRequirement} {xs : List CliRequirement} → Memᴰ x (y ∷ z ∷ xs) → Memᴰ x (z ∷ y ∷ xs)
swap-mem (Memᴰ.head e) = Memᴰ.tail (Memᴰ.head e)
swap-mem (Memᴰ.tail (Memᴰ.head e)) = Memᴰ.head e
swap-mem (Memᴰ.tail (Memᴰ.tail m)) = Memᴰ.tail (Memᴰ.tail m)

skip_second :
    {x y z : CliRequirement} {xs : List CliRequirement} → Memᴰ x (y ∷ xs) → Memᴰ x (y ∷ z ∷ xs)
skip_second m = swap-mem (Memᴰ.tail m)

NoDearer-self : (lo : CliRequirement) → NoDearer lo (lo ∷ [])
NoDearer-self lo x p q m at_lo at_x = elim (Memᴰ-cases m) [
  | inl here ↦
      let same : p ≡ q = some_ℤ-eq (sym at_lo ∙ (ap price_of (sym here) ∙ at_x)) in
      subst (λ z. p ≤ℤ z) same (omega arith)
  | inr later ↦ elim later [ ]
]

abbrev pub IsCheapest : CliRequirement → List CliRequirement → Type 0
IsCheapest r options = Memᴰ r options × NoDearer r options

cheapest_option-lem :
    (lo : CliRequirement) (xs : List CliRequirement) (r : CliRequirement)
    → cheapest_option lo xs ≡ some r
    → IsCheapest r (lo ∷ xs)
unfolding cheapest_option
cheapest_option-lem lo [] r h =
    let same : lo ≡ r = cc h in
    (Memᴰ.head (sym same), subst (λ z. NoDearer z (lo ∷ [])) same (NoDearer-self lo))
cheapest_option-lem lo (a ∷ rest) r h = elim (Option-cases (price_of a)) [
  | inl bad ↦ cc (rw (bad, cheapest_option) at h)
  | inr (p, at_a) ↦ elim (Option-cases (price_of lo)) [
    | inl bad ↦ cc (rw (at_a, bad, cheapest_option) at h)
    | inr (q, at_lo) ↦ elim (Bool-cases (lt_ℤ p q)) [
      | inl less ↦
          let (m, least) =
            cheapest_option-lem a rest r (rw (at_a, at_lo, less, cheapest_option) at h) in
          (
            Memᴰ.tail m,
            NoDearer-cons r a lo (a ∷ rest) p q least (Memᴰ.head refl) at_a at_lo (ground arith),
          )
      | inr more ↦
          let (m, least) =
            cheapest_option-lem lo rest r (rw (at_a, at_lo, more, cheapest_option) at h) in
          (
            skip_second m,
            λ x p' q' mx.
                NoDearer-cons r lo a (lo ∷ rest) q p least (Memᴰ.head refl) at_lo at_a
                  (ground arith) x p' q' (swap-mem mx),
          )
    ]
  ]
]

chosen-eq : {a b : CliRequirement} → ◌≡◌ {A = Selection} (chosen a) (chosen b) → a ≡ b
chosen-eq h = cc h

cheapest_exact-lem :
    (options : List CliRequirement) (r : CliRequirement)
    → cheapest_exact options ≡ chosen r
    → IsCheapest r options
unfolding cheapest_exact
cheapest_exact-lem [] r h = cc h
cheapest_exact-lem (a ∷ rest) r h = elim (Option-cases (cheapest_option a rest)) [
  | inl threw ↦ cc (rw (threw, cheapest_exact) at h)
  | inr (x, found) ↦
      let same : x ≡ r = chosen-eq (rw (found, cheapest_exact) at h) in
      subst (λ z. IsCheapest z (a ∷ rest)) same (cheapest_option-lem a rest x found)
]

-- A chosen option is offered, exact and on the network, and none of the offered options that are exact
-- and on the network is cheaper.
pub record IsChosen (accepts : List CliRequirement) (network : String) (r : CliRequirement)
    : Type 0 where
  pub offered : Memᴰ r accepts
  pub exact : r.scheme ≡ some "exact"
  pub on_network : r.network ≡ some network
  pub least :
      (x : CliRequirement) (p q : ℤ)
      → Memᴰ x accepts
      → x.scheme ≡ some "exact"
      → x.network ≡ some network
      → price_of r ≡ some p
      → price_of x ≡ some q
      → p ≤ℤ q

is_given-eq : (s : String) (o : Option String) → is_given s o ≡ true → o ≡ some s
is_given-eq s none h = cc h
is_given-eq s (some t) h = ap some ((eq_iff t s).0 h)

eq-is_given : (s : String) (o : Option String) → o ≡ some s → is_given s o ≡ true
eq-is_given s o e = rw e ((eq_iff s s).1 refl)

from_on_network_of-lem :
    (options : List CliRequirement) (r : CliRequirement)
    → from_on_network_of options ≡ chosen r
    → IsCheapest r (exact_of options)
from_on_network_of-lem [] r h = cc h
from_on_network_of-lem (a ∷ rest) r h = cheapest_exact-lem (exact_of (a ∷ rest)) r h

pub select_requirement-IsChosen :
    (accepts : List CliRequirement) (network : String) (r : CliRequirement)
    → select_requirement accepts network ≡ chosen r
    → IsChosen accepts network r
unfolding select_requirement
select_requirement-IsChosen accepts network r h =
    let on_network = λ (a : CliRequirement). is_given network a.network in
    let exact = λ (a : CliRequirement). is_given "exact" a.scheme in
    let (m, least) = from_on_network_of-lem (on_network_of network accepts) r h in
    let (m1, is_exact) = keep-mem exact (on_network_of network accepts) r m in
    let (m2, is_on) = keep-mem on_network accepts r m1 in
    record {
      offered = m2;
      exact = is_given-eq "exact" r.scheme is_exact;
      on_network = is_given-eq network r.network is_on;
      least = λ x p q mx ex on. least x p q (
          mem-keep exact (on_network_of network accepts) x
            (mem-keep on_network accepts x mx (eq-is_given network x.network on))
            (eq-is_given "exact" x.scheme ex));
    }
