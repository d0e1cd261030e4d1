-- ===== src/Payer/Output/Censors.antt =====
-- packages/mcp-x402-payer/src/output.ts: a text of which parts have been replaced by the
-- placeholder, and what cannot occur in it.
use vellar_sdk.Prelude.{
  ℕ, zero, suc, Bool, true, false, ◌||◌, [], ◌∷◌, ◌++◌, ◌≡◌, refl, sym, ◌≢◌, ◌⊎◌, All, is_empty,
  nat_eq, codes, arith, Bool-cases, inl, inr,
}
use mathlib.Core.Path.{subst}
use vellar_sdk.RequestAuth.Compare.{Text}
use vellar_sdk.Payer.Output.{redacted, starts_with}

-- `needle` stands somewhere in the text.
abbrev pub includes : Text → Text → Bool
includes needle [] = is_empty needle
includes needle (c ∷ cs) = starts_with needle (c ∷ cs) || includes needle cs

-- The second text is the first with some of its parts replaced.
pub data Censors : Text → Text → Type 0 where
  done : Censors [] []
  kept : {t u : Text} (c : ℕ) → Censors t u → Censors (c ∷ t) (c ∷ u)
  hidden : {t u : Text} (s : Text) → Censors t u → Censors (s ++ t) (redacted ++ u)

abbrev pub IsUnbracketed : Text → Type 0
IsUnbracketed = All (λ c. (c ≢ b'[') × (c ≢ b']'))

-- A secret that the placeholder can neither hold nor be a part of.
abbrev pub IsPlain : Text → Type 0
IsPlain s = IsUnbracketed s × (includes s (codes "[REDACTED") ≡ false)

pub starts_with-Censors :
    (needle : Text) {t u : Text}
    → IsUnbracketed needle
    → Censors t u
    → starts_with needle u ≡ true
    → starts_with needle t ≡ true
starts_with-Censors [] h k e = refl
starts_with-Censors (x ∷ xs) h Censors.done e = e
starts_with-Censors (x ∷ xs) (h, hs) (Censors.kept c k) e =
    let rest = starts_with-Censors xs hs k in ground (arith, rest)
starts_with-Censors (x ∷ xs) (h, hs) (Censors.hidden s k) e = ground (arith, h.0)

-- What begins before a character that it does not have ends before that character.
starts_with-stop :
    (z : ℕ) (needle w u : Text)
    → All (λ c. c ≢ z) needle
    → starts_with needle (w ++ z ∷ u) ≡ true
    → starts_with needle w ≡ true
starts_with-stop z [] w u h e = refl
starts_with-stop z (x ∷ xs) [] u (h, hs) e = ground (arith, h)
starts_with-stop z (x ∷ xs) (c ∷ w) u (h, hs) e =
    let rest = starts_with-stop z xs w u hs in ground (arith, rest)

starts_with-nil : (needle : Text) → starts_with needle [] ≡ is_empty needle
starts_with-nil [] = refl
starts_with-nil (x ∷ xs) = refl

-- A text stands before a character that it does not have, or after it.
pub includes-stop :
    (z : ℕ) (needle w u : Text)
    → All (λ c. c ≢ z) needle
    → includes needle (w ++ z ∷ u) ≡ true
    → (includes needle w ≡ true) ⊎ (includes needle u ≡ true)
includes-stop z needle [] u h e = elim (Bool-cases (includes needle u)) [
  | inl there ↦ inr there
  | inr absent ↦ inl (
      let here = starts_with-stop z needle [] u h in
      let empty = starts_with-nil needle in ground (arith, here, empty))
]
includes-stop z needle (c ∷ w) u h e = elim (Bool-cases (starts_with needle (c ∷ w ++ z ∷ u))) [
  | inl here ↦ inl (rw (starts_with-stop z needle (c ∷ w) u h here) refl)
  | inr later ↦ elim (includes-stop z needle w u h (rw later at e)) [
    | inl e1 ↦ inl (ground (arith, e1))
    | inr e2 ↦ inr e2
  ]
]

All-bracket : (s : Text) → IsUnbracketed s → All (λ c. c ≢ b']') s
All-bracket [] h = tt
All-bracket (x ∷ xs) (h, hs) = (h.1, All-bracket xs hs)

pub includes-redacted :
    (needle u : Text)
    → IsPlain needle
    → includes needle (redacted ++ u) ≡ true
    → includes needle u ≡ true
includes-redacted needle u (h, outside) e =
    elim (includes-stop b']' needle (codes "[REDACTED") u (All-bracket needle h) e) [
      | inl inside ↦ cc (inside, outside)
      | inr there ↦ there
    ]

includes-append : (needle s u : Text) → includes needle u ≡ true → includes needle (s ++ u) ≡ true
includes-append needle [] u e = e
includes-append needle (c ∷ s) u e = ground (arith, includes-append needle s u e)

-- Replacing parts brings nothing plain into a text.
pub includes-Censors :
    (needle : Text) {t u : Text}
    → IsPlain needle
    → Censors t u
    → includes needle u ≡ true
    → includes needle t ≡ true
includes-Censors needle h Censors.done e = e
includes-Censors needle h (Censors.kept {t} {u} c k) e =
    elim (Bool-cases (starts_with needle (c ∷ u))) [
      | inl here ↦ rw (starts_with-Censors needle h.0 (Censors.kept c k) here) refl
      | inr later ↦ ground (arith, includes-Censors needle h k (rw later at e))
    ]
includes-Censors needle h (Censors.hidden {t} {u} s k) e =
    includes-append needle s t (includes-Censors needle h k (includes-redacted needle u h e))

-- A placeholder in the place of the first `skip` characters and of the one before them.
abbrev pub drop : ℕ → Text → Text
drop zero t = t
drop (suc skip) [] = []
drop (suc skip) (c ∷ cs) = drop skip cs

drop-split : (skip : ℕ) (t : Text) → (d : Text) × (t ≡ d ++ drop skip t)
drop-split zero t = ([], refl)
drop-split (suc skip) [] = ([], refl)
drop-split (suc skip) (c ∷ cs) = let (d, e) = drop-split skip cs in (c ∷ d, cc e)

pub hidden-drop :
    (c skip : ℕ) (cs : Text) {u : Text}
    → Censors (drop skip cs) u
    → Censors (c ∷ cs) (redacted ++ u)
hidden-drop c skip cs {u} k =
    let (d, e) = drop-split skip cs in
    subst (λ t. Censors (c ∷ t) (redacted ++ u)) (sym e) (Censors.hidden (c ∷ d) k)
