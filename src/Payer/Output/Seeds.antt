-- ===== src/Payer/Output/Seeds.antt =====
-- packages/mcp-x402-payer/src/output.ts: the pattern of a seed, and what a redacted text has of it.
use vellar_sdk.Prelude.{
  ℕ, zero, suc, Bool, true, false, ◌||◌, List, [], ◌∷◌, ◌++◌, ◌≡◌, refl, ◌==◌, nat_eq, arith,
  Bool-cases, inl, inr, Memᴰ,
}
use vellar_sdk.RequestAuth.Compare.{Text}
use vellar_sdk.Payer.Output.{
  redacted, is_word, is_seed_character, seed_tail, is_seed_at, redact_seeds, redact_secrets, redact,
}
use vellar_sdk.Payer.Output.Censors.{includes, IsPlain}
use vellar_sdk.Payer.Output.Silent.{redact-absent}

-- `STELLAR_SECRET_PATTERN.test(text)`, after a character of a word or not.
abbrev pub has_seed : Bool → Text → Bool
has_seed w [] = false
has_seed w (c ∷ cs) = is_seed_at w c cs || has_seed (is_word c) cs

seed-is_word : (c : ℕ) → is_seed_character c ≡ true → is_word c ≡ true
seed-is_word c h = ground arith

first-is_word : (c : ℕ) → (c == b'S') ≡ true → is_word c ≡ true
first-is_word c h = ground arith

-- Inside a word nothing is replaced, so what follows a first character still follows it.
seed_tail-redact_seeds : (n : ℕ) (t : Text) → seed_tail n (redact_seeds true zero t) ≡ seed_tail n t
unfolding redact_seeds
seed_tail-redact_seeds zero [] = refl
seed_tail-redact_seeds (suc n) [] = refl
seed_tail-redact_seeds zero (c ∷ cs) = refl
seed_tail-redact_seeds (suc n) (c ∷ cs) = elim (Bool-cases (is_seed_character c)) [
  | inl seed ↦ rw (seed, seed-is_word c seed) (seed_tail-redact_seeds n cs)
  | inr other ↦ rw other refl
]

is_seed_at-kept :
    (w : Bool) (c : ℕ) (cs : Text)
    → is_seed_at w c cs ≡ false
    → is_seed_at w c (redact_seeds (is_word c) zero cs) ≡ false
is_seed_at-kept true c cs h = refl
is_seed_at-kept false c cs h = elim (Bool-cases (c == b'S')) [
  | inl first ↦ rw (first, first-is_word c first, seed_tail-redact_seeds 55 cs) (rw first at h)
  | inr other ↦ rw other refl
]

has_seed-redacted : (w : Bool) (u : Text) → has_seed w (redacted ++ u) ≡ has_seed false u
has_seed-redacted true u = refl
has_seed-redacted false u = refl

is_seed_at-parts :
    (w : Bool) (c : ℕ) (cs : Text)
    → is_seed_at w c cs ≡ true
    → ((c == b'S') ≡ true) × (seed_tail 55 cs ≡ true)
is_seed_at-parts true c cs h = cc h
is_seed_at-parts false c cs h = elim (Bool-cases (c == b'S')) [
  | inl first ↦ (first, rw first at h)
  | inr other ↦ cc (rw other at h)
]

-- Where the replacement begins between two matches, and where it is within one, no match is left.
Cleared : Text → Type 0
Cleared t =
    ((w : Bool) → has_seed w (redact_seeds w zero t) ≡ false)
    × ((k : ℕ) → seed_tail k t ≡ true → has_seed false (redact_seeds true k t) ≡ false)

redact_seeds-here :
    (w : Bool) (c : ℕ) (cs : Text)
    → is_seed_at w c cs ≡ true
    → redact_seeds w zero (c ∷ cs) ≡ redacted ++ redact_seeds (is_word c) 55 cs
unfolding redact_seeds
redact_seeds-here w c cs here = rw (here, redact_seeds) refl

redact_seeds-later :
    (w : Bool) (c : ℕ) (cs : Text)
    → is_seed_at w c cs ≡ false
    → redact_seeds w zero (c ∷ cs) ≡ c ∷ redact_seeds (is_word c) zero cs
unfolding redact_seeds
redact_seeds-later w c cs later = rw (later, redact_seeds) refl

redact_seeds-Cleared :
    (c : ℕ) (cs : Text)
    → Cleared cs
    → (w : Bool) → has_seed w (redact_seeds w zero (c ∷ cs)) ≡ false
unfolding Cleared
redact_seeds-Cleared c cs (rest, within) w = elim (Bool-cases (is_seed_at w c cs)) [
  | inl here ↦
      let (first, tail) = is_seed_at-parts w c cs here in
      rw
        (
          redact_seeds-here w c cs here,
          first-is_word c first,
          has_seed-redacted w (redact_seeds true 55 cs),
        )
        (within 55 tail)
  | inr later ↦
      rw (redact_seeds-later w c cs later, is_seed_at-kept w c cs later) (rest (is_word c))
]

not_first : (c : ℕ) (u : Text) → is_word c ≡ false → is_seed_at false c u ≡ false
not_first c u h = elim (Bool-cases (c == b'S')) [
  | inl first ↦ cc (first-is_word c first, h)
  | inr other ↦ rw other refl
]

within-Cleared :
    (c : ℕ) (cs : Text)
    → Cleared cs
    → (k : ℕ) → seed_tail k (c ∷ cs) ≡ true
    → has_seed false (redact_seeds true k (c ∷ cs)) ≡ false
unfolding Cleared redact_seeds
within-Cleared c cs (rest, within) zero h =
    let ends : is_word c ≡ false = ground (arith, h) in rw (ends, not_first c _ ends) (rest false)
within-Cleared c cs (rest, within) (suc k) h = elim (Bool-cases (is_seed_character c)) [
  | inl seed ↦ rw (seed-is_word c seed) (within k (rw seed at h))
  | inr other ↦ cc (rw other at h)
]

Cleared-all : (t : Text) → Cleared t
unfolding Cleared redact_seeds
Cleared-all [] = (λ w. refl, λ k h. refl)
Cleared-all (c ∷ cs) =
    let rest = Cleared-all cs in (redact_seeds-Cleared c cs rest, within-Cleared c cs rest)

-- If a registered secret is plain (no bracket in it, and not a part of the placeholder): whatever the
-- text and the other secrets, it stands nowhere in the redacted text, and nothing there matches the
-- pattern of a seed.
pub redact-IsSilent :
    (secrets : List Text) (s t : Text)
    → Memᴰ s secrets
    → IsPlain s
    → (includes s (redact secrets t) ≡ false) × (has_seed false (redact secrets t) ≡ false)
unfolding redact Cleared
redact-IsSilent secrets s t m h =
    (redact-absent secrets s t m h, (Cleared-all (redact_secrets secrets t)).0 false)
