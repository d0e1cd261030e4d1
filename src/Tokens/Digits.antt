-- ===== src/Tokens/Digits.antt =====
-- src/payments.ts and src/balances.ts: padding and stripping keep the value of a text of digits.
use vellar_sdk.Prelude.{
  ℕ, zero, suc, ◌≤◌, false, none, some, List, [], ◌∷◌, ◌++◌, ◌≡◌, refl, ap, ◌∙◌, arith, length, All,
  ◌⊎◌, inl, inr, ◌==◌, nat_eq, IsDigits,
}
use vellar_sdk.Tokens.{
  digit_0, dot, is_space, strip_end, strip_start, trim, repeat, split_dot, strip_zeros,
}

strip-cons :
    (c : ℕ) (cs : List ℕ)
    → ((strip_zeros (c ∷ cs) ≡ []) × (strip_zeros cs ≡ []) × (c ≡ digit_0))
      ⊎ (strip_zeros (c ∷ cs) ≡ c ∷ strip_zeros cs)
strip-cons c cs = ground arith

-- A text is what stripping leaves, and zeros.
pub strip-split : (cs : List ℕ) → (k : ℕ) × (cs ≡ strip_zeros cs ++ repeat k digit_0)
strip-split [] = (0, refl)
strip-split (c ∷ cs) =
    let (k, same) = strip-split cs in
    elim (strip-cons c cs) [
      | inl (gone, before, zero_there) ↦ (
        suc k,
        rw (gone, zero_there)
            (ap (λ l. digit_0 ∷ l) (same ∙ ap (λ l. l ++ repeat k digit_0) before)),
      )
      | inr kept ↦ (k, rw kept (ap (λ l. c ∷ l) same))
    ]

pub length-strip : (cs : List ℕ) → length (strip_zeros cs) ≤ length cs
length-strip [] = omega arith
length-strip (c ∷ cs) = ground (arith, length-strip cs)

pub length-repeat : (n c : ℕ) → length (repeat n c) ≡ n
length-repeat zero c = refl
length-repeat (suc n) c = omega (arith, length-repeat n c)

pub IsDigits-strip : (cs : List ℕ) → IsDigits cs → IsDigits (strip_zeros cs)
IsDigits-strip [] h = tt
IsDigits-strip (c ∷ cs) (p, h) = let rest = IsDigits-strip cs h in ground arith

pub IsDigits-repeat : (n : ℕ) → IsDigits (repeat n digit_0)
IsDigits-repeat zero = tt
IsDigits-repeat (suc n) = (omega arith, IsDigits-repeat n)

-- Text without spaces is not trimmed.
abbrev pub IsUnspaced : List ℕ → Type 0
IsUnspaced = All (λ c. is_space c ≡ false)

strip_end-unspaced : (cs : List ℕ) → IsUnspaced cs → strip_end is_space cs ≡ cs
strip_end-unspaced [] h = refl
strip_end-unspaced (c ∷ cs) (p, h) = rw (strip_end-unspaced cs h, p, strip_end) (ground arith)

strip_start-unspaced : (cs : List ℕ) → IsUnspaced cs → strip_start is_space cs ≡ cs
strip_start-unspaced [] h = refl
strip_start-unspaced (c ∷ cs) (p, h) = rw (p, strip_start) refl

pub trim-unspaced : (cs : List ℕ) → IsUnspaced cs → trim cs ≡ cs
trim-unspaced cs h = ap (strip_end is_space) (strip_start-unspaced cs h) ∙ strip_end-unspaced cs h

pub IsDigits-IsUnspaced : (cs : List ℕ) → IsDigits cs → IsUnspaced cs
IsDigits-IsUnspaced [] h = tt
IsDigits-IsUnspaced (c ∷ cs) (p, h) = (ground arith, IsDigits-IsUnspaced cs h)

-- Digits hold no dot.
pub split_dot-digits : (cs : List ℕ) → IsDigits cs → split_dot cs ≡ (cs, none)
split_dot-digits [] h = refl
split_dot-digits (c ∷ cs) (p, h) =
    let no_dot : c == dot ≡ false = ground arith in
    rw (split_dot-digits cs h, no_dot, split_dot) refl

pub split_dot-dot : (cs ds : List ℕ) → IsDigits cs → split_dot (cs ++ dot ∷ ds) ≡ (cs, some ds)
split_dot-dot [] ds h = refl
split_dot-dot (c ∷ cs) ds (p, h) =
    let no_dot : c == dot ≡ false = ground arith in
    rw (split_dot-dot cs ds h, no_dot, split_dot) refl
