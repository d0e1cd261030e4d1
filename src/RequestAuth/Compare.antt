-- ===== src/RequestAuth/Compare.antt =====
-- src/x402-request-auth.ts: timingSafeEqual, and the equality of texts. Character codes have 16 bits.
use vellar_sdk.Prelude.{
  ℕ, zero, suc, ◌+◌, ◌*◌, ◌/◌, ◌%◌, ◌^◌, ◌<◌, max, Bool, true, false, not, ◌&&◌, List, [], ◌∷◌, ◌≡◌,
  refl, ◌↔◌, Eq, length, ◌==◌, nat_eq, All, if◌then◌else◌, arith, Bool-cases, inl, inr,
}

abbrev pub Text : Type 0
Text = List ℕ

abbrev pub same_text : Text → Text → Bool
same_text [] [] = true
same_text [] (y ∷ ys) = false
same_text (x ∷ xs) [] = false
same_text (x ∷ xs) (y ∷ ys) = x == y && same_text xs ys

same_text-eq : (xs ys : Text) → same_text xs ys ≡ true → xs ≡ ys
same_text-eq [] [] h = refl
same_text-eq [] (y ∷ ys) h = cc h
same_text-eq (x ∷ xs) [] h = cc h
same_text-eq (x ∷ xs) (y ∷ ys) h = ground (arith, same_text-eq xs ys)

same_text_refl : (xs : Text) → same_text xs xs ≡ true
same_text_refl [] = refl
same_text_refl (x ∷ xs) = ground (arith, same_text_refl xs)

pub same_text_iff : (xs ys : Text) → (same_text xs ys ≡ true) ↔ (xs ≡ ys)
same_text_iff xs ys = (same_text-eq xs ys, λ e. rw e (same_text_refl ys))

instance abbrev pub text_eq : Eq Text
text_eq = record { same = same_text; same_iff = same_text_iff }

-- `a ^ b` and `a | b`, of numbers of `w` bits.
unfoldable pub bit_xor : ℕ → ℕ → ℕ → ℕ
bit_xor zero a b = 0
bit_xor (suc w) a b = (a % 2 + b % 2) % 2 + 2 * bit_xor w (a / 2) (b / 2)

unfoldable pub bit_or : ℕ → ℕ → ℕ → ℕ
bit_or zero a b = 0
bit_or (suc w) a b = max (a % 2) (b % 2) + 2 * bit_or w (a / 2) (b / 2)

abbrev pub width : ℕ
width = 16

-- The loop, from `diff`.
unfoldable pub diff_from : ℕ → Text → Text → ℕ
diff_from diff [] b = diff
diff_from diff (x ∷ a) [] = diff
diff_from diff (x ∷ a) (y ∷ b) = diff_from (bit_or width diff (bit_xor width x y)) a b

unfoldable pub timing_safe_equal : Text → Text → Bool
timing_safe_equal a b = if not (length a == length b) then false else diff_from 0 a b == 0

bit_xor-zero : (w a b : ℕ) → a < 2 ^ w → b < 2 ^ w → bit_xor w a b ≡ 0 → a ≡ b
unfolding bit_xor
bit_xor-zero zero a b p q h = omega arith
bit_xor-zero (suc w) a b p q h =
    let rest = bit_xor-zero w (a / 2) (b / 2) (omega arith) (omega arith) (omega arith) in
    omega arith

bit_xor-same : (w a : ℕ) → bit_xor w a a ≡ 0
unfolding bit_xor
bit_xor-same zero a = refl
bit_xor-same (suc w) a = let rest = bit_xor-same w (a / 2) in omega arith

bit_xor-bounds : (w a b : ℕ) → bit_xor w a b < 2 ^ w
unfolding bit_xor
bit_xor-bounds zero a b = omega arith
bit_xor-bounds (suc w) a b = let rest = bit_xor-bounds w (a / 2) (b / 2) in omega arith

bit_or-bounds : (w a b : ℕ) → bit_or w a b < 2 ^ w
unfolding bit_or
bit_or-bounds zero a b = omega arith
bit_or-bounds (suc w) a b = let rest = bit_or-bounds w (a / 2) (b / 2) in omega arith

bit_or-zero : (w a b : ℕ) → a < 2 ^ w → b < 2 ^ w → bit_or w a b ≡ 0 → (a ≡ 0) × (b ≡ 0)
unfolding bit_or
bit_or-zero zero a b p q h = omega arith
bit_or-zero (suc w) a b p q h =
    let rest = bit_or-zero w (a / 2) (b / 2) (omega arith) (omega arith) (omega arith) in
    omega arith

bit_or-zeros : (w : ℕ) → bit_or w 0 0 ≡ 0
unfolding bit_or
bit_or-zeros zero = refl
bit_or-zeros (suc w) = let rest = bit_or-zeros w in omega arith

-- Character codes, which have 16 bits.
abbrev pub AreCodes : Text → Type 0
AreCodes = All (λ c. c < 2 ^ 16)

diff_from-zero :
    (diff : ℕ) (a b : Text)
    → diff < 2 ^ 16
    → AreCodes a
    → AreCodes b
    → length a ≡ length b
    → diff_from diff a b ≡ 0
    → (diff ≡ 0) × (a ≡ b)
unfolding diff_from
diff_from-zero diff [] [] p q r e h = (h, refl)
diff_from-zero diff [] (y ∷ b) p q r e h = ground arith
diff_from-zero diff (x ∷ a) [] p q r e h = ground arith
diff_from-zero diff (x ∷ a) (y ∷ b) p q r e h =
    let (none_yet, rest) =
      diff_from-zero (bit_or 16 diff (bit_xor 16 x y)) a b (bit_or-bounds 16 diff (bit_xor 16 x y))
        q.1 r.1 (omega arith) h in
    let (before, here) = bit_or-zero 16 diff (bit_xor 16 x y) p (bit_xor-bounds 16 x y) none_yet in
    (before, cc (bit_xor-zero 16 x y q.0 r.0 here, rest))

diff_from-same : (a : Text) → diff_from 0 a a ≡ 0
unfolding diff_from
diff_from-same [] = refl
diff_from-same (x ∷ a) = rw (bit_xor-same 16 x, bit_or-zeros 16) (diff_from-same a)

pub timing_safe_equal-same : (a : Text) → timing_safe_equal a a ≡ true
unfolding timing_safe_equal
timing_safe_equal-same a = ground (arith, diff_from-same a)

-- The comparison is the equality of texts.
pub timing_safe_equal_iff :
    (a b : Text) → AreCodes a → AreCodes b → (timing_safe_equal a b ≡ true) ↔ (a ≡ b)
unfolding timing_safe_equal
timing_safe_equal_iff a b p q = (
  λ h. elim (Bool-cases (length a == length b)) [
    | inl equal ↦ (diff_from-zero 0 a b (omega arith) p q (ground arith) (ground arith)).1
    | inr unequal ↦ cc (rw unequal at h)
  ],
  λ e. rw e (timing_safe_equal-same b),
)
