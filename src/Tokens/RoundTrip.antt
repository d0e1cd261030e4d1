-- ===== src/Tokens/RoundTrip.antt =====
-- src/payments.ts and src/balances.ts: an amount that is printed is read back.
use vellar_sdk.Prelude.{
  ℕ, zero, suc, ◌+◌, ◌-◌, ◌*◌, ◌/◌, ◌%◌, ◌^◌, ◌≤◌, ◌<◌, pos, true, false, List, [], ◌∷◌, ◌++◌, ◌≡◌,
  refl, sym, ap, ◌∙◌, arith, length, length-append, ◌==◌, nat_eq, big_int, IsDigits, All-append, ok,
  to_string, all_digits, big_int-to_string, all_digits-to_string, to_string-IsDigits,
  every-IsDigits, big_int-cons_zero, length-to_string, to_string_zero, big_int_nil, ltb,
}
use vellar_sdk.Tokens.{
  places, digit_0, dot, repeat, pad_end, pad_start, strip_zeros, join_parts, token_units,
  parse_token_amount, format_token_amount,
}
use vellar_sdk.Tokens.Digits.{
  strip-split, length-repeat, IsDigits-strip, IsDigits-repeat, IsUnspaced, trim-unspaced,
  IsDigits-IsUnspaced, split_dot-digits, split_dot-dot,
}

big_int-repeat : (k : ℕ) (cs : List ℕ) → big_int (repeat k digit_0 ++ cs) ≡ big_int cs
big_int-repeat zero cs = refl
big_int-repeat (suc k) cs = big_int-cons_zero (repeat k digit_0 ++ cs) ∙ big_int-repeat k cs

-- The fraction that is printed for `m` units of a whole of 10^d.
abbrev last_places : ℕ → ℕ → List ℕ
last_places m d = strip_zeros (pad_start (to_string m) d)

-- The fraction fits its places, and padded again it is worth `m`.
abbrev IsFraction : ℕ → ℕ → Type 0
IsFraction m d = (length (last_places m d) ≤ d) × (big_int (pad_end (last_places m d) d) ≡ m)

length-pad_start : (m d : ℕ) → length (to_string m) ≤ d → length (pad_start (to_string m) d) ≡ d
length-pad_start m d h = omega (
  arith,
  length-append (repeat (d - length (to_string m)) digit_0) (to_string m),
  length-repeat (d - length (to_string m)) digit_0,
)

padded :
    (cs : List ℕ) (m d : ℕ)
    → length cs ≡ d
    → big_int cs ≡ m
    → (length (strip_zeros cs) ≤ d) × (big_int (pad_end (strip_zeros cs) d) ≡ m)
padded cs m d at_length at_value =
    let (k, same) = strip-split cs in
    let parts = length-append (strip_zeros cs) (repeat k digit_0) in
    let total : length (strip_zeros cs) + k ≡ d =
      omega (arith, parts, ap length same, length-repeat k digit_0, at_length) in
    let at_k : d - length (strip_zeros cs) ≡ k = omega arith in
    (omega arith, rw at_k (ap big_int (sym same) ∙ at_value))

IsFraction-pad_start : (m d : ℕ) → m < 10 ^ d → IsFraction m d
IsFraction-pad_start m zero h =
    let none_left : m ≡ 0 = omega arith in
    rw none_left (rw to_string_zero (omega arith, big_int_nil))
IsFraction-pad_start m (suc d) h =
    padded (pad_start (to_string m) (suc d)) m (suc d)
      (length-pad_start m (suc d) (length-to_string d m h))
      (big_int-repeat (suc d - length (to_string m)) (to_string m) ∙ big_int-to_string m)

pow_positive : (d : ℕ) → 0 < 10 ^ d
pow_positive zero = omega arith
pow_positive (suc d) = let smaller = pow_positive d in omega arith

div_mod : (n b : ℕ) → 0 < b → (n / b * b + n % b ≡ n) × (n % b < b)
div_mod n b h = (grind arith, grind arith)

units-of :
    (front rest : List ℕ) (a b d n : ℕ)
    → big_int front ≡ a
    → length rest ≤ d
    → big_int (pad_end rest d) ≡ b
    → a * 10 ^ d + b ≡ n
    → 0 < n
    → token_units front rest d ≡ ok n
unfolding token_units
units-of front rest a b d n at_front short at_rest total positive =
    let fits : ltb d (length rest) ≡ false = ground arith in
    let some_units : n == 0 ≡ false = ground arith in
    rw (at_front, at_rest, total, fits, some_units, token_units) refl

-- What `parse` does with a text of digits, and with two of them around a dot.
parse-front :
    (front : List ℕ) (d : ℕ)
    → IsDigits front
    → all_digits front ≡ true
    → parse_token_amount front (places d) ≡ token_units front [] d
unfolding parse_token_amount
parse-front front d digits some_digits =
    rw
      (
        trim-unspaced front (IsDigits-IsUnspaced front digits),
        split_dot-digits front digits,
        some_digits,
        parse_token_amount,
      )
      refl

parse-both :
    (front rest : List ℕ) (d : ℕ)
    → IsDigits front
    → IsDigits rest
    → all_digits front ≡ true
    → all_digits rest ≡ true
    → parse_token_amount (front ++ dot ∷ rest) (places d) ≡ token_units front rest d
unfolding parse_token_amount
parse-both front rest d digits more some_digits some_more =
    let unspaced : IsUnspaced (front ++ dot ∷ rest) =
      All-append _ front (dot ∷ rest) (IsDigits-IsUnspaced front digits)
        (refl, IsDigits-IsUnspaced rest more) in
    rw
      (
        trim-unspaced (front ++ dot ∷ rest) unspaced,
        split_dot-dot front rest digits,
        some_digits,
        some_more,
        parse_token_amount,
      )
      refl

module _ (n d : ℕ) (positive : 0 < n) where
  abbrev base : ℕ
  base = 10 ^ d

  abbrev front_text : List ℕ
  front_text = to_string (n / base)

  abbrev rest_text : List ℕ
  rest_text = last_places (n % base) d

  units-parts : token_units front_text rest_text d ≡ ok n
  units-parts =
      let (total, less) = div_mod n base (pow_positive d) in
      let (short, value) = IsFraction-pad_start (n % base) d less in
      units-of front_text rest_text (n / base) (n % base) d n (big_int-to_string (n / base)) short
        value total positive

  IsDigits-rest_text : IsDigits rest_text
  IsDigits-rest_text = IsDigits-strip (pad_start (to_string (n % base)) d) (
      All-append _ (repeat (d - length (to_string (n % base))) digit_0) (to_string (n % base))
        (IsDigits-repeat (d - length (to_string (n % base)))) (to_string-IsDigits (n % base)))

  parse-join :
      (rest : List ℕ)
      → IsDigits rest
      → parse_token_amount (join_parts front_text rest) (places d) ≡ token_units front_text rest d
  parse-join [] h =
      parse-front front_text d (to_string-IsDigits (n / base)) (all_digits-to_string (n / base))
  parse-join (c ∷ cs) h =
      parse-both front_text (c ∷ cs) d (to_string-IsDigits (n / base)) h
        (all_digits-to_string (n / base)) (every-IsDigits (c ∷ cs) h)

  -- A positive amount is printed, with any number of decimals, and what is printed is read back as
  -- the same amount.
  pub parse-format :
      (text : List ℕ) × (format_token_amount (pos n) (places d) ≡ ok text)
      × (parse_token_amount text (places d) ≡ ok n)
  unfolding format_token_amount
  parse-format =
      (join_parts front_text rest_text, refl, parse-join rest_text IsDigits-rest_text ∙ units-parts)
