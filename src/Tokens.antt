-- ===== src/Tokens.antt =====
-- src/payments.ts and src/balances.ts: token amounts as text, and the batch of balance reads.
-- A text is the list of its characters' codes.
pub mod Digits
pub mod RoundTrip
mod Tests
use vellar_sdk.Prelude.{
  ℕ, zero, suc, ◌+◌, ◌-◌, ◌*◌, ◌/◌, ◌%◌, ◌^◌, ℤ, pos, negsuc, Bool, true, false, not, ◌&&◌, ◌||◌,
  Option, none, some, List, [], ◌∷◌, ◌++◌, Result, ok, err, length, is_empty, leb, ltb, ◌==◌,
  nat_eq, all_digits, big_int, to_string, if◌then◌else◌, String, map,
}

pub data TokenError : Type 0 where
  invalid_decimals not_an_amount too_many_decimals zero_amount : TokenError

-- `decimals`: a non-negative integer, or another number.
pub data Decimals : Type 0 where
  places : ℕ → Decimals
  unsupported : Decimals

abbrev pub digit_0 : ℕ
digit_0 = b'0'

abbrev pub dot : ℕ
dot = b'.'

abbrev pub minus_sign : ℕ
minus_sign = b'-'

-- The characters that `trim` removes.
abbrev pub is_space : ℕ → Bool
is_space c =
    (leb 9 c && leb c 13)
    || c == 32
    || c == 160
    || c == 5760
    || (leb 8192 c && leb c 8202)
    || c == 8232
    || c == 8233
    || c == 8239
    || c == 8287
    || c == 12288
    || c == 65279

-- The text without its last characters that pass the test: `/0+$/`, and the end of `trim`.
abbrev pub strip_end : (ℕ → Bool) → List ℕ → List ℕ
strip_end p [] = []
strip_end p (c ∷ cs) = let rest = strip_end p cs in if is_empty rest && p c then [] else c ∷ rest

abbrev pub strip_start : (ℕ → Bool) → List ℕ → List ℕ
strip_start p [] = []
strip_start p (c ∷ cs) = let rest = strip_start p cs in if p c then rest else c ∷ cs

abbrev pub trim : List ℕ → List ℕ
trim cs = strip_end is_space (strip_start is_space cs)

abbrev pub repeat : ℕ → ℕ → List ℕ
repeat zero c = []
repeat (suc n) c = c ∷ repeat n c

abbrev pub pad_end : List ℕ → ℕ → List ℕ
pad_end cs n = cs ++ repeat (n - length cs) digit_0

abbrev pub pad_start : List ℕ → ℕ → List ℕ
pad_start cs n = repeat (n - length cs) digit_0 ++ cs

-- What stands before the first dot, and what after it.
abbrev pub split_dot : List ℕ → List ℕ × Option (List ℕ)
split_dot [] = ([], none)
split_dot (c ∷ cs) =
    let (front, rest) = split_dot cs in if c == dot then ([], some cs) else (c ∷ front, rest)

-- `/^\d+(\.\d+)?$/`, on the two sides of the first dot.
abbrev pub is_amount : List ℕ → Option (List ℕ) → Bool
is_amount front none = all_digits front
is_amount front (some rest) = all_digits front && all_digits rest

abbrev pub fraction_of : Option (List ℕ) → List ℕ
fraction_of none = []
fraction_of (some rest) = rest

-- The function from its third test on.
unfoldable pub token_units : List ℕ → List ℕ → ℕ → Result TokenError ℕ
token_units front fraction decimals =
    let raw = big_int front * 10 ^ decimals + big_int (pad_end fraction decimals) in
    if ltb decimals (length fraction)
    then err too_many_decimals
    else if raw == 0
    then err zero_amount
    else ok raw

unfoldable pub parse_token_amount : List ℕ → Decimals → Result TokenError ℕ
parse_token_amount input unsupported = err invalid_decimals
parse_token_amount input (places decimals) =
    let (front, rest) = split_dot (trim input) in
    if not (is_amount front rest)
    then err not_an_amount
    else token_units front (fraction_of rest) decimals

abbrev pub absolute : ℤ → ℕ
absolute (pos n) = n
absolute (negsuc n) = suc n

abbrev pub sign_of : ℤ → List ℕ
sign_of (pos n) = []
sign_of (negsuc n) = minus_sign ∷ []

-- `replace(/0+$/, "")`.
abbrev pub strip_zeros : List ℕ → List ℕ
strip_zeros = strip_end (λ c. c == digit_0)

-- The template of the result.
abbrev pub join_parts : List ℕ → List ℕ → List ℕ
join_parts front fraction = if is_empty fraction then front else front ++ dot ∷ fraction

unfoldable pub format_token_amount : ℤ → Decimals → Result TokenError (List ℕ)
format_token_amount amount unsupported = err invalid_decimals
format_token_amount amount (places decimals) =
    let base = 10 ^ decimals in
    let fraction = strip_zeros (pad_start (to_string (absolute amount % base)) decimals) in
    ok (sign_of amount ++ join_parts (to_string (absolute amount / base)) fraction)

abbrev pub max_batch_balance_size : ℕ
max_batch_balance_size = 32

-- A `BatchBalanceResult`; `none` is a read that failed.
pub record BatchBalanceResult : Type 0 where
  pub contract_id : String
  pub amount : Option ℤ

pub record BatchBalanceSizeError : Type 0 where
  pub max_size : ℕ
  pub requested : ℕ

-- `fetchBalancesBatch`; `read` is the reader for the holder, `none` where it rejects.
unfoldable pub fetch_balances_batch :
    (String → Option ℤ) → List String → Result BatchBalanceSizeError (List BatchBalanceResult)
fetch_balances_batch read tokens =
    if ltb max_batch_balance_size (length tokens)
    then err (record { max_size = max_batch_balance_size; requested = length tokens })
    else ok (map (λ c. record { contract_id = c; amount = read c }) tokens)
