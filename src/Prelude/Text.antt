-- ===== src/Prelude/Text.antt =====
-- Text that the source walks, as the list of its code points, and the decimal notation of `bigint`:
-- `/^\d+$/`, `BigInt(text)` and `n.toString()`.
use Prim.Native.Nat.{ℕ, zero, suc, ◌+◌, ◌-◌, ◌*◌, ◌/◌, ◌%◌, ◌^◌, ◌≤◌, ◌<◌}
use Prim.Native.Char.{code}
use Prim.Native.String.{String}
use mathlib.Core.Path.{◌≡◌, refl}
use mathlib.Core.Bool.{Bool, true, false, ◌&&◌, not}
use mathlib.Core.Logic.{inl, inr}
use mathlib.Core.List.{List, [], ◌∷◌, ◌++◌}
use mathlib.Core.Option.{Option, none, some}
use native.Mathlib.Omega.{arith}
use vellar_sdk.Prelude.Tests.{ltb, leb, ◌==◌, nat_eq, string_eq, if◌then◌else◌, Bool-cases}
use vellar_sdk.Prelude.Lists.{every, is_empty, All, length, length-append}

abbrev pub codes : String → List ℕ
codes String.[] = []
codes (String.◌∷◌ c s) = code c ∷ codes s

-- `!text` for a text that may be undefined.
abbrev pub is_truthy : Option String → Bool
is_truthy none = false
is_truthy (some s) = not (s == "")

abbrev pub is_digit : ℕ → Bool
is_digit c = leb b'0' c && leb c b'9'

-- `/^\d+$/`.
abbrev pub all_digits : List ℕ → Bool
all_digits cs = not (is_empty cs) && every is_digit cs

-- `BigInt` of a text of digits, after `acc` digits' worth of value.
unfoldable pub big_int_from : ℕ → List ℕ → ℕ
big_int_from acc [] = acc
big_int_from acc (c ∷ cs) = big_int_from (acc * 10 + (c - b'0')) cs

unfoldable pub big_int : List ℕ → ℕ
unfolding big_int_from
big_int = big_int_from 0

-- `n.toString()`: `n` itself is fuel enough.
to_string_fuel : ℕ → ℕ → List ℕ
to_string_fuel zero n = []
to_string_fuel (suc f) n =
    let front = to_string_fuel f (n / 10) ++ (b'0' + n % 10) ∷ [] in
    if ltb n 10 then (b'0' + n) ∷ [] else front

unfoldable pub to_string : ℕ → List ℕ
unfolding to_string_fuel
to_string n = to_string_fuel (suc n) n

pub big_int_from-append :
    (acc : ℕ) (xs ys : List ℕ) → big_int_from acc (xs ++ ys) ≡ big_int_from (big_int_from acc xs) ys
unfolding big_int_from
big_int_from-append acc [] ys = refl
big_int_from-append acc (x ∷ xs) ys = big_int_from-append (acc * 10 + (x - b'0')) xs ys

big_int-to_string_fuel : (f n : ℕ) → n < f → big_int (to_string_fuel f n) ≡ n
unfolding big_int to_string_fuel
big_int-to_string_fuel zero n h = elim h [ ]
big_int-to_string_fuel (suc f) n h = elim (Bool-cases (ltb n 10)) [
  | inl short ↦ rw short (omega arith)
  | inr long ↦ rw long (
      rw (big_int_from-append 0 (to_string_fuel f (n / 10)))
        (ground (arith, big_int-to_string_fuel f (n / 10))))
]

pub big_int-to_string : (n : ℕ) → big_int (to_string n) ≡ n
unfolding to_string
big_int-to_string n = big_int-to_string_fuel (suc n) n (omega arith)

abbrev pub IsDigits : List ℕ → Type 0
IsDigits = All (λ c. (b'0' ≤ c) × (c ≤ b'9'))

pub All-append {ℓ κ} :
    {A : Type ℓ} (P : A → Type κ) (xs ys : List A) → All P xs → All P ys → All P (xs ++ ys)
All-append P [] ys h k = k
All-append P (x ∷ xs) ys (p, h) k = (p, All-append P xs ys h k)

to_string_fuel-IsDigits : (f n : ℕ) → IsDigits (to_string_fuel f n)
unfolding to_string_fuel
to_string_fuel-IsDigits zero n = tt
to_string_fuel-IsDigits (suc f) n = elim (Bool-cases (ltb n 10)) [
  | inl short ↦ rw short (ground arith)
  | inr long ↦ rw long (
      All-append _ (to_string_fuel f (n / 10)) _ (to_string_fuel-IsDigits f (n / 10)) (omega arith))
]

pub to_string-IsDigits : (n : ℕ) → IsDigits (to_string n)
unfolding to_string
to_string-IsDigits n = to_string_fuel-IsDigits (suc n) n

pub is_empty-append {ℓ} :
    {A : Type ℓ} (xs : List A) (y : A) (ys : List A) → is_empty (xs ++ y ∷ ys) ≡ false
is_empty-append [] y ys = refl
is_empty-append (x ∷ xs) y ys = refl

pub to_string-ne-nil : (n : ℕ) → is_empty (to_string n) ≡ false
unfolding to_string
to_string-ne-nil n = elim (Bool-cases (ltb n 10)) [
  | inl short ↦ rw short
  | inr long ↦ rw long (is_empty-append (to_string_fuel n (n / 10)) _ [])
]

pub every-IsDigits : (cs : List ℕ) → IsDigits cs → every is_digit cs ≡ true
every-IsDigits [] h = refl
every-IsDigits (c ∷ cs) (p, h) = ground (arith, every-IsDigits cs h)

pub IsDigits-every : (cs : List ℕ) → every is_digit cs ≡ true → IsDigits cs
IsDigits-every [] h = tt
IsDigits-every (c ∷ cs) h = (ground arith, IsDigits-every cs (ground arith))

-- What is printed is read back.
pub all_digits-to_string : (n : ℕ) → all_digits (to_string n) ≡ true
all_digits-to_string n =
    ground (arith, to_string-ne-nil n, every-IsDigits (to_string n) (to_string-IsDigits n))

pub big_int-cons_zero : (cs : List ℕ) → big_int (b'0' ∷ cs) ≡ big_int cs
unfolding big_int big_int_from
big_int-cons_zero cs = refl

length-to_string_fuel : (f d n : ℕ) → n < 10 ^ suc d → length (to_string_fuel f n) ≤ suc d
unfolding to_string_fuel
length-to_string_fuel zero d n h = omega arith
length-to_string_fuel (suc f) zero n h =
    let short : ltb n 10 ≡ true = ground arith in rw (short, to_string_fuel) (omega arith)
length-to_string_fuel (suc f) (suc d) n h =
    let front = length-to_string_fuel f d (n / 10) (omega arith) in
    elim (Bool-cases (ltb n 10)) [
      | inl short ↦ rw (short, to_string_fuel) (omega arith)
      | inr long ↦
          rw (long, to_string_fuel)
            (rw (length-append (to_string_fuel f (n / 10)) ((b'0' + n % 10) ∷ [])) (omega arith))
    ]

-- A number below a power of ten has no more digits than the power says.
pub length-to_string : (d n : ℕ) → n < 10 ^ suc d → length (to_string n) ≤ suc d
unfolding to_string
length-to_string d n h = length-to_string_fuel (suc n) d n h

pub to_string_zero : to_string 0 ≡ b'0' ∷ []
unfolding to_string to_string_fuel
to_string_zero = refl

pub big_int_nil : big_int [] ≡ 0
unfolding big_int big_int_from
big_int_nil = refl
