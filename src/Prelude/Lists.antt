-- ===== src/Prelude/Lists.antt =====
-- Lists measured by native numbers, predicates over lists, and the searches of the source:
-- `every`, `some`, `includes`, `filter`.
use Prim.Native.Nat.{ℕ, suc, ◌+◌}
use mathlib.Core.Path.{◌≡◌, refl}
use mathlib.Core.Logic.{◌⊎◌, inl, inr}
use mathlib.Core.Bool.{Bool, true, false, ◌&&◌, ◌||◌}
use mathlib.Core.List.{List, [], ◌∷◌, ◌++◌, Memᴰ}
use mathlib.Core.Option.{Option, none, some}
use native.Mathlib.Omega.{arith}
use vellar_sdk.Prelude.Tests.{if◌then◌else◌, Bool-cases}

module _ {ℓ} {A : Type ℓ} where
  abbrev pub length : List A → ℕ
  length [] = 0
  length (x ∷ xs) = suc (length xs)

  abbrev pub is_empty : List A → Bool
  is_empty [] = true
  is_empty (x ∷ xs) = false

  abbrev pub every : (A → Bool) → List A → Bool
  every p [] = true
  every p (x ∷ xs) = p x && every p xs

  abbrev pub any : (A → Bool) → List A → Bool
  any p [] = false
  any p (x ∷ xs) = p x || any p xs

  abbrev pub find : (A → Bool) → List A → Option A
  find p [] = none
  find p (x ∷ xs) = if p x then some x else find p xs

  -- `Array.prototype.filter`.
  abbrev pub keep : (A → Bool) → List A → List A
  keep p [] = []
  keep p (x ∷ xs) = let rest = keep p xs in if p x then x ∷ rest else rest

  pub length-append : (xs ys : List A) → length (xs ++ ys) ≡ length xs + length ys
  length-append [] ys = omega arith
  length-append (x ∷ xs) ys = omega (arith, length-append xs ys)

module _ {ℓ κ} {A : Type ℓ} (P : A → Type κ) where
  abbrev pub All : List A → Type κ
  All [] = Unit
  All (x ∷ xs) = P x × All xs

module _ {ℓ} {A : Type ℓ} where
  pub Memᴰ-cases : {x y : A} {xs : List A} → Memᴰ x (y ∷ xs) → (x ≡ y) ⊎ Memᴰ x xs
  Memᴰ-cases (Memᴰ.head e) = inl e
  Memᴰ-cases (Memᴰ.tail m) = inr m

  pub All-mem {κ} : (P : A → Type κ) (xs : List A) (x : A) → All P xs → Memᴰ x xs → P x
  All-mem P [] x h m = elim m [ ]
  All-mem P (y ∷ xs) x (p, h) m = elim (Memᴰ-cases m) [
    | inl e ↦ rw e p
    | inr later ↦ All-mem P xs x h later
  ]

  -- `filter` keeps exactly the members that pass.
  pub keep-mem :
      (p : A → Bool) (xs : List A) (x : A) → Memᴰ x (keep p xs) → Memᴰ x xs × (p x ≡ true)
  keep-mem p [] x m = elim m [ ]
  keep-mem p (y ∷ xs) x m = elim (Bool-cases (p y)) [
    | inl passes ↦ elim (Memᴰ-cases (rw passes at m)) [
      | inl e ↦ (Memᴰ.head e, rw e passes)
      | inr later ↦ let (there, ok_x) = keep-mem p xs x later in (Memᴰ.tail there, ok_x)
    ]
    | inr fails ↦ let (there, ok_x) = keep-mem p xs x (rw fails at m) in (Memᴰ.tail there, ok_x)
  ]

  pub mem-keep : (p : A → Bool) (xs : List A) (x : A) → Memᴰ x xs → p x ≡ true → Memᴰ x (keep p xs)
  mem-keep p [] x m h = elim m [ ]
  mem-keep p (y ∷ xs) x m h = elim (Memᴰ-cases m) [
    | inl e ↦ rw (← e) (rw h (Memᴰ.head refl))
    | inr later ↦ elim (Bool-cases (p y)) [
      | inl passes ↦ rw passes (Memᴰ.tail (mem-keep p xs x later h))
      | inr fails ↦ rw fails (mem-keep p xs x later h)
    ]
  ]
