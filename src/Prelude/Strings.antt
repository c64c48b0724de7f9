-- ===== src/Prelude/Strings.antt =====
-- Byte strings (std::string), their equality test and their order, and integers over the native
-- numbers.
use Prim.Native.Nat.{ℕ, compare, Ordering}
use mathlib.Core.Path.{◌≡◌, refl}
use mathlib.Core.Bool.{Bool, true, false}
use mathlib.Core.List.{List, [], ◌∷◌}
use native.Mathlib.Omega.{arith}

pub data ℤ : Type 0 where
  pos : ℕ → ℤ
  negsuc : ℕ → ℤ

abbrev pub String : Type 0
String = List ℕ

abbrev pub eq_string : String → String → Bool
eq_string [] [] = true
eq_string [] (y ∷ ys) = false
eq_string (x ∷ xs) [] = false
eq_string (x ∷ xs) (y ∷ ys) = elim (compare x y) [ Ordering.eq ↦ eq_string xs ys | _ ↦ false ]

abbrev pub lt_string : String → String → Bool
lt_string [] [] = false
lt_string [] (y ∷ ys) = true
lt_string (x ∷ xs) [] = false
lt_string (x ∷ xs) (y ∷ ys) = elim (compare x y) [
  | Ordering.lt ↦ true
  | Ordering.eq ↦ lt_string xs ys
  | Ordering.gt ↦ false
]

pub eq_string_refl : (s : String) → eq_string s s ≡ true
eq_string_refl [] = refl
eq_string_refl (x ∷ xs) = ground (arith, eq_string_refl xs)

pub eq_of_eq_string : (s t : String) → eq_string s t ≡ true → s ≡ t
eq_of_eq_string [] [] h = refl
eq_of_eq_string [] (y ∷ ys) h = cc
eq_of_eq_string (x ∷ xs) [] h = cc
eq_of_eq_string (x ∷ xs) (y ∷ ys) h = ground (arith, eq_of_eq_string xs ys)
