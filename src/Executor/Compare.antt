-- ===== src/Executor/Compare.antt =====
-- The comparison operators of `evaluate_expr`, and `std::to_string`.
use advance_db.Prelude.{
  ℕ, zero, suc, ◌+◌, ◌*◌, ◌/◌, ◌%◌, ◌^◌, ◌-◌, ◌<◌, ◌≡◌, refl, Bool, not, [], ◌∷◌, ◌++◌, String,
  eq_string, lt_string, ◌==◌, if◌then◌else◌, ok, arith,
}
use advance_db.Executor.Evaluator.{
  Value, int_value, string_value, int_modulus, less_int, compare_values, apply_operator, digits,
}

abbrev pub count : Bool → ℕ
count b = if b then 1 else 0

-- Exactly one of less, equal and greater.
lt_string_trichotomy :
    (s t : String) → count (lt_string s t) + count (eq_string s t) + count (lt_string t s) ≡ 1
lt_string_trichotomy [] [] = refl
lt_string_trichotomy [] (y ∷ t) = refl
lt_string_trichotomy (x ∷ s) [] = refl
lt_string_trichotomy (x ∷ s) (y ∷ t) = ground (arith, lt_string_trichotomy s t)

less_int_trichotomy :
    (a b : ℕ)
    → a < int_modulus
    → b < int_modulus
    → count (less_int a b) + count (a == b) + count (less_int b a) ≡ 1
unfolding less_int
less_int_trichotomy a b h k = ground arith

-- Two values of one kind; ints are 32-bit patterns.
pub data Alike : Value → Value → Type 0 where
  two_ints : (a b : ℕ) → a < int_modulus → b < int_modulus → Alike (int_value a) (int_value b)
  two_strings : (s t : String) → Alike (string_value s) (string_value t)

-- Of two ints or two strings, exactly one of "<", "=" and ">" holds, "<=" is what ">" is not,
-- and ">=" is what "<" is not; each gives 1 or 0.
pub compare_trichotomy :
    (a b : Value)
    → Alike a b
    → (less equal greater : Bool) × (count less + count equal + count greater ≡ 1)
      × (apply_operator (60 ∷ []) a b ≡ ok (int_value (count less)))
      × (apply_operator (61 ∷ []) a b ≡ ok (int_value (count equal)))
      × (apply_operator (62 ∷ []) a b ≡ ok (int_value (count greater)))
      × (apply_operator (60 ∷ 61 ∷ []) a b ≡ ok (int_value (count (not greater))))
      × (apply_operator (62 ∷ 61 ∷ []) a b ≡ ok (int_value (count (not less))))
unfolding apply_operator compare_values
compare_trichotomy _ _ (two_ints a b h k) =
    (less_int a b, a == b, less_int b a, less_int_trichotomy a b h k, refl, refl, refl, refl, refl)
compare_trichotomy _ _ (two_strings s t) = (
  lt_string s t,
  eq_string s t,
  lt_string t s,
  lt_string_trichotomy s t,
  refl,
  refl,
  refl,
  refl,
  refl,
)

-- The number that decimal digits stand for.
abbrev pub decimal : ℕ → String → ℕ
decimal n [] = n
decimal n (d ∷ ds) = decimal (n * 10 + d - 48) ds

decimal-snoc : (n : ℕ) (s : String) (d : ℕ) → decimal n (s ++ d ∷ []) ≡ decimal n s * 10 + d - 48
decimal-snoc n [] d = refl
decimal-snoc n (c ∷ s) d = decimal-snoc (n * 10 + c - 48) s d

-- Ten digits are enough for an int's magnitude, and no digit is lost.
pub decimal-digits : (fuel n : ℕ) → n < 10 ^ fuel → decimal 0 (digits fuel n) ≡ n
unfolding digits
decimal-digits zero n h = omega (arith, h)
decimal-digits (suc fuel) n h =
    let front = decimal-digits fuel (n / 10) (omega (arith, h)) in
    ground (arith, front, decimal-snoc 0 (digits fuel (n / 10)) (48 + n % 10))
