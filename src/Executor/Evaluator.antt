-- ===== src/Executor/Evaluator.antt =====
-- src/executor/types.h and src/executor/evaluator.cpp. An int is its 32-bit pattern; overflow,
-- which C++ leaves undefined, wraps around here. A C++ string is the list of its bytes, so that
-- "<=" is 60 ∷ 61 ∷ [].
use advance_db.Prelude.{
  ℕ, zero, suc, ◌+◌, ◌-◌, ◌*◌, ◌/◌, ◌%◌, Bool, true, ◌&&◌, ◌||◌, not, none, some, List, [], ◌∷◌,
  ◌++◌, String, eq_string, lt_string, get_elem?, ltb, leb, ◌==◌, if◌then◌else◌, Result, ok, err,
  ◌>>=◌,
}
use advance_db.Planner.Plan.{Expr, identifier, number, string, unary, binary}

pub data Value : Type 0 where
  int_value : ℕ → Value
  string_value : String → Value

abbrev pub Tuple : Type 0
Tuple = List Value

-- The messages of the std::runtime_errors.
pub data EvalError : Type 0 where
  expected_integer column_not_found column_out_of_bounds division_by_zero unknown_operator
        unsupported_expression :
      EvalError

abbrev pub int_modulus : ℕ
int_modulus = 4294967296

abbrev pub sign_bit : ℕ
sign_bit = 2147483648

abbrev pub is_negative : ℕ → Bool
is_negative x = leb sign_bit x

unfoldable pub negate : ℕ → ℕ
negate x = (int_modulus - x) % int_modulus

unfoldable pub magnitude : ℕ → ℕ
unfolding negate
magnitude x = if is_negative x then negate x else x

-- Division towards zero.
unfoldable pub divide : ℕ → ℕ → ℕ
unfolding magnitude negate
divide a b =
    let q = magnitude a / magnitude b in
    if is_negative a
    then (if is_negative b then q else negate q)
    else (if is_negative b then negate q else q)

unfoldable pub less_int : ℕ → ℕ → Bool
less_int a b = ltb ((a + sign_bit) % int_modulus) ((b + sign_bit) % int_modulus)

-- The decimal digits of a number, at most `fuel` of them; an int has ten.
unfoldable pub digits : ℕ → ℕ → String
digits zero n = []
digits (suc fuel) n =
    let front = digits fuel (n / 10) in
    if ltb n 10 then (48 + n) ∷ [] else front ++ (48 + n % 10) ∷ []

-- std::to_string
unfoldable pub to_string : ℕ → String
unfolding magnitude digits
to_string x = if is_negative x then 45 ∷ digits 10 (magnitude x) else digits 10 x

abbrev pub get_int : Value → Result EvalError ℕ
get_int (int_value x) = ok x
get_int (string_value s) = err expected_integer

-- The third case of `get_string`, neither an int nor a string, does not occur.
unfoldable pub get_string : Value → String
unfolding to_string
get_string (string_value s) = s
get_string (int_value x) = to_string x

unfoldable pub find_column_index : String → List String → Result EvalError ℕ
find_column_index name [] = err column_not_found
find_column_index name (column ∷ columns) =
    let later = find_column_index name columns in
    if eq_string column name then ok 0 else (later >>= λ i. ok (i + 1))

abbrev pub truth : Bool → Value
truth b = int_value (if b then 1 else 0)

-- A comparison of two ints or two strings; other pairs give 0.
unfoldable pub compare_values : (ℕ → ℕ → Bool) → (String → String → Bool) → Value → Value → Value
compare_values ints strings (int_value a) (int_value b) = truth (ints a b)
compare_values ints strings (string_value a) (string_value b) = truth (strings a b)
compare_values ints strings (int_value a) (string_value b) = int_value 0
compare_values ints strings (string_value a) (int_value b) = int_value 0

-- A string operand makes "+" a concatenation.
unfoldable pub add_values : Value → Value → Value
unfolding get_string
add_values (int_value a) (int_value b) = int_value ((a + b) % int_modulus)
add_values (int_value a) (string_value b) = string_value (get_string (int_value a) ++ b)
add_values (string_value a) b = string_value (a ++ get_string b)

-- An operator on two ints.
unfoldable pub on_ints : (ℕ → ℕ → Result EvalError ℕ) → Value → Value → Result EvalError Value
on_ints f a b = get_int a >>= λ x. get_int b >>= λ y. f x y >>= λ z. ok (int_value z)

-- The divisor is looked at first.
unfoldable pub divide_values : Value → Value → Result EvalError Value
divide_values a b = get_int b >>= λ y.
    if y == 0 then err division_by_zero else (get_int a >>= λ x. ok (int_value (divide x y)))

abbrev pub is_op : String → String → String → Bool
is_op op a b = eq_string op a || eq_string op b

-- The chain of tests of the operator, once both operands are evaluated.
unfoldable pub apply_operator : String → Value → Value → Result EvalError Value
apply_operator op a b =
    if eq_string op (43 ∷ [])
    then ok (add_values a b)
    else if eq_string op (45 ∷ [])
    then on_ints (λ x y. ok ((x + int_modulus - y) % int_modulus)) a b
    else if eq_string op (42 ∷ [])
    then on_ints (λ x y. ok (x * y % int_modulus)) a b
    else if eq_string op (47 ∷ [])
    then divide_values a b
    else if is_op op (61 ∷ []) (61 ∷ 61 ∷ [])
    then ok (compare_values (λ x y. x == y) eq_string a b)
    else if eq_string op (60 ∷ [])
    then ok (compare_values less_int lt_string a b)
    else if eq_string op (62 ∷ [])
    then ok (compare_values (λ x y. less_int y x) (λ s t. lt_string t s) a b)
    else if eq_string op (60 ∷ 61 ∷ [])
    then ok (compare_values (λ x y. not (less_int y x)) (λ s t. not (lt_string t s)) a b)
    else if eq_string op (62 ∷ 61 ∷ [])
    then ok (compare_values (λ x y. not (less_int x y)) (λ s t. not (lt_string s t)) a b)
    else if is_op op (65 ∷ 78 ∷ 68 ∷ []) (38 ∷ 38 ∷ [])
    then on_ints (λ x y. ok (if not (x == 0) && not (y == 0) then 1 else 0)) a b
    else if is_op op (79 ∷ 82 ∷ []) (124 ∷ 124 ∷ [])
    then on_ints (λ x y. ok (if not (x == 0) || not (y == 0) then 1 else 0)) a b
    else err unknown_operator

abbrev pub column_value : Tuple → ℕ → Result EvalError Value
column_value tuple i = elim (get_elem? tuple i) [ none ↦ err column_out_of_bounds | some v ↦ ok v ]

unfoldable pub evaluate_expr : Expr → Tuple → List String → Result EvalError Value
evaluate_expr (identifier name) tuple columns =
    find_column_index name columns >>= column_value tuple
evaluate_expr (number n) tuple columns = ok (int_value n)
evaluate_expr (string s) tuple columns = ok (string_value s)
evaluate_expr unary tuple columns = err unsupported_expression
evaluate_expr (binary op l r) tuple columns = evaluate_expr l tuple columns >>= λ a.
    evaluate_expr r tuple columns >>= λ b. apply_operator op a b

abbrev pub is_true : Value → Bool
is_true (int_value x) = not (x == 0)
is_true (string_value s) = true

unfoldable pub evaluate_predicate : Expr → Tuple → List String → Result EvalError Bool
evaluate_predicate predicate tuple columns =
    evaluate_expr predicate tuple columns >>= λ v. ok (is_true v)
