-- ===== src/Record/Compare.antt =====
-- `compare_keys` of src/storage/record.cpp, whose callers only read the sign of its result.
use advance_db.Prelude.{ℕ, suc, ◌≡◌, refl, List, [], ◌∷◌, compare, Ordering, min, length, arith}

-- The sign of `std::memcmp` over the first `n` bytes.
unfoldable pub memcmp : ℕ → List ℕ → List ℕ → Ordering
memcmp (suc n) (a ∷ l) (b ∷ r) = elim (compare a b) [
  | Ordering.eq ↦ memcmp n l r
  | Ordering.lt ↦ Ordering.lt
  | Ordering.gt ↦ Ordering.gt
]
memcmp _ _ _ = Ordering.eq

unfoldable pub compare_keys : List ℕ → List ℕ → Ordering
unfolding memcmp
compare_keys first second = elim (memcmp (min (length first) (length second)) first second) [
  | Ordering.eq ↦ compare (length first) (length second)
  | Ordering.lt ↦ Ordering.lt
  | Ordering.gt ↦ Ordering.gt
]

-- The reference order: byte by byte, a proper prefix first.
unfoldable pub lex : List ℕ → List ℕ → Ordering
lex [] [] = Ordering.eq
lex [] (b ∷ r) = Ordering.lt
lex (a ∷ l) [] = Ordering.gt
lex (a ∷ l) (b ∷ r) = elim (compare a b) [
  | Ordering.eq ↦ lex l r
  | Ordering.lt ↦ Ordering.lt
  | Ordering.gt ↦ Ordering.gt
]

min-suc-suc : (m n : ℕ) → min (suc m) (suc n) ≡ suc (min m n)
min-suc-suc m n = omega arith

-- `compare_keys`, the comparison of the common prefix with the lengths as a tie break, is the
-- lexicographic order on byte strings.
pub compare_keys-lex : (a b : List ℕ) → compare_keys a b ≡ lex a b
unfolding compare_keys lex
compare_keys-lex [] [] = refl
compare_keys-lex [] (b ∷ r) =
    let e : min 0 (suc (length r)) ≡ 0 = omega arith in rw (e, compare_keys, memcmp) (ground arith)
compare_keys-lex (a ∷ l) [] =
    let e : min (suc (length l)) 0 ≡ 0 = omega arith in rw (e, compare_keys, memcmp) (ground arith)
compare_keys-lex (a ∷ l) (b ∷ r) =
    rw (min-suc-suc, compare_keys, memcmp) (ground (arith, compare_keys-lex l r))

pub lex_refl : (a : List ℕ) → lex a a ≡ Ordering.eq
unfolding lex
lex_refl [] = refl
lex_refl (a ∷ l) = ground (arith, lex_refl l)

pub eq_of_lex : (a b : List ℕ) → lex a b ≡ Ordering.eq → a ≡ b
unfolding lex
eq_of_lex [] [] h = refl
eq_of_lex [] (b ∷ r) h = ground arith
eq_of_lex (a ∷ l) [] h = ground arith
eq_of_lex (a ∷ l) (b ∷ r) h = ground (arith, eq_of_lex l r)

pub lex_trans :
    (a b c : List ℕ) → lex a b ≡ Ordering.lt → lex b c ≡ Ordering.lt → lex a c ≡ Ordering.lt
unfolding lex
lex_trans [] [] c h k = cc
lex_trans [] (b ∷ r) [] h k = cc
lex_trans [] (b ∷ r) (c ∷ s) h k = refl
lex_trans (a ∷ l) [] c h k = cc
lex_trans (a ∷ l) (b ∷ r) [] h k = cc
lex_trans (a ∷ l) (b ∷ r) (c ∷ s) h k = ground (arith, lex_trans l r s)

abbrev pub flip : Ordering → Ordering
flip Ordering.lt = Ordering.gt
flip Ordering.eq = Ordering.eq
flip Ordering.gt = Ordering.lt

pub lex-flip : (a b : List ℕ) → lex b a ≡ flip (lex a b)
unfolding lex
lex-flip [] [] = refl
lex-flip [] (b ∷ r) = refl
lex-flip (a ∷ l) [] = refl
lex-flip (a ∷ l) (b ∷ r) = ground (arith, lex-flip l r)
