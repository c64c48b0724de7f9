-- ===== src/Record/Halves.antt =====
-- Sorted entries cut in two.
use advance_db.Prelude.{
  ℕ, zero, suc, ◌+◌, ◌≤◌, ◌≡◌, refl, ap, List, [], ◌∷◌, ◌++◌, arith, length, take, drop,
}
use advance_db.Record.Sorted.{Key, Entry, keys, IsBelow, IsSorted}
use advance_db.Record.Packing.{total_bytes}

pub take-drop : (n : ℕ) (es : List Entry) → take n es ++ drop n es ≡ es
take-drop zero es = refl
take-drop (suc n) [] = refl
take-drop (suc n) (e ∷ es) = ap (λ xs. e ∷ xs) (take-drop n es)

pub length-take : (n : ℕ) (es : List Entry) → n ≤ length es → length (take n es) ≡ n
length-take zero es h = refl
length-take (suc n) [] h = absurd (omega arith)
length-take (suc n) (e ∷ es) h = ap suc (length-take n es (omega arith))

pub length-drop : (n : ℕ) (es : List Entry) → n ≤ length es → length (drop n es) + n ≡ length es
length-drop zero es h = omega arith
length-drop (suc n) [] h = absurd (omega arith)
length-drop (suc n) (e ∷ es) h = omega (arith, length-drop n es (omega arith))

pub total_bytes-halves :
    (n : ℕ) (es : List Entry) → total_bytes (take n es) + total_bytes (drop n es) ≡ total_bytes es
total_bytes-halves zero es = omega arith
total_bytes-halves (suc n) [] = omega arith
total_bytes-halves (suc n) (e ∷ es) = omega (arith, total_bytes-halves n es)

IsBelow-take :
    (k : Key) (n : ℕ) (es : List Entry) → IsBelow k (keys es) → IsBelow k (keys (take n es))
IsBelow-take k zero es b = tt
IsBelow-take k (suc n) [] b = tt
IsBelow-take k (suc n) (e ∷ es) b = (b.0, IsBelow-take k n es b.1)

pub take-IsSorted : (n : ℕ) (es : List Entry) → IsSorted (keys es) → IsSorted (keys (take n es))
take-IsSorted zero es s = tt
take-IsSorted (suc n) [] s = tt
take-IsSorted (suc n) (e ∷ es) s = (IsBelow-take e.0 n es s.0, take-IsSorted n es s.1)

pub drop-IsSorted : (n : ℕ) (es : List Entry) → IsSorted (keys es) → IsSorted (keys (drop n es))
drop-IsSorted zero es s = s
drop-IsSorted (suc n) [] s = tt
drop-IsSorted (suc n) (e ∷ es) s = drop-IsSorted n es s.1
