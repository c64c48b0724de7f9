-- ===== src/Record/Sorted.antt =====
-- The abstract page: an association list in strictly increasing key order, searched, extended and
-- cut by a linear scan.
use advance_db.Prelude.{
  ℕ, zero, suc, ◌<◌, ◌≤◌, ◌≡◌, refl, ap, true, false, Option, none, some, List, [], ◌∷◌, map,
  Ordering, arith, length, get_elem?, insert_at, erase_at,
}
use advance_db.Record.Compare.{lex, eq_of_lex, lex_trans, lex-flip}
use advance_db.Record.Cell.{BSearchResult, absent, present}

abbrev pub Key : Type 0
Key = List ℕ

abbrev pub Entry : Type 0
Entry = Key × List ℕ

abbrev pub keys : List Entry → List Key
keys = map (λ e. e.0)

-- `k` is below every key of the list.
abbrev pub IsBelow : Key → List Key → Type 0
IsBelow k [] = Unit
IsBelow k (j ∷ js) = (lex k j ≡ Ordering.lt) × IsBelow k js

abbrev pub IsSorted : List Key → Type 0
IsSorted [] = Unit
IsSorted (j ∷ js) = IsBelow j js × IsSorted js

abbrev shift : BSearchResult → BSearchResult
shift r = record { found = r.found; index = suc r.index }

-- The first position whose key is not below `k`, and whether it holds `k`.
unfoldable pub position : Key → List Key → BSearchResult
position k [] = absent 0
position k (j ∷ js) = elim (lex j k) [
  | Ordering.lt ↦ shift (position k js)
  | Ordering.eq ↦ present 0
  | Ordering.gt ↦ absent 0
]

unfoldable pub find : Key → List Entry → Option (List ℕ)
find k [] = none
find k (e ∷ es) = elim (lex e.0 k) [
  | Ordering.lt ↦ find k es
  | Ordering.eq ↦ some e.1
  | Ordering.gt ↦ none
]

-- A key that is there keeps its value.
unfoldable pub put : Key → List ℕ → List Entry → List Entry
put k v [] = (k, v) ∷ []
put k v (e ∷ es) = elim (lex e.0 k) [
  | Ordering.lt ↦ e ∷ put k v es
  | Ordering.eq ↦ e ∷ es
  | Ordering.gt ↦ (k, v) ∷ e ∷ es
]

unfoldable pub remove : Key → List Entry → List Entry
remove k [] = []
remove k (e ∷ es) = elim (lex e.0 k) [
  | Ordering.lt ↦ e ∷ remove k es
  | Ordering.eq ↦ es
  | Ordering.gt ↦ e ∷ es
]

IsBelow-trans : (a b : Key) (ks : List Key) → lex a b ≡ Ordering.lt → IsBelow b ks → IsBelow a ks
IsBelow-trans a b [] h s = tt
IsBelow-trans a b (k ∷ ks) h s = (lex_trans a b k h s.0, IsBelow-trans a b ks h s.1)

lt_of_gt : (a b : Key) → lex a b ≡ Ordering.gt → lex b a ≡ Ordering.lt
lt_of_gt a b h = ground (arith, lex-flip a b)

pub below-get :
    (a k : Key) (ks : List Key) (i : ℕ)
    → IsBelow a ks
    → get_elem? ks i ≡ some k
    → lex a k ≡ Ordering.lt
below-get a k [] i s e = cc
below-get a k (j ∷ js) zero s e = ground arith
below-get a k (j ∷ js) (suc i) s e = below-get a k js i s.1 e

-- What a comparison with the key at `i` says of the position.
module _ (k : Key) where
  pub position-le : (ks : List Key) → (position k ks).index ≤ length ks
  unfolding position
  position-le [] = omega arith
  position-le (j ∷ js) = ground (arith, position-le js)

  pub position-lt_of_found :
      (ks : List Key) → (position k ks).found ≡ true → (position k ks).index < length ks
  unfolding position
  position-lt_of_found [] h = cc
  position-lt_of_found (j ∷ js) h = ground (arith, position-lt_of_found js)

  pub position_of_lt :
      (ks : List Key) (i : ℕ) (j : Key)
      → IsSorted ks
      → get_elem? ks i ≡ some j
      → lex j k ≡ Ordering.lt
      → i < (position k ks).index
  unfolding position
  position_of_lt [] i j s e h = cc
  position_of_lt (x ∷ ks) zero j s e h = ground arith
  position_of_lt (x ∷ ks) (suc i) j s e h =
      ground (arith, position_of_lt ks i j s.1 e h, lex_trans x j k (below-get x j ks i s.0 e) h)

  pub position_of_gt :
      (ks : List Key) (i : ℕ) (j : Key)
      → IsSorted ks
      → get_elem? ks i ≡ some j
      → lex j k ≡ Ordering.gt
      → ((position k ks).index ≤ i) × ((position k ks).found ≡ true → (position k ks).index < i)
  unfolding position
  position_of_gt [] i j s e h = cc
  position_of_gt (x ∷ ks) zero j s e h = ground arith
  position_of_gt (x ∷ ks) (suc i) j s e h = ground (arith, position_of_gt ks i j s.1 e h)

  pub position_of_eq :
      (ks : List Key) (i : ℕ) (j : Key)
      → IsSorted ks
      → get_elem? ks i ≡ some j
      → lex j k ≡ Ordering.eq
      → position k ks ≡ present i
  unfolding position
  position_of_eq [] i j s e h = cc
  position_of_eq (x ∷ ks) zero j s e h = ground arith
  position_of_eq (x ∷ ks) (suc i) j s e h =
      let same = eq_of_lex j k h in
      let first = below-get x j ks i s.0 e in
      ground (arith, position_of_eq ks i j s.1 e h, ap (lex x) same)

-- A key's position says what the scans do.
pub put-insert_at :
    (k : Key) (v : List ℕ) (es : List Entry)
    → (position k (keys es)).found ≡ false
    → put k v es ≡ insert_at (position k (keys es)).index (k, v) es
unfolding position put
put-insert_at k v [] h = refl
put-insert_at k v (e ∷ es) h = ground (arith, put-insert_at k v es)

pub put-found :
    (k : Key) (v : List ℕ) (es : List Entry) → (position k (keys es)).found ≡ true → put k v es ≡ es
unfolding position put
put-found k v [] h = cc
put-found k v (e ∷ es) h = ground (arith, put-found k v es)

pub remove-erase_at :
    (k : Key) (es : List Entry)
    → (position k (keys es)).found ≡ true
    → remove k es ≡ erase_at (position k (keys es)).index es
unfolding position remove
remove-erase_at k [] h = refl
remove-erase_at k (e ∷ es) h = ground (arith, remove-erase_at k es)

pub remove-absent :
    (k : Key) (es : List Entry) → (position k (keys es)).found ≡ false → remove k es ≡ es
unfolding position remove
remove-absent k [] h = refl
remove-absent k (e ∷ es) h = ground (arith, remove-absent k es)

-- The scan for a key's value reads the entry at its position.
pub find-get :
    (k : Key) (es : List Entry) (e : Entry)
    → (position k (keys es)).found ≡ true
    → get_elem? es (position k (keys es)).index ≡ some e
    → find k es ≡ some e.1
unfolding position find
find-get k [] e h g = cc
find-get k (x ∷ es) e h g = ground (arith, find-get k es e)

pub find-absent :
    (k : Key) (es : List Entry) → (position k (keys es)).found ≡ false → find k es ≡ none
unfolding position find
find-absent k [] h = refl
find-absent k (x ∷ es) h = ground (arith, find-absent k es)

IsBelow-put :
    (a k : Key) (v : List ℕ) (es : List Entry)
    → lex a k ≡ Ordering.lt
    → IsBelow a (keys es)
    → IsBelow a (keys (put k v es))
unfolding put
IsBelow-put a k v [] h s = (h, tt)
IsBelow-put a k v (e ∷ es) h s = ground (arith, IsBelow-put a k v es)

pub put-IsSorted :
    (k : Key) (v : List ℕ) (es : List Entry) → IsSorted (keys es) → IsSorted (keys (put k v es))
unfolding put
put-IsSorted k v [] s = (tt, tt)
put-IsSorted k v (e ∷ es) s = ground (
  arith,
  put-IsSorted k v es,
  IsBelow-put e.0 k v es,
  lt_of_gt e.0 k,
  IsBelow-trans k e.0 (keys es),
)

IsBelow-remove :
    (a k : Key) (es : List Entry) → IsBelow a (keys es) → IsBelow a (keys (remove k es))
unfolding remove
IsBelow-remove a k [] s = tt
IsBelow-remove a k (e ∷ es) s = ground (arith, IsBelow-remove a k es)

pub remove-IsSorted :
    (k : Key) (es : List Entry) → IsSorted (keys es) → IsSorted (keys (remove k es))
unfolding remove
remove-IsSorted k [] s = tt
remove-IsSorted k (e ∷ es) s = ground (arith, remove-IsSorted k es, IsBelow-remove e.0 k es)
