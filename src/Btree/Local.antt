-- ===== src/Btree/Local.antt =====
-- Insertion and deletion change what is at their key alone.
use advance_db.Prelude.{ℕ, ◌≡◌, ◌≢◌, refl, List, [], ◌∷◌, ◌++◌, Ordering, arith}
use advance_db.Record.Compare.{lex}
use advance_db.Record.Sorted.{Key, Entry, put, remove}
use advance_db.Btree.Tree.{AllBefore, AllFrom, lt_of_ge, gt_of_ge}
use advance_db.Btree.Update.{IsLocal}

AllBefore-put :
    (j key : Key) (v : List ℕ) (xs : List Entry)
    → lex key j ≡ Ordering.lt
    → AllBefore j xs
    → AllBefore j (put key v xs)
unfolding put
AllBefore-put j key v [] h b = (h, tt)
AllBefore-put j key v (x ∷ xs) h b = ground (arith, AllBefore-put j key v xs h b.1)

AllFrom-put :
    (j key : Key) (v : List ℕ) (ys : List Entry)
    → lex key j ≢ Ordering.lt
    → AllFrom j ys
    → AllFrom j (put key v ys)
unfolding put
AllFrom-put j key v [] h b = (h, tt)
AllFrom-put j key v (x ∷ ys) h b = ground (arith, AllFrom-put j key v ys h b.1)

put-right :
    (j key : Key) (v : List ℕ) (xs ys : List Entry)
    → lex key j ≢ Ordering.lt
    → AllBefore j xs
    → put key v (xs ++ ys) ≡ xs ++ put key v ys
unfolding put
put-right j key v [] ys h b = refl
put-right j key v (x ∷ xs) ys h b =
    ground (arith, put-right j key v xs ys h b.1, lt_of_ge x.0 j key b.0 h)

put-first :
    (j key : Key) (v : List ℕ) (ys : List Entry)
    → lex key j ≡ Ordering.lt
    → AllFrom j ys
    → put key v ys ≡ (key, v) ∷ ys
unfolding put
put-first j key v [] h f = refl
put-first j key v (y ∷ ys) h f = ground (arith, gt_of_ge y.0 j key h f.0)

put-left :
    (j key : Key) (v : List ℕ) (xs ys : List Entry)
    → lex key j ≡ Ordering.lt
    → AllFrom j ys
    → put key v (xs ++ ys) ≡ put key v xs ++ ys
unfolding put
put-left j key v [] ys h f = put-first j key v ys h f
put-left j key v (x ∷ xs) ys h f = ground (arith, put-left j key v xs ys h f)

pub put-IsLocal : (key : Key) (v : List ℕ) → IsLocal key (put key v)
put-IsLocal key v = record {
  right = λ j xs ys. put-right j key v xs ys;
  left = λ j xs ys. put-left j key v xs ys;
  before = λ j xs. AllBefore-put j key v xs;
  from = λ j ys. AllFrom-put j key v ys;
}

AllBefore-remove : (j key : Key) (xs : List Entry) → AllBefore j xs → AllBefore j (remove key xs)
unfolding remove
AllBefore-remove j key [] b = tt
AllBefore-remove j key (x ∷ xs) b = ground (arith, AllBefore-remove j key xs b.1)

AllFrom-remove : (j key : Key) (ys : List Entry) → AllFrom j ys → AllFrom j (remove key ys)
unfolding remove
AllFrom-remove j key [] b = tt
AllFrom-remove j key (x ∷ ys) b = ground (arith, AllFrom-remove j key ys b.1)

remove-right :
    (j key : Key) (xs ys : List Entry)
    → lex key j ≢ Ordering.lt
    → AllBefore j xs
    → remove key (xs ++ ys) ≡ xs ++ remove key ys
unfolding remove
remove-right j key [] ys h b = refl
remove-right j key (x ∷ xs) ys h b =
    ground (arith, remove-right j key xs ys h b.1, lt_of_ge x.0 j key b.0 h)

remove-first :
    (j key : Key) (ys : List Entry) → lex key j ≡ Ordering.lt → AllFrom j ys → remove key ys ≡ ys
unfolding remove
remove-first j key [] h f = refl
remove-first j key (y ∷ ys) h f = ground (arith, gt_of_ge y.0 j key h f.0)

remove-left :
    (j key : Key) (xs ys : List Entry)
    → lex key j ≡ Ordering.lt
    → AllFrom j ys
    → remove key (xs ++ ys) ≡ remove key xs ++ ys
unfolding remove
remove-left j key [] ys h f = remove-first j key ys h f
remove-left j key (x ∷ xs) ys h f = ground (arith, remove-left j key xs ys h f)

pub remove-IsLocal : (key : Key) → IsLocal key (remove key)
remove-IsLocal key = record {
  right = λ j xs ys. remove-right j key xs ys;
  left = λ j xs ys. remove-left j key xs ys;
  before = λ j xs h. AllBefore-remove j key xs;
  from = λ j ys h. AllFrom-remove j key ys;
}
