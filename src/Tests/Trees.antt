-- ===== src/Tests/Trees.antt =====
-- A tree of two leaves under an internal root, on a disk that does not fail.
use mathlib.Core.HLevel.{⊥_prop}
use mathlib.Core.Logic.{∥∥₁_elim}
use mathlib.Core.List.{Memᴰ, Pairwise}
use mathlib.Core.List.Memᴰ
use advance_db.Prelude.{
  ℕ, ◌+◌, ◌<◌, ◌≡◌, ◌≢◌, refl, sym, subst, ap, ◌∙◌, true, false, some, List, [], ◌∷◌, arith, Mem,
  Nodup, Nodup-cons, ◌⊎◌, ◌*◌, inl, inr, lt_or_le, Result, ok,
}
use advance_db.Bytes.{zeroed}
use advance_db.Page.PageHeader.{Page, leftmost_child, cell_count, free_start, free_end}
use advance_db.Record.Compare.{lex}
use advance_db.Record.Sorted.{Key, Entry, put, find}
use advance_db.Record.Insert.{HasRoom}
use advance_db.Record.Delete.{nonempty}
use advance_db.BufferPool.Disk.{disk_pages}
use advance_db.BufferPool.Pool.{update, Pool, new_pool}
use advance_db.BufferPool.Coherence.{content, new_pool-IsCoherent}
use advance_db.BufferPool.Ready.{IsReady, visit-IsReady}
use advance_db.Btree.Entry.{BtreeError, internal_find_child}
use advance_db.Btree.InternalView.{internal_view, child_for}
use advance_db.Btree.FindChild.{internal_find_child-child_for}
use advance_db.Btree.Handle.{Handle, Arrival, is_leaf, find_leaf_page, btree_search}
use advance_db.Btree.Tree.{IsTree, AreSubtrees}
use advance_db.Btree.Insert.{btree_insert}
use advance_db.Btree.Delete.{btree_delete}
use advance_db.Btree.DeleteLeaf.{btree_delete-absent}
use advance_db.BufferPool.Visit.{peek}
use advance_db.Btree.InsertLeaf.{Stays, page_eq, Becomes, btree_insert-put, btree_insert-duplicate}
use advance_db.Btree.Search.{HasTree, Answers, Arrives, find_leaf_page-Arrives, btree_search-find}
use advance_db.Tests.TreePages.{
  ram-Faultless, not_in, one_entry, one_entry-view, one_entry-leaf, left_leaf, right_leaf, made,
  root, root-view, root-leftmost, left_room, right_room,
}
use advance_db.Tests.Pools.{ram}

abbrev pub entries : List Entry
entries = (1 ∷ [], 9 ∷ []) ∷ (5 ∷ [], 7 ∷ []) ∷ []

abbrev disk : ℕ → Page
disk = update (update (update (λ i. zeroed) 3 left_leaf) 4 right_leaf) 7 root

abbrev pub pool : Pool ram
pool = new_pool ram 2 zeroed disk

abbrev handle : Handle ram
handle = record { pool = pool; root_page = 7 }

pool-IsReady : IsReady ram pool
unfolding new_pool
pool-IsReady = record {
  coherent = (new_pool-IsCoherent ram 2 zeroed disk).0;
  can_pin = λ f. omega arith;
  spare = (0, inl (omega arith, refl));
}

pool-reads : (id : ℕ) → content ram pool id ≡ some (disk id)
pool-reads = (new_pool-IsCoherent ram 2 zeroed disk).1

pub pages-inside : (j : ℕ) → Mem j (7 ∷ 3 ∷ 4 ∷ []) → j < disk_pages
pages-inside j m = elim (lt_or_le j disk_pages) [
  | inl h ↦ h
  | inr h ↦ absurd (
      ∥∥₁_elim m ⊥_prop
        (not_in j (7 ∷ 3 ∷ 4 ∷ []) (ground arith, (ground arith, (ground arith, tt)))))
]

pages-apart : Nodup {A = ℕ} (7 ∷ 3 ∷ 4 ∷ [])
pages-apart = Nodup-cons.1 (
  λ m. ∥∥₁_elim m ⊥_prop (not_in 7 (3 ∷ 4 ∷ []) (ground arith, (ground arith, tt))),
  Nodup-cons.1 (
    λ m. ∥∥₁_elim m ⊥_prop (not_in 3 (4 ∷ []) (ground arith, tt)),
    Nodup-cons.1 (λ m. ∥∥₁_elim m ⊥_prop (not_in 4 [] tt), Pairwise.nil),
  ),
)

leaf-IsTree :
    (id k x : ℕ) (small : k < 256) (byte : x < 256)
    → id < 4294967296
    → disk id ≡ (one_entry id k x small byte).0
    → IsTree (content ram pool) 0 id (id ∷ []) ((k ∷ [], x ∷ []) ∷ [])
leaf-IsTree id k x small byte h e = (
  (one_entry id k x small byte).0,
  refl,
  pool-reads id ∙ ap some e,
  one_entry-leaf id k x small byte h,
  (one_entry id k x small byte).2,
  one_entry-view id k x small byte,
)

handle-subtrees :
    AreSubtrees
      (IsTree (content ram pool) 0)
      (leftmost_child root)
      (internal_view root)
      (3 ∷ 4 ∷ [])
      entries
unfolding lex
handle-subtrees =
    rw (root-view, root-leftmost)
      (
        3 ∷ [],
        4 ∷ [],
        (1 ∷ [], 9 ∷ []) ∷ [],
        (5 ∷ [], 7 ∷ []) ∷ [],
        refl,
        refl,
        leaf-IsTree 3 1 9 (omega arith) (omega arith) (omega arith) refl,
        (refl, tt),
        (ground arith, tt),
        record { positive = omega arith; below = omega arith },
        leaf-IsTree 4 5 7 (omega arith) (omega arith) (omega arith) refl,
      )

abbrev handle-HasTree : HasTree ram handle entries
handle-HasTree = record {
  root = record { positive = omega arith; below = omega arith };
  height = 1;
  enough = omega arith;
  pages = 7 ∷ 3 ∷ 4 ∷ [];
  inside = pages-inside;
  apart = pages-apart;
  formed = (root, 3 ∷ 4 ∷ [], refl, pool-reads 7, made.2, handle-subtrees);
}

btree_search-find_example :
    Answers ram handle (nonempty (find (5 ∷ []) entries)) (btree_search ram (5 ∷ []) handle)
btree_search-find_example =
    btree_search-find ram handle (5 ∷ []) entries ram-Faultless pool-IsReady handle-HasTree

found_five : nonempty (find (5 ∷ []) entries) ≡ some (7 ∷ [])
unfolding find lex
found_five = refl

pub arrived_page :
    {id id' : ℕ} {p p' : Page} {s s' : Pool ram} (r : Result BtreeError (Arrival ram))
    → r ≡ ok (some (id, p), s)
    → r ≡ ok (some (id', p'), s')
    → p ≡ p'
arrived_page r e e' = cc

root-inner : is_leaf root ≢ true
root-inner l = ground (arith, l, made.2.level)

leaf_cases :
    (id : ℕ)
    → Memᴰ id (7 ∷ 3 ∷ 4 ∷ [])
    → is_leaf (disk id) ≡ true
    → (disk id ≡ left_leaf) ⊎ (disk id ≡ right_leaf)
leaf_cases id (Memᴰ.head e) l = absurd (root-inner (subst (λ i. is_leaf (disk i) ≡ true) e l))
leaf_cases id (Memᴰ.tail (Memᴰ.head e)) l = inl (ap disk e)
leaf_cases id (Memᴰ.tail (Memᴰ.tail (Memᴰ.head e))) l = inr (ap disk e)
leaf_cases id (Memᴰ.tail (Memᴰ.tail (Memᴰ.tail m))) l = absurd (Memᴰ.not-nil m)

leaf-HasRoom :
    (id : ℕ)
    → Mem id (7 ∷ 3 ∷ 4 ∷ [])
    → is_leaf (disk id) ≡ true
    → HasRoom (disk id) (3 ∷ []) (8 ∷ [])
leaf-HasRoom id m l =
    elim (lt_or_le (free_end (disk id))
      (free_start (disk id) + (5 + 1 + 1) + 2 * (cell_count (disk id) + 1))) [
        | inr room ↦ room
        | inl tight ↦ absurd (
            ∥∥₁_elim m ⊥_prop (λ d. elim (leaf_cases id d l) [
              | inl e ↦
                  omega (arith, tight, subst (λ p. HasRoom p (3 ∷ []) (8 ∷ [])) (sym e) left_room)
              | inr e ↦
                  omega (arith, tight, subst (λ p. HasRoom p (3 ∷ []) (8 ∷ [])) (sym e) right_room)
            ]))
      ]

reached_room :
    (key : Key) (id : ℕ) (p : Page) (s : Pool ram)
    → find_leaf_page ram key handle ≡ ok (some (id, p), s)
    → HasRoom p (3 ∷ []) (8 ∷ [])
reached_room key id p s e =
    let a =
      find_leaf_page-Arrives ram handle key entries ram-Faultless pool-IsReady handle-HasTree in
    let at : disk a.id ≡ a.page = page_eq (sym (pool-reads a.id) ∙ a.stored) in
    let same : a.page ≡ p = arrived_page (find_leaf_page ram key handle) a.result e in
    subst (λ q. HasRoom q (3 ∷ []) (8 ∷ [])) (at ∙ same)
      (leaf-HasRoom a.id a.among (subst (λ q. is_leaf q ≡ true) (sym at) a.leaf))

btree_insert-put_example :
    Becomes ram handle
      (7 ∷ 3 ∷ 4 ∷ [])
      (put (3 ∷ []) (8 ∷ []) entries)
      true
      (btree_insert ram 10 zeroed (3 ∷ []) (8 ∷ []) handle)
unfolding find lex
btree_insert-put_example =
    btree_insert-put ram 10 zeroed handle (3 ∷ []) (8 ∷ []) entries ram-Faultless pool-IsReady
      handle-HasTree (omega arith) (omega arith, tt) (omega arith, tt) refl (reached_room (3 ∷ []))

btree_insert-duplicate_example :
    Stays ram handle entries false (btree_insert ram 10 zeroed (5 ∷ []) (8 ∷ []) handle)
unfolding find lex
btree_insert-duplicate_example =
    btree_insert-duplicate ram 10 zeroed handle (5 ∷ []) (8 ∷ []) entries ram-Faultless pool-IsReady
      handle-HasTree (7 ∷ []) refl

btree_delete-absent_example : Stays ram handle entries false (btree_delete ram (3 ∷ []) handle)
unfolding find lex
btree_delete-absent_example =
    btree_delete-absent ram handle (3 ∷ []) entries ram-Faultless pool-IsReady handle-HasTree refl

visit-IsReady_example :
    IsReady ram (peek ram 7 pool).1
    × ((p : Page) × ((peek ram 7 pool).0 ≡ some p) × (content ram pool 7 ≡ some p))
visit-IsReady_example =
    visit-IsReady ram pool 7 (λ p. false) (λ p. p) ram-Faultless pool-IsReady (omega arith)
      (λ p e. refl)

internal_find_child-child_for_example :
    internal_find_child root (6 ∷ [])
    ≡ ok (child_for (6 ∷ []) (leftmost_child root) (internal_view root))
internal_find_child-child_for_example = internal_find_child-child_for root (6 ∷ []) made.2

find_leaf_page-Arrives_example :
    Arrives ram (5 ∷ []) 1 7 (7 ∷ 3 ∷ 4 ∷ []) entries pool (find_leaf_page ram (5 ∷ []) handle)
find_leaf_page-Arrives_example =
    find_leaf_page-Arrives ram handle (5 ∷ []) entries ram-Faultless pool-IsReady handle-HasTree
