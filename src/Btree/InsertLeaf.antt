-- ===== src/Btree/InsertLeaf.antt =====
-- An insertion that a leaf has room for is an insertion into the sorted entries of the tree.
use advance_db.Prelude.{
  ℕ, ◌<◌, ◌≡◌, ◌≢◌, refl, sym, ap, ◌∙◌, Bool, true, false, Option, none, some, List, ◌==◌, arith,
  length, ok, Result, Mem, subst, [], ◌∷◌, inl, inr, Bool-cases,
}
use advance_db.Bytes.Blocks.{AllBelow, Agree, read_u16-Agree}
use advance_db.Page.PageHeader.{Page}
use advance_db.BufferPool.Disk.{DiskManager, disk_pages}
use advance_db.BufferPool.Pool.{Pool}
use advance_db.BufferPool.Coherence.{content}
use advance_db.BufferPool.Counts.{Faultless}
use advance_db.BufferPool.Visit.{visit, after, visit-Writes}
use advance_db.BufferPool.Ready.{IsReady, visit-IsReady}
use advance_db.Record.Cell.{BSearchResult, search_record, page_insert}
use advance_db.Record.Sorted.{Key, Entry, keys, position, find, put, find-absent}
use advance_db.Record.View.{view}
use advance_db.Record.Search.{search_record-position}
use advance_db.Record.Insert.{HasRoom, page_insert-put, can_insert_of_room}
use advance_db.Btree.Entry.{BtreeError}
use advance_db.Btree.Handle.{is_leaf, Handle, find_leaf_page}
use advance_db.Btree.Local.{put-IsLocal}
use advance_db.Btree.Search.{HasTree, HasTree-Reads, find_leaf_page-Arrives}
use advance_db.Btree.Insert.{
  fits_in, insert_if_fits, inserted_leaf, btree_insert_leaf_no_split, insert_unless_fits,
  insert_in_leaf, insert_reached, btree_insert,
}

pub found_of_find :
    (k : Key) (es : List Entry) → find k es ≡ none → (position k (keys es)).found ≡ false
unfolding position find
found_of_find k [] h = refl
found_of_find k (x ∷ es) h = ground (arith, found_of_find k es)

pub found_of_some :
    (k : Key) (es : List Entry) (v : List ℕ)
    → find k es ≡ some v
    → (position k (keys es)).found ≡ true
found_of_some k es v h = elim (Bool-cases (position k (keys es)).found) [
  | inl found ↦ found
  | inr fresh ↦ absurd (ground (arith, h, find-absent k es fresh))
]

pub is_leaf-Agree : {q p : Page} → Agree 0 18 q p → is_leaf p ≡ true → is_leaf q ≡ true
is_leaf-Agree {q} {p} a l = ground (arith, read_u16-Agree 6 a (omega arith) (omega arith), l)

pub page_eq : {a b : Page} → some a ≡ some b → a ≡ b
page_eq e = cc

module _ (dm : DiskManager) where
  inserted_leaf-some :
      (key : Key) (value : List ℕ) (r : Option Page × Pool dm) (p : Page)
      → r.0 ≡ some p
      → inserted_leaf dm key value r ≡ (fits_in key value p, r.1)
  unfolding inserted_leaf
  inserted_leaf-some key value (none, s) p e = cc
  inserted_leaf-some key value (some q, s) p e =
      let same : q ≡ p = cc in ap (λ x. (fits_in key value x, s)) same

  insert_if_fits-tidy :
      (key : Key) (value : List ℕ) (p : Page)
      → fits_in key value p ≡ false
      → insert_if_fits key value p ≡ p
  unfolding insert_if_fits
  insert_if_fits-tidy key value p h = rw h refl

  insert_if_fits-put :
      (key : Key) (value : List ℕ) (p q : Page)
      → fits_in key value p ≡ true
      → page_insert p key value ≡ (q, true)
      → insert_if_fits key value p ≡ q
  unfolding insert_if_fits
  insert_if_fits-put key value p q h e = rw (h, e) refl

  unless_fits :
      (rounds root id : ℕ) (key : Key) (value : List ℕ) (r : Bool × Pool dm)
      → r.0 ≡ true
      → insert_unless_fits dm rounds root id key value r
        ≡ ok (true, record { pool = r.1; root_page = root })
  unfolding insert_unless_fits
  unless_fits rounds root id key value (true, s) e = refl
  unless_fits rounds root id key value (false, s) e = cc

  insert_reached-leaf :
      (rounds root : ℕ) (junk : Page) (key : Key) (value : List ℕ) (id : ℕ) (p : Page) (s : Pool dm)
      → (search_record p key).found ≡ false
      → (btree_insert_leaf_no_split dm id key value s).0 ≡ true
      → insert_reached dm rounds root junk key value (some (id, p), s)
        ≡ ok (
          true,
          record { pool = (btree_insert_leaf_no_split dm id key value s).1; root_page = root },
        )
  unfolding insert_reached insert_in_leaf
  insert_reached-leaf rounds root junk key value id p s fresh done =
      rw fresh
        (unless_fits rounds root id key value (btree_insert_leaf_no_split dm id key value s) done)

  -- A handle whose tree has the entries `es`, over a pool that is ready; pages outside the old tree
  -- are as they were.
  pub record Becomes (th : Handle dm) (old : List ℕ) (es : List Entry) (answer : Bool)
      (r : Result BtreeError (Bool × Handle dm)) : Type 1 where
    pub handle : Handle dm
    pub result : r ≡ ok (answer, handle)
    pub ready : IsReady dm handle.pool
    pub tree : HasTree dm handle es
    pub others :
        (j : ℕ) → j < disk_pages → ¬ Mem j old → content dm handle.pool j ≡ content dm th.pool j

  -- A handle with the same tree, in a ready pool in which every page is as it was.
  pub record Stays (th : Handle dm) (es : List Entry) (answer : Bool)
      (r : Result BtreeError (Bool × Handle dm)) : Type 0 where
    pub handle : Handle dm
    pub result : r ≡ ok (answer, handle)
    pub root : handle.root_page ≡ th.root_page
    pub ready : IsReady dm handle.pool
    pub tree : HasTree dm handle es
    pub same : (j : ℕ) → j < disk_pages → content dm handle.pool j ≡ content dm th.pool j

  module _ (rounds : ℕ) (junk : Page) (th : Handle dm) (key : Key) (value : List ℕ)
      (es : List Entry) (sound : Faultless dm) (ready : IsReady dm th.pool)
      (t : HasTree dm th es) where
    -- Over a disk that does not fail and a pool that is ready, `btree_insert` into a tree of at most
    -- 101 levels of a key that the tree has returns false: the root and what every page reads as are
    -- as before, and the pool stays ready.
    pub btree_insert-duplicate :
        (v : List ℕ)
        → find key es ≡ some v
        → Stays th es false (btree_insert dm rounds junk key value th)
    unfolding btree_insert insert_reached insert_in_leaf
    btree_insert-duplicate v present =
        let a = find_leaf_page-Arrives dm th key es sound ready t in
        let root : (th.root_page == 0) ≡ false = ground (arith, t.root.positive) in
        let found : (search_record a.page key).found ≡ true =
          ap (λ (r : BSearchResult). r.found) (search_record-position a.page key a.formed)
          ∙ found_of_some key (view a.page) v (sym a.same ∙ present) in
        record {
          handle = record { pool = a.pool; root_page = th.root_page };
          result = rw (root, a.result, found) refl;
          root = refl;
          ready = a.reads.ready;
          tree = HasTree-Reads dm th a.pool es a.reads t;
          same = a.reads.same;
        }

    -- Over a disk that does not fail and a pool that is ready, `btree_insert` into a tree of at most
    -- 101 levels of a key that the tree does not have, where the leaf that the key leads to has room
    -- for the record, returns true: the tree has the old entries and the new one at its place in the
    -- key order, pages outside the tree are as before, and the pool stays ready. The key is not
    -- empty, and key and value are bytes.
    pub btree_insert-put :
        0 < length key
        → AllBelow 256 key
        → AllBelow 256 value
        → find key es ≡ none
        → ((id : ℕ) (p : Page) (s : Pool dm)
            → find_leaf_page dm key th ≡ ok (some (id, p), s)
            → HasRoom p key value)
        → Becomes th t.pages (put key value es) true (btree_insert dm rounds junk key value th)
    unfolding btree_insert btree_insert_leaf_no_split
    btree_insert-put filled kb vb absent room =
        let a = find_leaf_page-Arrives dm th key es sound ready t in
        let root : (th.root_page == 0) ≡ false = ground (arith, t.root.positive) in
        let fresh = found_of_find key (view a.page) (sym a.same ∙ absent) in
        let unfound : (search_record a.page key).found ≡ false =
          ap (λ (r : BSearchResult). r.found) (search_record-position a.page key a.formed)
          ∙ fresh in
        let has = room a.id a.page a.pool a.result in
        let fits = can_insert_of_room a.page key value a.formed filled kb vb has in
        let (q, run, formed, seen, head) =
          page_insert-put a.page key value a.formed filled kb vb fresh has in
        let h = t.inside a.id a.among in
        let step = visit dm a.id (fits_in key value) (insert_if_fits key value) a.pool in
        let (next, (p, got, read)) =
          visit-IsReady dm a.pool a.id (fits_in key value) (insert_if_fits key value) sound
            a.reads.ready h (insert_if_fits-tidy key value) in
        let at : p ≡ a.page = page_eq (sym read ∙ a.reads.same a.id h ∙ a.stored) in
        let w =
          (visit-Writes dm a.pool a.id (fits_in key value) (insert_if_fits key value)
            a.reads.ready.coherent a.reads.ready.can_pin h (insert_if_fits-tidy key value)).0 in
        let here : content dm step.1 a.id ≡ some q =
          w.here
          ∙ ap (after dm (insert_if_fits key value) (content dm a.pool a.id)) got
          ∙ ap (λ x. some (insert_if_fits key value x)) at
          ∙ ap some (insert_if_fits-put key value a.page q fits run) in
        let wrote : inserted_leaf dm key value step ≡ (true, step.1) =
          inserted_leaf-some key value step p got
          ∙ ap (λ x. (fits_in key value x, step.1)) at
          ∙ ap (λ b. (b, step.1)) fits in
        let elsewhere : (j : ℕ)
            → j < disk_pages
            → j ≢ a.id
            → content dm step.1 j ≡ content dm th.pool j =
          λ j i n. w.same j i n ∙ a.reads.same j i in
        record {
          handle = record { pool = step.1; root_page = th.root_page };
          result =
              rw (root, a.result)
                (insert_reached-leaf rounds th.root_page junk key value a.id a.page a.pool unfound
                    (ap (λ (r : Bool × Pool dm). r.0) wrote)
                  ∙ ap
                      (λ (r : Bool × Pool dm).
                        ok (true, record { pool = r.1; root_page = th.root_page }))
                      wrote);
          ready = next;
          tree = record {
            root = t.root;
            height = t.height;
            enough = t.enough;
            pages = t.pages;
            inside = t.inside;
            apart = t.apart;
            formed =
                a.replace (put key value) (content dm step.1) q (put-IsLocal key value)
                  (is_leaf-Agree head a.leaf) formed seen here
                  (λ j m n. elsewhere j (t.inside j m) n);
          };
          others = λ j i n. elsewhere j i (λ e. n (subst (λ x. Mem x t.pages) (sym e) a.among));
        }
