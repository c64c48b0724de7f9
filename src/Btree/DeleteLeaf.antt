-- ===== src/Btree/DeleteLeaf.antt =====
-- A deletion that leaves its leaf large enough is a removal from the sorted entries of the tree.
use advance_db.Prelude.{
  ℕ, ◌<◌, ◌≡◌, ◌≢◌, ◌⊎◌, refl, sym, ap, ◌∙◌, Bool, true, false, Option, none, some, List, ◌==◌,
  arith, ok, Result, Mem, subst, inl, inr,
}
use advance_db.Page.PageHeader.{Page, cell_count, parent_page_id}
use advance_db.BufferPool.Disk.{DiskManager, disk_pages}
use advance_db.BufferPool.Pool.{Pool, fetch_page}
use advance_db.BufferPool.Coherence.{content}
use advance_db.BufferPool.Counts.{Faultless}
use advance_db.BufferPool.Visit.{visit, visited, peek, after, visit-Writes}
use advance_db.BufferPool.Ready.{IsReady, visit-IsReady}
use advance_db.Record.Cell.{BSearchResult, search_record, page_delete}
use advance_db.Record.Sorted.{Key, Entry, find, remove}
use advance_db.Record.View.{view}
use advance_db.Record.Search.{search_record-position}
use advance_db.Record.Delete.{page_delete-remove}
use advance_db.Btree.Entry.{BtreeError}
use advance_db.Btree.Handle.{Handle, find_leaf_page}
use advance_db.Btree.Siblings.{attempt, attempted}
use advance_db.Btree.Merge.{is_page_underutilized}
use advance_db.Btree.Delete.{
  delete_in, delete_root, try_merge, drain_if_empty, rebalance, deleted_record, delete_reached,
  btree_delete,
}
use advance_db.Btree.Local.{remove-IsLocal}
use advance_db.Btree.Search.{HasTree, HasTree-Reads, find_leaf_page-Arrives}
use advance_db.Btree.Reads.{peek-Reads}
use advance_db.Btree.InsertLeaf.{
  Stays, page_eq, found_of_find, found_of_some, is_leaf-Agree, Becomes,
}

-- The leaf needs no change of the tree: as the root it is not empty, and with a parent it is not
-- underutilised.
abbrev pub Suffices : Page → Type 0
Suffices q =
    ((parent_page_id q ≡ 0) × (cell_count q ≢ 0))
    ⊎ ((parent_page_id q ≢ 0) × (cell_count q ≢ 0) × (is_page_underutilized q ≡ false))

module _ (dm : DiskManager) where
  attempted-visited :
      (id : ℕ) (g : Page → Result BtreeError (Page × Bool)) (dirty : Page → Bool) (h : Page → Page)
      (r : Option ℕ × Pool dm) (p q : Page) (d : Bool)
      → (visited dm id dirty h r).0 ≡ some p
      → g p ≡ ok (q, d)
      → attempted dm id g r ≡ ok (some d, (visited dm id (λ x. d) (λ x. q) r).1)
  unfolding attempted visited
  attempted-visited id g dirty h (none, s) p q d e run = cc
  attempted-visited id g dirty h (some f, s) p q d e run =
      let at : (s.frames f).page ≡ p = page_eq e in rw (at, run) refl

  -- A rewrite of a page that can be fetched is a visit of it.
  pub attempt-visit :
      (id : ℕ) (g : Page → Result BtreeError (Page × Bool)) (dirty : Page → Bool) (h : Page → Page)
      (s : Pool dm) (p q : Page) (d : Bool)
      → (visit dm id dirty h s).0 ≡ some p
      → g p ≡ ok (q, d)
      → attempt dm id g s ≡ ok (some d, (visit dm id (λ x. d) (λ x. q) s).1)
  unfolding attempt visit
  attempt-visit id g dirty h s p q d e run =
      attempted-visited id g dirty h (fetch_page dm id s) p q d e run

  delete_in-ok :
      (key : Key) (p q : Page) → page_delete p key ≡ ok (q, true) → delete_in key p ≡ ok (q, true)
  unfolding delete_in
  delete_in-ok key p q e = rw (e, delete_in) refl

  delete_reached-leaf :
      (root id : ℕ) (key : Key) (p : Page) (s t : Pool dm)
      → (search_record p key).found ≡ true
      → attempt dm id (delete_in key) s ≡ ok (some true, t)
      → delete_reached dm root key (some (id, p), s) ≡ rebalance dm root id (peek dm id t)
  unfolding delete_reached deleted_record
  delete_reached-leaf root id key p s t found run = rw (found, run) refl

  rebalance-Suffices :
      (root id : ℕ) (r : Option Page × Pool dm) (q : Page)
      → r.0 ≡ some q
      → Suffices q
      → rebalance dm root id r ≡ ok (true, record { pool = r.1; root_page = root })
  unfolding rebalance delete_root try_merge drain_if_empty
  rebalance-Suffices root id (none, s) q e keep = cc
  rebalance-Suffices root id (some x, s) q e (inl (top, some_left)) =
      let at : x ≡ q = page_eq e in
      let full : (cell_count q == 0) ≡ false = ground (arith, some_left) in rw (at, top, full) refl
  rebalance-Suffices root id (some x, s) q e (inr (below, some_left, large)) =
      let at : x ≡ q = page_eq e in
      let inner : (parent_page_id q == 0) ≡ false = ground (arith, below) in
      let full : (cell_count q == 0) ≡ false = ground (arith, some_left) in
      rw (at, inner, large, full) refl

  module _ (th : Handle dm) (key : Key) (es : List Entry) (sound : Faultless dm)
      (ready : IsReady dm th.pool) (t : HasTree dm th es) where
    -- Over a disk that does not fail and a pool that is ready, `btree_delete` from a tree of at most
    -- 101 levels of a key that the tree does not have returns false: the root and what every page
    -- reads as are as before, and the pool stays ready.
    pub btree_delete-absent : find key es ≡ none → Stays dm th es false (btree_delete dm key th)
    unfolding btree_delete delete_reached
    btree_delete-absent absent =
        let a = find_leaf_page-Arrives dm th key es sound ready t in
        let root : (th.root_page == 0) ≡ false = ground (arith, t.root.positive) in
        let unfound : (search_record a.page key).found ≡ false =
          ap (λ (r : BSearchResult). r.found) (search_record-position a.page key a.formed)
          ∙ found_of_find key (view a.page) (sym a.same ∙ absent) in
        record {
          handle = record { pool = a.pool; root_page = th.root_page };
          result = rw (root, a.result, unfound) refl;
          root = refl;
          ready = a.reads.ready;
          tree = HasTree-Reads dm th a.pool es a.reads t;
          same = a.reads.same;
        }

    -- Over a disk that does not fail and a pool that is ready, `btree_delete` from a tree of at most
    -- 101 levels of a key that the tree has, where the leaf is not empty afterwards and is either
    -- the root or not underutilised, returns true: the tree has the old entries without that of the
    -- key, pages outside the tree are as before, and the pool stays ready.
    pub btree_delete-remove :
        (v : List ℕ)
        → find key es ≡ some v
        → ((id : ℕ) (p q : Page) (s : Pool dm)
            → find_leaf_page dm key th ≡ ok (some (id, p), s)
            → page_delete p key ≡ ok (q, true)
            → Suffices q)
        → Becomes dm th t.pages (remove key es) true (btree_delete dm key th)
    unfolding btree_delete
    btree_delete-remove v present suffices =
        let a = find_leaf_page-Arrives dm th key es sound ready t in
        let root : (th.root_page == 0) ≡ false = ground (arith, t.root.positive) in
        let known = found_of_some key (view a.page) v (sym a.same ∙ present) in
        let found : (search_record a.page key).found ≡ true =
          ap (λ (r : BSearchResult). r.found) (search_record-position a.page key a.formed)
          ∙ known in
        let (q, run, formed, seen, head) = page_delete-remove a.page key a.formed known in
        let h = t.inside a.id a.among in
        let step = visit dm a.id (λ x. true) (λ x. q) a.pool in
        let (next, (p, got, read)) =
          visit-IsReady dm a.pool a.id (λ x. true) (λ x. q) sound a.reads.ready h (λ x e. cc) in
        let at : p ≡ a.page = page_eq (sym read ∙ a.reads.same a.id h ∙ a.stored) in
        let w =
          (visit-Writes dm a.pool a.id (λ x. true) (λ x. q) a.reads.ready.coherent
            a.reads.ready.can_pin h (λ x e. cc)).0 in
        let here : content dm step.1 a.id ≡ some q =
          w.here ∙ ap (after dm (λ x. q) (content dm a.pool a.id)) got in
        let wrote =
          attempt-visit a.id (delete_in key) (λ x. true) (λ x. q) a.pool p q true got
            (ap (delete_in key) at ∙ delete_in-ok key a.page q run) in
        let (again, (x, got', read')) = peek-Reads dm step.1 a.id sound next h in
        let is_q : x ≡ q = page_eq (sym read' ∙ here) in
        let elsewhere : (j : ℕ)
            → j < disk_pages
            → j ≢ a.id
            → content dm (peek dm a.id step.1).1 j ≡ content dm th.pool j =
          λ j i n. again.same j i ∙ w.same j i n ∙ a.reads.same j i in
        record {
          handle = record { pool = (peek dm a.id step.1).1; root_page = th.root_page };
          result =
              rw (root, a.result)
                (delete_reached-leaf th.root_page a.id key a.page a.pool step.1 found wrote
                  ∙ rebalance-Suffices th.root_page a.id (peek dm a.id step.1) q
                      (got' ∙ ap some is_q) (suffices a.id a.page q a.pool a.result run));
          ready = again.ready;
          tree = record {
            root = t.root;
            height = t.height;
            enough = t.enough;
            pages = t.pages;
            inside = t.inside;
            apart = t.apart;
            formed =
                a.replace (remove key) (content dm (peek dm a.id step.1).1) q (remove-IsLocal key)
                  (is_leaf-Agree head a.leaf) formed seen (again.same a.id h ∙ here)
                  (λ j m n. elsewhere j (t.inside j m) n);
          };
          others = λ j i n. elsewhere j i (λ e. n (subst (λ x. Mem x t.pages) (sym e) a.among));
        }
