-- ===== src/Btree/Search.antt =====
-- A search of a well-formed tree finds what a linear scan of all its entries finds.
use advance_db.Prelude.{
  ℕ, zero, suc, ◌<◌, ◌≡◌, ◌≢◌, refl, sym, ap, ◌∙◌, Option, none, some, List, ◌==◌, arith, true,
  false, ok, Mem, Nodup, Nodup-cons, mem-cons_self, mem-cons_of_mem, subst, Result,
}
use advance_db.Page.PageHeader.{Page, leftmost_child}
use advance_db.BufferPool.Disk.{DiskManager, disk_pages}
use advance_db.BufferPool.Pool.{Pool}
use advance_db.BufferPool.Coherence.{content}
use advance_db.BufferPool.Counts.{Faultless}
use advance_db.BufferPool.Visit.{peek}
use advance_db.BufferPool.Ready.{IsReady}
use advance_db.Record.Sorted.{Key, Entry, find}
use advance_db.Record.View.{IsPage, view}
use advance_db.Record.Delete.{nonempty, lookup-find}
use advance_db.Btree.Entry.{BtreeError}
use advance_db.Btree.InternalView.{IsChild, internal_view, child_for}
use advance_db.Btree.Handle.{
  is_leaf, turn, Handle, Arrival, descend, max_rounds, find_leaf_page, search_leaf, btree_search,
}
use advance_db.Btree.Tree.{IsTree, IsTree-same}
use advance_db.Btree.Update.{IsLocal, child_for-Leads}
use advance_db.Btree.Reads.{
  turn-leaf, turn-internal, Reads, Reads-trans, peek-Reads, descend-arrived, descend-onward,
}

nonempty_twice : (o : Option (List ℕ)) → nonempty (nonempty o) ≡ nonempty o
nonempty_twice none = refl
nonempty_twice (some x) = ground arith

module _ (dm : DiskManager) where
  -- The leaf that the descent for `key` ends at, with the page as it reads. A change of the entries
  -- that only concerns the key is a change of that leaf.
  pub record Arrives (key : Key) (height root : ℕ) (ids : List ℕ) (es : List Entry) (s : Pool dm)
      (r : Result BtreeError (Arrival dm)) : Type 1 where
    pub id : ℕ
    pub page : Page
    pub pool : Pool dm
    pub result : r ≡ ok (some (id, page), pool)
    pub reads : Reads dm s pool
    pub among : Mem id ids
    pub stored : content dm s id ≡ some page
    pub leaf : is_leaf page ≡ true
    pub formed : IsPage page
    pub same : find key es ≡ find key (view page)
    pub replace :
        (F : List Entry → List Entry) (read' : ℕ → Option Page) (q : Page)
        → IsLocal key F
        → is_leaf q ≡ true
        → IsPage q
        → view q ≡ F (view page)
        → read' id ≡ some q
        → ((j : ℕ) → Mem j ids → j ≢ id → read' j ≡ content dm s j)
        → IsTree read' height root ids (F es)

  -- The pages have ids that the disk can hold.
  abbrev pub AreInside : List ℕ → Type 0
  AreInside ids = (j : ℕ) → Mem j ids → j < disk_pages

  descend-Arrives :
      (height rounds id : ℕ) (s : Pool dm) (key : Key) (ids : List ℕ) (es : List Entry)
      → Faultless dm
      → IsReady dm s
      → AreInside ids
      → Nodup ids
      → height < rounds
      → IsTree (content dm s) height id ids es
      → Arrives key height id ids es s (descend dm (turn key) rounds id s)
  descend-Arrives height zero id s key ids es sound ready inside n enough t = absurd (omega arith)
  descend-Arrives zero (suc rounds) id s key ids es sound ready inside n enough
        (p, listed, read, l, v, seen) =
      let m : Mem id ids = subst (Mem id) (sym listed) mem-cons_self in
      let (k, (q, got, held)) = peek-Reads dm s id sound ready (inside id m) in
      let at : q ≡ p = cc in
      record {
        id = id;
        page = p;
        pool = (peek dm id s).1;
        result = descend-arrived dm (turn key) rounds id s p (got ∙ ap some at) (turn-leaf key p l);
        reads = k;
        among = m;
        stored = read;
        leaf = l;
        formed = v;
        same = ap (find key) (sym seen);
        replace = λ F read' x local leaf formed view here others.
            (x, listed, here, leaf, formed, view ∙ ap F seen);
      }
  descend-Arrives (suc height) (suc rounds) id s key ids es sound ready inside n enough
        (p, below, listed, read, v, t) =
      let m : Mem id ids = subst (Mem id) (sym listed) mem-cons_self in
      let (k, (q, got, held)) = peek-Reads dm s id sound ready (inside id m) in
      let at : q ≡ p = cc in
      let child = child_for key (leftmost_child p) (internal_view p) in
      let (not_below, n') = Nodup-cons.0 (subst Nodup listed n) in
      let go =
        child_for-Leads (IsTree (content dm s) height) key (leftmost_child p) (internal_view p)
          below es v.leftmost n' t in
      let up : (j : ℕ) → Mem j below → Mem j ids =
        λ j i. subst (Mem j) (sym listed) (mem-cons_of_mem id i) in
      let inside' : AreInside go.pages = λ j i. inside j (up j (go.among j i)) in
      let t' =
        IsTree-same (content dm s) (content dm (peek dm id s).1) height child go.pages go.below
          (λ j i. k.same j (inside' j i)) go.subtree in
      let rest =
        descend-Arrives height rounds child (peek dm id s).1 key go.pages go.below sound k.ready
          inside' go.apart (omega arith) t' in
      record {
        id = rest.id;
        page = rest.page;
        pool = rest.pool;
        result =
            descend-onward dm (turn key) rounds id s p (got ∙ ap some at) child
              (turn-internal key p v go.child)
            ∙ rest.result;
        reads = Reads-trans dm s _ rest.pool k rest.reads;
        among = up rest.id (go.among rest.id rest.among);
        stored = sym (k.same rest.id (inside' rest.id rest.among)) ∙ rest.stored;
        leaf = rest.leaf;
        formed = rest.formed;
        same = go.same ∙ rest.same;
        replace = λ F read' x local leaf formed view here others.
            let root_same : id ≢ rest.id =
              λ e. not_below (subst (λ i. Mem i below) (sym e) (go.among rest.id rest.among)) in
            (
              p,
              below,
              listed,
              others id m root_same ∙ read,
              v,
              go.replace (IsTree read' height) F local
                  (λ j is xs among apart. IsTree-same (content dm s) read' height j is xs (λ i mem.
                    others i (up i (among i mem))
                      (λ e. apart i mem (subst (λ y. Mem y go.pages) (sym e) rest.among))))
                  (rest.replace F read' x local leaf formed view here (λ i mem ne.
                    others i (up i (go.among i mem)) ne ∙ sym (k.same i (inside' i mem)))),
            );
      }

  -- The handle has a tree of at most `max_rounds` levels with the entries `es`, on pages that are
  -- all different.
  pub record HasTree (th : Handle dm) (es : List Entry) : Type 0 where
    pub root : IsChild th.root_page
    pub height : ℕ
    pub enough : height < max_rounds
    pub pages : List ℕ
    pub inside : AreInside pages
    pub apart : Nodup pages
    pub formed : IsTree (content dm th.pool) height th.root_page pages es

  -- Reading leaves the tree as it is.
  pub HasTree-Reads :
      (th : Handle dm) (s : Pool dm) (es : List Entry)
      → Reads dm th.pool s
      → HasTree th es
      → HasTree (record { pool = s; root_page = th.root_page }) es
  HasTree-Reads th s es k t = record {
    root = t.root;
    height = t.height;
    enough = t.enough;
    pages = t.pages;
    inside = t.inside;
    apart = t.apart;
    formed =
        IsTree-same (content dm th.pool) (content dm s) t.height th.root_page t.pages es
          (λ j m. k.same j (t.inside j m)) t.formed;
  }

  -- In a tree of at most 101 levels, over a disk that does not fail and a pool that is ready,
  -- `find_leaf_page` ends: at a leaf of the tree, which has all that the tree has of the key, with
  -- a copy of it; no page changes, and the pool stays ready.
  pub find_leaf_page-Arrives :
      (th : Handle dm) (key : Key) (es : List Entry)
      → Faultless dm
      → IsReady dm th.pool
      → (t : HasTree th es)
      → Arrives key t.height th.root_page t.pages es th.pool (find_leaf_page dm key th)
  unfolding find_leaf_page
  find_leaf_page-Arrives th key es sound ready t =
      descend-Arrives t.height max_rounds th.root_page th.pool key t.pages es sound ready t.inside
        t.apart t.enough t.formed

  -- A search's answer, and that it changed nothing.
  pub record Answers (th : Handle dm) (answer : Option (List ℕ))
      (r : Result BtreeError (Option (List ℕ) × Pool dm)) : Type 0 where
    pub pool : Pool dm
    pub result : r ≡ ok (answer, pool)
    pub reads : Reads dm th.pool pool

  -- Over a disk that does not fail and a pool that is ready, `btree_search` of a tree of at most
  -- 101 levels returns the value that a linear scan of all the tree's entries finds, where an empty
  -- value counts as none; no page changes, and the pool stays ready.
  pub btree_search-find :
      (th : Handle dm) (key : Key) (es : List Entry)
      → Faultless dm
      → IsReady dm th.pool
      → HasTree th es
      → Answers th (nonempty (find key es)) (btree_search dm key th)
  unfolding btree_search search_leaf
  btree_search-find th key es sound ready t =
      let a = find_leaf_page-Arrives th key es sound ready t in
      let root : (th.root_page == 0) ≡ false = ground (arith, t.root.positive) in
      record {
        pool = a.pool;
        result =
            rw (root, a.result)
              (ap (λ o. ok (o, a.pool))
                (ap nonempty (lookup-find a.page key a.formed)
                  ∙ nonempty_twice (find key (view a.page))
                  ∙ ap nonempty (sym a.same)));
        reads = a.reads;
      }
