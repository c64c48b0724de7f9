-- ===== src/Btree/SplitLeaf.antt =====
-- A leaf that is split: what it had is divided between two well-formed leaves.
use advance_db.Prelude.{
  ℕ, ◌+◌, ◌<◌, ◌≤◌, ◌≡◌, refl, sym, subst, ap, ap₂, ◌∙◌, none, some, List, ◌++◌, arith, length,
  get_elem?, take, drop, ok, ◌==◌, false, true, inl, inr, Option,
}
use advance_db.Bytes.Blocks.{Agree-trans}
use advance_db.Page.PageHeader.{
  Page, page_size, header_size, cell_count, page_id, parent_page_id, prev_page_id, next_page_id,
}
use advance_db.Record.Sorted.{Entry}
use advance_db.Record.View.{view, entry, offset_at, IsPage, get-view, length-view}
use advance_db.Record.Packing.{total_bytes-le}
use advance_db.Record.Halves.{
  take-drop, length-take, length-drop, total_bytes-halves, take-IsSorted, drop-IsSorted,
}
use advance_db.BufferPool.Disk.{DiskManager}
use advance_db.BufferPool.Pool.{Pool}
use advance_db.Table.Allocation.{allocate_page}
use advance_db.Table.Marks.{allocate_page-lt}
use advance_db.Table.Ready.{allocate_page-IsReady}
use advance_db.BufferPool.Counts.{Faultless}
use advance_db.BufferPool.Ready.{IsReady}
use advance_db.Btree.SplitStore.{AreDifferent, Stored, store_split-Stored}
use advance_db.Btree.Handle.{is_leaf}
use advance_db.Btree.Tree.{AllBefore, AllFrom}
use advance_db.Btree.Split.{
  SplitResult, split_index, fill_leaf, split_pages, set_prev_page_id, set_next_page_id, store_split,
  split_allocated, split_leaf_page,
}
use advance_db.Btree.Fill.{Agree-write_u32, AllStored, Filled, empty_leaf, fill_leaf-Filled}
use advance_db.Btree.SplitRead.{
  read_u32-write_u32, read_u32-lt, read_u32-Agree, AllStored-AllRecords, AllValued,
  read_records-view,
}
use advance_db.Btree.SplitPages.{
  take-AllStored, drop-AllStored, take-AllBefore, drop-AllFrom, get-drop, AllShort, AllShort-get,
  IsHalf, Filled-IsHalf, linked-IsHalf, first_key-eq,
}

-- What a split leaves: the left page under the old id, the right one under the new id, with the
-- entries divided at the separator, and the links through both.
pub record Divides (p : Page) (new_id : ℕ) (r : SplitResult) : Type 0 where
  pub at : ℕ
  pub left_some : 0 < at
  pub right_some : at < cell_count p
  pub left : IsHalf (page_id p) (parent_page_id p) (take at (view p)) r.left_page
  pub right : IsHalf new_id (parent_page_id p) (drop at (view p)) r.right_page
  pub joined : view r.left_page ++ view r.right_page ≡ view p
  pub before : AllBefore r.separator_key (view r.left_page)
  pub from : AllFrom r.separator_key (view r.right_page)
  pub new_page_eq : r.new_page ≡ new_id
  pub left_next : next_page_id r.left_page ≡ new_id
  pub right_prev : prev_page_id r.right_page ≡ page_id p
  pub right_next : next_page_id r.right_page ≡ next_page_id p

module _ (p : Page) (new_id : ℕ) (v : IsPage p) (two : 2 ≤ cell_count p) (short : AllShort (view p))
    (small : new_id < 4294967296) where
  abbrev at : ℕ
  at = split_index (cell_count p)

  at-lt : (0 < at) × (at < cell_count p)
  at-lt = (ground arith, ground arith)

  abbrev old_left : Page
  old_left = fill_leaf p (page_id p) (parent_page_id p) (take at (view p))

  abbrev old_right : Page
  old_right = fill_leaf p new_id (parent_page_id p) (drop at (view p))

  stored : AllStored (view p)
  stored = AllStored-AllRecords p _ v.placed

  left_length : length (take at (view p)) ≡ at
  left_length = length-take at (view p) (omega (arith, at-lt, length-view p))

  right_length : length (drop at (view p)) + at ≡ cell_count p
  right_length = length-drop at (view p) (omega (arith, at-lt, length-view p)) ∙ length-view p

  left-Filled : Filled (empty_leaf p (page_id p) (parent_page_id p)) (take at (view p)) old_left
  left-Filled =
      fill_leaf-Filled p (page_id p) (parent_page_id p) (take at (view p))
        (take-AllStored at (view p) stored) (take-IsSorted at (view p) v.sorted)
        (omega (
          arith,
          left_length,
          at-lt,
          total_bytes-halves at (view p),
          total_bytes-le p v,
          v.framed.no_overlap,
          v.framed.directory,
        ))

  right-Filled : Filled (empty_leaf p new_id (parent_page_id p)) (drop at (view p)) old_right
  right-Filled =
      fill_leaf-Filled p new_id (parent_page_id p) (drop at (view p))
        (drop-AllStored at (view p) stored) (drop-IsSorted at (view p) v.sorted)
        (omega (
          arith,
          right_length,
          total_bytes-halves at (view p),
          total_bytes-le p v,
          v.framed.no_overlap,
          v.framed.directory,
        ))

  abbrev middle : Entry
  middle = entry p (offset_at p at)

  got : get_elem? (view p) at ≡ some middle
  got = get-view p v.framed v.placed at at-lt.1

  abbrev result : SplitResult
  result = record {
    new_page = new_id;
    separator_key = middle.0;
    left_page = set_next_page_id old_left new_id;
    right_page = set_next_page_id (set_prev_page_id old_right (page_id p)) (next_page_id p);
  }

  split_pages-result : split_pages p new_id (view p) ≡ ok result
  unfolding split_pages
  split_pages-result =
      let left_full : (cell_count old_left == 0) ≡ false =
        ground (arith, left-Filled.count, left_length, at-lt.0) in
      let right_full : (cell_count old_right == 0) ≡ false =
        ground (arith, right-Filled.count, right_length, at-lt.1) in
      let key =
        first_key-eq old_right middle right-Filled.formed
          (omega (arith, right-Filled.count, right_length, at-lt))
          (ap (λ es. get_elem? es 0) right-Filled.seen ∙ get-drop at (view p) ∙ got)
          (AllShort-get (view p) at middle short got) in
      rw (left_full, right_full, key) refl

  left-IsHalf : IsHalf (page_id p) (parent_page_id p) (take at (view p)) result.left_page
  left-IsHalf =
      linked-IsHalf _ _ _ old_left _ (Agree-write_u32 0 32 old_left 36 new_id (inl (omega arith)))
        (Agree-write_u32 header_size page_size old_left 36 new_id (inr (omega arith)))
        (Filled-IsHalf p (page_id p) (take at (view p)) (read_u32-lt p 0) left-Filled)

  right-IsHalf : IsHalf new_id (parent_page_id p) (drop at (view p)) result.right_page
  right-IsHalf =
      let once = set_prev_page_id old_right (page_id p) in
      linked-IsHalf _ _ _ old_right _
        (Agree-trans (Agree-write_u32 0 32 once 36 (next_page_id p) (inl (omega arith)))
          (Agree-write_u32 0 32 old_right 32 (page_id p) (inl (omega arith))))
        (Agree-trans
          (Agree-write_u32 header_size page_size once 36 (next_page_id p) (inr (omega arith)))
          (Agree-write_u32 header_size page_size old_right 32 (page_id p) (inr (omega arith))))
        (Filled-IsHalf p new_id (drop at (view p)) small right-Filled)

  -- Splitting a well-formed leaf of two records at least, with keys of at most 256 bytes, never
  -- fails: it divides the entries between two well-formed leaves, neither empty, at a separator that
  -- is above the left page's keys and not above the right page's, both pages keep the parent, and
  -- the links lead from the left page to the right one and on to the old next page.
  pub split_pages-Divides :
      (r : SplitResult) × (split_pages p new_id (view p) ≡ ok r) × Divides p new_id r
  split_pages-Divides = (
    result,
    split_pages-result,
    record {
      at = at;
      left_some = at-lt.0;
      right_some = at-lt.1;
      left = left-IsHalf;
      right = right-IsHalf;
      joined = ap₂ (λ xs ys. xs ++ ys) left-IsHalf.seen right-IsHalf.seen ∙ take-drop at (view p);
      before = rw left-IsHalf.seen (take-AllBefore at (view p) middle v.sorted got);
      from = rw right-IsHalf.seen (drop-AllFrom at (view p) middle v.sorted got);
      new_page_eq = refl;
      left_next = omega (arith, read_u32-write_u32 old_left 36 new_id, small);
      right_prev = omega (
        arith,
        read_u32-Agree 32
            (Agree-write_u32 32 36 (set_prev_page_id old_right (page_id p)) 36 (next_page_id p)
              (inl (omega arith)))
            (omega arith) (omega arith),
        read_u32-write_u32 old_right 32 (page_id p),
        read_u32-lt p 0,
      );
      right_next = omega (
        arith,
        read_u32-write_u32 (set_prev_page_id old_right (page_id p)) 36 (next_page_id p),
        read_u32-lt p 36,
      );
    },
  )

module _ (dm : DiskManager) where
  split_allocated-result :
      (p : Page) (es : List Entry) (a : Option ℕ × Pool dm) (id : ℕ) (r : SplitResult)
      → a.0 ≡ some id
      → split_pages p id es ≡ ok r
      → split_allocated dm p es a ≡ ok (r, store_split dm p r a.1)
  unfolding split_allocated
  split_allocated-result p es (none, s) id r e run = cc
  split_allocated-result p es (some i, s) id r e run = let same : i ≡ id = cc in rw (same, run) refl

  -- Over a disk that does not fail and a pool that is ready, when `allocate_page` finds a page,
  -- `split_leaf_page` of a well-formed leaf of two records at least, with keys of at most 256 bytes
  -- and no empty value, does not fail an assertion: it divides the leaf's entries between two leaves.
  -- The pool then reads the left one under the leaf's id and the right one under the allocated id;
  -- the old next page, where there is one, links back to the right one; and every other page reads
  -- as after the allocation. The leaf, the allocated page and the next page are different pages of
  -- the disk.
  pub split_leaf_page-Divides :
      (s : Pool dm) (p : Page) (id : ℕ)
      → Faultless dm
      → IsReady dm s
      → IsPage p
      → is_leaf p ≡ true
      → 2 ≤ cell_count p
      → AllShort (view p)
      → AllValued (view p)
      → (allocate_page dm s).0 ≡ some id
      → AreDifferent dm p id
      → (r : SplitResult) × (t : Pool dm) × (split_leaf_page dm p s ≡ ok (r, t))
        × Divides p id r
        × Stored dm p r (allocate_page dm s).1 t
  unfolding split_leaf_page
  split_leaf_page-Divides s p id sound ready v l two short valued free apart =
      let bound = allocate_page-lt dm s id free in
      let (r, run, divides) = split_pages-Divides p id v two short (omega (arith, bound)) in
      let full : (cell_count p == 0) ≡ false = ground arith in
      let a = (allocate_page dm s).1 in
      (
        r,
        store_split dm p r a,
        rw (l, full, read_records-view p v valued (cell_count p) 0 (omega arith))
            (split_allocated-result p (view p) (allocate_page dm s) id r free run),
        divides,
        store_split-Stored dm a p r sound (allocate_page-IsReady dm s id sound ready free)
            (subst (AreDifferent dm p) (sym divides.new_page_eq) apart),
      )
