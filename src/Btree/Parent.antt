-- ===== src/Btree/Parent.antt =====
-- `split_internal_page`, `create_new_root` and `insert_into_parent` of
-- src/storage/btree/internal.cpp. The parent stays pinned while other pages are fetched; its page is
-- read and written in its frame.
use advance_db.Prelude.{
  ℕ, zero, suc, ◌+◌, ◌-◌, ◌/◌, ◌||◌, Bool, true, false, not, Option, none, some, List, ltb, leb,
  ◌==◌, if◌then◌else◌, length, Result, ok, err, ◌>>=◌,
}
use advance_db.Bytes.{slice}
use advance_db.Page.PageHeader.{
  Page, index, internal, cast_u16, cell_count, parent_page_id, init_page,
}
use advance_db.Page.SlotHelpers.{insert_slot, remove_slot}
use advance_db.Record.Cell.{write_raw_record}
use advance_db.Record.Sorted.{Key}
use advance_db.BufferPool.Disk.{DiskManager}
use advance_db.BufferPool.Pool.{invalid_page_id, Pool, fetch_page, new_page, unpin_page}
use advance_db.BufferPool.Visit.{set_page, peek, modify}
use advance_db.Table.Allocation.{allocate_page}
use advance_db.Btree.Entry.{
  BtreeError, assertion_failed, out_of_rounds, is_internal, entry_size, entry_key_size, child_page,
  internal_slot_key, entry_offset, entry_child, slotted, write_internal_entry,
  internal_search_record, insert_internal_no_split,
}
use advance_db.Btree.Handle.{Handle}
use advance_db.Btree.Split.{
  SplitResult, set_root_page, set_leftmost_child, set_parent_page_id, id_or_invalid, write_new,
}

-- The separator that leaves the page.
unfoldable pub middle_key : Page → ℕ → Result BtreeError Key
middle_key p mid = elim (internal_slot_key p mid) [
  | none ↦ err assertion_failed
  | some key ↦ if ltb 256 (length key) then err assertion_failed else ok key
]

-- The copy of one entry, behind the entries that the new page has.
unfoldable pub append_raw : Page × ℕ → Result BtreeError Page
append_raw (q, off) = slotted (insert_slot q (cell_count q) off)

abbrev pub entry_bytes : Page → ℕ → List ℕ
entry_bytes p off = slice p off (cast_u16 (entry_size + entry_key_size p off))

-- The loop that removes the last slots, `n` rounds of it.
unfoldable pub remove_last : ℕ → ℕ → Page → Result BtreeError Page
remove_last zero mid p = ok p
remove_last (suc n) mid p =
    let last = cast_u16 (cell_count p + 65536 - 1) in
    elim (leb mid last) [
      | false ↦ ok p
      | true ↦ (slotted (remove_slot p last) >>= λ q. remove_last n mid q)
    ]

module _ (dm : DiskManager) where
  abbrev pub page_in : ℕ → Pool dm → Page
  page_in f s = (s.frames f).page

  -- The loop over the entries behind `mid`: the new page that they go to, and the pool, in which
  -- their children get their new parent.
  unfoldable pub move_entries : ℕ → ℕ → ℕ → ℕ → Page × Pool dm → Result BtreeError (Page × Pool dm)
  move_entries zero f new_id i (q, s) = ok (q, s)
  move_entries (suc n) f new_id i (q, s) = entry_offset (page_in f s) i >>= λ off.
      append_raw (write_raw_record q (entry_bytes (page_in f s) off)) >>= λ q'.
      move_entries n f new_id (i + 1)
        (q', modify dm (child_page (page_in f s) off) (λ c. set_parent_page_id c new_id) s)

  -- The end of `split_internal_page`, once the entries are moved.
  unfoldable pub finish_split :
      ℕ → ℕ → ℕ → Key → ℕ → Page × Pool dm → Result BtreeError (SplitResult × Pool dm)
  finish_split f new_id mid key child (q, s) =
      let p = page_in f s in
      let q₁ = if child == 0 then q else set_leftmost_child q child in
      remove_last (cell_count p - mid) mid p >>= λ p'.
      let q₂ = set_parent_page_id q₁ (parent_page_id p') in
      ok (
        record { new_page = new_id; separator_key = key; left_page = p'; right_page = q₂ },
        write_new dm new_id index internal q₂ (set_page dm f p' s),
      )

  unfoldable pub split_internal_allocated :
      ℕ → Option ℕ × Pool dm → Result BtreeError (SplitResult × Pool dm)
  split_internal_allocated f (id, s) =
      let p = page_in f s in
      let new_id = id_or_invalid id in
      let total = cell_count p in
      let mid = total / 2 in
      if ltb total 2
      then err assertion_failed
      else (middle_key p mid >>= λ key. entry_child p mid >>= λ child.
          move_entries (total - (mid + 1)) f new_id (mid + 1) (init_page p new_id index internal, s)
          >>= finish_split f new_id mid key child)

  -- The page of frame `f`, which the caller has pinned.
  unfoldable pub split_internal_page : ℕ → Pool dm → Result BtreeError (SplitResult × Pool dm)
  split_internal_page f s =
      if is_internal (page_in f s)
      then split_internal_allocated f (allocate_page dm s)
      else err assertion_failed

  -- The new root's page.
  unfoldable pub root_entry : Page → ℕ → Key → ℕ → Result BtreeError Page
  root_entry p left key right =
      write_internal_entry (set_root_page (set_leftmost_child p left) left) key right >>= λ w.
      slotted (insert_slot w.0 0 w.1)

  unfoldable pub link_root : ℕ → ℕ → ℕ → ℕ → Page → Pool dm → Handle dm
  link_root id f left right p s =
      let s₁ = set_page dm f p s in
      let s₂ = modify dm 0 (λ m. set_root_page m id) s₁ in
      let s₃ = (unpin_page dm id true s₂).1 in
      let s₄ = modify dm left (λ q. set_parent_page_id q id) s₃ in
      let s₅ = modify dm right (λ q. set_parent_page_id q id) s₄ in
      record { pool = s₅; root_page = id }

  unfoldable pub created_root :
      ℕ → ℕ → Key → ℕ → ℕ → Option ℕ × Pool dm → Result BtreeError (Handle dm)
  created_root root left key right id (none, s) = ok (record { pool = s; root_page = root })
  created_root root left key right id (some f, s) =
      root_entry (page_in f s) left key right >>= λ p. ok (link_root id f left right p s)

  unfoldable pub create_allocated :
      ℕ → ℕ → Key → ℕ → Option ℕ × Pool dm → Result BtreeError (Handle dm)
  create_allocated root left key right (id, s) =
      let new_id = id_or_invalid id in
      created_root root left key right new_id (new_page dm new_id index internal s)

  unfoldable pub create_new_root : ℕ → Key → ℕ → Handle dm → Result BtreeError (Handle dm)
  create_new_root left key right th =
      create_allocated th.root_page left key right (allocate_page dm th.pool)

  -- What a call of `insert_into_parent` leaves: nothing to do, or the call that it ends with.
  pub data Climb : Type 0 where
    settled : Handle dm → Climb
    pending : ℕ → Key → ℕ → Handle dm → Climb

  abbrev with_pool : Handle dm → Pool dm → Handle dm
  with_pool th s = record th { pool = s }

  unfoldable pub placed_entry : ℕ → ℕ → Handle dm → Pool dm → Page × Bool → Result BtreeError Climb
  placed_entry parent f th s (p, true) =
      ok (settled (with_pool th (unpin_page dm parent true (set_page dm f p s)).1))
  placed_entry parent f th s (p, false) = split_internal_page f (set_page dm f p s) >>= λ r. ok (
      pending parent r.0.separator_key r.0.new_page
        (with_pool th (unpin_page dm parent true r.1).1))

  unfoldable pub insert_at_parent :
      ℕ → ℕ → Key → ℕ → Handle dm → Option ℕ × Pool dm → Result BtreeError Climb
  insert_at_parent parent left key right th (none, s) = ok (settled (with_pool th s))
  insert_at_parent parent left key right th (some f, s) =
      let p = page_in f s in
      let sr = internal_search_record p key in
      if not (is_internal p) || sr.found
      then (create_new_root left key right (with_pool th (unpin_page dm parent false s).1) >>= λ t.
          ok (settled t))
      else (insert_internal_no_split (if sr.index == 0 then set_leftmost_child p left else p) key
            right
          >>= placed_entry parent f th s)

  unfoldable pub climb : ℕ → Key → ℕ → Handle dm → Option Page × Pool dm → Result BtreeError Climb
  climb left key right th (none, s) = ok (settled (with_pool th s))
  climb left key right th (some p, s) =
      let parent = parent_page_id p in
      if parent == 0 || parent == invalid_page_id
      then (create_new_root left key right (with_pool th s) >>= λ t. ok (settled t))
      else insert_at_parent parent left key right th (fetch_page dm parent s)

  -- The recursion, `rounds` levels deep at most.
  unfoldable pub insert_into_parent : ℕ → ℕ → Key → ℕ → Handle dm → Result BtreeError (Handle dm)
  insert_into_parent zero left key right th = err out_of_rounds
  insert_into_parent (suc rounds) left key right th =
      elim (climb left key right th (peek dm left th.pool)) [
        | err e ↦ err e
        | ok (settled t) ↦ ok t
        | ok (pending left' key' right' t) ↦ insert_into_parent rounds left' key' right' t
      ]
