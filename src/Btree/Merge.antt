-- ===== src/Btree/Merge.antt =====
-- When and how two leaves become one: `is_page_underutilized`, `calculate_total_records_size`,
-- `can_merge_pages`, `update_leaf_links_on_free` and `merge_leaf_pages` of
-- src/storage/btree/btree.cpp. The 16-bit sums wrap around as they do there.
use advance_db.Prelude.{
  ℕ, zero, suc, ◌+◌, ◌-◌, ◌*◌, ◌/◌, Bool, true, Option, none, some, List, [], ◌∷◌, ◌++◌, ltb, leb,
  ◌==◌, if◌then◌else◌, Result, ok, ◌>>=◌,
}
use advance_db.Bytes.{read_u16, slice}
use advance_db.Page.PageHeader.{
  Page, data_page, leaf, page_size, header_size, cast_u16, cell_count, parent_page_id, prev_page_id,
  next_page_id, init_page,
}
use advance_db.Page.SlotHelpers.{slot_ptr}
use advance_db.Record.Cell.{key_size, value_size, record_size, write_raw_record}
use advance_db.BufferPool.Disk.{DiskManager}
use advance_db.BufferPool.Pool.{Pool}
use advance_db.BufferPool.Visit.{set_page, modify}
use advance_db.Table.Allocation.{free_page}
use advance_db.Btree.Entry.{BtreeError, entry_offset}
use advance_db.Btree.Split.{set_parent_page_id, set_prev_page_id, set_next_page_id}
use advance_db.Btree.Parent.{append_raw, page_in}

-- MERGE_THRESHOLD_PERCENT
abbrev pub merge_threshold_percent : ℕ
merge_threshold_percent = 50

abbrev pub record_size_at : Page → ℕ → ℕ
record_size_at p off = record_size (key_size p off) (value_size p off)

-- The loop over the slots from `i` on, `n` of them; a null slot is passed over.
unfoldable pub sum_sizes : ℕ → Page → ℕ → ℕ → ℕ
sum_sizes zero p i total = total
sum_sizes (suc n) p i total = elim (slot_ptr p i) [
  | none ↦ sum_sizes n p (i + 1) total
  | some slot ↦ sum_sizes n p (i + 1) (cast_u16 (total + record_size_at p (read_u16 p slot)))
]

unfoldable pub calculate_total_records_size : Page → ℕ
calculate_total_records_size p = sum_sizes (cell_count p) p 0 0

unfoldable pub is_page_underutilized : Page → Bool
is_page_underutilized p =
    let slots_space = cast_u16 (cell_count p * 2) in
    let total_used = cast_u16 (sum_sizes (cell_count p) p 0 0 + slots_space) in
    let available_space = cast_u16 (page_size - header_size) in
    if cell_count p == 0
    then true
    else ltb (cast_u16 (total_used * 100 / available_space)) merge_threshold_percent

unfoldable pub can_merge_pages : Page → Page → Bool
can_merge_pages left right =
    let total_records_size =
      cast_u16 (calculate_total_records_size left + calculate_total_records_size right) in
    let total_slots = cast_u16 (cell_count left + cell_count right) in
    let slots_space = cast_u16 (total_slots * 2) in
    leb (cast_u16 (header_size + total_records_size + slots_space)) page_size

abbrev pub raw_record : Page → ℕ → List ℕ
raw_record p off = slice p off (record_size_at p off)

-- The records from slot `i` on, `n` of them.
unfoldable pub raw_records : ℕ → Page → ℕ → Result BtreeError (List (List ℕ))
raw_records zero p i = ok []
raw_records (suc n) p i =
    entry_offset p i >>= λ off. raw_records n p (i + 1) >>= λ rest. ok (raw_record p off ∷ rest)

unfoldable pub append_all : List (List ℕ) → Page → Result BtreeError Page
append_all [] p = ok p
append_all (raw ∷ raws) p = append_raw (write_raw_record p raw) >>= append_all raws

-- The left page without records, linked to what follows the right one.
unfoldable pub reset_left : ℕ → Page → Page → Page
reset_left id left right =
    let p = set_parent_page_id (init_page left id data_page leaf) (parent_page_id left) in
    set_next_page_id (set_prev_page_id p (prev_page_id left)) (next_page_id right)

module _ (dm : DiskManager) where
  unfoldable pub update_leaf_links_on_free : Page → Pool dm → Pool dm
  update_leaf_links_on_free p s =
      let s₁ =
        if prev_page_id p == 0
        then s
        else modify dm (prev_page_id p) (λ q. set_next_page_id q (next_page_id p)) s in
      if next_page_id p == 0
      then s₁
      else modify dm (next_page_id p) (λ q. set_prev_page_id q (prev_page_id p)) s₁

  -- The left page is a frame's page or a copy of the caller's.
  abbrev pub put_left : Option ℕ → Page → Pool dm → Pool dm
  put_left none p s = s
  put_left (some f) p s = set_page dm f p s

  abbrev pub get_left : Option ℕ → Page → Pool dm → Page
  get_left none p s = p
  get_left (some f) p s = page_in dm f s

  unfoldable pub store_merged : Option ℕ → ℕ → ℕ → Page → Pool dm → Page × Pool dm
  store_merged frame left_id right_id p s =
      (p, free_page dm right_id (modify dm left_id (λ q. p) (put_left frame p s)))

  -- What the caller's left page holds then, and the pool.
  unfoldable pub merge_leaf_pages :
      Option ℕ → ℕ → Page → ℕ → Page → Pool dm → Result BtreeError (Page × Pool dm)
  merge_leaf_pages frame left_id left right_id right s =
      raw_records (cell_count left) left 0 >>= λ xs.
      raw_records (cell_count right) right 0 >>= λ ys.
      let p = reset_left left_id left right in
      let s₁ = put_left frame p s in
      let s₂ =
        if next_page_id right == 0
        then s₁
        else modify dm (next_page_id right) (λ q. set_prev_page_id q left_id) s₁ in
      append_all (xs ++ ys) (get_left frame p s₂) >>= λ merged.
      ok (store_merged frame left_id right_id merged s₂)
