-- ===== src/Btree/Split.antt =====
-- `split_leaf_page` of src/storage/btree/leaf.cpp and `split_internal_page` of
-- src/storage/btree/internal.cpp. A failed `assert` is an error; INVALID_PAGE_ID stands for the page
-- that `allocate_page` does not find.
use advance_db.Prelude.{
  ℕ, zero, suc, ◌+◌, ◌-◌, ◌*◌, ◌/◌, ◌||◌, true, not, Option, none, some, List, [], ◌∷◌, ltb, ◌==◌,
  if◌then◌else◌, length, take, drop, Result, ok, err, ◌>>=◌,
}
use advance_db.Bytes.{write_u32}
use advance_db.Bytes.Blocks.{write_words}
use advance_db.Page.PageHeader.{
  Page, PageType, PageLevel, data_page, leaf, page_size, cast_u16, page_id, cell_count, free_end,
  parent_page_id, next_page_id, set_cell_count, set_free_end, init_page,
}
use advance_db.Record.Cell.{slot_key, slot_value, write_record}
use advance_db.Record.Sorted.{Key, Entry}
use advance_db.BufferPool.Disk.{DiskManager}
use advance_db.BufferPool.Pool.{invalid_page_id, Pool, new_page, unpin_page}
use advance_db.BufferPool.Visit.{set_page, modify}
use advance_db.Table.Allocation.{allocate_page}
use advance_db.Btree.Entry.{BtreeError, assertion_failed}
use advance_db.Btree.Handle.{is_leaf}

abbrev pub set_root_page : Page → ℕ → Page
set_root_page p v = write_u32 p 8 v

abbrev pub set_leftmost_child : Page → ℕ → Page
set_leftmost_child p v = write_u32 p 12 v

abbrev pub set_parent_page_id : Page → ℕ → Page
set_parent_page_id p v = write_u32 p 24 v

abbrev pub set_prev_page_id : Page → ℕ → Page
set_prev_page_id p v = write_u32 p 32 v

abbrev pub set_next_page_id : Page → ℕ → Page
set_next_page_id p v = write_u32 p 36 v

pub record SplitResult : Type 0 where
  pub new_page : ℕ
  pub separator_key : Key
  pub left_page : Page
  pub right_page : Page

-- A record that can be read.
unfoldable pub record_at : Page → ℕ → Option Entry
record_at p i = elim (slot_key p i) [
  | none ↦ none
  | some key ↦ elim (slot_value p i) [ none ↦ none | some value ↦ some (key, value) ]
]

-- The records from `i` on, `n` of them.
unfoldable pub read_records : Page → ℕ → ℕ → Result BtreeError (List Entry)
read_records p zero i = ok []
read_records p (suc n) i = elim (record_at p i) [
  | none ↦ err assertion_failed
  | some r ↦ (read_records p n (i + 1) >>= λ rs. ok (r ∷ rs))
]

-- The page with the records, and their offsets.
unfoldable pub write_records : Page → List Entry → Page × List ℕ
write_records p [] = (p, [])
write_records p (r ∷ rs) =
    let w = write_record p r.0 r.1 in let rest = write_records w.0 rs in (rest.0, w.1 ∷ rest.1)

-- The directory for the offsets, at the end of the page.
unfoldable pub place_slots : Page × List ℕ → Page
place_slots (p, offsets) =
    let n = length offsets in
    let p₁ = set_free_end p (cast_u16 (page_size + 65536 - cast_u16 (n * 2))) in
    let p₂ = write_words p₁ (free_end p₁) offsets in set_cell_count p₂ n

-- A fresh page with the parent of the old one and the records.
unfoldable pub fill_leaf : Page → ℕ → ℕ → List Entry → Page
fill_leaf old id parent rs =
    place_slots (write_records (set_parent_page_id (init_page old id data_page leaf) parent) rs)

abbrev pub split_index : ℕ → ℕ
split_index total = if total / 2 == 0 then 1 else total / 2

-- The key that the new page starts with.
unfoldable pub first_key : Page → Result BtreeError Key
first_key p = elim (slot_key p 0) [
  | none ↦ err assertion_failed
  | some key ↦ if length key == 0 || ltb 256 (length key) then err assertion_failed else ok key
]

-- The part of `split_leaf_page` that is in memory: the two pages with their links.
unfoldable pub split_pages : Page → ℕ → List Entry → Result BtreeError SplitResult
split_pages p new_id rs =
    let at = split_index (cell_count p) in
    let left = fill_leaf p (page_id p) (parent_page_id p) (take at rs) in
    let right = fill_leaf p new_id (parent_page_id p) (drop at rs) in
    if cell_count left == 0 || cell_count right == 0
    then err assertion_failed
    else (first_key right >>= λ key. ok (record {
      new_page = new_id;
      separator_key = key;
      left_page = set_next_page_id left new_id;
      right_page = set_next_page_id (set_prev_page_id right (page_id p)) (next_page_id p);
    }))

abbrev pub id_or_invalid : Option ℕ → ℕ
id_or_invalid none = invalid_page_id
id_or_invalid (some id) = id

module _ (dm : DiskManager) where
  unfoldable pub written_new : ℕ → Page → Option ℕ × Pool dm → Pool dm
  written_new id p (none, s) = s
  written_new id p (some f, s) = (unpin_page dm id true (set_page dm f p s)).1

  -- `new_page`, the copy of the page into it, and `unpin_page`.
  unfoldable pub write_new : ℕ → PageType → PageLevel → Page → Pool dm → Pool dm
  write_new id type level p s = written_new id p (new_page dm id type level s)

  -- The old next page's link, and the two pages.
  unfoldable pub store_split : Page → SplitResult → Pool dm → Pool dm
  store_split p r s =
      let s₁ =
        if next_page_id p == 0
        then s
        else modify dm (next_page_id p) (λ q. set_prev_page_id q r.new_page) s in
      let s₂ = modify dm (page_id p) (λ q. r.left_page) s₁ in
      write_new r.new_page data_page leaf r.right_page s₂

  unfoldable pub split_allocated :
      Page → List Entry → Option ℕ × Pool dm → Result BtreeError (SplitResult × Pool dm)
  split_allocated p rs (id, s) =
      split_pages p (id_or_invalid id) rs >>= λ r. ok (r, store_split p r s)

  unfoldable pub split_leaf_page : Page → Pool dm → Result BtreeError (SplitResult × Pool dm)
  split_leaf_page p s =
      if not (is_leaf p) || cell_count p == 0
      then err assertion_failed
      else (read_records p (cell_count p) 0 >>= λ rs. split_allocated p rs (allocate_page dm s))
