-- ===== src/Record/Cell.antt =====
-- Reading and writing one record. A pointer with a length is the list of the bytes that it shows,
-- `nullptr` is `none`; a key or value that comes with its 16-bit length is the list of its bytes.
use Prim.Native.Nat.{bit_or}
use advance_db.Prelude.{
  ℕ, zero, suc, ◌+◌, ◌-◌, ◌*◌, ◌/◌, ◌%◌, ◌||◌, Bool, true, false, Option, none, some, List, ltb,
  leb, ◌==◌, if◌then◌else◌, Ordering, length, Result, ok, err,
}
use advance_db.Bytes.{read_u8, read_u16, write_u8, write_u16, copy, slice}
use advance_db.Page.PageHeader.{
  Page, page_size, header_size, cast_u16, cell_count, free_start, free_end, set_cell_count,
  set_free_start, set_free_end,
}
use advance_db.Page.SlotHelpers.{SlotError, slot_ptr, insert_slot, remove_slot}
use advance_db.Record.Compare.{compare_keys}

-- sizeof(RecordHeader)
abbrev pub record_header_size : ℕ
record_header_size = 5

abbrev pub flags : Page → ℕ → ℕ
flags p off = read_u8 p off

abbrev pub key_size : Page → ℕ → ℕ
key_size p off = read_u16 p (off + 1)

abbrev pub value_size : Page → ℕ → ℕ
value_size p off = read_u16 p (off + 3)

abbrev pub record_size : ℕ → ℕ → ℕ
record_size key_len value_len = cast_u16 (record_header_size + key_len + value_len)

-- The record offset behind `slot_ptr`, if it lies among the records.
unfoldable pub slot_offset : Page → ℕ → Option ℕ
slot_offset p index = if leb (cell_count p) index then none else elim (slot_ptr p index) [
  | none ↦ none
  | some slot ↦
      let off = read_u16 p slot in
      if ltb off header_size || leb (free_start p) off then none else some off
]

unfoldable pub slot_key : Page → ℕ → Option (List ℕ)
slot_key p index = elim (slot_offset p index) [
  | none ↦ none
  | some off ↦
      if key_size p off == 0 || ltb page_size (key_size p off)
      then none
      else if ltb (free_start p) (off + record_header_size + key_size p off)
      then none
      else some (slice p (off + record_header_size) (key_size p off))
]

unfoldable pub slot_value : Page → ℕ → Option (List ℕ)
slot_value p index = elim (slot_offset p index) [
  | none ↦ none
  | some off ↦
      let key_end = cast_u16 (off + record_header_size + key_size p off) in
      if (key_size p off == 0 || ltb page_size (key_size p off))
        || (value_size p off == 0 || ltb page_size (value_size p off))
      then none
      else if ltb (free_start p) (key_end + value_size p off)
      then none
      else some (slice p key_end (value_size p off))
]

unfoldable pub can_insert : Page → ℕ → Bool
can_insert p size =
    let slot_space = cast_u16 ((cell_count p + 1) * 2) in
    leb (free_start p + size + slot_space) (free_end p)

-- The header and the two blocks of a record at `off`.
unfoldable pub record_bytes : Page → ℕ → List ℕ → List ℕ → Page
record_bytes p off key value =
    let p₁ = write_u8 p off 0 in
    let p₂ = write_u16 p₁ (off + 1) (length key) in
    let p₃ = write_u16 p₂ (off + 3) (length value) in
    let p₄ = copy p₃ (off + record_header_size) key in
    copy p₄ (off + record_header_size + length key) value

-- The writes of `write_record`, after its guard.
unfoldable pub put_record : Page → List ℕ → List ℕ → Page
put_record p key value =
    let off = free_start p in
    set_free_start (record_bytes p off key value) (off + record_size (length key) (length value))

unfoldable pub write_record : Page → List ℕ → List ℕ → Page × ℕ
write_record p key value =
    if ltb (free_end p) (free_start p + record_header_size + length key + length value)
    then (p, 0)
    else (put_record p key value, free_start p)

-- src/storage/btree/helpers.cpp
unfoldable pub write_raw_record : Page → List ℕ → Page × ℕ
write_raw_record p raw =
    let off = free_start p in
    if ltb (free_end p) (off + length raw)
    then (p, 0)
    else if ltb off header_size
    then (p, 0)
    else (set_free_start (copy p off raw) (off + length raw), off)

pub record BSearchResult : Type 0 where
  pub found : Bool
  pub index : ℕ

abbrev pub absent : ℕ → BSearchResult
absent i = record { found = false; index = i }

abbrev pub present : ℕ → BSearchResult
present i = record { found = true; index = i }

-- The loop of `search_record`, with `cell_count` rounds at most. The interval is halved in each
-- round, so that the fuel does not run out: Record/Search.
unfoldable pub search_loop : ℕ → Page → List ℕ → ℕ → ℕ → BSearchResult
search_loop zero p key left right = absent left
search_loop (suc fuel) p key left right =
    let mid = left + (right - left) / 2 in
    let above = search_loop fuel p key (mid + 1) right in
    let below = search_loop fuel p key left mid in
    if ltb left right
    then elim (slot_key p mid) [
      | none ↦ absent left
      | some mid_key ↦ elim (compare_keys mid_key key) [
        | Ordering.lt ↦ above
        | Ordering.gt ↦ below
        | Ordering.eq ↦ present mid
      ]
    ]
    else absent left

unfoldable pub search_record : Page → List ℕ → BSearchResult
unfolding search_loop
search_record p key = search_loop (suc (cell_count p)) p key 0 (cell_count p)

-- `free_end - sizeof(uint16_t)` is computed in `size_t`.
abbrev pub below_free_end : Page → ℕ
below_free_end p = (free_end p + 18446744073709551616 - 2) % 18446744073709551616

-- Restores the three counters.
abbrev pub restore : Page → Page → Page
restore old p =
    set_cell_count (set_free_end (set_free_start p (free_start old)) (free_end old))
      (cell_count old)

-- `page_insert` once the record is written at `roffset`.
unfoldable pub link_record : Page → ℕ → Page × ℕ → Page × Bool
link_record old index (p, roffset) =
    if roffset == 0
    then (set_free_start p (free_start old), false)
    else if ltb (below_free_end p) (free_start p)
    then (set_free_start p (free_start old), false)
    else elim (insert_slot p index roffset) [
      | err e ↦ (restore old p, false)
      | ok q ↦ if ltb (free_end q) (free_start q) then (restore old q, false) else (q, true)
    ]

unfoldable pub page_insert : Page → List ℕ → List ℕ → Page × Bool
page_insert p key value =
    let result = search_record p key in
    if result.found
    then (p, false)
    else if can_insert p (record_size (length key) (length value))
    then link_record p result.index (write_record p key value)
    else (p, false)

-- RECORD_DELETED
abbrev pub record_deleted : ℕ
record_deleted = 1

-- `page_delete` at a slot. An exception of `remove_slot` is not caught.
unfoldable pub delete_at : Page → ℕ → Result SlotError (Page × Bool)
delete_at p index = elim (slot_ptr p index) [
  | none ↦ ok (p, false)
  | some slot ↦
      let off = read_u16 p slot in
      let p₁ = write_u8 p off (bit_or (flags p off) record_deleted) in
      elim (remove_slot p₁ index) [ ok q ↦ ok (q, true) | err e ↦ err e ]
]

unfoldable pub page_delete : Page → List ℕ → Result SlotError (Page × Bool)
page_delete p key =
    let sr = search_record p key in if sr.found then delete_at p sr.index else ok (p, false)
