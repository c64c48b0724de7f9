-- ===== src/Btree/Entry.antt =====
-- The entries of an internal page: src/storage/btree/internal.cpp, as far as it stays in one page.
-- A failed `assert`, a null pointer that is read and an exception of the slot helpers are errors;
-- `out_of_rounds` is the end of the fuel.
use advance_db.Prelude.{
  ℕ, zero, suc, ◌+◌, ◌-◌, ◌/◌, ◌&&◌, not, Bool, true, false, Option, none, some, List, ltb, leb,
  ◌==◌, if◌then◌else◌, Ordering, length, Result, ok, err, ◌>>=◌,
}
use advance_db.Bytes.{read_u16, read_u32, write_u16, write_u32, copy, slice}
use advance_db.Page.PageHeader.{
  Page, page_level, page_level_code, internal, cast_u16, cell_count, free_start, leftmost_child,
  set_free_start,
}
use advance_db.Page.SlotHelpers.{SlotError, slot_ptr, insert_slot}
use advance_db.BufferPool.Pool.{invalid_page_id}
use advance_db.Record.Compare.{compare_keys}
use advance_db.Record.Cell.{can_insert, BSearchResult, absent, present}

pub data BtreeError : Type 0 where
  assertion_failed null_dereference out_of_rounds : BtreeError
  slot_error : SlotError → BtreeError

abbrev pub is_internal : Page → Bool
is_internal p = page_level p == page_level_code internal

-- sizeof(InternalEntry): the packed fields `key_size` and `child_page`, before the key's bytes.
abbrev pub entry_size : ℕ
entry_size = 6

abbrev pub entry_key_size : Page → ℕ → ℕ
entry_key_size p off = read_u16 p off

abbrev pub child_page : Page → ℕ → ℕ
child_page p off = read_u32 p (off + 2)

abbrev pub entry_key : Page → ℕ → List ℕ
entry_key p off = slice p (off + entry_size) (entry_key_size p off)

unfoldable pub internal_slot_key : Page → ℕ → Option (List ℕ)
internal_slot_key p index =
    if leb (cell_count p) index
    then none
    else elim (slot_ptr p index) [ none ↦ none | some slot ↦ some (entry_key p (read_u16 p slot)) ]

-- `page.data + *slot_ptr(page, index)`
unfoldable pub entry_offset : Page → ℕ → Result BtreeError ℕ
entry_offset p index = elim (slot_ptr p index) [
  | none ↦ err null_dereference
  | some slot ↦ ok (read_u16 p slot)
]

unfoldable pub entry_child : Page → ℕ → Result BtreeError ℕ
entry_child p index = entry_offset p index >>= λ off. ok (child_page p off)

-- The loop of `internal_find_child`, whose `right` is one less: `pos` when the interval is empty.
unfoldable pub child_loop : ℕ → Page → List ℕ → ℕ → ℕ → ℕ → ℕ
child_loop zero p key left right pos = pos
child_loop (suc fuel) p key left right pos =
    let mid = (left + right - 1) / 2 in
    let below = child_loop fuel p key left mid mid in
    let above = child_loop fuel p key (mid + 1) right pos in
    if ltb left right
    then elim (internal_slot_key p mid) [
      | none ↦ pos
      | some mid_key ↦ elim (compare_keys key mid_key) [
        | Ordering.lt ↦ below
        | Ordering.eq ↦ above
        | Ordering.gt ↦ above
      ]
    ]
    else pos

abbrev pub max_page : ℕ
max_page = 1000000

unfoldable pub leftmost_or_first : Page → Result BtreeError ℕ
leftmost_or_first p =
    let left = leftmost_child p in
    if not (left == 0) && (ltb left max_page && not (left == invalid_page_id))
    then ok left
    else if ltb 0 (cell_count p)
    then (entry_child p 0 >>= λ child.
        if not (child == 0) && ltb child max_page then ok child else ok 0)
    else ok 0

-- What `internal_find_child` returns for the position `pos`.
unfoldable pub child_at : Page → ℕ → Result BtreeError ℕ
child_at p pos =
    if pos == 0
    then leftmost_or_first p
    else if pos == cell_count p
    then entry_child p (cell_count p - 1)
    else if leb pos (cell_count p)
    then entry_child p (pos - 1)
    else ok 0

-- `cell_count` rounds are enough: the interval is halved in each.
unfoldable pub internal_find_child : Page → List ℕ → Result BtreeError ℕ
internal_find_child p key =
    let count = cell_count p in
    let pos = child_loop (suc count) p key 0 count count in
    if is_internal p then child_at p pos else err assertion_failed

-- The writes of `write_internal_entry`, after its assertion.
unfoldable pub put_entry : Page → List ℕ → ℕ → Page
put_entry p key child =
    let off = free_start p in
    let p₁ = write_u16 p off (length key) in
    let p₂ = write_u32 p₁ (off + 2) child in
    let p₃ = copy p₂ (off + entry_size) key in
    set_free_start p₃ (free_start p₃ + (entry_size + length key))

unfoldable pub write_internal_entry : Page → List ℕ → ℕ → Result BtreeError (Page × ℕ)
write_internal_entry p key child =
    if is_internal p then ok (put_entry p key child, free_start p) else err assertion_failed

-- The loop of `internal_search_record`.
unfoldable pub internal_search_loop : ℕ → Page → List ℕ → ℕ → ℕ → BSearchResult
internal_search_loop zero p key left right = absent left
internal_search_loop (suc fuel) p key left right =
    let mid = left + (right - left) / 2 in
    let above = internal_search_loop fuel p key (mid + 1) right in
    let below = internal_search_loop fuel p key left mid in
    if ltb left right
    then elim (internal_slot_key p mid) [
      | none ↦ absent left
      | some mid_key ↦ elim (compare_keys mid_key key) [
        | Ordering.lt ↦ above
        | Ordering.gt ↦ below
        | Ordering.eq ↦ present mid
      ]
    ]
    else absent left

unfoldable pub internal_search_record : Page → List ℕ → BSearchResult
internal_search_record p key = internal_search_loop (suc (cell_count p)) p key 0 (cell_count p)

unfoldable pub slotted : Result SlotError Page → Result BtreeError Page
slotted (ok p) = ok p
slotted (err e) = err (slot_error e)

-- The end of `insert_internal_no_split`.
unfoldable pub link_entry : ℕ → Page × ℕ → Result BtreeError (Page × Bool)
link_entry index (p, off) = slotted (insert_slot p index off) >>= λ q. ok (q, true)

unfoldable pub insert_internal_no_split : Page → List ℕ → ℕ → Result BtreeError (Page × Bool)
insert_internal_no_split p key child =
    let sr = internal_search_record p key in
    if not (is_internal p)
    then err assertion_failed
    else if not (can_insert p (cast_u16 (entry_size + length key)))
    then ok (p, false)
    else if sr.found
    then ok (p, false)
    else write_internal_entry p key child >>= link_entry sr.index
