-- ===== src/Page/SlotHelpers.antt =====
-- The slot directory of src/storage/slot_helpers.cpp. A pointer into the page is its offset, and
-- `nullptr` is `none`. The loops over slots are the loops over 16-bit words of Bytes/Blocks.
use advance_db.Prelude.{
  ℕ, ◌+◌, ◌-◌, ◌*◌, ◌||◌, Option, none, some, ltb, leb, ◌==◌, if◌then◌else◌, take, drop, Result, ok,
  err,
}
use advance_db.Bytes.{write_u16}
use advance_db.Bytes.Blocks.{read_words, write_words}
use advance_db.Page.PageHeader.{
  Page, page_size, cast_u16, cell_count, free_start, free_end, set_cell_count, set_free_end,
}

-- The messages of the `std::runtime_error`s.
pub data SlotError : Type 0 where
  invalid_slot_index directory_overlaps_records directory_exceeds_page : SlotError
  could_not_remove_invalid_slot : SlotError

unfoldable pub slot_ptr : Page → ℕ → Option ℕ
slot_ptr p index =
    let slot_offset = cast_u16 (free_end p + index * 2) in
    if leb (cell_count p) index
    then none
    else if ltb page_size (slot_offset + 2)
    then none
    else some slot_offset

-- The writes of `insert_slot`, after its guards.
unfoldable pub write_inserted : Page → ℕ → ℕ → Page
write_inserted p index record_offset =
    let old_free_end = free_end p in
    let current_count = cell_count p in
    let new_free_end = cast_u16 (old_free_end + 65536 - 2) in
    let p₁ = set_free_end p new_free_end in
    let temp_slots = read_words p₁ old_free_end current_count in
    let p₂ = write_words p₁ new_free_end (take index temp_slots) in
    let p₃ = write_u16 p₂ (new_free_end + index * 2) record_offset in
    let p₄ = write_words p₃ (new_free_end + (index + 1) * 2) (drop index temp_slots) in
    set_cell_count p₄ (cell_count p₄ + 1)

unfoldable pub insert_slot : Page → ℕ → ℕ → Result SlotError Page
insert_slot p index record_offset =
    let new_free_end = cast_u16 (free_end p + 65536 - 2) in
    if ltb (cell_count p) index
    then err invalid_slot_index
    else if ltb new_free_end (free_start p)
    then err directory_overlaps_records
    else if ltb page_size (new_free_end + (cell_count p + 1) * 2)
    then err directory_exceeds_page
    else ok (write_inserted p index record_offset)

-- The writes of `remove_slot`, after its guard.
unfoldable pub write_removed : Page → ℕ → Page
write_removed p index =
    let old_free_end = free_end p in
    let current_count = cell_count p in
    let slot_values = read_words p old_free_end current_count in
    let p₁ = set_free_end p (old_free_end + 2) in
    let new_free_end = free_end p₁ in
    let p₂ = write_words p₁ new_free_end (take index slot_values) in
    let p₃ = write_words p₂ (new_free_end + index * 2) (drop (index + 1) slot_values) in
    set_cell_count p₃ (cell_count p₃ + 65536 - 1)

unfoldable pub remove_slot : Page → ℕ → Result SlotError Page
remove_slot p index =
    if leb (cell_count p) index || cell_count p == 0
    then err could_not_remove_invalid_slot
    else ok (write_removed p index)
