-- ===== src/Tests/Pages.antt =====
-- Pages with no entry and with one.
use advance_db.Prelude.{
  ℕ, ◌+◌, ◌<◌, ◌≤◌, ◌≡◌, ◌≢◌, ◌↔◌, refl, sym, subst, ap, ◌∙◌, true, false, List, [], ◌∷◌, arith,
  length, insert_at, erase_at, ok, err, ◌>>=◌,
}
use advance_db.Bytes.{zeroed}
use advance_db.Bytes.Blocks.{Agree, AllBelow}
use advance_db.Page.PageHeader.{Page, leaf, data_page, cell_count, free_start, free_end, init_page}
use advance_db.Page.SlotHelpers.{
  insert_slot, remove_slot, invalid_slot_index, directory_overlaps_records, directory_exceeds_page,
}
use advance_db.Page.Directory.{IsFramed, slots}
use advance_db.Page.Rewrite.{
  Rewritten, insert_slot-Rewritten, remove_slot-Rewritten, remove_slot-insert_slot,
  insert_slot_errors,
}
use advance_db.Record.Cell.{search_record, page_insert, page_delete}
use advance_db.Record.Compare.{compare_keys, lex, compare_keys-lex}
use advance_db.Record.Sorted.{Key, keys, position, put, remove, find}
use advance_db.Record.View.{view, IsPage, length-view}
use advance_db.Record.Search.{search_record-position}
use advance_db.Record.Insert.{
  IsFresh, HasRoom, SameBytes, page_insert-put, page_insert_fails, page_insert_iff,
}
use advance_db.Record.Delete.{page_delete-remove, lookup, nonempty, lookup-find}
use advance_db.Record.Fresh.{
  init_page-IsPage, init_page-view, init_page-count, init_page-start, init_page-end,
}

abbrev empty : Page
empty = init_page zeroed 7 data_page leaf

abbrev key : Key
key = 1 ∷ 2 ∷ []

abbrev value : List ℕ
value = 9 ∷ 0 ∷ 5 ∷ []

empty-IsPage : IsPage empty
empty-IsPage = init_page-IsPage zeroed 7 data_page leaf

empty-IsFresh : (k : Key) → IsFresh empty k
unfolding position
empty-IsFresh k =
    subst (λ es. (position k (keys es)).found ≡ false)
      (sym (init_page-view zeroed 7 data_page leaf)) refl

key-bytes : AllBelow 256 key
key-bytes = (omega arith, (omega arith, tt))

value-bytes : AllBelow 256 value
value-bytes = (omega arith, (omega arith, (omega arith, tt)))

empty-HasRoom : HasRoom empty key value
empty-HasRoom = omega (
  arith,
  init_page-count zeroed 7 data_page leaf,
  init_page-start zeroed 7 data_page leaf,
  init_page-end zeroed 7 data_page leaf,
)

-- The page with the entry, as `page_insert` leaves it.
abbrev inserted :
    (q : Page) × (page_insert empty key value ≡ (q, true))
    × IsPage q
    × (view q ≡ put key value (view empty))
    × Agree 0 18 q empty
inserted =
    page_insert-put empty key value empty-IsPage (omega arith) key-bytes value-bytes
      (empty-IsFresh key) empty-HasRoom

full_view : view (inserted.0) ≡ (key, value) ∷ []
unfolding put
full_view = inserted.3 ∙ ap (put key value) (init_page-view zeroed 7 data_page leaf)

full_found : (position key (keys (view (inserted.0)))).found ≡ true
unfolding position lex
full_found = subst (λ es. (position key (keys es)).found ≡ true) (sym full_view) refl

page_insert-put_example :
    (q : Page) × (page_insert empty key value ≡ (q, true))
    × IsPage q
    × (view q ≡ put key value (view empty))
    × Agree 0 18 q empty
page_insert-put_example =
    page_insert-put empty key value empty-IsPage (omega arith) key-bytes value-bytes
      (empty-IsFresh key) empty-HasRoom

-- The key is taken.
taken : (page_insert (inserted.0) key value).1 ≡ false
unfolding page_insert
taken = rw (search_record-position (inserted.0) key (inserted.2), full_found) refl

page_insert_fails_example : SameBytes (page_insert (inserted.0) key value).0 (inserted.0)
page_insert_fails_example =
    page_insert_fails (inserted.0) key value (inserted.2) (omega arith) key-bytes value-bytes taken

page_insert_iff_example :
    ((page_insert empty key value).1 ≡ true) ↔ (IsFresh empty key × HasRoom empty key value)
page_insert_iff_example =
    page_insert_iff empty key value empty-IsPage (omega arith) key-bytes value-bytes

page_delete-remove_example :
    (q : Page) × (page_delete (inserted.0) key ≡ ok (q, true))
    × IsPage q
    × (view q ≡ remove key (view (inserted.0)))
    × Agree 0 18 q (inserted.0)
page_delete-remove_example = page_delete-remove (inserted.0) key (inserted.2) full_found

lookup-find_example : lookup (inserted.0) key ≡ nonempty (find key (view (inserted.0)))
lookup-find_example = lookup-find (inserted.0) key (inserted.2)

search_record-position_example :
    search_record (inserted.0) key ≡ position key (keys (view (inserted.0)))
search_record-position_example = search_record-position (inserted.0) key (inserted.2)

compare_keys-lex_example : compare_keys (1 ∷ 2 ∷ []) (1 ∷ []) ≡ lex (1 ∷ 2 ∷ []) (1 ∷ [])
compare_keys-lex_example = compare_keys-lex (1 ∷ 2 ∷ []) (1 ∷ [])

empty-fits : free_start empty + 2 ≤ free_end empty
empty-fits =
    omega (arith, init_page-start zeroed 7 data_page leaf, init_page-end zeroed 7 data_page leaf)

insert_slot-Rewritten_example :
    (p : Page) × (insert_slot empty 0 40 ≡ ok p) × Rewritten empty (insert_at 0 40 (slots empty)) p
insert_slot-Rewritten_example =
    insert_slot-Rewritten empty 0 40 empty-IsPage.framed (omega arith) empty-fits (omega arith)

full-counted : 0 < cell_count (inserted.0)
full-counted = omega (arith, ap length full_view, length-view (inserted.0))

remove_slot-Rewritten_example :
    (p : Page) × (remove_slot (inserted.0) 0 ≡ ok p)
    × Rewritten (inserted.0) (erase_at 0 (slots (inserted.0))) p
remove_slot-Rewritten_example =
    remove_slot-Rewritten (inserted.0) 0 (inserted.2).framed full-counted

remove_slot-insert_slot_example :
    (p : Page) × ((insert_slot empty 0 40 >>= λ q. remove_slot q 0) ≡ ok p)
    × (slots p ≡ slots empty)
    × IsFramed p
remove_slot-insert_slot_example =
    remove_slot-insert_slot empty 0 40 empty-IsPage.framed (omega arith) empty-fits (omega arith)

insert_slot_errors_example :
    ((insert_slot empty 3 40 ≡ err invalid_slot_index) ↔ (cell_count empty < 3))
    × ((insert_slot empty 3 40 ≡ err directory_overlaps_records)
        ↔ ((3 ≤ cell_count empty) × (free_end empty < free_start empty + 2)))
    × (insert_slot empty 3 40 ≢ err directory_exceeds_page)
insert_slot_errors_example = insert_slot_errors empty 3 40 empty-IsPage.framed
