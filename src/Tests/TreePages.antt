-- ===== src/Tests/TreePages.antt =====
-- Leaves with one entry, and an internal page over them.
use mathlib.Core.List.{Memᴰ}
use mathlib.Core.List.Memᴰ
use advance_db.Prelude.{
  ℕ, ◌<◌, ◌≡◌, ◌≢◌, refl, sym, subst, ap, ◌∙◌, true, false, List, [], ◌∷◌, arith, insert_at, ok,
  Bool,
}
use advance_db.Bytes.{zeroed}
use advance_db.Bytes.Blocks.{Agree, AllBelow}
use advance_db.Page.PageHeader.{
  Page, leaf, internal, index, data_page, leftmost_child, cell_count, free_start, free_end,
  init_page,
}
use advance_db.Page.SlotHelpers.{SlotError}
use advance_db.Record.Cell.{page_insert, page_delete}
use advance_db.Record.Sorted.{keys, position, put}
use advance_db.Record.View.{view, IsPage}
use advance_db.Record.Insert.{HasRoom, page_insert-put}
use advance_db.Record.Fresh.{
  init_page-IsPage, init_page-view, init_page-count, init_page-start, init_page-end,
  init_page-fresh,
}
use advance_db.BufferPool.Counts.{Faultless}
use advance_db.Btree.Entry.{insert_internal_no_split}
use advance_db.Btree.InternalView.{IsInternal, internal_view, separators}
use advance_db.Btree.Handle.{is_leaf}
use advance_db.Btree.SplitRead.{read_u32-Agree}
use advance_db.Btree.Split.{set_leftmost_child}
use advance_db.Btree.InsertEntry.{HasEntryRoom, insert_internal_no_split-insert_at}
use advance_db.Btree.InsertLeaf.{is_leaf-Agree}
use advance_db.Tests.Pools.{ram}

pub ram-Faultless : Faultless ram
ram-Faultless = record { reads = λ d i h. (d i, refl); writes = λ d i p h. refl }

abbrev NotAmong : ℕ → List ℕ → Type 0
NotAmong x [] = Unit
NotAmong x (y ∷ ys) = (x ≢ y) × NotAmong x ys

pub not_in : (x : ℕ) (ys : List ℕ) → NotAmong x ys → ¬ Memᴰ x ys
not_in x [] n m = Memᴰ.not-nil m
not_in x (y ∷ ys) n (Memᴰ.head e) = n.0 e
not_in x (y ∷ ys) n (Memᴰ.tail m) = not_in x ys n.1 m

-- A leaf with one entry.
module _ (id : ℕ) (k : ℕ) (x : ℕ) (small : k < 256) (byte : x < 256) where
  pub one_entry :
      (q : Page) × (page_insert (init_page zeroed id data_page leaf) (k ∷ []) (x ∷ []) ≡ (q, true))
      × IsPage q
      × (view q ≡ put (k ∷ []) (x ∷ []) (view (init_page zeroed id data_page leaf)))
      × Agree 0 18 q (init_page zeroed id data_page leaf)
  unfolding position
  one_entry =
      page_insert-put (init_page zeroed id data_page leaf) (k ∷ []) (x ∷ [])
        (init_page-IsPage zeroed id data_page leaf) (omega arith) (small, tt) (byte, tt)
        (subst (λ es. (position (k ∷ []) (keys es)).found ≡ false)
          (sym (init_page-view zeroed id data_page leaf)) refl)
        (omega (
          arith,
          init_page-count zeroed id data_page leaf,
          init_page-start zeroed id data_page leaf,
          init_page-end zeroed id data_page leaf,
        ))

  pub one_entry-view : view (one_entry.0) ≡ (k ∷ [], x ∷ []) ∷ []
  unfolding put
  one_entry-view =
      one_entry.3 ∙ ap (put (k ∷ []) (x ∷ [])) (init_page-view zeroed id data_page leaf)

  pub one_entry-leaf : id < 4294967296 → is_leaf (one_entry.0) ≡ true
  one_entry-leaf h =
      is_leaf-Agree one_entry.4 (ground (arith, (init_page-fresh zeroed id data_page leaf h).4))

-- Page 3 has the key 1, page 4 the key 5.
abbrev pub left_leaf : Page
left_leaf = (one_entry 3 1 9 (omega arith) (omega arith)).0

abbrev pub right_leaf : Page
right_leaf = (one_entry 4 5 7 (omega arith) (omega arith)).0

-- An internal page whose only child is page 3.
abbrev bare : Page
bare = set_leftmost_child (init_page zeroed 7 index internal) 3

bare-view : internal_view bare ≡ []
unfolding init_page advance_db.Bytes.read_u16 advance_db.Bytes.read_u8 advance_db.Bytes.write_u8
    advance_db.Bytes.write_u16 advance_db.Bytes.write_u32 advance_db.Bytes.Blocks.read_words
bare-view = refl

pub bare-IsInternal : IsInternal bare
unfolding init_page advance_db.Bytes.read_u32 advance_db.Bytes.read_u16 advance_db.Bytes.read_u8
    advance_db.Bytes.write_u8 advance_db.Bytes.write_u16 advance_db.Bytes.write_u32
    advance_db.Bytes.Blocks.read_words
bare-IsInternal = record {
  level = refl;
  framed = record { records_start = omega arith; no_overlap = omega arith; directory = refl };
  placed = tt;
  sorted = tt;
  leftmost = record { positive = omega arith; below = omega arith };
}

pub bare-room : HasEntryRoom bare (5 ∷ [])
unfolding init_page advance_db.Bytes.read_u16 advance_db.Bytes.read_u8 advance_db.Bytes.write_u8
    advance_db.Bytes.write_u16 advance_db.Bytes.write_u32
bare-room = omega arith

pub bare-fresh : (position (5 ∷ []) (separators (internal_view bare))).found ≡ false
unfolding position
bare-fresh = subst (λ es. (position (5 ∷ []) (separators es)).found ≡ false) (sym bare-view) refl

-- The root, with the separator 5 before page 4.
insert_internal_no_split-insert_at_example :
    (q : Page) × (insert_internal_no_split bare (5 ∷ []) 4 ≡ ok (q, true))
    × IsInternal q
    × (internal_view q
        ≡ insert_at
            (position (5 ∷ []) (separators (internal_view bare))).index
            (5 ∷ [], 4)
            (internal_view bare))
    × Agree 0 18 q bare
insert_internal_no_split-insert_at_example =
    insert_internal_no_split-insert_at bare (5 ∷ []) 4 bare-IsInternal (omega arith, tt)
      (omega arith) bare-fresh bare-room

abbrev pub made :
    (q : Page) × (insert_internal_no_split bare (5 ∷ []) 4 ≡ ok (q, true))
    × IsInternal q
    × (internal_view q
        ≡ insert_at
            (position (5 ∷ []) (separators (internal_view bare))).index
            (5 ∷ [], 4)
            (internal_view bare))
    × Agree 0 18 q bare
made =
    insert_internal_no_split-insert_at bare (5 ∷ []) 4 bare-IsInternal (omega arith, tt)
      (omega arith) bare-fresh bare-room

abbrev pub root : Page
root = made.0

pub root-view : internal_view root ≡ (5 ∷ [], 4) ∷ []
unfolding position
root-view =
    made.3 ∙ ap (λ es. insert_at (position (5 ∷ []) (separators es)).index (5 ∷ [], 4) es) bare-view

bare-leftmost : leftmost_child bare ≡ 3
unfolding advance_db.Bytes.read_u32 advance_db.Bytes.read_u16 advance_db.Bytes.read_u8
    advance_db.Bytes.write_u8 advance_db.Bytes.write_u16 advance_db.Bytes.write_u32
bare-leftmost = refl

pub root-leftmost : leftmost_child root ≡ 3
root-leftmost = read_u32-Agree 12 made.4 (omega arith) (omega arith) ∙ bare-leftmost

abbrev pub stored_page : ℕ → ℕ → ℕ → Page
stored_page id k x = (page_insert (init_page zeroed id data_page leaf) (k ∷ []) (x ∷ [])).0

left_counters :
    (free_start (stored_page 3 1 9) ≡ 47)
    × (free_end (stored_page 3 1 9) ≡ 2046)
    × (cell_count (stored_page 3 1 9) ≡ 1)
unfolding page_insert advance_db.Record.Cell.link_record advance_db.Record.Cell.write_record
    advance_db.Record.Cell.put_record advance_db.Record.Cell.record_bytes
    advance_db.Record.Cell.search_record advance_db.Record.Cell.search_loop
    advance_db.Record.Cell.can_insert advance_db.Page.SlotHelpers.insert_slot
    advance_db.Page.SlotHelpers.write_inserted init_page advance_db.Bytes.copy
    advance_db.Bytes.Blocks.read_words advance_db.Bytes.Blocks.write_words advance_db.Bytes.read_u16
    advance_db.Bytes.read_u8 advance_db.Bytes.write_u8 advance_db.Bytes.write_u16
    advance_db.Bytes.write_u32
left_counters = (refl, refl, refl)

right_counters :
    (free_start (stored_page 4 5 7) ≡ 47)
    × (free_end (stored_page 4 5 7) ≡ 2046)
    × (cell_count (stored_page 4 5 7) ≡ 1)
unfolding page_insert advance_db.Record.Cell.link_record advance_db.Record.Cell.write_record
    advance_db.Record.Cell.put_record advance_db.Record.Cell.record_bytes
    advance_db.Record.Cell.search_record advance_db.Record.Cell.search_loop
    advance_db.Record.Cell.can_insert advance_db.Page.SlotHelpers.insert_slot
    advance_db.Page.SlotHelpers.write_inserted init_page advance_db.Bytes.copy
    advance_db.Bytes.Blocks.read_words advance_db.Bytes.Blocks.write_words advance_db.Bytes.read_u16
    advance_db.Bytes.read_u8 advance_db.Bytes.write_u8 advance_db.Bytes.write_u16
    advance_db.Bytes.write_u32
right_counters = (refl, refl, refl)

pub stored_eq :
    (id k x : ℕ) (small : k < 256) (byte : x < 256)
    → stored_page id k x ≡ (one_entry id k x small byte).0
stored_eq id k x small byte = ap (λ (r : Page × Bool). r.0) (one_entry id k x small byte).1

-- Neither leaf is short of room.
pub left_room : HasRoom left_leaf (3 ∷ []) (8 ∷ [])
left_room =
    subst (λ p. HasRoom p (3 ∷ []) (8 ∷ [])) (stored_eq 3 1 9 (omega arith) (omega arith))
      (omega (arith, left_counters))

pub right_room : HasRoom right_leaf (3 ∷ []) (8 ∷ [])
right_room =
    subst (λ p. HasRoom p (3 ∷ []) (8 ∷ [])) (stored_eq 4 5 7 (omega arith) (omega arith))
      (omega (arith, right_counters))
