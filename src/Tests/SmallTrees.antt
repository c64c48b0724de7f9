-- ===== src/Tests/SmallTrees.antt =====
-- A tree that is one leaf of two entries.
use mathlib.Core.HLevel.{⊥_prop}
use mathlib.Core.Logic.{∥∥₁_elim}
use mathlib.Core.List.{Pairwise}
use advance_db.Prelude.{
  ℕ, ◌≡◌, ◌≢◌, refl, sym, subst, ap, ◌∙◌, true, false, some, [], ◌∷◌, arith, length, Mem,
  Nodup-cons, mem-cons_of_mem, mem-append_left, err, inl, inr, Result, ok, Bool, Bool-cases, ◌==◌,
}
use advance_db.Bytes.{zeroed}
use advance_db.Bytes.Blocks.{Agree, AllBelow}
use advance_db.Page.PageHeader.{Page, parent_page_id, cell_count, init_page}
use advance_db.Page.SlotHelpers.{SlotError}
use advance_db.Record.Cell.{page_insert, page_delete}
use advance_db.Record.Compare.{lex}
use advance_db.Record.Sorted.{keys, position, put, find, remove}
use advance_db.Record.View.{view, IsPage, length-view}
use advance_db.Record.Insert.{page_insert-put}
use advance_db.BufferPool.Pool.{update, Pool, new_pool}
use advance_db.BufferPool.Coherence.{new_pool-IsCoherent}
use advance_db.BufferPool.Ready.{IsReady}
use advance_db.Btree.Handle.{Handle, find_leaf_page}
use advance_db.Btree.Delete.{btree_delete}
use advance_db.Btree.DeleteLeaf.{Suffices, btree_delete-remove}
use advance_db.Btree.InsertLeaf.{page_eq, is_leaf-Agree, Becomes}
use advance_db.Btree.Search.{HasTree, find_leaf_page-Arrives}
use advance_db.Tests.TreePages.{
  ram-Faultless, not_in, one_entry, one_entry-view, one_entry-leaf, left_leaf, stored_page,
  stored_eq, left_room,
}
use advance_db.Tests.Trees.{entries, pages-inside, arrived_page}
use advance_db.Tests.Pools.{ram}

-- A tree that is one leaf, with the keys 1 and 5.
abbrev pub two_entries :
    (q : Page) × (page_insert left_leaf (5 ∷ []) (7 ∷ []) ≡ (q, true))
    × IsPage q
    × (view q ≡ put (5 ∷ []) (7 ∷ []) (view left_leaf))
    × Agree 0 18 q left_leaf
unfolding position lex
two_entries =
    page_insert-put left_leaf (5 ∷ []) (7 ∷ []) (one_entry 3 1 9 (omega arith) (omega arith)).2
      (omega arith) (omega arith, tt) (omega arith, tt)
      (subst (λ es. (position (5 ∷ []) (keys es)).found ≡ false)
        (sym (one_entry-view 3 1 9 (omega arith) (omega arith))) refl)
      left_room

pub two_entries-view : view (two_entries.0) ≡ entries
unfolding put lex
two_entries-view =
    two_entries.3 ∙ ap (put (5 ∷ []) (7 ∷ [])) (one_entry-view 3 1 9 (omega arith) (omega arith))

abbrev pub small_pool : Pool ram
small_pool = new_pool ram 2 zeroed (update (λ i. zeroed) 3 (two_entries.0))

abbrev pub small_handle : Handle ram
small_handle = record { pool = small_pool; root_page = 3 }

pub small_pool-IsReady : IsReady ram small_pool
unfolding new_pool
small_pool-IsReady = record {
  coherent = (new_pool-IsCoherent ram 2 zeroed (update (λ i. zeroed) 3 (two_entries.0))).0;
  can_pin = λ f. omega arith;
  spare = (0, inl (omega arith, refl));
}

abbrev pub small_handle-HasTree : HasTree ram small_handle entries
small_handle-HasTree = record {
  root = record { positive = omega arith; below = omega arith };
  height = 0;
  enough = omega arith;
  pages = 3 ∷ [];
  inside = λ j m. pages-inside j (mem-cons_of_mem 7 (mem-append_left (4 ∷ []) m));
  apart = Nodup-cons.1 (λ m. ∥∥₁_elim m ⊥_prop (not_in 3 [] tt), Pairwise.nil);
  formed = (
    two_entries.0,
    refl,
    (new_pool-IsCoherent ram 2 zeroed (update (λ i. zeroed) 3 (two_entries.0))).1 3,
    is_leaf-Agree two_entries.4 (one_entry-leaf 3 1 9 (omega arith) (omega arith) (omega arith)),
    two_entries.2,
    two_entries-view,
  );
}

abbrev deleted_page : Result SlotError (Page × Bool) → Page
deleted_page (ok r) = r.0
deleted_page (err e) = zeroed

abbrev after_delete : Page
after_delete =
    deleted_page (page_delete (page_insert (stored_page 3 1 9) (5 ∷ []) (7 ∷ [])).0 (1 ∷ []))

after_delete-counters : (parent_page_id after_delete ≡ 0) × (cell_count after_delete ≡ 1)
unfolding page_insert advance_db.Record.Cell.link_record advance_db.Record.Cell.write_record
    advance_db.Record.Cell.put_record advance_db.Record.Cell.record_bytes
    advance_db.Record.Cell.search_record advance_db.Record.Cell.search_loop
    advance_db.Record.Cell.slot_key advance_db.Record.Cell.slot_offset
    advance_db.Page.SlotHelpers.slot_ptr advance_db.Page.SlotHelpers.remove_slot
    advance_db.Page.SlotHelpers.write_removed page_delete advance_db.Record.Cell.delete_at
    advance_db.Record.Compare.compare_keys advance_db.Bytes.slice advance_db.Record.Cell.can_insert
    advance_db.Page.SlotHelpers.insert_slot advance_db.Page.SlotHelpers.write_inserted init_page
    advance_db.Bytes.copy advance_db.Bytes.Blocks.read_words advance_db.Bytes.Blocks.write_words
    advance_db.Bytes.read_u32 advance_db.Bytes.read_u16 advance_db.Bytes.read_u8
    advance_db.Bytes.write_u8 advance_db.Bytes.write_u16 advance_db.Bytes.write_u32
after_delete-counters = (refl, refl)

pub only_page : (id : ℕ) → Mem id (3 ∷ []) → id ≡ 3
only_page id m = elim (Bool-cases (id == 3)) [
  | inl e ↦ ground arith
  | inr n ↦ absurd (∥∥₁_elim m ⊥_prop (not_in id (3 ∷ []) (ground arith, tt)))
]

pub two_entries-eq : (page_insert (stored_page 3 1 9) (5 ∷ []) (7 ∷ [])).0 ≡ two_entries.0
two_entries-eq =
    ap (λ p. (page_insert p (5 ∷ []) (7 ∷ [])).0) (stored_eq 3 1 9 (omega arith) (omega arith))
    ∙ ap (λ (r : Page × Bool). r.0) two_entries.1

small-Suffices :
    (id : ℕ) (p q : Page) (s : Pool ram)
    → find_leaf_page ram (1 ∷ []) small_handle ≡ ok (some (id, p), s)
    → page_delete p (1 ∷ []) ≡ ok (q, true)
    → Suffices q
small-Suffices id p q s e run =
    let a =
      find_leaf_page-Arrives ram small_handle (1 ∷ []) entries ram-Faultless small_pool-IsReady
        small_handle-HasTree in
    let disk' = update (λ i. zeroed) 3 (two_entries.0) in
    let at : disk' a.id ≡ a.page =
      page_eq (sym ((new_pool-IsCoherent ram 2 zeroed disk').1 a.id) ∙ a.stored) in
    let same : two_entries.0 ≡ p =
      sym (ap disk' (only_page a.id a.among))
      ∙ at
      ∙ arrived_page (find_leaf_page ram (1 ∷ []) small_handle) a.result e in
    let gone : after_delete ≡ q =
      ap (λ x. deleted_page (page_delete x (1 ∷ []))) (two_entries-eq ∙ same)
      ∙ ap deleted_page run in
    inl (
      subst (λ x. (parent_page_id x ≡ 0) × (cell_count x ≢ 0)) gone
        (after_delete-counters.0, ground (arith, after_delete-counters.1)))

btree_delete-remove_example :
    Becomes ram small_handle
      (3 ∷ [])
      (remove (1 ∷ []) entries)
      true
      (btree_delete ram (1 ∷ []) small_handle)
unfolding find lex
btree_delete-remove_example =
    btree_delete-remove ram small_handle (1 ∷ []) entries ram-Faultless small_pool-IsReady
      small_handle-HasTree (9 ∷ []) refl small-Suffices

pub two_entries-count : cell_count (two_entries.0) ≡ 2
two_entries-count = sym (length-view (two_entries.0)) ∙ ap length two_entries-view
