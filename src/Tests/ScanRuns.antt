-- ===== src/Tests/ScanRuns.antt =====
-- A range scan of a tree that is one leaf.
use advance_db.Prelude.{◌≡◌, refl, sym, subst, ap, ◌∙◌, [], ◌∷◌, ◌++◌, arith, drop}
use advance_db.Bytes.{zeroed}
use advance_db.Page.PageHeader.{next_page_id, init_page}
use advance_db.Record.Cell.{page_insert}
use advance_db.Record.Sorted.{keys, position}
use advance_db.Record.View.{view}
use advance_db.BufferPool.Pool.{update}
use advance_db.BufferPool.Coherence.{content, new_pool-IsCoherent}
use advance_db.Btree.Handle.{find_leaf_page}
use advance_db.Btree.InsertLeaf.{page_eq}
use advance_db.Btree.Search.{Arrives, find_leaf_page-Arrives}
use advance_db.Btree.Scan.{btree_range_scan}
use advance_db.Btree.ScanChain.{IsChain, Scans, up_to, btree_range_scan-Scans}
use advance_db.Tests.TreePages.{ram-Faultless, stored_page}
use advance_db.Tests.Trees.{entries}
use advance_db.Tests.SmallTrees.{
  two_entries, small_pool, small_handle, small_handle-HasTree, only_page, two_entries-eq,
  small_pool-IsReady,
}
use advance_db.Tests.Pools.{ram}

abbrev reached :
    Arrives ram (1 ∷ []) 0 3 (3 ∷ []) entries small_pool (find_leaf_page ram (1 ∷ []) small_handle)
reached =
    find_leaf_page-Arrives ram small_handle (1 ∷ []) entries ram-Faultless small_pool-IsReady
      small_handle-HasTree

pub two_entries-next : next_page_id (page_insert (stored_page 3 1 9) (5 ∷ []) (7 ∷ [])).0 ≡ 0
unfolding page_insert advance_db.Record.Cell.link_record advance_db.Record.Cell.write_record
    advance_db.Record.Cell.put_record advance_db.Record.Cell.record_bytes
    advance_db.Record.Cell.search_record advance_db.Record.Cell.search_loop
    advance_db.Record.Cell.slot_key advance_db.Record.Cell.slot_offset
    advance_db.Page.SlotHelpers.slot_ptr advance_db.Record.Compare.compare_keys
    advance_db.Bytes.slice advance_db.Record.Cell.can_insert advance_db.Page.SlotHelpers.insert_slot
    advance_db.Page.SlotHelpers.write_inserted init_page advance_db.Bytes.copy
    advance_db.Bytes.Blocks.read_words advance_db.Bytes.Blocks.write_words advance_db.Bytes.read_u32
    advance_db.Bytes.read_u16 advance_db.Bytes.read_u8 advance_db.Bytes.write_u8
    advance_db.Bytes.write_u16 advance_db.Bytes.write_u32
two_entries-next = refl

reached-page : two_entries.0 ≡ reached.page
reached-page =
    let disk' = update (λ i. zeroed) 3 (two_entries.0) in
    sym (ap disk' (only_page reached.id reached.among))
    ∙ page_eq (sym ((new_pool-IsCoherent ram 2 zeroed disk').1 reached.id) ∙ reached.stored)

reached-IsChain : IsChain ram (content ram small_pool) reached.page []
reached-IsChain = subst (λ p. next_page_id p ≡ 0) (two_entries-eq ∙ reached-page) two_entries-next

btree_range_scan-Scans_example :
    Scans ram small_pool
      (up_to []
        (drop (position (1 ∷ []) (keys (view reached.page))).index (view reached.page) ++ []))
      (btree_range_scan ram 5 (1 ∷ []) [] small_handle)
btree_range_scan-Scans_example =
    btree_range_scan-Scans ram 5 (1 ∷ []) [] small_handle entries [] ram-Faultless
      small_pool-IsReady small_handle-HasTree (omega arith) (omega arith) reached.id reached.page
      reached.pool reached.result reached-IsChain
