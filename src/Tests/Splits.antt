-- ===== src/Tests/Splits.antt =====
-- The split of a leaf of two entries, next to a bitmap in which its page 3 is marked.
use advance_db.Prelude.{ℕ, ◌≡◌, refl, sym, subst, ap, ◌∙◌, some, arith, inl, ok}
use advance_db.Bytes.{zeroed}
use advance_db.Page.PageHeader.{Page, data_page, leaf, page_id, next_page_id}
use advance_db.Record.Fresh.{init_page-fresh}
use advance_db.BufferPool.Pool.{update, Pool, new_pool}
use advance_db.BufferPool.Coherence.{new_pool-IsCoherent}
use advance_db.BufferPool.Ready.{IsReady}
use advance_db.Table.Bits.{set_allocated}
use advance_db.Table.Allocation.{allocate_page}
use advance_db.Btree.Split.{SplitResult, split_leaf_page}
use advance_db.Btree.SplitLeaf.{Divides, split_leaf_page-Divides}
use advance_db.Btree.SplitPages.{AllShort}
use advance_db.Btree.SplitRead.{AllValued, read_u32-Agree}
use advance_db.Btree.SplitStore.{AreDifferent, Stored}
use advance_db.Btree.InsertLeaf.{is_leaf-Agree}
use advance_db.Tests.TreePages.{ram-Faultless, one_entry, one_entry-leaf}
use advance_db.Tests.SmallTrees.{two_entries, two_entries-view, two_entries-eq, two_entries-count}
use advance_db.Tests.ScanRuns.{two_entries-next}
use advance_db.Tests.Pools.{ram}

abbrev leaf_page : Page
leaf_page = two_entries.0

abbrev disk : ℕ → Page
disk = update (update (λ i. zeroed) 3 leaf_page) 1 (set_allocated zeroed 3)

abbrev pool : Pool ram
pool = new_pool ram 2 zeroed disk

pool-IsReady : IsReady ram pool
unfolding new_pool
pool-IsReady = record {
  coherent = (new_pool-IsCoherent ram 2 zeroed disk).0;
  can_pin = λ f. omega arith;
  spare = (0, inl (omega arith, refl));
}

leaf_page-id : page_id leaf_page ≡ 3
leaf_page-id =
    let one = one_entry 3 1 9 (omega arith) (omega arith) in
    read_u32-Agree 0 two_entries.4 (omega arith) (omega arith)
    ∙ read_u32-Agree 0 one.4 (omega arith) (omega arith)
    ∙ (init_page-fresh zeroed 3 data_page leaf (omega arith)).2

leaf_page-next : next_page_id leaf_page ≡ 0
leaf_page-next = ap next_page_id (sym two_entries-eq) ∙ two_entries-next

leaf_page-AreDifferent : AreDifferent ram leaf_page 4
leaf_page-AreDifferent =
    let id = leaf_page-id in
    let next = leaf_page-next in
    record {
      left_inside = omega (arith, id);
      new_inside = omega arith;
      next_inside = omega (arith, next);
      left_new = omega (arith, id);
      next_left = λ n. absurd (n next);
      next_new = λ n. absurd (n next);
    }

allocated : (allocate_page ram pool).0 ≡ some 4
unfolding allocate_page advance_db.Table.Allocation.allocate_in
    advance_db.Table.Allocation.mark_free advance_db.Table.Allocation.find_free
    advance_db.BufferPool.Pool.fetch_page advance_db.BufferPool.Pool.take_frame
    advance_db.BufferPool.Pool.claim advance_db.BufferPool.Pool.load
    advance_db.BufferPool.Pool.install advance_db.BufferPool.Pool.mark_frame_used
    advance_db.BufferPool.Pool.find_or_evict_frame advance_db.BufferPool.Pool.free_or_back
    advance_db.BufferPool.Pool.free_frame new_pool advance_db.Table.Bits.test_bit
    advance_db.Table.Bits.with_bit advance_db.Bytes.read_u8 advance_db.Bytes.write_u8
allocated = refl

split_leaf_page-Divides_example :
    (r : SplitResult) × (t : Pool ram) × (split_leaf_page ram leaf_page pool ≡ ok (r, t))
    × Divides leaf_page 4 r
    × Stored ram leaf_page r (allocate_page ram pool).1 t
split_leaf_page-Divides_example =
    split_leaf_page-Divides ram pool leaf_page 4 ram-Faultless pool-IsReady two_entries.2
      (is_leaf-Agree two_entries.4 (one_entry-leaf 3 1 9 (omega arith) (omega arith) (omega arith)))
      (omega (arith, two_entries-count))
      (subst AllShort (sym two_entries-view) (omega arith, (omega arith, tt)))
      (subst AllValued (sym two_entries-view) (omega arith, (omega arith, tt))) allocated
      leaf_page-AreDifferent
