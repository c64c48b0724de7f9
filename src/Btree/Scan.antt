-- ===== src/Btree/Scan.antt =====
-- `btree_range_scan` of src/storage/btree/btree.cpp. The calls of the callback are the list of the
-- entries that it gets, in their order.
use advance_db.Prelude.{
  ℕ, zero, suc, ◌+◌, ◌-◌, ◌&&◌, Bool, true, false, not, none, some, List, [], ◌∷◌, ◌++◌, ◌==◌,
  if◌then◌else◌, length, Ordering, Result, ok, err, ◌>>=◌,
}
use advance_db.Page.PageHeader.{Page, cell_count, next_page_id}
use advance_db.Record.Compare.{compare_keys}
use advance_db.Record.Cell.{search_record}
use advance_db.Record.Sorted.{Key, Entry}
use advance_db.BufferPool.Disk.{DiskManager}
use advance_db.BufferPool.Pool.{Pool}
use advance_db.BufferPool.Visit.{peek}
use advance_db.Btree.Entry.{BtreeError, out_of_rounds}
use advance_db.Btree.Handle.{Handle, Arrival, find_leaf_page, find_leftmost_leaf_page}
use advance_db.Btree.Split.{record_at}

-- The scan stops at a key above the end key, where there is one.
unfoldable pub is_past : Key → Key → Bool
is_past end key = not (length end == 0) && elim (compare_keys key end) [
  | Ordering.gt ↦ true
  | Ordering.eq ↦ false
  | Ordering.lt ↦ false
]

-- The slots from `i` on, `n` of them: what the callback gets, and whether the scan stops.
unfoldable pub scan_slots : ℕ → Page → Key → ℕ → List Entry × Bool
scan_slots zero p end i = ([], false)
scan_slots (suc n) p end i =
    let rest = scan_slots n p end (i + 1) in
    elim (record_at p i) [
      | none ↦ rest
      | some r ↦ if is_past end r.0 then ([], true) else (r ∷ rest.0, rest.1)
    ]

module _ (dm : DiskManager) where
  abbrev pub prepend : List Entry → List Entry × Pool dm → List Entry × Pool dm
  prepend es r = (es ++ r.0, r.1)

  -- The loop over the chain of leaves, `rounds` pages at most, from slot `start` of the copy `p` on.
  unfoldable pub scan_chain :
      ℕ → Page → Key → ℕ → Pool dm → Result BtreeError (List Entry × Pool dm)
  scan_chain zero p end start s = err out_of_rounds
  scan_chain (suc rounds) p end start s =
      let here = scan_slots (cell_count p - start) p end start in
      let next = peek dm (next_page_id p) s in
      elim here.1 [
        | true ↦ ok (here.0, s)
        | false ↦ elim (next_page_id p == 0) [
          | true ↦ ok (here.0, s)
          | false ↦ elim next.0 [
            | none ↦ ok (here.0, next.1)
            | some q ↦ (scan_chain rounds q end 0 next.1 >>= λ r. ok (prepend here.0 r))
          ]
        ]
      ]

  unfoldable pub scan_from :
      ℕ → (Page → ℕ) → Key → Arrival dm → Result BtreeError (List Entry × Pool dm)
  scan_from rounds start end (none, s) = ok ([], s)
  scan_from rounds start end (some (id, p), s) = scan_chain rounds p end (start p) s

  -- An empty start key starts at the leftmost leaf.
  unfoldable pub btree_range_scan :
      ℕ → Key → Key → Handle dm → Result BtreeError (List Entry × Pool dm)
  btree_range_scan rounds start end th =
      if th.root_page == 0
      then ok ([], th.pool)
      else if length start == 0
      then (find_leftmost_leaf_page dm th >>= scan_from rounds (λ p. 0) end)
      else (find_leaf_page dm start th
          >>= scan_from rounds (λ p. (search_record p start).index) end)
