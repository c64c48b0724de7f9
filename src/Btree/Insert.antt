-- ===== src/Btree/Insert.antt =====
-- `btree_insert_leaf_no_split` of src/storage/btree/leaf.cpp and `btree_insert` of
-- src/storage/btree/btree.cpp.
use advance_db.Prelude.{
  ℕ, Bool, true, false, not, Option, none, some, List, ◌==◌, if◌then◌else◌, length, Ordering,
  Result, ok, err, ◌>>=◌,
}
use advance_db.Page.PageHeader.{Page, data_page, leaf}
use advance_db.Record.Compare.{compare_keys}
use advance_db.Record.Cell.{record_size, can_insert, search_record, page_insert}
use advance_db.Record.Sorted.{Key}
use advance_db.BufferPool.Disk.{DiskManager}
use advance_db.BufferPool.Pool.{invalid_page_id, Pool, new_page, unpin_page}
use advance_db.BufferPool.Visit.{set_page, visit, peek, modify}
use advance_db.Table.Allocation.{allocate_page}
use advance_db.Btree.Entry.{BtreeError, assertion_failed}
use advance_db.Btree.Handle.{Handle, Arrival, find_leaf_page}
use advance_db.Btree.Split.{SplitResult, set_root_page, split_leaf_page}
use advance_db.Btree.Parent.{insert_into_parent}

-- Whether the record is written into the leaf.
abbrev pub fits_in : Key → List ℕ → Page → Bool
fits_in key value p = can_insert p (record_size (length key) (length value))

unfoldable pub insert_if_fits : Key → List ℕ → Page → Page
insert_if_fits key value p = if fits_in key value p then (page_insert p key value).0 else p

abbrev pub or_false : Option Bool → Bool
or_false none = false
or_false (some b) = b

-- Insertion into one of the pages of a split.
unfoldable pub insert_after_split : Key → List ℕ → Page → Result BtreeError Page
insert_after_split key value p =
    if not (fits_in key value p)
    then err assertion_failed
    else if (page_insert p key value).1
    then ok (page_insert p key value).0
    else err assertion_failed

module _ (dm : DiskManager) where
  unfoldable pub inserted_leaf : Key → List ℕ → Option Page × Pool dm → Bool × Pool dm
  inserted_leaf key value (none, s) = (false, s)
  inserted_leaf key value (some p, s) = (fits_in key value p, s)

  -- The page is unpinned as dirty where the record fits.
  unfoldable pub btree_insert_leaf_no_split : ℕ → Key → List ℕ → Pool dm → Bool × Pool dm
  btree_insert_leaf_no_split id key value s =
      inserted_leaf key value (visit dm id (fits_in key value) (insert_if_fits key value) s)

  -- The first page of a tree. What `page_insert` reports is not looked at.
  unfoldable pub insert_first : ℕ → Key → List ℕ → ℕ → Option ℕ × Pool dm → Bool × Handle dm
  insert_first root key value id (none, s) = (false, record { pool = s; root_page = root })
  insert_first root key value id (some f, s) =
      let s₁ = modify dm 0 (λ m. set_root_page m id) s in
      let s₂ = set_page dm f (page_insert (s₁.frames f).page key value).0 s₁ in
      (true, record { pool = (unpin_page dm id true s₂).1; root_page = id })

  unfoldable pub insert_root : ℕ → Key → List ℕ → Option ℕ × Pool dm → Bool × Handle dm
  insert_root root key value (none, s) = (false, record { pool = s; root_page = root })
  insert_root root key value (some id, s) =
      insert_first root key value id (new_page dm id data_page leaf s)

  -- The page of the split that takes the record, written back under its id.
  unfoldable pub insert_half :
      ℕ → ℕ → Key → List ℕ → SplitResult × Pool dm → Result BtreeError (SplitResult × Pool dm)
  insert_half root id key value (r, s) = elim (compare_keys key r.separator_key) [
    | Ordering.lt ↦
        (insert_after_split key value r.left_page >>= λ p. ok (r, modify dm id (λ q. p) s))
    | Ordering.eq ↦
        (insert_after_split key value r.right_page >>= λ p. ok (r, modify dm r.new_page (λ q. p) s))
    | Ordering.gt ↦
        (insert_after_split key value r.right_page >>= λ p. ok (r, modify dm r.new_page (λ q. p) s))
  ]

  -- The leaf is full.
  unfoldable pub insert_split :
      ℕ → ℕ → ℕ → Key → List ℕ → Option Page × Pool dm → Result BtreeError (Bool × Handle dm)
  insert_split rounds root id key value (none, s) =
      ok (false, record { pool = s; root_page = root })
  insert_split rounds root id key value (some p, s) = split_leaf_page dm p s >>= λ split.
      insert_half root id key value split >>= λ r.
      insert_into_parent dm rounds id r.0.separator_key r.0.new_page
        (record { pool = r.1; root_page = root })
      >>= λ th. ok (true, th)

  unfoldable pub insert_unless_fits :
      ℕ → ℕ → ℕ → Key → List ℕ → Bool × Pool dm → Result BtreeError (Bool × Handle dm)
  insert_unless_fits rounds root id key value (true, s) =
      ok (true, record { pool = s; root_page = root })
  insert_unless_fits rounds root id key value (false, s) =
      insert_split rounds root id key value (peek dm id s)

  unfoldable pub insert_in_leaf :
      ℕ → ℕ → ℕ → Page → Key → List ℕ → Pool dm → Result BtreeError (Bool × Handle dm)
  insert_in_leaf rounds root id p key value s =
      if (search_record p key).found
      then ok (false, record { pool = s; root_page = root })
      else insert_unless_fits rounds root id key value (btree_insert_leaf_no_split id key value s)

  -- `uninitialised` is what the local `leaf_page` holds where no leaf is reached: the code goes on
  -- with it.
  unfoldable pub insert_reached :
      ℕ → ℕ → Page → Key → List ℕ → Arrival dm → Result BtreeError (Bool × Handle dm)
  insert_reached rounds root uninitialised key value (none, s) =
      insert_in_leaf rounds root invalid_page_id uninitialised key value s
  insert_reached rounds root uninitialised key value (some (id, p), s) =
      insert_in_leaf rounds root id p key value s

  -- `rounds` bounds the levels that the splits climb.
  unfoldable pub btree_insert :
      ℕ → Page → Key → List ℕ → Handle dm → Result BtreeError (Bool × Handle dm)
  btree_insert rounds uninitialised key value th =
      if th.root_page == 0
      then ok (insert_root th.root_page key value (allocate_page dm th.pool))
      else (find_leaf_page dm key th >>= insert_reached rounds th.root_page uninitialised key value)
