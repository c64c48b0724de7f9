-- ===== src/Btree/Siblings.antt =====
-- The neighbours of a leaf, and the removal of a separator: `find_leaf_siblings`,
-- `find_internal_entry_index` and `remove_from_internal` of src/storage/btree/btree.cpp.
use advance_db.Prelude.{
  ℕ, zero, suc, ◌+◌, ◌-◌, ◌%◌, ◌&&◌, Bool, true, false, not, Option, none, some, [], ltb, ◌==◌,
  if◌then◌else◌, length, Ordering, Result, ok, err, ◌>>=◌,
}
use advance_db.Page.PageHeader.{Page, cell_count, leftmost_child, parent_page_id}
use advance_db.Page.SlotHelpers.{remove_slot}
use advance_db.Record.Compare.{memcmp}
use advance_db.Record.Sorted.{Key}
use advance_db.BufferPool.Disk.{DiskManager}
use advance_db.BufferPool.Pool.{Pool, fetch_page, unpin_page}
use advance_db.BufferPool.Visit.{set_page}
use advance_db.Btree.Entry.{
  BtreeError, assertion_failed, is_internal, entry_key_size, entry_key, child_page, entry_offset,
  entry_child, slotted,
}
use advance_db.Btree.Split.{set_leftmost_child}

pub record SiblingInfo : Type 0 where
  pub left_sibling : ℕ
  pub right_sibling : ℕ
  -- The key of the entry that points to the page, and of the one that points to its right sibling.
  pub separator_key : Key
  pub right_separator_key : Key
  pub is_leftmost : Bool
  pub is_rightmost : Bool

abbrev pub no_siblings : SiblingInfo
no_siblings = record {
  left_sibling = 0;
  right_sibling = 0;
  separator_key = [];
  right_separator_key = [];
  is_leftmost = false;
  is_rightmost = false;
}

-- `assert(sep_len <= 256)`
unfoldable pub checked_key : Page → ℕ → Result BtreeError Key
checked_key p off =
    if ltb 256 (entry_key_size p off) then err assertion_failed else ok (entry_key p off)

-- The leaf is the parent's leftmost child.
unfoldable pub leftmost_siblings : Page → Result BtreeError SiblingInfo
leftmost_siblings p =
    if ltb 0 (cell_count p)
    then (entry_offset p 0 >>= λ off. checked_key p off >>= λ key. ok (record no_siblings {
      is_leftmost = true;
      right_sibling = child_page p off;
      right_separator_key = key;
    }))
    else ok (record no_siblings { is_leftmost = true })

-- The sibling before entry `i`.
unfoldable pub left_of : Page → ℕ → Result BtreeError ℕ
left_of p i = if i == 0 then ok (leftmost_child p) else entry_child p (i - 1)

-- The sibling behind entry `i`, if there is one.
unfoldable pub right_of : Page → ℕ → SiblingInfo → Result BtreeError SiblingInfo
right_of p i info =
    if ltb (i + 1) (cell_count p)
    then (entry_offset p (i + 1) >>= λ next.
        ok (record info {
          right_sibling = child_page p next;
          right_separator_key = entry_key p next;
        }))
    else ok (record info { is_rightmost = true })

unfoldable pub siblings_at : Page → ℕ → ℕ → Result BtreeError SiblingInfo
siblings_at p i off = left_of p i >>= λ left.
    right_of p i (record no_siblings { left_sibling = left }) >>= λ info.
    checked_key p off >>= λ key. ok (record info { separator_key = key })

-- The loop over the entries from `i` on, `n` of them.
unfoldable pub siblings_loop : ℕ → Page → ℕ → ℕ → Result BtreeError SiblingInfo
siblings_loop zero p leaf_id i = err assertion_failed
siblings_loop (suc n) p leaf_id i = entry_offset p i >>= λ off.
    if child_page p off == leaf_id then siblings_at p i off else siblings_loop n p leaf_id (i + 1)

unfoldable pub siblings_in : Page → ℕ → Result BtreeError SiblingInfo
siblings_in p leaf_id =
    if leftmost_child p == leaf_id
    then leftmost_siblings p
    else siblings_loop (cell_count p) p leaf_id 0

-- The index is cut to an `int16_t`, and a negative one is none.
unfoldable pub find_entry_from : ℕ → Page → Key → ℕ → Result BtreeError (Option ℕ)
find_entry_from zero p key i = ok none
find_entry_from (suc n) p key i = entry_offset p i >>= λ off.
    if entry_key_size p off == length key
      && elim (memcmp (length key) (entry_key p off) key) [ Ordering.eq ↦ true | _ ↦ false ]
    then ok (if ltb (i % 65536) 32768 then some i else none)
    else find_entry_from n p key (i + 1)

unfoldable pub find_internal_entry_index : Page → Key → Result BtreeError (Option ℕ)
find_internal_entry_index p key = find_entry_from (cell_count p) p key 0

unfoldable pub remove_found : Page → Option ℕ → Result BtreeError (Page × Bool)
remove_found p none = ok (p, false)
remove_found p (some i) = slotted (remove_slot p i) >>= λ q. ok (q, true)

-- What `remove_from_internal` makes of the parent, and whether it is dirty.
unfoldable pub remove_child : Key → ℕ → Page → Result BtreeError (Page × Bool)
remove_child key deleted p =
    if not (is_internal p)
    then ok (p, false)
    else if not (deleted == 0) && leftmost_child p == deleted
    then if ltb 0 (cell_count p)
      then (entry_child p 0 >>= λ first.
          slotted (remove_slot (set_leftmost_child p first) 0) >>= λ q. ok (q, true))
      else ok (set_leftmost_child p 0, true)
    else (find_internal_entry_index p key >>= remove_found p)

module _ (dm : DiskManager) where
  unfoldable pub siblings_of :
      ℕ → ℕ → Option ℕ × Pool dm → Result BtreeError (SiblingInfo × Pool dm)
  siblings_of parent leaf_id (none, s) = ok (no_siblings, s)
  siblings_of parent leaf_id (some f, s) =
      let p = (s.frames f).page in
      if is_internal p
      then (siblings_in p leaf_id >>= λ info. ok (info, (unpin_page dm parent false s).1))
      else ok (no_siblings, s)

  -- The page is a copy of the leaf. A parent that is no internal page stays pinned.
  unfoldable pub find_leaf_siblings : ℕ → Page → Pool dm → Result BtreeError (SiblingInfo × Pool dm)
  find_leaf_siblings leaf_id p s =
      if parent_page_id p == 0
      then ok (record no_siblings { is_leftmost = true; is_rightmost = true }, s)
      else siblings_of (parent_page_id p) leaf_id (fetch_page dm (parent_page_id p) s)

  -- A page is fetched, rewritten in its frame and unpinned; an exception leaves it pinned.
  unfoldable pub attempted :
      ℕ
      → (Page → Result BtreeError (Page × Bool))
      → Option ℕ × Pool dm
      → Result BtreeError (Option Bool × Pool dm)
  attempted id g (none, s) = ok (none, s)
  attempted id g (some f, s) =
      g (s.frames f).page >>= λ r. ok (some r.1, (unpin_page dm id r.1 (set_page dm f r.0 s)).1)

  -- What was dirty, or `none` if the page cannot be fetched.
  unfoldable pub attempt :
      ℕ
      → (Page → Result BtreeError (Page × Bool))
      → Pool dm
      → Result BtreeError (Option Bool × Pool dm)
  attempt id g s = attempted id g (fetch_page dm id s)

  unfoldable pub remove_from_internal : ℕ → Key → ℕ → Pool dm → Result BtreeError (Pool dm)
  remove_from_internal parent key deleted s =
      attempt parent (remove_child key deleted) s >>= λ r. ok r.1
