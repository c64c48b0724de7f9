-- ===== src/Btree/Delete.antt =====
-- `btree_delete` of src/storage/btree/btree.cpp. A sibling that is unpinned before the merge is
-- still used through its frame.
use advance_db.Prelude.{
  ℕ, ◌&&◌, Bool, true, false, not, Option, none, some, ◌==◌, if◌then◌else◌, Result, ok, err, ◌>>=◌,
}
use advance_db.Page.PageHeader.{Page, cell_count, parent_page_id}
use advance_db.Record.Cell.{search_record, page_delete}
use advance_db.Record.Sorted.{Key}
use advance_db.BufferPool.Disk.{DiskManager}
use advance_db.BufferPool.Pool.{Pool, fetch_page, unpin_page}
use advance_db.BufferPool.Visit.{peek, modify}
use advance_db.Table.Allocation.{free_page}
use advance_db.Btree.Entry.{BtreeError, slot_error}
use advance_db.Btree.Handle.{Handle, Arrival, find_leaf_page}
use advance_db.Btree.Split.{set_root_page, set_leftmost_child}
use advance_db.Btree.Parent.{page_in}
use advance_db.Btree.Siblings.{SiblingInfo, attempt, find_leaf_siblings, remove_from_internal}
use advance_db.Btree.Merge.{
  is_page_underutilized, can_merge_pages, update_leaf_links_on_free, merge_leaf_pages,
}

unfoldable pub delete_in : Key → Page → Result BtreeError (Page × Bool)
delete_in key p = elim (page_delete p key) [ ok r ↦ ok r | err e ↦ err (slot_error e) ]

module _ (dm : DiskManager) where
  -- The merge of underutilised leaves: the call is over, or it goes on with the leaf's copy.
  pub data Progress : Type 0 where
    finished : Pool dm → Progress
    continuing : Page → Pool dm → Progress

  abbrev pub unpin_clean : ℕ → Pool dm → Pool dm
  unpin_clean id s = (unpin_page dm id false s).1

  -- The leaf's copy is read again.
  unfoldable pub reread : Page → Option Page × Pool dm → Progress
  reread p (none, s) = continuing p s
  reread p (some q, s) = continuing q s

  unfoldable pub merged_right : ℕ → ℕ → SiblingInfo → Page × Pool dm → Result BtreeError Progress
  merged_right parent leaf_id info (p, s) =
      remove_from_internal dm parent info.right_separator_key info.right_sibling
        (unpin_clean info.right_sibling s)
      >>= λ t. ok (reread p (peek dm leaf_id t))

  unfoldable pub right_fetched :
      ℕ → Page → SiblingInfo → Option ℕ × Pool dm → Result BtreeError Progress
  right_fetched leaf_id p info (none, s) = ok (continuing p s)
  right_fetched leaf_id p info (some f, s) =
      if can_merge_pages p (page_in dm f s)
      then (merge_leaf_pages dm none leaf_id p info.right_sibling (page_in dm f s) s
          >>= merged_right (parent_page_id p) leaf_id info)
      else ok (continuing p (unpin_clean info.right_sibling s))

  unfoldable pub try_right : ℕ → Page → SiblingInfo → Pool dm → Result BtreeError Progress
  try_right leaf_id p info s =
      if info.right_sibling == 0
      then ok (continuing p s)
      else right_fetched leaf_id p info (fetch_page dm info.right_sibling s)

  unfoldable pub left_fetched :
      ℕ → Page → SiblingInfo → Option ℕ × Pool dm → Result BtreeError Progress
  left_fetched leaf_id p info (none, s) = try_right leaf_id p info s
  left_fetched leaf_id p info (some f, s) =
      if can_merge_pages (page_in dm f s) p
      then (merge_leaf_pages dm (some f) info.left_sibling (page_in dm f s) leaf_id p s >>= λ r.
          remove_from_internal dm (parent_page_id p) info.separator_key leaf_id
            (unpin_clean info.left_sibling r.1)
          >>= λ t. ok (finished t))
      else try_right leaf_id p info (unpin_clean info.left_sibling s)

  unfoldable pub try_left : ℕ → Page → SiblingInfo × Pool dm → Result BtreeError Progress
  try_left leaf_id p (info, s) =
      if info.left_sibling == 0
      then try_right leaf_id p info s
      else left_fetched leaf_id p info (fetch_page dm info.left_sibling s)

  unfoldable pub try_merge : ℕ → Page → Pool dm → Result BtreeError Progress
  try_merge leaf_id p s =
      if is_page_underutilized p
      then (find_leaf_siblings dm leaf_id p s >>= try_left leaf_id p)
      else ok (continuing p s)

  -- An empty leaf takes the right sibling's records.
  unfoldable pub take_right :
      ℕ → Page → SiblingInfo → Option ℕ × Pool dm → Result BtreeError (Pool dm)
  take_right leaf_id p info (none, s) =
      remove_from_internal dm (parent_page_id p) info.right_separator_key info.right_sibling s
  take_right leaf_id p info (some f, s) =
      let t = unpin_clean info.right_sibling s in
      merge_leaf_pages dm none leaf_id p info.right_sibling (page_in dm f t) t >>= λ r.
      remove_from_internal dm (parent_page_id p) info.right_separator_key info.right_sibling r.1

  -- An empty leaf goes into the left sibling.
  unfoldable pub give_left :
      ℕ → Page → SiblingInfo → Option ℕ × Pool dm → Result BtreeError (Pool dm)
  give_left leaf_id p info (none, s) =
      remove_from_internal dm (parent_page_id p) info.separator_key leaf_id s
  give_left leaf_id p info (some f, s) =
      let t = unpin_clean info.left_sibling s in
      merge_leaf_pages dm (some f) info.left_sibling (page_in dm f t) leaf_id p t >>= λ r.
      remove_from_internal dm (parent_page_id p) info.separator_key leaf_id r.1

  -- The links around the leaf, then the leaf.
  unfoldable pub drop_leaf : ℕ → Page → Pool dm → Pool dm
  drop_leaf leaf_id p s = free_page dm leaf_id (update_leaf_links_on_free dm p s)

  unfoldable pub drain : ℕ → Page → SiblingInfo × Pool dm → Result BtreeError (Pool dm)
  drain leaf_id p (info, s) =
      if info.is_leftmost && info.right_sibling == 0
      then ok (drop_leaf leaf_id p (modify dm (parent_page_id p) (λ q. set_leftmost_child q 0) s))
      else if info.is_leftmost
      then take_right leaf_id p info (fetch_page dm info.right_sibling s)
      else if not (info.left_sibling == 0)
      then give_left leaf_id p info (fetch_page dm info.left_sibling s)
      else if not (info.right_sibling == 0)
      then take_right leaf_id p info (fetch_page dm info.right_sibling s)
      else ok (drop_leaf leaf_id p s)

  unfoldable pub drain_if_empty : ℕ → Progress → Result BtreeError (Pool dm)
  drain_if_empty leaf_id (finished s) = ok s
  drain_if_empty leaf_id (continuing p s) =
      if cell_count p == 0 then (find_leaf_siblings dm leaf_id p s >>= drain leaf_id p) else ok s

  -- The leaf is the root: its last record takes the tree with it.
  unfoldable pub delete_root : ℕ → ℕ → Page → Pool dm → Handle dm
  delete_root root leaf_id p s =
      if cell_count p == 0
      then record {
        pool = drop_leaf leaf_id p (modify dm 0 (λ m. set_root_page m 0) s);
        root_page = 0;
      }
      else record { pool = s; root_page = root }

  -- The record is deleted; what follows is for the leaf's size.
  unfoldable pub rebalance : ℕ → ℕ → Option Page × Pool dm → Result BtreeError (Bool × Handle dm)
  rebalance root leaf_id (none, s) = ok (false, record { pool = s; root_page = root })
  rebalance root leaf_id (some p, s) =
      if parent_page_id p == 0
      then ok (true, delete_root root leaf_id p s)
      else (try_merge leaf_id p s >>= drain_if_empty leaf_id >>= λ t.
          ok (true, record { pool = t; root_page = root }))

  unfoldable pub deleted_record :
      ℕ → ℕ → Option Bool × Pool dm → Result BtreeError (Bool × Handle dm)
  deleted_record root leaf_id (none, s) = ok (false, record { pool = s; root_page = root })
  deleted_record root leaf_id (some false, s) = ok (false, record { pool = s; root_page = root })
  deleted_record root leaf_id (some true, s) = rebalance root leaf_id (peek dm leaf_id s)

  unfoldable pub delete_reached : ℕ → Key → Arrival dm → Result BtreeError (Bool × Handle dm)
  delete_reached root key (none, s) = ok (false, record { pool = s; root_page = root })
  delete_reached root key (some (leaf_id, p), s) =
      if (search_record p key).found
      then (attempt dm leaf_id (delete_in key) s >>= deleted_record root leaf_id)
      else ok (false, record { pool = s; root_page = root })

  unfoldable pub btree_delete : Key → Handle dm → Result BtreeError (Bool × Handle dm)
  btree_delete key th =
      if th.root_page == 0
      then ok (false, th)
      else (find_leaf_page dm key th >>= delete_reached th.root_page key)
