-- ===== src/Btree/Handle.antt =====
-- The walk down the tree: `find_leaf_page` and `find_leftmost_leaf_page` of
-- src/storage/btree/leaf.cpp, and `btree_search` of src/storage/btree/btree.cpp. The handle's pool
-- is there; UINT32_MAX is `none`, and comes without a page. An operation threads the handle's pool.
use advance_db.Prelude.{
  ℕ, zero, suc, ◌||◌, Bool, Option, none, some, List, leb, ◌==◌, if◌then◌else◌, Result, ok, err,
  ◌>>=◌,
}
use advance_db.Page.PageHeader.{Page, page_level, page_level_code, leaf, leftmost_child}
use advance_db.BufferPool.Disk.{DiskManager}
use advance_db.BufferPool.Pool.{Pool}
use advance_db.BufferPool.Visit.{peek}
use advance_db.Record.Delete.{lookup, nonempty}
use advance_db.Btree.Entry.{BtreeError, is_internal, internal_find_child, max_page}

abbrev pub is_leaf : Page → Bool
is_leaf p = page_level p == page_level_code leaf

-- Where the next round goes: to a page's copy, to another page, or nowhere.
pub data Turn : Type 0 where
  arrived : Turn
  onward : ℕ → Turn
  lost : Turn

-- The child that `internal_find_child` returned, if the loop follows it.
abbrev pub follow : ℕ → Turn
follow child = if child == 0 || leb max_page child then lost else onward child

-- A round of `find_leaf_page` on a page.
unfoldable pub turn : List ℕ → Page → Result BtreeError Turn
turn key p =
    if is_leaf p then ok arrived else (internal_find_child p key >>= λ child. ok (follow child))

-- A round of `find_leftmost_leaf_page`, whose test on the next page is for 0 alone.
unfoldable pub leftmost_turn : Page → Result BtreeError Turn
leftmost_turn p =
    if is_leaf p
    then ok arrived
    else if is_internal p
    then ok (if leftmost_child p == 0 then lost else onward (leftmost_child p))
    else ok lost

-- `depth` runs from 0 to 100.
abbrev pub max_rounds : ℕ
max_rounds = 101

module _ (dm : DiskManager) where
  pub record Handle : Type 0 where
    pub pool : Pool dm
    pub root_page : ℕ

  -- A leaf and its copy, and the pool.
  abbrev pub Arrival : Type 0
  Arrival = Option (ℕ × Page) × Pool dm

  -- The loop, with a round on a page as an argument; the fuel is the rounds that `depth` leaves.
  unfoldable pub descend :
      (Page → Result BtreeError Turn) → ℕ → ℕ → Pool dm → Result BtreeError Arrival
  descend next zero id s = ok (none, s)
  descend next (suc rounds) id s =
      let t = (peek dm id s).1 in
      elim (peek dm id s).0 [
        | none ↦ ok (none, t)
        | some p ↦ elim (next p) [
          | err e ↦ err e
          | ok arrived ↦ ok (some (id, p), t)
          | ok (onward child) ↦ descend next rounds child t
          | ok lost ↦ ok (none, t)
        ]
      ]

  unfoldable pub find_leaf_page : List ℕ → Handle → Result BtreeError Arrival
  find_leaf_page key th = descend (turn key) max_rounds th.root_page th.pool

  unfoldable pub find_leftmost_leaf_page : Handle → Result BtreeError Arrival
  find_leftmost_leaf_page th =
      if th.root_page == 0
      then ok (none, th.pool)
      else descend leftmost_turn max_rounds th.root_page th.pool

  -- The search in the leaf that was reached.
  unfoldable pub search_leaf : List ℕ → Arrival → Option (List ℕ) × Pool dm
  search_leaf key (none, s) = (none, s)
  search_leaf key (some (id, p), s) = (nonempty (lookup p key), s)

  -- The value that `btree_search` assigns, where it returns true.
  unfoldable pub btree_search : List ℕ → Handle → Result BtreeError (Option (List ℕ) × Pool dm)
  btree_search key th =
      if th.root_page == 0
      then ok (none, th.pool)
      else (find_leaf_page key th >>= λ a. ok (search_leaf key a))
