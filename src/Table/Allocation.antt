-- ===== src/Table/Allocation.antt =====
-- `allocate_page` and `free_page` of src/storage/table.cpp, over the table's buffer pool. Page 1 is
-- the bitmap; `none` is INVALID_PAGE_ID; the
-- handle's pool is there, and pages past the bitmap's end are not freed.
use advance_db.Prelude.{ℕ, zero, suc, ◌+◌, true, false, Option, none, some, ltb, if◌then◌else◌}
use advance_db.Page.PageHeader.{Page}
use advance_db.BufferPool.Disk.{DiskManager}
use advance_db.BufferPool.Visit.{set_page}
use advance_db.BufferPool.Pool.{Pool, fetch_page, unpin_page, flush_page, delete_page}
use advance_db.Table.Bits.{is_allocated, set_allocated, clear_allocated}

-- The bits of the bytes behind the header.
abbrev pub bitmap_bits : ℕ
bitmap_bits = 16064

-- The two loops: the first clear bit among `n` from `id` on, pages 0 to 2 left out.
unfoldable pub find_free : Page → ℕ → ℕ → Option ℕ
find_free bitmap zero id = none
find_free bitmap (suc n) id =
    let rest = find_free bitmap n (id + 1) in
    if ltb id 3 then rest else if is_allocated bitmap id then rest else some id

module _ (dm : DiskManager) where
  -- The page is written, unpinned as dirty, and flushed.
  unfoldable pub store_bitmap : ℕ → Page → Pool dm → Pool dm
  store_bitmap f p s = (flush_page dm 1 (unpin_page dm 1 true (set_page dm f p s)).1).1

  unfoldable pub mark_free : ℕ → Pool dm → Option ℕ → Option ℕ × Pool dm
  mark_free f s none = (none, (unpin_page dm 1 false s).1)
  mark_free f s (some id) = (some id, store_bitmap f (set_allocated (s.frames f).page id) s)

  unfoldable pub allocate_in : Option ℕ × Pool dm → Option ℕ × Pool dm
  allocate_in (none, s) = (none, s)
  allocate_in (some f, s) = mark_free f s (find_free (s.frames f).page bitmap_bits 0)

  unfoldable pub allocate_page : Pool dm → Option ℕ × Pool dm
  allocate_page s = allocate_in (fetch_page dm 1 s)

  unfoldable pub free_in : ℕ → Option ℕ × Pool dm → Pool dm
  free_in id (none, s) = s
  free_in id (some f, s) =
      (delete_page dm id (store_bitmap f (clear_allocated (s.frames f).page id) s)).1

  unfoldable pub free_page : ℕ → Pool dm → Pool dm
  free_page id s = free_in id (fetch_page dm 1 s)
