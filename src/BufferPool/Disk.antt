-- ===== src/BufferPool/Disk.antt =====
-- What the pool uses of `DiskManager` (src/storage/disk_manager.cpp): page-sized reads and writes
-- of a file, either of which may throw. A page's offset is computed in 32 bits, so two pages are
-- apart only below 2^32 / PAGE_SIZE. What the model's page has past its end, which no code reads,
-- goes with it.
use advance_db.Prelude.{ℕ, ◌<◌, ◌≡◌, ◌≢◌, Option, some, Bool, true}
use advance_db.Page.PageHeader.{Page}

abbrev pub disk_pages : ℕ
disk_pages = 2097152

pub record DiskManager : Type 1 where
  pub Disk : Type 0
  -- `none` is an exception.
  pub read_page : Disk → ℕ → Option Page
  -- `false` is an exception, which may leave anything in the page's place.
  pub write_page : Disk → ℕ → Page → Bool × Disk
  pub read-write_self :
      (d : Disk) (i : ℕ) (p : Page)
      → i < disk_pages
      → (write_page d i p).0 ≡ true
      → read_page (write_page d i p).1 i ≡ some p
  pub read-write_ne :
      (d : Disk) (i j : ℕ) (p : Page)
      → i < disk_pages
      → j < disk_pages
      → i ≢ j
      → read_page (write_page d i p).1 j ≡ read_page d j
