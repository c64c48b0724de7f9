-- ===== src/Table/Files.antt =====
-- `open_table` and `create_table` of src/storage/table.cpp, over the file system, whose calls are an
-- interface: `stat`, `_mkdir`, and what `DiskManager` (src/storage/disk_manager.cpp) does to open
-- and close a file.
use advance_db.Prelude.{
  ℕ, ◌≡◌, Bool, true, false, Option, none, some, List, [], ◌∷◌, ◌++◌, String, if◌then◌else◌,
}
use advance_db.Page.PageHeader.{Page, root_page, meta, data_page, none_level, leaf, init_page}
use advance_db.BufferPool.Disk.{DiskManager}
use advance_db.BufferPool.Pool.{Pool, new_pool, flush_all}
use advance_db.BufferPool.Visit.{peek}
use advance_db.Btree.Split.{set_root_page}
use advance_db.Table.Bits.{set_allocated}

-- The frames of a pool, where the code names no other number.
abbrev pub buffer_pool_size : ℕ
buffer_pool_size = 128

abbrev pub data_directory : String
data_directory = 100 ∷ 97 ∷ 116 ∷ 97 ∷ []

-- "data/" + name + ".db"
abbrev pub table_path : String → String
table_path name = data_directory ++ 47 ∷ name ++ 46 ∷ 100 ∷ 98 ∷ []

-- The bitmap's page, with pages 0 to 2 marked.
abbrev pub first_bitmap : Page → Page
first_bitmap p = set_allocated (set_allocated (set_allocated p 0) 1) 2

-- The first three pages of a file. `old` is the memory of a page before `init_page`.
unfoldable pub first_pages : Page → List (ℕ × Page)
first_pages old =
    (0, set_root_page (init_page old 0 meta none_level) 2)
    ∷ (1, first_bitmap (init_page old 1 meta none_level))
    ∷ (2, init_page old 2 data_page leaf)
    ∷ []

module _ (dm : DiskManager) where
  open dm use {Disk, write_page}

  pub record FileSystem : Type 1 where
    pub State : Type 0
    -- stat returns 0
    pub stat : String → State → Bool
    -- `false` is an error other than EEXIST.
    pub mkdir : String → State → Bool × State
    -- open with O_CREAT; `none` is an exception.
    pub open_file : String → State → Option Disk × State
    pub flush : Disk → Bool × Disk
    -- The file is closed with the contents that the disk has.
    pub close : String → Disk → State → State
    pub stat-close : (path : String) (d : Disk) (s : State) → stat path (close path d s) ≡ true
    pub open-close :
        (path : String) (d d' : Disk) (s : State)
        → (open_file path (close path d s)).0 ≡ some d'
        → d' ≡ d
    pub flush-same : (d : Disk) → (flush d).1 ≡ d

  pub record TableHandle : Type 0 where
    pub table_name : String
    pub file_path : String
    pub bpm : Option (Pool dm)
    pub root_page : ℕ

  -- The writes, up to the first that throws.
  unfoldable pub write_pages : List (ℕ × Page) → Disk → Bool × Disk
  write_pages [] d = (true, d)
  write_pages ((i, p) ∷ ps) d =
      let r = write_page d i p in
      let rest = write_pages ps r.1 in if r.0 then rest else (false, r.1)

  module _ (fs : FileSystem) where
    open fs use {State, stat, mkdir, open_file, flush, close}

    -- The writes and `dm.flush()` on the file that was opened, and its closing, exception or not.
    unfoldable pub write_file : String → Page → Option Disk × State → Bool × State
    write_file path old (none, s) = (false, s)
    write_file path old (some d, s) =
        let w = write_pages (first_pages old) d in
        let f = flush w.1 in if w.0 then (f.0, close path f.1 s) else (false, close path w.1 s)

    unfoldable pub make_file : String → Page → Bool × State → Bool × State
    make_file path old (false, s) = (false, s)
    make_file path old (true, s) = write_file path old (open_file path s)

    unfoldable pub create_table : String → Page → State → Bool × State
    create_table name old s =
        let path = table_path name in
        if stat path s then (false, s) else make_file path old (mkdir data_directory s)

    -- The pool that the handle had is destroyed after `th.dm` is the new file, and flushes its
    -- pages, `ids` in the order of its map, into that file.
    unfoldable pub retire : List ℕ → Option (Pool dm) → Disk → Disk
    retire ids none d = d
    retire ids (some old) d = (flush_all dm ids (record old { disk = d })).disk

    -- Page 0 was copied out, or could not be fetched.
    unfoldable pub with_root : TableHandle → Option Page × Pool dm → Bool × TableHandle
    with_root th (none, s) = (false, record th { bpm = some s })
    with_root th (some p, s) = (true, record th { bpm = some s; root_page = root_page p })

    unfoldable pub opened :
        List ℕ → Page → TableHandle → Option Disk × State → (Bool × TableHandle) × State
    opened ids memory th (none, s) = ((false, th), s)
    opened ids memory th (some d, s) =
        let pool = new_pool dm buffer_pool_size memory (retire ids th.bpm d) in
        (with_root th (peek dm 0 pool), s)

    -- `memory` is what the new pool's frames hold.
    unfoldable pub open_table :
        List ℕ → Page → String → TableHandle → State → (Bool × TableHandle) × State
    open_table ids memory name th s =
        let path = table_path name in
        let named = record th { table_name = name; file_path = path } in
        if stat path s then opened ids memory named (open_file path s) else ((false, named), s)
