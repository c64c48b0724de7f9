-- ===== src/Table/Fresh.antt =====
-- A table that was created and opened is an empty tree over a bitmap with three marks.
use advance_db.Prelude.{
  ℕ, zero, suc, ◌+◌, ◌/◌, ◌%◌, ◌<◌, ◌≤◌, ◌≡◌, ◌≢◌, refl, ap, ◌∙◌, Bool, true, false, some, List, [],
  ◌∷◌, arith, ltb, Bool-cases, inl, inr,
}
use advance_db.Bytes.{read_u8, read_u16, read_u32, write_u8, write_u16, write_u32}
use advance_db.Page.PageHeader.{
  Page, header_size, root_page, meta, data_page, none_level, leaf, init_page,
}
use advance_db.BufferPool.Disk.{DiskManager, disk_pages}
use advance_db.Table.Bits.{test_bit, is_allocated, set_allocated, is_allocated-set_allocated}
use advance_db.Table.Files.{first_bitmap, first_pages, write_pages}
use advance_db.Btree.Split.{set_root_page}

test_bit-zero : (k : ℕ) → test_bit 0 k ≡ false
unfolding test_bit
test_bit-zero zero = refl
test_bit-zero (suc k) = test_bit-zero k

module _ (old : Page) where
  init_page-zero : (o : ℕ) → 40 ≤ o → read_u8 (init_page old 1 meta none_level) o ≡ 0
  unfolding init_page read_u8 write_u8 write_u16 write_u32
  init_page-zero o h = ground arith

  pub first_bitmap-marks :
      (j : ℕ) → is_allocated (first_bitmap (init_page old 1 meta none_level)) j ≡ ltb j 3
  first_bitmap-marks j =
      let p = init_page old 1 meta none_level in
      let clear : is_allocated p j ≡ false =
        rw (init_page-zero (header_size + j / 8) (omega arith)) (test_bit-zero (j % 8)) in
      ground (
        arith,
        clear,
        is_allocated-set_allocated p 0 j,
        is_allocated-set_allocated (set_allocated p 0) 1 j,
        is_allocated-set_allocated (set_allocated (set_allocated p 0) 1) 2 j,
      )

  pub first_root : root_page (set_root_page (init_page old 0 meta none_level) 2) ≡ 2
  unfolding init_page read_u32 read_u16 read_u8 write_u8 write_u16 write_u32
  first_root = refl

module _ (dm : DiskManager) where
  open dm use {Disk, read_page, write_page, read-write_self, read-write_ne}

  -- The writes are to other pages than `j`, on pages that the disk has.
  abbrev AreOthers : ℕ → List (ℕ × Page) → Type 0
  AreOthers j [] = Unit
  AreOthers j (w ∷ ws) = (w.0 < disk_pages) × (w.0 ≢ j) × AreOthers j ws

  write_pages-other :
      (j : ℕ) (ws : List (ℕ × Page)) (d : Disk)
      → j < disk_pages
      → AreOthers j ws
      → read_page (write_pages dm ws d).1 j ≡ read_page d j
  unfolding write_pages
  write_pages-other j [] d h o = refl
  write_pages-other j ((i, p) ∷ ws) d h (small, apart, o) =
      let r = write_page d i p in
      let first = read-write_ne d i j p small h apart in
      elim (Bool-cases r.0) [
        | inl done ↦ rw done (write_pages-other j ws r.1 h o ∙ first)
        | inr threw ↦ rw threw first
      ]

  write_pages-first :
      (i : ℕ) (p : Page) (ws : List (ℕ × Page)) (d : Disk)
      → i < disk_pages
      → AreOthers i ws
      → (write_pages dm ((i, p) ∷ ws) d).0 ≡ true
      → (read_page (write_pages dm ((i, p) ∷ ws) d).1 i ≡ some p)
        × ((write_pages dm ((i, p) ∷ ws) d) ≡ write_pages dm ws (write_page d i p).1)
        × ((write_pages dm ws (write_page d i p).1).0 ≡ true)
  unfolding write_pages
  write_pages-first i p ws d h o e =
      let r = write_page d i p in
      elim (Bool-cases r.0) [
        | inr threw ↦ absurd (ground (arith, threw, e))
        | inl done ↦
            let rest : (write_pages dm ws r.1).0 ≡ true = ground (arith, done, e) in
            rw done (write_pages-other i ws r.1 h o ∙ read-write_self d i p h done, refl, rest)
      ]

  -- The disk has the three pages of a new table.
  pub record HasFirstPages (old : Page) (d : Disk) : Type 0 where
    pub meta_page : read_page d 0 ≡ some (set_root_page (init_page old 0 meta none_level) 2)
    pub bitmap : read_page d 1 ≡ some (first_bitmap (init_page old 1 meta none_level))
    pub root : read_page d 2 ≡ some (init_page old 2 data_page leaf)

  pub write_pages-HasFirstPages :
      (old : Page) (d : Disk)
      → (write_pages dm (first_pages old) d).0 ≡ true
      → HasFirstPages old (write_pages dm (first_pages old) d).1
  unfolding first_pages
  write_pages-HasFirstPages old d e =
      let (zeroth, run, e₁) =
        write_pages-first 0 _ _ d (omega arith)
          (omega arith, omega arith, (omega arith, omega arith, tt)) e in
      let (first, run₁, e₂) =
        write_pages-first 1 _ _ _ (omega arith) (omega arith, omega arith, tt) e₁ in
      let (second, run₂, e₃) = write_pages-first 2 _ [] _ (omega arith) tt e₂ in
      record {
        meta_page = zeroth;
        bitmap = ap (λ (r : Bool × Disk). read_page r.1 1) run ∙ first;
        root = ap (λ (r : Bool × Disk). read_page r.1 2) (run ∙ run₁) ∙ second;
      }
