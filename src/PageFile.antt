-- ===== src/PageFile.antt =====
-- `DiskManager` of src/storage/disk_manager.cpp: pages in a file, over the system's `lseek`, `read`,
-- `write` and `_commit`, which are an interface with what their documentation promises. Its
-- constructors and destructor, which open and close the file, are calls of the system alone.
-- `long` holds the offsets of pages below 2^20 - 1, whatever its width.
pub mod Reading
pub mod Writing
use advance_db.Prelude.{
  ℕ, zero, suc, ◌+◌, ◌-◌, ◌*◌, ◌%◌, ◌<◌, ◌≤◌, ◌≡◌, Bool, true, false, Option, none, some, List, [],
  ◌∷◌, ◌++◌, length, ltb, ◌==◌, if◌then◌else◌, Result, ok, err, ◌⊎◌,
}
use advance_db.Bytes.{Bytes, read_u8, slice, copy, zeroed}
use advance_db.Page.PageHeader.{Page}

pub record Posix : Type 1 where
  -- A file that is open: its bytes, which are zero behind its end, its size and its offset.
  pub File : Type 0
  pub content : File → Bytes
  pub size : File → ℕ
  pub offset : File → ℕ
  pub past_end : (f : File) (i : ℕ) → size f ≤ i → read_u8 (content f) i ≡ 0
  -- lseek with SEEK_SET and with SEEK_END; `false` and `none` are errors.
  pub lseek_set : ℕ → File → Bool × File
  pub lseek_end : File → Option ℕ × File
  pub set_same : (o : ℕ) (f : File) → content (lseek_set o f).1 ≡ content f
  pub set_offset : (o : ℕ) (f : File) → (lseek_set o f).0 ≡ true → offset (lseek_set o f).1 ≡ o
  pub end_same : (f : File) → content (lseek_end f).1 ≡ content f
  -- A read may be short; it returns nothing only at the end of the file.
  pub read : ℕ → File → Option (List ℕ) × File
  pub read_same : (n : ℕ) (f : File) → content (read n f).1 ≡ content f
  pub read_bytes :
      (n : ℕ) (f : File) (bs : List ℕ)
      → (read n f).0 ≡ some bs
      → (bs ≡ slice (content f) (offset f) (length bs))
        × (length bs ≤ n)
        × (offset (read n f).1 ≡ offset f + length bs)
  pub read_end : (n : ℕ) (f : File) → 0 < n → (read n f).0 ≡ some [] → size f ≤ offset f
  -- A write may be short, and touches no byte outside its range.
  pub write : List ℕ → File → Option ℕ × File
  pub write_all :
      (bs : List ℕ) (f : File) (i : ℕ)
      → (write bs f).0 ≡ some (length bs)
      → read_u8 (content (write bs f).1) i ≡ read_u8 (copy (content f) (offset f) bs) i
  pub write_outside :
      (bs : List ℕ) (f : File) (i : ℕ)
      → (i < offset f) ⊎ (offset f + length bs ≤ i)
      → read_u8 (content (write bs f).1) i ≡ read_u8 (content f) i
  pub commit : File → Bool × File
  pub commit_same : (f : File) → content (commit f).1 ≡ content f

pub data IoError : Type 0 where
  seek_failed read_failed size_failed extend_failed write_failed flush_failed out_of_rounds :
      IoError

-- A function that returns nothing, or throws.
abbrev pub Done : Type 0
Done = Result {0, 0} IoError Unit

-- The product is one of 32 bits.
abbrev pub page_offset : ℕ → ℕ
page_offset id = id * 2048 % 4294967296

-- Every round but the last reads a byte at least.
abbrev pub read_limit : ℕ
read_limit = 2049

module _ (os : Posix) where
  open os use {File, lseek_set, lseek_end, read, write, commit}

  unfoldable pub appended : List ℕ → Result IoError (List ℕ) × File → Result IoError (List ℕ) × File
  appended bs (ok ds, f) = (ok (bs ++ ds), f)
  appended bs (err e, f) = (err e, f)

  -- The loop, `total` bytes after its start: the bytes that are still to come.
  unfoldable pub read_rounds : ℕ → ℕ → File → Result IoError (List ℕ) × File
  read_rounds zero total f = (err out_of_rounds, f)
  read_rounds (suc rounds) total f =
      if ltb total 2048
      then (let r = read (2048 - total) f in
          elim r.0 [
            | none ↦ (err read_failed, r.1)
            | some bs ↦ elim bs [
              | [] ↦ (ok [], r.1)
              | b ∷ cs ↦ appended (b ∷ cs) (read_rounds rounds (total + suc (length cs)) r.1)
            ]
          ])
      else (ok [], f)

  -- What was read, and zeros up to the page's end.
  unfoldable pub page_of : Result IoError (List ℕ) × File → Result IoError Page × File
  page_of (ok bs, f) = (ok (copy zeroed 0 bs), f)
  page_of (err e, f) = (err e, f)

  unfoldable pub read_page : ℕ → File → Result IoError Page × File
  read_page id f =
      let s = lseek_set (page_offset id) f in
      if s.0 then page_of (read_rounds read_limit 0 s.1) else (err seek_failed, s.1)

  -- A byte is written at the page's end when the file is shorter, and the size is committed.
  unfoldable pub extended : ℕ → Option ℕ × File → Done × File
  extended required (none, f) = (err size_failed, f)
  extended required (some current, f) =
      if ltb current required
      then (let s = lseek_set (required - 1) f in
          let w = write (0 ∷ []) s.1 in
          if s.0
          then elim w.0 [
            | none ↦ (err extend_failed, w.1)
            | some n ↦ if n == 1 then (ok tt, (commit w.1).1) else (err extend_failed, w.1)
          ]
          else (err seek_failed, s.1))
      else (ok tt, f)

  -- The bytes are written at `o`.
  unfoldable pub write_at : ℕ → List ℕ → File → Done × File
  write_at o bs f =
      let s = lseek_set o f in
      let w = write bs s.1 in
      if s.0
      then elim w.0 [
        | none ↦ (err write_failed, w.1)
        | some n ↦ if n == length bs then (ok tt, (commit w.1).1) else (err write_failed, w.1)
      ]
      else (err seek_failed, s.1)

  unfoldable pub write_after : ℕ → List ℕ → Done × File → Done × File
  write_after o bs (ok u, f) = write_at o bs f
  write_after o bs (err e, f) = (err e, f)

  unfoldable pub write_page : ℕ → Page → File → Done × File
  write_page id p f =
      let o = page_offset id in write_after o (slice p 0 2048) (extended (o + 2048) (lseek_end f))

  unfoldable pub flush : File → Done × File
  flush f = let c = commit f in if c.0 then (ok tt, c.1) else (err flush_failed, c.1)
