-- ===== src/Record/Packing.antt =====
-- Records that share no byte fit side by side: their sizes add up to no more than the room between
-- the header and `free_start`.
use advance_db.Prelude.{
  ℕ, ◌+◌, ◌-◌, ◌≤◌, ◌≡◌, List, [], ◌∷◌, map, arith, ◌&&◌, leb, if◌then◌else◌, length,
}
use advance_db.Bytes.Blocks.{length-slice}
use advance_db.Page.PageHeader.{Page, header_size, free_start}
use advance_db.Page.Directory.{slots}
use advance_db.Record.Cell.{record_header_size, key_size, value_size}
use advance_db.Record.Sorted.{Entry}
use advance_db.Record.View.{entry, view, size_at, ApartFrom, AllApart, AllRecords, IsPage}

-- The bytes that the records of the entries take.
abbrev pub stored_bytes : Entry → ℕ
stored_bytes e = record_header_size + length e.0 + length e.1

abbrev pub total_bytes : List Entry → ℕ
total_bytes [] = 0
total_bytes (e ∷ es) = stored_bytes e + total_bytes es

abbrev inside : Page → ℕ → ℕ → ℕ → ℕ
inside p lo hi o = if leb lo o && leb (o + size_at p o) hi then size_at p o else 0

-- The sizes of the records that lie within `lo` and `hi`.
abbrev within : Page → ℕ → ℕ → List ℕ → ℕ
within p lo hi [] = 0
within p lo hi (o ∷ os) = inside p lo hi o + within p lo hi os

-- A record divides the others into those before it and those behind it.
within-split :
    (p : Page) (lo hi a : ℕ) (os : List ℕ)
    → ApartFrom p a os
    → within p lo hi os ≤ within p lo a os + within p (a + size_at p a) hi os
within-split p lo hi a [] d = omega arith
within-split p lo hi a (o ∷ os) d = ground (arith, within-split p lo hi a os d.1, d.0)

within-le :
    (p : Page) (os : List ℕ) (lo hi : ℕ) → AllApart p os → lo ≤ hi → within p lo hi os ≤ hi - lo
within-le p [] lo hi d h = omega arith
within-le p (o ∷ os) lo hi d h = ground (
  arith,
  within-le p os lo hi d.1,
  within-split p lo hi o os d.0,
  within-le p os lo o d.1,
  within-le p os (o + size_at p o) hi d.1,
)

within-total :
    (p : Page) (os : List ℕ)
    → AllRecords p os
    → within p header_size (free_start p) os ≡ total_bytes (map (entry p) os)
within-total p [] r = omega arith
within-total p (o ∷ os) r = ground (
  arith,
  within-total p os r.1,
  r.0.behind_header,
  r.0.fits,
  length-slice p (o + record_header_size) (key_size p o),
  length-slice p (o + record_header_size + key_size p o) (value_size p o),
)

pub total_bytes-le : (p : Page) → IsPage p → header_size + total_bytes (view p) ≤ free_start p
total_bytes-le p v = omega (
  arith,
  within-total p (slots p) v.placed,
  within-le p (slots p) header_size (free_start p) v.apart v.framed.records_start,
  v.framed.records_start,
)
