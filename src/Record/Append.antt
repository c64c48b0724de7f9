-- ===== src/Record/Append.antt =====
-- What `write_record` leaves behind: one more record at `free_start`.
use advance_db.Prelude.{
  ℕ, ◌+◌, ◌<◌, ◌≤◌, ◌≡◌, ap₂, ◌∙◌, List, [], ◌∷◌, arith, length, ◌⊎◌, inl, inr,
}
use advance_db.Bytes.{
  write_u8, write_u16, copy, read_u16-lt, read_u16-write_u16, read_u16-write_u16_ne,
}
use advance_db.Bytes.Blocks.{
  Agree, Agree-trans, Agree-write_u8, Agree-write_u16, Agree-copy, AllBelow, read_u16-Agree,
  slice-Agree, slice-copy, read_words, read_words-Agree,
}
use advance_db.Page.PageHeader.{Page, page_size, cell_count, free_start, free_end, set_free_start}
use advance_db.Page.Directory.{IsFramed, slots}
use advance_db.Record.Cell.{
  record_header_size, key_size, value_size, record_size, record_bytes, put_record,
}
use advance_db.Record.Frame.{Agree-shrink, SameRecord, SameRecords, same_record}
use advance_db.Record.View.{entry, IsRecord, AllRecords, ApartFrom}

-- `p'` is `p` with one more record at `free_start`, and the same directory.
pub record Appended (p : Page) (key value : List ℕ) (p' : Page) : Type 0 where
  pub framed : IsFramed p'
  pub start : free_start p' ≡ free_start p + record_header_size + length key + length value
  pub end : free_end p' ≡ free_end p
  pub count : cell_count p' ≡ cell_count p
  pub listed : slots p' ≡ slots p
  pub placed : 0 < length key → IsRecord p' (free_start p)
  pub stored : entry p' (free_start p) ≡ (key, value)
  pub before : Agree 0 20 p' p
  pub records : Agree 24 (free_start p) p' p

module _ (m : Page) (off : ℕ) (key value : List ℕ) where
  pub Agree-record_bytes :
      (lo hi : ℕ)
      → (hi ≤ off) ⊎ (off + record_header_size + length key + length value ≤ lo)
      → Agree lo hi (record_bytes m off key value) m
  unfolding record_bytes
  Agree-record_bytes lo hi s =
      Agree-trans (Agree-copy lo hi _ (off + record_header_size + length key) value (omega arith)) (
        Agree-trans (Agree-copy lo hi _ (off + record_header_size) key (omega arith)) (
          Agree-trans (Agree-write_u16 lo hi _ (off + 3) _ (omega arith)) (
            Agree-trans (Agree-write_u16 lo hi _ (off + 1) _ (omega arith))
              (Agree-write_u8 lo hi m off 0 (omega arith)))))

  pub record_bytes-read :
      length key < 65536
      → length value < 65536
      → AllBelow 256 key
      → AllBelow 256 value
      → (key_size (record_bytes m off key value) off ≡ length key)
        × (value_size (record_bytes m off key value) off ≡ length value)
        × (entry (record_bytes m off key value) off ≡ (key, value))
  unfolding record_bytes
  record_bytes-read kl vl kb vb =
      let p₁ = write_u8 m off 0 in
      let p₂ = write_u16 p₁ (off + 1) (length key) in
      let p₃ = write_u16 p₂ (off + 3) (length value) in
      let p₄ = copy p₃ (off + record_header_size) key in
      let p₅ = copy p₄ (off + record_header_size + length key) value in
      let keyed : Agree 0 (off + record_header_size + length key) p₅ p₄ =
        Agree-copy 0 _ p₄ (off + record_header_size + length key) value (inl (omega arith)) in
      let sized : Agree 0 (off + record_header_size) p₅ p₃ =
        Agree-trans (Agree-shrink 0 (off + record_header_size) keyed (omega arith) (omega arith))
          (Agree-copy 0 _ p₃ (off + record_header_size) key (inl (omega arith))) in
      let k : key_size p₅ off ≡ length key = omega (
        arith,
        read_u16-Agree (off + 1) sized (omega arith) (omega arith),
        read_u16-write_u16_ne p₂ (off + 3) (length value) (off + 1) (inl (omega arith)),
        read_u16-write_u16 p₁ (off + 1) (length key),
      ) in
      let v : value_size p₅ off ≡ length value = omega (
        arith,
        read_u16-Agree (off + 3) sized (omega arith) (omega arith),
        read_u16-write_u16 p₂ (off + 3) (length value),
      ) in
      (
        k,
        v,
        rw (k, v)
            (ap₂ (λ (x y : List ℕ). (x, y))
              (slice-Agree (off + record_header_size) (length key) keyed (omega arith) (omega arith)
                ∙ slice-copy p₃ (off + record_header_size) key kb)
              (slice-copy p₄ (off + record_header_size + length key) value vb)),
      )

pub put_record-Appended :
    (p : Page) (key value : List ℕ)
    → IsFramed p
    → free_start p + record_header_size + length key + length value ≤ free_end p
    → AllBelow 256 key
    → AllBelow 256 value
    → Appended p key value (put_record p key value)
unfolding put_record
put_record-Appended p key value f room kb vb =
    let off = free_start p in
    let body = record_bytes p off key value in
    let next = off + record_size (length key) (length value) in
    let p' = set_free_start body next in
    let low : Agree 0 off body p = Agree-record_bytes p off key value 0 off (inl (omega arith)) in
    let count : cell_count p' ≡ cell_count p =
      read_u16-write_u16_ne body 20 next 18 (inl (omega arith))
      ∙ read_u16-Agree 18 low (omega arith) (omega arith) in
    let end : free_end p' ≡ free_end p =
      read_u16-write_u16_ne body 20 next 22 (inr (omega arith))
      ∙ read_u16-Agree 22 low (omega arith) (omega arith) in
    let start : free_start p' ≡ off + record_header_size + length key + length value =
      omega (arith, read_u16-write_u16 body 20 next, read_u16-lt p 22) in
    let wide = read_u16-lt p 22 in
    let read = record_bytes-read p off key value (omega arith) (omega arith) kb vb in
    let kept : Agree 24 page_size p' body =
      Agree-write_u16 24 page_size body 20 next (inr (omega arith)) in
    let same : SameRecord body p' off =
      same_record off kept (omega arith) (rw (read.0, read.1) (omega arith)) in
    record {
      framed = omega arith;
      start = start;
      end = end;
      count = count;
      listed =
          ap₂ (read_words p') end count
          ∙ read_words-Agree (free_end p) (cell_count p)
              (Agree-trans (Agree-shrink (free_end p) page_size kept (omega arith) (omega arith))
                (Agree-record_bytes p off key value (free_end p) page_size (inr (omega arith))))
              (omega arith) (omega arith);
      placed = λ h. record {
        behind_header = f.records_start;
        keyed = rw (same.key_size_eq, read.0) h;
        fits = rw (same.key_size_eq, read.0, same.value_size_eq, read.1) (omega arith);
      };
      stored = same.entry_eq ∙ read.2;
      before =
          Agree-trans (Agree-write_u16 0 20 body 20 next (inl (omega arith)))
            (Agree-shrink 0 20 low (omega arith) (omega arith));
      records =
          Agree-trans (Agree-shrink 24 off kept (omega arith) (omega arith))
            (Agree-shrink 24 off low (omega arith) (omega arith));
    }

-- The new record is apart from the old ones.
pub ApartFrom-before :
    (p p' : Page) (key value : List ℕ)
    → Appended p key value p'
    → (ws : List ℕ) → SameRecords p p' ws
    → AllRecords p ws
    → ApartFrom p' (free_start p) ws
ApartFrom-before p p' key value a [] s r = tt
ApartFrom-before p p' key value a (w ∷ ws) s r = (
  inr (rw (s.0.key_size_eq, s.0.value_size_eq) (omega (arith, r.0.fits))),
  ApartFrom-before p p' key value a ws s.1 r.1,
)
