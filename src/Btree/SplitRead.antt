-- ===== src/Btree/SplitRead.antt =====
-- What `split_leaf_page` reads, and pages whose header alone was written.
use advance_db.Prelude.{
  ℕ, zero, suc, ◌+◌, ◌/◌, ◌%◌, ◌<◌, ◌≤◌, ◌≡◌, refl, sym, ap, ap₂, ◌∙◌, some, List, [], ◌∷◌, map,
  arith, length, get_elem?, drop, ok, ◌==◌, false, inl,
}
use advance_db.Bytes.{
  Bytes, read_u32, write_u16, write_u32, slice, read_u8-lt, read_u16-lt, read_u16-write_u16,
  read_u16-write_u16_ne,
}
use advance_db.Bytes.Blocks.{
  Agree, AllBelow, read_u16-Agree, read_words, read_words-Agree, length-slice,
}
use advance_db.Page.PageHeader.{Page, page_size, header_size, cell_count, free_start, free_end}
use advance_db.Page.Directory.{slots}
use advance_db.Record.Cell.{record_header_size, key_size, value_size}
use advance_db.Record.Sorted.{Entry}
use advance_db.Record.View.{
  entry, view, offset_at, AllRecords, IsPage, slot_key-eq, slot_value-eq, get-view, length-view,
}
use advance_db.Record.Frame.{
  SameRecords, same_record, map-SameRecords, AllRecords-SameRecords, AllApart-SameRecords,
}
use advance_db.Btree.Split.{record_at, read_records}
use advance_db.Btree.Fill.{AllStored}

pub read_u32-write_u32 : (m : Bytes) (o v : ℕ) → read_u32 (write_u32 m o v) o ≡ v % 4294967296
unfolding read_u32 write_u32
read_u32-write_u32 m o v = omega (
  arith,
  read_u16-write_u16 (write_u16 m o v) (o + 2) (v / 65536),
  read_u16-write_u16_ne (write_u16 m o v) (o + 2) (v / 65536) o (inl (omega arith)),
  read_u16-write_u16 m o v,
)

pub read_u32-lt : (m : Bytes) (o : ℕ) → read_u32 m o < 4294967296
unfolding read_u32
read_u32-lt m o = omega (arith, read_u16-lt m o, read_u16-lt m (o + 2))

pub read_u32-Agree :
    {lo hi : ℕ} {m m' : Bytes} (o : ℕ)
    → Agree lo hi m m'
    → lo ≤ o
    → o + 4 ≤ hi
    → read_u32 m o ≡ read_u32 m' o
unfolding read_u32
read_u32-Agree o a l h = omega (
  arith,
  read_u16-Agree o a (omega arith) (omega arith),
  read_u16-Agree (o + 2) a (omega arith) (omega arith),
)

slice-AllBelow : (m : Bytes) (o n : ℕ) → AllBelow 256 (slice m o n)
unfolding slice
slice-AllBelow m o zero = tt
slice-AllBelow m o (suc n) = (read_u8-lt m o, slice-AllBelow m (o + 1) n)

pub AllStored-AllRecords : (p : Page) (ws : List ℕ) → AllRecords p ws → AllStored (map (entry p) ws)
AllStored-AllRecords p [] r = tt
AllStored-AllRecords p (w ∷ ws) r = (
  record {
    keyed = rw (length-slice p _ _) r.0.keyed;
    key_bytes = slice-AllBelow p _ _;
    value_bytes = slice-AllBelow p _ _;
  },
  AllStored-AllRecords p ws r.1,
)

-- Every value has a byte at least: `slot_value` does not read the others.
abbrev pub AllValued : List Entry → Type 0
AllValued [] = Unit
AllValued (e ∷ es) = (0 < length e.1) × AllValued es

AllValued-get :
    (es : List Entry) (i : ℕ) (e : Entry) → AllValued es → get_elem? es i ≡ some e → 0 < length e.1
AllValued-get [] i e a g = cc
AllValued-get (x ∷ es) zero e a g = ground (arith, a.0)
AllValued-get (x ∷ es) (suc i) e a g = AllValued-get es i e a.1 g

pub drop-get :
    (es : List Entry) (i : ℕ) (e : Entry)
    → get_elem? es i ≡ some e
    → drop i es ≡ e ∷ drop (suc i) es
drop-get [] i e g = cc
drop-get (x ∷ es) zero e g = ground arith
drop-get (x ∷ es) (suc i) e g = drop-get es i e g

pub drop-all : (es : List Entry) (i : ℕ) → length es ≤ i → drop i es ≡ []
drop-all [] zero h = refl
drop-all [] (suc i) h = refl
drop-all (x ∷ es) zero h = absurd (omega arith)
drop-all (x ∷ es) (suc i) h = drop-all es i (omega arith)

module _ (p : Page) (v : IsPage p) (valued : AllValued (view p)) where
  record_at-entry : (i : ℕ) → i < cell_count p → record_at p i ≡ some (entry p (offset_at p i))
  unfolding record_at
  record_at-entry i h =
      let some_value = AllValued-get (view p) i _ valued (get-view p v.framed v.placed i h) in
      let filled : (value_size p (offset_at p i) == 0) ≡ false = ground (
        arith,
        some_value,
        length-slice p (offset_at p i + record_header_size + key_size p (offset_at p i))
            (value_size p (offset_at p i)),
      ) in
      rw
        (
          slot_key-eq p v.framed v.placed i h,
          slot_value-eq p v.framed v.placed i h,
          filled,
          record_at,
        )
        refl

  -- The loop that reads the records reads the page's entries.
  pub read_records-view :
      (n i : ℕ) → i + n ≡ cell_count p → read_records p n i ≡ ok (drop i (view p))
  unfolding read_records
  read_records-view zero i h = ap ok (sym (drop-all (view p) i (omega (arith, length-view p))))
  read_records-view (suc n) i h =
      let here : i < cell_count p = omega arith in
      let next : i + 1 ≡ suc i = omega arith in
      let e = drop-get (view p) i _ (get-view p v.framed v.placed i here) in
      rw (record_at-entry i here, read_records-view n (i + 1) (omega arith), read_records)
        (ap ok (ap (λ k. entry p (offset_at p i) ∷ drop k (view p)) next ∙ sym e))

-- The record reads the same where the bytes behind the header do.
module _ (p q : Page) (counters : Agree 18 24 q p) (body : Agree header_size page_size q p)
    (v : IsPage p) where
  kept : (ws : List ℕ) → AllRecords p ws → SameRecords p q ws
  kept [] r = tt
  kept (w ∷ ws) r = (
    same_record w body (omega (arith, r.0.behind_header))
        (omega (arith, r.0.fits, v.framed.no_overlap, v.framed.directory)),
    kept ws r.1,
  )

  counted : cell_count q ≡ cell_count p
  counted = read_u16-Agree 18 counters (omega arith) (omega arith)

  started : free_start q ≡ free_start p
  started = read_u16-Agree 20 counters (omega arith) (omega arith)

  ended : free_end q ≡ free_end p
  ended = read_u16-Agree 22 counters (omega arith) (omega arith)

  listed : slots q ≡ slots p
  listed =
      ap₂ (read_words q) ended counted
      ∙ read_words-Agree (free_end p) (cell_count p) body
          (omega (arith, v.framed.records_start, v.framed.no_overlap))
          (omega (arith, v.framed.directory))

  -- A page whose counters and body are those of a well-formed page has its entries.
  pub view-Agree : view q ≡ view p
  view-Agree = ap (map (entry q)) listed ∙ map-SameRecords p q (slots p) (kept (slots p) v.placed)

  pub IsPage-Agree : IsPage q
  IsPage-Agree =
      let same = kept (slots p) v.placed in
      record {
        framed = record {
          records_start = omega (arith, started, v.framed.records_start);
          no_overlap = omega (arith, started, ended, v.framed.no_overlap);
          directory = omega (arith, counted, ended, v.framed.directory);
        };
        placed =
            rw listed (AllRecords-SameRecords p q (slots p) same (omega (arith, started)) v.placed);
        apart = rw listed (AllApart-SameRecords p q (slots p) same v.apart);
        sorted = rw view-Agree v.sorted;
      }
