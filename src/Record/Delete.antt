-- ===== src/Record/Delete.antt =====
-- `page_delete` takes an entry out of the sorted entries; a lookup reads the value of a key.
use Prim.Native.Nat.{bit_or}
use advance_db.Prelude.{
  ℕ, ◌+◌, ◌<◌, ◌≤◌, ◌≡◌, refl, sym, ap, ap₂, ◌∙◌, true, false, List, [], ◌∷◌, map, Option, none,
  some, arith, length, erase_at, ok, Bool-cases, inl, inr, ◌==◌, if◌then◌else◌,
}
use advance_db.Bytes.{read_u16, write_u8}
use advance_db.Bytes.Blocks.{
  Agree, Agree-trans, Agree-write_u8, read_u16-Agree, length-slice, read_words, read_words-Agree,
}
use advance_db.Page.PageHeader.{Page, header_size, page_size, cell_count, free_start, free_end}
use advance_db.Page.SlotHelpers.{slot_ptr, remove_slot}
use advance_db.Page.Directory.{IsFramed, slots}
use advance_db.Page.Rewrite.{remove_slot-Rewritten}
use advance_db.Record.Cell.{
  record_deleted, flags, slot_value, search_record, delete_at, page_delete,
}
use advance_db.Record.Sorted.{
  Key, keys, position, find, remove, remove-erase_at, remove-absent, remove-IsSorted, find-get,
  find-absent, position-lt_of_found,
}
use advance_db.Record.View.{
  entry, view, offset_at, size_at, ApartFrom, IsPage, get-slots, IsRecord-offset_at, slot_ptr-eq,
  slot_value-eq, get-view,
}
use advance_db.Record.Search.{search_record-position, length-keys}
use advance_db.Record.Frame.{
  SameRecords, same_record, kept_records, map-SameRecords, AllRecords-SameRecords,
  AllApart-SameRecords, AllRecords-erase_at, AllApart-erase_at, ApartFrom-others, map-erase_at,
}

-- Setting the flag byte of the record at `off` changes the meaning of no record.
module _ (p : Page) (off b : ℕ) (f : IsFramed p) (behind : header_size ≤ off)
    (front : off < free_start p) where
  abbrev flagged : Page
  flagged = write_u8 p off b

  low : Agree 0 header_size flagged p
  low = Agree-write_u8 0 header_size p off b (inl (omega arith))

  flagged-count : cell_count flagged ≡ cell_count p
  flagged-count = read_u16-Agree 18 low (omega arith) (omega arith)

  flagged-start : free_start flagged ≡ free_start p
  flagged-start = read_u16-Agree 20 low (omega arith) (omega arith)

  flagged-end : free_end flagged ≡ free_end p
  flagged-end = read_u16-Agree 22 low (omega arith) (omega arith)

  flagged-slots : slots flagged ≡ slots p
  flagged-slots =
      ap₂ (read_words flagged) flagged-end flagged-count
      ∙ read_words-Agree (free_end p) (cell_count p)
          (Agree-write_u8 (free_end p) page_size p off b (inr (omega arith))) (omega arith)
          (omega arith)

  flagged-IsFramed : IsFramed flagged
  flagged-IsFramed = ground (arith, flagged-count, flagged-start, flagged-end)

  -- The records apart from the one at `off` read the same.
  flagged-SameRecords :
      (ws : List ℕ) → 0 < size_at p off → ApartFrom p off ws → SameRecords p flagged ws
  flagged-SameRecords [] h a = tt
  flagged-SameRecords (w ∷ ws) h a = (
    same_record {lo = w + 1} {hi = w + size_at p w} w
        (Agree-write_u8 (w + 1) (w + size_at p w) p off b (omega (arith, a.0))) (omega arith)
        (omega arith),
    flagged-SameRecords ws h a.1,
  )

delete_at-ok :
    (p q : Page) (i slot : ℕ)
    → slot_ptr p i ≡ some slot
    → (let off = read_u16 p slot in
        remove_slot (write_u8 p off (bit_or (flags p off) record_deleted)) i)
      ≡ ok q
    → delete_at p i ≡ ok (q, true)
unfolding delete_at
delete_at-ok p q i slot there run = rw (there, delete_at, run)

-- The read that follows a search: `search_record`, then `slot_value` of the index found.
abbrev pub lookup : Page → Key → Option (List ℕ)
lookup p key =
    if (search_record p key).found then slot_value p (search_record p key).index else none

abbrev pub nonempty : Option (List ℕ) → Option (List ℕ)
nonempty none = none
nonempty (some x) = if length x == 0 then none else some x

module _ (p : Page) (key : Key) (v : IsPage p) where
  -- On a well-formed page, `page_delete` of a key that is there succeeds: the page stays well
  -- formed, its entries are the old ones without that key's, and the first 18 bytes of the
  -- header are kept.
  pub page_delete-remove :
      (position key (keys (view p))).found ≡ true
      → (q : Page) × (page_delete p key ≡ ok (q, true))
        × IsPage q
        × (view q ≡ remove key (view p))
        × Agree 0 18 q p
  unfolding page_delete
  page_delete-remove found =
      let i = (position key (keys (view p))).index in
      let h : i < cell_count p =
        omega (arith, position-lt_of_found key (keys (view p)) found, length-keys p key v) in
      let off = offset_at p i in
      let r = IsRecord-offset_at p v.framed v.placed i h in
      let front : off < free_start p = omega (arith, r.fits, r.keyed) in
      let b = bit_or (flags p off) record_deleted in
      let p₁ = write_u8 p off b in
      let f₁ = flagged-IsFramed p off b v.framed r.behind_header front in
      let start = flagged-start p off b v.framed r.behind_header front in
      let count = flagged-count p off b v.framed r.behind_header front in
      let (q, run, w) = remove_slot-Rewritten p₁ i f₁ (rw count h) in
      let ws = erase_at i (slots p) in
      let others = ApartFrom-others p (slots p) i off v.apart (get-slots p v.framed v.placed i h) in
      let same =
        flagged-SameRecords p off b v.framed r.behind_header front ws (omega arith) others in
      let all =
        AllRecords-SameRecords p p₁ ws same (omega arith)
          (AllRecords-erase_at p i (slots p) v.placed) in
      let apart = AllApart-SameRecords p p₁ ws same (AllApart-erase_at p i (slots p) v.apart) in
      let listed : slots q ≡ ws =
        w.listed ∙ ap (erase_at i) (flagged-slots p off b v.framed r.behind_header front) in
      let new = kept_records {p = p₁} {p' = q} ws w.records all in
      let seen : view q ≡ remove key (view p) =
        ap (map (entry q)) listed
        ∙ map-SameRecords p₁ q ws new
        ∙ map-SameRecords p p₁ ws same
        ∙ map-erase_at (entry p) i (slots p)
        ∙ sym (remove-erase_at key (view p) found) in
      (
        q,
        rw (search_record-position p key v, found)
            (delete_at-ok p q i _ (slot_ptr-eq p v.framed v.placed i h) run),
        record {
          framed = w.framed;
          placed = rw listed (AllRecords-SameRecords p₁ q ws new (omega (arith, w.start)) all);
          apart = rw listed (AllApart-SameRecords p₁ q ws new apart);
          sorted = rw seen (remove-IsSorted key (view p) v.sorted);
        },
        seen,
        Agree-trans w.before (Agree-write_u8 0 18 p off b (inl (omega arith))),
      )

  -- On a well-formed page, `page_delete` of a key that is not there reports so and returns the
  -- page as it was, as the removal from its entries does.
  pub page_delete-absent :
      (position key (keys (view p))).found ≡ false
      → (page_delete p key ≡ ok (p, false)) × (remove key (view p) ≡ view p)
  unfolding page_delete
  page_delete-absent absent =
      (rw (search_record-position p key v, absent), remove-absent key (view p) absent)

  -- On a well-formed page, `search_record` and then `slot_value` return the value of the key
  -- among the page's entries, but an empty value reads as absent.
  pub lookup-find : lookup p key ≡ nonempty (find key (view p))
  lookup-find = elim (Bool-cases (position key (keys (view p))).found) [
    | inr absent ↦ rw (search_record-position p key v, absent, find-absent key (view p) absent) refl
    | inl found ↦
        let i = (position key (keys (view p))).index in
        let h : i < cell_count p =
          omega (arith, position-lt_of_found key (keys (view p)) found, length-keys p key v) in
        let got = get-view p v.framed v.placed i h in
        rw (
          search_record-position p key v,
          found,
          slot_value-eq p v.framed v.placed i h,
          find-get key (view p) _ found got,
          length-slice,
        )
  ]
