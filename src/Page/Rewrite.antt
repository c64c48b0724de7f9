-- ===== src/Page/Rewrite.antt =====
-- What `insert_slot` and `remove_slot` do to the list of slots, and when they throw.
use advance_db.Prelude.{
  ℕ, ◌+◌, ◌-◌, ◌*◌, ◌%◌, ◌<◌, ◌≤◌, ◌≡◌, refl, ap, ◌∙◌, List, inl, inr, ◌≢◌, ◌↔◌, arith, length,
  insert_at, erase_at, length-insert_at, erase_at-insert_at, ok, err, ◌>>=◌,
}
use native.Mathlib.Numerals.{add-one}
use advance_db.Bytes.{read_u16-lt, read_u16-write_u16, read_u16-write_u16_ne}
use advance_db.Bytes.Blocks.{
  Agree, Agree-write_u16, Agree-write_words, read_words, write_words, read_words-Agree,
  read_words-AllBelow, read_u16-Agree,
}
use advance_db.Page.PageHeader.{
  Page, page_size, cell_count, free_start, free_end, set_cell_count, set_free_end,
}
use advance_db.Page.SlotHelpers.{
  invalid_slot_index, directory_overlaps_records, directory_exceeds_page, write_inserted,
  insert_slot, write_removed, remove_slot,
}
use advance_db.Page.Directory.{
  HasDirectory, slots, IsFramed, insert_at-AllBelow, erase_at-AllBelow, length-erase_at,
  write_around, write_without, write_directory, length-slots,
}

-- What `insert_slot` and `remove_slot` leave behind: the slots `ws`, and all other bytes but the
-- two counters' as they were.
pub record Rewritten (p : Page) (ws : List ℕ) (p' : Page) : Type 0 where
  pub framed : IsFramed p'
  pub start : free_start p' ≡ free_start p
  pub listed : slots p' ≡ ws
  pub before : Agree 0 18 p' p
  pub records : Agree 24 (free_start p) p' p
  pub gap : Agree (free_start p) (free_end p') p' p

rewritten :
    (p : Page) (o : ℕ) (ws : List ℕ) {p' : Page}
    → IsFramed p
    → free_start p ≤ o
    → o + 2 * length ws ≡ page_size
    → HasDirectory p o ws p'
    → Rewritten p ws p'
rewritten p o ws f h full d = record {
  framed = omega arith;
  start = d.start;
  listed = d.listed;
  before = d.before;
  records = record { at = λ i l b. d.behind.at i l (omega arith) };
  gap = record {
    at = λ i l b. d.behind.at i (omega (arith, l, f.records_start)) (omega (arith, b, d.end));
  };
}

inserted-eq :
    (p : Page) (index off : ℕ)
    → IsFramed p
    → index ≤ cell_count p
    → free_start p + 2 ≤ free_end p
    → write_inserted p index off
      ≡ set_cell_count
          (write_words
            (set_free_end p (free_end p - 2))
            (free_end p - 2)
            (insert_at index off (slots p)))
          (cell_count p + 1)
unfolding write_inserted
inserted-eq p index off f h r =
    let o = free_end p - 2 in
    let p₁ = set_free_end p o in
    let wrap : (free_end p + 65536 - 2) % 65536 ≡ o = omega (arith, read_u16-lt p 22) in
    let same : read_words p₁ (free_end p) (cell_count p) ≡ slots p =
      read_words-Agree {lo = 24} {hi = page_size} (free_end p) (cell_count p)
        (Agree-write_u16 24 _ p 22 o (inr (omega arith))) (omega arith) (omega arith) in
    let around =
      write_around index (slots p) p₁ o off (o + index * 2) (o + (index + 1) * 2)
        (omega (arith, length-slots p)) refl (omega arith) in
    rw (wrap, same, around)
      (ap (λ n. set_cell_count (write_words p₁ o (insert_at index off (slots p))) (n + 1))
        (read_u16-Agree {lo = 0} {hi = o} 18 (Agree-write_words 0 o p₁ o _ (inl (omega arith)))
            (omega arith) (omega arith)
          ∙ read_u16-write_u16_ne p 22 o 18 (inl (omega arith))))

removed-eq :
    (p : Page) (index : ℕ)
    → IsFramed p
    → index < cell_count p
    → write_removed p index
      ≡ set_cell_count
          (write_words
            (set_free_end p (free_end p + 2))
            (free_end p + 2)
            (erase_at index (slots p)))
          (cell_count p + 65536 - 1)
unfolding write_removed
removed-eq p index f h =
    let o = free_end p + 2 in
    let p₁ = set_free_end p o in
    let moved : free_end p₁ ≡ o = omega (arith, read_u16-write_u16 p 22 o) in
    let without =
      write_without index (slots p) p₁ o (o + index * 2) (omega (arith, length-slots p)) refl in
    rw (moved, add-one, without)
      (ap (λ n. set_cell_count (write_words p₁ o (erase_at index (slots p))) (n + 65536 - 1))
        (read_u16-Agree {lo = 0} {hi = o} 18 (Agree-write_words 0 o p₁ o _ (inl (omega arith)))
            (omega arith) (omega arith)
          ∙ read_u16-write_u16_ne p 22 o 18 (inl (omega arith))))

-- On a page whose header is in bounds and whose directory has room for a slot, `insert_slot` at
-- an index in the directory or at its end puts the 16-bit offset at that place among the slots,
-- and changes nothing but the directory and the two counters.
pub insert_slot-Rewritten :
    (p : Page) (index off : ℕ)
    → IsFramed p
    → index ≤ cell_count p
    → free_start p + 2 ≤ free_end p
    → off < 65536
    → (p' : Page) × (insert_slot p index off ≡ ok p')
      × Rewritten p (insert_at index off (slots p)) p'
unfolding insert_slot
insert_slot-Rewritten p index off f h r small =
    let ws = insert_at index off (slots p) in
    let o = free_end p - 2 in
    let count : length ws ≡ cell_count p + 1 =
      omega (arith, length-insert_at index off (slots p), length-slots p) in
    let d =
      write_directory p o (cell_count p + 1) ws (omega arith) (omega (arith, read_u16-lt p 22))
        (insert_at-AllBelow _ index off _ small (read_words-AllBelow p _ _)) (omega arith) in
    (
      write_inserted p index off,
      ground (arith, read_u16-lt p 22),
      rw (inserted-eq p index off f h r) (rewritten p o ws f (omega arith) (omega arith) d),
    )

-- On a page whose header is in bounds, `remove_slot` of an index in the directory takes that
-- slot out, and changes nothing but the directory and the two counters.
pub remove_slot-Rewritten :
    (p : Page) (index : ℕ)
    → IsFramed p
    → index < cell_count p
    → (p' : Page) × (remove_slot p index ≡ ok p') × Rewritten p (erase_at index (slots p)) p'
unfolding remove_slot
remove_slot-Rewritten p index f h =
    let ws = erase_at index (slots p) in
    let o = free_end p + 2 in
    let count : length ws + 1 ≡ cell_count p =
      omega (arith, length-erase_at index (slots p), length-slots p) in
    let d =
      write_directory p o (cell_count p + 65536 - 1) ws (omega arith) (omega arith)
        (erase_at-AllBelow _ index _ (read_words-AllBelow p _ _)) (omega arith) in
    (
      write_removed p index,
      ground arith,
      rw (removed-eq p index f h) (rewritten p o ws f (omega arith) (omega arith) d),
    )

-- On a page whose header is in bounds and whose directory has room for a slot, removing the
-- slot that was just inserted gives the slots back, and the header stays in bounds.
pub remove_slot-insert_slot :
    (p : Page) (index off : ℕ)
    → IsFramed p
    → index ≤ cell_count p
    → free_start p + 2 ≤ free_end p
    → off < 65536
    → (p' : Page) × ((insert_slot p index off >>= λ q. remove_slot q index) ≡ ok p')
      × (slots p' ≡ slots p)
      × IsFramed p'
remove_slot-insert_slot p index off f h r small =
    let (q, run, w) = insert_slot-Rewritten p index off f h r small in
    let longer = length-insert_at index off (slots p) in
    let there : index < cell_count q =
      omega (arith, length-slots p, length-slots q, ap length w.listed) in
    let (p', again, v) = remove_slot-Rewritten q index w.framed there in
    (
      p',
      rw run again,
      v.listed
          ∙ ap (erase_at index) w.listed
          ∙ erase_at-insert_at index off (slots p) (omega (arith, length-slots p)),
      v.framed,
    )

-- On a page whose header is in bounds, `insert_slot` throws for its index exactly if that is
-- past the directory, and for the records exactly if the longer directory would reach into
-- them; its third guard never fires.
pub insert_slot_errors :
    (p : Page) (index off : ℕ)
    → IsFramed p
    → ((insert_slot p index off ≡ err invalid_slot_index) ↔ (cell_count p < index))
      × ((insert_slot p index off ≡ err directory_overlaps_records)
          ↔ ((index ≤ cell_count p) × (free_end p < free_start p + 2)))
      × (insert_slot p index off ≢ err directory_exceeds_page)
unfolding insert_slot
insert_slot_errors p index off f = (
  (ground arith, λ h. ground arith),
  (ground (arith, read_u16-lt p 22), λ h. ground (arith, read_u16-lt p 22)),
  ground (arith, read_u16-lt p 22),
)
