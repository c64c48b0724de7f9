-- ===== src/Btree/EntryAppend.antt =====
-- What `write_internal_entry` leaves behind: one more entry at `free_start`; and entries that stay.
use advance_db.Prelude.{
  ℕ, zero, suc, ◌+◌, ◌<◌, ◌≤◌, ◌≡◌, refl, ap₂, ◌∙◌, List, [], ◌∷◌, map, arith, length, ◌⊎◌, inl,
  inr, insert_at,
}
use advance_db.Bytes.{
  write_u16, write_u32, copy, read_u16-lt, read_u16-write_u16, read_u16-write_u16_ne,
}
use advance_db.Bytes.Blocks.{
  Agree, Agree-trans, Agree-write_u16, Agree-copy, AllBelow, read_u16-Agree, slice-Agree,
  slice-copy, read_words, read_words-Agree,
}
use advance_db.Page.PageHeader.{Page, page_size, cell_count, free_start, free_end, set_free_start}
use advance_db.Page.Directory.{IsFramed, slots}
use advance_db.Record.Frame.{Agree-shrink}
use advance_db.Btree.Entry.{entry_size, entry_key_size, child_page, put_entry}
use advance_db.Btree.InternalView.{separator, IsEntry, AllEntries}
use advance_db.Btree.Fill.{Agree-write_u32}
use advance_db.Btree.SplitRead.{read_u32-write_u32, read_u32-Agree}

-- The entry at `o` reads the same in both pages.
pub record SameEntry (p p' : Page) (o : ℕ) : Type 0 where
  pub key_size_eq : entry_key_size p' o ≡ entry_key_size p o
  pub separator_eq : separator p' o ≡ separator p o

pub same_entry :
    {p p' : Page} {lo hi : ℕ} (o : ℕ)
    → Agree lo hi p' p
    → lo ≤ o
    → o + entry_size + entry_key_size p o ≤ hi
    → SameEntry p p' o
same_entry {p} {p'} o a l h =
    let k : entry_key_size p' o ≡ entry_key_size p o = read_u16-Agree o a l (omega arith) in
    record {
      key_size_eq = k;
      separator_eq = rw k (
          ap₂ (λ (x : List ℕ) (c : ℕ). (x, c))
            (slice-Agree (o + entry_size) (entry_key_size p o) a (omega arith) (omega arith))
            (read_u32-Agree (o + 2) a (omega arith) (omega arith)));
    }

abbrev pub SameEntries : Page → Page → List ℕ → Type 0
SameEntries p p' [] = Unit
SameEntries p p' (w ∷ ws) = SameEntry p p' w × SameEntries p p' ws

pub kept_entries :
    {p p' : Page} (ws : List ℕ)
    → Agree 24 (free_start p) p' p
    → AllEntries p ws
    → SameEntries p p' ws
kept_entries [] a r = tt
kept_entries (w ∷ ws) a r = (
  same_entry w a (omega (arith, r.0.behind_header)) (omega (arith, r.0.fits)),
  kept_entries ws a r.1,
)

module _ (p p' : Page) where
  pub map-SameEntries :
      (ws : List ℕ) → SameEntries p p' ws → map (separator p') ws ≡ map (separator p) ws
  map-SameEntries [] s = refl
  map-SameEntries (w ∷ ws) s = ap₂ (λ x xs. x ∷ xs) s.0.separator_eq (map-SameEntries ws s.1)

  pub AllEntries-SameEntries :
      (ws : List ℕ)
      → SameEntries p p' ws
      → free_start p ≤ free_start p'
      → AllEntries p ws
      → AllEntries p' ws
  AllEntries-SameEntries [] s h r = tt
  AllEntries-SameEntries (w ∷ ws) s h r = (
    record {
      behind_header = r.0.behind_header;
      fits = rw s.0.key_size_eq (omega (arith, r.0.fits));
    },
    AllEntries-SameEntries ws s.1 h r.1,
  )

pub AllEntries-insert_at :
    (p : Page) (i o : ℕ) (ws : List ℕ)
    → IsEntry p o
    → AllEntries p ws
    → AllEntries p (insert_at i o ws)
AllEntries-insert_at p zero o ws r a = (r, a)
AllEntries-insert_at p (suc i) o [] r a = (r, a)
AllEntries-insert_at p (suc i) o (w ∷ ws) r a = (a.0, AllEntries-insert_at p i o ws r a.1)

-- `p'` is `p` with one more entry at `free_start`, and the same directory.
pub record EntryAppended (p : Page) (key : List ℕ) (child : ℕ) (p' : Page) : Type 0 where
  pub framed : IsFramed p'
  pub start : free_start p' ≡ free_start p + entry_size + length key
  pub end : free_end p' ≡ free_end p
  pub count : cell_count p' ≡ cell_count p
  pub listed : slots p' ≡ slots p
  pub placed : IsEntry p' (free_start p)
  pub stored : separator p' (free_start p) ≡ (key, child)
  pub before : Agree 0 20 p' p
  pub records : Agree 24 (free_start p) p' p

module _ (p : Page) (key : List ℕ) (child : ℕ) (f : IsFramed p)
    (room : free_start p + entry_size + length key ≤ free_end p) (kb : AllBelow 256 key)
    (small : child < 4294967296) where
  abbrev body : Page
  body =
      copy (write_u32 (write_u16 p (free_start p) (length key)) (free_start p + 2) child)
        (free_start p + entry_size) key

  body-Agree :
      (lo hi : ℕ)
      → (hi ≤ free_start p) ⊎ (free_start p + entry_size + length key ≤ lo)
      → Agree lo hi body p
  body-Agree lo hi s =
      Agree-trans (Agree-copy lo hi _ (free_start p + entry_size) key (omega arith)) (
        Agree-trans (Agree-write_u32 lo hi _ (free_start p + 2) child (omega arith))
          (Agree-write_u16 lo hi p (free_start p) (length key) (omega arith)))

  body-key_size : entry_key_size body (free_start p) ≡ length key
  body-key_size =
      let sized = write_u16 p (free_start p) (length key) in
      omega (
        arith,
        read_u16-Agree (free_start p)
            (Agree-trans
              (Agree-copy (free_start p) (free_start p + 2) _ (free_start p + entry_size) key
                (inl (omega arith)))
              (Agree-write_u32 (free_start p) (free_start p + 2) sized (free_start p + 2) child
                (inl (omega arith))))
            (omega arith) (omega arith),
        read_u16-write_u16 p (free_start p) (length key),
        read_u16-lt p 22,
      )

  body-child : child_page body (free_start p) ≡ child
  body-child =
      let sized = write_u16 p (free_start p) (length key) in
      omega (
        arith,
        read_u32-Agree (free_start p + 2)
            (Agree-copy (free_start p + 2) (free_start p + 6)
              (write_u32 sized (free_start p + 2) child) (free_start p + entry_size) key
              (inl (omega arith)))
            (omega arith) (omega arith),
        read_u32-write_u32 sized (free_start p + 2) child,
        small,
      )

  body-separator : separator body (free_start p) ≡ (key, child)
  body-separator = rw body-key_size (
      ap₂ (λ (x : List ℕ) (c : ℕ). (x, c)) (slice-copy _ (free_start p + entry_size) key kb)
        body-child)

  pub put_entry-EntryAppended : EntryAppended p key child (put_entry p key child)
  unfolding put_entry
  put_entry-EntryAppended =
      let next = free_start body + (entry_size + length key) in
      let p' = set_free_start body next in
      let low : Agree 0 (free_start p) body p = body-Agree 0 (free_start p) (inl (omega arith)) in
      let same : free_start body ≡ free_start p =
        read_u16-Agree 20 low (omega arith) (omega (arith, f.records_start)) in
      let wide = read_u16-lt p 22 in
      let count : cell_count p' ≡ cell_count p =
        read_u16-write_u16_ne body 20 next 18 (inl (omega arith))
        ∙ read_u16-Agree 18 low (omega arith) (omega (arith, f.records_start)) in
      let end : free_end p' ≡ free_end p =
        read_u16-write_u16_ne body 20 next 22 (inr (omega arith))
        ∙ read_u16-Agree 22 low (omega arith) (omega (arith, f.records_start)) in
      let start : free_start p' ≡ free_start p + entry_size + length key =
        omega (arith, read_u16-write_u16 body 20 next, same, wide) in
      let kept : Agree 24 page_size p' body =
        Agree-write_u16 24 page_size body 20 next (inr (omega arith)) in
      let entry : SameEntry body p' (free_start p) =
        same_entry (free_start p) kept (omega (arith, f.records_start))
          (rw body-key_size (omega (arith, f.directory))) in
      record {
        framed = record {
          records_start = omega (arith, start, f.records_start);
          no_overlap = omega (arith, start, end);
          directory = omega (arith, count, end, f.directory);
        };
        start = start;
        end = end;
        count = count;
        listed =
            ap₂ (read_words p') end count
            ∙ read_words-Agree (free_end p) (cell_count p)
                (Agree-trans
                  (Agree-shrink (free_end p) page_size kept
                    (omega (arith, f.records_start, f.no_overlap)) (omega arith))
                  (body-Agree (free_end p) page_size (inr (omega arith))))
                (omega arith) (omega (arith, f.directory));
        placed = record {
          behind_header = f.records_start;
          fits = rw (entry.key_size_eq, body-key_size) (omega (arith, start));
        };
        stored = entry.separator_eq ∙ body-separator;
        before =
            Agree-trans (Agree-write_u16 0 20 body 20 next (inl (omega arith)))
              (Agree-shrink 0 20 low (omega arith) (omega (arith, f.records_start)));
        records =
            Agree-trans
              (Agree-shrink 24 (free_start p) kept (omega arith)
                (omega (arith, f.directory, f.no_overlap)))
              (Agree-shrink 24 (free_start p) low (omega arith) (omega arith));
      }
