-- ===== src/Btree/Fill.antt =====
-- Records written one behind the other into an empty page, and the directory for them.
use advance_db.Prelude.{
  ℕ, suc, ◌+◌, ◌-◌, ◌*◌, ◌<◌, ◌≤◌, ◌≡◌, refl, ap, ap₂, ◌∙◌, List, [], ◌∷◌, map, length, arith, inl,
  ◌⊎◌,
}
use advance_db.Bytes.{Bytes, write_u32, read_u16-write_u16, read_u16-lt}
use advance_db.Bytes.Blocks.{Agree, Agree-trans, Agree-write_u16, AllBelow, read_u16-Agree}
use advance_db.Page.PageHeader.{
  Page, data_page, leaf, page_size, header_size, cast_u16, cell_count, free_start, free_end,
  set_free_end, init_page,
}
use advance_db.Page.Directory.{IsFramed, write_directory, HasDirectory}
use advance_db.Record.Cell.{record_header_size, write_record, put_record}
use advance_db.Record.Sorted.{Entry, keys, IsSorted}
use advance_db.Record.View.{entry, view, size_at, AllRecords, ApartFrom, AllApart, IsPage}
use advance_db.Record.Append.{put_record-Appended}
use advance_db.Record.Frame.{
  Agree-shrink, SameRecord, same_record, kept_records, map-SameRecords, AllRecords-SameRecords,
  AllApart-SameRecords,
}
use advance_db.Record.Fresh.{init_page-count, init_page-start, init_page-end}
use advance_db.Record.Packing.{total_bytes}
use advance_db.Btree.Split.{set_parent_page_id, write_records, place_slots, fill_leaf}

pub Agree-write_u32 :
    (lo hi : ℕ) (m : Bytes) (o v : ℕ) → (hi ≤ o) ⊎ (o + 4 ≤ lo) → Agree lo hi (write_u32 m o v) m
unfolding write_u32
Agree-write_u32 lo hi m o v s =
    Agree-trans (Agree-write_u16 lo hi _ (o + 2) _ (omega arith))
      (Agree-write_u16 lo hi m o v (omega arith))

-- A record of a leaf: a non-empty key, and bytes.
pub record IsStored (e : Entry) : Type 0 where
  pub keyed : 0 < length e.0
  pub key_bytes : AllBelow 256 e.0
  pub value_bytes : AllBelow 256 e.1

abbrev pub AllStored : List Entry → Type 0
AllStored [] = Unit
AllStored (e ∷ es) = IsStored e × AllStored es

abbrev AllAbove : ℕ → List ℕ → Type 0
AllAbove n [] = Unit
AllAbove n (o ∷ os) = (n ≤ o) × AllAbove n os

AllAbove-weaken : (m n : ℕ) (os : List ℕ) → m ≤ n → AllAbove n os → AllAbove m os
AllAbove-weaken m n [] h a = tt
AllAbove-weaken m n (o ∷ os) h a = (omega (arith, a.0), AllAbove-weaken m n os h a.1)

ApartFrom-above :
    (p : Page) (o : ℕ) (os : List ℕ) → AllAbove (o + size_at p o) os → ApartFrom p o os
ApartFrom-above p o [] a = tt
ApartFrom-above p o (x ∷ os) a = (inl a.0, ApartFrom-above p o os a.1)

-- `r` is the page `p` with the records behind what it had, and their offsets.
pub record Packed (p : Page) (rs : List Entry) (r : Page × List ℕ) : Type 0 where
  pub framed : IsFramed r.0
  pub count : cell_count r.0 ≡ cell_count p
  pub start : free_start r.0 ≡ free_start p + total_bytes rs
  pub end : free_end r.0 ≡ free_end p
  pub before : Agree 0 18 r.0 p
  pub records : Agree 24 (free_start p) r.0 p
  pub placed : AllRecords r.0 r.1
  pub apart : AllApart r.0 r.1
  pub above : AllAbove (free_start p) r.1
  pub small : AllBelow 65536 r.1
  pub stored : map (entry r.0) r.1 ≡ rs
  pub number : length r.1 ≡ length rs

write_record-put :
    (p : Page) (key value : List ℕ)
    → free_start p + record_header_size + length key + length value ≤ free_end p
    → write_record p key value ≡ (put_record p key value, free_start p)
unfolding write_record
write_record-put p key value h = ground arith

pub write_records-Packed :
    (p : Page) (rs : List Entry)
    → IsFramed p
    → AllStored rs
    → free_start p + total_bytes rs ≤ free_end p
    → Packed p rs (write_records p rs)
unfolding write_records
write_records-Packed p [] f s room = record {
  framed = f;
  count = refl;
  start = omega arith;
  end = refl;
  before = record { at = λ i l h. refl };
  records = record { at = λ i l h. refl };
  placed = tt;
  apart = tt;
  above = tt;
  small = tt;
  stored = refl;
  number = refl;
}
write_records-Packed p (r ∷ rs) f s room =
    let put = put_record p r.0 r.1 in
    let run = write_record-put p r.0 r.1 (omega arith) in
    let a = put_record-Appended p r.0 r.1 f (omega arith) s.0.key_bytes s.0.value_bytes in
    let k = write_records-Packed put rs a.framed s.1 (omega (arith, a.start, a.end)) in
    let q = (write_records put rs).0 in
    let one = a.placed s.0.keyed in
    let same : SameRecord put q (free_start p) =
      same_record (free_start p) k.records (omega (arith, one.behind_header))
        (omega (arith, one.fits)) in
    rw run (record {
      framed = k.framed;
      count = k.count ∙ a.count;
      start = omega (arith, k.start, a.start);
      end = k.end ∙ a.end;
      before = Agree-trans k.before (Agree-shrink 0 18 a.before (omega arith) (omega arith));
      records =
          Agree-trans
            (Agree-shrink 24 (free_start p) k.records (omega arith) (omega (arith, a.start)))
            a.records;
      placed = (
        record {
          behind_header = one.behind_header;
          keyed = rw same.key_size_eq one.keyed;
          fits = rw (same.key_size_eq, same.value_size_eq) (omega (arith, one.fits, k.start));
        },
        k.placed,
      );
      apart = (
        ApartFrom-above q (free_start p) _ (
            AllAbove-weaken _ (free_start put) _
              (rw (same.key_size_eq, same.value_size_eq) (omega (arith, one.fits))) k.above),
        k.apart,
      );
      above = (
        omega arith,
        AllAbove-weaken (free_start p) (free_start put) _ (omega (arith, a.start)) k.above,
      );
      small = (read_u16-lt p 20, k.small);
      stored = ap₂ (λ (x : Entry) (xs : List Entry). x ∷ xs) (same.entry_eq ∙ a.stored) k.stored;
      number = ap suc k.number;
    })

-- `q` is a page with the records `rs` and the first 18 bytes of `p`.
pub record Filled (p : Page) (rs : List Entry) (q : Page) : Type 0 where
  pub formed : IsPage q
  pub seen : view q ≡ rs
  pub count : cell_count q ≡ length rs
  pub before : Agree 0 18 q p
  pub behind : Agree 24 header_size q p

module _ (p : Page) (rs : List Entry) (r : Page × List ℕ) (k : Packed p rs r)
    (sorted : IsSorted (keys rs)) (room : free_start p + total_bytes rs + 2 * length rs ≤ page_size)
    (f : IsFramed p) where
  directory-Filled :
      (o : ℕ) (q : Page) → o + 2 * length rs ≡ page_size → HasDirectory r.0 o r.1 q → Filled p rs q
  directory-Filled o q at d =
      let same =
        kept_records {p = r.0} {p' = q} r.1
          (Agree-shrink 24 (free_start r.0) d.behind (omega arith) (omega (arith, k.start)))
          k.placed in
      let seen : view q ≡ rs =
        ap (map (entry q)) d.listed ∙ map-SameRecords r.0 q r.1 same ∙ k.stored in
      record {
        formed = record {
          framed = record {
            records_start = omega (arith, d.start, k.start, f.records_start);
            no_overlap = omega (arith, d.start, d.end, k.start);
            directory = omega (arith, d.end, d.count, k.number);
          };
          placed =
              rw d.listed (AllRecords-SameRecords r.0 q r.1 same (omega (arith, d.start)) k.placed);
          apart = rw d.listed (AllApart-SameRecords r.0 q r.1 same k.apart);
          sorted = rw seen sorted;
        };
        seen = seen;
        count = d.count ∙ k.number;
        before = Agree-trans d.before k.before;
        behind =
            Agree-trans
              (Agree-shrink 24 header_size d.behind (omega arith) (omega (arith, f.records_start)))
              (Agree-shrink 24 header_size k.records (omega arith)
                (omega (arith, f.records_start)));
      }

  pub place_slots-Filled : Filled p rs (place_slots r)
  unfolding place_slots
  place_slots-Filled =
      let n = length r.1 in
      let o = cast_u16 (page_size + 65536 - cast_u16 (n * 2)) in
      let at : o + 2 * length rs ≡ page_size = omega (arith, k.number) in
      let end : free_end (set_free_end r.0 o) ≡ o = omega (arith, read_u16-write_u16 r.0 22 o) in
      rw end (
        directory-Filled o _ at (
          write_directory r.0 o n r.1 (omega (arith, f.records_start)) (omega arith) k.small
            (omega (arith, k.number))))

-- The page that `fill_leaf` starts with.
module _ (old : Page) (id parent : ℕ) where
  abbrev pub empty_leaf : Page
  empty_leaf = set_parent_page_id (init_page old id data_page leaf) parent

  header : Agree 0 24 empty_leaf (init_page old id data_page leaf)
  header = Agree-write_u32 0 24 (init_page old id data_page leaf) 24 parent (inl (omega arith))

  empty_leaf-count : cell_count empty_leaf ≡ 0
  empty_leaf-count =
      read_u16-Agree 18 header (omega arith) (omega arith) ∙ init_page-count old id data_page leaf

  empty_leaf-start : free_start empty_leaf ≡ header_size
  empty_leaf-start =
      read_u16-Agree 20 header (omega arith) (omega arith) ∙ init_page-start old id data_page leaf

  empty_leaf-end : free_end empty_leaf ≡ page_size
  empty_leaf-end =
      read_u16-Agree 22 header (omega arith) (omega arith) ∙ init_page-end old id data_page leaf

  pub empty_leaf-IsFramed : IsFramed empty_leaf
  empty_leaf-IsFramed = record {
    records_start = omega (arith, empty_leaf-start);
    no_overlap = omega (arith, empty_leaf-start, empty_leaf-end);
    directory = omega (arith, empty_leaf-count, empty_leaf-end);
  }

  -- Sorted records that fit into a page with their slots make a well-formed page of them.
  pub fill_leaf-Filled :
      (rs : List Entry)
      → AllStored rs
      → IsSorted (keys rs)
      → header_size + total_bytes rs + 2 * length rs ≤ page_size
      → Filled empty_leaf rs (fill_leaf old id parent rs)
  unfolding fill_leaf
  fill_leaf-Filled rs s sorted room =
      place_slots-Filled empty_leaf rs (write_records empty_leaf rs)
        (write_records-Packed empty_leaf rs empty_leaf-IsFramed s
          (omega (arith, empty_leaf-start, empty_leaf-end)))
        sorted (omega (arith, empty_leaf-start)) empty_leaf-IsFramed
