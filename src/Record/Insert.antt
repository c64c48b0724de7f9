-- ===== src/Record/Insert.antt =====
-- `page_insert` puts an entry at its place in the sorted entries, and fails without a trace.
use mathlib.Core.Bool.{false≢true}
use advance_db.Prelude.{
  ℕ, ◌+◌, ◌*◌, ◌<◌, ◌≤◌, ◌≡◌, refl, sym, ap, ap₂, map, ◌∙◌, Bool, true, false, List, arith, length,
  insert_at, ◌↔◌, ok, inl, inr, ◌⊎◌, Bool-cases, lt_or_le,
}
use advance_db.Bytes.{read_u8, read_u16, write_u16, read_u8-lt, read_u16-lt, read_u8-write_u16}
use advance_db.Bytes.Blocks.{Agree, Agree-trans, AllBelow}
use advance_db.Page.PageHeader.{Page, cell_count, free_start, free_end, set_free_start}
use advance_db.Page.SlotHelpers.{insert_slot}
use advance_db.Page.Directory.{IsFramed, slots}
use advance_db.Page.Rewrite.{insert_slot-Rewritten}
use advance_db.Record.Cell.{
  record_header_size, record_size, can_insert, write_record, put_record, link_record, page_insert,
}
use advance_db.Record.Sorted.{Key, keys, position, put, position-le, put-insert_at, put-IsSorted}
use advance_db.Record.View.{entry, view, AllRecords, AllApart, IsPage}
use advance_db.Record.Search.{search_record-position, length-keys}
use advance_db.Record.Frame.{
  Agree-shrink, kept_records, map-SameRecords, AllRecords-SameRecords, AllApart-SameRecords,
  AllApart-insert_at, AllRecords-insert_at, map-insert_at,
}
use advance_db.Record.Append.{ApartFrom-before, put_record-Appended}

-- The room that `can_insert` asks for: it counts the slots that the page has once more, though
-- they lie behind `free_end`.
abbrev pub HasRoom : Page → Key → List ℕ → Type 0
HasRoom p key value =
    free_start p + (record_header_size + length key + length value) + 2 * (cell_count p + 1)
    ≤ free_end p

abbrev pub IsFresh : Page → Key → Type 0
IsFresh p key = (position key (keys (view p))).found ≡ false

written :
    (p : Page) (key value : List ℕ)
    → free_start p + record_header_size + length key + length value ≤ free_end p
    → write_record p key value ≡ (put_record p key value, free_start p)
unfolding write_record
written p key value h = ground arith

-- Once the record is written, the checks of `page_insert` pass where the slot fits.
linked :
    (p : Page) (i : ℕ) (p' q : Page)
    → IsFramed p
    → IsFramed q
    → insert_slot p' i (free_start p) ≡ ok q
    → free_start p' + 2 ≤ free_end p'
    → link_record p i (p', free_start p) ≡ (q, true)
unfolding link_record
linked p i p' q f g run room = ground (arith, f.records_start, g.no_overlap, read_u16-lt p' 22)

module _ (p : Page) (key : Key) (value : List ℕ) (v : IsPage p) (nonempty : 0 < length key)
    (kb : AllBelow 256 key) (vb : AllBelow 256 value) where
  abbrev place : ℕ
  place = (position key (keys (view p))).index

  pub can_insert_of_room :
      HasRoom p key value → can_insert p (record_size (length key) (length value)) ≡ true
  unfolding can_insert
  can_insert_of_room room = ground (arith, v.framed.directory, read_u16-lt p 22)

  -- On a well-formed page with the room that `can_insert` asks for, `page_insert` of a fresh,
  -- non-empty key succeeds: the page stays well formed, its entries are the old ones with the
  -- new one at its place in the order, and the first 18 bytes of the header are kept. Keys and
  -- values are bytes.
  pub page_insert-put :
      IsFresh p key
      → HasRoom p key value
      → (q : Page) × (page_insert p key value ≡ (q, true))
        × IsPage q
        × (view q ≡ put key value (view p))
        × Agree 0 18 q p
  unfolding page_insert
  page_insert-put fresh room =
      let at = search_record-position p key v in
      let a = put_record-Appended p key value v.framed (omega (arith, v.framed.directory)) kb vb in
      let p' = put_record p key value in
      let within : place ≤ cell_count p =
        omega (arith, position-le key (keys (view p)), length-keys p key v) in
      let (q, run, w) =
        insert_slot-Rewritten p' place (free_start p) a.framed (omega (arith, a.count))
          (omega (arith, a.start, a.end)) (read_u16-lt p 20) in
      let old = kept_records {p = p} {p' = p'} (slots p) a.records v.placed in
      let kept = AllRecords-SameRecords p p' (slots p) old (omega (arith, a.start)) v.placed in
      let ws = insert_at place (free_start p) (slots p') in
      let all : AllRecords p' ws =
        rw a.listed (AllRecords-insert_at p' place _ (slots p) (a.placed nonempty) kept) in
      let apart : AllApart p' ws = rw a.listed (
        AllApart-insert_at p' place _ (slots p)
          (ApartFrom-before p p' key value a (slots p) old v.placed)
          (AllApart-SameRecords p p' (slots p) old v.apart)) in
      let new = kept_records {p = p'} {p' = q} ws w.records all in
      let seen : view q ≡ put key value (view p) =
        ap (map (entry q)) w.listed
        ∙ map-SameRecords p' q ws new
        ∙ ap (λ ws. map (entry p') (insert_at place (free_start p) ws)) a.listed
        ∙ map-insert_at (entry p') place (free_start p) (slots p)
        ∙ ap₂ (insert_at place) a.stored (map-SameRecords p p' (slots p) old)
        ∙ sym (put-insert_at key value (view p) fresh) in
      (
        q,
        rw
            (
              at,
              fresh,
              can_insert_of_room room,
              written p key value (omega (arith, v.framed.directory)),
            )
            (linked p place p' q v.framed w.framed run (omega (arith, a.start, a.end))),
        record {
          framed = w.framed;
          placed = rw w.listed (AllRecords-SameRecords p' q ws new (omega (arith, w.start)) all);
          apart = rw w.listed (AllApart-SameRecords p' q ws new apart);
          sorted = rw seen (put-IsSorted key value (view p) v.sorted);
        },
        seen,
        Agree-trans w.before (Agree-shrink 0 18 a.before (omega arith) (omega arith)),
      )

-- Every byte reads the same.
abbrev pub SameBytes : Page → Page → Type 0
SameBytes q p = (i : ℕ) → read_u8 q i ≡ read_u8 p i

-- Writing a counter's own value back changes no byte.
rewrite_u16 : (m : Page) (o : ℕ) → SameBytes (write_u16 m o (read_u16 m o)) m
unfolding read_u16
rewrite_u16 m o i = ground (
  arith,
  read_u8-write_u16 m o (read_u8 m o + 256 * read_u8 m (o + 1)) i,
  read_u8-lt m o,
  read_u8-lt m (o + 1),
)

-- Without room either `can_insert` says so, or the 16-bit record size has wrapped and
-- `write_record` refuses the record.
no_room :
    (p : Page) (key value : List ℕ) (i : ℕ)
    → IsFramed p
    → free_end p
      < free_start p + (record_header_size + length key + length value) + 2 * (cell_count p + 1)
    → can_insert p (record_size (length key) (length value)) ≡ true
    → link_record p i (write_record p key value) ≡ (set_free_start p (free_start p), false)
unfolding can_insert write_record link_record
no_room p key value i f h c = ground (arith, f.directory, read_u16-lt p 22)

abbrev Blocked : Page → Key → List ℕ → Type 0
Blocked p key value =
    ((position key (keys (view p))).found ≡ true)
    ⊎ (free_end p
        < free_start p + (record_header_size + length key + length value) + 2 * (cell_count p + 1))

abbrev Refuses : Page → Page × Bool → Type 0
Refuses p r = (r.1 ≡ false) × SameBytes r.0 p

refused :
    (p : Page) (key value : List ℕ)
    → IsPage p
    → Blocked p key value
    → Refuses p (page_insert p key value)
unfolding page_insert
refused p key value v (inl found) = rw (search_record-position p key v, found) (refl, λ i. refl)
refused p key value v (inr tight) =
    rw (search_record-position p key v) (elim (Bool-cases (position key (keys (view p))).found) [
      | inl found ↦ rw found (refl, λ i. refl)
      | inr fresh ↦ elim (Bool-cases (can_insert p (record_size (length key) (length value)))) [
        | inr none ↦ rw (fresh, none) (refl, λ i. refl)
        | inl may ↦
            rw (fresh, may, no_room p key value _ v.framed tight may) (refl, rewrite_u16 p 20)
      ]
    ])

insert_cases :
    (p : Page) (key value : List ℕ) → (IsFresh p key × HasRoom p key value) ⊎ Blocked p key value
insert_cases p key value = elim (Bool-cases (position key (keys (view p))).found) [
  | inl found ↦ inr (inl found)
  | inr fresh ↦
      elim (lt_or_le (free_end p) (
        free_start p + (record_header_size + length key + length value) + 2 * (cell_count p + 1))) [
          | inl tight ↦ inr (inr tight)
          | inr room ↦ inl (fresh, room)
        ]
]

-- On a well-formed page, for a non-empty key and a value of bytes, an insertion that reports
-- failure leaves every byte of the page as it was.
pub page_insert_fails :
    (p : Page) (key value : List ℕ)
    → IsPage p
    → 0 < length key
    → AllBelow 256 key
    → AllBelow 256 value
    → (page_insert p key value).1 ≡ false
    → SameBytes (page_insert p key value).0 p
page_insert_fails p key value v n kb vb h = elim (insert_cases p key value) [
  | inl (fresh, room) ↦
      let done = page_insert-put p key value v n kb vb fresh room in
      absurd (false≢true (sym h ∙ ap (λ (r : Page × Bool). r.1) done.1))
  | inr blocked ↦ (refused p key value v blocked).1
]

-- On a well-formed page, for a non-empty key and a value of bytes, `page_insert` succeeds
-- exactly if the key is new and there is the room that `can_insert` asks for.
pub page_insert_iff :
    (p : Page) (key value : List ℕ)
    → IsPage p
    → 0 < length key
    → AllBelow 256 key
    → AllBelow 256 value
    → ((page_insert p key value).1 ≡ true) ↔ (IsFresh p key × HasRoom p key value)
page_insert_iff p key value v n kb vb =
    let succeeds : IsFresh p key × HasRoom p key value → (page_insert p key value).1 ≡ true =
      λ c. ap (λ (r : Page × Bool). r.1) (page_insert-put p key value v n kb vb c.0 c.1).1 in
    (
      λ done. elim (insert_cases p key value) [
        | inl c ↦ c
        | inr blocked ↦ absurd (false≢true (sym (refused p key value v blocked).0 ∙ done))
      ],
      succeeds,
    )
