-- ===== src/Btree/InsertEntry.antt =====
-- `insert_internal_no_split` puts a separator at its place among the sorted separators.
use advance_db.Prelude.{
  ℕ, zero, suc, ◌+◌, ◌*◌, ◌<◌, ◌≤◌, ◌≡◌, refl, ap, ap₂, ◌∙◌, true, false, List, [], ◌∷◌, map, arith,
  length, insert_at, ok, Ordering,
}
use advance_db.Bytes.{read_u16-lt}
use advance_db.Bytes.Blocks.{Agree, Agree-trans, AllBelow, read_u16-Agree}
use advance_db.Page.PageHeader.{Page, cell_count, free_start, free_end, cast_u16, leftmost_child}
use advance_db.Page.SlotHelpers.{insert_slot}
use advance_db.Page.Directory.{slots}
use advance_db.Page.Rewrite.{insert_slot-Rewritten}
use advance_db.Record.Compare.{lex, lex_trans, lex-flip}
use advance_db.Record.Cell.{can_insert}
use advance_db.Record.Sorted.{Key, IsBelow, IsSorted, position, position-le}
use advance_db.Record.Frame.{Agree-shrink, map-insert_at}
use advance_db.Btree.Entry.{
  is_internal, entry_size, put_entry, write_internal_entry, slotted, link_entry,
  insert_internal_no_split,
}
use advance_db.Btree.InternalView.{
  Separator, separators, separator, internal_view, AllEntries, IsInternal, length-separators,
}
use advance_db.Btree.FindChild.{internal_search_record-position}
use advance_db.Btree.SplitRead.{read_u32-Agree}
use advance_db.Btree.EntryAppend.{
  put_entry-EntryAppended, kept_entries, map-SameEntries, AllEntries-SameEntries,
  AllEntries-insert_at,
}

IsBelow-insert_at :
    (a k : Key) (i : ℕ) (ks : List Key)
    → lex a k ≡ Ordering.lt
    → IsBelow a ks
    → IsBelow a (insert_at i k ks)
IsBelow-insert_at a k zero ks h b = (h, b)
IsBelow-insert_at a k (suc i) [] h b = (h, b)
IsBelow-insert_at a k (suc i) (j ∷ ks) h b = (b.0, IsBelow-insert_at a k i ks h b.1)

IsBelow-lt : (a k : Key) (ks : List Key) → lex a k ≡ Ordering.lt → IsBelow k ks → IsBelow a ks
IsBelow-lt a k [] h b = tt
IsBelow-lt a k (j ∷ ks) h b = (lex_trans a k j h b.0, IsBelow-lt a k ks h b.1)

lt_of_gt : (a b : Key) → lex a b ≡ Ordering.gt → lex b a ≡ Ordering.lt
lt_of_gt a b h = ground (arith, lex-flip a b)

-- A new key at its position leaves the keys sorted.
insert_at-IsSorted :
    (k : Key) (ks : List Key)
    → IsSorted ks
    → (position k ks).found ≡ false
    → IsSorted (insert_at (position k ks).index k ks)
unfolding position
insert_at-IsSorted k [] s h = (tt, tt)
insert_at-IsSorted k (j ∷ ks) s h = ground (
  arith,
  insert_at-IsSorted k ks s.1,
  IsBelow-insert_at j k (position k ks).index ks,
  lt_of_gt j k,
  IsBelow-lt k j ks,
)

link_entry-ok :
    (i : ℕ) (p q : Page) (off : ℕ)
    → insert_slot p i off ≡ ok q
    → link_entry i (p, off) ≡ ok (q, true)
unfolding link_entry slotted
link_entry-ok i p q off e = rw (e, slotted) refl

write_internal_entry-put :
    (p : Page) (key : Key) (child : ℕ)
    → is_internal p ≡ true
    → write_internal_entry p key child ≡ ok (put_entry p key child, free_start p)
unfolding write_internal_entry
write_internal_entry-put p key child l = rw l refl

-- The room that `can_insert` asks for.
abbrev pub HasEntryRoom : Page → Key → Type 0
HasEntryRoom p key = free_start p + (entry_size + length key) + 2 * (cell_count p + 1) ≤ free_end p

module _ (p : Page) (key : Key) (child : ℕ) (v : IsInternal p) (kb : AllBelow 256 key)
    (small : child < 4294967296) where
  abbrev place : ℕ
  place = (position key (separators (internal_view p))).index

  can_insert_entry : HasEntryRoom p key → can_insert p (cast_u16 (entry_size + length key)) ≡ true
  unfolding can_insert
  can_insert_entry room = ground (arith, v.framed.directory, read_u16-lt p 22)

  -- On a well-formed internal page with the room that `can_insert` asks for,
  -- `insert_internal_no_split` of a new separator of bytes and a 32-bit child succeeds: the page
  -- stays well formed, and the separators with their children are the old ones with the new one at
  -- its place in the order. The first 18 bytes of the header are kept.
  pub insert_internal_no_split-insert_at :
      (position key (separators (internal_view p))).found ≡ false
      → HasEntryRoom p key
      → (q : Page) × (insert_internal_no_split p key child ≡ ok (q, true))
        × IsInternal q
        × (internal_view q ≡ insert_at place (key, child) (internal_view p))
        × Agree 0 18 q p
  unfolding insert_internal_no_split
  insert_internal_no_split-insert_at fresh room =
      let at = internal_search_record-position p key v in
      let p' = put_entry p key child in
      let a =
        put_entry-EntryAppended p key child v.framed (omega (arith, v.framed.directory)) kb small in
      let within : place ≤ cell_count p =
        omega (arith, position-le key (separators (internal_view p)), length-separators p) in
      let (q, run, w) =
        insert_slot-Rewritten p' place (free_start p) a.framed (omega (arith, a.count))
          (omega (arith, a.start, a.end)) (read_u16-lt p 20) in
      let old = kept_entries {p = p} {p' = p'} (slots p) a.records v.placed in
      let kept = AllEntries-SameEntries p p' (slots p) old (omega (arith, a.start)) v.placed in
      let ws = insert_at place (free_start p) (slots p') in
      let all : AllEntries p' ws =
        rw a.listed (AllEntries-insert_at p' place _ (slots p) a.placed kept) in
      let new = kept_entries {p = p'} {p' = q} ws w.records all in
      let seen : internal_view q ≡ insert_at place (key, child) (internal_view p) =
        ap (map (separator q)) w.listed
        ∙ map-SameEntries p' q ws new
        ∙ ap (λ ws. map (separator p') (insert_at place (free_start p) ws)) a.listed
        ∙ map-insert_at (separator p') place (free_start p) (slots p)
        ∙ ap₂ (insert_at place) a.stored (map-SameEntries p p' (slots p) old) in
      let head = Agree-trans w.before (Agree-shrink 0 18 a.before (omega arith) (omega arith)) in
      let keyed : separators (internal_view q)
          ≡ insert_at place key (separators (internal_view p)) =
        ap separators seen
        ∙ map-insert_at (λ (e : Separator). e.0) place (key, child) (internal_view p) in
      let left : leftmost_child q ≡ leftmost_child p =
        read_u32-Agree 12 head (omega arith) (omega arith) in
      (
        q,
        rw (v.level, can_insert_entry room, at, fresh, write_internal_entry-put p key child v.level)
            (link_entry-ok place p' q (free_start p) run),
        record {
          level = ground (arith, read_u16-Agree 6 head (omega arith) (omega arith), v.level);
          framed = w.framed;
          placed = rw w.listed (AllEntries-SameEntries p' q ws new (omega (arith, w.start)) all);
          sorted = rw keyed (insert_at-IsSorted key (separators (internal_view p)) v.sorted fresh);
          leftmost = rw left v.leftmost;
        },
        seen,
        head,
      )
