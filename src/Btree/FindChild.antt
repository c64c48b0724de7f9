-- ===== src/Btree/FindChild.antt =====
-- `internal_find_child` and `internal_search_record` do what linear scans of the separators do.
use advance_db.Prelude.{
  ℕ, zero, suc, ◌+◌, ◌-◌, ◌/◌, ◌<◌, ◌≤◌, ◌≡◌, refl, sym, ◌∙◌, true, arith, inl, inr, ok, ltb→lt,
  ltb, Bool-cases, ap,
}
use advance_db.Page.PageHeader.{Page, cell_count, leftmost_child}
use advance_db.Record.Compare.{compare_keys-lex}
use advance_db.Record.Cell.{BSearchResult}
use advance_db.Record.Sorted.{
  Key, position, position-le, position-lt_of_found, position_of_lt, position_of_gt, position_of_eq,
}
use advance_db.Record.View.{offset_at}
use advance_db.Btree.Entry.{
  entry_key, child_page, child_loop, leftmost_or_first, child_at, internal_find_child,
  internal_search_loop, internal_search_record,
}
use advance_db.Btree.InternalView.{
  IsInternal, internal_view, separators, child_for, upper, upper-le, upper_of_lt, upper_of_ge,
  child_for-get, child_for-first, internal_slot_key-eq, entry_child-eq, get-internal_view,
  get-separators, length-separators,
}

module _ (p : Page) (key : Key) (v : IsInternal p) where
  abbrev bound : ℕ
  bound = upper key (separators (internal_view p))

  -- One round: the comparison at `mid` moves one end of the interval past the bound.
  child_loop-upper :
      (fuel left right : ℕ)
      → right < left + fuel
      → left ≤ bound
      → bound ≤ right
      → right ≤ cell_count p
      → child_loop fuel p key left right right ≡ bound
  unfolding child_loop
  child_loop-upper zero left right enough lo hi inside = ground arith
  child_loop-upper (suc fuel) left right enough lo hi inside = elim (Bool-cases (ltb left right)) [
    | inr stop ↦ rw stop (ground arith)
    | inl go ↦
        let below : left < right = ltb→lt left right go in
        let mid = (left + right - 1) / 2 in
        let inside' : mid < cell_count p = omega arith in
        let k = entry_key p (offset_at p mid) in
        let got = get-separators p v mid inside' in
        rw (go, internal_slot_key-eq p v mid inside', compare_keys-lex key k)
          (ground (
            arith,
            upper_of_lt key (separators (internal_view p)) mid k got,
            upper_of_ge key (separators (internal_view p)) mid k v.sorted got,
            child_loop-upper fuel (mid + 1) right,
            child_loop-upper fuel left mid,
          ))
  ]

  leftmost_or_first-leftmost : leftmost_or_first p ≡ ok (leftmost_child p)
  unfolding leftmost_or_first
  leftmost_or_first-leftmost = ground (arith, v.leftmost.positive, v.leftmost.below)

  child_at-entry :
      (i : ℕ) → i < cell_count p → child_at p (suc i) ≡ ok (child_page p (offset_at p i))
  unfolding child_at
  child_at-entry i h = ground (arith, entry_child-eq p v i h)

  child_at-child_for :
      (pos : ℕ)
      → bound ≡ pos
      → pos ≤ cell_count p
      → child_at p pos ≡ ok (child_for key (leftmost_child p) (internal_view p))
  unfolding child_at
  child_at-child_for zero e h =
      leftmost_or_first-leftmost
      ∙ ap ok (sym (child_for-first key (leftmost_child p) (internal_view p) e))
  child_at-child_for (suc i) e h =
      child_at-entry i h
      ∙ ap ok (
          sym (
            child_for-get key (leftmost_child p) (internal_view p) i _ e
              (get-internal_view p v i h)))

  -- On a well-formed internal page, `internal_find_child` returns the child of the last separator
  -- that is not above the key, or the leftmost child where every separator is above it: what a
  -- linear scan of the sorted separators finds.
  pub internal_find_child-child_for :
      internal_find_child p key ≡ ok (child_for key (leftmost_child p) (internal_view p))
  unfolding internal_find_child
  internal_find_child-child_for =
      let le = upper-le key (separators (internal_view p)) in
      let found =
        child_loop-upper (suc (cell_count p)) 0 (cell_count p) (omega arith) (omega arith)
          (omega (arith, le, length-separators p)) (omega arith) in
      rw (v.level, found) (child_at-child_for bound refl (omega (arith, le, length-separators p)))

  abbrev goal : BSearchResult
  goal = position key (separators (internal_view p))

  internal_search_loop-eq :
      (fuel left right : ℕ)
      → right < left + fuel
      → left ≤ goal.index
      → goal.index ≤ right
      → (goal.found ≡ true → goal.index < right)
      → right ≤ cell_count p
      → internal_search_loop fuel p key left right ≡ goal
  unfolding internal_search_loop
  internal_search_loop-eq zero left right enough lo hi strict inside = ground arith
  internal_search_loop-eq (suc fuel) left right enough lo hi strict inside =
      elim (Bool-cases (ltb left right)) [
        | inr stop ↦ rw stop (ground arith)
        | inl go ↦
            let below : left < right = ltb→lt left right go in
            let mid = left + (right - left) / 2 in
            let inside' : mid < cell_count p = omega arith in
            let k = entry_key p (offset_at p mid) in
            let ks = separators (internal_view p) in
            let got = get-separators p v mid inside' in
            rw (go, internal_slot_key-eq p v mid inside', compare_keys-lex k key)
              (ground (
                arith,
                position_of_lt key ks mid k v.sorted got,
                position_of_gt key ks mid k v.sorted got,
                position_of_eq key ks mid k v.sorted got,
                internal_search_loop-eq fuel (mid + 1) right,
                internal_search_loop-eq fuel left mid,
              ))
      ]

  -- On a well-formed internal page, the binary search for a separator ends with its position among
  -- the separators.
  pub internal_search_record-position :
      internal_search_record p key ≡ position key (separators (internal_view p))
  unfolding internal_search_record
  internal_search_record-position =
      let ks = separators (internal_view p) in
      internal_search_loop-eq (suc (cell_count p)) 0 (cell_count p) (omega arith) (omega arith)
        (omega (arith, position-le key ks, length-separators p))
        (λ h. omega (arith, position-lt_of_found key ks h, length-separators p)) (omega arith)
