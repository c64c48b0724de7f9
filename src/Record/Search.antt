-- ===== src/Record/Search.antt =====
-- The binary search of a page finds what the linear scan of its sorted keys finds.
use advance_db.Prelude.{
  ℕ, zero, suc, ◌+◌, ◌-◌, ◌/◌, ◌<◌, ◌≤◌, ◌≡◌, ◌∙◌, true, arith, length, inl, inr, ltb→lt,
  Bool-cases, ltb,
}
use advance_db.Page.PageHeader.{Page, cell_count}
use advance_db.Record.Cell.{BSearchResult, search_loop, search_record}
use advance_db.Record.Compare.{compare_keys-lex}
use advance_db.Record.Sorted.{
  Key, keys, position, position-le, position-lt_of_found, position_of_lt, position_of_gt,
  position_of_eq,
}
use advance_db.Record.View.{
  IsPage, view, key_at, offset_at, slot_key-eq, get-keys, length-view, length-map,
}

module _ (p : Page) (key : Key) (v : IsPage p) where
  abbrev goal : BSearchResult
  goal = position key (keys (view p))

  -- One round: the comparison at `mid` moves one end of the interval past the position.
  search_loop-eq :
      (fuel left right : ℕ)
      → right < left + fuel
      → left ≤ goal.index
      → goal.index ≤ right
      → (goal.found ≡ true → goal.index < right)
      → right ≤ cell_count p
      → search_loop fuel p key left right ≡ goal
  unfolding search_loop
  search_loop-eq zero left right enough lo hi strict inside = ground arith
  search_loop-eq (suc fuel) left right enough lo hi strict inside =
      elim (Bool-cases (ltb left right)) [
        | inr stop ↦ rw stop (ground arith)
        | inl go ↦
            let below : left < right = ltb→lt left right go in
            let mid = left + (right - left) / 2 in
            let inside' : mid < cell_count p = omega arith in
            let k = key_at p (offset_at p mid) in
            let got = get-keys p v.framed v.placed mid inside' in
            rw (go, slot_key-eq p v.framed v.placed mid inside', compare_keys-lex k key)
              (ground (
                arith,
                position_of_lt key (keys (view p)) mid k v.sorted got,
                position_of_gt key (keys (view p)) mid k v.sorted got,
                position_of_eq key (keys (view p)) mid k v.sorted got,
                search_loop-eq fuel (mid + 1) right,
                search_loop-eq fuel left mid,
              ))
      ]

  pub length-keys : length (keys (view p)) ≡ cell_count p
  length-keys = length-map _ (view p) ∙ length-view p

  -- On a well-formed page the binary search ends with the position of the key among the page's
  -- keys: where it is, or else where it belongs.
  pub search_record-position : search_record p key ≡ position key (keys (view p))
  unfolding search_record
  search_record-position =
      search_loop-eq (suc (cell_count p)) 0 (cell_count p) (omega arith) (omega arith)
        (omega (arith, position-le key (keys (view p)), length-keys))
        (λ h. omega (arith, position-lt_of_found key (keys (view p)) h, length-keys)) (omega arith)
