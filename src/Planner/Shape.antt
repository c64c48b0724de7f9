-- ===== src/Planner/Shape.antt =====
-- The plans that `build_plan` makes: no mutation runs on an open cursor.
use advance_db.Prelude.{◌≡◌, refl, Bool, true, false, ◌&&◌, not, ok, arith}
use advance_db.Planner.Plan.{
  Statement, select, create, insert, update, delete, use_database, Plan, seq_scan, index_scan,
  filter, project, sort, insert_into, update_rows, delete_rows, collect, values, needs_collection,
  build_select_plan, build_insert_plan, build_update_plan, build_delete_plan, build_plan,
}

-- An independent account of cursors: a node yields its rows from an open cursor unless something
-- below it has read its source to the end.
abbrev pub streams : Plan → Bool
streams (seq_scan table) = true
streams (index_scan table index) = true
streams (filter predicate source) = streams source
streams (project projections source) = streams source
streams (sort order_by source) = false
streams (insert_into table columns source) = false
streams (update_rows table assignments source) = false
streams (delete_rows table source) = false
streams (collect source) = false
streams (values exprs) = false

-- No mutation, anywhere in the plan, takes its rows from an open cursor, and a sort has all of its
-- rows in hand.
abbrev pub is_cursor_safe : Plan → Bool
is_cursor_safe (seq_scan table) = true
is_cursor_safe (index_scan table index) = true
is_cursor_safe (filter predicate source) = is_cursor_safe source
is_cursor_safe (project projections source) = is_cursor_safe source
is_cursor_safe (sort order_by source) = not (streams source) && is_cursor_safe source
is_cursor_safe (insert_into table columns source) = not (streams source) && is_cursor_safe source
is_cursor_safe (update_rows table assignments source) =
    not (streams source) && is_cursor_safe source
is_cursor_safe (delete_rows table source) = not (streams source) && is_cursor_safe source
is_cursor_safe (collect source) = is_cursor_safe source
is_cursor_safe (values exprs) = true

-- `needs_collection` finds every plan that yields its rows from an open cursor, and no other.
pub needs_collection-streams : (p : Plan) → needs_collection p ≡ streams p
unfolding needs_collection
needs_collection-streams (seq_scan table) = refl
needs_collection-streams (index_scan table index) = refl
needs_collection-streams (filter predicate source) = needs_collection-streams source
needs_collection-streams (project projections source) = needs_collection-streams source
needs_collection-streams (sort order_by source) = refl
needs_collection-streams (insert_into table columns source) = refl
needs_collection-streams (update_rows table assignments source) = refl
needs_collection-streams (delete_rows table source) = refl
needs_collection-streams (collect source) = refl
needs_collection-streams (values exprs) = refl

-- In every plan that `build_plan` returns, no mutation takes its rows from an open cursor, and
-- a sort reads a collected source.
pub build_plan-safe : (s : Statement) (p : Plan) → build_plan s ≡ ok p → is_cursor_safe p ≡ true
unfolding build_plan build_select_plan build_insert_plan build_update_plan build_delete_plan
    needs_collection
build_plan-safe (select stmt) p e = ground (arith, e)
build_plan-safe (insert stmt) p e = ground (arith, e)
build_plan-safe (update stmt) p e = ground (arith, e)
build_plan-safe (delete stmt) p e = ground (arith, e)
build_plan-safe (create stmt) p e = ground (arith, e)
build_plan-safe (use_database name) p e = ground (arith, e)
