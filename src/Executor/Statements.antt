-- ===== src/Executor/Statements.antt =====
-- Planner and executor together: which statements can be run, and what a SELECT returns.
use advance_db.Prelude.{
  ◌≡◌, refl, Option, none, some, List, [], ◌∷◌, String, Bool, false, ok, err, ◌>>=◌, arith,
}
use advance_db.Planner.Plan.{
  Expr, SelectStmt, Statement, select, create, insert, update, delete, use_database, Plan, seq_scan,
  filter, project, is_empty, build_select_plan, build_insert_plan, build_update_plan,
  build_delete_plan, build_plan,
}
use advance_db.Executor.Evaluator.{Tuple}
use advance_db.Executor.Iterator.{
  Storage, Schema, rows, base_columns, execute_plan, unsupported_plan,
}
use advance_db.Executor.Pipeline.{Outcome, kept, mapped, run_rows}
use advance_db.Executor.Execute.{execute_plan-run_rows, execute_plan-unsupported}

-- The table's columns, as the schema has them.
abbrev pub columns_of : Schema → String → List String
columns_of schema table = elim (schema table) [ none ↦ [] | some columns ↦ columns ]

abbrev pub where_row : Schema → SelectStmt → Tuple → Outcome
where_row schema s t = elim s.where_clause [
  | none ↦ ok (some t)
  | some predicate ↦ kept predicate (columns_of schema s.table) (some t)
]

-- What a SELECT without ORDER BY says of a row: the WHERE clause, then the columns, if any are
-- listed.
abbrev pub select_row : Schema → SelectStmt → Tuple → Outcome
select_row schema s t = elim s.columns [
  | [] ↦ where_row schema s t
  | e ∷ es ↦ where_row schema s t >>= mapped (e ∷ es) (columns_of schema s.table)
]

select-means :
    (s : SelectStmt) (schema : Schema) (storage : Storage) (columns : List Expr)
    (condition : Option Expr)
    → s.columns ≡ columns
    → s.where_clause ≡ condition
    → s.order_by ≡ []
    → execute_plan (build_select_plan s) storage schema
      ≡ run_rows (select_row schema s) (rows storage s.table)
unfolding build_select_plan base_columns
select-means s schema storage [] none e f g =
    rw (e, f, g, build_select_plan)
      (execute_plan-run_rows (seq_scan s.table) storage schema s.table refl)
select-means s schema storage [] (some p) e f g =
    rw (e, f, g, build_select_plan)
      (execute_plan-run_rows (filter p (seq_scan s.table)) storage schema s.table refl)
select-means s schema storage (c ∷ cs) none e f g =
    rw (e, f, g, build_select_plan)
      (execute_plan-run_rows (project (c ∷ cs) (seq_scan s.table)) storage schema s.table refl)
select-means s schema storage (c ∷ cs) (some p) e f g =
    rw (e, f, g, build_select_plan)
      (execute_plan-run_rows (project (c ∷ cs) (filter p (seq_scan s.table))) storage schema s.table
        refl)

-- A SELECT without ORDER BY returns, in the table's order, the listed columns of the rows that
-- pass the WHERE clause, or the first exception.
pub execute_select :
    (s : SelectStmt) (schema : Schema) (storage : Storage)
    → s.order_by ≡ []
    → execute_plan (build_select_plan s) storage schema
      ≡ run_rows (select_row schema s) (rows storage s.table)
execute_select s schema storage g =
    select-means s schema storage s.columns s.where_clause refl refl g

-- The statements whose plans the executor knows.
abbrev pub is_plain_select : Statement → Bool
is_plain_select (select s) = is_empty s.order_by
is_plain_select s = false

-- The plan of any statement but a SELECT without ORDER BY, where `build_plan` makes one, is
-- refused by the executor, whatever the storage and the schema are.
pub execute_other :
    (s : Statement) (p : Plan) (schema : Schema) (storage : Storage)
    → build_plan s ≡ ok p
    → is_plain_select s ≡ false
    → execute_plan p storage schema ≡ err unsupported_plan
unfolding build_plan build_select_plan build_insert_plan build_update_plan build_delete_plan
execute_other (select s) p schema storage e f =
    execute_plan-unsupported p storage schema (ground (arith, e, f))
execute_other (insert s) p schema storage e f =
    execute_plan-unsupported p storage schema (ground (arith, e, f))
execute_other (update s) p schema storage e f =
    execute_plan-unsupported p storage schema (ground (arith, e, f))
execute_other (delete s) p schema storage e f =
    execute_plan-unsupported p storage schema (ground (arith, e, f))
execute_other (create s) p schema storage e f = absurd (ground (arith, e))
execute_other (use_database s) p schema storage e f = absurd (ground (arith, e))
