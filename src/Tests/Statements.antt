-- ===== src/Tests/Statements.antt =====
-- A table of two rows, and statements on it.
use advance_db.Prelude.{◌≡◌, refl, true, none, some, [], ◌∷◌, String, ok, err}
use advance_db.Planner.Plan.{
  identifier, number, binary, SelectStmt, DeleteStmt, delete, Plan, seq_scan, filter, build_plan,
  build_select_plan, build_delete_plan,
}
use advance_db.Planner.Shape.{is_cursor_safe, build_plan-safe}
use advance_db.Executor.Evaluator.{Value, int_value}
use advance_db.Executor.Iterator.{Storage, Schema, rows, execute_plan, unsupported_plan}
use advance_db.Executor.Pipeline.{run_rows}
use advance_db.Executor.Execute.{plan_row, execute_plan-run_rows}
use advance_db.Executor.Statements.{select_row, execute_select, execute_other}

abbrev storage : Storage
storage name = some ((int_value 1 ∷ int_value 20 ∷ []) ∷ (int_value 2 ∷ int_value 17 ∷ []) ∷ [])

abbrev schema : Schema
schema name = some ((105 ∷ []) ∷ (97 ∷ []) ∷ [])

abbrev users : String
users = 117 ∷ []

-- SELECT i FROM u WHERE a > 18
abbrev adults : SelectStmt
adults = record {
  columns = identifier (105 ∷ []) ∷ [];
  table = users;
  where_clause = some (binary (62 ∷ []) (identifier (97 ∷ [])) (number 18));
  order_by = [];
  group_by = [];
}

execute_select_example :
    execute_plan (build_select_plan adults) storage schema
    ≡ run_rows (select_row schema adults) (rows storage users)
execute_select_example = execute_select adults schema storage refl

-- DELETE FROM u
abbrev clear : DeleteStmt
clear = record { table = users; where_clause = none }

abbrev clear_plan : Plan
clear_plan = build_delete_plan clear

cleared : build_plan (delete clear) ≡ ok clear_plan
unfolding build_plan
cleared = refl

execute_other_example : execute_plan clear_plan storage schema ≡ err unsupported_plan
execute_other_example = execute_other (delete clear) clear_plan schema storage cleared refl

build_plan-safe_example : is_cursor_safe clear_plan ≡ true
build_plan-safe_example = build_plan-safe (delete clear) clear_plan cleared

abbrev scan : Plan
scan = filter (number 1) (seq_scan users)

execute_plan-run_rows_example :
    execute_plan scan storage schema ≡ run_rows (plan_row schema scan) (rows storage users)
execute_plan-run_rows_example = execute_plan-run_rows scan storage schema users refl

abbrev small : Value
small = int_value 3

abbrev minus_one : Value
minus_one = int_value 4294967295
