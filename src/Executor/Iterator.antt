-- ===== src/Executor/Iterator.antt =====
-- src/executor/storage.cpp, executors.cpp, executor_factory.cpp and executor.cpp. A scan keeps its
-- table's name, for its pointer into the storage, and its cursor.
use advance_db.Prelude.{
  ℕ, zero, suc, ◌+◌, Bool, true, false, Option, none, some, List, [], ◌∷◌, ◌++◌, String, eq_string,
  length, get_elem?, if◌then◌else◌, Result, ok, err, ◌>>=◌,
}
use advance_db.Planner.Plan.{
  Expr, Plan, seq_scan, index_scan, filter, project, sort, insert_into, update_rows, delete_rows,
  collect, values,
}
use advance_db.Executor.Evaluator.{
  int_value, string_value, Tuple, EvalError, evaluate_expr, evaluate_predicate,
}

abbrev pub Storage : Type 0
Storage = String → Option (List Tuple)

-- The dummy data: the table "users" with Alice, Bob and Carol.
abbrev pub new_storage : Storage
new_storage name =
    if eq_string name (117 ∷ 115 ∷ 101 ∷ 114 ∷ 115 ∷ [])
    then some (
        (int_value 1 ∷ string_value (65 ∷ 108 ∷ 105 ∷ 99 ∷ 101 ∷ []) ∷ int_value 20 ∷ [])
        ∷ (int_value 2 ∷ string_value (66 ∷ 111 ∷ 98 ∷ []) ∷ int_value 17 ∷ [])
        ∷ (int_value 3 ∷ string_value (67 ∷ 97 ∷ 114 ∷ 111 ∷ 108 ∷ []) ∷ int_value 25 ∷ [])
        ∷ [])
    else none

unfoldable pub has_table : String → Storage → Bool
has_table name tables = elim (tables name) [ none ↦ false | some t ↦ true ]

-- The rows of a table, which is empty until it is asked for.
abbrev pub rows : Storage → String → List Tuple
rows tables name = elim (tables name) [ none ↦ [] | some t ↦ t ]

-- `get_table` makes the table if there is none.
unfoldable pub get_table : String → Storage → Storage
get_table name tables other = if eq_string other name then some (rows tables name) else tables other

unfoldable pub insert_row : String → Tuple → Storage → Storage
unfolding get_table
insert_row name tuple tables other =
    if eq_string other name
    then some (rows (get_table name tables) name ++ tuple ∷ [])
    else get_table name tables other

pub data Executor : Type 0 where
  scan_executor : String → ℕ → Executor
  filter_executor : Executor → Expr → List String → Executor
  project_executor : Executor → List Expr → List String → Executor

pub data ExecError : Type 0 where
  evaluation : EvalError → ExecError
  unsupported_plan : ExecError
  out_of_fuel : ExecError

abbrev pub lift {ℓ} : {A : Type ℓ} → Result EvalError A → Result ExecError A
lift (ok a) = ok a
lift (err e) = err (evaluation e)

unfoldable pub project_row : List Expr → Tuple → List String → Result EvalError Tuple
project_row [] tuple columns = ok []
project_row (e ∷ es) tuple columns =
    evaluate_expr e tuple columns >>= λ v. project_row es tuple columns >>= λ vs. ok (v ∷ vs)

abbrev pub Pulled : Type 0
Pulled = Result ExecError (Option Tuple × Executor)

abbrev pub scanned : String → ℕ → Option Tuple → Pulled
scanned table cursor none = ok (none, scan_executor table cursor)
scanned table cursor (some tuple) = ok (some tuple, scan_executor table (cursor + 1))

abbrev pub projected : List Expr → List String → Option Tuple × Executor → Pulled
projected projections columns (none, child) = ok (none, project_executor child projections columns)
projected projections columns (some tuple, child) =
    lift (project_row projections tuple columns) >>= λ out.
    ok (some out, project_executor child projections columns)

-- `next`. The fuel counts the calls below one another and the rounds of the filter's loop; a node's
-- depth and the rows behind the cursor are enough: Executor/Pipeline.
unfoldable pub next : ℕ → Storage → Executor → Pulled
next zero storage e = err out_of_fuel
next (suc fuel) storage (scan_executor table cursor) =
    scanned table cursor (get_elem? (rows storage table) cursor)
next (suc fuel) storage (project_executor child projections columns) =
    next fuel storage child >>= projected projections columns
next (suc fuel) storage (filter_executor child predicate columns) =
    next fuel storage child >>= λ (found, child'). elim found [
      | none ↦ ok (none, filter_executor child' predicate columns)
      | some tuple ↦ lift (evaluate_predicate predicate tuple columns) >>= λ passes. elim passes [
        | true ↦ ok (some tuple, filter_executor child' predicate columns)
        | false ↦ next fuel storage (filter_executor child' predicate columns)
      ]
    ]

abbrev pub Schema : Type 0
Schema = String → Option (List String)

-- The walk down to the base table; no columns if there is none or it is not in the schema.
unfoldable pub base_columns : Schema → Plan → List String
base_columns schema (seq_scan table) = elim (schema table) [ none ↦ [] | some columns ↦ columns ]
base_columns schema (filter predicate source) = base_columns schema source
base_columns schema (project projections source) = base_columns schema source
base_columns schema (index_scan table index) = []
base_columns schema (sort order_by source) = []
base_columns schema (insert_into table columns source) = []
base_columns schema (update_rows table assignments source) = []
base_columns schema (delete_rows table source) = []
base_columns schema (collect source) = []
base_columns schema (values exprs) = []

-- The executor and the storage, in which a scanned table may have been made.
unfoldable pub build_executor : Plan → Storage → Schema → Result ExecError (Executor × Storage)
build_executor (seq_scan table) storage schema = ok (scan_executor table 0, get_table table storage)
build_executor (filter predicate source) storage schema =
    build_executor source storage schema >>= λ (child, storage').
    ok (filter_executor child predicate (base_columns schema source), storage')
build_executor (project projections source) storage schema =
    build_executor source storage schema >>= λ (child, storage').
    ok (project_executor child projections (base_columns schema source), storage')
build_executor (index_scan table index) storage schema = err unsupported_plan
build_executor (sort order_by source) storage schema = err unsupported_plan
build_executor (insert_into table columns source) storage schema = err unsupported_plan
build_executor (update_rows table assignments source) storage schema = err unsupported_plan
build_executor (delete_rows table source) storage schema = err unsupported_plan
build_executor (collect source) storage schema = err unsupported_plan
build_executor (values exprs) storage schema = err unsupported_plan

-- The loop of `execute_plan`, with the fuel of `next` and the fuel for its own rounds.
unfoldable pub pull : ℕ → ℕ → Storage → Executor → Result ExecError (List Tuple)
pull fuel zero storage e = err out_of_fuel
pull fuel (suc rounds) storage e = next fuel storage e >>= λ (found, e'). elim found [
  | none ↦ ok []
  | some tuple ↦ pull fuel rounds storage e' >>= λ results. ok (tuple ∷ results)
]

abbrev pub depth : Executor → ℕ
depth (scan_executor table cursor) = 0
depth (filter_executor child predicate columns) = suc (depth child)
depth (project_executor child projections columns) = suc (depth child)

abbrev pub base_table : Executor → String
base_table (scan_executor table cursor) = table
base_table (filter_executor child predicate columns) = base_table child
base_table (project_executor child projections columns) = base_table child

unfoldable pub execute_plan : Plan → Storage → Schema → Result ExecError (List Tuple)
execute_plan plan storage schema = build_executor plan storage schema >>= λ (root, storage').
    let count = length (rows storage' (base_table root)) in
    pull (suc (suc (depth root + count))) (suc count) storage' root
