-- ===== src/Executor/Execute.antt =====
-- `build_executor` and `execute_plan`: what a plan computes, and which plans have no executor.
use advance_db.Prelude.{
  suc, ◌+◌, ◌≡◌, refl, fun_ext, sym, ap, ◌∙◌, Option, none, some, List, String, eq_string, length,
  arith, inl, inr, eq_of_eq_string, ok, err, ◌>>=◌, Bool-cases,
}
use advance_db.Planner.Plan.{
  Plan, seq_scan, index_scan, filter, project, sort, insert_into, update_rows, delete_rows, collect,
  values,
}
use advance_db.Executor.Evaluator.{Tuple}
use advance_db.Executor.Iterator.{
  Storage, rows, get_table, Executor, scan_executor, filter_executor, project_executor,
  unsupported_plan, Schema, base_columns, build_executor, pull, depth, base_table, execute_plan,
}
use advance_db.Executor.Pipeline.{Outcome, kept, mapped, row, run_rows, at, pull-run_rows}

-- What a plan says of a row of its base table.
abbrev pub plan_row : Schema → Plan → Tuple → Outcome
plan_row schema (seq_scan table) t = ok (some t)
plan_row schema (filter predicate source) t =
    plan_row schema source t >>= kept predicate (base_columns schema source)
plan_row schema (project projections source) t =
    plan_row schema source t >>= mapped projections (base_columns schema source)
plan_row schema (index_scan table index) t = err unsupported_plan
plan_row schema (sort order_by source) t = err unsupported_plan
plan_row schema (insert_into table columns source) t = err unsupported_plan
plan_row schema (update_rows table assignments source) t = err unsupported_plan
plan_row schema (delete_rows table source) t = err unsupported_plan
plan_row schema (collect source) t = err unsupported_plan
plan_row schema (values exprs) t = err unsupported_plan

-- The table that a scan with filters and projections on it reads; other plans have none.
abbrev pub scanned_table : Plan → Option String
scanned_table (seq_scan table) = some table
scanned_table (filter predicate source) = scanned_table source
scanned_table (project projections source) = scanned_table source
scanned_table (index_scan table index) = none
scanned_table (sort order_by source) = none
scanned_table (insert_into table columns source) = none
scanned_table (update_rows table assignments source) = none
scanned_table (delete_rows table source) = none
scanned_table (collect source) = none
scanned_table (values exprs) = none

rows-get_table :
    (storage : Storage) (table other : String)
    → rows (get_table table storage) other ≡ rows storage other
unfolding get_table
rows-get_table storage table other = elim (Bool-cases (eq_string other table)) [
  | inl same ↦ rw (same, rows) (ap (rows storage) (sym (eq_of_eq_string other table same)))
  | inr different ↦ rw (different, rows) refl
]

-- The executor that is built: at its start, with the plan's meaning for a row.
record Built (schema : Schema) (storage : Storage) (plan : Plan) (table : String) : Type 0 where
  pub root : Executor
  pub storage' : Storage
  pub built : build_executor plan storage schema ≡ ok (root, storage')
  pub starts : at root 0 ≡ root
  pub reads : base_table root ≡ table
  pub means : (t : Tuple) → row root t ≡ plan_row schema plan t
  pub kept_rows : (other : String) → rows storage' other ≡ rows storage other

build_executor-Built :
    (schema : Schema) (storage : Storage) (plan : Plan) (table : String)
    → scanned_table plan ≡ some table
    → Built schema storage plan table
unfolding build_executor
build_executor-Built schema storage (seq_scan name) table e =
    let same : name ≡ table = ground (arith, e) in
    record {
      root = scan_executor name 0;
      storage' = get_table name storage;
      built = refl;
      starts = refl;
      reads = same;
      means = λ t. refl;
      kept_rows = rows-get_table storage name;
    }
build_executor-Built schema storage (filter predicate source) table e =
    let below = build_executor-Built schema storage source table e in
    record {
      root = filter_executor below.root predicate (base_columns schema source);
      storage' = below.storage';
      built = rw (below.built) refl;
      starts = rw (below.starts) refl;
      reads = below.reads;
      means = λ t. rw (below.means t) refl;
      kept_rows = below.kept_rows;
    }
build_executor-Built schema storage (project projections source) table e =
    let below = build_executor-Built schema storage source table e in
    record {
      root = project_executor below.root projections (base_columns schema source);
      storage' = below.storage';
      built = rw (below.built) refl;
      starts = rw (below.starts) refl;
      reads = below.reads;
      means = λ t. rw (below.means t) refl;
      kept_rows = below.kept_rows;
    }
build_executor-Built schema storage (index_scan t index) table e = absurd (ground (arith, e))
build_executor-Built schema storage (sort order_by source) table e = absurd (ground (arith, e))
build_executor-Built schema storage (insert_into t columns source) table e =
    absurd (ground (arith, e))
build_executor-Built schema storage (update_rows t assignments source) table e =
    absurd (ground (arith, e))
build_executor-Built schema storage (delete_rows t source) table e = absurd (ground (arith, e))
build_executor-Built schema storage (collect source) table e = absurd (ground (arith, e))
build_executor-Built schema storage (values exprs) table e = absurd (ground (arith, e))

run_rows-ext :
    (f g : Tuple → Outcome) (ts : List Tuple)
    → ((t : Tuple) → f t ≡ g t)
    → run_rows f ts ≡ run_rows g ts
run_rows-ext f g ts h = ap (λ k. run_rows k ts) (fun_ext h)

-- A plan that is a scan under filters and projections, executed with the fuel that
-- `execute_plan` gives, computes what its rows give one by one: each row of the table in order,
-- through every filter and projection, up to the first exception.
pub execute_plan-run_rows :
    (plan : Plan) (storage : Storage) (schema : Schema) (table : String)
    → scanned_table plan ≡ some table
    → execute_plan plan storage schema ≡ run_rows (plan_row schema plan) (rows storage table)
unfolding execute_plan
execute_plan-run_rows plan storage schema table e =
    let b = build_executor-Built schema storage plan table e in
    let ts = rows b.storage' (base_table b.root) in
    let n = length ts in
    let same : ts ≡ rows storage table =
      b.kept_rows (base_table b.root) ∙ ap (rows storage) b.reads in
    let run =
      pull-run_rows b.storage' (suc (suc (depth b.root + n))) (suc n) b.root ts 0 refl (omega arith)
        (omega arith) in
    rw (b.built, execute_plan)
      (ap (λ r. pull (suc (suc (depth b.root + n))) (suc n) b.storage' r) (sym b.starts)
        ∙ run
        ∙ ap (run_rows (row b.root)) same
        ∙ run_rows-ext (row b.root) (plan_row schema plan) (rows storage table) b.means)

refused :
    (plan : Plan) (storage : Storage) (schema : Schema)
    → scanned_table plan ≡ none
    → build_executor plan storage schema ≡ err unsupported_plan
unfolding build_executor
refused (seq_scan name) storage schema e = absurd (ground (arith, e))
refused (filter predicate source) storage schema e = rw (refused source storage schema e) refl
refused (project projections source) storage schema e = rw (refused source storage schema e) refl
refused (index_scan t index) storage schema e = refl
refused (sort order_by source) storage schema e = refl
refused (insert_into t columns source) storage schema e = refl
refused (update_rows t assignments source) storage schema e = refl
refused (delete_rows t source) storage schema e = refl
refused (collect source) storage schema e = refl
refused (values exprs) storage schema e = refl

-- A plan with any other node than a scan, a filter or a projection on the way down to its scan
-- is refused, whatever the storage and the schema are.
pub execute_plan-unsupported :
    (plan : Plan) (storage : Storage) (schema : Schema)
    → scanned_table plan ≡ none
    → execute_plan plan storage schema ≡ err unsupported_plan
unfolding execute_plan
execute_plan-unsupported plan storage schema e =
    rw (refused plan storage schema e, execute_plan) refl
