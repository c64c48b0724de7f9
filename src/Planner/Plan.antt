-- ===== src/Planner/Plan.antt =====
-- src/planner/plan.h and src/planner/planner.cpp. A unique_ptr that is never null is its target; an
-- `Expr*` that may be null is an option.
use advance_db.Prelude.{
  Bool, true, false, Option, none, some, List, [], ◌∷◌, ℕ, String, if◌then◌else◌, Result, ok, err,
}
use advance_db.Schema.{CreateTableStmt}

-- src/executor/expr_defs.h. A number is the bit pattern of its int; `unary` has no structure there.
pub data Expr : Type 0 where
  identifier : String → Expr
  number : ℕ → Expr
  string : String → Expr
  unary : Expr
  binary : String → Expr → Expr → Expr

pub record Assignment : Type 0 where
  pub column : String
  pub value : Expr

pub record SelectStmt : Type 0 where
  pub columns : List Expr
  pub table : String
  pub where_clause : Option Expr
  pub order_by : List Expr
  pub group_by : List Expr

pub record InsertStmt : Type 0 where
  pub table : String
  pub columns : List String
  pub values : List Expr

pub record UpdateStmt : Type 0 where
  pub table : String
  pub assignments : List Assignment
  pub where_clause : Option Expr

pub record DeleteStmt : Type 0 where
  pub table : String
  pub where_clause : Option Expr

pub data CreateStmt : Type 0 where
  create_database : String → CreateStmt
  create_table : CreateTableStmt → CreateStmt

pub data Statement : Type 0 where
  select : SelectStmt → Statement
  create : CreateStmt → Statement
  insert : InsertStmt → Statement
  update : UpdateStmt → Statement
  delete : DeleteStmt → Statement
  use_database : String → Statement

pub data Plan : Type 0 where
  seq_scan : String → Plan
  index_scan : String → String → Plan
  filter : Expr → Plan → Plan
  project : List Expr → Plan → Plan
  sort : List Expr → Plan → Plan
  insert_into : String → List String → Plan → Plan
  update_rows : String → List Assignment → Plan → Plan
  delete_rows : String → Plan → Plan
  collect : Plan → Plan
  values : List Expr → Plan

unfoldable pub needs_collection : Plan → Bool
needs_collection (seq_scan table) = true
needs_collection (index_scan table index) = true
needs_collection (filter predicate source) = needs_collection source
needs_collection (project projections source) = needs_collection source
needs_collection (values exprs) = false
needs_collection (collect source) = false
needs_collection (sort order_by source) = false
needs_collection (insert_into table columns source) = false
needs_collection (update_rows table assignments source) = false
needs_collection (delete_rows table source) = false

abbrev pub is_empty {ℓ} : {A : Type ℓ} → List A → Bool
is_empty [] = true
is_empty (x ∷ xs) = false

-- A WHERE clause puts a filter on the scan.
abbrev pub with_where : Option Expr → Plan → Plan
with_where none plan = plan
with_where (some predicate) plan = filter predicate plan

unfoldable pub build_select_plan : SelectStmt → Plan
build_select_plan stmt =
    let scan = with_where stmt.where_clause (seq_scan stmt.table) in
    let sorted = if is_empty stmt.order_by then scan else sort stmt.order_by (collect scan) in
    if is_empty stmt.columns then sorted else project stmt.columns sorted

unfoldable pub build_insert_plan : InsertStmt → Plan
build_insert_plan stmt = insert_into stmt.table stmt.columns (values stmt.values)

-- The barrier in front of a mutation.
abbrev pub collected : Plan → Plan
collected plan = if needs_collection plan then collect plan else plan

unfoldable pub build_update_plan : UpdateStmt → Plan
build_update_plan stmt =
    update_rows stmt.table stmt.assignments
      (collected (with_where stmt.where_clause (seq_scan stmt.table)))

unfoldable pub build_delete_plan : DeleteStmt → Plan
build_delete_plan stmt =
    delete_rows stmt.table (collected (with_where stmt.where_clause (seq_scan stmt.table)))

pub data PlanError : Type 0 where
  create_has_no_plan unsupported_statement : PlanError

unfoldable pub build_plan : Statement → Result PlanError Plan
build_plan (select stmt) = ok (build_select_plan stmt)
build_plan (insert stmt) = ok (build_insert_plan stmt)
build_plan (update stmt) = ok (build_update_plan stmt)
build_plan (delete stmt) = ok (build_delete_plan stmt)
build_plan (create stmt) = err create_has_no_plan
build_plan (use_database name) = err unsupported_statement
