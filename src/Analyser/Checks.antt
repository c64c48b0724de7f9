-- ===== src/Analyser/Checks.antt =====
-- Which CREATE TABLE statements the analyser lets through to the catalog.
use advance_db.Prelude.{
  ◌≤◌, ◌≡◌, ◌≢◌, ◌↔◌, refl, ap, true, false, Option, none, some, List, [], ◌∷◌, ◌++◌, String,
  eq_string_refl, inl, inr, Bool-cases, eq_of_eq_string, ok, arith,
}
use advance_db.Schema.{ColumnDef, CreateTableStmt}
use advance_db.Planner.Plan.{create, create_table, is_empty}
use advance_db.Analyser.{
  Managers, AnalysisResult, has_column, has_duplicate, pk_count, outcome, analyse_create_table,
  analyse,
}

-- No column has this name.
abbrev pub IsNew : String → List ColumnDef → Type 0
IsNew name [] = Unit
IsNew name (col ∷ cols) = (name ≢ col.name) × IsNew name cols

abbrev pub NamesDiffer : List ColumnDef → Type 0
NamesDiffer [] = Unit
NamesDiffer (col ∷ cols) = IsNew col.name cols × NamesDiffer cols

IsNew-has_column :
    (name : String) (cols : List ColumnDef) → (has_column name cols ≡ false) ↔ IsNew name cols
unfolding has_column
IsNew-has_column name [] = (λ h. tt, λ h. refl)
IsNew-has_column name (col ∷ cols) =
    let (there, back) = IsNew-has_column name cols in
    (
      λ h. (λ e. ground (arith, h, e, eq_string_refl name), there (ground (arith, h))),
      λ h. ground (arith, back h.1, h.0, eq_of_eq_string name col.name),
    )

NamesDiffer-has_duplicate :
    (cols : List ColumnDef) → (has_duplicate cols ≡ false) ↔ NamesDiffer cols
unfolding has_duplicate
NamesDiffer-has_duplicate [] = (λ h. tt, λ h. refl)
NamesDiffer-has_duplicate (col ∷ cols) =
    let (there, back) = NamesDiffer-has_duplicate cols in
    let (new, old) = IsNew-has_column col.name cols in
    (
      λ h. (new (ground (arith, h)), there (ground (arith, h))),
      λ h. ground (arith, old h.0, back h.1),
    )

abbrev pub HasNoKey : List ColumnDef → Type 0
HasNoKey [] = Unit
HasNoKey (col ∷ cols) = (col.is_primary_key ≡ false) × HasNoKey cols

-- No column behind a primary key is one.
abbrev pub HasOneKeyAtMost : List ColumnDef → Type 0
HasOneKeyAtMost [] = Unit
HasOneKeyAtMost (col ∷ cols) = (col.is_primary_key ≡ true → HasNoKey cols) × HasOneKeyAtMost cols

pk_count-HasNoKey : (cols : List ColumnDef) → (pk_count cols ≡ 0) ↔ HasNoKey cols
unfolding pk_count
pk_count-HasNoKey [] = (λ h. tt, λ h. refl)
pk_count-HasNoKey (col ∷ cols) =
    let (there, back) = pk_count-HasNoKey cols in
    (λ h. (ground (arith, h), there (ground (arith, h))), λ h. ground (arith, h.0, back h.1))

pk_count-HasOneKeyAtMost : (cols : List ColumnDef) → (pk_count cols ≤ 1) ↔ HasOneKeyAtMost cols
unfolding pk_count
pk_count-HasOneKeyAtMost [] = (λ h. tt, λ h. omega arith)
pk_count-HasOneKeyAtMost (col ∷ cols) =
    let (there, back) = pk_count-HasOneKeyAtMost cols in
    let (no_key, all) = pk_count-HasNoKey cols in
    (
      λ h. (λ e. no_key (ground (arith, h, e)), there (ground (arith, h))),
      λ h. elim (Bool-cases col.is_primary_key) [
        | inl e ↦ ground (arith, e, all (h.0 e))
        | inr e ↦ ground (arith, e, back h.1)
      ],
    )

-- ".ibd"
abbrev pub ibd : String
ibd = 46 ∷ 105 ∷ 98 ∷ 100 ∷ []

-- The result that names the statement, and nothing else.
abbrev pub only_table : CreateTableStmt → AnalysisResult
only_table stmt = record {
  create_database_name = none;
  create_table_stmt = some stmt;
  use_database_name = none;
}

-- What the statement and the state must be for the analyser to go to the catalog.
pub record Allowed (m : Managers) (stmt : CreateTableStmt) (s : m.State) (db_path : String)
    : Type 0 where
  pub selected : db_path ≢ []
  pub engine : m.has_storage_engine s ≡ true
  pub new_table : m.path_exists (db_path ++ stmt.table_name ++ ibd) s ≡ false
  pub columns : stmt.columns ≢ []
  pub names : NamesDiffer stmt.columns
  pub one_key : HasOneKeyAtMost stmt.columns

not_empty {ℓ} : {A : Type ℓ} (xs : List A) → xs ≢ [] → is_empty xs ≡ false
not_empty [] h = absurd (h refl)
not_empty (x ∷ xs) h = refl

outcome-some :
    (m : Managers) (r : AnalysisResult) (o : Option (m.State)) (t : m.State)
    → outcome m r o ≡ ok (r, t)
    → o ≡ some t
outcome-some m r none t e = absurd (ground (arith, e))
outcome-some m r (some s) t e = ground (arith, e)

-- The analyser accepts a CREATE TABLE statement, which its result then names, and ends in the state `t` exactly if a database is
-- selected and has its engine, the table's file does not exist, the statement has columns, whose
-- names differ and at most one of which is a primary key, and the catalog makes the table with
-- that state.
pub analyse-Allowed :
    (m : Managers) (stmt : CreateTableStmt) (s t : m.State) (db_path : String)
    → (analyse m (create (create_table stmt)) s db_path ≡ ok (only_table stmt, t))
      ↔ (Allowed m stmt s db_path × (m.create_table_meta db_path stmt.table_name stmt s ≡ some t))
unfolding analyse analyse_create_table
analyse-Allowed m stmt s t db_path =
    let (there, back) = NamesDiffer-has_duplicate stmt.columns in
    let (keys, counted) = pk_count-HasOneKeyAtMost stmt.columns in
    let made = m.create_table_meta db_path stmt.table_name stmt s in
    (
      λ e. (
        record {
          selected = λ z. ground (arith, e, ap is_empty z);
          engine = ground (arith, e);
          new_table = ground (arith, e);
          columns = λ z. ground (arith, e, ap is_empty z);
          names = there (ground (arith, e));
          one_key = keys (ground (arith, e));
        },
        outcome-some m (only_table stmt) made t (ground (arith, e)),
      ),
      λ (a, done). ground (
        arith,
        not_empty db_path a.selected,
        a.engine,
        a.new_table,
        not_empty stmt.columns a.columns,
        back a.names,
        counted a.one_key,
        done,
      ),
    )
