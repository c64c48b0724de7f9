-- ===== src/Analyser.antt =====
-- include/analyser/analyser.h and src/analyser/analyser.cpp, over the database manager, the catalog
-- manager and the file system, whose operations are an interface. An operation that may throw
-- returns an option.
pub mod Checks
use advance_db.Prelude.{
  ℕ, ◌+◌, Bool, true, false, ◌||◌, Option, none, some, List, [], ◌∷◌, ◌++◌, String, eq_string, ltb,
  not, if◌then◌else◌, Result, ok, err,
}
use advance_db.Schema.{ColumnDef, CreateTableStmt}
use advance_db.Planner.Plan.{
  Statement, select, create, insert, update, delete, use_database, create_database, create_table,
  is_empty,
}

pub record Managers : Type 1 where
  pub State : Type 0
  pub database_exists : String → State → Bool
  pub use_db : String → State → Option State
  pub create_db : String → State → Option State
  -- get_storage_engine() is not null
  pub has_storage_engine : State → Bool
  -- std::filesystem::exists
  pub path_exists : String → State → Bool
  pub create_table_meta : String → String → CreateTableStmt → State → Option State

pub record AnalysisResult : Type 0 where
  pub create_database_name : Option String
  pub create_table_stmt : Option CreateTableStmt
  pub use_database_name : Option String

pub data AnalyseError : Type 0 where
  database_does_not_exist database_already_exists no_database_selected table_already_exists
        no_columns duplicate_column_name several_primary_keys unsupported_statement_type
        manager_threw :
      AnalyseError

abbrev pub table_extension : String
table_extension = 46 ∷ 105 ∷ 98 ∷ 100 ∷ []

unfoldable pub has_column : String → List ColumnDef → Bool
has_column name [] = false
has_column name (col ∷ cols) = eq_string name col.name || has_column name cols

-- The two loops over pairs of columns.
unfoldable pub has_duplicate : List ColumnDef → Bool
unfolding has_column
has_duplicate [] = false
has_duplicate (col ∷ cols) = has_column col.name cols || has_duplicate cols

unfoldable pub pk_count : List ColumnDef → ℕ
pk_count [] = 0
pk_count (col ∷ cols) = (if col.is_primary_key then 1 else 0) + pk_count cols

module _ (m : Managers) where
  open m use {
    State, database_exists, use_db, create_db, has_storage_engine, path_exists, create_table_meta,
  }

  abbrev pub Analysed : Type 0
  Analysed = Result AnalyseError (AnalysisResult × State)

  abbrev pub outcome : AnalysisResult → Option State → Analysed
  outcome result none = err manager_threw
  outcome result (some s) = ok (result, s)

  abbrev pub used : String → AnalysisResult
  used name = record {
    create_database_name = none;
    create_table_stmt = none;
    use_database_name = some name;
  }

  abbrev pub created_database : String → AnalysisResult
  created_database name = record {
    create_database_name = some name;
    create_table_stmt = none;
    use_database_name = none;
  }

  abbrev pub created_table : CreateTableStmt → AnalysisResult
  created_table stmt = record {
    create_database_name = none;
    create_table_stmt = some stmt;
    use_database_name = none;
  }

  unfoldable pub analyse_create_table : CreateTableStmt → State → String → Analysed
  analyse_create_table stmt s db_path =
      if is_empty db_path
      then err no_database_selected
      else if not (has_storage_engine s)
      then err no_database_selected
      else if path_exists (db_path ++ stmt.table_name ++ table_extension) s
      then err table_already_exists
      else if is_empty stmt.columns
      then err no_columns
      else if has_duplicate stmt.columns
      then err duplicate_column_name
      else if ltb 1 (pk_count stmt.columns)
      then err several_primary_keys
      else outcome (created_table stmt) (create_table_meta db_path stmt.table_name stmt s)

  unfoldable pub analyse : Statement → State → String → Analysed
  analyse (use_database name) s db_path =
      if not (database_exists name s)
      then err database_does_not_exist
      else outcome (used name) (use_db name s)
  analyse (create (create_database name)) s db_path =
      if database_exists name s
      then err database_already_exists
      else outcome (created_database name) (create_db name s)
  analyse (create (create_table stmt)) s db_path = analyse_create_table stmt s db_path
  analyse (select stmt) s db_path = err unsupported_statement_type
  analyse (insert stmt) s db_path = err unsupported_statement_type
  analyse (update stmt) s db_path = err unsupported_statement_type
  analyse (delete stmt) s db_path = err unsupported_statement_type
