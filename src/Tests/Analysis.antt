-- ===== src/Tests/Analysis.antt =====
-- A manager that holds the names of the tables it has made.
use advance_db.Prelude.{◌≡◌, ◌↔◌, true, false, some, List, [], ◌∷◌, String, ok}
use advance_db.Schema.{CreateTableStmt}
use advance_db.Planner.Plan.{create, create_table}
use advance_db.Analyser.{Managers, analyse}
use advance_db.Analyser.Checks.{Allowed, only_table, analyse-Allowed}

abbrev names_only : Managers
names_only = record {
  State = List String;
  database_exists = λ name s. true;
  use_db = λ name s. some s;
  create_db = λ name s. some s;
  has_storage_engine = λ s. true;
  path_exists = λ path s. false;
  create_table_meta = λ path name stmt s. some (name ∷ s);
}

abbrev pets : CreateTableStmt
pets = record {
  table_name = 112 ∷ [];
  columns =
      record {
        name = 105 ∷ [];
        data_type = 73 ∷ [];
        is_primary_key = true;
        is_unique = false;
        is_not_null = false;
        is_auto_increment = false;
      }
      ∷ [];
}

analyse-Allowed_example :
    (analyse names_only (create (create_table pets)) [] (100 ∷ [])
      ≡ ok (only_table pets, (112 ∷ []) ∷ []))
    ↔ (Allowed names_only pets [] (100 ∷ [])
        × (names_only.create_table_meta (100 ∷ []) (112 ∷ []) pets [] ≡ some ((112 ∷ []) ∷ [])))
analyse-Allowed_example = analyse-Allowed names_only pets [] ((112 ∷ []) ∷ []) (100 ∷ [])
