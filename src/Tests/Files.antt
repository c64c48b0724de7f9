-- ===== src/Tests/Files.antt =====
-- A file system that keeps what was closed last.
use advance_db.Prelude.{
  ℕ, ◌≡◌, refl, Bool, true, false, Option, none, some, List, [], ◌∷◌, String, eq_string,
  eq_string_refl, if◌then◌else◌,
}
use advance_db.Bytes.{zeroed}
use advance_db.Page.PageHeader.{Page}
use advance_db.Table.Files.{
  FileSystem, TableHandle, table_path, create_table, open_table, make_file, write_file, write_pages,
  first_pages,
}
use advance_db.Table.Creation.{IsEmptyTable, open_table-create_table}
use advance_db.Tests.TreePages.{ram-Faultless}
use advance_db.Tests.Pools.{ram}

abbrev Files : Type 0
Files = List (String × (ℕ → Page))

abbrev lookup : String → Files → Option (ℕ → Page)
lookup path [] = none
lookup path ((name, d) ∷ s) = if eq_string name path then some d else lookup path s

abbrev is_there : String → Files → Bool
is_there path s = elim (lookup path s) [ none ↦ false | some d ↦ true ]

abbrev opened_file : Option (ℕ → Page) → Option (ℕ → Page)
opened_file none = some (λ i. zeroed)
opened_file (some d) = some d

lookup-closed : (path : String) (d : ℕ → Page) (s : Files) → lookup path ((path, d) ∷ s) ≡ some d
lookup-closed path d s = rw (eq_string_refl path) refl

lookup-there : (path : String) (d : ℕ → Page) (s : Files) → is_there path ((path, d) ∷ s) ≡ true
lookup-there path d s = rw (eq_string_refl path, is_there) refl

lookup-opened :
    (path : String) (d d' : ℕ → Page) (s : Files)
    → opened_file (lookup path ((path, d) ∷ s)) ≡ some d'
    → d' ≡ d
lookup-opened path d d' s = rw (eq_string_refl path) (λ e. cc)

abbrev list_files : FileSystem ram
list_files = record {
  State = Files;
  stat = is_there;
  mkdir = λ name s. (true, s);
  open_file = λ path s. (opened_file (lookup path s), s);
  flush = λ d. (true, d);
  close = λ path d s. (path, d) ∷ s;
  stat-close = lookup-there;
  open-close = lookup-opened;
  flush-same = λ d. refl;
}

abbrev pets : String
pets = 112 ∷ []

abbrev no_handle : TableHandle ram
no_handle = record { table_name = []; file_path = []; bpm = none; root_page = 0 }

abbrev after : Bool × Files
after = create_table ram list_files pets zeroed []

after-make_file : after.0 ≡ true
unfolding create_table make_file write_file write_pages first_pages
after-make_file = refl

after-opens :
    (list_files.open_file (table_path pets) after.1).0
    ≡ some ((write_pages ram (first_pages zeroed) (λ i. zeroed)).1)
unfolding create_table make_file write_file write_pages first_pages
after-opens = refl

open_table-create_table_example :
    (let r = open_table ram list_files [] zeroed pets no_handle after.1 in
      (r.0.0 ≡ true) × IsEmptyTable ram pets r.0.1)
open_table-create_table_example =
    open_table-create_table ram list_files pets zeroed zeroed [] no_handle []
      ((write_pages ram (first_pages zeroed) (λ i. zeroed)).1) ram-Faultless refl after-make_file
      after-opens
