-- ===== src/Relational/Catalog.antt =====
-- include/storage/relational/catalog.hpp and src/storage/relational/catalog.cpp. The hash map from
-- table names to schemas is a function.
use advance_db.Prelude.{
  ◌≡◌, Bool, true, false, Option, none, some, List, ℤ, String, eq_string, eq_string_refl,
  eq_of_eq_string, if◌then◌else◌, arith, Option-cases, not, inl, inr,
}

pub data ColumnType : Type 0 where
  int_type float_type double_type string_type boolean_type datetime_type : ColumnType

pub record ColumnDef : Type 0 where
  pub name : String
  pub type : ColumnType

pub record TableSchema : Type 0 where
  pub pk_index : ℤ
  pub columns : List ColumnDef

abbrev pub Catalog : Type 0
Catalog = String → Option TableSchema

unfoldable pub register_table : String → TableSchema → Catalog → Bool × Catalog
register_table table_name schema tables = elim (tables table_name) [
  | some found ↦ (false, tables)
  | none ↦ (true, λ name. if eq_string name table_name then some schema else tables name)
]

unfoldable pub get_schema : String → Catalog → Option TableSchema
get_schema table_name tables = tables table_name

unfoldable pub has_table : String → Catalog → Bool
has_table table_name tables = elim (tables table_name) [ none ↦ false | some found ↦ true ]

unfoldable pub drop_table : String → Catalog → Bool × Catalog
drop_table table_name tables = elim (tables table_name) [
  | none ↦ (false, tables)
  | some found ↦ (true, λ name. if eq_string name table_name then none else tables name)
]

-- Registering a table succeeds exactly when the name is free. Afterwards the name has the schema
-- it had before, or else the new one, and every other name has what it had.
pub get_schema-register_table :
    (t name : String) (s : TableSchema) (c : Catalog)
    → ((register_table t s c).0 ≡ not (has_table t c))
      × (get_schema name (register_table t s c).1 ≡ (
          if eq_string name t
          then (elim (get_schema t c) [ some old ↦ some old | none ↦ some s ])
          else get_schema name c))
unfolding register_table get_schema has_table
get_schema-register_table t name s c = elim (Option-cases (c t)) [
  | inl e ↦ ground (arith, e)
  | inr (old, e) ↦ ground (arith, e, eq_of_eq_string name t)
]

-- Dropping a table succeeds exactly when it is registered. Afterwards its name is free, every
-- other name has what it had, and a table that was dropped can be registered again.
pub drop_table-frees :
    (t name : String) (s : TableSchema) (c : Catalog)
    → ((drop_table t c).0 ≡ has_table t c)
      × (get_schema name (drop_table t c).1
          ≡ (if eq_string name t then none else get_schema name c))
      × ((register_table t s (drop_table t c).1).0 ≡ true)
unfolding register_table get_schema has_table drop_table
drop_table-frees t name s c = elim (Option-cases (c t)) [
  | inl e ↦ ground (arith, e, eq_of_eq_string name t, eq_string_refl t)
  | inr (old, e) ↦ ground (arith, e, eq_of_eq_string name t, eq_string_refl t)
]
