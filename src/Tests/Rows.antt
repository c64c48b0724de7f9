-- ===== src/Tests/Rows.antt =====
-- Rows and schemas of two columns.
use advance_db.Prelude.{
  length, ◌+◌, ◌%◌, ℕ, ◌≡◌, refl, true, false, none, some, List, [], ◌∷◌, ◌++◌, pos, ◌⊎◌, arith,
}
use advance_db.Relational.Catalog.{
  ColumnDef, int_type, string_type, TableSchema, Catalog, register_table,
}
use advance_db.Relational.RowCodec.{int_value, string_value, Tuple, encode, decode}
use advance_db.Relational.RoundTrip.{IsRow, an_int, a_string, stored_row, decode-encode}
use advance_db.Relational.Accepted.{decode-IsRow}
use advance_db.Schema.{CreateTableStmt, serialize_schema, deserialize_schema, at_end}
use advance_db.Schema.RoundTrip.{Fits, read_back, deserialize-serialize}

abbrev id_column : ColumnDef
id_column = record { name = 105 ∷ 100 ∷ []; type = int_type }

abbrev users : TableSchema
users = record {
  pk_index = pos 0;
  columns = id_column ∷ record { name = 110 ∷ []; type = string_type } ∷ [];
}

abbrev alice : Tuple
alice = int_value 300 ∷ string_value (65 ∷ 108 ∷ []) ∷ []

alice-IsRow : IsRow (users.columns) alice
alice-IsRow = (an_int 300 (omega arith), (a_string (65 ∷ 108 ∷ []), tt))

decode-encode_example :
    (bs : List ℕ) × (encode users alice ≡ some bs)
    × (decode users bs ≡ stored_row (users.columns) alice)
decode-encode_example = decode-encode users alice refl alice-IsRow

decode-IsRow_example :
    (decode users (0 ∷ 1 ∷ []) ≡ []) ⊎ IsRow (users.columns) (decode users (0 ∷ 1 ∷ []))
decode-IsRow_example = decode-IsRow users (0 ∷ 1 ∷ [])

abbrev no_tables : Catalog
no_tables name = none

abbrev with_users : Catalog
with_users = (register_table (117 ∷ []) users no_tables).1

abbrev people : CreateTableStmt
people = record {
  table_name = 112 ∷ [];
  columns =
      record {
        name = 105 ∷ 100 ∷ [];
        data_type = 73 ∷ 78 ∷ 84 ∷ [];
        is_primary_key = true;
        is_unique = false;
        is_not_null = true;
        is_auto_increment = true;
      }
      ∷ [];
}

people-Fits : Fits people
people-Fits = record {
  named = omega arith;
  counted = omega arith;
  filled = (omega arith, omega arith, tt);
}

abbrev people_bytes : List ℕ
people_bytes = serialize_schema people ++ []

people-size : (65536 + length people_bytes) % 65536 ≡ length people_bytes
unfolding serialize_schema advance_db.Schema.serialize_columns advance_db.Schema.string_block
    advance_db.Bytes.Words.le_bytes
people-size = omega arith

deserialize-serialize_example :
    deserialize_schema (people_bytes ++ 255 ∷ []) (65536 + length people_bytes)
    ≡ read_back people []
deserialize-serialize_example =
    deserialize-serialize people [] (255 ∷ []) (65536 + length people_bytes) people-Fits people-size
