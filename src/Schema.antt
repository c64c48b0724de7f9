-- ===== src/Schema.antt =====
-- include/parser/statements/create.h, include/storage_new/schema_serializer.h and
-- src/storage_new/schema_serializer.cpp. The memory behind a pointer is the list of its bytes; the
-- 16-bit size that comes with it is an argument of its own.
pub mod RoundTrip
use Prim.Native.Nat.{bit_and, bit_or}
use advance_db.Prelude.{
  ℕ, zero, suc, ◌+◌, ◌%◌, Bool, true, false, none, some, List, [], ◌∷◌, ◌++◌, String, length, take,
  ◌==◌, not, ltb, if◌then◌else◌, Result, ok, err, ◌>>=◌,
}
use advance_db.Bytes.Words.{le_bytes, from_le, split}

pub record ColumnDef : Type 0 where
  pub name : String
  pub data_type : String
  pub is_primary_key : Bool
  pub is_unique : Bool
  pub is_not_null : Bool
  pub is_auto_increment : Bool

pub record CreateTableStmt : Type 0 where
  pub table_name : String
  pub columns : List ColumnDef

abbrev pub col_flag_primary_key : ℕ
col_flag_primary_key = 1

abbrev pub col_flag_unique : ℕ
col_flag_unique = 2

abbrev pub col_flag_not_null : ℕ
col_flag_not_null = 4

-- The bytes of the string, behind its length as a `uint16_t`.
unfoldable pub string_block : String → List ℕ
string_block s = le_bytes 2 (length s % 65536) ++ s

abbrev pub raise : Bool → ℕ → ℕ → ℕ
raise set flag flags = if set then bit_or flags flag else flags

unfoldable pub column_flags : ColumnDef → ℕ
column_flags col =
    raise col.is_not_null col_flag_not_null
      (raise col.is_unique col_flag_unique (raise col.is_primary_key col_flag_primary_key 0))

unfoldable pub serialize_columns : List ColumnDef → List ℕ
serialize_columns [] = []
serialize_columns (col ∷ cols) =
    string_block col.name
    ++ (string_block col.data_type ++ column_flags col ∷ serialize_columns cols)

unfoldable pub serialize_schema : CreateTableStmt → List ℕ
serialize_schema schema =
    le_bytes 2 (length schema.columns % 65536)
    ++ (string_block schema.table_name ++ serialize_columns schema.columns)

-- The messages of the std::runtime_errors.
pub data SchemaError : Type 0 where
  too_small table_name_length bad_table_name column_name_length bad_column_name type_length bad_type
        bad_flags extra_bytes :
      SchemaError

-- A length and a string: `short` is thrown if the length does not fit, `cut` if the string does not.
unfoldable pub read_string :
    SchemaError → SchemaError → List ℕ → Result SchemaError (String × List ℕ)
read_string short cut ptr = elim (split 2 ptr) [
  | none ↦ err short
  | some (len, rest) ↦ elim (split (from_le len) rest) [ none ↦ err cut | some found ↦ ok found ]
]

abbrev pub has_flag : ℕ → ℕ → Bool
has_flag flags flag = not (bit_and flags flag == 0)

unfoldable pub read_flags : String → String → List ℕ → Result SchemaError (ColumnDef × List ℕ)
read_flags name data_type [] = err bad_flags
read_flags name data_type (flags ∷ rest) = ok (
  record {
    name = name;
    data_type = data_type;
    is_primary_key = has_flag flags col_flag_primary_key;
    is_unique = has_flag flags col_flag_unique;
    is_not_null = has_flag flags col_flag_not_null;
    is_auto_increment = false;
  },
  rest,
)

unfoldable pub read_column : List ℕ → Result SchemaError (ColumnDef × List ℕ)
read_column ptr = read_string column_name_length bad_column_name ptr >>= λ (name, rest).
    read_string type_length bad_type rest >>= λ (data_type, rest'). read_flags name data_type rest'

unfoldable pub read_columns : ℕ → List ℕ → Result SchemaError (List ColumnDef × List ℕ)
read_columns zero ptr = ok ([], ptr)
read_columns (suc n) ptr = read_column ptr >>= λ (col, rest).
    read_columns n rest >>= λ (cols, rest'). ok (col ∷ cols, rest')

unfoldable pub at_end : String → List ColumnDef × List ℕ → Result SchemaError CreateTableStmt
at_end name (cols, []) = ok (record { table_name = name; columns = cols })
at_end name (cols, b ∷ rest) = err extra_bytes

-- From `ptr` to `end`.
unfoldable pub read_schema : List ℕ → Result SchemaError CreateTableStmt
read_schema ptr = if ltb (length ptr) 4 then err too_small else elim (split 2 ptr) [
  | none ↦ err too_small
  | some (num_cols, rest) ↦ read_string table_name_length bad_table_name rest >>= λ (name, rest').
      read_columns (from_le num_cols) rest' >>= at_end name
]

-- `bytes` is the memory behind the pointer, of which the size, cut to 16 bits, tells how much to read.
unfoldable pub deserialize_schema : List ℕ → ℕ → Result SchemaError CreateTableStmt
deserialize_schema bytes size = read_schema (take (size % 65536) bytes)
