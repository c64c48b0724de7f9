-- ===== src/Relational/RowCodec.antt =====
-- include/storage/relational/row_codec.hpp and src/storage/relational/row_codec.cpp. An int, a
-- float and a double are their bit patterns; `none` is a std::bad_variant_access.
use advance_db.Prelude.{
  ℕ, ◌%◌, Bool, Option, none, some, List, [], ◌∷◌, ◌++◌, pos, negsuc, String, length, get_elem?,
  take, ◌==◌, not, if◌then◌else◌,
}
use advance_db.Bytes.Words.{le_bytes, from_le, split}
use advance_db.Relational.Catalog.{
  ColumnType, int_type, float_type, double_type, string_type, boolean_type, datetime_type,
  ColumnDef, TableSchema,
}

pub data Value : Type 0 where
  int_value : ℕ → Value
  float_value : ℕ → Value
  double_value : ℕ → Value
  string_value : String → Value
  bool_value : Bool → Value

abbrev pub Tuple : Type 0
Tuple = List Value

abbrev pub tag_int : ℕ
tag_int = 0

abbrev pub tag_float : ℕ
tag_float = 1

abbrev pub tag_double : ℕ
tag_double = 2

abbrev pub tag_string : ℕ
tag_string = 3

abbrev pub tag_boolean : ℕ
tag_boolean = 4

abbrev pub tag_datetime : ℕ
tag_datetime = 5

-- The length of a string is cut to 16 bits, and so many of its bytes are written.
unfoldable pub string_bytes : String → List ℕ
string_bytes s = let len = length s % 65536 in le_bytes 2 len ++ take len s

unfoldable pub append_column : List ℕ → ColumnType → Value → Option (List ℕ)
append_column result int_type v = elim v [
  | int_value x ↦ some (result ++ tag_int ∷ le_bytes 4 x)
  | _ ↦ none
]
append_column result float_type v = elim v [
  | float_value x ↦ some (result ++ tag_float ∷ le_bytes 4 x)
  | _ ↦ none
]
append_column result double_type v = elim v [
  | double_value x ↦ some (result ++ tag_double ∷ le_bytes 8 x)
  | _ ↦ none
]
append_column result string_type v = elim v [
  | string_value s ↦ some (result ++ tag_string ∷ string_bytes s)
  | _ ↦ none
]
append_column result boolean_type v = elim v [
  | bool_value b ↦ some (result ++ tag_boolean ∷ (if b then 1 else 0) ∷ [])
  | _ ↦ none
]
append_column result datetime_type v = some (result ++ tag_datetime ∷ le_bytes 8 0)

-- The loop of `encode`, over columns and values of the same number.
unfoldable pub append_columns : List ℕ → List ColumnDef → Tuple → Option (List ℕ)
append_columns result [] vs = some result
append_columns result (c ∷ cs) [] = some result
append_columns result (c ∷ cs) (v ∷ vs) = elim (append_column result c.type v) [
  | none ↦ none
  | some longer ↦ append_columns longer cs vs
]

unfoldable pub encode : TableSchema → Tuple → Option (List ℕ)
encode schema tuple =
    if length tuple == length schema.columns
    then append_columns [] schema.columns tuple
    else some []

unfoldable pub encode_value : TableSchema → Tuple → Option (List ℕ)
encode_value schema tuple = encode schema tuple

-- Column `pk_index` and its value; an index out of range gives the empty key.
unfoldable pub encode_key : TableSchema → Tuple → Option (List ℕ)
encode_key schema tuple = elim schema.pk_index [
  | negsuc n ↦ some []
  | pos i ↦ elim (get_elem? schema.columns i) [
    | none ↦ some []
    | some c ↦ elim (get_elem? tuple i) [ none ↦ some [] | some v ↦ append_column [] c.type v ]
  ]
]

-- A value of `n` bytes behind a tag.
unfoldable pub decode_word : ℕ → (ℕ → Value) → List ℕ → Option (Value × List ℕ)
decode_word n value bytes = elim (split n bytes) [
  | none ↦ none
  | some (bs, rest) ↦ some (value (from_le bs), rest)
]

unfoldable pub decode_string : List ℕ → Option (Value × List ℕ)
decode_string bytes = elim (split 2 bytes) [
  | none ↦ none
  | some (bs, rest) ↦ elim (split (from_le bs) rest) [
    | none ↦ none
    | some (s, rest') ↦ some (string_value s, rest')
  ]
]

unfoldable pub decode_boolean : List ℕ → Option (Value × List ℕ)
decode_boolean [] = none
decode_boolean (b ∷ rest) = some (bool_value (not (b == 0)), rest)

-- One round of the loop of `decode`, behind the tag; `none` is `return {}`.
unfoldable pub decode_column : ColumnType → ℕ → List ℕ → Option (Value × List ℕ)
decode_column int_type tag bytes = if tag == tag_int then decode_word 4 int_value bytes else none
decode_column float_type tag bytes =
    if tag == tag_float then decode_word 4 float_value bytes else none
decode_column double_type tag bytes =
    if tag == tag_double then decode_word 8 double_value bytes else none
decode_column string_type tag bytes = if tag == tag_string then decode_string bytes else none
decode_column boolean_type tag bytes = if tag == tag_boolean then decode_boolean bytes else none
decode_column datetime_type tag bytes =
    if tag == tag_datetime then decode_word 8 (λ n. int_value 0) bytes else none

unfoldable pub decode_columns : List ColumnDef → List ℕ → Tuple → Tuple
decode_columns [] bytes result = result
decode_columns (c ∷ cs) [] result = []
decode_columns (c ∷ cs) (tag ∷ bytes) result = elim (decode_column c.type tag bytes) [
  | none ↦ []
  | some (v, rest) ↦ decode_columns cs rest (result ++ v ∷ [])
]

unfoldable pub decode : TableSchema → List ℕ → Tuple
decode schema bytes = decode_columns schema.columns bytes []
