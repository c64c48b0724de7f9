-- ===== src/Schema/RoundTrip.antt =====
-- Reading back a schema that was written.
use advance_db.Prelude.{
  Result, err, ℕ, ◌+◌, ◌%◌, ◌<◌, ◌≡◌, refl, ap, ◌∙◌, subst, Bool, true, false, some, List, [], ◌∷◌,
  ◌++◌, String, length, length-append, take, map, arith, ok, append_assoc, ltb,
}
use advance_db.Bytes.Words.{
  le_bytes, from_le, split, from_le-le_bytes, length-le_bytes, split-append, split-le_bytes,
}
use advance_db.Schema.{
  extra_bytes, ColumnDef, CreateTableStmt, string_block, column_flags, serialize_columns,
  serialize_schema, SchemaError, table_name_length, bad_table_name, column_name_length,
  bad_column_name, type_length, bad_type, raise, has_flag, read_string, read_flags, read_column,
  read_columns, at_end, read_schema, deserialize_schema,
}

-- What the format keeps of a column: all but `is_auto_increment`.
abbrev pub without_auto_increment : ColumnDef → ColumnDef
without_auto_increment col = record col { is_auto_increment = false }

-- Every length fits its 16-bit field.
abbrev pub FitsAll : List ColumnDef → Type 0
FitsAll [] = Unit
FitsAll (col ∷ cols) = (length col.name < 65536) × (length col.data_type < 65536) × FitsAll cols

pub record Fits (schema : CreateTableStmt) : Type 0 where
  pub named : length schema.table_name < 65536
  pub counted : length schema.columns < 65536
  pub filled : FitsAll schema.columns

read_string-block :
    (e e' : SchemaError) (s rest : List ℕ)
    → length s < 65536
    → read_string e e' (string_block s ++ rest) ≡ ok (s, rest)
unfolding read_string string_block
read_string-block e e' s rest h =
    let len = length s % 65536 in
    let same : length s ≡ len = omega arith in
    rw
      (
        append_assoc (le_bytes 2 len) s rest,
        split-le_bytes 2 len (s ++ rest),
        from_le-le_bytes 2 len (omega arith),
        read_string,
      )
      (let got : split len (s ++ rest) ≡ some (s, rest) =
          subst (λ k. split k (s ++ rest) ≡ some (s, rest)) same (split-append s rest) in
        rw (got, read_string) refl)

raised_flags :
    (p u n : Bool)
    → let flags = raise n 4 (raise u 2 (raise p 1 0)) in
      (has_flag flags 1 ≡ p) × (has_flag flags 2 ≡ u) × (has_flag flags 4 ≡ n)
raised_flags true true true = (refl, refl, refl)
raised_flags true true false = (refl, refl, refl)
raised_flags true false true = (refl, refl, refl)
raised_flags true false false = (refl, refl, refl)
raised_flags false true true = (refl, refl, refl)
raised_flags false true false = (refl, refl, refl)
raised_flags false false true = (refl, refl, refl)
raised_flags false false false = (refl, refl, refl)

read_flags-column_flags :
    (col : ColumnDef) (rest : List ℕ)
    → read_flags col.name col.data_type (column_flags col ∷ rest)
      ≡ ok (without_auto_increment col, rest)
unfolding read_flags column_flags
read_flags-column_flags col rest =
    let (p, u, n) = raised_flags col.is_primary_key col.is_unique col.is_not_null in
    rw (p, u, n) refl

read_column-block :
    (col : ColumnDef) (rest : List ℕ)
    → length col.name < 65536
    → length col.data_type < 65536
    → read_column (string_block col.name ++ (string_block col.data_type ++ column_flags col ∷ rest))
      ≡ ok (without_auto_increment col, rest)
unfolding read_column
read_column-block col rest h k =
    rw
      (
        read_string-block column_name_length bad_column_name col.name _ h,
        read_string-block type_length bad_type col.data_type (column_flags col ∷ rest) k,
      )
      (read_flags-column_flags col rest)

-- The columns are read back, whatever follows them.
read_columns-serialize :
    (cols : List ColumnDef) (rest : List ℕ)
    → FitsAll cols
    → read_columns (length cols) (serialize_columns cols ++ rest)
      ≡ ok (map without_auto_increment cols, rest)
unfolding read_columns serialize_columns
read_columns-serialize [] rest h = refl
read_columns-serialize (col ∷ cols) rest h =
    let name = string_block col.name in
    let type = string_block col.data_type in
    let cut : (name ++ (type ++ column_flags col ∷ serialize_columns cols)) ++ rest
        ≡ name ++ (type ++ column_flags col ∷ (serialize_columns cols ++ rest)) =
      append_assoc name _ rest
      ∙ ap (λ r. name ++ r) (append_assoc type (column_flags col ∷ serialize_columns cols) rest) in
    rw (cut, read_column-block col (serialize_columns cols ++ rest) h.0 h.1)
      (rw (read_columns-serialize cols rest h.2) refl)

length-string_block : (s : String) → length (string_block s) ≡ length s + 2
unfolding string_block
length-string_block s =
    let len = length s % 65536 in
    omega (arith, length-append (le_bytes 2 len) s, length-le_bytes 2 len)

read_schema-serialize :
    (schema : CreateTableStmt) (extra : List ℕ)
    → Fits schema
    → read_schema (serialize_schema schema ++ extra)
      ≡ at_end schema.table_name (map without_auto_increment schema.columns, extra)
unfolding read_schema serialize_schema
read_schema-serialize schema extra h =
    let n = length schema.columns in
    let name = string_block schema.table_name in
    let cols = serialize_columns schema.columns in
    let body = name ++ (cols ++ extra) in
    let cut : (le_bytes 2 (n % 65536) ++ (name ++ cols)) ++ extra ≡ le_bytes 2 (n % 65536) ++ body =
      append_assoc (le_bytes 2 (n % 65536)) (name ++ cols) extra
      ∙ ap (λ r. le_bytes 2 (n % 65536) ++ r) (append_assoc name cols extra) in
    let long : ltb (length (le_bytes 2 (n % 65536) ++ body)) 4 ≡ false = ground (
      arith,
      length-append (le_bytes 2 (n % 65536)) body,
      length-le_bytes 2 (n % 65536),
      length-append name (cols ++ extra),
      length-string_block schema.table_name,
    ) in
    let counted : from_le (le_bytes 2 (n % 65536)) ≡ n =
      from_le-le_bytes 2 (n % 65536) (omega arith) ∙ omega (arith, h.counted) in
    rw (cut, long, split-le_bytes 2 (n % 65536) body, counted, read_schema)
      (rw
        (read_string-block table_name_length bad_table_name schema.table_name (cols ++ extra)
          h.named)
        (rw (read_columns-serialize schema.columns extra h.filled) refl))

take-append : (xs ys : List ℕ) → take (length xs) (xs ++ ys) ≡ xs
take-append [] ys = refl
take-append (x ∷ xs) ys = ap (λ zs. x ∷ zs) (take-append xs ys)

-- The schema as the format keeps it, where no bytes follow it.
abbrev pub read_back : CreateTableStmt → List ℕ → Result SchemaError CreateTableStmt
read_back schema [] =
    ok (record {
      table_name = schema.table_name;
      columns = map without_auto_increment schema.columns;
    })
read_back schema (b ∷ extra) = err extra_bytes

at_end-read_back :
    (schema : CreateTableStmt) (extra : List ℕ)
    → at_end schema.table_name (map without_auto_increment schema.columns, extra)
      ≡ read_back schema extra
unfolding at_end
at_end-read_back schema [] = refl
at_end-read_back schema (b ∷ extra) = refl

-- A schema whose name, column names, types and number of columns have lengths below 2^16 is read
-- back from its serialization without the AUTO_INCREMENT marks, when the size that is given, cut
-- to 16 bits, is the length of the serialization; when it counts the bytes `extra` behind that too,
-- these are refused. What lies behind them in memory plays no part.
pub deserialize-serialize :
    (schema : CreateTableStmt) (extra beyond : List ℕ) (size : ℕ)
    → Fits schema
    → size % 65536 ≡ length (serialize_schema schema ++ extra)
    → deserialize_schema ((serialize_schema schema ++ extra) ++ beyond) size
      ≡ read_back schema extra
unfolding deserialize_schema
deserialize-serialize schema extra beyond size h long =
    let bytes = serialize_schema schema ++ extra in
    ap (λ n. read_schema (take n (bytes ++ beyond))) long
    ∙ ap read_schema (take-append bytes beyond)
    ∙ read_schema-serialize schema extra h
    ∙ at_end-read_back schema extra
