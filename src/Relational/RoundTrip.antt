-- ===== src/Relational/RoundTrip.antt =====
-- What `decode` gives back of a row that `encode` has written.
use advance_db.Prelude.{
  ℕ, ◌%◌, ◌^◌, ◌<◌, ◌≡◌, refl, sym, ap, ◌∙◌, subst, Bool, true, false, some, List, [], ◌∷◌, ◌++◌,
  pos, String, length, get_elem?, take, arith, append_assoc, append-nil, length-take,
}
use advance_db.Bytes.Words.{le_bytes, split, from_le-le_bytes, split-append, split-le_bytes}
use advance_db.Relational.Catalog.{
  ColumnType, int_type, float_type, double_type, string_type, boolean_type, datetime_type,
  ColumnDef, TableSchema,
}
use advance_db.Relational.RowCodec.{
  Value, int_value, float_value, double_value, string_value, bool_value, Tuple, append_column,
  append_columns, encode, encode_key, decode_word, decode_string, decode_boolean, decode_column,
  decode_columns, decode, string_bytes,
}

-- A value of the column's type, its bit pattern of the type's width.
pub data HasType : ColumnType → Value → Type 0 where
  an_int : (x : ℕ) → x < 4294967296 → HasType int_type (int_value x)
  a_float : (x : ℕ) → x < 4294967296 → HasType float_type (float_value x)
  a_double : (x : ℕ) → x < 18446744073709551616 → HasType double_type (double_value x)
  a_string : (s : String) → HasType string_type (string_value s)
  a_boolean : (b : Bool) → HasType boolean_type (bool_value b)
  a_date : (v : Value) → HasType datetime_type v

abbrev pub IsRow : List ColumnDef → Tuple → Type 0
IsRow [] [] = Unit
IsRow (c ∷ cs) (v ∷ vs) = HasType c.type v × IsRow cs vs
IsRow cs vs = ⊥

-- What is left of a value: a date is not stored, and a long string is cut.
abbrev pub stored : ColumnType → Value → Value
stored datetime_type v = int_value 0
stored c (string_value s) = string_value (take (length s % 65536) s)
stored c v = v

abbrev pub stored_row : List ColumnDef → Tuple → Tuple
stored_row [] vs = []
stored_row (c ∷ cs) [] = []
stored_row (c ∷ cs) (v ∷ vs) = stored c.type v ∷ stored_row cs vs

-- The bytes that a column adds, and that they are read back.
abbrev Encodes : ColumnType → Value → Type 0
Encodes c v =
    (t : ℕ) × (bs : List ℕ) × ((result : List ℕ)
      → append_column result c v ≡ some (result ++ t ∷ bs))
    × ((rest : List ℕ) → decode_column c t (bs ++ rest) ≡ some (stored c v, rest))

decode_word-le_bytes :
    (n x : ℕ) (value : ℕ → Value) (rest : List ℕ)
    → x < 256 ^ n
    → decode_word n value (le_bytes n x ++ rest) ≡ some (value x, rest)
unfolding decode_word
decode_word-le_bytes n x value rest h =
    rw (split-le_bytes n x rest, decode_word)
      (ap (λ y. some (value y, rest)) (from_le-le_bytes n x h))

decode_string-bytes :
    (s rest : List ℕ)
    → decode_string (string_bytes s ++ rest) ≡ some (string_value (take (length s % 65536) s), rest)
unfolding decode_string string_bytes
decode_string-bytes s rest =
    let len = length s % 65536 in
    let cut = take len s in
    let size : length cut ≡ len = omega (arith, length-take len s) in
    rw
      (
        append_assoc (le_bytes 2 len) cut rest,
        split-le_bytes 2 len (cut ++ rest),
        from_le-le_bytes 2 len (omega arith),
        decode_string,
      )
      (let got : split len (cut ++ rest) ≡ some (cut, rest) =
          subst (λ k. split k (cut ++ rest) ≡ some (cut, rest)) size (split-append cut rest) in
        rw (got, decode_string) refl)

append_column-Encodes : (c : ColumnType) (v : Value) → HasType c v → Encodes c v
unfolding append_column decode_column decode_boolean
append_column-Encodes _ _ (an_int x h) =
    (0, le_bytes 4 x, λ r. refl, λ rest. decode_word-le_bytes 4 x int_value rest h)
append_column-Encodes _ _ (a_float x h) =
    (1, le_bytes 4 x, λ r. refl, λ rest. decode_word-le_bytes 4 x float_value rest h)
append_column-Encodes _ _ (a_double x h) =
    (2, le_bytes 8 x, λ r. refl, λ rest. decode_word-le_bytes 8 x double_value rest h)
append_column-Encodes _ _ (a_string s) =
    (3, string_bytes s, λ r. refl, λ rest. decode_string-bytes s rest)
append_column-Encodes _ _ (a_boolean true) = (4, 1 ∷ [], λ r. refl, λ rest. refl)
append_column-Encodes _ _ (a_boolean false) = (4, 0 ∷ [], λ r. refl, λ rest. refl)
append_column-Encodes _ _ (a_date v) = (
  5,
  le_bytes 8 0,
  λ r. refl,
  λ rest. decode_word-le_bytes 8 0 (λ n. int_value 0) rest (omega arith),
)

append_columns-decode :
    (cs : List ColumnDef) (vs : Tuple) (written : List ℕ)
    → IsRow cs vs
    → (bs : List ℕ) × (append_columns written cs vs ≡ some (written ++ bs))
      × ((result : Tuple) → decode_columns cs bs result ≡ result ++ stored_row cs vs)
unfolding append_columns decode_columns
append_columns-decode [] [] written h =
    ([], ap some (sym (append-nil written)), λ result. sym (append-nil result))
append_columns-decode [] (v ∷ vs) written h = absurd h
append_columns-decode (c ∷ cs) [] written h = absurd h
append_columns-decode (c ∷ cs) (v ∷ vs) written h =
    let (t, bs, adds, reads) = append_column-Encodes c.type v h.0 in
    let (more, added, read) = append_columns-decode cs vs (written ++ t ∷ bs) h.1 in
    (
      t ∷ bs ++ more,
      rw (adds written, append_columns) (added ∙ ap some (append_assoc written (t ∷ bs) more)),
      λ result.
          rw (reads more, decode_columns)
            (read (result ++ stored c.type v ∷ []) ∙ append_assoc result _ (stored_row cs vs)),
    )

-- Of a row with as many values as the schema has columns, each of its column's type, `encode`
-- makes bytes from which `decode` gives the row back, a date as the int 0 and a string cut to
-- its length modulo 2^16.
pub decode-encode :
    (s : TableSchema) (t : Tuple)
    → length t ≡ length s.columns
    → IsRow s.columns t
    → (bs : List ℕ) × (encode s t ≡ some bs) × (decode s bs ≡ stored_row s.columns t)
unfolding encode decode
decode-encode s t e h =
    let (bs, written, read) = append_columns-decode s.columns t [] h in
    (bs, ground (arith, e, written), read [])

-- Where the primary key column exists and the row has a value of its type there, `encode_key`
-- makes bytes from which the codec of that column alone gives the key back, a date as the int 0
-- and a string cut to its length modulo 2^16.
pub encode_key-decode :
    (s : TableSchema) (t : Tuple) (i : ℕ) (c : ColumnDef) (v : Value)
    → s.pk_index ≡ pos i
    → get_elem? s.columns i ≡ some c
    → get_elem? t i ≡ some v
    → HasType c.type v
    → (bs : List ℕ) × (encode_key s t ≡ some bs)
      × (decode (record { pk_index = pos 0; columns = c ∷ [] }) bs ≡ stored c.type v ∷ [])
unfolding decode decode_columns encode_key
encode_key-decode s t i c v e f g h =
    let (tag, bs, adds, reads) = append_column-Encodes c.type v h in
    (
      tag ∷ bs,
      rw (e, encode_key) (rw (f, encode_key) (rw (g, encode_key) (adds []))),
      rw (sym (append-nil bs)) (rw (reads [], decode_columns) refl),
    )
