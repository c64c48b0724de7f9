-- ===== src/Relational/Accepted.antt =====
-- What `decode` accepts: whatever the bytes are, a row that fits the schema or nothing.
use advance_db.Prelude.{
  ℕ, ◌^◌, ◌<◌, ◌≡◌, refl, sym, subst, Bool, some, List, [], ◌∷◌, ◌++◌, String, length, take, ◌==◌,
  not, ◌⊎◌, inl, inr, arith, append_assoc, append-nil, Option-cases, length-take, lt_or_le,
}
use advance_db.Bytes.Words.{from_le, split, from_le-lt}
use advance_db.Relational.Catalog.{
  ColumnType, int_type, float_type, double_type, string_type, boolean_type, datetime_type,
  ColumnDef, TableSchema,
}
use advance_db.Relational.RowCodec.{
  Value, int_value, float_value, double_value, string_value, bool_value, Tuple, decode_word,
  decode_string, decode_boolean, decode_column, decode_columns, decode,
}
use advance_db.Relational.RoundTrip.{
  HasType, an_int, a_float, a_double, a_string, a_boolean, a_date, IsRow,
}

decode_word-bound :
    (n : ℕ) (value : ℕ → Value) (bytes rest : List ℕ) (v : Value)
    → decode_word n value bytes ≡ some (v, rest)
    → (w : ℕ) × (w < 256 ^ n) × (v ≡ value w)
unfolding decode_word split
decode_word-bound n value bytes rest v e = elim (lt_or_le (length bytes) n) [
  | inl short ↦ absurd (ground (arith, e))
  | inr fits ↦
      let size : length (take n bytes) ≡ n = omega (arith, length-take n bytes) in
      (from_le (take n bytes), from_le-lt (take n bytes) n size, ground (arith, e))
]

decode_string-string :
    (bytes rest : List ℕ) (v : Value)
    → decode_string bytes ≡ some (v, rest)
    → (s : String) × (v ≡ string_value s)
unfolding decode_string
decode_string-string bytes rest v e = elim (Option-cases (split 2 bytes)) [
  | inl short ↦ absurd (ground (arith, e, short))
  | inr ((len, more), got) ↦ elim (Option-cases (split (from_le len) more)) [
    | inl short ↦ absurd (ground (arith, e, got, short))
    | inr ((s, rest'), found) ↦ (s, ground (arith, e, got, found))
  ]
]

decode_boolean-bool :
    (bytes rest : List ℕ) (v : Value)
    → decode_boolean bytes ≡ some (v, rest)
    → (b : Bool) × (v ≡ bool_value b)
unfolding decode_boolean
decode_boolean-bool [] rest v e = absurd (ground (arith, e))
decode_boolean-bool (b ∷ bytes) rest v e = (not (b == 0), ground (arith, e))

decode_column-HasType :
    (c : ColumnType) (tag : ℕ) (bytes rest : List ℕ) (v : Value)
    → decode_column c tag bytes ≡ some (v, rest)
    → HasType c v
unfolding decode_column
decode_column-HasType int_type tag bytes rest v e =
    let (w, small, same) = decode_word-bound 4 int_value bytes rest v (ground (arith, e)) in
    subst (λ u. HasType int_type u) (sym same) (an_int w small)
decode_column-HasType float_type tag bytes rest v e =
    let (w, small, same) = decode_word-bound 4 float_value bytes rest v (ground (arith, e)) in
    subst (λ u. HasType float_type u) (sym same) (a_float w small)
decode_column-HasType double_type tag bytes rest v e =
    let (w, small, same) = decode_word-bound 8 double_value bytes rest v (ground (arith, e)) in
    subst (λ u. HasType double_type u) (sym same) (a_double w small)
decode_column-HasType string_type tag bytes rest v e =
    let (s, same) = decode_string-string bytes rest v (ground (arith, e)) in
    subst (λ u. HasType string_type u) (sym same) (a_string s)
decode_column-HasType boolean_type tag bytes rest v e =
    let (b, same) = decode_boolean-bool bytes rest v (ground (arith, e)) in
    subst (λ u. HasType boolean_type u) (sym same) (a_boolean b)
decode_column-HasType datetime_type tag bytes rest v e = a_date v

IsRow-snoc :
    (ds : List ColumnDef) (vs : Tuple) (c : ColumnDef) (v : Value)
    → IsRow ds vs
    → HasType c.type v
    → IsRow (ds ++ c ∷ []) (vs ++ v ∷ [])
IsRow-snoc [] [] c v h k = (k, tt)
IsRow-snoc [] (w ∷ vs) c v h k = absurd h
IsRow-snoc (d ∷ ds) [] c v h k = absurd h
IsRow-snoc (d ∷ ds) (w ∷ vs) c v h k = (h.0, IsRow-snoc ds vs c v h.1 k)

decode_columns-IsRow :
    (cs ds : List ColumnDef) (bytes : List ℕ) (result : Tuple)
    → IsRow ds result
    → (decode_columns cs bytes result ≡ []) ⊎ IsRow (ds ++ cs) (decode_columns cs bytes result)
unfolding decode_columns
decode_columns-IsRow [] ds bytes result h =
    inr (subst (λ d. IsRow d result) (sym (append-nil ds)) h)
decode_columns-IsRow (c ∷ cs) ds [] result h = inl refl
decode_columns-IsRow (c ∷ cs) ds (tag ∷ bytes) result h =
    elim (Option-cases (decode_column c.type tag bytes)) [
      | inl bad ↦ rw (bad, decode_columns) (inl refl)
      | inr ((v, rest), good) ↦
          let longer =
            IsRow-snoc ds result c v h (decode_column-HasType c.type tag bytes rest v good) in
          rw (good, decode_columns)
            (subst
              (λ d.
                (decode_columns cs rest (result ++ v ∷ []) ≡ [])
                ⊎ IsRow d (decode_columns cs rest (result ++ v ∷ [])))
              (append_assoc ds (c ∷ []) cs)
              (decode_columns-IsRow cs (ds ++ c ∷ []) rest (result ++ v ∷ []) longer))
    ]

-- Whatever bytes `decode` is given, it returns the empty tuple or a row that fits the schema.
pub decode-IsRow :
    (s : TableSchema) (bytes : List ℕ) → (decode s bytes ≡ []) ⊎ IsRow s.columns (decode s bytes)
unfolding decode
decode-IsRow s bytes = decode_columns-IsRow s.columns [] bytes [] tt
