-- ===== src/PageFile/Reading.antt =====
-- A page is read whole, however short the system's reads are.
use advance_db.Prelude.{
  ℕ, zero, suc, ◌+◌, ◌-◌, ◌<◌, ◌≤◌, ◌≡◌, ◌≢◌, refl, sym, ap, ◌∙◌, subst, true, Option, none, some,
  List, [], ◌∷◌, ◌++◌, length, ltb, ◌==◌, if◌then◌else◌, Result, ok, err, ◌⊎◌, inl, inr, arith,
  Bool-cases,
}
use advance_db.Bytes.{Bytes, read_u8, write_u8, slice, copy, zeroed, read_u8-lt, read_u8-write_u8}
use advance_db.Page.PageHeader.{Page}
use advance_db.PageFile.{
  Posix, IoError, out_of_rounds, appended, read_rounds, read_limit, page_of, read_page, page_offset,
}

-- A byte of a block that was copied from elsewhere.
pub read_u8-copy-slice :
    (m from : Bytes) (o p n i : ℕ)
    → read_u8 (copy m o (slice from p n)) i ≡ (
        if ltb i o
        then read_u8 m i
        else if ltb i (o + n)
        then read_u8 from (p + (i - o))
        else read_u8 m i)
unfolding copy slice
read_u8-copy-slice m from o p zero i = ground arith
read_u8-copy-slice m from o p (suc n) i =
    let b = read_u8 from p in
    let ih = read_u8-copy-slice (write_u8 m o b) from (o + 1) (p + 1) n i in
    let here = read_u8-write_u8 m o b i in
    elim (Bool-cases (i == o)) [
      | inl e ↦
          let at : i ≡ o = ground arith in
          let start : p + (i - o) ≡ p = omega arith in
          ground (arith, ih, here, read_u8-lt from p, ap (read_u8 from) start)
      | inr n ↦ elim (Bool-cases (ltb i o)) [
        | inl before ↦ ground (arith, ih, here)
        | inr behind ↦
            let same : p + 1 + (i - (o + 1)) ≡ p + (i - o) = ground arith in
            ground (arith, ih, here, ap (read_u8 from) same)
      ]
    ]

slice-append : (m : Bytes) (o a b : ℕ) → slice m o a ++ slice m (o + a) b ≡ slice m o (a + b)
unfolding slice
slice-append m o zero b =
    let k : o + 0 ≡ o = omega arith in
    let n : b ≡ 0 + b = omega arith in ap (λ x. slice m x b) k ∙ ap (slice m o) n
slice-append m o (suc a) b =
    let k : o + suc a ≡ o + 1 + a = omega arith in
    let n : suc (a + b) ≡ suc a + b = omega arith in
    ap (λ bs. read_u8 m o ∷ bs)
      (ap (λ x. slice m (o + 1) a ++ slice m x b) k ∙ slice-append m (o + 1) a b)
    ∙ ap (slice m o) n

module _ (os : Posix) where
  open os use {
    File, content, size, offset, lseek_set, read, set_same, set_offset, read_same, read_bytes,
    read_end, past_end,
  }

  -- What the loop gives from `total` bytes of a page on: the bytes of the file up to the page's
  -- end or to its own, or an exception of the system's.
  abbrev IsRead : ℕ → File → Result IoError (List ℕ) → Type 0
  IsRead total f (ok bs) =
      (bs ≡ slice (content f) (offset f) (length bs))
      × (total + length bs ≤ 2048)
      × ((2048 ≤ total + length bs)
          ⊎ ((i : ℕ) → offset f + length bs ≤ i → read_u8 (content f) i ≡ 0))
  IsRead total f (err e) = e ≢ out_of_rounds

  length-append : (xs ys : List ℕ) → length (xs ++ ys) ≡ length xs + length ys
  length-append [] ys = omega arith
  length-append (x ∷ xs) ys = omega (arith, length-append xs ys)

  appended-IsRead :
      (total : ℕ) (f f' : File) (bs : List ℕ) (r : Result IoError (List ℕ) × File)
      → content f' ≡ content f
      → offset f' ≡ offset f + length bs
      → bs ≡ slice (content f) (offset f) (length bs)
      → IsRead (total + length bs) f' r.0
      → IsRead total f (appended os bs r).0
  unfolding appended
  appended-IsRead total f f' bs (err e, g) same at got k = k
  appended-IsRead total f f' bs (ok ds, g) same at got (rest, within, ends) =
      let long = length-append bs ds in
      let rest' : ds ≡ slice (content f) (offset f + length bs) (length ds) =
        rest
        ∙ ap (λ m. slice m (offset f') (length ds)) same
        ∙ ap (λ o. slice (content f) o (length ds)) at in
      (
        ap (λ (x : List ℕ). x ++ ds) got
            ∙ ap (λ x. slice (content f) (offset f) (length bs) ++ x) rest'
            ∙ slice-append (content f) (offset f) (length bs) (length ds)
            ∙ ap (slice (content f) (offset f)) (sym long),
        omega (arith, within, long),
        elim ends [
          | inl full ↦ inl (omega (arith, full, long))
          | inr hollow ↦
              inr (λ i h. ap (λ m. read_u8 m i) (sym same) ∙ hollow i (omega (arith, h, at, long)))
        ],
      )

  appended-same : (bs : List ℕ) (r : Result IoError (List ℕ) × File) → (appended os bs r).1 ≡ r.1
  unfolding appended
  appended-same bs (ok ds, g) = refl
  appended-same bs (err e, g) = refl

  abbrev Round : ℕ → ℕ → File → Type 0
  Round rounds total f =
      (content (read_rounds os rounds total f).1 ≡ content f)
      × IsRead total f (read_rounds os rounds total f).0

  short-IsRead :
      (rounds total : ℕ) (f : File) (o : Option (List ℕ))
      → ltb total 2048 ≡ true
      → (read (2048 - total) f).0 ≡ o
      → ((n : ℕ) (g : File) → total < n → n ≤ 2048 → Round rounds n g)
      → Round (suc rounds) total f
  unfolding read_rounds slice
  short-IsRead rounds total f none short e ih =
      rw (short, e, read_rounds) (read_same (2048 - total) f, λ k. cc)
  short-IsRead rounds total f (some []) short e ih =
      let h = read_end (2048 - total) f (ground (arith, short)) e in
      rw (short, e, read_rounds)
        (
          read_same (2048 - total) f,
          (refl, ground (arith, short), inr (λ i k. past_end f i (omega (arith, h, k)))),
        )
  short-IsRead rounds total f (some (b ∷ cs)) short e ih =
      let bs = b ∷ cs in
      let (got, most, at) = read_bytes (2048 - total) f bs e in
      let (same, k) =
        ih (total + length bs) (read (2048 - total) f).1 (omega arith)
          (ground (arith, short, most)) in
      let rest = read_rounds os rounds (total + length bs) (read (2048 - total) f).1 in
      rw (short, e, read_rounds)
        (
          ap content (appended-same bs rest) ∙ same ∙ read_same (2048 - total) f,
          appended-IsRead total f (read (2048 - total) f).1 bs rest (read_same (2048 - total) f) at
              got k,
        )

  read_rounds-IsRead :
      (rounds total : ℕ) (f : File) → total ≤ 2048 → 2048 < total + rounds → Round rounds total f
  unfolding read_rounds slice
  read_rounds-IsRead zero total f h l = absurd (omega (arith, h, l))
  read_rounds-IsRead (suc rounds) total f h l = elim (Bool-cases (ltb total 2048)) [
    | inr full ↦ rw (full, read_rounds) (refl, (refl, omega (arith, h), inl (ground (arith, full))))
    | inl short ↦
        short-IsRead rounds total f (read (2048 - total) f).0 short refl
          (λ n g less within. read_rounds-IsRead rounds n g within (omega (arith, l, less)))
  ]

  -- A page that was read has the bytes of the file at `o`.
  abbrev pub IsPageAt : Bytes → ℕ → Result IoError Page → Type 0
  IsPageAt c o (ok p) = (i : ℕ) → i < 2048 → read_u8 p i ≡ read_u8 c (o + i)
  IsPageAt c o (err e) = e ≢ out_of_rounds

  page_of-IsPageAt :
      (f : File) (r : Result IoError (List ℕ) × File)
      → IsRead 0 f r.0
      → IsPageAt (content f) (offset f) (page_of os r).0
  unfolding page_of read_u8
  page_of-IsPageAt f (err e, g) k = k
  page_of-IsPageAt f (ok bs, g) (got, within, ends) = λ i h.
      let n = length bs in
      let blank : read_u8 zeroed i ≡ 0 = omega arith in
      let at : offset f + (i - 0) ≡ offset f + i = omega arith in
      ap (λ x. read_u8 (copy zeroed 0 x) i) got
      ∙ read_u8-copy-slice zeroed (content f) 0 (offset f) n i
      ∙ elim ends [
        | inl full ↦ ground (arith, full, h, ap (read_u8 (content f)) at)
        | inr hollow ↦ elim (Bool-cases (ltb i n)) [
          | inl inside ↦ ground (arith, inside, ap (read_u8 (content f)) at)
          | inr behind ↦ ground (arith, behind, blank, hollow (offset f + i))
        ]
      ]

  page_of-file : (r : Result IoError (List ℕ) × File) → (page_of os r).1 ≡ r.1
  unfolding page_of
  page_of-file (ok bs, g) = refl
  page_of-file (err e, g) = refl

  -- Whatever chunks the system's reads come in, `read_page` ends within its 2049 rounds and leaves
  -- the file's bytes as they are; unless the system reports an error, the page has the 2048 bytes of
  -- the file from the page's offset on, where those behind the file's end are zero.
  pub read_page-IsPageAt :
      (id : ℕ) (f : File)
      → (content (read_page os id f).1 ≡ content f)
        × IsPageAt (content f) (page_offset id) (read_page os id f).0
  unfolding read_page
  read_page-IsPageAt id f =
      let s = lseek_set (page_offset id) f in
      elim (Bool-cases s.0) [
        | inr threw ↦ rw (threw, read_page) (set_same (page_offset id) f, λ e. cc)
        | inl sought ↦
            let (same, k) = read_rounds-IsRead read_limit 0 s.1 (omega arith) (omega arith) in
            let r = read_rounds os read_limit 0 s.1 in
            rw (sought, read_page)
              (
                ap content (page_of-file r) ∙ same ∙ set_same (page_offset id) f,
                subst (λ c. IsPageAt c (page_offset id) (page_of os r).0)
                    (set_same (page_offset id) f)
                    (subst (λ o. IsPageAt (content s.1) o (page_of os r).0)
                      (set_offset (page_offset id) f sought) (page_of-IsPageAt s.1 r k)),
              )
      ]
