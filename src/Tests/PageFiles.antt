-- ===== src/Tests/PageFiles.antt =====
-- A file in memory, whose reads return 1000 bytes at most.
use advance_db.Prelude.{
  ℕ, zero, suc, ◌+◌, ◌-◌, ◌<◌, ◌≤◌, ◌≡◌, refl, sym, ap, ◌∙◌, true, some, List, [], ◌∷◌, length, ltb,
  if◌then◌else◌, Result, ok, err, ◌⊎◌, inl, inr, arith, Bool-cases,
}
use advance_db.Bytes.{Bytes, read_u8, slice, copy, zeroed}
use advance_db.Bytes.Blocks.{length-slice, Agree-copy}
use advance_db.Page.PageHeader.{Page}
use advance_db.PageFile.{
  Posix, IoError, out_of_rounds, write_page, read_page, extended, write_at, write_after,
  read_rounds, page_of, appended,
}
use advance_db.PageFile.Reading.{IsPageAt, read_page-IsPageAt}
use advance_db.PageFile.Writing.{read_page-write_page}

record MemoryFile : Type 0 where
  bytes : Bytes
  len : ℕ
  pos : ℕ

abbrev shown : MemoryFile → Bytes
shown f i = if ltb i f.len then f.bytes i else 0

abbrev chunk : ℕ → MemoryFile → ℕ
chunk n f =
    if ltb n 1000
    then (if ltb (f.len - f.pos) n then f.len - f.pos else n)
    else (if ltb (f.len - f.pos) 1000 then f.len - f.pos else 1000)

abbrev longer : ℕ → ℕ → ℕ
longer a b = if ltb a b then b else a

abbrev after_write : List ℕ → MemoryFile → MemoryFile
after_write bs f = record {
  bytes = copy (shown f) f.pos bs;
  len = longer f.len (f.pos + length bs);
  pos = f.pos + length bs;
}

shown-end : (f : MemoryFile) (i : ℕ) → f.len ≤ i → read_u8 (shown f) i ≡ 0
unfolding read_u8
shown-end f i h = ground arith

shown-write :
    (bs : List ℕ) (f : MemoryFile) (i : ℕ)
    → read_u8 (shown (after_write bs f)) i ≡ read_u8 (copy (shown f) f.pos bs) i
unfolding read_u8
shown-write bs f i = elim (Bool-cases (ltb i (longer f.len (f.pos + length bs)))) [
  | inl inside ↦ rw inside refl
  | inr behind ↦
      let away : f.pos + length bs ≤ i = ground (arith, behind) in
      let out : f.len ≤ i = ground (arith, behind) in
      rw behind (
        sym (
          (Agree-copy i (i + 1) (shown f) f.pos bs (inr away)).at i (omega arith) (omega arith)
          ∙ shown-end f i out))
]

chunk-end : (n : ℕ) (f : MemoryFile) → 0 < n → chunk n f ≡ 0 → f.len ≤ f.pos
chunk-end n f h e = ground arith

slice-nil : (m : Bytes) (o n : ℕ) → slice m o n ≡ [] → n ≡ 0
slice-nil m o n e = sym (length-slice m o n) ∙ ap (length {A = ℕ}) e

write-outside :
    (bs : List ℕ) (f : MemoryFile) (i : ℕ)
    → (i < f.pos) ⊎ (f.pos + length bs ≤ i)
    → read_u8 (shown (after_write bs f)) i ≡ read_u8 (shown f) i
write-outside bs f i away =
    shown-write bs f i
    ∙ (Agree-copy i (i + 1) (shown f) f.pos bs
          (elim away [ inl h ↦ inl (omega arith) | inr h ↦ inr h ])).at
        i (omega arith) (omega arith)

chunk-le : (n : ℕ) (f : MemoryFile) → chunk n f ≤ n
chunk-le n f = ground arith

nil_of_some : {bs : List ℕ} → some bs ≡ some [] → bs ≡ []
nil_of_some e = cc

some-slice :
    (m : Bytes) (o n k : ℕ) (bs : List ℕ)
    → n ≤ k
    → some (slice m o n) ≡ some bs
    → (bs ≡ slice m o (length bs)) × (length bs ≤ k) × (o + n ≡ o + length bs)
some-slice m o n k bs h e =
    let same : slice m o n ≡ bs = cc in
    let long : n ≡ length bs = sym (length-slice m o n) ∙ ap (length {A = ℕ}) same in
    (sym same ∙ ap (slice m o) long, omega arith, ap (λ x. o + x) long)

memory-bytes :
    (n : ℕ) (f : MemoryFile) (bs : List ℕ)
    → some (slice (shown f) f.pos (chunk n f)) ≡ some bs
    → (bs ≡ slice (shown f) f.pos (length bs))
      × (length bs ≤ n)
      × (f.pos + chunk n f ≡ f.pos + length bs)
memory-bytes n f bs e = some-slice (shown f) f.pos (chunk n f) n bs (chunk-le n f) e

abbrev memory : Posix
memory = record {
  File = MemoryFile;
  content = shown;
  size = λ f. f.len;
  offset = λ f. f.pos;
  past_end = shown-end;
  lseek_set = λ o f. (true, record f { pos = o });
  lseek_end = λ f. (some f.len, record f { pos = f.len });
  set_same = λ o f. refl;
  set_offset = λ o f e. refl;
  end_same = λ f. refl;
  read = λ n f. (some (slice (shown f) f.pos (chunk n f)), record f { pos = f.pos + chunk n f });
  read_same = λ n f. refl;
  read_bytes = memory-bytes;
  read_end = λ n f h e. chunk-end n f h (slice-nil (shown f) f.pos (chunk n f) (nil_of_some e));
  write = λ bs f. (some (length bs), after_write bs f);
  write_all = λ bs f i e. shown-write bs f i;
  write_outside = write-outside;
  commit = λ f. (true, f);
  commit_same = λ f. refl;
}

abbrev empty_file : MemoryFile
empty_file = record { bytes = zeroed; len = 0; pos = 0 }

-- A page of ones.
abbrev ones : Page
ones i = 1

abbrev written : Result {0, 0} IoError Unit × MemoryFile
written = write_page memory 1 ones empty_file

written-ok : written.0 ≡ ok tt
unfolding write_page write_after extended write_at slice
written-ok = refl

-- The system's reads do not fail here.
abbrev IsFine {ℓ} : {A : Type ℓ} → Result IoError A → Type 0
IsFine (ok a) = Unit
IsFine (err e) = e ≡ out_of_rounds

appended-IsFine :
    (bs : List ℕ) (r : Result IoError (List ℕ) × MemoryFile)
    → IsFine r.0
    → IsFine (appended memory bs r).0
unfolding appended
appended-IsFine bs (ok ds, f) k = k
appended-IsFine bs (err e, f) k = k

chunk-IsFine :
    (rounds total : ℕ) (f : MemoryFile) (bs : List ℕ)
    → ltb total 2048 ≡ true
    → slice (shown f) f.pos (chunk (2048 - total) f) ≡ bs
    → ((n : ℕ) (g : MemoryFile) → IsFine (read_rounds memory rounds n g).0)
    → IsFine (read_rounds memory (suc rounds) total f).0
unfolding read_rounds
chunk-IsFine rounds total f [] short e ih = rw (short, e, read_rounds) tt
chunk-IsFine rounds total f (b ∷ cs) short e ih =
    let g = record f { pos = f.pos + chunk (2048 - total) f } in
    rw (short, e, read_rounds)
      (appended-IsFine (b ∷ cs) (read_rounds memory rounds (total + suc (length cs)) g)
        (ih (total + suc (length cs)) g))

read_rounds-IsFine :
    (rounds total : ℕ) (f : MemoryFile) → IsFine (read_rounds memory rounds total f).0
unfolding read_rounds
read_rounds-IsFine zero total f = refl
read_rounds-IsFine (suc rounds) total f = elim (Bool-cases (ltb total 2048)) [
  | inr full ↦ rw (full, read_rounds) tt
  | inl short ↦ chunk-IsFine rounds total f _ short refl (read_rounds-IsFine rounds)
]

page_of-IsFine :
    (r : Result IoError (List ℕ) × MemoryFile) → IsFine r.0 → IsFine (page_of memory r).0
unfolding page_of
page_of-IsFine (ok bs, f) k = k
page_of-IsFine (err e, f) k = k

read_page-ok :
    (r : Result IoError Page)
    → IsFine r
    → IsPageAt memory (shown written.1) 2048 r
    → (q : Page) × (r ≡ ok q)
read_page-ok (ok q) fine k = (q, refl)
read_page-ok (err e) fine k = absurd (k fine)

read_page-IsPageAt_example :
    (shown (read_page memory 1 written.1).1 ≡ shown written.1)
    × IsPageAt memory (shown written.1) 2048 (read_page memory 1 written.1).0
read_page-IsPageAt_example = read_page-IsPageAt memory 1 written.1

abbrev read_back : (q : Page) × ((read_page memory 1 written.1).0 ≡ ok q)
unfolding read_page
read_back =
    read_page-ok (read_page memory 1 written.1).0
      (page_of-IsFine _ (read_rounds-IsFine 2049 0 (record written.1 { pos = 2048 })))
      (read_page-IsPageAt memory 1 written.1).1

read_page-write_page_example : read_u8 read_back.0 7 ≡ read_u8 ones 7
read_page-write_page_example =
    read_page-write_page memory 1 1 ones read_back.0 empty_file (omega arith) (omega arith)
      written-ok read_back.1 7 (omega arith)
