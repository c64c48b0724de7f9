-- ===== src/PageFile/Writing.antt =====
-- A page that was written is read back, and no other page is touched.
use advance_db.Prelude.{
  ℕ, ◌+◌, ◌-◌, ◌*◌, ◌<◌, ◌≤◌, ◌≡◌, refl, sym, ap, ◌∙◌, subst, true, Option, none, some, List, [],
  ◌∷◌, length, ltb, ◌==◌, if◌then◌else◌, Result, ok, err, ◌⊎◌, inl, inr, arith, Bool-cases,
  Option-cases,
}
use advance_db.Bytes.{Bytes, read_u8, slice, copy}
use advance_db.Bytes.Blocks.{length-slice}
use advance_db.Page.PageHeader.{Page}
use advance_db.PageFile.{
  Posix, IoError, Done, page_offset, read_page, extended, write_at, write_after, write_page,
}
use advance_db.PageFile.Reading.{read_u8-copy-slice, IsPageAt, read_page-IsPageAt}

module _ (os : Posix) where
  open os use {
    File, content, offset, lseek_set, lseek_end, write, commit, set_same, set_offset, end_same,
    write_all, write_outside, commit_same,
  }

  -- The same bytes outside the page at `o`.
  abbrev pub Outside : ℕ → File → File → Type 0
  Outside o f g = (i : ℕ) → (i < o) ⊎ (o + 2048 ≤ i) → read_u8 (content g) i ≡ read_u8 (content f) i

  -- The write of `bs` after a seek to `o`, and a commit.
  seek_write-outside :
      (o : ℕ) (bs : List ℕ) (f : File) (i : ℕ)
      → (lseek_set o f).0 ≡ true
      → (i < o) ⊎ (o + length bs ≤ i)
      → read_u8 (content (write bs (lseek_set o f).1).1) i ≡ read_u8 (content f) i
  seek_write-outside o bs f i sought away =
      let at = set_offset o f sought in
      write_outside bs (lseek_set o f).1 i
        (subst (λ x. (i < x) ⊎ (x + length bs ≤ i)) (sym at) away)
      ∙ ap (λ c. read_u8 c i) (set_same o f)

  write_at-Outside :
      (o : ℕ) (bs : List ℕ) (f : File) → length bs ≡ 2048 → Outside o f (write_at os o bs f).1
  unfolding write_at
  write_at-Outside o bs f l i away = elim (Bool-cases (lseek_set o f).0) [
    | inr threw ↦ rw (threw, write_at) (ap (λ c. read_u8 c i) (set_same o f))
    | inl sought ↦
        let w = write bs (lseek_set o f).1 in
        let there = seek_write-outside o bs f i sought (rw l away) in
        elim (Option-cases w.0) [
          | inl failed ↦ rw (sought, failed, write_at) there
          | inr (n, wrote) ↦ elim (Bool-cases (n == length bs)) [
            | inl full ↦
                rw (sought, wrote, full, write_at) (ap (λ c. read_u8 c i) (commit_same w.1) ∙ there)
            | inr short ↦ rw (sought, wrote, short, write_at) there
          ]
        ]
  ]

  -- Extending the file changes no byte but the last of the page that ends there.
  extended-Outside : (o : ℕ) (r : Option ℕ × File) → Outside o r.1 (extended os (o + 2048) r).1
  unfolding extended
  extended-Outside o (none, f) i away = refl
  extended-Outside o (some n, f) i away =
      let end = o + 2048 - 1 in
      elim (Bool-cases (ltb n (o + 2048))) [
        | inr long ↦ rw (long, extended) refl
        | inl short ↦ elim (Bool-cases (lseek_set end f).0) [
          | inr threw ↦ rw (short, threw, extended) (ap (λ c. read_u8 c i) (set_same end f))
          | inl sought ↦
              let w = write (0 ∷ []) (lseek_set end f).1 in
              let there = seek_write-outside end (0 ∷ []) f i sought (ground (arith, away)) in
              elim (Option-cases w.0) [
                | inl failed ↦ rw (short, sought, failed, extended) there
                | inr (m, wrote) ↦ elim (Bool-cases (m == 1)) [
                  | inl full ↦
                      rw (short, sought, wrote, full, extended)
                        (ap (λ c. read_u8 c i) (commit_same w.1) ∙ there)
                  | inr missed ↦ rw (short, sought, wrote, missed, extended) there
                ]
              ]
        ]
      ]

  write_after-Outside :
      (o : ℕ) (bs : List ℕ) (r : Done × File)
      → length bs ≡ 2048
      → Outside o r.1 (write_after os o bs r).1
  unfolding write_after
  write_after-Outside o bs (ok u, f) l i away = write_at-Outside o bs f l i away
  write_after-Outside o bs (err e, f) l i away = refl

  write_at-done :
      (o : ℕ) (p : Page) (f : File) (i : ℕ)
      → (write_at os o (slice p 0 2048) f).0 ≡ ok tt
      → i < 2048
      → read_u8 (content (write_at os o (slice p 0 2048) f).1) (o + i) ≡ read_u8 p i
  unfolding write_at
  write_at-done o p f i done h =
      let bs = slice p 0 2048 in
      let s = lseek_set o f in
      let w = write bs s.1 in
      elim (Bool-cases s.0) [
        | inr threw ↦ absurd (ground (arith, threw, done))
        | inl sought ↦ elim (Option-cases w.0) [
          | inl failed ↦ absurd (ground (arith, sought, failed, done))
          | inr (n, wrote) ↦ elim (Bool-cases (n == length bs)) [
            | inr short ↦ absurd (ground (arith, sought, wrote, short, done))
            | inl full ↦
                let all : w.0 ≡ some (length bs) = ground (arith, wrote, full) in
                let at = set_offset o f sought in
                let there : 0 + (o + i - o) ≡ i = omega arith in
                rw (sought, wrote, full, write_at)
                  (ap (λ c. read_u8 c (o + i)) (commit_same w.1)
                    ∙ write_all bs s.1 (o + i) all
                    ∙ ap (λ k. read_u8 (copy (content s.1) k bs) (o + i)) at
                    ∙ read_u8-copy-slice (content s.1) p o 0 2048 (o + i)
                    ∙ ground (arith, h, ap (read_u8 p) there))
          ]
        ]
      ]

  write_after-done :
      (o : ℕ) (p : Page) (r : Done × File) (i : ℕ)
      → (write_after os o (slice p 0 2048) r).0 ≡ ok tt
      → i < 2048
      → read_u8 (content (write_after os o (slice p 0 2048) r).1) (o + i) ≡ read_u8 p i
  unfolding write_after
  write_after-done o p (ok u, f) i done h = write_at-done o p f i done h
  write_after-done o p (err e, f) i done h = cc

  -- `write_page` leaves every byte outside the page as it is, also when it throws; when it returns,
  -- the page's bytes are those that were given.
  pub write_page-writes :
      (id : ℕ) (p : Page) (f : File)
      → Outside (page_offset id) f (write_page os id p f).1
        × ((write_page os id p f).0 ≡ ok tt
            → (i : ℕ) → i < 2048
            → read_u8 (content (write_page os id p f).1) (page_offset id + i) ≡ read_u8 p i)
  unfolding write_page
  write_page-writes id p f =
      let o = page_offset id in
      let e = extended os (o + 2048) (lseek_end f) in
      (
        λ i away.
            write_after-Outside o (slice p 0 2048) e (length-slice p 0 2048) i away
            ∙ extended-Outside o (lseek_end f) i away
            ∙ ap (λ c. read_u8 c i) (end_same f),
        λ done i h. write_after-done o p e i done h,
      )

-- The pages whose bytes have offsets below 2^31.
abbrev pub file_pages : ℕ
file_pages = 1048575

page-eq : (p q : Page) → (i : ℕ) → p ≡ q → read_u8 p i ≡ read_u8 q i
page-eq p q i e = ap (λ m. read_u8 m i) e

module _ (os : Posix) where
  open os use {File, content}

  at-page :
      (c : Bytes) (o : ℕ) (r : Result IoError Page) (q : Page)
      → IsPageAt os c o r
      → r ≡ ok q
      → (i : ℕ) → i < 2048
      → read_u8 q i ≡ read_u8 c (o + i)
  at-page c o r q k e = subst (IsPageAt os c o) e k

  -- After a `write_page` that returns, a `read_page` that returns has the page's bytes as they were
  -- written, or, for another page, as they were in the file before; for pages below 2^20 - 1.
  pub read_page-write_page :
      (id j : ℕ) (p q : Page) (f : File)
      → id < file_pages
      → j < file_pages
      → (write_page os id p f).0 ≡ ok tt
      → (read_page os j (write_page os id p f).1).0 ≡ ok q
      → (i : ℕ) → i < 2048
      → read_u8 q i ≡ (if j == id then read_u8 p i else read_u8 (content f) (j * 2048 + i))
  read_page-write_page id j p q f small small' wrote got i h =
      let g = (write_page os id p f).1 in
      let (outside, done) = write_page-writes os id p f in
      let here =
        at-page (content g) (page_offset j) (read_page os j g).0 q (read_page-IsPageAt os j g).1 got
          i h in
      elim (Bool-cases (j == id)) [
        | inl same ↦
            let at : j ≡ id = ground arith in
            rw same (here ∙ ap (λ k. read_u8 (content g) (page_offset k + i)) at ∙ done wrote i h)
        | inr other ↦
            let o : page_offset j ≡ j * 2048 = omega arith in
            let o' : page_offset id ≡ id * 2048 = omega arith in
            rw other (
              here
              ∙ outside (page_offset j + i) (ground (arith, other, o, o', h))
              ∙ ap (λ k. read_u8 (content f) (k + i)) o)
      ]
