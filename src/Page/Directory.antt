-- ===== src/Page/Directory.antt =====
-- The slot directory as a list of slots, and the writes that change it.
use advance_db.Prelude.{
  ℕ, zero, suc, ◌+◌, ◌*◌, ◌%◌, ◌<◌, ◌≤◌, ◌≡◌, refl, ap₂, ◌∙◌, List, [], ◌∷◌, inl, inr, arith,
  length, take, drop, insert_at, erase_at,
}
use advance_db.Bytes.{write_u16, read_u16-write_u16, read_u16-write_u16_ne}
use advance_db.Bytes.Blocks.{
  Agree, Agree-trans, Agree-write_u16, Agree-write_words, AllBelow, read_words, write_words,
  read_words-Agree, read_words-write_words, length-read_words, read_u16-Agree,
}
use advance_db.Page.PageHeader.{
  Page, page_size, header_size, cell_count, free_start, free_end, set_cell_count, set_free_end,
}

-- The record offsets in the directory, in slot order.
abbrev pub slots : Page → List ℕ
slots p = read_words p (free_end p) (cell_count p)

-- The header's bounds: the directory fills the page from `free_end` on, behind the records.
pub record IsFramed (p : Page) : Type 0 where
  pub records_start : header_size ≤ free_start p
  pub no_overlap : free_start p ≤ free_end p
  pub directory : free_end p + 2 * cell_count p ≡ page_size

pub insert_at-AllBelow :
    (n i x : ℕ) (xs : List ℕ) → x < n → AllBelow n xs → AllBelow n (insert_at i x xs)
insert_at-AllBelow n zero x xs h b = (h, b)
insert_at-AllBelow n (suc i) x [] h b = (h, b)
insert_at-AllBelow n (suc i) x (y ∷ xs) h b = (b.0, insert_at-AllBelow n i x xs h b.1)

pub erase_at-AllBelow : (n i : ℕ) (xs : List ℕ) → AllBelow n xs → AllBelow n (erase_at i xs)
erase_at-AllBelow n zero [] b = b
erase_at-AllBelow n (suc i) [] b = b
erase_at-AllBelow n zero (y ∷ xs) b = b.1
erase_at-AllBelow n (suc i) (y ∷ xs) b = (b.0, erase_at-AllBelow n i xs b.1)

pub length-erase_at : (i : ℕ) (xs : List ℕ) → i < length xs → length (erase_at i xs) + 1 ≡ length xs
length-erase_at i [] h = absurd (omega arith)
length-erase_at zero (y ∷ xs) h = omega arith
length-erase_at (suc i) (y ∷ xs) h = omega (arith, length-erase_at i xs (omega arith))

-- The three writes of `insert_slot` are one write of the new directory.
pub write_around :
    (i : ℕ) (xs : List ℕ) (m : Page) (o x a b : ℕ)
    → i ≤ length xs
    → a ≡ o + i * 2
    → b ≡ a + 2
    → write_words (write_u16 (write_words m o (take i xs)) a x) b (drop i xs)
      ≡ write_words m o (insert_at i x xs)
unfolding write_words
write_around zero xs m o x a b h ea eb = ground arith
write_around (suc i) [] m o x a b h ea eb = absurd (omega arith)
write_around (suc i) (y ∷ xs) m o x a b h ea eb =
    write_around i xs (write_u16 m o y) (o + 2) x a b (omega arith) (omega arith) eb

-- The two writes of `remove_slot` are one write of the new directory.
pub write_without :
    (i : ℕ) (xs : List ℕ) (m : Page) (o a : ℕ)
    → i ≤ length xs
    → a ≡ o + i * 2
    → write_words (write_words m o (take i xs)) a (drop (suc i) xs)
      ≡ write_words m o (erase_at i xs)
unfolding write_words
write_without zero [] m o a h ea = refl
write_without zero (y ∷ xs) m o a h ea = ground arith
write_without (suc i) [] m o a h ea = refl
write_without (suc i) (y ∷ xs) m o a h ea =
    write_without i xs (write_u16 m o y) (o + 2) a (omega arith) (omega arith)

-- `p'` is `p` with the directory `ws` at `o`; the rest of the page is kept.
pub record HasDirectory (p : Page) (o : ℕ) (ws : List ℕ) (p' : Page) : Type 0 where
  pub count : cell_count p' ≡ length ws
  pub start : free_start p' ≡ free_start p
  pub end : free_end p' ≡ o
  pub listed : slots p' ≡ ws
  pub before : Agree 0 18 p' p
  pub behind : Agree 24 o p' p

pub write_directory :
    (p : Page) (o c : ℕ) (ws : List ℕ)
    → header_size ≤ o
    → o < 65536
    → AllBelow 65536 ws
    → c % 65536 ≡ length ws
    → HasDirectory p o ws (set_cell_count (write_words (set_free_end p o) o ws) c)
write_directory p o c ws lo hi small e =
    let p₁ = set_free_end p o in
    let p₂ = write_words p₁ o ws in
    let p₃ = set_cell_count p₂ c in
    let written : Agree 0 o p₂ p₁ = Agree-write_words 0 o p₁ o ws (inl (omega arith)) in
    let count : cell_count p₃ ≡ length ws = omega (arith, read_u16-write_u16 p₂ 18 c) in
    let end : free_end p₃ ≡ o = omega (
      arith,
      read_u16-write_u16_ne p₂ 18 c 22 (inr (omega arith)),
      read_u16-Agree 22 written (omega arith) (omega arith),
      read_u16-write_u16 p 22 o,
    ) in
    record {
      count = count;
      start = omega (
        arith,
        read_u16-write_u16_ne p₂ 18 c 20 (inr (omega arith)),
        read_u16-Agree 20 written (omega arith) (omega arith),
        read_u16-write_u16_ne p 22 o 20 (inl (omega arith)),
      );
      end = end;
      listed =
          ap₂ (λ a n. read_words p₃ a n) end count
          ∙ read_words-Agree {lo = 20} {hi = o + 2 * length ws} o (length ws)
              (Agree-write_u16 20 _ p₂ 18 c (inr (omega arith))) (omega arith) (omega arith)
          ∙ read_words-write_words p₁ o ws small;
      before = Agree-trans (Agree-write_u16 0 18 p₂ 18 c (inl (omega arith))) (
          Agree-trans (Agree-write_words 0 18 p₁ o ws (inl (omega arith)))
            (Agree-write_u16 0 18 p 22 o (inl (omega arith))));
      behind = Agree-trans (Agree-write_u16 24 o p₂ 18 c (inr (omega arith))) (
          Agree-trans (Agree-write_words 24 o p₁ o ws (inl (omega arith)))
            (Agree-write_u16 24 o p 22 o (inr (omega arith))));
    }

pub length-slots : (p : Page) → length (slots p) ≡ cell_count p
length-slots p = length-read_words p (free_end p) (cell_count p)
