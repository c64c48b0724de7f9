-- ===== src/Bytes/Blocks.antt =====
-- Blocks of memory: what a `memcpy` stores and what it leaves alone, and the directory of 16-bit
-- words that a slotted page keeps.
use advance_db.Prelude.{
  ℕ, zero, suc, ◌+◌, ◌*◌, ◌<◌, ◌≤◌, ◌≡◌, refl, ap, ◌∙◌, List, [], ◌∷◌, ◌++◌, ◌⊎◌, inl, arith,
  length,
}
use advance_db.Bytes.{
  Bytes, read_u8, read_u16, write_u8, write_u16, copy, slice, read_u16-lt, read_u8-write_u8,
  read_u8-write_u16, read_u16-write_u16,
}

-- The two memories hold the same bytes from `lo` up to `hi`.
pub record Agree (lo hi : ℕ) (m m' : Bytes) : Type 0 where
  pub at : (i : ℕ) → lo ≤ i → i < hi → read_u8 m i ≡ read_u8 m' i

abbrev pub AllBelow : ℕ → List ℕ → Type 0
AllBelow n [] = Unit
AllBelow n (x ∷ xs) = (x < n) × AllBelow n xs

pub Agree-trans : {lo hi : ℕ} {a b c : Bytes} → Agree lo hi a b → Agree lo hi b c → Agree lo hi a c
Agree-trans p q = record { at = λ i l h. p.at i l h ∙ q.at i l h }

pub Agree-write_u16 :
    (lo hi : ℕ) (m : Bytes) (o v : ℕ) → (hi ≤ o) ⊎ (o + 2 ≤ lo) → Agree lo hi (write_u16 m o v) m
Agree-write_u16 lo hi m o v s = record { at = λ i l h. ground (arith, read_u8-write_u16 m o v i) }

pub Agree-write_u8 :
    (lo hi : ℕ) (m : Bytes) (o v : ℕ) → (hi ≤ o) ⊎ (o + 1 ≤ lo) → Agree lo hi (write_u8 m o v) m
Agree-write_u8 lo hi m o v s = record { at = λ i l h. ground (arith, read_u8-write_u8 m o v i) }

pub read_u16-Agree :
    {lo hi : ℕ} {m m' : Bytes} (o : ℕ)
    → Agree lo hi m m'
    → lo ≤ o
    → o + 2 ≤ hi
    → read_u16 m o ≡ read_u16 m' o
unfolding read_u16
read_u16-Agree o a l h = ground (arith, a.at o (omega arith), a.at (o + 1) (omega arith))

pub slice-Agree :
    {lo hi : ℕ} {m m' : Bytes} (o n : ℕ)
    → Agree lo hi m m'
    → lo ≤ o
    → o + n ≤ hi
    → slice m o n ≡ slice m' o n
unfolding slice
slice-Agree o zero a l h = refl
slice-Agree o (suc n) a l h =
    ground (arith, a.at o l (omega arith), slice-Agree (o + 1) n a (omega arith) (omega arith))

pub Agree-copy :
    (lo hi : ℕ) (m : Bytes) (o : ℕ) (bs : List ℕ)
    → (hi ≤ o) ⊎ (o + length bs ≤ lo)
    → Agree lo hi (copy m o bs) m
unfolding copy
Agree-copy lo hi m o [] s = record { at = λ i l h. refl }
Agree-copy lo hi m o (b ∷ bs) s =
    Agree-trans (Agree-copy lo hi (write_u8 m o b) (o + 1) bs (omega arith))
      (Agree-write_u8 lo hi m o b (omega arith))

-- A block that was copied in is read back.
pub slice-copy :
    (m : Bytes) (o : ℕ) (bs : List ℕ) → AllBelow 256 bs → slice (copy m o bs) o (length bs) ≡ bs
unfolding copy slice
slice-copy m o [] s = refl
slice-copy m o (b ∷ bs) s = ground (
  arith,
  (Agree-copy o (o + 1) (write_u8 m o b) (o + 1) bs (inl (omega arith))).at o (omega arith)
      (omega arith),
  read_u8-write_u8 m o b o,
  slice-copy (write_u8 m o b) (o + 1) bs s.1,
)

pub length-slice : (m : Bytes) (o n : ℕ) → length (slice m o n) ≡ n
unfolding slice
length-slice m o zero = refl
length-slice m o (suc n) = ap suc (length-slice m (o + 1) n)

-- `n` words from `m + o` on, and the loop that writes them.
unfoldable pub read_words : Bytes → ℕ → ℕ → List ℕ
read_words m o zero = []
read_words m o (suc n) = read_u16 m o ∷ read_words m (o + 2) n

unfoldable pub write_words : Bytes → ℕ → List ℕ → Bytes
write_words m o [] = m
write_words m o (w ∷ ws) = write_words (write_u16 m o w) (o + 2) ws

pub length-read_words : (m : Bytes) (o n : ℕ) → length (read_words m o n) ≡ n
unfolding read_words
length-read_words m o zero = refl
length-read_words m o (suc n) = ap suc (length-read_words m (o + 2) n)

pub read_words-AllBelow : (m : Bytes) (o n : ℕ) → AllBelow 65536 (read_words m o n)
unfolding read_words
read_words-AllBelow m o zero = tt
read_words-AllBelow m o (suc n) = (read_u16-lt m o, read_words-AllBelow m (o + 2) n)

pub Agree-write_words :
    (lo hi : ℕ) (m : Bytes) (o : ℕ) (ws : List ℕ)
    → (hi ≤ o) ⊎ (o + 2 * length ws ≤ lo)
    → Agree lo hi (write_words m o ws) m
unfolding write_words
Agree-write_words lo hi m o [] s = record { at = λ i l h. refl }
Agree-write_words lo hi m o (w ∷ ws) s =
    Agree-trans (Agree-write_words lo hi (write_u16 m o w) (o + 2) ws (omega arith))
      (Agree-write_u16 lo hi m o w (omega arith))

pub write_words-append :
    (m : Bytes) (o : ℕ) (xs ys : List ℕ)
    → write_words m o (xs ++ ys) ≡ write_words (write_words m o xs) (o + 2 * length xs) ys
unfolding write_words
write_words-append m o [] ys = ap (λ a. write_words m a ys) (omega arith)
write_words-append m o (x ∷ xs) ys =
    write_words-append (write_u16 m o x) (o + 2) xs ys
    ∙ ap (λ a. write_words (write_words (write_u16 m o x) (o + 2) xs) a ys) (omega arith)

pub read_words-Agree :
    {lo hi : ℕ} {m m' : Bytes} (o n : ℕ)
    → Agree lo hi m m'
    → lo ≤ o
    → o + 2 * n ≤ hi
    → read_words m o n ≡ read_words m' o n
unfolding read_words
read_words-Agree o zero a l h = refl
read_words-Agree o (suc n) a l h = ground (
  arith,
  read_u16-Agree o a l (omega arith),
  read_words-Agree (o + 2) n a (omega arith) (omega arith),
)

-- The directory that was written is read back.
pub read_words-write_words :
    (m : Bytes) (o : ℕ) (ws : List ℕ)
    → AllBelow 65536 ws
    → read_words (write_words m o ws) o (length ws) ≡ ws
unfolding read_words write_words
read_words-write_words m o [] s = refl
read_words-write_words m o (w ∷ ws) s =
    let m' = write_u16 m o w in
    ground (
      arith,
      read_u16-Agree o (Agree-write_words o (o + 2) m' (o + 2) ws (inl (omega arith))) (omega arith)
          (omega arith),
      read_u16-write_u16 m o w,
      read_words-write_words m' (o + 2) ws s.1,
    )
