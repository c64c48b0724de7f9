-- ===== src/Bytes.antt =====
-- Raw memory, as the code reads and writes it through `reinterpret_cast` and `memcpy`: a byte at
-- every offset, and little-endian words. A stored number is cut to a byte when it is read.
pub mod Blocks
pub mod Words
use advance_db.Prelude.{
  ℕ, zero, suc, ◌+◌, ◌*◌, ◌/◌, ◌%◌, ◌<◌, ◌≤◌, ◌≡◌, List, [], ◌∷◌, ◌⊎◌, arith, ◌==◌, if◌then◌else◌,
}

abbrev pub Bytes : Type 0
Bytes = ℕ → ℕ

unfoldable pub read_u8 : Bytes → ℕ → ℕ
read_u8 m o = m o % 256

unfoldable pub read_u16 : Bytes → ℕ → ℕ
read_u16 m o = read_u8 m o + 256 * read_u8 m (o + 1)

unfoldable pub read_u32 : Bytes → ℕ → ℕ
read_u32 m o = read_u16 m o + 65536 * read_u16 m (o + 2)

unfoldable pub write_u8 : Bytes → ℕ → ℕ → Bytes
write_u8 m o v i = if i == o then v else m i

unfoldable pub write_u16 : Bytes → ℕ → ℕ → Bytes
write_u16 m o v = write_u8 (write_u8 m o v) (o + 1) (v / 256)

unfoldable pub write_u32 : Bytes → ℕ → ℕ → Bytes
write_u32 m o v = write_u16 (write_u16 m o v) (o + 2) (v / 65536)

-- memcpy of a block to `m + o`.
unfoldable pub copy : Bytes → ℕ → List ℕ → Bytes
copy m o [] = m
copy m o (b ∷ bs) = copy (write_u8 m o b) (o + 1) bs

-- The `n` bytes from `m + o` on.
unfoldable pub slice : Bytes → ℕ → ℕ → List ℕ
slice m o zero = []
slice m o (suc n) = read_u8 m o ∷ slice m (o + 1) n

-- memset of the whole page to zero.
abbrev pub zeroed : Bytes
zeroed i = 0

pub read_u8-lt : (m : Bytes) (o : ℕ) → read_u8 m o < 256
unfolding read_u8
read_u8-lt m o = omega arith

pub read_u16-lt : (m : Bytes) (o : ℕ) → read_u16 m o < 65536
unfolding read_u16
read_u16-lt m o = omega (arith, read_u8-lt m o, read_u8-lt m (o + 1))

pub read_u8-write_u8 :
    (m : Bytes) (o v i : ℕ) → read_u8 (write_u8 m o v) i ≡ (if i == o then v % 256 else read_u8 m i)
unfolding read_u8 write_u8
read_u8-write_u8 m o v i = ground arith

pub read_u8-write_u16 :
    (m : Bytes) (o v i : ℕ)
    → read_u8 (write_u16 m o v) i
      ≡ (if i == o then v % 256 else if i == o + 1 then v / 256 % 256 else read_u8 m i)
unfolding read_u8 write_u8 write_u16
read_u8-write_u16 m o v i = ground arith

-- A word that was written is read back, cut to 16 bits.
pub read_u16-write_u16 : (m : Bytes) (o v : ℕ) → read_u16 (write_u16 m o v) o ≡ v % 65536
unfolding read_u16
read_u16-write_u16 m o v =
    ground (arith, read_u8-write_u16 m o v o, read_u8-write_u16 m o v (o + 1))

pub read_u16-write_u16_ne :
    (m : Bytes) (o v j : ℕ)
    → (j + 2 ≤ o) ⊎ (o + 2 ≤ j)
    → read_u16 (write_u16 m o v) j ≡ read_u16 m j
unfolding read_u16
read_u16-write_u16_ne m o v j h =
    ground (arith, read_u8-write_u16 m o v j, read_u8-write_u16 m o v (j + 1))
