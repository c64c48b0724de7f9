-- ===== src/Table/Bits.antt =====
-- The bits of a byte, as `byte & (1 << k)`, `byte |= 1 << k` and `byte &= ~(1 << k)` read, set and
-- clear them, and the bitmap of a table's second page (src/storage/table.cpp), behind its header.
use advance_db.Prelude.{
  ℕ, zero, suc, ◌+◌, ◌-◌, ◌*◌, ◌/◌, ◌%◌, ◌^◌, ◌<◌, ◌≤◌, ◌≡◌, Bool, ◌||◌, ◌&&◌, not, ◌==◌,
  if◌then◌else◌, arith, Bool-cases, inl, inr,
}
use advance_db.Bytes.{read_u8, write_u8, read_u8-lt, read_u8-write_u8}
use advance_db.Page.PageHeader.{Page, header_size}

unfoldable pub test_bit : ℕ → ℕ → Bool
test_bit b zero = b % 2 == 1
test_bit b (suc k) = test_bit (b / 2) k

unfoldable pub with_bit : ℕ → ℕ → ℕ
with_bit b zero = if b % 2 == 1 then b else b + 1
with_bit b (suc k) = b % 2 + 2 * with_bit (b / 2) k

unfoldable pub without_bit : ℕ → ℕ → ℕ
without_bit b zero = if b % 2 == 1 then b - 1 else b
without_bit b (suc k) = b % 2 + 2 * without_bit (b / 2) k

abbrev pub is_allocated : Page → ℕ → Bool
is_allocated bitmap id = test_bit (read_u8 bitmap (header_size + id / 8)) (id % 8)

abbrev pub set_allocated : Page → ℕ → Page
set_allocated bitmap id =
    let at = header_size + id / 8 in write_u8 bitmap at (with_bit (read_u8 bitmap at) (id % 8))

abbrev pub clear_allocated : Page → ℕ → Page
clear_allocated bitmap id =
    let at = header_size + id / 8 in write_u8 bitmap at (without_bit (read_u8 bitmap at) (id % 8))

test_bit-with_bit : (b k i : ℕ) → test_bit (with_bit b k) i ≡ (i == k || test_bit b i)
unfolding test_bit with_bit
test_bit-with_bit b zero zero = ground arith
test_bit-with_bit b zero (suc i) =
    let half : with_bit b 0 / 2 ≡ b / 2 = ground arith in rw (half, test_bit) (ground arith)
test_bit-with_bit b (suc k) zero = ground arith
test_bit-with_bit b (suc k) (suc i) =
    let half : with_bit b (suc k) / 2 ≡ with_bit (b / 2) k = omega arith in
    rw (half, test_bit) (ground (arith, test_bit-with_bit (b / 2) k i))

test_bit-without_bit : (b k i : ℕ) → test_bit (without_bit b k) i ≡ (not (i == k) && test_bit b i)
unfolding test_bit without_bit
test_bit-without_bit b zero zero = ground arith
test_bit-without_bit b zero (suc i) =
    let half : without_bit b 0 / 2 ≡ b / 2 = ground arith in rw (half, test_bit) (ground arith)
test_bit-without_bit b (suc k) zero = ground arith
test_bit-without_bit b (suc k) (suc i) =
    let half : without_bit b (suc k) / 2 ≡ without_bit (b / 2) k = omega arith in
    rw (half, test_bit) (ground (arith, test_bit-without_bit (b / 2) k i))

with_bit-lt : (n b k : ℕ) → b < 2 ^ n → k < n → with_bit b k < 2 ^ n
unfolding with_bit
with_bit-lt zero b k h l = absurd (omega (arith, l))
with_bit-lt (suc n) b zero h l = ground (arith, h)
with_bit-lt (suc n) b (suc k) h l =
    omega (arith, with_bit-lt n (b / 2) k (omega (arith, h)) (omega (arith, l)))

without_bit-le : (b k : ℕ) → without_bit b k ≤ b
unfolding without_bit
without_bit-le b zero = ground arith
without_bit-le b (suc k) = omega (arith, without_bit-le (b / 2) k)

byte-lt : (p : Page) (o k : ℕ) → k < 8 → with_bit (read_u8 p o) k < 256
byte-lt p o k h = with_bit-lt 8 (read_u8 p o) k (read_u8-lt p o) h

-- Setting an allocation bit sets that bit and no other.
pub is_allocated-set_allocated :
    (p : Page) (id j : ℕ) → is_allocated (set_allocated p id) j ≡ (j == id || is_allocated p j)
is_allocated-set_allocated p id j =
    let at = header_size + id / 8 in
    let b = read_u8 p at in
    let read = read_u8-write_u8 p at (with_bit b (id % 8)) (header_size + j / 8) in
    elim (Bool-cases (j / 8 == id / 8)) [
      | inl same ↦
          let e : j / 8 ≡ id / 8 = ground (arith, same) in
          let got : read_u8 (set_allocated p id) (header_size + j / 8) ≡ with_bit b (id % 8) =
            ground (arith, read, e, byte-lt p at (id % 8) (omega arith)) in
          rw (got, is_allocated) (rw e (ground (arith, e, test_bit-with_bit b (id % 8) (j % 8))))
      | inr apart ↦
          let got : read_u8 (set_allocated p id) (header_size + j / 8)
              ≡ read_u8 p (header_size + j / 8) =
            ground (arith, read, apart) in
          rw (got, is_allocated) (ground (arith, apart))
    ]

-- Clearing an allocation bit clears that bit and no other.
pub is_allocated-clear_allocated :
    (p : Page) (id j : ℕ)
    → is_allocated (clear_allocated p id) j ≡ (not (j == id) && is_allocated p j)
is_allocated-clear_allocated p id j =
    let at = header_size + id / 8 in
    let b = read_u8 p at in
    let read = read_u8-write_u8 p at (without_bit b (id % 8)) (header_size + j / 8) in
    elim (Bool-cases (j / 8 == id / 8)) [
      | inl same ↦
          let e : j / 8 ≡ id / 8 = ground (arith, same) in
          let got : read_u8 (clear_allocated p id) (header_size + j / 8) ≡ without_bit b (id % 8) =
            ground (arith, read, e, read_u8-lt p at, without_bit-le b (id % 8)) in
          rw (got, is_allocated) (rw e (ground (arith, e, test_bit-without_bit b (id % 8) (j % 8))))
      | inr apart ↦
          let got : read_u8 (clear_allocated p id) (header_size + j / 8)
              ≡ read_u8 p (header_size + j / 8) =
            ground (arith, read, apart) in
          rw (got, is_allocated) (ground (arith, apart))
    ]
