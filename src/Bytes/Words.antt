-- ===== src/Bytes/Words.antt =====
-- Words in byte vectors (std::vector<uint8_t>), little-endian, and reading off a vector's front.
use advance_db.Prelude.{
  ℕ, zero, suc, ◌+◌, ◌*◌, ◌/◌, ◌%◌, ◌^◌, ◌<◌, ◌≡◌, refl, ap, ◌∙◌, sym, List, [], ◌∷◌, ◌++◌, Option,
  none, some, arith, length, take, drop, ltb, if◌then◌else◌, take-append, drop-append,
  length-append,
}

-- The `n` low bytes of a word.
unfoldable pub le_bytes : ℕ → ℕ → List ℕ
le_bytes zero v = []
le_bytes (suc n) v = v % 256 ∷ le_bytes n (v / 256)

unfoldable pub from_le : List ℕ → ℕ
from_le [] = 0
from_le (b ∷ bs) = b % 256 + 256 * from_le bs

-- `n` bytes and the rest, unless `p + n > end`.
unfoldable pub split : ℕ → List ℕ → Option (List ℕ × List ℕ)
split n bs = if ltb (length bs) n then none else some (take n bs, drop n bs)

pub length-le_bytes : (n v : ℕ) → length (le_bytes n v) ≡ n
unfolding le_bytes
length-le_bytes zero v = refl
length-le_bytes (suc n) v = ap suc (length-le_bytes n (v / 256))

pub from_le-le_bytes : (n v : ℕ) → v < 256 ^ n → from_le (le_bytes n v) ≡ v
unfolding le_bytes from_le
from_le-le_bytes zero v h = omega arith
from_le-le_bytes (suc n) v h = omega (arith, from_le-le_bytes n (v / 256) (omega arith))

pub from_le-lt : (bs : List ℕ) (n : ℕ) → length bs ≡ n → from_le bs < 256 ^ n
unfolding from_le
from_le-lt [] n h = rw (sym h) (omega arith)
from_le-lt (b ∷ bs) zero h = absurd (omega (arith, h))
from_le-lt (b ∷ bs) (suc n) h = omega (arith, from_le-lt bs n (omega (arith, h)))

pub split-append : (xs ys : List ℕ) → split (length xs) (xs ++ ys) ≡ some (xs, ys)
unfolding split
split-append xs ys = ground (arith, length-append xs ys, take-append xs ys, drop-append xs ys)

pub split-le_bytes :
    (n v : ℕ) (ys : List ℕ) → split n (le_bytes n v ++ ys) ≡ some (le_bytes n v, ys)
split-le_bytes n v ys =
    ap (λ k. split k (le_bytes n v ++ ys)) (sym (length-le_bytes n v))
    ∙ split-append (le_bytes n v) ys
