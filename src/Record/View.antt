-- ===== src/Record/View.antt =====
-- What a page means: the entries that its slots point at, and when the page is well formed.
use advance_db.Prelude.{
  ℕ, zero, suc, ◌+◌, ◌*◌, ◌<◌, ◌≤◌, ◌≡◌, refl, ap, ◌∙◌, none, some, List, [], ◌∷◌, map, ◌⊎◌, arith,
  length, get_elem?, if◌then◌else◌, ◌==◌,
}
use advance_db.Bytes.{read_u16, slice, read_u16-lt}
use advance_db.Bytes.Blocks.{read_words}
use advance_db.Page.PageHeader.{Page, header_size, cell_count, free_start, free_end}
use advance_db.Page.SlotHelpers.{slot_ptr}
use advance_db.Page.Directory.{IsFramed, slots, length-slots}
use advance_db.Record.Cell.{
  record_header_size, key_size, value_size, slot_offset, slot_key, slot_value,
}
use advance_db.Record.Sorted.{Entry, keys, IsSorted}

abbrev pub key_at : Page → ℕ → List ℕ
key_at p off = slice p (off + record_header_size) (key_size p off)

abbrev pub value_at : Page → ℕ → List ℕ
value_at p off = slice p (off + record_header_size + key_size p off) (value_size p off)

abbrev pub entry : Page → ℕ → Entry
entry p off = (key_at p off, value_at p off)

-- The entries of the page, in slot order.
abbrev pub view : Page → List Entry
view p = map (entry p) (slots p)

-- A record with a key, between the header and `free_start`.
pub record IsRecord (p : Page) (off : ℕ) : Type 0 where
  pub behind_header : header_size ≤ off
  pub keyed : 0 < key_size p off
  pub fits : off + record_header_size + key_size p off + value_size p off ≤ free_start p

abbrev pub AllRecords : Page → List ℕ → Type 0
AllRecords p [] = Unit
AllRecords p (o ∷ os) = IsRecord p o × AllRecords p os

abbrev pub size_at : Page → ℕ → ℕ
size_at p off = record_header_size + key_size p off + value_size p off

-- The two records share no byte.
abbrev pub Apart : Page → ℕ → ℕ → Type 0
Apart p a b = (a + size_at p a ≤ b) ⊎ (b + size_at p b ≤ a)

abbrev pub ApartFrom : Page → ℕ → List ℕ → Type 0
ApartFrom p a [] = Unit
ApartFrom p a (o ∷ os) = Apart p a o × ApartFrom p a os

abbrev pub AllApart : Page → List ℕ → Type 0
AllApart p [] = Unit
AllApart p (o ∷ os) = ApartFrom p o os × AllApart p os

-- A well-formed page: header and directory in bounds, every slot at a record, no two records
-- overlapping, and the keys in strictly increasing order.
pub record IsPage (p : Page) : Type 0 where
  pub framed : IsFramed p
  pub placed : AllRecords p (slots p)
  pub apart : AllApart p (slots p)
  pub sorted : IsSorted (keys (view p))

pub get-read_words :
    (m : Page) (o n i : ℕ) → i < n → get_elem? (read_words m o n) i ≡ some (read_u16 m (o + i * 2))
unfolding read_words
get-read_words m o zero i h = absurd (omega arith)
get-read_words m o (suc n) zero h = ap (λ a. some (read_u16 m a)) (omega arith)
get-read_words m o (suc n) (suc i) h =
    get-read_words m (o + 2) n i (omega arith) ∙ ap (λ a. some (read_u16 m a)) (omega arith)

get-AllRecords :
    (p : Page) (ws : List ℕ) (i o : ℕ) → AllRecords p ws → get_elem? ws i ≡ some o → IsRecord p o
get-AllRecords p [] i o a e = cc
get-AllRecords p (w ∷ ws) zero o a e = ground (arith, a.0)
get-AllRecords p (w ∷ ws) (suc i) o a e = get-AllRecords p ws i o a.1 e

pub get-map {ℓ κ} :
    {A : Type ℓ} {B : Type κ} (f : A → B) (xs : List A) (i : ℕ) (x : A)
    → get_elem? xs i ≡ some x
    → get_elem? (map f xs) i ≡ some (f x)
get-map f [] i x e = cc
get-map f (y ∷ xs) zero x e = ground arith
get-map f (y ∷ xs) (suc i) x e = get-map f xs i x e

pub length-map {ℓ κ} :
    {A : Type ℓ} {B : Type κ} (f : A → B) (xs : List A) → length (map f xs) ≡ length xs
length-map f [] = refl
length-map f (x ∷ xs) = ap suc (length-map f xs)

-- The offset in slot `i`.
abbrev pub offset_at : Page → ℕ → ℕ
offset_at p i = read_u16 p (free_end p + i * 2)

module _ (p : Page) (f : IsFramed p) (a : AllRecords p (slots p)) (i : ℕ)
    (h : i < cell_count p) where
  pub get-slots : get_elem? (slots p) i ≡ some (offset_at p i)
  get-slots = get-read_words p (free_end p) (cell_count p) i h

  pub IsRecord-offset_at : IsRecord p (offset_at p i)
  IsRecord-offset_at = get-AllRecords p (slots p) i _ a get-slots

  pub slot_ptr-eq : slot_ptr p i ≡ some (free_end p + i * 2)
  unfolding slot_ptr
  slot_ptr-eq = ground arith

  slot_offset-eq : slot_offset p i ≡ some (offset_at p i)
  unfolding slot_offset
  slot_offset-eq =
      let r = IsRecord-offset_at in
      rw (slot_ptr-eq, slot_offset) (ground (arith, r.behind_header, r.fits, r.keyed))

  pub slot_key-eq : slot_key p i ≡ some (key_at p (offset_at p i))
  unfolding slot_key
  slot_key-eq =
      let r = IsRecord-offset_at in
      rw (slot_offset-eq, slot_key)
        (ground (arith, r.fits, r.keyed, read_u16-lt p 20, f.no_overlap))

  -- An empty value is reported as no value.
  pub slot_value-eq :
      slot_value p i
      ≡ (if value_size p (offset_at p i) == 0 then none else some (value_at p (offset_at p i)))
  unfolding slot_value
  slot_value-eq =
      let r = IsRecord-offset_at in
      rw (slot_offset-eq, slot_value) (ground (arith, r.fits, r.keyed, read_u16-lt p 20))

  pub get-view : get_elem? (view p) i ≡ some (entry p (offset_at p i))
  get-view = get-map (entry p) (slots p) i _ get-slots

  pub get-keys : get_elem? (keys (view p)) i ≡ some (key_at p (offset_at p i))
  get-keys = get-map (λ (e : Entry). e.0) (view p) i _ get-view

pub length-view : (p : Page) → length (view p) ≡ cell_count p
length-view p = length-map (entry p) (slots p) ∙ length-slots p
