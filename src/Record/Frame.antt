-- ===== src/Record/Frame.antt =====
-- Records that an operation does not touch keep their meaning; what `write_record` leaves behind.
use advance_db.Prelude.{
  ℕ, zero, suc, ◌+◌, ◌≤◌, ◌≡◌, refl, ap, ap₂, List, [], ◌∷◌, map, arith, inl, inr, insert_at,
  erase_at, get_elem?, some, subst,
}
use advance_db.Bytes.{Bytes}
use advance_db.Bytes.Blocks.{Agree, read_u16-Agree, slice-Agree}
use advance_db.Page.PageHeader.{Page, free_start}
use advance_db.Record.Cell.{record_header_size, key_size, value_size}
use advance_db.Record.View.{entry, size_at, IsRecord, AllRecords, Apart, ApartFrom, AllApart}

pub Agree-shrink :
    {lo hi : ℕ} {m m' : Bytes} (lo' hi' : ℕ)
    → Agree lo hi m m'
    → lo ≤ lo'
    → hi' ≤ hi
    → Agree lo' hi' m m'
Agree-shrink lo' hi' a l h = record { at = λ i l' h'. a.at i (omega arith) (omega arith) }

-- The record at `o` reads the same in both pages.
pub record SameRecord (p p' : Page) (o : ℕ) : Type 0 where
  pub key_size_eq : key_size p' o ≡ key_size p o
  pub value_size_eq : value_size p' o ≡ value_size p o
  pub entry_eq : entry p' o ≡ entry p o

pub same_record :
    {p p' : Page} {lo hi : ℕ} (o : ℕ)
    → Agree lo hi p' p
    → lo ≤ o + 1
    → o + size_at p o ≤ hi
    → SameRecord p p' o
same_record {p} {p'} o a l h =
    let k : key_size p' o ≡ key_size p o = read_u16-Agree (o + 1) a (omega arith) (omega arith) in
    let v : value_size p' o ≡ value_size p o =
      read_u16-Agree (o + 3) a (omega arith) (omega arith) in
    record {
      key_size_eq = k;
      value_size_eq = v;
      entry_eq =
          rw (k, v)
            (ap₂ (λ (x y : List ℕ). (x, y))
              (slice-Agree (o + record_header_size) (key_size p o) a (omega arith) (omega arith))
              (slice-Agree (o + record_header_size + key_size p o) (value_size p o) a (omega arith)
                (omega arith)));
    }

abbrev pub SameRecords : Page → Page → List ℕ → Type 0
SameRecords p p' [] = Unit
SameRecords p p' (w ∷ ws) = SameRecord p p' w × SameRecords p p' ws

-- All records below `free_start` survive where the bytes up to it do.
pub kept_records :
    {p p' : Page} (ws : List ℕ)
    → Agree 24 (free_start p) p' p
    → AllRecords p ws
    → SameRecords p p' ws
kept_records [] a r = tt
kept_records (w ∷ ws) a r = (
  same_record w a (omega (arith, r.0.behind_header)) (omega (arith, r.0.fits)),
  kept_records ws a r.1,
)

module _ (p p' : Page) where
  pub map-SameRecords : (ws : List ℕ) → SameRecords p p' ws → map (entry p') ws ≡ map (entry p) ws
  map-SameRecords [] s = refl
  map-SameRecords (w ∷ ws) s = ap₂ (λ x xs. x ∷ xs) s.0.entry_eq (map-SameRecords ws s.1)

  pub AllRecords-SameRecords :
      (ws : List ℕ)
      → SameRecords p p' ws
      → free_start p ≤ free_start p'
      → AllRecords p ws
      → AllRecords p' ws
  AllRecords-SameRecords [] s h r = tt
  AllRecords-SameRecords (w ∷ ws) s h r = (
    record {
      behind_header = r.0.behind_header;
      keyed = rw s.0.key_size_eq r.0.keyed;
      fits = rw (s.0.key_size_eq, s.0.value_size_eq) (omega (arith, r.0.fits));
    },
    AllRecords-SameRecords ws s.1 h r.1,
  )

  ApartFrom-SameRecords :
      (o : ℕ) (ws : List ℕ)
      → SameRecord p p' o
      → SameRecords p p' ws
      → ApartFrom p o ws
      → ApartFrom p' o ws
  ApartFrom-SameRecords o [] s t a = tt
  ApartFrom-SameRecords o (w ∷ ws) s t a = (
    rw (s.key_size_eq, s.value_size_eq, t.0.key_size_eq, t.0.value_size_eq) a.0,
    ApartFrom-SameRecords o ws s t.1 a.1,
  )

  pub AllApart-SameRecords : (ws : List ℕ) → SameRecords p p' ws → AllApart p ws → AllApart p' ws
  AllApart-SameRecords [] s a = tt
  AllApart-SameRecords (w ∷ ws) s a =
      (ApartFrom-SameRecords w ws s.0 s.1 a.0, AllApart-SameRecords ws s.1 a.1)

Apart-symm : (p : Page) (a b : ℕ) → Apart p a b → Apart p b a
Apart-symm p a b (inl h) = inr h
Apart-symm p a b (inr h) = inl h

ApartFrom-insert_at :
    (p : Page) (i o y : ℕ) (ws : List ℕ)
    → Apart p y o
    → ApartFrom p y ws
    → ApartFrom p y (insert_at i o ws)
ApartFrom-insert_at p zero o y ws h a = (h, a)
ApartFrom-insert_at p (suc i) o y [] h a = (h, a)
ApartFrom-insert_at p (suc i) o y (w ∷ ws) h a = (a.0, ApartFrom-insert_at p i o y ws h a.1)

pub AllApart-insert_at :
    (p : Page) (i o : ℕ) (ws : List ℕ)
    → ApartFrom p o ws
    → AllApart p ws
    → AllApart p (insert_at i o ws)
AllApart-insert_at p zero o ws h a = (h, a)
AllApart-insert_at p (suc i) o [] h a = (h, a)
AllApart-insert_at p (suc i) o (w ∷ ws) h a =
    (ApartFrom-insert_at p i o w ws (Apart-symm p o w h.0) a.0, AllApart-insert_at p i o ws h.1 a.1)

ApartFrom-erase_at :
    (p : Page) (i y : ℕ) (ws : List ℕ) → ApartFrom p y ws → ApartFrom p y (erase_at i ws)
ApartFrom-erase_at p zero y [] a = a
ApartFrom-erase_at p (suc i) y [] a = a
ApartFrom-erase_at p zero y (w ∷ ws) a = a.1
ApartFrom-erase_at p (suc i) y (w ∷ ws) a = (a.0, ApartFrom-erase_at p i y ws a.1)

pub AllApart-erase_at :
    (p : Page) (i : ℕ) (ws : List ℕ) → AllApart p ws → AllApart p (erase_at i ws)
AllApart-erase_at p zero [] a = a
AllApart-erase_at p (suc i) [] a = a
AllApart-erase_at p zero (w ∷ ws) a = a.1
AllApart-erase_at p (suc i) (w ∷ ws) a =
    (ApartFrom-erase_at p i w ws a.0, AllApart-erase_at p i ws a.1)

ApartFrom-get :
    (p : Page) (y : ℕ) (ws : List ℕ) (i o : ℕ)
    → ApartFrom p y ws
    → get_elem? ws i ≡ some o
    → Apart p y o
ApartFrom-get p y [] i o a e = cc
ApartFrom-get p y (w ∷ ws) zero o a e = ground (arith, a.0)
ApartFrom-get p y (w ∷ ws) (suc i) o a e = ApartFrom-get p y ws i o a.1 e

-- The record in slot `i` is apart from those in the other slots.
pub ApartFrom-others :
    (p : Page) (ws : List ℕ) (i o : ℕ)
    → AllApart p ws
    → get_elem? ws i ≡ some o
    → ApartFrom p o (erase_at i ws)
ApartFrom-others p [] i o a e = cc
ApartFrom-others p (w ∷ ws) zero o a e =
    let same : w ≡ o = ground arith in subst (λ x. ApartFrom p x ws) same a.0
ApartFrom-others p (w ∷ ws) (suc i) o a e =
    (Apart-symm p w o (ApartFrom-get p w ws i o a.0 e), ApartFrom-others p ws i o a.1 e)

pub AllRecords-insert_at :
    (p : Page) (i o : ℕ) (ws : List ℕ)
    → IsRecord p o
    → AllRecords p ws
    → AllRecords p (insert_at i o ws)
AllRecords-insert_at p zero o ws r a = (r, a)
AllRecords-insert_at p (suc i) o [] r a = (r, a)
AllRecords-insert_at p (suc i) o (w ∷ ws) r a = (a.0, AllRecords-insert_at p i o ws r a.1)

pub AllRecords-erase_at :
    (p : Page) (i : ℕ) (ws : List ℕ) → AllRecords p ws → AllRecords p (erase_at i ws)
AllRecords-erase_at p zero [] a = a
AllRecords-erase_at p (suc i) [] a = a
AllRecords-erase_at p zero (w ∷ ws) a = a.1
AllRecords-erase_at p (suc i) (w ∷ ws) a = (a.0, AllRecords-erase_at p i ws a.1)

module _ {ℓ κ} {A : Type ℓ} {B : Type κ} (f : A → B) where
  pub map-insert_at :
      (i : ℕ) (x : A) (xs : List A) → map f (insert_at i x xs) ≡ insert_at i (f x) (map f xs)
  map-insert_at zero x xs = refl
  map-insert_at (suc i) x [] = refl
  map-insert_at (suc i) x (y ∷ xs) = ap (λ r. f y ∷ r) (map-insert_at i x xs)

  pub map-erase_at : (i : ℕ) (xs : List A) → map f (erase_at i xs) ≡ erase_at i (map f xs)
  map-erase_at zero [] = refl
  map-erase_at (suc i) [] = refl
  map-erase_at zero (y ∷ xs) = refl
  map-erase_at (suc i) (y ∷ xs) = ap (λ r. f y ∷ r) (map-erase_at i xs)
