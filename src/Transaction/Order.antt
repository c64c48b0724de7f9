-- ===== src/Transaction/Order.antt =====
-- What has been enqueued, in order, and when a manager is sound.
use advance_db.Prelude.{
  ℕ, ◌<◌, ◌≡◌, refl, Bool, true, false, ◌||◌, Option, List, [], ◌∷◌, ◌++◌, ◌==◌, arith, map, ap,
  ap₂, Bool-cases, inl, inr,
}
use advance_db.Transaction.Manager.{
  Worker, idle, stopped, working, Caller, absent, loaded, numbered, waiting, returned, Manager,
  new_manager,
}

abbrev pub elem : ℕ → List ℕ → Bool
elem n [] = false
elem n (x ∷ xs) = n == x || elem n xs

abbrev pub IsDistinct : List ℕ → Type 0
IsDistinct [] = Unit
IsDistinct (x ∷ xs) = (elem x xs ≡ false) × IsDistinct xs

abbrev pub last : ℕ → List ℕ → ℕ
last d [] = d
last d (x ∷ xs) = last x xs

abbrev pub AllAbove : ℕ → List ℕ → Type 0
AllAbove d [] = Unit
AllAbove d (x ∷ xs) = (d < x) × AllAbove d xs

abbrev pub IsAscending : List ℕ → Type 0
IsAscending [] = Unit
IsAscending (x ∷ xs) = AllAbove x xs × IsAscending xs

abbrev pub busy : Worker → List ℕ
busy idle = []
busy stopped = []
busy (working n) = n ∷ []

abbrev pub is_working : Worker → Bool
is_working idle = false
is_working stopped = false
is_working (working n) = true

pub elem-snoc : (i n : ℕ) (xs : List ℕ) → elem i (xs ++ n ∷ []) ≡ (i == n || elem i xs)
elem-snoc i n [] = refl
elem-snoc i n (x ∷ xs) = ground (arith, elem-snoc i n xs)

pub IsDistinct-snoc :
    (n : ℕ) (xs : List ℕ) → IsDistinct xs → elem n xs ≡ false → IsDistinct (xs ++ n ∷ [])
IsDistinct-snoc n [] d e = (refl, tt)
IsDistinct-snoc n (x ∷ xs) d e =
    (ground (arith, elem-snoc x n xs, d.0, e), IsDistinct-snoc n xs d.1 (ground (arith, e)))

pub last-snoc : (d n : ℕ) (xs : List ℕ) → last d (xs ++ n ∷ []) ≡ n
last-snoc d n [] = refl
last-snoc d n (x ∷ xs) = last-snoc x n xs

AllAbove-elem : (d n : ℕ) (xs : List ℕ) → AllAbove d xs → elem n xs ≡ true → d < n
AllAbove-elem d n [] a e = absurd (ground (arith, e))
AllAbove-elem d n (x ∷ xs) a e = ground (arith, a.0, AllAbove-elem d n xs a.1, e)

-- In an ascending list, what stands behind `xs` is above the last of `xs`.
pub last-lt :
    (d n : ℕ) (xs ys : List ℕ) → IsAscending (d ∷ xs ++ ys) → elem n ys ≡ true → last d xs < n
last-lt d n [] ys a e = AllAbove-elem d n ys a.0 e
last-lt d n (x ∷ xs) ys a e = last-lt x n xs ys a.1 e

pub elem-append : (n : ℕ) (xs ys : List ℕ) → elem n (xs ++ ys) ≡ (elem n xs || elem n ys)
elem-append n [] ys = refl
elem-append n (x ∷ xs) ys = ground (arith, elem-append n xs ys)

pub elem-map : (f : ℕ → ℕ) (n : ℕ) (xs : List ℕ) → elem n xs ≡ true → elem (f n) (map f xs) ≡ true
elem-map f n [] e = cc
elem-map f n (x ∷ xs) e = elim (Bool-cases (n == x)) [
  | inl here ↦ let same : n ≡ x = ground arith in rw same (ground arith)
  | inr past ↦ ground (arith, elem-map f n xs (ground (arith, e, past)))
]

-- A change of the function at a place that the list does not have.
pub map-other :
    (f g : ℕ → ℕ) (c : ℕ) (xs : List ℕ)
    → ((i : ℕ) → (i == c) ≡ false → g i ≡ f i)
    → elem c xs ≡ false
    → map g xs ≡ map f xs
map-other f g c [] same e = refl
map-other f g c (x ∷ xs) same e =
    ap₂ (λ y ys. y ∷ ys) (same x (ground (arith, e))) (map-other f g c xs same (ground (arith, e)))

pub map-append : (f : ℕ → ℕ) (xs ys : List ℕ) → map f (xs ++ ys) ≡ map f xs ++ map f ys
map-append f [] ys = refl
map-append f (x ∷ xs) ys = ap (λ zs. f x ∷ zs) (map-append f xs ys)

module _ (Exception : Type 0) (work : ℕ → Option Exception) where
  -- Everything that was enqueued: run, being run, and still in the queue.
  abbrev pub history : Manager Exception work → List ℕ
  history m = m.ran ++ (busy m.worker ++ m.queue)

  abbrev pub is_entered : Caller Exception work → Bool
  is_entered absent = false
  is_entered loaded = false
  is_entered numbered = false
  is_entered waiting = true
  is_entered (returned e) = true

  -- The history has each call that has enqueued its transaction once, and no other; the number of
  -- the last one that ran is the completed one; the worker's flag tells whether it works.
  pub record IsSound (m : Manager Exception work) : Type 0 where
    pub entered : (c : ℕ) → elem c (history m) ≡ is_entered (m.caller c)
    pub distinct : IsDistinct (history m)
    pub completed : m.completed_txn_id ≡ last 0 (map m.number m.ran)
    pub busy_flag : m.running ≡ is_working m.worker

  pub new_manager-IsSound : IsSound (new_manager Exception work)
  unfolding new_manager
  new_manager-IsSound = record {
    entered = λ c. refl;
    distinct = tt;
    completed = refl;
    busy_flag = refl;
  }
