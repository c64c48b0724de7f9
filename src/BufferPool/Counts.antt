-- ===== src/BufferPool/Counts.antt =====
-- What fetching a page does to the pin counts, and when it cannot fail.
use advance_db.Prelude.{
  ℕ, zero, suc, ◌+◌, ◌<◌, ◌≤◌, ◌≡◌, refl, Bool, true, false, Option, none, some, List, [], ◌∷◌,
  ◌==◌, ◌⊎◌, inl, inr, arith, Option-cases, Bool-cases, if◌then◌else◌,
}
use advance_db.Page.PageHeader.{Page}
use advance_db.BufferPool.Disk.{DiskManager, disk_pages}
use advance_db.BufferPool.Pool.{
  invalid_page_id, mem, Pool, mark_frame_used, set_frame, free_frame, pop_unpinned, free_or_back,
  find_or_evict_frame, evicted, release, evict_frame, pin, install, emptied, claim, take_frame,
  load, fetch_page,
}
use advance_db.BufferPool.Coherence.{CanPin}

abbrev pub Found {ℓ} : {A : Type ℓ} → Option A → Type ℓ
Found {A = A} o = (a : A) × (o ≡ some a)

-- The pin that the caller gets on the frame it is handed.
abbrev pub held : Option ℕ → ℕ → ℕ
held none g = 0
held (some f) g = if g == f then 1 else 0

module _ (dm : DiskManager) where
  open dm use {Disk, read_page, write_page}

  -- No frame is pinned more often.
  abbrev pub Lowers : Pool dm → Pool dm → Type 0
  Lowers s t = (f : ℕ) → (t.frames f).pin_count ≤ (s.frames f).pin_count

  free_or_back-Lowers : (s : Pool dm) (o : Option ℕ) → Lowers s (free_or_back dm s o).1
  unfolding free_or_back
  free_or_back-Lowers s none g = omega arith
  free_or_back-Lowers s (some f) g = omega arith

  release-Lowers : (s : Pool dm) (f : ℕ) (d : Disk) → Lowers s (release dm f d s)
  unfolding release
  release-Lowers s f d g = ground arith

  evicted-Lowers : (s : Pool dm) (f : ℕ) (r : Bool × Disk) → Lowers s (evicted dm f s r).1
  unfolding evicted
  evicted-Lowers s f (true, d) g = release-Lowers s f d g
  evicted-Lowers s f (false, d) g = omega arith

  evict_frame-Lowers : (s : Pool dm) (f : ℕ) → Lowers s (evict_frame dm f s).1
  unfolding evict_frame
  evict_frame-Lowers s f g =
      let x = s.frames f in
      ground (
        arith,
        evicted-Lowers s f (write_page s.disk x.page_id x.page) g,
        release-Lowers s f s.disk g,
      )

  emptied-Lowers :
      (s : Pool dm) (f : ℕ) (r : Bool × Pool dm) → Lowers s r.1 → Lowers s (emptied dm f r).1
  unfolding emptied
  emptied-Lowers s f (true, t) k = k
  emptied-Lowers s f (false, t) k = k

  claim-Lowers : (s : Pool dm) (r : Option ℕ × Pool dm) → Lowers s r.1 → Lowers s (claim dm r).1
  unfolding claim
  claim-Lowers s (none, t) h = h
  claim-Lowers s (some f, t) h = elim (Bool-cases ((t.frames f).page_id == invalid_page_id)) [
    | inl gone ↦ rw gone h
    | inr used ↦ rw used (
        emptied-Lowers s f (evict_frame dm f t) (λ g. omega (arith, h g, evict_frame-Lowers t f g)))
  ]

  take_frame-Lowers : (s : Pool dm) → Lowers s (take_frame dm s).1
  unfolding take_frame find_or_evict_frame
  take_frame-Lowers s = claim-Lowers s _ (free_or_back-Lowers s _)

  -- No pin beyond the one of the frame handed out.
  abbrev pub Counts : Pool dm → Option ℕ × Pool dm → Type 0
  Counts s r = (g : ℕ) → (r.1.frames g).pin_count ≤ (s.frames g).pin_count + held r.0 g

  load-Counts :
      (s : Pool dm) (id : ℕ) (r : Option ℕ × Pool dm) → Lowers s r.1 → Counts s (load dm id r)
  unfolding load install mark_frame_used
  load-Counts s id (none, t) h g = omega (arith, h g)
  load-Counts s id (some f, t) h g = elim (Option-cases (read_page t.disk id)) [
    | inl failed ↦ rw (failed, load) (omega (arith, h g))
    | inr (p, got) ↦ rw (got, load) (ground (arith, h g))
  ]

  pub fetch_page-Counts :
      (s : Pool dm) (id : ℕ) → ((f : ℕ) → CanPin dm s f) → Counts s (fetch_page dm id s)
  unfolding fetch_page pin mark_frame_used set_frame
  fetch_page-Counts s id below g = elim (Option-cases (s.page_table id)) [
    | inr (f, e) ↦ rw (e, fetch_page) (ground (arith, below f))
    | inl e ↦ rw (e, fetch_page) (load-Counts s id _ (take_frame-Lowers s) g)
  ]

  -- A disk whose operations do not throw.
  pub record Faultless : Type 0 where
    pub reads : (d : Disk) (i : ℕ) → i < disk_pages → Found (read_page d i)
    pub writes : (d : Disk) (i : ℕ) (p : Page) → i < disk_pages → (write_page d i p).0 ≡ true

  -- A frame that the pool can give up: a free one, or an unpinned one in the LRU list.
  abbrev pub IsSpare : Pool dm → ℕ → Type 0
  IsSpare s f =
      ((f < s.pool_size) × ((s.frames f).page_id ≡ invalid_page_id))
      ⊎ (((s.frames f).pin_count ≡ 0) × (mem f s.lru ≡ true))

  abbrev pub HasSpare : Pool dm → Type 0
  HasSpare s = (f : ℕ) × IsSpare s f

  free_frame-Found :
      (s : Pool dm) (n g f : ℕ)
      → g ≤ f
      → f < g + n
      → (s.frames f).page_id ≡ invalid_page_id
      → Found (free_frame dm s n g)
  unfolding free_frame
  free_frame-Found s zero g f lo hi e = absurd (omega arith)
  free_frame-Found s (suc n) g f lo hi e =
      elim (Bool-cases ((s.frames g).page_id == invalid_page_id)) [
        | inl here ↦ rw here (g, refl)
        | inr other ↦ rw other (free_frame-Found s n (g + 1) f (ground arith) (omega arith) e)
      ]

  pop_unpinned-Found :
      (s : Pool dm) (l : List ℕ) (f : ℕ)
      → mem f l ≡ true
      → (s.frames f).pin_count ≡ 0
      → Found (pop_unpinned dm s l).0
  unfolding pop_unpinned
  pop_unpinned-Found s [] f e h = cc
  pop_unpinned-Found s (g ∷ l) f e h = elim (Bool-cases ((s.frames g).pin_count == 0)) [
    | inl idle ↦ rw idle (g, refl)
    | inr busy ↦ rw busy (pop_unpinned-Found s l f (ground arith) h)
  ]

  pub find_or_evict_frame-Found : (s : Pool dm) → HasSpare s → Found (find_or_evict_frame dm s).0
  unfolding find_or_evict_frame free_or_back
  find_or_evict_frame-Found s (f, spare) = elim (Option-cases (free_frame dm s s.pool_size 0)) [
    | inr (g, e) ↦ rw (e, free_or_back) (g, refl)
    | inl e ↦
        rw (e, free_or_back)
          (elim spare [
            | inl (inside, free) ↦
                let (g, got) =
                  free_frame-Found s s.pool_size 0 f (omega arith) (omega arith) free in
                cc
            | inr (idle, listed) ↦ pop_unpinned-Found s s.lru f listed idle
          ])
  ]
