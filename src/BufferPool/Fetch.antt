-- ===== src/BufferPool/Fetch.antt =====
-- `fetch_page`: what a caller gets, and what it leaves as it was.
use advance_db.Prelude.{
  ℕ, zero, suc, ◌+◌, ◌<◌, ◌≡◌, refl, subst, Bool, true, false, Option, none, some, List, [], ◌∷◌,
  ◌==◌, inl, inr, arith, Option-cases, Bool-cases,
}
use advance_db.BufferPool.Disk.{DiskManager, disk_pages}
use advance_db.BufferPool.Pool.{
  invalid_page_id, Frame, Pool, mark_frame_used, set_frame, free_frame, pop_unpinned, free_or_back,
  find_or_evict_frame, evicted, release, evicted, evict_frame, pin, install, emptied, claim,
  take_frame, load, fetch_page,
}
use advance_db.BufferPool.Coherence.{
  content, IsCoherent, Keeps, Keeps-refl, Keeps-trans, Keeps-lru, evict_frame-Keeps, install-Keeps,
  CanPin, pin-Keeps,
}

some_eq : (f g : ℕ) → some f ≡ some g → f ≡ g
some_eq f g e = cc

module _ (dm : DiskManager) where
  open dm use {read_page, write_page}

  pop_unpinned-unpinned :
      (s : Pool dm) (l : List ℕ) (f : ℕ)
      → (pop_unpinned dm s l).0 ≡ some f
      → (s.frames f).pin_count ≡ 0
  unfolding pop_unpinned
  pop_unpinned-unpinned s [] f e = cc
  pop_unpinned-unpinned s (g ∷ l) f e = ground (arith, pop_unpinned-unpinned s l f)

  free_frame-free :
      (s : Pool dm) (n g f : ℕ)
      → free_frame dm s n g ≡ some f
      → (s.frames f).page_id ≡ invalid_page_id
  unfolding free_frame
  free_frame-free s zero g f e = cc
  free_frame-free s (suc n) g f e = ground (arith, free_frame-free s n (g + 1) f)

  -- `r` is a result of a step from `s`, and the frame in it satisfies `P` there.
  abbrev pub Finds : Pool dm → (Frame → Type 0) → Option ℕ × Pool dm → Type 0
  Finds s P r = Keeps dm s r.1 × ((f : ℕ) → r.0 ≡ some f → P (r.1.frames f))

  abbrev pub IsFree : Frame → Type 0
  IsFree x = x.page_id ≡ invalid_page_id

  abbrev IsUnpinned : Frame → Type 0
  IsUnpinned x = x.pin_count ≡ 0

  free_or_back-Finds :
      (s : Pool dm) (o : Option ℕ)
      → IsCoherent dm s
      → ((f : ℕ) → o ≡ some f → IsFree (s.frames f))
      → Finds s IsUnpinned (free_or_back dm s o)
  unfolding free_or_back
  free_or_back-Finds s none c h = (Keeps-lru dm s _ c, λ f e. pop_unpinned-unpinned s s.lru f e)
  free_or_back-Finds s (some g) c h = (Keeps-refl dm s c, λ f e. c.free_unpinned f (h f e))

  -- The frame that the pool gives up is not pinned.
  pub find_or_evict-Finds :
      (s : Pool dm) → IsCoherent dm s → Finds s IsUnpinned (find_or_evict_frame dm s)
  unfolding find_or_evict_frame
  find_or_evict-Finds s c = free_or_back-Finds s _ c (λ f e. free_frame-free s s.pool_size 0 f e)

  emptied-Finds :
      (s : Pool dm) (f : ℕ) (r : Bool × Pool dm)
      → Keeps dm s r.1
      → (r.0 ≡ true → IsFree (r.1.frames f))
      → Finds s IsFree (emptied dm f r)
  unfolding emptied
  emptied-Finds s f (true, t) k h =
      (k, λ g e. subst (λ i. IsFree (t.frames i)) (some_eq f g e) (h refl))
  emptied-Finds s f (false, t) k h = (k, λ g e. cc)

  claim-Finds :
      (s : Pool dm) (r : Option ℕ × Pool dm) → Finds s IsUnpinned r → Finds s IsFree (claim dm r)
  unfolding claim
  claim-Finds s (none, t) h = (h.0, λ g e. cc)
  claim-Finds s (some f, t) h =
      let evicted = evict_frame-Keeps dm t f h.0.coherent (h.1 f refl) in
      elim (Bool-cases ((t.frames f).page_id == invalid_page_id)) [
        | inl gone ↦
            rw gone (h.0, λ g e. subst (λ i. IsFree (t.frames i)) (some_eq f g e) (ground arith))
        | inr used ↦
            rw used (
              emptied-Finds s f (evict_frame dm f t) (Keeps-trans dm s t _ h.0 evicted.0) evicted.1)
      ]

  pub take_frame-Finds : (s : Pool dm) → IsCoherent dm s → Finds s IsFree (take_frame dm s)
  unfolding take_frame
  take_frame-Finds s c = claim-Finds s _ (find_or_evict-Finds s c)

  -- No page enters the pool.
  abbrev pub Shrinks : Pool dm → Pool dm → Type 0
  Shrinks s t = (id : ℕ) → s.page_table id ≡ none → t.page_table id ≡ none

  free_or_back-Shrinks : (s : Pool dm) (o : Option ℕ) → Shrinks s (free_or_back dm s o).1
  unfolding free_or_back
  free_or_back-Shrinks s none id h = h
  free_or_back-Shrinks s (some f) id h = h

  evicted-Shrinks : (s : Pool dm) (f : ℕ) (r : Bool × dm.Disk) → Shrinks s (evicted dm f s r).1
  unfolding evicted release
  evicted-Shrinks s f (true, d) id h = ground arith
  evicted-Shrinks s f (false, d) id h = h

  evict_frame-Shrinks : (s : Pool dm) (f : ℕ) → Shrinks s (evict_frame dm f s).1
  unfolding evict_frame release
  evict_frame-Shrinks s f id h =
      let x = s.frames f in
      ground (arith, evicted-Shrinks s f (write_page s.disk x.page_id x.page) id h)

  emptied-Shrinks :
      (s : Pool dm) (f : ℕ) (r : Bool × Pool dm) → Shrinks s r.1 → Shrinks s (emptied dm f r).1
  unfolding emptied
  emptied-Shrinks s f (true, t) k = k
  emptied-Shrinks s f (false, t) k = k

  claim-Shrinks : (s : Pool dm) (r : Option ℕ × Pool dm) → Shrinks s r.1 → Shrinks s (claim dm r).1
  unfolding claim
  claim-Shrinks s (none, t) h = h
  claim-Shrinks s (some f, t) h = elim (Bool-cases ((t.frames f).page_id == invalid_page_id)) [
    | inl gone ↦ rw gone h
    | inr used ↦
        rw used
          (emptied-Shrinks s f (evict_frame dm f t) (λ id e. evict_frame-Shrinks t f id (h id e)))
  ]

  pub take_frame-Shrinks : (s : Pool dm) → Shrinks s (take_frame dm s).1
  unfolding take_frame find_or_evict_frame
  take_frame-Shrinks s = claim-Shrinks s _ (free_or_back-Shrinks s _)

  load-Keeps :
      (s : Pool dm) (id : ℕ) (r : Option ℕ × Pool dm)
      → id < disk_pages
      → Finds s IsFree r
      → r.1.page_table id ≡ none
      → Keeps dm s (load dm id r).1
  unfolding load
  load-Keeps s id (none, t) h k e = k.0
  load-Keeps s id (some f, t) h k e = elim (Option-cases (read_page t.disk id)) [
    | inl failed ↦ rw (failed, load) k.0
    | inr (p, got) ↦
        rw (got, load)
          (Keeps-trans dm s t _ k.0
            (install-Keeps dm t id f false p k.0.coherent h e (k.1 f refl) got))
  ]

  -- Fetching a page below the disk's 2^21 pages into a coherent pool, from the cache or from
  -- the disk, with or without an eviction and whatever fails on the way, keeps the pool
  -- coherent, changes no page's content and takes no frame from a pinned page, as long as no
  -- pin count is at its 32-bit bound.
  pub fetch_page-Keeps :
      (s : Pool dm) (id : ℕ)
      → IsCoherent dm s
      → id < disk_pages
      → ((f : ℕ) → CanPin dm s f)
      → Keeps dm s (fetch_page dm id s).1
  unfolding fetch_page
  fetch_page-Keeps s id c h below = elim (Option-cases (s.page_table id)) [
    | inr (f, e) ↦ rw (e, fetch_page) (pin-Keeps dm s id f c e (below f))
    | inl e ↦
        rw (e, fetch_page) (load-Keeps s id _ h (take_frame-Finds s c) (take_frame-Shrinks s id e))
  ]

  -- The frame that `fetch_page` hands out.
  abbrev pub Holds : ℕ → Pool dm → ℕ → Pool dm → Type 0
  Holds id s f t =
      (t.page_table id ≡ some f)
      × (0 < (t.frames f).pin_count)
      × (content dm s id ≡ some (t.frames f).page)

  load-hands :
      (id f : ℕ) (r : Option ℕ × Pool dm)
      → (load dm id r).0 ≡ some f
      → ((load dm id r).1.page_table id ≡ some f) × (0 < ((load dm id r).1.frames f).pin_count)
  unfolding load install mark_frame_used
  load-hands id f (none, t) e = cc
  load-hands id f (some g, t) e = ground arith

  fetch_page-hands :
      (s : Pool dm) (id f : ℕ)
      → IsCoherent dm s
      → ((g : ℕ) → CanPin dm s g)
      → (fetch_page dm id s).0 ≡ some f
      → ((fetch_page dm id s).1.page_table id ≡ some f)
        × (0 < ((fetch_page dm id s).1.frames f).pin_count)
  unfolding fetch_page pin mark_frame_used set_frame
  fetch_page-hands s id f c below e =
      ground (arith, load-hands id f (take_frame dm s), below f, c.in_frame id f)

  -- When `fetch_page` of a page below the disk's 2^21 pages hands out a frame of a coherent
  -- pool, the page is pinned there, the page table names the frame, and the frame holds what
  -- the page id read as before the call, as long as no pin count is at its 32-bit bound.
  pub fetch_page-Holds :
      (s : Pool dm) (id f : ℕ)
      → IsCoherent dm s
      → id < disk_pages
      → ((g : ℕ) → CanPin dm s g)
      → (fetch_page dm id s).0 ≡ some f
      → Holds id s f (fetch_page dm id s).1
  fetch_page-Holds s id f c h below e =
      let (there, pinned) = fetch_page-hands s id f c below e in
      let same = (fetch_page-Keeps s id c h below).same id h in
      (there, pinned, ground (arith, there, same))
