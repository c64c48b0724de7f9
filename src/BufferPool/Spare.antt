-- ===== src/BufferPool/Spare.antt =====
-- A fetch succeeds over a disk that does not fail, as long as the pool has a frame to give up.
use advance_db.Prelude.{
  ℕ, ◌<◌, ◌≡◌, ◌≢◌, refl, Bool, true, false, Option, none, some, ◌==◌, inl, inr, arith,
  Option-cases, Bool-cases,
}
use advance_db.BufferPool.Disk.{DiskManager, disk_pages}
use advance_db.BufferPool.Pool.{
  invalid_page_id, Pool, evicted, evict_frame, emptied, claim, find_or_evict_frame, take_frame,
  load, install, pin, fetch_page,
}
use advance_db.BufferPool.Coherence.{IsCoherent}
use advance_db.BufferPool.Fetch.{find_or_evict-Finds}
use advance_db.BufferPool.Counts.{Found, Faultless, HasSpare, find_or_evict_frame-Found}

module _ (dm : DiskManager) (sound : Faultless dm) where
  open dm use {Disk, read_page, write_page}

  evicted-true : (s : Pool dm) (f : ℕ) (r : Bool × Disk) → r.0 ≡ true → (evicted dm f s r).0 ≡ true
  unfolding evicted
  evicted-true s f (true, d) h = refl
  evicted-true s f (false, d) h = h

  evict_frame-true :
      (s : Pool dm) (f : ℕ)
      → IsCoherent dm s
      → (s.frames f).page_id ≢ invalid_page_id
      → (evict_frame dm f s).0 ≡ true
  unfolding evict_frame
  evict_frame-true s f c used =
      let x = s.frames f in
      let small = c.in_range x.page_id f (c.in_table f used) in
      ground (
        arith,
        evicted-true s f (write_page s.disk x.page_id x.page)
            (sound.writes s.disk x.page_id x.page small),
      )

  emptied-Found : (f : ℕ) (r : Bool × Pool dm) → r.0 ≡ true → Found (emptied dm f r).0
  unfolding emptied
  emptied-Found f (true, s) h = (f, refl)
  emptied-Found f (false, s) h = cc

  claim-Found : (r : Option ℕ × Pool dm) → IsCoherent dm r.1 → Found r.0 → Found (claim dm r).0
  unfolding claim
  claim-Found (none, t) c (f, e) = cc
  claim-Found (some f, t) c found = elim (Bool-cases ((t.frames f).page_id == invalid_page_id)) [
    | inl gone ↦ rw gone (f, refl)
    | inr used ↦
        rw used (emptied-Found f (evict_frame dm f t) (evict_frame-true t f c (ground arith)))
  ]

  pub take_frame-Found : (s : Pool dm) → IsCoherent dm s → HasSpare dm s → Found (take_frame dm s).0
  unfolding take_frame
  take_frame-Found s c spare =
      claim-Found (find_or_evict_frame dm s) (find_or_evict-Finds dm s c).0.coherent
        (find_or_evict_frame-Found dm s spare)

  load-Found :
      (id : ℕ) (r : Option ℕ × Pool dm) → id < disk_pages → Found r.0 → Found (load dm id r).0
  unfolding load install
  load-Found id (none, t) h (f, e) = cc
  load-Found id (some f, t) h found =
      let (p, got) = sound.reads t.disk id h in rw (got, load) (f, refl)

  -- Over a disk whose operations do not throw, `fetch_page` of a page below the disk's 2^21 pages
  -- hands out a frame, whenever the page is cached or the coherent pool has a frame that is free or
  -- that is unpinned and in the LRU list.
  pub fetch_page-Found :
      (s : Pool dm) (id : ℕ)
      → IsCoherent dm s
      → HasSpare dm s
      → id < disk_pages
      → Found (fetch_page dm id s).0
  unfolding fetch_page pin
  fetch_page-Found s id c spare h = elim (Option-cases (s.page_table id)) [
    | inr (f, e) ↦ rw (e, fetch_page) (f, refl)
    | inl e ↦ rw (e, fetch_page) (load-Found id (take_frame dm s) h (take_frame-Found s c spare))
  ]
