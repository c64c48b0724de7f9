-- ===== src/BufferPool/Ready.antt =====
-- A pool that can serve one page after another: every visit succeeds and leaves it so.
use advance_db.Prelude.{
  ℕ, ◌<◌, ◌≡◌, refl, Bool, true, false, Option, none, some, List, [], ◌∷◌, ◌++◌, ◌==◌, inl, inr,
  arith, Option-cases, Bool-cases,
}
use advance_db.Page.PageHeader.{Page}
use advance_db.BufferPool.Disk.{DiskManager, disk_pages}
use advance_db.BufferPool.Pool.{
  mem, erase_first, Pool, fetch_page, unpin_page, unpin_frame, pin, install, load, mark_frame_used,
  set_frame, take_frame,
}
use advance_db.BufferPool.Coherence.{content, IsCoherent, CanPin}
use advance_db.BufferPool.Fetch.{fetch_page-Holds}
use advance_db.BufferPool.Counts.{Faultless, HasSpare, IsSpare}
use advance_db.BufferPool.Spare.{fetch_page-Found}
use advance_db.BufferPool.Visit.{set_page, visit, visited-some, visit-Writes}

mem-snoc : (f : ℕ) (l : List ℕ) → mem f (l ++ f ∷ []) ≡ true
mem-snoc f [] = ground arith
mem-snoc f (x ∷ l) = ground (arith, mem-snoc f l)

mem-append : (f g : ℕ) (l : List ℕ) → mem g l ≡ true → mem g (l ++ f ∷ []) ≡ true
mem-append f g [] h = cc
mem-append f g (x ∷ l) h = ground (arith, mem-append f g l)

mem-moved : (f g : ℕ) (l : List ℕ) → mem g l ≡ true → mem g (erase_first f l ++ f ∷ []) ≡ true
mem-moved f g [] h = cc
mem-moved f g (x ∷ l) h = elim (Bool-cases (x == f)) [
  | inr other ↦ rw other (ground (arith, mem-moved f g l))
  | inl here ↦ elim (Bool-cases (x == g)) [
    | inl this ↦ let same : g ≡ f = ground arith in rw (here, same) (mem-snoc f l)
    | inr past ↦ rw here (mem-append f g l (ground arith))
  ]
]

module _ (dm : DiskManager) where
  -- The last pin goes: the frame is in the LRU list.
  unpin_frame-IsSpare :
      (s : Pool dm) (f : ℕ) (dirty : Bool)
      → (s.frames f).pin_count ≡ 1
      → IsSpare dm (unpin_frame dm f dirty s).1 f
  unfolding unpin_frame
  unpin_frame-IsSpare s f dirty h = inr (ground (arith, h), ground (arith, h))

  load-pin :
      (id f : ℕ) (r : Option ℕ × Pool dm)
      → (load dm id r).0 ≡ some f
      → ((load dm id r).1.frames f).pin_count ≡ 1
  unfolding load install mark_frame_used
  load-pin id f (none, t) e = cc
  load-pin id f (some g, t) e = ground arith

  pinned-HasSpare :
      (s : Pool dm) (f : ℕ) (dirty : Bool) (p : Page)
      → CanPin dm s f
      → HasSpare dm s
      → HasSpare dm (unpin_frame dm f dirty (set_page dm f p (pin dm f s).1)).1
  unfolding set_page pin unpin_frame mark_frame_used set_frame
  pinned-HasSpare s f dirty p below (g, inl (inside, free)) = (g, inl (ground arith, ground arith))
  pinned-HasSpare s f dirty p below (g, inr (idle, listed)) = (
    g,
    inr (ground (arith, idle, below), ground (arith, idle, below, mem-moved f g s.lru listed)),
  )

  pin-frame : (s : Pool dm) (g f : ℕ) → (pin dm g s).0 ≡ some f → g ≡ f
  unfolding pin
  pin-frame s g f e = cc

  set_page-IsSpare :
      (s : Pool dm) (f : ℕ) (dirty : Bool) (p : Page)
      → (s.frames f).pin_count ≡ 1
      → IsSpare dm (unpin_frame dm f dirty (set_page dm f p s)).1 f
  unfolding set_page
  set_page-IsSpare s f dirty p h =
      unpin_frame-IsSpare (set_page dm f p s) f dirty (ground (arith, h))

  fetched-HasSpare :
      (s : Pool dm) (id f : ℕ) (dirty : Bool) (p : Page)
      → CanPin dm s f
      → HasSpare dm s
      → (fetch_page dm id s).0 ≡ some f
      → HasSpare dm (unpin_frame dm f dirty (set_page dm f p (fetch_page dm id s).1)).1
  unfolding fetch_page
  fetched-HasSpare s id f dirty p below spare done = elim (Option-cases (s.page_table id)) [
    | inr (g, e) ↦
        let same : (pin dm g s).0 ≡ some f = ground (arith, e, done) in
        let at : g ≡ f = pin-frame s g f same in
        rw (e, at, fetch_page) (pinned-HasSpare s f dirty p below spare)
    | inl e ↦
        let loaded : (load dm id (take_frame dm s)).0 ≡ some f = ground (arith, e, done) in
        rw (e, fetch_page)
          (f, set_page-IsSpare (load dm id (take_frame dm s)).1 f dirty p (load-pin id f _ loaded))
  ]

  visit-some :
      (s : Pool dm) (id f : ℕ) (dirty : Page → Bool) (g : Page → Page)
      → (fetch_page dm id s).0 ≡ some f
      → (fetch_page dm id s).1.page_table id ≡ some f
      → (let t = (fetch_page dm id s).1 in
          visit dm id dirty g s ≡ (
            some (t.frames f).page,
            (unpin_frame dm f (dirty (t.frames f).page) (set_page dm f (g (t.frames f).page) t)).1,
          ))
  unfolding visit unpin_page set_page
  visit-some s id f dirty g done there =
      rw (visited-some dm id f dirty g (fetch_page dm id s) done, there, unpin_page) refl

  -- The pool is coherent, no pin count is at its bound, and there is a frame to give up.
  pub record IsReady (s : Pool dm) : Type 0 where
    pub coherent : IsCoherent dm s
    pub can_pin : (f : ℕ) → CanPin dm s f
    pub spare : HasSpare dm s

  -- Over a disk whose operations do not throw, visiting a page below the disk's 2^21 pages
  -- succeeds in a pool that is coherent, has no pin count at its bound, and has a frame that is
  -- free or that is unpinned and in the LRU list; it hands out what the page reads as, and leaves
  -- the pool so that the next visit succeeds too. A page that is unpinned as clean must not have
  -- been changed.
  pub visit-IsReady :
      (s : Pool dm) (id : ℕ) (dirty : Page → Bool) (g : Page → Page)
      → Faultless dm
      → IsReady s
      → id < disk_pages
      → ((p : Page) → dirty p ≡ false → g p ≡ p)
      → IsReady (visit dm id dirty g s).1
        × ((p : Page) × ((visit dm id dirty g s).0 ≡ some p) × (content dm s id ≡ some p))
  visit-IsReady s id dirty g sound ready h tidy =
      let (f, done) = fetch_page-Found dm sound s id ready.coherent ready.spare h in
      let t = (fetch_page dm id s).1 in
      let p = (t.frames f).page in
      let (there, pinned, read) = fetch_page-Holds dm s id f ready.coherent h ready.can_pin done in
      let w = (visit-Writes dm s id dirty g ready.coherent ready.can_pin h tidy).0 in
      let spare = fetched-HasSpare s id f (dirty p) (g p) (ready.can_pin f) ready.spare done in
      let run = visit-some s id f dirty g done there in
      (
        record { coherent = w.coherent; can_pin = w.can_pin; spare = rw run spare },
        (p, rw run refl, read),
      )
