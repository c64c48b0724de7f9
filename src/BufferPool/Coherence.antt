-- ===== src/BufferPool/Coherence.antt =====
-- The pool is a transparent cache: what a page id reads as, through the pool or from the disk,
-- survives every operation, and a pinned frame keeps its page.
use advance_db.Prelude.{
  ℕ, ◌<◌, ◌≤◌, ◌≡◌, ◌≢◌, refl, sym, ◌∙◌, Bool, true, false, Option, none, some, List, ◌==◌, inl,
  inr, arith, Bool-cases,
}
use advance_db.Page.PageHeader.{Page}
use advance_db.BufferPool.Disk.{DiskManager, disk_pages}
use advance_db.BufferPool.Pool.{
  invalid_page_id, Pool, new_pool, mark_frame_used, set_frame, release, evicted, evict_frame, pin,
  install,
}

module _ (dm : DiskManager) where
  open dm use {Disk, read_page, write_page, read-write_self, read-write_ne}

  abbrev pub content : Pool dm → ℕ → Option Page
  content s id = elim (s.page_table id) [
    | some f ↦ some (s.frames f).page
    | none ↦ read_page s.disk id
  ]

  -- The map and the frames name each other, free frames are unpinned, and a clean page is the
  -- page on the disk.
  pub record IsCoherent (s : Pool dm) : Type 0 where
    pub in_frame : (id f : ℕ) → s.page_table id ≡ some f → (s.frames f).page_id ≡ id
    pub in_range : (id f : ℕ) → s.page_table id ≡ some f → id < disk_pages
    pub in_table :
        (f : ℕ)
        → (s.frames f).page_id ≢ invalid_page_id
        → s.page_table (s.frames f).page_id ≡ some f
    pub free_unpinned :
        (f : ℕ) → (s.frames f).page_id ≡ invalid_page_id → (s.frames f).pin_count ≡ 0
    pub clean :
        (f : ℕ)
        → (s.frames f).page_id ≢ invalid_page_id
        → (s.frames f).dirty ≡ false
        → read_page s.disk (s.frames f).page_id ≡ some (s.frames f).page

  -- `s'` is coherent, reads as `s` does, and holds every page that is pinned in `s`.
  pub record Keeps (s s' : Pool dm) : Type 0 where
    pub coherent : IsCoherent s'
    pub same : (id : ℕ) → id < disk_pages → content s' id ≡ content s id
    pub pinned :
        (f : ℕ)
        → 0 < (s.frames f).pin_count
        → ((s'.frames f).page_id ≡ (s.frames f).page_id)
          × ((s'.frames f).page ≡ (s.frames f).page)
          × ((s.frames f).pin_count ≤ (s'.frames f).pin_count)

  pub Keeps-refl : (s : Pool dm) → IsCoherent s → Keeps s s
  Keeps-refl s c = record {
    coherent = c;
    same = λ id h. refl;
    pinned = λ f h. (refl, refl, omega arith);
  }

  pub Keeps-trans : (a b c : Pool dm) → Keeps a b → Keeps b c → Keeps a c
  Keeps-trans a b c k l = record {
    coherent = l.coherent;
    same = λ id h. l.same id h ∙ k.same id h;
    pinned = λ f h. ground (arith, k.pinned f h, l.pinned f);
  }

  -- The LRU list plays no part in what the pool means.
  pub Keeps-lru : (s : Pool dm) (l : List ℕ) → IsCoherent s → Keeps s (record s { lru = l })
  Keeps-lru s l c = record {
    coherent = record {
      in_frame = c.in_frame;
      in_range = c.in_range;
      in_table = c.in_table;
      free_unpinned = c.free_unpinned;
      clean = c.clean;
    };
    same = λ id h. refl;
    pinned = λ f h. (refl, refl, omega arith);
  }

  -- Emptying an unpinned frame whose page is on the disk `d`.
  module _ (s : Pool dm) (f : ℕ) (d : Disk) (c : IsCoherent s)
      (used : (s.frames f).page_id ≢ invalid_page_id) (unpinned : (s.frames f).pin_count ≡ 0)
      (stored : read_page d (s.frames f).page_id ≡ some (s.frames f).page)
      (others : (j : ℕ)
        → j < disk_pages
        → j ≢ (s.frames f).page_id
        → read_page d j ≡ read_page s.disk j) where
    release-IsCoherent : IsCoherent (release dm f d s)
    unfolding release
    release-IsCoherent = record {
      in_frame = λ id g e. ground (arith, c.in_frame id g, c.in_frame id f, c.in_table g);
      in_range = λ id g e. ground (arith, c.in_range id g);
      in_table =
          λ g u. ground (arith, c.in_table g, c.in_table f, c.in_frame (s.frames g).page_id f);
      free_unpinned = λ g e. ground (arith, c.free_unpinned g);
      clean = λ g u e.
          let id = (s.frames g).page_id in
          ground (arith, c.clean g, c.in_table g, c.in_table f used, c.in_range id g, others id);
    }

    release-Keeps : Keeps s (release dm f d s)
    unfolding release
    release-Keeps = record {
      coherent = release-IsCoherent;
      same = λ id h. ground (arith, stored, others id h, c.in_table f used, c.in_frame id f);
      pinned = λ g h. ground arith;
    }

  release-frees :
      (s : Pool dm) (f : ℕ) (d : Disk) → ((release dm f d s).frames f).page_id ≡ invalid_page_id
  unfolding release
  release-frees s f d = ground arith

  -- A write that failed over a cached dirty page, whatever it has left on the disk.
  pub failed-Keeps :
      (s : Pool dm) (f : ℕ) (d : Disk)
      → IsCoherent s
      → s.page_table (s.frames f).page_id ≡ some f
      → (s.frames f).dirty ≡ true
      → ((j : ℕ) → j < disk_pages → j ≢ (s.frames f).page_id → read_page d j ≡ read_page s.disk j)
      → Keeps s (record s { disk = d })
  failed-Keeps s f d c e dirty others = record {
    coherent = record {
      in_frame = c.in_frame;
      in_range = c.in_range;
      in_table = c.in_table;
      free_unpinned = c.free_unpinned;
      clean = λ g u k.
          let id = (s.frames g).page_id in
          ground (arith, e, dirty, k, c.clean g, c.in_table g, c.in_range id g, others id);
    };
    same = λ id h. ground (arith, e, others id h);
    pinned = λ g h. (refl, refl, omega arith);
  }

  evicted-Keeps :
      (s : Pool dm) (f : ℕ) (r : Bool × Disk)
      → IsCoherent s
      → (s.frames f).page_id ≢ invalid_page_id
      → (s.frames f).pin_count ≡ 0
      → (s.frames f).dirty ≡ true
      → (r.0 ≡ true → read_page r.1 (s.frames f).page_id ≡ some (s.frames f).page)
      → ((j : ℕ) → j < disk_pages → j ≢ (s.frames f).page_id → read_page r.1 j ≡ read_page s.disk j)
      → Keeps s (evicted dm f s r).1
        × ((evicted dm f s r).0 ≡ true → ((evicted dm f s r).1.frames f).page_id ≡ invalid_page_id)
  unfolding evicted
  evicted-Keeps s f (true, d) c v u dirty stored others =
      (release-Keeps s f d c v u (stored refl) others, λ e. release-frees s f d)
  evicted-Keeps s f (false, d) c v u dirty stored others =
      (failed-Keeps s f d c (c.in_table f v) dirty others, λ e. cc)

  pub evict_frame-Keeps :
      (s : Pool dm) (f : ℕ)
      → IsCoherent s
      → (s.frames f).pin_count ≡ 0
      → Keeps s (evict_frame dm f s).1
        × ((evict_frame dm f s).0 ≡ true
            → ((evict_frame dm f s).1.frames f).page_id ≡ invalid_page_id)
  unfolding evict_frame
  evict_frame-Keeps s f c u =
      let x = s.frames f in
      elim (Bool-cases (x.page_id == invalid_page_id)) [
        | inl gone ↦ rw gone (Keeps-refl s c, λ e. ground arith)
        | inr used ↦
            let valid : x.page_id ≢ invalid_page_id = ground arith in
            elim (Bool-cases x.dirty) [
              | inr tidy ↦
                  rw (used, tidy)
                    (
                      release-Keeps s f s.disk c valid u (c.clean f valid tidy) (λ j h n. refl),
                      λ e. release-frees s f s.disk,
                    )
              | inl dirty ↦
                  let small = c.in_range x.page_id f (c.in_table f valid) in
                  rw (used, dirty)
                    (evicted-Keeps s f (write_page s.disk x.page_id x.page) c valid u dirty
                      (read-write_self s.disk x.page_id x.page small)
                      (λ j h n. read-write_ne s.disk x.page_id j x.page small h (λ e. n (sym e))))
            ]
      ]

  -- A page that enters a free frame, as it reads already.
  pub install-Keeps :
      (s : Pool dm) (id f : ℕ) (dirty : Bool) (p : Page)
      → IsCoherent s
      → id < disk_pages
      → s.page_table id ≡ none
      → (s.frames f).page_id ≡ invalid_page_id
      → read_page s.disk id ≡ some p
      → Keeps s (install dm id f dirty p s).1
  unfolding install mark_frame_used
  install-Keeps s id f dirty p c h absent free stored = record {
    coherent = record {
      in_frame = λ i g e. ground (arith, c.in_frame i g, c.in_frame i f, c.in_range i g);
      in_range = λ i g e. ground (arith, c.in_range i g);
      in_table = λ g v. ground (arith, c.in_table g, c.in_table f);
      free_unpinned = λ g e. ground (arith, c.free_unpinned g);
      clean = λ g v e. ground (arith, c.clean g);
    };
    same = λ i k. ground (arith, stored, c.in_frame i f, c.in_range i f);
    pinned = λ g k. ground (arith, c.free_unpinned g);
  }

  -- A pin count that is not at its bound.
  abbrev pub CanPin : Pool dm → ℕ → Type 0
  CanPin s f = (s.frames f).pin_count < 4294967295

  pub pin-Keeps :
      (s : Pool dm) (id f : ℕ)
      → IsCoherent s
      → s.page_table id ≡ some f
      → CanPin s f
      → Keeps s (pin dm f s).1
  unfolding pin mark_frame_used set_frame
  pin-Keeps s id f c e below = record {
    coherent = record {
      in_frame = λ i g k. ground (arith, c.in_frame i g);
      in_range = λ i g k. c.in_range i g k;
      in_table = λ g v. ground (arith, c.in_table g, c.in_table f);
      free_unpinned =
          λ g k. ground (arith, c.free_unpinned g, c.in_frame id f e, c.in_range id f e);
      clean = λ g v k. ground (arith, c.clean g, c.clean f);
    };
    same = λ i k. ground arith;
    pinned = λ g k. ground arith;
  }

  -- A pool that was just made, of any size and over any disk, is coherent, and reads as its disk.
  pub new_pool-IsCoherent :
      (size : ℕ) (p : Page) (d : Disk)
      → IsCoherent (new_pool dm size p d)
        × ((id : ℕ) → content (new_pool dm size p d) id ≡ read_page d id)
  unfolding new_pool
  new_pool-IsCoherent size p d = (
    record {
      in_frame = λ id f e. absurd (ground (arith, e));
      in_range = λ id f e. absurd (ground (arith, e));
      in_table = λ f n. absurd (n refl);
      free_unpinned = λ f e. refl;
      clean = λ f n e. absurd (n refl);
    },
    λ id. refl,
  )
