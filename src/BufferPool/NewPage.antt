-- ===== src/BufferPool/NewPage.antt =====
-- `new_page` and `delete_page`, which do change what a page reads as: their own.
use advance_db.Prelude.{
  false, sym, subst, Bool-cases, ltb, ℕ, ◌<◌, ◌≡◌, ◌≢◌, refl, ◌∙◌, true, Option, none, some, arith,
  Option-cases, inl, inr,
}
use advance_db.Page.PageHeader.{Page, PageType, PageLevel, init_page}
use advance_db.BufferPool.Disk.{DiskManager, disk_pages}
use advance_db.BufferPool.Pool.{
  invalid_page_id, Pool, install, mark_frame_used, take_frame, create, new_page, delete_frame,
  delete_page,
}
use advance_db.BufferPool.Coherence.{content, IsCoherent}
use advance_db.BufferPool.Fetch.{Finds, IsFree, take_frame-Finds, take_frame-Shrinks}

module _ (dm : DiskManager) where
  open dm use {Disk, read_page, write_page}

  -- `t` is coherent, and reads as `s` does, but for the page `id`; pinned pages keep their frames.
  pub record KeepsOthers (id : ℕ) (s t : Pool dm) : Type 0 where
    pub coherent : IsCoherent dm t
    pub same : (j : ℕ) → j < disk_pages → j ≢ id → content dm t j ≡ content dm s j
    pub pinned :
        (f : ℕ)
        → 0 < (s.frames f).pin_count
        → ((t.frames f).page_id ≡ (s.frames f).page_id) × ((t.frames f).page ≡ (s.frames f).page)

  -- A dirty page enters a free frame.
  install-dirty :
      (s : Pool dm) (id f : ℕ) (p : Page)
      → IsCoherent dm s
      → id < disk_pages
      → s.page_table id ≡ none
      → (s.frames f).page_id ≡ invalid_page_id
      → KeepsOthers id s (install dm id f true p s).1
        × (content dm (install dm id f true p s).1 id ≡ some p)
  unfolding install mark_frame_used
  install-dirty s id f p c h absent free = (
    record {
      coherent = record {
        in_frame = λ i g e. ground (arith, c.in_frame i g, c.in_frame i f, c.in_range i g);
        in_range = λ i g e. ground (arith, c.in_range i g);
        in_table = λ g v. ground (arith, c.in_table g, c.in_table f);
        free_unpinned = λ g e. ground (arith, c.free_unpinned g);
        clean = λ g v e. ground (arith, c.clean g);
      };
      same = λ i k n. ground (arith, c.in_frame i f, c.in_range i f);
      pinned = λ g k. ground (arith, c.free_unpinned g);
    },
    ground arith,
  )

  -- What is in a page plays no part in what `init_page` makes of it.
  init_page-any :
      (a b : Page) (id : ℕ) (type : PageType) (level : PageLevel)
      → init_page a id type level ≡ init_page b id type level
  unfolding init_page
  init_page-any a b id type level = refl

  create-new :
      (s : Pool dm) (id f : ℕ) (type : PageType) (level : PageLevel) (r : Option ℕ × Pool dm)
      (old : Page)
      → id < disk_pages
      → Finds dm s (IsFree dm) r
      → r.1.page_table id ≡ none
      → (create dm id type level r).0 ≡ some f
      → KeepsOthers id s (create dm id type level r).1
        × (content dm (create dm id type level r).1 id ≡ some (init_page old id type level))
  unfolding create
  create-new s id f type level (none, t) old h k e got = absurd (ground (arith, got))
  create-new s id f type level (some g, t) old h k e got =
      let p = init_page (t.frames g).page id type level in
      let (others, here) = install-dirty t id g p k.0.coherent h e (k.1 g refl) in
      (
        record {
          coherent = others.coherent;
          same = λ j i n. others.same j i n ∙ k.0.same j i;
          pinned = λ i x. ground (arith, k.0.pinned i x, others.pinned i);
        },
        rw (init_page-any old (t.frames g).page id type level) here,
      )

  -- When `new_page` hands out a frame of a coherent pool for a page below the disk's 2^21 pages
  -- that is not cached, the page reads as a fresh page from then on; every other page reads as
  -- before, the pool stays coherent, and pinned pages stay in place.
  pub new_page-fresh :
      (s : Pool dm) (id f : ℕ) (type : PageType) (level : PageLevel) (old : Page)
      → IsCoherent dm s
      → id < disk_pages
      → s.page_table id ≡ none
      → (new_page dm id type level s).0 ≡ some f
      → KeepsOthers id s (new_page dm id type level s).1
        × (content dm (new_page dm id type level s).1 id ≡ some (init_page old id type level))
  unfolding new_page
  new_page-fresh s id f type level old c h e got =
      let made : (create dm id type level (take_frame dm s)).0 ≡ some f = ground (arith, got, e) in
      rw (e, new_page)
        (create-new s id f type level (take_frame dm s) old h (take_frame-Finds dm s c)
          (take_frame-Shrinks dm s id e) made)

  -- A deletion that reports success in a coherent pool drops what was not written: the page reads
  -- as on the disk, every other page as before, the pool stays coherent, and pinned pages stay in
  -- place.
  pub delete_page-drops :
      (s : Pool dm) (id : ℕ)
      → IsCoherent dm s
      → (delete_page dm id s).0 ≡ true
      → KeepsOthers id s (delete_page dm id s).1
        × (content dm (delete_page dm id s).1 id ≡ read_page s.disk id)
  unfolding delete_page delete_frame
  delete_page-drops s id c done = elim (Option-cases (s.page_table id)) [
    | inl e ↦ absurd (ground (arith, done, e))
    | inr (f, e) ↦
        let idle : (s.frames f).pin_count ≡ 0 = ground (arith, done, e) in
        rw (e, idle, delete_page, delete_frame)
          (
            record {
              coherent = record {
                in_frame =
                    λ i g k. ground (arith, c.in_frame i g, c.in_frame id f e, c.in_frame i f);
                in_range = λ i g k. ground (arith, c.in_range i g);
                in_table = λ g v. ground (arith, c.in_table g, c.in_frame id f e, e);
                free_unpinned = λ g k. ground (arith, c.free_unpinned g);
                clean = λ g v k. ground (arith, c.clean g);
              };
              same = λ j h n. ground (arith, c.in_frame j f, c.in_frame id f e);
              pinned = λ g h. ground (arith, idle);
            },
            ground arith,
          )
  ]

  delete_page-refused :
      (s : Pool dm) (id : ℕ) → (delete_page dm id s).0 ≡ false → (delete_page dm id s).1 ≡ s
  unfolding delete_page delete_frame
  delete_page-refused s id n = elim (Option-cases (s.page_table id)) [
    | inl e ↦ rw (e, delete_page) refl
    | inr (f, e) ↦ elim (Bool-cases (ltb 0 (s.frames f).pin_count)) [
      | inl held ↦ rw (e, held, delete_page, delete_frame) refl
      | inr idle ↦ absurd (ground (arith, n, e, idle))
    ]
  ]

  -- Whether or not the page can be deleted.
  pub delete_page-KeepsOthers :
      (s : Pool dm) (id : ℕ) → IsCoherent dm s → KeepsOthers id s (delete_page dm id s).1
  delete_page-KeepsOthers s id c = elim (Bool-cases (delete_page dm id s).0) [
    | inl y ↦ (delete_page-drops s id c y).0
    | inr n ↦
        subst (λ t. KeepsOthers id s t) (sym (delete_page-refused s id n))
          (record { coherent = c; same = λ j h n. refl; pinned = λ f h. (refl, refl) })
  ]
