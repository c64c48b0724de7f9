-- ===== src/BufferPool/Flush.antt =====
-- Writing back: `flush_page`, `flush_all`, and the unpinning of a page.
use advance_db.Prelude.{
  ℕ, ◌<◌, ◌≡◌, ◌≢◌, refl, ◌∙◌, Bool, true, false, some, List, [], ◌∷◌, arith, Option-cases,
  Bool-cases, ◌==◌, inl, inr,
}
use advance_db.BufferPool.Disk.{DiskManager, disk_pages}
use advance_db.BufferPool.Pool.{
  Pool, unpin_frame, unpin_page, flushed, flush_frame, flush_page, flush_all,
}
use advance_db.BufferPool.Coherence.{
  content, IsCoherent, Keeps, Keeps-refl, Keeps-trans, failed-Keeps,
}

module _ (dm : DiskManager) where
  open dm use {Disk, read_page, write_page, read-write_self, read-write_ne}

  -- The frame `f` of page `id` after a write of it.
  flushed-Keeps :
      (s : Pool dm) (id f : ℕ) (r : Bool × Disk)
      → IsCoherent dm s
      → s.page_table id ≡ some f
      → (s.frames f).dirty ≡ true
      → (r.0 ≡ true → read_page r.1 id ≡ some (s.frames f).page)
      → ((j : ℕ) → j < disk_pages → id ≢ j → read_page r.1 j ≡ read_page s.disk j)
      → Keeps dm s (flushed dm f s r).1
        × ((flushed dm f s r).0 ≡ true
            → read_page (flushed dm f s r).1.disk id ≡ some (s.frames f).page)
  unfolding flushed
  flushed-Keeps s id f (false, d) c e dirty stored others =
      let here = c.in_frame id f e in
      (
        failed-Keeps dm s f d c (ground (arith, here, e)) dirty
            (λ j h n. others j h (ground (arith, here, n))),
        λ k. cc,
      )
  flushed-Keeps s id f (true, d) c e dirty stored others =
      let here = c.in_frame id f e in
      let self = stored refl in
      (
        record {
          coherent = record {
            in_frame = λ i g k. ground (arith, c.in_frame i g);
            in_range = c.in_range;
            in_table = λ g v. ground (arith, c.in_table g);
            free_unpinned = λ g k. ground (arith, c.free_unpinned g);
            clean = λ g v k.
                let i = (s.frames g).page_id in
                ground (arith, here, e, self, c.clean g, c.in_table g, c.in_range i g, others i);
          };
          same = λ i h. ground (arith, here, e, self, others i h, c.in_frame i f);
          pinned = λ g h. ground arith;
        },
        λ k. self,
      )

  flush_frame-Keeps :
      (s : Pool dm) (id f : ℕ)
      → IsCoherent dm s
      → s.page_table id ≡ some f
      → Keeps dm s (flush_frame dm id f s).1
        × ((flush_frame dm id f s).0 ≡ true
            → read_page (flush_frame dm id f s).1.disk id ≡ some (s.frames f).page)
  unfolding flush_frame
  flush_frame-Keeps s id f c e =
      let x = s.frames f in
      let here = c.in_frame id f e in
      let small = c.in_range id f e in
      elim (Bool-cases x.dirty) [
        | inr tidy ↦
            rw tidy (Keeps-refl dm s c, λ k. ground (arith, here, e, tidy, c.clean f, small))
        | inl dirty ↦ rw dirty (
            flushed-Keeps s id f (write_page s.disk id x.page) c e dirty
              (read-write_self s.disk id x.page small)
              (λ j h n. read-write_ne s.disk id j x.page small h n))
      ]

  pub flush_page-both :
      (s : Pool dm) (id : ℕ)
      → IsCoherent dm s
      → Keeps dm s (flush_page dm id s).1
        × ((flush_page dm id s).0 ≡ true
            → read_page (flush_page dm id s).1.disk id ≡ content dm s id)
  unfolding flush_page
  flush_page-both s id c = elim (Option-cases (s.page_table id)) [
    | inl e ↦ rw (e, flush_page) (Keeps-refl dm s c, λ k. cc)
    | inr (f, e) ↦
        let (kept, stored) = flush_frame-Keeps s id f c e in
        rw (e, flush_page) (kept, λ k. stored k ∙ ground (arith, e))
  ]

  -- When `flush_page` reports success on a coherent pool, the page is on the disk as the pool had
  -- it, the pool is still coherent, and every page reads as before.
  pub flush_page-durable :
      (s : Pool dm) (id : ℕ)
      → IsCoherent dm s
      → (flush_page dm id s).0 ≡ true
      → Keeps dm s (flush_page dm id s).1
        × (read_page (flush_page dm id s).1.disk id ≡ content dm s id)
  flush_page-durable s id c done = let (k, d) = flush_page-both s id c in (k, d done)

  -- `flush_all`, in any order of the map's entries and whichever writes fail, keeps a coherent pool
  -- coherent, and every page reads as before.
  pub flush_all-Keeps :
      (ids : List ℕ) (s : Pool dm) → IsCoherent dm s → Keeps dm s (flush_all dm ids s)
  unfolding flush_all
  flush_all-Keeps [] s c = Keeps-refl dm s c
  flush_all-Keeps (id ∷ ids) s c =
      let one = (flush_page-both s id c).0 in
      Keeps-trans dm s _ _ one (flush_all-Keeps ids _ one.coherent)

  unpin_frame-IsCoherent :
      (s : Pool dm) (f : ℕ) (dirty : Bool)
      → IsCoherent dm s
      → IsCoherent dm (unpin_frame dm f dirty s).1
        × ((id : ℕ) → content dm (unpin_frame dm f dirty s).1 id ≡ content dm s id)
  unfolding unpin_frame
  unpin_frame-IsCoherent s f dirty c = elim (Bool-cases ((s.frames f).pin_count == 0)) [
    | inl none_left ↦ rw none_left (c, λ id. refl)
    | inr held ↦ rw held (
      record {
        in_frame = λ i g k. ground (arith, c.in_frame i g);
        in_range = c.in_range;
        in_table = λ g v. ground (arith, c.in_table g);
        free_unpinned = λ g k. ground (arith, c.free_unpinned g);
        clean = λ g v k. ground (arith, c.clean g);
      },
      λ id. ground arith,
    )
  ]

  -- Unpinning a page of a coherent pool, dirty or not, cached or not, keeps the pool coherent, and
  -- every page reads as before.
  pub unpin_page-IsCoherent :
      (s : Pool dm) (id : ℕ) (dirty : Bool)
      → IsCoherent dm s
      → IsCoherent dm (unpin_page dm id dirty s).1
        × ((i : ℕ) → content dm (unpin_page dm id dirty s).1 i ≡ content dm s i)
  unfolding unpin_page
  unpin_page-IsCoherent s id dirty c = elim (Option-cases (s.page_table id)) [
    | inl e ↦ rw (e, unpin_page) (c, λ i. refl)
    | inr (f, e) ↦ rw (e, unpin_page) (unpin_frame-IsCoherent s f dirty c)
  ]
