-- ===== src/BufferPool/Visit.antt =====
-- The way every tree operation uses a page: it fetches the page, reads or writes it through the
-- pointer, and unpins it.
use advance_db.Prelude.{
  ℕ, ◌+◌, ◌<◌, ◌≡◌, ◌≢◌, refl, ap, ◌∙◌, Bool, true, false, Option, none, some, inl, inr, arith,
  Option-cases,
}
use advance_db.Page.PageHeader.{Page}
use advance_db.BufferPool.Disk.{DiskManager, disk_pages}
use advance_db.BufferPool.Pool.{update, Pool, fetch_page, unpin_page, unpin_frame}
use advance_db.BufferPool.Coherence.{content, IsCoherent, CanPin}
use advance_db.BufferPool.Fetch.{fetch_page-Keeps, fetch_page-Holds}
use advance_db.BufferPool.Counts.{held, fetch_page-Counts}

module _ (dm : DiskManager) where
  -- A write through the pointer to a frame's page.
  unfoldable pub set_page : ℕ → Page → Pool dm → Pool dm
  set_page f p s = record s { frames = update s.frames f (record (s.frames f) { page = p }) }

  unfoldable pub visited :
      ℕ → (Page → Bool) → (Page → Page) → Option ℕ × Pool dm → Option Page × Pool dm
  visited id dirty g (none, s) = (none, s)
  visited id dirty g (some f, s) =
      let p = (s.frames f).page in (some p, (unpin_page dm id (dirty p) (set_page f (g p) s)).1)

  -- The page as it was, or `none` if it cannot be fetched; `g` is what happens to it, and `dirty`
  -- how it is unpinned.
  unfoldable pub visit : ℕ → (Page → Bool) → (Page → Page) → Pool dm → Option Page × Pool dm
  visit id dirty g s = visited id dirty g (fetch_page dm id s)

  -- A page that is only read, or copied out.
  abbrev pub peek : ℕ → Pool dm → Option Page × Pool dm
  peek id s = visit id (λ p. false) (λ p. p) s

  abbrev pub modify : ℕ → (Page → Page) → Pool dm → Pool dm
  modify id g s = (visit id (λ p. true) g s).1

  -- `t` is coherent with room for more pins, and reads as `s` does but for the page `id`, which is
  -- `p` there.
  pub record Writes (id : ℕ) (p : Option Page) (s t : Pool dm) : Type 0 where
    pub coherent : IsCoherent dm t
    pub can_pin : (f : ℕ) → CanPin dm t f
    pub here : content dm t id ≡ p
    pub same : (j : ℕ) → j < disk_pages → j ≢ id → content dm t j ≡ content dm s j

  abbrev pub after : (Page → Page) → Option Page → Option Page → Option Page
  after g old none = old
  after g old (some p) = some (g p)

  unpinned-Writes :
      (s : Pool dm) (id f : ℕ) (dirty : Bool) (p : Page)
      → IsCoherent dm s
      → s.page_table id ≡ some f
      → 0 < (s.frames f).pin_count
      → (dirty ≡ false → p ≡ (s.frames f).page)
      → ((g : ℕ) → (s.frames g).pin_count < 4294967295 + held (some f) g)
      → Writes id (some p) s (unpin_frame dm f dirty (set_page f p s)).1
  unfolding set_page unpin_frame
  unpinned-Writes s id f dirty p c e pinned tidy below =
      let here = c.in_frame id f e in
      record {
        coherent = record {
          in_frame = λ i g k. ground (arith, k, pinned, c.in_frame i g);
          in_range = λ i g k. ground (arith, k, pinned, c.in_range i g);
          in_table = λ g v. ground (arith, v, pinned, c.in_table g);
          free_unpinned =
              λ g k. ground (arith, k, pinned, here, c.free_unpinned g, c.free_unpinned f);
          clean = λ g v k. ground (arith, v, k, pinned, c.clean g, c.clean f, tidy);
        };
        can_pin = λ g. ground (arith, pinned, below g);
        here = ground (arith, e, pinned);
        same = λ j h n. ground (arith, e, here, pinned, c.in_frame j f);
      }

  pub visited-some :
      (id f : ℕ) (dirty : Page → Bool) (g : Page → Page) (r : Option ℕ × Pool dm)
      → r.0 ≡ some f
      → visited id dirty g r ≡ (
        some (r.1.frames f).page,
        (unpin_page dm id (dirty (r.1.frames f).page) (set_page f (g (r.1.frames f).page) r.1)).1,
      )
  unfolding visited
  visited-some id f dirty g (none, t) e = cc
  visited-some id f dirty g (some x, t) e =
      let same : x ≡ f = ground arith in
      ap
        (λ k. (
          some (t.frames k).page,
          (unpin_page dm id (dirty (t.frames k).page) (set_page k (g (t.frames k).page) t)).1,
        ))
        same

  visited-none :
      (id : ℕ) (dirty : Page → Bool) (g : Page → Page) (r : Option ℕ × Pool dm)
      → r.0 ≡ none
      → visited id dirty g r ≡ (none, r.1)
  unfolding visited
  visited-none id dirty g (none, t) e = refl
  visited-none id dirty g (some x, t) e = cc

  unpin_page-Writes :
      (s : Pool dm) (id f : ℕ) (dirty : Bool) (p : Page)
      → IsCoherent dm s
      → s.page_table id ≡ some f
      → 0 < (s.frames f).pin_count
      → (dirty ≡ false → p ≡ (s.frames f).page)
      → ((g : ℕ) → (s.frames g).pin_count < 4294967295 + held (some f) g)
      → Writes id (some p) s (unpin_page dm id dirty (set_page f p s)).1
  unfolding unpin_page set_page
  unpin_page-Writes s id f dirty p c e pinned tidy below =
      let there : (set_page f p s).page_table id ≡ some f = e in
      rw (there, unpin_page) (unpinned-Writes s id f dirty p c e pinned tidy below)

  -- Visiting a page below the disk's 2^21 pages in a coherent pool, where no pin count is at its
  -- 32-bit bound, returns what the page reads as, or fails; the page then reads as what was made of
  -- it, or as before where it could not be fetched, every other page reads as before, the pool stays
  -- coherent, and no pin count reaches its bound. A page that is unpinned as clean must not have
  -- been changed.
  pub visit-Writes :
      (s : Pool dm) (id : ℕ) (dirty : Page → Bool) (g : Page → Page)
      → IsCoherent dm s
      → ((f : ℕ) → CanPin dm s f)
      → id < disk_pages
      → ((p : Page) → dirty p ≡ false → g p ≡ p)
      → Writes id (after g (content dm s id) (visit id dirty g s).0) s (visit id dirty g s).1
        × ((p : Page) → (visit id dirty g s).0 ≡ some p → content dm s id ≡ some p)
  unfolding visit
  visit-Writes s id dirty g c below h tidy =
      let t = (fetch_page dm id s).1 in
      let k = fetch_page-Keeps dm s id c h below in
      let counts = fetch_page-Counts dm s id below in
      elim (Option-cases (fetch_page dm id s).0) [
        | inl failed ↦ rw (visited-none id dirty g (fetch_page dm id s) failed) (
          record {
            coherent = k.coherent;
            can_pin = λ f. ground (arith, failed, counts f, below f);
            here = k.same id h;
            same = λ j i n. k.same j i;
          },
          λ p e. cc,
        )
        | inr (f, done) ↦
            let (there, pinned, read) = fetch_page-Holds dm s id f c h below done in
            let p = (t.frames f).page in
            let w =
              unpin_page-Writes t id f (dirty p) (g p) k.coherent there pinned (tidy p)
                (λ x. ground (arith, done, counts x, below x)) in
            rw (visited-some id f dirty g (fetch_page dm id s) done) (
              record {
                coherent = w.coherent;
                can_pin = w.can_pin;
                here = w.here;
                same = λ j i n. w.same j i n ∙ k.same j i;
              },
              λ q e. read ∙ e,
            )
      ]
