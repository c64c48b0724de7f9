-- ===== src/Btree/SplitStore.antt =====
-- What a split of a leaf puts into the pool.
use advance_db.Prelude.{
  ℕ, ◌<◌, ◌≡◌, ◌≢◌, refl, sym, ap, ◌∙◌, subst, true, Option, none, some, arith, ◌==◌, if◌then◌else◌,
  Option-cases, Bool-cases, inl, inr,
}
use advance_db.Bytes.{zeroed}
use advance_db.Page.PageHeader.{Page, PageType, PageLevel, data_page, leaf, page_id, next_page_id}
use advance_db.BufferPool.Disk.{DiskManager, disk_pages}
use advance_db.BufferPool.Pool.{
  Pool, pin, install, mark_frame_used, set_frame, take_frame, create, new_page, unpin_frame,
  unpin_page,
}
use advance_db.BufferPool.Coherence.{content, IsCoherent, pin-Keeps}
use advance_db.BufferPool.NewPage.{new_page-fresh}
use advance_db.BufferPool.Counts.{Found, Faultless}
use advance_db.BufferPool.Spare.{take_frame-Found}
use advance_db.BufferPool.Visit.{set_page, modify, after, visit-Writes}
use advance_db.BufferPool.Ready.{IsReady, visit-IsReady}
use advance_db.Btree.Split.{SplitResult, set_prev_page_id, written_new, write_new, store_split}

module _ (dm : DiskManager) where
  -- A coherent pool with the page `id` in a frame that is pinned; the other pages read as in `s`.
  record Holds (id f : ℕ) (s t : Pool dm) : Type 0 where
    coherent : IsCoherent dm t
    there : t.page_table id ≡ some f
    pinned : 0 < (t.frames f).pin_count
    same : (j : ℕ) → j < disk_pages → j ≢ id → content dm t j ≡ content dm s j

  pin-Holds :
      (s : Pool dm) (id f : ℕ)
      → IsReady dm s
      → s.page_table id ≡ some f
      → Holds id f s (pin dm f s).1
  unfolding pin mark_frame_used set_frame
  pin-Holds s id f ready e =
      let k = pin-Keeps dm s id f ready.coherent e (ready.can_pin f) in
      record {
        coherent = k.coherent;
        there = e;
        pinned = ground (arith, ready.can_pin f);
        same = λ j h n. k.same j h;
      }

  create-Found :
      (id : ℕ) (type : PageType) (level : PageLevel) (r : Option ℕ × Pool dm)
      → Found r.0
      → (f : ℕ) × ((create dm id type level r).0 ≡ some f)
        × ((create dm id type level r).1.page_table id ≡ some f)
        × (((create dm id type level r).1.frames f).pin_count ≡ 1)
  unfolding create install mark_frame_used
  create-Found id type level (none, t) (f, e) = cc
  create-Found id type level (some g, t) found = (g, refl, ground arith, ground arith)

  new_page-Holds :
      (s : Pool dm) (id : ℕ) (type : PageType) (level : PageLevel)
      → Faultless dm
      → IsReady dm s
      → id < disk_pages
      → (f : ℕ) × ((new_page dm id type level s).0 ≡ some f)
        × Holds id f s (new_page dm id type level s).1
  unfolding new_page pin
  new_page-Holds s id type level sound ready h = elim (Option-cases (s.page_table id)) [
    | inr (f, e) ↦ rw (e, new_page) (f, refl, pin-Holds s id f ready e)
    | inl e ↦
        let run : new_page dm id type level s ≡ create dm id type level (take_frame dm s) =
          rw (e, new_page) refl in
        let (f, got, there, pinned) =
          create-Found id type level (take_frame dm s)
            (take_frame-Found dm sound s ready.coherent ready.spare) in
        let got' : (new_page dm id type level s).0 ≡ some f =
          ap (λ (r : Option ℕ × Pool dm). r.0) run ∙ got in
        let k = (new_page-fresh dm s id f type level zeroed ready.coherent h e got').0 in
        (
          f,
          got',
          record {
            coherent = k.coherent;
            there = ap (λ (r : Option ℕ × Pool dm). r.1.page_table id) run ∙ there;
            pinned =
                omega
                  (arith, pinned, ap (λ (r : Option ℕ × Pool dm). (r.1.frames f).pin_count) run);
            same = k.same;
          },
        )
  ]

  -- The page `id` reads as `p`, and every other page as before.
  abbrev pub Puts : ℕ → Page → Pool dm → Pool dm → Type 0
  Puts id p s t =
      (content dm t id ≡ some p)
      × ((j : ℕ) → j < disk_pages → j ≢ id → content dm t j ≡ content dm s j)

  written-Puts :
      (s : Pool dm) (id f : ℕ) (p : Page)
      → IsCoherent dm s
      → s.page_table id ≡ some f
      → 0 < (s.frames f).pin_count
      → Puts id p s (unpin_page dm id true (set_page dm f p s)).1
  unfolding unpin_page unpin_frame set_page
  written-Puts s id f p c e pinned =
      let there : (set_page dm f p s).page_table id ≡ some f = e in
      let here = c.in_frame id f e in
      rw (there, unpin_page)
        (ground (arith, e, pinned), λ j h n. ground (arith, e, here, pinned, c.in_frame j f))

  written_new-some :
      (id f : ℕ) (p : Page) (r : Option ℕ × Pool dm)
      → r.0 ≡ some f
      → written_new dm id p r ≡ (unpin_page dm id true (set_page dm f p r.1)).1
  unfolding written_new
  written_new-some id f p (none, t) e = cc
  written_new-some id f p (some g, t) e =
      let same : g ≡ f = ground (arith, e) in
      ap (λ k. (unpin_page dm id true (set_page dm k p t)).1) same

  write_new-Puts :
      (s : Pool dm) (id : ℕ) (type : PageType) (level : PageLevel) (p : Page)
      → Faultless dm
      → IsReady dm s
      → id < disk_pages
      → Puts id p s (write_new dm id type level p s)
  unfolding write_new
  write_new-Puts s id type level p sound ready h =
      let (f, got, k) = new_page-Holds s id type level sound ready h in
      let t = (new_page dm id type level s).1 in
      let (here, others) = written-Puts t id f p k.coherent k.there k.pinned in
      subst (Puts id p s) (sym (written_new-some id f p (new_page dm id type level s) got))
        (here, λ j i n. others j i n ∙ k.same j i n)

  -- A page that is changed in a ready pool.
  modify-Puts :
      (s : Pool dm) (id : ℕ) (g : Page → Page) (p : Page)
      → Faultless dm
      → IsReady dm s
      → id < disk_pages
      → content dm s id ≡ some p
      → IsReady dm (modify dm id g s) × Puts id (g p) s (modify dm id g s)
  modify-Puts s id g p sound ready h read =
      let (next, (q, got, held)) = visit-IsReady dm s id (λ x. true) g sound ready h (λ x e. cc) in
      let w = (visit-Writes dm s id (λ x. true) g ready.coherent ready.can_pin h (λ x e. cc)).0 in
      (
        next,
        (
          w.here
              ∙ ap (after dm g (content dm s id)) got
              ∙ ap (after dm g (content dm s id)) (sym held ∙ read),
          w.same,
        ),
      )

  -- The two pages of a split are in the pool `t`, the old next page, where there is one, links back
  -- to the new one, and every other page reads as in `s`.
  pub record Stored (p : Page) (r : SplitResult) (s t : Pool dm) : Type 0 where
    pub left : content dm t (page_id p) ≡ some r.left_page
    pub right : content dm t r.new_page ≡ some r.right_page
    pub linked :
        (q : Page)
        → next_page_id p ≢ 0
        → content dm s (next_page_id p) ≡ some q
        → content dm t (next_page_id p) ≡ some (set_prev_page_id q r.new_page)
    pub others :
        (j : ℕ)
        → j < disk_pages
        → j ≢ page_id p
        → j ≢ r.new_page
        → (next_page_id p ≢ 0 → j ≢ next_page_id p)
        → content dm t j ≡ content dm s j

  -- The split concerns pages of the disk that are all different.
  pub record AreDifferent (p : Page) (new : ℕ) : Type 0 where
    pub left_inside : page_id p < disk_pages
    pub new_inside : new < disk_pages
    pub next_inside : next_page_id p < disk_pages
    pub left_new : page_id p ≢ new
    pub next_left : next_page_id p ≢ 0 → next_page_id p ≢ page_id p
    pub next_new : next_page_id p ≢ 0 → next_page_id p ≢ new

  abbrev relinked : Page → SplitResult → Pool dm → Pool dm
  relinked p r s =
      if next_page_id p == 0
      then s
      else modify dm (next_page_id p) (λ q. set_prev_page_id q r.new_page) s

  record Relinked (p : Page) (r : SplitResult) (s t : Pool dm) : Type 0 where
    ready : IsReady dm t
    linked :
        (q : Page)
        → next_page_id p ≢ 0
        → content dm s (next_page_id p) ≡ some q
        → content dm t (next_page_id p) ≡ some (set_prev_page_id q r.new_page)
    others :
        (j : ℕ)
        → j < disk_pages
        → (next_page_id p ≢ 0 → j ≢ next_page_id p)
        → content dm t j ≡ content dm s j

  relinked-Relinked :
      (s : Pool dm) (p : Page) (r : SplitResult)
      → Faultless dm
      → IsReady dm s
      → next_page_id p < disk_pages
      → Relinked p r s (relinked p r s)
  relinked-Relinked s p r sound ready h = elim (Bool-cases (next_page_id p == 0)) [
    | inl last ↦ rw last (record {
      ready = ready;
      linked = λ q n e. absurd (ground (arith, n, last));
      others = λ j i n. refl;
    })
    | inr more ↦
        let link = λ (q : Page). set_prev_page_id q r.new_page in
        let id = next_page_id p in
        let (x, got, held) = (visit-IsReady dm s id (λ q. true) link sound ready h (λ q e. cc)).1 in
        let (next, (here, same)) = modify-Puts s id link x sound ready h held in
        rw more (record {
          ready = next;
          linked = λ q n e. here ∙ ap (after dm link none) (sym held ∙ e);
          others = λ j i n. same j i (n (λ z. ground (arith, more, z)));
        })
  ]

  pub store_split-Stored :
      (s : Pool dm) (p : Page) (r : SplitResult)
      → Faultless dm
      → IsReady dm s
      → AreDifferent p r.new_page
      → Stored p r s (store_split dm p r s)
  unfolding store_split
  store_split-Stored s p r sound ready d =
      let k = relinked-Relinked s p r sound ready d.next_inside in
      let s₁ = relinked p r s in
      let (x, got, held) =
        (visit-IsReady dm s₁ (page_id p) (λ q. true) (λ q. r.left_page) sound k.ready d.left_inside
          (λ q e. cc)).1 in
      let (next, (here, same)) =
        modify-Puts s₁ (page_id p) (λ q. r.left_page) x sound k.ready d.left_inside held in
      let s₂ = modify dm (page_id p) (λ q. r.left_page) s₁ in
      let (there, rest) =
        write_new-Puts s₂ r.new_page data_page leaf r.right_page sound next d.new_inside in
      record {
        left = rest (page_id p) d.left_inside d.left_new ∙ here;
        right = there;
        linked = λ q n e.
            rest (next_page_id p) d.next_inside (d.next_new n)
            ∙ same (next_page_id p) d.next_inside (d.next_left n)
            ∙ k.linked q n e;
        others = λ j h l new far. rest j h new ∙ same j h l ∙ k.others j h far;
      }
