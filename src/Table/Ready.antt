-- ===== src/Table/Ready.antt =====
-- `allocate_page` leaves a pool that can go on serving pages.
use advance_db.Prelude.{
  ℕ, ◌≡◌, refl, sym, ap, ◌∙◌, subst, Bool, true, false, Option, some, arith, Option-cases,
  Bool-cases, inl, inr,
}
use advance_db.Page.PageHeader.{Page}
use advance_db.BufferPool.Disk.{DiskManager}
use advance_db.BufferPool.Pool.{Pool, flushed, flush_frame, flush_page, fetch_page}
use advance_db.BufferPool.Flush.{flush_page-both}
use advance_db.BufferPool.Counts.{Faultless}
use advance_db.BufferPool.Visit.{visit, visited-some}
use advance_db.BufferPool.Ready.{IsReady, visit-IsReady}
use advance_db.Table.Bits.{set_allocated}
use advance_db.Table.Allocation.{store_bitmap, allocate_page}
use advance_db.Table.Marks.{allocate_in-some}

module _ (dm : DiskManager) where
  open dm use {Disk, write_page}

  -- Flushing a page moves no frame.
  record StaysPut (s t : Pool dm) : Type 0 where
    pins : (f : ℕ) → (t.frames f).pin_count ≡ (s.frames f).pin_count
    ids : (f : ℕ) → (t.frames f).page_id ≡ (s.frames f).page_id
    size : t.pool_size ≡ s.pool_size
    list : t.lru ≡ s.lru

  StaysPut-refl : (s : Pool dm) → StaysPut s s
  StaysPut-refl s = record { pins = λ f. refl; ids = λ f. refl; size = refl; list = refl }

  flushed-StaysPut : (s : Pool dm) (f : ℕ) (r : Bool × Disk) → StaysPut s (flushed dm f s r).1
  unfolding flushed
  flushed-StaysPut s f (true, d) = record {
    pins = λ g. ground arith;
    ids = λ g. ground arith;
    size = refl;
    list = refl;
  }
  flushed-StaysPut s f (false, d) = record {
    pins = λ g. refl;
    ids = λ g. refl;
    size = refl;
    list = refl;
  }

  flush_page-StaysPut : (s : Pool dm) (id : ℕ) → StaysPut s (flush_page dm id s).1
  unfolding flush_page flush_frame
  flush_page-StaysPut s id = elim (Option-cases (s.page_table id)) [
    | inl e ↦ rw (e, flush_page) (StaysPut-refl s)
    | inr (f, e) ↦ elim (Bool-cases (s.frames f).dirty) [
      | inl dirty ↦
          rw (e, flush_page, dirty) (flushed-StaysPut s f (write_page s.disk id (s.frames f).page))
      | inr clean ↦ rw (e, flush_page, clean) (StaysPut-refl s)
    ]
  ]

  flush_page-IsReady : (s : Pool dm) (id : ℕ) → IsReady dm s → IsReady dm (flush_page dm id s).1
  flush_page-IsReady s id ready =
      let k = flush_page-StaysPut s id in
      let (f, spare) = ready.spare in
      record {
        coherent = (flush_page-both dm s id ready.coherent).0.coherent;
        can_pin = λ g. omega (arith, k.pins g, ready.can_pin g);
        spare = (
          f,
          elim spare [
            | inl (inside, free) ↦ inl (omega (arith, inside, k.size), k.ids f ∙ free)
            | inr (idle, listed) ↦ inr (k.pins f ∙ idle, rw k.list listed)
          ],
        );
      }

  -- Over a disk that does not fail, a pool that is ready is so after `allocate_page` has found a page.
  pub allocate_page-IsReady :
      (s : Pool dm) (id : ℕ)
      → Faultless dm
      → IsReady dm s
      → (allocate_page dm s).0 ≡ some id
      → IsReady dm (allocate_page dm s).1
  unfolding allocate_page visit store_bitmap
  allocate_page-IsReady s id sound ready e =
      let (f, fetched, found, stored) = allocate_in-some dm (fetch_page dm 1 s) id e in
      let mark = λ (p : Page). set_allocated p id in
      let step = visit dm 1 (λ p. true) mark s in
      let run =
        ap (λ (r : Option Page × Pool dm). (flush_page dm 1 r.1).1)
          (visited-some dm 1 f (λ p. true) mark (fetch_page dm 1 s) fetched) in
      let next = (visit-IsReady dm s 1 (λ p. true) mark sound ready (omega arith) (λ p k. cc)).0 in
      subst (IsReady dm) (run ∙ sym stored) (flush_page-IsReady step.1 1 next)
