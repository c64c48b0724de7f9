-- ===== src/Table/Marks.antt =====
-- What allocating a page does to the bitmap and to the rest of the file.
use advance_db.Prelude.{
  not, ◌&&◌, ℕ, zero, suc, ◌+◌, ◌<◌, ◌≤◌, ◌≡◌, ◌≢◌, refl, sym, ap, subst, ◌∙◌, true, false, Option,
  none, some, arith, ◌==◌, ◌||◌,
}
use advance_db.Page.PageHeader.{Page}
use advance_db.BufferPool.Disk.{DiskManager, disk_pages}
use advance_db.BufferPool.Pool.{Pool, fetch_page, unpin_page, unpin_frame, delete_page}
use advance_db.BufferPool.Coherence.{content, IsCoherent, CanPin}
use advance_db.BufferPool.Fetch.{fetch_page-Keeps, fetch_page-Holds}
use advance_db.BufferPool.Flush.{flush_page-both}
use advance_db.BufferPool.NewPage.{delete_page-KeepsOthers}
use advance_db.BufferPool.Visit.{set_page}
use advance_db.Table.Bits.{
  is_allocated, set_allocated, clear_allocated, is_allocated-set_allocated,
  is_allocated-clear_allocated,
}
use advance_db.Table.Allocation.{
  bitmap_bits, find_free, store_bitmap, mark_free, allocate_in, allocate_page, free_in, free_page,
}

some_eq : {a b : Page} → some a ≡ some b → a ≡ b
some_eq e = cc

find_free-clear :
    (p : Page) (n i j : ℕ)
    → find_free p n i ≡ some j
    → (3 ≤ j) × (j < i + n) × (is_allocated p j ≡ false)
unfolding find_free
find_free-clear p zero i j e = absurd (ground (arith, e))
find_free-clear p (suc n) i j e = ground (arith, e, find_free-clear p n (i + 1) j)

module _ (dm : DiskManager) where
  -- `t` is coherent, reads `p` as its bitmap, and every other page as `s` does.
  pub record Stores (p : Page) (s t : Pool dm) : Type 0 where
    pub coherent : IsCoherent dm t
    pub bitmap : content dm t 1 ≡ some p
    pub same : (j : ℕ) → j < disk_pages → j ≢ 1 → content dm t j ≡ content dm s j

  -- `t` is coherent, reads `p` as its bitmap, and every page but that and `id` as `s` does.
  pub record Frees (id : ℕ) (p : Page) (s t : Pool dm) : Type 0 where
    pub coherent : IsCoherent dm t
    pub bitmap : content dm t 1 ≡ some p
    pub same : (j : ℕ) → j < disk_pages → j ≢ 1 → j ≢ id → content dm t j ≡ content dm s j

  unpinned-Stores :
      (s : Pool dm) (f : ℕ) (p : Page)
      → IsCoherent dm s
      → s.page_table 1 ≡ some f
      → 0 < (s.frames f).pin_count
      → Stores p s (unpin_frame dm f true (set_page dm f p s)).1
  unfolding set_page unpin_frame
  unpinned-Stores s f p c e pinned =
      let here = c.in_frame 1 f e in
      record {
        coherent = record {
          in_frame = λ i g k. ground (arith, k, pinned, c.in_frame i g);
          in_range = λ i g k. ground (arith, k, pinned, c.in_range i g);
          in_table = λ g v. ground (arith, v, pinned, c.in_table g);
          free_unpinned = λ g k. ground (arith, k, pinned, here, c.free_unpinned g);
          clean = λ g v k. ground (arith, v, k, pinned, c.clean g);
        };
        bitmap = ground (arith, e, pinned);
        same = λ j h n. ground (arith, e, here, pinned, c.in_frame j f);
      }

  store_bitmap-Stores :
      (s : Pool dm) (f : ℕ) (p : Page)
      → IsCoherent dm s
      → s.page_table 1 ≡ some f
      → 0 < (s.frames f).pin_count
      → Stores p s (store_bitmap dm f p s)
  unfolding store_bitmap unpin_page set_page
  store_bitmap-Stores s f p c e pinned =
      let u = unpinned-Stores s f p c e pinned in
      let there : (set_page dm f p s).page_table 1 ≡ some f = e in
      rw (there, store_bitmap, unpin_page)
        (let k =
            (flush_page-both dm (unpin_frame dm f true (set_page dm f p s)).1 1 u.coherent).0 in
          record {
            coherent = k.coherent;
            bitmap = k.same 1 (omega arith) ∙ u.bitmap;
            same = λ j h n. k.same j h ∙ u.same j h n;
          })

  mark_free-some :
      (f : ℕ) (s : Pool dm) (o : Option ℕ) (id : ℕ)
      → (mark_free dm f s o).0 ≡ some id
      → (o ≡ some id)
        × ((mark_free dm f s o).1 ≡ store_bitmap dm f (set_allocated (s.frames f).page id) s)
  unfolding mark_free
  mark_free-some f s none id e = absurd (ground (arith, e))
  mark_free-some f s (some j) id e =
      let same : j ≡ id = ground (arith, e) in
      (ground (arith, e), ap (λ k. store_bitmap dm f (set_allocated (s.frames f).page k) s) same)

  pub allocate_in-some :
      (r : Option ℕ × Pool dm) (id : ℕ)
      → (allocate_in dm r).0 ≡ some id
      → (f : ℕ) × (r.0 ≡ some f)
        × (find_free (r.1.frames f).page bitmap_bits 0 ≡ some id)
        × ((allocate_in dm r).1 ≡ store_bitmap dm f (set_allocated (r.1.frames f).page id) r.1)
  unfolding allocate_in
  allocate_in-some (none, s) id e = absurd (ground (arith, e))
  allocate_in-some (some f, s) id e =
      let (found, stored) = mark_free-some f s _ id e in (f, refl, found, stored)

  -- A page that is allocated has a bit in the bitmap.
  pub allocate_page-lt :
      (s : Pool dm) (id : ℕ) → (allocate_page dm s).0 ≡ some id → id < bitmap_bits
  unfolding allocate_page
  allocate_page-lt s id e =
      let (f, fetched, found, stored) = allocate_in-some (fetch_page dm 1 s) id e in
      let t = (fetch_page dm 1 s).1 in
      omega (arith, find_free-clear (t.frames f).page bitmap_bits 0 id found)

  -- When `allocate_page` of a coherent pool returns a page, where no pin count is at its 32-bit
  -- bound, it is a page of the bitmap above the first three that was free in the bitmap `p` and is
  -- marked in the new one, which marks the same other pages; every page but the bitmap reads as
  -- before, and the pool stays coherent, whether or not the bitmap could be written to the disk.
  pub allocate_page-marks :
      (s : Pool dm) (p : Page) (id : ℕ)
      → IsCoherent dm s
      → ((f : ℕ) → CanPin dm s f)
      → content dm s 1 ≡ some p
      → (allocate_page dm s).0 ≡ some id
      → (3 ≤ id)
        × (id < bitmap_bits)
        × (is_allocated p id ≡ false)
        × ((j : ℕ) → is_allocated (set_allocated p id) j ≡ (j == id || is_allocated p j))
        × Stores (set_allocated p id) s (allocate_page dm s).1
  unfolding allocate_page
  allocate_page-marks s p id c below read e =
      let (f, fetched, found, stored) = allocate_in-some (fetch_page dm 1 s) id e in
      let t = (fetch_page dm 1 s).1 in
      let keeps = fetch_page-Keeps dm s 1 c (omega arith) below in
      let (there, pinned, held) = fetch_page-Holds dm s 1 f c (omega arith) below fetched in
      let same : (t.frames f).page ≡ p = some_eq (sym held ∙ read) in
      let (three, inside, clear) = find_free-clear p bitmap_bits 0 id (rw⁻¹ same found) in
      let k = store_bitmap-Stores t f (set_allocated p id) keeps.coherent there pinned in
      let after = stored ∙ ap (λ q. store_bitmap dm f (set_allocated q id) t) same in
      (
        three,
        omega (arith, inside),
        clear,
        is_allocated-set_allocated p id,
        subst (λ u. Stores (set_allocated p id) s u) (sym after)
            (record {
              coherent = k.coherent;
              bitmap = k.bitmap;
              same = λ j h n. k.same j h n ∙ keeps.same j h;
            }),
      )

  free_in-some :
      (r : Option ℕ × Pool dm) (id f : ℕ)
      → r.0 ≡ some f
      → free_in dm id r
        ≡ (delete_page dm id (store_bitmap dm f (clear_allocated (r.1.frames f).page id) r.1)).1
  unfolding free_in
  free_in-some (none, s) id f e = absurd (ground (arith, e))
  free_in-some (some g, s) id f e =
      let same : g ≡ f = ground (arith, e) in
      ap (λ k. (delete_page dm id (store_bitmap dm k (clear_allocated (s.frames k).page id) s)).1)
        same

  -- When the bitmap `p` of a coherent pool can be fetched, where no pin count is at its 32-bit
  -- bound, `free_page` of a page of the bitmap other than the bitmap itself clears that page's
  -- mark and no other; every page but these two reads as before, and the pool stays coherent.
  pub free_page-clears :
      (s : Pool dm) (p : Page) (id f : ℕ)
      → id < bitmap_bits
      → IsCoherent dm s
      → ((g : ℕ) → CanPin dm s g)
      → content dm s 1 ≡ some p
      → id ≢ 1
      → (fetch_page dm 1 s).0 ≡ some f
      → Frees id (clear_allocated p id) s (free_page dm id s)
        × ((j : ℕ) → is_allocated (clear_allocated p id) j ≡ (not (j == id) && is_allocated p j))
  unfolding free_page
  free_page-clears s p id f inside c below read other fetched =
      let t = (fetch_page dm 1 s).1 in
      let keeps = fetch_page-Keeps dm s 1 c (omega arith) below in
      let (there, pinned, held) = fetch_page-Holds dm s 1 f c (omega arith) below fetched in
      let same : (t.frames f).page ≡ p = some_eq (sym held ∙ read) in
      let k = store_bitmap-Stores t f (clear_allocated p id) keeps.coherent there pinned in
      let d =
        delete_page-KeepsOthers dm (store_bitmap dm f (clear_allocated p id) t) id k.coherent in
      let after =
        free_in-some (fetch_page dm 1 s) id f fetched
        ∙ ap (λ q. (delete_page dm id (store_bitmap dm f (clear_allocated q id) t)).1) same in
      (
        subst (λ u. Frees id (clear_allocated p id) s u) (sym after)
            (record {
              coherent = d.coherent;
              bitmap = d.same 1 (omega arith) (λ e. other (sym e)) ∙ k.bitmap;
              same = λ j h n m. d.same j h m ∙ k.same j h n ∙ keeps.same j h;
            }),
        is_allocated-clear_allocated p id,
      )
