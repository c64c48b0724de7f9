-- ===== src/Btree/Reads.antt =====
-- What a descent reads: the pages stay as they are, and a round goes where the page says.
use advance_db.Prelude.{
  ℕ, suc, ◌<◌, ◌≡◌, refl, sym, ap, ◌∙◌, some, ◌==◌, arith, true, false, ok, Result, Bool-cases, inl,
  inr,
}
use advance_db.Page.PageHeader.{Page, leftmost_child}
use advance_db.BufferPool.Disk.{DiskManager, disk_pages}
use advance_db.BufferPool.Pool.{Pool}
use advance_db.BufferPool.Coherence.{content}
use advance_db.BufferPool.Counts.{Faultless}
use advance_db.BufferPool.Visit.{peek, after, visit-Writes}
use advance_db.BufferPool.Ready.{IsReady, visit-IsReady}
use advance_db.Record.Sorted.{Key}
use advance_db.Btree.Entry.{BtreeError}
use advance_db.Btree.InternalView.{IsInternal, IsChild, internal_view, child_for}
use advance_db.Btree.FindChild.{internal_find_child-child_for}
use advance_db.Btree.Handle.{is_leaf, Turn, arrived, onward, turn, descend}

pub turn-leaf : (key : Key) (p : Page) → is_leaf p ≡ true → turn key p ≡ ok arrived
unfolding turn
turn-leaf key p l = rw l refl

pub turn-internal :
    (key : Key) (p : Page)
    → IsInternal p
    → IsChild (child_for key (leftmost_child p) (internal_view p))
    → turn key p ≡ ok (onward (child_for key (leftmost_child p) (internal_view p)))
unfolding turn
turn-internal key p v c =
    let inner : is_leaf p ≡ false = ground (arith, v.level) in
    rw (inner, internal_find_child-child_for p key v) (ground (arith, c.positive, c.below))

module _ (dm : DiskManager) where
  -- `t` is ready and every page reads as in `s`.
  pub record Reads (s t : Pool dm) : Type 0 where
    pub ready : IsReady dm t
    pub same : (j : ℕ) → j < disk_pages → content dm t j ≡ content dm s j

  pub Reads-refl : (s : Pool dm) → IsReady dm s → Reads s s
  Reads-refl s ready = record { ready = ready; same = λ j h. refl }

  pub Reads-trans : (s t u : Pool dm) → Reads s t → Reads t u → Reads s u
  Reads-trans s t u k l = record { ready = l.ready; same = λ j h. l.same j h ∙ k.same j h }

  pub peek-Reads :
      (s : Pool dm) (id : ℕ)
      → Faultless dm
      → IsReady dm s
      → id < disk_pages
      → Reads s (peek dm id s).1
        × ((p : Page) × ((peek dm id s).0 ≡ some p) × (content dm s id ≡ some p))
  peek-Reads s id sound ready h =
      let (next, (p, got, read)) =
        visit-IsReady dm s id (λ q. false) (λ q. q) sound ready h (λ q e. refl) in
      let w =
        (visit-Writes dm s id (λ q. false) (λ q. q) ready.coherent ready.can_pin h
          (λ q e. refl)).0 in
      let here : content dm (peek dm id s).1 id ≡ content dm s id =
        w.here ∙ ap (after dm (λ q. q) (content dm s id)) got ∙ sym read in
      (
        record {
          ready = next;
          same = λ j i. elim (Bool-cases (j == id)) [
            | inl e ↦ let at : j ≡ id = ground arith in rw at here
            | inr n ↦ w.same j i (ground arith)
          ];
        },
        (p, got, read),
      )

  module _ (next : Page → Result BtreeError Turn) (rounds id : ℕ) (s : Pool dm) (p : Page)
      (got : (peek dm id s).0 ≡ some p) where
    pub descend-arrived :
        next p ≡ ok arrived
        → descend dm next (suc rounds) id s ≡ ok (some (id, p), (peek dm id s).1)
    unfolding descend
    descend-arrived e = rw (got, e, descend) refl

    pub descend-onward :
        (child : ℕ)
        → next p ≡ ok (onward child)
        → descend dm next (suc rounds) id s ≡ descend dm next rounds child (peek dm id s).1
    unfolding descend
    descend-onward child e = rw (got, e, descend) refl
