-- ===== src/Table/Creation.antt =====
-- `create_table` and then `open_table`: the table is there, and it is empty.
use mathlib.Core.HLevel.{⊥_prop}
use mathlib.Core.Logic.{∥∥₁_elim}
use mathlib.Core.List.{Memᴰ, Pairwise}
use mathlib.Core.List.Memᴰ
use advance_db.Prelude.{
  ◌==◌, ◌≢◌, ℕ, ◌≡◌, refl, sym, ap, ◌∙◌, subst, Bool, true, false, Option, none, some, List, [],
  ◌∷◌, String, arith, ltb, Nodup, Nodup-cons, Mem, Bool-cases, inl, inr,
}
use advance_db.Page.PageHeader.{Page, root_page, meta, data_page, none_level, leaf, init_page}
use advance_db.Record.Fresh.{init_page-fresh}
use advance_db.BufferPool.Disk.{DiskManager}
use advance_db.BufferPool.Pool.{Pool, new_pool}
use advance_db.BufferPool.Coherence.{content, new_pool-IsCoherent}
use advance_db.BufferPool.Counts.{Faultless}
use advance_db.BufferPool.Visit.{peek}
use advance_db.BufferPool.Ready.{IsReady}
use advance_db.Btree.Handle.{is_leaf}
use advance_db.Btree.Split.{set_root_page}
use advance_db.Btree.Search.{HasTree}
use advance_db.Btree.Reads.{peek-Reads}
use advance_db.Table.Bits.{is_allocated}
use advance_db.Table.Files.{
  buffer_pool_size, table_path, data_directory, first_bitmap, first_pages, FileSystem, TableHandle,
  write_pages, write_file, make_file, create_table, retire, with_root, opened, open_table,
}
use advance_db.Table.Fresh.{
  first_bitmap-marks, first_root, HasFirstPages, write_pages-HasFirstPages,
}

page_eq : {a b : Page} → some a ≡ some b → a ≡ b
page_eq e = cc

not_other : (j : ℕ) → j ≢ 2 → ¬ Memᴰ j (2 ∷ [])
not_other j n (Memᴰ.head e) = n e
not_other j n (Memᴰ.tail m) = Memᴰ.not-nil m

only_root : (j : ℕ) → Mem j (2 ∷ []) → j ≡ 2
only_root j m = elim (Bool-cases (j == 2)) [
  | inl e ↦ ground arith
  | inr n ↦ absurd (∥∥₁_elim m ⊥_prop (not_other j (ground arith)))
]

root_apart : Nodup {A = ℕ} (2 ∷ [])
root_apart = Nodup-cons.1 (λ m. ∥∥₁_elim m ⊥_prop (λ k. Memᴰ.not-nil k), Pairwise.nil)

new_root-leaf : (old : Page) → is_leaf (init_page old 2 data_page leaf) ≡ true
new_root-leaf old =
    let (v, seen, i, t, level, a, b, c, d) = init_page-fresh old 2 data_page leaf (omega arith) in
    rw level refl

module _ (dm : DiskManager) where
  open dm use {Disk, read_page}

  -- The handle of an empty table: a tree without entries in a ready pool, and a bitmap in which
  -- pages 0 to 2 are marked and no other.
  pub record IsEmptyTable (name : String) (th : TableHandle dm) : Type 0 where
    pub named : th.table_name ≡ name
    pub stored : th.file_path ≡ table_path name
    pub pool : Pool dm
    pub here : th.bpm ≡ some pool
    pub ready : IsReady dm pool
    pub tree : HasTree dm (record { pool = pool; root_page = th.root_page }) []
    pub bitmap : Page
    pub read : content dm pool 1 ≡ some bitmap
    pub marks : (j : ℕ) → is_allocated bitmap j ≡ ltb j 3

  module _ (fs : FileSystem dm) where
    open fs use {State, stat, mkdir, open_file, flush, close, stat-close, open-close, flush-same}

    write_file-close :
        (path : String) (old : Page) (r : Option Disk × State)
        → (write_file dm fs path old r).0 ≡ true
        → (d : Disk) × (s : State) × ((write_file dm fs path old r).1 ≡ close path d s)
          × HasFirstPages dm old d
    unfolding write_file
    write_file-close path old (none, s) e = cc
    write_file-close path old (some d, s) e =
        let w = write_pages dm (first_pages old) d in
        elim (Bool-cases w.0) [
          | inr threw ↦ absurd (ground (arith, threw, e))
          | inl done ↦ (
            (flush w.1).1,
            s,
            rw done refl,
            subst (HasFirstPages dm old) (sym (flush-same w.1))
                (write_pages-HasFirstPages dm old d done),
          )
        ]

    make_file-close :
        (path : String) (old : Page) (r : Bool × State)
        → (make_file dm fs path old r).0 ≡ true
        → (d : Disk) × (s : State) × ((make_file dm fs path old r).1 ≡ close path d s)
          × HasFirstPages dm old d
    unfolding make_file
    make_file-close path old (false, s) e = cc
    make_file-close path old (true, s) e = write_file-close path old (open_file path s) e

    create_table-close :
        (name : String) (old : Page) (s : State)
        → (create_table dm fs name old s).0 ≡ true
        → (d : Disk) × (t : State) × ((create_table dm fs name old s).1
            ≡ close (table_path name) d t)
          × HasFirstPages dm old d
    unfolding create_table
    create_table-close name old s e = elim (Bool-cases (stat (table_path name) s)) [
      | inl there ↦ absurd (ground (arith, there, e))
      | inr new ↦
          rw (new, create_table)
            (make_file-close (table_path name) old (mkdir data_directory s)
              (ground (arith, new, e)))
    ]

    -- What the pool of a file with the first pages gives.
    fresh_pool-IsReady :
        (memory : Page) (d : Disk) → IsReady dm (new_pool dm buffer_pool_size memory d)
    unfolding new_pool
    fresh_pool-IsReady memory d = record {
      coherent = (new_pool-IsCoherent dm buffer_pool_size memory d).0;
      can_pin = λ f. omega arith;
      spare = (0, inl (omega arith, refl));
    }

    retire-none :
        (ids : List ℕ) (o : Option (Pool dm)) (d : Disk) → o ≡ none → retire dm fs ids o d ≡ d
    unfolding retire
    retire-none ids none d e = refl
    retire-none ids (some s) d e = cc

    opened-some :
        (ids : List ℕ) (memory : Page) (th : TableHandle dm) (r : Option Disk × State) (d : Disk)
        → r.0 ≡ some d
        → th.bpm ≡ none
        → (opened dm fs ids memory th r).0
          ≡ with_root dm fs th (peek dm 0 (new_pool dm buffer_pool_size memory d))
    unfolding opened
    opened-some ids memory th (none, s) d e n = cc
    opened-some ids memory th (some d', s) d e n =
        let same : d' ≡ d = ground (arith, e) in
        ap (λ x. with_root dm fs th (peek dm 0 (new_pool dm buffer_pool_size memory x)))
          (retire-none ids th.bpm d' n ∙ same)

    with_root-some :
        (th : TableHandle dm) (r : Option Page × Pool dm) (p : Page)
        → r.0 ≡ some p
        → with_root dm fs th r ≡ (true, record th { bpm = some r.1; root_page = root_page p })
    unfolding with_root
    with_root-some th (none, s) p e = cc
    with_root-some th (some q, s) p e =
        let same : q ≡ p = ground (arith, e) in
        ap (λ x. (true, record th { bpm = some s; root_page = root_page x })) same

    read_root-IsEmptyTable :
        (name : String) (old memory : Page) (th : TableHandle dm) (d : Disk)
        → Faultless dm
        → HasFirstPages dm old d
        → (let r =
              with_root dm fs
                (record th { table_name = name; file_path = table_path name })
                (peek dm 0 (new_pool dm buffer_pool_size memory d)) in
            (r.0 ≡ true) × IsEmptyTable name r.1)
    read_root-IsEmptyTable name old memory th d sound has =
        let pool = new_pool dm buffer_pool_size memory d in
        let reads = (new_pool-IsCoherent dm buffer_pool_size memory d).1 in
        let (k, (p, got, held)) =
          peek-Reads dm pool 0 sound (fresh_pool-IsReady memory d) (omega arith) in
        let at : set_root_page (init_page old 0 meta none_level) 2 ≡ p =
          page_eq (sym has.meta_page ∙ sym (reads 0) ∙ held) in
        let two : root_page p ≡ 2 = subst (λ q. root_page q ≡ 2) at (first_root old) in
        let (v, seen, i, t, l, a, b, c, e) = init_page-fresh old 2 data_page leaf (omega arith) in
        rw
          (
            with_root-some (record th { table_name = name; file_path = table_path name })
                (peek dm 0 pool) p got,
            two,
          )
          (
            refl,
            record {
              named = refl;
              stored = refl;
              pool = (peek dm 0 pool).1;
              here = refl;
              ready = k.ready;
              tree = record {
                root = record { positive = omega arith; below = omega arith };
                height = 0;
                enough = omega arith;
                pages = 2 ∷ [];
                inside = λ j m. let at = only_root j m in omega arith;
                apart = root_apart;
                formed = (
                  init_page old 2 data_page leaf,
                  refl,
                  k.same 2 (omega arith) ∙ reads 2 ∙ has.root,
                  new_root-leaf old,
                  v,
                  seen,
                );
              };
              bitmap = first_bitmap (init_page old 1 meta none_level);
              read = k.same 1 (omega arith) ∙ reads 1 ∙ has.bitmap;
              marks = first_bitmap-marks old;
            },
          )

    -- Over a disk that does not fail, when `create_table` returns true and the new file can be
    -- opened, `open_table` with a handle that has no pool yet returns true, and the handle is that
    -- of an empty table.
    pub open_table-create_table :
        (name : String) (old memory : Page) (ids : List ℕ) (th : TableHandle dm) (s : State)
        (d : Disk)
        → Faultless dm
        → th.bpm ≡ none
        → (create_table dm fs name old s).0 ≡ true
        → (open_file (table_path name) (create_table dm fs name old s).1).0 ≡ some d
        → (let r = open_table dm fs ids memory name th (create_table dm fs name old s).1 in
            (r.0.0 ≡ true) × IsEmptyTable name r.0.1)
    unfolding open_table
    open_table-create_table name old memory ids th s d sound closed done opens =
        let path = table_path name in
        let (d', t, at, has) = create_table-close name old s done in
        let same : d ≡ d' =
          open-close path d' d t (subst (λ u. (open_file path u).0 ≡ some d) at opens) in
        let there : stat path (create_table dm fs name old s).1 ≡ true =
          subst (λ u. stat path u ≡ true) (sym at) (stat-close path d' t) in
        let named = record th { table_name = name; file_path = path } in
        let run =
          opened-some ids memory named (open_file path (create_table dm fs name old s).1) d opens
            closed in
        rw (there, open_table, run)
          (read_root-IsEmptyTable name old memory th d sound
            (subst (HasFirstPages dm old) (sym same) has))
