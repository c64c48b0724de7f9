-- ===== src/Btree/SplitPages.antt =====
-- The halves of a split: pages that `fill_leaf` made, with links, and the key between them.
use advance_db.Prelude.{
  ℕ, zero, suc, ◌+◌, ◌<◌, ◌≤◌, ◌≡◌, refl, sym, ap, ◌∙◌, subst, some, List, [], ◌∷◌, arith, length,
  get_elem?, take, drop, ok, ◌==◌, false, true, inl, ltb,
}
use advance_db.Bytes.Blocks.{Agree, Agree-trans, read_u16-Agree, length-slice}
use advance_db.Page.PageHeader.{
  Page, data_page, leaf, page_size, header_size, cell_count, page_id, parent_page_id, init_page,
}
use advance_db.Record.Cell.{record_header_size, key_size}
use advance_db.Record.Compare.{lex_refl, lex-flip}
use advance_db.Record.Sorted.{Key, Entry, keys, IsBelow, IsSorted, below-get}
use advance_db.Record.View.{
  view, key_at, offset_at, IsPage, IsRecord-offset_at, slot_key-eq, get-view, get-map,
}
use advance_db.Record.Frame.{Agree-shrink}
use advance_db.Record.Fresh.{init_page-fresh}
use advance_db.Btree.Handle.{is_leaf}
use advance_db.Btree.Tree.{AllBefore, AllFrom}
use advance_db.Btree.Split.{fill_leaf, first_key}
use advance_db.Btree.Fill.{Agree-write_u32, AllStored, Filled, empty_leaf}
use advance_db.Btree.SplitRead.{
  read_u32-write_u32, read_u32-lt, read_u32-Agree, IsPage-Agree, view-Agree,
}

pub take-AllStored : (n : ℕ) (es : List Entry) → AllStored es → AllStored (take n es)
take-AllStored zero es s = tt
take-AllStored (suc n) [] s = tt
take-AllStored (suc n) (e ∷ es) s = (s.0, take-AllStored n es s.1)

pub drop-AllStored : (n : ℕ) (es : List Entry) → AllStored es → AllStored (drop n es)
drop-AllStored zero es s = s
drop-AllStored (suc n) [] s = tt
drop-AllStored (suc n) (e ∷ es) s = drop-AllStored n es s.1

entry_eq : {a b : Entry} → some a ≡ some b → a ≡ b
entry_eq e = cc

AllFrom-IsBelow : (k : Key) (es : List Entry) → IsBelow k (keys es) → AllFrom k es
AllFrom-IsBelow k [] b = tt
AllFrom-IsBelow k (e ∷ es) b = (ground (arith, b.0, lex-flip k e.0), AllFrom-IsBelow k es b.1)

-- An entry's key divides the sorted entries where it stands.
pub take-AllBefore :
    (n : ℕ) (es : List Entry) (e : Entry)
    → IsSorted (keys es)
    → get_elem? es n ≡ some e
    → AllBefore e.0 (take n es)
take-AllBefore zero es e s g = tt
take-AllBefore (suc n) [] e s g = tt
take-AllBefore (suc n) (x ∷ es) e s g = (
  below-get x.0 e.0 (keys es) n s.0 (get-map (λ (y : Entry). y.0) es n e g),
  take-AllBefore n es e s.1 g,
)

pub drop-AllFrom :
    (n : ℕ) (es : List Entry) (e : Entry)
    → IsSorted (keys es)
    → get_elem? es n ≡ some e
    → AllFrom e.0 (drop n es)
drop-AllFrom n [] e s g = cc
drop-AllFrom zero (x ∷ es) e s g =
    let same : x ≡ e = entry_eq g in
    subst (λ y. AllFrom y.0 (x ∷ es)) same
      (ground (arith, lex_refl x.0), AllFrom-IsBelow x.0 es s.0)
drop-AllFrom (suc n) (x ∷ es) e s g = drop-AllFrom n es e s.1 g

pub get-drop : (n : ℕ) (es : List Entry) → get_elem? (drop n es) 0 ≡ get_elem? es n
get-drop zero es = refl
get-drop (suc n) [] = refl
get-drop (suc n) (x ∷ es) = get-drop n es

-- The keys are at most 256 bytes long.
abbrev pub AllShort : List Entry → Type 0
AllShort [] = Unit
AllShort (e ∷ es) = (length e.0 ≤ 256) × AllShort es

pub AllShort-get :
    (es : List Entry) (i : ℕ) (e : Entry) → AllShort es → get_elem? es i ≡ some e → length e.0 ≤ 256
AllShort-get [] i e a g = cc
AllShort-get (x ∷ es) zero e a g = ground (arith, a.0)
AllShort-get (x ∷ es) (suc i) e a g = AllShort-get es i e a.1 g

-- `q` is a leaf that `fill_leaf` made.
pub record IsHalf (id parent : ℕ) (rs : List Entry) (q : Page) : Type 0 where
  pub formed : IsPage q
  pub seen : view q ≡ rs
  pub leaf : is_leaf q ≡ true
  pub page_id_eq : page_id q ≡ id
  pub parent_eq : parent_page_id q ≡ parent

module _ (p : Page) (id : ℕ) (rs : List Entry) (small : id < 4294967296) where
  pub Filled-IsHalf :
      Filled (empty_leaf p id (parent_page_id p)) rs (fill_leaf p id (parent_page_id p) rs)
      → IsHalf id (parent_page_id p) rs (fill_leaf p id (parent_page_id p) rs)
  Filled-IsHalf k =
      let fresh = init_page-fresh p id data_page leaf small in
      let start = empty_leaf p id (parent_page_id p) in
      let head = Agree-trans k.before (
        Agree-write_u32 0 18 (init_page p id data_page leaf) 24 (parent_page_id p)
          (inl (omega arith))) in
      record {
        formed = k.formed;
        seen = k.seen;
        leaf = ground (arith, read_u16-Agree 6 head (omega arith) (omega arith), fresh.4);
        page_id_eq = read_u32-Agree 0 head (omega arith) (omega arith) ∙ fresh.2;
        parent_eq = omega (
          arith,
          read_u32-Agree 24 k.behind (omega arith) (omega arith),
          read_u32-write_u32 (init_page p id data_page leaf) 24 (parent_page_id p),
          read_u32-lt p 24,
        );
      }

-- The links do not touch the rest.
pub linked-IsHalf :
    (id parent : ℕ) (rs : List Entry) (p q : Page)
    → Agree 0 32 q p
    → Agree header_size page_size q p
    → IsHalf id parent rs p
    → IsHalf id parent rs q
linked-IsHalf id parent rs p q head body h =
    let counters = Agree-shrink 18 24 head (omega arith) (omega arith) in
    record {
      formed = IsPage-Agree p q counters body h.formed;
      seen = view-Agree p q counters body h.formed ∙ h.seen;
      leaf = ground (arith, read_u16-Agree 6 head (omega arith) (omega arith), h.leaf);
      page_id_eq = read_u32-Agree 0 head (omega arith) (omega arith) ∙ h.page_id_eq;
      parent_eq = read_u32-Agree 24 head (omega arith) (omega arith) ∙ h.parent_eq;
    }

pub first_key-eq :
    (q : Page) (e : Entry)
    → IsPage q
    → 0 < cell_count q
    → get_elem? (view q) 0 ≡ some e
    → length e.0 ≤ 256
    → first_key q ≡ ok e.0
unfolding first_key
first_key-eq q e v h got short =
    let k = key_at q (offset_at q 0) in
    let r = IsRecord-offset_at q v.framed v.placed 0 h in
    let same : k ≡ e.0 =
      ap (λ (x : Entry). x.0) (entry_eq (sym (get-view q v.framed v.placed 0 h) ∙ got)) in
    let filled : (length k == 0) ≡ false = ground (
      arith,
      r.keyed,
      length-slice q (offset_at q 0 + record_header_size) (key_size q (offset_at q 0)),
    ) in
    let bounded : ltb 256 (length k) ≡ false = rw same (ground arith) in
    rw (slot_key-eq q v.framed v.placed 0 h, filled, bounded, first_key) (ap ok same)
