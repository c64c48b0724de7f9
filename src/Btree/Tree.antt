-- ===== src/Btree/Tree.antt =====
-- When the pages below an id form a tree, and the entries that the tree has in key order.
use advance_db.Prelude.{
  ℕ, zero, suc, ◌≡◌, ◌≢◌, refl, sym, ◌∙◌, Option, none, some, List, [], ◌∷◌, ◌++◌, Ordering, arith,
  true, ◌⊎◌, inl, inr, subst, Mem, mem-append_left, mem-append_right, mem-cons_self,
  mem-cons_of_mem,
}
use advance_db.Page.PageHeader.{Page, leftmost_child}
use advance_db.Record.Compare.{lex, lex_trans, lex-flip, eq_of_lex}
use advance_db.Record.Sorted.{Key, Entry, find}
use advance_db.Record.View.{IsPage, view}
use advance_db.Btree.Handle.{is_leaf}
use advance_db.Btree.InternalView.{IsChild, IsInternal, Separator, internal_view}

-- The keys are below the separator.
abbrev pub AllBefore : Key → List Entry → Type 0
AllBefore k [] = Unit
AllBefore k (e ∷ es) = (lex e.0 k ≡ Ordering.lt) × AllBefore k es

-- The keys are the separator or above it.
abbrev pub AllFrom : Key → List Entry → Type 0
AllFrom k [] = Unit
AllFrom k (e ∷ es) = (lex e.0 k ≢ Ordering.lt) × AllFrom k es

-- The subtrees of a page have the pages `ids` and the entries `es`, divided at the separators.
abbrev pub AreSubtrees :
    (ℕ → List ℕ → List Entry → Type 0) → ℕ → List Separator → List ℕ → List Entry → Type 0
AreSubtrees T left [] ids es = T left ids es
AreSubtrees T left (e ∷ seps) ids es =
    (is : List ℕ) × (js : List ℕ) × (xs : List Entry) × (ys : List Entry) × (ids ≡ is ++ js)
    × (es ≡ xs ++ ys)
    × T left is xs
    × AllBefore e.0 xs
    × AllFrom e.0 ys
    × IsChild e.1
    × AreSubtrees T e.1 seps js ys

-- A tree of `height` levels of internal pages over the leaves, where `read` is what the ids read
-- as: its pages are `ids`, its entries `es`. Every leaf is at the same depth.
abbrev pub IsTree : (ℕ → Option Page) → ℕ → ℕ → List ℕ → List Entry → Type 0
IsTree read zero id ids es =
    (p : Page) × (ids ≡ id ∷ [])
    × (read id ≡ some p)
    × (is_leaf p ≡ true)
    × IsPage p
    × (view p ≡ es)
IsTree read (suc height) id ids es =
    (p : Page) × (below : List ℕ) × (ids ≡ id ∷ below)
    × (read id ≡ some p)
    × IsInternal p
    × AreSubtrees (IsTree read height) (leftmost_child p) (internal_view p) below es

pub lt_of_ge : (a b k : Key) → lex a b ≡ Ordering.lt → lex k b ≢ Ordering.lt → lex a k ≡ Ordering.lt
lt_of_ge a b k h n = ground (arith, lex_trans a b k, lex-flip k b, eq_of_lex k b)

pub gt_of_ge : (a b k : Key) → lex k b ≡ Ordering.lt → lex a b ≢ Ordering.lt → lex a k ≡ Ordering.gt
gt_of_ge a b k h n = ground (arith, lt_of_ge k b a h n, lex-flip k a)

-- A key at a separator or above it is not to the left of it, and one below it not to the right.
pub find-right :
    (k j : Key) (xs ys : List Entry)
    → lex k j ≢ Ordering.lt
    → AllBefore j xs
    → find k (xs ++ ys) ≡ find k ys
unfolding find
find-right k j [] ys n b = refl
find-right k j (x ∷ xs) ys n b = ground (arith, find-right k j xs ys n b.1, lt_of_ge x.0 j k b.0 n)

find-none : (k j : Key) (ys : List Entry) → lex k j ≡ Ordering.lt → AllFrom j ys → find k ys ≡ none
unfolding find
find-none k j [] h f = refl
find-none k j (y ∷ ys) h f = ground (arith, gt_of_ge y.0 j k h f.0)

pub find-left :
    (k j : Key) (xs ys : List Entry)
    → lex k j ≡ Ordering.lt
    → AllFrom j ys
    → find k (xs ++ ys) ≡ find k xs
unfolding find
find-left k j [] ys h f = find-none k j ys h f
find-left k j (x ∷ xs) ys h f = ground (arith, find-left k j xs ys h f)

pub order-cases : (o : Ordering) → (o ≡ Ordering.lt) ⊎ ((o ≡ Ordering.eq) ⊎ (o ≡ Ordering.gt))
order-cases Ordering.lt = inl refl
order-cases Ordering.eq = inr (inl refl)
order-cases Ordering.gt = inr (inr refl)

-- The tree stays where its pages do.
pub AreSubtrees-map :
    (T T' : ℕ → List ℕ → List Entry → Type 0) (left : ℕ) (seps : List Separator) (ids : List ℕ)
    (es : List Entry)
    → ((id : ℕ) (is : List ℕ) (xs : List Entry)
        → ((j : ℕ) → Mem j is → Mem j ids)
        → T id is xs
        → T' id is xs)
    → AreSubtrees T left seps ids es
    → AreSubtrees T' left seps ids es
AreSubtrees-map T T' left [] ids es f t = f left ids es (λ j m. m) t
AreSubtrees-map T T' left (e ∷ seps) ids es f
      (is, js, xs, ys, parted, split, t, before, from, d, rest) =
    (
      is,
      js,
      xs,
      ys,
      parted,
      split,
      f left is xs (λ j m. subst (Mem j) (sym parted) (mem-append_left js m)) t,
      before,
      from,
      d,
      AreSubtrees-map T T' e.1 seps js ys
          (λ id ks zs among.
            f id ks zs (λ j m. subst (Mem j) (sym parted) (mem-append_right is (among j m))))
          rest,
    )

pub IsTree-same :
    (read read' : ℕ → Option Page) (height id : ℕ) (ids : List ℕ) (es : List Entry)
    → ((j : ℕ) → Mem j ids → read' j ≡ read j)
    → IsTree read height id ids es
    → IsTree read' height id ids es
IsTree-same read read' zero id ids es same (p, listed, e, l, v, s) =
    (p, listed, same id (subst (Mem id) (sym listed) mem-cons_self) ∙ e, l, v, s)
IsTree-same read read' (suc height) id ids es same (p, below, listed, e, v, t) = (
  p,
  below,
  listed,
  same id (subst (Mem id) (sym listed) mem-cons_self) ∙ e,
  v,
  AreSubtrees-map (IsTree read height) (IsTree read' height) (leftmost_child p) (internal_view p)
      below es
      (λ j is xs among.
        IsTree-same read read' height j is xs
          (λ k m. same k (subst (Mem k) (sym listed) (mem-cons_of_mem id (among k m)))))
      t,
)
