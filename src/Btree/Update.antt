-- ===== src/Btree/Update.antt =====
-- A change of the entries that only concerns one key is a change of the subtree that the key leads
-- to.
use advance_db.Prelude.{
  ℕ, ◌≡◌, ◌≢◌, refl, sym, ap, ◌∙◌, List, [], ◌∷◌, ◌++◌, Ordering, arith, inl, inr, subst, Mem,
  Nodup, Disjoint, Nodup-append, mem-append_left, mem-append_right,
}
use advance_db.Record.Compare.{lex}
use advance_db.Record.Sorted.{Key, Entry, find}
use advance_db.Btree.InternalView.{IsChild, Separator, child_for}
use advance_db.Btree.Tree.{
  AllBefore, AllFrom, AreSubtrees, AreSubtrees-map, find-right, find-left, order-cases,
}

-- The function leaves the entries on the other side of a separator alone.
pub record IsLocal (key : Key) (F : List Entry → List Entry) : Type 0 where
  pub right :
      (j : Key) (xs ys : List Entry)
      → lex key j ≢ Ordering.lt
      → AllBefore j xs
      → F (xs ++ ys) ≡ xs ++ F ys
  pub left :
      (j : Key) (xs ys : List Entry)
      → lex key j ≡ Ordering.lt
      → AllFrom j ys
      → F (xs ++ ys) ≡ F xs ++ ys
  pub before :
      (j : Key) (xs : List Entry) → lex key j ≡ Ordering.lt → AllBefore j xs → AllBefore j (F xs)
  pub from : (j : Key) (ys : List Entry) → lex key j ≢ Ordering.lt → AllFrom j ys → AllFrom j (F ys)

-- The subtree that `child_for` names has all that a lookup of the key can find, and its change is
-- the change of the whole.
pub record Leads (T : ℕ → List ℕ → List Entry → Type 0) (key : Key) (left : ℕ)
    (seps : List Separator) (ids : List ℕ) (es : List Entry) : Type 1 where
  pub child : IsChild (child_for key left seps)
  pub pages : List ℕ
  pub among : (j : ℕ) → Mem j pages → Mem j ids
  pub apart : Nodup pages
  pub below : List Entry
  pub subtree : T (child_for key left seps) pages below
  pub same : find key es ≡ find key below
  pub replace :
      (T' : ℕ → List ℕ → List Entry → Type 0) (F : List Entry → List Entry)
      → IsLocal key F
      → ((id : ℕ) (is : List ℕ) (xs : List Entry)
          → ((j : ℕ) → Mem j is → Mem j ids)
          → Disjoint is pages
          → T id is xs
          → T' id is xs)
      → T' (child_for key left seps) pages (F below)
      → AreSubtrees T' left seps ids (F es)

pub child_for-Leads :
    (T : ℕ → List ℕ → List Entry → Type 0) (key : Key) (left : ℕ) (seps : List Separator)
    (ids : List ℕ) (es : List Entry)
    → IsChild left
    → Nodup ids
    → AreSubtrees T left seps ids es
    → Leads T key left seps ids es
unfolding child_for
child_for-Leads T key left [] ids es c n t = record {
  child = c;
  pages = ids;
  among = λ j m. m;
  apart = n;
  below = es;
  subtree = t;
  same = refl;
  replace = λ T' F local keep t'. t';
}
child_for-Leads T key left (e ∷ seps) ids es c n
      (is, js, xs, ys, parted, split, t, before, from, d, rest) =
    let parts = Nodup-append.0 (subst Nodup parted n) in
    let in_left : (j : ℕ) → Mem j is → Mem j ids =
      λ j m. subst (Mem j) (sym parted) (mem-append_left js m) in
    let in_right : (j : ℕ) → Mem j js → Mem j ids =
      λ j m. subst (Mem j) (sym parted) (mem-append_right is m) in
    let go = child_for-Leads T key e.1 seps js ys d parts.1 rest in
    let onward : lex key e.0 ≢ Ordering.lt
        → child_for key left (e ∷ seps) ≡ child_for key e.1 seps
        → Leads T key left (e ∷ seps) ids es =
      λ ge at. record {
        child = rw at go.child;
        pages = go.pages;
        among = λ j m. in_right j (go.among j m);
        apart = go.apart;
        below = go.below;
        subtree = rw at go.subtree;
        same = ap (find key) split ∙ find-right key e.0 xs ys ge before ∙ go.same;
        replace = λ T' F local keep t'. (
          is,
          js,
          xs,
          F ys,
          parted,
          ap F split ∙ local.right e.0 xs ys ge before,
          keep left is xs in_left (λ j m k. parts.2 j m (go.among j k)) t,
          before,
          local.from e.0 ys ge from,
          d,
          go.replace T' F local
              (λ id ks zs among apart. keep id ks zs (λ j m. in_right j (among j m)) apart)
              (rw⁻¹ at t'),
        );
      } in
    let here : lex key e.0 ≡ Ordering.lt
        → child_for key left (e ∷ seps) ≡ left
        → Leads T key left (e ∷ seps) ids es =
      λ lt at. record {
        child = rw at c;
        pages = is;
        among = in_left;
        apart = parts.0;
        below = xs;
        subtree = rw at t;
        same = ap (find key) split ∙ find-left key e.0 xs ys lt from;
        replace = λ T' F local keep t'. (
          is,
          js,
          F xs,
          ys,
          parted,
          ap F split ∙ local.left e.0 xs ys lt from,
          rw⁻¹ at t',
          local.before e.0 xs lt before,
          from,
          d,
          AreSubtrees-map T T' e.1 seps js ys
              (λ id ks zs among.
                keep id ks zs (λ j m. in_right j (among j m)) (λ j m k. parts.2 j k (among j m)))
              rest,
        );
      } in
    elim (order-cases (lex key e.0)) [
      | inl lt ↦ here lt (rw (lt, child_for) refl)
      | inr (inl eq) ↦ onward (ground arith) (rw (eq, child_for) refl)
      | inr (inr gt) ↦ onward (ground arith) (rw (gt, child_for) refl)
    ]
