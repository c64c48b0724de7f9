-- ===== src/Executor/Pipeline.antt =====
-- The iterators compute what a plan means: each row of the base table, in order, goes through the
-- plan's filters and projections.
use advance_db.Prelude.{
  ℕ, zero, suc, ◌+◌, ◌<◌, ◌≤◌, ◌≡◌, refl, sym, ◌∙◌, subst, true, false, Option, none, some, List,
  [], ◌∷◌, String, length, get_elem?, drop, arith, inl, inr, if◌then◌else◌, Result, ok, ◌>>=◌,
  Result-cases, bind_assoc,
}
use advance_db.Planner.Plan.{Expr}
use advance_db.Executor.Evaluator.{Tuple, evaluate_predicate}
use advance_db.Executor.Iterator.{
  Storage, rows, Executor, scan_executor, filter_executor, project_executor, ExecError, lift,
  project_row, projected, next, pull, depth, base_table,
}

abbrev pub Outcome : Type 0
Outcome = Result ExecError (Option Tuple)

-- One row of the base table, sent through the nodes.
abbrev pub kept : Expr → List String → Option Tuple → Outcome
kept predicate columns none = ok none
kept predicate columns (some t) =
    lift (evaluate_predicate predicate t columns) >>= λ b. ok (if b then some t else none)

abbrev pub mapped : List Expr → List String → Option Tuple → Outcome
mapped projections columns none = ok none
mapped projections columns (some t) =
    lift (project_row projections t columns) >>= λ out. ok (some out)

abbrev pub row : Executor → Tuple → Outcome
row (scan_executor table cursor) t = ok (some t)
row (filter_executor child predicate columns) t = row child t >>= kept predicate columns
row (project_executor child projections columns) t = row child t >>= mapped projections columns

-- The results of all rows, in order, up to the first exception.
abbrev pub run_rows : (Tuple → Outcome) → List Tuple → Result ExecError (List Tuple)
run_rows f [] = ok []
run_rows f (t ∷ ts) =
    f t >>= λ o. elim o [ none ↦ run_rows f ts | some u ↦ run_rows f ts >>= λ us. ok (u ∷ us) ]

abbrev pub at : Executor → ℕ → Executor
at (scan_executor table cursor) c = scan_executor table c
at (filter_executor child predicate columns) c = filter_executor (at child c) predicate columns
at (project_executor child projections columns) c =
    project_executor (at child c) projections columns

abbrev Found : Type 0
Found = Option Tuple × ℕ

-- The first row that gets through, and the cursor behind it.
abbrev first : (Tuple → Outcome) → List Tuple → ℕ → Result ExecError Found
first f [] c = ok (none, c)
first f (t ∷ ts) c = f t >>= λ o. elim o [ none ↦ first f ts (c + 1) | some u ↦ ok (some u, c + 1) ]

drop_suc :
    {A : Type 0} (xs ts : List A) (t : A) (c : ℕ)
    → drop c xs ≡ t ∷ ts
    → (drop (c + 1) xs ≡ ts) × (get_elem? xs c ≡ some t)
drop_suc [] ts t zero e = absurd (ground (arith, e))
drop_suc [] ts t (suc c) e = absurd (ground (arith, e))
drop_suc (x ∷ xs) ts t zero e = (ground (arith, e), ground (arith, e))
drop_suc (x ∷ xs) ts t (suc c) e =
    let next_c : suc (c + 1) ≡ suc c + 1 = omega arith in
    subst (λ k. (drop k (x ∷ xs) ≡ ts) × (get_elem? (x ∷ xs) (suc c) ≡ some t)) next_c
      (drop_suc xs ts t c e)

get-drop_nil : {A : Type 0} (xs : List A) (c : ℕ) → drop c xs ≡ [] → get_elem? xs c ≡ none
get-drop_nil [] c e = refl
get-drop_nil (x ∷ xs) zero e = absurd (ground (arith, e))
get-drop_nil (x ∷ xs) (suc c) e = get-drop_nil xs c e

-- What goes on after the first row that gets through, as a recursion on the rows `table` has left.
first-fold :
    {X : Type 0} (f : Tuple → Outcome) (k : Found → Result ExecError X)
    (g : List Tuple → ℕ → Result ExecError X) (table : List Tuple) (n : ℕ)
    → ((c : ℕ) → g [] c ≡ k (none, c))
    → ((t : Tuple) (ts : List Tuple) (c : ℕ)
        → drop c table ≡ t ∷ ts
        → length ts < n
        → g (t ∷ ts) c ≡ (f t >>= λ o. elim o [ none ↦ g ts (c + 1) | some u ↦ k (some u, c + 1) ]))
    → (ts : List Tuple) (c : ℕ) → drop c table ≡ ts
    → length ts ≤ n
    → (first f ts c >>= k) ≡ g ts c
first-fold f k g table n end step [] c e h = sym (end c)
first-fold f k g table n end step (t ∷ ts) c e h =
    let later =
      first-fold f k g table n end step ts (c + 1) (drop_suc table ts t c e).0 (omega (arith, h)) in
    let here = step t ts c e (omega (arith, h)) in
    elim (Result-cases (f t)) [
      | inr (bad, raised) ↦ rw here (rw raised refl)
      | inl (none, gone) ↦ rw here (rw gone later)
      | inl (some u, got) ↦ rw here (rw got refl)
    ]

module _ (storage : Storage) where
  -- The result of `next` from what the rows give.
  abbrev moved : Executor → Found → Result ExecError (Option Tuple × Executor)
  moved e (o, c) = ok (o, at e c)

  abbrev Computes : ℕ → Executor → Type 0
  Computes fuel e =
      (ts : List Tuple) (c : ℕ)
      → drop c (rows storage (base_table e)) ≡ ts
      → depth e + length ts < fuel
      → next fuel storage (at e c) ≡ (first (row e) ts c >>= moved e)

  -- The rest of a filter's `next`, behind its child's.
  abbrev filtered :
      ℕ → Expr → List String → Option Tuple × Executor → Result ExecError (Option Tuple × Executor)
  filtered fuel predicate columns (found, child) = elim found [
    | none ↦ ok (none, filter_executor child predicate columns)
    | some t ↦ lift (evaluate_predicate predicate t columns) >>= λ passes. elim passes [
      | true ↦ ok (some t, filter_executor child predicate columns)
      | false ↦ next fuel storage (filter_executor child predicate columns)
    ]
  ]

  next-first : (fuel : ℕ) (e : Executor) → Computes fuel e
  unfolding next
  next-first zero e ts c d h = absurd (omega (arith, h))
  next-first (suc fuel) (scan_executor table k) [] c d h =
      let gone = get-drop_nil (rows storage table) c d in rw (gone, next) refl
  next-first (suc fuel) (scan_executor table k) (t ∷ ts) c d h =
      let got = (drop_suc (rows storage table) ts t c d).1 in rw (got, next) refl
  next-first (suc fuel) (project_executor child projections columns) ts c d h =
      let e = project_executor child projections columns in
      let below = next-first fuel child ts c d (omega (arith, h)) in
      rw (below, next)
        (bind_assoc (first (row child) ts c) (moved child) (projected projections columns)
          ∙ first-fold (row child) (λ x. moved child x >>= projected projections columns)
              (λ us k. first (row e) us k >>= moved e) (rows storage (base_table child)) (length ts)
              (λ k. refl)
              (λ t us k i j. elim (Result-cases (row child t)) [
                | inr (bad, raised) ↦ rw raised refl
                | inl (none, gone) ↦ rw gone refl
                | inl (some u, got) ↦
                    rw got (elim (Result-cases (project_row projections u columns)) [
                      | inr (bad, raised) ↦ rw raised refl
                      | inl (out, made) ↦ rw made refl
                    ])
              ])
              ts c d (omega arith))
  next-first (suc fuel) (filter_executor child predicate columns) ts c d h =
      let e = filter_executor child predicate columns in
      let below = next-first fuel child ts c d (omega (arith, h)) in
      rw (below, next)
        (bind_assoc (first (row child) ts c) (moved child) (filtered fuel predicate columns)
          ∙ first-fold (row child) (λ x. moved child x >>= filtered fuel predicate columns)
              (λ us k. first (row e) us k >>= moved e) (rows storage (base_table child)) (length ts)
              (λ k. refl)
              (λ t us k i j.
                let again =
                  next-first fuel e us (k + 1)
                    (drop_suc (rows storage (base_table child)) us t k i).0 (omega (arith, h, j)) in
                elim (Result-cases (row child t)) [
                  | inr (bad, raised) ↦ rw raised refl
                  | inl (none, gone) ↦ rw gone refl
                  | inl (some u, got) ↦
                      rw got (elim (Result-cases (evaluate_predicate predicate u columns)) [
                        | inr (bad, raised) ↦ rw raised refl
                        | inl (true, passes) ↦ rw passes refl
                        | inl (false, fails) ↦ rw fails (sym again)
                      ])
                ])
              ts c d (omega arith))

  abbrev gathered : ℕ → ℕ → Option Tuple × Executor → Result ExecError (List Tuple)
  gathered fuel rounds (found, e) = elim found [
    | none ↦ ok []
    | some t ↦ pull fuel rounds storage e >>= λ results. ok (t ∷ results)
  ]

  pub pull-run_rows :
      (fuel rounds : ℕ) (e : Executor) (ts : List Tuple) (c : ℕ)
      → drop c (rows storage (base_table e)) ≡ ts
      → depth e + length ts < fuel
      → length ts < rounds
      → pull fuel rounds storage (at e c) ≡ run_rows (row e) ts
  unfolding pull
  pull-run_rows fuel zero e ts c d h k = absurd (omega (arith, k))
  pull-run_rows fuel (suc rounds) e ts c d h k =
      rw (next-first fuel e ts c d h, pull)
        (bind_assoc (first (row e) ts c) (moved e) (gathered fuel rounds)
          ∙ first-fold (row e) (λ x. moved e x >>= gathered fuel rounds)
              (λ us i. run_rows (row e) us) (rows storage (base_table e)) (length ts) (λ i. refl)
              (λ t us i j l.
                let more =
                  pull-run_rows fuel rounds e us (i + 1)
                    (drop_suc (rows storage (base_table e)) us t i j).0 (omega (arith, h, l))
                    (omega (arith, k, l)) in
                elim (Result-cases (row e t)) [
                  | inr (bad, raised) ↦ rw raised refl
                  | inl (none, gone) ↦ rw gone refl
                  | inl (some u, got) ↦ rw got (rw more refl)
                ])
              ts c d (omega arith))
