-- ===== src/Transaction/Sound.antt =====
-- Every step keeps the manager sound; in which order transactions run, and when `execute` returns.
use advance_db.Prelude.{
  ℕ, ◌≤◌, ◌≡◌, refl, sym, ap, ◌∙◌, subst, true, false, Option, List, [], ◌∷◌, ◌++◌, ◌⊎◌, inl, inr,
  arith, append_assoc, Bool-cases, map, ◌==◌,
}
use advance_db.Transaction.Manager.{
  idle, stopped, working, absent, loaded, numbered, waiting, returned, Manager, load_number,
  store_number, enqueue, finish_execute, take_task, finish_task, Step, loads, stores, enqueues,
  takes, finishes, returns, shuts_down, stops, Reachable, starts, goes_on,
}
use advance_db.Transaction.Order.{
  elem, last, IsDistinct, IsAscending, busy, is_working, elem-snoc, IsDistinct-snoc, last-snoc,
  last-lt, elem-append, elem-map, map-other, map-append, history, is_entered, IsSound,
  new_manager-IsSound,
}

module _ (Exception : Type 0) (work : ℕ → Option Exception) where
  abbrev M : Type 0
  M = Manager Exception work

  -- The history grows at its end, and only where a transaction is enqueued.
  abbrev pub Grows : M → M → Type 0
  Grows m m' =
      (history Exception work m' ≡ history Exception work m)
      ⊎ ((n : ℕ) × (m.caller n ≡ numbered)
          × (history Exception work m' ≡ history Exception work m ++ n ∷ []))

  enqueue-history :
      (m : M) (n : ℕ)
      → history Exception work (enqueue Exception work n m) ≡ history Exception work m ++ n ∷ []
  unfolding enqueue
  enqueue-history m n =
      ap (λ l. m.ran ++ l) (sym (append_assoc (busy m.worker) m.queue (n ∷ [])))
      ∙ sym (append_assoc m.ran (busy m.worker ++ m.queue) (n ∷ []))

  take-history :
      (m : M) (n : ℕ) (rest : List ℕ)
      → m.worker ≡ idle
      → m.queue ≡ n ∷ rest
      → history Exception work (take_task Exception work n rest m) ≡ history Exception work m
  unfolding take_task
  take-history m n rest e f = rw (e, f) refl

  finish-history :
      (m : M) (n : ℕ)
      → m.worker ≡ working n
      → history Exception work (finish_task Exception work n m) ≡ history Exception work m
  unfolding finish_task
  finish-history m n e = rw e (append_assoc m.ran (n ∷ []) m.queue)

  stop-history :
      (m : M)
      → m.worker ≡ idle
      → history Exception work (record m { worker = stopped }) ≡ history Exception work m
  stop-history m e = rw e refl

  -- No step reorders, drops or repeats a transaction: what has run, then what is running, then the
  -- queue, taken together, stay as they are, or grow at the end by a transaction that its caller
  -- enqueues.
  pub Step-Grows : (m m' : M) → Step Exception work m m' → Grows m m'
  unfolding load_number store_number finish_execute
  Step-Grows m _ (loads _ n e) = inl refl
  Step-Grows m _ (stores _ n e) = inl refl
  Step-Grows m _ (enqueues _ n e) = inr (n, e, enqueue-history m n)
  Step-Grows m _ (takes _ n rest e f) = inl (take-history m n rest e f)
  Step-Grows m _ (finishes _ n e) = inl (finish-history m n e)
  Step-Grows m _ (returns _ n e h) = inl refl
  Step-Grows m _ (shuts_down _) = inl refl
  Step-Grows m _ (stops _ e f g) = inl (stop-history m e)

  abbrev S : M → Type 0
  S = IsSound Exception work

  load-IsSound : (m : M) (c : ℕ) → S m → m.caller c ≡ absent → S (load_number Exception work c m)
  unfolding load_number
  load-IsSound m c s e =
      let rest = busy m.worker ++ m.queue in
      let new : elem c m.ran ≡ false = ground (arith, elem-append c m.ran rest, s.entered c, e) in
      record {
        entered = λ i. ground (arith, e, s.entered i);
        distinct = s.distinct;
        completed =
            s.completed
            ∙ ap (last 0) (
                sym (
                  map-other m.number (load_number Exception work c m).number c m.ran
                    (λ i n. ground (arith, n)) new));
        busy_flag = s.busy_flag;
      }

  store-IsSound : (m : M) (c : ℕ) → S m → m.caller c ≡ loaded → S (store_number Exception work c m)
  unfolding store_number
  store-IsSound m c s e = record {
    entered = λ i. ground (arith, e, s.entered i);
    distinct = s.distinct;
    completed = s.completed;
    busy_flag = s.busy_flag;
  }

  enqueue-IsSound : (m : M) (n : ℕ) → S m → m.caller n ≡ numbered → S (enqueue Exception work n m)
  unfolding enqueue
  enqueue-IsSound m n s e =
      let old = history Exception work m in
      let fresh : elem n old ≡ false = s.entered n ∙ ap (is_entered Exception work) e in
      let longer = enqueue-history m n in
      record {
        entered = λ i. ap (elem i) longer ∙ elem-snoc i n old ∙ ground (arith, s.entered i);
        distinct = subst IsDistinct (sym longer) (IsDistinct-snoc n old s.distinct fresh);
        completed = s.completed;
        busy_flag = s.busy_flag;
      }

  take-IsSound :
      (m : M) (n : ℕ) (rest : List ℕ)
      → S m
      → m.worker ≡ idle
      → m.queue ≡ n ∷ rest
      → S (take_task Exception work n rest m)
  unfolding take_task
  take-IsSound m n rest s e f =
      let same = take-history m n rest e f in
      record {
        entered = λ i. ap (elem i) same ∙ s.entered i;
        distinct = subst IsDistinct (sym same) s.distinct;
        completed = s.completed;
        busy_flag = refl;
      }

  finish-IsSound : (m : M) (n : ℕ) → S m → m.worker ≡ working n → S (finish_task Exception work n m)
  unfolding finish_task
  finish-IsSound m n s e =
      let same = finish-history m n e in
      record {
        entered = λ i. ap (elem i) same ∙ s.entered i;
        distinct = subst IsDistinct (sym same) s.distinct;
        completed = sym (
            ap (last 0) (map-append m.number m.ran (n ∷ []))
            ∙ last-snoc 0 (m.number n) (map m.number m.ran));
        busy_flag = refl;
      }

  return-IsSound :
      (m : M) (n : ℕ) → S m → m.caller n ≡ waiting → S (finish_execute Exception work n m)
  unfolding finish_execute
  return-IsSound m n s e = record {
    entered = λ i. ground (arith, e, s.entered i);
    distinct = s.distinct;
    completed = s.completed;
    busy_flag = s.busy_flag;
  }

  stop-IsSound : (m : M) → S m → m.worker ≡ idle → S (record m { worker = stopped })
  stop-IsSound m s e =
      let same = stop-history m e in
      record {
        entered = λ i. ap (elem i) same ∙ s.entered i;
        distinct = subst IsDistinct (sym same) s.distinct;
        completed = s.completed;
        busy_flag = s.busy_flag ∙ ap is_working e;
      }

  Step-IsSound : (m m' : M) → Step Exception work m m' → S m → S m'
  Step-IsSound m _ (loads _ c e) s = load-IsSound m c s e
  Step-IsSound m _ (stores _ c e) s = store-IsSound m c s e
  Step-IsSound m _ (enqueues _ c e) s = enqueue-IsSound m c s e
  Step-IsSound m _ (takes _ c rest e f) s = take-IsSound m c rest s e f
  Step-IsSound m _ (finishes _ c e) s = finish-IsSound m c s e
  Step-IsSound m _ (returns _ c e k) s = return-IsSound m c s e
  Step-IsSound m _ (shuts_down _) s = record {
    entered = s.entered;
    distinct = s.distinct;
    completed = s.completed;
    busy_flag = s.busy_flag;
  }
  Step-IsSound m _ (stops _ e f g) s = stop-IsSound m s e

  -- In every state that the calls and the worker can reach, the manager is sound, even where two
  -- calls got one number: each call that has enqueued its transaction, and no other, is exactly once
  -- among what has run, what is running and what is queued; the completed number is that of the
  -- last one that has run; the running flag tells whether the worker works.
  pub Reachable-IsSound : (m : M) → Reachable Exception work m → IsSound Exception work m
  Reachable-IsSound _ starts = new_manager-IsSound Exception work
  Reachable-IsSound _ (goes_on m m' r t) = Step-IsSound m m' t (Reachable-IsSound m r)

  -- The numbers of what was enqueued are positive and go up in the order of the queue.
  abbrev pub IsOrdered : M → Type 0
  IsOrdered m = IsAscending (0 ∷ map m.number (history Exception work m))

  completed-ran :
      (m : M) (c : ℕ)
      → S m
      → IsOrdered m
      → m.caller c ≡ waiting
      → m.number c ≤ m.completed_txn_id
      → elem c m.ran ≡ true
  completed-ran m c s up e k =
      let there : elem c (history Exception work m) ≡ true =
        s.entered c ∙ ap (is_entered Exception work) e in
      let rest = busy m.worker ++ m.queue in
      let up' = subst (λ ns. IsAscending (0 ∷ ns)) (map-append m.number m.ran rest) up in
      elim (Bool-cases (elem c rest)) [
        | inl late ↦ absurd (
            omega (
              arith,
              k,
              s.completed,
              last-lt 0 (m.number c) (map m.number m.ran) (map m.number rest) up'
                  (elem-map m.number c rest late),
            ))
        | inr early ↦ ground (arith, there, elem-append c m.ran rest, early)
      ]

  -- The end of the wait is what its condition allows.
  returned-number :
      (m m' : M) (c : ℕ) (e : Option Exception)
      → Step Exception work m m'
      → m.caller c ≡ waiting
      → m'.caller c ≡ returned e
      → m.number c ≤ m.completed_txn_id
  unfolding load_number store_number enqueue take_task finish_task finish_execute
  returned-number m _ c e (loads _ x h) w b = absurd (ground (arith, w, b))
  returned-number m _ c e (stores _ x h) w b = absurd (ground (arith, w, b))
  returned-number m _ c e (enqueues _ x h) w b = absurd (ground (arith, w, b))
  returned-number m _ c e (takes _ x rest h k) w b = absurd (ground (arith, w, b))
  returned-number m _ c e (finishes _ x h) w b = absurd (ground (arith, w, b))
  returned-number m _ c e (returns _ x h k) w b = elim (Bool-cases (c == x)) [
    | inl here ↦ let same : c ≡ x = ground arith in rw same k
    | inr other ↦ absurd (ground (arith, other, w, b))
  ]
  returned-number m _ c e (shuts_down _) w b = absurd (ground (arith, w, b))
  returned-number m _ c e (stops _ h k l) w b = absurd (ground (arith, w, b))

  -- When a step takes a call of `execute` from its wait to its return, in a reachable state in which
  -- the numbers of what was enqueued are positive and go up in the order of the queue, the worker
  -- has run the call's function.
  pub wait-ran :
      (m m' : M) (c : ℕ) (e : Option Exception)
      → Reachable Exception work m
      → IsOrdered m
      → Step Exception work m m'
      → m.caller c ≡ waiting
      → m'.caller c ≡ returned e
      → elem c m.ran ≡ true
  wait-ran m m' c e r up step w back =
      completed-ran m c (Reachable-IsSound m r) up w (returned-number m m' c e step w back)
