-- ===== src/Transaction/Manager.antt =====
-- include/storage_new/transaction_manager.h and src/storage_new/transaction_manager.cpp: calls of
-- `execute`, and the worker thread. Each stretch of code under the mutex is one step. The increment
-- `next_txn_id_++`, which is outside it, is two: a read and a write, so that two calls can get one
-- number. A call is named by a number of the model's own, and stands for its function, which
-- returns or throws: `work`; `number` has the `txn_id` that the call got. `ran` is for the theorems
-- only: the calls whose functions the worker has run, in order.
use advance_db.Prelude.{
  ℕ, ◌+◌, ◌%◌, ◌≤◌, ◌≡◌, Bool, true, false, Option, none, some, List, [], ◌∷◌, ◌++◌, ◌==◌,
  if◌then◌else◌,
}

pub data Worker : Type 0 where
  idle stopped : Worker
  working : ℕ → Worker

module _ (Exception : Type 0) (work : ℕ → Option Exception) where
  -- How far a call of `execute` has come; `returned` has the exception it throws.
  pub data Caller : Type 0 where
    absent loaded numbered waiting : Caller
    returned : Option Exception → Caller

  pub record Manager : Type 0 where
    pub next_txn_id : ℕ
    pub completed_txn_id : ℕ
    pub running : Bool
    pub shutdown : Bool
    pub queue : List ℕ
    pub exception : Option Exception
    pub worker : Worker
    pub caller : ℕ → Caller
    pub number : ℕ → ℕ
    pub ran : List ℕ

  unfoldable pub new_manager : Manager
  new_manager = record {
    next_txn_id = 1;
    completed_txn_id = 0;
    running = false;
    shutdown = false;
    queue = [];
    exception = none;
    worker = idle;
    caller = λ c. absent;
    number = λ c. 0;
    ran = [];
  }

  abbrev pub set_caller : ℕ → Caller → Manager → Manager
  set_caller c x m = record m { caller = λ i. if i == c then x else m.caller i }

  -- Transaction txn{next_txn_id_++}: the value is read.
  unfoldable pub load_number : ℕ → Manager → Manager
  load_number c m = record (set_caller c loaded m) {
    number = λ i. if i == c then m.next_txn_id else m.number i;
  }

  -- The value that was read, plus one, is written.
  unfoldable pub store_number : ℕ → Manager → Manager
  store_number c m = record (set_caller c numbered m) {
    next_txn_id = (m.number c + 1) % 18446744073709551616;
  }

  unfoldable pub enqueue : ℕ → Manager → Manager
  enqueue c m = record (set_caller c waiting m) { exception = none; queue = m.queue ++ c ∷ [] }

  -- The end of `execute`, once the wait is over.
  unfoldable pub finish_execute : ℕ → Manager → Manager
  finish_execute c m = set_caller c (returned m.exception) m

  -- The worker takes the front `c` of its queue.
  unfoldable pub take_task : ℕ → List ℕ → Manager → Manager
  take_task c rest m = record m { queue = rest; running = true; worker = working c }

  -- The worker has run `c`; an exception is kept for the caller.
  unfoldable pub finish_task : ℕ → Manager → Manager
  finish_task c m = record m {
    exception = elim (work c) [ none ↦ m.exception | some e ↦ some e ];
    completed_txn_id = m.number c;
    running = false;
    worker = idle;
    ran = m.ran ++ c ∷ [];
  }

  pub data Step : Manager → Manager → Type 0 where
    loads : (m : Manager) (c : ℕ) → m.caller c ≡ absent → Step m (load_number c m)
    stores : (m : Manager) (c : ℕ) → m.caller c ≡ loaded → Step m (store_number c m)
    enqueues : (m : Manager) (c : ℕ) → m.caller c ≡ numbered → Step m (enqueue c m)
    takes :
        (m : Manager) (c : ℕ) (rest : List ℕ)
        → m.worker ≡ idle
        → m.queue ≡ c ∷ rest
        → Step m (take_task c rest m)
    finishes : (m : Manager) (c : ℕ) → m.worker ≡ working c → Step m (finish_task c m)
    returns :
        (m : Manager) (c : ℕ)
        → m.caller c ≡ waiting
        → m.number c ≤ m.completed_txn_id
        → Step m (finish_execute c m)
    shuts_down : (m : Manager) → Step m (record m { shutdown = true })
    stops :
        (m : Manager)
        → m.worker ≡ idle
        → m.queue ≡ []
        → m.shutdown ≡ true
        → Step m (record m { worker = stopped })

  pub data Reachable : Manager → Type 0 where
    starts : Reachable new_manager
    goes_on : (m n : Manager) → Reachable m → Step m n → Reachable n
