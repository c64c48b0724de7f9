-- ===== src/Tests/Transactions.antt =====
-- Runs of the transaction manager whose transactions do not throw.
use advance_db.Prelude.{ℕ, ◌≤◌, ◌≡◌, refl, true, Option, none, [], ◌∷◌, arith}
use advance_db.Transaction.Manager.{
  idle, working, absent, loaded, numbered, waiting, returned, Manager, new_manager, load_number,
  store_number, enqueue, take_task, finish_task, finish_execute, loads, stores, enqueues, takes,
  finishes, returns, Reachable, starts, goes_on,
}
use advance_db.Transaction.Order.{elem, IsSound}
use advance_db.Transaction.Sound.{IsOrdered, Reachable-IsSound, wait-ran}

abbrev quiet : ℕ → Option ℕ
quiet n = none

abbrev M : Type 0
M = Manager ℕ quiet

abbrev first : M
first = new_manager ℕ quiet

-- One call, 5: numbered, enqueued, taken and run.
abbrev read : M
read = load_number ℕ quiet 5 first

abbrev asked : M
asked = store_number ℕ quiet 5 read

abbrev queued : M
queued = enqueue ℕ quiet 5 asked

abbrev held : M
held = take_task ℕ quiet 5 [] queued

abbrev done : M
done = finish_task ℕ quiet 5 held

first_5 : first.caller 5 ≡ absent
unfolding new_manager
first_5 = refl

read_5 : read.caller 5 ≡ loaded
unfolding load_number
read_5 = refl

asked_5 : asked.caller 5 ≡ numbered
unfolding store_number
asked_5 = refl

idle_worker : queued.worker ≡ idle
unfolding load_number store_number new_manager enqueue
idle_worker = refl

one_queued : queued.queue ≡ 5 ∷ []
unfolding load_number store_number new_manager enqueue
one_queued = refl

held_5 : held.worker ≡ working 5
unfolding take_task
held_5 = refl

done-Reachable : Reachable ℕ quiet done
done-Reachable =
    goes_on held done
      (goes_on queued held
        (goes_on asked queued
          (goes_on read asked (goes_on first read starts (loads first 5 first_5))
            (stores read 5 read_5))
          (enqueues asked 5 asked_5))
        (takes queued 5 [] idle_worker one_queued))
      (finishes held 5 held_5)

done_waiting : done.caller 5 ≡ waiting
unfolding load_number store_number new_manager enqueue take_task finish_task
done_waiting = refl

done_completed : done.number 5 ≤ done.completed_txn_id
unfolding finish_task
done_completed = omega arith

done-IsOrdered : IsOrdered ℕ quiet done
unfolding load_number store_number new_manager enqueue take_task finish_task
done-IsOrdered = ((omega arith, tt), (tt, tt))

left_5 : (finish_execute ℕ quiet 5 done).caller 5 ≡ returned none
unfolding load_number store_number new_manager enqueue take_task finish_task finish_execute
left_5 = refl

Reachable-IsSound_example : IsSound ℕ quiet done
Reachable-IsSound_example = Reachable-IsSound ℕ quiet done done-Reachable

wait-ran_example : elem 5 done.ran ≡ true
wait-ran_example =
    wait-ran ℕ quiet done (finish_execute ℕ quiet 5 done) 5 none done-Reachable done-IsOrdered
      (returns done 5 done_waiting done_completed) done_waiting left_5

-- Two calls, 5 and 6, read the number before either writes it: both get 1.
abbrev raced : M
raced = store_number ℕ quiet 6 (store_number ℕ quiet 5 (load_number ℕ quiet 6 read))

one_number : (raced.number 5 ≡ 1) × (raced.number 6 ≡ 1) × (raced.next_txn_id ≡ 2)
unfolding load_number store_number new_manager
one_number = (refl, refl, refl)

-- Two calls: 5 gets 1 and 6 gets 2, and 6 is enqueued and run before 5 is enqueued. The wait of 5
-- is over though it has not run.
abbrev both : M
both = store_number ℕ quiet 6 (load_number ℕ quiet 6 asked)

abbrev overtaken : M
overtaken =
    enqueue ℕ quiet 5 (finish_task ℕ quiet 6 (take_task ℕ quiet 6 [] (enqueue ℕ quiet 6 both)))

early :
    (overtaken.caller 5 ≡ waiting)
    × (overtaken.number 5 ≤ overtaken.completed_txn_id)
    × (overtaken.ran ≡ 6 ∷ [])
unfolding load_number store_number new_manager enqueue take_task finish_task
early = (refl, omega arith, refl)
