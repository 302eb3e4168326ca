-- ===== src/Sched/RunQueue/Tests.antt =====
-- A run of the run queue.
use rustux.Base.{ℕ, ◌≡◌, refl, true, none, some, List, [], ◌∷◌}
use rustux.Sched.RunQueue.{
  RunQueueEntry, ThreadPriority, normal, high, new, enqueue, enqueue_at, dequeue, dequeue_at,
  dequeue_below, remove, remove_from, place, shift,
}
use rustux.Sched.RunQueue.Refines.{
  Operation, enqueues, dequeues, removes, unit, entry, found, run, run_lists, run-refines,
}

abbrev thread : ℕ → ThreadPriority → RunQueueEntry
thread id priority = record { thread_id = id; priority = priority; time_slice = 10 }

abbrev calls : List Operation
calls =
    enqueues (thread 1 normal)
    ∷ enqueues (thread 2 normal)
    ∷ enqueues (thread 3 high)
    ∷ removes 1
    ∷ dequeues
    ∷ dequeues
    ∷ dequeues
    ∷ []

run-refines_example : run calls new ≡ run_lists calls ([] ∷ [] ∷ [] ∷ [] ∷ [] ∷ [])
run-refines_example = run-refines calls

answers :
    run calls new
    ≡ unit
      ∷ unit
      ∷ unit
      ∷ found true
      ∷ entry (some (thread 3 high))
      ∷ entry (some (thread 2 normal))
      ∷ entry none
      ∷ []
unfolding run enqueue enqueue_at dequeue dequeue_at dequeue_below remove remove_from place shift
answers = refl
