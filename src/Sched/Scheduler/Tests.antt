-- ===== src/Sched/Scheduler/Tests.antt =====
-- Threads that are scheduled, that yield and that are woken.
use rustux.Base.{ℕ, ◌≡◌, ◌⊎◌, refl, true, some, slot, [], ◌∷◌}
use rustux.Sched.RunQueue.{
  RunQueue, RunQueueEntry, ThreadState, ready, running, blocked, normal, ThreadPriority, enqueue,
  enqueue_at, dequeue, dequeue_at, dequeue_below,
}
use rustux.Sched.RunQueue
use rustux.Sched.RunQueue.Refines.{
  Lists, Models, append_to, append_at, first_below, new-Models, enqueue_lem,
}
use rustux.Sched.Thread.{Thread, set_state, is_runnable, stack_config, new_thread_lem}
use rustux.Sched.Thread
use rustux.Sched.Scheduler.{
  Scheduler, new, round_robin, queue_entry, find_thread, get_thread, schedule, yield_cpu,
  dispatched, idle_thread, default_time_slice, stay, add_thread, fill, enqueue_thread,
  update_thread, requeue_current, switch_to,
}
use rustux.Sched.Scheduler.Steps.{
  Step, Reachable, schedules, yields, start, step, reachable-OnlyCurrent,
}
use rustux.Sched.Scheduler.Queues.{InState, schedule-preempts, yield_cpu_lem}

-- The address of `idle_thread_entry` in the examples.
abbrev idle_at : ℕ
idle_at = 4096

abbrev thread : ℕ → ThreadState → Thread
thread id state = set_state state (Thread.new id 5000 0 (stack_config 65536 8192)).0

abbrev waiting : Lists
waiting = append_to (queue_entry 2 normal) ([] ∷ [] ∷ [] ∷ [] ∷ [] ∷ [])

abbrev queue : RunQueue
queue = enqueue (queue_entry 2 normal) RunQueue.new

queue-Models : Models queue waiting
queue-Models =
    enqueue_lem (queue_entry 2 normal) RunQueue.new ([] ∷ [] ∷ [] ∷ [] ∷ [] ∷ []) new-Models

-- Thread 1 runs, thread 2 waits to run and thread 3 is blocked.
abbrev busy : Scheduler
busy = record {
  run_queue = queue;
  current_thread = some 1;
  threads = some (thread 1 running) ∷ some (thread 2 ready) ∷ some (thread 3 blocked) ∷ [];
  thread_count = 3;
  policy = round_robin;
  preemption_enabled = true;
}

abbrev nothing : Lists
nothing = [] ∷ [] ∷ [] ∷ [] ∷ [] ∷ []

first_waiting : first_below 5 waiting ≡ (some (queue_entry 2 normal), nothing)
unfolding first_below append_to append_at
first_waiting = refl

busy_current : get_thread 1 busy ≡ some (thread 1 running)
unfolding find_thread Thread.new Thread.init_stack
busy_current = refl

yield_cpu_lem_example :
    ((yield_cpu idle_at busy 9).0.0 ≡ some 2)
    × ((yield_cpu idle_at busy 9).0.1.current_thread ≡ some 2)
    × InState running (get_thread 2 (yield_cpu idle_at busy 9).0.1)
    × (((queue_entry 2 normal).thread_id ≡ 1)
        ⊎ ((t' : Thread) × (get_thread 1 (yield_cpu idle_at busy 9).0.1 ≡ some t')
            × (t'.state ≡ ready)))
    × Models (yield_cpu idle_at busy 9).0.1.run_queue nothing
yield_cpu_lem_example =
    yield_cpu_lem idle_at busy 9 waiting nothing (queue_entry 2 normal) 1 (thread 1 running)
      queue-Models first_waiting refl busy_current refl

schedule-preempts_example :
    ((schedule idle_at busy 9).0.0 ≡ some 2)
    × ((schedule idle_at busy 9).0.1.current_thread ≡ some 2)
    × InState running (get_thread 2 (schedule idle_at busy 9).0.1)
    × (((queue_entry 2 normal).thread_id ≡ 1)
        ⊎ (get_thread 1 (schedule idle_at busy 9).0.1 ≡ some (set_state ready (thread 1 running))))
    × Models
        (schedule idle_at busy 9).0.1.run_queue
        (append_to (queue_entry 1 (thread 1 running).priority) nothing)
schedule-preempts_example =
    schedule-preempts idle_at busy 9 waiting nothing (queue_entry 2 normal) 1 (thread 1 running)
      queue-Models first_waiting refl busy_current refl

-- A scheduler without threads that schedules, and then yields.
abbrev after_idle : Scheduler
after_idle = (schedule idle_at new 1).0.1

-- The idle thread runs, in the first slot.
abbrev idle_running : Thread
idle_running = dispatched default_time_slice (idle_thread idle_at 1)

abbrev after_yield : Scheduler
after_yield = (yield_cpu idle_at after_idle 2).0.1

idle_runs : slot after_yield.threads 0 ≡ some idle_running
unfolding yield_cpu schedule stay add_thread fill enqueue_thread find_thread update_thread
    requeue_current switch_to Thread.new Thread.init_stack enqueue enqueue_at dequeue dequeue_at
    dequeue_below
idle_runs = refl

idle_step : Step idle_at (new, 1) (after_idle, 2)
unfolding schedule stay add_thread fill enqueue_thread find_thread Thread.new Thread.init_stack
    enqueue enqueue_at dequeue dequeue_at dequeue_below
idle_step = schedules new 1

after_yield-Reachable : Reachable idle_at (after_yield, (yield_cpu idle_at after_idle 2).1)
after_yield-Reachable =
    step (after_idle, 2) (after_yield, (yield_cpu idle_at after_idle 2).1)
      (step (new, 1) (after_idle, 2) (start 1) idle_step) (yields after_idle 2)

reachable-OnlyCurrent_example :
    (after_yield.current_thread ≡ some idle_running.id) × (◌≡◌ {A = ℕ} 0 0)
reachable-OnlyCurrent_example =
    reachable-OnlyCurrent idle_at (after_yield, (yield_cpu idle_at after_idle 2).1) 0 0 idle_running
      idle_running after_yield-Reachable idle_runs refl idle_runs refl
