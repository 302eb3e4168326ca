-- ===== src/Sched/Scheduler.antt =====
-- The scheduler of threads: src/sched/scheduler.rs. The static counter of thread IDs is passed along
-- as `next_id` where an operation may draw an ID from it.
pub mod Running
pub mod Distinct
pub mod Steps
pub mod Queues
mod Tests
use rustux.Base.{
  ◌+◌, ◌-◌, ℕ, leb, ◌==◌, if◌then◌else◌, Bool, true, false, Option, none, some, List, [], ◌∷◌,
  replicate, Result, ok, err, Error, maximum_threads_reached, no_free_thread_slots,
  thread_not_found, thread_not_blocked,
}
use rustux.Sched.RunQueue.{
  RunQueue, RunQueueEntry, ThreadState, ready, running, blocked, blocked_on_mutex,
  blocked_on_condvar, ThreadPriority, enqueue, dequeue, remove, len,
}
use rustux.Sched.RunQueue
use rustux.Sched.Thread.{Thread, stack_config, set_state, is_running_state, is_runnable}
use rustux.Sched.Thread

abbrev pub default_time_slice : ℕ
default_time_slice = 10000000

abbrev pub max_threads : ℕ
max_threads = 1024

pub data SchedulingPolicy : Type 0 where
  round_robin by_priority cfs : SchedulingPolicy

pub record Scheduler : Type 0 where
  pub run_queue : RunQueue
  pub current_thread : Option ℕ
  pub threads : List (Option Thread)
  pub thread_count : ℕ
  pub policy : SchedulingPolicy
  pub preemption_enabled : Bool

abbrev pub new : Scheduler
new = record {
  run_queue = RunQueue.new;
  current_thread = none;
  threads = replicate max_threads none;
  thread_count = 0;
  policy = round_robin;
  preemption_enabled = true;
}

-- The first thread with the ID: `get_thread`.
unfoldable pub find_thread : ℕ → List (Option Thread) → Option Thread
find_thread id [] = none
find_thread id (none ∷ ts) = find_thread id ts
find_thread id (some t ∷ ts) = if t.id == id then some t else find_thread id ts

abbrev pub get_thread : ℕ → Scheduler → Option Thread
get_thread id self = find_thread id self.threads

-- The first thread with the ID changed in place: what the code does through `get_thread_mut`.
unfoldable pub update_thread : ℕ → (Thread → Thread) → List (Option Thread) → List (Option Thread)
update_thread id f [] = []
update_thread id f (none ∷ ts) = none ∷ update_thread id f ts
update_thread id f (some t ∷ ts) =
    if t.id == id then some (f t) ∷ ts else some t ∷ update_thread id f ts

abbrev pub with_thread : ℕ → (Thread → Thread) → Scheduler → Scheduler
with_thread id f self = record self { threads = update_thread id f self.threads }

abbrev pub queue_entry : ℕ → ThreadPriority → RunQueueEntry
queue_entry id priority = record {
  thread_id = id;
  priority = priority;
  time_slice = default_time_slice;
}

abbrev pub with_entry : ℕ → ThreadPriority → Scheduler → Scheduler
with_entry id priority self = record self {
  run_queue = enqueue (queue_entry id priority) self.run_queue;
}

abbrev pub enqueue_found : ℕ → Option Thread → Scheduler → Scheduler
enqueue_found id none self = self
enqueue_found id (some t) self = if is_runnable t then with_entry id t.priority self else self

unfoldable pub enqueue_thread : ℕ → Scheduler → Scheduler
enqueue_thread id self = enqueue_found id (get_thread id self) self

-- The thread in the first free slot.
unfoldable pub fill : Thread → List (Option Thread) → Option (List (Option Thread))
fill thread [] = none
fill thread (none ∷ ts) = some (some thread ∷ ts)
fill thread (some t ∷ ts) = elim (fill thread ts) [ none ↦ none | some ts' ↦ some (some t ∷ ts') ]

abbrev pub filled : Thread → Option (List (Option Thread)) → Scheduler → Result Error Scheduler
filled thread none self = err no_free_thread_slots
filled thread (some ts) self =
    ok (
      enqueue_thread thread.id (record self { threads = ts; thread_count = self.thread_count + 1 }))

unfoldable pub add_thread : Thread → Scheduler → Result Error Scheduler
add_thread thread self =
    if leb max_threads self.thread_count
    then err maximum_threads_reached
    else filled thread (fill thread self.threads) self

-- The first thread with the ID, and the slots without it.
unfoldable pub take_thread : ℕ → List (Option Thread) → Option (Thread × List (Option Thread))
take_thread id [] = none
take_thread id (none ∷ ts) = elim (take_thread id ts) [
  | none ↦ none
  | some (t, ts') ↦ some (t, none ∷ ts')
]
take_thread id (some u ∷ ts) =
    if u.id == id
    then some (u, none ∷ ts)
    else elim (take_thread id ts) [ none ↦ none | some (t, ts') ↦ some (t, some u ∷ ts') ]

abbrev pub taken : Option (Thread × List (Option Thread)) → Scheduler → Option Thread × Scheduler
taken none self = (none, self)
taken (some (t, ts)) self =
    (some t, record self { threads = ts; thread_count = self.thread_count - 1 })

unfoldable pub remove_thread : ℕ → Scheduler → Option Thread × Scheduler
remove_thread id self =
    taken (take_thread id self.threads) (record self { run_queue = (remove id self.run_queue).1 })

-- The current thread goes back to the run queue if it is still running.
abbrev pub requeue : ℕ → Option Thread → Scheduler → Scheduler
requeue id none self = self
requeue id (some t) self =
    if is_running_state t.state
    then with_entry id t.priority (with_thread id (set_state ready) self)
    else self

unfoldable pub requeue_current : Option ℕ → Scheduler → Scheduler
requeue_current none self = self
requeue_current (some id) self = requeue id (get_thread id self) self

abbrev pub dispatched : ℕ → Thread → Thread
dispatched time_slice thread = record thread {
  state = running;
  stats = record thread.stats { schedule_count = thread.stats.schedule_count + 1 };
  time_slice_remaining = time_slice;
}

unfoldable pub switch_to : RunQueueEntry → Scheduler → Scheduler
switch_to entry self = record (with_thread entry.thread_id (dispatched entry.time_slice) self) {
  current_thread = some entry.thread_id;
}

-- `idle_entry` is the address of `idle_thread_entry`.
abbrev pub idle_thread : ℕ → ℕ → Thread
idle_thread idle_entry id = (Thread.new id idle_entry 0 (stack_config 0 0)).0

abbrev pub go_idle : ℕ → Result Error Scheduler → Scheduler → Option ℕ × Scheduler
go_idle id (ok self') self = (some id, record self' { current_thread = some id })
go_idle id (err e) self = (none, self)

-- With nothing to run: the current thread stays, or else an idle thread is made.
unfoldable pub stay : ℕ → Option ℕ → Scheduler → ℕ → (Option ℕ × Scheduler) × ℕ
stay idle_entry (some id) self next_id = ((some id, self), next_id)
stay idle_entry none self next_id =
    (go_idle next_id (add_thread (idle_thread idle_entry next_id) self) self, next_id + 1)

abbrev pub scheduled :
    ℕ → Option RunQueueEntry × RunQueue → Scheduler → ℕ → (Option ℕ × Scheduler) × ℕ
scheduled idle_entry (none, q) self next_id =
    stay idle_entry self.current_thread (record self { run_queue = q }) next_id
scheduled idle_entry (some entry, q) self next_id = (
  (
    some entry.thread_id,
    switch_to entry (requeue_current self.current_thread (record self { run_queue = q })),
  ),
  next_id,
)

-- The thread that runs next, the scheduler, and the next free thread ID.
unfoldable pub schedule : ℕ → Scheduler → ℕ → (Option ℕ × Scheduler) × ℕ
schedule idle_entry self next_id = scheduled idle_entry (dequeue self.run_queue) self next_id

abbrev pub yielding : Thread → Thread
yielding thread =
    if is_running_state thread.state
    then record thread {
      state = ready;
      stats = record thread.stats { voluntary_switches = thread.stats.voluntary_switches + 1 };
    }
    else thread

abbrev pub with_current : (Thread → Thread) → Option ℕ → Scheduler → Scheduler
with_current f none self = self
with_current f (some id) self = with_thread id f self

unfoldable pub yield_cpu : ℕ → Scheduler → ℕ → (Option ℕ × Scheduler) × ℕ
yield_cpu idle_entry self next_id =
    schedule idle_entry (with_current yielding self.current_thread self) next_id

abbrev pub blocking : ThreadState → Thread → Thread
blocking new_state thread = record thread {
  state = new_state;
  stats = record thread.stats { involuntary_switches = thread.stats.involuntary_switches + 1 };
}

unfoldable pub block_current_thread : ℕ → ThreadState → Scheduler → ℕ → (Option ℕ × Scheduler) × ℕ
block_current_thread idle_entry new_state self next_id =
    schedule idle_entry (with_current (blocking new_state) self.current_thread self) next_id

abbrev pub is_blocked : ThreadState → Bool
is_blocked blocked = true
is_blocked blocked_on_mutex = true
is_blocked blocked_on_condvar = true
is_blocked st = false

abbrev pub wake_found : ℕ → Option Thread → Scheduler → Result Error Scheduler
wake_found id none self = err thread_not_found
wake_found id (some t) self =
    if is_blocked t.state
    then ok (enqueue_thread id (with_thread id (set_state ready) self))
    else err thread_not_blocked

unfoldable pub wake_thread : ℕ → Scheduler → Result Error Scheduler
wake_thread id self = wake_found id (get_thread id self) self

abbrev pub run_queue_len : Scheduler → ℕ
run_queue_len self = len self.run_queue
