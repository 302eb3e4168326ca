-- ===== src/Sched/RunQueue.antt =====
-- The run queue of threads: src/sched/state.rs. The source's arrays by priority (`queues`, `heads`,
-- `tails`, `counts`) are one list of five levels here, a level for each priority.
pub mod Levels
pub mod Refines
mod Tests
use rustux.Base.{
  ◌+◌, ◌%◌, ◌-◌, ℕ, zero, suc, ltb, ◌==◌, if◌then◌else◌, Bool, true, false, ◌||◌, Option, none,
  some, List, [], ◌∷◌, set, get_elem?, replicate,
}

pub data ThreadState : Type 0 where
  ready running blocked terminated sleeping blocked_on_mutex blocked_on_condvar : ThreadState

pub data ThreadPriority : Type 0 where
  idle low normal high realtime : ThreadPriority

-- `priority as usize`.
abbrev pub priority_index : ThreadPriority → ℕ
priority_index idle = 0
priority_index low = 1
priority_index normal = 2
priority_index high = 3
priority_index realtime = 4

pub record RunQueueEntry : Type 0 where
  pub thread_id : ℕ
  pub priority : ThreadPriority
  pub time_slice : ℕ

abbrev pub max_per_priority : ℕ
max_per_priority = 64

abbrev pub empty_entry : RunQueueEntry
empty_entry = record { thread_id = 0; priority = idle; time_slice = 0 }

-- One priority's entries, head, tail and count.
pub record Level : Type 0 where
  pub entries : List RunQueueEntry
  pub head : ℕ
  pub tail : ℕ
  pub count : ℕ

pub record RunQueue : Type 0 where
  pub levels : List Level
  pub total_count : ℕ

abbrev pub empty_level : Level
empty_level = record {
  entries = replicate max_per_priority empty_entry;
  head = 0;
  tail = 0;
  count = 0;
}

abbrev pub new : RunQueue
new = record { levels = replicate 5 empty_level; total_count = 0 }

-- Writes at the tail.
abbrev pub pushed : RunQueueEntry → Level → Level
pushed entry l = record {
  entries = set l.entries (l.tail % max_per_priority) entry;
  head = l.head;
  tail = l.tail + 1;
  count = l.count + 1;
}

-- The entry is dropped if its priority has 64 already.
unfoldable pub enqueue_at : RunQueueEntry → Option Level → RunQueue → RunQueue
enqueue_at entry none q = q
enqueue_at entry (some l) q =
    if ltb l.count max_per_priority
    then record {
      levels = set q.levels (priority_index entry.priority) (pushed entry l);
      total_count = q.total_count + 1;
    }
    else q

unfoldable pub enqueue : RunQueueEntry → RunQueue → RunQueue
enqueue entry q = enqueue_at entry (get_elem? q.levels (priority_index entry.priority)) q

-- Steps over the entry at the head.
abbrev pub popped : Level → Level
popped l = record { entries = l.entries; head = l.head + 1; tail = l.tail; count = l.count - 1 }

-- Takes from level `i`, or else goes on with what the lower priorities give.
unfoldable pub dequeue_at :
    ℕ → Option Level → RunQueue → Option RunQueueEntry × RunQueue → Option RunQueueEntry × RunQueue
dequeue_at i none q rest = rest
dequeue_at i (some l) q rest =
    if ltb 0 l.count
    then (
      get_elem? l.entries (l.head % max_per_priority),
      record { levels = set q.levels i (popped l); total_count = q.total_count - 1 },
    )
    else rest

-- `for i in (0..n).rev()`.
unfoldable pub dequeue_below : ℕ → RunQueue → Option RunQueueEntry × RunQueue
dequeue_below zero q = (none, q)
dequeue_below (suc i) q = dequeue_at i (get_elem? q.levels i) q (dequeue_below i q)

unfoldable pub dequeue : RunQueue → Option RunQueueEntry × RunQueue
dequeue q = dequeue_below 5 q

unfoldable pub is_empty : RunQueue → Bool
is_empty q = q.total_count == 0

unfoldable pub len : RunQueue → ℕ
len q = q.total_count

-- Whether the entry is there and the thread's.
abbrev pub is_thread : ℕ → Option RunQueueEntry → Bool
is_thread thread_id none = false
is_thread thread_id (some entry) = entry.thread_id == thread_id

-- The first place from `i` on, counted from the head, that holds the thread.
unfoldable pub place : ℕ → ℕ → ℕ → Level → Option ℕ
place zero thread_id i l = none
place (suc rounds) thread_id i l =
    if is_thread thread_id (get_elem? l.entries ((l.head + i) % max_per_priority))
    then some i
    else place rounds thread_id (i + 1) l

abbrev pub copied : List RunQueueEntry → ℕ → Option RunQueueEntry → List RunQueueEntry
copied entries dst none = entries
copied entries dst (some entry) = set entries dst entry

-- Moves the entries after place `j` one place towards the head.
unfoldable pub shift : ℕ → ℕ → ℕ → List RunQueueEntry → List RunQueueEntry
shift zero head j entries = entries
shift (suc rounds) head j entries = shift rounds head (j + 1) (
    copied entries ((head + j) % max_per_priority)
      (get_elem? entries ((head + j + 1) % max_per_priority)))

abbrev pub removed : ℕ → Level → Level
removed i l = record {
  entries = shift (l.count - 1 - i) l.head i l.entries;
  head = l.head;
  tail = l.tail - 1;
  count = l.count - 1;
}

abbrev pub remove_at : Option ℕ → Level → Option Level
remove_at none l = none
remove_at (some i) l = some (removed i l)

abbrev pub with_level :
    Option Level → Level → List Level → Option (List Level) → Option (List Level)
with_level (some l') l ls rest = some (l' ∷ ls)
with_level none l ls none = none
with_level none l ls (some ls') = some (l ∷ ls')

-- The levels without the thread, from the lowest priority on; `none` if no level has it.
unfoldable pub remove_from : ℕ → List Level → Option (List Level)
remove_from thread_id [] = none
remove_from thread_id (l ∷ ls) =
    with_level (remove_at (place l.count thread_id 0 l) l) l ls (remove_from thread_id ls)

abbrev pub with_levels : Option (List Level) → RunQueue → Bool × RunQueue
with_levels none q = (false, q)
with_levels (some ls) q = (true, record { levels = ls; total_count = q.total_count - 1 })

unfoldable pub remove : ℕ → RunQueue → Bool × RunQueue
remove thread_id q = with_levels (remove_from thread_id q.levels) q
