-- ===== src/Sync/WaitQueue.antt =====
-- Wait queues: src/sync/wait_queue.rs. The queue is an array of 256 entries used as a ring; `block` and
-- the wake calls do not reach the scheduler in the source either.
pub mod Ring
pub mod Wakes
mod Tests
use rustux.Base.{
  ℕ, zero, suc, ◌+◌, ◌-◌, ◌%◌, ◌^◌, ◌==◌, leb, ltb, if◌then◌else◌, Bool, true, false, not, Option,
  none, some, List, [], ◌∷◌, slot, set, replicate, Outcome, returns, panics,
}

pub data WaitStatus : Type 0 where
  wait_ok wait_timed_out : WaitStatus

pub record WaitQueueEntry : Type 0 where
  pub waiter_id : ℕ
  pub priority : ℕ
  pub wait_result : WaitStatus

abbrev pub wait_queue_magic : ℕ
wait_queue_magic = 0x57414954

abbrev pub max_queue_depth : ℕ
max_queue_depth = 256

pub record WaitQueueInner : Type 0 where
  pub entries : List (Option WaitQueueEntry)
  pub head : ℕ
  pub tail : ℕ
  pub size : ℕ

abbrev pub new_inner : WaitQueueInner
new_inner = record { entries = replicate max_queue_depth none; head = 0; tail = 0; size = 0 }

-- Whether an entry is there and yields to the priority.
abbrev pub yields_to : ℕ → Option WaitQueueEntry → Bool
yields_to priority none = false
yields_to priority (some existing) = ltb existing.priority priority

-- The search for the place of a new entry, `current` being the next index to look at.
unfoldable pub insertion_point : ℕ → ℕ → List (Option WaitQueueEntry) → ℕ → ℕ → ℕ
insertion_point zero priority entries tail current = tail
insertion_point (suc rounds) priority entries tail current =
    let later = insertion_point rounds priority entries tail ((current + 1) % max_queue_depth) in
    if yields_to priority (slot entries current) then current else later

-- The loop that makes room; `none` says that the rounds ran out.
unfoldable pub shift :
    ℕ → ℕ → ℕ → List (Option WaitQueueEntry) → Option (List (Option WaitQueueEntry))
shift zero pos insert_pos entries = none
shift (suc rounds) pos insert_pos entries =
    let prev = (pos + max_queue_depth - 1) % max_queue_depth in
    let later = shift rounds prev insert_pos (set entries pos (slot entries prev)) in
    if pos == insert_pos then some entries else later

-- The entry is put at `insert_pos`, once there is room.
abbrev pub insert_at :
    ℕ
    → WaitQueueEntry
    → WaitQueueInner
    → Option (List (Option WaitQueueEntry))
    → Option WaitQueueInner
insert_at insert_pos entry q none = none
insert_at insert_pos entry q (some entries) = some (record {
  entries = set entries insert_pos (some entry);
  head = q.head;
  tail = (q.tail + 1) % max_queue_depth;
  size = q.size + 1;
})

unfoldable pub push_sorted : WaitQueueEntry → WaitQueueInner → Option WaitQueueInner
push_sorted entry q =
    let insert_pos = insertion_point q.size entry.priority q.entries q.tail q.tail in
    if leb max_queue_depth q.size
    then some q
    else insert_at insert_pos entry q (shift max_queue_depth q.tail insert_pos q.entries)

unfoldable pub pop_front : WaitQueueInner → Option WaitQueueEntry × WaitQueueInner
pop_front q = if q.size == 0 then (none, q) else (
  slot q.entries q.head,
  record {
    entries = set q.entries q.head none;
    head = (q.head + 1) % max_queue_depth;
    tail = q.tail;
    size = q.size - 1;
  },
)

unfoldable pub peek_front : WaitQueueInner → Option WaitQueueEntry
peek_front q = if q.size == 0 then none else slot q.entries q.head

pub record WaitQueue : Type 0 where
  pub queue : WaitQueueInner
  pub magic : ℕ
  pub count : ℕ

unfoldable pub new : WaitQueue
new = record { queue = new_inner; magic = wait_queue_magic; count = 0 }

-- A call on a queue whose magic number is wrong panics.
unfoldable pub validated {ℓ} : {A : Type ℓ} → WaitQueue → A → Outcome A
validated wq a = if not (wq.magic == wait_queue_magic) then panics else returns a

unfoldable pub is_empty : WaitQueue → Outcome Bool
is_empty wq = validated wq (wq.queue.size == 0)

unfoldable pub len : WaitQueue → Outcome ℕ
len wq = validated wq wq.queue.size

-- What `block` comes to once the entry has been pushed.
abbrev pub blocked_on : WaitQueue → Option WaitQueueInner → Option (WaitStatus × WaitQueue)
blocked_on wq none = none
blocked_on wq (some q) = some (wait_ok, record wq { queue = q; count = (wq.count + 1) % 2 ^ 64 })

-- `none` within the outcome says that the rounds of `shift` ran out.
unfoldable pub block : ℕ → ℕ → ℕ → WaitQueue → Outcome (Option (WaitStatus × WaitQueue))
unfolding validated
block waiter_id priority deadline wq = validated wq (
    blocked_on wq (
      push_sorted (record { waiter_id = waiter_id; priority = priority; wait_result = wait_ok })
        wq.queue))

-- What `wake_one` comes to once an entry has been popped.
abbrev pub woken : WaitQueue → Option WaitQueueEntry × WaitQueueInner → Option ℕ × WaitQueue
woken wq (none, q) = (none, record wq { queue = q })
woken wq (some entry, q) =
    (some entry.waiter_id, record wq { queue = q; count = (wq.count + (2 ^ 64 - 1)) % 2 ^ 64 })

unfoldable pub wake_one : WaitQueue → Outcome (Option ℕ × WaitQueue)
unfolding validated
wake_one wq = validated wq (woken wq (pop_front wq.queue))

-- What the loop of `wake_all` comes to after a pop, `later` being what its later rounds come to.
abbrev pub drained :
    Option WaitQueueEntry × WaitQueueInner
    → Option (ℕ × WaitQueueInner)
    → Option (ℕ × WaitQueueInner)
drained (none, q) later = some (0, q)
drained (some _, q) none = none
drained (some _, q) (some (n, q')) = some (n + 1, q')

-- The loop of `wake_all`; `none` says that the rounds ran out.
unfoldable pub drain : ℕ → WaitQueueInner → Option (ℕ × WaitQueueInner)
drain zero q = none
drain (suc rounds) q = drained (pop_front q) (drain rounds (pop_front q).1)

-- `none` within the outcome says that the rounds ran out.
unfoldable pub wake_all : WaitQueue → Outcome (Option (ℕ × WaitQueue))
unfolding validated drain
wake_all wq = validated wq (elim (drain (wq.queue.size + 1) wq.queue) [
  | none ↦ none
  | some (n, q) ↦ some (n, record wq { queue = q; count = (wq.count + (2 ^ 64 - n)) % 2 ^ 64 })
])
