-- ===== src/Sched/Scheduler/Queues.antt =====
-- What the scheduler of src/sched/scheduler.rs does to the order of the waiting threads.
use rustux.Base.{
  ℕ, ◌≡◌, ◌≢◌, ◌⊎◌, inl, inr, refl, ℕ_discrete, arith, ap, ◌∙◌, sym, Bool-cases, true, false,
  Option, none, some, List, [], ◌∷◌, ◌==◌, Option-cases, ok, err, thread_not_found,
  thread_not_blocked,
}
use rustux.Sched.RunQueue.{RunQueueEntry, RunQueue, ThreadState, ready, running, dequeue}
use rustux.Sched.RunQueue.Refines.{
  Lists, Models, Agree, append_to, first_below, enqueue_lem, dequeue_below-Agree,
}
use rustux.Sched.Thread.{Thread, set_state, is_running_state}
use rustux.Sched.Scheduler.{
  Scheduler, find_thread, get_thread, update_thread, with_thread, with_entry, queue_entry,
  requeue_current, dispatched, switch_to, schedule, yielding, yield_cpu, enqueue_thread, is_blocked,
  wake_thread,
}

-- The entry that `dequeue` gives, as an equation.
pub dequeue_first :
    (q : RunQueue) (xss rest : Lists) (e : RunQueueEntry)
    → Models q xss
    → first_below 5 xss ≡ (some e, rest)
    → (q' : RunQueue) × (dequeue q ≡ (some e, q')) × Models q' rest
unfolding Agree dequeue
dequeue_first q xss rest e m first =
    let (same, after) = dequeue_below-Agree 5 q xss m in
    ((dequeue q).1, ap (λ o. (o, (dequeue q).1)) (same ∙ ap (λ p. p.0) first), rw first at after)

find-update_same :
    (id : ℕ) (f : Thread → Thread) (ts : List (Option Thread)) (t : Thread)
    → (f t).id ≡ t.id
    → find_thread id ts ≡ some t
    → find_thread id (update_thread id f ts) ≡ some (f t)
unfolding find_thread update_thread
find-update_same id f [] t keeps e = cc
find-update_same id f (none ∷ ts) t keeps e = find-update_same id f ts t keeps e
find-update_same id f (some u ∷ ts) t keeps e = elim (Bool-cases (u.id == id)) [
  | inl here ↦
      let same : some u ≡ some t = rw here at e in
      let is : u ≡ t = cc in
      let own : ((f t).id == id) ≡ true =
        ap (λ i. i == id) (keeps ∙ ap (λ v. v.id) (sym is)) ∙ here in
      rw (here, is, own) refl
  | inr away ↦ rw (away, away) (find-update_same id f ts t keeps (rw away at e))
]

find-update_ne :
    (id id' : ℕ) (f : Thread → Thread) (ts : List (Option Thread))
    → ((t : Thread) → (f t).id ≡ t.id)
    → id' ≢ id
    → find_thread id' (update_thread id f ts) ≡ find_thread id' ts
unfolding find_thread update_thread
find-update_ne id id' f [] keeps ne = refl
find-update_ne id id' f (none ∷ ts) keeps ne = find-update_ne id id' f ts keeps ne
find-update_ne id id' f (some u ∷ ts) keeps ne = elim (Bool-cases (u.id == id)) [
  | inl here ↦
      let own : ((f u).id == id') ≡ false = ground (arith, keeps u) in
      let other : (u.id == id') ≡ false = ground arith in rw (here, own, other) refl
  | inr away ↦ rw away (elim (Bool-cases (u.id == id')) [
    | inl mine ↦ rw mine refl
    | inr not_mine ↦ rw not_mine (find-update_ne id id' f ts keeps ne)
  ])
]

pub find-update-none :
    (id id' : ℕ) (f : Thread → Thread) (ts : List (Option Thread))
    → ((t : Thread) → (f t).id ≡ t.id)
    → find_thread id' ts ≡ none
    → find_thread id' (update_thread id f ts) ≡ none
unfolding find_thread update_thread
find-update-none id id' f [] keeps e = refl
find-update-none id id' f (none ∷ ts) keeps e = find-update-none id id' f ts keeps e
find-update-none id id' f (some u ∷ ts) keeps e = elim (Bool-cases (u.id == id')) [
  | inl mine ↦ cc (rw mine at e)
  | inr not_mine ↦
      let rest : find_thread id' ts ≡ none = rw not_mine at e in
      let own : ((f u).id == id') ≡ false = ap (λ i. i == id') (keeps u) ∙ not_mine in
      elim (Bool-cases (u.id == id)) [
        | inl here ↦ rw (here, own) rest
        | inr away ↦ rw (away, not_mine) (find-update-none id id' f ts keeps rest)
      ]
]

-- Whether the thread with an ID, if there is one, is in a state.
abbrev pub InState : ThreadState → Option Thread → Type 0
InState st none = Unit
InState st (some t) = t.state ≡ st

-- The thread that is dispatched runs, if there is one with the ID, whatever was done to thread `id` before
-- it, and thread `id` is left as it was then, unless the two have one ID.
switched :
    (id next slice : ℕ) (f : Thread → Thread) (ts : List (Option Thread)) (t : Thread)
    → ((u : Thread) → (f u).id ≡ u.id)
    → find_thread id ts ≡ some t
    → InState running
        (find_thread next (update_thread next (dispatched slice) (update_thread id f ts)))
      × ((next ≡ id)
          ⊎ (find_thread id (update_thread next (dispatched slice) (update_thread id f ts))
              ≡ some (f t)))
switched id next slice f ts t keeps found = (
  elim (Option-cases (find_thread next (update_thread id f ts))) [
    | inr (u, at) ↦
        rw (find-update_same next (dispatched slice) (update_thread id f ts) u refl at) refl
    | inl nowhere ↦
        rw
          (find-update-none next next (dispatched slice) (update_thread id f ts) (λ u. refl)
            nowhere)
          tt
  ],
  elim (ℕ_discrete next id) [
    | yes same ↦ inl same
    | no ne ↦ inr (
        find-update_ne next id (dispatched slice) (update_thread id f ts) (λ u. refl)
          (λ e. ne (sym e))
        ∙ find-update_same id f ts t (keeps t) found)
  ],
)

-- If the current thread is running and others wait, `schedule` takes the first thread of the highest
-- priority that has one: it is the current thread then and, if it exists, running. The thread that was
-- running is ready, unless it is that thread, and goes to the end of the threads of its priority, unless
-- 64 wait there.
pub schedule-preempts :
    (idle_entry : ℕ) (s : Scheduler) (n : ℕ) (xss rest : Lists) (e : RunQueueEntry) (id : ℕ)
    (t : Thread)
    → Models s.run_queue xss
    → first_below 5 xss ≡ (some e, rest)
    → s.current_thread ≡ some id
    → get_thread id s ≡ some t
    → t.state ≡ running
    → ((schedule idle_entry s n).0.0 ≡ some e.thread_id)
      × ((schedule idle_entry s n).0.1.current_thread ≡ some e.thread_id)
      × InState running (get_thread e.thread_id (schedule idle_entry s n).0.1)
      × ((e.thread_id ≡ id)
          ⊎ (get_thread id (schedule idle_entry s n).0.1 ≡ some (set_state ready t)))
      × Models (schedule idle_entry s n).0.1.run_queue (append_to (queue_entry id t.priority) rest)
unfolding schedule switch_to requeue_current
schedule-preempts idle_entry s n xss rest e id t m first current found runs =
    let (q, out, after) = dequeue_first s.run_queue xss rest e m first in
    let (now, before) =
      switched id e.thread_id e.time_slice (set_state ready) s.threads t (λ u. refl) found in
    rw (out, current, found, runs)
      (refl, refl, now, before, enqueue_lem (queue_entry id t.priority) q rest after)

pub yielding-id : (t : Thread) → (yielding t).id ≡ t.id
yielding-id t = elim (Bool-cases (is_running_state t.state)) [
  | inl runs ↦ rw runs refl
  | inr stopped ↦ rw stopped refl
]

-- If the current thread is running and others wait, `yield_cpu` takes the first thread of the highest
-- priority that has one: it is the current thread then and, if it exists, running. The thread that yields
-- is ready, unless it is that thread, and what waits then is what waited before, less the thread that was
-- taken: the thread that yields is not queued again.
pub yield_cpu_lem :
    (idle_entry : ℕ) (s : Scheduler) (n : ℕ) (xss rest : Lists) (e : RunQueueEntry) (id : ℕ)
    (t : Thread)
    → Models s.run_queue xss
    → first_below 5 xss ≡ (some e, rest)
    → s.current_thread ≡ some id
    → get_thread id s ≡ some t
    → t.state ≡ running
    → ((yield_cpu idle_entry s n).0.0 ≡ some e.thread_id)
      × ((yield_cpu idle_entry s n).0.1.current_thread ≡ some e.thread_id)
      × InState running (get_thread e.thread_id (yield_cpu idle_entry s n).0.1)
      × ((e.thread_id ≡ id)
          ⊎ ((t' : Thread) × (get_thread id (yield_cpu idle_entry s n).0.1 ≡ some t')
              × (t'.state ≡ ready)))
      × Models (yield_cpu idle_entry s n).0.1.run_queue rest
unfolding yield_cpu schedule switch_to requeue_current
yield_cpu_lem idle_entry s n xss rest e id t m first current found runs =
    let (q, out, after) = dequeue_first s.run_queue xss rest e m first in
    let s' = with_thread id yielding s in
    let keeps : (yielding t).id ≡ t.id = rw runs refl in
    let yielded : find_thread id (update_thread id yielding s.threads) ≡ some (yielding t) =
      find-update_same id yielding s.threads t keeps found in
    let (now, before) =
      switched id e.thread_id e.time_slice yielding s.threads t yielding-id found in
    let waits : (yielding t).state ≡ ready = rw runs refl in
    rw (current, out, yielded, runs)
      (
        refl,
        refl,
        now,
        elim before [ inl same ↦ inl same | inr at ↦ inr (yielding t, at, waits) ],
        after,
      )

-- Waking a thread that waits for a lock, a condition or an event makes it ready and puts it at the end
-- of the threads of its priority; a sleeping thread, or one that is not blocked, cannot be woken, nor
-- one that does not exist.
pub wake_thread_lem :
    (s : Scheduler) (id : ℕ) (xss : Lists)
    → Models s.run_queue xss
    → ((get_thread id s ≡ none) × (wake_thread id s ≡ err thread_not_found))
      ⊎ ((t : Thread) × (get_thread id s ≡ some t)
          × (((is_blocked t.state ≡ false) × (wake_thread id s ≡ err thread_not_blocked))
              ⊎ ((s' : Scheduler) × (is_blocked t.state ≡ true)
                  × (wake_thread id s ≡ ok s')
                  × (get_thread id s' ≡ some (set_state ready t))
                  × Models s'.run_queue (append_to (queue_entry id t.priority) xss))))
unfolding wake_thread enqueue_thread
wake_thread_lem s id xss m = elim (Option-cases (get_thread id s)) [
  | inl nowhere ↦ inl (nowhere, rw nowhere refl)
  | inr (t, found) ↦ inr (
    t,
    found,
    elim (Bool-cases (is_blocked t.state)) [
      | inr awake ↦ inl (awake, rw (found, awake) refl)
      | inl asleep ↦
          let woken = find-update_same id (set_state ready) s.threads t refl found in
          inr (
            with_entry id t.priority (with_thread id (set_state ready) s),
            asleep,
            rw (found, asleep, woken) refl,
            woken,
            enqueue_lem (queue_entry id t.priority) s.run_queue xss m,
          )
    ],
  )
]
