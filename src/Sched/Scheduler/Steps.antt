-- ===== src/Sched/Scheduler/Steps.antt =====
-- Runs of the scheduler of src/sched/scheduler.rs as steps, one for each call.
use rustux.Base.{
  ℕ, ◌≡◌, ◌≢◌, ◌⊎◌, inl, inr, refl, ap, ◌∙◌, sym, Bool-cases, Option, none, some, List, [], ◌∷◌,
  ◌==◌, Option-cases, Result, ok, err, Error, zero, suc, ◌+◌, ◌<◌, arith, replicate, slot,
}
use rustux.Sched.RunQueue.{RunQueueEntry, RunQueue, ThreadState, ready, running, dequeue, remove}
use rustux.Sched.Thread.{Thread, set_state, is_running_state, stack_config}
use rustux.Sched.Thread
use rustux.Sched.Scheduler.{
  Scheduler, new, find_thread, with_thread, enqueue_thread, add_thread, take_thread, taken,
  remove_thread, idle_thread, go_idle, stay, scheduled, schedule, yielding, yield_cpu, with_current,
  blocking, block_current_thread, is_blocked, wake_found, wake_thread, max_threads,
}
use rustux.Sched.Scheduler.Running.{
  OnlyCurrent, with_thread-OnlyCurrent, enqueue_thread-OnlyCurrent, add_thread-OnlyCurrent,
  add_thread-current, requeue_current-NoneRuns, switch_to-OnlyCurrent,
}
use rustux.Sched.Scheduler.Queues.{yielding-id}
use rustux.Sched.Scheduler.Distinct.{
  Distinct, replicate-Distinct, Distinct-suc, find-next, find-slot, slot-injective, update-Distinct,
  remove_thread-Distinct, enqueue_thread-threads, add_thread-Distinct, with_current-Distinct,
  switch-Distinct,
}

idle_thread-ready : (idle_entry id : ℕ) → (idle_thread idle_entry id).state ≡ ready
unfolding Thread.new Thread.init_stack
idle_thread-ready idle_entry id = refl

go_idle-OnlyCurrent :
    (idle_entry id : ℕ) (s : Scheduler) (r : Result Error Scheduler)
    → s.current_thread ≡ none
    → OnlyCurrent s
    → add_thread (idle_thread idle_entry id) s ≡ r
    → OnlyCurrent (go_idle id r s).1
unfolding OnlyCurrent
go_idle-OnlyCurrent idle_entry id s (err e) no_current h added = h
go_idle-OnlyCurrent idle_entry id s (ok s') no_current h added = λ id' t at r.
    let before =
      add_thread-OnlyCurrent (idle_thread idle_entry id) s s' h
        (λ run. cc (idle_thread-ready idle_entry id, run)) added in
    absurd (
      cc (before id' t at r, no_current, add_thread-current (idle_thread idle_entry id) s s' added))

stay-OnlyCurrent :
    (idle_entry : ℕ) (o : Option ℕ) (s : Scheduler) (next_id : ℕ)
    → s.current_thread ≡ o
    → OnlyCurrent s
    → OnlyCurrent (stay idle_entry o s next_id).0.1
unfolding stay
stay-OnlyCurrent idle_entry (some id) s next_id is h = h
stay-OnlyCurrent idle_entry none s next_id no_current h =
    go_idle-OnlyCurrent idle_entry next_id s (add_thread (idle_thread idle_entry next_id) s)
      no_current h refl

scheduled-OnlyCurrent :
    (idle_entry : ℕ) (o : Option RunQueueEntry) (q : RunQueue) (s : Scheduler) (next_id : ℕ)
    → OnlyCurrent s
    → OnlyCurrent (scheduled idle_entry (o, q) s next_id).0.1
unfolding OnlyCurrent
scheduled-OnlyCurrent idle_entry (some entry) q s next_id h =
    switch_to-OnlyCurrent entry _ (requeue_current-NoneRuns (record s { run_queue = q }) h)
scheduled-OnlyCurrent idle_entry none q s next_id h =
    stay-OnlyCurrent idle_entry s.current_thread (record s { run_queue = q }) next_id refl h

pub schedule-OnlyCurrent :
    (idle_entry : ℕ) (s : Scheduler) (next_id : ℕ)
    → OnlyCurrent s
    → OnlyCurrent (schedule idle_entry s next_id).0.1
unfolding schedule
schedule-OnlyCurrent idle_entry s next_id h =
    scheduled-OnlyCurrent idle_entry (dequeue s.run_queue).0 (dequeue s.run_queue).1 s next_id h

with_current-OnlyCurrent :
    (f : Thread → Thread) (o : Option ℕ) (s : Scheduler)
    → ((t : Thread) → (f t).id ≡ t.id)
    → ((t : Thread) → (f t).state ≡ running → t.state ≡ running)
    → OnlyCurrent s
    → OnlyCurrent (with_current f o s)
with_current-OnlyCurrent f none s keeps stops h = h
with_current-OnlyCurrent f (some id) s keeps stops h = with_thread-OnlyCurrent id f s keeps stops h

yielding-state : (t : Thread) → (yielding t).state ≡ running → t.state ≡ running
yielding-state t r = elim (Bool-cases (is_running_state t.state)) [
  | inl runs ↦ let bad : ready ≡ running = rw runs at r in cc bad
  | inr stopped ↦ rw stopped at r
]

same_slots :
    (v t : Thread) (ts ts' : List (Option Thread))
    → ◌≡◌ {A = Option (Thread × List (Option Thread))} (some (v, ts)) (some (t, ts'))
    → ts ≡ ts'
same_slots v t ts ts' e = ap (λ o. elim o [ none ↦ ts | some (u, us) ↦ us ]) e

take-find :
    (id id' : ℕ) (ts : List (Option Thread)) (t : Thread) (ts' : List (Option Thread)) (u : Thread)
    → take_thread id ts ≡ some (t, ts')
    → find_thread id' ts' ≡ some u
    → (id' ≡ id) ⊎ (find_thread id' ts ≡ some u)
unfolding take_thread find_thread
take-find id id' [] t ts' u e f = cc
take-find id id' (none ∷ ts) t ts' u e f = elim (Option-cases (take_thread id ts)) [
  | inl nowhere ↦ cc (rw nowhere at e)
  | inr ((v, rest), out) ↦
      let here = same_slots v t (none ∷ rest) ts' (rw out at e) in
      take-find id id' ts v rest u out (rw (← here) at f)
]
take-find id id' (some v ∷ ts) t ts' u e f = elim (Bool-cases (v.id == id)) [
  | inl own ↦
      let here = same_slots v t (none ∷ ts) ts' (rw own at e) in
      let found : find_thread id' ts ≡ some u = rw (← here) at f in
      elim (Bool-cases (v.id == id')) [
        | inl same ↦ inl (ground arith)
        | inr differ ↦ inr (rw differ found)
      ]
  | inr other ↦ elim (Option-cases (take_thread id ts)) [
    | inl nowhere ↦ cc (rw (other, nowhere) at e)
    | inr ((w, rest), out) ↦
        let here = same_slots w t (some v ∷ rest) ts' (rw (other, out) at e) in
        let found = rw (← here) at f in
        elim (Bool-cases (v.id == id')) [
          | inl mine ↦ inr (rw mine (rw mine at found))
          | inr not_mine ↦ elim (take-find id id' ts w rest u out (rw not_mine at found)) [
            | inl same ↦ inl same
            | inr at_ ↦ inr (rw not_mine at_)
          ]
        ]
  ]
]

taken-OnlyCurrent :
    (id : ℕ) (s : Scheduler) (o : Option (Thread × List (Option Thread)))
    → take_thread id s.threads ≡ o
    → OnlyCurrent s
    → find_thread id (taken o s).1.threads ≡ none
    → OnlyCurrent (taken o s).1
unfolding OnlyCurrent
taken-OnlyCurrent id s none e h gone = h
taken-OnlyCurrent id s (some (v, ts')) e h gone = λ id' t at r.
    elim (take-find id id' s.threads v ts' t e at) [
      | inl same ↦
          let found : find_thread id ts' ≡ some t = ap (λ i. find_thread i ts') (sym same) ∙ at in
          let none_left : find_thread id ts' ≡ none = gone in cc (none_left, found)
      | inr before ↦ h id' t before r
    ]

remove_thread-OnlyCurrent :
    (id : ℕ) (s : Scheduler)
    → OnlyCurrent s
    → find_thread id (remove_thread id s).1.threads ≡ none
    → OnlyCurrent (remove_thread id s).1
unfolding remove_thread OnlyCurrent
remove_thread-OnlyCurrent id s h gone =
    taken-OnlyCurrent id (record s { run_queue = (remove id s.run_queue).1 })
      (take_thread id s.threads) refl h gone

wake_found-OnlyCurrent :
    (id : ℕ) (o : Option Thread) (s s' : Scheduler)
    → OnlyCurrent s
    → wake_found id o s ≡ ok s'
    → OnlyCurrent s'
wake_found-OnlyCurrent id none s s' h e = cc
wake_found-OnlyCurrent id (some t) s s' h e = elim (Bool-cases (is_blocked t.state)) [
  | inr awake ↦ cc (rw awake at e)
  | inl asleep ↦
      let woken = with_thread id (set_state ready) s in
      let is : ok (enqueue_thread id woken) ≡ ok s' = rw asleep at e in
      let same : enqueue_thread id woken ≡ s' = cc in
      rw same at (
        enqueue_thread-OnlyCurrent id woken
          (with_thread-OnlyCurrent id (set_state ready) s (λ t'. refl) (λ t' r. absurd (cc r)) h))
]

-- One call on the scheduler, with the next thread ID before and after. `idle_entry` is where
-- `idle_thread_entry` lies; `creates` is a call of `Thread::new`, which draws an ID.
pub data Step (idle_entry : ℕ) : Scheduler × ℕ → Scheduler × ℕ → Type 0 where
  creates : (s : Scheduler) (n : ℕ) → Step idle_entry (s, n) (s, n + 1)
  adds :
      (thread : Thread) (s s' : Scheduler) (n : ℕ)
      → thread.state ≢ running
      → thread.id < n
      → find_thread thread.id s.threads ≡ none
      → add_thread thread s ≡ ok s'
      → Step idle_entry (s, n) (s', n)
  removes : (id : ℕ) (s : Scheduler) (n : ℕ) → Step idle_entry (s, n) ((remove_thread id s).1, n)
  schedules :
      (s : Scheduler) (n : ℕ)
      → Step idle_entry (s, n) ((schedule idle_entry s n).0.1, (schedule idle_entry s n).1)
  yields :
      (s : Scheduler) (n : ℕ)
      → Step idle_entry (s, n) ((yield_cpu idle_entry s n).0.1, (yield_cpu idle_entry s n).1)
  blocks :
      (state : ThreadState) (s : Scheduler) (n : ℕ)
      → state ≢ running
      → Step idle_entry
          (s, n)
          (
            (block_current_thread idle_entry state s n).0.1,
            (block_current_thread idle_entry state s n).1,
          )
  wakes :
      (id : ℕ) (s s' : Scheduler) (n : ℕ)
      → wake_thread id s ≡ ok s'
      → Step idle_entry (s, n) (s', n)

-- The states that a new scheduler comes to.
pub data Reachable (idle_entry : ℕ) : Scheduler × ℕ → Type 0 where
  start : (n : ℕ) → Reachable idle_entry (new, n)
  step :
      (a b : Scheduler × ℕ) → Reachable idle_entry a → Step idle_entry a b → Reachable idle_entry b

-- The threads have different IDs, below the next one, and only the current one runs.
abbrev pub Exclusive : Scheduler × ℕ → Type 0
Exclusive a = Distinct a.1 a.0.threads × OnlyCurrent a.0

step-OnlyCurrent :
    (idle_entry : ℕ) (a b : Scheduler × ℕ) → Step idle_entry a b → Exclusive a → OnlyCurrent b.0
unfolding yield_cpu block_current_thread wake_thread
step-OnlyCurrent idle_entry a b (creates s n) (d, h) = h
step-OnlyCurrent idle_entry a b (adds thread s s' n idle low free e) (d, h) =
    add_thread-OnlyCurrent thread s s' h idle e
step-OnlyCurrent idle_entry a b (removes id s n) (d, h) =
    remove_thread-OnlyCurrent id s h (remove_thread-Distinct n id s d).1
step-OnlyCurrent idle_entry a b (schedules s n) (d, h) = schedule-OnlyCurrent idle_entry s n h
step-OnlyCurrent idle_entry a b (yields s n) (d, h) =
    schedule-OnlyCurrent idle_entry (with_current yielding s.current_thread s) n
      (with_current-OnlyCurrent yielding s.current_thread s yielding-id yielding-state h)
step-OnlyCurrent idle_entry a b (blocks state s n ne) (d, h) =
    schedule-OnlyCurrent idle_entry (with_current (blocking state) s.current_thread s) n (
      with_current-OnlyCurrent (blocking state) s.current_thread s (λ t. refl)
        (λ t r. absurd (ne r)) h)
step-OnlyCurrent idle_entry a b (wakes id s s' n e) (d, h) =
    wake_found-OnlyCurrent id (find_thread id s.threads) s s' h e

idle_thread-id : (idle_entry id : ℕ) → (idle_thread idle_entry id).id ≡ id
unfolding Thread.new Thread.init_stack
idle_thread-id idle_entry id = refl

go_idle-Distinct :
    (idle_entry n : ℕ) (s : Scheduler) (r : Result Error Scheduler)
    → Distinct n s.threads
    → add_thread (idle_thread idle_entry n) s ≡ r
    → Distinct (n + 1) (go_idle n r s).1.threads
go_idle-Distinct idle_entry n s (err e) d added = Distinct-suc n s.threads d
go_idle-Distinct idle_entry n s (ok s') d added =
    let own = idle_thread-id idle_entry n in
    add_thread-Distinct (n + 1) (idle_thread idle_entry n) s s' added (omega (arith, own))
      (ap (λ k. find_thread k s.threads) own ∙ find-next n s.threads d) (Distinct-suc n s.threads d)

abbrev Later : (Option ℕ × Scheduler) × ℕ → Type 0
Later r = Distinct r.1 r.0.1.threads

stay-Distinct :
    (idle_entry : ℕ) (o : Option ℕ) (s : Scheduler) (n : ℕ)
    → Distinct n s.threads
    → Later (stay idle_entry o s n)
unfolding stay
stay-Distinct idle_entry (some id) s n d = d
stay-Distinct idle_entry none s n d =
    go_idle-Distinct idle_entry n s (add_thread (idle_thread idle_entry n) s) d refl

scheduled-Distinct :
    (idle_entry : ℕ) (o : Option RunQueueEntry) (q : RunQueue) (s : Scheduler) (n : ℕ)
    → Distinct n s.threads
    → Later (scheduled idle_entry (o, q) s n)
scheduled-Distinct idle_entry (some entry) q s n d =
    switch-Distinct n entry s.current_thread (record s { run_queue = q }) d
scheduled-Distinct idle_entry none q s n d =
    stay-Distinct idle_entry s.current_thread (record s { run_queue = q }) n d

schedule-Distinct :
    (idle_entry : ℕ) (s : Scheduler) (n : ℕ)
    → Distinct n s.threads
    → Later (schedule idle_entry s n)
unfolding schedule
schedule-Distinct idle_entry s n d =
    scheduled-Distinct idle_entry (dequeue s.run_queue).0 (dequeue s.run_queue).1 s n d

wake_found-Distinct :
    (n id : ℕ) (o : Option Thread) (s s' : Scheduler)
    → Distinct n s.threads
    → wake_found id o s ≡ ok s'
    → Distinct n s'.threads
wake_found-Distinct n id none s s' d e = cc
wake_found-Distinct n id (some t) s s' d e = elim (Bool-cases (is_blocked t.state)) [
  | inr awake ↦ cc (rw awake at e)
  | inl asleep ↦
      let woken = with_thread id (set_state ready) s in
      let is : ok (enqueue_thread id woken) ≡ ok s' = rw asleep at e in
      let same : enqueue_thread id woken ≡ s' = cc in
      let threads : woken.threads ≡ s'.threads =
        sym (enqueue_thread-threads id woken) ∙ ap (λ u. u.threads) same in
      rw (← threads) (update-Distinct n id (set_state ready) s.threads (λ u. refl) d)
]

step-Distinct :
    (idle_entry : ℕ) (a b : Scheduler × ℕ)
    → Step idle_entry a b
    → Distinct a.1 a.0.threads
    → Distinct b.1 b.0.threads
unfolding yield_cpu block_current_thread wake_thread
step-Distinct idle_entry a b (creates s n) d = Distinct-suc n s.threads d
step-Distinct idle_entry a b (adds thread s s' n idle low free e) d =
    add_thread-Distinct n thread s s' e low free d
step-Distinct idle_entry a b (removes id s n) d = (remove_thread-Distinct n id s d).0
step-Distinct idle_entry a b (schedules s n) d = schedule-Distinct idle_entry s n d
step-Distinct idle_entry a b (yields s n) d =
    schedule-Distinct idle_entry (with_current yielding s.current_thread s) n
      (with_current-Distinct n yielding s.current_thread s yielding-id d)
step-Distinct idle_entry a b (blocks state s n ne) d =
    schedule-Distinct idle_entry (with_current (blocking state) s.current_thread s) n
      (with_current-Distinct n (blocking state) s.current_thread s (λ t. refl) d)
step-Distinct idle_entry a b (wakes id s s' n e) d =
    wake_found-Distinct n id (find_thread id s.threads) s s' d e

none-found : (n id : ℕ) → find_thread id (replicate n none) ≡ none
unfolding find_thread
none-found zero id = refl
none-found (suc n) id = none-found n id

reachable-Exclusive : (idle_entry : ℕ) (a : Scheduler × ℕ) → Reachable idle_entry a → Exclusive a
unfolding OnlyCurrent
reachable-Exclusive idle_entry a (start n) =
    (replicate-Distinct n max_threads, λ id t at r. cc (none-found max_threads id, at))
reachable-Exclusive idle_entry a (step b c reached s) =
    let before = reachable-Exclusive idle_entry b reached in
    (step-Distinct idle_entry b c s before.0, step-OnlyCurrent idle_entry b c s before)

-- In every state that a new scheduler comes to, a thread in a slot that is running is the current one, and
-- no other slot has a running thread. The steps are calls of the operations, where a thread that is added
-- is not running, has an ID that was drawn from the counter before and that no thread in a slot has, and
-- the current thread is not blocked as running.
pub reachable-OnlyCurrent :
    (idle_entry : ℕ) (a : Scheduler × ℕ) (i j : ℕ) (t u : Thread)
    → Reachable idle_entry a
    → slot a.0.threads i ≡ some t
    → t.state ≡ running
    → slot a.0.threads j ≡ some u
    → u.state ≡ running
    → (a.0.current_thread ≡ some t.id) × (i ≡ j)
unfolding OnlyCurrent
reachable-OnlyCurrent idle_entry a i j t u reached at r at' r' =
    let (d, h) = reachable-Exclusive idle_entry a reached in
    let first = h t.id t (find-slot a.1 a.0.threads i t d at) r in
    let second = h u.id u (find-slot a.1 a.0.threads j u d at') r' in
    let both : some t.id ≡ some u.id = sym first ∙ second in
    (first, slot-injective a.1 a.0.threads i j t u d at at' cc)
