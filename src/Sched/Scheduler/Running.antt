-- ===== src/Sched/Scheduler/Running.antt =====
-- Which operations of src/sched/scheduler.rs keep it so that, of the threads that a search by ID finds,
-- only the current one is running.
use rustux.Base.{
  ℕ, ◌+◌, ◌≡◌, ◌≢◌, ◌⊎◌, inl, inr, refl, ap, ◌∙◌, sym, Bool-cases, true, false, Option, none, some,
  List, [], ◌∷◌, arith, ◌==◌, ℕ_discrete, Option-cases, ok, leb,
}
use rustux.Sched.RunQueue.{RunQueueEntry, ready, running}
use rustux.Sched.Thread.{Thread, set_state, is_running_state, is_runnable}
use rustux.Sched.Scheduler.{
  Scheduler, find_thread, update_thread, with_thread, fill, enqueue_thread, enqueue_found,
  add_thread, requeue_current, dispatched, switch_to, get_thread, max_threads,
}

-- A thread that can be found by its ID and is running is the current one.
unfoldable pub OnlyCurrent : Scheduler → Type 0
OnlyCurrent s =
    (id : ℕ) (t : Thread)
    → find_thread id s.threads ≡ some t
    → t.state ≡ running
    → s.current_thread ≡ some id

-- What a search finds after a change in place.
find-update :
    (id id' : ℕ) (f : Thread → Thread) (ts : List (Option Thread)) (u : Thread)
    → ((t : Thread) → (f t).id ≡ t.id)
    → find_thread id' (update_thread id f ts) ≡ some u
    → ((id' ≡ id) × (t : Thread) × (find_thread id ts ≡ some t) × (u ≡ f t))
      ⊎ ((id' ≢ id) × (find_thread id' ts ≡ some u))
unfolding find_thread update_thread
find-update id id' f [] u keeps e = cc
find-update id id' f (none ∷ ts) u keeps e = find-update id id' f ts u keeps e
find-update id id' f (some t ∷ ts) u keeps e = elim (Bool-cases (t.id == id)) [
  | inl here ↦ elim (ℕ_discrete id' id) [
    | yes same ↦
        let own : ((f t).id == id') ≡ true =
          ap (◌==◌ _) same ∙ ap (λ i. i == id) (keeps t) ∙ here in
        let first : f t ≡ u = cc (rw (here, own) at e) in inl (same, t, rw here refl, sym first)
    | no other ↦
        let not_own : ((f t).id == id') ≡ false = ground (arith, keeps t) in
        let not_own' : (t.id == id') ≡ false = ground arith in
        inr (other, rw not_own' (rw (here, not_own) at e))
  ]
  | inr away ↦ elim (Bool-cases (t.id == id')) [
    | inl mine ↦
        let here' : some t ≡ some u = rw (away, mine) at e in
        inr (λ same. ground arith, rw mine here')
    | inr not_mine ↦
        let later = find-update id id' f ts u keeps (rw (away, not_mine) at e) in
        elim later [
          | inl (same, t', at, is) ↦ inl (same, t', rw away at, is)
          | inr (other, at) ↦ inr (other, rw not_mine at)
        ]
  ]
]

find-fill :
    (thread : Thread) (id : ℕ) (ts ts' : List (Option Thread)) (u : Thread)
    → fill thread ts ≡ some ts'
    → find_thread id ts' ≡ some u
    → (u ≡ thread) ⊎ (find_thread id ts ≡ some u)
unfolding find_thread fill
find-fill thread id [] ts' u e f = cc
find-fill thread id (none ∷ ts) ts' u e f =
    let here : some thread ∷ ts ≡ ts' = cc in
    let found = rw (← here) at f in
    elim (Bool-cases (thread.id == id)) [
      | inl own ↦ let same : some thread ≡ some u = rw own at found in inl (cc)
      | inr other ↦ inr (rw other at found)
    ]
find-fill thread id (some t ∷ ts) ts' u e f = elim (Option-cases (fill thread ts)) [
  | inl full ↦ let bad : none ≡ some ts' = rw full at e in cc
  | inr (rest, some_free) ↦
      let here : some t ∷ rest ≡ ts' = cc (rw some_free at e) in
      let found = rw (← here) at f in
      elim (Bool-cases (t.id == id)) [
        | inl own ↦ inr (rw own (rw own at found))
        | inr other ↦ elim (find-fill thread id ts rest u some_free (rw other at found)) [
          | inl is ↦ inl is
          | inr at ↦ inr (rw other at)
        ]
      ]
]

-- Only the thread `id` may run afterwards, if that holds before or the change stops the others.
pub with_thread-OnlyCurrent :
    (id : ℕ) (f : Thread → Thread) (s : Scheduler)
    → ((t : Thread) → (f t).id ≡ t.id)
    → ((t : Thread) → (f t).state ≡ running → t.state ≡ running)
    → OnlyCurrent s
    → OnlyCurrent (with_thread id f s)
unfolding OnlyCurrent
with_thread-OnlyCurrent id f s keeps stops h id' u e r =
    elim (find-update id id' f s.threads u keeps e) [
      | inl (same, t, at, is) ↦
          h id' t (ap (λ i. find_thread i s.threads) same ∙ at)
            (stops t (ap (λ t'. t'.state) (sym is) ∙ r))
      | inr (other, at) ↦ h id' u at r
    ]

enqueue_found-same :
    (id : ℕ) (o : Option Thread) (s : Scheduler)
    → ((enqueue_found id o s).threads ≡ s.threads)
      × ((enqueue_found id o s).current_thread ≡ s.current_thread)
enqueue_found-same id none s = (refl, refl)
enqueue_found-same id (some t) s = elim (Bool-cases (is_runnable t)) [
  | inl yes_ ↦ rw yes_ (refl, refl)
  | inr no_ ↦ rw no_ (refl, refl)
]

pub enqueue_thread-OnlyCurrent :
    (id : ℕ) (s : Scheduler) → OnlyCurrent s → OnlyCurrent (enqueue_thread id s)
unfolding OnlyCurrent enqueue_thread
enqueue_thread-OnlyCurrent id s h id' t e r =
    let (same, current) = enqueue_found-same id (get_thread id s) s in
    current ∙ h id' t (ap (find_thread id') (sym same) ∙ e) r

abbrev placed : Scheduler → List (Option Thread) → Scheduler
placed s ts = record s { threads = ts; thread_count = s.thread_count + 1 }

placed-OnlyCurrent :
    (thread : Thread) (s : Scheduler) (ts : List (Option Thread))
    → OnlyCurrent s
    → thread.state ≢ running
    → fill thread s.threads ≡ some ts
    → OnlyCurrent (placed s ts)
unfolding OnlyCurrent
placed-OnlyCurrent thread s ts h idle f id t at r = elim (find-fill thread id s.threads ts t f at) [
  | inl is ↦ absurd (idle (ap (λ t'. t'.state) (sym is) ∙ r))
  | inr before ↦ h id t before r
]

pub add_thread-OnlyCurrent :
    (thread : Thread) (s s' : Scheduler)
    → OnlyCurrent s
    → thread.state ≢ running
    → add_thread thread s ≡ ok s'
    → OnlyCurrent s'
unfolding add_thread
add_thread-OnlyCurrent thread s s' h idle e = elim (Bool-cases (leb max_threads s.thread_count)) [
  | inl many ↦ cc (rw many at e)
  | inr room ↦ elim (Option-cases (fill thread s.threads)) [
    | inl full ↦ cc (rw (room, full) at e)
    | inr (ts, f) ↦
        let is : ok (enqueue_thread thread.id (placed s ts)) ≡ ok s' = rw (room, f) at e in
        let same : enqueue_thread thread.id (placed s ts) ≡ s' = cc in
        rw same at (
          enqueue_thread-OnlyCurrent thread.id (placed s ts)
            (placed-OnlyCurrent thread s ts h idle f))
  ]
]

pub add_thread-current :
    (thread : Thread) (s s' : Scheduler)
    → add_thread thread s ≡ ok s'
    → s'.current_thread ≡ s.current_thread
unfolding add_thread enqueue_thread
add_thread-current thread s s' e = elim (Bool-cases (leb max_threads s.thread_count)) [
  | inl many ↦ cc (rw many at e)
  | inr room ↦ elim (Option-cases (fill thread s.threads)) [
    | inl full ↦ cc (rw (room, full) at e)
    | inr (ts, f) ↦
        let is : ok (enqueue_thread thread.id (placed s ts)) ≡ ok s' = rw (room, f) at e in
        let same : enqueue_thread thread.id (placed s ts) ≡ s' = cc in
        ap (λ u. u.current_thread) (sym same)
        ∙ (enqueue_found-same thread.id (get_thread thread.id (placed s ts)) (placed s ts)).1
  ]
]

-- No thread that can be found is running.
unfoldable pub NoneRuns : Scheduler → Type 0
NoneRuns s = (id : ℕ) (t : Thread) → find_thread id s.threads ≡ some t → t.state ≢ running

pub requeue_current-NoneRuns :
    (s : Scheduler) → OnlyCurrent s → NoneRuns (requeue_current s.current_thread s)
unfolding OnlyCurrent NoneRuns requeue_current
requeue_current-NoneRuns s h = elim (Option-cases s.current_thread) [
  | inl no_current ↦ rw no_current (λ id t at r. cc (h id t at r, no_current))
  | inr (cur, is) ↦ rw is (elim (Option-cases (find_thread cur s.threads)) [
    | inl nowhere ↦ rw nowhere (λ id t at r.
        let same : id ≡ cur = cc (h id t at r, is) in
        cc (nowhere, ap (λ i. find_thread i s.threads) (sym same) ∙ at))
    | inr (t0, found) ↦ rw found (elim (Bool-cases (is_running_state t0.state)) [
      | inl runs ↦ rw runs (λ id t at r.
          elim (find-update cur id (set_state ready) s.threads t (λ t'. refl) at) [
            | inl (same, t', at', is') ↦
                let r' : ready ≡ running = ap (λ t''. t''.state) (sym is') ∙ r in cc r'
            | inr (other, at') ↦ absurd (other (cc (h id t at' r, is)))
          ])
      | inr stopped ↦ rw stopped (λ id t at r.
          let same : id ≡ cur = cc (h id t at r, is) in
          let same_thread : some t0 ≡ some t =
            sym found ∙ ap (λ i. find_thread i s.threads) (sym same) ∙ at in
          let runs : t0.state ≡ running =
            ap (λ o. elim o [ none ↦ ready | some t' ↦ t'.state ]) same_thread ∙ r in
          cc (stopped, ap is_running_state runs))
    ])
  ])
]

pub switch_to-OnlyCurrent :
    (entry : RunQueueEntry) (s : Scheduler) → NoneRuns s → OnlyCurrent (switch_to entry s)
unfolding OnlyCurrent NoneRuns switch_to
switch_to-OnlyCurrent entry s h id t at r =
    elim (find-update entry.thread_id id (dispatched entry.time_slice) s.threads t (λ t'. refl)
      at) [
        | inl (same, t', at', is) ↦ ap some (sym same)
        | inr (other, at') ↦ absurd (h id t at' r)
      ]
