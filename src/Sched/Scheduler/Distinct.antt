-- ===== src/Sched/Scheduler/Distinct.antt =====
-- The slots of the scheduler of src/sched/scheduler.rs: which operations keep the threads' IDs different
-- and below the next free one.
use rustux.Base.{
  ℕ, zero, suc, ◌+◌, ◌<◌, ◌≡◌, ◌≢◌, inl, inr, refl, ap, ◌∙◌, sym, Bool-cases, true, false, Option,
  none, some, List, [], ◌∷◌, arith, ◌==◌, Option-cases, ok, leb, replicate, slot,
}
use rustux.Sched.RunQueue.{RunQueueEntry, ready, remove}
use rustux.Sched.Thread.{Thread, set_state, is_running_state, is_runnable}
use rustux.Sched.Scheduler.{
  Scheduler, find_thread, update_thread, fill, enqueue_thread, enqueue_found, add_thread,
  take_thread, taken, remove_thread, requeue, requeue_current, dispatched, switch_to, get_thread,
  max_threads, with_current,
}
use rustux.Sched.Scheduler.Queues.{find-update-none}

-- No two slots have threads with one ID, and every ID is below `n`.
unfoldable pub Distinct : ℕ → List (Option Thread) → Type 0
Distinct n [] = Unit
Distinct n (none ∷ ts) = Distinct n ts
Distinct n (some t ∷ ts) = (t.id < n) × (find_thread t.id ts ≡ none) × Distinct n ts

pub replicate-Distinct : (n k : ℕ) → Distinct n (replicate k none)
unfolding Distinct
replicate-Distinct n zero = tt
replicate-Distinct n (suc k) = replicate-Distinct n k

pub Distinct-suc : (n : ℕ) (ts : List (Option Thread)) → Distinct n ts → Distinct (n + 1) ts
unfolding Distinct
Distinct-suc n [] d = tt
Distinct-suc n (none ∷ ts) d = Distinct-suc n ts d
Distinct-suc n (some t ∷ ts) (lt, alone, d) = (omega arith, alone, Distinct-suc n ts d)

-- The next ID is free.
pub find-next : (n : ℕ) (ts : List (Option Thread)) → Distinct n ts → find_thread n ts ≡ none
unfolding Distinct find_thread
find-next n [] d = refl
find-next n (none ∷ ts) d = find-next n ts d
find-next n (some t ∷ ts) (lt, alone, d) =
    let other : (t.id == n) ≡ false = ground arith in rw other (find-next n ts d)

-- A thread in a slot is the one that is found by its ID.
pub find-slot :
    (n : ℕ) (ts : List (Option Thread)) (i : ℕ) (t : Thread)
    → Distinct n ts
    → slot ts i ≡ some t
    → find_thread t.id ts ≡ some t
unfolding Distinct find_thread
find-slot n [] i t d at = cc
find-slot n (none ∷ ts) zero t d at = cc
find-slot n (none ∷ ts) (suc i) t d at = find-slot n ts i t d at
find-slot n (some u ∷ ts) zero t d at = let own : (u.id == t.id) ≡ true = ground arith in rw own at
find-slot n (some u ∷ ts) (suc i) t (lt, alone, d) at =
    let later = find-slot n ts i t d at in
    elim (Bool-cases (u.id == t.id)) [
      | inl same ↦
          let is : u.id ≡ t.id = ground arith in cc (alone, ap (λ k. find_thread k ts) is, later)
      | inr other ↦ rw other later
    ]

-- Threads with one ID are in one slot.
pub slot-injective :
    (n : ℕ) (ts : List (Option Thread)) (i j : ℕ) (t u : Thread)
    → Distinct n ts
    → slot ts i ≡ some t
    → slot ts j ≡ some u
    → t.id ≡ u.id
    → i ≡ j
unfolding Distinct
slot-injective n [] i j t u d at at' same = cc
slot-injective n (none ∷ ts) zero j t u d at at' same = cc
slot-injective n (none ∷ ts) (suc i) zero t u d at at' same = cc
slot-injective n (none ∷ ts) (suc i) (suc j) t u d at at' same =
    ap suc (slot-injective n ts i j t u d at at' same)
slot-injective n (some v ∷ ts) zero zero t u d at at' same = refl
slot-injective n (some v ∷ ts) zero (suc j) t u (lt, alone, d) at at' same =
    let is : v ≡ t = cc in
    let here : v.id ≡ u.id = ap (λ x. x.id) is ∙ same in
    cc (alone, ap (λ k. find_thread k ts) here, find-slot n ts j u d at')
slot-injective n (some v ∷ ts) (suc i) zero t u (lt, alone, d) at at' same =
    let is : v ≡ u = cc in
    let here : v.id ≡ t.id = ap (λ x. x.id) is ∙ sym same in
    cc (alone, ap (λ k. find_thread k ts) here, find-slot n ts i t d at)
slot-injective n (some v ∷ ts) (suc i) (suc j) t u (lt, alone, d) at at' same =
    ap suc (slot-injective n ts i j t u d at at' same)

pub update-Distinct :
    (n id : ℕ) (f : Thread → Thread) (ts : List (Option Thread))
    → ((t : Thread) → (f t).id ≡ t.id)
    → Distinct n ts
    → Distinct n (update_thread id f ts)
unfolding Distinct update_thread
update-Distinct n id f [] keeps d = tt
update-Distinct n id f (none ∷ ts) keeps d = update-Distinct n id f ts keeps d
update-Distinct n id f (some t ∷ ts) keeps (lt, alone, d) = elim (Bool-cases (t.id == id)) [
  | inl here ↦ rw here (omega (arith, keeps t), ap (λ k. find_thread k ts) (keeps t) ∙ alone, d)
  | inr away ↦
      rw away (lt, find-update-none id t.id f ts keeps alone, update-Distinct n id f ts keeps d)
]

find-fill-none :
    (thread : Thread) (id : ℕ) (ts ts' : List (Option Thread))
    → fill thread ts ≡ some ts'
    → thread.id ≢ id
    → find_thread id ts ≡ none
    → find_thread id ts' ≡ none
unfolding find_thread fill
find-fill-none thread id [] ts' e ne f = cc
find-fill-none thread id (none ∷ ts) ts' e ne f =
    let here : some thread ∷ ts ≡ ts' = cc in
    let other : (thread.id == id) ≡ false = ground arith in rw (← here, other) f
find-fill-none thread id (some t ∷ ts) ts' e ne f = elim (Option-cases (fill thread ts)) [
  | inl full ↦ cc (rw full at e)
  | inr (rest, some_free) ↦
      let here : some t ∷ rest ≡ ts' = cc (rw some_free at e) in
      elim (Bool-cases (t.id == id)) [
        | inl own ↦ cc (rw own at f)
        | inr other ↦
            rw (← here, other) (find-fill-none thread id ts rest some_free ne (rw other at f))
      ]
]

pub fill-Distinct :
    (n : ℕ) (thread : Thread) (ts ts' : List (Option Thread))
    → fill thread ts ≡ some ts'
    → thread.id < n
    → find_thread thread.id ts ≡ none
    → Distinct n ts
    → Distinct n ts'
unfolding find_thread fill Distinct
fill-Distinct n thread [] ts' e lt free d = cc
fill-Distinct n thread (none ∷ ts) ts' e lt free d =
    let here : some thread ∷ ts ≡ ts' = cc in rw (← here) (lt, free, d)
fill-Distinct n thread (some t ∷ ts) ts' e lt free (lt', alone, d) =
    elim (Option-cases (fill thread ts)) [
      | inl full ↦ cc (rw full at e)
      | inr (rest, some_free) ↦
          let here : some t ∷ rest ≡ ts' = cc (rw some_free at e) in
          elim (Bool-cases (t.id == thread.id)) [
            | inl own ↦ cc (rw own at free)
            | inr other ↦ rw (← here) (
              lt',
              find-fill-none thread t.id ts rest some_free (λ q. ground arith) alone,
              fill-Distinct n thread ts rest some_free lt (rw other at free) d,
            )
          ]
    ]

-- What is taken leaves no thread with its ID, and the others as they were.
pub record Leaves (n id : ℕ) (ts ts' : List (Option Thread)) : Type 0 where
  pub distinct : Distinct n ts'
  pub gone : find_thread id ts' ≡ none
  pub still_none : (id' : ℕ) → find_thread id' ts ≡ none → find_thread id' ts' ≡ none

same_rest :
    (v t : Thread) (ts ts' : List (Option Thread))
    → ◌≡◌ {A = Option (Thread × List (Option Thread))} (some (v, ts)) (some (t, ts'))
    → ts ≡ ts'
same_rest v t ts ts' e = ap (λ o. elim o [ none ↦ ts | some (u, us) ↦ us ]) e

pub take-Leaves :
    (n id : ℕ) (ts : List (Option Thread)) (v : Thread) (ts' : List (Option Thread))
    → take_thread id ts ≡ some (v, ts')
    → Distinct n ts
    → Leaves n id ts ts'
unfolding take_thread find_thread Distinct
take-Leaves n id [] v ts' e d = cc
take-Leaves n id (none ∷ ts) v ts' e d = elim (Option-cases (take_thread id ts)) [
  | inl nowhere ↦ cc (rw nowhere at e)
  | inr ((w, rest), out) ↦
      let here = same_rest w v (none ∷ rest) ts' (rw out at e) in
      let r = take-Leaves n id ts w rest out d in
      rw (← here) (record { distinct = r.distinct; gone = r.gone; still_none = r.still_none })
]
take-Leaves n id (some t ∷ ts) v ts' e (lt, alone, d) = elim (Bool-cases (t.id == id)) [
  | inl own ↦
      let here = same_rest t v (none ∷ ts) ts' (rw own at e) in
      let is : t.id ≡ id = ground arith in
      rw (← here) (record {
        distinct = d;
        gone = ap (λ k. find_thread k ts) (sym is) ∙ alone;
        still_none = λ id' f. elim (Bool-cases (t.id == id')) [
          | inl mine ↦ cc (rw mine at f)
          | inr other ↦ rw other at f
        ];
      })
  | inr away ↦ elim (Option-cases (take_thread id ts)) [
    | inl nowhere ↦ cc (rw (away, nowhere) at e)
    | inr ((w, rest), out) ↦
        let here = same_rest w v (some t ∷ rest) ts' (rw (away, out) at e) in
        let r = take-Leaves n id ts w rest out d in
        rw (← here) (record {
          distinct = (lt, r.still_none t.id alone, r.distinct);
          gone = rw away r.gone;
          still_none = λ id' f. elim (Bool-cases (t.id == id')) [
            | inl mine ↦ cc (rw mine at f)
            | inr other ↦ rw other (r.still_none id' (rw other at f))
          ];
        })
  ]
]

pub take-missing :
    (id : ℕ) (ts : List (Option Thread)) → take_thread id ts ≡ none → find_thread id ts ≡ none
unfolding take_thread find_thread
take-missing id [] e = refl
take-missing id (none ∷ ts) e = elim (Option-cases (take_thread id ts)) [
  | inl nowhere ↦ take-missing id ts nowhere
  | inr ((w, rest), out) ↦ cc (rw out at e)
]
take-missing id (some t ∷ ts) e = elim (Bool-cases (t.id == id)) [
  | inl own ↦ cc (rw own at e)
  | inr away ↦ elim (Option-cases (take_thread id ts)) [
    | inl nowhere ↦ rw away (take-missing id ts nowhere)
    | inr ((w, rest), out) ↦ cc (rw (away, out) at e)
  ]
]

taken-Distinct :
    (n id : ℕ) (s : Scheduler) (o : Option (Thread × List (Option Thread)))
    → take_thread id s.threads ≡ o
    → Distinct n s.threads
    → Distinct n (taken o s).1.threads × (find_thread id (taken o s).1.threads ≡ none)
taken-Distinct n id s none e d = (d, take-missing id s.threads e)
taken-Distinct n id s (some (v, ts')) e d =
    let r = take-Leaves n id s.threads v ts' e d in (r.distinct, r.gone)

pub remove_thread-Distinct :
    (n id : ℕ) (s : Scheduler)
    → Distinct n s.threads
    → Distinct n (remove_thread id s).1.threads
      × (find_thread id (remove_thread id s).1.threads ≡ none)
unfolding remove_thread
remove_thread-Distinct n id s d =
    taken-Distinct n id (record s { run_queue = (remove id s.run_queue).1 })
      (take_thread id s.threads) refl d

enqueue_found-threads :
    (id : ℕ) (o : Option Thread) (s : Scheduler) → (enqueue_found id o s).threads ≡ s.threads
enqueue_found-threads id none s = refl
enqueue_found-threads id (some t) s = elim (Bool-cases (is_runnable t)) [
  | inl yes_ ↦ rw yes_ refl
  | inr no_ ↦ rw no_ refl
]

pub enqueue_thread-threads : (id : ℕ) (s : Scheduler) → (enqueue_thread id s).threads ≡ s.threads
unfolding enqueue_thread
enqueue_thread-threads id s = enqueue_found-threads id (get_thread id s) s

pub add_thread-Distinct :
    (n : ℕ) (thread : Thread) (s s' : Scheduler)
    → add_thread thread s ≡ ok s'
    → thread.id < n
    → find_thread thread.id s.threads ≡ none
    → Distinct n s.threads
    → Distinct n s'.threads
unfolding add_thread
add_thread-Distinct n thread s s' e lt free d = elim (Bool-cases (leb max_threads s.thread_count)) [
  | inl many ↦ cc (rw many at e)
  | inr room ↦ elim (Option-cases (fill thread s.threads)) [
    | inl full ↦ cc (rw (room, full) at e)
    | inr (ts, f) ↦
        let placed : Scheduler = record s { threads = ts; thread_count = s.thread_count + 1 } in
        let is : ok (enqueue_thread thread.id placed) ≡ ok s' = rw (room, f) at e in
        let same : enqueue_thread thread.id placed ≡ s' = cc in
        let threads : ts ≡ s'.threads =
          sym (enqueue_thread-threads thread.id placed) ∙ ap (λ u. u.threads) same in
        rw (← threads) (fill-Distinct n thread s.threads ts f lt free d)
  ]
]

pub with_current-Distinct :
    (n : ℕ) (f : Thread → Thread) (o : Option ℕ) (s : Scheduler)
    → ((t : Thread) → (f t).id ≡ t.id)
    → Distinct n s.threads
    → Distinct n (with_current f o s).threads
with_current-Distinct n f none s keeps d = d
with_current-Distinct n f (some id) s keeps d = update-Distinct n id f s.threads keeps d

requeue-Distinct :
    (n id : ℕ) (o : Option Thread) (s : Scheduler)
    → Distinct n s.threads
    → Distinct n (requeue id o s).threads
requeue-Distinct n id none s d = d
requeue-Distinct n id (some t) s d = elim (Bool-cases (is_running_state t.state)) [
  | inl runs ↦ rw runs (update-Distinct n id (set_state ready) s.threads (λ u. refl) d)
  | inr stopped ↦ rw stopped d
]

requeue_current-Distinct :
    (n : ℕ) (o : Option ℕ) (s : Scheduler)
    → Distinct n s.threads
    → Distinct n (requeue_current o s).threads
unfolding requeue_current
requeue_current-Distinct n none s d = d
requeue_current-Distinct n (some id) s d = requeue-Distinct n id (get_thread id s) s d

pub switch-Distinct :
    (n : ℕ) (entry : RunQueueEntry) (o : Option ℕ) (s : Scheduler)
    → Distinct n s.threads
    → Distinct n (switch_to entry (requeue_current o s)).threads
unfolding switch_to
switch-Distinct n entry o s d =
    update-Distinct n entry.thread_id (dispatched entry.time_slice) (requeue_current o s).threads
      (λ u. refl) (requeue_current-Distinct n o s d)
