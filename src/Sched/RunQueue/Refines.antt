-- ===== src/Sched/RunQueue/Refines.antt =====
-- The run queue of src/sched/state.rs against five plain lists, one for each priority.
use rustux.Base.{
  ℕ, zero, suc, ◌+◌, ◌≡◌, ◌⊎◌, inl, inr, refl, ap, Bool, Bool-cases, true, false, Option, none,
  some, List, [], ◌∷◌, ◌++◌, arith, length, set, get_elem?, ltb, if◌then◌else◌, length-append,
}
use rustux.Sched.RunQueue.{
  RunQueueEntry, RunQueue, Level, max_per_priority, enqueue, enqueue_at, dequeue, dequeue_below,
  dequeue_at, remove, remove_from, priority_index, new, pushed, popped,
}
use rustux.Sched.RunQueue.Levels.{
  Represents, empty-Represents, pushed-Represents, popped-Represents, remove_at-place, without,
}

-- The specification: for each priority, from the lowest on, its entries in order of arrival.
abbrev pub Lists : Type 0
Lists = List (List RunQueueEntry)

abbrev pub total : Lists → ℕ
total [] = 0
total (xs ∷ xss) = length xs + total xss

-- A new entry goes behind those of its priority, if these are fewer than 64.
unfoldable pub append_at : RunQueueEntry → Option (List RunQueueEntry) → Lists → Lists
append_at entry none xss = xss
append_at entry (some xs) xss =
    if ltb (length xs) max_per_priority
    then set xss (priority_index entry.priority) (xs ++ (entry ∷ []))
    else xss

unfoldable pub append_to : RunQueueEntry → Lists → Lists
append_to entry xss = append_at entry (get_elem? xss (priority_index entry.priority)) xss

abbrev pub first_or :
    ℕ
    → Option (List RunQueueEntry)
    → Lists
    → Option RunQueueEntry × Lists
    → Option RunQueueEntry × Lists
first_or i none xss rest = rest
first_or i (some []) xss rest = rest
first_or i (some (x ∷ xs)) xss rest = (some x, set xss i xs)

-- The first entry of the last of the first `n` lists that has any.
unfoldable pub first_below : ℕ → Lists → Option RunQueueEntry × Lists
first_below zero xss = (none, xss)
first_below (suc i) xss = first_or i (get_elem? xss i) xss (first_below i xss)

abbrev pub taken_or :
    Option (List RunQueueEntry) → List RunQueueEntry → Lists → Option Lists → Option Lists
taken_or (some ys) xs xss rest = some (ys ∷ xss)
taken_or none xs xss none = none
taken_or none xs xss (some yss) = some (xs ∷ yss)

-- The lists without the thread's first entry, in the lowest priority that has one.
unfoldable pub take_out : ℕ → Lists → Option Lists
take_out thread_id [] = none
take_out thread_id (xs ∷ xss) = taken_or (without thread_id xs) xs xss (take_out thread_id xss)

-- The levels are rings for the lists.
pub All : List Level → Lists → Type 0
All [] [] = Unit
All (l ∷ ls) (xs ∷ xss) = Represents l xs × All ls xss
All [] (xs ∷ xss) = ⊥
All (l ∷ ls) [] = ⊥

pub record Models (q : RunQueue) (xss : Lists) : Type 0 where
  pub rings : All q.levels xss
  pub summed : q.total_count ≡ total xss

All-get :
    (ls : List Level) (xss : Lists) (i : ℕ)
    → All ls xss
    → ((get_elem? ls i ≡ none) × (get_elem? xss i ≡ none))
      ⊎ ((l : Level) × (xs : List RunQueueEntry) × (get_elem? ls i ≡ some l)
          × (get_elem? xss i ≡ some xs)
          × Represents l xs)
unfolding All
All-get [] [] i h = inl (refl, refl)
All-get [] (xs ∷ xss) i h = elim h [ ]
All-get (l ∷ ls) [] i h = elim h [ ]
All-get (l ∷ ls) (xs ∷ xss) zero h = inr (l, xs, refl, refl, h.0)
All-get (l ∷ ls) (xs ∷ xss) (suc i) h = All-get ls xss i h.1

All-set :
    (ls : List Level) (xss : Lists) (i : ℕ) (l : Level) (xs : List RunQueueEntry)
    → All ls xss
    → Represents l xs
    → All (set ls i l) (set xss i xs)
unfolding All
All-set [] [] i l xs h r = h
All-set [] (ys ∷ xss) i l xs h r = elim h [ ]
All-set (k ∷ ls) [] i l xs h r = elim h [ ]
All-set (k ∷ ls) (ys ∷ xss) zero l xs h r = (r, h.1)
All-set (k ∷ ls) (ys ∷ xss) (suc i) l xs h r = (h.0, All-set ls xss i l xs h.1 r)

total-set :
    (xss : Lists) (i : ℕ) (xs ys : List RunQueueEntry)
    → get_elem? xss i ≡ some xs
    → total (set xss i ys) + length xs ≡ total xss + length ys
total-set [] i xs ys e = cc
total-set (zs ∷ xss) zero xs ys e = let same : length zs ≡ length xs = cc in omega arith
total-set (zs ∷ xss) (suc i) xs ys e = omega (arith, total-set xss i xs ys e)

pub new-Models : Models new ([] ∷ [] ∷ [] ∷ [] ∷ [] ∷ [])
unfolding All
new-Models = record {
  rings = (
    empty-Represents,
    (empty-Represents, (empty-Represents, (empty-Represents, (empty-Represents, tt)))),
  );
  summed = refl;
}

pub enqueue_lem :
    (entry : RunQueueEntry) (q : RunQueue) (xss : Lists)
    → Models q xss
    → Models (enqueue entry q) (append_to entry xss)
unfolding enqueue append_to enqueue_at append_at
enqueue_lem entry q xss m =
    let i = priority_index entry.priority in
    elim (All-get q.levels xss i m.rings) [
      | inl (no_level, no_list) ↦ rw (no_level, no_list) m
      | inr (l, xs, at, at', r) ↦
          rw (at, at', ← r.counted)
            (elim (Bool-cases (ltb l.count max_per_priority)) [
              | inl room ↦ rw room (record {
                rings =
                    All-set q.levels xss i (pushed entry l) (xs ++ (entry ∷ [])) m.rings
                      (pushed-Represents entry l xs r (ground (arith, r.counted)));
                summed = omega (
                  arith,
                  m.summed,
                  total-set xss i xs (xs ++ (entry ∷ [])) at',
                  length-append xs (entry ∷ []),
                );
              })
              | inr full ↦ rw full m
            ])
    ]

-- Both give the same entry, and what is left corresponds.
unfoldable pub Agree : Option RunQueueEntry × RunQueue → Option RunQueueEntry × Lists → Type 0
Agree a b = (a.0 ≡ b.0) × Models a.1 b.1

dequeue_at-Agree :
    (i : ℕ) (q : RunQueue) (xss : Lists) (a : Option RunQueueEntry × RunQueue)
    (b : Option RunQueueEntry × Lists)
    → Models q xss
    → Agree a b
    → Agree (dequeue_at i (get_elem? q.levels i) q a) (first_or i (get_elem? xss i) xss b)
unfolding dequeue_at Agree
dequeue_at-Agree i q xss a b m rest = elim (All-get q.levels xss i m.rings) [
  | inl (no_level, no_list) ↦ rw (no_level, no_list) rest
  | inr (l, [], at, at', r) ↦
      let none_left : ltb 0 l.count ≡ false = ground (arith, r.counted) in
      rw (at, at', none_left) rest
  | inr (l, x ∷ xs, at, at', r) ↦
      let some_left : ltb 0 l.count ≡ true = ground (arith, r.counted) in
      let (first, behind) = popped-Represents l x xs r in
      rw (at, at', some_left)
        (
          first,
          record {
            rings = All-set q.levels xss i (popped l) xs m.rings behind;
            summed = omega (arith, m.summed, total-set xss i (x ∷ xs) xs at');
          },
        )
]

pub dequeue_below-Agree :
    (n : ℕ) (q : RunQueue) (xss : Lists)
    → Models q xss
    → Agree (dequeue_below n q) (first_below n xss)
unfolding dequeue_below first_below Agree
dequeue_below-Agree zero q xss m = (refl, m)
dequeue_below-Agree (suc i) q xss m =
    dequeue_at-Agree i q xss (dequeue_below i q) (first_below i xss) m
      (dequeue_below-Agree i q xss m)

pub remove_from-All :
    (thread_id : ℕ) (ls : List Level) (xss : Lists)
    → All ls xss
    → ((remove_from thread_id ls ≡ none) × (take_out thread_id xss ≡ none))
      ⊎ ((ls' : List Level) × (xss' : Lists) × (remove_from thread_id ls ≡ some ls')
          × (take_out thread_id xss ≡ some xss')
          × All ls' xss'
          × (total xss' + 1 ≡ total xss))
unfolding remove_from take_out All
remove_from-All thread_id [] [] h = inl (refl, refl)
remove_from-All thread_id [] (xs ∷ xss) h = elim h [ ]
remove_from-All thread_id (l ∷ ls) [] h = elim h [ ]
remove_from-All thread_id (l ∷ ls) (xs ∷ xss) h = elim (remove_at-place thread_id l xs h.0) [
  | inr (l', ys, out, kept, r, fewer) ↦
      inr (l' ∷ ls, ys ∷ xss, rw out refl, rw kept refl, (r, h.1), omega arith)
  | inl (not_in, kept) ↦ elim (remove_from-All thread_id ls xss h.1) [
    | inl (nowhere, same) ↦ inl (rw (not_in, nowhere) refl, rw (kept, same) refl)
    | inr (ls', xss', out, same, all, fewer) ↦
        inr
          (l ∷ ls', xs ∷ xss', rw (not_in, out) refl, rw (kept, same) refl, (h.0, all), omega arith)
  ]
]

-- What the specification's removal answers and leaves.
abbrev pub removal : Option Lists → Lists → Bool × Lists
removal none xss = (false, xss)
removal (some xss') xss = (true, xss')

pub remove_thread_lem :
    (thread_id : ℕ) (q : RunQueue) (xss : Lists)
    → Models q xss
    → ((remove thread_id q).0 ≡ (removal (take_out thread_id xss) xss).0)
      × Models (remove thread_id q).1 (removal (take_out thread_id xss) xss).1
unfolding remove
remove_thread_lem thread_id q xss m = elim (remove_from-All thread_id q.levels xss m.rings) [
  | inl (nowhere, same) ↦ rw (nowhere, same) (refl, m)
  | inr (ls', xss', out, same, all, fewer) ↦
      rw (out, same) (refl, record { rings = all; summed = omega (arith, m.summed) })
]

pub data Operation : Type 0 where
  enqueues : RunQueueEntry → Operation
  dequeues : Operation
  removes : ℕ → Operation

pub data Answer : Type 0 where
  unit : Answer
  entry : Option RunQueueEntry → Answer
  found : Bool → Answer

-- The answers of a sequence of calls on the run queue.
unfoldable pub run : List Operation → RunQueue → List Answer
run [] q = []
run (enqueues e ∷ ops) q = unit ∷ run ops (enqueue e q)
run (dequeues ∷ ops) q = entry (dequeue q).0 ∷ run ops (dequeue q).1
run (removes id ∷ ops) q = found (remove id q).0 ∷ run ops (remove id q).1

-- The answers of the same calls on the five lists.
unfoldable pub run_lists : List Operation → Lists → List Answer
run_lists [] xss = []
run_lists (enqueues e ∷ ops) xss = unit ∷ run_lists ops (append_to e xss)
run_lists (dequeues ∷ ops) xss = entry (first_below 5 xss).0 ∷ run_lists ops (first_below 5 xss).1
run_lists (removes id ∷ ops) xss =
    found (removal (take_out id xss) xss).0 ∷ run_lists ops (removal (take_out id xss) xss).1

run-Models :
    (ops : List Operation) (q : RunQueue) (xss : Lists)
    → Models q xss
    → run ops q ≡ run_lists ops xss
unfolding run run_lists dequeue Agree
run-Models [] q xss m = refl
run-Models (enqueues e ∷ ops) q xss m = ap (◌∷◌ unit) (run-Models ops _ _ (enqueue_lem e q xss m))
run-Models (dequeues ∷ ops) q xss m =
    let (same, after) = dequeue_below-Agree 5 q xss m in
    rw same (ap (◌∷◌ (entry (first_below 5 xss).0)) (run-Models ops _ _ after))
run-Models (removes id ∷ ops) q xss m =
    let (same, after) = remove_thread_lem id q xss m in
    rw same (ap (◌∷◌ (found (removal (take_out id xss) xss).0)) (run-Models ops _ _ after))

-- Any sequence of `enqueue`, `dequeue` and `remove` on a new run queue has the answers that the same
-- sequence has on five plain lists, one for each priority: a new entry goes to the end of its list
-- unless that has 64, the first entry of the highest non-empty list comes out, and a removal takes the
-- thread's first entry in the lowest priority that has one.
pub run-refines : (ops : List Operation) → run ops new ≡ run_lists ops ([] ∷ [] ∷ [] ∷ [] ∷ [] ∷ [])
run-refines ops = run-Models ops new ([] ∷ [] ∷ [] ∷ [] ∷ [] ∷ []) new-Models
