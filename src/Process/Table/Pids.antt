-- ===== src/Process/Table/Pids.antt =====
-- PID allocation, insertion and removal in src/process/table.rs.
use rustux.Base.{
  ℕ, zero, suc, ◌+◌, ◌-◌, ◌≤◌, ◌<◌, ◌≡◌, ◌≢◌, ◌⊎◌, refl, sym, ◌∙◌, subst, inl, inr, false, ◌==◌,
  if◌then◌else◌, leb, Option, none, some, List, [], ◌∷◌, arith, length, slot, set, Bool-cases,
  Option-cases, ℕ_discrete, returns, panics, Outcome, length-set, slot-set_self, slot-set_ne,
  slot-eq-none, slot-set_all, occupied-set-some,
}
use rustux.Process.Table.{
  Process, ProcessTable, max_processes, alloc_loop, alloc_pid, insert, remove, update, get,
  set_current, count, is_current,
}

-- From `next` on: the first free number is allocated, or every number up to the limit is taken.
abbrev Allocates : List (Option Process) → ℕ → Option (Option ℕ × ℕ) → Type 0
Allocates ps next r =
    ((pid : ℕ) × (next ≤ pid)
      × (pid < max_processes)
      × (slot ps pid ≡ none)
      × ((i : ℕ) → next ≤ i → i < pid → slot ps i ≢ none)
      × (r ≡ some (some pid, pid + 1)))
    ⊎ ((after : ℕ) × (max_processes ≤ after)
        × (next ≤ after)
        × ((i : ℕ) → next ≤ i → i < max_processes → slot ps i ≢ none)
        × (r ≡ some (none, after)))

-- What holds of every number in a range that starts with `d`.
from_first : (P : ℕ → Type 0) (d : ℕ) → P d → ((j : ℕ) → d + 1 ≤ j → P j) → (j : ℕ) → d ≤ j → P j
from_first P d first rest j h = elim (ℕ_discrete d j) [
  | yes e ↦ rw (← e) first
  | no ne ↦ rest j (omega arith)
]

extend_Allocates :
    (ps : List (Option Process)) (next : ℕ) (r : Option (Option ℕ × ℕ))
    → slot ps next ≢ none
    → Allocates ps (next + 1) r
    → Allocates ps next r
extend_Allocates ps next r taken (inl (pid, lo, hi, free, before, e)) = inl (
  pid,
  omega arith,
  hi,
  free,
  from_first (λ i. i < pid → slot ps i ≢ none) next (λ _. taken) before,
  e,
)
extend_Allocates ps next r taken (inr (after, h, le, all, e)) = inr (
  after,
  h,
  omega arith,
  from_first (λ i. i < max_processes → slot ps i ≢ none) next (λ _. taken) all,
  e,
)

alloc_loop-Allocates :
    (rounds start : ℕ) (ps : List (Option Process)) (next : ℕ)
    → start ≤ next
    → 0 < rounds
    → max_processes < rounds + next
    → Allocates ps next (alloc_loop rounds start ps next)
unfolding alloc_loop
alloc_loop-Allocates zero start ps next hs h0 h = elim h0 [ ]
alloc_loop-Allocates (suc rounds) start ps next hs h0 h =
    elim (Bool-cases (leb max_processes next)) [
      | inl past ↦
          rw past (inr (next, ground arith, omega arith, λ i lo hi. absurd (ground arith), refl))
      | inr inside ↦ elim (Option-cases (slot ps next)) [
        | inl free ↦
            rw (inside, free)
              (inl (next, omega arith, ground arith, free, λ i lo hi. absurd (omega arith), refl))
        | inr (p, taken) ↦
            let on : (next + 1 == start) ≡ false = ground arith in
            rw (inside, taken, on)
              (extend_Allocates ps next _ (λ e. cc)
                (alloc_loop-Allocates rounds start ps (next + 1) (omega arith) (ground arith)
                  (omega arith)))
      ]
    ]

-- PID allocation always ends. It gives the lowest free PID from `next_pid` on and moves `next_pid`
-- past it, or fails, exactly if no PID from `next_pid` on is free, and leaves `next_pid` at the limit
-- or past it; nothing else in the table changes.
pub alloc_pid_lem :
    (t : ProcessTable)
    → ((pid : ℕ) × (t.next_pid ≤ pid)
        × (pid < max_processes)
        × (get pid t ≡ none)
        × ((i : ℕ) → t.next_pid ≤ i → i < pid → get i t ≢ none)
        × (alloc_pid t ≡ some (some pid, record t { next_pid = pid + 1 })))
      ⊎ ((after : ℕ) × (max_processes ≤ after)
          × (t.next_pid ≤ after)
          × ((i : ℕ) → t.next_pid ≤ i → i < max_processes → get i t ≢ none)
          × (alloc_pid t ≡ some (none, record t { next_pid = after })))
unfolding alloc_pid get
alloc_pid_lem t =
    elim (alloc_loop-Allocates (max_processes + 1) t.next_pid t.processes t.next_pid (omega arith)
      (omega arith) (omega arith)) [
        | inl (pid, lo, hi, free, before, e) ↦
            inl (pid, lo, hi, free, before, rw (e, alloc_pid) refl)
        | inr (after, h, le, all, e) ↦ inr (after, h, le, all, rw (e, alloc_pid) refl)
      ]

-- Every process stands in the slot of its PID.
pub record IsValid (t : ProcessTable) : Type 0 where
  pub size : length t.processes ≡ max_processes
  pub in_place : (i : ℕ) (p : Process) → slot t.processes i ≡ some p → p.pid ≡ i

-- `insert` panics exactly if the PID is out of range or in use; otherwise the process reads back at
-- its PID, every other PID reads as before, there is one process more, and the table stays valid.
pub insert_lem :
    (p : Process) (t : ProcessTable)
    → IsValid t
    → (((max_processes ≤ p.pid) ⊎ (get p.pid t ≢ none)) × (insert p t ≡ panics))
      ⊎ ((p.pid < max_processes)
          × (get p.pid t ≡ none)
          × (t' : ProcessTable) × (insert p t ≡ returns t')
          × (get p.pid t' ≡ some p)
          × ((i : ℕ) → i ≢ p.pid → get i t' ≡ get i t)
          × (count t' ≡ count t + 1)
          × IsValid t')
unfolding insert get count
insert_lem p t v = elim (Bool-cases (leb max_processes p.pid)) [
  | inl far ↦ inl (inl (ground arith), rw far refl)
  | inr near ↦ elim (Option-cases (slot t.processes p.pid)) [
    | inr (q, used) ↦ inl (inr (λ e. cc), rw (near, used, insert) refl)
    | inl free ↦
        let inside : p.pid < length t.processes = ground (arith, v.size) in
        inr (
          ground arith,
          free,
          record t { processes = set t.processes p.pid (some p) },
          rw (near, free, insert) refl,
          slot-set_self t.processes p.pid (some p) inside,
          λ i other. slot-set_ne t.processes p.pid i (some p) (λ q. other (sym q)),
          occupied-set-some t.processes p.pid p inside free,
          record {
            size = length-set t.processes p.pid (some p) ∙ v.size;
            in_place =
                slot-set_all (λ i q. q.pid ≡ i) t.processes p.pid (some p) v.in_place (λ q e. cc);
          },
        )
  ]
]

-- `remove` returns the process that stood at the PID; the PID is free afterwards, the other PIDs read
-- as before, the process is no longer the current one, and the table stays valid.
pub remove_lem :
    (pid : ℕ) (t : ProcessTable)
    → IsValid t
    → ((remove pid t).0 ≡ get pid t)
      × (get pid (remove pid t).1 ≡ none)
      × ((i : ℕ) → i ≢ pid → get i (remove pid t).1 ≡ get i t)
      × (pid < max_processes → is_current (remove pid t).1.current pid ≡ false)
      × IsValid (remove pid t).1
unfolding remove get
remove_lem pid t v = elim (Bool-cases (leb max_processes pid)) [
  | inl far ↦
      let gone = slot-eq-none t.processes pid (ground (arith, v.size)) in
      rw far (sym gone, gone, λ i _. refl, λ near. absurd (ground arith), v)
  | inr near ↦ rw near (
    refl,
    slot-set_self t.processes pid none (ground (arith, v.size)),
    λ i other. slot-set_ne t.processes pid i none (λ q. other (sym q)),
    λ _. not_current t.current,
    record {
      size = length-set t.processes pid none ∙ v.size;
      in_place = slot-set_all (λ i q. q.pid ≡ i) t.processes pid none v.in_place (λ q e. cc);
    },
  )
]
  where
    not_current : (c : Option ℕ) → is_current (if is_current c pid then none else c) pid ≡ false
    not_current none = refl
    not_current (some c) = ground arith

-- The calls that a kernel makes on a table, and the PIDs that a sequence of them is given, up to a
-- call that panics.
pub data Call : Type 0 where
  allocs : Call
  inserts : Process → Call
  removes : ℕ → Call
  updates : ℕ → (Process → Process) → Call
  sets_current : ℕ → Call

abbrev pub with_pid : Option ℕ → List ℕ → List ℕ
with_pid none pids = pids
with_pid (some pid) pids = pid ∷ pids

unfoldable pub run : List Call → ProcessTable → List ℕ
run [] t = []
run (allocs ∷ cs) t = elim (alloc_pid t) [ none ↦ [] | some (r, t') ↦ with_pid r (run cs t') ]
run (inserts p ∷ cs) t = elim (insert p t) [ panics ↦ [] | returns t' ↦ run cs t' ]
run (removes pid ∷ cs) t = run cs (remove pid t).1
run (updates pid f ∷ cs) t = run cs (update pid f t)
run (sets_current pid ∷ cs) t = run cs (set_current pid t)

-- Numbers that rise, from `lo` on, and stay under the limit.
abbrev pub Rises : ℕ → List ℕ → Type 0
Rises lo [] = Unit {0}
Rises lo (pid ∷ pids) = (lo ≤ pid) × (pid < max_processes) × Rises (pid + 1) pids

Rises-mono : (lo lo' : ℕ) (pids : List ℕ) → lo ≤ lo' → Rises lo' pids → Rises lo pids
Rises-mono lo lo' [] h r = tt
Rises-mono lo lo' (pid ∷ pids) h r = (omega arith, r.1, r.2)

Rises-length : (lo : ℕ) (pids : List ℕ) → Rises lo pids → length pids ≤ max_processes - lo
Rises-length lo [] r = omega arith
Rises-length lo (pid ∷ pids) r = omega (arith, Rises-length (pid + 1) pids r.2)

next_pid-remove : (pid : ℕ) (t : ProcessTable) → (remove pid t).1.next_pid ≡ t.next_pid
unfolding remove
next_pid-remove pid t = ground arith

next_pid-update :
    (pid : ℕ) (f : Process → Process) (t : ProcessTable) → (update pid f t).next_pid ≡ t.next_pid
unfolding update
next_pid-update pid f t = ground arith

next_pid-insert :
    (p : Process) (t t' : ProcessTable) → insert p t ≡ returns t' → t'.next_pid ≡ t.next_pid
unfolding insert
next_pid-insert p t t' e = ground arith

Rises-after_insert :
    (p : Process) (cs : List Call) (t : ProcessTable) (o : Outcome ProcessTable)
    → insert p t ≡ o
    → ((t' : ProcessTable) → Rises t'.next_pid (run cs t'))
    → Rises t.next_pid (run (inserts p ∷ cs) t)
unfolding run
Rises-after_insert p cs t panics e rest = rw (e, run) tt
Rises-after_insert p cs t (returns t') e rest =
    rw (e, run) (subst (λ n. Rises n (run cs t')) (next_pid-insert p t t' e) (rest t'))

run-Rises : (cs : List Call) (t : ProcessTable) → Rises t.next_pid (run cs t)
unfolding run set_current
run-Rises [] t = tt
run-Rises (allocs ∷ cs) t = elim (alloc_pid_lem t) [
  | inl (pid, lo, hi, _, _, e) ↦
      rw (e, run) (lo, hi, run-Rises cs (record t { next_pid = pid + 1 }))
  | inr (after, _, le, _, e) ↦
      rw (e, run) (Rises-mono t.next_pid after _ le (run-Rises cs (record t { next_pid = after })))
]
run-Rises (inserts p ∷ cs) t = Rises-after_insert p cs t (insert p t) refl (run-Rises cs)
run-Rises (removes pid ∷ cs) t =
    subst (λ n. Rises n (run cs (remove pid t).1)) (next_pid-remove pid t)
      (run-Rises cs (remove pid t).1)
run-Rises (updates pid f ∷ cs) t =
    subst (λ n. Rises n (run cs (update pid f t))) (next_pid-update pid f t)
      (run-Rises cs (update pid f t))
run-Rises (sets_current pid ∷ cs) t = run-Rises cs (set_current pid t)

-- Over any sequence of calls the PIDs given out rise, so none is given twice, and at most
-- `256 - next_pid` are ever given: removing processes makes no room.
pub run_pids :
    (cs : List Call) (t : ProcessTable)
    → Rises t.next_pid (run cs t) × (length (run cs t) ≤ max_processes - t.next_pid)
run_pids cs t = (run-Rises cs t, Rises-length t.next_pid (run cs t) (run-Rises cs t))
