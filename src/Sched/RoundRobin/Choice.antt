-- ===== src/Sched/RoundRobin/Choice.antt =====
-- Which process `schedule` of src/sched/round_robin.rs chooses, and what it does to the states.
use rustux.Base.{
  ℕ, ◌<◌, ◌≡◌, ◌≢◌, ◌⊎◌, refl, sym, ap, ◌∙◌, inl, inr, true, false, Option, none, some, arith, slot,
  slot-set_self, slot-set_ne, lt_of_slot, Option-cases, ℕ_discrete,
}
use rustux.Process.Table.{
  Process, ProcessTable, ProcessState, ready, running, max_processes, is_runnable, holds_runnable,
  runs, get, update, set_current, first_slot,
}
use rustux.Process.Table.Search.{round, after, round-first_slot, find_next_runnable-from}
use rustux.Sched.RoundRobin.{
  RoundRobinScheduler, demoted, demote, set_running, demote_current, schedule,
}

-- A change of a process that keeps it runnable or not keeps every slot so.
runs-update :
    (pid : ℕ) (f : Process → Process) (t : ProcessTable)
    → ((p : Process)
        → slot t.processes pid ≡ some p
        → is_runnable (f p).state ≡ is_runnable p.state)
    → (i : ℕ) → runs (update pid f t).processes i ≡ runs t.processes i
unfolding update runs
runs-update pid f t same i = elim (Option-cases (slot t.processes pid)) [
  | inl e ↦ rw (e, update) refl
  | inr (p, e) ↦ elim (ℕ_discrete pid i) [
    | yes here ↦
        let inside = lt_of_slot t.processes pid p e in
        rw (e, update)
          (rw (← here) (
            ap holds_runnable (slot-set_self t.processes pid (some (f p)) inside)
            ∙ same p e
            ∙ sym (ap holds_runnable e)))
    | no other ↦
        rw (e, update) (ap holds_runnable (slot-set_ne t.processes pid i (some (f p)) other))
  ]
]

-- What `get` reads after `update`.
pub get-update_self :
    (pid : ℕ) (f : Process → Process) (t : ProcessTable) (p : Process)
    → get pid t ≡ some p
    → get pid (update pid f t) ≡ some (f p)
unfolding get update
get-update_self pid f t p e =
    rw (e, update) (slot-set_self t.processes pid (some (f p)) (lt_of_slot t.processes pid p e))

pub get-update_ne :
    (pid i : ℕ) (f : Process → Process) (t : ProcessTable)
    → i ≢ pid
    → get i (update pid f t) ≡ get i t
unfolding get update
get-update_ne pid i f t ne = elim (Option-cases (slot t.processes pid)) [
  | inl e ↦ rw (e, update) refl
  | inr (p, e) ↦ rw (e, update) (slot-set_ne t.processes pid i (some (f p)) (λ q. ne (sym q)))
]

demoted-is_runnable : (st : ProcessState) → is_runnable (demoted st) ≡ is_runnable st
unfolding is_runnable
demoted-is_runnable ready = refl
demoted-is_runnable _ = refl

pub runs-demote_current :
    (c : Option ℕ) (t : ProcessTable) (i : ℕ)
    → runs (demote_current c t).processes i ≡ runs t.processes i
unfolding demote_current
runs-demote_current none t i = refl
runs-demote_current (some pid) t i = runs-update pid demote t (λ p _. demoted-is_runnable p.state) i

runs→get :
    (t : ProcessTable) (i : ℕ)
    → runs t.processes i ≡ true
    → (p : Process) × (get i t ≡ some p) × (is_runnable p.state ≡ true)
unfolding runs get
runs→get t i h = elim (Option-cases (slot t.processes i)) [
  | inl e ↦ absurd (ground arith)
  | inr (p, e) ↦ (p, e, ground arith)
]

running-is_runnable : is_runnable running ≡ true
unfolding is_runnable
running-is_runnable = refl

runs-set_running :
    (pid : ℕ) (t : ProcessTable)
    → runs t.processes pid ≡ true
    → (i : ℕ) → runs (update pid set_running (set_current pid t)).processes i ≡ runs t.processes i
unfolding set_current runs
runs-set_running pid t h i =
    runs-update pid set_running (set_current pid t)
      (λ p at. running-is_runnable ∙ sym (sym (ap holds_runnable at) ∙ h)) i

-- The table once `pid` has been chosen.
abbrev pub chosen : RoundRobinScheduler → ProcessTable → ℕ → ProcessTable
chosen s t pid = update pid set_running (set_current pid (demote_current s.current t))

pub get-set_current : (i pid : ℕ) (t : ProcessTable) → get i (set_current pid t) ≡ get i t
unfolding get set_current
get-set_current i pid t = refl

current-set_current : (pid : ℕ) (t : ProcessTable) → (set_current pid t).current ≡ some pid
unfolding set_current
current-set_current pid t = refl

current-update :
    (pid : ℕ) (f : Process → Process) (t : ProcessTable) → (update pid f t).current ≡ t.current
unfolding update
current-update pid f t = ground arith

-- What is scheduled, by the slot that the search starts at.
pub schedule-from :
    (s : RoundRobinScheduler) (t : ProcessTable)
    → ((pid : ℕ) × (k : ℕ) × (p : Process) × (t' : ProcessTable) × (k < max_processes)
        × (pid ≡ round (first_slot s.current) k)
        × (schedule s t ≡ some (some pid, record s { current = some pid }, t'))
        × (runs t.processes pid ≡ true)
        × ((j : ℕ) → j < k → runs t.processes (round (first_slot s.current) j) ≡ false)
        × (get pid t' ≡ some p)
        × (p.state ≡ running)
        × (t'.current ≡ some pid)
        × ((i : ℕ) → runs t'.processes i ≡ runs t.processes i))
      ⊎ ((t' : ProcessTable) × (schedule s t ≡ some (none, s, t'))
          × ((i : ℕ) → i < max_processes → runs t.processes i ≡ false)
          × ((i : ℕ) → runs t'.processes i ≡ runs t.processes i))
unfolding schedule
schedule-from s t = elim (find_next_runnable-from s.current (demote_current s.current t)) [
  | inl (k, hi, e, found, before) ↦
      let pid = round (first_slot s.current) k in
      let t₁ = demote_current s.current t in
      let (p, at, _) = runs→get t₁ pid found in
      inl (
        pid,
        k,
        set_running p,
        chosen s t pid,
        hi,
        refl,
        rw (e, schedule) refl,
        sym (runs-demote_current s.current t pid) ∙ found,
        λ j lt. sym (runs-demote_current s.current t _) ∙ before j lt,
        get-update_self pid set_running (set_current pid t₁) p (get-set_current pid pid t₁ ∙ at),
        refl,
        current-update pid set_running (set_current pid t₁) ∙ current-set_current pid t₁,
        λ i. runs-set_running pid t₁ found i ∙ runs-demote_current s.current t i,
      )
  | inr (e, all) ↦ inr (
    demote_current s.current t,
    rw (e, schedule) refl,
    λ i h. sym (runs-demote_current s.current t i) ∙ all i h,
    runs-demote_current s.current t,
  )
]

-- Scheduling always ends. It chooses the first runnable process in the order that starts at the slot
-- after the scheduler's current PID, or at slot 0 without one, and goes once round the table; that process
-- is then running, and is the current one of the scheduler and of the table. Nothing is chosen exactly if
-- no process is runnable. Which processes are runnable does not change.
pub schedule_lem :
    (s : RoundRobinScheduler) (t : ProcessTable)
    → ((pid : ℕ) × (k : ℕ) × (p : Process) × (t' : ProcessTable) × (k < max_processes)
        × (pid ≡ after s.current k)
        × (schedule s t ≡ some (some pid, record s { current = some pid }, t'))
        × (runs t.processes pid ≡ true)
        × ((j : ℕ) → j < k → runs t.processes (after s.current j) ≡ false)
        × (get pid t' ≡ some p)
        × (p.state ≡ running)
        × (t'.current ≡ some pid)
        × ((i : ℕ) → runs t'.processes i ≡ runs t.processes i))
      ⊎ ((t' : ProcessTable) × (schedule s t ≡ some (none, s, t'))
          × ((i : ℕ) → i < max_processes → runs t.processes i ≡ false)
          × ((i : ℕ) → runs t'.processes i ≡ runs t.processes i))
schedule_lem s t = elim (schedule-from s t) [
  | inr nothing ↦ inr nothing
  | inl (pid, k, p, t', hi, at, e, found, before, reads, runs_it, now, same) ↦ inl (
    pid,
    k,
    p,
    t',
    hi,
    at ∙ round-first_slot s.current k hi,
    e,
    found,
    λ j lt. ap (runs t.processes) (sym (round-first_slot s.current j (omega arith))) ∙ before j lt,
    reads,
    runs_it,
    now,
    same,
  )
]
