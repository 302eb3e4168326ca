-- ===== src/Sched/RoundRobin/Exclusive.antt =====
-- Which processes are in the state Running: src/sched/round_robin.rs.
use rustux.Base.{
  ℕ, ◌≡◌, ◌≢◌, refl, sym, ap, ◌∙◌, inl, inr, Option, none, some, arith, ℕ_discrete, Option-cases,
}
use rustux.Process.Table.{
  Process, ProcessTable, ProcessState, ready, running, blocked, zombie, dead, get, update,
  set_current, find_next_runnable,
}
use rustux.Sched.RoundRobin.{
  RoundRobinScheduler, demoted, demote, set_running, demote_current, schedule,
}
use rustux.Sched.RoundRobin.Choice.{get-update_self, get-update_ne, get-set_current, chosen}

-- A process that runs is the scheduler's current one.
abbrev pub OnlyCurrentRuns : RoundRobinScheduler → ProcessTable → Type 0
OnlyCurrentRuns s t =
    (i : ℕ) (p : Process) → get i t ≡ some p → p.state ≡ running → s.current ≡ some i

demoted-not-running : (st : ProcessState) → demoted st ≢ running
demoted-not-running ready = λ e. cc
demoted-not-running running = λ e. cc
demoted-not-running blocked = λ e. cc
demoted-not-running zombie = λ e. cc
demoted-not-running dead = λ e. cc

get-update-none :
    (pid : ℕ) (f : Process → Process) (t : ProcessTable)
    → get pid t ≡ none
    → get pid (update pid f t) ≡ none
unfolding get update
get-update-none pid f t e = rw (e, update) e

-- Once the current process has been demoted nothing runs.
none_runs :
    (s : RoundRobinScheduler) (c : Option ℕ) (t : ProcessTable)
    → s.current ≡ c
    → OnlyCurrentRuns s t
    → (i : ℕ) (p : Process) → get i (demote_current c t) ≡ some p
    → p.state ≢ running
unfolding demote_current
none_runs s none t e only i p at runs = let h = only i p at runs in cc
none_runs s (some c) t e only i p at runs = elim (ℕ_discrete i c) [
  | no other ↦
      let h = only i p (sym (get-update_ne c i demote t other) ∙ at) runs in other (ground arith)
  | yes here ↦ elim (Option-cases (get c t)) [
    | inl gone ↦
        let h = get-update-none c demote t gone in
        ground (arith, ap (λ j. get j (update c demote t)) here)
    | inr (q, there) ↦
        let h = get-update_self c demote t q there in
        demoted-not-running q.state (ground (arith, ap (λ j. get j (update c demote t)) here))
  ]
]

-- `schedule` keeps this: whatever it chooses, no process but the chosen one runs afterwards.
pub schedule-OnlyCurrentRuns :
    (s : RoundRobinScheduler) (t : ProcessTable) {r : Option ℕ} {s' : RoundRobinScheduler}
    {t' : ProcessTable}
    → OnlyCurrentRuns s t
    → schedule s t ≡ some (r, s', t')
    → OnlyCurrentRuns s' t'
unfolding schedule
schedule-OnlyCurrentRuns s t {r} {s'} {t'} only e = elim (Option-cases search) [
  | inl f ↦ absurd (ground arith)
  | inr (none, f) ↦ λ i p at runs.
      let same : t' ≡ t₁ = ground arith in absurd (idle i p (ap (get i) (sym same) ∙ at) runs)
  | inr (some pid, f) ↦ λ i p at runs. elim (ℕ_discrete i pid) [
    | yes here ↦ ground arith
    | no other ↦
        let same : t' ≡ chosen s t pid = ground arith in
        absurd (
          idle i p
            (sym (get-set_current i pid t₁)
              ∙ sym (get-update_ne pid i set_running (set_current pid t₁) other)
              ∙ ap (get i) (sym same)
              ∙ at)
            runs)
  ]
]
  where
    t₁ : ProcessTable
    t₁ = demote_current s.current t

    search : Option (Option ℕ)
    search = find_next_runnable s.current t₁

    idle : (i : ℕ) (p : Process) → get i t₁ ≡ some p → p.state ≢ running
    idle = none_runs s s.current t refl only
