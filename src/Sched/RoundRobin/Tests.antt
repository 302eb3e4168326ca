-- ===== src/Sched/RoundRobin/Tests.antt =====
-- The scheduler's theorems at a concrete process table.
use rustux.Base.{
  ℕ, zero, suc, ◌<◌, ◌≡◌, ◌⊎◌, refl, true, false, some, none, ◌∷◌, Option, arith, replicate,
  get_elem?, slot-replicate,
}
use rustux.Process.Table.{
  Process, ProcessTable, process, max_processes, running, runs, get, is_runnable,
}
use rustux.Process.Table.Search.{after}
use rustux.Sched.RoundRobin.{RoundRobinScheduler, schedule, context_switch}
use rustux.Sched.RoundRobin.Exclusive.{OnlyCurrentRuns, schedule-OnlyCurrentRuns}
use rustux.Sched.RoundRobin.Fairness.{picks, picks-fair}
use rustux.Sched.RoundRobin.Switching.{context_switch-schedule}
use rustux.Sched.RoundRobin.Choice.{schedule_lem}

abbrev shell : Process
shell = record (process 1 0 4096 8192 16384 4194304) { state = running }

abbrev editor : Process
editor = process 2 1 20480 24576 28672 4194304

abbrev two_processes : ProcessTable
two_processes = record {
  processes = none ∷ some shell ∷ some editor ∷ replicate 253 none;
  current = some 1;
  next_pid = 3;
}

abbrev scheduler : RoundRobinScheduler
scheduler = record { current = some 1; time_slice_ms = 10; preemption_enabled = true }

only_shell_runs : OnlyCurrentRuns scheduler two_processes
unfolding get process
only_shell_runs zero p at on = cc
only_shell_runs (suc zero) p at on = refl
only_shell_runs (suc (suc zero)) p at on = absurd (ground arith)
only_shell_runs (suc (suc (suc i))) p at on =
    let empty = slot-replicate Process 253 i in absurd (ground (arith, at, empty))

chosen :
    (r : Option ℕ) × (s' : RoundRobinScheduler) × (t' : ProcessTable) × (schedule scheduler
        two_processes
      ≡ some (r, s', t'))
chosen = let (r, s', t', e, _) = context_switch-schedule scheduler two_processes in (r, s', t', e)

schedule-OnlyCurrentRuns_example : OnlyCurrentRuns chosen.1 chosen.2
schedule-OnlyCurrentRuns_example =
    schedule-OnlyCurrentRuns scheduler two_processes only_shell_runs chosen.3

editor_can : runs two_processes.processes 2 ≡ true
unfolding runs is_runnable process
editor_can = refl

picks-fair_example :
    (m : ℕ) × (m < 256) × (get_elem? (picks 300 scheduler two_processes) m ≡ some (some 2))
picks-fair_example = picks-fair 2 300 scheduler two_processes (omega arith) editor_can (omega arith)

context_switch-schedule_example :
    (r : Option ℕ) × (s' : RoundRobinScheduler) × (t' : ProcessTable) × (schedule scheduler
        two_processes
      ≡ some (r, s', t'))
    × (context_switch scheduler two_processes ≡ some (none, s', t'))
context_switch-schedule_example = context_switch-schedule scheduler two_processes

schedule_lem_example :
    ((pid : ℕ) × (k : ℕ) × (p : Process) × (t' : ProcessTable) × (k < max_processes)
      × (pid ≡ after (some 1) k)
      × (schedule scheduler two_processes
          ≡ some (some pid, record scheduler { current = some pid }, t'))
      × (runs two_processes.processes pid ≡ true)
      × ((j : ℕ) → j < k → runs two_processes.processes (after (some 1) j) ≡ false)
      × (get pid t' ≡ some p)
      × (p.state ≡ running)
      × (t'.current ≡ some pid)
      × ((i : ℕ) → runs t'.processes i ≡ runs two_processes.processes i))
    ⊎ ((t' : ProcessTable) × (schedule scheduler two_processes ≡ some (none, scheduler, t'))
        × ((i : ℕ) → i < max_processes → runs two_processes.processes i ≡ false)
        × ((i : ℕ) → runs t'.processes i ≡ runs two_processes.processes i))
schedule_lem_example = schedule_lem scheduler two_processes
