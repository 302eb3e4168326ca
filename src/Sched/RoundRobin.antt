-- ===== src/Sched/RoundRobin.antt =====
-- The round-robin scheduler: src/sched/round_robin.rs. A kernel's state is the scheduler and the
-- process table, each behind its lock; every function below runs with both locks held.
pub mod Choice
pub mod Exclusive
pub mod Fairness
pub mod Switching
mod Tests
use rustux.Base.{
  ℕ, zero, suc, ◌==◌, if◌then◌else◌, Bool, true, false, not, Option, none, some, List, [], ◌∷◌,
  Result, ok, err, Error, no_current_process, process_not_found, process_not_ready,
}
use rustux.Process.Table.{
  Process, ProcessTable, ProcessState, ready, running, get, update, set_current, find_next_runnable,
}
use rustux.Process.Table

abbrev pub default_time_slice_ms : ℕ
default_time_slice_ms = 10

pub record RoundRobinScheduler : Type 0 where
  pub current : Option ℕ
  pub time_slice_ms : ℕ
  pub preemption_enabled : Bool

unfoldable pub new : RoundRobinScheduler
new = record { current = none; time_slice_ms = default_time_slice_ms; preemption_enabled = true }

-- A running process becomes ready.
abbrev pub demoted : ProcessState → ProcessState
demoted running = ready
demoted st = st

abbrev pub demote : Process → Process
demote p = record p { state = demoted p.state }

abbrev pub set_running : Process → Process
set_running p = record p { state = running }

abbrev pub set_ready : Process → Process
set_ready p = record p { state = ready }

unfoldable pub demote_current : Option ℕ → ProcessTable → ProcessTable
demote_current none t = t
demote_current (some pid) t = update pid demote t

-- The outer `none` says that the search ran out of rounds.
unfoldable pub schedule :
    RoundRobinScheduler → ProcessTable → Option (Option ℕ × RoundRobinScheduler × ProcessTable)
schedule self t =
    let t' = demote_current self.current t in
    elim (find_next_runnable self.current t') [
      | none ↦ none
      | some none ↦ some (none, self, t')
      | some (some pid) ↦ some (
        some pid,
        record self { current = some pid },
        update pid set_running (set_current pid t'),
      )
    ]

-- A call of the assembly routine `context_switch_raw`: the process whose registers it saves, the one
-- whose registers it loads, and the page table that it loads.
pub record Switch : Type 0 where
  pub from : ℕ
  pub to : ℕ
  pub cr3 : ℕ

-- The call is made if both processes are there.
unfoldable pub switch_between : ℕ → ℕ → ProcessTable → Option Switch × ProcessTable
switch_between current_pid next_pid t =
    let t' = update current_pid set_ready t in
    elim (get next_pid t') [
      | none ↦ (none, t')
      | some q ↦ elim (get current_pid t') [
        | none ↦ (none, t')
        | some p ↦ (some (record { from = current_pid; to = next_pid; cr3 = q.page_table }), t')
      ]
    ]

abbrev pub Switched : Type 0
Switched = Option Switch × RoundRobinScheduler × ProcessTable

-- What follows the call of `schedule` in `context_switch`.
unfoldable pub after_schedule : Option ℕ → RoundRobinScheduler → ProcessTable → Switched
unfolding switch_between
after_schedule none self t = (none, self, t)
after_schedule (some next_pid) self t = elim self.current [
  | none ↦ (none, self, t)
  | some current_pid ↦
      if not (current_pid == next_pid)
      then (let (sw, t') = switch_between current_pid next_pid t in (sw, self, t'))
      else (none, self, t)
]

unfoldable pub context_switch : RoundRobinScheduler → ProcessTable → Option Switched
unfolding after_schedule
context_switch self t = elim (schedule self t) [
  | none ↦ none
  | some (next, self', t') ↦ some (after_schedule next self' t')
]

unfoldable pub timer_tick : RoundRobinScheduler → ProcessTable → Option Switched
timer_tick self t =
    if not self.preemption_enabled then some (none, self, t) else context_switch self t

abbrev pub Yielded : Type 0
Yielded = Result Error (Unit {0}) × Switched

-- What follows the search in `yield_cpu`.
unfoldable pub after_search : Option ℕ → ℕ → RoundRobinScheduler → ProcessTable → Option Yielded
after_search none current_pid self t = some (ok tt, (none, self, t))
after_search (some next_pid) current_pid self t =
    if not (next_pid == current_pid)
    then elim (context_switch self t) [ none ↦ none | some r ↦ some (ok tt, r) ]
    else some (ok tt, (none, self, t))

unfoldable pub yield_cpu : RoundRobinScheduler → ProcessTable → Option Yielded
unfolding after_search
yield_cpu self t = elim self.current [
  | none ↦ some (err no_current_process, (none, self, t))
  | some current_pid ↦ elim (find_next_runnable (some current_pid) t) [
    | none ↦ none
    | some r ↦ after_search r current_pid self t
  ]
]

unfoldable pub get_current_pid : RoundRobinScheduler → Option ℕ
get_current_pid self = self.current

unfoldable pub get_current_ppid : RoundRobinScheduler → ProcessTable → Option ℕ
get_current_ppid self t = elim self.current [
  | none ↦ none
  | some pid ↦ elim (get pid t) [ none ↦ none | some p ↦ some p.ppid ]
]

abbrev pub is_ready : ProcessState → Bool
is_ready ready = true
is_ready _ = false

unfoldable pub add_process : ℕ → ProcessTable → Result Error (Unit {0})
add_process pid t = elim (get pid t) [
  | none ↦ err process_not_found
  | some p ↦ if not (is_ready p.state) then err process_not_ready else ok tt
]

unfoldable pub remove_process : ℕ → RoundRobinScheduler → RoundRobinScheduler
remove_process pid self = elim self.current [
  | none ↦ self
  | some c ↦ if c == pid then record self { current = some 0 } else self
]

unfoldable pub init : RoundRobinScheduler → RoundRobinScheduler
init self = record self { preemption_enabled = true }
