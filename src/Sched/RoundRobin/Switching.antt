-- ===== src/Sched/RoundRobin/Switching.antt =====
-- What `context_switch`, `timer_tick`, `yield_cpu` and `remove_process` of
-- src/sched/round_robin.rs do with the choice.
use rustux.Base.{
  ℕ, ◌≡◌, refl, inl, inr, Option, none, some, ok, err, no_current_process, arith, Bool-cases, ◌∙◌,
  ◌==◌, ==_self,
}
use rustux.Process.Table.{ProcessTable, first_slot}
use rustux.Process.Table.Search.{round, find_next_runnable-from}
use rustux.Sched.RoundRobin.{
  RoundRobinScheduler, schedule, context_switch, timer_tick, after_search, yield_cpu,
  remove_process, get_current_pid,
}
use rustux.Sched.RoundRobin.Choice.{schedule-from}

-- `context_switch` always ends, and it never calls the assembly routine: its effect is that of
-- `schedule`, which has made the next process the current one before the two are compared.
pub context_switch-schedule :
    (s : RoundRobinScheduler) (t : ProcessTable)
    → (r : Option ℕ) × (s' : RoundRobinScheduler) × (t' : ProcessTable) × (schedule s t
        ≡ some (r, s', t'))
      × (context_switch s t ≡ some (none, s', t'))
unfolding context_switch
context_switch-schedule s t = elim (schedule-from s t) [
  | inl (pid, _, _, t', _, _, e, _, _, _, _, _, _) ↦
      (some pid, record s { current = some pid }, t', e, rw (e, context_switch, ==_self pid) refl)
  | inr (t', e, _, _) ↦ (none, s, t', e, rw (e, context_switch) refl)
]

timer_tick-none :
    (s : RoundRobinScheduler) (t : ProcessTable)
    → (s' : RoundRobinScheduler) × (t' : ProcessTable) × (timer_tick s t ≡ some (none, s', t'))
unfolding timer_tick
timer_tick-none s t =
    let (r, s', t', _, e) = context_switch-schedule s t in
    elim (Bool-cases s.preemption_enabled) [
      | inl on ↦ (s', t', ground arith)
      | inr off ↦ (s, t, ground arith)
    ]

after_search-none :
    (r : Option ℕ) (c : ℕ) (s : RoundRobinScheduler) (t : ProcessTable)
    → (s' : RoundRobinScheduler) × (t' : ProcessTable) × (after_search r c s t
        ≡ some (ok tt, (none, s', t')))
unfolding after_search
after_search-none none c s t = (s, t, refl)
after_search-none (some n) c s t =
    let (r, s', t', _, e) = context_switch-schedule s t in
    elim (Bool-cases (n == c)) [
      | inl own ↦ (s, t, rw own refl)
      | inr other ↦ (s', t', rw (other, e) refl)
    ]

yield_cpu-search :
    (s : RoundRobinScheduler) (t : ProcessTable) (c : ℕ)
    → s.current ≡ some c
    → (r : Option ℕ) × (yield_cpu s t ≡ after_search r c s t)
unfolding yield_cpu
yield_cpu-search s t c at = elim (find_next_runnable-from (some c) t) [
  | inl (k, _, e, _, _) ↦ (some (round (first_slot (some c)) k), ground arith)
  | inr (e, _) ↦ (none, ground arith)
]

-- So neither a timer tick nor a yield, both of which always end, ever switches the processor to
-- another process's registers; a yield fails exactly if the scheduler has no current process.
pub never_switches :
    (s : RoundRobinScheduler) (t : ProcessTable)
    → ((s' : RoundRobinScheduler) × (t' : ProcessTable) × (timer_tick s t ≡ some (none, s', t')))
      × ((c : ℕ)
          → s.current ≡ some c
          → (s' : RoundRobinScheduler) × (t' : ProcessTable) × (yield_cpu s t
              ≡ some (ok tt, (none, s', t'))))
      × (s.current ≡ none → yield_cpu s t ≡ some (err no_current_process, (none, s, t)))
unfolding yield_cpu
never_switches s t = (
  timer_tick-none s t,
  λ c at.
      let (r, e) = yield_cpu-search s t c at in
      let (s', t', f) = after_search-none r c s t in (s', t', e ∙ f),
  λ gone. ground arith,
)

-- After the current process has been removed from the scheduler, the kernel is the current process
-- by number: `get_current_pid` still returns a PID, 0, and a yield still succeeds.
pub remove_process-current :
    (pid : ℕ) (s : RoundRobinScheduler) (t : ProcessTable)
    → s.current ≡ some pid
    → (get_current_pid (remove_process pid s) ≡ some 0)
      × (s' : RoundRobinScheduler) × (t' : ProcessTable) × (yield_cpu (remove_process pid s) t
          ≡ some (ok tt, (none, s', t')))
unfolding get_current_pid remove_process
remove_process-current pid s t at =
    let cleared : (remove_process pid s).current ≡ some 0 = ground arith in
    let (s', t', e) = (never_switches (remove_process pid s) t).1 0 cleared in (cleared, s', t', e)
