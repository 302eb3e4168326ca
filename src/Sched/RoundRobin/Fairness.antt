-- ===== src/Sched/RoundRobin/Fairness.antt =====
-- How soon `schedule` of src/sched/round_robin.rs comes to a runnable process.
use rustux.Base.{
  ℕ, zero, suc, ◌+◌, ◌-◌, ◌%◌, ◌≤◌, ◌<◌, ◌≡◌, ◌≢◌, refl, sym, ap, ◌∙◌, inl, inr, true, false,
  Option, none, some, List, [], ◌∷◌, get_elem?, arith, ℕ_discrete, dec_lt,
}
use rustux.Process.Table.{ProcessTable, max_processes, runs, first_slot}
use rustux.Process.Table.Search.{round, first_slot-lt}
use rustux.Sched.RoundRobin.{RoundRobinScheduler, schedule}
use rustux.Sched.RoundRobin.Choice.{schedule-from}

-- What `n` calls of `schedule` in a row choose.
unfoldable pub picks : ℕ → RoundRobinScheduler → ProcessTable → List (Option ℕ)
picks zero s t = []
picks (suc n) s t = elim (schedule s t) [ none ↦ [] | some (r, s', t') ↦ r ∷ picks n s' t' ]

picks-suc :
    (n : ℕ) (s : RoundRobinScheduler) (t : ProcessTable) {r : Option ℕ} {s' : RoundRobinScheduler}
    {t' : ProcessTable}
    → schedule s t ≡ some (r, s', t')
    → picks (suc n) s t ≡ r ∷ picks n s' t'
unfolding picks
picks-suc n s t e = rw (e, picks) refl

first_slot-some : (p : ℕ) → p < max_processes → first_slot (some p) ≡ (p + 1) % max_processes
unfolding first_slot
first_slot-some p h = omega arith

-- The choice is not past a runnable process.
sooner :
    (s : RoundRobinScheduler) (t : ProcessTable) (d k q : ℕ)
    → q ≡ round (first_slot s.current) d
    → runs t.processes q ≡ true
    → ((j : ℕ) → j < k → runs t.processes (round (first_slot s.current) j) ≡ false)
    → k ≢ d
    → k < d
sooner s t d k q at can before ne = elim (dec_lt d k) [
  | yes past ↦ let no_run = before d past in absurd (ground (arith, ap (runs t.processes) at))
  | no h ↦ omega arith
]

-- A process that stands `d` steps after the first slot is chosen within `d + 1` calls.
chosen_within :
    (bound d q : ℕ) (s : RoundRobinScheduler) (t : ProcessTable) (n : ℕ)
    → d < bound
    → d < max_processes
    → d < n
    → q ≡ round (first_slot s.current) d
    → runs t.processes q ≡ true
    → (m : ℕ) × (m ≤ d) × (get_elem? (picks n s t) m ≡ some (some q))
chosen_within zero d q s t n hb hd hn at can = elim hb [ ]
chosen_within (suc bound) d q s t zero hb hd hn at can = elim hn [ ]
chosen_within (suc bound) d q s t (suc n) hb hd hn at can = elim (schedule-from s t) [
  | inr (t', e, idle, _) ↦ let never = idle q (omega arith) in cc
  | inl (pid, k, p, t', hk, here, e, found, before, _, _, _, same) ↦ elim (ℕ_discrete k d) [
    | yes now ↦
        let it : pid ≡ q = here ∙ ap (round (first_slot s.current)) now ∙ sym at in
        (0, omega arith, ap (λ l. get_elem? l 0) (picks-suc n s t e) ∙ ap (λ x. some (some x)) it)
    | no later ↦
        let earlier : k < d = sooner s t d k q at can before later in
        let place : q ≡ round (first_slot (some pid)) (d - k - 1) =
          rw (first_slot-some pid (omega arith)) (omega arith) in
        let (m, le, there) =
          chosen_within bound (d - k - 1) q (record s { current = some pid }) t' n (omega arith)
            (omega arith) (omega arith) place (same q ∙ can) in
        (suc m, omega arith, ap (λ l. get_elem? l (suc m)) (picks-suc n s t e) ∙ there)
  ]
]

-- No runnable process starves: of any 256 calls of `schedule` in a row one chooses it.
pub picks-fair :
    (q n : ℕ) (s : RoundRobinScheduler) (t : ProcessTable)
    → q < max_processes
    → runs t.processes q ≡ true
    → max_processes ≤ n
    → (m : ℕ) × (m < max_processes) × (get_elem? (picks n s t) m ≡ some (some q))
picks-fair q n s t hq can hn =
    let d : ℕ = (q + max_processes - first_slot s.current) % max_processes in
    let below = first_slot-lt s.current in
    let (m, le, at) =
      chosen_within (suc d) d q s t n (omega arith) (omega arith) (omega arith) (omega arith) can in
    (m, omega arith, at)
