-- ===== src/Process/Table/Search.antt =====
-- The search for a runnable process in src/process/table.rs.
use rustux.Base.{
  ℕ, zero, suc, ◌+◌, ◌-◌, ◌%◌, ◌≤◌, ◌<◌, ◌≡◌, ◌⊎◌, refl, sym, ap, ◌∙◌, inl, inr, true, false,
  Option, none, some, List, arith, Bool-cases, ◌==◌, ℕ_discrete,
}
use rustux.Process.Table.{
  Process, ProcessTable, max_processes, runs, find_loop, find_next_runnable, first_slot,
}

-- The slot `j` steps after `start`, round the table.
abbrev pub round : ℕ → ℕ → ℕ
round start j = (start + j) % max_processes

round-next : (start d : ℕ) → (round start d + 1) % max_processes ≡ round start (d + 1)
round-next start d = omega arith

round-start :
    (start d : ℕ)
    → start < max_processes
    → d < max_processes
    → round start (d + 1) ≡ start
    → d + 1 ≡ max_processes
round-start start d hs hd e = omega arith

-- From `d` steps after `start` on, round to `start`: the first slot that runs is found, or none runs.
abbrev Finds : List (Option Process) → ℕ → ℕ → Option (Option ℕ) → Type 0
Finds ps start d r =
    ((k : ℕ) × (d ≤ k)
      × (k < max_processes)
      × (runs ps (round start k) ≡ true)
      × ((j : ℕ) → d ≤ j → j < k → runs ps (round start j) ≡ false)
      × (r ≡ some (some (round start k))))
    ⊎ (((j : ℕ) → d ≤ j → j < max_processes → runs ps (round start j) ≡ false) × (r ≡ some none))

-- What holds of every number in a range that starts with `d`.
from_first : (P : ℕ → Type 0) (d : ℕ) → P d → ((j : ℕ) → d + 1 ≤ j → P j) → (j : ℕ) → d ≤ j → P j
from_first P d first rest j h = elim (ℕ_discrete d j) [
  | yes e ↦ rw (← e) first
  | no ne ↦ rest j (omega arith)
]

extend_Finds :
    (ps : List (Option Process)) (start d : ℕ) (r : Option (Option ℕ))
    → runs ps (round start d) ≡ false
    → Finds ps start (d + 1) r
    → Finds ps start d r
extend_Finds ps start d r idle (inl (k, lo, hi, found, before, e)) = inl (
  k,
  omega arith,
  hi,
  found,
  from_first (λ j. j < k → runs ps (round start j) ≡ false) d (λ _. idle) before,
  e,
)
extend_Finds ps start d r idle (inr (all, e)) =
    inr (from_first (λ j. j < max_processes → runs ps (round start j) ≡ false) d (λ _. idle) all, e)

find_loop-Finds :
    (rounds start d : ℕ) (ps : List (Option Process))
    → start < max_processes
    → d < max_processes
    → max_processes ≤ rounds + d
    → Finds ps start d (find_loop rounds start ps (round start d))
unfolding find_loop
find_loop-Finds zero start d ps hs hd h = absurd (omega arith)
find_loop-Finds (suc rounds) start d ps hs hd h = elim (Bool-cases (runs ps (round start d))) [
  | inl here ↦ inl (d, omega arith, hd, here, λ j a b. absurd (omega arith), rw here refl)
  | inr idle ↦ rw idle (
      rw (round-next start d) (elim (ℕ_discrete (d + 1) max_processes) [
        | yes last ↦
            let stop : (round start (d + 1) == start) ≡ true = ground arith in
            rw stop (
              inr (
                from_first (λ j. j < max_processes → runs ps (round start j) ≡ false) d (λ _. idle)
                    (λ j a b. absurd (omega arith)),
                refl,
              ))
        | no more ↦
            let go_on : (round start (d + 1) == start) ≡ false = ground arith in
            rw go_on (
              extend_Finds ps start d _ idle
                (find_loop-Finds rounds start (d + 1) ps hs (omega arith) (omega arith)))
      ]))
]

pub first_slot-lt : (c : Option ℕ) → first_slot c < max_processes
unfolding first_slot
first_slot-lt none = omega arith
first_slot-lt (some p) = omega arith

abbrev Found : List (Option Process) → ℕ → Option (Option ℕ) → Type 0
Found ps start r =
    ((k : ℕ) × (k < max_processes)
      × (r ≡ some (some (round start k)))
      × (runs ps (round start k) ≡ true)
      × ((j : ℕ) → j < k → runs ps (round start j) ≡ false))
    ⊎ ((r ≡ some none) × ((i : ℕ) → i < max_processes → runs ps i ≡ false))

Finds→Found :
    (ps : List (Option Process)) (start : ℕ) (r : Option (Option ℕ))
    → start < max_processes
    → Finds ps start 0 r
    → Found ps start r
Finds→Found ps start r h (inl (k, _, hi, found, before, e)) =
    inl (k, hi, e, found, λ j. before j (omega arith))
Finds→Found ps start r h (inr (none_runs, e)) = inr (e, everywhere)
  where
    everywhere : (i : ℕ) → i < max_processes → runs ps i ≡ false
    everywhere i hi =
        let j : ℕ = (i + max_processes - start) % max_processes in
        let at : round start j ≡ i = omega arith in
        rw at at (none_runs j (omega arith) (omega arith))

round-zero : (start : ℕ) → start < max_processes → round start 0 ≡ start
round-zero start h = omega arith

-- The search, by the slot that it starts at.
pub find_next_runnable-from :
    (c : Option ℕ) (t : ProcessTable)
    → ((k : ℕ) × (k < max_processes)
        × (find_next_runnable c t ≡ some (some (round (first_slot c) k)))
        × (runs t.processes (round (first_slot c) k) ≡ true)
        × ((j : ℕ) → j < k → runs t.processes (round (first_slot c) j) ≡ false))
      ⊎ ((find_next_runnable c t ≡ some none)
          × ((i : ℕ) → i < max_processes → runs t.processes i ≡ false))
unfolding find_next_runnable
find_next_runnable-from c t =
    let start = first_slot c in
    let below = first_slot-lt c in
    Finds→Found t.processes start _ below (
      rw (round-zero start below) at
        (find_loop-Finds max_processes start 0 t.processes below (omega arith) (omega arith)))

-- The slot `j` places behind the one after PID `p`, round the table; without a PID, slot `j`.
abbrev pub after : Option ℕ → ℕ → ℕ
after none j = j
after (some p) j = (p + 1 + j) % 256

pub round-first_slot :
    (c : Option ℕ) (j : ℕ) → j < max_processes → round (first_slot c) j ≡ after c j
unfolding first_slot
round-first_slot none j h = omega arith
round-first_slot (some p) j h = omega arith

-- The search always ends. It finds the first runnable slot in the order that starts at the slot after
-- the current PID, or at slot 0 without one, and goes once round the table; it finds nothing exactly if
-- no slot is runnable.
pub find_next_runnable_lem :
    (c : Option ℕ) (t : ProcessTable)
    → ((k : ℕ) × (k < max_processes)
        × (find_next_runnable c t ≡ some (some (after c k)))
        × (runs t.processes (after c k) ≡ true)
        × ((j : ℕ) → j < k → runs t.processes (after c j) ≡ false))
      ⊎ ((find_next_runnable c t ≡ some none)
          × ((i : ℕ) → i < max_processes → runs t.processes i ≡ false))
find_next_runnable_lem c t = elim (find_next_runnable-from c t) [
  | inr nothing ↦ inr nothing
  | inl (k, hi, e, found, before) ↦
      let at = round-first_slot c k hi in
      inl (
        k,
        hi,
        e ∙ ap (λ i. some (some i)) at,
        ap (runs t.processes) (sym at) ∙ found,
        λ j lt. ap (runs t.processes) (sym (round-first_slot c j (omega arith))) ∙ before j lt,
      )
]
