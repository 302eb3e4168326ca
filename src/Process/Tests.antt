-- ===== src/Process/Tests.antt =====
-- Runs of the descriptor table and of the process table, and their theorems at concrete tables.
use rustux.Base.{
  ℕ, zero, suc, ◌+◌, ◌≤◌, ◌<◌, ◌≡◌, ◌≢◌, ◌⊎◌, refl, true, false, some, none, List, [], ◌∷◌, arith,
  replicate, slot, slot-replicate,
}
use rustux.Process.Fd.{
  FdKind, FileDescriptor, FileDescriptorTable, stdin, file, init, alloc, close, update, count,
}
use rustux.Process.Fd
use rustux.Process.Fd.Validity.{
  init-IsValid, alloc-IsValid, close-IsValid, update-IsValid, alloc_lem, close_lem,
}
use rustux.Process.Fd.Validity
use rustux.Process.Fd.Budget.{run-count_up, opens, closes, requests, remaining, count_up}
use rustux.Process.Fd.Budget
use rustux.Process.Table.{
  Process, ProcessTable, process, max_processes, alloc_pid, insert, remove, runs,
  find_next_runnable, first_slot, is_current, set_current, for_userspace, saved_state, ready,
}
use rustux.Process.Table
use rustux.Process.Table.Search.{after, find_next_runnable_lem}
use rustux.Process.Table.Pids.{
  alloc_pid_lem, insert_lem, remove_lem, Rises, run_pids, allocs, removes,
}
use rustux.Process.Table.Pids

abbrev some_file : FdKind
some_file = file 12 0

abbrev standard : FileDescriptorTable
standard = init Fd.new

standard-IsValid : Validity.IsValid standard
standard-IsValid = init-IsValid

abbrev one_open : FileDescriptorTable
one_open = (alloc some_file 2 standard).1

one_open-IsValid : Validity.IsValid one_open
one_open-IsValid = alloc-IsValid some_file 2 standard standard-IsValid

abbrev set_flags : FileDescriptor → FileDescriptor
set_flags d = record d { flags = 1 }

gives_three : (alloc some_file 2 standard).0 ≡ some 3
unfolding alloc init Fd.new
gives_three = refl

abbrev reopen : List Budget.Call
reopen = opens some_file 0 ∷ closes 3 ∷ opens some_file 0 ∷ []

abbrev shell : Process
shell = process 1 0 4096 8192 16384 4194304

abbrev one_process : ProcessTable
one_process = record {
  processes = none ∷ some shell ∷ replicate 254 none;
  current = some 1;
  next_pid = 2;
}

one_process-IsValid : Pids.IsValid one_process
unfolding process
one_process-IsValid = record { size = refl; in_place = place }
  where
    place : (i : ℕ) (p : Process) → slot one_process.processes i ≡ some p → p.pid ≡ i
    place zero p e = cc
    place (suc zero) p e = ground arith
    place (suc (suc i)) p e =
        let empty = slot-replicate Process 254 i in absurd (ground (arith, e, empty))

alloc_pid_lem_example :
    ((pid : ℕ) × (2 ≤ pid)
      × (pid < max_processes)
      × (Table.get pid one_process ≡ none)
      × ((i : ℕ) → 2 ≤ i → i < pid → Table.get i one_process ≢ none)
      × (alloc_pid one_process ≡ some (some pid, record one_process { next_pid = pid + 1 })))
    ⊎ ((after : ℕ) × (max_processes ≤ after)
        × (2 ≤ after)
        × ((i : ℕ) → 2 ≤ i → i < max_processes → Table.get i one_process ≢ none)
        × (alloc_pid one_process ≡ some (none, record one_process { next_pid = after })))
alloc_pid_lem_example = alloc_pid_lem one_process

abbrev editor : Process
editor = process 2 1 20480 24576 28672 4194304

abbrev reuse : List Pids.Call
reuse = allocs ∷ removes 1 ∷ allocs ∷ []

find_next_runnable_lem_example :
    ((k : ℕ) × (k < max_processes)
      × (find_next_runnable (some 1) one_process ≡ some (some (after (some 1) k)))
      × (runs one_process.processes (after (some 1) k) ≡ true)
      × ((j : ℕ) → j < k → runs one_process.processes (after (some 1) j) ≡ false))
    ⊎ ((find_next_runnable (some 1) one_process ≡ some none)
        × ((i : ℕ) → i < max_processes → runs one_process.processes i ≡ false))
find_next_runnable_lem_example = find_next_runnable_lem (some 1) one_process
