-- ===== src/Process/Table.antt =====
-- The process table: src/process/table.rs. One caller at a time holds its lock.
pub mod Pids
pub mod Search
use rustux.Base.{
  ℕ, zero, suc, ◌+◌, ◌%◌, ◌^◌, ◌==◌, leb, ltb, if◌then◌else◌, Bool, true, false, not, Option, none,
  some, List, [], ◌∷◌, slot, set, replicate, occupied, Outcome, returns, panics, is_some,
}
use rustux.Process.Fd.{FileDescriptorTable}
use rustux.Process.Fd

pub data ProcessState : Type 0 where
  ready running blocked zombie dead : ProcessState

unfoldable pub is_runnable : ProcessState → Bool
is_runnable ready = true
is_runnable running = true
is_runnable _ = false

unfoldable pub is_alive : ProcessState → Bool
is_alive ready = true
is_alive running = true
is_alive blocked = true
is_alive _ = false

-- The saved registers; `fpu` holds 512 bytes.
pub record SavedState : Type 0 where
  pub rax : ℕ
  pub rbx : ℕ
  pub rcx : ℕ
  pub rdx : ℕ
  pub rsi : ℕ
  pub rdi : ℕ
  pub rbp : ℕ
  pub rsp : ℕ
  pub r8 : ℕ
  pub r9 : ℕ
  pub r10 : ℕ
  pub r11 : ℕ
  pub r12 : ℕ
  pub r13 : ℕ
  pub r14 : ℕ
  pub r15 : ℕ
  pub cr3 : ℕ
  pub rflags : ℕ
  pub rip : ℕ
  pub cs : ℕ
  pub ss : ℕ
  pub fpu : List ℕ

unfoldable pub saved_state : SavedState
saved_state = record {
  rax = 0;
  rbx = 0;
  rcx = 0;
  rdx = 0;
  rsi = 0;
  rdi = 0;
  rbp = 0;
  rsp = 0;
  r8 = 0;
  r9 = 0;
  r10 = 0;
  r11 = 0;
  r12 = 0;
  r13 = 0;
  r14 = 0;
  r15 = 0;
  cr3 = 0;
  rflags = 0;
  rip = 0;
  cs = 0;
  ss = 0;
  fpu = replicate 512 0;
}

unfoldable pub for_userspace : ℕ → ℕ → ℕ → SavedState
for_userspace entry user_stack_top cr3 = record {
  rax = 0;
  rbx = 0;
  rcx = 0;
  rdx = 0;
  rsi = 0;
  rdi = 0;
  rbp = 0;
  rsp = user_stack_top;
  r8 = 0;
  r9 = 0;
  r10 = 0;
  r11 = 0;
  r12 = 0;
  r13 = 0;
  r14 = 0;
  r15 = 0;
  cr3 = cr3;
  rflags = 0x202;
  rip = entry;
  cs = 0x1b;
  ss = 0x23;
  fpu = replicate 512 0;
}

unfoldable pub for_syscall_return : SavedState → ℕ → SavedState
for_syscall_return self ret_value = record self { rax = ret_value }

-- A name is its bytes.
pub record Process : Type 0 where
  pub pid : ℕ
  pub ppid : ℕ
  pub state : ProcessState
  pub page_table : ℕ
  pub kernel_stack : ℕ
  pub user_stack : ℕ
  pub saved : SavedState
  pub syscall_ret : ℕ
  pub fd_table : FileDescriptorTable
  pub cpu_time : ℕ
  pub sched_time : ℕ
  pub name : Option (List ℕ)

unfoldable pub process : ℕ → ℕ → ℕ → ℕ → ℕ → ℕ → Process
unfolding for_userspace Fd.new Fd.init
process pid ppid page_table kernel_stack user_stack entry = record {
  pid = pid;
  ppid = ppid;
  state = ready;
  page_table = page_table;
  kernel_stack = kernel_stack;
  user_stack = user_stack;
  saved = for_userspace entry user_stack page_table;
  syscall_ret = 0;
  fd_table = Fd.init Fd.new;
  cpu_time = 0;
  sched_time = 0;
  name = none;
}

abbrev pub max_processes : ℕ
max_processes = 256

pub record ProcessTable : Type 0 where
  pub processes : List (Option Process)
  pub current : Option ℕ
  pub next_pid : ℕ

unfoldable pub new : ProcessTable
new = record { processes = replicate max_processes none; current = none; next_pid = 1 }

unfoldable pub get : ℕ → ProcessTable → Option Process
get pid t = slot t.processes pid

-- What a caller does through `get_mut`: the process, if there is one, is replaced by `f` of it.
unfoldable pub update : ℕ → (Process → Process) → ProcessTable → ProcessTable
update pid f t = elim (slot t.processes pid) [
  | none ↦ t
  | some p ↦ record t { processes = set t.processes pid (some (f p)) }
]

unfoldable pub current : ProcessTable → Option Process
unfolding get
current t = elim t.current [ none ↦ none | some pid ↦ get pid t ]

-- The loop of `alloc_pid`: the outer `none` says that the rounds ran out. `next` stands for
-- `self.next_pid`, and the result holds its last value.
unfoldable pub alloc_loop : ℕ → ℕ → List (Option Process) → ℕ → Option (Option ℕ × ℕ)
alloc_loop zero start ps next = none
alloc_loop (suc rounds) start ps next =
    let again = alloc_loop rounds start ps (next + 1) in
    if leb max_processes next
    then some (none, next)
    else if not (is_some (slot ps next))
    then some (some next, next + 1)
    else if next + 1 == start
    then some (none, next + 1)
    else again

unfoldable pub alloc_pid : ProcessTable → Option (Option ℕ × ProcessTable)
alloc_pid t = elim (alloc_loop (max_processes + 1) t.next_pid t.processes t.next_pid) [
  | none ↦ none
  | some (r, next) ↦ some (r, record t { next_pid = next })
]

unfoldable pub insert : Process → ProcessTable → Outcome ProcessTable
insert p t = if leb max_processes p.pid then panics else elim (slot t.processes p.pid) [
  | some q ↦ panics
  | none ↦ returns (record t { processes = set t.processes p.pid (some p) })
]

unfoldable pub set_current : ℕ → ProcessTable → ProcessTable
set_current pid t = record t { current = some pid }

abbrev pub is_current : Option ℕ → ℕ → Bool
is_current none pid = false
is_current (some c) pid = c == pid

unfoldable pub remove : ℕ → ProcessTable → Option Process × ProcessTable
remove pid t = if leb max_processes pid then (none, t) else (
  slot t.processes pid,
  record t {
    processes = set t.processes pid none;
    current = if is_current t.current pid then none else t.current;
  },
)

-- Whether slot `pid` holds a process that can run.
abbrev pub holds_runnable : Option Process → Bool
holds_runnable none = false
holds_runnable (some p) = is_runnable p.state

unfoldable pub runs : List (Option Process) → ℕ → Bool
runs ps pid = holds_runnable (slot ps pid)

-- The loop of `find_next_runnable`; the outer `none` says that the rounds ran out.
unfoldable pub find_loop : ℕ → ℕ → List (Option Process) → ℕ → Option (Option ℕ)
find_loop zero start ps pid = none
find_loop (suc rounds) start ps pid =
    let again = find_loop rounds start ps ((pid + 1) % max_processes) in
    if runs ps pid
    then some (some pid)
    else if (pid + 1) % max_processes == start
    then some none
    else again

-- `p + 1` is a sum of `u32`; a wrap there comes to the same slot, as 256 divides 2 ^ 32.
unfoldable pub first_slot : Option ℕ → ℕ
first_slot none = 0
first_slot (some p) = (p + 1) % 2 ^ 32 % max_processes

unfoldable pub find_next_runnable : Option ℕ → ProcessTable → Option (Option ℕ)
find_next_runnable current_pid t =
    let start = first_slot current_pid in find_loop max_processes start t.processes start

-- The loop of `runnable_pids`, at slot `i`.
unfoldable pub runnable_from : ℕ → List (Option Process) → List ℕ
unfolding is_runnable
runnable_from i [] = []
runnable_from i (none ∷ ps) = runnable_from (i + 1) ps
runnable_from i (some p ∷ ps) =
    let rest = runnable_from (i + 1) ps in if is_runnable p.state then i ∷ rest else rest

unfoldable pub runnable_pids : ProcessTable → List ℕ
unfolding runnable_from
runnable_pids t = runnable_from 0 t.processes

unfoldable pub count : ProcessTable → ℕ
count t = occupied t.processes
