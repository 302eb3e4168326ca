-- ===== src/Sched/Thread.antt =====
-- Threads: src/sched/thread.rs. An entry point is the address of its code; the kernel is built in
-- release mode, where arithmetic on usize wraps around at 2 ^ 64.
use rustux.Base.{
  ℕ, ◌+◌, ◌-◌, ◌*◌, ◌/◌, ◌%◌, ◌^◌, ◌≤◌, ◌<◌, ◌≡◌, refl, ap, Bool, true, false, List, [], ◌∷◌, arith,
}
use rustux.Sched.RunQueue.{ThreadState, ready, running, ThreadPriority, normal}

pub record StackConfig : Type 0 where
  pub base : ℕ
  pub size : ℕ
  pub guard_size : ℕ

abbrev pub stack_config : ℕ → ℕ → StackConfig
stack_config base size = record { base = base; size = size; guard_size = 4096 }

abbrev pub top : StackConfig → ℕ
top stack = (stack.base + stack.size) % 2 ^ 64

pub record SavedRegisters : Type 0 where
  pub rbx : ℕ
  pub rbp : ℕ
  pub r12 : ℕ
  pub r13 : ℕ
  pub r14 : ℕ
  pub r15 : ℕ
  pub rip : ℕ
  pub rsp : ℕ
  pub rbp_orig : ℕ

abbrev pub default_registers : SavedRegisters
default_registers = record {
  rbx = 0;
  rbp = 0;
  r12 = 0;
  r13 = 0;
  r14 = 0;
  r15 = 0;
  rip = 0;
  rsp = 0;
  rbp_orig = 0;
}

pub record ThreadStats : Type 0 where
  pub cpu_time : ℕ
  pub schedule_count : ℕ
  pub voluntary_switches : ℕ
  pub involuntary_switches : ℕ

abbrev pub default_stats : ThreadStats
default_stats = record {
  cpu_time = 0;
  schedule_count = 0;
  voluntary_switches = 0;
  involuntary_switches = 0;
}

pub record Thread : Type 0 where
  pub id : ℕ
  pub entry_point : ℕ
  pub entry_arg : ℕ
  pub state : ThreadState
  pub priority : ThreadPriority
  pub registers : SavedRegisters
  pub stack : StackConfig
  pub stats : ThreadStats
  pub time_slice_remaining : ℕ

-- `rsp -= 8`.
abbrev pub pushed_down : ℕ → ℕ
pushed_down rsp = (rsp + 2 ^ 64 - 8) % 2 ^ 64

-- The stack's top, down to a multiple of 16.
abbrev pub aligned_top : StackConfig → ℕ
aligned_top stack = top stack / 16 * 16

-- The thread with its stack and instruction pointers set, and the words that are written to memory,
-- each with its address.
unfoldable pub init_stack : Thread → Thread × List (ℕ × ℕ)
init_stack thread =
    let arg_at = pushed_down (aligned_top thread.stack) in
    let return_at = pushed_down arg_at in
    (
      record thread {
        registers = record thread.registers { rsp = return_at; rip = thread.entry_point };
      },
      (arg_at, thread.entry_arg) ∷ (return_at, 0) ∷ [],
    )

unfoldable pub new : ℕ → ℕ → ℕ → StackConfig → Thread × List (ℕ × ℕ)
new id entry_point entry_arg stack = init_stack (record {
  id = id;
  entry_point = entry_point;
  entry_arg = entry_arg;
  state = ready;
  priority = normal;
  registers = default_registers;
  stack = stack;
  stats = default_stats;
  time_slice_remaining = 0;
})

abbrev pub set_priority : ThreadPriority → Thread → Thread
set_priority priority thread = record thread { priority = priority }

abbrev pub set_state : ThreadState → Thread → Thread
set_state state thread = record thread { state = state }

abbrev pub is_running_state : ThreadState → Bool
is_running_state running = true
is_running_state st = false

abbrev pub is_runnable_state : ThreadState → Bool
is_runnable_state ready = true
is_runnable_state running = true
is_runnable_state st = false

abbrev pub is_runnable : Thread → Bool
is_runnable thread = is_runnable_state thread.state

-- A new thread on a stack of at least 32 bytes that ends below 2 ^ 64 is ready, its stack pointer is a
-- multiple of 16 within the stack, and the two words that `new` writes, the argument above a return
-- address of zero, lie between the stack pointer and the top.
pub new_thread_lem :
    (id entry_point entry_arg base size : ℕ)
    → 32 ≤ size
    → base + size < 2 ^ 64
    → let made = new id entry_point entry_arg (stack_config base size) in
      let rsp = made.0.registers.rsp in
      (made.0.state ≡ ready)
      × (rsp % 16 ≡ 0)
      × (base ≤ rsp)
      × (rsp + 16 ≤ base + size)
      × (made.1 ≡ (rsp + 8, entry_arg) ∷ (rsp, 0) ∷ [])
unfolding new init_stack
new_thread_lem id entry_point entry_arg base size large fits =
    let rsp = pushed_down (pushed_down (aligned_top (stack_config base size))) in
    (
      refl,
      omega arith,
      omega arith,
      omega arith,
      ap (λ a. (a, entry_arg) ∷ (rsp, 0) ∷ []) (omega arith),
    )
