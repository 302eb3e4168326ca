-- ===== src/Process/Fd.antt =====
-- The file descriptor table of a process: src/syscall/fd.rs.
pub mod Validity
pub mod Budget
use rustux.Base.{
  ℕ, ◌+◌, ◌%◌, ◌==◌, ltb, if◌then◌else◌, Bool, Option, none, some, List, slot, set, replicate,
  occupied,
}

pub data FdKind : Type 0 where
  stdin stdout stderr : FdKind
  file : ℕ → ℕ → FdKind
  pipe : Bool → ℕ → FdKind

pub record FileDescriptor : Type 0 where
  pub kind : FdKind
  pub flags : ℕ

abbrev pub fd_stdin : FileDescriptor
fd_stdin = record { kind = stdin; flags = 0 }

abbrev pub fd_stdout : FileDescriptor
fd_stdout = record { kind = stdout; flags = 1 }

abbrev pub fd_stderr : FileDescriptor
fd_stderr = record { kind = stderr; flags = 1 }

-- `next_fd` is a `u8`.
pub record FileDescriptorTable : Type 0 where
  pub fds : List (Option FileDescriptor)
  pub next_fd : ℕ

unfoldable pub new : FileDescriptorTable
new = record { fds = replicate 256 none; next_fd = 3 }

unfoldable pub init : FileDescriptorTable → FileDescriptorTable
init t = record t {
  fds = set (set (set t.fds 0 (some fd_stdin)) 1 (some fd_stdout)) 2 (some fd_stderr);
}

unfoldable pub alloc : FdKind → ℕ → FileDescriptorTable → Option ℕ × FileDescriptorTable
alloc kind flags t = if t.next_fd == 0 then (none, t) else (
  some t.next_fd,
  record {
    fds = set t.fds t.next_fd (some (record { kind = kind; flags = flags }));
    next_fd = (t.next_fd + 1) % 256;
  },
)

unfoldable pub get : ℕ → FileDescriptorTable → Option FileDescriptor
get fd t = slot t.fds fd

-- What a caller does through `get_mut`: the entry, if there is one, is replaced by `f` of it.
unfoldable pub update :
    ℕ → (FileDescriptor → FileDescriptor) → FileDescriptorTable → FileDescriptorTable
update fd f t = elim (slot t.fds fd) [
  | none ↦ t
  | some d ↦ record t { fds = set t.fds fd (some (f d)) }
]

unfoldable pub close : ℕ → FileDescriptorTable → Option FileDescriptor × FileDescriptorTable
close fd t = if ltb fd 3 then (none, t) else elim (slot t.fds fd) [
  | none ↦ (none, t)
  | some d ↦ (some d, record t { fds = set t.fds fd none })
]

unfoldable pub count : FileDescriptorTable → ℕ
count t = occupied t.fds
