-- ===== src/Sync/Event.antt =====
-- The event primitive of src/sync/event.rs. `wait` is what its thread does before it spins and after;
-- between the two other threads may call.
pub mod Interleavings
mod Tests
use rustux.Base.{
  ℕ, ◌+◌, ◌-◌, ◌%◌, ◌^◌, ltb, ◌==◌, ◌&&◌, not, Bool, true, false, if◌then◌else◌, Outcome, returns,
  panics, bit_and, bit_or,
}

abbrev pub event_magic : ℕ
event_magic = 0x45564e54

pub record EventFlags : Type 0 where
  pub auto_unsignal : Bool
  pub reserved : ℕ

abbrev pub empty : EventFlags
empty = record { auto_unsignal = false; reserved = 0 }

abbrev pub auto : EventFlags
auto = record { auto_unsignal = true; reserved = 0 }

unfoldable pub into_raw : EventFlags → ℕ
into_raw flags = if flags.auto_unsignal then bit_or 0 0x01 else 0

unfoldable pub from_raw : ℕ → EventFlags
from_raw bits = record { auto_unsignal = not (bit_and bits 0x01 == 0); reserved = 0 }

pub record Event : Type 0 where
  pub signaled : Bool
  pub flags : ℕ
  pub magic : ℕ
  pub waiter_count : ℕ

unfoldable pub new : Bool → EventFlags → Event
new initial flags = record {
  signaled = initial;
  flags = into_raw flags;
  magic = event_magic;
  waiter_count = 0;
}

unfoldable pub init : Bool → EventFlags → Event → Event
init initial flags e = record {
  signaled = initial;
  flags = into_raw flags;
  magic = event_magic;
  waiter_count = 0;
}

-- Every operation panics on an event with another magic number.
abbrev pub validated : Event → Outcome Event → Outcome Event
validated e result = if e.magic == event_magic then result else panics

unfoldable pub destroy : Event → Outcome Event
destroy e = validated e (if ltb 0 e.waiter_count then panics else returns e)

unfoldable pub signal : Event → Outcome Event
signal e = validated e (returns (record e { signaled = true }))

unfoldable pub unsignal : Event → Outcome Event
unsignal e = validated e (returns (record e { signaled = false }))

-- `wait` up to its loop.
unfoldable pub enter : Event → Outcome Event
enter e = validated e (returns (record e { waiter_count = (e.waiter_count + 1) % 2 ^ 64 }))

abbrev pub one_less : Event → ℕ
one_less e = (e.waiter_count + 2 ^ 64 - 1) % 2 ^ 64

-- `wait` after its loop, which ends once the event is signaled.
unfoldable pub leave : Event → Event
leave e = record e {
  waiter_count = one_less e;
  signaled = if (from_raw e.flags).auto_unsignal && (one_less e == 0) then false else e.signaled;
}
