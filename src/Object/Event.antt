-- ===== src/Object/Event.antt =====
-- Events: src/object/event.rs. An event's base is part of it, so that it counts its own references.
use rustux.Base.{
  ℕ, ◌+◌, ◌%◌, ◌^◌, ◌==◌, Bool, true, false, not, if◌then◌else◌, Option, none, some, Outcome,
  returns, panics, bit_and,
}
use rustux.Object.Rights
use rustux.Object.Handle.{KernelObjectBase, object}
use rustux.Sync.WaitQueue.{WaitQueue, wake_all}
use rustux.Sync.WaitQueue

abbrev pub manual_reset : ℕ
manual_reset = 0x01

unfoldable pub is_manual_reset : ℕ → Bool
is_manual_reset flags = not (bit_and flags manual_reset == 0)

pub record Event : Type 0 where
  pub base : KernelObjectBase
  pub id : ℕ
  pub signaled : Bool
  pub flags : ℕ
  pub waiters : WaitQueue

-- The number is the value of `NEXT_EVENT_ID`.
unfoldable pub alloc_event_id : ℕ → ℕ × ℕ
alloc_event_id next_event_id = (next_event_id, (next_event_id + 1) % 2 ^ 64)

unfoldable pub new : Bool → ℕ → ℕ → Event × ℕ
unfolding alloc_event_id
new signaled flags next_event_id =
    let (id, next) = alloc_event_id next_event_id in
    (
      record {
        base = object Rights.event;
        id = id;
        signaled = signaled;
        flags = flags;
        waiters = WaitQueue.new;
      },
      next,
    )

-- `none` within the outcome says that the loop of `wake_all` ran out of rounds.
unfoldable pub signal : Event → Outcome (Option Event)
signal e = elim (wake_all e.waiters) [
  | panics ↦ panics
  | returns none ↦ returns none
  | returns (some (n, wq)) ↦ returns (some (record e { signaled = true; waiters = wq }))
]

unfoldable pub unsignal : Event → Event
unsignal e = record e { signaled = false }

-- `none`: the call spins until another thread signals the event.
unfoldable pub wait : Event → Option Event
unfolding is_manual_reset
wait e =
    if e.signaled
    then some (if not (is_manual_reset e.flags) then record e { signaled = false } else e)
    else none
