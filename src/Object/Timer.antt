-- ===== src/Object/Timer.antt =====
-- Timers: src/object/timer.rs. `none` as the answer of `wait` is a call that spins.
pub mod Steps
mod Tests
use rustux.Base.{
  ℕ, ◌+◌, ◌%◌, ◌^◌, ◌==◌, Bool, true, false, if◌then◌else◌, Option, none, some, Result, ok, err,
  Error, timer_not_armed, timer_already_fired, timer_canceled, period_cannot_be_zero,
}
use rustux.Object.Rights
use rustux.Object.Handle.{KernelObjectBase, object}
use rustux.Object.Event.{Event, unsignal}
use rustux.Object.Event

pub data TimerState : Type 0 where
  disarmed armed fired canceled : TimerState

unfoldable pub from_raw : ℕ → TimerState
from_raw raw =
    if raw == 1 then armed else if raw == 2 then fired else if raw == 3 then canceled else disarmed

abbrev pub into_raw : TimerState → ℕ
into_raw disarmed = 0
into_raw armed = 1
into_raw fired = 2
into_raw canceled = 3

pub data SlackPolicy : Type 0 where
  no_slack small medium large : SlackPolicy

unfoldable pub slack_from_raw : ℕ → SlackPolicy
slack_from_raw raw =
    if raw == 1 then small else if raw == 2 then medium else if raw == 3 then large else no_slack

abbrev pub slack_into_raw : SlackPolicy → ℕ
slack_into_raw no_slack = 0
slack_into_raw small = 1
slack_into_raw medium = 2
slack_into_raw large = 3

-- In nanoseconds.
abbrev pub slack_duration : SlackPolicy → ℕ
slack_duration no_slack = 0
slack_duration small = 100000
slack_duration medium = 1000000
slack_duration large = 10000000

-- `state` is the raw value, as in the source.
pub record Timer : Type 0 where
  pub base : KernelObjectBase
  pub id : ℕ
  pub deadline : ℕ
  pub slack : ℕ
  pub period : Option ℕ
  pub state : ℕ
  pub event : Event
  pub slack_policy : SlackPolicy

-- The counters are the next timer's ID and the next event's.
unfoldable pub create : ℕ → ℕ → Timer × ℕ × ℕ
create next_timer_id next_event_id =
    let (event, next_event_id') = Event.new false 0 next_event_id in
    (
      record {
        base = object Rights.timer;
        id = next_timer_id;
        deadline = 0;
        slack = 0;
        period = none;
        state = into_raw disarmed;
        event = event;
        slack_policy = small;
      },
      (next_timer_id + 1) % 2 ^ 64,
      next_event_id',
    )

abbrev pub state : Timer → TimerState
state t = from_raw t.state

abbrev pub unwrap_or_zero : Option ℕ → ℕ
unwrap_or_zero none = 0
unwrap_or_zero (some n) = n

-- The result is always `Ok`.
unfoldable pub set : ℕ → Option ℕ → Timer → Timer
set deadline slack t = record t {
  deadline = deadline;
  slack = unwrap_or_zero slack;
  state = into_raw armed;
  event = unsignal t.event;
}

unfoldable pub set_periodic : ℕ → ℕ → Option ℕ → Timer → Result Error Timer
set_periodic deadline period slack t =
    if period == 0
    then err period_cannot_be_zero
    else ok (set deadline slack (record t { period = some period }))

abbrev pub stopped : Timer → Timer
stopped t = record t { state = into_raw canceled; event = unsignal t.event }

abbrev pub cancel_in : TimerState → Timer → Result Error Timer
cancel_in disarmed t = err timer_not_armed
cancel_in canceled t = err timer_not_armed
cancel_in fired t = err timer_already_fired
cancel_in armed t = ok (stopped t)

unfoldable pub cancel : Timer → Result Error Timer
cancel t = cancel_in (state t) t

abbrev pub waited : TimerState → Result Error (Unit {0})
waited canceled = err timer_canceled
waited st = ok tt

-- The event's wait changes the event even if the answer is an error.
abbrev pub wait_on : Option Event → Timer → Option (Result Error (Unit {0}) × Timer)
wait_on none t = none
wait_on (some e) t = some (waited (state t), record t { event = e })

unfoldable pub wait : Timer → Option (Result Error (Unit {0}) × Timer)
wait t = wait_on (Event.wait t.event) t
