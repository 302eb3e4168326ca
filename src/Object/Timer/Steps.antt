-- ===== src/Object/Timer/Steps.antt =====
-- The timers of src/object/timer.rs as a state machine.
use rustux.Base.{
  ℕ, ◌≡◌, ◌≢◌, ◌⊎◌, inl, inr, refl, Bool-cases, false, Option, none, some, Result, ok, err, Error,
  ◌==◌, timer_not_armed, timer_already_fired,
}
use rustux.Object.Event.{Event}
use rustux.Object.Event
use rustux.Object.Timer.{
  Timer, TimerState, disarmed, armed, fired, canceled, from_raw, create, state, set, set_periodic,
  cancel, cancel_in, stopped, wait,
}

-- One call on the timer.
pub data Step : Timer → Timer → Type 0 where
  sets : (deadline : ℕ) (slack : Option ℕ) (t : Timer) → Step t (set deadline slack t)
  sets_periodic :
      (deadline period : ℕ) (slack : Option ℕ) (t t' : Timer)
      → set_periodic deadline period slack t ≡ ok t'
      → Step t t'
  cancels : (t t' : Timer) → cancel t ≡ ok t' → Step t t'
  waits : (t t' : Timer) (r : Result Error (Unit {0})) → wait t ≡ some (r, t') → Step t t'

-- The timers that a new timer becomes.
pub data Reachable : Timer → Type 0 where
  created : (timer_id event_id : ℕ) → Reachable (create timer_id event_id).0
  step : (t t' : Timer) → Reachable t → Step t t' → Reachable t'

-- The event is not signaled, and the timer has not fired.
pub record Pending (t : Timer) : Type 0 where
  pub quiet : t.event.signaled ≡ false
  pub unfired : state t ≢ fired

set-Pending : (deadline : ℕ) (slack : Option ℕ) (t : Timer) → Pending (set deadline slack t)
unfolding set Event.unsignal from_raw
set-Pending deadline slack t = record { quiet = refl; unfired = λ e. cc e }

stopped-Pending : (t : Timer) → Pending (stopped t)
unfolding Event.unsignal from_raw
stopped-Pending t = record { quiet = refl; unfired = λ e. cc e }

cancel_in-Pending : (st : TimerState) (t t' : Timer) → cancel_in st t ≡ ok t' → Pending t'
unfolding Event.unsignal from_raw
cancel_in-Pending disarmed t t' e = cc
cancel_in-Pending canceled t t' e = cc
cancel_in-Pending fired t t' e = cc
cancel_in-Pending armed t t' e = let is : stopped t ≡ t' = cc in rw is at (stopped-Pending t)

wait-spins : (t : Timer) → Pending t → wait t ≡ none
unfolding wait Event.wait
wait-spins t p = rw p.quiet refl

step-Pending : (t t' : Timer) → Step t t' → Pending t → Pending t'
unfolding set_periodic cancel
step-Pending t t' (sets deadline slack u) p = set-Pending deadline slack u
step-Pending t t' (sets_periodic deadline period slack u u' e) p = elim (Bool-cases (period == 0)) [
  | inl zero_period ↦ cc (rw zero_period at e)
  | inr positive ↦
      let is : set deadline slack (record u { period = some period }) ≡ u' =
        cc (rw positive at e) in
      rw is at (set-Pending deadline slack (record u { period = some period }))
]
step-Pending t t' (cancels u u' e) p = cancel_in-Pending (state u) u u' e
step-Pending t t' (waits u u' r e) p = cc (e, wait-spins u p)

reachable-Pending : (t : Timer) → Reachable t → Pending t
unfolding create Event.new from_raw
reachable-Pending t (created timer_id event_id) = record { quiet = refl; unfired = λ e. cc e }
reachable-Pending t (step u v r s) = step-Pending u v s (reachable-Pending u r)

-- Whatever is called on a timer after its creation, it is never in the state Fired, and `wait` on it
-- spins.
pub never_fires : (t : Timer) → Reachable t → (state t ≢ fired) × (wait t ≡ none)
never_fires t r = let p = reachable-Pending t r in (p.unfired, wait-spins t p)

-- `cancel` succeeds exactly on an armed timer, which it takes to Canceled with its deadline as it was
-- and its event unsignaled, so that a second `cancel` fails; on a timer that has fired it says so, and
-- on any other that the timer is not armed.
pub cancel_cases :
    (t : Timer)
    → ((state t ≡ armed)
        × (t' : Timer) × (cancel t ≡ ok t')
        × (state t' ≡ canceled)
        × (t'.event.signaled ≡ false)
        × (t'.deadline ≡ t.deadline)
        × (cancel t' ≡ err timer_not_armed))
      ⊎ ((state t ≡ fired) × (cancel t ≡ err timer_already_fired))
      ⊎ ((state t ≢ armed) × (state t ≢ fired) × (cancel t ≡ err timer_not_armed))
unfolding cancel from_raw Event.unsignal
cancel_cases t = go (state t) refl
  where
    go :
        (st : TimerState)
        → state t ≡ st
        → ((st ≡ armed)
            × (t' : Timer) × (cancel_in st t ≡ ok t')
            × (state t' ≡ canceled)
            × (t'.event.signaled ≡ false)
            × (t'.deadline ≡ t.deadline)
            × (cancel_in (state t') t' ≡ err timer_not_armed))
          ⊎ ((st ≡ fired) × (cancel_in st t ≡ err timer_already_fired))
          ⊎ ((st ≢ armed) × (st ≢ fired) × (cancel_in st t ≡ err timer_not_armed))
    go disarmed e = inr (inr (λ f. cc f, λ f. cc f, refl))
    go canceled e = inr (inr (λ f. cc f, λ f. cc f, refl))
    go fired e = inr (inl (refl, refl))
    go armed e = inl (refl, stopped t, refl, refl, refl, refl, refl)
