-- ===== src/Sync/Event/Tests.antt =====
-- Two threads wait on an auto-unsignal event.
use rustux.Base.{ℕ, ◌+◌, ◌<◌, ◌≡◌, ◌⊎◌, refl, true, false, arith, returns, panics}
use rustux.Sync.Event.{Event, auto, into_raw, from_raw, new, signal, enter, destroy}
use rustux.Sync.Event.Interleavings.{
  enters, Reachable, created, step, reachable-destroy, leave_times, auto_unsignal_lem,
}

abbrev waiting : ℕ
waiting = 2

abbrev fresh : Event
fresh = new false auto

entered : Event → Event
entered e = record e { waiter_count = e.waiter_count + 1 }

abbrev one_waits : Event
one_waits = entered fresh

abbrev two_wait : Event
two_wait = entered one_waits

first_enters : enter fresh ≡ returns one_waits
unfolding enter new entered
first_enters = refl

second_enters : enter one_waits ≡ returns two_wait
unfolding enter new entered
second_enters = refl

two_wait-Reachable : Reachable (two_wait, waiting)
two_wait-Reachable =
    step (one_waits, 1) (two_wait, waiting)
      (step (fresh, 0) (one_waits, 1) (created false auto) (enters fresh one_waits 0 first_enters))
      (enters one_waits two_wait 1 second_enters)

reachable-destroy_example :
    (two_wait.waiter_count ≡ waiting)
    × (((waiting ≡ 0) × (destroy two_wait ≡ returns two_wait))
        ⊎ ((0 < waiting) × (destroy two_wait ≡ panics)))
reachable-destroy_example = reachable-destroy two_wait waiting two_wait-Reachable (omega arith)

is_auto : (from_raw two_wait.flags).auto_unsignal ≡ true
unfolding new into_raw from_raw entered
is_auto = refl

auto_unsignal_lem_example :
    (e' : Event) × (signal two_wait ≡ returns e')
    × ((k : ℕ) → k < waiting → (leave_times k e').signaled ≡ true)
    × ((leave_times waiting e').signaled ≡ false)
auto_unsignal_lem_example =
    auto_unsignal_lem two_wait waiting two_wait-Reachable (omega arith) (omega arith) is_auto
