-- ===== src/Object/Timer/Tests.antt =====
-- A timer that is set and canceled.
use rustux.Base.{◌≡◌, ◌≢◌, none}
use rustux.Object.Timer.{Timer, fired, create, state, set, wait}
use rustux.Object.Timer.Steps.{created, step, sets, never_fires}

abbrev set_once : Timer
set_once = set 500 none (create 1 1).0

never_fires_example : (state set_once ≢ fired) × (wait set_once ≡ none)
never_fires_example =
    never_fires set_once (step (create 1 1).0 set_once (created 1 1) (sets 500 none (create 1 1).0))
