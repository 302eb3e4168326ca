-- ===== src/Object/Job/Tests.antt =====
-- A job with its processes, and the policies of a unit test of the source.
use rustux.Base.{refl, [], ◌∷◌, arith}
use rustux.Object.Job.{new_root}
use rustux.Object.Job.Counts.{adds, removes, run, IsCounted, run-IsCounted}

run-IsCounted_example : IsCounted (run (adds 1 ∷ adds 2 ∷ removes 1 ∷ []) new_root)
run-IsCounted_example = run-IsCounted (adds 1 ∷ adds 2 ∷ removes 1 ∷ []) new_root refl (omega arith)
