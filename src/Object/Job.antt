-- ===== src/Object/Job.antt =====
-- Jobs: src/object/job.rs. The counters of the statistics have 64 bits, and wrap around.
pub mod Counts
mod Tests
use rustux.Base.{
  ℕ, ◌+◌, ◌-◌, ◌%◌, ◌^◌, ltb, ◌==◌, not, Bool, true, false, if◌then◌else◌, Option, none, some, List,
  [], ◌∷◌, ◌++◌, length, bit_and, bit_or,
}
use rustux.Object.Rights
use rustux.Object.Handle.{KernelObjectBase, object}

abbrev pub job_id_root : ℕ
job_id_root = 1

pub data JobPolicy : Type 0 where
  no_policy basic no_new_vmos no_new_channels no_new_events no_new_sockets : JobPolicy
  no_new_processes no_new_threads kill_on_close allow_profile allow_debug : JobPolicy

unfoldable pub policy_from_raw : ℕ → JobPolicy
policy_from_raw raw = if raw == 1 then basic else no_policy

abbrev pub to_flags : JobPolicy → ℕ
to_flags no_policy = 0
to_flags basic = 1
to_flags no_new_vmos = 2
to_flags no_new_channels = 4
to_flags no_new_events = 8
to_flags no_new_sockets = 16
to_flags no_new_processes = 32
to_flags no_new_threads = 64
to_flags kill_on_close = 128
to_flags allow_profile = 256
to_flags allow_debug = 512

unfoldable pub contains : JobPolicy → JobPolicy → Bool
contains p other = not (bit_and (to_flags p) (to_flags other) == 0)

unfoldable pub bitor : JobPolicy → JobPolicy → JobPolicy
bitor p rhs = policy_from_raw (bit_or (to_flags p) (to_flags rhs))

pub record ResourceLimits : Type 0 where
  pub max_memory : ℕ
  pub max_cpu_time : ℕ
  pub max_processes : ℕ
  pub max_threads : ℕ
  pub max_jobs : ℕ

abbrev pub unlimited : ResourceLimits
unlimited = record {
  max_memory = 0;
  max_cpu_time = 0;
  max_processes = 0;
  max_threads = 0;
  max_jobs = 0;
}

abbrev pub has_memory_limit : ResourceLimits → Bool
has_memory_limit l = ltb 0 l.max_memory

abbrev pub has_cpu_time_limit : ResourceLimits → Bool
has_cpu_time_limit l = ltb 0 l.max_cpu_time

pub record JobStats : Type 0 where
  pub memory_usage : ℕ
  pub cpu_time : ℕ
  pub process_count : ℕ
  pub thread_count : ℕ
  pub job_count : ℕ

abbrev pub zero_stats : JobStats
zero_stats = record {
  memory_usage = 0;
  cpu_time = 0;
  process_count = 0;
  thread_count = 0;
  job_count = 0;
}

pub record Job : Type 0 where
  pub base : KernelObjectBase
  pub id : ℕ
  pub parent_id : Option ℕ
  pub children : List ℕ
  pub processes : List ℕ
  pub policy : JobPolicy
  pub limits : ResourceLimits
  pub stats : JobStats

abbrev pub new_root : Job
new_root = record {
  base = object Rights.job;
  id = job_id_root;
  parent_id = none;
  children = [];
  processes = [];
  policy = basic;
  limits = unlimited;
  stats = zero_stats;
}

abbrev pub add_child : ℕ → Job → Job
add_child child_id job = record job { children = job.children ++ (child_id ∷ []) }

-- The child, the parent with the child in its list, and the next job's ID.
unfoldable pub new_child : Job → ℕ → ℕ → Job × Job × ℕ
new_child parent policy next_job_id = (
  record {
    base = object Rights.job;
    id = next_job_id;
    parent_id = some parent.id;
    children = [];
    processes = [];
    policy = policy_from_raw policy;
    limits = unlimited;
    stats = zero_stats;
  },
  add_child next_job_id parent,
  (next_job_id + 1) % 2 ^ 64,
)

-- The list without the first `id`; `none` if it has none.
unfoldable pub remove_first : ℕ → List ℕ → Option (List ℕ)
remove_first id [] = none
remove_first id (x ∷ xs) =
    let rest = remove_first id xs in
    if x == id then some xs else elim rest [ none ↦ none | some ys ↦ some (x ∷ ys) ]

abbrev pub with_children : Option (List ℕ) → Job → Job
with_children none job = job
with_children (some ids) job = record job { children = ids }

unfoldable pub remove_child : ℕ → Job → Job
remove_child child_id job = with_children (remove_first child_id job.children) job

abbrev pub counted : ℕ → Job → JobStats
counted n job = record job.stats { process_count = n }

unfoldable pub add_process : ℕ → Job → Job
add_process process_id job = record job {
  processes = job.processes ++ (process_id ∷ []);
  stats = counted ((job.stats.process_count + 1) % 2 ^ 64) job;
}

abbrev pub with_processes : Option (List ℕ) → Job → Job
with_processes none job = job
with_processes (some ids) job = record job {
  processes = ids;
  stats = counted ((job.stats.process_count + 2 ^ 64 - 1) % 2 ^ 64) job;
}

unfoldable pub remove_process : ℕ → Job → Job
remove_process process_id job = with_processes (remove_first process_id job.processes) job

abbrev pub child_count : Job → ℕ
child_count job = length job.children

abbrev pub process_count : Job → ℕ
process_count job = length job.processes
