-- ===== src/Object/Job/Counts.antt =====
-- The processes and the policies of the jobs of src/object/job.rs.
use rustux.Base.{
  ℕ, ◌+◌, ◌-◌, ◌%◌, ◌^◌, ◌<◌, ◌≡◌, ◌≢◌, ◌⊎◌, inl, inr, refl, ap, Bool-cases, true, false, Option,
  Option-cases, none, some, List, [], ◌∷◌, ◌++◌, arith, ◌==◌, length, length-append, bit_or,
}
use rustux.Object.Job.{
  Job, JobPolicy, no_policy, basic, no_new_vmos, no_new_channels, no_new_events, no_new_sockets,
  no_new_processes, no_new_threads, kill_on_close, allow_profile, allow_debug, policy_from_raw,
  to_flags, contains, bitor, remove_first, with_processes, counted, add_process, remove_process,
  process_count,
}

length-remove_first :
    (id : ℕ) (xs ys : List ℕ) → remove_first id xs ≡ some ys → length ys + 1 ≡ length xs
unfolding remove_first
length-remove_first id [] ys e = cc
length-remove_first id (x ∷ xs) ys e = elim (Bool-cases (x == id)) [
  | inl here ↦ let same : xs ≡ ys = cc (rw here at e) in omega (arith, ap (λ l. length l) same)
  | inr other ↦ elim (Option-cases (remove_first id xs)) [
    | inl nowhere ↦ cc (rw (other, nowhere) at e)
    | inr (zs, out) ↦
        let same : x ∷ zs ≡ ys = cc (rw (other, out) at e) in
        omega (arith, length-remove_first id xs zs out, ap (λ l. length l) same)
  ]
]

pub data Operation : Type 0 where
  adds : ℕ → Operation
  removes : ℕ → Operation

unfoldable pub run : List Operation → Job → Job
run [] job = job
run (adds id ∷ ops) job = run ops (add_process id job)
run (removes id ∷ ops) job = run ops (remove_process id job)

-- The statistics count the job's processes.
abbrev pub IsCounted : Job → Type 0
IsCounted job = job.stats.process_count ≡ process_count job

with_processes-IsCounted :
    (id : ℕ) (o : Option (List ℕ)) (job : Job)
    → remove_first id job.processes ≡ o
    → IsCounted job
    → process_count job < 2 ^ 64
    → IsCounted (with_processes o job)
      × (process_count (with_processes o job) < process_count job + 1)
with_processes-IsCounted id none job e h fits = (h, omega arith)
with_processes-IsCounted id (some ids) job e h fits =
    let fewer = length-remove_first id job.processes ids e in (omega arith, omega arith)

-- After any calls of `add_process` and `remove_process` on a job whose statistics count its processes,
-- they still do, if the processes and the calls are fewer than 2 ^ 64 together.
pub run-IsCounted :
    (ops : List Operation) (job : Job)
    → IsCounted job
    → process_count job + length ops < 2 ^ 64
    → IsCounted (run ops job)
unfolding run add_process remove_process
run-IsCounted [] job h fits = h
run-IsCounted (adds id ∷ ops) job h fits =
    let more = length-append job.processes (id ∷ []) in
    run-IsCounted ops (add_process id job) (omega arith) (omega arith)
run-IsCounted (removes id ∷ ops) job h fits =
    let (still, fewer) =
      with_processes-IsCounted id (remove_first id job.processes) job refl h (omega arith) in
    run-IsCounted ops (remove_process id job) still (omega arith)

remove_first-append :
    (id : ℕ) (xs : List ℕ) → remove_first id xs ≡ none → remove_first id (xs ++ (id ∷ [])) ≡ some xs
unfolding remove_first
remove_first-append id [] e = let own : (id == id) ≡ true = ground arith in rw own refl
remove_first-append id (x ∷ xs) e = elim (Bool-cases (x == id)) [
  | inl here ↦ cc (rw here at e)
  | inr other ↦ elim (Option-cases (remove_first id xs)) [
    | inl nowhere ↦ rw (other, remove_first-append id xs nowhere) refl
    | inr (ys, out) ↦ cc (rw (other, out) at e)
  ]
]

-- Adding a process that a job does not have and removing it again leaves the job as it was, if its
-- count is below 2 ^ 64 - 1.
pub remove_process-add_process :
    (id : ℕ) (job : Job)
    → remove_first id job.processes ≡ none
    → job.stats.process_count + 1 < 2 ^ 64
    → remove_process id (add_process id job) ≡ job
unfolding remove_process add_process
remove_process-add_process id job absent fits =
    let back : ((job.stats.process_count + 1) % 2 ^ 64 + 2 ^ 64 - 1) % 2 ^ 64
        ≡ job.stats.process_count =
      omega arith in
    rw (remove_first-append id job.processes absent)
      (ap (λ n. record job { stats = counted n job }) back)

from_raw_cases : (n : ℕ) → (policy_from_raw n ≡ basic) ⊎ (policy_from_raw n ≡ no_policy)
unfolding policy_from_raw
from_raw_cases n = elim (Bool-cases (n == 1)) [
  | inl one ↦ inl (rw one refl)
  | inr other ↦ inr (rw other refl)
]

no_policy-contains : (x : JobPolicy) → contains no_policy x ≡ false
unfolding contains
no_policy-contains no_policy = refl
no_policy-contains basic = refl
no_policy-contains no_new_vmos = refl
no_policy-contains no_new_channels = refl
no_policy-contains no_new_events = refl
no_policy-contains no_new_sockets = refl
no_policy-contains no_new_processes = refl
no_policy-contains no_new_threads = refl
no_policy-contains kill_on_close = refl
no_policy-contains allow_profile = refl
no_policy-contains allow_debug = refl

basic-contains : (x : JobPolicy) → x ≢ basic → contains basic x ≡ false
unfolding contains
basic-contains no_policy ne = refl
basic-contains basic ne = absurd (ne refl)
basic-contains no_new_vmos ne = refl
basic-contains no_new_channels ne = refl
basic-contains no_new_events ne = refl
basic-contains no_new_sockets ne = refl
basic-contains no_new_processes ne = refl
basic-contains no_new_threads ne = refl
basic-contains kill_on_close ne = refl
basic-contains allow_profile ne = refl
basic-contains allow_debug ne = refl

-- Policies that are combined with `|` contain nothing but, at most, the basic policy.
pub contains-bitor : (p q x : JobPolicy) → x ≢ basic → contains (bitor p q) x ≡ false
unfolding bitor
contains-bitor p q x ne = elim (from_raw_cases (bit_or (to_flags p) (to_flags q))) [
  | inl is ↦ rw is (basic-contains x ne)
  | inr is ↦ rw is (no_policy-contains x)
]
