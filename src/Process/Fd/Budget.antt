-- ===== src/Process/Fd/Budget.antt =====
-- How many descriptors src/syscall/fd.rs gives out over the life of a table.
use rustux.Base.{
  ℕ, zero, suc, ◌+◌, ◌-◌, ◌%◌, ◌<◌, ◌≡◌, ◌≢◌, ◌∙◌, refl, ap, inl, inr, min, List, [], ◌∷◌, ◌==◌,
  if◌then◌else◌, Option, none, some, arith, ℕ_discrete,
}
use rustux.Process.Fd.{FdKind, FileDescriptor, FileDescriptorTable, alloc, update, close}
use rustux.Process.Fd.Validity.{alloc_cases}

pub data Call : Type 0 where
  opens : FdKind → ℕ → Call
  closes : ℕ → Call
  writes : ℕ → (FileDescriptor → FileDescriptor) → Call

abbrev pub with_fd : Option ℕ → List ℕ → List ℕ
with_fd none fds = fds
with_fd (some fd) fds = fd ∷ fds

-- The descriptors that a sequence of calls is given, and the table that it leaves.
unfoldable pub run : List Call → FileDescriptorTable → List ℕ × FileDescriptorTable
run [] t = ([], t)
run (opens kind flags ∷ cs) t =
    let (r, t') = alloc kind flags t in let (fds, t'') = run cs t' in (with_fd r fds, t'')
run (closes fd ∷ cs) t = run cs (close fd t).1
run (writes fd f ∷ cs) t = run cs (update fd f t)

-- The calls among them that ask for a descriptor.
unfoldable pub requests : List Call → ℕ
requests [] = 0
requests (opens _ _ ∷ cs) = suc (requests cs)
requests (closes _ ∷ cs) = requests cs
requests (writes _ _ ∷ cs) = requests cs

abbrev pub left_from : ℕ → ℕ
left_from next = if next == 0 then 0 else 256 - next

abbrev pub remaining : FileDescriptorTable → ℕ
remaining t = left_from t.next_fd

-- `n` numbers from `i` on.
abbrev pub count_up : ℕ → ℕ → List ℕ
count_up zero i = []
count_up (suc n) i = i ∷ count_up n (i + 1)

next_fd-close : (fd : ℕ) (t : FileDescriptorTable) → (close fd t).1.next_fd ≡ t.next_fd
unfolding close
next_fd-close fd t = ground arith

next_fd-update :
    (fd : ℕ) (f : FileDescriptor → FileDescriptor) (t : FileDescriptorTable)
    → (update fd f t).next_fd ≡ t.next_fd
unfolding update
next_fd-update fd f t = ground arith

-- The number that is given next, and those after it.
count_up-next :
    (n next : ℕ)
    → next ≢ 0
    → next < 256
    → next ∷ count_up (min n (left_from ((next + 1) % 256))) ((next + 1) % 256)
      ≡ count_up (min (suc n) (left_from next)) next
count_up-next n next ne h = elim (ℕ_discrete next 255) [
  | yes e ↦
      let last : min n (left_from ((next + 1) % 256)) ≡ 0 = ground arith in
      let one : min (suc n) (left_from next) ≡ 1 = ground arith in rw (last, one) refl
  | no more ↦
      let plus : (next + 1) % 256 ≡ next + 1 = omega arith in
      let rest : min (suc n) (left_from next) ≡ suc (min n (left_from (next + 1))) = ground arith in
      rw (plus, rest) refl
]

-- Descriptors are given out in order, each once, until number 255 is given, and none after that:
-- closing descriptors makes no room.
pub run-count_up :
    (cs : List Call) (t : FileDescriptorTable)
    → t.next_fd < 256
    → (run cs t).0 ≡ count_up (min (requests cs) (remaining t)) t.next_fd
unfolding run requests
run-count_up [] t h = let e : min 0 (remaining t) ≡ 0 = omega arith in rw e refl
run-count_up (opens kind flags ∷ cs) t h = elim (alloc_cases kind flags t) [
  | inl (e, f) ↦ rw f (run-count_up cs t h ∙ ap (λ n. count_up n t.next_fd) (ground arith))
  | inr (ne, f) ↦ rw f (
      ap (◌∷◌ t.next_fd) (run-count_up cs _ (omega arith))
      ∙ count_up-next (requests cs) t.next_fd ne h)
]
run-count_up (closes fd ∷ cs) t h =
    run-count_up cs (close fd t).1 (rw next_fd-close h) ∙ rw next_fd-close refl
run-count_up (writes fd f ∷ cs) t h =
    run-count_up cs (update fd f t) (rw next_fd-update h) ∙ rw next_fd-update refl
