-- ===== src/Process/Fd/Validity.antt =====
-- What holds of the descriptor table of src/syscall/fd.rs between calls, and what `alloc` and `close`
-- change.
use rustux.Base.{
  ℕ, zero, suc, ◌+◌, ◌%◌, ◌≤◌, ◌<◌, ◌≡◌, ◌≢◌, refl, sym, ap, ◌∙◌, ◌⊎◌, inl, inr, none, some, arith,
  length, slot, set, length-set, slot-set_self, slot-set_ne, slot-replicate, slot-set-none,
  lt_of_slot, occupied-set-some, occupied-set-none, Option-cases, ℕ_discrete,
}
use rustux.Process.Fd.{
  FdKind, FileDescriptor, FileDescriptorTable, new, init, alloc, get, update, close, count,
}

-- The standard streams are open, and no descriptor from `next_fd` on is in use.
pub record IsValid (t : FileDescriptorTable) : Type 0 where
  pub size : length t.fds ≡ 256
  pub small : t.next_fd < 256
  pub past_standard : t.next_fd ≢ 0 → 3 ≤ t.next_fd
  pub unused : (i : ℕ) → t.next_fd ≢ 0 → t.next_fd ≤ i → slot t.fds i ≡ none

opened : (i : ℕ) → 3 ≤ i → slot (init new).fds i ≡ none
unfolding init new
opened zero h = absurd (omega arith)
opened (suc zero) h = absurd (omega arith)
opened (suc (suc zero)) h = absurd (omega arith)
opened (suc (suc (suc i))) h = slot-replicate FileDescriptor 253 i

-- A new table with its standard streams is valid.
pub init-IsValid : IsValid (init new)
unfolding init new
init-IsValid = record {
  size = refl;
  small = omega arith;
  past_standard = λ _. omega arith;
  unused = λ i _ h. opened i h;
}

abbrev opened_as : FdKind → ℕ → FileDescriptorTable → FileDescriptorTable
opened_as kind flags t = record {
  fds = set t.fds t.next_fd (some (record { kind = kind; flags = flags }));
  next_fd = (t.next_fd + 1) % 256;
}

pub alloc_cases :
    (kind : FdKind) (flags : ℕ) (t : FileDescriptorTable)
    → ((t.next_fd ≡ 0) × (alloc kind flags t ≡ (none, t)))
      ⊎ ((t.next_fd ≢ 0) × (alloc kind flags t ≡ (some t.next_fd, opened_as kind flags t)))
unfolding alloc
alloc_cases kind flags t = elim (ℕ_discrete t.next_fd 0) [
  | yes e ↦ inl (e, ground arith)
  | no ne ↦ inr (ne, ground arith)
]

pub close_cases :
    (fd : ℕ) (t : FileDescriptorTable)
    → (close fd t ≡ (none, t))
      ⊎ ((3 ≤ fd)
          × (d : FileDescriptor) × (slot t.fds fd ≡ some d)
          × (close fd t ≡ (some d, record t { fds = set t.fds fd none })))
unfolding close
close_cases fd t = elim (Option-cases (slot t.fds fd)) [
  | inl e ↦ inl (ground arith)
  | inr (d, e) ↦ ground arith
]

-- `alloc` keeps the table valid.
pub alloc-IsValid :
    (kind : FdKind) (flags : ℕ) (t : FileDescriptorTable)
    → IsValid t
    → IsValid (alloc kind flags t).1
alloc-IsValid kind flags t v = elim (alloc_cases kind flags t) [
  | inl (_, e) ↦ rw e v
  | inr (ne, e) ↦ rw e (record {
    size = length-set t.fds t.next_fd _ ∙ v.size;
    small = omega arith;
    past_standard = λ h. omega (arith, v.past_standard ne);
    unused = λ i h above.
        slot-set_ne t.fds t.next_fd i _ (λ q. omega arith) ∙ v.unused i ne (omega arith);
  })
]

-- `close` keeps the table valid.
pub close-IsValid : (fd : ℕ) (t : FileDescriptorTable) → IsValid t → IsValid (close fd t).1
close-IsValid fd t v = elim (close_cases fd t) [
  | inl e ↦ rw e v
  | inr (_, d, used, e) ↦ rw e (record {
    size = length-set t.fds fd none ∙ v.size;
    small = v.small;
    past_standard = v.past_standard;
    unused = λ i h above. slot-set-none t.fds i fd (v.unused i h above);
  })
]

-- A write through `get_mut` keeps the table valid.
pub update-IsValid :
    (fd : ℕ) (f : FileDescriptor → FileDescriptor) (t : FileDescriptorTable)
    → IsValid t
    → IsValid (update fd f t)
unfolding update
update-IsValid fd f t v = elim (Option-cases (slot t.fds fd)) [
  | inl e ↦ rw (e, update) v
  | inr (d, e) ↦
      rw (e, update)
        (record {
          size = length-set t.fds fd (some (f d)) ∙ v.size;
          small = v.small;
          past_standard = v.past_standard;
          unused = λ i h above.
              slot-set_ne t.fds fd i (some (f d))
                (λ q. ground (arith, ap (slot t.fds) q, v.unused i h above))
              ∙ v.unused i h above;
        })
]

-- `alloc` opens a descriptor that was closed, reads back as given, leaves the others as they were,
-- and adds one to the count; it fails only with `next_fd` at 0, and then changes nothing.
pub alloc_lem :
    (kind : FdKind) (flags : ℕ) (t : FileDescriptorTable)
    → IsValid t
    → ((t.next_fd ≡ 0) × (alloc kind flags t ≡ (none, t)))
      ⊎ ((fd : ℕ) × (t' : FileDescriptorTable) × (alloc kind flags t ≡ (some fd, t'))
          × (3 ≤ fd)
          × (get fd t ≡ none)
          × (get fd t' ≡ some (record { kind = kind; flags = flags }))
          × ((i : ℕ) → i ≢ fd → get i t' ≡ get i t)
          × (count t' ≡ count t + 1))
unfolding get count
alloc_lem kind flags t v = elim (alloc_cases kind flags t) [
  | inl e ↦ inl e
  | inr (ne, e) ↦
      let free = v.unused t.next_fd ne (omega arith) in
      let inside : t.next_fd < length t.fds = omega (arith, v.size, v.small) in
      inr (
        t.next_fd,
        opened_as kind flags t,
        e,
        v.past_standard ne,
        free,
        slot-set_self t.fds t.next_fd _ inside,
        λ i other. slot-set_ne t.fds t.next_fd i _ (λ q. other (sym q)),
        occupied-set-some t.fds t.next_fd _ inside free,
      )
]

-- No `close`, whatever its argument, closes a standard stream; a descriptor that is closed reads as
-- closed, was open before, and no other descriptor changes.
pub close_lem :
    (fd : ℕ) (t : FileDescriptorTable)
    → ((i : ℕ) → (i < 3) ⊎ (i ≢ fd) → get i (close fd t).1 ≡ get i t)
      × ((d : FileDescriptor)
          → (close fd t).0 ≡ some d
          → (get fd t ≡ some d)
            × (get fd (close fd t).1 ≡ none)
            × (count (close fd t).1 + 1 ≡ count t))
unfolding get count
close_lem fd t = elim (close_cases fd t) [
  | inl e ↦ (λ i _. ap (λ r. slot r.1.fds i) e, λ d f. cc)
  | inr (above, d, used, e) ↦ rw e (
    λ i low.
        slot-set_ne t.fds fd i none (λ q. elim low [ inl l ↦ omega arith | inr ne ↦ ne (sym q) ]),
    λ d' f. (
      ground arith,
      slot-set_self t.fds fd none (lt_of_slot t.fds fd d used),
      occupied-set-none t.fds fd d used,
    ),
  )
]
