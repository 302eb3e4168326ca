-- ===== src/Sync/Event/Interleavings.antt =====
-- The event of src/sync/event.rs under the calls of several threads.
use rustux.Base.{
  ℕ, zero, suc, ◌+◌, ◌-◌, ◌%◌, ◌^◌, ◌<◌, ◌≡◌, ◌⊎◌, inl, inr, refl, ap, ◌∙◌, sym, Bool, Bool-cases,
  true, false, arith, ltb, ◌==◌, Outcome, returns, panics,
}
use rustux.Sync.Event.{
  Event, EventFlags, from_raw, new, event_magic, validated, destroy, signal, unsignal, enter, leave,
  one_less,
}

-- One step of one thread. The number counts the threads that are in `wait`.
pub data Step : Event × ℕ → Event × ℕ → Type 0 where
  signals : (e e' : Event) (n : ℕ) → signal e ≡ returns e' → Step (e, n) (e', n)
  unsignals : (e e' : Event) (n : ℕ) → unsignal e ≡ returns e' → Step (e, n) (e', n)
  enters : (e e' : Event) (n : ℕ) → enter e ≡ returns e' → Step (e, n) (e', n + 1)
  leaves : (e : Event) (n : ℕ) → e.signaled ≡ true → Step (e, n + 1) (leave e, n)

pub data Reachable : Event × ℕ → Type 0 where
  created : (initial : Bool) (flags : EventFlags) → Reachable (new initial flags, 0)
  step : (a b : Event × ℕ) → Reachable a → Step a b → Reachable b

-- The event's magic number is right, and it counts the waiting threads.
pub record Counts (a : Event × ℕ) : Type 0 where
  pub genuine : a.0.magic ≡ event_magic
  pub counted : a.0.waiter_count ≡ a.1 % 2 ^ 64

validated_lem :
    (e : Event) (result : Outcome Event) → e.magic ≡ event_magic → validated e result ≡ result
validated_lem e result h = let own : (e.magic == event_magic) ≡ true = ground arith in rw own refl

returned : (e e' : Event) → returns e ≡ returns e' → e ≡ e'
returned e e' h = cc

step-Counts : (a b : Event × ℕ) → Step a b → Counts a → Counts b
unfolding signal unsignal enter leave
step-Counts a b (signals e e' n h) c =
    let is = returned (record e { signaled = true }) e' (sym (validated_lem e _ c.genuine) ∙ h) in
    record {
      genuine = ap (λ x. x.magic) (sym is) ∙ c.genuine;
      counted = ap (λ x. x.waiter_count) (sym is) ∙ c.counted;
    }
step-Counts a b (unsignals e e' n h) c =
    let is = returned (record e { signaled = false }) e' (sym (validated_lem e _ c.genuine) ∙ h) in
    record {
      genuine = ap (λ x. x.magic) (sym is) ∙ c.genuine;
      counted = ap (λ x. x.waiter_count) (sym is) ∙ c.counted;
    }
step-Counts a b (enters e e' n h) c =
    let is =
      returned (record e { waiter_count = (e.waiter_count + 1) % 2 ^ 64 }) e'
        (sym (validated_lem e _ c.genuine) ∙ h) in
    record {
      genuine = ap (λ x. x.magic) (sym is) ∙ c.genuine;
      counted = omega (arith, ap (λ x. x.waiter_count) is, c.counted);
    }
step-Counts a b (leaves e n h) c = record {
  genuine = c.genuine;
  counted = omega (arith, c.counted);
}

reachable-Counts : (a : Event × ℕ) → Reachable a → Counts a
unfolding new
reachable-Counts a (created initial flags) = record { genuine = refl; counted = refl }
reachable-Counts a (step b c r s) = step-Counts b c s (reachable-Counts b r)

-- Whatever threads have called on an event, as long as fewer than 2 ^ 64 of them wait, its count is the
-- number of threads that wait, and `destroy` panics exactly if there is one.
pub reachable-destroy :
    (e : Event) (n : ℕ)
    → Reachable (e, n)
    → n < 2 ^ 64
    → (e.waiter_count ≡ n)
      × (((n ≡ 0) × (destroy e ≡ returns e)) ⊎ ((0 < n) × (destroy e ≡ panics)))
unfolding destroy
reachable-destroy e n r small =
    let c = reachable-Counts (e, n) r in
    let count : e.waiter_count ≡ n = omega (arith, c.counted) in
    (
      count,
      elim (Bool-cases (ltb 0 e.waiter_count)) [
        | inl waits ↦ inr (ground arith, validated_lem e _ c.genuine ∙ rw waits refl)
        | inr free ↦ inl (ground arith, validated_lem e _ c.genuine ∙ rw free refl)
      ],
    )

-- Several threads leave `wait`.
unfoldable pub leave_times : ℕ → Event → Event
leave_times zero e = e
leave_times (suc k) e = leave_times k (leave e)

leave_more :
    (k n : ℕ) (e : Event)
    → n < 2 ^ 64
    → e.waiter_count ≡ n
    → e.signaled ≡ true
    → k < n
    → (leave_times k e).signaled ≡ true
unfolding leave_times leave
leave_more zero n e small count on lt = on
leave_more (suc k) n e small count on lt =
    let left : one_less e ≡ n - 1 = omega arith in
    let some_left : (one_less e == 0) ≡ false = ground (arith, left) in
    leave_more k (n - 1) (leave e) (omega arith) left
      (elim (Bool-cases ((from_raw e.flags).auto_unsignal)) [
        | inl auto_ ↦ rw (auto_, some_left) on
        | inr manual ↦ rw manual on
      ])
      (omega arith)

leave_all :
    (n : ℕ) (e : Event)
    → 0 < n
    → n < 2 ^ 64
    → e.waiter_count ≡ n
    → (from_raw e.flags).auto_unsignal ≡ true
    → (leave_times n e).signaled ≡ false
unfolding leave_times leave
leave_all zero e some_ small count is_auto = absurd (omega arith)
leave_all (suc zero) e some_ small count is_auto =
    let none_left : (one_less e == 0) ≡ true = ground arith in rw (is_auto, none_left) refl
leave_all (suc (suc n)) e some_ small count is_auto =
    leave_all (suc n) (leave e) (omega arith) (omega arith) (omega arith) is_auto

-- One signal lets every waiting thread of an auto-unsignal event go: the event stays signaled until the
-- last of the `n` threads has left, and is unsignaled then.
pub auto_unsignal_lem :
    (e : Event) (n : ℕ)
    → Reachable (e, n)
    → 0 < n
    → n < 2 ^ 64
    → (from_raw e.flags).auto_unsignal ≡ true
    → (e' : Event) × (signal e ≡ returns e')
      × ((k : ℕ) → k < n → (leave_times k e').signaled ≡ true)
      × ((leave_times n e').signaled ≡ false)
unfolding signal
auto_unsignal_lem e n r some_ small is_auto =
    let c = reachable-Counts (e, n) r in
    let count : e.waiter_count ≡ n = omega (arith, c.counted) in
    let e' : Event = record e { signaled = true } in
    (
      e',
      validated_lem e _ c.genuine,
      λ k lt. leave_more k n e' small count refl lt,
      leave_all n e' some_ small count is_auto,
    )
