-- ===== src/Sync/WaitQueue/Wakes.antt =====
-- The order in which src/sync/wait_queue.rs wakes its waiters.
use rustux.Base.{
  ℕ, zero, suc, ◌+◌, ◌-◌, ◌%◌, ◌^◌, ◌≤◌, ◌<◌, ◌≡◌, ◌⊎◌, inl, inr, refl, ap, ◌∙◌, sym, subst, true,
  Option, none, some, List, [], ◌∷◌, ◌++◌, arith, length, returns, panics, length-append, ◌==◌,
}
use rustux.Sync.WaitQueue.{
  wait_ok, WaitQueueEntry, WaitQueueInner, WaitQueue, wait_queue_magic, max_queue_depth, new,
  validated, blocked_on, block, woken, wake_one, drain, wake_all,
}
use rustux.Sync.WaitQueue.Ring.{
  Represents, new-Represents, push_sorted-fifo, push_sorted-full, pop_front_lem,
}

-- The waiters are those of the list, in that order, and they have been counted.
pub record IsWaiting (wq : WaitQueue) (xs : List WaitQueueEntry) : Type 0 where
  pub ring : Represents wq.queue xs
  pub sound : wq.magic ≡ wait_queue_magic
  pub counted : wq.count ≡ length xs

abbrev pub waiter : ℕ → ℕ → WaitQueueEntry
waiter waiter_id priority = record {
  waiter_id = waiter_id;
  priority = priority;
  wait_result = wait_ok;
}

pub new-IsWaiting : IsWaiting new []
unfolding new
new-IsWaiting = record { ring = new-Represents; sound = refl; counted = refl }

validated_sound {ℓ} :
    {A : Type ℓ} (wq : WaitQueue) (a : A) → wq.magic ≡ wait_queue_magic → validated wq a ≡ returns a
unfolding validated
validated_sound wq a e =
    let good : (wq.magic == wait_queue_magic) ≡ true = ground arith in rw good refl

-- With at most 128 waiters a call of `block` adds its waiter at the end.
pub block_lem :
    (waiter_id priority deadline : ℕ) (wq : WaitQueue) (xs : List WaitQueueEntry)
    → IsWaiting wq xs
    → length xs ≤ 128
    → (wq' : WaitQueue) × (block waiter_id priority deadline wq ≡ returns (some (wait_ok, wq')))
      × IsWaiting wq' (xs ++ (waiter waiter_id priority ∷ []))
unfolding block
block_lem waiter_id priority deadline wq xs w h =
    let (q', e, r) = push_sorted-fifo (waiter waiter_id priority) wq.queue xs w.ring h in
    (
      record wq { queue = q'; count = (wq.count + 1) % 2 ^ 64 },
      validated_sound wq _ w.sound ∙ ap (λ o. returns (blocked_on wq o)) e,
      record {
        ring = r;
        sound = w.sound;
        counted = omega (arith, w.counted, length-append xs (waiter waiter_id priority ∷ []));
      },
    )

-- On a full queue `block` succeeds and counts a waiter that it has not queued.
pub block-full :
    (waiter_id priority deadline : ℕ) (wq : WaitQueue) (xs : List WaitQueueEntry)
    → IsWaiting wq xs
    → length xs ≡ max_queue_depth
    → block waiter_id priority deadline wq ≡ returns (some (wait_ok, record wq { count = 257 }))
unfolding block
block-full waiter_id priority deadline wq xs w h =
    validated_sound wq _ w.sound
    ∙ ap (λ o. returns (blocked_on wq o))
        (push_sorted-full (waiter waiter_id priority) wq.queue xs w.ring h)
    ∙ ap (λ n. returns (some (wait_ok, record wq { count = n }))) (omega (arith, w.counted))

-- `wake_one` wakes the first waiter, if there is one.
pub wake_one_lem :
    (wq : WaitQueue) (xs : List WaitQueueEntry)
    → IsWaiting wq xs
    → ((xs ≡ []) × (wake_one wq ≡ returns (none, wq)))
      ⊎ ((x : WaitQueueEntry) × (rest : List WaitQueueEntry) × (wq' : WaitQueue) × (xs ≡ x ∷ rest)
          × (wake_one wq ≡ returns (some x.waiter_id, wq'))
          × IsWaiting wq' rest)
unfolding wake_one
wake_one_lem wq xs w = elim (pop_front_lem wq.queue xs w.ring) [
  | inl (empty, e) ↦ inl (empty, validated_sound wq _ w.sound ∙ ap (λ o. returns (woken wq o)) e)
  | inr (x, rest, q', split, e, _, r) ↦ inr (
    x,
    rest,
    record wq { queue = q'; count = (wq.count + (2 ^ 64 - 1)) % 2 ^ 64 },
    split,
    validated_sound wq _ w.sound ∙ ap (λ o. returns (woken wq o)) e,
    record {
      ring = r;
      sound = w.sound;
      counted = omega (arith, w.counted, ap length split, r.fits, r.counted);
    },
  )
]

drain_lem :
    (rounds : ℕ) (q : WaitQueueInner) (xs : List WaitQueueEntry)
    → Represents q xs
    → length xs < rounds
    → (q' : WaitQueueInner) × (drain rounds q ≡ some (length xs, q')) × Represents q' []
unfolding drain
drain_lem zero q xs r h = elim h [ ]
drain_lem (suc rounds) q xs r h = elim (pop_front_lem q xs r) [
  | inl (empty, e) ↦ (
    q,
    rw (e, drain) (ap (λ n. some (n, q)) (sym (ap length empty))),
    subst (Represents q) empty r,
  )
  | inr (x, rest, q', split, e, _, r') ↦
      let (q'', f, done) = drain_lem rounds q' rest r' (omega (arith, ap length split)) in
      (q'', rw (e, f, drain) (ap (λ n. some (n, q'')) (omega (arith, ap length split))), done)
]

-- `wake_all` always ends; it wakes every waiter, says how many there were, and leaves none.
pub wake_all_lem :
    (wq : WaitQueue) (xs : List WaitQueueEntry)
    → IsWaiting wq xs
    → (wq' : WaitQueue) × (wake_all wq ≡ returns (some (length xs, wq'))) × IsWaiting wq' []
unfolding wake_all
wake_all_lem wq xs w =
    let (q', e, r) =
      drain_lem (wq.queue.size + 1) wq.queue xs w.ring (omega (arith, w.ring.counted)) in
    (
      record wq { queue = q'; count = (wq.count + (2 ^ 64 - length xs)) % 2 ^ 64 },
      validated_sound wq _ w.sound ∙ rw e refl,
      record {
        ring = r;
        sound = w.sound;
        counted = omega (arith, w.counted, w.ring.fits, w.ring.counted);
      },
    )

-- Waiters by number and priority block one after the other.
unfoldable pub block_all : List (ℕ × ℕ) → WaitQueue → Option WaitQueue
block_all [] wq = some wq
block_all ((waiter_id, priority) ∷ ws) wq = elim (block waiter_id priority 0 wq) [
  | panics ↦ none
  | returns none ↦ none
  | returns (some (st, wq')) ↦ block_all ws wq'
]

-- What `n` calls of `wake_one` give.
unfoldable pub wakes : ℕ → WaitQueue → List (Option ℕ)
wakes zero wq = []
wakes (suc n) wq = elim (wake_one wq) [ panics ↦ [] | returns (r, wq') ↦ r ∷ wakes n wq' ]

abbrev pub in_order : List (ℕ × ℕ) → List (Option ℕ)
in_order [] = []
in_order ((waiter_id, priority) ∷ ws) = some waiter_id ∷ in_order ws

abbrev entries_of : List (ℕ × ℕ) → List WaitQueueEntry
entries_of [] = []
entries_of ((waiter_id, priority) ∷ ws) = waiter waiter_id priority ∷ entries_of ws

append_assoc :
    (xs : List WaitQueueEntry) (x : WaitQueueEntry) (ys : List WaitQueueEntry)
    → (xs ++ (x ∷ [])) ++ ys ≡ xs ++ (x ∷ ys)
append_assoc [] x ys = refl
append_assoc (y ∷ xs) x ys = ap (◌∷◌ y) (append_assoc xs x ys)

append-nil : (xs : List WaitQueueEntry) → xs ++ [] ≡ xs
append-nil [] = refl
append-nil (y ∷ xs) = ap (◌∷◌ y) (append-nil xs)

block_all_lem :
    (ws : List (ℕ × ℕ)) (wq : WaitQueue) (xs : List WaitQueueEntry)
    → IsWaiting wq xs
    → length xs + length ws ≤ 129
    → (wq' : WaitQueue) × (block_all ws wq ≡ some wq') × IsWaiting wq' (xs ++ entries_of ws)
unfolding block_all
block_all_lem [] wq xs w h = (wq, refl, subst (IsWaiting wq) (sym (append-nil xs)) w)
block_all_lem ((waiter_id, priority) ∷ ws) wq xs w h =
    let (wq', e, w') = block_lem waiter_id priority 0 wq xs w (omega arith) in
    let (wq'', f, w'') =
      block_all_lem ws wq' (xs ++ (waiter waiter_id priority ∷ [])) w'
        (omega (arith, length-append xs (waiter waiter_id priority ∷ []))) in
    (
      wq'',
      rw (e, block_all) f,
      subst (IsWaiting wq'') (append_assoc xs (waiter waiter_id priority) (entries_of ws)) w'',
    )

wakes_lem :
    (ws : List (ℕ × ℕ)) (wq : WaitQueue)
    → IsWaiting wq (entries_of ws)
    → wakes (length ws) wq ≡ in_order ws
unfolding wakes
wakes_lem [] wq w = refl
wakes_lem ((waiter_id, priority) ∷ ws) wq w = elim (wake_one_lem wq _ w) [
  | inl (empty, _) ↦ cc
  | inr (x, rest, wq', split, e, w') ↦
      let first : x.waiter_id ≡ waiter_id = sym (ap (head_id waiter_id) split) in
      let others : rest ≡ entries_of ws = sym (ap tail_of split) in
      rw (e, wakes)
        (rw first (ap (◌∷◌ (some waiter_id)) (wakes_lem ws wq' (subst (IsWaiting wq') others w'))))
]
  where
    head_id : ℕ → List WaitQueueEntry → ℕ
    head_id d [] = d
    head_id d (y ∷ ys) = y.waiter_id

    tail_of : List WaitQueueEntry → List WaitQueueEntry
    tail_of [] = []
    tail_of (y ∷ ys) = ys

-- Up to 129 waiters that block on a new queue are woken in the order in which they blocked, whatever
-- their priorities.
pub wakes-fifo :
    (ws : List (ℕ × ℕ))
    → length ws ≤ 129
    → (wq : WaitQueue) × (block_all ws new ≡ some wq) × (wakes (length ws) wq ≡ in_order ws)
wakes-fifo ws h =
    let (wq, e, w) = block_all_lem ws new [] new-IsWaiting (omega arith) in
    (wq, e, wakes_lem ws wq w)
