-- ===== src/Sync/WaitQueue/Tests.antt =====
-- Runs of a wait queue, and its theorems at concrete waiters.
use rustux.Base.{
  ◌++◌, slot-replicate, ℕ, zero, suc, ◌%◌, ap, ◌∙◌, ◌+◌, ◌≡◌, ◌⊎◌, refl, none, some, List, [], ◌∷◌,
  arith, replicate, returns, slot, get_elem?,
}
use rustux.Sync.WaitQueue.{
  WaitQueue, WaitQueueEntry, WaitQueueInner, wait_ok, new, block, wake_all, push_sorted, pop_front,
  peek_front, wait_queue_magic,
}
use rustux.Sync.WaitQueue.Ring.{Represents, push_sorted-fifo, pop_front_lem}
use rustux.Sync.WaitQueue.Wakes.{
  IsWaiting, new-IsWaiting, waiter, block_lem, wake_all_lem, block_all, wakes, wakes-fifo,
}

-- The waiters of a unit test of the source, which expects 2, 3, 1.
abbrev waiters : List (ℕ × ℕ)
waiters = (1, 10) ∷ (2, 30) ∷ (3, 20) ∷ []

wakes-fifo_example :
    (wq : WaitQueue) × (block_all waiters new ≡ some wq)
    × (wakes 3 wq ≡ some 1 ∷ some 2 ∷ some 3 ∷ [])
wakes-fifo_example = wakes-fifo waiters (omega arith)

first_waiting :
    (wq : WaitQueue) × (block 1 10 0 new ≡ returns (some (wait_ok, wq)))
    × IsWaiting wq (waiter 1 10 ∷ [])
first_waiting = block_lem 1 10 0 new [] new-IsWaiting (omega arith)

push_sorted-fifo_example :
    (q : WaitQueueInner) × (push_sorted (waiter 2 30) first_waiting.0.queue ≡ some q)
    × Represents q (waiter 1 10 ∷ waiter 2 30 ∷ [])
push_sorted-fifo_example =
    push_sorted-fifo (waiter 2 30) first_waiting.0.queue (waiter 1 10 ∷ []) first_waiting.2.ring
      (omega arith)

pop_front_lem_example :
    ((waiter 1 10 ∷ [] ≡ []) × (pop_front first_waiting.0.queue ≡ (none, first_waiting.0.queue)))
    ⊎ ((x : WaitQueueEntry) × (rest : List WaitQueueEntry) × (q' : WaitQueueInner) × (waiter 1 10
            ∷ []
          ≡ x ∷ rest)
        × (pop_front first_waiting.0.queue ≡ (some x, q'))
        × (peek_front first_waiting.0.queue ≡ some x)
        × Represents q' rest)
pop_front_lem_example = pop_front_lem first_waiting.0.queue (waiter 1 10 ∷ []) first_waiting.2.ring

wake_all_lem_example :
    (wq : WaitQueue) × (wake_all first_waiting.0 ≡ returns (some (1, wq))) × IsWaiting wq []
wake_all_lem_example = wake_all_lem first_waiting.0 (waiter 1 10 ∷ []) first_waiting.2

abbrev many : List WaitQueueEntry
many = replicate 256 (waiter 9 5)

abbrev crowded : WaitQueue
crowded = record {
  queue = record { entries = replicate 256 (some (waiter 9 5)); head = 0; tail = 0; size = 256 };
  magic = wait_queue_magic;
  count = 256;
}

filled :
    (n j : ℕ) → slot (replicate n (some (waiter 9 5))) j ≡ get_elem? (replicate n (waiter 9 5)) j
filled zero j = refl
filled (suc n) zero = refl
filled (suc n) (suc j) = filled n j

crowded-IsWaiting : IsWaiting crowded many
crowded-IsWaiting = record {
  ring = record {
    depth = refl;
    counted = refl;
    fits = omega arith;
    start = omega arith;
    end = refl;
    holds = λ j h.
        let here : (0 + j) % 256 ≡ j = omega arith in
        ap (slot (replicate 256 (some (waiter 9 5)))) here ∙ filled 256 j;
  };
  sound = refl;
  counted = refl;
}

-- Here the ring is more than half full, so that priorities count.
abbrev busy : WaitQueueInner
busy = record {
  entries = replicate 200 (some (waiter 9 5)) ++ replicate 56 none;
  head = 0;
  tail = 200;
  size = 200;
}

mixed :
    (n j : ℕ)
    → slot (replicate n (some (waiter 9 5)) ++ replicate 56 none) j
      ≡ get_elem? (replicate n (waiter 9 5)) j
mixed zero j = slot-replicate WaitQueueEntry 56 j
mixed (suc n) zero = refl
mixed (suc n) (suc j) = mixed n j

busy-Represents : Represents busy (replicate 200 (waiter 9 5))
busy-Represents = record {
  depth = refl;
  counted = refl;
  fits = omega arith;
  start = omega arith;
  end = refl;
  holds = λ j h.
      let here : (0 + j) % 256 ≡ j = omega arith in ap (slot busy.entries) here ∙ mixed 200 j;
}
