-- ===== src/Sync/WaitQueue/Ring.antt =====
-- The ring of src/sync/wait_queue.rs against the list of its entries, first to last.
use rustux.Base.{
  Bool-cases, ℕ, zero, suc, ◌+◌, ◌-◌, ◌%◌, ◌≤◌, ◌<◌, ◌≡◌, ◌≢◌, ◌⊎◌, inl, inr, refl, ap, ◌∙◌, sym,
  true, false, Option, none, some, List, [], ◌∷◌, ◌++◌, arith, length, set, slot, get_elem?,
  ℕ_discrete, ◌==◌, leb, length-set, length-append, slot-set_self, slot-set_ne, slot-replicate,
}
use rustux.Sync.WaitQueue.{
  WaitQueueEntry, WaitQueueInner, max_queue_depth, new_inner, insertion_point, yields_to, shift,
  push_sorted, pop_front, peek_front,
}

-- Entry `j` of the queue is at `head + j`, round the ring; the other slots are free.
pub record Represents (q : WaitQueueInner) (xs : List WaitQueueEntry) : Type 0 where
  pub depth : length q.entries ≡ max_queue_depth
  pub counted : q.size ≡ length xs
  pub fits : q.size ≤ max_queue_depth
  pub start : q.head < max_queue_depth
  pub end : q.tail ≡ (q.head + q.size) % max_queue_depth
  pub holds :
      (j : ℕ)
      → j < max_queue_depth
      → slot q.entries ((q.head + j) % max_queue_depth) ≡ get_elem? xs j

pub new-Represents : Represents new_inner []
new-Represents = record {
  depth = refl;
  counted = refl;
  fits = omega arith;
  start = omega arith;
  end = refl;
  holds = λ j h. slot-replicate WaitQueueEntry 256 ((0 + j) % max_queue_depth);
}

-- Nothing that the search passes over yields, so it ends where it started.
insertion_point-tail :
    (rounds priority : ℕ) (entries : List (Option WaitQueueEntry)) (tail current : ℕ)
    → current < max_queue_depth
    → ((j : ℕ) → j < rounds → slot entries ((current + j) % max_queue_depth) ≡ none)
    → insertion_point rounds priority entries tail current ≡ tail
unfolding insertion_point
insertion_point-tail zero priority entries tail current h free = refl
insertion_point-tail (suc rounds) priority entries tail current h free =
    let here : slot entries current ≡ none =
      ap (slot entries) (omega arith) ∙ free 0 (omega arith) in
    rw here (
      insertion_point-tail rounds priority entries tail ((current + 1) % max_queue_depth)
        (omega arith) (λ j lt. ap (slot entries) (omega arith) ∙ free (j + 1) (omega arith)))

-- The entry one past the end.
get_elem?-append :
    (xs : List WaitQueueEntry) (x : WaitQueueEntry) (j : ℕ)
    → ((j ≡ length xs) × (get_elem? (xs ++ (x ∷ [])) j ≡ some x))
      ⊎ ((j ≢ length xs) × (get_elem? (xs ++ (x ∷ [])) j ≡ get_elem? xs j))
get_elem?-append [] x zero = inl (refl, refl)
get_elem?-append [] x (suc j) = inr (λ e. cc, refl)
get_elem?-append (y ∷ xs) x zero = inr (λ e. cc, refl)
get_elem?-append (y ∷ xs) x (suc j) = elim (get_elem?-append xs x j) [
  | inl (e, f) ↦ inl (ap suc e, f)
  | inr (ne, f) ↦ inr (λ e. ne (omega arith), f)
]

abbrev pub at_tail : WaitQueueEntry → WaitQueueInner → WaitQueueInner
at_tail entry q = record {
  entries = set q.entries q.tail (some entry);
  head = q.head;
  tail = (q.tail + 1) % max_queue_depth;
  size = q.size + 1;
}

at_tail-Represents :
    (entry : WaitQueueEntry) (q : WaitQueueInner) (xs : List WaitQueueEntry)
    → Represents q xs
    → q.size < max_queue_depth
    → Represents (at_tail entry q) (xs ++ (entry ∷ []))
at_tail-Represents entry q xs r room = record {
  depth = length-set q.entries q.tail _ ∙ r.depth;
  counted = omega (arith, r.counted, length-append xs (entry ∷ []));
  fits = omega arith;
  start = r.start;
  end = omega (arith, r.end, r.start);
  holds = λ j h. elim (get_elem?-append xs entry j) [
    | inl (last, f) ↦
        let here : (q.head + j) % max_queue_depth ≡ q.tail = omega (arith, r.end, r.counted) in
        ap (slot (set q.entries q.tail (some entry))) here
        ∙ slot-set_self q.entries q.tail (some entry) (omega (arith, r.depth, r.end))
        ∙ sym f
    | inr (ne, f) ↦
        slot-set_ne q.entries q.tail ((q.head + j) % max_queue_depth) (some entry)
          (λ e. ne (omega (arith, r.end, r.counted, r.start, r.fits)))
        ∙ r.holds j h
        ∙ sym f
  ];
}

past_end : (xs : List WaitQueueEntry) (j : ℕ) → length xs ≤ j → get_elem? xs j ≡ none
past_end [] j h = refl
past_end (x ∷ xs) zero h = absurd (omega arith)
past_end (x ∷ xs) (suc j) h = past_end xs j (omega arith)

-- There is room at once if the place is where the loop starts.
shift-here :
    (rounds pos : ℕ) (entries : List (Option WaitQueueEntry))
    → shift (suc rounds) pos pos entries ≡ some entries
unfolding shift
shift-here rounds pos entries = let own : (pos == pos) ≡ true = ground arith in rw own refl

-- While at most half of the ring is used a new entry goes to the end, whatever its priority and
-- theirs.
pub push_sorted-fifo :
    (entry : WaitQueueEntry) (q : WaitQueueInner) (xs : List WaitQueueEntry)
    → Represents q xs
    → length xs ≤ 128
    → (q' : WaitQueueInner) × (push_sorted entry q ≡ some q') × Represents q' (xs ++ (entry ∷ []))
unfolding push_sorted
push_sorted-fifo entry q xs r h =
    let below : q.tail < max_queue_depth = omega (arith, r.end) in
    let place = insertion_point-tail q.size entry.priority q.entries q.tail q.tail below (λ j lt.
      ap (slot q.entries) (omega (arith, r.end, r.counted, r.start))
      ∙ r.holds (q.size + j) (omega (arith, r.counted))
      ∙ past_end xs (q.size + j) (omega (arith, r.counted))) in
    let room : leb max_queue_depth q.size ≡ false = ground (arith, r.counted) in
    let still = shift-here 255 q.tail q.entries in
    (
      at_tail entry q,
      rw (room, place, still) refl,
      at_tail-Represents entry q xs r (omega (arith, r.counted)),
    )

insertion_point-lt :
    (rounds priority : ℕ) (entries : List (Option WaitQueueEntry)) (tail current : ℕ)
    → tail < max_queue_depth
    → current < max_queue_depth
    → insertion_point rounds priority entries tail current < max_queue_depth
unfolding insertion_point
insertion_point-lt zero priority entries tail current ht hc = ht
insertion_point-lt (suc rounds) priority entries tail current ht hc =
    elim (Bool-cases (yields_to priority (slot entries current))) [
      | inl here ↦ rw here hc
      | inr not_here ↦ rw not_here (
          insertion_point-lt rounds priority entries tail ((current + 1) % max_queue_depth) ht
            (omega arith))
    ]

-- The loop steps back from `pos` and comes to the place within one turn of the ring.
shift_returns :
    (rounds pos insert_pos : ℕ) (entries : List (Option WaitQueueEntry))
    → pos < max_queue_depth
    → insert_pos < max_queue_depth
    → (pos + max_queue_depth - insert_pos) % max_queue_depth < rounds
    → (entries' : List (Option WaitQueueEntry)) × (shift rounds pos insert_pos entries
        ≡ some entries')
unfolding shift
shift_returns zero pos insert_pos entries hp hi h = elim h [ ]
shift_returns (suc rounds) pos insert_pos entries hp hi h = elim (Bool-cases (pos == insert_pos)) [
  | inl there ↦ (entries, rw there refl)
  | inr away ↦
      let prev = (pos + max_queue_depth - 1) % max_queue_depth in
      let differ : pos ≢ insert_pos = λ e. ground arith in
      let (entries', e) =
        shift_returns rounds prev insert_pos (set entries pos (slot entries prev)) (omega arith) hi
          (omega arith) in
      (entries', rw (away, e) refl)
]

-- `push_sorted` always ends, at any fill of the ring; if there is room there is one entry more.
pub push_sorted_returns :
    (entry : WaitQueueEntry) (q : WaitQueueInner) (xs : List WaitQueueEntry)
    → Represents q xs
    → (q' : WaitQueueInner) × (push_sorted entry q ≡ some q')
      × (length xs < max_queue_depth → q'.size ≡ q.size + 1)
unfolding push_sorted
push_sorted_returns entry q xs r = elim (Bool-cases (leb max_queue_depth q.size)) [
  | inl full ↦ (q, rw full refl, λ h. absurd (ground (arith, r.counted)))
  | inr room ↦
      let below : q.tail < max_queue_depth = omega (arith, r.end) in
      let place = insertion_point q.size entry.priority q.entries q.tail q.tail in
      let near = insertion_point-lt q.size entry.priority q.entries q.tail q.tail below below in
      let (entries', e) = shift_returns 256 q.tail place q.entries below near (omega arith) in
      (
        record {
          entries = set entries' place (some entry);
          head = q.head;
          tail = (q.tail + 1) % max_queue_depth;
          size = q.size + 1;
        },
        rw (room, e) refl,
        λ _. refl,
      )
]

-- A full queue drops the new entry.
pub push_sorted-full :
    (entry : WaitQueueEntry) (q : WaitQueueInner) (xs : List WaitQueueEntry)
    → Represents q xs
    → length xs ≡ max_queue_depth
    → push_sorted entry q ≡ some q
unfolding push_sorted
push_sorted-full entry q xs r h =
    let full : leb max_queue_depth q.size ≡ true = ground (arith, r.counted) in rw full refl

-- The entry that `pop_front` gives is the first, and the rest stay in order.
pub pop_front_lem :
    (q : WaitQueueInner) (xs : List WaitQueueEntry)
    → Represents q xs
    → ((xs ≡ []) × (pop_front q ≡ (none, q)))
      ⊎ ((x : WaitQueueEntry) × (rest : List WaitQueueEntry) × (q' : WaitQueueInner) × (xs
            ≡ x ∷ rest)
          × (pop_front q ≡ (some x, q'))
          × (peek_front q ≡ some x)
          × Represents q' rest)
unfolding pop_front peek_front
pop_front_lem q [] r = inl (refl, ground (arith, r.counted))
pop_front_lem q (x ∷ rest) r =
    let some_left : (q.size == 0) ≡ false = ground (arith, r.counted) in
    let first : slot q.entries q.head ≡ some x =
      ap (slot q.entries) (omega (arith, r.start)) ∙ r.holds 0 (omega arith) in
    inr (
      x,
      rest,
      record {
        entries = set q.entries q.head none;
        head = (q.head + 1) % max_queue_depth;
        tail = q.tail;
        size = q.size - 1;
      },
      refl,
      rw (some_left, first) refl,
      rw (some_left, first) refl,
      record {
        depth = length-set q.entries q.head none ∙ r.depth;
        counted = omega (arith, r.counted);
        fits = omega (arith, r.fits);
        start = omega arith;
        end = omega (arith, r.end, r.counted, r.start);
        holds = λ j h. elim (ℕ_discrete j 255) [
          | yes last ↦
              ap (slot (set q.entries q.head none)) (omega (arith, r.start))
              ∙ slot-set_self q.entries q.head none (omega (arith, r.depth, r.start))
              ∙ sym (past_end rest j (omega (arith, r.counted, r.fits)))
          | no ne ↦
              slot-set_ne q.entries q.head (((q.head + 1) % max_queue_depth + j) % max_queue_depth)
                none (λ e. omega (arith, r.start))
              ∙ ap (slot q.entries) (omega arith)
              ∙ r.holds (suc j) (omega arith)
        ];
      },
    )
