-- ===== src/Sched/RunQueue/Levels.antt =====
-- One priority's ring of src/sched/state.rs against the list of its entries, first to last.
use rustux.Base.{
  ℕ, zero, suc, ◌+◌, ◌-◌, ◌%◌, ◌≤◌, ◌<◌, ◌≡◌, ◌≢◌, ◌⊎◌, inl, inr, refl, ap, ◌∙◌, sym, Bool-cases,
  Option, none, some, List, [], ◌∷◌, ◌++◌, arith, length, set, get_elem?, ◌==◌, if◌then◌else◌,
  length-set, length-append, get_elem?-set_self, get_elem?-set_ne, get_elem?-some_of_lt,
  lt_of_get_elem?, ℕ_discrete, dec_lt,
}
use rustux.Sched.RunQueue.{
  RunQueueEntry, Level, max_per_priority, empty_level, pushed, popped, place, shift, copied,
  removed, remove_at,
}

-- Entry `j` of the list is at `head + j`, round the ring.
pub record Represents (l : Level) (xs : List RunQueueEntry) : Type 0 where
  pub depth : length l.entries ≡ max_per_priority
  pub counted : l.count ≡ length xs
  pub fits : l.count ≤ max_per_priority
  pub end : l.tail ≡ l.head + l.count
  pub holds :
      (j : ℕ)
      → j < length xs
      → get_elem? l.entries ((l.head + j) % max_per_priority) ≡ get_elem? xs j

pub empty-Represents : Represents empty_level []
empty-Represents = record {
  depth = refl;
  counted = refl;
  fits = omega arith;
  end = refl;
  holds = λ j h. elim h [ ];
}

-- The entry one past the end.
get_elem?-snoc :
    (xs : List RunQueueEntry) (x : RunQueueEntry) (j : ℕ)
    → ((j ≡ length xs) × (get_elem? (xs ++ (x ∷ [])) j ≡ some x))
      ⊎ ((j ≢ length xs) × (get_elem? (xs ++ (x ∷ [])) j ≡ get_elem? xs j))
get_elem?-snoc [] x zero = inl (refl, refl)
get_elem?-snoc [] x (suc j) = inr (λ e. cc, refl)
get_elem?-snoc (y ∷ xs) x zero = inr (λ e. cc, refl)
get_elem?-snoc (y ∷ xs) x (suc j) = elim (get_elem?-snoc xs x j) [
  | inl (e, f) ↦ inl (ap suc e, f)
  | inr (ne, f) ↦ inr (λ e. ne (omega arith), f)
]

pub pushed-Represents :
    (entry : RunQueueEntry) (l : Level) (xs : List RunQueueEntry)
    → Represents l xs
    → l.count < max_per_priority
    → Represents (pushed entry l) (xs ++ (entry ∷ []))
pushed-Represents entry l xs r room = record {
  depth = length-set l.entries _ entry ∙ r.depth;
  counted = omega (arith, r.counted, length-append xs (entry ∷ []));
  fits = omega arith;
  end = omega (arith, r.end);
  holds = λ j h. elim (get_elem?-snoc xs entry j) [
    | inl (last, f) ↦
        ap (get_elem? (set l.entries (l.tail % max_per_priority) entry))
          (omega (arith, r.end, r.counted))
        ∙ get_elem?-set_self l.entries (l.tail % max_per_priority) entry (omega (arith, r.depth))
        ∙ sym f
    | inr (ne, f) ↦
        let inside : j < length xs = omega (arith, length-append xs (entry ∷ [])) in
        get_elem?-set_ne l.entries (l.tail % max_per_priority) ((l.head + j) % max_per_priority)
          entry (λ e. omega (arith, r.end, r.counted))
        ∙ r.holds j inside
        ∙ sym f
  ];
}

pub popped-Represents :
    (l : Level) (x : RunQueueEntry) (xs : List RunQueueEntry)
    → Represents l (x ∷ xs)
    → (get_elem? l.entries (l.head % max_per_priority) ≡ some x) × Represents (popped l) xs
popped-Represents l x xs r = (
  ap (get_elem? l.entries) (omega arith) ∙ r.holds 0 (omega arith),
  record {
    depth = r.depth;
    counted = omega (arith, r.counted);
    fits = omega (arith, r.fits);
    end = omega (arith, r.end, r.counted);
    holds = λ j h. ap (get_elem? l.entries) (omega arith) ∙ r.holds (suc j) (omega arith);
  },
)

-- The list without the thread's first entry; `none` if it has none.
unfoldable pub without : ℕ → List RunQueueEntry → Option (List RunQueueEntry)
without thread_id [] = none
without thread_id (x ∷ xs) =
    if x.thread_id == thread_id
    then some xs
    else elim (without thread_id xs) [ none ↦ none | some ys ↦ some (x ∷ ys) ]

-- The list without its entry at `i`.
abbrev pub drop_at : ℕ → List RunQueueEntry → List RunQueueEntry
drop_at i [] = []
drop_at zero (x ∷ xs) = xs
drop_at (suc i) (x ∷ xs) = x ∷ drop_at i xs

pub length-drop_at :
    (i : ℕ) (xs : List RunQueueEntry) → i < length xs → length (drop_at i xs) + 1 ≡ length xs
length-drop_at i [] h = elim h [ ]
length-drop_at zero (x ∷ xs) h = omega arith
length-drop_at (suc i) (x ∷ xs) h = omega (arith, length-drop_at i xs (omega arith))

pub get_elem?-drop_at_before :
    (i : ℕ) (xs : List RunQueueEntry) (k : ℕ) → k < i → get_elem? (drop_at i xs) k ≡ get_elem? xs k
get_elem?-drop_at_before i [] k h = refl
get_elem?-drop_at_before zero (x ∷ xs) k h = elim h [ ]
get_elem?-drop_at_before (suc i) (x ∷ xs) zero h = refl
get_elem?-drop_at_before (suc i) (x ∷ xs) (suc k) h = get_elem?-drop_at_before i xs k (omega arith)

pub get_elem?-drop_at_after :
    (i : ℕ) (xs : List RunQueueEntry) (k : ℕ)
    → i ≤ k
    → get_elem? (drop_at i xs) k ≡ get_elem? xs (suc k)
get_elem?-drop_at_after i [] k h = refl
get_elem?-drop_at_after zero (x ∷ xs) k h = refl
get_elem?-drop_at_after (suc i) (x ∷ xs) zero h = absurd (omega arith)
get_elem?-drop_at_after (suc i) (x ∷ xs) (suc k) h = get_elem?-drop_at_after i xs k (omega arith)

copied-depth :
    (es : List RunQueueEntry) (dst : ℕ) (o : Option RunQueueEntry)
    → length (copied es dst o) ≡ length es
copied-depth es dst none = refl
copied-depth es dst (some e) = length-set es dst e

shift-depth :
    (rounds head j : ℕ) (es : List RunQueueEntry) → length (shift rounds head j es) ≡ length es
unfolding shift
shift-depth zero head j es = refl
shift-depth (suc rounds) head j es =
    shift-depth rounds head (j + 1) _
    ∙ copied-depth es ((head + j) % max_per_priority)
        (get_elem? es ((head + j + 1) % max_per_priority))

copied-other :
    (es : List RunQueueEntry) (dst i : ℕ) (o : Option RunQueueEntry)
    → dst ≢ i
    → get_elem? (copied es dst o) i ≡ get_elem? es i
copied-other es dst i none ne = refl
copied-other es dst i (some e) ne = get_elem?-set_ne es dst i e ne

copied-here :
    (es : List RunQueueEntry) (dst src : ℕ)
    → dst < length es
    → src < length es
    → get_elem? (copied es dst (get_elem? es src)) dst ≡ get_elem? es src
copied-here es dst src hd hs =
    let (e, f) = get_elem?-some_of_lt es src hs in rw f (get_elem?-set_self es dst e hd)

-- The loop does not touch the places before its start, nor the last one.
shift-outside :
    (rounds head j k : ℕ) (es : List RunQueueEntry)
    → j + rounds < max_per_priority
    → k < max_per_priority
    → (k < j) ⊎ (j + rounds ≤ k)
    → get_elem? (shift rounds head j es) ((head + k) % max_per_priority)
      ≡ get_elem? es ((head + k) % max_per_priority)
unfolding shift
shift-outside zero head j k es h hk out = refl
shift-outside (suc rounds) head j k es h hk out =
    shift-outside rounds head (j + 1) k _ (omega arith) hk
      (elim out [ inl lt ↦ inl (omega arith) | inr ge ↦ inr (omega arith) ])
    ∙ copied-other es ((head + j) % max_per_priority) ((head + k) % max_per_priority)
        (get_elem? es ((head + j + 1) % max_per_priority))
        (λ e. elim out [ inl lt ↦ omega arith | inr ge ↦ omega arith ])

-- Between, each place gets what the next one had.
shift-inside :
    (rounds head j k : ℕ) (es : List RunQueueEntry)
    → length es ≡ max_per_priority
    → j + rounds < max_per_priority
    → j ≤ k
    → k < j + rounds
    → get_elem? (shift rounds head j es) ((head + k) % max_per_priority)
      ≡ get_elem? es ((head + k + 1) % max_per_priority)
unfolding shift
shift-inside zero head j k es depth h ge lt = absurd (omega arith)
shift-inside (suc rounds) head j k es depth h ge lt =
    let dst = (head + j) % max_per_priority in
    let src = (head + j + 1) % max_per_priority in
    let es' = copied es dst (get_elem? es src) in
    elim (ℕ_discrete j k) [
      | yes first ↦
          shift-outside rounds head (j + 1) k es' (omega arith) (omega arith) (inl (omega arith))
          ∙ ap (get_elem? es') (omega arith)
          ∙ copied-here es dst src (omega (arith, depth)) (omega (arith, depth))
          ∙ ap (get_elem? es) (omega arith)
      | no later ↦
          shift-inside rounds head (j + 1) k es' (copied-depth es dst (get_elem? es src) ∙ depth)
            (omega arith) (omega arith) (omega arith)
          ∙ copied-other es dst ((head + k + 1) % max_per_priority) (get_elem? es src)
              (λ e. omega arith)
    ]

pub removed-Represents :
    (i : ℕ) (l : Level) (xs : List RunQueueEntry)
    → Represents l xs
    → i < length xs
    → Represents (removed i l) (drop_at i xs)
removed-Represents i l xs r h = record {
  depth = shift-depth (l.count - 1 - i) l.head i l.entries ∙ r.depth;
  counted = omega (arith, r.counted, length-drop_at i xs h);
  fits = omega (arith, r.fits);
  end = omega (arith, r.end, r.counted);
  holds = λ k hk.
      let inside : suc k < length xs = omega (arith, length-drop_at i xs h) in
      elim (dec_lt k i) [
        | yes before ↦
            shift-outside (l.count - 1 - i) l.head i k l.entries (omega (arith, r.counted, r.fits))
              (omega (arith, r.counted, r.fits)) (inl before)
            ∙ r.holds k (omega arith)
            ∙ sym (get_elem?-drop_at_before i xs k before)
        | no after ↦
            shift-inside (l.count - 1 - i) l.head i k l.entries r.depth
              (omega (arith, r.counted, r.fits)) (omega arith) (omega (arith, r.counted))
            ∙ ap (get_elem? l.entries) (omega arith)
            ∙ r.holds (suc k) inside
            ∙ sym (get_elem?-drop_at_after i xs k (omega arith))
      ];
}

-- What the search returns from place `i` on: the place of the thread's first entry there, if any.
pub place_lem :
    (rounds thread_id i : ℕ) (l : Level) (xs : List RunQueueEntry)
    → i + rounds ≡ length xs
    → Represents l xs
    → (ys : List RunQueueEntry) → ((j : ℕ) → get_elem? ys j ≡ get_elem? xs (i + j))
    → ((place rounds thread_id i l ≡ none) × (without thread_id ys ≡ none))
      ⊎ ((p : ℕ) × (place rounds thread_id i l ≡ some (i + p))
          × (i + p < length xs)
          × (without thread_id ys ≡ some (drop_at p ys)))
unfolding place without
place_lem zero thread_id i l xs h r [] at = inl (refl, refl)
place_lem zero thread_id i l xs h r (y ∷ ys) at =
    absurd (omega (arith, lt_of_get_elem? xs (i + 0) y (sym (at 0))))
place_lem (suc rounds) thread_id i l xs h r [] at =
    let (v, e) = get_elem?-some_of_lt xs (i + 0) (omega arith) in absurd (cc (at 0, e))
place_lem (suc rounds) thread_id i l xs h r (y ∷ ys) at =
    let found : get_elem? l.entries ((l.head + i) % max_per_priority) ≡ some y =
      r.holds i (omega arith) ∙ ap (get_elem? xs) (omega arith) ∙ sym (at 0) in
    elim (Bool-cases (y.thread_id == thread_id)) [
      | inl here ↦ inr (0, rw (found, here) (ap some (omega arith)), omega arith, rw here refl)
      | inr other ↦
          elim (place_lem rounds thread_id (i + 1) l xs (omega arith) r ys
            (λ j. at (suc j) ∙ ap (get_elem? xs) (omega arith))) [
              | inl (no_place, kept) ↦ inl (rw (found, other, no_place) refl, rw (other, kept) refl)
              | inr (p, at_p, lt, kept) ↦ inr (
                suc p,
                rw (found, other, at_p) (ap some (omega arith)),
                omega arith,
                rw (other, kept) refl,
              )
            ]
    ]

-- Either no entry of the level is the thread's, or its first one is taken out.
pub remove_at-place :
    (thread_id : ℕ) (l : Level) (xs : List RunQueueEntry)
    → Represents l xs
    → ((remove_at (place l.count thread_id 0 l) l ≡ none) × (without thread_id xs ≡ none))
      ⊎ ((l' : Level) × (ys : List RunQueueEntry) × (remove_at (place l.count thread_id 0 l) l
            ≡ some l')
          × (without thread_id xs ≡ some ys)
          × Represents l' ys
          × (length ys + 1 ≡ length xs))
remove_at-place thread_id l xs r =
    elim (place_lem l.count thread_id 0 l xs (omega (arith, r.counted)) r xs
      (λ j. ap (get_elem? xs) (omega arith))) [
        | inl (no_place, kept) ↦ inl (rw no_place refl, kept)
        | inr (p, at_p, lt, kept) ↦ inr (
          removed p l,
          drop_at p xs,
          rw at_p (ap (λ k. some (removed k l)) (omega arith)),
          kept,
          removed-Represents p l xs r (omega arith),
          length-drop_at p xs (omega arith),
        )
      ]
