-- ===== src/Mm/Pmm/Scan.antt =====
-- What the scans over the pages of an arena find and change: src/mm/pmm.rs.
use rustux.Base.{
  ℕ, zero, suc, ◌+◌, ◌≤◌, ◌<◌, ◌≡◌, ◌≢◌, ◌⊎◌, inl, inr, refl, ap, ◌∙◌, sym, true, false, Option,
  none, some, List, [], ◌∷◌, arith, length, set, get_elem?, length-set, get_elem?-set_self,
  get_elem?-set_ne, lt_of_get_elem?, Bool-cases, Option-cases, ℕ_discrete, dec_lt, ltb,
}
use rustux.Mm.Pmm.Pages.{
  Page, PageState, free, allocated, reserved, is_free, taken, take_first, free_in, free_at, change,
  blocked, find_run, mark_run,
}

pub is_free→state : (p : Page) → is_free p ≡ true → p.state ≡ free
unfolding is_free
is_free→state p h = by_state p.state h
  where
    by_state :
        (st : PageState)
        → elim st [ free ↦ true | allocated ↦ false | reserved ↦ false ] ≡ true
        → st ≡ free
    by_state free e = refl
    by_state allocated e = cc
    by_state reserved e = cc

-- The first free page is taken, or no page is free.
pub take_first_cases :
    (ps : List Page)
    → ((i : ℕ) × (p : Page) × (get_elem? ps i ≡ some p)
        × (is_free p ≡ true)
        × ((j : ℕ) → j < i → free_at (get_elem? ps j) ≡ false)
        × (take_first ps ≡ some (p.paddr, set ps i (taken p)))
        × (free_in (set ps i (taken p)) + 1 ≡ free_in ps))
      ⊎ (((j : ℕ) → free_at (get_elem? ps j) ≡ false) × (take_first ps ≡ none) × (free_in ps ≡ 0))
unfolding take_first free_in is_free
take_first_cases [] = inr (λ j. refl, refl, refl)
take_first_cases (p ∷ ps) = elim (Bool-cases (is_free p)) [
  | inl can ↦ inl (
    0,
    p,
    refl,
    can,
    λ j h. absurd (omega arith),
    rw (can, take_first) refl,
    ground (arith, is_free p),
  )
  | inr used ↦ elim (take_first_cases ps) [
    | inl (i, q, at, can, before, e, count) ↦ inl (
      suc i,
      q,
      at,
      can,
      first i used before,
      rw (used, e, take_first) refl,
      rw used (omega (arith, count)),
    )
    | inr (all, e, zero_free) ↦
        inr (everywhere used all, rw (used, e, take_first) refl, rw used (omega (arith, zero_free)))
  ]
]
  where
    first :
        (i : ℕ)
        → is_free p ≡ false
        → ((j : ℕ) → j < i → free_at (get_elem? ps j) ≡ false)
        → (j : ℕ) → j < suc i
        → free_at (get_elem? (p ∷ ps) j) ≡ false
    first i used before zero h = used
    first i used before (suc j) h = before j (omega arith)

    everywhere :
        is_free p ≡ false
        → ((j : ℕ) → free_at (get_elem? ps j) ≡ false)
        → (j : ℕ) → free_at (get_elem? (p ∷ ps) j) ≡ false
    everywhere used all zero = used
    everywhere used all (suc j) = all j

-- Of `n` indexes from `i` on, the first whose page is in use, or none.
pub blocked_cases :
    (n i : ℕ) (ps : List Page)
    → ((k : ℕ) × (i ≤ k)
        × (k < i + n)
        × (free_at (get_elem? ps k) ≡ false)
        × (blocked n i ps ≡ some k))
      ⊎ (((j : ℕ) → i ≤ j → j < i + n → free_at (get_elem? ps j) ≡ true) × (blocked n i ps ≡ none))
unfolding blocked
blocked_cases zero i ps = inr (λ j lo hi. absurd (omega arith), refl)
blocked_cases (suc n) i ps = elim (Bool-cases (free_at (get_elem? ps i))) [
  | inr used ↦ inl (i, omega arith, omega arith, used, rw (used, blocked) refl)
  | inl can ↦ elim (blocked_cases n (i + 1) ps) [
    | inl (k, lo, hi, used, e) ↦ inl (k, omega arith, omega arith, used, rw (can, e, blocked) refl)
    | inr (all, e) ↦ inr (
      λ j lo hi. elim (ℕ_discrete i j) [
        | yes here ↦ rw (← here) can
        | no later ↦ all j (omega arith) (omega arith)
      ],
      rw (can, e, blocked) refl,
    )
  ]
]

-- The pages from `start` on for `count` pages are there and free.
abbrev pub FreeRun : ℕ → ℕ → List Page → Type 0
FreeRun start count ps =
    (start + count ≤ length ps)
    × ((j : ℕ) → start ≤ j → j < start + count → free_at (get_elem? ps j) ≡ true)

-- From `start` on: the lowest run of free pages is found, or there is none.
abbrev pub FindsRun : ℕ → ℕ → List Page → Option (Option ℕ) → Type 0
FindsRun start count ps r =
    ((k : ℕ) × (start ≤ k)
      × FreeRun k count ps
      × ((j : ℕ) → start ≤ j → j < k → ¬ (FreeRun j count ps))
      × (r ≡ some (some k)))
    ⊎ (((j : ℕ) → start ≤ j → ¬ (FreeRun j count ps)) × (r ≡ some none))

-- No run starts between `start` and a page that is in use.
not_across :
    (start count k : ℕ) (ps : List Page)
    → start ≤ k
    → k < start + count
    → free_at (get_elem? ps k) ≡ false
    → (j : ℕ) → start ≤ j
    → j < k + 1
    → ¬ (FreeRun j count ps)
not_across start count k ps lo hi used j a b (fits, can) =
    let is_free_there = can k (omega arith) (omega arith) in cc

find_run-FindsRun :
    (rounds start count : ℕ) (ps : List Page)
    → 0 < count
    → 0 < rounds
    → length ps < rounds + start
    → FindsRun start count ps (find_run rounds start count ps)
unfolding find_run
find_run-FindsRun zero start count ps h0 hr h = elim hr [ ]
find_run-FindsRun (suc rounds) start count ps h0 hr h =
    elim (Bool-cases (ltb (length ps) (start + count))) [
      | inl short ↦ inr (λ j a (fits, _). ground arith, rw short refl)
      | inr fits ↦ elim (blocked_cases count start ps) [
        | inr (all, e) ↦ inl (
          start,
          omega arith,
          (ground arith, all),
          λ j a b. absurd (omega arith),
          rw (fits, e) refl,
        )
        | inl (k, lo, hi, used, e) ↦
            let none_before = not_across start count k ps lo hi used in
            rw (fits, e)
              (elim (find_run-FindsRun rounds (k + 1) count ps h0 (ground arith) (omega arith)) [
                | inl (m, after, run, before, f) ↦ inl (
                  m,
                  omega arith,
                  run,
                  λ j a b. elim (dec_lt j (k + 1)) [
                    | yes c ↦ none_before j a c
                    | no c ↦ before j (omega arith) b
                  ],
                  f,
                )
                | inr (never, f) ↦ inr (
                  λ j a. elim (dec_lt j (k + 1)) [
                    | yes c ↦ none_before j a c
                    | no c ↦ never j (omega arith)
                  ],
                  f,
                )
              ])
      ]
    ]

-- The search in an arena always ends: it finds the lowest run of `count` free pages, or finds
-- nothing, exactly if there is no such run.
pub find_run_lem :
    (count : ℕ) (ps : List Page)
    → 0 < count
    → ((k : ℕ) × FreeRun k count ps
        × ((j : ℕ) → j < k → ¬ (FreeRun j count ps))
        × (find_run (length ps + 1) 0 count ps ≡ some (some k)))
      ⊎ (((j : ℕ) → ¬ (FreeRun j count ps)) × (find_run (length ps + 1) 0 count ps ≡ some none))
find_run_lem count ps h =
    elim (find_run-FindsRun (length ps + 1) 0 count ps h (omega arith) (omega arith)) [
      | inl (k, _, run, before, e) ↦ inl (k, run, λ j. before j (omega arith), e)
      | inr (never, e) ↦ inr (λ j. never j (omega arith), e)
    ]

-- What `change` does at its index and elsewhere.
pub change_self :
    (f : Page → Page) (i : ℕ) (ps : List Page) (p : Page)
    → get_elem? ps i ≡ some p
    → get_elem? (change f i ps) i ≡ some (f p)
unfolding change
change_self f i ps p e = rw (e, change) (get_elem?-set_self ps i (f p) (lt_of_get_elem? ps i p e))

pub change_ne :
    (f : Page → Page) (i j : ℕ) (ps : List Page)
    → i ≢ j
    → get_elem? (change f i ps) j ≡ get_elem? ps j
unfolding change
change_ne f i j ps ne = elim (Option-cases (get_elem? ps i)) [
  | inl e ↦ rw (e, change) refl
  | inr (p, e) ↦ rw (e, change) (get_elem?-set_ne ps i j (f p) ne)
]

pub length-change : (f : Page → Page) (i : ℕ) (ps : List Page) → length (change f i ps) ≡ length ps
unfolding change
length-change f i ps = elim (Option-cases (get_elem? ps i)) [
  | inl e ↦ rw (e, change) refl
  | inr (p, e) ↦ rw (e, change) (length-set ps i (f p))
]

pub length-mark_run : (n start : ℕ) (ps : List Page) → length (mark_run n start ps) ≡ length ps
unfolding mark_run
length-mark_run zero start ps = refl
length-mark_run (suc n) start ps =
    length-mark_run n (start + 1) (change taken start ps) ∙ length-change taken start ps

-- `mark_run` takes the pages of the run and leaves the others as they are.
pub mark_run_outside :
    (n start : ℕ) (ps : List Page) (j : ℕ)
    → (j < start) ⊎ (start + n ≤ j)
    → get_elem? (mark_run n start ps) j ≡ get_elem? ps j
unfolding mark_run
mark_run_outside zero start ps j out = refl
mark_run_outside (suc n) start ps j out =
    mark_run_outside n (start + 1) (change taken start ps) j (ground arith)
    ∙ change_ne taken start j ps (λ e. ground arith)

pub mark_run_inside :
    (n start : ℕ) (ps : List Page) (j : ℕ) (p : Page)
    → start ≤ j
    → j < start + n
    → get_elem? ps j ≡ some p
    → get_elem? (mark_run n start ps) j ≡ some (taken p)
unfolding mark_run
mark_run_inside zero start ps j p lo hi at = absurd (omega arith)
mark_run_inside (suc n) start ps j p lo hi at = elim (ℕ_discrete start j) [
  | yes here ↦
      mark_run_outside n (start + 1) (change taken start ps) j (inl (omega arith))
      ∙ ap (get_elem? (change taken start ps)) (sym here)
      ∙ change_self taken start ps p (ap (get_elem? ps) here ∙ at)
  | no later ↦
      mark_run_inside n (start + 1) (change taken start ps) j p (omega arith) (omega arith)
        (change_ne taken start j ps later ∙ at)
]
