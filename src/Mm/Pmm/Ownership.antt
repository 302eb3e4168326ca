-- ===== src/Mm/Pmm/Ownership.antt =====
-- Which addresses the callers of `pmm_alloc_page` and `pmm_free_page` of src/mm/pmm.rs hold.
use rustux.Base.{
  ℕ, ◌+◌, ◌-◌, ◌/◌, ◌%◌, ◌≤◌, ◌<◌, ◌≡◌, ◌≢◌, ◌⊎◌, inl, inr, refl, ap, ◌∙◌, sym, subst, true, false,
  Option, none, some, List, [], ◌∷◌, arith, length, set, get_elem?, Bool-cases, Option-cases,
  Result, ok, err, get_elem?-set_self, get_elem?-set_ne, lt_of_get_elem?, ℕ_discrete, ◌==◌,
  if◌then◌else◌, leb, get_elem?-some_of_lt, set-get_elem?,
}
use rustux.Mm.Address.{page_size}
use rustux.Mm.Pmm.Pages.{Page, Arena, Status, is_free, taken, released, change, free_page, offset}
use rustux.Mm.Pmm.{pmm_alloc_page, pmm_free_page}
use rustux.Mm.Pmm.Validity.{IsValid, IsPlaced, in_one_arena}
use rustux.Mm.Pmm.Alloc.{with_taken, pmm_alloc_page_lem, pmm_alloc_page-IsValid}
use rustux.Mm.Pmm.Free.{pmm_free_page-IsValid, pmm_free_page_cases, in_arena→bounds}

-- A page with the address is there and not free.
abbrev pub InUse : List Arena → ℕ → Type 0
InUse arenas addr =
    (k : ℕ) × (a : Arena) × (i : ℕ) × (p : Page) × (get_elem? arenas k ≡ some a)
    × (get_elem? a.pages i ≡ some p)
    × (p.paddr ≡ addr)
    × (is_free p ≡ false)

some-injective {ℓ} : {A : Type ℓ} {x y : A} → some x ≡ some y → x ≡ y
some-injective h = cc

-- On valid arenas an address names one page.
pub one_page :
    (arenas : List Arena) (k l : ℕ) (a b : Arena) (i j : ℕ) (p q : Page)
    → IsValid arenas
    → get_elem? arenas k ≡ some a
    → get_elem? arenas l ≡ some b
    → get_elem? a.pages i ≡ some p
    → get_elem? b.pages j ≡ some q
    → p.paddr ≡ q.paddr
    → (k ≡ l) × (i ≡ j) × (p ≡ q)
one_page arenas k l a b i j p q v hk hl hi hj e =
    let pa = v.placed k a hk in
    let pb = v.placed l b hl in
    let atp = pa.place i p hi in
    let atq = pb.place j q hj in
    let ip = lt_of_get_elem? a.pages i p hi in
    let jq = lt_of_get_elem? b.pages j q hj in
    let at_k =
      in_one_arena arenas k l a b p.paddr v hk hl (omega arith, omega (arith, pa.fits))
        (omega arith, omega (arith, pb.fits)) in
    let same : a ≡ b = some-injective (sym hk ∙ ap (get_elem? arenas) at_k ∙ hl) in
    let base : a.info.base ≡ b.info.base = ap (λ x. x.info.base) same in
    let at_i : i ≡ j = omega arith in
    (
      at_k,
      at_i,
      some-injective
          (sym hi ∙ ap (get_elem? a.pages) at_i ∙ ap (λ x. get_elem? x.pages j) same ∙ hj),
    )

-- After a write of one page the others that were in use are, and that one is if it is not free.
InUse-set :
    (arenas : List Arena) (k : ℕ) (a : Arena) (i : ℕ) (p p' : Page) (q : ℕ)
    → get_elem? arenas k ≡ some a
    → get_elem? a.pages i ≡ some p
    → (q ≡ p.paddr → (p'.paddr ≡ q) × (is_free p' ≡ false))
    → InUse arenas q
    → InUse (set arenas k (record a { pages = set a.pages i p' })) q
InUse-set arenas k a i p p' q hk hi keeps (l, b, j, r, hl, hj, there, used) =
    elim (ℕ_discrete k l) [
      | no ne ↦ (l, b, j, r, get_elem?-set_ne arenas k l _ ne ∙ hl, hj, there, used)
      | yes at_k ↦
          let near = lt_of_get_elem? arenas k a hk in
          let same : b ≡ a = some-injective (sym hl ∙ ap (get_elem? arenas) (sym at_k) ∙ hk) in
          let here : get_elem? a.pages j ≡ some r = sym (ap (λ x. get_elem? x.pages j) same) ∙ hj in
          elim (ℕ_discrete i j) [
            | no ne ↦ (
              k,
              record a { pages = set a.pages i p' },
              j,
              r,
              get_elem?-set_self arenas k _ near,
              get_elem?-set_ne a.pages i j p' ne ∙ here,
              there,
              used,
            )
            | yes at_i ↦
                let page : r ≡ p =
                  some-injective (sym here ∙ ap (get_elem? a.pages) (sym at_i) ∙ hi) in
                let (address, taken_now) = keeps (sym there ∙ ap (λ x. x.paddr) page) in
                (
                  k,
                  record a { pages = set a.pages i p' },
                  i,
                  p',
                  get_elem?-set_self arenas k _ near,
                  get_elem?-set_self a.pages i p' (lt_of_get_elem? a.pages i p hi),
                  address,
                  taken_now,
                )
          ]
    ]

taken-is_free : (p : Page) → is_free (taken p) ≡ false
unfolding is_free
taken-is_free p = refl

-- A page that is allocated was not in use and now is; what was in use still is.
pub alloc-InUse :
    (flags : ℕ) (arenas arenas' : List Arena) (paddr : ℕ)
    → IsValid arenas
    → pmm_alloc_page flags arenas ≡ some (ok paddr, arenas')
    → (¬ (InUse arenas paddr)) × InUse arenas' paddr × ((q : ℕ) → InUse arenas q → InUse arenas' q)
alloc-InUse flags arenas arenas' paddr v e = elim (pmm_alloc_page_lem flags arenas) [
  | inr (_, f) ↦ cc
  | inl (k, a, i, p, t, f, _) ↦
      let same : arenas' ≡ with_taken arenas k a i p = cc in
      let address : paddr ≡ p.paddr = cc in
      let near = lt_of_get_elem? arenas k a t.arena in
      let inside = lt_of_get_elem? a.pages i p t.page in
      rw (address, same)
        (
          λ (l, b, j, q, hl, hj, there, used).
              let (_, _, pq) = one_page arenas k l a b i j p q v t.arena hl t.page hj (sym there) in
              absurd (differ (sym t.idle ∙ ap is_free pq ∙ used)),
          (
            k,
            record a { pages = set a.pages i (taken p) },
            i,
            taken p,
            get_elem?-set_self arenas k _ near,
            get_elem?-set_self a.pages i (taken p) inside,
            refl,
            taken-is_free p,
          ),
          λ q.
              InUse-set arenas k a i p (taken p) q t.arena t.page (λ at. (sym at, taken-is_free p)),
        )
]
  where
    differ : true ≢ false
    differ h = cc

-- Which page a `free_page` that succeeds frees.
free_page_cases :
    (paddr : ℕ) (a : Arena)
    → IsPlaced a
    → (a.info.base ≤ paddr) × (paddr < a.info.base + a.info.size)
    → ((free_page paddr a).1 ≡ a)
      ⊎ ((i : ℕ) × (p : Page) × (get_elem? a.pages i ≡ some p)
          × (p.paddr ≡ paddr)
          × ((free_page paddr a).1 ≡ record a { pages = set a.pages i (released p) }))
unfolding free_page change
free_page_cases paddr a v (lo, hi) = elim (Bool-cases (offset a paddr % page_size == 0)) [
  | inr odd ↦ inl (rw (odd, free_page) refl)
  | inl even ↦ elim (Bool-cases (leb (length a.pages) (offset a paddr / page_size))) [
    | inl far ↦ inl (rw (even, far, free_page) refl)
    | inr near ↦
        let (p, at) = get_elem?-some_of_lt a.pages (offset a paddr / page_size) (ground arith) in
        let address = v.place (offset a paddr / page_size) p at in
        let whole : offset a paddr ≡ paddr - a.info.base = omega (arith, v.in_memory) in
        inr (
          offset a paddr / page_size,
          p,
          at,
          ground (arith, v.in_memory),
          rw (even, near, free_page) (rw (at, change) refl),
        )
  ]
]

-- A page stays in use while other addresses are freed.
pub free-InUse :
    (paddr q : ℕ) (arenas : List Arena)
    → IsValid arenas
    → q ≢ paddr
    → InUse arenas q
    → InUse (pmm_free_page paddr arenas).1 q
free-InUse paddr q arenas v ne used = elim (pmm_free_page_cases paddr arenas) [
  | inr (_, e) ↦ rw e used
  | inl (k, a, at, its, e) ↦
      let pl = v.placed k a at in
      rw e (elim (free_page_cases paddr a pl (in_arena→bounds a paddr pl.in_memory its)) [
        | inl same ↦ rw same (rw (set-get_elem? arenas k a at) used)
        | inr (i, p, here, address, f) ↦ rw f (
            InUse-set arenas k a i p (released p) q at here (λ own. absurd (ne (own ∙ address)))
              used)
      ])
]

-- The calls that the kernel makes, the addresses that it holds, and how a sequence of calls changes
-- them; `none` where a call does not return.
pub data Call : Type 0 where
  allocs : ℕ → Call
  frees : ℕ → Call

abbrev pub without : ℕ → List ℕ → List ℕ
without paddr [] = []
without paddr (q ∷ qs) = if q == paddr then without paddr qs else q ∷ without paddr qs

abbrev pub with_result : Result Status ℕ → List ℕ → List ℕ
with_result (ok paddr) qs = paddr ∷ qs
with_result (err _) qs = qs

unfoldable pub run : List Call → List Arena → List ℕ → Option (List ℕ × List Arena)
run [] arenas live = some (live, arenas)
run (allocs flags ∷ cs) arenas live = elim (pmm_alloc_page flags arenas) [
  | none ↦ none
  | some (r, arenas') ↦ run cs arenas' (with_result r live)
]
run (frees paddr ∷ cs) arenas live = run cs (pmm_free_page paddr arenas).1 (without paddr live)

abbrev pub Absent : ℕ → List ℕ → Type 0
Absent q [] = Unit {0}
Absent q (r ∷ rs) = (q ≢ r) × Absent q rs

abbrev pub Distinct : List ℕ → Type 0
Distinct [] = Unit {0}
Distinct (q ∷ qs) = Absent q qs × Distinct qs

abbrev pub AllInUse : List Arena → List ℕ → Type 0
AllInUse arenas [] = Unit {0}
AllInUse arenas (q ∷ qs) = InUse arenas q × AllInUse arenas qs

AllInUse-map :
    (arenas arenas' : List Arena) (qs : List ℕ)
    → ((q : ℕ) → InUse arenas q → InUse arenas' q)
    → AllInUse arenas qs
    → AllInUse arenas' qs
AllInUse-map arenas arenas' [] f h = tt
AllInUse-map arenas arenas' (q ∷ qs) f (u, us) = (f q u, AllInUse-map arenas arenas' qs f us)

-- What is not in use differs from everything that is.
Absent-AllInUse :
    (arenas : List Arena) (q : ℕ) (qs : List ℕ)
    → ¬ (InUse arenas q)
    → AllInUse arenas qs
    → Absent q qs
Absent-AllInUse arenas q [] fresh us = tt
Absent-AllInUse arenas q (r ∷ rs) fresh (u, us) =
    (λ e. fresh (subst (InUse arenas) (sym e) u), Absent-AllInUse arenas q rs fresh us)

Absent-without : (paddr q : ℕ) (qs : List ℕ) → Absent q qs → Absent q (without paddr qs)
Absent-without paddr q [] h = tt
Absent-without paddr q (r ∷ rs) (ne, h) = elim (Bool-cases (r == paddr)) [
  | inl gone ↦ rw gone (Absent-without paddr q rs h)
  | inr stays ↦ rw stays (ne, Absent-without paddr q rs h)
]

Distinct-without : (paddr : ℕ) (qs : List ℕ) → Distinct qs → Distinct (without paddr qs)
Distinct-without paddr [] h = tt
Distinct-without paddr (r ∷ rs) (apart, h) = elim (Bool-cases (r == paddr)) [
  | inl gone ↦ rw gone (Distinct-without paddr rs h)
  | inr stays ↦ rw stays (Absent-without paddr r rs apart, Distinct-without paddr rs h)
]

AllInUse-without :
    (paddr : ℕ) (arenas : List Arena) (qs : List ℕ)
    → IsValid arenas
    → AllInUse arenas qs
    → AllInUse (pmm_free_page paddr arenas).1 (without paddr qs)
AllInUse-without paddr arenas [] v us = tt
AllInUse-without paddr arenas (r ∷ rs) v (u, us) = elim (Bool-cases (r == paddr)) [
  | inl gone ↦ rw gone (AllInUse-without paddr arenas rs v us)
  | inr stays ↦
      rw stays
        (free-InUse paddr r arenas v (λ e. ground arith) u, AllInUse-without paddr arenas rs v us)
]

-- What the kernel holds is allocated, each address once.
pub record Owned (arenas : List Arena) (live : List ℕ) : Type 0 where
  pub valid : IsValid arenas
  pub distinct : Distinct live
  pub in_use : AllInUse arenas live

alloc-Owned :
    (flags : ℕ) (arenas arenas' : List Arena) (live : List ℕ) (r : Result Status ℕ)
    → Owned arenas live
    → pmm_alloc_page flags arenas ≡ some (r, arenas')
    → Owned arenas' (with_result r live)
alloc-Owned flags arenas arenas' live (err st) o e = elim (pmm_alloc_page_lem flags arenas) [
  | inl (k, a, i, p, t, f, _) ↦ cc
  | inr (_, f) ↦ cc
]
alloc-Owned flags arenas arenas' live (ok paddr) o e =
    let (fresh, new, kept) = alloc-InUse flags arenas arenas' paddr o.valid e in
    record {
      valid = pmm_alloc_page-IsValid flags arenas arenas' (ok paddr) o.valid e;
      distinct = (Absent-AllInUse arenas paddr live fresh o.in_use, o.distinct);
      in_use = (new, AllInUse-map arenas arenas' live kept o.in_use);
    }

-- Over any sequence of allocations and frees the addresses that have been given out and not freed
-- since are distinct and allocated: no page is ever given to two owners.
pub run-Owned :
    (cs : List Call) (arenas : List Arena) (live : List ℕ) {live' : List ℕ} {arenas' : List Arena}
    → Owned arenas live
    → run cs arenas live ≡ some (live', arenas')
    → Owned arenas' live'
unfolding run
run-Owned [] arenas live {live'} {arenas'} o e =
    let same : live ≡ live' = cc in let same' : arenas ≡ arenas' = cc in rw (← same, ← same') o
run-Owned (frees paddr ∷ cs) arenas live o e =
    run-Owned cs (pmm_free_page paddr arenas).1 (without paddr live)
      (record {
        valid = pmm_free_page-IsValid paddr arenas o.valid;
        distinct = Distinct-without paddr live o.distinct;
        in_use = AllInUse-without paddr arenas live o.valid o.in_use;
      })
      e
run-Owned (allocs flags ∷ cs) arenas live {live'} {arenas'} o e =
    elim (Option-cases (pmm_alloc_page flags arenas)) [
      | inl f ↦ absurd (stops f e)
      | inr ((r, next), f) ↦
          run-Owned cs next (with_result r live) (alloc-Owned flags arenas next live r o f)
            (goes f e)
    ]
  where
    stops :
        pmm_alloc_page flags arenas ≡ none
        → run (allocs flags ∷ cs) arenas live ≢ some (live', arenas')
    stops f h = ground (arith, f, h)

    goes :
        {r : Result Status ℕ} {next : List Arena}
        → pmm_alloc_page flags arenas ≡ some (r, next)
        → run (allocs flags ∷ cs) arenas live ≡ some (live', arenas')
        → run cs next (with_result r live) ≡ some (live', arenas')
    goes f h = sym (rw (f, run) refl) ∙ h
