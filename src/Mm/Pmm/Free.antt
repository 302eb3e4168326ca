-- ===== src/Mm/Pmm/Free.antt =====
-- `pmm_free_page`, `pmm_free_contiguous` and `pmm_reserve_pages` of src/mm/pmm.rs.
use rustux.Base.{
  ℕ, zero, suc, ◌+◌, ◌*◌, ◌/◌, ◌%◌, ◌^◌, ◌≤◌, ◌<◌, ◌≡◌, ◌≢◌, ◌⊎◌, inl, inr, refl, ap, ◌∙◌, sym,
  true, false, some, List, [], ◌∷◌, arith, length, set, get_elem?, Bool-cases, ok, set-set,
  set-get_elem?, get_elem?-set_self, lt_of_get_elem?, leb, ◌==◌,
}
use rustux.Mm.Address.{page_size}
use rustux.Mm.Pmm.Pages.{
  Page, Arena, rx_ok, err_invalid_args, free, is_free, taken, released, held_back, change, offset,
  free_page, address_in_arena, free_run, reserve_run, total_count,
}
use rustux.Mm.Pmm.{
  pmm_alloc_page, pmm_free_page, range_in_arena, at_range, pmm_free_contiguous, pmm_reserve_pages,
}
use rustux.Mm.Pmm.Scan.{is_free→state}
use rustux.Mm.Pmm.Validity.{IsValid, IsPlaced, IsPlaced-change, IsValid-set, in_one_arena}
use rustux.Mm.Pmm.Alloc.{with_taken, pmm_alloc_page_lem, pmm_alloc_page-IsValid}

-- The arena that has the address frees the page, or none has it.
pub pmm_free_page_cases :
    (paddr : ℕ) (arenas : List Arena)
    → ((k : ℕ) × (a : Arena) × (get_elem? arenas k ≡ some a)
        × (address_in_arena a paddr ≡ true)
        × (pmm_free_page paddr arenas
            ≡ ((free_page paddr a).0, set arenas k (free_page paddr a).1)))
      ⊎ (((k : ℕ) (a : Arena) → get_elem? arenas k ≡ some a → address_in_arena a paddr ≡ false)
          × (pmm_free_page paddr arenas ≡ (err_invalid_args, arenas)))
unfolding pmm_free_page
pmm_free_page_cases paddr [] = inr (λ k a e. cc, refl)
pmm_free_page_cases paddr (a ∷ arenas) = elim (Bool-cases (address_in_arena a paddr)) [
  | inl mine ↦ inl (0, a, refl, mine, rw (mine, pmm_free_page) refl)
  | inr other ↦ elim (pmm_free_page_cases paddr arenas) [
    | inl (k, b, at, its, e) ↦ inl (suc k, b, at, its, rw (other, pmm_free_page) (rw e refl))
    | inr (nowhere, e) ↦ inr (everywhere other nowhere, rw (other, pmm_free_page) (rw e refl))
  ]
]
  where
    everywhere :
        address_in_arena a paddr ≡ false
        → ((k : ℕ) (b : Arena) → get_elem? arenas k ≡ some b → address_in_arena b paddr ≡ false)
        → (k : ℕ) (b : Arena) → get_elem? (a ∷ arenas) k ≡ some b
        → address_in_arena b paddr ≡ false
    everywhere other nowhere zero b at = let same : a ≡ b = cc in rw (← same) other
    everywhere other nowhere (suc k) b at = nowhere k b at

pub in_arena→bounds :
    (a : Arena) (addr : ℕ)
    → a.info.base + a.info.size < 2 ^ 64
    → address_in_arena a addr ≡ true
    → (a.info.base ≤ addr) × (addr < a.info.base + a.info.size)
unfolding address_in_arena
in_arena→bounds a addr h e = ground arith

bounds→in_arena :
    (a : Arena) (addr : ℕ)
    → a.info.base + a.info.size < 2 ^ 64
    → a.info.base ≤ addr
    → addr < a.info.base + a.info.size
    → address_in_arena a addr ≡ true
unfolding address_in_arena
bounds→in_arena a addr h lo hi = ground arith

-- Freeing the page at an index of an arena in place.
free_page_at :
    (a : Arena) (i : ℕ)
    → a.info.base + i * page_size < 2 ^ 64
    → a.info.base < 2 ^ 64
    → i < length a.pages
    → free_page (a.info.base + i * page_size) a
      ≡ (rx_ok, record a { pages = change released i a.pages })
unfolding free_page
free_page_at a i small below inside =
    let whole : offset a (a.info.base + i * page_size) ≡ i * page_size = omega arith in
    let even : (i * page_size % page_size == 0) ≡ true = ground arith in
    let index : i * page_size / page_size ≡ i = omega arith in
    let there : leb (length a.pages) i ≡ false = ground arith in rw (whole, even, index, there) refl

-- On valid arenas, freeing the address of a page finds that page.
pub pmm_free_page-at :
    (arenas : List Arena) (k : ℕ) (a : Arena) (i : ℕ) (p : Page)
    → IsValid arenas
    → get_elem? arenas k ≡ some a
    → get_elem? a.pages i ≡ some p
    → pmm_free_page p.paddr arenas
      ≡ (rx_ok, set arenas k (record a { pages = set a.pages i (released p) }))
unfolding change
pmm_free_page-at arenas k a i p v at here =
    let pl = v.placed k a at in
    let address = pl.place i p here in
    let inside = lt_of_get_elem? a.pages i p here in
    let lo : a.info.base ≤ p.paddr = omega arith in
    let hi : p.paddr < a.info.base + a.info.size = omega (arith, pl.fits) in
    elim (pmm_free_page_cases p.paddr arenas) [
      | inr (nowhere, _) ↦
          let out = nowhere k a at in let has = bounds→in_arena a p.paddr pl.in_memory lo hi in cc
      | inl (l, b, atb, its, e) ↦
          let same_index =
            in_one_arena arenas l k b a p.paddr v atb at
              (in_arena→bounds b p.paddr (v.placed l b atb).in_memory its) (lo, hi) in
          let same : b ≡ a = some-injective (sym atb ∙ ap (get_elem? arenas) same_index ∙ at) in
          let freed =
            free_page_at a i (omega (arith, pl.fits, pl.in_memory)) (omega (arith, pl.in_memory))
              inside in
          let freed' =
            ap (λ x. free_page x a) address
            ∙ freed
            ∙ ap (λ ps. (rx_ok, record a { pages = ps })) (change_at here) in
          e ∙ rw (same_index, same) (ap (λ x. (x.0, set arenas k x.1)) freed')
    ]
  where
    some-injective : {x y : Arena} → some x ≡ some y → x ≡ y
    some-injective h = cc

    change_at :
        get_elem? a.pages i ≡ some p → change released i a.pages ≡ set a.pages i (released p)
    change_at h = rw (h, change) refl

released-taken : (p : Page) → is_free p ≡ true → p.ref_count ≡ 0 → released (taken p) ≡ p
released-taken p idle zero_refs =
    sym (ap (λ n. record p { state = free; ref_count = n }) zero_refs)
    ∙ sym (ap (λ st. record p { state = st }) (is_free→state p idle))

-- Freeing the page that an allocation returned gives back the arenas as they were.
pub free-alloc :
    (flags : ℕ) (arenas arenas' : List Arena) (paddr : ℕ)
    → IsValid arenas
    → pmm_alloc_page flags arenas ≡ some (ok paddr, arenas')
    → pmm_free_page paddr arenas' ≡ (rx_ok, arenas)
free-alloc flags arenas arenas' paddr v e = elim (pmm_alloc_page_lem flags arenas) [
  | inr (_, f) ↦ cc
  | inl (k, a, i, p, t, f, _) ↦
      let same : arenas' ≡ with_taken arenas k a i p = cc in
      let address : paddr ≡ p.paddr = cc in
      let inside = lt_of_get_elem? a.pages i p t.page in
      let near = lt_of_get_elem? arenas k a t.arena in
      let b : Arena = record a { pages = set a.pages i (taken p) } in
      let idle = (v.placed k a t.arena).unused i p t.page (is_free→state p t.idle) in
      let valid' =
        pmm_alloc_page-IsValid flags arenas (with_taken arenas k a i p) (ok p.paddr) v f in
      let freed =
        pmm_free_page-at (with_taken arenas k a i p) k b i (taken p) valid'
          (get_elem?-set_self arenas k b near) (get_elem?-set_self a.pages i (taken p) inside) in
      rw (address, same)
        (freed
          ∙ ap (λ x. (rx_ok, x))
              (set-set arenas k b _
                ∙ ap (λ ps. set arenas k (record a { pages = ps }))
                    (set-set a.pages i (taken p) (released (taken p))
                      ∙ ap (set a.pages i) (released-taken p t.idle idle)
                      ∙ set-get_elem? a.pages i p t.page)
                ∙ set-get_elem? arenas k a t.arena))
]

free_page-IsPlaced : (paddr : ℕ) (a : Arena) → IsPlaced a → IsPlaced (free_page paddr a).1
unfolding free_page
free_page-IsPlaced paddr a v = elim (Bool-cases (offset a paddr % page_size == 0)) [
  | inr odd ↦ rw (odd, free_page) v
  | inl even ↦ elim (Bool-cases (leb (total_count a) (offset a paddr / page_size))) [
    | inl far ↦ rw (even, far, free_page) v
    | inr near ↦
        rw (even, near, free_page)
          (IsPlaced-change released (offset a paddr / page_size) a (λ p. refl) (λ p e. refl) v)
  ]
]

free_page-info : (paddr : ℕ) (a : Arena) → (free_page paddr a).1.info ≡ a.info
unfolding free_page
free_page-info paddr a = ground arith

-- `pmm_free_page` keeps the arenas valid, whatever address it is given.
pub pmm_free_page-IsValid :
    (paddr : ℕ) (arenas : List Arena) → IsValid arenas → IsValid (pmm_free_page paddr arenas).1
pmm_free_page-IsValid paddr arenas v = elim (pmm_free_page_cases paddr arenas) [
  | inr (_, e) ↦ rw e v
  | inl (k, a, at, _, e) ↦ rw e (
      IsValid-set arenas k a _ v at (free_page-info paddr a)
        (free_page-IsPlaced paddr a (v.placed k a at)))
]

-- What a change of pages in place keeps.
abbrev Keeps : (Arena → Arena) → Type 0
Keeps f = (a : Arena) → IsPlaced a → IsPlaced (f a) × ((f a).info ≡ a.info)

at_range_cases :
    (f : Arena → Arena) (paddr count : ℕ) (arenas : List Arena)
    → ((k : ℕ) × (a : Arena) × (get_elem? arenas k ≡ some a)
        × (range_in_arena a paddr count ≡ true)
        × (at_range f paddr count arenas ≡ (rx_ok, set arenas k (f a))))
      ⊎ (at_range f paddr count arenas ≡ (err_invalid_args, arenas))
unfolding at_range
at_range_cases f paddr count [] = inr refl
at_range_cases f paddr count (a ∷ arenas) = elim (Bool-cases (range_in_arena a paddr count)) [
  | inl mine ↦ inl (0, a, refl, mine, rw (mine, at_range) refl)
  | inr other ↦ elim (at_range_cases f paddr count arenas) [
    | inl (k, b, at, its, e) ↦ inl (suc k, b, at, its, rw (other, at_range) (rw e refl))
    | inr e ↦ inr (rw (other, at_range) (rw e refl))
  ]
]

at_range-IsValid :
    (f : Arena → Arena) (paddr count : ℕ) (arenas : List Arena)
    → Keeps f
    → IsValid arenas
    → IsValid (at_range f paddr count arenas).1
at_range-IsValid f paddr count arenas keeps v = elim (at_range_cases f paddr count arenas) [
  | inr e ↦ rw e v
  | inl (k, a, at, _, e) ↦
      let (good, same) = keeps a (v.placed k a at) in
      rw e (IsValid-set arenas k a (f a) v at same good)
]

free_run-Keeps : (n paddr : ℕ) → Keeps (free_run n paddr)
unfolding free_run
free_run-Keeps zero paddr a v = (v, refl)
free_run-Keeps (suc n) paddr a v =
    let (good, same) =
      free_run-Keeps n ((paddr + page_size) % 2 ^ 64) (free_page (paddr % 2 ^ 64) a).1
        (free_page-IsPlaced (paddr % 2 ^ 64) a v) in
    (good, same ∙ free_page-info (paddr % 2 ^ 64) a)

reserved-not-free : (p : Page) → (held_back p).state ≢ free
reserved-not-free p e = cc

reserve_run-Keeps : (n paddr : ℕ) → Keeps (reserve_run n paddr)
unfolding reserve_run
reserve_run-Keeps zero paddr a v = (v, refl)
reserve_run-Keeps (suc n) paddr a v =
    reserve_run-Keeps n ((paddr + page_size) % 2 ^ 64)
      (record a { pages = change held_back (offset a paddr / page_size) a.pages })
      (IsPlaced-change held_back (offset a paddr / page_size) a (λ p. refl)
        (λ p e. absurd (reserved-not-free p e)) v)

-- `pmm_free_contiguous` and `pmm_reserve_pages` keep the arenas valid, whatever range they are given.
pub range-IsValid :
    (paddr count : ℕ) (arenas : List Arena)
    → IsValid arenas
    → IsValid (pmm_free_contiguous paddr count arenas).1
      × IsValid (pmm_reserve_pages paddr count arenas).1
unfolding pmm_free_contiguous pmm_reserve_pages
range-IsValid paddr count arenas v = elim (Bool-cases (count == 0)) [
  | inl empty ↦ rw (empty, pmm_free_contiguous, pmm_reserve_pages) (v, v)
  | inr some_pages ↦
      rw (some_pages, pmm_free_contiguous, pmm_reserve_pages)
        (
          at_range-IsValid (free_run count paddr) paddr count arenas (free_run-Keeps count paddr) v,
          at_range-IsValid (reserve_run count paddr) paddr count arenas
              (reserve_run-Keeps count paddr) v,
        )
]
