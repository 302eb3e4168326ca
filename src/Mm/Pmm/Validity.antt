-- ===== src/Mm/Pmm/Validity.antt =====
-- What holds of the arenas of src/mm/pmm.rs between calls.
use rustux.Base.{
  ℕ, zero, suc, ◌+◌, ◌*◌, ◌^◌, ◌≤◌, ◌<◌, ◌≡◌, ◌≢◌, ◌⊎◌, inl, inr, refl, ap, ◌∙◌, sym, some, List,
  arith, length, set, get_elem?, length-set, get_elem?-set_cases, ℕ_discrete, Option-cases,
}
use rustux.Mm.Address.{page_size}
use rustux.Mm.Pmm.Pages.{Page, Arena, free, allocated, change, mark_run, taken}

-- Each page structure of an arena has the address of its place, and a free page has no references.
pub record IsPlaced (a : Arena) : Type 0 where
  pub in_memory : a.info.base + a.info.size < 2 ^ 64
  pub fits : length a.pages * page_size ≤ a.info.size
  pub place :
      (i : ℕ) (p : Page) → get_elem? a.pages i ≡ some p → p.paddr ≡ a.info.base + i * page_size
  pub unused : (i : ℕ) (p : Page) → get_elem? a.pages i ≡ some p → p.state ≡ free → p.ref_count ≡ 0

-- Arenas are in place and do not overlap.
pub record IsValid (arenas : List Arena) : Type 0 where
  pub placed : (k : ℕ) (a : Arena) → get_elem? arenas k ≡ some a → IsPlaced a
  pub apart :
      (k l : ℕ) (a b : Arena)
      → get_elem? arenas k ≡ some a
      → get_elem? arenas l ≡ some b
      → k ≢ l
      → (a.info.base + a.info.size ≤ b.info.base) ⊎ (b.info.base + b.info.size ≤ a.info.base)

-- A page may change but for its address, and if it is free it has no references.
pub IsPlaced-set :
    (a : Arena) (i : ℕ) (p q : Page)
    → IsPlaced a
    → get_elem? a.pages i ≡ some p
    → q.paddr ≡ p.paddr
    → (q.state ≡ free → q.ref_count ≡ 0)
    → IsPlaced (record a { pages = set a.pages i q })
IsPlaced-set a i p q v at same idle = record {
  in_memory = v.in_memory;
  fits = omega (arith, v.fits, length-set a.pages i q);
  place = λ j r there. elim (get_elem?-set_cases a.pages i j q r there) [
    | inl (e, f) ↦
        ap (λ x. x.paddr) f ∙ same ∙ v.place i p at ∙ ap (λ x. a.info.base + x * page_size) e
    | inr (_, f) ↦ v.place j r f
  ];
  unused = λ j r there is. elim (get_elem?-set_cases a.pages i j q r there) [
    | inl (e, f) ↦ ap (λ x. x.ref_count) f ∙ idle (sym (ap (λ x. x.state) f) ∙ is)
    | inr (_, f) ↦ v.unused j r f is
  ];
}

pub IsPlaced-change :
    (f : Page → Page) (i : ℕ) (a : Arena)
    → ((p : Page) → (f p).paddr ≡ p.paddr)
    → ((p : Page) → (f p).state ≡ free → (f p).ref_count ≡ 0)
    → IsPlaced a
    → IsPlaced (record a { pages = change f i a.pages })
unfolding change
IsPlaced-change f i a same idle v = elim (Option-cases (get_elem? a.pages i)) [
  | inl e ↦ rw (e, change) v
  | inr (p, e) ↦ rw (e, change) (IsPlaced-set a i p (f p) v e (same p) (idle p))
]

allocated-not-free : allocated ≢ free
allocated-not-free e = cc

pub IsPlaced-mark_run :
    (n start : ℕ) (a : Arena)
    → IsPlaced a
    → IsPlaced (record a { pages = mark_run n start a.pages })
unfolding mark_run
IsPlaced-mark_run zero start a v = v
IsPlaced-mark_run (suc n) start a v =
    IsPlaced-mark_run n (start + 1) (record a { pages = change taken start a.pages })
      (IsPlaced-change taken start a (λ p. refl) (λ p e. absurd (allocated-not-free e)) v)

-- One arena may change but for its base, size and flags, as long as its pages are in place.
pub IsValid-set :
    (arenas : List Arena) (k : ℕ) (a b : Arena)
    → IsValid arenas
    → get_elem? arenas k ≡ some a
    → b.info ≡ a.info
    → IsPlaced b
    → IsValid (set arenas k b)
IsValid-set arenas k a b v at same good = record {
  placed = λ l c there. elim (get_elem?-set_cases arenas k l b c there) [
    | inl (_, f) ↦ rw f good
    | inr (_, f) ↦ v.placed l c f
  ];
  apart = λ l m c d hc hd ne.
      let (c', atc, samec) = before l c hc in
      let (d', atd, samed) = before m d hd in rw (samec, samed) (v.apart l m c' d' atc atd ne);
}
  where
    -- What stood at an index before the write has the same information.
    before :
        (l : ℕ) (c : Arena)
        → get_elem? (set arenas k b) l ≡ some c
        → (c' : Arena) × (get_elem? arenas l ≡ some c') × (c.info ≡ c'.info)
    before l c there = elim (get_elem?-set_cases arenas k l b c there) [
      | inl (e, f) ↦ (a, sym (ap (get_elem? arenas) e) ∙ at, ap (λ x. x.info) f ∙ same)
      | inr (_, f) ↦ (c, f, refl)
    ]

-- An address is in one arena at most.
pub in_one_arena :
    (arenas : List Arena) (k l : ℕ) (a b : Arena) (addr : ℕ)
    → IsValid arenas
    → get_elem? arenas k ≡ some a
    → get_elem? arenas l ≡ some b
    → (a.info.base ≤ addr) × (addr < a.info.base + a.info.size)
    → (b.info.base ≤ addr) × (addr < b.info.base + b.info.size)
    → k ≡ l
in_one_arena arenas k l a b addr v hk hl ina inb = elim (ℕ_discrete k l) [
  | yes e ↦ e
  | no ne ↦ elim (v.apart k l a b hk hl ne) [ inl below ↦ omega arith | inr above ↦ omega arith ]
]
