-- ===== src/Mm/Pmm/Alloc.antt =====
-- `pmm_alloc_page` of src/mm/pmm.rs: what it gives, and when it does not return.
use rustux.Base.{
  ℕ, zero, suc, ◌+◌, ◌≡◌, ◌≢◌, ◌⊎◌, inl, inr, refl, ap, sym, subst, ◌∙◌, true, false, none, some,
  List, [], ◌∷◌, arith, set, get_elem?, Bool-cases, Result, ok, bit_and,
}
use rustux.Mm.Pmm.Pages.{
  Page, Arena, ArenaInfo, Status, is_free, free_at, taken, take_first, free_in, alloc_page,
  count_free_pages,
}
use rustux.Mm.Pmm.{
  skips, alloc_from, behind, pmm_alloc_page, pmm_count_free_pages, flag_low_mem, flag_kernel,
  flag_user,
}
use rustux.Mm.Pmm.Scan.{take_first_cases}
use rustux.Mm.Pmm.Validity.{IsValid, IsPlaced-set, IsValid-set}

-- The zones of pmm.rs: a request with one of the flags LOW_MEM, KERNEL and USER is for arenas that have
-- that flag; the others may use any.
abbrev pub Allows : ℕ → ArenaInfo → Type 0
Allows flags info =
    (¬ ((flags ≡ 0x1) × (bit_and info.flags 0x1 ≡ 0)))
    × (¬ ((flags ≡ 0x4) × (bit_and info.flags 0x4 ≡ 0)))
    × (¬ ((flags ≡ 0x8) × (bit_and info.flags 0x8 ≡ 0)))

skips-Allows : (flags : ℕ) (info : ArenaInfo) → skips flags info ≡ false → Allows flags info
unfolding skips
skips-Allows flags info may =
    (λ (f, z). ground arith, λ (f, z). ground arith, λ (f, z). ground arith)

Allows-skips : (flags : ℕ) (info : ArenaInfo) → Allows flags info → skips flags info ≡ false
unfolding skips
Allows-skips flags info (low, kernel, user) = ground arith

-- What an allocation takes: a page of an arena that the flags allow.
pub record Takes (flags : ℕ) (arenas : List Arena) (k : ℕ) (a : Arena) (i : ℕ) (p : Page)
    : Type 0 where
  pub arena : get_elem? arenas k ≡ some a
  pub allowed : Allows flags a.info
  pub page : get_elem? a.pages i ≡ some p
  pub idle : is_free p ≡ true

-- No arena that the flags allow has a free page.
abbrev pub Exhausted : ℕ → List Arena → Type 0
Exhausted flags arenas =
    (k : ℕ) (a : Arena) (i : ℕ)
    → get_elem? arenas k ≡ some a
    → Allows flags a.info
    → free_at (get_elem? a.pages i) ≡ false

abbrev pub with_taken : List Arena → ℕ → Arena → ℕ → Page → List Arena
with_taken arenas k a i p = set arenas k (record a { pages = set a.pages i (taken p) })

abbrev AllocCases : ℕ → List Arena → Type 0
AllocCases flags arenas =
    ((k : ℕ) × (a : Arena) × (i : ℕ) × (p : Page) × Takes flags arenas k a i p
      × (alloc_from flags arenas ≡ some (p.paddr, with_taken arenas k a i p))
      × (pmm_count_free_pages (with_taken arenas k a i p) + 1 ≡ pmm_count_free_pages arenas))
    ⊎ (Exhausted flags arenas × (alloc_from flags arenas ≡ none))

-- The first arena has nothing to give, so the rest decides.
behind_cases :
    (flags : ℕ) (a : Arena) (arenas : List Arena)
    → (skips flags a.info ≡ false → (i : ℕ) → free_at (get_elem? a.pages i) ≡ false)
    → alloc_from flags (a ∷ arenas) ≡ behind a (alloc_from flags arenas)
    → AllocCases flags arenas
    → AllocCases flags (a ∷ arenas)
unfolding pmm_count_free_pages
behind_cases flags a arenas dry e (inl (k, b, i, p, t, f, count)) = inl (
  suc k,
  b,
  i,
  p,
  record { arena = t.arena; allowed = t.allowed; page = t.page; idle = t.idle },
  e ∙ ap (behind a) f,
  omega (arith, count),
)
behind_cases flags a arenas dry e (inr (none_free, f)) = inr (everywhere, e ∙ ap (behind a) f)
  where
    everywhere : Exhausted flags (a ∷ arenas)
    everywhere zero b i at may =
        let same : a ≡ b = cc in
        rw (← same)
          (dry (Allows-skips flags a.info (subst (λ x. Allows flags x.info) (sym same) may)) i)
    everywhere (suc k) b i at may = none_free k b i at may

scan_on :
    (flags : ℕ) (a : Arena) (arenas : List Arena)
    → take_first a.pages ≡ none
    → elim (alloc_page a) [
      | none ↦ behind a (alloc_from flags arenas)
      | some (p, a') ↦ some (p, a' ∷ arenas)
    ]
      ≡ behind a (alloc_from flags arenas)
unfolding alloc_page
scan_on flags a arenas e = rw e refl

scan_takes :
    (flags : ℕ) (a : Arena) (arenas : List Arena) (p : Page) (i : ℕ)
    → take_first a.pages ≡ some (p.paddr, set a.pages i (taken p))
    → elim (alloc_page a) [
      | none ↦ behind a (alloc_from flags arenas)
      | some (q, a') ↦ some (q, a' ∷ arenas)
    ]
      ≡ some (p.paddr, with_taken (a ∷ arenas) 0 a i p)
unfolding alloc_page
scan_takes flags a arenas p i e = rw e refl

one_fewer :
    (a : Arena) (arenas : List Arena) (p : Page) (i : ℕ)
    → free_in (set a.pages i (taken p)) + 1 ≡ free_in a.pages
    → pmm_count_free_pages (with_taken (a ∷ arenas) 0 a i p) + 1 ≡ pmm_count_free_pages (a ∷ arenas)
unfolding pmm_count_free_pages count_free_pages
one_fewer a arenas p i e = omega (arith, e)

alloc_cases : (flags : ℕ) (arenas : List Arena) → AllocCases flags arenas
unfolding alloc_from
alloc_cases flags [] = inr (λ k a i e. cc, refl)
alloc_cases flags (a ∷ arenas) = elim (Bool-cases (skips flags a.info)) [
  | inl shut ↦
      behind_cases flags a arenas (λ may. cc) (rw (shut, alloc_from) refl)
        (alloc_cases flags arenas)
  | inr may ↦ elim (take_first_cases a.pages) [
    | inr (dry, e, _) ↦
        behind_cases flags a arenas (λ _. dry) (rw (may, alloc_from) (scan_on flags a arenas e))
          (alloc_cases flags arenas)
    | inl (i, p, at, idle, _, e, count) ↦ inl (
      0,
      a,
      i,
      p,
      record { arena = refl; allowed = skips-Allows flags a.info may; page = at; idle = idle },
      rw (may, alloc_from) (scan_takes flags a arenas p i e),
      one_fewer a arenas p i count,
    )
  ]
]

pub pmm_alloc_page_lem :
    (flags : ℕ) (arenas : List Arena)
    → ((k : ℕ) × (a : Arena) × (i : ℕ) × (p : Page) × Takes flags arenas k a i p
        × (pmm_alloc_page flags arenas ≡ some (ok p.paddr, with_taken arenas k a i p))
        × (pmm_count_free_pages (with_taken arenas k a i p) + 1 ≡ pmm_count_free_pages arenas))
      ⊎ (Exhausted flags arenas × (pmm_alloc_page flags arenas ≡ none))
unfolding pmm_alloc_page
pmm_alloc_page_lem flags arenas = elim (alloc_cases flags arenas) [
  | inl (k, a, i, p, t, e, count) ↦ inl (k, a, i, p, t, rw (e, pmm_alloc_page) refl, count)
  | inr (dry, e) ↦ inr (dry, rw (e, pmm_alloc_page) refl)
]

in_zone :
    (flags : ℕ) (a : Arena)
    → (flags ≡ flag_low_mem) ⊎ ((flags ≡ flag_kernel) ⊎ (flags ≡ flag_user))
    → skips flags a.info ≡ false
    → bit_and a.info.flags flags ≢ 0
unfolding skips
in_zone flags a (inl low) may = λ z. ground arith
in_zone flags a (inr (inl kernel)) may = λ z. ground arith
in_zone flags a (inr (inr user)) may = λ z. ground arith

-- A page that an allocation with a zone flag returns is in an arena of that zone.
pub pmm_alloc_page-zone :
    (flags : ℕ) (arenas arenas' : List Arena) (paddr : ℕ)
    → (flags ≡ flag_low_mem) ⊎ ((flags ≡ flag_kernel) ⊎ (flags ≡ flag_user))
    → pmm_alloc_page flags arenas ≡ some (ok paddr, arenas')
    → (k : ℕ) × (a : Arena) × (i : ℕ) × (p : Page) × (get_elem? arenas k ≡ some a)
      × (get_elem? a.pages i ≡ some p)
      × (p.paddr ≡ paddr)
      × (bit_and a.info.flags flags ≢ 0)
pmm_alloc_page-zone flags arenas arenas' paddr zone e = elim (pmm_alloc_page_lem flags arenas) [
  | inr (_, f) ↦ cc
  | inl (k, a, i, p, t, f, _) ↦ (
    k,
    a,
    i,
    p,
    t.arena,
    t.page,
    ground arith,
    in_zone flags a zone (Allows-skips flags a.info t.allowed),
  )
]

-- `pmm_alloc_page` keeps the arenas valid.
pub pmm_alloc_page-IsValid :
    (flags : ℕ) (arenas arenas' : List Arena) (r : Result Status ℕ)
    → IsValid arenas
    → pmm_alloc_page flags arenas ≡ some (r, arenas')
    → IsValid arenas'
pmm_alloc_page-IsValid flags arenas arenas' r v e = elim (pmm_alloc_page_lem flags arenas) [
  | inr (_, f) ↦ cc
  | inl (k, a, i, p, t, f, _) ↦
      let same : arenas' ≡ with_taken arenas k a i p = cc in
      rw same (
        IsValid-set arenas k a _ v t.arena refl
          (IsPlaced-set a i p (taken p) (v.placed k a t.arena) t.page refl (λ is. cc)))
]
