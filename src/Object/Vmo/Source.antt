-- ===== src/Object/Vmo/Source.antt =====
-- The page allocator of src/mm/pmm.rs as the source of a VMO's pages.
use rustux.Base.{
  ℕ, ◌+◌, ◌%◌, ◌^◌, ◌≤◌, ◌<◌, ◌≡◌, inl, inr, ap, ◌∙◌, some, List, arith, set, get_elem?,
  get_elem?-set_cases, ok, lt_of_get_elem?,
}
use rustux.Mm.Address.{page_size}
use rustux.Mm.Pmm.Pages.{Arena, Page, taken}
use rustux.Mm.Pmm.{pmm_alloc_page, pmm_alloc_user_page, flag_user}
use rustux.Mm.Pmm.Validity.{IsValid}
use rustux.Mm.Pmm.Alloc.{with_taken, pmm_alloc_page_lem, pmm_alloc_page-IsValid}
use rustux.Mm.Pmm.Ownership.{InUse, alloc-InUse}
use rustux.Object.Vmo.Pages.{PageSource}

-- The arenas start at page frames and lie below 2 ^ 46.
unfoldable pub Framed : List Arena → Type 0
Framed arenas =
    (k : ℕ) (a : Arena)
    → get_elem? arenas k ≡ some a
    → (a.info.base % page_size ≡ 0) × (a.info.base + a.info.size ≤ 2 ^ 46)

Framed-at :
    (arenas : List Arena) (k : ℕ) (a : Arena)
    → Framed arenas
    → get_elem? arenas k ≡ some a
    → (a.info.base % page_size ≡ 0) × (a.info.base + a.info.size ≤ 2 ^ 46)
unfolding Framed
Framed-at arenas k a h at = h k a at

with_taken-Framed :
    (arenas : List Arena) (k : ℕ) (a : Arena) (i : ℕ) (p : Page)
    → Framed arenas
    → get_elem? arenas k ≡ some a
    → Framed (with_taken arenas k a i p)
unfolding Framed
with_taken-Framed arenas k a i p h at l b there =
    elim (get_elem?-set_cases arenas k l (record a { pages = set a.pages i (taken p) }) b there) [
      | inl (same, is) ↦
          let (aligned, below) = h k a at in
          (
            ap (λ x. x.info.base % page_size) is ∙ aligned,
            omega (arith, below, ap (λ x. x.info.base) is, ap (λ x. x.info.size) is),
          )
      | inr (_, old) ↦ h l b old
    ]

-- A page that the allocator gives is a frame below 2 ^ 46.
pub alloc-Framed :
    (flags : ℕ) (arenas arenas' : List Arena) (paddr : ℕ)
    → IsValid arenas
    → Framed arenas
    → pmm_alloc_page flags arenas ≡ some (ok paddr, arenas')
    → Framed arenas' × (paddr % page_size ≡ 0) × (paddr < 2 ^ 46)
alloc-Framed flags arenas arenas' paddr v h e = elim (pmm_alloc_page_lem flags arenas) [
  | inr (_, f) ↦ cc
  | inl (k, a, i, p, t, f, _) ↦
      let same : arenas' ≡ with_taken arenas k a i p = cc in
      let address : paddr ≡ p.paddr = cc in
      let (aligned, below) = Framed-at arenas k a h t.arena in
      let pl = v.placed k a t.arena in
      let place = pl.place i p t.page in
      let inside = lt_of_get_elem? a.pages i p t.page in
      (rw same (with_taken-Framed arenas k a i p h t.arena), omega arith, omega (arith, pl.fits))
]

-- `pmm_alloc_user_page` gives page frames that were not in use.
pub gives_frame :
    (s s' : List Arena) (p : ℕ)
    → IsValid s × Framed s
    → pmm_alloc_user_page s ≡ some (ok p, s')
    → (IsValid s' × Framed s')
      × (p % page_size ≡ 0)
      × (p < 2 ^ 46)
      × (¬ InUse s p)
      × InUse s' p
      × ((q : ℕ) → InUse s q → InUse s' q)
unfolding pmm_alloc_user_page
gives_frame s s' p (valid, framed) e =
    let (framed', aligned, below) = alloc-Framed flag_user s s' p valid framed e in
    let (unused, used, kept) = alloc-InUse flag_user s s' p valid e in
    (
      (pmm_alloc_page-IsValid flag_user s s' (ok p) valid e, framed'),
      aligned,
      below,
      unused,
      used,
      kept,
    )

abbrev pub pmm_source : PageSource
pmm_source = record {
  State = List Arena;
  alloc = pmm_alloc_user_page;
  IsValid = λ arenas. IsValid arenas × Framed arenas;
  InUse = InUse;
  gives = gives_frame;
}
