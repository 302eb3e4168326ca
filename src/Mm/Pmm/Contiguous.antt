-- ===== src/Mm/Pmm/Contiguous.antt =====
-- `pmm_alloc_contiguous` of src/mm/pmm.rs.
use rustux.Base.{
  ℕ, zero, suc, ◌+◌, ◌*◌, ◌%◌, ◌^◌, ◌≤◌, ◌<◌, ◌≡◌, ◌≢◌, ◌⊎◌, inl, inr, refl, ap, sym, subst,
  bit_and, false, Option, some, List, [], ◌∷◌, arith, set, get_elem?, Bool-cases, Result, ok, err,
  ◌==◌,
}
use rustux.Mm.Address.{page_size}
use rustux.Mm.Pmm.Pages.{Page, Arena, ArenaInfo, Status, err_no_memory, mark_run, taken}
use rustux.Mm.Pmm.{
  behind, skips_contiguous, contiguous_in, contiguous_from, pmm_alloc_contiguous, flag_low_mem,
}
use rustux.Mm.Pmm.Scan.{FreeRun, find_run_lem, mark_run_inside, mark_run_outside}
use rustux.Mm.Pmm.Validity.{IsValid, IsPlaced-mark_run, IsValid-set}
use rustux.Mm.Pmm.Alloc.{pmm_alloc_page-IsValid}

-- Where a request for pages in a row may be served: with the flag LOW_MEM in low memory only, and
-- otherwise, KERNEL and USER included, anywhere.
abbrev pub AllowsRun : ℕ → ArenaInfo → Type 0
AllowsRun flags info = ¬ ((flags ≡ 0x1) × (bit_and info.flags 0x1 ≡ 0))

skips-AllowsRun :
    (flags : ℕ) (info : ArenaInfo) → skips_contiguous flags info ≡ false → AllowsRun flags info
unfolding skips_contiguous
skips-AllowsRun flags info may (f, z) = ground arith

AllowsRun-skips :
    (flags : ℕ) (info : ArenaInfo) → AllowsRun flags info → skips_contiguous flags info ≡ false
unfolding skips_contiguous
AllowsRun-skips flags info low = ground arith

-- No arena that may serve the request has `count` free pages in a row.
abbrev pub NoRun : ℕ → ℕ → List Arena → Type 0
NoRun count flags arenas =
    (k : ℕ) (a : Arena) (j : ℕ)
    → get_elem? arenas k ≡ some a
    → AllowsRun flags a.info
    → ¬ (FreeRun j count a.pages)

abbrev pub with_run : List Arena → ℕ → Arena → ℕ → ℕ → List Arena
with_run arenas k a start count = set arenas k (record a { pages = mark_run count start a.pages })

abbrev pub AllocatesRun : ℕ → ℕ → List Arena → Option (Result Status ℕ × List Arena) → Type 0
AllocatesRun count flags arenas r =
    ((k : ℕ) × (a : Arena) × (start : ℕ) × (get_elem? arenas k ≡ some a)
      × AllowsRun flags a.info
      × FreeRun start count a.pages
      × ((j : ℕ) → j < start → ¬ (FreeRun j count a.pages))
      × (r
          ≡ some
              (ok ((a.info.base + start * page_size) % 2 ^ 64), with_run arenas k a start count)))
    ⊎ (NoRun count flags arenas × (r ≡ some (err err_no_memory, arenas)))

-- The first arena has no such run, so the rest decides.
AllocatesRun-behind :
    (count flags : ℕ) (a : Arena) (arenas : List Arena) (r : Option (Result Status ℕ × List Arena))
    → (skips_contiguous flags a.info ≡ false → (j : ℕ) → ¬ (FreeRun j count a.pages))
    → AllocatesRun count flags arenas r
    → AllocatesRun count flags (a ∷ arenas) (behind a r)
AllocatesRun-behind count flags a arenas r no_run (inl (k, b, start, at, may, fits, first, e)) =
    inl (suc k, b, start, at, may, fits, first, ap (behind a) e)
AllocatesRun-behind count flags a arenas r no_run (inr (never, e)) =
    inr (everywhere, ap (behind a) e)
  where
    everywhere : NoRun count flags (a ∷ arenas)
    everywhere zero b j at may =
        let same : a ≡ b = cc in
        rw (← same) (
          no_run (AllowsRun-skips flags a.info (subst (λ x. AllowsRun flags x.info) (sym same) may))
            j)
    everywhere (suc k) b j at may = never k b j at may

contiguous_from-AllocatesRun :
    (count flags : ℕ) (arenas : List Arena)
    → 0 < count
    → AllocatesRun count flags arenas (contiguous_from count flags arenas)
unfolding contiguous_from contiguous_in
contiguous_from-AllocatesRun count flags [] h = inr (λ k a j e. cc, refl)
contiguous_from-AllocatesRun count flags (a ∷ arenas) h =
    let later = contiguous_from-AllocatesRun count flags arenas h in
    elim (Bool-cases (skips_contiguous flags a.info)) [
      | inl shut ↦ rw shut (AllocatesRun-behind count flags a arenas _ (λ may. cc) later)
      | inr may ↦ elim (find_run_lem count a.pages h) [
        | inr (never, e) ↦
            rw (may, e, contiguous_in)
              (AllocatesRun-behind count flags a arenas _ (λ _. never) later)
        | inl (start, fits, first, e) ↦
            rw (may, e, contiguous_in)
              (inl (0, a, start, refl, skips-AllowsRun flags a.info may, fits, first, refl))
      ]
    ]

pub pmm_alloc_contiguous_lem :
    (count flags align_log2 : ℕ) (arenas : List Arena)
    → 2 ≤ count
    → AllocatesRun count flags arenas (pmm_alloc_contiguous count flags align_log2 arenas)
unfolding pmm_alloc_contiguous
pmm_alloc_contiguous_lem count flags align_log2 arenas h =
    let some_pages : (count == 0) ≡ false = ground arith in
    let many : (count == 1) ≡ false = ground arith in
    rw (some_pages, many) (contiguous_from-AllocatesRun count flags arenas (omega arith))

-- The pages of the run that is taken are allocated, and the others are as before.
pub mark_run_lem :
    (count start : ℕ) (ps : List Page)
    → ((j : ℕ) (p : Page)
        → start ≤ j
        → j < start + count
        → get_elem? ps j ≡ some p
        → get_elem? (mark_run count start ps) j ≡ some (taken p))
      × ((j : ℕ)
          → (j < start) ⊎ (start + count ≤ j)
          → get_elem? (mark_run count start ps) j ≡ get_elem? ps j)
mark_run_lem count start ps = (
  λ j p lo hi at. mark_run_inside count start ps j p lo hi at,
  λ j out. mark_run_outside count start ps j out,
)

-- `pmm_alloc_contiguous` keeps the arenas valid.
pub pmm_alloc_contiguous-IsValid :
    (count flags align_log2 : ℕ) (arenas arenas' : List Arena) (r : Result Status ℕ)
    → IsValid arenas
    → pmm_alloc_contiguous count flags align_log2 arenas ≡ some (r, arenas')
    → IsValid arenas'
unfolding pmm_alloc_contiguous
pmm_alloc_contiguous-IsValid zero flags align_log2 arenas arenas' r v e =
    let same : arenas ≡ arenas' = cc in rw (← same) v
pmm_alloc_contiguous-IsValid (suc zero) flags align_log2 arenas arenas' r v e =
    pmm_alloc_page-IsValid flags arenas arenas' r v e
pmm_alloc_contiguous-IsValid (suc (suc n)) flags align_log2 arenas arenas' r v e =
    elim (pmm_alloc_contiguous_lem (suc (suc n)) flags align_log2 arenas (omega arith)) [
      | inl (k, a, start, at, _, _, _, f) ↦
          let same : arenas' ≡ with_run arenas k a start (suc (suc n)) = cc in
          rw same (
            IsValid-set arenas k a _ v at refl
              (IsPlaced-mark_run (suc (suc n)) start a (v.placed k a at)))
      | inr (_, f) ↦ let same : arenas ≡ arenas' = cc in rw (← same) v
    ]

skips-any :
    (flags : ℕ) (info : ArenaInfo)
    → flags ≢ flag_low_mem
    → skips_contiguous flags info ≡ skips_contiguous 0 info
unfolding skips_contiguous
skips-any flags info ne = ground arith

contiguous_from-any :
    (count flags : ℕ) (arenas : List Arena)
    → flags ≢ flag_low_mem
    → contiguous_from count flags arenas ≡ contiguous_from count 0 arenas
unfolding contiguous_from
contiguous_from-any count flags [] ne = refl
contiguous_from-any count flags (a ∷ arenas) ne =
    rw (skips-any flags a.info ne, contiguous_from-any count flags arenas ne) refl

-- For two pages or more, flags other than LOW_MEM and the alignment make no difference: a request
-- for the kernel zone is served like a request for any memory.
pub pmm_alloc_contiguous-any :
    (count flags align_log2 align_log2' : ℕ) (arenas : List Arena)
    → 2 ≤ count
    → flags ≢ flag_low_mem
    → pmm_alloc_contiguous count flags align_log2 arenas
      ≡ pmm_alloc_contiguous count 0 align_log2' arenas
unfolding pmm_alloc_contiguous
pmm_alloc_contiguous-any count flags align_log2 align_log2' arenas h ne =
    let some_pages : (count == 0) ≡ false = ground arith in
    let many : (count == 1) ≡ false = ground arith in
    rw (some_pages, many) (contiguous_from-any count flags arenas ne)
