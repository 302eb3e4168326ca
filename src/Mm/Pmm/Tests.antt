-- ===== src/Mm/Pmm/Tests.antt =====
-- Runs of the page allocator, and its theorems at a small memory.
use rustux.Base.{ℕ, ◌≡◌, refl, true, Bool, none, some, List, [], ◌∷◌, arith, get_elem?, ok}
use rustux.Mm.Pmm.Pages.{
  Page, Arena, ArenaInfo, rx_ok, page, arena_init, find_run, page_count, alloc_page,
  address_in_arena, free_page, is_free,
}
use rustux.Mm.Pmm.{
  pmm_add_arena, pmm_alloc_page, pmm_free_page, pmm_alloc_contiguous, flag_kernel, flag_user,
  flag_low_mem, skips, contiguous_from, contiguous_in, skips_contiguous,
}
use rustux.Mm.Pmm.Validity.{IsValid}
use rustux.Mm.Pmm.Alloc.{pmm_alloc_page-IsValid}
use rustux.Mm.Pmm.Free.{free-alloc, pmm_free_page-IsValid}
use rustux.Mm.Pmm.Arenas.{pmm_add_arena_lem, empty-IsValid}
use rustux.Mm.Pmm.Ownership.{Call, allocs, frees, run, Owned, run-Owned}
use rustux.Mm.Pmm.Contiguous.{pmm_alloc_contiguous-any}

-- Four pages of kernel memory at 1 MB.
abbrev kernel_zone : ArenaInfo
kernel_zone = record { name = []; flags = 0x5; priority = 0; base = 0x100000; size = 0x4000 }

abbrev always : ℕ → Bool
always n = true

abbrev memory : List Arena
memory = (pmm_add_arena always kernel_zone []).1

memory-IsValid : IsValid memory
memory-IsValid =
    (pmm_add_arena_lem always kernel_zone [] empty-IsValid (omega arith) (λ k a e. cc)).0

after_alloc : List Arena
after_alloc = elim (pmm_alloc_page flag_kernel memory) [ none ↦ memory | some (r, arenas) ↦ arenas ]

gives_first : pmm_alloc_page flag_kernel memory ≡ some (ok 0x100000, after_alloc)
unfolding after_alloc pmm_alloc_page pmm_add_arena page_count skips arena_init alloc_page
gives_first = refl

-- No arena here is for user memory.
hangs : pmm_alloc_page flag_user memory ≡ none
unfolding pmm_alloc_page pmm_add_arena page_count skips arena_init
hangs = refl

after_alloc-IsValid : IsValid after_alloc
after_alloc-IsValid =
    pmm_alloc_page-IsValid flag_kernel memory after_alloc (ok 0x100000) memory-IsValid gives_first

free-alloc_example : pmm_free_page 0x100000 after_alloc ≡ (rx_ok, memory)
free-alloc_example = free-alloc flag_kernel memory after_alloc 0x100000 memory-IsValid gives_first

abbrev zone : Arena
zone = arena_init 0 kernel_zone

abbrev second_page : Page
second_page = page 0x101000 0 1

zone_at : get_elem? memory 0 ≡ some zone
unfolding pmm_add_arena page_count
zone_at = refl

second_at : get_elem? zone.pages 1 ≡ some second_page
unfolding arena_init page_count
second_at = refl

after_free-IsValid : IsValid (pmm_free_page 0x100000 after_alloc).1
after_free-IsValid = pmm_free_page-IsValid 0x100000 after_alloc after_alloc-IsValid

abbrev script : List Call
script = allocs flag_kernel ∷ allocs flag_low_mem ∷ frees 0x100000 ∷ allocs 0 ∷ []

after_script : List ℕ × List Arena
after_script = elim (run script memory []) [ none ↦ ([], memory) | some r ↦ r ]

-- The page that was freed is given again.
holds : after_script.0 ≡ 0x100000 ∷ 0x101000 ∷ []
unfolding after_script run pmm_alloc_page pmm_free_page pmm_add_arena page_count skips arena_init
    alloc_page address_in_arena free_page
holds = refl

run-Owned_example : Owned after_script.1 after_script.0
unfolding after_script run pmm_alloc_page pmm_free_page pmm_add_arena page_count skips arena_init
    alloc_page address_in_arena free_page
run-Owned_example =
    run-Owned script memory [] (record { valid = memory-IsValid; distinct = tt; in_use = tt }) refl

after_run : List Arena
after_run = elim (pmm_alloc_contiguous 3 0 0 memory) [ none ↦ memory | some (r, arenas) ↦ arenas ]

gives_run : pmm_alloc_contiguous 3 0 0 memory ≡ some (ok 0x100000, after_run)
unfolding after_run pmm_alloc_contiguous pmm_add_arena contiguous_from page_count skips_contiguous
    contiguous_in find_run arena_init is_free
gives_run = refl

pmm_alloc_contiguous-any_example :
    pmm_alloc_contiguous 3 flag_kernel 0 after_alloc ≡ pmm_alloc_contiguous 3 0 12 after_alloc
pmm_alloc_contiguous-any_example =
    pmm_alloc_contiguous-any 3 flag_kernel 0 12 after_alloc (omega arith) (λ e. omega arith)
