-- ===== src/Mm/Pmm.antt =====
-- The physical page allocator: src/mm/pmm.rs. The state is the arenas in use, `ARENAS[..NUM_ARENAS]`;
-- the call counter only serves the debug output, and the lock of an arena is never read.
pub mod Pages
pub mod Scan
pub mod Validity
pub mod Alloc
pub mod Free
pub mod Arenas
pub mod Ownership
pub mod Contiguous
mod Tests
use rustux.Base.{
  ℕ, zero, suc, ◌+◌, ◌-◌, ◌*◌, ◌/◌, ◌%◌, ◌^◌, ◌==◌, leb, ltb, if◌then◌else◌, Bool, true, false, not,
  ◌&&◌, ◌||◌, Option, none, some, List, [], ◌∷◌, ◌++◌, Result, ok, err, length, bit_and,
}
use rustux.Mm.Pmm.Pages.{
  Status, rx_ok, err_no_memory, err_invalid_args, ArenaInfo, Arena, Page, page_count, arena_init,
  alloc_page, free_page, address_in_arena, total_count, count_free_pages, find_run, mark_run,
  reserve_run, free_run,
}
use rustux.Mm.Address.{page_size}

abbrev pub max_arenas : ℕ
max_arenas = 8

abbrev pub flag_low_mem : ℕ
flag_low_mem = 0x1

abbrev pub flag_high_mem : ℕ
flag_high_mem = 0x2

abbrev pub flag_kernel : ℕ
flag_kernel = 0x4

abbrev pub flag_user : ℕ
flag_user = 0x8

-- Whether an allocation with the flags passes over the arena.
unfoldable pub skips : ℕ → ArenaInfo → Bool
skips flags info =
    (flags == flag_low_mem && (bit_and info.flags flag_low_mem == 0))
    || ((flags == flag_kernel && (bit_and info.flags flag_kernel == 0))
        || (flags == flag_user && (bit_and info.flags flag_user == 0)))

-- The page structures come from the boot allocator or from the heap; `memory` says, for a size in
-- pages, whether that gives memory.
unfoldable pub pmm_add_arena : (ℕ → Bool) → ArenaInfo → List Arena → Status × List Arena
pmm_add_arena memory info arenas =
    if leb max_arenas (length arenas)
    then (err_no_memory, arenas)
    else if page_count info == 0
    then (err_invalid_args, arenas)
    else if not (memory (page_count info))
    then (err_no_memory, arenas)
    else (rx_ok, arenas ++ (arena_init (length arenas) info ∷ []))

unfoldable pub pmm_init_early :
    (ℕ → Bool) → ℕ → ℕ → Option ℕ → Option ℕ → List ℕ → List ℕ → List Arena → List Arena
pmm_init_early memory low_base low_size high_base high_size low_name high_name arenas =
    let arenas' =
      (pmm_add_arena memory
        (record {
          name = low_name;
          flags = flag_low_mem;
          priority = 0;
          base = low_base;
          size = low_size;
        })
        arenas).1 in
    elim high_base [
      | none ↦ arenas'
      | some base ↦ elim high_size [
        | none ↦ arenas'
        | some size ↦
            (pmm_add_arena memory
              (record {
                name = high_name;
                flags = flag_high_mem;
                priority = 1;
                base = base;
                size = size;
              })
              arenas').1
      ]
    ]

-- What the scan of the later arenas comes to, the arena before them unchanged.
abbrev pub behind {ℓ} : {R : Type ℓ} → Arena → Option (R × List Arena) → Option (R × List Arena)
behind a none = none
behind a (some (r, arenas)) = some (r, a ∷ arenas)

-- The scan of the arenas in `pmm_alloc_page`.
unfoldable pub alloc_from : ℕ → List Arena → Option (ℕ × List Arena)
alloc_from flags [] = none
alloc_from flags (a ∷ arenas) =
    let rest = behind a (alloc_from flags arenas) in
    if skips flags a.info
    then rest
    else elim (alloc_page a) [ none ↦ rest | some (p, a') ↦ some (p, a' ∷ arenas) ]

-- `none`: once memory is exhausted the call loops forever and does not return.
unfoldable pub pmm_alloc_page : ℕ → List Arena → Option (Result Status ℕ × List Arena)
unfolding alloc_from
pmm_alloc_page flags arenas = elim (alloc_from flags arenas) [
  | none ↦ none
  | some (paddr, arenas') ↦ some (ok paddr, arenas')
]

unfoldable pub pmm_alloc_kernel_page : List Arena → Option (Result Status ℕ × List Arena)
unfolding pmm_alloc_page
pmm_alloc_kernel_page = pmm_alloc_page flag_kernel

unfoldable pub pmm_alloc_user_page : List Arena → Option (Result Status ℕ × List Arena)
unfolding pmm_alloc_page
pmm_alloc_user_page = pmm_alloc_page flag_user

-- Whether an allocation of several pages passes over the arena.
unfoldable pub skips_contiguous : ℕ → ArenaInfo → Bool
skips_contiguous flags info = flags == flag_low_mem && (bit_and info.flags flag_low_mem == 0)

-- The search in one arena; `rest` is what the later arenas come to, and the outer `none` says that the
-- rounds of the search ran out.
unfoldable pub contiguous_in :
    ℕ
    → Arena
    → List Arena
    → Option (Result Status ℕ × List Arena)
    → Option (Result Status ℕ × List Arena)
contiguous_in count a arenas rest = elim (find_run (total_count a + 1) 0 count a.pages) [
  | none ↦ none
  | some none ↦ rest
  | some (some start) ↦ some (
    ok ((a.info.base + start * page_size) % 2 ^ 64),
    record a { pages = mark_run count start a.pages } ∷ arenas,
  )
]

-- The scan of the arenas in `pmm_alloc_contiguous`.
unfoldable pub contiguous_from : ℕ → ℕ → List Arena → Option (Result Status ℕ × List Arena)
contiguous_from count flags [] = some (err err_no_memory, [])
contiguous_from count flags (a ∷ arenas) =
    let rest = behind a (contiguous_from count flags arenas) in
    if skips_contiguous flags a.info then rest else contiguous_in count a arenas rest

unfoldable pub pmm_alloc_contiguous : ℕ → ℕ → ℕ → List Arena → Option (Result Status ℕ × List Arena)
unfolding pmm_alloc_page
pmm_alloc_contiguous count flags align_log2 arenas =
    if count == 0
    then some (err err_invalid_args, arenas)
    else if count == 1
    then pmm_alloc_page flags arenas
    else contiguous_from count flags arenas

unfoldable pub pmm_free_page : ℕ → List Arena → Status × List Arena
pmm_free_page paddr [] = (err_invalid_args, [])
pmm_free_page paddr (a ∷ arenas) =
    let (st, rest) = pmm_free_page paddr arenas in
    if address_in_arena a paddr
    then (let (st', a') = free_page paddr a in (st', a' ∷ arenas))
    else (st, a ∷ rest)

-- Both ends of the range of `count` pages are in the arena.
unfoldable pub range_in_arena : Arena → ℕ → ℕ → Bool
unfolding address_in_arena
range_in_arena a paddr count =
    let end_addr = (paddr + count * page_size) % 2 ^ 64 in
    address_in_arena a paddr && address_in_arena a ((end_addr + (2 ^ 64 - 1)) % 2 ^ 64)

-- The first arena that holds the range is changed.
unfoldable pub at_range : (Arena → Arena) → ℕ → ℕ → List Arena → Status × List Arena
unfolding range_in_arena
at_range f paddr count [] = (err_invalid_args, [])
at_range f paddr count (a ∷ arenas) =
    let (st, rest) = at_range f paddr count arenas in
    if range_in_arena a paddr count then (rx_ok, f a ∷ arenas) else (st, a ∷ rest)

unfoldable pub pmm_free_contiguous : ℕ → ℕ → List Arena → Status × List Arena
unfolding at_range
pmm_free_contiguous paddr count arenas =
    if count == 0
    then (err_invalid_args, arenas)
    else at_range (free_run count paddr) paddr count arenas

unfoldable pub pmm_reserve_pages : ℕ → ℕ → List Arena → Status × List Arena
unfolding at_range
pmm_reserve_pages paddr count arenas =
    if count == 0
    then (err_invalid_args, arenas)
    else at_range (reserve_run count paddr) paddr count arenas

unfoldable pub pmm_count_free_pages : List Arena → ℕ
pmm_count_free_pages [] = 0
pmm_count_free_pages (a ∷ arenas) = count_free_pages a + pmm_count_free_pages arenas

unfoldable pub pmm_count_total_pages : List Arena → ℕ
pmm_count_total_pages [] = 0
pmm_count_total_pages (a ∷ arenas) = total_count a + pmm_count_total_pages arenas

unfoldable pub pmm_count_total_bytes : List Arena → ℕ
unfolding pmm_count_total_pages
pmm_count_total_bytes arenas = pmm_count_total_pages arenas * page_size % 2 ^ 64
