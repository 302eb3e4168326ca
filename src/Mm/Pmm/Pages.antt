-- ===== src/Mm/Pmm/Pages.antt =====
-- One arena of src/mm/pmm.rs: its pages, and what is done to them. `pages.len()` is `total_count`:
-- `init` alone writes either, and sets both.
use rustux.Base.{
  ℕ, zero, suc, ◌+◌, ◌-◌, ◌*◌, ◌/◌, ◌%◌, ◌^◌, ◌==◌, leb, ltb, if◌then◌else◌, Bool, true, false, not,
  ◌&&◌, Option, none, some, List, [], ◌∷◌, length, set, get_elem?,
}
use rustux.Mm.Address.{page_size}

pub data PageState : Type 0 where
  free allocated reserved : PageState

-- The codes of `RxStatus` that the allocator returns.
pub data Status : Type 0 where
  rx_ok err_no_memory err_invalid_args : Status

pub record ArenaInfo : Type 0 where
  pub name : List ℕ
  pub flags : ℕ
  pub priority : ℕ
  pub base : ℕ
  pub size : ℕ

unfoldable pub page_count : ArenaInfo → ℕ
page_count info = info.size / page_size

pub record Page : Type 0 where
  pub paddr : ℕ
  pub state : PageState
  pub ref_count : ℕ
  pub arena_index : ℕ
  pub page_index : ℕ

unfoldable pub is_free : Page → Bool
is_free p = elim p.state [ free ↦ true | allocated ↦ false | reserved ↦ false ]

pub record Arena : Type 0 where
  pub info : ArenaInfo
  pub pages : List Page

abbrev pub total_count : Arena → ℕ
total_count a = length a.pages

abbrev pub page : ℕ → ℕ → ℕ → Page
page paddr arena_index page_index = record {
  paddr = paddr;
  state = free;
  ref_count = 0;
  arena_index = arena_index;
  page_index = page_index;
}

-- `n` page structures from index `i` on.
unfoldable pub pages_from : ℕ → ℕ → ℕ → ℕ → List Page
pages_from zero i base arena_index = []
pages_from (suc n) i base arena_index =
    page ((base + i * page_size) % 2 ^ 64) arena_index (i % 2 ^ 32)
    ∷ pages_from n (i + 1) base arena_index

unfoldable pub arena_init : ℕ → ArenaInfo → Arena
unfolding pages_from page_count
arena_init arena_index info = record {
  info = info;
  pages = pages_from (page_count info) 0 info.base arena_index;
}

abbrev pub taken : Page → Page
taken p = record p { state = allocated; ref_count = 1 }

abbrev pub released : Page → Page
released p = record p { state = free; ref_count = 0 }

abbrev pub held_back : Page → Page
held_back p = record p { state = reserved }

-- The scan for a free page.
unfoldable pub take_first : List Page → Option (ℕ × List Page)
unfolding is_free
take_first [] = none
take_first (p ∷ ps) =
    let rest = take_first ps in
    if is_free p
    then some (p.paddr, taken p ∷ ps)
    else elim rest [ none ↦ none | some (paddr, qs) ↦ some (paddr, p ∷ qs) ]

unfoldable pub alloc_page : Arena → Option (ℕ × Arena)
unfolding take_first
alloc_page a = elim (take_first a.pages) [
  | none ↦ none
  | some (paddr, ps) ↦ some (paddr, record a { pages = ps })
]

-- The page at index `i` is changed by `f`.
unfoldable pub change : (Page → Page) → ℕ → List Page → List Page
change f i ps = elim (get_elem? ps i) [ none ↦ ps | some p ↦ set ps i (f p) ]

-- Where in the arena an address is; the difference of two `u64` wraps.
abbrev pub offset : Arena → ℕ → ℕ
offset a paddr = (paddr + (2 ^ 64 - a.info.base)) % 2 ^ 64

unfoldable pub free_page : ℕ → Arena → Status × Arena
unfolding change
free_page paddr a =
    if not (offset a paddr % page_size == 0)
    then (err_invalid_args, a)
    else if leb (total_count a) (offset a paddr / page_size)
    then (err_invalid_args, a)
    else (rx_ok, record a { pages = change released (offset a paddr / page_size) a.pages })

unfoldable pub address_in_arena : Arena → ℕ → Bool
address_in_arena a addr = leb a.info.base addr && ltb addr ((a.info.base + a.info.size) % 2 ^ 64)

unfoldable pub free_in : List Page → ℕ
unfolding is_free
free_in [] = 0
free_in (p ∷ ps) = (if is_free p then 1 else 0) + free_in ps

unfoldable pub count_free_pages : Arena → ℕ
unfolding free_in
count_free_pages a = free_in a.pages

abbrev pub free_at : Option Page → Bool
free_at none = false
free_at (some p) = is_free p

-- The first of the `n` indexes from `i` on whose page is in use.
unfoldable pub blocked : ℕ → ℕ → List Page → Option ℕ
blocked zero i ps = none
blocked (suc n) i ps =
    let rest = blocked n (i + 1) ps in if free_at (get_elem? ps i) then rest else some i

-- The search for `count` free pages in a row, from index `start` on; the outer `none` says that the
-- rounds ran out.
unfoldable pub find_run : ℕ → ℕ → ℕ → List Page → Option (Option ℕ)
unfolding blocked
find_run zero start count ps = none
find_run (suc rounds) start count ps =
    if ltb (length ps) (start + count) then some none else elim (blocked count start ps) [
      | none ↦ some (some start)
      | some i ↦ find_run rounds (i + 1) count ps
    ]

unfoldable pub mark_run : ℕ → ℕ → List Page → List Page
unfolding change
mark_run zero start ps = ps
mark_run (suc n) start ps = mark_run n (start + 1) (change taken start ps)

-- `n` pages from `paddr` on are freed, the status of each dropped.
unfoldable pub free_run : ℕ → ℕ → Arena → Arena
unfolding free_page
free_run zero paddr a = a
free_run (suc n) paddr a =
    free_run n ((paddr + page_size) % 2 ^ 64) (free_page (paddr % 2 ^ 64) a).1

unfoldable pub reserve_run : ℕ → ℕ → Arena → Arena
unfolding change
reserve_run zero paddr a = a
reserve_run (suc n) paddr a =
    reserve_run n ((paddr + page_size) % 2 ^ 64)
      (record a { pages = change held_back (offset a paddr / page_size) a.pages })
