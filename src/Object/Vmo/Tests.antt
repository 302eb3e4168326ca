-- ===== src/Object/Vmo/Tests.antt =====
-- A VMO with one page that is written and cloned, on a small memory.
use rustux.Base.{
  ℕ, zero, suc, ◌+◌, ◌%◌, ◌^◌, ◌≡◌, ◌⊎◌, refl, true, Bool, none, some, List, [], ◌∷◌, arith, ok,
  err, returns, failed_to_allocate_user_page, failed_to_allocate_page_for_clone,
}
use rustux.Mm.Pmm.Pages.{Arena, ArenaInfo, arena_init, page_count, alloc_page}
use rustux.Mm.Pmm.{pmm_add_arena, pmm_alloc_page, pmm_alloc_user_page, skips}
use rustux.Mm.Pmm.Validity.{IsValid}
use rustux.Mm.Pmm.Arenas.{pmm_add_arena_lem, empty-IsValid}
use rustux.Object.Rights
use rustux.Object.Handle.{object}
use rustux.Object.Vmo.{Vmo, PageMap, lookup, insert, fresh_entry, default, Memory, flags_empty}
use rustux.Object.Vmo.Pages.{write, clone}
use rustux.Object.Vmo.Source.{Framed, pmm_source}
use rustux.Object.Vmo.Apart.{empty-Holds}
use rustux.Object.Vmo.Allocation.{Sound, insert-Holds}
use rustux.Object.Vmo.Allocation.{Spins, Refused}
use rustux.Object.Vmo.Writes.{room, ReadsBack, write_cases}
use rustux.Object.Vmo.Cloning.{Unique}
use rustux.Object.Vmo.Clones.{IsClone, clone_cases}

-- Four pages of user memory at 2 MB.
abbrev user_zone : ArenaInfo
user_zone = record { name = []; flags = 0x8; priority = 0; base = 0x200000; size = 0x4000 }

abbrev always : ℕ → Bool
always n = true

abbrev arenas : List Arena
arenas = (pmm_add_arena always user_zone []).1

arenas-IsValid : IsValid arenas
arenas-IsValid = (pmm_add_arena_lem always user_zone [] empty-IsValid (omega arith) (λ k a e. cc)).0

arenas-Framed : Framed arenas
unfolding Framed pmm_add_arena arena_init page_count
arenas-Framed zero a e = ground arith
arenas-Framed (suc k) a e = cc

abbrev arenas_after : List Arena
arenas_after = elim (pmm_alloc_user_page arenas) [ none ↦ arenas | some (r, after) ↦ after ]

gives_page : pmm_alloc_user_page arenas ≡ some (ok 0x200000, arenas_after)
unfolding pmm_alloc_user_page pmm_alloc_page pmm_add_arena page_count skips arena_init alloc_page
gives_page = refl

abbrev one_page : PageMap
one_page = insert 0 (fresh_entry 0x200000) []

empty-Sound : Sound pmm_source [] arenas
empty-Sound = ((arenas-IsValid, arenas-Framed), empty-Holds (pmm_source.InUse arenas))

one_page-Sound : Sound pmm_source one_page arenas_after
unfolding lookup
one_page-Sound =
    (insert-Holds pmm_source 0 0x200000 [] arenas arenas_after empty-Sound refl gives_page).0

one_page-Unique : Unique one_page
unfolding Unique insert lookup
one_page-Unique = (refl, tt)

abbrev vmo : Vmo
vmo = record {
  base = object Rights.vmo;
  id = 1;
  size = 0x2000;
  flags = flags_empty;
  cache_policy = default;
  pages = one_page;
  parent = none;
}

abbrev blank : Memory
blank a = 0

-- Across the end of the page that is there.
write_cases_example :
    ((write pmm_source 0xfff (7 ∷ 8 ∷ []) vmo blank arenas_after ≡ none) × Spins pmm_source)
    ⊎ ((pages' : PageMap) × (s' : List Arena) × (write pmm_source 0xfff
            (7 ∷ 8 ∷ [])
            vmo
            blank
            arenas_after
          ≡ some (
              returns (err failed_to_allocate_user_page, record vmo { pages = pages' }, blank, s')))
        × Refused pmm_source s')
    ⊎ ((v' : Vmo) × (m' : Memory) × (s' : List Arena) × (write pmm_source 0xfff
            (7 ∷ 8 ∷ [])
            vmo
            blank
            arenas_after
          ≡ some (returns (ok (room pmm_source 0xfff (7 ∷ 8 ∷ []) vmo), v', m', s')))
        × ReadsBack pmm_source 0xfff (7 ∷ 8 ∷ []) vmo blank v' m' s')
write_cases_example =
    write_cases pmm_source 0xfff (7 ∷ 8 ∷ []) vmo blank arenas_after one_page-Sound (omega arith)
      (omega arith)

clone_cases_example :
    (clone pmm_source vmo 2 blank arenas_after ≡ none)
    ⊎ ((m' : Memory) × (s' : List Arena) × (clone pmm_source vmo 2 blank arenas_after
          ≡ some (err failed_to_allocate_page_for_clone, m', s')))
    ⊎ ((child : Vmo) × (m' : Memory) × (s' : List Arena) × (clone pmm_source vmo 2 blank
            arenas_after
          ≡ some (ok (child, (2 + 1) % 2 ^ 64), m', s'))
        × IsClone pmm_source vmo blank child m' s')
clone_cases_example =
    clone_cases pmm_source vmo 2 blank arenas_after one_page-Sound one_page-Unique (omega arith)
      (omega arith) (omega arith)
