-- ===== src/Mm/Pmm/Arenas.antt =====
-- `pmm_add_arena` of src/mm/pmm.rs.
use rustux.Base.{
  ℕ, zero, suc, ◌+◌, ◌*◌, ◌/◌, ◌%◌, ◌^◌, ◌≤◌, ◌<◌, ◌≡◌, ◌≢◌, ◌⊎◌, inl, inr, refl, ap, ◌∙◌, sym,
  subst, Bool, some, List, [], ◌∷◌, ◌++◌, arith, length, get_elem?, Bool-cases, ◌==◌, leb,
}
use rustux.Mm.Address.{page_size}
use rustux.Mm.Pmm.Pages.{
  Page, Arena, ArenaInfo, Status, rx_ok, err_no_memory, err_invalid_args, page, page_count,
  pages_from, arena_init, free_in, is_free, free, count_free_pages, total_count,
}
use rustux.Mm.Pmm.{max_arenas, pmm_add_arena, pmm_count_free_pages, pmm_count_total_pages}
use rustux.Mm.Pmm.Validity.{IsValid, IsPlaced}

length-pages_from : (n i base index : ℕ) → length (pages_from n i base index) ≡ n
unfolding pages_from
length-pages_from zero i base index = refl
length-pages_from (suc n) i base index = ap suc (length-pages_from n (i + 1) base index)

free_in-pages_from : (n i base index : ℕ) → free_in (pages_from n i base index) ≡ n
unfolding pages_from free_in is_free
free_in-pages_from zero i base index = refl
free_in-pages_from (suc n) i base index = omega (arith, free_in-pages_from n (i + 1) base index)

get_elem?-pages_from :
    (n i base index j : ℕ) (p : Page)
    → get_elem? (pages_from n i base index) j ≡ some p
    → (j < n)
      × (p.paddr ≡ (base + (i + j) * page_size) % 2 ^ 64)
      × (p.state ≡ free)
      × (p.ref_count ≡ 0)
unfolding pages_from
get_elem?-pages_from zero i base index j p e = cc
get_elem?-pages_from (suc n) i base index zero p e =
    let same : page ((base + i * page_size) % 2 ^ 64) index (i % 2 ^ 32) ≡ p = cc in
    (
      omega arith,
      sym (ap (λ x. x.paddr) same) ∙ omega arith,
      sym (ap (λ x. x.state) same),
      sym (ap (λ x. x.ref_count) same),
    )
get_elem?-pages_from (suc n) i base index (suc j) p e =
    let (lt, address, st, refs) = get_elem?-pages_from n (i + 1) base index j p e in
    (omega arith, omega (arith, address), st, refs)

-- A new arena is in place.
arena_init-IsPlaced :
    (index : ℕ) (info : ArenaInfo)
    → info.base + info.size < 2 ^ 64
    → IsPlaced (arena_init index info)
unfolding arena_init page_count
arena_init-IsPlaced index info h =
    let size = length-pages_from (info.size / page_size) 0 info.base index in
    record {
      in_memory = h;
      fits = omega (arith, size);
      place = λ i p at.
          let (lt, address, _, _) =
            get_elem?-pages_from (info.size / page_size) 0 info.base index i p at in
          omega (arith, address);
      unused =
          λ i p at _. (get_elem?-pages_from (info.size / page_size) 0 info.base index i p at).3;
    }

-- What stands in a list with one more element.
get_elem?-append_cases {ℓ} :
    {A : Type ℓ} (xs : List A) (y : A) (k : ℕ) (x : A)
    → get_elem? (xs ++ (y ∷ [])) k ≡ some x
    → (get_elem? xs k ≡ some x) ⊎ ((k ≡ length xs) × (x ≡ y))
get_elem?-append_cases [] y zero x e = inr (refl, cc)
get_elem?-append_cases [] y (suc k) x e = cc
get_elem?-append_cases (z ∷ xs) y zero x e = inl e
get_elem?-append_cases (z ∷ xs) y (suc k) x e = elim (get_elem?-append_cases xs y k x e) [
  | inl h ↦ inl h
  | inr (at, same) ↦ inr (ap suc at, same)
]

-- The memory of the arena is apart from that of every other.
abbrev pub IsApart : ArenaInfo → List Arena → Type 0
IsApart info arenas =
    (k : ℕ) (a : Arena)
    → get_elem? arenas k ≡ some a
    → (a.info.base + a.info.size ≤ info.base) ⊎ (info.base + info.size ≤ a.info.base)

swap : {m n k l : ℕ} → (m ≤ n) ⊎ (k ≤ l) → (k ≤ l) ⊎ (m ≤ n)
swap (inl h) = inr h
swap (inr h) = inl h

append-IsValid :
    (arenas : List Arena) (b : Arena)
    → IsValid arenas
    → IsPlaced b
    → IsApart b.info arenas
    → IsValid (arenas ++ (b ∷ []))
append-IsValid arenas b v placed alone = record {
  placed = λ k a at. elim (get_elem?-append_cases arenas b k a at) [
    | inl old ↦ v.placed k a old
    | inr (_, same) ↦ rw same placed
  ];
  apart = λ k l a c hk hl ne. elim (get_elem?-append_cases arenas b k a hk) [
    | inl old ↦ elim (get_elem?-append_cases arenas b l c hl) [
      | inl old' ↦ v.apart k l a c old old' ne
      | inr (_, same) ↦ rw same (alone k a old)
    ]
    | inr (last, same) ↦ elim (get_elem?-append_cases arenas b l c hl) [
      | inl old' ↦ rw same (swap (alone l c old'))
      | inr (last', _) ↦ absurd (ne (last ∙ sym last'))
    ]
  ];
}

abbrev with_arena : ArenaInfo → List Arena → List Arena
with_arena info arenas = arenas ++ (arena_init (length arenas) info ∷ [])

add_cases :
    (memory : ℕ → Bool) (info : ArenaInfo) (arenas : List Arena)
    → ((length arenas < max_arenas)
        × (pmm_add_arena memory info arenas ≡ (rx_ok, with_arena info arenas)))
      ⊎ ((st : Status) × (st ≢ rx_ok) × (pmm_add_arena memory info arenas ≡ (st, arenas)))
unfolding pmm_add_arena
add_cases memory info arenas = elim (Bool-cases (leb max_arenas (length arenas))) [
  | inl many ↦ inr (err_no_memory, λ e. cc, rw many refl)
  | inr few ↦ elim (Bool-cases (page_count info == 0)) [
    | inl small ↦ inr (err_invalid_args, λ e. cc, rw (few, small) refl)
    | inr big ↦ elim (Bool-cases (memory (page_count info))) [
      | inr full ↦ inr (err_no_memory, λ e. cc, rw (few, big, full) refl)
      | inl fits ↦ inl (ground arith, rw (few, big, fits) refl)
    ]
  ]
]

counts-append :
    (arenas : List Arena) (b : Arena)
    → (pmm_count_free_pages (arenas ++ (b ∷ [])) ≡ pmm_count_free_pages arenas + count_free_pages b)
      × (pmm_count_total_pages (arenas ++ (b ∷ [])) ≡ pmm_count_total_pages arenas + total_count b)
unfolding pmm_count_free_pages pmm_count_total_pages
counts-append [] b = (omega arith, omega arith)
counts-append (a ∷ arenas) b =
    let (f, t) = counts-append arenas b in (omega (arith, f), omega (arith, t))

arena_init-counts :
    (index : ℕ) (info : ArenaInfo)
    → (count_free_pages (arena_init index info) ≡ page_count info)
      × (total_count (arena_init index info) ≡ page_count info)
unfolding arena_init count_free_pages
arena_init-counts index info = (
  free_in-pages_from (page_count info) 0 info.base index,
  length-pages_from (page_count info) 0 info.base index,
)

init_info : (index : ℕ) (info : ArenaInfo) → info ≡ (arena_init index info).info
unfolding arena_init
init_info index info = refl

-- An arena whose memory is apart from the others' and ends below 2 ^ 64 keeps the arenas valid. If it
-- is added there were fewer than eight, and all of its pages are free; if not, nothing changes.
pub pmm_add_arena_lem :
    (memory : ℕ → Bool) (info : ArenaInfo) (arenas : List Arena)
    → IsValid arenas
    → info.base + info.size < 2 ^ 64
    → IsApart info arenas
    → IsValid (pmm_add_arena memory info arenas).1
      × (((pmm_add_arena memory info arenas).0 ≡ rx_ok)
            × (length arenas < max_arenas)
            × (pmm_count_free_pages (pmm_add_arena memory info arenas).1
                ≡ pmm_count_free_pages arenas + page_count info)
            × (pmm_count_total_pages (pmm_add_arena memory info arenas).1
                ≡ pmm_count_total_pages arenas + page_count info)
          ⊎ (((pmm_add_arena memory info arenas).0 ≢ rx_ok)
              × ((pmm_add_arena memory info arenas).1 ≡ arenas)))
pmm_add_arena_lem memory info arenas v h alone = elim (add_cases memory info arenas) [
  | inr (st, bad, e) ↦ rw e (v, inr (bad, refl))
  | inl (few, e) ↦
      let (f, t) = counts-append arenas (arena_init (length arenas) info) in
      let (f', t') = arena_init-counts (length arenas) info in
      rw e (
        append-IsValid arenas (arena_init (length arenas) info) v
            (arena_init-IsPlaced (length arenas) info h)
            (subst (λ x. IsApart x arenas) (init_info (length arenas) info) alone),
        inl (refl, few, omega (arith, f, f'), omega (arith, t, t')),
      )
]

-- With no arena at all the arenas are valid.
pub empty-IsValid : IsValid []
empty-IsValid = record { placed = λ k a e. cc; apart = λ k l a b e f ne. cc }
