-- ===== src/Object/Vmo/Pages.antt =====
-- The operations of src/object/vmo.rs that take new pages: `write` and `clone`.
use rustux.Base.{
  ℕ, zero, suc, ◌+◌, ◌-◌, ◌%◌, ◌^◌, ◌<◌, ◌≡◌, min, leb, ltb, if◌then◌else◌, Option, none, some,
  List, [], ◌∷◌, true, false, length, take, Result, ok, err, Error, Outcome, returns, panics,
  offset_out_of_bounds, failed_to_allocate_user_page, failed_to_allocate_page_for_clone,
}
use rustux.Mm.Address.{page_size, paddr_to_vaddr_user_zone}
use rustux.Mm.Pmm.Pages.{Status}
use rustux.Object.Vmo.{
  Vmo, PageMap, Memory, copy_to, copy_from, insert, or_insert, fresh_entry, missing_keys, store,
  Stored, end_of, create, flags_empty,
}

-- Whence a VMO gets its pages: `pmm_alloc_user_page`, where `none` is an endless loop. A page that is
-- given is a page frame that was not in use, and is in use from then on.
pub record PageSource : Type 1 where
  pub State : Type 0
  pub alloc : State → Option (Result Status ℕ × State)
  pub IsValid : State → Type 0
  pub InUse : State → ℕ → Type 0
  pub gives :
      (s s' : State) (p : ℕ)
      → IsValid s
      → alloc s ≡ some (ok p, s')
      → IsValid s'
        × (p % page_size ≡ 0)
        × (p < 2 ^ 46)
        × (¬ InUse s p)
        × InUse s' p
        × ((q : ℕ) → InUse s q → InUse s' q)

abbrev pub chunk_size : ℕ
chunk_size = 256

-- The loop of `clone` over one page, by chunks through a buffer.
unfoldable pub copy_page : ℕ → ℕ → ℕ → ℕ → Memory → Memory
copy_page zero offset_in_page from to m = m
copy_page (suc rounds) offset_in_page from to m =
    let n = min chunk_size (page_size - offset_in_page) in
    let buffer = copy_from (paddr_to_vaddr_user_zone (from + offset_in_page)) n m in
    copy_page rounds (offset_in_page + n) from to
      (copy_to (paddr_to_vaddr_user_zone (to + offset_in_page)) buffer m)

module _ (src : PageSource) where
  abbrev pub Allocated : Type 0
  Allocated = Option (Result Error (Unit {0}) × PageMap × src.State)

  abbrev pub with_alloc :
      Option (Result Status ℕ × src.State) → PageMap → (ℕ → src.State → Allocated) → Allocated
  with_alloc none pages k = none
  with_alloc (some (err e, s)) pages k = some (err failed_to_allocate_user_page, pages, s)
  with_alloc (some (ok p, s)) pages k = k p s

  -- The second pass of `write`: the pages with the keys. What was allocated stays after an error.
  unfoldable pub allocate_all : List ℕ → PageMap → src.State → Allocated
  allocate_all [] pages s = some (ok tt, pages, s)
  allocate_all (key ∷ keys) pages s =
      with_alloc (src.alloc s) pages
        (λ p s'. allocate_all keys (or_insert key (fresh_entry p) pages) s')

  abbrev pub Written : Type 0
  Written = Option (Outcome (Result Error ℕ × Vmo × Memory × src.State))

  abbrev pub after_store : ℕ → Vmo → src.State → Stored → Written
  after_store n v s panics = some panics
  after_store n v s (returns (ok u, m)) = some (returns (ok n, v, m, s))
  after_store n v s (returns (err e, m)) = some (returns (err e, v, m, s))

  abbrev pub after_alloc : ℕ → ℕ → List ℕ → Vmo → Memory → Allocated → Written
  after_alloc n offset to_write v m none = none
  after_alloc n offset to_write v m (some (err e, pages, s)) =
      some (returns (err e, record v { pages = pages }, m, s))
  after_alloc n offset to_write v m (some (ok u, pages, s)) =
      after_store n (record v { pages = pages }) s (store n offset to_write pages m)

  unfoldable pub write : ℕ → List ℕ → Vmo → Memory → src.State → Written
  write offset bytes v m s =
      let end = end_of offset (length bytes) v in
      if leb v.size offset
      then some (returns (err offset_out_of_bounds, v, m, s))
      else if ltb end offset
      then some panics
      else after_alloc (end - offset) offset (take (end - offset) bytes) v m
          (allocate_all (missing_keys (end - offset) offset (end - offset) v.pages) v.pages s)

  abbrev pub Cloned : Type 0
  Cloned = Option (Result Error (Unit {0}) × PageMap × Memory × src.State)

  abbrev pub with_copy :
      Option (Result Status ℕ × src.State) → PageMap → Memory → (ℕ → src.State → Cloned) → Cloned
  with_copy none child m k = none
  with_copy (some (err e, s)) child m k = some (err failed_to_allocate_page_for_clone, child, m, s)
  with_copy (some (ok p, s)) child m k = k p s

  -- The loop of `clone` over the parent's pages; `child` has those that are copied.
  unfoldable pub clone_pages : PageMap → PageMap → Memory → src.State → Cloned
  clone_pages [] child m s = some (ok tt, child, m, s)
  clone_pages ((key, e) ∷ pages) child m s = elim e.present [
    | false ↦ clone_pages pages child m s
    | true ↦ with_copy (src.alloc s) child m (λ p s'.
        clone_pages pages (insert key (fresh_entry p) child) (copy_page 16 0 e.paddr p m) s')
  ]

  abbrev pub with_clone : Vmo → ℕ → Cloned → Option (Result Error (Vmo × ℕ) × Memory × src.State)
  with_clone child next_vmo_id none = none
  with_clone child next_vmo_id (some (err e, pages, m, s)) = some (err e, m, s)
  with_clone child next_vmo_id (some (ok u, pages, m, s)) =
      some (ok (record child { pages = pages }, next_vmo_id), m, s)

  abbrev pub clone_into :
      Result Error (Vmo × ℕ)
      → Vmo
      → Memory
      → src.State
      → Option (Result Error (Vmo × ℕ) × Memory × src.State)
  clone_into (err e) v m s = some (err e, m, s)
  clone_into (ok (child, next_vmo_id)) v m s =
      with_clone child next_vmo_id (clone_pages v.pages [] m s)

  -- The clone, with the next VMO's ID.
  unfoldable pub clone :
      Vmo → ℕ → Memory → src.State → Option (Result Error (Vmo × ℕ) × Memory × src.State)
  clone v next_vmo_id m s = clone_into (create v.size flags_empty next_vmo_id) v m s
