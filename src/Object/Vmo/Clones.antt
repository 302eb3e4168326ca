-- ===== src/Object/Vmo/Clones.antt =====
-- What `clone` of src/object/vmo.rs gives: the same bytes, on pages of its own.
use rustux.Base.{
  ℕ, ◌+◌, ◌%◌, ◌^◌, ◌<◌, ◌≡◌, ◌≢◌, ◌⊎◌, inl, inr, refl, ap, ◌∙◌, sym, subst, false, Option-cases,
  none, some, [], arith, ◌==◌, ok, err, failed_to_allocate_page_for_clone,
}
use rustux.Object.Rights
use rustux.Object.Handle.{object}
use rustux.Mm.Address.{page_size}
use rustux.Object.Vmo.{
  Vmo, PageMap, lookup, page_key, Memory, create, round_up, flags_empty, is_cow, default,
}
use rustux.Object.Vmo.Pages.{PageSource, clone}
use rustux.Object.Vmo.Bytes.{location, byte_at}
use rustux.Object.Vmo.Apart.{empty-Holds, located-some, vaddr-injective}
use rustux.Object.Vmo.Allocation.{Sound}
use rustux.Object.Vmo.Cloning.{Unique, Copying, clone_pages_cases}

-- Nothing is copied yet.
start_Copying :
    (src : PageSource) (pages : PageMap) (m : Memory) (s : src.State)
    → src.IsValid s
    → Copying src s pages m pages [] m s
unfolding lookup
start_Copying src pages m s valid = record {
  valid = valid;
  holds = empty-Holds (src.InUse s);
  grows = λ q u. u;
  own = λ k f at. cc;
  intact = λ q i u aligned below lt. refl;
  copied = λ k f at. cc;
  covers = λ k e at. inr at;
  left = λ k e at. at;
}

-- The clone's bytes are those that the VMO had, the VMO's bytes stay in place, and none of them is one
-- of the clone's.
abbrev pub IsClone : (src : PageSource) → Vmo → Memory → Vmo → Memory → src.State → Type 0
IsClone src v m child m' s' =
    (child.size ≡ v.size)
    × (is_cow child.flags ≡ false)
    × Sound src child.pages s'
    × ((i : ℕ) → byte_at m' (location child.pages i) ≡ byte_at m (location v.pages i))
    × ((i a : ℕ)
        → location v.pages i ≡ some a
        → (m' a ≡ m a) × ((j : ℕ) → location child.pages j ≢ some a))

module _ (src : PageSource) (s : src.State) (v : Vmo) (m : Memory) (child : PageMap) (m' : Memory)
    (s' : src.State) (sound : Sound src v.pages s)
    (c : Copying src s v.pages m [] child m' s') where
  same_bytes : (i : ℕ) → byte_at m' (location child i) ≡ byte_at m (location v.pages i)
  unfolding location lookup
  same_bytes i = elim (Option-cases (lookup (page_key i) child)) [
    | inr (f, found) ↦
        let (e, at, same) = c.copied (page_key i) f found in
        rw (found, at) (same (i % page_size) (omega arith))
    | inl missing ↦ elim (Option-cases (lookup (page_key i) v.pages)) [
      | inl nothing ↦ rw (missing, nothing) refl
      | inr (e, at) ↦ elim (c.covers (page_key i) e at) [ inl (f, found) ↦ cc | inr left ↦ cc ]
    ]
  ]

  stays : (i a : ℕ) → location v.pages i ≡ some a → m' a ≡ m a
  unfolding location
  stays i a at =
      let (e, found, address) = located-some i a (lookup (page_key i) v.pages) at in
      let h = sound.1 in
      ap m' (sym address)
      ∙ c.intact e.paddr (i % page_size) (h.in_use (page_key i) e found)
          (h.aligned (page_key i) e found) (h.below (page_key i) e found) (omega arith)
      ∙ ap m address

  separate : (i a j : ℕ) → location v.pages i ≡ some a → location child j ≢ some a
  unfolding location
  separate i a j at at' =
      let (e, found, address) = located-some i a (lookup (page_key i) v.pages) at in
      let (f, found', address') = located-some j a (lookup (page_key j) child) at' in
      let h = sound.1 in
      let (same, _) =
        vaddr-injective f.paddr e.paddr (j % page_size) (i % page_size)
          (c.holds.aligned (page_key j) f found') (h.aligned (page_key i) e found)
          (c.holds.below (page_key j) f found') (h.below (page_key i) e found) (omega arith)
          (omega arith) (address' ∙ sym address) in
      c.own (page_key j) f found' (subst (src.InUse s) (sym same) (h.in_use (page_key i) e found))

-- `clone` of a VMO of whole pages that come from the source gives a VMO of the same size with the same
-- bytes, not flagged as copy-on-write: it leaves the parent's bytes as they are, and no address is of
-- both. Else it reports that a page could not be allocated, or spins as the allocator does. The size is
-- not zero and below 2 ^ 63, and each page of the parent has one entry.
pub clone_cases :
    (src : PageSource) (v : Vmo) (next_vmo_id : ℕ) (m : Memory) (s : src.State)
    → Sound src v.pages s
    → Unique v.pages
    → 0 < v.size
    → v.size % page_size ≡ 0
    → v.size < 2 ^ 63
    → (clone src v next_vmo_id m s ≡ none)
      ⊎ ((m' : Memory) × (s' : src.State) × (clone src v next_vmo_id m s
            ≡ some (err failed_to_allocate_page_for_clone, m', s')))
      ⊎ ((child : Vmo) × (m' : Memory) × (s' : src.State) × (clone src v next_vmo_id m s
            ≡ some (ok (child, (next_vmo_id + 1) % 2 ^ 64), m', s'))
          × IsClone src v m child m' s')
unfolding clone create is_cow
clone_cases src v next_vmo_id m s sound unique some_size whole small =
    let nonempty : (v.size == 0) ≡ false = ground arith in
    let rounded : round_up v.size ≡ v.size = omega arith in
    elim (clone_pages_cases src s v.pages m v.pages [] m s sound.1 unique
      (start_Copying src v.pages m s sound.0)) [
        | inl spins ↦ inl (rw (nonempty, spins) refl)
        | inr (inl (pages, m', s', fails)) ↦ inr (inl (m', s', rw (nonempty, fails) refl))
        | inr (inr (pages, m', s', done, c)) ↦ inr (
            inr (
              record {
                base = object Rights.vmo;
                id = next_vmo_id;
                size = round_up v.size;
                flags = flags_empty;
                cache_policy = default;
                pages = pages;
                parent = none;
              },
              m',
              s',
              rw (nonempty, done) refl,
              (
                rounded,
                refl,
                (c.valid, c.holds),
                same_bytes src s v m pages m' s' sound c,
                λ i a at. (
                  stays src s v m pages m' s' sound c i a at,
                  λ j. separate src s v m pages m' s' sound c i a j at,
                ),
              ),
            ))
      ]
