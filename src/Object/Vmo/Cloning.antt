-- ===== src/Object/Vmo/Cloning.antt =====
-- The loop of `clone` in src/object/vmo.rs over the pages.
use rustux.Base.{
  ℕ, ◌+◌, ◌%◌, ◌^◌, ◌<◌, ◌≡◌, ◌≢◌, ◌⊎◌, inl, inr, refl, ap, ◌∙◌, sym, subst, true, false,
  Option-cases, none, some, [], ◌∷◌, arith, ◌==◌, ℕ_discrete, ok, err,
  failed_to_allocate_page_for_clone,
}
use rustux.Mm.Address.{page_size, paddr_to_vaddr_user_zone}
use rustux.Object.Vmo.{PageMap, PageMapEntry, lookup, insert, fresh_entry, Memory}
use rustux.Object.Vmo.Pages.{PageSource, copy_page, clone_pages}
use rustux.Object.Vmo.Apart.{Holds, lookup-insert_self, lookup-insert_ne, vaddr-injective}
use rustux.Object.Vmo.Copies.{Frames, copy_page-outside, copy_page-inside}

-- Each key has one entry.
unfoldable pub Unique : PageMap → Type 0
Unique [] = Unit
Unique ((k, e) ∷ ps) = (lookup k ps ≡ none) × Unique ps

-- What an entry of a map after an insertion is.
lookup-insert_cases :
    (key k : ℕ) (e f : PageMapEntry) (pages : PageMap)
    → lookup k (insert key e pages) ≡ some f
    → ((k ≡ key) × (f ≡ e)) ⊎ ((key ≢ k) × (lookup k pages ≡ some f))
lookup-insert_cases key k e f pages found = elim (ℕ_discrete key k) [
  | yes same ↦
      let self : lookup k (insert key e pages) ≡ some e =
        ap (λ j. lookup j (insert key e pages)) (sym same) ∙ lookup-insert_self key e pages in
      inl (sym same, cc)
  | no differ ↦ inr (differ, sym (lookup-insert_ne key k e pages differ) ∙ found)
]

module _ (src : PageSource) (start : src.State) (parent : PageMap) (m0 : Memory) where
  -- Between two rounds of the loop, with the pages `rest` to come: `child` has copies of the others on
  -- frames that were not in use at the start, and no byte of a frame that was has changed.
  pub record Copying (rest child : PageMap) (m : Memory) (s : src.State) : Type 0 where
    pub valid : src.IsValid s
    pub holds : Holds (src.InUse s) child
    pub grows : (q : ℕ) → src.InUse start q → src.InUse s q
    pub own : (k : ℕ) (f : PageMapEntry) → lookup k child ≡ some f → ¬ src.InUse start f.paddr
    pub intact :
        (q i : ℕ)
        → src.InUse start q
        → q % page_size ≡ 0
        → q < 2 ^ 46
        → i < page_size
        → m (paddr_to_vaddr_user_zone q + i) ≡ m0 (paddr_to_vaddr_user_zone q + i)
    pub copied :
        (k : ℕ) (f : PageMapEntry)
        → lookup k child ≡ some f
        → (e : PageMapEntry) × (lookup k parent ≡ some e)
          × ((i : ℕ)
              → i < page_size
              → m (paddr_to_vaddr_user_zone f.paddr + i)
                ≡ m0 (paddr_to_vaddr_user_zone e.paddr + i))
    pub covers :
        (k : ℕ) (e : PageMapEntry)
        → lookup k parent ≡ some e
        → ((f : PageMapEntry) × (lookup k child ≡ some f)) ⊎ (lookup k rest ≡ some e)
    pub left : (k : ℕ) (e : PageMapEntry) → lookup k rest ≡ some e → lookup k parent ≡ some e

  -- One round: the page under `key` gets a copy on the frame `p`.
  copies_one :
      (key p : ℕ) (e : PageMapEntry) (rest child : PageMap) (m : Memory) (s s' : src.State)
      → Holds (src.InUse start) parent
      → Unique ((key, e) ∷ rest)
      → Copying ((key, e) ∷ rest) child m s
      → src.alloc s ≡ some (ok p, s')
      → Copying rest (insert key (fresh_entry p) child) (copy_page 16 0 e.paddr p m) s'
  unfolding Unique lookup
  copies_one key p e rest child m s s' h (absent, unique) c gives =
      let (valid', aligned, below, unused, used, kept) = src.gives s s' p c.valid gives in
      let child' = insert key (fresh_entry p) child in
      let m' = copy_page 16 0 e.paddr p m in
      let self : (key == key) ≡ true = ground arith in
      let here : lookup key parent ≡ some e = c.left key e (rw self refl) in
      let from_used = h.in_use key e here in
      let from_aligned = h.aligned key e here in
      let from_below = h.below key e here in
      let frames : Frames e.paddr p = record {
        aligned = (from_aligned, aligned);
        below = (from_below, below);
      } in
      let new_frame : (q : ℕ) → src.InUse s q → q ≢ p =
        λ q in_use same. unused (subst (src.InUse s) same in_use) in
      let untouched : (q i : ℕ)
          → src.InUse s q
          → q % page_size ≡ 0
          → q < 2 ^ 46
          → i < page_size
          → m' (paddr_to_vaddr_user_zone q + i) ≡ m (paddr_to_vaddr_user_zone q + i) =
        λ q i u qa qb lt.
          copy_page-outside 16 0 e.paddr p (paddr_to_vaddr_user_zone q + i) m frames
            (λ j ge lt' same.
              new_frame q u (sym (vaddr-injective p q j i aligned qa below qb lt' lt same).0)) in
      record {
        valid = valid';
        holds = record {
          present = λ k f found. elim (lookup-insert_cases key k (fresh_entry p) f child found) [
            | inl (_, is) ↦ ap (λ x. x.present) is
            | inr (_, old) ↦ c.holds.present k f old
          ];
          aligned = λ k f found. elim (lookup-insert_cases key k (fresh_entry p) f child found) [
            | inl (_, is) ↦ ap (λ x. x.paddr % page_size) is ∙ aligned
            | inr (_, old) ↦ c.holds.aligned k f old
          ];
          below = λ k f found. elim (lookup-insert_cases key k (fresh_entry p) f child found) [
            | inl (_, is) ↦ omega (arith, ap (λ x. x.paddr) is, below)
            | inr (_, old) ↦ c.holds.below k f old
          ];
          in_use = λ k f found. elim (lookup-insert_cases key k (fresh_entry p) f child found) [
            | inl (_, is) ↦ subst (src.InUse s') (sym (ap (λ x. x.paddr) is)) used
            | inr (_, old) ↦ kept f.paddr (c.holds.in_use k f old)
          ];
          apart = λ k k' f f' found found' same.
              elim (lookup-insert_cases key k (fresh_entry p) f child found) [
                | inl (at, is) ↦ elim (lookup-insert_cases key k' (fresh_entry p) f' child found') [
                  | inl (at', is') ↦ at ∙ sym at'
                  | inr (_, old') ↦ absurd (
                      new_frame f'.paddr (c.holds.in_use k' f' old')
                        (sym same ∙ ap (λ x. x.paddr) is))
                ]
                | inr (_, old) ↦ elim (lookup-insert_cases key k' (fresh_entry p) f' child found') [
                  | inl (at', is') ↦
                      absurd
                        (new_frame f.paddr (c.holds.in_use k f old) (same ∙ ap (λ x. x.paddr) is'))
                  | inr (_, old') ↦ c.holds.apart k k' f f' old old' same
                ]
              ];
        };
        grows = λ q u. kept q (c.grows q u);
        own = λ k f found. elim (lookup-insert_cases key k (fresh_entry p) f child found) [
          | inl (_, is) ↦ λ u. unused (c.grows p (subst (src.InUse start) (ap (λ x. x.paddr) is) u))
          | inr (_, old) ↦ c.own k f old
        ];
        intact = λ q i u qa qb lt. untouched q i (c.grows q u) qa qb lt ∙ c.intact q i u qa qb lt;
        copied = λ k f found. elim (lookup-insert_cases key k (fresh_entry p) f child found) [
          | inl (at, is) ↦ (
            e,
            ap (λ j. lookup j parent) at ∙ here,
            λ i lt.
                ap (λ x. m' (paddr_to_vaddr_user_zone x + i)) (ap (λ x. x.paddr) is)
                ∙ copy_page-inside 16 0 e.paddr p i m frames
                    (λ same. new_frame e.paddr (c.grows e.paddr from_used) same) (omega arith) lt
                    (omega arith)
                ∙ c.intact e.paddr i from_used from_aligned from_below lt,
          )
          | inr (_, old) ↦
              let (e', at, same) = c.copied k f old in
              (
                e',
                at,
                λ i lt.
                    untouched f.paddr i (c.holds.in_use k f old) (c.holds.aligned k f old)
                      (c.holds.below k f old) lt
                    ∙ same i lt,
              )
        ];
        covers = λ k e' at. elim (ℕ_discrete key k) [
          | yes same ↦ inl (
            fresh_entry p,
            ap (λ j. lookup j child') (sym same) ∙ lookup-insert_self key (fresh_entry p) child,
          )
          | no differ ↦ elim (c.covers k e' at) [
            | inl (f, found) ↦ inl (f, lookup-insert_ne key k (fresh_entry p) child differ ∙ found)
            | inr later ↦ let other : (key == k) ≡ false = ground arith in inr (rw other at later)
          ]
        ];
        left = λ k e' at. elim (ℕ_discrete key k) [
          | yes same ↦
              let bad : lookup k rest ≡ none = ap (λ j. lookup j rest) (sym same) ∙ absent in cc
          | no differ ↦ let other : (key == k) ≡ false = ground arith in c.left k e' (rw other at)
        ];
      }

  -- The loop spins as the allocator does, fails, or comes to its end.
  pub clone_pages_cases :
      (rest child : PageMap) (m : Memory) (s : src.State)
      → Holds (src.InUse start) parent
      → Unique rest
      → Copying rest child m s
      → (clone_pages src rest child m s ≡ none)
        ⊎ ((child' : PageMap) × (m' : Memory) × (s' : src.State) × (clone_pages src rest child m s
              ≡ some (err failed_to_allocate_page_for_clone, child', m', s')))
        ⊎ ((child' : PageMap) × (m' : Memory) × (s' : src.State) × (clone_pages src rest child m s
              ≡ some (ok tt, child', m', s'))
            × Copying [] child' m' s')
  unfolding clone_pages Unique lookup
  clone_pages_cases [] child m s h unique c = inr (inr (child, m, s, refl, c))
  clone_pages_cases ((key, e) ∷ rest) child m s h unique c =
      let self : (key == key) ≡ true = ground arith in
      let present = h.present key e (c.left key e (rw self refl)) in
      elim (Option-cases (src.alloc s)) [
        | inl spins ↦ inl (rw (present, spins) refl)
        | inr ((err x, s1), fails) ↦ inr (inl (child, m, s1, rw (present, fails) refl))
        | inr ((ok p, s1), gives) ↦
            let c' = copies_one key p e rest child m s s1 h unique c gives in
            elim (clone_pages_cases rest (insert key (fresh_entry p) child)
              (copy_page 16 0 e.paddr p m) s1 h unique.1 c') [
                | inl spins ↦ inl (rw (present, gives) spins)
                | inr (inl (child', m', s', fails)) ↦
                    inr (inl (child', m', s', rw (present, gives) fails))
                | inr (inr (child', m', s', done, copy)) ↦
                    inr (inr (child', m', s', rw (present, gives) done, copy))
              ]
      ]
