-- ===== src/Object/Vmo/Allocation.antt =====
-- The pages that `write` of src/object/vmo.rs looks for and allocates.
use rustux.Base.{
  ℕ, zero, suc, ◌+◌, ◌-◌, ◌%◌, ◌≤◌, ◌<◌, ◌≡◌, ◌⊎◌, inl, inr, refl, ap, ◌∙◌, sym, Option-cases, none,
  some, List, [], ◌∷◌, arith, ℕ_discrete, dec_lt, subst, ok, err, failed_to_allocate_user_page,
}
use rustux.Mm.Address.{page_size}
use rustux.Object.Vmo.{
  PageMap, PageMapEntry, lookup, insert, or_insert, fresh_entry, page_key, in_page, missing_keys,
}
use rustux.Mm.Pmm.Pages.{Status}
use rustux.Object.Vmo.Pages.{PageSource, allocate_all}
use rustux.Object.Vmo.Apart.{lookup-insert_self, lookup-insert_ne, Holds}

abbrev pub Member : ℕ → List ℕ → Type 0
Member key [] = ⊥
Member key (k ∷ ks) = (key ≡ k) ⊎ Member key ks

-- The first pass finds every page that is missing.
pub missing_keys-Member :
    (rounds offset n : ℕ) (pages : PageMap) (i : ℕ)
    → n ≤ rounds
    → i < n
    → ((e : PageMapEntry) × (lookup (page_key (offset + i)) pages ≡ some e))
      ⊎ Member (page_key (offset + i)) (missing_keys rounds offset n pages)
unfolding missing_keys
missing_keys-Member zero offset n pages i hn hi = absurd (omega arith)
missing_keys-Member (suc rounds) offset zero pages i hn hi = absurd (omega arith)
missing_keys-Member (suc rounds) offset (suc left) pages i hn hi =
    let n = in_page offset (suc left) in
    elim (dec_lt i n) [
      | yes near ↦
          let same : page_key (offset + i) ≡ page_key offset = omega arith in
          elim (Option-cases (lookup (page_key offset) pages)) [
            | inl missing ↦ inr (rw missing (inl same))
            | inr (e, found) ↦ inl (e, ap (λ k. lookup k pages) same ∙ found)
          ]
      | no far ↦
          let there : offset + n + (i - n) ≡ offset + i = omega arith in
          let later =
            missing_keys-Member rounds (offset + n) (suc left - n) pages (i - n) (omega arith)
              (omega arith) in
          elim (rw there at later) [
            | inl found ↦ inl found
            | inr member ↦ inr (elim (Option-cases (lookup (page_key offset) pages)) [
              | inl missing ↦ rw missing (inr member)
              | inr (e, found) ↦ rw found member
            ])
          ]
    ]

module _ (src : PageSource) where
  -- A map that got its pages from the source in a state `s`.
  abbrev pub Sound : PageMap → src.State → Type 0
  Sound pages s = src.IsValid s × Holds (src.InUse s) pages

  -- The map `pages'` has the entries of `pages`.
  abbrev pub Extends : PageMap → PageMap → Type 0
  Extends pages pages' =
      (k : ℕ) (e : PageMapEntry) → lookup k pages ≡ some e → lookup k pages' ≡ some e

  pub insert-Holds :
      (key p : ℕ) (pages : PageMap) (s s' : src.State)
      → Sound pages s
      → lookup key pages ≡ none
      → src.alloc s ≡ some (ok p, s')
      → Sound (insert key (fresh_entry p) pages) s'
        × Extends pages (insert key (fresh_entry p) pages)
  insert-Holds key p pages s s' (valid, h) missing e =
      let (valid', aligned, below, unused, used, kept) = src.gives s s' p valid e in
      let at : (k : ℕ) (f : PageMapEntry)
          → lookup k (insert key (fresh_entry p) pages) ≡ some f
          → ((k ≡ key) × (f ≡ fresh_entry p)) ⊎ (lookup k pages ≡ some f) =
        λ k f found. elim (ℕ_discrete key k) [
          | yes same ↦
              let self : lookup k (insert key (fresh_entry p) pages) ≡ some (fresh_entry p) =
                ap (λ j. lookup j (insert key (fresh_entry p) pages)) (sym same)
                ∙ lookup-insert_self key (fresh_entry p) pages in
              inl (sym same, cc)
          | no differ ↦ inr (sym (lookup-insert_ne key k (fresh_entry p) pages differ) ∙ found)
        ] in
      (
        (
          valid',
          record {
            present = λ k f found. elim (at k f found) [
              | inl (same, is) ↦ ap (λ x. x.present) is
              | inr old ↦ h.present k f old
            ];
            aligned = λ k f found. elim (at k f found) [
              | inl (same, is) ↦ ap (λ x. x.paddr % page_size) is ∙ aligned
              | inr old ↦ h.aligned k f old
            ];
            below = λ k f found. elim (at k f found) [
              | inl (same, is) ↦ omega (arith, ap (λ x. x.paddr) is, below)
              | inr old ↦ h.below k f old
            ];
            in_use = λ k f found. elim (at k f found) [
              | inl (same, is) ↦ subst (src.InUse s') (sym (ap (λ x. x.paddr) is)) used
              | inr old ↦ kept f.paddr (h.in_use k f old)
            ];
            apart = λ k k' f f' found found' same_frame. elim (at k f found) [
              | inl (same, is) ↦ elim (at k' f' found') [
                | inl (same', is') ↦ same ∙ sym same'
                | inr old' ↦ absurd (
                    unused (
                      subst (src.InUse s) (sym same_frame ∙ ap (λ x. x.paddr) is)
                        (h.in_use k' f' old')))
              ]
              | inr old ↦ elim (at k' f' found') [
                | inl (same', is') ↦ absurd (
                    unused
                      (subst (src.InUse s) (same_frame ∙ ap (λ x. x.paddr) is') (h.in_use k f old)))
                | inr old' ↦ h.apart k k' f f' old old' same_frame
              ]
            ];
          },
        ),
        λ k f old. elim (ℕ_discrete key k) [
          | yes same ↦
              let bad : lookup k pages ≡ none = ap (λ j. lookup j pages) (sym same) ∙ missing in cc
          | no differ ↦ lookup-insert_ne key k (fresh_entry p) pages differ ∙ old
        ],
      )

  or_insert-Holds :
      (key p : ℕ) (pages : PageMap) (s s' : src.State)
      → Sound pages s
      → src.alloc s ≡ some (ok p, s')
      → Sound (or_insert key (fresh_entry p) pages) s'
        × Extends pages (or_insert key (fresh_entry p) pages)
        × ((e : PageMapEntry) × (lookup key (or_insert key (fresh_entry p) pages) ≡ some e))
  or_insert-Holds key p pages s s' (valid, h) e = elim (Option-cases (lookup key pages)) [
    | inl missing ↦
        let (sound, more) = insert-Holds key p pages s s' (valid, h) missing e in
        rw missing (sound, more, (fresh_entry p, lookup-insert_self key (fresh_entry p) pages))
    | inr (f, found) ↦
        let (valid', aligned, below, unused, used, kept) = src.gives s s' p valid e in
        let still : Holds (src.InUse s') pages = record {
          present = h.present;
          aligned = h.aligned;
          below = h.below;
          in_use = λ k g at. kept g.paddr (h.in_use k g at);
          apart = h.apart;
        } in
        rw found ((valid', still), λ k g old. old, (f, found))
  ]

  -- The source does not return from a call.
  abbrev pub Spins : Type 0
  Spins = (s : src.State) × (src.alloc s ≡ none)

  -- The state is that of the source after it has refused a page.
  abbrev pub Refused : src.State → Type 0
  Refused s' = (s : src.State) × (x : Status) × (src.alloc s ≡ some (err x, s'))

  -- The second pass: unless an allocation spins or fails, the map has the pages then.
  pub allocate_all-cases :
      (keys : List ℕ) (pages : PageMap) (s : src.State)
      → Sound pages s
      → ((allocate_all src keys pages s ≡ none) × Spins)
        ⊎ ((pages' : PageMap) × (s' : src.State) × (allocate_all src keys pages s
              ≡ some (err failed_to_allocate_user_page, pages', s'))
            × Refused s')
        ⊎ ((pages' : PageMap) × (s' : src.State) × (allocate_all src keys pages s
              ≡ some (ok tt, pages', s'))
            × Sound pages' s'
            × Extends pages pages'
            × ((key : ℕ) → Member key keys → (e : PageMapEntry) × (lookup key pages' ≡ some e)))
  unfolding allocate_all
  allocate_all-cases [] pages s sound =
      inr (inr (pages, s, refl, sound, λ k e old. old, λ key member. absurd member))
  allocate_all-cases (key ∷ keys) pages s sound = elim (Option-cases (src.alloc s)) [
    | inl spins ↦ inl (rw spins refl, (s, spins))
    | inr ((err e, s1), fails) ↦ inr (inl (pages, s1, rw fails refl, (s, e, fails)))
    | inr ((ok p, s1), gives) ↦
        let (sound1, more, here) = or_insert-Holds key p pages s s1 sound gives in
        elim (allocate_all-cases keys (or_insert key (fresh_entry p) pages) s1 sound1) [
          | inl (spins, why) ↦ inl (rw gives spins, why)
          | inr (inl (pages', s', fails, why)) ↦ inr (inl (pages', s', rw gives fails, why))
          | inr (inr (pages', s', done, sound', more', members)) ↦ inr (
              inr (
                pages',
                s',
                rw gives done,
                sound',
                λ k e old. more' k e (more k e old),
                λ k member. elim member [
                  | inl same ↦ (here.0, ap (λ j. lookup j pages') same ∙ more' key here.0 here.1)
                  | inr later ↦ members k later
                ],
              ))
        ]
  ]
