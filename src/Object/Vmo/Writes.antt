-- ===== src/Object/Vmo/Writes.antt =====
-- What `write` of src/object/vmo.rs leaves to be read.
use rustux.Base.{
  ℕ, ◌+◌, ◌-◌, ◌%◌, ◌^◌, ◌≤◌, ◌<◌, ◌≡◌, ◌⊎◌, inl, inr, refl, ap, ◌∙◌, sym, min, false, Option-cases,
  none, some, List, arith, leb, ltb, length, take, length-take, ok, err, returns,
  failed_to_allocate_user_page,
}
use rustux.Mm.Address.{page_size, paddr_to_vaddr_user_zone}
use rustux.Object.Vmo.{Vmo, PageMap, lookup, page_key, Memory, missing_keys, end_of, read}
use rustux.Object.Vmo.Pages.{PageSource, allocate_all, after_store, after_alloc, write}
use rustux.Object.Vmo.Bytes.{located, location, bytes_from, put_bytes, load_lem, store_lem, Covers}
use rustux.Object.Vmo.Apart.{bytes_from-put_bytes, put_bytes-other, location-injective}
use rustux.Object.Vmo.Allocation.{
  missing_keys-Member, Sound, Extends, Spins, Refused, allocate_all-cases,
}

module _ (src : PageSource) where
  -- How many of the bytes fit into the VMO.
  abbrev pub room : ℕ → List ℕ → Vmo → ℕ
  room offset bytes v = min (length bytes) (v.size - offset)

  -- What has been written is read back, and the bytes that had a page before, outside the range that is
  -- written, are as they were; every byte that is written has a page.
  abbrev pub ReadsBack : ℕ → List ℕ → Vmo → Memory → Vmo → Memory → src.State → Type 0
  ReadsBack offset bytes v m v' m' s' =
      (read offset (length bytes) v' m' ≡ returns (ok (take (room offset bytes v) bytes)))
      × (v'.size ≡ v.size)
      × Sound src v'.pages s'
      × ((i a : ℕ)
          → (i < offset) ⊎ (offset + room offset bytes v ≤ i)
          → location v.pages i ≡ some a
          → (location v'.pages i ≡ some a) × (m' a ≡ m a))
      × ((i : ℕ) → i < room offset bytes v → (a : ℕ) × (location v'.pages (offset + i) ≡ some a))

  pub read_within :
      (offset len n : ℕ) (v : Vmo) (m : Memory)
      → offset < v.size
      → offset + len < 2 ^ 64
      → n ≡ min len (v.size - offset)
      → read offset len v m ≡ returns (ok (bytes_from v.pages offset n m))
  unfolding read
  read_within offset len n v m inside fits is =
      let within : leb v.size offset ≡ false = ground arith in
      let ordered : ltb (end_of offset len v) offset ≡ false = ground arith in
      let same : end_of offset len v - offset ≡ n = omega arith in
      rw (within, ordered, same)
        (ap (λ bs. returns (ok bs)) (load_lem n offset n v.pages m (omega arith)))

  write_within :
      (offset : ℕ) (bytes : List ℕ) (n : ℕ) (v : Vmo) (m : Memory) (s : src.State)
      → offset < v.size
      → offset + length bytes < 2 ^ 64
      → n ≡ room offset bytes v
      → write src offset bytes v m s
        ≡ after_alloc src n offset
            (take n bytes)
            v
            m
            (allocate_all src (missing_keys n offset n v.pages) v.pages s)
  unfolding write
  write_within offset bytes n v m s inside fits is =
      let within : leb v.size offset ≡ false = ground arith in
      let ordered : ltb (end_of offset (length bytes) v) offset ≡ false = ground arith in
      let same : end_of offset (length bytes) v - offset ≡ n = omega arith in
      rw (within, ordered, same) refl

  extended-location :
      (pages pages' : PageMap) (i a : ℕ)
      → Extends src pages pages'
      → location pages i ≡ some a
      → location pages' i ≡ some a
  unfolding location
  extended-location pages pages' i a more e = elim (Option-cases (lookup (page_key i) pages)) [
    | inl missing ↦ cc (rw missing at e)
    | inr (f, found) ↦ ap (located i) (more (page_key i) f found) ∙ ap (located i) (sym found) ∙ e
  ]

  covered-location :
      (pages : PageMap) (offset n i : ℕ)
      → Covers pages offset n
      → i < n
      → (a : ℕ) × (location pages (offset + i) ≡ some a)
  unfolding location
  covered-location pages offset n i covers lt =
      let (e, found, present) = covers i lt in
      (paddr_to_vaddr_user_zone e.paddr + (offset + i) % page_size, ap (located (offset + i)) found)

  -- Once the pages are there, what is stored is read back.
  stored-ReadsBack :
      (offset : ℕ) (bytes : List ℕ) (v : Vmo) (m : Memory) (pages' : PageMap) (s' : src.State)
      → offset < v.size
      → offset + length bytes < 2 ^ 64
      → Sound src pages' s'
      → Extends src v.pages pages'
      → Covers pages' offset (room offset bytes v)
      → ReadsBack offset bytes v m
          (record v { pages = pages' })
          (put_bytes pages' offset (take (room offset bytes v) bytes) m)
          s'
  stored-ReadsBack offset bytes v m pages' s' inside fits sound more covers =
      let n = room offset bytes v in
      let count : length (take n bytes) ≡ n = omega (arith, length-take n bytes) in
      let m' = put_bytes pages' offset (take n bytes) m in
      let all =
        bytes_from-put_bytes (src.InUse s') pages' offset (take n bytes) m sound.1
          (λ i lt. covered-location pages' offset n i covers (omega arith)) in
      (
        read_within offset (length bytes) n (record v { pages = pages' }) m' inside fits refl
            ∙ ap (λ bs. returns (ok bs))
                (ap (λ k. bytes_from pages' offset k m') (sym count) ∙ all),
        refl,
        sound,
        λ i a out at.
            let at' = extended-location v.pages pages' i a more at in
            (
              at',
              put_bytes-other pages' offset a (take n bytes) m (λ j lt e.
                  let same =
                    location-injective (src.InUse s') pages' i (offset + j) a sound.1 at' e in
                  elim out [ inl before ↦ omega arith | inr after ↦ omega arith ]),
            ),
        λ i lt. covered-location pages' offset n i covers lt,
      )

  -- `write` at an offset within the VMO, whose pages come from the source, writes the bytes that fit, or
  -- reports that a page could not be allocated, which the source has refused just before, or spins, where
  -- the source does not return from a call. If it writes, `read` of
  -- as many bytes at the offset gives them back, and every byte outside the range that had a page keeps
  -- its place and its value. The end of the bytes is below 2 ^ 64.
  pub write_cases :
      (offset : ℕ) (bytes : List ℕ) (v : Vmo) (m : Memory) (s : src.State)
      → Sound src v.pages s
      → offset < v.size
      → offset + length bytes < 2 ^ 64
      → ((write src offset bytes v m s ≡ none) × Spins src)
        ⊎ ((pages' : PageMap) × (s' : src.State) × (write src offset bytes v m s
              ≡ some
                  (returns (err failed_to_allocate_user_page, record v { pages = pages' }, m, s')))
            × Refused src s')
        ⊎ ((v' : Vmo) × (m' : Memory) × (s' : src.State) × (write src offset bytes v m s
              ≡ some (returns (ok (room offset bytes v), v', m', s')))
            × ReadsBack offset bytes v m v' m' s')
  write_cases offset bytes v m s sound inside fits =
      let n = room offset bytes v in
      let same = write_within offset bytes n v m s inside fits refl in
      elim (allocate_all-cases src (missing_keys n offset n v.pages) v.pages s sound) [
        | inl (spins, why) ↦
            inl (same ∙ ap (after_alloc src n offset (take n bytes) v m) spins, why)
        | inr (inl (pages', s', fails, why)) ↦
            inr
              (inl (pages', s', same ∙ ap (after_alloc src n offset (take n bytes) v m) fails, why))
        | inr (inr (pages', s', done, sound', more, members)) ↦
            let count : length (take n bytes) ≡ n = omega (arith, length-take n bytes) in
            let covers : Covers pages' offset n = λ i lt.
              elim (missing_keys-Member n offset n v.pages i (omega arith) lt) [
                | inl (e, found) ↦ (
                  e,
                  more (page_key (offset + i)) e found,
                  sound'.1.present (page_key (offset + i)) e (more (page_key (offset + i)) e found),
                )
                | inr member ↦
                    let (e, found) = members (page_key (offset + i)) member in
                    (e, found, sound'.1.present (page_key (offset + i)) e found)
              ] in
            let stored =
              store_lem n offset (take n bytes) pages' m (omega arith)
                (λ i lt. covers i (omega arith)) in
            inr (
              inr (
                record v { pages = pages' },
                put_bytes pages' offset (take n bytes) m,
                s',
                same
                    ∙ ap (after_alloc src n offset (take n bytes) v m) done
                    ∙ ap (after_store src n (record v { pages = pages' }) s') stored,
                stored-ReadsBack offset bytes v m pages' s' inside fits sound' more covers,
              ))
      ]
