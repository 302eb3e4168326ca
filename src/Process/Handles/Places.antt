-- ===== src/Process/Handles/Places.antt =====
-- Where the handle table of src/process/mod.rs puts a new handle, and when it is full.
use rustux.Base.{
  ℕ, zero, suc, ◌+◌, ◌-◌, ◌%◌, ◌^◌, ◌<◌, ◌≡◌, ◌≢◌, ◌⊎◌, inl, inr, refl, sym, ◌∙◌, Option, none,
  some, List, arith, length, slot, length-set, slot-set_self, slot-set_ne, occupied,
  occupied-le-length, ℕ_discrete, occupied-set-some, occupied-set-none, lt_of_slot, Option-cases,
  ◌==◌, Bool-cases, false, leb, Result, ok, err,
}
use rustux.Process.Handles.{
  HandleError, HandleEntry, HandleTable, handle_table_full, free_place, placed, alloc, index, get,
  free, invalid_handle, handle_not_allocated,
}

module _ (start : ℕ) (handles : List (Option HandleEntry)) (small : start < 256) where
  -- The places that the loop has seen before its round `j`.
  abbrev Seen : ℕ → Type 0
  Seen j = (i : ℕ) → i < 256 → (i + 256 - start) % 256 < j → slot handles i ≢ none

  see :
      (j idx : ℕ)
      → j < 256
      → idx ≡ (start + j) % 256
      → slot handles idx ≢ none
      → Seen j
      → Seen (suc j)
  see j idx lt at used seen i inside before = elim (ℕ_discrete i idx) [
    | yes here ↦ rw here used
    | no other ↦ seen i inside (omega arith)
  ]

  free_place_cases :
      (rounds j idx : ℕ)
      → rounds + j ≡ 256
      → idx ≡ (start + j) % 256
      → Seen j
      → ((k : ℕ) × (k < 256)
          × (slot handles k ≡ none)
          × (free_place rounds idx start handles ≡ some k))
        ⊎ (((i : ℕ) → i < 256 → slot handles i ≢ none)
            × (free_place rounds idx start handles ≡ none))
  unfolding free_place
  free_place_cases zero j idx total at seen = inr (λ i inside. seen i inside (omega arith), refl)
  free_place_cases (suc rounds) j idx total at seen = elim (Option-cases (slot handles idx)) [
    | inl empty ↦ inl (idx, omega arith, empty, rw (empty, free_place) refl)
    | inr (e, used) ↦
        let seen' : Seen (suc j) = see j idx (omega arith) at (λ q. cc) seen in
        elim (Bool-cases ((idx + 1) % 256 == start)) [
          | inl back ↦
              inr (λ i inside. seen' i inside (ground arith), rw (used, back, free_place) refl)
          | inr on ↦
              rw (used, on, free_place)
                (free_place_cases rounds (suc j) ((idx + 1) % 256) (omega arith) (omega arith)
                  seen')
        ]
  ]

-- The index to start from is inside the table.
pub record IsValid (t : HandleTable) : Type 0 where
  pub size : length t.handles ≡ 256
  pub small : t.next_index < 256
  pub counted : t.count ≡ occupied t.handles

index-suc : (k : ℕ) → k < 256 → index (k + 1) ≡ k
index-suc k small = omega arith

-- `r` is what an allocation that takes place `k` gives: its handle, a valid table in which the handle has
-- the entry `e`, and the other places as they were.
unfoldable pub Takes : HandleTable → ℕ → HandleEntry → Result HandleError ℕ × HandleTable → Type 0
Takes t k e r =
    (slot t.handles k ≡ none)
    × (r.0 ≡ ok (k + 1))
    × (get (k + 1) r.1 ≡ ok e)
    × ((i : ℕ) → i ≢ k → slot r.1.handles i ≡ slot t.handles i)
    × IsValid r.1

placed-Takes :
    (object_id rights object_type : ℕ) (t : HandleTable) (k : ℕ)
    → IsValid t
    → k < 256
    → slot t.handles k ≡ none
    → Takes t k
        (record {
          handle = k + 1;
          object_id = object_id;
          rights = rights;
          object_type = object_type;
        })
        (placed object_id rights object_type t (some k))
unfolding Takes get
placed-Takes object_id rights object_type t k v small empty =
    let inside : k < length t.handles = omega (arith, v.size) in
    let here : index (k + 1) ≡ k = index-suc k small in
    let low : leb 256 k ≡ false = ground arith in
    let back =
      slot-set_self t.handles k
        (some (record {
          handle = k + 1;
          object_id = object_id;
          rights = rights;
          object_type = object_type;
        }))
        inside in
    (
      empty,
      refl,
      rw (here, low, back) refl,
      λ i other. slot-set_ne t.handles k i _ (λ q. other (sym q)),
      record {
        size = length-set t.handles k _ ∙ v.size;
        small = omega arith;
        counted = omega (
          arith,
          v.counted,
          v.size,
          occupied-le-length t.handles,
          occupied-set-some t.handles k
              (record {
                handle = k + 1;
                object_id = object_id;
                rights = rights;
                object_type = object_type;
              })
              inside empty,
        );
      },
    )

-- In a valid table `alloc` gives the handle of a place that was free, with the entry as asked, leaves the
-- other places as they were and keeps the table valid; or every place is taken, and it fails and changes
-- nothing.
pub alloc-Takes :
    (object_id rights object_type : ℕ) (t : HandleTable)
    → IsValid t
    → ((k : ℕ) × Takes t k
          (record {
            handle = k + 1;
            object_id = object_id;
            rights = rights;
            object_type = object_type;
          })
          (alloc object_id rights object_type t))
      ⊎ (((i : ℕ) → i < 256 → slot t.handles i ≢ none)
          × (alloc object_id rights object_type t ≡ (err handle_table_full, t)))
unfolding alloc
alloc-Takes object_id rights object_type t v =
    elim (free_place_cases t.next_index t.handles v.small 256 0 t.next_index (omega arith)
      (omega (arith, v.small)) (λ i inside before. absurd (omega arith))) [
        | inl (k, small, empty, is) ↦
            inl (k, rw is (placed-Takes object_id rights object_type t k v small empty))
        | inr (full, is) ↦ inr (full, rw is refl)
      ]

-- `free` of a handle in use gives its place back and nothing else, keeps the table valid, and the handle
-- is not allocated from then on; of a handle that is not in use, 0 and those above 256 included, it fails
-- and changes nothing. The handle is a u32.
pub free_cases :
    (handle : ℕ) (t : HandleTable)
    → IsValid t
    → handle < 2 ^ 32
    → ((e : HandleEntry) × (get handle t ≡ ok e)
        × ((free handle t).0 ≡ ok tt)
        × (get handle (free handle t).1 ≡ err handle_not_allocated)
        × ((i : ℕ) → i + 1 ≢ handle → slot (free handle t).1.handles i ≡ slot t.handles i)
        × IsValid (free handle t).1)
      ⊎ ((e : HandleError) × (get handle t ≡ err e) × (free handle t ≡ (err e, t)))
unfolding free get
free_cases handle t v small = elim (Bool-cases (leb 256 (index handle))) [
  | inl out ↦ inr (invalid_handle, rw out refl, rw out refl)
  | inr inside ↦ elim (Option-cases (slot t.handles (index handle))) [
    | inl empty ↦ inr (handle_not_allocated, rw (inside, empty) refl, rw (inside, empty) refl)
    | inr (e, used) ↦
        let lt = lt_of_slot t.handles (index handle) e used in
        inl (
          e,
          rw (inside, used) refl,
          rw (inside, used) refl,
          rw (inside, used) (rw (slot-set_self t.handles (index handle) none lt) refl),
          rw (inside, used)
              (λ i other. slot-set_ne t.handles (index handle) i none (λ q. other (ground arith))),
          rw (inside, used)
              (record {
                size = length-set t.handles (index handle) none ∙ v.size;
                small = v.small;
                counted = omega (
                  arith,
                  v.counted,
                  v.size,
                  occupied-le-length t.handles,
                  occupied-set-none t.handles (index handle) e used,
                );
              }),
        )
  ]
]
