-- ===== src/Object/HandleTable/Validity.antt =====
-- The invariant of `HandleTable` of src/object/handle.rs, and what `get` reads after each call.
use rustux.Base.{
  ℕ, ◌+◌, ◌-◌, ◌<◌, ◌≤◌, ◌≡◌, ◌≢◌, ◌⊎◌, ◌↔◌, ◌∙◌, ap, sym, slot-eq-none, occupied-lt-length, inl,
  inr, refl, Option, some, none, arith, length, slot, set, occupied, length-set, length-replicate,
  occupied-set-some, occupied-set-none, slot-set_self, slot-set_ne, Result, ok, err, returns,
  panics, true, Error, handle_table_full,
}
use rustux.Object.Handle.{Handle, Store}
use rustux.Object.Rights.{Rights}
use rustux.Object.HandleTable.{
  HandleTable, HandleEntry, max_handles, new, to_entry, to_handle, add, get, remove, duplicate,
  is_full,
}
use rustux.Object.HandleTable.Slots.{add_cases}
use rustux.Object.HandleTable.Cases.{
  out_of_range, unused, closed, remove_cases, copy_of, out_of_bounds, not_found, refused, shared,
  duplicate_cases,
}

pub record IsValid (t : HandleTable) : Type 0 where
  pub size : length t.slots ≡ max_handles
  pub counted : t.count ≡ occupied t.slots

pub new-IsValid : IsValid new
unfolding new
new-IsValid = record {
  size = length-replicate {A = Option HandleEntry} max_handles none;
  counted = refl;
}

-- Filling a free slot and raising the count, and emptying a used slot and lowering it.
filled-IsValid :
    (t : HandleTable) (k : ℕ) (e : HandleEntry)
    → IsValid t
    → k < length t.slots
    → slot t.slots k ≡ none
    → IsValid (record { slots = set t.slots k (some e); count = t.count + 1 })
filled-IsValid t k e v lt free = record {
  size = length-set t.slots k (some e) ∙ v.size;
  counted = omega (arith, v.counted, occupied-set-some t.slots k e lt free);
}

emptied-IsValid :
    (t : HandleTable) (k : ℕ) (e : HandleEntry)
    → IsValid t
    → slot t.slots k ≡ some e
    → IsValid (record { slots = set t.slots k none; count = t.count - 1 })
emptied-IsValid t k e v used = record {
  size = length-set t.slots k none ∙ v.size;
  counted = omega (arith, v.counted, occupied-set-none t.slots k e used);
}

-- `add` keeps the table valid, on success and on failure.
pub add-IsValid : (h : Handle) (t : HandleTable) → IsValid t → IsValid (add h t).1
add-IsValid h t v = elim (add_cases h t) [
  | inl (e, _) ↦ rw e v
  | inr (k, lt, free, _, e) ↦ rw e (filled-IsValid t k (to_entry h) v lt free)
]

-- `remove` keeps the table valid, whatever handle value it is given.
pub remove-IsValid : (w : ℕ) (t : HandleTable) (s : Store) → IsValid t → IsValid (remove w t s).1
remove-IsValid w t s v = elim (remove_cases w t s) [
  | out_of_range _ e ↦ rw e v
  | unused _ _ e ↦ rw e v
  | closed x _ used e ↦ rw e (emptied-IsValid t w x v used)
]

-- `duplicate` panics exactly at a handle value past the slots, and otherwise returns with a valid
-- table.
pub duplicate-IsValid :
    (w : ℕ) (mask : Rights) (t : HandleTable) (s : Store)
    → IsValid t
    → ((max_handles ≤ w) × (duplicate w mask t s ≡ panics))
      ⊎ ((w < max_handles)
          × (r : Result Error ℕ) × (t' : HandleTable) × (s' : Store) × (duplicate w mask t s
              ≡ returns (r, t', s'))
          × IsValid t')
duplicate-IsValid w mask t s v = elim (duplicate_cases w mask t s) [
  | out_of_bounds h e ↦ inl (h, e)
  | not_found h _ e ↦ inr (h, _, t, s, e, v)
  | refused x h _ _ e ↦ inr (h, _, t, s, e, v)
  | shared x h _ _ e ↦ inr (h, _, _, _, e, add-IsValid (copy_of x mask s).0 t v)
]

-- `add` fails, and changes nothing, exactly on a table whose count has reached the limit.
pub add-full :
    (h : Handle) (t : HandleTable)
    → IsValid t
    → (add h t ≡ (err handle_table_full, t)) ↔ (is_full t ≡ true)
unfolding is_full
add-full h t v = elim (add_cases h t) [
  | inl (e, all) ↦ (λ _. ground arith, λ _. e)
  | inr (k, lt, free, _, e) ↦
      (λ f. cc, λ full. absurd (ground (arith, occupied-lt-length t.slots k lt free)))
]

pub add-err : (h : Handle) (t : HandleTable) {e : Error} → (add h t).0 ≡ err e → (add h t).1 ≡ t
add-err h t f = elim (add_cases h t) [ inl (e, _) ↦ cc | inr (k, _, _, _, e) ↦ cc ]

abbrev pub as_handle : Option HandleEntry → Option Handle
as_handle none = none
as_handle (some x) = some (to_handle x)

-- On a valid table the bounds check of `get` agrees with the slots.
pub get-slot :
    (w : ℕ) (t : HandleTable) → length t.slots ≡ max_handles → get w t ≡ as_handle (slot t.slots w)
unfolding get
get-slot w t size = ground (arith, slot-eq-none t.slots w)

-- What `get` reads once slot `w` has been written.
module _ (t : HandleTable) (w c : ℕ) (o : Option HandleEntry)
    (size : length t.slots ≡ max_handles) where
  abbrev written : HandleTable
  written = record { slots = set t.slots w o; count = c }

  written_size : length (set t.slots w o) ≡ max_handles
  written_size = length-set t.slots w o ∙ size

  get-written_self : w < max_handles → get w written ≡ as_handle o
  get-written_self lt =
      get-slot w written written_size ∙ ap as_handle (slot-set_self t.slots w o (omega arith))

  get-written_ne : (u : ℕ) → u ≢ w → get u written ≡ get u t
  get-written_ne u ne =
      get-slot u written written_size
      ∙ ap as_handle (slot-set_ne t.slots w u o (λ q. ne (sym q)))
      ∙ sym (get-slot u t size)

as_handle-eq-none : (o : Option HandleEntry) → as_handle o ≡ none → o ≡ none
as_handle-eq-none none e = refl
as_handle-eq-none (some x) e = cc

-- After a successful `add` the new handle value reads the handle, where nothing stood before, every
-- other value reads what it read before, and no lower value was free.
pub get-add :
    (h : Handle) (t : HandleTable) (w : ℕ) {t' : HandleTable}
    → IsValid t
    → add h t ≡ (ok w, t')
    → (get w t ≡ none)
      × (get w t' ≡ some h)
      × ((u : ℕ) → u ≢ w → get u t' ≡ get u t)
      × ((u : ℕ) → u < w → get u t ≢ none)
get-add h t w {t'} v e = elim (add_cases h t) [
  | inl (f, _) ↦ cc
  | inr (k, lt, free, first, f) ↦
      let at : k ≡ w = cc in
      let same : t' ≡ written t k (t.count + 1) (some (to_entry h)) v.size = cc in
      rw (same, ← at)
        (
          get-slot k t v.size ∙ ap as_handle free,
          get-written_self t k (t.count + 1) (some (to_entry h)) v.size (omega arith),
          get-written_ne t k (t.count + 1) (some (to_entry h)) v.size,
          λ u below vacant.
              first u below (as_handle-eq-none _ (sym (get-slot u t v.size) ∙ vacant)),
        )
]

-- A handle value that `remove` has closed reads nothing; the others read what they read before.
pub get-remove :
    (w : ℕ) (t : HandleTable) (s : Store)
    → IsValid t
    → (get w (remove w t s).1 ≡ none) × ((u : ℕ) → u ≢ w → get u (remove w t s).1 ≡ get u t)
get-remove w t s v = elim (remove_cases w t s) [
  | out_of_range h e ↦
      rw e (get-slot w t v.size ∙ ap as_handle (slot-eq-none t.slots w (omega arith)), λ u _. refl)
  | unused h free e ↦ rw e (get-slot w t v.size ∙ ap as_handle free, λ u _. refl)
  | closed x h used e ↦ rw e (
    get-written_self t w (t.count - 1) none v.size h,
    get-written_ne t w (t.count - 1) none v.size,
  )
]
