-- ===== src/Object/HandleTable/RefCount.antt =====
-- Reference counts against the handles of a table: `remove` and `duplicate` of src/object/handle.rs.
use rustux.Base.{
  ℕ, zero, suc, ◌+◌, ◌^◌, ◌≤◌, ◌<◌, ◌≡◌, inl, inr, true, false, ◌==◌, if◌then◌else◌, Option, none,
  some, List, [], ◌∷◌, length, slot, slot-eq-none, set, Result, Error, err, returns,
  handle_table_full, arith,
}
use rustux.Object.Rights.{Rights, contains}
use rustux.Object.Rights
use rustux.Object.Handle.{Handle, Pointer, Store, masked, share, ref_inc_base, ref_dec_base}
use rustux.Object.HandleTable.{
  HandleTable, HandleEntry, to_entry, add, get, remove, duplicate, is_full,
}
use rustux.Object.HandleTable.Slots.{add_cases}
use rustux.Object.HandleTable.Validity.{IsValid, add-full, get-slot}
use rustux.Object.HandleTable.Cases.{
  out_of_range, unused, closed, remove_cases, copy_of, out_of_bounds, not_found, refused, shared,
  duplicate_cases,
}

-- 1 for a pointer to address `a`, else 0.
abbrev pub one : ℕ → Pointer → ℕ
one a none = 0
one a (some p) = if p == a then 1 else 0

-- The handles of a table that point to address `a`.
abbrev pub held : ℕ → List (Option HandleEntry) → ℕ
held a [] = 0
held a (none ∷ xs) = held a xs
held a (some e ∷ xs) = one a e.base + held a xs

held-set-some :
    (a : ℕ) (xs : List (Option HandleEntry)) (k : ℕ) (e : HandleEntry)
    → k < length xs
    → slot xs k ≡ none
    → held a (set xs k (some e)) ≡ held a xs + one a e.base
held-set-some a [] k e lt free = elim lt [ ]
held-set-some a (none ∷ xs) zero e lt free = omega arith
held-set-some a (some x ∷ xs) zero e lt free = cc
held-set-some a (none ∷ xs) (suc k) e lt free = held-set-some a xs k e (omega arith) free
held-set-some a (some x ∷ xs) (suc k) e lt free =
    omega (arith, held-set-some a xs k e (omega arith) free)

held-set-none :
    (a : ℕ) (xs : List (Option HandleEntry)) (k : ℕ) (e : HandleEntry)
    → slot xs k ≡ some e
    → held a (set xs k none) + one a e.base ≡ held a xs
held-set-none a [] k e used = cc
held-set-none a (none ∷ xs) zero e used = cc
held-set-none a (some x ∷ xs) zero e used = ground arith
held-set-none a (none ∷ xs) (suc k) e used = held-set-none a xs k e used
held-set-none a (some x ∷ xs) (suc k) e used = omega (arith, held-set-none a xs k e used)

abbrev pub refs : ℕ → Store → ℕ
refs a s = (s.objects a).ref_count

-- No count is about to wrap.
abbrev pub HasRoom : Store → Type 0
HasRoom s = (a : ℕ) → refs a s + 1 < 2 ^ 64

-- Each object's count is the number of the table's handles to it, and of `others` elsewhere.
abbrev pub IsBalanced : (ℕ → ℕ) → HandleTable → Store → Type 0
IsBalanced others t s = (a : ℕ) → refs a s ≡ held a t.slots + others a

refs-inc :
    (a : ℕ) (b : Pointer) (s : Store)
    → refs a s + 1 < 2 ^ 64
    → refs a (ref_inc_base b s) ≡ refs a s + one a b
unfolding ref_inc_base
refs-inc a none s room = omega arith
refs-inc a (some p) s room = ground arith

refs-dec :
    (a : ℕ) (b : Pointer) (s : Store)
    → refs a s + 1 < 2 ^ 64
    → one a b ≤ refs a s
    → refs a (ref_dec_base b s) + one a b ≡ refs a s
unfolding ref_dec_base
refs-dec a none s room some_held = omega arith
refs-dec a (some p) s room some_held = ground arith

refs-share :
    (a : ℕ) (b : Pointer) (r : Rights) (s : Store)
    → refs a s + 1 < 2 ^ 64
    → (refs a (share b r s).1 ≡ refs a s + one a b) × ((share b r s).0.base ≡ b)
unfolding share
refs-share a b r s room = ground (arith, refs-inc a b s room)

-- A table with a free slot comes to hold the handle that it is given.
held-add :
    (a : ℕ) (h : Handle) (t : HandleTable)
    → IsValid t
    → is_full t ≡ false
    → held a (add h t).1.slots ≡ held a t.slots + one a h.base
held-add a h t v space = elim (add_cases h t) [
  | inl (e, _) ↦ let full = (add-full h t v).0 e in cc
  | inr (k, lt, free, _, e) ↦ rw e (held-set-some a t.slots k (to_entry h) lt free)
]

-- `remove` gives up the reference of the handle that it closes, and no other.
pub remove-IsBalanced :
    (others : ℕ → ℕ) (w : ℕ) (t : HandleTable) (s : Store)
    → HasRoom s
    → IsBalanced others t s
    → IsBalanced others (remove w t s).1 (remove w t s).2
remove-IsBalanced others w t s room bal a = elim (remove_cases w t s) [
  | out_of_range _ e ↦ rw e (bal a)
  | unused _ _ e ↦ rw e (bal a)
  | closed x _ used e ↦ rw e (
      omega (
        arith,
        bal a,
        held-set-none a t.slots w x used,
        refs-dec a x.base s (room a) (omega (arith, bal a, held-set-none a t.slots w x used)),
      ))
]

-- While a valid table has a free slot and no count is at 2 ^ 64 - 1, a `duplicate` that returns has counted
-- the handle that it made, and nothing else.
pub duplicate-IsBalanced :
    (others : ℕ → ℕ) (w : ℕ) (mask : Rights) (t : HandleTable) (s : Store) {r : Result Error ℕ}
    {t' : HandleTable} {s' : Store}
    → IsValid t
    → is_full t ≡ false
    → HasRoom s
    → IsBalanced others t s
    → duplicate w mask t s ≡ returns (r, t', s')
    → IsBalanced others t' s'
duplicate-IsBalanced others w mask t s {r} {t'} {s'} v space room bal d a =
    elim (duplicate_cases w mask t s) [
      | out_of_bounds _ e ↦ cc
      | not_found _ _ e ↦ ground (arith, bal a)
      | refused x _ _ _ e ↦ ground (arith, bal a)
      | shared x _ _ _ e ↦
          let count = refs-share a x.base (masked x.rights mask) s (room a) in
          let kept = held-add a (copy_of x mask s).0 t v space in
          ground (arith, bal a, count.0, count.1, kept)
    ]

-- The leak: on a full valid table `duplicate` of a handle with the DUPLICATE right, whose object's count is
-- below 2 ^ 64 - 1, counts a reference to the object, fails, and leaves the table as it was.
pub duplicate-full_leaks :
    (w : ℕ) (mask : Rights) (t : HandleTable) (s : Store) (h : Handle) (p : ℕ)
    → IsValid t
    → is_full t ≡ true
    → refs p s + 1 < 2 ^ 64
    → get w t ≡ some h
    → contains h.rights Rights.duplicate ≡ true
    → h.base ≡ some p
    → (s' : Store) × (duplicate w mask t s ≡ returns (err handle_table_full, t, s'))
      × (refs p s' ≡ refs p s + 1)
duplicate-full_leaks w mask t s h p v full room found right at = elim (duplicate_cases w mask t s) [
  | out_of_bounds far _ ↦ ground (arith, get-slot w t v.size, slot-eq-none t.slots w)
  | not_found _ vacant _ ↦ ground (arith, get-slot w t v.size)
  | refused x _ used no_right _ ↦ ground (arith, get-slot w t v.size)
  | shared x _ used _ e ↦
      let count = refs-share p x.base (masked x.rights mask) s room in
      let fails = (add-full (copy_of x mask s).0 t v).1 full in
      ((copy_of x mask s).1, ground arith, ground (arith, get-slot w t v.size, count.0))
]
