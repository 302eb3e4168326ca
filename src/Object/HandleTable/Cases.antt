-- ===== src/Object/HandleTable/Cases.antt =====
-- The branches of `HandleTable::remove` and `HandleTable::duplicate` of src/object/handle.rs.
use rustux.Base.{
  ℕ, ◌-◌, ◌<◌, ◌≤◌, ◌≡◌, refl, inl, inr, true, false, leb, Bool-cases, Option-cases, none, some,
  slot, set, ok, err, Outcome, returns, panics, arith, Result, Error, handle_not_found,
  duplicate_right_not_held, invalid_handle_value, Bool,
}
use rustux.Object.Rights.{Rights, contains}
use rustux.Object.Rights
use rustux.Object.Handle.{Handle, Store, masked, share, ref_dec_base}
use rustux.Object.HandleTable.{HandleTable, HandleEntry, max_handles, add, remove, duplicate}

pub data Removes (w : ℕ) (t : HandleTable) (s : Store) (r : Result Error Bool × HandleTable × Store)
    : Type 0 where
  out_of_range : max_handles ≤ w → r ≡ (err invalid_handle_value, t, s) → Removes w t s r
  unused : w < max_handles → slot t.slots w ≡ none → r ≡ (ok false, t, s) → Removes w t s r
  closed :
      (e : HandleEntry)
      → w < max_handles
      → slot t.slots w ≡ some e
      → r ≡ (
        ok true,
        record { slots = set t.slots w none; count = t.count - 1 },
        ref_dec_base e.base s,
      )
      → Removes w t s r

pub remove_cases : (w : ℕ) (t : HandleTable) (s : Store) → Removes w t s (remove w t s)
unfolding remove
remove_cases w t s = elim (Bool-cases (leb max_handles w)) [
  | inl e ↦ out_of_range (ground arith) (rw e refl)
  | inr e ↦ elim (Option-cases (slot t.slots w)) [
    | inl f ↦ unused (ground arith) f (rw (e, f, remove) refl)
    | inr (x, f) ↦ closed x (ground arith) f (rw (e, f, remove) refl)
  ]
]

-- The duplicate of an entry under a mask, and the memory in which its object is counted.
abbrev pub copy_of : HandleEntry → Rights → Store → Handle × Store
copy_of e mask s = share e.base (masked e.rights mask) s

pub data Duplicates (w : ℕ) (mask : Rights) (t : HandleTable) (s : Store)
    (r : Outcome (Result Error ℕ × HandleTable × Store)) : Type 0 where
  out_of_bounds : max_handles ≤ w → r ≡ panics → Duplicates w mask t s r
  not_found :
      w < max_handles
      → slot t.slots w ≡ none
      → r ≡ returns (err handle_not_found, t, s)
      → Duplicates w mask t s r
  refused :
      (e : HandleEntry)
      → w < max_handles
      → slot t.slots w ≡ some e
      → contains e.rights Rights.duplicate ≡ false
      → r ≡ returns (err duplicate_right_not_held, t, s)
      → Duplicates w mask t s r
  shared :
      (e : HandleEntry)
      → w < max_handles
      → slot t.slots w ≡ some e
      → contains e.rights Rights.duplicate ≡ true
      → r
        ≡ returns
            ((add (copy_of e mask s).0 t).0, (add (copy_of e mask s).0 t).1, (copy_of e mask s).1)
      → Duplicates w mask t s r

pub duplicate_cases :
    (w : ℕ) (mask : Rights) (t : HandleTable) (s : Store)
    → Duplicates w mask t s (duplicate w mask t s)
unfolding duplicate
duplicate_cases w mask t s = elim (Bool-cases (leb max_handles w)) [
  | inl e ↦ out_of_bounds (ground arith) (rw e refl)
  | inr e ↦ elim (Option-cases (slot t.slots w)) [
    | inl f ↦ not_found (ground arith) f (rw (e, f, duplicate) refl)
    | inr (x, f) ↦ elim (Bool-cases (contains x.rights Rights.duplicate)) [
      | inl c ↦ shared x (ground arith) f c (rw (e, f, c, duplicate) refl)
      | inr c ↦ refused x (ground arith) f c (rw (e, f, c, duplicate) refl)
    ]
  ]
]
