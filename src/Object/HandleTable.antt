-- ===== src/Object/HandleTable.antt =====
-- The per-process handle table of src/object/handle.rs: 256 slots and a count.
-- One caller at a time: the locks on the slots and on the count are not modelled.
pub mod Slots
pub mod Cases
pub mod Validity
pub mod RefCount
pub mod NoEscalation
mod Tests
use rustux.Base.{
  ℕ, suc, ◌+◌, ◌-◌, Bool, true, false, leb, not, if◌then◌else◌, Option, none, some, List, [], ◌∷◌,
  slot, set, replicate, Result, ok, err, Outcome, returns, panics, Error, handle_table_full,
  invalid_handle_value, handle_not_found, duplicate_right_not_held,
}
use rustux.Object.Rights.{Rights}
use rustux.Object.Rights
use rustux.Object.Handle.{Handle, Pointer, Store, masked, share, ref_dec_base}

abbrev pub max_handles : ℕ
max_handles = 256

pub record HandleEntry : Type 0 where
  pub id : ℕ
  pub base : Pointer
  pub rights : Rights

pub record HandleTable : Type 0 where
  pub slots : List (Option HandleEntry)
  pub count : ℕ

unfoldable pub new : HandleTable
new = record { slots = replicate max_handles none; count = 0 }

abbrev pub to_entry : Handle → HandleEntry
to_entry h = record { id = h.id; base = h.base; rights = h.rights }

abbrev pub to_handle : HandleEntry → Handle
to_handle e = record { id = e.id; base = e.base; rights = e.rights }

-- The loop of `add`, at slot `i`: the first free slot takes the entry.
unfoldable pub fill :
    ℕ → List (Option HandleEntry) → HandleEntry → Option (ℕ × List (Option HandleEntry))
fill i [] e = none
fill i (none ∷ xs) e = some (i, some e ∷ xs)
fill i (some x ∷ xs) e = elim (fill (suc i) xs e) [
  | none ↦ none
  | some (j, ys) ↦ some (j, some x ∷ ys)
]

unfoldable pub add : Handle → HandleTable → Result Error ℕ × HandleTable
unfolding fill
add handle t = elim (fill 0 t.slots (to_entry handle)) [
  | none ↦ (err handle_table_full, t)
  | some (i, slots) ↦ (ok i, record { slots = slots; count = t.count + 1 })
]

unfoldable pub get : ℕ → HandleTable → Option Handle
get handle_val t =
    if leb max_handles handle_val
    then none
    else elim (slot t.slots handle_val) [ none ↦ none | some e ↦ some (to_handle e) ]

-- A `usize` underflow of the count cannot happen on a table that counts its entries.
unfoldable pub remove : ℕ → HandleTable → Store → Result Error Bool × HandleTable × Store
unfolding ref_dec_base
remove handle_val t s =
    if leb max_handles handle_val
    then (err invalid_handle_value, t, s)
    else elim (slot t.slots handle_val) [
      | none ↦ (ok false, t, s)
      | some e ↦ (
        ok true,
        record { slots = set t.slots handle_val none; count = t.count - 1 },
        ref_dec_base e.base s,
      )
    ]

unfoldable pub duplicate :
    ℕ → Rights → HandleTable → Store → Outcome (Result Error ℕ × HandleTable × Store)
unfolding Rights.contains masked share add
duplicate handle_val mask t s =
    if leb max_handles handle_val then panics else elim (slot t.slots handle_val) [
      | none ↦ returns (err handle_not_found, t, s)
      | some e ↦
          if not (Rights.contains e.rights Rights.duplicate)
          then returns (err duplicate_right_not_held, t, s)
          else let (h, s') = share e.base (masked e.rights mask) s in
            let (r, t') = add h t in returns (r, t', s')
    ]

unfoldable pub is_full : HandleTable → Bool
is_full t = leb max_handles t.count
