-- ===== src/Object/HandleTable/Slots.antt =====
-- Which slot `HandleTable::add` of src/object/handle.rs takes, and what `get` reads afterwards.
use rustux.Base.{
  ℕ, zero, suc, ◌+◌, ◌<◌, ◌≡◌, refl, ◌≢◌, ◌⊎◌, inl, inr, Option, none, some, List, [], ◌∷◌, arith,
  length, slot, set, occupied, ok, err, handle_table_full,
}
use rustux.Object.Handle.{Handle}
use rustux.Object.HandleTable.{HandleTable, HandleEntry, to_entry, fill, add}

-- The outcomes of the loop: all slots taken, or the first free slot filled.
abbrev pub Fills :
    ℕ → List (Option HandleEntry) → HandleEntry → Option (ℕ × List (Option HandleEntry)) → Type 0
Fills i xs e r =
    ((r ≡ none) × (occupied xs ≡ length xs))
    ⊎ ((k : ℕ) × (k < length xs)
        × (slot xs k ≡ none)
        × ((m : ℕ) → m < k → slot xs m ≢ none)
        × (r ≡ some (i + k, set xs k (some e))))

fill-Fills : (i : ℕ) (xs : List (Option HandleEntry)) (e : HandleEntry) → Fills i xs e (fill i xs e)
unfolding fill
fill-Fills i [] e = inl (refl, refl)
fill-Fills i (none ∷ xs) e = inr (0, omega arith, refl, λ m h. absurd (omega arith), ground arith)
fill-Fills i (some x ∷ xs) e = elim (fill-Fills (suc i) xs e) [
  | inl (full, count) ↦ inl (ground arith, ground arith)
  | inr (k, lt, free, first, eq) ↦ inr (suc k, omega arith, free, before xs k first, ground arith)
]
  where
    before :
        (ys : List (Option HandleEntry)) (k : ℕ)
        → ((m : ℕ) → m < k → slot ys m ≢ none)
        → (m : ℕ) → m < suc k
        → slot (some x ∷ ys) m ≢ none
    before ys k first zero h = λ q. cc
    before ys k first (suc m) h = first m (omega arith)

-- `add` fails and changes nothing if every slot is taken; otherwise it fills the first free one.
pub add_cases :
    (h : Handle) (t : HandleTable)
    → ((add h t ≡ (err handle_table_full, t)) × (occupied t.slots ≡ length t.slots))
      ⊎ ((k : ℕ) × (k < length t.slots)
          × (slot t.slots k ≡ none)
          × ((m : ℕ) → m < k → slot t.slots m ≢ none)
          × (add h t
              ≡ (ok k, record { slots = set t.slots k (some (to_entry h)); count = t.count + 1 })))
unfolding add
add_cases h t = elim (fill-Fills 0 t.slots (to_entry h)) [
  | inl (full, count) ↦ inl (rw (full, add) refl, count)
  | inr (k, lt, free, first, eq) ↦ inr (k, lt, free, first, ground arith)
]
