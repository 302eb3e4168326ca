-- ===== src/Process/Handles/Tests.antt =====
-- A new table, and a table with one handle.
use rustux.Base.{ℕ, ◌+◌, ◌<◌, ◌≡◌, ◌≢◌, ◌⊎◌, refl, some, none, ◌∷◌, arith, replicate, slot, ok, err}
use rustux.Process.Handles.{
  HandleEntry, HandleError, HandleTable, handle_table_full, handle_not_allocated, new, alloc, get,
  free, check_rights, has, insufficient_rights,
}
use rustux.Process.Handles.Places.{IsValid, Takes, alloc-Takes, free_cases}

abbrev object_7 : HandleEntry
object_7 = record { handle = 1; object_id = 7; rights = 3; object_type = 1 }

abbrev one : HandleTable
one = record { handles = some object_7 ∷ replicate 255 none; next_index = 1; count = 1 }

new-IsValid : IsValid new
unfolding new
new-IsValid = record { size = refl; small = omega arith; counted = refl }

one-IsValid : IsValid one
one-IsValid = record { size = refl; small = omega arith; counted = refl }

-- Right 4 is not among the rights 3.
lacks : check_rights 1 4 one ≡ err insufficient_rights
unfolding check_rights get has
lacks = refl

alloc-Takes_example :
    ((k : ℕ) × Takes new k
        (record { handle = k + 1; object_id = 7; rights = 3; object_type = 1 })
        (alloc 7 3 1 new))
    ⊎ (((i : ℕ) → i < 256 → slot new.handles i ≢ none)
        × (alloc 7 3 1 new ≡ (err handle_table_full, new)))
alloc-Takes_example = alloc-Takes 7 3 1 new new-IsValid

free_cases_example :
    ((e : HandleEntry) × (get 1 one ≡ ok e)
      × ((free 1 one).0 ≡ ok tt)
      × (get 1 (free 1 one).1 ≡ err handle_not_allocated)
      × ((i : ℕ) → i + 1 ≢ 1 → slot (free 1 one).1.handles i ≡ slot one.handles i)
      × IsValid (free 1 one).1)
    ⊎ ((e : HandleError) × (get 1 one ≡ err e) × (free 1 one ≡ (err e, one)))
free_cases_example = free_cases 1 one one-IsValid (omega arith)
