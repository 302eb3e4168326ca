-- ===== src/Object/HandleTable/Tests.antt =====
-- Runs of the handle table, and its theorems at concrete tables.
use rustux.Base.{
  ℕ, ◌≡◌, refl, true, false, some, List, [], ◌∷◌, ◌-◌, ok, err, returns, panics, handle_table_full,
  arith, replicate,
}
use rustux.Object.Rights.{Rights, contains}
use rustux.Object.Rights
use rustux.Object.Handle.{Handle, Store}
use rustux.Object.HandleTable.{
  HandleTable, HandleEntry, max_handles, new, add, get, remove, duplicate, is_full,
}
use rustux.Object.HandleTable.Validity.{IsValid, new-IsValid, add-IsValid}
use rustux.Object.HandleTable.RefCount.{
  refs, HasRoom, IsBalanced, held, remove-IsBalanced, duplicate-IsBalanced, duplicate-full_leaks,
}
use rustux.Object.HandleTable.NoEscalation.{
  duplicate-rights, Call, removes, duplicates, run, run-no_escalation,
}

-- Every address holds a VMO with two references.
abbrev memory : Store
memory = record {
  objects = λ a. record { obj_type = Rights.vmo; ref_count = 2; destroying = false };
  next_handle_id = 7;
}

abbrev vmo_handle : Handle
vmo_handle = record { id = 5; base = some 4096; rights = 0x23 }

abbrev one_handle : HandleTable
one_handle = (add vmo_handle new).1

abbrev entry : HandleEntry
entry = record { id = 5; base = some 4096; rights = 0x23 }

abbrev crowded : HandleTable
crowded = record { slots = replicate max_handles (some entry); count = 256 }

crowded-IsValid : IsValid crowded
crowded-IsValid = record { size = refl; counted = refl }

one_handle-IsValid : IsValid one_handle
one_handle-IsValid = add-IsValid vmo_handle new new-IsValid

added : add vmo_handle new ≡ (ok 0, one_handle)
unfolding add new
added = refl

reads : get 0 one_handle ≡ some vmo_handle
unfolding add new get
reads = refl

-- A duplicate with the mask READ takes slot 1; its rights are the intersection.
after_duplicate : HandleTable × Store
after_duplicate = elim (duplicate 0 0x01 one_handle memory) [
  | panics ↦ (one_handle, memory)
  | returns (r, t, s) ↦ (t, s)
]

duplicate_runs :
    (get 1 after_duplicate.0 ≡ some (record { id = 7; base = some 4096; rights = 0x01 }))
    × (refs 4096 after_duplicate.1 ≡ 3)
unfolding after_duplicate duplicate add new get
duplicate_runs = (refl, refl)

-- The slots are indexed before anything is checked.
duplicate_out_of_bounds : duplicate 256 0 one_handle memory ≡ panics
unfolding duplicate
duplicate_out_of_bounds = refl

abbrev elsewhere : ℕ → ℕ
elsewhere a = 2 - held a one_handle.slots

memory_room : HasRoom memory
memory_room a = omega arith

balanced : IsBalanced elsewhere one_handle memory
unfolding add new
balanced a = ground arith

has_space : is_full one_handle ≡ false
unfolding add new is_full
has_space = refl

remove-IsBalanced_example :
    IsBalanced elsewhere (remove 0 one_handle memory).1 (remove 0 one_handle memory).2
remove-IsBalanced_example = remove-IsBalanced elsewhere 0 one_handle memory memory_room balanced

duplicate-IsBalanced_example : IsBalanced elsewhere after_duplicate.0 after_duplicate.1
unfolding after_duplicate duplicate add new
duplicate-IsBalanced_example =
    duplicate-IsBalanced elsewhere 0 0x01 one_handle memory one_handle-IsValid has_space memory_room
      balanced refl

crowded_full : is_full crowded ≡ true
unfolding is_full
crowded_full = refl

crowded_reads : get 9 crowded ≡ some vmo_handle
unfolding get
crowded_reads = refl

may_duplicate : contains 0x23 Rights.duplicate ≡ true
unfolding contains
may_duplicate = refl

duplicate-full_leaks_example :
    (s' : Store) × (duplicate 9 0x01 crowded memory ≡ returns (err handle_table_full, crowded, s'))
    × (refs 4096 s' ≡ 3)
duplicate-full_leaks_example =
    duplicate-full_leaks 9 0x01 crowded memory vmo_handle 4096 crowded-IsValid crowded_full
      (omega arith) crowded_reads may_duplicate refl

duplicate-rights_example :
    (h : Handle) × (k : Handle) × (get 0 one_handle ≡ some h)
    × (get 1 after_duplicate.0 ≡ some k)
    × (k.base ≡ h.base)
    × (contains h.rights Rights.duplicate ≡ true)
    × (contains h.rights k.rights ≡ true)
    × (contains 0x01 Rights.same_rights ≡ false → contains 0x01 k.rights ≡ true)
unfolding after_duplicate duplicate add new
duplicate-rights_example = duplicate-rights 0 0x01 one_handle memory 1 one_handle-IsValid refl

abbrev script : List Call
script = duplicates 0 0x21 ∷ duplicates 1 0x01 ∷ removes 0 ∷ []

after_script : HandleTable × Store
after_script = elim (run script one_handle memory) [
  | panics ↦ (one_handle, memory)
  | returns (t, s) ↦ (t, s)
]

run-no_escalation_example :
    (w : ℕ) × (h : Handle) × (get w one_handle ≡ some h)
    × (some 4096 ≡ h.base)
    × (contains h.rights 0x01 ≡ true)
unfolding after_script run duplicate remove add new get
run-no_escalation_example =
    run-no_escalation script one_handle memory after_script.0 after_script.1 one_handle-IsValid refl
      2 (record { id = 8; base = some 4096; rights = 0x01 }) refl
