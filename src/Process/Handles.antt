-- ===== src/Process/Handles.antt =====
-- The handle table that a process object carries: src/process/mod.rs. Rights are masks of bits.
pub mod Places
mod Tests
use rustux.Base.{
  ℕ, zero, suc, ◌+◌, ◌-◌, ◌%◌, ◌^◌, ltb, leb, ◌==◌, if◌then◌else◌, Bool, not, Option, none, some,
  List, slot, set, replicate, Result, ok, err, bit_and,
}

abbrev pub max_handles : ℕ
max_handles = 256

pub data HandleError : Type 0 where
  handle_table_full invalid_handle handle_not_allocated insufficient_rights : HandleError

-- Whether the masks share a bit.
unfoldable pub has : ℕ → ℕ → Bool
has rights right = not (bit_and rights right == 0)

pub record HandleEntry : Type 0 where
  pub handle : ℕ
  pub object_id : ℕ
  pub rights : ℕ
  pub object_type : ℕ

pub record HandleTable : Type 0 where
  pub handles : List (Option HandleEntry)
  pub next_index : ℕ
  pub count : ℕ

unfoldable pub new : HandleTable
new = record { handles = replicate max_handles none; next_index = 0; count = 0 }

-- The place that the loop of `alloc` finds, in so many rounds.
unfoldable pub free_place : ℕ → ℕ → ℕ → List (Option HandleEntry) → Option ℕ
free_place zero idx start handles = none
free_place (suc rounds) idx start handles =
    let rest = free_place rounds ((idx + 1) % max_handles) start handles in
    elim (slot handles idx) [
      | none ↦ some idx
      | some e ↦ if (idx + 1) % max_handles == start then none else rest
    ]

abbrev pub placed : ℕ → ℕ → ℕ → HandleTable → Option ℕ → Result HandleError ℕ × HandleTable
placed object_id rights object_type t none = (err handle_table_full, t)
placed object_id rights object_type t (some idx) = (
  ok (idx + 1),
  record {
    handles = set t.handles idx (
        some (record {
          handle = idx + 1;
          object_id = object_id;
          rights = rights;
          object_type = object_type;
        }));
    next_index = (idx + 1) % max_handles;
    count = (t.count + 1) % 2 ^ 64;
  },
)

unfoldable pub alloc : ℕ → ℕ → ℕ → HandleTable → Result HandleError ℕ × HandleTable
alloc object_id rights object_type t =
    placed object_id rights object_type t
      (free_place max_handles t.next_index t.next_index t.handles)

-- Handles start at 1; the index of handle 0 wraps around.
abbrev pub index : ℕ → ℕ
index handle = (handle + (2 ^ 64 - 1)) % 2 ^ 64

unfoldable pub free : ℕ → HandleTable → Result HandleError (Unit {0}) × HandleTable
free handle t =
    if leb max_handles (index handle)
    then (err invalid_handle, t)
    else elim (slot t.handles (index handle)) [
      | none ↦ (err handle_not_allocated, t)
      | some e ↦ (
        ok tt,
        record t {
          handles = set t.handles (index handle) none;
          count = (t.count + (2 ^ 64 - 1)) % 2 ^ 64;
        },
      )
    ]

unfoldable pub get : ℕ → HandleTable → Result HandleError HandleEntry
get handle t =
    if leb max_handles (index handle)
    then err invalid_handle
    else elim (slot t.handles (index handle)) [ none ↦ err handle_not_allocated | some e ↦ ok e ]

abbrev pub check_entry : ℕ → Result HandleError HandleEntry → Result HandleError (Unit {0})
check_entry rights (err e) = err e
check_entry rights (ok entry) = if has entry.rights rights then ok tt else err insufficient_rights

unfoldable pub check_rights : ℕ → ℕ → HandleTable → Result HandleError (Unit {0})
check_rights handle rights t = check_entry rights (get handle t)
