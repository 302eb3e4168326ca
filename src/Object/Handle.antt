-- ===== src/Object/Handle.antt =====
-- Handles and the reference count of the kernel objects they point to: src/object/handle.rs.
-- Kernel memory is a function from addresses to objects, so that two handles may share one object.
pub mod Laws
use rustux.Base.{
  ℕ, ◌+◌, ◌-◌, ◌%◌, ◌^◌, Bool, true, false, not, ◌&&◌, ◌==◌, if◌then◌else◌, Option, none, some,
  is_none, Result, ok, err, Error, invalid_handle,
}
use rustux.Object.Rights.{Rights, ObjectType}
use rustux.Object.Rights

pub record KernelObjectBase : Type 0 where
  pub obj_type : ObjectType
  pub ref_count : ℕ
  pub destroying : Bool

-- Kernel memory, and `NEXT_HANDLE_ID`.
pub record Store : Type 0 where
  pub objects : ℕ → KernelObjectBase
  pub next_handle_id : ℕ

-- `*const KernelObjectBase`: `none` is the null pointer.
abbrev pub Pointer : Type 0
Pointer = Option ℕ

pub record Handle : Type 0 where
  pub id : ℕ
  pub base : Pointer
  pub rights : Rights

unfoldable pub object : ObjectType → KernelObjectBase
object t = record { obj_type = t; ref_count = 1; destroying = false }

abbrev pub update : (ℕ → KernelObjectBase) → ℕ → KernelObjectBase → ℕ → KernelObjectBase
update m p v q = if q == p then v else m q

-- `fetch_add` and `fetch_sub` of a `usize` wrap.
unfoldable pub inc : KernelObjectBase → KernelObjectBase
inc o = record o { ref_count = (o.ref_count + 1) % 2 ^ 64 }

unfoldable pub dec : KernelObjectBase → KernelObjectBase
dec o = record o { ref_count = (o.ref_count + (2 ^ 64 - 1)) % 2 ^ 64 }

unfoldable pub ref_inc : ℕ → Store → Store
unfolding inc
ref_inc p s = record s { objects = update s.objects p (inc (s.objects p)) }

-- The Boolean says that this was the last reference.
unfoldable pub ref_dec : ℕ → Store → Bool × Store
unfolding dec
ref_dec p s =
    ((s.objects p).ref_count == 1, record s { objects = update s.objects p (dec (s.objects p)) })

unfoldable pub mark_destroying : ℕ → Store → Store
mark_destroying p s = record s {
  objects = update s.objects p (record (s.objects p) { destroying = true });
}

unfoldable pub alloc_handle_id : Store → ℕ × Store
alloc_handle_id s =
    (s.next_handle_id, record s { next_handle_id = (s.next_handle_id + 1) % 2 ^ 64 })

unfoldable pub new : Pointer → Rights → Store → Handle × Store
unfolding alloc_handle_id
new base rights s =
    let (id, s') = alloc_handle_id s in (record { id = id; base = base; rights = rights }, s')

-- `Clone for Handle`: a new id and the same object, whose count stays as it is.
unfoldable pub clone : Handle → Store → Handle × Store
unfolding new
clone self s = new self.base self.rights s

unfoldable pub is_valid : Handle → Bool
unfolding Rights.is_none
is_valid self = not (is_none self.base) && not (Rights.is_none self.rights)

unfoldable pub require : Handle → Rights → Result Error (Unit {0})
unfolding is_valid Rights.require Rights.contains
require self required =
    if not (is_valid self) then err invalid_handle else Rights.require self.rights required

unfoldable pub has_right : Handle → Rights → Bool
unfolding is_valid Rights.contains
has_right self right = is_valid self && Rights.contains self.rights right

unfoldable pub obj_type : Handle → Store → ObjectType
obj_type self s = elim self.base [ none ↦ Rights.unknown | some p ↦ (s.objects p).obj_type ]

unfoldable pub object_type : Handle → Store → ObjectType
unfolding is_valid obj_type
object_type self s = if not (is_valid self) then Rights.unknown else obj_type self s

-- `if !base.is_null() { (*base).ref_inc() }`
unfoldable pub ref_inc_base : Pointer → Store → Store
unfolding ref_inc
ref_inc_base none s = s
ref_inc_base (some p) s = ref_inc p s

unfoldable pub ref_dec_base : Pointer → Store → Store
unfolding ref_dec
ref_dec_base none s = s
ref_dec_base (some p) s = (ref_dec p s).1

-- The rights of a duplicate under a mask.
unfoldable pub masked : Rights → Rights → Rights
unfolding Rights.contains Rights.reduce
masked rights mask =
    if Rights.contains mask Rights.same_rights then rights else Rights.reduce rights mask

-- A handle to the object of another, with an id of its own, once the object is counted.
unfoldable pub share : Pointer → Rights → Store → Handle × Store
unfolding ref_inc_base new
share base rights s = new base rights (ref_inc_base base s)

unfoldable pub duplicate : Handle → Store → Result Error Handle × Store
unfolding is_valid require share
duplicate self s =
    if not (is_valid self) then (err invalid_handle, s) else elim (require self Rights.duplicate) [
      | err e ↦ (err e, s)
      | ok _ ↦ let (h, s') = share self.base self.rights s in (ok h, s')
    ]

unfoldable pub duplicate_with_mask : Handle → Rights → Store → Result Error Handle × Store
unfolding is_valid require masked share
duplicate_with_mask self mask s =
    if not (is_valid self) then (err invalid_handle, s) else elim (require self Rights.duplicate) [
      | err e ↦ (err e, s)
      | ok _ ↦ let (h, s') = share self.base (masked self.rights mask) s in (ok h, s')
    ]

unfoldable pub close : Handle → Store → Bool × Store
unfolding ref_dec
close self s = elim self.base [ none ↦ (false, s) | some p ↦ ref_dec p s ]

-- `HandleOwner`, and its `Drop`.
pub record HandleOwner : Type 0 where
  pub handle : Handle

unfoldable pub owner : Pointer → Rights → Store → HandleOwner × Store
unfolding new
owner base rights s = let (h, s') = new base rights s in (record { handle = h }, s')

-- The handle is moved out and `forget` keeps the owner from closing it.
unfoldable pub take : HandleOwner → Handle
take self = self.handle

unfoldable pub drop : HandleOwner → Store → Store
unfolding close
drop self s = (close self.handle s).1
