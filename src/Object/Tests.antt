-- ===== src/Object/Tests.antt =====
-- The theorems on rights and handles at concrete values.
use rustux.Base.{false, some, ok, err}
use rustux.Object.Rights.{
  Rights, contains, reduce, remove, add, from_raw, into_raw, default_for_type,
}
use rustux.Object.Rights
use rustux.Object.Handle.{Handle, Store, duplicate}

abbrev memory : Store
memory = record {
  objects = λ a. record { obj_type = Rights.timer; ref_count = 3; destroying = false };
  next_handle_id = 2;
}

abbrev timer_handle : Handle
timer_handle = record { id = 1; base = some 8192; rights = 0x21 }

copied : Handle × Store
copied = elim (duplicate timer_handle memory).0 [
  | ok k ↦ (k, (duplicate timer_handle memory).1)
  | err e ↦ (timer_handle, memory)
]
