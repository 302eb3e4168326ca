-- ===== src/Base/Results.antt =====
-- `Result<T, E>`, and outcomes of code that may panic.
use mathlib.Core.Bool.{Bool, true, false}

pub data Result {ℓ κ} (E : Type ℓ) (A : Type κ) : Type (ℓ ⊔ κ) where
  ok : A → Result E A
  err : E → Result E A

-- A call that indexes out of an array's bounds, or that says `panic!`, does not return.
pub data Outcome {ℓ} (A : Type ℓ) : Type ℓ where
  returns : A → Outcome A
  panics : Outcome A

-- The messages of the `Err(&'static str)` results, one constructor for each.
pub data Error : Type 0 where
  access_denied invalid_handle handle_table_full invalid_handle_value : Error
  handle_not_found duplicate_right_not_held : Error
  channel_not_active message_too_large too_many_handles channel_full peer_closed : Error
  no_messages : Error
  no_current_process process_not_found process_not_ready : Error
  maximum_threads_reached no_free_thread_slots thread_not_found thread_not_blocked : Error
  timer_not_armed timer_already_fired timer_canceled period_cannot_be_zero : Error
  size_cannot_be_zero vmo_not_resizable offset_out_of_bounds : Error
  failed_to_allocate_user_page page_not_present failed_to_allocate_page_for_clone : Error
  elf_file_too_small invalid_elf_magic not_a_64_bit_elf not_little_endian : Error
  not_an_executable not_x86_64 no_program_headers invalid_program_header_table : Error
  segment_beyond_file failed_to_create_vmo failed_to_write_segment failed_to_zero_bss : Error

abbrev pub is_ok {ℓ κ} : {E : Type ℓ} {A : Type κ} → Result E A → Bool
is_ok (ok a) = true
is_ok (err e) = false
