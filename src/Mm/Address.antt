-- ===== src/Mm/Address.antt =====
-- Pages and addresses: the conversions of src/mm/pmm.rs. An address is a `u64`, a size a `usize`, both
-- below 2 ^ 64; `!PAGE_MASK` is written as a difference.
pub mod Laws
use rustux.Base.{ℕ, ◌+◌, ◌-◌, ◌*◌, ◌/◌, ◌%◌, ◌^◌, ◌==◌, ltb, if◌then◌else◌, Bool, bit_and}

abbrev pub page_size : ℕ
page_size = 4096

abbrev pub page_size_shift : ℕ
page_size_shift = 12

abbrev pub page_mask : ℕ
page_mask = page_size - 1

unfoldable pub is_page_aligned : ℕ → Bool
is_page_aligned addr = bit_and addr page_mask == 0

unfoldable pub align_page_down : ℕ → ℕ
align_page_down addr = bit_and addr (2 ^ 64 - 1 - page_mask)

unfoldable pub align_page_up : ℕ → ℕ
align_page_up addr = bit_and ((addr + page_mask) % 2 ^ 64) (2 ^ 64 - 1 - page_mask)

unfoldable pub bytes_to_pages : ℕ → ℕ
bytes_to_pages bytes = (bytes + page_mask) % 2 ^ 64 / page_size

unfoldable pub pages_to_bytes : ℕ → ℕ
pages_to_bytes pages = pages * 2 ^ page_size_shift % 2 ^ 64

abbrev pub kernel_phys_offset : ℕ
kernel_phys_offset = 0xffff800000000000

abbrev pub identity_map_limit : ℕ
identity_map_limit = 0x80000000

unfoldable pub paddr_to_vaddr : ℕ → ℕ
paddr_to_vaddr paddr =
    if ltb paddr identity_map_limit then paddr else (kernel_phys_offset + paddr) % 2 ^ 64

unfoldable pub paddr_to_vaddr_user_zone : ℕ → ℕ
paddr_to_vaddr_user_zone paddr =
    if ltb paddr identity_map_limit then paddr else (kernel_phys_offset + paddr) % 2 ^ 64
