-- ===== src/Mm/Address/Laws.antt =====
-- What the page arithmetic of src/mm/pmm.rs computes.
use rustux.Base.{ℕ, ◌+◌, ◌-◌, ◌*◌, ◌/◌, ◌%◌, ◌^◌, ◌≤◌, ◌<◌, ◌≡◌, true, arith, bit_and, refl}
use rustux.Base.Bits.{bit_and_low_mask, bit_and_split}
use rustux.Mm.Address.{
  page_size, page_mask, is_page_aligned, align_page_down, align_page_up, bytes_to_pages,
  pages_to_bytes, paddr_to_vaddr, paddr_to_vaddr_user_zone,
}

mask_rem : (a : ℕ) → bit_and a page_mask ≡ a % page_size
mask_rem a = bit_and_low_mask 12 a

mask_high : (a : ℕ) → a < 2 ^ 64 → bit_and a (2 ^ 64 - 1 - page_mask) + a % page_size ≡ a
mask_high a h = omega (arith, bit_and_split 64 a page_mask h (omega arith), mask_rem a)

aligned_down : (a : ℕ) → a < 2 ^ 64 → bit_and a (2 ^ 64 - 1 - page_mask) ≡ a / page_size * page_size
aligned_down a h = omega (arith, mask_high a h)

-- Aligning up gives the least multiple of the page size that is not below the address, aligning down
-- the greatest that is not above it, as long as there is one below 2 ^ 64; both are page-aligned.
pub align_page_lem :
    (a : ℕ)
    → a + page_mask < 2 ^ 64
    → (is_page_aligned (align_page_down a) ≡ true)
      × (is_page_aligned (align_page_up a) ≡ true)
      × (align_page_down a ≤ a)
      × (a ≤ align_page_up a)
      × ((b : ℕ) → is_page_aligned b ≡ true → b ≤ a → b ≤ align_page_down a)
      × ((b : ℕ) → is_page_aligned b ≡ true → a ≤ b → align_page_up a ≤ b)
unfolding is_page_aligned align_page_down align_page_up
align_page_lem a h =
    let down = aligned_down a (omega arith) in
    let up = aligned_down ((a + page_mask) % 2 ^ 64) (omega arith) in
    (
      ground (arith, down, mask_rem (align_page_down a)),
      ground (arith, up, mask_rem (align_page_up a)),
      omega (arith, down),
      omega (arith, up),
      λ b aligned le. ground (arith, down, mask_rem b),
      λ b aligned le. ground (arith, up, mask_rem b),
    )

-- Whole pages survive the way to bytes and back, and bytes are never rounded down.
pub bytes_to_pages-pages_to_bytes :
    (n bytes : ℕ)
    → n < 2 ^ 52
    → bytes + page_mask < 2 ^ 64
    → (bytes_to_pages (pages_to_bytes n) ≡ n)
      × (bytes ≤ bytes_to_pages bytes * page_size)
      × (bytes_to_pages bytes * page_size < bytes + page_size)
unfolding bytes_to_pages pages_to_bytes
bytes_to_pages-pages_to_bytes n bytes hn hb = (omega arith, omega arith, omega arith)

-- The kernel's and the user's mapping give the same virtual address for every physical address.
pub paddr_to_vaddr-user_zone : (paddr : ℕ) → paddr_to_vaddr_user_zone paddr ≡ paddr_to_vaddr paddr
unfolding paddr_to_vaddr paddr_to_vaddr_user_zone
paddr_to_vaddr-user_zone paddr = refl

-- Below the end of physical memory that the direct mapping can reach, two physical addresses are
-- never mapped to one virtual address.
pub paddr_to_vaddr-injective :
    (p q : ℕ) → p < 2 ^ 47 → q < 2 ^ 47 → paddr_to_vaddr p ≡ paddr_to_vaddr q → p ≡ q
unfolding paddr_to_vaddr
paddr_to_vaddr-injective p q hp hq e = ground arith
