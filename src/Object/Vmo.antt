-- ===== src/Object/Vmo.antt =====
-- Virtual memory objects: src/object/vmo.rs, over the kernel's bytes by virtual address and over a
-- source of pages, whose interface `pmm_alloc_user_page` of src/mm/pmm.rs fills.
pub mod Pages
pub mod Bytes
pub mod Writes
pub mod Apart
pub mod Allocation
pub mod Copies
pub mod Cloning
pub mod Clones
pub mod Source
mod Tests
use rustux.Base.{
  ℕ, zero, suc, ◌+◌, ◌-◌, ◌*◌, ◌/◌, ◌%◌, ◌^◌, min, ltb, leb, ◌==◌, if◌then◌else◌, Bool, true, false,
  not, Option, none, some, is_some, List, [], ◌∷◌, ◌++◌, length, take, drop, replicate, Result, ok,
  err, Error, Outcome, returns, panics, bit_and, bit_or, size_cannot_be_zero, vmo_not_resizable,
  offset_out_of_bounds, failed_to_allocate_user_page, page_not_present,
  failed_to_allocate_page_for_clone,
}
use rustux.Object.Rights
use rustux.Object.Handle.{KernelObjectBase, object}
use rustux.Mm.Address.{page_size, paddr_to_vaddr_user_zone}

abbrev pub flags_empty : ℕ
flags_empty = 0

abbrev pub flags_resizable : ℕ
flags_resizable = 0x01

abbrev pub flags_cow : ℕ
flags_cow = 0x02

unfoldable pub is_resizable : ℕ → Bool
is_resizable flags = not (bit_and flags flags_resizable == 0)

unfoldable pub is_cow : ℕ → Bool
is_cow flags = not (bit_and flags flags_cow == 0)

pub data CachePolicy : Type 0 where
  default uncached write_combining write_through : CachePolicy

unfoldable pub policy_from_raw : ℕ → CachePolicy
policy_from_raw raw =
    if raw == 1
    then uncached
    else if raw == 2
    then write_combining
    else if raw == 3
    then write_through
    else default

abbrev pub policy_into_raw : CachePolicy → ℕ
policy_into_raw default = 0
policy_into_raw uncached = 1
policy_into_raw write_combining = 2
policy_into_raw write_through = 3

pub record PageMapEntry : Type 0 where
  pub paddr : ℕ
  pub present : Bool
  pub writable : Bool

-- `BTreeMap<usize, PageMapEntry>`: the entries by ascending offset.
abbrev pub PageMap : Type 0
PageMap = List (ℕ × PageMapEntry)

unfoldable pub lookup : ℕ → PageMap → Option PageMapEntry
lookup key [] = none
lookup key ((k, e) ∷ ps) = let rest = lookup key ps in if k == key then some e else rest

-- `insert`: an entry under the same key is replaced.
unfoldable pub insert : ℕ → PageMapEntry → PageMap → PageMap
insert key entry [] = (key, entry) ∷ []
insert key entry ((k, e) ∷ ps) =
    let rest = insert key entry ps in
    if key == k
    then (key, entry) ∷ ps
    else if ltb key k
    then (key, entry) ∷ (k, e) ∷ ps
    else (k, e) ∷ rest

pub record Vmo : Type 0 where
  pub base : KernelObjectBase
  pub id : ℕ
  pub size : ℕ
  pub flags : ℕ
  pub cache_policy : CachePolicy
  pub pages : PageMap
  pub parent : Option ℕ

abbrev pub round_up : ℕ → ℕ
round_up size = (size + page_size - 1) % 2 ^ 64 / page_size * page_size

-- With the next VMO's ID, before and after.
unfoldable pub create : ℕ → ℕ → ℕ → Result Error (Vmo × ℕ)
create size flags next_vmo_id =
    if size == 0
    then err size_cannot_be_zero
    else ok (
      record {
        base = object Rights.vmo;
        id = next_vmo_id;
        size = round_up size;
        flags = flags;
        cache_policy = default;
        pages = [];
        parent = none;
      },
      (next_vmo_id + 1) % 2 ^ 64,
    )

unfoldable pub resize : ℕ → Vmo → Result Error Vmo
resize new_size v =
    if not (is_resizable v.flags)
    then err vmo_not_resizable
    else ok (record v { size = round_up new_size })

-- The kernel's bytes, by virtual address.
abbrev pub Memory : Type 0
Memory = ℕ → ℕ

abbrev pub put : ℕ → ℕ → Memory → Memory
put a b m x = if x == a then b else m x

-- `copy_nonoverlapping` from a slice, and to one.
abbrev pub copy_to : ℕ → List ℕ → Memory → Memory
copy_to a [] m = m
copy_to a (b ∷ bs) m = copy_to (a + 1) bs (put a b m)

abbrev pub copy_from : ℕ → ℕ → Memory → List ℕ
copy_from a zero m = []
copy_from a (suc n) m = m a ∷ copy_from (a + 1) n m

abbrev pub page_key : ℕ → ℕ
page_key offset = offset / page_size * page_size

-- How many of the bytes left lie in the page of the offset.
abbrev pub in_page : ℕ → ℕ → ℕ
in_page offset remaining = min remaining (page_size - offset % page_size)

-- The first pass of `write`: the pages that are missing. Each round takes at least a byte, so that
-- `remaining` rounds are enough.
unfoldable pub missing_keys : ℕ → ℕ → ℕ → PageMap → List ℕ
missing_keys zero offset remaining pages = []
missing_keys (suc rounds) offset zero pages = []
missing_keys (suc rounds) offset (suc left) pages =
    let n = in_page offset (suc left) in
    let rest = missing_keys rounds (offset + n) (suc left - n) pages in
    if is_some (lookup (page_key offset) pages) then rest else page_key offset ∷ rest

-- An entry for a page that is new.
abbrev pub fresh_entry : ℕ → PageMapEntry
fresh_entry paddr = record { paddr = paddr; present = true; writable = true }

-- `entry(key).or_insert(entry)`.
abbrev pub or_insert : ℕ → PageMapEntry → PageMap → PageMap
or_insert key entry pages = if is_some (lookup key pages) then pages else insert key entry pages

abbrev pub Stored : Type 0
Stored = Outcome (Result Error (Unit {0}) × Memory)

-- What is done with the entry of a page that is looked up: without one `unwrap` panics.
abbrev pub with_page : Option PageMapEntry → (PageMapEntry → Stored) → Memory → Stored
with_page none k m = panics
with_page (some e) k m = elim e.present [ false ↦ returns (err page_not_present, m) | true ↦ k e ]

-- The third pass of `write`.
unfoldable pub store : ℕ → ℕ → List ℕ → PageMap → Memory → Stored
store zero offset bytes pages m = returns (ok tt, m)
store (suc rounds) offset [] pages m = returns (ok tt, m)
store (suc rounds) offset (b ∷ bs) pages m =
    let n = in_page offset (length (b ∷ bs)) in
    with_page (lookup (page_key offset) pages)
      (λ e.
        store rounds (offset + n) (drop n (b ∷ bs)) pages
          (copy_to (paddr_to_vaddr_user_zone e.paddr + offset % page_size) (take n (b ∷ bs)) m))
      m

-- The loop of `read`: what is put into the buffer.
unfoldable pub load : ℕ → ℕ → ℕ → PageMap → Memory → List ℕ
load zero offset remaining pages m = []
load (suc rounds) offset zero pages m = []
load (suc rounds) offset (suc left) pages m =
    let n = in_page offset (suc left) in
    elim (lookup (page_key offset) pages) [
      | none ↦ replicate n 0
      | some e ↦ copy_from (paddr_to_vaddr_user_zone e.paddr + offset % page_size) n m
    ]
    ++ load rounds (offset + n) (suc left - n) pages m

-- Where an access of `len` bytes at `offset` ends.
abbrev pub end_of : ℕ → ℕ → Vmo → ℕ
end_of offset len v = min ((offset + len) % 2 ^ 64) v.size

-- The bytes that are read, into the first places of a buffer of `len` bytes. Where the end wraps around
-- to before the offset the source computes with a length near 2 ^ 64, and leaves the buffer.
unfoldable pub read : ℕ → ℕ → Vmo → Memory → Outcome (Result Error (List ℕ))
read offset len v m =
    if leb v.size offset
    then returns (err offset_out_of_bounds)
    else if ltb (end_of offset len v) offset
    then panics
    else returns
        (ok (load (end_of offset len v - offset) offset (end_of offset len v - offset) v.pages m))
