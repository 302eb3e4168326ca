-- ===== src/Fs/Ramdisk.antt =====
-- The RAM disk: src/fs/ramdisk.rs, and the image that build.rs makes for it. The disk reads through raw
-- pointers, so that its bytes are those of the image and, behind it, of whatever lies there.
pub mod Image
mod Tests
use rustux.Base.{
  ℕ, zero, suc, ◌+◌, ◌-◌, ◌*◌, ◌%◌, ◌^◌, min, ◌==◌, Bool, true, false, if◌then◌else◌, Option, none,
  some, List, [], ◌∷◌, ◌++◌, length, get_elem?,
}
use rustux.Exec.Elf.{same_bytes}
use rustux.Exec.Elf.Digits.{le_bytes}

pub record RamdiskFile : Type 0 where
  pub name_offset : ℕ
  pub data_offset : ℕ
  pub size : ℕ
  pub pad : ℕ

pub record RamdiskSuperblock : Type 0 where
  pub magic : ℕ
  pub num_files : ℕ
  pub files_offset : ℕ

abbrev pub ramdisk_magic : ℕ
ramdisk_magic = 0x52555458

unfoldable pub is_valid : RamdiskSuperblock → Bool
is_valid sb = sb.magic == ramdisk_magic

-- `data` gives the byte at an offset from the image's start.
pub record Ramdisk : Type 0 where
  pub data_at : ℕ → ℕ
  pub superblock : RamdiskSuperblock

-- A u32 in memory, little-endian.
abbrev pub word : (ℕ → ℕ) → ℕ → ℕ
word at i = at i + 256 * (at (i + 1) + 256 * (at (i + 2) + 256 * at (i + 3)))

-- The same disk results whether the superblock is valid or not.
unfoldable pub from_embedded_data : (ℕ → ℕ) → Ramdisk
from_embedded_data at = record {
  data_at = at;
  superblock = record { magic = word at 0; num_files = word at 4; files_offset = word at 8 };
}

-- A file header in memory.
abbrev pub file_at : (ℕ → ℕ) → ℕ → RamdiskFile
file_at at i = record {
  name_offset = word at i;
  data_offset = word at (i + 4);
  size = word at (i + 8);
  pad = word at (i + 12);
}

-- The bytes up to a zero, or 256 of them.
unfoldable pub name_at : ℕ → (ℕ → ℕ) → ℕ → List ℕ
name_at zero at i = []
name_at (suc rounds) at i =
    let rest = name_at rounds at (i + 1) in if at i == 0 then [] else at i ∷ rest

-- The name without a leading slash.
abbrev pub stripped : List ℕ → List ℕ
stripped [] = []
stripped (c ∷ cs) = if c == 47 then cs else c ∷ cs

-- The first of `n` headers from `base` on whose file has the name.
unfoldable pub find_from : ℕ → (ℕ → ℕ) → ℕ → List ℕ → Option RamdiskFile
find_from zero at base name = none
find_from (suc n) at base name =
    let rest = find_from n at (base + 16) name in
    if same_bytes (name_at 256 at (file_at at base).name_offset) name
    then some (file_at at base)
    else rest

unfoldable pub find_file : List ℕ → Ramdisk → Option RamdiskFile
find_file name d =
    find_from d.superblock.num_files d.data_at d.superblock.files_offset (stripped name)

abbrev pub bytes_at : ℕ → (ℕ → ℕ) → ℕ → List ℕ
bytes_at zero at i = []
bytes_at (suc n) at i = at i ∷ bytes_at n at (i + 1)

-- What is read into a buffer of `len` bytes.
unfoldable pub read_file : RamdiskFile → ℕ → Ramdisk → List ℕ
read_file file len d = bytes_at (min len file.size) d.data_at file.data_offset

abbrev pub file_size : RamdiskFile → ℕ
file_size file = file.size

-- The names of `n` files whose headers start at `base`.
unfoldable pub names_from : ℕ → (ℕ → ℕ) → ℕ → List (List ℕ)
names_from zero at base = []
names_from (suc n) at base =
    name_at 256 at (file_at at base).name_offset ∷ names_from n at (base + 16)

unfoldable pub list_files : Ramdisk → List (List ℕ)
list_files d = names_from d.superblock.num_files d.data_at d.superblock.files_offset

abbrev pub file_count : Ramdisk → ℕ
file_count d = d.superblock.num_files

unfoldable pub is_empty : Ramdisk → Bool
is_empty d = d.superblock.num_files == 0

-- The current offset into a file; its sum saturates.
abbrev pub offset_add : ℕ → ℕ → ℕ
offset_add delta current = min (current + delta) (2 ^ 64 - 1)

-- A file that the build embeds.
pub record Source : Type 0 where
  pub name : List ℕ
  pub contents : List ℕ

-- The build's first pass: the headers, with the offset so far. The offset moves by the name and its
-- zero only.
unfoldable pub file_entries : ℕ → List Source → List RamdiskFile
file_entries data_offset [] = []
file_entries data_offset (f ∷ fs) =
    record {
      name_offset = data_offset;
      data_offset = data_offset + length f.name + 1;
      size = length f.contents;
      pad = 0;
    }
    ∷ file_entries (data_offset + length f.name + 1) fs

abbrev pub entry_bytes : List RamdiskFile → List ℕ
entry_bytes [] = []
entry_bytes (e ∷ es) =
    le_bytes 4 e.name_offset
    ++ (le_bytes 4 e.data_offset ++ (le_bytes 4 e.size ++ (le_bytes 4 e.pad ++ entry_bytes es)))

-- The names, each with its zero and the file's contents.
abbrev pub body : List Source → List ℕ
body [] = []
body (f ∷ fs) = f.name ++ (0 ∷ (f.contents ++ body fs))

abbrev pub names_offset : List Source → ℕ
names_offset fs = 12 + 16 * length fs

-- The build's second pass: the image.
unfoldable pub image : List Source → List ℕ
image fs =
    le_bytes 4 ramdisk_magic
    ++ (le_bytes 4 (length fs)
        ++ (le_bytes 4 12 ++ (entry_bytes (file_entries (names_offset fs) fs) ++ body fs)))
