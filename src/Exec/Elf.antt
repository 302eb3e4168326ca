-- ===== src/Exec/Elf.antt =====
-- ELF files: the headers that src/exec/elf.rs reads. A file is the list of its bytes; the kernel is built
-- in release mode, where sums of usize wrap around at 2 ^ 64.
pub mod Digits
pub mod Headers
pub mod Table
pub mod Load
pub mod Contents
pub mod Segments
pub mod Limits
mod Tests
use rustux.Base.{
  ℕ, zero, suc, ◌+◌, ◌*◌, ◌%◌, ◌^◌, ltb, leb, ◌==◌, ◌||◌, not, Bool, true, false, if◌then◌else◌,
  Option, none, some, List, [], ◌∷◌, ◌++◌, length, get_elem?, take, drop, replicate, Result, ok,
  err, Error, Outcome, returns, panics, elf_file_too_small, invalid_elf_magic, not_a_64_bit_elf,
  not_little_endian, not_an_executable, not_x86_64, no_program_headers,
  invalid_program_header_table,
}

-- The bytes of 0x7f and "ELF".
abbrev pub elf_magic : List ℕ
elf_magic = 0x7f ∷ 0x45 ∷ 0x4c ∷ 0x46 ∷ []

abbrev pub elfclass64 : ℕ
elfclass64 = 2

abbrev pub elfdata2lsb : ℕ
elfdata2lsb = 1

abbrev pub em_x86_64 : ℕ
em_x86_64 = 62

abbrev pub et_exec : ℕ
et_exec = 2

abbrev pub pt_load : ℕ
pt_load = 1

pub record ElfHeader : Type 0 where
  pub e_ident : List ℕ
  pub e_type : ℕ
  pub e_machine : ℕ
  pub e_version : ℕ
  pub e_entry : ℕ
  pub e_phoff : ℕ
  pub e_shoff : ℕ
  pub e_flags : ℕ
  pub e_ehsize : ℕ
  pub e_phentsize : ℕ
  pub e_phnum : ℕ
  pub e_shentsize : ℕ
  pub e_shnum : ℕ
  pub e_shstrndx : ℕ

pub record ProgramHeader : Type 0 where
  pub p_type : ℕ
  pub p_flags : ℕ
  pub p_offset : ℕ
  pub p_vaddr : ℕ
  pub p_paddr : ℕ
  pub p_filesz : ℕ
  pub p_memsz : ℕ
  pub p_align : ℕ

abbrev pub or_zero : Option ℕ → ℕ
or_zero none = 0
or_zero (some b) = b

-- `data[i]`, where the code has made sure that it is there.
abbrev pub byte : List ℕ → ℕ → ℕ
byte file i = or_zero (get_elem? file i)

-- `from_le_bytes` of the `n` bytes at `i`.
abbrev pub from_le_bytes : ℕ → List ℕ → ℕ → ℕ
from_le_bytes zero file i = 0
from_le_bytes (suc n) file i = byte file i + 256 * from_le_bytes n file (i + 1)

abbrev pub u16_at : List ℕ → ℕ → ℕ
u16_at file i = from_le_bytes 2 file i

abbrev pub u32_at : List ℕ → ℕ → ℕ
u32_at file i = from_le_bytes 4 file i

abbrev pub u64_at : List ℕ → ℕ → ℕ
u64_at file i = from_le_bytes 8 file i

-- Whether two slices have the same bytes.
abbrev pub same_bytes : List ℕ → List ℕ → Bool
same_bytes [] [] = true
same_bytes [] (b ∷ bs) = false
same_bytes (a ∷ as_) [] = false
same_bytes (a ∷ as_) (b ∷ bs) = if a == b then same_bytes as_ bs else false

abbrev pub header_at : List ℕ → ElfHeader
header_at file = record {
  e_ident =
      elf_magic
      ++ (byte file 4 ∷ byte file 5 ∷ byte file 6 ∷ byte file 7 ∷ byte file 8 ∷ replicate 7 0);
  e_type = u16_at file 16;
  e_machine = u16_at file 18;
  e_version = 1;
  e_entry = u64_at file 24;
  e_phoff = u64_at file 32;
  e_shoff = u64_at file 40;
  e_flags = 0;
  e_ehsize = 64;
  e_phentsize = u16_at file 54;
  e_phnum = u16_at file 56;
  e_shentsize = 0;
  e_shnum = 0;
  e_shstrndx = 0;
}

unfoldable pub parse_elf_header : List ℕ → Result Error ElfHeader
parse_elf_header file =
    if ltb (length file) 64
    then err elf_file_too_small
    else if not (same_bytes (take 4 file) elf_magic)
    then err invalid_elf_magic
    else if not (byte file 4 == elfclass64)
    then err not_a_64_bit_elf
    else if not (byte file 5 == elfdata2lsb)
    then err not_little_endian
    else ok (header_at file)

abbrev pub program_header_at : List ℕ → ℕ → ProgramHeader
program_header_at file at = record {
  p_type = u32_at file at;
  p_flags = u32_at file (at + 4);
  p_offset = u64_at file (at + 8);
  p_vaddr = u64_at file (at + 16);
  p_paddr = u64_at file (at + 24);
  p_filesz = u64_at file (at + 32);
  p_memsz = u64_at file (at + 40);
  p_align = u64_at file (at + 48);
}

-- Adds a header in front of those of the later rounds.
abbrev pub pushed : ProgramHeader → Outcome (List ProgramHeader) → Outcome (List ProgramHeader)
pushed ph panics = panics
pushed ph (returns phs) = returns (ph ∷ phs)

-- What a round does with the entry at `offset`: nothing is read past the end of the file. A slice that
-- ends before it starts, or an entry of fewer than 56 bytes, panics.
abbrev pub entry_at : List ℕ → ℕ → ℕ → Outcome (List ProgramHeader) → Outcome (List ProgramHeader)
entry_at file phentsize offset rest =
    if ltb (length file) ((offset + phentsize) % 2 ^ 64)
    then returns []
    else if ltb ((offset + phentsize) % 2 ^ 64) offset
    then panics
    else if ltb phentsize 56
    then panics
    else pushed (program_header_at file offset) rest

-- The rounds from `i` on.
unfoldable pub headers_from : ℕ → ℕ → List ℕ → ℕ → ℕ → Outcome (List ProgramHeader)
headers_from zero i file phoff phentsize = returns []
headers_from (suc rounds) i file phoff phentsize =
    entry_at file phentsize ((phoff + i * phentsize) % 2 ^ 64)
      (headers_from rounds (i + 1) file phoff phentsize)

unfoldable pub parse_program_headers : List ℕ → ℕ → ℕ → ℕ → Outcome (List ProgramHeader)
parse_program_headers file phoff phentsize phnum = headers_from phnum 0 file phoff phentsize

unfoldable pub validate_elf_header : ElfHeader → Result Error (Unit {0})
validate_elf_header header =
    if not (header.e_type == et_exec)
    then err not_an_executable
    else if not (header.e_machine == em_x86_64)
    then err not_x86_64
    else if header.e_phnum == 0
    then err no_program_headers
    else if (header.e_phoff == 0) || ltb header.e_phentsize 56
    then err invalid_program_header_table
    else ok tt

unfoldable pub is_elf_file : List ℕ → Bool
is_elf_file file = if ltb (length file) 4 then false else same_bytes (take 4 file) elf_magic
