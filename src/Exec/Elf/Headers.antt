-- ===== src/Exec/Elf/Headers.antt =====
-- What `parse_elf_header` of src/exec/elf.rs reads of a file.
use rustux.Base.{
  ℕ, ◌^◌, ◌<◌, ◌≡◌, ap, false, List, [], ◌∷◌, ◌++◌, arith, length, replicate, ltb, ok,
}
use rustux.Exec.Elf.{ElfHeader, elf_magic, header_at, parse_elf_header}
use rustux.Exec.Elf.Digits.{le_bytes, from_le_bytes-le_bytes}

-- A header of class 64 in little-endian: the parts that the parser reads, and behind them those that it
-- does not.
pub record Fields : Type 0 where
  pub version : ℕ
  pub os_abi : ℕ
  pub abi_version : ℕ
  pub file_type : ℕ
  pub machine : ℕ
  pub entry : ℕ
  pub phoff : ℕ
  pub shoff : ℕ
  pub phentsize : ℕ
  pub phnum : ℕ
  pub padding : ℕ
  pub file_version : ℕ
  pub flags : ℕ
  pub ehsize : ℕ
  pub shentsize : ℕ
  pub shnum : ℕ
  pub shstrndx : ℕ

-- Every field that is read fits its place.
pub record Fits (h : Fields) : Type 0 where
  pub words : (h.file_type < 256 ^ 2) × (h.machine < 256 ^ 2)
  pub table : (h.phentsize < 256 ^ 2) × (h.phnum < 256 ^ 2)
  pub addresses : (h.entry < 256 ^ 8) × (h.phoff < 256 ^ 8) × (h.shoff < 256 ^ 8)

-- A file with the header, as the ELF format lays it out.
abbrev pub header_file : Fields → List ℕ → List ℕ
header_file h rest =
    elf_magic
    ++ ((2 ∷ 1 ∷ h.version ∷ h.os_abi ∷ h.abi_version ∷ le_bytes 7 h.padding)
        ++ (le_bytes 2 h.file_type
            ++ (le_bytes 2 h.machine
                ++ (le_bytes 4 h.file_version
                    ++ (le_bytes 8 h.entry
                        ++ (le_bytes 8 h.phoff
                            ++ (le_bytes 8 h.shoff
                                ++ (le_bytes 4 h.flags
                                    ++ (le_bytes 2 h.ehsize
                                        ++ (le_bytes 2 h.phentsize
                                            ++ (le_bytes 2 h.phnum
                                                ++ (le_bytes 2 h.shentsize
                                                    ++ (le_bytes 2 h.shnum
                                                        ++ (le_bytes 2 h.shstrndx
                                                            ++ rest))))))))))))))

-- What is read of the header, with fixed values in place of the padding, of the version, flags and size,
-- and of the fields on the section headers' size, number and names.
abbrev pub parsed : Fields → ElfHeader
parsed h = record {
  e_ident = elf_magic ++ (2 ∷ 1 ∷ h.version ∷ h.os_abi ∷ h.abi_version ∷ replicate 7 0);
  e_type = h.file_type;
  e_machine = h.machine;
  e_version = 1;
  e_entry = h.entry;
  e_phoff = h.phoff;
  e_shoff = h.shoff;
  e_flags = 0;
  e_ehsize = 64;
  e_phentsize = h.phentsize;
  e_phnum = h.phnum;
  e_shentsize = 0;
  e_shnum = 0;
  e_shstrndx = 0;
}

-- A header with seven fields exchanged for equal ones.
same_header :
    (h : ElfHeader) (a b c d e f g : ℕ)
    → h.e_type ≡ a
    → h.e_machine ≡ b
    → h.e_entry ≡ c
    → h.e_phoff ≡ d
    → h.e_shoff ≡ e
    → h.e_phentsize ≡ f
    → h.e_phnum ≡ g
    → h ≡ record h {
      e_type = a;
      e_machine = b;
      e_entry = c;
      e_phoff = d;
      e_shoff = e;
      e_phentsize = f;
      e_phnum = g;
    }
same_header h a b c d e f g p1 p2 p3 p4 p5 p6 p7 = cc

-- Parsing a file whose header is laid out as the ELF format says, little-endian and of class 64, gives
-- back the identification without its padding, the type, the machine, the entry point, the offsets of both
-- tables, and the size and number of the program headers, if each fits its place. The other fields,
-- whatever the file has there, come out as fixed values: version 1, header size 64, and 0 for the padding,
-- the flags and the size, number and name index of the section headers.
pub parse_elf_header-header_file :
    (h : Fields) (rest : List ℕ) → Fits h → parse_elf_header (header_file h rest) ≡ ok (parsed h)
unfolding parse_elf_header
parse_elf_header-header_file h rest fits =
    let long : ltb (length (header_file h rest)) 64 ≡ false = ground arith in
    rw long (
      ap ok (
        same_header (header_at (header_file h rest)) h.file_type h.machine h.entry h.phoff h.shoff
          h.phentsize h.phnum (from_le_bytes-le_bytes 2 h.file_type [] fits.words.0)
          (from_le_bytes-le_bytes 2 h.machine [] fits.words.1)
          (from_le_bytes-le_bytes 8 h.entry [] fits.addresses.0)
          (from_le_bytes-le_bytes 8 h.phoff [] fits.addresses.1)
          (from_le_bytes-le_bytes 8 h.shoff [] fits.addresses.2)
          (from_le_bytes-le_bytes 2 h.phentsize [] fits.table.0)
          (from_le_bytes-le_bytes 2 h.phnum [] fits.table.1)))
