-- ===== src/Exec/Elf/Tests.antt =====
-- An ELF file with one program header.
use rustux.Base.{
  ℕ, zero, suc, ◌+◌, ◌-◌, ◌*◌, ◌^◌, ◌≡◌, refl, true, some, List, [], ◌∷◌, arith, get_elem?, ok,
  returns, panics, Bool,
}
use rustux.Mm.Pmm.Pages.{Arena, ArenaInfo, arena_init, page_count}
use rustux.Mm.Pmm.{pmm_add_arena}
use rustux.Mm.Pmm.Validity.{IsValid}
use rustux.Mm.Pmm.Arenas.{pmm_add_arena_lem, empty-IsValid}
use rustux.Object.Vmo.{Memory}
use rustux.Object.Vmo.Source.{Framed, pmm_source}
use rustux.Exec.Elf.{ProgramHeader, parse_elf_header, parse_program_headers}
use rustux.Exec.Elf.Headers.{Fields, Fits, header_file, parsed, parse_elf_header-header_file}
use rustux.Exec.Elf.Table.{
  LiesAt, program_header_bytes, parse_program_headers_lem, parse_program_headers-wraps,
}
use rustux.Exec.Elf.Load.{Machine, load_segment}
use rustux.Exec.Elf.Segments.{SegmentCases, load_segment_cases}

abbrev fields : Fields
fields = record {
  version = 1;
  os_abi = 0;
  abi_version = 0;
  file_type = 2;
  machine = 62;
  entry = 0x401000;
  phoff = 64;
  shoff = 0;
  phentsize = 56;
  phnum = 1;
  padding = 0;
  file_version = 1;
  flags = 0;
  ehsize = 64;
  shentsize = 64;
  shnum = 5;
  shstrndx = 4;
}

fields-Fits : Fits fields
fields-Fits = record {
  words = (omega arith, omega arith);
  table = (omega arith, omega arith);
  addresses = (omega arith, omega arith, omega arith);
}

-- The header of a segment of 300 bytes, the first ten of them the file's.
abbrev some_segment : ProgramHeader
some_segment = record {
  p_type = 1;
  p_flags = 5;
  p_offset = 0;
  p_vaddr = 0x400000;
  p_paddr = 0x400000;
  p_filesz = 10;
  p_memsz = 300;
  p_align = 4096;
}

abbrev file : List ℕ
file = header_file fields (program_header_bytes some_segment)

parse_elf_header-header_file_example : parse_elf_header file ≡ ok (parsed fields)
parse_elf_header-header_file_example =
    parse_elf_header-header_file fields (program_header_bytes some_segment) fields-Fits

some_segment-LiesAt :
    (j : ℕ) (ph : ProgramHeader)
    → get_elem? (some_segment ∷ []) j ≡ some ph
    → LiesAt file (64 + j * 56) ph
some_segment-LiesAt zero ph e =
    let is : some_segment ≡ ph = cc in
    rw (← is) (record {
      behind = [];
      bytes = refl;
      fits = record {
        words = (omega arith, omega arith);
        places = (omega arith, omega arith, omega arith);
        sizes = (omega arith, omega arith, omega arith);
      };
    })
some_segment-LiesAt (suc j) ph e = cc

parse_program_headers_lem_example : parse_program_headers file 64 56 1 ≡ returns (some_segment ∷ [])
parse_program_headers_lem_example =
    parse_program_headers_lem file 64 56 (some_segment ∷ []) (omega arith) (omega arith)
      (omega arith) some_segment-LiesAt

parse_program_headers-wraps_example : parse_program_headers file (2 ^ 64 - 10) 56 1 ≡ panics
parse_program_headers-wraps_example =
    parse_program_headers-wraps file (2 ^ 64 - 10) 56 1 (omega arith) (omega arith) (omega arith)
      (omega arith) (omega arith)

-- Four pages of user memory at 2 MB.
abbrev user_zone : ArenaInfo
user_zone = record { name = []; flags = 0x8; priority = 0; base = 0x200000; size = 0x4000 }

abbrev always : ℕ → Bool
always n = true

abbrev arenas : List Arena
arenas = (pmm_add_arena always user_zone []).1

arenas-IsValid : IsValid arenas
arenas-IsValid = (pmm_add_arena_lem always user_zone [] empty-IsValid (omega arith) (λ k a e. cc)).0

arenas-Framed : Framed arenas
unfolding Framed pmm_add_arena arena_init page_count
arenas-Framed zero a e = ground arith
arenas-Framed (suc k) a e = cc

abbrev blank : Memory
blank a = 0

abbrev machine : Machine pmm_source
machine = record { next_vmo_id = 1; memory = blank; frames = arenas }

load_segment_cases_example :
    SegmentCases pmm_source file some_segment (load_segment pmm_source file some_segment machine)
load_segment_cases_example =
    load_segment_cases pmm_source file some_segment machine (arenas-IsValid, arenas-Framed)
      (omega arith) (omega arith) (omega arith) (omega arith)
