-- ===== src/Exec/Elf/Load.antt =====
-- The loader of src/exec/elf.rs: the segments of a file are put into new VMOs. `none` is the endless loop
-- of the page allocator.
use rustux.Base.{
  ℕ, zero, suc, ◌+◌, ◌-◌, ◌*◌, ◌/◌, ◌%◌, ◌^◌, min, ltb, ◌==◌, ◌&&◌, Bool, if◌then◌else◌, Option,
  none, some, List, [], ◌∷◌, length, take, drop, replicate, Result, ok, err, Error, Outcome,
  returns, panics, segment_beyond_file, failed_to_create_vmo, failed_to_write_segment,
  failed_to_zero_bss,
}
use rustux.Object.Vmo.{Vmo, Memory, create, flags_empty}
use rustux.Object.Vmo.Pages.{PageSource, Written, write}
use rustux.Exec.Elf.{
  ElfHeader, ProgramHeader, parse_elf_header, validate_elf_header, parse_program_headers, pt_load,
}

pub record LoadedSegment : Type 0 where
  pub vaddr : ℕ
  pub size : ℕ
  pub vmo : Vmo
  pub flags : ℕ

pub record LoadedElf : Type 0 where
  pub entry : ℕ
  pub segments : List LoadedSegment
  pub stack_addr : ℕ
  pub stack_size : ℕ

-- `mem_size.max(filesz)`.
abbrev pub larger : ℕ → ℕ → ℕ
larger a b = if ltb a b then b else a

-- `(size + 0xFFF) & !0xFFF`.
abbrev pub page_aligned : ℕ → ℕ
page_aligned size = (size + 0xfff) % 2 ^ 64 / 4096 * 4096

abbrev pub is_load : ProgramHeader → Bool
is_load ph = ph.p_type == pt_load

unfoldable pub load_headers : List ProgramHeader → List ProgramHeader
load_headers [] = []
load_headers (ph ∷ phs) = let rest = load_headers phs in if is_load ph then ph ∷ rest else rest

module _ (src : PageSource) where
  -- What the loader works on: the next VMO's ID, the kernel's bytes, and the page allocator.
  pub record Machine : Type 0 where
    pub next_vmo_id : ℕ
    pub memory : Memory
    pub frames : src.State

  abbrev pub Load : Type 0 → Type 0
  Load A = Option (Outcome (Result Error A × Machine))

  abbrev pub fails : (A : Type 0) → Error → Machine → Load A
  fails A e k = some (returns (err e, k))

  -- `?` on what a step gives.
  abbrev pub and_then : (A B : Type 0) → Load A → (A → Machine → Load B) → Load B
  and_then A B none f = none
  and_then A B (some panics) f = some panics
  and_then A B (some (returns (err e, k))) f = some (returns (err e, k))
  and_then A B (some (returns (ok a, k))) f = f a k

  -- A write with its error replaced: `map_err`.
  abbrev pub written : Error → ℕ → Written src → Load Vmo
  written failure next none = none
  written failure next (some panics) = some panics
  written failure next (some (returns (ok n, v, m, s))) =
      some (returns (ok v, record { next_vmo_id = next; memory = m; frames = s }))
  written failure next (some (returns (err e, v, m, s))) =
      some (returns (err failure, record { next_vmo_id = next; memory = m; frames = s }))

  abbrev pub write_at : Error → ℕ → List ℕ → Vmo → Machine → Load Vmo
  write_at failure offset bytes v k =
      written failure k.next_vmo_id (write src offset bytes v k.memory k.frames)

  -- Zeros by chunks of 256 bytes; each round writes at least one, so that `left` rounds are enough.
  unfoldable pub zero_bss : ℕ → ℕ → ℕ → Vmo → Machine → Load Vmo
  zero_bss zero offset left v k = some (returns (ok v, k))
  zero_bss (suc rounds) offset zero v k = some (returns (ok v, k))
  zero_bss (suc rounds) offset (suc left) v k =
      let n = min (suc left) 256 in
      and_then Vmo Vmo (write_at failed_to_zero_bss offset (replicate n 0) v k)
        (λ v' k'. zero_bss rounds (offset + n) (suc left - n) v' k')

  -- The file's part of a segment, if it has one.
  abbrev pub write_file_part : List ℕ → ProgramHeader → Vmo → Machine → Load Vmo
  write_file_part file ph v k =
      if ltb 0 ph.p_filesz
      then write_at failed_to_write_segment 0 (take ph.p_filesz (drop ph.p_offset file)) v k
      else some (returns (ok v, k))

  abbrev pub zero_rest : ProgramHeader → Vmo → Machine → Load Vmo
  zero_rest ph v k =
      if ltb ph.p_filesz ph.p_memsz
      then zero_bss (ph.p_memsz - ph.p_filesz) ph.p_filesz (ph.p_memsz - ph.p_filesz) v k
      else some (returns (ok v, k))

  abbrev pub segment : ProgramHeader → Vmo → LoadedSegment
  segment ph v = record {
    vaddr = ph.p_vaddr;
    size = larger ph.p_memsz ph.p_filesz;
    vmo = v;
    flags = ph.p_flags;
  }

  abbrev pub fill_segment : List ℕ → ProgramHeader → Vmo → Machine → Load (Option LoadedSegment)
  fill_segment file ph v k =
      and_then Vmo (Option LoadedSegment) (write_file_part file ph v k) (λ v' k'.
        and_then Vmo (Option LoadedSegment) (zero_rest ph v' k')
          (λ v'' k''. some (returns (ok (some (segment ph v'')), k''))))

  abbrev pub in_new_vmo :
      List ℕ → ProgramHeader → Result Error (Vmo × ℕ) → Machine → Load (Option LoadedSegment)
  in_new_vmo file ph (err e) k = fails (Option LoadedSegment) failed_to_create_vmo k
  in_new_vmo file ph (ok (v, next)) k = fill_segment file ph v (record k { next_vmo_id = next })

  -- One segment; a segment without memory is left out. The end of the file's part may wrap around, and
  -- then the slice panics.
  unfoldable pub load_segment : List ℕ → ProgramHeader → Machine → Load (Option LoadedSegment)
  load_segment file ph k =
      if ltb 0 ph.p_filesz && ltb (length file) ((ph.p_offset + ph.p_filesz) % 2 ^ 64)
      then fails (Option LoadedSegment) segment_beyond_file k
      else if ltb 0 ph.p_filesz && ltb ((ph.p_offset + ph.p_filesz) % 2 ^ 64) ph.p_offset
      then some panics
      else if larger ph.p_memsz ph.p_filesz == 0
      then some (returns (ok none, k))
      else in_new_vmo file ph
          (create (page_aligned (larger ph.p_memsz ph.p_filesz)) flags_empty k.next_vmo_id) k

  abbrev pub with_segment : Option LoadedSegment → List LoadedSegment → List LoadedSegment
  with_segment none segments = segments
  with_segment (some s) segments = s ∷ segments

  unfoldable pub load_segments : List ℕ → List ProgramHeader → Machine → Load (List LoadedSegment)
  load_segments file [] k = some (returns (ok [], k))
  load_segments file (ph ∷ phs) k =
      and_then (Option LoadedSegment) (List LoadedSegment) (load_segment file ph k) (λ s k'.
        and_then (List LoadedSegment) (List LoadedSegment) (load_segments file phs k')
          (λ segments k''. some (returns (ok (with_segment s segments), k''))))

  -- The debug output before the end prints the third segment's address, and panics without one.
  abbrev pub boxed : ℕ → List LoadedSegment → Machine → Load LoadedElf
  boxed entry segments k =
      if ltb 2 (length segments)
      then some (
          returns (
            ok (record {
              entry = entry;
              segments = segments;
              stack_addr = 0x7ffffffff000;
              stack_size = 4096;
            }),
            k,
          ))
      else some panics

  -- At most 16 segments are loaded, and the others passed over.
  abbrev pub load_table : List ℕ → ℕ → Outcome (List ProgramHeader) → Machine → Load LoadedElf
  load_table file entry panics k = some panics
  load_table file entry (returns phs) k =
      and_then (List LoadedSegment) LoadedElf (load_segments file (take 16 (load_headers phs)) k)
        (boxed entry)

  abbrev pub load_valid : List ℕ → ElfHeader → Result Error (Unit {0}) → Machine → Load LoadedElf
  load_valid file header (err e) k = fails LoadedElf e k
  load_valid file header (ok u) k =
      load_table file header.e_entry
        (parse_program_headers file header.e_phoff header.e_phentsize header.e_phnum) k

  abbrev pub load_parsed : List ℕ → Result Error ElfHeader → Machine → Load LoadedElf
  load_parsed file (err e) k = fails LoadedElf e k
  load_parsed file (ok header) k = load_valid file header (validate_elf_header header) k

  unfoldable pub load_elf : List ℕ → Machine → Load LoadedElf
  load_elf file k = load_parsed file (parse_elf_header file) k
