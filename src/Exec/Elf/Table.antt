-- ===== src/Exec/Elf/Table.antt =====
-- What `parse_program_headers` of src/exec/elf.rs reads.
use rustux.Base.{
  ℕ, zero, suc, ◌+◌, ◌*◌, ◌%◌, ◌^◌, ◌<◌, ◌≤◌, ◌≡◌, refl, ap, ◌∙◌, true, false, some, List, [], ◌∷◌,
  ◌++◌, arith, length, get_elem?, lt_of_get_elem?, drop, sym, ltb, returns, panics,
}
use native.Mathlib.Nat.{add-mul, suc-mul, one-mul, zero-mul}
use rustux.Exec.Elf.{
  ProgramHeader, byte, or_zero, from_le_bytes, program_header_at, headers_from,
  parse_program_headers,
}
use rustux.Exec.Elf.Digits.{le_bytes, from_le_bytes-le_bytes}
use rustux.Exec.Elf.Contents.{get_elem?-drop}

next_entry : (i size : ℕ) → (i + 1) * size ≡ i * size + size
next_entry i size = omega (arith, add-mul i 1 size, one-mul size)

headers_from_lem :
    (rounds i : ℕ) (file : List ℕ) (phoff phentsize : ℕ)
    → 56 ≤ phentsize
    → phoff + i * phentsize + rounds * phentsize ≤ length file
    → length file < 2 ^ 64
    → (phs : List ProgramHeader) × (headers_from rounds i file phoff phentsize ≡ returns phs)
      × (length phs ≡ rounds)
      × ((j : ℕ)
          → j < rounds
          → get_elem? phs j ≡ some (program_header_at file (phoff + i * phentsize + j * phentsize)))
unfolding headers_from
headers_from_lem zero i file phoff phentsize wide inside small =
    ([], refl, refl, λ j lt. elim lt [ ])
headers_from_lem (suc rounds) i file phoff phentsize wide inside small =
    let offset = phoff + i * phentsize in
    let step = suc-mul rounds phentsize in
    let next = next_entry i phentsize in
    let (phs, rest, count, at) =
      headers_from_lem rounds (i + 1) file phoff phentsize wide (omega arith) small in
    let here : (phoff + i * phentsize) % 2 ^ 64 ≡ offset = omega arith in
    let fits : ltb (length file) ((offset + phentsize) % 2 ^ 64) ≡ false = ground arith in
    let ordered : ltb ((offset + phentsize) % 2 ^ 64) offset ≡ false = ground arith in
    let large : ltb phentsize 56 ≡ false = ground arith in
    (
      program_header_at file offset ∷ phs,
      rw (here, fits, ordered, large, rest) refl,
      ap suc count,
      entries rounds i file phoff phentsize phs at,
    )
  where
    entries :
        (rounds i : ℕ) (file : List ℕ) (phoff phentsize : ℕ) (phs : List ProgramHeader)
        → ((j : ℕ)
            → j < rounds
            → get_elem? phs j
              ≡ some (program_header_at file (phoff + (i + 1) * phentsize + j * phentsize)))
        → (j : ℕ) → j < suc rounds
        → get_elem? (program_header_at file (phoff + i * phentsize) ∷ phs) j
          ≡ some (program_header_at file (phoff + i * phentsize + j * phentsize))
    entries rounds i file phoff phentsize phs at zero lt =
        ap (λ o. some (program_header_at file o)) (omega (arith, zero-mul phentsize))
    entries rounds i file phoff phentsize phs at (suc j) lt =
        at j (omega arith)
        ∙ ap (λ o. some (program_header_at file o))
            (omega (arith, next_entry i phentsize, suc-mul j phentsize))

headers_read :
    (file : List ℕ) (phoff phentsize phnum : ℕ)
    → 56 ≤ phentsize
    → phoff + phnum * phentsize ≤ length file
    → length file < 2 ^ 64
    → (phs : List ProgramHeader) × (parse_program_headers file phoff phentsize phnum ≡ returns phs)
      × (length phs ≡ phnum)
      × ((j : ℕ)
          → j < phnum
          → get_elem? phs j ≡ some (program_header_at file (phoff + j * phentsize)))
unfolding parse_program_headers
headers_read file phoff phentsize phnum wide inside small =
    let none_before = zero-mul phentsize in
    let (phs, e, count, at) =
      headers_from_lem phnum 0 file phoff phentsize wide (omega arith) small in
    (phs, e, count, λ j lt. at j lt ∙ ap (λ o. some (program_header_at file o)) (omega arith))

same_entries {ℓ} :
    {A : Type ℓ} (xs ys : List A)
    → length xs ≡ length ys
    → ((j : ℕ) (y : A) → get_elem? ys j ≡ some y → get_elem? xs j ≡ some y)
    → xs ≡ ys
same_entries [] [] e at = refl
same_entries [] (y ∷ ys) e at = absurd (omega (arith, e))
same_entries (x ∷ xs) [] e at = absurd (omega (arith, e))
same_entries (x ∷ xs) (y ∷ ys) e at =
    let first : some x ≡ some y = at 0 y refl in
    let same : x ≡ y = cc in
    cc (same, same_entries xs ys (omega (arith, e)) (λ j z found. at (suc j) z found))

-- A program header, as the ELF format lays it out.
abbrev pub program_header_bytes : ProgramHeader → List ℕ
program_header_bytes ph =
    le_bytes 4 ph.p_type
    ++ (le_bytes 4 ph.p_flags
        ++ (le_bytes 8 ph.p_offset
            ++ (le_bytes 8 ph.p_vaddr
                ++ (le_bytes 8 ph.p_paddr
                    ++ (le_bytes 8 ph.p_filesz
                        ++ (le_bytes 8 ph.p_memsz ++ le_bytes 8 ph.p_align))))))

-- Every field fits its place.
pub record HeaderFits (ph : ProgramHeader) : Type 0 where
  pub words : (ph.p_type < 256 ^ 4) × (ph.p_flags < 256 ^ 4)
  pub places : (ph.p_offset < 256 ^ 8) × (ph.p_vaddr < 256 ^ 8) × (ph.p_paddr < 256 ^ 8)
  pub sizes : (ph.p_filesz < 256 ^ 8) × (ph.p_memsz < 256 ^ 8) × (ph.p_align < 256 ^ 8)

-- The bytes of `ph` lie at `at` in the file.
pub record LiesAt (file : List ℕ) (at : ℕ) (ph : ProgramHeader) : Type 0 where
  pub behind : List ℕ
  pub bytes : drop at file ≡ program_header_bytes ph ++ behind
  pub fits : HeaderFits ph

from_le_bytes-drop :
    (n at i : ℕ) (file : List ℕ) → from_le_bytes n (drop at file) i ≡ from_le_bytes n file (at + i)
from_le_bytes-drop zero at i file = refl
from_le_bytes-drop (suc n) at i file =
    ap (λ o. or_zero o + 256 * from_le_bytes n (drop at file) (i + 1)) (get_elem?-drop at file i)
    ∙ ap (λ r. byte file (at + i) + 256 * r)
        (from_le_bytes-drop n at (i + 1) file ∙ ap (from_le_bytes n file) (omega arith))

same_program_header :
    (h ph : ProgramHeader)
    → h.p_type ≡ ph.p_type
    → h.p_flags ≡ ph.p_flags
    → h.p_offset ≡ ph.p_offset
    → h.p_vaddr ≡ ph.p_vaddr
    → h.p_paddr ≡ ph.p_paddr
    → h.p_filesz ≡ ph.p_filesz
    → h.p_memsz ≡ ph.p_memsz
    → h.p_align ≡ ph.p_align
    → h ≡ ph
same_program_header h ph p1 p2 p3 p4 p5 p6 p7 p8 = cc

program_header_at-LiesAt :
    (file : List ℕ) (at : ℕ) (ph : ProgramHeader)
    → LiesAt file at ph
    → program_header_at file at ≡ ph
program_header_at-LiesAt file at ph h =
    let (type_, flags) = h.fits.words in
    let (offset, vaddr, paddr) = h.fits.places in
    let (filesz, memsz, align) = h.fits.sizes in
    let bytes = program_header_bytes ph ++ h.behind in
    let there : (n i : ℕ) → from_le_bytes n file (at + i) ≡ from_le_bytes n bytes i =
      λ n i. sym (from_le_bytes-drop n at i file) ∙ ap (λ bs. from_le_bytes n bs i) h.bytes in
    same_program_header (program_header_at file at) ph
      (ap (from_le_bytes 4 file) (omega arith)
        ∙ there 4 0
        ∙ from_le_bytes-le_bytes 4 ph.p_type [] type_)
      (there 4 4 ∙ from_le_bytes-le_bytes 4 ph.p_flags [] flags)
      (there 8 8 ∙ from_le_bytes-le_bytes 8 ph.p_offset [] offset)
      (there 8 16 ∙ from_le_bytes-le_bytes 8 ph.p_vaddr [] vaddr)
      (there 8 24 ∙ from_le_bytes-le_bytes 8 ph.p_paddr [] paddr)
      (there 8 32 ∙ from_le_bytes-le_bytes 8 ph.p_filesz [] filesz)
      (there 8 40 ∙ from_le_bytes-le_bytes 8 ph.p_memsz [] memsz)
      (there 8 48 ∙ from_le_bytes-le_bytes 8 ph.p_align [] align)

-- If the table lies within the file, its entries have at least 56 bytes, and the bytes at the place of
-- each entry are those of a program header as the ELF format lays it out, these headers are what is read.
-- The file is shorter than 2 ^ 64 bytes.
pub parse_program_headers_lem :
    (file : List ℕ) (phoff phentsize : ℕ) (phs : List ProgramHeader)
    → 56 ≤ phentsize
    → phoff + length phs * phentsize ≤ length file
    → length file < 2 ^ 64
    → ((j : ℕ) (ph : ProgramHeader)
        → get_elem? phs j ≡ some ph
        → LiesAt file (phoff + j * phentsize) ph)
    → parse_program_headers file phoff phentsize (length phs) ≡ returns phs
parse_program_headers_lem file phoff phentsize phs wide inside small lie =
    let (read, e, count, at) = headers_read file phoff phentsize (length phs) wide inside small in
    e
    ∙ ap returns (
        same_entries read phs count (λ j ph found.
          at j (lt_of_get_elem? phs j ph found)
          ∙ ap some (program_header_at-LiesAt file (phoff + j * phentsize) ph (lie j ph found))))

-- The check against the end of the file wraps around: a table near 2 ^ 64 whose first entry ends, after
-- the wrap, within the file makes the kernel panic.
pub parse_program_headers-wraps :
    (file : List ℕ) (phoff phentsize phnum : ℕ)
    → phoff < 2 ^ 64
    → phentsize < 2 ^ 16
    → 2 ^ 64 ≤ phoff + phentsize
    → (phoff + phentsize) % 2 ^ 64 ≤ length file
    → 0 < phnum
    → parse_program_headers file phoff phentsize phnum ≡ panics
unfolding parse_program_headers headers_from
parse_program_headers-wraps file phoff phentsize zero small narrow wraps inside some_ =
    absurd (omega arith)
parse_program_headers-wraps file phoff phentsize (suc n) small narrow wraps inside some_ =
    let here : (phoff + 0 * phentsize) % 2 ^ 64 ≡ phoff = omega (arith, zero-mul phentsize) in
    let fits : ltb (length file) ((phoff + phentsize) % 2 ^ 64) ≡ false = ground arith in
    let backwards : ltb ((phoff + phentsize) % 2 ^ 64) phoff ≡ true = ground arith in
    rw (here, fits, backwards) refl
