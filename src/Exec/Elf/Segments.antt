-- ===== src/Exec/Elf/Segments.antt =====
-- What the loading of a segment in src/exec/elf.rs puts into its VMO, and when it fails.
use rustux.Base.{
  ℕ, ◌+◌, ◌-◌, ◌%◌, ◌^◌, ◌<◌, ◌≤◌, ◌≡◌, ◌⊎◌, inl, inr, refl, ap, ◌∙◌, Bool-cases, true, false, ◌&&◌,
  Option, none, some, List, [], arith, length, take, drop, get_elem?, get_elem?-some_of_lt,
  length-take, length-drop, ltb, ◌==◌, if◌then◌else◌, ok, err, Error, returns,
  failed_to_write_segment, failed_to_zero_bss,
}
use rustux.Object.Rights
use rustux.Object.Handle.{object}
use rustux.Object.Vmo.{Vmo, create, flags_empty, default, round_up}
use rustux.Object.Vmo.Pages.{PageSource}
use rustux.Object.Vmo.Apart.{empty-Holds}
use rustux.Object.Vmo.Allocation.{Sound, Spins, Refused}
use rustux.Exec.Elf.{ProgramHeader, byte}
use rustux.Exec.Elf.Load.{
  Machine, Load, LoadedSegment, write_file_part, zero_rest, segment, fill_segment, larger,
  page_aligned, load_segment,
}
use rustux.Exec.Elf.Contents.{
  Loaded, get_elem?-take, get_elem?-drop, Comes, write_at_lem, zero_bss_lem,
}

-- A segment's byte: from the file, or zero past the file's part.
abbrev pub segment_byte : List ℕ → ProgramHeader → ℕ → ℕ
segment_byte file ph i = if ltb i ph.p_filesz then byte file (ph.p_offset + i) else 0

file_byte : (file : List ℕ) (i : ℕ) → i < length file → get_elem? file i ≡ some (byte file i)
file_byte file i h = let (b, e) = get_elem?-some_of_lt file i h in rw e refl

file_part :
    (file : List ℕ) (ph : ProgramHeader) (i : ℕ)
    → ph.p_offset + ph.p_filesz ≤ length file
    → i < ph.p_filesz
    → get_elem? (take ph.p_filesz (drop ph.p_offset file)) i ≡ some (segment_byte file ph i)
file_part file ph i inside h =
    let within : ltb i ph.p_filesz ≡ true = ground arith in
    rw within (
      get_elem?-take ph.p_filesz (drop ph.p_offset file) i h
      ∙ get_elem?-drop ph.p_offset file i
      ∙ file_byte file (ph.p_offset + i) (omega arith))

module _ (src : PageSource) where
  write_file_part_lem :
      (file : List ℕ) (ph : ProgramHeader) (v : Vmo) (k : Machine src)
      → Sound src v.pages k.frames
      → ph.p_offset + ph.p_filesz ≤ length file
      → ph.p_filesz ≤ v.size
      → 0 < v.size
      → v.size < 2 ^ 64
      → Comes src failed_to_write_segment
          (write_file_part src file ph v k)
          v
          (segment_byte file ph)
          ph.p_filesz
  write_file_part_lem file ph v k sound inside fits some_size small =
      elim (Bool-cases (ltb 0 ph.p_filesz)) [
        | inr empty ↦ rw empty (inr (inr (v, k, refl, refl, sound, λ i lt. absurd (ground arith))))
        | inl part ↦
            let bytes = take ph.p_filesz (drop ph.p_offset file) in
            let count : length bytes ≡ ph.p_filesz = omega (
              arith,
              length-take ph.p_filesz (drop ph.p_offset file),
              length-drop ph.p_offset file,
            ) in
            let all =
              write_at_lem src failed_to_write_segment 0 bytes v k (segment_byte file ph) sound
                some_size (omega arith) small (λ i lt. absurd (omega arith))
                (λ i lt.
                  file_part file ph i inside (omega arith)
                  ∙ ap (λ j. some (segment_byte file ph j)) (omega arith)) in
            rw part (elim all [
              | inl spins ↦ inl spins
              | inr (inl fails) ↦ inr (inl fails)
              | inr (inr (v', k', done, size, sound', loaded)) ↦
                  inr (inr (v', k', done, size, sound', λ i lt. loaded i (omega arith)))
            ])
      ]

  zero_rest_lem :
      (file : List ℕ) (ph : ProgramHeader) (v : Vmo) (k : Machine src)
      → Sound src v.pages k.frames
      → larger ph.p_memsz ph.p_filesz ≤ v.size
      → v.size < 2 ^ 64
      → Loaded v k.memory (segment_byte file ph) ph.p_filesz
      → Comes src failed_to_zero_bss
          (zero_rest src ph v k)
          v
          (segment_byte file ph)
          (larger ph.p_memsz ph.p_filesz)
  zero_rest_lem file ph v k sound fits small before =
      elim (Bool-cases (ltb ph.p_filesz ph.p_memsz)) [
        | inr none_left ↦
            rw none_left (inr (inr (v, k, refl, refl, sound, λ i lt. before i (ground arith))))
        | inl left ↦
            let whole : larger ph.p_memsz ph.p_filesz ≡ ph.p_memsz = ground arith in
            let all =
              zero_bss_lem src (ph.p_memsz - ph.p_filesz) ph.p_filesz (ph.p_memsz - ph.p_filesz) v k
                (segment_byte file ph) (omega arith) sound (ground arith) small before
                (λ i ge lt. let past : ltb i ph.p_filesz ≡ false = ground arith in rw past refl) in
            rw left (elim all [
              | inl spins ↦ inl spins
              | inr (inl fails) ↦ inr (inl fails)
              | inr (inr (v', k', done, size, sound', loaded)) ↦
                  inr (inr (v', k', done, size, sound', λ i lt. loaded i (ground arith)))
            ])
      ]

  -- What the loading of a segment comes to.
  abbrev pub SegmentCases : List ℕ → ProgramHeader → Load src (Option LoadedSegment) → Type 0
  SegmentCases file ph step =
      ((step ≡ none) × Spins src)
      ⊎ ((k' : Machine src) × (e : Error) × (step ≡ some (returns (err e, k')))
          × ((e ≡ failed_to_write_segment) ⊎ (e ≡ failed_to_zero_bss))
          × Refused src k'.frames)
      ⊎ ((v : Vmo) × (k' : Machine src) × (step ≡ some (returns (ok (some (segment src ph v)), k')))
          × Sound src v.pages k'.frames
          × Loaded v k'.memory (segment_byte file ph) (larger ph.p_memsz ph.p_filesz))

  fill_segment_lem :
      (file : List ℕ) (ph : ProgramHeader) (v : Vmo) (k : Machine src)
      → Sound src v.pages k.frames
      → ph.p_offset + ph.p_filesz ≤ length file
      → 0 < larger ph.p_memsz ph.p_filesz
      → larger ph.p_memsz ph.p_filesz ≤ v.size
      → v.size < 2 ^ 64
      → SegmentCases file ph (fill_segment src file ph v k)
  fill_segment_lem file ph v k sound inside some_size fits small =
      elim (write_file_part_lem file ph v k sound inside (ground arith) (omega arith) small) [
        | inl (spins, why) ↦ inl (rw spins refl, why)
        | inr (inl (k', fails, why)) ↦
            inr (inl (k', failed_to_write_segment, rw fails refl, inl refl, why))
        | inr (inr (v', k', done, size, sound', loaded)) ↦
            elim (zero_rest_lem file ph v' k' sound' (omega arith) (omega arith) loaded) [
              | inl (spins, why) ↦ inl (rw (done, spins) refl, why)
              | inr (inl (k'', fails, why)) ↦
                  inr (inl (k'', failed_to_zero_bss, rw (done, fails) refl, inr refl, why))
              | inr (inr (v'', k'', finished, size', sound'', loaded')) ↦
                  inr (inr (v'', k'', rw (done, finished) refl, sound'', loaded'))
            ]
      ]

  abbrev pub vmo_for : ProgramHeader → Machine src → Vmo
  vmo_for ph k = record {
    base = object Rights.vmo;
    id = k.next_vmo_id;
    size = round_up (page_aligned (larger ph.p_memsz ph.p_filesz));
    flags = flags_empty;
    cache_policy = default;
    pages = [];
    parent = none;
  }

  -- A segment whose part of the file lies in the file, of some but not 2 ^ 63 bytes, is loaded as the
  -- program header says: its VMO has the bytes of the file, and then zeros up to the segment's size. Only
  -- if the source of pages has just refused a page is it not loaded, with the error of writing the file's
  -- part or of zeroing the rest, or if the source does not return from a call, and then neither does the
  -- loader. The source's state is valid and the file shorter than 2 ^ 64 bytes.
  pub load_segment_cases :
      (file : List ℕ) (ph : ProgramHeader) (k : Machine src)
      → src.IsValid k.frames
      → ph.p_offset + ph.p_filesz ≤ length file
      → length file < 2 ^ 64
      → 0 < larger ph.p_memsz ph.p_filesz
      → larger ph.p_memsz ph.p_filesz < 2 ^ 63
      → SegmentCases file ph (load_segment src file ph k)
  unfolding load_segment create
  load_segment_cases file ph k valid inside small some_size fits =
      let within : (ltb 0 ph.p_filesz && ltb (length file) ((ph.p_offset + ph.p_filesz) % 2 ^ 64))
          ≡ false =
        ground arith in
      let ordered : (ltb 0 ph.p_filesz && ltb ((ph.p_offset + ph.p_filesz) % 2 ^ 64) ph.p_offset)
          ≡ false =
        ground arith in
      let mem = larger ph.p_memsz ph.p_filesz in
      let nonempty : (mem == 0) ≡ false = ground arith in
      let aligned : (page_aligned mem == 0) ≡ false = ground arith in
      let k' : Machine src = record k { next_vmo_id = (k.next_vmo_id + 1) % 2 ^ 64 } in
      let all =
        fill_segment_lem file ph (vmo_for ph k) k' (valid, empty-Holds (src.InUse k.frames)) inside
          some_size (omega arith) (omega arith) in
      rw (within, ordered, nonempty, aligned) all
