-- ===== src/Exec/Elf/Limits.antt =====
-- How many segments the files have that `load_elf` of src/exec/elf.rs loads.
use rustux.Base.{
  ℕ, ◌+◌, ◌≤◌, ◌≡◌, inl, inr, Bool-cases, Option, none, some, List, [], ◌∷◌, arith, length, take,
  length-take, ltb, Result, ok, err, Error, Outcome, returns, panics,
}
use rustux.Object.Vmo.Pages.{PageSource}
use rustux.Exec.Elf.{ElfHeader, ProgramHeader, parse_elf_header}
use rustux.Exec.Elf.Load.{
  Machine, Load, LoadedSegment, LoadedElf, and_then, load_segment, load_segments, with_segment,
  boxed, load_headers, load_table, load_valid, load_parsed, load_elf,
}

module _ (src : PageSource) where
  -- What holds of a step's result, if it has one.
  abbrev pub Ensures : (A : Type 0) → (A → Type 0) → Load src A → Type 0
  Ensures A P none = Unit
  Ensures A P (some panics) = Unit
  Ensures A P (some (returns (err e, k))) = Unit
  Ensures A P (some (returns (ok a, k))) = P a

  and_then-Ensures :
      (A B : Type 0) (P : A → Type 0) (Q : B → Type 0) (step : Load src A)
      (f : A → Machine src → Load src B)
      → Ensures A P step
      → ((a : A) (k : Machine src) → P a → Ensures B Q (f a k))
      → Ensures B Q (and_then src A B step f)
  and_then-Ensures A B P Q none f h next = tt
  and_then-Ensures A B P Q (some panics) f h next = tt
  and_then-Ensures A B P Q (some (returns (err e, k))) f h next = tt
  and_then-Ensures A B P Q (some (returns (ok a, k))) f h next = next a k h

  any : (A : Type 0) (step : Load src A) → Ensures A (λ a. Unit) step
  any A none = tt
  any A (some panics) = tt
  any A (some (returns (err e, k))) = tt
  any A (some (returns (ok a, k))) = tt

  length-with_segment :
      (s : Option LoadedSegment) (segments : List LoadedSegment)
      → length (with_segment src s segments) ≤ length segments + 1
  length-with_segment none segments = omega arith
  length-with_segment (some s) segments = omega arith

  load_segments-length :
      (file : List ℕ) (phs : List ProgramHeader) (k : Machine src)
      → Ensures
          (List LoadedSegment)
          (λ segments. length segments ≤ length phs)
          (load_segments src file phs k)
  unfolding load_segments
  load_segments-length file [] k = omega arith
  load_segments-length file (ph ∷ phs) k =
      and_then-Ensures (Option LoadedSegment) (List LoadedSegment) (λ s. Unit)
        (λ segments. length segments ≤ length (ph ∷ phs)) (load_segment src file ph k) _
        (any (Option LoadedSegment) (load_segment src file ph k))
        (λ s k' _.
          and_then-Ensures (List LoadedSegment) (List LoadedSegment)
            (λ segments. length segments ≤ length phs)
            (λ segments. length segments ≤ length (ph ∷ phs)) (load_segments src file phs k') _
            (load_segments-length file phs k')
            (λ segments k'' le. omega (arith, length-with_segment s segments)))

  abbrev pub SomeSegments : LoadedElf → Type 0
  SomeSegments elf = (3 ≤ length elf.segments) × (length elf.segments ≤ 16)

  boxed-SomeSegments :
      (entry : ℕ) (segments : List LoadedSegment) (k : Machine src)
      → length segments ≤ 16
      → Ensures LoadedElf SomeSegments (boxed src entry segments k)
  boxed-SomeSegments entry segments k le = elim (Bool-cases (ltb 2 (length segments))) [
    | inl enough ↦ rw enough (ground arith, le)
    | inr few ↦ rw few tt
  ]

  load_table-SomeSegments :
      (file : List ℕ) (entry : ℕ) (o : Outcome (List ProgramHeader)) (k : Machine src)
      → Ensures LoadedElf SomeSegments (load_table src file entry o k)
  load_table-SomeSegments file entry panics k = tt
  load_table-SomeSegments file entry (returns phs) k =
      and_then-Ensures (List LoadedSegment) LoadedElf
        (λ segments. length segments ≤ length (take 16 (load_headers phs))) SomeSegments
        (load_segments src file (take 16 (load_headers phs)) k) (boxed src entry)
        (load_segments-length file (take 16 (load_headers phs)) k)
        (λ segments k' le.
          boxed-SomeSegments entry segments k' (omega (arith, length-take 16 (load_headers phs))))

  load_valid-SomeSegments :
      (file : List ℕ) (header : ElfHeader) (r : Result Error (Unit {0})) (k : Machine src)
      → Ensures LoadedElf SomeSegments (load_valid src file header r k)
  load_valid-SomeSegments file header (err e) k = tt
  load_valid-SomeSegments file header (ok u) k = load_table-SomeSegments file header.e_entry _ k

  load_parsed-SomeSegments :
      (file : List ℕ) (r : Result Error ElfHeader) (k : Machine src)
      → Ensures LoadedElf SomeSegments (load_parsed src file r k)
  load_parsed-SomeSegments file (err e) k = tt
  load_parsed-SomeSegments file (ok header) k = load_valid-SomeSegments file header _ k

  -- A file that `load_elf` loads has between 3 and 16 segments: one that comes to fewer, though it is
  -- valid, makes the kernel panic.
  pub load_elf_segments :
      (file : List ℕ) (k k' : Machine src) (elf : LoadedElf)
      → load_elf src file k ≡ some (returns (ok elf, k'))
      → (3 ≤ length elf.segments) × (length elf.segments ≤ 16)
  unfolding load_elf
  load_elf_segments file k k' elf e =
      rw e at (load_parsed-SomeSegments file (parse_elf_header file) k)
