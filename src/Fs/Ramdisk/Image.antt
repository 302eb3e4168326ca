-- ===== src/Fs/Ramdisk/Image.antt =====
-- What src/fs/ramdisk.rs finds in the image that build.rs makes.
use rustux.Base.{
  ℕ, zero, suc, ◌+◌, ◌*◌, ◌^◌, ◌<◌, ◌≤◌, ◌≡◌, ◌≢◌, inl, inr, refl, ap, ◌∙◌, min, Bool-cases, true,
  false, some, List, [], ◌∷◌, ◌++◌, arith, length, take, get_elem?, ◌==◌, ==_self,
}
use rustux.Exec.Elf.{same_bytes}
use rustux.Exec.Elf.Digits.{le_bytes}
use rustux.Fs.Ramdisk.{
  RamdiskFile, word, from_embedded_data, file_at, name_at, stripped, find_from, find_file, bytes_at,
  read_file, file_size, Source, file_entries, entry_bytes, body, names_offset, image,
}

-- The bytes of a list, and behind it those of the memory.
abbrev pub within : List ℕ → (ℕ → ℕ) → ℕ → ℕ
within [] beyond i = beyond i
within (b ∷ bs) beyond zero = b
within (b ∷ bs) beyond (suc i) = within bs beyond i

within-append :
    (before after : List ℕ) (beyond : ℕ → ℕ) (i : ℕ)
    → within (before ++ after) beyond (length before + i) ≡ within after beyond i
within-append [] after beyond i = ap (within after beyond) (omega arith)
within-append (b ∷ before) after beyond i =
    ap (within (b ∷ (before ++ after)) beyond) {y = suc (length before + i)} (omega arith)
    ∙ within-append before after beyond i

word-le_bytes :
    (v : ℕ) (rest : List ℕ) (beyond : ℕ → ℕ)
    → v < 2 ^ 32
    → word (within (le_bytes 4 v ++ rest) beyond) 0 ≡ v
word-le_bytes v rest beyond h = omega arith

-- Every byte of a name is other than zero.
abbrev pub NoZero : List ℕ → Type 0
NoZero [] = Unit
NoZero (c ∷ cs) = (c ≢ 0) × NoZero cs

-- A name that is there, with its zero, is read.
name_at-there :
    (rounds : ℕ) (at : ℕ → ℕ) (i : ℕ) (name rest : List ℕ) (beyond : ℕ → ℕ)
    → ((j : ℕ) → at (i + j) ≡ within (name ++ (0 ∷ rest)) beyond j)
    → NoZero name
    → length name ≤ rounds
    → name_at rounds at i ≡ name
unfolding name_at
name_at-there zero at i [] rest beyond there nonzero le = refl
name_at-there zero at i (c ∷ cs) rest beyond there nonzero le = absurd (omega arith)
name_at-there (suc rounds) at i [] rest beyond there nonzero le =
    let zero_here : at i ≡ 0 = ap at (omega arith) ∙ there 0 in rw zero_here refl
name_at-there (suc rounds) at i (c ∷ cs) rest beyond there nonzero le =
    let here : at i ≡ c = ap at (omega arith) ∙ there 0 in
    let more : (c == 0) ≡ false = elim (Bool-cases (c == 0)) [
      | inl none_ ↦ absurd (nonzero.0 (ground arith))
      | inr differ ↦ differ
    ] in
    let later =
      name_at-there rounds at (i + 1) cs rest beyond (λ j. ap at (omega arith) ∙ there (suc j))
        nonzero.1 (omega arith) in
    rw (here, more, later) refl

bytes_at-there :
    (n : ℕ) (at : ℕ → ℕ) (i : ℕ) (contents rest : List ℕ) (beyond : ℕ → ℕ)
    → ((j : ℕ) → at (i + j) ≡ within (contents ++ rest) beyond j)
    → bytes_at (min n (length contents)) at i ≡ take n contents
bytes_at-there zero at i contents rest beyond there =
    ap (λ k. bytes_at k at i) {y = 0} (omega arith)
bytes_at-there (suc n) at i [] rest beyond there = ap (λ k. bytes_at k at i) {y = 0} (omega arith)
bytes_at-there (suc n) at i (c ∷ cs) rest beyond there =
    let here : at i ≡ c = ap at (omega arith) ∙ there 0 in
    let later =
      bytes_at-there n at (i + 1) cs rest beyond (λ j. ap at (omega arith) ∙ there (suc j)) in
    ap (λ k. bytes_at k at i) {y = suc (min n (length cs))} (omega arith)
    ∙ ap (λ b. b ∷ bytes_at (min n (length cs)) at (i + 1)) here
    ∙ ap (◌∷◌ c) later

same_bytes_refl : (bs : List ℕ) → same_bytes bs bs ≡ true
same_bytes_refl [] = refl
same_bytes_refl (b ∷ bs) = rw (==_self b) (same_bytes_refl bs)

length-file_entries : (offset : ℕ) (fs : List Source) → length (file_entries offset fs) ≡ length fs
unfolding file_entries
length-file_entries offset [] = refl
length-file_entries offset (f ∷ fs) = ap suc (length-file_entries (offset + length f.name + 1) fs)

length-entry_bytes : (es : List RamdiskFile) → length (entry_bytes es) ≡ 16 * length es
length-entry_bytes [] = omega arith
length-entry_bytes (e ∷ es) = omega (arith, length-entry_bytes es)

-- The names and contents stand behind the headers.
body-there :
    (fs : List Source) (beyond : ℕ → ℕ) (j : ℕ)
    → within (image fs) beyond (names_offset fs + j) ≡ within (body fs) beyond j
unfolding image
body-there fs beyond j =
    let es = file_entries (names_offset fs) fs in
    let count : length (entry_bytes es) ≡ 16 * length fs =
      omega (arith, length-entry_bytes es, length-file_entries (names_offset fs) fs) in
    ap (within (image fs) beyond)
      {y = suc (
        suc (
          suc (suc (suc (suc (suc (suc (suc (suc (suc (suc (length (entry_bytes es) + j))))))))))))}
      (omega arith)
    ∙ within-append (entry_bytes es) (body fs) beyond j

-- An image starts with the number of files, the place of the headers, and the first header.
first_header :
    (f : Source) (fs : List Source) (beyond : ℕ → ℕ)
    → names_offset (f ∷ fs) + length f.name + 1 < 2 ^ 32
    → length f.contents < 2 ^ 32
    → (word (within (image (f ∷ fs)) beyond) 4 ≡ length (f ∷ fs))
      × (word (within (image (f ∷ fs)) beyond) 8 ≡ 12)
      × (file_at (within (image (f ∷ fs)) beyond) 12 ≡ record {
        name_offset = names_offset (f ∷ fs);
        data_offset = names_offset (f ∷ fs) + length f.name + 1;
        size = length f.contents;
        pad = 0;
      })
unfolding image file_entries
first_header f fs beyond offsets sizes =
    let n = names_offset (f ∷ fs) in
    (
      word-le_bytes (length (f ∷ fs)) [] beyond (omega arith),
      refl,
      same_file (word-le_bytes n [] beyond (omega arith))
          (word-le_bytes (n + length f.name + 1) [] beyond offsets)
          (word-le_bytes (length f.contents) [] beyond sizes) refl,
    )
  where
    same_file :
        {a b c d a' b' c' d' : ℕ}
        → a ≡ a'
        → b ≡ b'
        → c ≡ c'
        → d ≡ d'
        → ◌≡◌ {A = RamdiskFile}
            (record { name_offset = a; data_offset = b; size = c; pad = d })
            (record { name_offset = a'; data_offset = b'; size = c'; pad = d' })
    same_file p q r t = cc

find_from-first :
    (n : ℕ) (at : ℕ → ℕ) (base : ℕ) (name : List ℕ) (e : RamdiskFile)
    → file_at at base ≡ e
    → name_at 256 at e.name_offset ≡ name
    → find_from (suc n) at base name ≡ some e
unfolding find_from
find_from-first n at base name e header named =
    let here : name_at 256 at (file_at at base).name_offset ≡ name =
      ap (λ x. name_at 256 at x.name_offset) header ∙ named in
    rw (here, same_bytes_refl name) (ap some header)

-- The first file of an image, whatever lies behind the image, is found under its name, with or without
-- a slash before it, and reading gives its contents as far as the buffer reaches. The name has no zero,
-- does not start with a slash and has at most 256 bytes, and the offsets and sizes are below 2 ^ 32.
pub find_file-image :
    (f : Source) (fs : List Source) (beyond : ℕ → ℕ) (len : ℕ)
    → NoZero f.name
    → stripped f.name ≡ f.name
    → length f.name ≤ 256
    → names_offset (f ∷ fs) + length f.name + 1 < 2 ^ 32
    → length f.contents < 2 ^ 32
    → let d = from_embedded_data (within (image (f ∷ fs)) beyond) in
      (e : RamdiskFile) × (find_file f.name d ≡ some e)
      × (find_file (47 ∷ f.name) d ≡ some e)
      × (file_size e ≡ length f.contents)
      × (read_file e len d ≡ take len f.contents)
unfolding find_file from_embedded_data read_file
find_file-image f fs beyond len nonzero plain short offsets sizes =
    let at = within (image (f ∷ fs)) beyond in
    let n = names_offset (f ∷ fs) in
    let (count, base, header) = first_header f fs beyond offsets sizes in
    let named : name_at 256 at n ≡ f.name =
      name_at-there 256 at n f.name (f.contents ++ body fs) beyond (body-there (f ∷ fs) beyond)
        nonzero short in
    let contents = bytes_at-there len at (n + length f.name + 1) f.contents (body fs) beyond (λ j.
      ap at {y = n + (length f.name + suc j)} (omega arith)
      ∙ body-there (f ∷ fs) beyond (length f.name + suc j)
      ∙ within-append f.name (0 ∷ (f.contents ++ body fs)) beyond (suc j)) in
    let found =
      find_from-first (length fs) at 12 f.name
        (record {
          name_offset = n;
          data_offset = n + length f.name + 1;
          size = length f.contents;
          pad = 0;
        })
        header named in
    (
      record {
        name_offset = n;
        data_offset = n + length f.name + 1;
        size = length f.contents;
        pad = 0;
      },
      rw (count, base, plain) found,
      rw (count, base) found,
      refl,
      contents,
    )

-- In the headers that the build writes, the name of each file but the first is said to be where the
-- contents of the file before it are.
pub file_entries-overlap :
    (offset : ℕ) (fs : List Source) (i : ℕ) (e e' : RamdiskFile)
    → get_elem? (file_entries offset fs) i ≡ some e
    → get_elem? (file_entries offset fs) (suc i) ≡ some e'
    → e'.name_offset ≡ e.data_offset
unfolding file_entries
file_entries-overlap offset [] i e e' at at' = cc
file_entries-overlap offset (f ∷ []) i e e' at at' = cc
file_entries-overlap offset (f ∷ g ∷ fs) zero e e' at at' = cc
file_entries-overlap offset (f ∷ g ∷ fs) (suc i) e e' at at' =
    file_entries-overlap (offset + length f.name + 1) (g ∷ fs) i e e' at at'
