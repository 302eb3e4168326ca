-- ===== src/Fs/Ramdisk/Tests.antt =====
-- An image of two files.
use rustux.Base.{ℕ, ◌≡◌, refl, none, some, [], ◌∷◌, arith}
use rustux.Fs.Ramdisk.{
  RamdiskFile, from_embedded_data, find_file, find_from, name_at, read_file, file_size, Source,
  file_entries, image,
}
use rustux.Fs.Ramdisk.Image.{within, find_file-image}

-- "t" with three bytes, and "u" with two.
abbrev first : Source
first = record { name = 0x74 ∷ []; contents = 1 ∷ 2 ∷ 3 ∷ [] }

abbrev second : Source
second = record { name = 0x75 ∷ []; contents = 4 ∷ 5 ∷ [] }

abbrev nothing : ℕ → ℕ
nothing i = 0

find_file-image_example :
    let d = from_embedded_data (within (image (first ∷ second ∷ [])) nothing) in
    (e : RamdiskFile) × (find_file (0x74 ∷ []) d ≡ some e)
    × (find_file (47 ∷ 0x74 ∷ []) d ≡ some e)
    × (file_size e ≡ 3)
    × (read_file e 2 d ≡ 1 ∷ 2 ∷ [])
find_file-image_example =
    find_file-image first (second ∷ []) nothing 2 ((λ e. cc), tt) refl (omega arith) (omega arith)
      (omega arith)

-- The second file is not found under its name.
second_lost :
    find_file (0x75 ∷ []) (from_embedded_data (within (image (first ∷ second ∷ [])) nothing)) ≡ none
unfolding find_file find_from name_at from_embedded_data image file_entries
second_lost = refl

entry : ℕ → ℕ → ℕ → RamdiskFile
entry name_offset data_offset size = record {
  name_offset = name_offset;
  data_offset = data_offset;
  size = size;
  pad = 0;
}
