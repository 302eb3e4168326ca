-- ===== src/Fs/Vfs/Tests.antt =====
-- A disk of one file "t" of three bytes.
use rustux.Base.{ℕ, ◌≡◌, refl, some, [], ◌∷◌, arith, ok}
use rustux.Fs.Ramdisk.{
  Ramdisk, RamdiskFile, from_embedded_data, find_file, find_from, name_at, Source, file_entries,
  image,
}
use rustux.Fs.Ramdisk.Image.{within}
use rustux.Fs.Vfs.{RamdiskFileOps, open_ramdisk_file, seek, pos, negsuc, cur}
use rustux.Fs.Vfs.Reads.{read_all, read_all_lem, seek_lem, BackFrom}

abbrev only : Source
only = record { name = 0x74 ∷ []; contents = 1 ∷ 2 ∷ 3 ∷ [] }

abbrev nothing : ℕ → ℕ
nothing i = 0

abbrev disk : Ramdisk
disk = from_embedded_data (within (image (only ∷ [])) nothing)

abbrev entry : RamdiskFile
entry = record { name_offset = 28; data_offset = 30; size = 3; pad = 0 }

abbrev halfway : RamdiskFileOps
halfway = record { file = entry; offset = 2; size = 3 }

found : find_file (0x74 ∷ []) disk ≡ some entry
unfolding find_file find_from name_at from_embedded_data image file_entries
found = refl

read_all_lem_example :
    (self : RamdiskFileOps) × (open_ramdisk_file (some disk) (0x74 ∷ []) ≡ ok self)
    × ((read_all disk (2 ∷ 2 ∷ 2 ∷ []) self).0 ≡ 1 ∷ 2 ∷ 3 ∷ [])
    × ((read_all disk (2 ∷ 2 ∷ 2 ∷ []) self).1.offset ≡ 3)
unfolding from_embedded_data image file_entries
read_all_lem_example = read_all_lem disk (0x74 ∷ []) entry (2 ∷ 2 ∷ 2 ∷ []) found

seek_lem_example :
    (seek (pos 5) cur halfway ≡ (ok 3, record halfway { offset = 3 }))
    × BackFrom 2 5 halfway (seek (negsuc 5) cur halfway)
seek_lem_example = seek_lem 5 cur halfway (omega arith)
