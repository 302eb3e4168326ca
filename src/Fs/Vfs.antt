-- ===== src/Fs/Vfs.antt =====
-- The files that the VFS opens on the RAM disk: src/fs/vfs.rs. The RAM disk is an argument, `none` before
-- it is set. An offset to seek by is an i64; a file's size is a u32, so that offsets in a file are
-- numbers below 2 ^ 32.
pub mod Reads
mod Tests
use rustux.Base.{
  ℕ, zero, suc, ◌+◌, ◌-◌, ◌^◌, min, ltb, leb, ◌==◌, if◌then◌else◌, Option, none, some, List, [],
  ◌∷◌, length, Result, ok, err,
}
use rustux.Fs.Ramdisk.{Ramdisk, RamdiskFile, find_file, bytes_at}

-- The error numbers of src/fs/ramdisk.rs.
pub data Errno : Type 0 where
  success eperm enoent esrch eintr eio enxio e2big enoexec ebadf echild eagain enomem : Errno
  eacces efault ebusy eexist enodev enotdir eisdir einval enfile emfile espipe erofs : Errno
  emlink epipe edom erange enosys : Errno

pub data Whence : Type 0 where
  set_ cur end_ : Whence

-- Integers: `negsuc n` is `-(n + 1)`.
pub data ℤ : Type 0 where
  pos negsuc : ℕ → ℤ

-- The sum of a number and an i64, as an i64: it wraps around.
unfoldable pub plus_i64 : ℕ → ℤ → ℤ
plus_i64 c (pos n) = if ltb (c + n) (2 ^ 63) then pos (c + n) else negsuc (2 ^ 64 - 1 - (c + n))
plus_i64 c (negsuc n) = if ltb n c then pos (c - (n + 1)) else negsuc (n - c)

pub record RamdiskFileOps : Type 0 where
  pub file : RamdiskFile
  pub offset : ℕ
  pub size : ℕ

unfoldable pub new : RamdiskFile → RamdiskFileOps
new file = record { file = file; offset = 0; size = file.size }

-- What is read into a buffer of `len` bytes, and the file with its offset moved.
-- The offset is never past the size, as `read` and `seek` keep it; there the difference would wrap around.
unfoldable pub read : Option Ramdisk → ℕ → RamdiskFileOps → Result Errno (List ℕ) × RamdiskFileOps
read none len self = (err enodev, self)
read (some d) len self = if self.size - self.offset == 0 then (ok [], self) else (
  ok (bytes_at (min len (self.size - self.offset)) d.data_at (self.file.data_offset + self.offset)),
  record self { offset = self.offset + min len (self.size - self.offset) },
)

unfoldable pub write : List ℕ → RamdiskFileOps → Result Errno ℕ
write bytes self = err erofs

-- A new offset; past the end it becomes the end.
abbrev pub seek_to : ℤ → RamdiskFileOps → Result Errno ℕ × RamdiskFileOps
seek_to (negsuc n) self = (err einval, self)
seek_to (pos n) self =
    if ltb self.size n
    then (ok self.size, record self { offset = self.size })
    else (ok n, record self { offset = n })

unfoldable pub seek : ℤ → Whence → RamdiskFileOps → Result Errno ℕ × RamdiskFileOps
seek offset set_ self = seek_to offset self
seek offset cur self = seek_to (plus_i64 self.offset offset) self
seek offset end_ self = seek_to (plus_i64 self.size offset) self

abbrev pub opened : Option RamdiskFile → Result Errno RamdiskFileOps
opened none = err enoent
opened (some file) = ok (new file)

unfoldable pub open_ramdisk_file : Option Ramdisk → List ℕ → Result Errno RamdiskFileOps
open_ramdisk_file none path = err enodev
open_ramdisk_file (some d) path = opened (find_file path d)
