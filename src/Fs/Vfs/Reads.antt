-- ===== src/Fs/Vfs/Reads.antt =====
-- Reading and seeking in the files of src/fs/vfs.rs.
use rustux.Base.{
  ℕ, zero, suc, ◌+◌, ◌-◌, ◌^◌, ◌<◌, ◌≤◌, ◌≡◌, ◌⊎◌, inl, inr, refl, ap, ◌∙◌, Bool-cases, true, min,
  some, List, [], ◌∷◌, ◌++◌, arith, ltb, ◌==◌, Result, ok, err,
}
use rustux.Fs.Ramdisk.{Ramdisk, RamdiskFile, bytes_at, find_file}
use rustux.Fs.Vfs.{
  Errno, einval, pos, negsuc, plus_i64, Whence, set_, cur, end_, RamdiskFileOps, new, read, seek_to,
  seek, open_ramdisk_file,
}

abbrev pub bytes_read : Result Errno (List ℕ) → List ℕ
bytes_read (ok bytes) = bytes
bytes_read (err e) = []

-- What a sequence of reads with buffers of the given lengths gives, put together.
unfoldable pub read_all : Ramdisk → List ℕ → RamdiskFileOps → List ℕ × RamdiskFileOps
read_all d [] self = ([], self)
read_all d (len ∷ lens) self =
    let (r, self') = read (some d) len self in
    let (rest, last) = read_all d lens self' in (bytes_read r ++ rest, last)

abbrev pub total : List ℕ → ℕ
total [] = 0
total (n ∷ ns) = n + total ns

bytes_at-append :
    (n k : ℕ) (at : ℕ → ℕ) (i : ℕ)
    → bytes_at n at i ++ bytes_at k at (i + n) ≡ bytes_at (n + k) at i
bytes_at-append zero k at i =
    ap (bytes_at k at) (omega arith) ∙ ap (λ j. bytes_at j at i) (omega arith)
bytes_at-append (suc n) k at i =
    ap (λ j. at i ∷ (bytes_at n at (i + 1) ++ bytes_at k at j)) (omega arith)
    ∙ ap (◌∷◌ (at i)) (bytes_at-append n k at (i + 1))
    ∙ ap (λ j. bytes_at j at i) {x = suc (n + k)} (omega arith)

read_all_from :
    (d : Ramdisk) (lens : List ℕ) (self : RamdiskFileOps)
    → self.offset ≤ self.size
    → ((read_all d lens self).0
        ≡ bytes_at
            (min (total lens) (self.size - self.offset))
            d.data_at
            (self.file.data_offset + self.offset))
      × ((read_all d lens self).1.offset ≡ min (self.offset + total lens) self.size)
unfolding read_all read
read_all_from d [] self inside = (
  ap (λ n. bytes_at n d.data_at (self.file.data_offset + self.offset)) {x = 0} (omega arith),
  omega arith,
)
read_all_from d (len ∷ lens) self inside = elim (Bool-cases (self.size - self.offset == 0)) [
  | inl at_end ↦
      let (bytes, offset) = read_all_from d lens self inside in
      rw at_end (
        bytes ∙ ap (λ n. bytes_at n d.data_at (self.file.data_offset + self.offset)) (ground arith),
        ground (arith, offset),
      )
  | inr more ↦
      let n = min len (self.size - self.offset) in
      let self' : RamdiskFileOps = record self { offset = self.offset + n } in
      let (bytes, offset) = read_all_from d lens self' (omega arith) in
      rw more (
        ap (λ bs. bytes_at n d.data_at (self.file.data_offset + self.offset) ++ bs)
              (bytes
                ∙ ap (bytes_at (min (total lens) (self.size - (self.offset + n))) d.data_at)
                    (omega arith))
            ∙ bytes_at-append n (min (total lens) (self.size - (self.offset + n))) d.data_at
                (self.file.data_offset + self.offset)
            ∙ ap (λ k. bytes_at k d.data_at (self.file.data_offset + self.offset)) (omega arith),
        omega (arith, offset),
      )
]

-- A file that has been opened gives, in any number of reads with buffers of any lengths, its bytes one
-- after the other from the first on, up to its size, and then nothing.
pub read_all_lem :
    (d : Ramdisk) (path : List ℕ) (f : RamdiskFile) (lens : List ℕ)
    → find_file path d ≡ some f
    → (self : RamdiskFileOps) × (open_ramdisk_file (some d) path ≡ ok self)
      × ((read_all d lens self).0 ≡ bytes_at (min (total lens) f.size) d.data_at f.data_offset)
      × ((read_all d lens self).1.offset ≡ min (total lens) f.size)
unfolding open_ramdisk_file new
read_all_lem d path f lens found =
    let self : RamdiskFileOps = record { file = f; offset = 0; size = f.size } in
    let (bytes, offset) = read_all_from d lens self (omega arith) in
    (
      self,
      rw found refl,
      bytes
          ∙ ap (λ n. bytes_at n d.data_at (f.data_offset + 0)) (omega arith)
          ∙ ap (bytes_at (min (total lens) f.size) d.data_at) (omega arith),
      omega (arith, offset),
    )

seek_to-pos :
    (n : ℕ) (self : RamdiskFileOps)
    → seek_to (pos n) self ≡ (ok (min n self.size), record self { offset = min n self.size })
seek_to-pos n self = elim (Bool-cases (ltb self.size n)) [
  | inl past ↦
      let is : self.size ≡ min n self.size = ground arith in
      rw past (ap (λ k. (ok k, record self { offset = k })) is)
  | inr inside ↦
      let is : n ≡ min n self.size = ground arith in
      rw inside (ap (λ k. (ok k, record self { offset = k })) is)
]

plus_i64-pos : (c n : ℕ) → c + n < 2 ^ 63 → plus_i64 c (pos n) ≡ pos (c + n)
unfolding plus_i64
plus_i64-pos c n small = let holds : ltb (c + n) (2 ^ 63) ≡ true = ground arith in rw holds refl

plus_i64-negsuc :
    (c n : ℕ)
    → ((n < c) × (plus_i64 c (negsuc n) ≡ pos (c - (n + 1))))
      ⊎ ((c ≤ n) × (plus_i64 c (negsuc n) ≡ negsuc (n - c)))
unfolding plus_i64
plus_i64-negsuc c n = elim (Bool-cases (ltb n c)) [
  | inl below ↦ inl (ground arith, rw below refl)
  | inr above ↦ inr (ground arith, rw above refl)
]

abbrev pub origin : Whence → RamdiskFileOps → ℕ
origin set_ self = 0
origin cur self = self.offset
origin end_ self = self.size

-- The fields after a seek by `-(n + 1)` from `c`: the place `n + 1` before it, or an error.
unfoldable pub BackFrom : ℕ → ℕ → RamdiskFileOps → Result Errno ℕ × RamdiskFileOps → Type 0
BackFrom c n self r =
    ((n < c)
      × (r ≡ (
        ok (min (c - (n + 1)) self.size),
        record self { offset = min (c - (n + 1)) self.size },
      )))
    ⊎ ((c ≤ n) × (r ≡ (err einval, self)))

back : (c n : ℕ) (self : RamdiskFileOps) → BackFrom c n self (seek_to (plus_i64 c (negsuc n)) self)
unfolding BackFrom
back c n self = elim (plus_i64-negsuc c n) [
  | inl (below, is) ↦ inl (below, ap (λ z. seek_to z self) is ∙ seek_to-pos (c - (n + 1)) self)
  | inr (above, is) ↦ inr (above, ap (λ z. seek_to z self) is)
]

seek-pos :
    (n : ℕ) (w : Whence) (self : RamdiskFileOps)
    → origin w self + n < 2 ^ 63
    → seek (pos n) w self ≡ (
      ok (min (origin w self + n) self.size),
      record self { offset = min (origin w self + n) self.size },
    )
unfolding seek
seek-pos n set_ self small =
    seek_to-pos n self ∙ ap (λ k. (ok k, record self { offset = k })) (omega arith)
seek-pos n cur self small =
    ap (λ z. seek_to z self) (plus_i64-pos self.offset n small) ∙ seek_to-pos (self.offset + n) self
seek-pos n end_ self small =
    ap (λ z. seek_to z self) (plus_i64-pos self.size n small) ∙ seek_to-pos (self.size + n) self

seek-negsuc :
    (n : ℕ) (w : Whence) (self : RamdiskFileOps)
    → BackFrom (origin w self) n self (seek (negsuc n) w self)
unfolding seek BackFrom
seek-negsuc n set_ self = inr (omega arith, refl)
seek-negsuc n cur self = back self.offset n self
seek-negsuc n end_ self = back self.size n self

-- Seeking by `n` goes to the origin plus `n`, or to the end of the file if that is less, when the sum is
-- below 2 ^ 63; seeking by `-(n + 1)` goes to the origin minus `n + 1`, or to the end if that is less,
-- unless it is negative, and then it fails with EINVAL and nothing moves.
pub seek_lem :
    (n : ℕ) (w : Whence) (self : RamdiskFileOps)
    → origin w self + n < 2 ^ 63
    → (seek (pos n) w self ≡ (
      ok (min (origin w self + n) self.size),
      record self { offset = min (origin w self + n) self.size },
    ))
      × BackFrom (origin w self) n self (seek (negsuc n) w self)
seek_lem n w self small = (seek-pos n w self small, seek-negsuc n w self)
