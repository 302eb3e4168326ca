-- ===== src/Exec/Elf/Digits.antt =====
-- Little-endian numbers.
use rustux.Base.{
  ℕ, zero, suc, ◌+◌, ◌*◌, ◌/◌, ◌%◌, ◌^◌, ◌<◌, ◌≡◌, refl, ap, ◌∙◌, List, [], ◌∷◌, ◌++◌, arith,
  length, get_elem?,
}
use native.Mathlib.Nat.{pow-suc}
use rustux.Exec.Elf.{byte, or_zero, from_le_bytes}

-- The `n` lowest digits of a number in base 256, the lowest first: `to_le_bytes`.
abbrev pub le_bytes : ℕ → ℕ → List ℕ
le_bytes zero v = []
le_bytes (suc n) v = v % 256 ∷ le_bytes n (v / 256)

pub from_le_bytes-skip :
    (n : ℕ) (a : ℕ) (file : List ℕ) (i : ℕ)
    → from_le_bytes n (a ∷ file) (i + 1) ≡ from_le_bytes n file i
from_le_bytes-skip zero a file i = refl
from_le_bytes-skip (suc n) a file i =
    let here : get_elem? (a ∷ file) (i + 1) ≡ get_elem? file i =
      ap (get_elem? (a ∷ file)) {y = suc i} (omega arith) in
    ap (λ o. or_zero o + 256 * from_le_bytes n (a ∷ file) (i + 1 + 1)) here
    ∙ ap (λ r. byte file i + 256 * r) (from_le_bytes-skip n a file (i + 1))

-- Reading gives back a number that was written.
pub from_le_bytes-le_bytes :
    (n v : ℕ) (file : List ℕ) → v < 256 ^ n → from_le_bytes n (le_bytes n v ++ file) 0 ≡ v
from_le_bytes-le_bytes zero v file h = omega arith
from_le_bytes-le_bytes (suc n) v file h =
    let rest = from_le_bytes-le_bytes n (v / 256) file (omega (arith, pow-suc 256 n)) in
    let skip = from_le_bytes-skip n (v % 256) (le_bytes n (v / 256) ++ file) 0 in
    omega (arith, rest, skip)

-- A number that is preceded by other bytes.
pub from_le_bytes-append :
    (n : ℕ) (before file : List ℕ) (i : ℕ)
    → from_le_bytes n (before ++ file) (length before + i) ≡ from_le_bytes n file i
from_le_bytes-append n [] file i = ap (from_le_bytes n file) (omega arith)
from_le_bytes-append n (a ∷ before) file i =
    ap (from_le_bytes n (a ∷ (before ++ file))) (omega arith)
    ∙ from_le_bytes-skip n a (before ++ file) (length before + i)
    ∙ from_le_bytes-append n before file i
