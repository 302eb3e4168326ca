-- ===== src/Base/Bits.antt =====
-- Laws of `&` and `|` on words of any width, from the equation for the lowest digit.
use Prim.Native.Nat.{
  ℕ, zero, suc, ◌+◌, ◌*◌, ◌/◌, ◌%◌, ◌≤◌, ◌<◌, ◌-◌, ◌^◌, min, max, digits, bit_and, bit_or,
  bit_and-bitwise, bit_or-bitwise,
}
use mathlib.Core.Path.{◌≡◌, refl, ap}
use mathlib.Core.WellFounded
use mathlib.Core.WellFounded.{Acc, WellFounded as IsWellFounded}
use native.Mathlib.Nat.{pow-suc, one-le-pow, mul_comm, div-div-eq-div-mul}
use native.Mathlib.Omega.{arith}

Acc-below : (k n : ℕ) → n < k → Acc ◌<◌ n
Acc-below zero n h = elim h [ ]
Acc-below (suc k) n h = Acc.intro n (λ m hm. Acc-below k m (omega arith))

pub lt_wf : IsWellFounded ◌<◌
lt_wf = record { apply = λ n. Acc-below (suc n) n (omega arith) }

-- The digit recursion does not depend on its count once that is large enough.
module _ (rest : ℕ → ℕ) (op : ℕ → ℕ → ℕ) where
  digits_count : (j k a b : ℕ) → a ≤ j → a ≤ k → digits rest op j a b ≡ digits rest op k a b
  digits_count zero zero a b p q = refl
  digits_count zero (suc k) zero b p q = refl
  digits_count zero (suc k) (suc a) b p q = absurd (omega arith)
  digits_count (suc j) zero zero b p q = refl
  digits_count (suc j) zero (suc a) b p q = absurd (omega arith)
  digits_count (suc j) (suc k) zero b p q = refl
  digits_count (suc j) (suc k) (suc a) b p q =
      ap (λ (t : ℕ). t * 2 + op (suc a % 2) (b % 2))
        (digits_count j k (suc a / 2) (b / 2) (omega arith) (omega arith))

pub bit_and_digit : (a b : ℕ) → bit_and a b ≡ 2 * bit_and (a / 2) (b / 2) + min (a % 2) (b % 2)
bit_and_digit zero b = omega (arith, bit_and-bitwise 0 b, bit_and-bitwise 0 (b / 2))
bit_and_digit (suc a) b = omega (
  arith,
  bit_and-bitwise (suc a) b,
  bit_and-bitwise (suc a / 2) (b / 2),
  digits_count (λ _. 0) min a (suc a / 2) (suc a / 2) (b / 2) (omega arith) (omega arith),
)

pub bit_or_digit : (a b : ℕ) → bit_or a b ≡ 2 * bit_or (a / 2) (b / 2) + max (a % 2) (b % 2)
bit_or_digit zero b = omega (arith, bit_or-bitwise 0 b, bit_or-bitwise 0 (b / 2))
bit_or_digit (suc a) b = omega (
  arith,
  bit_or-bitwise (suc a) b,
  bit_or-bitwise (suc a / 2) (b / 2),
  digits_count (λ y. y) max a (suc a / 2) (suc a / 2) (b / 2) (omega arith) (omega arith),
)

pub bit_and_zero_left : (b : ℕ) → bit_and 0 b ≡ 0
bit_and_zero_left b = bit_and-bitwise 0 b

-- Induction on the digits of `a`.
pub by_digits {ℓ} : (P : ℕ → Type ℓ) → P 0 → ((n : ℕ) → P (suc n / 2) → P (suc n)) → (a : ℕ) → P a
by_digits P base step a = WellFounded.induction lt_wf {C = P} a go
  where
    go : (n : ℕ) → ((m : ℕ) → m < n → P m) → P n
    go zero ih = base
    go (suc n) ih = step n (ih (suc n / 2) (omega arith))

pub bit_and_zero_right : (a : ℕ) → bit_and a 0 ≡ 0
bit_and_zero_right =
    by_digits (λ a. bit_and a 0 ≡ 0) (bit_and_zero_left 0)
      λ n ih. omega (arith, bit_and_digit (suc n) 0)

pub bit_and_self : (a : ℕ) → bit_and a a ≡ a
bit_and_self =
    by_digits (λ a. bit_and a a ≡ a) (bit_and_zero_left 0)
      λ n ih. omega (arith, bit_and_digit (suc n) (suc n))

pub bit_and_le_left : (a b : ℕ) → bit_and a b ≤ a
bit_and_le_left =
    by_digits (λ a. (b : ℕ) → bit_and a b ≤ a) (λ b. omega (arith, bit_and_zero_left b))
      λ n ih b. omega (arith, bit_and_digit (suc n) b, ih (b / 2))

pub bit_and_comm : (a b : ℕ) → bit_and a b ≡ bit_and b a
bit_and_comm =
    by_digits (λ a. (b : ℕ) → bit_and a b ≡ bit_and b a)
      (λ b. omega (arith, bit_and_zero_left b, bit_and_zero_right b))
      λ n ih b. omega (arith, bit_and_digit (suc n) b, bit_and_digit b (suc n), ih (b / 2))

bit_and_half : (a b : ℕ) → bit_and a b / 2 ≡ bit_and (a / 2) (b / 2)
bit_and_half a b = omega (arith, bit_and_digit a b)

bit_and_low : (a b : ℕ) → bit_and a b % 2 ≡ min (a % 2) (b % 2)
bit_and_low a b = omega (arith, bit_and_digit a b)

bit_or_half : (a b : ℕ) → bit_or a b / 2 ≡ bit_or (a / 2) (b / 2)
bit_or_half a b = omega (arith, bit_or_digit a b)

bit_or_low : (a b : ℕ) → bit_or a b % 2 ≡ max (a % 2) (b % 2)
bit_or_low a b = omega (arith, bit_or_digit a b)

pub bit_and_assoc : (a b c : ℕ) → bit_and (bit_and a b) c ≡ bit_and a (bit_and b c)
bit_and_assoc =
    by_digits (λ a. (b c : ℕ) → bit_and (bit_and a b) c ≡ bit_and a (bit_and b c))
      (λ b c. rw (bit_and_zero_left b, bit_and_zero_left c, bit_and_zero_left (bit_and b c)) refl)
      λ n ih b c. omega (
        arith,
        bit_and_digit (bit_and (suc n) b) c,
        bit_and_digit (suc n) (bit_and b c),
        bit_and_low (suc n) b,
        bit_and_low b c,
        ap (λ (t : ℕ). bit_and t (c / 2)) (bit_and_half (suc n) b),
        ap (λ (t : ℕ). bit_and (suc n / 2) t) (bit_and_half b c),
        ih (b / 2) (c / 2),
      )

pub bit_or_zero_left : (b : ℕ) → bit_or 0 b ≡ b
bit_or_zero_left b = bit_or-bitwise 0 b

-- `&` takes back what `|` put in.
pub bit_and_or_absorb : (a b : ℕ) → bit_and a (bit_or a b) ≡ a
bit_and_or_absorb =
    by_digits (λ a. (b : ℕ) → bit_and a (bit_or a b) ≡ a) (λ b. bit_and_zero_left (bit_or 0 b))
      λ n ih b. omega (
        arith,
        bit_and_digit (suc n) (bit_or (suc n) b),
        bit_or_low (suc n) b,
        ap (λ (t : ℕ). bit_and (suc n / 2) t) (bit_or_half (suc n) b),
        ih (b / 2),
      )

pub bit_or_zero_right : (a : ℕ) → bit_or a 0 ≡ a
bit_or_zero_right =
    by_digits (λ a. bit_or a 0 ≡ a) (bit_or_zero_left 0)
      λ n ih. omega (arith, bit_or_digit (suc n) 0)

pub bit_or_comm : (a b : ℕ) → bit_or a b ≡ bit_or b a
bit_or_comm =
    by_digits (λ a. (b : ℕ) → bit_or a b ≡ bit_or b a)
      (λ b. omega (arith, bit_or_zero_left b, bit_or_zero_right b))
      λ n ih b. omega (arith, bit_or_digit (suc n) b, bit_or_digit b (suc n), ih (b / 2))

-- A word splits into the part under a mask and the part under the mask's complement.
pub bit_and_split :
    (w a b : ℕ) → a < 2 ^ w → b < 2 ^ w → bit_and a b + bit_and a (2 ^ w - 1 - b) ≡ a
bit_and_split zero a b ha hb = omega (arith, bit_and_le_left a b, bit_and_le_left a (2 ^ 0 - 1 - b))
bit_and_split (suc w) a b ha hb =
    let e : (2 ^ suc w - 1 - b) / 2 ≡ 2 ^ w - 1 - b / 2 =
      omega (arith, pow-suc 2 w, one-le-pow w 2) in
    omega (
      arith,
      pow-suc 2 w,
      one-le-pow w 2,
      bit_and_digit a b,
      bit_and_digit a (2 ^ suc w - 1 - b),
      ap (λ (t : ℕ). bit_and (a / 2) t) e,
      bit_and_split w (a / 2) (b / 2) (omega (arith, pow-suc 2 w)) (omega (arith, pow-suc 2 w)),
    )

mod_double : (k a : ℕ) → a % (2 * k) ≡ 2 * (a / 2 % k) + a % 2
mod_double k a = let e = div-div-eq-div-mul a 2 k in omega (arith, e, ap (λ (t : ℕ). k * t) e)

-- The low bits of a word under a mask of ones.
pub bit_and_low_mask : (w a : ℕ) → bit_and a (2 ^ w - 1) ≡ a % 2 ^ w
bit_and_low_mask zero a = omega (arith, bit_and_zero_right a)
bit_and_low_mask (suc w) a =
    let e : (2 ^ suc w - 1) / 2 ≡ 2 ^ w - 1 = omega (arith, pow-suc 2 w, one-le-pow w 2) in
    omega (
      arith,
      pow-suc 2 w,
      one-le-pow w 2,
      bit_and_digit a (2 ^ suc w - 1),
      ap (λ (t : ℕ). bit_and (a / 2) t) e,
      ap (λ (t : ℕ). a % t) (pow-suc 2 w),
      ap (λ (t : ℕ). a % t) (mul_comm 2 (2 ^ w)),
      mod_double (2 ^ w) a,
      bit_and_low_mask w (a / 2),
    )
