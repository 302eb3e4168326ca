-- ===== src/Base/Slots.antt =====
-- Arrays of optional entries: `[Option<T>; N]` in the handle, process and descriptor tables.
use Prim.Native.Nat.{ℕ, zero, suc, ◌+◌, ◌≤◌, ◌<◌}
use mathlib.Core.Path.{◌≡◌, refl, ap, sym, ◌∙◌}
use mathlib.Core.List.{List, [], ◌∷◌}
use mathlib.Core.Option.{Option, none, some}
use native.Mathlib.Omega.{arith}
use native.Mathlib.Decide.{ℕ_discrete}
use rustux.Base.Lists.{length, set, replicate, length-set}

module _ {ℓ} {A : Type ℓ} where
  -- What `.iter().filter(|p| p.is_some()).count()` returns.
  abbrev pub occupied : List (Option A) → ℕ
  occupied [] = 0
  occupied (none ∷ xs) = occupied xs
  occupied (some a ∷ xs) = suc (occupied xs)

  -- Entry `i` of the array, out of range as `none`: `.get(i)?.as_ref()`.
  abbrev pub slot : List (Option A) → ℕ → Option A
  slot [] i = none
  slot (o ∷ xs) zero = o
  slot (o ∷ xs) (suc i) = slot xs i

  pub occupied-le-length : (xs : List (Option A)) → occupied xs ≤ length xs
  occupied-le-length [] = omega arith
  occupied-le-length (none ∷ xs) = omega (arith, occupied-le-length xs)
  occupied-le-length (some a ∷ xs) = omega (arith, occupied-le-length xs)

  pub occupied-set-some :
      (xs : List (Option A)) (i : ℕ) (v : A)
      → i < length xs
      → slot xs i ≡ none
      → occupied (set xs i (some v)) ≡ occupied xs + 1
  occupied-set-some [] i v h e = elim h [ ]
  occupied-set-some (none ∷ xs) zero v h e = omega arith
  occupied-set-some (some a ∷ xs) zero v h e = cc
  occupied-set-some (none ∷ xs) (suc i) v h e = occupied-set-some xs i v (omega arith) e
  occupied-set-some (some a ∷ xs) (suc i) v h e =
      omega (arith, occupied-set-some xs i v (omega arith) e)

  pub occupied-set-none :
      (xs : List (Option A)) (i : ℕ) (v : A)
      → slot xs i ≡ some v
      → occupied (set xs i none) + 1 ≡ occupied xs
  occupied-set-none [] i v e = cc
  occupied-set-none (none ∷ xs) zero v e = cc
  occupied-set-none (some a ∷ xs) zero v e = omega arith
  occupied-set-none (none ∷ xs) (suc i) v e = occupied-set-none xs i v e
  occupied-set-none (some a ∷ xs) (suc i) v e = omega (arith, occupied-set-none xs i v e)

  pub slot-set_self :
      (xs : List (Option A)) (i : ℕ) (v : Option A) → i < length xs → slot (set xs i v) i ≡ v
  slot-set_self [] i v h = elim h [ ]
  slot-set_self (o ∷ xs) zero v h = refl
  slot-set_self (o ∷ xs) (suc i) v h = slot-set_self xs i v (omega arith)

  pub slot-set_ne :
      (xs : List (Option A)) (i j : ℕ) (v : Option A) → ¬ (i ≡ j) → slot (set xs i v) j ≡ slot xs j
  slot-set_ne [] i j v h = refl
  slot-set_ne (o ∷ xs) zero zero v h = absurd (h refl)
  slot-set_ne (o ∷ xs) zero (suc j) v h = refl
  slot-set_ne (o ∷ xs) (suc i) zero v h = refl
  slot-set_ne (o ∷ xs) (suc i) (suc j) v h = slot-set_ne xs i j v (λ e. h (ap suc e))

  pub lt_of_slot : (xs : List (Option A)) (i : ℕ) (v : A) → slot xs i ≡ some v → i < length xs
  lt_of_slot [] i v h = cc
  lt_of_slot (o ∷ xs) zero v h = omega arith
  lt_of_slot (o ∷ xs) (suc i) v h = omega (arith, lt_of_slot xs i v h)

pub occupied-replicate {ℓ} : (A : Type ℓ) (n : ℕ) → occupied {A = A} (replicate n none) ≡ 0
occupied-replicate A zero = refl
occupied-replicate A (suc n) = occupied-replicate A n

pub slot-replicate {ℓ} : (A : Type ℓ) (n i : ℕ) → slot {A = A} (replicate n none) i ≡ none
slot-replicate A zero i = refl
slot-replicate A (suc n) zero = refl
slot-replicate A (suc n) (suc i) = slot-replicate A n i

module _ {ℓ} {A : Type ℓ} where
  pub slot-eq-none : (xs : List (Option A)) (i : ℕ) → length xs ≤ i → slot xs i ≡ none
  slot-eq-none [] i h = refl
  slot-eq-none (o ∷ xs) zero h = absurd (omega arith)
  slot-eq-none (o ∷ xs) (suc i) h = slot-eq-none xs i (omega arith)

  pub occupied-lt-length :
      (xs : List (Option A)) (i : ℕ) → i < length xs → slot xs i ≡ none → occupied xs < length xs
  occupied-lt-length [] i h e = elim h [ ]
  occupied-lt-length (none ∷ xs) zero h e = omega (arith, occupied-le-length xs)
  occupied-lt-length (some a ∷ xs) zero h e = cc
  occupied-lt-length (none ∷ xs) (suc i) h e = omega (arith, occupied-le-length xs)
  occupied-lt-length (some a ∷ xs) (suc i) h e =
      omega (arith, occupied-lt-length xs i (omega arith) e)

  pub slot-set-none :
      (xs : List (Option A)) (i j : ℕ) → slot xs i ≡ none → slot (set xs j none) i ≡ none
  slot-set-none [] i j e = refl
  slot-set-none (o ∷ xs) zero zero e = refl
  slot-set-none (o ∷ xs) zero (suc j) e = e
  slot-set-none (o ∷ xs) (suc i) zero e = e
  slot-set-none (o ∷ xs) (suc i) (suc j) e = slot-set-none xs i j e

-- What holds of every entry holds after a write of an entry that it holds of.
pub slot-set_all {ℓ κ} :
    {A : Type ℓ} (P : ℕ → A → Type κ) (xs : List (Option A)) (k : ℕ) (o : Option A)
    → ((i : ℕ) (a : A) → slot xs i ≡ some a → P i a)
    → ((a : A) → o ≡ some a → P k a)
    → (i : ℕ) (a : A) → slot (set xs k o) i ≡ some a
    → P i a
slot-set_all P xs k o old new i a at = elim (ℕ_discrete k i) [
  | yes here ↦
      let inside : i < length xs =
        omega (arith, lt_of_slot (set xs k o) i a at, length-set xs k o) in
      rw here at (new a (sym (slot-set_self xs k o (omega arith)) ∙ rw (← here) at at))
  | no other ↦ old i a (sym (slot-set_ne xs k i o other) ∙ at)
]
