-- ===== src/Base/Lists.antt =====
-- Lists measured and indexed by native numbers, under the library's names.
use Prim.Native.Nat.{ℕ, zero, suc, ◌+◌, ◌-◌, ◌<◌, ◌≤◌, min}
use mathlib.Core.Path.{◌≡◌, refl, ap}
use mathlib.Core.Logic.{◌≢◌, ◌⊎◌, inl, inr}
use mathlib.Core.List.{List, [], ◌∷◌, ◌++◌}
use mathlib.Core.Option.{Option, none, some}
use native.Mathlib.Omega.{arith}

module _ {ℓ} {A : Type ℓ} where
  abbrev pub length : List A → ℕ
  length [] = 0
  length (x ∷ xs) = suc (length xs)

  abbrev pub get_elem? : List A → ℕ → Option A
  get_elem? [] i = none
  get_elem? (x ∷ xs) zero = some x
  get_elem? (x ∷ xs) (suc i) = get_elem? xs i

  -- A write out of bounds changes nothing.
  abbrev pub set : List A → ℕ → A → List A
  set [] i v = []
  set (x ∷ xs) zero v = v ∷ xs
  set (x ∷ xs) (suc i) v = x ∷ set xs i v

  abbrev pub take : ℕ → List A → List A
  take zero xs = []
  take (suc n) [] = []
  take (suc n) (x ∷ xs) = x ∷ take n xs

  abbrev pub drop : ℕ → List A → List A
  drop zero xs = xs
  drop (suc n) [] = []
  drop (suc n) (x ∷ xs) = drop n xs

  abbrev pub replicate : ℕ → A → List A
  replicate zero a = []
  replicate (suc n) a = a ∷ replicate n a

  pub length-append : (xs ys : List A) → length (xs ++ ys) ≡ length xs + length ys
  length-append [] ys = omega arith
  length-append (x ∷ xs) ys = omega (arith, length-append xs ys)

  pub length-set : (xs : List A) (i : ℕ) (v : A) → length (set xs i v) ≡ length xs
  length-set [] i v = refl
  length-set (x ∷ xs) zero v = refl
  length-set (x ∷ xs) (suc i) v = ap suc (length-set xs i v)

  pub length-take : (n : ℕ) (xs : List A) → length (take n xs) ≡ min n (length xs)
  length-take zero xs = omega arith
  length-take (suc n) [] = omega arith
  length-take (suc n) (x ∷ xs) = omega (arith, length-take n xs)

  pub length-drop : (n : ℕ) (xs : List A) → length (drop n xs) ≡ length xs - n
  length-drop zero xs = omega arith
  length-drop (suc n) [] = omega arith
  length-drop (suc n) (x ∷ xs) = omega (arith, length-drop n xs)

  pub length-replicate : (n : ℕ) (a : A) → length (replicate n a) ≡ n
  length-replicate zero a = refl
  length-replicate (suc n) a = ap suc (length-replicate n a)

  pub get_elem?-set_self :
      (xs : List A) (i : ℕ) (v : A) → i < length xs → get_elem? (set xs i v) i ≡ some v
  get_elem?-set_self [] i v h = elim h [ ]
  get_elem?-set_self (x ∷ xs) zero v h = refl
  get_elem?-set_self (x ∷ xs) (suc i) v h = get_elem?-set_self xs i v (omega arith)

  pub get_elem?-set_ne :
      (xs : List A) (i j : ℕ) (v : A) → i ≢ j → get_elem? (set xs i v) j ≡ get_elem? xs j
  get_elem?-set_ne [] i j v h = refl
  get_elem?-set_ne (x ∷ xs) zero zero v h = absurd (h refl)
  get_elem?-set_ne (x ∷ xs) zero (suc j) v h = refl
  get_elem?-set_ne (x ∷ xs) (suc i) zero v h = refl
  get_elem?-set_ne (x ∷ xs) (suc i) (suc j) v h = get_elem?-set_ne xs i j v (λ e. h (ap suc e))

  pub lt_of_get_elem? : (xs : List A) (i : ℕ) (v : A) → get_elem? xs i ≡ some v → i < length xs
  lt_of_get_elem? [] i v h = cc
  lt_of_get_elem? (x ∷ xs) zero v h = omega arith
  lt_of_get_elem? (x ∷ xs) (suc i) v h = omega (arith, lt_of_get_elem? xs i v h)

  pub get_elem?-eq-none : (xs : List A) (i : ℕ) → length xs ≤ i → get_elem? xs i ≡ none
  get_elem?-eq-none [] i h = refl
  get_elem?-eq-none (x ∷ xs) zero h = absurd (omega arith)
  get_elem?-eq-none (x ∷ xs) (suc i) h = get_elem?-eq-none xs i (omega arith)

  pub get_elem?-some_of_lt :
      (xs : List A) (i : ℕ) → i < length xs → (v : A) × (get_elem? xs i ≡ some v)
  get_elem?-some_of_lt [] i h = elim h [ ]
  get_elem?-some_of_lt (x ∷ xs) zero h = (x, refl)
  get_elem?-some_of_lt (x ∷ xs) (suc i) h = get_elem?-some_of_lt xs i (omega arith)

  pub set-set : (xs : List A) (i : ℕ) (v w : A) → set (set xs i v) i w ≡ set xs i w
  set-set [] i v w = refl
  set-set (x ∷ xs) zero v w = refl
  set-set (x ∷ xs) (suc i) v w = ap (◌∷◌ x) (set-set xs i v w)

  pub get_elem?-replicate : (n i : ℕ) (a : A) → i < n → get_elem? (replicate n a) i ≡ some a
  get_elem?-replicate zero i a h = elim h [ ]
  get_elem?-replicate (suc n) zero a h = refl
  get_elem?-replicate (suc n) (suc i) a h = get_elem?-replicate n i a (omega arith)

  -- Writing what is there changes nothing.
  pub set-get_elem? : (xs : List A) (i : ℕ) (v : A) → get_elem? xs i ≡ some v → set xs i v ≡ xs
  set-get_elem? [] i v h = refl
  set-get_elem? (x ∷ xs) zero v h = cc
  set-get_elem? (x ∷ xs) (suc i) v h = ap (◌∷◌ x) (set-get_elem? xs i v h)

  pub get_elem?-set_cases :
      (xs : List A) (i j : ℕ) (v w : A)
      → get_elem? (set xs i v) j ≡ some w
      → ((i ≡ j) × (w ≡ v)) ⊎ ((i ≢ j) × (get_elem? xs j ≡ some w))
  get_elem?-set_cases [] i j v w h = cc
  get_elem?-set_cases (x ∷ xs) zero zero v w h = inl (refl, cc)
  get_elem?-set_cases (x ∷ xs) zero (suc j) v w h = inr (λ e. cc, h)
  get_elem?-set_cases (x ∷ xs) (suc i) zero v w h = inr (λ e. cc, h)
  get_elem?-set_cases (x ∷ xs) (suc i) (suc j) v w h = elim (get_elem?-set_cases xs i j v w h) [
    | inl (e, f) ↦ inl (ap suc e, f)
    | inr (ne, f) ↦ inr (λ e. ne (omega arith), f)
  ]
