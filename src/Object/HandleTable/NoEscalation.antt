-- ===== src/Object/HandleTable/NoEscalation.antt =====
-- No call of src/object/handle.rs on a handle table makes up rights: what a process can reach with
-- `remove` and `duplicate` is bounded by the handles that it was given.
use rustux.Base.{
  ℕ, ◌≡◌, refl, sym, ap, ◌∙◌, inl, inr, true, false, some, List, [], ◌∷◌, Result, Error, ok, err,
  Outcome, returns, panics, arith, ℕ_discrete,
}
use rustux.Object.Rights.{Rights, contains}
use rustux.Object.Rights
use rustux.Object.Rights.Laws.{contains_self, contains_trans, contains-reduce, contains-reduce_mask}
use rustux.Object.Handle.{Handle, Store, masked, share}
use rustux.Object.HandleTable.{HandleTable, to_handle, add, get, remove, duplicate}
use rustux.Object.HandleTable.Validity.{
  IsValid, get-slot, as_handle, get-add, get-remove, add-err, remove-IsValid, duplicate-IsValid,
}
use rustux.Object.HandleTable.Cases.{
  copy_of, out_of_bounds, not_found, refused, shared, duplicate_cases,
}

contains-masked : (r mask : Rights) → contains r (masked r mask) ≡ true
unfolding masked
contains-masked r mask = ground (arith, contains_self r, contains-reduce r mask)

masked_within :
    (r mask : Rights)
    → contains mask Rights.same_rights ≡ false
    → contains mask (masked r mask) ≡ true
unfolding masked
masked_within r mask h = rw h (contains-reduce_mask r mask)

-- What `duplicate` does to the table is a call of `add`, or nothing where it fails.
pub duplicate-add :
    (w : ℕ) (mask : Rights) (t : HandleTable) (s : Store) (u : ℕ) {t' : HandleTable} {s' : Store}
    → duplicate w mask t s ≡ returns (ok u, t', s')
    → (k : Handle) × (add k t ≡ (ok u, t'))
duplicate-add w mask t s u d = elim (duplicate_cases w mask t s) [
  | out_of_bounds _ e ↦ cc
  | not_found _ _ e ↦ cc
  | refused x _ _ _ e ↦ cc
  | shared x _ _ _ e ↦ ((copy_of x mask s).0, ground arith)
]

duplicate-err :
    (w : ℕ) (mask : Rights) (t : HandleTable) (s : Store) {e : Error} {t' : HandleTable}
    {s' : Store}
    → duplicate w mask t s ≡ returns (err e, t', s')
    → t' ≡ t
duplicate-err w mask t s {e} d = elim (duplicate_cases w mask t s) [
  | out_of_bounds _ f ↦ cc
  | not_found _ _ f ↦ cc
  | refused x _ _ _ f ↦ cc
  | shared x _ _ _ f ↦ ground (arith, add-err (copy_of x mask s).0 t {e = e})
]

-- A duplicate points to the object of the handle that it copies, which holds the DUPLICATE right
-- and every right of the duplicate; unless the mask says SAME_RIGHTS, so does the mask.
pub duplicate-rights :
    (w : ℕ) (mask : Rights) (t : HandleTable) (s : Store) (u : ℕ) {t' : HandleTable} {s' : Store}
    → IsValid t
    → duplicate w mask t s ≡ returns (ok u, t', s')
    → (h : Handle) × (k : Handle) × (get w t ≡ some h)
      × (get u t' ≡ some k)
      × (k.base ≡ h.base)
      × (contains h.rights Rights.duplicate ≡ true)
      × (contains h.rights k.rights ≡ true)
      × (contains mask Rights.same_rights ≡ false → contains mask k.rights ≡ true)
unfolding share
duplicate-rights w mask t s u {t'} {s'} v d = elim (duplicate_cases w mask t s) [
  | out_of_bounds _ e ↦ cc
  | not_found _ _ e ↦ cc
  | refused x _ _ _ e ↦ cc
  | shared x _ used right e ↦
      let k = (copy_of x mask s).0 in
      let added : add k t ≡ (ok u, t') = ground arith in
      let reads = get-add k t u v added in
      (
        to_handle x,
        k,
        get-slot w t v.size ∙ ap as_handle used,
        reads.1,
        refl,
        right,
        contains-masked x.rights mask,
        masked_within x.rights mask,
      )
]

-- Every handle of the second table is one of the first with no more rights to the same object.
abbrev Derives : HandleTable → HandleTable → Type 0
Derives t t' =
    (u : ℕ) (k : Handle)
    → get u t' ≡ some k
    → (w : ℕ) × (h : Handle) × (get w t ≡ some h)
      × (k.base ≡ h.base)
      × (contains h.rights k.rights ≡ true)

Derives-refl : (t : HandleTable) → Derives t t
Derives-refl t u k found = (u, k, found, refl, contains_self k.rights)

Derives-of_eq : (t t' : HandleTable) → t' ≡ t → Derives t t'
Derives-of_eq t t' e = rw e (Derives-refl t)

Derives-trans : (t t' t'' : HandleTable) → Derives t t' → Derives t' t'' → Derives t t''
Derives-trans t t' t'' d d' u k found =
    let (w, h, at, base, rights) = d' u k found in
    let (w', h', at', base', rights') = d w h at in
    (w', h', at', base ∙ base', contains_trans h'.rights h.rights k.rights rights' rights)

remove-Derives : (w : ℕ) (t : HandleTable) (s : Store) → IsValid t → Derives t (remove w t s).1
remove-Derives w t s v u k found = elim (ℕ_discrete u w) [
  | yes here ↦
      let gone = (get-remove w t s v).0 in
      absurd (ground (arith, ap (λ i. get i (remove w t s).1) here))
  | no other ↦ (u, k, sym ((get-remove w t s v).1 u other) ∙ found, refl, contains_self k.rights)
]

duplicate-Derives :
    (w : ℕ) (mask : Rights) (t : HandleTable) (s : Store) (r : Result Error ℕ) {t' : HandleTable}
    {s' : Store}
    → IsValid t
    → duplicate w mask t s ≡ returns (r, t', s')
    → Derives t t'
duplicate-Derives w mask t s (err e) {t'} v d u k found =
    Derives-of_eq t t' (duplicate-err w mask t s d) u k found
duplicate-Derives w mask t s (ok i) {t'} v d u k found = elim (ℕ_discrete u i) [
  | yes here ↦
      let (h, k', at, at', base, _, rights, _) = duplicate-rights w mask t s i v d in
      let same : k ≡ k' = ground (arith, ap (λ j. get j t') here) in
      (w, h, at, rw same base, rw same rights)
  | no other ↦
      let (c, added) = duplicate-add w mask t s i d in
      (u, k, sym ((get-add c t i v added).2 u other) ∙ found, refl, contains_self k.rights)
]

pub data Call : Type 0 where
  removes : ℕ → Call
  duplicates : ℕ → Rights → Call

abbrev pub after : Outcome (Result Error ℕ × HandleTable × Store) → Outcome (HandleTable × Store)
after panics = panics
after (returns (r, t, s)) = returns (t, s)

unfoldable pub step : Call → HandleTable → Store → Outcome (HandleTable × Store)
step (removes w) t s = returns ((remove w t s).1, (remove w t s).2)
step (duplicates w mask) t s = after (duplicate w mask t s)

unfoldable pub run : List Call → HandleTable → Store → Outcome (HandleTable × Store)
unfolding step
run [] t s = returns (t, s)
run (c ∷ cs) t s = elim (step c t s) [ panics ↦ panics | returns (t', s') ↦ run cs t' s' ]

duplicate-keeps :
    (w : ℕ) (mask : Rights) (t : HandleTable) (s : Store) {r : Result Error ℕ} {t' : HandleTable}
    {s' : Store}
    → IsValid t
    → duplicate w mask t s ≡ returns (r, t', s')
    → IsValid t'
duplicate-keeps w mask t s v d = elim (duplicate-IsValid w mask t s v) [
  | inl (_, e) ↦ cc
  | inr (_, r', t'', s'', e, v'') ↦ ground arith
]

step-Derives :
    (c : Call) (t : HandleTable) (s : Store) (t' : HandleTable) (s' : Store)
    → IsValid t
    → step c t s ≡ returns (t', s')
    → IsValid t' × Derives t t'
unfolding step
step-Derives (removes w) t s t' s' v e =
    let same : t' ≡ (remove w t s).1 = cc in
    rw same (remove-IsValid w t s v, remove-Derives w t s v)
step-Derives (duplicates w mask) t s t' s' v e = go (duplicate w mask t s) refl e
  where
    go :
        (o : Outcome (Result Error ℕ × HandleTable × Store))
        → duplicate w mask t s ≡ o
        → after o ≡ returns (t', s')
        → IsValid t' × Derives t t'
    go panics d f = cc
    go (returns (r, t'', s'')) d f =
        let same : t' ≡ t'' = cc in
        rw same (duplicate-keeps w mask t s v d, duplicate-Derives w mask t s r v d)

run-cons :
    (c : Call) (cs : List Call) (t : HandleTable) (s : Store) (t' : HandleTable) (s' : Store)
    → run (c ∷ cs) t s ≡ returns (t', s')
    → (t'' : HandleTable) × (s'' : Store) × (step c t s ≡ returns (t'', s''))
      × (run cs t'' s'' ≡ returns (t', s'))
unfolding run
run-cons c cs t s t' s' e = go (step c t s) refl
  where
    go :
        (o : Outcome (HandleTable × Store))
        → step c t s ≡ o
        → (t'' : HandleTable) × (s'' : Store) × (step c t s ≡ returns (t'', s''))
          × (run cs t'' s'' ≡ returns (t', s'))
    go panics f = absurd (ground arith)
    go (returns (t'', s'')) f = (t'', s'', f, ground arith)

-- Capability safety: whatever calls of `remove` and `duplicate` a process makes, each handle that it
-- ends up with is to an object that a handle of the initial table was to, with no more rights than
-- that handle had.
pub run-no_escalation :
    (cs : List Call) (t : HandleTable) (s : Store) (t' : HandleTable) (s' : Store)
    → IsValid t
    → run cs t s ≡ returns (t', s')
    → (u : ℕ) (k : Handle) → get u t' ≡ some k
    → (w : ℕ) × (h : Handle) × (get w t ≡ some h)
      × (k.base ≡ h.base)
      × (contains h.rights k.rights ≡ true)
unfolding run
run-no_escalation [] t s t' s' v e = Derives-of_eq t t' (ground arith)
run-no_escalation (c ∷ cs) t s t' s' v e =
    let (t'', s'', first, rest) = run-cons c cs t s t' s' e in
    let (v'', derives) = step-Derives c t s t'' s'' v first in
    Derives-trans t t'' t' derives (run-no_escalation cs t'' s'' t' s' v'' rest)
