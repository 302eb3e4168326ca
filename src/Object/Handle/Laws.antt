-- ===== src/Object/Handle/Laws.antt =====
-- What handles of src/object/handle.rs promise: who may duplicate, and which `close` is the last.
use rustux.Base.{
  ℕ, zero, suc, ◌+◌, ◌^◌, ◌<◌, ◌≡◌, refl, Bool, true, false, some, List, [], ◌∷◌, ◌++◌, ok, err,
  invalid_handle, access_denied, is_ok, replicate, arith,
}
use rustux.Object.Rights.{Rights, contains}
use rustux.Object.Rights
use rustux.Object.Handle.{
  Handle, Store, is_valid, require, has_right, duplicate, close, ref_dec, share,
}

-- `require` succeeds exactly where `has_right` says so, and tells an unusable handle from one that
-- lacks the right.
pub require_lem :
    (h : Handle) (r : Rights)
    → (is_ok (require h r) ≡ has_right h r)
      × (is_valid h ≡ false → require h r ≡ err invalid_handle)
      × (is_valid h ≡ true → contains h.rights r ≡ false → require h r ≡ err access_denied)
unfolding require has_right
require_lem h r = ground arith

-- `duplicate` succeeds exactly on a valid handle with the DUPLICATE right; then the new handle has
-- the same object and rights, its object's count has grown by one, and no other count has changed.
-- Otherwise memory is as it was.
pub duplicate_lem :
    (h : Handle) (p : ℕ) (s : Store)
    → h.base ≡ some p
    → (s.objects p).ref_count + 1 < 2 ^ 64
    → (has_right h Rights.duplicate ≡ false
        → (is_ok (duplicate h s).0 ≡ false) × ((duplicate h s).1 ≡ s))
      × (has_right h Rights.duplicate ≡ true
          → (k : Handle) × (s' : Store) × (duplicate h s ≡ (ok k, s'))
            × (k.base ≡ h.base)
            × (k.rights ≡ h.rights)
            × ((s'.objects p).ref_count ≡ (s.objects p).ref_count + 1)
            × ((q : ℕ) → ¬ (q ≡ p) → s'.objects q ≡ s.objects q))
unfolding duplicate has_right
duplicate_lem h p s at room = (
  λ lacks. (ground arith, ground arith),
  λ right. (
    (share h.base h.rights s).0,
    (share h.base h.rights s).1,
    ground arith,
    refl,
    refl,
    ground arith,
    λ q ne. ground arith,
  ),
)

-- Closing a duplicate takes back what `duplicate` counted, at every object.
pub close-duplicate :
    (h k : Handle) (p : ℕ) (s s' : Store)
    → h.base ≡ some p
    → (s.objects p).ref_count + 1 < 2 ^ 64
    → duplicate h s ≡ (ok k, s')
    → (q : ℕ) → ((close k s').1.objects q).ref_count ≡ (s.objects q).ref_count
unfolding duplicate close
close-duplicate h k p s s' at room e q = ground arith

-- `n` calls of `ref_dec`, with what each returns.
unfoldable pub ref_decs : ℕ → ℕ → Store → List Bool × Store
unfolding ref_dec
ref_decs zero p s = ([], s)
ref_decs (suc n) p s =
    let (last, s') = ref_dec p s in let (rest, s'') = ref_decs n p s' in (last ∷ rest, s'')

-- Of the `n + 1` calls that give up `n + 1` references exactly the last returns true.
pub ref_decs-last :
    (n p : ℕ) (s : Store)
    → (s.objects p).ref_count ≡ suc n
    → suc n < 2 ^ 64
    → (ref_decs (suc n) p s).0 ≡ replicate n false ++ (true ∷ [])
unfolding ref_decs
ref_decs-last zero p s held room = ground arith
ref_decs-last (suc n) p s held room =
    ground (arith, ref_decs-last n p (ref_dec p s).1 (ground arith) (omega arith))
