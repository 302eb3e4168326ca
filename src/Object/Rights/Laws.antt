-- ===== src/Object/Rights/Laws.antt =====
-- Rights masks as sets: what `reduce`, `add` and `remove` of src/object/handle.rs keep and drop.
use rustux.Base.{
  ◌<◌, ◌-◌, ◌^◌, ◌+◌, ◌&&◌, ◌≡◌, refl, sym, ap, ◌∙◌, true, false, arith, ==_iff, bit_and, bit_or,
}
use rustux.Base.Bits.{
  bit_and_self, bit_and_assoc, bit_and_comm, bit_and_or_absorb, bit_and_split, bit_or_comm,
  bit_and_zero_right,
}
use rustux.Object.Rights.{
  Rights, contains, reduce, add, remove, ObjectType, from_raw, into_raw, default_for_type,
}
use rustux.Object.Rights

pub contains→eq : (a b : Rights) → contains a b ≡ true → bit_and a b ≡ b
unfolding contains
contains→eq a b h = (==_iff _ _).0 h

pub eq→contains : (a b : Rights) → bit_and a b ≡ b → contains a b ≡ true
unfolding contains
eq→contains a b h = (==_iff _ _).1 h

pub contains_self : (a : Rights) → contains a a ≡ true
contains_self a = eq→contains a a (bit_and_self a)

-- Holding all rights of a mask is transitive.
pub contains_trans :
    (a b c : Rights) → contains a b ≡ true → contains b c ≡ true → contains a c ≡ true
contains_trans a b c h k =
    eq→contains a c
      (ap (bit_and a) (sym kc) ∙ sym (bit_and_assoc a b c) ∙ ap (λ t. bit_and t c) ha ∙ kc)
  where
    ha : bit_and a b ≡ b
    ha = contains→eq a b h

    kc : bit_and b c ≡ c
    kc = contains→eq b c k

pub contains-reduce : (a m : Rights) → contains a (reduce a m) ≡ true
unfolding reduce
contains-reduce a m =
    eq→contains a (bit_and a m) (sym (bit_and_assoc a a m) ∙ ap (λ t. bit_and t m) (bit_and_self a))

pub contains-reduce_mask : (a m : Rights) → contains m (reduce a m) ≡ true
unfolding reduce
contains-reduce_mask a m = eq→contains m (bit_and a m) (
    ap (bit_and m) (bit_and_comm a m)
    ∙ sym (bit_and_assoc m m a)
    ∙ ap (λ t. bit_and t a) (bit_and_self m)
    ∙ bit_and_comm m a)

contains-reduce_of_both :
    (a m x : Rights) → contains a x ≡ true → contains m x ≡ true → contains (reduce a m) x ≡ true
unfolding reduce
contains-reduce_of_both a m x ha hm =
    eq→contains (bit_and a m) x
      (bit_and_assoc a m x ∙ ap (bit_and a) (contains→eq m x hm) ∙ contains→eq a x ha)

-- `reduce` is intersection: the result holds a right exactly if both masks hold it.
pub contains-reduce_iff :
    (a m x : Rights) → contains (reduce a m) x ≡ (contains a x && contains m x)
contains-reduce_iff a m x = ground (
  arith,
  contains-reduce_of_both a m x,
  contains_trans a (reduce a m) x (contains-reduce a m),
  contains_trans m (reduce a m) x (contains-reduce_mask a m),
)

-- `add` holds all rights of both masks.
pub contains-add : (a b : Rights) → (contains (add a b) a ≡ true) × (contains (add a b) b ≡ true)
unfolding add
contains-add a b = (
  eq→contains (bit_or a b) a (bit_and_comm (bit_or a b) a ∙ bit_and_or_absorb a b),
  eq→contains (bit_or a b) b
      (bit_and_comm (bit_or a b) b ∙ ap (bit_and b) (bit_or_comm a b) ∙ bit_and_or_absorb b a),
)

-- `remove` leaves no right of the mask, and drops nothing but the rights under the mask.
pub reduce-remove :
    (a b : Rights)
    → a < 2 ^ 32
    → b < 2 ^ 32
    → (reduce (remove a b) b ≡ Rights.none) × (remove a b + reduce a b ≡ a)
unfolding remove reduce
reduce-remove a b ha hb = (
  bit_and_assoc a (2 ^ 32 - 1 - b) b ∙ ap (bit_and a) disjoint ∙ bit_and_zero_right a,
  omega (arith, bit_and_split 32 a b ha hb),
)
  where
    disjoint : bit_and (2 ^ 32 - 1 - b) b ≡ 0
    disjoint =
        bit_and_comm (2 ^ 32 - 1 - b) b ∙ omega (arith, bit_and_split 32 b b hb hb, bit_and_self b)

-- Every object type is recovered from its raw value.
pub from_raw-into_raw : (t : ObjectType) → from_raw (into_raw t) ≡ t
unfolding from_raw into_raw
from_raw-into_raw Rights.unknown = refl
from_raw-into_raw _ = refl

-- No object type's default rights let a handle be duplicated.
pub default_for_type-not-duplicate :
    (t : ObjectType) → contains (default_for_type t) Rights.duplicate ≡ false
unfolding default_for_type contains
default_for_type-not-duplicate Rights.unknown = refl
default_for_type-not-duplicate _ = refl
