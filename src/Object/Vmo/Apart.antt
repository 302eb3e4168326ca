-- ===== src/Object/Vmo/Apart.antt =====
-- The bytes of a VMO of src/object/vmo.rs lie apart in memory.
use rustux.Base.{
  ℕ, suc, ◌+◌, ◌%◌, ◌^◌, ◌<◌, ◌≡◌, ◌≢◌, inl, inr, refl, ap, ◌∙◌, sym, Bool-cases, true, false,
  Option, none, some, List, [], ◌∷◌, arith, ◌==◌, ltb, if◌then◌else◌, length,
}
use rustux.Mm.Address.{page_size, paddr_to_vaddr_user_zone}
use rustux.Object.Vmo.{PageMap, PageMapEntry, lookup, insert, page_key, Memory, put}
use rustux.Object.Vmo.Bytes.{located, location, byte_at, put_at, bytes_from, put_bytes}

pub lookup-insert_self :
    (key : ℕ) (e : PageMapEntry) (pages : PageMap) → lookup key (insert key e pages) ≡ some e
unfolding lookup insert
lookup-insert_self key e [] = let own : (key == key) ≡ true = ground arith in rw own refl
lookup-insert_self key e ((k, f) ∷ pages) =
    let own : (key == key) ≡ true = ground arith in
    elim (Bool-cases (key == k)) [
      | inl here ↦ rw (here, own) refl
      | inr other ↦ elim (Bool-cases (ltb key k)) [
        | inl before ↦ rw (other, before, own) refl
        | inr after ↦
            let differ : (k == key) ≡ false = ground arith in
            rw (other, after, differ) (lookup-insert_self key e pages)
      ]
    ]

pub lookup-insert_ne :
    (key k' : ℕ) (e : PageMapEntry) (pages : PageMap)
    → key ≢ k'
    → lookup k' (insert key e pages) ≡ lookup k' pages
unfolding lookup insert
lookup-insert_ne key k' e [] ne = let differ : (key == k') ≡ false = ground arith in rw differ refl
lookup-insert_ne key k' e ((k, f) ∷ pages) ne =
    let differ : (key == k') ≡ false = ground arith in
    elim (Bool-cases (key == k)) [
      | inl here ↦ let differ' : (k == k') ≡ false = ground arith in rw (here, differ, differ') refl
      | inr other ↦ elim (Bool-cases (ltb key k)) [
        | inl before ↦ rw (other, before, differ) refl
        | inr after ↦
            rw (other, after)
              (ap (λ o. if k == k' then some f else o) (lookup-insert_ne key k' e pages ne))
      ]
    ]

-- The pages of a map are present, are page frames in use, and are different under different keys.
pub record Holds (InUse : ℕ → Type 0) (pages : PageMap) : Type 0 where
  pub present : (k : ℕ) (e : PageMapEntry) → lookup k pages ≡ some e → e.present ≡ true
  pub aligned : (k : ℕ) (e : PageMapEntry) → lookup k pages ≡ some e → e.paddr % page_size ≡ 0
  pub below : (k : ℕ) (e : PageMapEntry) → lookup k pages ≡ some e → e.paddr < 2 ^ 46
  pub in_use : (k : ℕ) (e : PageMapEntry) → lookup k pages ≡ some e → InUse e.paddr
  pub apart :
      (k k' : ℕ) (e e' : PageMapEntry)
      → lookup k pages ≡ some e
      → lookup k' pages ≡ some e'
      → e.paddr ≡ e'.paddr
      → k ≡ k'

pub empty-Holds : (InUse : ℕ → Type 0) → Holds InUse []
unfolding lookup
empty-Holds InUse = record {
  present = λ k e at. cc;
  aligned = λ k e at. cc;
  below = λ k e at. cc;
  in_use = λ k e at. cc;
  apart = λ k k' e e' at at' same. cc;
}

-- Bytes of different frames have different addresses, and so have different bytes of one.
pub vaddr-injective :
    (p q i j : ℕ)
    → p % page_size ≡ 0
    → q % page_size ≡ 0
    → p < 2 ^ 46
    → q < 2 ^ 46
    → i < page_size
    → j < page_size
    → paddr_to_vaddr_user_zone p + i ≡ paddr_to_vaddr_user_zone q + j
    → (p ≡ q) × (i ≡ j)
unfolding paddr_to_vaddr_user_zone
vaddr-injective p q i j hp hq lp lq li lj e = (ground arith, ground arith)

pub located-some :
    (i a : ℕ) (o : Option PageMapEntry)
    → located i o ≡ some a
    → (e : PageMapEntry) × (o ≡ some e) × (paddr_to_vaddr_user_zone e.paddr + i % page_size ≡ a)
located-some i a none h = cc
located-some i a (some e) h = (e, refl, cc)

-- Two bytes of a VMO at one address are the same byte.
pub location-injective :
    (InUse : ℕ → Type 0) (pages : PageMap) (i j a : ℕ)
    → Holds InUse pages
    → location pages i ≡ some a
    → location pages j ≡ some a
    → i ≡ j
unfolding location
location-injective InUse pages i j a h hi hj =
    let (e, at, ae) = located-some i a (lookup (page_key i) pages) hi in
    let (f, at', af) = located-some j a (lookup (page_key j) pages) hj in
    let (same_frame, same_offset) =
      vaddr-injective e.paddr f.paddr (i % page_size) (j % page_size) (h.aligned (page_key i) e at)
        (h.aligned (page_key j) f at') (h.below (page_key i) e at) (h.below (page_key j) f at')
        (omega arith) (omega arith) (ae ∙ sym af) in
    let same_key = h.apart (page_key i) (page_key j) e f at at' same_frame in omega arith

put_at-other : (o : Option ℕ) (b x : ℕ) (m : Memory) → o ≢ some x → put_at o b m x ≡ m x
put_at-other none b x m ne = refl
put_at-other (some a) b x m ne =
    let differ : (x == a) ≡ false = elim (Bool-cases (x == a)) [
      | inl same ↦ absurd (ne (ap some (ground arith)))
      | inr differ ↦ differ
    ] in
    rw differ refl

-- What is put in place leaves every other address.
pub put_bytes-other :
    (pages : PageMap) (offset x : ℕ) (bs : List ℕ) (m : Memory)
    → ((i : ℕ) → i < length bs → location pages (offset + i) ≢ some x)
    → put_bytes pages offset bs m x ≡ m x
put_bytes-other pages offset x [] m h = refl
put_bytes-other pages offset x (b ∷ bs) m h =
    put_bytes-other pages (offset + 1) x bs (put_at (location pages offset) b m)
      (λ i lt e. h (suc i) (omega arith) (ap (location pages) (omega arith) ∙ e))
    ∙ put_at-other (location pages offset) b x m
        (λ e. h 0 (omega arith) (ap (location pages) (omega arith) ∙ e))

byte_at-put_at : (a b : ℕ) (m : Memory) → put a b m a ≡ b
byte_at-put_at a b m = let own : (a == a) ≡ true = ground arith in rw own refl

-- Bytes that are put in place at locations that are there are read back.
pub bytes_from-put_bytes :
    (InUse : ℕ → Type 0) (pages : PageMap) (offset : ℕ) (bs : List ℕ) (m : Memory)
    → Holds InUse pages
    → ((i : ℕ) → i < length bs → (a : ℕ) × (location pages (offset + i) ≡ some a))
    → bytes_from pages offset (length bs) (put_bytes pages offset bs m) ≡ bs
bytes_from-put_bytes InUse pages offset [] m h there = refl
bytes_from-put_bytes InUse pages offset (b ∷ bs) m h there =
    let (a, at0) = there 0 (omega arith) in
    let at : location pages offset ≡ some a = ap (location pages) (omega arith) ∙ at0 in
    let m' = put_at (location pages offset) b m in
    let first : byte_at (put_bytes pages (offset + 1) bs m') (location pages offset) ≡ b =
      ap (byte_at (put_bytes pages (offset + 1) bs m')) at
      ∙ put_bytes-other pages (offset + 1) a bs m' (λ i lt e.
        absurd (omega (arith, location-injective InUse pages offset (offset + 1 + i) a h at e)))
      ∙ ap (λ o. put_at o b m a) at
      ∙ byte_at-put_at a b m in
    let rest = bytes_from-put_bytes InUse pages (offset + 1) bs m' h (λ i lt.
      let (a', at') = there (suc i) (omega arith) in
      (a', ap (location pages) (omega arith) ∙ at')) in
    ap (λ x. x ∷ bytes_from pages (offset + 1) (length bs) (put_bytes pages (offset + 1) bs m'))
      first
    ∙ ap (◌∷◌ b) rest
