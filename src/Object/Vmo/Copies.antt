-- ===== src/Object/Vmo/Copies.antt =====
-- Copies of bytes and of pages in src/object/vmo.rs.
use rustux.Base.{
  ℕ, zero, suc, ◌+◌, ◌-◌, ◌*◌, ◌%◌, ◌^◌, ◌≤◌, ◌<◌, ◌≡◌, ◌≢◌, ◌⊎◌, inl, inr, refl, ap, ◌∙◌, sym, min,
  Bool-cases, true, List, [], ◌∷◌, arith, ◌==◌, length, dec_lt,
}
use rustux.Mm.Address.{page_size, paddr_to_vaddr_user_zone}
use rustux.Object.Vmo.{Memory, put, copy_to, copy_from}
use rustux.Object.Vmo.Pages.{chunk_size, copy_page}
use rustux.Object.Vmo.Apart.{vaddr-injective}

put-other : (a b x : ℕ) (m : Memory) → x ≢ a → put a b m x ≡ m x
put-other a b x m ne = elim (Bool-cases (x == a)) [
  | inl same ↦ absurd (ne (ground arith))
  | inr differ ↦ rw differ refl
]

put-here : (a b : ℕ) (m : Memory) → put a b m a ≡ b
put-here a b m = let own : (a == a) ≡ true = ground arith in rw own refl

pub copy_to-outside :
    (a x : ℕ) (bs : List ℕ) (m : Memory) → (x < a) ⊎ (a + length bs ≤ x) → copy_to a bs m x ≡ m x
copy_to-outside a x [] m out = refl
copy_to-outside a x (b ∷ bs) m out =
    copy_to-outside (a + 1) x bs (put a b m)
      (elim out [ inl before ↦ inl (omega arith) | inr after ↦ inr (omega arith) ])
    ∙ put-other a b x m (λ e. elim out [ inl before ↦ omega arith | inr after ↦ omega arith ])

pub length-copy_from : (b n : ℕ) (m : Memory) → length (copy_from b n m) ≡ n
length-copy_from b zero m = refl
length-copy_from b (suc n) m = ap suc (length-copy_from (b + 1) n m)

pub copy_to-copy_from :
    (a b n i : ℕ) (from m : Memory)
    → i < n
    → copy_to a (copy_from b n from) m (a + i) ≡ from (b + i)
copy_to-copy_from a b zero i from m h = absurd (omega arith)
copy_to-copy_from a b (suc n) zero from m h =
    copy_to-outside (a + 1) (a + 0) (copy_from (b + 1) n from) (put a (from b) m)
      (inl (omega arith))
    ∙ ap (put a (from b) m) (omega arith)
    ∙ put-here a (from b) m
    ∙ ap from (omega arith)
copy_to-copy_from a b (suc n) (suc i) from m h =
    ap (copy_to (a + 1) (copy_from (b + 1) n from) (put a (from b) m)) (omega arith)
    ∙ copy_to-copy_from (a + 1) (b + 1) n i from (put a (from b) m) (omega arith)
    ∙ ap from (omega arith)

vaddr-add :
    (p i : ℕ)
    → p % page_size ≡ 0
    → p < 2 ^ 46
    → i < page_size
    → paddr_to_vaddr_user_zone (p + i) ≡ paddr_to_vaddr_user_zone p + i
unfolding paddr_to_vaddr_user_zone
vaddr-add p i aligned below h = ground arith

-- Two page frames.
pub record Frames (p q : ℕ) : Type 0 where
  pub aligned : (p % page_size ≡ 0) × (q % page_size ≡ 0)
  pub below : (p < 2 ^ 46) × (q < 2 ^ 46)

-- A chunk ends within the page, and leaves what is not in it.
chunk-outside :
    (offset from to x : ℕ) (m : Memory)
    → Frames from to
    → ((i : ℕ) → offset ≤ i → i < page_size → paddr_to_vaddr_user_zone to + i ≢ x)
    → copy_to
        (paddr_to_vaddr_user_zone (to + offset))
        (copy_from
          (paddr_to_vaddr_user_zone (from + offset))
          (min chunk_size (page_size - offset))
          m)
        m
        x
      ≡ m x
chunk-outside offset from to x m fr out =
    let n = min chunk_size (page_size - offset) in
    let src = paddr_to_vaddr_user_zone (from + offset) in
    let count = length-copy_from src n m in
    elim (dec_lt offset page_size) [
      | yes inside ↦
          let at = vaddr-add to offset fr.aligned.1 fr.below.1 inside in
          copy_to-outside (paddr_to_vaddr_user_zone (to + offset)) x (copy_from src n m) m
            (elim (dec_lt x (paddr_to_vaddr_user_zone (to + offset))) [
              | yes before ↦ inl before
              | no after ↦ elim (dec_lt x (paddr_to_vaddr_user_zone (to + offset) + n)) [
                | yes within ↦ absurd (
                    out (x - paddr_to_vaddr_user_zone to) (omega arith) (omega arith) (omega arith))
                | no far ↦ inr (omega arith)
              ]
            ])
      | no past ↦
          copy_to-outside (paddr_to_vaddr_user_zone (to + offset)) x (copy_from src n m) m
            (elim (dec_lt x (paddr_to_vaddr_user_zone (to + offset))) [
              | yes before ↦ inl before
              | no after ↦ inr (omega arith)
            ])
    ]

pub copy_page-outside :
    (rounds offset from to x : ℕ) (m : Memory)
    → Frames from to
    → ((i : ℕ) → offset ≤ i → i < page_size → paddr_to_vaddr_user_zone to + i ≢ x)
    → copy_page rounds offset from to m x ≡ m x
unfolding copy_page
copy_page-outside zero offset from to x m fr out = refl
copy_page-outside (suc rounds) offset from to x m fr out =
    copy_page-outside rounds (offset + min chunk_size (page_size - offset)) from to x _ fr
      (λ i ge lt. out i (omega arith) lt)
    ∙ chunk-outside offset from to x m fr out

-- A page's copy has the page's bytes.
pub copy_page-inside :
    (rounds offset from to i : ℕ) (m : Memory)
    → Frames from to
    → from ≢ to
    → offset ≤ i
    → i < page_size
    → page_size ≤ offset + rounds * chunk_size
    → copy_page rounds offset from to m (paddr_to_vaddr_user_zone to + i)
      ≡ m (paddr_to_vaddr_user_zone from + i)
unfolding copy_page
copy_page-inside zero offset from to i m fr ne ge lt enough = absurd (omega arith)
copy_page-inside (suc rounds) offset from to i m fr ne ge lt enough =
    let n = min chunk_size (page_size - offset) in
    let dst = paddr_to_vaddr_user_zone (to + offset) in
    let src = paddr_to_vaddr_user_zone (from + offset) in
    let m' = copy_to dst (copy_from src n m) m in
    let at = vaddr-add to offset fr.aligned.1 fr.below.1 (omega arith) in
    let at' = vaddr-add from offset fr.aligned.0 fr.below.0 (omega arith) in
    elim (dec_lt i (offset + n)) [
      | yes now ↦
          copy_page-outside rounds (offset + n) from to (paddr_to_vaddr_user_zone to + i) m' fr
            (λ j ge' lt' e. omega arith)
          ∙ ap m' (omega arith)
          ∙ copy_to-copy_from dst src n (i - offset) m m (omega arith)
          ∙ ap m (omega arith)
      | no later ↦
          copy_page-inside rounds (offset + n) from to i m' fr ne (omega arith) lt (omega arith)
          ∙ chunk-outside offset from to (paddr_to_vaddr_user_zone from + i) m fr (λ j ge' lt' e.
            ne (
              sym
                (vaddr-injective to from j i fr.aligned.1 fr.aligned.0 fr.below.1 fr.below.0 lt' lt
                  e).0))
    ]
