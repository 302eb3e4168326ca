-- ===== src/Object/Vmo/Bytes.antt =====
-- The loops of `read` and `write` of src/object/vmo.rs, page by page, against loops byte by byte.
use rustux.Base.{
  ℕ, zero, suc, ◌+◌, ◌-◌, ◌%◌, ◌≤◌, ◌<◌, ◌≡◌, inl, inr, refl, ap, ◌∙◌, true, Option, Option-cases,
  none, some, List, [], ◌∷◌, ◌++◌, length, take, drop, replicate, length-drop, ok, returns, arith,
}
use rustux.Mm.Address.{page_size, paddr_to_vaddr_user_zone}
use rustux.Object.Vmo.{
  PageMap, PageMapEntry, lookup, Memory, put, copy_to, copy_from, page_key, in_page, store, load,
}

-- The address of a byte of the VMO; `none` if its page is missing.
abbrev pub located : ℕ → Option PageMapEntry → Option ℕ
located offset none = none
located offset (some e) = some (paddr_to_vaddr_user_zone e.paddr + offset % page_size)

unfoldable pub location : PageMap → ℕ → Option ℕ
location pages offset = located offset (lookup (page_key offset) pages)

-- A byte without a page is zero.
abbrev pub byte_at : Memory → Option ℕ → ℕ
byte_at m none = 0
byte_at m (some a) = m a

abbrev pub put_at : Option ℕ → ℕ → Memory → Memory
put_at none b m = m
put_at (some a) b m = put a b m

-- The VMO's bytes from an offset on.
abbrev pub bytes_from : PageMap → ℕ → ℕ → Memory → List ℕ
bytes_from pages offset zero m = []
bytes_from pages offset (suc n) m =
    byte_at m (location pages offset) ∷ bytes_from pages (offset + 1) n m

-- The bytes put in place one after the other.
abbrev pub put_bytes : PageMap → ℕ → List ℕ → Memory → Memory
put_bytes pages offset [] m = m
put_bytes pages offset (b ∷ bs) m =
    put_bytes pages (offset + 1) bs (put_at (location pages offset) b m)

bytes_from-chunk :
    (pages : PageMap) (offset a n : ℕ) (m : Memory)
    → ((i : ℕ) → i < n → location pages (offset + i) ≡ some (a + i))
    → copy_from a n m ≡ bytes_from pages offset n m
bytes_from-chunk pages offset a zero m h = refl
bytes_from-chunk pages offset a (suc n) m h =
    let here : location pages offset ≡ some a =
      ap (location pages) (omega arith) ∙ h 0 (omega arith) ∙ ap some (omega arith) in
    rw here (
      ap (◌∷◌ (m a)) (
        bytes_from-chunk pages (offset + 1) (a + 1) n m (λ i lt.
          ap (location pages) (omega arith) ∙ h (suc i) (omega arith) ∙ ap some (omega arith))))

bytes_from-zeros :
    (pages : PageMap) (offset n : ℕ) (m : Memory)
    → ((i : ℕ) → i < n → location pages (offset + i) ≡ none)
    → replicate n 0 ≡ bytes_from pages offset n m
bytes_from-zeros pages offset zero m h = refl
bytes_from-zeros pages offset (suc n) m h =
    let here : location pages offset ≡ none =
      ap (location pages) (omega arith) ∙ h 0 (omega arith) in
    rw here (
      ap (◌∷◌ 0) (
        bytes_from-zeros pages (offset + 1) n m
          (λ i lt. ap (location pages) (omega arith) ∙ h (suc i) (omega arith))))

bytes_from-same :
    (pages : PageMap) (o o' n n' : ℕ) (m : Memory)
    → o ≡ o'
    → n ≡ n'
    → bytes_from pages o n m ≡ bytes_from pages o' n' m
bytes_from-same pages o o' n n' m p q = cc

bytes_from-append :
    (pages : PageMap) (offset n k : ℕ) (m : Memory)
    → bytes_from pages offset n m ++ bytes_from pages (offset + n) k m
      ≡ bytes_from pages offset (n + k) m
bytes_from-append pages offset zero k m =
    bytes_from-same pages (offset + zero) offset k (zero + k) m (omega arith) (omega arith)
bytes_from-append pages offset (suc n) k m =
    let rest = bytes_from-append pages (offset + 1) n k m in
    let next : bytes_from pages (offset + suc n) k m ≡ bytes_from pages (offset + 1 + n) k m =
      bytes_from-same pages (offset + suc n) (offset + 1 + n) k k m (omega arith) refl in
    ap (λ bs. byte_at m (location pages offset) ∷ (bytes_from pages (offset + 1) n m ++ bs)) next
    ∙ ap (◌∷◌ (byte_at m (location pages offset))) rest
    ∙ bytes_from-same pages offset offset (suc (n + k)) (suc n + k) m refl (omega arith)

-- The offsets of one page.
same_page :
    (offset i : ℕ)
    → i < page_size - offset % page_size
    → (page_key (offset + i) ≡ page_key offset)
      × ((offset + i) % page_size ≡ offset % page_size + i)
same_page offset i h = (omega arith, omega arith)

in_chunk :
    (pages : PageMap) (offset i : ℕ) (e : PageMapEntry)
    → lookup (page_key offset) pages ≡ some e
    → i < page_size - offset % page_size
    → location pages (offset + i) ≡ some (paddr_to_vaddr_user_zone e.paddr + offset % page_size + i)
unfolding location
in_chunk pages offset i e found h =
    let (key, inner) = same_page offset i h in
    ap (λ k. located (offset + i) (lookup k pages)) key
    ∙ ap (located (offset + i)) found
    ∙ ap some (omega arith)

no_chunk :
    (pages : PageMap) (offset i : ℕ)
    → lookup (page_key offset) pages ≡ none
    → i < page_size - offset % page_size
    → location pages (offset + i) ≡ none
unfolding location
no_chunk pages offset i missing h =
    let (key, inner) = same_page offset i h in
    ap (λ k. located (offset + i) (lookup k pages)) key ∙ ap (located (offset + i)) missing

-- The loop of `read` gives the VMO's bytes.
pub load_lem :
    (rounds offset n : ℕ) (pages : PageMap) (m : Memory)
    → n ≤ rounds
    → load rounds offset n pages m ≡ bytes_from pages offset n m
unfolding load
load_lem zero offset zero pages m h = refl
load_lem zero offset (suc n) pages m h = absurd (omega arith)
load_lem (suc rounds) offset zero pages m h = refl
load_lem (suc rounds) offset (suc left) pages m h =
    let n = in_page offset (suc left) in
    let rest = load_lem rounds (offset + n) (suc left - n) pages m (omega arith) in
    let joined : bytes_from pages offset n m ++ bytes_from pages (offset + n) (suc left - n) m
        ≡ bytes_from pages offset (suc left) m =
      bytes_from-append pages offset n (suc left - n) m
      ∙ bytes_from-same pages offset offset (n + (suc left - n)) (suc left) m refl (omega arith) in
    elim (Option-cases (lookup (page_key offset) pages)) [
      | inl missing ↦
          let zeros =
            bytes_from-zeros pages offset n m
              (λ i lt. no_chunk pages offset i missing (omega arith)) in
          rw (missing, zeros, rest) joined
      | inr (e, found) ↦
          let chunk =
            bytes_from-chunk pages offset (paddr_to_vaddr_user_zone e.paddr + offset % page_size) n
              m (λ i lt. in_chunk pages offset i e found (omega arith)) in
          rw (found, chunk, rest) joined
    ]

put_bytes-chunk :
    (pages : PageMap) (offset a n : ℕ) (bytes : List ℕ) (m : Memory)
    → ((i : ℕ) → i < n → location pages (offset + i) ≡ some (a + i))
    → put_bytes pages (offset + n) (drop n bytes) (copy_to a (take n bytes) m)
      ≡ put_bytes pages offset bytes m
put_bytes-chunk pages offset a zero bytes m h = ap (λ o. put_bytes pages o bytes m) (omega arith)
put_bytes-chunk pages offset a (suc n) [] m h = refl
put_bytes-chunk pages offset a (suc n) (b ∷ bs) m h =
    let here : location pages offset ≡ some a =
      ap (location pages) (omega arith) ∙ h 0 (omega arith) ∙ ap some (omega arith) in
    let rest = put_bytes-chunk pages (offset + 1) (a + 1) n bs (put a b m) (λ i lt.
      ap (location pages) (omega arith) ∙ h (suc i) (omega arith) ∙ ap some (omega arith)) in
    ap (λ o. put_bytes pages o (drop n bs) (copy_to (a + 1) (take n bs) (put a b m))) (omega arith)
    ∙ rest
    ∙ rw here refl

-- Every page of the bytes from `offset` on is there and present.
abbrev pub Covers : PageMap → ℕ → ℕ → Type 0
Covers pages offset n =
    (i : ℕ)
    → i < n
    → (e : PageMapEntry) × (lookup (page_key (offset + i)) pages ≡ some e) × (e.present ≡ true)

-- The loop of `write` puts the bytes in place.
pub store_lem :
    (rounds offset : ℕ) (bytes : List ℕ) (pages : PageMap) (m : Memory)
    → length bytes ≤ rounds
    → Covers pages offset (length bytes)
    → store rounds offset bytes pages m ≡ returns (ok tt, put_bytes pages offset bytes m)
unfolding store
store_lem zero offset [] pages m h covers = refl
store_lem zero offset (b ∷ bs) pages m h covers = absurd (omega arith)
store_lem (suc rounds) offset [] pages m h covers = refl
store_lem (suc rounds) offset (b ∷ bs) pages m h covers =
    let bytes = b ∷ bs in
    let n = in_page offset (length bytes) in
    let (e, at, present) = covers 0 (omega arith) in
    let found : lookup (page_key offset) pages ≡ some e =
      ap (λ k. lookup k pages) (omega arith) ∙ at in
    let a = paddr_to_vaddr_user_zone e.paddr + offset % page_size in
    let left = length-drop n bytes in
    let rest =
      store_lem rounds (offset + n) (drop n bytes) pages (copy_to a (take n bytes) m) (omega arith)
        (λ i lt.
          let (e', at', present') = covers (n + i) (omega arith) in
          (e', ap (λ k. lookup k pages) (omega arith) ∙ at', present')) in
    let chunk =
      put_bytes-chunk pages offset a n bytes m
        (λ i lt. in_chunk pages offset i e found (omega arith)) in
    rw (found, present) (rest ∙ ap (λ m'. returns (ok tt, m')) chunk)
