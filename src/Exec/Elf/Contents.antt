-- ===== src/Exec/Elf/Contents.antt =====
-- The writes of the loader in src/exec/elf.rs, one after the other from the start of a VMO.
use rustux.Base.{
  ℕ, zero, suc, ◌+◌, ◌-◌, ◌^◌, ◌<◌, ◌≤◌, ◌≡◌, ◌⊎◌, inl, inr, refl, ap, ◌∙◌, sym, min, none, some,
  List, [], ◌∷◌, arith, length, take, drop, replicate, get_elem?, length-replicate,
  get_elem?-replicate, dec_lt, Result, ok, err, Error, Outcome, returns, failed_to_zero_bss,
}
use rustux.Object.Vmo.{Vmo, Memory, PageMap}
use rustux.Object.Vmo.Pages.{PageSource}
use rustux.Object.Vmo.Bytes.{location, byte_at, bytes_from}
use rustux.Object.Vmo.Allocation.{Sound, Spins, Refused}
use rustux.Object.Vmo.Writes.{room, ReadsBack, read_within, write_cases}
use rustux.Exec.Elf.Load.{Machine, Load, written, write_at, zero_bss}

-- The first `n` bytes of the VMO have pages and are as expected.
abbrev pub Loaded : Vmo → Memory → (ℕ → ℕ) → ℕ → Type 0
Loaded v m expected n =
    (i : ℕ) → i < n → (a : ℕ) × (location v.pages i ≡ some a) × (m a ≡ expected i)

bytes_from-at :
    (pages : PageMap) (offset n i : ℕ) (m : Memory)
    → i < n
    → get_elem? (bytes_from pages offset n m) i ≡ some (byte_at m (location pages (offset + i)))
bytes_from-at pages offset zero i m h = absurd (omega arith)
bytes_from-at pages offset (suc n) zero m h =
    ap (λ o. some (byte_at m (location pages o))) (omega arith)
bytes_from-at pages offset (suc n) (suc i) m h =
    bytes_from-at pages (offset + 1) n i m (omega arith)
    ∙ ap (λ o. some (byte_at m (location pages o))) (omega arith)

pub get_elem?-take {ℓ} :
    {A : Type ℓ} (n : ℕ) (xs : List A) (i : ℕ) → i < n → get_elem? (take n xs) i ≡ get_elem? xs i
get_elem?-take zero xs i h = elim h [ ]
get_elem?-take (suc n) [] i h = refl
get_elem?-take (suc n) (x ∷ xs) zero h = refl
get_elem?-take (suc n) (x ∷ xs) (suc i) h = get_elem?-take n xs i (omega arith)

pub get_elem?-drop {ℓ} :
    {A : Type ℓ} (n : ℕ) (xs : List A) (i : ℕ) → get_elem? (drop n xs) i ≡ get_elem? xs (n + i)
get_elem?-drop zero xs i = ap (get_elem? xs) (omega arith)
get_elem?-drop (suc n) [] i = refl
get_elem?-drop (suc n) (x ∷ xs) i =
    get_elem?-drop n xs i ∙ ap (get_elem? (x ∷ xs)) {x = suc (n + i)} (omega arith)

returned :
    {a b : List ℕ}
    → ◌≡◌ {A = Outcome (Result Error (List ℕ))} (returns (ok a)) (returns (ok b))
    → a ≡ b
returned e = cc

module _ (src : PageSource) where
  -- What a step of the loader comes to: an endless loop of the page source, the error `failure` after the
  -- source has refused a page, or a VMO of the same size whose first `n` bytes are as expected.
  abbrev pub Comes : Error → Load src Vmo → Vmo → (ℕ → ℕ) → ℕ → Type 0
  Comes failure step v expected n =
      ((step ≡ none) × Spins src)
      ⊎ ((k : Machine src) × (step ≡ some (returns (err failure, k))) × Refused src k.frames)
      ⊎ ((v' : Vmo) × (k : Machine src) × (step ≡ some (returns (ok v', k)))
          × (v'.size ≡ v.size)
          × Sound src v'.pages k.frames
          × Loaded v' k.memory expected n)

  reads_back :
      (offset : ℕ) (bytes : List ℕ) (v v' : Vmo) (m m' : Memory) (s' : src.State) (expected : ℕ → ℕ)
      → offset < v.size
      → offset + length bytes ≤ v.size
      → v.size < 2 ^ 64
      → Loaded v m expected offset
      → ((i : ℕ) → i < length bytes → get_elem? bytes i ≡ some (expected (offset + i)))
      → ReadsBack src offset bytes v m v' m' s'
      → Loaded v' m' expected (offset + length bytes)
  reads_back offset bytes v v' m m' s' expected inside fits small before these
        (reads, size, sound, kept, placed) i lt =
      let all : room src offset bytes v ≡ length bytes = omega arith in
      elim (dec_lt i offset) [
        | yes old ↦
            let (a, at, is) = before i old in
            let (at', same) = kept i a (inl old) at in (a, at', same ∙ is)
        | no new_ ↦
            let n = length bytes in
            let (a, at0) = placed (i - offset) (omega arith) in
            let at : location v'.pages i ≡ some a = ap (location v'.pages) (omega arith) ∙ at0 in
            let got = returned (
              sym (read_within src offset n n v' m' (omega arith) (omega arith) (omega arith))
              ∙ reads) in
            let here = bytes_from-at v'.pages offset n (i - offset) m' (omega arith) in
            let wrote : get_elem? (take (room src offset bytes v) bytes) (i - offset)
                ≡ some (expected (offset + (i - offset))) =
              get_elem?-take (room src offset bytes v) bytes (i - offset) (omega arith)
              ∙ these (i - offset) (omega arith) in
            let value : byte_at m' (location v'.pages (offset + (i - offset)))
                ≡ expected (offset + (i - offset)) =
              cc (here, ap (λ bs. get_elem? bs (i - offset)) got, wrote) in
            (
              a,
              at,
              ap (byte_at m') (sym at)
                  ∙ ap (λ o. byte_at m' (location v'.pages o)) (omega arith)
                  ∙ value
                  ∙ ap expected (omega arith),
            )
      ]

  pub write_at_lem :
      (failure : Error) (offset : ℕ) (bytes : List ℕ) (v : Vmo) (k : Machine src) (expected : ℕ → ℕ)
      → Sound src v.pages k.frames
      → offset < v.size
      → offset + length bytes ≤ v.size
      → v.size < 2 ^ 64
      → Loaded v k.memory expected offset
      → ((i : ℕ) → i < length bytes → get_elem? bytes i ≡ some (expected (offset + i)))
      → Comes failure (write_at src failure offset bytes v k) v expected (offset + length bytes)
  write_at_lem failure offset bytes v k expected sound inside fits small before these =
      elim (write_cases src offset bytes v k.memory k.frames sound inside (omega arith)) [
        | inl (spins, why) ↦ inl (ap (written src failure k.next_vmo_id) spins, why)
        | inr (inl (pages, s, fails, why)) ↦ inr (
            inl (
              record { next_vmo_id = k.next_vmo_id; memory = k.memory; frames = s },
              ap (written src failure k.next_vmo_id) fails,
              why,
            ))
        | inr (inr (v', m', s', done, (reads, size, sound', kept, placed))) ↦ inr (
            inr (
              v',
              record { next_vmo_id = k.next_vmo_id; memory = m'; frames = s' },
              ap (written src failure k.next_vmo_id) done,
              size,
              sound',
              reads_back offset bytes v v' k.memory m' s' expected inside fits small before these
                  (reads, size, sound', kept, placed),
            ))
      ]

  -- The chunks of zeros fill the rest.
  pub zero_bss_lem :
      (rounds offset left : ℕ) (v : Vmo) (k : Machine src) (expected : ℕ → ℕ)
      → left ≤ rounds
      → Sound src v.pages k.frames
      → offset + left ≤ v.size
      → v.size < 2 ^ 64
      → Loaded v k.memory expected offset
      → ((i : ℕ) → offset ≤ i → i < offset + left → expected i ≡ 0)
      → Comes failed_to_zero_bss (zero_bss src rounds offset left v k) v expected (offset + left)
  unfolding zero_bss
  zero_bss_lem zero offset left v k expected enough sound fits small before zeros =
      inr (inr (v, k, refl, refl, sound, λ i lt. before i (omega arith)))
  zero_bss_lem (suc rounds) offset zero v k expected enough sound fits small before zeros =
      inr (inr (v, k, refl, refl, sound, λ i lt. before i (omega arith)))
  zero_bss_lem (suc rounds) offset (suc left) v k expected enough sound fits small before zeros =
      let n = min (suc left) 256 in
      let count : length (replicate {A = ℕ} n 0) ≡ n = length-replicate n 0 in
      elim (write_at_lem failed_to_zero_bss offset (replicate n 0) v k expected sound (omega arith)
        (omega arith) small before
        (λ i lt.
          get_elem?-replicate n i 0 (omega arith)
          ∙ ap some (sym (zeros (offset + i) (omega arith) (omega arith))))) [
            | inl (spins, why) ↦ inl (rw spins refl, why)
            | inr (inl (k', fails, why)) ↦ inr (inl (k', rw fails refl, why))
            | inr (inr (v', k', done, size, sound', loaded)) ↦
                let rest =
                  zero_bss_lem rounds (offset + n) (suc left - n) v' k' expected (omega arith)
                    sound' (omega arith) (omega arith) (λ i lt. loaded i (omega arith))
                    (λ i ge lt. zeros i (omega arith) (omega arith)) in
                elim rest [
                  | inl (spins, why) ↦ inl (rw (done, spins) refl, why)
                  | inr (inl (k'', fails, why)) ↦ inr (inl (k'', rw (done, fails) refl, why))
                  | inr (inr (v'', k'', finished, size', sound'', loaded')) ↦ inr (
                      inr (
                        v'',
                        k'',
                        rw (done, finished) refl,
                        size' ∙ size,
                        sound'',
                        λ i lt. loaded' i (omega arith),
                      ))
                ]
          ]
