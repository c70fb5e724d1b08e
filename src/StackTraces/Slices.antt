-- ===== src/StackTraces/Slices.antt =====
-- library-utils.ts: the addresses of libraries and the immutable values are zeroed out, in the code
-- that is compared as in the compiler's output.
use hardhat.Prelude.{
  ℕ, zero, suc, ◌+◌, ◌-◌, ◌≤◌, ◌<◌, ◌≡◌, refl, ap, ◌∙◌, Bool, ◌&&◌, List, [], ◌∷◌, ◌++◌, map, some,
  take, drop, length, get_elem?, any, All, ltb, leb, length-append, if◌then◌else◌, option_beq, inl,
  inr, Bool-cases, arith,
}
use hardhat.StackTraces.Bytecodes.{Slice, push20}

-- `Buffer.alloc(length, 0)`
unfoldable pub zeros : ℕ → List ℕ
zeros zero = []
zeros (suc n) = 0 ∷ zeros n

unfoldable pub zero_out_slice : List ℕ → Slice → List ℕ
zero_out_slice code s = take s.start code ++ (zeros s.length ++ drop (s.start + s.length) code)

unfoldable pub zero_out_slices : List ℕ → List Slice → List ℕ
zero_out_slices code [] = code
zero_out_slices code (s ∷ slices) = zero_out_slices (zero_out_slice code s) slices

abbrev pub address_slice : ℕ → Slice
address_slice start = record { start = start; length = 20 }

unfoldable pub zero_out_addresses : List ℕ → List ℕ → List ℕ
zero_out_addresses code positions = zero_out_slices code (map address_slice positions)

unfoldable pub normalize_library_runtime_bytecode_if_necessary : List ℕ → List ℕ
unfolding zero_out_addresses
normalize_library_runtime_bytecode_if_necessary code =
    if option_beq (get_elem? code 0) (some push20) then zero_out_addresses code (1 ∷ []) else code

abbrev pub is_covered : ℕ → Slice → Bool
is_covered i s = leb s.start i && ltb i (s.start + s.length)

abbrev pub Fits : List ℕ → Slice → Type 0
Fits code s = s.start + s.length ≤ length code

length-zeros : (n : ℕ) → length (zeros n) ≡ n
unfolding zeros
length-zeros zero = refl
length-zeros (suc n) = ap suc (length-zeros n)

get_elem?-zeros : (n i : ℕ) → i < n → get_elem? (zeros n) i ≡ some 0
unfolding zeros
get_elem?-zeros zero i h = absurd (omega arith)
get_elem?-zeros (suc n) zero h = refl
get_elem?-zeros (suc n) (suc i) h = get_elem?-zeros n i (omega arith)

module _ {ℓ} {A : Type ℓ} where
  length-take : (n : ℕ) (xs : List A) → n ≤ length xs → length (take n xs) ≡ n
  length-take zero xs h = refl
  length-take (suc n) [] h = absurd (omega arith)
  length-take (suc n) (x ∷ xs) h = ap suc (length-take n xs (omega arith))

  length-drop : (n : ℕ) (xs : List A) → n ≤ length xs → n + length (drop n xs) ≡ length xs
  length-drop zero xs h = omega arith
  length-drop (suc n) [] h = absurd (omega arith)
  length-drop (suc n) (x ∷ xs) h = omega (arith, length-drop n xs)

  get_elem?-append_left :
      (xs ys : List A) (i : ℕ) → i < length xs → get_elem? (xs ++ ys) i ≡ get_elem? xs i
  get_elem?-append_left [] ys i h = absurd (omega arith)
  get_elem?-append_left (x ∷ xs) ys zero h = refl
  get_elem?-append_left (x ∷ xs) ys (suc i) h = get_elem?-append_left xs ys i (omega arith)

  get_elem?-append_right :
      (xs ys : List A) (i : ℕ) → get_elem? (xs ++ ys) (length xs + i) ≡ get_elem? ys i
  get_elem?-append_right [] ys i = ap (get_elem? ys) (omega arith)
  get_elem?-append_right (x ∷ xs) ys i =
      ap (get_elem? (x ∷ (xs ++ ys))) {x = suc (length xs) + i} {y = suc (length xs + i)}
        (omega arith)
      ∙ get_elem?-append_right xs ys i

  get_elem?-take : (n i : ℕ) (xs : List A) → i < n → get_elem? (take n xs) i ≡ get_elem? xs i
  get_elem?-take zero i xs h = absurd (omega arith)
  get_elem?-take (suc n) i [] h = refl
  get_elem?-take (suc n) zero (x ∷ xs) h = refl
  get_elem?-take (suc n) (suc i) (x ∷ xs) h = get_elem?-take n i xs (omega arith)

  get_elem?-drop : (n i : ℕ) (xs : List A) → get_elem? (drop n xs) i ≡ get_elem? xs (n + i)
  get_elem?-drop zero i xs = ap (get_elem? xs) (omega arith)
  get_elem?-drop (suc n) i [] = refl
  get_elem?-drop (suc n) i (x ∷ xs) =
      get_elem?-drop n i xs
      ∙ ap (get_elem? (x ∷ xs)) {x = suc (n + i)} {y = suc n + i} (omega arith)

length-zero_out_slice :
    (code : List ℕ) (s : Slice) → Fits code s → length (zero_out_slice code s) ≡ length code
unfolding zero_out_slice
length-zero_out_slice code s h = omega (
  arith,
  length-append {0} (take s.start code) (zeros s.length ++ drop (s.start + s.length) code),
  length-append {0} (zeros s.length) (drop (s.start + s.length) code),
  length-take {0} s.start code,
  length-zeros s.length,
  length-drop {0} (s.start + s.length) code,
)

-- a list put together of three parts, read in each of them
module _ {ℓ} {A : Type ℓ} (xs ys zs : List A) where
  get_elem?-middle :
      (j : ℕ) → j < length ys → get_elem? (xs ++ (ys ++ zs)) (length xs + j) ≡ get_elem? ys j
  get_elem?-middle j h = get_elem?-append_right xs (ys ++ zs) j ∙ get_elem?-append_left ys zs j h

  get_elem?-last :
      (j : ℕ) → get_elem? (xs ++ (ys ++ zs)) (length xs + (length ys + j)) ≡ get_elem? zs j
  get_elem?-last j =
      get_elem?-append_right xs (ys ++ zs) (length ys + j) ∙ get_elem?-append_right ys zs j

module _ (code : List ℕ) (s : Slice) (h : Fits code s) where
  read_before : (i : ℕ) → i < s.start → get_elem? (zero_out_slice code s) i ≡ get_elem? code i
  unfolding zero_out_slice
  read_before i lt =
      get_elem?-append_left (take s.start code) _ i (omega (arith, length-take {0} s.start code))
      ∙ get_elem?-take s.start i code lt

  read_inside :
      (i j : ℕ) → i ≡ s.start + j → j < s.length → get_elem? (zero_out_slice code s) i ≡ some 0
  unfolding zero_out_slice
  read_inside i j e lt =
      ap (get_elem? (zero_out_slice code s)) (omega (arith, length-take {0} s.start code))
      ∙ get_elem?-middle (take s.start code) (zeros s.length) (drop (s.start + s.length) code) j
          (omega (arith, length-zeros s.length))
      ∙ get_elem?-zeros s.length j lt

  read_behind :
      (i j : ℕ)
      → i ≡ s.start + s.length + j
      → get_elem? (zero_out_slice code s) i ≡ get_elem? code i
  unfolding zero_out_slice
  read_behind i j e =
      ap (get_elem? (zero_out_slice code s))
        (omega (arith, length-take {0} s.start code, length-zeros s.length))
      ∙ get_elem?-last (take s.start code) (zeros s.length) (drop (s.start + s.length) code) j
      ∙ get_elem?-drop (s.start + s.length) j code
      ∙ ap (get_elem? code) (omega arith)

  get_elem?-zero_out_slice :
      (i : ℕ)
      → get_elem? (zero_out_slice code s) i ≡ (if is_covered i s then some 0 else get_elem? code i)
  get_elem?-zero_out_slice i =
      ground
        (arith, read_before i, read_inside i (i - s.start), read_behind i (i - s.start - s.length))

Fits-length :
    (code code' : List ℕ) (slices : List Slice)
    → length code ≡ length code'
    → All (Fits code) slices
    → All (Fits code') slices
Fits-length code code' [] e h = tt
Fits-length code code' (s ∷ slices) e h = (omega arith, Fits-length code code' slices e h.1)

-- Where every slice fits into the code, zeroing them out keeps the length of the code; a byte that
-- one of the slices is_covered becomes 0, and every other byte stays as it is.
pub zero_out_slices-bytes :
    (code : List ℕ) (slices : List Slice)
    → All (Fits code) slices
    → (length (zero_out_slices code slices) ≡ length code)
      × ((i : ℕ)
          → get_elem? (zero_out_slices code slices) i
            ≡ (if any (is_covered i) slices then some 0 else get_elem? code i))
unfolding zero_out_slices
zero_out_slices-bytes code [] h = (refl, λ i. refl)
zero_out_slices-bytes code (s ∷ slices) h =
    let kept = length-zero_out_slice code s h.0 in
    let (long, bytes) =
      zero_out_slices-bytes (zero_out_slice code s) slices
        (Fits-length code (zero_out_slice code s) slices (omega (arith, kept)) h.1) in
    (long ∙ kept, λ i. ground (arith, bytes i, get_elem?-zero_out_slice code s h.0 i))

-- two lists with the same elements at every index are one
same_elements : (xs ys : List ℕ) → ((i : ℕ) → get_elem? xs i ≡ get_elem? ys i) → xs ≡ ys
same_elements [] [] h = refl
same_elements [] (y ∷ ys) h = absurd (ground (arith, h 0))
same_elements (x ∷ xs) [] h = absurd (ground (arith, h 0))
same_elements (x ∷ xs) (y ∷ ys) h = ground (arith, h 0, same_elements xs ys (λ i. h (suc i)))

zero_out_slices_idempotent :
    (code : List ℕ) (slices : List Slice)
    → All (Fits code) slices
    → zero_out_slices (zero_out_slices code slices) slices ≡ zero_out_slices code slices
zero_out_slices_idempotent code slices h =
    let (long, once) = zero_out_slices-bytes code slices h in
    let (_, twice) =
      zero_out_slices-bytes (zero_out_slices code slices) slices
        (Fits-length code (zero_out_slices code slices) slices (omega arith) h) in
    same_elements _ _ (λ i. ground (arith, twice i, once i))

-- Code of at least 21 bytes, as every code is that begins with a whole PUSH20, is normalized once
-- and for all: normalizing it again changes nothing.
pub normalize_idempotent :
    (code : List ℕ)
    → 21 ≤ length code
    → normalize_library_runtime_bytecode_if_necessary
        (normalize_library_runtime_bytecode_if_necessary code)
      ≡ normalize_library_runtime_bytecode_if_necessary code
unfolding normalize_library_runtime_bytecode_if_necessary
normalize_idempotent code h =
    let again : zero_out_slices (zero_out_slices code (address_slice 1 ∷ [])) (address_slice 1 ∷ [])
        ≡ zero_out_slices code (address_slice 1 ∷ []) =
      zero_out_slices_idempotent code (address_slice 1 ∷ []) (omega arith) in
    elim (Bool-cases (option_beq (get_elem? code 0) (some push20))) [
      | inl e ↦ ground (arith, again)
      | inr e ↦ rw (e, e) refl
    ]
