-- ===== src/StackTraces/Ways.antt =====
-- Why a code is identified as a bytecode.
use hardhat.Prelude.{
  ℕ, zero, suc, ◌≡◌, refl, ap, ◌∙◌, subst, Bool, false, List, [], ◌∷◌, ◌++◌, Option, none, some,
  keep, get_elem?, drop, length, ltb, inl, inr, Bool-cases, arith,
}
use hardhat.Prelude.Int.{pos, pos_part, ◌+ℤ◌}
use hardhat.StackTraces.Bytecodes.{Bytecode}
use hardhat.StackTraces.Identifier.{
  resolve, search_normalized, try_libraries, search_bytecode, zero_out, has_nothing_to_normalize,
}
use hardhat.StackTraces.Searches.{depth_at, view_reached, search-from_0}
use hardhat.StackTraces.Trie.{BytecodeTrie, depth, descendants, add_all, root, search, search_at}
use hardhat.StackTraces.Walks.{walk, extends, reached}
use hardhat.StackTraces.Fits.{or_else-cases, Fits, depth-at, resolve-Fits}

module _ (is_create : Bool) (bs : List Bytecode) where
  no_libraries-Fits :
      (tested p rest : List ℕ) (u : BytecodeTrie) (b : Bytecode)
      → walk p (add_all bs root) ≡ some u
      → resolve is_create tested (λ v. none) (search_at rest u) ≡ some b
      → Fits is_create bs (p ++ rest) tested b
  no_libraries-Fits tested p rest u b w h =
      elim (resolve-Fits is_create bs tested p rest u (λ v. none) b w h) [
        | inl fits ↦ fits
        | inr (q, v, stops, l) ↦ cc
      ]

  first_byte_lem : (n : ℕ) → pos_part (depth_at n +ℤ pos 1) ≡ n
  unfolding ◌+ℤ◌
  first_byte_lem zero = refl
  first_byte_lem (suc n) = grind arith

  search_normalized-Fits :
      (code p : List ℕ) (u : BytecodeTrie) (n : ℕ) (b : Bytecode)
      → walk p (add_all bs root) ≡ some u
      → search_normalized is_create code u n ≡ some b
      → Fits is_create bs (p ++ drop n code) code b
  unfolding search_normalized search resolve
  search_normalized-Fits code p u n b w h = elim (Bool-cases (ltb (length code) n)) [
    | inl e ↦ let never : ◌≡◌ {A = Option Bytecode} none (some b) = rw (e, search) at h in cc
    | inr e ↦ no_libraries-Fits code p (drop n code) u b w (rw (e, search) at h)
  ]

  -- A bytecode of a list that has something to zero out, with which the search finds `b`.
  abbrev Zeroes : List ℕ → BytecodeTrie → List Bytecode → Bytecode → Type 0
  Zeroes code u ds b =
      (i : ℕ) × (d : Bytecode) × (get_elem? ds i ≡ some d)
      × (has_nothing_to_normalize d ≡ false)
      × (search_normalized is_create (zero_out code d) u (pos_part (depth u +ℤ pos 1)) ≡ some b)

  Zeroes-cons :
      (code : List ℕ) (u : BytecodeTrie) (d : Bytecode) (ds : List Bytecode) (b : Bytecode)
      → Zeroes code u ds b
      → Zeroes code u (d ∷ ds) b
  Zeroes-cons code u d ds b (i, e, at, test, found) = (suc i, e, at, test, found)

  try_libraries-Zeroes :
      (code : List ℕ) (u : BytecodeTrie) (ds : List Bytecode) (b : Bytecode)
      → try_libraries is_create code u ds ≡ some b
      → Zeroes code u ds b
  unfolding try_libraries
  try_libraries-Zeroes code u [] b h = cc
  try_libraries-Zeroes code u (d ∷ ds) b h = elim (Bool-cases (has_nothing_to_normalize d)) [
    | inl skip ↦ Zeroes-cons code u d ds b (try_libraries-Zeroes code u ds b (rw skip at h))
    | inr look ↦
        elim (or_else-cases
          (search_normalized is_create (zero_out code d) u (pos_part (depth u +ℤ pos 1))) _ b
          (rw look at h)) [
            | inl found ↦ (0, d, refl, look, found)
            | inr r ↦ Zeroes-cons code u d ds b (try_libraries-Zeroes code u ds b r)
          ]
  ]

  -- Why a code is identified as a bytecode: it fits as it is, or behind the longest beginning `p`
  -- that it shares, with the values zeroed out of an added bytecode that goes on behind it.
  pub data Identified (code : List ℕ) (b : Bytecode) : Type 0 where
    as_it_is : Fits is_create bs code code b → Identified code b
    zeroed :
        (p : List ℕ) (x : ℕ) (rest : List ℕ) (i : ℕ) (d : Bytecode)
        → code ≡ p ++ x ∷ rest
        → reached (p ++ x ∷ []) bs ≡ false
        → get_elem? (keep (extends p) bs) i ≡ some d
        → has_nothing_to_normalize d ≡ false
        → Fits is_create bs (p ++ drop (length p) (zero_out code d)) (zero_out code d) b
        → Identified code b

  -- Whatever bytecodes were added: a bytecode that a code is identified as is the last one that was
  -- added with exactly this code; or, for the code of a deployment, the last one with exactly the
  -- longest beginning that the code shares with an added one, and a deployment's; or the last one
  -- that goes on behind this beginning, the code being in its metadata there; or one of these three
  -- for the code with the values zeroed out of an added bytecode that goes on behind this beginning
  -- and has library addresses or immutable values.
  pub search_bytecode-Identified :
      (code : List ℕ) (b : Bytecode)
      → search_bytecode is_create code (add_all bs root) ≡ some b
      → Identified code b
  unfolding search_bytecode walk
  search_bytecode-Identified code b h =
      let libraries = λ (u : BytecodeTrie). try_libraries is_create code u (descendants u) in
      let h' =
        subst (λ z. resolve is_create code libraries z ≡ some b)
          (search-from_0 (add_all bs root) code) h in
      elim (resolve-Fits is_create bs code [] code (add_all bs root) libraries b refl h') [
        | inl fits ↦ as_it_is fits
        | inr (p, v, s, found) ↦
            let (i, d, at, test, run) = try_libraries-Zeroes code v (descendants v) b found in
            let (_, below, _) = view_reached p bs v s.at in
            let from : pos_part (depth v +ℤ pos 1) ≡ length p =
              ap (λ k. pos_part (k +ℤ pos 1)) (depth-at is_create bs p v s.at)
              ∙ first_byte_lem (length p) in
            zeroed p s.next s.rest i d s.split s.ends (subst (λ l. get_elem? l i ≡ some d) below at)
              test
              (subst (λ n. Fits is_create bs (p ++ drop n (zero_out code d)) (zero_out code d) b)
                from
                (search_normalized-Fits (zero_out code d) p v (pos_part (depth v +ℤ pos 1)) b s.at
                  run))
      ]
