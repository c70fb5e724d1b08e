-- ===== src/TxPool/Moves.antt =====
-- What `reorganize_transactions_lists` returns: a permutation of what it was given, split where
-- the nonces stop going on without a gap.
use mathlib.Core.List.{Perm, append_assoc, append-nil}
use mathlib.Core.List.Perm
use hardhat.Prelude.{
  ℕ, suc, ◌+◌, ◌≤◌, ◌<◌, ◌≡◌, ◌≢◌, refl, sym, subst, ◌==◌, leb, List, [], ◌∷◌, ◌++◌, some, length,
  length-append, last?, drop, All, arith, true, false, Bool-cases, inl, inr,
}
use hardhat.TxPool.Order.{
  Consecutive, Growing, Distinct, Consecutive-append, nonce-last, Growing-weaken, Growing-All,
  Growing-Distinct,
}
use hardhat.TxPool.Reorganize.{insert_by, sort_by, move_loop, reorganize_transactions_lists}

module _ {ℓ} {A : Type ℓ} (nonce : A → ℕ) where
  insert_by-perm : (x : A) (ys : List A) → Perm (insert_by nonce x ys) (x ∷ ys)
  unfolding insert_by
  insert_by-perm x [] = Perm.refl _
  insert_by-perm x (y ∷ ys) = elim (Bool-cases (leb (nonce x) (nonce y))) [
    | inl e ↦ rw e (Perm.refl _)
    | inr e ↦ rw e (Perm.trans (Perm.cons y (insert_by-perm x ys)) (Perm.swap x y ys))
  ]

  pub sort_by-perm : (xs : List A) → Perm (sort_by nonce xs) xs
  unfolding sort_by
  sort_by-perm [] = Perm.refl _
  sort_by-perm (x ∷ xs) =
      Perm.trans (insert_by-perm x (sort_by nonce xs)) (Perm.cons x (sort_by-perm xs))

  All-insert_by :
      (P : A → Type 0) (x : A) (ys : List A) → P x → All P ys → All P (insert_by nonce x ys)
  unfolding insert_by
  All-insert_by P x [] h k = (h, tt)
  All-insert_by P x (y ∷ ys) h k = elim (Bool-cases (leb (nonce x) (nonce y))) [
    | inl e ↦ rw e (h, k)
    | inr e ↦ rw e (k.0, All-insert_by P x ys h k.1)
  ]

  pub All-sort_by : (P : A → Type 0) (xs : List A) → All P xs → All P (sort_by nonce xs)
  unfolding sort_by
  All-sort_by P [] h = tt
  All-sort_by P (x ∷ xs) h = All-insert_by P x (sort_by nonce xs) h.0 (All-sort_by P xs h.1)

  Growing-insert_by :
      (n : ℕ) (x : A) (ys : List A)
      → n ≤ nonce x
      → All (λ y. nonce y ≢ nonce x) ys
      → Growing nonce n ys
      → Growing nonce n (insert_by nonce x ys)
  unfolding insert_by
  Growing-insert_by n x [] h fresh g = (h, tt)
  Growing-insert_by n x (y ∷ ys) h fresh g = elim (Bool-cases (leb (nonce x) (nonce y))) [
    | inl e ↦ rw e (h, (ground arith, g.1))
    | inr e ↦ rw e (g.0, Growing-insert_by (suc (nonce y)) x ys (ground arith) fresh.1 g.1)
  ]

  -- Sorting distinct nonces makes them grow strictly.
  pub Growing-sort_by :
      (n : ℕ) (xs : List A)
      → All (λ x. n ≤ nonce x) xs
      → Distinct nonce xs
      → Growing nonce n (sort_by nonce xs)
  unfolding sort_by
  Growing-sort_by n [] h d = tt
  Growing-sort_by n (x ∷ xs) h d =
      Growing-insert_by n x (sort_by nonce xs) h.0 (All-sort_by _ xs d.0)
        (Growing-sort_by n xs h.1 d.1)

  -- the part of a list whose nonces go on from n without a gap, and the rest
  pub run : ℕ → List A → List A
  run n [] = []
  run n (t ∷ ts) = elim (n == nonce t) [ true ↦ t ∷ run (n + 1) ts | false ↦ [] ]

  pub rest : ℕ → List A → List A
  rest n [] = []
  rest n (t ∷ ts) = elim (n == nonce t) [ true ↦ rest (n + 1) ts | false ↦ t ∷ ts ]

  pub run-append-rest : (n : ℕ) (ts : List A) → run n ts ++ rest n ts ≡ ts
  unfolding run rest
  run-append-rest n [] = refl
  run-append-rest n (t ∷ ts) = ground (arith, run-append-rest (n + 1) ts)

  pub drop-length-run : (n : ℕ) (ts : List A) → drop (length (run n ts)) ts ≡ rest n ts
  unfolding run rest
  drop-length-run n [] = refl
  drop-length-run n (t ∷ ts) = elim (Bool-cases (n == nonce t)) [
    | inl e ↦ rw (e, run, rest) (drop-length-run (n + 1) ts)
    | inr e ↦ rw (e, run, rest) refl
  ]

  pub run-Consecutive : (n : ℕ) (ts : List A) → Consecutive nonce n (run n ts)
  unfolding run
  run-Consecutive n [] = tt
  run-Consecutive n (t ∷ ts) = elim (Bool-cases (n == nonce t)) [
    | inl e ↦
        rw (e, run)
          (
            ground arith,
            subst (λ k. Consecutive nonce k (run (n + 1) ts)) (omega arith)
                (run-Consecutive (n + 1) ts),
          )
    | inr e ↦ rw (e, run) tt
  ]

  pub rest-Growing :
      (n : ℕ) (ts : List A)
      → Growing nonce n ts
      → Growing nonce (suc (n + length (run n ts))) (rest n ts)
  unfolding run rest
  rest-Growing n [] g = tt
  rest-Growing n (t ∷ ts) g = elim (Bool-cases (n == nonce t)) [
    | inl e ↦
        rw (e, run, rest)
          (subst (λ k. Growing nonce k (rest (n + 1) ts)) (omega arith)
            (rest-Growing (n + 1) ts
              (Growing-weaken nonce (n + 1) (suc (nonce t)) ts (ground arith) g.1)))
    | inr e ↦ rw (e, run, rest) (ground arith, g.1)
  ]

  move_loop-run :
      (pending : List A) (n moved : ℕ) (ts : List A)
      → move_loop nonce pending n moved ts ≡ (pending ++ run n ts, moved + length (run n ts))
  unfolding move_loop run
  move_loop-run pending n moved [] = ground (arith, append-nil pending)
  move_loop-run pending n moved (t ∷ ts) = elim (Bool-cases (n == nonce t)) [
    | inl e ↦
        rw (e, move_loop, run)
          (ground (
            arith,
            move_loop-run (pending ++ t ∷ []) (n + 1) (moved + 1) ts,
            append_assoc pending (t ∷ []) (run (n + 1) ts),
          ))
    | inr e ↦ rw (e, move_loop, run) (ground (arith, append-nil pending))
  ]

  -- the result in closed form
  pub reorganize-run :
      (pending queued : List A) (t : A)
      → last? pending ≡ some t
      → reorganize_transactions_lists nonce pending queued
        ≡ some (
          pending ++ run (nonce t + 1) (sort_by nonce queued),
          rest (nonce t + 1) (sort_by nonce queued),
        )
  unfolding reorganize_transactions_lists
  reorganize-run pending queued t e = ground (
    arith,
    move_loop-run pending (nonce t + 1) 0 (sort_by nonce queued),
    drop-length-run (nonce t + 1) (sort_by nonce queued),
  )

  -- From a gapless pending list and a queue of other, later nonces: the lists that come back are
  -- a permutation of the old ones, the pending list begins with the old one and is gapless, and
  -- every transaction left in the queue is beyond the nonce that would come next, no two of them
  -- with the same nonce.
  pub reorganize-moves_every_executable :
      (n : ℕ) (pending queued : List A) (t : A)
      → last? pending ≡ some t
      → Consecutive nonce n pending
      → All (λ q. n + length pending ≤ nonce q) queued
      → Distinct nonce queued
      → (moved left : List A) × (reorganize_transactions_lists nonce pending queued
          ≡ some (pending ++ moved, left))
        × Perm (moved ++ left) queued
        × Consecutive nonce n (pending ++ moved)
        × All (λ q. n + length (pending ++ moved) < nonce q) left
        × Distinct nonce left
  reorganize-moves_every_executable n pending queued t e c later d =
      let next = nonce t + 1 in
      let sorted = sort_by nonce queued in
      let at : n + length pending ≡ next = omega (arith, nonce-last nonce n pending t c e) in
      let grows : Growing nonce next sorted =
        Growing-sort_by next queued (subst (λ m. All (λ q. m ≤ nonce q) queued) at later) d in
      let beyond = rest-Growing next sorted grows in
      (
        run next sorted,
        rest next sorted,
        reorganize-run pending queued t e,
        subst (λ l. Perm l queued) (sym (run-append-rest next sorted)) (sort_by-perm queued),
        Consecutive-append nonce n pending (run next sorted) c (
            subst (λ m. Consecutive nonce m (run next sorted)) (sym at)
              (run-Consecutive next sorted)),
        subst (λ m. All (λ q. m ≤ nonce q) (rest next sorted))
            (omega (arith, at, length-append pending (run next sorted)))
            (Growing-All nonce _ (rest next sorted) beyond),
        Growing-Distinct nonce _ (rest next sorted) beyond,
      )
