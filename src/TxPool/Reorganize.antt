-- ===== src/TxPool/Reorganize.antt =====
-- utils/reorganizeTransactionsLists.ts: transactions move from the queued list to the pending
-- list while their nonces go on without a gap.
use hardhat.Prelude.{
  ℕ, ◌+◌, ◌==◌, leb, if◌then◌else◌, true, false, List, [], ◌∷◌, ◌++◌, Option, none, some, last?,
  drop,
}

module _ {ℓ} {A : Type ℓ} (nonce : A → ℕ) where
  -- `sortBy` is stable; an insertion sort that inserts before what is not smaller is one such.
  unfoldable pub insert_by : A → List A → List A
  insert_by x [] = x ∷ []
  insert_by x (y ∷ ys) =
      let rest = insert_by x ys in if leb (nonce x) (nonce y) then x ∷ y ∷ ys else y ∷ rest

  unfoldable pub sort_by : List A → List A
  unfolding insert_by
  sort_by [] = []
  sort_by (x ∷ xs) = insert_by x (sort_by xs)

  -- The loop over the sorted queue, with its three variables: the pending list, the nonce that
  -- would come next, and how many transactions have moved.
  unfoldable pub move_loop : List A → ℕ → ℕ → List A → List A × ℕ
  move_loop pending next moved [] = (pending, moved)
  move_loop pending next moved (t ∷ ts) = elim (next == nonce t) [
    | true ↦ move_loop (pending ++ t ∷ []) (next + 1) (moved + 1) ts
    | false ↦ (pending, moved)
  ]

  -- `none` is the InternalError on an empty pending list.
  unfoldable pub reorganize_transactions_lists : List A → List A → Option (List A × List A)
  unfolding sort_by move_loop
  reorganize_transactions_lists pending queued = elim (last? pending) [
    | none ↦ none
    | some t ↦
        let sorted = sort_by queued in
        let (new_pending, moved) = move_loop pending (nonce t + 1) 0 sorted in
        some (new_pending, drop moved sorted)
  ]
