-- ===== src/TxPool/Removal.antt =====
-- `removeTransaction` keeps the invariant: the transactions behind the removed one are no longer
-- executable, and move to the queue.
use hardhat.Prelude.{
  ℕ, zero, suc, ◌+◌, ◌≤◌, ◌<◌, refl, ap, List, [], ◌∷◌, ◌++◌, inl, inr, All, All-append, All-map,
  length, take, drop, remove_at, arith, Option-cases, after, ◌>>=◌,
}
use hardhat.Prelude.Assoc.{get, get-put_self, get-put_ne}
use hardhat.Transactions.{
  TxLibrary, SerializedTransaction, sender_of, serialize_transaction, deserialize_transaction,
}
use hardhat.TxPool.Invariant.{IsOrdered, Inv, Inv-at}
use hardhat.TxPool.Order.{Consecutive, Distinct}
use hardhat.TxPool.Remove.{index_of, remove_from_lists, remove_transaction}
use hardhat.TxPool.State.{
  Account, SenderTransactions, TxPool, pending_for, queued_for, set_pending_for, set_queued_for,
  delete_by_hash, or_empty, nonce_of, get_sender_address,
}

All-remove_at {ℓ κ} :
    {A : Type ℓ} (P : A → Type κ) (i : ℕ) (xs : List A) → All P xs → All P (remove_at i xs)
All-remove_at P i [] h = tt
All-remove_at P zero (x ∷ xs) h = h.1
All-remove_at P (suc i) (x ∷ xs) h = (h.0, All-remove_at P i xs h.1)

module _ {ℓ} {A : Type ℓ} (nonce : A → ℕ) where
  Consecutive-take :
      (n i : ℕ) (xs : List A) → Consecutive nonce n xs → Consecutive nonce n (take i xs)
  Consecutive-take n zero xs h = tt
  Consecutive-take n (suc i) [] h = tt
  Consecutive-take n (suc i) (x ∷ xs) h = (h.0, Consecutive-take (suc n) i xs h.1)

  -- the nonces of a gapless list lie between its ends
  pub Consecutive-bounds :
      (n : ℕ) (xs : List A)
      → Consecutive nonce n xs
      → All (λ x. (n ≤ nonce x) × (nonce x < n + length xs)) xs
  Consecutive-bounds n [] h = tt
  Consecutive-bounds n (x ∷ xs) h = (
    omega arith,
    All-map (λ y (b : (suc n ≤ nonce y) × (nonce y < suc n + length xs)). omega arith) xs
        (Consecutive-bounds (suc n) xs h.1),
  )

  pub Consecutive-Distinct : (n : ℕ) (xs : List A) → Consecutive nonce n xs → Distinct nonce xs
  Consecutive-Distinct n [] h = tt
  Consecutive-Distinct n (x ∷ xs) h = (
    All-map (λ y (b : (suc n ≤ nonce y) × (nonce y < suc n + length xs)). omega (arith, h.0)) xs
        (Consecutive-bounds (suc n) xs h.1),
    Consecutive-Distinct (suc n) xs h.1,
  )

  -- behind position i the nonces are at least n + i
  drop-bounds :
      (n i : ℕ) (xs : List A)
      → Consecutive nonce n xs
      → All (λ x. (n + i ≤ nonce x) × (nonce x < n + length xs)) (drop i xs)
        × Distinct nonce (drop i xs)
  drop-bounds n zero xs h = (
    All-map (λ y (b : (n ≤ nonce y) × (nonce y < n + length xs)). omega arith) xs
        (Consecutive-bounds n xs h),
    Consecutive-Distinct n xs h,
  )
  drop-bounds n (suc i) [] h = (tt, tt)
  drop-bounds n (suc i) (x ∷ xs) h =
      let (bounds, distinct) = drop-bounds (suc n) i xs h.1 in
      (
        All-map (λ y (b : (suc n + i ≤ nonce y) × (nonce y < suc n + length xs)). omega arith)
            (drop i xs) bounds,
        distinct,
      )

  pub Distinct-append :
      (k : ℕ) (xs ys : List A)
      → Distinct nonce xs
      → Distinct nonce ys
      → All (λ x. k < nonce x) xs
      → All (λ y. nonce y < k) ys
      → Distinct nonce (xs ++ ys)
  Distinct-append k [] ys d e a b = e
  Distinct-append k (x ∷ xs) ys d e a b = (
    All-append _ xs ys d.0 (All-map (λ y (l : nonce y < k). omega (arith, a.0)) ys b),
    Distinct-append k xs ys d.1 e a.1 b,
  )

  Distinct-remove_at : (i : ℕ) (xs : List A) → Distinct nonce xs → Distinct nonce (remove_at i xs)
  Distinct-remove_at i [] d = tt
  Distinct-remove_at zero (x ∷ xs) d = d.1
  Distinct-remove_at (suc i) (x ∷ xs) d = (All-remove_at _ i xs d.0, Distinct-remove_at i xs d.1)

length-take-le {ℓ} : {A : Type ℓ} (i : ℕ) (xs : List A) → length (take i xs) ≤ i
length-take-le zero xs = omega arith
length-take-le (suc i) [] = omega arith
length-take-le (suc i) (x ∷ xs) = omega (arith, length-take-le i xs)

length-take-le_length {ℓ} : {A : Type ℓ} (i : ℕ) (xs : List A) → length (take i xs) ≤ length xs
length-take-le_length zero xs = omega arith
length-take-le_length (suc i) [] = omega arith
length-take-le_length (suc i) (x ∷ xs) = omega (arith, length-take-le_length i xs)

module _ (lib : TxLibrary) where
  -- the lists of a sender after one of its transactions has been taken out
  split-IsOrdered :
      (n i : ℕ) (pending queued : SenderTransactions)
      → IsOrdered lib n pending queued
      → IsOrdered lib n (take i pending) (queued ++ drop (i + 1) pending)
  split-IsOrdered n i pending queued o =
      let nonces = nonce_of lib in
      let (bounds, distinct) = drop-bounds nonces n (i + 1) pending o.gapless in
      record {
        gapless = Consecutive-take nonces n i pending o.gapless;
        beyond =
            All-append _ queued (drop (i + 1) pending)
              (All-map
                (λ t (h : n + length pending < nonces t).
                  omega (arith, length-take-le_length i pending))
                queued o.beyond)
              (All-map
                (λ t (h : (n + (i + 1) ≤ nonces t) × (nonces t < n + length pending)).
                  omega (arith, length-take-le i pending))
                (drop (i + 1) pending) bounds);
        distinct =
            Distinct-append nonces (n + length pending) queued (drop (i + 1) pending) o.distinct
              distinct o.beyond
              (All-map (λ t (h : (n + (i + 1) ≤ nonces t) × (nonces t < n + length pending)). h.1)
                (drop (i + 1) pending) bounds);
      }

  remove_from_lists-Inv :
      (accounts : ℕ → Account) (s : ℕ) (stx : SerializedTransaction) (p : TxPool)
      → Inv lib accounts p
      → Inv lib accounts (after (remove_from_lists lib s stx p))
  unfolding remove_from_lists
  remove_from_lists-Inv accounts s stx p v =
      let pending = pending_for p s in
      let queued = queued_for p s in
      elim (Option-cases (index_of stx pending)) [
        | inr ((i, found), e) ↦
            let left = take i pending in
            let joined = queued ++ drop (i + 1) pending in
            rw (e, remove_from_lists)
              (Inv-at lib accounts p (set_queued_for s joined (set_pending_for s left p)) s
                (rw (get-put_self s left p.state.pending, get-put_self s joined p.state.queued)
                  (split-IsOrdered _ i pending queued (v s)))
                (λ a ne. (
                  ap or_empty (get-put_ne s a left p.state.pending ne),
                  ap or_empty (get-put_ne s a joined p.state.queued ne),
                ))
                v)
        | inl e ↦ elim (Option-cases (index_of stx queued)) [
          | inl e' ↦ rw (e, e', remove_from_lists) v
          | inr ((i, found), e') ↦
              let left = remove_at i queued in
              rw (e, e', remove_from_lists)
                (Inv-at lib accounts p (set_queued_for s left p) s
                  (rw (get-put_self s left p.state.queued) (record {
                    gapless = (v s).gapless;
                    beyond = All-remove_at _ i queued (v s).beyond;
                    distinct = Distinct-remove_at (nonce_of lib) i queued (v s).distinct;
                  }))
                  (λ a ne. (refl, ap or_empty (get-put_ne s a left p.state.queued ne))) v)
        ]
      ]

  -- Removing a transaction by its hash keeps the invariant of the pool (gapless pending nonces from
  -- the account's nonce, distinct queued ones beyond the next), on every branch, those that find
  -- no such transaction or throw included.
  pub remove_transaction-Inv :
      (accounts : ℕ → Account) (h : ℕ) (p : TxPool)
      → Inv lib accounts p
      → Inv lib accounts (after (remove_transaction lib h p))
  unfolding remove_transaction
  remove_transaction-Inv accounts h p v = elim (Option-cases (get h p.state.by_hash)) [
    | inl e ↦ rw (e, remove_transaction) v
    | inr (entry, e) ↦
        let o = deserialize_transaction lib entry in
        let p' = delete_by_hash h p in
        elim (Option-cases (sender_of lib o.tx)) [
          | inr (s, sent) ↦
              rw (e, remove_transaction, ◌>>=◌, get_sender_address, sent)
                (remove_from_lists-Inv accounts s (serialize_transaction lib o) p' v)
          | inl lost ↦ elim (Option-cases o.tx.signature) [
            | inl unsigned ↦ rw (e, remove_transaction, ◌>>=◌, get_sender_address, lost, unsigned) v
            | inr (sig, signed) ↦
                rw (e, remove_transaction, ◌>>=◌, get_sender_address, lost, signed) v
          ]
        ]
  ]
