-- ===== src/TxPool/Sweep.antt =====
-- What the sweep over one sender's pending list does in `updatePendingAndQueued`: which
-- transactions stay, which move to the queue, and what becomes of the look-up by hash.
use hardhat.Prelude.{
  find_entry-append, ℕ, ◌+◌, ◌≡◌, refl, sym, ap, ◌∙◌, subst, List, [], ◌∷◌, ◌++◌, some, All,
  All-append, All-append_left, All-append_right, length, remove_at, find_entry_from, arith, Bool,
  true, false, Bool-cases, ok, inl, inr,
}
use hardhat.Prelude.Assoc.{get, put}
use hardhat.Transactions.{
  TxLibrary, SerializedTransaction, same_serialized, same_serialized_iff, serialize_transaction,
  deserialize_transaction,
}
use hardhat.TxPool.Order.{Distinct}
use hardhat.TxPool.Remove.{remove_serialized, remove_tx}
use hardhat.TxPool.State.{
  SenderTransactions, AddressToTransactions, TxPool, delete_by_hash, nonce_of, hash_of,
}

find_here {ℓ} :
    {A : Type ℓ} (p : A → Bool) (k : ℕ) (pre : List A) (t : A) (ts : List A)
    → All (λ s. p s ≡ false) pre
    → p t ≡ true
    → find_entry_from k p (pre ++ t ∷ ts) ≡ some (k + length pre, t)
find_here p k pre t ts h e = find_entry-append p k pre (t ∷ ts) h ∙ rw (e, find_entry_from) refl

remove_at-append {ℓ} :
    {A : Type ℓ} (pre : List A) (t : A) (ts : List A)
    → remove_at (length pre) (pre ++ t ∷ ts) ≡ pre ++ ts
remove_at-append [] t ts = refl
remove_at-append (s ∷ pre) t ts = ap (◌∷◌ s) (remove_at-append pre t ts)

module _ (lib : TxLibrary) where
  -- what the pool stores is what serializing the transaction again gives
  abbrev pub IsCanonical : SerializedTransaction → Type 0
  IsCanonical t = serialize_transaction lib (deserialize_transaction lib t) ≡ t

  Distinct-before :
      (pre : SenderTransactions) (t : SerializedTransaction) (ts : SenderTransactions)
      → Distinct (nonce_of lib) (pre ++ t ∷ ts)
      → All (λ s. same_serialized s t ≡ false) pre
  Distinct-before [] t ts d = tt
  Distinct-before (s ∷ pre) t ts d = (
    elim (Bool-cases (same_serialized s t)) [
      | inl e ↦ absurd (
          (All-append_right _ pre (t ∷ ts) d.0).0
            (ap (nonce_of lib) (sym ((same_serialized_iff s t).0 e))))
      | inr e ↦ e
    ],
    Distinct-before pre t ts d.1,
  )

  pub Distinct-without :
      (pre : SenderTransactions) (t : SerializedTransaction) (ts : SenderTransactions)
      → Distinct (nonce_of lib) (pre ++ t ∷ ts)
      → Distinct (nonce_of lib) (pre ++ ts)
  Distinct-without [] t ts d = d.1
  Distinct-without (s ∷ pre) t ts d = (
    All-append _ pre ts (All-append_left _ pre (t ∷ ts) d.0)
        (All-append_right _ pre (t ∷ ts) d.0).1,
    Distinct-without pre t ts d.1,
  )

  remove_serialized-append :
      (pre : SenderTransactions) (t : SerializedTransaction) (ts : SenderTransactions)
      → Distinct (nonce_of lib) (pre ++ t ∷ ts)
      → remove_serialized t (pre ++ t ∷ ts) ≡ pre ++ ts
  unfolding remove_serialized
  remove_serialized-append pre t ts d =
      rw
        (
          find_here (λ s. same_serialized s t) 0 pre t ts (Distinct-before pre t ts d)
              ((same_serialized_iff t t).1 refl),
          remove_serialized,
        )
        (subst (λ n. remove_at n (pre ++ t ∷ ts) ≡ pre ++ ts) (omega arith)
          (remove_at-append pre t ts))

  -- `_removeTx` on a transaction of the sender's list
  pub remove_tx-append :
      (m : AddressToTransactions) (a : ℕ) (pre : SenderTransactions) (t : SerializedTransaction)
      (ts : SenderTransactions) (p : TxPool)
      → get a m ≡ some (pre ++ t ∷ ts)
      → IsCanonical t
      → Distinct (nonce_of lib) (pre ++ t ∷ ts)
      → remove_tx lib m a (deserialize_transaction lib t) p
        ≡ ok (put a (pre ++ ts) m) (delete_by_hash (hash_of lib t) p)
  unfolding remove_tx
  remove_tx-append m a pre t ts p e c d =
      rw (e, remove_tx, c)
        (ap (λ l. ok (put a l m) (delete_by_hash (hash_of lib t) p))
          (remove_serialized-append pre t ts d))
