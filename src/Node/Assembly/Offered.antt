-- ===== src/Node/Assembly/Offered.antt =====
-- The queue that `_mineBlockWithPendingTxs` makes holds the pool's pending transactions.
use hardhat.Prelude.{
  ℕ, ◌≡◌, refl, ◌==◌, List, [], ◌∷◌, ◌++◌, none, map, arith, inl, inr, Bool-cases,
}
use hardhat.Prelude.Assoc.{get, HasUniqueKeys}
use hardhat.Transactions.{TxLibrary, OrderedTransaction, deserialize_transaction}
use hardhat.TransactionQueue.Queue.{PendingTransactions}
use hardhat.TransactionQueue.Filled.{entries_of}
use hardhat.TxPool.State.{AddressToTransactions, read_transactions}
use hardhat.Node.Assembly.{first_and_rest}

-- the transactions of the pool's map
abbrev pub listed : TxLibrary → AddressToTransactions → List OrderedTransaction
listed lib [] = []
listed lib ((a, l) ∷ m) = map (deserialize_transaction lib) l ++ listed lib m

module _ (lib : TxLibrary) where
  abbrev pub offer : AddressToTransactions → PendingTransactions
  offer m = first_and_rest (read_transactions lib m)

  pub offer-listed : (m : AddressToTransactions) → entries_of (offer m) ≡ listed lib m
  unfolding read_transactions
  offer-listed [] = refl
  offer-listed ((a, []) ∷ m) = offer-listed m
  offer-listed ((a, t ∷ ts) ∷ m) = ground (arith, offer-listed m)

  offer-absent : (k : ℕ) (m : AddressToTransactions) → get k m ≡ none → get k (offer m) ≡ none
  unfolding read_transactions
  offer-absent k [] e = refl
  offer-absent k ((a, []) ∷ m) e = offer-absent k m (ground (arith, e))
  offer-absent k ((a, t ∷ ts) ∷ m) e = elim (Bool-cases (a == k)) [
    | inl same ↦ absurd (ground (arith, e, same))
    | inr other ↦ rw other (offer-absent k m (ground (arith, e, other)))
  ]

  pub offer-HasUniqueKeys : (m : AddressToTransactions) → HasUniqueKeys m → HasUniqueKeys (offer m)
  unfolding read_transactions
  offer-HasUniqueKeys [] u = tt
  offer-HasUniqueKeys ((a, []) ∷ m) u = offer-HasUniqueKeys m u.1
  offer-HasUniqueKeys ((a, t ∷ ts) ∷ m) u = (offer-absent a m u.0, offer-HasUniqueKeys m u.1)
