-- ===== src/Examples/NodeRuns.antt =====
-- The node's theorems, over the list heap and a builder that is the list of its transactions.
use hardhat.Prelude.{
  ℕ, ◌+◌, ◌≤◌, ◌≡◌, ◌⊎◌, false, refl, sym, subst, leb, ◌==◌, if◌then◌else◌, List, [], ◌∷◌, ◌++◌,
  Option, some, ok, after, arith, inl, inr, Bool-cases,
}
use hardhat.Examples.Libraries.{library, accounts}
use hardhat.Examples.QueueRuns.{list_heap, list_heap-HeapLaws, queue}
use hardhat.Examples.PoolRuns.{stored}
use hardhat.Transactions.{
  TypedTransaction, sender_of, SerializedTransaction, deserialize_transaction,
  serialize_transaction,
}
use hardhat.TransactionQueue.Comparators.{fifo, fifo_comparator, comparator}
use hardhat.TransactionQueue.Queue.{HeapLaws}
use hardhat.TxPool.Invariant.{Inv}
use hardhat.TxPool.Maintenance.{IsStored, HasAdvanced, update_pending_and_queued-Inv}
use hardhat.TxPool.State.{Account, TxPool, pending_for, queued_for}
use hardhat.TxPool.Update.{update_pending_and_queued}
use hardhat.Node.Assembly.{
  BuilderLibrary, BuilderLaws, MiningConfig, Assembly, Assembled, fill_block,
}
use hardhat.Node.Assembly.Limits.{fill_block-Progress, Stopped}
use hardhat.Node.Assembly.Mined.{Mines, mine_block-MinesOrKeeps}
use hardhat.Node.Assembly.Nonces.{sent_count, IsBySender}
use hardhat.Node.Assembly.Progress.{Progress, stock}
use hardhat.Node.GasEstimation.{min_diff, new_estimation, binary_search_estimation}
use hardhat.Node.GasEstimation.Search.{Estimates, binary_search_estimation-Estimates}

-- two transfers
abbrev pub two_stored : List SerializedTransaction
two_stored = stored 0 10 ∷ stored 1 20 ∷ []

abbrev pub pool_of_two : TxPool
pool_of_two = record {
  state = record {
    pending = (7, two_stored) ∷ [];
    queued = [];
    by_hash = (10, stored 0 10) ∷ (1000020, stored 1 20) ∷ [];
    block_gas_limit = 30000000;
  };
  snapshots = [];
  next_snapshot_id = 0;
  next_order_id = 2;
}

pool_of_two-Inv : Inv library accounts pool_of_two
unfolding deserialize_transaction
pool_of_two-Inv a = elim (Bool-cases (7 == a)) [
  | inl mine ↦ rw mine (record { gapless = (refl, (refl, tt)); beyond = tt; distinct = tt })
  | inr other ↦ rw other (record { gapless = tt; beyond = tt; distinct = tt })
]

pool_of_two-IsStored : IsStored library pool_of_two
unfolding deserialize_transaction serialize_transaction
pool_of_two-IsStored = record {
  unique_pending = (refl, tt);
  unique_queued = tt;
  canonical_pending = λ a. elim (Bool-cases (7 == a)) [
    | inl mine ↦ rw mine (refl, (refl, tt))
    | inr other ↦ rw other tt
  ];
  canonical_queued = λ a. tt;
}

-- the accounts once the first transfer has run, which has made a contract at address 11
abbrev advanced : ℕ → Account
advanced a = record { nonce = if 7 == a then 1 else if 11 == a then 1 else 0; balance = 1000000000 }

advanced-HasAdvanced : HasAdvanced accounts advanced pool_of_two
advanced-HasAdvanced a = elim (Bool-cases (7 == a)) [
  | inl mine ↦ rw mine (inr (omega arith, omega arith))
  | inr other ↦ rw other (inl (refl, refl))
]

update_pending_and_queued-Inv_example :
    (q : TxPool) × (update_pending_and_queued library advanced pool_of_two ≡ ok tt q)
    × Inv library advanced q
update_pending_and_queued-Inv_example =
    update_pending_and_queued-Inv library accounts advanced pool_of_two pool_of_two-Inv
      pool_of_two-IsStored advanced-HasAdvanced

binary_search_estimation-Estimates_example :
    (r : ℕ) × (binary_search_estimation (λ gas. leb 60000 gas) 22 30000 30000000 0 ≡ some r)
    × Estimates (λ gas. leb 60000 gas) 30000 30000000 r
binary_search_estimation-Estimates_example =
    binary_search_estimation-Estimates (λ gas. leb 60000 gas) 30000 30000000 (omega arith)
      (omega arith) (omega arith)

gas_of : List TypedTransaction → ℕ
gas_of [] = 0
gas_of (tx ∷ txs) = tx.gas_limit + gas_of txs

gas_of-append :
    (txs : List TypedTransaction) (tx : TypedTransaction)
    → gas_of (txs ++ tx ∷ []) ≡ gas_of txs + tx.gas_limit
unfolding gas_of
gas_of-append [] tx = omega arith
gas_of-append (t ∷ txs) tx = omega (arith, gas_of-append txs tx)

-- the accounts once a block has run, which has made a contract at address 11
abbrev after_block : List TypedTransaction → ℕ → Account
after_block txs a = record {
  nonce = if 11 == a then 1 else sent_count library a txs;
  balance = 1000000000;
}

-- every transaction uses its whole limit
abbrev list_builder : BuilderLibrary
list_builder = record {
  Builder = List TypedTransaction;
  Result = ℕ;
  Built = List TypedTransaction;
  gas_used = gas_of;
  transactions = λ txs. txs;
  add_transaction = λ tx txs. some (tx.gas_limit, txs ++ tx ∷ []);
  build = λ txs. some txs;
  accounts_after = after_block;
}

added_txs :
    (tx : TypedTransaction) (x : List TypedTransaction) (r : ℕ) (y : List TypedTransaction)
    → Path (Option (ℕ × List TypedTransaction)) (some (tx.gas_limit, x ++ tx ∷ [])) (some (r, y))
    → y ≡ x ++ tx ∷ []
added_txs tx x r y e = ground (arith, e)

list_builder-BuilderLaws : BuilderLaws list_builder
list_builder-BuilderLaws = record {
  gas_used_add = λ tx x r y e.
      let same = added_txs tx x r y e in
      subst (λ z. gas_of z ≤ gas_of x + tx.gas_limit) (sym same)
        (omega (arith, gas_of-append x tx));
  transactions_add = added_txs;
}

abbrev config : MiningConfig
config = record {
  min_gas_price = 5;
  block_gas_limit = 50000;
  minimal_transaction_fee = 21000;
  mempool_order = fifo;
  base_fee = some 7;
}

abbrev assembly : Assembly list_heap list_builder
assembly = record { queue = queue; builder = []; results = [] }

fill_block-Progress_example :
    (o : Assembled library list_heap list_builder config) × (fill_block library list_heap
        list_builder config assembly
      ≡ some o)
    × (rest : List TypedTransaction) × Progress list_heap list_builder config
        (stock list_heap queue)
        rest
        assembly
        (after o)
    × Stopped library fifo_comparator list_heap list_heap-HeapLaws list_builder config
        list_builder-BuilderLaws o
fill_block-Progress_example =
    fill_block-Progress library fifo_comparator list_heap list_heap-HeapLaws list_builder config
      list_builder-BuilderLaws assembly

config_laws : HeapLaws (comparator fifo (some 7)) list_heap
unfolding comparator
config_laws = list_heap-HeapLaws

pool_of_two-IsBySender : IsBySender library pool_of_two.state.pending
unfolding sender_of deserialize_transaction
pool_of_two-IsBySender = ((refl, (refl, tt)), tt)

after_block-raises :
    (txs : List TypedTransaction) (a : ℕ)
    → ((pending_for pool_of_two a ≡ []) × (queued_for pool_of_two a ≡ []))
      ⊎ ((after_block txs a).nonce ≡ (accounts a).nonce + sent_count library a txs)
after_block-raises txs a = elim (Bool-cases (7 == a)) [
  | inl mine ↦ let other : (11 == a) ≡ false = ground (arith, mine) in inr (rw other (omega arith))
  | inr other ↦ rw other (inl (refl, refl))
]

mine_block-MinesOrKeeps_example :
    Mines library
      (λ c. list_heap)
      list_builder
      list_builder-BuilderLaws
      config
      config_laws
      []
      pool_of_two
unfolding gas_of
mine_block-MinesOrKeeps_example =
    mine_block-MinesOrKeeps library (λ c. list_heap) list_builder list_builder-BuilderLaws config
      config_laws [] accounts pool_of_two refl (omega arith) pool_of_two-Inv pool_of_two-IsStored
      pool_of_two-IsBySender after_block-raises

-- here the search comes down to the least limit that is enough
estimate_of_60000 : binary_search_estimation (λ gas. leb 60000 gas) 22 30000 30000000 0 ≡ some 60000
unfolding binary_search_estimation new_estimation min_diff
estimate_of_60000 = refl
