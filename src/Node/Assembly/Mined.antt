-- ===== src/Node/Assembly/Mined.antt =====
-- Mining a block with the pending transactions, from the pool to the pool.
use mathlib.Core.List.{Perm, append-nil}
use mathlib.Core.List.Perm
use hardhat.Prelude.{
  ℕ, ◌+◌, ◌≤◌, ◌≡◌, ◌⊎◌, refl, sym, ap, ◌∙◌, subst, true, List, [], ◌++◌, none, some, map, All,
  length, arith, inl, inr, Option-cases, Outcome-cases, Outcome, after, ok, throws,
}
use hardhat.Prelude.Int.{ℤ}
use hardhat.Transactions.{TypedTransaction, TxLibrary, OrderedTransaction, tx_of}
use hardhat.TransactionQueue.Comparators.{comparator}
use hardhat.TransactionQueue.Order.{waiting, values}
use hardhat.TransactionQueue.Queue.{HeapLibrary, HeapLaws, TransactionQueue, init}
use hardhat.TxPool.Invariant.{Inv}
use hardhat.TxPool.Maintenance.{IsStored, HasAdvanced, update_pending_and_queued-Inv}
use hardhat.TxPool.State.{Account, TxPool, pending_for, queued_for}
use hardhat.Node.Assembly.{
  BuilderLibrary, BuilderLaws, MiningConfig, MineError, no_base_fee, vm_error, Assembly,
  is_tx_minable, limited, fill_block, mine_block_with_pending_txs,
}
use hardhat.Node.Assembly.Limits.{fill_block-Progress}
use hardhat.TransactionQueue.Filled.{entries_of, IsFresh-empty, fill-waiting}
use hardhat.Node.Assembly.Offered.{offer, listed, offer-listed, offer-HasUniqueKeys}
use hardhat.Node.Assembly.Nonces.{sent_count, IsBySender, sent_count-taken}
use hardhat.Node.Assembly.Progress.{Progress, stock}

module _ (lib : TxLibrary) (heaps : (OrderedTransaction → OrderedTransaction → ℤ) → HeapLibrary)
    (b : BuilderLibrary) (builder_laws : BuilderLaws b) (config : MiningConfig)
    (laws : let c = comparator config.mempool_order config.base_fee in HeapLaws c (heaps c)) where
  -- all that the pool has pending
  abbrev pub pending_txs : TxPool → List TypedTransaction
  pending_txs p = map tx_of (listed lib p.state.pending)

  init-stock :
      (p : TxPool) (q : TransactionQueue (heaps (comparator config.mempool_order config.base_fee)))
      → IsStored lib p
      → init heaps config.mempool_order config.base_fee (offer lib p.state.pending) ≡ some q
      → Perm (pending_txs p) (stock (heaps (comparator config.mempool_order config.base_fee)) q)
  unfolding init waiting values
  init-stock p q stored e =
      let c = comparator config.mempool_order config.base_fee in
      let h = heaps c in
      let start : TransactionQueue h = record { queued = []; heap = h.empty; last_sender = none } in
      let l = offer lib p.state.pending in
      let filled =
        fill-waiting c h laws config.base_fee l start q
          (offer-HasUniqueKeys lib p.state.pending stored.unique_pending) (IsFresh-empty l) e in
      let nothing : waiting h start ≡ [] = rw (laws.contents_empty) refl in
      let same : entries_of l ++ waiting h start ≡ listed lib p.state.pending =
        ap (λ z. entries_of l ++ z) nothing
        ∙ append-nil (entries_of l)
        ∙ offer-listed lib p.state.pending in
      Perm.map tx_of (Perm.symm (subst (λ z. Perm (waiting h q) z) same filled))

  -- A block that was mined, for the pool that it was mined from: its transactions are minable and
  -- among the pending ones, each at most once, its gas is within the limit, there is one result for
  -- each transaction, and the pool is in order for the accounts after it.
  pub record IsMined (p : TxPool) (block : b.Built) (results : List b.Result) (p' : TxPool)
      : Type 0 where
    pub final : b.Builder
    pub left : List TypedTransaction
    pub built : b.build final ≡ some block
    pub within : b.gas_used final ≤ p.state.block_gas_limit
    pub minable : All (λ tx. is_tx_minable (limited config p) tx ≡ true) (b.transactions final)
    pub balance : Perm (pending_txs p) (b.transactions final ++ left)
    pub counted : length results ≡ length (b.transactions final)
    pub ordered : Inv lib (b.accounts_after final) p'

  -- a throw leaves the pool as it was
  abbrev pub MinesOrKeeps : TxPool → Outcome MineError TxPool (b.Built × List b.Result) → Type 0
  MinesOrKeeps p (ok (block, results) p') = IsMined p block results p'
  MinesOrKeeps p (throws e p') = p' ≡ p

  -- What the virtual machine documents of an account that sends transactions: running a block raises
  -- its nonce by one for each of its transactions. Nothing is asked of the accounts that have no
  -- transaction in the pool, so that the block can make contracts.
  abbrev RaisesNonces : (ℕ → Account) → TxPool → Type 0
  RaisesNonces accounts p =
      (x : b.Builder) (a : ℕ)
      → ((pending_for p a ≡ []) × (queued_for p a ≡ []))
        ⊎ ((b.accounts_after x a).nonce ≡ (accounts a).nonce + sent_count lib a (b.transactions x))

  raised-HasAdvanced :
      (accounts : ℕ → Account) (p : TxPool) (x : b.Builder) (left : List TypedTransaction)
      → IsStored lib p
      → IsBySender lib p.state.pending
      → RaisesNonces accounts p
      → Perm (pending_txs p) (b.transactions x ++ left)
      → HasAdvanced accounts (b.accounts_after x) p
  raised-HasAdvanced accounts p x left stored by_sender raises balance a =
      let bound =
        sent_count-taken lib a p (b.transactions x) left stored.unique_pending by_sender balance in
      elim (raises x a) [
        | inl nothing_there ↦ inl nothing_there
        | inr raised ↦ inr (omega (arith, raised), omega (arith, raised, bound))
      ]

  abbrev pub Mines : b.Builder → TxPool → Type 0
  Mines builder p =
      (r : Outcome MineError TxPool (b.Built × List b.Result)) × (mine_block_with_pending_txs lib
          heaps b config builder p
        ≡ some r)
      × MinesOrKeeps p r

  abbrev start_with :
      b.Builder
      → (c : OrderedTransaction → OrderedTransaction → ℤ) → TransactionQueue (heaps c)
      → Assembly (heaps c) b
  start_with builder c q = record { queue = q; builder = builder; results = [] }

  -- from a loop that has ended to the pool behind the block
  finish :
      (builder : b.Builder) (accounts : ℕ → Account) (p : TxPool)
      → let c = comparator config.mempool_order config.base_fee in
        (q : TransactionQueue (heaps c)) (s : Assembly (heaps c) b) (rest : List TypedTransaction)
        → b.transactions builder ≡ []
        → b.gas_used builder ≤ p.state.block_gas_limit
        → Inv lib accounts p
        → IsStored lib p
        → IsBySender lib p.state.pending
        → RaisesNonces accounts p
        → init heaps config.mempool_order config.base_fee (offer lib p.state.pending) ≡ some q
        → fill_block lib (heaps c) b (limited config p) (start_with builder c q) ≡ some (ok tt s)
        → Progress
            (heaps c)
            b
            (limited config p)
            (stock (heaps c) q)
            rest
            (start_with builder c q)
            s
        → Mines builder p
  unfolding mine_block_with_pending_txs
  finish builder accounts p q s rest bare low v stored by_sender raises queue_made run so_far =
      let left = so_far.left_out ++ rest in
      let content : b.transactions s.builder ≡ so_far.included =
        ground (arith, so_far.added, bare) in
      let balance : Perm (pending_txs p) (b.transactions s.builder ++ left) =
        subst (λ z. Perm (pending_txs p) (z ++ left)) (sym content)
          (Perm.trans (init-stock p q stored queue_made) so_far.balance) in
      elim (Option-cases (b.build s.builder)) [
        | inl failed ↦ (
          throws vm_error p,
          rw (queue_made, mine_block_with_pending_txs, run, failed) refl,
          refl,
        )
        | inr (block, built) ↦
            let (p', updated, ordered) =
              update_pending_and_queued-Inv lib accounts (b.accounts_after s.builder) p v stored
                (raised-HasAdvanced accounts p s.builder left stored by_sender raises balance) in
            (
              ok (block, s.results) p',
              rw (queue_made, mine_block_with_pending_txs, run, built, updated) refl,
              record {
                final = s.builder;
                left = left;
                built = built;
                within = so_far.within low;
                minable =
                    subst (All (λ tx. is_tx_minable (limited config p) tx ≡ true)) (sym content)
                      so_far.minable;
                balance = balance;
                counted = ground (arith, so_far.counted, ap length content);
                ordered = ordered;
              },
            )
      ]

  -- Over a heap and a builder that keep what they document, from an empty builder within the pool's
  -- block gas limit: if the pool is in order, no sender has two entries in it, each transaction is in the list
  -- of its sender, what it stores is what serializing it again gives, and running a block raises the
  -- nonce of each account that has transactions in the pool by the number of its transactions in the
  -- block, then mining a block ends. Either it answers a block, built of minable pending transactions
  -- of the pool, each at most once, with the gas within the limit and one result for each
  -- transaction, and the pool is in order for the accounts after the block; or it throws and the pool
  -- is unchanged.
  pub mine_block-MinesOrKeeps :
      (builder : b.Builder) (accounts : ℕ → Account) (p : TxPool)
      → b.transactions builder ≡ []
      → b.gas_used builder ≤ p.state.block_gas_limit
      → Inv lib accounts p
      → IsStored lib p
      → IsBySender lib p.state.pending
      → RaisesNonces accounts p
      → Mines builder p
  unfolding mine_block_with_pending_txs
  mine_block-MinesOrKeeps builder accounts p bare low v stored by_sender raises =
      let c = comparator config.mempool_order config.base_fee in
      let h = heaps c in
      elim (Option-cases
        (init heaps config.mempool_order config.base_fee (offer lib p.state.pending))) [
          | inl lacks ↦ (throws no_base_fee p, rw (lacks, mine_block_with_pending_txs) refl, refl)
          | inr (q, queue_made) ↦
              let (o, run, rest, progress, stopped) =
                fill_block-Progress lib c h laws b (limited config p) builder_laws
                  (start_with builder c q) in
              elim (Outcome-cases o) [
                | inr (e, s, failed) ↦ (
                  throws e p,
                  rw (queue_made, mine_block_with_pending_txs, run, failed) refl,
                  refl,
                )
                | inl (u, s, filled) ↦
                    finish builder accounts p q s rest bare low v stored by_sender raises queue_made
                      (run ∙ ap some filled)
                      (subst
                        (λ z.
                          Progress h b (limited config p) (stock h q) rest (start_with builder c q)
                            (after z))
                        filled progress)
              ]
        ]
