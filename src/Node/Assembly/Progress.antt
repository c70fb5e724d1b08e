-- ===== src/Node/Assembly/Progress.antt =====
-- What the steps of the loop of `_mineBlockWithPendingTxs` have in common.
use mathlib.Core.List.{Perm, map-append}
use mathlib.Core.List.Perm
use hardhat.Prelude.{
  ℕ, ◌+◌, ◌≤◌, ◌≡◌, refl, sym, true, ◌==◌, List, [], ◌∷◌, ◌++◌, none, map, All, All-append, length,
  length-append, arith, inl, inr, ◌⊎◌, Bool-cases, Option-cases, perm-rotate, perm-gather, ok,
}
use mathlib.Core.List.{append_assoc, append-nil}
use hardhat.Prelude.Assoc.{delete}
use hardhat.Transactions.{TypedTransaction, OrderedTransaction, tx_of}
use hardhat.TransactionQueue.Order.{values, waiting}
use hardhat.TransactionQueue.Queue.{HeapLibrary, TransactionQueue, remove_last_sender_transactions}
use hardhat.Node.Assembly.{BuilderLibrary, MiningConfig, Assembly, is_tx_minable}

values-delete :
    (k : ℕ) (m : List (ℕ × List OrderedTransaction))
    → (gone : List OrderedTransaction) × Perm (values m) (gone ++ values (delete k m))
unfolding values
values-delete k [] = ([], Perm.refl _)
values-delete k ((j, l) ∷ m) =
    let (gone, p) = values-delete k m in
    elim (Bool-cases (j == k)) [
      | inl same ↦
          (l ++ gone, rw (same, append_assoc l gone (values (delete k m))) (Perm.append_left l p))
      | inr other ↦ (
        gone,
        rw (other, values)
            (Perm.trans (Perm.append_left l p) (perm-rotate l gone (values (delete k m)))),
      )
    ]

module _ (h : HeapLibrary) where
  -- the transactions that the queue can still hand out
  abbrev pub stock : TransactionQueue h → List TypedTransaction
  stock q = map tx_of (waiting h q)

  -- dropping the last sender's transactions takes some out of the queue and adds none
  pub remove_last-stock :
      (q : TransactionQueue h)
      → ((q' : TransactionQueue h) × (remove_last_sender_transactions h q ≡ ok tt q')
          × (gone : List TypedTransaction) × Perm (stock q) (gone ++ stock q'))
        ⊎ (q.last_sender ≡ none)
  unfolding remove_last_sender_transactions waiting
  remove_last-stock q = elim (Option-cases q.last_sender) [
    | inl never ↦ inr never
    | inr (s, e) ↦
        let (gone, p) = values-delete s q.queued in
        let kept = values (delete s q.queued) in
        inl (
          record q { queued = delete s q.queued; last_sender = none },
          rw (e, remove_last_sender_transactions) refl,
          map tx_of gone,
          rw (sym (map-append tx_of gone (h.contents q.heap ++ kept))) (
              Perm.map tx_of (
                Perm.trans (Perm.append_left (h.contents q.heap) p)
                  (perm-rotate (h.contents q.heap) gone kept))),
        )
  ]

  module _ (b : BuilderLibrary) (config : MiningConfig) where
    -- From `s` to `s'`, of the transactions `before` some went into the block, some were left out,
    -- and `rest` is still to come. Those in the block are minable, there is one result for each,
    -- and the gas used stays within the limit.
    pub record Progress (before rest : List TypedTransaction) (s s' : Assembly h b) : Type 0 where
      pub included : List TypedTransaction
      pub left_out : List TypedTransaction
      pub balance : Perm before (included ++ (left_out ++ rest))
      pub added : b.transactions s'.builder ≡ b.transactions s.builder ++ included
      pub minable : All (λ tx. is_tx_minable config tx ≡ true) included
      pub counted : length s'.results ≡ length s.results + length included
      pub within :
          b.gas_used s.builder ≤ config.block_gas_limit
          → b.gas_used s'.builder ≤ config.block_gas_limit

    -- nothing but the queue changes
    pub idle :
        (before : List TypedTransaction) (s s' : Assembly h b)
        → s'.builder ≡ s.builder
        → s'.results ≡ s.results
        → (gone rest : List TypedTransaction) → Perm before (gone ++ rest)
        → Progress before rest s s'
    idle before s s' same_builder same_results gone rest p = record {
      included = [];
      left_out = gone;
      balance = p;
      added = rw same_builder (sym (append-nil _));
      minable = tt;
      counted = rw same_results (omega arith);
      within = λ w. rw same_builder w;
    }

    pub Progress-trans :
        {before mid rest : List TypedTransaction} {s s' s'' : Assembly h b}
        → Progress before mid s s'
        → Progress mid rest s' s''
        → Progress before rest s s''
    Progress-trans {before} {mid} {rest} {s} {s'} {s''} p q = record {
      included = p.included ++ q.included;
      left_out = p.left_out ++ q.left_out;
      balance = Perm.trans p.balance (
          Perm.trans (Perm.append_left p.included (Perm.append_left p.left_out q.balance))
            (perm-gather p.included p.left_out q.included q.left_out rest));
      added = rw (q.added, p.added) (append_assoc (b.transactions s.builder) p.included q.included);
      minable = All-append _ p.included q.included p.minable q.minable;
      counted = rw (length-append p.included q.included) (ground (arith, p.counted, q.counted));
      within = λ w. q.within (p.within w);
    }
