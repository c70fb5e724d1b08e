-- ===== src/TransactionQueue/Order.antt =====
-- What the queue hands out: each transaction once, always one that comes first among the next
-- transactions of the senders, and in the end all of them.
use mathlib.Core.List.{Perm, perm_middle}
use mathlib.Core.List.Perm
use hardhat.Prelude.{
  ℕ, ◌≡◌, refl, ◌==◌, List, [], ◌∷◌, ◌++◌, none, some, All, ok, throws, inl, inr, ◌⊎◌, Bool-cases,
  Option-cases, arith,
}
use hardhat.Prelude.Assoc.{get, put}
use hardhat.Prelude.Int.{ℤ, pos, ◌≤ℤ◌}
use hardhat.Transactions.{TxLibrary, OrderedTransaction, sender_of}
use hardhat.TransactionQueue.Queue.{
  HeapLibrary, HeapLaws, TransactionQueue, move_first_to_heap, refill, get_next_transaction,
  unrecoverable_sender,
}

-- all the transactions of a map's lists
unfoldable pub values : List (ℕ × List OrderedTransaction) → List OrderedTransaction
values [] = []
values ((k, l) ∷ m) = l ++ values m

values-put :
    (k : ℕ) (f : OrderedTransaction) (r : List OrderedTransaction)
    (m : List (ℕ × List OrderedTransaction))
    → get k m ≡ some (f ∷ r)
    → Perm (values m) (f ∷ values (put k r m))
unfolding values
values-put k f r [] e = cc
values-put k f r ((j, l) ∷ m) e = elim (Bool-cases (j == k)) [
  | inl same ↦
      let head : l ≡ f ∷ r = ground (arith, e, same) in rw (same, values, head) (Perm.refl _)
  | inr other ↦
      rw (other, values)
        (Perm.trans (Perm.append_left l (values-put k f r m (ground (arith, e, other))))
          (perm_middle l (values (put k r m))))
]

module _ (h : HeapLibrary) where
  -- the transactions that the queue still holds
  unfoldable pub waiting : TransactionQueue h → List OrderedTransaction
  waiting q = h.contents q.heap ++ values q.queued

module _ (compare : OrderedTransaction → OrderedTransaction → ℤ) (h : HeapLibrary)
    (laws : HeapLaws compare h) where
  pub move_first-perm :
      (s : ℕ) (q : TransactionQueue h) → Perm (waiting h q) (waiting h (move_first_to_heap h s q))
  unfolding move_first_to_heap waiting
  move_first-perm s q = elim (Option-cases (get s q.queued)) [
    | inl e ↦ rw (e, move_first_to_heap) (Perm.refl _)
    | inr ([], e) ↦ rw (e, move_first_to_heap) (Perm.refl _)
    | inr (f ∷ r, e) ↦
        rw (e, move_first_to_heap)
          (Perm.trans (Perm.append_left (h.contents q.heap) (values-put s f r q.queued e)) (
            Perm.trans (perm_middle (h.contents q.heap) (values (put s r q.queued))) (
              Perm.append_right (values (put s r q.queued))
                (Perm.symm (laws.contents_push f q.heap)))))
  ]

  pub refill-perm : (q : TransactionQueue h) → Perm (waiting h q) (waiting h (refill h q))
  unfolding refill waiting
  refill-perm q = elim (Option-cases q.last_sender) [
    | inl e ↦ rw (e, refill) (Perm.refl _)
    | inr (s, e) ↦ rw (e, refill) (move_first-perm s q)
  ]

  -- Over a heap that keeps what it documents: a call answers undefined only when nothing is ready, with the queue otherwise as the refill
  -- left it. Else it takes exactly one transaction out of what the queue holds, one that the
  -- comparator puts behind none of those that stay in the heap, and hands it out and remembers its
  -- sender, or throws where the sender cannot be recovered.
  pub get_next-cases :
      (lib : TxLibrary) (q : TransactionQueue h)
      → ((get_next_transaction h lib q ≡ ok none (refill h q))
          × (h.contents (refill h q).heap ≡ []))
        ⊎ ((o : OrderedTransaction) × (heap : h.Heap) × Perm
              (waiting h q)
              (o ∷ waiting h (record (refill h q) { heap = heap }))
            × All (λ b. compare o b ≤ℤ pos 0) (h.contents heap)
            × (((s : ℕ) × (sender_of lib o.tx ≡ some s)
                  × (get_next_transaction h lib q
                      ≡ ok (some o.tx) (record (refill h q) { heap = heap; last_sender = some s })))
                ⊎ ((sender_of lib o.tx ≡ none)
                    × (get_next_transaction h lib q
                        ≡ throws unrecoverable_sender (record (refill h q) { heap = heap })))))
  unfolding get_next_transaction waiting
  get_next-cases lib q = elim (Option-cases (h.pop (refill h q).heap)) [
    | inl empty ↦ inl (rw (empty, get_next_transaction) refl, laws.pop_none _ empty)
    | inr ((o, heap), popped) ↦ inr (
      o,
      heap,
      Perm.trans (refill-perm q)
          (Perm.append_right (values (refill h q).queued) (laws.pop_some _ o heap popped)),
      laws.pop_first _ o heap popped,
      elim (Option-cases (sender_of lib o.tx)) [
        | inl lost ↦ inr (lost, ground (arith, popped, lost))
        | inr (s, sent) ↦ inl (s, sent, ground (arith, popped, sent))
      ],
    )
  ]
