-- ===== src/TransactionQueue/Queue.antt =====
-- The class TransactionQueue of TransactionQueue.ts over the heap of the package mnemonist, which
-- is a parameter: one heap for each comparator.
use mathlib.Core.List.{Perm}
use hardhat.Prelude.{
  ℕ, ◌≡◌, Bool, false, ◌==◌, List, [], ◌∷◌, Option, none, some, All, any, Outcome, ok, throws,
  if◌then◌else◌,
}
use hardhat.Prelude.Assoc.{get, put, delete}
use hardhat.Prelude.Int.{ℤ, pos, ◌≤ℤ◌}
use hardhat.Transactions.{TypedTransaction, TxLibrary, OrderedTransaction, sender_of}
use hardhat.TransactionQueue.Comparators.{MempoolOrder, comparator}

pub record HeapLibrary : Type 1 where
  pub Heap : Type 0
  pub empty : Heap
  pub push : OrderedTransaction → Heap → Heap
  pub pop : Heap → Option (OrderedTransaction × Heap)
  pub contents : Heap → List OrderedTransaction

-- What mnemonist documents of `new Heap(comparator)`: `push` adds an item, and `pop` takes out one
-- that the comparator puts before no other, and answers undefined on the empty heap only.
pub record HeapLaws (compare : OrderedTransaction → OrderedTransaction → ℤ) (h : HeapLibrary)
    : Type 0 where
  pub contents_empty : h.contents h.empty ≡ []
  pub contents_push :
      (a : OrderedTransaction) (x : h.Heap) → Perm (h.contents (h.push a x)) (a ∷ h.contents x)
  pub pop_none : (x : h.Heap) → h.pop x ≡ none → h.contents x ≡ []
  pub pop_some :
      (x : h.Heap) (a : OrderedTransaction) (y : h.Heap)
      → h.pop x ≡ some (a, y)
      → Perm (h.contents x) (a ∷ h.contents y)
  pub pop_first :
      (x : h.Heap) (a : OrderedTransaction) (y : h.Heap)
      → h.pop x ≡ some (a, y)
      → All (λ b. compare a b ≤ℤ pos 0) (h.contents y)

pub data QueueError : Type 0 where
  unrecoverable_sender remove_before_get : QueueError

-- `const [firstTx, ...remainingTxs] = txList`
abbrev pub Entry : Type 0
Entry = OrderedTransaction × List OrderedTransaction

-- The lists of a `Map<string, OrderedTransaction[]>` are not empty: `getPendingTransactions`
-- leaves empty ones out.
abbrev pub PendingTransactions : Type 0
PendingTransactions = List (ℕ × Entry)

pub record TransactionQueue (h : HeapLibrary) : Type 0 where
  pub queued : List (ℕ × List OrderedTransaction)
  pub heap : h.Heap
  pub last_sender : Option ℕ

-- `baseFee === undefined && txList.some((tx) => tx.data.type === 2)`
unfoldable pub lacks_base_fee : Option ℕ → List OrderedTransaction → Bool
lacks_base_fee none txs = any (λ o. o.tx.tx_type == 2) txs
lacks_base_fee (some base_fee) txs = false

module _ (h : HeapLibrary) where
  -- `_moveFirstEnqueuedTransactionToHeap`
  unfoldable pub move_first_to_heap : ℕ → TransactionQueue h → TransactionQueue h
  move_first_to_heap sender q = elim (get sender q.queued) [
    | none ↦ q
    | some [] ↦ q
    | some (first ∷ rest) ↦ record q {
      heap = h.push first q.heap;
      queued = put sender rest q.queued;
    }
  ]

  -- the loop of the constructor; `none` is its InternalError
  unfoldable pub fill :
      Option ℕ → PendingTransactions → TransactionQueue h → Option (TransactionQueue h)
  fill base_fee [] q = some q
  fill base_fee ((address, (first, rest)) ∷ entries) q =
      let filled =
        fill base_fee entries
          (record q { heap = h.push first q.heap; queued = put address rest q.queued }) in
      if lacks_base_fee base_fee (first ∷ rest) then none else filled

  unfoldable pub refill : TransactionQueue h → TransactionQueue h
  unfolding move_first_to_heap
  refill q = elim (q.last_sender) [ none ↦ q | some sender ↦ move_first_to_heap sender q ]

  unfoldable pub get_next_transaction :
      TxLibrary
      → TransactionQueue h
      → Outcome QueueError (TransactionQueue h) (Option TypedTransaction)
  get_next_transaction lib q =
      let q' = refill q in
      elim (h.pop q'.heap) [
        | none ↦ ok none q'
        | some (next, heap) ↦ elim (sender_of lib next.tx) [
          | none ↦ throws unrecoverable_sender (record q' { heap = heap })
          | some sender ↦ ok (some next.tx) (record q' { heap = heap; last_sender = some sender })
        ]
      ]

  unfoldable pub remove_last_sender_transactions :
      TransactionQueue h → Outcome QueueError (TransactionQueue h) (Unit {0})
  remove_last_sender_transactions q = elim (q.last_sender) [
    | none ↦ throws remove_before_get q
    | some sender ↦ ok tt (record q { queued = delete sender q.queued; last_sender = none })
  ]

-- `new TransactionQueue(pendingTransactions, mempoolOrder, baseFee)`
unfoldable pub init :
    (heaps : (OrderedTransaction → OrderedTransaction → ℤ) → HeapLibrary) (order : MempoolOrder)
    (base_fee : Option ℕ)
    → PendingTransactions
    → Option (TransactionQueue (heaps (comparator order base_fee)))
unfolding fill
init heaps order base_fee pending =
    let h = heaps (comparator order base_fee) in
    fill h base_fee pending (record { queued = []; heap = h.empty; last_sender = none })
