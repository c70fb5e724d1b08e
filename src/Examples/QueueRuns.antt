-- ===== src/Examples/QueueRuns.antt =====
-- The theorems on the queue, over a heap that is a list whose first least item is popped.
use mathlib.Core.List.{Perm}
use mathlib.Core.List.Perm
use mathlib.Core.Option.{some-injective}
use hardhat.Prelude.{
  ℕ, ◌≤◌, ◌≡◌, refl, sym, subst, ◌∙◌, ltb, if◌then◌else◌, Bool-cases, map, List, [], ◌∷◌, Option,
  none, some, All, All-map, ok, arith, inl, inr, ◌⊎◌,
}
use hardhat.Examples.Libraries.{library, transfer, impersonated}
use hardhat.Transactions.{TypedTransaction, OrderedTransaction, tx_of, sender_of}
use hardhat.TransactionQueue.Comparators.{fifo, comparator, fifo_comparator}
use hardhat.TransactionQueue.Filled.{entries_of, init-drains}
use hardhat.TransactionQueue.Drain.{drain}
use hardhat.TransactionQueue.Queue.{
  HeapLibrary, HeapLaws, TransactionQueue, PendingTransactions, init, fill, lacks_base_fee,
  move_first_to_heap, refill, get_next_transaction,
}

abbrev pub Items : Type 0
Items = List OrderedTransaction

unfoldable pub pop_least : Items → Option (OrderedTransaction × Items)
pop_least [] = none
pop_least (x ∷ xs) =
    let rest = pop_least xs in
    elim rest [
      | none ↦ some (x, [])
      | some (y, ys) ↦ if ltb y.order_id x.order_id then some (y, x ∷ ys) else some (x, y ∷ ys)
    ]

-- a popped item is taken out of the list, and no other one was added before it
IsPopped : Items → OrderedTransaction → Items → Type 0
IsPopped xs y ys = Perm xs (y ∷ ys) × All (λ b. y.order_id ≤ b.order_id) ys

pop_least-cases :
    (xs : Items)
    → ((pop_least xs ≡ none) × (xs ≡ []))
      ⊎ ((y : OrderedTransaction) × (ys : Items) × (pop_least xs ≡ some (y, ys)) × IsPopped xs y ys)
unfolding pop_least IsPopped
pop_least-cases [] = inl (refl, refl)
pop_least-cases (x ∷ xs) = elim (pop_least-cases xs) [
  | inl (e, empty) ↦ inr (x, [], rw e refl, (rw empty (Perm.refl _), tt))
  | inr (y, ys, e, (p, least)) ↦ elim (Bool-cases (ltb y.order_id x.order_id)) [
    | inl less ↦ inr (
      y,
      x ∷ ys,
      ground (arith, e, less),
      (Perm.trans (Perm.cons x p) (Perm.swap _ _ _), (ground (arith, less), least)),
    )
    | inr more ↦ inr (
      x,
      y ∷ ys,
      ground (arith, e, more),
      (
        Perm.cons x p,
        (
          ground (arith, more),
          All-map (λ b (l : y.order_id ≤ b.order_id). ground (arith, more)) ys least,
        ),
      ),
    )
  ]
]

abbrev pub list_heap : HeapLibrary
list_heap = record {
  Heap = Items;
  empty = [];
  push = λ x xs. x ∷ xs;
  pop = pop_least;
  contents = λ xs. xs;
}

popped :
    (xs : Items) (a : OrderedTransaction) (r : Items) → pop_least xs ≡ some (a, r) → IsPopped xs a r
popped xs a r e = elim (pop_least-cases xs) [
  | inl (e', empty) ↦ cc
  | inr (y, ys, e', is_popped) ↦
      let same = some-injective _ _ (sym e' ∙ e) in subst (λ q. IsPopped xs q.0 q.1) same is_popped
]

pub list_heap-HeapLaws : HeapLaws fifo_comparator list_heap
unfolding fifo_comparator IsPopped
list_heap-HeapLaws = record {
  contents_empty = refl;
  contents_push = λ a x. Perm.refl _;
  pop_none =
      λ x e. elim (pop_least-cases x) [ inl (e', empty) ↦ empty | inr (y, ys, e', is_popped) ↦ cc ];
  pop_some = λ x a y e. (popped x a y e).0;
  pop_first =
      λ x a y e. All-map (λ b (l : a.order_id ≤ b.order_id). ground arith) y (popped x a y e).1;
}

abbrev pub ordered : ℕ → TypedTransaction → OrderedTransaction
ordered n tx = record { order_id = n; tx = tx }

-- the impersonated sender's transaction was added first
abbrev pub queue : TransactionQueue list_heap
queue = record {
  queued = (7, ordered 5 (transfer 1 10) ∷ []) ∷ (9, []) ∷ [];
  heap = ordered 4 (transfer 0 10) ∷ ordered 2 impersonated ∷ [];
  last_sender = none;
}

first_is_out :
    get_next_transaction list_heap library queue
    ≡ ok
        (some impersonated)
        (record queue { heap = ordered 4 (transfer 0 10) ∷ []; last_sender = some 9 })
unfolding get_next_transaction refill pop_least sender_of
first_is_out = refl

-- two transfers of one sender, and the impersonated sender's transaction
abbrev pending : PendingTransactions
pending =
    (7, (ordered 4 (transfer 0 10), ordered 5 (transfer 1 10) ∷ []))
    ∷ (9, (ordered 2 impersonated, []))
    ∷ []

abbrev made : TransactionQueue list_heap
made = record {
  queued = (7, ordered 5 (transfer 1 10) ∷ []) ∷ (9, []) ∷ [];
  heap = ordered 2 impersonated ∷ ordered 4 (transfer 0 10) ∷ [];
  last_sender = none;
}

init-drains_example :
    (txs : List TypedTransaction) × (drain library list_heap 4 made ≡ some txs)
    × Perm (map tx_of (entries_of pending)) txs
unfolding comparator init fill lacks_base_fee sender_of
init-drains_example =
    init-drains (λ c. list_heap) fifo (some 7) library pending list_heap-HeapLaws made
      (refl, (refl, tt)) ((refl, (refl, tt)), ((refl, tt), tt)) refl

least_first :
    drain library list_heap 4 made ≡ some (impersonated ∷ transfer 0 10 ∷ transfer 1 10 ∷ [])
unfolding drain get_next_transaction refill move_first_to_heap pop_least sender_of
least_first = refl
