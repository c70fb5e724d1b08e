-- ===== src/TransactionQueue/Filled.antt =====
-- The queue that the constructor makes holds what it was given, ready to be handed out.
use mathlib.Core.List.{Perm, append_assoc, perm_middle}
use mathlib.Core.List.Perm
use mathlib.Core.Option.{some-injective}
use hardhat.Prelude.{
  ℕ, suc, ◌≡◌, refl, ap, ◌∙◌, subst, ◌==◌, List, [], ◌∷◌, ◌++◌, Option, none, some, map, All, arith,
  inl, inr, Bool-cases, perm-rotate, length, length-perm,
}
use mathlib.Core.List.{append-nil}
use hardhat.Prelude.Assoc.{get, put, get-put_ne, HasUniqueKeys}
use hardhat.Prelude.Int.{ℤ}
use hardhat.Transactions.{TypedTransaction, TxLibrary, OrderedTransaction, tx_of, sender_of}
use hardhat.TransactionQueue.Comparators.{MempoolOrder, comparator}
use hardhat.TransactionQueue.Drain.{drain, drain-waiting}
use hardhat.TransactionQueue.Orderly.{IsOrderly, pushed, pushed-orderly}
use hardhat.TransactionQueue.Order.{values, waiting}
use hardhat.TransactionQueue.Queue.{
  HeapLibrary, HeapLaws, TransactionQueue, PendingTransactions, Entry, lacks_base_fee, fill, init,
}

-- the transactions of the queue's constructor
abbrev pub entries_of : PendingTransactions → List OrderedTransaction
entries_of [] = []
entries_of ((a, (f, r)) ∷ l) = f ∷ (r ++ entries_of l)

-- the senders of the entries have no list yet
abbrev pub IsFresh : PendingTransactions → List (ℕ × List OrderedTransaction) → Type 0
IsFresh l m = All (λ (e : ℕ × Entry). get e.0 m ≡ none) l

pub IsFresh-empty : (l : PendingTransactions) → IsFresh l []
IsFresh-empty [] = tt
IsFresh-empty ((a, (f, r)) ∷ l) = (refl, IsFresh-empty l)

IsFresh-put :
    (a : ℕ) (r : List OrderedTransaction) (l : PendingTransactions)
    (m : List (ℕ × List OrderedTransaction))
    → get a l ≡ none
    → IsFresh l m
    → IsFresh l (put a r m)
IsFresh-put a r [] m e fresh = tt
IsFresh-put a r ((k, (f, t)) ∷ l) m e fresh = elim (Bool-cases (k == a)) [
  | inl same ↦ absurd (ground (arith, e, same))
  | inr other ↦ (
    get-put_ne a k r m (ground (arith, other)) ∙ fresh.0,
    IsFresh-put a r l m (ground (arith, e, other)) fresh.1,
  )
]

values-put_new :
    (a : ℕ) (r : List OrderedTransaction) (m : List (ℕ × List OrderedTransaction))
    → get a m ≡ none
    → Perm (values (put a r m)) (r ++ values m)
unfolding values
values-put_new a r [] e = Perm.refl _
values-put_new a r ((k, l) ∷ m) e = elim (Bool-cases (k == a)) [
  | inl same ↦ absurd (ground (arith, e, same))
  | inr other ↦
      rw (other, values)
        (Perm.trans (Perm.append_left l (values-put_new a r m (ground (arith, e, other))))
          (perm-rotate l r (values m)))
]

-- every list of the entries is its sender's
abbrev pub AreFiled : TxLibrary → PendingTransactions → Type 0
AreFiled lib l = All (λ (e : ℕ × Entry). All (λ o. sender_of lib o.tx ≡ some e.0) (e.1.0 ∷ e.1.1)) l

module _ (compare : OrderedTransaction → OrderedTransaction → ℤ) (h : HeapLibrary)
    (laws : HeapLaws compare h) where
  queued-pushed :
      (q : TransactionQueue h) (a : ℕ) (f : OrderedTransaction) (r : List OrderedTransaction)
      → get a q.queued ≡ none
      → Perm
          (waiting h (record q { heap = h.push f q.heap; queued = put a r q.queued }))
          (f ∷ (r ++ waiting h q))
  unfolding waiting
  queued-pushed q a f r e =
      Perm.trans (Perm.append (laws.contents_push f q.heap) (values-put_new a r q.queued e))
        (Perm.cons f (perm-rotate (h.contents q.heap) r (values q.queued)))

  pub fill-waiting :
      (base_fee : Option ℕ) (l : PendingTransactions) (q q' : TransactionQueue h)
      → HasUniqueKeys l
      → IsFresh l q.queued
      → fill h base_fee l q ≡ some q'
      → Perm (waiting h q') (entries_of l ++ waiting h q)
  unfolding fill waiting
  fill-waiting base_fee [] q q' u fresh e =
      subst (λ z. Perm (waiting h z) (waiting h q)) (some-injective q q' e) (Perm.refl _)
  fill-waiting base_fee ((a, (f, r)) ∷ l) q q' u fresh e =
      elim (Bool-cases (lacks_base_fee base_fee (f ∷ r))) [
        | inl lacks ↦ absurd (ground (arith, e, lacks))
        | inr fine ↦
            let q₁ : TransactionQueue h = record q {
              heap = h.push f q.heap;
              queued = put a r q.queued;
            } in
            let later =
              fill-waiting base_fee l q₁ q' u.1 (IsFresh-put a r l q.queued u.0 fresh.1)
                (ground (arith, e, fine)) in
            Perm.trans later (
              rw (append_assoc r (entries_of l) (waiting h q), waiting)
                (Perm.trans (Perm.append_left (entries_of l) (queued-pushed q a f r fresh.0)) (
                  Perm.trans (perm_middle (entries_of l) (r ++ waiting h q))
                    (Perm.cons f (perm-rotate (entries_of l) r (waiting h q))))))
      ]

  fill-IsOrderly :
      (lib : TxLibrary) (base_fee : Option ℕ) (l : PendingTransactions) (q q' : TransactionQueue h)
      → AreFiled lib l
      → q.last_sender ≡ none
      → IsOrderly lib h q
      → fill h base_fee l q ≡ some q'
      → IsOrderly lib h q'
  unfolding fill
  fill-IsOrderly lib base_fee [] q q' filed idle v e =
      subst (IsOrderly lib h) (some-injective q q' e) v
  fill-IsOrderly lib base_fee ((a, (f, r)) ∷ l) q q' filed idle v e =
      elim (Bool-cases (lacks_base_fee base_fee (f ∷ r))) [
        | inl lacks ↦ absurd (ground (arith, e, lacks))
        | inr fine ↦
            fill-IsOrderly lib base_fee l (pushed lib compare h laws q a f r) q' filed.1 idle
              (pushed-orderly lib compare h laws q a f r v
                (λ b last. absurd (ground (arith, idle, last))) filed.0).0
              (ground (arith, e, fine))
      ]

-- Over a heap that keeps what it documents: a queue that the constructor makes of pending lists,
-- one for each sender and each filed under the sender of its transactions, hands out every one of
-- those transactions exactly once when it is asked again and again, and then answers undefined.
pub init-drains :
    (heaps : (OrderedTransaction → OrderedTransaction → ℤ) → HeapLibrary) (order : MempoolOrder)
    (base_fee : Option ℕ) (lib : TxLibrary) (l : PendingTransactions)
    → let c = comparator order base_fee in
      (laws : HeapLaws c (heaps c)) (q : TransactionQueue (heaps c))
      → HasUniqueKeys l
      → AreFiled lib l
      → init heaps order base_fee l ≡ some q
      → (txs : List TypedTransaction) × (drain lib (heaps c) (suc (length (entries_of l))) q
          ≡ some txs)
        × Perm (map tx_of (entries_of l)) txs
unfolding init
init-drains heaps order base_fee lib l laws q unique filed e =
    let c = comparator order base_fee in
    let h = heaps c in
    let start : TransactionQueue h = record { queued = []; heap = h.empty; last_sender = none } in
    let nothing : waiting h start ≡ [] = nothing_waits h start laws.contents_empty refl in
    let orderly : IsOrderly lib h start = record {
      filed = λ a t found. absurd (ground (arith, found));
      unique = tt;
      ready = λ a f r found. absurd (ground (arith, found));
      known = rw (laws.contents_empty) refl;
    } in
    let held : Perm (waiting h q) (entries_of l) =
      subst (Perm (waiting h q)) (ap (λ w. entries_of l ++ w) nothing ∙ append-nil (entries_of l))
        (fill-waiting c h laws base_fee l start q unique (IsFresh-empty l) e) in
    let (txs, run, handed_out) =
      drain-waiting lib c h laws (suc (length (entries_of l))) q
        (fill-IsOrderly c h laws lib base_fee l start q filed refl orderly e)
        (omega (arith, length-perm held)) in
    (txs, run, Perm.trans (Perm.map tx_of (Perm.symm held)) handed_out)
  where
    nothing_waits :
        (h : HeapLibrary) (q : TransactionQueue h)
        → h.contents q.heap ≡ []
        → q.queued ≡ []
        → waiting h q ≡ []
    nothing_waits h q e f = unfold waiting values in rw (e, f) refl
