-- ===== src/Node/Assembly/Nonces.antt =====
-- How many transactions of one sender a block takes from the pool.
use mathlib.Core.List.{Perm}
use hardhat.Prelude.{
  ℕ, ◌+◌, ◌≤◌, ◌≡◌, refl, ap, ◌∙◌, Bool, ◌==◌, ==_iff, if◌then◌else◌, option_beq, List, [], ◌∷◌,
  ◌++◌, Option, none, some, map, count, count-append, count-perm, All, length, arith, inl, inr,
  Bool-cases, subst,
}
use hardhat.Prelude.Assoc.{get, HasUniqueKeys}
use hardhat.Transactions.{
  TypedTransaction, TxLibrary, OrderedTransaction, tx_of, deserialize_transaction, sender_of,
}
use hardhat.TxPool.State.{SenderTransactions, AddressToTransactions, TxPool, pending_for, or_empty}
use hardhat.Node.Assembly.Offered.{listed}

module _ (lib : TxLibrary) where
  abbrev is_from : ℕ → TypedTransaction → Bool
  is_from a tx = option_beq (sender_of lib tx) (some a)

  -- how many of the transactions have this sender
  abbrev pub sent_count : ℕ → List TypedTransaction → ℕ
  sent_count a txs = count (is_from a) txs

  -- every transaction is in the list of its sender
  abbrev pub IsBySender : AddressToTransactions → Type 0
  IsBySender m =
      All
        (λ (e : ℕ × SenderTransactions).
          All (λ t. sender_of lib (deserialize_transaction lib t).tx ≡ some e.0) e.1)
        m

  abbrev txs_of : List OrderedTransaction → List TypedTransaction
  txs_of l = map tx_of l

  txs_of-append : (l m : List OrderedTransaction) → txs_of (l ++ m) ≡ txs_of l ++ txs_of m
  txs_of-append [] m = refl
  txs_of-append (o ∷ l) m = ap (λ r. o.tx ∷ r) (txs_of-append l m)

  sent_count-own :
      (a k : ℕ) (ts : SenderTransactions)
      → All (λ t. sender_of lib (deserialize_transaction lib t).tx ≡ some k) ts
      → sent_count a (txs_of (map (deserialize_transaction lib) ts))
        ≡ (if k == a then length ts else 0)
  sent_count-own a k [] h = ground arith
  sent_count-own a k (t ∷ ts) h =
      let rest = sent_count-own a k ts h.1 in
      elim (Bool-cases (k == a)) [
        | inl e ↦ rw (h.0, e) (ground (arith, rest, e))
        | inr e ↦ rw (h.0, e) (ground (arith, rest, e))
      ]

  sent_count-listed :
      (a : ℕ) (m : AddressToTransactions)
      → HasUniqueKeys m
      → IsBySender m
      → sent_count a (txs_of (listed lib m)) ≡ length (or_empty (get a m))
  sent_count-listed a [] u h = refl
  sent_count-listed a ((k, ts) ∷ m) u h =
      let own = map (deserialize_transaction lib) ts in
      let split : sent_count a (txs_of (own ++ listed lib m))
          ≡ sent_count a (txs_of own) + sent_count a (txs_of (listed lib m)) =
        ap (sent_count a) (txs_of-append own (listed lib m))
        ∙ count-append (is_from a) (txs_of own) (txs_of (listed lib m)) in
      let first = sent_count-own a k ts h.0 in
      let rest = sent_count-listed a m u.1 h.1 in
      elim (Bool-cases (k == a)) [
        | inl e ↦
            let absent =
              subst (λ i. ◌≡◌ {A = Option SenderTransactions} (get i m) none) ((==_iff k a).0 e)
                u.0 in
            let none_left : sent_count a (txs_of (listed lib m)) ≡ 0 =
              rest ∙ ap (λ o. length (or_empty o)) absent in
            let own_count : sent_count a (txs_of own) ≡ length ts = rw e at first in
            rw e (omega (arith, split, own_count, none_left))
        | inr e ↦
            let own_count : sent_count a (txs_of own) ≡ 0 = rw e at first in
            rw e (omega (arith, split, own_count, rest))
      ]

  -- A block takes of one sender at most what the pool has pending for it.
  pub sent_count-taken :
      (a : ℕ) (p : TxPool) (taken left : List TypedTransaction)
      → HasUniqueKeys p.state.pending
      → IsBySender p.state.pending
      → Perm (txs_of (listed lib p.state.pending)) (taken ++ left)
      → sent_count a taken ≤ length (pending_for p a)
  sent_count-taken a p taken left u h perm = omega (
    arith,
    sent_count-listed a p.state.pending u h,
    count-perm (is_from a) perm,
    count-append (is_from a) taken left,
  )
