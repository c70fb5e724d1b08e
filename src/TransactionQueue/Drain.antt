-- ===== src/TransactionQueue/Drain.antt =====
-- Asked again and again, the queue hands out all that it holds.
use mathlib.Core.List.{Perm}
use mathlib.Core.List.Perm
use hardhat.Prelude.{
  ℕ, zero, suc, ◌<◌, ◌≡◌, refl, sym, ◌∙◌, subst, true, false, ◌||◌, List, [], ◌∷◌, map, Option,
  none, some, option_beq_iff, any, length, length-perm, any-perm, ok, throws, inl, inr, ◌⊎◌,
  Bool-cases, Option-cases, arith,
}
use hardhat.Prelude.Int.{ℤ}
use hardhat.Transactions.{TypedTransaction, TxLibrary, OrderedTransaction, tx_of, sender_of}
use hardhat.TransactionQueue.Order.{values, waiting, refill-perm}
use hardhat.TransactionQueue.Queue.{
  HeapLibrary, HeapLaws, TransactionQueue, refill, get_next_transaction,
}
use hardhat.TransactionQueue.Orderly.{
  sent_by, is_anonymous, IsOrderly, AllReady, refilled, values-empty,
}

module _ (lib : TxLibrary) where
  -- what `getNextTransaction` hands out, call after call, until it answers undefined
  unfoldable pub drain : (h : HeapLibrary) → ℕ → TransactionQueue h → Option (List TypedTransaction)
  drain h zero q = none
  drain h (suc fuel) q = elim (get_next_transaction h lib q) [
    | throws e q' ↦ none
    | ok none q' ↦ some []
    | ok (some tx) q' ↦
        let rest = drain h fuel q' in elim rest [ none ↦ none | some txs ↦ some (tx ∷ txs) ]
  ]

  module _ (compare : OrderedTransaction → OrderedTransaction → ℤ) (h : HeapLibrary)
      (laws : HeapLaws compare h) where
    abbrev pending_after : TransactionQueue h → h.Heap → ℕ → TransactionQueue h
    pending_after q heap s = record (refill h q) { heap = heap; last_sender = some s }

    -- one call: nothing is left, or one transaction goes out and the rest is as orderly
    abbrev Answers : TransactionQueue h → Type 0
    Answers q =
        ((get_next_transaction h lib q ≡ ok none (refill h q)) × (waiting h q ≡ []))
        ⊎ ((o : OrderedTransaction) × (q' : TransactionQueue h) × (get_next_transaction h lib q
              ≡ ok (some o.tx) q')
            × Perm (waiting h q) (o ∷ waiting h q')
            × IsOrderly lib h q')

    taken :
        (q : TransactionQueue h) (o : OrderedTransaction) (heap : h.Heap) (s : ℕ)
        → IsOrderly lib h q
        → AllReady lib compare h laws q
        → Perm (h.contents q.heap) (o ∷ h.contents heap)
        → sender_of lib o.tx ≡ some s
        → IsOrderly lib h (record q { heap = heap; last_sender = some s })
    taken q o heap s v ready p sent = record {
      filed = v.filed;
      unique = v.unique;
      ready = λ a f r found.
          let there : (sent_by lib a o || any (sent_by lib a) (h.contents heap)) ≡ true =
            sym (any-perm (sent_by lib a) p) ∙ ready a f r found in
          elim (Bool-cases (sent_by lib a o)) [
            | inl by ↦ inl (sym sent ∙ (option_beq_iff (sender_of lib o.tx) (some a)).0 by)
            | inr other ↦ inr (ground (arith, there, other))
          ];
      known =
          let unknown : (is_anonymous lib o || any (is_anonymous lib) (h.contents heap)) ≡ false =
            sym (any-perm (is_anonymous lib) p) ∙ v.known in
          ground (arith, unknown);
    }

    answers : (q : TransactionQueue h) → IsOrderly lib h q → Answers q
    unfolding get_next_transaction waiting
    answers q v =
        let fresh = refilled lib compare h laws q v in
        let next = refill h q in
        elim (Option-cases (h.pop next.heap)) [
          | inl empty ↦
              let bare = laws.pop_none _ empty in
              let nothing =
                values-empty next.queued fresh.0.unique
                  (λ a f r found. unready next a f r bare (fresh.1 a f r found)) in
              let gone : waiting h next ≡ [] = ground (arith, bare, nothing) in
              inl (
                rw (empty, get_next_transaction) refl,
                Perm.eq-nil (subst (λ l. Perm (waiting h q) l) gone (refill-perm compare h laws q)),
              )
          | inr ((o, heap), popped) ↦
              let p = laws.pop_some _ o heap popped in
              elim (Option-cases (sender_of lib o.tx)) [
                | inl lost ↦
                    let unknown : (is_anonymous lib o || any (is_anonymous lib) (h.contents heap))
                        ≡ false =
                      sym (any-perm (is_anonymous lib) p) ∙ fresh.0.known in
                    absurd (ground (arith, unknown, lost))
                | inr (s, sent) ↦ inr (
                  o,
                  pending_after q heap s,
                  rw (popped, get_next_transaction, sent) refl,
                  Perm.trans (refill-perm compare h laws q)
                      (Perm.append_right (values next.queued) p),
                  taken next o heap s fresh.0 fresh.1 p sent,
                )
              ]
        ]
      where
        unready :
            (q : TransactionQueue h) (a : ℕ) (f : OrderedTransaction) (r : List OrderedTransaction)
            → h.contents q.heap ≡ []
            → any (sent_by lib a) (h.contents q.heap) ≡ true
            → ⊥
        unready q a f r bare there = ground (arith, bare, there)

    -- with fuel for one call more than the transactions that wait
    pub drain-waiting :
        (fuel : ℕ) (q : TransactionQueue h)
        → IsOrderly lib h q
        → length (waiting h q) < fuel
        → (txs : List TypedTransaction) × (drain h fuel q ≡ some txs)
          × Perm (map tx_of (waiting h q)) txs
    unfolding drain
    drain-waiting zero q v enough = absurd (omega arith)
    drain-waiting (suc fuel) q v enough = elim (answers q v) [
      | inl (e, nothing) ↦ ([], rw (e, drain) refl, rw nothing (Perm.refl _))
      | inr (o, q', e, p, v') ↦
          let fewer : length (waiting h q) ≡ suc (length (waiting h q')) = length-perm p in
          let (txs, run, rest) = drain-waiting fuel q' v' (omega arith) in
          (o.tx ∷ txs, ground (arith, e, run), Perm.trans (Perm.map tx_of p) (Perm.cons o.tx rest))
    ]
