-- ===== src/TxPool/Filed.antt =====
-- Where `addTransaction` puts a transaction.
use mathlib.Core.List.{Perm, append_assoc}
use mathlib.Core.Option.{some-injective}
use hardhat.Prelude.{
  ℕ, ◌+◌, ◌≤◌, ◌<◌, ◌≡◌, refl, sym, ap, ◌∙◌, subst, ◌==◌, ltb, List, [], ◌∷◌, ◌++◌, some, ◌⊎◌, inl,
  inr, set, arith, false, Bool-cases, ok, throws,
}
use hardhat.Prelude.Assoc.{get, put, get-put_self, get-put_ne}
use hardhat.Transactions.{TypedTransaction, TxLibrary, SerializedTransaction, sender_of}
use hardhat.TxPool.Add.{
  add_pending_transaction, add_queued_transaction, add_transaction, take_order_id,
}
use hardhat.TxPool.Cases.{
  Replaces, Absent, new_serialized, replaced_pending, replaced_queued, appended, appended_queued,
  add_pending-cases, add_queued-cases,
}
use hardhat.TxPool.Moves.{run, reorganize-run, run-append-rest, sort_by-perm}
use hardhat.TxPool.Order.{last-push}
use hardhat.TxPool.Reorganize.{sort_by, reorganize_transactions_lists}
use hardhat.TxPool.State.{
  Account, SenderTransactions, TxPool, PoolError, Result, pending_for, queued_for, or_empty,
  delete_by_hash, hash_of, nonce_of, get_next_pending_nonce,
}
use hardhat.TxPool.Validation.{IsAcceptable, add_transaction-cases}

-- what comes back is the pending list with the moved ones behind it, and the others
reorganize-Perm :
    {A : Type 0} (nonce : A → ℕ) (old queued pending left : List A) (t : A)
    → reorganize_transactions_lists nonce (old ++ t ∷ []) queued ≡ some (pending, left)
    → (moved : List A) × (pending ≡ old ++ t ∷ moved) × Perm (moved ++ left) queued
reorganize-Perm nonce old queued pending left t e =
    let next = nonce t + 1 in
    let sorted = sort_by nonce queued in
    let both =
      some-injective _ _
        (sym (reorganize-run nonce (old ++ t ∷ []) queued t (last-push old t)) ∙ e) in
    (
      run nonce next sorted,
      sym (ap (λ l. l.0) both) ∙ append_assoc old (t ∷ []) (run nonce next sorted),
      subst (λ l. Perm (run nonce next sorted ++ l) queued) (ap (λ l. l.1) both)
          (subst (λ l. Perm l queued) (sym (run-append-rest nonce next sorted))
            (sort_by-perm nonce queued)),
    )

module _ (lib : TxLibrary) (sender : ℕ) (tx : TypedTransaction) (p : TxPool) where
  -- The pending list has it in the place of the one with its nonce, which it outbids, or behind all
  -- others; then executable ones of the queue follow it, and the rest stays queued.
  abbrev pub HoldsPending : TxPool → Type 0
  HoldsPending q =
      let new = new_serialized lib sender tx p in
      ((i : ℕ) × (existing : SerializedTransaction) × Replaces lib (pending_for p sender) i existing
          tx
        × (pending_for q sender ≡ set (pending_for p sender) i new)
        × (queued_for q sender ≡ queued_for p sender))
      ⊎ (Absent lib (pending_for p sender) tx
          × (moved : SenderTransactions) × (pending_for q sender
              ≡ pending_for p sender ++ new ∷ moved)
          × Perm (moved ++ queued_for q sender) (queued_for p sender))

  -- The queue has it in the place of the one with its nonce, which it outbids, or at its end.
  abbrev pub HoldsQueued : TxPool → Type 0
  HoldsQueued q =
      let new = new_serialized lib sender tx p in
      (pending_for q sender ≡ pending_for p sender)
      × (((i : ℕ) × (existing : SerializedTransaction) × Replaces lib (queued_for p sender) i
              existing tx
            × (queued_for q sender ≡ set (queued_for p sender) i new))
          ⊎ (Absent lib (queued_for p sender) tx
              × (queued_for q sender ≡ queued_for p sender ++ new ∷ [])))

  -- it is found by its hash, and no other sender's lists have changed
  pub record IsIndexed (q : TxPool) : Type 0 where
    pub by_hash : get (lib.hash tx) q.state.by_hash ≡ some (new_serialized lib sender tx p)
    pub others :
        (a : ℕ)
        → (sender == a) ≡ false
        → (pending_for q a ≡ pending_for p a) × (queued_for q a ≡ queued_for p a)

  abbrev pub Refuses : Result (Unit {0}) → Type 0
  Refuses r = (e : PoolError) × (q : TxPool) × (r ≡ throws e q) × (q.state ≡ p.state)

  other_lists :
      (m : List (ℕ × SenderTransactions)) (txs : SenderTransactions) (a : ℕ)
      → (sender == a) ≡ false
      → or_empty (get a (put sender txs m)) ≡ or_empty (get a m)
  other_lists m txs a e = ap or_empty (get-put_ne sender a txs m e)

  own_list :
      (m : List (ℕ × SenderTransactions)) (txs : SenderTransactions)
      → or_empty (get sender (put sender txs m)) ≡ txs
  own_list m txs = ap or_empty (get-put_self sender txs m)

  add_queued_transaction-HoldsQueued :
      Refuses (add_queued_transaction lib sender tx p)
      ⊎ ((q : TxPool) × (add_queued_transaction lib sender tx p ≡ ok tt q)
          × IsIndexed q
          × HoldsQueued q)
  add_queued_transaction-HoldsQueued =
      let new = new_serialized lib sender tx p in
      elim (add_queued-cases lib sender tx p) [
        | inl (e, thrown) ↦ inl (e, take_order_id p, thrown, refl)
        | inr (inl (i, existing, r, done)) ↦ inr (
          replaced_queued lib sender tx p i existing,
          done,
          record {
            by_hash =
                get-put_self (lib.hash tx) new
                  (delete_by_hash (hash_of lib existing) p).state.by_hash;
            others = λ a e. (refl, other_lists _ (set (queued_for p sender) i new) a e);
          },
          (refl, inl (i, existing, r, own_list _ _)),
        )
        | inr (inr (absent, done)) ↦ inr (
          appended_queued lib sender tx p,
          done,
          record {
            by_hash = get-put_self (lib.hash tx) new p.state.by_hash;
            others = λ a e. (refl, other_lists _ (queued_for p sender ++ new ∷ []) a e);
          },
          (refl, inr (absent, own_list _ _)),
        )
      ]

  add_pending_transaction-HoldsPending :
      Refuses (add_pending_transaction lib sender tx p)
      ⊎ ((q : TxPool) × (add_pending_transaction lib sender tx p ≡ ok tt q)
          × IsIndexed q
          × HoldsPending q)
  add_pending_transaction-HoldsPending =
      let new = new_serialized lib sender tx p in
      elim (add_pending-cases lib sender tx p) [
        | inl (e, thrown) ↦ inl (e, take_order_id p, thrown, refl)
        | inr (inl (i, existing, r, done)) ↦ inr (
          replaced_pending lib sender tx p i existing,
          done,
          record {
            by_hash =
                get-put_self (lib.hash tx) new
                  (delete_by_hash (hash_of lib existing) p).state.by_hash;
            others = λ a e. (other_lists _ (set (pending_for p sender) i new) a e, refl);
          },
          inl (i, existing, r, own_list _ _, refl),
        )
        | inr (inr (pending, queued, absent, e, done)) ↦
            let (moved, split, perm) =
              reorganize-Perm (nonce_of lib) (pending_for p sender) (queued_for p sender) pending
                queued new e in
            inr (
              appended lib sender tx p pending queued,
              done,
              record {
                by_hash = get-put_self (lib.hash tx) new p.state.by_hash;
                others = λ a e. (other_lists _ pending a e, other_lists _ queued a e);
              },
              inr (
                absent,
                moved,
                own_list _ pending ∙ split,
                subst (λ l. Perm (moved ++ l) (queued_for p sender)) (sym (own_list _ queued)) perm,
              ),
            )
      ]

module _ (lib : TxLibrary) (accounts : ℕ → Account) (tx : TypedTransaction) (p : TxPool) where
  -- Where it went, by its nonce: with one beyond the next pending nonce it is queued, with another
  -- it is pending.
  pub record IsFiled (sender : ℕ) (q : TxPool) : Type 0 where
    pub sent : sender_of lib tx ≡ some sender
    pub acceptable : IsAcceptable lib accounts tx sender p
    pub indexed : IsIndexed lib sender tx p q
    pub placed :
        ((get_next_pending_nonce lib accounts sender p < tx.nonce) × HoldsQueued lib sender tx p q)
        ⊎ ((tx.nonce ≤ get_next_pending_nonce lib accounts sender p)
            × HoldsPending lib sender tx p q)

  abbrev pub FilesOrRefuses : Result (Unit {0}) → Type 0
  FilesOrRefuses r =
      ((e : PoolError) × (q : TxPool) × (r ≡ throws e q) × (q.state ≡ p.state))
      ⊎ ((sender : ℕ) × (q : TxPool) × (r ≡ ok tt q) × IsFiled sender q)

  -- An offered transaction is refused, and the lists, the look-up by hash and the gas limit stay as
  -- they are, or it is acceptable and found by its hash. With a nonce beyond the sender's next
  -- pending one it is then in the queue, and the pending list is as before; otherwise it is in the
  -- pending list. There it takes the place of the one with its nonce, which it outbids in both fees,
  -- or it stands behind all others, followed, in the pending list, by transactions that have left
  -- the queue; none is lost. Other senders' lists are as before.
  pub add_transaction-IsFiled : FilesOrRefuses (add_transaction lib accounts tx p)
  add_transaction-IsFiled = elim (add_transaction-cases lib accounts tx p) [
    | inl (e, thrown) ↦ inl (e, p, thrown, refl)
    | inr (s, sent, good, done) ↦
        elim (Bool-cases (ltb (get_next_pending_nonce lib accounts s p) tx.nonce)) [
          | inl far ↦ elim (add_queued_transaction-HoldsQueued lib s tx p) [
            | inl (e, q, thrown, same) ↦ inl (e, q, rw (done, far) thrown, same)
            | inr (q, run, indexed, queued) ↦ inr (
              s,
              q,
              rw (done, far) run,
              record {
                sent = sent;
                acceptable = good;
                indexed = indexed;
                placed = inl (ground (arith, far), queued);
              },
            )
          ]
          | inr near ↦ elim (add_pending_transaction-HoldsPending lib s tx p) [
            | inl (e, q, thrown, same) ↦ inl (e, q, rw (done, near) thrown, same)
            | inr (q, run, indexed, pending) ↦ inr (
              s,
              q,
              rw (done, near) run,
              record {
                sent = sent;
                acceptable = good;
                indexed = indexed;
                placed = inr (ground (arith, near), pending);
              },
            )
          ]
        ]
  ]
