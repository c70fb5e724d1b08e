-- ===== src/TxPool/Invariant.antt =====
-- The invariant of the pool: for each sender the pending list is executable as it stands, and the
-- queue holds only what is not. Adding and removing transactions keep it.
use mathlib.Core.Option.{some-injective}
use hardhat.Prelude.{
  ℕ, suc, ◌+◌, ◌≤◌, ◌<◌, ◌≡◌, refl, sym, ap, ◌∙◌, subst, ◌==◌, ltb, List, [], ◌∷◌, ◌++◌, some, inl,
  inr, All, All-append, All-map, length, length-append, last?, set, arith, false, Bool-cases,
  Option-cases, after, ==_iff,
}
use hardhat.Prelude.Assoc.{get, put, get-put_self, get-put_ne}
use hardhat.Transactions.{
  TypedTransaction, TxLibrary, RoundTrips, SerializedTransaction, deserialize-serialize,
}
use hardhat.TxPool.Add.{add_pending_transaction, add_queued_transaction, add_transaction}
use hardhat.TxPool.Cases.{
  Replaces, Absent, new_serialized, replaced_pending, replaced_queued, appended, appended_queued,
  add_pending-cases, add_queued-cases,
}
use hardhat.TxPool.Moves.{reorganize-moves_every_executable}
use hardhat.TxPool.Order.{
  Consecutive, Distinct, Consecutive-append, Consecutive-set, Consecutive-absent, nonce-last,
  All-set, All-get_elem?, Distinct-set, Distinct-push, length-set, length-last_none, last-push,
}
use hardhat.TxPool.Reorganize.{reorganize_transactions_lists}
use hardhat.TxPool.State.{
  Account, SenderTransactions, TxPool, pending_for, queued_for, or_empty, nonce_of,
  get_next_pending_nonce,
}
use hardhat.TxPool.Validation.{add_transaction-cases}

-- The pending nonces start at the account's nonce and have no gap; the queued ones are beyond
-- the nonce that would come next, and distinct.
pub record IsOrdered (lib : TxLibrary) (nonce : ℕ) (pending queued : SenderTransactions)
    : Type 0 where
  pub gapless : Consecutive (nonce_of lib) nonce pending
  pub beyond : All (λ t. nonce + length pending < nonce_of lib t) queued
  pub distinct : Distinct (nonce_of lib) queued

abbrev pub Inv : TxLibrary → (ℕ → Account) → TxPool → Type 0
Inv lib accounts p = (a : ℕ) → IsOrdered lib (accounts a).nonce (pending_for p a) (queued_for p a)

module _ (lib : TxLibrary) where
  -- with a gapless pending list the next nonce is the one behind its end
  pub next_pending-length :
      (accounts : ℕ → Account) (a : ℕ) (p : TxPool)
      → Consecutive (nonce_of lib) (accounts a).nonce (pending_for p a)
      → get_next_pending_nonce lib accounts a p ≡ (accounts a).nonce + length (pending_for p a)
  unfolding get_next_pending_nonce
  next_pending-length accounts a p c = elim (Option-cases (last? (pending_for p a))) [
    | inl e ↦ rw (e, get_next_pending_nonce) (omega (arith, length-last_none (pending_for p a) e))
    | inr (t, e) ↦
        rw (e, get_next_pending_nonce)
          (omega (arith, nonce-last (nonce_of lib) _ (pending_for p a) t c e))
  ]

  -- a change of one sender's lists keeps the invariant of the others
  pub Inv-at :
      (accounts : ℕ → Account) (p p' : TxPool) (s : ℕ)
      → IsOrdered lib (accounts s).nonce (pending_for p' s) (queued_for p' s)
      → ((a : ℕ)
          → (s == a) ≡ false
          → (pending_for p' a ≡ pending_for p a) × (queued_for p' a ≡ queued_for p a))
      → Inv lib accounts p
      → Inv lib accounts p'
  Inv-at accounts p p' s o same v a = elim (Bool-cases (s == a)) [
    | inl e ↦
        subst (λ b. IsOrdered lib (accounts b).nonce (pending_for p' b) (queued_for p' b))
          ((==_iff s a).0 e) o
    | inr e ↦ rw ((same a e).0, (same a e).1) (v a)
  ]

  module _ (laws : RoundTrips lib) (accounts : ℕ → Account) (p : TxPool) (s : ℕ)
      (tx : TypedTransaction) (v : Inv lib accounts p) where
    new-nonce : nonce_of lib (new_serialized lib s tx p) ≡ tx.nonce
    new-nonce =
        ap (λ o. o.tx.nonce)
          (deserialize-serialize lib laws (record { order_id = p.next_order_id; tx = tx }))

    other_lists :
        (m : List (ℕ × SenderTransactions)) (txs : SenderTransactions) (a : ℕ)
        → (s == a) ≡ false
        → or_empty (get a (put s txs m)) ≡ or_empty (get a m)
    other_lists m txs a e = ap or_empty (get-put_ne s a txs m e)

    appended-Inv :
        (pending queued : SenderTransactions)
        → IsOrdered lib (accounts s).nonce pending queued
        → Inv lib accounts (appended lib s tx p pending queued)
    appended-Inv pending queued o =
        Inv-at accounts p (appended lib s tx p pending queued) s
          (rw (get-put_self s pending p.state.pending, get-put_self s queued p.state.queued) o)
          (λ a e. (other_lists _ pending a e, other_lists _ queued a e)) v

    replaced_pending-Inv :
        (i : ℕ) (existing : SerializedTransaction)
        → Replaces lib (pending_for p s) i existing tx
        → Inv lib accounts (replaced_pending lib s tx p i existing)
    replaced_pending-Inv i existing r =
        let new = new_serialized lib s tx p in
        let same : nonce_of lib new ≡ nonce_of lib existing = new-nonce ∙ sym r.1 in
        Inv-at accounts p (replaced_pending lib s tx p i existing) s
          (rw (get-put_self s (set (pending_for p s) i new) p.state.pending) (record {
            gapless =
                Consecutive-set (nonce_of lib) _ (pending_for p s) i existing new (v s).gapless r.0
                  same;
            beyond =
                subst (λ k. All (λ t. (accounts s).nonce + k < nonce_of lib t) (queued_for p s))
                  (sym (length-set (pending_for p s) i new)) (v s).beyond;
            distinct = (v s).distinct;
          }))
          (λ a e. (other_lists _ (set (pending_for p s) i new) a e, refl)) v

    replaced_queued-Inv :
        (i : ℕ) (existing : SerializedTransaction)
        → Replaces lib (queued_for p s) i existing tx
        → Inv lib accounts (replaced_queued lib s tx p i existing)
    replaced_queued-Inv i existing r =
        let new = new_serialized lib s tx p in
        let same : nonce_of lib new ≡ nonce_of lib existing = new-nonce ∙ sym r.1 in
        Inv-at accounts p (replaced_queued lib s tx p i existing) s
          (rw (get-put_self s (set (queued_for p s) i new) p.state.queued) (record {
            gapless = (v s).gapless;
            beyond = All-set _ (queued_for p s) i new (v s).beyond (
                subst (λ k. (accounts s).nonce + length (pending_for p s) < k) (sym same)
                  (All-get_elem? _ (queued_for p s) i existing (v s).beyond r.0));
            distinct =
                Distinct-set (nonce_of lib) (queued_for p s) i existing new r.0 same (v s).distinct;
          }))
          (λ a e. (refl, other_lists _ (set (queued_for p s) i new) a e)) v

    appended_queued-Inv :
        Absent lib (queued_for p s) tx
        → (accounts s).nonce + length (pending_for p s) < tx.nonce
        → Inv lib accounts (appended_queued lib s tx p)
    appended_queued-Inv absent later =
        let new = new_serialized lib s tx p in
        Inv-at accounts p (appended_queued lib s tx p) s
          (rw (get-put_self s (queued_for p s ++ new ∷ []) p.state.queued) (record {
            gapless = (v s).gapless;
            beyond = All-append _ (queued_for p s) (new ∷ []) (v s).beyond (
              subst (λ k. (accounts s).nonce + length (pending_for p s) < k) (sym new-nonce) later,
              tt,
            );
            distinct =
                Distinct-push (nonce_of lib) (queued_for p s) new
                  (subst (λ k. All (λ t. (nonce_of lib t == k) ≡ false) (queued_for p s))
                    (sym new-nonce) absent)
                  (v s).distinct;
          }))
          (λ a e. (refl, other_lists _ (queued_for p s ++ new ∷ []) a e)) v

    -- the reorganized lists, when the new transaction is the next one of its sender
    reorganized-IsOrdered :
        (pending queued : SenderTransactions)
        → tx.nonce ≡ (accounts s).nonce + length (pending_for p s)
        → reorganize_transactions_lists
            (nonce_of lib)
            (pending_for p s ++ new_serialized lib s tx p ∷ [])
            (queued_for p s)
          ≡ some (pending, queued)
        → IsOrdered lib (accounts s).nonce pending queued
    reorganized-IsOrdered pending queued at e =
        let new = new_serialized lib s tx p in
        let c = (accounts s).nonce in
        let old = pending_for p s in
        let nonces = nonce_of lib in
        let here : nonces new ≡ c + length old = new-nonce ∙ at in
        let longer : length (old ++ new ∷ []) ≡ suc (length old) =
          omega (arith, length-append old (new ∷ [])) in
        let (moved, left, result, moves, gapless, beyond, distinct) =
          reorganize-moves_every_executable nonces c (old ++ new ∷ []) (queued_for p s) new
            (last-push old new)
            (Consecutive-append nonces c old (new ∷ []) (v s).gapless (here, tt))
            (All-map (λ t (h : c + length old < nonces t). omega (arith, longer)) (queued_for p s)
              (v s).beyond)
            (v s).distinct in
        let both = some-injective _ _ (sym result ∙ e) in
        subst (λ l. IsOrdered lib c l.0 l.1) both
          (record { gapless = gapless; beyond = beyond; distinct = distinct })

    -- adding to the pending list, for a nonce that is not used up and not beyond the next one
    pub add_pending-Inv :
        (accounts s).nonce ≤ tx.nonce
        → tx.nonce ≤ (accounts s).nonce + length (pending_for p s)
        → Inv lib accounts (after (add_pending_transaction lib s tx p))
    add_pending-Inv unused near = elim (add_pending-cases lib s tx p) [
      | inl (e, thrown) ↦ rw thrown v
      | inr (inl (i, existing, r, done)) ↦ rw done (replaced_pending-Inv i existing r)
      | inr (inr (pending, queued, absent, e, done)) ↦
          let far =
            Consecutive-absent (nonce_of lib) _ tx.nonce (pending_for p s) (v s).gapless absent
              unused in
          rw done
            (appended-Inv pending queued (reorganized-IsOrdered pending queued (omega arith) e))
    ]

    pub add_queued-Inv :
        (accounts s).nonce + length (pending_for p s) < tx.nonce
        → Inv lib accounts (after (add_queued_transaction lib s tx p))
    add_queued-Inv far = elim (add_queued-cases lib s tx p) [
      | inl (e, thrown) ↦ rw thrown v
      | inr (inl (i, existing, r, done)) ↦ rw done (replaced_queued-Inv i existing r)
      | inr (inr (absent, done)) ↦ rw done (appended_queued-Inv absent far)
    ]

  -- Over a library whose serialized transactions read back, and from a pool with the invariant:
  -- whatever transaction is offered, and whether it is accepted, replaces another or is refused,
  -- the pool that is left has the invariant, which is that each sender's pending nonces start at the account's nonce and
  -- have no gap, and the queued ones are distinct and beyond the next executable nonce.
  pub add_transaction-Inv :
      RoundTrips lib
      → (accounts : ℕ → Account) (tx : TypedTransaction) (p : TxPool) → Inv lib accounts p
      → Inv lib accounts (after (add_transaction lib accounts tx p))
  add_transaction-Inv laws accounts tx p v = elim (add_transaction-cases lib accounts tx p) [
    | inl (e, thrown) ↦ rw thrown v
    | inr (s, sent, good, done) ↦
        let next = next_pending-length accounts s p (v s).gapless in
        elim (Bool-cases (ltb (get_next_pending_nonce lib accounts s p) tx.nonce)) [
          | inl far ↦ rw (done, far) (add_queued-Inv laws accounts p s tx v (ground (arith, next)))
          | inr near ↦
              rw (done, near)
                (add_pending-Inv laws accounts p s tx v good.nonce_unused (ground (arith, next)))
        ]
  ]
