-- ===== src/TxPool/Maintenance.antt =====
-- `updatePendingAndQueued` brings the invariant of the pool up to date with the accounts.
use hardhat.Prelude.{
  ℕ, ◌+◌, ◌≤◌, ◌<◌, ◌≡◌, refl, sym, ap, ◌∙◌, subst, [], ◌∷◌, ◌++◌, Option, some, none, All,
  All-append, All-map, length, leb, arith, Bool-cases, ok, inl, inr, ◌⊎◌,
}
use hardhat.Prelude.Assoc.{get, HasUniqueKeys}
use hardhat.Transactions.{TxLibrary, SerializedTransaction, deserialize_transaction}
use hardhat.TxPool.Evicted.{All-keep, Distinct-keep, Leaves, sweep-Leaves}
use hardhat.TxPool.Eviction.{staying, moving}
use hardhat.TxPool.Invariant.{Inv, IsOrdered}
use hardhat.TxPool.Order.{Distinct}
use hardhat.TxPool.QueueSweep.{valid_ones}
use hardhat.TxPool.Removal.{Consecutive-Distinct, Distinct-append}
use hardhat.TxPool.State.{
  Account, SenderTransactions, AddressToTransactions, TxPool, pending_for, queued_for, or_empty,
  nonce_of,
}
use hardhat.TxPool.Sweep.{IsCanonical}
use hardhat.TxPool.SweepAll.{
  Listed, left_pending, moved_pending, left_queued, sweep_all_pending-PendingSwept,
  sweep_all_queued-AllQueueSwept,
}
use hardhat.TxPool.Update.{is_tx_valid, update_pending_and_queued}

-- No sender has two entries, and what is stored is what serializing it again gives.
pub record IsStored (lib : TxLibrary) (p : TxPool) : Type 0 where
  pub unique_pending : HasUniqueKeys p.state.pending
  pub unique_queued : HasUniqueKeys p.state.queued
  pub canonical_pending : (a : ℕ) → All (IsCanonical lib) (pending_for p a)
  pub canonical_queued : (a : ℕ) → All (IsCanonical lib) (queued_for p a)

-- Of each account that has transactions in the pool, the nonce has moved at most to the end of the
-- pending list. Nothing is asked of the others.
abbrev pub HasAdvanced : (ℕ → Account) → (ℕ → Account) → TxPool → Type 0
HasAdvanced accounts accounts' p =
    (a : ℕ)
    → ((pending_for p a ≡ []) × (queued_for p a ≡ []))
      ⊎ (((accounts a).nonce ≤ (accounts' a).nonce)
          × ((accounts' a).nonce ≤ (accounts a).nonce + length (pending_for p a)))

module _ (lib : TxLibrary) (a : ℕ) (account : Account) (limit : ℕ) where
  All-moving :
      (ts : SenderTransactions)
      → All (IsCanonical lib) ts
      → All (IsCanonical lib) (moving lib a account limit ts)
  unfolding moving
  All-moving [] h = tt
  All-moving (t ∷ ts) h =
      let rest = All-moving ts h.1 in
      elim (Bool-cases (is_tx_valid lib limit (deserialize_transaction lib t).tx account)) [
        | inl valid ↦ rw (valid, moving) rest
        | inr invalid ↦ elim (Bool-cases (leb account.nonce (nonce_of lib t))) [
          | inl ahead ↦ rw (invalid, ahead, moving) h.1
          | inr used ↦ rw (invalid, used, moving) rest
        ]
      ]

  -- what the two sweeps leave of one sender's lists is in order for the new nonce
  evicted-IsOrdered :
      (n : ℕ) (pending queued : SenderTransactions)
      → n ≤ account.nonce
      → account.nonce ≤ n + length pending
      → IsOrdered lib n pending queued
      → Distinct (nonce_of lib) (queued ++ moving lib a account limit pending)
        × IsOrdered lib account.nonce
            (staying lib a account limit pending)
            (valid_ones lib account limit (queued ++ moving lib a account limit pending))
  unfolding valid_ones
  evicted-IsOrdered n pending queued l u o =
      let stay = staying lib a account limit pending in
      let move = moving lib a account limit pending in
      let left : Leaves lib a account limit (n + length pending) account.nonce stay move =
        sweep-Leaves lib a account limit n pending l u o.gapless in
      let valid = λ (t : SerializedTransaction).
        is_tx_valid lib limit (deserialize_transaction lib t).tx account in
      let distinct =
        Distinct-append (nonce_of lib) (n + length pending) queued move o.distinct left.distinct
          o.beyond left.before in
      (
        distinct,
        record {
          gapless = left.gapless;
          beyond = All-keep _ valid (queued ++ move) (
              All-append _ queued move
                (All-map
                  (λ t (b : n + length pending < nonce_of lib t). omega (arith, left.shorter))
                  queued o.beyond)
                left.behind);
          distinct = Distinct-keep (nonce_of lib) valid (queued ++ move) distinct;
        },
      )

  nothing-IsOrdered :
      (pending queued : SenderTransactions)
      → pending ≡ []
      → queued ≡ []
      → Distinct (nonce_of lib) (queued ++ moving lib a account limit pending)
        × IsOrdered lib account.nonce
            (staying lib a account limit pending)
            (valid_ones lib account limit (queued ++ moving lib a account limit pending))
  unfolding valid_ones moving staying
  nothing-IsOrdered pending queued e f =
      rw (e, f) (tt, record { gapless = tt; beyond = tt; distinct = tt })

  swept-IsOrdered :
      (n : ℕ) (pending queued : SenderTransactions)
      → ((pending ≡ []) × (queued ≡ []))
        ⊎ ((n ≤ account.nonce) × (account.nonce ≤ n + length pending))
      → IsOrdered lib n pending queued
      → Distinct (nonce_of lib) (queued ++ moving lib a account limit pending)
        × IsOrdered lib account.nonce
            (staying lib a account limit pending)
            (valid_ones lib account limit (queued ++ moving lib a account limit pending))
  swept-IsOrdered n pending queued moved o = elim moved [
    | inl (e, f) ↦ nothing-IsOrdered pending queued e f
    | inr (l, u) ↦ evicted-IsOrdered n pending queued l u o
  ]

module _ (lib : TxLibrary) (accounts : ℕ → Account) (limit : ℕ) where
  left-or_empty :
      (a : ℕ) (o : Option SenderTransactions)
      → left_pending lib accounts limit a o (or_empty o)
        ≡ staying lib a (accounts a) limit (or_empty o)
  unfolding staying
  left-or_empty a none = refl
  left-or_empty a (some ts) = refl

  moved-or_empty :
      (a : ℕ) (o : Option SenderTransactions)
      → moved_pending lib accounts limit a o ≡ moving lib a (accounts a) limit (or_empty o)
  unfolding moving
  moved-or_empty a none = refl
  moved-or_empty a (some ts) = refl

  left_queued-or_empty :
      (a : ℕ) (o : Option SenderTransactions)
      → left_queued lib accounts limit a o (or_empty o)
        ≡ valid_ones lib (accounts a) limit (or_empty o)
  unfolding valid_ones
  left_queued-or_empty a none = refl
  left_queued-or_empty a (some ts) = refl

  -- a map whose lists are canonical and without repeated nonces can be swept
  Listed-self :
      (m : AddressToTransactions)
      → ((a : ℕ)
          → All (IsCanonical lib) (or_empty (get a m))
            × Distinct (nonce_of lib) (or_empty (get a m)))
      → Listed lib accounts limit m m
  Listed-self m h a ts e =
      let at = ap or_empty e in
      (e, subst (All (IsCanonical lib)) at (h a).0, subst (Distinct (nonce_of lib)) at (h a).1)

-- From a pool with the invariant for the accounts as they were, with one entry for each sender and
-- canonical transactions: when the nonce of each account that has transactions in the pool has
-- moved at most to the end of its pending list, and whatever the balances and the block gas limit have become, the update does not throw,
-- and leaves a pool with the invariant for the accounts as they are.
pub update_pending_and_queued-Inv :
    (lib : TxLibrary) (accounts accounts' : ℕ → Account) (p : TxPool)
    → Inv lib accounts p
    → IsStored lib p
    → HasAdvanced accounts accounts' p
    → (q : TxPool) × (update_pending_and_queued lib accounts' p ≡ ok tt q) × Inv lib accounts' q
unfolding update_pending_and_queued
update_pending_and_queued-Inv lib accounts accounts' p v s advanced =
    let limit = p.state.block_gas_limit in
    let old = p.state.pending in
    let (m₁, p₁, run₁, w₁) =
      sweep_all_pending-PendingSwept lib accounts' limit old old p refl s.unique_pending (
        Listed-self lib accounts' limit old (λ a. (
          s.canonical_pending a,
          Consecutive-Distinct (nonce_of lib) (accounts a).nonce (pending_for p a) (v a).gapless,
        ))) in
    let p₂ : TxPool = record p₁ { state = record (p₁.state) { pending = m₁ } } in
    let ordered = λ (a : ℕ).
      swept-IsOrdered lib a (accounts' a) limit (accounts a).nonce (pending_for p a)
        (queued_for p a) (advanced a) (v a) in
    let joined = λ (a : ℕ).
      w₁.queues a
      ∙ ap (λ l. queued_for p a ++ l) (moved-or_empty lib accounts' limit a (get a old)) in
    let (m₂, p₃, run₂, w₂) =
      sweep_all_queued-AllQueueSwept lib accounts' limit p₂.state.queued p₂.state.queued p₂
        w₁.same_limit (w₁.unique_keys s.unique_queued)
        (Listed-self lib accounts' limit p₂.state.queued (λ a. (
          subst (All (IsCanonical lib)) (sym (joined a)) (
              All-append _ (queued_for p a) _ (s.canonical_queued a)
                (All-moving lib a (accounts' a) limit (pending_for p a) (s.canonical_pending a))),
          subst (Distinct (nonce_of lib)) (sym (joined a)) (ordered a).0,
        ))) in
    let q : TxPool = record p₃ { state = record (p₃.state) { queued = m₂ } } in
    (
      q,
      ground (arith, run₁, run₂),
      λ a.
          let pending_at : pending_for q a ≡ staying lib a (accounts' a) limit (pending_for p a) =
            ap (λ m. or_empty (get a m)) w₂.same_pending
            ∙ w₁.lists a
            ∙ left-or_empty lib accounts' limit a (get a old) in
          let queued_at : queued_for q a
              ≡ valid_ones lib (accounts' a) limit
                  (queued_for p a ++ moving lib a (accounts' a) limit (pending_for p a)) =
            w₂.lists a
            ∙ left_queued-or_empty lib accounts' limit a (get a p₂.state.queued)
            ∙ ap (valid_ones lib (accounts' a) limit) (joined a) in
          subst (λ l. IsOrdered lib (accounts' a).nonce l (queued_for q a)) (sym pending_at)
            (subst
              (IsOrdered lib (accounts' a).nonce
                (staying lib a (accounts' a) limit (pending_for p a)))
              (sym queued_at) (ordered a).1),
    )
