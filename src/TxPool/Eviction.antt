-- ===== src/TxPool/Eviction.antt =====
-- The sweep over one sender's pending list in closed form: the valid transactions up to the first
-- one that is dropped with a nonce still to come stay, and those behind it move to the queue.
use mathlib.Core.List.{append_assoc, append-nil}
use hardhat.Prelude.{
  ℕ, ◌≡◌, refl, sym, ap, ◌∙◌, subst, ◌==◌, leb, if◌then◌else◌, [], ◌∷◌, ◌++◌, some, none, All,
  arith, Bool, true, false, Bool-cases, ok, inl, inr,
}
use hardhat.Prelude.Assoc.{
  HasUniqueKeys, put-HasUniqueKeys, get, put, get-put_self, get-put_ne, get-delete,
}
use hardhat.Transactions.{TxLibrary, SerializedTransaction, deserialize_transaction}
use hardhat.TxPool.Order.{Distinct}
use hardhat.TxPool.State.{
  Account, SenderTransactions, AddressToTransactions, TxPool, queued_for, or_empty, set_queued_for,
  delete_by_hash, nonce_of, hash_of,
}
use hardhat.TxPool.Sweep.{IsCanonical, remove_tx-append, Distinct-without}
use hardhat.TxPool.Update.{is_tx_valid, sweep_pending}

module _ (lib : TxLibrary) (a : ℕ) (account : Account) where
  -- The sender's list becomes `stay`, and `moved` goes to the end of its queue. The moved
  -- transactions are no longer found by their hash. Nothing else changes.
  pub record Swept (stay moved : SenderTransactions) (m m' : AddressToTransactions) (p p' : TxPool)
      : Type 0 where
    pub stays : get a m' ≡ some stay
    pub moves : queued_for p' a ≡ queued_for p a ++ moved
    pub unindexed : All (λ t. get (hash_of lib t) p'.state.by_hash ≡ none) moved
    pub no_new_index : (h : ℕ) → get h p.state.by_hash ≡ none → get h p'.state.by_hash ≡ none
    pub same_limit : p'.state.block_gas_limit ≡ p.state.block_gas_limit
    pub other_lists : (b : ℕ) → (a == b) ≡ false → get b m' ≡ get b m
    pub other_queues : (b : ℕ) → (a == b) ≡ false → queued_for p' b ≡ queued_for p b
    pub unique_keys : HasUniqueKeys p.state.queued → HasUniqueKeys p'.state.queued

  abbrev pub SweepsTo :
      SenderTransactions
      → Bool
      → AddressToTransactions
      → TxPool
      → SenderTransactions
      → SenderTransactions
      → Type 0
  SweepsTo ts moving m p stay moved =
      (m' : AddressToTransactions) × (p' : TxPool) × (sweep_pending lib a account ts moving m p
        ≡ ok m' p')
      × Swept stay moved m m' p p'

  Swept-refl :
      (stay : SenderTransactions) (m : AddressToTransactions) (p : TxPool)
      → get a m ≡ some stay
      → Swept stay [] m m p p
  Swept-refl stay m p e = record {
    stays = e;
    moves = sym (append-nil (queued_for p a));
    unindexed = tt;
    no_new_index = λ h z. z;
    same_limit = refl;
    other_lists = λ b ne. refl;
    other_queues = λ b ne. refl;
    unique_keys = λ u. u;
  }

  index-delete :
      (h k : ℕ) (p : TxPool)
      → get k p.state.by_hash ≡ none
      → get k (delete_by_hash h p).state.by_hash ≡ none
  index-delete h k p e = ground (arith, get-delete h k p.state.by_hash)

  index-delete_self : (h : ℕ) (p : TxPool) → get h (delete_by_hash h p).state.by_hash ≡ none
  index-delete_self h p = ground (arith, get-delete h h p.state.by_hash)

  -- one transaction is moved, then the sweep goes on
  Swept-move :
      (stay moved : SenderTransactions) (t : SerializedTransaction) (l : SenderTransactions)
      (m m' : AddressToTransactions) (p p' : TxPool)
      → let p₁ = delete_by_hash (hash_of lib t) p in
        Swept stay moved (put a l m) m' (set_queued_for a (queued_for p₁ a ++ t ∷ []) p₁) p'
        → Swept stay (t ∷ moved) m m' p p'
  Swept-move stay moved t l m m' p p' w =
      let pushed = queued_for p a ++ t ∷ [] in
      record {
        stays = w.stays;
        moves =
            w.moves
            ∙ rw (get-put_self a pushed p.state.queued)
                (append_assoc (queued_for p a) (t ∷ []) moved);
        unindexed =
            (w.no_new_index (hash_of lib t) (index-delete_self (hash_of lib t) p), w.unindexed);
        no_new_index = λ h z. w.no_new_index h (index-delete (hash_of lib t) h p z);
        same_limit = w.same_limit;
        other_lists = λ b ne. w.other_lists b ne ∙ get-put_ne a b l m ne;
        other_queues =
            λ b ne. w.other_queues b ne ∙ ap or_empty (get-put_ne a b pushed p.state.queued ne);
        unique_keys = λ u. w.unique_keys (put-HasUniqueKeys a pushed p.state.queued u);
      }

  -- one transaction is dropped, then the sweep goes on
  Swept-drop :
      (stay moved : SenderTransactions) (t : SerializedTransaction) (l : SenderTransactions)
      (m m' : AddressToTransactions) (p p' : TxPool)
      → Swept stay moved (put a l m) m' (delete_by_hash (hash_of lib t) p) p'
      → Swept stay moved m m' p p'
  Swept-drop stay moved t l m m' p p' w = record {
    stays = w.stays;
    moves = w.moves;
    unindexed = w.unindexed;
    no_new_index = λ h z. w.no_new_index h (index-delete (hash_of lib t) h p z);
    same_limit = w.same_limit;
    other_lists = λ b ne. w.other_lists b ne ∙ get-put_ne a b l m ne;
    other_queues = w.other_queues;
    unique_keys = w.unique_keys;
  }

  sweep_moving :
      (pre ts : SenderTransactions) (m : AddressToTransactions) (p : TxPool)
      → get a m ≡ some (pre ++ ts)
      → All (IsCanonical lib) ts
      → Distinct (nonce_of lib) (pre ++ ts)
      → SweepsTo ts true m p pre ts
  unfolding sweep_pending
  sweep_moving pre [] m p e c d = (m, p, refl, Swept-refl pre m p (e ∙ ap some (append-nil pre)))
  sweep_moving pre (t ∷ ts) m p e c d =
      let p₁ = delete_by_hash (hash_of lib t) p in
      let p₂ = set_queued_for a (queued_for p₁ a ++ t ∷ []) p₁ in
      let (m', p', run, w) =
        sweep_moving pre ts (put a (pre ++ ts) m) p₂ (get-put_self a (pre ++ ts) m) c.1
          (Distinct-without lib pre t ts d) in
      (
        m',
        p',
        ground (arith, run, remove_tx-append lib m a pre t ts p e c.0 d),
        Swept-move pre ts t (pre ++ ts) m m' p p' w,
      )

  -- The transactions that stay, and those that move, under a block gas limit.
  unfoldable pub staying : ℕ → SenderTransactions → SenderTransactions
  staying limit [] = []
  staying limit (t ∷ ts) =
      let rest = staying limit ts in
      if is_tx_valid lib limit (deserialize_transaction lib t).tx account
      then t ∷ rest
      else (if leb account.nonce (nonce_of lib t) then [] else rest)

  unfoldable pub moving : ℕ → SenderTransactions → SenderTransactions
  moving limit [] = []
  moving limit (t ∷ ts) =
      let rest = moving limit ts in
      if is_tx_valid lib limit (deserialize_transaction lib t).tx account
      then rest
      else (if leb account.nonce (nonce_of lib t) then ts else rest)

  -- Let the sender's list have different nonces, let its transactions up to some place have been
  -- kept, and let those from there on be what serializing them again gives. Then the sweep over
  -- those never throws. The valid transactions before the first
  -- dropped one whose nonce is not used up stay; those behind that one move to the end of the
  -- sender's queue, in order, and are not found by their hash any more; all other lists stay.
  pub sweep_pending-Swept :
      (pre ts : SenderTransactions) (m : AddressToTransactions) (p : TxPool)
      → get a m ≡ some (pre ++ ts)
      → All (IsCanonical lib) ts
      → Distinct (nonce_of lib) (pre ++ ts)
      → let limit = p.state.block_gas_limit in
        SweepsTo ts false m p (pre ++ staying limit ts) (moving limit ts)
  unfolding sweep_pending staying moving
  sweep_pending-Swept pre [] m p e c d = (m, p, refl, Swept-refl (pre ++ []) m p e)
  sweep_pending-Swept pre (t ∷ ts) m p e c d =
      let limit = p.state.block_gas_limit in
      let o = deserialize_transaction lib t in
      let removed = remove_tx-append lib m a pre t ts p e c.0 d in
      let p₁ = delete_by_hash (hash_of lib t) p in
      let e₁ = get-put_self a (pre ++ ts) m in
      let d₁ = Distinct-without lib pre t ts d in
      elim (Bool-cases (is_tx_valid lib limit o.tx account)) [
        | inl valid ↦
            let assoc = append_assoc pre (t ∷ []) ts in
            let (m', p', run, w) =
              sweep_pending-Swept (pre ++ t ∷ []) ts m p (e ∙ ap some (sym assoc)) c.1
                (subst (Distinct (nonce_of lib)) (sym assoc) d) in
            (
              m',
              p',
              rw (valid, sweep_pending) run,
              rw (valid, staying, moving)
                  (subst (λ l. Swept l (moving limit ts) m m' p p')
                    (append_assoc pre (t ∷ []) (staying limit ts)) w),
            )
        | inr invalid ↦ elim (Bool-cases (leb account.nonce o.tx.nonce)) [
          | inl ahead ↦
              let (m', p', run, w) = sweep_moving pre ts (put a (pre ++ ts) m) p₁ e₁ c.1 d₁ in
              (
                m',
                p',
                ground (arith, invalid, ahead, removed, run),
                rw (invalid, ahead, staying, moving)
                    (subst (λ l. Swept l ts m m' p p') (sym (append-nil pre))
                      (Swept-drop pre ts t (pre ++ ts) m m' p p' w)),
              )
          | inr used ↦
              let (m', p', run, w) =
                sweep_pending-Swept pre ts (put a (pre ++ ts) m) p₁ e₁ c.1 d₁ in
              (
                m',
                p',
                ground (arith, invalid, used, removed, run),
                rw (invalid, used, staying, moving) (Swept-drop _ _ t (pre ++ ts) m m' p p' w),
              )
        ]
      ]
