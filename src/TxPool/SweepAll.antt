-- ===== src/TxPool/SweepAll.antt =====
-- The two loops of `updatePendingAndQueued` over all senders in closed form.
use mathlib.Core.List.{append-nil}
use hardhat.Prelude.{
  ℕ, ◌≡◌, refl, sym, ap, ◌∙◌, subst, ◌==◌, ==_iff, ==_refl, [], ◌∷◌, ◌++◌, Option, some, none, All,
  arith, false, Bool-cases, ok, inl, inr,
}
use hardhat.Prelude.Assoc.{get, HasUniqueKeys}
use hardhat.Transactions.{TxLibrary}
use hardhat.TxPool.Eviction.{Swept, SweepsTo, staying, moving, sweep_pending-Swept}
use hardhat.TxPool.Order.{Distinct}
use hardhat.TxPool.QueueSweep.{QueueSwept, valid_ones, sweep_queued-QueueSwept}
use hardhat.TxPool.State.{
  Account, SenderTransactions, AddressToTransactions, TxPool, queued_for, or_empty, nonce_of,
}
use hardhat.TxPool.Sweep.{IsCanonical}
use hardhat.TxPool.Update.{sweep_all_pending, sweep_all_queued}

module _ (lib : TxLibrary) (accounts : ℕ → Account) (limit : ℕ) where
  -- every entry that is still to be swept is in the map as it was
  abbrev pub Listed : AddressToTransactions → AddressToTransactions → Type 0
  Listed entries m =
      (a : ℕ) (ts : SenderTransactions)
      → get a entries ≡ some ts
      → (get a m ≡ some ts) × All (IsCanonical lib) ts × Distinct (nonce_of lib) ts

  Listed-rest :
      (b : ℕ) (us : SenderTransactions) (rest m m' : AddressToTransactions)
      → get b rest ≡ none
      → ((a : ℕ) → (b == a) ≡ false → get a m' ≡ get a m)
      → Listed ((b, us) ∷ rest) m
      → Listed rest m'
  Listed-rest b us rest m m' fresh same l a ts e = elim (Bool-cases (b == a)) [
    | inl here ↦
        let missing : get a rest ≡ none =
          subst (λ k. get k rest ≡ none) ((==_iff b a).0 here) fresh in
        cc
    | inr ne ↦ let (at, c, d) = l a ts (rw ne e) in (same a ne ∙ at, c, d)
  ]

  -- a sender's pending list after the loop, by its entry and by what it was
  abbrev pub left_pending : ℕ → Option SenderTransactions → SenderTransactions → SenderTransactions
  left_pending a none old = old
  left_pending a (some ts) old = staying lib a (accounts a) limit ts

  abbrev pub moved_pending : ℕ → Option SenderTransactions → SenderTransactions
  moved_pending a none = []
  moved_pending a (some ts) = moving lib a (accounts a) limit ts

  pub record PendingSwept (entries m m' : AddressToTransactions) (p p' : TxPool) : Type 0 where
    pub lists : (a : ℕ) → or_empty (get a m') ≡ left_pending a (get a entries) (or_empty (get a m))
    pub queues : (a : ℕ) → queued_for p' a ≡ queued_for p a ++ moved_pending a (get a entries)
    pub same_limit : p'.state.block_gas_limit ≡ p.state.block_gas_limit
    pub unique_keys : HasUniqueKeys p.state.queued → HasUniqueKeys p'.state.queued

  PendingSwept-cons :
      (b : ℕ) (ts : SenderTransactions) (rest m m₁ m' : AddressToTransactions) (p p₁ p' : TxPool)
      → get b rest ≡ none
      → Swept lib b
          (accounts b)
          (staying lib b (accounts b) limit ts)
          (moving lib b (accounts b) limit ts)
          m
          m₁
          p
          p₁
      → PendingSwept rest m₁ m' p₁ p'
      → PendingSwept ((b, ts) ∷ rest) m m' p p'
  PendingSwept-cons b ts rest m m₁ m' p p₁ p' fresh w ws = record {
    lists = λ a. elim (Bool-cases (b == a)) [
      | inl here ↦
          subst
            (λ c.
              or_empty (get c m') ≡ left_pending c (get c ((b, ts) ∷ rest)) (or_empty (get c m)))
            ((==_iff b a).0 here) (rw (==_refl b) (ws.lists b ∙ rw (fresh, w.stays) refl))
      | inr ne ↦
          rw ne
            (ws.lists a ∙ ap (λ o. left_pending a (get a rest) (or_empty o)) (w.other_lists a ne))
    ];
    queues = λ a. elim (Bool-cases (b == a)) [
      | inl here ↦
          subst (λ c. queued_for p' c ≡ queued_for p c ++ moved_pending c (get c ((b, ts) ∷ rest)))
            ((==_iff b a).0 here)
            (rw (==_refl b) (ws.queues b ∙ rw fresh (append-nil (queued_for p₁ b)) ∙ w.moves))
      | inr ne ↦
          rw ne (ws.queues a ∙ ap (λ l. l ++ moved_pending a (get a rest)) (w.other_queues a ne))
    ];
    same_limit = ws.same_limit ∙ w.same_limit;
    unique_keys = λ u. ws.unique_keys (w.unique_keys u);
  }

  pub sweep_all_pending-PendingSwept :
      (entries m : AddressToTransactions) (p : TxPool)
      → p.state.block_gas_limit ≡ limit
      → HasUniqueKeys entries
      → Listed entries m
      → (m' : AddressToTransactions) × (p' : TxPool) × (sweep_all_pending lib accounts entries m p
          ≡ ok m' p')
        × PendingSwept entries m m' p p'
  unfolding sweep_all_pending
  sweep_all_pending-PendingSwept [] m p e u l = (
    m,
    p,
    refl,
    record {
      lists = λ a. refl;
      queues = λ a. sym (append-nil (queued_for p a));
      same_limit = refl;
      unique_keys = λ k. k;
    },
  )
  sweep_all_pending-PendingSwept ((b, ts) ∷ rest) m p e u l =
      let (at, c, d) = l b ts (rw (==_refl b) refl) in
      let (m₁, p₁, run, w) =
        subst
          (λ n.
            SweepsTo lib b (accounts b) ts false m p (staying lib b (accounts b) n ts)
              (moving lib b (accounts b) n ts))
          e (sweep_pending-Swept lib b (accounts b) [] ts m p at c d) in
      let (m', p', runs, ws) =
        sweep_all_pending-PendingSwept rest m₁ p₁ (w.same_limit ∙ e) u.1
          (Listed-rest b ts rest m m₁ u.0 w.other_lists l) in
      (m', p', ground (arith, run, runs), PendingSwept-cons b ts rest m m₁ m' p p₁ p' u.0 w ws)

  abbrev pub left_queued : ℕ → Option SenderTransactions → SenderTransactions → SenderTransactions
  left_queued a none old = old
  left_queued a (some ts) old = valid_ones lib (accounts a) limit ts

  pub record AllQueueSwept (entries m m' : AddressToTransactions) (p p' : TxPool) : Type 0 where
    pub lists : (a : ℕ) → or_empty (get a m') ≡ left_queued a (get a entries) (or_empty (get a m))
    pub same_pending : p'.state.pending ≡ p.state.pending

  AllQueueSwept-cons :
      (b : ℕ) (ts : SenderTransactions) (rest m m₁ m' : AddressToTransactions) (p p₁ p' : TxPool)
      → get b rest ≡ none
      → QueueSwept lib (accounts b) b (valid_ones lib (accounts b) limit ts) m m₁ p p₁
      → AllQueueSwept rest m₁ m' p₁ p'
      → AllQueueSwept ((b, ts) ∷ rest) m m' p p'
  AllQueueSwept-cons b ts rest m m₁ m' p p₁ p' fresh w ws = record {
    lists = λ a. elim (Bool-cases (b == a)) [
      | inl here ↦
          subst
            (λ c. or_empty (get c m') ≡ left_queued c (get c ((b, ts) ∷ rest)) (or_empty (get c m)))
            ((==_iff b a).0 here) (rw (==_refl b) (ws.lists b ∙ rw (fresh, w.stays) refl))
      | inr ne ↦
          rw ne
            (ws.lists a ∙ ap (λ o. left_queued a (get a rest) (or_empty o)) (w.other_lists a ne))
    ];
    same_pending = ws.same_pending ∙ w.same_pending;
  }

  pub sweep_all_queued-AllQueueSwept :
      (entries m : AddressToTransactions) (p : TxPool)
      → p.state.block_gas_limit ≡ limit
      → HasUniqueKeys entries
      → Listed entries m
      → (m' : AddressToTransactions) × (p' : TxPool) × (sweep_all_queued lib accounts entries m p
          ≡ ok m' p')
        × AllQueueSwept entries m m' p p'
  unfolding sweep_all_queued
  sweep_all_queued-AllQueueSwept [] m p e u l =
      (m, p, refl, record { lists = λ a. refl; same_pending = refl })
  sweep_all_queued-AllQueueSwept ((b, ts) ∷ rest) m p e u l =
      let (at, c, d) = l b ts (rw (==_refl b) refl) in
      let (m₁, p₁, run, w) = sweep_queued-QueueSwept lib (accounts b) b [] ts m p at c d in
      let swept : QueueSwept lib (accounts b) b (valid_ones lib (accounts b) limit ts) m m₁ p p₁ =
        subst (λ n. QueueSwept lib (accounts b) b (valid_ones lib (accounts b) n ts) m m₁ p p₁) e
          w in
      let (m', p', runs, ws) =
        sweep_all_queued-AllQueueSwept rest m₁ p₁ (w.same_limit ∙ e) u.1
          (Listed-rest b ts rest m m₁ u.0 w.other_lists l) in
      (m', p', ground (arith, run, runs), AllQueueSwept-cons b ts rest m m₁ m' p p₁ p' u.0 swept ws)
