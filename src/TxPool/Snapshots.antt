-- ===== src/TxPool/Snapshots.antt =====
-- Snapshots of the pool: what happens between a snapshot and the revert to it is undone.
use hardhat.Prelude.{
  ℕ, ◌+◌, ◌<◌, ◌≡◌, refl, sym, ap, ◌∙◌, subst, leb, not, List, [], ◌∷◌, some, none, arith, Bool,
  true, false, Bool-cases, Option-cases, keep, ok, throws, after, inl, inr, All,
}
use hardhat.Prelude.Assoc.{get, put, get-put_self, get-put_ne}
use hardhat.Transactions.{TypedTransaction, TxLibrary}
use hardhat.TxPool.Add.{add_transaction}
use hardhat.TxPool.Frame.{Keeps-add, Keeps-remove, Keeps-update}
use hardhat.TxPool.Remove.{remove_transaction}
use hardhat.TxPool.State.{
  Account, PoolState, TxPool, snapshot, revert, remove_snapshots_after, set_block_gas_limit,
  no_such_snapshot,
}
use hardhat.TxPool.Update.{update_pending_and_queued}

get-keep {ℓ} :
    {V : Type ℓ} (keeps : ℕ → Bool) (k : ℕ) (l : List (ℕ × V))
    → keeps k ≡ true
    → get k (keep (λ e. keeps e.0) l) ≡ get k l
get-keep keeps k [] h = refl
get-keep keeps k ((j, v) ∷ l) h = elim (Bool-cases (keeps j)) [
  | inl e ↦ rw e (ground (arith, get-keep keeps k l h))
  | inr e ↦ rw e (ground (arith, get-keep keeps k l h))
]

get-keep_not {ℓ} :
    {V : Type ℓ} (keeps : ℕ → Bool) (k : ℕ) (l : List (ℕ × V))
    → keeps k ≡ false
    → get k (keep (λ e. keeps e.0) l) ≡ none
get-keep_not keeps k [] h = refl
get-keep_not keeps k ((j, v) ∷ l) h = elim (Bool-cases (keeps j)) [
  | inl e ↦ rw e (ground (arith, get-keep_not keeps k l h))
  | inr e ↦ rw e (get-keep_not keeps k l h)
]

-- The methods that change the pool, as the node calls them, with the accounts at the call.
pub data Call : Type 0 where
  add : (ℕ → Account) → TypedTransaction → Call
  remove : ℕ → Call
  update : (ℕ → Account) → Call
  limit : ℕ → Call
  snap : Call
  revert_to : ℕ → Call

-- the calls that do not go back to the snapshot `id` or to one before it
abbrev pub StaysAfter : ℕ → Call → Type 0
StaysAfter id (revert_to k) = id < k
StaysAfter id _ = Unit

module _ (lib : TxLibrary) where
  unfoldable pub call : Call → TxPool → TxPool
  call (add accounts tx) p = after (add_transaction lib accounts tx p)
  call (remove h) p = after (remove_transaction lib h p)
  call (update accounts) p = after (update_pending_and_queued lib accounts p)
  call (limit n) p = set_block_gas_limit n p
  call snap p = (snapshot p).0
  call (revert_to id) p = after (revert id p)

  unfoldable pub calls : List Call → TxPool → TxPool
  unfolding call
  calls [] p = p
  calls (c ∷ cs) p = calls cs (call c p)

  -- the snapshot `id` holds `s`, and new ids are above it
  abbrev Holds : ℕ → PoolState → TxPool → Type 0
  Holds id s p = (get id p.snapshots ≡ some s) × (id < p.next_snapshot_id)

  Holds-call :
      (id : ℕ) (s : PoolState) (c : Call) (p : TxPool)
      → StaysAfter id c
      → Holds id s p
      → Holds id s (call c p)
  unfolding call snapshot revert
  Holds-call id s (add accounts tx) p a h =
      let k = Keeps-add lib accounts tx p in
      (ap (get id) k.0 ∙ h.0, subst (λ n. id < n) (sym k.1) h.1)
  Holds-call id s (remove hash) p a h =
      let k = Keeps-remove lib hash p in (ap (get id) k.0 ∙ h.0, subst (λ n. id < n) (sym k.1) h.1)
  Holds-call id s (update accounts) p a h =
      let k = Keeps-update lib accounts p in
      (ap (get id) k.0 ∙ h.0, subst (λ n. id < n) (sym k.1) h.1)
  Holds-call id s (limit n) p a h = unfold set_block_gas_limit in h
  Holds-call id s snap p a h = (
    ground (arith, get-put_ne p.next_snapshot_id id p.state p.snapshots, h.0, h.1),
    ground (arith, h.1),
  )
  Holds-call id s (revert_to k) p a h = elim (Option-cases (get k p.snapshots)) [
    | inl e ↦ rw (e, revert) h
    | inr (state, e) ↦
        rw (e, revert) (get-keep (λ j. not (leb k j)) id p.snapshots (ground arith) ∙ h.0, h.1)
  ]

  Holds-calls :
      (id : ℕ) (s : PoolState) (cs : List Call) (p : TxPool)
      → All (StaysAfter id) cs
      → Holds id s p
      → Holds id s (calls cs p)
  unfolding calls
  Holds-calls id s [] p a h = h
  Holds-calls id s (c ∷ cs) p a h = Holds-calls id s cs (call c p) a.1 (Holds-call id s c p a.0 h)

  -- A revert to a snapshot brings back exactly the pending lists, the queues, the look-up by hash
  -- and the gas limit of the time of the snapshot, whatever calls were made in between, with
  -- whatever accounts, as long as none of them went back to it or to an earlier one. It does not throw, and uses the snapshot up:
  -- a second revert to it throws.
  pub revert-snapshot :
      (cs : List Call) (p : TxPool)
      → let (taken, id) = snapshot p in
        All (StaysAfter id) cs
        → (q : TxPool) × (revert id (calls cs taken) ≡ ok tt q)
          × (q.state ≡ p.state)
          × (revert id q ≡ throws no_such_snapshot q)
  unfolding snapshot revert
  revert-snapshot cs p stays =
      let id = p.next_snapshot_id in
      let taken : TxPool = record p {
        snapshots = put id p.state p.snapshots;
        next_snapshot_id = id + 1;
      } in
      let end = calls cs taken in
      let h =
        Holds-calls id p.state cs taken stays (get-put_self id p.state p.snapshots, omega arith) in
      let left = remove_snapshots_after id end.snapshots in
      let used_up = get-keep_not (λ j. not (leb id j)) id end.snapshots (ground arith) in
      (
        record end { state = p.state; snapshots = left },
        rw (h.0, revert) refl,
        refl,
        rw (used_up, revert) refl,
      )
