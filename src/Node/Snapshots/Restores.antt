-- ===== src/Node/Snapshots/Restores.antt =====
-- A revert brings back the node of the snapshot.
use mathlib.Core.List.{append_assoc}
use hardhat.Prelude.{
  ℕ, zero, suc, ◌+◌, ◌<◌, ◌≡◌, refl, sym, ap, ◌∙◌, subst, true, false, List, [], ◌∷◌, ◌++◌, none,
  some, All, ok, throws, length, take, get_elem?, arith, inl, inr, Bool-cases, if◌then◌else◌, Bool,
  ◌>>◌,
}
use hardhat.Prelude.Assoc.{get}
use hardhat.Blockchain.Chain.{
  HardhatBlockchain, Result, on_data, or_throw, get_latest_block, get_block,
}
use hardhat.Blockchain.Data.{
  BlockchainData, block_not_found, fulfill_block_reservation, is_reserved_block,
}
use hardhat.Blockchain.Deletion.{IsNumbered, Deleted, delete_later_blocks-Deleted}
use hardhat.Blockchain.Reservations.{reserved-count}
use hardhat.Blockchain.Timestamps.{IsSound}
use hardhat.Blockchain.Types.{Block, BlockLibrary}
use hardhat.Node.Clock.{revert_clock}
use hardhat.Node.Snapshots.{
  Snapshot, NodeState, get_snapshot_index, root_of, latest_block_of, snapshot_of, make_snapshot,
  take_snapshot, restore_chain, restore_rest, revert_to_snapshot,
}
use hardhat.Transactions.{TxLibrary}
use hardhat.TxPool.Snapshots.{Call, StaysAfter, calls, revert-snapshot}
use hardhat.TxPool.State
use hardhat.TxPool.State.{TxPool}

-- the ids of the snapshots are below `k`
abbrev pub AreBelow : ℕ → List Snapshot → Type 0
AreBelow k ss = All (λ (s : Snapshot). s.id < k) ss

index-appended :
    (ss later : List Snapshot) (s : Snapshot)
    → AreBelow s.id ss
    → get_snapshot_index s.id (ss ++ s ∷ later) ≡ some (length ss)
unfolding get_snapshot_index
index-appended [] later s below = ground arith
index-appended (t ∷ ss) later s below = ground (arith, index-appended ss later s below.1, below.0)

index-none : (k : ℕ) (ss : List Snapshot) → AreBelow k ss → get_snapshot_index k ss ≡ none
unfolding get_snapshot_index
index-none k [] below = refl
index-none k (t ∷ ss) below = ground (arith, index-none k ss below.1, below.0)

elem-appended :
    (ss later : List Snapshot) (s : Snapshot) → get_elem? (ss ++ s ∷ later) (length ss) ≡ some s
elem-appended [] later s = refl
elem-appended (t ∷ ss) later s = elem-appended ss later s

take-appended : (ss later : List Snapshot) → take (length ss) (ss ++ later) ≡ ss
take-appended [] later = refl
take-appended (t ∷ ss) later = ap (λ r. t ∷ r) (take-appended ss later)

module _ (lib : BlockLibrary) where
  made_block :
      (n : ℕ) (c : HardhatBlockchain) (b : Block)
      → is_reserved_block n c.state ≡ false
      → get n c.state.blocks_by_number ≡ some b
      → get_block lib n c ≡ ok b c
  unfolding get_block
  made_block n c b free made =
      let read = λ (z : Bool).
        ((do
          λ c'. if z then on_data (fulfill_block_reservation lib n) c' else ok tt c'
          λ c'. or_throw (get n c'.state.blocks_by_number) block_not_found c')
          c) in
      subst (λ z. read z ≡ ok b c) (sym free) (ap (λ o. or_throw o block_not_found c) made)

  latest_is :
      (c : HardhatBlockchain) (b : Block)
      → c.length ≡ suc b.number
      → is_reserved_block b.number c.state ≡ false
      → get b.number c.state.blocks_by_number ≡ some b
      → get_latest_block lib c ≡ ok b c
  unfolding get_latest_block
  latest_is c b long free made =
      let read : ℕ → Result Block =
        λ k. elim k [ zero ↦ throws block_not_found c | suc n ↦ get_block lib n c ] in
      subst (λ k. read k ≡ ok b c) (sym long) (made_block b.number c b free made)

  -- the block is in the chain, which keeps its own order
  pub record IsInChain (b : Block) (c : HardhatBlockchain) : Type 0 where
    pub sound : IsSound c.state
    pub numbered : IsNumbered c.state
    pub by_hash : get (lib.block_hash b) c.state.blocks_by_hash ≡ some b
    pub by_number : get b.number c.state.blocks_by_number ≡ some b

  abbrev restored : ℕ → Snapshot → HardhatBlockchain → NodeState → NodeState
  restored now s c n = record n {
    chain = c;
    irregular_states = s.irregular_states;
    state_root = root_of s.latest_block s.irregular_states s.state_root;
    clock = revert_clock s.date now s.clock;
  }

  restore_chain_lem :
      (now : ℕ) (s : Snapshot) (n : NodeState)
      → IsInChain s.latest_block n.chain
      → (d : BlockchainData) × (restore_chain lib now s n
          ≡ ok tt (restored now s (record { state = d; length = s.latest_block.number + 1 }) n))
        × Deleted s.latest_block.number (s.latest_block.number + 1) n.chain.length n.chain.state d
  unfolding restore_chain latest_block_of
  restore_chain_lem now s n v =
      let b = s.latest_block in
      let (d, run, w) =
        delete_later_blocks-Deleted lib n.chain b b v.sound v.numbered v.by_hash v.by_number in
      let made : get b.number d.blocks_by_number ≡ some b =
        w.kept b.number (omega arith) ∙ v.by_number in
      let free : is_reserved_block b.number d ≡ false =
        elim (Bool-cases (is_reserved_block b.number d)) [
          | inr free ↦ free
          | inl reserved ↦
              let some_cover = (reserved-count b.number d).0 reserved in
              let missing =
                v.sound.unmade b.number (omega (arith, some_cover, w.no_more b.number)) in
              absurd (ground (arith, missing, v.by_number))
        ] in
      let latest =
        latest_is (record { state = d; length = b.number + 1 }) b (omega arith) free made in
      (d, rw (restore_chain, run, latest_block_of, latest) refl, w)

-- `n'` is, for the snapshot that was taken of `n` with its latest block `b`, what the revert makes
-- of `m`.
pub record IsRestored (lib : BlockLibrary) (taken now : ℕ) (b : Block) (n m n' : NodeState)
    : Type 0 where
  pub same_pool : n'.pool.state ≡ n.pool.state
  pub ends_with : n'.chain.length ≡ b.number + 1
  pub later_deleted : Deleted b.number (b.number + 1) m.chain.length m.chain.state n'.chain.state
  pub root : n'.state_root ≡ root_of b n.irregular_states n.state_root
  pub clock_set : n'.clock ≡ revert_clock taken now n.clock
  pub same_irregular : n'.irregular_states ≡ n.irregular_states
  pub same_base_fee : n'.user_provided_base_fee ≡ n.user_provided_base_fee
  pub same_coinbase : n'.coinbase ≡ n.coinbase
  pub same_generator : n'.mix_hash_generator ≡ n.mix_hash_generator
  pub same_snapshots : n'.snapshots ≡ n.snapshots
  pub used_up : revert_to_snapshot lib now n.next_snapshot_id n' ≡ ok false n'

module _ (lib : BlockLibrary) (txs : TxLibrary) where
  -- A snapshot is taken of a node whose latest block is made and whose snapshots have lower ids.
  -- Later, when newer snapshots may have been taken, the pool has been called in any way that does
  -- not go back to the snapshot or to an earlier one, each call with accounts of its own, and the
  -- block is still in a sound chain, the revert to the snapshot returns true. The pool, the base fee, the coinbase, the irregular states
  -- and the generator are those of the snapshot, the blocks behind its latest block are gone, the
  -- made blocks up to it and the reservations before it are as they were before the revert, the
  -- state root is the one of that block, the clock is set back, and the snapshots are the older
  -- ones: a second revert returns false and changes nothing.
  pub revert_to_snapshot-IsRestored :
      (taken now : ℕ) (b : Block) (n m : NodeState) (later : List Snapshot) (cs : List Call)
      → let n₁ = make_snapshot taken b n in
        AreBelow n.next_snapshot_id n.snapshots
        → latest_block_of lib n ≡ ok b n
        → m.snapshots ≡ n₁.snapshots ++ later
        → m.pool ≡ calls txs cs n₁.pool
        → All (StaysAfter n.pool.next_snapshot_id) cs
        → IsInChain lib b m.chain
        → (take_snapshot lib taken n ≡ ok n.next_snapshot_id n₁)
          × (n' : NodeState) × (revert_to_snapshot lib now n.next_snapshot_id m ≡ ok true n')
          × IsRestored lib taken now b n m n'
  unfolding make_snapshot take_snapshot revert_to_snapshot restore_rest State.snapshot
  revert_to_snapshot-IsRestored taken now b n m later cs below latest snaps pool stays chain =
      let id = n.next_snapshot_id in
      let s = snapshot_of taken b n in
      let i = length n.snapshots in
      let held : m.snapshots ≡ n.snapshots ++ s ∷ later =
        snaps ∙ append_assoc n.snapshots (s ∷ []) later in
      let at : get_snapshot_index id m.snapshots ≡ some i =
        ap (get_snapshot_index id) held ∙ index-appended n.snapshots later s below in
      let found : get_elem? m.snapshots i ≡ some s =
        ap (λ l. get_elem? l i) held ∙ elem-appended n.snapshots later s in
      let (d, restored_chain, deleted) = restore_chain_lem lib now s m chain in
      let (q, reverted, same_state, unused) = revert-snapshot txs cs n.pool stays in
      let pool_run : State.revert s.tx_pool_snapshot_id m.pool ≡ ok tt q =
        ap (State.revert s.tx_pool_snapshot_id) pool ∙ reverted in
      let older : take i m.snapshots ≡ n.snapshots =
        ap (take i) held ∙ take-appended n.snapshots (s ∷ later) in
      let none_left : get_snapshot_index id (take i m.snapshots) ≡ none =
        ap (get_snapshot_index id) older ∙ index-none id n.snapshots below in
      let end : NodeState =
        record (restored lib now s (record { state = d; length = b.number + 1 }) m) {
          pool = q;
          user_provided_base_fee = s.user_provided_base_fee;
          coinbase = s.coinbase;
          mix_hash_generator = s.mix_hash_generator;
          snapshots = take i m.snapshots;
        } in
      (
        rw (take_snapshot, latest) refl,
        end,
        rw (revert_to_snapshot, at, found, restored_chain, restore_rest, pool_run) refl,
        record {
          same_pool = same_state;
          ends_with = refl;
          later_deleted = deleted;
          root = refl;
          clock_set = refl;
          same_irregular = refl;
          same_base_fee = refl;
          same_coinbase = refl;
          same_generator = refl;
          same_snapshots = older;
          used_up = rw (revert_to_snapshot, none_left) refl;
        },
      )
