-- ===== src/Fork/Copies.antt =====
-- The context of an earlier block, and the copy of a manager.
use hardhat.Prelude.{ℕ, ◌<◌, ◌≡◌, refl, ◌∙◌, Bool, [], none, some, ok, throws, arith}
use hardhat.Prelude.Assoc.{get}
use hardhat.Fork.State.{
  State, ForkStateManager, Remote, get_account, get_contract_code, read_storage,
}
use hardhat.Fork.State.{unknown_state_root}
use hardhat.Fork.Roots.{
  set_state_root, copy, init, set_block_context, choose_context, remote_context,
}
use hardhat.Fork.Checkpoints.{set_root-known}
use hardhat.Fork.Kept.{IsFresh}
use hardhat.Fork.Returns.{set_unchecked, set_root-unknown}

module _ (remote : Remote) (is_same : State → State → Bool) where
  -- In the context of a block before the one that was forked at, without a checkpoint and without an
  -- irregular state, all that is read is what the remote node has at that block.
  pub set_block_context-remote :
      (state_root block_number : ℕ) (m : ForkStateManager)
      → m.state_checkpoints ≡ []
      → block_number < m.fork_block_number
      → (m' : ForkStateManager) × (set_block_context remote is_same state_root block_number none m
          ≡ ok tt m')
        × ((a : ℕ)
            → (get_contract_code remote a m' ≡ (remote.get_account_data a block_number).code)
              × ((get_account remote a m').nonce
                  ≡ (remote.get_account_data a block_number).transaction_count)
              × ((get_account remote a m').balance
                  ≡ (remote.get_account_data a block_number).balance))
        × ((a p : ℕ) → read_storage remote a p m' ≡ remote.get_storage_at a p block_number)
  unfolding get_account get_contract_code read_storage
  set_block_context-remote state_root block_number m c lt = (
    remote_context remote is_same state_root block_number m,
    set_unchecked remote is_same state_root block_number none m c ∙ ground arith,
    (λ a. (refl, refl, refl)),
    (λ a p. refl),
  )

  at_fork :
      (n : ForkStateManager) (state_root : ℕ)
      → choose_context remote is_same state_root n.fork_block_number none n
        ≡ set_state_root remote is_same n.initial_state_root n
  at_fork n state_root = ground arith

  -- A copy of a manager shares its states, but has drawn another initial state root, which is not
  -- among them: where the original, once it has been copied, goes back to the state at the forked
  -- block, the copy throws.
  pub copy-unknown_state_root :
      (m : ForkStateManager) (s : State) (state_root : ℕ)
      → let (fsm, original) = copy remote is_same m in
        IsFresh remote is_same m
        → m.state_checkpoints ≡ []
        → get m.initial_state_root m.state_root_to_state ≡ some s
        → (set_block_context remote is_same state_root m.fork_block_number none original
            ≡ ok tt (record original { state_root = m.initial_state_root; state = s }))
          × (set_block_context remote is_same state_root m.fork_block_number none fsm
              ≡ throws unknown_state_root fsm)
  unfolding copy init
  copy-unknown_state_root m s state_root fresh c known =
      let (fsm, original) = copy remote is_same m in
      (
        set_unchecked remote is_same state_root m.fork_block_number none original c
            ∙ at_fork original state_root
            ∙ set_root-known remote is_same original m.initial_state_root s known,
        set_unchecked remote is_same state_root m.fork_block_number none fsm refl
            ∙ at_fork fsm state_root
            ∙ set_root-unknown remote is_same m.next_value fsm fresh,
      )
