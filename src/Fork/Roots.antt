-- ===== src/Fork/Roots.antt =====
-- The methods of ForkStateManager on state roots, checkpoints and the block that is looked at, and
-- _runInBlockContext of node.ts for a block that is not the latest, over a forked network.
use hardhat.Prelude.{
  ℕ, Bool, true, false, List, [], ◌∷◌, Option, none, some, ok, throws, ◌==◌, ltb, if◌then◌else◌,
}
use hardhat.Prelude.Assoc.{get, put}
use hardhat.Fork.State.{
  not_checkpointed, checkpointed, unknown_state_root, State, ForkStateManager, Remote, Run,
}

-- The remote node, and the test whether two immutable maps are one object: if so, they are equal.
module _ (remote : Remote) (is_same : State → State → Bool) where
  -- `randomHash()`: the value that the generator held
  abbrev pub draw : ForkStateManager → ForkStateManager
  draw m = record m { next_value = remote.keccak256_hash m.next_value }

  unfoldable pub init : ℕ → ℕ → ForkStateManager
  init fork_block_number next_value = record {
    state = [];
    initial_state_root = next_value;
    state_root = next_value;
    state_root_to_state = (next_value, []) ∷ [];
    original_storage_cache = [];
    state_checkpoints = [];
    fork_block_number = fork_block_number;
    context_block_number = fork_block_number;
    context_changed = false;
    next_value = remote.keccak256_hash next_value;
  }

  -- the copy, and the manager itself, which draws from the same generator
  unfoldable pub copy : ForkStateManager → ForkStateManager × ForkStateManager
  unfolding init
  copy m = (
    record (init m.fork_block_number m.next_value) {
      state = m.state;
      state_root = m.state_root;
      state_root_to_state = m.state_root_to_state;
    },
    draw m,
  )

  -- `this._stateRootToState.get(this._stateRoot) === this._state`
  abbrev pub is_state_known : ForkStateManager → Bool
  is_state_known m = elim (get m.state_root m.state_root_to_state) [
    | none ↦ false
    | some s ↦ is_same s m.state
  ]

  unfoldable pub get_state_root : ForkStateManager → ℕ × ForkStateManager
  get_state_root m = if is_state_known m then (m.state_root, m) else (
    m.next_value,
    record (draw m) {
      state_root = m.next_value;
      state_root_to_state = put m.next_value m.state m.state_root_to_state;
    },
  )

  unfoldable pub set_state_root : ℕ → ForkStateManager → Run (Unit {0})
  set_state_root root m = elim (get root m.state_root_to_state) [
    | none ↦ throws unknown_state_root m
    | some s ↦ ok tt (record m { state_root = root; state = s })
  ]

  -- looks among the accounts
  unfoldable pub has_state_root : ℕ → ForkStateManager → Bool
  has_state_root root m = elim (get root m.state) [ none ↦ false | some a ↦ true ]

  -- the stack of the checkpoints has the newest first
  unfoldable pub checkpoint : ForkStateManager → ForkStateManager
  unfolding get_state_root
  checkpoint m =
      let (root, m') = get_state_root m in
      record m' { state_checkpoints = root ∷ m'.state_checkpoints }

  abbrev pub commit_top : List ℕ → ForkStateManager → Run (Unit {0})
  commit_top [] m = throws not_checkpointed m
  commit_top (root ∷ roots) m = ok tt (record m { state_checkpoints = roots })

  unfoldable pub commit : ForkStateManager → Run (Unit {0})
  commit m = commit_top m.state_checkpoints m

  abbrev pub revert_top : List ℕ → ForkStateManager → Run (Unit {0})
  revert_top [] m = throws not_checkpointed m
  revert_top (root ∷ roots) m = set_state_root root (record m { state_checkpoints = roots })

  unfoldable pub revert : ForkStateManager → Run (Unit {0})
  unfolding set_state_root
  revert m = revert_top m.state_checkpoints m

  -- the context of a block before the one that was forked at: nothing is changed locally
  abbrev pub remote_context : ℕ → ℕ → ForkStateManager → ForkStateManager
  remote_context state_root block_number m = record m {
    context_changed = true;
    state = [];
    state_root = state_root;
    state_root_to_state = put state_root [] m.state_root_to_state;
    context_block_number = block_number;
  }

  abbrev pub choose_context : ℕ → ℕ → Option ℕ → ForkStateManager → Run (Unit {0})
  choose_context state_root block_number (some irregular_state) m = set_state_root irregular_state m
  choose_context state_root block_number none m =
      if block_number == m.fork_block_number
      then set_state_root m.initial_state_root m
      else if ltb m.fork_block_number block_number
      then set_state_root state_root m
      else ok tt (remote_context state_root block_number m)

  abbrev pub is_checkpointed : List ℕ → Bool
  is_checkpointed [] = false
  is_checkpointed (root ∷ roots) = true

  unfoldable pub set_block_context : ℕ → ℕ → Option ℕ → ForkStateManager → Run (Unit {0})
  unfolding set_state_root
  set_block_context state_root block_number irregular_state m =
      if is_checkpointed m.state_checkpoints
      then throws checkpointed m
      else choose_context state_root block_number irregular_state m

  abbrev pub back_to_fork : ForkStateManager → ForkStateManager
  back_to_fork m =
      if m.context_changed
      then record m { context_changed = false; context_block_number = m.fork_block_number }
      else m

  abbrev pub back_after : Run (Unit {0}) → Run (Unit {0})
  back_after (ok v m) = ok v (back_to_fork m)
  back_after (throws e m) = throws e m

  unfoldable pub restore_fork_block_context : ℕ → ForkStateManager → Run (Unit {0})
  unfolding set_state_root
  restore_fork_block_context state_root m =
      if is_checkpointed m.state_checkpoints
      then throws checkpointed m
      else back_after (set_state_root state_root m)

  -- what an action ended with, once the block of before is looked at again; an error of that wins
  abbrev pub with_result : {A : Type 0} → Run A → Run (Unit {0}) → Run A
  with_result result (throws e m) = throws e m
  with_result (ok v _) (ok _ m) = ok v m
  with_result (throws e _) (ok _ m) = throws e m

  abbrev pub state_after : {A : Type 0} → Run A → ForkStateManager
  state_after (ok v m) = m
  state_after (throws e m) = m

  abbrev pub act_and_restore :
      {A : Type 0} → ℕ → (ForkStateManager → Run A) → Run (Unit {0}) → Run A
  act_and_restore root action (throws e m) = throws e m
  act_and_restore root action (ok _ m) =
      let result = action m in
      with_result result (restore_fork_block_context root (state_after result))

  -- the block's state root, number and irregular state
  unfoldable pub run_in_block_context :
      {A : Type 0} → ℕ → ℕ → Option ℕ → (ForkStateManager → Run A) → ForkStateManager → Run A
  unfolding get_state_root set_block_context restore_fork_block_context
  run_in_block_context state_root block_number irregular_state action m =
      let (root, m') = get_state_root m in
      act_and_restore root action (set_block_context state_root block_number irregular_state m')
