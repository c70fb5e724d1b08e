-- ===== src/Examples/ForkRuns.antt =====
-- A forked network with two accounts that were changed, one of them cleared.
use hardhat.Prelude.{
  ℕ, suc, ◌+◌, ◌*◌, ◌≡◌, refl, Bool, true, false, List, [], ◌∷◌, none, ok, throws, arith,
}
use hardhat.Fork.State.{
  State, Buffer, ForkStateManager, Remote, unknown_state_root, Run, read_storage,
}
use hardhat.Fork.Roots.{
  copy, set_state_root, get_state_root, checkpoint, commit, revert, set_block_context,
  run_in_block_context, state_after,
}
use hardhat.Fork.Kept.{Keeps, Keeps-refl}
use hardhat.Fork.Copies.{copy-unknown_state_root}
use hardhat.Fork.Returns.{IsBack}
use hardhat.Fork.World.{
  Write, put_storage, clear_storage, delete, put, world, perform, perform_all, effects,
}
use hardhat.Fork.Refinement.{SameWorld, perform_all-SameWorld}
use hardhat.Fork.Checkpoints.{Calls, done, write, reverted, revert-checkpoint}
use hardhat.Fork.Contexts.{run_in_block_context-IsBack}

abbrev remote : Remote
remote = record {
  get_account_data = λ a b. record { code = a ∷ []; transaction_count = b; balance = 100 };
  get_storage_at = λ a p b. a + p * b;
  get_transaction_count = λ a b. b;
  keccak256 = λ code. elim code [ [] ↦ 0 | c ∷ cs ↦ suc c ];
  keccak256_hash = suc;
}

-- no two maps are one object
abbrev is_same : State → State → Bool
is_same a b = false

is_same-≡ : (a b : State) → is_same a b ≡ true → a ≡ b
is_same-≡ a b e = cc

abbrev word : ℕ → Buffer
word n = record { length = 32; number = n }

abbrev writes : List Write
writes =
    put_storage 7 (word 3) (word 9)
    ∷ clear_storage 8
    ∷ put 9 (record { nonce = 1; balance = 5; code_hash = 0 })
    ∷ put_storage 8 (word 1) (word 0)
    ∷ delete 7
    ∷ []

abbrev started : ForkStateManager
started = record {
  state = [];
  initial_state_root = 40;
  state_root = 40;
  state_root_to_state = (40, []) ∷ [];
  original_storage_cache = [];
  state_checkpoints = [];
  fork_block_number = 10;
  context_block_number = 10;
  context_changed = false;
  next_value = 41;
}

perform_all-SameWorld_example :
    SameWorld
      (world remote (perform_all remote writes started))
      (effects remote writes (world remote started))
perform_all-SameWorld_example = perform_all-SameWorld remote writes started

abbrev after_checkpoint : ForkStateManager
after_checkpoint = record started {
  state_root = 41;
  state_root_to_state = (40, []) ∷ (41, []) ∷ [];
  state_checkpoints = 41 ∷ [];
  next_value = 42;
}

abbrev after_nested : ForkStateManager
after_nested = record after_checkpoint {
  state_root = 42;
  state_root_to_state = (40, []) ∷ (41, []) ∷ (42, []) ∷ [];
  next_value = 43;
}

after_writes : ForkStateManager
after_writes = perform remote (delete 7) after_nested

-- a nested checkpoint that is reverted, and a write behind it
calls : Calls remote is_same (checkpoint remote is_same started) after_writes
unfolding checkpoint get_state_root revert set_state_root after_writes
calls =
    reverted after_checkpoint (record after_nested { state_checkpoints = 42 ∷ 41 ∷ [] })
      after_nested after_writes refl
      (done _ (record after_nested { state_checkpoints = 42 ∷ 41 ∷ [] }) refl) refl
      (write (delete 7) after_nested after_writes (done after_writes after_writes refl))

revert-checkpoint_example :
    ((o : ForkStateManager) × (revert remote is_same after_writes ≡ ok tt o)
      × (o.state ≡ [])
      × Keeps remote is_same started o)
    × ((o : ForkStateManager) × (commit remote is_same after_writes ≡ ok tt o)
        × (o.state ≡ after_writes.state)
        × Keeps remote is_same started o)
revert-checkpoint_example =
    revert-checkpoint remote is_same is_same-≡ started after_writes refl calls

-- reads a slot
abbrev action : ForkStateManager → Run ℕ
action m = ok (read_storage remote 7 3 m) m

run_in_block_context-IsBack_example :
    IsBack remote is_same started
      (state_after remote is_same (run_in_block_context remote is_same 99 4 none action started))
unfolding get_state_root
run_in_block_context-IsBack_example =
    run_in_block_context-IsBack remote is_same action is_same-≡ 99 4 none started
      (λ s. Keeps-refl remote is_same s) (omega arith) refl refl refl refl

copy-unknown_state_root_example :
    let (fsm, original) = copy remote is_same started in
    (set_block_context remote is_same 99 10 none original
      ≡ ok tt (record original { state_root = 40; state = [] }))
    × (set_block_context remote is_same 99 10 none fsm ≡ throws unknown_state_root fsm)
copy-unknown_state_root_example =
    copy-unknown_state_root remote is_same started [] 99 refl refl refl
