-- ===== src/Fork/State.antt =====
-- The fields of ForkStateManager, and the methods that read. A buffer is its length and the number
-- that it is written for, so that two buffers of a length are one if their numbers are, and a buffer
-- without its leading zeros is the number. Nonces and balances are numbers, and code is its bytes.
use hardhat.Prelude.{
  ℕ, Bool, true, false, ◌&&◌, List, [], Option, none, some, Outcome, ok, throws, ◌==◌,
  if◌then◌else◌,
}
use hardhat.Prelude.Assoc.{get, put}

pub record Buffer : Type 0 where
  pub length : ℕ
  pub number : ℕ

pub data ForkError : Type 0 where
  storage_key_length storage_value_length not_checkpointed checkpointed unknown_state_root :
      ForkError

-- the interface AccountState; a slot that was set to 0 has `none` as value
pub record AccountState : Type 0 where
  pub nonce : Option ℕ
  pub balance : Option ℕ
  pub storage : List (ℕ × Option ℕ)
  pub code : Option (List ℕ)
  pub storage_cleared : Bool

abbrev pub make_account_state : AccountState
make_account_state = record {
  nonce = none;
  balance = none;
  storage = [];
  code = none;
  storage_cleared = false;
}

abbrev pub make_empty_account_state : AccountState
make_empty_account_state = record {
  nonce = some 0;
  balance = some 0;
  storage = [];
  code = some [];
  storage_cleared = true;
}

abbrev pub State : Type 0
State = List (ℕ × AccountState)

-- `next_value` is what the generator behind `randomHash` holds.
pub record ForkStateManager : Type 0 where
  pub state : State
  pub initial_state_root : ℕ
  pub state_root : ℕ
  pub state_root_to_state : List (ℕ × State)
  pub original_storage_cache : List (ℕ × List (ℕ × ℕ))
  pub state_checkpoints : List ℕ
  pub fork_block_number : ℕ
  pub context_block_number : ℕ
  pub context_changed : Bool
  pub next_value : ℕ

-- what `getAccountData` of the client answers
pub record AccountData : Type 0 where
  pub code : List ℕ
  pub transaction_count : ℕ
  pub balance : ℕ

-- The remote node, by address and block number, and keccak256 of a code and of a hash. Different
-- code has different hashes.
pub record Remote : Type 0 where
  pub get_account_data : ℕ → ℕ → AccountData
  pub get_storage_at : ℕ → ℕ → ℕ → ℕ
  pub get_transaction_count : ℕ → ℕ → ℕ
  pub keccak256 : List ℕ → ℕ
  pub keccak256_hash : ℕ → ℕ

-- the fields of an ethereumjs Account that the manager looks at
pub record Account : Type 0 where
  pub nonce : ℕ
  pub balance : ℕ
  pub code_hash : ℕ

abbrev pub Run : Type 0 → Type 0
Run A = Outcome ForkError ForkStateManager A

abbrev pub or_default {ℓ} : {A : Type ℓ} → Option A → A → A
or_default none a = a
or_default (some b) a = b

module _ (remote : Remote) where
  -- `KECCAK256_NULL`
  abbrev pub keccak256_null : ℕ
  keccak256_null = remote.keccak256 []

  -- The remote account is asked for where one of the three is missing, and used for those that are.
  unfoldable pub get_account : ℕ → ForkStateManager → Account
  get_account address m =
      let local_account = or_default (get address m.state) make_account_state in
      let account_data = remote.get_account_data address m.context_block_number in
      record {
        nonce = or_default local_account.nonce account_data.transaction_count;
        balance = or_default local_account.balance account_data.balance;
        code_hash = remote.keccak256 (or_default local_account.code account_data.code);
      }

  unfoldable pub get_contract_code : ℕ → ForkStateManager → List ℕ
  get_contract_code address m =
      let local_code = (or_default (get address m.state) make_account_state).code in
      or_default local_code (remote.get_account_data address m.context_block_number).code

  -- what is read where the slot itself is not set
  abbrev pub unset_storage : AccountState → ℕ → ℕ → ForkStateManager → ℕ
  unset_storage account address position m =
      if account.storage_cleared
      then 0
      else remote.get_storage_at address position m.context_block_number

  -- the slot's value, by its account's local state
  unfoldable pub read_storage : ℕ → ℕ → ForkStateManager → ℕ
  read_storage address position m =
      let account = or_default (get address m.state) make_account_state in
      elim (get position account.storage) [
        | none ↦ unset_storage account address position m
        | some value ↦ or_default value 0
      ]

  unfoldable pub get_contract_storage : ℕ → Buffer → ForkStateManager → Run ℕ
  unfolding read_storage
  get_contract_storage address key m =
      if key.length == 32
      then ok (read_storage address key.number m) m
      else throws storage_key_length m

  unfoldable pub account_is_empty : ℕ → ForkStateManager → Bool
  unfolding get_account
  account_is_empty address m =
      let account = get_account address m in
      account.nonce == 0 && account.balance == 0 && account.code_hash == keccak256_null

  -- a cache entry is under the address and the position
  abbrev pub cached_storage : ℕ → ℕ → ForkStateManager → Option ℕ
  cached_storage address position m =
      get position (or_default (get address m.original_storage_cache) [])

  abbrev pub cache_storage : ℕ → ℕ → ℕ → ForkStateManager → ForkStateManager
  cache_storage address position value m =
      let entries = or_default (get address m.original_storage_cache) [] in
      record m {
        original_storage_cache = put address (put position value entries) m.original_storage_cache;
      }

  unfoldable pub keep_original : ℕ → ℕ → Run ℕ → Run ℕ
  keep_original address position (ok value m) = ok value (cache_storage address position value m)
  keep_original address position (throws e m) = throws e m

  unfoldable pub get_original_contract_storage : ℕ → Buffer → ForkStateManager → Run ℕ
  unfolding get_contract_storage keep_original
  get_original_contract_storage address key m = elim (cached_storage address key.number m) [
    | some value ↦ ok value m
    | none ↦ keep_original address key.number (get_contract_storage address key m)
  ]
