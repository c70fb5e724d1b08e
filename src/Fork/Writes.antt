-- ===== src/Fork/Writes.antt =====
-- The methods of ForkStateManager that change the accounts.
use hardhat.Prelude.{
  ℕ, true, List, [], ◌∷◌, Option, none, some, ok, throws, ◌==◌, ltb, if◌then◌else◌,
}
use hardhat.Prelude.Assoc.{get, put}
use hardhat.Fork.State.{
  Buffer, storage_key_length, storage_value_length, AccountState, make_account_state,
  make_empty_account_state, ForkStateManager, Remote, Account, Run, or_default, keccak256_null,
  get_account,
}

abbrev pub local_account : ℕ → ForkStateManager → AccountState
local_account address m = or_default (get address m.state) make_account_state

abbrev pub set_account : ℕ → AccountState → ForkStateManager → ForkStateManager
set_account address account m = record m { state = put address account m.state }

-- `null` for a value that is empty or only zeros
abbrev pub slot_value : ℕ → Option ℕ
slot_value number = if number == 0 then none else some number

unfoldable pub write_storage : ℕ → ℕ → ℕ → ForkStateManager → ForkStateManager
write_storage address position number m =
    let account = local_account address m in
    set_account address
      (record account { storage = put position (slot_value number) account.storage }) m

unfoldable pub put_contract_storage : ℕ → Buffer → Buffer → ForkStateManager → Run (Unit {0})
unfolding write_storage
put_contract_storage address key value m =
    if key.length == 32
    then (if ltb 32 value.length
        then throws storage_value_length m
        else ok tt (write_storage address key.number value.number m))
    else throws storage_key_length m

unfoldable pub clear_contract_storage : ℕ → ForkStateManager → ForkStateManager
clear_contract_storage address m =
    set_account address (record (local_account address m) { storage_cleared = true; storage = [] })
      m

unfoldable pub put_contract_code : ℕ → List ℕ → ForkStateManager → ForkStateManager
put_contract_code address value m =
    set_account address (record (local_account address m) { code = some value }) m

unfoldable pub delete_account : ℕ → ForkStateManager → ForkStateManager
delete_account address m = set_account address make_empty_account_state m

unfoldable pub clear_original_storage_cache : ForkStateManager → ForkStateManager
clear_original_storage_cache m = record m { original_storage_cache = [] }

-- a field of `accountFields`, or what the account has
pub record AccountFields : Type 0 where
  pub nonce : Option ℕ
  pub balance : Option ℕ
  pub code_hash : Option ℕ

module _ (remote : Remote) where
  -- The code hash is looked at only to see whether there is no code.
  unfoldable pub put_account : ℕ → Account → ForkStateManager → ForkStateManager
  put_account address account m =
      let old = local_account address m in
      let code = if account.code_hash == keccak256_null remote then some [] else old.code in
      set_account address
        (record old { nonce = some account.nonce; balance = some account.balance; code = code }) m

  unfoldable pub modify_account_fields : ℕ → AccountFields → ForkStateManager → ForkStateManager
  unfolding put_account get_account
  modify_account_fields address fields m =
      let account = get_account remote address m in
      put_account address
        (record {
          nonce = or_default fields.nonce account.nonce;
          balance = or_default fields.balance account.balance;
          code_hash = or_default fields.code_hash account.code_hash;
        })
        m

  -- the loop of `initializeGenesisAccounts`, over the addresses and balances of the accounts
  unfoldable pub put_genesis_accounts : List (ℕ × ℕ) → ForkStateManager → ForkStateManager
  unfolding put_account
  put_genesis_accounts [] m = m
  put_genesis_accounts ((address, balance) ∷ accounts) m =
      let nonce = remote.get_transaction_count address m.fork_block_number in
      put_genesis_accounts accounts (
        put_account address
          (record { nonce = nonce; balance = balance; code_hash = keccak256_null remote }) m)

  unfoldable pub initialize_genesis_accounts : List (ℕ × ℕ) → ForkStateManager → ForkStateManager
  unfolding put_genesis_accounts
  initialize_genesis_accounts accounts m =
      let m' = put_genesis_accounts accounts m in
      record m' { state_root_to_state = put m.initial_state_root m'.state m'.state_root_to_state }
