-- ===== src/Fork/World.antt =====
-- What the state of a forked network promises: an account and a value of every slot for every
-- address, whether the remote node or a write gave it.
use hardhat.Prelude.{ℕ, ◌&&◌, List, [], ◌∷◌, after, ◌==◌, leb, if◌then◌else◌}
use hardhat.Fork.State.{
  Buffer, ForkStateManager, Remote, Account, get_account, get_contract_code, read_storage,
  keccak256_null,
}
use hardhat.Fork.Writes.{
  put_contract_storage, clear_contract_storage, put_contract_code, delete_account, put_account,
}

pub record World : Type 0 where
  pub nonce : ℕ → ℕ
  pub balance : ℕ → ℕ
  pub code : ℕ → List ℕ
  pub storage : ℕ → ℕ → ℕ

-- a call of a method that changes an account
pub data Write : Type 0 where
  put_storage : ℕ → Buffer → Buffer → Write
  clear_storage : ℕ → Write
  put_code : ℕ → List ℕ → Write
  delete : ℕ → Write
  put : ℕ → Account → Write

-- the function that has another value at an address
abbrev pub update {ℓ} : {A : Type ℓ} → ℕ → A → (ℕ → A) → ℕ → A
update k v f j = if k == j then v else f j

module _ (remote : Remote) where
  unfoldable pub perform : Write → ForkStateManager → ForkStateManager
  unfolding put_contract_storage clear_contract_storage put_contract_code delete_account put_account
  perform (put_storage address key value) m = after (put_contract_storage address key value m)
  perform (clear_storage address) m = clear_contract_storage address m
  perform (put_code address code) m = put_contract_code address code m
  perform (delete address) m = delete_account address m
  perform (put address account) m = put_account remote address account m

  -- what the methods that read answer
  abbrev pub world : ForkStateManager → World
  world m = record {
    nonce = λ a. (get_account remote a m).nonce;
    balance = λ a. (get_account remote a m).balance;
    code = λ a. get_contract_code remote a m;
    storage = λ a p. read_storage remote a p m;
  }

  -- what a write is to change: a write with a key or a value of another length changes nothing
  abbrev pub effect : Write → World → World
  effect (put_storage address key value) w =
      if key.length == 32 && leb value.length 32
      then record w {
        storage = update address (update key.number value.number (w.storage address)) w.storage;
      }
      else w
  effect (clear_storage address) w = record w { storage = update address (λ p. 0) w.storage }
  effect (put_code address code) w = record w { code = update address code w.code }
  effect (delete address) w = record {
    nonce = update address 0 w.nonce;
    balance = update address 0 w.balance;
    code = update address [] w.code;
    storage = update address (λ p. 0) w.storage;
  }
  effect (put address account) w = record w {
    nonce = update address account.nonce w.nonce;
    balance = update address account.balance w.balance;
    code = if account.code_hash == keccak256_null remote then update address [] w.code else w.code;
  }

  unfoldable pub perform_all : List Write → ForkStateManager → ForkStateManager
  unfolding perform
  perform_all [] m = m
  perform_all (w ∷ ws) m = perform_all ws (perform w m)

  abbrev pub effects : List Write → World → World
  effects [] v = v
  effects (w ∷ ws) v = effects ws (effect w v)
