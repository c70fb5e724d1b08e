-- ===== src/Examples/AutomineRuns.antt =====
-- The validation for automining, of the third transfer to a pool of two.
use hardhat.Prelude.{ℕ, ◌≡◌, refl, true, none, some, ok, throws, ◌⊎◌, arith}
use hardhat.Examples.Libraries.{library, transfer, accounts}
use hardhat.Examples.NodeRuns.{pool_of_two}
use hardhat.Node.Assembly.{MiningConfig, is_tx_minable}
use hardhat.Node.Automine.{
  BaseFeeSource, validate_automined_tx, get_next_block_base_fee_per_gas, nonce_too_high,
}
use hardhat.Node.Automine.Readiness.{validate_automined-minable}
use hardhat.Transactions.{sender_of, deserialize_transaction}
use hardhat.TransactionQueue.Comparators.{priority}
use hardhat.TxPool.Add.{add_transaction}
use hardhat.TxPool.Filed.{HoldsPending}
use hardhat.TxPool.State.{TxPool, PoolError, get_next_pending_nonce}

abbrev source : BaseFeeSource
source = record { is_eip_1559_active = true; user_provided = none; calculated = 8 }

abbrev mining : MiningConfig
mining = record {
  min_gas_price = 5;
  block_gas_limit = 50000;
  minimal_transaction_fee = 21000;
  mempool_order = priority;
  base_fee = some 8;
}

gap_is_refused :
    validate_automined_tx library accounts 5 source (transfer 3 10) pool_of_two
    ≡ some nonce_too_high
unfolding validate_automined_tx sender_of get_next_pending_nonce deserialize_transaction
gap_is_refused = refl

third_passes : validate_automined_tx library accounts 5 source (transfer 2 10) pool_of_two ≡ none
unfolding validate_automined_tx sender_of get_next_pending_nonce deserialize_transaction
third_passes = refl

base_fee_is : some 8 ≡ get_next_block_base_fee_per_gas source
unfolding get_next_block_base_fee_per_gas
base_fee_is = refl

validate_automined-minable_example :
    (is_tx_minable mining (transfer 2 10) ≡ true)
    × (((e : PoolError) × (q : TxPool) × (add_transaction library accounts
              (transfer 2 10)
              pool_of_two
            ≡ throws e q)
          × (q.state ≡ pool_of_two.state))
        ⊎ ((sender : ℕ) × (q : TxPool) × (add_transaction library accounts
                (transfer 2 10)
                pool_of_two
              ≡ ok tt q)
            × (sender_of library (transfer 2 10) ≡ some sender)
            × HoldsPending library sender (transfer 2 10) pool_of_two q))
validate_automined-minable_example =
    validate_automined-minable library accounts 5 source (transfer 2 10) pool_of_two mining refl
      base_fee_is (omega arith) third_passes
