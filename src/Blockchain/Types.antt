-- ===== src/Blockchain/Types.antt =====
-- The records of the chain: what BlockchainData.ts, BlockchainBase.ts and HardhatBlockchain.ts read
-- of a block of @nomicfoundation/ethereumjs-block, the receipts and logs of output.ts, and the
-- reservations of BlockchainData.ts. Hashes, addresses and state roots are read as numbers.
use hardhat.Prelude.{ℕ, ◌≡◌, [], List, Option, Bool}
use hardhat.Transactions.{TypedTransaction}

pub record Block : Type 0 where
  pub number : ℕ
  pub parent_hash : ℕ
  pub state_root : ℕ
  pub base_fee_per_gas : Option ℕ
  pub timestamp : ℕ
  pub difficulty : ℕ
  pub logs_bloom : ℕ
  pub transactions : List TypedTransaction

pub record RpcLog : Type 0 where
  pub block_number : ℕ
  pub address : ℕ
  pub topics : List ℕ

pub record RpcReceipt : Type 0 where
  pub transaction_hash : ℕ
  pub logs : List RpcLog

-- A range of blocks to be made when they are asked for. `stop` is the source's `last + 1`: an
-- empty range at the start of the chain has the `last` -1.
pub record Reservation : Type 0 where
  pub first : ℕ
  pub stop : ℕ
  pub interval : ℕ
  pub previous_state_root : ℕ
  pub previous_total_difficulty : ℕ
  pub previous_base_fee_per_gas : Option ℕ

-- The functions of the ethereumjs packages that the chain calls. `from_block_data` is
-- `Block.fromBlockData` on a number, a state root, a base fee and a timestamp.
pub record BlockLibrary : Type 0 where
  pub block_hash : Block → ℕ
  pub transaction_hash : TypedTransaction → ℕ
  pub from_block_data : ℕ → ℕ → Option ℕ → ℕ → Block
  pub bloom_check : ℕ → ℕ → Bool

-- What the chain relies on: a block made from header data has that data, and no transactions.
pub record BlockLaws (lib : BlockLibrary) : Type 0 where
  pub made_number :
      (n root : ℕ) (fee : Option ℕ) (time : ℕ) → (lib.from_block_data n root fee time).number ≡ n
  pub made_timestamp :
      (n root : ℕ) (fee : Option ℕ) (time : ℕ)
      → (lib.from_block_data n root fee time).timestamp ≡ time
  pub made_transactions :
      (n root : ℕ) (fee : Option ℕ) (time : ℕ)
      → (lib.from_block_data n root fee time).transactions ≡ []
