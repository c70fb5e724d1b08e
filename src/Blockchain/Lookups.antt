-- ===== src/Blockchain/Lookups.antt =====
-- The methods of BlockchainData.ts and HardhatBlockchain.ts that look things up by a hash, and what
-- they answer once a block has been added.
use hardhat.Prelude.{ℕ, ◌≡◌, refl, ap, ◌∙◌, List, [], ◌∷◌, Option, some}
use hardhat.Prelude.Assoc.{get, put, get-put_self}
use hardhat.Blockchain.Chain.{HardhatBlockchain, Result, or_throw}
use hardhat.Blockchain.Data.{BlockchainData, add_block, add_block_transactions, block_not_found}
use hardhat.Blockchain.Types.{Block, BlockLibrary, RpcReceipt}
use hardhat.Transactions.{TypedTransaction}

-- `getBlockByNumber` of the data
unfoldable pub get_block_by_number : ℕ → BlockchainData → Option Block
get_block_by_number n d = get n d.blocks_by_number

-- `getBlockByHash` of the data
unfoldable pub find_block_by_hash : ℕ → BlockchainData → Option Block
find_block_by_hash hash d = get hash d.blocks_by_hash

-- `getBlockByTransactionHash` of the data
unfoldable pub find_block_by_transaction_hash : ℕ → BlockchainData → Option Block
find_block_by_transaction_hash hash d = get hash d.blocks_by_transactions

-- `getTransaction` of the data
unfoldable pub find_transaction : ℕ → BlockchainData → Option TypedTransaction
find_transaction hash d = get hash d.transactions

-- `getTransactionReceipt` of the data
unfoldable pub find_transaction_receipt : ℕ → BlockchainData → Option RpcReceipt
find_transaction_receipt hash d = get hash d.receipts

-- `getTotalDifficulty` of the data
unfoldable pub find_total_difficulty : ℕ → BlockchainData → Option ℕ
find_total_difficulty hash d = get hash d.total_difficulty

unfoldable pub get_total_difficulty : ℕ → HardhatBlockchain → Result ℕ
unfolding find_total_difficulty
get_total_difficulty hash c = or_throw (find_total_difficulty hash c.state) block_not_found c

-- `getTransaction`, and `getLocalTransaction`, which it calls
unfoldable pub get_transaction : ℕ → HardhatBlockchain → Option TypedTransaction
unfolding find_transaction
get_transaction hash c = find_transaction hash c.state

unfoldable pub get_block_by_transaction_hash : ℕ → HardhatBlockchain → Option Block
unfolding find_block_by_transaction_hash
get_block_by_transaction_hash hash c = find_block_by_transaction_hash hash c.state

unfoldable pub get_transaction_receipt : ℕ → HardhatBlockchain → Option RpcReceipt
unfolding find_transaction_receipt
get_transaction_receipt hash c = find_transaction_receipt hash c.state

module _ (lib : BlockLibrary) where
  transactions-same :
      (block : Block) (txs : List TypedTransaction) (d : BlockchainData)
      → let d' = add_block_transactions lib block txs d in
        (d'.blocks_by_number ≡ d.blocks_by_number)
        × (d'.blocks_by_hash ≡ d.blocks_by_hash)
        × (d'.total_difficulty ≡ d.total_difficulty)
  unfolding add_block_transactions
  transactions-same block [] d = (refl, refl, refl)
  transactions-same block (tx ∷ txs) d = transactions-same block txs (record d {
    transactions = put (lib.transaction_hash tx) tx d.transactions;
    blocks_by_transactions = put (lib.transaction_hash tx) block d.blocks_by_transactions;
  })

  -- A block that has been added is found by its number and by its hash, and its hash has the total
  -- difficulty that it was added with, whatever transactions it has and whatever was there before.
  pub add_block-lookups :
      (block : Block) (difficulty : ℕ) (d : BlockchainData)
      → let d' = add_block lib block difficulty d in
        (get_block_by_number block.number d' ≡ some block)
        × (find_block_by_hash (lib.block_hash block) d' ≡ some block)
        × (find_total_difficulty (lib.block_hash block) d' ≡ some difficulty)
  unfolding add_block get_block_by_number find_block_by_hash find_total_difficulty
  add_block-lookups block difficulty d =
      let hash = lib.block_hash block in
      let filed : BlockchainData = record d {
        blocks_by_number = put block.number block d.blocks_by_number;
        blocks_by_hash = put hash block d.blocks_by_hash;
        total_difficulty = put hash difficulty d.total_difficulty;
      } in
      let same = transactions-same block block.transactions filed in
      (
        ap (get block.number) same.0 ∙ get-put_self block.number block d.blocks_by_number,
        ap (get hash) same.1 ∙ get-put_self hash block d.blocks_by_hash,
        ap (get hash) same.2 ∙ get-put_self hash difficulty d.total_difficulty,
      )
