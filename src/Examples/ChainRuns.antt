-- ===== src/Examples/ChainRuns.antt =====
-- The theorems on the chain at one with block 0, and blocks 1 to 4 reserved behind it.
use hardhat.Prelude.{
  ℕ, ◌+◌, ◌-◌, ◌*◌, ◌≡◌, refl, false, ◌==◌, List, [], ◌∷◌, Option, none, some, ok, throws, arith,
}
use hardhat.Prelude.Assoc.{get}
use hardhat.Blockchain.Chain.{HardhatBlockchain, delete_later_blocks}
use hardhat.Blockchain.Data.{
  BlockchainData, is_reserved_block, calculate_timestamp, fulfill_block_reservation,
  no_block_before,
}
use hardhat.Blockchain.Deletion.{IsNumbered, Deleted, delete_later_blocks-Deleted}
use hardhat.Blockchain.ReadOrder.{calculate_timestamp-fulfill}
use hardhat.Blockchain.Reservations.{bit, cover_count}
use hardhat.Blockchain.Timestamps.{IsSound, fulfill-adjacent_throws, fulfill-makes_block}
use hardhat.Blockchain.Types.{Block, Reservation, BlockLibrary, BlockLaws}

abbrev pub block_of : ℕ → ℕ → Option ℕ → ℕ → Block
block_of n root fee time = record {
  number = n;
  parent_hash = 0;
  state_root = root;
  base_fee_per_gas = fee;
  timestamp = time;
  difficulty = 0;
  logs_bloom = 0;
  transactions = [];
}

abbrev pub block_library : BlockLibrary
block_library = record {
  block_hash = λ b. 100 + b.number;
  transaction_hash = λ tx. tx.nonce;
  from_block_data = block_of;
  bloom_check = λ bloom item. bloom == item;
}

block_library-BlockLaws : BlockLaws block_library
block_library-BlockLaws = record {
  made_number = λ n root fee time. refl;
  made_timestamp = λ n root fee time. refl;
  made_transactions = λ n root fee time. refl;
}

abbrev pub genesis : Block
genesis = block_of 0 1 none 50

abbrev pub reserved_from : ℕ → ℕ → Reservation
reserved_from first stop = record {
  first = first;
  stop = stop;
  interval = 10;
  previous_state_root = 1;
  previous_total_difficulty = 0;
  previous_base_fee_per_gas = none;
}

abbrev pub data_with : List Reservation → BlockchainData
data_with reservations = record {
  blocks_by_number = (0, genesis) ∷ [];
  blocks_by_hash = (100, genesis) ∷ [];
  blocks_by_transactions = [];
  transactions = [];
  receipts = [];
  total_difficulty = (100, 0) ∷ [];
  reservations = reservations;
}

-- one reservation of four blocks, and the same blocks in two reservations
abbrev pub reserved_once : BlockchainData
reserved_once = data_with (reserved_from 1 5 ∷ [])

abbrev reserved_twice : BlockchainData
reserved_twice = data_with (reserved_from 1 3 ∷ reserved_from 3 5 ∷ [])

pub reserved_once-IsSound : IsSound reserved_once
reserved_once-IsSound = record { once = λ m. ground arith; unmade = λ m h. ground (arith, h) }

reserved_twice-IsSound : IsSound reserved_twice
reserved_twice-IsSound = record { once = λ m. ground arith; unmade = λ m h. ground (arith, h) }

fulfill-adjacent_throws_example :
    fulfill_block_reservation block_library 4 reserved_twice ≡ throws no_block_before reserved_twice
unfolding is_reserved_block
fulfill-adjacent_throws_example =
    fulfill-adjacent_throws block_library 4 1 2 reserved_twice (reserved_from 3 5)
      reserved_twice-IsSound refl refl refl

fulfill-makes_block_example :
    (d' : BlockchainData) × (block : Block) × (fulfill_block_reservation block_library 3
        reserved_once
      ≡ ok tt d')
    × (get 3 d'.blocks_by_number ≡ some block)
    × (block.number ≡ 3)
    × (block.timestamp ≡ 50 + 10 * (3 - 1 + 1))
    × IsSound d'
    × ((m : ℕ)
        → cover_count m d'.reservations + bit (m == 3) ≡ cover_count m reserved_once.reservations)
    × ((m : ℕ)
        → (3 == m) ≡ false
        → get m d'.blocks_by_number ≡ get m reserved_once.blocks_by_number)
fulfill-makes_block_example =
    fulfill-makes_block block_library block_library-BlockLaws 3 0 reserved_once (reserved_from 1 5)
      genesis reserved_once-IsSound refl refl

calculate_timestamp-fulfill_example :
    (d' : BlockchainData) × (time : ℕ) × (fulfill_block_reservation block_library 2 reserved_once
      ≡ ok tt d')
    × (calculate_timestamp 5 4 reserved_once ≡ ok time reserved_once)
    × (calculate_timestamp 5 4 d' ≡ ok time d')
calculate_timestamp-fulfill_example =
    calculate_timestamp-fulfill block_library block_library-BlockLaws 2 4 0 reserved_once
      (reserved_from 1 5) genesis reserved_once-IsSound refl refl refl refl 4

abbrev pub chain : HardhatBlockchain
chain = record { state = reserved_once; length = 5 }

pub chain-IsNumbered : IsNumbered reserved_once
chain-IsNumbered n b e = ground (arith, e)

delete_later_blocks-Deleted_example :
    (d' : BlockchainData) × (delete_later_blocks block_library genesis chain
      ≡ ok tt (record { state = d'; length = 0 + 1 }))
    × Deleted 0 1 5 reserved_once d'
delete_later_blocks-Deleted_example =
    delete_later_blocks-Deleted block_library chain genesis genesis reserved_once-IsSound
      chain-IsNumbered refl refl

abbrev second_block : Block
second_block = block_of 1 2 none 60
