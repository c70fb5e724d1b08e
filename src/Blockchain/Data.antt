-- ===== src/Blockchain/Data.antt =====
-- The class BlockchainData of BlockchainData.ts. `throws` is a failed `assertHardhatInvariant`.
use hardhat.Prelude.{
  ℕ, zero, suc, ◌+◌, ◌-◌, ◌*◌, Bool, true, false, ◌&&◌, leb, ltb, ◌==◌, if◌then◌else◌, List, [],
  ◌∷◌, ◌++◌, Option, none, some, find_entry_from, remove_at, Outcome, ok, throws,
}
use hardhat.Prelude.Assoc.{get, put, delete}
use hardhat.Transactions.{TypedTransaction}
use hardhat.Blockchain.Types.{Block, RpcReceipt, Reservation, BlockLibrary}

pub record BlockchainData : Type 0 where
  pub blocks_by_number : List (ℕ × Block)
  pub blocks_by_hash : List (ℕ × Block)
  pub blocks_by_transactions : List (ℕ × Block)
  pub transactions : List (ℕ × TypedTransaction)
  pub receipts : List (ℕ × RpcReceipt)
  pub total_difficulty : List (ℕ × ℕ)
  pub reservations : List Reservation

pub data ChainError : Type 0 where
  no_reservation no_block_before block_not_found invalid_block invalid_number invalid_parent :
      ChainError
  no_parent_difficulty out_of_fuel : ChainError

unfoldable pub empty : BlockchainData
empty = record {
  blocks_by_number = [];
  blocks_by_hash = [];
  blocks_by_transactions = [];
  transactions = [];
  receipts = [];
  total_difficulty = [];
  reservations = [];
}

unfoldable pub reserve_blocks : ℕ → ℕ → ℕ → ℕ → ℕ → Option ℕ → BlockchainData → BlockchainData
reserve_blocks first count interval root difficulty base_fee d = record d {
  reservations =
      d.reservations
      ++ record {
        first = first;
        stop = first + count;
        interval = interval;
        previous_state_root = root;
        previous_total_difficulty = difficulty;
        previous_base_fee_per_gas = base_fee;
      }
        ∷ [];
}

-- `reservation.first <= blockNumber && blockNumber <= reservation.last`
abbrev pub covers : ℕ → Reservation → Bool
covers n r = leb r.first n && ltb n r.stop

-- `_findBlockReservation`, with the reservation that is found
abbrev pub find_block_reservation : ℕ → List Reservation → Option (ℕ × Reservation)
find_block_reservation n rs = find_entry_from 0 (covers n) rs

unfoldable pub is_reserved_block : ℕ → BlockchainData → Bool
is_reserved_block n d = elim (find_block_reservation n d.reservations) [
  | none ↦ false
  | some entry ↦ true
]

unfoldable pub cancel_reservation_with_block :
    ℕ → BlockchainData → Outcome ChainError BlockchainData Reservation
cancel_reservation_with_block n d = elim (find_block_reservation n d.reservations) [
  | none ↦ throws no_reservation d
  | some (i, r) ↦ ok r (record d { reservations = remove_at i d.reservations })
]

module _ (lib : BlockLibrary) where
  -- the loop of `addBlock` over the transactions
  unfoldable pub add_block_transactions :
      Block → List TypedTransaction → BlockchainData → BlockchainData
  add_block_transactions block [] d = d
  add_block_transactions block (tx ∷ txs) d = add_block_transactions block txs (record d {
    transactions = put (lib.transaction_hash tx) tx d.transactions;
    blocks_by_transactions = put (lib.transaction_hash tx) block d.blocks_by_transactions;
  })

  unfoldable pub add_block : Block → ℕ → BlockchainData → BlockchainData
  unfolding add_block_transactions
  add_block block total_difficulty d = add_block_transactions block block.transactions (record d {
    blocks_by_number = put block.number block d.blocks_by_number;
    blocks_by_hash = put (lib.block_hash block) block d.blocks_by_hash;
    total_difficulty = put (lib.block_hash block) total_difficulty d.total_difficulty;
  })

  -- the loop of `removeBlock` over the transactions
  unfoldable pub remove_block_transactions : List TypedTransaction → BlockchainData → BlockchainData
  remove_block_transactions [] d = d
  remove_block_transactions (tx ∷ txs) d = remove_block_transactions txs (record d {
    transactions = delete (lib.transaction_hash tx) d.transactions;
    receipts = delete (lib.transaction_hash tx) d.receipts;
    blocks_by_transactions = delete (lib.transaction_hash tx) d.blocks_by_transactions;
  })

  unfoldable pub remove_block : Block → BlockchainData → BlockchainData
  unfolding remove_block_transactions
  remove_block block d = remove_block_transactions block.transactions (record d {
    blocks_by_number = delete block.number d.blocks_by_number;
    blocks_by_hash = delete (lib.block_hash block) d.blocks_by_hash;
    total_difficulty = delete (lib.block_hash block) d.total_difficulty;
  })

  unfoldable pub add_transaction : TypedTransaction → BlockchainData → BlockchainData
  add_transaction tx d = record d { transactions = put (lib.transaction_hash tx) tx d.transactions }

unfoldable pub add_transaction_receipt : RpcReceipt → BlockchainData → BlockchainData
add_transaction_receipt receipt d = record d {
  receipts = put receipt.transaction_hash receipt d.receipts;
}

-- `this.getBlockByNumber(reservation.first - 1n)`; there is no block -1.
abbrev pub block_before : ℕ → BlockchainData → Option Block
block_before zero d = none
block_before (suc n) d = get n d.blocks_by_number

-- `_calculateTimestampForReservedBlock`. The call for the block before the reservation is for a
-- smaller number, so that more fuel than the block's number is always enough.
unfoldable pub calculate_timestamp : ℕ → ℕ → BlockchainData → Outcome ChainError BlockchainData ℕ
calculate_timestamp zero n d = throws out_of_fuel d
calculate_timestamp (suc fuel) n d = elim (find_block_reservation n d.reservations) [
  | none ↦ throws no_reservation d
  | some (i, r) ↦ elim (block_before r.first d) [
    | none ↦ throws no_block_before d
    | some before ↦ elim (is_reserved_block (r.first - 1) d) [
      | true ↦ elim (calculate_timestamp fuel (r.first - 1) d) [
        | throws e d' ↦ throws e d'
        | ok previous d' ↦ ok (previous + r.interval * (n - r.first + 1)) d'
      ]
      | false ↦ ok (before.timestamp + r.interval * (n - r.first + 1)) d
    ]
  ]
]

-- the parts of a reservation around a block that is taken out of it
abbrev pub part_before : ℕ → Reservation → List Reservation
part_before n r = if n == r.first then [] else record r { stop = n } ∷ []

abbrev pub part_after : ℕ → Reservation → List Reservation
part_after n r = if n + 1 == r.stop then [] else record r { first = n + 1 } ∷ []

unfoldable pub fulfill_block_reservation :
    BlockLibrary → ℕ → BlockchainData → Outcome ChainError BlockchainData (Unit {0})
fulfill_block_reservation lib n d = elim (find_block_reservation n d.reservations) [
  | none ↦ throws no_reservation d
  | some (i, r) ↦ elim (calculate_timestamp (suc n) n d) [
    | throws e d' ↦ throws e d'
    | ok timestamp d' ↦ ok tt (
        add_block lib
          (lib.from_block_data n r.previous_state_root r.previous_base_fee_per_gas timestamp)
          r.previous_total_difficulty
          (record d {
            reservations = remove_at i d.reservations ++ (part_before n r ++ part_after n r);
          }))
  ]
]
