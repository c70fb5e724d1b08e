-- ===== src/Blockchain/Chain.antt =====
-- The classes BlockchainBase and HardhatBlockchain. The latest block's number is `length - 1`, so
-- that `i <= latest` is `i < length` here.
use hardhat.Prelude.{
  ℕ, zero, suc, ◌+◌, Bool, true, false, not, ltb, ◌==◌, if◌then◌else◌, List, [], ◌∷◌, Option, none,
  some, Outcome, ok, throws, ◌>>=◌, ◌>>◌,
}
use hardhat.Prelude.Assoc.{get}
use hardhat.Blockchain.Data
use hardhat.Blockchain.Data.{
  BlockchainData, ChainError, block_not_found, invalid_block, invalid_number, invalid_parent,
  no_parent_difficulty, is_reserved_block, cancel_reservation_with_block, fulfill_block_reservation,
  remove_block, add_transaction_receipt,
}
use hardhat.Blockchain.Types.{Block, RpcReceipt, BlockLibrary}

pub record HardhatBlockchain : Type 0 where
  pub state : BlockchainData
  pub length : ℕ

abbrev pub Result : Type 0 → Type 0
Result A = Outcome ChainError HardhatBlockchain A

unfoldable pub init : HardhatBlockchain
init = record { state = Data.empty; length = 0 }

-- a method of the data as a step of the chain
abbrev pub on_data {ℓ} :
    {A : Type ℓ}
    → (BlockchainData → Outcome ChainError BlockchainData A)
    → HardhatBlockchain
    → Outcome ChainError HardhatBlockchain A
on_data m c = elim (m c.state) [
  | ok a d ↦ ok a (record c { state = d })
  | throws e d ↦ throws e (record c { state = d })
]

abbrev pub or_throw {ℓ} :
    {A : Type ℓ}
    → Option A
    → ChainError
    → HardhatBlockchain
    → Outcome ChainError HardhatBlockchain A
or_throw none e c = throws e c
or_throw (some a) e c = ok a c

-- the loop of `addTransactionReceipts`
unfoldable pub add_transaction_receipts : List RpcReceipt → HardhatBlockchain → HardhatBlockchain
add_transaction_receipts [] c = c
add_transaction_receipts (r ∷ rs) c =
    add_transaction_receipts rs (record c { state = add_transaction_receipt r c.state })

-- `reserveBlocks` of BlockchainBase
unfoldable pub reserve_in_data : ℕ → ℕ → ℕ → ℕ → Option ℕ → HardhatBlockchain → HardhatBlockchain
reserve_in_data count interval root difficulty base_fee c = record c {
  state = Data.reserve_blocks c.length count interval root difficulty base_fee c.state;
}

unfoldable pub reserve_blocks : ℕ → ℕ → ℕ → ℕ → Option ℕ → HardhatBlockchain → HardhatBlockchain
unfolding reserve_in_data
reserve_blocks count interval root difficulty base_fee c =
    let reserved = reserve_in_data count interval root difficulty base_fee c in
    record reserved { length = reserved.length + count }

module _ (lib : BlockLibrary) where
  -- `getBlock` on a number: a reserved block is made first.
  unfoldable pub get_block : ℕ → HardhatBlockchain → Result Block
  get_block n = do
    λ c.
        if is_reserved_block n c.state then on_data (fulfill_block_reservation lib n) c else ok tt c
    λ c. or_throw (get n c.state.blocks_by_number) block_not_found c

  -- `getBlock` on a hash
  unfoldable pub get_block_by_hash : ℕ → HardhatBlockchain → Result Block
  get_block_by_hash hash c = or_throw (get hash c.state.blocks_by_hash) block_not_found c

  -- Of an empty chain it asks for block -1, which is neither reserved nor there.
  unfoldable pub get_latest_block : HardhatBlockchain → Result Block
  get_latest_block c = elim (c.length) [ zero ↦ throws block_not_found c | suc n ↦ get_block n c ]

  unfoldable pub compute_total_difficulty : Block → HardhatBlockchain → Result ℕ
  compute_total_difficulty block c = elim (block.number) [
    | zero ↦ ok block.difficulty c
    | suc n ↦
        (do
          parent ← get_block n
          λ c'. elim (get (lib.block_hash parent) c'.state.total_difficulty) [
            | none ↦ throws no_parent_difficulty c'
            | some td ↦ ok (td + block.difficulty) c'
          ])
          c
  ]

  -- `!parentHash.equals(…)` of the parent where there is one, and of 32 zero bytes at block 0
  unfoldable pub has_wrong_parent : Block → BlockchainData → Bool
  has_wrong_parent block d = elim (block.number) [
    | zero ↦ not (block.parent_hash == 0)
    | suc n ↦ elim (get n d.blocks_by_number) [
      | none ↦ false
      | some parent ↦ not (block.parent_hash == lib.block_hash parent)
    ]
  ]

  unfoldable pub validate_block : Block → HardhatBlockchain → Result (Unit {0})
  unfolding has_wrong_parent
  validate_block block c =
      if not (c.length == block.number)
      then throws invalid_number c
      else if has_wrong_parent block c.state
      then throws invalid_parent c
      else ok tt c

  unfoldable pub add_block : Block → HardhatBlockchain → Result Block
  unfolding validate_block
  add_block block = do
    validate_block block
    total_difficulty ← compute_total_difficulty block
    λ c. ok block (record {
      state = Data.add_block lib block total_difficulty c.state;
      length = c.length + 1;
    })

  unfoldable pub remove_block_at : ℕ → BlockchainData → BlockchainData
  remove_block_at i d = elim (get i d.blocks_by_number) [
    | none ↦ d
    | some current ↦ remove_block lib current d
  ]

  -- The loop of `_delBlock`, with fuel for its rounds: each goes on behind the block or the
  -- reservation that it takes away, so that `length - i` rounds are enough.
  unfoldable pub delete_loop :
      ℕ → ℕ → ℕ → BlockchainData → Outcome ChainError BlockchainData (Unit {0})
  unfolding remove_block_at
  delete_loop zero length i d = if ltb i length then throws Data.out_of_fuel d else ok tt d
  delete_loop (suc fuel) length i d = elim (ltb i length) [
    | false ↦ ok tt d
    | true ↦ elim (is_reserved_block i d) [
      | true ↦ elim (cancel_reservation_with_block i d) [
        | throws e d' ↦ throws e d'
        | ok reservation d' ↦ delete_loop fuel length reservation.stop d'
      ]
      | false ↦ delete_loop fuel length (i + 1) (remove_block_at i d)
    ]
  ]

  -- `_delBlock` of both classes
  unfoldable pub del_block : ℕ → HardhatBlockchain → Result (Unit {0})
  unfolding delete_loop
  del_block n = do
    λ c. on_data (delete_loop c.length c.length n) c
    λ c. ok tt (record c { length = n })

  unfoldable pub delete_block : ℕ → HardhatBlockchain → Result (Unit {0})
  unfolding del_block
  delete_block hash = do
    block ← λ c. or_throw (get hash c.state.blocks_by_hash) block_not_found c
    del_block block.number

  unfoldable pub delete_later_blocks : Block → HardhatBlockchain → Result (Unit {0})
  unfolding del_block
  delete_later_blocks block = do
    actual ← λ c. or_throw (get (lib.block_hash block) c.state.blocks_by_hash) invalid_block c
    del_block (actual.number + 1)
