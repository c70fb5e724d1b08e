-- ===== src/Transactions.antt =====
-- Transactions as the provider of packages/hardhat-core/src/internal/hardhat-network uses them:
-- the properties that it reads of ethereumjs's TypedTransaction, the library's own functions as a
-- parameter, and the serialized form of PoolState.ts with its two conversions in TxPool.ts.
-- Addresses and hashes (hex strings of a known length) are read as numbers, RLP data as bytes.
use hardhat.Prelude.{
  ℕ, ◌≡◌, if◌then◌else◌, Bool, true, ◌&&◌, Option, none, some, List, ◌==◌, option_beq,
  option_beq_iff, list_beq, list_beq_iff, arith, ◌↔◌, Option-cases, inl, inr,
}

-- `"gasPrice" in tx` holds of legacy and access-list transactions only.
pub data Fees : Type 0 where
  gas_price : ℕ → Fees
  fee_market : ℕ → ℕ → Fees

-- `"gasPrice" in tx ? tx.gasPrice : tx.maxFeePerGas`
abbrev pub max_fee_per_gas : Fees → ℕ
max_fee_per_gas (gas_price p) = p
max_fee_per_gas (fee_market max_fee priority) = max_fee

-- `"gasPrice" in tx ? tx.gasPrice : tx.maxPriorityFeePerGas`
abbrev pub max_priority_fee_per_gas : Fees → ℕ
max_priority_fee_per_gas (gas_price p) = p
max_priority_fee_per_gas (fee_market max_fee priority) = priority

-- What the provider reads of a TypedTransaction. `fake_sender` is the `_sender` of the three
-- FakeSender classes, and `none` for an instance of a class of the library.
pub record TypedTransaction : Type 0 where
  pub tx_type : ℕ
  pub nonce : ℕ
  pub gas_limit : ℕ
  pub fees : Fees
  pub to : Option ℕ
  pub value : ℕ
  pub input : List ℕ
  pub signature : Option ℕ
  pub fake_sender : Option ℕ

-- The functions of @nomicfoundation/ethereumjs-tx that the provider calls. `recover_sender` is
-- the library's `getSenderAddress`, `none` where it throws.
pub record TxLibrary : Type 0 where
  pub hash : TypedTransaction → ℕ
  pub recover_sender : TypedTransaction → Option ℕ
  pub upfront_cost : TypedTransaction → ℕ
  pub base_fee : TypedTransaction → ℕ
  pub serialize : TypedTransaction → List ℕ
  -- TransactionFactory.fromSerializedData
  pub from_serialized_data : List ℕ → TypedTransaction
  -- What the three `fromSenderAndRlpSerializedTx` make with the RLP decoder and the constructors of
  -- ethereumjs, for a sender and the data.
  pub access_list_from_sender : ℕ → List ℕ → TypedTransaction
  pub fee_market_from_sender : ℕ → List ℕ → TypedTransaction
  pub legacy_from_sender : ℕ → List ℕ → TypedTransaction

-- The class whose `fromSenderAndRlpSerializedTx` is called for the type of a transaction.
unfoldable pub from_sender_and_rlp : TxLibrary → ℕ → ℕ → List ℕ → TypedTransaction
from_sender_and_rlp lib tx_type sender rlp =
    if tx_type == 1
    then lib.access_list_from_sender sender rlp
    else if tx_type == 2
    then lib.fee_market_from_sender sender rlp
    else lib.legacy_from_sender sender rlp

-- What the pool relies on: a serialized transaction reads back.
pub record RoundTrips (lib : TxLibrary) : Type 0 where
  pub read_back :
      (tx : TypedTransaction)
      → tx.fake_sender ≡ none
      → lib.from_serialized_data (lib.serialize tx) ≡ tx
  pub read_back_fake :
      (tx : TypedTransaction) (sender : ℕ)
      → tx.fake_sender ≡ some sender
      → from_sender_and_rlp lib tx.tx_type sender (lib.serialize tx) ≡ tx

pub record OrderedTransaction : Type 0 where
  pub order_id : ℕ
  pub tx : TypedTransaction

abbrev pub tx_of : OrderedTransaction → TypedTransaction
tx_of o = o.tx

pub record SerializedTransaction : Type 0 where
  pub order_id : ℕ
  pub fake_from : Option ℕ
  pub rlp : List ℕ
  pub tx_type : ℕ

-- The records' `equals`, by which a list's `indexOf` searches.
abbrev pub same_serialized : SerializedTransaction → SerializedTransaction → Bool
same_serialized a b =
    a.order_id == b.order_id
    && option_beq a.fake_from b.fake_from
    && list_beq a.rlp b.rlp
    && a.tx_type == b.tx_type

pub same_serialized_iff : (a b : SerializedTransaction) → (same_serialized a b ≡ true) ↔ (a ≡ b)
same_serialized_iff a b =
    ground (arith, option_beq_iff a.fake_from b.fake_from, list_beq_iff a.rlp b.rlp)

module _ (lib : TxLibrary) where
  -- `getSenderAddress`: the three FakeSender classes answer with their field.
  unfoldable pub sender_of : TypedTransaction → Option ℕ
  sender_of tx = elim tx.fake_sender [ some sender ↦ some sender | none ↦ lib.recover_sender tx ]

  unfoldable pub serialize_transaction : OrderedTransaction → SerializedTransaction
  serialize_transaction o = record {
    order_id = o.order_id;
    fake_from = o.tx.fake_sender;
    rlp = lib.serialize o.tx;
    tx_type = o.tx.tx_type;
  }

  unfoldable pub deserialize_transaction : SerializedTransaction → OrderedTransaction
  unfolding from_sender_and_rlp
  deserialize_transaction s = record {
    order_id = s.order_id;
    tx = elim s.fake_from [
      | some sender ↦ from_sender_and_rlp lib s.tx_type sender s.rlp
      | none ↦ lib.from_serialized_data s.rlp
    ];
  }

  -- Serializing an ordered transaction and reading it back gives the same transaction, of each
  -- of the library's classes and of each fake-sender class.
  pub deserialize-serialize :
      RoundTrips lib
      → (o : OrderedTransaction) → deserialize_transaction (serialize_transaction o) ≡ o
  unfolding serialize_transaction deserialize_transaction
  deserialize-serialize r o = elim (Option-cases o.tx.fake_sender) [
    | inl e ↦ rw e (ground (arith, r.read_back o.tx e))
    | inr (a, e) ↦ ground (arith, r.read_back_fake o.tx a e)
  ]
