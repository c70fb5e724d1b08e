-- ===== src/Examples/Libraries.antt =====
-- A transaction library that encodes a transaction as the list of its fields, and two addresses.
use hardhat.Prelude.{
  ℕ, zero, suc, arith, ◌+◌, ◌*◌, ◌≡◌, ◌∙◌, refl, subst, List, [], ◌∷◌, Option, none, some,
}
use hardhat.Transactions.{
  Fees, gas_price, fee_market, TypedTransaction, TxLibrary, RoundTrips, max_fee_per_gas,
  from_sender_and_rlp,
}
use hardhat.TxPool.State.{Account}

abbrev option_tag : Option ℕ → ℕ
option_tag none = 0
option_tag (some a) = 1

abbrev option_value : Option ℕ → ℕ
option_value none = 0
option_value (some a) = a

abbrev option_of : ℕ → ℕ → Option ℕ
option_of zero a = none
option_of (suc tag) a = some a

abbrev fees_tag : Fees → ℕ
fees_tag (gas_price p) = 0
fees_tag (fee_market m p) = 1

abbrev priority_of : Fees → ℕ
priority_of (gas_price p) = 0
priority_of (fee_market m p) = p

abbrev fees_of : ℕ → ℕ → ℕ → Fees
fees_of zero m p = gas_price m
fees_of (suc tag) m p = fee_market m p

abbrev encode : TypedTransaction → List ℕ
encode tx =
    tx.tx_type
    ∷ tx.nonce
    ∷ tx.gas_limit
    ∷ fees_tag tx.fees
    ∷ max_fee_per_gas tx.fees
    ∷ priority_of tx.fees
    ∷ option_tag tx.to
    ∷ option_value tx.to
    ∷ tx.value
    ∷ option_tag tx.signature
    ∷ option_value tx.signature
    ∷ tx.input

abbrev decode : Option ℕ → List ℕ → TypedTransaction
decode sender (t ∷ n ∷ g ∷ k ∷ m ∷ p ∷ a ∷ b ∷ v ∷ c ∷ s ∷ input) = record {
  tx_type = t;
  nonce = n;
  gas_limit = g;
  fees = fees_of k m p;
  to = option_of a b;
  value = v;
  input = input;
  signature = option_of c s;
  fake_sender = sender;
}
decode sender _ = record {
  tx_type = 0;
  nonce = 0;
  gas_limit = 0;
  fees = gas_price 0;
  to = none;
  value = 0;
  input = [];
  signature = none;
  fake_sender = sender;
}

option_of-tag : (o : Option ℕ) → option_of (option_tag o) (option_value o) ≡ o
option_of-tag none = refl
option_of-tag (some a) = refl

fees_of-tag : (f : Fees) → fees_of (fees_tag f) (max_fee_per_gas f) (priority_of f) ≡ f
fees_of-tag (gas_price p) = refl
fees_of-tag (fee_market m p) = refl

decode-encode : (tx : TypedTransaction) → decode tx.fake_sender (encode tx) ≡ tx
decode-encode tx =
    ground (arith, fees_of-tag tx.fees, option_of-tag tx.to, option_of-tag tx.signature)

-- A signature is read as the address that signed.
abbrev pub library : TxLibrary
library = record {
  hash = λ tx. 1000000 * tx.nonce + max_fee_per_gas tx.fees;
  recover_sender = λ tx. tx.signature;
  upfront_cost = λ tx. tx.gas_limit * max_fee_per_gas tx.fees + tx.value;
  base_fee = λ tx. 21000;
  serialize = encode;
  from_serialized_data = decode none;
  access_list_from_sender = λ sender rlp. decode (some sender) rlp;
  fee_market_from_sender = λ sender rlp. decode (some sender) rlp;
  legacy_from_sender = λ sender rlp. decode (some sender) rlp;
}

from_sender_lem :
    (tx_type sender : ℕ) (rlp : List ℕ)
    → from_sender_and_rlp library tx_type sender rlp ≡ decode (some sender) rlp
unfolding from_sender_and_rlp
from_sender_lem tx_type sender rlp = ground arith

pub library-RoundTrips : RoundTrips library
library-RoundTrips = record {
  read_back = λ tx e. subst (λ f. decode f (encode tx) ≡ tx) e (decode-encode tx);
  read_back_fake = λ tx sender e.
      from_sender_lem tx.tx_type sender (encode tx)
      ∙ subst (λ f. decode f (encode tx) ≡ tx) e (decode-encode tx);
}

-- a transfer that address 7 signed
abbrev pub transfer : ℕ → ℕ → TypedTransaction
transfer nonce price = record {
  tx_type = 0;
  nonce = nonce;
  gas_limit = 21000;
  fees = gas_price price;
  to = some 8;
  value = 5;
  input = [];
  signature = some 7;
  fake_sender = none;
}

-- a transaction of the impersonated address 9
abbrev pub impersonated : TypedTransaction
impersonated = record (transfer 0 10) {
  tx_type = 2;
  fees = fee_market 30 2;
  signature = none;
  fake_sender = some 9;
}

abbrev pub accounts : ℕ → Account
accounts a = record { nonce = 0; balance = 1000000000 }
