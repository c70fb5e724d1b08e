-- ===== src/Filters/Criteria.antt =====
-- The functions of filter.ts, and `getLogs` of BlockchainData.ts. An entry of the topics that is
-- `none` is the source's null, at both levels. Addresses and topics are read as numbers.
use hardhat.Prelude.{
  ℕ, zero, suc, ◌+◌, Bool, true, false, ◌&&◌, not, ltb, ◌==◌, if◌then◌else◌, List, [], ◌∷◌, ◌++◌,
  Option, none, some, any, length, get_elem?, option_beq,
}
use hardhat.Prelude.Assoc.{get}
use hardhat.Prelude.Int.{ℤ, pos, negsuc, ltb_ℤ}
use hardhat.Blockchain.Data.{BlockchainData}
use hardhat.Blockchain.Types.{RpcLog, BlockLibrary}
use hardhat.Transactions.{TypedTransaction}

abbrev pub NormalizedTopics : Type 0
NormalizedTopics = List (Option (List (Option ℕ)))

pub record FilterCriteria : Type 0 where
  pub from_block : ℤ
  pub to_block : ℤ
  pub addresses : List ℕ
  pub normalized_topics : NormalizedTopics

abbrev pub is_latest_block : ℤ → Bool
is_latest_block (negsuc zero) = true
is_latest_block _ = false

-- `sub === null || sub.length === 0`
abbrev pub is_wildcard : Option (List (Option ℕ)) → Bool
is_wildcard none = true
is_wildcard (some []) = true
is_wildcard (some (t ∷ ts)) = false

abbrev pub alternatives : Option (List (Option ℕ)) → List (Option ℕ)
alternatives none = []
alternatives (some ts) = ts

-- `topic !== null && bloom.check(topic)`
abbrev pub topic_in_bloom : (ℕ → Bool) → Option ℕ → Bool
topic_in_bloom check none = false
topic_in_bloom check (some t) = check t

-- the loop of `bloomFilter` over the topics
unfoldable pub bloom_topics : (ℕ → Bool) → NormalizedTopics → Bool
bloom_topics check [] = true
bloom_topics check (sub ∷ subs) =
    let rest = bloom_topics check subs in
    if is_wildcard sub
    then rest
    else if any (topic_in_bloom check) (alternatives sub)
    then rest
    else false

abbrev pub is_nil : List ℕ → Bool
is_nil [] = true
is_nil (x ∷ xs) = false

-- `check` is the method of the block's bloom
unfoldable pub bloom_filter : (ℕ → Bool) → List ℕ → NormalizedTopics → Bool
unfolding bloom_topics
bloom_filter check addresses topics =
    if not (is_nil addresses) && not (any check addresses) then false else bloom_topics check topics

-- `includes`
unfoldable pub includes : List ℕ → ℕ → Bool
includes addresses a = any (λ x. x == a) addresses

-- `topic === null || logTopics[i] === bufferToHex(topic)`
abbrev pub topic_matches : Option ℕ → Option ℕ → Bool
topic_matches at none = true
topic_matches at (some t) = option_beq at (some t)

-- The loop of `topicMatched` from the index `i` on, over the criteria that are left; `count` is
-- `normalizedTopics.length`.
unfoldable pub topic_loop : ℕ → List ℕ → ℕ → NormalizedTopics → Bool
topic_loop count log_topics i [] = true
topic_loop count log_topics i (sub ∷ subs) =
    let rest = topic_loop count log_topics (i + 1) subs in
    if ltb (length log_topics) count
    then false
    else if is_wildcard sub
    then rest
    else if any (topic_matches (get_elem? log_topics i)) (alternatives sub)
    then rest
    else false

unfoldable pub topic_matched : NormalizedTopics → List ℕ → Bool
unfolding topic_loop
topic_matched topics log_topics = topic_loop (length topics) log_topics 0 topics

-- what `filterLogs` asks of one log, in the order of its `continue`s
unfoldable pub log_passes : FilterCriteria → RpcLog → Bool
log_passes c log =
    if ltb_ℤ (pos log.block_number) c.from_block
    then false
    else if not (is_latest_block c.to_block) && ltb_ℤ c.to_block (pos log.block_number)
    then false
    else if not (is_nil c.addresses) && not (includes c.addresses log.address)
    then false
    else topic_matched c.normalized_topics log.topics

unfoldable pub filter_logs : FilterCriteria → List RpcLog → List RpcLog
filter_logs c [] = []
filter_logs c (log ∷ logs) =
    let rest = filter_logs c logs in if log_passes c log then log ∷ rest else rest

module _ (lib : BlockLibrary) where
  -- the loop of `getLogs` over the transactions of a block
  unfoldable pub logs_of_transactions :
      FilterCriteria → List TypedTransaction → BlockchainData → List RpcLog
  unfolding filter_logs
  logs_of_transactions c [] d = []
  logs_of_transactions c (tx ∷ txs) d =
      let rest = logs_of_transactions c txs d in
      elim (get (lib.transaction_hash tx) d.receipts) [
        | none ↦ rest
        | some receipt ↦ filter_logs c receipt.logs ++ rest
      ]

  -- The loop of `getLogs` over `rounds` block numbers from `i` on. `getLogs` of a range that does
  -- not start below 0 makes `toBlock + 1 - fromBlock` rounds.
  unfoldable pub get_logs : FilterCriteria → ℕ → ℕ → BlockchainData → List RpcLog
  unfolding logs_of_transactions
  get_logs c zero i d = []
  get_logs c (suc rounds) i d =
      let rest = get_logs c rounds (i + 1) d in
      elim (get i d.blocks_by_number) [
        | none ↦ rest
        | some block ↦
            if bloom_filter (lib.bloom_check block.logs_bloom) c.addresses c.normalized_topics
            then logs_of_transactions c block.transactions d ++ rest
            else rest
      ]
