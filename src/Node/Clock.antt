-- ===== src/Node/Clock.antt =====
-- The clock of the node: `mineBlock`, `_calculateTimestampAndOffset`, the setters and the clock's
-- part of `revertToSnapshot` in node.ts, and the guards of modules/evm.ts.
pub mod Timeline
pub mod Steps
pub mod OnTime
use hardhat.Prelude.{
  ℕ, zero, suc, ◌+◌, ◌-◌, ◌/◌, ◌≡◌, Bool, true, false, ◌&&◌, not, ◌==◌, leb, ltb, Option, none,
  some, Outcome, ok, throws, if◌then◌else◌,
}
use hardhat.Prelude.Int.{ℤ, pos, negsuc, sub_ℕ, ◌+ℤ◌}

-- `_blockTimeOffsetSeconds` and `_nextBlockTimestamp`, where 0 stands for none
pub record Clock : Type 0 where
  pub time_offset : ℤ
  pub next_block_timestamp : ℕ

-- getCurrentTimestamp.ts, of the milliseconds since the epoch
unfoldable pub get_current_timestamp : ℕ → ℕ
get_current_timestamp now = (now + 999) / 1000

unfoldable pub set_next_block_timestamp : ℕ → Clock → Clock
set_next_block_timestamp timestamp c = record c { next_block_timestamp = timestamp }

unfoldable pub set_time_increment : ℤ → Clock → Clock
set_time_increment increment c = record c { time_offset = increment }

unfoldable pub increase_time : ℤ → Clock → Clock
increase_time increment c = record c { time_offset = c.time_offset +ℤ increment }

-- `timestamp === undefined || timestamp === 0n`
unfoldable pub given : Option ℕ → Option ℕ
given none = none
given (some zero) = none
given (some (suc t)) = some (suc t)

-- the block's timestamp, whether the offset changes, and the new offset
unfoldable pub calculate_timestamp_and_offset : ℕ → Clock → Option ℕ → ℤ × Bool × ℤ
unfolding get_current_timestamp given ◌+ℤ◌
calculate_timestamp_and_offset now c timestamp =
    let current = get_current_timestamp now in
    elim (given timestamp) [
      | some t ↦ (pos t, true, sub_ℕ t current)
      | none ↦
          if c.next_block_timestamp == 0
          then (pos current +ℤ c.time_offset, false, pos 0)
          else (pos c.next_block_timestamp, true, sub_ℕ c.next_block_timestamp current)
    ]

unfoldable pub timestamp_clashes_with_previous_block_one : ℕ → ℤ → Bool
timestamp_clashes_with_previous_block_one latest (pos t) = latest == t
timestamp_clashes_with_previous_block_one latest (negsuc t) = false

-- What `catch` asks of a thrown value: whether it is an Error, whether its message says that the
-- sender has not enough funds, and whether it is a HardhatError.
pub data Thrown : Type 0 where
  thrown_value : Thrown
  thrown_error : Bool → Bool → Thrown

pub data MineBlockError : Type 0 where
  invalid_input transaction_execution : MineBlockError
  rethrown : Thrown → MineBlockError

abbrev pub rethrow : Thrown → MineBlockError
rethrow thrown_value = rethrown thrown_value
rethrow (thrown_error lacks_funds is_hardhat) =
    if lacks_funds
    then invalid_input
    else if is_hardhat
    then rethrown (thrown_error lacks_funds is_hardhat)
    else transaction_execution

-- `mineBlock` behind its first line, as it changes the clock and answers the block's timestamp.
-- `fails` is what `_mineBlockWithPendingTxs` throws for a timestamp, if it throws.
unfoldable pub mine_at :
    (allow_same : Bool) (fails : ℤ → Option Thrown) (latest : ℕ)
    → ℤ × Bool × ℤ
    → Clock
    → Outcome MineBlockError Clock ℤ
unfolding timestamp_clashes_with_previous_block_one increase_time set_time_increment
    set_next_block_timestamp
mine_at allow_same fails latest (calculated, offset_should_change, new_offset) c =
    let needs_increase =
      not allow_same && timestamp_clashes_with_previous_block_one latest calculated in
    let block_timestamp = if needs_increase then calculated +ℤ pos 1 else calculated in
    elim (fails block_timestamp) [
      | some e ↦ throws (rethrow e) c
      | none ↦
          let c₁ = if needs_increase then increase_time (pos 1) c else c in
          let c₂ = if offset_should_change then set_time_increment new_offset c₁ else c₁ in
          ok block_timestamp (set_next_block_timestamp 0 c₂)
    ]

unfoldable pub mine_block :
    (allow_same : Bool) (fails : ℤ → Option Thrown) (now latest : ℕ)
    → Option ℕ
    → Clock
    → Outcome MineBlockError Clock ℤ
unfolding calculate_timestamp_and_offset mine_at
mine_block allow_same fails now latest timestamp c =
    mine_at allow_same fails latest (calculate_timestamp_and_offset now c timestamp) c

-- the guard of `_setNextBlockTimestampAction`
unfoldable pub set_next_block_timestamp_action :
    Bool → ℕ → ℕ → Clock → Outcome MineBlockError Clock (Unit {0})
unfolding set_next_block_timestamp
set_next_block_timestamp_action allow_same latest timestamp c =
    if ltb timestamp latest
    then throws invalid_input c
    else if not allow_same && timestamp == latest
    then throws invalid_input c
    else ok tt (set_next_block_timestamp timestamp c)

-- `_mineAction`, up to the block's logging
unfoldable pub mine_action :
    (allow_same : Bool) (fails : ℤ → Option Thrown) (now latest timestamp : ℕ)
    → Clock
    → Outcome MineBlockError Clock ℤ
unfolding mine_block
mine_action allow_same fails now latest timestamp c =
    let mined = mine_block allow_same fails now latest (some timestamp) c in
    if not (timestamp == 0) && leb timestamp latest then throws invalid_input c else mined

-- `Math.ceil((snapshot.date - now) / 1000)`
unfoldable pub offset_to_snapshot : ℕ → ℕ → ℤ
offset_to_snapshot date now =
    if leb date now then sub_ℕ 0 ((now - date) / 1000) else pos ((date - now + 999) / 1000)

-- what `revertToSnapshot` makes of the clock of a snapshot
unfoldable pub revert_clock : (date now : ℕ) → Clock → Clock
unfolding offset_to_snapshot ◌+ℤ◌
revert_clock date now saved = record saved {
  time_offset = saved.time_offset +ℤ offset_to_snapshot date now;
}
