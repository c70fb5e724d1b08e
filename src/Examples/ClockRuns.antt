-- ===== src/Examples/ClockRuns.antt =====
-- The clock's theorems, a million seconds after the epoch.
use hardhat.Prelude.{◌+◌, ◌≡◌, refl, false, [], some, none, ok, arith, inl}
use hardhat.Prelude.Int.{pos, negsuc, ◌+ℤ◌}
use hardhat.Node.Clock.{
  Clock, get_current_timestamp, given, calculate_timestamp_and_offset,
  timestamp_clashes_with_previous_block_one, mine_at, mine_block, increase_time,
  set_next_block_timestamp, revert_clock,
}
use hardhat.Node.Clock.Steps.{
  Timeline, Saved, passes, increases, mines_next, snapshots, reverts, Steps, done, step, IsOnTime,
}
use hardhat.Node.Clock.OnTime.{Steps-IsOnTime}
use hardhat.Node.Clock.Timeline.{IsInTime, Mines, mine_block-Mines, mine_block-falls_back, never}

abbrev clock : Clock
clock = record { time_offset = pos 0; next_block_timestamp = 0 }

clock-IsInTime : IsInTime false 1000000000 1000000 clock
unfolding get_current_timestamp ◌+ℤ◌
clock-IsInTime = record { ahead = omega arith; next_follows = inl refl }

-- the latest block has the timestamp of this second
mine_block-Mines_example :
    Mines false 1000000000 1000000 clock (mine_block false never 1000000000 1000000 (some 0) clock)
unfolding given
mine_block-Mines_example =
    mine_block-Mines false never 1000000000 1000000 (some 0) clock clock-IsInTime (inl refl)

-- an hour is skipped
abbrev beginning : Timeline
beginning = record { now = 1000000000; latest = 1000000; clock = clock; snapshots = [] }

abbrev skipped : Clock
skipped = record { time_offset = pos 3600; next_block_timestamp = 0 }

abbrev kept : Saved
kept = record { date = 1000000000; saved_latest = 1000000; saved_clock = clock }

-- a snapshot, an hour skipped, a block, two and a half seconds later the revert
abbrev last : Timeline
last = record {
  now = 1000002500;
  latest = 1000000;
  clock = revert_clock 1000000000 1000002500 clock;
  snapshots = [];
}

run : Steps false beginning last
unfolding increase_time ◌+ℤ◌ mine_block mine_at calculate_timestamp_and_offset given
    get_current_timestamp timestamp_clashes_with_previous_block_one set_next_block_timestamp
run =
    step
      (step
        (step (step (step (done beginning) (snapshots beginning)) (increases _ 3600))
          (mines_next _ never 1003600 skipped refl))
        (passes _ 1000002500 (omega arith)))
      (reverts _ [] [] kept refl)

Steps-IsOnTime_example : IsOnTime false last
Steps-IsOnTime_example =
    Steps-IsOnTime false beginning last run
      (record { in_time = clock-IsInTime; saved_in_time = tt })

-- two and a half seconds after the snapshot the offset is two seconds less
offset_is_back : revert_clock 1000000000 1000002500 clock ≡ record clock { time_offset = negsuc 1 }
unfolding revert_clock
offset_is_back = refl

mine_block-falls_back_example :
    (c' c'' : Clock) × (mine_block false never 1000000000 (1000000 + 1) (some 1000001) clock
      ≡ ok (pos (1000001 + 1)) c')
    × (mine_block false never 1000000000 (1000001 + 1) none c' ≡ ok (pos 1000001) c'')
mine_block-falls_back_example = mine_block-falls_back 1000000000 1000000 clock
