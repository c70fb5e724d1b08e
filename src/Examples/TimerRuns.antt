-- ===== src/Examples/TimerRuns.antt =====
-- The theorems on the mining timer at one that mines every second.
use hardhat.Prelude.{ℕ, ◌≡◌, refl, true, some, [], length, ok, after}
use hardhat.Prelude.Int.{pos}
use hardhat.MiningTimer.Loops.{
  IsSingle, created, started, fired, resumed, Reachable-IsSingle, set_block_time-resume,
}
use hardhat.MiningTimer.Timer.{
  BlockTime, fixed, range, MiningTimer, init, start, fire, resume, set_block_time,
  validate_block_time,
}

-- the least time of a range
abbrev least : ℕ → ℕ
least span = 0

abbrev every_second : BlockTime
every_second = fixed (pos 1000)

Reachable-IsSingle_example :
    IsSingle (resume least (fire least 0 (start least (after (init every_second)))))
Reachable-IsSingle_example =
    Reachable-IsSingle least (resume least (fire least 0 (start least (after (init every_second)))))
      (resumed _ (fired 0 _ (started _ (created every_second))))

abbrev mining : MiningTimer
mining = record {
  block_time = every_second;
  running = true;
  timeout = some 0;
  scheduled = [];
  awaiting = 1;
  next_handle = 1;
}

set_block_time-resume_example :
    (u : MiningTimer) × (set_block_time least (range (pos 10) (pos 20)) mining ≡ ok tt u)
    × ((resume least u).running ≡ true)
    × (length (resume least u).scheduled ≡ 2)
unfolding validate_block_time
set_block_time-resume_example =
    set_block_time-resume least (range (pos 10) (pos 20)) mining 0 refl refl refl refl refl refl
