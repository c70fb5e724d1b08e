-- ===== src/Node/Clock/Steps.antt =====
-- What the provider's methods do to the clock and to the latest block's timestamp, as steps.
use hardhat.Prelude.{ℕ, ◌+◌, ◌≤◌, ◌<◌, ◌≡◌, Bool, List, ◌∷◌, ◌++◌, Option, none, some, All, ok}
use hardhat.Prelude.Int.{ℤ, pos}
use hardhat.Node.Clock.{
  Clock, Thrown, increase_time, mine_block, set_next_block_timestamp_action, mine_action,
  revert_clock,
}
use hardhat.Node.Clock.Timeline.{IsInTime}

-- what `takeSnapshot` keeps of the time
pub record Saved : Type 0 where
  pub date : ℕ
  pub saved_latest : ℕ
  pub saved_clock : Clock

-- the time, the latest block's timestamp, the clock and the snapshots, the newest first
pub record Timeline : Type 0 where
  pub now : ℕ
  pub latest : ℕ
  pub clock : Clock
  pub snapshots : List Saved

pub data Step (allow_same : Bool) : Timeline → Timeline → Type 0 where
  passes : (s : Timeline) (later : ℕ) → s.now ≤ later → Step allow_same s (record s { now = later })
  -- evm_increaseTime, of a number that is not negative
  increases :
      (s : Timeline) (n : ℕ)
      → Step allow_same s (record s { clock = increase_time (pos n) s.clock })
  -- evm_setNextBlockTimestamp
  sets_next :
      (s : Timeline) (t : ℕ) (c : Clock)
      → set_next_block_timestamp_action allow_same s.latest t s.clock ≡ ok tt c
      → Step allow_same s (record s { clock = c })
  -- evm_mine
  mines :
      (s : Timeline) (fails : ℤ → Option Thrown) (t m : ℕ) (c : Clock)
      → mine_action allow_same fails s.now s.latest t s.clock ≡ ok (pos m) c
      → Step allow_same s (record s { latest = m; clock = c })
  -- interval mining, a transaction mined at once, and the first block of hardhat_mine
  mines_next :
      (s : Timeline) (fails : ℤ → Option Thrown) (m : ℕ) (c : Clock)
      → mine_block allow_same fails s.now s.latest none s.clock ≡ ok (pos m) c
      → Step allow_same s (record s { latest = m; clock = c })
  -- a further block of hardhat_mine, with an interval that is not 0
  mines_after :
      (s : Timeline) (fails : ℤ → Option Thrown) (interval m : ℕ) (c : Clock)
      → 0 < interval
      → mine_block allow_same fails s.now s.latest (some (s.latest + interval)) s.clock
        ≡ ok (pos m) c
      → Step allow_same s (record s { latest = m; clock = c })
  -- evm_snapshot
  snapshots :
      (s : Timeline)
      → Step allow_same s (record s {
        snapshots =
            record { date = s.now; saved_latest = s.latest; saved_clock = s.clock } ∷ s.snapshots;
      })
  -- evm_revert: the snapshot and the newer ones are dropped
  reverts :
      (s : Timeline) (newer older : List Saved) (saved : Saved)
      → s.snapshots ≡ newer ++ saved ∷ older
      → Step allow_same s (record s {
        latest = saved.saved_latest;
        clock = revert_clock saved.date s.now saved.saved_clock;
        snapshots = older;
      })

pub data Steps (allow_same : Bool) : Timeline → Timeline → Type 0 where
  done : (s : Timeline) → Steps allow_same s s
  step :
      {s s' s'' : Timeline}
      → Steps allow_same s s'
      → Step allow_same s' s''
      → Steps allow_same s s''

-- Each snapshot was in time when it was taken, and so is the clock.
pub record IsOnTime (allow_same : Bool) (s : Timeline) : Type 0 where
  pub in_time : IsInTime allow_same s.now s.latest s.clock
  pub saved_in_time : All (λ z. IsInTime allow_same z.date z.saved_latest z.saved_clock) s.snapshots
