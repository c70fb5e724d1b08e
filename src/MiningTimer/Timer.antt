-- ===== src/MiningTimer/Timer.antt =====
-- The class MiningTimer of MiningTimer.ts with the part of the event loop that it uses: the
-- timeouts that are scheduled, under their handles, and how many calls of the mining function are
-- awaited. Node's setTimeout and clearTimeout are read as they are documented, and Math.random as
-- the argument `draw`, which gives the floor of a random part of a span.
use hardhat.Prelude.{
  ℕ, zero, suc, ◌+◌, ◌-◌, Bool, true, false, ◌||◌, not, ◌==◌, if◌then◌else◌, List, [], ◌∷◌, ◌++◌,
  Option, none, some, keep, Outcome, ok, throws,
}
use hardhat.Prelude.Assoc.{get, delete}
use hardhat.Prelude.Int.{ℤ, pos, negsuc, pos_part, neg_part, sub_ℕ, ltb_ℤ}

-- IntervalMiningConfig
pub data BlockTime : Type 0 where
  fixed : ℤ → BlockTime
  range : ℤ → ℤ → BlockTime

pub data TimerError : Type 0 where
  invalid_range negative_time : TimerError

pub record MiningTimer : Type 0 where
  pub block_time : BlockTime
  pub running : Bool
  pub timeout : Option ℕ
  pub scheduled : List (ℕ × ℤ)
  pub awaiting : ℕ
  pub next_handle : ℕ

abbrev pub Result : Type 0
Result = Outcome TimerError MiningTimer (Unit {0})

unfoldable pub validate_block_time : BlockTime → MiningTimer → Result
validate_block_time (range start end) t =
    if ltb_ℤ end start then throws invalid_range t else ok tt t
validate_block_time (fixed time) t = if ltb_ℤ time (pos 0) then throws negative_time t else ok tt t

-- `new MiningTimer(blockTime, mineFunction)`
unfoldable pub init : BlockTime → Result
unfolding validate_block_time
init time = validate_block_time time (record {
  block_time = time;
  running = false;
  timeout = none;
  scheduled = [];
  awaiting = 0;
  next_handle = 0;
})

-- `blockTime !== 0`
abbrev pub is_enabled : BlockTime → Bool
is_enabled (fixed (pos zero)) = false
is_enabled (fixed (pos (suc n))) = true
is_enabled (fixed (negsuc n)) = true
is_enabled (range start end) = true

abbrev pub plus : ℤ → ℕ → ℤ
plus (pos n) k = pos (n + k)
plus (negsuc n) k = sub_ℕ k (suc n)

-- the length of a range whose end is not before its start
abbrev pub span : ℤ → ℤ → ℕ
span start end = pos_part end + neg_part start - (pos_part start + neg_part end)

abbrev pub set_timeout : ℤ → MiningTimer → MiningTimer
set_timeout delay t = record t {
  timeout = some t.next_handle;
  scheduled = t.scheduled ++ (t.next_handle, delay) ∷ [];
  next_handle = t.next_handle + 1;
}

module _ (draw : ℕ → ℕ) where
  unfoldable pub get_next_block_time : BlockTime → ℤ
  get_next_block_time (fixed time) = time
  get_next_block_time (range start end) = plus start (draw (span start end))

  unfoldable pub start : MiningTimer → MiningTimer
  start t =
      if t.running || not (is_enabled t.block_time)
      then t
      else set_timeout (get_next_block_time t.block_time) (record t { running = true })

  unfoldable pub stop : MiningTimer → MiningTimer
  stop t =
      if t.running
      then elim (t.timeout) [
        | none ↦ record t { running = false }
        | some h ↦ record t { running = false; scheduled = keep (λ e. not (e.0 == h)) t.scheduled }
      ]
      else t

  -- `setBlockTime`, after the validation
  unfoldable pub change_block_time : BlockTime → MiningTimer → MiningTimer
  unfolding start stop
  change_block_time time t =
      let changed = record t { block_time = time } in
      if not (is_enabled time) then stop t else start (if t.running then stop changed else changed)

  unfoldable pub set_block_time : BlockTime → MiningTimer → Result
  set_block_time time t = elim (validate_block_time time t) [
    | throws e t' ↦ throws e t'
    | ok u t' ↦ ok tt (change_block_time time t')
  ]

  -- A timeout fires: `_loop` up to the call of the mining function.
  unfoldable pub fire : ℕ → MiningTimer → MiningTimer
  fire h t = elim (get h t.scheduled) [
    | none ↦ t
    | some delay ↦
        let fired = record t { scheduled = delete h t.scheduled } in
        if t.running then record fired { awaiting = t.awaiting + 1 } else fired
  ]

  -- An awaited mining call is done: `_loop` from there on.
  unfoldable pub resume : MiningTimer → MiningTimer
  resume t = elim (t.awaiting) [
    | zero ↦ t
    | suc n ↦ set_timeout (get_next_block_time t.block_time) (record t { awaiting = n })
  ]
