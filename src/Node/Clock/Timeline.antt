-- ===== src/Node/Clock/Timeline.antt =====
-- Block timestamps grow, whatever is called on the clock, and the clock stays ahead of the chain.
use hardhat.Prelude.{
  ℕ, suc, ◌+◌, ◌≤◌, ◌≡◌, refl, ap, Bool, true, false, Option, none, some, Outcome, ok, throws,
  arith, inl, inr, ◌⊎◌, Bool-cases, Option-cases, ◌==◌,
}
use hardhat.Prelude.Int.{
  ℤ, pos, sub_ℕ, ◌≤ℤ◌, ◌<ℤ◌, ◌+ℤ◌, +ℤ-parts, sub_ℕ-parts, pos_add, pos-above, eq_of_parts, pos_part,
  neg_part,
}
use hardhat.Node.Clock.{
  Clock, Thrown, MineBlockError, rethrow, get_current_timestamp, set_next_block_timestamp,
  set_time_increment, increase_time, given, calculate_timestamp_and_offset,
  timestamp_clashes_with_previous_block_one, mine_at, mine_block,
}

-- a timestamp that may follow the latest one
abbrev pub Follows : Bool → ℕ → ℤ → Type 0
Follows true latest t = pos latest ≤ℤ t
Follows false latest t = pos latest <ℤ t

-- The clock is not behind the latest block, and a timestamp that is set for the next block may
-- follow it.
pub record IsInTime (allow_same : Bool) (now latest : ℕ) (c : Clock) : Type 0 where
  pub ahead : pos latest ≤ℤ pos (get_current_timestamp now) +ℤ c.time_offset
  pub next_follows :
      (c.next_block_timestamp ≡ 0) ⊎ Follows allow_same latest (pos c.next_block_timestamp)

abbrev pub Mines : Bool → ℕ → ℕ → Clock → Outcome MineBlockError Clock ℤ → Type 0
Mines allow_same now latest c r =
    ((e : MineBlockError) × (r ≡ throws e c))
    ⊎ ((t : ℕ) × (c' : Clock) × (r ≡ ok (pos t) c')
        × Follows allow_same latest (pos t)
        × IsInTime allow_same now t c')

-- the clock behind a block with a timestamp that was asked for
abbrev clock_at : ℕ → ℕ → Clock
clock_at now t = record {
  time_offset = sub_ℕ t (get_current_timestamp now);
  next_block_timestamp = 0;
}

clock_at-IsInTime : (allow_same : Bool) (now t : ℕ) → IsInTime allow_same now t (clock_at now t)
clock_at-IsInTime allow_same now t = record {
  ahead =
      let current = get_current_timestamp now in
      omega (arith, +ℤ-parts (pos current) (sub_ℕ t current), sub_ℕ-parts t current);
  next_follows = inl refl;
}

mine_asked :
    (allow_same : Bool) (fails : ℤ → Option Thrown) (now latest t : ℕ) (c : Clock)
    → Follows allow_same latest (pos t)
    → Mines allow_same now latest c
        (mine_at allow_same fails latest (pos t, true, sub_ℕ t (get_current_timestamp now)) c)
unfolding mine_at timestamp_clashes_with_previous_block_one set_time_increment
    set_next_block_timestamp
mine_asked true fails now latest t c follows = elim (Option-cases (fails (pos t))) [
  | inr (failure, failed) ↦ inl (rethrow failure, rw (mine_at, failed) refl)
  | inl fine ↦
      inr (t, clock_at now t, rw (mine_at, fine) refl, follows, clock_at-IsInTime true now t)
]
mine_asked false fails now latest t c follows = elim (Option-cases (fails (pos t))) [
  | inr (failure, failed) ↦ inl (rethrow failure, ground (arith, failed, follows))
  | inl fine ↦
      inr (t, clock_at now t, ground (arith, fine, follows), follows, clock_at-IsInTime false now t)
]

-- no timestamp was asked for: the clock's own, or the next second
mine_default :
    (allow_same : Bool) (fails : ℤ → Option Thrown) (now latest n : ℕ) (c : Clock)
    → pos (get_current_timestamp now) +ℤ c.time_offset ≡ pos n
    → latest ≤ n
    → Mines allow_same now latest c (mine_at allow_same fails latest (pos n, false, pos 0) c)
unfolding mine_at timestamp_clashes_with_previous_block_one increase_time set_next_block_timestamp
mine_default true fails now latest n c e l = elim (Option-cases (fails (pos n))) [
  | inr (failure, failed) ↦ inl (rethrow failure, rw (mine_at, failed) refl)
  | inl fine ↦ inr (
    n,
    record c { next_block_timestamp = 0 },
    rw (mine_at, fine) refl,
    omega arith,
    record { ahead = omega (arith, ap pos_part e, ap neg_part e); next_follows = inl refl },
  )
]
mine_default false fails now latest n c e l = elim (Bool-cases (latest == n)) [
  | inl same ↦ elim (Option-cases (fails (pos (n + 1)))) [
    | inr (failure, failed) ↦ inl (rethrow failure, ground (arith, same, pos_add n 1, failed))
    | inl fine ↦
        let current = get_current_timestamp now in
        inr (
          n + 1,
          record { time_offset = c.time_offset +ℤ pos 1; next_block_timestamp = 0 },
          ground (arith, same, pos_add n 1, fine),
          omega arith,
          record {
            ahead = omega (
              arith,
              ap pos_part e,
              ap neg_part e,
              +ℤ-parts c.time_offset (pos 1),
              +ℤ-parts (pos current) c.time_offset,
              +ℤ-parts (pos current) (c.time_offset +ℤ pos 1),
            );
            next_follows = inl refl;
          },
        )
  ]
  | inr other ↦ elim (Option-cases (fails (pos n))) [
    | inr (failure, failed) ↦ inl (rethrow failure, ground (arith, other, failed))
    | inl fine ↦ inr (
      n,
      record c { next_block_timestamp = 0 },
      ground (arith, other, fine),
      ground (arith, other),
      record { ahead = omega (arith, ap pos_part e, ap neg_part e); next_follows = inl refl },
    )
  ]
]

-- a timestamp that is asked for may follow the latest block
abbrev pub IsAskedInTime : Bool → ℕ → Option ℕ → Type 0
IsAskedInTime allow_same latest timestamp =
    (given timestamp ≡ none)
    ⊎ ((t : ℕ) × (given timestamp ≡ some t) × Follows allow_same latest (pos t))

-- On time, for a block with no timestamp asked for, or with one that may follow the latest block's:
-- either mining throws and the clock is unchanged, or the block's timestamp is later than the
-- latest block's (not earlier, where blocks may share a timestamp), and the clock is on time for
-- the new block.
pub mine_block-Mines :
    (allow_same : Bool) (fails : ℤ → Option Thrown) (now latest : ℕ) (timestamp : Option ℕ)
    (c : Clock)
    → IsInTime allow_same now latest c
    → IsAskedInTime allow_same latest timestamp
    → Mines allow_same now latest c (mine_block allow_same fails now latest timestamp c)
unfolding mine_block calculate_timestamp_and_offset
mine_block-Mines allow_same fails now latest timestamp c v (inr (t, e, follows)) =
    rw (mine_block, calculate_timestamp_and_offset, e)
      (mine_asked allow_same fails now latest t c follows)
mine_block-Mines allow_same fails now latest timestamp c v (inl e) =
    elim (Bool-cases (c.next_block_timestamp == 0)) [
      | inl unset ↦
          let x = pos (get_current_timestamp now) +ℤ c.time_offset in
          let above : x ≡ pos (pos_part x) = pos-above latest x v.ahead in
          rw (mine_block, calculate_timestamp_and_offset, e, unset, above)
            (mine_default allow_same fails now latest (pos_part x) c above
              (omega (arith, v.ahead, ap neg_part above)))
      | inr is_set ↦ elim v.next_follows [
        | inl none_set ↦ absurd (ground (arith, none_set, is_set))
        | inr follows ↦
            rw (mine_block, calculate_timestamp_and_offset, e, is_set)
              (mine_asked allow_same fails now latest c.next_block_timestamp c follows)
      ]
    ]

back_to : (n k : ℕ) → pos k +ℤ sub_ℕ n k ≡ pos n
back_to n k =
    eq_of_parts (pos k +ℤ sub_ℕ n k) (pos n)
      (omega (arith, +ℤ-parts (pos k) (sub_ℕ n k), sub_ℕ-parts n k))

abbrev pub never : ℤ → Option Thrown
never t = none

-- Where blocks may not share a timestamp and mining does not throw: a block that is asked for at
-- the latest block's own timestamp, as hardhat_mine does with an interval of 0, gets the next second, but
-- the offset is taken from the timestamp asked for, so that a block mined in the same second of the
-- real time with no timestamp asked for gets one that is a second before the block that it follows.
pub mine_block-falls_back :
    (now n : ℕ) (c : Clock)
    → let latest = suc n in
      (c' c'' : Clock) × (mine_block false never now latest (some latest) c
        ≡ ok (pos (latest + 1)) c')
      × (mine_block false never now (latest + 1) none c' ≡ ok (pos latest) c'')
unfolding mine_block mine_at calculate_timestamp_and_offset
    timestamp_clashes_with_previous_block_one increase_time set_time_increment
    set_next_block_timestamp given
mine_block-falls_back now n c =
    let latest = suc n in
    let current = get_current_timestamp now in
    let next = clock_at now latest in
    (next, next, ground (arith, pos_add latest 1), ground (arith, back_to latest current))
