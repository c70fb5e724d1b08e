-- ===== src/Node/Clock/OnTime.antt =====
-- Every step keeps the clock on time.
use hardhat.Prelude.{
  ℕ, zero, suc, ◌+◌, ◌-◌, ◌/◌, ◌≤◌, ◌<◌, ◌≡◌, refl, sym, ap, ◌∙◌, subst, Bool, true, false, ◌∷◌,
  Option, none, some, All, All-append_right, ok, after, arith, inl, inr, Bool-cases, leb,
}
use hardhat.Prelude.Int.{ℤ, pos, sub_ℕ, ◌≤ℤ◌, ◌+ℤ◌, +ℤ-parts, sub_ℕ-parts}
use hardhat.Node.Clock.{
  Clock, Thrown, get_current_timestamp, increase_time, given, mine_block, set_next_block_timestamp,
  set_next_block_timestamp_action, mine_action, offset_to_snapshot, revert_clock,
}
use hardhat.Node.Clock.Timeline.{Follows, IsInTime, IsAskedInTime, mine_block-Mines}
use hardhat.Node.Clock.Steps.{
  Timeline, Step, passes, increases, sets_next, mines, mines_next, mines_after, snapshots, reverts,
  Steps, done, step, IsOnTime,
}

-- the clock only moves forward with the time
later-IsInTime :
    (allow_same : Bool) (now later latest : ℕ) (c : Clock)
    → now ≤ later
    → IsInTime allow_same now latest c
    → IsInTime allow_same later latest c
unfolding get_current_timestamp
later-IsInTime allow_same now later latest c l v = record {
  ahead = omega (
    arith,
    v.ahead,
    +ℤ-parts (pos (get_current_timestamp now)) c.time_offset,
    +ℤ-parts (pos (get_current_timestamp later)) c.time_offset,
  );
  next_follows = v.next_follows;
}

increased-IsInTime :
    (allow_same : Bool) (now latest n : ℕ) (c : Clock)
    → IsInTime allow_same now latest c
    → IsInTime allow_same now latest (increase_time (pos n) c)
unfolding increase_time
increased-IsInTime allow_same now latest n c v =
    let current = get_current_timestamp now in
    record {
      ahead = omega (
        arith,
        v.ahead,
        +ℤ-parts (pos current) c.time_offset,
        +ℤ-parts c.time_offset (pos n),
        +ℤ-parts (pos current) (c.time_offset +ℤ pos n),
      );
      next_follows = v.next_follows;
    }

offset_to_snapshot-round :
    (date now : ℕ)
    → pos (get_current_timestamp date)
      ≤ℤ pos (get_current_timestamp now) +ℤ offset_to_snapshot date now
unfolding offset_to_snapshot get_current_timestamp
offset_to_snapshot-round date now =
    let current = get_current_timestamp now in
    elim (Bool-cases (leb date now)) [
      | inl earlier ↦
          let back = sub_ℕ 0 ((now - date) / 1000) in
          let moved : offset_to_snapshot date now ≡ back = rw earlier refl in
          subst (λ z. pos (get_current_timestamp date) ≤ℤ pos current +ℤ z) (sym moved)
            (omega (
              arith,
              sub_ℕ-parts 0 ((now - date) / 1000),
              +ℤ-parts (pos current) back,
              leb_iff date now earlier,
            ))
      | inr later ↦
          let ahead = (date - now + 999) / 1000 in
          let moved : offset_to_snapshot date now ≡ pos ahead = rw later refl in
          subst (λ z. pos (get_current_timestamp date) ≤ℤ pos current +ℤ z) (sym moved)
            (omega (arith, +ℤ-parts (pos current) (pos ahead)))
    ]
  where
    leb_iff : (a b : ℕ) → leb a b ≡ true → a ≤ b
    leb_iff a b e = ground (arith, e)

reverted-IsInTime :
    (allow_same : Bool) (date now latest : ℕ) (c : Clock)
    → IsInTime allow_same date latest c
    → IsInTime allow_same now latest (revert_clock date now c)
unfolding revert_clock
reverted-IsInTime allow_same date now latest c v =
    let r = offset_to_snapshot date now in
    let current = get_current_timestamp now in
    record {
      ahead = omega (
        arith,
        v.ahead,
        offset_to_snapshot-round date now,
        +ℤ-parts (pos (get_current_timestamp date)) c.time_offset,
        +ℤ-parts (pos current) r,
        +ℤ-parts c.time_offset r,
        +ℤ-parts (pos current) (c.time_offset +ℤ r),
      );
      next_follows = v.next_follows;
    }

accepted :
    (allow_same : Bool) (latest t : ℕ) (c c' : Clock)
    → set_next_block_timestamp_action allow_same latest t c ≡ ok tt c'
    → Follows allow_same latest (pos t) × (set_next_block_timestamp t c ≡ c')
unfolding set_next_block_timestamp_action set_next_block_timestamp
accepted true latest t c c' e = (ground (arith, e), ground (arith, e))
accepted false latest t c c' e = (ground (arith, e), ground (arith, e))

set_next-IsInTime :
    (allow_same : Bool) (now latest t : ℕ) (c c' : Clock)
    → IsInTime allow_same now latest c
    → set_next_block_timestamp_action allow_same latest t c ≡ ok tt c'
    → IsInTime allow_same now latest c'
unfolding set_next_block_timestamp
set_next-IsInTime allow_same now latest t c c' v e =
    let (follows, same) = accepted allow_same latest t c c' e in
    subst (IsInTime allow_same now latest) same
      (record { ahead = v.ahead; next_follows = inr follows })

-- a block that a method mines
mined-IsInTime :
    (allow_same : Bool) (fails : ℤ → Option Thrown) (now latest : ℕ) (timestamp : Option ℕ) (m : ℕ)
    (c c' : Clock)
    → IsInTime allow_same now latest c
    → IsAskedInTime allow_same latest timestamp
    → mine_block allow_same fails now latest timestamp c ≡ ok (pos m) c'
    → Follows allow_same latest (pos m) × IsInTime allow_same now m c'
mined-IsInTime allow_same fails now latest timestamp m c c' v w e =
    elim (mine_block-Mines allow_same fails now latest timestamp c v w) [
      | inl (failure, failed) ↦ absurd (ground (arith, e, failed))
      | inr (t, c'', run, follows, v') ↦
          let same : ok (pos t) c'' ≡ ok (pos m) c' = sym run ∙ e in
          let same_t : t ≡ m = ground (arith, same) in
          let same_c : c'' ≡ c' = ap after same in
          (
            subst (λ z. Follows allow_same latest (pos z)) same_t follows,
            subst (λ z. IsInTime allow_same now m z) same_c
                (subst (λ z. IsInTime allow_same now z c'') same_t v'),
          )
    ]

later-Follows : (allow_same : Bool) (latest t : ℕ) → latest < t → Follows allow_same latest (pos t)
later-Follows true latest t l = omega arith
later-Follows false latest t l = omega arith

given_pos : (t : ℕ) → 0 < t → given (some t) ≡ some t
unfolding given
given_pos zero l = absurd (omega arith)
given_pos (suc t) l = refl

asked_after :
    (allow_same : Bool) (latest interval : ℕ)
    → 0 < interval
    → IsAskedInTime allow_same latest (some (latest + interval))
asked_after allow_same latest interval l =
    let t = latest + interval in
    inr (t, given_pos t (omega arith), later-Follows allow_same latest t (omega arith))

asked_mine :
    (allow_same : Bool) (fails : ℤ → Option Thrown) (now latest t m : ℕ) (c c' : Clock)
    → mine_action allow_same fails now latest t c ≡ ok (pos m) c'
    → IsAskedInTime allow_same latest (some t)
      × (mine_block allow_same fails now latest (some t) c ≡ ok (pos m) c')
unfolding mine_action
asked_mine allow_same fails now latest zero m c c' e = (inl refl, e)
asked_mine allow_same fails now latest (suc t) m c c' e = elim (Bool-cases (leb (suc t) latest)) [
  | inl early ↦ absurd (ground (arith, e, early))
  | inr later ↦ (
    inr (suc t, refl, later-Follows allow_same latest (suc t) (ground (arith, later))),
    ground (arith, e, later),
  )
]

no_timestamp : given none ≡ none
unfolding given
no_timestamp = refl

Step-IsOnTime :
    (allow_same : Bool) (s s' : Timeline)
    → Step allow_same s s'
    → IsOnTime allow_same s
    → IsOnTime allow_same s'
Step-IsOnTime allow_same _ _ (passes s later l) v = record {
  in_time = later-IsInTime allow_same s.now later s.latest s.clock l v.in_time;
  saved_in_time = v.saved_in_time;
}
Step-IsOnTime allow_same _ _ (increases s n) v = record {
  in_time = increased-IsInTime allow_same s.now s.latest n s.clock v.in_time;
  saved_in_time = v.saved_in_time;
}
Step-IsOnTime allow_same _ _ (sets_next s t c e) v = record {
  in_time = set_next-IsInTime allow_same s.now s.latest t s.clock c v.in_time e;
  saved_in_time = v.saved_in_time;
}
Step-IsOnTime allow_same _ _ (mines s fails t m c e) v =
    let (asked, mined) = asked_mine allow_same fails s.now s.latest t m s.clock c e in
    record {
      in_time =
          (mined-IsInTime allow_same fails s.now s.latest (some t) m s.clock c v.in_time asked
            mined).1;
      saved_in_time = v.saved_in_time;
    }
Step-IsOnTime allow_same _ _ (mines_next s fails m c e) v = record {
  in_time =
      (mined-IsInTime allow_same fails s.now s.latest none m s.clock c v.in_time (inl no_timestamp)
        e).1;
  saved_in_time = v.saved_in_time;
}
Step-IsOnTime allow_same _ _ (mines_after s fails interval m c l e) v = record {
  in_time =
      (mined-IsInTime allow_same fails s.now s.latest (some (s.latest + interval)) m s.clock c
        v.in_time (asked_after allow_same s.latest interval l) e).1;
  saved_in_time = v.saved_in_time;
}
Step-IsOnTime allow_same _ _ (snapshots s) v = record {
  in_time = v.in_time;
  saved_in_time = (v.in_time, v.saved_in_time);
}
Step-IsOnTime allow_same _ _ (reverts s newer older saved e) v =
    let all_saved =
      subst (All (λ z. IsInTime allow_same z.date z.saved_latest z.saved_clock)) e
        v.saved_in_time in
    let from_saved = All-append_right _ newer (saved ∷ older) all_saved in
    record {
      in_time =
          reverted-IsInTime allow_same saved.date s.now saved.saved_latest saved.saved_clock
            from_saved.0;
      saved_in_time = from_saved.1;
    }

-- Whatever the methods do, in any order, with snapshots and reverts among it: from a state on time
-- the clock never falls behind the latest block, and the next block is not due before it. The
-- numbers given to evm_increaseTime are not negative, and the intervals of hardhat_mine not 0.
pub Steps-IsOnTime :
    (allow_same : Bool) (s s' : Timeline)
    → Steps allow_same s s'
    → IsOnTime allow_same s
    → IsOnTime allow_same s'
Steps-IsOnTime allow_same _ _ (done s) v = v
Steps-IsOnTime allow_same _ _ (step {s = s} {s' = s'} {s'' = s''} steps last) v =
    Step-IsOnTime allow_same s' s'' last (Steps-IsOnTime allow_same s s' steps v)
