-- ===== src/MiningTimer/Steps.antt =====
-- What each method of the timer does in the state that it is called in.
use hardhat.Prelude.{
  ℕ, suc, ◌+◌, ◌≡◌, refl, ap, ◌∙◌, true, false, not, ◌==◌, if◌then◌else◌, List, [], ◌∷◌, none, some,
  keep, ◌⊎◌, inl, inr, arith, ok, throws, Bool-cases,
}
use hardhat.Prelude.Assoc.{get, delete}
use hardhat.Prelude.Int.{ℤ, pos, ltb_ℤ}
use hardhat.MiningTimer.Timer.{
  BlockTime, fixed, range, MiningTimer, TimerError, negative_time, invalid_range,
  validate_block_time, is_enabled, set_timeout, get_next_block_time, start, stop, change_block_time,
  set_block_time, fire, resume,
}

pub validate-cases :
    (time : BlockTime) (t : MiningTimer)
    → (validate_block_time time t ≡ ok tt t)
      ⊎ ((e : TimerError) × (validate_block_time time t ≡ throws e t))
unfolding validate_block_time
validate-cases (fixed a) t = elim (Bool-cases (ltb_ℤ a (pos 0))) [
  | inl bad ↦ inr (negative_time, rw bad refl)
  | inr good ↦ inl (rw good refl)
]
validate-cases (range a b) t = elim (Bool-cases (ltb_ℤ b a)) [
  | inl bad ↦ inr (invalid_range, rw bad refl)
  | inr good ↦ inl (rw good refl)
]

module _ (draw : ℕ → ℕ) where
  -- the timeout that is scheduled next
  abbrev pub next_entry : MiningTimer → List (ℕ × ℤ)
  next_entry t = (t.next_handle, get_next_block_time draw t.block_time) ∷ []

  pub start-going : (t : MiningTimer) → t.running ≡ true → start draw t ≡ t
  unfolding start
  start-going t r = ground (arith, r)

  pub start-disabled : (t : MiningTimer) → is_enabled t.block_time ≡ false → start draw t ≡ t
  unfolding start
  start-disabled t off = elim (Bool-cases t.running) [
    | inl r ↦ ground (arith, r)
    | inr r ↦ ground (arith, r, off)
  ]

  pub start-idle :
      (t : MiningTimer)
      → t.running ≡ false
      → is_enabled t.block_time ≡ true
      → start draw t
        ≡ set_timeout (get_next_block_time draw t.block_time) (record t { running = true })
  unfolding start
  start-idle t r on = ground (arith, r, on)

  pub stop-off : (t : MiningTimer) → t.running ≡ false → stop draw t ≡ t
  unfolding stop
  stop-off t r = ground (arith, r)

  pub stop-on :
      (t : MiningTimer) (h : ℕ)
      → t.running ≡ true
      → t.timeout ≡ some h
      → stop draw t
        ≡ record t { running = false; scheduled = keep (λ e. not (e.0 == h)) t.scheduled }
  unfolding stop
  stop-on t h r x = ground (arith, r, x)

  pub set-valid :
      (time : BlockTime) (t : MiningTimer)
      → validate_block_time time t ≡ ok tt t
      → set_block_time draw time t ≡ ok tt (change_block_time draw time t)
  unfolding set_block_time
  set-valid time t good = ground (arith, good)

  pub set-invalid :
      (time : BlockTime) (t : MiningTimer) (e : TimerError)
      → validate_block_time time t ≡ throws e t
      → set_block_time draw time t ≡ throws e t
  unfolding set_block_time
  set-invalid time t e bad = ground (arith, bad)

  pub fire-none : (h : ℕ) (t : MiningTimer) → get h t.scheduled ≡ none → fire draw h t ≡ t
  unfolding fire
  fire-none h t e = ground (arith, e)

  pub fire-some :
      (h : ℕ) (delay : ℤ) (t : MiningTimer)
      → get h t.scheduled ≡ some delay
      → t.running ≡ true
      → fire draw h t ≡ record t { scheduled = delete h t.scheduled; awaiting = t.awaiting + 1 }
  unfolding fire
  fire-some h delay t e r = ground (arith, e, r)

  pub resume-none : (t : MiningTimer) → t.awaiting ≡ 0 → resume draw t ≡ t
  unfolding resume
  resume-none t a = ground (arith, a)

  pub resume-some :
      (t : MiningTimer) (n : ℕ)
      → t.awaiting ≡ suc n
      → resume draw t
        ≡ set_timeout (get_next_block_time draw t.block_time) (record t { awaiting = n })
  unfolding resume
  resume-some t n a = ground (arith, a)

  -- what a running timer becomes when its block time is set
  abbrev pub rearmed : BlockTime → MiningTimer → ℕ → MiningTimer
  rearmed time t h = set_timeout (get_next_block_time draw time) (record t {
    block_time = time;
    running = true;
    scheduled = keep (λ e. not (e.0 == h)) t.scheduled;
  })

  pub change-going :
      (time : BlockTime) (t : MiningTimer) (h : ℕ)
      → t.running ≡ true
      → t.timeout ≡ some h
      → is_enabled time ≡ true
      → change_block_time draw time t ≡ rearmed time t h
  unfolding change_block_time
  change-going time t h r x on =
      let changed : MiningTimer = record t { block_time = time } in
      let stopped : MiningTimer = record changed {
        running = false;
        scheduled = keep (λ e. not (e.0 == h)) t.scheduled;
      } in
      ap
        (λ b.
          if not b
          then stop draw t
          else start draw (if t.running then stop draw changed else changed))
        on
      ∙ ap (λ b. start draw (if b then stop draw changed else changed)) r
      ∙ ap (start draw) (stop-on changed h r x)
      ∙ start-idle stopped refl on
