-- ===== src/MiningTimer/Loops.antt =====
-- How many mining loops a timer keeps going.
use hardhat.Prelude.{
  ℕ, ◌+◌, ◌<◌, ◌≡◌, refl, sym, ap, ◌∙◌, subst, true, false, not, ◌==◌, ==_refl, if◌then◌else◌, List,
  [], ◌∷◌, ◌++◌, none, some, keep, ◌⊎◌, inl, inr, length, arith, ok, after, Bool-cases,
}
use hardhat.Prelude.Assoc.{get, delete}
use hardhat.Prelude.Int.{ℤ, pos, negsuc, ◌≤ℤ◌, ◌<ℤ◌}
use hardhat.MiningTimer.Timer.{
  BlockTime, range, MiningTimer, validate_block_time, is_enabled, span, get_next_block_time, start,
  stop, change_block_time, set_block_time, fire, resume, init,
}
use hardhat.MiningTimer.Steps.{
  validate-cases, start-going, start-disabled, start-idle, stop-off, stop-on, set-valid,
  set-invalid, fire-none, fire-some, resume-none, resume-some, change-going, next_entry, rearmed,
}

-- No loop is going, or one is waiting for its timeout, which `stop` would clear, or one is mining.
abbrev pub IsSingle : MiningTimer → Type 0
IsSingle t =
    ((t.running ≡ false) × (t.scheduled ≡ []) × (t.awaiting ≡ 0))
    ⊎ (((h : ℕ) × (delay : ℤ) × (t.running ≡ true)
          × (t.scheduled ≡ (h, delay) ∷ [])
          × (t.timeout ≡ some h)
          × (t.awaiting ≡ 0))
        ⊎ ((t.running ≡ true) × (t.scheduled ≡ []) × (t.awaiting ≡ 1)))

-- no loop is going
abbrev IsIdle : MiningTimer → Type 0
IsIdle t = (t.running ≡ false) × (t.scheduled ≡ []) × (t.awaiting ≡ 0)

module _ (draw : ℕ → ℕ) where
  start-IsSingle : (t : MiningTimer) → IsSingle t → IsSingle (start draw t)
  start-IsSingle t s = elim (Bool-cases (is_enabled t.block_time)) [
    | inr off ↦ subst IsSingle (sym (start-disabled draw t off)) s
    | inl on ↦ elim s [
      | inr going ↦
          let r : t.running ≡ true = elim going [
            | inl (h, d, r, e, x, a) ↦ r
            | inr (r, e, a) ↦ r
          ] in
          subst IsSingle (sym (start-going draw t r)) (inr going)
      | inl (r, e, a) ↦ subst IsSingle (sym (start-idle draw t r on)) (
          inr (
            inl (
              t.next_handle,
              get_next_block_time draw t.block_time,
              refl,
              ap (λ l. l ++ next_entry draw t) e,
              refl,
              a,
            )))
    ]
  ]

  keep-cleared :
      (h : ℕ) (delay : ℤ) (l : List (ℕ × ℤ))
      → l ≡ (h, delay) ∷ []
      → keep (λ e. not (e.0 == h)) l ≡ []
  keep-cleared h delay l e = ap (keep (λ e. not (e.0 == h))) e ∙ ground (arith, ==_refl h)

  -- not while a mining call is awaited
  stop-IsIdle : (t : MiningTimer) → IsSingle t → t.awaiting ≡ 0 → IsIdle (stop draw t)
  stop-IsIdle t s quiet = elim s [
    | inl idle ↦ subst IsIdle (sym (stop-off draw t idle.0)) idle
    | inr (inl (h, d, r, e, x, a)) ↦
        subst IsIdle (sym (stop-on draw t h r x)) (refl, keep-cleared h d t.scheduled e, a)
    | inr (inr (r, e, a)) ↦ absurd (ground (arith, a, quiet))
  ]

  change-IsSingle :
      (time : BlockTime) (t : MiningTimer)
      → IsSingle t
      → t.awaiting ≡ 0
      → IsSingle (change_block_time draw time t)
  unfolding change_block_time
  change-IsSingle time t s quiet =
      let changed : MiningTimer = record t { block_time = time } in
      elim (Bool-cases (is_enabled time)) [
        | inr off ↦ rw off (inl (stop-IsIdle t s quiet))
        | inl on ↦ rw on (
            start-IsSingle (if t.running then stop draw changed else changed)
              (elim (Bool-cases t.running) [
                | inl r ↦
                    subst (λ b. IsSingle (if b then stop draw changed else changed)) (sym r)
                      (inl (stop-IsIdle changed s quiet))
                | inr r ↦ subst (λ b. IsSingle (if b then stop draw changed else changed)) (sym r) s
              ]))
      ]

  set-IsSingle :
      (time : BlockTime) (t : MiningTimer)
      → IsSingle t
      → t.awaiting ≡ 0
      → IsSingle (after (set_block_time draw time t))
  set-IsSingle time t s quiet = elim (validate-cases time t) [
    | inl good ↦
        subst (λ r. IsSingle (after r)) (sym (set-valid draw time t good))
          (change-IsSingle time t s quiet)
    | inr (e, bad) ↦ subst (λ r. IsSingle (after r)) (sym (set-invalid draw time t e bad)) s
  ]

  fire-IsSingle : (h : ℕ) (t : MiningTimer) → IsSingle t → IsSingle (fire draw h t)
  fire-IsSingle h t s = elim s [
    | inl (r, e, a) ↦ subst IsSingle (sym (fire-none draw h t (ap (get h) e))) (inl (r, e, a))
    | inr (inr (r, e, a)) ↦
        subst IsSingle (sym (fire-none draw h t (ap (get h) e))) (inr (inr (r, e, a)))
    | inr (inl (k, d, r, e, x, a)) ↦ elim (Bool-cases (k == h)) [
      | inl same ↦
          subst IsSingle (sym (fire-some draw h d t (ap (get h) e ∙ ground (arith, same)) r))
            (inr (inr (r, ap (delete h) e ∙ ground (arith, same), ap (λ n. n + 1) a)))
      | inr other ↦
          subst IsSingle (sym (fire-none draw h t (ap (get h) e ∙ ground (arith, other))))
            (inr (inl (k, d, r, e, x, a)))
    ]
  ]

  resume-IsSingle : (t : MiningTimer) → IsSingle t → IsSingle (resume draw t)
  resume-IsSingle t s = elim s [
    | inl (r, e, a) ↦ subst IsSingle (sym (resume-none draw t a)) (inl (r, e, a))
    | inr (inl (h, d, r, e, x, a)) ↦
        subst IsSingle (sym (resume-none draw t a)) (inr (inl (h, d, r, e, x, a)))
    | inr (inr (r, e, a)) ↦ subst IsSingle (sym (resume-some draw t 0 a)) (
        inr (
          inl (
            t.next_handle,
            get_next_block_time draw t.block_time,
            r,
            ap (λ l. l ++ next_entry draw t) e,
            refl,
            refl,
          )))
  ]

  -- The timers that calls and timeouts reach, where no call of `stop` or `setBlockTime` comes while
  -- the mining function is awaited.
  pub data Reachable : MiningTimer → Type 0 where
    created : (time : BlockTime) → Reachable (after (init time))
    started : (t : MiningTimer) → Reachable t → Reachable (start draw t)
    stopped : (t : MiningTimer) → t.awaiting ≡ 0 → Reachable t → Reachable (stop draw t)
    set :
        (time : BlockTime) (t : MiningTimer)
        → t.awaiting ≡ 0
        → Reachable t
        → Reachable (after (set_block_time draw time t))
    fired : (h : ℕ) (t : MiningTimer) → Reachable t → Reachable (fire draw h t)
    resumed : (t : MiningTimer) → Reachable t → Reachable (resume draw t)

  created-IsSingle : (time : BlockTime) → IsSingle (after (init time))
  unfolding init
  created-IsSingle time =
      let fresh : MiningTimer = record {
        block_time = time;
        running = false;
        timeout = none;
        scheduled = [];
        awaiting = 0;
        next_handle = 0;
      } in
      elim (validate-cases time fresh) [
        | inl good ↦ subst (λ r. IsSingle (after r)) (sym good) (inl (refl, refl, refl))
        | inr (e, bad) ↦ subst (λ r. IsSingle (after r)) (sym bad) (inl (refl, refl, refl))
      ]

  -- As long as no call of `stop` or `setBlockTime` comes while the mining function is awaited, a
  -- timer that runs has exactly one loop going, which is mining or waits for the one scheduled
  -- timeout, whose handle the timer has; a timer that is stopped has none.
  pub Reachable-IsSingle : (t : MiningTimer) → Reachable t → IsSingle t
  Reachable-IsSingle _ (created time) = created-IsSingle time
  Reachable-IsSingle _ (started t q) = start-IsSingle t (Reachable-IsSingle t q)
  Reachable-IsSingle _ (stopped t quiet q) = inl (stop-IsIdle t (Reachable-IsSingle t q) quiet)
  Reachable-IsSingle _ (set time t quiet q) = set-IsSingle time t (Reachable-IsSingle t q) quiet
  Reachable-IsSingle _ (fired h t q) = fire-IsSingle h t (Reachable-IsSingle t q)
  Reachable-IsSingle _ (resumed t q) = resume-IsSingle t (Reachable-IsSingle t q)

  -- A valid block time other than 0 that is set on a running timer while the mining function is
  -- awaited and no timeout is scheduled leaves a second loop: the call schedules a timeout, and when
  -- the mining is done the old loop schedules another, with the timer running.
  pub set_block_time-resume :
      (time : BlockTime) (t : MiningTimer) (h : ℕ)
      → t.running ≡ true
      → t.timeout ≡ some h
      → t.scheduled ≡ []
      → t.awaiting ≡ 1
      → validate_block_time time t ≡ ok tt t
      → is_enabled time ≡ true
      → (u : MiningTimer) × (set_block_time draw time t ≡ ok tt u)
        × ((resume draw u).running ≡ true)
        × (length (resume draw u).scheduled ≡ 2)
  set_block_time-resume time t h r x e a good on =
      let u = rearmed draw time t h in
      let resumed = resume-some draw u 0 a in
      (
        u,
        set-valid draw time t good ∙ ap (ok tt) (change-going draw time t h r x on),
        ap (λ v. v.running) resumed,
        ap (λ v. length v.scheduled) resumed
            ∙ ap
                (λ l. length (
                  (keep (λ e. not (e.0 == h)) l
                    ++ (t.next_handle, get_next_block_time draw time) ∷ [])
                  ++ (t.next_handle + 1, get_next_block_time draw time) ∷ []))
                e,
      )

  -- Where the drawn part of a positive span is less than it: the time to the next block that a range
  -- with its start before its end gives is not before the start, and before the end.
  pub get_next_block_time-range :
      ((n : ℕ) → 0 < n → draw n < n)
      → (a b : ℤ) → a <ℤ b
      → (a ≤ℤ get_next_block_time draw (range a b)) × (get_next_block_time draw (range a b) <ℤ b)
  unfolding get_next_block_time
  get_next_block_time-range less (pos a) (pos b) h =
      ground (arith, less (span (pos a) (pos b)) (omega arith))
  get_next_block_time-range less (pos a) (negsuc b) h = absurd (ground (arith, h))
  get_next_block_time-range less (negsuc a) (pos b) h =
      ground (arith, less (span (negsuc a) (pos b)) (omega arith))
  get_next_block_time-range less (negsuc a) (negsuc b) h =
      ground (arith, less (span (negsuc a) (negsuc b)) (omega arith))
