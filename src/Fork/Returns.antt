-- ===== src/Fork/Returns.antt =====
-- The parts of looking at the state behind another block, and the way back.
use hardhat.Prelude.{
  ℕ, ◌≡◌, ◌⊎◌, refl, ap, ◌∙◌, Bool, true, false, [], Option, none, some, ok, throws, ◌==◌, ltb, inl,
  inr, Bool-cases, arith,
}
use hardhat.Prelude.Assoc.{get}
use hardhat.Fork.State.{State, ForkStateManager, Remote, Run}
use hardhat.Fork.State.{unknown_state_root}
use hardhat.Fork.Roots.{
  set_state_root, set_block_context, choose_context, remote_context, back_to_fork, back_after,
  restore_fork_block_context, with_result, state_after,
}
use hardhat.Fork.Checkpoints.{set_root-known}
use hardhat.Fork.Kept.{Keeps}

module _ (remote : Remote) (is_same : State → State → Bool) where
  -- the manager looks at the state again that it looked at
  pub record IsBack (m m' : ForkStateManager) : Type 0 where
    pub state : m'.state ≡ m.state
    pub checkpoints : m'.state_checkpoints ≡ []
    pub fork_block : m'.fork_block_number ≡ m.fork_block_number
    pub context_block : m'.context_block_number ≡ m.fork_block_number
    pub changed : m'.context_changed ≡ false

  -- a manager in some context, from which the root leads back
  pub record Leads (root : ℕ) (m n : ForkStateManager) : Type 0 where
    pub checkpoints : n.state_checkpoints ≡ []
    pub fork_block : n.fork_block_number ≡ m.fork_block_number
    pub known : get root n.state_root_to_state ≡ some m.state
    pub context :
        (n.context_changed ≡ true)
        ⊎ ((n.context_changed ≡ false) × (n.context_block_number ≡ m.fork_block_number))

  pub Keeps-Leads :
      (root : ℕ) (m n o : ForkStateManager)
      → Leads root m n
      → Keeps remote is_same n o
      → Leads root m o
  Keeps-Leads root m n o l k = record {
    checkpoints = k.checkpoints ∙ l.checkpoints;
    fork_block = k.fork_block ∙ l.fork_block;
    known = k.roots root m.state l.known;
    context = elim l.context [
      | inl c ↦ inl (k.changed ∙ c)
      | inr (c, b) ↦ inr (k.changed ∙ c, k.context_block ∙ b)
    ];
  }

  back_to_fork-IsBack :
      (root : ℕ) (m n : ForkStateManager)
      → Leads root m n
      → IsBack m (back_to_fork remote is_same (record n { state_root = root; state = m.state }))
  back_to_fork-IsBack root m n l = elim l.context [
    | inl c ↦ rw c (record {
      state = refl;
      checkpoints = l.checkpoints;
      fork_block = l.fork_block;
      context_block = l.fork_block;
      changed = refl;
    })
    | inr (c, b) ↦ rw c (record {
      state = refl;
      checkpoints = l.checkpoints;
      fork_block = l.fork_block;
      context_block = b;
      changed = refl;
    })
  ]

  restore_unchecked :
      (root : ℕ) (n : ForkStateManager)
      → n.state_checkpoints ≡ []
      → restore_fork_block_context remote is_same root n
        ≡ back_after remote is_same (set_state_root remote is_same root n)
  unfolding restore_fork_block_context
  restore_unchecked root n e = ground arith

  pub set_unchecked :
      (root block_number : ℕ) (irregular : Option ℕ) (n : ForkStateManager)
      → n.state_checkpoints ≡ []
      → set_block_context remote is_same root block_number irregular n
        ≡ choose_context remote is_same root block_number irregular n
  unfolding set_block_context
  set_unchecked root block_number irregular n e = ground arith

  pub restore-IsBack :
      (root : ℕ) (m n : ForkStateManager)
      → Leads root m n
      → (o : ForkStateManager) × (restore_fork_block_context remote is_same root n ≡ ok tt o)
        × IsBack m o
  restore-IsBack root m n l = (
    back_to_fork remote is_same (record n { state_root = root; state = m.state }),
    restore_unchecked root n l.checkpoints
        ∙ ap (back_after remote is_same) (set_root-known remote is_same n root m.state l.known),
    back_to_fork-IsBack root m n l,
  )

  pub set_root-unknown :
      (root : ℕ) (n : ForkStateManager)
      → get root n.state_root_to_state ≡ none
      → set_state_root remote is_same root n ≡ throws unknown_state_root n
  unfolding set_state_root
  set_root-unknown root n e = ground arith

  pub with_result-IsBack :
      {A : Type 0} (m o : ForkStateManager) (r : Run A)
      → IsBack m o
      → IsBack m (state_after remote is_same (with_result remote is_same r (ok tt o)))
  with_result-IsBack m o (ok v n) b = b
  with_result-IsBack m o (throws e n) b = b

  pub choose_context-cases :
      (P : Run (Unit {0}) → Type 0) (state_root block_number : ℕ) (irregular : Option ℕ)
      (n : ForkStateManager)
      → ((other : ℕ) → P (set_state_root remote is_same other n))
      → P (ok tt (remote_context remote is_same state_root block_number n))
      → P (choose_context remote is_same state_root block_number irregular n)
  choose_context-cases P state_root block_number (some i) n set away = set i
  choose_context-cases P state_root block_number none n set away =
      elim (Bool-cases (block_number == n.fork_block_number)) [
        | inl e ↦ rw e (set n.initial_state_root)
        | inr e ↦ elim (Bool-cases (ltb n.fork_block_number block_number)) [
          | inl f ↦ rw (e, f) (set state_root)
          | inr f ↦ rw (e, f) away
        ]
      ]
