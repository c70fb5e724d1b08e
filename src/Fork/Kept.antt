-- ===== src/Fork/Kept.antt =====
-- What the methods of a ForkStateManager leave as it was.
use hardhat.Prelude.{
  ℕ, ◌≡◌, refl, ap, subst, ◌∙◌, sym, Bool, true, false, none, some, ◌==◌, ltb, inl, inr, Bool-cases,
  Option-cases, arith,
}
use hardhat.Prelude.Assoc.{get, put, get-put, get-put_self}
use hardhat.Fork.State.{State, ForkStateManager, Remote}
use hardhat.Fork.Writes.{
  write_storage, put_contract_storage, clear_contract_storage, put_contract_code, delete_account,
  put_account,
}
use hardhat.Fork.Roots.{is_state_known, get_state_root}
use hardhat.Fork.World.{Write, put_storage, clear_storage, put_code, delete, perform}
use hardhat.Fork.World

module _ (remote : Remote) (is_same : State → State → Bool) where
  -- What calls leave as it was: the checkpoints, the block that is looked at, and the states that are
  -- known by their roots.
  pub record Keeps (m m' : ForkStateManager) : Type 0 where
    pub checkpoints : m'.state_checkpoints ≡ m.state_checkpoints
    pub fork_block : m'.fork_block_number ≡ m.fork_block_number
    pub context_block : m'.context_block_number ≡ m.context_block_number
    pub changed : m'.context_changed ≡ m.context_changed
    pub roots :
        (root : ℕ) (s : State)
        → get root m.state_root_to_state ≡ some s
        → get root m'.state_root_to_state ≡ some s

  -- the hash that would be drawn next is no root yet
  abbrev pub IsFresh : ForkStateManager → Type 0
  IsFresh m = get m.next_value m.state_root_to_state ≡ none

  pub Keeps-refl : (m : ForkStateManager) → Keeps m m
  Keeps-refl m = record {
    checkpoints = refl;
    fork_block = refl;
    context_block = refl;
    changed = refl;
    roots = λ root s h. h;
  }

  pub Keeps-trans : (m n o : ForkStateManager) → Keeps m n → Keeps n o → Keeps m o
  Keeps-trans m n o k l = record {
    checkpoints = l.checkpoints ∙ k.checkpoints;
    fork_block = l.fork_block ∙ k.fork_block;
    context_block = l.context_block ∙ k.context_block;
    changed = l.changed ∙ k.changed;
    roots = λ root s h. l.roots root s (k.roots root s h);
  }

  with_state-Keeps : (m : ForkStateManager) (s : State) → Keeps m (record m { state = s })
  with_state-Keeps m s = record {
    checkpoints = refl;
    fork_block = refl;
    context_block = refl;
    changed = refl;
    roots = λ root t h. h;
  }

  pub perform-Keeps : (w : Write) (m : ForkStateManager) → Keeps m (perform remote w m)
  unfolding perform put_contract_storage write_storage clear_contract_storage put_contract_code
      delete_account put_account
  perform-Keeps (put_storage k key value) m = elim (Bool-cases (key.length == 32)) [
    | inl e ↦ elim (Bool-cases (ltb 32 value.length)) [
      | inl f ↦ rw (e, f, put_contract_storage) (Keeps-refl m)
      | inr f ↦ rw (e, f, put_contract_storage) (with_state-Keeps m _)
    ]
    | inr e ↦ rw (e, put_contract_storage) (Keeps-refl m)
  ]
  perform-Keeps (clear_storage k) m = with_state-Keeps m _
  perform-Keeps (put_code k code) m = with_state-Keeps m _
  perform-Keeps (delete k) m = with_state-Keeps m _
  perform-Keeps (World.put k account) m = with_state-Keeps m _

  -- the root that is answered is that of the state
  pub record HasRoot (m : ForkStateManager) (r : ℕ × ForkStateManager) : Type 0 where
    pub keeps : Keeps m r.1
    pub state : r.1.state ≡ m.state
    pub known : get r.0 r.1.state_root_to_state ≡ some m.state

  abbrev drawn : ForkStateManager → ℕ × ForkStateManager
  drawn m = (
    m.next_value,
    record m {
      next_value = remote.keccak256_hash m.next_value;
      state_root = m.next_value;
      state_root_to_state = put m.next_value m.state m.state_root_to_state;
    },
  )

  drawn-HasRoot : (m : ForkStateManager) → IsFresh m → HasRoot m (drawn m)
  drawn-HasRoot m fresh = record {
    keeps = record {
      checkpoints = refl;
      fork_block = refl;
      context_block = refl;
      changed = refl;
      roots = λ root s h. ground (arith, get-put m.next_value root m.state m.state_root_to_state);
    };
    state = refl;
    known = get-put_self m.next_value m.state m.state_root_to_state;
  }

  get_state_root-known :
      (m : ForkStateManager) (s : State)
      → get m.state_root m.state_root_to_state ≡ some s
      → is_same s m.state ≡ true
      → get_state_root remote is_same m ≡ (m.state_root, m)
  unfolding get_state_root
  get_state_root-known m s e same = ground arith

  get_state_root-drawn :
      (m : ForkStateManager)
      → is_state_known remote is_same m ≡ false
      → get_state_root remote is_same m ≡ drawn m
  unfolding get_state_root
  get_state_root-drawn m e = ground arith

  pub get_state_root-HasRoot :
      ((a b : State) → is_same a b ≡ true → a ≡ b)
      → (m : ForkStateManager) → IsFresh m
      → HasRoot m (get_state_root remote is_same m)
  get_state_root-HasRoot law m fresh =
      elim (Option-cases (get m.state_root m.state_root_to_state)) [
        | inl e ↦
            subst (HasRoot m) (sym (get_state_root-drawn m (ground arith))) (drawn-HasRoot m fresh)
        | inr (s, e) ↦ elim (Bool-cases (is_same s m.state)) [
          | inl same ↦ subst (HasRoot m) (sym (get_state_root-known m s e same)) (record {
            keeps = Keeps-refl m;
            state = refl;
            known = e ∙ ap some (law s m.state same);
          })
          | inr other ↦
              subst (HasRoot m) (sym (get_state_root-drawn m (ground arith)))
                (drawn-HasRoot m fresh)
        ]
      ]
