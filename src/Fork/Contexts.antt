-- ===== src/Fork/Contexts.antt =====
-- Looking at the state behind another block, and back.
use hardhat.Prelude.{
  ℕ, ◌≡◌, ◌≢◌, refl, subst, ◌∙◌, sym, Bool, true, false, [], Option, ok, inl, inr, Option-cases,
  arith,
}
use hardhat.Prelude.Assoc.{get, get-put}
use hardhat.Fork.State.{State, ForkStateManager, Remote, Run}
use hardhat.Fork.Roots.{
  get_state_root, set_state_root, remote_context, with_result, state_after, act_and_restore,
  run_in_block_context,
}
use hardhat.Fork.Checkpoints.{set_root-known}
use hardhat.Fork.Kept.{Keeps, IsFresh, get_state_root-HasRoot}
use hardhat.Fork.Returns.{
  IsBack, Leads, Keeps-Leads, set_unchecked, restore-IsBack, set_root-unknown, with_result-IsBack,
  choose_context-cases,
}

module _ (remote : Remote) (is_same : State → State → Bool) where
  module _ {A : Type 0} (action : ForkStateManager → Run A) where
    act-IsBack :
        (root : ℕ) (m n : ForkStateManager)
        → Keeps remote is_same n (state_after remote is_same (action n))
        → Leads remote is_same root m n
        → IsBack remote is_same m
            (state_after remote is_same (act_and_restore remote is_same root action (ok tt n)))
    act-IsBack root m n k l =
        let (o, e, b) =
          restore-IsBack remote is_same root m _ (Keeps-Leads remote is_same root m n _ l k) in
        subst
          (λ r.
            IsBack remote is_same m
              (state_after remote is_same (with_result remote is_same (action n) r)))
          (sym e) (with_result-IsBack remote is_same m o (action n) b)

    set_state_root-IsBack :
        (root other : ℕ) (m n : ForkStateManager)
        → ((s : ForkStateManager) → Keeps remote is_same s (state_after remote is_same (action s)))
        → n.state ≡ m.state
        → n.context_changed ≡ false
        → n.context_block_number ≡ m.fork_block_number
        → Leads remote is_same root m n
        → IsBack remote is_same m (
            state_after remote is_same
              (act_and_restore remote is_same root action (set_state_root remote is_same other n)))
    set_state_root-IsBack root other m n k e c b l =
        elim (Option-cases (get other n.state_root_to_state)) [
          | inl unknown ↦
              subst Back (sym (set_root-unknown remote is_same other n unknown)) (record {
                state = e;
                checkpoints = l.checkpoints;
                fork_block = l.fork_block;
                context_block = b;
                changed = c;
              })
          | inr (s, known) ↦
              let n' = record n { state_root = other; state = s } in
              subst Back (sym (set_root-known remote is_same n other s known)) (
                act-IsBack root m n' (k n') (record {
                  checkpoints = l.checkpoints;
                  fork_block = l.fork_block;
                  known = l.known;
                  context = l.context;
                }))
        ]
      where
        Back : Run (Unit {0}) → Type 0
        Back r =
            IsBack remote is_same m
              (state_after remote is_same (act_and_restore remote is_same root action r))

    remote-IsBack :
        (root state_root block_number : ℕ) (m n : ForkStateManager)
        → ((s : ForkStateManager) → Keeps remote is_same s (state_after remote is_same (action s)))
        → root ≢ state_root
        → Leads remote is_same root m n
        → IsBack remote is_same m (
            state_after remote is_same (
              act_and_restore remote is_same root action
                (ok tt (remote_context remote is_same state_root block_number n))))
    remote-IsBack root state_root block_number m n k ne l =
        let n' = remote_context remote is_same state_root block_number n in
        act-IsBack root m n' (k n') (record {
          checkpoints = l.checkpoints;
          fork_block = l.fork_block;
          known = ground (arith, get-put state_root root [] n.state_root_to_state, l.known);
          context = inl refl;
        })

    -- However an action ends that keeps the checkpoints, the block and the known states, when it is
    -- run on the state behind another block than the one with the current state, whose number is
    -- before, at or behind the block that was forked at, with an irregular state or not, and also if
    -- the block's state is unknown: the manager then looks at the state and the block again that it
    -- looked at, where it had no checkpoint, was in the context of the forked block and the root that
    -- is drawn is new.
    pub run_in_block_context-IsBack :
        ((a b : State) → is_same a b ≡ true → a ≡ b)
        → (state_root block_number : ℕ) (irregular : Option ℕ) (m : ForkStateManager)
        → ((s : ForkStateManager) → Keeps remote is_same s (state_after remote is_same (action s)))
        → (get_state_root remote is_same m).0 ≢ state_root
        → m.state_checkpoints ≡ []
        → m.context_changed ≡ false
        → m.context_block_number ≡ m.fork_block_number
        → IsFresh remote is_same m
        → IsBack remote is_same m (
            state_after remote is_same
              (run_in_block_context remote is_same state_root block_number irregular action m))
    unfolding run_in_block_context
    run_in_block_context-IsBack law state_root block_number irregular m k ne c d b fresh =
        let r = get_state_root remote is_same m in
        let h = get_state_root-HasRoot remote is_same law m fresh in
        let l : Leads remote is_same r.0 m r.1 = record {
          checkpoints = h.keeps.checkpoints ∙ c;
          fork_block = h.keeps.fork_block;
          known = h.known;
          context = inr (h.keeps.changed ∙ d, h.keeps.context_block ∙ b);
        } in
        subst
          (λ s.
            IsBack remote is_same m
              (state_after remote is_same (act_and_restore remote is_same r.0 action s)))
          (sym (
            set_unchecked remote is_same state_root block_number irregular r.1
              (h.keeps.checkpoints ∙ c)))
          (choose_context-cases remote is_same
            (λ s.
              IsBack remote is_same m
                (state_after remote is_same (act_and_restore remote is_same r.0 action s)))
            state_root block_number irregular r.1
            (λ other.
              set_state_root-IsBack r.0 other m r.1 k h.state (h.keeps.changed ∙ d)
                (h.keeps.context_block ∙ b) l)
            (remote-IsBack r.0 state_root block_number m r.1 k ne l))
