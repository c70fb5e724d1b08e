-- ===== src/Fork/Checkpoints.antt =====
-- Checkpoints of a ForkStateManager, nested as the calls of a transaction nest them.
use hardhat.Prelude.{ℕ, ◌≡◌, refl, ap, subst, ◌∙◌, sym, Bool, true, ◌∷◌, some, Outcome, ok, arith}
use hardhat.Prelude.Assoc.{get}
use hardhat.Fork.State.{State, ForkStateManager, Remote}
use hardhat.Fork.Roots.{
  commit_top, revert_top, get_state_root, checkpoint, commit, revert, set_state_root,
}
use hardhat.Fork.World.{Write, perform}
use hardhat.Fork.Kept.{
  Keeps, IsFresh, Keeps-refl, Keeps-trans, perform-Keeps, get_state_root-HasRoot,
}

ok-injective :
    {E S A : Type 0} {a b : A} {s t : S} → ◌≡◌ {A = Outcome E S A} (ok a s) (ok b t) → s ≡ t
ok-injective h = cc

module _ (remote : Remote) (is_same : State → State → Bool) where
  -- Calls in which each checkpoint is committed or reverted again, and every root that is drawn is
  -- new.
  pub data Calls : ForkStateManager → ForkStateManager → Type 0 where
    done : (m m' : ForkStateManager) → m ≡ m' → Calls m m'
    write : (w : Write) (m m' : ForkStateManager) → Calls (perform remote w m) m' → Calls m m'
    root_asked :
        (m m' : ForkStateManager)
        → IsFresh remote is_same m
        → Calls (get_state_root remote is_same m).1 m'
        → Calls m m'
    committed :
        (m n o m' : ForkStateManager)
        → IsFresh remote is_same m
        → Calls (checkpoint remote is_same m) n
        → commit remote is_same n ≡ ok tt o
        → Calls o m'
        → Calls m m'
    reverted :
        (m n o m' : ForkStateManager)
        → IsFresh remote is_same m
        → Calls (checkpoint remote is_same m) n
        → revert remote is_same n ≡ ok tt o
        → Calls o m'
        → Calls m m'

  -- what the calls between a checkpoint and its end leave of it
  checkpoint-IsKept :
      ((a b : State) → is_same a b ≡ true → a ≡ b)
      → (m n : ForkStateManager) → IsFresh remote is_same m
      → Keeps remote is_same (checkpoint remote is_same m) n
      → (root : ℕ) × (n.state_checkpoints ≡ root ∷ m.state_checkpoints)
        × (get root n.state_root_to_state ≡ some m.state)
        × Keeps remote is_same m (record n { state_checkpoints = m.state_checkpoints })
  unfolding checkpoint
  checkpoint-IsKept law m n fresh k =
      let r = get_state_root remote is_same m in
      let h = get_state_root-HasRoot remote is_same law m fresh in
      (
        r.0,
        k.checkpoints ∙ ap (λ l. r.0 ∷ l) h.keeps.checkpoints,
        k.roots r.0 m.state h.known,
        record {
          checkpoints = refl;
          fork_block = k.fork_block ∙ h.keeps.fork_block;
          context_block = k.context_block ∙ h.keeps.context_block;
          changed = k.changed ∙ h.keeps.changed;
          roots = λ root s e. k.roots root s (h.keeps.roots root s e);
        },
      )

  pub set_root-known :
      (m : ForkStateManager) (r : ℕ) (s : State)
      → get r m.state_root_to_state ≡ some s
      → set_state_root remote is_same r m ≡ ok tt (record m { state_root = r; state = s })
  unfolding set_state_root
  set_root-known m r s e = ground arith

  -- the manager after a checkpoint has been taken and reverted to
  revert-checkpoint_kept :
      ((a b : State) → is_same a b ≡ true → a ≡ b)
      → (m n : ForkStateManager) → IsFresh remote is_same m
      → Keeps remote is_same (checkpoint remote is_same m) n
      → (o : ForkStateManager) × (revert remote is_same n ≡ ok tt o)
        × (o.state ≡ m.state)
        × Keeps remote is_same m o
  unfolding revert
  revert-checkpoint_kept law m n fresh k =
      let (r, top, known, kept) = checkpoint-IsKept law m n fresh k in
      let o = record n {
        state_checkpoints = m.state_checkpoints;
        state_root = r;
        state = m.state;
      } in
      (
        o,
        ap (λ l. revert_top remote is_same l n) top
            ∙ set_root-known (record n { state_checkpoints = m.state_checkpoints }) r m.state known,
        refl,
        record {
          checkpoints = refl;
          fork_block = kept.fork_block;
          context_block = kept.context_block;
          changed = kept.changed;
          roots = kept.roots;
        },
      )

  commit-checkpoint_kept :
      ((a b : State) → is_same a b ≡ true → a ≡ b)
      → (m n : ForkStateManager) → IsFresh remote is_same m
      → Keeps remote is_same (checkpoint remote is_same m) n
      → (o : ForkStateManager) × (commit remote is_same n ≡ ok tt o)
        × (o.state ≡ n.state)
        × Keeps remote is_same m o
  unfolding commit
  commit-checkpoint_kept law m n fresh k =
      let (r, top, known, kept) = checkpoint-IsKept law m n fresh k in
      (record n { state_checkpoints = m.state_checkpoints }, rw (top, commit_top) refl, refl, kept)

  pub Calls-Keeps :
      ((a b : State) → is_same a b ≡ true → a ≡ b)
      → {m m' : ForkStateManager} → Calls m m'
      → Keeps remote is_same m m'
  Calls-Keeps law (done m m' e) = subst (Keeps remote is_same m) e (Keeps-refl remote is_same m)
  Calls-Keeps law (write w m m' c) =
      Keeps-trans remote is_same m _ m' (perform-Keeps remote is_same w m) (Calls-Keeps law c)
  Calls-Keeps law (root_asked m m' fresh c) =
      Keeps-trans remote is_same m _ m' (get_state_root-HasRoot remote is_same law m fresh).keeps
        (Calls-Keeps law c)
  Calls-Keeps law (committed m n o m' fresh c e d) =
      let (p, same, _, k) = commit-checkpoint_kept law m n fresh (Calls-Keeps law c) in
      Keeps-trans remote is_same m o m'
        (subst (Keeps remote is_same m) (ok-injective (sym same ∙ e)) k) (Calls-Keeps law d)
  Calls-Keeps law (reverted m n o m' fresh c e d) =
      let (p, same, _, k) = revert-checkpoint_kept law m n fresh (Calls-Keeps law c) in
      Keeps-trans remote is_same m o m'
        (subst (Keeps remote is_same m) (ok-injective (sym same ∙ e)) k) (Calls-Keeps law d)

  -- Behind a checkpoint, and any writes, roots and nested checkpoints after it, each of which is
  -- committed or reverted, where every root that is drawn is new: a revert does not throw and puts
  -- back the state of the checkpoint, and a commit does not throw and keeps the new state; both
  -- leave the earlier checkpoints, the block that is looked at and every state known by its root.
  pub revert-checkpoint :
      ((a b : State) → is_same a b ≡ true → a ≡ b)
      → (m n : ForkStateManager) → IsFresh remote is_same m
      → Calls (checkpoint remote is_same m) n
      → ((o : ForkStateManager) × (revert remote is_same n ≡ ok tt o)
          × (o.state ≡ m.state)
          × Keeps remote is_same m o)
        × ((o : ForkStateManager) × (commit remote is_same n ≡ ok tt o)
            × (o.state ≡ n.state)
            × Keeps remote is_same m o)
  revert-checkpoint law m n fresh c = (
    revert-checkpoint_kept law m n fresh (Calls-Keeps law c),
    commit-checkpoint_kept law m n fresh (Calls-Keeps law c),
  )
