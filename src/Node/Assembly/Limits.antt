-- ===== src/Node/Assembly/Limits.antt =====
-- The loop of `_mineBlockWithPendingTxs` ends, keeps the block's limits and mines no transaction
-- twice.
use mathlib.Core.List.Perm
use hardhat.Prelude.{
  ℕ, zero, suc, ◌≤◌, ◌<◌, ◌≡◌, refl, false, List, [], ◌∷◌, ◌++◌, Option, none, some, length,
  length-append, length-map, length-perm, arith, inl, inr, ◌⊎◌, Bool-cases, Option-cases, ok,
  throws, after,
}
use hardhat.Prelude.Int.{ℤ}
use hardhat.Transactions.{TypedTransaction, TxLibrary, OrderedTransaction, tx_of}
use hardhat.TransactionQueue.Order.{waiting, get_next-cases, refill-perm}
use hardhat.TransactionQueue.Queue.{
  HeapLibrary, HeapLaws, refill, remove_last_sender_transactions, unrecoverable_sender,
  remove_before_get,
}
use hardhat.Node.Assembly.{
  BuilderLibrary, BuilderLaws, MiningConfig, MineError, queue_error, vm_error, Assembly, Assembled,
  is_skipped, has_room, take_tx, next_tx, assemble, fill_block,
}
use hardhat.Node.Assembly.Progress.{Progress, idle, Progress-trans, stock, remove_last-stock}

abbrev at_hand : Option TypedTransaction → List TypedTransaction
at_hand none = []
at_hand (some tx) = tx ∷ []

module _ (lib : TxLibrary) (compare : OrderedTransaction → OrderedTransaction → ℤ) (h : HeapLibrary)
    (laws : HeapLaws compare h) (b : BuilderLibrary) (config : MiningConfig)
    (builder_laws : BuilderLaws b) where
  -- undefined is handed out only when nothing is ready
  abbrev HandedOut : Option TypedTransaction → Assembly h b → Type 0
  HandedOut tx s = tx ≡ none → h.contents s.queue.heap ≡ []

  abbrev Handed : Assembly h b → Type 0
  Handed s =
      ((tx : Option TypedTransaction) × (s' : Assembly h b) × (next_tx lib h b config s ≡ ok tx s')
        × Progress h b config (stock h s.queue) (at_hand tx ++ stock h s'.queue) s s'
        × HandedOut tx s')
      ⊎ ((e : MineError) × (s' : Assembly h b) × (next_tx lib h b config s ≡ throws e s')
          × Progress h b config (stock h s.queue) (stock h s.queue) s s')

  next_tx-cases : (s : Assembly h b) → Handed s
  unfolding next_tx waiting
  next_tx-cases s = elim (get_next-cases compare h laws lib s.queue) [
    | inl (e, bare) ↦
        let q = refill h s.queue in
        inl (
          none,
          record s { queue = q },
          rw (e, next_tx) refl,
          idle h b config _ s _ refl refl [] _
              (Perm.map tx_of (refill-perm compare h laws s.queue)),
          λ _. bare,
        )
    | inr (o, heap, p, best, inl (a, sent, e)) ↦
        let q = record (refill h s.queue) { heap = heap; last_sender = some a } in
        inl (
          some o.tx,
          record s { queue = q },
          rw (e, next_tx) refl,
          idle h b config _ s _ refl refl [] _ (Perm.map tx_of p),
          λ absent. absurd (ground (arith, absent)),
        )
    | inr (o, heap, p, best, inr (lost, e)) ↦ inr (
      queue_error unrecoverable_sender,
      record s { queue = record (refill h s.queue) { heap = heap } },
      rw (e, next_tx) refl,
      idle h b config _ s _ refl refl [] _ (Perm.refl _),
    )
  ]

  abbrev Taken : TypedTransaction → Assembly h b → Type 0
  Taken tx s =
      ((s' : Assembly h b) × (take_tx lib h b config tx s ≡ ok tt s')
        × Progress h b config (tx ∷ stock h s.queue) (stock h s'.queue) s s'
        × (length (stock h s'.queue) ≤ length (stock h s.queue)))
      ⊎ ((e : MineError) × (take_tx lib h b config tx s ≡ throws e s))

  take_tx-cases : (tx : TypedTransaction) (s : Assembly h b) → Taken tx s
  unfolding take_tx remove_last_sender_transactions is_skipped
  take_tx-cases tx s = elim (Bool-cases (is_skipped lib h b config tx s)) [
    | inl skipped ↦ elim (remove_last-stock h s.queue) [
      | inl (q, e, gone, p) ↦ inl (
        record s { queue = q },
        ground (arith, skipped, e),
        idle h b config _ s _ refl refl (tx ∷ gone) _ (Perm.cons tx p),
        ground (arith, length-perm p, length-append gone (stock h q)),
      )
      | inr never ↦ inr (queue_error remove_before_get, ground (arith, skipped, never))
    ]
    | inr fits ↦ elim (Option-cases (b.add_transaction tx s.builder)) [
      | inl failed ↦ inr (vm_error, ground (arith, fits, failed))
      | inr ((r, y), e) ↦ inl (
        record s { builder = y; results = s.results ++ r ∷ [] },
        ground (arith, fits, e),
        record {
          included = tx ∷ [];
          left_out = [];
          balance = Perm.refl _;
          added = builder_laws.transactions_add tx s.builder r y e;
          minable = (ground (arith, fits), tt);
          counted = length-append s.results (r ∷ []);
          within = λ w. ground (arith, fits, builder_laws.gas_used_add tx s.builder r y e);
        },
        omega arith,
      )
    ]
  ]

  fewer :
      {before rest : List TypedTransaction} {s s' : Assembly h b}
      → Progress h b config before rest s s'
      → length rest ≤ length before
  fewer {before} {rest} p = ground (
    arith,
    length-perm p.balance,
    length-append p.included (p.left_out ++ rest),
    length-append p.left_out rest,
  )

  -- what holds of the loop when it stops without a throw
  abbrev pub Stopped : Assembled lib h b config → Type 0
  Stopped (ok u s) = (has_room lib h b config s ≡ false) ⊎ (h.contents s.queue.heap ≡ [])
  Stopped (throws e s) = Unit

  abbrev Runs : ℕ → Option TypedTransaction → Assembly h b → Type 0
  Runs fuel tx s =
      (o : Assembled lib h b config) × (assemble lib h b config fuel tx s ≡ some o)
      × (rest : List TypedTransaction) × Progress h b config (at_hand tx ++ stock h s.queue) rest s
          (after o)
      × Stopped o

  assemble-Progress :
      (fuel : ℕ) (tx : Option TypedTransaction) (s : Assembly h b)
      → length (at_hand tx ++ stock h s.queue) < fuel
      → HandedOut tx s
      → Runs fuel tx s
  unfolding assemble
  assemble-Progress zero tx s enough out = absurd (omega arith)
  assemble-Progress (suc fuel) none s enough out = (
    ok tt s,
    refl,
    stock h s.queue,
    idle h b config _ s _ refl refl [] _ (Perm.refl _),
    inr (out refl),
  )
  assemble-Progress (suc fuel) (some tx) s enough out =
      elim (Bool-cases (has_room lib h b config s)) [
        | inr full ↦ (
          ok tt s,
          rw (full, assemble) refl,
          tx ∷ stock h s.queue,
          idle h b config _ s _ refl refl [] _ (Perm.refl _),
          inl full,
        )
        | inl room ↦ elim (take_tx-cases tx s) [
          | inr (e, failed) ↦ (
            throws e s,
            rw (room, assemble, failed) refl,
            tx ∷ stock h s.queue,
            idle h b config _ s _ refl refl [] _ (Perm.refl _),
            tt,
          )
          | inl (s', taken, p, less) ↦ elim (next_tx-cases s') [
            | inr (e, s'', failed, p') ↦ (
              throws e s'',
              rw (room, assemble, taken, failed) refl,
              _,
              Progress-trans h b config p p',
              tt,
            )
            | inl (tx', s'', next, p', out') ↦
                let left = fewer p' in
                let (o, run, rest, p'', stopped) =
                  assemble-Progress fuel tx' s'' (omega arith) out' in
                (
                  o,
                  rw (room, assemble, taken, next) run,
                  rest,
                  Progress-trans h b config p (Progress-trans h b config p' p''),
                  stopped,
                )
          ]
        ]
      ]

  -- Over a heap and a builder that keep what they document, filling a block always ends, by itself
  -- or by a throw. Started within the block's gas limit it stays within it; the transactions that
  -- it adds are minable and are among those that waited in the queue, each at most as often as
  -- there; and there is one result for each. Unless it throws, it stops only when the gas left is
  -- below the minimal fee or nothing in the queue is ready.
  pub fill_block-Progress :
      (s : Assembly h b)
      → (o : Assembled lib h b config) × (fill_block lib h b config s ≡ some o)
        × (rest : List TypedTransaction) × Progress h b config (stock h s.queue) rest s (after o)
        × Stopped o
  unfolding fill_block
  fill_block-Progress s = elim (next_tx-cases s) [
    | inr (e, s', failed, p) ↦ (throws e s', rw (failed, fill_block) refl, _, p, tt)
    | inl (tx, s', next, p, out) ↦
        let held = length-map tx_of (waiting h s.queue) in
        let left = fewer p in
        let (o, run, rest, p', stopped) =
          assemble-Progress (suc (length (waiting h s.queue))) tx s' (omega arith) out in
        (o, rw (next, fill_block) run, rest, Progress-trans h b config p p', stopped)
  ]
