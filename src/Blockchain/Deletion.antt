-- ===== src/Blockchain/Deletion.antt =====
-- Deleting a block deletes every later one, made or reserved, and none before it.
use hardhat.Prelude.{
  ==_iff, ℕ, zero, suc, ◌+◌, ◌≤◌, ◌<◌, ◌≡◌, refl, sym, ap, ◌∙◌, subst, true, ltb, ◌==◌, List, [],
  ◌∷◌, none, some, remove_at, Bool-cases, Option-cases, inl, inr, arith, ok, if◌then◌else◌,
}
use hardhat.Prelude.Assoc.{get, delete, get-delete}
use hardhat.Transactions.{TypedTransaction}
use hardhat.Blockchain.Chain.{
  HardhatBlockchain, delete_loop, remove_block_at, del_block, delete_later_blocks,
}
use hardhat.Blockchain.Data.{
  BlockchainData, covers, find_block_reservation, cancel_reservation_with_block, remove_block,
  remove_block_transactions,
}
use hardhat.Blockchain.Reservations.{
  cover_count, cover_count-remove_at, reserved_up_to, reserved_up_to-remove_at,
  find_reservation-some, not_reserved, is_reserved,
}
use hardhat.Blockchain.Timestamps.{IsSound}
use hardhat.Blockchain.Types.{Block, Reservation, BlockLibrary}

-- every block is filed under its own number
abbrev pub IsNumbered : BlockchainData → Type 0
IsNumbered d = (n : ℕ) (b : Block) → get n d.blocks_by_number ≡ some b → b.number ≡ n

-- From `i` up to `length` nothing is left, made or reserved; below `i` the made blocks are as before,
-- and so are the reservations that begin at block `last` or before it; nothing is added.
pub record Deleted (last i length : ℕ) (d d' : BlockchainData) : Type 0 where
  pub gone :
      (m : ℕ)
      → i ≤ m
      → m < length
      → (get m d'.blocks_by_number ≡ none) × (cover_count m d'.reservations ≡ 0)
  pub kept : (m : ℕ) → m < i → get m d'.blocks_by_number ≡ get m d.blocks_by_number
  pub kept_reserved : reserved_up_to last d'.reservations ≡ reserved_up_to last d.reservations
  pub no_more : (m : ℕ) → cover_count m d'.reservations ≤ cover_count m d.reservations
  pub none_new : (m : ℕ) → get m d.blocks_by_number ≡ none → get m d'.blocks_by_number ≡ none

module _ (lib : BlockLibrary) where
  remove_transactions-same :
      (txs : List TypedTransaction) (d : BlockchainData)
      → ((remove_block_transactions lib txs d).blocks_by_number ≡ d.blocks_by_number)
        × ((remove_block_transactions lib txs d).reservations ≡ d.reservations)
  unfolding remove_block_transactions
  remove_transactions-same [] d = (refl, refl)
  remove_transactions-same (tx ∷ txs) d = remove_transactions-same txs (record d {
    transactions = delete (lib.transaction_hash tx) d.transactions;
    receipts = delete (lib.transaction_hash tx) d.receipts;
    blocks_by_transactions = delete (lib.transaction_hash tx) d.blocks_by_transactions;
  })

  -- removing the block of one number
  remove_block_at_lem :
      (i : ℕ) (d : BlockchainData)
      → IsNumbered d
      → ((m : ℕ)
          → get m (remove_block_at lib i d).blocks_by_number
            ≡ (if i == m then none else get m d.blocks_by_number))
        × ((remove_block_at lib i d).reservations ≡ d.reservations)
  unfolding remove_block_at remove_block
  remove_block_at_lem i d numbered = elim (Option-cases (get i d.blocks_by_number)) [
    | inl e ↦ (
      λ m. elim (Bool-cases (i == m)) [
        | inl same ↦
            rw (e, remove_block_at, same)
              (subst (λ k. get k d.blocks_by_number ≡ none) ((==_iff i m).0 same) e)
        | inr other ↦ rw (e, remove_block_at, other) refl
      ],
      rw (e, remove_block_at) refl,
    )
    | inr (b, e) ↦
        let same = remove_transactions-same b.transactions (record d {
          blocks_by_number = delete b.number d.blocks_by_number;
          blocks_by_hash = delete (lib.block_hash b) d.blocks_by_hash;
          total_difficulty = delete (lib.block_hash b) d.total_difficulty;
        }) in
        (
          λ m.
              rw (e, remove_block_at)
                (ap (get m) same.0
                  ∙ ap (λ k. get m (delete k d.blocks_by_number)) (numbered i b e)
                  ∙ get-delete i m d.blocks_by_number),
          rw (e, remove_block_at) same.1,
        )
  ]

  remove_block_at-IsNumbered :
      (i : ℕ) (d : BlockchainData) → IsNumbered d → IsNumbered (remove_block_at lib i d)
  remove_block_at-IsNumbered i d numbered n b e =
      numbered n b (ground (arith, (remove_block_at_lem i d numbered).0 n, e))

  remove_block_at-IsSound :
      (i : ℕ) (d : BlockchainData) → IsNumbered d → IsSound d → IsSound (remove_block_at lib i d)
  remove_block_at-IsSound i d numbered sound =
      let (at, same) = remove_block_at_lem i d numbered in
      record {
        once = λ m. subst (λ rs. cover_count m rs ≤ 1) (sym same) (sound.once m);
        unmade =
            λ m h. ground (arith, at m, sound.unmade m (subst (λ rs. 0 < cover_count m rs) same h));
      }

  -- one round of the loop on a number that is not reserved, and the rounds after it
  Deleted-block :
      (last i length : ℕ) (d d' : BlockchainData)
      → IsNumbered d
      → cover_count i d.reservations ≡ 0
      → Deleted last (i + 1) length (remove_block_at lib i d) d'
      → Deleted last i length d d'
  Deleted-block last i length d d' numbered free w =
      let (at, same) = remove_block_at_lem i d numbered in
      let fewer = λ (m : ℕ).
        subst (λ rs. cover_count m d'.reservations ≤ cover_count m rs) same (w.no_more m) in
      let cleared : get i (remove_block_at lib i d).blocks_by_number ≡ none =
        ground (arith, at i) in
      record {
        gone = λ m from below. elim (Bool-cases (i == m)) [
          | inl here ↦
              let e = (==_iff i m).0 here in
              subst (λ k. (get k d'.blocks_by_number ≡ none) × (cover_count k d'.reservations ≡ 0))
                e (w.none_new i cleared, omega (arith, fewer i, free))
          | inr later ↦ w.gone m (ground (arith, later)) below
        ];
        kept = λ m below. w.kept m (omega arith) ∙ ground (arith, at m);
        kept_reserved = w.kept_reserved ∙ ap (reserved_up_to last) same;
        no_more = fewer;
        none_new = λ m e. w.none_new m (ground (arith, at m, e));
      }

  -- one round on a number that is reserved: the whole reservation goes
  Deleted-reservation :
      (last i length j : ℕ) (r : Reservation) (d d' : BlockchainData)
      → IsSound d
      → last < i
      → cover_count last d.reservations ≡ 0
      → find_block_reservation i d.reservations ≡ some (j, r)
      → Deleted last r.stop length (record d { reservations = remove_at j d.reservations }) d'
      → Deleted last i length d d'
  Deleted-reservation last i length j r d d' sound behind made found w =
      let (here, test) = find_reservation-some i d.reservations j r found in
      let count = λ (m : ℕ). cover_count-remove_at m j d.reservations r here in
      record {
        gone = λ m from below. elim (Bool-cases (ltb m r.stop)) [
          | inl inside ↦
              let covered : covers m r ≡ true = ground (arith, test, inside) in
              let taken : 0 < cover_count m d.reservations = ground (arith, covered, count m) in
              (
                w.none_new m (sound.unmade m taken),
                ground (arith, covered, count m, sound.once m, w.no_more m),
              )
          | inr beyond ↦ w.gone m (ground (arith, beyond)) below
        ];
        kept = λ m below. w.kept m (ground (arith, test));
        kept_reserved =
            w.kept_reserved
            ∙ reserved_up_to-remove_at last j d.reservations r here
                (ground (arith, count last, made, test));
        no_more = λ m. omega (arith, w.no_more m, count m);
        none_new = w.none_new;
      }

  -- `length - i` rounds are enough, and the loop never throws.
  delete_loop-Deleted :
      (last fuel length i : ℕ) (d : BlockchainData)
      → last < i
      → cover_count last d.reservations ≡ 0
      → IsSound d
      → IsNumbered d
      → length ≤ fuel + i
      → (d' : BlockchainData) × (delete_loop lib fuel length i d ≡ ok tt d')
        × Deleted last i length d d'
  unfolding delete_loop cancel_reservation_with_block
  delete_loop-Deleted last zero length i d behind made sound numbered h = (
    d,
    ground arith,
    record {
      gone = λ m from below. absurd (omega arith);
      kept = λ m below. refl;
      kept_reserved = refl;
      no_more = λ m. omega arith;
      none_new = λ m e. e;
    },
  )
  delete_loop-Deleted last (suc fuel) length i d behind made sound numbered h =
      elim (Bool-cases (ltb i length)) [
        | inr done ↦ (
          d,
          rw (done, delete_loop) refl,
          record {
            gone = λ m from below. absurd (ground (arith, done));
            kept = λ m below. refl;
            kept_reserved = refl;
            no_more = λ m. omega arith;
            none_new = λ m e. e;
          },
        )
        | inl more ↦ elim (Option-cases (find_block_reservation i d.reservations)) [
          | inl none_found ↦
              let (free, no_cover) = not_reserved i d none_found in
              let (d', run, w) =
                delete_loop-Deleted last fuel length (i + 1) (remove_block_at lib i d) (omega arith)
                  (ap (cover_count last) (remove_block_at_lem i d numbered).1 ∙ made)
                  (remove_block_at-IsSound i d numbered sound)
                  (remove_block_at-IsNumbered i d numbered) (omega arith) in
              (
                d',
                rw (more, free, delete_loop) run,
                Deleted-block last i length d d' numbered no_cover w,
              )
          | inr ((j, r), found) ↦
              let (here, test) = find_reservation-some i d.reservations j r found in
              let count = λ (m : ℕ). cover_count-remove_at m j d.reservations r here in
              let d₁ : BlockchainData = record d { reservations = remove_at j d.reservations } in
              let (d', run, w) =
                delete_loop-Deleted last fuel length r.stop d₁ (ground (arith, test))
                  (omega (arith, count last, made))
                  (record {
                    once = λ m. omega (arith, sound.once m, count m);
                    unmade = λ m some_left. sound.unmade m (omega (arith, count m));
                  })
                  numbered (ground (arith, test)) in
              (
                d',
                ground (arith, more, is_reserved i j d r found, found, run),
                Deleted-reservation last i length j r d d' sound behind made found w,
              )
        ]
      ]

  -- In a chain whose reservations do not overlap the made blocks or one another, and whose blocks
  -- are filed under their numbers: deleting what comes after a block that is in the chain, by its
  -- hash and by its number, never throws. The block is then the last one, no later block is left,
  -- made or reserved, every made block up to it is as it was, and the reservations of blocks before
  -- it are exactly the same ones as before.
  pub delete_later_blocks-Deleted :
      (c : HardhatBlockchain) (block actual : Block)
      → IsSound c.state
      → IsNumbered c.state
      → get (lib.block_hash block) c.state.blocks_by_hash ≡ some actual
      → get actual.number c.state.blocks_by_number ≡ some actual
      → (d' : BlockchainData) × (delete_later_blocks lib block c
          ≡ ok tt (record { state = d'; length = actual.number + 1 }))
        × Deleted actual.number (actual.number + 1) c.length c.state d'
  unfolding delete_later_blocks del_block
  delete_later_blocks-Deleted c block actual sound numbered found made =
      let free : cover_count actual.number c.state.reservations ≡ 0 =
        elim (Bool-cases (ltb 0 (cover_count actual.number c.state.reservations))) [
          | inr none_there ↦ ground (arith, none_there)
          | inl some_cover ↦
              let missing = sound.unmade actual.number (ground (arith, some_cover)) in
              absurd (ground (arith, missing, made))
        ] in
      let (d', run, w) =
        delete_loop-Deleted actual.number c.length c.length (actual.number + 1) c.state
          (omega arith) free sound numbered (omega arith) in
      (d', ground (arith, found, run), w)
