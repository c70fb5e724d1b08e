-- ===== src/Blockchain/Timestamps.antt =====
-- Reserved blocks: making one puts it in the chain with the timestamp that its place in the
-- reservation gives, and leaves the rest of the reservation as it was.
use hardhat.Prelude.{
  ℕ, zero, suc, ◌+◌, ◌-◌, ◌*◌, ◌≤◌, ◌<◌, ◌≡◌, refl, sym, ap, ◌∙◌, subst, true, false, ◌==◌, List,
  [], ◌++◌, none, some, remove_at, Bool-cases, inl, inr, arith, ok, throws,
}
use hardhat.Prelude.Assoc.{get, put, get-put_self, get-put_ne}
use hardhat.Blockchain.Data.{
  BlockchainData, find_block_reservation, is_reserved_block, part_before, part_after, block_before,
  calculate_timestamp, fulfill_block_reservation, add_block, add_block_transactions,
  no_block_before,
}
use hardhat.Blockchain.Reservations.{
  bit, cover_count, cover_count-append, cover_count-remove_at, cover_count-parts,
  find_reservation-some, reserved-count,
}
use hardhat.Blockchain.Types.{Block, Reservation, BlockLibrary, BlockLaws}

-- A block lies in one reservation at most, and what is reserved has not been made.
pub record IsSound (d : BlockchainData) : Type 0 where
  pub once : (m : ℕ) → cover_count m d.reservations ≤ 1
  pub unmade : (m : ℕ) → 0 < cover_count m d.reservations → get m d.blocks_by_number ≡ none

block_before-made :
    (k : ℕ) (d : BlockchainData) (b : Block)
    → block_before k d ≡ some b
    → (j : ℕ) × (k ≡ suc j) × (get j d.blocks_by_number ≡ some b)
block_before-made zero d b e = cc
block_before-made (suc j) d b e = (j, refl, e)

-- The block before a reservation that has been made is not reserved itself.
before-not-reserved :
    (k : ℕ) (d : BlockchainData) (b : Block)
    → IsSound d
    → block_before k d ≡ some b
    → is_reserved_block (k - 1) d ≡ false
before-not-reserved k d b sound e =
    let (j, at, made) = block_before-made k d b e in
    elim (Bool-cases (is_reserved_block (k - 1) d)) [
      | inr no_reserved ↦ no_reserved
      | inl reserved ↦
          let same : k - 1 ≡ j = omega arith in
          let missing = sound.unmade j (
            subst (λ n. 0 < cover_count n d.reservations) same
              ((reserved-count (k - 1) d).0 reserved)) in
          absurd (ground (arith, missing, made))
    ]

-- Where no block lies in two reservations or is both reserved and made, and the block before the
-- reservation has been made: the timestamp of a reserved block counts intervals from the block before the reservation, and
-- any positive fuel gives it: the call on an earlier reservation is never made.
pub calculate_timestamp_lem :
    (fuel n i : ℕ) (d : BlockchainData) (r : Reservation) (b : Block)
    → IsSound d
    → find_block_reservation n d.reservations ≡ some (i, r)
    → block_before r.first d ≡ some b
    → calculate_timestamp (suc fuel) n d ≡ ok (b.timestamp + r.interval * (n - r.first + 1)) d
unfolding calculate_timestamp
calculate_timestamp_lem fuel n i d r b sound found before =
    ground (arith, found, before, before-not-reserved r.first d b sound before)

-- Where no block lies in two reservations or is both reserved and made: making a block of a
-- reservation that follows directly on another one throws, and leaves the data as they are.
pub fulfill-adjacent_throws :
    (lib : BlockLibrary) (n i j : ℕ) (d : BlockchainData) (r : Reservation)
    → IsSound d
    → find_block_reservation n d.reservations ≡ some (i, r)
    → r.first ≡ suc j
    → is_reserved_block j d ≡ true
    → fulfill_block_reservation lib n d ≡ throws no_block_before d
unfolding fulfill_block_reservation calculate_timestamp
fulfill-adjacent_throws lib n i j d r sound found at reserved =
    let missing : get j d.blocks_by_number ≡ none =
      sound.unmade j ((reserved-count j d).0 reserved) in
    let before : block_before r.first d ≡ none =
      subst (λ k. block_before k d ≡ none) (sym at) missing in
    ground (arith, found, before)

-- adding a block that has no transactions
add_block-bare :
    (lib : BlockLibrary) (block : Block) (difficulty : ℕ) (d : BlockchainData)
    → block.transactions ≡ []
    → add_block lib block difficulty d ≡ record d {
      blocks_by_number = put block.number block d.blocks_by_number;
      blocks_by_hash = put (lib.block_hash block) block d.blocks_by_hash;
      total_difficulty = put (lib.block_hash block) difficulty d.total_difficulty;
    }
unfolding add_block
add_block-bare lib block difficulty d e =
    ap
      (λ txs. add_block_transactions lib block txs (record d {
        blocks_by_number = put block.number block d.blocks_by_number;
        blocks_by_hash = put (lib.block_hash block) block d.blocks_by_hash;
        total_difficulty = put (lib.block_hash block) difficulty d.total_difficulty;
      }))
      e

module _ (lib : BlockLibrary) (laws : BlockLaws lib) (n i : ℕ) (d : BlockchainData)
    (r : Reservation) (b : Block) (sound : IsSound d)
    (found : find_block_reservation n d.reservations ≡ some (i, r))
    (before : block_before r.first d ≡ some b) where
  abbrev pub made_at : ℕ
  made_at = b.timestamp + r.interval * (n - r.first + 1)

  abbrev pub made : Block
  made = lib.from_block_data n r.previous_state_root r.previous_base_fee_per_gas made_at

  abbrev pub left : List Reservation
  left = remove_at i d.reservations ++ (part_before n r ++ part_after n r)

  abbrev pub fulfilled : BlockchainData
  fulfilled = record d {
    blocks_by_number = put made.number made d.blocks_by_number;
    blocks_by_hash = put (lib.block_hash made) made d.blocks_by_hash;
    total_difficulty = put (lib.block_hash made) r.previous_total_difficulty d.total_difficulty;
    reservations = left;
  }

  pub fulfill-fulfilled : fulfill_block_reservation lib n d ≡ ok tt fulfilled
  unfolding fulfill_block_reservation
  fulfill-fulfilled =
      let timed = calculate_timestamp_lem n n i d r b sound found before in
      let bare =
        laws.made_transactions n r.previous_state_root r.previous_base_fee_per_gas made_at in
      rw (found, timed, fulfill_block_reservation)
        (ap (ok tt) (
          add_block-bare lib made r.previous_total_difficulty (record d { reservations = left })
            bare))

  in_left : (m : ℕ) → cover_count m left + bit (m == n) ≡ cover_count m d.reservations
  in_left m =
      let (here, test) = find_reservation-some n d.reservations i r found in
      omega (
        arith,
        cover_count-append m (remove_at i d.reservations) (part_before n r ++ part_after n r),
        cover_count-remove_at m i d.reservations r here,
        cover_count-parts m n r test,
      )

  number-made : made.number ≡ n
  number-made = laws.made_number n r.previous_state_root r.previous_base_fee_per_gas made_at

  pub get-fulfilled_ne :
      (m : ℕ) → (n == m) ≡ false → get m fulfilled.blocks_by_number ≡ get m d.blocks_by_number
  get-fulfilled_ne m ne =
      subst (λ k. get m (put k made d.blocks_by_number) ≡ get m d.blocks_by_number)
        (sym number-made) (get-put_ne n m made d.blocks_by_number ne)

  pub get-fulfilled_self : get n fulfilled.blocks_by_number ≡ some made
  get-fulfilled_self =
      subst (λ k. get n (put k made d.blocks_by_number) ≡ some made) (sym number-made)
        (get-put_self n made d.blocks_by_number)

  pub fulfilled-IsSound : IsSound fulfilled
  fulfilled-IsSound = record {
    once = λ m. omega (arith, in_left m, sound.once m);
    unmade = λ m some_left. elim (Bool-cases (n == m)) [
      | inl e ↦ absurd (ground (arith, in_left m, sound.once m, e))
      | inr ne ↦ get-fulfilled_ne m ne ∙ sound.unmade m (omega (arith, in_left m))
    ];
  }

  pub timestamp-made : made.timestamp ≡ made_at
  timestamp-made = laws.made_timestamp n r.previous_state_root r.previous_base_fee_per_gas made_at

  -- Where no block lies in two reservations or is both reserved and made, and the block before the
  -- reservation has been made: making a reserved block does not throw. The block is in the chain under its number, with the
  -- timestamp that its place in the reservation gives; it is not reserved any more, and every other
  -- block is reserved, or made, as before; no block comes to lie in two reservations.
  pub fulfill-makes_block :
      (d' : BlockchainData) × (block : Block) × (fulfill_block_reservation lib n d ≡ ok tt d')
      × (get n d'.blocks_by_number ≡ some block)
      × (block.number ≡ n)
      × (block.timestamp ≡ b.timestamp + r.interval * (n - r.first + 1))
      × IsSound d'
      × ((m : ℕ) → cover_count m d'.reservations + bit (m == n) ≡ cover_count m d.reservations)
      × ((m : ℕ) → (n == m) ≡ false → get m d'.blocks_by_number ≡ get m d.blocks_by_number)
  fulfill-makes_block = (
    fulfilled, made, fulfill-fulfilled, get-fulfilled_self, number-made, timestamp-made,
    fulfilled-IsSound, in_left, get-fulfilled_ne,
  )
