-- ===== src/Blockchain/ReadOrder.antt =====
-- The order in which the blocks of a reservation are asked for does not show in their timestamps.
use hardhat.Prelude.{
  ℕ, zero, suc, ◌+◌, ◌-◌, ◌*◌, ◌≤◌, ◌<◌, ◌≡◌, refl, ap, ◌∙◌, subst, true, false, ltb, ◌==◌, List,
  [], ◌∷◌, ◌++◌, some, All, length, remove_at, find_entry_from, find_entry-append, Bool-cases, inl,
  inr, arith, ok,
}
use hardhat.Blockchain.Data.{
  BlockchainData, covers, find_block_reservation, part_before, part_after, block_before,
  calculate_timestamp, fulfill_block_reservation,
}
use hardhat.Blockchain.Reservations.{cover_count, cover_count-remove_at, find_reservation-some}
use hardhat.Blockchain.Timestamps.{
  IsSound, calculate_timestamp_lem, fulfilled, fulfill-fulfilled, made, timestamp-made,
  get-fulfilled_self, get-fulfilled_ne, fulfilled-IsSound,
}
use hardhat.Blockchain.Types.{Block, Reservation, BlockLibrary, BlockLaws}

uncovered :
    (m : ℕ) (rs : List Reservation) → cover_count m rs ≡ 0 → All (λ r. covers m r ≡ false) rs
uncovered m [] e = tt
uncovered m (r ∷ rs) e = (ground (arith, e), uncovered m rs (omega (arith, e)))

-- in the parts around `n`, the part that covers `m`
find-parts_before :
    (k m n : ℕ) (r : Reservation)
    → covers m r ≡ true
    → m < n
    → find_entry_from k (covers m) (part_before n r ++ part_after n r)
      ≡ some (k, record r { stop = n })
find-parts_before k m n r c l = ground (arith, c)

find-parts_after :
    (k m n : ℕ) (r : Reservation)
    → covers m r ≡ true
    → n < m
    → (j : ℕ) × (find_entry_from k (covers m) (part_before n r ++ part_after n r)
        ≡ some (j, record r { first = n + 1 }))
find-parts_after k m n r c l = elim (Bool-cases (n == r.first)) [
  | inl e ↦ (k, ground (arith, c, e))
  | inr e ↦ (suc k, ground (arith, c, e))
]

intervals_add :
    (t w f n m : ℕ)
    → f ≤ n
    → n < m
    → t + w * (n - f + 1) + w * (m - (n + 1) + 1) ≡ t + w * (m - f + 1)
intervals_add t w f n m h l =
    let e : m - f + 1 ≡ (n - f + 1) + (m - (n + 1) + 1) = omega arith in rw e (omega arith)

module _ (lib : BlockLibrary) (laws : BlockLaws lib) (n m i : ℕ) (d : BlockchainData)
    (r : Reservation) (b : Block) (sound : IsSound d)
    (found : find_block_reservation n d.reservations ≡ some (i, r))
    (found' : find_block_reservation m d.reservations ≡ some (i, r))
    (before : block_before r.first d ≡ some b) where
  abbrev after_n : BlockchainData
  after_n = fulfilled lib laws n i d r b sound found before

  covers_n : covers n r ≡ true
  covers_n = (find_reservation-some n d.reservations i r found).1

  covers_m : covers m r ≡ true
  covers_m = (find_reservation-some m d.reservations i r found').1

  -- what covers `m` afterwards is a part of its reservation
  find-after_n :
      (k j : ℕ) (q : Reservation)
      → ((k : ℕ)
          → (j : ℕ) × (find_entry_from k (covers m) (part_before n r ++ part_after n r)
              ≡ some (j, q)))
      → (j : ℕ) × (find_block_reservation m after_n.reservations ≡ some (j, q))
  find-after_n k j q parts =
      let rest = remove_at i d.reservations in
      let here = (find_reservation-some m d.reservations i r found').0 in
      let alone : cover_count m rest ≡ 0 =
        ground (arith, cover_count-remove_at m i d.reservations r here, sound.once m, covers_m) in
      let (at, e) = parts (0 + length rest) in
      (
        at,
        find_entry-append (covers m) 0 rest (part_before n r ++ part_after n r)
              (uncovered m rest alone)
            ∙ e,
      )

  before-after_n : (k : ℕ) → k ≤ n → block_before k after_n ≡ block_before k d
  before-after_n zero h = refl
  before-after_n (suc j) h = get-fulfilled_ne lib laws n i d r b sound found before j (ground arith)

  timestamp-after_n :
      (n == m) ≡ false
      → (fuel : ℕ)
      → calculate_timestamp (suc fuel) m after_n
        ≡ ok (b.timestamp + r.interval * (m - r.first + 1)) after_n
  timestamp-after_n ne fuel = elim (Bool-cases (ltb m n)) [
    | inl below ↦
        let q : Reservation = record r { stop = n } in
        let (j, e) =
          find-after_n 0 0 q (λ k. (k, find-parts_before k m n r covers_m (ground arith))) in
        calculate_timestamp_lem fuel m j after_n q b
          (fulfilled-IsSound lib laws n i d r b sound found before) e
          (before-after_n r.first (ground (arith, covers_n)) ∙ before)
    | inr above ↦
        let q : Reservation = record r { first = n + 1 } in
        let l : n < m = ground (arith, ne, above) in
        let next : suc n ≡ n + 1 = omega arith in
        let (j, e) = find-after_n 0 0 q (λ k. find-parts_after k m n r covers_m l) in
        calculate_timestamp_lem fuel m j after_n q (made lib laws n i d r b sound found before)
          (fulfilled-IsSound lib laws n i d r b sound found before) e
          (subst (λ k. block_before k after_n ≡ some (made lib laws n i d r b sound found before))
            next (get-fulfilled_self lib laws n i d r b sound found before))
        ∙ ap (λ t. ok t after_n)
            (ap (λ s. s + r.interval * (m - (n + 1) + 1))
                (timestamp-made lib laws n i d r b sound found before)
              ∙ intervals_add b.timestamp r.interval r.first n m (ground (arith, covers_n)) l)
  ]

  -- Where no block lies in two reservations or is both reserved and made, and the block before the
  -- reservation has been made: after one block of a reservation has been made, any other block of it is given the timestamp
  -- that it would have been given before.
  pub calculate_timestamp-fulfill :
      (n == m) ≡ false
      → (fuel : ℕ)
      → (d' : BlockchainData) × (time : ℕ) × (fulfill_block_reservation lib n d ≡ ok tt d')
        × (calculate_timestamp (suc fuel) m d ≡ ok time d)
        × (calculate_timestamp (suc fuel) m d' ≡ ok time d')
  calculate_timestamp-fulfill ne fuel = (
    after_n,
    b.timestamp + r.interval * (m - r.first + 1),
    fulfill-fulfilled lib laws n i d r b sound found before,
    calculate_timestamp_lem fuel m i d r b sound found' before,
    timestamp-after_n ne fuel,
  )
