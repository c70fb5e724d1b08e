-- ===== src/Blockchain/Reservations.antt =====
-- How many reservations a block lies in, and how the operations change that.
use hardhat.Prelude.{
  ℕ, zero, suc, ◌+◌, ◌<◌, ◌≡◌, ◌↔◌, refl, subst, Bool, true, false, ◌==◌, List, [], ◌∷◌, ◌++◌, none,
  some, All, get_elem?, remove_at, keep, leb, Option-cases, inl, inr, arith,
}
use hardhat.Blockchain.Data.{
  BlockchainData, covers, find_block_reservation, is_reserved_block, part_before, part_after,
}
use hardhat.Blockchain.Types.{Reservation}
use hardhat.Prelude.{find_entry_none, find_entry_some}

abbrev pub bit : Bool → ℕ
bit true = 1
bit false = 0

-- the number of reservations that a block lies in
abbrev pub cover_count : ℕ → List Reservation → ℕ
cover_count n [] = 0
cover_count n (r ∷ rs) = bit (covers n r) + cover_count n rs

pub cover_count-append :
    (n : ℕ) (rs qs : List Reservation)
    → cover_count n (rs ++ qs) ≡ cover_count n rs + cover_count n qs
cover_count-append n [] qs = omega arith
cover_count-append n (r ∷ rs) qs = omega (arith, cover_count-append n rs qs)

pub cover_count-remove_at :
    (n i : ℕ) (rs : List Reservation) (r : Reservation)
    → get_elem? rs i ≡ some r
    → cover_count n rs ≡ bit (covers n r) + cover_count n (remove_at i rs)
cover_count-remove_at n i [] r e = cc
cover_count-remove_at n zero (q ∷ rs) r e = ground (arith, e)
cover_count-remove_at n (suc i) (q ∷ rs) r e = omega (arith, cover_count-remove_at n i rs r e)

cover_count-none :
    (n : ℕ) (rs : List Reservation) → All (λ r. covers n r ≡ false) rs → cover_count n rs ≡ 0
cover_count-none n [] h = refl
cover_count-none n (r ∷ rs) h = rw h.0 (omega (arith, cover_count-none n rs h.1))

-- a found reservation covers the block, and stands in the list at the index
pub find_reservation-some :
    (n : ℕ) (rs : List Reservation) (i : ℕ) (r : Reservation)
    → find_block_reservation n rs ≡ some (i, r)
    → (get_elem? rs i ≡ some r) × (covers n r ≡ true)
find_reservation-some n rs i r e =
    let (j, at, here, test) = find_entry_some (covers n) 0 rs i r e in
    let at' : j ≡ i = omega (arith, at) in (subst (λ k. get_elem? rs k ≡ some r) at' here, test)

-- the reservations that begin at block `k` or before it
abbrev pub reserved_up_to : ℕ → List Reservation → List Reservation
reserved_up_to k rs = keep (λ (r : Reservation). leb r.first k) rs

pub reserved_up_to-remove_at :
    (k i : ℕ) (rs : List Reservation) (r : Reservation)
    → get_elem? rs i ≡ some r
    → leb r.first k ≡ false
    → reserved_up_to k (remove_at i rs) ≡ reserved_up_to k rs
reserved_up_to-remove_at k i [] r e h = refl
reserved_up_to-remove_at k zero (q ∷ rs) r e h = ground (arith, e, h)
reserved_up_to-remove_at k (suc i) (q ∷ rs) r e h =
    ground (arith, reserved_up_to-remove_at k i rs r e h)

pub reserved-count :
    (n : ℕ) (d : BlockchainData)
    → (is_reserved_block n d ≡ true) ↔ (0 < cover_count n d.reservations)
unfolding is_reserved_block
reserved-count n d = elim (Option-cases (find_block_reservation n d.reservations)) [
  | inl e ↦
      let zero_count =
        cover_count-none n d.reservations (find_entry_none (covers n) 0 d.reservations e) in
      (λ h. absurd (ground (arith, e, h)), λ h. absurd (omega (arith, zero_count)))
  | inr ((i, r), e) ↦
      let (here, test) = find_reservation-some n d.reservations i r e in
      (
        λ h. ground (arith, cover_count-remove_at n i d.reservations r here, test),
        λ h. rw (e, is_reserved_block) refl,
      )
]

-- Splitting a reservation around a block takes that block out of it and nothing else.
pub cover_count-parts :
    (m n : ℕ) (r : Reservation)
    → covers n r ≡ true
    → cover_count m (part_before n r ++ part_after n r) + bit (m == n) ≡ bit (covers m r)
cover_count-parts m n r h = ground arith

pub not_reserved :
    (n : ℕ) (d : BlockchainData)
    → find_block_reservation n d.reservations ≡ none
    → (is_reserved_block n d ≡ false) × (cover_count n d.reservations ≡ 0)
unfolding is_reserved_block
not_reserved n d e = (
  rw (e, is_reserved_block) refl,
  cover_count-none n d.reservations (find_entry_none (covers n) 0 d.reservations e),
)

pub is_reserved :
    (n i : ℕ) (d : BlockchainData) (r : Reservation)
    → find_block_reservation n d.reservations ≡ some (i, r)
    → is_reserved_block n d ≡ true
unfolding is_reserved_block
is_reserved n i d r e = rw (e, is_reserved_block) refl
