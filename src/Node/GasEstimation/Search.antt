-- ===== src/Node/GasEstimation/Search.antt =====
-- What the search for a gas estimation finds.
use hardhat.Prelude.{
  ℕ, zero, suc, ◌+◌, ◌-◌, ◌*◌, ◌/◌, ◌≤◌, ◌<◌, ◌≡◌, refl, sym, subst, ◌⊎◌, inl, inr, Bool, true,
  false, leb, Bool-cases, some, arith,
}
use hardhat.Node.GasEstimation.{min_diff, new_estimation, binary_search_estimation}

min_diff-le : (failing : ℕ) → 200 ≤ min_diff failing
unfolding min_diff
min_diff-le failing = ground arith

-- the distance that `k` halvings bring down to the smallest difference
halving : ℕ → ℕ
halving zero = 200
halving (suc k) = halving k * 2

new_estimation_bounds :
    (round failing successful : ℕ)
    → 0 < failing
    → failing + 200 < successful
    → (failing < new_estimation round failing successful)
      × (new_estimation round failing successful < successful)
unfolding new_estimation
new_estimation_bounds round failing successful p h = ground arith

-- after the first round the middle is taken
new_estimation-later :
    (round failing successful : ℕ)
    → 0 < round
    → new_estimation round failing successful ≡ failing + (successful - failing) / 2
unfolding new_estimation
new_estimation-later round failing successful later = ground arith

module _ (runs : ℕ → Bool) where
  -- An estimation that suffices, with a failing one below it at most the smallest difference away.
  pub record Estimates (failing successful estimation : ℕ) : Type 0 where
    pub within : (failing < estimation) × (estimation ≤ successful)
    pub suffices : (estimation ≡ successful) ⊎ (runs estimation ≡ true)
    pub below : ℕ
    pub fails : (below ≡ failing) ⊎ (runs below ≡ false)
    pub close : (failing ≤ below) × (below < estimation) × (estimation ≤ below + min_diff below)

  Estimates-lower :
      (failing new successful r : ℕ)
      → new < successful
      → runs new ≡ true
      → Estimates failing new r
      → Estimates failing successful r
  Estimates-lower failing new successful r less ok e = record {
    within = (e.within.0, omega (arith, e.within.1));
    suffices = elim (e.suffices) [
      | inl same ↦ inr (subst (λ q. runs q ≡ true) (sym same) ok)
      | inr ran ↦ inr ran
    ];
    below = e.below;
    fails = e.fails;
    close = e.close;
  }

  Estimates-higher :
      (failing new successful r : ℕ)
      → failing < new
      → runs new ≡ false
      → Estimates new successful r
      → Estimates failing successful r
  Estimates-higher failing new successful r less failed e = record {
    within = (omega (arith, e.within.0), e.within.1);
    suffices = e.suffices;
    below = e.below;
    fails = elim (e.fails) [
      | inl same ↦ inr (subst (λ q. runs q ≡ false) (sym same) failed)
      | inr fell ↦ inr fell
    ];
    close = (omega (arith, e.close.0), e.close.1, e.close.2);
  }

  Estimates-stop :
      (failing successful : ℕ)
      → failing < successful
      → successful ≤ failing + min_diff failing
      → Estimates failing successful successful
  Estimates-stop failing successful h near = record {
    within = (h, omega arith);
    suffices = inl refl;
    below = failing;
    fails = inl refl;
    close = (omega arith, h, near);
  }

  abbrev Finds : ℕ → ℕ → ℕ → ℕ → Type 0
  Finds fuel failing successful round =
      (r : ℕ) × (binary_search_estimation runs fuel failing successful round ≡ some r)
      × Estimates failing successful r

  Finds-stop :
      (fuel failing successful round : ℕ)
      → failing < successful
      → successful ≤ failing + min_diff failing
      → Finds (suc fuel) failing successful round
  unfolding binary_search_estimation
  Finds-stop fuel failing successful round h near =
      (successful, ground arith, Estimates-stop failing successful h near)

  -- one round that does not stop, from what the next round finds on either side
  Finds-step :
      (fuel failing successful round : ℕ)
      → 0 < failing
      → failing + min_diff failing < successful
      → round ≤ 20
      → let new = new_estimation round failing successful in
        ((runs new ≡ true) → Finds fuel failing new (round + 1))
        → ((runs new ≡ false) → Finds fuel new successful (round + 1))
        → Finds (suc fuel) failing successful round
  unfolding binary_search_estimation
  Finds-step fuel failing successful round p far early lower higher =
      let new = new_estimation round failing successful in
      let bounds =
        new_estimation_bounds round failing successful p (omega (arith, min_diff-le failing)) in
      elim (Bool-cases (runs new)) [
        | inl ran ↦
            let (r, e, found) = lower ran in
            (r, ground (arith, e, ran), Estimates-lower failing new successful r bounds.1 ran found)
        | inr fell ↦
            let (r, e, found) = higher fell in
            (
              r,
              ground (arith, e, fell),
              Estimates-higher failing new successful r bounds.0 fell found,
            )
      ]

  search_rounds :
      (fuel k failing successful round : ℕ)
      → 0 < failing
      → failing < successful
      → k < fuel
      → 0 < round
      → k + round ≡ 21
      → successful ≤ failing + halving k
      → Finds fuel failing successful round
  unfolding halving
  search_rounds zero k failing successful round p h enough later rounds near = absurd (omega arith)
  search_rounds (suc fuel) zero failing successful round p h enough later rounds near =
      Finds-stop fuel failing successful round h (omega (arith, min_diff-le failing))
  search_rounds (suc fuel) (suc k) failing successful round p h enough later rounds near =
      let middle = new_estimation-later round failing successful later in
      let new = new_estimation round failing successful in
      elim (Bool-cases (leb successful (failing + min_diff failing))) [
        | inl close ↦ Finds-stop fuel failing successful round h (ground (arith, close))
        | inr far ↦
            let far' : failing + min_diff failing < successful = ground (arith, far) in
            let bounds =
              new_estimation_bounds round failing successful p
                (omega (arith, min_diff-le failing)) in
            Finds-step fuel failing successful round p far' (omega arith)
              (λ ran.
                search_rounds fuel k failing new (round + 1) p bounds.0 (omega arith) (omega arith)
                  (omega arith) (omega (arith, middle)))
              (λ fell.
                search_rounds fuel k new successful (round + 1) (omega (arith, bounds.0)) bounds.1
                  (omega arith) (omega arith) (omega arith) (omega (arith, middle)))
      ]

  -- Whatever gas limits the transaction runs with: from a failing estimation above 0 and a
  -- successful one that is at most 209,715,200 above it, the search ends within its 22 rounds. Its
  -- result is the successful one or a limit that the transaction ran with, and at most the smallest
  -- difference below it lies the failing one or a limit that the transaction did not run with.
  pub binary_search_estimation-Estimates :
      (failing successful : ℕ)
      → 0 < failing
      → failing < successful
      → successful ≤ failing + 209_715_200
      → (r : ℕ) × (binary_search_estimation runs 22 failing successful 0 ≡ some r)
        × Estimates failing successful r
  binary_search_estimation-Estimates failing successful p h near =
      let whole : halving 20 ≡ 209_715_200 = unfold halving in refl in
      let bounds = new_estimation_bounds 0 failing successful p in
      let new = new_estimation 0 failing successful in
      elim (Bool-cases (leb successful (failing + min_diff failing))) [
        | inl close ↦ Finds-stop 21 failing successful 0 h (ground (arith, close))
        | inr far ↦
            let far' : failing + min_diff failing < successful = ground (arith, far) in
            let bounds =
              new_estimation_bounds 0 failing successful p (omega (arith, min_diff-le failing)) in
            Finds-step 21 failing successful 0 p far' (omega arith)
              (λ ran.
                search_rounds 21 20 failing new 1 p bounds.0 (omega arith) (omega arith) refl
                  (omega (arith, bounds.1, whole)))
              (λ fell.
                search_rounds 21 20 new successful 1 (omega (arith, bounds.0)) bounds.1
                  (omega arith) (omega arith) refl (omega (arith, bounds.0, whole)))
      ]
