-- ===== src/TxPool/Evicted.antt =====
-- The nonces of what the two sweeps leave of a sender's lists, when the account's nonce has moved
-- along the pending list.
use hardhat.Prelude.{
  ℕ, suc, ◌+◌, ◌≤◌, ◌<◌, ◌≡◌, subst, List, [], ◌∷◌, All, All-map, length, leb, keep, arith, Bool,
  true, false, Bool-cases, inl, inr,
}
use hardhat.Transactions.{TxLibrary, SerializedTransaction, deserialize_transaction}
use hardhat.TxPool.Eviction.{staying, moving}
use hardhat.TxPool.Order.{Consecutive, Distinct}
use hardhat.TxPool.Removal.{Consecutive-bounds, Consecutive-Distinct}
use hardhat.TxPool.State.{Account, SenderTransactions, nonce_of}
use hardhat.TxPool.Update.{is_tx_valid}

module _ {ℓ κ} {A : Type ℓ} (P : A → Type κ) where
  pub All-keep : (p : A → Bool) (xs : List A) → All P xs → All P (keep p xs)
  All-keep p [] h = tt
  All-keep p (x ∷ xs) h = elim (Bool-cases (p x)) [
    | inl e ↦ rw e (h.0, All-keep p xs h.1)
    | inr e ↦ rw e (All-keep p xs h.1)
  ]

pub Distinct-keep {ℓ} :
    {A : Type ℓ} (nonce : A → ℕ) (p : A → Bool) (xs : List A)
    → Distinct nonce xs
    → Distinct nonce (keep p xs)
Distinct-keep nonce p [] d = tt
Distinct-keep nonce p (x ∷ xs) d = elim (Bool-cases (p x)) [
  | inl e ↦ rw e (All-keep _ p xs d.0, Distinct-keep nonce p xs d.1)
  | inr e ↦ rw e (Distinct-keep nonce p xs d.1)
]

module _ (lib : TxLibrary) (a : ℕ) (account : Account) (limit : ℕ) where
  abbrev stay : SenderTransactions → SenderTransactions
  stay ts = staying lib a account limit ts

  abbrev move : SenderTransactions → SenderTransactions
  move ts = moving lib a account limit ts

  -- of a gapless list from `n` on to `end`, what the sweep leaves under a nonce `m`
  pub record Leaves (end m : ℕ) (kept moved : SenderTransactions) : Type 0 where
    pub gapless : Consecutive (nonce_of lib) m kept
    pub shorter : m + length kept ≤ end
    pub behind : All (λ t. m + length kept < nonce_of lib t) moved
    pub before : All (λ t. nonce_of lib t < end) moved
    pub distinct : Distinct (nonce_of lib) moved

  -- the account's nonce is not above the list
  not_above-Leaves :
      (n : ℕ) (ts : SenderTransactions)
      → account.nonce ≤ n
      → Consecutive (nonce_of lib) n ts
      → Leaves (n + length ts) n (stay ts) (move ts)
  unfolding staying moving
  not_above-Leaves n [] l c = record {
    gapless = tt;
    shorter = omega arith;
    behind = tt;
    before = tt;
    distinct = tt;
  }
  not_above-Leaves n (t ∷ ts) l c =
      let rest = not_above-Leaves (suc n) ts (omega arith) c.1 in
      elim (Bool-cases (is_tx_valid lib limit (deserialize_transaction lib t).tx account)) [
        | inl valid ↦
            rw (valid, staying, moving)
              (record {
                gapless = (c.0, rest.gapless);
                shorter = omega (arith, rest.shorter);
                behind =
                    All-map (λ s (b : suc n + length (stay ts) < nonce_of lib s). omega arith)
                      (move ts) rest.behind;
                before =
                    All-map (λ s (b : nonce_of lib s < suc n + length ts). omega arith) (move ts)
                      rest.before;
                distinct = rest.distinct;
              })
        | inr invalid ↦
            let used : leb account.nonce (nonce_of lib t) ≡ true = ground (arith, c.0) in
            rw (invalid, used, staying, moving)
              (record {
                gapless = tt;
                shorter = omega arith;
                behind =
                    All-map
                      (λ s (b : (suc n ≤ nonce_of lib s) × (nonce_of lib s < suc n + length ts)).
                        omega arith)
                      ts (Consecutive-bounds (nonce_of lib) (suc n) ts c.1);
                before =
                    All-map
                      (λ s (b : (suc n ≤ nonce_of lib s) × (nonce_of lib s < suc n + length ts)).
                        omega arith)
                      ts (Consecutive-bounds (nonce_of lib) (suc n) ts c.1);
                distinct = Consecutive-Distinct (nonce_of lib) (suc n) ts c.1;
              })
      ]

  -- a nonce that is used up makes a transaction invalid
  used_up :
      (t : SerializedTransaction)
      → leb account.nonce (nonce_of lib t) ≡ false
      → is_tx_valid lib limit (deserialize_transaction lib t).tx account ≡ false
  unfolding is_tx_valid
  used_up t e = ground (arith, e)

  -- the account's nonce has moved along the list
  pub sweep-Leaves :
      (n : ℕ) (ts : SenderTransactions)
      → n ≤ account.nonce
      → account.nonce ≤ n + length ts
      → Consecutive (nonce_of lib) n ts
      → Leaves (n + length ts) account.nonce (stay ts) (move ts)
  unfolding staying moving
  sweep-Leaves n [] l u c = record {
    gapless = tt;
    shorter = omega arith;
    behind = tt;
    before = tt;
    distinct = tt;
  }
  sweep-Leaves n (t ∷ ts) l u c = elim (Bool-cases (leb account.nonce n)) [
    | inl same ↦
        let at : n ≡ account.nonce = ground (arith, same) in
        subst (λ m. Leaves (n + length (t ∷ ts)) m (stay (t ∷ ts)) (move (t ∷ ts))) at
          (not_above-Leaves n (t ∷ ts) (omega arith) c)
    | inr later ↦
        let rest = sweep-Leaves (suc n) ts (ground (arith, later)) (omega arith) c.1 in
        let end : suc n + length ts ≡ n + length (t ∷ ts) = omega arith in
        let used : leb account.nonce (nonce_of lib t) ≡ false = ground (arith, later, c.0) in
        rw (used_up t used, used, staying, moving)
          (subst (λ k. Leaves k account.nonce (stay ts) (move ts)) end rest)
  ]
