-- ===== src/Fork/Refinement.antt =====
-- The writes of a ForkStateManager, against the world that it stands for.
use hardhat.Prelude.{
  ℕ, ◌≡◌, refl, subst, true, false, List, [], ◌∷◌, none, some, ◌==◌, ltb, leb, if◌then◌else◌, inl,
  inr, Bool-cases, arith,
}
use mathlib.Core.Path.{fun_ext}
use hardhat.Prelude.Assoc.{get, get-put}
use hardhat.Prelude.Assoc
use hardhat.Fork.State.{
  AccountState, ForkStateManager, Remote, or_default, get_account, get_contract_code, unset_storage,
  read_storage, keccak256_null, make_empty_account_state,
}
use hardhat.Fork.Writes.{
  local_account, set_account, slot_value, write_storage, put_contract_storage,
  clear_contract_storage, put_contract_code, delete_account, put_account,
}
use hardhat.Fork.World.{
  World, Write, put_storage, clear_storage, put_code, delete, put, update, perform, world, effect,
  perform_all, effects,
}

-- two worlds in which everything is read alike
pub record SameWorld (v w : World) : Type 0 where
  pub nonce : (a : ℕ) → v.nonce a ≡ w.nonce a
  pub balance : (a : ℕ) → v.balance a ≡ w.balance a
  pub code : (a : ℕ) → v.code a ≡ w.code a
  pub storage : (a p : ℕ) → v.storage a p ≡ w.storage a p

SameWorld-≡ : (u v : World) → SameWorld u v → u ≡ v
SameWorld-≡ u v h =
    let n : u.nonce ≡ v.nonce = fun_ext h.nonce in
    let b : u.balance ≡ v.balance = fun_ext h.balance in
    let c : u.code ≡ v.code = fun_ext h.code in
    let s : u.storage ≡ v.storage = fun_ext (λ a. fun_ext (h.storage a)) in
    λ i. record { nonce = n i; balance = b i; code = c i; storage = s i }

module _ (remote : Remote) where
  -- a write that gives an account another local state changes what is read of this account alone
  module _ (k : ℕ) (x : AccountState) (m : ForkStateManager) where
    nonce-set_account :
        (a : ℕ)
        → (get_account remote a (set_account k x m)).nonce ≡ (
            if k == a
            then or_default x.nonce
                (remote.get_account_data a m.context_block_number).transaction_count
            else (get_account remote a m).nonce)
    unfolding get_account
    nonce-set_account a = ground (arith, get-put k a x m.state)

    balance-set_account :
        (a : ℕ)
        → (get_account remote a (set_account k x m)).balance ≡ (
            if k == a
            then or_default x.balance (remote.get_account_data a m.context_block_number).balance
            else (get_account remote a m).balance)
    unfolding get_account
    balance-set_account a = ground (arith, get-put k a x m.state)

    code-set_account :
        (a : ℕ)
        → get_contract_code remote a (set_account k x m) ≡ (
            if k == a
            then or_default x.code (remote.get_account_data a m.context_block_number).code
            else get_contract_code remote a m)
    unfolding get_contract_code
    code-set_account a = ground (arith, get-put k a x m.state)

    storage-set_account :
        (a p : ℕ)
        → read_storage remote a p (set_account k x m) ≡ (
            if k == a
            then elim (get p x.storage) [
              | none ↦ unset_storage remote x a p m
              | some v ↦ or_default v 0
            ]
            else read_storage remote a p m)
    unfolding read_storage
    storage-set_account a p = ground (arith, get-put k a x m.state)

  write_storage-SameWorld :
      (k p n : ℕ) (m : ForkStateManager)
      → SameWorld (world remote (write_storage k p n m)) (
          let w = world remote m in
          record w { storage = update k (update p n (w.storage k)) w.storage })
  unfolding write_storage get_account get_contract_code read_storage
  write_storage-SameWorld k p n m =
      let old = local_account k m in
      let new : AccountState = record old { storage = Assoc.put p (slot_value n) old.storage } in
      record {
        nonce = λ a. ground (arith, nonce-set_account k new m a);
        balance = λ a. ground (arith, balance-set_account k new m a);
        code = λ a. ground (arith, code-set_account k new m a);
        storage = λ a q.
            ground (arith, storage-set_account k new m a q, get-put p q (slot_value n) old.storage);
      }

  perform-SameWorld :
      (w : Write) (m : ForkStateManager)
      → SameWorld (world remote (perform remote w m)) (effect remote w (world remote m))
  unfolding perform put_contract_storage clear_contract_storage put_contract_code delete_account
      put_account get_account get_contract_code read_storage
  perform-SameWorld (put_storage k key value) m = elim (Bool-cases (key.length == 32)) [
    | inl e ↦ elim (Bool-cases (ltb 32 value.length)) [
      | inl f ↦
          let g : leb value.length 32 ≡ false = ground arith in
          rw (e, f, g, put_contract_storage) unchanged
      | inr f ↦
          let g : leb value.length 32 ≡ true = ground arith in
          rw (e, f, g, put_contract_storage) (write_storage-SameWorld k key.number value.number m)
    ]
    | inr e ↦ rw (e, put_contract_storage) unchanged
  ]
    where
      unchanged : SameWorld (world remote m) (world remote m)
      unchanged = record {
        nonce = λ a. refl;
        balance = λ a. refl;
        code = λ a. refl;
        storage = λ a p. refl;
      }
  perform-SameWorld (clear_storage k) m =
      let old = local_account k m in
      let new : AccountState = record old { storage_cleared = true; storage = [] } in
      record {
        nonce = λ a. ground (arith, nonce-set_account k new m a);
        balance = λ a. ground (arith, balance-set_account k new m a);
        code = λ a. ground (arith, code-set_account k new m a);
        storage = λ a q. ground (arith, storage-set_account k new m a q);
      }
  perform-SameWorld (put_code k code) m =
      let old = local_account k m in
      let new : AccountState = record old { code = some code } in
      record {
        nonce = λ a. ground (arith, nonce-set_account k new m a);
        balance = λ a. ground (arith, balance-set_account k new m a);
        code = λ a. ground (arith, code-set_account k new m a);
        storage = λ a q. ground (arith, storage-set_account k new m a q);
      }
  perform-SameWorld (delete k) m =
      let new = make_empty_account_state in
      record {
        nonce = λ a. ground (arith, nonce-set_account k new m a);
        balance = λ a. ground (arith, balance-set_account k new m a);
        code = λ a. ground (arith, code-set_account k new m a);
        storage = λ a q. ground (arith, storage-set_account k new m a q);
      }
  perform-SameWorld (put k account) m =
      let old = local_account k m in
      let code = if account.code_hash == keccak256_null remote then some [] else old.code in
      let new : AccountState = record old {
        nonce = some account.nonce;
        balance = some account.balance;
        code = code;
      } in
      record {
        nonce = λ a. ground (arith, nonce-set_account k new m a);
        balance = λ a. ground (arith, balance-set_account k new m a);
        code = λ a. ground (arith, code-set_account k new m a);
        storage = λ a q. ground (arith, storage-set_account k new m a q);
      }

  -- Any writes, in any order: what is read afterwards, of any account and any slot, is what the
  -- writes make, one after the other, of what was read before. A write of storage sets one slot of
  -- one account, or nothing if its key is not 32 bytes long or its value longer; clearing makes all
  -- slots of an account 0, code and an account are set, with the account's code emptied where its
  -- code hash says so; a deleted account has nothing left.
  pub perform_all-SameWorld :
      (ws : List Write) (m : ForkStateManager)
      → SameWorld (world remote (perform_all remote ws m)) (effects remote ws (world remote m))
  unfolding perform_all
  perform_all-SameWorld [] m = record {
    nonce = λ a. refl;
    balance = λ a. refl;
    code = λ a. refl;
    storage = λ a p. refl;
  }
  perform_all-SameWorld (w ∷ ws) m =
      subst
        (λ v.
          SameWorld (world remote (perform_all remote ws (perform remote w m)))
            (effects remote ws v))
        (SameWorld-≡ _ _ (perform-SameWorld w m)) (perform_all-SameWorld ws (perform remote w m))
