-- ===== src/TransactionQueue/Orderly.antt =====
-- What keeps every waiting transaction within the queue's reach, and that the refill keeps it.
use mathlib.Core.Option.{some-injective}
use hardhat.Prelude.{
  ℕ, ◌≡◌, refl, sym, ap, ◌∙◌, subst, Bool, true, false, ◌==◌, ==_iff, List, [], ◌∷◌, none, some,
  option_beq, option_beq_iff, All, any, any-perm, inl, inr, ◌⊎◌, Bool-cases, Option-cases, arith,
}
use hardhat.Prelude.Assoc.{get, put, get-put, get-put_ne, HasUniqueKeys, put-HasUniqueKeys}
use hardhat.Prelude.Int.{ℤ}
use hardhat.Transactions.{TxLibrary, OrderedTransaction, sender_of}
use hardhat.TransactionQueue.Order.{values}
use hardhat.TransactionQueue.Queue.{HeapLibrary, HeapLaws, TransactionQueue, refill}

pub values-empty :
    (m : List (ℕ × List OrderedTransaction))
    → HasUniqueKeys m
    → ((a : ℕ) (f : OrderedTransaction) (r : List OrderedTransaction) → get a m ≡ some (f ∷ r) → ⊥)
    → values m ≡ []
unfolding values
values-empty [] u h = refl
values-empty ((k, f ∷ r) ∷ m) u h = absurd (h k f r (ground arith))
values-empty ((k, []) ∷ m) u h = values-empty m u.1 (λ a f r e. elim (Bool-cases (k == a)) [
  | inl same ↦
      let missing : get a m ≡ none = subst (λ j. get j m ≡ none) ((==_iff k a).0 same) u.0 in cc
  | inr ne ↦ h a f r (rw ne e)
])

module _ (lib : TxLibrary) where
  abbrev pub sent_by : ℕ → OrderedTransaction → Bool
  sent_by a o = option_beq (sender_of lib o.tx) (some a)

  abbrev pub is_anonymous : OrderedTransaction → Bool
  is_anonymous o = elim (sender_of lib o.tx) [ none ↦ true | some a ↦ false ]

  -- Every list is filed under its sender, and no key occurs twice; a sender whose list is not empty
  -- has a transaction in the heap, or sent the last one; and every sender is known.
  pub record IsOrderly (h : HeapLibrary) (q : TransactionQueue h) : Type 0 where
    pub filed :
        (a : ℕ) (l : List OrderedTransaction)
        → get a q.queued ≡ some l
        → All (λ o. sender_of lib o.tx ≡ some a) l
    pub unique : HasUniqueKeys q.queued
    pub ready :
        (a : ℕ) (f : OrderedTransaction) (r : List OrderedTransaction)
        → get a q.queued ≡ some (f ∷ r)
        → (q.last_sender ≡ some a) ⊎ (any (sent_by a) (h.contents q.heap) ≡ true)
    pub known : any is_anonymous (h.contents q.heap) ≡ false

  module _ (compare : OrderedTransaction → OrderedTransaction → ℤ) (h : HeapLibrary)
      (laws : HeapLaws compare h) where
    -- after the refill the exception for the last sender is gone
    abbrev pub AllReady : TransactionQueue h → Type 0
    AllReady q =
        (a : ℕ) (f : OrderedTransaction) (r : List OrderedTransaction)
        → get a q.queued ≡ some (f ∷ r)
        → any (sent_by a) (h.contents q.heap) ≡ true

    refill-idle : (q : TransactionQueue h) → q.last_sender ≡ none → refill h q ≡ q
    unfolding refill
    refill-idle q e = ground (arith, e)

    refill-empty :
        (q : TransactionQueue h) (s : ℕ)
        → q.last_sender ≡ some s
        → (get s q.queued ≡ none) ⊎ (get s q.queued ≡ some [])
        → refill h q ≡ q
    unfolding refill
    refill-empty q s e (inl none_left) = ground (arith, e, none_left)
    refill-empty q s e (inr empty) = ground (arith, e, empty)

    abbrev pub pushed :
        TransactionQueue h → ℕ → OrderedTransaction → List OrderedTransaction → TransactionQueue h
    pushed q s f r = record q { heap = h.push f q.heap; queued = put s r q.queued }

    refill-pushed :
        (q : TransactionQueue h) (s : ℕ) (f : OrderedTransaction) (r : List OrderedTransaction)
        → q.last_sender ≡ some s
        → get s q.queued ≡ some (f ∷ r)
        → refill h q ≡ pushed q s f r
    unfolding refill
    refill-pushed q s f r e at = ground (arith, e, at)

    -- the last sender's next transaction goes to the heap, or the first one of a new sender
    pub pushed-orderly :
        (q : TransactionQueue h) (s : ℕ) (f : OrderedTransaction) (r : List OrderedTransaction)
        → IsOrderly h q
        → ((a : ℕ) → q.last_sender ≡ some a → (s == a) ≡ true)
        → All (λ o. sender_of lib o.tx ≡ some s) (f ∷ r)
        → IsOrderly h (pushed q s f r) × AllReady (pushed q s f r)
    pushed-orderly q s f r v is_last mine =
        let more =
          λ (test : OrderedTransaction → Bool). any-perm test (laws.contents_push f q.heap) in
        let all_ready : AllReady (pushed q s f r) = λ a g t found. elim (Bool-cases (s == a)) [
          | inl same ↦
              let by : sent_by a f ≡ true =
                (option_beq_iff (sender_of lib f.tx) (some a)).1
                  (mine.0 ∙ ap some ((==_iff s a).0 same)) in
              more (sent_by a) ∙ rw by refl
          | inr ne ↦ elim (v.ready a g t (sym (get-put_ne s a r q.queued ne) ∙ found)) [
            | inl last ↦ absurd (ground (arith, is_last a last, ne))
            | inr there ↦ more (sent_by a) ∙ ground (arith, there)
          ]
        ] in
        (
          record {
            filed = λ a l found. elim (Bool-cases (s == a)) [
              | inl same ↦
                  let rest : l ≡ r = ground (arith, get-put s a r q.queued, same, found) in
                  subst (λ k. All (λ o. sender_of lib o.tx ≡ some k) l) ((==_iff s a).0 same)
                    (subst (All (λ o. sender_of lib o.tx ≡ some s)) (sym rest) mine.1)
              | inr ne ↦ v.filed a l (sym (get-put_ne s a r q.queued ne) ∙ found)
            ];
            unique = put-HasUniqueKeys s r q.queued v.unique;
            ready = λ a g t found. inr (all_ready a g t found);
            known =
                let named : is_anonymous f ≡ false = rw (mine.0, is_anonymous) refl in
                more is_anonymous ∙ rw named v.known;
          },
          all_ready,
        )

    pub refilled :
        (q : TransactionQueue h) → IsOrderly h q → IsOrderly h (refill h q) × AllReady (refill h q)
    refilled q v = elim (Option-cases q.last_sender) [
      | inl e ↦
          subst (λ z. IsOrderly h z × AllReady z) (sym (refill-idle q e))
            (v, λ a f r found. elim (v.ready a f r found) [ inl last ↦ cc | inr there ↦ there ])
      | inr (s, e) ↦ elim (Option-cases (get s q.queued)) [
        | inl gone ↦ unpushed q v s e (inl gone)
        | inr ([], at) ↦ unpushed q v s e (inr at)
        | inr (f ∷ r, at) ↦
            subst (λ z. IsOrderly h z × AllReady z) (sym (refill-pushed q s f r e at))
              (pushed-orderly q s f r v (λ a last. ground (arith, e, last)) (v.filed s (f ∷ r) at))
      ]
    ]
      where
        unpushed :
            (q : TransactionQueue h)
            → IsOrderly h q
            → (s : ℕ) → q.last_sender ≡ some s
            → (get s q.queued ≡ none) ⊎ (get s q.queued ≡ some [])
            → IsOrderly h (refill h q) × AllReady (refill h q)
        unpushed q v s e nothing =
            subst (λ z. IsOrderly h z × AllReady z) (sym (refill-empty q s e nothing))
              (
                v,
                λ a f r found. elim (v.ready a f r found) [
                  | inl last ↦
                      let same : s ≡ a = some-injective s a (sym e ∙ last) in
                      let here : get s q.queued ≡ some (f ∷ r) =
                        subst (λ k. get k q.queued ≡ some (f ∷ r)) (sym same) found in
                      absurd (elim nothing [ inl gone ↦ cc | inr empty ↦ cc ])
                  | inr there ↦ there
                ],
              )
