-- ===== src/StackTraces/CacheRuns.antt =====
-- The cache of a ContractsIdentifier over a run of its methods, and what is identified.
use hardhat.Prelude.{
  ℕ, ◌≡◌, refl, sym, ap, subst, ◌∙◌, Bool, true, false, List, [], ◌∷◌, Option, none, some, All,
  list_beq, list_beq_iff, inl, inr, Bool-cases, arith,
}
use hardhat.Prelude.Dict.{lookup, store, lookup-store}
use hardhat.StackTraces.Bytecodes.{Bytecode}
use hardhat.StackTraces.Slices.{normalize_library_runtime_bytecode_if_necessary}
use hardhat.StackTraces.Trie.{BytecodeTrie, add}
use hardhat.StackTraces.Identifier.{
  EvmMessageTrace, ContractsIdentifier, Cache, init, add_bytecode, remember, cached_or_searched,
  search_bytecode, get_bytecode_from_message_trace,
}

-- a call of one of the two methods
pub data Call : Type 0 where
  adding : Bytecode → Call
  identifying : EvmMessageTrace → Call

-- what the traces of a run are identified as
unfoldable pub run : List Call → ContractsIdentifier → List (Option Bytecode)
unfolding get_bytecode_from_message_trace
run [] i = []
run (adding b ∷ calls) i = run calls (add_bytecode b i)
run (identifying trace ∷ calls) i =
    let answer = get_bytecode_from_message_trace trace i in answer.0 ∷ run calls answer.1

abbrev pub OfKind : Bool → Call → Type 0
OfKind is_create (adding b) = Unit
OfKind is_create (identifying trace) = trace.is_create ≡ is_create

-- whatever the cache has is what a search would find
abbrev IsSound : Bool → BytecodeTrie → Cache → Type 0
IsSound is_create t m =
    (code : List ℕ) (b : Bytecode)
    → lookup code m ≡ some b
    → search_bytecode is_create code t ≡ some b

store-IsSound :
    (is_create : Bool) (t : BytecodeTrie) (m : Cache) (code : List ℕ) (b : Bytecode)
    → search_bytecode is_create code t ≡ some b
    → IsSound is_create t m
    → IsSound is_create t (store code b m)
store-IsSound is_create t m code b h s k c e = elim (Bool-cases (list_beq code k)) [
  | inl same ↦
      let found : some b ≡ some c = ground (arith, lookup-store code k b m) in
      subst (λ l. search_bytecode is_create l t ≡ some c) ((list_beq_iff code k).0 same) (h ∙ found)
  | inr other ↦ s k c (ground (arith, lookup-store code k b m))
]

-- the identifier that has a cache agrees with the one that has none
record Agrees (is_create : Bool) (with_cache without : ContractsIdentifier) : Type 0 where
  pub same_trie : with_cache.trie ≡ without.trie
  pub enabled : with_cache.enable_cache ≡ true
  pub disabled : without.enable_cache ≡ false
  pub sound : IsSound is_create without.trie with_cache.cache

add_bytecode-Agrees :
    (is_create : Bool) (b : Bytecode) (i j : ContractsIdentifier)
    → Agrees is_create i j
    → Agrees is_create (add_bytecode b i) (add_bytecode b j)
unfolding add_bytecode
add_bytecode-Agrees is_create b i j a = record {
  same_trie = ap (add b) a.same_trie;
  enabled = a.enabled;
  disabled = a.disabled;
  sound = λ code c e. absurd (cc);
}

remember_disabled :
    (code : List ℕ) (o : Option Bytecode) (j : ContractsIdentifier)
    → j.enable_cache ≡ false
    → remember code o j ≡ j
unfolding remember
remember_disabled code none j e = refl
remember_disabled code (some b) j e = ground arith

remember_enabled :
    (code : List ℕ) (b : Bytecode) (i : ContractsIdentifier)
    → i.enable_cache ≡ true
    → remember code (some b) i ≡ record i { cache = store code b i.cache }
unfolding remember
remember_enabled code b i e = ground arith

remember-Agrees :
    (is_create : Bool) (code : List ℕ) (o : Option Bytecode) (i j : ContractsIdentifier)
    → search_bytecode is_create code j.trie ≡ o
    → Agrees is_create i j
    → Agrees is_create (remember code o i) j
unfolding remember
remember-Agrees is_create code none i j h a = a
remember-Agrees is_create code (some b) i j h a =
    subst (λ (c : ContractsIdentifier). Agrees is_create c j)
      (sym (remember_enabled code b i a.enabled))
      (record {
        same_trie = a.same_trie;
        enabled = a.enabled;
        disabled = a.disabled;
        sound = store-IsSound is_create j.trie i.cache code b h a.sound;
      })

-- what one identification answers, and the identifiers behind it
answers-Agree :
    (is_create : Bool) (code : List ℕ) (hit miss : Option Bytecode) (i j : ContractsIdentifier)
    → hit ≡ lookup code i.cache
    → miss ≡ none
    → Agrees is_create i j
    → ((cached_or_searched hit code (search_bytecode is_create code i.trie) i).0
        ≡ (cached_or_searched miss code (search_bytecode is_create code j.trie) j).0)
      × Agrees is_create
          (cached_or_searched hit code (search_bytecode is_create code i.trie) i).1
          (cached_or_searched miss code (search_bytecode is_create code j.trie) j).1
unfolding cached_or_searched
answers-Agree is_create code hit (some c) i j e m a = absurd (cc)
answers-Agree is_create code none none i j e m a = (
  ap (search_bytecode is_create code) a.same_trie,
  subst
      (λ (c : ContractsIdentifier).
        Agrees is_create (remember code (search_bytecode is_create code i.trie) i) c)
      (sym (remember_disabled code (search_bytecode is_create code j.trie) j a.disabled))
      (remember-Agrees is_create code (search_bytecode is_create code i.trie) i j
        (ap (search_bytecode is_create code) (sym a.same_trie)) a),
)
answers-Agree is_create code (some b) none i j e m a = (
  sym (a.sound code b (ground arith)),
  subst (λ (c : ContractsIdentifier). Agrees is_create i c)
      (sym (remember_disabled code (search_bytecode is_create code j.trie) j a.disabled)) a,
)

get-Agrees :
    (trace : EvmMessageTrace) (i j : ContractsIdentifier)
    → Agrees trace.is_create i j
    → ((get_bytecode_from_message_trace trace i).0 ≡ (get_bytecode_from_message_trace trace j).0)
      × Agrees trace.is_create
          (get_bytecode_from_message_trace trace i).1
          (get_bytecode_from_message_trace trace j).1
unfolding get_bytecode_from_message_trace
get-Agrees trace i j a =
    answers-Agree trace.is_create (normalize_library_runtime_bytecode_if_necessary trace.code) _ _ i
      j (ground arith) (ground arith) a

run-Agrees :
    (is_create : Bool) (calls : List Call) (i j : ContractsIdentifier)
    → All (OfKind is_create) calls
    → Agrees is_create i j
    → run calls i ≡ run calls j
unfolding run
run-Agrees is_create [] i j k a = refl
run-Agrees is_create (adding b ∷ calls) i j k a =
    run-Agrees is_create calls (add_bytecode b i) (add_bytecode b j) k.1
      (add_bytecode-Agrees is_create b i j a)
run-Agrees is_create (identifying trace ∷ calls) i j k a =
    let i' = (get_bytecode_from_message_trace trace i).1 in
    let j' = (get_bytecode_from_message_trace trace j).1 in
    let (same, later) = get-Agrees trace i j (subst (λ c. Agrees c i j) (sym k.0) a) in
    let rest = run-Agrees is_create calls i' j' k.1 (subst (λ c. Agrees c i' j') k.0 later) in
    ground (arith, same, rest)

-- As long as the traces are all of deployments, or none is, the cache makes no difference: whatever
-- bytecodes are added in between, each trace is identified as it is without a cache.
pub run-cached :
    (is_create : Bool) (calls : List Call)
    → All (OfKind is_create) calls
    → run calls (init true) ≡ run calls (init false)
run-cached is_create calls k =
    run-Agrees is_create calls (init true) (init false) k (record {
      same_trie = refl;
      enabled = refl;
      disabled = refl;
      sound = λ code c e. absurd (cc);
    })
