-- ===== src/StackTraces/Walks.antt =====
-- What a trie of bytecodes holds at every path: the node that a path leads to, before and after a
-- bytecode is added.
use hardhat.Prelude.{
  ℕ, suc, ◌≡◌, refl, ap, ◌∙◌, Bool, true, false, ◌&&◌, not, List, [], ◌∷◌, ◌++◌, Option, none, some,
  keep, last?, any, ◌==◌, list_beq, if◌then◌else◌, inl, inr, Bool-cases, arith,
}
use mathlib.Core.List.{append-nil, append_assoc}
use hardhat.StackTraces.Bytecodes.{Bytecode}
use hardhat.StackTraces.Trie.{
  BytecodeTrie, node, descendants, match_of, child_nodes, get_child, child_or_new, add_at, add,
  add_all, root, get_child-set_child,
}

abbrev pub is_prefix : List ℕ → List ℕ → Bool
is_prefix [] code = true
is_prefix (x ∷ p) [] = false
is_prefix (x ∷ p) (y ∷ code) = x == y && is_prefix p code

-- the node at the end of a path
unfoldable pub walk : List ℕ → BytecodeTrie → Option BytecodeTrie
walk [] t = some t
walk (x ∷ p) t = elim (get_child x (child_nodes t)) [ none ↦ none | some u ↦ walk p u ]

abbrev pub Contents : Type 0
Contents = List Bytecode × Option Bytecode

abbrev contents : Option BytecodeTrie → Option Contents
contents none = none
contents (some t) = some (descendants t, match_of t)

-- the descendants and the match at a path
unfoldable pub view : List ℕ → BytecodeTrie → Option Contents
view p t = contents (walk p t)

abbrev or_empty : Option Contents → Contents
or_empty none = ([], none)
or_empty (some c) = c

abbrev noted : Bytecode → List ℕ → List ℕ → Contents → Contents
noted b p code (ds, m) = if list_beq p code then (ds, some b) else (ds ++ b ∷ [], m)

abbrev after_add : Bytecode → List ℕ → List ℕ → Option Contents → Option Contents
after_add b p code o = if is_prefix p code then some (noted b p code (or_empty o)) else o

abbrev view_child : List ℕ → Option BytecodeTrie → Option Contents
view_child p none = none
view_child p (some u) = view p u

view_cons :
    (x : ℕ) (p : List ℕ) (t : BytecodeTrie)
    → view (x ∷ p) t ≡ view_child p (get_child x (child_nodes t))
unfolding view walk
view_cons x p t = ground arith

-- a new node counts as one that is not there
after_add-new :
    (b : Bytecode) (p code : List ℕ) (i : ℕ)
    → after_add b p code (view p (child_or_new i none)) ≡ after_add b p code none
unfolding view walk
after_add-new b [] code i = refl
after_add-new b (x ∷ p) code i = refl

view_child-add_at :
    (b : Bytecode) (p code : List ℕ) (i n : ℕ) (o : Option BytecodeTrie)
    → ((t : BytecodeTrie) → view p (add_at b i code t) ≡ after_add b p code (view p t))
    → view p (add_at b i code (child_or_new n o)) ≡ after_add b p code (view_child p o)
view_child-add_at b p code i n none ih = ih _ ∙ after_add-new b p code n
view_child-add_at b p code i n (some t) ih = ih t

view-add_at :
    (b : Bytecode) (p code : List ℕ) (i : ℕ) (t : BytecodeTrie)
    → view p (add_at b i code t) ≡ after_add b p code (view p t)
unfolding add_at view walk
view-add_at b [] [] i (node d ds m cs) = refl
view-add_at b (x ∷ p) [] i (node d ds m cs) = refl
view-add_at b [] (y ∷ code) i (node d ds m cs) = refl
view-add_at b (x ∷ p) (y ∷ code) i (node d ds m cs) =
    let through =
      view_child-add_at b p code (suc i) i (get_child y cs) (λ t. view-add_at b p code (suc i) t) in
    ground (
      arith,
      view_cons x p (add_at b i (y ∷ code) (node d ds m cs)),
      view_cons x p (node d ds m cs),
      get_child-set_child y x (add_at b (suc i) code (child_or_new i (get_child y cs))) cs,
      through,
    )

abbrev pub has_code : List ℕ → Bytecode → Bool
has_code p b = list_beq p b.normalized_code

-- the code begins with the path, and is longer
abbrev pub extends : List ℕ → Bytecode → Bool
extends p b = is_prefix p b.normalized_code && not (list_beq p b.normalized_code)

abbrev pub begins_with : List ℕ → Bytecode → Bool
begins_with p b = is_prefix p b.normalized_code

abbrev last_from : Option Bytecode → List Bytecode → Option Bytecode
last_from m [] = m
last_from m (b ∷ bs) = last_from (some b) bs

last_from-last :
    (m : Option Bytecode) (b : Bytecode) (bs : List Bytecode)
    → last_from m (b ∷ bs) ≡ last? (b ∷ bs)
last_from-last m b [] = refl
last_from-last m b (c ∷ bs) = last_from-last (some b) c bs

last_from-none : (bs : List Bytecode) → last_from none bs ≡ last? bs
last_from-none [] = refl
last_from-none (b ∷ bs) = last_from-last none b bs

-- what adding the bytecodes makes of what was at the path
abbrev grown : List ℕ → List Bytecode → Option Contents → Option Contents
grown p bs o =
    if any (begins_with p) bs
    then some
        ((or_empty o).0 ++ keep (extends p) bs, last_from (or_empty o).1 (keep (has_code p) bs))
    else o

list_beq-is_prefix : (p code : List ℕ) → list_beq p code ≡ true → is_prefix p code ≡ true
list_beq-is_prefix [] code h = refl
list_beq-is_prefix (x ∷ p) [] h = cc
list_beq-is_prefix (x ∷ p) (y ∷ code) h = ground (arith, list_beq-is_prefix p code)

pub unprefixed :
    (p : List ℕ) (bs : List Bytecode)
    → any (begins_with p) bs ≡ false
    → (keep (extends p) bs ≡ []) × (keep (has_code p) bs ≡ [])
unprefixed p [] h = (refl, refl)
unprefixed p (b ∷ bs) h = ground (arith, list_beq-is_prefix p b.normalized_code, unprefixed p bs)

grown_cons :
    (p : List ℕ) (b : Bytecode) (bs : List Bytecode) (o : Option Contents)
    → grown p bs (after_add b p b.normalized_code o) ≡ grown p (b ∷ bs) o
grown_cons p b bs o = elim (Bool-cases (is_prefix p b.normalized_code)) [
  | inl e ↦ elim (Bool-cases (list_beq p b.normalized_code)) [
    | inl same ↦ ground (arith, unprefixed p bs, append-nil (or_empty o).0)
    | inr longer ↦
        ground (arith, unprefixed p bs, append_assoc (or_empty o).0 (b ∷ []) (keep (extends p) bs))
  ]
  | inr e ↦ ground (arith, list_beq-is_prefix p b.normalized_code)
]

view-add_all :
    (p : List ℕ) (bs : List Bytecode) (t : BytecodeTrie)
    → view p (add_all bs t) ≡ grown p bs (view p t)
unfolding add_all add
view-add_all p [] t = refl
view-add_all p (b ∷ bs) t =
    view-add_all p bs (add b t)
    ∙ ap (grown p bs) (view-add_at b p b.normalized_code 0 t)
    ∙ grown_cons p b bs (view p t)

-- the descendants and the match that the bytecodes leave at a path, if they reach it
abbrev pub held : List ℕ → List Bytecode → Contents
held p bs = (keep (extends p) bs, last? (keep (has_code p) bs))

abbrev pub reached : List ℕ → List Bytecode → Bool
reached [] bs = true
reached (x ∷ p) bs = any (begins_with (x ∷ p)) bs

pub view-root :
    (p : List ℕ) (bs : List Bytecode)
    → view p (add_all bs root) ≡ (if reached p bs then some (held p bs) else none)
unfolding view walk
view-root [] bs =
    view-add_all [] bs root
    ∙ ground (arith, unprefixed [] bs, last_from-none (keep (has_code []) bs))
view-root (x ∷ p) bs =
    view-add_all (x ∷ p) bs root ∙ ground (arith, last_from-none (keep (has_code (x ∷ p)) bs))
