-- ===== src/Cli/CamelCase.antt =====
-- The names of parameters, written on the command line and read again.
use hardhat.Prelude.{
  ℕ, ◌≡◌, refl, ap, sym, subst, ◌∙◌, Bool, true, false, ◌&&◌, ◌||◌, List, [], ◌∷◌, ◌++◌, map, keep,
  drop, All, leb, ◌==◌, list_beq_iff, if◌then◌else◌, inl, inr, Bool-cases, arith,
}
use hardhat.Cli.Names.{
  Result, ok, dash, is_upper, is_lower, to_lower, to_upper, put_first, split_words, join,
  param_name_to_cla, split_dashes, is_not_empty, capitalize, concat, camel_case, cla_to_param_name,
}

-- a letter or a digit
abbrev pub is_alphanumeric : ℕ → Bool
is_alphanumeric c = is_upper c || (is_lower c || (leb 48 c && leb c 57))

-- what is written for the characters behind the first
abbrev written : List ℕ → List ℕ
written [] = []
written (c ∷ cs) = if is_upper c then dash ∷ to_lower c ∷ written cs else c ∷ written cs

abbrev lowered : List (List ℕ) → List ℕ
lowered ws = join (map (map to_lower) ws)

lowered-put_first :
    (c : ℕ) (w : List ℕ) (ws : List (List ℕ))
    → lowered (put_first c (w ∷ ws)) ≡ to_lower c ∷ lowered (w ∷ ws)
unfolding join
lowered-put_first c w [] = refl
lowered-put_first c w (v ∷ vs) = refl

split_words-cons :
    (c : ℕ) (cs : List ℕ) → (w : List ℕ) × (ws : List (List ℕ)) × (split_words (c ∷ cs) ≡ w ∷ ws)
unfolding split_words
split_words-cons c [] = (c ∷ [], [], refl)
split_words-cons c (d ∷ cs) = elim (Bool-cases (is_upper d)) [
  | inl e ↦ (c ∷ [], split_words (d ∷ cs), rw e refl)
  | inr e ↦ let (w, ws, h) = split_words-cons d cs in (c ∷ w, ws, rw e (ap (put_first c) h))
]

lowered-split_words :
    (c : ℕ) (cs : List ℕ) → lowered (split_words (c ∷ cs)) ≡ to_lower c ∷ written cs
unfolding split_words join
lowered-split_words c [] = refl
lowered-split_words c (d ∷ cs) =
    let ih = lowered-split_words d cs in
    let (w, ws, h) = split_words-cons d cs in
    let first : lowered (put_first c (split_words (d ∷ cs)))
        ≡ to_lower c ∷ lowered (split_words (d ∷ cs)) =
      subst (λ l. lowered (put_first c l) ≡ to_lower c ∷ lowered l) (sym h)
        (lowered-put_first c w ws) in
    let apart : lowered ((c ∷ []) ∷ split_words (d ∷ cs))
        ≡ to_lower c ∷ dash ∷ lowered (split_words (d ∷ cs)) =
      subst (λ l. lowered ((c ∷ []) ∷ l) ≡ to_lower c ∷ dash ∷ lowered l) (sym h) refl in
    elim (Bool-cases (is_upper d)) [
      | inl e ↦ rw e (apart ∙ ap (λ l. to_lower c ∷ dash ∷ l) (ih ∙ rw e refl))
      | inr e ↦ rw e (first ∙ ap (λ l. to_lower c ∷ l) (ih ∙ rw e refl))
    ]

-- what the parts of the written characters are: none but the first is empty
record Parts (cs : List ℕ) : Type 0 where
  pub first : List ℕ
  pub others : List (List ℕ)
  pub split : split_dashes (written cs) ≡ first ∷ others
  pub not_empty : keep is_not_empty others ≡ others
  pub joined : first ++ concat (map capitalize others) ≡ cs

alphanumeric_not_dash : (c : ℕ) → is_alphanumeric c ≡ true → (c == dash) ≡ false
alphanumeric_not_dash c h = ground arith

upper_again :
    (c : ℕ) → is_upper c ≡ true → (to_upper (to_lower c) ≡ c) × ((to_lower c == dash) ≡ false)
upper_again c h = ground arith

written-upper :
    (c : ℕ) (cs : List ℕ) → is_upper c ≡ true → written (c ∷ cs) ≡ dash ∷ to_lower c ∷ written cs
written-upper c cs e = ground arith

written-other : (c : ℕ) (cs : List ℕ) → is_upper c ≡ false → written (c ∷ cs) ≡ c ∷ written cs
written-other c cs e = ground arith

split-dash : (cs : List ℕ) → split_dashes (dash ∷ cs) ≡ [] ∷ split_dashes cs
unfolding split_dashes
split-dash cs = refl

split-other :
    (c : ℕ) (cs : List ℕ)
    → (c == dash) ≡ false
    → split_dashes (c ∷ cs) ≡ put_first c (split_dashes cs)
unfolding split_dashes
split-other c cs e = ground arith

written-Parts : (cs : List ℕ) → All (λ c. is_alphanumeric c ≡ true) cs → Parts cs
unfolding split_dashes
written-Parts [] h = record {
  first = [];
  others = [];
  split = refl;
  not_empty = refl;
  joined = refl;
}
written-Parts (c ∷ cs) h =
    let r = written-Parts cs h.1 in
    elim (Bool-cases (is_upper c)) [
      | inl e ↦
          let (back, other) = upper_again c e in
          record {
            first = [];
            others = (to_lower c ∷ r.first) ∷ r.others;
            split =
                ap split_dashes (written-upper c cs e)
                ∙ split-dash (to_lower c ∷ written cs)
                ∙ (ap (λ l. [] ∷ l)
                    (split-other (to_lower c) (written cs) other
                      ∙ ap (put_first (to_lower c)) r.split));
            not_empty = ap (λ l. (to_lower c ∷ r.first) ∷ l) r.not_empty;
            joined = ground (arith, back, r.joined);
          }
      | inr e ↦ record {
        first = c ∷ r.first;
        others = r.others;
        split =
            ap split_dashes (written-other c cs e)
            ∙ (split-other c (written cs) (alphanumeric_not_dash c h.0) ∙ ap (put_first c) r.split);
        not_empty = r.not_empty;
        joined = ap (λ l. c ∷ l) r.joined;
      }
    ]

lower_again : (c : ℕ) → to_lower (to_lower c) ≡ to_lower c
lower_again c = ground arith

other_lower : (c : ℕ) → is_upper c ≡ false → to_lower c ≡ c
other_lower c e = ground arith

cons_equal : {c d : ℕ} {cs ds : List ℕ} → c ≡ d → cs ≡ ds → ◌≡◌ {A = List ℕ} (c ∷ cs) (d ∷ ds)
cons_equal e h = cc

written-lower : (cs : List ℕ) → map to_lower (written cs) ≡ written cs
written-lower [] = refl
written-lower (c ∷ cs) = elim (Bool-cases (is_upper c)) [
  | inl e ↦
      ap (map to_lower) (written-upper c cs e)
      ∙ ap (λ (l : List ℕ). dash ∷ l) (cons_equal (lower_again c) (written-lower cs))
      ∙ sym (written-upper c cs e)
  | inr e ↦
      ap (map to_lower) (written-other c cs e)
      ∙ cons_equal (other_lower c e) (written-lower cs)
      ∙ sym (written-other c cs e)
]

read_lower :
    {E : Type 0} (cla : List ℕ)
    → map to_lower cla ≡ cla
    → ◌≡◌ {A = Result E (List ℕ)}
        (cla_to_param_name cla)
        (ok (camel_case (keep is_not_empty (split_dashes (drop 2 cla)))))
unfolding cla_to_param_name
read_lower cla e = ground (arith, (list_beq_iff (map to_lower cla) cla).1 e)

-- A name in camel case, of letters and digits with a small letter first, is written as an argument
-- of the command line that is read as the same name.
pub cla_to_param_name-param_name_to_cla :
    {E : Type 0} (c : ℕ) (cs : List ℕ)
    → is_lower c ≡ true
    → All (λ d. is_alphanumeric d ≡ true) cs
    → ◌≡◌ {A = Result E (List ℕ)} (cla_to_param_name (param_name_to_cla (c ∷ cs))) (ok (c ∷ cs))
unfolding param_name_to_cla
cla_to_param_name-param_name_to_cla {E} c cs h k =
    let r = written-Parts cs k in
    let small : to_lower c ≡ c = ground arith in
    let cla = lowered-split_words c cs ∙ ap (λ d. d ∷ written cs) small in
    let all_lower : map to_lower (dash ∷ dash ∷ c ∷ written cs) ≡ dash ∷ dash ∷ c ∷ written cs =
      ap (λ (l : List ℕ). dash ∷ dash ∷ l) (cons_equal small (written-lower cs)) in
    let parts : split_dashes (c ∷ written cs) ≡ (c ∷ r.first) ∷ r.others =
      split-other c (written cs) (ground arith) ∙ ap (put_first c) r.split in
    ap cla_to_param_name (ap (λ (l : List ℕ). dash ∷ dash ∷ l) cla)
    ∙ read_lower (dash ∷ dash ∷ c ∷ written cs) all_lower
    ∙ ap (λ l. ok (camel_case (keep is_not_empty l))) parts
    ∙ ap (λ l. ok (camel_case ((c ∷ r.first) ∷ l))) r.not_empty
    ∙ ap (λ l. ok (c ∷ l)) r.joined
