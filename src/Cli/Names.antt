-- ===== src/Cli/Names.antt =====
-- paramNameToCLA and cLAToParamName of ArgumentsParser.ts.
use hardhat.Prelude.{
  ℕ, ◌+◌, ◌-◌, Bool, true, false, ◌&&◌, List, [], ◌∷◌, ◌++◌, map, keep, drop, leb, ◌==◌, list_beq,
  if◌then◌else◌,
}

-- `E` is what the parse functions of the argument types throw.
pub data ArgumentError (E : Type 0) : Type 0 where
  param_name_invalid_casing unrecognized_command_line_arg unrecognized_param_name repeated_param :
      List ℕ → ArgumentError E
  missing_task_argument missing_positional_arg unrecognized_positional_arg :
      List ℕ → ArgumentError E
  -- a property of `undefined` is read
  type_error : ArgumentError E
  parse_error : E → ArgumentError E

pub data Result (E A : Type 0) : Type 0 where
  ok : A → Result E A
  throws : ArgumentError E → Result E A

infixl 5 ◌>>=◌
abbrev pub ◌>>=◌ : {E A B : Type 0} → Result E A → (A → Result E B) → Result E B
ok a >>= f = f a
throws e >>= f = throws e

abbrev pub dash : ℕ
dash = 45

abbrev pub is_upper : ℕ → Bool
is_upper c = leb 65 c && leb c 90

abbrev pub is_lower : ℕ → Bool
is_lower c = leb 97 c && leb c 122

abbrev pub to_lower : ℕ → ℕ
to_lower c = if is_upper c then c + 32 else c

abbrev pub to_upper : ℕ → ℕ
to_upper c = if is_lower c then c - 32 else c

abbrev pub put_first : ℕ → List (List ℕ) → List (List ℕ)
put_first c [] = (c ∷ []) ∷ []
put_first c (w ∷ ws) = (c ∷ w) ∷ ws

-- `paramName.split(/(?=[A-Z])/g)`
unfoldable pub split_words : List ℕ → List (List ℕ)
split_words [] = [] ∷ []
split_words (c ∷ []) = (c ∷ []) ∷ []
split_words (c ∷ d ∷ cs) =
    let rest = split_words (d ∷ cs) in if is_upper d then (c ∷ []) ∷ rest else put_first c rest

-- `.join("-")`
unfoldable pub join : List (List ℕ) → List ℕ
join [] = []
join (w ∷ []) = w
join (w ∷ v ∷ ws) = w ++ dash ∷ join (v ∷ ws)

unfoldable pub param_name_to_cla : List ℕ → List ℕ
unfolding split_words join
param_name_to_cla param_name = dash ∷ dash ∷ join (map (map to_lower) (split_words param_name))

-- `.split("-")`
unfoldable pub split_dashes : List ℕ → List (List ℕ)
split_dashes [] = [] ∷ []
split_dashes (c ∷ cs) =
    let rest = split_dashes cs in if c == dash then [] ∷ rest else put_first c rest

abbrev pub is_not_empty : List ℕ → Bool
is_not_empty [] = false
is_not_empty (c ∷ cs) = true

abbrev pub capitalize : List ℕ → List ℕ
capitalize [] = []
capitalize (c ∷ cs) = to_upper c ∷ cs

abbrev pub concat : List (List ℕ) → List ℕ
concat [] = []
concat (w ∷ ws) = w ++ concat ws

-- "undefined", which JavaScript makes of a first part that is not there
abbrev pub undefined_text : List ℕ
undefined_text = 117 ∷ 110 ∷ 100 ∷ 101 ∷ 102 ∷ 105 ∷ 110 ∷ 101 ∷ 100 ∷ []

abbrev pub camel_case : List (List ℕ) → List ℕ
camel_case [] = undefined_text
camel_case (w ∷ ws) = w ++ concat (map capitalize ws)

unfoldable pub cla_to_param_name : {E : Type 0} → List ℕ → Result E (List ℕ)
unfolding split_dashes
cla_to_param_name cla =
    if list_beq (map to_lower cla) cla
    then ok (camel_case (keep is_not_empty (split_dashes (drop 2 cla))))
    else throws (param_name_invalid_casing cla)
