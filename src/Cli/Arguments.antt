-- ===== src/Cli/Arguments.antt =====
-- The class ArgumentsParser. An object has, besides its own, the properties that every object
-- inherits, and a value of `undefined` is read as one that is not there.
use hardhat.Prelude.{
  ℕ, Bool, true, false, ◌&&◌, ◌||◌, List, [], ◌∷◌, ◌++◌, ◌⊎◌, inl, inr, Option, none, some, length,
  get_elem?, last?, ◌==◌, if◌then◌else◌,
}
use hardhat.Prelude.Dict.{lookup, store}
use hardhat.Cli.Names.{
  unrecognized_command_line_arg, unrecognized_param_name, repeated_param, missing_task_argument,
  missing_positional_arg, unrecognized_positional_arg, type_error, parse_error, Result, ok, throws,
  ◌>>=◌, dash, param_name_to_cla, cla_to_param_name,
}

pub data ArgumentValue (V : Type 0) : Type 0 where
  flag_set : ArgumentValue V
  one : V → ArgumentValue V
  many : List V → ArgumentValue V

-- `parse` is that of the argument's type, which throws or gives a value.
pub record ParamDefinition (E V : Type 0) : Type 0 where
  pub name : List ℕ
  pub is_flag : Bool
  pub is_optional : Bool
  pub is_variadic : Bool
  pub default_value : Option (ArgumentValue V)
  pub parse : List ℕ → List ℕ → E ⊎ V

abbrev pub starts_with_prefix : List ℕ → Bool
starts_with_prefix (c ∷ d ∷ cs) = c == dash && d == dash
starts_with_prefix _ = false

abbrev pub Definitions : Type 0 → Type 0 → Type 0
Definitions E V = List (List ℕ × ParamDefinition E V)

abbrev pub Arguments : Type 0 → Type 0
Arguments V = List (List ℕ × Option (ArgumentValue V))

abbrev pub is_some : {A : Type 0} → Option A → Bool
is_some none = false
is_some (some a) = true

abbrev pub has_value : {A : Type 0} → Option (Option A) → Bool
has_value none = false
has_value (some o) = is_some o

abbrev pub first? : List (List ℕ) → Option (List ℕ)
first? [] = none
first? (raw ∷ raws) = some raw

abbrev pub rest_of : List (List ℕ) → List (List ℕ)
rest_of [] = []
rest_of (raw ∷ raws) = raws

-- `{ ...first, ...second }`
unfoldable pub spread : {V : Type 0} → Arguments V → Arguments V → Arguments V
spread first [] = first
spread first ((name, v) ∷ second) = spread (store name v first) second

-- `is_inherited` tells the names that `Object.prototype` has.
module _ (E V : Type 0) (is_inherited : List ℕ → Bool) where
  -- `parsedArguments[paramName] !== undefined`
  abbrev pub is_given : List ℕ → Arguments V → Bool
  is_given name arguments = is_inherited name || has_value (lookup name arguments)

  unfoldable pub is_cla_param_name : List ℕ → Definitions E V → Result E Bool
  is_cla_param_name str definitions =
      if starts_with_prefix str
      then (do
        name ← cla_to_param_name str
        ok (is_inherited name || is_some (lookup name definitions)))
      else ok false

  abbrev pub thrown_or : E ⊎ V → Result E V
  thrown_or (inl e) = throws (parse_error e)
  thrown_or (inr v) = ok v

  abbrev pub run_parse : ParamDefinition E V → List ℕ → List ℕ → Result E V
  run_parse definition name raw = thrown_or (definition.parse name raw)

  -- the value that stands behind a parameter
  abbrev pub parse_value :
      ParamDefinition E V → List ℕ → Option (List ℕ) → Arguments V → Result E (Arguments V × Bool)
  parse_value definition name none arguments =
      throws (missing_task_argument (param_name_to_cla name))
  parse_value definition name (some raw) arguments = do
    v ← run_parse definition name raw
    ok (store name (some (one v)) arguments, true)

  abbrev pub use_definition :
      Option (ParamDefinition E V)
      → List ℕ
      → List (List ℕ)
      → Arguments V
      → Result E (Arguments V × Bool)
  use_definition none name raws arguments = throws type_error
  use_definition (some definition) name raws arguments =
      if definition.is_flag
      then ok (store name (some flag_set) arguments, false)
      else parse_value definition name (first? raws) arguments

  -- `_parseArgumentAt`, with the arguments behind this one; whether it used the next one as well
  unfoldable pub parse_argument_at :
      List ℕ → List (List ℕ) → Definitions E V → Arguments V → Result E (Arguments V × Bool)
  parse_argument_at cla raws definitions arguments = do
    name ← cla_to_param_name cla
    (if is_given name arguments
        then throws (repeated_param cla)
        else use_definition (lookup name definitions) name raws arguments)

  -- The loop of `_parseTaskParamArguments`. The first argument says that the index has gone past the
  -- next one.
  unfoldable pub param_loop :
      Definitions E V
      → Bool
      → List (List ℕ)
      → Arguments V
      → List (List ℕ)
      → Result E (Arguments V × List (List ℕ))
  unfolding is_cla_param_name parse_argument_at
  param_loop definitions skip [] arguments positional = ok (arguments, positional)
  param_loop definitions true (arg ∷ raws) arguments positional =
      param_loop definitions false raws arguments positional
  param_loop definitions false (arg ∷ raws) arguments positional = elim (starts_with_prefix arg) [
    | false ↦ param_loop definitions false raws arguments (positional ++ arg ∷ [])
    | true ↦ is_cla_param_name arg definitions >>= λ known. elim known [
      | false ↦ throws (unrecognized_param_name arg)
      | true ↦ parse_argument_at arg raws definitions arguments >>= λ next.
          param_loop definitions next.1 raws next.0 positional
    ]
  ]

  unfoldable pub add_task_default_arguments : Definitions E V → Arguments V → Result E (Arguments V)
  add_task_default_arguments [] arguments = ok arguments
  add_task_default_arguments ((name, definition) ∷ definitions) arguments =
      elim (is_given name arguments) [
        | true ↦ add_task_default_arguments definitions arguments
        | false ↦ elim definition.is_optional [
          | true ↦
              add_task_default_arguments definitions (store name definition.default_value arguments)
          | false ↦ throws (missing_task_argument (param_name_to_cla name))
        ]
      ]

  unfoldable pub parse_task_param_arguments :
      Definitions E V → List (List ℕ) → Result E (Arguments V × List (List ℕ))
  unfolding param_loop add_task_default_arguments
  parse_task_param_arguments definitions raws = do
    (arguments, positional) ← param_loop definitions false raws [] []
    all ← add_task_default_arguments definitions arguments
    ok (all, positional)

  unfoldable pub parse_each : ParamDefinition E V → List (List ℕ) → Result E (List V)
  parse_each definition [] = ok []
  parse_each definition (raw ∷ raws) = do
    v ← run_parse definition definition.name raw
    vs ← parse_each definition raws
    ok (v ∷ vs)

  -- what one positional parameter gets of the arguments from its index on
  unfoldable pub positional_value :
      ParamDefinition E V → List (List ℕ) → Result E (Option (ArgumentValue V))
  unfolding parse_each
  positional_value definition [] =
      if definition.is_optional
      then ok definition.default_value
      else throws (missing_positional_arg definition.name)
  positional_value definition (raw ∷ raws) =
      if definition.is_variadic
      then (do vs ← parse_each definition (raw ∷ raws); ok (some (many vs)))
      else (do v ← run_parse definition definition.name raw; ok (some (one v)))

  unfoldable pub positional_loop :
      List (ParamDefinition E V) → List (List ℕ) → Arguments V → Result E (Arguments V)
  unfolding positional_value
  positional_loop [] raws arguments = ok arguments
  positional_loop (definition ∷ definitions) raws arguments = do
    v ← positional_value definition raws
    positional_loop definitions (rest_of raws) (store definition.name v arguments)

  abbrev pub has_variadic_param : Option (ParamDefinition E V) → Bool
  has_variadic_param none = false
  has_variadic_param (some definition) = definition.is_variadic

  abbrev pub extra_positional : Option (List ℕ) → Arguments V → Result E (Arguments V)
  extra_positional none arguments = ok arguments
  extra_positional (some raw) arguments = throws (unrecognized_positional_arg raw)

  unfoldable pub parse_positional_param_args :
      List (List ℕ) → List (ParamDefinition E V) → Result E (Arguments V)
  unfolding positional_loop
  parse_positional_param_args raws definitions = do
    arguments ← positional_loop definitions raws []
    (if has_variadic_param (last? definitions)
        then ok arguments
        else extra_positional (get_elem? raws (length definitions)) arguments)

  unfoldable pub parse_task_arguments :
      Definitions E V → List (ParamDefinition E V) → List (List ℕ) → Result E (Arguments V)
  unfolding parse_task_param_arguments parse_positional_param_args spread
  parse_task_arguments definitions positional_definitions raws = do
    (arguments, raw_positional) ← parse_task_param_arguments definitions raws
    positional ← parse_positional_param_args raw_positional positional_definitions
    ok (spread arguments positional)

  -- The loop of `parseHardhatArguments`: before the task's name only Hardhat's own parameters are
  -- allowed, behind it all else is left to the task.
  unfoldable pub hardhat_loop :
      Definitions E V
      → Bool
      → List (List ℕ)
      → Arguments V
      → Option (List ℕ)
      → List (List ℕ)
      → Result E (Arguments V × Option (List ℕ) × List (List ℕ))
  unfolding is_cla_param_name parse_argument_at
  hardhat_loop definitions skip [] arguments task unparsed = ok (arguments, task, unparsed)
  hardhat_loop definitions true (arg ∷ raws) arguments task unparsed =
      hardhat_loop definitions false raws arguments task unparsed
  hardhat_loop definitions false (arg ∷ raws) arguments none unparsed =
      elim (starts_with_prefix arg) [
        | false ↦ hardhat_loop definitions false raws arguments (some arg) unparsed
        | true ↦ is_cla_param_name arg definitions >>= λ known. elim known [
          | false ↦ throws (unrecognized_command_line_arg arg)
          | true ↦ parse_argument_at arg raws definitions arguments >>= λ next.
              hardhat_loop definitions next.1 raws next.0 none unparsed
        ]
      ]
  hardhat_loop definitions false (arg ∷ raws) arguments (some task) unparsed =
      is_cla_param_name arg definitions >>= λ known. elim known [
        | false ↦ hardhat_loop definitions false raws arguments (some task) (unparsed ++ arg ∷ [])
        | true ↦ parse_argument_at arg raws definitions arguments >>= λ next.
            hardhat_loop definitions next.1 raws next.0 (some task) unparsed
      ]

  unfoldable pub parse_hardhat_arguments :
      Definitions E V
      → Arguments V
      → List (List ℕ)
      → Result E (Arguments V × Option (List ℕ) × List (List ℕ))
  unfolding hardhat_loop spread
  parse_hardhat_arguments definitions env_variable_arguments raws = do
    (arguments, task, unparsed) ← hardhat_loop definitions false raws [] none []
    ok (spread env_variable_arguments arguments, task, unparsed)
