-- ===== src/Tasks/Definitions.antt =====
-- The fields of SimpleTaskDefinition and its methods, but for the description and the action, which
-- are kept as they are given.
use hardhat.Prelude.{
  ℕ, Bool, true, false, ◌&&◌, ◌||◌, not, List, [], ◌∷◌, ◌++◌, ◌⊎◌, inl, inr, Option, none, some,
  any, list_beq, if◌then◌else◌,
}
use hardhat.Prelude.Dict.{lookup, store}
use hardhat.Cli.Arguments.{ArgumentValue, one, many, ParamDefinition, is_some}
use hardhat.Cli.Arguments
use hardhat.Cli.CamelCase.{is_alphanumeric}
use hardhat.Cli.Names.{is_lower}

pub data TaskError : Type 0 where
  default_value_wrong_type param_after_variadic param_already_defined : List ℕ → TaskError
  param_clashes_with_hardhat_param mandatory_param_after_optional : List ℕ → TaskError
  invalid_param_name_casing default_in_mandatory_param : List ℕ → TaskError
  cli_argument_type_required : TaskError

pub data Built (A : Type 0) : Type 0 where
  built : A → Built A
  throws : TaskError → Built A

infixl 5 ◌>>=◌ ◌>>◌
abbrev pub ◌>>=◌ : {A B : Type 0} → Built A → (A → Built B) → Built B
built a >>= f = f a
throws e >>= f = throws e

abbrev pub ◌>>◌ : {B : Type 0} → Built (Unit {0}) → Built B → Built B
built u >> k = k
throws e >> k = throws e

-- an error unless the test holds
abbrev pub require : Bool → TaskError → Built (Unit {0})
require true e = built tt
require false e = throws e

-- `is_cli` tells whether the type is one for the command line.
pub record ArgumentType (E V : Type 0) : Type 0 where
  pub is_cli : Bool
  pub parse : List ℕ → List ℕ → E ⊎ V

pub record TaskDefinition (E V : Type 0) : Type 0 where
  pub is_subtask : Bool
  pub param_definitions : Arguments.Definitions E V
  pub positional_param_definitions : List (ParamDefinition E V)
  pub positional_param_names : List (List ℕ)
  pub has_variadic_param : Bool
  pub has_optional_positional_param : Bool

abbrev pub init : {E V : Type 0} → Bool → TaskDefinition E V
init is_subtask = record {
  is_subtask = is_subtask;
  param_definitions = [];
  positional_param_definitions = [];
  positional_param_names = [];
  has_variadic_param = false;
  has_optional_positional_param = false;
}

abbrev pub every : (ℕ → Bool) → List ℕ → Bool
every p [] = true
every p (c ∷ cs) = p c && every p cs

-- /^[a-z]+([a-zA-Z0-9])*$/
abbrev pub has_param_name_casing : List ℕ → Bool
has_param_name_casing [] = false
has_param_name_casing (c ∷ cs) = is_lower c && every is_alphanumeric cs

abbrev pub contains : List ℕ → List (List ℕ) → Bool
contains name names = any (list_beq name) names

-- `types.string` and `types.boolean`, the value `false`, the values that are strings, the names of
-- Hardhat's own parameters, and the names that every object inherits
pub record Globals (E V : Type 0) : Type 0 where
  pub string_type : ArgumentType E V
  pub boolean_type : ArgumentType E V
  pub false_value : V
  pub is_string : V → Bool
  pub hardhat_params : List (List ℕ)
  pub is_inherited : List ℕ → Bool

module _ {E V : Type 0} (lib : Globals E V) where
  abbrev pub Task : Type 0
  Task = TaskDefinition E V

  -- `_hasParamDefined`
  abbrev pub has_param_defined : List ℕ → Task → Bool
  has_param_defined name t =
      lib.is_inherited name
      || is_some (lookup name t.param_definitions)
      || contains name t.positional_param_names

  unfoldable pub validate_name : List ℕ → Task → Built (Unit {0})
  validate_name name t = do
    require (has_param_name_casing name) (invalid_param_name_casing name)
    require (not (has_param_defined name t)) (param_already_defined name)
    require (not (contains name lib.hardhat_params)) (param_clashes_with_hardhat_param name)

  -- the checks of a default value and of a type
  unfoldable pub validate_default_and_type :
      List ℕ → Bool → Bool → ArgumentType E V → Task → Built (Unit {0})
  validate_default_and_type name has_default is_optional type t = do
    require (not has_default || is_optional) (default_in_mandatory_param name)
    require (t.is_subtask || type.is_cli) cli_argument_type_required

  unfoldable pub validate_position : List ℕ → Bool → Task → Built (Unit {0})
  validate_position name is_optional t = do
    require (not t.has_variadic_param) (param_after_variadic name)
    require (is_optional || not t.has_optional_positional_param)
        (mandatory_param_after_optional name)

  -- the type that was given, or that of strings if the default value may be one
  abbrev pub type_or_string : List ℕ → Bool → Option (ArgumentType E V) → Built (ArgumentType E V)
  type_or_string name may_be_string (some type) = built type
  type_or_string name may_be_string none =
      if may_be_string then built lib.string_type else throws (default_value_wrong_type name)

  abbrev pub is_string_or_none : Option V → Bool
  is_string_or_none none = true
  is_string_or_none (some v) = lib.is_string v

  abbrev pub one_or_none : Option V → Option (ArgumentValue V)
  one_or_none none = none
  one_or_none (some v) = some (one v)

  abbrev pub definition :
      List ℕ
      → Option (ArgumentValue V)
      → ArgumentType E V
      → Bool
      → Bool
      → Bool
      → ParamDefinition E V
  definition name default_value type is_optional is_flag is_variadic = record {
    name = name;
    is_flag = is_flag;
    is_optional = is_optional;
    is_variadic = is_variadic;
    default_value = default_value;
    parse = type.parse;
  }

  abbrev pub set_param : ParamDefinition E V → Task → Task
  set_param d t = record t { param_definitions = store d.name d t.param_definitions }

  unfoldable pub add_param :
      List ℕ → Option V → Option (ArgumentType E V) → Bool → Task → Built Task
  unfolding validate_name validate_default_and_type
  add_param name default_value type is_optional t = do
    type' ← type_or_string name (is_string_or_none default_value) type
    validate_name name t
    validate_default_and_type name (is_some default_value) is_optional type' t
    built (set_param (definition name (one_or_none default_value) type' is_optional false false) t)

  unfoldable pub add_flag : List ℕ → Task → Built Task
  unfolding validate_name
  add_flag name t = do
    validate_name name t
    built (
        set_param (definition name (some (one lib.false_value)) lib.boolean_type true true false) t)

  unfoldable pub add_positional_param_definition : ParamDefinition E V → Task → Task
  add_positional_param_definition d t = record t {
    has_variadic_param = d.is_variadic || t.has_variadic_param;
    has_optional_positional_param = d.is_optional || t.has_optional_positional_param;
    positional_param_names = t.positional_param_names ++ d.name ∷ [];
    positional_param_definitions = t.positional_param_definitions ++ d ∷ [];
  }

  -- what `addPositionalParam` and `addVariadicPositionalParam` have in common
  unfoldable pub add_positional :
      List ℕ
      → Option (ArgumentValue V)
      → Bool
      → Option (ArgumentType E V)
      → Bool
      → Bool
      → Task
      → Built Task
  unfolding validate_name validate_position validate_default_and_type
      add_positional_param_definition
  add_positional name default_value may_be_string type is_optional is_variadic t = do
    type' ← type_or_string name may_be_string type
    validate_name name t
    validate_position name is_optional t
    validate_default_and_type name (is_some default_value) is_optional type' t
    built (
        add_positional_param_definition
          (definition name default_value type' is_optional false is_variadic) t)

  unfoldable pub add_positional_param :
      List ℕ → Option V → Option (ArgumentType E V) → Bool → Task → Built Task
  unfolding add_positional
  add_positional_param name default_value type is_optional t =
      add_positional name (one_or_none default_value) (is_string_or_none default_value) type
        is_optional false t

  -- a default value that is no array is put into one
  abbrev pub many_or_none : Option (V ⊎ List V) → Option (List V)
  many_or_none none = none
  many_or_none (some (inl v)) = some (v ∷ [])
  many_or_none (some (inr vs)) = some vs

  abbrev pub are_strings : Option (List V) → Bool
  are_strings none = true
  are_strings (some vs) = not (any (λ v. not (lib.is_string v)) vs)

  abbrev pub array_or_none : Option (List V) → Option (ArgumentValue V)
  array_or_none none = none
  array_or_none (some vs) = some (many vs)

  unfoldable pub add_variadic_positional_param :
      List ℕ → Option (V ⊎ List V) → Option (ArgumentType E V) → Bool → Task → Built Task
  unfolding add_positional
  add_variadic_positional_param name default_value type is_optional t =
      let default_values = many_or_none default_value in
      add_positional name (array_or_none default_values) (are_strings default_values) type
        is_optional true t
