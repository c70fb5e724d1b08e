-- ===== src/Examples/ArgumentRuns.antt =====
-- A task with a flag, a parameter with a value and one with a default, and its command lines.
use hardhat.Prelude.{
  ℕ, ◌≡◌, refl, Bool, true, false, List, [], ◌∷◌, inl, inr, ◌⊎◌, Option, none, some, All, list_beq,
}
use hardhat.Cli.Names.{
  Result, ok, throws, repeated_param, split_dashes, param_name_to_cla, cla_to_param_name,
}
use hardhat.Cli.Arguments.{
  ArgumentValue, flag_set, one, ParamDefinition, Definitions, Arguments, is_cla_param_name,
  parse_argument_at, param_loop, add_task_default_arguments, parse_task_param_arguments,
  parse_task_arguments,
}
use hardhat.Cli.CamelCase.{cla_to_param_name-param_name_to_cla}
use hardhat.Cli.Complete.{parse_task_arguments-inherited}
use hardhat.Cli.Typed.{AllTyped}
use hardhat.Tasks.Definitions.{
  Globals, TaskDefinition, built, init, add_param, add_flag, add_positional_param,
  add_variadic_positional_param, add_positional, add_positional_param_definition, validate_name,
  validate_default_and_type, validate_position,
}
use hardhat.Tasks.Parsed.{HasArgument, parse_built-AllTyped}
use hardhat.Tasks.WellFormed.{
  Call, param, flag, positional, variadic, call, calls, IsWellFormed, calls-IsWellFormed,
}

-- "runTests2"
abbrev run_tests : List ℕ
run_tests = 114 ∷ 117 ∷ 110 ∷ 84 ∷ 101 ∷ 115 ∷ 116 ∷ 115 ∷ 50 ∷ []

cla_to_param_name-param_name_to_cla_example :
    ◌≡◌ {A = Result ℕ (List ℕ)} (cla_to_param_name (param_name_to_cla run_tests)) (ok run_tests)
cla_to_param_name-param_name_to_cla_example =
    cla_to_param_name-param_name_to_cla 114 (117 ∷ 110 ∷ 84 ∷ 101 ∷ 115 ∷ 116 ∷ 115 ∷ 50 ∷ []) refl
      (refl, (refl, (refl, (refl, (refl, (refl, (refl, (refl, tt))))))))

-- a value is a letter, and parsed as its code
abbrev parse_letter : List ℕ → List ℕ → ℕ ⊎ ℕ
parse_letter name [] = inl 0
parse_letter name (c ∷ cs) = inr c

-- "constructor" and no other
abbrev constructor_text : List ℕ
constructor_text = 99 ∷ 111 ∷ 110 ∷ 115 ∷ 116 ∷ 114 ∷ 117 ∷ 99 ∷ 116 ∷ 111 ∷ 114 ∷ []

-- "help" is a parameter of Hardhat's own
abbrev globals : Globals ℕ ℕ
globals = record {
  string_type = record { is_cli = true; parse = parse_letter };
  boolean_type = record { is_cli = true; parse = parse_letter };
  false_value = 0;
  is_string = λ v. true;
  hardhat_params = (104 ∷ 101 ∷ 108 ∷ 112 ∷ []) ∷ [];
  is_inherited = λ name. list_beq name constructor_text;
}

-- "q", "t" and "f"
abbrev building : List (Call ℕ ℕ)
building =
    flag (113 ∷ [])
    ∷ param (116 ∷ []) none none false
    ∷ param (102 ∷ []) (some 7) none true
    ∷ positional (97 ∷ []) none none false
    ∷ variadic (98 ∷ []) none none true
    ∷ []

abbrev parameter : List ℕ → Bool → Bool → Option (ArgumentValue ℕ) → ParamDefinition ℕ ℕ
parameter name is_flag is_optional default_value = record {
  name = name;
  is_flag = is_flag;
  is_optional = is_optional;
  is_variadic = false;
  default_value = default_value;
  parse = parse_letter;
}

abbrev definitions : Definitions ℕ ℕ
definitions =
    (113 ∷ [], parameter (113 ∷ []) true true (some (one 0)))
    ∷ (116 ∷ [], parameter (116 ∷ []) false false none)
    ∷ (102 ∷ [], parameter (102 ∷ []) false true (some (one 7)))
    ∷ []

abbrev task : TaskDefinition ℕ ℕ
task = record {
  is_subtask = false;
  param_definitions = definitions;
  positional_param_definitions =
      parameter (97 ∷ []) false false none
      ∷ record (parameter (98 ∷ []) false true none) { is_variadic = true }
      ∷ [];
  positional_param_names = (97 ∷ []) ∷ (98 ∷ []) ∷ [];
  has_variadic_param = true;
  has_optional_positional_param = true;
}

task_is_built : calls globals building (init false) ≡ built task
unfolding calls call add_param add_flag add_positional_param add_variadic_positional_param
    add_positional add_positional_param_definition validate_name validate_default_and_type
    validate_position
task_is_built = refl

calls-IsWellFormed_example : IsWellFormed globals task
calls-IsWellFormed_example =
    calls-IsWellFormed globals building (init false) task task_is_built (record {
      own_names = tt;
      once = tt;
      named = tt;
      optional_last = tt;
      variadic_ends = tt;
      optional_known = refl;
      variadic_known = refl;
    })

-- "--t x a --q"
abbrev command_line : List (List ℕ)
command_line = (45 ∷ 45 ∷ 116 ∷ []) ∷ (120 ∷ []) ∷ (97 ∷ []) ∷ (45 ∷ 45 ∷ 113 ∷ []) ∷ []

abbrev parsed : Arguments ℕ
parsed = (116 ∷ [], some (one 120)) ∷ (113 ∷ [], some flag_set) ∷ (102 ∷ [], some (one 7)) ∷ []

command_line_is_parsed :
    parse_task_param_arguments ℕ ℕ globals.is_inherited definitions command_line
    ≡ ok (parsed, (97 ∷ []) ∷ [])
unfolding parse_task_param_arguments param_loop add_task_default_arguments is_cla_param_name
    parse_argument_at cla_to_param_name split_dashes
command_line_is_parsed = refl

parse_built-AllTyped_example :
    AllTyped ℕ ℕ globals.is_inherited definitions parsed
    × All (HasArgument globals parsed) definitions
parse_built-AllTyped_example =
    parse_built-AllTyped globals building false task command_line parsed ((97 ∷ []) ∷ [])
      task_is_built command_line_is_parsed

-- "--constructor"
parse_task_arguments-inherited_example :
    parse_task_arguments ℕ ℕ globals.is_inherited definitions [] ((45 ∷ 45 ∷ constructor_text) ∷ [])
    ≡ throws (repeated_param (45 ∷ 45 ∷ constructor_text))
unfolding cla_to_param_name split_dashes
parse_task_arguments-inherited_example =
    parse_task_arguments-inherited ℕ ℕ globals.is_inherited definitions []
      (45 ∷ 45 ∷ constructor_text) constructor_text [] refl refl refl
