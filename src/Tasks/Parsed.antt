-- ===== src/Tasks/Parsed.antt =====
-- What the parser of the command line gives to a task that was built by the methods.
use hardhat.Prelude.{ℕ, ◌≡◌, refl, Bool, List, [], ◌∷◌, Option, some, All}
use hardhat.Prelude.Dict.{lookup}
use hardhat.Cli.Arguments.{ArgumentValue, ParamDefinition, Arguments, parse_task_param_arguments}
use hardhat.Cli.Complete.{IsPresent, parse_task_param_arguments-AllTyped}
use hardhat.Cli.Names.{ok}
use hardhat.Cli.Typed.{AllTyped}
use hardhat.Tasks.Definitions.{built, Globals, TaskDefinition, init}
use hardhat.Tasks.WellFormed.{Call, calls, IsNamed, IsWellFormed, calls-IsWellFormed}

module _ {E V : Type 0} (lib : Globals E V) where
  init-IsWellFormed : (is_subtask : Bool) → IsWellFormed lib (init is_subtask)
  init-IsWellFormed is_subtask = record {
    own_names = tt;
    once = tt;
    named = tt;
    optional_last = tt;
    variadic_ends = tt;
    optional_known = refl;
    variadic_known = refl;
  }

  abbrev pub HasArgument : Arguments V → List ℕ × ParamDefinition E V → Type 0
  HasArgument arguments e = (o : Option (ArgumentValue V)) × (lookup e.0 arguments ≡ some o)

  all-HasArgument :
      (arguments : Arguments V) (definitions : List (List ℕ × ParamDefinition E V))
      → All (IsNamed lib) definitions
      → All (IsPresent E V lib.is_inherited arguments) definitions
      → All (HasArgument arguments) definitions
  all-HasArgument arguments [] n p = tt
  all-HasArgument arguments (e ∷ definitions) n p =
      (p.0 n.0.1, all-HasArgument arguments definitions n.1 p.1)

  -- For a task that any calls of the methods have built, none of which threw: the arguments that the
  -- task gets for its parameters that are not positional, unless the parser throws, are all of
  -- parameters that are defined, each with true for a flag, with a value that its type has parsed, or
  -- with its default where it is optional; and every parameter that is defined is among them.
  pub parse_built-AllTyped :
      (cs : List (Call E V)) (is_subtask : Bool) (t : TaskDefinition E V) (raws : List (List ℕ))
      (arguments : Arguments V) (positional : List (List ℕ))
      → calls lib cs (init is_subtask) ≡ built t
      → parse_task_param_arguments E V lib.is_inherited t.param_definitions raws
        ≡ ok (arguments, positional)
      → AllTyped E V lib.is_inherited t.param_definitions arguments
        × All (HasArgument arguments) t.param_definitions
  parse_built-AllTyped cs is_subtask t raws arguments positional h g =
      let w = calls-IsWellFormed lib cs (init is_subtask) t h (init-IsWellFormed is_subtask) in
      let (typed, present) =
        parse_task_param_arguments-AllTyped E V lib.is_inherited t.param_definitions raws arguments
          positional w.once g in
      (typed, all-HasArgument arguments t.param_definitions w.named present)
