-- ===== src/Tasks/WellFormed.antt =====
-- The tasks that the methods build, in any order and number.
use hardhat.Prelude.{
  ℕ, ◌≡◌, sym, ap, subst, ◌∙◌, Bool, true, false, ◌||◌, not, List, [], ◌∷◌, ◌⊎◌, Option, none, some,
  any, inl, inr, Option-cases, All, arith,
}
use hardhat.Prelude.Dict.{lookup}
use hardhat.Cli.Arguments.{ArgumentValue, one, ParamDefinition, is_some}
use hardhat.Tasks.Building.{
  >>=-built, >>-built, any-append_one, PassLast, PassEnds, PassLast-append_one, PassEnds-append_one,
  IsFound, HaveOwnNames, HaveOwnNames-store, All-store, store-All-IsFound,
}
use hardhat.Tasks.Definitions.{
  Built, built, ◌>>=◌, ArgumentType, Globals, TaskDefinition, has_param_name_casing, validate_name,
  validate_default_and_type, validate_position, type_or_string, definition, set_param, add_param,
  add_flag, add_positional_param_definition, add_positional, add_positional_param,
  add_variadic_positional_param, is_string_or_none, one_or_none, many_or_none, are_strings,
  array_or_none,
}

-- a call of one of the methods that add a parameter
pub data Call (E V : Type 0) : Type 0 where
  param : List ℕ → Option V → Option (ArgumentType E V) → Bool → Call E V
  flag : List ℕ → Call E V
  positional : List ℕ → Option V → Option (ArgumentType E V) → Bool → Call E V
  variadic : List ℕ → Option (V ⊎ List V) → Option (ArgumentType E V) → Bool → Call E V

built_equal : {A : Type 0} {a b : A} → built a ≡ built b → a ≡ b
built_equal h = cc

module _ {E V : Type 0} (lib : Globals E V) where
  abbrev pub Task : Type 0
  Task = TaskDefinition E V

  unfoldable pub call : Call E V → Task → Built Task
  unfolding add_param add_flag add_positional_param add_variadic_positional_param
  call (param name v type o) t = add_param lib name v type o t
  call (flag name) t = add_flag lib name t
  call (positional name v type o) t = add_positional_param lib name v type o t
  call (variadic name v type o) t = add_variadic_positional_param lib name v type o t

  unfoldable pub calls : List (Call E V) → Task → Built Task
  unfolding call
  calls [] t = built t
  calls (c ∷ cs) t = do t' ← call c t; calls cs t'

  abbrev pub IsNamed : List ℕ × ParamDefinition E V → Type 0
  IsNamed e = (has_param_name_casing e.0 ≡ true) × (lib.is_inherited e.0 ≡ false)

  pub record IsWellFormed (t : Task) : Type 0 where
    -- each name stands once, in camel case, is inherited by no object, and finds its definition
    pub own_names : HaveOwnNames t.param_definitions
    pub once : All (IsFound t.param_definitions) t.param_definitions
    pub named : All IsNamed t.param_definitions
    -- the mandatory positional parameters come first, and a variadic one last
    pub optional_last : PassLast (λ d. d.is_optional) t.positional_param_definitions
    pub variadic_ends : PassEnds (λ d. d.is_variadic) t.positional_param_definitions
    pub optional_known :
        t.has_optional_positional_param ≡ any (λ d. d.is_optional) t.positional_param_definitions
    pub variadic_known :
        t.has_variadic_param ≡ any (λ d. d.is_variadic) t.positional_param_definitions

  -- what a name that passes the checks is
  record IsNew (name : List ℕ) (t : Task) : Type 0 where
    pub casing : has_param_name_casing name ≡ true
    pub own : lib.is_inherited name ≡ false
    pub absent : lookup name t.param_definitions ≡ none

  validate_name-IsNew :
      (name : List ℕ) (t : Task) → validate_name lib name t ≡ built tt → IsNew name t
  unfolding validate_name
  validate_name-IsNew name t h = record {
    casing = ground arith;
    own = ground arith;
    absent = elim (Option-cases (lookup name t.param_definitions)) [
      | inl e ↦ e
      | inr (d, e) ↦ absurd (ground arith)
    ];
  }

  validate_position-fits :
      (name : List ℕ) (o : Bool) (t : Task)
      → validate_position lib name o t ≡ built tt
      → ((o || not t.has_optional_positional_param) ≡ true) × (t.has_variadic_param ≡ false)
  unfolding validate_position
  validate_position-fits name o t h = (ground arith, ground arith)

  set_param-IsWellFormed :
      (d : ParamDefinition E V) (t : Task)
      → IsNew d.name t
      → IsWellFormed t
      → IsWellFormed (set_param lib d t)
  set_param-IsWellFormed d t n w = record {
    own_names = HaveOwnNames-store d.name d t.param_definitions n.absent w.own_names;
    once = store-All-IsFound d.name d t.param_definitions n.absent w.once;
    named = All-store IsNamed d.name d t.param_definitions n.absent w.named (n.casing, n.own);
    optional_last = w.optional_last;
    variadic_ends = w.variadic_ends;
    optional_known = w.optional_known;
    variadic_known = w.variadic_known;
  }

  add_definition-IsWellFormed :
      (d : ParamDefinition E V) (t : Task)
      → (d.is_optional || not t.has_optional_positional_param) ≡ true
      → t.has_variadic_param ≡ false
      → IsWellFormed t
      → IsWellFormed (add_positional_param_definition lib d t)
  unfolding add_positional_param_definition
  add_definition-IsWellFormed d t o v w = record {
    own_names = w.own_names;
    once = w.once;
    named = w.named;
    optional_last =
        PassLast-append_one (λ e. e.is_optional) t.positional_param_definitions d
          (ground (arith, w.optional_known)) w.optional_last;
    variadic_ends =
        PassEnds-append_one (λ e. e.is_variadic) t.positional_param_definitions d
          (sym w.variadic_known ∙ v) w.variadic_ends;
    optional_known =
        ap (λ b. d.is_optional || b) w.optional_known
        ∙ sym (any-append_one (λ e. e.is_optional) t.positional_param_definitions d);
    variadic_known =
        ap (λ b. d.is_variadic || b) w.variadic_known
        ∙ sym (any-append_one (λ e. e.is_variadic) t.positional_param_definitions d);
  }

  add_param-IsWellFormed :
      (name : List ℕ) (v : Option V) (type : Option (ArgumentType E V)) (o : Bool) (t t' : Task)
      → add_param lib name v type o t ≡ built t'
      → IsWellFormed t
      → IsWellFormed t'
  unfolding add_param
  add_param-IsWellFormed name v type o t t' h w =
      let (type', _, k) =
        >>=-built (type_or_string lib name (is_string_or_none lib v) type) _ t' h in
      let (valid, l) = >>-built (validate_name lib name t) _ t' k in
      let (_, done) = >>-built (validate_default_and_type lib name (is_some v) o type' t) _ t' l in
      let same : set_param lib (definition lib name (one_or_none lib v) type' o false false) t
          ≡ t' =
        built_equal done in
      subst IsWellFormed same (
        set_param-IsWellFormed (definition lib name (one_or_none lib v) type' o false false) t
          (validate_name-IsNew name t valid) w)

  add_flag-IsWellFormed :
      (name : List ℕ) (t t' : Task)
      → add_flag lib name t ≡ built t'
      → IsWellFormed t
      → IsWellFormed t'
  unfolding add_flag
  add_flag-IsWellFormed name t t' h w =
      let (valid, done) = >>-built (validate_name lib name t) _ t' h in
      subst IsWellFormed (built_equal done) (
        set_param-IsWellFormed
          (definition lib name (some (one lib.false_value)) lib.boolean_type true true false) t
          (validate_name-IsNew name t valid) w)

  add_positional-IsWellFormed :
      (name : List ℕ) (v : Option (ArgumentValue V)) (may : Bool) (type : Option (ArgumentType E V))
      (o many : Bool) (t t' : Task)
      → add_positional lib name v may type o many t ≡ built t'
      → IsWellFormed t
      → IsWellFormed t'
  unfolding add_positional
  add_positional-IsWellFormed name v may type o many t t' h w =
      let (type', _, k) = >>=-built (type_or_string lib name may type) _ t' h in
      let (_, l) = >>-built (validate_name lib name t) _ t' k in
      let (placed, m) = >>-built (validate_position lib name o t) _ t' l in
      let (_, done) = >>-built (validate_default_and_type lib name (is_some v) o type' t) _ t' m in
      let (first, ends) = validate_position-fits name o t placed in
      subst IsWellFormed (built_equal done)
        (add_definition-IsWellFormed (definition lib name v type' o false many) t first ends w)

  call-IsWellFormed :
      (c : Call E V) (t t' : Task) → call c t ≡ built t' → IsWellFormed t → IsWellFormed t'
  unfolding call add_positional_param add_variadic_positional_param
  call-IsWellFormed (param name v type o) t t' h w = add_param-IsWellFormed name v type o t t' h w
  call-IsWellFormed (flag name) t t' h w = add_flag-IsWellFormed name t t' h w
  call-IsWellFormed (positional name v type o) t t' h w =
      add_positional-IsWellFormed name (one_or_none lib v) (is_string_or_none lib v) type o false t
        t' h w
  call-IsWellFormed (variadic name v type o) t t' h w =
      add_positional-IsWellFormed name (array_or_none lib (many_or_none lib v))
        (are_strings lib (many_or_none lib v)) type o true t t' h w

  -- Any calls of the methods that add parameters, in any order, unless one of them throws, keep of a
  -- task: no two parameters that are not positional have the same name, and each is found by its name, is in camel case with a small
  -- letter first, and is inherited by no object; no mandatory positional parameter stands behind an
  -- optional one, and none behind a variadic one.
  pub calls-IsWellFormed :
      (cs : List (Call E V)) (t t' : Task)
      → calls cs t ≡ built t'
      → IsWellFormed t
      → IsWellFormed t'
  unfolding calls
  calls-IsWellFormed [] t t' h w = subst IsWellFormed (built_equal h) w
  calls-IsWellFormed (c ∷ cs) t t' h w =
      let (u, one_call, rest) = >>=-built (call c t) (calls cs) t' h in
      calls-IsWellFormed cs u t' rest (call-IsWellFormed c t u one_call w)
