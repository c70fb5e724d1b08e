-- ===== src/Cli/Complete.antt =====
-- The defaults of a task's arguments, and what the parser answers as a whole.
use hardhat.Prelude.{
  ℕ, ◌≡◌, refl, sym, ap, subst, ◌∙◌, Bool, true, false, List, [], ◌∷◌, inl, inr, Option, some, All,
  list_beq, list_beq_iff, Bool-cases, Option-cases, arith,
}
use hardhat.Prelude.Dict.{lookup, store, lookup-store}
use hardhat.Cli.Names.{
  ArgumentError, repeated_param, missing_task_argument, Result, ok, throws, ◌>>=◌,
  cla_to_param_name, param_name_to_cla,
}
use hardhat.Cli.Arguments.{
  ArgumentValue, ParamDefinition, starts_with_prefix, Definitions, Arguments, is_given,
  is_cla_param_name, parse_argument_at, param_loop, add_task_default_arguments,
  parse_task_param_arguments, parse_task_arguments,
}
use hardhat.Cli.Typed.{
  behind, if_known, loop-named, >>=-ok, as_default, AllTyped, store-AllTyped, param_loop-AllTyped,
}

module _ (E V : Type 0) (is_inherited : List ℕ → Bool) where
  abbrev Entry : Type 0
  Entry = List ℕ × ParamDefinition E V

  -- an entry is what its name is looked up as
  abbrev pub IsFirst : Definitions E V → Entry → Type 0
  IsFirst definitions e = lookup e.0 definitions ≡ some e.1

  -- there is an argument for the parameter, unless every object inherits its name
  abbrev pub IsPresent : Arguments V → Entry → Type 0
  IsPresent arguments e =
      is_inherited e.0 ≡ false → (o : Option (ArgumentValue V)) × (lookup e.0 arguments ≡ some o)

  module _ (name : List ℕ) (definition : ParamDefinition E V) (definitions : Definitions E V)
      (arguments : Arguments V) where
    add-given :
        is_given E V is_inherited name arguments ≡ true
        → add_task_default_arguments E V is_inherited ((name, definition) ∷ definitions) arguments
          ≡ add_task_default_arguments E V is_inherited definitions arguments
    unfolding add_task_default_arguments
    add-given g = ground arith

    add-default :
        is_given E V is_inherited name arguments ≡ false
        → definition.is_optional ≡ true
        → add_task_default_arguments E V is_inherited ((name, definition) ∷ definitions) arguments
          ≡ add_task_default_arguments E V is_inherited definitions
              (store name definition.default_value arguments)
    unfolding add_task_default_arguments
    add-default g o = ground arith

    add-missing :
        is_given E V is_inherited name arguments ≡ false
        → definition.is_optional ≡ false
        → add_task_default_arguments E V is_inherited ((name, definition) ∷ definitions) arguments
          ≡ throws (missing_task_argument (param_name_to_cla name))
    unfolding add_task_default_arguments
    add-missing g o = ground arith

  store-IsPresent :
      (name k : List ℕ) (o p : Option (ArgumentValue V)) (arguments : Arguments V)
      → lookup k arguments ≡ some p
      → (q : Option (ArgumentValue V)) × (lookup k (store name o arguments) ≡ some q)
  store-IsPresent name k o p arguments h = elim (Bool-cases (list_beq name k)) [
    | inl e ↦ (o, ground (arith, lookup-store name k o arguments))
    | inr e ↦ (p, ground (arith, lookup-store name k o arguments))
  ]

  given-present :
      (name : List ℕ) (arguments : Arguments V)
      → is_given E V is_inherited name arguments ≡ true
      → is_inherited name ≡ false
      → (o : Option (ArgumentValue V)) × (lookup name arguments ≡ some o)
  given-present name arguments g i = elim (Option-cases (lookup name arguments)) [
    | inl e ↦ absurd (ground arith)
    | inr (o, e) ↦ (o, e)
  ]

  -- what adding the defaults of some definitions makes of the arguments
  record Added (definitions rest : Definitions E V) (before after : Arguments V) : Type 0 where
    pub all_typed : AllTyped E V is_inherited definitions after
    pub kept :
        (k : List ℕ) (o : Option (ArgumentValue V))
        → lookup k before ≡ some o
        → (p : Option (ArgumentValue V)) × (lookup k after ≡ some p)
    pub present : All (IsPresent after) rest

  add-Added :
      (definitions rest : Definitions E V) (arguments after : Arguments V)
      → All (IsFirst definitions) rest
      → add_task_default_arguments E V is_inherited rest arguments ≡ ok after
      → AllTyped E V is_inherited definitions arguments
      → Added definitions rest arguments after
  unfolding add_task_default_arguments
  add-Added definitions [] arguments after f h t =
      let same : arguments ≡ after = ground arith in
      subst (λ a. Added definitions [] arguments a) same
        (record { all_typed = t; kept = λ k o e. (o, e); present = tt })
  add-Added definitions ((name, d) ∷ rest) arguments after f h t =
      elim (Bool-cases (is_given E V is_inherited name arguments)) [
        | inl g ↦
            let a =
              add-Added definitions rest arguments after f.1
                (sym (add-given name d rest arguments g) ∙ h) t in
            record {
              all_typed = a.all_typed;
              kept = a.kept;
              present = (
                (λ i. let (o, e) = given-present name arguments g i in a.kept name o e),
                a.present,
              );
            }
        | inr g ↦ elim (Bool-cases d.is_optional) [
          | inr q ↦ absurd (throws_ok (sym (add-missing name d rest arguments g q) ∙ h))
          | inl q ↦
              let stored = store name d.default_value arguments in
              let a =
                add-Added definitions rest stored after f.1
                  (sym (add-default name d rest arguments g q) ∙ h)
                  (store-AllTyped E V is_inherited definitions arguments name d.default_value d f.0
                    (as_default q refl) t) in
              record {
                all_typed = a.all_typed;
                kept = λ k o e.
                    let (p, e') = store-IsPresent name k d.default_value o arguments e in
                    a.kept k p e';
                present = (
                  (λ i. a.kept name d.default_value (
                      ground (
                        arith,
                        list_beq_iff name name,
                        lookup-store name name d.default_value arguments,
                      ))),
                  a.present,
                );
              }
        ]
      ]
    where
      throws_ok :
          {e : ArgumentError E} {r : Arguments V}
          → ◌≡◌ {A = Result E (Arguments V)} (throws e) (ok r)
          → ⊥
      throws_ok h = cc

  -- Where the definitions have each name once: the arguments that a task gets for its parameters,
  -- unless the parser throws, are all of parameters that are defined, each with true for a flag, with
  -- a value that its type has parsed, or with its default where it is optional; and every parameter
  -- that is defined, but for those whose name every object inherits, is among them.
  pub parse_task_param_arguments-AllTyped :
      (definitions : Definitions E V) (raws : List (List ℕ)) (arguments : Arguments V)
      (positional : List (List ℕ))
      → All (IsFirst definitions) definitions
      → parse_task_param_arguments E V is_inherited definitions raws ≡ ok (arguments, positional)
      → AllTyped E V is_inherited definitions arguments × All (IsPresent arguments) definitions
  unfolding parse_task_param_arguments
  parse_task_param_arguments-AllTyped definitions raws arguments positional f h =
      let (r, looped, g) =
        >>=-ok (param_loop E V is_inherited definitions false raws [] []) _ (arguments, positional)
          h in
      let (all, added, same) =
        >>=-ok (add_task_default_arguments E V is_inherited definitions r.0) _
          (arguments, positional) g in
      let a = add-Added definitions definitions r.0 all f added (
        param_loop-AllTyped E V is_inherited definitions false raws [] [] r looped
          (record { typed = λ name o e. absurd (cc) })) in
      let equal : all ≡ arguments = ground arith in
      (
        subst (AllTyped E V is_inherited definitions) equal a.all_typed,
        subst (λ b. All (IsPresent b) definitions) equal a.present,
      )

  known_inherited :
      (definitions : Definitions E V) (cla name : List ℕ)
      → starts_with_prefix cla ≡ true
      → ◌≡◌ {A = Result E (List ℕ)} (cla_to_param_name cla) (ok name)
      → is_inherited name ≡ true
      → is_cla_param_name E V is_inherited cla definitions ≡ ok true
  unfolding is_cla_param_name
  known_inherited definitions cla name p e i = ground arith

  refused_inherited :
      (definitions : Definitions E V) (cla name : List ℕ) (raws : List (List ℕ))
      (arguments : Arguments V)
      → ◌≡◌ {A = Result E (List ℕ)} (cla_to_param_name cla) (ok name)
      → is_inherited name ≡ true
      → parse_argument_at E V is_inherited cla raws definitions arguments
        ≡ throws (repeated_param cla)
  unfolding parse_argument_at
  refused_inherited definitions cla name raws arguments e i = ground arith

  loop_inherited :
      (definitions : Definitions E V) (cla name : List ℕ) (raws : List (List ℕ))
      → starts_with_prefix cla ≡ true
      → ◌≡◌ {A = Result E (List ℕ)} (cla_to_param_name cla) (ok name)
      → is_inherited name ≡ true
      → param_loop E V is_inherited definitions false (cla ∷ raws) [] []
        ≡ throws (repeated_param cla)
  loop_inherited definitions cla name raws p e i =
      loop-named E V is_inherited definitions cla raws [] [] p
      ∙ ap (λ r. r >>= if_known E V is_inherited definitions cla raws [] [])
          (known_inherited definitions cla name p e i)
      ∙ ap (λ r. r >>= behind E V is_inherited definitions cla raws [] [])
          (refused_inherited definitions cla name raws [] e i)

  -- A name that every object inherits, given once, in front of all else and in the form of a
  -- parameter, is refused as given twice, whatever parameters are defined.
  pub parse_task_arguments-inherited :
      (definitions : Definitions E V) (positional_definitions : List (ParamDefinition E V))
      (cla name : List ℕ) (raws : List (List ℕ))
      → starts_with_prefix cla ≡ true
      → ◌≡◌ {A = Result E (List ℕ)} (cla_to_param_name cla) (ok name)
      → is_inherited name ≡ true
      → parse_task_arguments E V is_inherited definitions positional_definitions (cla ∷ raws)
        ≡ throws (repeated_param cla)
  unfolding parse_task_arguments parse_task_param_arguments
  parse_task_arguments-inherited definitions positional_definitions cla name raws p e i =
      rw (loop_inherited definitions cla name raws p e i) refl
