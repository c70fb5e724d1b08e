-- ===== src/Cli/Typed.antt =====
-- The arguments that the parser gives to a task.
use hardhat.Prelude.{
  ℕ, ◌≡◌, refl, sym, ap, subst, ◌∙◌, Bool, true, false, List, [], ◌∷◌, ◌++◌, inl, inr, Option, none,
  some, list_beq, list_beq_iff, Bool-cases, arith,
}
use mathlib.Core.Path.{fun_ext}
use hardhat.Prelude.Dict.{lookup, store, lookup-store}
use hardhat.Cli.Names.{unrecognized_param_name, Result, ok, throws, ◌>>=◌, cla_to_param_name}
use hardhat.Cli.Arguments.{
  ArgumentValue, flag_set, one, ParamDefinition, starts_with_prefix, Definitions, Arguments, first?,
  is_cla_param_name, run_parse, parse_value, use_definition, parse_argument_at, param_loop,
}

pub >>=-ok :
    {E A B : Type 0} (m : Result E A) (f : A → Result E B) (b : B)
    → (m >>= f) ≡ ok b
    → (a : A) × (m ≡ ok a) × (f a ≡ ok b)
>>=-ok (ok a) f b h = (a, refl, h)
>>=-ok (throws e) f b h = cc

module _ (E V : Type 0) (is_inherited : List ℕ → Bool) where
  -- a value that the definition of a parameter allows
  pub data IsValue (definition : ParamDefinition E V) (name : List ℕ) (o : Option (ArgumentValue V))
      : Type 0 where
    as_flag : definition.is_flag ≡ true → o ≡ some flag_set → IsValue definition name o
    as_parsed :
        (raw : List ℕ) (v : V)
        → definition.is_flag ≡ false
        → definition.parse name raw ≡ inr v
        → o ≡ some (one v)
        → IsValue definition name o
    as_default :
        definition.is_optional ≡ true → o ≡ definition.default_value → IsValue definition name o

  -- every argument is of a parameter that is defined, and has a value that it allows
  pub record AllTyped (definitions : Definitions E V) (arguments : Arguments V) : Type 0 where
    pub typed :
        (name : List ℕ) (o : Option (ArgumentValue V))
        → lookup name arguments ≡ some o
        → (definition : ParamDefinition E V) × (lookup name definitions ≡ some definition)
          × IsValue definition name o

  pub store-AllTyped :
      (definitions : Definitions E V) (arguments : Arguments V) (name : List ℕ)
      (o : Option (ArgumentValue V)) (definition : ParamDefinition E V)
      → lookup name definitions ≡ some definition
      → IsValue definition name o
      → AllTyped definitions arguments
      → AllTyped definitions (store name o arguments)
  store-AllTyped definitions arguments name o definition d v t = record {
    typed = λ k p h. elim (Bool-cases (list_beq name k)) [
      | inl e ↦
          let same = (list_beq_iff name k).0 e in
          let stored : some o ≡ some p = ground (arith, lookup-store name k o arguments) in
          (
            definition,
            subst (λ n. lookup n definitions ≡ some definition) same d,
            subst (λ n. IsValue definition n p) same
                (subst (IsValue definition name) (some-equal stored) v),
          )
      | inr e ↦ t.typed k p (ground (arith, lookup-store name k o arguments))
    ];
  }
    where
      some-equal : {a b : Option (ArgumentValue V)} → some a ≡ some b → a ≡ b
      some-equal h = cc

  parse-inr :
      (definition : ParamDefinition E V) (name raw : List ℕ) (v : V)
      → run_parse E V is_inherited definition name raw ≡ ok v
      → definition.parse name raw ≡ inr v
  parse-inr definition name raw v h = ground arith

  use_definition-AllTyped :
      (definitions : Definitions E V) (o : Option (ParamDefinition E V)) (name : List ℕ)
      (raws : List (List ℕ)) (arguments : Arguments V) (next : Arguments V × Bool)
      → lookup name definitions ≡ o
      → use_definition E V is_inherited o name raws arguments ≡ ok next
      → AllTyped definitions arguments
      → AllTyped definitions next.0
  use_definition-AllTyped definitions none name raws arguments next d h t = cc
  use_definition-AllTyped definitions (some definition) name raws arguments next d h t =
      elim (Bool-cases definition.is_flag) [
        | inl e ↦
            let same : store name (some flag_set) arguments ≡ next.0 = ground arith in
            subst (AllTyped definitions) same (
              store-AllTyped definitions arguments name (some flag_set) definition d
                (as_flag e refl) t)
        | inr e ↦ valued raws e (ground arith)
      ]
    where
      valued :
          (rs : List (List ℕ))
          → definition.is_flag ≡ false
          → parse_value E V is_inherited definition name (first? rs) arguments ≡ ok next
          → AllTyped definitions next.0
      valued [] e g = cc
      valued (raw ∷ rs) e g =
          let (v, p, stored) =
            >>=-ok (run_parse E V is_inherited definition name raw)
              (λ v. ok (store name (some (one v)) arguments, true)) next g in
          let same : store name (some (one v)) arguments ≡ next.0 = ground arith in
          subst (AllTyped definitions) same (
            store-AllTyped definitions arguments name (some (one v)) definition d
              (as_parsed raw v e (parse-inr definition name raw v p) refl) t)

  parse_argument_at-AllTyped :
      (cla : List ℕ) (raws : List (List ℕ)) (definitions : Definitions E V)
      (arguments : Arguments V) (next : Arguments V × Bool)
      → parse_argument_at E V is_inherited cla raws definitions arguments ≡ ok next
      → AllTyped definitions arguments
      → AllTyped definitions next.0
  unfolding parse_argument_at
  parse_argument_at-AllTyped cla raws definitions arguments next h t =
      let (name, _, used) = >>=-ok (cla_to_param_name cla) _ next h in
      use_definition-AllTyped definitions (lookup name definitions) name raws arguments next refl
        (ground (arith, used)) t

  loop-positional :
      (definitions : Definitions E V) (arg : List ℕ) (raws : List (List ℕ))
      (arguments : Arguments V) (positional : List (List ℕ))
      → starts_with_prefix arg ≡ false
      → param_loop E V is_inherited definitions false (arg ∷ raws) arguments positional
        ≡ param_loop E V is_inherited definitions false raws arguments (positional ++ arg ∷ [])
  unfolding param_loop
  loop-positional definitions arg raws arguments positional e = ground arith

  module _ (definitions : Definitions E V) (arg : List ℕ) (raws : List (List ℕ))
      (arguments : Arguments V) (positional : List (List ℕ)) where
    abbrev pub Parsed : Type 0
    Parsed = Result E (Arguments V × List (List ℕ))

    -- what follows the argument of a parameter
    abbrev pub behind : Arguments V × Bool → Parsed
    behind next = param_loop E V is_inherited definitions next.1 raws next.0 positional

    abbrev pub if_known : Bool → Parsed
    if_known false = throws (unrecognized_param_name arg)
    if_known true = parse_argument_at E V is_inherited arg raws definitions arguments >>= behind

    pub loop-named :
        starts_with_prefix arg ≡ true
        → param_loop E V is_inherited definitions false (arg ∷ raws) arguments positional
          ≡ (is_cla_param_name E V is_inherited arg definitions >>= if_known)
    unfolding param_loop
    loop-named e =
        subst
          (λ (s : Bool).
            (elim s as (λ x. Parsed) [
              | false ↦
                  param_loop E V is_inherited definitions false raws arguments
                    (positional ++ arg ∷ [])
              | true ↦ is_cla_param_name E V is_inherited arg definitions >>= λ known. elim known [
                | false ↦ throws (unrecognized_param_name arg)
                | true ↦
                    parse_argument_at E V is_inherited arg raws definitions arguments >>= behind
              ]
            ])
            ≡ (is_cla_param_name E V is_inherited arg definitions >>= if_known))
          (sym e)
          (ap (λ f. is_cla_param_name E V is_inherited arg definitions >>= f)
            (fun_ext (λ b. either b)))
      where
        either :
            (known : Bool)
            → elim known [
              | false ↦ throws (unrecognized_param_name arg)
              | true ↦ parse_argument_at E V is_inherited arg raws definitions arguments >>= behind
            ]
              ≡ if_known known
        either true = refl
        either false = refl

    known-true :
        (known : Bool) (r : Arguments V × List (List ℕ))
        → if_known known ≡ ok r
        → (next : Arguments V × Bool) × (parse_argument_at E V is_inherited arg raws definitions
              arguments
            ≡ ok next)
          × (behind next ≡ ok r)
    known-true false r h = cc
    known-true true r h =
        >>=-ok (parse_argument_at E V is_inherited arg raws definitions arguments) behind r h

    loop-next :
        (r : Arguments V × List (List ℕ))
        → starts_with_prefix arg ≡ true
        → param_loop E V is_inherited definitions false (arg ∷ raws) arguments positional ≡ ok r
        → (next : Arguments V × Bool) × (parse_argument_at E V is_inherited arg raws definitions
              arguments
            ≡ ok next)
          × (behind next ≡ ok r)
    loop-next r e h =
        let (known, _, g) =
          >>=-ok (is_cla_param_name E V is_inherited arg definitions) if_known r
            (sym (loop-named e) ∙ h) in
        known-true known r g

  pub param_loop-AllTyped :
      (definitions : Definitions E V) (skip : Bool) (raws : List (List ℕ)) (arguments : Arguments V)
      (positional : List (List ℕ)) (r : Arguments V × List (List ℕ))
      → param_loop E V is_inherited definitions skip raws arguments positional ≡ ok r
      → AllTyped definitions arguments
      → AllTyped definitions r.0
  unfolding param_loop
  param_loop-AllTyped definitions skip [] arguments positional r h t =
      let same : arguments ≡ r.0 = ground arith in subst (AllTyped definitions) same t
  param_loop-AllTyped definitions true (arg ∷ raws) arguments positional r h t =
      param_loop-AllTyped definitions false raws arguments positional r h t
  param_loop-AllTyped definitions false (arg ∷ raws) arguments positional r h t =
      elim (Bool-cases (starts_with_prefix arg)) [
        | inr e ↦
            param_loop-AllTyped definitions false raws arguments (positional ++ arg ∷ []) r
              (sym (loop-positional definitions arg raws arguments positional e) ∙ h) t
        | inl e ↦
            let (next, p, rest) = loop-next definitions arg raws arguments positional r e h in
            param_loop-AllTyped definitions next.1 raws next.0 positional r rest
              (parse_argument_at-AllTyped arg raws definitions arguments next p t)
      ]
