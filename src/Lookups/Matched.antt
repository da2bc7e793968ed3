-- ===== src/Lookups/Matched.antt =====
-- Placeholders and arguments of the lookups of src/expr/lookups_base.go.
use go_django_queries.Prelude.{
  Bool, false, Option, none, some, List, [], ◌∷◌, ◌++◌, Text, codes, lookup, text_eq, map, length,
  All, All-append, ◌≡◌, refl, ◌∙◌, subst, arith,
}
use go_django_queries.Expressions.Placeholders.{count, count-append, IsMatched}
use go_django_queries.Compiler.{Sql, say, separated, placeholder}
use go_django_queries.Compiler.Like.{DriverName}
use go_django_queries.Compiler.Matched.{IsPlain, <>-IsMatched, separated-IsMatched}
use go_django_queries.Lookups.{
  Argument, expression, plain, Values, Kind, logical, pattern, is_null, in_list, range, formatted,
  with_text, paid, logical_rhs, with_value, resolve_logical, resolve_pattern, resolve_null,
  in_value, resolve_in, resolve_range, resolve_kind, resolve_lookup,
}
use go_django_queries.Compiler.Like.{prep_for_like_query}
use go_django_queries.Lookups.Arguments.{
  RawArgument, raw_expression, raw, Normalizer, normalize_logical, like_argument, string_argument,
  normalize_pattern, null_argument, null_of, normalize_null, classified, first_classified,
  flatten_list, normalize_in, as_argument, normalize_args,
}
use go_django_queries.Prelude.{Result, panic, out_of_fuel, err, ok}
use go_django_queries.Lookups.Operators.{
  format_lookup_col, Format, equality, math, equality_format, math_op_format, format_with,
  format_logical_op_rhs, logical_operators, format_op_rhs, pattern_op_rhs,
}
use go_django_queries.Lookups.Formats.{
  Keeps, IsOne, column-IsOne, format_lookup_col-Keeps, logical_rhs-Keeps, pattern_op_rhs-Keeps,
  format_op_rhs-Keeps, equality_format-count, null_test-IsMatched,
}

module _ {A : Type 0} where
  with_text-IsMatched :
      (o : Option Text) (text : Text) (args : List A)
      → ((u : Text) → o ≡ some u → count b'?' u ≡ count b'?' text)
      → count b'?' text ≡ length args
      → IsMatched (with_text o args)
  with_text-IsMatched none text args k h = tt
  with_text-IsMatched (some u) text args k h = k u refl ∙ h

  formatted-IsMatched :
      (f : Text → Option Text) (s : Sql A) → Keeps f → IsMatched s → IsMatched (formatted f s)
  formatted-IsMatched f none k h = tt
  formatted-IsMatched f (some (text, args)) k h = with_text-IsMatched (f text) text args (k text) h

  paid-IsMatched : (o : Option Text) (a : Option A) → IsOne o → IsMatched (paid o a)
  paid-IsMatched none a h = tt
  paid-IsMatched (some t) none h = tt
  paid-IsMatched (some t) (some a) h = h t refl

  format_with-IsMatched :
      (o : Option Format) (op : Text) (v : A) (t : Text)
      → IsPlain op
      → count b'?' t ≡ 1
      → IsMatched (format_with o op t (v ∷ []))
  unfolding equality_format math_op_format count
  format_with-IsMatched none op v t h k = tt
  format_with-IsMatched (some equality) op v t h k = omega (arith, equality_format-count op t h)
  format_with-IsMatched (some math) op v t h k = omega (
    arith,
    equality_format-count op (t ++ (codes " = " ++ t)) h,
    count-append b'?' t (codes " = " ++ t),
  )

  with_value-IsMatched :
      (op : Text) (v : A) (o : Option Text) → IsPlain op → IsOne o → IsMatched (with_value op v o)
  unfolding format_logical_op_rhs
  with_value-IsMatched op v none h k = tt
  with_value-IsMatched op v (some t) h k =
      format_with-IsMatched (lookup op logical_operators) op v t h (k t refl)

-- An argument whose SQL has a placeholder for each of its arguments.
abbrev pub IsSoundArgument : {A : Type 0} → Argument A → Type 0
IsSoundArgument (expression s) = IsMatched s
IsSoundArgument (plain v) = Unit {0}

-- The operator of a logical lookup has no placeholder.
abbrev pub IsPlainKind : Kind → Type 0
IsPlainKind (logical op) = IsPlain op
IsPlainKind (pattern format) = Unit {0}
IsPlainKind is_null = Unit {0}
IsPlainKind in_list = Unit {0}
IsPlainKind range = Unit {0}

module _ {A : Type 0} (values : Values A) (d : DriverName) (name : Text)
    (known : text_eq name (codes "iregex") ≡ false) where
  resolve_logical-IsMatched :
      (op : Text) (args : List (Argument A))
      → IsPlain op
      → All IsSoundArgument args
      → IsMatched (resolve_logical values d name op args)
  unfolding resolve_logical
  resolve_logical-IsMatched op [] h k = tt
  resolve_logical-IsMatched op (expression s ∷ args) h k =
      formatted-IsMatched (logical_rhs op) _ (logical_rhs-Keeps op h)
        (formatted-IsMatched (format_lookup_col d name) s (format_lookup_col-Keeps d name) k.0)
  resolve_logical-IsMatched op (plain v ∷ args) h k =
      with_value-IsMatched op v _ h (column-IsOne d name)

  resolve_pattern-IsMatched :
      (format : Text) (args : List (Argument A))
      → All IsSoundArgument args
      → IsMatched (resolve_pattern values d name format args)
  unfolding resolve_pattern
  resolve_pattern-IsMatched format [] k = tt
  resolve_pattern-IsMatched format (expression s ∷ args) k =
      formatted-IsMatched (pattern_op_rhs d name) s (pattern_op_rhs-Keeps d name known) k.0
  resolve_pattern-IsMatched format (plain v ∷ args) k =
      formatted-IsMatched (format_op_rhs d name) _ (format_op_rhs-Keeps d name known)
        (paid-IsMatched (format_lookup_col d name placeholder) _ (column-IsOne d name))

  in_values-IsMatched :
      (args : List (Argument A)) → All IsMatched (map (in_value values d name) args)
  in_values-IsMatched [] = tt
  in_values-IsMatched (a ∷ args) = (
    paid-IsMatched (format_lookup_col d name placeholder) _ (column-IsOne d name),
    in_values-IsMatched args,
  )

  resolve_in-IsMatched :
      (args : List (Argument A))
      → All IsSoundArgument args
      → IsMatched (resolve_in values d name args)
  unfolding resolve_in count
  resolve_in-IsMatched [] k = tt
  resolve_in-IsMatched (expression s ∷ args) k =
      <>-IsMatched {A = A} (say (codes " IN (")) _ refl (<>-IsMatched s (say (codes ")")) k.0 refl)
  resolve_in-IsMatched (plain v ∷ args) k = <>-IsMatched {A = A} (say (codes " IN (")) _ refl (
      <>-IsMatched {A = A} (separated (codes ", ") (map (in_value values d name) (plain v ∷ args)))
        (say (codes ")"))
        (separated-IsMatched (codes ", ") (map (in_value values d name) (plain v ∷ args)) refl
          (in_values-IsMatched (plain v ∷ args)))
        refl)

  resolve_kind-IsMatched :
      (kind : Kind) (args : List (Argument A))
      → IsPlainKind kind
      → All IsSoundArgument args
      → IsMatched (resolve_kind values d name kind args)
  unfolding resolve_kind resolve_null resolve_range count
  resolve_kind-IsMatched (logical op) args h k =
      <>-IsMatched {A = A} (say (codes " ")) _ refl (resolve_logical-IsMatched op args h k)
  resolve_kind-IsMatched (pattern format) args h k =
      <>-IsMatched {A = A} (say (codes " ")) _ refl (resolve_pattern-IsMatched format args k)
  resolve_kind-IsMatched is_null [] h k = tt
  resolve_kind-IsMatched is_null (expression s ∷ args) h k = tt
  resolve_kind-IsMatched is_null (plain v ∷ args) h k = null_test-IsMatched A (values.as_bool v)
  resolve_kind-IsMatched in_list args h k = resolve_in-IsMatched args k
  resolve_kind-IsMatched range [] h k = tt
  resolve_kind-IsMatched range (a ∷ []) h k = tt
  resolve_kind-IsMatched range (a ∷ b ∷ []) h k = refl
  resolve_kind-IsMatched range (a ∷ b ∷ c ∷ args) h k = tt

  resolve_lookup-IsMatched :
      (kind : Kind) (lhs : Sql A) (args : List (Argument A))
      → IsPlainKind kind
      → IsMatched lhs
      → All IsSoundArgument args
      → IsMatched (resolve_lookup values d name kind lhs args)
  unfolding resolve_lookup
  resolve_lookup-IsMatched kind lhs args h k m =
      <>-IsMatched (formatted (format_lookup_col d name) lhs) (resolve_kind values d name kind args)
        (formatted-IsMatched (format_lookup_col d name) lhs (format_lookup_col-Keeps d name) k)
        (resolve_kind-IsMatched kind args h m)

-- A value that is no expression, or one whose SQL has a placeholder for each of its arguments.
abbrev pub IsSoundFound : {A : Type 0} → Option (Sql A) → Type 0
IsSoundFound none = Unit {0}
IsSoundFound (some s) = IsMatched s

abbrev pub IsSoundValue : {A : Type 0} → Values A → A → Type 0
IsSoundValue values v = IsSoundFound (values.as_expression v)

-- An expression whose SQL has a placeholder for each of its arguments, resolved and not, or a value
-- that flattens to such.
abbrev pub IsSoundExpression : {E A : Type 0} → Values A → Normalizer E A → RawArgument E A → Type 0
IsSoundExpression values n (raw_expression e) =
    IsMatched (n.resolved e)
    × IsMatched (n.unresolved e)
    × IsSoundValue values (values.of_expression (n.unresolved e))
IsSoundExpression values n (raw v) = All (IsSoundValue values) (n.flatten v)

module _ {E A : Type 0} (values : Values A) (n : Normalizer E A) (d : DriverName) where
  -- The arguments that NormalizeArgs returns, if it does.
  abbrev AreSoundResult : Result Text (List (Argument A)) → Type 0
  AreSoundResult panic = Unit {0}
  AreSoundResult out_of_fuel = Unit {0}
  AreSoundResult (err e) = Unit {0}
  AreSoundResult (ok args) = All IsSoundArgument args

  like_argument-AreSound : (o : Option Text) → AreSoundResult (like_argument values n o)
  like_argument-AreSound none = tt
  like_argument-AreSound (some text) = (tt, tt)

  string_argument-AreSound : (o : Option Text) → AreSoundResult (string_argument values n d o)
  string_argument-AreSound none = tt
  string_argument-AreSound (some text) = like_argument-AreSound (prep_for_like_query d text)

  plain-AreSound : (vs : List A) → All IsSoundArgument (map plain vs)
  plain-AreSound [] = tt
  plain-AreSound (v ∷ vs) = (tt, plain-AreSound vs)

  classified-IsSound :
      (v : A) (o : Option (Sql A)) → IsSoundFound o → IsSoundArgument (classified values n v o)
  classified-IsSound v none h = tt
  classified-IsSound v (some s) h = h

  first_classified-AreSound :
      (vs : List A)
      → All (IsSoundValue values) vs
      → All IsSoundArgument (first_classified values n vs)
  first_classified-AreSound [] h = tt
  first_classified-AreSound (v ∷ vs) h =
      (classified-IsSound v (values.as_expression v) h.0, plain-AreSound vs)

  flatten_list-AreSound :
      (args : List (RawArgument E A))
      → All (IsSoundExpression values n) args
      → All (IsSoundValue values) (flatten_list values n args)
  unfolding flatten_list
  flatten_list-AreSound [] h = tt
  flatten_list-AreSound (raw_expression e ∷ args) h = (h.0.2, flatten_list-AreSound args h.1)
  flatten_list-AreSound (raw v ∷ args) h =
      All-append (IsSoundValue values) (n.flatten v) _ h.0 (flatten_list-AreSound args h.1)

  null_argument-AreSound : (o : Option Bool) → AreSoundResult (null_argument values n o)
  null_argument-AreSound none = tt
  null_argument-AreSound (some b) = (tt, tt)

  arguments-AreSound :
      (args : List (RawArgument E A))
      → All (IsSoundExpression values n) args
      → All IsSoundArgument (map (as_argument values n) args)
  arguments-AreSound [] h = tt
  arguments-AreSound (raw_expression e ∷ args) h = (h.0.1, arguments-AreSound args h.1)
  arguments-AreSound (raw v ∷ args) h = (tt, arguments-AreSound args h.1)

  normalize_args-AreSound :
      (kind : Kind) (args : List (RawArgument E A))
      → All (IsSoundExpression values n) args
      → AreSoundResult (normalize_args values n d kind args)
  unfolding normalize_args normalize_logical normalize_pattern normalize_null normalize_in
  normalize_args-AreSound (logical op) [] h = tt
  normalize_args-AreSound (logical op) (raw_expression e ∷ []) h = (h.0.0, tt)
  normalize_args-AreSound (logical op) (raw v ∷ []) h = (tt, tt)
  normalize_args-AreSound (logical op) (a ∷ b ∷ args) h = tt
  normalize_args-AreSound (pattern format) [] h = tt
  normalize_args-AreSound (pattern format) (raw_expression e ∷ args) h = (h.0.0, tt)
  normalize_args-AreSound (pattern format) (raw v ∷ args) h =
      string_argument-AreSound (values.as_text v)
  normalize_args-AreSound is_null [] h = (tt, tt)
  normalize_args-AreSound is_null (raw_expression e ∷ args) h = (tt, tt)
  normalize_args-AreSound is_null (raw v ∷ args) h =
      null_argument-AreSound (null_of values n v (values.as_bool v))
  normalize_args-AreSound in_list [] h = tt
  normalize_args-AreSound in_list (raw_expression e ∷ []) h = (h.0.1, tt)
  normalize_args-AreSound in_list (raw_expression e ∷ a ∷ args) h = tt
  normalize_args-AreSound in_list (raw v ∷ args) h =
      first_classified-AreSound _ (flatten_list-AreSound (raw v ∷ args) h)
  normalize_args-AreSound range args h = arguments-AreSound args h

  -- On each driver, a lookup other than iregex, whose operator has no placeholder, writes as many
  -- placeholders as it returns arguments, whatever its type and its arguments, if NormalizeArgs takes
  -- them, the left side has a placeholder for each of its arguments, and each expression among them
  -- or in a list among them has.
  pub lookup-placeholders :
      (name : Text) (kind : Kind) (lhs : Sql A) (raws : List (RawArgument E A))
      (args : List (Argument A)) (text : Text) (params : List A)
      → text_eq name (codes "iregex") ≡ false
      → IsPlainKind kind
      → IsMatched lhs
      → All (IsSoundExpression values n) raws
      → normalize_args values n d kind raws ≡ ok args
      → resolve_lookup values d name kind lhs args ≡ some (text, params)
      → count b'?' text ≡ length params
  lookup-placeholders name kind lhs raws args text params known h k m taken e = subst IsMatched e (
      resolve_lookup-IsMatched values d name known kind lhs args h k
        (subst AreSoundResult taken (normalize_args-AreSound kind raws m)))
