-- ===== src/Lookups/Arguments.antt =====
-- NormalizeArgs of the lookups of src/expr/lookups_base.go, which makes the arguments of Resolve.
use go_django_queries.Prelude.{
  Bool, true, false, Option, none, some, List, [], ◌∷◌, ◌++◌, Text, codes, map, Result, panic, err,
  ok,
}
use go_django_queries.Compiler.{Sql}
use go_django_queries.Compiler.Like.{DriverName, prep_for_like_query}
use go_django_queries.Lookups.{
  Argument, expression, plain, Values, Kind, logical, pattern, is_null, in_list, range,
}

-- An argument of a filter: an expression, of a type `E`, or a plain value.
pub data RawArgument (E A : Type 0) : Type 0 where
  raw_expression : E → RawArgument E A
  raw : A → RawArgument E A

-- The SQL of an expression behind Resolve, and that without; the function Normalize of a lookup;
-- `flatten` is flattenList of one value, and `is_zero` is IsZero of package
-- reflect, none where it panics.
pub record Normalizer (E A : Type 0) : Type 0 where
  pub resolved : E → Sql A
  pub unresolved : E → Sql A
  pub normalize : A → A
  pub flatten : A → List A
  pub is_zero : A → Option Bool
  pub of_bool : Bool → A

module _ {E A : Type 0} (values : Values A) (n : Normalizer E A) where
  -- LogicalLookup.NormalizeArgs
  unfoldable pub normalize_logical : List (RawArgument E A) → Result Text (List (Argument A))
  normalize_logical [] = err (codes "requires exactly one value")
  normalize_logical (raw_expression e ∷ []) = ok (expression (n.resolved e) ∷ [])
  normalize_logical (raw v ∷ []) = ok (plain (n.normalize v) ∷ [])
  normalize_logical (a ∷ b ∷ args) = err (codes "requires exactly one value")

  abbrev pub like_argument : Option Text → Result Text (List (Argument A))
  like_argument none = panic
  like_argument (some text) = ok (plain (values.of_text text) ∷ [])

  abbrev pub string_argument : DriverName → Option Text → Result Text (List (Argument A))
  string_argument driver none = err (codes "requires a string value")
  string_argument driver (some text) = like_argument (prep_for_like_query driver text)

  -- PatternLookup.NormalizeArgs
  unfoldable pub normalize_pattern :
      DriverName → List (RawArgument E A) → Result Text (List (Argument A))
  normalize_pattern driver [] = panic
  normalize_pattern driver (raw_expression e ∷ args) = ok (expression (n.resolved e) ∷ [])
  normalize_pattern driver (raw v ∷ args) = string_argument driver (values.as_text v)

  abbrev pub null_argument : Option Bool → Result Text (List (Argument A))
  null_argument none = panic
  null_argument (some b) = ok (plain (n.of_bool b) ∷ [])

  abbrev pub null_of : A → Option Bool → Option Bool
  null_of v none = n.is_zero v
  null_of v (some b) = some b

  -- IsNullLookup.NormalizeArgs; an expression is not zero.
  unfoldable pub normalize_null : List (RawArgument E A) → Result Text (List (Argument A))
  normalize_null [] = ok (plain (n.of_bool true) ∷ [])
  normalize_null (raw_expression e ∷ args) = ok (plain (n.of_bool false) ∷ [])
  normalize_null (raw v ∷ args) = null_argument (null_of v (values.as_bool v))

  -- flattenList
  unfoldable pub flatten_list : List (RawArgument E A) → List A
  flatten_list [] = []
  flatten_list (raw_expression e ∷ args) = values.of_expression (n.unresolved e) ∷ flatten_list args
  flatten_list (raw v ∷ args) = n.flatten v ++ flatten_list args

  abbrev pub classified : A → Option (Sql A) → Argument A
  classified v none = plain v
  classified v (some s) = expression s

  -- Resolve asks of the first value alone whether it is an expression.
  abbrev pub first_classified : List A → List (Argument A)
  first_classified [] = []
  first_classified (v ∷ vs) = classified v (values.as_expression v) ∷ map plain vs

  -- InLookup.NormalizeArgs, with what Resolve finds of the type of the first value.
  unfoldable pub normalize_in : List (RawArgument E A) → Result Text (List (Argument A))
  unfolding flatten_list
  normalize_in [] = err (codes "requires at least one value")
  normalize_in (raw_expression e ∷ []) = ok (expression (n.unresolved e) ∷ [])
  normalize_in (raw_expression e ∷ a ∷ args) =
      err (codes "cannot be used with an expression and additional values")
  normalize_in (raw v ∷ args) = ok (first_classified (flatten_list (raw v ∷ args)))

  abbrev pub as_argument : RawArgument E A → Argument A
  as_argument (raw_expression e) = expression (n.unresolved e)
  as_argument (raw v) = plain v

  -- NormalizeArgs of each type of lookup; a range has the one of BaseLookup, without Normalize.
  unfoldable pub normalize_args :
      DriverName → Kind → List (RawArgument E A) → Result Text (List (Argument A))
  unfolding normalize_logical normalize_pattern normalize_null normalize_in
  normalize_args driver (logical op) args = normalize_logical args
  normalize_args driver (pattern format) args = normalize_pattern driver args
  normalize_args driver is_null args = normalize_null args
  normalize_args driver in_list args = normalize_in args
  normalize_args driver range args = ok (map as_argument args)
