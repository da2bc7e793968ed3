-- ===== src/Lookups.antt =====
-- The lookups of src/expr/lookups_base.go, with the formatting of src/expr/info.go. A lookup writes
-- its left side, which is an expression that was resolved, and its arguments, each an expression
-- or a plain value. `none` is a panic. What Go finds out about the type of a value is a parameter.
pub mod Operators
pub mod Arguments
pub mod Formats
pub mod Matched
pub mod Registry
pub mod Registered
pub mod Found
mod RegistryTests
mod Tests
use go_django_queries.Prelude.{
  ℕ, Bool, true, false, Option, none, some, List, [], ◌∷◌, ◌++◌, Text, codes, lookup, join, map,
  length, ◌==◌, if◌then◌else◌,
}
use go_django_queries.Compiler.{Sql, say, ◌<>◌, separated, placeholder}
use go_django_queries.Compiler.Like.{DriverName}
use go_django_queries.Lookups.Operators.{
  format_logical_op_rhs, format_op_rhs, pattern_op_rhs, format_lookup_col, sprintf,
}

pub data Argument (A : Type 0) : Type 0 where
  expression : Sql A → Argument A
  plain : A → Argument A

-- `v.(string)` and its inverse, `v.(bool)`, an expression as an argument of a statement, and the SQL
-- of a value that is an expression.
pub record Values (A : Type 0) : Type 0 where
  pub as_text : A → Option Text
  pub of_text : Text → A
  pub as_bool : A → Option Bool
  pub of_expression : Sql A → A
  pub as_expression : A → Option (Sql A)

-- The types of lookups; a pattern lookup has its Pattern.
pub data Kind : Type 0 where
  logical : Text → Kind
  pattern : Text → Kind
  is_null in_list range : Kind

abbrev pub with_text : {A : Type 0} → Option Text → List A → Sql A
with_text none args = none
with_text (some text) args = some (text, args)

-- Text that is formatted, with its arguments.
abbrev pub formatted : {A : Type 0} → (Text → Option Text) → Sql A → Sql A
formatted f none = none
formatted f (some (text, args)) = with_text (f text) args

-- Text with one argument.
abbrev pub paid : {A : Type 0} → Option Text → Option A → Sql A
paid none a = none
paid (some text) none = none
paid (some text) (some a) = some (text, a ∷ [])

abbrev pub text_of : {A : Type 0} → Option (Text × List A) → Option Text
text_of none = none
text_of (some (text, args)) = some text

-- What FormatLogicalOpRHS writes for an expression; its arguments are dropped.
unfoldable pub logical_rhs : Text → Text → Option Text
unfolding format_logical_op_rhs
logical_rhs op col = text_of (format_logical_op_rhs {A = ℕ} op col [])

abbrev pub with_value : {A : Type 0} → Text → A → Option Text → Sql A
with_value op v none = none
with_value op v (some col) = format_logical_op_rhs op col (v ∷ [])

abbrev pub null_test : {A : Type 0} → Option Bool → Sql A
null_test none = none
null_test (some b) = say (if b then codes " IS NULL" else codes " IS NOT NULL")

-- The pattern of a value, as an argument; a value that is not a string panics.
abbrev pub pattern_value : {A : Type 0} → Values A → Text → Option Text → Option A
pattern_value values format none = none
pattern_value values format (some text) = some (values.of_text (sprintf format text))

module _ {A : Type 0} (values : Values A) (driver : DriverName) (identifier : Text) where
  -- Any argument as one of the statement.
  abbrev pub boxed : Argument A → A
  boxed (expression s) = values.of_expression s
  boxed (plain v) = v

  -- The rest of LogicalLookup.Resolve, behind the left side.
  unfoldable pub resolve_logical : Text → List (Argument A) → Sql A
  resolve_logical op [] = none
  resolve_logical op (expression s ∷ args) =
      formatted (logical_rhs op) (formatted (format_lookup_col driver identifier) s)
  resolve_logical op (plain v ∷ args) =
      with_value op v (format_lookup_col driver identifier placeholder)

  -- The rest of PatternLookup.Resolve.
  unfoldable pub resolve_pattern : Text → List (Argument A) → Sql A
  resolve_pattern format [] = none
  resolve_pattern format (expression s ∷ args) = formatted (pattern_op_rhs driver identifier) s
  resolve_pattern format (plain v ∷ args) = formatted (format_op_rhs driver identifier) (
      paid (format_lookup_col driver identifier placeholder)
        (pattern_value values format (values.as_text v)))

  -- The rest of IsNullLookup.Resolve.
  unfoldable pub resolve_null : List (Argument A) → Sql A
  resolve_null [] = none
  resolve_null (expression s ∷ args) = none
  resolve_null (plain v ∷ args) = null_test (values.as_bool v)

  abbrev pub in_value : Argument A → Sql A
  in_value a = paid (format_lookup_col driver identifier placeholder) (some (boxed a))

  -- The rest of InLookup.Resolve.
  unfoldable pub resolve_in : List (Argument A) → Sql A
  unfolding ◌<>◌ separated
  resolve_in [] = none
  resolve_in (expression s ∷ args) = say (codes " IN (") <> (s <> say (codes ")"))
  resolve_in (plain v ∷ args) =
      say (codes " IN (")
      <> (separated (codes ", ") (map in_value (plain v ∷ args)) <> say (codes ")"))

  -- The rest of RangeLookup.Resolve.
  unfoldable pub resolve_range : List (Argument A) → Sql A
  resolve_range [] = none
  resolve_range (a ∷ []) = none
  resolve_range (a ∷ b ∷ []) = some (codes " BETWEEN ? AND ?", boxed a ∷ boxed b ∷ [])
  resolve_range (a ∷ b ∷ c ∷ args) = none

  -- The part behind the left side, for each type of lookup.
  unfoldable pub resolve_kind : Kind → List (Argument A) → Sql A
  unfolding ◌<>◌ resolve_logical resolve_pattern resolve_null resolve_in resolve_range
  resolve_kind (logical op) args = say (codes " ") <> resolve_logical op args
  resolve_kind (pattern format) args = say (codes " ") <> resolve_pattern format args
  resolve_kind is_null args = resolve_null args
  resolve_kind in_list args = resolve_in args
  resolve_kind range args = resolve_range args

  -- Resolve of a lookup, and the function that it returns.
  unfoldable pub resolve_lookup : Kind → Sql A → List (Argument A) → Sql A
  unfolding ◌<>◌ resolve_kind
  resolve_lookup kind lhs args =
      formatted (format_lookup_col driver identifier) lhs <> resolve_kind kind args
