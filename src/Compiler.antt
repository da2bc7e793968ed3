-- ===== src/Compiler.antt =====
-- The columns of the SQL compiler: TableColumn of src/expr/expr.go, and the quotes and FormatColumn
-- of src/queryset_compiler_generic.go. A statement is what was written to the builder and the
-- arguments so far; none is a panic. The field of a column is the name of its column. `A` is the
-- type of arguments, and `q` the quote of the compiler.
pub mod Fields
pub mod Clauses
pub mod Statements
pub mod Matched
pub mod Valid
pub mod Limits
pub mod Batches
pub mod Values
pub mod Like
mod Tests
use go_django_queries.Prelude.{
  ℕ, Bool, true, false, ◌&&◌, ◌||◌, not, Option, none, some, List, [], ◌∷◌, ◌++◌, Text, codes,
  is_empty, if◌then◌else◌,
}
use go_django_queries.Expressions.{behind}

abbrev pub Sql : Type 0 → Type 0
Sql A = Option (Text × List A)

pub data ColumnError : Type 0 where
  table_misused nothing_given update_with_value update_with_raw : ColumnError
  field_with_raw alias_with_update alias_with_value : ColumnError

pub record TableColumn (A : Type 0) : Type 0 where
  pub table_or_alias : Text
  pub field_alias : Text
  pub raw_sql : Text
  pub field_column : Option Text
  pub for_update : Bool
  pub value : Option A

-- `x != nil`.
abbrev pub given {ℓ} : {A : Type ℓ} → Option A → Bool
given none = false
given (some x) = true

-- QuoteIdentifier
abbrev pub quote_identifier : Text → Text → Text
quote_identifier q s = q ++ (s ++ q)

-- generic_PLACEHOLDER
abbrev pub placeholder : Text
placeholder = codes "?"

-- The table of a column, with the dot.
unfoldable pub table_part : Text → Text → Text
table_part q table = if is_empty table then [] else quote_identifier q table ++ codes "."

unfoldable pub alias_part : Text → Text → Bool → Text
alias_part q name written =
    if is_empty name || written then [] else codes " AS " ++ quote_identifier q name

unfoldable pub update_part : Bool → Text
update_part for_update = if for_update then codes " = " ++ placeholder else []

module _ {A : Type 0} where
  -- Text without an argument.
  abbrev pub say : Text → Sql A
  say text = some (text, [])

  infixr 5 ◌<>◌
  unfoldable pub ◌<>◌ : Sql A → Sql A → Sql A
  s <> t = behind s [] t

  -- What was written, the arguments thrown away.
  unfoldable pub without_args : Sql A → Sql A
  without_args none = none
  without_args (some (text, args)) = say text

  -- Writes with a separator between each two.
  unfoldable pub separated : Text → List (Sql A) → Sql A
  separated sep [] = say []
  separated sep (s ∷ []) = s
  separated sep (s ∷ t ∷ rest) = behind s sep (separated sep (t ∷ rest))

  -- (*TableColumn).Validate; none is the nil error.
  unfoldable pub validate : TableColumn A → Option ColumnError
  validate c =
      if not (is_empty c.table_or_alias) && (c.for_update || not (is_empty c.raw_sql))
      then some table_misused
      else if is_empty c.raw_sql
          && (not (given c.value) && (not (given c.field_column) && is_empty c.field_alias))
      then some nothing_given
      else if c.for_update && given c.value
      then some update_with_value
      else if c.for_update && not (is_empty c.raw_sql)
      then some update_with_raw
      else if given c.field_column && not (is_empty c.raw_sql)
      then some field_with_raw
      else if not (is_empty c.field_alias) && c.for_update
      then some alias_with_update
      else if not (is_empty c.field_alias) && given c.value
      then some alias_with_value
      else none

  abbrev pub value_args : Option A → List A
  value_args none = []
  value_args (some v) = v ∷ []

  -- The cases of the switch behind that of the field: raw SQL, a value, an alias, and the default.
  unfoldable pub other_part : Text → Text → Option A → Text → Sql A
  other_part q (c ∷ raw) value name = some (c ∷ raw, value_args value)
  other_part q [] (some v) name = some (placeholder, v ∷ [])
  other_part q [] none name = if is_empty name then none else say (quote_identifier q name)

  -- The case of the switch for a field.
  abbrev pub field_part : Text → Option Text → Sql A → Sql A
  field_part q none other = other
  field_part q (some name) other = if is_empty name then none else say (quote_identifier q name)

  -- The switch of FormatColumn.
  unfoldable pub column_part : Text → TableColumn A → Sql A
  unfolding other_part
  column_part q c = field_part q c.field_column (other_part q c.raw_sql c.value c.field_alias)

  -- aliasWritten
  abbrev pub alias_written : TableColumn A → Bool
  alias_written c = not (given c.field_column) && (is_empty c.raw_sql && not (given c.value))

  -- FormatColumn behind Validate.
  unfoldable pub format_valid : Text → TableColumn A → Sql A
  unfolding ◌<>◌ table_part column_part alias_part update_part
  format_valid q c =
      say (table_part q c.table_or_alias)
      <> (column_part q c
          <> (say (alias_part q c.field_alias (alias_written c)) <> say (update_part c.for_update)))

  -- An error panics.
  abbrev pub unless_error : Option ColumnError → Sql A → Sql A
  unless_error none s = s
  unless_error (some e) s = none

  -- FormatColumn
  unfoldable pub format_column : Text → TableColumn A → Sql A
  unfolding validate format_valid
  format_column q c = unless_error (validate c) (format_valid q c)
