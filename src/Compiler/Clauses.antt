-- ===== src/Compiler/Clauses.antt =====
-- The clauses of a statement: the functions write... and buildWhereClause of
-- src/queryset_compiler_generic.go, and JoinDef and OrderBy of src/queryset_types.go. The
-- conditions of a join are a list for the chain of pointers. Conditions of WHERE and HAVING are
-- the logical expressions.
use go_django_queries.Prelude.{
  Bool, false, not, ◌&&◌, Option, none, some, List, [], ◌∷◌, ◌++◌, Text, codes, is_empty,
  if◌then◌else◌, map,
}
use go_django_queries.Prelude.Int.{ℤ, pos, ltb_ℤ}
use go_django_queries.Expressions.{Expression, Resolver, resolve, to_sql}
use go_django_queries.Compiler.{
  Sql, TableColumn, say, ◌<>◌, without_args, separated, quote_identifier, placeholder, given,
  format_column,
}
use go_django_queries.Compiler.Fields.{ExpressionInfo, Table, FieldInfo, write_fields}

pub record JoinDefCondition (A : Type 0) : Type 0 where
  pub condition_a : TableColumn A
  pub condition_b : TableColumn A
  pub operator : Text

pub record JoinDef (A : Type 0) : Type 0 where
  pub table : Table
  pub type_join : Text
  pub conditions : List (JoinDefCondition A)

pub record OrderBy (A : Type 0) : Type 0 where
  pub column : TableColumn A
  pub desc : Bool

-- writeTableName
abbrev pub write_table_name : {A : Type 0} → Text → Text → Sql A
write_table_name q name = say (quote_identifier q name)

unfoldable pub as_part : Text → Text → Text
as_part q alias = if is_empty alias then [] else codes " AS " ++ quote_identifier q alias

-- The start of a join, up to ON.
unfoldable pub join_head : Text → Text → Table → Text
unfolding as_part
join_head q type t =
    codes " "
    ++ (type ++ (codes " " ++ (quote_identifier q t.name ++ (as_part q t.alias ++ codes " ON "))))

-- The test of writeOrderBy.
abbrev pub overspecified : {A : Type 0} → TableColumn A → Bool
overspecified c =
    not (is_empty c.table_or_alias) && (given c.field_column && not (is_empty c.field_alias))

abbrev pub direction : Bool → Text
direction desc = if desc then codes " DESC" else codes " ASC"

abbrev pub is_positive : ℤ → Bool
is_positive n = ltb_ℤ (pos 0) n

module _ {A : Type 0} where
  unfoldable pub write_condition : Text → JoinDefCondition A → Sql A
  unfolding ◌<>◌
  write_condition q c =
      format_column q c.condition_a
      <> (say (codes " " ++ (c.operator ++ codes " ")) <> format_column q c.condition_b)

  -- The loop over the conditions of a join.
  unfoldable pub write_conditions : Text → List (JoinDefCondition A) → Sql A
  unfolding write_condition separated
  write_conditions q cs = separated (codes " AND ") (map (write_condition q) cs)

  -- writeJoins
  unfoldable pub write_joins : Text → List (JoinDef A) → Sql A
  unfolding ◌<>◌ join_head write_conditions
  write_joins q [] = say []
  write_joins q (j ∷ js) =
      say (join_head q j.type_join j.table) <> (write_conditions q j.conditions <> write_joins q js)

  -- writeGroupBy
  unfoldable pub write_group_by : Text → ExpressionInfo → List (FieldInfo A) → Sql A
  unfolding ◌<>◌ separated
  write_group_by q inf [] = say []
  write_group_by q inf (i ∷ is) =
      say (codes " GROUP BY ") <> separated (codes ", ") (map (write_fields q inf false) (i ∷ is))

  -- One field of ORDER BY.
  unfoldable pub write_order : Text → OrderBy A → Sql A
  unfolding ◌<>◌ without_args
  write_order q o =
      if overspecified o.column
      then none
      else without_args (format_column q o.column) <> say (direction o.desc)

  -- writeOrderBy
  unfoldable pub write_order_by : Text → List (OrderBy A) → Sql A
  unfolding ◌<>◌ separated write_order
  write_order_by q [] = say []
  write_order_by q (o ∷ os) =
      say (codes " ORDER BY ") <> separated (codes ", ") (map (write_order q) (o ∷ os))

  -- A number that is written where it is above 0; `of_int` makes an argument of it.
  unfoldable pub write_number : (ℤ → A) → Text → ℤ → Sql A
  write_number of_int before n =
      if is_positive n then some (before ++ placeholder, of_int n ∷ []) else say []

  -- writeLimitOffset
  unfoldable pub write_limit_offset : (ℤ → A) → ℤ → ℤ → Sql A
  unfolding ◌<>◌ write_number
  write_limit_offset of_int limit offset =
      write_number of_int (codes " LIMIT ") limit <> write_number of_int (codes " OFFSET ") offset

-- SQL, behind Resolve.
abbrev pub sql_of : {F A : Type 0} → Option (Expression F A) → Sql A
sql_of none = none
sql_of (some r) = to_sql r

module _ {F A : Type 0} (resolver : Resolver ExpressionInfo F A) where
  unfoldable pub resolved_sql : ExpressionInfo → Expression F A → Sql A
  resolved_sql inf e = sql_of (resolve resolver inf e)

  -- buildWhereClause
  unfoldable pub build_where_clause : ExpressionInfo → List (Expression F A) → Sql A
  unfolding separated resolved_sql
  build_where_clause inf es = separated (codes " AND ") (map (resolved_sql inf) es)

  -- writeWhereClause and writeHaving
  unfoldable pub write_clause : Text → ExpressionInfo → List (Expression F A) → Sql A
  unfolding ◌<>◌ build_where_clause
  write_clause word inf [] = say []
  write_clause word inf (e ∷ es) = say word <> build_where_clause inf (e ∷ es)
