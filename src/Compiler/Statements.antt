-- ===== src/Compiler/Statements.antt =====
-- The statements of src/queryset_compiler_generic.go: BuildSelectQuery, BuildCountQuery,
-- BuildCreateQuery, BuildUpdateQuery and BuildDeleteQuery of the generic compiler, and what those
-- of PostgreSQL and MySQL do in place of them; as text before sqlx rebinds its placeholders.
use go_django_queries.Prelude.{
  Bool, true, false, Option, none, some, List, [], ◌∷◌, ◌++◌, Text, codes, join, if◌then◌else◌, map,
  length, ◌==◌,
}
use go_django_queries.Prelude.Int.{ℤ}
use go_django_queries.Expressions.{Expression, Resolver}
use go_django_queries.Compiler.{Sql, say, ◌<>◌, separated, quote_identifier, placeholder}
use go_django_queries.Compiler.Fields.{
  ExpressionInfo, Table, Field, FieldInfo, Written, nothing, virtual, column, write_fields,
  write_field, comma,
}
use go_django_queries.Compiler.Clauses.{
  JoinDef, OrderBy, write_table_name, write_joins, write_group_by, write_order_by,
  write_limit_offset, write_clause,
}

-- QuerySetInternals and the modelInfo in it; `primary` is the column of the primary key.
pub record QuerySetInternals (F A : Type 0) : Type 0 where
  pub table_name : Text
  pub primary : Option Text
  pub fields : List (FieldInfo A)
  pub where_exprs : List (Expression F A)
  pub having : List (Expression F A)
  pub joins : List (JoinDef A)
  pub group_by : List (FieldInfo A)
  pub order_by : List (OrderBy A)
  pub limit : ℤ
  pub offset : ℤ
  pub for_update : Bool
  pub distinct : Bool

pub record UpdateInfo (F A : Type 0) : Type 0 where
  pub table : Table
  pub fields : List (Field A)
  pub where_exprs : List (Expression F A)
  pub joins : List (JoinDef A)
  pub values : List A

-- SupportsReturningType; another string panics.
pub data SupportsReturning : Type 0 where
  returning_none returning_last_insert_id returning_columns returning_unknown : SupportsReturning

-- Texts in parentheses with commas between them.
unfoldable pub listed : List Text → Text
listed names = codes "(" ++ (join (codes ", ") names ++ codes ")")

unfoldable pub quoted_columns : {A : Type 0} → Text → List (Field A) → List Text
quoted_columns q [] = []
quoted_columns q (f ∷ fs) = quote_identifier q f.column_name ∷ quoted_columns q fs

-- A placeholder for each field.
unfoldable pub placeholders : {A : Type 0} → List (Field A) → List Text
placeholders [] = []
placeholders (f ∷ fs) = placeholder ∷ placeholders fs

abbrev pub primary_columns : Text → Option Text → List Text
primary_columns q none = []
primary_columns q (some name) = quote_identifier q name ∷ []

-- The RETURNING of BuildCreateQuery; none is a panic.
unfoldable pub returning :
    {A : Type 0} → Text → SupportsReturning → Option Text → List (Field A) → Option Text
unfolding quoted_columns
returning q returning_none primary fs = some []
returning q returning_last_insert_id none fs = some []
returning q returning_last_insert_id (some name) fs =
    some (codes " RETURNING " ++ quote_identifier q name)
returning q returning_columns primary fs =
    some
      (codes " RETURNING " ++ join (codes ", ") (primary_columns q primary ++ quoted_columns q fs))
returning q returning_unknown primary fs = none

abbrev pub say_option : {A : Type 0} → Option Text → Sql A
say_option none = none
say_option (some text) = say text

module _ {A : Type 0} where
  -- INSERT INTO, up to VALUES.
  unfoldable pub insert_head : Text → Text → List (Field A) → Text
  unfolding listed quoted_columns
  insert_head q name fs =
      codes "INSERT INTO "
      ++ (quote_identifier q name
          ++ (codes " " ++ (listed (quoted_columns q fs) ++ codes " VALUES ")))

  -- One field of SET, with the values that are left; values out of range panic.
  abbrev pub set_one : Bool → Written A → List A → (Bool → List A → Sql A) → Sql A
  set_one written nothing values rest = say (comma written) <> rest written values
  set_one written (virtual s) values rest = say (comma written) <> (s <> rest true values)
  set_one written (column s) [] rest = none
  set_one written (column s) (v ∷ values) rest =
      say (comma written) <> (s <> (some ([], v ∷ []) <> rest true values))

  -- The loop over the fields of an update.
  unfoldable pub write_set : Text → ExpressionInfo → Table → List (Field A) → Bool → List A → Sql A
  unfolding ◌<>◌
  write_set q inf t [] written values = say []
  write_set q inf t (f ∷ fs) written values =
      set_one written (write_field q inf t true f) values (write_set q inf t fs)

module _ {F A : Type 0} where
  -- The row of one object.
  unfoldable pub write_row : UpdateInfo F A → Sql A
  unfolding listed placeholders
  write_row o = some (listed (placeholders o.fields), o.values)

  -- BuildCreateQuery
  unfoldable pub build_create_query :
      Text → SupportsReturning → QuerySetInternals F A → List (UpdateInfo F A) → Sql A
  unfolding ◌<>◌ separated insert_head write_row returning
  build_create_query q support i [] = say []
  build_create_query q support i (o ∷ os) =
      say (insert_head q i.table_name o.fields)
      <> (separated (codes ", ") (map write_row (o ∷ os))
          <> say_option (returning q support i.primary o.fields))

  -- One INSERT of the create query of MySQL.
  unfoldable pub write_insert : Text → Text → UpdateInfo F A → Sql A
  unfolding ◌<>◌ insert_head write_row
  write_insert q name o = say (insert_head q name o.fields) <> write_row o

  -- The first test of the loop over the objects: it holds of them all.
  unfoldable pub all_filled : List (UpdateInfo F A) → Bool
  all_filled [] = true
  all_filled (o ∷ os) = if length o.fields == length o.values then all_filled os else false

  -- BuildCreateQuery of MySQL; none is the query that fails with ErrTypeMismatch.
  unfoldable pub build_create_mysql : Text → QuerySetInternals F A → List (UpdateInfo F A) → Sql A
  unfolding separated write_insert all_filled
  build_create_mysql q i os =
      if all_filled os then separated (codes "; ") (map (write_insert q i.table_name) os) else none

-- One query before those behind it.
abbrev pub queue :
    {A : Type 0} → Sql A → Option (List (Text × List A)) → Option (List (Text × List A))
queue none rest = none
queue (some query) none = none
queue (some query) (some rest) = some (query ∷ rest)

-- SQL() of a query: its statement is rebound.
abbrev pub rebound : {A : Type 0} → (Text → Text) → Sql A → Sql A
rebound rebind none = none
rebound rebind (some (text, args)) = some (rebind text, args)

-- The query object of a batch: `params` has the slice of the arguments of each statement as one
-- element, and `batch` what is sent.
pub record BatchQuery (A : Type 0) : Type 0 where
  pub stmt : Text
  pub params : List (List A)
  pub batch : List (Text × List A)

unfoldable pub batch_of : {A : Type 0} → List (Text × List A) → BatchQuery A
unfolding join
batch_of queries = record {
  stmt = join (codes "; ") (map (λ query. query.0) queries);
  params = map (λ query. query.1) queries;
  batch = queries;
}

abbrev pub as_batch : {A : Type 0} → Option (List (Text × List A)) → Option (BatchQuery A)
as_batch none = none
as_batch (some queries) = some (batch_of queries)

module _ {F A : Type 0} (resolver : Resolver ExpressionInfo F A) (of_int : ℤ → A) (q : Text) where
  -- BuildSelectQuery
  unfoldable pub build_select_query : ExpressionInfo → QuerySetInternals F A → Sql A
  unfolding ◌<>◌ separated
  build_select_query inf i =
      say (codes "SELECT " ++ (if i.distinct then codes "DISTINCT " else []))
      <> (separated (codes ", ") (map (write_fields q inf false) i.fields)
          <> (say (codes " FROM ")
              <> (write_table_name q i.table_name
                  <> (write_joins q i.joins
                      <> (write_clause resolver (codes " WHERE ") inf i.where_exprs
                          <> (write_group_by q inf i.group_by
                              <> (write_clause resolver (codes " HAVING ") inf i.having
                                  <> (write_order_by q i.order_by
                                      <> (write_limit_offset of_int i.limit i.offset
                                          <> say (
                                              if i.for_update
                                              then codes " FOR UPDATE"
                                              else []))))))))))

  -- BuildCountQuery
  unfoldable pub build_count_query : ExpressionInfo → QuerySetInternals F A → Sql A
  unfolding ◌<>◌
  build_count_query inf i =
      say (codes "SELECT COUNT(*) FROM ")
      <> (write_table_name q i.table_name
          <> (write_joins q i.joins
              <> (write_clause resolver (codes " WHERE ") inf i.where_exprs
                  <> (write_group_by q inf i.group_by
                      <> write_limit_offset of_int i.limit i.offset))))

  -- BuildDeleteQuery
  unfoldable pub build_delete_query : ExpressionInfo → QuerySetInternals F A → Sql A
  unfolding ◌<>◌
  build_delete_query inf i =
      say (codes "DELETE FROM ")
      <> (write_table_name q i.table_name
          <> (write_joins q i.joins
              <> (write_clause resolver (codes " WHERE ") inf i.where_exprs
                  <> write_group_by q inf i.group_by)))

  -- The statement of one object, ForUpdate set for its fields alone.
  unfoldable pub write_update : ExpressionInfo → QuerySetInternals F A → UpdateInfo F A → Sql A
  unfolding ◌<>◌
  write_update inf i o =
      say (codes "UPDATE " ++ (quote_identifier q i.table_name ++ codes " SET "))
      <> (write_set q (record inf { for_update = true }) o.table o.fields false o.values
          <> (write_joins q o.joins
              <> write_clause resolver (codes " WHERE ") (record inf { for_update = false })
                  o.where_exprs))

  -- BuildUpdateQuery
  unfoldable pub build_update_query :
      ExpressionInfo → QuerySetInternals F A → List (UpdateInfo F A) → Sql A
  unfolding separated write_update
  build_update_query inf i os = separated (codes "; ") (map (write_update inf i) os)

  -- The loop of BuildUpdateQuery of PostgreSQL: the statements that are queued on the batch, each
  -- rebound by itself, with their arguments. `rebind` is Rebind of sqlx.
  unfoldable pub queue_updates :
      (Text → Text)
      → ExpressionInfo
      → QuerySetInternals F A
      → List (UpdateInfo F A)
      → Option (List (Text × List A))
  unfolding build_update_query
  queue_updates rebind inf i [] = some []
  queue_updates rebind inf i (o ∷ os) =
      queue (rebound rebind (build_update_query inf i (o ∷ []))) (queue_updates rebind inf i os)

  -- BuildUpdateQuery of PostgreSQL, with a database that has a connection for the batch.
  unfoldable pub build_update_postgres :
      (Text → Text)
      → ExpressionInfo
      → QuerySetInternals F A
      → List (UpdateInfo F A)
      → Option (BatchQuery A)
  unfolding queue_updates batch_of
  build_update_postgres rebind inf i os = as_batch (queue_updates rebind inf i os)
