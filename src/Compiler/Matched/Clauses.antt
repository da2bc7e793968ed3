-- ===== src/Compiler/Matched/Clauses.antt =====
-- Placeholders and arguments of the clauses and statements of src/queryset_compiler_generic.go.
pub mod Statements
use go_django_queries.Prelude.{
  ℕ, ◌+◌, Bool, true, false, Option, none, some, List, [], ◌∷◌, ◌++◌, Text, codes, length, All,
  is_empty, if◌then◌else◌, ◌≡◌, refl, arith, Option-cases, inl, inr, subst, map, Bool-cases,
}
use go_django_queries.Prelude.Int.{ℤ}
use go_django_queries.Expressions.{Expression, Resolver, resolve, to_sql}
use go_django_queries.Expressions.Placeholders.{
  count, count-append, IsMatched, IsSound, to_sql-IsMatched,
}
use go_django_queries.Expressions.Sound.{IsReady, IsSoundOption, resolve-IsSound}
use go_django_queries.Compiler.{
  Sql, TableColumn, say, ◌<>◌, without_args, separated, quote_identifier, placeholder,
  format_column,
}
use go_django_queries.Compiler.Fields.{ExpressionInfo, Table, FieldInfo, write_fields}
use go_django_queries.Compiler.Clauses.{
  JoinDefCondition, JoinDef, OrderBy, as_part, join_head, overspecified, direction, is_positive,
  write_condition, write_conditions, write_joins, write_group_by, write_order, write_order_by,
  write_number, write_limit_offset, resolved_sql, build_where_clause, write_clause, sql_of,
}
use go_django_queries.Compiler.Matched.{
  IsPlain, append-IsPlain, quote_identifier-IsPlain, if-IsPlain, Awaits, Awaits-zero, <>-IsMatched,
  separated-IsMatched, IsUnargued, without_args-Awaits, All-map,
}
use go_django_queries.Compiler.Matched.Columns.{
  IsClean, awaited, format_column-Awaits, format_column-IsUnargued,
}
use go_django_queries.Compiler.Matched.Fields.{IsPlainTable, IsCleanInfo, write_fields-IsMatched}

-- Columns that are not those of an update.
abbrev pub IsRead : {A : Type 0} → TableColumn A → Type 0
IsRead c = IsClean c × (c.for_update ≡ false)

abbrev pub IsCleanCondition : {A : Type 0} → JoinDefCondition A → Type 0
IsCleanCondition c = IsRead c.condition_a × IsRead c.condition_b × IsPlain c.operator

abbrev pub IsCleanJoin : {A : Type 0} → JoinDef A → Type 0
IsCleanJoin j = IsPlainTable j.table × IsPlain j.type_join × All IsCleanCondition j.conditions

-- A column of ORDER BY has no value.
abbrev pub IsCleanOrder : {A : Type 0} → OrderBy A → Type 0
IsCleanOrder o = IsRead o.column × (o.column.value ≡ none)

as_part-IsPlain : (q alias : Text) → IsPlain q → IsPlain alias → IsPlain (as_part q alias)
unfolding as_part count
as_part-IsPlain q alias h k =
    if-IsPlain (is_empty alias) [] _ refl
      (append-IsPlain (codes " AS ") _ refl (quote_identifier-IsPlain q alias h k))

join_head-IsPlain :
    (q type : Text) (t : Table)
    → IsPlain q
    → IsPlain type
    → IsPlainTable t
    → IsPlain (join_head q type t)
unfolding join_head count
join_head-IsPlain q type t h k m = append-IsPlain (codes " ") _ refl (
    append-IsPlain type _ k (
      append-IsPlain (codes " ") _ refl (
        append-IsPlain (quote_identifier q t.name) _ (quote_identifier-IsPlain q t.name h m.0) (
          append-IsPlain (as_part q t.alias) (codes " ON ") (as_part-IsPlain q t.alias h m.1)
            refl))))

direction-IsPlain : (b : Bool) → IsPlain (direction b)
unfolding count
direction-IsPlain true = refl
direction-IsPlain false = refl

module _ {A : Type 0} where
  read-IsMatched :
      (q : Text) (c : TableColumn A) → IsPlain q → IsRead c → IsMatched (format_column q c)
  read-IsMatched q c h k =
      Awaits-zero _
        (subst (λ b. Awaits (awaited b) (format_column q c)) k.1 (format_column-Awaits q c h k.0))

  write_condition-IsMatched :
      (q : Text)
      → IsPlain q
      → (c : JoinDefCondition A) → IsCleanCondition c
      → IsMatched (write_condition q c)
  unfolding write_condition count
  write_condition-IsMatched q h c k =
      <>-IsMatched (format_column q c.condition_a) _ (read-IsMatched q c.condition_a h k.0) (
        <>-IsMatched (say (codes " " ++ (c.operator ++ codes " "))) (format_column q c.condition_b)
          (append-IsPlain (codes " ") _ refl (append-IsPlain c.operator (codes " ") k.2 refl))
          (read-IsMatched q c.condition_b h k.1))

  pub write_joins-IsMatched :
      (q : Text) (js : List (JoinDef A))
      → IsPlain q
      → All IsCleanJoin js
      → IsMatched (write_joins q js)
  unfolding write_joins write_conditions count
  write_joins-IsMatched q [] h k = refl
  write_joins-IsMatched q (j ∷ js) h k =
      <>-IsMatched (say (join_head q j.type_join j.table)) _
        (join_head-IsPlain q j.type_join j.table h k.0.1 k.0.0)
        (<>-IsMatched (write_conditions q j.conditions) _
          (separated-IsMatched (codes " AND ") _ refl (
            All-map IsCleanCondition IsMatched (write_condition q) (write_condition-IsMatched q h)
              j.conditions k.0.2))
          (write_joins-IsMatched q js h k.1))

  pub write_infos-IsMatched :
      (q : Text) (inf : ExpressionInfo) (is : List (FieldInfo A))
      → IsPlain q
      → IsPlain inf.alias_gen.prefix
      → All (IsCleanInfo inf) is
      → IsMatched (separated (codes ", ") (map (write_fields q inf false) is))
  unfolding count
  write_infos-IsMatched q inf is h g k = separated-IsMatched (codes ", ") _ refl (
      All-map (IsCleanInfo inf) IsMatched (write_fields q inf false)
        (λ i m. write_fields-IsMatched q inf i h g m) is k)

  pub write_group_by-IsMatched :
      (q : Text) (inf : ExpressionInfo) (is : List (FieldInfo A))
      → IsPlain q
      → IsPlain inf.alias_gen.prefix
      → All (IsCleanInfo inf) is
      → IsMatched (write_group_by q inf is)
  unfolding write_group_by count
  write_group_by-IsMatched q inf [] h g k = refl
  write_group_by-IsMatched q inf (i ∷ is) h g k =
      <>-IsMatched (say (codes " GROUP BY ")) _ refl (write_infos-IsMatched q inf (i ∷ is) h g k)

  if_none-IsMatched : (b : Bool) (s : Sql A) → IsMatched s → IsMatched (if b then none else s)
  if_none-IsMatched true s h = tt
  if_none-IsMatched false s h = h

  write_order-IsMatched :
      (q : Text) → IsPlain q → (o : OrderBy A) → IsCleanOrder o → IsMatched (write_order q o)
  unfolding write_order
  write_order-IsMatched q h o k = if_none-IsMatched (overspecified o.column) _ (
      <>-IsMatched (without_args (format_column q o.column)) (say (direction o.desc))
        (Awaits-zero _ (
          without_args-Awaits 0 _
            (subst (λ b. Awaits (awaited b) (format_column q o.column)) k.0.1
              (format_column-Awaits q o.column h k.0.0))
            (format_column-IsUnargued q o.column k.1)))
        (direction-IsPlain o.desc))

  pub write_order_by-IsMatched :
      (q : Text) (os : List (OrderBy A))
      → IsPlain q
      → All IsCleanOrder os
      → IsMatched (write_order_by q os)
  unfolding write_order_by count
  write_order_by-IsMatched q [] h k = refl
  write_order_by-IsMatched q (o ∷ os) h k = <>-IsMatched (say (codes " ORDER BY ")) _ refl (
      separated-IsMatched {A = A} (codes ", ") (map (write_order q) (o ∷ os)) refl
        (All-map IsCleanOrder IsMatched (write_order q) (write_order-IsMatched q h) (o ∷ os) k))

  either-IsMatched :
      (b : Bool) (s t : Sql A) → IsMatched s → IsMatched t → IsMatched (if b then s else t)
  either-IsMatched true s t h k = h
  either-IsMatched false s t h k = k

  write_number-IsMatched :
      (of_int : ℤ → A) (before : Text) (n : ℤ)
      → IsPlain before
      → IsMatched (write_number of_int before n)
  unfolding write_number count
  write_number-IsMatched of_int before n h =
      either-IsMatched (is_positive n) _ (say [])
        (omega (arith, count-append b'?' before placeholder, h)) refl

  pub write_limit_offset-IsMatched :
      (of_int : ℤ → A) (limit offset : ℤ) → IsMatched (write_limit_offset of_int limit offset)
  unfolding write_limit_offset count
  write_limit_offset-IsMatched of_int limit offset =
      <>-IsMatched _ _ (write_number-IsMatched of_int (codes " LIMIT ") limit refl)
        (write_number-IsMatched of_int (codes " OFFSET ") offset refl)

-- What Resolve gave back, with a placeholder for each argument.
sql_of-IsMatched :
    {F A : Type 0} (o : Option (Expression F A)) → IsSoundOption o → IsMatched (sql_of o)
sql_of-IsMatched none h = tt
sql_of-IsMatched (some r) h = to_sql-IsMatched r h

module _ {F A : Type 0} (resolver : Resolver ExpressionInfo F A) where
  resolved_sql-IsMatched :
      (inf : ExpressionInfo)
      → (e : Expression F A) → IsReady resolver inf e
      → IsMatched (resolved_sql resolver inf e)
  unfolding resolved_sql
  resolved_sql-IsMatched inf e h = sql_of-IsMatched _ (resolve-IsSound resolver inf e h)

  pub write_clause-IsMatched :
      (word : Text) (inf : ExpressionInfo) (es : List (Expression F A))
      → IsPlain word
      → All (IsReady resolver inf) es
      → IsMatched (write_clause resolver word inf es)
  unfolding write_clause build_where_clause count
  write_clause-IsMatched word inf [] h k = refl
  write_clause-IsMatched word inf (e ∷ es) h k = <>-IsMatched (say word) _ h (
      separated-IsMatched {A = A} (codes " AND ") (map (resolved_sql resolver inf) (e ∷ es)) refl (
        All-map (IsReady resolver inf) IsMatched (resolved_sql resolver inf)
          (resolved_sql-IsMatched inf) (e ∷ es) k))
