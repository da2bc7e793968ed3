-- ===== src/Compiler/Matched/Clauses/Statements.antt =====
-- Placeholders and arguments of the statements of src/queryset_compiler_generic.go.
use go_django_queries.Prelude.{
  Bool, true, false, some, List, [], ◌∷◌, ◌++◌, Text, codes, length, All, if◌then◌else◌, ◌≡◌, ◌⊎◌,
  refl, inl, inr, subst,
}
use go_django_queries.Prelude.Int.{ℤ}
use go_django_queries.Expressions.{Resolver}
use go_django_queries.Expressions.Placeholders.{count, IsMatched}
use go_django_queries.Expressions.Sound.{IsReady}
use go_django_queries.Compiler.{Sql, say, quote_identifier}
use go_django_queries.Compiler.Fields.{
  ExpressionInfo, Table, Field, Written, nothing, virtual, column, write_field, comma,
}
use go_django_queries.Compiler.Clauses.{write_table_name, write_joins}
use go_django_queries.Compiler.Statements.{
  QuerySetInternals, UpdateInfo, set_one, write_set, build_select_query, build_count_query,
  build_delete_query, write_update, build_update_query,
}
use go_django_queries.Compiler.Matched.{
  IsPlain, append-IsPlain, quote_identifier-IsPlain, if-IsPlain, <>-IsMatched, paid-IsMatched,
  separated-IsMatched, All-map,
}
use go_django_queries.Compiler.Matched.Fields.{
  IsPlainTable, IsCleanField, IsCleanInfo, IsWritten, comma-IsPlain, write_field-IsWritten,
}
use go_django_queries.Compiler.Matched.Clauses.{
  IsCleanJoin, IsCleanOrder, write_joins-IsMatched, write_infos-IsMatched, write_group_by-IsMatched,
  write_order_by-IsMatched, write_limit_offset-IsMatched, write_clause-IsMatched,
}

-- Internals in which no name has a placeholder, with sound expressions and fields.
pub record IsCleanQuery {F A : Type 0} (resolver : Resolver ExpressionInfo F A)
    (inf : ExpressionInfo) (i : QuerySetInternals F A) : Type 0 where
  pub plain_prefix : IsPlain inf.alias_gen.prefix
  pub plain_table : IsPlain i.table_name
  pub clean_fields : All (IsCleanInfo inf) i.fields
  pub clean_joins : All IsCleanJoin i.joins
  pub ready_where : All (IsReady resolver inf) i.where_exprs
  pub clean_groups : All (IsCleanInfo inf) i.group_by
  pub ready_having : All (IsReady resolver inf) i.having
  pub clean_order : All IsCleanOrder i.order_by

-- An object of an update of which the same holds.
abbrev pub IsCleanUpdate :
    {F A : Type 0} → Resolver ExpressionInfo F A → ExpressionInfo → UpdateInfo F A → Type 0
IsCleanUpdate resolver inf o =
    IsPlainTable o.table
    × All (IsCleanField (record inf { for_update = true })) o.fields
    × All IsCleanJoin o.joins
    × All (IsReady resolver (record inf { for_update = false })) o.where_exprs

module _ {A : Type 0} where
  set_one-IsMatched :
      (written : Bool) (w : Written A) (values : List A) (rest : Bool → List A → Sql A)
      → IsWritten true w
      → ((b : Bool) (vs : List A) → IsMatched (rest b vs))
      → IsMatched (set_one written w values rest)
  set_one-IsMatched written nothing values rest h k =
      <>-IsMatched (say (comma written)) _ (comma-IsPlain written) (k written values)
  set_one-IsMatched written (virtual s) values rest h k =
      <>-IsMatched (say (comma written)) _ (comma-IsPlain written)
        (<>-IsMatched s _ h (k true values))
  set_one-IsMatched written (column s) [] rest h k = tt
  set_one-IsMatched written (column s) (v ∷ values) rest h k =
      <>-IsMatched (say (comma written)) _ (comma-IsPlain written)
        (paid-IsMatched s v (rest true values) h (k true values))

  write_set-IsMatched :
      (q : Text) (inf : ExpressionInfo) (t : Table) (fs : List (Field A)) (written : Bool)
      (values : List A)
      → IsPlain q
      → IsPlain inf.alias_gen.prefix
      → IsPlainTable t
      → All (IsCleanField inf) fs
      → IsMatched (write_set q inf t fs written values)
  unfolding write_set count
  write_set-IsMatched q inf t [] written values h g k m = refl
  write_set-IsMatched q inf t (f ∷ fs) written values h g k m =
      set_one-IsMatched written (write_field q inf t true f) values _
        (write_field-IsWritten true q inf t f h g k m.0)
        (λ b vs. write_set-IsMatched q inf t fs b vs h g k m.1)

module _ {F A : Type 0} (resolver : Resolver ExpressionInfo F A) (of_int : ℤ → A) (q : Text)
    (plain : IsPlain q) (inf : ExpressionInfo) where
  build_select_query-IsMatched :
      (i : QuerySetInternals F A)
      → IsCleanQuery resolver inf i
      → IsMatched (build_select_query resolver of_int q inf i)
  unfolding build_select_query count
  build_select_query-IsMatched i h =
      <>-IsMatched (say (codes "SELECT " ++ (if i.distinct then codes "DISTINCT " else []))) _
        (append-IsPlain (codes "SELECT ") _ refl (if-IsPlain i.distinct _ [] refl refl))
        (<>-IsMatched _ _ (write_infos-IsMatched q inf i.fields plain h.plain_prefix h.clean_fields)
          (<>-IsMatched {A = A} (say (codes " FROM ")) _ refl (
            <>-IsMatched (write_table_name q i.table_name) _
              (quote_identifier-IsPlain q i.table_name plain h.plain_table)
              (<>-IsMatched (write_joins q i.joins) _
                (write_joins-IsMatched q i.joins plain h.clean_joins)
                (<>-IsMatched _ _
                  (write_clause-IsMatched resolver (codes " WHERE ") inf i.where_exprs refl
                    h.ready_where)
                  (<>-IsMatched _ _
                    (write_group_by-IsMatched q inf i.group_by plain h.plain_prefix h.clean_groups)
                    (<>-IsMatched _ _
                      (write_clause-IsMatched resolver (codes " HAVING ") inf i.having refl
                        h.ready_having)
                      (<>-IsMatched _ _ (write_order_by-IsMatched q i.order_by plain h.clean_order)
                        (<>-IsMatched _ (say (if i.for_update then codes " FOR UPDATE" else []))
                          (write_limit_offset-IsMatched of_int i.limit i.offset)
                          (if-IsPlain i.for_update (codes " FOR UPDATE") [] refl refl))))))))))

  build_count_query-IsMatched :
      (i : QuerySetInternals F A)
      → IsCleanQuery resolver inf i
      → IsMatched (build_count_query resolver of_int q inf i)
  unfolding build_count_query count
  build_count_query-IsMatched i h =
      <>-IsMatched {A = A} (say (codes "SELECT COUNT(*) FROM ")) _ refl (
        <>-IsMatched (write_table_name q i.table_name) _
          (quote_identifier-IsPlain q i.table_name plain h.plain_table)
          (<>-IsMatched (write_joins q i.joins) _
            (write_joins-IsMatched q i.joins plain h.clean_joins)
            (<>-IsMatched _ _
              (write_clause-IsMatched resolver (codes " WHERE ") inf i.where_exprs refl
                h.ready_where)
              (<>-IsMatched _ _
                (write_group_by-IsMatched q inf i.group_by plain h.plain_prefix h.clean_groups)
                (write_limit_offset-IsMatched of_int i.limit i.offset)))))

  build_delete_query-IsMatched :
      (i : QuerySetInternals F A)
      → IsCleanQuery resolver inf i
      → IsMatched (build_delete_query resolver of_int q inf i)
  unfolding build_delete_query count
  build_delete_query-IsMatched i h = <>-IsMatched {A = A} (say (codes "DELETE FROM ")) _ refl (
      <>-IsMatched (write_table_name q i.table_name) _
        (quote_identifier-IsPlain q i.table_name plain h.plain_table)
        (<>-IsMatched (write_joins q i.joins) _
          (write_joins-IsMatched q i.joins plain h.clean_joins)
          (<>-IsMatched _ _
            (write_clause-IsMatched resolver (codes " WHERE ") inf i.where_exprs refl h.ready_where)
            (write_group_by-IsMatched q inf i.group_by plain h.plain_prefix h.clean_groups))))

  write_update-IsMatched :
      (i : QuerySetInternals F A)
      → IsPlain inf.alias_gen.prefix
      → IsPlain i.table_name
      → (o : UpdateInfo F A) → IsCleanUpdate resolver inf o
      → IsMatched (write_update resolver of_int q inf i o)
  unfolding write_update count
  write_update-IsMatched i g h o k =
      <>-IsMatched {A = A}
        (say (codes "UPDATE " ++ (quote_identifier q i.table_name ++ codes " SET "))) _
        (append-IsPlain (codes "UPDATE ") _ refl (
          append-IsPlain (quote_identifier q i.table_name) _
            (quote_identifier-IsPlain q i.table_name plain h) refl))
        (<>-IsMatched _ _
          (write_set-IsMatched q (record inf { for_update = true }) o.table o.fields false o.values
            plain g k.0 k.1)
          (<>-IsMatched _ _ (write_joins-IsMatched q o.joins plain k.2) (
            write_clause-IsMatched resolver (codes " WHERE ") (record inf { for_update = false })
              o.where_exprs refl k.3)))

  -- Where no quote, name, operator or alias prefix has a placeholder, columns of ORDER BY have no
  -- value, and what virtual fields, raw columns and the lookups of WHERE and HAVING write has one
  -- placeholder for each of its arguments, the SELECT, COUNT and DELETE statements that are built for a query have as many
  -- placeholders as arguments.
  pub query-placeholders :
      (i : QuerySetInternals F A) (text : Text) (args : List A)
      → IsCleanQuery resolver inf i
      → (build_select_query resolver of_int q inf i ≡ some (text, args))
        ⊎ ((build_count_query resolver of_int q inf i ≡ some (text, args))
            ⊎ (build_delete_query resolver of_int q inf i ≡ some (text, args)))
      → count b'?' text ≡ length args
  query-placeholders i text args h (inl e) = subst IsMatched e (build_select_query-IsMatched i h)
  query-placeholders i text args h (inr (inl e)) =
      subst IsMatched e (build_count_query-IsMatched i h)
  query-placeholders i text args h (inr (inr e)) =
      subst IsMatched e (build_delete_query-IsMatched i h)

  -- Where no quote, name, operator or alias prefix has a placeholder, and what virtual fields,
  -- raw columns and the lookups of WHERE write has one placeholder for each of its arguments, an UPDATE of any
  -- objects has as many placeholders as arguments: each column that is set takes one value, a virtual
  -- field its own arguments, and a virtual field without SQL none.
  pub update-placeholders :
      (i : QuerySetInternals F A) (os : List (UpdateInfo F A)) (text : Text) (args : List A)
      → IsPlain inf.alias_gen.prefix
      → IsPlain i.table_name
      → All (IsCleanUpdate resolver inf) os
      → build_update_query resolver of_int q inf i os ≡ some (text, args)
      → count b'?' text ≡ length args
  unfolding build_update_query count
  update-placeholders i os text args g h k e = subst IsMatched e (
      separated-IsMatched {A = A} (codes "; ") _ refl (
        All-map (IsCleanUpdate resolver inf) IsMatched (write_update resolver of_int q inf i)
          (write_update-IsMatched i g h) os k))
