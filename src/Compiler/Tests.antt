-- ===== src/Compiler/Tests.antt =====
-- Statements on a table t with the columns id and u_id, for a compiler that quotes with backticks.
use go_django_queries.Prelude.{
  ℕ, true, false, Option, none, some, List, [], ◌∷◌, ◌++◌, if◌then◌else◌, ◌==◌, lookup, Result, ok,
  err, panic, out_of_fuel, Text, codes, length, ◌≡◌, ◌↔◌, ◌⊎◌, inl, refl, text_eq, join, map,
}
use go_django_queries.Prelude.Int.{ℤ, pos, negsuc}
use go_django_queries.Alias.{new_generator, get_field_alias}
use go_django_queries.Expressions.{Resolver, expr, resolve, resolve_node, to_sql, node_sql}
use go_django_queries.Expressions.Placeholders.{count}
use go_django_queries.Expressions.Sound.{IsReady}
use go_django_queries.Lookups.{
  Argument, Values, Kind, logical, in_list, resolve_lookup, resolve_kind, resolve_logical,
  resolve_in,
}
use go_django_queries.Lookups.Arguments.{
  Normalizer, raw, normalize_args, normalize_logical, normalize_in, flatten_list,
}
use go_django_queries.Lookups.Operators.{
  format_lookup_col, is_caseless, format_logical_op_rhs, math_op_format,
}
use go_django_queries.Compiler.{
  Sql, say, TableColumn, ◌<>◌, separated, format_column, format_valid, validate, table_part,
  other_part, column_part, alias_part, update_part, without_args, given,
}
use go_django_queries.Compiler.Fields.{
  ExpressionInfo, Table, Field, FieldInfo, write_fields, write_loop, write_field, write_virtual,
  selected_as,
}
use go_django_queries.Compiler.Clauses.{
  JoinDef, write_joins, join_head, as_part, write_conditions, write_condition, write_clause,
  build_where_clause, resolved_sql, write_order_by, write_order, write_limit_offset, write_number,
  write_group_by,
}
use go_django_queries.Compiler.Statements.{
  QuerySetInternals, UpdateInfo, build_select_query, build_update_query, write_update, write_set,
  build_create_query, build_create_mysql, all_filled, write_insert, write_row, insert_head, listed,
  quoted_columns, placeholders, returning, returning_columns, BatchQuery, build_update_postgres,
}
use go_django_queries.Compiler.Matched.Clauses.Statements.{
  IsCleanQuery, query-placeholders, update-placeholders,
}
use go_django_queries.Compiler.Matched.Inserts.{insert-placeholders}
use go_django_queries.Compiler.Valid.{format_column-none}
use go_django_queries.Compiler.Batches.{Queued, build_update_postgres-Queued}
use go_django_queries.Compiler.Limits.{bound_of, limit_offset_eq_iff}
use go_django_queries.Compiler.Like.{
  postgres, sqlite3, replace_all, escape_like, prep_for_like_query, like, has_prefix, contains,
  prep_for_like_query-exact,
}

abbrev q : Text
q = codes "`"

abbrev inf : ExpressionInfo
inf = record { has_model = true; alias_gen = new_generator; for_update = false }

abbrev of_int : ℤ → ℕ
of_int (pos n) = n
of_int (negsuc n) = 0

-- Numbers as arguments of the lookups.
abbrev numbers : Values ℕ
numbers = record {
  as_text = λ v. none;
  of_text = λ s. 0;
  as_bool = λ v. none;
  of_expression = λ s. 0;
  as_expression = λ v. none;
}

abbrev normalizer : Normalizer (Sql ℕ) ℕ
normalizer = record {
  resolved = λ e. e;
  unresolved = λ e. e;
  normalize = λ v. v;
  flatten = λ v. v ∷ [];
  is_zero = λ v. some (v == 0);
  of_bool = λ b. 0;
}

-- The lookups `exact` and `in` of SQLite on the column t.id.
abbrev kind_of : Text → Kind
kind_of name = if text_eq name (codes "in") then in_list else logical (codes "=")

abbrev behind_normalize : Text → Result Text (List (Argument ℕ)) → Sql ℕ
behind_normalize name (ok args) =
    resolve_lookup numbers sqlite3 name (kind_of name) (say (codes "`t`.`id`")) args
behind_normalize name (err e) = none
behind_normalize name panic = none
behind_normalize name out_of_fuel = none

abbrev resolver : Resolver ExpressionInfo ℕ ℕ
resolver = record {
  has_model = λ i. i.has_model;
  resolve_field = λ i f. f;
  get_lookup = λ i name f args.
      behind_normalize name
        (normalize_args numbers normalizer sqlite3 (kind_of name) (map raw args));
}

-- What these lookups unfold.
lookups : Unit {0}
unfolding normalize_args normalize_logical normalize_in flatten_list resolve_lookup resolve_kind
    resolve_logical resolve_in ◌<>◌ separated format_lookup_col is_caseless text_eq
    format_logical_op_rhs math_op_format lookup join
lookups = tt

abbrev table : Table
table = record { name = codes "t"; alias = [] }

abbrev id : Field ℕ
id = record { column_name = codes "id"; alias = none; virtual_sql = none }

abbrev named : Field ℕ
named = record { column_name = codes "name"; alias = none; virtual_sql = none }

abbrev sum : Field ℕ
sum = record {
  column_name = [];
  alias = some (codes "sum");
  virtual_sql = some (λ i. some (codes "id + ?", 3 ∷ []));
}

abbrev fields : FieldInfo ℕ
fields = record { source = record { table = table; fields = id ∷ sum ∷ [] }; through = none }

abbrev column_of : Text → Text → TableColumn ℕ
column_of t name = record {
  table_or_alias = t;
  field_alias = [];
  raw_sql = [];
  field_column = some name;
  for_update = false;
  value = none;
}

abbrev users : JoinDef ℕ
users = record {
  table = record { name = codes "u"; alias = codes "T1" };
  type_join = codes "LEFT JOIN";
  conditions =
      record {
        condition_a = column_of (codes "T1") (codes "id");
        condition_b = column_of (codes "t") (codes "u_id");
        operator = codes "=";
      }
      ∷ [];
}

abbrev query : QuerySetInternals ℕ ℕ
query = record {
  table_name = codes "t";
  primary = some (codes "id");
  fields = fields ∷ [];
  where_exprs = expr 0 (codes "in") (5 ∷ 6 ∷ []) ∷ [];
  having = [];
  joins = users ∷ [];
  group_by = [];
  order_by = record { column = column_of (codes "t") (codes "id"); desc = true } ∷ [];
  limit = pos 10;
  offset = negsuc 0;
  for_update = false;
  distinct = false;
}

abbrev select_text : Text
select_text =
    codes
      "SELECT `t`.`id`, id + ? AS `t_sum` FROM `t` LEFT JOIN `u` AS `T1` ON `T1`.`id` = `t`.`u_id`"
    ++ codes " WHERE `t`.`id` IN (?, ?) ORDER BY `t`.`id` DESC LIMIT ?"

query-selected :
    build_select_query resolver of_int q inf query ≡ some (select_text, 3 ∷ 5 ∷ 6 ∷ 10 ∷ [])
unfolding build_select_query ◌<>◌ separated write_fields write_loop write_field write_virtual
    selected_as format_column format_valid validate table_part other_part column_part alias_part
    update_part without_args write_joins join_head as_part write_conditions write_condition
    write_clause build_where_clause resolved_sql resolve resolve_node to_sql node_sql write_order_by
    write_order write_limit_offset write_number write_group_by get_field_alias lookups
query-selected = refl

query-IsClean : IsCleanQuery resolver inf query
unfolding count IsReady lookups
query-IsClean = record {
  plain_prefix = refl;
  plain_table = refl;
  clean_fields = ((((refl, refl), ((refl, tt, tt), ((refl, refl, refl), tt))), tt), tt);
  clean_joins = (
    (
      (refl, refl),
      refl,
      ((((refl, refl, refl, tt), refl), ((refl, refl, refl, tt), refl), refl), tt),
    ),
    tt,
  );
  ready_where = ((λ used. tt, λ fresh. refl), tt);
  clean_groups = tt;
  ready_having = tt;
  clean_order = ((((refl, refl, refl, tt), refl), refl), tt);
}

query-placeholders_example : count b'?' select_text ≡ length {A = ℕ} (3 ∷ 5 ∷ 6 ∷ 10 ∷ [])
unfolding count
query-placeholders_example =
    query-placeholders resolver of_int q refl inf query select_text (3 ∷ 5 ∷ 6 ∷ 10 ∷ [])
      query-IsClean (inl query-selected)

abbrev object : UpdateInfo ℕ ℕ
object = record {
  table = table;
  fields = id ∷ named ∷ [];
  where_exprs = expr 0 (codes "exact") (5 ∷ []) ∷ [];
  joins = [];
  values = 7 ∷ 8 ∷ [];
}

abbrev update_text : Text
update_text = codes "UPDATE `t` SET `id` = ?, `name` = ? WHERE `t`.`id` = ?"

objects-updated :
    build_update_query resolver of_int q inf query (object ∷ [])
    ≡ some (update_text, 7 ∷ 8 ∷ 5 ∷ [])
unfolding build_update_query write_update write_set ◌<>◌ separated write_field format_column
    format_valid validate table_part column_part alias_part update_part without_args write_joins
    write_clause build_where_clause resolved_sql resolve resolve_node to_sql node_sql lookups
objects-updated = refl

update-placeholders_example : count b'?' update_text ≡ length {A = ℕ} (7 ∷ 8 ∷ 5 ∷ [])
unfolding count IsReady lookups
update-placeholders_example =
    update-placeholders resolver of_int q refl inf query (object ∷ []) update_text (7 ∷ 8 ∷ 5 ∷ [])
      refl refl
      (
        (
          (refl, refl),
          ((refl, tt, tt), ((refl, tt, tt), tt)),
          tt,
          ((λ used. tt, λ fresh. refl), tt),
        ),
        tt,
      )
      objects-updated

-- PostgreSQL rebinds each statement by itself, and has the arguments of each as one element.
abbrev dollar : Text → Text
dollar [] = []
dollar (c ∷ s) = (if c == b'?' then b'$' else c) ∷ dollar s

abbrev dollar_text : Text
dollar_text = codes "UPDATE `t` SET `id` = $, `name` = $ WHERE `t`.`id` = $"

abbrev batch : BatchQuery ℕ
batch = record {
  stmt = dollar_text ++ (codes "; " ++ dollar_text);
  params = (7 ∷ 8 ∷ 5 ∷ []) ∷ (7 ∷ 8 ∷ 5 ∷ []) ∷ [];
  batch = (dollar_text, 7 ∷ 8 ∷ 5 ∷ []) ∷ (dollar_text, 7 ∷ 8 ∷ 5 ∷ []) ∷ [];
}

objects-queued :
    build_update_postgres resolver of_int q dollar inf query (object ∷ object ∷ []) ≡ some batch
unfolding build_update_postgres build_update_query write_update write_set ◌<>◌ separated write_field
    format_column format_valid validate table_part column_part alias_part update_part without_args
    write_joins write_clause build_where_clause resolved_sql resolve resolve_node to_sql node_sql
    lookups
objects-queued = refl

build_update_postgres-Queued_example :
    Queued resolver of_int q dollar inf query (object ∷ object ∷ []) batch.batch
    × (batch.params ≡ map (λ query. query.1) batch.batch)
unfolding count IsReady lookups
build_update_postgres-Queued_example =
    build_update_postgres-Queued resolver of_int q dollar inf query (object ∷ object ∷ []) batch
      refl refl refl
      (
        (
          (refl, refl),
          ((refl, tt, tt), ((refl, tt, tt), tt)),
          tt,
          ((λ used. tt, λ fresh. refl), tt),
        ),
        (
          (
            (refl, refl),
            ((refl, tt, tt), ((refl, tt, tt), tt)),
            tt,
            ((λ used. tt, λ fresh. refl), tt),
          ),
          tt,
        ),
      )
      objects-queued

abbrev insert_text : Text
insert_text =
    codes "INSERT INTO `t` (`id`, `name`) VALUES (?, ?), (?, ?) RETURNING `id`, `id`, `name`"

objects-created :
    build_create_query q returning_columns query (object ∷ object ∷ [])
    ≡ some (insert_text, 7 ∷ 8 ∷ 7 ∷ 8 ∷ [])
unfolding build_create_query ◌<>◌ separated insert_head listed quoted_columns write_row placeholders
    join returning
objects-created = refl

abbrev mysql_text : Text
mysql_text =
    codes
      "INSERT INTO `t` (`id`, `name`) VALUES (?, ?); INSERT INTO `t` (`id`, `name`) VALUES (?, ?)"

objects-created_mysql :
    build_create_mysql q query (object ∷ object ∷ []) ≡ some (mysql_text, 7 ∷ 8 ∷ 7 ∷ 8 ∷ [])
unfolding build_create_mysql all_filled write_insert ◌<>◌ separated insert_head listed
    quoted_columns write_row placeholders join
objects-created_mysql = refl

insert-placeholders_example : count b'?' insert_text ≡ length {A = ℕ} (7 ∷ 8 ∷ 7 ∷ 8 ∷ [])
unfolding count
insert-placeholders_example =
    insert-placeholders q refl query refl returning_columns (object ∷ object ∷ []) insert_text
      (7 ∷ 8 ∷ 7 ∷ 8 ∷ []) refl ((refl, (refl, tt)), ((refl, (refl, tt)), tt))
      (inl ((refl, (refl, tt)), objects-created))

format_column-none_example : (format_column q (column_of (codes "t") []) ≡ none) ↔ (
    (given (validate (column_of (codes "t") [])) ≡ true)
    ⊎ (◌≡◌ {A = Option Text} (some []) (some [])))
format_column-none_example = format_column-none q (column_of (codes "t") [])

-- An offset of -1 is written as one of 0 is, and neither as one of 1.
limit_offset_eq_iff_example :
    (write_limit_offset (λ n. n) (pos 10) (negsuc 0)
      ≡ write_limit_offset {A = ℤ} (λ n. n) (pos 10) (pos 0))
    ↔ ((bound_of (pos 10) ≡ bound_of (pos 10)) × (bound_of (negsuc 0) ≡ bound_of (pos 0)))
limit_offset_eq_iff_example =
    limit_offset_eq_iff (λ n. n) (λ m n e. e) (pos 10) (negsuc 0) (pos 10) (pos 0)

prepared : prep_for_like_query postgres (codes "5%_") ≡ some (codes "5\\%\\_")
unfolding prep_for_like_query escape_like replace_all
prepared = refl

prep_for_like_query-exact_example :
    (like (codes "5\\%\\_") (codes "5%_") ≡ text_eq (codes "5%_") (codes "5%_"))
    × (like (codes "5\\%\\_" ++ codes "%") (codes "5%_") ≡ has_prefix (codes "5%_") (codes "5%_"))
    × (like (codes "%" ++ (codes "5\\%\\_" ++ codes "%")) (codes "5%_")
        ≡ contains (codes "5%_") (codes "5%_"))
prep_for_like_query-exact_example =
    prep_for_like_query-exact postgres (codes "5%_") (codes "5\\%\\_") (codes "5%_")
      (refl, (refl, (refl, tt))) prepared
