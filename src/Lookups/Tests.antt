-- ===== src/Lookups/Tests.antt =====
-- Lookups on the column t.name of SQLite, with texts for arguments.
use go_django_queries.Prelude.{
  none, some, [], ◌∷◌, Text, codes, lookup, text_eq, is_empty, length, ◌≡◌, refl,
}
use go_django_queries.Expressions.Placeholders.{count}
use go_django_queries.Compiler.{Sql, say, ◌<>◌}
use go_django_queries.Prelude.{ok}
use go_django_queries.Compiler.Like.{sqlite3, prep_for_like_query, escape_like, replace_all}
use go_django_queries.Lookups.Arguments.{
  Normalizer, raw, normalize_args, normalize_pattern, normalize_in, flatten_list,
}
use go_django_queries.Lookups.{
  expression, plain, Values, logical, pattern, in_list, resolve_lookup, resolve_kind,
  resolve_pattern, resolve_logical, resolve_in, logical_rhs,
}
use go_django_queries.Lookups.Operators.{
  sprintf, is_caseless, format_lookup_col, format_op_rhs, lookup_operators_rhs,
  format_logical_op_rhs, math_op_format,
}
use go_django_queries.Lookups.Matched.{lookup-placeholders}

abbrev texts : Values Text
texts = record {
  as_text = λ v. some v;
  of_text = λ v. v;
  as_bool = λ v. some (is_empty v);
  of_expression = λ s. [];
  as_expression = λ v. none;
}

abbrev column : Sql Text
column = say (codes "`t`.`name`")

abbrev contains_text : Text
contains_text = codes "LOWER(`t`.`name`) LIKE LOWER(?) ESCAPE '\\'"

icontains-written :
    resolve_lookup texts sqlite3
      (codes "icontains")
      (pattern (codes "%%%s%%"))
      column
      (plain (codes "ab") ∷ [])
    ≡ some (contains_text, codes "%ab%" ∷ [])
unfolding resolve_lookup resolve_kind resolve_pattern ◌<>◌ format_lookup_col is_caseless text_eq
    format_op_rhs lookup_operators_rhs lookup sprintf
icontains-written = refl

-- Expressions are texts of SQL.
abbrev normalizer : Normalizer Text Text
normalizer = record {
  resolved = λ e. say e;
  unresolved = λ e. say e;
  normalize = λ v. v;
  flatten = λ v. v ∷ [];
  is_zero = λ v. some (is_empty v);
  of_bool = λ b. [];
}

ab-taken :
    normalize_args texts normalizer sqlite3 (pattern (codes "%%%s%%")) (raw (codes "ab") ∷ [])
    ≡ ok (plain (codes "ab") ∷ [])
unfolding normalize_args normalize_pattern prep_for_like_query escape_like replace_all
ab-taken = refl

lookup-placeholders_example : count b'?' contains_text ≡ length {A = Text} (codes "%ab%" ∷ [])
unfolding count text_eq
lookup-placeholders_example =
    lookup-placeholders texts normalizer sqlite3 (codes "icontains") (pattern (codes "%%%s%%"))
      column (raw (codes "ab") ∷ []) (plain (codes "ab") ∷ []) contains_text (codes "%ab%" ∷ [])
      refl tt refl ((tt, tt), tt) ab-taken icontains-written

-- A list of values behind `in` that is empty once flattened panics.
empty_list-taken :
    normalize_args texts
      (record normalizer { flatten = λ v. [] })
      sqlite3
      in_list
      (raw (codes "ab") ∷ [])
    ≡ ok []
unfolding normalize_args normalize_in flatten_list
empty_list-taken = refl

empty_list-panics : resolve_lookup texts sqlite3 (codes "in") in_list column [] ≡ none
unfolding resolve_lookup resolve_kind resolve_in ◌<>◌ format_lookup_col is_caseless text_eq
empty_list-panics = refl

-- So does a bit operator with an expression.
bitand-panics :
    resolve_lookup texts sqlite3
      (codes "bitand")
      (logical (codes "&"))
      column
      (expression column ∷ [])
    ≡ none
unfolding resolve_lookup resolve_kind resolve_logical ◌<>◌ format_lookup_col is_caseless text_eq
    logical_rhs format_logical_op_rhs math_op_format lookup
bitand-panics = refl
