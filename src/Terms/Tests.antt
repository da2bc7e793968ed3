-- ===== src/Terms/Tests.antt =====
-- Runs of the code of src/expr on small expressions, and the theorems on them.
use go_django_queries.Prelude.{
  ℕ, true, false, Option, none, some, List, [], ◌∷◌, Text, codes, length, lookup, text_eq, ◌≡◌,
  refl, join, inl,
}
use go_django_queries.Expressions.Placeholders.{count}
use go_django_queries.Compiler.{Sql, ◌<>◌}
use go_django_queries.RawStatements.Statements.{ResolvedField}
use go_django_queries.Lookups.Operators.{format_logical_op_rhs, equality_format}
use go_django_queries.Terms.Values.{
  sqlite, postgres, ValueClass, int_kind, integer_value, new_value, value_sql, clone_value,
  resolve_value,
}
use go_django_queries.Terms.Functions.{func_sql, unary_sql, lookup_func, is_one_of}
use go_django_queries.Terms.Casts.{cast_string, cast_float, cast_decimal, resolve_entry, cast_sql}
use go_django_queries.Terms.Data.{
  Term, field, value, named, chain, function, cases, other, nil, cons, absent, present, no_whens,
  when, no_params,
}
use go_django_queries.Terms.Resolve.{
  TermInfo, copied, resolve_fresh, resolve_term, gives_itself, clone, named_field, logical_field,
}
use go_django_queries.Terms.Written.{term_sql, sql_of_term}
use go_django_queries.Terms.Fresh.{IsFresh}
use go_django_queries.Terms.Sound.{IsSoundInfo}
use go_django_queries.Terms.Resolved.{resolve_term-placeholders}
use go_django_queries.Terms.Build.{
  inner_term, inner_text, inner_other, new_inner, new_func, chain_of, Inner,
}
use go_django_queries.Terms.Copies.{resolve_term-clone}
use go_django_queries.Terms.Overfull.{cast_sql-overfull}

-- Values are numbers.
abbrev numbers : ValueClass ℕ
numbers = record {
  kind = λ v. int_kind;
  as_unsafe = λ v. integer_value (codes "7");
  printed = λ v. codes "7";
}

abbrev columns : Text → Option (ResolvedField ℕ)
columns name = some (record { sql_text = codes "t.age"; sql_args = [] })

abbrev info : TermInfo Text ℕ
info = record {
  class = numbers;
  has_model = true;
  statements = λ u. record {
    has_model = true;
    quote = λ s. s;
    resolve_expression_field = columns;
    model_table = codes "people";
    walk_fields = λ name. none;
  };
  quote = λ s. s;
  driver = sqlite;
  placeholder = codes "?";
  resolve_other = λ u e. some (codes "x = ?");
}

abbrev other_sql : Text → Sql ℕ
other_sql e = some (codes "x = ?", 9 ∷ [])

info-IsSoundInfo : IsSoundInfo info other_sql
unfolding count
info-IsSoundInfo = record {
  modelled = refl;
  marked = refl;
  fields = λ u name. refl;
  others = λ u e. refl;
}

abbrev five : Term Text ℕ
five = value (new_value numbers 5 false)

abbrev age : Term Text ℕ
age = field (record { name = codes "Age"; field = none; used = false })

-- CASE WHEN x = ? THEN LOWER(?) WHEN age = ? THEN age ELSE ? END, assigned to a field.
abbrev assigned : Term Text ℕ
assigned =
    named (record { name = codes "Age"; field = none; for_update = false; used = false })
      (cases false false
        (when (present (other (codes "x"))) absent
          (present (
            function (record { func_lookup = codes "LOWER"; func = none; used = false })
              (cons five nil) no_params))
          (when (present age) (present five) (present age) no_whens))
        (present five))

test_assigned :
    sql_of_term numbers other_sql (resolve_term info true assigned)
    ≡ some (
      codes "t.age = CASE WHEN x = ? THEN LOWER(?) WHEN t.age = ? THEN t.age ELSE ? END",
      9 ∷ 5 ∷ 5 ∷ 5 ∷ [],
    )
unfolding resolve_term resolve_fresh gives_itself clone clone_value named_field logical_field
    lookup_func is_one_of text_eq resolve_value term_sql value_sql func_sql unary_sql ◌<>◌
    format_logical_op_rhs lookup equality_format
test_assigned = refl

assigned-IsFresh : IsFresh info assigned
unfolding IsFresh
assigned-IsFresh = (
  refl,
  refl,
  (
    refl,
    (tt, tt, (refl, ((refl, inl refl), tt), tt), (refl, (refl, inl refl), refl, tt)),
    (refl, inl refl),
  ),
)

resolve_term-placeholders_example :
    count b'?' (codes "t.age = CASE WHEN x = ? THEN LOWER(?) WHEN t.age = ? THEN t.age ELSE ? END")
    ≡ length {A = ℕ} (9 ∷ 5 ∷ 5 ∷ 5 ∷ [])
unfolding resolve_term resolve_fresh gives_itself clone clone_value named_field logical_field
    lookup_func is_one_of text_eq resolve_value term_sql value_sql func_sql unary_sql ◌<>◌
    format_logical_op_rhs lookup equality_format
resolve_term-placeholders_example =
    resolve_term-placeholders info other_sql info-IsSoundInfo true assigned
      (codes "t.age = CASE WHEN x = ? THEN LOWER(?) WHEN t.age = ? THEN t.age ELSE ? END")
      (9 ∷ 5 ∷ 5 ∷ 5 ∷ []) assigned-IsFresh refl

abbrev ten : List Text
ten = codes "10" ∷ []

-- CAST(a AS TEXT)%!(EXTRA int=10) for a cast to a string; for the others ten is one argument too few.
cast_sql-overfull_example :
    (cast_sql {A = ℕ} (resolve_entry sqlite cast_string ten) ten (some (codes "a", 5 ∷ []))
      ≡ some (codes "CAST(a AS TEXT)%!(EXTRA int=10)", 5 ∷ []))
    × (cast_sql {A = ℕ} (resolve_entry sqlite cast_float ten) ten (some (codes "a", 5 ∷ [])) ≡ none)
    × (cast_sql {A = ℕ} (resolve_entry sqlite cast_decimal ten) ten (some (codes "a", 5 ∷ []))
        ≡ none)
    × (cast_sql {A = ℕ} (resolve_entry postgres cast_string ten) ten (some (codes "a", 5 ∷ []))
        ≡ some (codes "CAST(a AS TEXT)%!(EXTRA int=10)", 5 ∷ []))
unfolding join
cast_sql-overfull_example = cast_sql-overfull ten (codes "a") (5 ∷ [])

-- A value that was resolved before, in a chain that was not: its placeholder is lost.
abbrev resolved_five : Term Text ℕ
resolved_five = value (record (new_value numbers 5 false) {
  used = true;
  driver = some sqlite;
  placeholder = codes "?";
})

test_lost_placeholder :
    sql_of_term numbers other_sql
      (resolve_term info false (chain false false (cons resolved_five nil)))
    ≡ some ([], 5 ∷ [])
unfolding resolve_term resolve_fresh gives_itself clone clone_value named_field logical_field
    lookup_func is_one_of text_eq resolve_value term_sql value_sql func_sql unary_sql ◌<>◌
    format_logical_op_rhs lookup equality_format
test_lost_placeholder = refl

abbrev five_chain : Term Text ℕ
five_chain = chain false false (cons resolved_five nil)

-- Its clone holds the value without placeholder and driver.
abbrev five_chain_clone : Term Text ℕ
five_chain_clone =
    chain false false (cons (value (record (new_value numbers 5 false) { used = true })) nil)

resolve_term-clone_example :
    (resolve_term info true five_chain_clone
      ≡ copied info five_chain (resolve_fresh info true five_chain))
    × (clone five_chain_clone ≡ some five_chain_clone)
unfolding clone clone_value
resolve_term-clone_example = resolve_term-clone info true five_chain five_chain_clone refl

-- The field Age and the value 5.
abbrev inner : List (Inner Text ℕ)
inner = inner_text (codes "Age") ∷ inner_term five ∷ []

test_chain :
    chain_of inner
    ≡ some (
        chain false false (
          cons (field (record { name = codes "Age"; field = none; used = false })) (cons five nil)))
unfolding chain_of new_inner
test_chain = refl

-- NOW hands newFunc a nil, which is neither an expression nor a string.
abbrev nil_inner : List (Inner Text ℕ)
nil_inner = inner_other ∷ []

test_now : new_func (codes "NOW") no_params nil_inner ≡ none
unfolding new_func new_inner
test_now = refl
