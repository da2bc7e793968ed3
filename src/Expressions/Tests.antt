-- ===== src/Expressions/Tests.antt =====
-- Expressions on a table with the fields zero and one.
use go_django_queries.Prelude.{ℕ, true, some, [], ◌∷◌, codes, length, ◌++◌, false, ◌≡◌, refl}
use go_django_queries.Expressions.{
  Node, Expression, node, nil, cons, expr, and_with, set_not, Resolver, to_sql, node_sql, group_sql,
  resolve, resolve_node,
}
use go_django_queries.Expressions.Resolved.{resolve_again}
use go_django_queries.Expressions.Placeholders.{count, IsSound, placeholders-length}

-- An info is a byte for the field's table.
abbrev resolver : Resolver ℕ ℕ ℕ
resolver = record {
  has_model = λ inf. true;
  resolve_field = λ inf f. f;
  get_lookup = λ inf lookup f args. some (inf ∷ (lookup ++ codes "?"), args);
}

abbrev filter : Expression ℕ ℕ
filter =
    and_with (expr 0 (codes "=") (5 ∷ [])) (cons (set_not true (expr 1 (codes ">") (7 ∷ []))) nil)

abbrev left : Node ℕ ℕ
left = record {
  sql = some (codes "t=?", 5 ∷ []);
  args = 5 ∷ [];
  negated = false;
  field = 0;
  lookup = codes "=";
  used = true;
}

abbrev right : Node ℕ ℕ
right = record {
  sql = some (codes "t>?", 7 ∷ []);
  args = 7 ∷ [];
  negated = true;
  field = 1;
  lookup = codes ">";
  used = true;
}

abbrev resolved : Expression ℕ ℕ
resolved = and_with (node left) (cons (node right) nil)

filter-resolved : resolve resolver b't' filter ≡ some resolved
unfolding resolve resolve_node set_not
filter-resolved = refl

resolved-sql : to_sql resolved ≡ some (codes "(t=? AND NOT (t>?))", 5 ∷ 7 ∷ [])
unfolding to_sql node_sql group_sql
resolved-sql = refl

resolve_again_example : resolve resolver b'u' resolved ≡ some resolved
resolve_again_example = resolve_again resolver b't' b'u' refl filter resolved filter-resolved

resolved-IsSound : IsSound resolved
unfolding IsSound count
resolved-IsSound = (refl, (refl, (refl, tt)))

placeholders-length_example : count b'?' (codes "(t=? AND NOT (t>?))") ≡ length {A = ℕ} (5 ∷ 7 ∷ [])
placeholders-length_example =
    placeholders-length resolved (codes "(t=? AND NOT (t>?))") (5 ∷ 7 ∷ []) resolved-IsSound
      resolved-sql
