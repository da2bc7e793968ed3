-- ===== src/RawStatements/Tests.antt =====
-- Runs of the code of src/expr/statement.go on small statements, and the theorems on them.
use go_django_queries.Prelude.{
  ℕ, true, Option, none, some, List, [], ◌∷◌, Text, codes, text_eq, ◌≡◌, refl,
}
use go_django_queries.Prelude.Decimal.{itoa, digits, read_digits, is_digit}
use go_django_queries.Compiler.Like.{replace_all}
use go_django_queries.Rows.Start.{get_elem?}
use go_django_queries.RawStatements.{
  find_all, replace_matches, scan, bracketed, until_bracket, sprintf,
}
use go_django_queries.RawStatements.Statements.{
  StatementInfo, ResolvedField, parse_expr_statement, resolve_table, raw_expr, f_expr, resolve_raw,
  resolve_raw_fresh, written_raw, RawExpression, clone_raw, resolve_statement, pick_values,
  value_at, read_index,
}
use go_django_queries.RawStatements.Pieces.{
  Piece, literal, field, table, value, print, build, IsStatement,
}
use go_django_queries.RawStatements.Formatted.{field_names, table_names, meaning, template}
use go_django_queries.RawStatements.Parsed.{indices, parsed_with, parse-print}
use go_django_queries.RawStatements.Written.{written_raw-meaning, written_raw-fourfold}

-- ![Age] % #[SELF] ?[2]
abbrev pieces : List Piece
pieces =
    field (codes "Age")
    ∷ literal b'%'
    ∷ table (codes "SELF")
    ∷ literal b'?'
    ∷ literal b' '
    ∷ value 2
    ∷ []

abbrev age : ResolvedField ℕ
age = record { sql_text = codes "t.age + ?"; sql_args = 7 ∷ [] }

abbrev info : StatementInfo ℕ
info = record {
  has_model = true;
  quote = λ s. s;
  resolve_expression_field = λ name. some age;
  model_table = codes "people";
  walk_fields = λ name. none;
}

pieces-IsStatement : IsStatement pieces
pieces-IsStatement =
    ((refl, (refl, (refl, tt))), (refl, ((refl, (refl, (refl, (refl, tt)))), (refl, (refl, tt)))))

abbrev values : List ℕ
values = 3 ∷ 4 ∷ []

parse-print_example :
    parse_expr_statement (print pieces) values ≡ parsed_with pieces (some (4 ∷ []))
unfolding indices build get_elem?
parse-print_example = parse-print pieces values pieces-IsStatement

parse_out_of_range :
    parse_expr_statement (print (value 3 ∷ [])) values ≡ parsed_with (value 3 ∷ []) none
unfolding indices build get_elem?
parse_out_of_range = parse-print (value 3 ∷ []) values tt

written_raw-meaning_example :
    written_raw info (raw_expr (print pieces) values)
    ≡ some (codes "t.age + ?%people? ?", 7 ∷ 4 ∷ [])
unfolding field_names table_names indices build resolve_table text_eq meaning get_elem?
written_raw-meaning_example =
    written_raw-meaning info pieces values (4 ∷ []) (λ name. age) (λ name. codes "people") refl
      pieces-IsStatement (refl, tt) (refl, tt) refl refl
      ((refl, (refl, (refl, (refl, (refl, (refl, (refl, (refl, (refl, tt))))))))), tt)

-- a % ?[1]
abbrev nameless : List Piece
nameless = literal b'a' ∷ literal b'%' ∷ value 1 ∷ []

written_raw-fourfold_example :
    written_raw info (raw_expr (print nameless) values) ≡ some (codes "a%%%%?", 3 ∷ [])
unfolding field_names table_names indices build template get_elem?
written_raw-fourfold_example =
    written_raw-fourfold info nameless values (3 ∷ []) (λ name. age) (λ name. codes "people") refl
      (refl, (refl, tt)) tt tt refl refl

-- F names the expression after its first field, and Resolve loses the name.
abbrev field_name_of : Option (RawExpression ℕ) → Option Text
field_name_of none = none
field_name_of (some e) = some e.field_name

abbrev resolved_of : Option (RawExpression ℕ) → Option (RawExpression ℕ)
resolved_of none = none
resolved_of (some e) = resolve_raw info e

test_field_name : field_name_of (f_expr (print pieces) values) ≡ some (codes "Age")
unfolding f_expr parse_expr_statement find_all replace_matches scan bracketed until_bracket sprintf
    pick_values value_at read_index replace_all print build itoa digits read_digits is_digit
    get_elem?
test_field_name = refl

test_field_name_lost : field_name_of (resolved_of (f_expr (print pieces) values)) ≡ some []
unfolding f_expr parse_expr_statement find_all replace_matches scan bracketed until_bracket sprintf
    pick_values value_at read_index replace_all print build itoa digits read_digits is_digit
    get_elem? resolve_raw resolve_raw_fresh clone_raw resolve_statement resolve_table text_eq
test_field_name_lost = refl
