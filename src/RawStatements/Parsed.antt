-- ===== src/RawStatements/Parsed.antt =====
-- ParseExprStatement of src/expr/statement.go on the pieces of a statement.
use go_django_queries.Prelude.{
  ℕ, zero, suc, false, Option, none, some, List, [], ◌∷◌, map, Text, ◌==◌, ◌≡◌, ◌≢◌, refl, ap, ◌∙◌,
  arith,
}
use go_django_queries.Prelude.Decimal.{
  is_digit, read_digits, itoa, itoa-IsDigits, itoa-ne_nil, read_digits-itoa, IsDigits,
}
use go_django_queries.Rows.Start.{get_elem?}
use go_django_queries.RawStatements.{find_all, field_regex, tables_regex, value_regex}
use go_django_queries.RawStatements.Statements.{
  statement_of, ExpressionStatement, read_index, all_some, value_at, pick_values,
  parse_expr_statement,
}
use go_django_queries.RawStatements.Pieces.{
  Piece, literal, field, table, value, build, print, IsStatement,
}
use go_django_queries.RawStatements.Formatted.{field_names, table_names, template}
use go_django_queries.RawStatements.Stages.{
  numbers, find_fields, find_tables, find_numbers, escape_statement-template,
}

-- The indices that the pieces name, and the values that they choose, counted from 1; without an
-- index all values.
unfoldable pub indices : List Piece → List ℕ
unfolding build
indices ps = build (λ c. []) (λ name. []) (λ name. []) (λ n. n ∷ []) ps

abbrev pub counted_from_one : {A : Type 0} → List A → ℕ → Option A
counted_from_one vs zero = none
counted_from_one vs (suc i) = get_elem? vs i

abbrev pub chosen : {A : Type 0} → List A → List ℕ → Option (List A)
chosen vs [] = some vs
chosen vs (n ∷ ns) = all_some (map (counted_from_one vs) (n ∷ ns))

numbers-indices : (ps : List Piece) → numbers ps ≡ map itoa (indices ps)
unfolding numbers indices build
numbers-indices [] = refl
numbers-indices (literal c ∷ ps) = numbers-indices ps
numbers-indices (field name ∷ ps) = numbers-indices ps
numbers-indices (table name ∷ ps) = numbers-indices ps
numbers-indices (value n ∷ ps) = ap (λ s. itoa n ∷ s) (numbers-indices ps)

read_index-digits : (s : Text) → IsDigits s → s ≢ [] → read_index s ≡ read_digits 0 s
unfolding read_index is_digit
read_index-digits [] h k = absurd (k refl)
read_index-digits (c ∷ []) h k = refl
read_index-digits (c ∷ d ∷ s) h k = let e : c == b'+' ≡ false = ground (arith, h.0) in rw e refl

read_index-itoa : (n : ℕ) → read_index (itoa n) ≡ some n
read_index-itoa n =
    read_index-digits (itoa n) (itoa-IsDigits n) (itoa-ne_nil n) ∙ read_digits-itoa n

value_at-itoa : {A : Type 0} (vs : List A) (n : ℕ) → value_at vs (itoa n) ≡ counted_from_one vs n
unfolding value_at
value_at-itoa vs zero = rw (read_index-itoa zero, value_at) refl
value_at-itoa vs (suc n) = rw (read_index-itoa (suc n), value_at) refl

map-value_at :
    {A : Type 0} (vs : List A) (ns : List ℕ)
    → map (value_at vs) (map itoa ns) ≡ map (counted_from_one vs) ns
map-value_at vs [] = refl
map-value_at vs (n ∷ ns) = rw (value_at-itoa vs n, map-value_at vs ns) refl

pick_values-chosen :
    {A : Type 0} (vs : List A) (ns : List ℕ) → pick_values vs (map itoa ns) ≡ chosen vs ns
unfolding pick_values
pick_values-chosen vs [] = refl
pick_values-chosen vs (n ∷ ns) = ap all_some (map-value_at vs (n ∷ ns))

-- The parsed statement of the pieces, with the values that were chosen.
abbrev pub parsed_with :
    {A : Type 0} → List Piece → Option (List A) → Option (ExpressionStatement A)
parsed_with ps xs = statement_of (template ps) (field_names ps) (table_names ps) xs

-- Parsing the text of pieces finds the names and the indices that were written, in their order, and
-- keeps the values that the indices choose, or all of them where there is none; it panics exactly
-- where an index is 0 or beyond the values.
pub parse-print :
    {A : Type 0} (ps : List Piece) (vs : List A)
    → IsStatement ps
    → parse_expr_statement (print ps) vs ≡ parsed_with ps (chosen vs (indices ps))
unfolding parse_expr_statement
parse-print ps vs h =
    ap
      (λ t.
        statement_of t (find_all field_regex (print ps)) (find_all tables_regex (print ps))
          (pick_values vs (find_all value_regex (print ps))))
      (escape_statement-template ps h)
    ∙ (ap
          (λ t.
            statement_of (template ps) t (find_all tables_regex (print ps))
              (pick_values vs (find_all value_regex (print ps))))
          (find_fields ps h)
        ∙ (ap
              (λ t.
                statement_of (template ps) (field_names ps) t
                  (pick_values vs (find_all value_regex (print ps))))
              (find_tables ps h)
            ∙ ap (λ t. parsed_with ps t)
                (ap (pick_values vs) (find_numbers ps h ∙ numbers-indices ps)
                  ∙ pick_values-chosen vs (indices ps))))
