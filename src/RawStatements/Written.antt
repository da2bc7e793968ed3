-- ===== src/RawStatements/Written.antt =====
-- ParseExprStatement, Resolve and SQL of src/expr/statement.go, one behind the other, on the pieces
-- of a statement.
use go_django_queries.Prelude.{
  Bool, true, false, ◌&&◌, ◌||◌, not, Option, some, List, [], ◌∷◌, ◌++◌, map, Text, if◌then◌else◌,
  ◌==◌, All, ◌≡◌, refl, ap, ◌∙◌, arith, length,
}
use go_django_queries.RawStatements.{sprintf_twice}
use go_django_queries.RawStatements.Statements.{
  with_values, ResolvedField, ExpressionStatement, StatementInfo, all_some, resolve_table,
  resolve_statement, with_resolved, statement_sql, RawExpression, raw_expr, raw_of, sql_of_raw,
  clone_raw, resolve_raw, resolve_raw_fresh, raw_expr_sql, written_raw, field_args, with_statement,
}
use go_django_queries.RawStatements.Pieces.{Piece, print, IsStatement}
use go_django_queries.RawStatements.Formatted.{
  IsPercentless, field_names, table_names, meaning, template, sprintf-fields, sprintf-tables,
}
use go_django_queries.RawStatements.Parsed.{indices, chosen, parsed_with, parse-print}

all_some-map :
    {B : Type 0} (look : Text → Option B) (found : Text → B) (names : List Text)
    → All (λ name. look name ≡ some (found name)) names
    → all_some (map look names) ≡ some (map found names)
all_some-map look found [] h = refl
all_some-map look found (name ∷ names) h = rw (h.0, all_some-map look found names h.1) refl

map-sql_text :
    {A : Type 0} (found : Text → ResolvedField A) (names : List Text)
    → map (λ f. f.sql_text) (map found names) ≡ map (λ name. (found name).sql_text) names
map-sql_text found [] = refl
map-sql_text found (name ∷ names) = ap (λ s. (found name).sql_text ∷ s) (map-sql_text found names)

abbrev pub is_nil : List Text → Bool
is_nil [] = true
is_nil (name ∷ names) = false

lengths-nil :
    {B C : Type 0} (f : Text → B) (g : Text → C) (xs ys : List Text)
    → length (map f xs) == 0 && length (map g ys) == 0 ≡ is_nil (xs ++ ys)
lengths-nil f g [] [] = refl
lengths-nil f g [] (y ∷ ys) = ground arith
lengths-nil f g (x ∷ xs) ys = ground arith

sprintf_twice-pieces :
    (f t : Text → Text) (ps : List Piece)
    → All (λ name. IsPercentless (f name)) (field_names ps)
    → sprintf_twice (template ps) (map f (field_names ps)) (map t (table_names ps))
      ≡ some (meaning f t ps)
sprintf_twice-pieces f t ps h = rw (sprintf-fields f t ps, sprintf_twice) (sprintf-tables f t ps h)

module _ {A : Type 0} (inf : StatementInfo A) (ps : List Piece) (vs xs : List A)
    (found : Text → ResolvedField A) (alias : Text → Text) (modelled : inf.has_model ≡ true)
    (stated : IsStatement ps)
    (fields : All (λ name. inf.resolve_expression_field name ≡ some (found name)) (field_names ps))
    (tables : All (λ name. resolve_table inf name ≡ some (alias name)) (table_names ps))
    (picked : chosen vs (indices ps) ≡ some xs) where
  abbrev resolved_pieces : ExpressionStatement A
  resolved_pieces = record {
    is_used = true;
    resolved_fields = map found (field_names ps);
    resolved_tables = map alias (table_names ps);
    statement = template ps;
    fields = field_names ps;
    tables = table_names ps;
    values = xs;
  }

  abbrev fresh_pieces : ExpressionStatement A
  fresh_pieces = record resolved_pieces {
    is_used = false;
    resolved_fields = [];
    resolved_tables = [];
  }

  abbrev fresh_raw : RawExpression A
  fresh_raw = record { parsed = fresh_pieces; field_name = []; negated = false; used = false }

  resolve_statement-pieces : resolve_statement inf fresh_pieces ≡ some resolved_pieces
  unfolding resolve_statement
  resolve_statement-pieces =
      ap (λ o. with_resolved fresh_pieces o (all_some (map (resolve_table inf) (table_names ps))))
        (all_some-map inf.resolve_expression_field found (field_names ps) fields)
      ∙ ap (λ o. with_resolved fresh_pieces (some (map found (field_names ps))) o)
          (all_some-map (resolve_table inf) alias (table_names ps) tables)

  resolve_raw-modelled :
      (e : RawExpression A)
      → e.used ≡ false
      → resolve_raw inf e ≡ with_statement (clone_raw e) (resolve_statement inf e.parsed)
  unfolding resolve_raw resolve_raw_fresh
  resolve_raw-modelled e fresh =
      ap
        (λ b.
          if not b || e.used
          then some e
          else with_statement (clone_raw e) (resolve_statement inf e.parsed))
        modelled
      ∙ ap
          (λ b. if b then some e else with_statement (clone_raw e) (resolve_statement inf e.parsed))
          fresh

  written_raw-pieces : written_raw inf (raw_expr (print ps) vs) ≡ statement_sql resolved_pieces
  unfolding raw_expr clone_raw raw_expr_sql
  written_raw-pieces =
      ap (λ o. written_raw inf (raw_of [] o))
        (parse-print ps vs stated ∙ ap (parsed_with ps) picked)
      ∙ ap (sql_of_raw) (
          resolve_raw-modelled fresh_raw refl
          ∙ ap (with_statement (clone_raw fresh_raw)) resolve_statement-pieces)

  -- SQL of a statement that names a field or a table.
  statement_sql-named :
      is_nil (field_names ps ++ table_names ps) ≡ false
      → All (λ name. IsPercentless (found name).sql_text) (field_names ps)
      → statement_sql resolved_pieces
        ≡ some (
          meaning (λ name. (found name).sql_text) alias ps,
          field_args (map found (field_names ps)) ++ xs,
        )
  unfolding statement_sql
  statement_sql-named named percentless =
      let f : Text → Text = λ name. (found name).sql_text in
      ap
        (λ b.
          if b
          then some (template ps, xs)
          else with_values
              (sprintf_twice (template ps) (map (λ r. r.sql_text) (map found (field_names ps)))
                (map alias (table_names ps)))
              (field_args (map found (field_names ps)) ++ xs))
        (lengths-nil found alias (field_names ps) (table_names ps) ∙ named)
      ∙ ap (λ o. with_values o (field_args (map found (field_names ps)) ++ xs))
          (ap (λ l. sprintf_twice (template ps) l (map alias (table_names ps)))
              (map-sql_text found (field_names ps))
            ∙ sprintf_twice-pieces f alias ps percentless)

  -- SQL of a statement that names neither.
  statement_sql-nameless :
      is_nil (field_names ps ++ table_names ps) ≡ true
      → statement_sql resolved_pieces ≡ some (template ps, xs)
  unfolding statement_sql
  statement_sql-nameless nameless =
      ap
        (λ b.
          if b
          then some (template ps, xs)
          else with_values
              (sprintf_twice (template ps) (map (λ r. r.sql_text) (map found (field_names ps)))
                (map alias (table_names ps)))
              (field_args (map found (field_names ps)) ++ xs))
        (lengths-nil found alias (field_names ps) (table_names ps) ∙ nameless)

  -- Where a statement names a field or a table, every name resolves, no field's SQL has a percent
  -- sign and every index is in range, its SQL is the statement with each ![name] replaced by the SQL of
  -- the field, each #[name] by the table, each ?[n] by a placeholder, and all other bytes as they were,
  -- percent signs included. Its arguments are those of the fields in their order, then the values.
  pub written_raw-meaning :
      is_nil (field_names ps ++ table_names ps) ≡ false
      → All (λ name. IsPercentless (found name).sql_text) (field_names ps)
      → written_raw inf (raw_expr (print ps) vs)
        ≡ some (
          meaning (λ name. (found name).sql_text) alias ps,
          field_args (map found (field_names ps)) ++ xs,
        )
  written_raw-meaning named percentless = written_raw-pieces ∙ statement_sql-named named percentless

  -- Where a statement names no field and no table, each percent sign of it is written four times, and
  -- each ?[n] as a placeholder.
  pub written_raw-fourfold :
      is_nil (field_names ps ++ table_names ps) ≡ true
      → written_raw inf (raw_expr (print ps) vs) ≡ some (template ps, xs)
  written_raw-fourfold nameless = written_raw-pieces ∙ statement_sql-nameless nameless
