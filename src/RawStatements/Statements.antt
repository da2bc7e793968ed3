-- ===== src/RawStatements/Statements.antt =====
-- ExpressionStatement and RawNamedExpression of src/expr/statement.go and src/expr/expr_raw.go: parsing
-- a statement, Resolve and SQL. `A` is the type of arguments.
use go_django_queries.Prelude.{
  ℕ, zero, suc, Bool, true, false, ◌&&◌, ◌||◌, not, Option, none, some, List, [], ◌∷◌, ◌++◌, map,
  Text, codes, text_eq, if◌then◌else◌, ◌==◌, length,
}
use go_django_queries.Prelude.Decimal.{read_digits}
use go_django_queries.Compiler.{Sql}
use go_django_queries.Compiler.Like.{replace_all}
use go_django_queries.Rows.Start.{get_elem?}
use go_django_queries.RawStatements.{
  field_regex, find_all, replace_matches, sprintf, sprintf_twice, tables_regex, value_regex,
}

-- SQLText and SQLArgs of a ResolvedField.
pub record ResolvedField (A : Type 0) : Type 0 where
  pub sql_text : Text
  pub sql_args : List A

pub record ExpressionStatement (A : Type 0) : Type 0 where
  pub is_used : Bool
  pub resolved_fields : List (ResolvedField A)
  pub resolved_tables : List Text
  pub statement : Text
  pub fields : List Text
  pub tables : List Text
  pub values : List A

-- What Resolve asks of the expression info, where none is a panic: ResolveExpressionField, and for a
-- table either that of the model or, from WalkFields, the aliases and the table of the last model.
pub record StatementInfo (A : Type 0) : Type 0 where
  pub has_model : Bool
  pub quote : Text → Text
  pub resolve_expression_field : Text → Option (ResolvedField A)
  pub model_table : Text
  pub walk_fields : Text → Option (List Text × Text)

-- strconv.Atoi, where none is an error or a negative number.
unfoldable pub read_index : Text → Option ℕ
read_index [] = none
read_index (c ∷ []) = read_digits 0 (c ∷ [])
read_index (c ∷ d ∷ s) = if c == b'+' then read_digits 0 (d ∷ s) else read_digits 0 (c ∷ d ∷ s)

abbrev pub self_table : Text
self_table = codes "SELF"

abbrev pub all_some : {B : Type 0} → List (Option B) → Option (List B)
all_some [] = some []
all_some (none ∷ os) = none
all_some (some x ∷ os) = elim (all_some os) [ none ↦ none | some xs ↦ some (x ∷ xs) ]

abbrev pub last_of : Text → List Text → Text
last_of x [] = x
last_of x (y ∷ ys) = last_of y ys

-- The statement, once its groups are read.
abbrev pub escape_statement : Text → Text
escape_statement s = replace_matches value_regex (codes "?") (
    replace_matches tables_regex (codes "%%s")
      (replace_matches field_regex (codes "%s") (replace_all s b'%' (codes "%%%%"))))

module _ {A : Type 0} where
  -- The value at an index that starts at 1.
  unfoldable pub value_at : List A → Text → Option A
  value_at value index = elim (read_index index) [
    | none ↦ none
    | some zero ↦ none
    | some (suc i) ↦ get_elem? value i
  ]

  -- The values by their indices, or all of them where there is no index.
  unfoldable pub pick_values : List A → List Text → Option (List A)
  unfolding value_at
  pick_values value [] = some value
  pick_values value (index ∷ indices) = all_some (map (value_at value) (index ∷ indices))

  abbrev pub statement_of :
      Text → List Text → List Text → Option (List A) → Option (ExpressionStatement A)
  statement_of text names table_names none = none
  statement_of text names table_names (some picked) = some (record {
    is_used = false;
    resolved_fields = [];
    resolved_tables = [];
    statement = text;
    fields = names;
    tables = table_names;
    values = picked;
  })

  -- ParseExprStatement; none is a panic.
  unfoldable pub parse_expr_statement : Text → List A → Option (ExpressionStatement A)
  unfolding pick_values find_all replace_matches replace_all
  parse_expr_statement s value =
      statement_of (escape_statement s) (find_all field_regex s) (find_all tables_regex s)
        (pick_values value (find_all value_regex s))

  abbrev pub table_of : StatementInfo A → Option (List Text × Text) → Option Text
  table_of inf none = none
  table_of inf (some ([], table)) = some (inf.quote table)
  table_of inf (some (alias ∷ aliases, table)) = some (last_of alias aliases)

  -- One table of the statement.
  unfoldable pub resolve_table : StatementInfo A → Text → Option Text
  resolve_table inf name =
      if text_eq name self_table then some inf.model_table else table_of inf (inf.walk_fields name)

  abbrev pub with_resolved :
      ExpressionStatement A
      → Option (List (ResolvedField A))
      → Option (List Text)
      → Option (ExpressionStatement A)
  with_resolved s none ts = none
  with_resolved s (some fs) none = none
  with_resolved s (some fs) (some ts) =
      some (record s { is_used = true; resolved_fields = fs; resolved_tables = ts })

  -- (*ExpressionStatement).Resolve
  unfoldable pub resolve_statement :
      StatementInfo A → ExpressionStatement A → Option (ExpressionStatement A)
  unfolding resolve_table
  resolve_statement inf s =
      if s.is_used && length s.fields == length s.resolved_fields
      then some s
      else with_resolved s (all_some (map inf.resolve_expression_field s.fields))
          (all_some (map (resolve_table inf) s.tables))

  abbrev pub field_args : List (ResolvedField A) → List A
  field_args [] = []
  field_args (f ∷ fs) = f.sql_args ++ field_args fs

  abbrev pub with_values : Option Text → List A → Sql A
  with_values none args = none
  with_values (some text) args = some (text, args)

  -- (*ExpressionStatement).SQL; none is also a text that tells of a bad format.
  unfoldable pub statement_sql : ExpressionStatement A → Sql A
  unfolding sprintf
  statement_sql s =
      if not s.is_used
      then none
      else if length s.resolved_fields == 0 && length s.resolved_tables == 0
      then some (s.statement, s.values)
      else with_values
          (sprintf_twice s.statement (map (λ f. f.sql_text) s.resolved_fields) s.resolved_tables)
          (field_args s.resolved_fields ++ s.values)

-- A RawNamedExpression; none is the nil statement.
pub record RawExpression (A : Type 0) : Type 0 where
  pub parsed : ExpressionStatement A
  pub field_name : Text
  pub negated : Bool
  pub used : Bool

module _ {A : Type 0} where
  abbrev pub raw_of : Text → Option (ExpressionStatement A) → Option (RawExpression A)
  raw_of name none = none
  raw_of name (some s) =
      some (record { parsed = s; field_name = name; negated = false; used = false })

  -- Raw
  unfoldable pub raw_expr : Text → List A → Option (RawExpression A)
  unfolding parse_expr_statement
  raw_expr s value = raw_of [] (parse_expr_statement s value)

  abbrev pub named_first : ExpressionStatement A → List Text → Option (RawExpression A)
  named_first s [] = none
  named_first s (name ∷ names) = raw_of name (some s)

  -- F of a string.
  unfoldable pub f_expr : Text → List A → Option (RawExpression A)
  unfolding parse_expr_statement
  f_expr s value = elim (parse_expr_statement s value) [
    | none ↦ none
    | some parsed ↦ named_first parsed parsed.fields
  ]

  -- (*RawNamedExpression).Clone
  unfoldable pub clone_raw : RawExpression A → RawExpression A
  clone_raw e = record e { field_name = [] }

  abbrev pub with_statement :
      RawExpression A → Option (ExpressionStatement A) → Option (RawExpression A)
  with_statement e none = none
  with_statement e (some s) = some (record e { parsed = s; used = true })

  -- (*RawNamedExpression).Resolve behind its first test.
  unfoldable pub resolve_raw_fresh : StatementInfo A → RawExpression A → Option (RawExpression A)
  unfolding clone_raw resolve_statement
  resolve_raw_fresh inf e = with_statement (clone_raw e) (resolve_statement inf e.parsed)

  -- (*RawNamedExpression).Resolve
  unfoldable pub resolve_raw : StatementInfo A → RawExpression A → Option (RawExpression A)
  unfolding resolve_raw_fresh
  resolve_raw inf e = if not inf.has_model || e.used then some e else resolve_raw_fresh inf e

  -- (*RawNamedExpression).SQL
  unfoldable pub raw_expr_sql : RawExpression A → Sql A
  unfolding statement_sql
  raw_expr_sql e = statement_sql e.parsed

  abbrev pub sql_of_raw : Option (RawExpression A) → Sql A
  sql_of_raw none = none
  sql_of_raw (some e) = raw_expr_sql e

  -- An expression that is made, resolved and written.
  abbrev pub written_raw : StatementInfo A → Option (RawExpression A) → Sql A
  written_raw inf none = none
  written_raw inf (some e) = sql_of_raw (resolve_raw inf e)
