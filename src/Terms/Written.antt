-- ===== src/Terms/Written.antt =====
-- SQL of the expressions of src/expr; none is a panic, or a text that tells of a bad format.
use go_django_queries.Prelude.{
  Bool, true, false, not, ◌&&◌, Option, none, some, List, [], ◌∷◌, ◌++◌, Text, codes, is_empty,
  if◌then◌else◌,
}
use go_django_queries.Expressions.{behind, separator, group_sql}
use go_django_queries.Compiler.{Sql, say, ◌<>◌}
use go_django_queries.Lookups.Operators.{format_logical_op_rhs}
use go_django_queries.RawStatements.Statements.{ResolvedField, raw_expr_sql}
use go_django_queries.Terms.Values.{DriverType, ValueClass, value_sql}
use go_django_queries.Terms.Functions.{FuncName, Param, expression, constant, nothing, func_sql}
use go_django_queries.Terms.Casts.{cast_sql}
use go_django_queries.Terms.Data.{
  NamedState, Term, Terms, MaybeTerm, Whens, Params, string, logical_op, field, value, named,
  logical, chain, function, cast, cases, group, raw, other, nil, cons, absent, present, no_whens,
  when, no_params, term_param, constant_param, nil_param,
}

module _ {A : Type 0} where
  -- SQLText and SQLArgs; none is the nil field.
  abbrev pub field_sql : Option (ResolvedField A) → Sql A
  field_sql none = none
  field_sql (some f) = some (f.sql_text, f.sql_args)

  -- What a namedExpression writes before its expression.
  abbrev pub update_sql : Option (ResolvedField A) → Sql A
  update_sql none = none
  update_sql (some f) = say (f.sql_text ++ codes " = ")

  abbrev pub named_head : NamedState A → Sql A
  named_head n = if n.for_update then update_sql n.field else say []

  -- What a logicalChainExpr writes before its expressions.
  abbrev pub logical_head : Bool → Option (ResolvedField A) → Sql A
  logical_head for_update none = say []
  logical_head for_update (some f) = some (
    f.sql_text ++ (if for_update && not (is_empty f.sql_text) then codes " = " else []),
    f.sql_args,
  )

  abbrev pub call_function : Option (FuncName × DriverType) → List (Sql A) → List (Param A) → Sql A
  call_function none inner params = none
  call_function (some (name, d)) inner params = func_sql name d inner params

  abbrev pub with_rhs : List A → Option (Text × List A) → Sql A
  with_rhs args none = none
  with_rhs args (some (text, dropped)) = some (text, args)

  -- The right side of a clause, formatted by the expression info of the case.
  abbrev pub equal_to : Bool → Sql A → Sql A
  equal_to informed none = none
  equal_to false (some (text, args)) = none
  equal_to true (some (text, args)) = with_rhs args (format_logical_op_rhs (codes "=") text [])

  abbrev pub clause_of : Sql A → Sql A → Sql A → Sql A
  clause_of l r t = say (codes "WHEN ") <> (l <> (r <> (say (codes " THEN ") <> t)))

  abbrev pub if_used : Bool → Sql A → Sql A
  if_used true s = s
  if_used false s = none

module _ {E A : Type 0} where
  abbrev pub unless_nil : Terms E A → Sql A → Sql A
  unless_nil nil s = none
  unless_nil (cons e es) s = s

  abbrev pub has_members : Terms E A → Bool
  has_members nil = false
  has_members (cons e nil) = false
  has_members (cons e (cons f es)) = true

unfoldable mutual
  unfolding value_sql func_sql cast_sql group_sql raw_expr_sql format_logical_op_rhs ◌<>◌

  -- SQL, for the SQL of the other expressions.
  pub term_sql : {E A : Type 0} → ValueClass A → (E → Sql A) → Term E A → Sql A
  term_sql class sql (string s) = say s
  term_sql class sql (logical_op op) = say (codes " " ++ (op ++ codes " "))
  term_sql class sql (field f) = field_sql f.field
  term_sql class sql (value v) = value_sql class v
  term_sql class sql (named n e) = named_head n <> term_sql class sql e
  term_sql class sql (logical n es) =
      unless_nil es (logical_head n.for_update n.field <> terms_sql class sql es)
  term_sql class sql (chain used for_update es) = unless_nil es (terms_sql class sql es)
  term_sql class sql (function f es ps) =
      call_function f.func (all_sql class sql es) (params_sql class sql ps)
  term_sql class sql (cast c e) = cast_sql c.entry c.args (term_sql class sql e)
  term_sql class sql (cases used informed ws dflt) = if_used used (
      say (codes "CASE ")
      <> (whens_sql class sql informed ws <> (default_sql class sql dflt <> say (codes " END"))))
  term_sql class sql (group op negated es) =
      group_sql negated (has_members es) (members_sql class sql op es)
  term_sql class sql (raw e) = raw_expr_sql e
  term_sql class sql (other e) = sql e

  -- One expression behind the other.
  pub terms_sql : {E A : Type 0} → ValueClass A → (E → Sql A) → Terms E A → Sql A
  terms_sql class sql nil = say []
  terms_sql class sql (cons e es) = term_sql class sql e <> terms_sql class sql es

  -- The loop over the children of (*ExprGroup).SQL.
  pub members_sql : {E A : Type 0} → ValueClass A → (E → Sql A) → Text → Terms E A → Sql A
  members_sql class sql op nil = say []
  members_sql class sql op (cons e nil) = term_sql class sql e
  members_sql class sql op (cons e (cons f es)) =
      behind (term_sql class sql e) (separator op) (members_sql class sql op (cons f es))

  -- The inner expressions of a function, each for itself.
  pub all_sql : {E A : Type 0} → ValueClass A → (E → Sql A) → Terms E A → List (Sql A)
  all_sql class sql nil = []
  all_sql class sql (cons e es) = term_sql class sql e ∷ all_sql class sql es

  pub params_sql : {E A : Type 0} → ValueClass A → (E → Sql A) → Params E A → List (Param A)
  params_sql class sql no_params = []
  params_sql class sql (term_param e ps) =
      expression (term_sql class sql e) ∷ params_sql class sql ps
  params_sql class sql (constant_param s ps) = constant s ∷ params_sql class sql ps
  params_sql class sql (nil_param ps) = nothing ∷ params_sql class sql ps

  -- lhs and then, which must be there.
  pub given_sql : {E A : Type 0} → ValueClass A → (E → Sql A) → MaybeTerm E A → Sql A
  given_sql class sql absent = none
  given_sql class sql (present e) = term_sql class sql e

  pub default_sql : {E A : Type 0} → ValueClass A → (E → Sql A) → MaybeTerm E A → Sql A
  default_sql class sql absent = say []
  default_sql class sql (present e) = say (codes " ELSE ") <> term_sql class sql e

  pub rhs_sql : {E A : Type 0} → ValueClass A → (E → Sql A) → Bool → MaybeTerm E A → Sql A
  rhs_sql class sql informed absent = say []
  rhs_sql class sql informed (present e) =
      say (codes " ") <> equal_to informed (term_sql class sql e)

  pub whens_sql : {E A : Type 0} → ValueClass A → (E → Sql A) → Bool → Whens E A → Sql A
  whens_sql class sql informed no_whens = say []
  whens_sql class sql informed (when l r t no_whens) =
      clause_of (given_sql class sql l) (rhs_sql class sql informed r) (given_sql class sql t)
  whens_sql class sql informed (when l r t (when l2 r2 t2 ws)) =
      clause_of (given_sql class sql l) (rhs_sql class sql informed r) (given_sql class sql t)
      <> (say (codes " ") <> whens_sql class sql informed (when l2 r2 t2 ws))

-- SQL of what Resolve gave back.
abbrev pub sql_of_term : {E A : Type 0} → ValueClass A → (E → Sql A) → Option (Term E A) → Sql A
sql_of_term class sql none = none
sql_of_term class sql (some r) = term_sql class sql r
