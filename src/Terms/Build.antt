-- ===== src/Terms/Build.antt =====
-- The functions of src/expr that make expressions of values of any type: expressionFromInterface,
-- When and the methods of CaseExpression, Chain, newFunc and As. Such a value is an
-- expression, a string, a slice of values, or a value of another type. None is a panic.
use go_django_queries.Prelude.{
  Bool, true, false, Option, none, some, List, [], ◌∷◌, ◌++◌, Text, is_empty, if◌then◌else◌,
}
use go_django_queries.Terms.Values.{ValueClass, new_value}
use go_django_queries.Terms.Data.{
  Term, Terms, MaybeTerm, Whens, Params, field, value, named, chain, function, cases, nil, cons,
  absent, present, no_whens, when,
}

mutual
  pub data Given (E A : Type 0) : Type 0 where
    given_term : Term E A → Given E A
    given_text : Text → Given E A
    given_slice : Givens E A → Given E A
    given_value : A → Given E A

  pub data Givens (E A : Type 0) : Type 0 where
    no_givens : Givens E A
    and_given : Given E A → Givens E A → Givens E A

-- An argument of Chain or newFunc.
pub data Inner (E A : Type 0) : Type 0 where
  inner_term : Term E A → Inner E A
  inner_text : Text → Inner E A
  inner_other : Inner E A

-- What stands before the values of When: a string, a clause, another expression, or another value.
pub data WhenKey (E A : Type 0) : Type 0 where
  text_key : Text → WhenKey E A
  clause_key expression_key : Term E A → WhenKey E A
  other_key : WhenKey E A

pub record WhenClause (E A : Type 0) : Type 0 where
  pub lhs : MaybeTerm E A
  pub rhs : MaybeTerm E A
  pub result : MaybeTerm E A

pub record CaseState (E A : Type 0) : Type 0 where
  pub clauses : List (WhenClause E A)
  pub dflt : MaybeTerm E A
  pub used : Bool

-- The value of a string and of a slice, and Q, which makes a clause of a string and values.
pub record Makers (E A : Type 0) : Type 0 where
  pub class : ValueClass A
  pub of_text : Text → A
  pub of_slice : Givens E A → A
  pub query : Text → Given E A → List (Given E A) → Term E A

module _ {E A : Type 0} where
  abbrev pub field_expr : Text → Term E A
  field_expr name = field (record { name = name; field = none; used = false })

  -- newFunc
  unfoldable pub new_inner : List (Inner E A) → Option (Terms E A)
  new_inner [] = some nil
  new_inner (inner_term e ∷ rest) = elim (new_inner rest) [
    | none ↦ none
    | some es ↦ some (cons e es)
  ]
  new_inner (inner_text s ∷ rest) = elim (new_inner rest) [
    | none ↦ none
    | some es ↦ some (cons (field_expr s) es)
  ]
  new_inner (inner_other ∷ rest) = none

  abbrev pub as_function : Text → Params E A → Option (Terms E A) → Option (Term E A)
  as_function name ps none = none
  as_function name ps (some es) =
      some (function (record { func_lookup = name; func = none; used = false }) es ps)

  unfoldable pub new_func : Text → Params E A → List (Inner E A) → Option (Term E A)
  unfolding new_inner
  new_func name ps inner = as_function name ps (new_inner inner)

  abbrev pub as_chain : Option (Terms E A) → Option (Term E A)
  as_chain none = none
  as_chain (some nil) = none
  as_chain (some (cons e es)) = some (chain false false (cons e es))

  -- Chain
  unfoldable pub chain_of : List (Inner E A) → Option (Term E A)
  unfolding new_inner
  chain_of inner = as_chain (new_inner inner)

  -- As, of an expression that is not nil.
  unfoldable pub as_named : Text → Term E A → Option (Term E A)
  as_named name e =
      if is_empty name
      then none
      else some (named (record { name = name; field = none; for_update = false; used = false }) e)

module _ {E A : Type 0} (makers : Makers E A) where
  abbrev pub plain_value : A → Term E A
  plain_value v = value (new_value makers.class v false)

  unfoldable mutual
    -- expressionFromInterface of expressions.
    pub expressions_of : Bool → Given E A → List (Term E A)
    expressions_of as_value (given_term e) = e ∷ []
    expressions_of as_value (given_text s) =
        (if as_value then plain_value (makers.of_text s) else field_expr s) ∷ []
    expressions_of as_value (given_slice gs) = all_expressions_of as_value gs
    expressions_of as_value (given_value v) = plain_value v ∷ []

    pub all_expressions_of : Bool → Givens E A → List (Term E A)
    all_expressions_of as_value no_givens = []
    all_expressions_of as_value (and_given g gs) =
        expressions_of as_value g ++ all_expressions_of as_value gs

  -- Value
  unfoldable pub value_expr : Given E A → Term E A
  value_expr (given_term e) = e
  value_expr (given_text s) = plain_value (makers.of_text s)
  value_expr (given_slice gs) = plain_value (makers.of_slice gs)
  value_expr (given_value v) = plain_value v

  -- When
  unfoldable pub when_of : WhenKey E A → List (Given E A) → Option (WhenClause E A)
  unfolding value_expr
  when_of (text_key s) [] = none
  when_of (text_key s) (v ∷ vals) =
      some (record { lhs = present (makers.query s v vals); rhs = absent; result = absent })
  when_of (clause_key e) [] = some (record { lhs = present e; rhs = absent; result = absent })
  when_of (clause_key e) (v ∷ []) =
      some (record { lhs = present e; rhs = absent; result = present (value_expr v) })
  when_of (clause_key e) (v ∷ w ∷ vals) = none
  when_of (expression_key e) [] = none
  when_of (expression_key e) (v ∷ vals) =
      some (record { lhs = present e; rhs = present (value_expr v); result = absent })
  when_of other_key vals = none

  -- The one expression of a value.
  abbrev pub single_of : List (Term E A) → Option (Term E A)
  single_of [] = none
  single_of (e ∷ []) = some e
  single_of (e ∷ f ∷ es) = none

  abbrev pub with_result : WhenClause E A → Option (Term E A) → Option (WhenClause E A)
  with_result w none = none
  with_result w (some e) = some (record w { result = present e })

  abbrev pub unless_given : MaybeTerm E A → Option (WhenClause E A) → Option (WhenClause E A)
  unless_given absent w = w
  unless_given (present e) w = none

  -- (*when).Then
  unfoldable pub then_of : WhenClause E A → Given E A → Option (WhenClause E A)
  unfolding expressions_of
  then_of w g = unless_given w.result (with_result w (single_of (expressions_of true g)))

  abbrev pub and_clause : CaseState E A → Option (WhenClause E A) → Option (CaseState E A)
  and_clause c none = none
  and_clause c (some w) = some (record c { clauses = c.clauses ++ (w ∷ []) })

  -- (*CaseExpression).When
  unfoldable pub case_when : CaseState E A → WhenKey E A → List (Given E A) → Option (CaseState E A)
  unfolding when_of
  case_when c key vals = if c.used then none else and_clause c (when_of key vals)

  abbrev pub onto_clause :
      WhenClause E A → Option (List (WhenClause E A)) → Option (List (WhenClause E A))
  onto_clause w none = none
  onto_clause w (some ws) = some (w ∷ ws)

  abbrev pub only_clause : Option (WhenClause E A) → Option (List (WhenClause E A))
  only_clause none = none
  only_clause (some w) = some (w ∷ [])

  -- Then of the last clause.
  unfoldable pub then_last : List (WhenClause E A) → Given E A → Option (List (WhenClause E A))
  unfolding then_of
  then_last [] g = none
  then_last (w ∷ []) g = only_clause (then_of w g)
  then_last (w ∷ v ∷ ws) g = onto_clause w (then_last (v ∷ ws) g)

  abbrev pub with_clauses : CaseState E A → Option (List (WhenClause E A)) → Option (CaseState E A)
  with_clauses c none = none
  with_clauses c (some ws) = some (record c { clauses = ws })

  -- (*CaseExpression).Then
  unfoldable pub case_then : CaseState E A → Given E A → Option (CaseState E A)
  unfolding then_last
  case_then c g = if c.used then none else with_clauses c (then_last c.clauses g)

  abbrev pub with_default : CaseState E A → Option (Term E A) → Option (CaseState E A)
  with_default c none = none
  with_default c (some e) = some (record c { dflt = present e })

  -- (*CaseExpression).Default
  unfoldable pub case_default : CaseState E A → Given E A → Option (CaseState E A)
  unfolding expressions_of
  case_default c g = if c.used then none else with_default c (single_of (expressions_of true g))

module _ {E A : Type 0} where
  abbrev pub whens_of : List (WhenClause E A) → Whens E A
  whens_of [] = no_whens
  whens_of (w ∷ ws) = when w.lhs w.rhs w.result (whens_of ws)

  -- The expression of a CaseExpression.
  abbrev pub term_of_case : CaseState E A → Term E A
  term_of_case c = cases c.used false (whens_of c.clauses) c.dflt
