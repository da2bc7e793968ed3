-- ===== src/Terms/Sound.antt =====
-- Placeholders and arguments of what an expression of src/expr writes after Resolve.
use go_django_queries.Prelude.{
  Bool, true, none, some, Text, codes, length, All, ◌≡◌, refl, arith, lookup, text_eq,
}
use go_django_queries.Expressions.{separator}
use go_django_queries.Expressions.Placeholders.{count, IsMatched, behind-IsMatched, count-separator}
use go_django_queries.Compiler.{Sql}
use go_django_queries.Compiler.Matched.{IsPlain, <>-IsMatched, say_first-IsMatched}
use go_django_queries.Lookups.Operators.{format_logical_op_rhs, equality_format}
use go_django_queries.RawStatements.Statements.{ResolvedField}
use go_django_queries.Terms.Matched.{IsSoundParam}
use go_django_queries.Terms.Data.{
  Term, Terms, MaybeTerm, Whens, Params, nil, cons, absent, present, no_whens, when,
}
use go_django_queries.Terms.Resolve.{TermInfo, resolved_field}
use go_django_queries.Terms.Written.{
  unless_nil, equal_to, clause_of, term_sql, terms_sql, members_sql, all_sql, params_sql, given_sql,
  default_sql, rhs_sql, whens_sql,
}
use go_django_queries.Terms.Fresh.{OkOf}

-- A field whose SQL has as many placeholders as arguments.
abbrev pub IsSoundField : {A : Type 0} → ResolvedField A → Type 0
IsSoundField f = count b'?' f.sql_text ≡ length f.sql_args

-- An expression info with a model and one placeholder, and sound fields and other expressions.
pub record IsSoundInfo {E A : Type 0} (inf : TermInfo E A) (sql : E → Sql A) : Type 0 where
  pub modelled : inf.has_model ≡ true
  pub marked : count b'?' inf.placeholder ≡ 1
  pub fields : (u : Bool) (name : Text) → OkOf IsSoundField (resolved_field inf u name)
  pub others : (u : Bool) (e : E) → OkOf (λ r. IsMatched (sql r)) (inf.resolve_other u e)

module _ {E A : Type 0} (inf : TermInfo E A) (sql : E → Sql A) where
  abbrev pub IsSoundTerm : Term E A → Type 0
  IsSoundTerm e = IsMatched (term_sql inf.class sql e)

  abbrev pub AreSoundTerms : Terms E A → Type 0
  AreSoundTerms es = All IsMatched (all_sql inf.class sql es)

  abbrev pub IsSoundMaybe : MaybeTerm E A → Type 0
  IsSoundMaybe absent = Unit {0}
  IsSoundMaybe (present e) = IsSoundTerm e

  abbrev pub AreSoundWhens : Whens E A → Type 0
  AreSoundWhens no_whens = Unit {0}
  AreSoundWhens (when l r t ws) =
      IsSoundMaybe l × IsSoundMaybe r × IsSoundMaybe t × AreSoundWhens ws

  abbrev pub AreSoundParams : Params E A → Type 0
  AreSoundParams ps = All IsSoundParam (params_sql inf.class sql ps)

  pub terms_sql-IsMatched :
      (es : Terms E A) → AreSoundTerms es → IsMatched (terms_sql inf.class sql es)
  unfolding term_sql count
  terms_sql-IsMatched nil h = refl
  terms_sql-IsMatched (cons e es) h =
      <>-IsMatched (term_sql inf.class sql e) _ h.0 (terms_sql-IsMatched es h.1)

  pub members_sql-IsMatched :
      (op : Text) (es : Terms E A)
      → IsPlain op
      → AreSoundTerms es
      → IsMatched (members_sql inf.class sql op es)
  unfolding term_sql count
  members_sql-IsMatched op nil k h = refl
  members_sql-IsMatched op (cons e nil) k h = h.0
  members_sql-IsMatched op (cons e (cons f es)) k h =
      behind-IsMatched (term_sql inf.class sql e) _ (separator op) (count-separator op k) h.0
        (members_sql-IsMatched op (cons f es) k h.1)

  pub unless_nil-IsMatched :
      (es : Terms E A) (s : Sql A) → IsMatched s → IsMatched (unless_nil es s)
  unless_nil-IsMatched nil s h = tt
  unless_nil-IsMatched (cons e es) s h = h

  given_sql-IsMatched : (m : MaybeTerm E A) → IsSoundMaybe m → IsMatched (given_sql inf.class sql m)
  unfolding term_sql
  given_sql-IsMatched absent h = tt
  given_sql-IsMatched (present e) h = h

  pub default_sql-IsMatched :
      (m : MaybeTerm E A) → IsSoundMaybe m → IsMatched (default_sql inf.class sql m)
  unfolding term_sql count
  default_sql-IsMatched absent h = refl
  default_sql-IsMatched (present e) h = say_first-IsMatched (codes " ELSE ") _ refl h

  equal_to-IsMatched : (s : Sql A) → IsMatched s → IsMatched (equal_to true s)
  unfolding format_logical_op_rhs equality_format lookup text_eq count
  equal_to-IsMatched none h = tt
  equal_to-IsMatched (some (text, args)) h = omega (arith, h)

  rhs_sql-IsMatched :
      (m : MaybeTerm E A) → IsSoundMaybe m → IsMatched (rhs_sql inf.class sql true m)
  unfolding term_sql count
  rhs_sql-IsMatched absent h = refl
  rhs_sql-IsMatched (present e) h =
      say_first-IsMatched (codes " ") _ refl (equal_to-IsMatched (term_sql inf.class sql e) h)

  clause_of-IsMatched :
      (l r t : Sql A) → IsMatched l → IsMatched r → IsMatched t → IsMatched (clause_of l r t)
  unfolding count
  clause_of-IsMatched l r t h k m =
      say_first-IsMatched (codes "WHEN ") _ refl
        (<>-IsMatched l _ h (<>-IsMatched r _ k (say_first-IsMatched (codes " THEN ") t refl m)))

  when-IsMatched :
      (l r t : MaybeTerm E A)
      → IsSoundMaybe l
      → IsSoundMaybe r
      → IsSoundMaybe t
      → IsMatched (
          clause_of
            (given_sql inf.class sql l)
            (rhs_sql inf.class sql true r)
            (given_sql inf.class sql t))
  when-IsMatched l r t h k m =
      clause_of-IsMatched _ _ _ (given_sql-IsMatched l h) (rhs_sql-IsMatched r k)
        (given_sql-IsMatched t m)

  pub whens_sql-IsMatched :
      (ws : Whens E A) → AreSoundWhens ws → IsMatched (whens_sql inf.class sql true ws)
  unfolding term_sql count
  whens_sql-IsMatched no_whens h = refl
  whens_sql-IsMatched (when l r t no_whens) h = when-IsMatched l r t h.0 h.1 h.2
  whens_sql-IsMatched (when l r t (when l2 r2 t2 ws)) h =
      <>-IsMatched _ _ (when-IsMatched l r t h.0 h.1 h.2)
        (say_first-IsMatched (codes " ") _ refl (whens_sql-IsMatched (when l2 r2 t2 ws) h.3))
