-- ===== src/Terms/Resolved.antt =====
-- Resolve of src/expr on fresh expressions, and the placeholders and the arguments of what it gives
-- back.
use go_django_queries.Prelude.{
  Bool, true, false, Option, none, some, List, ◌++◌, Text, codes, length, ◌≡◌, refl, subst,
}
use go_django_queries.Expressions.Placeholders.{count, IsMatched, group_sql-IsMatched}
use go_django_queries.Compiler.{Sql}
use go_django_queries.Compiler.Matched.{IsPlain, append-IsPlain, <>-IsMatched, say_first-IsMatched}
use go_django_queries.RawStatements.Statements.{resolve_raw_fresh}
use go_django_queries.Terms.Values.{resolve_value}
use go_django_queries.Terms.Casts.{resolve_entry}
use go_django_queries.Terms.Functions.{lookup_func}
use go_django_queries.Terms.Matched.{func_sql-IsMatched, IsPlainName}
use go_django_queries.Terms.Parts.{lookup_func-IsPlain, resolve_value-IsMatched}
use go_django_queries.Terms.Casting.{resolve_entry-IsPlain, cast_sql-IsMatched}
use go_django_queries.Terms.Data.{
  Term, Terms, MaybeTerm, Whens, Params, string, logical_op, field, value, named, logical, chain,
  function, cast, cases, group, raw, other, nil, cons, absent, present, no_whens, when, no_params,
  term_param, constant_param, nil_param,
}
use go_django_queries.Terms.Resolve.{
  TermInfo, over_three, copied, resolve_fresh, resolve_copies, resolve_maybe, resolve_given,
  resolve_whens, resolve_params, resolved_field, named_field, logical_field, used_named,
  used_function, used_cast, unless_kept, resolve_term,
}
use go_django_queries.Terms.Written.{has_members, term_sql, all_sql, params_sql, sql_of_term}
use go_django_queries.Terms.Fresh.{
  OkOf, over-OkOf, over_two-OkOf, over_three-OkOf, IsFresh, AreFresh, IsFreshMaybe, AreFreshWhens,
  AreFreshParams,
}
use go_django_queries.Terms.Sound.{
  IsSoundInfo, IsSoundTerm, AreSoundTerms, IsSoundMaybe, AreSoundWhens, AreSoundParams,
  terms_sql-IsMatched, members_sql-IsMatched, unless_nil-IsMatched, default_sql-IsMatched,
  whens_sql-IsMatched,
}
use go_django_queries.Terms.Heads.{
  IsSoundHead, IsPlainHead, named_field-OkOf, logical_field-OkOf, named_head-IsMatched,
  logical_head-IsMatched, with_field-OkOf, value-OkOf, raw-OkOf, copied-OkOf, unless_kept-OkOf,
  func-OkOf, cast_entry-OkOf,
}

module _ {E A : Type 0} (inf : TermInfo E A) (sql : E → Sql A) (sound : IsSoundInfo inf sql) where
  mutual
    unfolding resolve_fresh term_sql IsFresh count

    resolve_fresh-OkOf :
        (u : Bool) (e : Term E A)
        → IsFresh inf e
        → OkOf (IsSoundTerm inf sql) (resolve_fresh inf u e)
    resolve_fresh-OkOf u (string s) h = h
    resolve_fresh-OkOf u (logical_op op) h =
        append-IsPlain (codes " ") (op ++ codes " ") refl (append-IsPlain op (codes " ") h refl)
    resolve_fresh-OkOf u (field f) h =
        with_field-OkOf inf sql sound f (resolved_field inf u f.name) (sound.fields u f.name)
    resolve_fresh-OkOf u (value v) h =
        value-OkOf inf sql sound (resolve_value inf.class inf.quote inf.driver inf.placeholder v) (
          resolve_value-IsMatched inf.class inf.quote inf.driver inf.placeholder v sound.marked h.1)
    resolve_fresh-OkOf u (named n e) h =
        over_two-OkOf (IsPlainHead inf sql sound) (IsSoundTerm inf sql) (IsSoundTerm inf sql)
          (λ o c. named (used_named inf u n o) c) (named_field inf u n)
          (copied inf e (resolve_fresh inf false e))
          (λ o c p m.
            <>-IsMatched _ (term_sql inf.class sql c) (named_head-IsMatched inf sql sound u o p) m)
          (named_field-OkOf inf sql sound u n h.1)
          (copied-OkOf inf sql sound e _ h.2 (resolve_fresh-OkOf false e h.2))
    resolve_fresh-OkOf u (logical n es) h =
        over_two-OkOf (IsSoundHead inf sql sound) (AreSoundTerms inf sql) (IsSoundTerm inf sql)
          (λ o cs. logical (used_named inf u n o) cs) (logical_field inf u n)
          (resolve_copies inf u es)
          (λ o cs p m. unless_nil-IsMatched inf sql cs _ (
            <>-IsMatched _ _ (logical_head-IsMatched inf sql sound u o p)
              (terms_sql-IsMatched inf sql cs m)))
          (logical_field-OkOf inf sql sound u n h.1) (resolve_copies-OkOf u es h.2)
    resolve_fresh-OkOf u (chain used for_update es) h =
        over-OkOf (AreSoundTerms inf sql) (IsSoundTerm inf sql) (chain true u)
          (resolve_copies inf u es)
          (λ cs m. unless_nil-IsMatched inf sql cs _ (terms_sql-IsMatched inf sql cs m))
          (resolve_copies-OkOf u es h.1)
    resolve_fresh-OkOf u (function f es ps) h =
        over_three-OkOf IsPlainName (AreSoundTerms inf sql) (AreSoundParams inf sql)
          (IsSoundTerm inf sql) (λ name cs qs. function (used_function inf f name) cs qs)
          (lookup_func f.func_lookup) (resolve_copies inf u es) (resolve_params inf u ps)
          (λ name cs qs p m n.
            func_sql-IsMatched name inf.driver (all_sql inf.class sql cs)
              (params_sql inf.class sql qs) p m n)
          (func-OkOf (lookup_func f.func_lookup) (lookup_func-IsPlain f.func_lookup))
          (resolve_copies-OkOf u es h.1) (resolve_params-OkOf u ps h.2)
    resolve_fresh-OkOf u (cast c e) h =
        over_two-OkOf (λ found. IsPlain found.sql) (IsSoundTerm inf sql) (IsSoundTerm inf sql)
          (λ found d. cast (used_cast inf c found) d) (resolve_entry inf.driver c.typ c.args)
          (copied inf e (resolve_fresh inf u e))
          (λ found d p m. cast_sql-IsMatched (some found) c.args (term_sql inf.class sql d) p h.1 m)
          (cast_entry-OkOf (resolve_entry inf.driver c.typ c.args)
            (resolve_entry-IsPlain inf.driver c.typ c.args))
          (copied-OkOf inf sql sound e _ h.2 (resolve_fresh-OkOf u e h.2))
    resolve_fresh-OkOf u (cases used informed ws dflt) h =
        over_two-OkOf (AreSoundWhens inf sql) (IsSoundMaybe inf sql) (IsSoundTerm inf sql)
          (cases true true) (resolve_whens inf u ws) (resolve_maybe inf u dflt)
          (λ vs d p m. say_first-IsMatched (codes "CASE ") _ refl (
            <>-IsMatched _ _ (whens_sql-IsMatched inf sql vs p)
              (<>-IsMatched _ _ (default_sql-IsMatched inf sql d m) refl)))
          (resolve_whens-OkOf u ws h.1) (resolve_maybe-OkOf u dflt h.2)
    resolve_fresh-OkOf u (group op negated es) h =
        over-OkOf (AreSoundTerms inf sql) (IsSoundTerm inf sql) (group op negated)
          (resolve_copies inf u es)
          (λ cs m.
            group_sql-IsMatched negated (has_members cs) _
              (members_sql-IsMatched inf sql op cs h.0 m))
          (resolve_copies-OkOf u es h.1)
    resolve_fresh-OkOf u (raw e) h =
        raw-OkOf inf sql sound (resolve_raw_fresh (inf.statements u) e) (h.1 u)
    resolve_fresh-OkOf u (other e) h =
        over-OkOf (λ r. IsMatched (sql r)) (IsSoundTerm inf sql) other (inf.resolve_other u e)
          (λ r m. m) (sound.others u e)

    resolve_copies-OkOf :
        (u : Bool) (es : Terms E A)
        → AreFresh inf es
        → OkOf (AreSoundTerms inf sql) (resolve_copies inf u es)
    resolve_copies-OkOf u nil h = tt
    resolve_copies-OkOf u (cons e es) h =
        over_two-OkOf (IsSoundTerm inf sql) (AreSoundTerms inf sql) (AreSoundTerms inf sql) cons
          (copied inf e (resolve_fresh inf u e)) (resolve_copies inf u es) (λ c cs p m. (p, m))
          (copied-OkOf inf sql sound e _ h.0 (resolve_fresh-OkOf u e h.0))
          (resolve_copies-OkOf u es h.1)

    resolve_maybe-OkOf :
        (u : Bool) (o : MaybeTerm E A)
        → IsFreshMaybe inf o
        → OkOf (IsSoundMaybe inf sql) (resolve_maybe inf u o)
    resolve_maybe-OkOf u absent h = tt
    resolve_maybe-OkOf u (present e) h =
        over-OkOf (IsSoundTerm inf sql) (IsSoundMaybe inf sql) present
          (copied inf e (resolve_fresh inf u e)) (λ c m. m)
          (copied-OkOf inf sql sound e _ h (resolve_fresh-OkOf u e h))

    resolve_given-OkOf :
        (u : Bool) (o : MaybeTerm E A)
        → IsFreshMaybe inf o
        → OkOf (IsSoundMaybe inf sql) (resolve_given inf u o)
    resolve_given-OkOf u absent h = tt
    resolve_given-OkOf u (present e) h =
        over-OkOf (IsSoundTerm inf sql) (IsSoundMaybe inf sql) present
          (copied inf e (resolve_fresh inf u e)) (λ c m. m)
          (copied-OkOf inf sql sound e _ h (resolve_fresh-OkOf u e h))

    resolve_whens-OkOf :
        (u : Bool) (ws : Whens E A)
        → AreFreshWhens inf ws
        → OkOf (AreSoundWhens inf sql) (resolve_whens inf u ws)
    resolve_whens-OkOf u no_whens h = tt
    resolve_whens-OkOf u (when l r t ws) h =
        over_two-OkOf
          (λ f. (vs : Whens E A) → AreSoundWhens inf sql vs → AreSoundWhens inf sql (f vs))
          (AreSoundWhens inf sql) (AreSoundWhens inf sql) (λ f rest. f rest)
          (over_three when (resolve_given inf u l) (resolve_maybe inf u r) (resolve_given inf u t))
          (resolve_whens inf u ws) (λ f vs p m. p vs m)
          (over_three-OkOf (IsSoundMaybe inf sql) (IsSoundMaybe inf sql) (IsSoundMaybe inf sql)
            (λ f. (vs : Whens E A) → AreSoundWhens inf sql vs → AreSoundWhens inf sql (f vs)) when
            (resolve_given inf u l) (resolve_maybe inf u r) (resolve_given inf u t)
            (λ a b c p m n. λ vs k. (p, m, n, k)) (resolve_given-OkOf u l h.0)
            (resolve_maybe-OkOf u r h.1) (resolve_given-OkOf u t h.2))
          (resolve_whens-OkOf u ws h.3)

    resolve_params-OkOf :
        (u : Bool) (ps : Params E A)
        → AreFreshParams inf ps
        → OkOf (AreSoundParams inf sql) (resolve_params inf u ps)
    resolve_params-OkOf u no_params h = tt
    resolve_params-OkOf u (term_param e ps) h =
        over_two-OkOf (IsSoundTerm inf sql) (AreSoundParams inf sql) (AreSoundParams inf sql)
          term_param (unless_kept inf e (resolve_fresh inf u e)) (resolve_params inf u ps)
          (λ c qs p m. (p, m)) (unless_kept-OkOf inf sql sound e _ h.0 (resolve_fresh-OkOf u e h.0))
          (resolve_params-OkOf u ps h.1)
    resolve_params-OkOf u (constant_param s ps) h =
        over-OkOf (AreSoundParams inf sql) (AreSoundParams inf sql) (constant_param s)
          (resolve_params inf u ps) (λ qs m. (h.0, m)) (resolve_params-OkOf u ps h.1)
    resolve_params-OkOf u (nil_param ps) h =
        over-OkOf (AreSoundParams inf sql) (AreSoundParams inf sql) nil_param
          (resolve_params inf u ps) (λ qs m. (tt, m)) (resolve_params-OkOf u ps h)

  sql_of_term-IsMatched :
      (o : Option (Term E A))
      → OkOf (IsSoundTerm inf sql) o
      → IsMatched (sql_of_term inf.class sql o)
  sql_of_term-IsMatched none h = tt
  sql_of_term-IsMatched (some r) h = h

  -- Where an expression was not resolved before, its own text has no placeholder, and the fields and the
  -- expressions of other types write a placeholder for each argument, SQL that it writes after Resolve
  -- has as many placeholders as it returns arguments, whatever functions, casts, cases, names, chains
  -- and groups it is made of.
  pub resolve_term-placeholders :
      (u : Bool) (e : Term E A) (text : Text) (args : List A)
      → IsFresh inf e
      → sql_of_term inf.class sql (resolve_term inf u e) ≡ some (text, args)
      → count b'?' text ≡ length args
  unfolding resolve_term
  resolve_term-placeholders u e text args h k =
      subst IsMatched k
        (sql_of_term-IsMatched _ (unless_kept-OkOf inf sql sound e _ h (resolve_fresh-OkOf u e h)))
