-- ===== src/Terms/Heads.antt =====
-- The fields and the values that Resolve of src/expr finds, and what they write.
use go_django_queries.Prelude.{
  Bool, true, false, ◌&&◌, not, Option, none, some, List, [], ◌∷◌, codes, is_empty, length,
  if◌then◌else◌, ◌≡◌, refl, sym, arith, Bool-cases, inl, inr, subst,
}
use go_django_queries.Expressions.Placeholders.{count, count-append, IsMatched}
use go_django_queries.Compiler.{Sql, say}
use go_django_queries.Compiler.Matched.{IsPlain, append-IsPlain}
use go_django_queries.RawStatements.Statements.{ResolvedField, RawExpression, sql_of_raw}
use go_django_queries.Terms.Values.{Value}
use go_django_queries.Terms.Casts.{CastFuncEntry}
use go_django_queries.Terms.Functions.{FuncName}
use go_django_queries.Terms.Matched.{IsPlainName}
use go_django_queries.Terms.Parts.{IsPlainFunc, IsMatchedValue}
use go_django_queries.Terms.Casting.{IsPlainEntry}
use go_django_queries.Terms.Data.{FieldState, NamedState, Term, value, raw}
use go_django_queries.Terms.Resolve.{
  TermInfo, clone, over, copied, resolved_field, with_field, without_arguments, update_field_of,
  named_field, some_field, logical_field, unless_kept,
}
use go_django_queries.Terms.Written.{update_sql, logical_head, term_sql}
use go_django_queries.Terms.Fresh.{OkOf, IsFresh, gives_itself-fresh}
use go_django_queries.Terms.Sound.{IsSoundField, IsSoundInfo, IsSoundTerm}

pub func-OkOf : (o : Option FuncName) → IsPlainFunc o → OkOf IsPlainName o
func-OkOf none h = tt
func-OkOf (some f) h = h

pub cast_entry-OkOf : (o : Option CastFuncEntry) → IsPlainEntry o → OkOf (λ e. IsPlain e.sql) o
cast_entry-OkOf none h = tt
cast_entry-OkOf (some e) h = h

module _ {E A : Type 0} (inf : TermInfo E A) (sql : E → Sql A) (sound : IsSoundInfo inf sql) where
  -- The field of a namedExpression or a logicalChainExpr that was resolved.
  abbrev pub IsSoundHead : Option (ResolvedField A) → Type 0
  IsSoundHead none = Unit {0}
  IsSoundHead (some f) = IsSoundField f

  -- The field of an update has no arguments.
  abbrev pub IsPlainHead : Option (ResolvedField A) → Type 0
  IsPlainHead none = Unit {0}
  IsPlainHead (some f) = IsPlain f.sql_text

  without_arguments-OkOf :
      (f : ResolvedField A) (args : List A)
      → count b'?' f.sql_text ≡ length args
      → OkOf IsPlainHead (without_arguments inf f args)
  without_arguments-OkOf f [] h = h
  without_arguments-OkOf f (a ∷ args) h = tt

  update_field_of-OkOf :
      (o : Option (ResolvedField A))
      → OkOf IsSoundField o
      → OkOf IsPlainHead (update_field_of inf o)
  update_field_of-OkOf none h = tt
  update_field_of-OkOf (some f) h = without_arguments-OkOf f f.sql_args h

  pub named_field-OkOf :
      (u : Bool) (n : NamedState A) → n.field ≡ none → OkOf IsPlainHead (named_field inf u n)
  unfolding named_field
  named_field-OkOf u n h = elim (Bool-cases (not (is_empty n.name) && u)) [
    | inl is_named ↦
        rw (is_named, named_field)
          (update_field_of-OkOf (resolved_field inf u n.name) (sound.fields u n.name))
    | inr plain ↦ rw (plain, named_field) (subst IsPlainHead (sym h) tt)
  ]

  some_field-OkOf :
      (o : Option (ResolvedField A)) → OkOf IsSoundField o → OkOf IsSoundHead (some_field inf o)
  some_field-OkOf none h = tt
  some_field-OkOf (some f) h = h

  pub logical_field-OkOf :
      (u : Bool) (n : NamedState A) → n.field ≡ none → OkOf IsSoundHead (logical_field inf u n)
  unfolding logical_field
  logical_field-OkOf u n h = elim (Bool-cases (is_empty n.name)) [
    | inl nameless ↦ rw (nameless, logical_field) (subst IsSoundHead (sym h) tt)
    | inr is_named ↦
        rw (is_named, logical_field)
          (some_field-OkOf (resolved_field inf u n.name) (sound.fields u n.name))
  ]

  update_sql-IsMatched : (o : Option (ResolvedField A)) → IsPlainHead o → IsMatched (update_sql o)
  unfolding count
  update_sql-IsMatched none h = tt
  update_sql-IsMatched (some f) h = append-IsPlain f.sql_text (codes " = ") h refl

  pub named_head-IsMatched :
      (u : Bool) (o : Option (ResolvedField A))
      → IsPlainHead o
      → IsMatched (if u then update_sql o else say [])
  unfolding count
  named_head-IsMatched true o h = update_sql-IsMatched o h
  named_head-IsMatched false o h = refl

  assigned : (b : Bool) → IsPlain (if b then codes " = " else [])
  unfolding count
  assigned true = refl
  assigned false = refl

  pub logical_head-IsMatched :
      (u : Bool) (o : Option (ResolvedField A)) → IsSoundHead o → IsMatched (logical_head u o)
  unfolding count
  logical_head-IsMatched u none h = refl
  logical_head-IsMatched u (some f) h =
      omega (arith, count-append b'?' f.sql_text _, assigned (u && not (is_empty f.sql_text)), h)

  pub with_field-OkOf :
      (f : FieldState A) (o : Option (ResolvedField A))
      → OkOf IsSoundField o
      → OkOf (IsSoundTerm inf sql) (with_field inf f o)
  unfolding term_sql
  with_field-OkOf f none h = tt
  with_field-OkOf f (some r) h = h

  pub value-OkOf :
      (o : Option (Value A))
      → IsMatchedValue inf.class o
      → OkOf (IsSoundTerm inf sql) (over value o)
  unfolding term_sql
  value-OkOf none h = tt
  value-OkOf (some v) h = h

  pub raw-OkOf :
      (o : Option (RawExpression A))
      → IsMatched (sql_of_raw o)
      → OkOf (IsSoundTerm inf sql) (over raw o)
  unfolding term_sql
  raw-OkOf none h = tt
  raw-OkOf (some e) h = h

  pub copied-OkOf :
      (e : Term E A) (o : Option (Term E A))
      → IsFresh inf e
      → OkOf (IsSoundTerm inf sql) o
      → OkOf (IsSoundTerm inf sql) (copied inf e o)
  copied-OkOf e o h k =
      subst (λ b. OkOf (IsSoundTerm inf sql) (if b then clone e else o))
        (sym (gives_itself-fresh inf e sound.modelled h)) k

  pub unless_kept-OkOf :
      (e : Term E A) (o : Option (Term E A))
      → IsFresh inf e
      → OkOf (IsSoundTerm inf sql) o
      → OkOf (IsSoundTerm inf sql) (unless_kept inf e o)
  unless_kept-OkOf e o h k =
      subst (λ b. OkOf (IsSoundTerm inf sql) (if b then some e else o))
        (sym (gives_itself-fresh inf e sound.modelled h)) k
