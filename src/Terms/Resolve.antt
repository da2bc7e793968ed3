-- ===== src/Terms/Resolve.antt =====
-- Clone and Resolve of the expressions of src/expr. Resolve of most types resolves the inner
-- expressions of a clone, so that these are cloned before. None is a panic.
use go_django_queries.Prelude.{
  Bool, true, false, ◌||◌, ◌&&◌, not, Option, none, some, List, [], ◌∷◌, Text, is_empty,
  if◌then◌else◌,
}
use go_django_queries.RawStatements.Statements.{
  ResolvedField, StatementInfo, clone_raw, resolve_raw_fresh,
}
use go_django_queries.Terms.Values.{DriverType, ValueClass, clone_value, resolve_value}
use go_django_queries.Terms.Functions.{FuncName, lookup_func}
use go_django_queries.Terms.Casts.{CastFuncEntry, resolve_entry}
use go_django_queries.Terms.Data.{
  FieldState, NamedState, FunctionState, CastState, Term, Terms, MaybeTerm, Whens, Params, string,
  logical_op, field, value, named, logical, chain, function, cast, cases, group, raw, other, nil,
  cons, absent, present, no_whens, when, no_params, term_param, constant_param, nil_param,
}

-- The expression info. What depends on ForUpdate is a function of it.
pub record TermInfo (E A : Type 0) : Type 0 where
  pub class : ValueClass A
  pub has_model : Bool
  pub statements : Bool → StatementInfo A
  pub quote : Text → Text
  pub driver : DriverType
  pub placeholder : Text
  pub resolve_other : Bool → E → Option E

abbrev pub over : {X Y : Type 0} → (X → Y) → Option X → Option Y
over f none = none
over f (some x) = some (f x)

abbrev pub over_two : {X Y Z : Type 0} → (X → Y → Z) → Option X → Option Y → Option Z
over_two f none y = none
over_two f (some x) y = over (f x) y

abbrev pub over_three :
    {X Y Z W : Type 0} → (X → Y → Z → W) → Option X → Option Y → Option Z → Option W
over_three f none y z = none
over_three f (some x) y z = over_two (f x) y z

unfoldable mutual
  unfolding clone_value clone_raw

  -- Clone
  pub clone : {E A : Type 0} → Term E A → Option (Term E A)
  clone (string s) = some (string s)
  clone (logical_op op) = some (logical_op op)
  clone (field f) = some (field f)
  clone (value v) = some (value (clone_value v))
  clone (named n e) = over (named n) (clone e)
  clone (logical n es) = over (logical n) (clone_all es)
  clone (chain used for_update es) = over (chain used for_update) (clone_all es)
  clone (function f es ps) = over (λ cs. function f cs ps) (clone_all es)
  clone (cast c e) = over (cast c) (clone e)
  clone (cases used informed ws dflt) =
      over_two (cases used false) (clone_whens ws) (clone_maybe dflt)
  clone (group op negated es) = over (group op negated) (clone_all es)
  clone (raw e) = some (raw (clone_raw e))
  clone (other e) = some (other e)

  pub clone_all : {E A : Type 0} → Terms E A → Option (Terms E A)
  clone_all nil = some nil
  clone_all (cons e es) = over_two cons (clone e) (clone_all es)

  pub clone_maybe : {E A : Type 0} → MaybeTerm E A → Option (MaybeTerm E A)
  clone_maybe absent = some absent
  clone_maybe (present e) = over present (clone e)

  -- The left side and the result, which must be there.
  pub clone_given : {E A : Type 0} → MaybeTerm E A → Option (MaybeTerm E A)
  clone_given absent = none
  clone_given (present e) = over present (clone e)

  pub clone_whens : {E A : Type 0} → Whens E A → Option (Whens E A)
  clone_whens no_whens = some no_whens
  clone_whens (when l r t ws) =
      over_two (λ f rest. f rest) (over_three when (clone_given l) (clone_maybe r) (clone_given t))
        (clone_whens ws)

module _ {E A : Type 0} (inf : TermInfo E A) where
  abbrev pub resolved_field : Bool → Text → Option (ResolvedField A)
  resolved_field for_update name = (inf.statements for_update).resolve_expression_field name

  -- Resolve of a field behind its first test.
  abbrev pub with_field : FieldState A → Option (ResolvedField A) → Option (Term E A)
  with_field f none = none
  with_field f (some r) = some (field (record f { field = some r; used = true }))

  abbrev pub without_arguments : ResolvedField A → List A → Option (Option (ResolvedField A))
  without_arguments r [] = some (some r)
  without_arguments r (a ∷ args) = none

  abbrev pub update_field_of : Option (ResolvedField A) → Option (Option (ResolvedField A))
  update_field_of none = none
  update_field_of (some r) = without_arguments r r.sql_args

  -- The field that a namedExpression names in an update.
  unfoldable pub named_field : Bool → NamedState A → Option (Option (ResolvedField A))
  named_field for_update n =
      if not (is_empty n.name) && for_update
      then update_field_of (resolved_field for_update n.name)
      else some n.field

  abbrev pub some_field : Option (ResolvedField A) → Option (Option (ResolvedField A))
  some_field none = none
  some_field (some r) = some (some r)

  -- The field that a logicalChainExpr names.
  unfoldable pub logical_field : Bool → NamedState A → Option (Option (ResolvedField A))
  logical_field for_update n =
      if is_empty n.name then some n.field else some_field (resolved_field for_update n.name)

  abbrev pub used_named : Bool → NamedState A → Option (ResolvedField A) → NamedState A
  used_named for_update n f = record n { field = f; for_update = for_update; used = true }

  abbrev pub used_function : FunctionState → FuncName → FunctionState
  used_function f name = record f { func = some (name, inf.driver); used = true }

  abbrev pub used_cast : CastState → CastFuncEntry → CastState
  used_cast c e = record c { entry = some e; used = true }

  -- The first test of Resolve: an expression that it gives back as it is.
  unfoldable pub gives_itself : Term E A → Bool
  gives_itself (field f) = not inf.has_model || f.used
  gives_itself (value v) = not inf.has_model || v.used
  gives_itself (named n e) = not inf.has_model || n.used
  gives_itself (logical n es) = not inf.has_model || n.used
  gives_itself (chain used for_update es) = not inf.has_model || used
  gives_itself (function f es ps) = not inf.has_model || f.used
  gives_itself (cast c e) = not inf.has_model || c.used
  gives_itself (cases used informed ws dflt) = not inf.has_model || used
  gives_itself (raw e) = not inf.has_model || e.used
  gives_itself (string s) = false
  gives_itself (logical_op op) = false
  gives_itself (group op negated es) = false
  gives_itself (other e) = false

  -- Resolve of a clone, from what Resolve makes of it behind its first test.
  abbrev pub copied : Term E A → Option (Term E A) → Option (Term E A)
  copied e fresh = if gives_itself e then clone e else fresh

  -- The same without a clone.
  abbrev pub unless_kept : Term E A → Option (Term E A) → Option (Term E A)
  unless_kept e fresh = if gives_itself e then some e else fresh

  unfoldable mutual
    unfolding clone clone_value resolve_value named_field logical_field lookup_func resolve_entry
        clone_raw resolve_raw_fresh gives_itself

    -- Resolve of a clone, behind the first test.
    pub resolve_fresh : Bool → Term E A → Option (Term E A)
    resolve_fresh u (string s) = some (string s)
    resolve_fresh u (logical_op op) = some (logical_op op)
    resolve_fresh u (field f) = with_field f (resolved_field u f.name)
    resolve_fresh u (value v) =
        over value (resolve_value inf.class inf.quote inf.driver inf.placeholder v)
    resolve_fresh u (named n e) =
        over_two (λ f c. named (used_named u n f) c) (named_field u n)
          (copied e (resolve_fresh false e))
    resolve_fresh u (logical n es) =
        over_two (λ f cs. logical (used_named u n f) cs) (logical_field u n) (resolve_copies u es)
    resolve_fresh u (chain used for_update es) = over (chain true u) (resolve_copies u es)
    resolve_fresh u (function f es ps) =
        over_three (λ name cs qs. function (used_function f name) cs qs) (lookup_func f.func_lookup)
          (resolve_copies u es) (resolve_params u ps)
    resolve_fresh u (cast c e) =
        over_two (λ found d. cast (used_cast c found) d) (resolve_entry inf.driver c.typ c.args)
          (copied e (resolve_fresh u e))
    resolve_fresh u (cases used informed ws dflt) =
        over_two (cases true true) (resolve_whens u ws) (resolve_maybe u dflt)
    resolve_fresh u (group op negated es) = over (group op negated) (resolve_copies u es)
    resolve_fresh u (raw e) = over raw (resolve_raw_fresh (inf.statements u) e)
    resolve_fresh u (other e) = over other (inf.resolve_other u e)

    pub resolve_copies : Bool → Terms E A → Option (Terms E A)
    resolve_copies u nil = some nil
    resolve_copies u (cons e es) =
        over_two cons (copied e (resolve_fresh u e)) (resolve_copies u es)

    pub resolve_maybe : Bool → MaybeTerm E A → Option (MaybeTerm E A)
    resolve_maybe u absent = some absent
    resolve_maybe u (present e) = over present (copied e (resolve_fresh u e))

    pub resolve_given : Bool → MaybeTerm E A → Option (MaybeTerm E A)
    resolve_given u absent = none
    resolve_given u (present e) = over present (copied e (resolve_fresh u e))

    pub resolve_whens : Bool → Whens E A → Option (Whens E A)
    resolve_whens u no_whens = some no_whens
    resolve_whens u (when l r t ws) =
        over_two (λ f rest. f rest)
          (over_three when (resolve_given u l) (resolve_maybe u r) (resolve_given u t))
          (resolve_whens u ws)

    -- The parameters of a function are resolved without a clone, by the function that lookupFunc
    -- returns.
    pub resolve_params : Bool → Params E A → Option (Params E A)
    resolve_params u no_params = some no_params
    resolve_params u (term_param e ps) =
        over_two term_param (unless_kept e (resolve_fresh u e)) (resolve_params u ps)
    resolve_params u (constant_param s ps) = over (constant_param s) (resolve_params u ps)
    resolve_params u (nil_param ps) = over nil_param (resolve_params u ps)

  -- Resolve
  unfoldable pub resolve_term : Bool → Term E A → Option (Term E A)
  unfolding resolve_fresh gives_itself
  resolve_term u e = unless_kept e (resolve_fresh u e)
