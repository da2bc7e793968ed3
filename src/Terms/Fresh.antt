-- ===== src/Terms/Fresh.antt =====
-- The expressions of src/expr that were not resolved, and the combinators of Resolve on predicates.
use go_django_queries.Prelude.{
  Bool, true, false, ◌||◌, not, Option, none, some, All, ◌≡◌, ◌⊎◌, refl,
}
use go_django_queries.Expressions.Placeholders.{IsMatched}
use go_django_queries.Compiler.Matched.{IsPlain}
use go_django_queries.RawStatements.Statements.{RawExpression, resolve_raw_fresh, sql_of_raw}
use go_django_queries.Terms.Values.{unsafe_text}
use go_django_queries.Terms.Data.{
  Term, Terms, MaybeTerm, Whens, Params, string, logical_op, field, value, named, logical, chain,
  function, cast, cases, group, raw, other, nil, cons, absent, present, no_whens, when, no_params,
  term_param, constant_param, nil_param,
}
use go_django_queries.Terms.Resolve.{TermInfo, over, over_two, over_three, gives_itself}
use go_django_queries.Terms.Parts.{IsPlainOption}

-- What holds of a result, if there is one.
abbrev pub OkOf : {X : Type 0} → (X → Type 0) → Option X → Type 0
OkOf P none = Unit {0}
OkOf P (some x) = P x

pub over-OkOf :
    {X Y : Type 0} (P : X → Type 0) (Q : Y → Type 0) (f : X → Y) (o : Option X)
    → ((x : X) → P x → Q (f x))
    → OkOf P o
    → OkOf Q (over f o)
over-OkOf P Q f none step h = tt
over-OkOf P Q f (some x) step h = step x h

pub over_two-OkOf :
    {X Y Z : Type 0} (P : X → Type 0) (Q : Y → Type 0) (R : Z → Type 0) (f : X → Y → Z)
    (o : Option X) (p : Option Y)
    → ((x : X) (y : Y) → P x → Q y → R (f x y))
    → OkOf P o
    → OkOf Q p
    → OkOf R (over_two f o p)
over_two-OkOf P Q R f none p step h k = tt
over_two-OkOf P Q R f (some x) p step h k = over-OkOf Q R (f x) p (λ y. step x y h) k

pub over_three-OkOf :
    {X Y Z W : Type 0} (P : X → Type 0) (Q : Y → Type 0) (R : Z → Type 0) (S : W → Type 0)
    (f : X → Y → Z → W) (o : Option X) (p : Option Y) (q : Option Z)
    → ((x : X) (y : Y) (z : Z) → P x → Q y → R z → S (f x y z))
    → OkOf P o
    → OkOf Q p
    → OkOf R q
    → OkOf S (over_three f o p q)
over_three-OkOf P Q R S f none p q step h k l = tt
over_three-OkOf P Q R S f (some x) p q step h k l =
    over_two-OkOf Q R S (f x) p q (λ y z. step x y z h) k l

module _ {E A : Type 0} (inf : TermInfo E A) where
  -- A raw statement whose SQL has as many placeholders as arguments, once it is resolved.
  abbrev pub IsSoundRaw : RawExpression A → Type 0
  IsSoundRaw e = (u : Bool) → IsMatched (sql_of_raw (resolve_raw_fresh (inf.statements u) e))

  -- Nothing in the expression was resolved; text that is written as it stands has no placeholder.
  unfoldable mutual
    pub IsFresh : Term E A → Type 0
    IsFresh (string s) = IsPlain s
    IsFresh (logical_op op) = IsPlain op
    IsFresh (field f) = f.used ≡ false
    IsFresh (value v) =
        (v.used ≡ false)
        × ((v.is_unsafe ≡ false) ⊎ IsPlainOption (unsafe_text inf.quote (inf.class.as_unsafe v.v)))
    IsFresh (named n e) = (n.used ≡ false) × (n.field ≡ none) × IsFresh e
    IsFresh (logical n es) = (n.used ≡ false) × (n.field ≡ none) × AreFresh es
    IsFresh (chain used for_update es) = (used ≡ false) × AreFresh es
    IsFresh (function f es ps) = (f.used ≡ false) × AreFresh es × AreFreshParams ps
    IsFresh (cast c e) = (c.used ≡ false) × All IsPlain c.args × IsFresh e
    IsFresh (cases used informed ws dflt) = (used ≡ false) × AreFreshWhens ws × IsFreshMaybe dflt
    IsFresh (group op negated es) = IsPlain op × AreFresh es
    IsFresh (raw e) = (e.used ≡ false) × IsSoundRaw e
    IsFresh (other e) = Unit {0}

    pub AreFresh : Terms E A → Type 0
    AreFresh nil = Unit {0}
    AreFresh (cons e es) = IsFresh e × AreFresh es

    pub IsFreshMaybe : MaybeTerm E A → Type 0
    IsFreshMaybe absent = Unit {0}
    IsFreshMaybe (present e) = IsFresh e

    pub AreFreshWhens : Whens E A → Type 0
    AreFreshWhens no_whens = Unit {0}
    AreFreshWhens (when l r t ws) =
        IsFreshMaybe l × IsFreshMaybe r × IsFreshMaybe t × AreFreshWhens ws

    pub AreFreshParams : Params E A → Type 0
    AreFreshParams no_params = Unit {0}
    AreFreshParams (term_param e ps) = IsFresh e × AreFreshParams ps
    AreFreshParams (constant_param s ps) = IsPlain s × AreFreshParams ps
    AreFreshParams (nil_param ps) = AreFreshParams ps

  kept-used :
      (used : Bool) → inf.has_model ≡ true → used ≡ false → not inf.has_model || used ≡ false
  kept-used used h k = rw (h, k) refl

  pub gives_itself-fresh :
      (e : Term E A) → inf.has_model ≡ true → IsFresh e → gives_itself inf e ≡ false
  unfolding gives_itself IsFresh
  gives_itself-fresh (string s) m h = refl
  gives_itself-fresh (logical_op op) m h = refl
  gives_itself-fresh (field f) m h = kept-used f.used m h
  gives_itself-fresh (value v) m h = kept-used v.used m h.0
  gives_itself-fresh (named n e) m h = kept-used n.used m h.0
  gives_itself-fresh (logical n es) m h = kept-used n.used m h.0
  gives_itself-fresh (chain used for_update es) m h = kept-used used m h.0
  gives_itself-fresh (function f es ps) m h = kept-used f.used m h.0
  gives_itself-fresh (cast c e) m h = kept-used c.used m h.0
  gives_itself-fresh (cases used informed ws dflt) m h = kept-used used m h.0
  gives_itself-fresh (group op negated es) m h = refl
  gives_itself-fresh (raw e) m h = kept-used e.used m h.0
  gives_itself-fresh (other e) m h = refl
