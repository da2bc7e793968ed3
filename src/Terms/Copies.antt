-- ===== src/Terms/Copies.antt =====
-- Resolve of a clone, for the expressions of src/expr.
use go_django_queries.Prelude.{
  Bool, true, false, Option, some, if◌then◌else◌, ◌≡◌, refl, sym, ap, ◌∙◌, subst,
}
use go_django_queries.RawStatements.Statements.{clone_raw, resolve_raw_fresh}
use go_django_queries.Terms.Values.{clone_value, resolve_value}
use go_django_queries.Terms.Functions.{lookup_func}
use go_django_queries.Terms.Casts.{resolve_entry}
use go_django_queries.Terms.Data.{
  Term, Terms, MaybeTerm, Whens, string, logical_op, field, value, named, logical, chain, function,
  cast, cases, group, raw, other, nil, cons, absent, present, no_whens, when,
}
use go_django_queries.Terms.Resolve.{
  TermInfo, over, over_two, over_three, clone, clone_all, clone_maybe, clone_given, clone_whens,
  gives_itself, copied, resolve_fresh, resolve_copies, resolve_maybe, resolve_given, resolve_whens,
  resolve_params, resolve_term, named_field, logical_field, used_named, used_function, used_cast,
}
use go_django_queries.Terms.Fresh.{OkOf, over-OkOf, over_two-OkOf, over_three-OkOf}

module _ {E A : Type 0} (inf : TermInfo E A) where
  -- An expression with the same clone, that Resolve tests and resolves in the same way.
  abbrev IsCopy : Term E A → Term E A → Type 0
  IsCopy e c =
      (clone c ≡ clone e)
      × (gives_itself inf c ≡ gives_itself inf e)
      × ((u : Bool) → resolve_fresh inf u c ≡ resolve_fresh inf u e)

  abbrev AreCopies : Terms E A → Terms E A → Type 0
  AreCopies es cs =
      (clone_all cs ≡ clone_all es)
      × ((u : Bool) → resolve_copies inf u cs ≡ resolve_copies inf u es)

  abbrev IsMaybeCopy : MaybeTerm E A → MaybeTerm E A → Type 0
  IsMaybeCopy m c =
      (clone_maybe c ≡ clone_maybe m) × ((u : Bool) → resolve_maybe inf u c ≡ resolve_maybe inf u m)

  abbrev IsGivenCopy : MaybeTerm E A → MaybeTerm E A → Type 0
  IsGivenCopy m c =
      (clone_given c ≡ clone_given m) × ((u : Bool) → resolve_given inf u c ≡ resolve_given inf u m)

  abbrev AreWhenCopies : Whens E A → Whens E A → Type 0
  AreWhenCopies ws cs =
      (clone_whens cs ≡ clone_whens ws)
      × ((u : Bool) → resolve_whens inf u cs ≡ resolve_whens inf u ws)

  same_whens :
      {l l' : Option (MaybeTerm E A)} {r r' : Option (MaybeTerm E A)}
      {t t' : Option (MaybeTerm E A)} {ws ws' : Option (Whens E A)}
      → l ≡ l'
      → r ≡ r'
      → t ≡ t'
      → ws ≡ ws'
      → over_two (λ f rest. f rest) (over_three when l r t) ws
        ≡ over_two (λ f rest. f rest) (over_three when l' r' t') ws'
  same_whens h k m n = cc

  copied-copy :
      (e c : Term E A)
      → IsCopy e c
      → (u : Bool) → copied inf c (resolve_fresh inf u c) ≡ copied inf e (resolve_fresh inf u e)
  copied-copy e c h u =
      ap (λ b. if b then clone c else resolve_fresh inf u c) h.1
      ∙ (ap (λ o. if gives_itself inf e then o else resolve_fresh inf u c) h.0
          ∙ ap (λ o. if gives_itself inf e then clone e else o) (h.2 u))

  mutual
    unfolding clone gives_itself resolve_fresh clone_value clone_raw resolve_value resolve_raw_fresh

    clone-IsCopy : (e : Term E A) → OkOf (IsCopy e) (clone e)
    clone-IsCopy (string s) = (refl, refl, λ u. refl)
    clone-IsCopy (logical_op op) = (refl, refl, λ u. refl)
    clone-IsCopy (field f) = (refl, refl, λ u. refl)
    clone-IsCopy (value v) = (refl, refl, λ u. refl)
    clone-IsCopy (named n e) =
        over-OkOf (IsCopy e) (IsCopy (named n e)) (named n) (clone e)
          (λ c h. (
            ap (over (named n)) h.0,
            refl,
            λ u.
                ap (over_two (λ f d. named (used_named inf u n f) d) (named_field inf u n))
                  (copied-copy e c h false),
          ))
          (clone-IsCopy e)
    clone-IsCopy (logical n es) =
        over-OkOf (AreCopies es) (IsCopy (logical n es)) (logical n) (clone_all es)
          (λ cs h. (
            ap (over (logical n)) h.0,
            refl,
            λ u.
                ap (over_two (λ f ds. logical (used_named inf u n f) ds) (logical_field inf u n))
                  (h.1 u),
          ))
          (clone_all-AreCopies es)
    clone-IsCopy (chain used for_update es) =
        over-OkOf (AreCopies es) (IsCopy (chain used for_update es)) (chain used for_update)
          (clone_all es)
          (λ cs h.
            (ap (over (chain used for_update)) h.0, refl, λ u. ap (over (chain true u)) (h.1 u)))
          (clone_all-AreCopies es)
    clone-IsCopy (function f es ps) =
        over-OkOf (AreCopies es) (IsCopy (function f es ps)) (λ cs. function f cs ps) (clone_all es)
          (λ cs h. (
            ap (over (λ ds. function f ds ps)) h.0,
            refl,
            λ u.
                ap
                  (λ o.
                    over_three (λ name ds qs. function (used_function inf f name) ds qs)
                      (lookup_func f.func_lookup) o (resolve_params inf u ps))
                  (h.1 u),
          ))
          (clone_all-AreCopies es)
    clone-IsCopy (cast s e) =
        over-OkOf (IsCopy e) (IsCopy (cast s e)) (cast s) (clone e)
          (λ c h. (
            ap (over (cast s)) h.0,
            refl,
            λ u.
                ap
                  (over_two (λ found d. cast (used_cast inf s found) d)
                    (resolve_entry inf.driver s.typ s.args))
                  (copied-copy e c h u),
          ))
          (clone-IsCopy e)
    clone-IsCopy (cases used informed ws dflt) =
        over_two-OkOf (AreWhenCopies ws) (IsMaybeCopy dflt) (IsCopy (cases used informed ws dflt))
          (cases used false) (clone_whens ws) (clone_maybe dflt)
          (λ vs d h k. (
            ap (λ o. over_two (cases used false) o (clone_maybe d)) h.0
                ∙ ap (over_two (cases used false) (clone_whens ws)) k.0,
            refl,
            λ u.
                ap (λ o. over_two (cases true true) o (resolve_maybe inf u d)) (h.1 u)
                ∙ ap (over_two (cases true true) (resolve_whens inf u ws)) (k.1 u),
          ))
          (clone_whens-AreWhenCopies ws) (clone_maybe-IsMaybeCopy dflt)
    clone-IsCopy (group op negated es) =
        over-OkOf (AreCopies es) (IsCopy (group op negated es)) (group op negated) (clone_all es)
          (λ cs h.
            (ap (over (group op negated)) h.0, refl, λ u. ap (over (group op negated)) (h.1 u)))
          (clone_all-AreCopies es)
    clone-IsCopy (raw e) = (refl, refl, λ u. refl)
    clone-IsCopy (other e) = (refl, refl, λ u. refl)

    clone_all-AreCopies : (es : Terms E A) → OkOf (AreCopies es) (clone_all es)
    clone_all-AreCopies nil = (refl, λ u. refl)
    clone_all-AreCopies (cons e es) =
        over_two-OkOf (IsCopy e) (AreCopies es) (AreCopies (cons e es)) cons (clone e)
          (clone_all es)
          (λ c cs h k. (
            ap (λ o. over_two cons o (clone_all cs)) h.0 ∙ ap (over_two cons (clone e)) k.0,
            λ u.
                ap (λ o. over_two cons o (resolve_copies inf u cs)) (copied-copy e c h u)
                ∙ ap (over_two cons (copied inf e (resolve_fresh inf u e))) (k.1 u),
          ))
          (clone-IsCopy e) (clone_all-AreCopies es)

    clone_maybe-IsMaybeCopy : (m : MaybeTerm E A) → OkOf (IsMaybeCopy m) (clone_maybe m)
    clone_maybe-IsMaybeCopy absent = (refl, λ u. refl)
    clone_maybe-IsMaybeCopy (present e) =
        over-OkOf (IsCopy e) (IsMaybeCopy (present e)) present (clone e)
          (λ c h. (ap (over present) h.0, λ u. ap (over present) (copied-copy e c h u)))
          (clone-IsCopy e)

    clone_given-IsGivenCopy : (m : MaybeTerm E A) → OkOf (IsGivenCopy m) (clone_given m)
    clone_given-IsGivenCopy absent = tt
    clone_given-IsGivenCopy (present e) =
        over-OkOf (IsCopy e) (IsGivenCopy (present e)) present (clone e)
          (λ c h. (ap (over present) h.0, λ u. ap (over present) (copied-copy e c h u)))
          (clone-IsCopy e)

    clone_whens-AreWhenCopies : (ws : Whens E A) → OkOf (AreWhenCopies ws) (clone_whens ws)
    clone_whens-AreWhenCopies no_whens = (refl, λ u. refl)
    clone_whens-AreWhenCopies (when l r t ws) =
        over_two-OkOf
          (λ f. (vs : Whens E A) → AreWhenCopies ws vs → AreWhenCopies (when l r t ws) (f vs))
          (AreWhenCopies ws) (AreWhenCopies (when l r t ws)) (λ f rest. f rest)
          (over_three when (clone_given l) (clone_maybe r) (clone_given t)) (clone_whens ws)
          (λ f vs h k. h vs k)
          (over_three-OkOf (IsGivenCopy l) (IsMaybeCopy r) (IsGivenCopy t)
            (λ f. (vs : Whens E A) → AreWhenCopies ws vs → AreWhenCopies (when l r t ws) (f vs))
            when (clone_given l) (clone_maybe r) (clone_given t)
            (λ a b c h k m.
              λ vs n. (same_whens h.0 k.0 m.0 n.0, λ u. same_whens (h.1 u) (k.1 u) (m.1 u) (n.1 u)))
            (clone_given-IsGivenCopy l) (clone_maybe-IsMaybeCopy r) (clone_given-IsGivenCopy t))
          (clone_whens-AreWhenCopies ws)

  copied-clone :
      (e c : Term E A) (u : Bool)
      → clone e ≡ some c
      → IsCopy e c
      → resolve_term inf u c ≡ copied inf e (resolve_fresh inf u e)
  unfolding resolve_term
  copied-clone e c u same k =
      ap (λ b. if b then some c else resolve_fresh inf u c) k.1
      ∙ (ap (λ o. if gives_itself inf e then o else resolve_fresh inf u c) (sym same)
          ∙ ap (λ o. if gives_itself inf e then clone e else o) (k.2 u))

  -- Resolve of a clone of an expression is what the loops over inner expressions make of the expression
  -- itself: its clone, where Resolve gives it back as it is, and else what Resolve makes of it. Cloning
  -- again changes nothing.
  pub resolve_term-clone :
      (u : Bool) (e c : Term E A)
      → clone e ≡ some c
      → (resolve_term inf u c ≡ copied inf e (resolve_fresh inf u e)) × (clone c ≡ some c)
  resolve_term-clone u e c h =
      let k = subst (OkOf (IsCopy e)) h (clone-IsCopy e) in (copied-clone e c u h k, k.0 ∙ h)
