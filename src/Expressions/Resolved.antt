-- ===== src/Expressions/Resolved.antt =====
-- Resolve of src/expr/expr_logical.go on expressions that were resolved.
use go_django_queries.Prelude.{
  Bool, true, false, Option, none, some, List, Text, ◌≡◌, refl, ap, ◌∙◌, Option-cases, inl, inr,
  ◌⊎◌, subst,
}
use go_django_queries.Expressions.{
  Node, Expression, Expressions, node, group, nil, cons, Resolver, with_sql, resolve_if,
  resolve_node, to_group, to_cons, resolve, resolve_all,
}

module _ {I F A : Type 0} (resolver : Resolver I F A) (inf later : I)
    (modelled : resolver.has_model later ≡ true) where
  -- The expressions that Resolve gives back as they are.
  abbrev IsStable : Expression F A → Type 0
  IsStable r = resolve resolver later r ≡ some r

  resolve_if-used :
      (model used : Bool) (self fresh : Option (Expression F A))
      → model ≡ true
      → used ≡ true
      → resolve_if resolver model used self fresh ≡ self
  resolve_if-used true true self fresh h k = refl
  resolve_if-used true false self fresh h k = absurd (cc)
  resolve_if-used false used self fresh h k = absurd (cc)

  used-IsStable : (n : Node F A) → n.used ≡ true → IsStable (node n)
  unfolding resolve resolve_node
  used-IsStable n used =
      resolve_if-used (resolver.has_model later) n.used (some (node n)) _ modelled used

  with_sql-IsStable :
      (n : Node F A) (o : Option (Text × List A)) (r : Expression F A)
      → with_sql resolver inf n o ≡ some r
      → IsStable r
  with_sql-IsStable n none r h = absurd (cc)
  with_sql-IsStable n (some found) r h = subst IsStable (cc) (
      used-IsStable
        (record n { sql = some found; field = resolver.resolve_field inf n.field; used = true })
        refl)

  resolve_if-some :
      (model used : Bool) (self fresh : Option (Expression F A)) (r : Expression F A)
      → resolve_if resolver model used self fresh ≡ some r
      → ((used ≡ true) × (self ≡ some r)) ⊎ (fresh ≡ some r)
  resolve_if-some false used self fresh r h = absurd (cc)
  resolve_if-some true true self fresh r h = inl (refl, h)
  resolve_if-some true false self fresh r h = inr h

  resolve_node-IsStable :
      (n : Node F A) (r : Expression F A) → resolve_node resolver inf n ≡ some r → IsStable r
  unfolding resolve_node
  resolve_node-IsStable n r h =
      elim (resolve_if-some (resolver.has_model inf) n.used (some (node n)) _ r h) [
        | inl (used, same) ↦ subst IsStable (cc) (used-IsStable n used)
        | inr found ↦ with_sql-IsStable n _ r found
      ]

  mutual
    unfolding resolve

    resolve-IsStable : (e r : Expression F A) → resolve resolver inf e ≡ some r → IsStable r
    resolve-IsStable (node n) r h = resolve_node-IsStable n r h
    resolve-IsStable (group children op negated) r h =
        elim (Option-cases (resolve_all resolver inf children)) [
          | inl failed ↦ absurd (let k = rw (failed, to_group) at h in cc)
          | inr (rs, found) ↦
              let k : some (group rs op negated) ≡ some r = rw (found, to_group) at h in
              subst IsStable (cc)
                (ap (to_group resolver op negated) (resolve_all-again children rs found))
        ]

    resolve_all-again :
        (es rs : Expressions F A)
        → resolve_all resolver inf es ≡ some rs
        → resolve_all resolver later rs ≡ some rs
    resolve_all-again nil rs h =
        let same : nil ≡ rs = cc in subst (λ l. resolve_all resolver later l ≡ some l) same refl
    resolve_all-again (cons e es) rs h = elim (Option-cases (resolve resolver inf e)) [
      | inl failed ↦ absurd (let k = rw (failed, to_cons) at h in cc)
      | inr (r, first) ↦ elim (Option-cases (resolve_all resolver inf es)) [
        | inl failed ↦ absurd (let k = rw (failed, to_cons) at (rw (first, to_cons) at h) in cc)
        | inr (more, rest) ↦
            let k : some (cons r more) ≡ some rs =
              rw (rest, to_cons) at (rw (first, to_cons) at h) in
            let same : cons r more ≡ rs = cc in
            subst (λ l. resolve_all resolver later l ≡ some l) same
              (ap (λ x. to_cons resolver x (resolve_all resolver later more))
                  (resolve-IsStable e r first)
                ∙ ap (to_cons resolver (some r)) (resolve_all-again es more rest))
      ]
    ]

  -- An expression that was resolved resolves to itself, with every expression info that has a model.
  pub resolve_again :
      (e r : Expression F A) → resolve resolver inf e ≡ some r → resolve resolver later r ≡ some r
  resolve_again e r h = resolve-IsStable e r h
