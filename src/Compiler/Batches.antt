-- ===== src/Compiler/Batches.antt =====
-- The batch of BuildUpdateQuery of PostgreSQL in src/queryset_compiler_generic.go.
use go_django_queries.Prelude.{
  Option, none, some, List, [], ◌∷◌, Text, length, map, All, ◌≡◌, refl, sym, subst,
}
use go_django_queries.Prelude.Int.{ℤ}
use go_django_queries.Expressions.{Resolver}
use go_django_queries.Expressions.Placeholders.{count}
use go_django_queries.Compiler.{Sql}
use go_django_queries.Compiler.Fields.{ExpressionInfo}
use go_django_queries.Compiler.Statements.{
  QuerySetInternals, UpdateInfo, build_update_query, rebound, queue, queue_updates, BatchQuery,
  batch_of, as_batch, build_update_postgres,
}
use go_django_queries.Compiler.Matched.{IsPlain}
use go_django_queries.Compiler.Matched.Clauses.Statements.{IsCleanUpdate, update-placeholders}

module _ {A : Type 0} where
  rebound-some :
      (rebind : Text → Text) (s : Sql A) (sql : Text) (args : List A)
      → rebound rebind s ≡ some (sql, args)
      → (text : Text) × (s ≡ some (text, args)) × (sql ≡ rebind text)
  rebound-some rebind none sql args h = absurd (cc)
  rebound-some rebind (some (text, found)) sql args h = (text, cc, cc)

  queue-some :
      (s : Sql A) (rest : Option (List (Text × List A))) (batch : List (Text × List A))
      → queue s rest ≡ some batch
      → (sql : Text) × (args : List A) × (more : List (Text × List A)) × (s ≡ some (sql, args))
        × (rest ≡ some more)
        × (batch ≡ (sql, args) ∷ more)
  queue-some none rest batch h = absurd (cc)
  queue-some (some query) none batch h = absurd (cc)
  queue-some (some (sql, args)) (some more) batch h = (sql, args, more, refl, refl, cc)

  as_batch-some :
      (o : Option (List (Text × List A))) (b : BatchQuery A)
      → as_batch o ≡ some b
      → (queries : List (Text × List A)) × (o ≡ some queries) × (batch_of queries ≡ b)
  as_batch-some none b h = absurd (cc)
  as_batch-some (some queries) b h = (queries, refl, cc)

module _ {F A : Type 0} (resolver : Resolver ExpressionInfo F A) (of_int : ℤ → A) (q : Text)
    (rebind : Text → Text) (inf : ExpressionInfo) (i : QuerySetInternals F A) where
  -- For each object one statement, in their order: the rebound text of the statement that the generic
  -- compiler builds for this object alone, sent with the arguments of that, which are as many as its
  -- placeholders.
  abbrev pub Queued : List (UpdateInfo F A) → List (Text × List A) → Type 0
  Queued [] [] = Unit {0}
  Queued [] (query ∷ batch) = ⊥
  Queued (o ∷ os) [] = ⊥
  Queued (o ∷ os) ((sql, args) ∷ batch) =
      ((text : Text) × (build_update_query resolver of_int q inf i (o ∷ []) ≡ some (text, args))
        × (sql ≡ rebind text)
        × (count b'?' text ≡ length args))
      × Queued os batch

  queue_updates-Queued :
      (os : List (UpdateInfo F A)) (batch : List (Text × List A))
      → IsPlain q
      → IsPlain inf.alias_gen.prefix
      → IsPlain i.table_name
      → All (IsCleanUpdate resolver inf) os
      → queue_updates resolver of_int q rebind inf i os ≡ some batch
      → Queued os batch
  unfolding queue_updates
  queue_updates-Queued [] batch g h k m e = subst (Queued []) (let e' : [] ≡ batch = cc in e') tt
  queue_updates-Queued (o ∷ os) batch g h k m e =
      let (sql, args, more, first, rest, same) =
        queue-some (rebound rebind (build_update_query resolver of_int q inf i (o ∷ [])))
          (queue_updates resolver of_int q rebind inf i os) batch e in
      let (text, built, bound) = rebound-some rebind _ sql args first in
      subst (Queued (o ∷ os)) (sym same) (
        (
          text,
          built,
          bound,
          update-placeholders resolver of_int q g inf i (o ∷ []) text args h k (m.0, tt) built,
        ),
        queue_updates-Queued os more g h k m.1 rest,
      )

  -- Where no quote, name, operator or alias prefix has a placeholder, and what virtual fields, raw
  -- columns and the lookups of WHERE write has one placeholder for each of its arguments, a batch that
  -- PostgreSQL builds has for each object, in their order, the rebound text of the statement of the
  -- generic compiler for that object alone, which has as many placeholders as the arguments that are
  -- sent with it; and Params has one element for each statement, the list of its arguments.
  pub build_update_postgres-Queued :
      (os : List (UpdateInfo F A)) (b : BatchQuery A)
      → IsPlain q
      → IsPlain inf.alias_gen.prefix
      → IsPlain i.table_name
      → All (IsCleanUpdate resolver inf) os
      → build_update_postgres resolver of_int q rebind inf i os ≡ some b
      → Queued os b.batch × (b.params ≡ map (λ query. query.1) b.batch)
  unfolding build_update_postgres batch_of
  build_update_postgres-Queued os b g h k m e =
      let (queries, queued, same) =
        as_batch-some (queue_updates resolver of_int q rebind inf i os) b e in
      subst (λ (c : BatchQuery A). Queued os c.batch × (c.params ≡ map (λ query. query.1) c.batch))
        same (queue_updates-Queued os queries g h k m queued, refl)
