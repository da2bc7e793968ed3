-- ===== src/Expressions/Sound.antt =====
-- Placeholders and arguments of an expression that Resolve of src/expr/expr_logical.go gives back.
use go_django_queries.Prelude.{Bool, true, false, Option, none, some, List, Text, ◌≡◌, refl}
use go_django_queries.Expressions.{
  Node, Expression, Expressions, node, group, nil, cons, Resolver, with_sql, resolve_if,
  resolve_node, to_group, to_cons, resolve, resolve_all,
}
use go_django_queries.Expressions.Placeholders.{count, IsMatched, IsSound, AreSound}

-- A node that is used has a placeholder for each argument; of any other, that holds of what GetLookup
-- writes for its own field, lookup and arguments. No operator has a placeholder.
module _ {I F A : Type 0} (resolver : Resolver I F A) (inf : I) where
  unfoldable mutual
    pub IsReady : Expression F A → Type 0
    IsReady (node n) =
        (n.used ≡ true → IsMatched n.sql)
        × (n.used ≡ false
            → IsMatched
                (resolver.get_lookup inf n.lookup (resolver.resolve_field inf n.field) n.args))
    IsReady (group children op negated) = (count b'?' op ≡ 0) × AreReady children

    pub AreReady : Expressions F A → Type 0
    AreReady nil = Unit {0}
    AreReady (cons e es) = IsReady e × AreReady es

-- What Resolve gives back is sound.
abbrev pub IsSoundOption : {F A : Type 0} → Option (Expression F A) → Type 0
IsSoundOption none = Unit {0}
IsSoundOption (some r) = IsSound r

abbrev pub AreSoundOption : {F A : Type 0} → Option (Expressions F A) → Type 0
AreSoundOption none = Unit {0}
AreSoundOption (some rs) = AreSound rs

module _ {I F A : Type 0} (resolver : Resolver I F A) where
  with_sql-IsSound :
      (inf : I) (n : Node F A) (o : Option (Text × List A))
      → IsMatched o
      → IsSoundOption (with_sql resolver inf n o)
  unfolding IsSound
  with_sql-IsSound inf n none h = tt
  with_sql-IsSound inf n (some found) h = h

  resolve_if-IsSound :
      (model used : Bool) (self fresh : Option (Expression F A))
      → (used ≡ true → IsSoundOption self)
      → (used ≡ false → IsSoundOption fresh)
      → IsSoundOption (resolve_if resolver model used self fresh)
  resolve_if-IsSound false used self fresh h k = tt
  resolve_if-IsSound true true self fresh h k = h refl
  resolve_if-IsSound true false self fresh h k = k refl

  to_group-IsSound :
      (op : Text) (negated : Bool) (o : Option (Expressions F A))
      → count b'?' op ≡ 0
      → AreSoundOption o
      → IsSoundOption (to_group resolver op negated o)
  unfolding IsSound
  to_group-IsSound op negated none h k = tt
  to_group-IsSound op negated (some rs) h k = (h, k)

  to_cons-AreSound :
      (o : Option (Expression F A)) (os : Option (Expressions F A))
      → IsSoundOption o
      → AreSoundOption os
      → AreSoundOption (to_cons resolver o os)
  unfolding IsSound
  to_cons-AreSound none os h k = tt
  to_cons-AreSound (some r) none h k = tt
  to_cons-AreSound (some r) (some rs) h k = (h, k)

  mutual
    unfolding resolve resolve_node IsReady IsSound

    pub resolve-IsSound :
        (inf : I) (e : Expression F A)
        → IsReady resolver inf e
        → IsSoundOption (resolve resolver inf e)
    resolve-IsSound inf (node n) h =
        resolve_if-IsSound (resolver.has_model inf) n.used (some (node n)) _ h.0
          (λ fresh. with_sql-IsSound inf n _ (h.1 fresh))
    resolve-IsSound inf (group children op negated) h =
        to_group-IsSound op negated _ h.0 (resolve_all-AreSound inf children h.1)

    resolve_all-AreSound :
        (inf : I) (es : Expressions F A)
        → AreReady resolver inf es
        → AreSoundOption (resolve_all resolver inf es)
    resolve_all-AreSound inf nil h = tt
    resolve_all-AreSound inf (cons e es) h =
        to_cons-AreSound _ _ (resolve-IsSound inf e h.0) (resolve_all-AreSound inf es h.1)
