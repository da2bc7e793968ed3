-- ===== src/Rows/Repeated.antt =====
-- Roots and chains of src/queryset_dedupe.go that are added again.
use go_django_queries.Prelude.{
  if◌then◌else◌, true, false, Option, none, some, List, [], ◌∷◌, ◌++◌, text_eq, text_eq_refl, ◌≡◌,
  refl, sym, ap, Bool-cases, Option-cases, inl, inr, ok, ok-injective, subst,
}
use go_django_queries.Rows.{
  UniqueValues, ChainPart, Object, Relations, Objects, object, no_relations, relation, no_objects,
  child, stops, add_child, add_related, add_parts, RootObject, Roots, behind_root, new_root,
  set_root, or_panic, get_root, add_root, update_root, add_relation_chain,
}

eq_refl : {U : Type 0} (keys : UniqueValues U) (u : U) → keys.eq u u ≡ true
eq_refl keys u = (keys.eq_iff u u).1 refl

module _ {U O : Type 0} (keys : UniqueValues U) where
  -- A change that made again changes nothing.
  abbrev IsIdempotent : (Object U O → Object U O) → Type 0
  IsIdempotent go = (o : Object U O) → go (go o) ≡ go o

  add_child-again :
      (p : ChainPart U O) (go : Object U O → Object U O) (os : Objects U O)
      → IsIdempotent go
      → add_child keys p go (add_child keys p go os) ≡ add_child keys p go os
  unfolding add_child
  add_child-again p go no_objects h =
      rw (eq_refl keys p.unique_value) (ap (λ o. child p.unique_value o no_objects) (h _))
  add_child-again p go (child u o rest) h = elim (Bool-cases (keys.eq u p.unique_value)) [
    | inl same ↦ rw (same, same) (ap (λ x. child u x rest) (h o))
    | inr other ↦ rw (other, other) (ap (child u o) (add_child-again p go rest h))
  ]

  add_related-again :
      (p : ChainPart U O) (go : Object U O → Object U O) (rs : Relations U O)
      → IsIdempotent go
      → add_related keys p go (add_related keys p go rs) ≡ add_related keys p go rs
  unfolding add_related
  add_related-again p go no_relations h =
      rw (text_eq_refl p.chain)
        (ap (λ os. relation p.chain p.rel_type os no_relations) (add_child-again p go no_objects h))
  add_related-again p go (relation name type found rest) h =
      elim (Bool-cases (text_eq name p.chain)) [
        | inl same ↦
            rw (same, same) (ap (λ os. relation name type os rest) (add_child-again p go found h))
        | inr other ↦
            rw (other, other) (ap (relation name type found) (add_related-again p go rest h))
      ]

  add_parts-again : (ps : List (ChainPart U O)) → IsIdempotent (add_parts keys ps)
  unfolding add_parts
  add_parts-again [] o = refl
  add_parts-again (p ∷ ps) (object u obj through rs) = elim (Bool-cases (stops keys p)) [
    | inl stop ↦ rw (stop, stop) refl
    | inr goes ↦
        rw (goes, goes)
          (ap (object u obj through)
            (add_related-again p (add_parts keys ps) rs (add_parts-again ps)))
  ]

behind_root-some :
    {U O N : Type 0} (v : U) (root : RootObject U O N) (o : Option (Roots U O N))
    (after : Roots U O N)
    → behind_root v root o ≡ some after
    → (changed : Roots U O N) × (o ≡ some changed) × ((v, root) ∷ changed ≡ after)
behind_root-some v root none after h = absurd (cc)
behind_root-some v root (some changed) after h = (changed, refl, cc)

or_panic-ok : {A : Type 0} (o : Option A) (a : A) → or_panic o ≡ ok a → o ≡ some a
or_panic-ok none a h = absurd (cc)
or_panic-ok (some b) a h = cc

-- The first of two that is there.
abbrev pub or_else : {A : Type 0} → Option A → Option A → Option A
or_else none other = other
or_else (some a) other = some a

or_else-none : {A : Type 0} (o : Option A) → o ≡ or_else o none
or_else-none none = refl
or_else-none (some a) = refl

module _ {U O N : Type 0} (keys : UniqueValues U) where
  update_root-again :
      (u : U) (go : Object U O → Object U O) (roots after : Roots U O N)
      → ((o : Object U O) → go (go o) ≡ go o)
      → update_root keys u go roots ≡ some after
      → update_root keys u go after ≡ some after
  unfolding update_root
  update_root-again u go [] after h k = absurd (cc)
  update_root-again u go ((v, root) ∷ roots) after h k = elim (Bool-cases (keys.eq v u)) [
    | inl same ↦
        let first : some ((v, record root { object = go root.object }) ∷ roots) ≡ some after =
          rw same at k in
        let shape : (v, record root { object = go root.object }) ∷ roots ≡ after = cc in
        subst (λ l. update_root keys u go l ≡ some l) shape
          (rw same (
            ap (λ o. some ((v, record { object = o; annotations = root.annotations }) ∷ roots))
              (h root.object)))
    | inr other ↦
        let (changed, later, shape) =
          behind_root-some v root (update_root keys u go roots) after (rw other at k) in
        subst (λ l. update_root keys u go l ≡ some l) shape
          (rw other (ap (behind_root v root) (update_root-again u go roots changed h later)))
  ]

  update_root-some :
      (u : U) (go : Object U O → Object U O) (roots : Roots U O N)
      → (root : RootObject U O N) → get_root keys u roots ≡ some root
      → (after : Roots U O N) × (update_root keys u go roots ≡ some after)
  unfolding update_root get_root
  update_root-some u go [] root h = absurd (cc)
  update_root-some u go ((v, first) ∷ roots) root h = elim (Bool-cases (keys.eq v u)) [
    | inl same ↦ ((v, record first { object = go first.object }) ∷ roots, rw same refl)
    | inr other ↦
        let (after, e) = update_root-some u go roots root (rw other at h) in
        ((v, first) ∷ after, rw (other, e) refl)
  ]

  -- A chain that was added, added again, leaves the rows as they are.
  pub add_relation_chain-again :
      (chain : List (ChainPart U O)) (roots after : Roots U O N)
      → add_relation_chain keys chain roots ≡ ok after
      → add_relation_chain keys chain after ≡ ok after
  unfolding add_relation_chain
  add_relation_chain-again [] roots after h = absurd (cc)
  add_relation_chain-again (root ∷ ps) roots after h = ap or_panic (
      update_root-again root.unique_value (add_parts keys ps) roots after (add_parts-again keys ps)
        (or_panic-ok _ after h))

  get_root-append :
      (u : U) (root : RootObject U O N) (roots : Roots U O N)
      → get_root keys u roots ≡ none
      → get_root keys u (roots ++ ((u, root) ∷ [])) ≡ some root
  unfolding get_root
  get_root-append u root [] h = rw (eq_refl keys u) refl
  get_root-append u root ((v, first) ∷ roots) h = elim (Bool-cases (keys.eq v u)) [
    | inl same ↦ absurd (let k = rw same at h in cc)
    | inr other ↦ rw other (get_root-append u root roots (rw other at h))
  ]

  get_root-kept :
      (v u : U) (root there : RootObject U O N) (roots : Roots U O N)
      → get_root keys v roots ≡ some there
      → get_root keys v (roots ++ ((u, root) ∷ [])) ≡ some there
  unfolding get_root
  get_root-kept v u root there [] h = absurd (cc)
  get_root-kept v u root there ((w, first) ∷ roots) h = elim (Bool-cases (keys.eq w v)) [
    | inl same ↦ rw same (rw same at h)
    | inr other ↦ rw other (get_root-kept v u root there roots (rw other at h))
  ]

  -- There is a root for the key, and those that were there are kept.
  abbrev pub HasRoot : U → Roots U O N → Roots U O N → Type 0
  HasRoot u roots after =
      ((root : RootObject U O N) × (get_root keys u after ≡ some root))
      × ((v : U) (there : RootObject U O N)
          → get_root keys v roots ≡ some there
          → get_root keys v after ≡ some there)

  set_root-HasRoot :
      (u : U) (root : RootObject U O N) (roots : Roots U O N)
      → HasRoot u roots (set_root u root roots (get_root keys u roots))
  set_root-HasRoot u root roots = elim (Option-cases (get_root keys u roots)) [
    | inl new ↦
        rw new
          ((root, get_root-append u root roots new), λ v there. get_root-kept v u root there roots)
    | inr (old, there) ↦ rw there ((old, there), λ v r h. h)
  ]

  -- A nil key panics.
  add_root-ok :
      (u : U) (obj through : Option O) (annotations : N) (roots after : Roots U O N)
      → add_root keys u obj through annotations roots ≡ ok after
      → (keys.is_nil u ≡ false) × HasRoot u roots after
  unfolding add_root
  add_root-ok u obj through annotations roots after h = elim (Bool-cases (keys.is_nil u)) [
    | inl nil ↦ absurd (let k = rw nil at h in cc)
    | inr known ↦ (
      known,
      subst (HasRoot u roots) (ok-injective (rw known at h))
          (set_root-HasRoot u (new_root u obj through annotations) roots),
    )
  ]

  -- The chains of a root that was added do not panic.
  add_relation_chain-total :
      (u : U) (obj through : Option O) (annotations : N) (roots after : Roots U O N)
      (root : ChainPart U O) (ps : List (ChainPart U O))
      → add_root keys u obj through annotations roots ≡ ok after
      → root.unique_value ≡ u
      → (last : Roots U O N) × (add_relation_chain keys (root ∷ ps) after ≡ ok last)
  unfolding add_relation_chain
  add_relation_chain-total u obj through annotations roots after root ps h e =
      let (known, has) = add_root-ok u obj through annotations roots after h in
      let (last, found) = update_root-some u (add_parts keys ps) after has.0.0 has.0.1 in
      (
        last,
        ap or_panic
            (subst (λ v. update_root keys v (add_parts keys ps) after ≡ some last) (sym e) found),
      )

  get_root-snoc :
      (v u : U) (root : RootObject U O N) (roots : Roots U O N)
      → get_root keys v (roots ++ ((u, root) ∷ []))
        ≡ or_else (get_root keys v roots) (if keys.eq u v then some root else none)
  unfolding get_root
  get_root-snoc v u root [] = refl
  get_root-snoc v u root ((w, first) ∷ roots) = elim (Bool-cases (keys.eq w v)) [
    | inl same ↦ rw same refl
    | inr other ↦ rw other (get_root-snoc v u root roots)
  ]

  or_else-there :
      (v u : U) (root there : RootObject U O N) (roots : Roots U O N)
      → get_root keys u roots ≡ some there
      → get_root keys v roots
        ≡ or_else (get_root keys v roots) (if keys.eq u v then some root else none)
  or_else-there v u root there roots h = elim (Bool-cases (keys.eq u v)) [
    | inl same ↦
        let here : get_root keys v roots ≡ some there =
          subst (λ x. get_root keys x roots ≡ some there) ((keys.eq_iff u v).0 same) h in
        rw here refl
    | inr other ↦ rw other (or_else-none (get_root keys v roots))
  ]

  get_root-set_root :
      (v u : U) (root : RootObject U O N) (roots : Roots U O N)
      → get_root keys v (set_root u root roots (get_root keys u roots))
        ≡ or_else (get_root keys v roots) (if keys.eq u v then some root else none)
  get_root-set_root v u root roots = elim (Option-cases (get_root keys u roots)) [
    | inl new ↦ rw new (get_root-snoc v u root roots)
    | inr (there, old) ↦ rw old (or_else-there v u root there roots old)
  ]

  add_root-later :
      (u : U) (obj through obj2 through2 : Option O) (annotations annotations2 : N)
      (roots after : Roots U O N)
      → add_root keys u obj through annotations roots ≡ ok after
      → add_root keys u obj2 through2 annotations2 after ≡ ok after
  unfolding add_root
  add_root-later u obj through obj2 through2 annotations annotations2 roots after h =
      let (known, has) = add_root-ok u obj through annotations roots after h in
      rw (known, has.0.1) refl

  add_root-known :
      (u : U) (obj through : Option O) (annotations : N) (roots after : Roots U O N)
      → add_root keys u obj through annotations roots ≡ ok after
      → set_root u (new_root u obj through annotations) roots (get_root keys u roots) ≡ after
  unfolding add_root
  add_root-known u obj through annotations roots after h = elim (Bool-cases (keys.is_nil u)) [
    | inl nil ↦ absurd (let k = rw nil at h in cc)
    | inr known ↦ ok-injective (rw known at h)
  ]

  -- Where addRoot does not panic, the root of each key is the one that was there before, or else the
  -- new one under its key; a root that is added under the same key later changes nothing; and
  -- addRelationChain does not panic on a chain from this root.
  pub add_root-first :
      (root : ChainPart U O) (ps : List (ChainPart U O)) (obj through obj2 through2 : Option O)
      (annotations annotations2 : N) (roots after : Roots U O N) (v : U)
      → add_root keys root.unique_value obj through annotations roots ≡ ok after
      → (get_root keys v after
          ≡ or_else (get_root keys v roots) (
              if keys.eq root.unique_value v
              then some (new_root root.unique_value obj through annotations)
              else none))
        × (add_root keys root.unique_value obj2 through2 annotations2 after ≡ ok after)
        × ((last : Roots U O N) × (add_relation_chain keys (root ∷ ps) after ≡ ok last))
  add_root-first root ps obj through obj2 through2 annotations annotations2 roots after v h = (
    subst
        (λ r.
          get_root keys v r
          ≡ or_else (get_root keys v roots) (
              if keys.eq root.unique_value v
              then some (new_root root.unique_value obj through annotations)
              else none))
        (add_root-known root.unique_value obj through annotations roots after h)
        (get_root-set_root v root.unique_value (new_root root.unique_value obj through annotations)
          roots),
    add_root-later root.unique_value obj through obj2 through2 annotations annotations2 roots after
        h,
    add_relation_chain-total root.unique_value obj through annotations roots after root ps h refl,
  )
