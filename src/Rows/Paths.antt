-- ===== src/Rows/Paths.antt =====
-- The objects that addRelationChain of src/queryset_dedupe.go leaves in the tree, found by the names
-- of relations and the unique values on the way to them.
use go_django_queries.Prelude.{
  Bool, true, false, not, ◌&&◌, ◌||◌, Option, none, some, List, [], ◌∷◌, Text, text_eq, text_eq_iff,
  if◌then◌else◌, ◌≡◌, refl, ap, ◌∙◌, Bool-cases, inl, inr, arith,
}
use go_django_queries.Rows.{
  UniqueValues, ChainPart, Object, Relations, Objects, object, no_relations, relation, no_objects,
  child, new_object, stops, add_child, add_related, add_parts,
}

or_false : (b : Bool) → b ≡ b || false
or_false true = refl
or_false false = refl

and_assoc : (a b c : Bool) → (a && b) && c ≡ a && (b && c)
and_assoc true b c = refl
and_assoc false b c = refl

module _ {U O : Type 0} (keys : UniqueValues U) where
  unfoldable pub find_child : U → Objects U O → Option (Object U O)
  find_child u no_objects = none
  find_child u (child v o rest) = if keys.eq v u then some o else find_child u rest

  unfoldable pub find_objects : Text → Relations U O → Objects U O
  find_objects name no_relations = no_objects
  find_objects name (relation other type found rest) =
      if text_eq other name then found else find_objects name rest

  -- Is there an object at the end of a path?
  unfoldable pub reaches : List (Text × U) → Object U O → Bool
  unfolding find_child find_objects
  reaches [] o = true
  reaches ((name, u) ∷ path) (object v obj through rs) =
      elim (find_child u (find_objects name rs)) [ none ↦ false | some o ↦ reaches path o ]

  -- Is a path the start of a chain, before the part at which the loop breaks?
  unfoldable pub leads_into : List (Text × U) → List (ChainPart U O) → Bool
  leads_into [] ps = true
  leads_into (step ∷ path) [] = false
  leads_into ((name, u) ∷ path) (p ∷ ps) =
      not (stops keys p)
      && (text_eq p.chain name && (keys.eq p.unique_value u && leads_into path ps))

  abbrev or_new : ChainPart U O → Option (Object U O) → Object U O
  or_new p none = new_object p.unique_value (some p.object) p.through
  or_new p (some o) = o

  pub find_child-add_child :
      (u : U) (p : ChainPart U O) (go : Object U O → Object U O) (os : Objects U O)
      → find_child u (add_child keys p go os) ≡ (
          if keys.eq p.unique_value u
          then some (go (or_new p (find_child p.unique_value os)))
          else find_child u os)
  unfolding find_child add_child
  find_child-add_child u p go no_objects = refl
  find_child-add_child u p go (child v o rest) = ground (
    arith,
    keys.eq_iff v p.unique_value,
    keys.eq_iff v u,
    keys.eq_iff p.unique_value u,
    find_child-add_child u p go rest,
  )

  find_objects-add_related :
      (name : Text) (p : ChainPart U O) (go : Object U O → Object U O) (rs : Relations U O)
      → find_objects name (add_related keys p go rs) ≡ (
          if text_eq p.chain name
          then add_child keys p go (find_objects p.chain rs)
          else find_objects name rs)
  unfolding find_objects add_related
  find_objects-add_related name p go no_relations = refl
  find_objects-add_related name p go (relation other type found rest) = ground (
    arith,
    text_eq_iff other p.chain,
    text_eq_iff other name,
    text_eq_iff p.chain name,
    find_objects-add_related name p go rest,
  )

  reaches-new :
      (path : List (Text × U)) (p : ChainPart U O) (ps : List (ChainPart U O))
      → reaches path (or_new p none) || leads_into path ps ≡ leads_into path ps
  unfolding reaches leads_into
  reaches-new [] p ps = refl
  reaches-new ((name, u) ∷ path) p ps = refl

  -- What a path reaches from an object that may be missing.
  abbrev found : List (Text × U) → Option (Object U O) → Bool
  found path o = elim o [ none ↦ false | some x ↦ reaches path x ]

  found-add_parts :
      (path : List (Text × U)) (p : ChainPart U O) (ps : List (ChainPart U O))
      (o : Option (Object U O))
      → ((x : Object U O)
          → reaches path (add_parts keys ps x) ≡ reaches path x || leads_into path ps)
      → reaches path (add_parts keys ps (or_new p o)) ≡ found path o || leads_into path ps
  found-add_parts path p ps none ih = ih (or_new p none) ∙ reaches-new path p ps
  found-add_parts path p ps (some x) ih = ih x

  -- The object at one step, in the relations of a part.
  at : Text → U → Relations U O → Option (Object U O)
  at name u rs = find_child u (find_objects name rs)

  at-add_related :
      (name : Text) (u : U) (p : ChainPart U O) (go : Object U O → Object U O) (rs : Relations U O)
      → at name u (add_related keys p go rs) ≡ (
          if text_eq p.chain name && keys.eq p.unique_value u
          then some (go (or_new p (at p.chain p.unique_value rs)))
          else at name u rs)
  unfolding at
  at-add_related name u p go rs = ground (
    arith,
    text_eq_iff p.chain name,
    keys.eq_iff p.unique_value u,
    find_objects-add_related name p go rs,
    find_child-add_child u p go (find_objects p.chain rs),
  )

  at-same :
      (name : Text) (u : U) (p : ChainPart U O) (rs : Relations U O)
      → text_eq p.chain name && keys.eq p.unique_value u ≡ true
      → at p.chain p.unique_value rs ≡ at name u rs
  at-same name u p rs h = ground (arith, text_eq_iff p.chain name, keys.eq_iff p.unique_value u)

  found-if :
      (b : Bool) (path : List (Text × U)) (p : ChainPart U O) (ps : List (ChainPart U O))
      (old here : Option (Object U O))
      → (b ≡ true → here ≡ old)
      → ((x : Object U O)
          → reaches path (add_parts keys ps x) ≡ reaches path x || leads_into path ps)
      → found path (if b then some (add_parts keys ps (or_new p here)) else old)
        ≡ found path old || (b && leads_into path ps)
  found-if false path p ps old here h ih = or_false _
  found-if true path p ps old here h ih =
      found-add_parts path p ps here ih ∙ ap (λ x. found path x || leads_into path ps) (h refl)

  -- Behind addRelationChain, a path that leads from an object reaches another exactly where it did
  -- before or is the start of the chain, up to the part at which the loop breaks: nothing is lost,
  -- and nothing else is added.
  pub reaches-add_parts :
      (path : List (Text × U)) (ps : List (ChainPart U O)) (o : Object U O)
      → reaches path (add_parts keys ps o) ≡ reaches path o || leads_into path ps
  unfolding reaches leads_into add_parts at
  reaches-add_parts [] ps o = refl
  reaches-add_parts (step ∷ path) [] o = or_false _
  reaches-add_parts ((name, u) ∷ path) (p ∷ ps) (object v obj through rs) =
      elim (Bool-cases (stops keys p)) [
        | inl stop ↦ rw stop (or_false _)
        | inr goes ↦ rw goes (
            ap (found path) (at-add_related name u p (add_parts keys ps) rs)
            ∙ (found-if (text_eq p.chain name && keys.eq p.unique_value u) path p ps (at name u rs)
                  (at p.chain p.unique_value rs) (at-same name u p rs)
                  (λ x. reaches-add_parts path ps x)
                ∙ ap (λ b. found path (at name u rs) || b)
                    (and_assoc (text_eq p.chain name) (keys.eq p.unique_value u)
                      (leads_into path ps))))
      ]
