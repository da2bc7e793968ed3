-- ===== src/Rows/Distinctness.antt =====
-- The maps in the tree of src/queryset_dedupe.go: each key once, and each object under its key.
use go_django_queries.Prelude.{
  Bool, true, false, none, some, List, [], ◌∷◌, Text, text_eq, text_eq_iff, if◌then◌else◌, ◌≡◌,
  refl, ◌∙◌, Bool-cases, inl, inr, arith,
}
use go_django_queries.Rows.{
  UniqueValues, ChainPart, Object, Relations, Objects, object, no_relations, relation, no_objects,
  child, new_object, stops, add_child, add_related, add_parts,
}
use go_django_queries.Rows.Paths.{find_child, find_child-add_child}

abbrev pub key_of : {U O : Type 0} → Object U O → U
key_of (object u obj through rs) = u

unfoldable pub is_named : {U O : Type 0} → Text → Relations U O → Bool
is_named name no_relations = false
is_named name (relation other type found rest) =
    if text_eq other name then true else is_named name rest

-- Each key of a map once, and each object under its own key.
unfoldable mutual
  pub IsProper : {U O : Type 0} → UniqueValues U → Object U O → Type 0
  IsProper keys (object u obj through rs) = AreProperRelations keys rs

  pub AreProperRelations : {U O : Type 0} → UniqueValues U → Relations U O → Type 0
  AreProperRelations keys no_relations = Unit {0}
  AreProperRelations keys (relation name type found rest) =
      (is_named name rest ≡ false) × AreProperObjects keys found × AreProperRelations keys rest

  pub AreProperObjects : {U O : Type 0} → UniqueValues U → Objects U O → Type 0
  AreProperObjects keys no_objects = Unit {0}
  AreProperObjects keys (child u o rest) =
      (find_child keys u rest ≡ none)
      × (key_of o ≡ u)
      × IsProper keys o
      × AreProperObjects keys rest

module _ {U O : Type 0} (keys : UniqueValues U) where
  -- A change to an object that keeps its key and its maps.
  abbrev Keeps : (Object U O → Object U O) → Type 0
  Keeps go =
      (o : Object U O) → (key_of (go o) ≡ key_of o) × (IsProper keys o → IsProper keys (go o))

  absent-add_child :
      (u : U) (p : ChainPart U O) (go : Object U O → Object U O) (os : Objects U O)
      → keys.eq u p.unique_value ≡ false
      → find_child keys u os ≡ none
      → find_child keys u (add_child keys p go os) ≡ none
  absent-add_child u p go os h k = ground (
    arith,
    keys.eq_iff u p.unique_value,
    keys.eq_iff p.unique_value u,
    find_child-add_child keys u p go os,
  )

  add_child-AreProper :
      (p : ChainPart U O) (go : Object U O → Object U O) (os : Objects U O)
      → Keeps go
      → AreProperObjects keys os
      → AreProperObjects keys (add_child keys p go os)
  unfolding add_child IsProper find_child
  add_child-AreProper p go no_objects k h =
      let new = k (new_object p.unique_value (some p.object) p.through) in
      (refl, new.0, new.1 tt, tt)
  add_child-AreProper p go (child u o rest) k h = elim (Bool-cases (keys.eq u p.unique_value)) [
    | inl same ↦ rw same (h.0, (k o).0 ∙ h.1, (k o).1 h.2, h.3)
    | inr other ↦
        rw other
          (absent-add_child u p go rest other h.0, h.1, h.2, add_child-AreProper p go rest k h.3)
  ]

  unnamed-add_related :
      (name : Text) (p : ChainPart U O) (go : Object U O → Object U O) (rs : Relations U O)
      → text_eq name p.chain ≡ false
      → is_named name rs ≡ false
      → is_named name (add_related keys p go rs) ≡ false
  unfolding is_named add_related
  unnamed-add_related name p go no_relations h k =
      ground (arith, text_eq_iff p.chain name, text_eq_iff name p.chain)
  unnamed-add_related name p go (relation other type found rest) h k = ground (
    arith,
    text_eq_iff p.chain name,
    text_eq_iff name p.chain,
    text_eq_iff other name,
    text_eq_iff other p.chain,
    unnamed-add_related name p go rest,
  )

  add_related-AreProper :
      (p : ChainPart U O) (go : Object U O → Object U O) (rs : Relations U O)
      → Keeps go
      → AreProperRelations keys rs
      → AreProperRelations keys (add_related keys p go rs)
  unfolding add_related IsProper is_named
  add_related-AreProper p go no_relations k h = (refl, add_child-AreProper p go no_objects k tt, tt)
  add_related-AreProper p go (relation name type found rest) k h =
      elim (Bool-cases (text_eq name p.chain)) [
        | inl same ↦ rw same (h.0, add_child-AreProper p go found k h.1, h.2)
        | inr other ↦ rw other (
          unnamed-add_related name p go rest other h.0,
          h.1,
          add_related-AreProper p go rest k h.2,
        )
      ]

  add_parts-Keeps :
      (ps : List (ChainPart U O)) (o : Object U O)
      → (key_of (add_parts keys ps o) ≡ key_of o)
        × (IsProper keys o → IsProper keys (add_parts keys ps o))
  unfolding add_parts IsProper
  add_parts-Keeps [] o = (refl, λ h. h)
  add_parts-Keeps (p ∷ ps) (object u obj through rs) = elim (Bool-cases (stops keys p)) [
    | inl stop ↦ rw stop (refl, λ h. h)
    | inr goes ↦
        rw goes (refl, λ h. add_related-AreProper p (add_parts keys ps) rs (add_parts-Keeps ps) h)
  ]

  -- addRelationChain keeps the key of the root, and keeps an object whose maps have each key once,
  -- each object under its own key, such an object.
  pub add_parts-IsProper :
      (ps : List (ChainPart U O)) (o : Object U O)
      → IsProper keys o
      → (key_of (add_parts keys ps o) ≡ key_of o) × IsProper keys (add_parts keys ps o)
  add_parts-IsProper ps o h = ((add_parts-Keeps ps o).0, (add_parts-Keeps ps o).1 h)
