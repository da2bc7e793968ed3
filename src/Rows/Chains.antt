-- ===== src/Rows/Chains.antt =====
-- What GetUniqueKey of src/queries_models.go and buildChainParts of src/queryset_dedupe.go return.
use go_django_queries.Prelude.{
  Bool, true, false, not, ◌&&◌, ◌||◌, Option, none, some, List, [], ◌∷◌, Text, if◌then◌else◌, ◌≡◌,
  ◌⊎◌, refl, sym, ap, ◌∙◌, subst, Result, ok, ◌>>=◌, traverse, >>=-eq-ok, ok-injective, All,
  All-append, In, Bool-cases, Option-cases, inl, inr,
}
use go_django_queries.Rows.{
  UniqueValues, RelationType, many_to_many, one_to_many, many_to_one, one_to_one, no_relation,
  ChainPart, is_many, is_single, stops,
}
use go_django_queries.Rows.Keys.{
  KeyError, Definitions, also, key_parts, or_next, unique_key, create_key, ScannableField, part_key,
  chain_part_of, reverse, build_chain_parts, definer, get_unique_key,
}

module _ {U : Type 0} (keys : UniqueValues U) where
  -- A value that is neither nil nor zero, of a field.
  abbrev IsValue : (Text → Result KeyError U) → Text → U → Type 0
  IsValue value_of name v = (value_of name ≡ ok v) × (keys.is_zero v ≡ false)

  unless-ok :
      (b : Bool) (r : Result KeyError (Option (List U))) (out : List U)
      → (if b then ok none else r) ≡ ok (some out)
      → (b ≡ false) × (r ≡ ok (some out))
  unless-ok true r out h = absurd (let k : none ≡ some out = ok-injective h in cc)
  unless-ok false r out h = (refl, h)

  also-some :
      (v : U) (o : Option (List U)) (out : List U)
      → also keys v o ≡ some out
      → (vs : List U) × (o ≡ some vs) × (out ≡ v ∷ vs)
  also-some v none out h = absurd (cc)
  also-some v (some vs) out h = (vs, refl, cc)

  not_zero : (a b : Bool) → a || b ≡ false → b ≡ false
  not_zero true b h = absurd (cc)
  not_zero false b h = h

  key_parts-cons :
      (value_of : Text → Result KeyError U) (name : Text) (names : List Text) (out : List U)
      → key_parts keys value_of (name ∷ names) ≡ ok (some out)
      → (v : U) × (vs : List U) × IsValue value_of name v
        × (out ≡ v ∷ vs)
        × (key_parts keys value_of names ≡ ok (some vs))
  unfolding key_parts
  key_parts-cons value_of name names out h =
      let (v, valued, rest) = >>=-eq-ok (value_of name) _ h in
      let (known, more) = unless-ok (keys.is_nil v || keys.is_zero v) _ out rest in
      let (o, e, f) = >>=-eq-ok (key_parts keys value_of names) _ more in
      let (vs, g, shape) = also-some v o out (ok-injective f) in
      (v, vs, (valued, not_zero _ _ known), shape, e ∙ ap ok g)

  -- A key of one part is that of a field that stands alone.
  key_parts-one :
      (value_of : Text → Result KeyError U) (names : List Text) (v : U)
      → key_parts keys value_of names ≡ ok (some (v ∷ []))
      → (name : Text) × (names ≡ name ∷ []) × IsValue value_of name v
  unfolding key_parts
  key_parts-one value_of [] v h = absurd (let k : some [] ≡ some (v ∷ []) = ok-injective h in cc)
  key_parts-one value_of (name ∷ []) v h =
      let (w, vs, valued, shape, rest) = key_parts-cons value_of name [] (v ∷ []) h in
      (name, refl, subst (IsValue value_of name) (cc) valued)
  key_parts-one value_of (name ∷ other ∷ names) v h =
      let (w, vs, valued, shape, rest) = key_parts-cons value_of name (other ∷ names) (v ∷ []) h in
      let (x, xs, valued2, shape2, rest2) = key_parts-cons value_of other names vs rest in
      absurd (cc)

  or_next-ok :
      (o : Option (List U)) (next : Result KeyError U) (v : U)
      → or_next keys o next ≡ ok v
      → (o ≡ some (v ∷ [])) ⊎ (next ≡ ok v)
  or_next-ok none next v h = inr h
  or_next-ok (some []) next v h = inr h
  or_next-ok (some (w ∷ [])) next v h = inl (ap (λ x. some (x ∷ [])) (ok-injective h))
  or_next-ok (some (w ∷ x ∷ xs)) next v h = inr h

  -- A key that is the value of a field which is unique by itself.
  abbrev pub IsAlone : Definitions U → U → Type 0
  IsAlone defs v = (name : Text) × In (name ∷ []) defs.unique_fields × (defs.value_of name ≡ ok v)

  unique_key-alone :
      (value_of : Text → Result KeyError U) (sets : List (List Text)) (v : U)
      → unique_key keys value_of sets ≡ ok v
      → ((name : Text) × In (name ∷ []) sets × (value_of name ≡ ok v)) × (keys.is_zero v ≡ false)
  unfolding unique_key
  unique_key-alone value_of [] v h = absurd (cc)
  unique_key-alone value_of (names ∷ sets) v h =
      let (o, e, f) = >>=-eq-ok (key_parts keys value_of names) _ h in
      elim (or_next-ok o (unique_key keys value_of sets) v f) [
        | inl one ↦
            let (name, shape, valued) = key_parts-one value_of names v (e ∙ ap ok one) in
            ((name, inl (sym shape), valued.0), valued.1)
        | inr next ↦
            let (found, known) = unique_key-alone value_of sets v next in
            ((found.0, inr found.1, found.2), known)
      ]

  primary_or-ok :
      (r next : Result KeyError U) (v : U)
      → (r >>= λ w. if keys.is_zero w then next else ok w) ≡ ok v
      → ((r ≡ ok v) × (keys.is_zero v ≡ false)) ⊎ (next ≡ ok v)
  primary_or-ok r next v h =
      let (w, e, f) = >>=-eq-ok r _ h in
      elim (Bool-cases (keys.is_zero w)) [
        | inl zero ↦ inr (rw zero at f)
        | inr known ↦
            let same : w ≡ v = ok-injective (rw known at f) in
            inl (e ∙ ap ok same, subst (λ x. keys.is_zero x ≡ false) same known)
      ]

  -- The key that GetUniqueKey finds for an object is not zero, and it is the value of the primary
  -- field or that of a field which is unique by itself: two fields or more that are unique together
  -- never make a key.
  pub get_unique_key-found :
      (defs : Definitions U) (v : U)
      → get_unique_key keys (definer defs) ≡ ok v
      → (keys.is_zero v ≡ false) × ((defs.primary ≡ some (ok v)) ⊎ IsAlone defs v)
  unfolding get_unique_key create_key
  get_unique_key-found defs v h = elim (Option-cases defs.primary) [
    | inl e ↦
        let (found, known) = unique_key-alone defs.value_of defs.unique_fields v (rw e at h) in
        (known, inr found)
    | inr (r, e) ↦ elim (primary_or-ok r _ v (rw e at h)) [
      | inl (same, known) ↦ (known, inl (e ∙ ap some same))
      | inr next ↦
          let (found, known) = unique_key-alone defs.value_of defs.unique_fields v next in
          (known, inr found)
    ]
  ]

All-reverse : {A : Type 0} (P : A → Type 0) (xs : List A) → All P xs → All P (reverse xs)
unfolding reverse
All-reverse P [] h = tt
All-reverse P (x ∷ xs) h = All-append P (reverse xs) (x ∷ []) (All-reverse P xs h.1) (h.0, tt)

All-traverse :
    {A B E : Type 0} (P : B → Type 0) (f : A → Result E B)
    → ((a : A) (b : B) → f a ≡ ok b → P b)
    → (xs : List A) (ys : List B) → traverse f xs ≡ ok ys
    → All P ys
unfolding traverse
All-traverse P f h [] ys e = subst (All P) (ok-injective e) tt
All-traverse P f h (x ∷ xs) ys e =
    let (y, first, more) = >>=-eq-ok (f x) _ e in
    let (zs, rest, last) = >>=-eq-ok (traverse f xs) _ more in
    subst (All P) (ok-injective last) (h x y first, All-traverse P f h xs zs rest)

and_false : (b : Bool) → b && false ≡ false
and_false true = refl
and_false false = refl

kept :
    (type : RelationType) (zero : Bool)
    → is_many type && zero ≡ false
    → (type ≡ no_relation) ⊎ (zero && not (is_single type) ≡ false)
kept many_to_one zero h = inr (and_false zero)
kept one_to_one zero h = inr (and_false zero)
kept one_to_many zero h = inr (rw h refl)
kept many_to_many zero h = inr (rw h refl)
kept no_relation zero h = inl refl

module _ {U O : Type 0} (keys : UniqueValues U) (nil_value : U) where
  -- A part of a relation does not break the loop of addRelationChain.
  abbrev pub IsKept : ChainPart U O → Type 0
  IsKept p = (p.rel_type ≡ no_relation) ⊎ (stops keys p ≡ false)

  chain_part_of-IsKept :
      (f : ScannableField U O) (p : ChainPart U O)
      → chain_part_of keys nil_value f ≡ ok p
      → IsKept p
  unfolding chain_part_of
  chain_part_of-IsKept f p h =
      let (pk, e, rest) = >>=-eq-ok (part_key keys nil_value f) _ h in
      elim (Bool-cases (is_many f.rel_type && keys.is_zero pk)) [
        | inl refused ↦ absurd (let k = rw refused at rest in cc)
        | inr fine ↦
            subst IsKept (ok-injective (rw fine at rest)) (kept f.rel_type (keys.is_zero pk) fine)
      ]

  -- No part of a relation in a chain from buildChainParts breaks the loop of addRelationChain: a part
  -- to many objects with a zero key makes buildChainParts panic before.
  pub build_chain_parts-IsKept :
      (fields : List (ScannableField U O)) (parts : List (ChainPart U O))
      → build_chain_parts keys nil_value fields ≡ ok parts
      → All IsKept parts
  unfolding build_chain_parts
  build_chain_parts-IsKept fields parts h =
      let (stack, e, f) = >>=-eq-ok (traverse (chain_part_of keys nil_value) fields) _ h in
      subst (All IsKept) (ok-injective f) (
        All-reverse IsKept stack
          (All-traverse IsKept (chain_part_of keys nil_value) chain_part_of-IsKept fields stack e))
