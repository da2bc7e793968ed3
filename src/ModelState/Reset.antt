-- ===== src/ModelState/Reset.antt =====
-- A model of src/models/model_state.go that is reset and then changed.
use go_django_queries.Prelude.{
  Bool, true, false, not, Option, some, List, [], Text, lookup, ◌≡◌, refl, sym, ap, ◌∙◌, subst,
  Bool-cases, Option-cases, Distinct, keys, inl, inr, ◌↔◌,
}
use go_django_queries.ModelState.{
  State, is_nonempty, read_initial, reset, differs, check_fields, check_state, changed_with,
}
use go_django_queries.ModelState.Exact.{checked, lookup-read_initial, unchanged_iff}

-- The states of a model before and after its fields were assigned.
module _ {V : Type 0} (deep_equal : V → V → Bool) where
  differs_iff :
      (initial : List (Text × V)) (n : Text) (v : V)
      → (differs deep_equal initial n v ≡ false)
        ↔ ((old : V) × (lookup n initial ≡ some old) × (deep_equal v old ≡ true))
  unfolding differs
  differs_iff initial n v = elim (Option-cases (lookup n initial)) [
    | inl absent ↦
        (λ h. absurd (let k = rw (absent, differs) at h in cc), λ (_, found, _). absurd (cc))
    | inr (old, found) ↦ (
      λ h.
          let k : not (deep_equal v old) ≡ false = rw (found, differs) at h in
          (
            old,
            found,
            elim (Bool-cases (deep_equal v old)) [
              | inl e ↦ e
              | inr e ↦ absurd (let q = rw e at k in cc)
            ],
          ),
      λ (old', found', e).
          let q : some old ≡ some old' = sym found ∙ found' in
          let same : old ≡ old' = cc in rw (found, differs) (rw same (ap not e)),
    )
  ]

  lookup-reset :
      (before : List (Text × V)) (n : Text)
      → Distinct (keys before)
      → lookup n (read_initial deep_equal [] before) ≡ lookup n before
  unfolding lookup
  lookup-reset before n distinct =
      lookup-read_initial deep_equal [] before n distinct ∙ elim (Option-cases (lookup n before)) [
        | inl absent ↦ rw (absent, lookup) refl
        | inr (old, found) ↦ rw (found, lookup) refl
      ]

  differs-reset :
      (before : List (Text × V)) (n : Text) (v : V)
      → Distinct (keys before)
      → (differs deep_equal (read_initial deep_equal [] before) n v ≡ false)
        ↔ ((old : V) × (lookup n before ≡ some old) × (deep_equal v old ≡ true))
  differs-reset before n v distinct =
      subst
        (λ o.
          (differs deep_equal (read_initial deep_equal [] before) n v ≡ false)
          ↔ ((old : V) × (o ≡ some old) × (deep_equal v old ≡ true)))
        (lookup-reset before n distinct) (differs_iff (read_initial deep_equal [] before) n v)

  -- A model whose field names are distinct, reset, and then given other field values: Changed with
  -- a check does not panic, and says no exactly when each field it has now was there at the reset
  -- with an equal value.
  pub changed_with-reset :
      (before after : List (Text × V)) (s : State V)
      → Distinct (keys before)
      → Distinct (keys after)
      → s.model ≡ some (record { defs = some before })
      → (t : State V) × (b : Bool) × (u : Option (State V)) × (reset deep_equal s ≡ some t)
        × (changed_with deep_equal
              (some (record {
                model = some (record { defs = some after });
                changed = t.changed;
                initial = t.initial;
              }))
              true
            ≡ some (b, u))
        × ((b ≡ false) ↔ (
            (n : Text) (v : V)
            → lookup n after ≡ some v
            → (old : V) × (lookup n before ≡ some old) × (deep_equal v old ≡ true)))
  unfolding reset changed_with check_state lookup
  changed_with-reset before after s distinct still modelled =
      let same =
        unchanged_iff deep_equal after (read_initial deep_equal [] before) [] still
          (λ n absent. refl) in
      (
        record {
          model = some (record { defs = some before });
          changed = [];
          initial = read_initial deep_equal [] before;
        },
        is_nonempty (check_fields deep_equal (read_initial deep_equal [] before) after []),
        some (checked deep_equal after (read_initial deep_equal [] before) []),
        rw (modelled, reset) refl,
        refl,
        (
          λ h n v at. (differs-reset before n v distinct).0 ((same.0 h) n v at),
          λ h. same.1 (λ n v at. (differs-reset before n v distinct).1 (h n v at)),
        ),
      )
