-- ===== src/ModelState/Exact.antt =====
-- The fields that checkState of src/models/model_state.go marks as changed.
use go_django_queries.Prelude.{
  Bool, true, false, Option, none, some, List, [], ◌∷◌, Text, lookup, insert, without,
  if◌then◌else◌, ◌≡◌, refl, sym, ap, ◌∙◌, arith, subst, lookup-insert, lookup-without, text_eq,
  text_eq_iff, text_eq_refl, Bool-cases, Option-cases, Distinct, keys, In, inl, inr, lookup-In, ◌↔◌,
}
use go_django_queries.ModelState.{
  State, is_nonempty, read_initial, differs, check_fields, check_state, has_changed, has_changed_in,
  has_changed_field,
}

-- A key, present or not.
abbrev mark : Bool → Option (Unit {0})
mark true = some tt
mark false = none

lookup-absent : {A : Type 0} (n : Text) (m : List (Text × A)) → ¬ In n (keys m) → lookup n m ≡ none
lookup-absent n m h = elim (Option-cases (lookup n m)) [
  | inl e ↦ e
  | inr (v, e) ↦ absurd (h (lookup-In n m e))
]

module _ {V : Type 0} (deep_equal : V → V → Bool) where
  -- Whether a field, if it is one, counts as changed after the loop.
  abbrev expected : List (Text × V) → Text → Option V → Option (Unit {0}) → Option (Unit {0})
  expected initial n none before = before
  expected initial n (some v) before = mark (differs deep_equal initial n v)

  lookup-check_field :
      (initial : List (Text × V)) (changed : List (Text × Unit {0})) (n name : Text) (value : V)
      → lookup n (
          if differs deep_equal initial name value
          then insert name tt changed
          else without name changed)
        ≡ (if text_eq name n
            then mark (differs deep_equal initial name value)
            else lookup n changed)
  lookup-check_field initial changed n name value =
      elim (Bool-cases (differs deep_equal initial name value)) [
        | inl d ↦ rw d (lookup-insert name n tt changed)
        | inr s ↦ rw s (lookup-without name n changed)
      ]

  lookup-check_fields :
      (initial fields : List (Text × V)) (changed : List (Text × Unit {0})) (n : Text)
      → Distinct (keys fields)
      → lookup n (check_fields deep_equal initial fields changed)
        ≡ expected initial n (lookup n fields) (lookup n changed)
  unfolding check_fields lookup
  lookup-check_fields initial [] changed n distinct = refl
  lookup-check_fields initial ((name, value) ∷ fields) changed n distinct =
      let now =
        if differs deep_equal initial name value
        then insert name tt changed
        else without name changed in
      let rest = lookup-check_fields initial fields now n distinct.1 in
      let step : lookup n now ≡ (
          if text_eq name n
          then mark (differs deep_equal initial name value)
          else lookup n changed) =
        lookup-check_field initial changed n name value in
      elim (Bool-cases (text_eq name n)) [
        | inl same ↦
            let e = (text_eq_iff name n).0 same in
            let absent : lookup n fields ≡ none =
              lookup-absent n fields (subst (λ k. ¬ In k (keys fields)) e distinct.0) in
            rw same (
              rest
              ∙ ap (λ o. expected initial n o (lookup n now)) absent
              ∙ step
              ∙ rw same (ap (λ k. mark (differs deep_equal initial k value)) e))
        | inr other ↦
            rw other (rest ∙ ap (expected initial n (lookup n fields)) (step ∙ rw other refl))
      ]

  pub lookup-read_initial :
      (initial fields : List (Text × V)) (n : Text)
      → Distinct (keys fields)
      → lookup n (read_initial deep_equal initial fields)
        ≡ elim (lookup n fields) [ none ↦ lookup n initial | some v ↦ some v ]
  unfolding read_initial lookup
  lookup-read_initial initial [] n distinct = refl
  lookup-read_initial initial ((name, value) ∷ fields) n distinct =
      let rest = lookup-read_initial (insert name value initial) fields n distinct.1 in
      let step = lookup-insert name n value initial in
      elim (Bool-cases (text_eq name n)) [
        | inl same ↦
            let e = (text_eq_iff name n).0 same in
            let absent : lookup n fields ≡ none =
              lookup-absent n fields (subst (λ k. ¬ In k (keys fields)) e distinct.0) in
            rw same (rest ∙ rw absent (step ∙ rw same refl))
        | inr other ↦ rw other (
            rest
            ∙ ap (λ o. elim (lookup n fields) [ none ↦ o | some v ↦ some v ])
                (step ∙ rw other refl))
      ]

is_nonempty_iff :
    {A : Type 0} (m : List (Text × A)) → (is_nonempty m ≡ false) ↔ ((n : Text) → lookup n m ≡ none)
unfolding lookup
is_nonempty_iff [] = (λ h n. refl, λ h. refl)
is_nonempty_iff ((k, v) ∷ m) =
    (λ h. absurd (cc), λ h. let here = h k in absurd (ground (arith, text_eq_refl k)))

module _ {V : Type 0} (deep_equal : V → V → Bool) (fields initial : List (Text × V))
    (changed : List (Text × Unit {0})) where
  -- A state of a model with these fields.
  abbrev pub state : State V
  state = record {
    model = some (record { defs = some fields });
    changed = changed;
    initial = initial;
  }

  abbrev pub checked : State V
  checked = record {
    model = some (record { defs = some fields });
    changed = check_fields deep_equal initial fields changed;
    initial = initial;
  }

  check_state-checked : check_state deep_equal state ≡ some checked
  unfolding check_state
  check_state-checked = refl

  lookup-checked :
      (n : Text) (v : V)
      → Distinct (keys fields)
      → lookup n fields ≡ some v
      → lookup n checked.changed ≡ mark (differs deep_equal initial n v)
  lookup-checked n v distinct at =
      lookup-check_fields deep_equal initial fields changed n distinct
      ∙ ap (λ o. expected deep_equal initial n o (lookup n changed)) at

  has_changed-unmarked :
      (n : Text) (v : V)
      → lookup n fields ≡ some v
      → differs deep_equal initial n v ≡ false
      → lookup n checked.changed ≡ none
      → has_changed_in deep_equal checked (record { defs = some fields }) n ≡ some false
  unfolding has_changed_in differs
  has_changed-unmarked n v at same unmarked = elim (Option-cases (lookup n initial)) [
    | inl none_old ↦ absurd (let h = rw (none_old, differs) at same in cc)
    | inr (old, found) ↦
        rw (unmarked, has_changed_in)
          (rw (found, has_changed_in)
            (rw (at, has_changed_field) (ap some (rw (found, differs) at same))))
  ]

  -- After checkState on a model whose field names are distinct, HasChanged says of each field
  -- whether its value differs from the initial one.
  pub has_changed-check_state :
      (n : Text) (v : V)
      → Distinct (keys fields)
      → lookup n fields ≡ some v
      → (t : State V) × (check_state deep_equal state ≡ some t)
        × (has_changed deep_equal (some t) n ≡ some (differs deep_equal initial n v))
  unfolding has_changed has_changed_in
  has_changed-check_state n v distinct at = (
    checked,
    check_state-checked,
    elim (Bool-cases (differs deep_equal initial n v)) [
      | inl new ↦
          let marked = lookup-checked n v distinct at ∙ ap mark new in
          rw new (rw (marked, has_changed_in) refl)
      | inr same ↦
          rw same (has_changed-unmarked n v at same (lookup-checked n v distinct at ∙ ap mark same))
    ],
  )

  pub unchanged_iff :
      Distinct (keys fields)
      → ((n : Text) → lookup n fields ≡ none → lookup n changed ≡ none)
      → (is_nonempty checked.changed ≡ false)
        ↔ ((n : Text) (v : V) → lookup n fields ≡ some v → differs deep_equal initial n v ≡ false)
  unchanged_iff distinct tracked = (
    λ h n v at. elim (Bool-cases (differs deep_equal initial n v)) [
      | inr same ↦ same
      | inl new ↦
          let marked =
            sym (lookup-checked n v distinct at ∙ ap mark new)
            ∙ (is_nonempty_iff checked.changed).0 h n in
          absurd (cc)
    ],
    λ h. (is_nonempty_iff _).1 (λ n. elim (Option-cases (lookup n fields)) [
      | inl absent ↦
          lookup-check_fields deep_equal initial fields changed n distinct
          ∙ ap (λ o. expected deep_equal initial n o (lookup n changed)) absent
          ∙ tracked n absent
      | inr (v, at) ↦ lookup-checked n v distinct at ∙ ap mark (h n v at)
    ]),
  )
