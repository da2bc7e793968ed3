-- ===== src/ModelState.antt =====
-- The state of a model instance in src/models/model_state.go: which fields have changed since the
-- last Reset. `V` is the type of field values, and `deep_equal` is reflect.DeepEqual on them.
pub mod Exact
pub mod Reset
mod Tests
use go_django_queries.Prelude.{
  Bool, true, false, not, Option, none, some, List, [], ◌∷◌, Text, lookup, insert, without,
  if◌then◌else◌,
}

-- A model: the names and the values of the fields of its definitions, front to back, and none
-- where it has no definitions yet.
pub record Model (V : Type 0) : Type 0 where
  pub defs : Option (List (Text × V))

-- The keys of `changed` are the fields that count as changed.
pub record State (V : Type 0) : Type 0 where
  pub model : Option (Model V)
  pub changed : List (Text × Unit {0})
  pub initial : List (Text × V)

abbrev pub is_nonempty : {A : Type 0} → List A → Bool
is_nonempty [] = false
is_nonempty (x ∷ xs) = true

module _ {V : Type 0} (deep_equal : V → V → Bool) where
  -- The loop of Reset.
  unfoldable pub read_initial : List (Text × V) → List (Text × V) → List (Text × V)
  read_initial initial [] = initial
  read_initial initial ((name, value) ∷ fields) = read_initial (insert name value initial) fields

  abbrev pub initial_of : Option (List (Text × V)) → List (Text × V)
  initial_of none = []
  initial_of (some fields) = read_initial [] fields

  -- Reset; none is a panic, here and below.
  unfoldable pub reset : State V → Option (State V)
  unfolding read_initial
  reset s = elim s.model [
    | none ↦ none
    | some m ↦ some (record { model = some m; changed = []; initial = initial_of m.defs })
  ]

  -- initState; a nil model has a nil state.
  unfoldable pub init_state : Option (Model V) → Option (Option (State V))
  unfolding reset
  init_state none = some none
  init_state (some m) = elim (reset (record { model = some m; changed = []; initial = [] })) [
    | none ↦ none
    | some s ↦ some (some s)
  ]

  -- Whether a value differs from the initial one.
  unfoldable pub differs : List (Text × V) → Text → V → Bool
  differs initial name value = elim (lookup name initial) [
    | none ↦ true
    | some old ↦ not (deep_equal value old)
  ]

  -- The loop of checkState.
  unfoldable pub check_fields :
      List (Text × V) → List (Text × V) → List (Text × Unit {0}) → List (Text × Unit {0})
  unfolding differs
  check_fields initial [] changed = changed
  check_fields initial ((name, value) ∷ fields) changed =
      check_fields initial fields
        (if differs initial name value then insert name tt changed else without name changed)

  -- checkState on a state that is not nil; the loop reads the definitions without a test.
  unfoldable pub check_state : State V → Option (State V)
  unfolding check_fields
  check_state s = elim s.model [
    | none ↦ none
    | some m ↦ elim m.defs [
      | none ↦ none
      | some fields ↦ some (record {
        model = s.model;
        changed = check_fields s.initial fields s.changed;
        initial = s.initial;
      })
    ]
  ]

  -- change
  unfoldable pub change : State V → Text → State V
  change s name = record {
    model = s.model;
    changed = insert name tt s.changed;
    initial = s.initial;
  }

  -- Changed, on a pointer to a state, with the state behind it.
  unfoldable pub changed_with : Option (State V) → Bool → Option (Bool × Option (State V))
  unfolding check_state
  changed_with none check = some (true, none)
  changed_with (some s) false = some (is_nonempty s.changed, some s)
  changed_with (some s) true = elim (check_state s) [
    | none ↦ none
    | some t ↦ some (is_nonempty t.changed, some t)
  ]

  -- The field that HasChanged looks up; without definitions the lookup panics.
  abbrev pub has_changed_field : Option (List (Text × V)) → Text → V → Option Bool
  has_changed_field none name old = none
  has_changed_field (some fields) name old = elim (lookup name fields) [
    | none ↦ some false
    | some value ↦ some (not (deep_equal value old))
  ]

  -- HasChanged on a state with a model.
  unfoldable pub has_changed_in : State V → Model V → Text → Option Bool
  has_changed_in s m name = elim (lookup name s.changed) [
    | some _ ↦ some true
    | none ↦ elim (lookup name s.initial) [
      | none ↦ some false
      | some old ↦ has_changed_field m.defs name old
    ]
  ]

  -- HasChanged
  unfoldable pub has_changed : Option (State V) → Text → Option Bool
  unfolding has_changed_in
  has_changed none name = some true
  has_changed (some s) name = elim s.model [ none ↦ none | some m ↦ has_changed_in s m name ]

  -- InitialValue
  unfoldable pub initial_value : Option (State V) → Text → Option (Option V)
  initial_value none name = some none
  initial_value (some s) name = elim s.model [ none ↦ none | some m ↦ some (lookup name s.initial) ]
