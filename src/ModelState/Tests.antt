-- ===== src/ModelState/Tests.antt =====
-- The state of a model with concrete fields.
use go_django_queries.Prelude.{
  ℕ, true, some, List, [], ◌∷◌, Text, codes, lookup, text_eq, text_eq_iff, ◌==◌, ◌≡◌, refl,
  Distinct, inl, inr, keys, ◌≢◌,
}
use go_django_queries.ModelState.{State, differs, check_state, has_changed}
use go_django_queries.ModelState.Exact.{state, has_changed-check_state}

abbrev before : List (Text × ℕ)
before = (codes "id", 1) ∷ (codes "name", 7) ∷ []

abbrev after : List (Text × ℕ)
after = (codes "id", 1) ∷ (codes "name", 8) ∷ []

names_differ : codes "id" ≢ codes "name"
unfolding text_eq
names_differ e = let s : text_eq (codes "id") (codes "name") ≡ true = (text_eq_iff _ _).1 e in cc

before-Distinct : Distinct (keys before)
before-Distinct = (λ m. elim m [ inl e ↦ names_differ e | inr n ↦ n ], (λ m. m, tt))

loaded : State ℕ
loaded = record {
  model = some (record { defs = some before });
  changed = (codes "id", tt) ∷ [];
  initial = [];
}

name-after : lookup (codes "name") after ≡ some 8
unfolding lookup text_eq
name-after = refl

has_changed-check_state_example :
    (t : State ℕ) × (check_state (λ a b. a == b) (state (λ a b. a == b) after before []) ≡ some t)
    × (has_changed (λ a b. a == b) (some t) (codes "name")
        ≡ some (differs (λ a b. a == b) before (codes "name") 8))
has_changed-check_state_example =
    has_changed-check_state (λ a b. a == b) after before [] (codes "name") 8 before-Distinct
      name-after

loaded-model : loaded.model ≡ some (record { defs = some before })
unfolding loaded
loaded-model = refl
