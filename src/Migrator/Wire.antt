-- ===== src/Migrator/Wire.antt =====
-- The text forms in migration files: MarshalJSON and UnmarshalJSON of Dependency in
-- src/migrator/engine.go and of ActionType in src/migrator/engine_actions.go, on the strings that
-- package encoding/json writes and reads.
mod Tests
use go_django_queries.Prelude.{
  ℕ, Bool, true, false, Option, none, some, List, [], ◌∷◌, ◌++◌, Text, codes, join, lookup, text_eq,
  text_eq_iff, Result, ok, err, panic, ◌>>=◌, ◌==◌, ◌≡◌, ◌≢◌, refl, sym, ap, subst, ◌∙◌, arith, All,
  inl, inr, Bool-cases, Option-cases, if◌then◌else◌, ok-injective,
}
use go_django_queries.Migrator.Types.{
  Dependency, ActionType, EngineError, invalid_dependency, create_table, drop_table, rename_table,
  add_index, drop_index, rename_index, add_field, alter_field, remove_field, unknown_action,
}
use go_django_queries.Migrator.FileName.{cut}
use go_django_queries.Migrator.FileName.RoundTrip.{cut-append}
use go_django_queries.Migrator.Build.{graph_key, dependency_key}

-- (*Dependency).MarshalJSON
unfoldable pub marshal_dependency : Dependency → Text
unfolding join
marshal_dependency d = join (codes ":") (d.app_name ∷ d.model_name ∷ d.name ∷ [])

-- strings.SplitN(str, ":", 3) where it has three parts.
abbrev pub split_model : Text → Option (Text × Text) → Result EngineError Dependency
split_model app none = err invalid_dependency
split_model app (some (model, name)) =
    ok (record { app_name = app; model_name = model; name = name })

abbrev pub split_app : Option (Text × Text) → Result EngineError Dependency
split_app none = err invalid_dependency
split_app (some (app, rest)) = split_model app (cut b':' rest)

-- (*Dependency).UnmarshalJSON
unfoldable pub unmarshal_dependency : Text → Result EngineError Dependency
unmarshal_dependency str = split_app (cut b':' str)

-- actionTypeToString; a number without an entry reads as the empty string.
unfoldable pub marshal_action : ActionType → Text
marshal_action create_table = codes "create_table"
marshal_action drop_table = codes "drop_table"
marshal_action rename_table = codes "rename_table"
marshal_action add_index = codes "add_index"
marshal_action drop_index = codes "drop_index"
marshal_action rename_index = codes "rename_index"
marshal_action add_field = codes "add_field"
marshal_action alter_field = codes "alter_field"
marshal_action remove_field = codes "remove_field"
marshal_action unknown_action = []

-- stringToActionType
abbrev pub string_to_action_type : List (Text × ActionType)
string_to_action_type =
    (codes "create_table", create_table)
    ∷ (codes "drop_table", drop_table)
    ∷ (codes "rename_table", rename_table)
    ∷ (codes "add_index", add_index)
    ∷ (codes "drop_index", drop_index)
    ∷ (codes "rename_index", rename_index)
    ∷ (codes "add_field", add_field)
    ∷ (codes "alter_field", alter_field)
    ∷ (codes "remove_field", remove_field)
    ∷ []

-- (*ActionType).UnmarshalJSON; a name that is not known leaves the old value.
unfoldable pub unmarshal_action : ActionType → Text → ActionType
unmarshal_action old s = elim (lookup s string_to_action_type) [ none ↦ old | some a ↦ a ]

cut_sound : (sep : ℕ) (s a b : Text) → cut sep s ≡ some (a, b) → s ≡ a ++ (sep ∷ b)
unfolding cut
cut_sound sep [] a b h = absurd (cc)
cut_sound sep (c ∷ s) a b h = elim (Bool-cases (c == sep)) [
  | inl e ↦
      let k : ◌≡◌ {A = Option (Text × Text)} (some ([], s)) (some (a, b)) = rw (e, cut) at h in
      let same : c ≡ sep = ground arith in let first : [] ≡ a = cc in let rest : s ≡ b = cc in cc
  | inr e ↦
      let k = rw (e, cut) at h in
      elim (Option-cases (cut sep s)) [
        | inl whole ↦ absurd (let q = rw (whole, cut) at k in cc)
        | inr ((a', b'), found) ↦
            let q : ◌≡◌ {A = Option (Text × Text)} (some (c ∷ a', b')) (some (a, b)) =
              rw (found, cut) at k in
            let first : c ∷ a' ≡ a = cc in
            let rest : b' ≡ b = cc in
            let shorter : s ≡ a' ++ (sep ∷ b') = cut_sound sep s a' b' found in
            rw (← first) (rw (← rest) (ap (λ l. c ∷ l) shorter))
      ]
]

-- What MarshalJSON writes for a dependency whose app and model have no colon in their names reads
-- back as the dependency; and whatever text reads as a dependency is what that is written as.
pub unmarshal-marshal_dependency :
    ((d : Dependency)
      → All (λ c. c ≢ b':') d.app_name
      → All (λ c. c ≢ b':') d.model_name
      → unmarshal_dependency (marshal_dependency d) ≡ ok d)
    × ((str : Text) (d : Dependency) → unmarshal_dependency str ≡ ok d → marshal_dependency d ≡ str)
unfolding unmarshal_dependency marshal_dependency join
unmarshal-marshal_dependency = (
  λ d app model.
      ap split_app (cut-append b':' d.app_name (d.model_name ++ (b':' ∷ d.name)) app)
      ∙ ap (split_model d.app_name) (cut-append b':' d.model_name d.name model),
  λ str d e. elim (Option-cases (cut b':' str)) [
    | inl whole ↦ absurd (let h = rw (whole, split_app) at e in cc)
    | inr ((app, rest), first) ↦ elim (Option-cases (cut b':' rest)) [
      | inl short ↦ absurd (let h = rw (short, split_model) at (rw (first, split_app) at e) in cc)
      | inr ((model, name), second) ↦
          let read : Dependency = record { app_name = app; model_name = model; name = name } in
          let q : ◌≡◌ {A = Result EngineError Dependency} (ok read) (ok d) =
            rw (second, split_model) at (rw (first, split_app) at e) in
          subst (λ x. marshal_dependency x ≡ str) (ok-injective q)
            (sym (
              cut_sound b':' str app rest first
              ∙ ap (λ r. app ++ (b':' ∷ r)) (cut_sound b':' rest model name second)))
    ]
  ],
)

-- Every type of action that has a name reads back from it, whatever was there before.
pub unmarshal-marshal_action :
    (old a : ActionType) → a ≢ unknown_action → unmarshal_action old (marshal_action a) ≡ a
unfolding unmarshal_action marshal_action lookup text_eq
unmarshal-marshal_action old create_table h = refl
unmarshal-marshal_action old drop_table h = refl
unmarshal-marshal_action old rename_table h = refl
unmarshal-marshal_action old add_index h = refl
unmarshal-marshal_action old drop_index h = refl
unmarshal-marshal_action old rename_index h = refl
unmarshal-marshal_action old add_field h = refl
unmarshal-marshal_action old alter_field h = refl
unmarshal-marshal_action old remove_field h = refl
unmarshal-marshal_action old unknown_action h = absurd (h refl)

-- Two dependencies whose apps and models have no colon in their names are the same if they have the
-- same key in the node map of buildDependencyGraph.
pub dependency_key-injective :
    (d e : Dependency)
    → All (λ c. c ≢ b':') d.app_name
    → All (λ c. c ≢ b':') d.model_name
    → All (λ c. c ≢ b':') e.app_name
    → All (λ c. c ≢ b':') e.model_name
    → dependency_key d ≡ dependency_key e
    → d ≡ e
unfolding graph_key marshal_dependency join
dependency_key-injective d e d_app d_model e_app e_model h = ok-injective (
    sym (unmarshal-marshal_dependency.0 d d_app d_model)
    ∙ ap unmarshal_dependency h
    ∙ unmarshal-marshal_dependency.0 e e_app e_model)
