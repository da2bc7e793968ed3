-- ===== src/Migrator/Tests.antt =====
-- Migration names and dependency graphs at concrete files.
use go_django_queries.Prelude.{
  ℕ, true, ◌≡◌, ◌≢◌, ◌↔◌, refl, sym, ◌⊎◌, inl, inr, none, List, [], ◌∷◌, keys, Text, codes, text_eq,
  text_eq_iff, lookup, insert, ok, err, panic, subst, In, Distinct, arith,
}
use go_django_queries.Prelude.Int.{pos}
use go_django_queries.Prelude.Decimal.{read_digits}
use go_django_queries.Migrator.Types.{
  Dependency, MigrationAction, MigrationFile, dependency_not_found, create_table,
}
use go_django_queries.Migrator.FileName.{
  generate_migration_file_name, parse_migration_file_name, describe_all, cut, has_suffix, atoi,
}
use go_django_queries.Migrator.FileName.RoundTrip.{before, parse-generate}
use go_django_queries.Migrator.Graph.{visit, visit_all, visit_roots}
use go_django_queries.Migrator.Build.{
  Node, NodeMap, graph_key, create_nodes, link_nodes, collect, sort_nodes, build_dependency_graph,
  IsRange,
}
use go_django_queries.Migrator.Build.Links.{needs}
use go_django_queries.Migrator.Build.Correct.{DependenciesFirst, node_keys}
use go_django_queries.Migrator.Build.Outcome.{Ends, build_cases, build-DependenciesFirst}

abbrev action : MigrationAction ℕ
action = record { action_type = create_table; table = none; field = none; index = none }

abbrev file : Text → ℕ → List Dependency → MigrationFile ℕ
file model order deps = record {
  app_name = codes "a";
  model_name = model;
  name = codes "create_table";
  order = pos order;
  dependencies = deps;
  table = none;
  actions = action ∷ [];
}

abbrev on : Text → Dependency
on model = record { app_name = codes "a"; model_name = model; name = codes "0001_create_table.mig" }

abbrev user : MigrationFile ℕ
user = file (codes "U") 1 []

abbrev profile : MigrationFile ℕ
profile = file (codes "P") 1 (on (codes "U") ∷ [])

abbrev user_key : Text
user_key = codes "a:U:0001_create_table.mig"

abbrev profile_key : Text
profile_key = codes "a:P:0001_create_table.mig"

program : Unit {0}
unfolding generate_migration_file_name build_dependency_graph create_nodes link_nodes sort_nodes
    visit_roots visit visit_all collect graph_key lookup insert text_eq needs
program = tt

user-name : generate_migration_file_name user ≡ ok (codes "0001_create_table.mig")
unfolding program
user-name = refl

parse-user :
    parse_migration_file_name (codes "0012_add_field_x.y_and_2_more.mig")
    ≡ ok (pos 12, codes "add_field_x")
unfolding parse_migration_file_name cut has_suffix atoi read_digits text_eq
parse-user = refl

parse-generate_example :
    (body : Text) × (describe_all user.actions ≡ ok body)
    × (parse_migration_file_name (codes "0001_create_table.mig") ≡ ok (pos 1, before b'.' body))
parse-generate_example = parse-generate user 1 refl (omega arith) user-name

abbrev pair : NodeMap ℕ
pair = (profile_key, profile) ∷ (user_key, user) ∷ []

pair-created : create_nodes [] (profile ∷ user ∷ []) ≡ ok pair
unfolding program
pair-created = refl

keys_differ : profile_key ≢ user_key
unfolding program
keys_differ e = let same : text_eq profile_key user_key ≡ true = (text_eq_iff _ _).1 e in cc

pair-IsRange : IsRange pair (profile_key ∷ user_key ∷ [])
pair-IsRange = record {
  sound = λ k m. m;
  complete = λ k m. m;
  once = (λ m. elim m [ inl e ↦ keys_differ e | inr n ↦ n ], (λ m. m, tt));
}

abbrev sorted : List (Node ℕ)
sorted = record { key = user_key; mig = user } ∷ record { key = profile_key; mig = profile } ∷ []

build-pair :
    build_dependency_graph
      (profile_key ∷ user_key ∷ [])
      (profile_key ∷ user_key ∷ [])
      (profile ∷ user ∷ [])
    ≡ ok sorted
unfolding program
build-pair = refl

pair-ranges :
    (nodes : NodeMap ℕ)
    → create_nodes [] (profile ∷ user ∷ []) ≡ ok nodes
    → IsRange nodes (profile_key ∷ user_key ∷ []) × IsRange nodes (profile_key ∷ user_key ∷ [])
pair-ranges nodes e =
    let same : pair ≡ nodes = cc pair-created in
    let range = subst (λ n. IsRange n (profile_key ∷ user_key ∷ [])) same pair-IsRange in
    (range, range)

build_cases_example :
    ((m : MigrationFile ℕ) × In m (profile ∷ user ∷ [])
      × (generate_migration_file_name m ≡ panic)
      × (build_dependency_graph
            (profile_key ∷ user_key ∷ [])
            (profile_key ∷ user_key ∷ [])
            (profile ∷ user ∷ [])
          ≡ panic))
    ⊎ ((nodes : NodeMap ℕ) × (create_nodes [] (profile ∷ user ∷ []) ≡ ok nodes)
        × Ends nodes (
            build_dependency_graph
              (profile_key ∷ user_key ∷ [])
              (profile_key ∷ user_key ∷ [])
              (profile ∷ user ∷ [])))
build_cases_example =
    build_cases (profile_key ∷ user_key ∷ []) (profile_key ∷ user_key ∷ []) (profile ∷ user ∷ [])
      pair-ranges

build-DependenciesFirst_example :
    Distinct (node_keys sorted)
    × ((k : Text) → In k (keys pair) ↔ In k (node_keys sorted))
    × DependenciesFirst [] sorted
    × ((m : MigrationFile ℕ) (name : Text)
        → In m (profile ∷ user ∷ [])
        → generate_migration_file_name m ≡ ok name
        → In (graph_key m.app_name m.model_name name) (node_keys sorted))
build-DependenciesFirst_example =
    build-DependenciesFirst (profile_key ∷ user_key ∷ []) (profile_key ∷ user_key ∷ [])
      (profile ∷ user ∷ []) pair-created pair-IsRange pair-IsRange sorted build-pair

-- The migration of `user` is applied already, so only that of `profile` is handed in: an error.
build-alone :
    build_dependency_graph (profile_key ∷ []) (profile_key ∷ []) (profile ∷ [])
    ≡ err (dependency_not_found user_key)
unfolding program
build-alone = refl

-- Two migrations of one model.
abbrev second_key : Text
second_key = codes "a:U:0002_create_table.mig"

abbrev history : NodeMap ℕ
history = (user_key, user) ∷ (second_key, file (codes "U") 2 []) ∷ []

history-created : create_nodes [] (user ∷ file (codes "U") 2 [] ∷ []) ≡ ok history
unfolding program
history-created = refl

versions_differ : user_key ≢ second_key
unfolding program
versions_differ e = let same : text_eq user_key second_key ≡ true = (text_eq_iff _ _).1 e in cc

history-forward : IsRange history (user_key ∷ second_key ∷ [])
history-forward = record {
  sound = λ k m. m;
  complete = λ k m. m;
  once = (λ m. elim m [ inl e ↦ versions_differ e | inr n ↦ n ], (λ m. m, tt));
}

swap : (k a b : Text) → In k (a ∷ b ∷ []) → In k (b ∷ a ∷ [])
swap k a b (inl e) = inr (inl e)
swap k a b (inr (inl e)) = inl e
swap k a b (inr (inr n)) = inr (inr n)

-- Go may walk the map from the second migration to the first.
history-backward : IsRange history (second_key ∷ user_key ∷ [])
history-backward = record {
  sound = λ k m. swap k second_key user_key m;
  complete = λ k m. swap k user_key second_key m;
  once = (λ m. elim m [ inl e ↦ versions_differ (sym e) | inr n ↦ n ], (λ m. m, tt));
}

history-needs : (k : Text) → needs history k ≡ []
unfolding needs lookup
history-needs k = ground (arith, text_eq_iff user_key k, text_eq_iff second_key k)
