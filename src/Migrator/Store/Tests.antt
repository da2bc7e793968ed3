-- ===== src/Migrator/Store/Tests.antt =====
-- The map of migrations with two models.
use go_django_queries.Prelude.{
  ℕ, true, none, some, List, [], ◌∷◌, Text, codes, text_eq, if◌then◌else◌, ◌≡◌, refl,
}
use go_django_queries.Prelude.Int.{pos}
use go_django_queries.Migrator.Types.{MigrationFile}
use go_django_queries.Migrator.Store.{
  is_of, IsSorted, latest_from_map, store_in_map, latest_from_map-store_in_map,
}

abbrev file : Text → ℕ → MigrationFile ℕ
file model order = record {
  app_name = codes "a";
  model_name = model;
  name = codes "auto_generated";
  order = pos order;
  dependencies = [];
  table = none;
  actions = [];
}

latest_from_map-store_in_map_example :
    latest_from_map
      (store_in_map (store_in_map [] (file (codes "U") 1)) (file (codes "P") 1))
      (codes "a")
      (codes "U")
    ≡ (if is_of (codes "a") (codes "U") (file (codes "P") 1)
        then some (file (codes "P") 1)
        else latest_from_map (store_in_map [] (file (codes "U") 1)) (codes "a") (codes "U"))
latest_from_map-store_in_map_example =
    latest_from_map-store_in_map (store_in_map [] (file (codes "U") 1)) (file (codes "P") 1)
      (codes "a") (codes "U")

abbrev history : List (MigrationFile ℕ)
history = file (codes "U") 1 ∷ file (codes "P") 1 ∷ file (codes "U") 2 ∷ []

history-IsSorted : IsSorted history
history-IsSorted = ((refl, (refl, tt)), ((refl, tt), (tt, tt)))

is_of-user : is_of (codes "a") (codes "U") (file (codes "U") 1) ≡ true
unfolding text_eq
is_of-user = refl
