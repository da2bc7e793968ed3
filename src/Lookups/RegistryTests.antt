-- ===== src/Lookups/RegistryTests.antt =====
-- The registry of lookups with one lookup and one transform.
use go_django_queries.Prelude.{
  ℕ, some, [], ◌∷◌, ◌++◌, Text, codes, lookup, insert, join, text_eq, ok, ◌≡◌, ◌↔◌, refl,
}
use go_django_queries.Lookups.Registry.{
  NameMaps, Lookup, sql_text, LookupInfo, LookupRegistry, register_to_map, retrieve_from_map,
  has_name, registry_lookup, get_lookup, check_arity, apply_transforms,
}
use go_django_queries.Lookups.Registered.{retrieve_from_map-register, get_lookup-join}
use go_django_queries.Lookups.Found.{Finds, registry_lookup_iff}

-- The lookup `exact` joins its side and its argument.
abbrev exact : Lookup Text Text Text Text
exact = record {
  min = 1;
  max = some 1;
  normalize = λ args. ok args;
  resolve = λ left args. ok (some (join (codes " = ") (left ∷ args)));
}

abbrev no_names : {T : Type 0} → NameMaps T
no_names = record { local_maps = []; global_map = [] }

abbrev registry : LookupRegistry Text Text Text Text
registry = record {
  lookups = record { local_maps = []; global_map = (codes "exact", exact) ∷ [] };
  transforms = record {
    local_maps = (codes "sqlite", (codes "lower", λ s. ok (codes "LOWER " ++ s)) ∷ []) ∷ [];
    global_map = [];
  };
}

abbrev info : LookupInfo Text Text
info = record { driver = codes "sqlite"; resolve_text = λ s. s; resolve_expression = λ s. ok s }

get_lookup-join_example :
    get_lookup info registry (codes "lower") (sql_text (codes "t")) (codes "?" ∷ [])
    ≡ ok (codes "LOWER t = ?")
unfolding has_name retrieve_from_map lookup text_eq registry_lookup check_arity apply_transforms
    join
get_lookup-join_example =
    get_lookup-join info registry [] (codes "lower") (sql_text (codes "t")) (codes "?" ∷ []) tt
      (refl, (refl, (refl, (refl, (refl, tt)))))

registry_lookup_iff_example :
    (registry_lookup info registry
        (codes "lower" ∷ [])
        (codes "exact")
        (sql_text (codes "t"))
        (codes "?" ∷ [])
      ≡ ok (codes "LOWER t = ?"))
    ↔ Finds info registry
        (codes "lower" ∷ [])
        (codes "exact")
        (sql_text (codes "t"))
        (codes "?" ∷ [])
        (codes "LOWER t = ?")
registry_lookup_iff_example =
    registry_lookup_iff info registry (codes "lower" ∷ []) (codes "exact") (sql_text (codes "t"))
      (codes "?" ∷ []) (codes "LOWER t = ?")

abbrev names : NameMaps ℕ
names = record { local_maps = (codes "sqlite", (codes "in", 1) ∷ []) ∷ []; global_map = [] }

retrieve_from_map-register_example :
    (retrieve_from_map
        (register_to_map (codes "mysql" ∷ []) (codes "in") 2 names)
        (codes "in")
        (codes "mysql")
      ≡ some 2)
    × (lookup (codes "in") (insert (codes "in") 2 names.global_map) ≡ some 2)
unfolding text_eq
retrieve_from_map-register_example =
    retrieve_from_map-register (codes "mysql" ∷ []) (codes "in") 2 names (codes "in")
      (codes "mysql")
