-- ===== src/Migrator/Wire/Tests.antt =====
-- Concrete dependencies and action types.
use go_django_queries.Prelude.{codes, text_eq, join, lookup, ◌≡◌, ◌≢◌, refl}
use go_django_queries.Migrator.Types.{Dependency, drop_index, unknown_action}
use go_django_queries.Migrator.Wire.{marshal_dependency, unmarshal_action}

abbrev user : Dependency
user = record { app_name = codes "a"; model_name = codes "U"; name = codes "0001_x:y.mig" }

user-text : marshal_dependency user ≡ codes "a:U:0001_x:y.mig"
unfolding marshal_dependency join
user-text = refl

-- A name that is not known leaves what was there.
unknown-name : unmarshal_action unknown_action (codes "alter_unique_together") ≡ unknown_action
unfolding unmarshal_action lookup text_eq
unknown-name = refl

drop_index-known : drop_index ≢ unknown_action
drop_index-known e = cc
