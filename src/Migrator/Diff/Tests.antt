-- ===== src/Migrator/Diff/Tests.antt =====
-- Diffs of concrete tables.
use go_django_queries.Prelude.{
  ℕ, true, false, Option, none, some, List, [], ◌∷◌, ◌++◌, Text, codes, text_eq, lookup, insert,
  without, keys, ok, ◌==◌, ◌≡◌, refl, ◌↔◌, ◌⊎◌, In, All, join, arith,
}
use go_django_queries.Prelude.Int.{pos}
use go_django_queries.Migrator.Types.{
  Column, Index, ModelTable, MigrationAction, MigrationFile, index_name, table_name, add_action,
}
use go_django_queries.Migrator.Columns.{
  Values, column_equals, same_shape, relation_equals, defaults_equal,
}
use go_django_queries.Migrator.Diff.{
  FieldDiff, MapOrders, Draft, is_kept, indexes_equal, index_map, drop_indexes, add_indexes,
  rename_index_among, rename_indexes, diff_indexes, removed_fields, new_fields, note_added,
  note_removed, note_altered, table_diff, diff_tables, make_migration_diff,
}
use go_django_queries.Migrator.Diff.Fields.{IsKeyed, names, table_diff_replays}
use go_django_queries.Migrator.Diff.Reported.{nonempty, make_migration_diff-Adds}
use go_django_queries.Migrator.Diff.Unchanged.{
  IsComparable, IsSettled, make_migration_diff-unchanged,
}

abbrev values : Values ℕ
values = record {
  is_valid = λ v. true;
  is_pointer = λ v. false;
  is_nilable = λ v. false;
  is_nil = λ v. false;
  is_zero = λ v. v == 0;
  elem_is_zero = λ v. false;
  is_time = λ v. false;
  time_equal = λ a b. a == b;
  same_type = λ a b. true;
  convertible = λ a b. true;
  convert = λ a b. b;
  deep_equal = λ a b. a == b;
  float_equal = λ a b. a == b;
  interface_equal = λ a b. a == b;
  json_compare = λ a b. some (a == b);
}

abbrev column : Text → Column ℕ
column name = record {
  name = name;
  column = name;
  use_in_db = true;
  min_length = pos 0;
  max_length = pos 255;
  min_value = 0;
  max_value = 0;
  unique = false;
  nullable = false;
  primary = false;
  auto = false;
  dflt = 0;
  reverse_alias = [];
  rel = none;
}

abbrev named_index : Text → Index
named_index name = record {
  table_name = codes "users";
  identifier = name;
  type = [];
  fields = codes "id" ∷ [];
  unique = false;
  comment = [];
}

abbrev table : List (Text × Column ℕ) → List Index → ModelTable ℕ
table fields index = record {
  object_table = codes "users";
  table = codes "users";
  desc = [];
  fields = fields;
  index = index;
}

abbrev id_only : List (Text × Column ℕ)
id_only = (codes "id", column (codes "id")) ∷ []

abbrev with_name : List (Text × Column ℕ)
with_name = (codes "id", column (codes "id")) ∷ (codes "name", column (codes "name")) ∷ []

abbrev file : Option (ModelTable ℕ) → MigrationFile ℕ
file t = record {
  app_name = codes "a";
  model_name = codes "User";
  name = codes "auto_generated";
  order = pos 1;
  dependencies = [];
  table = t;
  actions = [];
}

abbrev orders : List Text → List Text → MapOrders
orders drops adds = record { drops = drops; adds = adds; renames = drops; candidates = λ n. adds }

program : Unit {0}
unfolding make_migration_diff diff_tables table_diff new_fields removed_fields column_equals
    same_shape relation_equals defaults_equal note_added note_removed note_altered diff_indexes
    index_map drop_indexes add_indexes rename_indexes rename_index_among indexes_equal index_name
    table_name join add_action lookup insert without text_eq
program = tt

abbrev added_diff : FieldDiff ℕ
added_diff = record { added = column (codes "name") ∷ []; removed = []; diffs = [] }

fields-added : table_diff values (table with_name []) (table id_only []) ≡ ok added_diff
unfolding program
fields-added = refl

id_only-IsKeyed : IsKeyed id_only
id_only-IsKeyed = (refl, tt)

with_name-IsKeyed : IsKeyed with_name
with_name-IsKeyed = (refl, (refl, tt))

table_diff_replays_example :
    (In (codes "name") (keys with_name) ↔ (
      (In (codes "name") (keys id_only) × ¬ In (codes "name") (names added_diff.removed))
      ⊎ In (codes "name") (names added_diff.added)))
    × (In (codes "name") (names added_diff.removed)
        → In (codes "name") (keys id_only) × ¬ In (codes "name") (keys with_name))
    × (In (codes "name") (names added_diff.added)
        → In (codes "name") (keys with_name) × ¬ In (codes "name") (keys id_only))
table_diff_replays_example =
    table_diff_replays values (table with_name []) (table id_only []) added_diff with_name-IsKeyed
      id_only-IsKeyed fields-added (codes "name")

abbrev added_draft : Draft ℕ
added_draft = note_added (column (codes "name") ∷ []) (file none, false)

draft-added :
    make_migration_diff values
      (orders [] [])
      (file none)
      (some (file (some (table id_only []))))
      (some (table with_name []))
    ≡ ok added_draft
unfolding program
draft-added = refl

make_migration_diff-Adds_example :
    (new : List (MigrationAction ℕ)) × (added_draft.0.actions ≡ [] ++ new)
    × (added_draft.1 ≡ nonempty new)
make_migration_diff-Adds_example =
    make_migration_diff-Adds values (orders [] []) (file none)
      (some (file (some (table id_only [])))) (some (table with_name [])) added_draft draft-added

id-IsComparable : IsComparable values (column (codes "id"))
unfolding defaults_equal
id-IsComparable = record {
  min_equal = refl;
  max_equal = refl;
  default_equal = refl;
  target_default = λ r f v h k l. ground arith;
}

id_only-IsSettled : All (IsSettled values id_only) id_only
unfolding program
id_only-IsSettled = ((refl, id-IsComparable), tt)

make_migration_diff-unchanged_example :
    make_migration_diff values
      (orders (codes "a" ∷ []) (codes "a" ∷ []))
      (file none)
      (some (file (some (table id_only (named_index (codes "a") ∷ [])))))
      (some (table id_only (named_index (codes "a") ∷ [])))
    ≡ ok (file none, false)
make_migration_diff-unchanged_example =
    make_migration_diff-unchanged values (orders (codes "a" ∷ []) (codes "a" ∷ [])) (file none)
      (file (some (table id_only (named_index (codes "a") ∷ []))))
      (table id_only (named_index (codes "a") ∷ [])) refl id_only-IsSettled

abbrev dropped_draft : Draft ℕ
dropped_draft =
    drop_indexes (index_map [] (named_index (codes "a") ∷ [])) [] (codes "a" ∷ [])
      (file none, false)

same-table :
    text_eq
      (table_name (table id_only (named_index (codes "a") ∷ [])))
      (table_name (table id_only []))
    ≡ true
unfolding program
same-table = refl

fields-same :
    table_diff values (table id_only []) (table id_only (named_index (codes "a") ∷ []))
    ≡ ok (record { added = []; removed = []; diffs = [] })
unfolding program
fields-same = refl

index-found :
    lookup (codes "a") (index_map [] (named_index (codes "a") ∷ []))
    ≡ some (named_index (codes "a"))
unfolding program
index-found = refl

index-gone : is_kept (named_index (codes "a")) (lookup (codes "a") (index_map [] [])) ≡ false
unfolding program
index-gone = refl

draft-dropped :
    make_migration_diff values
      (orders (codes "a" ∷ []) [])
      (file none)
      (some (file (some (table id_only (named_index (codes "a") ∷ [])))))
      (some (table id_only []))
    ≡ ok dropped_draft
unfolding program
draft-dropped = refl
