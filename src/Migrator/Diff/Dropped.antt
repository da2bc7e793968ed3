-- ===== src/Migrator/Diff/Dropped.antt =====
-- A migration of src/migrator/engine.go whose first change is that an index goes away.
use go_django_queries.Prelude.{
  ◌≡◌, refl, ap, sym, ◌∙◌, true, false, none, some, List, [], ◌∷◌, ◌++◌, Text, text_eq, lookup, ok,
  panic,
}
use go_django_queries.Migrator.Types.{
  Index, ModelTable, MigrationFile, MigrationAction, changed, table_name, add_action, drop_index,
}
use go_django_queries.Migrator.FileName.{describe, describe_all, generate_migration_file_name}
use go_django_queries.Migrator.Columns.{Values}
use go_django_queries.Migrator.Diff.{
  Draft, MapOrders, note, note_added, note_removed, note_altered, drop_indexes, add_indexes,
  index_map, is_kept, diff_indexes, diff_tables, table_diff, make_migration_diff,
}
use go_django_queries.Migrator.Diff.Actions.{diff_indexes_never_renames}
use go_django_queries.Migrator.Diff.Reported.{Adds-trans, Adds-drop_indexes, Adds-add_indexes}

module _ {V : Type 0} where
  drop_action : Index → MigrationAction V
  drop_action i = record {
    action_type = drop_index;
    table = none;
    field = none;
    index = some (changed (some i) none);
  }

  describe_all-drop_index :
      (i : Index) (rest : List (MigrationAction V)) → describe_all (drop_action i ∷ rest) ≡ panic
  unfolding describe_all describe drop_action
  describe_all-drop_index i [] = refl
  describe_all-drop_index i (b ∷ rest) = refl

  generate-drop_index :
      (m : MigrationFile V) (i : Index) (rest : List (MigrationAction V))
      → m.actions ≡ drop_action i ∷ rest
      → generate_migration_file_name m ≡ panic
  unfolding generate_migration_file_name
  generate-drop_index m i rest e = rw e (rw (describe_all-drop_index i rest) refl)

  -- The first index that the drop loop meets is dropped by the first action.
  first_drop :
      (orders : MapOrders) (before now : List Index) (d : Draft V) (name : Text) (names : List Text)
      (i : Index)
      → d.0.actions ≡ []
      → orders.drops ≡ name ∷ names
      → lookup name (index_map [] before) ≡ some i
      → is_kept i (lookup name (index_map [] now)) ≡ false
      → (rest : List (MigrationAction V)) × ((diff_indexes orders before now d).0.actions
          ≡ drop_action i ∷ rest)
  unfolding drop_indexes add_action drop_action
  first_drop orders before now d name names i none_yet starts found gone =
      let old = index_map [] before in
      let new = index_map [] now in
      let d' = note drop_index none none (some (changed (some i) none)) d in
      let stepped : drop_indexes old new orders.drops d ≡ drop_indexes old new names d' =
        rw (starts, drop_indexes) (rw found (rw gone refl)) in
      let later =
        Adds-trans d' _ _ (Adds-drop_indexes old new names d')
          (Adds-add_indexes old new orders.adds _) in
      (
        later.new,
        ap (λ (x : Draft V). x.0.actions) (diff_indexes_never_renames orders before now d)
            ∙ (ap (λ (x : Draft V). (add_indexes old new orders.adds x).0.actions) stepped
                ∙ (later.actions ∙ ap (λ l. (l ++ (drop_action i ∷ [])) ++ later.new) none_yet)),
      )

module _ {V : Type 0} (values : Values V) where
  diff_tables-unchanged :
      (orders : MapOrders) (d : Draft V) (before now : ModelTable V)
      → text_eq (table_name before) (table_name now) ≡ true
      → table_diff values now before ≡ ok (record { added = []; removed = []; diffs = [] })
      → diff_tables values orders d before now ≡ ok (diff_indexes orders before.index now.index d)
  unfolding diff_tables note_added note_removed note_altered
  diff_tables-unchanged orders d before now same unchanged = rw unchanged (rw same refl)

  -- Where the tables differ in nothing but their indexes, and the drop loop begins with an index
  -- that is not kept, the new migration has no file name: generating one panics, since the action
  -- that drops an index carries no table.
  pub dropped_index_has_no_name :
      (orders : MapOrders) (migration last : MigrationFile V) (before now : ModelTable V)
      (d : Draft V) (name : Text) (names : List Text) (i : Index)
      → migration.actions ≡ []
      → last.table ≡ some before
      → text_eq (table_name before) (table_name now) ≡ true
      → table_diff values now before ≡ ok (record { added = []; removed = []; diffs = [] })
      → orders.drops ≡ name ∷ names
      → lookup name (index_map [] before.index) ≡ some i
      → is_kept i (lookup name (index_map [] now.index)) ≡ false
      → make_migration_diff values orders migration (some last) (some now) ≡ ok d
      → generate_migration_file_name d.0 ≡ panic
  unfolding make_migration_diff
  dropped_index_has_no_name orders migration last before now d name names i empty table same
        unchanged starts found gone made =
      let (rest, first) =
        first_drop orders before.index now.index (migration, false) name names i empty starts found
          gone in
      let whole : diff_tables values orders (migration, false) before now ≡ ok d =
        rw (table, make_migration_diff) at made in
      let result : diff_indexes orders before.index now.index (migration, false) ≡ d =
        cc (diff_tables-unchanged orders (migration, false) before now same unchanged, whole) in
      generate-drop_index d.0 i rest (ap (λ (x : Draft V). x.0.actions) (sym result) ∙ first)
