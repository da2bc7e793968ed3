-- ===== src/Migrator/Apply.antt =====
-- The second half of (*MigrationEngine).Migrate in src/migrator/engine.go: which migrations have
-- not been applied, and the loop that applies the sorted nodes. The schema editor, an interface
-- that Migrate calls, is a parameter: its methods act on a state `S`, the database.
pub mod Recorded
mod Tests
use go_django_queries.Prelude.{
  Bool, true, false, Option, none, some, List, [], ◌∷◌, ◌++◌, map, Text, if◌then◌else◌, Result, ok,
  err, panic, out_of_fuel, ◌>>=◌, ◌≡◌, ◌≢◌,
}
use go_django_queries.Migrator.Types.{
  Column, Index, ModelTable, MigrationAction, MigrationFile, EngineError, Changed, ActionType,
  index_name, table_name, create_table, drop_table, rename_table, add_index, drop_index,
  rename_index, add_field, alter_field, remove_field, unknown_action,
}
use go_django_queries.Migrator.Build.{Node, build_dependency_graph}
use go_django_queries.Migrator.FileName.{generate_migration_file_name}

-- How a statement ends: normally, with an error of the editor, with an action of unknown type, or
-- in a panic.
pub data Status (E : Type 0) : Type 0 where
  done : Status E
  failed : E → Status E
  unknown : Status E
  panicked : Status E
  -- buildDependencyGraph failed.
  no_order : EngineError → Status E

-- HasMigration: its answer, or an error.
pub data Answer (E : Type 0) : Type 0 where
  applied : Bool → Answer E
  unanswered : E → Answer E

pub record SchemaEditor (S V E : Type 0) : Type 0 where
  pub has_migration : S → Text → Text → Text → Answer E
  pub store_migration : S → Text → Text → Text → S × Status E
  pub create_table : S → ModelTable V → S × Status E
  pub drop_table : S → ModelTable V → S × Status E
  pub rename_table : S → ModelTable V → Text → S × Status E
  pub add_index : S → ModelTable V → Index → S × Status E
  pub drop_index : S → ModelTable V → Index → S × Status E
  pub rename_index : S → ModelTable V → Text → Text → S × Status E
  pub add_field : S → ModelTable V → Column V → S × Status E
  pub alter_field : S → ModelTable V → Column V → Column V → S × Status E
  pub remove_field : S → ModelTable V → Column V → S × Status E

-- Action.Table.Old, Action.Field.Old or Action.Index.Old. A nil pointer panics, for a table inside
-- the editor, which asks it for its name. Migrate also sets `Table` and `Field` of the columns it
-- hands over; the columns of the model carry neither.
abbrev pub with_old : {A S E : Type 0} → S → Option (Changed A) → (A → S × Status E) → S × Status E
with_old s none f = (s, panicked)
with_old s (some c) f = elim c.old [ none ↦ (s, panicked) | some a ↦ f a ]

abbrev pub with_new : {A S E : Type 0} → S → Option (Changed A) → (A → S × Status E) → S × Status E
with_new s none f = (s, panicked)
with_new s (some c) f = elim c.new [ none ↦ (s, panicked) | some a ↦ f a ]

abbrev pub then_do : {S E : Type 0} → S × Status E → (S → S × Status E) → S × Status E
then_do (s, done) f = f s
then_do (s, failed e) f = (s, failed e)
then_do (s, unknown) f = (s, unknown)
then_do (s, panicked) f = (s, panicked)
then_do (s, no_order e) f = (s, no_order e)

module _ {S V E : Type 0} (editor : SchemaEditor S V E) where
  -- The switch over action.ActionType.
  unfoldable pub apply_action : ModelTable V → ActionType → MigrationAction V → S → S × Status E
  apply_action table create_table a s = editor.create_table s table
  apply_action table drop_table a s = with_old s a.table (λ old. editor.drop_table s old)
  apply_action table rename_table a s =
      with_old s a.table
        (λ old. with_new s a.table (λ new. editor.rename_table s old (table_name new)))
  apply_action table add_field a s = with_new s a.field (λ new. editor.add_field s table new)
  apply_action table alter_field a s =
      with_old s a.field (λ old. with_new s a.field (λ new. editor.alter_field s table old new))
  apply_action table remove_field a s = with_old s a.field (λ old. editor.remove_field s table old)
  apply_action table add_index a s = with_new s a.index (λ new. editor.add_index s table new)
  apply_action table drop_index a s = with_old s a.index (λ old. editor.drop_index s table old)
  apply_action table rename_index a s = with_old s a.index (λ old.
      with_new s a.index (λ new. editor.rename_index s table (index_name old) (index_name new)))
  apply_action table unknown_action a s = (s, unknown)

  unfoldable pub apply_actions : ModelTable V → List (MigrationAction V) → S → S × Status E
  unfolding apply_action
  apply_actions table [] s = (s, done)
  apply_actions table (a ∷ as_) s =
      then_do (apply_action table a.action_type a s) (apply_actions table as_)

  -- The actions of one migration, and StoreMigration behind them.
  unfoldable pub run_migration : MigrationFile V → Text → S → S × Status E
  unfolding apply_actions
  run_migration mig name s = elim mig.table [
    | none ↦ (s, panicked)
    | some table ↦
        then_do (apply_actions table mig.actions s)
          (λ t. editor.store_migration t mig.app_name mig.model_name name)
  ]

  -- One round of the loop over the graph, for a node with a file name: a migration whose check
  -- fails is passed over, and so is one that has been applied.
  unfoldable pub apply_node : MigrationFile V → Text → S → S × Status E
  unfolding run_migration
  apply_node mig name s = elim (editor.has_migration s mig.app_name mig.model_name name) [
    | unanswered e ↦ (s, done)
    | applied has ↦ if has then (s, done) else run_migration mig name s
  ]

  unfoldable pub apply_named : MigrationFile V → Result EngineError Text → S → S × Status E
  unfolding apply_node
  apply_named mig (ok name) s = apply_node mig name s
  apply_named mig (err e) s = (s, panicked)
  apply_named mig panic s = (s, panicked)
  apply_named mig out_of_fuel s = (s, panicked)

  -- The loop over the graph.
  unfoldable pub apply_all : List (MigrationFile V) → S → S × Status E
  unfolding apply_named
  apply_all [] s = (s, done)
  apply_all (m ∷ ms) s = then_do (apply_named m (generate_migration_file_name m) s) (apply_all ms)

  -- The first loop of Migrate: the migrations that the database does not have.
  unfoldable pub find_unapplied : S → List (MigrationFile V) → List (MigrationFile V) × Status E
  find_unapplied s [] = ([], done)
  find_unapplied s (m ∷ ms) =
      let rest = find_unapplied s ms in
      elim (generate_migration_file_name m) [
        | ok name ↦ elim (editor.has_migration s m.app_name m.model_name name) [
          | unanswered e ↦ ([], failed e)
          | applied has ↦ if has then rest else (m ∷ rest.0, rest.1)
        ]
        | err e ↦ ([], panicked)
        | panic ↦ ([], panicked)
        | out_of_fuel ↦ ([], panicked)
      ]

  abbrev pub migs : List (Node V) → List (MigrationFile V)
  migs ns = map (λ n. n.mig) ns

  abbrev pub apply_graph : Result EngineError (List (Node V)) → S → S × Status E
  apply_graph (ok nodes) s = apply_all (migs nodes) s
  apply_graph (err e) s = (s, no_order e)
  apply_graph panic s = (s, panicked)
  apply_graph out_of_fuel s = (s, panicked)

  abbrev pub apply_unapplied :
      List Text → List Text → List (MigrationFile V) × Status E → S → S × Status E
  apply_unapplied links roots ([], done) s = (s, done)
  apply_unapplied links roots (m ∷ ms, done) s =
      apply_graph (build_dependency_graph links roots (m ∷ ms)) s
  apply_unapplied links roots (ms, failed e) s = (s, failed e)
  apply_unapplied links roots (ms, unknown) s = (s, unknown)
  apply_unapplied links roots (ms, panicked) s = (s, panicked)
  apply_unapplied links roots (ms, no_order e) s = (s, no_order e)

  -- Migrate, once Setup has run and the migration files are read. On the way it also stores the
  -- migrations in the maps of the engine, as `Store.store_all` does; nothing that follows reads them.
  unfoldable pub migrate : List Text → List Text → List (MigrationFile V) → S → S × Status E
  unfolding find_unapplied apply_all
  migrate links roots migrations s = apply_unapplied links roots (find_unapplied s migrations) s
