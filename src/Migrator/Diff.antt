-- ===== src/Migrator/Diff.antt =====
-- What has changed since the last migration: (*ModelTable).Diff in src/migrator/engine_table.go,
-- indexesEqual and makeMigrationDiff in src/migrator/engine.go. A log call changes no state and is
-- left out.
pub mod Fields
pub mod Actions
pub mod Reported
pub mod Dropped
pub mod Unchanged
mod Tests
use go_django_queries.Prelude.{
  Bool, true, false, not, ◌&&◌, Option, none, some, List, [], ◌∷◌, ◌++◌, Text, text_eq, lookup,
  insert, without, if◌then◌else◌, Result, ok, err, panic, ◌>>=◌,
}
use go_django_queries.Migrator.Types.{
  Column, Index, ModelTable, MigrationFile, EngineError, ActionType, Changed, unchanged, changed,
  index_name, table_name, add_action, create_table, drop_table, rename_table, add_index, drop_index,
  rename_index, add_field, alter_field, remove_field,
}
use go_django_queries.Migrator.Columns.{Values, column_equals, bool_eq}

pub record FieldDiff (V : Type 0) : Type 0 where
  pub added : List (Column V)
  pub removed : List (Column V)
  pub diffs : List (Column V × Column V)

abbrev pub texts_equal : List Text → List Text → Bool
texts_equal [] [] = true
texts_equal [] (t ∷ ts) = false
texts_equal (s ∷ ss) [] = false
texts_equal (s ∷ ss) (t ∷ ts) = text_eq s t && texts_equal ss ts

-- indexesEqual
unfoldable pub indexes_equal : Index → Index → Bool
indexes_equal a b =
    text_eq (index_name a) (index_name b)
    && (bool_eq a.unique b.unique && (text_eq a.type b.type && texts_equal a.fields b.fields))

-- for _, idx := range indexes { m[idx.Name()] = idx }
unfoldable pub index_map : List (Text × Index) → List Index → List (Text × Index)
index_map m [] = m
index_map m (i ∷ is) = index_map (insert (index_name i) i m) is

-- The order in which the loops over oldMap and newMap meet the names; for the last loop, the order
-- of newMap too, which Go may choose anew for each name of oldMap.
pub record MapOrders : Type 0 where
  pub drops : List Text
  pub adds : List Text
  pub renames : List Text
  pub candidates : Text → List Text

-- An index is kept where both maps have it under its name and the two are equal.
abbrev pub is_kept : Index → Option Index → Bool
is_kept i none = false
is_kept i (some j) = indexes_equal i j

abbrev pub was_kept : Option Index → Index → Bool
was_kept none i = false
was_kept (some j) i = indexes_equal j i

-- The migration file under construction, and shouldMigrate.
abbrev pub Draft : Type 0 → Type 0
Draft V = MigrationFile V × Bool

-- The maps that the last loop deletes from, and the draft.
pub record Renames (V : Type 0) : Type 0 where
  pub old : List (Text × Index)
  pub new : List (Text × Index)
  pub draft : Draft V

module _ {V : Type 0} where
  -- migration.addAction(…); shouldMigrate = true
  abbrev pub note :
      ActionType
      → Option (Changed (ModelTable V))
      → Option (Changed (Column V))
      → Option (Changed Index)
      → Draft V
      → Draft V
  note action table column index d = (add_action d.0 action table column index, true)

  unfoldable pub note_added : List (Column V) → Draft V → Draft V
  note_added [] d = d
  note_added (c ∷ cs) d = note_added cs (note add_field none (some (unchanged c)) none d)

  unfoldable pub note_removed : List (Column V) → Draft V → Draft V
  note_removed [] d = d
  note_removed (c ∷ cs) d =
      note_removed cs (note remove_field none (some (changed (some c) none)) none d)

  unfoldable pub note_altered : List (Column V × Column V) → Draft V → Draft V
  note_altered [] d = d
  note_altered ((old, new) ∷ cs) d =
      note_altered cs (note alter_field none (some (changed (some old) (some new))) none d)

  -- Drop removed or changed indexes.
  unfoldable pub drop_indexes :
      List (Text × Index) → List (Text × Index) → List Text → Draft V → Draft V
  drop_indexes old new [] d = d
  drop_indexes old new (name ∷ names) d = drop_indexes old new names (elim (lookup name old) [
    | none ↦ d
    | some i ↦
        if is_kept i (lookup name new)
        then d
        else note drop_index none none (some (changed (some i) none)) d
  ])

  -- Add new or changed indexes.
  unfoldable pub add_indexes :
      List (Text × Index) → List (Text × Index) → List Text → Draft V → Draft V
  add_indexes old new [] d = d
  add_indexes old new (name ∷ names) d = add_indexes old new names (elim (lookup name new) [
    | none ↦ d
    | some i ↦
        if was_kept (lookup name old) i
        then d
        else note add_index none none (some (changed none (some i))) d
  ])

  -- The inner loop: the candidates for one old index.
  unfoldable pub rename_index_among : Text → Index → List Text → Renames V → Renames V
  rename_index_among old_name i [] r = r
  rename_index_among old_name i (name ∷ names) r =
      let rest = rename_index_among old_name i names r in
      elim (lookup name r.new) [
        | none ↦ rest
        | some candidate ↦
            if indexes_equal i candidate && not (text_eq old_name name)
            then record {
              old = without old_name r.old;
              new = without name r.new;
              draft =
                  note rename_index none none (some (changed (some i) (some candidate))) r.draft;
            }
            else rest
      ]

  -- Detect and rename matching indexes with different names.
  unfoldable pub rename_indexes : (Text → List Text) → List Text → Renames V → Renames V
  unfolding rename_index_among
  rename_indexes candidates [] r = r
  rename_indexes candidates (name ∷ names) r =
      rename_indexes candidates names (elim (lookup name r.old) [
        | none ↦ r
        | some i ↦ rename_index_among name i (candidates name) r
      ])

  -- The three loops over the index maps.
  unfoldable pub diff_indexes : MapOrders → List Index → List Index → Draft V → Draft V
  unfolding drop_indexes add_indexes rename_indexes index_map
  diff_indexes orders old_indexes new_indexes d =
      let old = index_map [] old_indexes in
      let new = index_map [] new_indexes in
      (rename_indexes orders.candidates orders.renames (record {
        old = old;
        new = new;
        draft = add_indexes old new orders.adds (drop_indexes old new orders.drops d);
      })).draft

module _ {V : Type 0} (values : Values V) where
  -- The first loop of Diff, over the columns of the other table.
  unfoldable pub removed_fields : List (Text × Column V) → List (Text × Column V) → List (Column V)
  removed_fields new [] = []
  removed_fields new ((k, col) ∷ old) =
      let rest = removed_fields new old in
      elim (lookup col.name new) [ none ↦ col ∷ rest | some c ↦ rest ]

  -- The second loop of Diff, over the columns of this table.
  unfoldable pub new_fields :
      List (Text × Column V)
      → List (Text × Column V)
      → Result EngineError (List (Column V) × List (Column V × Column V))
  new_fields old [] = ok ([], [])
  new_fields old ((k, col) ∷ new) = elim (lookup col.name old) [
    | none ↦ do (added, diffs) ← new_fields old new; ok (col ∷ added, diffs)
    | some before ↦ do
      equal ← column_equals values col before
      (added, diffs) ← new_fields old new
      ok (added, if equal then diffs else (before, col) ∷ diffs)
  ]

  -- (*ModelTable).Diff of two tables that are not nil.
  unfoldable pub table_diff : ModelTable V → ModelTable V → Result EngineError (FieldDiff V)
  unfolding removed_fields new_fields
  table_diff t other = do
    (added, diffs) ← new_fields other.fields t.fields
    ok (record { added = added; removed = removed_fields t.fields other.fields; diffs = diffs })

  -- The part of makeMigrationDiff for two tables.
  unfoldable pub diff_tables :
      MapOrders → Draft V → ModelTable V → ModelTable V → Result EngineError (Draft V)
  diff_tables orders d last table = table_diff table last >>= λ diff.
      let renamed =
        if text_eq (table_name last) (table_name table)
        then d
        else note rename_table (some (changed (some last) (some table))) none none d in
      ok (
        diff_indexes orders last.index table.index
          (note_altered diff.diffs (note_removed diff.removed (note_added diff.added renamed))))

  -- makeMigrationDiff
  unfoldable pub make_migration_diff :
      MapOrders
      → MigrationFile V
      → Option (MigrationFile V)
      → Option (ModelTable V)
      → Result EngineError (Draft V)
  unfolding diff_tables
  make_migration_diff orders migration none table =
      ok (add_action migration create_table none none none, true)
  make_migration_diff orders migration (some last) table = elim last.table [
    | none ↦ ok (add_action migration create_table none none none, true)
    | some before ↦ elim table [
      | none ↦
          ok (add_action migration drop_table (some (changed (some before) none)) none none, true)
      | some now ↦ diff_tables orders (migration, false) before now
    ]
  ]
