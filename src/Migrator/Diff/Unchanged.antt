-- ===== src/Migrator/Diff/Unchanged.antt =====
-- makeMigrationDiff in src/migrator/engine.go on a table that has not changed.
use go_django_queries.Prelude.{
  ◌≡◌, inl, inr, refl, ap, ◌∙◌, Bool, true, false, Option, none, some, List, [], ◌∷◌, Text, text_eq,
  text_eq_refl, lookup, ok, Option-cases, All,
}
use go_django_queries.Prelude.Int.{ℤ, int_eq, int_eq_iff}
use go_django_queries.Migrator.Types.{
  TargetField, MigrationRelation, Column, Index, ModelTable, MigrationFile, table_name,
}
use go_django_queries.Migrator.Columns.{
  Values, column_equals, same_shape, defaults_equal, relation_equals, target_field_equals, bool_eq,
  option_equal, target_defaults_equal,
}
use go_django_queries.Migrator.Diff.{
  Draft, MapOrders, texts_equal, indexes_equal, drop_indexes, add_indexes, note_added, note_removed,
  note_altered, index_map, is_kept, was_kept, diff_indexes, diff_tables, removed_fields, new_fields,
  table_diff, make_migration_diff,
}
use go_django_queries.Migrator.Diff.Actions.{diff_indexes_never_renames}

texts_equal_refl : (ts : List Text) → texts_equal ts ts ≡ true
texts_equal_refl [] = refl
texts_equal_refl (t ∷ ts) = rw (text_eq_refl t) (texts_equal_refl ts)

bool_eq_refl : (b : Bool) → bool_eq b b ≡ true
bool_eq_refl true = refl
bool_eq_refl false = refl

int_eq_refl : (n : ℤ) → int_eq n n ≡ true
int_eq_refl n = (int_eq_iff n n).1 refl

ruleset refl_laws = (text_eq_refl, texts_equal_refl, bool_eq_refl, int_eq_refl)

indexes_equal_refl : (i : Index) → indexes_equal i i ≡ true
unfolding indexes_equal
indexes_equal_refl i = simp refl_laws

module _ {V : Type 0} where
  drop_indexes-same :
      (m : List (Text × Index)) (names : List Text) (d : Draft V) → drop_indexes m m names d ≡ d
  unfolding drop_indexes
  drop_indexes-same m [] d = refl
  drop_indexes-same m (n ∷ names) d = elim (Option-cases (lookup n m)) [
    | inl absent ↦ rw (absent, drop_indexes) (drop_indexes-same m names d)
    | inr (i, found) ↦
        rw (found, drop_indexes)
          (rw (found, is_kept) (rw (indexes_equal_refl i) (drop_indexes-same m names d)))
  ]

  add_indexes-same :
      (m : List (Text × Index)) (names : List Text) (d : Draft V) → add_indexes m m names d ≡ d
  unfolding add_indexes
  add_indexes-same m [] d = refl
  add_indexes-same m (n ∷ names) d = elim (Option-cases (lookup n m)) [
    | inl absent ↦ rw (absent, add_indexes) (add_indexes-same m names d)
    | inr (i, found) ↦
        rw (found, add_indexes)
          (rw (found, was_kept) (rw (indexes_equal_refl i) (add_indexes-same m names d)))
  ]

  diff_indexes-same :
      (orders : MapOrders) (is : List Index) (d : Draft V) → diff_indexes orders is is d ≡ d
  diff_indexes-same orders is d =
      diff_indexes_never_renames orders is is d
      ∙ (ap (add_indexes (index_map [] is) (index_map [] is) orders.adds)
            (drop_indexes-same (index_map [] is) orders.drops d)
          ∙ add_indexes-same (index_map [] is) orders.adds d)

module _ {V : Type 0} (values : Values V) where
  -- The column's values equal themselves: its bounds are no NaN, and its defaults can be compared.
  pub record IsComparable (c : Column V) : Type 0 where
    pub min_equal : values.float_equal c.min_value c.min_value ≡ true
    pub max_equal : values.float_equal c.max_value c.max_value ≡ true
    pub default_equal : defaults_equal values c.dflt c.dflt ≡ ok true
    pub target_default :
        (r : MigrationRelation V) (f : TargetField V) (v : V)
        → c.rel ≡ some r
        → r.target_field ≡ some f
        → f.get_default ≡ some v
        → values.interface_equal v v ≡ true

  target_defaults_equal_refl :
      (o : Option V)
      → ((v : V) → o ≡ some v → values.interface_equal v v ≡ true)
      → target_defaults_equal values o o ≡ true
  target_defaults_equal_refl none h = refl
  target_defaults_equal_refl (some v) h = h v refl

  target_field_equals_refl :
      (o : Option (TargetField V))
      → ((f : TargetField V) (v : V)
          → o ≡ some f
          → f.get_default ≡ some v
          → values.interface_equal v v ≡ true)
      → option_equal (target_field_equals values) o o ≡ true
  unfolding target_field_equals
  target_field_equals_refl none h = refl
  target_field_equals_refl (some f) h =
      simp (refl_laws, target_defaults_equal_refl f.get_default (λ v. h f v refl))

  relation_equals_refl :
      (o : Option (MigrationRelation V))
      → ((r : MigrationRelation V) (f : TargetField V) (v : V)
          → o ≡ some r
          → r.target_field ≡ some f
          → f.get_default ≡ some v
          → values.interface_equal v v ≡ true)
      → option_equal (relation_equals values) o o ≡ true
  unfolding relation_equals
  relation_equals_refl none h = refl
  relation_equals_refl (some r) h = simp (
    int_eq_refl,
    model_equal r.target_model,
    target_field_equals_refl r.target_field (λ f v. h r f v refl),
  )
    where
      model_equal : (o : Option Text) → option_equal text_eq o o ≡ true
      model_equal none = refl
      model_equal (some t) = text_eq_refl t

  same_shape_refl : (c : Column V) → IsComparable c → same_shape values c c ≡ true
  unfolding same_shape
  same_shape_refl c h = simp (refl_laws, h.min_equal, h.max_equal)

  column_equals_refl : (c : Column V) → IsComparable c → column_equals values c c ≡ ok true
  unfolding column_equals
  column_equals_refl c h = simp (
    same_shape_refl c h,
    h.default_equal,
    text_eq_refl,
    relation_equals_refl c.rel h.target_default,
  )

  -- A column of a table, found under its own name.
  abbrev pub IsSettled : List (Text × Column V) → Text × Column V → Type 0
  IsSettled fields e = (lookup e.1.name fields ≡ some e.1) × IsComparable e.1

  removed_fields-same :
      (fields old : List (Text × Column V))
      → All (IsSettled fields) old
      → removed_fields values fields old ≡ []
  unfolding removed_fields
  removed_fields-same fields [] h = refl
  removed_fields-same fields ((k, c) ∷ old) h =
      rw (h.0.0, removed_fields) (removed_fields-same fields old h.1)

  new_fields-same :
      (fields new : List (Text × Column V))
      → All (IsSettled fields) new
      → new_fields values fields new ≡ ok ([], [])
  unfolding new_fields
  new_fields-same fields [] h = refl
  new_fields-same fields ((k, c) ∷ new) h =
      rw (h.0.0, new_fields)
        (rw (column_equals_refl c h.0.1) (rw (new_fields-same fields new h.1) refl))

  -- Where the last migration has the table as it is now, and each of its columns stands under its
  -- name and equals itself, the diff answers false and leaves the migration as it was.
  pub make_migration_diff-unchanged :
      (orders : MapOrders) (migration last : MigrationFile V) (table : ModelTable V)
      → last.table ≡ some table
      → All (IsSettled table.fields) table.fields
      → make_migration_diff values orders migration (some last) (some table) ≡ ok (migration, false)
  unfolding make_migration_diff diff_tables table_diff note_added note_removed note_altered
  make_migration_diff-unchanged orders migration last table e h =
      rw (e, make_migration_diff)
        (rw (new_fields-same table.fields table.fields h) (
          rw (removed_fields-same table.fields table.fields h) (
            rw (text_eq_refl (table_name table))
              (ap ok (diff_indexes-same orders table.index (migration, false))))))
