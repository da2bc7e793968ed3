-- ===== src/Migrator/Diff/Reported.antt =====
-- The actions that makeMigrationDiff in src/migrator/engine.go adds, and its answer.
use go_django_queries.Prelude.{
  ◌≡◌, inl, inr, refl, ap, sym, ◌∙◌, Bool, true, false, ◌||◌, Option, none, some, List, [], ◌∷◌,
  ◌++◌, Text, text_eq, lookup, if◌then◌else◌, Result, ok, >>=-eq-ok, arith, Option-cases,
}
use mathlib.Core.List.{append-nil, append_assoc}
use go_django_queries.Migrator.Types.{
  Column, Index, ModelTable, MigrationFile, MigrationAction, ActionType, EngineError, Changed,
  unchanged, changed, table_name, add_action, create_table, drop_table, rename_table, add_index,
  drop_index, add_field, alter_field, remove_field,
}
use go_django_queries.Migrator.Columns.{Values}
use go_django_queries.Migrator.Diff.{
  Draft, MapOrders, note, note_added, note_removed, note_altered, drop_indexes, add_indexes,
  is_kept, was_kept, diff_indexes, diff_tables, table_diff, make_migration_diff,
}
use go_django_queries.Migrator.Diff.Actions.{diff_indexes_never_renames}

abbrev pub nonempty : {A : Type 0} → List A → Bool
nonempty [] = false
nonempty (x ∷ xs) = true

nonempty-append : {A : Type 0} (xs ys : List A) → nonempty (xs ++ ys) ≡ (nonempty xs || nonempty ys)
nonempty-append [] ys = refl
nonempty-append (x ∷ xs) ys = refl

or_assoc : (a b c : Bool) → ((a || b) || c) ≡ (a || (b || c))
or_assoc a b c = ground arith

or_false : (a : Bool) → (a || false) ≡ a
or_false a = ground arith

or_true : (a : Bool) → (a || true) ≡ true
or_true a = ground arith

module _ {V : Type 0} where
  -- `d'` comes from `d` by adding actions, and its flag tells whether there are any.
  pub record Adds (d d' : Draft V) : Type 0 where
    pub new : List (MigrationAction V)
    pub actions : d'.0.actions ≡ d.0.actions ++ new
    pub reported : d'.1 ≡ (d.1 || nonempty new)

  Adds-refl : (d : Draft V) → Adds d d
  Adds-refl d = record {
    new = [];
    actions = sym (append-nil d.0.actions);
    reported = sym (or_false d.1);
  }

  pub Adds-trans : (d e f : Draft V) → Adds d e → Adds e f → Adds d f
  Adds-trans d e f h k = record {
    new = h.new ++ k.new;
    actions = k.actions ∙ (ap (λ l. l ++ k.new) h.actions ∙ append_assoc d.0.actions h.new k.new);
    reported =
        k.reported
        ∙ (ap (λ b. b || nonempty k.new) h.reported
            ∙ (or_assoc d.1 (nonempty h.new) (nonempty k.new)
                ∙ ap (λ b. d.1 || b) (sym (nonempty-append h.new k.new))));
  }

  pub Adds-note :
      (action : ActionType) (table : Option (Changed (ModelTable V)))
      (column : Option (Changed (Column V))) (index : Option (Changed Index)) (d : Draft V)
      → Adds d (note action table column index d)
  unfolding add_action
  Adds-note action table column index d = record {
    new = record { action_type = action; table = table; field = column; index = index } ∷ [];
    actions = refl;
    reported = sym (or_true d.1);
  }

  Adds-note_added : (cs : List (Column V)) (d : Draft V) → Adds d (note_added cs d)
  unfolding note_added
  Adds-note_added [] d = Adds-refl d
  Adds-note_added (c ∷ cs) d =
      Adds-trans d _ _ (Adds-note add_field none (some (unchanged c)) none d) (Adds-note_added cs _)

  Adds-note_removed : (cs : List (Column V)) (d : Draft V) → Adds d (note_removed cs d)
  unfolding note_removed
  Adds-note_removed [] d = Adds-refl d
  Adds-note_removed (c ∷ cs) d =
      Adds-trans d _ _ (Adds-note remove_field none (some (changed (some c) none)) none d)
        (Adds-note_removed cs _)

  Adds-note_altered : (cs : List (Column V × Column V)) (d : Draft V) → Adds d (note_altered cs d)
  unfolding note_altered
  Adds-note_altered [] d = Adds-refl d
  Adds-note_altered ((old, new) ∷ cs) d =
      Adds-trans d _ _ (Adds-note alter_field none (some (changed (some old) (some new))) none d)
        (Adds-note_altered cs _)

  Adds-if : (b : Bool) (d e : Draft V) → Adds d e → Adds d (if b then d else e)
  Adds-if true d e h = Adds-refl d
  Adds-if false d e h = h

  pub Adds-drop_indexes :
      (old new : List (Text × Index)) (names : List Text) (d : Draft V)
      → Adds d (drop_indexes old new names d)
  unfolding drop_indexes
  Adds-drop_indexes old new [] d = Adds-refl d
  Adds-drop_indexes old new (n ∷ names) d = elim (Option-cases (lookup n old)) [
    | inl absent ↦ rw (absent, drop_indexes) (Adds-drop_indexes old new names d)
    | inr (i, found) ↦
        rw (found, drop_indexes)
          (Adds-trans d _ _
            (Adds-if (is_kept i (lookup n new)) d _
              (Adds-note drop_index none none (some (changed (some i) none)) d))
            (Adds-drop_indexes old new names _))
  ]

  pub Adds-add_indexes :
      (old new : List (Text × Index)) (names : List Text) (d : Draft V)
      → Adds d (add_indexes old new names d)
  unfolding add_indexes
  Adds-add_indexes old new [] d = Adds-refl d
  Adds-add_indexes old new (n ∷ names) d = elim (Option-cases (lookup n new)) [
    | inl absent ↦ rw (absent, add_indexes) (Adds-add_indexes old new names d)
    | inr (i, found) ↦
        rw (found, add_indexes)
          (Adds-trans d _ _
            (Adds-if (was_kept (lookup n old) i) d _
              (Adds-note add_index none none (some (changed none (some i))) d))
            (Adds-add_indexes old new names _))
  ]

  Adds-diff_indexes :
      (orders : MapOrders) (old new : List Index) (d : Draft V)
      → Adds d (diff_indexes orders old new d)
  Adds-diff_indexes orders old new d =
      rw (diff_indexes_never_renames orders old new d) (
        Adds-trans d _ _ (Adds-drop_indexes _ _ orders.drops d)
          (Adds-add_indexes _ _ orders.adds _))

module _ {V : Type 0} (values : Values V) where
  Adds-diff_tables :
      (orders : MapOrders) (d : Draft V) (before now : ModelTable V) {d' : Draft V}
      → diff_tables values orders d before now ≡ ok d'
      → Adds d d'
  unfolding diff_tables
  Adds-diff_tables orders d before now {d'} e =
      let (diff, found, rest) = >>=-eq-ok (table_diff values now before) _ e in
      let renamed =
        if text_eq (table_name before) (table_name now)
        then d
        else note rename_table (some (changed (some before) (some now))) none none d in
      let result : diff_indexes orders before.index now.index
            (note_altered diff.diffs (note_removed diff.removed (note_added diff.added renamed)))
          ≡ d' =
        cc in
      rw (← result) (
        Adds-trans d renamed _
          (Adds-if (text_eq (table_name before) (table_name now)) d _
            (Adds-note rename_table (some (changed (some before) (some now))) none none d))
          (Adds-trans renamed _ _ (Adds-note_added diff.added renamed) (
            Adds-trans _ _ _ (Adds-note_removed diff.removed _) (
              Adds-trans _ _ _ (Adds-note_altered diff.diffs _)
                (Adds-diff_indexes orders before.index now.index _)))))

  one_action :
      (migration : MigrationFile V) (action : ActionType) (table : Option (Changed (ModelTable V)))
      (d : Draft V)
      → ◌≡◌ {A = Result EngineError (Draft V)}
          (ok (add_action migration action table none none, true))
          (ok d)
      → (new : List (MigrationAction V)) × (d.0.actions ≡ migration.actions ++ new)
        × (d.1 ≡ nonempty new)
  unfolding add_action
  one_action migration action table d e =
      let same : ◌≡◌ {A = Draft V} (add_action migration action table none none, true) d = cc in
      (
        record { action_type = action; table = table; field = none; index = none } ∷ [],
        sym (ap (λ (x : Draft V). x.0.actions) same),
        sym (ap (λ (x : Draft V). x.1) same),
      )

  with_table :
      (orders : MapOrders) (migration : MigrationFile V) (before : ModelTable V)
      (table : Option (ModelTable V)) (d : Draft V)
      → ◌≡◌ {A = Result EngineError (Draft V)}
          (elim table [
            | none ↦ ok (
              add_action migration drop_table (some (changed (some before) none)) none none,
              true,
            )
            | some now ↦ diff_tables values orders (migration, false) before now
          ])
          (ok d)
      → (new : List (MigrationAction V)) × (d.0.actions ≡ migration.actions ++ new)
        × (d.1 ≡ nonempty new)
  with_table orders migration before none d e =
      one_action migration drop_table (some (changed (some before) none)) d e
  with_table orders migration before (some now) d e =
      let added = Adds-diff_tables orders (migration, false) before now e in
      (added.new, added.actions, added.reported)

  -- On every branch a diff that returns has only added actions behind those of the migration, and
  -- it answers true exactly where it has added one.
  pub make_migration_diff-Adds :
      (orders : MapOrders) (migration : MigrationFile V) (last : Option (MigrationFile V))
      (table : Option (ModelTable V)) (d : Draft V)
      → make_migration_diff values orders migration last table ≡ ok d
      → (new : List (MigrationAction V)) × (d.0.actions ≡ migration.actions ++ new)
        × (d.1 ≡ nonempty new)
  unfolding make_migration_diff
  make_migration_diff-Adds orders migration none table d e =
      one_action migration create_table none d e
  make_migration_diff-Adds orders migration (some last) table d e = elim (Option-cases last.table) [
    | inl absent ↦ one_action migration create_table none d (rw (absent, make_migration_diff) at e)
    | inr (before, found) ↦
        with_table orders migration before table d (rw (found, make_migration_diff) at e)
  ]
