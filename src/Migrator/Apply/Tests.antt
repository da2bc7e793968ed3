-- ===== src/Migrator/Apply/Tests.antt =====
-- Applying migrations with an editor that only records.
use go_django_queries.Prelude.{
  ℕ, Bool, true, false, ◌||◌, Option, none, some, List, [], ◌∷◌, ◌++◌, Text, codes, text_eq,
  text_eq_refl, ◌≡◌, refl, ap, sym, ◌∙◌, subst, In, Bool-cases, inl, inr, if◌then◌else◌,
}
use go_django_queries.Prelude.Int.{pos}
use go_django_queries.Prelude.Decimal.{itoa, digits}
use go_django_queries.Migrator.Types.{
  ModelTable, MigrationAction, MigrationFile, create_table, drop_table, table_name,
}
use go_django_queries.Migrator.FileName.{generate_migration_file_name}
use go_django_queries.Migrator.Apply.{
  Status, done, failed, Answer, applied, unanswered, SchemaEditor, apply_action, apply_actions,
  run_migration, apply_node, apply_named, apply_all, migrate,
}
use go_django_queries.Migrator.Apply.Recorded.{Has, Kept, KeepsRecords, migrate_again}

abbrev member : Text → List Text → Bool
member k [] = false
member k (j ∷ js) = text_eq j k || member k js

-- The records in the table of migrations; none where there is no such table, and then HasMigration
-- and StoreMigration fail. An action that drops the table named migrations takes it away.
abbrev editor : SchemaEditor (Option (List Text)) ℕ ℕ
editor = record {
  has_migration = λ s app model name. elim s [
    | none ↦ unanswered 1
    | some ks ↦ applied (member (app ++ (model ++ name)) ks)
  ];
  store_migration = λ s app model name. elim s [
    | none ↦ (none, failed 1)
    | some ks ↦ (some ((app ++ (model ++ name)) ∷ ks), done)
  ];
  create_table = λ s t. (s, done);
  drop_table =
      λ s t. if text_eq (table_name t) (codes "migrations") then (none, done) else (s, done);
  rename_table = λ s t n. (s, done);
  add_index = λ s t i. (s, done);
  drop_index = λ s t i. (s, done);
  rename_index = λ s t i j. (s, done);
  add_field = λ s t c. (s, done);
  alter_field = λ s t c d. (s, done);
  remove_field = λ s t c. (s, done);
}

abbrev table : ModelTable ℕ
table = record { object_table = codes "users"; table = []; desc = []; fields = []; index = [] }

abbrev file : Text → MigrationAction ℕ → MigrationFile ℕ
file model action = record {
  app_name = codes "a";
  model_name = model;
  name = codes "m";
  order = pos 1;
  dependencies = [];
  table = some table;
  actions = action ∷ [];
}

abbrev created : MigrationAction ℕ
created = record { action_type = create_table; table = none; field = none; index = none }

abbrev dropped : MigrationAction ℕ
dropped = record {
  action_type = drop_table;
  table = some (record { old = some table; new = none });
  field = none;
  index = none;
}

-- One migration makes a table and another drops one, which is not that of the migrations.
abbrev files : List (MigrationFile ℕ)
files = file (codes "U") created ∷ file (codes "V") dropped ∷ []

-- There is a table of migrations.
abbrev Works : Option (List Text) → Type 0
Works none = ⊥
Works (some ks) = Unit {0}

program : Unit {0}
unfolding apply_all apply_named apply_node run_migration apply_actions apply_action
    generate_migration_file_name text_eq itoa digits table_name
program = tt

-- A file of one action, under the equations that In gives.
one_action :
    (m : MigrationFile ℕ) (a : MigrationAction ℕ) (s : Option (List Text)) (model : Text)
    (action : MigrationAction ℕ)
    → m ≡ file model action
    → In a m.actions
    → apply_action editor table action.action_type action s ≡ (s, done)
    → apply_action editor table a.action_type a s ≡ (s, done)
one_action m a s model action e i h = elim (subst (λ x. In a x.actions) e i) [
  | inl same ↦ subst (λ x. apply_action editor table x.action_type x s ≡ (s, done)) (sym same) h
  | inr n ↦ absurd n
]

-- The actions of these files leave the records alone.
files-same :
    (m : MigrationFile ℕ) (a : MigrationAction ℕ) (s : Option (List Text))
    → In m files
    → In a m.actions
    → apply_action editor table a.action_type a s ≡ (s, done)
unfolding program
files-same m a s (inl e) i = one_action m a s (codes "U") created e i refl
files-same m a s (inr (inl e)) i = one_action m a s (codes "V") dropped e i refl
files-same m a s (inr (inr n)) i = absurd n

files-table : (m : MigrationFile ℕ) (t : ModelTable ℕ) → In m files → m.table ≡ some t → table ≡ t
files-table m t (inl e) h = let h' = ap (λ x. x.table) e in cc
files-table m t (inr (inl e)) h = let h' = ap (λ x. x.table) e in cc
files-table m t (inr (inr n)) h = absurd n

Kept-same :
    (s t : Option (List Text))
    → Works s
    → ◌≡◌ {A = Option (List Text) × Status ℕ} (s, done) (t, done)
    → Kept editor Works s t
Kept-same s t w e =
    let e' = ap (λ p. p.0) e in
    (subst Works e' w, λ app model name h. subst (λ r. Has editor r app model name) e' h)

member-later :
    (k j : Text) (ks : List Text)
    → ◌≡◌ {A = Answer ℕ} (applied (member j ks)) (applied true)
    → ◌≡◌ {A = Answer ℕ} (applied (text_eq k j || member j ks)) (applied true)
member-later k j ks h = elim (Bool-cases (text_eq k j)) [ inl e ↦ rw e refl | inr e ↦ rw e h ]

editor-KeepsRecords : KeepsRecords editor Works files
editor-KeepsRecords = record {
  answers = answers;
  records = records;
  store_keeps = stores;
  schema_keeps = schema;
}
  where
    answers :
        (s : Option (List Text)) (m : MigrationFile ℕ) (name : Text)
        → Works s
        → In m files
        → (b : Bool) × (editor.has_migration s m.app_name m.model_name name ≡ applied b)
    answers none m name w i = absurd w
    answers (some ks) m name w i = (member (m.app_name ++ (m.model_name ++ name)) ks, refl)

    records :
        (s t : Option (List Text)) (app model name : Text)
        → Works s
        → editor.store_migration s app model name ≡ (t, done)
        → Has editor t app model name
    records none t app model name w e = absurd w
    records (some ks) t app model name w e =
        subst (λ r. Has editor r app model name) (ap (λ p. p.0) e)
          (rw (text_eq_refl (app ++ (model ++ name))) refl)

    stores :
        (s t : Option (List Text)) (app model name : Text)
        → Works s
        → editor.store_migration s app model name ≡ (t, done)
        → Kept editor Works s t
    stores none t app model name w e = absurd w
    stores (some ks) t app model name w e = subst (Kept editor Works (some ks)) (ap (λ p. p.0) e) (
      tt,
      λ app' model' name' h. member-later (app ++ (model ++ name)) (app' ++ (model' ++ name')) ks h,
    )

    schema :
        (s t : Option (List Text)) (m : MigrationFile ℕ) (tab : ModelTable ℕ)
        (a : MigrationAction ℕ)
        → Works s
        → In m files
        → m.table ≡ some tab
        → In a m.actions
        → apply_action editor tab a.action_type a s ≡ (t, done)
        → Kept editor Works s t
    schema s t m tab a w i has j e = Kept-same s t w (
        sym (files-same m a s i j)
        ∙ subst (λ x. apply_action editor x a.action_type a s ≡ (t, done))
            (sym (files-table m tab i has)) e)

abbrev both : Option (List Text)
both = some (codes "aV0001_drop_table.mig" ∷ codes "aU0001_create_table.mig" ∷ [])

files-applied : apply_all editor files (some []) ≡ (both, done)
unfolding program
files-applied = refl

migrate_again_example : migrate editor [] [] files both ≡ (both, done)
migrate_again_example =
    migrate_again editor Works editor-KeepsRecords (some []) both [] [] tt files-applied
