-- ===== src/Migrator/Apply/Recorded.antt =====
-- The records of applied migrations that the loop of Migrate in src/migrator/engine.go leaves.
use go_django_queries.Prelude.{
  Bool, true, List, [], ◌∷◌, Text, Result, ok, err, panic, some, inl, inr, out_of_fuel, ◌≡◌, refl,
  subst, ap, sym, ◌∙◌, In, Option-cases, Bool-cases,
}
use go_django_queries.Migrator.Types.{ModelTable, MigrationAction, MigrationFile, EngineError}
use go_django_queries.Migrator.FileName.{generate_migration_file_name}
use go_django_queries.Migrator.Apply.{
  Status, done, failed, unknown, panicked, no_order, applied, SchemaEditor, then_do, apply_action,
  apply_actions, run_migration, apply_node, apply_named, apply_all, find_unapplied, migrate,
}

-- The editor has a record of the migration.
abbrev pub Has : {S V E : Type 0} → SchemaEditor S V E → S → Text → Text → Text → Type 0
Has editor s app model name = editor.has_migration s app model name ≡ applied true

-- From a state to another, where the editor works and has all records that it had.
abbrev pub Kept : {S V E : Type 0} → SchemaEditor S V E → (S → Type 0) → S → S → Type 0
Kept editor Works s t =
    Works t × ((app model name : Text) → Has editor s app model name → Has editor t app model name)

-- What is asked of a schema editor for these migrations, in the states in which it `Works`, such as those
-- with a table of migrations that can be read: HasMigration answers; StoreMigration that returns no error
-- has recorded; and neither it nor an action of these migrations, where it returns no error, takes a
-- record away or leaves such states.
pub record KeepsRecords {S V E : Type 0} (editor : SchemaEditor S V E) (Works : S → Type 0)
    (ms : List (MigrationFile V)) : Type 0 where
  pub answers :
      (s : S) (m : MigrationFile V) (name : Text)
      → Works s
      → In m ms
      → (b : Bool) × (editor.has_migration s m.app_name m.model_name name ≡ applied b)
  pub records :
      (s t : S) (app model name : Text)
      → Works s
      → editor.store_migration s app model name ≡ (t, done)
      → Has editor t app model name
  pub store_keeps :
      (s t : S) (app model name : Text)
      → Works s
      → editor.store_migration s app model name ≡ (t, done)
      → Kept editor Works s t
  pub schema_keeps :
      (s t : S) (m : MigrationFile V) (table : ModelTable V) (a : MigrationAction V)
      → Works s
      → In m ms
      → m.table ≡ some table
      → In a m.actions
      → apply_action editor table a.action_type a s ≡ (t, done)
      → Kept editor Works s t

then_do-eq-done :
    {S E : Type 0} (r : S × Status E) (f : S → S × Status E) {t : S}
    → then_do r f ≡ (t, done)
    → (u : S) × (r ≡ (u, done)) × (f u ≡ (t, done))
then_do-eq-done (s, done) f h = (s, refl, h)
then_do-eq-done (s, failed e) f h = absurd (let h' = ap (λ p. p.1) h in cc)
then_do-eq-done (s, unknown) f h = absurd (let h' = ap (λ p. p.1) h in cc)
then_do-eq-done (s, panicked) f h = absurd (let h' = ap (λ p. p.1) h in cc)
then_do-eq-done (s, no_order e) f h = absurd (let h' = ap (λ p. p.1) h in cc)

module _ {S V E : Type 0} (editor : SchemaEditor S V E) (Works : S → Type 0) where
  Kept-refl : (s t : S) → Works s → s ≡ t → Kept editor Works s t
  Kept-refl s t w e =
      (subst Works e w, λ app model name h. subst (λ r. Has editor r app model name) e h)

  Kept-trans : (s t u : S) → Kept editor Works s t → Kept editor Works t u → Kept editor Works s u
  Kept-trans s t u h k = (k.0, λ app model name has. k.1 app model name (h.1 app model name has))

module _ {S V E : Type 0} (editor : SchemaEditor S V E) (Works : S → Type 0)
    {ms : List (MigrationFile V)} (laws : KeepsRecords editor Works ms) where
  -- The record of a migration under its file name.
  abbrev pub IsRecorded : S → MigrationFile V → Type 0
  IsRecorded s m =
      (name : Text) × (generate_migration_file_name m ≡ ok name)
      × Has editor s m.app_name m.model_name name

  apply_actions-Kept :
      (m : MigrationFile V) (table : ModelTable V)
      → In m ms
      → m.table ≡ some table
      → (actions : List (MigrationAction V))
      → ((a : MigrationAction V) → In a actions → In a m.actions)
      → (s t : S) → Works s
      → apply_actions editor table actions s ≡ (t, done)
      → Kept editor Works s t
  unfolding apply_actions
  apply_actions-Kept m table at has [] within s t w h =
      Kept-refl editor Works s t w (ap (λ p. p.0) h)
  apply_actions-Kept m table at has (a ∷ actions) within s t w h =
      let (u, first, rest) =
        then_do-eq-done (apply_action editor table a.action_type a s)
          (apply_actions editor table actions) h in
      let kept = laws.schema_keeps s u m table a w at has (within a (inl refl)) first in
      Kept-trans editor Works s u t kept
        (apply_actions-Kept m table at has actions (λ b i. within b (inr i)) u t kept.0 rest)

  run_migration-Kept :
      (m : MigrationFile V) (n : Text) (s t : S)
      → In m ms
      → Works s
      → run_migration editor m n s ≡ (t, done)
      → Kept editor Works s t × Has editor t m.app_name m.model_name n
  unfolding run_migration
  run_migration-Kept m n s t at w h = elim (Option-cases m.table) [
    | inl absent ↦ absurd (let h' = ap (λ p. p.1) (rw (absent, run_migration) at h) in cc)
    | inr (table, found) ↦
        let (u, acted, stored) =
          then_do-eq-done (apply_actions editor table m.actions s) _
            (rw (found, run_migration) at h) in
        let kept = apply_actions-Kept m table at found m.actions (λ a i. i) s u w acted in
        (
          Kept-trans editor Works s u t kept
              (laws.store_keeps u t m.app_name m.model_name n kept.0 stored),
          laws.records u t m.app_name m.model_name n kept.0 stored,
        )
  ]

  apply_node-Kept :
      (m : MigrationFile V) (n : Text) (s t : S)
      → In m ms
      → Works s
      → apply_node editor m n s ≡ (t, done)
      → Kept editor Works s t × Has editor t m.app_name m.model_name n
  unfolding apply_node
  apply_node-Kept m n s t at w h =
      let (has, e) = laws.answers s m n w at in
      elim (Bool-cases has) [
        | inl old ↦
            let h' : ◌≡◌ {A = S × Status E} (s, done) (t, done) =
              rw old at (rw (e, apply_node) at h) in
            let kept = Kept-refl editor Works s t w (ap (λ p. p.0) h') in
            (kept, kept.1 m.app_name m.model_name n (e ∙ ap applied old))
        | inr new ↦ run_migration-Kept m n s t at w (rw new at (rw (e, apply_node) at h))
      ]

  apply_named-Kept :
      (m : MigrationFile V) (r : Result EngineError Text) (s t : S)
      → In m ms
      → Works s
      → apply_named editor m r s ≡ (t, done)
      → Kept editor Works s t × ((n : Text) × (r ≡ ok n) × Has editor t m.app_name m.model_name n)
  unfolding apply_named
  apply_named-Kept m (ok n) s t at w h =
      let (kept, has) = apply_node-Kept m n s t at w h in (kept, (n, refl, has))
  apply_named-Kept m (err e) s t at w h = absurd (let h' = ap (λ p. p.1) h in cc)
  apply_named-Kept m panic s t at w h = absurd (let h' = ap (λ p. p.1) h in cc)
  apply_named-Kept m out_of_fuel s t at w h = absurd (let h' = ap (λ p. p.1) h in cc)

  -- When the loop over the sorted migrations ends without an error, the database has each of them.
  apply_all-IsRecorded :
      (xs : List (MigrationFile V)) (s t : S)
      → ((m : MigrationFile V) → In m xs → In m ms)
      → Works s
      → apply_all editor xs s ≡ (t, done)
      → Kept editor Works s t × ((m : MigrationFile V) → In m xs → IsRecorded t m)
  unfolding apply_all
  apply_all-IsRecorded [] s t within w h =
      (Kept-refl editor Works s t w (ap (λ p. p.0) h), λ m at. absurd at)
  apply_all-IsRecorded (x ∷ xs) s t within w h =
      let (u, first, rest) =
        then_do-eq-done (apply_named editor x (generate_migration_file_name x) s)
          (apply_all editor xs) h in
      let (kept, own) =
        apply_named-Kept x (generate_migration_file_name x) s u (within x (inl refl)) w first in
      let (n, named, has) = own in
      let (later, others) = apply_all-IsRecorded xs u t (λ m i. within m (inr i)) kept.0 rest in
      (
        Kept-trans editor Works s u t kept later,
        λ m at. elim at [
          | inl e ↦ subst (IsRecorded t) (sym e) (n, named, later.1 x.app_name x.model_name n has)
          | inr i ↦ others m i
        ],
      )

  none_unapplied :
      (ms : List (MigrationFile V)) (t : S)
      → ((m : MigrationFile V) → In m ms → IsRecorded t m)
      → find_unapplied editor t ms ≡ ([], done)
  unfolding find_unapplied
  none_unapplied [] t h = refl
  none_unapplied (m ∷ ms) t h =
      let (n, named, has) = h m (inl refl) in
      rw (named, find_unapplied)
        (rw (has, find_unapplied) (none_unapplied ms t (λ x i. h x (inr i))))

  -- With a schema editor that keeps its records, from a state in which it works: after the loop over
  -- sorted migrations has ended without an error, Migrate on these migrations changes nothing, whatever
  -- the order of Go's maps.
  pub migrate_again :
      (s t : S) (links roots : List Text)
      → Works s
      → apply_all editor ms s ≡ (t, done)
      → migrate editor links roots ms t ≡ (t, done)
  unfolding migrate
  migrate_again s t links roots w h =
      rw (none_unapplied ms t (apply_all-IsRecorded ms s t (λ m i. i) w h).1, migrate) refl
