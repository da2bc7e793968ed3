-- ===== src/Migrator/FileName/Panics.antt =====
-- How generateMigrationFileName of src/migrator/engine_utils.go ends: it has no error to return, and a
-- nil pointer panics.
use go_django_queries.Prelude.{
  Option, none, some, List, [], ◌∷◌, Text, Result, ok, err, panic, out_of_fuel, ◌>>=◌, ◌≡◌, ◌⊎◌,
  refl, inl, inr,
}
use go_django_queries.Migrator.Types.{
  MigrationAction, MigrationFile, EngineError, ActionType, create_table, drop_table, rename_table,
  add_index, drop_index, rename_index, add_field, alter_field, remove_field, unknown_action,
}
use go_django_queries.Migrator.FileName.{
  deref, describe, describe_all, generate_migration_file_name,
}

abbrev OkOrPanic : {A : Type 0} → Result EngineError A → Type 0
OkOrPanic (ok a) = Unit {0}
OkOrPanic (err e) = ⊥
OkOrPanic panic = Unit {0}
OkOrPanic out_of_fuel = ⊥

>>=-OkOrPanic :
    {A B : Type 0} (m : Result EngineError A) (f : A → Result EngineError B)
    → OkOrPanic m
    → ((a : A) → OkOrPanic (f a))
    → OkOrPanic (m >>= f)
>>=-OkOrPanic (ok a) f h k = k a
>>=-OkOrPanic (err e) f h k = absurd h
>>=-OkOrPanic panic f h k = tt
>>=-OkOrPanic out_of_fuel f h k = absurd h

deref-OkOrPanic : {A : Type 0} (o : Option A) → OkOrPanic (deref o)
deref-OkOrPanic none = tt
deref-OkOrPanic (some a) = tt

-- A pointer that is read first.
read-OkOrPanic :
    {A B : Type 0} (o : Option A) (f : A → Result EngineError B)
    → ((a : A) → OkOrPanic (f a))
    → OkOrPanic (deref o >>= f)
read-OkOrPanic o f h = >>=-OkOrPanic (deref o) f (deref-OkOrPanic o) h

OkOrPanic-cases :
    {A : Type 0} (r : Result EngineError A) → OkOrPanic r → ((a : A) × (r ≡ ok a)) ⊎ (r ≡ panic)
OkOrPanic-cases (ok a) h = inl (a, refl)
OkOrPanic-cases (err e) h = absurd h
OkOrPanic-cases panic h = inr refl
OkOrPanic-cases out_of_fuel h = absurd h

module _ {V : Type 0} where
  describe-OkOrPanic : (type : ActionType) (a : MigrationAction V) → OkOrPanic (describe type a)
  unfolding describe
  describe-OkOrPanic create_table a = tt
  describe-OkOrPanic drop_table a = tt
  describe-OkOrPanic rename_table a =
      read-OkOrPanic a.table _
        (λ c. read-OkOrPanic c.old _ (λ old. read-OkOrPanic c.new _ (λ new. tt)))
  describe-OkOrPanic add_index a =
      read-OkOrPanic a.index _ (λ c. read-OkOrPanic c.new _ (λ new. tt))
  describe-OkOrPanic drop_index a = read-OkOrPanic a.table _ (λ c.
      read-OkOrPanic c.new _
        (λ new. read-OkOrPanic a.index _ (λ i. read-OkOrPanic i.old _ (λ old. tt))))
  describe-OkOrPanic rename_index a =
      read-OkOrPanic a.index _
        (λ c. read-OkOrPanic c.old _ (λ old. read-OkOrPanic c.new _ (λ new. tt)))
  describe-OkOrPanic add_field a =
      read-OkOrPanic a.field _ (λ c. read-OkOrPanic c.new _ (λ new. tt))
  describe-OkOrPanic alter_field a =
      read-OkOrPanic a.field _ (λ c. read-OkOrPanic c.new _ (λ new. tt))
  describe-OkOrPanic remove_field a =
      read-OkOrPanic a.field _ (λ c. read-OkOrPanic c.old _ (λ old. tt))
  describe-OkOrPanic unknown_action a = tt

  describe_all-OkOrPanic : (actions : List (MigrationAction V)) → OkOrPanic (describe_all actions)
  unfolding describe_all
  describe_all-OkOrPanic [] = tt
  describe_all-OkOrPanic (a ∷ []) = describe-OkOrPanic a.action_type a
  describe_all-OkOrPanic (a ∷ b ∷ rest) =
      >>=-OkOrPanic (describe a.action_type a) _ (describe-OkOrPanic a.action_type a) (λ first. tt)

  pub generate_migration_file_name_cases :
      (m : MigrationFile V)
      → ((name : Text) × (generate_migration_file_name m ≡ ok name))
        ⊎ (generate_migration_file_name m ≡ panic)
  unfolding generate_migration_file_name
  generate_migration_file_name_cases m =
      OkOrPanic-cases _
        (>>=-OkOrPanic (describe_all m.actions) _ (describe_all-OkOrPanic m.actions) (λ body. tt))
