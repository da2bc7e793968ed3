-- ===== src/Migrator/Store.antt =====
-- The maps of known migrations: storeInMap, latestFromMap and NewMigration in
-- src/migrator/engine.go.
mod Tests
use go_django_queries.Prelude.{
  ◌≡◌, ◌⊎◌, inl, inr, refl, ap, sym, ◌∙◌, subst, Bool, true, false, not, ◌&&◌, Option, none, some,
  List, [], ◌∷◌, ◌++◌, Text, codes, text_eq, text_eq_iff, lookup, insert, lookup-insert,
  if◌then◌else◌, arith, Bool-cases, Option-cases, In, All, suc, zero, ℕ,
}
use go_django_queries.Prelude.Int.{ℤ, pos, negsuc, succ, ltb_ℤ}
use go_django_queries.Migrator.Types.{ModelTable, MigrationFile}

abbrev pub MigrationMap : Type 0 → Type 0
MigrationMap V = List (Text × List (Text × List (MigrationFile V)))

abbrev pub last : {A : Type 0} → List A → Option A
last [] = none
last (x ∷ xs) = elim (last xs) [ none ↦ some x | some y ↦ some y ]

-- A missing entry reads as the zero value.
abbrev pub or_empty : {A : Type 0} → Option (List A) → List A
or_empty none = []
or_empty (some l) = l

last-snoc : {A : Type 0} (xs : List A) (x : A) → last (xs ++ (x ∷ [])) ≡ some x
last-snoc [] x = refl
last-snoc (y ∷ xs) x = rw (last-snoc xs x) refl

module _ {V : Type 0} where
  -- m[app][model] = append(m[app][model], mig), with the maps made where they are missing.
  unfoldable pub store_in_map : MigrationMap V → MigrationFile V → MigrationMap V
  store_in_map m mig =
      let models = or_empty (lookup mig.app_name m) in
      let migrations = or_empty (lookup mig.model_name models) in
      insert mig.app_name (insert mig.model_name (migrations ++ (mig ∷ [])) models) m

  -- latestFromMap; a map that is nil holds nothing.
  unfoldable pub latest_from_map : MigrationMap V → Text → Text → Option (MigrationFile V)
  latest_from_map m app model = last (or_empty (lookup model (or_empty (lookup app m))))

  -- The loop over the migrations that were read.
  unfoldable pub store_all : MigrationMap V → List (MigrationFile V) → MigrationMap V
  store_all m [] = m
  store_all m (x ∷ xs) = store_all (store_in_map m x) xs

  -- NewMigration
  unfoldable pub new_migration :
      MigrationMap V → Text → Text → Option (ModelTable V) → MigrationFile V
  new_migration m app model table = record {
    app_name = app;
    model_name = model;
    name = codes "auto_generated";
    order = elim (latest_from_map m app model) [ none ↦ pos 1 | some l ↦ succ l.order ];
    dependencies = [];
    table = table;
    actions = [];
  }

  abbrev pub is_of : Text → Text → MigrationFile V → Bool
  is_of app model m = text_eq m.app_name app && text_eq m.model_name model

  -- Storing a migration makes it the latest of its model, and changes that of no other.
  pub latest_from_map-store_in_map :
      (m : MigrationMap V) (mig : MigrationFile V) (app model : Text)
      → latest_from_map (store_in_map m mig) app model
        ≡ (if is_of app model mig then some mig else latest_from_map m app model)
  unfolding latest_from_map store_in_map
  latest_from_map-store_in_map m mig app model =
      let models = or_empty (lookup mig.app_name m) in
      let migrations = or_empty (lookup mig.model_name models) in
      rw
        (lookup-insert mig.app_name app (insert mig.model_name (migrations ++ (mig ∷ [])) models) m)
        (elim (Bool-cases (text_eq mig.app_name app)) [
          | inr other ↦ rw other refl
          | inl same ↦ rw same (
              rw (lookup-insert mig.model_name model (migrations ++ (mig ∷ [])) models)
                (elim (Bool-cases (text_eq mig.model_name model)) [
                  | inl this ↦ rw this (last-snoc migrations mig)
                  | inr that ↦ rw that (
                      ap (λ a. last (or_empty (lookup model (or_empty (lookup a m)))))
                        ((text_eq_iff mig.app_name app).0 same))
                ]))
        ])

  -- Sorted by their order, as ReadMigrations returns them.
  abbrev pub IsSorted : List (MigrationFile V) → Type 0
  IsSorted [] = Unit {0}
  IsSorted (m ∷ ms) = All (λ x. ltb_ℤ x.order m.order ≡ false) ms × IsSorted ms

ltb_ℤ-succ : (a b : ℤ) → ltb_ℤ b a ≡ false → ltb_ℤ a (succ b) ≡ true
ltb_ℤ-succ (pos a) (pos b) h = ground arith
ltb_ℤ-succ (pos a) (negsuc b) h = cc
ltb_ℤ-succ (negsuc a) (pos b) h = refl
ltb_ℤ-succ (negsuc a) (negsuc zero) h = refl
ltb_ℤ-succ (negsuc a) (negsuc (suc b)) h = ground arith

ltb_ℤ-trans : (a b c : ℤ) → ltb_ℤ b a ≡ false → ltb_ℤ c b ≡ false → ltb_ℤ c a ≡ false
ltb_ℤ-trans (pos a) (pos b) (pos c) h k = ground arith
ltb_ℤ-trans (negsuc a) (negsuc b) (negsuc c) h k = ground arith
ltb_ℤ-trans (negsuc a) (negsuc b) (pos c) h k = refl
ltb_ℤ-trans (negsuc a) (pos b) (pos c) h k = refl
ltb_ℤ-trans (pos a) (negsuc b) c h k = cc
ltb_ℤ-trans (pos a) (pos b) (negsuc c) h k = cc
ltb_ℤ-trans (negsuc a) (pos b) (negsuc c) h k = cc

module _ {V : Type 0} (app model : Text) where
  latest_stays :
      (ms : List (MigrationFile V)) (m : MigrationMap V) (l : MigrationFile V)
      → latest_from_map m app model ≡ some l
      → All (λ x. ltb_ℤ x.order l.order ≡ false) ms
      → IsSorted ms
      → (k : MigrationFile V) × (latest_from_map (store_all m ms) app model ≡ some k)
        × (ltb_ℤ k.order l.order ≡ false)
  unfolding store_all
  latest_stays [] m l e above sorted = (l, e, ltb_ℤ-refl l.order)
    where
      ltb_ℤ-refl : (a : ℤ) → ltb_ℤ a a ≡ false
      ltb_ℤ-refl (pos a) = ground arith
      ltb_ℤ-refl (negsuc a) = ground arith
  latest_stays (x ∷ ms) m l e above sorted = elim (Bool-cases (is_of app model x)) [
    | inl mine ↦
        let (k, found, ge) =
          latest_stays ms (store_in_map m x) x
            (latest_from_map-store_in_map m x app model ∙ (rw mine refl)) sorted.0 sorted.1 in
        (k, found, ltb_ℤ-trans l.order x.order k.order above.0 ge)
    | inr other ↦
        latest_stays ms (store_in_map m x) l
          (latest_from_map-store_in_map m x app model ∙ (rw other e)) above.1 sorted.1
  ]

  stored_below_latest :
      (ms : List (MigrationFile V)) (m : MigrationMap V) (x : MigrationFile V)
      → IsSorted ms
      → In x ms
      → is_of app model x ≡ true
      → (k : MigrationFile V) × (latest_from_map (store_all m ms) app model ≡ some k)
        × (ltb_ℤ k.order x.order ≡ false)
  unfolding store_all
  stored_below_latest [] m x sorted at mine = absurd at
  stored_below_latest (y ∷ ms) m x sorted (inl e) mine = rw e (
      latest_stays ms (store_in_map m y) y
        (latest_from_map-store_in_map m y app model ∙ (rw (rw e at mine) refl)) sorted.0 sorted.1)
  stored_below_latest (y ∷ ms) m x sorted (inr later) mine =
      stored_below_latest ms (store_in_map m y) x sorted.1 later mine

  -- After migrations sorted by their order are stored, the order of a new migration is above that
  -- of each stored one of its model.
  pub new_migration-order_fresh :
      (ms : List (MigrationFile V)) (x : MigrationFile V) (table : Option (ModelTable V))
      → IsSorted ms
      → In x ms
      → is_of app model x ≡ true
      → ltb_ℤ x.order (new_migration (store_all [] ms) app model table).order ≡ true
  unfolding new_migration
  new_migration-order_fresh ms x table sorted at mine =
      let (k, found, ge) = stored_below_latest ms [] x sorted at mine in
      rw (found, new_migration) (ltb_ℤ-succ x.order k.order ge)
