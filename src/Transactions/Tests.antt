-- ===== src/Transactions/Tests.antt =====
-- Transactions on a database that holds a committed and a pending number.
use go_django_queries.Prelude.{ℕ, suc, true, false, none, some, Text, codes, text_eq, ◌≡◌, refl}
use go_django_queries.Transactions.{
  Driver, World, Context, wrapped_transaction, Body, returned, panicked, started, start_transaction,
  start_new, compiler_start, with_transaction, rollback, run_in_transaction, new_query_set,
}
use go_django_queries.Transactions.Isolation.{Isolates, run_in_transaction-isolated}
use go_django_queries.Transactions.Outcome.{
  begun, begun_context, closed, ended, run_in_transaction-new, cross_database_is_silent,
}

-- The committed and the pending number.
abbrev Db : Type 0
Db = ℕ × ℕ

abbrev driver : Driver Db ℕ
driver = record {
  begin = λ db name i. ((db.0, db.0), none);
  commit = λ db i. ((db.1, db.1), none);
  rollback = λ db i. ((db.0, db.0), none);
  tx_done = λ e. false;
  database_name = λ name. name;
}

abbrev world : World Db
world = record { db = (5, 5); is_open = λ i. false; next = 0 }

abbrev nowhere : Context
nowhere = record { transaction = none }

-- The context of a function that runs in a transaction of the first compiler.
abbrev inside : Context
inside = record { transaction = some (0, codes "default") }

-- Adds one to the pending number.
abbrev write : Body ℕ → Context → Text → World Db → World Db × Body ℕ
write b c name w = (record { db = (w.db.0, suc w.db.1); is_open = w.is_open; next = w.next }, b)

committed-db :
    (run_in_transaction driver nowhere (codes "default") (write (returned true none)) world).0.db
    ≡ (6, 6)
unfolding run_in_transaction
committed-db = refl

run_in_transaction-new_example :
    run_in_transaction driver nowhere (codes "default") (write (returned true none)) world ≡ (
      closed driver 0
          (ended driver 0 (
            write
              (returned true none)
              (begun_context driver (codes "default") world)
              (codes "default")
              (begun driver (codes "default") world)))
          (write
            (returned true none)
            (begun_context driver (codes "default") world)
            (codes "default")
            (begun driver (codes "default") world)).0,
      none,
    )
run_in_transaction-new_example =
    run_in_transaction-new driver nowhere (codes "default") (write (returned true none)) world refl
      refl refl refl

isolates : Isolates driver (λ db. db.0)
isolates = record { begin_keeps = λ db name i. refl; rollback_keeps = λ db i. refl }

run_in_transaction-isolated_example :
    (run_in_transaction driver nowhere (codes "default") (write panicked) world).0.db.0 ≡ 5
run_in_transaction-isolated_example =
    run_in_transaction-isolated driver (λ db. db.0) isolates nowhere (codes "default")
      (write panicked) world (λ c n v. refl) (λ c n v. refl)

names_differ : text_eq (codes "default") (codes "other") ≡ false
unfolding text_eq
names_differ = refl

starts-first : start_transaction driver nowhere (codes "default") world ≡ (
  begun driver (codes "default") world,
  started (begun_context driver (codes "default") world) (wrapped_transaction 0) (codes "default"),
)
unfolding start_transaction start_new compiler_start with_transaction
starts-first = refl

cross_database_is_silent_example :
    run_in_transaction driver nowhere
      (codes "default")
      (λ k db_name u. elim (new_query_set k db_name (codes "other")) [
        | none ↦ (u, panicked)
        | some q ↦ write (returned true none) q db_name u
      ])
      world
    ≡ ((rollback driver (wrapped_transaction 0) (begun driver (codes "default") world)).0, none)
cross_database_is_silent_example =
    cross_database_is_silent driver nowhere (begun_context driver (codes "default") world)
      (codes "default") (codes "other") (λ q u. write (returned true none) q (codes "default") u)
      world (begun driver (codes "default") world) (wrapped_transaction 0) names_differ starts-first
