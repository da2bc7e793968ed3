-- ===== src/Transactions.antt =====
-- StartTransaction and RunInTransaction of src/queryset_transactions.go, the transactions of
-- src/queryset_transactions_types.go, and the transaction methods of genericQueryBuilder in
-- src/queryset_compiler_generic.go. A compiler is known by a number; the database driver, which
-- acts on a state `D` of all databases, is a parameter.
pub mod Outcome
pub mod Isolation
mod Tests
use go_django_queries.Prelude.{
  ℕ, suc, ◌+◌, Bool, true, false, ◌||◌, Option, none, some, Text, text_eq, is_empty, if◌then◌else◌,
  ◌==◌,
}

-- Begin, Commit and Rollback of drivers.DB and drivers.Transaction, on the transaction of a
-- compiler; `none` is a nil error. `tx_done` is errors.Is(err, sql.ErrTxDone), and
-- `database_name` is the DatabaseName of Compiler(name).
pub record Driver (D E : Type 0) : Type 0 where
  pub begin : D → Text → ℕ → D × Option E
  pub commit : D → ℕ → D × Option E
  pub rollback : D → ℕ → D × Option E
  pub tx_done : E → Bool
  pub database_name : Text → Text

pub data TxError (E : Type 0) : Type 0 where
  no_transaction failed_start transaction_started : TxError E
  driver_failed body_failed : E → TxError E

-- `is_open` is InTransaction of each compiler; `next` is the number of the next compiler.
pub record World (D : Type 0) : Type 0 where
  pub db : D
  pub is_open : ℕ → Bool
  pub next : ℕ

-- The context carries the compiler of its transaction, and the name of the database.
pub record Context : Type 0 where
  pub transaction : Option (ℕ × Text)

-- nullTransaction and wrappedTransaction.
pub data Transaction : Type 0 where
  null_transaction : Transaction
  wrapped_transaction : ℕ → Transaction

-- How the function that RunInTransaction is given ends: with `commit` and an error, or in a panic.
pub data Body (E : Type 0) : Type 0 where
  returned : Bool → Option E → Body E
  panicked : Body E

-- Context, transaction and DatabaseName of a transaction that was started.
pub data Started (E : Type 0) : Type 0 where
  started : Context → Transaction → Text → Started E
  not_started : TxError E → Started E

module _ {D E : Type 0} (driver : Driver D E) where
  abbrev pub mark_open : ℕ → Bool → D → World D → World D
  mark_open i b db w = record {
    db = db;
    is_open = λ j. if j == i then b else w.is_open j;
    next = w.next;
  }

  -- The error that Rollback and Commit return for the error of the driver.
  abbrev pub reported : Option E → Option (TxError E)
  reported none = none
  reported (some e) = if driver.tx_done e then none else some (driver_failed e)

  -- (*wrappedTransaction).Rollback
  unfoldable pub rollback_wrapped : ℕ → World D → World D × Option (TxError E)
  rollback_wrapped i w =
      let r = driver.rollback w.db i in
      if w.is_open i then (mark_open i false r.0 w, reported r.1) else (w, some no_transaction)

  -- (*wrappedTransaction).Commit
  unfoldable pub commit_wrapped : ℕ → World D → World D × Option (TxError E)
  commit_wrapped i w =
      let r = driver.commit w.db i in
      if w.is_open i then (mark_open i false r.0 w, reported r.1) else (w, some no_transaction)

  unfoldable pub rollback : Transaction → World D → World D × Option (TxError E)
  unfolding rollback_wrapped
  rollback null_transaction w = (w, none)
  rollback (wrapped_transaction i) w = rollback_wrapped i w

  unfoldable pub commit : Transaction → World D → World D × Option (TxError E)
  unfolding commit_wrapped
  commit null_transaction w = (w, none)
  commit (wrapped_transaction i) w = commit_wrapped i w

  -- WithTransaction
  unfoldable pub with_transaction : ℕ → D → World D → World D × Option (TxError E)
  with_transaction i db w =
      if w.is_open i then (w, some transaction_started) else (mark_open i true db w, none)

  -- What follows the call of Begin.
  abbrev pub after_begin : ℕ → World D → D × Option E → World D × Option (TxError E)
  after_begin i w (db, some e) =
      (record { db = db; is_open = w.is_open; next = w.next }, some failed_start)
  after_begin i w (db, none) = with_transaction i db w

  -- (*genericQueryBuilder).StartTransaction
  unfoldable pub compiler_start : ℕ → Text → World D → World D × Option (TxError E)
  unfolding with_transaction
  compiler_start i name w =
      let r = driver.begin w.db name i in if w.is_open i then (w, none) else after_begin i w r

  -- What follows the start of the compiler's transaction in StartTransaction.
  abbrev pub with_context : ℕ → Text → World D × Option (TxError E) → World D × Started E
  with_context i name (w, some e) = (w, not_started e)
  with_context i name (w, none) = (
    w,
    started (record { transaction = some (i, driver.database_name name) }) (wrapped_transaction i)
        name,
  )

  -- The part of StartTransaction behind the test: the transaction of a new compiler.
  unfoldable pub start_new : Context → Text → World D → World D × Started E
  unfolding compiler_start
  start_new ctx name w =
      with_context w.next name
        (compiler_start w.next name (record { db = w.db; is_open = w.is_open; next = suc w.next }))

  -- Whether the context has a transaction of this database.
  abbrev pub reusable : Option (ℕ × Text) → Text → Bool
  reusable none name = false
  reusable (some (i, db_name)) name = is_empty db_name || text_eq db_name name

  -- StartTransaction
  unfoldable pub start_transaction : Context → Text → World D → World D × Started E
  unfolding start_new
  start_transaction ctx name w =
      if reusable ctx.transaction name
      then (w, started ctx null_transaction name)
      else start_new ctx name w

  -- The deferred function: the transaction is rolled back unless it was committed.
  abbrev pub finally : Transaction → World D → World D
  finally tx w = (rollback tx w).0

  -- What follows the call of Commit.
  abbrev pub after_commit :
      Transaction → World D × Option (TxError E) → World D × Option (TxError E)
  after_commit tx (w, none) = (w, none)
  after_commit tx (w, some e) = (finally tx w, some e)

  -- The end of RunInTransaction, on what its function did.
  unfoldable pub finish : Transaction → World D × Body E → World D × Option (TxError E)
  unfolding rollback commit
  finish tx (w, panicked) = (finally tx w, none)
  finish tx (w, returned c (some e)) = (finally tx w, some (body_failed e))
  finish tx (w, returned false none) = (finally tx w, none)
  finish tx (w, returned true none) = after_commit tx (commit tx w)

  -- What follows the call of StartTransaction.
  abbrev pub run_started :
      (Context → Text → World D → World D × Body E)
      → World D × Started E
      → World D × Option (TxError E)
  run_started fn (w, not_started e) = (w, some e)
  run_started fn (w, started ctx tx db_name) = finish tx (fn ctx db_name w)

  -- RunInTransaction
  unfoldable pub run_in_transaction :
      Context
      → Text
      → (Context → Text → World D → World D × Body E)
      → World D
      → World D × Option (TxError E)
  unfolding start_transaction finish
  run_in_transaction ctx name fn w = run_started fn (start_transaction ctx name w)

-- newQuerySetFunc, for a model whose compiler has a database name; none is a panic.
unfoldable pub new_query_set : Context → Text → Text → Option Context
new_query_set ctx db_name databaseName = if text_eq db_name databaseName then some ctx else none
