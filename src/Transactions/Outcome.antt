-- ===== src/Transactions/Outcome.antt =====
-- The end of a transaction of RunInTransaction in src/queryset_transactions.go.
use go_django_queries.Prelude.{
  ℕ, suc, Bool, true, false, Option, none, some, Text, text_eq, if◌then◌else◌, ◌≡◌, refl, ap, ◌∙◌,
  arith, Option-cases, inl, inr,
}
use go_django_queries.Transactions.{
  Driver, TxError, body_failed, World, Context, Transaction, null_transaction, wrapped_transaction,
  Body, returned, panicked, started, mark_open, reported, rollback, commit, rollback_wrapped,
  commit_wrapped, with_transaction, after_begin, compiler_start, with_context, start_new, reusable,
  start_transaction, finally, after_commit, finish, run_started, run_in_transaction, new_query_set,
}

module _ {D E : Type 0} (driver : Driver D E) where
  -- The error of a body that ran to its end in a transaction of a function further up.
  abbrev pub body_error : Body E → Option (TxError E)
  body_error panicked = none
  body_error (returned c none) = none
  body_error (returned c (some e)) = some (body_failed e)

  finish-null : (r : World D × Body E) → finish driver null_transaction r ≡ (r.0, body_error r.1)
  unfolding finish commit rollback
  finish-null (w, panicked) = refl
  finish-null (w, returned c (some e)) = refl
  finish-null (w, returned true none) = refl
  finish-null (w, returned false none) = refl

  start_transaction-reusable :
      (ctx : Context) (name : Text) (w : World D)
      → reusable driver ctx.transaction name ≡ true
      → start_transaction driver ctx name w ≡ (w, started ctx null_transaction name)
  unfolding start_transaction
  start_transaction-reusable ctx name w inside = rw (inside, start_transaction) refl

  -- In a context that has a transaction of the same database, RunInTransaction starts, commits and
  -- rolls back nothing: the world is what the function left.
  pub run_in_transaction-nested :
      (ctx : Context) (name : Text) (fn : Context → Text → World D → World D × Body E) (w : World D)
      → reusable driver ctx.transaction name ≡ true
      → run_in_transaction driver ctx name fn w ≡ ((fn ctx name w).0, body_error (fn ctx name w).1)
  unfolding run_in_transaction
  run_in_transaction-nested ctx name fn w inside =
      ap (run_started driver fn) (start_transaction-reusable ctx name w inside)
      ∙ finish-null (fn ctx name w)

  -- The bodies that ask for a commit.
  abbrev pub is_commit : Body E → Bool
  is_commit (returned true none) = true
  is_commit (returned true (some e)) = false
  is_commit (returned false e) = false
  is_commit panicked = false

  -- The world after a transaction of compiler `i` has ended in the database `db`.
  abbrev pub closed : ℕ → D → World D → World D
  closed i db w = mark_open driver i false db w

  rollback_wrapped-open :
      (i : ℕ) (w : World D)
      → w.is_open i ≡ true
      → finally driver (wrapped_transaction i) w ≡ closed i (driver.rollback w.db i).0 w
  unfolding rollback rollback_wrapped
  rollback_wrapped-open i w open_ = rw (open_, finally) refl

  rollback_wrapped-closed :
      (i : ℕ) (w : World D) → w.is_open i ≡ false → finally driver (wrapped_transaction i) w ≡ w
  unfolding rollback rollback_wrapped
  rollback_wrapped-closed i w closed_ = rw (closed_, finally) refl

  commit-open :
      (i : ℕ) (w : World D)
      → w.is_open i ≡ true
      → commit driver (wrapped_transaction i) w
        ≡ (closed i (driver.commit w.db i).0 w, reported driver (driver.commit w.db i).1)
  unfolding commit commit_wrapped
  commit-open i w open_ = rw (open_, commit_wrapped) refl

  closed-is_closed : (i : ℕ) (db : D) (w : World D) → (closed i db w).is_open i ≡ false
  closed-is_closed i db w = ground arith

  finish-commit :
      (i : ℕ) (w : World D)
      → w.is_open i ≡ true
      → finish driver (wrapped_transaction i) (w, returned true none)
        ≡ (closed i (driver.commit w.db i).0 w, reported driver (driver.commit w.db i).1)
  unfolding finish
  finish-commit i w open_ =
      ap (after_commit driver (wrapped_transaction i)) (commit-open i w open_)
      ∙ elim (Option-cases (reported driver (driver.commit w.db i).1)) [
        | inl ok_ ↦ rw (ok_, after_commit) refl
        | inr (e, failed) ↦
            rw (failed, after_commit)
              (ap (λ t. (t, some e))
                (rollback_wrapped-closed i _ (closed-is_closed i (driver.commit w.db i).0 w)))
      ]

  -- The database in which a transaction ends, and the error that RunInTransaction returns.
  abbrev pub ended : ℕ → World D × Body E → D
  ended i (w, b) = if is_commit b then (driver.commit w.db i).0 else (driver.rollback w.db i).0

  abbrev pub ended_with : ℕ → World D × Body E → Option (TxError E)
  ended_with i (w, b) =
      if is_commit b then reported driver (driver.commit w.db i).1 else body_error b

  finish-wrapped :
      (i : ℕ) (r : World D × Body E)
      → r.0.is_open i ≡ true
      → finish driver (wrapped_transaction i) r ≡ (closed i (ended i r) r.0, ended_with i r)
  unfolding finish
  finish-wrapped i (w, panicked) open_ = ap (λ t. (t, none)) (rollback_wrapped-open i w open_)
  finish-wrapped i (w, returned true (some e)) open_ =
      ap (λ t. (t, some (body_failed e))) (rollback_wrapped-open i w open_)
  finish-wrapped i (w, returned false (some e)) open_ =
      ap (λ t. (t, some (body_failed e))) (rollback_wrapped-open i w open_)
  finish-wrapped i (w, returned true none) open_ = finish-commit i w open_
  finish-wrapped i (w, returned false none) open_ =
      ap (λ t. (t, none)) (rollback_wrapped-open i w open_)

  -- The world in which the function of a new transaction runs.
  abbrev pub begun : Text → World D → World D
  begun name w =
      mark_open driver w.next true (driver.begin w.db name w.next).0
        (record { db = w.db; is_open = w.is_open; next = suc w.next })

  abbrev pub begun_context : Text → World D → Context
  begun_context name w = record { transaction = some (w.next, driver.database_name name) }

  compiler_start-new :
      (i : ℕ) (name : Text) (w : World D)
      → w.is_open i ≡ false
      → (driver.begin w.db name i).1 ≡ none
      → compiler_start driver i name w
        ≡ (mark_open driver i true (driver.begin w.db name i).0 w, none)
  unfolding compiler_start with_transaction
  compiler_start-new i name w new begins =
      rw (new, compiler_start)
        (ap (λ e. after_begin driver i w ((driver.begin w.db name i).0, e)) begins
          ∙ rw (new, with_transaction) refl)

  start_transaction-new :
      (ctx : Context) (name : Text) (w : World D)
      → reusable driver ctx.transaction name ≡ false
      → w.is_open w.next ≡ false
      → (driver.begin w.db name w.next).1 ≡ none
      → start_transaction driver ctx name w
        ≡ (begun name w, started (begun_context name w) (wrapped_transaction w.next) name)
  unfolding start_transaction start_new
  start_transaction-new ctx name w outside new begins =
      rw (outside, start_transaction)
        (ap (with_context driver w.next name) (
          compiler_start-new w.next name
            (record { db = w.db; is_open = w.is_open; next = suc w.next }) new begins))

  -- Where the context has no transaction of the database, the number of the new compiler is not in
  -- use, and the driver begins, RunInTransaction runs its function in a new transaction. If the
  -- function leaves that open, it is ended once: by a commit if the function asks for it and returns
  -- no error, and else, after a panic too, by a rollback. A commit that fails is reported and is not
  -- followed by a rollback in the database. The transaction is then closed.
  pub run_in_transaction-new :
      (ctx : Context) (name : Text) (fn : Context → Text → World D → World D × Body E) (w : World D)
      → reusable driver ctx.transaction name ≡ false
      → w.is_open w.next ≡ false
      → (driver.begin w.db name w.next).1 ≡ none
      → (fn (begun_context name w) name (begun name w)).0.is_open w.next ≡ true
      → run_in_transaction driver ctx name fn w ≡ (
        closed w.next
            (ended w.next (fn (begun_context name w) name (begun name w)))
            (fn (begun_context name w) name (begun name w)).0,
        ended_with w.next (fn (begun_context name w) name (begun name w)),
      )
  unfolding run_in_transaction
  run_in_transaction-new ctx name fn w outside new begins kept =
      ap (run_started driver fn) (start_transaction-new ctx name w outside new begins)
      ∙ finish-wrapped w.next (fn (begun_context name w) name (begun name w)) kept

  -- A function that makes a query set for a model of another database, before anything else, ends
  -- there: the transaction is rolled back, and RunInTransaction returns a nil error, whatever the
  -- function meant to do.
  pub cross_database_is_silent :
      (ctx c : Context) (name other : Text) (fn : Context → World D → World D × Body E)
      (w v : World D) (tx : Transaction)
      → text_eq name other ≡ false
      → start_transaction driver ctx name w ≡ (v, started c tx name)
      → run_in_transaction driver ctx name
          (λ k db_name u. elim (new_query_set k db_name other) [
            | none ↦ (u, panicked)
            | some q ↦ fn q u
          ])
          w
        ≡ ((rollback driver tx v).0, none)
  unfolding run_in_transaction finish new_query_set
  cross_database_is_silent ctx c name other fn w v tx differ starts =
      ap
        (run_started driver (λ k db_name u. elim (new_query_set k db_name other) [
          | none ↦ (u, panicked)
          | some q ↦ fn q u
        ]))
        starts
      ∙ ap
          (λ b.
            finish driver tx
              (elim (if b then some c else none) [ none ↦ (v, panicked) | some q ↦ fn q v ]))
          differ
