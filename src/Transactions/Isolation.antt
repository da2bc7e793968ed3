-- ===== src/Transactions/Isolation.antt =====
-- What readers outside a transaction of src/queryset_transactions.go see of it.
use go_django_queries.Prelude.{
  ℕ, suc, true, false, Option, none, some, Text, ◌≡◌, refl, ap, ◌∙◌, Bool-cases, inl, inr,
}
use go_django_queries.Transactions.Outcome.{is_commit}
use go_django_queries.Transactions.{
  Driver, TxError, World, Context, Transaction, null_transaction, wrapped_transaction, Body,
  returned, panicked, Started, started, not_started, rollback, rollback_wrapped, with_transaction,
  after_begin, compiler_start, with_context, start_new, reusable, start_transaction, finish,
  run_started, run_in_transaction,
}

module _ {D E : Type 0} (driver : Driver D E) where
  -- What a reader outside the transaction sees of a database; neither the begin nor the rollback of
  -- a transaction changes it.
  pub record Isolates {C : Type 0} (committed : D → C) : Type 0 where
    pub begin_keeps :
        (db : D) (name : Text) (i : ℕ) → committed (driver.begin db name i).0 ≡ committed db
    pub rollback_keeps : (db : D) (i : ℕ) → committed (driver.rollback db i).0 ≡ committed db

  module _ {C : Type 0} (committed : D → C) (isolates : Isolates committed) where
    with_context-world :
        (i : ℕ) (name : Text) (r : World D × Option (TxError E))
        → (with_context driver i name r).0 ≡ r.0
    with_context-world i name (w, none) = refl
    with_context-world i name (w, some e) = refl

    after_begin-db :
        (i : ℕ) (w : World D) (r : D × Option E)
        → w.is_open i ≡ false
        → (after_begin driver i w r).0.db ≡ r.0
    unfolding with_transaction
    after_begin-db i w (db, some e) new = refl
    after_begin-db i w (db, none) new = rw (new, with_transaction) refl

    compiler_start-keeps :
        (i : ℕ) (name : Text) (w : World D)
        → committed (compiler_start driver i name w).0.db ≡ committed w.db
    unfolding compiler_start
    compiler_start-keeps i name w = elim (Bool-cases (w.is_open i)) [
      | inl old ↦ rw (old, compiler_start) refl
      | inr new ↦
          rw (new, compiler_start)
            (ap committed (after_begin-db i w (driver.begin w.db name i) new)
              ∙ isolates.begin_keeps w.db name i)
    ]

    start_transaction-keeps :
        (ctx : Context) (name : Text) (w : World D)
        → committed (start_transaction driver ctx name w).0.db ≡ committed w.db
    unfolding start_transaction start_new
    start_transaction-keeps ctx name w = elim (Bool-cases (reusable driver ctx.transaction name)) [
      | inl inside ↦ rw (inside, start_transaction) refl
      | inr outside ↦
          let w' : World D = record { db = w.db; is_open = w.is_open; next = suc w.next } in
          rw (outside, start_transaction)
            (ap (λ u. committed u.db)
                (with_context-world w.next name (compiler_start driver w.next name w'))
              ∙ compiler_start-keeps w.next name w')
    ]

    rollback-keeps :
        (tx : Transaction) (w : World D) → committed (rollback driver tx w).0.db ≡ committed w.db
    unfolding rollback rollback_wrapped
    rollback-keeps null_transaction w = refl
    rollback-keeps (wrapped_transaction i) w = elim (Bool-cases (w.is_open i)) [
      | inl open_ ↦ rw (open_, rollback_wrapped) (isolates.rollback_keeps w.db i)
      | inr closed_ ↦ rw (closed_, rollback_wrapped) refl
    ]

    finish-keeps :
        (tx : Transaction) (r : World D × Body E)
        → is_commit driver r.1 ≡ false
        → committed (finish driver tx r).0.db ≡ committed r.0.db
    unfolding finish
    finish-keeps tx (w, panicked) h = rollback-keeps tx w
    finish-keeps tx (w, returned true none) h = absurd (cc)
    finish-keeps tx (w, returned false none) h = rollback-keeps tx w
    finish-keeps tx (w, returned true (some e)) h = rollback-keeps tx w
    finish-keeps tx (w, returned false (some e)) h = rollback-keeps tx w

    -- When a function that changes nothing for readers outside the transaction returns an error, no
    -- commit, or panics, they see after RunInTransaction what they saw before, also where the
    -- transaction does not begin or is that of a function further up.
    pub run_in_transaction-isolated :
        (ctx : Context) (name : Text) (fn : Context → Text → World D → World D × Body E)
        (w : World D)
        → ((c : Context) (n : Text) (v : World D) → committed (fn c n v).0.db ≡ committed v.db)
        → ((c : Context) (n : Text) (v : World D) → is_commit driver (fn c n v).1 ≡ false)
        → committed (run_in_transaction driver ctx name fn w).0.db ≡ committed w.db
    unfolding run_in_transaction
    run_in_transaction-isolated ctx name fn w keeps fails =
        run_started-keeps (start_transaction driver ctx name w) ∙ start_transaction-keeps ctx name w
      where
        run_started-keeps :
            (s : World D × Started E) → committed (run_started driver fn s).0.db ≡ committed s.0.db
        run_started-keeps (v, not_started e) = refl
        run_started-keeps (v, started c tx n) =
            finish-keeps tx (fn c n v) (fails c n v) ∙ keeps c n v
