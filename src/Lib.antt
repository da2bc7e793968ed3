-- ===== src/Lib.antt =====
-- A model of the core of go-django-queries, a query and migration library for Go, and what holds
-- of it. Paths are from the root of the repository.
--
-- The migration engine (src/migrator) compares the tables of the models with those of the last
-- migration files, writes what has changed as the actions of a new file, and applies the files
-- that a database has not seen, in an order that respects their dependencies. Migrator/Types.antt
-- has its structs. Migrator/Columns.antt models (*Column).Equals and EqualDefaultValue,
-- Migrator/Diff.antt (*ModelTable).Diff and makeMigrationDiff, Migrator/FileName.antt the names of
-- migration files, Migrator/Store.antt storeInMap, latestFromMap and NewMigration,
-- Migrator/Graph.antt and Migrator/Build.antt buildDependencyGraph, and Migrator/Apply.antt the
-- loop of Migrate. Go walks a map in no fixed order: the order in which each loop meets the keys
-- is an argument, of which the theorems assume only that it lists the keys of the map, each once.
-- Values that the engine carries and never looks into are a type `V`, and package reflect on them
-- is a record of functions. The schema editor, an interface, is a record of functions on a state,
-- with laws for those theorems that need them. The search for the order of migrations recurses on
-- fuel, one more than the number of nodes; that is enough, since each nested call has another node
-- open.
--
-- The generator of table aliases (src/alias/alias.go) is in Alias.antt, and the change tracking of
-- model instances (src/models/model_state.go) in ModelState.antt, where reflect.DeepEqual is a
-- parameter. Transactions.antt models src/queryset_transactions.go, the transactions that it
-- returns, and the part of the query compiler that starts them. There a compiler is a number, and
-- the database driver is a record of functions on the state of the databases.
--
-- Actors.antt models runActor (src/queryset_actors.go), which calls the hooks of a model; its fuel
-- is two, since a call within a call makes no further one. Expressions.antt has the logical
-- expressions of src/expr/expr_logical.go, with their SQL and Resolve; what a lookup writes is a
-- parameter. Migrator/Wire.antt has the strings of dependencies and action types in a migration
-- file.
--
-- Compiler.antt and the files below it model the statements of src/queryset_compiler_generic.go,
-- from the columns (TableColumn of src/expr/expr.go), the fields (FieldInfo of
-- src/queryset_types.go) and the clauses up to BuildSelectQuery and its kin; WHERE and HAVING are
-- the expressions of Expressions.antt. A statement is text with its arguments, before sqlx rebinds
-- the placeholders, and Rebind is a parameter of the batch of PostgreSQL; fields and lookups that
-- users write are parameters. Lookups.antt has the lookups of src/expr/lookups_base.go with the
-- operators of each driver, and Lookups/Registry.antt the registry of src/expr/lookups_registry.go with GetLookup. Rows.antt models
-- src/queryset_dedupe.go, where the objects of a result are merged into a tree, with GetUniqueKey
-- of src/queries_models.go; equality of Go values, nil and IsZero are an interface.
--
-- RawStatements.antt models src/expr/statement.go and src/expr/expr_raw.go: a statement with
-- ![Field], #[Table] and ?[1] is searched, rewritten to a format and formatted twice. Terms.antt
-- and the files below it model the other types of src/expr: common.go with the values and names,
-- case.go, expr_chain.go, cast.go, funcs.go and funcs_impl.go, and the chain of expr_logical.go,
-- with Clone, Resolve and SQL as functions on one data type. The arguments of a cast are ints, and
-- an expression of another type, such as ExprNode, is a parameter.
--
-- Strings are lists of bytes, maps are association lists, and a panic is a value. Prelude.antt has
-- what the parts share: tests, lists, maps, results, integers and decimal numerals.
--
-- Not modelled: query sets and relations; the constructors Case, Cast and Express, and the
-- registration of functions and casts by a program; the execution of statements by a driver, and
-- the compilation of rows, which sets the related objects on models; the models and fields, which
-- work by reflection; the reading and writing of migration files; MakeMigrations, which walks the
-- registered apps; the setup of Migrate, which reads the files; the schema editors, which send SQL
-- to a driver; logging, and the messages of errors.
pub mod Prelude
pub mod Actors
pub mod Alias
pub mod Compiler
pub mod Expressions
pub mod Lookups
pub mod Migrator
pub mod ModelState
pub mod RawStatements
pub mod Rows
pub mod Terms
pub mod Transactions
