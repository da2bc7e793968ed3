-- ===== src/Migrator/Build.antt =====
-- buildDependencyGraph in src/migrator/engine.go: the node map, the links between its nodes, and
-- the search of `Graph`. Go iterates over a map in no fixed order, so the keys that the second and
-- the third step meet are arguments, `links` and `roots`.
pub mod Links
pub mod Correct
pub mod Outcome
use go_django_queries.Prelude.{
  ℕ, suc, Option, none, some, List, [], ◌∷◌, ◌++◌, map, keys, Text, codes, lookup, insert, length,
  Result, ok, err, panic, out_of_fuel, ◌>>=◌, In, Distinct,
}
use go_django_queries.Migrator.Types.{
  Dependency, MigrationFile, EngineError, dependency_not_found, cyclic_dependency,
}
use go_django_queries.Migrator.FileName.{generate_migration_file_name}
use go_django_queries.Migrator.Graph
use go_django_queries.Migrator.Graph.{Visit, visit_roots, unvisited}

-- fmt.Sprintf("%s:%s:%s", …)
unfoldable pub graph_key : Text → Text → Text → Text
graph_key app model name = app ++ (codes ":" ++ (model ++ (codes ":" ++ name)))

abbrev pub dependency_key : Dependency → Text
dependency_key d = graph_key d.app_name d.model_name d.name

-- A node by its key; the flags of the search are in `Graph.Search`.
pub record Node (V : Type 0) : Type 0 where
  pub key : Text
  pub mig : MigrationFile V

abbrev pub NodeMap : Type 0 → Type 0
NodeMap V = List (Text × MigrationFile V)

abbrev pub linked_to : List (Text × List Text) → Text → List Text
linked_to linked k = elim (lookup k linked) [ none ↦ [] | some deps ↦ deps ]

module _ {V : Type 0} where
  -- Step 1: nodeMap[key(m)] = &node{mig: m}
  unfoldable pub create_nodes : NodeMap V → List (MigrationFile V) → Result EngineError (NodeMap V)
  create_nodes nodes [] = ok nodes
  create_nodes nodes (m ∷ migrations) = do
    name ← generate_migration_file_name m
    create_nodes (insert (graph_key m.app_name m.model_name name) m nodes) migrations

  -- The inner loop of step 2: n.deps.
  unfoldable pub link_dependencies : NodeMap V → List Dependency → Result EngineError (List Text)
  link_dependencies nodes [] = ok []
  link_dependencies nodes (d ∷ ds) = elim (lookup (dependency_key d) nodes) [
    | none ↦ err (dependency_not_found (dependency_key d))
    | some m ↦ do rest ← link_dependencies nodes ds; ok (dependency_key d ∷ rest)
  ]

  -- The dependencies of the node with a key.
  abbrev pub declared : NodeMap V → Text → List Dependency
  declared nodes k = elim (lookup k nodes) [ none ↦ [] | some m ↦ m.dependencies ]

  -- Step 2, over the keys that the loop meets.
  unfoldable pub link_nodes : NodeMap V → List Text → Result EngineError (List (Text × List Text))
  unfolding link_dependencies
  link_nodes nodes [] = ok []
  link_nodes nodes (k ∷ ks) = do
    deps ← link_dependencies nodes (declared nodes k)
    rest ← link_nodes nodes ks
    ok ((k, deps) ∷ rest)

  -- The nodes of the slice `ordered`.
  unfoldable pub collect : NodeMap V → List Text → List (Node V)
  collect nodes [] = []
  collect nodes (k ∷ ks) = elim (lookup k nodes) [
    | none ↦ collect nodes ks
    | some m ↦ record { key = k; mig = m } ∷ collect nodes ks
  ]

  abbrev pub finish : NodeMap V → Visit → Result EngineError (List (Node V))
  finish nodes (Graph.done t) = ok (collect nodes t.ordered)
  finish nodes (Graph.cyclic k) = err (cyclic_dependency k)
  finish nodes Graph.out_of_fuel = out_of_fuel

  -- Step 3. The fuel is one more than the number of nodes: every nested call opens another node.
  unfoldable pub sort_nodes :
      NodeMap V → List (Text × List Text) → List Text → Result EngineError (List (Node V))
  sort_nodes nodes linked roots =
      finish nodes (visit_roots (linked_to linked) (suc (length nodes)) roots unvisited)

  -- buildDependencyGraph
  unfoldable pub build_dependency_graph :
      List Text → List Text → List (MigrationFile V) → Result EngineError (List (Node V))
  build_dependency_graph links roots migrations = do
    nodes ← create_nodes [] migrations
    linked ← link_nodes nodes links
    sort_nodes nodes linked roots

  -- The keys that a range over the map meets: those of the map, in some order.
  pub record IsRange (nodes : NodeMap V) (ks : List Text) : Type 0 where
    pub sound : (k : Text) → In k ks → In k (keys nodes)
    pub complete : (k : Text) → In k (keys nodes) → In k ks
    pub once : Distinct ks
