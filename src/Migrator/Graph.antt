-- ===== src/Migrator/Graph.antt =====
-- The depth-first search of buildDependencyGraph in src/migrator/engine.go: the closure `visit`
-- and the loop that calls it. A node is known by its key, and `deps` gives the keys of node.deps.
pub mod Order
pub mod Terminates
pub mod Cycles
pub mod Scope
use go_django_queries.Prelude.{
  ℕ, zero, suc, Bool, true, false, List, [], ◌∷◌, ◌++◌, Text, text_eq, if◌then◌else◌,
}

-- The flags node.visited and node.visiting of all nodes, and the slice `ordered`.
pub record Search : Type 0 where
  pub visited : Text → Bool
  pub visiting : Text → Bool
  pub ordered : List Text

pub data Visit : Type 0 where
  done : Search → Visit
  cyclic : Text → Visit
  out_of_fuel : Visit

abbrev pub flag : (Text → Bool) → Text → Bool → Text → Bool
flag f k b j = if text_eq k j then b else f j

abbrev pub and_then : Visit → (Search → Visit) → Visit
and_then (done s) f = f s
and_then (cyclic k) f = cyclic k
and_then out_of_fuel f = out_of_fuel

-- n.visiting = true
abbrev pub enter : Text → Search → Search
enter k s = record s { visiting = flag s.visiting k true }

-- n.visited = true; n.visiting = false; ordered = append(ordered, n)
abbrev pub leave : Text → Search → Search
leave k s = record {
  visited = flag s.visited k true;
  visiting = flag s.visiting k false;
  ordered = s.ordered ++ (k ∷ []);
}

-- The loop over n.deps, with the recursive call passed in.
unfoldable pub visit_all : (Text → Search → Visit) → List Text → Search → Visit
visit_all call [] s = done s
visit_all call (d ∷ ds) s = and_then (call d s) (visit_all call ds)

-- The closure `visit`; its recursion takes fuel.
unfoldable pub visit : (Text → List Text) → ℕ → Text → Search → Visit
visit deps zero k s = out_of_fuel
visit deps (suc fuel) k s = elim (s.visited k) [
  | true ↦ done s
  | false ↦ elim (s.visiting k) [
    | true ↦ cyclic k
    | false ↦ and_then (visit_all (visit deps fuel) (deps k) (enter k s)) (λ t. done (leave k t))
  ]
]

-- The loop over the node map: the map's keys, in the order in which the loop meets them.
unfoldable pub visit_roots : (Text → List Text) → ℕ → List Text → Search → Visit
visit_roots deps fuel [] s = done s
visit_roots deps fuel (k ∷ ks) s = elim (s.visited k) [
  | true ↦ visit_roots deps fuel ks s
  | false ↦ and_then (visit deps fuel k s) (visit_roots deps fuel ks)
]

abbrev pub unvisited : Search
unvisited = record { visited = λ _. false; visiting = λ _. false; ordered = [] }
