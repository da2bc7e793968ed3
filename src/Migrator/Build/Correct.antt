-- ===== src/Migrator/Build/Correct.antt =====
-- What buildDependencyGraph in src/migrator/engine.go returns, with the orders of its walks over the
-- node map as arguments.
use go_django_queries.Prelude.{
  suc, ◌<◌, ◌≡◌, refl, ◌⊎◌, inl, inr, ap, ◌∙◌, some, List, [], ◌∷◌, map, keys, In-lookup, Text,
  lookup, length, Result, ok, err, ◌>>=◌, In, arith,
}
use go_django_queries.Migrator.Types.{
  MigrationFile, EngineError, dependency_not_found, cyclic_dependency,
}
use go_django_queries.Migrator.Graph
use go_django_queries.Migrator.Graph.{Search, Visit, visit_roots, unvisited}
use go_django_queries.Migrator.Graph.Order.{
  IsOrdered, Ends, After, visit_roots-After, Inv-unvisited,
}
use go_django_queries.Migrator.Graph.Terminates.{Stops, visit_roots-Stops, closed_nodes-unvisited}
use go_django_queries.Migrator.Graph.Cycles.{
  Chain, Loops, Chain-lt, IsOrdered-place, place, visit_roots-Loops,
}
use go_django_queries.Migrator.Graph.Scope.{Within, visit_roots-Within}
use go_django_queries.Migrator.Build.{
  Node, NodeMap, dependency_key, link_nodes, declared, collect, finish, sort_nodes, IsRange,
}
use go_django_queries.Migrator.Build.Links.{needs, Missing, link_nodes_cases, linked_to-needs}

-- The nodes stand behind the nodes that they depend on.
abbrev pub DependenciesFirst : {V : Type 0} → List Text → List (Node V) → Type 0
DependenciesFirst seen [] = Unit {0}
DependenciesFirst seen (n ∷ ns) =
    ((d : Text) → In d (map dependency_key n.mig.dependencies) → In d seen)
    × DependenciesFirst (n.key ∷ seen) ns

abbrev pub node_keys : {V : Type 0} → List (Node V) → List Text
node_keys ns = map (λ n. n.key) ns

search_cases :
    (deps : Text → List Text) (P : Search → Type 0) (v : Visit)
    → Ends deps P v
    → Stops v
    → Loops deps v
    → ((t : Search) × (v ≡ Graph.done t) × P t)
      ⊎ ((k : Text) × (v ≡ Graph.cyclic k) × Chain deps k k)
search_cases deps P (Graph.done t) ends stops loops = inl (t, refl, ends)
search_cases deps P (Graph.cyclic k) ends stops loops = inr (k, refl, loops)
search_cases deps P Graph.out_of_fuel ends stops loops = absurd stops

Ends-both :
    (deps : Text → List Text) (P Q : Search → Type 0) (v : Visit)
    → Ends deps P v
    → Ends deps Q v
    → Ends deps (λ t. P t × Q t) v
Ends-both deps P Q (Graph.done t) p q = (p, q)
Ends-both deps P Q (Graph.cyclic k) p q = tt
Ends-both deps P Q Graph.out_of_fuel p q = tt

module _ {V : Type 0} (nodes : NodeMap V) where
  abbrev pub IsKnown : Type 0
  IsKnown = (k : Text) → In k (keys nodes) → (d : Text) → In d (needs nodes k) → In d (keys nodes)

  pub keys-collect :
      (ks : List Text)
      → ((k : Text) → In k ks → In k (keys nodes))
      → node_keys (collect nodes ks) ≡ ks
  unfolding collect
  keys-collect [] h = refl
  keys-collect (k ∷ ks) h =
      let (m, found) = In-lookup k nodes (h k (inl refl)) in
      rw (found, collect) (ap (λ l. k ∷ l) (keys-collect ks (λ j i. h j (inr i))))

  needs_of_lookup :
      (k : Text) (m : MigrationFile V)
      → lookup k nodes ≡ some m
      → needs nodes k ≡ map dependency_key m.dependencies
  unfolding needs
  needs_of_lookup k m e = rw (e, declared) refl

  pub collect-DependenciesFirst :
      (seen ks : List Text)
      → ((k : Text) → In k ks → In k (keys nodes))
      → IsOrdered (needs nodes) seen ks
      → DependenciesFirst seen (collect nodes ks)
  unfolding collect
  collect-DependenciesFirst seen [] h o = tt
  collect-DependenciesFirst seen (k ∷ ks) h o =
      let (m, found) = In-lookup k nodes (h k (inl refl)) in
      rw (found, collect)
        (
          λ d i. o.0 d (rw (needs_of_lookup k m found) i),
          collect-DependenciesFirst (k ∷ seen) ks (λ j i. h j (inr i)) o.1,
        )

  -- The state in which a search that ends has visited all nodes.
  abbrev pub Sorted : Search → Type 0
  Sorted t = After (needs nodes) unvisited (keys nodes) t × Within (keys nodes) t

  length-keys : (m : NodeMap V) → length (keys m) ≡ length m
  length-keys [] = refl
  length-keys (e ∷ m) = omega (arith, length-keys m)

  abbrev pub run : List Text → Visit
  run roots = visit_roots (needs nodes) (suc (length nodes)) roots unvisited

  module _ (roots : List Text) (range : IsRange nodes roots) (known : IsKnown) where
    run_cases :
        ((t : Search) × (run roots ≡ Graph.done t) × Sorted t)
        ⊎ ((k : Text) × (run roots ≡ Graph.cyclic k) × Chain (needs nodes) k k)
    run_cases =
        let deps = needs nodes in
        let fuel = suc (length nodes) in
        let after = visit_roots-After deps fuel roots unvisited (Inv-unvisited deps) in
        let within =
          visit_roots-Within deps (keys nodes) known fuel roots unvisited range.sound
            (λ j h. absurd (cc)) in
        let stops =
          visit_roots-Stops deps (keys nodes) known fuel roots unvisited (Inv-unvisited deps)
            range.sound (omega (arith, closed_nodes-unvisited (keys nodes), length-keys nodes)) in
        let loops = visit_roots-Loops deps fuel roots unvisited (Inv-unvisited deps) (λ j. refl) in
        elim (search_cases deps (λ t. After deps unvisited roots t × Within (keys nodes) t)
          (run roots)
          (Ends-both deps (After deps unvisited roots) (Within (keys nodes)) (run roots) after
            within)
          stops loops) [
            | inl (t, e, ((inv, kept, all), scope)) ↦
                inl (t, e, ((inv, kept, λ d m. all d (range.complete d m)), scope))
            | inr cycle ↦ inr cycle
          ]

    -- No cycle goes through the nodes of a finished search.
    pub Sorted-acyclic :
        (t : Search) → Sorted t → (k : Text) → In k (keys nodes) → ¬ Chain (needs nodes) k k
    Sorted-acyclic t ((inv, kept, all), scope) k m c = absurd (
        omega
          (arith, (Chain-lt (needs nodes) (keys nodes) (λ j. place j t.ordered) known lower c m).1))
      where
        lower :
            (j : Text)
            → In j (keys nodes)
            → (d : Text) → In d (needs nodes j)
            → place d t.ordered < place j t.ordered
        lower j at d dep =
            elim (IsOrdered-place (needs nodes) [] j d t.ordered inv.in_order
              (inv.marks j (all j at)) dep) [ inl absent ↦ absurd absent | inr lt ↦ lt ]

module _ {V : Type 0} (nodes : NodeMap V) (links roots : List Text)
    (links_range : IsRange nodes links) (roots_range : IsRange nodes roots) where
  unfoldable pub linked : List (Text × List Text)
  linked = map (λ k. (k, needs nodes k)) links

  pub finish-linked : sort_nodes nodes linked roots ≡ finish nodes (run nodes roots)
  unfolding linked sort_nodes
  finish-linked = rw (linked_to-needs nodes links links_range) refl

  -- What steps 2 and 3 come to on a node map.
  abbrev pub steps : Result EngineError (List (Node V))
  steps = link_nodes nodes links >>= λ l. sort_nodes nodes l roots

  pub steps_cases :
      ((t : Search) × (steps ≡ ok (collect nodes t.ordered)) × IsKnown nodes × Sorted nodes t)
      ⊎ ((k : Text) × (steps ≡ err (cyclic_dependency k)) × IsKnown nodes × Chain (needs nodes) k k)
      ⊎ ((k d : Text) × (steps ≡ err (dependency_not_found d))
          × In k (keys nodes)
          × Missing nodes (needs nodes k) d)
  unfolding linked
  steps_cases = elim (link_nodes_cases nodes links) [
    | inr (k, d, e, at, missing) ↦ inr (inr (k, d, rw e refl, links_range.sound k at, missing))
    | inl (e, known) ↦
        let all_known : IsKnown nodes = λ k m. known k (links_range.complete k m) in
        let whole : steps ≡ finish nodes (run nodes roots) = rw e finish-linked in
        elim (run_cases nodes roots roots_range all_known) [
          | inl (t, f, sorted) ↦ inl (t, whole ∙ ap (finish nodes) f, all_known, sorted)
          | inr (k, f, cycle) ↦ inr (inl (k, whole ∙ ap (finish nodes) f, all_known, cycle))
        ]
  ]
