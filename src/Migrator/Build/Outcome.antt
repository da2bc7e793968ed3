-- ===== src/Migrator/Build/Outcome.antt =====
-- The outcomes of buildDependencyGraph in src/migrator/engine.go, as its callers see them.
use go_django_queries.Prelude.{
  ℕ, suc, ◌≡◌, ◌↔◌, ◌≢◌, refl, ◌⊎◌, inl, inr, ap, sym, ◌∙◌, subst, false, List, [], ◌∷◌, ◌++◌, map,
  keys, keys-insert, Text, text_eq_iff, insert, length, Result, ok, err, panic, >>=-eq-ok, In,
  Distinct, arith,
}
use mathlib.Core.List.{append-nil, append_assoc}
use go_django_queries.Migrator.Types.{
  MigrationFile, EngineError, dependency_not_found, cyclic_dependency,
}
use go_django_queries.Migrator.FileName.{generate_migration_file_name}
use go_django_queries.Migrator.FileName.Panics.{generate_migration_file_name_cases}
use go_django_queries.Migrator.Graph
use go_django_queries.Migrator.Graph.{
  Search, Visit, visit_all, visit, visit_roots, unvisited, enter, leave,
}
use go_django_queries.Migrator.Graph.Cycles.{Chain}
use go_django_queries.Migrator.Build.{
  Node, NodeMap, graph_key, create_nodes, link_nodes, collect, finish, build_dependency_graph,
  IsRange,
}
use go_django_queries.Migrator.Build.Links.{needs, Missing, link_nodes_cases}
use go_django_queries.Migrator.Build.Correct.{
  DependenciesFirst, node_keys, IsKnown, Sorted, keys-collect, collect-DependenciesFirst, steps,
  steps_cases, linked, finish-linked, run, Sorted-acyclic,
}

same_key :
    {V : Type 0} (x m : MigrationFile V) (name n : Text)
    → m ≡ x
    → generate_migration_file_name x ≡ ok name
    → generate_migration_file_name m ≡ ok n
    → graph_key m.app_name m.model_name n ≡ graph_key x.app_name x.model_name name
same_key x m name n same named written = cc

-- Every migration that was handed in has its key in the map.
create_nodes-keys :
    {V : Type 0} (migrations : List (MigrationFile V)) (nodes : NodeMap V) {all : NodeMap V}
    → create_nodes nodes migrations ≡ ok all
    → ((k : Text) → In k (keys nodes) → In k (keys all))
      × ((m : MigrationFile V) (name : Text)
          → In m migrations
          → generate_migration_file_name m ≡ ok name
          → In (graph_key m.app_name m.model_name name) (keys all))
unfolding create_nodes
create_nodes-keys [] nodes {all} e =
    let same : nodes ≡ all = cc in
    (λ k m. subst (λ x. In k (keys x)) same m, λ m name at _. absurd at)
create_nodes-keys (x ∷ migrations) nodes e =
    let (name, named, rest) = >>=-eq-ok (generate_migration_file_name x) _ e in
    let key = graph_key x.app_name x.model_name name in
    let (old, new) = create_nodes-keys migrations (insert key x nodes) rest in
    (
      λ k m. old k (keys-insert key k x nodes (inl m)),
      λ m n at written. elim at [
        | inl same ↦
            old _ (keys-insert key _ x nodes (inr (same_key x m name n same named written)))
        | inr later ↦ new m n later written
      ],
    )

-- The ends of the second and the third step: nodes, where all dependencies have a node and no cycle
-- leads through them; a cycle, through the node that is named; or a missing dependency, which a node
-- declares.
abbrev pub Ends : {V : Type 0} → NodeMap V → Result EngineError (List (Node V)) → Type 0
Ends {V} nodes result =
    ((out : List (Node V)) × (result ≡ ok out)
      × IsKnown nodes
      × ((k : Text) → In k (keys nodes) → ¬ Chain (needs nodes) k k))
    ⊎ ((k : Text) × (result ≡ err (cyclic_dependency k)) × IsKnown nodes × Chain (needs nodes) k k)
    ⊎ ((k d : Text) × (result ≡ err (dependency_not_found d))
        × In k (keys nodes)
        × Missing nodes (needs nodes k) d)

module _ {V : Type 0} (links roots : List Text) (migrations : List (MigrationFile V))
    {nodes : NodeMap V} (created : create_nodes [] migrations ≡ ok nodes)
    (links_range : IsRange nodes links) (roots_range : IsRange nodes roots) where
  build-steps :
      build_dependency_graph links roots migrations
      ≡ steps nodes links roots links_range roots_range
  unfolding build_dependency_graph
  build-steps = rw created refl

  -- Where the node map is made, one of three ends, which `Ends` names.
  build-Ends : Ends nodes (build_dependency_graph links roots migrations)
  build-Ends = elim (steps_cases nodes links roots links_range roots_range) [
    | inl (t, e, known, sorted) ↦ inl (
      collect nodes t.ordered,
      build-steps ∙ e,
      known,
      Sorted-acyclic nodes roots roots_range known t sorted,
    )
    | inr failed ↦ elim failed [
      | inl (k, e, known, cycle) ↦ inr (inl (k, build-steps ∙ e, known, cycle))
      | inr (k, d, e, at, missing) ↦ inr (inr (k, d, build-steps ∙ e, at, missing))
    ]
  ]

  -- Where buildDependencyGraph returns nodes, with whatever orders of iteration over the node map,
  -- they are those of the map, each once, and each stands behind the nodes
  -- that it depends on; every migration that was handed in is among them.
  pub build-DependenciesFirst :
      (out : List (Node V))
      → build_dependency_graph links roots migrations ≡ ok out
      → Distinct (node_keys out)
        × ((k : Text) → In k (keys nodes) ↔ In k (node_keys out))
        × DependenciesFirst [] out
        × ((m : MigrationFile V) (name : Text)
            → In m migrations
            → generate_migration_file_name m ≡ ok name
            → In (graph_key m.app_name m.model_name name) (node_keys out))
  build-DependenciesFirst out e = elim (steps_cases nodes links roots links_range roots_range) [
    | inl (t, f, known, sorted) ↦ subst Whole (same t f) (collected t sorted)
    | inr failed ↦
        absurd
          (elim failed [ inl (k, f, _, _) ↦ cc build-steps | inr (k, d, f, _, _) ↦ cc build-steps ])
  ]
    where
      Whole : List (Node V) → Type 0
      Whole ns =
          Distinct (node_keys ns)
          × ((k : Text) → In k (keys nodes) ↔ In k (node_keys ns))
          × DependenciesFirst [] ns
          × ((m : MigrationFile V) (name : Text)
              → In m migrations
              → generate_migration_file_name m ≡ ok name
              → In (graph_key m.app_name m.model_name name) (node_keys ns))

      same :
          (t : Search)
          → steps nodes links roots links_range roots_range ≡ ok (collect nodes t.ordered)
          → collect nodes t.ordered ≡ out
      same t f = cc build-steps

      collected : (t : Search) → Sorted nodes t → Whole (collect nodes t.ordered)
      collected t ((inv, kept, all), scope) =
          let listed = keys-collect nodes t.ordered (λ k m. scope k (inv.marked k m)) in
          (
            rw listed inv.distinct,
            λ k. (
              λ m. rw listed (inv.marks k (all k m)),
              λ m. scope k (inv.marked k (rw listed at m)),
            ),
            collect-DependenciesFirst nodes [] t.ordered (λ k m. scope k (inv.marked k m))
                inv.in_order,
            λ m name at written. rw listed (
                inv.marks _
                  (all _ ((create_nodes-keys migrations [] created).1 m name at written))),
          )

-- Step 1 ends with a node map, or panics at a migration without a file name.
create_nodes_cases :
    {V : Type 0} (migrations : List (MigrationFile V)) (nodes : NodeMap V)
    → ((all : NodeMap V) × (create_nodes nodes migrations ≡ ok all))
      ⊎ ((m : MigrationFile V) × In m migrations
          × (generate_migration_file_name m ≡ panic)
          × (create_nodes nodes migrations ≡ panic))
unfolding create_nodes
create_nodes_cases [] nodes = inl (nodes, refl)
create_nodes_cases (x ∷ migrations) nodes = elim (generate_migration_file_name_cases x) [
  | inr nameless ↦ inr (x, inl refl, nameless, rw nameless refl)
  | inl (name, named) ↦
      elim (create_nodes_cases migrations
        (insert (graph_key x.app_name x.model_name name) x nodes)) [
          | inl (all, e) ↦ inl (all, rw named e)
          | inr (m, at, nameless, e) ↦ inr (m, inr at, nameless, rw named e)
        ]
]

module _ {V : Type 0} (links roots : List Text) (migrations : List (MigrationFile V)) where
  -- With every order of iteration over the node map, buildDependencyGraph ends in one of four ways.
  -- It panics, and one of the migrations is one for which generateMigrationFileName panics. Else all
  -- have a node, and it returns nodes, where all dependencies have a node and no cycle leads through
  -- them; or it reports a cycle, and the node that it names is on one; or it reports a missing
  -- dependency, and the key that it names is declared by a node and has none itself.
  pub build_cases :
      ((nodes : NodeMap V)
        → create_nodes [] migrations ≡ ok nodes
        → IsRange nodes links × IsRange nodes roots)
      → ((m : MigrationFile V) × In m migrations
          × (generate_migration_file_name m ≡ panic)
          × (build_dependency_graph links roots migrations ≡ panic))
        ⊎ ((nodes : NodeMap V) × (create_nodes [] migrations ≡ ok nodes)
            × Ends nodes (build_dependency_graph links roots migrations))
  unfolding build_dependency_graph
  build_cases ranges = elim (create_nodes_cases migrations []) [
    | inl (nodes, e) ↦
        let (links_range, roots_range) = ranges nodes e in
        inr (nodes, e, build-Ends links roots migrations e links_range roots_range)
    | inr (m, at, nameless, e) ↦ inl (m, at, nameless, rw e refl)
  ]

-- The search over nodes with no dependencies.
visit_roots-nil :
    (deps : Text → List Text) (n : ℕ) (ks : List Text) (s : Search)
    → ((k : Text) → deps k ≡ [])
    → Distinct ks
    → ((k : Text) → In k ks → s.visited k ≡ false)
    → ((k : Text) → In k ks → s.visiting k ≡ false)
    → (t : Search) × (visit_roots deps (suc n) ks s ≡ Graph.done t) × (t.ordered ≡ s.ordered ++ ks)
unfolding visit_roots visit visit_all
visit_roots-nil deps n [] s free once new idle = (s, refl, sym (append-nil s.ordered))
visit_roots-nil deps n (k ∷ ks) s free once new idle =
    let s' = leave k (enter k s) in
    let (t, e, listed) =
      visit_roots-nil deps n ks s' free once.1
        (λ j m. ground (arith, new j (inr m), text_eq_iff k j, apart j m))
        (λ j m. ground (arith, idle j (inr m))) in
    (
      t,
      rw (new k (inl refl), visit_roots) (rw (visit_nil (new k (inl refl)) (idle k (inl refl))) e),
      listed ∙ append_assoc s.ordered (k ∷ []) ks,
    )
  where
    apart : (j : Text) → In j ks → k ≢ j
    apart j m e = once.0 (subst (λ x. In x ks) (sym e) m)

    visit_nil :
        s.visited k ≡ false
        → s.visiting k ≡ false
        → visit deps (suc n) k s ≡ Graph.done (leave k (enter k s))
    visit_nil v w = rw (v, visit) (rw (w, visit) (rw (free k, visit_all) refl))

module _ {V : Type 0} (links roots : List Text) (migrations : List (MigrationFile V))
    {nodes : NodeMap V} (created : create_nodes [] migrations ≡ ok nodes)
    (links_range : IsRange nodes links) (roots_range : IsRange nodes roots) where
  -- Where no migration declares a dependency, the nodes come back in the order in which Go walks
  -- the node map, whatever their numbers say: two migrations of one model too.
  pub build_in_map_order :
      ((k : Text) → needs nodes k ≡ [])
      → (out : List (Node V)) × (build_dependency_graph links roots migrations ≡ ok out)
        × (node_keys out ≡ roots)
  unfolding linked
  build_in_map_order free =
      let (t, found, listed) =
        visit_roots-nil (needs nodes) (length nodes) roots unvisited free roots_range.once
          (λ k m. refl) (λ k m. refl) in
      let ran : finish nodes (run nodes roots) ≡ ok (collect nodes t.ordered) =
        ap (finish nodes) found in
      (
        collect nodes t.ordered,
        build-steps links roots migrations created links_range roots_range
            ∙ after_links (link_nodes_cases nodes links) ran,
        keys-collect nodes t.ordered (λ k m. roots_range.sound k (subst (λ l. In k l) listed m))
            ∙ listed,
      )
    where
      Linked : Type 0
      Linked =
          ((link_nodes nodes links ≡ ok (map (λ k. (k, needs nodes k)) links))
            × ((k : Text) → In k links → (d : Text) → In d (needs nodes k) → In d (keys nodes)))
          ⊎ ((k d : Text) × (link_nodes nodes links ≡ err (dependency_not_found d))
              × In k links
              × Missing nodes (needs nodes k) d)

      after_links :
          {out : Result EngineError (List (Node V))}
          → Linked
          → finish nodes (run nodes roots) ≡ out
          → steps nodes links roots links_range roots_range ≡ out
      after_links (inl (e, known)) ran =
          rw e (finish-linked nodes links roots links_range roots_range ∙ ran)
      after_links (inr (k, d, e, at, (m, absent))) ran = absurd (subst (λ l. In d l) (free k) m)
