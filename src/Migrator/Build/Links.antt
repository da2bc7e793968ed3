-- ===== src/Migrator/Build/Links.antt =====
-- The links between the nodes of buildDependencyGraph in src/migrator/engine.go.
use go_django_queries.Prelude.{
  ◌≡◌, refl, ◌⊎◌, inl, inr, ap, sym, false, none, List, [], ◌∷◌, map, keys, lookup-In, Text,
  text_eq, text_eq_iff, lookup, ok, err, In, arith, Bool-cases, Option-cases, subst,
}
use mathlib.Core.Path.{fun_ext}
use go_django_queries.Migrator.Types.{Dependency, dependency_not_found}
use go_django_queries.Migrator.Build.{
  NodeMap, dependency_key, link_dependencies, link_nodes, declared, linked_to, IsRange,
}

-- The keys that the node with key `k` depends on.
unfoldable pub needs : {V : Type 0} → NodeMap V → Text → List Text
needs nodes k = map dependency_key (declared nodes k)

-- A dependency among `ds` that has no node.
abbrev pub Missing : {V : Type 0} → NodeMap V → List Text → Text → Type 0
Missing nodes ds d = In d ds × (lookup d nodes ≡ none)

module _ {V : Type 0} (nodes : NodeMap V) where
  abbrev Known : List Text → Type 0
  Known ds = (d : Text) → In d ds → In d (keys nodes)

  link_dependencies_cases :
      (ds : List Dependency)
      → ((link_dependencies nodes ds ≡ ok (map dependency_key ds)) × Known (map dependency_key ds))
        ⊎ ((d : Text) × (link_dependencies nodes ds ≡ err (dependency_not_found d))
            × Missing nodes (map dependency_key ds) d)
  unfolding link_dependencies
  link_dependencies_cases [] = inl (refl, λ d m. absurd m)
  link_dependencies_cases (d ∷ ds) = elim (Option-cases (lookup (dependency_key d) nodes)) [
    | inl missing ↦
        inr (dependency_key d, rw (missing, link_dependencies) refl, (inl refl, missing))
    | inr (m, found) ↦ elim (link_dependencies_cases ds) [
      | inl (e, known) ↦ inl (
        rw (found, link_dependencies) (rw e refl),
        λ j h. elim h [
          | inl same ↦
              subst (λ x. In x (keys nodes)) (sym same) (lookup-In (dependency_key d) nodes found)
          | inr later ↦ known j later
        ],
      )
      | inr (j, e, (at, none_there)) ↦
          inr (j, rw (found, link_dependencies) (rw e refl), (inr at, none_there))
    ]
  ]

  -- Step 2 either links every node to exactly what it declares, or stops at a missing dependency.
  pub link_nodes_cases :
      (ks : List Text)
      → ((link_nodes nodes ks ≡ ok (map (λ k. (k, needs nodes k)) ks))
          × ((k : Text) → In k ks → Known (needs nodes k)))
        ⊎ ((k d : Text) × (link_nodes nodes ks ≡ err (dependency_not_found d))
            × In k ks
            × Missing nodes (needs nodes k) d)
  unfolding link_nodes needs
  link_nodes_cases [] = inl (refl, λ k m. absurd m)
  link_nodes_cases (k ∷ ks) = elim (link_dependencies_cases (declared nodes k)) [
    | inr (d, e, missing) ↦ inr (k, d, rw e refl, inl refl, missing)
    | inl (e, known) ↦ elim (link_nodes_cases ks) [
      | inr (j, d, f, at, missing) ↦ inr (j, d, rw (e, f) refl, inr at, missing)
      | inl (f, rest) ↦
          inl
            (rw (e, f) refl, λ j h. elim h [ inl same ↦ rw same known | inr later ↦ rest j later ])
    ]
  ]

linked_to-map :
    (f : Text → List Text) (k : Text) (ks : List Text)
    → In k ks ⊎ (f k ≡ [])
    → linked_to (map (λ j. (j, f j)) ks) k ≡ f k
unfolding lookup
linked_to-map f k [] (inl m) = absurd m
linked_to-map f k [] (inr e) = sym e
linked_to-map f k (j ∷ ks) h = elim (Bool-cases (text_eq j k)) [
  | inl e ↦ rw (e, lookup, linked_to) (ap f ((text_eq_iff j k).0 e))
  | inr ne ↦ rw (ne, lookup, linked_to) (linked_to-map f k ks (later h ne))
]
  where
    later : (In k (j ∷ ks) ⊎ (f k ≡ [])) → text_eq j k ≡ false → In k ks ⊎ (f k ≡ [])
    later (inl (inl e)) ne = absurd (ground (arith, text_eq_iff j k))
    later (inl (inr m)) ne = inl m
    later (inr e) ne = inr e

needs-nil : {V : Type 0} (nodes : NodeMap V) (k : Text) → lookup k nodes ≡ none → needs nodes k ≡ []
unfolding needs
needs-nil nodes k e = rw (e, declared) refl

-- After step 2 the search follows exactly the declared dependencies.
pub linked_to-needs :
    {V : Type 0} (nodes : NodeMap V) (ks : List Text)
    → IsRange nodes ks
    → linked_to (map (λ j. (j, needs nodes j)) ks) ≡ needs nodes
linked_to-needs nodes ks range = fun_ext λ k.
    linked_to-map (needs nodes) k ks (elim (Option-cases (lookup k nodes)) [
      | inl missing ↦ inr (needs-nil nodes k missing)
      | inr (m, found) ↦ inl (range.complete k (lookup-In k nodes found))
    ])
