-- ===== src/Migrator/Graph/Scope.antt =====
-- The keys that the search of src/migrator/engine.go visits.
use go_django_queries.Prelude.{
  ℕ, zero, suc, ◌≡◌, inl, inr, true, refl, List, [], ◌∷◌, Text, text_eq, text_eq_iff, Bool-cases,
  In, subst,
}
use go_django_queries.Migrator.Graph.{
  Search, Visit, done, enter, leave, visit_all, visit, visit_roots,
}
use go_django_queries.Migrator.Graph.Order.{Ends, Ends-and_then}

-- Every visited key is one of `nodes`.
abbrev pub Within : List Text → Search → Type 0
Within nodes s = (j : Text) → s.visited j ≡ true → In j nodes

module _ (deps : Text → List Text) (nodes : List Text)
    (known : (k : Text) → In k nodes → (d : Text) → In d (deps k) → In d nodes) where
  visit_all-Within :
      (call : Text → Search → Visit)
      → ((k : Text) (s : Search)
          → In k nodes
          → Within nodes s
          → Ends deps (Within nodes) (call k s))
      → (ks : List Text) (s : Search) → ((d : Text) → In d ks → In d nodes)
      → Within nodes s
      → Ends deps (Within nodes) (visit_all call ks s)
  unfolding visit_all
  visit_all-Within call step [] s within h = h
  visit_all-Within call step (k ∷ ks) s within h =
      Ends-and_then deps (Within nodes) (Within nodes) (call k s) (visit_all call ks)
        (step k s (within k (inl refl)) h)
        (λ t. visit_all-Within call step ks t (λ d m. within d (inr m)))

  leave-Within : (k : Text) (t : Search) → In k nodes → Within nodes t → Within nodes (leave k t)
  leave-Within k t m h j v = elim (Bool-cases (text_eq k j)) [
    | inl e ↦ subst (λ x. In x nodes) ((text_eq_iff k j).0 e) m
    | inr e ↦ h j (rw e at v)
  ]

  visit-Within :
      (fuel : ℕ) (k : Text) (s : Search)
      → In k nodes
      → Within nodes s
      → Ends deps (Within nodes) (visit deps fuel k s)
  unfolding visit
  visit-Within zero k s m h = tt
  visit-Within (suc fuel) k s m h = elim (Bool-cases (s.visited k)) [
    | inl old ↦ rw (old, visit) h
    | inr new ↦ elim (Bool-cases (s.visiting k)) [
      | inl open_ ↦ rw (new, open_, visit) tt
      | inr idle ↦
          rw (new, idle, visit)
            (Ends-and_then deps (Within nodes) (Within nodes)
              (visit_all (visit deps fuel) (deps k) (enter k s)) (λ t. done (leave k t))
              (visit_all-Within (visit deps fuel) (visit-Within fuel) (deps k) (enter k s)
                (known k m) h)
              (λ t. leave-Within k t m))
    ]
  ]

  pub visit_roots-Within :
      (fuel : ℕ) (ks : List Text) (s : Search)
      → ((d : Text) → In d ks → In d nodes)
      → Within nodes s
      → Ends deps (Within nodes) (visit_roots deps fuel ks s)
  unfolding visit_roots
  visit_roots-Within fuel [] s within h = h
  visit_roots-Within fuel (k ∷ ks) s within h = elim (Bool-cases (s.visited k)) [
    | inl old ↦ rw (old, visit_roots) (visit_roots-Within fuel ks s (λ d m. within d (inr m)) h)
    | inr new ↦
        rw (new, visit_roots)
          (Ends-and_then deps (Within nodes) (Within nodes) (visit deps fuel k s)
            (visit_roots deps fuel ks) (visit-Within fuel k s (within k (inl refl)) h)
            (λ t. visit_roots-Within fuel ks t (λ d m. within d (inr m))))
  ]
