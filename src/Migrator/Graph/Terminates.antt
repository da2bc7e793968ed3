-- ===== src/Migrator/Graph/Terminates.antt =====
-- The fuel of the search in src/migrator/engine.go, and the nodes that are open on the way.
use go_django_queries.Prelude.{
  ℕ, zero, suc, ◌≤◌, ◌<◌, ◌≡◌, refl, inl, inr, Bool, true, false, List, [], ◌∷◌, arith, Text,
  text_eq_iff, Bool-cases, In, if◌then◌else◌, length,
}
use go_django_queries.Migrator.Graph.{
  Search, Visit, done, cyclic, out_of_fuel, flag, and_then, enter, leave, visit_all, visit,
  visit_roots, unvisited,
}
use go_django_queries.Migrator.Graph.Order.{Inv, Ends, After, enter-Inv, visit-After}

-- The nodes that are not open.
abbrev pub closed_nodes : (Text → Bool) → List Text → ℕ
closed_nodes f [] = 0
closed_nodes f (k ∷ ks) = if f k then closed_nodes f ks else suc (closed_nodes f ks)

pub closed_nodes-unvisited : (ks : List Text) → closed_nodes unvisited.visiting ks ≡ length ks
closed_nodes-unvisited [] = refl
closed_nodes-unvisited (k ∷ ks) = omega (arith, closed_nodes-unvisited ks)

closed_nodes-same :
    (f g : Text → Bool) (ks : List Text)
    → ((j : Text) → g j ≡ f j)
    → closed_nodes g ks ≡ closed_nodes f ks
closed_nodes-same f g [] h = refl
closed_nodes-same f g (k ∷ ks) h = ground (arith, h k, closed_nodes-same f g ks h)

closed_nodes-flag_le :
    (f : Text → Bool) (k : Text) (ks : List Text)
    → closed_nodes (flag f k true) ks ≤ closed_nodes f ks
closed_nodes-flag_le f k [] = omega arith
closed_nodes-flag_le f k (j ∷ ks) = ground (arith, closed_nodes-flag_le f k ks)

closed_nodes-flag_lt :
    (f : Text → Bool) (k : Text) (ks : List Text)
    → In k ks
    → f k ≡ false
    → closed_nodes (flag f k true) ks < closed_nodes f ks
closed_nodes-flag_lt f k [] m h = absurd m
closed_nodes-flag_lt f k (j ∷ ks) (inl e) h =
    ground (arith, text_eq_iff k j, closed_nodes-flag_le f k ks)
closed_nodes-flag_lt f k (j ∷ ks) (inr m) h = ground (arith, closed_nodes-flag_lt f k ks m h)

abbrev pub Stops : Visit → Type 0
Stops out_of_fuel = ⊥
Stops (done t) = Unit {0}
Stops (cyclic k) = Unit {0}

module _ (deps : Text → List Text) where
  and_then-Stops :
      (P : Search → Type 0) (v : Visit) (f : Search → Visit)
      → Stops v
      → Ends deps P v
      → ((t : Search) → P t → Stops (f t))
      → Stops (and_then v f)
  and_then-Stops P (done t) f h e k = k t e
  and_then-Stops P (cyclic j) f h e k = tt
  and_then-Stops P out_of_fuel f h e k = absurd h

  module _ (nodes : List Text)
      (known : (k : Text) → In k nodes → (d : Text) → In d (deps k) → In d nodes) where
    abbrev left : Search → ℕ
    left s = closed_nodes s.visiting nodes

    visit_all-Stops :
        (n : ℕ) (call : Text → Search → Visit)
        → ((k : Text) (s : Search) → Inv deps s → Ends deps (After deps s (k ∷ [])) (call k s))
        → ((k : Text) (s : Search) → Inv deps s → In k nodes → left s < n → Stops (call k s))
        → (ks : List Text) (s : Search) → Inv deps s
        → ((d : Text) → In d ks → In d nodes)
        → left s < n
        → Stops (visit_all call ks s)
    unfolding visit_all
    visit_all-Stops n call after stops [] s inv within h = tt
    visit_all-Stops n call after stops (k ∷ ks) s inv within h =
        and_then-Stops (After deps s (k ∷ [])) (call k s) (visit_all call ks)
          (stops k s inv (within k (inl refl)) h) (after k s inv)
          (λ t (inv', kept, _).
            visit_all-Stops n call after stops ks t inv' (λ d m. within d (inr m))
              (omega (arith, closed_nodes-same s.visiting t.visiting nodes kept.same)))

    visit-Stops :
        (fuel : ℕ) (k : Text) (s : Search)
        → Inv deps s
        → In k nodes
        → left s < fuel
        → Stops (visit deps fuel k s)
    unfolding visit
    visit-Stops zero k s inv m h = absurd (omega arith)
    visit-Stops (suc fuel) k s inv m h = elim (Bool-cases (s.visited k)) [
      | inl old ↦ rw (old, visit) tt
      | inr new ↦ elim (Bool-cases (s.visiting k)) [
        | inl open_ ↦ rw (new, open_, visit) tt
        | inr idle ↦
            rw (new, idle, visit)
              (and_then-Stops (λ t. Unit {0}) (visit_all (visit deps fuel) (deps k) (enter k s))
                (λ t. done (leave k t))
                (visit_all-Stops fuel (visit deps fuel) (visit-After deps fuel) (visit-Stops fuel)
                  (deps k) (enter k s) (enter-Inv deps k s new inv) (known k m)
                  (omega (arith, closed_nodes-flag_lt s.visiting k nodes m idle)))
                (Ends-Unit (visit_all (visit deps fuel) (deps k) (enter k s))) (λ t _. tt))
      ]
    ]
      where
        Ends-Unit : (v : Visit) → Ends deps (λ t. Unit {0}) v
        Ends-Unit (done t) = tt
        Ends-Unit (cyclic j) = tt
        Ends-Unit out_of_fuel = tt

    pub visit_roots-Stops :
        (fuel : ℕ) (ks : List Text) (s : Search)
        → Inv deps s
        → ((d : Text) → In d ks → In d nodes)
        → left s < fuel
        → Stops (visit_roots deps fuel ks s)
    unfolding visit_roots
    visit_roots-Stops fuel [] s inv within h = tt
    visit_roots-Stops fuel (k ∷ ks) s inv within h = elim (Bool-cases (s.visited k)) [
      | inl old ↦
          rw (old, visit_roots) (visit_roots-Stops fuel ks s inv (λ d m. within d (inr m)) h)
      | inr new ↦
          rw (new, visit_roots)
            (and_then-Stops (After deps s (k ∷ [])) (visit deps fuel k s) (visit_roots deps fuel ks)
              (visit-Stops fuel k s inv (within k (inl refl)) h) (visit-After deps fuel k s inv)
              (λ t (inv', kept, _).
                visit_roots-Stops fuel ks t inv' (λ d m. within d (inr m))
                  (omega (arith, closed_nodes-same s.visiting t.visiting nodes kept.same))))
    ]
