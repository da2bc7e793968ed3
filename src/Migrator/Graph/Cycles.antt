-- ===== src/Migrator/Graph/Cycles.antt =====
-- The cycles that the search of src/migrator/engine.go reports.
use go_django_queries.Prelude.{
  ℕ, zero, suc, ◌<◌, ◌≡◌, refl, ◌⊎◌, inl, inr, true, false, List, [], ◌∷◌, arith, Text, text_eq,
  text_eq_iff, Bool-cases, In, subst, sym, if◌then◌else◌,
}
use go_django_queries.Migrator.Graph.{
  Search, Visit, done, cyclic, out_of_fuel, and_then, enter, leave, visit_all, visit, visit_roots,
}
use go_django_queries.Migrator.Graph.Order.{Inv, IsOrdered, Ends, After, enter-Inv, visit-After}

-- A walk of one step or more along dependencies.
pub data Chain (deps : Text → List Text) : Text → Text → Type 0 where
  one : {a b : Text} → In b (deps a) → Chain deps a b
  more : {a b c : Text} → Chain deps a b → In c (deps b) → Chain deps a c

abbrev pub Loops : (Text → List Text) → Visit → Type 0
Loops deps (cyclic k) = Chain deps k k
Loops deps (done t) = Unit {0}
Loops deps out_of_fuel = Unit {0}

-- Among nodes whose dependencies are nodes, a chain goes down in every ranking.
pub Chain-lt :
    (deps : Text → List Text) (nodes : List Text) (rank : Text → ℕ)
    → ((k : Text) → In k nodes → (d : Text) → In d (deps k) → In d nodes)
    → ((k : Text) → In k nodes → (d : Text) → In d (deps k) → rank d < rank k)
    → {a b : Text} → Chain deps a b
    → In a nodes
    → In b nodes × (rank b < rank a)
Chain-lt deps nodes rank known h (one {a} {b} m) at = (known a at b m, h a at b m)
Chain-lt deps nodes rank known h (more {a} {b} {c} w m) at =
    let (mid, lt) = Chain-lt deps nodes rank known h w at in
    (known b mid c m, omega (arith, h b mid c m, lt))

-- The place of a key in a list.
abbrev pub place : Text → List Text → ℕ
place j [] = 0
place j (k ∷ ks) = if text_eq k j then 0 else suc (place j ks)

-- In an ordered list each dependency stands before what depends on it.
pub IsOrdered-place :
    (deps : Text → List Text) (seen : List Text) (k d : Text) (ks : List Text)
    → IsOrdered deps seen ks
    → In k ks
    → In d (deps k)
    → In d seen ⊎ (place d ks < place k ks)
IsOrdered-place deps seen k d [] h m n = absurd m
IsOrdered-place deps seen k d (x ∷ ks) h m n = elim (Bool-cases (text_eq x k)) [
  | inl same ↦ inl (h.0 d (subst (λ y. In d (deps y)) (sym ((text_eq_iff x k).0 same)) n))
  | inr other ↦ elim (IsOrdered-place deps (x ∷ seen) k d ks h.1 (later m other) n) [
    | inl old ↦ elim old [ inl e ↦ inr (ground (arith, text_eq_iff x d)) | inr before ↦ inl before ]
    | inr lt ↦ inr (ground arith)
  ]
]
  where
    later : In k (x ∷ ks) → text_eq x k ≡ false → In k ks
    later (inl e) ne = absurd (ground (arith, text_eq_iff x k))
    later (inr l) ne = l

module _ (deps : Text → List Text) where
  -- Every open node leads to `k`.
  abbrev Leads : Text → Search → Type 0
  Leads k s = (j : Text) → s.visiting j ≡ true → Chain deps j k

  and_then-Loops :
      (P : Search → Type 0) (v : Visit) (f : Search → Visit)
      → Ends deps P v
      → Loops deps v
      → ((t : Search) → P t → Loops deps (f t))
      → Loops deps (and_then v f)
  and_then-Loops P (done t) f e h k = k t e
  and_then-Loops P (cyclic j) f e h k = h
  and_then-Loops P out_of_fuel f e h k = tt

  visit_all-Loops :
      (call : Text → Search → Visit)
      → ((k : Text) (s : Search) → Inv deps s → Ends deps (After deps s (k ∷ [])) (call k s))
      → ((k : Text) (s : Search) → Inv deps s → Leads k s → Loops deps (call k s))
      → (ks : List Text) (s : Search) → Inv deps s
      → ((d : Text) → In d ks → Leads d s)
      → Loops deps (visit_all call ks s)
  unfolding visit_all
  visit_all-Loops call after loops [] s inv leads = tt
  visit_all-Loops call after loops (k ∷ ks) s inv leads =
      and_then-Loops (After deps s (k ∷ [])) (call k s) (visit_all call ks) (after k s inv)
        (loops k s inv (leads k (inl refl)))
        (λ t (inv', kept, _).
          visit_all-Loops call after loops ks t inv'
            (λ d m j h. leads d (inr m) j (ground (arith, kept.same j))))

  Leads-enter :
      (k : Text) (s : Search) → Leads k s → (d : Text) → In d (deps k) → Leads d (enter k s)
  Leads-enter k s leads d m j h = elim (Bool-cases (text_eq k j)) [
    | inl e ↦ subst (λ x. Chain deps x d) ((text_eq_iff k j).0 e) (one m)
    | inr e ↦ more (leads j (rw e at h)) m
  ]

  visit-Loops :
      (fuel : ℕ) (k : Text) (s : Search) → Inv deps s → Leads k s → Loops deps (visit deps fuel k s)
  unfolding visit
  visit-Loops zero k s inv leads = tt
  visit-Loops (suc fuel) k s inv leads = elim (Bool-cases (s.visited k)) [
    | inl old ↦ rw (old, visit) tt
    | inr new ↦ elim (Bool-cases (s.visiting k)) [
      | inl open_ ↦ rw (new, open_, visit) (leads k open_)
      | inr idle ↦
          rw (new, idle, visit)
            (and_then-Loops (λ t. Unit {0}) (visit_all (visit deps fuel) (deps k) (enter k s))
              (λ t. done (leave k t)) (Ends-Unit (visit_all (visit deps fuel) (deps k) (enter k s)))
              (visit_all-Loops (visit deps fuel) (visit-After deps fuel) (visit-Loops fuel) (deps k)
                (enter k s) (enter-Inv deps k s new inv) (Leads-enter k s leads))
              (λ t _. tt))
    ]
  ]
    where
      Ends-Unit : (v : Visit) → Ends deps (λ t. Unit {0}) v
      Ends-Unit (done t) = tt
      Ends-Unit (cyclic j) = tt
      Ends-Unit out_of_fuel = tt

  pub visit_roots-Loops :
      (fuel : ℕ) (ks : List Text) (s : Search)
      → Inv deps s
      → ((j : Text) → s.visiting j ≡ false)
      → Loops deps (visit_roots deps fuel ks s)
  unfolding visit_roots
  visit_roots-Loops fuel [] s inv idle = tt
  visit_roots-Loops fuel (k ∷ ks) s inv idle = elim (Bool-cases (s.visited k)) [
    | inl old ↦ rw (old, visit_roots) (visit_roots-Loops fuel ks s inv idle)
    | inr new ↦
        rw (new, visit_roots)
          (and_then-Loops (After deps s (k ∷ [])) (visit deps fuel k s) (visit_roots deps fuel ks)
            (visit-After deps fuel k s inv)
            (visit-Loops fuel k s inv (λ j h. absurd (ground (arith, idle j))))
            (λ t (inv', kept, _).
              visit_roots-Loops fuel ks t inv' (λ j. ground (arith, idle j, kept.same j))))
  ]
