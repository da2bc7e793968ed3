-- ===== src/Migrator/Graph/Order.antt =====
-- The slice `ordered` of the search in src/migrator/engine.go.
use go_django_queries.Prelude.{
  ℕ, zero, suc, ◌≡◌, refl, subst, ◌⊎◌, inl, inr, true, false, List, [], ◌∷◌, ◌++◌, arith, Text,
  text_eq, text_eq_iff, Bool-cases, In, In-snoc, In-append_left, In-snoc_last, Distinct,
  Distinct-snoc,
}
use go_django_queries.Migrator.Graph.{
  Search, Visit, done, cyclic, out_of_fuel, and_then, enter, leave, visit_all, visit, visit_roots,
  unvisited,
}

-- Each key of the list has its dependencies among `seen` and the keys before it.
abbrev pub IsOrdered : (Text → List Text) → List Text → List Text → Type 0
IsOrdered deps seen [] = Unit {0}
IsOrdered deps seen (k ∷ ks) =
    ((d : Text) → In d (deps k) → In d seen) × IsOrdered deps (k ∷ seen) ks

IsOrdered-snoc :
    (deps : Text → List Text) (seen : List Text) (k : Text) (ks : List Text)
    → IsOrdered deps seen ks
    → ((d : Text) → In d (deps k) → In d seen ⊎ In d ks)
    → IsOrdered deps seen (ks ++ (k ∷ []))
IsOrdered-snoc deps seen k [] h before =
    (λ d m. elim (before d m) [ inl e ↦ e | inr e ↦ absurd e ], tt)
IsOrdered-snoc deps seen k (x ∷ ks) h before = (
  h.0,
  IsOrdered-snoc deps (x ∷ seen) k ks h.1 (λ d m. elim (before d m) [
    | inl old ↦ inl (inr old)
    | inr new ↦ elim new [ inl e ↦ inl (inl e) | inr late ↦ inr late ]
  ]),
)

module _ (deps : Text → List Text) where
  -- What holds of every state of the search.
  pub record Inv (s : Search) : Type 0 where
    pub marks : (j : Text) → s.visited j ≡ true → In j s.ordered
    pub marked : (j : Text) → In j s.ordered → s.visited j ≡ true
    pub apart : (j : Text) → s.visited j ≡ true → s.visiting j ≡ false
    pub distinct : Distinct s.ordered
    pub in_order : IsOrdered deps [] s.ordered

  -- What a call leaves as it was: the flags `visiting`, and what was visited.
  pub record Keeps (s t : Search) : Type 0 where
    pub same : (j : Text) → t.visiting j ≡ s.visiting j
    pub more : (j : Text) → s.visited j ≡ true → t.visited j ≡ true

  Keeps-refl : (s : Search) → Keeps s s
  Keeps-refl s = record { same = λ j. refl; more = λ j h. h }

  Keeps-trans : (s t u : Search) → Keeps s t → Keeps t u → Keeps s u
  Keeps-trans s t u h k = record {
    same = λ j. ground (arith, h.same j, k.same j);
    more = λ j v. k.more j (h.more j v);
  }

  abbrev pub Ends : (Search → Type 0) → Visit → Type 0
  Ends P (done t) = P t
  Ends P (cyclic k) = Unit {0}
  Ends P out_of_fuel = Unit {0}

  pub Ends-and_then :
      (P Q : Search → Type 0) (v : Visit) (f : Search → Visit)
      → Ends P v
      → ((t : Search) → P t → Ends Q (f t))
      → Ends Q (and_then v f)
  Ends-and_then P Q (done t) f h k = k t h
  Ends-and_then P Q (cyclic j) f h k = tt
  Ends-and_then P Q out_of_fuel f h k = tt

  pub Ends-map :
      {P Q : Search → Type 0} (v : Visit) → Ends P v → ((t : Search) → P t → Q t) → Ends Q v
  Ends-map (done t) h f = f t h
  Ends-map (cyclic j) h f = tt
  Ends-map out_of_fuel h f = tt

  -- A call on `k` from `s` that ends in `t`.
  abbrev pub After : Search → List Text → Search → Type 0
  After s ks t = Inv t × Keeps s t × ((d : Text) → In d ks → t.visited d ≡ true)

  After-trans :
      (k : Text) (ks : List Text) (s t u : Search)
      → After s (k ∷ []) t
      → After t ks u
      → After s (k ∷ ks) u
  After-trans k ks s t u (inv', kept, seen) (inv'', kept', seen') = (
    inv'',
    Keeps-trans s t u kept kept',
    λ d m. elim m [ inl e ↦ kept'.more d (seen d (inl e)) | inr later ↦ seen' d later ],
  )

  visit_all-After :
      (call : Text → Search → Visit)
      → ((k : Text) (s : Search) → Inv s → Ends (After s (k ∷ [])) (call k s))
      → (ks : List Text) (s : Search) → Inv s
      → Ends (After s ks) (visit_all call ks s)
  unfolding visit_all
  visit_all-After call step [] s inv = (inv, Keeps-refl s, λ d m. absurd m)
  visit_all-After call step (k ∷ ks) s inv =
      Ends-and_then (After s (k ∷ [])) (After s (k ∷ ks)) (call k s) (visit_all call ks)
        (step k s inv)
        (λ t here.
          Ends-map (visit_all call ks t) (visit_all-After call step ks t here.0)
            (λ u later. After-trans k ks s t u here later))

  -- Leaving `k` after its dependencies are visited.
  module _ (k : Text) (s t : Search) (idle : s.visiting k ≡ false)
      (after : After (enter k s) (deps k) t) where
    open_now : t.visiting k ≡ true
    open_now = ground (arith, after.1.same k, text_eq_iff k k)

    not_placed : ¬ In k t.ordered
    not_placed m = ground (arith, after.0.apart k (after.0.marked k m), open_now)

    leave-Inv : Inv (leave k t)
    leave-Inv = record {
      marks = λ j h. elim (Bool-cases (text_eq k j)) [
        | inl e ↦
            subst (λ x. In x (t.ordered ++ (k ∷ []))) ((text_eq_iff k j).0 e)
              (In-snoc_last k t.ordered)
        | inr e ↦ In-append_left j t.ordered (k ∷ []) (after.0.marks j (rw e at h))
      ];
      marked = λ j m. elim (In-snoc j k t.ordered m) [
        | inl old ↦ ground (arith, after.0.marked j old)
        | inr e ↦ ground (arith, text_eq_iff k j)
      ];
      apart = λ j h. ground (arith, after.0.apart j, text_eq_iff k j);
      distinct = Distinct-snoc k t.ordered after.0.distinct not_placed;
      in_order =
          IsOrdered-snoc deps [] k t.ordered after.0.in_order
            (λ d m. inr (after.0.marks d (after.2 d m)));
    }

    leave-Keeps : Keeps s (leave k t)
    leave-Keeps = record {
      same = λ j. ground (arith, after.1.same j, text_eq_iff k j);
      more = λ j h. ground (arith, after.1.more j h);
    }

    leave-After : After s (k ∷ []) (leave k t)
    leave-After = (
      leave-Inv,
      leave-Keeps,
      λ d m. elim m [ inl e ↦ ground (arith, text_eq_iff k d) | inr e ↦ absurd e ],
    )

  pub enter-Inv : (k : Text) (s : Search) → s.visited k ≡ false → Inv s → Inv (enter k s)
  enter-Inv k s new inv = record {
    marks = inv.marks;
    marked = inv.marked;
    apart = λ j h. ground (arith, inv.apart j h, text_eq_iff k j);
    distinct = inv.distinct;
    in_order = inv.in_order;
  }

  pub visit-After :
      (fuel : ℕ) (k : Text) (s : Search) → Inv s → Ends (After s (k ∷ [])) (visit deps fuel k s)
  unfolding visit
  visit-After zero k s inv = tt
  visit-After (suc fuel) k s inv = elim (Bool-cases (s.visited k)) [
    | inl old ↦
        rw (old, visit) (inv, Keeps-refl s, λ d m. elim m [ inl e ↦ rw e old | inr e ↦ absurd e ])
    | inr new ↦ elim (Bool-cases (s.visiting k)) [
      | inl open_ ↦ rw (new, open_, visit) tt
      | inr idle ↦
          rw (new, idle, visit)
            (Ends-and_then (After (enter k s) (deps k)) (After s (k ∷ []))
              (visit_all (visit deps fuel) (deps k) (enter k s)) (λ t. done (leave k t))
              (visit_all-After (visit deps fuel) (visit-After fuel) (deps k) (enter k s)
                (enter-Inv k s new inv))
              (λ t after. leave-After k s t idle after))
    ]
  ]

  pub visit_roots-After :
      (fuel : ℕ) (ks : List Text) (s : Search)
      → Inv s
      → Ends (After s ks) (visit_roots deps fuel ks s)
  unfolding visit_roots
  visit_roots-After fuel [] s inv = (inv, Keeps-refl s, λ d m. absurd m)
  visit_roots-After fuel (k ∷ ks) s inv = elim (Bool-cases (s.visited k)) [
    | inl old ↦
        rw (old, visit_roots)
          (Ends-map (visit_roots deps fuel ks s) (visit_roots-After fuel ks s inv)
            (λ t (inv', kept, seen). (
              inv',
              kept,
              λ d m. elim m [ inl e ↦ kept.more d (rw e old) | inr later ↦ seen d later ],
            )))
    | inr new ↦
        rw (new, visit_roots)
          (Ends-and_then (After s (k ∷ [])) (After s (k ∷ ks)) (visit deps fuel k s)
            (visit_roots deps fuel ks) (visit-After fuel k s inv)
            (λ t here.
              Ends-map (visit_roots deps fuel ks t) (visit_roots-After fuel ks t here.0)
                (λ u later. After-trans k ks s t u here later)))
  ]

  pub Inv-unvisited : Inv unvisited
  Inv-unvisited = record {
    marks = λ j h. cc;
    marked = λ j m. absurd m;
    apart = λ j h. refl;
    distinct = tt;
    in_order = tt;
  }
