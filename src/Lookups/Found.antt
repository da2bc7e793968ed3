-- ===== src/Lookups/Found.antt =====
-- What Lookup of src/expr/lookups_registry.go returns, as a relation between its arguments and the
-- expression.
use go_django_queries.Prelude.{
  ℕ, ◌≤◌, false, ◌||◌, Option, none, some, List, [], ◌∷◌, Text, length, ltb, Result, ok, >>=-eq-ok,
  ◌≡◌, ◌↔◌, refl, sym, subst, arith, Bool-cases, inl, inr,
}
use go_django_queries.Lookups.Registry.{
  retrieve_from_map, LookupError, Lookup, LeftSide, LookupInfo, LookupRegistry, above, found_or,
  check_arity, apply_transforms, resolve_lhs, registry_lookup, transform_not_found,
  lookup_not_found, nil_expression,
}

found_or-ok :
    {T : Type 0} (failure : LookupError) (o : Option T) (t : T)
    → found_or failure o ≡ ok t
    → o ≡ some t
found_or-ok failure none t h = absurd (cc)
found_or-ok failure (some s) t h = cc

abbrev pub AtMost : ℕ → Option ℕ → Type 0
AtMost n none = Unit {0}
AtMost n (some max) = n ≤ max

arity-false :
    (n min : ℕ) (max : Option ℕ) → ltb n min || above n max ≡ false → (min ≤ n) × AtMost n max
arity-false n min none h = (ground arith, tt)
arity-false n min (some max) h = (ground arith, ground arith)

false-arity :
    (n min : ℕ) (max : Option ℕ) → min ≤ n → AtMost n max → ltb n min || above n max ≡ false
false-arity n min none h k = ground arith
false-arity n min (some max) h k = ground arith

module _ {L A B X : Type 0} where
  -- As many arguments as the lookup takes.
  abbrev pub TakesArity : Lookup L A B X → ℕ → Type 0
  TakesArity l n = (l.min ≤ n) × AtMost n l.max

  check_arity-ok :
      (l : Lookup L A B X) (args checked : List A)
      → check_arity l args ≡ ok checked
      → TakesArity l (length args) × (args ≡ checked)
  unfolding check_arity
  check_arity-ok l args checked h =
      elim (Bool-cases (ltb (length args) l.min || above (length args) l.max)) [
        | inl bad ↦ absurd (let k = rw bad at h in cc)
        | inr good ↦ let k = rw good at h in (arity-false (length args) l.min l.max good, cc)
      ]

  ok-check_arity :
      (l : Lookup L A B X) (args : List A)
      → TakesArity l (length args)
      → check_arity l args ≡ ok args
  unfolding check_arity
  ok-check_arity l args h = rw (false-arity (length args) l.min l.max h.0 h.1) refl

  -- The transforms with these names, each registered for the driver or for all, take the left side to
  -- another, one behind the other.
  abbrev pub Transforms : LookupRegistry L A B X → Text → List Text → L → L → Type 0
  Transforms registry driver [] left r = left ≡ r
  Transforms registry driver (name ∷ names) left r =
      (transform : L → Result LookupError L) × (next : L) × (retrieve_from_map registry.transforms
          name driver
        ≡ some transform)
      × (transform left ≡ ok next)
      × Transforms registry driver names next r

  apply_transforms-ok :
      (registry : LookupRegistry L A B X) (driver : Text) (names : List Text) (left r : L)
      → apply_transforms registry driver names left ≡ ok r
      → Transforms registry driver names left r
  unfolding apply_transforms
  apply_transforms-ok registry driver [] left r h = cc
  apply_transforms-ok registry driver (name ∷ names) left r h =
      let (transform, e, rest) =
        >>=-eq-ok (found_or transform_not_found (retrieve_from_map registry.transforms name driver))
          _ h in
      let (next, f, more) = >>=-eq-ok (transform left) _ rest in
      (
        transform,
        next,
        found_or-ok transform_not_found _ transform e,
        f,
        apply_transforms-ok registry driver names next r more,
      )

  ok-apply_transforms :
      (registry : LookupRegistry L A B X) (driver : Text) (names : List Text) (left r : L)
      → Transforms registry driver names left r
      → apply_transforms registry driver names left ≡ ok r
  unfolding apply_transforms
  ok-apply_transforms registry driver [] left r h = rw h refl
  ok-apply_transforms registry driver (name ∷ names) left r (transform, next, e, f, more) =
      rw e (rw f (ok-apply_transforms registry driver names next r more))

module _ {E L A B X : Type 0} where
  -- The expression is what the lookup, which is registered for the driver or for all, makes of the left
  -- side behind the transforms and of the arguments that it has normalised.
  abbrev pub Finds :
      LookupInfo E L → LookupRegistry L A B X → List Text → Text → LeftSide E → List A → X → Type 0
  Finds inf registry transforms name lhs args x =
      (l : Lookup L A B X) × (normalized : List B) × (left resolved : L) × (retrieve_from_map
          registry.lookups name inf.driver
        ≡ some l)
      × TakesArity l (length args)
      × (l.normalize args ≡ ok normalized)
      × (resolve_lhs inf lhs ≡ ok left)
      × Transforms registry inf.driver transforms left resolved
      × (l.resolve resolved normalized ≡ ok (some x))

  registry_lookup-Finds :
      (inf : LookupInfo E L) (registry : LookupRegistry L A B X) (transforms : List Text)
      (name : Text) (lhs : LeftSide E) (args : List A) (x : X)
      → registry_lookup inf registry transforms name lhs args ≡ ok x
      → Finds inf registry transforms name lhs args x
  unfolding registry_lookup
  registry_lookup-Finds inf registry transforms name lhs args x h =
      let (l, e, r1) =
        >>=-eq-ok (found_or lookup_not_found (retrieve_from_map registry.lookups name inf.driver)) _
          h in
      let (checked, f, r2) = >>=-eq-ok (check_arity l args) _ r1 in
      let (normalized, g, r3) = >>=-eq-ok (l.normalize checked) _ r2 in
      let (left, i, r4) = >>=-eq-ok (resolve_lhs inf lhs) _ r3 in
      let (resolved, j, r5) =
        >>=-eq-ok (apply_transforms registry inf.driver transforms left) _ r4 in
      let (o, k, r6) = >>=-eq-ok (l.resolve resolved normalized) _ r5 in
      let (takes, same) = check_arity-ok l args checked f in
      (
        l,
        normalized,
        left,
        resolved,
        found_or-ok lookup_not_found _ l e,
        takes,
        subst (λ as_. l.normalize as_ ≡ ok normalized) (sym same) g,
        i,
        apply_transforms-ok registry inf.driver transforms left resolved j,
        (let some_x = found_or-ok nil_expression o x r6 in rw (← some_x) k),
      )

  Finds-registry_lookup :
      (inf : LookupInfo E L) (registry : LookupRegistry L A B X) (transforms : List Text)
      (name : Text) (lhs : LeftSide E) (args : List A) (x : X)
      → Finds inf registry transforms name lhs args x
      → registry_lookup inf registry transforms name lhs args ≡ ok x
  unfolding registry_lookup
  Finds-registry_lookup inf registry transforms name lhs args x
        (l, normalized, left, resolved, e, takes, g, i, j, k) =
      rw e (
        rw (ok-check_arity l args takes) (
          rw g (
            rw i (
              rw (ok-apply_transforms registry inf.driver transforms left resolved j)
                (rw k refl)))))

  -- Lookup returns an expression exactly where a lookup of the name is registered for the driver or for
  -- all drivers, takes as many arguments, and normalises them; the left side is text or resolves; the
  -- transforms are registered and take it to another side, in their order; and Resolve of the lookup, of
  -- that side and the normalised arguments, gives this very expression.
  pub registry_lookup_iff :
      (inf : LookupInfo E L) (registry : LookupRegistry L A B X) (transforms : List Text)
      (name : Text) (lhs : LeftSide E) (args : List A) (x : X)
      → (registry_lookup inf registry transforms name lhs args ≡ ok x)
        ↔ Finds inf registry transforms name lhs args x
  registry_lookup_iff inf registry transforms name lhs args x = (
    registry_lookup-Finds inf registry transforms name lhs args x,
    Finds-registry_lookup inf registry transforms name lhs args x,
  )
