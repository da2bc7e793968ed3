-- ===== src/Prelude/Assoc.antt =====
-- Go maps with string keys, as association lists: `lookup` reads m[k], `insert` writes m[k] = v,
-- and `without` is delete(m, k).
use mathlib.Core.Path.{◌≡◌, refl, ◌∙◌}
use mathlib.Core.Logic.{◌⊎◌, inl, inr}
use mathlib.Core.Option.{Option, none, some}
use mathlib.Core.List.{List, [], ◌∷◌, map}
use native.Mathlib.Omega.{arith}
use go_django_queries.Prelude.Tests.{if◌then◌else◌, Bool-cases}
use go_django_queries.Prelude.Lists.{In}
use go_django_queries.Prelude.Texts.{Text, text_eq, text_eq_iff}

module _ {ℓ} {V : Type ℓ} where
  unfoldable pub lookup : Text → List (Text × V) → Option V
  lookup k [] = none
  lookup k ((j, v) ∷ m) = if text_eq j k then some v else lookup k m

  unfoldable pub insert : Text → V → List (Text × V) → List (Text × V)
  insert k v [] = (k, v) ∷ []
  insert k v ((j, w) ∷ m) = if text_eq j k then (k, v) ∷ m else (j, w) ∷ insert k v m

  unfoldable pub without : Text → List (Text × V) → List (Text × V)
  without k [] = []
  without k ((j, w) ∷ m) = let rest = without k m in if text_eq j k then rest else (j, w) ∷ rest

  pub lookup-insert :
      (k j : Text) (v : V) (m : List (Text × V))
      → lookup j (insert k v m) ≡ (if text_eq k j then some v else lookup j m)
  unfolding lookup insert
  lookup-insert k j v [] = refl
  lookup-insert k j v ((i, w) ∷ m) =
      ground (arith, text_eq_iff k j, text_eq_iff i k, text_eq_iff i j, lookup-insert k j v m)

  pub lookup-without :
      (k j : Text) (m : List (Text × V))
      → lookup j (without k m) ≡ (if text_eq k j then none else lookup j m)
  unfolding lookup without
  lookup-without k j [] = ground arith
  lookup-without k j ((i, w) ∷ m) =
      ground (arith, text_eq_iff k j, text_eq_iff i k, text_eq_iff i j, lookup-without k j m)

abbrev pub keys : {A : Type 0} → List (Text × A) → List Text
keys m = map (λ e. e.0) m

pub lookup-In :
    {A : Type 0} (k : Text) (m : List (Text × A)) {v : A} → lookup k m ≡ some v → In k (keys m)
unfolding lookup
lookup-In k [] h = absurd (ground arith)
lookup-In k ((j, w) ∷ m) h = elim (Bool-cases (text_eq j k)) [
  | inl e ↦ inl (ground (arith, text_eq_iff j k))
  | inr ne ↦ inr (lookup-In k m (rw (ne, lookup) at h))
]

pub In-lookup :
    {A : Type 0} (k : Text) (m : List (Text × A)) → In k (keys m) → (v : A) × (lookup k m ≡ some v)
unfolding lookup
In-lookup k [] h = absurd h
In-lookup k ((j, w) ∷ m) h = elim (Bool-cases (text_eq j k)) [
  | inl e ↦ (w, rw e)
  | inr ne ↦ elim h [
    | inl e ↦ absurd (ground (arith, text_eq_iff j k))
    | inr later ↦ let (v, e) = In-lookup k m later in (v, rw (ne, lookup) e)
  ]
]

pub keys-insert :
    {A : Type 0} (k j : Text) (v : A) (m : List (Text × A))
    → In j (keys m) ⊎ (j ≡ k)
    → In j (keys (insert k v m))
unfolding insert
keys-insert k j v [] (inl m) = absurd m
keys-insert k j v [] (inr e) = inl e
keys-insert k j v ((i, w) ∷ m) h = elim (Bool-cases (text_eq i k)) [
  | inl e ↦ rw e (here ((text_eq_iff i k).0 e) h)
  | inr ne ↦ rw ne (there h (keys-insert k j v m))
]
  where
    here : i ≡ k → (In j (keys ((i, w) ∷ m)) ⊎ (j ≡ k)) → In j (k ∷ keys m)
    here e (inl (inl f)) = inl (f ∙ e)
    here e (inl (inr later)) = inr later
    here e (inr f) = inl f

    there :
        (In j (keys ((i, w) ∷ m)) ⊎ (j ≡ k))
        → (In j (keys m) ⊎ (j ≡ k) → In j (keys (insert k v m)))
        → In j (i ∷ keys (insert k v m))
    there (inl (inl f)) rec = inl f
    there (inl (inr later)) rec = inr (rec (inl later))
    there (inr f) rec = inr (rec (inr f))
