-- ===== src/Prelude/Lists.antt =====
-- Lists measured by native numbers, and predicates on them by recursion.
use Prim.Native.Nat.{ℕ, zero, suc, ◌+◌}
use mathlib.Core.Path.{◌≡◌, refl, sym}
use mathlib.Core.Logic.{◌⊎◌, inl, inr}
use mathlib.Core.List.{List, [], ◌∷◌, ◌++◌}
use native.Mathlib.Omega.{arith}

module _ {ℓ} {A : Type ℓ} where
  abbrev pub length : List A → ℕ
  length [] = 0
  length (x ∷ xs) = suc (length xs)

  abbrev pub take : ℕ → List A → List A
  take zero xs = []
  take (suc n) [] = []
  take (suc n) (x ∷ xs) = x ∷ take n xs

  abbrev pub drop : ℕ → List A → List A
  drop zero xs = xs
  drop (suc n) [] = []
  drop (suc n) (x ∷ xs) = drop n xs

  pub length-append : (xs ys : List A) → length (xs ++ ys) ≡ length xs + length ys
  length-append [] ys = omega arith
  length-append (x ∷ xs) ys = omega (arith, length-append xs ys)

  abbrev pub All {κ} : (A → Type κ) → List A → Type κ
  All P [] = Unit
  All P (x ∷ xs) = P x × All P xs

pub All-append :
    {A : Type 0} (P : A → Type 0) (xs ys : List A) → All P xs → All P ys → All P (xs ++ ys)
All-append P [] ys h k = k
All-append P (x ∷ xs) ys h k = (h.0, All-append P xs ys h.1 k)

-- `a` stands in the list, with its place.
abbrev pub In : {A : Type 0} → A → List A → Type 0
In a [] = ⊥
In a (x ∷ xs) = (a ≡ x) ⊎ In a xs

-- No element twice.
abbrev pub Distinct : {A : Type 0} → List A → Type 0
Distinct [] = Unit {0}
Distinct (k ∷ ks) = (¬ In k ks) × Distinct ks

pub In-snoc : {A : Type 0} (j k : A) (ks : List A) → In j (ks ++ (k ∷ [])) → In j ks ⊎ (j ≡ k)
In-snoc j k [] (inl e) = inr e
In-snoc j k [] (inr m) = elim m [ ]
In-snoc j k (x ∷ ks) (inl e) = inl (inl e)
In-snoc j k (x ∷ ks) (inr m) = elim (In-snoc j k ks m) [ inl h ↦ inl (inr h) | inr e ↦ inr e ]

pub In-append_left : {A : Type 0} (j : A) (ks ls : List A) → In j ks → In j (ks ++ ls)
In-append_left j [] ls m = elim m [ ]
In-append_left j (x ∷ ks) ls (inl e) = inl e
In-append_left j (x ∷ ks) ls (inr m) = inr (In-append_left j ks ls m)

pub In-snoc_last : {A : Type 0} (k : A) (ks : List A) → In k (ks ++ (k ∷ []))
In-snoc_last k [] = inl refl
In-snoc_last k (x ∷ ks) = inr (In-snoc_last k ks)

pub Distinct-snoc :
    {A : Type 0} (k : A) (ks : List A) → Distinct ks → ¬ In k ks → Distinct (ks ++ (k ∷ []))
Distinct-snoc k [] h new = (λ m. m, tt)
Distinct-snoc k (x ∷ ks) h new = (
  λ m. elim (In-snoc x k ks m) [ inl old ↦ h.0 old | inr e ↦ new (inl (sym e)) ],
  Distinct-snoc k ks h.1 (λ m. new (inr m)),
)
