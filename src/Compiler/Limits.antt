-- ===== src/Compiler/Limits.antt =====
-- The limit and offset of a query in src/queryset_compiler_generic.go.
use go_django_queries.Prelude.{
  ℕ, zero, suc, ◌++◌, some, [], ◌∷◌, Text, codes, ◌≡◌, ◌↔◌, refl, ap, sym, ◌∙◌, arith,
}
use go_django_queries.Prelude.Int.{ℤ, pos, negsuc}
use go_django_queries.Compiler.{Sql, say, placeholder, ◌<>◌}
use go_django_queries.Compiler.Clauses.{write_number, write_limit_offset}

-- A bound of a query: a number that is not above 0 is none.
abbrev pub bound_of : ℤ → ℕ
bound_of (pos n) = n
bound_of (negsuc n) = 0

module _ {A : Type 0} (of_int : ℤ → A) where
  -- What is written for a bound.
  abbrev bound_sql : Text → ℕ → Sql A
  bound_sql before zero = say []
  bound_sql before (suc n) = some (before ++ placeholder, of_int (pos (suc n)) ∷ [])

  write_number-bound :
      (before : Text) (n : ℤ) → write_number of_int before n ≡ bound_sql before (bound_of n)
  unfolding write_number
  write_number-bound before (pos zero) = refl
  write_number-bound before (pos (suc n)) = ground arith
  write_number-bound before (negsuc n) = refl

  abbrev window : ℕ → ℕ → Sql A
  window a b = bound_sql (codes " LIMIT ") a <> bound_sql (codes " OFFSET ") b

  same_number :
      ((m n : ℤ) → of_int m ≡ of_int n → m ≡ n)
      → (a b : ℕ) → of_int (pos (suc a)) ≡ of_int (pos (suc b))
      → suc a ≡ suc b
  same_number inj a b e = ap bound_of (inj (pos (suc a)) (pos (suc b)) e)

  window_injective :
      ((m n : ℤ) → of_int m ≡ of_int n → m ≡ n)
      → (a b c d : ℕ) → window a b ≡ window c d
      → (a ≡ c) × (b ≡ d)
  unfolding ◌<>◌
  window_injective inj zero zero zero zero e = (refl, refl)
  window_injective inj (suc a) zero (suc c) zero e = (same_number inj a c (cc), refl)
  window_injective inj zero (suc b) zero (suc d) e = (refl, same_number inj b d (cc))
  window_injective inj (suc a) (suc b) (suc c) (suc d) e =
      (same_number inj a c (cc), same_number inj b d (cc))
  window_injective inj zero zero zero (suc d) e = absurd (cc)
  window_injective inj zero zero (suc c) zero e = absurd (cc)
  window_injective inj zero zero (suc c) (suc d) e = absurd (cc)
  window_injective inj zero (suc b) zero zero e = absurd (cc)
  window_injective inj zero (suc b) (suc c) zero e = absurd (cc)
  window_injective inj zero (suc b) (suc c) (suc d) e = absurd (cc)
  window_injective inj (suc a) zero zero zero e = absurd (cc)
  window_injective inj (suc a) zero zero (suc d) e = absurd (cc)
  window_injective inj (suc a) zero (suc c) (suc d) e = absurd (cc)
  window_injective inj (suc a) (suc b) zero zero e = absurd (cc)
  window_injective inj (suc a) (suc b) zero (suc d) e = absurd (cc)
  window_injective inj (suc a) (suc b) (suc c) zero e = absurd (cc)

  limit_offset-window :
      (limit offset : ℤ)
      → write_limit_offset of_int limit offset ≡ window (bound_of limit) (bound_of offset)
  unfolding write_limit_offset
  limit_offset-window limit offset =
      rw (write_number-bound (codes " LIMIT ") limit, write_number-bound (codes " OFFSET ") offset)
        refl

  -- Where distinct ints are distinct arguments, two pairs of a limit and an offset are written alike
  -- exactly where they bound a query alike: where the limits are the same number or both not above 0,
  -- and so are the offsets.
  pub limit_offset_eq_iff :
      ((m n : ℤ) → of_int m ≡ of_int n → m ≡ n)
      → (limit offset limit' offset' : ℤ)
      → (write_limit_offset of_int limit offset ≡ write_limit_offset of_int limit' offset')
        ↔ ((bound_of limit ≡ bound_of limit') × (bound_of offset ≡ bound_of offset'))
  limit_offset_eq_iff inj limit offset limit' offset' = (
    λ e.
        window_injective inj (bound_of limit) (bound_of offset) (bound_of limit') (bound_of offset')
          (sym (limit_offset-window limit offset) ∙ e ∙ limit_offset-window limit' offset'),
    λ h.
        limit_offset-window limit offset
        ∙ ap (λ a. window a (bound_of offset)) h.0
        ∙ ap (λ b. window (bound_of limit') b) h.1
        ∙ sym (limit_offset-window limit' offset'),
  )
