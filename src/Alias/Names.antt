-- ===== src/Alias/Names.antt =====
-- The numbers in the table aliases of src/alias/alias.go.
use go_django_queries.Prelude.{
  ℕ, zero, suc, some, List, [], ◌∷◌, ◌++◌, Text, if◌then◌else◌, ◌≡◌, refl, sym, ap, ◌∙◌,
}
use go_django_queries.Prelude.Decimal.{
  is_digit, IsDigits, itoa-IsDigits, read_digits, read_digits-itoa, itoa-ne_nil,
}
use go_django_queries.Alias.{number, suffix, table_alias, with_underscore}

append-cancel_left : {A : Type 0} (p a b : List A) → p ++ a ≡ p ++ b → a ≡ b
append-cancel_left [] a b h = h
append-cancel_left (x ∷ p) a b h = append-cancel_left p a b (let e = h in cc)

-- The digits that a text begins with.
unfoldable leading_digits : Text → Text
leading_digits [] = []
leading_digits (c ∷ s) = let rest = leading_digits s in if is_digit c then c ∷ rest else []

leading_digits-append :
    (d : Text) (table : Text) → IsDigits d → leading_digits (d ++ suffix table) ≡ d
unfolding leading_digits is_digit
leading_digits-append [] [] h = refl
leading_digits-append [] (c ∷ s) h = refl
leading_digits-append (c ∷ d) table h = rw h.0 (ap (λ l. c ∷ l) (leading_digits-append d table h.1))

number-IsDigits : (n : ℕ) → IsDigits (number n)
number-IsDigits zero = tt
number-IsDigits (suc n) = itoa-IsDigits (suc n)

number-injective : (n m : ℕ) → number n ≡ number m → n ≡ m
number-injective zero zero h = refl
number-injective zero (suc m) h = absurd (itoa-ne_nil (suc m) (sym h))
number-injective (suc n) zero h = absurd (itoa-ne_nil (suc n) h)
number-injective (suc n) (suc m) h =
    let same : some (suc n) ≡ some (suc m) =
      sym (read_digits-itoa (suc n)) ∙ ap (read_digits 0) h ∙ read_digits-itoa (suc m) in
    cc

-- Aliases with distinct numbers differ, whatever the tables.
pub table_alias-injective :
    (prefix : Text) (n m : ℕ) (s t : Text) → table_alias prefix n s ≡ table_alias prefix m t → n ≡ m
unfolding table_alias
table_alias-injective prefix n m s t h =
    let tails : number n ++ suffix s ≡ number m ++ suffix t =
      append-cancel_left (b'T' ∷ []) _ _ (append-cancel_left (with_underscore prefix) _ _ h) in
    number-injective n m (
      sym (leading_digits-append (number n) s (number-IsDigits n))
      ∙ ap leading_digits tails
      ∙ leading_digits-append (number m) t (number-IsDigits m))
