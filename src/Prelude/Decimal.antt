-- ===== src/Prelude/Decimal.antt =====
-- Decimal numerals: strconv.Itoa on a natural number, and the digits that strconv.Atoi reads.
use Prim.Native.Nat.{ℕ, zero, suc, ◌+◌, ◌-◌, ◌*◌, ◌/◌, ◌%◌, ◌≤◌}
use mathlib.Core.Path.{◌≡◌, ◌∙◌}
use mathlib.Core.Logic.{◌≢◌, inl, inr}
use mathlib.Core.Bool.{Bool, true, ◌&&◌}
use mathlib.Core.Option.{Option, none, some}
use mathlib.Core.List.{[], ◌∷◌}
use native.Mathlib.Omega.{arith}
use go_django_queries.Prelude.Tests.{ltb, leb, if◌then◌else◌, Bool-cases}
use go_django_queries.Prelude.Lists.{All}
use go_django_queries.Prelude.Texts.{Text}

unfoldable pub is_digit : ℕ → Bool
is_digit c = leb b'0' c && leb c b'9'

-- The digits of `n` before `rest`, most significant first.
unfoldable pub digits : ℕ → ℕ → Text → Text
digits zero n rest = (48 + n % 10) ∷ rest
digits (suc f) n rest =
    let more = digits f (n / 10) ((48 + n % 10) ∷ rest) in
    if ltb n 10 then (48 + n % 10) ∷ rest else more

unfoldable pub itoa : ℕ → Text
unfolding digits
itoa n = digits n n []

-- The value of a run of digits after `acc`; none at any other byte.
unfoldable pub read_digits : ℕ → Text → Option ℕ
unfolding is_digit
read_digits acc [] = some acc
read_digits acc (c ∷ s) =
    let rest = read_digits (acc * 10 + (c - 48)) s in if is_digit c then rest else none

abbrev pub IsDigits : Text → Type 0
IsDigits = All (λ c. is_digit c ≡ true)

digit-IsDigits : (n : ℕ) → is_digit (48 + n % 10) ≡ true
unfolding is_digit
digit-IsDigits n = ground arith

pub digits-IsDigits : (f n : ℕ) (rest : Text) → IsDigits rest → IsDigits (digits f n rest)
unfolding digits
digits-IsDigits zero n rest h = (digit-IsDigits n, h)
digits-IsDigits (suc f) n rest h = elim (Bool-cases (ltb n 10)) [
  | inl small ↦ rw small (digit-IsDigits n, h)
  | inr big ↦ rw big (digits-IsDigits f (n / 10) _ (digit-IsDigits n, h))
]

pub itoa-IsDigits : (n : ℕ) → IsDigits (itoa n)
unfolding itoa
itoa-IsDigits n = digits-IsDigits n n [] tt

-- Reading what `digits` wrote gives the number back, whatever was before it was read as 0.
read_digits-digits :
    (f n : ℕ) (rest : Text) → n ≤ f → read_digits 0 (digits f n rest) ≡ read_digits n rest
unfolding digits read_digits
read_digits-digits zero n rest h = ground arith
read_digits-digits (suc f) n rest h = elim (Bool-cases (ltb n 10)) [
  | inl small ↦ rw small (ground arith)
  | inr big ↦ rw big (read_digits-digits f (n / 10) _ (ground arith) ∙ ground arith)
]

pub read_digits-itoa : (n : ℕ) → read_digits 0 (itoa n) ≡ some n
unfolding itoa read_digits
read_digits-itoa n = read_digits-digits n n [] (omega arith)

digits-ne_nil : (f n : ℕ) (rest : Text) → digits f n rest ≢ []
unfolding digits
digits-ne_nil zero n rest = λ e. cc
digits-ne_nil (suc f) n rest = elim (Bool-cases (ltb n 10)) [
  | inl small ↦ rw small (λ e. cc)
  | inr big ↦ rw big (digits-ne_nil f (n / 10) _)
]

pub itoa-ne_nil : (n : ℕ) → itoa n ≢ []
unfolding itoa
itoa-ne_nil n = digits-ne_nil n n []
