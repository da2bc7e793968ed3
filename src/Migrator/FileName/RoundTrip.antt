-- ===== src/Migrator/FileName/RoundTrip.antt =====
-- generateMigrationFileName and parseMigrationFileName of src/migrator/engine_utils.go together.
use go_django_queries.Prelude.{
  ℕ, zero, suc, ◌-◌, ◌^◌, ◌<◌, ◌≡◌, ◌≢◌, refl, subst, true, false, some, [], ◌∷◌, ◌++◌, Text, codes,
  ◌==◌, text_eq_refl, if◌then◌else◌, length, Result, ok, arith, Bool-cases, All, >>=-eq-ok, inl,
  inr,
}
use go_django_queries.Prelude.Int.{ℤ, pos}
use go_django_queries.Prelude.Decimal.{
  itoa, read_digits, read_digits-itoa, itoa-IsDigits, is_digit, IsDigits, itoa-ne_nil,
}
use go_django_queries.Migrator.Types.{MigrationFile, EngineError}
use go_django_queries.Migrator.FileName.{
  cut, has_suffix, positive, atoi, zeros, format_order, describe_all, generate_migration_file_name,
  parse_order, parse_stem, parse_migration_file_name,
}

-- What stands before the first `sep`, or the whole text.
unfoldable pub before : ℕ → Text → Text
before sep [] = []
before sep (c ∷ s) = if c == sep then [] else c ∷ before sep s

pub cut-append :
    (sep : ℕ) (s t : Text) → All (λ c. c ≢ sep) s → cut sep (s ++ (sep ∷ t)) ≡ some (s, t)
unfolding cut
cut-append sep [] t h = ground arith
cut-append sep (c ∷ s) t h = ground (arith, cut-append sep s t h.1)

-- A cut behind a text that the separator does not stand in.
cut-append_left :
    (sep : ℕ) (s t : Text) {a b : Text}
    → All (λ c. c ≢ sep) s
    → cut sep t ≡ some (a, b)
    → cut sep (s ++ t) ≡ some (s ++ a, b)
unfolding cut
cut-append_left sep [] t h e = e
cut-append_left sep (c ∷ s) t h e = ground (arith, cut-append_left sep s t h.1 e)

has_suffix_self : (s : Text) → has_suffix s s ≡ true
unfolding has_suffix
has_suffix_self [] = refl
has_suffix_self (c ∷ s) = rw (text_eq_refl (c ∷ s), has_suffix)

has_suffix-append_cons : (s : Text) (c : ℕ) (t : Text) → has_suffix (s ++ (c ∷ t)) t ≡ true
unfolding has_suffix
has_suffix-append_cons [] c t = ground (arith, has_suffix_self t)
has_suffix-append_cons (d ∷ s) c t = ground (arith, has_suffix-append_cons s c t)

-- The first `sep` of `s ++ sep ∷ t` cuts it before `t`, so the rest ends in `t`.
cut-before :
    (sep : ℕ) (s t : Text)
    → (rest : Text) × (cut sep (s ++ (sep ∷ t)) ≡ some (before sep s, rest))
      × (has_suffix rest t ≡ true)
unfolding cut before
cut-before sep [] t = (t, ground arith, has_suffix_self t)
cut-before sep (c ∷ s) t = elim (Bool-cases (c == sep)) [
  | inl e ↦ (s ++ (sep ∷ t), rw (e, cut), has_suffix-append_cons s sep t)
  | inr ne ↦ let (rest, e, suffix) = cut-before sep s t in (rest, ground arith, suffix)
]

not_digit : (c sep : ℕ) → is_digit c ≡ true → is_digit sep ≡ false → c ≢ sep
not_digit c sep h k = ground arith

IsDigits-avoid : (s : Text) (sep : ℕ) → IsDigits s → is_digit sep ≡ false → All (λ c. c ≢ sep) s
IsDigits-avoid [] sep h k = tt
IsDigits-avoid (c ∷ s) sep h k = (not_digit c sep h.0 k, IsDigits-avoid s sep h.1 k)

zeros-IsDigits : (n : ℕ) (s : Text) → IsDigits s → IsDigits (zeros n s)
unfolding zeros is_digit
zeros-IsDigits zero s h = h
zeros-IsDigits (suc n) s h = (refl, zeros-IsDigits n s h)

read_digits-zeros : (n : ℕ) (s : Text) → read_digits 0 (zeros n s) ≡ read_digits 0 s
unfolding zeros read_digits
read_digits-zeros zero s = refl
read_digits-zeros (suc n) s = read_digits-zeros n s

-- Atoi on a non-empty run of digits.
atoi-digits : (s : Text) (n : ℕ) → IsDigits s → s ≢ [] → atoi s ≡ positive (read_digits 0 s)
unfolding atoi is_digit
atoi-digits [] n h k = absurd (k refl)
atoi-digits (c ∷ s) n h k = ground arith

format_order-IsDigits : (n : ℕ) → IsDigits (format_order (pos n))
unfolding format_order
format_order-IsDigits n = zeros-IsDigits _ _ (itoa-IsDigits n)

zeros-ne_nil : (w : ℕ) (s : Text) → s ≢ [] → zeros w s ≢ []
unfolding zeros
zeros-ne_nil zero s h = h
zeros-ne_nil (suc w) s h = λ e. cc

atoi-format_order : (n : ℕ) → n < 2 ^ 63 → atoi (format_order (pos n)) ≡ some (pos n)
unfolding format_order positive
atoi-format_order n h =
    rw
      (atoi-digits (format_order (pos n)) n (format_order-IsDigits n)
        (zeros-ne_nil _ _ (itoa-ne_nil n)))
      (rw (read_digits-zeros (4 - length (itoa n)) (itoa n), read_digits-itoa n) (ground arith))

format_order-avoids : (n sep : ℕ) → is_digit sep ≡ false → All (λ c. c ≢ sep) (format_order (pos n))
format_order-avoids n sep = IsDigits-avoid (format_order (pos n)) sep (format_order-IsDigits n)

-- Cutting a generated name at its first dot, and what stands before it at the first underscore.
cut-written :
    (n : ℕ) (body : Text)
    → (rest : Text) × (cut b'.' (format_order (pos n) ++ (b'_' ∷ (body ++ codes ".mig")))
        ≡ some (format_order (pos n) ++ (b'_' ∷ before b'.' body), rest))
      × (has_suffix rest (codes "mig") ≡ true)
cut-written n body =
    let (rest, e, suffix) = cut-before b'.' body (codes "mig") in
    (
      rest,
      cut-append_left b'.' (format_order (pos n)) (b'_' ∷ (body ++ codes ".mig"))
          (format_order-avoids n b'.' (unfold is_digit in refl))
          (cut-append_left b'.' (b'_' ∷ []) (body ++ codes ".mig") (omega arith, tt) e),
      suffix,
    )

parse-text :
    (n : ℕ) (body : Text)
    → n < 2 ^ 63
    → parse_migration_file_name (format_order (pos n) ++ (b'_' ∷ (body ++ codes ".mig")))
      ≡ ok (pos n, before b'.' body)
unfolding parse_migration_file_name
parse-text n body h =
    let (rest, e, suffix) = cut-written n body in
    let at_underscore =
      cut-append b'_' (format_order (pos n)) (before b'.' body)
        (format_order-avoids n b'_' (unfold is_digit in refl)) in
    let read = atoi-format_order n h in
    rw (e, parse_stem) (rw (suffix, at_underscore) (rw (read, parse_order) refl))

parse-written :
    (order : ℤ) (n : ℕ) (s body : Text)
    → order ≡ pos n
    → n < 2 ^ 63
    → ◌≡◌ {A = Result EngineError Text}
        (ok (format_order order ++ (b'_' ∷ (body ++ codes ".mig"))))
        (ok s)
    → parse_migration_file_name s ≡ ok (pos n, before b'.' body)
parse-written order n s body o h e =
    subst (λ t. parse_migration_file_name t ≡ ok (pos n, before b'.' body)) same
      (parse-text n body h)
  where
    same : format_order (pos n) ++ (b'_' ∷ (body ++ codes ".mig")) ≡ s
    same = cc

module _ {V : Type 0} where
  -- A generated name reads back as the order of the file and what the name says up to its first
  -- dot, for every order in the range of an int that is not negative.
  pub parse-generate :
      (mig : MigrationFile V) (n : ℕ) {s : Text}
      → mig.order ≡ pos n
      → n < 2 ^ 63
      → generate_migration_file_name mig ≡ ok s
      → (body : Text) × (describe_all mig.actions ≡ ok body)
        × (parse_migration_file_name s ≡ ok (pos n, before b'.' body))
  unfolding generate_migration_file_name
  parse-generate mig n {s} o h e =
      let (body, described, written) = >>=-eq-ok (describe_all mig.actions) _ e in
      (body, described, parse-written mig.order n s body o h written)
