-- ===== src/RawStatements/Formatted.antt =====
-- The two calls of Sprintf in SQL of src/expr/statement.go, on the pieces of a statement.
use mathlib.Core.List.{append_assoc}
use go_django_queries.Prelude.{
  ℕ, false, Option, none, some, List, [], ◌∷◌, ◌++◌, map, Text, codes, if◌then◌else◌, ◌==◌, All,
  ◌≡◌, refl, sym, ap, ◌∙◌, arith, Bool-cases, inl, inr,
}
use go_django_queries.RawStatements.{sprintf}
use go_django_queries.RawStatements.Pieces.{
  Piece, literal, field, table, value, build, single, fourfold,
}

-- No percent sign.
abbrev pub IsPercentless : Text → Type 0
IsPercentless s = All (λ c. c == b'%' ≡ false) s

abbrev pub before : Text → Option Text → Option Text
before u none = none
before u (some t) = some (u ++ t)

sprintf-byte :
    (c : ℕ) (rest : Text) (xs : List Text)
    → c == b'%' ≡ false
    → sprintf (c ∷ rest) xs ≡ before (c ∷ []) (sprintf rest xs)
unfolding sprintf
sprintf-byte c [] xs h = rw h refl
sprintf-byte c (d ∷ rest) [] h = rw h refl
sprintf-byte c (d ∷ rest) (x ∷ xs) h = rw h refl

sprintf-percent :
    (rest : Text) (xs : List Text)
    → sprintf (b'%' ∷ b'%' ∷ rest) xs ≡ before (b'%' ∷ []) (sprintf rest xs)
unfolding sprintf
sprintf-percent rest [] = refl
sprintf-percent rest (x ∷ xs) = refl

before-empty : (o : Option Text) → before [] o ≡ o
before-empty none = refl
before-empty (some t) = refl

before-before : (u v : Text) (o : Option Text) → before u (before v o) ≡ before (u ++ v) o
before-before u v none = refl
before-before u v (some t) = ap some (sym (append_assoc u v t))

sprintf-percentless :
    (u rest : Text) (xs : List Text)
    → IsPercentless u
    → sprintf (u ++ rest) xs ≡ before u (sprintf rest xs)
sprintf-percentless [] rest xs h = sym (before-empty (sprintf rest xs))
sprintf-percentless (c ∷ u) rest xs h =
    sprintf-byte c (u ++ rest) xs h.0
    ∙ (ap (before (c ∷ [])) (sprintf-percentless u rest xs h.1) ∙ before-before (c ∷ []) u _)

-- A percent sign that is written twice.
abbrev pub twofold : ℕ → Text
twofold c = if c == b'%' then codes "%%" else c ∷ []

sprintf-fourfold :
    (c : ℕ) (rest : Text) (xs : List Text)
    → sprintf (fourfold c ++ rest) xs ≡ before (twofold c) (sprintf rest xs)
sprintf-fourfold c rest xs = elim (Bool-cases (c == b'%')) [
  | inl percent ↦ rw percent (
      sprintf-percent (b'%' ∷ b'%' ∷ rest) xs
      ∙ (ap (before (b'%' ∷ [])) (sprintf-percent rest xs)
          ∙ before-before (b'%' ∷ []) (b'%' ∷ []) _))
  | inr other ↦ rw other (sprintf-byte c rest xs other)
]

sprintf-twofold :
    (c : ℕ) (rest : Text) (xs : List Text)
    → sprintf (twofold c ++ rest) xs ≡ before (single c) (sprintf rest xs)
sprintf-twofold c rest xs = elim (Bool-cases (c == b'%')) [
  | inl percent ↦
      let e : c ≡ b'%' = ground arith in
      rw percent (sprintf-percent rest xs ∙ ap (λ d. before (single d) (sprintf rest xs)) (sym e))
  | inr other ↦ rw other (sprintf-byte c rest xs other)
]

sprintf-operand :
    (rest x : Text) (xs : List Text)
    → sprintf (codes "%s" ++ rest) (x ∷ xs) ≡ before x (sprintf rest xs)
unfolding sprintf
sprintf-operand rest x xs = refl

-- The fields and the tables that the pieces name.
unfoldable pub field_names : List Piece → List Text
unfolding build
field_names ps = build (λ c. []) (λ name. name ∷ []) (λ name. []) (λ n. []) ps

unfoldable pub table_names : List Piece → List Text
unfolding build
table_names ps = build (λ c. []) (λ name. []) (λ name. name ∷ []) (λ n. []) ps

abbrev pub question : ℕ → Text
question n = codes "?"

abbrev pub operand : Text → Text
operand name = codes "%s"

-- What the pieces stand for: a byte for itself, a value for a placeholder.
unfoldable pub meaning : (Text → Text) → (Text → Text) → List Piece → Text
unfolding build
meaning f t ps = build single f t question ps

-- The statement behind the four replacements.
unfoldable pub template : List Piece → Text
unfolding build
template ps = build fourfold operand (λ name. codes "%%s") question ps

module _ (f t : Text → Text) where
  -- The text between the two calls of Sprintf.
  abbrev pub half_done : List Piece → Text
  half_done ps = build twofold f operand question ps

  pub sprintf-fields :
      (ps : List Piece) → sprintf (template ps) (map f (field_names ps)) ≡ some (half_done ps)
  unfolding build field_names sprintf template
  sprintf-fields [] = refl
  sprintf-fields (literal c ∷ ps) =
      sprintf-fourfold c _ (map f (field_names ps)) ∙ ap (before (twofold c)) (sprintf-fields ps)
  sprintf-fields (field name ∷ ps) =
      sprintf-operand (template ps) (f name) (map f (field_names ps))
      ∙ ap (before (f name)) (sprintf-fields ps)
  sprintf-fields (table name ∷ ps) =
      sprintf-percent (b's' ∷ template ps) (map f (field_names ps))
      ∙ (ap (before (b'%' ∷ [])) (
          sprintf-byte b's' (template ps) (map f (field_names ps)) refl
          ∙ ap (before (b's' ∷ [])) (sprintf-fields ps)))
  sprintf-fields (value n ∷ ps) =
      sprintf-byte b'?' (template ps) (map f (field_names ps)) refl
      ∙ ap (before (b'?' ∷ [])) (sprintf-fields ps)

  pub sprintf-tables :
      (ps : List Piece)
      → All (λ name. IsPercentless (f name)) (field_names ps)
      → sprintf (half_done ps) (map t (table_names ps)) ≡ some (meaning f t ps)
  unfolding build field_names table_names meaning sprintf
  sprintf-tables [] h = refl
  sprintf-tables (literal c ∷ ps) h =
      sprintf-twofold c _ (map t (table_names ps)) ∙ ap (before (single c)) (sprintf-tables ps h)
  sprintf-tables (field name ∷ ps) h =
      sprintf-percentless (f name) _ (map t (table_names ps)) h.0
      ∙ ap (before (f name)) (sprintf-tables ps h.1)
  sprintf-tables (table name ∷ ps) h =
      sprintf-operand (half_done ps) (t name) (map t (table_names ps))
      ∙ ap (before (t name)) (sprintf-tables ps h)
  sprintf-tables (value n ∷ ps) h =
      sprintf-byte b'?' _ (map t (table_names ps)) refl
      ∙ ap (before (b'?' ∷ [])) (sprintf-tables ps h)
