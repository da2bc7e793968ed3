-- ===== src/Compiler/Like.antt =====
-- PrepForLikeQuery of src/queryset_compiler_generic.go, on the text of its value. `driver` is the
-- name that sqlx knows.
use mathlib.Core.List.{append_assoc, append-nil}
use go_django_queries.Prelude.{
  ℕ, Bool, true, false, ◌&&◌, ◌||◌, Option, none, some, List, [], ◌∷◌, ◌++◌, Text, codes, text_eq,
  if◌then◌else◌, ◌==◌, ◌≡◌, refl, sym, ap, ◌∙◌, arith, All, map, Bool-cases, inl, inr, subst,
}

pub data DriverName : Type 0 where
  mysql mariadb postgres pgx sqlite3 unknown : DriverName

-- strings.ReplaceAll of one byte.
unfoldable pub replace_all : Text → ℕ → Text → Text
replace_all [] c new = []
replace_all (d ∷ s) c new =
    let rest = replace_all s c new in if d == c then new ++ rest else d ∷ rest

-- The escapes of a value.
unfoldable pub escape_like : Text → Text
unfolding replace_all
escape_like v = replace_all (replace_all v b'%' (codes "\\%")) b'_' (codes "\\_")

-- PrepForLikeQuery; none is a panic.
unfoldable pub prep_for_like_query : DriverName → Text → Option Text
unfolding escape_like
prep_for_like_query unknown v = none
prep_for_like_query _ v = some (escape_like v)

-- A LIKE pattern whose escape is the backslash, read as in the SQL standard: a percent sign stands
-- for any text, an underscore for any byte, and an escaped byte for itself.
pub data Piece : Type 0 where
  any_text any_byte : Piece
  byte : ℕ → Piece

abbrev pub classify : ℕ → Piece
classify c = if c == b'%' then any_text else if c == b'_' then any_byte else byte c

unfoldable pub pieces : Text → List Piece
pieces [] = []
pieces (c ∷ []) = classify c ∷ []
pieces (c ∷ d ∷ s) =
    let escaped = pieces s in
    let plain = pieces (d ∷ s) in if c == b'\\' then byte d ∷ escaped else classify c ∷ plain

unfoldable pub some_suffix : (Text → Bool) → Text → Bool
some_suffix p [] = p []
some_suffix p (c ∷ s) = p (c ∷ s) || some_suffix p s

unfoldable pub matches : List Piece → Text → Bool
unfolding some_suffix
matches [] [] = true
matches [] (d ∷ s) = false
matches (any_text ∷ ps) s = some_suffix (matches ps) s
matches (any_byte ∷ ps) [] = false
matches (any_byte ∷ ps) (d ∷ s) = matches ps s
matches (byte c ∷ ps) [] = false
matches (byte c ∷ ps) (d ∷ s) = c == d && matches ps s

unfoldable pub like : Text → Text → Bool
unfolding matches pieces
like pattern s = matches (pieces pattern) s

-- No backslash.
abbrev pub IsUnescaped : Text → Type 0
IsUnescaped v = All (λ c. c == b'\\' ≡ false) v

pieces-plain : (c : ℕ) (t : Text) → c == b'\\' ≡ false → pieces (c ∷ t) ≡ classify c ∷ pieces t
unfolding pieces
pieces-plain c [] h = refl
pieces-plain c (d ∷ t) h = rw h refl

escape_byte : ℕ → Text
escape_byte c = if c == b'%' || c == b'_' then b'\\' ∷ c ∷ [] else c ∷ []

escape_like-cons : (c : ℕ) (v : Text) → escape_like (c ∷ v) ≡ escape_byte c ++ escape_like v
unfolding escape_like replace_all escape_byte
escape_like-cons c v = elim (Bool-cases (c == b'%')) [
  | inl percent ↦ let same : c ≡ b'%' = ground arith in rw same refl
  | inr other ↦ elim (Bool-cases (c == b'_')) [
    | inl underscore ↦ let same : c ≡ b'_' = ground arith in rw same refl
    | inr plain ↦ rw (other, plain) refl
  ]
]

pieces-escape_byte :
    (c : ℕ) (t : Text) → c == b'\\' ≡ false → pieces (escape_byte c ++ t) ≡ byte c ∷ pieces t
unfolding escape_byte pieces
pieces-escape_byte c t h = elim (Bool-cases (c == b'%')) [
  | inl percent ↦ let same : c ≡ b'%' = ground arith in rw same refl
  | inr other ↦ elim (Bool-cases (c == b'_')) [
    | inl underscore ↦ let same : c ≡ b'_' = ground arith in rw same refl
    | inr plain ↦ rw (other, plain) (rw (other, plain) at (pieces-plain c t h))
  ]
]

-- An escaped value is read as its bytes, whatever follows.
pieces-escape_like :
    (v t : Text) → IsUnescaped v → pieces (escape_like v ++ t) ≡ map byte v ++ pieces t
unfolding escape_like replace_all
pieces-escape_like [] t h = refl
pieces-escape_like (c ∷ v) t h = rw (escape_like-cons c v) (
    ap pieces (append_assoc (escape_byte c) (escape_like v) t)
    ∙ (pieces-escape_byte c (escape_like v ++ t) h.0
        ∙ ap (λ ps. byte c ∷ ps) (pieces-escape_like v t h.1)))

-- strings.HasPrefix with what is behind, and strings.Contains.
unfoldable pub starts_with : Text → (Text → Bool) → Text → Bool
starts_with [] behind s = behind s
starts_with (c ∷ v) behind [] = false
starts_with (c ∷ v) behind (d ∷ s) = c == d && starts_with v behind s

matches-bytes :
    (v : Text) (ps : List Piece) (s : Text)
    → matches (map byte v ++ ps) s ≡ starts_with v (matches ps) s
unfolding matches starts_with
matches-bytes [] ps s = refl
matches-bytes (c ∷ v) ps [] = refl
matches-bytes (c ∷ v) ps (d ∷ s) = ap (λ b. c == d && b) (matches-bytes v ps s)

starts_with-cong :
    (v : Text) (p r : Text → Bool)
    → ((s : Text) → p s ≡ r s)
    → (s : Text) → starts_with v p s ≡ starts_with v r s
unfolding starts_with
starts_with-cong [] p r h s = h s
starts_with-cong (c ∷ v) p r h [] = refl
starts_with-cong (c ∷ v) p r h (d ∷ s) = ap (λ b. c == d && b) (starts_with-cong v p r h s)

some_suffix-cong :
    (p r : Text → Bool) → ((s : Text) → p s ≡ r s) → (s : Text) → some_suffix p s ≡ some_suffix r s
unfolding some_suffix
some_suffix-cong p r h [] = h []
some_suffix-cong p r h (c ∷ s) = rw (h (c ∷ s), some_suffix-cong p r h s) refl

-- A percent sign at the end.
matches-any_text : (s : Text) → matches (any_text ∷ []) s ≡ true
unfolding matches some_suffix
matches-any_text [] = refl
matches-any_text (c ∷ s) = matches-any_text s

starts_with-end : (v s : Text) → starts_with v (matches []) s ≡ text_eq v s
unfolding starts_with matches text_eq
starts_with-end [] [] = refl
starts_with-end [] (d ∷ s) = refl
starts_with-end (c ∷ v) [] = refl
starts_with-end (c ∷ v) (d ∷ s) = ap (λ b. c == d && b) (starts_with-end v s)

-- strings.HasPrefix, and strings.Contains.
unfoldable pub has_prefix : Text → Text → Bool
unfolding starts_with
has_prefix v s = starts_with v (λ rest. true) s

unfoldable pub contains : Text → Text → Bool
unfolding some_suffix
contains v s = some_suffix (has_prefix v) s

like-prefix :
    (v : Text) → IsUnescaped v → (s : Text) → like (escape_like v ++ codes "%") s ≡ has_prefix v s
unfolding like pieces has_prefix
like-prefix v h s =
    ap (λ ps. matches ps s) (pieces-escape_like v (codes "%") h)
    ∙ (matches-bytes v (any_text ∷ []) s
        ∙ starts_with-cong v (matches (any_text ∷ [])) (λ rest. true) matches-any_text s)

like-exact : (v : Text) → IsUnescaped v → (s : Text) → like (escape_like v) s ≡ text_eq v s
unfolding like pieces
like-exact v h s =
    ap (λ p. matches (pieces p) s) (sym (append-nil (escape_like v)))
    ∙ (ap (λ ps. matches ps s) (pieces-escape_like v [] h)
        ∙ (matches-bytes v [] s ∙ starts_with-end v s))

like-contains :
    (v : Text)
    → IsUnescaped v
    → (s : Text) → like (codes "%" ++ (escape_like v ++ codes "%")) s ≡ contains v s
unfolding like matches contains
like-contains v h s =
    ap (λ ps. matches ps s) (pieces-plain b'%' (escape_like v ++ codes "%") refl)
    ∙ some_suffix-cong (like (escape_like v ++ codes "%")) (has_prefix v) (like-prefix v h) s

prep_for_like_query-known :
    (driver : DriverName) (v pattern : Text)
    → prep_for_like_query driver v ≡ some pattern
    → escape_like v ≡ pattern
unfolding prep_for_like_query
prep_for_like_query-known unknown v pattern h = absurd (cc)
prep_for_like_query-known _ v pattern h = cc

-- With a value without a backslash, on each known driver, what PrepForLikeQuery returns is a pattern,
-- escaped by the backslash, that matches the value alone; with a percent sign behind it, the texts
-- that begin with the value; and with one on both sides, the texts that contain it.
pub prep_for_like_query-exact :
    (driver : DriverName) (v pattern s : Text)
    → IsUnescaped v
    → prep_for_like_query driver v ≡ some pattern
    → (like pattern s ≡ text_eq v s)
      × (like (pattern ++ codes "%") s ≡ has_prefix v s)
      × (like (codes "%" ++ (pattern ++ codes "%")) s ≡ contains v s)
prep_for_like_query-exact driver v pattern s h e =
    subst
      (λ p.
        (like p s ≡ text_eq v s)
        × (like (p ++ codes "%") s ≡ has_prefix v s)
        × (like (codes "%" ++ (p ++ codes "%")) s ≡ contains v s))
      (prep_for_like_query-known driver v pattern e)
      (like-exact v h s, like-prefix v h s, like-contains v h s)
