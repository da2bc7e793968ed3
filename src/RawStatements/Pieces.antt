-- ===== src/RawStatements/Pieces.antt =====
-- Statements of src/expr/statement.go as lists of pieces, and what a search that goes piece by piece
-- does to them.
use go_django_queries.Prelude.{
  ℕ, Bool, true, false, ◌&&◌, ◌||◌, List, [], ◌∷◌, ◌++◌, Text, codes, if◌then◌else◌, ◌==◌, All, ◌≡◌,
  refl, ap, ◌∙◌, arith, Bool-cases, inl, inr,
}
use go_django_queries.Prelude.Decimal.{itoa}
use go_django_queries.RawStatements.Scan.{marked}

-- A byte, ![name], #[name], or ?[n].
pub data Piece : Type 0 where
  literal : ℕ → Piece
  field table : Text → Piece
  value : ℕ → Piece

abbrev pub is_mark : ℕ → Bool
is_mark c = c == b'!' || (c == b'#' || c == b'?')

abbrev pub is_special : ℕ → Bool
is_special c = is_mark c || (c == b'%' || c == b']')

-- A name without marks, percent signs and closing brackets.
abbrev pub IsName : Text → Type 0
IsName name = All (λ c. is_special c ≡ false) name

-- The text of the pieces, from that of each kind.
unfoldable pub build :
    {X : Type 0}
    → (ℕ → List X)
    → (Text → List X)
    → (Text → List X)
    → (ℕ → List X)
    → List Piece
    → List X
build l f t v [] = []
build l f t v (literal c ∷ ps) = l c ++ build l f t v ps
build l f t v (field name ∷ ps) = f name ++ build l f t v ps
build l f t v (table name ∷ ps) = t name ++ build l f t v ps
build l f t v (value n ∷ ps) = v n ++ build l f t v ps

abbrev pub single : ℕ → Text
single c = c ∷ []

abbrev pub value_text : ℕ → Text
value_text n = marked b'?' (itoa n)

-- The statement that is written with the pieces.
unfoldable pub print : List Piece → Text
unfolding build
print ps = build single (marked b'!') (marked b'#') value_text ps

abbrev pub begins_bracket : List Piece → Bool
begins_bracket [] = false
begins_bracket (literal c ∷ ps) = c == b'['
begins_bracket (field name ∷ ps) = false
begins_bracket (table name ∷ ps) = false
begins_bracket (value n ∷ ps) = false

-- Names are names, and no mark that stands for itself is before an opening bracket.
abbrev pub IsStatement : List Piece → Type 0
IsStatement [] = Unit {0}
IsStatement (literal c ∷ ps) = (is_mark c && begins_bracket ps ≡ false) × IsStatement ps
IsStatement (field name ∷ ps) = IsName name × IsStatement ps
IsStatement (table name ∷ ps) = IsName name × IsStatement ps
IsStatement (value n ∷ ps) = IsStatement ps

abbrev pub starts_bracket : Text → Bool
starts_bracket [] = false
starts_bracket (c ∷ s) = c == b'['

-- A percent sign that is written four times.
abbrev pub fourfold : ℕ → Text
fourfold c = if c == b'%' then codes "%%%%" else c ∷ []

abbrev pub escaped : Bool → ℕ → Text
escaped escape c = if escape then fourfold c else c ∷ []

starts_bracket-escaped :
    (escape : Bool) (c : ℕ) (rest : Text) → starts_bracket (escaped escape c ++ rest) ≡ c == b'['
starts_bracket-escaped false c rest = refl
starts_bracket-escaped true c rest = elim (Bool-cases (c == b'%')) [
  | inl percent ↦ rw percent (let other : c ≡ b'%' = ground arith in rw other refl)
  | inr other ↦ rw other refl
]

-- A text that no opening bracket begins, whatever is behind it.
abbrev pub IsClosed {ℓ} : {N : Type ℓ} → (N → Text) → Type ℓ
IsClosed {N = N} f = (x : N) (rest : Text) → starts_bracket (f x ++ rest) ≡ false

module _ (escape : Bool) (f t : Text → Text) (v : ℕ → Text) (f_closed : IsClosed f)
    (t_closed : IsClosed t) (v_closed : IsClosed v) where
  starts_bracket-build :
      (ps : List Piece) → starts_bracket (build (escaped escape) f t v ps) ≡ begins_bracket ps
  unfolding build
  starts_bracket-build [] = refl
  starts_bracket-build (literal c ∷ ps) = starts_bracket-escaped escape c _
  starts_bracket-build (field name ∷ ps) = f_closed name _
  starts_bracket-build (table name ∷ ps) = t_closed name _
  starts_bracket-build (value n ∷ ps) = v_closed n _

-- What `h` makes of a text before any other.
abbrev pub Takes : {X : Type 0} → (Text → List X) → Text → List X → Type 0
Takes h s out = (rest : Text) → h (s ++ rest) ≡ out ++ h rest

-- A byte that stands for itself.
abbrev pub TakesByte : {X : Type 0} → (Text → List X) → Text → ℕ → List X → Type 0
TakesByte h s c out =
    (rest : Text) → is_mark c && starts_bracket rest ≡ false → h (s ++ rest) ≡ out ++ h rest

module _ {X : Type 0} (h : Text → List X) (escape : Bool) (f t : Text → Text) (v : ℕ → Text)
    (f_closed : IsClosed f) (t_closed : IsClosed t) (v_closed : IsClosed v) (l_out : ℕ → List X)
    (f_out t_out : Text → List X) (v_out : ℕ → List X) (empty : h [] ≡ [])
    (takes_byte : (c : ℕ) → TakesByte h (escaped escape c) c (l_out c))
    (takes_field : (name : Text) → IsName name → Takes h (f name) (f_out name))
    (takes_table : (name : Text) → IsName name → Takes h (t name) (t_out name))
    (takes_value : (n : ℕ) → Takes h (v n) (v_out n)) where
  pub build-pieces :
      (ps : List Piece)
      → IsStatement ps
      → h (build (escaped escape) f t v ps) ≡ build l_out f_out t_out v_out ps
  unfolding build
  build-pieces [] k = empty
  build-pieces (literal c ∷ ps) k =
      takes_byte c _ (
        ap (λ b. is_mark c && b) (starts_bracket-build escape f t v f_closed t_closed v_closed ps)
        ∙ k.0)
      ∙ ap (λ s. l_out c ++ s) (build-pieces ps k.1)
  build-pieces (field name ∷ ps) k =
      takes_field name k.0 _ ∙ ap (λ s. f_out name ++ s) (build-pieces ps k.1)
  build-pieces (table name ∷ ps) k =
      takes_table name k.0 _ ∙ ap (λ s. t_out name ++ s) (build-pieces ps k.1)
  build-pieces (value n ∷ ps) k = takes_value n _ ∙ ap (λ s. v_out n ++ s) (build-pieces ps k)
