-- ===== src/RawStatements/Scan.antt =====
-- Steps of the search of src/expr/statement.go: over a match, and over text without a mark.
use go_django_queries.Prelude.{
  ℕ, zero, suc, ◌+◌, Bool, true, false, Option, none, some, List, [], ◌∷◌, ◌++◌, map, Text, ◌==◌,
  length, All, ◌≡◌, refl, sym, ap, ◌∙◌, arith,
}
use go_django_queries.RawStatements.{
  Segment, plain, found, until_bracket, opens, bracketed, scan, groups, replace_found,
}

-- No closing bracket.
abbrev pub IsBracketed : Text → Type 0
IsBracketed name = All (λ c. c == b']' ≡ false) name

until_bracket-name :
    (name rest : Text) → IsBracketed name → until_bracket (name ++ (b']' ∷ rest)) ≡ some name
unfolding until_bracket
until_bracket-name [] rest h = refl
until_bracket-name (c ∷ name) rest h = rw (h.0, until_bracket-name name rest h.1) refl

scan-skipped :
    (regex : Text → Option Text) (u rest : Text) (n : ℕ)
    → length u ≡ n
    → scan regex n (u ++ rest) ≡ scan regex zero rest
unfolding scan
scan-skipped regex [] rest zero h = refl
scan-skipped regex [] rest (suc n) h = absurd (omega (arith, h))
scan-skipped regex (c ∷ u) rest zero h = absurd (omega (arith, h))
scan-skipped regex (c ∷ u) rest (suc n) h = scan-skipped regex u rest n (omega (arith, h))

length-name : (name : Text) → length (b'[' ∷ (name ++ (b']' ∷ []))) ≡ length name + 2
length-name [] = refl
length-name (c ∷ name) = omega (arith, length-name name)

append-bracket : (name rest : Text) → name ++ (b']' ∷ rest) ≡ (name ++ (b']' ∷ [])) ++ rest
append-bracket [] rest = refl
append-bracket (c ∷ name) rest = ap (λ s. c ∷ s) (append-bracket name rest)

-- A mark with brackets.
abbrev pub marked : ℕ → Text → Text
marked mark name = mark ∷ b'[' ∷ (name ++ (b']' ∷ []))

module _ (mark : ℕ) (accepts : Text → Bool) where
  bracketed-none : (s : Text) → opens mark s ≡ false → bracketed mark accepts s ≡ none
  unfolding bracketed
  bracketed-none s h = rw h refl

  bracketed-name :
      (name rest : Text)
      → accepts name ≡ true
      → IsBracketed name
      → bracketed mark accepts (marked mark name ++ rest) ≡ some name
  unfolding bracketed
  bracketed-name name rest h k =
      let same : until_bracket ((name ++ (b']' ∷ [])) ++ rest) ≡ some name =
        ap until_bracket (sym (append-bracket name rest)) ∙ until_bracket-name name rest k in
      let begins : opens mark (marked mark name ++ rest) ≡ true = ground arith in
      rw (begins, same, h) refl

  pub scan-plain :
      (c : ℕ) (rest : Text)
      → opens mark (c ∷ rest) ≡ false
      → scan (bracketed mark accepts) zero (c ∷ rest)
        ≡ plain c ∷ scan (bracketed mark accepts) zero rest
  unfolding scan
  scan-plain c rest h = rw (bracketed-none (c ∷ rest) h, scan) refl

  opens-other : (c : ℕ) (rest : Text) → c == mark ≡ false → opens mark (c ∷ rest) ≡ false
  opens-other c [] h = refl
  opens-other c (d ∷ rest) h = rw h refl

  -- Text without the mark.
  pub scan-unmarked :
      (u rest : Text)
      → All (λ c. c == mark ≡ false) u
      → scan (bracketed mark accepts) zero (u ++ rest)
        ≡ map plain u ++ scan (bracketed mark accepts) zero rest
  scan-unmarked [] rest h = refl
  scan-unmarked (c ∷ u) rest h =
      scan-plain c (u ++ rest) (opens-other c (u ++ rest) h.0)
      ∙ ap (λ s. plain c ∷ s) (scan-unmarked u rest h.1)

  pub scan-marked :
      (name rest : Text)
      → accepts name ≡ true
      → IsBracketed name
      → scan (bracketed mark accepts) zero (marked mark name ++ rest)
        ≡ found name ∷ scan (bracketed mark accepts) zero rest
  unfolding scan
  scan-marked name rest h k =
      rw (bracketed-name name rest h k, scan)
        (ap (λ s. found name ∷ s)
          (scan-skipped (bracketed mark accepts) (b'[' ∷ (name ++ (b']' ∷ []))) rest
            (length name + 2) (length-name name)))

pub groups-plain : (u : Text) (rest : List Segment) → groups (map plain u ++ rest) ≡ groups rest
groups-plain [] rest = refl
groups-plain (c ∷ u) rest = groups-plain u rest

pub replace_found-plain :
    (new u : Text) (rest : List Segment)
    → replace_found new (map plain u ++ rest) ≡ u ++ replace_found new rest
replace_found-plain new [] rest = refl
replace_found-plain new (c ∷ u) rest = ap (λ s. c ∷ s) (replace_found-plain new u rest)
