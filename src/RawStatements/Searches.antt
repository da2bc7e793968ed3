-- ===== src/RawStatements/Searches.antt =====
-- The searches of src/expr/statement.go on the pieces of a statement.
use go_django_queries.Prelude.{
  ℕ, Bool, true, false, ◌&&◌, [], ◌∷◌, ◌++◌, map, Text, codes, ◌==◌, All, ◌≡◌, refl, ap, ◌∙◌, arith,
  Bool-cases, inl, inr,
}
use go_django_queries.Prelude.Decimal.{is_digit, IsDigits}
use go_django_queries.RawStatements.{
  plain, opens, bracketed, scan, groups, replace_found, find_all, replace_matches, all_digits,
  is_index,
}
use go_django_queries.RawStatements.Scan.{
  IsBracketed, marked, scan-plain, scan-unmarked, scan-marked, groups-plain, replace_found-plain,
}
use go_django_queries.RawStatements.Pieces.{
  is_mark, is_special, IsName, escaped, starts_bracket, Takes, TakesByte,
}

-- A text that has no mark for one of the searches.
abbrev pub IsUnmarked : ℕ → Text → Type 0
IsUnmarked mark u = All (λ c. c == mark ≡ false) u

opens-bracket :
    (mark c : ℕ) (rest : Text)
    → is_mark mark ≡ true
    → is_mark c && starts_bracket rest ≡ false
    → opens mark (c ∷ rest) ≡ false
opens-bracket mark c [] h k = refl
opens-bracket mark c (d ∷ rest) h k = elim (Bool-cases (c == mark)) [
  | inl same ↦
      let e : c ≡ mark = ground arith in
      let marked : is_mark c ≡ true = ap is_mark e ∙ h in
      let other : d == b'[' ≡ false = rw marked at k in rw (same, other) refl
  | inr other ↦ rw other refl
]

module _ (mark : ℕ) (accepts : Text → Bool) (h : is_mark mark ≡ true) where
  not-percent : b'%' == mark ≡ false
  not-percent = ground (arith, h)

  scan-byte :
      (escape : Bool) (c : ℕ) (rest : Text)
      → is_mark c && starts_bracket rest ≡ false
      → scan (bracketed mark accepts) 0 (escaped escape c ++ rest)
        ≡ map plain (escaped escape c) ++ scan (bracketed mark accepts) 0 rest
  scan-byte false c rest k = scan-plain mark accepts c rest (opens-bracket mark c rest h k)
  scan-byte true c rest k = elim (Bool-cases (c == b'%')) [
    | inl percent ↦ rw percent (
        scan-unmarked mark accepts (codes "%%%%") rest
          (not-percent, (not-percent, (not-percent, (not-percent, tt)))))
    | inr other ↦ rw other (scan-plain mark accepts c rest (opens-bracket mark c rest h k))
  ]

  pub find_all-byte :
      (escape : Bool) (c : ℕ)
      → TakesByte (find_all (bracketed mark accepts)) (escaped escape c) c []
  unfolding find_all
  find_all-byte escape c =
      λ rest k. ap groups (scan-byte escape c rest k) ∙ groups-plain (escaped escape c) _

  pub replace-byte :
      (new : Text) (escape : Bool) (c : ℕ)
      → TakesByte
          (replace_matches (bracketed mark accepts) new)
          (escaped escape c)
          c
          (escaped escape c)
  unfolding replace_matches
  replace-byte new escape c = λ rest k.
      ap (replace_found new) (scan-byte escape c rest k)
      ∙ replace_found-plain new (escaped escape c) _

module _ (mark : ℕ) (accepts : Text → Bool) where
  pub find_all-unmarked :
      (u : Text) → IsUnmarked mark u → Takes (find_all (bracketed mark accepts)) u []
  unfolding find_all
  find_all-unmarked u h = λ rest. ap groups (scan-unmarked mark accepts u rest h) ∙ groups-plain u _

  pub replace-unmarked :
      (new u : Text) → IsUnmarked mark u → Takes (replace_matches (bracketed mark accepts) new) u u
  unfolding replace_matches
  replace-unmarked new u h = λ rest.
      ap (replace_found new) (scan-unmarked mark accepts u rest h) ∙ replace_found-plain new u _

  pub find_all-marked :
      (name : Text)
      → accepts name ≡ true
      → IsBracketed name
      → Takes (find_all (bracketed mark accepts)) (marked mark name) (name ∷ [])
  unfolding find_all
  find_all-marked name h k = λ rest. ap groups (scan-marked mark accepts name rest h k)

  pub replace-marked :
      (new name : Text)
      → accepts name ≡ true
      → IsBracketed name
      → Takes (replace_matches (bracketed mark accepts) new) (marked mark name) new
  unfolding replace_matches
  replace-marked new name h k =
      λ rest. ap (replace_found new) (scan-marked mark accepts name rest h k)

-- No byte of a name, nor of its brackets, is another mark.
unmarked-bracket : (m : ℕ) → is_mark m ≡ true → b']' == m ≡ false
unmarked-bracket m h = ground (arith, h)

IsUnmarked-tail :
    (m : ℕ) (name : Text) → is_mark m ≡ true → IsName name → IsUnmarked m (name ++ (b']' ∷ []))
IsUnmarked-tail m [] h k = (unmarked-bracket m h, tt)
IsUnmarked-tail m (c ∷ name) h k =
    let e : c == m ≡ false = ground (arith, h, k.0) in (e, IsUnmarked-tail m name h k.1)

pub IsUnmarked-marked :
    (m mark : ℕ) (name : Text)
    → is_mark m ≡ true
    → mark == m ≡ false
    → IsName name
    → IsUnmarked m (marked mark name)
IsUnmarked-marked m mark name h other k =
    let e : b'[' == m ≡ false = ground (arith, h) in (other, (e, IsUnmarked-tail m name h k))

pub IsName-IsBracketed : (name : Text) → IsName name → IsBracketed name
IsName-IsBracketed [] h = tt
IsName-IsBracketed (c ∷ name) h =
    let e : c == b']' ≡ false = ground (arith, h.0) in (e, IsName-IsBracketed name h.1)

pub IsDigits-IsName : (s : Text) → IsDigits s → IsName s
unfolding is_digit
IsDigits-IsName [] h = tt
IsDigits-IsName (c ∷ s) h =
    let e : is_special c ≡ false = ground (arith, h.0) in (e, IsDigits-IsName s h.1)

all_digits-IsDigits : (s : Text) → IsDigits s → all_digits s ≡ true
all_digits-IsDigits [] h = refl
all_digits-IsDigits (c ∷ s) h = rw (h.0) (all_digits-IsDigits s h.1)

pub is_index-digits : (s : Text) → IsDigits s → ¬ (s ≡ []) → is_index s ≡ true
is_index-digits [] h k = absurd (k refl)
is_index-digits (c ∷ s) h k = all_digits-IsDigits s h.1
