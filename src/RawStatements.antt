-- ===== src/RawStatements.antt =====
-- The raw statements of src/expr/statement.go and src/expr/expr_raw.go, on ASCII text with ![Field],
-- #[Table] and ?[1]: here are the searches of regular expressions, from left to right as in Go, and
-- the formats.
pub mod Statements
pub mod Scan
pub mod Searches
pub mod Pieces
pub mod Formatted
pub mod Stages
pub mod Parsed
pub mod Written
mod Tests
use go_django_queries.Prelude.{
  ℕ, zero, suc, ◌+◌, Bool, true, false, ◌&&◌, ◌||◌, not, Option, none, some, List, [], ◌∷◌, ◌++◌,
  map, Text, codes, is_empty, text_eq, if◌then◌else◌, ◌==◌, length,
}
use go_django_queries.Prelude.Decimal.{is_digit, read_digits}
use go_django_queries.Compiler.{Sql}
use go_django_queries.Compiler.Like.{replace_all}
use go_django_queries.Rows.Start.{get_elem?}

-- What a search finds in a text, from left to right: a byte that no match covers, or a match, of
-- which the group is kept.
pub data Segment : Type 0 where
  plain : ℕ → Segment
  found : Text → Segment

-- The bytes before the first closing bracket.
unfoldable pub until_bracket : Text → Option Text
until_bracket [] = none
until_bracket (c ∷ s) =
    let rest = until_bracket s in
    if c == b']' then some [] else elim rest [ none ↦ none | some name ↦ some (c ∷ name) ]

abbrev pub opens : ℕ → Text → Bool
opens mark [] = false
opens mark (c ∷ []) = false
opens mark (c ∷ d ∷ s) = c == mark && d == b'['

abbrev pub accepted : (Text → Bool) → Option Text → Option Text
accepted accepts none = none
accepted accepts (some name) = if accepts name then some name else none

abbrev pub behind_bracket : Text → Text
behind_bracket [] = []
behind_bracket (c ∷ []) = []
behind_bracket (c ∷ d ∷ s) = s

-- The group of a match at the start of the text: the mark, then brackets around the group.
unfoldable pub bracketed : ℕ → (Text → Bool) → Text → Option Text
unfolding until_bracket
bracketed mark accepts s =
    if opens mark s then accepted accepts (until_bracket (behind_bracket s)) else none

abbrev pub all_digits : Text → Bool
all_digits [] = true
all_digits (c ∷ s) = is_digit c && all_digits s

-- The group of exprValueRegex: any byte, then digits.
abbrev pub is_index : Text → Bool
is_index [] = false
is_index (c ∷ s) = all_digits s

-- exprFieldRegex, exprTablesRegex and exprValueRegex.
abbrev pub field_regex : Text → Option Text
field_regex = bracketed b'!' (λ name. true)

abbrev pub tables_regex : Text → Option Text
tables_regex = bracketed b'#' (λ name. true)

abbrev pub value_regex : Text → Option Text
value_regex = bracketed b'?' is_index

-- A search goes on behind a match; `skip` counts the bytes of the match that are left.
unfoldable pub scan : (Text → Option Text) → ℕ → Text → List Segment
scan regex skip [] = []
scan regex (suc skip) (c ∷ s) = scan regex skip s
scan regex zero (c ∷ s) = elim (regex (c ∷ s)) [
  | none ↦ plain c ∷ scan regex zero s
  | some name ↦ found name ∷ scan regex (length name + 2) s
]

abbrev pub groups : List Segment → List Text
groups [] = []
groups (plain c ∷ rest) = groups rest
groups (found name ∷ rest) = name ∷ groups rest

abbrev pub replace_found : Text → List Segment → Text
replace_found new [] = []
replace_found new (plain c ∷ rest) = c ∷ replace_found new rest
replace_found new (found name ∷ rest) = new ++ replace_found new rest

-- FindAllStringSubmatch, of each match the group, and ReplaceAllString.
unfoldable pub find_all : (Text → Option Text) → Text → List Text
unfolding scan
find_all regex s = groups (scan regex 0 s)

unfoldable pub replace_matches : (Text → Option Text) → Text → Text → Text
unfolding scan
replace_matches regex new s = replace_found new (scan regex 0 s)

-- fmt.Sprintf with texts as operands; none where the result would tell of a bad verb, of a missing
-- operand or of one too many.
unfoldable pub sprintf : Text → List Text → Option Text
sprintf [] [] = some []
sprintf [] (x ∷ xs) = none
sprintf (c ∷ []) xs =
    let rest = sprintf [] xs in
    if c == b'%' then none else elim rest [ none ↦ none | some t ↦ some (c ∷ t) ]
sprintf (c ∷ d ∷ s) [] =
    let onward = sprintf (d ∷ s) [] in
    let escaped = sprintf s [] in
    if c == b'%'
    then if d == b'%' then elim escaped [ none ↦ none | some t ↦ some (b'%' ∷ t) ] else none
    else elim onward [ none ↦ none | some t ↦ some (c ∷ t) ]
sprintf (c ∷ d ∷ s) (x ∷ xs) =
    let onward = sprintf (d ∷ s) (x ∷ xs) in
    let escaped = sprintf s (x ∷ xs) in
    let operand = sprintf s xs in
    if c == b'%'
    then if d == b'%'
      then elim escaped [ none ↦ none | some t ↦ some (b'%' ∷ t) ]
      else if d == b's'
      then elim operand [ none ↦ none | some t ↦ some (x ++ t) ]
      else none
    else elim onward [ none ↦ none | some t ↦ some (c ∷ t) ]

abbrev pub sprintf_twice : Text → List Text → List Text → Option Text
sprintf_twice s xs ys = elim (sprintf s xs) [ none ↦ none | some t ↦ sprintf t ys ]
