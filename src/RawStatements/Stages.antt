-- ===== src/RawStatements/Stages.antt =====
-- The searches and the replacements of ParseExprStatement of src/expr/statement.go, on the pieces of a
-- statement.
use go_django_queries.Prelude.{
  ℕ, true, false, List, [], ◌∷◌, ◌++◌, Text, codes, ◌==◌, ◌≡◌, refl, ap, ◌∙◌, arith, Bool-cases,
  inl, inr,
}
use go_django_queries.Prelude.Decimal.{itoa, itoa-IsDigits, itoa-ne_nil}
use go_django_queries.Compiler.Like.{replace_all}
use go_django_queries.RawStatements.{
  find_all, replace_matches, field_regex, tables_regex, value_regex, is_index,
}
use go_django_queries.RawStatements.Statements.{escape_statement}
use go_django_queries.RawStatements.Pieces.{
  Piece, is_mark, IsName, build, value_text, print, IsStatement, fourfold, build-pieces, Takes,
}
use go_django_queries.RawStatements.Scan.{marked}
use go_django_queries.RawStatements.Searches.{
  IsUnmarked, find_all-byte, replace-byte, find_all-unmarked, replace-unmarked, find_all-marked,
  replace-marked, IsUnmarked-marked, IsName-IsBracketed, IsDigits-IsName, is_index-digits,
}
use go_django_queries.RawStatements.Formatted.{
  IsPercentless, field_names, table_names, question, operand, template,
}

-- The indices that the pieces name.
unfoldable pub numbers : List Piece → List Text
unfolding build
numbers ps = build (λ c. []) (λ name. []) (λ name. []) (λ n. itoa n ∷ []) ps

itoa-IsName : (n : ℕ) → IsName (itoa n)
itoa-IsName n = IsDigits-IsName (itoa n) (itoa-IsDigits n)

itoa-is_index : (n : ℕ) → is_index (itoa n) ≡ true
itoa-is_index n = is_index-digits (itoa n) (itoa-IsDigits n) (itoa-ne_nil n)

value_text-IsUnmarked :
    (m n : ℕ) → is_mark m ≡ true → b'?' == m ≡ false → IsUnmarked m (value_text n)
value_text-IsUnmarked m n h k = IsUnmarked-marked m b'?' (itoa n) h k (itoa-IsName n)

replace_all-byte :
    (c : ℕ) (rest : Text)
    → replace_all (c ∷ rest) b'%' (codes "%%%%")
      ≡ fourfold c ++ replace_all rest b'%' (codes "%%%%")
unfolding replace_all
replace_all-byte c rest = elim (Bool-cases (c == b'%')) [
  | inl percent ↦ rw percent refl
  | inr other ↦ rw other refl
]

replace_all-percentless :
    (u : Text) → IsPercentless u → Takes (λ s. replace_all s b'%' (codes "%%%%")) u u
unfolding replace_all
replace_all-percentless [] h = λ rest. refl
replace_all-percentless (c ∷ u) h =
    λ rest. rw (h.0) (ap (λ s. c ∷ s) (replace_all-percentless u h.1 rest))

IsPercentless-tail : (name : Text) → IsName name → IsPercentless (name ++ (b']' ∷ []))
IsPercentless-tail [] h = (refl, tt)
IsPercentless-tail (c ∷ name) h =
    let e : c == b'%' ≡ false = ground (arith, h.0) in (e, IsPercentless-tail name h.1)

marked-IsPercentless :
    (m : ℕ) (name : Text) → m == b'%' ≡ false → IsName name → IsPercentless (marked m name)
marked-IsPercentless m name h k = (h, (refl, IsPercentless-tail name k))

module _ (ps : List Piece) (h : IsStatement ps) where
  pub find_fields : find_all field_regex (print ps) ≡ field_names ps
  unfolding print field_names find_all
  find_fields =
      build-pieces (find_all field_regex) false (marked b'!') (marked b'#') value_text
        (λ x rest. refl) (λ x rest. refl) (λ x rest. refl) (λ c. []) (λ name. name ∷ [])
        (λ name. []) (λ n. []) refl (find_all-byte b'!' (λ name. true) refl false)
        (λ name k. find_all-marked b'!' (λ name. true) name refl (IsName-IsBracketed name k))
        (λ name k.
          find_all-unmarked b'!' (λ name. true) (marked b'#' name)
            (IsUnmarked-marked b'!' b'#' name refl refl k))
        (λ n.
          find_all-unmarked b'!' (λ name. true) (value_text n)
            (value_text-IsUnmarked b'!' n refl refl))
        ps h

  pub find_tables : find_all tables_regex (print ps) ≡ table_names ps
  unfolding print table_names find_all
  find_tables =
      build-pieces (find_all tables_regex) false (marked b'!') (marked b'#') value_text
        (λ x rest. refl) (λ x rest. refl) (λ x rest. refl) (λ c. []) (λ name. [])
        (λ name. name ∷ []) (λ n. []) refl (find_all-byte b'#' (λ name. true) refl false)
        (λ name k.
          find_all-unmarked b'#' (λ name. true) (marked b'!' name)
            (IsUnmarked-marked b'#' b'!' name refl refl k))
        (λ name k. find_all-marked b'#' (λ name. true) name refl (IsName-IsBracketed name k))
        (λ n.
          find_all-unmarked b'#' (λ name. true) (value_text n)
            (value_text-IsUnmarked b'#' n refl refl))
        ps h

  pub find_numbers : find_all value_regex (print ps) ≡ numbers ps
  unfolding print numbers find_all
  find_numbers =
      build-pieces (find_all value_regex) false (marked b'!') (marked b'#') value_text
        (λ x rest. refl) (λ x rest. refl) (λ x rest. refl) (λ c. []) (λ name. []) (λ name. [])
        (λ n. itoa n ∷ []) refl (find_all-byte b'?' is_index refl false)
        (λ name k.
          find_all-unmarked b'?' is_index (marked b'!' name)
            (IsUnmarked-marked b'?' b'!' name refl refl k))
        (λ name k.
          find_all-unmarked b'?' is_index (marked b'#' name)
            (IsUnmarked-marked b'?' b'#' name refl refl k))
        (λ n.
          find_all-marked b'?' is_index (itoa n) (itoa-is_index n)
            (IsName-IsBracketed (itoa n) (itoa-IsName n)))
        ps h

  escaped_percents :
      replace_all (print ps) b'%' (codes "%%%%")
      ≡ build fourfold (marked b'!') (marked b'#') value_text ps
  unfolding print replace_all
  escaped_percents =
      build-pieces (λ s. replace_all s b'%' (codes "%%%%")) false (marked b'!') (marked b'#')
        value_text (λ x rest. refl) (λ x rest. refl) (λ x rest. refl) fourfold (marked b'!')
        (marked b'#') value_text refl (λ c rest k. replace_all-byte c rest)
        (λ name k.
          replace_all-percentless (marked b'!' name) (marked-IsPercentless b'!' name refl k))
        (λ name k.
          replace_all-percentless (marked b'#' name) (marked-IsPercentless b'#' name refl k))
        (λ n.
          replace_all-percentless (value_text n)
            (marked-IsPercentless b'?' (itoa n) refl (itoa-IsName n)))
        ps h

  replaced_fields :
      replace_matches field_regex
        (codes "%s")
        (build fourfold (marked b'!') (marked b'#') value_text ps)
      ≡ build fourfold operand (marked b'#') value_text ps
  unfolding replace_matches
  replaced_fields =
      build-pieces (replace_matches field_regex (codes "%s")) true (marked b'!') (marked b'#')
        value_text (λ x rest. refl) (λ x rest. refl) (λ x rest. refl) fourfold operand (marked b'#')
        value_text refl (replace-byte b'!' (λ name. true) refl (codes "%s") true)
        (λ name k.
          replace-marked b'!' (λ name. true) (codes "%s") name refl (IsName-IsBracketed name k))
        (λ name k.
          replace-unmarked b'!' (λ name. true) (codes "%s") (marked b'#' name)
            (IsUnmarked-marked b'!' b'#' name refl refl k))
        (λ n.
          replace-unmarked b'!' (λ name. true) (codes "%s") (value_text n)
            (value_text-IsUnmarked b'!' n refl refl))
        ps h

  replaced_tables :
      replace_matches tables_regex
        (codes "%%s")
        (build fourfold operand (marked b'#') value_text ps)
      ≡ build fourfold operand (λ name. codes "%%s") value_text ps
  unfolding replace_matches
  replaced_tables =
      build-pieces (replace_matches tables_regex (codes "%%s")) true operand (marked b'#')
        value_text (λ x rest. refl) (λ x rest. refl) (λ x rest. refl) fourfold operand
        (λ name. codes "%%s") value_text refl
        (replace-byte b'#' (λ name. true) refl (codes "%%s") true)
        (λ name k.
          replace-unmarked b'#' (λ name. true) (codes "%%s") (codes "%s") (refl, (refl, tt)))
        (λ name k.
          replace-marked b'#' (λ name. true) (codes "%%s") name refl (IsName-IsBracketed name k))
        (λ n.
          replace-unmarked b'#' (λ name. true) (codes "%%s") (value_text n)
            (value_text-IsUnmarked b'#' n refl refl))
        ps h

  replaced_values :
      replace_matches value_regex
        (codes "?")
        (build fourfold operand (λ name. codes "%%s") value_text ps)
      ≡ template ps
  unfolding replace_matches template
  replaced_values =
      build-pieces (replace_matches value_regex (codes "?")) true operand (λ name. codes "%%s")
        value_text (λ x rest. refl) (λ x rest. refl) (λ x rest. refl) fourfold operand
        (λ name. codes "%%s") question refl (replace-byte b'?' is_index refl (codes "?") true)
        (λ name k. replace-unmarked b'?' is_index (codes "?") (codes "%s") (refl, (refl, tt)))
        (λ name k.
          replace-unmarked b'?' is_index (codes "?") (codes "%%s") (refl, (refl, (refl, tt))))
        (λ n.
          replace-marked b'?' is_index (codes "?") (itoa n) (itoa-is_index n)
            (IsName-IsBracketed (itoa n) (itoa-IsName n)))
        ps h

  pub escape_statement-template : escape_statement (print ps) ≡ template ps
  escape_statement-template =
      ap
        (λ s.
          replace_matches value_regex (codes "?") (
            replace_matches tables_regex (codes "%%s")
              (replace_matches field_regex (codes "%s") s)))
        escaped_percents
      ∙ (ap
            (λ s.
              replace_matches value_regex (codes "?")
                (replace_matches tables_regex (codes "%%s") s))
            replaced_fields
          ∙ (ap (λ s. replace_matches value_regex (codes "?") s) replaced_tables ∙ replaced_values))
