-- ===== src/Terms/Functions.antt =====
-- The functions that src/expr/funcs.go registers: SUM to NOW. An inner expression is what its SQL
-- writes; none is a panic, or an error, on which SQL of a function panics.
use go_django_queries.Prelude.{
  Bool, false, ◌||◌, Option, none, some, List, [], ◌∷◌, ◌++◌, Text, codes, text_eq, is_empty,
  if◌then◌else◌,
}
use go_django_queries.Expressions.{around}
use go_django_queries.Compiler.{Sql, say, ◌<>◌, separated}
use go_django_queries.Terms.Values.{DriverType, mysql, mariadb, postgres, sqlite, other_driver}

-- A parameter of a function: an expression, a constant as %v prints it, or nil.
pub data Param (A : Type 0) : Type 0 where
  expression : Sql A → Param A
  constant : Text → Param A
  nothing : Param A

pub data FuncName : Type 0 where
  unary : Text → FuncName
  coalesce concat substr now : FuncName

abbrev pub unary_names : List Text
unary_names =
    codes "SUM"
    ∷ codes "COUNT"
    ∷ codes "AVG"
    ∷ codes "MAX"
    ∷ codes "MIN"
    ∷ codes "TRIM"
    ∷ codes "UPPER"
    ∷ codes "LOWER"
    ∷ codes "LENGTH"
    ∷ []

unfoldable pub is_one_of : Text → List Text → Bool
unfolding text_eq
is_one_of name [] = false
is_one_of name (s ∷ names) = text_eq name s || is_one_of name names

-- lookupFunc on the functions of the file; none of them is for one driver only.
unfoldable pub lookup_func : Text → Option FuncName
unfolding is_one_of text_eq
lookup_func name =
    if is_one_of name unary_names
    then some (unary name)
    else if text_eq name (codes "COALESCE")
    then some coalesce
    else if text_eq name (codes "CONCAT")
    then some concat
    else if text_eq name (codes "SUBSTR")
    then some substr
    else if text_eq name (codes "NOW")
    then some now
    else none

module _ {A : Type 0} where
  -- The functions of one value.
  unfoldable pub unary_sql : Text → List (Sql A) → Sql A
  unary_sql name (s ∷ []) = around (name ++ codes "(") (codes ")") s
  unary_sql name [] = none
  unary_sql name (s ∷ t ∷ rest) = none

  abbrev pub at_least_two : List (Sql A) → Sql A → Sql A
  at_least_two [] sql = none
  at_least_two (s ∷ []) sql = none
  at_least_two (s ∷ t ∷ rest) sql = sql

  unfoldable pub coalesce_sql : List (Sql A) → Sql A
  unfolding separated
  coalesce_sql value =
      at_least_two value (around (codes "COALESCE(") (codes ")") (separated (codes ", ") value))

  abbrev pub concat_on : DriverType → List (Sql A) → Sql A
  concat_on sqlite value = around (codes "(") (codes ")") (separated (codes " || ") value)
  concat_on other_driver value = none
  concat_on d value = around (codes "CONCAT(") (codes ")") (separated (codes ", ") value)

  unfoldable pub concat_sql : DriverType → List (Sql A) → Sql A
  unfolding separated
  concat_sql d value = at_least_two value (concat_on d value)

  -- What a parameter writes.
  abbrev pub param_sql : Param A → Sql A
  param_sql (expression s) = s
  param_sql (constant text) = say text
  param_sql nothing = say []

  abbrev pub writes_nothing : Sql A → Bool
  writes_nothing none = false
  writes_nothing (some (text, args)) = is_empty text

  -- SUBSTR without a length, and with one.
  abbrev pub substr_from : DriverType → Sql A → Sql A → Sql A
  substr_from postgres s start =
      say (codes "SUBSTRING(") <> (s <> (say (codes " FROM ") <> (start <> say (codes ")"))))
  substr_from sqlite s start =
      say (codes "SUBSTR(") <> (s <> (say (codes ", ") <> (start <> say (codes ")"))))
  substr_from other_driver s start = none
  substr_from d s start =
      say (codes "SUBSTRING(") <> (s <> (say (codes ", ") <> (start <> say (codes ")"))))

  abbrev pub between : Text → Text → Text → Sql A → Sql A → Sql A → Sql A
  between opening first second s start end =
      say opening <> (s <> (say first <> (start <> (say second <> (end <> say (codes ")"))))))

  abbrev pub substr_for : DriverType → Sql A → Sql A → Sql A → Sql A
  substr_for postgres s start end =
      between (codes "SUBSTRING(") (codes " FROM ") (codes " FOR ") s start end
  substr_for sqlite s start end = between (codes "SUBSTR(") (codes ", ") (codes ", ") s start end
  substr_for other_driver s start end = none
  substr_for d s start end = between (codes "SUBSTRING(") (codes ", ") (codes ", ") s start end

  -- An empty end that returned arguments keeps them.
  unfoldable pub substr_parts : DriverType → Sql A → Sql A → Sql A → Sql A
  unfolding ◌<>◌
  substr_parts d s start end =
      if writes_nothing start
      then none
      else if writes_nothing end
      then substr_from d s start <> end
      else substr_for d s start end

  unfoldable pub substr_sql : DriverType → List (Sql A) → List (Param A) → Sql A
  unfolding substr_parts
  substr_sql d (s ∷ []) (start ∷ end ∷ []) = substr_parts d s (param_sql start) (param_sql end)
  substr_sql d value params = none

  unfoldable pub now_sql : DriverType → Sql A
  now_sql mysql = say (codes "NOW()")
  now_sql mariadb = say (codes "NOW()")
  now_sql postgres = say (codes "CURRENT_TIMESTAMP")
  now_sql sqlite = say (codes "DATETIME('now')")
  now_sql other_driver = none

  unfoldable pub func_sql : FuncName → DriverType → List (Sql A) → List (Param A) → Sql A
  unfolding unary_sql coalesce_sql concat_sql substr_sql now_sql
  func_sql (unary name) d value params = unary_sql name value
  func_sql coalesce d value params = coalesce_sql value
  func_sql concat d value params = concat_sql d value
  func_sql substr d value params = substr_sql d value params
  func_sql now d value params = now_sql d
