-- ===== src/Lookups/Operators.antt =====
-- The operators of lookups in src/queryset_compiler_generic.go, which are formats of package fmt, and
-- the functions of src/expr/info.go that fill them. `none` is a panic.
use go_django_queries.Prelude.{
  Bool, ◌||◌, Option, none, some, List, [], ◌∷◌, ◌++◌, Text, codes, lookup, text_eq, ◌==◌,
  if◌then◌else◌,
}
use go_django_queries.Compiler.Like.{DriverName, mysql, mariadb, postgres, pgx, sqlite3, unknown}

-- fmt.Sprintf of a format that has the verb %s and the escape %% only, with one value.
unfoldable pub sprintf : Text → Text → Text
sprintf [] s = []
sprintf (c ∷ []) s = c ∷ []
sprintf (c ∷ d ∷ t) s =
    let rest = sprintf t s in
    let next = sprintf (d ∷ t) s in
    if c == b'%' then (if d == b's' then s ++ rest else d ∷ rest) else c ∷ next

-- FormatLookupCol
unfoldable pub is_caseless : Text → Bool
is_caseless name =
    text_eq name (codes "iexact")
    || (text_eq name (codes "icontains")
        || (text_eq name (codes "istartswith") || text_eq name (codes "iendswith")))

abbrev pub lower : Text → Text
lower inner = codes "LOWER(" ++ (inner ++ codes ")")

abbrev pub lower_on : DriverName → Text → Option Text
lower_on unknown inner = none
lower_on _ inner = some (lower inner)

unfoldable pub format_lookup_col : DriverName → Text → Text → Option Text
unfolding is_caseless
format_lookup_col driver name inner = if is_caseless name then lower_on driver inner else some inner

-- defaultCompilerLogicalOperators: equalityFormat or mathOpFormat, none for another operator.
pub data Format : Type 0 where
  equality math : Format

abbrev pub logical_operators : List (Text × Format)
logical_operators =
    (codes "=", equality)
    ∷ (codes "!=", equality)
    ∷ (codes ">", equality)
    ∷ (codes "<", equality)
    ∷ (codes ">=", equality)
    ∷ (codes "<=", equality)
    ∷ (codes "&", math)
    ∷ (codes "|", math)
    ∷ (codes "^", math)
    ∷ (codes "<<", math)
    ∷ (codes ">>", math)
    ∷ (codes "~", math)
    ∷ []

-- equalityFormat
unfoldable pub equality_format : {A : Type 0} → Text → Text → List A → Option (Text × List A)
equality_format op rhs [] = some (op ++ (codes " " ++ rhs), [])
equality_format op rhs (v ∷ values) = some (op ++ (codes " " ++ rhs), v ∷ [])

-- mathOpFormat
unfoldable pub math_op_format : {A : Type 0} → Text → Text → List A → Option (Text × List A)
math_op_format op rhs [] = none
math_op_format op rhs (v ∷ values) =
    some (op ++ (codes " " ++ (rhs ++ (codes " = " ++ rhs))), v ∷ v ∷ [])

abbrev pub format_with :
    {A : Type 0} → Option Format → Text → Text → List A → Option (Text × List A)
format_with none op rhs values = none
format_with (some equality) op rhs values = equality_format op rhs values
format_with (some math) op rhs values = math_op_format op rhs values

-- FormatLogicalOpRHS
unfoldable pub format_logical_op_rhs : {A : Type 0} → Text → Text → List A → Option (Text × List A)
unfolding equality_format math_op_format
format_logical_op_rhs op rhs values = format_with (lookup op logical_operators) op rhs values

-- LookupOperatorsRHS
abbrev pub mysql_operators : List (Text × Text)
mysql_operators =
    (codes "iexact", codes "= LOWER(%s)")
    ∷ (codes "contains", codes "LIKE LOWER(%s)")
    ∷ (codes "icontains", codes "LIKE %s")
    ∷ (codes "startswith", codes "LIKE LOWER(%s)")
    ∷ (codes "endswith", codes "LIKE LOWER(%s)")
    ∷ (codes "istartswith", codes "LIKE %s")
    ∷ (codes "iendswith", codes "LIKE %s")
    ∷ []

abbrev pub postgres_operators : List (Text × Text)
postgres_operators =
    (codes "iexact", codes "= LOWER(%s)")
    ∷ (codes "contains", codes "LIKE %s")
    ∷ (codes "icontains", codes "LIKE LOWER(%s)")
    ∷ (codes "regex", codes "~ %s")
    ∷ (codes "startswith", codes "LIKE %s")
    ∷ (codes "endswith", codes "LIKE %s")
    ∷ (codes "istartswith", codes "LIKE LOWER(%s)")
    ∷ (codes "iendswith", codes "LIKE LOWER(%s)")
    ∷ []

abbrev pub like_escaped : Text
like_escaped = codes "LIKE %s ESCAPE '\\'"

abbrev pub sqlite_operators : List (Text × Text)
sqlite_operators =
    (codes "iexact", like_escaped)
    ∷ (codes "contains", like_escaped)
    ∷ (codes "icontains", like_escaped)
    ∷ (codes "regex", codes "REGEXP %s")
    ∷ (codes "iregex", codes "REGEXP '(?i)' || %s")
    ∷ (codes "startswith", like_escaped)
    ∷ (codes "endswith", like_escaped)
    ∷ (codes "istartswith", like_escaped)
    ∷ (codes "iendswith", like_escaped)
    ∷ []

unfoldable pub lookup_operators_rhs : DriverName → Option (List (Text × Text))
lookup_operators_rhs mysql = some mysql_operators
lookup_operators_rhs mariadb = some mysql_operators
lookup_operators_rhs postgres = some postgres_operators
lookup_operators_rhs pgx = some postgres_operators
lookup_operators_rhs sqlite3 = some sqlite_operators
lookup_operators_rhs unknown = none

-- LookupPatternOperatorsRHS
abbrev pub mysql_patterns : List (Text × Text)
mysql_patterns =
    (codes "contains", codes "LIKE CONCAT('%%', %s, '%%')")
    ∷ (codes "icontains", codes "LIKE LOWER(CONCAT('%%', %s, '%%'))")
    ∷ (codes "startswith", codes "LIKE CONCAT(%s, '%%')")
    ∷ (codes "istartswith", codes "LIKE LOWER(CONCAT(%s, '%%'))")
    ∷ (codes "endswith", codes "LIKE CONCAT('%%', %s)")
    ∷ (codes "iendswith", codes "LIKE LOWER(CONCAT('%%', %s))")
    ∷ []

abbrev pub postgres_patterns : List (Text × Text)
postgres_patterns =
    (codes "contains", codes "LIKE '%%' || %s || '%%'")
    ∷ (codes "icontains", codes "LIKE '%%' || LOWER(%s) || '%%'")
    ∷ (codes "startswith", codes "LIKE %s || '%%'")
    ∷ (codes "istartswith", codes "LIKE LOWER(%s) || '%%'")
    ∷ (codes "endswith", codes "LIKE '%%' || %s")
    ∷ (codes "iendswith", codes "LIKE '%%' || LOWER(%s)")
    ∷ []

abbrev pub sqlite_patterns : List (Text × Text)
sqlite_patterns =
    (codes "contains", codes "LIKE '%%' || %s || '%%' ESCAPE '\\'")
    ∷ (codes "icontains", codes "LIKE '%%' || LOWER(%s) || '%%' ESCAPE '\\'")
    ∷ (codes "startswith", codes "LIKE %s || '%%' ESCAPE '\\'")
    ∷ (codes "istartswith", codes "LIKE LOWER(%s) || '%%' ESCAPE '\\'")
    ∷ (codes "endswith", codes "LIKE '%%' || %s ESCAPE '\\'")
    ∷ (codes "iendswith", codes "LIKE '%%' || LOWER(%s) ESCAPE '\\'")
    ∷ []

unfoldable pub lookup_pattern_operators_rhs : DriverName → Option (List (Text × Text))
lookup_pattern_operators_rhs mysql = some mysql_patterns
lookup_pattern_operators_rhs mariadb = some mysql_patterns
lookup_pattern_operators_rhs postgres = some postgres_patterns
lookup_pattern_operators_rhs pgx = some postgres_patterns
lookup_pattern_operators_rhs sqlite3 = some sqlite_patterns
lookup_pattern_operators_rhs unknown = none

-- The format of an operator, filled; an unknown operator panics.
abbrev pub fill : Option Text → Text → Option Text
fill none s = none
fill (some format) s = some (sprintf format s)

abbrev pub fill_from : Option (List (Text × Text)) → Text → Text → Option Text
fill_from none op s = none
fill_from (some operators) op s = fill (lookup op operators) s

-- FormatOpRHS and PatternOpRHS
unfoldable pub format_op_rhs : DriverName → Text → Text → Option Text
unfolding lookup_operators_rhs sprintf
format_op_rhs driver op s = fill_from (lookup_operators_rhs driver) op s

unfoldable pub pattern_op_rhs : DriverName → Text → Text → Option Text
unfolding lookup_pattern_operators_rhs sprintf
pattern_op_rhs driver op s = fill_from (lookup_pattern_operators_rhs driver) op s
