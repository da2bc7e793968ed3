-- ===== src/Lookups/Formats.antt =====
-- Placeholders in the operators of lookups of src/queryset_compiler_generic.go, once filled.
use go_django_queries.Prelude.{
  ℕ, zero, suc, ◌+◌, Bool, true, false, ◌&&◌, ◌||◌, Option, none, some, List, [], ◌∷◌, ◌++◌, Text,
  codes, lookup, text_eq, text_eq_iff, ◌==◌, if◌then◌else◌, ◌≡◌, refl, subst, arith, Bool-cases,
  Option-cases, inl, inr,
}
use go_django_queries.Expressions.Placeholders.{count, count-append, IsMatched}
use go_django_queries.Compiler.{placeholder}
use go_django_queries.Compiler.Like.{DriverName, mysql, mariadb, postgres, pgx, sqlite3, unknown}
use go_django_queries.Compiler.Matched.{IsPlain}
use go_django_queries.Lookups.{text_of, logical_rhs, null_test}
use go_django_queries.Lookups.Operators.{
  sprintf, is_caseless, lower, lower_on, format_lookup_col, Format, equality, math, equality_format,
  math_op_format, format_with, format_logical_op_rhs, logical_operators, mysql_operators,
  postgres_operators, sqlite_operators, lookup_operators_rhs, mysql_patterns, postgres_patterns,
  sqlite_patterns, lookup_pattern_operators_rhs, fill, fill_from, format_op_rhs, pattern_op_rhs,
}

-- How many values a format takes.
unfoldable pub verbs : Text → ℕ
verbs [] = 0
verbs (c ∷ []) = 0
verbs (c ∷ d ∷ t) =
    let rest = verbs t in
    let next = verbs (d ∷ t) in if c == b'%' then (if d == b's' then suc rest else rest) else next

times : ℕ → ℕ → ℕ
times zero n = 0
times (suc k) n = n + times k n

count-sprintf :
    (t s : Text)
    → count b'?' (sprintf t s) ≡ count b'?' (sprintf t []) + times (verbs t) (count b'?' s)
unfolding sprintf verbs count times
count-sprintf [] s = refl
count-sprintf (c ∷ []) s = omega arith
count-sprintf (c ∷ d ∷ t) s = elim (Bool-cases (c == b'%')) [
  | inl percent ↦ elim (Bool-cases (d == b's')) [
    | inl verb ↦
        rw (percent, verb) (omega (arith, count-append b'?' s (sprintf t s), count-sprintf t s))
    | inr other ↦ rw (percent, other) (omega (arith, count-sprintf t s))
  ]
  | inr other ↦ rw other (omega (arith, count-sprintf (d ∷ t) s))
]

-- A format that takes its value once, and has no placeholder of its own.
unfoldable pub is_single_format : Text → Bool
unfolding verbs sprintf count
is_single_format t = verbs t == 1 && count b'?' (sprintf t []) == 0

one_and_zero : (a b : ℕ) → a == 1 && b == 0 ≡ true → (a ≡ 1) × (b ≡ 0)
one_and_zero a b h = (ground arith, ground arith)

single-count : (t s : Text) → is_single_format t ≡ true → count b'?' (sprintf t s) ≡ count b'?' s
unfolding is_single_format times
single-count t s h =
    let (one, no_other) = one_and_zero (verbs t) (count b'?' (sprintf t [])) h in
    omega (arith, rw one at (count-sprintf t s), no_other)

-- The operators of a list, but iregex of SQLite, whose format has a question mark.
unfoldable pub all_single : List (Text × Text) → Bool
unfolding is_single_format
all_single [] = true
all_single ((op, format) ∷ rest) =
    (text_eq op (codes "iregex") || is_single_format format) && all_single rest

-- Each format of a list takes its value once.
abbrev IsAllSingle : List (Text × Text) → Type 0
IsAllSingle ops = all_single ops ≡ true

head-single : (a b c : Bool) → (a || b) && c ≡ true → a ≡ false → b ≡ true
head-single a b c h k = ground arith

tail-single : (a b : Bool) → a && b ≡ true → b ≡ true
tail-single a b h = ground arith

operators-single :
    (d : DriverName) (ops : List (Text × Text))
    → lookup_operators_rhs d ≡ some ops
    → all_single ops ≡ true
unfolding lookup_operators_rhs all_single text_eq
operators-single mysql ops h = let e : mysql_operators ≡ ops = cc in subst IsAllSingle e refl
operators-single mariadb ops h = let e : mysql_operators ≡ ops = cc in subst IsAllSingle e refl
operators-single postgres ops h = let e : postgres_operators ≡ ops = cc in subst IsAllSingle e refl
operators-single pgx ops h = let e : postgres_operators ≡ ops = cc in subst IsAllSingle e refl
operators-single sqlite3 ops h = let e : sqlite_operators ≡ ops = cc in subst IsAllSingle e refl
operators-single unknown ops h = absurd (cc)

patterns-single :
    (d : DriverName) (ops : List (Text × Text))
    → lookup_pattern_operators_rhs d ≡ some ops
    → all_single ops ≡ true
unfolding lookup_pattern_operators_rhs all_single text_eq
patterns-single mysql ops h = let e : mysql_patterns ≡ ops = cc in subst IsAllSingle e refl
patterns-single mariadb ops h = let e : mysql_patterns ≡ ops = cc in subst IsAllSingle e refl
patterns-single postgres ops h = let e : postgres_patterns ≡ ops = cc in subst IsAllSingle e refl
patterns-single pgx ops h = let e : postgres_patterns ≡ ops = cc in subst IsAllSingle e refl
patterns-single sqlite3 ops h = let e : sqlite_patterns ≡ ops = cc in subst IsAllSingle e refl
patterns-single unknown ops h = absurd (cc)

lookup-single :
    (op : Text) (ops : List (Text × Text)) (format : Text)
    → all_single ops ≡ true
    → text_eq op (codes "iregex") ≡ false
    → lookup op ops ≡ some format
    → is_single_format format ≡ true
unfolding all_single lookup
lookup-single op [] format h k e = absurd (cc)
lookup-single op ((name, f) ∷ ops) format h k e = elim (Bool-cases (text_eq name op)) [
  | inl same ↦
      let shape : f ≡ format = (let g = rw same at e in cc) in
      let name_is : name ≡ op = (text_eq_iff name op).0 same in
      subst (λ t. is_single_format t ≡ true) shape
        (head-single (text_eq name (codes "iregex")) (is_single_format f) (all_single ops) h
          (rw name_is k))
  | inr other ↦ lookup-single op ops format (tail-single _ _ h) k (rw other at e)
]

-- A change of text that keeps the number of placeholders.
abbrev pub Keeps : (Text → Option Text) → Type 0
Keeps f = (t u : Text) → f t ≡ some u → count b'?' u ≡ count b'?' t

fill_from-Keeps :
    (o : Option (List (Text × Text))) (op : Text)
    → ((ops : List (Text × Text)) → o ≡ some ops → all_single ops ≡ true)
    → text_eq op (codes "iregex") ≡ false
    → Keeps (fill_from o op)
fill_from-Keeps none op h k t u e = absurd (cc)
fill_from-Keeps (some ops) op h k t u e = elim (Option-cases (lookup op ops)) [
  | inl missing ↦ absurd (let g = rw (missing, fill) at e in cc)
  | inr (format, found) ↦
      let shape : sprintf format t ≡ u = (let g = rw (found, fill) at e in cc) in
      subst (λ x. count b'?' x ≡ count b'?' t) shape
        (single-count format t (lookup-single op ops format (h ops refl) k found))
]

pub format_op_rhs-Keeps :
    (d : DriverName) (op : Text) → text_eq op (codes "iregex") ≡ false → Keeps (format_op_rhs d op)
unfolding format_op_rhs
format_op_rhs-Keeps d op k = fill_from-Keeps (lookup_operators_rhs d) op (operators-single d) k

pub pattern_op_rhs-Keeps :
    (d : DriverName) (op : Text) → text_eq op (codes "iregex") ≡ false → Keeps (pattern_op_rhs d op)
unfolding pattern_op_rhs
pattern_op_rhs-Keeps d op k =
    fill_from-Keeps (lookup_pattern_operators_rhs d) op (patterns-single d) k

lower-count : (t : Text) → count b'?' (lower t) ≡ count b'?' t
unfolding count
lower-count t = omega (arith, count-append b'?' t (codes ")"))

lower_on-Keeps : (d : DriverName) → Keeps (lower_on d)
lower_on-Keeps unknown t u e = absurd (cc)
lower_on-Keeps _ t u e =
    let shape : lower t ≡ u = cc in subst (λ x. count b'?' x ≡ count b'?' t) shape (lower-count t)

pub format_lookup_col-Keeps : (d : DriverName) (name : Text) → Keeps (format_lookup_col d name)
unfolding format_lookup_col
format_lookup_col-Keeps d name t u e = elim (Bool-cases (is_caseless name)) [
  | inl caseless ↦ lower_on-Keeps d t u (rw caseless at e)
  | inr other ↦
      let shape : t ≡ u = (let g = rw other at e in cc) in
      subst (λ x. count b'?' x ≡ count b'?' t) shape refl
]

pub equality_format-count :
    (op rhs : Text) → IsPlain op → count b'?' (op ++ (codes " " ++ rhs)) ≡ count b'?' rhs
unfolding count
equality_format-count op rhs h = omega (arith, h, count-append b'?' op (codes " " ++ rhs))

format_with-Keeps :
    (o : Option Format) (op : Text)
    → IsPlain op
    → Keeps (λ t. text_of (format_with {A = ℕ} o op t []))
unfolding equality_format math_op_format
format_with-Keeps none op h t u e = absurd (cc)
format_with-Keeps (some equality) op h t u e =
    let shape : op ++ (codes " " ++ t) ≡ u = cc in
    subst (λ x. count b'?' x ≡ count b'?' t) shape (equality_format-count op t h)
format_with-Keeps (some math) op h t u e = absurd (cc)

pub logical_rhs-Keeps : (op : Text) → IsPlain op → Keeps (logical_rhs op)
unfolding logical_rhs format_logical_op_rhs
logical_rhs-Keeps op h t u e = format_with-Keeps (lookup op logical_operators) op h t u e

-- Text with one placeholder.
abbrev pub IsOne : Option Text → Type 0
IsOne o = (t : Text) → o ≡ some t → count b'?' t ≡ 1

pub column-IsOne : (d : DriverName) (name : Text) → IsOne (format_lookup_col d name placeholder)
unfolding count
column-IsOne d name t e = format_lookup_col-Keeps d name placeholder t e

pub null_test-IsMatched : (A : Type 0) (o : Option Bool) → IsMatched (null_test {A = A} o)
unfolding count
null_test-IsMatched A none = tt
null_test-IsMatched A (some true) = refl
null_test-IsMatched A (some false) = refl
