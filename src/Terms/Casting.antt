-- ===== src/Terms/Casting.antt =====
-- Placeholders and arguments of the casts of src/expr/cast.go.
use go_django_queries.Prelude.{
  ℕ, zero, suc, ◌+◌, codes, take, drop, Option, none, some, List, [], ◌∷◌, ◌++◌, Text, length, All,
  ◌==◌, ◌≡◌, refl, ◌∙◌, arith, Bool-cases, inl, inr, subst,
}
use go_django_queries.Expressions.Placeholders.{count, count-append, IsMatched}
use go_django_queries.Compiler.{Sql}
use go_django_queries.Compiler.Matched.{IsPlain}
use go_django_queries.RawStatements.{sprintf}
use go_django_queries.Terms.Values.{DriverType, mysql, mariadb, postgres, sqlite, other_driver}
use go_django_queries.Terms.Casts.{
  CastType, cast_unknown, cast_string, cast_text, cast_int, cast_float, cast_bool, cast_date,
  cast_time, cast_bytes, cast_decimal, cast_json, cast_uuid, cast_null, cast_array, CastFuncEntry,
  find_cast, with_arity, resolve_entry, with_format, cast_sql, verbs, typed_operands, extra_text,
  and_extra, cast_format,
}

-- The placeholders of the operands.
abbrev counts : List Text → ℕ
counts [] = 0
counts (x ∷ xs) = count b'?' x + counts xs

abbrev Holds : ℕ → Option Text → Type 0
Holds n none = Unit {0}
Holds n (some t) = count b'?' t ≡ n

prefixed-Holds :
    (n : ℕ) (c : ℕ) (o : Option Text)
    → Holds n o
    → Holds (count b'?' (c ∷ []) + n) (elim o [ none ↦ none | some t ↦ some (c ∷ t) ])
unfolding count
prefixed-Holds n c none h = tt
prefixed-Holds n c (some t) h = omega (arith, h)

operand-Holds :
    (n : ℕ) (x : Text) (o : Option Text)
    → Holds n o
    → Holds (count b'?' x + n) (elim o [ none ↦ none | some t ↦ some (x ++ t) ])
operand-Holds n x none h = tt
operand-Holds n x (some t) h = omega (arith, count-append b'?' x t, h)

shifted-Holds : (n m : ℕ) (o : Option Text) → n ≡ m → Holds n o → Holds m o
shifted-Holds n m o e h = subst (λ k. Holds k o) e h

-- Sprintf writes the placeholders of the format and those of the operands.
sprintf-Holds : (s : Text) (xs : List Text) → Holds (count b'?' s + counts xs) (sprintf s xs)
unfolding sprintf count
sprintf-Holds [] [] = refl
sprintf-Holds [] (x ∷ xs) = tt
sprintf-Holds (c ∷ []) xs = elim (Bool-cases (c == b'%')) [
  | inl percent ↦ rw percent tt
  | inr other ↦ rw other (
      shifted-Holds (count b'?' (c ∷ []) + (0 + counts xs)) (count b'?' (c ∷ []) + counts xs) _
        (omega arith) (prefixed-Holds (0 + counts xs) c (sprintf [] xs) (sprintf-Holds [] xs)))
]
sprintf-Holds (c ∷ d ∷ s) [] = elim (Bool-cases (c == b'%')) [
  | inl percent ↦ elim (Bool-cases (d == b'%')) [
    | inl escaped ↦
        let e : c ≡ b'%' = ground arith in
        let f : d ≡ b'%' = ground arith in
        rw (e, f)
          (shifted-Holds (count b'?' (b'%' ∷ []) + (count b'?' s + 0))
            (count b'?' (b'%' ∷ b'%' ∷ s) + 0) _ (omega arith)
            (prefixed-Holds (count b'?' s + 0) b'%' (sprintf s []) (sprintf-Holds s [])))
    | inr bad ↦ rw (percent, bad) tt
  ]
  | inr other ↦ rw other (
      shifted-Holds (count b'?' (c ∷ []) + (count b'?' (d ∷ s) + 0)) (count b'?' (c ∷ d ∷ s) + 0) _
        (omega arith)
        (prefixed-Holds (count b'?' (d ∷ s) + 0) c (sprintf (d ∷ s) []) (sprintf-Holds (d ∷ s) [])))
]
sprintf-Holds (c ∷ d ∷ s) (x ∷ xs) = elim (Bool-cases (c == b'%')) [
  | inl percent ↦ elim (Bool-cases (d == b'%')) [
    | inl escaped ↦
        let e : c ≡ b'%' = ground arith in
        let f : d ≡ b'%' = ground arith in
        rw (e, f)
          (shifted-Holds (count b'?' (b'%' ∷ []) + (count b'?' s + counts (x ∷ xs)))
            (count b'?' (b'%' ∷ b'%' ∷ s) + counts (x ∷ xs)) _ (omega arith)
            (prefixed-Holds (count b'?' s + counts (x ∷ xs)) b'%' (sprintf s (x ∷ xs))
              (sprintf-Holds s (x ∷ xs))))
    | inr other ↦ elim (Bool-cases (d == b's')) [
      | inl verb ↦
          let e : c ≡ b'%' = ground arith in
          let f : d ≡ b's' = ground arith in
          rw (e, f)
            (shifted-Holds (count b'?' x + (count b'?' s + counts xs))
              (count b'?' (b'%' ∷ b's' ∷ s) + counts (x ∷ xs)) _ (omega arith)
              (operand-Holds (count b'?' s + counts xs) x (sprintf s xs) (sprintf-Holds s xs)))
      | inr bad ↦ rw (percent, other, bad) tt
    ]
  ]
  | inr other ↦ rw other (
      shifted-Holds (count b'?' (c ∷ []) + (count b'?' (d ∷ s) + counts (x ∷ xs)))
        (count b'?' (c ∷ d ∷ s) + counts (x ∷ xs)) _ (omega arith)
        (prefixed-Holds (count b'?' (d ∷ s) + counts (x ∷ xs)) c (sprintf (d ∷ s) (x ∷ xs))
          (sprintf-Holds (d ∷ s) (x ∷ xs))))
]

counts-take-drop : (n : ℕ) (xs : List Text) → counts (take n xs) + counts (drop n xs) ≡ counts xs
counts-take-drop zero xs = omega arith
counts-take-drop (suc n) [] = refl
counts-take-drop (suc n) (x ∷ xs) = omega (arith, counts-take-drop n xs)

count-typed_operands : (xs : List Text) → count b'?' (typed_operands xs) ≡ counts xs
unfolding typed_operands count
count-typed_operands [] = refl
count-typed_operands (x ∷ []) = omega (arith, count-append b'?' (codes "int=") x)
count-typed_operands (x ∷ y ∷ xs) = omega (
  arith,
  count-append b'?' x (codes ", " ++ typed_operands (y ∷ xs)),
  count-typed_operands (y ∷ xs),
)

count-extra_text : (xs : List Text) → count b'?' (extra_text xs) ≡ counts xs
unfolding extra_text count
count-extra_text [] = refl
count-extra_text (x ∷ xs) =
    omega (
      arith,
      count-append b'?' (typed_operands (x ∷ xs)) (codes ")"),
      count-typed_operands (x ∷ xs),
    )

and_extra-Holds :
    (n m : ℕ) (o : Option Text) (more : Text)
    → Holds n o
    → count b'?' more ≡ m
    → Holds (n + m) (and_extra o more)
and_extra-Holds n m none more h k = tt
and_extra-Holds n m (some t) more h k = omega (arith, count-append b'?' t more, h, k)

-- So does Sprintf where operands are left.
cast_format-Holds :
    (s : Text) (xs : List Text) → Holds (count b'?' s + counts xs) (cast_format s xs)
unfolding cast_format
cast_format-Holds s xs =
    shifted-Holds (count b'?' s + counts (take (verbs s) xs) + counts (drop (verbs s) xs))
      (count b'?' s + counts xs) _ (omega (arith, counts-take-drop (verbs s) xs))
      (and_extra-Holds (count b'?' s + counts (take (verbs s) xs)) (counts (drop (verbs s) xs)) _ _
        (sprintf-Holds s (take (verbs s) xs)) (count-extra_text (drop (verbs s) xs)))

counts-plain : (xs : List Text) → All IsPlain xs → counts xs ≡ 0
counts-plain [] h = refl
counts-plain (x ∷ xs) h = omega (arith, h.0, counts-plain xs h.1)

abbrev pub IsPlainEntry : Option CastFuncEntry → Type 0
IsPlainEntry none = Unit {0}
IsPlainEntry (some e) = IsPlain e.sql

with_arity-IsPlain :
    (n : ℕ) (o : Option CastFuncEntry) → IsPlainEntry o → IsPlainEntry (with_arity n o)
with_arity-IsPlain n none h = tt
with_arity-IsPlain n (some e) h = elim (Bool-cases (e.arity == n)) [
  | inl same ↦ rw same h
  | inr other ↦ rw other tt
]

find_cast-IsPlain : (d : DriverType) (typ : CastType) → IsPlainEntry (find_cast d typ)
unfolding find_cast count
find_cast-IsPlain mysql typ = elim typ as (λ k. IsPlainEntry (find_cast mysql k)) [
  | cast_unknown ↦ tt
  | cast_string ↦ refl
  | cast_text ↦ refl
  | cast_int ↦ refl
  | cast_float ↦ refl
  | cast_bool ↦ refl
  | cast_date ↦ refl
  | cast_time ↦ refl
  | cast_bytes ↦ refl
  | cast_decimal ↦ refl
  | cast_json ↦ refl
  | cast_uuid ↦ refl
  | cast_null ↦ refl
  | cast_array ↦ refl
]
find_cast-IsPlain mariadb typ = elim typ as (λ k. IsPlainEntry (find_cast mariadb k)) [
  | cast_unknown ↦ tt
  | cast_string ↦ refl
  | cast_text ↦ refl
  | cast_int ↦ refl
  | cast_float ↦ refl
  | cast_bool ↦ refl
  | cast_date ↦ refl
  | cast_time ↦ refl
  | cast_bytes ↦ refl
  | cast_decimal ↦ refl
  | cast_json ↦ refl
  | cast_uuid ↦ refl
  | cast_null ↦ refl
  | cast_array ↦ refl
]
find_cast-IsPlain postgres typ = elim typ as (λ k. IsPlainEntry (find_cast postgres k)) [
  | cast_unknown ↦ tt
  | cast_string ↦ refl
  | cast_text ↦ refl
  | cast_int ↦ refl
  | cast_float ↦ refl
  | cast_bool ↦ refl
  | cast_date ↦ refl
  | cast_time ↦ refl
  | cast_bytes ↦ refl
  | cast_decimal ↦ refl
  | cast_json ↦ refl
  | cast_uuid ↦ refl
  | cast_null ↦ refl
  | cast_array ↦ refl
]
find_cast-IsPlain sqlite typ = elim typ as (λ k. IsPlainEntry (find_cast sqlite k)) [
  | cast_unknown ↦ tt
  | cast_string ↦ refl
  | cast_text ↦ refl
  | cast_int ↦ refl
  | cast_float ↦ refl
  | cast_bool ↦ refl
  | cast_date ↦ refl
  | cast_time ↦ refl
  | cast_bytes ↦ refl
  | cast_decimal ↦ refl
  | cast_json ↦ refl
  | cast_uuid ↦ refl
  | cast_null ↦ refl
  | cast_array ↦ refl
]
find_cast-IsPlain other_driver typ = tt

pub resolve_entry-IsPlain :
    (d : DriverType) (typ : CastType) (args : List Text) → IsPlainEntry (resolve_entry d typ args)
unfolding resolve_entry
resolve_entry-IsPlain d typ args =
    with_arity-IsPlain (length args) (find_cast d typ) (find_cast-IsPlain d typ)

with_format-IsMatched :
    {A : Type 0} (n : ℕ) (o : Option Text) (args : List A)
    → Holds n o
    → n ≡ length args
    → IsMatched (with_format o args)
with_format-IsMatched n none args h k = tt
with_format-IsMatched n (some t) args h k = h ∙ k

-- A cast writes the placeholders of its column.
pub cast_sql-IsMatched :
    {A : Type 0} (o : Option CastFuncEntry) (args : List Text) (s : Sql A)
    → IsPlainEntry o
    → All IsPlain args
    → IsMatched s
    → IsMatched (cast_sql o args s)
unfolding cast_sql
cast_sql-IsMatched none args s h k m = tt
cast_sql-IsMatched (some e) args none h k m = tt
cast_sql-IsMatched (some e) args (some (text, more)) h k m =
    with_format-IsMatched (count b'?' e.sql + counts (text ∷ args))
      (cast_format e.sql (text ∷ args)) more (cast_format-Holds e.sql (text ∷ args))
      (omega (arith, h, m, counts-plain args k))
