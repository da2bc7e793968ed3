-- ===== src/Terms/Parts.antt =====
-- Placeholders and arguments of the names of functions and the values of src/expr.
use go_django_queries.Prelude.{
  Bool, true, false, Option, none, some, List, [], ◌∷◌, Text, codes, text_eq, text_eq_iff, All,
  if◌then◌else◌, ◌≡◌, refl, sym, arith, Bool-cases, inl, inr, ◌⊎◌, subst,
}
use go_django_queries.Expressions.Placeholders.{count, count-append, IsMatched}
use go_django_queries.Compiler.Matched.{IsPlain}
use go_django_queries.Terms.Values.{
  DriverType, mysql, mariadb, postgres, sqlite, other_driver, Value, ValueKind, ValueClass,
  string_kind, int_kind, float_kind, bool_kind, bytes_kind, slice_kind, other_kind, postgres_cast,
  unsafe_text, shown, with_cast, safe_sql, value_sql, clone_value, with_replaced, resolve_value,
}
use go_django_queries.Terms.Functions.{
  FuncName, coalesce, concat, substr, now, unary_names, is_one_of, lookup_func,
}
use go_django_queries.Terms.Matched.{IsPlainName}

is_one_of-All :
    (P : Text → Type 0) (name : Text) (names : List Text)
    → All P names
    → is_one_of name names ≡ true
    → P name
unfolding is_one_of
is_one_of-All P name [] h k = absurd (cc)
is_one_of-All P name (s ∷ names) h k = elim (Bool-cases (text_eq name s)) [
  | inl same ↦ subst P (sym ((text_eq_iff name s).0 same)) h.0
  | inr other ↦ is_one_of-All P name names h.1 (rw other at k)
]

-- The function that a name looks up.
abbrev pub IsPlainFunc : Option FuncName → Type 0
IsPlainFunc none = Unit {0}
IsPlainFunc (some f) = IsPlainName f

pub lookup_func-IsPlain : (name : Text) → IsPlainFunc (lookup_func name)
unfolding lookup_func count
lookup_func-IsPlain name = elim (Bool-cases (is_one_of name unary_names)) [
  | inl listed ↦
      rw (listed, lookup_func)
        (is_one_of-All IsPlain name unary_names
          (refl, (refl, (refl, (refl, (refl, (refl, (refl, (refl, (refl, tt))))))))) listed)
  | inr unlisted ↦
      rw (unlisted, lookup_func)
        (by_name (text_eq name (codes "COALESCE")) (text_eq name (codes "CONCAT"))
          (text_eq name (codes "SUBSTR")) (text_eq name (codes "NOW")))
]
  where
    by_name :
        (a b c d : Bool)
        → IsPlainFunc (
            if a
            then some coalesce
            else if b
            then some concat
            else if c
            then some substr
            else if d
            then some now
            else none)
    by_name true b c d = tt
    by_name false true c d = tt
    by_name false false true d = tt
    by_name false false false true = tt
    by_name false false false false = tt

-- A value that is written unsafely is text without a placeholder.
abbrev pub IsPlainOption : Option Text → Type 0
IsPlainOption none = Unit {0}
IsPlainOption (some text) = IsPlain text

postgres_cast-IsPlain : (kind : ValueKind) → IsPlainOption (postgres_cast kind)
unfolding postgres_cast count
postgres_cast-IsPlain string_kind = refl
postgres_cast-IsPlain int_kind = refl
postgres_cast-IsPlain float_kind = refl
postgres_cast-IsPlain bool_kind = refl
postgres_cast-IsPlain bytes_kind = refl
postgres_cast-IsPlain slice_kind = refl
postgres_cast-IsPlain other_kind = tt

module _ {A : Type 0} (class : ValueClass A) where
  with_cast-IsMatched :
      (v : Value A) (o : Option Text)
      → count b'?' v.placeholder ≡ 1
      → IsPlainOption o
      → IsMatched (with_cast class v o)
  with_cast-IsMatched v none h k = tt
  with_cast-IsMatched v (some cast) h k = omega (arith, count-append b'?' v.placeholder cast, h, k)

  safe_sql-IsMatched :
      (v : Value A) (o : Option DriverType)
      → count b'?' v.placeholder ≡ 1
      → IsMatched (safe_sql class v o)
  safe_sql-IsMatched v none h = h
  safe_sql-IsMatched v (some mysql) h = h
  safe_sql-IsMatched v (some mariadb) h = h
  safe_sql-IsMatched v (some postgres) h =
      with_cast-IsMatched v _ h (postgres_cast-IsPlain (class.kind v.v))
  safe_sql-IsMatched v (some sqlite) h = h
  safe_sql-IsMatched v (some other_driver) h = h

  -- The value that Resolve gives back.
  abbrev pub IsMatchedValue : Option (Value A) → Type 0
  IsMatchedValue none = Unit {0}
  IsMatchedValue (some v) = IsMatched (value_sql class v)

  with_replaced-IsMatched :
      (v : Value A) (o : Option Text)
      → v.is_unsafe ≡ true
      → IsPlainOption o
      → IsMatchedValue (with_replaced class v o)
  unfolding value_sql
  with_replaced-IsMatched v none h k = tt
  with_replaced-IsMatched v (some text) h k =
      subst
        (λ b. IsMatched (
          if b
          then some (text, [])
          else safe_sql class (record v { replaced = some text }) v.driver))
        (sym h) k

  some-IsMatched :
      (v : Value A) → v.is_unsafe ≡ false → count b'?' v.placeholder ≡ 1 → IsMatchedValue (some v)
  unfolding value_sql
  some-IsMatched v h k =
      subst
        (λ b.
          IsMatched (if b then some (shown class v v.replaced, []) else safe_sql class v v.driver))
        (sym h) (safe_sql-IsMatched v v.driver k)

  plain_of :
      (v : Value A) (quote : Text → Text)
      → v.is_unsafe ≡ true
      → (v.is_unsafe ≡ false) ⊎ IsPlainOption (unsafe_text quote (class.as_unsafe v.v))
      → IsPlainOption (unsafe_text quote (class.as_unsafe v.v))
  plain_of v quote h (inl safe) = absurd (cc)
  plain_of v quote h (inr plain) = plain

  pub resolve_value-IsMatched :
      (quote : Text → Text) (d : DriverType) (mark : Text) (v : Value A)
      → count b'?' mark ≡ 1
      → (v.is_unsafe ≡ false) ⊎ IsPlainOption (unsafe_text quote (class.as_unsafe v.v))
      → IsMatchedValue (resolve_value class quote d mark v)
  unfolding resolve_value value_sql clone_value
  resolve_value-IsMatched quote d mark v h k =
      let fresh : Value A = record (clone_value v) {
        used = true;
        driver = some d;
        placeholder = mark;
      } in
      elim (Bool-cases v.is_unsafe) [
        | inl is_unsafe ↦
            subst
              (λ b. IsMatchedValue (
                if b
                then with_replaced class fresh (unsafe_text quote (class.as_unsafe v.v))
                else some fresh))
              (sym is_unsafe)
              (with_replaced-IsMatched fresh _ is_unsafe (plain_of v quote is_unsafe k))
        | inr safe ↦
            subst
              (λ b. IsMatchedValue (
                if b
                then with_replaced class fresh (unsafe_text quote (class.as_unsafe v.v))
                else some fresh))
              (sym safe) (some-IsMatched fresh safe h)
      ]
