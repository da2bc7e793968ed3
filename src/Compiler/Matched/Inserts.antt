-- ===== src/Compiler/Matched/Inserts.antt =====
-- Placeholders and arguments of the INSERT statements of src/queryset_compiler_generic.go.
use go_django_queries.Prelude.{
  true, Option, none, some, List, [], ◌∷◌, ◌++◌, Text, codes, length, All, ◌==◌, ◌≡◌, ◌⊎◌, refl,
  arith, Bool-cases, inl, inr, subst, map, join,
}
use go_django_queries.Expressions.Placeholders.{count, count-append, IsMatched}
use go_django_queries.Compiler.{say, separated, quote_identifier}
use go_django_queries.Compiler.Fields.{Field}
use go_django_queries.Compiler.Statements.{
  QuerySetInternals, UpdateInfo, SupportsReturning, returning_none, returning_last_insert_id,
  returning_columns, returning_unknown, listed, quoted_columns, placeholders, returning, say_option,
  insert_head, write_row, build_create_query, write_insert, all_filled, build_create_mysql,
}
use go_django_queries.Compiler.Matched.{
  IsPlain, append-IsPlain, quote_identifier-IsPlain, join-IsPlain, <>-IsMatched,
  separated-IsMatched, All-map,
}

abbrev pub IsPlainColumn : {A : Type 0} → Field A → Type 0
IsPlainColumn f = IsPlain f.column_name

abbrev pub IsPlainPrimary : Option Text → Type 0
IsPlainPrimary none = Unit {0}
IsPlainPrimary (some name) = IsPlain name

-- An object with a value for each field.
abbrev pub IsFull : {F A : Type 0} → UpdateInfo F A → Type 0
IsFull o = length o.fields ≡ length o.values

count-join-placeholders :
    {A : Type 0} (fs : List (Field A))
    → count b'?' (join (codes ", ") (placeholders fs)) ≡ length fs
unfolding join placeholders count
count-join-placeholders [] = refl
count-join-placeholders (f ∷ []) = refl
count-join-placeholders (f ∷ g ∷ fs) = omega (arith, count-join-placeholders (g ∷ fs))

write_row-IsMatched : {F A : Type 0} (o : UpdateInfo F A) → IsFull o → IsMatched (write_row o)
unfolding write_row listed count
write_row-IsMatched o h = omega (
  arith,
  count-append b'?' (join (codes ", ") (placeholders o.fields)) (codes ")"),
  count-join-placeholders o.fields,
  h,
)

module _ {A : Type 0} (q : Text) (plain : IsPlain q) where
  quoted_columns-IsPlain :
      (fs : List (Field A)) → All IsPlainColumn fs → All IsPlain (quoted_columns q fs)
  unfolding quoted_columns
  quoted_columns-IsPlain [] h = tt
  quoted_columns-IsPlain (f ∷ fs) h =
      (quote_identifier-IsPlain q f.column_name plain h.0, quoted_columns-IsPlain fs h.1)

  insert_head-IsPlain :
      (name : Text) (fs : List (Field A))
      → IsPlain name
      → All IsPlainColumn fs
      → IsPlain (insert_head q name fs)
  unfolding insert_head listed count
  insert_head-IsPlain name fs h k = append-IsPlain (codes "INSERT INTO ") _ refl (
      append-IsPlain (quote_identifier q name) _ (quote_identifier-IsPlain q name plain h) (
        append-IsPlain (codes " (") _ refl (
          append-IsPlain (listed_inner ++ codes ")") (codes " VALUES ")
            (append-IsPlain listed_inner (codes ")")
              (join-IsPlain (codes ", ") _ refl (quoted_columns-IsPlain fs k)) refl)
            refl)))
    where
      listed_inner : Text
      listed_inner = join (codes ", ") (quoted_columns q fs)

  returning-IsMatched :
      (support : SupportsReturning) (primary : Option Text) (fs : List (Field A))
      → IsPlainPrimary primary
      → All IsPlainColumn fs
      → IsMatched {A = A} (say_option (returning q support primary fs))
  unfolding returning count
  returning-IsMatched returning_none primary fs h k = refl
  returning-IsMatched returning_last_insert_id none fs h k = refl
  returning-IsMatched returning_last_insert_id (some name) fs h k =
      append-IsPlain (codes " RETURNING ") _ refl (quote_identifier-IsPlain q name plain h)
  returning-IsMatched returning_columns none fs h k =
      append-IsPlain (codes " RETURNING ") _ refl
        (join-IsPlain (codes ", ") _ refl (quoted_columns-IsPlain fs k))
  returning-IsMatched returning_columns (some name) fs h k =
      append-IsPlain (codes " RETURNING ") _ refl (
        join-IsPlain (codes ", ") _ refl
          (quote_identifier-IsPlain q name plain h, quoted_columns-IsPlain fs k))
  returning-IsMatched returning_unknown primary fs h k = tt

-- Names without placeholders in an object.
abbrev pub IsPlainObject : {F A : Type 0} → UpdateInfo F A → Type 0
IsPlainObject o = All IsPlainColumn o.fields

module _ {F A : Type 0} (q : Text) (plain : IsPlain q) (i : QuerySetInternals F A)
    (plain_table : IsPlain i.table_name) where
  build_create_query-IsMatched :
      (support : SupportsReturning) (os : List (UpdateInfo F A))
      → IsPlainPrimary i.primary
      → All IsPlainObject os
      → All IsFull os
      → IsMatched (build_create_query q support i os)
  unfolding build_create_query count
  build_create_query-IsMatched support [] p h k = refl
  build_create_query-IsMatched support (o ∷ os) p h k =
      <>-IsMatched {A = A} (say (insert_head q i.table_name o.fields)) _
        (insert_head-IsPlain q plain i.table_name o.fields plain_table h.0)
        (<>-IsMatched (separated (codes ", ") (map write_row (o ∷ os))) _
          (separated-IsMatched (codes ", ") (map write_row (o ∷ os)) refl
            (All-map IsFull IsMatched write_row write_row-IsMatched (o ∷ os) k))
          (returning-IsMatched q plain support i.primary o.fields p h.0))

  -- The test of MySQL makes all objects full.
  all_filled-IsFull : (os : List (UpdateInfo F A)) → all_filled os ≡ true → All IsFull os
  unfolding all_filled
  all_filled-IsFull [] h = tt
  all_filled-IsFull (o ∷ os) h = elim (Bool-cases (length o.fields == length o.values)) [
    | inl same ↦ (ground arith, all_filled-IsFull os (rw same at h))
    | inr other ↦ absurd (let k = rw other at h in cc)
  ]

  write_insert-IsMatched :
      (o : UpdateInfo F A)
      → (IsPlainObject o × IsFull o)
      → IsMatched (write_insert q i.table_name o)
  unfolding write_insert
  write_insert-IsMatched o h =
      <>-IsMatched (say (insert_head q i.table_name o.fields)) (write_row o)
        (insert_head-IsPlain q plain i.table_name o.fields plain_table h.0)
        (write_row-IsMatched o h.1)

  both :
      (os : List (UpdateInfo F A))
      → All IsPlainObject os
      → All IsFull os
      → All (λ o. IsPlainObject o × IsFull o) os
  both [] h k = tt
  both (o ∷ os) h k = ((h.0, k.0), both os h.1 k.1)

  build_create_mysql-IsMatched :
      (os : List (UpdateInfo F A)) (text : Text) (args : List A)
      → All IsPlainObject os
      → build_create_mysql q i os ≡ some (text, args)
      → count b'?' text ≡ length args
  unfolding build_create_mysql count
  build_create_mysql-IsMatched os text args h e = elim (Bool-cases (all_filled os)) [
    | inl filled ↦ subst IsMatched (rw filled at e) (
        separated-IsMatched {A = A} (codes "; ") _ refl (
          All-map (λ o. IsPlainObject o × IsFull o) IsMatched (write_insert q i.table_name)
            write_insert-IsMatched os (both os h (all_filled-IsFull os filled))))
    | inr other ↦ absurd (let k = rw other at e in cc)
  ]

  -- Where no quote and no name has a placeholder, the INSERT of objects that have as many values as
  -- fields, with whatever it returns, has as many placeholders as arguments; and so have the
  -- statements of the MySQL compiler for any objects, since it makes none where an object has more or
  -- fewer values than fields.
  pub insert-placeholders :
      (support : SupportsReturning) (os : List (UpdateInfo F A)) (text : Text) (args : List A)
      → IsPlainPrimary i.primary
      → All IsPlainObject os
      → (All IsFull os × (build_create_query q support i os ≡ some (text, args)))
        ⊎ (build_create_mysql q i os ≡ some (text, args))
      → count b'?' text ≡ length args
  insert-placeholders support os text args p h (inl (k, e)) =
      subst IsMatched e (build_create_query-IsMatched support os p h k)
  insert-placeholders support os text args p h (inr e) =
      build_create_mysql-IsMatched os text args h e
