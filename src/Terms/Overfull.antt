-- ===== src/Terms/Overfull.antt =====
-- The casts of src/expr/cast.go whose format has no place for their arguments.
use go_django_queries.Prelude.{
  ℕ, false, none, some, List, [], ◌∷◌, ◌++◌, Text, codes, if◌then◌else◌, ◌==◌, length, map, join,
  ◌≡◌, refl, arith,
}
use mathlib.Core.List.{append_assoc}
use go_django_queries.Compiler.{Sql}
use go_django_queries.RawStatements.{sprintf}
use go_django_queries.Terms.Values.{postgres, sqlite}
use go_django_queries.Terms.Casts.{
  cast_string, cast_float, cast_decimal, find_cast, resolve_entry, cast_sql, cast_format, verbs,
  extra_text, typed_operands,
}

module _ {A : Type 0} where
  -- With `n` arguments the cast to a type, and behind it what fmt.Sprintf says of operands that no
  -- verb takes, its arguments as ints; with any other number a panic.
  abbrev pub overfull : ℕ → Text → List Text → Text → List A → Sql A
  overfull n type args text more =
      if n == length args
      then some (
        codes "CAST("
            ++ (text
                ++ (codes " AS "
                    ++ (type
                        ++ (codes ")%!(EXTRA "
                            ++ (join (codes ", ") (map (λ a. codes "int=" ++ a) args)
                                ++ codes ")"))))),
        more,
      )
      else none

  -- On SQLite a cast to a string with one argument, and to a float or a decimal with two, and on
  -- Postgres a cast to a string with one, writes the cast without the arguments and behind it the text
  -- %!(EXTRA ...) with them, for every column; Resolve panics on any other number of arguments.
  pub cast_sql-overfull :
      (args : List Text) (text : Text) (more : List A)
      → (cast_sql (resolve_entry sqlite cast_string args) args (some (text, more))
          ≡ overfull 1 (codes "TEXT") args text more)
        × (cast_sql (resolve_entry sqlite cast_float args) args (some (text, more))
            ≡ overfull 2 (codes "REAL") args text more)
        × (cast_sql (resolve_entry sqlite cast_decimal args) args (some (text, more))
            ≡ overfull 2 (codes "REAL") args text more)
        × (cast_sql (resolve_entry postgres cast_string args) args (some (text, more))
            ≡ overfull 1 (codes "TEXT") args text more)
  unfolding resolve_entry find_cast cast_sql cast_format sprintf verbs extra_text typed_operands
      join
  cast_sql-overfull [] text more = (refl, refl, refl, refl)
  cast_sql-overfull (n ∷ []) text more = (simp (append_assoc), refl, refl, simp (append_assoc))
  cast_sql-overfull (n ∷ m ∷ []) text more = (refl, simp (append_assoc), simp (append_assoc), refl)
  cast_sql-overfull (n ∷ m ∷ k ∷ args) text more =
      let e : 1 == length (n ∷ m ∷ k ∷ args) ≡ false = ground arith in
      let f : 2 == length (n ∷ m ∷ k ∷ args) ≡ false = ground arith in
      (rw e refl, rw f refl, rw f refl, rw e refl)
