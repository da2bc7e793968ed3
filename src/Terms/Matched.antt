-- ===== src/Terms/Matched.antt =====
-- Placeholders and arguments of what the functions of src/expr/funcs.go write.
use go_django_queries.Prelude.{List, [], ◌∷◌, ◌++◌, Text, codes, All, refl, Bool-cases, inl, inr}
use go_django_queries.Expressions.{around}
use go_django_queries.Expressions.Placeholders.{count, IsMatched, around-IsMatched}
use go_django_queries.Compiler.{Sql, say, ◌<>◌, separated}
use go_django_queries.Compiler.Matched.{
  IsPlain, append-IsPlain, <>-IsMatched, say_first-IsMatched, separated-IsMatched,
}
use go_django_queries.Terms.Values.{DriverType, mysql, mariadb, postgres, sqlite, other_driver}
use go_django_queries.Terms.Functions.{
  Param, expression, constant, nothing, FuncName, unary, coalesce, concat, substr, now, unary_sql,
  at_least_two, coalesce_sql, concat_on, concat_sql, param_sql, writes_nothing, substr_from,
  between, substr_for, substr_parts, substr_sql, now_sql, func_sql,
}

module _ {A : Type 0} where
  -- A parameter that writes a placeholder for each argument.
  abbrev pub IsSoundParam : Param A → Type 0
  IsSoundParam (expression s) = IsMatched s
  IsSoundParam (constant text) = IsPlain text
  IsSoundParam nothing = Unit {0}

  param_sql-IsMatched : (p : Param A) → IsSoundParam p → IsMatched (param_sql p)
  unfolding count
  param_sql-IsMatched (expression s) h = h
  param_sql-IsMatched (constant text) h = h
  param_sql-IsMatched nothing h = refl

  unary_sql-IsMatched :
      (name : Text) (ss : List (Sql A))
      → IsPlain name
      → All IsMatched ss
      → IsMatched (unary_sql name ss)
  unfolding unary_sql count
  unary_sql-IsMatched name [] h k = tt
  unary_sql-IsMatched name (s ∷ []) h k =
      around-IsMatched (name ++ codes "(") (codes ")") s (append-IsPlain name (codes "(") h refl)
        refl k.0
  unary_sql-IsMatched name (s ∷ t ∷ rest) h k = tt

  at_least_two-IsMatched :
      (ss : List (Sql A)) (s : Sql A) → IsMatched s → IsMatched (at_least_two ss s)
  at_least_two-IsMatched [] s h = tt
  at_least_two-IsMatched (t ∷ []) s h = tt
  at_least_two-IsMatched (t ∷ u ∷ rest) s h = h

  joined-IsMatched :
      (opening sep : Text) (ss : List (Sql A))
      → IsPlain opening
      → IsPlain sep
      → All IsMatched ss
      → IsMatched (around opening (codes ")") (separated sep ss))
  unfolding count
  joined-IsMatched opening sep ss h k m =
      around-IsMatched opening (codes ")") _ h refl (separated-IsMatched sep ss k m)

  concat_on-IsMatched :
      (d : DriverType) (ss : List (Sql A)) → All IsMatched ss → IsMatched (concat_on d ss)
  unfolding count
  concat_on-IsMatched mysql ss m = joined-IsMatched (codes "CONCAT(") (codes ", ") ss refl refl m
  concat_on-IsMatched mariadb ss m = joined-IsMatched (codes "CONCAT(") (codes ", ") ss refl refl m
  concat_on-IsMatched postgres ss m = joined-IsMatched (codes "CONCAT(") (codes ", ") ss refl refl m
  concat_on-IsMatched sqlite ss m = joined-IsMatched (codes "(") (codes " || ") ss refl refl m
  concat_on-IsMatched other_driver ss m = tt

  between-IsMatched :
      (opening first second : Text) (s start end : Sql A)
      → IsPlain opening
      → IsPlain first
      → IsPlain second
      → IsMatched s
      → IsMatched start
      → IsMatched end
      → IsMatched (between opening first second s start end)
  unfolding count
  between-IsMatched opening first second s start end h k l m n o = say_first-IsMatched opening _ h (
      <>-IsMatched s _ m (
        say_first-IsMatched first _ k (
          <>-IsMatched start _ n
            (say_first-IsMatched second _ l (<>-IsMatched end (say (codes ")")) o refl)))))

  from-IsMatched :
      (opening first : Text) (s start : Sql A)
      → IsPlain opening
      → IsPlain first
      → IsMatched s
      → IsMatched start
      → IsMatched (say opening <> (s <> (say first <> (start <> say (codes ")")))))
  unfolding count
  from-IsMatched opening first s start h k m n = say_first-IsMatched opening _ h (
      <>-IsMatched s _ m
        (say_first-IsMatched first _ k (<>-IsMatched start (say (codes ")")) n refl)))

  substr_from-IsMatched :
      (d : DriverType) (s start : Sql A)
      → IsMatched s
      → IsMatched start
      → IsMatched (substr_from d s start)
  unfolding count
  substr_from-IsMatched mysql s start m n =
      from-IsMatched (codes "SUBSTRING(") (codes ", ") s start refl refl m n
  substr_from-IsMatched mariadb s start m n =
      from-IsMatched (codes "SUBSTRING(") (codes ", ") s start refl refl m n
  substr_from-IsMatched postgres s start m n =
      from-IsMatched (codes "SUBSTRING(") (codes " FROM ") s start refl refl m n
  substr_from-IsMatched sqlite s start m n =
      from-IsMatched (codes "SUBSTR(") (codes ", ") s start refl refl m n
  substr_from-IsMatched other_driver s start m n = tt

  substr_for-IsMatched :
      (d : DriverType) (s start end : Sql A)
      → IsMatched s
      → IsMatched start
      → IsMatched end
      → IsMatched (substr_for d s start end)
  unfolding count
  substr_for-IsMatched mysql s start end m n o =
      between-IsMatched (codes "SUBSTRING(") (codes ", ") (codes ", ") s start end refl refl refl m
        n o
  substr_for-IsMatched mariadb s start end m n o =
      between-IsMatched (codes "SUBSTRING(") (codes ", ") (codes ", ") s start end refl refl refl m
        n o
  substr_for-IsMatched postgres s start end m n o =
      between-IsMatched (codes "SUBSTRING(") (codes " FROM ") (codes " FOR ") s start end refl refl
        refl m n o
  substr_for-IsMatched sqlite s start end m n o =
      between-IsMatched (codes "SUBSTR(") (codes ", ") (codes ", ") s start end refl refl refl m n o
  substr_for-IsMatched other_driver s start end m n o = tt

  substr_parts-IsMatched :
      (d : DriverType) (s start end : Sql A)
      → IsMatched s
      → IsMatched start
      → IsMatched end
      → IsMatched (substr_parts d s start end)
  unfolding substr_parts
  substr_parts-IsMatched d s start end m n o = elim (Bool-cases (writes_nothing start)) [
    | inl unwritten ↦ rw (unwritten, substr_parts) tt
    | inr begun ↦ elim (Bool-cases (writes_nothing end)) [
      | inl endless ↦
          rw (begun, endless, substr_parts)
            (<>-IsMatched (substr_from d s start) end (substr_from-IsMatched d s start m n) o)
      | inr ended ↦ rw (begun, ended, substr_parts) (substr_for-IsMatched d s start end m n o)
    ]
  ]

  substr_sql-IsMatched :
      (d : DriverType) (ss : List (Sql A)) (ps : List (Param A))
      → All IsMatched ss
      → All IsSoundParam ps
      → IsMatched (substr_sql d ss ps)
  unfolding substr_sql
  substr_sql-IsMatched d [] ps m n = tt
  substr_sql-IsMatched d (s ∷ t ∷ rest) ps m n = tt
  substr_sql-IsMatched d (s ∷ []) [] m n = tt
  substr_sql-IsMatched d (s ∷ []) (p ∷ []) m n = tt
  substr_sql-IsMatched d (s ∷ []) (p ∷ q ∷ []) m n =
      substr_parts-IsMatched d s (param_sql p) (param_sql q) m.0 (param_sql-IsMatched p n.0)
        (param_sql-IsMatched q n.1.0)
  substr_sql-IsMatched d (s ∷ []) (p ∷ q ∷ r ∷ ps) m n = tt

now_sql-IsMatched : (A : Type 0) (d : DriverType) → IsMatched (now_sql {A = A} d)
unfolding now_sql count
now_sql-IsMatched A mysql = refl
now_sql-IsMatched A mariadb = refl
now_sql-IsMatched A postgres = refl
now_sql-IsMatched A sqlite = refl
now_sql-IsMatched A other_driver = tt

-- A function whose name has no placeholder.
abbrev pub IsPlainName : FuncName → Type 0
IsPlainName (unary name) = IsPlain name
IsPlainName _ = Unit {0}

module _ {A : Type 0} where
  pub func_sql-IsMatched :
      (f : FuncName) (d : DriverType) (ss : List (Sql A)) (ps : List (Param A))
      → IsPlainName f
      → All IsMatched ss
      → All IsSoundParam ps
      → IsMatched (func_sql f d ss ps)
  unfolding func_sql coalesce_sql concat_sql count
  func_sql-IsMatched (unary name) d ss ps h m n = unary_sql-IsMatched name ss h m
  func_sql-IsMatched coalesce d ss ps h m n =
      at_least_two-IsMatched ss _ (joined-IsMatched (codes "COALESCE(") (codes ", ") ss refl refl m)
  func_sql-IsMatched concat d ss ps h m n = at_least_two-IsMatched ss _ (concat_on-IsMatched d ss m)
  func_sql-IsMatched substr d ss ps h m n = substr_sql-IsMatched d ss ps m n
  func_sql-IsMatched now d ss ps h m n = now_sql-IsMatched A d
