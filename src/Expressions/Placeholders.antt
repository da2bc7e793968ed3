-- ===== src/Expressions/Placeholders.antt =====
-- The placeholders and the arguments of the SQL of src/expr/expr_logical.go.
use go_django_queries.Prelude.{
  ℕ, ◌+◌, Bool, true, false, Option, none, some, List, [], ◌∷◌, ◌++◌, Text, codes, length,
  length-append, if◌then◌else◌, ◌==◌, ◌≡◌, refl, arith, Bool-cases, inl, inr, subst,
}
use go_django_queries.Expressions.{
  Node, Expression, Expressions, node, group, nil, cons, separator, around, behind, node_sql,
  group_sql, has_many, to_sql, children_sql,
}

-- How often a byte stands in a text.
unfoldable pub count : ℕ → Text → ℕ
count c [] = 0
count c (d ∷ s) = (if c == d then 1 else 0) + count c s

pub count-append : (c : ℕ) (s t : Text) → count c (s ++ t) ≡ count c s + count c t
unfolding count
count-append c [] t = omega arith
count-append c (d ∷ s) t = omega (arith, count-append c s t)

pub count-separator : (op : Text) → count b'?' op ≡ 0 → count b'?' (separator op) ≡ 0
unfolding count
count-separator [] h = refl
count-separator (c ∷ op) h = omega (arith, count-append b'?' (c ∷ op) (codes " "), h)

module _ {A : Type 0} where
  -- SQL that was written, with as many placeholders as arguments.
  abbrev pub IsMatched : Option (Text × List A) → Type 0
  IsMatched none = Unit {0}
  IsMatched (some (text, args)) = count b'?' text ≡ length args

  pub around-IsMatched :
      (before after : Text) (s : Option (Text × List A))
      → count b'?' before ≡ 0
      → count b'?' after ≡ 0
      → IsMatched s
      → IsMatched (around before after s)
  around-IsMatched before after none h k m = tt
  around-IsMatched before after (some (text, args)) h k m =
      omega (arith, count-append b'?' before (text ++ after), count-append b'?' text after)

  pub behind-IsMatched :
      (s t : Option (Text × List A)) (sep : Text)
      → count b'?' sep ≡ 0
      → IsMatched s
      → IsMatched t
      → IsMatched (behind s sep t)
  behind-IsMatched none t sep h k m = tt
  behind-IsMatched (some (text, args)) none sep h k m = tt
  behind-IsMatched (some (text, args)) (some (more, rest)) sep h k m = omega (
    arith,
    count-append b'?' text (sep ++ more),
    count-append b'?' sep more,
    length-append args rest,
  )

  pub group_sql-IsMatched :
      (negated many : Bool) (s : Option (Text × List A))
      → IsMatched s
      → IsMatched (group_sql negated many s)
  unfolding group_sql count
  group_sql-IsMatched negated many s m =
      around-IsMatched (if negated then codes "NOT " else []) [] _ (not-plain negated) refl
        (inner many)
    where
      not-plain : (b : Bool) → count b'?' (if b then codes "NOT " else []) ≡ 0
      not-plain true = refl
      not-plain false = refl

      inner : (b : Bool) → IsMatched (if b then around (codes "(") (codes ")") s else s)
      inner true = around-IsMatched (codes "(") (codes ")") s refl refl m
      inner false = m

module _ {F A : Type 0} where
  node_sql-IsMatched : (n : Node F A) → IsMatched n.sql → IsMatched (node_sql n)
  unfolding node_sql count
  node_sql-IsMatched n m = elim (Bool-cases n.negated) [
    | inl negated ↦
        rw (negated, node_sql) (around-IsMatched (codes "NOT (") (codes ")") n.sql refl refl m)
    | inr plain ↦ rw (plain, node_sql) m
  ]

-- The functions of all nodes write one placeholder for each argument that they return, and no
-- operator has a placeholder.
unfoldable mutual
  pub IsSound : {F A : Type 0} → Expression F A → Type 0
  IsSound (node n) = IsMatched n.sql
  IsSound (group children op negated) = (count b'?' op ≡ 0) × AreSound children

  pub AreSound : {F A : Type 0} → Expressions F A → Type 0
  AreSound nil = Unit {0}
  AreSound (cons e es) = IsSound e × AreSound es

mutual
  unfolding to_sql IsSound count

  pub to_sql-IsMatched : {F A : Type 0} (e : Expression F A) → IsSound e → IsMatched (to_sql e)
  to_sql-IsMatched (node n) h = node_sql-IsMatched n h
  to_sql-IsMatched (group children op negated) h =
      group_sql-IsMatched negated (has_many children) _ (children_sql-IsMatched op children h.0 h.1)

  children_sql-IsMatched :
      {F A : Type 0} (op : Text) (es : Expressions F A)
      → count b'?' op ≡ 0
      → AreSound es
      → IsMatched (children_sql op es)
  children_sql-IsMatched op nil h k = refl
  children_sql-IsMatched op (cons e nil) h k = to_sql-IsMatched e k.0
  children_sql-IsMatched op (cons e (cons f es)) h k =
      behind-IsMatched (to_sql e) _ (separator op) (count-separator op h) (to_sql-IsMatched e k.0)
        (children_sql-IsMatched op (cons f es) h k.1)

-- Where the functions of all nodes write one placeholder for each argument that they return, and no
-- operator has a placeholder, SQL that an expression writes has as many placeholders as it returns
-- arguments, however the expression is nested and negated.
pub placeholders-length :
    {F A : Type 0} (e : Expression F A) (text : Text) (args : List A)
    → IsSound e
    → to_sql e ≡ some (text, args)
    → count b'?' text ≡ length args
placeholders-length e text args sound h = subst IsMatched h (to_sql-IsMatched e sound)
