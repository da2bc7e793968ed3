-- ===== src/Expressions.antt =====
-- The logical expressions of src/expr/expr_logical.go: ExprNode and ExprGroup, their SQL, and
-- Resolve. `F` is the type of fields and `A` that of arguments; what GetLookup makes of a lookup,
-- and Resolve of a field, are parameters. A clone is the value itself. The children of a group are
-- nodes and groups.
pub mod Resolved
pub mod Placeholders
pub mod Sound
mod Tests
use go_django_queries.Prelude.{
  ℕ, zero, suc, ◌+◌, Bool, true, false, ◌&&◌, not, Option, none, some, List, [], ◌∷◌, ◌++◌, Text,
  codes, is_empty, if◌then◌else◌, ◌==◌, ltb,
}

-- `sql` is what the function of that name writes and returns; none is the nil function.
pub record Node (F A : Type 0) : Type 0 where
  pub sql : Option (Text × List A)
  pub args : List A
  pub negated : Bool
  pub field : F
  pub lookup : Text
  pub used : Bool

mutual
  pub data Expression (F A : Type 0) : Type 0 where
    node : Node F A → Expression F A
    group : Expressions F A → Text → Bool → Expression F A

  pub data Expressions (F A : Type 0) : Type 0 where
    nil : Expressions F A
    cons : Expression F A → Expressions F A → Expressions F A

abbrev pub op_and : Text
op_and = codes "AND"

abbrev pub op_or : Text
op_or = codes "OR"

-- What stands between two children.
abbrev pub separator : Text → Text
separator op = if is_empty op then [] else codes " " ++ (op ++ codes " ")

module _ {A : Type 0} where
  -- Text that is written around other text.
  abbrev pub around : Text → Text → Option (Text × List A) → Option (Text × List A)
  around before after none = none
  around before after (some (text, args)) = some (before ++ (text ++ after), args)

  -- One piece of SQL behind another.
  abbrev pub behind :
      Option (Text × List A) → Text → Option (Text × List A) → Option (Text × List A)
  behind none sep s = none
  behind (some (text, args)) sep none = none
  behind (some (text, args)) sep (some (more, rest)) = some (text ++ (sep ++ more), args ++ rest)

  -- The parentheses and NOT of (*ExprGroup).SQL.
  unfoldable pub group_sql : Bool → Bool → Option (Text × List A) → Option (Text × List A)
  group_sql negated many inner =
      around (if negated then codes "NOT " else []) []
        (if many then around (codes "(") (codes ")") inner else inner)

module _ {F A : Type 0} where
  -- Expr, once the field is an expression.
  abbrev pub expr : F → Text → List A → Expression F A
  expr field operation value = node (record {
    sql = none;
    args = value;
    negated = false;
    field = field;
    lookup = operation;
    used = false;
  })

  -- And and Or, and the methods of that name.
  abbrev pub and_of : Expressions F A → Expression F A
  and_of exprs = group exprs op_and false

  abbrev pub or_of : Expressions F A → Expression F A
  or_of exprs = group exprs op_or false

  abbrev pub and_with : Expression F A → Expressions F A → Expression F A
  and_with e exprs = group (cons e exprs) op_and false

  abbrev pub or_with : Expression F A → Expressions F A → Expression F A
  or_with e exprs = group (cons e exprs) op_or false

  -- Not
  unfoldable pub set_not : Bool → Expression F A → Expression F A
  set_not b (node n) = node (record n { negated = b })
  set_not b (group children op negated) = group children op b

  abbrev pub has_many : Expressions F A → Bool
  has_many nil = false
  has_many (cons e nil) = false
  has_many (cons e (cons f es)) = true

  -- (*ExprNode).SQL; calling a nil function panics, which is none.
  unfoldable pub node_sql : Node F A → Option (Text × List A)
  node_sql n = if n.negated then around (codes "NOT (") (codes ")") n.sql else n.sql

unfoldable mutual
  unfolding node_sql group_sql

  -- SQL
  pub to_sql : {F A : Type 0} → Expression F A → Option (Text × List A)
  to_sql (node n) = node_sql n
  to_sql (group children op negated) =
      group_sql negated (has_many children) (children_sql op children)

  -- The loop over the children.
  pub children_sql : {F A : Type 0} → Text → Expressions F A → Option (Text × List A)
  children_sql op nil = some ([], [])
  children_sql op (cons e nil) = to_sql e
  children_sql op (cons e (cons f es)) =
      behind (to_sql e) (separator op) (children_sql op (cons f es))

-- What Resolve asks for: whether ExpressionInfo has a model, Resolve of a field, and GetLookup, where
-- none is an error, on which Resolve panics.
pub record Resolver (I F A : Type 0) : Type 0 where
  pub has_model : I → Bool
  pub resolve_field : I → F → F
  pub get_lookup : I → Text → F → List A → Option (Text × List A)

module _ {I F A : Type 0} (resolver : Resolver I F A) where
  -- The node once its lookup is found.
  abbrev pub with_sql : I → Node F A → Option (Text × List A) → Option (Expression F A)
  with_sql inf n none = none
  with_sql inf n (some found) = some (
      node (record n { sql = some found; field = resolver.resolve_field inf n.field; used = true }))

  -- The tests of (*ExprNode).Resolve: for a model, and for a node that was resolved before.
  abbrev pub resolve_if :
      Bool → Bool → Option (Expression F A) → Option (Expression F A) → Option (Expression F A)
  resolve_if false used self fresh = none
  resolve_if true true self fresh = self
  resolve_if true false self fresh = fresh

  -- (*ExprNode).Resolve; none is a panic.
  unfoldable pub resolve_node : I → Node F A → Option (Expression F A)
  resolve_node inf n = resolve_if (resolver.has_model inf) n.used (some (node n)) (
      with_sql inf n (resolver.get_lookup inf n.lookup (resolver.resolve_field inf n.field) n.args))

  abbrev pub to_group : Text → Bool → Option (Expressions F A) → Option (Expression F A)
  to_group op negated none = none
  to_group op negated (some children) = some (group children op negated)

  abbrev pub to_cons : Option (Expression F A) → Option (Expressions F A) → Option (Expressions F A)
  to_cons none es = none
  to_cons (some e) none = none
  to_cons (some e) (some es) = some (cons e es)

  unfoldable mutual
    unfolding resolve_node

    -- Resolve
    pub resolve : I → Expression F A → Option (Expression F A)
    resolve inf (node n) = resolve_node inf n
    resolve inf (group children op negated) = to_group op negated (resolve_all inf children)

    -- The loop over the children of (*ExprGroup).Resolve.
    pub resolve_all : I → Expressions F A → Option (Expressions F A)
    resolve_all inf nil = some nil
    resolve_all inf (cons e es) = to_cons (resolve inf e) (resolve_all inf es)
