-- ===== src/Terms/Data.antt =====
-- The types of expressions in src/expr: String and LogicalOp, field, value, namedExpression,
-- chainExpr, logicalChainExpr, Function, castExpr, CaseExpression, ExprGroup and
-- RawNamedExpression. `E` stands for the expressions of other types, ExprNode among them.
use go_django_queries.Prelude.{Bool, Option, List, Text}
use go_django_queries.RawStatements.Statements.{ResolvedField, RawExpression}
use go_django_queries.Terms.Values.{DriverType, Value}
use go_django_queries.Terms.Functions.{FuncName}
use go_django_queries.Terms.Casts.{CastType, CastFuncEntry}

pub record FieldState (A : Type 0) : Type 0 where
  pub name : Text
  pub field : Option (ResolvedField A)
  pub used : Bool

-- The state of a namedExpression, and of a logicalChainExpr.
pub record NamedState (A : Type 0) : Type 0 where
  pub name : Text
  pub field : Option (ResolvedField A)
  pub for_update : Bool
  pub used : Bool

-- `func` is the function that Resolve found, with the driver that it was found for.
pub record FunctionState : Type 0 where
  pub func_lookup : Text
  pub func : Option (FuncName × DriverType)
  pub used : Bool

pub record CastState : Type 0 where
  pub typ : CastType
  pub entry : Option CastFuncEntry
  pub args : List Text
  pub used : Bool

-- The flags of `chain` are `used` and `forUpdate`, those of `cases` are `used` and whether there is an
-- expression info.
mutual
  pub data Term (E A : Type 0) : Type 0 where
    string logical_op : Text → Term E A
    field : FieldState A → Term E A
    value : Value A → Term E A
    named : NamedState A → Term E A → Term E A
    logical : NamedState A → Terms E A → Term E A
    chain : Bool → Bool → Terms E A → Term E A
    function : FunctionState → Terms E A → Params E A → Term E A
    cast : CastState → Term E A → Term E A
    cases : Bool → Bool → Whens E A → MaybeTerm E A → Term E A
    group : Text → Bool → Terms E A → Term E A
    raw : RawExpression A → Term E A
    other : E → Term E A

  pub data Terms (E A : Type 0) : Type 0 where
    nil : Terms E A
    cons : Term E A → Terms E A → Terms E A

  pub data MaybeTerm (E A : Type 0) : Type 0 where
    absent : MaybeTerm E A
    present : Term E A → MaybeTerm E A

  -- lhs, rhs and then of each clause.
  pub data Whens (E A : Type 0) : Type 0 where
    no_whens : Whens E A
    when : MaybeTerm E A → MaybeTerm E A → MaybeTerm E A → Whens E A → Whens E A

  pub data Params (E A : Type 0) : Type 0 where
    no_params : Params E A
    term_param : Term E A → Params E A → Params E A
    constant_param : Text → Params E A → Params E A
    nil_param : Params E A → Params E A
