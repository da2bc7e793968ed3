-- ===== src/Terms/Values.antt =====
-- The value expression of src/expr/common.go: its Clone, Resolve and SQL. A value is what these ask
-- of it by reflection.
use go_django_queries.Prelude.{
  Bool, true, false, Option, none, some, [], ◌∷◌, ◌++◌, Text, codes, if◌then◌else◌,
}
use go_django_queries.Compiler.{Sql}

-- The types of drivers that the source tells apart.
pub data DriverType : Type 0 where
  mysql mariadb postgres sqlite other_driver : DriverType

-- reflect.Kind, as far as SQL asks for it.
pub data ValueKind : Type 0 where
  string_kind int_kind float_kind bool_kind bytes_kind slice_kind other_kind : ValueKind

-- The cases of the type switch of Resolve: numbers are printed.
pub data UnsafeValue : Type 0 where
  string_value integer_value float_value : Text → UnsafeValue
  bool_value : Bool → UnsafeValue
  bytes_value nil_value unsupported : UnsafeValue

-- `kind` and `as_unsafe` classify a value, and `printed` is %v of it.
pub record ValueClass (A : Type 0) : Type 0 where
  pub kind : A → ValueKind
  pub as_unsafe : A → UnsafeValue
  pub printed : A → Text

-- `replaced` is the text that Resolve puts in place of the value.
pub record Value (A : Type 0) : Type 0 where
  pub v : A
  pub replaced : Option Text
  pub used : Bool
  pub is_unsafe : Bool
  pub driver : Option DriverType
  pub placeholder : Text

-- The type that Postgres casts to.
unfoldable pub postgres_cast : ValueKind → Option Text
postgres_cast string_kind = some (codes "::TEXT")
postgres_cast int_kind = some (codes "::INT")
postgres_cast float_kind = some (codes "::FLOAT")
postgres_cast bool_kind = some (codes "::BOOLEAN")
postgres_cast bytes_kind = some (codes "::BYTEA")
postgres_cast slice_kind = some (codes "::TEXT[]")
postgres_cast other_kind = none

-- The text of an unsafe value.
unfoldable pub unsafe_text : (Text → Text) → UnsafeValue → Option Text
unsafe_text quote (string_value s) = some (quote s)
unsafe_text quote (integer_value s) = some s
unsafe_text quote (float_value s) = some s
unsafe_text quote (bool_value true) = some (codes "1")
unsafe_text quote (bool_value false) = some (codes "0")
unsafe_text quote bytes_value = none
unsafe_text quote nil_value = some (codes "NULL")
unsafe_text quote unsupported = none

-- (*value).Clone
unfoldable pub clone_value : {A : Type 0} → Value A → Value A
clone_value e = record e { driver = none; placeholder = [] }

module _ {A : Type 0} (class : ValueClass A) where
  -- Value, of what is no expression; normalizeDefinerArg is done.
  abbrev pub new_value : A → Bool → Value A
  new_value v is_unsafe = record {
    v = v;
    replaced = none;
    used = false;
    is_unsafe = is_unsafe;
    driver = none;
    placeholder = [];
  }

  abbrev pub shown : Value A → Option Text → Text
  shown e none = class.printed e.v
  shown e (some text) = text

  abbrev pub with_cast : Value A → Option Text → Sql A
  with_cast e none = none
  with_cast e (some cast) = some (e.placeholder ++ cast, e.v ∷ [])

  abbrev pub safe_sql : Value A → Option DriverType → Sql A
  safe_sql e (some postgres) = with_cast e (postgres_cast (class.kind e.v))
  safe_sql e d = some (e.placeholder, e.v ∷ [])

  -- (*value).SQL
  unfoldable pub value_sql : Value A → Sql A
  unfolding postgres_cast
  value_sql e = if e.is_unsafe then some (shown e e.replaced, []) else safe_sql e e.driver

  abbrev pub with_replaced : Value A → Option Text → Option (Value A)
  with_replaced e none = none
  with_replaced e (some text) = some (record e { replaced = some text })

  -- (*value).Resolve behind its first test; none is a panic.
  unfoldable pub resolve_value : (Text → Text) → DriverType → Text → Value A → Option (Value A)
  unfolding clone_value unsafe_text
  resolve_value quote d mark e =
      let fresh : Value A = record (clone_value e) {
        used = true;
        driver = some d;
        placeholder = mark;
      } in
      if e.is_unsafe
      then with_replaced fresh (unsafe_text quote (class.as_unsafe e.v))
      else some fresh
