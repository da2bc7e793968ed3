-- ===== src/Migrator/Columns.antt =====
-- When two columns are the same: EqualDefaultValue in src/migrator/engine_utils.go and
-- (*Column).Equals in src/migrator/engine_column.go.
use go_django_queries.Prelude.{
  Bool, true, false, not, ◌&&◌, ◌||◌, Option, none, some, text_eq, if◌then◌else◌, Result, ok, panic,
  ◌>>=◌,
}
use go_django_queries.Prelude.Int.{int_eq}
use go_django_queries.Migrator.Types.{TargetField, MigrationRelation, Column, EngineError}

abbrev pub bool_eq : Bool → Bool → Bool
bool_eq true b = b
bool_eq false b = not b

-- What the engine asks of a Go value: package reflect, `==` on float64 and on interfaces, and the
-- comparison of two values by their JSON, which fails where one of them has none.
pub record Values (V : Type 0) : Type 0 where
  pub is_valid : V → Bool
  pub is_pointer : V → Bool
  -- A kind on which IsNil is defined.
  pub is_nilable : V → Bool
  pub is_nil : V → Bool
  pub is_zero : V → Bool
  pub elem_is_zero : V → Bool
  pub is_time : V → Bool
  pub time_equal : V → V → Bool
  pub same_type : V → V → Bool
  -- `convertible a b`: the type of `b` converts to that of `a`; `convert a b` is the result.
  pub convertible : V → V → Bool
  pub convert : V → V → V
  pub deep_equal : V → V → Bool
  pub float_equal : V → V → Bool
  pub interface_equal : V → V → Bool
  pub json_compare : V → V → Option Bool

abbrev pub option_equal : {A : Type 0} → (A → A → Bool) → Option A → Option A → Bool
option_equal eq none none = true
option_equal eq (some a) (some b) = eq a b
option_equal eq none (some b) = false
option_equal eq (some a) none = false

module _ {V : Type 0} (values : Values V) where
  open values use {
    is_valid, is_pointer, is_nilable, is_nil, is_zero, elem_is_zero, is_time, time_equal, same_type,
    convertible, convert, deep_equal, float_equal, interface_equal, json_compare,
  }

  -- The flags aIsZero and bIsZero.
  unfoldable pub counts_as_zero : V → Bool
  counts_as_zero v =
      (is_valid v && (is_pointer v && (is_nil v || elem_is_zero v)))
      || ((is_valid v && (not (is_pointer v) && is_zero v)) || not (is_valid v))

  -- The comparison of two valid values, once the types agree where they can.
  unfoldable pub compare_valid : V → V → Result EngineError Bool
  compare_valid a b =
      if is_pointer a
      then (if not (is_nilable b)
          then panic
          else if not (bool_eq (is_nil a) (is_nil b))
          then ok false
          else if is_nil a || not (is_pointer b)
          then panic
          else if not (bool_eq (elem_is_zero a) (elem_is_zero b))
          then ok false
          else ok (deep_equal a b))
      else (if not (bool_eq (is_zero a) (is_zero b))
          then ok false
          else if is_zero a
          then ok true
          else ok (deep_equal a b))

  -- EqualDefaultValue. Type() on the zero reflect.Value panics.
  unfoldable pub equal_default_value : V → V → Result EngineError Bool
  unfolding counts_as_zero compare_valid
  equal_default_value a b =
      if not (bool_eq (is_valid a) (is_valid b))
      then ok (bool_eq (counts_as_zero a) (counts_as_zero b))
      else if not (is_valid a)
      then panic
      else if is_time a && is_time b
      then ok (time_equal a b)
      else compare_valid a (if not (same_type a b) && convertible a b then convert a b else b)

  -- Defaults are compared by their JSON, and by EqualDefaultValue where that fails.
  unfoldable pub defaults_equal : V → V → Result EngineError Bool
  unfolding equal_default_value
  defaults_equal a b = elim (json_compare a b) [
    | none ↦ equal_default_value a b
    | some equal ↦ ok equal
  ]

  -- Defaults of target fields are compared only where both have the method.
  abbrev pub target_defaults_equal : Option V → Option V → Bool
  target_defaults_equal (some a) (some b) = interface_equal a b
  target_defaults_equal none b = true
  target_defaults_equal (some a) none = true

  unfoldable pub target_field_equals : TargetField V → TargetField V → Bool
  target_field_equals a b =
      text_eq a.name b.name
      && (text_eq a.column_name b.column_name
          && (bool_eq a.allow_null b.allow_null
              && (bool_eq a.is_primary b.is_primary
                  && (target_defaults_equal a.get_default b.get_default && text_eq a.type b.type))))

  unfoldable pub relation_equals : MigrationRelation V → MigrationRelation V → Bool
  unfolding target_field_equals
  relation_equals a b =
      int_eq a.type b.type
      && (option_equal text_eq a.target_model b.target_model
          && option_equal target_field_equals a.target_field b.target_field)

  -- The comparisons before those of the defaults.
  unfoldable pub same_shape : Column V → Column V → Bool
  same_shape a b =
      text_eq a.name b.name
      && (text_eq a.column b.column
          && (int_eq a.min_length b.min_length
              && (int_eq a.max_length b.max_length
                  && (float_equal a.min_value b.min_value
                      && (float_equal a.max_value b.max_value
                          && (bool_eq a.unique b.unique
                              && (bool_eq a.nullable b.nullable
                                  && (bool_eq a.primary b.primary && bool_eq a.auto b.auto))))))))

  -- (*Column).Equals
  unfoldable pub column_equals : Column V → Column V → Result EngineError Bool
  column_equals a b =
      if not (same_shape a b)
      then ok false
      else (defaults_equal a.dflt b.dflt >>= λ equal.
          if not equal
          then ok false
          else ok
              (text_eq a.reverse_alias b.reverse_alias && option_equal relation_equals a.rel b.rel))
