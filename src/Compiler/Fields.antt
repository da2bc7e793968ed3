-- ===== src/Compiler/Fields.antt =====
-- The fields that a query names: FieldInfo and its WriteField, WriteFields and WriteUpdateFields in
-- src/queryset_types.go, with what newExpressionInfo of src/queryset_compiler_generic.go hands them.
-- A field is what these read of it; a virtual field has the function SQL, which may panic.
use go_django_queries.Prelude.{
  Bool, true, false, ◌||◌, Option, none, some, List, [], ◌∷◌, ◌++◌, Text, codes, is_empty,
  if◌then◌else◌,
}
use go_django_queries.Alias.{Generator, get_field_alias}
use go_django_queries.Compiler.{Sql, TableColumn, say, ◌<>◌, without_args, format_column}

-- Model is nil or not; the functions of the compiler are those of this library.
pub record ExpressionInfo : Type 0 where
  pub has_model : Bool
  pub alias_gen : Generator
  pub for_update : Bool

pub record Table : Type 0 where
  pub name : Text
  pub alias : Text

pub record Field (A : Type 0) : Type 0 where
  pub column_name : Text
  pub alias : Option Text
  pub virtual_sql : Option (ExpressionInfo → Sql A)

pub record Source (A : Type 0) : Type 0 where
  pub table : Table
  pub fields : List (Field A)

-- Of Through its own Through is not read.
pub record FieldInfo (A : Type 0) : Type 0 where
  pub source : Source A
  pub through : Option (Source A)

-- What WriteField did: nothing, for a virtual field without SQL; a virtual field; or a column.
pub data Written (A : Type 0) : Type 0 where
  nothing : Written A
  virtual column : Sql A → Written A

abbrev pub table_or_name : Table → Text
table_or_name t = if is_empty t.alias then t.name else t.alias

-- The alias under which a virtual field is selected.
unfoldable pub selected_as : ExpressionInfo → Table → Option Text → Bool → Text
selected_as inf t none for_update = []
selected_as inf t (some alias) for_update =
    if is_empty alias || for_update
    then []
    else get_field_alias inf.alias_gen (table_or_name t) alias

abbrev pub comma : Bool → Text
comma written = if written then codes ", " else []

module _ {A : Type 0} where
  abbrev pub with_args : List A → Sql A → Sql A
  with_args args none = none
  with_args args (some (text, extra)) = some (text, args ++ extra)

  abbrev pub raw_column : Text → Text → TableColumn A
  raw_column raw alias = record {
    table_or_alias = [];
    field_alias = alias;
    raw_sql = raw;
    field_column = none;
    for_update = false;
    value = none;
  }

  abbrev pub column_of_field : Table → Text → Bool → TableColumn A
  column_of_field t name for_update = record {
    table_or_alias = if for_update then [] else table_or_name t;
    field_alias = [];
    raw_sql = [];
    field_column = some name;
    for_update = for_update;
    value = none;
  }

  -- The SQL of a virtual field.
  unfoldable pub write_virtual : Text → Text → Sql A → Written A
  write_virtual q alias none = virtual none
  write_virtual q alias (some ([], args)) = nothing
  write_virtual q alias (some (c ∷ raw, args)) =
      virtual (with_args args (format_column q (raw_column (c ∷ raw) alias)))

  -- The test for a VirtualField.
  abbrev pub virtual_of : ExpressionInfo → Field A → Option (ExpressionInfo → Sql A)
  virtual_of inf f = if inf.has_model then f.virtual_sql else none

  -- The two branches of WriteField.
  abbrev pub write_either :
      Text → ExpressionInfo → Table → Bool → Field A → Option (ExpressionInfo → Sql A) → Written A
  write_either q inf t for_update f none =
      column (without_args (format_column q (column_of_field t f.column_name for_update)))
  write_either q inf t for_update f (some sql) =
      write_virtual q (selected_as inf t f.alias for_update) (sql inf)

  -- WriteField
  unfoldable pub write_field : Text → ExpressionInfo → Table → Bool → Field A → Written A
  unfolding write_virtual selected_as
  write_field q inf t for_update f = write_either q inf t for_update f (virtual_of inf f)

  abbrev pub written_sql : Written A → Sql A
  written_sql nothing = say []
  written_sql (virtual s) = s
  written_sql (column s) = s

  abbrev pub is_written : Written A → Bool
  is_written nothing = false
  is_written (virtual s) = true
  is_written (column s) = true

  -- The loop over fields, with the flag written before and after.
  unfoldable pub write_loop :
      Text → ExpressionInfo → Table → Bool → List (Field A) → Bool → Sql A × Bool
  unfolding write_field ◌<>◌
  write_loop q inf t for_update [] written = (say [], written)
  write_loop q inf t for_update (f ∷ fs) written =
      let w = write_field q inf t for_update f in
      let rest = write_loop q inf t for_update fs (is_written w || written) in
      (say (comma written) <> (written_sql w <> rest.0), rest.1)

  -- The fields of the relation in between.
  abbrev pub write_through : Text → ExpressionInfo → Bool → Option (Source A) → Sql A × Bool
  write_through q inf for_update none = (say [], false)
  write_through q inf for_update (some s) = write_loop q inf s.table for_update s.fields false

  -- WriteFields, and with `for_update` WriteUpdateFields.
  unfoldable pub write_fields : Text → ExpressionInfo → Bool → FieldInfo A → Sql A
  unfolding write_loop ◌<>◌
  write_fields q inf for_update info =
      let before = write_through q inf for_update info.through in
      before.0 <> (write_loop q inf info.source.table for_update info.source.fields before.1).0
