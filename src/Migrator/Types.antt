-- ===== src/Migrator/Types.antt =====
-- The data of the migration engine: src/migrator/engine_table.go, engine_column.go,
-- engine_relation.go, engine_actions.go and the structs of engine.go. `V` is the type of the Go
-- values that the engine carries and does not look into: defaults (`any`) and float64 bounds.
use go_django_queries.Prelude.{
  join, Bool, Option, none, some, List, [], ◌∷◌, ◌++◌, Text, codes, is_empty, if◌then◌else◌,
}
use go_django_queries.Prelude.Int.{ℤ}

-- The error values of the engine.
pub data EngineError : Type 0 where
  invalid_file_name invalid_suffix invalid_format invalid_order invalid_dependency : EngineError
  dependency_not_found cyclic_dependency : Text → EngineError

pub data Action : Type 0 where
  cascade restrict set_null : Action

pub record TargetField (V : Type 0) : Type 0 where
  pub name : Text
  pub column_name : Text
  pub allow_null : Bool
  pub is_primary : Bool
  -- GetDefault(), where the field has that method.
  pub get_default : Option V
  -- Type(), by its name.
  pub type : Text

pub record RelationThrough : Type 0 where
  pub model : Text
  pub source_field : Text
  pub target_field : Text

-- `target_model` is the type name of the content type; `type` is the RelationType.
pub record MigrationRelation (V : Type 0) : Type 0 where
  pub type : ℤ
  pub target_model : Option Text
  pub target_field : Option (TargetField V)
  pub through : Option RelationThrough
  pub on_delete : Action
  pub on_update : Action

pub record Column (V : Type 0) : Type 0 where
  pub name : Text
  pub column : Text
  pub use_in_db : Bool
  pub min_length : ℤ
  pub max_length : ℤ
  pub min_value : V
  pub max_value : V
  pub unique : Bool
  pub nullable : Bool
  pub primary : Bool
  pub auto : Bool
  pub dflt : V
  pub reverse_alias : Text
  pub rel : Option (MigrationRelation V)

-- `table_name` is what i.table.TableName() returns.
pub record Index : Type 0 where
  pub table_name : Text
  pub identifier : Text
  pub type : Text
  pub fields : List Text
  pub unique : Bool
  pub comment : Text

-- (*Index).Name
unfoldable pub index_name : Index → Text
unfolding join
index_name i =
    if is_empty i.identifier
    then i.table_name ++ (codes "_idx_" ++ join (codes "_") i.fields)
    else i.identifier

-- `object_table` is what Object.FieldDefs().TableName() returns, and `fields` lists the ordered
-- map of columns from front to back.
pub record ModelTable (V : Type 0) : Type 0 where
  pub object_table : Text
  pub table : Text
  pub desc : Text
  pub fields : List (Text × Column V)
  pub index : List Index

-- (*ModelTable).TableName
unfoldable pub table_name : {V : Type 0} → ModelTable V → Text
table_name t = if is_empty t.table then t.object_table else t.table

-- `none` is a nil pointer.
pub record Changed (A : Type 0) : Type 0 where
  pub old : Option A
  pub new : Option A

abbrev pub unchanged : {A : Type 0} → A → Changed A
unchanged v = record { old = none; new = some v }

abbrev pub changed : {A : Type 0} → Option A → Option A → Changed A
changed old new = record { old = old; new = new }

pub data ActionType : Type 0 where
  create_table drop_table rename_table add_index drop_index rename_index : ActionType
  add_field alter_field remove_field : ActionType
  -- A number with no constant, such as the zero that an unknown name leaves behind.
  unknown_action : ActionType

pub record MigrationAction (V : Type 0) : Type 0 where
  pub action_type : ActionType
  pub table : Option (Changed (ModelTable V))
  pub field : Option (Changed (Column V))
  pub index : Option (Changed Index)

pub record Dependency : Type 0 where
  pub app_name : Text
  pub model_name : Text
  pub name : Text

pub record MigrationFile (V : Type 0) : Type 0 where
  pub app_name : Text
  pub model_name : Text
  pub name : Text
  pub order : ℤ
  pub dependencies : List Dependency
  pub table : Option (ModelTable V)
  pub actions : List (MigrationAction V)

module _ {V : Type 0} where
  -- (*MigrationFile).addDependency
  unfoldable pub add_dependency : MigrationFile V → Text → Text → Text → MigrationFile V
  add_dependency m app model name = record m {
    dependencies =
        m.dependencies ++ (record { app_name = app; model_name = model; name = name } ∷ []);
  }

  -- (*MigrationFile).addAction
  unfoldable pub add_action :
      MigrationFile V
      → ActionType
      → Option (Changed (ModelTable V))
      → Option (Changed (Column V))
      → Option (Changed Index)
      → MigrationFile V
  add_action m action table column index = record m {
    actions =
        m.actions
        ++ (record { action_type = action; table = table; field = column; index = index } ∷ []);
  }
