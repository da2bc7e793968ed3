-- ===== src/Migrator/FileName.antt =====
-- Migration file names: generateMigrationFileName and parseMigrationFileName in
-- src/migrator/engine_utils.go.
pub mod RoundTrip
pub mod Panics
use go_django_queries.Prelude.{
  ℕ, zero, suc, ◌+◌, ◌-◌, ◌*◌, ◌^◌, ◌<◌, Bool, true, false, Option, none, some, List, [], ◌∷◌, ◌++◌,
  Text, codes, is_empty, ◌==◌, ltb, leb, text_eq, if◌then◌else◌, length, Result, ok, err, panic,
  ◌>>=◌,
}
use go_django_queries.Prelude.Int.{ℤ, pos, negsuc}
use go_django_queries.Prelude.Decimal.{itoa, read_digits}
use go_django_queries.Migrator.Types.{
  Column, Index, ModelTable, Changed, ActionType, MigrationAction, MigrationFile, index_name,
  create_table, drop_table, rename_table, add_index, drop_index, rename_index, add_field,
  alter_field, remove_field, unknown_action, EngineError, invalid_file_name, invalid_suffix,
  invalid_format, invalid_order,
}

-- The part before the first `sep` and the part after it, as strings.SplitN(s, sep, 2) gives them.
unfoldable pub cut : ℕ → Text → Option (Text × Text)
cut sep [] = none
cut sep (c ∷ s) = elim (c == sep) [
  | true ↦ some ([], s)
  | false ↦ elim (cut sep s) [ none ↦ none | some (a, b) ↦ some (c ∷ a, b) ]
]

-- strings.HasSuffix
unfoldable pub has_suffix : Text → Text → Bool
has_suffix [] suffix = is_empty suffix
has_suffix (c ∷ s) suffix = elim (text_eq (c ∷ s) suffix) [
  | true ↦ true
  | false ↦ has_suffix s suffix
]

-- The digits of strconv.Atoi after the sign: at least one.
unfoldable pub magnitude : Text → Option ℕ
magnitude [] = none
magnitude (d ∷ t) = read_digits 0 (d ∷ t)

-- The range of a 64-bit int.
unfoldable pub positive : Option ℕ → Option ℤ
positive none = none
positive (some n) = if ltb n (2 ^ 63) then some (pos n) else none

unfoldable pub negative : Option ℕ → Option ℤ
negative none = none
negative (some zero) = some (pos 0)
negative (some (suc n)) = if ltb n (2 ^ 63) then some (negsuc n) else none

-- strconv.Atoi
unfoldable pub atoi : Text → Option ℤ
unfolding magnitude positive negative
atoi [] = none
atoi (c ∷ s) =
    if c == b'-'
    then negative (magnitude s)
    else if c == b'+'
    then positive (magnitude s)
    else positive (magnitude (c ∷ s))

-- fmt's %04d
unfoldable pub zeros : ℕ → Text → Text
zeros zero s = s
zeros (suc n) s = b'0' ∷ zeros n s

abbrev pub pad : ℕ → Text → Text
pad width s = zeros (width - length s) s

unfoldable pub format_order : ℤ → Text
unfolding zeros itoa
format_order (pos n) = pad 4 (itoa n)
format_order (negsuc n) = b'-' ∷ pad 3 (itoa (suc n))

-- Reading through a pointer: a nil pointer panics.
abbrev pub deref : {A : Type 0} → Option A → Result EngineError A
deref none = panic
deref (some a) = ok a

module _ {V : Type 0} where
  -- The switch over the first action's type.
  unfoldable pub describe : ActionType → MigrationAction V → Result EngineError Text
  unfolding index_name
  describe create_table a = ok (codes "create_table")
  describe drop_table a = ok (codes "drop_table")
  describe rename_table a = do
    table ← deref a.table
    old ← deref table.old
    new ← deref table.new
    ok (codes "rename_table_" ++ (old.table ++ (codes "_to_" ++ new.table)))
  describe add_index a = do
    index ← deref a.index
    new ← deref index.new
    ok (codes "add_idx_" ++ index_name new)
  describe drop_index a = do
    table ← deref a.table
    new ← deref table.new
    index ← deref a.index
    old ← deref index.old
    ok (codes "drop_idx_" ++ (new.table ++ (codes "_on_" ++ index_name old)))
  describe rename_index a = do
    index ← deref a.index
    old ← deref index.old
    new ← deref index.new
    ok (codes "rename_idx_" ++ (index_name old ++ (codes "_to_" ++ index_name new)))
  describe add_field a = do
    field ← deref a.field
    new ← deref field.new
    ok (codes "add_field_" ++ new.column)
  describe alter_field a = do
    field ← deref a.field
    new ← deref field.new
    ok (codes "alter_field_" ++ new.column)
  describe remove_field a = do
    field ← deref a.field
    old ← deref field.old
    ok (codes "remove_field_" ++ old.column)
  describe unknown_action a = ok []

  -- What the name says after the order: the first action, and how many more there are.
  unfoldable pub describe_all : List (MigrationAction V) → Result EngineError Text
  unfolding describe itoa
  describe_all [] = ok (codes "auto_generated")
  describe_all (a ∷ []) = describe a.action_type a
  describe_all (a ∷ b ∷ rest) = do
    first ← describe a.action_type a
    ok (first ++ (codes "_and_" ++ (itoa (length (b ∷ rest)) ++ codes "_more")))

  -- generateMigrationFileName
  unfoldable pub generate_migration_file_name : MigrationFile V → Result EngineError Text
  unfolding format_order describe_all
  generate_migration_file_name mig = do
    body ← describe_all mig.actions
    ok (format_order mig.order ++ (b'_' ∷ (body ++ codes ".mig")))

unfoldable pub parse_order : Option (Text × Text) → Result EngineError (ℤ × Text)
parse_order none = err invalid_format
parse_order (some (order, name)) = elim (atoi order) [
  | none ↦ err invalid_order
  | some n ↦ ok (n, name)
]

unfoldable pub parse_stem : Option (Text × Text) → Result EngineError (ℤ × Text)
unfolding parse_order
parse_stem none = err invalid_file_name
parse_stem (some (stem, extension)) =
    if has_suffix extension (codes "mig") then parse_order (cut b'_' stem) else err invalid_suffix

-- parseMigrationFileName
unfoldable pub parse_migration_file_name : Text → Result EngineError (ℤ × Text)
unfolding parse_stem
parse_migration_file_name n = parse_stem (cut b'.' n)
