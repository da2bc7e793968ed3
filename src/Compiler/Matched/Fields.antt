-- ===== src/Compiler/Matched/Fields.antt =====
-- Placeholders and arguments of fields: WriteFields of src/queryset_types.go.
use go_django_queries.Prelude.{
  ℕ, Bool, true, false, Option, none, some, List, [], ◌∷◌, Text, codes, length, length-append, All,
  ap, is_empty, if◌then◌else◌, ◌≡◌, refl, arith, ◌||◌,
}
use go_django_queries.Alias.{Generator, get_field_alias, with_underscore}
use go_django_queries.Expressions.Placeholders.{count, IsMatched}
use go_django_queries.Compiler.{
  Sql, TableColumn, say, ◌<>◌, without_args, table_part, other_part, column_part, alias_part,
  update_part, format_valid, format_column, validate,
}
use go_django_queries.Compiler.Fields.{
  ExpressionInfo, Table, Field, Source, FieldInfo, Written, nothing, virtual, column, table_or_name,
  selected_as, with_args, raw_column, column_of_field, write_virtual, virtual_of, write_either,
  write_field, written_sql, comma, write_loop, write_through, write_fields,
}
use go_django_queries.Compiler.Matched.{
  IsPlain, append-IsPlain, if-IsPlain, Awaits, Awaits-zero, <>-IsMatched, <>-Awaits, <>-Awaits_left,
  IsUnargued, without_args-Awaits,
}
use go_django_queries.Compiler.Matched.Columns.{
  awaited, IsPlainName, alias_part-IsPlain, unless_error-Awaits, format_column-Awaits,
  format_column-IsUnargued,
}

-- The aliases of a generator and a table have no placeholder.
abbrev pub IsPlainTable : Table → Type 0
IsPlainTable t = IsPlain t.name × IsPlain t.alias

table_or_name-IsPlain : (t : Table) → IsPlainTable t → IsPlain (table_or_name t)
table_or_name-IsPlain t h = if-IsPlain (is_empty t.alias) t.name t.alias h.0 h.1

with_underscore-IsPlain : (s : Text) → IsPlain s → IsPlain (with_underscore s)
unfolding count
with_underscore-IsPlain s h =
    if-IsPlain (is_empty s) [] _ refl (append-IsPlain s (codes "_") h refl)

get_field_alias-IsPlain :
    (g : Generator) (table alias : Text)
    → IsPlain g.prefix
    → IsPlain table
    → IsPlain alias
    → IsPlain (get_field_alias g table alias)
unfolding get_field_alias
get_field_alias-IsPlain g table alias h k m =
    append-IsPlain (with_underscore g.prefix) _ (with_underscore-IsPlain g.prefix h)
      (append-IsPlain (with_underscore table) alias (with_underscore-IsPlain table k) m)

selected_as-IsPlain :
    (inf : ExpressionInfo) (t : Table) (alias : Option Text) (for_update : Bool)
    → IsPlain inf.alias_gen.prefix
    → IsPlainTable t
    → IsPlainName alias
    → IsPlain (selected_as inf t alias for_update)
unfolding selected_as count
selected_as-IsPlain inf t none for_update h k m = refl
selected_as-IsPlain inf t (some alias) for_update h k m =
    if-IsPlain (is_empty alias || for_update) [] _ refl (
      get_field_alias-IsPlain inf.alias_gen (table_or_name t) alias h (table_or_name-IsPlain t k) m)

pub comma-IsPlain : (b : Bool) → IsPlain (comma b)
unfolding count
comma-IsPlain true = refl
comma-IsPlain false = refl

module _ {A : Type 0} where
  -- A field whose names have no placeholder, and whose SQL, if it is virtual, has one for each
  -- argument.
  abbrev pub IsCleanSql : ExpressionInfo → Option (ExpressionInfo → Sql A) → Type 0
  IsCleanSql inf none = Unit {0}
  IsCleanSql inf (some sql) = IsMatched (sql inf)

  abbrev pub IsCleanField : ExpressionInfo → Field A → Type 0
  IsCleanField inf f = IsPlain f.column_name × IsPlainName f.alias × IsCleanSql inf f.virtual_sql

  abbrev pub IsCleanSource : ExpressionInfo → Source A → Type 0
  IsCleanSource inf s = IsPlainTable s.table × All (IsCleanField inf) s.fields

  abbrev pub IsCleanThrough : ExpressionInfo → Option (Source A) → Type 0
  IsCleanThrough inf none = Unit {0}
  IsCleanThrough inf (some s) = IsCleanSource inf s

  abbrev pub IsCleanInfo : ExpressionInfo → FieldInfo A → Type 0
  IsCleanInfo inf i = IsCleanSource inf i.source × IsCleanThrough inf i.through

  -- A column waits for the value of an update; nothing else waits.
  abbrev pub IsWritten : Bool → Written A → Type 0
  IsWritten for_update nothing = Unit {0}
  IsWritten for_update (virtual s) = IsMatched s
  IsWritten for_update (column s) = Awaits (awaited for_update) s

  with_args-IsMatched :
      (args : List A) (s : Sql A)
      → Awaits (length args) s
      → IsUnargued s
      → IsMatched (with_args args s)
  with_args-IsMatched args none h k = tt
  with_args-IsMatched args (some (text, extra)) h k =
      omega (arith, length-append args extra, h, ap length k)

  raw_column-Awaits :
      (q : Text) (c : ℕ) (raw alias : Text) (args : List A)
      → IsPlain q
      → IsPlain alias
      → count b'?' (c ∷ raw) ≡ length args
      → Awaits (length args) (format_column {A = A} q (raw_column (c ∷ raw) alias))
  unfolding format_column format_valid column_part other_part table_part update_part count
  raw_column-Awaits q c raw alias args h k m =
      let name : Sql A = say (alias_part q alias false) in
      let body : Sql A = some (c ∷ raw, []) <> (name <> say []) in
      unless_error-Awaits (length args) (validate {A = A} (raw_column (c ∷ raw) alias))
        (say [] <> body)
        (<>-Awaits (length args) (say []) body refl (
          <>-Awaits_left (length args) (some (c ∷ raw, [])) (name <> say []) (omega (arith, m))
            (<>-IsMatched name (say []) (alias_part-IsPlain q alias false h k) refl)))

  write_virtual-IsWritten :
      (b : Bool) (q alias : Text) (s : Sql A)
      → IsPlain q
      → IsPlain alias
      → IsMatched s
      → IsWritten b (write_virtual q alias s)
  unfolding write_virtual
  write_virtual-IsWritten b q alias none h k m = tt
  write_virtual-IsWritten b q alias (some ([], args)) h k m = tt
  write_virtual-IsWritten b q alias (some (c ∷ raw, args)) h k m =
      with_args-IsMatched args _ (raw_column-Awaits q c raw alias args h k m)
        (format_column-IsUnargued q (raw_column (c ∷ raw) alias) refl)

  column-IsWritten :
      (b : Bool) (q : Text) (t : Table) (f : Field A)
      → IsPlain q
      → IsPlainTable t
      → IsPlain f.column_name
      → Awaits
          (awaited b)
          (without_args (format_column {A = A} q (column_of_field t f.column_name b)))
  unfolding count
  column-IsWritten b q t f h k m =
      let c : TableColumn A = column_of_field t f.column_name b in
      without_args-Awaits (awaited b) (format_column q c)
        (format_column-Awaits q c h
          (if-IsPlain b [] (table_or_name t) refl (table_or_name-IsPlain t k), refl, m, tt))
        (format_column-IsUnargued q c refl)

  -- The two branches of WriteField.
  write_either-IsWritten :
      (b : Bool) (q : Text) (inf : ExpressionInfo) (t : Table) (f : Field A)
      (o : Option (ExpressionInfo → Sql A))
      → IsPlain q
      → IsPlain inf.alias_gen.prefix
      → IsPlainTable t
      → IsCleanField inf f
      → IsCleanSql inf o
      → IsWritten b (write_either q inf t b f o)
  write_either-IsWritten b q inf t f none h g k m n = column-IsWritten b q t f h k m.0
  write_either-IsWritten b q inf t f (some sql) h g k m n =
      write_virtual-IsWritten b q _ (sql inf) h (selected_as-IsPlain inf t f.alias b g k m.1) n

  virtual_of-IsCleanSql :
      (b : Bool) (inf : ExpressionInfo) (o : Option (ExpressionInfo → Sql A))
      → IsCleanSql inf o
      → IsCleanSql inf (if b then o else none)
  virtual_of-IsCleanSql true inf o h = h
  virtual_of-IsCleanSql false inf o h = tt

  pub write_field-IsWritten :
      (b : Bool) (q : Text) (inf : ExpressionInfo) (t : Table) (f : Field A)
      → IsPlain q
      → IsPlain inf.alias_gen.prefix
      → IsPlainTable t
      → IsCleanField inf f
      → IsWritten b (write_field q inf t b f)
  unfolding write_field
  write_field-IsWritten b q inf t f h g k m =
      write_either-IsWritten b q inf t f (virtual_of inf f) h g k m
        (virtual_of-IsCleanSql inf.has_model inf f.virtual_sql m.2)

  written_sql-IsMatched : (w : Written A) → IsWritten false w → IsMatched (written_sql w)
  unfolding count
  written_sql-IsMatched nothing h = refl
  written_sql-IsMatched (virtual s) h = h
  written_sql-IsMatched (column s) h = Awaits-zero s h

  write_loop-IsMatched :
      (q : Text) (inf : ExpressionInfo) (t : Table) (fs : List (Field A)) (written : Bool)
      → IsPlain q
      → IsPlain inf.alias_gen.prefix
      → IsPlainTable t
      → All (IsCleanField inf) fs
      → IsMatched (write_loop q inf t false fs written).0
  unfolding write_loop count
  write_loop-IsMatched q inf t [] written h g k m = refl
  write_loop-IsMatched q inf t (f ∷ fs) written h g k m =
      <>-IsMatched (say (comma written)) _ (comma-IsPlain written) (
        <>-IsMatched (written_sql (write_field q inf t false f)) _
          (written_sql-IsMatched _ (write_field-IsWritten false q inf t f h g k m.0))
          (write_loop-IsMatched q inf t fs _ h g k m.1))

  write_through-IsMatched :
      (q : Text) (inf : ExpressionInfo) (through : Option (Source A))
      → IsPlain q
      → IsPlain inf.alias_gen.prefix
      → IsCleanThrough inf through
      → IsMatched (write_through q inf false through).0
  unfolding count
  write_through-IsMatched q inf none h g m = refl
  write_through-IsMatched q inf (some s) h g m =
      write_loop-IsMatched q inf s.table s.fields false h g m.0 m.1

  pub write_fields-IsMatched :
      (q : Text) (inf : ExpressionInfo) (i : FieldInfo A)
      → IsPlain q
      → IsPlain inf.alias_gen.prefix
      → IsCleanInfo inf i
      → IsMatched (write_fields q inf false i)
  unfolding write_fields
  write_fields-IsMatched q inf i h g m =
      <>-IsMatched (write_through q inf false i.through).0 _
        (write_through-IsMatched q inf i.through h g m.1)
        (write_loop-IsMatched q inf i.source.table i.source.fields _ h g m.0.0 m.0.1)
