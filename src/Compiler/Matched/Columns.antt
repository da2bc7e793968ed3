-- ===== src/Compiler/Matched/Columns.antt =====
-- Placeholders and arguments of columns: FormatColumn of src/queryset_compiler_generic.go.
use go_django_queries.Prelude.{
  ℕ, Bool, true, false, Option, none, some, [], ◌∷◌, Text, codes, length, if◌then◌else◌, ◌≡◌, refl,
  arith,
}
use go_django_queries.Expressions.Placeholders.{count, IsMatched}
use go_django_queries.Compiler.{
  Sql, TableColumn, say, quote_identifier, value_args, ColumnError, field_part, unless_error,
  table_part, other_part, column_part, alias_part, alias_written, update_part, format_valid,
  format_column, validate,
}
use go_django_queries.Compiler.Matched.{
  IsPlain, append-IsPlain, quote_identifier-IsPlain, Awaits, <>-Awaits, IsUnargued, <>-IsUnargued,
}

-- How many values a column waits for.
abbrev pub awaited : Bool → ℕ
awaited for_update = if for_update then 1 else 0

abbrev pub IsPlainName : Option Text → Type 0
IsPlainName none = Unit {0}
IsPlainName (some name) = IsPlain name

table_part-IsPlain : (q table : Text) → IsPlain q → IsPlain table → IsPlain (table_part q table)
unfolding table_part count
table_part-IsPlain q [] h k = refl
table_part-IsPlain q (c ∷ t) h k =
    append-IsPlain (quote_identifier q (c ∷ t)) (codes ".") (quote_identifier-IsPlain q (c ∷ t) h k)
      refl

pub alias_part-IsPlain :
    (q name : Text) (written : Bool)
    → IsPlain q
    → IsPlain name
    → IsPlain (alias_part q name written)
unfolding alias_part count
alias_part-IsPlain q [] written h k = refl
alias_part-IsPlain q (c ∷ name) true h k = refl
alias_part-IsPlain q (c ∷ name) false h k =
    append-IsPlain (codes " AS ") _ refl (quote_identifier-IsPlain q (c ∷ name) h k)

count-update_part : (b : Bool) → count b'?' (update_part b) ≡ awaited b
unfolding update_part count
count-update_part true = refl
count-update_part false = refl

module _ {A : Type 0} where
  -- Raw SQL that has a placeholder for the value, if there is one.
  abbrev pub IsFilled : Text → Option A → Type 0
  IsFilled [] value = Unit {0}
  IsFilled (c ∷ raw) value = count b'?' (c ∷ raw) ≡ length (value_args value)

  -- A column whose names have no placeholder.
  abbrev pub IsClean : TableColumn A → Type 0
  IsClean c =
      IsPlain c.table_or_alias
      × IsPlain c.field_alias
      × IsPlainName c.field_column
      × IsFilled c.raw_sql c.value

  other_part-Awaits :
      (q raw : Text) (value : Option A) (name : Text)
      → IsPlain q
      → IsPlain name
      → IsFilled raw value
      → IsMatched (other_part q raw value name)
  unfolding other_part count
  other_part-Awaits q (c ∷ raw) value name h k m = omega (arith, m)
  other_part-Awaits q [] (some v) name h k m = refl
  other_part-Awaits q [] none [] h k m = tt
  other_part-Awaits q [] none (c ∷ name) h k m = quote_identifier-IsPlain q (c ∷ name) h k

  field_part-Awaits :
      (q : Text) (name : Option Text) (other : Sql A)
      → IsPlain q
      → IsPlainName name
      → IsMatched other
      → IsMatched (field_part q name other)
  field_part-Awaits q none other h k m = m
  field_part-Awaits q (some []) other h k m = tt
  field_part-Awaits q (some (c ∷ name)) other h k m = quote_identifier-IsPlain q (c ∷ name) h k

  column_part-Awaits :
      (q : Text) (c : TableColumn A) → IsPlain q → IsClean c → IsMatched (column_part q c)
  unfolding column_part
  column_part-Awaits q c h k =
      field_part-Awaits q c.field_column _ h k.2
        (other_part-Awaits q c.raw_sql c.value c.field_alias h k.1 k.3)

  format_valid-Awaits :
      (q : Text) (c : TableColumn A)
      → IsPlain q
      → IsClean c
      → Awaits (awaited c.for_update) (format_valid q c)
  unfolding format_valid
  format_valid-Awaits q c h k =
      <>-Awaits _ (say (table_part q c.table_or_alias)) _ (table_part-IsPlain q _ h k.0) (
        <>-Awaits _ (column_part q c) _ (column_part-Awaits q c h k) (
          <>-Awaits {A = A} (awaited c.for_update)
            (say (alias_part q c.field_alias (alias_written c))) (say (update_part c.for_update))
            (alias_part-IsPlain q c.field_alias (alias_written c) h k.1)
            (omega (arith, count-update_part c.for_update))))

  pub unless_error-Awaits :
      (n : ℕ) (e : Option ColumnError) (s : Sql A) → Awaits n s → Awaits n (unless_error e s)
  unless_error-Awaits n none s h = h
  unless_error-Awaits n (some e) s h = tt

  pub format_column-Awaits :
      (q : Text) (c : TableColumn A)
      → IsPlain q
      → IsClean c
      → Awaits (awaited c.for_update) (format_column q c)
  unfolding format_column
  format_column-Awaits q c h k = unless_error-Awaits _ (validate c) _ (format_valid-Awaits q c h k)

  -- Without a value there is no argument.
  other_part-IsUnargued :
      (q raw : Text) (value : Option A) (name : Text)
      → value ≡ none
      → IsUnargued (other_part q raw value name)
  unfolding other_part
  other_part-IsUnargued q (c ∷ raw) value name e = rw e refl
  other_part-IsUnargued q [] (some v) name e = absurd (cc)
  other_part-IsUnargued q [] none [] e = tt
  other_part-IsUnargued q [] none (c ∷ name) e = refl

  column_part-IsUnargued :
      (q : Text) (name : Option Text) (other : Sql A)
      → IsUnargued other
      → IsUnargued (field_part q name other)
  column_part-IsUnargued q none other h = h
  column_part-IsUnargued q (some []) other h = tt
  column_part-IsUnargued q (some (c ∷ name)) other h = refl

  unless_error-IsUnargued :
      (e : Option ColumnError) (s : Sql A) → IsUnargued s → IsUnargued (unless_error e s)
  unless_error-IsUnargued none s h = h
  unless_error-IsUnargued (some e) s h = tt

  pub format_column-IsUnargued :
      (q : Text) (c : TableColumn A) → c.value ≡ none → IsUnargued (format_column q c)
  unfolding format_column format_valid column_part
  format_column-IsUnargued q c e = unless_error-IsUnargued (validate c) _ (
      <>-IsUnargued (say (table_part q c.table_or_alias)) _ refl (
        <>-IsUnargued (column_part q c) _
          (column_part-IsUnargued q c.field_column _ (other_part-IsUnargued q _ c.value _ e))
          (<>-IsUnargued {A = A} (say (alias_part q c.field_alias (alias_written c)))
            (say (update_part c.for_update)) refl refl)))
