-- ===== src/Compiler/Valid.antt =====
-- When FormatColumn of src/queryset_compiler_generic.go panics: Validate of src/expr/expr.go and the
-- name of the field.
use go_django_queries.Prelude.{
  Bool, true, false, Option, none, some, [], ◌∷◌, Text, if◌then◌else◌, ◌≡◌, ◌≢◌, ◌↔◌, ◌⊎◌, inl, inr,
  refl, ap, Option-cases,
}
use go_django_queries.Compiler.{
  Sql, TableColumn, ColumnError, table_misused, nothing_given, say, ◌<>◌, given, table_part,
  other_part, field_part, column_part, alias_part, alias_written, update_part, format_valid,
  unless_error, format_column, validate,
}

if_some-none : (b : Bool) (x y : ColumnError) → (if b then some x else some y) ≢ none
if_some-none true x y h = cc
if_some-none false x y h = cc

module _ {A : Type 0} where
  -- A column whose field has an empty column name.
  abbrev pub IsNameless : TableColumn A → Type 0
  IsNameless c = c.field_column ≡ some []

  -- Text before and behind does not panic.
  around-none :
      (text : Text) (s : Sql A) (a b : Text)
      → (say text <> (s <> (say a <> say b)) ≡ none) ↔ (s ≡ none)
  unfolding ◌<>◌
  around-none text none a b = (λ h. refl, λ h. refl)
  around-none text (some (more, args)) a b = (λ h. absurd (cc), λ h. absurd (cc))

  -- The default of the switch.
  abbrev IsEmpty : Text → Option A → Text → Type 0
  IsEmpty raw value name = (raw ≡ []) × (value ≡ none) × (name ≡ [])

  other_part-none :
      (q raw : Text) (value : Option A) (name : Text)
      → other_part q raw value name ≡ none
      → IsEmpty raw value name
  unfolding other_part
  other_part-none q (c ∷ raw) value name h = absurd (cc)
  other_part-none q [] (some v) name h = absurd (cc)
  other_part-none q [] none [] h = (refl, refl, refl)
  other_part-none q [] none (c ∷ name) h = absurd (cc)

  field_part-none :
      (q : Text) (name : Option Text) (other : Sql A)
      → field_part q name other ≡ none
      → (name ≡ some []) ⊎ ((name ≡ none) × (other ≡ none))
  field_part-none q none other h = inr (refl, h)
  field_part-none q (some []) other h = inl refl
  field_part-none q (some (c ∷ name)) other h = absurd (cc)

  -- Validate refuses a column that would reach the default of the switch.
  validate-Empty :
      (c : TableColumn A)
      → c.field_column ≡ none
      → IsEmpty c.raw_sql c.value c.field_alias
      → validate c ≢ none
  unfolding validate
  validate-Empty c f e h = if_some-none _ table_misused nothing_given (rw (f, e.0, e.1, e.2) at h)

  format_valid-none :
      (q : Text) (c : TableColumn A) → validate c ≡ none → (format_valid q c ≡ none) ↔ IsNameless c
  unfolding format_valid column_part
  format_valid-none q c valid =
      let parts =
        around-none (table_part q c.table_or_alias) (column_part q c)
          (alias_part q c.field_alias (alias_written c)) (update_part c.for_update) in
      (
        λ h. elim (field_part-none q c.field_column _ (parts.0 h)) [
          | inl nameless ↦ nameless
          | inr (f, other) ↦ absurd (validate-Empty c f (other_part-none q _ _ _ other) valid)
        ],
        λ nameless.
            parts.1
              (ap (λ n. field_part q n (other_part q c.raw_sql c.value c.field_alias)) nameless),
      )

  unless_error-none :
      (e : Option ColumnError) (s : Sql A)
      → (unless_error e s ≡ none) ↔ ((given e ≡ true) ⊎ (s ≡ none))
  unless_error-none none s = (λ h. inr h, λ h. elim h [ inl e ↦ absurd (cc) | inr e ↦ e ])
  unless_error-none (some e) s = (λ h. inl refl, λ h. refl)

  -- FormatColumn panics exactly where Validate returns an error or the field has an empty column name:
  -- the default of its switch is never reached.
  pub format_column-none :
      (q : Text) (c : TableColumn A)
      → (format_column q c ≡ none) ↔ ((given (validate c) ≡ true) ⊎ IsNameless c)
  unfolding format_column
  format_column-none q c = elim (Option-cases (validate c)) [
    | inl valid ↦ (
      λ h. elim ((unless_error-none _ _).0 h) [
        | inl e ↦ inl e
        | inr n ↦ inr ((format_valid-none q c valid).0 n)
      ],
      λ h. elim h [
        | inl e ↦ (unless_error-none _ _).1 (inl e)
        | inr n ↦ (unless_error-none _ _).1 (inr ((format_valid-none q c valid).1 n))
      ],
    )
    | inr (err, invalid) ↦ (λ h. inl (rw invalid refl), λ h. rw invalid refl)
  ]
