-- ===== src/Compiler/Values.antt =====
-- The values of an UPDATE that src/queryset_compiler_generic.go builds.
use go_django_queries.Prelude.{
  Bool, true, false, Option, none, some, List, [], ◌∷◌, ◌++◌, Text, length, All, if◌then◌else◌, ◌≡◌,
  ◌≢◌, refl, arith, ap, subst, sym,
}
use go_django_queries.Compiler.{
  Sql, say, ◌<>◌, without_args, column_part, table_part, alias_part, format_valid, format_column,
  validate,
}
use go_django_queries.Compiler.Fields.{
  ExpressionInfo, Table, Field, column, column_of_field, write_either, write_field, comma,
}
use go_django_queries.Compiler.Statements.{set_one, write_set}

-- A field that is not virtual, and has a column name.
abbrev pub IsColumn : {A : Type 0} → Field A → Type 0
IsColumn f = (f.virtual_sql ≡ none) × (f.column_name ≢ [])

module _ {A : Type 0} where
  -- SQL with just these arguments.
  abbrev pub HasArgs : List A → Sql A → Type 0
  HasArgs args s = (text : Text) × (s ≡ some (text, args))

  <>-HasArgs :
      (xs ys : List A) (s t : Sql A) → HasArgs xs s → HasArgs ys t → HasArgs (xs ++ ys) (s <> t)
  unfolding ◌<>◌
  <>-HasArgs xs ys s t (text, e) (more, f) = (text ++ more, rw (e, f) refl)

  set_column-HasArgs :
      (q : Text) (t : Table) (name : Text)
      → name ≢ []
      → HasArgs [] (without_args (format_column {A = A} q (column_of_field t name true)))
  unfolding without_args format_column validate format_valid column_part ◌<>◌ table_part alias_part
  set_column-HasArgs q t [] h = absurd (h refl)
  set_column-HasArgs q t (c ∷ name) h = (_, refl)

  if_none :
      (b : Bool) (o : Option (ExpressionInfo → Sql A)) → o ≡ none → (if b then o else none) ≡ none
  if_none true o h = h
  if_none false o h = refl

  write_field-column :
      (q : Text) (inf : ExpressionInfo) (t : Table) (f : Field A)
      → f.virtual_sql ≡ none
      → write_field q inf t true f
        ≡ column (without_args (format_column q (column_of_field t f.column_name true)))
  unfolding write_field
  write_field-column q inf t f h =
      ap (write_either q inf t true f) (if_none inf.has_model f.virtual_sql h)

  set_one-HasArgs :
      (written : Bool) (s : Sql A) (v : A) (values : List A) (rest : Bool → List A → Sql A)
      → HasArgs [] s
      → HasArgs values (rest true values)
      → HasArgs (v ∷ values) (set_one written (column s) (v ∷ values) rest)
  set_one-HasArgs written s v values rest h k =
      let one = <>-HasArgs (v ∷ []) values (some ([], v ∷ [])) (rest true values) ([], refl) k in
      <>-HasArgs [] (v ∷ values) (say (comma written)) _ (comma written, refl)
        (<>-HasArgs [] (v ∷ values) s _ h one)

  -- Where no field of an object is virtual, each has a column name, and there are as many values as
  -- fields, the SET of an UPDATE is written without a panic, and its arguments are the values in their
  -- order.
  pub write_set-values :
      (q : Text) (inf : ExpressionInfo) (t : Table) (fs : List (Field A)) (written : Bool)
      (values : List A)
      → All IsColumn fs
      → length fs ≡ length values
      → (text : Text) × (write_set q inf t fs written values ≡ some (text, values))
  unfolding write_set
  write_set-values q inf t [] written [] h k = ([], refl)
  write_set-values q inf t [] written (v ∷ values) h k = absurd (omega (arith, k))
  write_set-values q inf t (f ∷ fs) written [] h k = absurd (omega (arith, k))
  write_set-values q inf t (f ∷ fs) written (v ∷ values) h k =
      subst (λ w. HasArgs (v ∷ values) (set_one written w (v ∷ values) (write_set q inf t fs)))
        (sym (write_field-column q inf t f h.0.0))
        (set_one-HasArgs written _ v values (write_set q inf t fs)
          (set_column-HasArgs q t f.column_name h.0.1)
          (write_set-values q inf t fs true values h.1 (omega (arith, k))))
