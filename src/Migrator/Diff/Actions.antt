-- ===== src/Migrator/Diff/Actions.antt =====
-- The index maps of makeMigrationDiff in src/migrator/engine.go, and its loop for renamed indexes.
use go_django_queries.Prelude.{
  ◌≡◌, refl, ap, true, some, List, [], ◌∷◌, Text, text_eq, text_eq_iff, lookup, insert, arith,
  Bool-cases, Option-cases, All, inl, inr,
}
use go_django_queries.Migrator.Types.{Index, index_name}
use go_django_queries.Migrator.Diff.{
  Draft, MapOrders, Renames, drop_indexes, add_indexes, rename_index_among, rename_indexes,
  index_map, indexes_equal, diff_indexes,
}

-- The entries of a map stand under their own names.
abbrev IsNamed : List (Text × Index) → Type 0
IsNamed m = All (λ e. e.0 ≡ index_name e.1) m

insert-IsNamed :
    (i : Index) (m : List (Text × Index)) → IsNamed m → IsNamed (insert (index_name i) i m)
unfolding insert
insert-IsNamed i [] h = (refl, tt)
insert-IsNamed i ((k, j) ∷ m) h = elim (Bool-cases (text_eq k (index_name i))) [
  | inl e ↦ rw e (refl, h.1)
  | inr ne ↦ rw ne (h.0, insert-IsNamed i m h.1)
]

index_map-IsNamed :
    (is : List Index) (m : List (Text × Index)) → IsNamed m → IsNamed (index_map m is)
unfolding index_map
index_map-IsNamed [] m h = h
index_map-IsNamed (i ∷ is) m h =
    index_map-IsNamed is (insert (index_name i) i m) (insert-IsNamed i m h)

lookup-IsNamed :
    (k : Text) (m : List (Text × Index)) {i : Index}
    → IsNamed m
    → lookup k m ≡ some i
    → index_name i ≡ k
unfolding lookup
lookup-IsNamed k [] h e = absurd (cc)
lookup-IsNamed k ((j, x) ∷ m) h e = elim (Bool-cases (text_eq j k)) [
  | inl same ↦ ground (arith, text_eq_iff j k, h.0)
  | inr other ↦ lookup-IsNamed k m h.1 (rw (other, lookup) at e)
]

-- Two indexes that are equal have one name.
indexes_equal-name : (a b : Index) → indexes_equal a b ≡ true → index_name a ≡ index_name b
unfolding indexes_equal
indexes_equal-name a b h = ground (arith, text_eq_iff (index_name a) (index_name b))

module _ {V : Type 0} where
  rename_index_among-none :
      (name : Text) (i : Index) (names : List Text) (r : Renames V)
      → index_name i ≡ name
      → IsNamed r.new
      → rename_index_among name i names r ≡ r
  unfolding rename_index_among
  rename_index_among-none name i [] r e h = refl
  rename_index_among-none name i (n ∷ names) r e h = elim (Option-cases (lookup n r.new)) [
    | inl absent ↦ ground (arith, rename_index_among-none name i names r e h)
    | inr (c, found) ↦ ground (
      arith,
      rename_index_among-none name i names r e h,
      lookup-IsNamed n r.new h found,
      indexes_equal-name i c,
      text_eq_iff name n,
    )
  ]

  rename_indexes-none :
      (candidates : Text → List Text) (names : List Text) (r : Renames V)
      → IsNamed r.old
      → IsNamed r.new
      → rename_indexes candidates names r ≡ r
  unfolding rename_indexes
  rename_indexes-none candidates [] r h k = refl
  rename_indexes-none candidates (n ∷ names) r h k = elim (Option-cases (lookup n r.old)) [
    | inl absent ↦ rw (absent, rename_indexes) (rename_indexes-none candidates names r h k)
    | inr (i, found) ↦
        rw (found, rename_indexes)
          (rw (rename_index_among-none n i (candidates n) r (lookup-IsNamed n r.old h found) k)
            (rename_indexes-none candidates names r h k))
  ]

  -- Whatever the indexes and the order in which Go walks the maps, the loop that renames indexes
  -- changes nothing: what the diff of the indexes does is drop and add.
  pub diff_indexes_never_renames :
      (orders : MapOrders) (old new : List Index) (d : Draft V)
      → diff_indexes orders old new d
        ≡ add_indexes
            (index_map [] old)
            (index_map [] new)
            orders.adds
            (drop_indexes (index_map [] old) (index_map [] new) orders.drops d)
  unfolding diff_indexes
  diff_indexes_never_renames orders old new d =
      ap (λ r. r.draft)
        (rename_indexes-none orders.candidates orders.renames _ (index_map-IsNamed old [] tt)
          (index_map-IsNamed new [] tt))
