-- ===== src/Rows/Start.antt =====
-- newRows, hasRoot and rootRow of src/queryset_dedupe.go: which fields of a row make its root, and
-- which its relations. Objects are added by the parent module.
use go_django_queries.Prelude.{
  ℕ, zero, suc, Bool, true, false, not, ◌&&◌, ◌||◌, Option, none, some, List, [], ◌∷◌, ◌++◌,
  if◌then◌else◌,
}
use go_django_queries.Rows.{
  RelationType, many_to_one, one_to_one, one_to_many, many_to_many, no_relation, is_many,
}

-- The element at a place.
unfoldable pub get_elem? {ℓ} : {A : Type ℓ} → List A → ℕ → Option A
get_elem? [] n = none
get_elem? (x ∷ xs) zero = some x
get_elem? (x ∷ xs) (suc n) = get_elem? xs n

-- What newRows reads of a scannableField.
pub record Scannable : Type 0 where
  pub idx : ℕ
  pub rel_type : RelationType
  pub is_through : Bool
  pub has_object : Bool
  pub is_primary : Bool

-- The rows apart from the objects.
pub record RowsInfo : Type 0 where
  pub any_of_root : Option Scannable
  pub possible_duplicates : List Scannable
  pub has_multi_relations : Bool

abbrev pub is_relation : RelationType → Bool
is_relation no_relation = false
is_relation many_to_one = false
is_relation one_to_one = true
is_relation one_to_many = true
is_relation many_to_many = true

abbrev pub is_root : Scannable → Bool
is_root s = elim s.rel_type [ no_relation ↦ s.has_object | _ ↦ false ]

-- The first `if` of the loop of newRows; the map seen stays empty.
unfoldable pub note_duplicate : Scannable → RowsInfo → RowsInfo
note_duplicate s r =
    if is_relation s.rel_type && not s.is_through
    then record r {
      possible_duplicates = r.possible_duplicates ++ (s ∷ []);
      has_multi_relations = is_many s.rel_type || r.has_multi_relations;
    }
    else r

-- The other two: a primary field of the root, or else the first of its fields.
abbrev pub choose_root : Scannable → Option Scannable → Option Scannable
choose_root s none = if is_root s then some s else none
choose_root s (some t) = if is_root s && s.is_primary then some s else some t

unfoldable pub scan_rows : List Scannable → RowsInfo → RowsInfo
unfolding note_duplicate
scan_rows [] r = r
scan_rows (s ∷ ss) r =
    scan_rows ss (record (note_duplicate s r) { any_of_root = choose_root s r.any_of_root })

-- hasRoot
abbrev pub has_root : RowsInfo → Bool
has_root r = elim r.any_of_root [ none ↦ false | some s ↦ true ]

-- rootRow; the scannables are listed by their idx, and one out of range panics, the outer none.
unfoldable pub root_row : {A : Type 0} → RowsInfo → List A → Option (Option A)
unfolding get_elem?
root_row r scannables = elim r.any_of_root [
  | none ↦ some none
  | some s ↦ elim (get_elem? scannables s.idx) [ none ↦ none | some a ↦ some (some a) ]
]

-- newRows; none is the error that no root row is selected.
unfoldable pub new_rows : List Scannable → Option RowsInfo
unfolding scan_rows
new_rows ss =
    let r =
      scan_rows ss
        (record { any_of_root = none; possible_duplicates = []; has_multi_relations = false }) in
    if r.has_multi_relations && not (has_root r) then none else some r
