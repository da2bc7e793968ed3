-- ===== src/Migrator/Diff/Fields.antt =====
-- The names of the columns that (*ModelTable).Diff in src/migrator/engine_table.go finds.
use go_django_queries.Prelude.{
  ◌≡◌, ◌↔◌, ◌⊎◌, inl, inr, ap, sym, ◌∙◌, none, List, [], ◌∷◌, map, keys, lookup-In, In-lookup, Text,
  lookup, ok, >>=-eq-ok, ok-injective, Option-cases, In, All,
}
use go_django_queries.Migrator.Types.{Column, ModelTable}
use go_django_queries.Migrator.Columns.{Values, column_equals}
use go_django_queries.Migrator.Diff.{FieldDiff, removed_fields, new_fields, table_diff}

-- The entries of the ordered map of columns stand under the names of their columns, as
-- NewModelTable and UnmarshalJSON set them.
abbrev pub IsKeyed : {V : Type 0} → List (Text × Column V) → Type 0
IsKeyed m = All (λ e. e.0 ≡ e.1.name) m

abbrev pub names : {V : Type 0} → List (Column V) → List Text
names cs = map (λ c. c.name) cs

module _ {V : Type 0} (values : Values V) where
  names-removed :
      (new old : List (Text × Column V)) (n : Text)
      → IsKeyed old
      → In n (names (removed_fields values new old)) ↔ (In n (keys old) × (lookup n new ≡ none))
  unfolding removed_fields
  names-removed new [] n h = (λ m. absurd m, λ m. absurd m.0)
  names-removed new ((k, c) ∷ old) n h = elim (Option-cases (lookup c.name new)) [
    | inl absent ↦
        let rest = names-removed new old n h.1 in
        rw (absent, removed_fields)
          (
            λ m. elim m [
              | inl e ↦ (inl (e ∙ sym h.0), rw e absent)
              | inr later ↦ let (at, gone) = rest.0 later in (inr at, gone)
            ],
            λ m. elim m.0 [ inl e ↦ inl (e ∙ h.0) | inr later ↦ inr (rest.1 (later, m.1)) ],
          )
    | inr (v, found) ↦
        let rest = names-removed new old n h.1 in
        rw (found, removed_fields)
          (
            λ m. let (at, gone) = rest.0 m in (inr at, gone),
            λ m. elim m.0 [ inl e ↦ absurd cc (m.1, h.0) | inr later ↦ rest.1 (later, m.1) ],
          )
  ]

  names-added :
      (old new : List (Text × Column V)) (n : Text)
      {result : List (Column V) × List (Column V × Column V)}
      → IsKeyed new
      → new_fields values old new ≡ ok result
      → In n (names result.0) ↔ (In n (keys new) × (lookup n old ≡ none))
  unfolding new_fields
  names-added old [] n {result} h e =
      let same : result.0 ≡ [] = sym (ap (λ r. r.0) (ok-injective e)) in
      rw same (λ m. absurd m, λ m. absurd m.0)
  names-added old ((k, c) ∷ new) n {result} h e = elim (Option-cases (lookup c.name old)) [
    | inl absent ↦
        let (rest, found, f) =
          >>=-eq-ok (new_fields values old new) _ (rw (absent, new_fields) at e) in
        let ih = names-added old new n h.1 found in
        let same : result.0 ≡ c ∷ rest.0 = sym (ap (λ r. r.0) (ok-injective f)) in
        rw same (
          λ m. elim m [
            | inl e ↦ (inl (e ∙ sym h.0), rw e absent)
            | inr later ↦ let (at, gone) = ih.0 later in (inr at, gone)
          ],
          λ m. elim m.0 [ inl e ↦ inl (e ∙ h.0) | inr later ↦ inr (ih.1 (later, m.1)) ],
        )
    | inr (v, there) ↦
        let (equal, compared, after) =
          >>=-eq-ok (column_equals values c v) _ (rw (there, new_fields) at e) in
        let (rest, found, f) = >>=-eq-ok (new_fields values old new) _ after in
        let ih = names-added old new n h.1 found in
        let same : result.0 ≡ rest.0 = sym (ap (λ r. r.0) (ok-injective f)) in
        rw same (
          λ m. let (at, gone) = ih.0 m in (inr at, gone),
          λ m. elim m.0 [ inl e ↦ absurd (cc (m.1, h.0)) | inr later ↦ ih.1 (later, m.1) ],
        )
  ]

  lookup_dec : {A : Type 0} (n : Text) (m : List (Text × A)) → In n (keys m) ⊎ (lookup n m ≡ none)
  lookup_dec n m = elim (Option-cases (lookup n m)) [
    | inl absent ↦ inr absent
    | inr (v, found) ↦ inl (lookup-In n m found)
  ]

  -- Where each column of two tables stands under its name and Diff returns, taking the removed
  -- columns away from the old names and putting the added ones in gives exactly the new names: a name
  -- is removed only if it was there and is no more, and added only if it is there now and was not.
  pub table_diff_replays :
      (now before : ModelTable V) (diff : FieldDiff V)
      → IsKeyed now.fields
      → IsKeyed before.fields
      → table_diff values now before ≡ ok diff
      → (n : Text)
      → (In n (keys now.fields)
          ↔ ((In n (keys before.fields) × ¬ In n (names diff.removed)) ⊎ In n (names diff.added)))
        × (In n (names diff.removed) → In n (keys before.fields) × ¬ In n (keys now.fields))
        × (In n (names diff.added) → In n (keys now.fields) × ¬ In n (keys before.fields))
  unfolding table_diff
  table_diff_replays now before diff h k e n =
      let (found, computed, whole) = >>=-eq-ok (new_fields values before.fields now.fields) _ e in
      let fields = ok-injective whole in
      let added = names-added before.fields now.fields n h computed in
      let removed = names-removed now.fields before.fields n k in
      let present = λ (m : List (Text × Column V)) (a : In n (keys m)) (b : lookup n m ≡ none).
        not_both n m a b in
      rw (← fields) (
        (
          λ m. elim (lookup_dec n before.fields) [
            | inl old ↦ inl (old, λ r. present now.fields m (removed.0 r).1)
            | inr new ↦ inr (added.1 (m, new))
          ],
          λ c. elim c [
            | inl (old, stays) ↦ elim (lookup_dec n now.fields) [
              | inl there ↦ there
              | inr gone ↦ absurd (stays (removed.1 (old, gone)))
            ]
            | inr new ↦ (added.0 new).0
          ],
        ),
        λ r. ((removed.0 r).0, λ m. present now.fields m (removed.0 r).1),
        λ a. ((added.0 a).0, λ m. present before.fields m (added.0 a).1),
      )
    where
      not_both : (n : Text) (m : List (Text × Column V)) → In n (keys m) → lookup n m ≡ none → ⊥
      not_both n m a b = let (v, found) = In-lookup n m a in cc
