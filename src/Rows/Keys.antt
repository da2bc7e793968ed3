-- ===== src/Rows/Keys.antt =====
-- Unique keys of objects: GetUniqueKey of src/queries_models.go, and buildChainParts of
-- src/queryset_dedupe.go. The fields of an object are what they give back when asked.
use go_django_queries.Prelude.{
  Bool, not, ◌&&◌, ◌||◌, Option, none, some, List, [], ◌∷◌, ◌++◌, Text, if◌then◌else◌, Result,
  panic, out_of_fuel, err, ok, ◌>>=◌, traverse,
}
use go_django_queries.Rows.{UniqueValues, RelationType, ChainPart, is_many}

pub data KeyError : Type 0 where
  no_unique_key value_failed unexpected_type : KeyError

-- Definitions: the value of the primary field, if there is one, that of each field by its name,
-- which panics for a name that has no field, and the fields that are unique together.
pub record Definitions (U : Type 0) : Type 0 where
  pub primary : Option (Result KeyError U)
  pub value_of : Text → Result KeyError U
  pub unique_fields : List (List Text)

-- The types of modelObject.
pub data ModelObject (U : Type 0) : Type 0 where
  definer definitions : Definitions U → ModelObject U
  primary_field : Result KeyError U → ModelObject U
  other_field : Definitions U → ModelObject U
  unexpected : ModelObject U

module _ {U : Type 0} (keys : UniqueValues U) where
  abbrev pub also : U → Option (List U) → Option (List U)
  also v none = none
  also v (some vs) = some (v ∷ vs)

  -- The values of fields that are unique together; none where one of them is nil or zero.
  unfoldable pub key_parts :
      (Text → Result KeyError U) → List Text → Result KeyError (Option (List U))
  key_parts value_of [] = ok (some [])
  key_parts value_of (name ∷ names) =
      let rest = key_parts value_of names in
      value_of name >>= λ v.
      if keys.is_nil v || keys.is_zero v then ok none else (rest >>= λ vs. ok (also v vs))

  -- The key of one set of fields, or else what the loop goes on to find. The key of two parts or more
  -- is written to a builder that nobody reads.
  abbrev pub or_next : Option (List U) → Result KeyError U → Result KeyError U
  or_next none next = next
  or_next (some []) next = next
  or_next (some (v ∷ [])) next = ok v
  or_next (some (v ∷ w ∷ vs)) next = next

  -- uniqueFieldsLoop
  unfoldable pub unique_key : (Text → Result KeyError U) → List (List Text) → Result KeyError U
  unfolding key_parts
  unique_key value_of [] = err no_unique_key
  unique_key value_of (names ∷ sets) =
      let next = unique_key value_of sets in
      key_parts value_of names >>= λ parts. or_next parts next

  -- The code behind createKey.
  unfoldable pub create_key : Definitions U → Result KeyError U
  unfolding unique_key
  create_key defs = elim defs.primary [
    | none ↦ unique_key defs.value_of defs.unique_fields
    | some value ↦
        value >>= λ v. if keys.is_zero v then unique_key defs.value_of defs.unique_fields else ok v
  ]

  -- GetUniqueKey. For a primary field with a zero value it goes to createKey without definitions,
  -- where asking the nil interface for its primary field panics.
  unfoldable pub get_unique_key : ModelObject U → Result KeyError U
  unfolding create_key
  get_unique_key (definer defs) = create_key defs
  get_unique_key (definitions defs) = create_key defs
  get_unique_key (primary_field value) = value >>= λ v. if keys.is_zero v then panic else ok v
  get_unique_key (other_field defs) = create_key defs
  get_unique_key unexpected = err unexpected_type

-- A scannableField, with the primary value of its object as GetValue has it, and its definitions.
pub record ScannableField (U O : Type 0) : Type 0 where
  pub object : O
  pub rel_type : RelationType
  pub is_through : Bool
  pub through : Option O
  pub chain_part : Text
  pub primary_value : U
  pub defs : Definitions U

-- The elements in the other order.
unfoldable pub reverse : {A : Type 0} → List A → List A
reverse [] = []
reverse (x ∷ xs) = reverse xs ++ (x ∷ [])

-- The key that is asked for where the primary value is nil or zero; ErrNoUniqueKey gives nil.
abbrev pub key_or_nil : {U : Type 0} → U → Result KeyError U → Result KeyError U
key_or_nil nil_value panic = panic
key_or_nil nil_value out_of_fuel = out_of_fuel
key_or_nil nil_value (err no_unique_key) = ok nil_value
key_or_nil nil_value (err value_failed) = panic
key_or_nil nil_value (err unexpected_type) = panic
key_or_nil nil_value (ok v) = ok v

module _ {U O : Type 0} (keys : UniqueValues U) (nil_value : U) where
  -- The key of a part.
  unfoldable pub part_key : ScannableField U O → Result KeyError U
  unfolding get_unique_key
  part_key f =
      (if keys.is_nil f.primary_value || keys.is_zero f.primary_value
        then key_or_nil nil_value (get_unique_key keys (definitions f.defs))
        else ok f.primary_value)
      >>= λ pk.
          ok (if keys.is_nil pk && not (keys.is_nil f.primary_value) then f.primary_value else pk)

  -- One turn of the loop of buildChainParts.
  unfoldable pub chain_part_of : ScannableField U O → Result KeyError (ChainPart U O)
  unfolding part_key
  chain_part_of f = part_key f >>= λ pk.
      if is_many f.rel_type && keys.is_zero pk
      then panic
      else ok (record {
        rel_type = f.rel_type;
        chain = f.chain_part;
        unique_value = pk;
        object = f.object;
        through = f.through;
      })

  -- buildChainParts, from the list of the field, its source field, and so on.
  unfoldable pub build_chain_parts :
      List (ScannableField U O) → Result KeyError (List (ChainPart U O))
  unfolding chain_part_of reverse
  build_chain_parts fields = traverse chain_part_of fields >>= λ stack. ok (reverse stack)
