-- ===== src/Lookups/Registry.antt =====
-- The registry of lookups and transforms in src/expr/lookups_registry.go, and GetLookup of
-- src/expr/lookups.go. A driver is the name of its type. `L` is the type of resolved left sides, `A`
-- and `B` those of arguments before and after NormalizeArgs, and `X` that of lookup expressions.
use go_django_queries.Prelude.{
  ℕ, Bool, true, false, ◌&&◌, ◌||◌, not, Option, none, some, List, [], ◌∷◌, ◌++◌, Text, codes,
  is_empty, lookup, insert, length, ltb, if◌then◌else◌, ◌==◌, Result, err, ok, ◌>>=◌,
}

-- The maps of one driver each, and the map for all drivers.
pub record NameMaps (T : Type 0) : Type 0 where
  pub local_maps : List (Text × List (Text × T))
  pub global_map : List (Text × T)

module _ {T : Type 0} where
  -- A map that is not there is empty.
  abbrev pub or_no_names : Option (List (Text × T)) → List (Text × T)
  or_no_names none = []
  or_no_names (some m) = m

  -- The map of a driver.
  abbrev pub map_of : Text → List (Text × List (Text × T)) → List (Text × T)
  map_of driver maps = or_no_names (lookup driver maps)

  -- The loop over the drivers.
  unfoldable pub register_local :
      List Text → Text → T → List (Text × List (Text × T)) → List (Text × List (Text × T))
  unfolding lookup insert
  register_local [] name t maps = maps
  register_local (driver ∷ drivers) name t maps =
      register_local drivers name t (insert driver (insert name t (map_of driver maps)) maps)

  -- registerToMap
  unfoldable pub register_to_map : List Text → Text → T → NameMaps T → NameMaps T
  unfolding register_local
  register_to_map [] name t maps = record maps { global_map = insert name t maps.global_map }
  register_to_map (driver ∷ drivers) name t maps = record maps {
    local_maps = register_local (driver ∷ drivers) name t maps.local_maps;
  }

  abbrev pub or_global : Text → List (Text × T) → Option T → Option T
  or_global name global_map none = lookup name global_map
  or_global name global_map (some t) = some t

  -- retrieveFromMap
  unfoldable pub retrieve_from_map : NameMaps T → Text → Text → Option T
  retrieve_from_map maps name driver =
      or_global name maps.global_map (lookup name (map_of driver maps.local_maps))

  -- RegisterLookup and RegisterTransform; none is a panic.
  unfoldable pub register_named : List Text → Text → T → NameMaps T → Option (NameMaps T)
  unfolding register_to_map
  register_named drivers name t maps =
      if is_empty name then none else some (register_to_map drivers name t maps)

  abbrev pub is_found : Option T → Bool
  is_found none = false
  is_found (some t) = true

  -- HasLookup and HasTransform
  unfoldable pub has_name : NameMaps T → Text → Text → Bool
  unfolding retrieve_from_map
  has_name maps name driver =
      if is_empty name then false else is_found (retrieve_from_map maps name driver)

pub data LookupError : Type 0 where
  lookup_not_found arguments_invalid lhs_unsupported transform_not_found nil_expression :
      LookupError
  normalize_failed transform_failed : Text → LookupError

-- `max` is none for any number of arguments. Resolve returns none for the nil expression.
pub record Lookup (L A B X : Type 0) : Type 0 where
  pub min : ℕ
  pub max : Option ℕ
  pub normalize : List A → Result LookupError (List B)
  pub resolve : L → List B → Result LookupError (Option X)

-- The left side: text, an expression, or a value of another type.
pub data LeftSide (E : Type 0) : Type 0 where
  sql_text : Text → LeftSide E
  expression : E → LeftSide E
  other_side : LeftSide E

-- Resolve of a left side, and the driver.
pub record LookupInfo (E L : Type 0) : Type 0 where
  pub driver : Text
  pub resolve_text : Text → L
  pub resolve_expression : E → Result LookupError L

pub record LookupRegistry (L A B X : Type 0) : Type 0 where
  pub lookups : NameMaps (Lookup L A B X)
  pub transforms : NameMaps (L → Result LookupError L)

abbrev pub above : ℕ → Option ℕ → Bool
above n none = false
above n (some max) = ltb max n

module _ {T : Type 0} where
  abbrev pub found_or : LookupError → Option T → Result LookupError T
  found_or failure none = err failure
  found_or failure (some t) = ok t

module _ {L A B X : Type 0} where
  -- The test of Arity.
  unfoldable pub check_arity : Lookup L A B X → List A → Result LookupError (List A)
  check_arity l args =
      if ltb (length args) l.min || above (length args) l.max
      then err arguments_invalid
      else ok args

  -- The loop over the transforms.
  unfoldable pub apply_transforms :
      LookupRegistry L A B X → Text → List Text → L → Result LookupError L
  unfolding retrieve_from_map
  apply_transforms registry driver [] lhs = ok lhs
  apply_transforms registry driver (name ∷ names) lhs =
      found_or transform_not_found (retrieve_from_map registry.transforms name driver)
      >>= λ transform. transform lhs >>= λ next. apply_transforms registry driver names next

module _ {E L : Type 0} where
  abbrev pub resolve_lhs : LookupInfo E L → LeftSide E → Result LookupError L
  resolve_lhs inf (sql_text s) = ok (inf.resolve_text s)
  resolve_lhs inf (expression e) = inf.resolve_expression e
  resolve_lhs inf other_side = err lhs_unsupported

module _ {E L A B X : Type 0} where
  -- (*lookupRegistry).Lookup
  unfoldable pub registry_lookup :
      LookupInfo E L
      → LookupRegistry L A B X
      → List Text
      → Text
      → LeftSide E
      → List A
      → Result LookupError X
  unfolding retrieve_from_map check_arity apply_transforms
  registry_lookup inf registry transforms name lhs args =
      found_or lookup_not_found (retrieve_from_map registry.lookups name inf.driver) >>= λ l.
      check_arity l args >>= λ checked. l.normalize checked >>= λ normalized.
      resolve_lhs inf lhs >>= λ left.
      apply_transforms registry inf.driver transforms left >>= λ resolved.
      l.resolve resolved normalized >>= λ expr. found_or nil_expression expr

-- strings.Split by two underscores, and the parts but the last.
abbrev pub onto_first : ℕ → List Text → List Text
onto_first c [] = (c ∷ []) ∷ []
onto_first c (s ∷ parts) = (c ∷ s) ∷ parts

unfoldable pub split_name : Text → List Text
split_name [] = [] ∷ []
split_name (c ∷ []) = (c ∷ []) ∷ []
split_name (c ∷ d ∷ s) =
    let behind = split_name s in
    let onward = split_name (d ∷ s) in
    if c == b'_' && d == b'_' then [] ∷ behind else onto_first c onward

unfoldable pub but_last : List Text → List Text
but_last [] = []
but_last (s ∷ []) = []
but_last (s ∷ t ∷ rest) = s ∷ but_last (t ∷ rest)

unfoldable pub last_part : List Text → Text
last_part [] = []
last_part (s ∷ []) = s
last_part (s ∷ t ∷ rest) = last_part (t ∷ rest)

abbrev pub default_lookup : Text
default_lookup = codes "exact"

module _ {E L A B X : Type 0} where
  -- GetLookup on the parts of a name.
  unfoldable pub lookup_parts :
      LookupInfo E L
      → LookupRegistry L A B X
      → List Text
      → Text
      → LeftSide E
      → List A
      → Result LookupError X
  unfolding has_name registry_lookup
  lookup_parts inf registry transforms name lhs args =
      if not (is_empty name) && not (has_name registry.lookups name inf.driver)
      then registry_lookup inf registry (transforms ++ (name ∷ [])) default_lookup lhs args
      else registry_lookup inf registry transforms name lhs args

  -- GetLookup, of an info that is not nil.
  unfoldable pub get_lookup :
      LookupInfo E L → LookupRegistry L A B X → Text → LeftSide E → List A → Result LookupError X
  unfolding split_name but_last last_part lookup_parts
  get_lookup inf registry name lhs args =
      let parts = split_name name in
      lookup_parts inf registry (but_last parts) (last_part parts) lhs args
