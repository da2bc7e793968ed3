-- ===== src/Lookups/Registered.antt =====
-- What the registry of src/expr/lookups_registry.go finds, and the names that GetLookup of
-- src/expr/lookups.go takes apart.
use go_django_queries.Prelude.{
  Bool, true, false, ◌&&◌, ◌||◌, not, Option, some, List, [], ◌∷◌, ◌++◌, Text, codes, is_empty,
  text_eq, text_eq_iff, lookup, insert, lookup-insert, if◌then◌else◌, ◌==◌, All, ◌≡◌, refl, sym, ap,
  ◌∙◌, Bool-cases, inl, inr, join,
}
use go_django_queries.Lookups.Registry.{
  NameMaps, map_of, or_no_names, register_local, register_to_map, or_global, retrieve_from_map,
  has_name, LeftSide, LookupInfo, LookupRegistry, registry_lookup, split_name, but_last, last_part,
  default_lookup, lookup_parts, get_lookup,
}

abbrev pub is_listed : Text → List Text → Bool
is_listed driver [] = false
is_listed driver (d ∷ drivers) = text_eq d driver || is_listed driver drivers

module _ {T : Type 0} where
  or_no_names-if :
      (b : Bool) (m : List (Text × T)) (o : Option (List (Text × T)))
      → or_no_names (if b then some m else o) ≡ (if b then m else or_no_names o)
  or_no_names-if true m o = refl
  or_no_names-if false m o = refl

  map_of-insert :
      (d driver : Text) (m : List (Text × T)) (maps : List (Text × List (Text × T)))
      → map_of driver (insert d m maps) ≡ (if text_eq d driver then m else map_of driver maps)
  map_of-insert d driver m maps =
      ap or_no_names (lookup-insert d driver m maps)
      ∙ or_no_names-if (text_eq d driver) m (lookup driver maps)

  -- The lookup of a name for one driver.
  abbrev local_of : Text → Text → List (Text × List (Text × T)) → Option T
  local_of name driver maps = lookup name (map_of driver maps)

  -- Both tests of a name that was registered.
  chosen-if :
      (same_driver same_name : Bool) (t : T) (o : Option T)
      → (if same_driver then (if same_name then some t else o) else o)
        ≡ (if same_name && same_driver then some t else o)
  chosen-if true true t o = refl
  chosen-if true false t o = refl
  chosen-if false true t o = refl
  chosen-if false false t o = refl

  local_of-insert :
      (d driver n name : Text) (t : T) (maps : List (Text × List (Text × T)))
      → local_of n driver (insert d (insert name t (map_of d maps)) maps)
        ≡ (if text_eq name n && text_eq d driver then some t else local_of n driver maps)
  local_of-insert d driver n name t maps =
      ap (lookup n) (map_of-insert d driver (insert name t (map_of d maps)) maps)
      ∙ (elim (Bool-cases (text_eq d driver)) [
        | inl same ↦
            let e : d ≡ driver = (text_eq_iff d driver).0 same in
            ap (λ b. lookup n (if b then insert name t (map_of d maps) else map_of driver maps))
              same
            ∙ (lookup-insert name n t (map_of d maps)
                ∙ ap (λ x. if text_eq name n then some t else lookup n (map_of x maps)) e)
            ∙ ap
                (λ b.
                  if b
                  then (if text_eq name n then some t else local_of n driver maps)
                  else local_of n driver maps)
                (sym same)
        | inr other ↦
            ap (λ b. lookup n (if b then insert name t (map_of d maps) else map_of driver maps))
              other
            ∙ ap
                (λ b.
                  if b
                  then (if text_eq name n then some t else local_of n driver maps)
                  else local_of n driver maps)
                (sym other)
      ]
          ∙ chosen-if (text_eq d driver) (text_eq name n) t (local_of n driver maps))

  both-if :
      (same first rest : Bool) (t : T) (o : Option T)
      → (if same && rest then some t else (if same && first then some t else o))
        ≡ (if same && (first || rest) then some t else o)
  both-if true true true t o = refl
  both-if true true false t o = refl
  both-if true false true t o = refl
  both-if true false false t o = refl
  both-if false first rest t o = refl

  register_local-lookup :
      (drivers : List Text) (driver n name : Text) (t : T) (maps : List (Text × List (Text × T)))
      → local_of n driver (register_local drivers name t maps)
        ≡ (if text_eq name n && is_listed driver drivers then some t else local_of n driver maps)
  unfolding register_local
  register_local-lookup [] driver n name t maps = none-if (text_eq name n)
    where
      none-if :
          (b : Bool)
          → local_of n driver maps ≡ (if b && false then some t else local_of n driver maps)
      none-if true = refl
      none-if false = refl
  register_local-lookup (d ∷ drivers) driver n name t maps =
      register_local-lookup drivers driver n name t (insert d (insert name t (map_of d maps)) maps)
      ∙ (ap (λ o. if text_eq name n && is_listed driver drivers then some t else o)
            (local_of-insert d driver n name t maps)
          ∙ both-if (text_eq name n) (text_eq d driver) (is_listed driver drivers) t
              (local_of n driver maps))

  -- What was registered for all drivers stands behind what one driver has.
  abbrev pub with_registered : List Text → Text → T → NameMaps T → Text → Text → Option T
  with_registered [] name t maps n driver =
      or_global n (insert name t maps.global_map) (lookup n (map_of driver maps.local_maps))
  with_registered (d ∷ drivers) name t maps n driver =
      if text_eq name n && is_listed driver (d ∷ drivers)
      then some t
      else retrieve_from_map maps n driver

  or_global-if :
      (b : Bool) (n : Text) (m : List (Text × T)) (t : T) (o : Option T)
      → or_global n m (if b then some t else o) ≡ (if b then some t else or_global n m o)
  or_global-if true n m t o = refl
  or_global-if false n m t o = refl

  -- A name that was registered for some drivers is found for these, and every other name, and every
  -- other driver, finds what it found before; one that was registered for all drivers is found unless
  -- the driver has that name of its own.
  pub retrieve_from_map-register :
      (drivers : List Text) (name : Text) (t : T) (maps : NameMaps T) (n driver : Text)
      → (retrieve_from_map (register_to_map drivers name t maps) n driver
          ≡ with_registered drivers name t maps n driver)
        × (lookup n (insert name t maps.global_map)
            ≡ (if text_eq name n then some t else lookup n maps.global_map))
  unfolding retrieve_from_map register_to_map
  retrieve_from_map-register [] name t maps n driver =
      (refl, lookup-insert name n t maps.global_map)
  retrieve_from_map-register (d ∷ drivers) name t maps n driver = (
    ap (or_global n maps.global_map)
          (register_local-lookup (d ∷ drivers) driver n name t maps.local_maps)
        ∙ or_global-if (text_eq name n && is_listed driver (d ∷ drivers)) n maps.global_map t _,
    lookup-insert name n t maps.global_map,
  )

-- No underscore.
abbrev pub IsPart : Text → Type 0
IsPart s = All (λ c. c == b'_' ≡ false) s

abbrev pub underscores : Text
underscores = codes "__"

split_name-part : (s : Text) → IsPart s → split_name s ≡ s ∷ []
unfolding split_name
split_name-part [] h = refl
split_name-part (c ∷ []) h = refl
split_name-part (c ∷ d ∷ s) h = rw (h.0, split_name-part (d ∷ s) h.1) refl

split_name-append :
    (s rest : Text) → IsPart s → split_name (s ++ (b'_' ∷ b'_' ∷ rest)) ≡ s ∷ split_name rest
unfolding split_name
split_name-append [] rest h = refl
split_name-append (c ∷ []) rest h = rw (h.0) refl
split_name-append (c ∷ d ∷ s) rest h = rw (h.0, split_name-append (d ∷ s) rest h.1) refl

split_name-join :
    (parts : List Text) (name : Text)
    → All IsPart parts
    → IsPart name
    → split_name (join underscores (parts ++ (name ∷ []))) ≡ parts ++ (name ∷ [])
unfolding join
split_name-join [] name h k = split_name-part name k
split_name-join (s ∷ []) name h k =
    split_name-append s name h.0 ∙ ap (λ l. s ∷ l) (split_name-part name k)
split_name-join (s ∷ t ∷ parts) name h k =
    split_name-append s (join underscores ((t ∷ parts) ++ (name ∷ []))) h.0
    ∙ ap (λ l. s ∷ l) (split_name-join (t ∷ parts) name h.1 k)

but_last-snoc : (parts : List Text) (name : Text) → but_last (parts ++ (name ∷ [])) ≡ parts
unfolding but_last
but_last-snoc [] name = refl
but_last-snoc (s ∷ []) name = refl
but_last-snoc (s ∷ t ∷ parts) name = ap (λ l. s ∷ l) (but_last-snoc (t ∷ parts) name)

last_part-snoc : (parts : List Text) (name : Text) → last_part (parts ++ (name ∷ [])) ≡ name
unfolding last_part
last_part-snoc [] name = refl
last_part-snoc (s ∷ []) name = refl
last_part-snoc (s ∷ t ∷ parts) name = last_part-snoc (t ∷ parts) name

module _ {E L A B X : Type 0} (inf : LookupInfo E L) (registry : LookupRegistry L A B X)
    (parts : List Text) (name : Text) (lhs : LeftSide E) (args : List A) (h : All IsPart parts)
    (k : IsPart name) where
  -- A name of parts without underscores, joined by two of them, is taken apart at these: all parts but
  -- the last are transforms, in their order, and the last is the lookup where it is registered, and
  -- otherwise one more transform of the lookup `exact`.
  pub get_lookup-join :
      get_lookup inf registry (join underscores (parts ++ (name ∷ []))) lhs args ≡ (
        if not (is_empty name) && not (has_name registry.lookups name inf.driver)
        then registry_lookup inf registry (parts ++ (name ∷ [])) default_lookup lhs args
        else registry_lookup inf registry parts name lhs args)
  unfolding get_lookup lookup_parts
  get_lookup-join =
      ap (λ l. lookup_parts inf registry (but_last l) (last_part l) lhs args)
        (split_name-join parts name h k)
      ∙ (ap (λ l. lookup_parts inf registry l (last_part (parts ++ (name ∷ []))) lhs args)
            (but_last-snoc parts name)
          ∙ ap (λ s. lookup_parts inf registry parts s lhs args) (last_part-snoc parts name))
