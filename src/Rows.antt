-- ===== src/Rows.antt =====
-- The rows of src/queryset_dedupe.go, which merge the objects of a result set: the tree of objects,
-- newRows, rootRow, addRoot, addRelationChain and buildChainParts. A model instance is of a type
-- `O`, whose definitions are not stored beside it, and a unique value of a type `U`. A pointer to an
-- object is held by one map alone, so the object stands in the map. Ordered maps list their
-- elements as they were first set.
pub mod Start
pub mod Keys
pub mod Paths
pub mod Distinctness
pub mod Repeated
pub mod Chains
mod Tests
use go_django_queries.Prelude.{
  ℕ, zero, suc, Bool, true, false, not, ◌&&◌, ◌||◌, Option, none, some, List, [], ◌∷◌, ◌++◌, Text,
  text_eq, if◌then◌else◌, ◌==◌, ◌≡◌, ◌↔◌, Result, panic, err, ok, ◌>>=◌,
}

-- What is asked of unique values: `==` of Go, nil, and IsZero of go-django.
pub record UniqueValues (U : Type 0) : Type 0 where
  pub eq : U → U → Bool
  pub eq_iff : (a b : U) → (eq a b ≡ true) ↔ (a ≡ b)
  pub is_nil : U → Bool
  pub is_zero : U → Bool

-- attrs.RelationType; `no_relation` is -1.
pub data RelationType : Type 0 where
  many_to_one one_to_one one_to_many many_to_many no_relation : RelationType

pub record ChainPart (U O : Type 0) : Type 0 where
  pub rel_type : RelationType
  pub chain : Text
  pub unique_value : U
  pub object : O
  pub through : Option O

mutual
  pub data Object (U O : Type 0) : Type 0 where
    object : U → Option O → Option O → Relations U O → Object U O

  -- The relations of an object by their names.
  pub data Relations (U O : Type 0) : Type 0 where
    no_relations : Relations U O
    relation : Text → RelationType → Objects U O → Relations U O → Relations U O

  pub data Objects (U O : Type 0) : Type 0 where
    no_objects : Objects U O
    child : U → Object U O → Objects U O → Objects U O

-- RelManyToOne or RelOneToOne.
abbrev pub is_single : RelationType → Bool
is_single many_to_one = true
is_single one_to_one = true
is_single one_to_many = false
is_single many_to_many = false
is_single no_relation = false

abbrev pub is_many : RelationType → Bool
is_many many_to_many = true
is_many one_to_many = true
is_many many_to_one = false
is_many one_to_one = false
is_many no_relation = false

abbrev pub new_object : {U O : Type 0} → U → Option O → Option O → Object U O
new_object u obj through = object u obj through no_relations

module _ {U O : Type 0} (keys : UniqueValues U) where
  -- The test that breaks the loop of addRelationChain.
  abbrev pub stops : ChainPart U O → Bool
  stops p = keys.is_zero p.unique_value && not (is_single p.rel_type)

  -- The child of a part, with what is done to it; set behind the others if it is new.
  unfoldable pub add_child : ChainPart U O → (Object U O → Object U O) → Objects U O → Objects U O
  add_child p go no_objects =
      child p.unique_value (go (new_object p.unique_value (some p.object) p.through)) no_objects
  add_child p go (child u o rest) =
      if keys.eq u p.unique_value then child u (go o) rest else child u o (add_child p go rest)

  unfoldable pub add_related :
      ChainPart U O → (Object U O → Object U O) → Relations U O → Relations U O
  unfolding add_child
  add_related p go no_relations =
      relation p.chain p.rel_type (add_child p go no_objects) no_relations
  add_related p go (relation name type found rest) =
      if text_eq name p.chain
      then relation name type (add_child p go found) rest
      else relation name type found (add_related p go rest)

  -- The loop of addRelationChain behind the root.
  unfoldable pub add_parts : List (ChainPart U O) → Object U O → Object U O
  unfolding add_related
  add_parts [] o = o
  add_parts (p ∷ ps) (object u obj through rs) =
      if stops p
      then object u obj through rs
      else object u obj through (add_related p (add_parts ps) rs)

-- A root with its annotations `N`.
pub record RootObject (U O N : Type 0) : Type 0 where
  pub object : Object U O
  pub annotations : N

-- The ordered map of roots.
abbrev pub Roots : Type 0 → Type 0 → Type 0 → Type 0
Roots U O N = List (U × RootObject U O N)

abbrev pub behind_root :
    {U O N : Type 0} → U → RootObject U O N → Option (Roots U O N) → Option (Roots U O N)
behind_root v root none = none
behind_root v root (some changed) = some ((v, root) ∷ changed)

abbrev pub new_root : {U O N : Type 0} → U → Option O → Option O → N → RootObject U O N
new_root u obj through annotations = record {
  object = new_object u obj through;
  annotations = annotations;
}

-- A root that is set unless there is one.
abbrev pub set_root :
    {U O N : Type 0} → U → RootObject U O N → Roots U O N → Option (RootObject U O N) → Roots U O N
set_root u root roots (some there) = roots
set_root u root roots none = roots ++ ((u, root) ∷ [])

-- A missing root panics.
abbrev pub or_panic : {A : Type 0} → Option A → Result Text A
or_panic none = panic
or_panic (some a) = ok a

module _ {U O N : Type 0} (keys : UniqueValues U) where
  -- Get of the ordered map of roots.
  unfoldable pub get_root : U → Roots U O N → Option (RootObject U O N)
  get_root u [] = none
  get_root u ((v, root) ∷ roots) = if keys.eq v u then some root else get_root u roots

  -- addRoot; the panic is for a nil key.
  unfoldable pub add_root : U → Option O → Option O → N → Roots U O N → Result Text (Roots U O N)
  unfolding get_root
  add_root u obj through annotations roots =
      if keys.is_nil u
      then panic
      else ok (set_root u (new_root u obj through annotations) roots (get_root u roots))

  -- The object of the root, with what is done to it.
  unfoldable pub update_root : U → (Object U O → Object U O) → Roots U O N → Option (Roots U O N)
  update_root u go [] = none
  update_root u go ((v, root) ∷ roots) =
      let rest = update_root u go roots in
      if keys.eq v u
      then some ((v, record root { object = go root.object }) ∷ roots)
      else behind_root v root rest

  -- addRelationChain; it panics for an empty chain, and for a root that is not there.
  unfoldable pub add_relation_chain : List (ChainPart U O) → Roots U O N → Result Text (Roots U O N)
  unfolding update_root add_parts
  add_relation_chain [] roots = panic
  add_relation_chain (root ∷ ps) roots =
      or_panic (update_root root.unique_value (add_parts keys ps) roots)
