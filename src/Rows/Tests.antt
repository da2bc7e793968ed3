-- ===== src/Rows/Tests.antt =====
-- Rows of authors with their books, by numbers.
use go_django_queries.Prelude.{
  ℕ, ◌+◌, true, false, ◌||◌, Option, none, some, [], ◌∷◌, Text, codes, ◌==◌, ◌≡◌, ◌↔◌, ◌⊎◌, refl,
  arith, Result, ok, traverse, All,
}
use go_django_queries.Prelude.{if◌then◌else◌}
use go_django_queries.Rows.{
  new_root, UniqueValues, ChainPart, Object, object, no_relations, relation, no_objects, child,
  new_object, add_child, add_related, add_parts, one_to_many, no_relation, Roots, get_root,
  add_root, update_root, add_relation_chain,
}
use go_django_queries.Rows.Start.{Scannable, new_rows, scan_rows, note_duplicate}
use go_django_queries.Rows.Keys.{
  KeyError, Definitions, definer, get_unique_key, create_key, unique_key, key_parts, ScannableField,
  build_chain_parts, chain_part_of, part_key, reverse,
}
use go_django_queries.Rows.Paths.{reaches, leads_into, reaches-add_parts}
use go_django_queries.Rows.Distinctness.{key_of, IsProper, add_parts-IsProper}
use go_django_queries.Rows.Repeated.{or_else, add_root-first}
use go_django_queries.Rows.Chains.{IsAlone, IsKept, get_unique_key-found, build_chain_parts-IsKept}

eq_iff : (a b : ℕ) → (a == b ≡ true) ↔ (a ≡ b)
eq_iff a b = ground arith

-- Nil is 99.
abbrev numbers : UniqueValues ℕ
numbers = record { eq = ◌==◌; eq_iff = eq_iff; is_nil = λ u. u == 99; is_zero = λ u. u == 0 }

abbrev books : Text
books = codes "Books"

abbrev author : ChainPart ℕ ℕ
author = record {
  rel_type = no_relation;
  chain = [];
  unique_value = 1;
  object = 10;
  through = none;
}

abbrev book : ℕ → ChainPart ℕ ℕ
book n = record {
  rel_type = one_to_many;
  chain = books;
  unique_value = n;
  object = 20 + n;
  through = none;
}

abbrev empty_author : Object ℕ ℕ
empty_author = new_object 1 (some 10) none

reaches-add_parts_example :
    reaches numbers ((books, 2) ∷ []) (add_parts numbers (book 2 ∷ []) empty_author)
    ≡ reaches numbers ((books, 2) ∷ []) empty_author
      || leads_into numbers ((books, 2) ∷ []) (book 2 ∷ [])
reaches-add_parts_example = reaches-add_parts numbers ((books, 2) ∷ []) (book 2 ∷ []) empty_author

empty_author-IsProper : IsProper numbers empty_author
unfolding IsProper
empty_author-IsProper = tt

add_parts-IsProper_example :
    (key_of (add_parts numbers (book 2 ∷ book 3 ∷ []) empty_author) ≡ key_of empty_author)
    × IsProper numbers (add_parts numbers (book 2 ∷ book 3 ∷ []) empty_author)
add_parts-IsProper_example =
    add_parts-IsProper numbers (book 2 ∷ book 3 ∷ []) empty_author empty_author-IsProper

abbrev roots : Roots ℕ ℕ ℕ
roots = (1, record { object = empty_author; annotations = 5 }) ∷ []

author-added : add_root numbers 1 (some 10) none 5 [] ≡ ok roots
unfolding add_root get_root
author-added = refl

abbrev with_book : Roots ℕ ℕ ℕ
with_book =
    (
      1,
      record {
        object = object 1 (some 10) none (
            relation books one_to_many (child 2 (new_object 2 (some 22) none) no_objects)
              no_relations);
        annotations = 5;
      },
    )
    ∷ []

book-added : add_relation_chain numbers (author ∷ book 2 ∷ []) roots ≡ ok with_book
unfolding add_relation_chain update_root add_parts add_related add_child
book-added = refl

add_root-first_example :
    (get_root numbers 2 roots
      ≡ or_else
          (get_root numbers 2 [])
          (if 1 == 2 then some (new_root 1 (some 10) none 5) else none))
    × (add_root numbers 1 (some 11) none 6 roots ≡ ok roots)
    × ((last : Roots ℕ ℕ ℕ) × (add_relation_chain numbers (author ∷ book 2 ∷ []) roots ≡ ok last))
add_root-first_example =
    add_root-first numbers author (book 2 ∷ []) (some 10) none (some 11) none 5 6 [] roots 2
      author-added

-- A zero key, a slug that is unique, and two fields that are unique together.
abbrev slugged : Definitions ℕ
slugged = record {
  primary = some (ok 0);
  value_of = λ name. ok 7;
  unique_fields = (codes "a" ∷ codes "b" ∷ []) ∷ (codes "slug" ∷ []) ∷ [];
}

slug-found : get_unique_key numbers (definer slugged) ≡ ok 7
unfolding get_unique_key create_key unique_key key_parts
slug-found = refl

get_unique_key-found_example :
    (7 == 0 ≡ false)
    × ((◌≡◌ {A = Option (Result KeyError ℕ)} (some (ok 0)) (some (ok 7)))
        ⊎ IsAlone numbers slugged 7)
get_unique_key-found_example = get_unique_key-found numbers slugged 7 slug-found

abbrev field_of : ChainPart ℕ ℕ → ScannableField ℕ ℕ
field_of p = record {
  object = p.object;
  rel_type = p.rel_type;
  is_through = false;
  through = p.through;
  chain_part = p.chain;
  primary_value = p.unique_value;
  defs = slugged;
}

chain-built :
    build_chain_parts numbers 99 (field_of (book 2) ∷ field_of author ∷ [])
    ≡ ok (author ∷ book 2 ∷ [])
unfolding build_chain_parts chain_part_of part_key reverse traverse
chain-built = refl

build_chain_parts-IsKept_example : All (IsKept numbers 99) (author ∷ book 2 ∷ [])
build_chain_parts-IsKept_example =
    build_chain_parts-IsKept numbers 99 (field_of (book 2) ∷ field_of author ∷ [])
      (author ∷ book 2 ∷ []) chain-built

abbrev id : Scannable
id = record {
  idx = 1;
  rel_type = no_relation;
  is_through = false;
  has_object = true;
  is_primary = true;
}

abbrev name : Scannable
name = record {
  idx = 0;
  rel_type = no_relation;
  is_through = false;
  has_object = true;
  is_primary = false;
}

abbrev title : Scannable
title = record {
  idx = 2;
  rel_type = one_to_many;
  is_through = false;
  has_object = true;
  is_primary = false;
}

-- The primary field is the root, wherever it stands.
primary-chosen :
    new_rows (name ∷ id ∷ title ∷ [])
    ≡ some (record {
      any_of_root = some id;
      possible_duplicates = title ∷ [];
      has_multi_relations = true;
    })
unfolding new_rows scan_rows note_duplicate
primary-chosen = refl

no_root-refused : new_rows (title ∷ []) ≡ none
unfolding new_rows scan_rows note_duplicate
no_root-refused = refl
