-- ===== src/Alias.antt =====
-- The generator of table and field aliases: Generator, GetFieldAlias and GetTableAlias in
-- src/alias/alias.go.
pub mod Unique
mod Names
mod Tests
use go_django_queries.Prelude.{
  ℕ, zero, suc, ◌+◌, Option, none, some, List, [], ◌∷◌, ◌++◌, Text, codes, lookup, insert, join,
  is_empty, Bool, not, ◌&&◌, if◌then◌else◌, ltb,
}
use go_django_queries.Prelude.Decimal.{itoa}

pub record Generator : Type 0 where
  pub prefix : Text
  pub counter : ℕ
  pub mapping : List (Text × Text)

-- What GetTableAlias takes as chainOrKey: a string, a chain of names, or a value of another type.
pub data ChainOrKey : Type 0 where
  key : Text → ChainOrKey
  chain : List Text → ChainOrKey
  unsupported : ChainOrKey

-- NewGenerator
abbrev pub new_generator : Generator
new_generator = record { prefix = []; counter = 0; mapping = [] }

-- NewFieldAlias
unfoldable pub new_field_alias : Text → Text → Text
new_field_alias table alias = if is_empty table then alias else table ++ (codes "_" ++ alias)

-- A part that is left out when empty, with the underscore behind it.
abbrev pub with_underscore : Text → Text
with_underscore s = if is_empty s then [] else s ++ codes "_"

-- GetFieldAlias
unfoldable pub get_field_alias : Generator → Text → Text → Text
get_field_alias g table alias = with_underscore g.prefix ++ (with_underscore table ++ alias)

-- The counter, left out at 0.
abbrev pub number : ℕ → Text
number zero = []
number (suc n) = itoa (suc n)

-- The current table, with the underscore before it.
abbrev pub suffix : Text → Text
suffix [] = []
suffix (c ∷ s) = b'_' ∷ c ∷ s

-- The alias that GetTableAlias builds for a key it has not met.
unfoldable pub table_alias : Text → ℕ → Text → Text
table_alias prefix n table = with_underscore prefix ++ (b'T' ∷ (number n ++ suffix table))

-- The switch over the type of chainOrKey; another type panics.
unfoldable pub to_key : ChainOrKey → Option Text
to_key (key k) = some k
to_key (chain ks) = some (join (codes ".") ks)
to_key unsupported = none

-- The steps of GetTableAlias once the key is known.
unfoldable pub alias_of_key : Generator → Text → Text → Text × Generator
unfolding table_alias
alias_of_key g table k =
    if is_empty k && not (is_empty table)
    then (with_underscore g.prefix ++ table, g)
    else elim (lookup k g.mapping) [
      | some alias ↦ (alias, g)
      | none ↦
          let alias = table_alias g.prefix g.counter table in
          (
            alias,
            record {
              prefix = g.prefix;
              counter = suc g.counter;
              mapping = insert k alias g.mapping;
            },
          )
    ]

-- GetTableAlias; none is a panic.
unfoldable pub get_table_alias : Generator → Text → ChainOrKey → Option (Text × Generator)
unfolding to_key alias_of_key
get_table_alias g table c = elim (to_key c) [ none ↦ none | some k ↦ some (alias_of_key g table k) ]

-- The generator after calls, each with its current table and key.
unfoldable pub after_calls : Generator → List (Text × Text) → Generator
unfolding alias_of_key
after_calls g [] = g
after_calls g ((table, k) ∷ calls) = after_calls (alias_of_key g table k).1 calls
