-- ===== src/Alias/Tests.antt =====
-- Aliases at concrete tables and keys.
use go_django_queries.Prelude.{List, [], ◌∷◌, Text, codes, lookup, insert, text_eq, ◌≡◌, refl, ◌↔◌}
use go_django_queries.Prelude.Decimal.{itoa, digits}
use go_django_queries.Alias.{Generator, alias_of_key, after_calls, table_alias, get_field_alias}
use go_django_queries.Alias.Unique.{alias_eq_iff, fresh-IsUnique}

abbrev fresh : Generator
fresh = record { prefix = codes "sub"; counter = 0; mapping = [] }

abbrev calls : List (Text × Text)
calls = (codes "books", codes "Author.Books") ∷ []

first-alias : (alias_of_key fresh (codes "authors") (codes "Author")).0 ≡ codes "sub_T_authors"
unfolding alias_of_key lookup insert table_alias
first-alias = refl

second-alias :
    (alias_of_key
      (alias_of_key fresh (codes "authors") (codes "Author")).1
      (codes "books")
      (codes "Author.Books")).0
    ≡ codes "sub_T1_books"
unfolding alias_of_key lookup insert table_alias itoa digits text_eq
second-alias = refl

field-alias : get_field_alias fresh (codes "T1") (codes "name") ≡ codes "sub_T1_name"
unfolding get_field_alias
field-alias = refl

alias_eq_iff_example :
    ((alias_of_key
        (after_calls (alias_of_key fresh (codes "authors") (codes "Author")).1 calls)
        (codes "other")
        (codes "Author")).0
      ≡ (alias_of_key fresh (codes "authors") (codes "Author")).0)
    ↔ (codes "Author" ≡ codes "Author")
alias_eq_iff_example =
    alias_eq_iff fresh (codes "authors") (codes "other") (codes "Author") (codes "Author") calls
      (fresh-IsUnique (codes "sub")) refl refl
