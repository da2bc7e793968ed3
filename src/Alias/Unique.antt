-- ===== src/Alias/Unique.antt =====
-- The mapping of a generator of src/alias/alias.go over a run of calls.
use go_django_queries.Prelude.{
  ℕ, suc, ◌<◌, none, some, List, [], ◌∷◌, ◌++◌, Text, lookup, insert, lookup-insert, is_empty, Bool,
  true, false, not, ◌&&◌, if◌then◌else◌, ◌≡◌, refl, sym, ◌∙◌, arith, ◌↔◌, ◌⊎◌, inl, inr, Bool-cases,
  Option-cases, text_eq, text_eq_iff, text_eq_refl,
}
use go_django_queries.Alias.{Generator, alias_of_key, after_calls, table_alias, with_underscore}
use go_django_queries.Alias.Names.{table_alias-injective}

-- The calls that go by the mapping: all but those with an empty key and a table.
abbrev pub by_mapping : Text → Text → Bool
by_mapping table k = not (is_empty k && not (is_empty table))

-- Every alias has a number below the counter, and no two keys share an alias.
pub record IsUnique (g : Generator) : Type 0 where
  pub numbered :
      (k a : Text)
      → lookup k g.mapping ≡ some a
      → (n : ℕ) × (s : Text) × (n < g.counter) × (a ≡ table_alias g.prefix n s)
  pub injective : (k j a : Text) → lookup k g.mapping ≡ some a → lookup j g.mapping ≡ some a → k ≡ j

-- The generator in which a new key has got its alias.
abbrev extended : Generator → Text → Text → Generator
extended g table k = record {
  prefix = g.prefix;
  counter = suc g.counter;
  mapping = insert k (table_alias g.prefix g.counter table) g.mapping;
}

-- A lookup in an extended mapping.
lookup-extended :
    (g : Generator) (table k j : Text)
    → lookup j (extended g table k).mapping
      ≡ (if text_eq k j then some (table_alias g.prefix g.counter table) else lookup j g.mapping)
lookup-extended g table k j = lookup-insert k j (table_alias g.prefix g.counter table) g.mapping

-- The three ways a call ends.
alias_of_key_cases :
    (g : Generator) (table k : Text)
    → ((by_mapping table k ≡ false)
        × (alias_of_key g table k ≡ (with_underscore g.prefix ++ table, g)))
      ⊎ ((a : Text) × (by_mapping table k ≡ true)
          × (lookup k g.mapping ≡ some a)
          × (alias_of_key g table k ≡ (a, g)))
      ⊎ ((by_mapping table k ≡ true)
          × (lookup k g.mapping ≡ none)
          × (alias_of_key g table k ≡ (table_alias g.prefix g.counter table, extended g table k)))
unfolding alias_of_key
alias_of_key_cases g table k = elim (Bool-cases (is_empty k && not (is_empty table))) [
  | inl outside ↦ inl (rw outside refl, rw outside refl)
  | inr inside ↦ elim (Option-cases (lookup k g.mapping)) [
    | inl new ↦ inr (inr (rw inside refl, new, rw inside (rw (new, alias_of_key) refl)))
    | inr (a, old) ↦ inr (inl (a, rw inside refl, old, rw inside (rw (old, alias_of_key) refl)))
  ]
]

extended_cases :
    (g : Generator) (table k j a : Text)
    → lookup j (extended g table k).mapping ≡ some a
    → ((k ≡ j) × (a ≡ table_alias g.prefix g.counter table)) ⊎ (lookup j g.mapping ≡ some a)
extended_cases g table k j a h =
    let h' = sym (lookup-extended g table k j) ∙ h in
    elim (Bool-cases (text_eq k j)) [
      | inl same ↦
          let e : some (table_alias g.prefix g.counter table) ≡ some a = rw same at h' in
          inl ((text_eq_iff k j).0 same, cc)
      | inr other ↦ inr (rw other at h')
    ]

extended-IsUnique : (g : Generator) (table k : Text) → IsUnique g → IsUnique (extended g table k)
extended-IsUnique g table k well = record {
  numbered = λ j a h. elim (extended_cases g table k j a h) [
    | inl (_, e) ↦ (g.counter, table, omega arith, e)
    | inr old ↦ let (n, s, below, e) = well.numbered j a old in (n, s, omega arith, e)
  ];
  injective = λ i j a h l. elim (extended_cases g table k i a h) [
    | inl (e, new) ↦ elim (extended_cases g table k j a l) [
      | inl (f, _) ↦ sym e ∙ f
      | inr old ↦ absurd (not_numbered j a old new)
    ]
    | inr first ↦ elim (extended_cases g table k j a l) [
      | inl (f, new) ↦ absurd (not_numbered i a first new)
      | inr second ↦ well.injective i j a first second
    ]
  ];
}
  where
    not_numbered :
        (j a : Text) → lookup j g.mapping ≡ some a → ¬ (a ≡ table_alias g.prefix g.counter table)
    not_numbered j a old new =
        let (n, s, below, e) = well.numbered j a old in
        let same : n ≡ g.counter =
          table_alias-injective g.prefix n g.counter s table (sym e ∙ new) in
        omega arith

alias_of_key-IsUnique :
    (g : Generator) (table k : Text) → IsUnique g → IsUnique (alias_of_key g table k).1
alias_of_key-IsUnique g table k well = elim (alias_of_key_cases g table k) [
  | inl (_, e) ↦ rw e well
  | inr (inl (a, _, _, e)) ↦ rw e well
  | inr (inr (_, _, e)) ↦ rw e (extended-IsUnique g table k well)
]

after_calls-IsUnique :
    (g : Generator) (calls : List (Text × Text)) → IsUnique g → IsUnique (after_calls g calls)
unfolding after_calls
after_calls-IsUnique g [] well = well
after_calls-IsUnique g ((table, k) ∷ calls) well =
    after_calls-IsUnique (alias_of_key g table k).1 calls (alias_of_key-IsUnique g table k well)

-- An alias that a key has is kept.
alias_of_key-keeps :
    (g : Generator) (table k j a : Text)
    → lookup j g.mapping ≡ some a
    → lookup j (alias_of_key g table k).1.mapping ≡ some a
alias_of_key-keeps g table k j a h = elim (alias_of_key_cases g table k) [
  | inl (_, e) ↦ rw e h
  | inr (inl (b, _, _, e)) ↦ rw e h
  | inr (inr (_, new, e)) ↦ rw e (lookup-extended g table k j ∙ ground (arith, text_eq_iff k j))
]

after_calls-keeps :
    (g : Generator) (calls : List (Text × Text)) (j a : Text)
    → lookup j g.mapping ≡ some a
    → lookup j (after_calls g calls).mapping ≡ some a
unfolding after_calls
after_calls-keeps g [] j a h = h
after_calls-keeps g ((table, k) ∷ calls) j a h =
    after_calls-keeps (alias_of_key g table k).1 calls j a (alias_of_key-keeps g table k j a h)

-- A call by the mapping leaves its alias there.
alias_of_key-stored :
    (g : Generator) (table k : Text)
    → by_mapping table k ≡ true
    → lookup k (alias_of_key g table k).1.mapping ≡ some (alias_of_key g table k).0
alias_of_key-stored g table k inside = elim (alias_of_key_cases g table k) [
  | inl (outside, e) ↦ absurd (cc)
  | inr (inl (a, _, old, e)) ↦ rw e old
  | inr (inr (_, new, e)) ↦ rw e (lookup-extended g table k k ∙ rw (text_eq_refl k) refl)
]

alias_of_key-known :
    (g : Generator) (table k a : Text)
    → by_mapping table k ≡ true
    → lookup k g.mapping ≡ some a
    → (alias_of_key g table k).0 ≡ a
alias_of_key-known g table k a inside h = elim (alias_of_key_cases g table k) [
  | inl (outside, e) ↦ absurd (cc)
  | inr (inl (b, _, old, e)) ↦ rw e (let same : some b ≡ some a = sym old ∙ h in cc)
  | inr (inr (_, new, e)) ↦ absurd (cc)
]

-- In a generator whose aliases are unique, whatever calls come between two calls that go by the
-- mapping, the second returns the alias of the first exactly when its key is the same; its table
-- does not matter.
pub alias_eq_iff :
    (g : Generator) (s t k j : Text) (calls : List (Text × Text))
    → IsUnique g
    → by_mapping s k ≡ true
    → by_mapping t j ≡ true
    → ((alias_of_key (after_calls (alias_of_key g s k).1 calls) t j).0 ≡ (alias_of_key g s k).0)
      ↔ (j ≡ k)
alias_eq_iff g s t k j calls well first second =
    let between = after_calls (alias_of_key g s k).1 calls in
    let kept : lookup k between.mapping ≡ some (alias_of_key g s k).0 =
      after_calls-keeps _ calls k _ (alias_of_key-stored g s k first) in
    let unique : IsUnique (alias_of_key between t j).1 =
      alias_of_key-IsUnique between t j
        (after_calls-IsUnique _ calls (alias_of_key-IsUnique g s k well)) in
    (
      λ e.
          unique.injective j k (alias_of_key between t j).0 (alias_of_key-stored between t j second)
            (rw e (alias_of_key-keeps between t j k _ kept)),
      λ e. alias_of_key-known between t j _ second (rw e kept),
    )

-- A generator that was just made, or given a prefix before its first call, has unique aliases.
pub fresh-IsUnique :
    (prefix : Text) → IsUnique (record { prefix = prefix; counter = 0; mapping = [] })
unfolding lookup
fresh-IsUnique prefix = record {
  numbered = λ k a h. absurd (ground arith);
  injective = λ k j a h l. absurd (ground arith);
}
