-- ===== src/Compiler/Matched.antt =====
-- Placeholders and arguments in the statements of src/queryset_compiler_generic.go: the predicates
-- on what is written, and how they pass through the writer.
pub mod Columns
pub mod Fields
pub mod Clauses
pub mod Inserts
use go_django_queries.Prelude.{
  ℕ, ◌+◌, Bool, true, false, Option, none, some, List, [], ◌∷◌, ◌++◌, Text, codes, length,
  length-append, All, map, join, if◌then◌else◌, ◌≡◌, refl, arith, subst,
}
use go_django_queries.Expressions.{behind}
use go_django_queries.Expressions.Placeholders.{count, count-append, IsMatched, behind-IsMatched}
use go_django_queries.Compiler.{Sql, say, ◌<>◌, without_args, separated, quote_identifier}

-- No placeholder.
abbrev pub IsPlain : Text → Type 0
IsPlain s = count b'?' s ≡ 0

pub append-IsPlain : (s t : Text) → IsPlain s → IsPlain t → IsPlain (s ++ t)
append-IsPlain s t h k = omega (arith, count-append b'?' s t)

pub quote_identifier-IsPlain : (q s : Text) → IsPlain q → IsPlain s → IsPlain (quote_identifier q s)
quote_identifier-IsPlain q s h k = append-IsPlain q (s ++ q) h (append-IsPlain s q k h)

pub if-IsPlain : (b : Bool) (s t : Text) → IsPlain s → IsPlain t → IsPlain (if b then s else t)
if-IsPlain true s t h k = h
if-IsPlain false s t h k = k

pub join-IsPlain :
    (sep : Text) (ts : List Text) → IsPlain sep → All IsPlain ts → IsPlain (join sep ts)
unfolding join count
join-IsPlain sep [] h k = refl
join-IsPlain sep (t ∷ []) h k = k.0
join-IsPlain sep (t ∷ u ∷ ts) h k =
    append-IsPlain t _ k.0 (append-IsPlain sep _ h (join-IsPlain sep (u ∷ ts) h k.1))

module _ {A : Type 0} where
  -- SQL that waits for `n` arguments more.
  abbrev pub Awaits : ℕ → Sql A → Type 0
  Awaits n none = Unit {0}
  Awaits n (some (text, args)) = count b'?' text ≡ n + length args

  pub Awaits-zero : (s : Sql A) → Awaits 0 s → IsMatched s
  Awaits-zero none h = tt
  Awaits-zero (some (text, args)) h = omega (arith, h)

  pub <>-IsMatched : (s t : Sql A) → IsMatched s → IsMatched t → IsMatched (s <> t)
  unfolding ◌<>◌ count
  <>-IsMatched s t h k = behind-IsMatched s t [] refl h k

  -- Plain text first.
  pub say_first-IsMatched :
      (s : Text) (t : Sql A) → IsPlain s → IsMatched t → IsMatched (say s <> t)
  say_first-IsMatched s t h k = <>-IsMatched (say s) t h k

  pub <>-Awaits : (n : ℕ) (s t : Sql A) → IsMatched s → Awaits n t → Awaits n (s <> t)
  unfolding ◌<>◌
  <>-Awaits n none t h k = tt
  <>-Awaits n (some (text, args)) none h k = tt
  <>-Awaits n (some (text, args)) (some (more, rest)) h k =
      omega (arith, count-append b'?' text more, length-append args rest, h, k)

  pub <>-Awaits_left : (n : ℕ) (s t : Sql A) → Awaits n s → IsMatched t → Awaits n (s <> t)
  unfolding ◌<>◌
  <>-Awaits_left n none t h k = tt
  <>-Awaits_left n (some (text, args)) none h k = tt
  <>-Awaits_left n (some (text, args)) (some (more, rest)) h k =
      omega (arith, count-append b'?' text more, length-append args rest, h, k)

  -- The argument that was awaited.
  pub paid-IsMatched :
      (s : Sql A) (v : A) (t : Sql A)
      → Awaits 1 s
      → IsMatched t
      → IsMatched (s <> (some ([], v ∷ []) <> t))
  unfolding ◌<>◌
  paid-IsMatched none v t h k = tt
  paid-IsMatched (some (text, args)) v none h k = tt
  paid-IsMatched (some (text, args)) v (some (more, rest)) h k =
      omega (arith, count-append b'?' text more, length-append args (v ∷ rest), h, k)

  -- No arguments.
  abbrev pub IsUnargued : Sql A → Type 0
  IsUnargued none = Unit {0}
  IsUnargued (some (text, args)) = args ≡ []

  pub <>-IsUnargued : (s t : Sql A) → IsUnargued s → IsUnargued t → IsUnargued (s <> t)
  unfolding ◌<>◌
  <>-IsUnargued none t h k = tt
  <>-IsUnargued (some (text, args)) none h k = tt
  <>-IsUnargued (some (text, args)) (some (more, rest)) h k = rw (h, k) refl

  pub without_args-Awaits :
      (n : ℕ) (s : Sql A) → Awaits n s → IsUnargued s → Awaits n (without_args s)
  unfolding without_args
  without_args-Awaits n none h k = tt
  without_args-Awaits n (some (text, args)) h k = subst (λ xs. count b'?' text ≡ n + length xs) k h

  pub separated-IsMatched :
      (sep : Text) (ss : List (Sql A))
      → IsPlain sep
      → All IsMatched ss
      → IsMatched (separated sep ss)
  unfolding separated count
  separated-IsMatched sep [] h k = refl
  separated-IsMatched sep (s ∷ []) h k = k.0
  separated-IsMatched sep (s ∷ t ∷ ss) h k =
      behind-IsMatched s _ sep h k.0 (separated-IsMatched sep (t ∷ ss) h k.1)

pub All-map :
    {A B : Type 0} (P : A → Type 0) (Q : B → Type 0) (f : A → B)
    → ((a : A) → P a → Q (f a))
    → (xs : List A) → All P xs
    → All Q (map f xs)
All-map P Q f step [] h = tt
All-map P Q f step (x ∷ xs) h = (step x h.0, All-map P Q f step xs h.1)
