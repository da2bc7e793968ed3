-- ===== src/Actors.antt =====
-- runActor in src/queryset_actors.go: the hooks of a model, called around queries. An object is the
-- record of the interfaces that it implements, each a function on a state `S` that returns an error
-- or nil.
pub mod Order
mod Tests
use go_django_queries.Prelude.{
  ℕ, zero, suc, ◌/◌, ◌%◌, Bool, true, false, Option, none, some, if◌then◌else◌, ◌==◌,
}

-- An interface that the object implements, or does not.
abbrev pub Hook : Type 0 → Type 0 → Type 0
Hook S E = Option (S → S × Option E)

pub record Hooks (S E : Type 0) : Type 0 where
  pub after_query : Hook S E
  pub before_save : Hook S E
  pub after_save : Hook S E
  pub before_create : Hook S E
  pub after_create : Hook S E
  pub before_update : Hook S E
  pub after_update : Hook S E

pub data ActorError (E : Type 0) : Type 0 where
  hook_failed : E → ActorError E
  unknown_flag : ℕ → ActorError E
  out_of_fuel : ActorError E

-- The constants: 1 << iota, where iota is 1 at actsAfterQuery.
abbrev pub acts_after_query : ℕ
acts_after_query = 2

abbrev pub acts_before_save : ℕ
acts_before_save = 4

abbrev pub acts_after_save : ℕ
acts_after_save = 8

abbrev pub acts_before_create : ℕ
acts_before_create = 16

abbrev pub acts_after_create : ℕ
acts_after_create = 32

abbrev pub acts_before_update : ℕ
acts_before_update = 64

abbrev pub acts_after_update : ℕ
acts_after_update = 128

-- which&flag != 0, for a flag that is a power of two.
abbrev pub has_flag : ℕ → ℕ → Bool
has_flag which flag = which / flag % 2 == 1

module _ {S E : Type 0} (object : Hooks S E) where
  -- A hook, if the object has it.
  abbrev pub call : Hook S E → S → S × Option (ActorError E)
  call none s = (s, none)
  call (some f) s = elim (f s).1 [
    | none ↦ ((f s).0, none)
    | some e ↦ ((f s).0, some (hook_failed e))
  ]

  -- if err := …; err != nil { return err }
  abbrev pub unless_failed :
      S × Option (ActorError E) → (S → S × Option (ActorError E)) → S × Option (ActorError E)
  unless_failed (s, some e) f = (s, some e)
  unless_failed (s, none) f = f s

  -- The switch, with the recursive call passed in.
  unfoldable pub run_cases : (ℕ → S → S × Option (ActorError E)) → ℕ → S → S × Option (ActorError E)
  run_cases run which s =
      if has_flag which acts_after_query
      then call object.after_query s
      else if has_flag which acts_before_save
      then call object.before_save s
      else if has_flag which acts_after_save
      then call object.after_save s
      else if has_flag which acts_before_create
      then unless_failed (run acts_before_save s) (call object.before_create)
      else if has_flag which acts_after_create
      then unless_failed (run acts_after_save s) (call object.after_create)
      else if has_flag which acts_before_update
      then unless_failed (run acts_before_save s) (call object.before_update)
      else if has_flag which acts_after_update
      then unless_failed (run acts_after_save s) (call object.after_update)
      else (s, some (unknown_flag which))

  -- runActor on fuel.
  unfoldable pub run_within : ℕ → ℕ → S → S × Option (ActorError E)
  unfolding run_cases
  run_within zero which s = (s, some out_of_fuel)
  run_within (suc fuel) which s = run_cases (run_within fuel) which s

  -- runActor; a call within a call makes no further one.
  unfoldable pub run_actor : ℕ → S → S × Option (ActorError E)
  unfolding run_within
  run_actor which s = run_within 2 which s
