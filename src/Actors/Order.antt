-- ===== src/Actors/Order.antt =====
-- Which hooks runActor of src/queryset_actors.go calls, and in which order.
use go_django_queries.Prelude.{
  ℕ, suc, Option, none, some, List, [], ◌∷◌, ◌≡◌, refl, sym, ◌∙◌, Option-cases, inl, inr,
}
use go_django_queries.Actors.{
  Hook, Hooks, ActorError, hook_failed, acts_after_query, acts_before_save, acts_after_save,
  acts_before_create, acts_after_create, acts_before_update, acts_after_update, call, unless_failed,
  run_within, run_actor,
}

-- The kinds of call: one for each constant.
pub data Act : Type 0 where
  after_query before_save after_save before_create after_create before_update after_update : Act

abbrev pub flag_of : Act → ℕ
flag_of after_query = acts_after_query
flag_of before_save = acts_before_save
flag_of after_save = acts_after_save
flag_of before_create = acts_before_create
flag_of after_create = acts_after_create
flag_of before_update = acts_before_update
flag_of after_update = acts_after_update

module _ {S E : Type 0} where
  -- The hooks that a call is to run, in their order: that of saving first.
  abbrev pub hooks_of : Act → Hooks S E → List (Hook S E)
  hooks_of after_query object = object.after_query ∷ []
  hooks_of before_save object = object.before_save ∷ []
  hooks_of after_save object = object.after_save ∷ []
  hooks_of before_create object = object.before_save ∷ object.before_create ∷ []
  hooks_of after_create object = object.after_save ∷ object.after_create ∷ []
  hooks_of before_update object = object.before_save ∷ object.before_update ∷ []
  hooks_of after_update object = object.after_save ∷ object.after_update ∷ []

  -- Running hooks: those that the object lacks are passed over, and the first error ends the run.
  abbrev pub until_error : List (Hook S E) → S → S × Option E
  until_error [] s = (s, none)
  until_error (none ∷ hooks) s = until_error hooks s
  until_error (some f ∷ hooks) s = elim (f s).1 [
    | none ↦ until_error hooks (f s).0
    | some e ↦ ((f s).0, some e)
  ]

  abbrev pub as_returned : S × Option E → S × Option (ActorError E)
  as_returned (s, none) = (s, none)
  as_returned (s, some e) = (s, some (hook_failed e))

  module _ (object : Hooks S E) where
    one_hook : (f : Hook S E) (s : S) → call object f s ≡ as_returned (until_error (f ∷ []) s)
    one_hook none s = refl
    one_hook (some f) s = elim (Option-cases (f s).1) [
      | inl passed ↦ rw (passed, call) refl
      | inr (e, failed) ↦ rw (failed, call) refl
    ]

    two_hooks :
        (f g : Hook S E) (s : S)
        → unless_failed object (call object f s) (call object g)
          ≡ as_returned (until_error (f ∷ g ∷ []) s)
    two_hooks none g s = one_hook g s
    two_hooks (some f) g s = elim (Option-cases (f s).1) [
      | inl passed ↦ rw (passed, call) (one_hook g (f s).0)
      | inr (e, failed) ↦ rw (failed, call) refl
    ]

    run_within-hooks :
        (fuel : ℕ) (act : Act) (s : S)
        → run_within object (suc (suc fuel)) (flag_of act) s
          ≡ as_returned (until_error (hooks_of act object) s)
    unfolding run_within
    run_within-hooks fuel after_query s = one_hook object.after_query s
    run_within-hooks fuel before_save s = one_hook object.before_save s
    run_within-hooks fuel after_save s = one_hook object.after_save s
    run_within-hooks fuel before_create s = two_hooks object.before_save object.before_create s
    run_within-hooks fuel after_create s = two_hooks object.after_save object.after_create s
    run_within-hooks fuel before_update s = two_hooks object.before_save object.before_update s
    run_within-hooks fuel after_update s = two_hooks object.after_save object.after_update s

    -- With each of the constants, runActor runs the hooks of the object for it in their order, that of
    -- saving before that of creating or updating, until one returns an error, and ends with that error
    -- or nil and the state behind the last hook it ran; more fuel changes nothing.
    pub run_actor-hooks :
        (act : Act) (s : S)
        → (run_actor object (flag_of act) s ≡ as_returned (until_error (hooks_of act object) s))
          × ((fuel : ℕ)
              → run_within object (suc (suc fuel)) (flag_of act) s
                ≡ run_actor object (flag_of act) s)
    unfolding run_actor
    run_actor-hooks act s = (
      run_within-hooks 0 act s,
      λ fuel. run_within-hooks fuel act s ∙ sym (run_within-hooks 0 act s),
    )
