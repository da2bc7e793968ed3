-- ===== src/Actors/Tests.antt =====
-- Hooks that write down their calls.
use go_django_queries.Prelude.{ℕ, suc, none, some, List, [], ◌∷◌, ◌≡◌, refl}
use go_django_queries.Actors.{
  Hook, Hooks, hook_failed, unknown_flag, run_actor, run_within, run_cases, acts_before_create,
}
use go_django_queries.Actors.Order.{before_create, flag_of, run_actor-hooks}

abbrev notes : ℕ → Hook (List ℕ) ℕ
notes n = some (λ s. (n ∷ s, none))

abbrev object : Hooks (List ℕ) ℕ
object = record {
  after_query = none;
  before_save = notes 1;
  after_save = none;
  before_create = notes 2;
  after_create = none;
  before_update = some (λ s. (s, some 7));
  after_update = none;
}

creates : run_actor object acts_before_create [] ≡ (2 ∷ 1 ∷ [], none)
unfolding run_actor run_within run_cases
creates = refl

-- One is no flag.
unknown : run_actor object 1 [] ≡ ([], some (unknown_flag 1))
unfolding run_actor run_within run_cases
unknown = refl

-- The hook of saving fails, so that of creating is not called.
abbrev refusing : Hooks (List ℕ) ℕ
refusing = record object { before_save = some (λ s. (1 ∷ s, some 7)) }

run_actor-hooks_example :
    (run_actor refusing (flag_of before_create) [] ≡ (1 ∷ [], some (hook_failed 7)))
    × ((fuel : ℕ)
        → run_within refusing (suc (suc fuel)) (flag_of before_create) []
          ≡ run_actor refusing (flag_of before_create) [])
run_actor-hooks_example = run_actor-hooks refusing before_create []
