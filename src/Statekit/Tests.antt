-- ===== src/Statekit/Tests.antt =====
-- Runs of the pending states on small inputs.
use django_allauth.Prelude.{
  ℕ, ◌+◌, ◌≤◌, ◌≡◌, refl, none, some, List, [], ◌∷◌, length, text_eq, codes, ltb, if◌then◌else◌,
}
use django_allauth.Statekit.{States, max_states, state_ttl, stash_state, unstash_state}
use django_allauth.Statekit.OneTime.{unstash-stash}
use django_allauth.Statekit.Quota.{Call, stash, unstash, unstash_last, run, run-le-max_states}

abbrev three_states : States ℕ
three_states = (codes "a", (1, 500)) ∷ (codes "b", (2, 300)) ∷ (codes "c", (3, 400)) ∷ []

unstash-stash_example :
    let states' = (stash_state 600 4 (some (codes "d")) [] three_states).1 in
    let (handed, states'') = unstash_state 900 (codes "d") states' in
    (handed ≡ (if ltb (600 + state_ttl) 900 then none else some 4))
    × ((unstash_state 1000 (codes "d") states'').0 ≡ none)
unstash-stash_example = unstash-stash 600 900 1000 4 (codes "d") [] three_states

abbrev calls : List (ℕ × Call ℕ)
calls =
    (1, stash 5 none (codes "x"))
    ∷ (2, stash 6 (some (codes "y")) [])
    ∷ (3, unstash (codes "x"))
    ∷ (4, unstash_last)
    ∷ []

run-le-max_states_example : length (run calls []) ≤ max_states + 1
run-le-max_states_example = run-le-max_states calls (refl, (refl, (tt, (tt, tt))))
