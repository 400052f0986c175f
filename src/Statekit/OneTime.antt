-- ===== src/Statekit/OneTime.antt =====
-- A stashed state is handed out once, and not after its time.
use django_allauth.Prelude.{
  ℕ, ◌+◌, ◌≡◌, refl, none, some, inl, inr, ltb, if◌then◌else◌, lookup, insert, erase, lookup-insert,
  lookup-erase, eq_refl, Text, text_eq, Option-cases,
}
use django_allauth.Statekit.{States, state_ttl, stash_state, unstash_state, gc_states}

module _ {ℓ} {S : Type ℓ} where
  lookup-insert_self : (id : Text) (v : S × ℕ) (d : States S) → lookup id (insert id v d) ≡ some v
  lookup-insert_self id v d = rw (lookup-insert id id v d, eq_refl id)

  lookup-erase_self : (id : Text) (d : States S) → lookup id (erase id d) ≡ none
  lookup-erase_self id d = rw (lookup-erase id id d, eq_refl id)

  unstash_missing :
      (now : ℕ) (id : Text) (d : States S) → lookup id d ≡ none → unstash_state now id d ≡ (none, d)
  unfolding unstash_state
  unstash_missing now id d h = rw h

  -- Whatever was asked of an identifier, it is not known afterwards, and is never answered again.
  pub unstash_once :
      (now latest : ℕ) (id : Text) (states : States S)
      → let states' = (unstash_state now id states).1 in
        (lookup id states' ≡ none) × ((unstash_state latest id states').0 ≡ none)
  unfolding unstash_state
  unstash_once now latest id states = elim (Option-cases (lookup id states)) [
    | inl missing ↦ rw missing (missing, rw missing)
    | inr (v, found) ↦ rw (found, lookup-erase_self id states) (refl, refl)
  ]

  unstash_known :
      (now later : ℕ) (id : Text) (state : S) (d : States S)
      → lookup id d ≡ some (state, now)
      → (unstash_state later id d).0 ≡ (if ltb (now + state_ttl) later then none else some state)
  unfolding unstash_state
  unstash_known now later id state d h = rw h

  -- Whatever was stashed before, a state that was just stashed under an identifier is handed out
  -- under it for ten minutes, and not later; once asked for, handed out or not, the identifier is
  -- never answered again.
  pub unstash-stash :
      (now later latest : ℕ) (state : S) (id generated : Text) (states : States S)
      → let states' = (stash_state now state (some id) generated states).1 in
        let (handed, states'') = unstash_state later id states' in
        (handed ≡ (if ltb (now + state_ttl) later then none else some state))
        × ((unstash_state latest id states'').0 ≡ none)
  unfolding stash_state
  unstash-stash now later latest state id generated states =
      let d = insert id (state, now) (gc_states now states) in
      (
        unstash_known now later id state d
            (lookup-insert_self id (state, now) (gc_states now states)),
        (unstash_once later latest id d).1,
      )
