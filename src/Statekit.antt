-- ===== src/Statekit.antt =====
-- allauth/socialaccount/internal/statekit.py: the states of pending logins at social providers, kept
-- in the session under one-time identifiers. Times are in milliseconds.
pub mod Extreme
pub mod OneTime
pub mod Quota
mod Tests
use django_allauth.Prelude.{
  ℕ, ◌+◌, Bool, true, false, not, ◌&&◌, ◌||◌, Option, none, some, List, [], ◌∷◌, length, ltb,
  if◌then◌else◌, Dict, lookup, insert, erase, Text, text_eq,
}

abbrev pub max_states : ℕ
max_states = 10

abbrev pub state_ttl : ℕ
state_ttl = 600000

-- `states[state_id] = (state, ts)`
abbrev pub States {ℓ} : Type ℓ → Type ℓ
States S = Dict Text (S × ℕ)

-- Python's truth of an identifier.
abbrev pub truthy : Option Text → Bool
truthy none = false
truthy (some []) = false
truthy (some (c ∷ s)) = true

-- `now - ts > STATE_TTL`
abbrev pub is_expired : ℕ → ℕ → Bool
is_expired now ts = ltb (ts + state_ttl) now

-- The variables of the loop of `get_oldest_state`, once they are set.
pub record Oldest {ℓ} (S : Type ℓ) : Type ℓ where
  pub ts : ℕ
  pub id : Text
  pub state : S

module _ {ℓ} {S : Type ℓ} where
  abbrev pub improves : Bool → ℕ → Option (Oldest S) → Bool
  improves rev ts none = true
  improves rev ts (some o) = (rev && ltb o.ts ts) || (not rev && ltb ts o.ts)

  pub oldest_from : Bool → Option (Oldest S) → States S → Option (Oldest S)
  oldest_from rev best [] = best
  oldest_from rev best ((id, (state, ts)) ∷ rest) =
      oldest_from rev
        (if improves rev ts best then some (record { ts = ts; id = id; state = state }) else best)
        rest

  pub get_oldest_state : Bool → States S → Option (Oldest S)
  unfolding oldest_from
  get_oldest_state rev states = oldest_from rev none states

  pub expired_sids : ℕ → States S → List Text
  expired_sids now [] = []
  expired_sids now ((id, (state, ts)) ∷ rest) =
      let sids = expired_sids now rest in if is_expired now ts then id ∷ sids else sids

  pub erase_all : List Text → States S → States S
  erase_all [] states = states
  erase_all (id ∷ ids) states = erase_all ids (erase id states)

  pub erase_oldest : Option (Oldest S) → States S → States S
  erase_oldest none states = states
  erase_oldest (some o) states = if truthy (some o.id) then erase o.id states else states

  pub gc_states : ℕ → States S → States S
  unfolding expired_sids erase_all erase_oldest
  gc_states now states =
      let live = erase_all (expired_sids now states) states in
      if ltb max_states (length live) then erase_oldest (get_oldest_state false live) live else live

  -- `generated` is what `generate_state_param` returns, where no identifier is given.
  pub stash_state : ℕ → S → Option Text → Text → States S → Text × States S
  stash_state now state none generated states =
      (generated, insert generated (state, now) (gc_states now states))
  stash_state now state (some id) generated states =
      (id, insert id (state, now) (gc_states now states))

  pub unstash_found : ℕ → Text → Option (S × ℕ) → States S → Option S × States S
  unstash_found now id none states = (none, states)
  unstash_found now id (some (state, ts)) states =
      (if is_expired now ts then none else some state, erase id states)

  pub unstash_state : ℕ → Text → States S → Option S × States S
  unfolding unstash_found
  unstash_state now id states = unstash_found now id (lookup id states) states

  abbrev unstash_oldest : ℕ → Option (Oldest S) → States S → Option S × States S
  unstash_oldest now none states = (none, states)
  unstash_oldest now (some o) states =
      (some o.state, if truthy (some o.id) then (unstash_state now o.id states).1 else states)

  -- The state is returned as the loop found it, without the test of its age.
  pub unstash_last_state : ℕ → States S → Option S × States S
  unstash_last_state now states = unstash_oldest now (get_oldest_state true states) states
