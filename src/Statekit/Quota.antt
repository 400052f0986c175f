-- ===== src/Statekit/Quota.antt =====
-- How many states a session can hold.
use django_allauth.Prelude.{
  ℕ, suc, ◌+◌, ◌≤◌, ◌<◌, ◌≡◌, true, false, Option, none, some, List, [], ◌∷◌, arith, inl, inr, All,
  length, ltb, Text, text_eq, eq_refl, insert, erase, Bool-cases,
}
use django_allauth.Statekit.{
  States, Oldest, truthy, max_states, get_oldest_state, erase_all, erase_oldest, expired_sids,
  gc_states, stash_state, unstash_state, unstash_last_state, unstash_oldest,
}
use django_allauth.Statekit.Extreme.{Holds, get_oldest_state_lem}

module _ {S : Type 0} where
  -- Identifiers are not empty.
  abbrev pub IsNamed : States S → Type 0
  IsNamed = All (λ e. truthy (some e.0) ≡ true)

  -- One state more than `MAX_STATES`: what is there before `gc_states` runs.
  pub record IsBounded (states : States S) : Type 0 where
    pub named : IsNamed states
    pub few : length states ≤ max_states + 1

  length-erase-le : (id : Text) (d : States S) → length (erase id d) ≤ length d
  unfolding erase
  length-erase-le id [] = omega arith
  length-erase-le id (e ∷ d) = ground (arith, length-erase-le id d)

  length-erase-lt : (o : Oldest S) (d : States S) → Holds o d → length (erase o.id d) < length d
  unfolding erase
  length-erase-lt o [] h = elim h [ ]
  length-erase-lt o ((id, (state, ts)) ∷ d) (inl same) =
      ground (arith, length-erase-le o.id d, eq_refl id)
  length-erase-lt o ((id, (state, ts)) ∷ d) (inr later) = ground (arith, length-erase-lt o d later)

  length-insert-le :
      (id : Text) (v : S × ℕ) (d : States S) → length (insert id v d) ≤ suc (length d)
  unfolding insert
  length-insert-le id v [] = omega arith
  length-insert-le id v (e ∷ d) = ground (arith, length-insert-le id v d)

  length-erase_all-le : (ids : List Text) (d : States S) → length (erase_all ids d) ≤ length d
  unfolding erase_all
  length-erase_all-le [] d = omega arith
  length-erase_all-le (id ∷ ids) d =
      omega (arith, length-erase_all-le ids (erase id d), length-erase-le id d)

  erase-IsNamed : (id : Text) (d : States S) → IsNamed d → IsNamed (erase id d)
  unfolding erase
  erase-IsNamed id [] h = tt
  erase-IsNamed id (e ∷ d) h = ground (arith, erase-IsNamed id d h.1)

  erase_all-IsNamed : (ids : List Text) (d : States S) → IsNamed d → IsNamed (erase_all ids d)
  unfolding erase_all
  erase_all-IsNamed [] d h = h
  erase_all-IsNamed (id ∷ ids) d h = erase_all-IsNamed ids (erase id d) (erase-IsNamed id d h)

  insert-IsNamed :
      (id : Text) (v : S × ℕ) (d : States S)
      → truthy (some id) ≡ true
      → IsNamed d
      → IsNamed (insert id v d)
  unfolding insert
  insert-IsNamed id v [] t h = (t, tt)
  insert-IsNamed id v (e ∷ d) t h = ground (arith, insert-IsNamed id v d t h.1)

  Holds-truthy : (o : Oldest S) (d : States S) → IsNamed d → Holds o d → truthy (some o.id) ≡ true
  Holds-truthy o [] h k = elim k [ ]
  Holds-truthy o ((id, (state, ts)) ∷ d) h (inl same) = ground arith
  Holds-truthy o (e ∷ d) h (inr later) = Holds-truthy o d h.1 later

  erase_oldest-IsNamed :
      (o : Option (Oldest S)) (d : States S) → IsNamed d → IsNamed (erase_oldest o d)
  unfolding erase_oldest
  erase_oldest-IsNamed none d h = h
  erase_oldest-IsNamed (some o) d h = ground (arith, erase-IsNamed o.id d h)

  -- The oldest state goes.
  erase_oldest-lt :
      (d : States S)
      → IsNamed d
      → 0 < length d
      → length (erase_oldest (get_oldest_state false d) d) < length d
  unfolding erase_oldest
  erase_oldest-lt [] h pos = absurd (omega arith)
  erase_oldest-lt ((id, (state, ts)) ∷ d) h pos =
      let (o, found, all, which) = (get_oldest_state_lem false id state ts d).1 in
      let whole : States S = (id, (state, ts)) ∷ d in
      rw (found, Holds-truthy o whole h which) (length-erase-lt o whole which)

  module _ (now : ℕ) (d : States S) (named : IsNamed d) where
    abbrev live : States S
    live = erase_all (expired_sids now d) d

    live-IsNamed : IsNamed live
    live-IsNamed = erase_all-IsNamed (expired_sids now d) d named

    gc_states-IsNamed : IsNamed (gc_states now d)
    unfolding gc_states
    gc_states-IsNamed =
        ground (
          arith,
          erase_oldest-IsNamed (get_oldest_state false live) live live-IsNamed,
          live-IsNamed,
        )

    gc_states-le : length d ≤ max_states + 1 → length (gc_states now d) ≤ max_states
    unfolding gc_states
    gc_states-le few = elim (Bool-cases (ltb max_states (length live))) [
      | inl full ↦
          rw (full, gc_states)
            (omega (
              arith,
              erase_oldest-lt live live-IsNamed (ground arith),
              length-erase_all-le (expired_sids now d) d,
            ))
      | inr room ↦ rw (room, gc_states) (ground arith)
    ]

  stash_state-IsBounded :
      (now : ℕ) (state : S) (id : Option Text) (generated : Text) (d : States S)
      → truthy (some (stash_state now state id generated d).0) ≡ true
      → IsBounded d
      → IsBounded (stash_state now state id generated d).1
  unfolding stash_state
  stash_state-IsBounded now state none generated d t b = record {
    named =
        insert-IsNamed generated (state, now) (gc_states now d) t (gc_states-IsNamed now d b.named);
    few = omega (
      arith,
      length-insert-le generated (state, now) (gc_states now d),
      gc_states-le now d b.named b.few,
    );
  }
  stash_state-IsBounded now state (some id) generated d t b = record {
    named = insert-IsNamed id (state, now) (gc_states now d) t (gc_states-IsNamed now d b.named);
    few = omega (
      arith,
      length-insert-le id (state, now) (gc_states now d),
      gc_states-le now d b.named b.few,
    );
  }

  unstash_state-IsBounded :
      (now : ℕ) (id : Text) (d : States S) → IsBounded d → IsBounded (unstash_state now id d).1
  unfolding unstash_state
  unstash_state-IsBounded now id d b =
      ground (arith, erase-IsNamed id d b.named, length-erase-le id d)

-- What a session is asked for, at a moment.
pub data Call (S : Type 0) : Type 0 where
  stash : S → Option Text → Text → Call S
  unstash : Text → Call S
  unstash_last : Call S

module _ {S : Type 0} where
  pub step : ℕ → Call S → States S → States S
  step now (stash state id generated) d = (stash_state now state id generated d).1
  step now (unstash id) d = (unstash_state now id d).1
  step now unstash_last d = (unstash_last_state now d).1

  pub run : List (ℕ × Call S) → States S → States S
  run [] d = d
  run ((now, call) ∷ calls) d = run calls (step now call d)

  -- Identifiers that are given or generated are not empty.
  abbrev pub IsProper : ℕ × Call S → Type 0
  IsProper (now, stash state none generated) = truthy (some generated) ≡ true
  IsProper (now, stash state (some id) generated) = truthy (some id) ≡ true
  IsProper (now, unstash id) = Unit
  IsProper (now, unstash_last) = Unit

  step-IsBounded :
      (now : ℕ) (call : Call S) (d : States S)
      → IsProper (now, call)
      → IsBounded d
      → IsBounded (step now call d)
  unfolding step unstash_last_state stash_state
  step-IsBounded now (stash state none generated) d p b =
      stash_state-IsBounded now state none generated d p b
  step-IsBounded now (stash state (some id) generated) d p b =
      stash_state-IsBounded now state (some id) generated d p b
  step-IsBounded now (unstash id) d p b = unstash_state-IsBounded now id d b
  step-IsBounded now unstash_last d p b = last (get_oldest_state true d)
    where
      last : (o : Option (Oldest S)) → IsBounded (unstash_oldest now o d).1
      last none = b
      last (some o) = ground (arith, unstash_state-IsBounded now o.id d b)

  run-IsBounded :
      (calls : List (ℕ × Call S)) (d : States S)
      → All IsProper calls
      → IsBounded d
      → IsBounded (run calls d)
  unfolding run
  run-IsBounded [] d p b = b
  run-IsBounded ((now, call) ∷ calls) d p b =
      run-IsBounded calls (step now call d) p.1 (step-IsBounded now call d p.0 b)

  -- However a session is used from the start, it never holds more than `MAX_STATES + 1` states: one
  -- more than the constant says, as the limit is enforced before the new state is added. Identifiers
  -- that are given or generated are not empty.
  pub run-le-max_states :
      (calls : List (ℕ × Call S)) → All IsProper calls → length (run calls []) ≤ max_states + 1
  run-le-max_states calls p =
      (run-IsBounded calls [] p (record { named = tt; few = omega arith })).few
