-- ===== src/Mfa/Totp/Replay.antt =====
-- How long a used code is refused.
use native.Mathlib.Nat.{mod-add-div', mod-lt, add-div_right}
use django_allauth.Prelude.{
  ℕ, zero, suc, ◌+◌, ◌-◌, ◌*◌, ◌/◌, ◌≤◌, ◌<◌, ◌≡◌, refl, ap, ◌∙◌, sym, true, false, none, some,
  arith, inl, inr, Text, text_eq, eq_refl, Option-cases, Bool-cases, nat_eqb, nat_eqb_iff,
  text_eqb_iff, List, [], ◌∷◌, Bool, ◌==◌, is_ascii, ascii-zfill, compare_digest,
  compare_digest-ascii, compare_digest_beyond,
}
use django_allauth.Cache.{Cache, Stored, mark}
use django_allauth.Mfa.Totp.{
  Env, Totp, counter_at, counters_from, yield_hotp_counters_from_time, hotp_value, or_next,
  format_hotp_value, is_insecure_bypass, matches, validate_totp_code, used_cache_key, validate_code,
}

-- Two moments in one period are less than a period apart.
same_period : (p x y : ℕ) → 0 < p → x / p ≡ y / p → y < x + p
same_period p x y pos e =
    omega (arith, mod-add-div' x p, mod-add-div' y p, mod-lt y pos, ap (λ (q : ℕ). q * p) e)

module _ (env : Env) (code : Text) (secret : Text) where
  abbrev shown_at : ℕ → Text
  shown_at counter = format_hotp_value env (hotp_value env secret counter)

  shown-ascii : (counter : ℕ) → is_ascii (shown_at counter) ≡ true
  unfolding format_hotp_value
  shown-ascii counter = ascii-zfill env.totp_digits (hotp_value env secret counter)

  -- A code in ASCII is compared with each shown code.
  compared :
      (counter : ℕ)
      → is_ascii code ≡ true
      → compare_digest code (shown_at counter) ≡ some (code == shown_at counter)
  compared counter ascii = compare_digest-ascii code (shown_at counter) ascii (shown-ascii counter)

  -- The loop answers where the code is in ASCII, and only there can it find the code.
  matches_defined :
      (counters : List ℕ)
      → is_ascii code ≡ true
      → (found : Bool) × (matches env secret code counters ≡ some found)
  unfolding matches
  matches_defined [] ascii = (false, refl)
  matches_defined (counter ∷ counters) ascii = elim (Bool-cases (code == shown_at counter)) [
    | inl same ↦ (true, rw (compared counter ascii, same) refl)
    | inr other ↦
        let (found, e) = matches_defined counters ascii in
        (found, rw (compared counter ascii, other) e)
  ]

  matches_beyond :
      (counters : List ℕ)
      → is_ascii code ≡ false
      → (matches env secret code counters ≡ some true)
      → is_ascii code ≡ true
  unfolding matches
  matches_beyond [] beyond h = cc
  matches_beyond (counter ∷ counters) beyond h =
      let raised = compare_digest_beyond code (shown_at counter) beyond in
      let never : none ≡ some true =
        ap (λ o. or_next o (matches env secret code counters)) (sym raised) ∙ h in
      cc

  pub validated_ascii :
      (now : ℕ)
      → is_insecure_bypass env code ≡ false
      → validate_totp_code env secret code now ≡ some true
      → is_ascii code ≡ true
  unfolding validate_totp_code
  validated_ascii now honest h = elim (Bool-cases (is_ascii code)) [
    | inl ascii ↦ ascii
    | inr beyond ↦
        matches_beyond (yield_hotp_counters_from_time env now) beyond (ground (arith, h, honest))
  ]

  pub validated_defined :
      (now : ℕ)
      → is_insecure_bypass env code ≡ false
      → is_ascii code ≡ true
      → (valid : Bool) × (validate_totp_code env secret code now ≡ some valid)
  unfolding validate_totp_code
  validated_defined now honest ascii =
      let (valid, e) = matches_defined (yield_hotp_counters_from_time env now) ascii in
      (valid, rw honest e)

  pub matches_hit :
      (counter first n : ℕ)
      → is_ascii code ≡ true
      → code ≡ shown_at counter
      → first ≤ counter
      → counter < first + n
      → matches env secret code (counters_from first n) ≡ some true
  unfolding matches
  matches_hit counter first zero ascii e low high = absurd (omega arith)
  matches_hit counter first (suc n) ascii e low high = elim (Bool-cases (code == shown_at first)) [
    | inl same ↦ rw (compared first ascii, same) refl
    | inr other ↦ elim (Bool-cases (nat_eqb first counter)) [
      | inl here ↦
          let fits : code ≡ shown_at first =
            e ∙ ap shown_at (sym ((nat_eqb_iff first counter).0 here)) in
          let same = (text_eqb_iff code (shown_at first)).1 fits in cc
      | inr later ↦
          rw (compared first ascii, other)
            (matches_hit counter (first + 1) n ascii e (ground (arith, later)) (omega arith))
    ]
  ]

module _ (env : Env) (c : Cache Stored) (t : Totp) (code : Text)
    (honest : is_insecure_bypass env code ≡ false) where
  open c use {State, get, set, add, get-set, add_free, add_taken}

  abbrev pub key : Text
  key = used_cache_key env t code

  abbrev pub lifetime : ℕ
  lifetime = env.totp_period * 1000

  -- An accepted code was not marked, and is marked then.
  accepted :
      (now : ℕ) (s : State)
      → (validate_code env c t code now s).0 ≡ some true
      → (validate_totp_code env (env.decrypt t.secret) code now ≡ some true)
        × (get now key s ≡ none)
        × ((validate_code env c t code now s).1 ≡ set now key mark lifetime s)
  unfolding validate_code
  accepted now s h = elim (Option-cases (get now key s)) [
    | inl free ↦ ground (arith, add_free now key mark lifetime s free)
    | inr (w, taken) ↦ ground (arith, add_taken now key mark lifetime s taken)
  ]

  -- A marked code is refused.
  refused :
      (later : ℕ) (s : State) (w : Stored)
      → is_ascii code ≡ true
      → get later key s ≡ some w
      → (validate_code env c t code later s).0 ≡ some false
  unfolding validate_code
  refused later s w ascii taken =
      let (valid, e) = validated_defined env code (env.decrypt t.secret) later honest ascii in
      ground (arith, e, add_taken later key mark lifetime s taken)

  refresh :
      (now later : ℕ) (s : State)
      → now ≤ later
      → later < now + lifetime
      → get later key (set now key mark lifetime s) ≡ some mark
  refresh now later s le lt =
      rw (get-set now later key key mark lifetime s le, eq_refl key) (ground arith)

  -- A code that was accepted, and not by the bypass, is refused for `TOTP_PERIOD` seconds.
  refused_for_a_period :
      (now later : ℕ) (s : State)
      → (validate_code env c t code now s).0 ≡ some true
      → now ≤ later
      → later < now + lifetime
      → (validate_code env c t code later (validate_code env c t code now s).1).0 ≡ some false
  refused_for_a_period now later s ok le lt =
      let (valid, free, stored) = accepted now s ok in
      rw stored (
        refused later (set now key mark lifetime s) mark
          (validated_ascii env code (env.decrypt t.secret) now honest valid)
          (refresh now later s le lt))

  -- With a positive period: a code that was accepted, and not by the bypass, is refused as long as
  -- the counter of the clock stays the same, so that with no tolerance a code is good for one use.
  pub refused_in_period :
      (now later : ℕ) (s : State)
      → 0 < env.totp_period
      → (validate_code env c t code now s).0 ≡ some true
      → now ≤ later
      → counter_at env now ≡ counter_at env later
      → (validate_code env c t code later (validate_code env c t code now s).1).0 ≡ some false
  refused_in_period now later s pos ok le same =
      refused_for_a_period now later s ok le
        (omega (arith, same_period env.totp_period (now / 1000) (later / 1000) pos same))

  accept_free :
      (now : ℕ) (s : State)
      → get now key s ≡ none
      → validate_totp_code env (env.decrypt t.secret) code now ≡ some true
      → validate_code env c t code now s ≡ (some true, set now key mark lifetime s)
  unfolding validate_code
  accept_free now s free fits = ground (arith, add_free now key mark lifetime s free)

  gone :
      (now later : ℕ) (s : State)
      → now + lifetime ≤ later
      → get later key (set now key mark lifetime s) ≡ none
  gone now later s over =
      rw (get-set now later key key mark lifetime s (omega arith), eq_refl key) (ground arith)

  fits_at :
      (now counter : ℕ)
      → code ≡ format_hotp_value env (hotp_value env (env.decrypt t.secret) counter)
      → counter_at env now ≤ counter + env.totp_tolerance
      → counter ≤ counter_at env now + env.totp_tolerance
      → env.totp_tolerance ≤ counter_at env now
      → validate_totp_code env (env.decrypt t.secret) code now ≡ some true
  unfolding validate_totp_code yield_hotp_counters_from_time
  fits_at now counter e low high past = rw honest (
      matches_hit env code (env.decrypt t.secret) counter (counter_at env now - env.totp_tolerance)
        (2 * env.totp_tolerance + 1)
        (ap is_ascii e ∙ shown-ascii env code (env.decrypt t.secret) counter) e (omega arith)
        (omega arith))

  next_counter :
      (now : ℕ) → 0 < env.totp_period → counter_at env (now + lifetime) ≡ counter_at env now + 1
  next_counter now pos =
      ap (λ (x : ℕ). x / env.totp_period) (omega arith) ∙ add-div_right (now / 1000) pos

  -- With a tolerance of one period or more, the current code, not used before, is accepted, and the
  -- same code is accepted a second time one period later: the mark of a used code lasts for
  -- `TOTP_PERIOD`, while the code still fits. The period is positive, and the clock is past the first
  -- periods.
  pub replayed :
      (now : ℕ) (s : State)
      → 0 < env.totp_period
      → 0 < env.totp_tolerance
      → env.totp_tolerance ≤ counter_at env now
      → code ≡ format_hotp_value env (hotp_value env (env.decrypt t.secret) (counter_at env now))
      → get now key s ≡ none
      → let (first, s') = validate_code env c t code now s in
        (first ≡ some true) × ((validate_code env c t code (now + lifetime) s').0 ≡ some true)
  replayed now s pos tolerant past e free =
      let first =
        accept_free now s free
          (fits_at now (counter_at env now) e (omega arith) (omega arith) past) in
      let next = next_counter now pos in
      let later = now + lifetime in
      let second =
        accept_free later (set now key mark lifetime s) (gone now later s (omega arith))
          (fits_at later (counter_at env now) e (omega arith) (omega arith) (omega arith)) in
      rw first (refl, ap (λ r. r.0) second)
