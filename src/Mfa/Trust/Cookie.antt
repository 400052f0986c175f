-- ===== src/Mfa/Trust/Cookie.antt =====
-- Which browsers are trusted, after one was.
use django_allauth.Prelude.{
  ℕ, ◌+◌, ◌*◌, ◌/◌, ◌≤◌, ◌≡◌, ◌≢◌, refl, ◌∙◌, ap, Bool, ◌&&◌, ◌||◌, Option, none, some, List, [],
  ◌∷◌, ◌++◌, arith, keep, any, ltb, ◌==◌, Text, text_eq, All, Free, str, join, split, split-join,
  ◌↔◌, ◌⊎◌, true, false, sym, inl, inr, Option-cases, ◌<◌,
}
use django_allauth.Mfa.Trust.{
  IssuedTrust, Env, Authenticator, User, authenticator_parts, create_config_fingerprint, is_current,
  current, decode_trust_cookie, encode_trust_cookie, trust_browser, is_trusted_browser,
}

any-append :
    (p : IssuedTrust → Bool) (xs ys : List IssuedTrust) → any p (xs ++ ys) ≡ any p xs || any p ys
any-append p [] ys = refl
any-append p (x ∷ xs) ys = ground (arith, any-append p xs ys)

keep-append :
    (p : IssuedTrust → Bool) (xs ys : List IssuedTrust) → keep p (xs ++ ys) ≡ keep p xs ++ keep p ys
keep-append p [] ys = refl
keep-append p (x ∷ xs) ys = ground (arith, keep-append p xs ys)

-- What the trust of a user rests on.
abbrev signs : List Authenticator → List Text
signs [] = []
signs (a ∷ rest) = elim a.seed [
  | none ↦ str a.pk ∷ a.type ∷ signs rest
  | some seed ↦ str a.pk ∷ a.type ∷ seed ∷ signs rest
]

abbrev config : User → List Text
config user = str user.pk ∷ user.password ∷ signs user.authenticators

-- The same user, with the same password, and with the same authenticators: their keys, types and
-- seeds, in order.
pub record SameConfig (user other : User) : Type 0 where
  pub same_pk : str user.pk ≡ str other.pk
  pub same_password : user.password ≡ other.password
  pub same_authenticators : signs user.authenticators ≡ signs other.authenticators

config-parts : (u : User) → str u.pk ∷ u.password ∷ authenticator_parts u.authenticators ≡ config u
config-parts u = ap (λ x. str u.pk ∷ u.password ∷ x) (each u.authenticators)
  where
    each : (as_ : List Authenticator) → authenticator_parts as_ ≡ signs as_
    each [] = refl
    each (a ∷ rest) = elim (Option-cases a.seed) [
      | inl bare ↦ rw bare (ap (λ x. str a.pk ∷ a.type ∷ x) (each rest))
      | inr (seed, has) ↦ rw has (ap (λ x. str a.pk ∷ a.type ∷ seed ∷ x) (each rest))
    ]

same_of : {user other : User} → config user ≡ config other → SameConfig user other
same_of h = record { same_pk = cc; same_password = cc; same_authenticators = cc }

config_of : {user other : User} → SameConfig user other → config user ≡ config other
config_of s = cc (s.same_pk, s.same_password, s.same_authenticators)

-- A disjunction of tests, as one of propositions.
taken_apart {ℓ} :
    {P : Type ℓ} (old enabled : Bool) (later until : ℕ) {fits : Bool}
    → (old || (enabled && (ltb later until && fits))) ≡ true
    → (fits ≡ true → P)
    → (old ≡ true) ⊎ ((enabled ≡ true) × (later < until) × P)
taken_apart true enabled later until h f = inl refl
taken_apart false enabled later until h f =
    inr (ground (arith, h), ground (arith, h), f (ground (arith, h)))

put_together :
    (old enabled : Bool) (later until : ℕ) {fits : Bool}
    → (old ≡ true) ⊎ ((enabled ≡ true) × (later < until) × (fits ≡ true))
    → (old || (enabled && (ltb later until && fits))) ≡ true
put_together old enabled later until (inl h) = ground (arith, h)
put_together old enabled later until (inr (e, l, f)) = ground arith

-- No separator stands in the password, the types and the seeds.
abbrev pub IsPlain : User → Type 0
IsPlain user = All (Free b'|') (config user)

module _ (env : Env) where
  keep_later :
      (now later : ℕ) (ts : List IssuedTrust)
      → now ≤ later
      → keep (is_current env later) (keep (is_current env now) ts) ≡ keep (is_current env later) ts
  keep_later now later [] le = refl
  keep_later now later (t ∷ ts) le = ground (arith, keep_later now later ts le)

  current_later :
      (now later : ℕ) (o : Option (List IssuedTrust))
      → now ≤ later
      → keep (is_current env later) (current env now o) ≡ current env later o
  current_later now later none le = refl
  current_later now later (some ts) le = keep_later now later ts le

  decode_full :
      (later : ℕ) (value : Text)
      → value ≢ []
      → decode_trust_cookie env later (some value) ≡ current env later (env.unsign_object value)
  unfolding decode_trust_cookie
  decode_full later [] full = absurd (full refl)
  decode_full later (c ∷ value) full = refl

  -- An entry that an earlier look at the cookie kept is looked at again.
  keep-decode :
      (now later : ℕ) (cookie : Option Text)
      → now ≤ later
      → keep (is_current env later) (decode_trust_cookie env now cookie)
        ≡ decode_trust_cookie env later cookie
  unfolding decode_trust_cookie
  keep-decode now later none le = refl
  keep-decode now later (some []) le = refl
  keep-decode now later (some (c ∷ value)) le =
      current_later now later (env.unsign_object (c ∷ value)) le

  decode-signed :
      (later : ℕ) (ts : List IssuedTrust)
      → env.unsign_object (env.sign_object ts) ≡ some ts
      → env.sign_object ts ≢ []
      → decode_trust_cookie env later (some (env.sign_object ts)) ≡ keep (is_current env later) ts
  decode-signed later ts round full =
      decode_full later (env.sign_object ts) full ∙ ap (current env later) round

  -- The browser is trusted as before, or by the trust that was added.
  by_fingerprint :
      ((ts : List IssuedTrust) → env.unsign_object (env.sign_object ts) ≡ some ts)
      → ((ts : List IssuedTrust) → env.sign_object ts ≢ [])
      → (now later : ℕ) (cookie : Option Text) (user other : User) → now ≤ later
      → is_trusted_browser env later (some (trust_browser env now cookie user)) other ≡ (
          is_trusted_browser env later cookie other
          || (env.trust_stage_enabled
              && (ltb later ((now / 1000 + env.trust_cookie_age) * 1000)
                  && create_config_fingerprint env user == create_config_fingerprint env other)))
  unfolding is_trusted_browser trust_browser encode_trust_cookie
  by_fingerprint round full now later cookie user other le =
      let old = decode_trust_cookie env now cookie in
      let issued : IssuedTrust = record {
        fingerprint = create_config_fingerprint env user;
        at = now / 1000;
      } in
      rw
        (
          decode-signed later (old ++ issued ∷ []) (round (old ++ issued ∷ []))
              (full (old ++ issued ∷ [])),
          keep-append (is_current env later) old (issued ∷ []),
          keep-decode now later cookie le,
          any-append (λ t. t.fingerprint == create_config_fingerprint env other)
              (decode_trust_cookie env later cookie) (keep (is_current env later) (issued ∷ [])),
        )
        (ground arith)

  module _ (injective : (s t : Text) → env.salted_hmac s ≡ env.salted_hmac t → s ≡ t) where
    fingerprint_iff :
        (user other : User)
        → IsPlain user
        → IsPlain other
        → ((create_config_fingerprint env user == create_config_fingerprint env other) ≡ true)
          ↔ SameConfig user other
    unfolding create_config_fingerprint
    fingerprint_iff user other plain plain' =
        let agree =
          text_eq.agrees (create_config_fingerprint env user)
            (create_config_fingerprint env other) in
        let hashed = λ (u : User). ap (λ x. env.salted_hmac (join b'|' x)) (config-parts u) in
        (
          λ h.
              let joined : join b'|' (config user) ≡ join b'|' (config other) =
                injective _ _ (sym (hashed user) ∙ agree.0 h ∙ hashed other) in
              same_of (
                sym (split-join b'|' (str user.pk) _ plain)
                ∙ ap (split b'|') joined
                ∙ split-join b'|' (str other.pk) _ plain'),
          λ same. agree.1 (
              hashed user
              ∙ ap (λ x. env.salted_hmac (join b'|' x)) (config_of same)
              ∙ sym (hashed other)),
        )

-- With a signer that gives back what it signed and never signs to an empty text, a digest without
-- collisions, and users whose passwords, types of authenticators and seeds do not hold the separator:
-- after a browser was trusted for one user, it is trusted for a user exactly if it was before, or if
-- trust is enabled, the new one is not older than `TRUST_COOKIE_AGE`, and it is the same user with the
-- same password and the same authenticators (their keys, types and seeds, in order). So a change of
-- the password or of an authenticator ends the trust, and nothing else is gained.
pub trusted_after :
    (env : Env)
    → ((ts : List IssuedTrust) → env.unsign_object (env.sign_object ts) ≡ some ts)
    → ((ts : List IssuedTrust) → env.sign_object ts ≢ [])
    → ((s t : Text) → env.salted_hmac s ≡ env.salted_hmac t → s ≡ t)
    → (now later : ℕ) (cookie : Option Text) (user other : User) → now ≤ later
    → IsPlain user
    → IsPlain other
    → (is_trusted_browser env later (some (trust_browser env now cookie user)) other ≡ true) ↔ (
        (is_trusted_browser env later cookie other ≡ true)
        ⊎ ((env.trust_stage_enabled ≡ true)
            × (later < (now / 1000 + env.trust_cookie_age) * 1000)
            × SameConfig user other))
trusted_after env round full injective now later cookie user other le plain plain' =
    let added = by_fingerprint env round full now later cookie user other le in
    let same = fingerprint_iff env injective user other plain plain' in
    (
      λ h. taken_apart _ _ _ _ (sym added ∙ h) same.0,
      λ h.
          added
          ∙ put_together _ _ _ _ (elim h [
            | inl before ↦ inl before
            | inr (enabled, young, config') ↦ inr (enabled, young, same.1 config')
          ]),
    )
