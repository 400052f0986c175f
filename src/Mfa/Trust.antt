-- ===== src/Mfa/Trust.antt =====
-- allauth/mfa/internal/flows/trust.py: browsers that need no second factor, by a signed cookie. The
-- clock is in milliseconds, and a trust is issued at a second.
pub mod Cookie
mod Tests
use django_allauth.Prelude.{
  ℕ, ◌+◌, ◌*◌, ◌/◌, Bool, true, false, Option, none, some, List, [], ◌∷◌, ◌++◌, keep, any, ltb,
  if◌then◌else◌, ◌==◌, Text, text_eq, str, join,
}

pub record IssuedTrust : Type 0 where
  pub fingerprint : Text
  pub at : ℕ

-- The settings, and what the program takes from Django: a signer of objects, whose `unsign_object`
-- gives `none` for a bad signature, and a salted HMAC in hexadecimal.
pub record Env : Type 0 where
  pub trust_stage_enabled : Bool
  pub trust_cookie_age : ℕ
  pub sign_object : List IssuedTrust → Text
  pub unsign_object : Text → Option (List IssuedTrust)
  pub salted_hmac : Text → Text

-- What the fingerprint reads of a user and of their authenticators, in the order of primary keys.
pub record Authenticator : Type 0 where
  pub pk : ℕ
  pub type : Text
  pub seed : Option Text

pub record User : Type 0 where
  pub pk : ℕ
  pub password : Text
  pub authenticators : List Authenticator

abbrev seed_part : Option Text → List Text
seed_part none = []
seed_part (some seed) = seed ∷ []

abbrev authenticator_parts : List Authenticator → List Text
authenticator_parts [] = []
authenticator_parts (a ∷ rest) = str a.pk ∷ a.type ∷ (seed_part a.seed ++ authenticator_parts rest)

module _ (env : Env) where
  open env use {trust_stage_enabled, trust_cookie_age, sign_object, unsign_object, salted_hmac}

  pub create_config_fingerprint : User → Text
  create_config_fingerprint user =
      salted_hmac
        (join b'|' (str user.pk ∷ user.password ∷ authenticator_parts user.authenticators))

  abbrev pub is_current : ℕ → IssuedTrust → Bool
  is_current now t = ltb now ((t.at + trust_cookie_age) * 1000)

  abbrev current : ℕ → Option (List IssuedTrust) → List IssuedTrust
  current now none = []
  current now (some trusts) = keep (is_current now) trusts

  -- `None` and an empty cookie hold no trust, and neither does one with a bad signature.
  pub decode_trust_cookie : ℕ → Option Text → List IssuedTrust
  decode_trust_cookie now none = []
  decode_trust_cookie now (some []) = []
  decode_trust_cookie now (some (c ∷ value)) = current now (unsign_object (c ∷ value))

  pub encode_trust_cookie : List IssuedTrust → Text
  encode_trust_cookie trusts = sign_object trusts

  -- The value of the cookie that the response sets.
  pub trust_browser : ℕ → Option Text → User → Text
  unfolding encode_trust_cookie
  trust_browser now cookie user = encode_trust_cookie (
      decode_trust_cookie now cookie
      ++ record { fingerprint = create_config_fingerprint user; at = now / 1000 } ∷ [])

  unfoldable pub is_trusted_browser : ℕ → Option Text → User → Bool
  is_trusted_browser now cookie user =
      if trust_stage_enabled
      then any (λ t. t.fingerprint == create_config_fingerprint user)
          (decode_trust_cookie now cookie)
      else false
