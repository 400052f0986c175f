-- ===== src/Account/Stages/Env.antt =====
-- What the stages of a login read: settings, rows of the database and the request, with the
-- questions that the stages ask of them (account/adapter.py, account/utils.py, account/managers.py,
-- mfa/adapter.py and mfa/webauthn/internal/flows.py under allauth/).
use django_allauth.Prelude.{
  ℕ, Bool, true, false, ◌&&◌, ◌||◌, Option, none, some, List, [], ◌∷◌, any, if◌then◌else◌, ◌==◌,
  nat_eq, Text, text_eq, codes,
}
use django_allauth.Mfa.Trust
use django_allauth.Mfa.Trust.{User, Authenticator, is_trusted_browser}
use django_allauth.Account.UserCode.{lower}

-- A row of the table of email addresses.
pub record EmailAddress : Type 0 where
  pub user : ℕ
  pub email : Text
  pub verified : Bool
  pub primary : Bool

-- An entry of the session's log of authentications.
pub record AuthenticationRecord : Type 0 where
  pub method : Text
  pub at : ℕ
  pub type : Option Text
  pub passwordless : Bool

-- `LOGIN_BY_CODE_REQUIRED`: a Boolean, or a set of methods.
pub data CodeRequired : Type 0 where
  always never : CodeRequired
  for_methods : List Text → CodeRequired

-- The settings, the rows of the database, and what the request holds.
pub record Env : Type 0 where
  pub login_by_code_required : CodeRequired
  pub login_by_code_trust_enabled : Bool
  pub email_verification_by_code_enabled : Bool
  -- `SIGNUP_FIELDS.get("phone")`: whether it is required
  pub phone_field : Option Bool
  pub phone_verification_enabled : Bool
  pub mfa_enabled : Bool
  pub mfa_trust_enabled : Bool
  pub passkey_signup_enabled : Bool
  pub trust : Trust.Env
  pub accounts : ℕ → User
  pub user_email : ℕ → Text
  pub email_addresses : List EmailAddress
  -- `get_phone` of the adapter, which a project provides
  pub phones : ℕ → Option (Text × Bool)
  pub now : ℕ
  pub trust_cookie : Option Text
  pub records : List AuthenticationRecord
  pub is_app_client : Bool
  -- the answers of the rate limits, and the codes that are generated
  pub confirm_email_allowed : Bool
  pub verify_phone_allowed : Bool
  pub login_code : Text
  pub phone_code : Text
  pub email_code : Text

-- Python's truth of a text.
abbrev pub present : Option Text → Option Text
present none = none
present (some []) = none
present (some (c ∷ s)) = some (c ∷ s)

abbrev pub or_else {ℓ} : {A : Type ℓ} → Option A → Option A → Option A
or_else none other = other
or_else (some a) other = some a

-- `.filter(…).first()`
abbrev pub first {ℓ} : {A : Type ℓ} → (A → Bool) → List A → Option A
first p [] = none
first p (x ∷ xs) = if p x then some x else first p xs

abbrev pub last_method : List AuthenticationRecord → Option Text
last_method [] = none
last_method (r ∷ []) = some r.method
last_method (r ∷ (r' ∷ rest)) = last_method (r' ∷ rest)

abbrev pub requires : CodeRequired → Option Text → Bool
requires always method = true
requires never method = false
requires (for_methods []) method = false
requires (for_methods (m ∷ ms)) none = true
requires (for_methods (m ∷ ms)) (some method) = any (λ x. x == method) (m ∷ ms)

abbrev pub requires_after : CodeRequired → Option Text → Bool
requires_after required none = requires required none
requires_after required (some method) =
    if method == codes "code" then false else requires required (some method)

abbrev pub is_webauthn : Option Text → Bool
is_webauthn none = false
is_webauthn (some t) = t == codes "webauthn"

module _ (env : Env) where
  -- `is_login_by_code_required` of the adapter.
  unfoldable pub is_login_by_code_required : Bool
  is_login_by_code_required = requires_after env.login_by_code_required (last_method env.records)

  abbrev pub trust_env : Trust.Env
  trust_env = record (env.trust) {
    trust_stage_enabled = env.mfa_trust_enabled || env.login_by_code_trust_enabled;
  }

  unfoldable pub is_trusted : ℕ → Bool
  is_trusted user = is_trusted_browser trust_env env.now env.trust_cookie (env.accounts user)

  -- `is_mfa_enabled(user, [TOTP, WEBAUTHN])`
  unfoldable pub is_mfa_enabled : ℕ → Bool
  is_mfa_enabled user =
      any (λ a. a.type == codes "totp" || a.type == codes "webauthn")
        (env.accounts user).authenticators

  unfoldable pub did_use_passwordless_login : Bool
  did_use_passwordless_login =
      any (λ r. r.method == codes "mfa" && is_webauthn r.type && r.passwordless) env.records

  -- `EmailAddress.objects.get_for_user`
  unfoldable pub get_for_user : ℕ → Text → Option EmailAddress
  get_for_user user email =
      first (λ a. a.user == user && a.email == lower email) env.email_addresses

  abbrev pub is_verified : Option EmailAddress → Bool
  is_verified none = false
  is_verified (some a) = a.verified

  abbrev pub verified_by : ℕ → Option Text → Bool
  verified_by user none = any (λ a. a.user == user && a.verified) env.email_addresses
  verified_by user (some email) = is_verified (get_for_user user email)

  unfoldable pub has_verified_email : Option ℕ → Option Text → Bool
  has_verified_email none email = false
  has_verified_email (some user) email = verified_by user (present email)
