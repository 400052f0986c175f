-- ===== src/Account/Reauthentication.antt =====
-- allauth/account/internal/flows/reauthentication.py, with the log of authentications that
-- `record_authentication` of allauth/account/internal/flows/login.py keeps in the session.
pub mod Recency
mod Tests
use django_allauth.Prelude.{
  ℕ, ◌+◌, Bool, true, false, Option, none, some, List, [], ◌∷◌, ◌++◌, keep, any, ltb, if◌then◌else◌,
  ◌==◌, Text, text_eq, codes,
}
use django_allauth.Mfa.Trust.{User}
use django_allauth.Account.Stages.Env.{AuthenticationRecord}

-- `request.user`, if authenticated: whether a password can be used, and the authenticators.
pub record Account : Type 0 where
  pub has_usable_password : Bool
  pub mfa : User

pub record Settings : Type 0 where
  pub mfa_enabled : Bool
  pub reauthentication_timeout : ℕ

-- The entries of `get_reauthentication_flows`.
pub data Flow : Type 0 where
  reauthenticate : Flow
  mfa_reauthenticate : List Text → Flow

-- `Authenticator.Type`
abbrev pub types : List Text
types = codes "recovery_codes" ∷ (codes "totp" ∷ (codes "webauthn" ∷ []))

-- `record_authentication`: the new entry is the last.
pub record_authentication :
    ℕ → Text → Option Text → Bool → List AuthenticationRecord → List AuthenticationRecord
record_authentication now method type passwordless records =
    records ++ record { method = method; at = now; type = type; passwordless = passwordless } ∷ []

abbrev types_of : User → List Text
types_of user = keep (λ t. any (λ a. a.type == t) user.authenticators) types

abbrev flow_of_types : List Text → List Flow
flow_of_types [] = []
flow_of_types (t ∷ ts) = mfa_reauthenticate (t ∷ ts) ∷ []

unfoldable pub get_reauthentication_flows : Settings → Account → List Flow
get_reauthentication_flows settings account =
    (if account.has_usable_password then reauthenticate ∷ [] else [])
    ++ (if settings.mfa_enabled then flow_of_types (types_of account.mfa) else [])

-- `methods[-1]["at"]`
abbrev authenticated_at : List AuthenticationRecord → Option ℕ
authenticated_at [] = none
authenticated_at (r ∷ []) = some r.at
authenticated_at (r ∷ (s ∷ records)) = authenticated_at (s ∷ records)

module _ (settings : Settings) where
  abbrev is_recent : ℕ → Option ℕ → Bool
  is_recent now none = false
  is_recent now (some at) = ltb now (at + settings.reauthentication_timeout)

  abbrev recent_unless : List Flow → ℕ → List AuthenticationRecord → Bool
  recent_unless [] now records = true
  recent_unless (flow ∷ flows) now records = is_recent now (authenticated_at records)

  abbrev recent_for : Option Account → ℕ → List AuthenticationRecord → Bool
  recent_for none now records = false
  recent_for (some account) now records =
      recent_unless (get_reauthentication_flows settings account) now records

  -- `did_recently_authenticate`; `raise_if_reauthentication_required` raises where it is false.
  pub did_recently_authenticate : Option Account → ℕ → List AuthenticationRecord → Bool
  did_recently_authenticate account now records = recent_for account now records
