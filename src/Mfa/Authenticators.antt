-- ===== src/Mfa/Authenticators.antt =====
-- allauth/mfa/base/internal/flows.py and `validate_can_add_authenticator` of
-- allauth/mfa/internal/flows/add.py: the table of authenticators.
pub mod Cleanup
mod Tests
use django_allauth.Prelude.{
  ℕ, Bool, true, false, not, ◌&&◌, ◌||◌, List, [], ◌∷◌, keep, any, if◌then◌else◌, ◌==◌, nat_eq,
}

-- `Authenticator.Type`
pub data AuthenticatorType : Type 0 where
  recovery_codes totp webauthn : AuthenticatorType

abbrev pub is_recovery_codes : AuthenticatorType → Bool
is_recovery_codes recovery_codes = true
is_recovery_codes totp = false
is_recovery_codes webauthn = false

pub record Authenticator : Type 0 where
  pub pk : ℕ
  pub user : ℕ
  pub type : AuthenticatorType

abbrev pub is_of : ℕ → Authenticator → Bool
is_of user a = a.user == user

-- One of the user's that is more than recovery codes.
abbrev pub is_factor_of : ℕ → Authenticator → Bool
is_factor_of user a = a.user == user && not (is_recovery_codes a.type)

-- `delete_dangling_recovery_codes`
pub delete_dangling_recovery_codes : ℕ → List Authenticator → List Authenticator
delete_dangling_recovery_codes user rows =
    if any (is_factor_of user) rows then rows else keep (λ a. not (is_of user a)) rows

-- `delete_and_cleanup`
pub delete_and_cleanup : Authenticator → List Authenticator → List Authenticator
delete_and_cleanup authenticator rows =
    delete_dangling_recovery_codes authenticator.user
      (keep (λ a. not (a.pk == authenticator.pk)) rows)
