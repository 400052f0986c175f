-- ===== src/Mfa/Authenticators/Tests.antt =====
-- A user with an authenticator app and recovery codes, and another one.
use django_allauth.Prelude.{◌≡◌, not, ◌&&◌, List, [], ◌∷◌, keep, any, ◌==◌, nat_eq}
use django_allauth.Mfa.Authenticators.{
  Authenticator, recovery_codes, totp, webauthn, is_of, is_factor_of, delete_and_cleanup,
}
use django_allauth.Mfa.Authenticators.Cleanup.{delete_and_cleanup_lem}

abbrev app : Authenticator
app = record { pk = 1; user = 1; type = totp }

abbrev rows : List Authenticator
rows =
    app
    ∷ (record { pk = 2; user = 1; type = recovery_codes }
        ∷ (record { pk = 3; user = 2; type = webauthn } ∷ []))

delete_and_cleanup_lem_example :
    let rows' = delete_and_cleanup app rows in
    (any (is_of 1) rows' ≡ any (is_factor_of 1) rows')
    × (keep (λ a. not (is_of 1 a)) rows' ≡ keep (λ a. not (is_of 1 a) && not (a.pk == 1)) rows)
delete_and_cleanup_lem_example = delete_and_cleanup_lem app rows
