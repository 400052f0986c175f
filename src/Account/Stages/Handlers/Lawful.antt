-- ===== src/Account/Stages/Handlers/Lawful.antt =====
-- The stages leave a login that they let through as it is, and have keys of their own.
use django_allauth.Prelude.{
  ◌≡◌, Bool, true, false, ◌||◌, List, [], ◌∷◌, ◌++◌, arith, All, All-append, if◌then◌else◌,
}
use django_allauth.Account.Login.{
  key_eq, login_by_code, verify_phone, verify_email, mfa_authenticate, mfa_trust,
  mfa_signup_webauthn,
}
use django_allauth.Account.Stages.{Stage}
use django_allauth.Account.Stages.Past.{IsTransparent, IsDistinct}
use django_allauth.Account.Stages.Env.{Env}
use django_allauth.Account.Stages.Emails.{handle_email_verification}
use django_allauth.Account.Stages.Handlers.{
  handle_login_by_code, handle_phone_verification, handle_authenticate, handle_trust,
  handle_passkey_signup, mfa_stages, trust_stages, passkey_stages, get_login_stages,
}
use django_allauth.Account.Stages.Handlers.Through.{
  authenticate_through, trust_through, passkey_through, email_through, phone_through, code_through,
}

pub All-if :
    (P : Stage → Type 0) (b : Bool) (xs : List Stage) → All P xs → All P (if b then xs else [])
All-if P true xs h = h
All-if P false xs h = tt

pub of_All-if :
    (P : Stage → Type 0) (b : Bool) (xs : List Stage)
    → b ≡ true
    → All P (if b then xs else [])
    → All P xs
of_All-if P true xs e h = h
of_All-if P false xs e h = cc

module _ (env : Env) where
  phone-IsTransparent :
      IsTransparent (record { key = verify_phone; handle = handle_phone_verification env })
  unfolding handle_phone_verification
  phone-IsTransparent login session h = phone_through env login session env.phone_field login.user h

  email-IsTransparent :
      IsTransparent (record { key = verify_email; handle = handle_email_verification env })
  unfolding handle_email_verification
  email-IsTransparent login session h =
      (email_through env login session login.email_verification h).0

  mfa_IsTransparent : All IsTransparent (mfa_stages env)
  mfa_IsTransparent =
      All-if IsTransparent env.mfa_enabled
        (record { key = mfa_authenticate; handle = handle_authenticate env }
          ∷ (trust_stages env ++ passkey_stages env))
        (
          λ login session h. (authenticate_through env login session h).0,
          All-append IsTransparent (trust_stages env) (passkey_stages env)
              (All-if IsTransparent (env.mfa_trust_enabled || env.login_by_code_trust_enabled)
                (record { key = mfa_trust; handle = handle_trust env } ∷ [])
                (λ login session h. trust_through env login session h, tt))
              (All-if IsTransparent env.passkey_signup_enabled
                (record { key = mfa_signup_webauthn; handle = handle_passkey_signup env } ∷ [])
                (λ login session h. passkey_through env login session h, tt)),
        )

  pub get_login_stages-IsTransparent : All IsTransparent (get_login_stages env)
  unfolding get_login_stages
  get_login_stages-IsTransparent = (
    λ login session h. (code_through env login session h).0,
    (phone-IsTransparent, (email-IsTransparent, mfa_IsTransparent)),
  )

  IsDistinct-by :
      (mfa trusting passkeys : Bool)
      → IsDistinct (
          record { key = login_by_code; handle = handle_login_by_code env }
          ∷ (record { key = verify_phone; handle = handle_phone_verification env }
              ∷ (record { key = verify_email; handle = handle_email_verification env }
                  ∷ (if mfa
                      then record { key = mfa_authenticate; handle = handle_authenticate env }
                        ∷ ((if trusting
                              then record { key = mfa_trust; handle = handle_trust env } ∷ []
                              else [])
                            ++ (if passkeys
                                then record {
                                  key = mfa_signup_webauthn;
                                  handle = handle_passkey_signup env;
                                }
                                  ∷ []
                                else []))
                      else []))))
  IsDistinct-by true true true = ground arith
  IsDistinct-by true true false = ground arith
  IsDistinct-by true false true = ground arith
  IsDistinct-by true false false = ground arith
  IsDistinct-by false trusting passkeys = ground arith

  pub get_login_stages-IsDistinct : IsDistinct (get_login_stages env)
  unfolding get_login_stages
  get_login_stages-IsDistinct =
      IsDistinct-by env.mfa_enabled (env.mfa_trust_enabled || env.login_by_code_trust_enabled)
        env.passkey_signup_enabled
