-- ===== src/Account/Stages/Handlers/Tests.antt =====
-- A user with an authenticator app, who logs in.
use django_allauth.Account.Stages.Handlers.Resumable.{enter-resume_login}
use django_allauth.Account.Stages.Entering.{enter_iff}
use django_allauth.Prelude.{
  arith, ◌≡◌, ◌⊎◌, ◌↔◌, ◌≤◌, Option, refl, true, false, none, some, [], ◌∷◌, Text, codes, lookup,
  insert,
}
use django_allauth.Mfa.Trust.{is_trusted_browser}
use django_allauth.Account.Login.{
  mandatory, login_by_code, verify_phone, verify_email, mfa_authenticate, no_data, Login, Session,
  StageKey, StageState, stage_state,
}
use django_allauth.Account.Stages.{
  enter, has_key, set_current, set_handled, is_handled, resume_login, logged_in, responded,
  to_stage, handle_stages,
}
use django_allauth.Account.Stages.Env.{
  Env, always, is_login_by_code_required, is_trusted, is_mfa_enabled, did_use_passwordless_login,
  has_verified_email, get_for_user,
}
use django_allauth.Account.Stages.Emails.{handle_email_verification}
use django_allauth.Account.Stages.Handlers.{
  get_login_stages, is_login_by_code_trusted, handle_login_by_code, handle_phone_verification,
}
use django_allauth.Account.Stages.Handlers.Required.{
  verified_email_required, login_code_required, verified_phone_required, second_factor_required,
}

abbrev nobody : Session
nobody = record {
  account_login = none;
  email_verification_code = none;
  password_reset_verification = none;
  phone_verification = none;
}

abbrev env : Env
env = record {
  login_by_code_required = always;
  login_by_code_trust_enabled = false;
  email_verification_by_code_enabled = true;
  phone_field = some true;
  phone_verification_enabled = true;
  mfa_enabled = true;
  mfa_trust_enabled = false;
  passkey_signup_enabled = false;
  trust = record {
    trust_stage_enabled = false;
    trust_cookie_age = 100;
    sign_object = λ ts. [];
    unsign_object = λ s. none;
    salted_hmac = λ s. s;
  };
  accounts = λ u. record {
    pk = u;
    password = [];
    authenticators = record { pk = 1; type = codes "totp"; seed = none } ∷ [];
  };
  user_email = λ u. codes "a@b";
  email_addresses = record { user = 1; email = codes "a@b"; verified = true; primary = true } ∷ [];
  phones = λ u. some (codes "+31", true);
  now = 1000;
  trust_cookie = none;
  records = [];
  is_app_client = false;
  confirm_email_allowed = true;
  verify_phone_allowed = true;
  login_code = codes "L";
  phone_code = codes "P";
  email_code = codes "E";
}

abbrev handled_stage : StageState
handled_stage = record { handled = true; data_ = no_data }

abbrev login : Login
login = record {
  user = some 1;
  email_verification = mandatory;
  redirect_url = none;
  signup = false;
  email = some (codes "a@b");
  phone = none;
  initiated_at = 0;
  passkey_signup = false;
  current = some mfa_authenticate;
  stages = (login_by_code, handled_stage) ∷ ((mfa_authenticate, handled_stage) ∷ []);
}

completes : (resume_login (get_login_stages env) login nobody).0 ≡ logged_in 1
unfolding resume_login handle_stages get_login_stages handle_phone_verification
    handle_email_verification is_handled stage_state lookup has_verified_email get_for_user
    set_current set_handled insert
completes = refl

-- A login that has passed neither the code nor the second factor is held up.
held_up :
    (resume_login (get_login_stages env) (record login { stages = [] }) nobody).0
    ≡ responded (to_stage login_by_code)
unfolding resume_login handle_stages get_login_stages handle_phone_verification
    handle_email_verification is_handled stage_state lookup has_verified_email get_for_user
    handle_login_by_code is_login_by_code_required is_login_by_code_trusted set_current
held_up = refl

verified_email_required_example :
    (login.user ≡ some 1)
    × ((is_handled verify_email login ≡ true)
        ⊎ (has_verified_email env (some 1) (some (codes "a@b")) ≡ true))
verified_email_required_example = verified_email_required env login nobody 1 completes refl

login_code_required_example : is_handled login_by_code login ≡ true
unfolding is_login_by_code_required is_login_by_code_trusted
login_code_required_example = login_code_required env login nobody 1 completes refl refl

verified_phone_required_example :
    (is_handled verify_phone login ≡ true)
    ⊎ ((number : Text) × (env.phones 1 ≡ some (number, true)))
verified_phone_required_example = verified_phone_required env login nobody 1 completes refl refl

second_factor_required_example : is_handled mfa_authenticate login ≡ true
unfolding is_mfa_enabled did_use_passwordless_login is_trusted is_trusted_browser
second_factor_required_example =
    second_factor_required env login nobody 1 completes refl refl refl refl

enter_iff_example :
    ((enter 900000
        (get_login_stages env)
        mfa_authenticate
        5000
        (record nobody { account_login = some login })).0
      ≡ some login)
    ↔ ((◌≡◌ {A = Option Login} (some login) (some login))
        × (5000 ≤ 900000)
        × (◌≡◌ {A = Option StageKey} (some mfa_authenticate) (some mfa_authenticate))
        × (has_key mfa_authenticate (get_login_stages env) ≡ true))
enter_iff_example =
    enter_iff 900000 (get_login_stages env) mfa_authenticate 5000 login
      (record nobody { account_login = some login })

abbrev early : Login
early = record login { stages = [] }

enter-resume_login_example :
    (held : Login) × ((enter 900000
        (get_login_stages env)
        login_by_code
        5000
        (resume_login (get_login_stages env) early nobody).1).0
      ≡ some held)
    × (held.user ≡ some 1)
enter-resume_login_example =
    enter-resume_login env early nobody login_by_code 900000 5000 held_up (omega arith)
