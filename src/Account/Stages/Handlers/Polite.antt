-- ===== src/Account/Stages/Handlers/Polite.antt =====
-- What the stages answer when they hold a login up.
use django_allauth.Prelude.{
  ℕ, refl, Bool, true, false, not, ◌&&◌, ◌||◌, Option, none, some, [], ◌∷◌, ◌++◌, is_some,
  Bool-cases, inl, inr, All, All-append, if◌then◌else◌, Text,
}
use django_allauth.Account.Login.{
  mandatory, optional, none_, EmailVerificationMethod, key_eq, login_by_code, verify_phone,
  verify_email, mfa_authenticate, mfa_trust, mfa_signup_webauthn, Login, Session, stage_state,
  put_stage,
}
use django_allauth.Account.Stages.{Response, to_stage, Reply, reply, Stage}
use django_allauth.Account.Stages.Held.{IsSameLogin, Fits, IsPolite}
use django_allauth.Account.Stages.Env.{Env, is_login_by_code_required, has_verified_email, present}
use django_allauth.Account.Stages.Emails.{
  send_verification_email_at_login, email_handle, handle_email_verification, when_sent,
}
use django_allauth.Account.Stages.Handlers.{
  handle_login_by_code, is_login_by_code_trusted, code_requested, contacted, get_primary_email,
  should_handle, phone_number, initiated, initiate_login_code, did_initiate,
  handle_phone_verification, phone_handle, phone_of_user, phone_of_login, initiate_phone,
  handle_authenticate, handle_trust, handle_passkey_signup, trust_stages, passkey_stages,
  get_login_stages,
}
use django_allauth.Account.Stages.Handlers.Lawful.{All-if}

Fits-if :
    (stage : Stage) (login : Login) (b : Bool) (x y : Reply × Login × Session)
    → Fits stage login x
    → Fits stage login y
    → Fits stage login (if b then x else y)
Fits-if stage login true x y hx hy = hx
Fits-if stage login false x y hx hy = hy

Fits-gate :
    (stage : Stage) (login : Login) (session : Session) (b : Bool) (y : Reply × Login × Session)
    → Fits stage login y
    → Fits stage login (if b then (reply none true, login, session) else y)
Fits-gate stage login session true y h = tt
Fits-gate stage login session false y h = h

abbrev same : (login : Login) → IsSameLogin login login
same login = record { user = refl; initiated_at = refl; current = refl }

module _ (env : Env) where
  abbrev by_code : Stage
  by_code = record { key = login_by_code; handle = handle_login_by_code env }

  abbrev phone_stage : Stage
  phone_stage = record { key = verify_phone; handle = handle_phone_verification env }

  abbrev email_stage : Stage
  email_stage = record { key = verify_email; handle = handle_email_verification env }

  code_requested-Fits :
      (login other : Login) (session : Session)
      → IsSameLogin other login
      → Fits by_code login (code_requested env other session)
  unfolding put_stage
  code_requested-Fits login other session s =
      (refl, record { user = s.user; initiated_at = s.initiated_at; current = s.current })

  initiated-Fits :
      (email phone : Option Text) (login : Login) (session : Session)
      → Fits by_code login (initiated env email phone login session)
  unfolding initiate_login_code put_stage
  initiated-Fits none none login session = refl
  initiated-Fits (some e) phone login session =
      let r = initiate_login_code env (some e) phone login session in
      code_requested-Fits login r.0 r.1
        (record { user = refl; initiated_at = refl; current = refl })
  initiated-Fits none (some p) login session =
      let r = initiate_login_code env none (some p) login session in
      code_requested-Fits login r.0 r.1
        (record { user = refl; initiated_at = refl; current = refl })

  contacted-Fits :
      (email : Option Text) (user : Option ℕ) (login : Login) (session : Session)
      → Fits by_code login (contacted env email user login session)
  contacted-Fits (some e) user login session = initiated-Fits (some e) none login session
  contacted-Fits none none login session = tt
  contacted-Fits none (some user) login session =
      let email = get_primary_email env user in
      initiated-Fits email
        (if is_some email || not (is_some env.phone_field)
          then none
          else phone_number env (env.phones user))
        login session

  code-IsPolite : IsPolite by_code
  unfolding handle_login_by_code
  code-IsPolite login session =
      let did = did_initiate env (stage_state login_by_code login) in
      let asked = code_requested env login session in
      let sent = contacted env (present login.email) login.user login session in
      Fits-gate by_code login session (not did && not (is_login_by_code_required env))
        (if is_login_by_code_trusted env login
          then (reply none true, login, session)
          else if did
          then asked
          else sent)
        (Fits-gate by_code login session (is_login_by_code_trusted env login)
          (if did then asked else sent)
          (Fits-if by_code login did asked sent
            (code_requested-Fits login login session (same login))
            (contacted-Fits (present login.email) login.user login session)))

  initiate_phone-Fits :
      (phone : Text) (login : Login) (session : Session)
      → Fits phone_stage login (initiate_phone env phone login session)
  unfolding initiate_phone put_stage
  initiate_phone-Fits phone login session =
      Fits-if phone_stage login env.verify_phone_allowed _ _
        (refl, record { user = refl; initiated_at = refl; current = refl }) tt

  phone_of_user-Fits :
      (required : Bool) (phone : Option (Text × Bool)) (login : Login) (session : Session)
      → Fits phone_stage login (phone_of_user env required phone login session)
  phone_of_user-Fits required none login session = tt
  phone_of_user-Fits required (some (phone, verified)) login session =
      Fits-gate phone_stage login session (verified || not env.phone_verification_enabled)
        (initiate_phone env phone login session) (initiate_phone-Fits phone login session)

  phone_of_login-Fits :
      (phone : Option Text) (login : Login) (session : Session)
      → Fits phone_stage login (phone_of_login env phone login session)
  phone_of_login-Fits none login session = tt
  phone_of_login-Fits (some phone) login session = initiate_phone-Fits phone login session

  phone_handle-Fits :
      (field : Option Bool) (user : Option ℕ) (login : Login) (session : Session)
      → Fits phone_stage login (phone_handle env field user login session)
  phone_handle-Fits none user login session = tt
  phone_handle-Fits (some required) none login session =
      phone_of_login-Fits (present login.phone) login session
  phone_handle-Fits (some required) (some user) login session =
      phone_of_user-Fits required (env.phones user) login session

  phone-IsPolite : IsPolite phone_stage
  unfolding handle_phone_verification
  phone-IsPolite login session = phone_handle-Fits env.phone_field login.user login session

  sent-Fits :
      (response : Option Response) (login : Login) (session : Session) (sent : Option Session)
      → Fits email_stage login (reply response true, login, session)
      → Fits email_stage login (when_sent env (reply response true) login session sent)
  sent-Fits none login session none h = tt
  sent-Fits (some r) login session none h = tt
  sent-Fits none login session (some s) h = tt
  sent-Fits (some r) login session (some s) h = h

  email_handle-Fits :
      (m : EmailVerificationMethod) (login : Login) (session : Session)
      → Fits email_stage login (email_handle env m login session)
  email_handle-Fits none_ login session = tt
  email_handle-Fits optional login session =
      let sent = send_verification_email_at_login env login session in
      Fits-if email_stage login
        (not (has_verified_email env login.user login.email) && login.signup)
        (when_sent env (reply none true) login session sent) (reply none true, login, session)
        (sent-Fits none login session sent tt) tt
  email_handle-Fits mandatory login session =
      let sent = send_verification_email_at_login env login session in
      Fits-gate email_stage login session (has_verified_email env login.user login.email)
        (when_sent env (reply (some (to_stage verify_email)) true) login session sent)
        (sent-Fits (some (to_stage verify_email)) login session sent (refl, same login))

  email-IsPolite : IsPolite email_stage
  unfolding handle_email_verification
  email-IsPolite login session = email_handle-Fits login.email_verification login session

  authenticate-IsPolite :
      IsPolite (record { key = mfa_authenticate; handle = handle_authenticate env })
  unfolding handle_authenticate put_stage
  authenticate-IsPolite login session = elim (Bool-cases (should_handle env login)) [
    | inl e ↦ rw e (refl, record { user = refl; initiated_at = refl; current = refl })
    | inr e ↦ rw e tt
  ]

  trust-IsPolite : IsPolite (record { key = mfa_trust; handle = handle_trust env })
  unfolding handle_trust
  trust-IsPolite login session =
      Fits-if (record { key = mfa_trust; handle = handle_trust env }) login
        (((env.mfa_trust_enabled
              && (stage_state mfa_authenticate login).data_.authentication_required)
            || (env.login_by_code_trust_enabled
                && (stage_state login_by_code login).data_.login_by_code_required))
          && not env.is_app_client)
        (reply (some (to_stage mfa_trust)) true, login, session) (reply none true, login, session)
        (refl, same login) tt

  passkey-IsPolite :
      IsPolite (record { key = mfa_signup_webauthn; handle = handle_passkey_signup env })
  unfolding handle_passkey_signup
  passkey-IsPolite login session =
      Fits-if (record { key = mfa_signup_webauthn; handle = handle_passkey_signup env }) login
        login.passkey_signup (reply (some (to_stage mfa_signup_webauthn)) true, login, session)
        (reply none true, login, session) (refl, same login) tt

  pub get_login_stages-IsPolite : All IsPolite (get_login_stages env)
  unfolding get_login_stages
  get_login_stages-IsPolite = (
    code-IsPolite,
    (
      phone-IsPolite,
      (
        email-IsPolite,
        All-if IsPolite env.mfa_enabled
            (record { key = mfa_authenticate; handle = handle_authenticate env }
              ∷ (trust_stages env ++ passkey_stages env))
            (
              authenticate-IsPolite,
              All-append IsPolite (trust_stages env) (passkey_stages env)
                  (All-if IsPolite (env.mfa_trust_enabled || env.login_by_code_trust_enabled)
                    (record { key = mfa_trust; handle = handle_trust env } ∷ [])
                    (trust-IsPolite, tt))
                  (All-if IsPolite env.passkey_signup_enabled
                    (record { key = mfa_signup_webauthn; handle = handle_passkey_signup env } ∷ [])
                    (passkey-IsPolite, tt)),
            ),
      ),
    ),
  )
