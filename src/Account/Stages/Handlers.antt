-- ===== src/Account/Stages/Handlers.antt =====
-- allauth/account/stages.py, allauth/mfa/stages.py, allauth/mfa/webauthn/stages.py and
-- `get_login_stages` of allauth/account/adapter.py: the stages, with the processes that they initiate.
pub mod Through
pub mod Lawful
pub mod Required
pub mod Polite
pub mod Resumable
mod Tests
use django_allauth.Prelude.{
  ℕ, Bool, true, false, not, ◌&&◌, ◌||◌, Option, none, some, List, [], ◌∷◌, ◌++◌, if◌then◌else◌,
  nat_eq, Text, text_eq, is_some,
}
use django_allauth.Account.UserCode.{lower}
use django_allauth.Account.Login.{
  StageKey, login_by_code, verify_phone, verify_email, mfa_authenticate, mfa_trust,
  mfa_signup_webauthn, CodeState, StageState, Login, Session, stage_state, put_stage, stash_login,
}
use django_allauth.Account.CodeFlow.{initial_state}
use django_allauth.Account.Stages.{to_stage, to_login, Reply, reply, raised, Stage}
use django_allauth.Account.Stages.Env.{
  EmailAddress, Env, present, is_login_by_code_required, is_trusted, is_mfa_enabled,
  did_use_passwordless_login,
}
use django_allauth.Account.Stages.Emails.{handle_email_verification, of_user}

module _ (env : Env) where
  abbrev pub put_code_state : StageKey → CodeState → Login → Login
  put_code_state key st login =
      let s = stage_state key login in
      put_stage key (record s { data_ = record (s.data_) { code_state = some st } }) login

  abbrev pub trusted_user : Option ℕ → Bool
  trusted_user none = false
  trusted_user (some user) = is_trusted env user

  -- `LoginByCodeStage._is_trusted`
  pub is_login_by_code_trusted : Login → Bool
  is_login_by_code_trusted login =
      env.login_by_code_trust_enabled && (env.mfa_enabled && trusted_user login.user)

  -- `bool(self.state)`
  abbrev pub did_initiate : StageState → Bool
  did_initiate s =
      is_some s.data_.code_state
      || (s.data_.login_by_code_required || s.data_.authentication_required)

  -- `EmailAddress.objects.get_primary_email`
  abbrev pub primary_or : ℕ → Option EmailAddress → Option Text
  primary_or user none = present (some (lower (env.user_email user)))
  primary_or user (some a) = present (some a.email)

  pub get_primary_email : ℕ → Option Text
  get_primary_email user = primary_or user (of_user env (λ a. a.primary) user)

  abbrev pub code_for : Option ℕ → Option Text
  code_for none = none
  code_for (some user) = some env.login_code

  abbrev pub code_requested : Login → Session → Reply × Login × Session
  code_requested login session =
      let s = stage_state login_by_code login in
      let login' =
        put_stage login_by_code
          (record s { data_ = record (s.data_) { login_by_code_required = true } }) login in
      (reply (some (to_stage login_by_code)) true, login', session)

  -- `LoginCodeVerificationProcess.initiate`, for the stage.
  pub initiate_login_code : Option Text → Option Text → Login → Session → Login × Session
  initiate_login_code email phone login session =
      let st = initial_state env.now login.user email phone in
      let login' = put_code_state login_by_code (record st { code = code_for login.user }) login in
      (login', stash_login login' session)

  abbrev pub initiated : Option Text → Option Text → Login → Session → Reply × Login × Session
  initiated none none login session = (reply (some to_login) false, login, session)
  initiated (some email) phone login session =
      let (login', session') = initiate_login_code (some email) phone login session in
      code_requested login' session'
  initiated none (some phone) login session =
      let (login', session') = initiate_login_code none (some phone) login session in
      code_requested login' session'

  abbrev pub phone_number : Option (Text × Bool) → Option Text
  phone_number none = none
  phone_number (some (phone, verified)) = present (some phone)

  -- The phone is a way out only if there is no email address; no user is an `AttributeError`.
  abbrev pub contacted : Option Text → Option ℕ → Login → Session → Reply × Login × Session
  contacted (some email) user login session = initiated (some email) none login session
  contacted none none login session = (raised, login, session)
  contacted none (some user) login session =
      let email = get_primary_email user in
      initiated email
        (if is_some email || not (is_some env.phone_field)
          then none
          else phone_number (env.phones user))
        login session

  -- `LoginByCodeStage.handle`
  pub handle_login_by_code : Login → Session → Reply × Login × Session
  handle_login_by_code login session =
      let did = did_initiate (stage_state login_by_code login) in
      if not did && not (is_login_by_code_required env)
      then (reply none true, login, session)
      else if is_login_by_code_trusted login
      then (reply none true, login, session)
      else if did
      then code_requested login session
      else contacted (present login.email) login.user login session

  abbrev pub phone_code_for : Option ℕ → Text
  phone_code_for none = []
  phone_code_for (some user) = env.phone_code

  -- `update` leaves the keys alone that the initial state does not have.
  abbrev pub already : Option CodeState → Bool
  already none = false
  already (some st) = st.account_already_exists

  -- `PhoneVerificationStageProcess.initiate`: the rate limit raises.
  pub initiate_phone : Text → Login → Session → Reply × Login × Session
  initiate_phone phone login session =
      let st = initial_state env.now login.user none (some phone) in
      let login' =
        put_code_state verify_phone
          (record st {
            signup = login.signup;
            code = some (phone_code_for login.user);
            account_already_exists = already (stage_state verify_phone login).data_.code_state;
          })
          login in
      if env.verify_phone_allowed
      then (reply (some (to_stage verify_phone)) true, login', stash_login login' session)
      else (raised, login', session)

  abbrev pub phone_of_user : Bool → Option (Text × Bool) → Login → Session → Reply × Login × Session
  phone_of_user required none login session = (reply none (not required), login, session)
  phone_of_user required (some (phone, verified)) login session =
      if verified || not env.phone_verification_enabled
      then (reply none true, login, session)
      else initiate_phone phone login session

  abbrev pub phone_of_login : Option Text → Login → Session → Reply × Login × Session
  phone_of_login none login session = (reply none true, login, session)
  phone_of_login (some phone) login session = initiate_phone phone login session

  abbrev pub phone_handle : Option Bool → Option ℕ → Login → Session → Reply × Login × Session
  phone_handle none user login session = (reply none true, login, session)
  phone_handle (some required) none login session =
      phone_of_login (present login.phone) login session
  phone_handle (some required) (some user) login session =
      phone_of_user required (env.phones user) login session

  -- `PhoneVerificationStage.handle`
  pub handle_phone_verification : Login → Session → Reply × Login × Session
  handle_phone_verification login session = phone_handle env.phone_field login.user login session

  abbrev pub user_needs : Option ℕ → Bool
  user_needs none = false
  user_needs (some user) =
      is_mfa_enabled env user && (not (did_use_passwordless_login env) && not (is_trusted env user))

  -- `AuthenticateStage._should_handle`
  pub should_handle : Login → Bool
  should_handle login = user_needs login.user

  -- `AuthenticateStage.handle`
  pub handle_authenticate : Login → Session → Reply × Login × Session
  handle_authenticate login session =
      let s = stage_state mfa_authenticate login in
      let login' =
        put_stage mfa_authenticate
          (record s { data_ = record (s.data_) { authentication_required = true } }) login in
      if should_handle login
      then (reply (some (to_stage mfa_authenticate)) true, login', session)
      else (reply none true, login, session)

  -- `TrustStage.handle`; both stages that it looks for are among those of `get_login_stages`.
  pub handle_trust : Login → Session → Reply × Login × Session
  handle_trust login session =
      let by_mfa =
        env.mfa_trust_enabled
        && (stage_state mfa_authenticate login).data_.authentication_required in
      let by_code =
        env.login_by_code_trust_enabled
        && (stage_state login_by_code login).data_.login_by_code_required in
      if (by_mfa || by_code) && not env.is_app_client
      then (reply (some (to_stage mfa_trust)) true, login, session)
      else (reply none true, login, session)

  -- `PasskeySignupStage.handle`
  pub handle_passkey_signup : Login → Session → Reply × Login × Session
  handle_passkey_signup login session =
      if login.passkey_signup
      then (reply (some (to_stage mfa_signup_webauthn)) true, login, session)
      else (reply none true, login, session)

  abbrev pub trust_stages : List Stage
  trust_stages =
      if env.mfa_trust_enabled || env.login_by_code_trust_enabled
      then record { key = mfa_trust; handle = handle_trust } ∷ []
      else []

  abbrev pub passkey_stages : List Stage
  passkey_stages =
      if env.passkey_signup_enabled
      then record { key = mfa_signup_webauthn; handle = handle_passkey_signup } ∷ []
      else []

  abbrev pub mfa_stages : List Stage
  mfa_stages =
      if env.mfa_enabled
      then record { key = mfa_authenticate; handle = handle_authenticate }
        ∷ (trust_stages ++ passkey_stages)
      else []

  -- `get_login_stages` of the adapter.
  pub get_login_stages : List Stage
  get_login_stages =
      record { key = login_by_code; handle = handle_login_by_code }
      ∷ (record { key = verify_phone; handle = handle_phone_verification }
          ∷ (record { key = verify_email; handle = handle_email_verification env } ∷ mfa_stages))
