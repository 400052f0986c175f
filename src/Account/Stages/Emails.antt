-- ===== src/Account/Stages/Emails.antt =====
-- allauth/account/internal/flows/email_verification.py and `EmailVerificationStage` of
-- allauth/account/stages.py: which address a login verifies, and what is sent.
use django_allauth.Prelude.{
  ℕ, Bool, true, false, not, ◌&&◌, Option, none, some, any, if◌then◌else◌, ◌==◌, nat_eq, Text,
  text_eq,
}
use django_allauth.Account.UserCode.{lower}
use django_allauth.Account.Login.{
  mandatory, optional, none_, EmailVerificationMethod, verify_email, Login, Session,
}
use django_allauth.Account.CodeFlow.{initial_state}
use django_allauth.Account.Stages.{to_stage, Reply, reply, raised}
use django_allauth.Account.Stages.Env.{
  EmailAddress, Env, present, or_else, first, get_for_user, has_verified_email,
}

module _ (env : Env) where
  -- The row with the highest `(primary, verified)`.
  abbrev pub of_user : (EmailAddress → Bool) → ℕ → Option EmailAddress
  of_user p user = first (λ a. a.user == user && p a) env.email_addresses

  -- `sync_email_address`: the new row, or nothing where there is one already.
  pub sync_email_address : ℕ → Text → Option EmailAddress
  sync_email_address user email =
      if any (λ a. a.user == user && a.email == email) env.email_addresses
      then none
      else some (record { user = user; email = email; verified = false; primary = false })

  abbrev pub sync_present : ℕ → Option Text → Option EmailAddress
  sync_present user none = none
  sync_present user (some email) = sync_email_address user email

  -- `sync_user_email_address`
  pub sync_user_email_address : ℕ → Option EmailAddress
  sync_user_email_address user = sync_present user (present (some (lower (env.user_email user))))

  pub get_address_for_user : ℕ → Option EmailAddress
  get_address_for_user user = or_else (of_user (λ a. a.primary && a.verified) user) (
      or_else (of_user (λ a. a.primary) user) (
        or_else (of_user (λ a. a.verified) user)
          (or_else (of_user (λ a. true) user) (sync_user_email_address user))))

  abbrev pub address_by : ℕ → Option Text → Option EmailAddress
  address_by user none = get_address_for_user user
  address_by user (some email) =
      or_else (get_for_user env user email) (sync_email_address user email)

  -- `get_address_for_login`
  pub get_address_for_login : ℕ → Login → Option EmailAddress
  get_address_for_login user login = address_by user (present login.email)

  -- `send_verification_email_to_address`, as far as the session shows it: by code, a process is
  -- initiated, unless a rate limit ends the request; by link, nothing is left in the session.
  pub send_verification_email_to_address : Option ℕ → Text → Session → Option Session
  send_verification_email_to_address user email session =
      let st = initial_state env.now user (present (some email)) none in
      if env.email_verification_by_code_enabled
      then (if env.confirm_email_allowed
          then some (record session {
            email_verification_code = some (record st { code = some env.email_code });
          })
          else none)
      else some session

  abbrev pub send_to : ℕ → Option EmailAddress → Session → Option Session
  send_to user none session = some session
  send_to user (some a) session =
      if a.verified
      then some session
      else send_verification_email_to_address (some user) a.email session

  abbrev pub send_fake : Option Text → Session → Option Session
  send_fake none session = some session
  send_fake (some email) session = send_verification_email_to_address none email session

  abbrev pub send_at : Option ℕ → Login → Session → Option Session
  send_at none login session = send_fake (present login.email) session
  send_at (some user) login session = send_to user (get_address_for_login user login) session

  -- `send_verification_email_at_login`
  pub send_verification_email_at_login : Login → Session → Option Session
  send_verification_email_at_login login session = send_at login.user login session

  -- Goes on with the session, unless an exception was raised.
  abbrev pub when_sent : Reply → Login → Session → Option Session → Reply × Login × Session
  when_sent r login session none = (raised, login, session)
  when_sent r login session (some session') = (r, login, session')

  abbrev pub email_handle : EmailVerificationMethod → Login → Session → Reply × Login × Session
  email_handle none_ login session = (reply none true, login, session)
  email_handle optional login session =
      if not (has_verified_email env login.user login.email) && login.signup
      then when_sent (reply none true) login session
          (send_verification_email_at_login login session)
      else (reply none true, login, session)
  email_handle mandatory login session =
      if has_verified_email env login.user login.email
      then (reply none true, login, session)
      else when_sent (reply (some (to_stage verify_email)) true) login session
          (send_verification_email_at_login login session)

  -- `EmailVerificationStage.handle`
  unfoldable pub handle_email_verification : Login → Session → Reply × Login × Session
  handle_email_verification login session = email_handle login.email_verification login session
