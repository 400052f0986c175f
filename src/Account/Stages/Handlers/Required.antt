-- ===== src/Account/Stages/Handlers/Required.antt =====
-- What a login must be past before its user is logged in.
use django_allauth.Prelude.{
  ◌≢◌, subst, ℕ, ◌≡◌, refl, ◌∙◌, sym, ap, ◌⊎◌, inl, inr, Bool, true, false, ◌&&◌, Option, none,
  some, List, ◌∷◌, ◌++◌, arith, All, Text,
}
use django_allauth.Account.Login.{
  mandatory, key_eq, login_by_code, verify_phone, verify_email, mfa_authenticate, Login, Session,
}
use django_allauth.Account.Stages.{
  reply, Stage, is_handled, Progress, passed, answered, failed, handle_stages, logged_in,
  resumed_by, resume_login, login_of,
}
use django_allauth.Account.Stages.Past.{IsPast, passed-All}
use django_allauth.Account.Stages.Env.{
  Env, is_login_by_code_required, is_trusted, is_mfa_enabled, did_use_passwordless_login,
  has_verified_email,
}
use django_allauth.Account.Stages.Emails.{handle_email_verification}
use django_allauth.Account.Stages.Handlers.{
  is_login_by_code_trusted, handle_phone_verification, phone_handle, trusted_user, user_needs,
  handle_authenticate, should_handle, trust_stages, passkey_stages, get_login_stages,
}
use django_allauth.Account.Stages.Handlers.Through.{
  authenticate_through, email_through, phone_of_user-through, code_through,
}
use django_allauth.Account.Stages.Handlers.Lawful.{
  of_All-if, get_login_stages-IsTransparent, get_login_stages-IsDistinct,
}

module _ (env : Env) where
  needed :
      (user : ℕ)
      → is_mfa_enabled env user ≡ true
      → did_use_passwordless_login env ≡ false
      → is_trusted env user ≡ false
      → user_needs env (some user) ≢ false
  needed user a b c = λ h. ground arith

-- A login that logs a user in is of that user, and past all stages.
abbrev Ended : ℕ → Login → List Stage → Progress × Login × Session → Type 0
Ended user login stages r =
    (resumed_by r).0 ≡ logged_in user → (r.0 ≡ passed) × (r.1.user ≡ some user)

ended_lem :
    (user : ℕ) (login : Login) (stages : List Stage) (r : Progress × Login × Session)
    → Ended user login stages r
ended_lem user login stages (answered response, l, s) h = cc
ended_lem user login stages (failed, l, s) h = cc
ended_lem user login stages (passed, l, s) h = (refl, of_user l.user h)
  where
    of_user : (o : Option ℕ) → login_of o ≡ logged_in user → o ≡ some user
    of_user none k = cc
    of_user (some u) k = cc

module _ (env : Env) (login : Login) (session : Session) (user : ℕ)
    (done : (resume_login (get_login_stages env) login session).0 ≡ logged_in user) where
  logged_in-IsPast : All (IsPast login) (get_login_stages env) × (login.user ≡ some user)
  unfolding resume_login
  logged_in-IsPast =
      let stages = get_login_stages env in
      let (over, of_user) = ended_lem user login stages (handle_stages stages login session) done in
      let p =
        passed-All stages login session (get_login_stages-IsTransparent env)
          (get_login_stages-IsDistinct env) over in
      (p.past, sym p.same_user ∙ of_user)

  -- Where email verification is mandatory for a login that logs a user in, it is a login of this user
  -- and its email stage was handled before, or the user has a verified address: the one of the login,
  -- if the login has one.
  pub verified_email_required :
      login.email_verification ≡ mandatory
      → (login.user ≡ some user)
        × ((is_handled verify_email login ≡ true)
            ⊎ (has_verified_email env (some user) login.email ≡ true))
  unfolding get_login_stages handle_email_verification
  verified_email_required must =
      let (past, of_user) = logged_in-IsPast in
      (
        of_user,
        elim past.1.1.0 [
          | inl handled ↦ inl handled
          | inr (seen, s, same, through) ↦
              elim (email_through env seen s seen.email_verification through).1 [
                | inl free ↦ absurd (free (same.email_verification ∙ must))
                | inr verified ↦ inr (
                    subst (λ (u : Option ℕ). has_verified_email env u login.email ≡ true)
                      (same.user ∙ of_user)
                      (subst (λ (e : Option Text). has_verified_email env seen.user e ≡ true)
                        same.email verified))
              ]
        ],
      )

  -- Where login codes are required, and the browser is not trusted in place of one, a login that logs
  -- a user in has had its stage for the code handled before.
  pub login_code_required :
      is_login_by_code_required env ≡ true
      → is_login_by_code_trusted env login ≡ false
      → is_handled login_by_code login ≡ true
  unfolding get_login_stages is_login_by_code_trusted
  login_code_required must untrusted =
      let (past, of_user) = logged_in-IsPast in
      elim past.0 [
        | inl handled ↦ handled
        | inr (seen, s, same, through) ↦ elim (code_through env seen s through).1 [
          | inl free ↦ cc
          | inr trusted ↦
              let e : is_login_by_code_trusted env seen ≡ is_login_by_code_trusted env login =
                ap
                  (λ (u : Option ℕ).
                    env.login_by_code_trust_enabled && (env.mfa_enabled && trusted_user env u))
                  same.user in
              cc
        ]
      ]

  -- Where a phone number is required and is to be verified, a login that logs a user in has had its
  -- phone stage handled before, or the user has a verified number.
  pub verified_phone_required :
      env.phone_field ≡ some true
      → env.phone_verification_enabled ≡ true
      → (is_handled verify_phone login ≡ true)
        ⊎ ((number : Text) × (env.phones user ≡ some (number, true)))
  unfolding get_login_stages handle_phone_verification
  verified_phone_required must enabled =
      let (past, of_user) = logged_in-IsPast in
      elim past.1.0 [
        | inl handled ↦ inl handled
        | inr (seen, s, same, through) ↦
            let h : (phone_handle env (some true) (some user) seen s).0 ≡ reply none true =
              subst
                (λ (f : Option Bool). (phone_handle env f (some user) seen s).0 ≡ reply none true)
                must
                (subst
                  (λ (u : Option ℕ).
                    (phone_handle env env.phone_field u seen s).0 ≡ reply none true)
                  (same.user ∙ of_user) through) in
            elim (phone_of_user-through env seen s (env.phones user) true h).1 [
              | inl not_required ↦ cc
              | inr (inl disabled) ↦ cc
              | inr (inr verified) ↦ inr verified
            ]
      ]

  -- Where the second factors are enabled, a user who has an authenticator app or a security key is
  -- logged in only by a login that has had the stage for the second factor handled before, unless the
  -- session was authenticated by a passkey or the browser is trusted for the user.
  pub second_factor_required :
      env.mfa_enabled ≡ true
      → is_mfa_enabled env user ≡ true
      → did_use_passwordless_login env ≡ false
      → is_trusted env user ≡ false
      → is_handled mfa_authenticate login ≡ true
  unfolding get_login_stages should_handle
  second_factor_required on has_factor no_passkey untrusted =
      let (past, of_user) = logged_in-IsPast in
      elim (of_All-if (IsPast login) env.mfa_enabled
        (record { key = mfa_authenticate; handle = handle_authenticate env }
          ∷ (trust_stages env ++ passkey_stages env))
        on past.1.1.1).0 [
          | inl handled ↦ handled
          | inr (seen, s, same, through) ↦
              let free : user_needs env (some user) ≡ false =
                subst (λ (u : Option ℕ). user_needs env u ≡ false) (same.user ∙ of_user)
                  (authenticate_through env seen s through).1 in
              absurd (needed env user has_factor no_passkey untrusted free)
        ]
