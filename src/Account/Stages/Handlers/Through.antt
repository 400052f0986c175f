-- ===== src/Account/Stages/Handlers/Through.antt =====
-- When each stage lets a login through, and that it leaves the login as it is then.
use django_allauth.Prelude.{
  ◌≢◌, ℕ, ◌≡◌, refl, ◌⊎◌, inl, inr, Bool, true, false, not, ◌&&◌, Option, none, some, arith,
  Bool-cases, if◌then◌else◌, Text,
}
use django_allauth.Account.Login.{
  mandatory, optional, none_, EmailVerificationMethod, key_eq, login_by_code, verify_email, Login,
  Session, stage_state,
}
use django_allauth.Account.Stages.{to_stage, Reply, reply}
use django_allauth.Account.Stages.Env.{Env, is_login_by_code_required, has_verified_email, present}
use django_allauth.Account.Stages.Emails.{send_verification_email_at_login, email_handle, when_sent}
use django_allauth.Account.Stages.Handlers.{
  handle_login_by_code, is_login_by_code_trusted, initiate_phone, initiated, contacted,
  code_requested, did_initiate, phone_handle, phone_of_user, phone_of_login, initiate_login_code,
  handle_authenticate, should_handle, handle_trust, handle_passkey_signup,
}

module _ (env : Env) (login : Login) (session : Session) where
  pub authenticate_through :
      (handle_authenticate env login session).0 ≡ reply none true
      → ((handle_authenticate env login session).1 ≡ login) × (should_handle env login ≡ false)
  unfolding handle_authenticate
  authenticate_through h = ground arith

  pub trust_through :
      (handle_trust env login session).0 ≡ reply none true
      → (handle_trust env login session).1 ≡ login
  unfolding handle_trust
  trust_through h = ground arith

  pub passkey_through :
      (handle_passkey_signup env login session).0 ≡ reply none true
      → (handle_passkey_signup env login session).1 ≡ login
  unfolding handle_passkey_signup
  passkey_through h = ground arith

  optional_through :
      (sent : Option Session)
      → (when_sent env (reply none true) login session sent).0 ≡ reply none true
      → (when_sent env (reply none true) login session sent).1 ≡ login
  optional_through none h = cc
  optional_through (some s) h = refl

  mandatory_through :
      (sent : Option Session)
      → (when_sent env (reply (some (to_stage verify_email)) true) login session sent).0
        ≢ reply none true
  mandatory_through none = λ h. cc
  mandatory_through (some s) = λ h. cc

  pub email_through :
      (m : EmailVerificationMethod)
      → (email_handle env m login session).0 ≡ reply none true
      → ((email_handle env m login session).1 ≡ login)
        × ((m ≢ mandatory) ⊎ (has_verified_email env login.user login.email ≡ true))
  email_through none_ h = (refl, inl (λ e. cc))
  email_through optional h =
      elim (Bool-cases (not (has_verified_email env login.user login.email) && login.signup)) [
        | inl e ↦ rw e (
          optional_through (send_verification_email_at_login env login session) (rw e at h),
          inl (λ k. cc),
        )
        | inr e ↦ rw e (refl, inl (λ k. cc))
      ]
  email_through mandatory h = elim (Bool-cases (has_verified_email env login.user login.email)) [
    | inl e ↦ rw e (refl, inr refl)
    | inr e ↦
        absurd (mandatory_through (send_verification_email_at_login env login session) (rw e at h))
  ]

  initiate_phone-ne : (phone : Text) → (initiate_phone env phone login session).0 ≢ reply none true
  unfolding initiate_phone
  initiate_phone-ne phone = elim (Bool-cases env.verify_phone_allowed) [
    | inl e ↦ rw e (λ h. cc)
    | inr e ↦ rw e (λ h. cc)
  ]

  -- The login goes through unchanged.
  abbrev through : Reply × Login × Session
  through = (reply none true, login, session)

  gate_lem :
      (b : Bool) (x : Reply × Login × Session)
      → x.0 ≢ reply none true
      → (if b then through else x).0 ≡ reply none true
      → (b ≡ true) × ((if b then through else x).1 ≡ login)
  gate_lem true x ne h = (refl, refl)
  gate_lem false x ne h = absurd (ne h)

  two_gates :
      (a b : Bool) (x : Reply × Login × Session)
      → x.0 ≢ reply none true
      → (if a then through else if b then through else x).0 ≡ reply none true
      → ((if a then through else if b then through else x).1 ≡ login) × ((a ≡ true) ⊎ (b ≡ true))
  two_gates true b x ne h = (refl, inl refl)
  two_gates false true x ne h = (refl, inr refl)
  two_gates false false x ne h = absurd (ne h)

  choose-ne :
      (b : Bool) (x y : Reply × Login × Session)
      → x.0 ≢ reply none true
      → y.0 ≢ reply none true
      → (if b then x else y).0 ≢ reply none true
  choose-ne true x y nx ny = nx
  choose-ne false x y nx ny = ny

  pub phone_of_user-through :
      (phone : Option (Text × Bool)) (required : Bool)
      → (phone_of_user env required phone login session).0 ≡ reply none true
      → ((phone_of_user env required phone login session).1 ≡ login)
        × ((required ≡ false)
            ⊎ ((env.phone_verification_enabled ≡ false)
                ⊎ ((number : Text) × (phone ≡ some (number, true)))))
  phone_of_user-through none true h = cc
  phone_of_user-through none false h = (refl, inl refl)
  phone_of_user-through (some (number, true)) required h = (refl, inr (inr (number, refl)))
  phone_of_user-through (some (number, false)) required h =
      let g =
        gate_lem (not env.phone_verification_enabled) (initiate_phone env number login session)
          (initiate_phone-ne number) h in
      (g.1, inr (inl (ground (arith, g.0))))

  phone_of_login-through :
      (phone : Option Text)
      → (phone_of_login env phone login session).0 ≡ reply none true
      → (phone_of_login env phone login session).1 ≡ login
  phone_of_login-through none h = refl
  phone_of_login-through (some phone) h = absurd (initiate_phone-ne phone h)

  pub phone_through :
      (field : Option Bool) (user : Option ℕ)
      → (phone_handle env field user login session).0 ≡ reply none true
      → (phone_handle env field user login session).1 ≡ login
  phone_through none user h = refl
  phone_through (some required) none h = phone_of_login-through (present login.phone) h
  phone_through (some required) (some user) h =
      (phone_of_user-through (env.phones user) required h).0

  initiated-ne :
      (email phone : Option Text) → (initiated env email phone login session).0 ≢ reply none true
  unfolding initiate_login_code
  initiated-ne none none = λ h. cc
  initiated-ne (some e) phone = λ h. cc
  initiated-ne none (some p) = λ h. cc

  contacted-ne :
      (email : Option Text) (user : Option ℕ)
      → (contacted env email user login session).0 ≢ reply none true
  contacted-ne (some e) user = initiated-ne (some e) none
  contacted-ne none none = λ h. cc
  contacted-ne none (some user) = initiated-ne _ _

  pub code_through :
      (handle_login_by_code env login session).0 ≡ reply none true
      → ((handle_login_by_code env login session).1 ≡ login)
        × ((is_login_by_code_required env ≡ false) ⊎ (is_login_by_code_trusted env login ≡ true))
  unfolding handle_login_by_code
  code_through h =
      let did = did_initiate env (stage_state login_by_code login) in
      let (kept, why) =
        two_gates (not did && not (is_login_by_code_required env))
          (is_login_by_code_trusted env login)
          (if did
            then code_requested env login session
            else contacted env (present login.email) login.user login session)
          (choose-ne did (code_requested env login session)
            (contacted env (present login.email) login.user login session) (λ k. cc)
            (contacted-ne (present login.email) login.user))
          h in
      (kept, elim why [ inl e ↦ inl (ground (arith, e)) | inr e ↦ inr e ])
