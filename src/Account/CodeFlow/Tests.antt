-- ===== src/Account/CodeFlow/Tests.antt =====
-- A process and requests to confirm its code.
use django_allauth.Prelude.{
  lookup, ℕ, ◌+◌, ◌≤◌, ◌≡◌, refl, true, false, none, some, List, [], ◌∷◌, arith, Text, codes,
}
use django_allauth.Account.UserCode.{compare_user_code}
use django_allauth.Account.Stages.{Stage, reply}
use django_allauth.Account.Login.{
  Login, CodeState, Session, mandatory, verify_phone, no_data, stage_state,
}
use django_allauth.Account.CodeFlow.{
  Controller, Kind, email_code, phone_stage, Limits, initial_state, load, accepted, confirm,
}
use django_allauth.Account.CodeFlow.Attempts.{
  Event, try_code, send_again, IsAlive, attempts_left, run, run-le-attempts,
}
use django_allauth.Account.CodeFlow.PhoneStage.{headless_guesses, headless_guesses_unlimited}

abbrev limits : Kind → Limits
limits kind = record { max_attempts = 3; timeout = 1000; max_resend_count = 2 }

abbrev phone_only : Stage
phone_only = record {
  key = verify_phone;
  handle = λ login session. (reply none true, login, session);
}

abbrev controller : Controller
controller = record { login_timeout = 900; stages = phone_only ∷ [] }

abbrev sent : CodeState
sent = record (initial_state 10 (some 1) none (some (codes "+31"))) { code = some (codes "X1") }

abbrev mailed : Session
mailed = record {
  account_login = none;
  email_verification_code = some sent;
  password_reset_verification = none;
  phone_verification = none;
}

abbrev requests : List Event
requests =
    try_code false 20 (codes "A") false
    ∷ send_again 30 (codes "Y2")
    ∷ try_code true 40 (codes "B") false
    ∷ try_code true 50 (codes "C") false
    ∷ try_code true 60 (codes "D") false
    ∷ []

run-le-attempts_example :
    let (charges, session') = run limits controller email_code requests mailed in
    (charges + attempts_left limits controller email_code session'
      ≤ attempts_left limits controller email_code mailed)
    × IsAlive limits controller email_code session'
unfolding load initial_state
run-le-attempts_example =
    run-le-attempts limits controller email_code requests mailed (tt, (tt, (tt, (tt, (tt, tt)))))
      (omega arith)

abbrev phone_login : Login
phone_login = record {
  user = some 1;
  email_verification = mandatory;
  redirect_url = none;
  signup = false;
  email = none;
  phone = some (codes "+31");
  initiated_at = 0;
  passkey_signup = false;
  current = some verify_phone;
  stages =
      (
        verify_phone,
        record { handled = false; data_ = record (no_data) { code_state = some sent } },
      )
      ∷ [];
}

abbrev at_phone : Session
at_phone = record mailed { account_login = some phone_login }

abbrev misses : List (ℕ × Text)
misses = (20, codes "A") ∷ (30, codes "B") ∷ (40, codes "C") ∷ (50, codes "D") ∷ []

headless_guesses_unlimited_example :
    let events = headless_guesses limits controller 10 0 (codes "X1") misses in
    let (charges, session') = run limits controller phone_stage events at_phone in
    (charges ≡ 4)
    × ((confirm limits controller false phone_stage 60 (codes "x1") false session').0 ≡ accepted)
unfolding initial_state compare_user_code stage_state lookup
headless_guesses_unlimited_example =
    headless_guesses_unlimited limits controller at_phone phone_login sent misses 60 (codes "x1")
      refl refl refl refl
      (
        ((omega arith, omega arith), refl),
        (
          ((omega arith, omega arith), refl),
          (((omega arith, omega arith), refl), (((omega arith, omega arith), refl), tt)),
        ),
      )
      (omega arith, omega arith) refl
