-- ===== src/Account/CodeFlow/Attempts.antt =====
-- How many codes can be guessed, over any sequence of requests to confirm and to resend.
use django_allauth.Prelude.{
  subst, ℕ, suc, ◌+◌, ◌-◌, ◌≤◌, ◌<◌, ◌≡◌, refl, Bool, true, false, not, ◌&&◌, Option, none, some,
  List, [], ◌∷◌, ltb, arith, inl, inr, ◌⊎◌, All, leb, Text, lookup-insert, Bool-cases, Option-cases,
  eq_refl,
}
use django_allauth.Account.UserCode.{compare_user_code}
use django_allauth.Account.Login.{
  CodeState, StageKey, clear_login, Login, Session, login_by_code, verify_phone, stage_state,
  put_stage, key_eq,
}
use django_allauth.Account.Stages.{unexpired, unstash_login, enter}
use django_allauth.Account.CodeFlow.{
  restash, Kind, login_code, email_code, password_reset, phone_stage, phone_change, Limits,
  of_stage, in_stage, load, persist, abort, is_valid, record_invalid_attempt, resume, can_resend,
  Verdict, gone, accepted, wrong, errored, Controller, entry, confirm_entered, resend_entered,
  after_failure, judged, confirm, resend, code_of,
}

pub stage_state-in_stage :
    (key : StageKey) (st : CodeState) (login : Login)
    → (stage_state key (in_stage key st login)).data_.code_state ≡ some st
unfolding stage_state put_stage
stage_state-in_stage key st login = rw (
  lookup-insert key key
      (let s = stage_state key login in
        record s { data_ = record (s.data_) { code_state = some st } })
      login.stages,
  eq_refl key,
)

of_stage-restash :
    (key : StageKey) (st old : CodeState) (o : Option Login) (session : Session)
    → of_stage key o ≡ some old
    → of_stage key (restash key st o session).account_login ≡ some st
of_stage-restash key st old none session h = cc
of_stage-restash key st old (some login) session h = stage_state-in_stage key st login

pub load-persist :
    (kind : Kind) (st old : CodeState) (session : Session)
    → load kind session ≡ some old
    → load kind (persist kind st session) ≡ some st
unfolding load persist
load-persist login_code st old session h =
    of_stage-restash login_by_code st old session.account_login session h
load-persist email_code st old session h = refl
load-persist password_reset st old session h = refl
load-persist phone_stage st old session h =
    of_stage-restash verify_phone st old session.account_login session h
load-persist phone_change st old session h = refl

-- The phone stage does not end its process.
pub load-abort :
    (kind : Kind) (session : Session)
    → (load kind (abort kind session) ≡ none) ⊎ (load kind (abort kind session) ≡ load kind session)
unfolding load abort
load-abort login_code session = inl refl
load-abort email_code session = inl refl
load-abort password_reset session = inl refl
load-abort phone_stage session = inr refl
load-abort phone_change session = inl refl

-- Of a login in the session, entering a stage keeps all, or nothing where its time is over.
load-clear_login :
    (kind : Kind) (session : Session)
    → (load kind (clear_login session) ≡ none)
      ⊎ (load kind (clear_login session) ≡ load kind session)
unfolding load
load-clear_login login_code session = inl refl
load-clear_login email_code session = inr refl
load-clear_login password_reset session = inr refl
load-clear_login phone_stage session = inl refl
load-clear_login phone_change session = inr refl

load-unexpired :
    (kind : Kind) (login_timeout now : ℕ) (o : Option Login) (session : Session)
    → let session' = (unexpired login_timeout now o session).1 in
      (load kind session' ≡ none) ⊎ (load kind session' ≡ load kind session)
load-unexpired kind login_timeout now none session = inr refl
load-unexpired kind login_timeout now (some login) session =
    elim (Bool-cases (ltb (login.initiated_at + login_timeout) now)) [
      | inl late ↦ rw late (load-clear_login kind session)
      | inr early ↦ rw early (inr refl)
    ]

load-entry :
    (controller : Controller) (headed : Bool) (kind : Kind) (now : ℕ) (session : Session)
    → let session' = (entry controller headed kind now session).1 in
      (load kind session' ≡ none) ⊎ (load kind session' ≡ load kind session)
unfolding entry enter unstash_login
load-entry controller true login_code now session =
    load-unexpired login_code controller.login_timeout now session.account_login session
load-entry controller false login_code now session =
    load-unexpired login_code controller.login_timeout now session.account_login session
load-entry controller true phone_stage now session =
    load-unexpired phone_stage controller.login_timeout now session.account_login session
load-entry controller false phone_stage now session =
    load-unexpired phone_stage controller.login_timeout now session.account_login session
load-entry controller headed email_code now session =
    load-unexpired email_code controller.login_timeout now session.account_login session
load-entry controller headed password_reset now session = inr refl
load-entry controller headed phone_change now session = inr refl

-- One request.
pub data Event : Type 0 where
  try_code : Bool → ℕ → Text → Bool → Event
  send_again : ℕ → Text → Event

-- The attempts that `MAX_ATTEMPTS` leaves: at the phone stage only the headed views keep to it.
abbrev pub IsEnforcedBy : Kind → Bool → Type 0
IsEnforcedBy phone_stage headed = headed ≡ true
IsEnforcedBy kind headed = Unit

abbrev pub IsEnforced : Kind → Event → Type 0
IsEnforced kind (try_code headed now text taken) = IsEnforcedBy kind headed
IsEnforced kind (send_again now code) = Unit

-- Where the limit is enforced, a failure that leaves no attempt ends the process.
after_failure-abort :
    (limits : Kind → Limits) (headed : Bool) (kind : Kind) (session : Session)
    → IsEnforcedBy kind headed
    → load kind (after_failure limits headed kind (false, abort kind session)) ≡ none
unfolding load abort
after_failure-abort limits true login_code session h = refl
after_failure-abort limits false login_code session h = refl
after_failure-abort limits true email_code session h = refl
after_failure-abort limits false email_code session h = refl
after_failure-abort limits true password_reset session h = refl
after_failure-abort limits false password_reset session h = refl
after_failure-abort limits true phone_stage session h = refl
after_failure-abort limits false phone_stage session h = cc
after_failure-abort limits true phone_change session h = refl
after_failure-abort limits false phone_change session h = refl

after_failure-left :
    (limits : Kind → Limits) (headed : Bool) (kind : Kind) (session : Session)
    → after_failure limits headed kind (true, session) ≡ session
after_failure-left limits true login_code session = refl
after_failure-left limits true email_code session = refl
after_failure-left limits true password_reset session = refl
after_failure-left limits true phone_stage session = refl
after_failure-left limits true phone_change session = refl
after_failure-left limits false kind session = refl

module _ (limits : Kind → Limits) (controller : Controller) (kind : Kind) where
  abbrev left_of : Option CodeState → ℕ
  left_of none = 0
  left_of (some st) = (limits kind).max_attempts - st.failed_attempts

  -- Attempts left: none, where there is no process.
  abbrev pub attempts_left : Session → ℕ
  attempts_left session = left_of (load kind session)

  -- The number of failed attempts has not reached the limit.
  abbrev Alive : Option CodeState → Type 0
  Alive none = Unit
  Alive (some st) = st.failed_attempts < (limits kind).max_attempts

  abbrev pub IsAlive : Session → Type 0
  IsAlive session = Alive (load kind session)

  -- A request costs at least the attempts that it is charged, and keeps the process within its limit.
  record Costs (charge : ℕ) (before after : Session) : Type 0 where
    cost : attempts_left after + charge ≤ attempts_left before
    alive : IsAlive after

  of_same : (s t : Session) → load kind t ≡ load kind s → IsAlive s → Costs 0 s t
  of_same s t e h = record { cost = rw e (omega arith); alive = rw e h }

  of_none : (s t : Session) → load kind t ≡ none → Costs 0 s t
  of_none s t e = record { cost = rw e (omega arith); alive = rw e tt }

  of_abort : (s : Session) → IsAlive s → Costs 0 s (abort kind s)
  of_abort s h = elim (load-abort kind s) [
    | inl e ↦ of_none s (abort kind s) e
    | inr e ↦ of_same s (abort kind s) e h
  ]

  abbrev charge_of : Verdict → ℕ
  charge_of wrong = 1
  charge_of gone = 0
  charge_of accepted = 0
  charge_of errored = 0

  of_entry :
      (s t : Session) → (load kind t ≡ none) ⊎ (load kind t ≡ load kind s) → IsAlive s → Costs 0 s t
  of_entry s t e h = elim e [ inl lost ↦ of_none s t lost | inr same ↦ of_same s t same h ]

  Costs-after : (n : ℕ) (s t u : Session) → Costs 0 s t → Costs n t u → Costs n s u
  Costs-after n s t u a b = record { cost = omega (arith, a.cost, b.cost); alive = b.alive }

  failure-Costs :
      (headed : Bool) (st : CodeState) (session : Session)
      → IsEnforcedBy kind headed
      → load kind session ≡ some st
      → IsAlive session
      → Costs 1 session
          (after_failure limits headed kind (record_invalid_attempt limits kind st session))
  unfolding record_invalid_attempt
  failure-Costs headed st session enforced found h =
      let alive : st.failed_attempts < (limits kind).max_attempts = subst Alive found h in
      elim (Bool-cases (leb (limits kind).max_attempts (suc st.failed_attempts))) [
        | inl e ↦ rw e (record {
          cost =
              rw (after_failure-abort limits headed kind session enforced, found)
                (omega (arith, alive));
          alive = rw (after_failure-abort limits headed kind session enforced) tt;
        })
        | inr e ↦
            let st' = record st { failed_attempts = suc st.failed_attempts } in
            rw (e, after_failure-left limits headed kind (persist kind st' session))
              (record {
                cost = rw (load-persist kind st' st session found, found) (omega (arith, alive));
                alive = rw (load-persist kind st' st session found) (ground (arith, e));
              })
      ]

  -- A process that is found at all is found in the session that `resume` gives.
  judged-Costs :
      (headed : Bool) (guess : Text) (taken : Bool) (session : Session) (st : CodeState)
      → IsEnforcedBy kind headed
      → load kind session ≡ some st
      → IsAlive session
      → let (v, session') = judged limits headed kind guess taken (some st) session in
        Costs (charge_of v) session session'
  judged-Costs headed guess taken session st enforced found h =
      elim (Option-cases (compare_user_code guess (code_of st))) [
        | inl raises ↦ rw raises (of_same session session refl h)
        | inr (same, compared) ↦ elim (Bool-cases (same && not taken)) [
          | inl e ↦ rw (compared, e) (of_same session session refl h)
          | inr e ↦ rw (compared, e) (failure-Costs headed st session enforced found h)
        ]
      ]

  confirm_entered-Costs :
      (headed : Bool) (now : ℕ) (guess : Text) (taken admitted : Bool) (session : Session)
      → IsEnforcedBy kind headed
      → IsAlive session
      → let (v, session') =
          confirm_entered limits controller headed kind now guess taken (admitted, session) in
        Costs (charge_of v) session session'
  unfolding resume
  confirm_entered-Costs headed now guess taken false session enforced h =
      of_same session session refl h
  confirm_entered-Costs headed now guess taken true session enforced h =
      elim (Option-cases (load kind session)) [
        | inl missing ↦ rw missing (of_none session session missing)
        | inr (st, found) ↦ elim (Bool-cases (is_valid limits kind now st)) [
          | inl valid ↦
              rw (found, valid) (judged-Costs headed guess taken session st enforced found h)
          | inr late ↦ rw (found, late) (of_abort session h)
        ]
      ]

  confirm-Costs :
      (headed : Bool) (now : ℕ) (guess : Text) (taken : Bool) (session : Session)
      → IsEnforcedBy kind headed
      → IsAlive session
      → let (v, session') = confirm limits controller headed kind now guess taken session in
        Costs (charge_of v) session session'
  unfolding confirm
  confirm-Costs headed now guess taken session enforced h =
      let (admitted, s) = entry controller headed kind now session in
      let entering = of_entry session s (load-entry controller headed kind now session) h in
      Costs-after _ session s _ entering
        (confirm_entered-Costs headed now guess taken admitted s enforced entering.alive)

  resend_entered-Costs :
      (now : ℕ) (code : Text) (admitted : Bool) (session : Session)
      → IsAlive session
      → Costs 0 session (resend_entered limits kind now code (admitted, session))
  unfolding resume
  resend_entered-Costs now code false session h = of_same session session refl h
  resend_entered-Costs now code true session h = elim (Option-cases (load kind session)) [
    | inl missing ↦ rw missing (of_none session session missing)
    | inr (st, found) ↦ elim (Bool-cases (is_valid limits kind now st)) [
      | inl valid ↦ elim (Bool-cases (can_resend limits kind st)) [
        | inl yes_ ↦
            let st' = record st { code = some code; resend_count = suc st.resend_count } in
            rw (found, valid, yes_)
              (record {
                cost = rw (load-persist kind st' st session found, found) (omega arith);
                alive = rw (load-persist kind st' st session found) (subst Alive found h);
              })
        | inr no_ ↦ rw (found, valid, no_) (of_same session session refl h)
      ]
      | inr late ↦ rw (found, late) (of_abort session h)
    ]
  ]

  resend-Costs :
      (now : ℕ) (code : Text) (session : Session)
      → IsAlive session
      → Costs 0 session (resend limits controller kind now code session)
  unfolding resend
  resend-Costs now code session h =
      let (admitted, s) = entry controller true kind now session in
      let entering = of_entry session s (load-entry controller true kind now session) h in
      Costs-after 0 session s _ entering (resend_entered-Costs now code admitted s entering.alive)

  -- One request: whether a wrong code was charged, and the session.
  abbrev pub serve : Event → Session → ℕ × Session
  serve (try_code headed now text taken) session =
      let (v, session') = confirm limits controller headed kind now text taken session in
      (charge_of v, session')
  serve (send_again now code) session = (0, resend limits controller kind now code session)

  serve-Costs :
      (event : Event) (session : Session)
      → IsEnforced kind event
      → IsAlive session
      → Costs (serve event session).0 session (serve event session).1
  serve-Costs (try_code headed now text taken) session enforced h =
      confirm-Costs headed now text taken session enforced h
  serve-Costs (send_again now code) session enforced h = resend-Costs now code session h

  -- How many wrong codes a sequence of requests was charged, and the session it leaves.
  abbrev pub run : List Event → Session → ℕ × Session
  run [] session = (0, session)
  run (event ∷ events) session =
      let (charge, session') = serve event session in
      let (charges, session'') = run events session' in (charge + charges, session'')

  -- Where there is no process, or one whose failed attempts are below its limit: whatever sequence of
  -- requests to confirm a code and to send it again is served, at whatever times, the wrong codes that
  -- are answered as such and the attempts that are left afterwards are together no more than the
  -- attempts that were left, and the same holds of the process that is left. At the phone stage this
  -- is stated of the headed views.
  pub run-le-attempts :
      (events : List Event) (session : Session)
      → All (IsEnforced kind) events
      → IsAlive session
      → let (charges, session') = run events session in
        (charges + attempts_left session' ≤ attempts_left session) × IsAlive session'
  run-le-attempts [] session enforced h = (omega arith, h)
  run-le-attempts (event ∷ events) session enforced h =
      let c = serve-Costs event session enforced.0 h in
      let rest = run-le-attempts events (serve event session).1 enforced.1 c.alive in
      (omega (arith, c.cost, rest.0), rest.1)
