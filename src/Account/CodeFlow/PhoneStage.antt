-- ===== src/Account/CodeFlow/PhoneStage.antt =====
-- The phone stage under the headless view, whose failures leave the process in place.
use django_allauth.Prelude.{
  ℕ, suc, ◌+◌, ◌≤◌, ◌≡◌, refl, true, false, ltb, some, List, [], ◌∷◌, arith, inl, inr, All, leb,
  Text, Bool-cases, length,
}
use django_allauth.Account.UserCode.{compare_user_code}
use django_allauth.Account.Login.{
  key_eq, CodeState, Login, Session, verify_phone, stage_state, put_stage,
}
use django_allauth.Account.Stages.{has_key, unstash_login, enter}
use django_allauth.Account.CodeFlow.{
  Kind, phone_stage, Limits, Controller, of_stage, in_stage, load, persist, abort, is_valid,
  record_invalid_attempt, resume, accepted, wrong, entry, confirm, code_of,
}
use django_allauth.Account.CodeFlow.Attempts.{stage_state-in_stage, try_code, Event, run}

module _ (limits : Kind → Limits) (controller : Controller) (at initiated : ℕ) (code : Text) where
  -- The login is in the phone stage, since a given moment, and its process has the code and the time
  -- of its start.
  record IsOpen (session : Session) : Type 0 where
    login : Login
    st : CodeState
    stashed : session.account_login ≡ some login
    since : login.initiated_at ≡ initiated
    here : login.current ≡ some verify_phone
    found : of_stage verify_phone (some login) ≡ some st
    started : st.at ≡ at
    same_code : code_of st ≡ code

  abbrev pub headless_guesses : List (ℕ × Text) → List Event
  headless_guesses [] = []
  headless_guesses ((now, guess) ∷ rest) = try_code false now guess false ∷ headless_guesses rest

  -- Before the time of the code and of the login is up.
  abbrev pub InTime : ℕ → Type 0
  InTime now =
      (now ≤ at + (limits phone_stage).timeout) × (now ≤ initiated + controller.login_timeout)

  -- A code that does not match, in time.
  abbrev pub IsMiss : ℕ × Text → Type 0
  IsMiss (now, guess) = InTime now × (compare_user_code guess code ≡ some false)

  valid_in_time :
      (now : ℕ) (st : CodeState)
      → st.at ≡ at
      → now ≤ at + (limits phone_stage).timeout
      → is_valid limits phone_stage now st ≡ true
  unfolding is_valid
  valid_in_time now st e h = rw e (ground (arith, h))

  entry-open :
      (now : ℕ) (session : Session)
      → IsOpen session
      → has_key verify_phone controller.stages ≡ true
      → now ≤ initiated + controller.login_timeout
      → entry controller false phone_stage now session ≡ (true, session)
  unfolding entry enter unstash_login
  entry-open now session o there h =
      let late : ltb (o.login.initiated_at + controller.login_timeout) now ≡ false =
        rw o.since (ground (arith, h)) in
      rw (o.stashed, late, o.here, there) refl

  failed_stays-IsOpen :
      (session : Session) (o : IsOpen session)
      → IsOpen ((record_invalid_attempt limits phone_stage o.st session).1)
  unfolding record_invalid_attempt abort persist put_stage
  failed_stays-IsOpen session o =
      elim (Bool-cases (leb (limits phone_stage).max_attempts (suc o.st.failed_attempts))) [
        | inl e ↦ rw e o
        | inr e ↦
            let st' = record (o.st) { failed_attempts = suc o.st.failed_attempts } in
            rw (e, o.stashed)
              (record {
                login = in_stage verify_phone st' o.login;
                st = st';
                stashed = refl;
                since = o.since;
                here = o.here;
                found = stage_state-in_stage verify_phone st' o.login;
                started = o.started;
                same_code = o.same_code;
              })
      ]

  load-open : (session : Session) (o : IsOpen session) → load phone_stage session ≡ some o.st
  unfolding load
  load-open session o = rw o.stashed o.found

  module _ (there : has_key verify_phone controller.stages ≡ true) where
    -- A miss is answered as wrong, and leaves the process open.
    miss_lem :
        (now : ℕ) (guess : Text) (session : Session)
        → IsOpen session
        → IsMiss (now, guess)
        → let (v, session') = confirm limits controller false phone_stage now guess false session in
          (v ≡ wrong) × IsOpen session'
    unfolding confirm resume
    miss_lem now guess session o (h, e) =
        rw
          (
            entry-open now session o there h.1,
            load-open session o,
            valid_in_time now o.st o.started h.0,
            o.same_code,
            e,
          )
          (refl, failed_stays-IsOpen session o)

    hit_lem :
        (now : ℕ) (guess : Text) (session : Session)
        → IsOpen session
        → InTime now
        → compare_user_code guess code ≡ some true
        → (confirm limits controller false phone_stage now guess false session).0 ≡ accepted
    unfolding confirm resume
    hit_lem now guess session o h e =
        rw
          (
            entry-open now session o there h.1,
            load-open session o,
            valid_in_time now o.st o.started h.0,
            o.same_code,
            e,
          )
          refl

    misses_lem :
        (guesses : List (ℕ × Text)) (session : Session)
        → IsOpen session
        → All IsMiss guesses
        → let (charges, session') =
            run limits controller phone_stage (headless_guesses guesses) session in
          (charges ≡ length guesses) × IsOpen session'
    misses_lem [] session o h = (refl, o)
    misses_lem ((now, guess) ∷ rest) session o h =
        let (e, o') = miss_lem now guess session o h.0 in
        let (n, o'') =
          misses_lem rest (confirm limits controller false phone_stage now guess false session).1 o'
            h.1 in
        (rw (e, n) (omega arith), o'')

-- At the phone stage, headless requests can try any number of wrong codes, far beyond the limit on
-- attempts, as long as the phone stage is the current one of the login in the session, the stage is
-- among those of the adapter, and neither `LOGIN_TIMEOUT` nor the time of the code is over: each is
-- answered as wrong, and the right code is accepted after them.
pub headless_guesses_unlimited :
    (limits : Kind → Limits) (controller : Controller) (session : Session) (login : Login)
    (st : CodeState) (guesses : List (ℕ × Text)) (now : ℕ) (right : Text)
    → has_key verify_phone controller.stages ≡ true
    → session.account_login ≡ some login
    → login.current ≡ some verify_phone
    → (stage_state verify_phone login).data_.code_state ≡ some st
    → All (IsMiss limits controller st.at login.initiated_at (code_of st)) guesses
    → InTime limits controller st.at login.initiated_at (code_of st) now
    → compare_user_code right (code_of st) ≡ some true
    → let events =
        headless_guesses limits controller st.at login.initiated_at (code_of st) guesses in
      let (charges, session') = run limits controller phone_stage events session in
      (charges ≡ length guesses)
      × ((confirm limits controller false phone_stage now right false session').0 ≡ accepted)
headless_guesses_unlimited limits controller session login st guesses now right there stashed here
      found misses in_time same =
    let o : IsOpen limits controller st.at login.initiated_at (code_of st) session = record {
      login = login;
      st = st;
      stashed = stashed;
      since = refl;
      here = here;
      found = found;
      started = refl;
      same_code = refl;
    } in
    let (n, o') =
      misses_lem limits controller st.at login.initiated_at (code_of st) there guesses session o
        misses in
    (
      n,
      hit_lem limits controller st.at login.initiated_at (code_of st) there now right _ o' in_time
          same,
    )
