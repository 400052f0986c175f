-- ===== src/Account/Stages.antt =====
-- allauth/account/stages.py (`LoginStage`, `LoginStageController`), allauth/account/internal/stagekit.py
-- and `resume_login` of allauth/account/internal/flows/login.py: a login passes through stages, each of
-- which can hold it up for a request or more.
pub mod Env
pub mod Emails
pub mod Handlers
pub mod Past
pub mod Held
pub mod Entering
use django_allauth.Prelude.{
  ℕ, ◌+◌, Bool, true, false, not, ◌&&◌, ◌||◌, Option, none, some, List, [], ◌∷◌, ltb, if◌then◌else◌,
  ◌==◌, Dict, lookup, insert,
}
use django_allauth.Account.Login.{
  StageKey, key_eq, StageState, Login, Session, stage_state, put_stage, clear_login, stash_login,
}

-- `headed_redirect_response`: to the page of a stage, or to "account_login".
pub data Response : Type 0 where
  to_stage : StageKey → Response
  to_login : Response

-- What the `handle` of a stage does: it returns a response, if any, and whether to go on, or an
-- exception ends the request.
pub data Reply : Type 0 where
  reply : Option Response → Bool → Reply
  raised : Reply

-- A `LoginStage`: its key, and `handle`, with the login and the session that it leaves.
pub record Stage : Type 0 where
  pub key : StageKey
  pub handle : Login → Session → Reply × Login × Session

pub set_current : StageKey → Login → Login
set_current key login = record login { current = some key }

unfoldable pub is_handled : StageKey → Login → Bool
unfolding stage_state
is_handled key login = (stage_state key login).handled

unfoldable pub set_handled : StageKey → Login → Login
unfolding stage_state put_stage
set_handled key login = put_stage key (record (stage_state key login) { handled = true }) login

-- What `LoginStageController.handle` comes to: past all stages, a response, or an exception.
pub data Progress : Type 0 where
  passed : Progress
  answered : Response → Progress
  failed : Progress

abbrev after_reply :
    StageKey
    → (Login → Session → Progress × Login × Session)
    → Reply × Login × Session
    → Progress × Login × Session
after_reply key go (raised, login, session) = (failed, login, session)
after_reply key go (reply (some response) true, login, session) =
    (answered response, login, stash_login login session)
after_reply key go (reply (some response) false, login, session) =
    (answered response, login, clear_login session)
after_reply key go (reply none false, login, session) = (answered to_login, login, session)
after_reply key go (reply none true, login, session) = go (set_handled key login) session

-- The loop of `LoginStageController.handle`.
pub handle_stages : List Stage → Login → Session → Progress × Login × Session
handle_stages [] login session = (passed, login, clear_login session)
handle_stages (stage ∷ rest) login session = elim (is_handled stage.key login) [
  | true ↦ handle_stages rest login session
  | false ↦
      after_reply stage.key (handle_stages rest)
        (stage.handle (set_current stage.key login) session)
]

-- What `resume_login` comes to: `AssertionError` where there is no user to log in.
pub data Resumed : Type 0 where
  logged_in : ℕ → Resumed
  responded : Response → Resumed
  assertion_error : Resumed
  exception : Resumed

abbrev login_of : Option ℕ → Resumed
login_of none = assertion_error
login_of (some user) = logged_in user

abbrev resumed_by : Progress × Login × Session → Resumed × Session
resumed_by (passed, login, session) = (login_of login.user, session)
resumed_by (answered response, login, session) = (responded response, session)
resumed_by (failed, login, session) = (exception, session)

pub resume_login : List Stage → Login → Session → Resumed × Session
resume_login stages login session = resumed_by (handle_stages stages login session)

-- `LoginStage.exit`
pub exit : List Stage → StageKey → Login → Session → Resumed × Session
exit stages key login session = resume_login stages (set_handled key login) session

abbrev pub unexpired : ℕ → ℕ → Option Login → Session → Option Login × Session
unexpired login_timeout now none session = (none, session)
unexpired login_timeout now (some login) session =
    if ltb (login.initiated_at + login_timeout) now
    then (none, clear_login session)
    else (some login, session)

-- `unstash_login(request, peek=True)`
unfoldable pub unstash_login : ℕ → ℕ → Session → Option Login × Session
unstash_login login_timeout now session = unexpired login_timeout now session.account_login session

abbrev pub is_current : StageKey → Option StageKey → Bool
is_current key none = false
is_current key (some current) = current == key

abbrev pub has_key : StageKey → List Stage → Bool
has_key key [] = false
has_key key (stage ∷ rest) = if stage.key == key then true else has_key key rest

abbrev entered : List Stage → StageKey → Option Login → Option Login
entered stages key none = none
entered stages key (some login) =
    if is_current key login.current && has_key key stages then some login else none

-- `LoginStageController.enter`: the login whose current stage has the key, if there is one.
unfoldable pub enter : ℕ → List Stage → StageKey → ℕ → Session → Option Login × Session
enter login_timeout stages key now session =
    let (login, session') = unstash_login login_timeout now session in
    (entered stages key login, session')

abbrev first_pending : List Stage → Login → Option StageKey
first_pending [] login = none
first_pending (stage ∷ rest) login =
    if is_handled stage.key login then first_pending rest login else some stage.key

-- `LoginStageController.get_pending_stage`
pub get_pending_stage : List Stage → Login → Option StageKey
get_pending_stage stages login = first_pending stages login
