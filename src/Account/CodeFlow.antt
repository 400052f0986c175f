-- ===== src/Account/CodeFlow.antt =====
-- allauth/account/internal/flows/code_verification.py and its subclasses in login_by_code.py,
-- email_verification_by_code.py, password_reset_by_code.py and phone_verification.py: codes that are
-- sent to a user and typed in, with the views that confirm and resend them.
pub mod Attempts
pub mod PhoneStage
mod Tests
use django_allauth.Prelude.{
  ℕ, suc, ◌+◌, is_some, Bool, true, false, not, ◌&&◌, Option, none, some, List, [], ◌∷◌, leb,
  if◌then◌else◌, Text,
}
use django_allauth.Account.UserCode.{compare_user_code}
use django_allauth.Account.Stages.{Stage, unstash_login, enter, get_pending_stage, is_current}
use django_allauth.Account.Login.{
  CodeState, StageKey, StageState, Login, Session, login_by_code, verify_phone, stage_state,
  put_stage, clear_login, stash_login,
}

-- The subclasses of `AbstractCodeVerificationProcess`.
pub data Kind : Type 0 where
  login_code email_code password_reset phone_stage phone_change : Kind

-- The settings of a kind: `…_MAX_ATTEMPTS`, `…_TIMEOUT` and `…_MAX_RESEND_COUNT`.
pub record Limits : Type 0 where
  pub max_attempts : ℕ
  pub timeout : ℕ
  pub max_resend_count : ℕ

pub initial_state : ℕ → Option ℕ → Option Text → Option Text → CodeState
initial_state now user email phone = record {
  at = now;
  failed_attempts = 0;
  resend_count = 0;
  change_count = 0;
  email = email;
  phone = phone;
  user_id = user;
  code = none;
  account_already_exists = false;
  signup = false;
  initiated_by_user = false;
  code_confirmed = false;
}

-- The state of the code in the stage of a stashed login.
abbrev of_stage : StageKey → Option Login → Option CodeState
of_stage key none = none
of_stage key (some login) = (stage_state key login).data_.code_state

abbrev in_stage : StageKey → CodeState → Login → Login
in_stage key st login =
    let s = stage_state key login in
    put_stage key (record s { data_ = record (s.data_) { code_state = some st } }) login

abbrev restash : StageKey → CodeState → Option Login → Session → Session
restash key st none session = session
restash key st (some login) session = stash_login (in_stage key st login) session

-- Where the state of a process is found.
pub load : Kind → Session → Option CodeState
load login_code session = of_stage login_by_code session.account_login
load email_code session = session.email_verification_code
load password_reset session = session.password_reset_verification
load phone_stage session = of_stage verify_phone session.account_login
load phone_change session = session.phone_verification

pub persist : Kind → CodeState → Session → Session
persist login_code st session = restash login_by_code st session.account_login session
persist email_code st session = record session { email_verification_code = some st }
persist password_reset st session = record session { password_reset_verification = some st }
persist phone_stage st session = restash verify_phone st session.account_login session
persist phone_change st session = record session { phone_verification = some st }

-- The `abort` of the phone stage is empty.
pub abort : Kind → Session → Session
abort login_code session = clear_login session
abort email_code session = clear_login (record session { email_verification_code = none })
abort password_reset session = record session { password_reset_verification = none }
abort phone_stage session = session
abort phone_change session = record session { phone_verification = none }

abbrev code_text : Option Text → Text
code_text none = []
code_text (some c) = c

-- `state.get("code", "")`
abbrev pub code_of : CodeState → Text
code_of st = code_text st.code

module _ (limits : Kind → Limits) where
  pub is_valid : Kind → ℕ → CodeState → Bool
  is_valid kind now st = leb now (st.at + (limits kind).timeout)

  -- Whether attempts are left, and the session.
  pub record_invalid_attempt : Kind → CodeState → Session → Bool × Session
  record_invalid_attempt kind st session =
      let failed = suc st.failed_attempts in
      if leb (limits kind).max_attempts failed
      then (false, abort kind session)
      else (true, persist kind (record st { failed_attempts = failed }) session)

  abbrev resumed : Kind → ℕ → Option CodeState → Session → Option CodeState × Session
  resumed kind now none session = (none, session)
  resumed kind now (some st) session =
      if is_valid kind now st then (some st, session) else (none, abort kind session)

  -- `resume`, with `abort_if_invalid`.
  pub resume : Kind → ℕ → Session → Option CodeState × Session
  resume kind now session = resumed kind now (load kind session) session

  pub can_resend : Kind → CodeState → Bool
  can_resend password_reset st = false
  can_resend phone_change st = false
  can_resend kind st = not (leb (limits kind).max_resend_count st.resend_count)

-- What a client sees of one request to confirm a code; `errored` is a `TypeError` of the comparison.
pub data Verdict : Type 0 where
  gone accepted wrong errored : Verdict

-- `LOGIN_TIMEOUT`, and the stages of the adapter.
pub record Controller : Type 0 where
  pub login_timeout : ℕ
  pub stages : List Stage

abbrev is_pending : List Stage → StageKey → Option Login → Bool
is_pending stages key none = false
is_pending stages key (some login) = is_current key (get_pending_stage stages login)

module _ (controller : Controller) where
  open controller use {login_timeout, stages}

  abbrev enters : StageKey → ℕ → Session → Bool × Session
  enters key now session =
      let (login, session') = enter login_timeout stages key now session in
      (is_some login, session')

  -- What the view asks of a visitor who is not signed in, before it looks for the process: the two
  -- kinds that live in a stage want the login in that stage. The headless view of the login code
  -- takes the pending stage, the others enter the current one. The email views enter their stage too,
  -- which drops a login that is too old; that an anonymous visitor needs this stage is not asked here,
  -- so that more requests are let in.
  pub entry : Bool → Kind → ℕ → Session → Bool × Session
  entry true login_code now session = enters login_by_code now session
  entry false login_code now session =
      let (login, session') = unstash_login login_timeout now session in
      (is_pending stages login_by_code login, session')
  entry headed phone_stage now session = enters verify_phone now session
  entry headed email_code now session = (true, (unstash_login login_timeout now session).1)
  entry headed password_reset now session = (true, session)
  entry headed phone_change now session = (true, session)

module _ (limits : Kind → Limits) where
  -- The headed views end the login where no attempts are left at the phone stage; the headless one
  -- does not.
  abbrev after_failure : Bool → Kind → Bool × Session → Session
  after_failure true phone_stage (false, session) = clear_login session
  after_failure headed kind (left, session) = session

  abbrev answered : Bool → Kind → Bool → Option Bool → CodeState → Session → Verdict × Session
  answered headed kind taken none st session = (errored, session)
  answered headed kind taken (some same) st session =
      if same && not taken
      then (accepted, session)
      else (wrong, after_failure headed kind (record_invalid_attempt limits kind st session))

  abbrev judged : Bool → Kind → Text → Bool → Option CodeState → Session → Verdict × Session
  judged headed kind guess taken none session = (gone, session)
  judged headed kind guess taken (some st) session =
      answered headed kind taken (compare_user_code guess (code_of st)) st session

  module _ (controller : Controller) where
    abbrev confirm_entered : Bool → Kind → ℕ → Text → Bool → Bool × Session → Verdict × Session
    confirm_entered headed kind now guess taken (false, session) = (gone, session)
    confirm_entered headed kind now guess taken (true, session) =
        let (st, session') = resume limits kind now session in
        judged headed kind guess taken st session'

    -- One request to confirm a code: `headed` tells the view, and `taken` that the form finds the
    -- email address or the phone number in use by another account. What `finish` does is left to the
    -- caller.
    pub confirm : Bool → Kind → ℕ → Text → Bool → Session → Verdict × Session
    confirm headed kind now guess taken session =
        confirm_entered headed kind now guess taken (entry controller headed kind now session)

  abbrev resent : Kind → Text → Option CodeState → Session → Session
  resent kind code none session = session
  resent kind code (some st) session =
      if can_resend limits kind st
      then persist kind (record st { code = some code; resend_count = suc st.resend_count }) session
      else session

  abbrev resend_entered : Kind → ℕ → Text → Bool × Session → Session
  resend_entered kind now code (false, session) = session
  resend_entered kind now code (true, session) =
      let (st, session') = resume limits kind now session in resent kind code st session'

  -- One request to send the code again, with the code that the adapter generates. All views of the
  -- two stages enter the current one.
  pub resend : Controller → Kind → ℕ → Text → Session → Session
  resend controller kind now code session =
      resend_entered kind now code (entry controller true kind now session)
