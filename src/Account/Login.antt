-- ===== src/Account/Login.antt =====
-- allauth/account/models.py (`Login`), allauth/account/internal/constants.py and
-- allauth/mfa/internal/constants.py: a login in progress, with what its stages remember, and what a
-- session keeps of the flows. Times are in milliseconds; a user is a primary key.

use django_allauth.Prelude.{
  ℕ, Bool, true, false, Option, none, some, Dict, lookup, insert, Eq, ◌≡◌, ◌↔◌, arith, Text,
  nat_eqb,
}

pub data EmailVerificationMethod : Type 0 where
  mandatory optional none_ : EmailVerificationMethod

-- The `LoginStageKey`s of the two applications.
pub data StageKey : Type 0 where
  login_by_code verify_phone verify_email mfa_authenticate mfa_trust mfa_signup_webauthn : StageKey

abbrev number : StageKey → ℕ
number login_by_code = 0
number verify_phone = 1
number verify_email = 2
number mfa_authenticate = 3
number mfa_trust = 4
number mfa_signup_webauthn = 5

abbrev key_eqb : StageKey → StageKey → Bool
key_eqb a b = nat_eqb (number a) (number b)

pub key_eqb_iff : (a b : StageKey) → (key_eqb a b ≡ true) ↔ (a ≡ b)
key_eqb_iff a b = ground arith

instance abbrev pub key_eq : Eq StageKey
key_eq = record { equal = key_eqb; agrees = key_eqb_iff }

-- `state` of an `AbstractCodeVerificationProcess`, with the keys that the subclasses add.
pub record CodeState : Type 0 where
  pub at : ℕ
  pub failed_attempts : ℕ
  pub resend_count : ℕ
  pub change_count : ℕ
  pub email : Option Text
  pub phone : Option Text
  pub user_id : Option ℕ
  pub code : Option Text
  pub account_already_exists : Bool
  pub signup : Bool
  pub initiated_by_user : Bool
  pub code_confirmed : Bool

-- `login.state["stages"][key]["data"]`: the state of a code, if one was initiated, and two flags.
pub record StageData : Type 0 where
  pub code_state : Option CodeState
  pub login_by_code_required : Bool
  pub authentication_required : Bool

-- `login.state["stages"][key]`
pub record StageState : Type 0 where
  pub handled : Bool
  pub data_ : StageData

abbrev pub no_data : StageData
no_data = record {
  code_state = none;
  login_by_code_required = false;
  authentication_required = false;
}

abbrev pub fresh_stage : StageState
fresh_stage = record { handled = false; data_ = no_data }

pub record Login : Type 0 where
  pub user : Option ℕ
  pub email_verification : EmailVerificationMethod
  pub redirect_url : Option Text
  pub signup : Bool
  pub email : Option Text
  pub phone : Option Text
  pub initiated_at : ℕ
  pub passkey_signup : Bool
  pub current : Option StageKey
  pub stages : Dict StageKey StageState

-- What a session keeps of these flows.
pub record Session : Type 0 where
  pub account_login : Option Login
  pub email_verification_code : Option CodeState
  pub password_reset_verification : Option CodeState
  pub phone_verification : Option CodeState

-- The state of a stage, as if by `setdefault`.
abbrev pub or_fresh : Option StageState → StageState
or_fresh none = fresh_stage
or_fresh (some s) = s

unfoldable pub stage_state : StageKey → Login → StageState
stage_state key login = or_fresh (lookup key login.stages)

unfoldable pub put_stage : StageKey → StageState → Login → Login
put_stage key s login = record login { stages = insert key s login.stages }

-- `clear_login`
abbrev pub clear_login : Session → Session
clear_login session = record session { account_login = none }

-- `stash_login`
abbrev pub stash_login : Login → Session → Session
stash_login login session = record session { account_login = some login }
