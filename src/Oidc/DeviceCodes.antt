-- ===== src/Oidc/DeviceCodes.antt =====
-- allauth/idp/oidc/internal/oauthlib/device_codes.py: the codes by which a device without a browser
-- obtains tokens for a user who confirms on another device. Times are in milliseconds.
pub mod Polling
pub mod Life
use django_allauth.Prelude.{
  ℕ, ◌+◌, ◌-◌, ◌*◌, ◌/◌, Bool, true, false, not, ◌||◌, Option, none, some, List, [], ◌∷◌, leb, ltb,
  if◌then◌else◌, ◌==◌, Text, text_eq, lookup, is_some,
}
use django_allauth.Cache.{Cache}
use django_allauth.Statekit.{truthy}
use django_allauth.Account.UserCode.{compare_user_code}
use django_allauth.Oidc.Results.{
  Error, invalid_request, invalid_client, invalid_grant, unsupported_grant_type, slow_down,
  authorization_pending, access_denied, incorrect_code, type_error, key_error, Result, ok, err,
  ◌>>=◌, require,
}
use django_allauth.Oidc.Models.{
  Client, get_grant_types, contains, grant_type_value, GrantType.device_code as device_code_grant,
}
use django_allauth.Oidc.Context.{User, Provider, ValidatorContext}
use django_allauth.Oidc.Clients.{lookup_public_client}
use django_allauth.Oidc.Stored.{
  Device, DeviceData, Entry, device_code_of, device_state, authorization, cache_user_code_key,
  cache_device_code_key,
}

abbrev pub state_of : Option Entry → Option DeviceData
state_of none = none
state_of (some (device_code_of dc)) = none
state_of (some (device_state d)) = some d
state_of (some (authorization a)) = none

abbrev pub code_of : Option Entry → Option Text
code_of none = none
code_of (some (device_code_of dc)) = some dc
code_of (some (device_state d)) = none
code_of (some (authorization a)) = none

-- The state of a device code that was just handed out.
abbrev pub new_state : ℕ → Text → Option (List Text) → Device → Option (List Text) → DeviceData
new_state now client_id scope device resources = record {
  expires_at = now + device.expires_in * 1000;
  granted = none;
  last_poll_at = 0;
  client_id = client_id;
  scope = scope;
  device = device;
  resources = resources;
  user = none;
}

-- The test of what was found, which raises `incorrect_code`; `type_error` is the comparison's own.
abbrev check_code : Option Bool → DeviceData → Result DeviceData
check_code none d = err type_error
check_code (some same) d = if same then ok d else err incorrect_code

abbrev check_found : Text → Option DeviceData → Result DeviceData
check_found code none = err incorrect_code
check_found code (some d) =
    if is_some d.granted
    then err incorrect_code
    else check_code (compare_user_code code d.device.user_code) d

-- The checks of a poll up to the one of its pace; they write nothing.
abbrev pub check_pace : ℕ → DeviceData → Result DeviceData
check_pace now d =
    if ltb now (d.last_poll_at + d.device.interval * 1000) then err slow_down else ok d

abbrev pub check_client : Client → Result Client
check_client client =
    if not (contains (grant_type_value device_code_grant) (get_grant_types client))
    then err unsupported_grant_type
    else ok client

abbrev pub check_data : Text → Option DeviceData → Result DeviceData
check_data client_id none = err invalid_grant
check_data client_id (some d) = if d.client_id == client_id then ok d else err invalid_grant

-- `if not value: raise InvalidRequestError`
abbrev pub given : Option Text → Result Text
given none = err invalid_request
given (some []) = err invalid_request
given (some (x ∷ t)) = ok (x ∷ t)

-- The user that a granted code names, once the code is used up.
abbrev pub active_user : Option User → Result User
active_user none = err access_denied
active_user (some user) = if not user.is_active then err access_denied else ok user

abbrev pub granting_user : Provider → DeviceData → Result User
granting_user p d = require key_error d.user >>= λ pk. active_user (lookup pk p.users)

abbrev pub granted_resources : Result User → DeviceData → ValidatorContext → ValidatorContext
granted_resources (err e) d ctx = ctx
granted_resources (ok user) d ctx = record ctx { granted_resources = d.resources }

module _ (c : Cache Entry) where
  open c use {State, get, set, delete}

  pub create : ℕ → Text → Option (List Text) → Device → ValidatorContext → State → State
  create now client_id scope device ctx s =
      set now (cache_device_code_key device.device_code)
        (device_state (new_state now client_id scope device ctx.requested_resources))
        (device.expires_in * 1000)
        (set now (cache_user_code_key device.user_code) (device_code_of device.device_code)
          (device.expires_in * 1000) s)

  -- `cache.get(cache_device_code_key(device_code))`
  abbrev pub data_at : ℕ → Text → State → Option DeviceData
  data_at now device_code s = state_of (get now (cache_device_code_key device_code) s)

  abbrev data_for : ℕ → Option Text → State → Option DeviceData
  data_for now none s = none
  data_for now (some dc) s = if truthy (some dc) then data_at now dc s else none

  pub validate_user_code : Provider → ℕ → Text → State → Result (Text × Client)
  validate_user_code p now code s =
      let found = code_of (get now (cache_user_code_key code) s) in
      check_found code (data_for now found s) >>= λ d.
      require incorrect_code (lookup_public_client p d.client_id) >>= λ client.
      require incorrect_code found >>= λ device_code. ok (device_code, client)

  -- `int(expires_at - now)` is negative from one second after the end on.
  pub update_device_state : ℕ → Text → DeviceData → State → Bool × State
  update_device_state now device_code d s = if leb (d.expires_at + 1000) now then (false, s) else (
    true,
    set now (cache_device_code_key device_code) (device_state d)
        ((d.expires_at - now) / 1000 * 1000) s,
  )

  abbrev decide : ℕ → User → Text → Bool → Option DeviceData → State → Bool × State
  unfolding update_device_state
  decide now user device_code confirm none s = (false, s)
  decide now user device_code confirm (some d) s =
      if is_some d.granted
      then (false, s)
      else update_device_state now device_code
          (record d { granted = some confirm; user = some user.pk }) s

  pub confirm_or_deny_device_code : ℕ → User → Text → Bool → State → Bool × State
  confirm_or_deny_device_code now user device_code confirm s =
      decide now user device_code confirm (data_at now device_code s) s

  pub check_poll : Provider → ℕ → Option Text → Option Text → State → Result (Text × DeviceData)
  check_poll p now client_id device_code s = given client_id >>= λ cid. given device_code >>= λ dc.
      require invalid_client (lookup_public_client p cid) >>= λ client.
      check_client client >>= λ client.
      check_data cid (data_at now dc s) >>= λ d. check_pace now d >>= λ d. ok (dc, d)

  abbrev pub answer :
      Provider
      → Text
      → DeviceData
      → Option Bool
      → ValidatorContext
      → State
      → Result (User × DeviceData) × State × ValidatorContext
  answer p dc d none ctx s = (err authorization_pending, s, ctx)
  answer p dc d (some false) ctx s = (err access_denied, s, ctx)
  answer p dc d (some true) ctx s =
      let user = granting_user p d in
      ((user >>= λ u. ok (u, d)), delete (cache_device_code_key dc) s, granted_resources user d ctx)

  abbrev pub poll_checked :
      Provider
      → ℕ
      → Result (Text × DeviceData)
      → ValidatorContext
      → State
      → Result (User × DeviceData) × State × ValidatorContext
  unfolding update_device_state
  poll_checked p now (err e) ctx s = (err e, s, ctx)
  poll_checked p now (ok (dc, d)) ctx s =
      let d' = record d { last_poll_at = now } in
      answer p dc d' d'.granted ctx (update_device_state now dc d' s).1

  pub poll_device_code :
      Provider
      → ℕ
      → Option Text
      → Option Text
      → ValidatorContext
      → State
      → Result (User × DeviceData) × State × ValidatorContext
  unfolding check_poll
  poll_device_code p now client_id device_code ctx s =
      poll_checked p now (check_poll p now client_id device_code s) ctx s
