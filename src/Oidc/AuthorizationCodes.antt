-- ===== src/Oidc/AuthorizationCodes.antt =====
-- allauth/idp/oidc/internal/oauthlib/authorization_codes.py: authorization codes in the cache, and
-- save_authorization_code of request_validator.py. Times are in milliseconds.
pub mod Exchange
mod Tests
use django_allauth.Prelude.{
  ℕ, ◌*◌, Bool, true, false, not, ◌&&◌, Option, none, some, List, [], ◌∷◌, ◌==◌, Text, text_eq,
  if◌then◌else◌,
}
use django_allauth.Cache.{Cache}
use django_allauth.Statekit.{truthy}
use django_allauth.Account.UserCode.{lower}
use django_allauth.Oidc.Models.{Client}
use django_allauth.Oidc.Context.{User, AuthorizationCode, Provider, Request, ValidatorContext}
use django_allauth.Oidc.Clients.{get_user_sub, get_user_by_sub}
use django_allauth.Oidc.Stored.{Entry, device_code_of, device_state, authorization, cache_key}

abbrev pub code_entry : Option Entry → Option AuthorizationCode
code_entry none = none
code_entry (some (device_code_of dc)) = none
code_entry (some (device_state d)) = none
code_entry (some (authorization a)) = some a

-- An email is kept only where it is not the primary one, which is `primary`.
abbrev pub kept_email : Option Text → Option Text → Option Text
kept_email primary none = none
kept_email none (some email) = if truthy (some email) then some email else none
kept_email (some primary) (some email) =
    if truthy (some email) && not (primary == lower email) then some email else none

-- A challenge is kept where it is not empty.
abbrev pub kept_pkce : Option Text → Option Text → Option (Text × Option Text)
kept_pkce none method = none
kept_pkce (some challenge) method =
    if truthy (some challenge) then some (challenge, method) else none

-- `if nonce: code = dict(**code, nonce=nonce)`
abbrev pub kept_nonce : Option Text → Option Text
kept_nonce none = none
kept_nonce (some nonce) = if truthy (some nonce) then some nonce else none

abbrev pub with_pkce : Option (Text × Option Text) → Request → Request
with_pkce none request = request
with_pkce (some (challenge, method)) request = record request {
  code_challenge = some challenge;
  code_challenge_method = method;
}

module _ (c : Cache Entry) (p : Provider) where
  open c use {State, get, set, delete}

  -- The code with what the request and the context say; `user` is the one who granted.
  abbrev pub authorization_code :
      Option Text → Client → Text → User → Request → ValidatorContext → AuthorizationCode
  authorization_code primary client code user request ctx = record {
    code = code;
    nonce = kept_nonce request.nonce;
    client_id = client.id;
    redirect_uri = request.redirect_uri;
    sub = get_user_sub p user;
    scopes = request.scopes;
    claims = request.claims;
    resources = ctx.requested_resources;
    email = kept_email primary ctx.email;
    pkce = kept_pkce request.code_challenge request.code_challenge_method;
  }

  pub save_authorization_code :
      ℕ → Option Text → Client → Text → User → Request → ValidatorContext → State → State
  save_authorization_code now primary client code user request ctx s =
      set now (cache_key client.id code)
        (authorization (authorization_code primary client code user request ctx))
        (p.settings.authorization_code_expires_in * 1000) s

  abbrev pub lookup_code : ℕ → Text → Text → State → Option AuthorizationCode
  lookup_code now client_id code s = code_entry (get now (cache_key client_id code) s)

  pub invalidate_authorization_code : Text → Text → State → State
  invalidate_authorization_code client_id code s = delete (cache_key client_id code) s

  abbrev pub accept :
      Option User
      → AuthorizationCode
      → Request
      → ValidatorContext
      → Bool × Request × ValidatorContext
  accept none a request ctx = (false, request, ctx)
  accept (some user) a request ctx = (
    true,
    record (with_pkce a.pkce (record request { scopes = a.scopes; user = some user })) {
      claims = a.claims;
    },
    record ctx { granted_resources = a.resources; email = a.email },
  )

  abbrev pub accept_found :
      Option AuthorizationCode → Request → ValidatorContext → Bool × Request × ValidatorContext
  accept_found none request ctx = (false, request, ctx)
  accept_found (some a) request ctx = accept (get_user_by_sub p a.sub) a request ctx

  pub validate_code :
      ℕ → Text → Text → Request → ValidatorContext → State → Bool × Request × ValidatorContext
  validate_code now client_id code request ctx s =
      accept_found (lookup_code now client_id code s) request ctx
