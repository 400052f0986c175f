-- ===== src/Oidc/Validator.antt =====
-- allauth/idp/oidc/internal/oauthlib/request_validator.py: clients, and who they are.
pub mod Bearer
use django_allauth.Prelude.{
  ℕ, Bool, true, false, not, ◌&&◌, ◌||◌, Option, none, some, List, [], ◌∷◌, any, ◌==◌, Text,
  text_eq, Eq, ◌↔◌, ◌≡◌, arith, if◌then◌else◌, lookup, insert, is_some,
}
use django_allauth.Statekit.{truthy}
use django_allauth.Oidc.Models.{
  Client, ClientType, is_public, AuthenticationMethod, without_secret, client_secret_post,
  same_method, contains, is_subset, check_secret, get_scopes, get_default_scopes,
  get_response_types, get_grant_types, grant_type_value, GrantType,
}
use django_allauth.Oidc.Context.{AuthorizationCode, Provider, Request, ValidatorContext}
use django_allauth.Oidc.Clients.{lookup_client}

-- What the validator reads and changes: the request and its context.
pub record Session : Type 0 where
  pub request : Request
  pub ctx : ValidatorContext

-- `_use_client`
abbrev pub use_client : Client → Session → Session
use_client client v = record v { request = record v.request { client = some client } }

-- `self._lookup_client`: what was looked up for a request is kept in its context.
abbrev pub kept_client : Text → Option Client → Session → Option Client × Session
kept_client client_id client v =
    (client, record v { ctx = record v.ctx { clients = insert client_id client v.ctx.clients } })

abbrev pub cached_client :
    Provider → Text → Option (Option Client) → Session → Option Client × Session
cached_client p client_id none v = kept_client client_id (lookup_client p client_id) v
cached_client p client_id (some client) v = (client, v)

module _ (p : Provider) where
  unfoldable pub find_client : Text → Session → Option Client × Session
  find_client client_id v = cached_client p client_id (lookup client_id v.ctx.clients) v

  abbrev pub admit : Option Client × Session → Bool × Session
  admit (none, v) = (false, v)
  admit (some client, v) = (true, use_client client v)

  -- `client_id` is none where it is no text.
  pub validate_client_id : Option Text → Session → Bool × Session
  validate_client_id none v = (false, v)
  validate_client_id (some client_id) v = admit (find_client client_id v)

  pub validate_response_type : Text → Client → Bool
  validate_response_type response_type client = contains response_type (get_response_types client)

  pub validate_scopes : List Text → Client → Bool
  validate_scopes scopes client = is_subset scopes (get_scopes client)

  pub default_scopes : Client → List Text
  default_scopes client = get_default_scopes client

  pub validate_grant_type : Text → Client → Bool
  validate_grant_type grant_type client = contains grant_type (get_grant_types client)

  abbrev pub supports : AuthenticationMethod → Session → Bool
  supports m v = any (same_method m) v.ctx.supported_auth_methods

  abbrev pub admit_public : Option Client × Session → Bool × Session
  admit_public (none, v) = (false, v)
  admit_public (some client, v) =
      if not (is_public client.type) then (false, v) else (true, use_client client v)

  pub authenticate_client_id : Text → Session → Bool × Session
  authenticate_client_id client_id v =
      if not (supports without_secret v) then (false, v) else admit_public (find_client client_id v)

  module _ (check_password : Text → Text → Bool) where
    abbrev pub admit_with : Text → Option Client × Session → Bool × Session
    admit_with secret (none, v) = (false, v)
    admit_with secret (some client, v) =
        if not (check_secret client check_password secret)
        then (false, v)
        else (true, use_client client v)

    abbrev pub authenticate_with : Option Text → Option Text → Session → Bool × Session
    unfolding authenticate_client_id
    authenticate_with none secret v = (false, v)
    authenticate_with (some client_id) secret v =
        if not (truthy secret) && v.request.grant_type == grant_type_value GrantType.device_code
        then authenticate_client_id client_id v
        else elim secret [
          | none ↦ (false, v)
          | some s ↦
              if not (truthy (some s)) then (false, v) else admit_with s (find_client client_id v)
        ]

    -- The credentials of the basic authentication, or else those of the body where this is allowed.
    pub authenticate_client : Option Text × Option Text → Session → Bool × Session
    unfolding authenticate_with
    authenticate_client (basic_id, basic_secret) v =
        let from_body =
          supports client_secret_post v && not (truthy basic_id) && not (truthy basic_secret) in
        authenticate_with (if from_body then v.request.client_id else basic_id)
          (if from_body then v.request.client_secret else basic_secret) v

  abbrev pub public_found : Option Client × Session → Bool × Session
  public_found (none, v) = (false, v)
  public_found (some client, v) = (is_public client.type, v)

  pub is_pkce_required : Text → Session → Bool × Session
  is_pkce_required client_id v = public_found (find_client client_id v)

  abbrev pub unless_public : Bool → Option Client × Session → Bool × Session
  unless_public dflt (none, v) = (dflt, v)
  unless_public dflt (some client, v) = (if is_public client.type then false else dflt, v)

  abbrev pub found_if_named : Option Text → Session → Option Client × Session
  found_if_named none v = (none, v)
  found_if_named (some client_id) v = find_client client_id v

  -- `dflt` is what oauthlib's own method answers.
  pub client_authentication_required : Bool → Session → Bool × Session
  client_authentication_required dflt v =
      if not (supports without_secret v)
      then (true, v)
      else if truthy v.request.client_id && truthy v.request.client_secret
      then (true, v)
      else unless_public dflt (found_if_named v.request.client_id v)
