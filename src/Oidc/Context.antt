-- ===== src/Oidc/Context.antt =====
-- What a request to the OpenID Connect provider reads and writes: the rows of users, clients and
-- tokens, the settings, oauthlib's request, and the validator context of
-- allauth/idp/oidc/internal/oauthlib/utils.py. Times are in milliseconds, settings in seconds.
use django_allauth.Prelude.{ℕ, Bool, Option, List, [], none, Text, Dict}
use django_allauth.Oidc.Json.{Json}
use django_allauth.Oidc.Models.{Client, AuthenticationMethod}

pub record User : Type 0 where
  pub pk : Text
  pub is_active : Bool

pub data TokenType : Type 0 where
  initial_access_token access_token refresh_token authorization_code : TokenType

pub record Token : Type 0 where
  -- set once the row is saved
  pub pk : Option ℕ
  pub type : TokenType
  pub hash : Text
  pub client_id : Option Text
  pub user_id : Option Text
  -- the field `data`
  pub extra : Json
  pub created_at : ℕ
  pub expires_at : Option ℕ
  pub scopes : Text

-- An authorization code, as it is kept in the cache.
pub record AuthorizationCode : Type 0 where
  pub code : Text
  pub nonce : Option Text
  pub client_id : Text
  pub redirect_uri : Text
  pub sub : Text
  pub scopes : List Text
  pub claims : Json
  pub resources : Option (List Text)
  pub email : Option Text
  -- the challenge and its method
  pub pkce : Option (Text × Option Text)

pub record Settings : Type 0 where
  pub auth_methods : List AuthenticationMethod
  pub authorization_code_expires_in : ℕ
  pub refresh_token_expires_in : Option ℕ
  pub rotate_refresh_token : Bool
  pub introspection_cross_client_allowed : Bool
  pub cimd_enabled : Bool

-- The tables, and what the program takes from other code: the digest of a token, and the metadata
-- documents of clients that are not registered.
pub record Provider : Type 0 where
  pub settings : Settings
  pub users : Dict Text User
  pub clients : Dict Text Client
  pub hash_token : Text → Text
  pub cimd_lookup_client : Text → Option Client → Option Client

-- oauthlib's `Request`, with the attributes that the validator reads or sets.
pub record Request : Type 0 where
  pub client : Option Client
  pub user : Option User
  pub scopes : List Text
  pub claims : Json
  pub redirect_uri : Text
  pub grant_type : Text
  pub client_id : Option Text
  pub client_secret : Option Text
  pub nonce : Option Text
  pub code_challenge : Option Text
  pub code_challenge_method : Option Text
  pub access_token : Option Text

pub record ValidatorContext : Type 0 where
  pub email : Option Text
  pub access_token : Option Token
  pub refresh_token : Option Token
  pub supported_auth_methods : List AuthenticationMethod
  pub clients : Dict Text (Option Client)
  pub codes : Dict (Text × Text) (Option AuthorizationCode)
  pub requested_resources : Option (List Text)
  pub granted_resources : Option (List Text)

-- The context of a request for which none was made yet.
abbrev pub new_context : Settings → ValidatorContext
new_context s = record {
  email = none;
  access_token = none;
  refresh_token = none;
  supported_auth_methods = s.auth_methods;
  clients = [];
  codes = [];
  requested_resources = none;
  granted_resources = none;
}
