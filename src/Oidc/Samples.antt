-- ===== src/Oidc/Samples.antt =====
-- A provider with one user and one client, for the tests.
use django_allauth.Prelude.{true, false, none, [], ◌∷◌, codes}
use django_allauth.Oidc.Json.{null}
use django_allauth.Oidc.Models.{Client, public}
use django_allauth.Oidc.Context.{User, Provider, Settings}

abbrev pub tv : Client
tv = record {
  id = codes "tv";
  secret = [];
  scopes = codes "openid";
  default_scopes = [];
  type = public;
  grant_types = codes "urn:ietf:params:oauth:grant-type:device_code";
  redirect_uris = [];
  cors_origins = [];
  allow_uri_wildcards = false;
  response_types = codes "code";
  skip_consent = false;
  extra = null;
}

abbrev pub defaults : Settings
defaults = record {
  auth_methods = [];
  authorization_code_expires_in = 60;
  refresh_token_expires_in = none;
  rotate_refresh_token = true;
  introspection_cross_client_allowed = false;
  cimd_enabled = false;
}

abbrev pub ann : User
ann = record { pk = codes "1"; is_active = true }

abbrev pub site : Provider
site = record {
  settings = defaults;
  users = (codes "1", ann) ∷ [];
  clients = (codes "tv", tv) ∷ [];
  hash_token = λ t. t;
  cimd_lookup_client = λ cid client. client;
}
