-- ===== src/Oidc/Validator/Bearer/Tests.antt =====
-- Tokens that are presented and revoked.
use django_allauth.Prelude.{
  ◌≡◌, refl, true, false, none, some, List, [], ◌∷◌, Text, codes, if◌then◌else◌, ◌&&◌, ◌==◌,
  text_eq, ◌↔◌, lookup, split, strip, lstrip,
}
use django_allauth.Statekit.{truthy}
use django_allauth.Oidc.Json.{null}
use django_allauth.Oidc.Models.{values_from_text, without_secret}
use django_allauth.Oidc.Context.{Token, new_context, access_token}
use django_allauth.Oidc.Samples.{site, defaults, tv}
use django_allauth.Oidc.Tokens.{lookup_token}
use django_allauth.Oidc.Validator.{Session}
use django_allauth.Oidc.Validator.Bearer.{is_same, revoke_token, validate_bearer_token}
use django_allauth.Oidc.Validator.Bearer.Accepted.{Opens, opened, validate_bearer_token_iff}
use django_allauth.Oidc.Validator.Bearer.Revoked.{reaches, lookup-revoke}

abbrev token : Token
token = record {
  pk = some 1;
  type = access_token;
  hash = codes "at";
  client_id = some (codes "tv");
  user_id = some (codes "1");
  extra = null;
  created_at = 0;
  expires_at = some 5000;
  scopes = codes "openid\nemail";
}

abbrev before : Session
before = record {
  request = record {
    client = none;
    user = none;
    scopes = [];
    claims = null;
    redirect_uri = [];
    grant_type = [];
    client_id = none;
    client_secret = none;
    nonce = none;
    code_challenge = none;
    code_challenge_method = none;
    access_token = none;
  };
  ctx = record (new_context defaults) { supported_auth_methods = without_secret ∷ [] };
}

abbrev wanted : List Text
wanted = codes "email" ∷ []

abbrev opened_by : Session
opened_by = opened site (codes "at") wanted before token tv

validate_bearer_token_iff_example :
    (validate_bearer_token site 1000 none (codes "at") wanted (token ∷ []) before
      ≡ (true, opened_by))
    ↔ ((truthy (some (codes "at")) ≡ true)
        × (is_same none (codes "at") ≡ false)
        × ((t : Token) × (lookup_token site 1000 access_token (codes "at") (token ∷ []) ≡ some t)
            × Opens site (codes "at") wanted before t opened_by))
validate_bearer_token_iff_example =
    validate_bearer_token_iff site 1000 none (codes "at") wanted (token ∷ []) before opened_by

-- The token is accepted, and not after its time.
accepts :
    validate_bearer_token site 1000 none (codes "at") wanted (token ∷ []) before ≡ (true, opened_by)
unfolding validate_bearer_token lookup_token values_from_text split strip lstrip lookup
accepts = refl

expires :
    validate_bearer_token site 5000 none (codes "at") wanted (token ∷ []) before ≡ (false, before)
unfolding validate_bearer_token lookup_token
expires = refl

lookup-revoke_example :
    lookup_token site 1000 access_token
      (codes "at")
      (revoke_token site (codes "at") (codes "refresh_token") (token ∷ []))
    ≡ (if codes "at" == codes "at" && reaches (codes "refresh_token") access_token
        then none
        else lookup_token site 1000 access_token (codes "at") (token ∷ []))
lookup-revoke_example =
    lookup-revoke site 1000 (codes "at") (codes "refresh_token") (codes "at") access_token
      (token ∷ [])
