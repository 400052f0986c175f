-- ===== src/Oidc/AuthorizationCodes/Tests.antt =====
-- A code that is saved and exchanged.
use django_allauth.Prelude.{
  ◌+◌, ◌*◌, ◌≡◌, refl, false, none, some, [], ◌∷◌, codes, arith, ltb, lookup,
}
use django_allauth.Cache.{Cache}
use django_allauth.Cache.Local.{local_cache, fresh}
use django_allauth.Oidc.Json.{null}
use django_allauth.Oidc.Context.{Request, ValidatorContext, new_context}
use django_allauth.Oidc.Clients.{get_user_by_sub}
use django_allauth.Oidc.Samples.{site, defaults, ann, tv}
use django_allauth.Oidc.Stored.{Entry}
use django_allauth.Oidc.AuthorizationCodes.{
  save_authorization_code, invalidate_authorization_code, validate_code,
}
use django_allauth.Oidc.AuthorizationCodes.Exchange.{Exchanged, validate-save}

abbrev granted : Request
granted = record {
  client = some tv;
  user = some ann;
  scopes = codes "openid" ∷ [];
  claims = null;
  redirect_uri = codes "https://app/callback";
  grant_type = [];
  client_id = some (codes "tv");
  client_secret = none;
  nonce = some (codes "n");
  code_challenge = some (codes "abc");
  code_challenge_method = some (codes "S256");
  access_token = none;
}

abbrev asking : Request
asking = record granted { user = none; scopes = [] }

abbrev ctx : ValidatorContext
ctx = record (new_context defaults) { email = some (codes "ann@example.org") }

abbrev empty : Cache.State (local_cache {V = Entry})
empty = fresh

validate-save_example :
    let s' =
      save_authorization_code local_cache site 1000 none tv (codes "xyz") ann granted ctx empty in
    Exchanged (ltb 9000 (1000 + 60 * 1000)) none ann granted ctx asking (new_context defaults) (
      validate_code local_cache site 9000
        (codes "tv")
        (codes "xyz")
        asking
        (new_context defaults)
        s')
    × (validate_code local_cache site 9000
          (codes "tv")
          (codes "xyz")
          asking
          (new_context defaults)
          (invalidate_authorization_code local_cache site (codes "tv") (codes "xyz") s')
        ≡ (false, asking, new_context defaults))
unfolding get_user_by_sub lookup
validate-save_example =
    validate-save local_cache site 1000 9000 none tv (codes "xyz") ann granted asking ctx
      (new_context defaults) empty (omega arith) refl
