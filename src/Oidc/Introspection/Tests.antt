-- ===== src/Oidc/Introspection/Tests.antt =====
-- An access token that is introspected under the hint of a refresh token.
use django_allauth.Prelude.{
  ◌≡◌, refl, true, Bool, Option, none, some, [], ◌∷◌, Text, codes, lookup, split, strip, lstrip,
  join, inr,
}
use django_allauth.Oidc.Results.{ok}
use django_allauth.Oidc.Json.{null}
use django_allauth.Oidc.Models.{Client, values_from_text}
use django_allauth.Oidc.Context.{Token, access_token}
use django_allauth.Oidc.Samples.{site, tv}
use django_allauth.Oidc.Tokens.{lookup_by_value, get_resources}
use django_allauth.Oidc.Introspection.{
  both_types, is_jwt_token, determine_token_type, introspect_token, disclose,
}
use django_allauth.Oidc.Introspection.Permitted.{introspect_token-hint}

abbrev token : Token
token = record {
  pk = some 1;
  type = access_token;
  hash = codes "at";
  client_id = some (codes "tv");
  user_id = some (codes "1");
  extra = null;
  created_at = 2000;
  expires_at = some 9000;
  scopes = codes "openid";
}

abbrev no_jwt : Text → Option (Option Text)
no_jwt t = none

abbrev all_allowed : Token → Client → Bool
all_allowed t caller = true

introspect_token-hint_example :
    introspect_token no_jwt site 3000 all_allowed true tv
      (codes "at")
      (some (codes "refresh_token"))
      (token ∷ [])
    ≡ ok (
        disclose no_jwt site 3000 all_allowed tv
          (lookup_by_value site 3000 both_types (codes "at") (token ∷ [])))
unfolding is_jwt_token
introspect_token-hint_example =
    introspect_token-hint no_jwt site 3000 all_allowed tv (codes "at")
      (some (codes "refresh_token")) (token ∷ []) refl (inr (token, refl))

tells :
    introspect_token no_jwt site 3000 all_allowed true tv (codes "at") none (token ∷ [])
    ≡ ok (
        some record {
          iat = 2;
          token_type = codes "access_token";
          scope = codes "openid";
          aud = [];
          exp = some 9;
          sub = some (codes "1");
          client_id = some (codes "tv");
        })
unfolding introspect_token determine_token_type is_jwt_token lookup_by_value values_from_text split
    strip lstrip lookup join get_resources
tells = refl
