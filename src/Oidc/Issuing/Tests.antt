-- ===== src/Oidc/Issuing/Tests.antt =====
-- A refresh token that is rotated, and one that is lost.
use django_allauth.Prelude.{
  ℕ, ◌≡◌, ◌↔◌, ◌⊎◌, refl, true, false, none, some, List, [], ◌∷◌, Text, codes, All,
}
use django_allauth.Oidc.Results.{err, invalid_target}
use django_allauth.Oidc.Json.{
  null, list, dict, dict_end, entry, list_of, texts_of, dict_get, dict_set,
}
use django_allauth.Oidc.Context.{
  Token, Request, ValidatorContext, new_context, refresh_token, access_token,
}
use django_allauth.Oidc.Uris.{ParseResult, rstrip}
use django_allauth.Oidc.Resources.{
  is_contained_by, all_contained, is_empty_list, is_resources_subset,
}
use django_allauth.Oidc.Resources.Containment.{IsBelow, is_contained_by_iff}
use django_allauth.Oidc.Samples.{site, defaults, ann, tv}
use django_allauth.Oidc.Tokens.{lookup_token, get_resources, delete_token, set_resources}
use django_allauth.Oidc.Issuing.{
  Table, BearerToken, save_bearer_token, prep_refresh_token, prep_access_token,
}
use django_allauth.Oidc.Issuing.Rotation.{rotated_away}
use django_allauth.Oidc.Issuing.Granted.{refreshed_within, IsCovered}
use django_allauth.Oidc.Issuing.Refused.{refused_refresh_loses_token}

-- A parser that takes the whole text for a path.
abbrev as_path : Text → ParseResult
as_path t = record {
  scheme = codes "https";
  netloc = codes "api";
  path = t;
  query = [];
  fragment = [];
  hostname = some (codes "api");
  port = none;
  username = none;
  password = none;
}

abbrev photos : List Text
photos = codes "/photos" ∷ []

abbrev old_token : Token
old_token = record {
  pk = some 1;
  type = refresh_token;
  hash = codes "old";
  client_id = some (codes "tv");
  user_id = some (codes "1");
  extra = dict (entry (codes "resources") (list (list_of photos)) dict_end);
  created_at = 0;
  expires_at = none;
  scopes = codes "openid";
}

abbrev table : Table
table = record { rows = old_token ∷ []; next_pk = 2 }

abbrev asks : List Text → ValidatorContext
asks resources = record (new_context defaults) {
  refresh_token = some old_token;
  requested_resources = some resources;
}

abbrev request : Request
request = record {
  client = some tv;
  user = some ann;
  scopes = codes "openid" ∷ [];
  claims = null;
  redirect_uri = [];
  grant_type = codes "refresh_token";
  client_id = some (codes "tv");
  client_secret = none;
  nonce = none;
  code_challenge = none;
  code_challenge_method = none;
  access_token = none;
}

abbrev bearer : BearerToken
bearer = record { access_value = codes "at"; expires_in = 3600; refresh_value = some (codes "new") }

rotated_away_example :
    lookup_token site 9000 refresh_token
      (codes "old")
      (save_bearer_token as_path site 1000 request bearer (asks photos) table).1.rows
    ≡ none
unfolding lookup_token
rotated_away_example =
    rotated_away as_path site 1000 request (codes "old") (codes "new") old_token bearer
      (asks photos) table refl refl refl ((λ h. refl), tt) refl refl refl 9000

refused_refresh_loses_token_example :
    let (result, table', ctx') =
      save_bearer_token as_path site 1000 request bearer (asks (codes "/mail" ∷ [])) table in
    (result ≡ err invalid_target)
    × (table'.rows ≡ delete_token old_token table.rows)
    × ((later : ℕ) → lookup_token site later refresh_token (codes "old") table'.rows ≡ none)
unfolding lookup_token get_resources texts_of dict_get all_contained is_contained_by rstrip
refused_refresh_loses_token_example =
    refused_refresh_loses_token as_path site 1000 request (codes "old") (codes "new")
      (codes "/mail") (codes "/photos") [] [] old_token bearer (asks (codes "/mail" ∷ [])) table
      refl refl refl ((λ h. refl), tt) refl refl refl refl refl refl

abbrev renewed : Token
renewed = record old_token { pk = none; hash = codes "new"; created_at = 1000; scopes = [] }

abbrev access : Token
access = record {
  pk = none;
  type = access_token;
  hash = codes "at";
  client_id = some (codes "tv");
  user_id = some (codes "1");
  extra = dict (entry (codes "resources") (list (list_of (codes "/photos/2" ∷ []))) dict_end);
  created_at = 1000;
  expires_at = some 3601000;
  scopes = [];
}

refreshed_within_example :
    (get_resources renewed ≡ get_resources old_token)
    × (is_empty_list (get_resources old_token) ≡ false
        → All (IsCovered as_path (get_resources old_token)) (get_resources access))
unfolding prep_refresh_token prep_access_token get_resources set_resources texts_of dict_get
    dict_set is_resources_subset all_contained is_contained_by rstrip
refreshed_within_example =
    refreshed_within as_path site 1000 request old_token (codes "new") bearer
      (asks (codes "/photos/2" ∷ [])) table.rows {t = renewed} {at = access} refl refl refl

is_contained_by_iff_example : (is_contained_by as_path (codes "/a/b/c") (codes "/a/b/") ≡ true) ↔ (
    ((as_path (codes "/a/b/c")).scheme ≡ (as_path (codes "/a/b/")).scheme)
    × ((as_path (codes "/a/b/c")).netloc ≡ (as_path (codes "/a/b/")).netloc)
    × ((codes "/a/b/c" ≡ codes "/a/b/") ⊎ IsBelow (codes "/a/b/c") (codes "/a/b/")))
is_contained_by_iff_example = is_contained_by_iff as_path (codes "/a/b/c") (codes "/a/b/")

-- A sibling whose name begins in the same way is not contained.
siblings : is_contained_by as_path (codes "/photos-private") (codes "/photos") ≡ false
unfolding is_contained_by rstrip
siblings = refl
