-- ===== src/Oidc/Models.antt =====
-- allauth/idp/oidc/models.py: clients and what they are registered for.
pub mod Values
use django_allauth.Prelude.{
  Bool, true, false, Option, none, some, List, [], ◌∷◌, map, keep, any, not, if◌then◌else◌, ◌==◌,
  Text, text_eq, codes, split, join, strip,
}
use django_allauth.Oidc.Results.{Result, ok, err, ◌>>=◌}
use django_allauth.Oidc.Json.{
  Json, JsonList, JsonDict, null, text, number, list, dict, dict_end, dict_get, dict_set, set_item,
  or_empty, texts_of, list_of,
}

abbrev is_blank : Text → Bool
is_blank [] = true
is_blank (c ∷ s) = false

-- `list(filter(None, [s.strip() for s in text.split("\n")]))`
unfoldable pub values_from_text : Text → List Text
values_from_text t = keep (λ s. not (is_blank s)) (map strip (split b'\n' t))

unfoldable pub values_to_text : List Text → Text
values_to_text = join b'\n'

pub data GrantType : Type 0 where
  authorization_code device_code client_credentials refresh_token : GrantType

abbrev pub grant_type_value : GrantType → Text
grant_type_value authorization_code = codes "authorization_code"
grant_type_value device_code = codes "urn:ietf:params:oauth:grant-type:device_code"
grant_type_value client_credentials = codes "client_credentials"
grant_type_value refresh_token = codes "refresh_token"

pub data ClientType : Type 0 where
  confidential public : ClientType

abbrev pub is_public : ClientType → Bool
is_public confidential = false
is_public public = true

-- How clients may authenticate.
pub data AuthenticationMethod : Type 0 where
  without_secret client_secret_basic client_secret_post : AuthenticationMethod

abbrev pub same_method : AuthenticationMethod → AuthenticationMethod → Bool
same_method without_secret without_secret = true
same_method client_secret_basic client_secret_basic = true
same_method client_secret_post client_secret_post = true
same_method _ _ = false

-- `value in values`
abbrev pub contains : Text → List Text → Bool
contains t = any (λ s. s == t)

-- `set(xs).issubset(ys)`
abbrev pub is_subset : List Text → List Text → Bool
is_subset [] ys = true
is_subset (x ∷ xs) ys = let rest = is_subset xs ys in if contains x ys then rest else false

pub record Client : Type 0 where
  pub id : Text
  pub secret : Text
  pub scopes : Text
  pub default_scopes : Text
  pub type : ClientType
  pub grant_types : Text
  pub redirect_uris : Text
  pub cors_origins : Text
  pub allow_uri_wildcards : Bool
  pub response_types : Text
  pub skip_consent : Bool
  -- the field `data`
  pub extra : Json

module _ (c : Client) where
  abbrev pub get_redirect_uris : List Text
  get_redirect_uris = values_from_text c.redirect_uris

  abbrev pub get_cors_origins : List Text
  get_cors_origins = values_from_text c.cors_origins

  abbrev pub get_scopes : List Text
  get_scopes = values_from_text c.scopes

  abbrev pub get_default_scopes : List Text
  get_default_scopes = values_from_text c.default_scopes

  abbrev pub get_response_types : List Text
  get_response_types = values_from_text c.response_types

  abbrev pub get_grant_types : List Text
  get_grant_types = values_from_text c.grant_types

  abbrev pub set_redirect_uris : List Text → Client
  set_redirect_uris uris = record c { redirect_uris = values_to_text uris }

  abbrev pub set_cors_origins : List Text → Client
  set_cors_origins uris = record c { cors_origins = values_to_text uris }

  abbrev pub set_scopes : List Text → Client
  set_scopes values = record c { scopes = values_to_text values }

  abbrev pub set_default_scopes : List Text → Client
  set_default_scopes values = record c { default_scopes = values_to_text values }

  abbrev pub set_response_types : List Text → Client
  set_response_types values = record c { response_types = values_to_text values }

  abbrev pub set_grant_types : List Text → Client
  set_grant_types values = record c { grant_types = values_to_text values }

  -- `make_password` and `check_password` are Django's.
  abbrev pub set_secret : (Text → Text) → Text → Client
  set_secret make_password s = record c { secret = make_password s }

  abbrev pub check_secret : (Text → Text → Bool) → Text → Bool
  check_secret check_password s = check_password s c.secret

abbrev dict_or_none : Json → Option JsonDict
dict_or_none (dict d) = some d
dict_or_none null = none
dict_or_none (text t) = none
dict_or_none (number n) = none
dict_or_none (list l) = none

abbrev metadata_of : Option JsonDict → Option JsonDict
metadata_of none = none
metadata_of (some d) = dict_or_none (dict_get (codes "client_metadata") d)

-- What is no dictionary is logged, and taken as missing.
unfoldable pub get_client_metadata : Client → Option JsonDict
get_client_metadata c = metadata_of (dict_or_none c.extra)

abbrev uris_of : Json → List Text
uris_of (list l) = elim (texts_of l) [ none ↦ [] | some uris ↦ uris ]
uris_of null = []
uris_of (text t) = []
uris_of (number n) = []
uris_of (dict d) = []

abbrev logout_uris_of : Option JsonDict → List Text
logout_uris_of none = []
logout_uris_of (some d) = uris_of (dict_get (codes "post_logout_redirect_uris") d)

unfoldable pub get_post_logout_redirect_uris : Client → List Text
unfolding get_client_metadata
get_post_logout_redirect_uris c = logout_uris_of (get_client_metadata c)

-- The metadata is created where there is none, then written in place.
abbrev metadata_to_write : Option JsonDict → JsonDict
metadata_to_write none = dict_end
metadata_to_write (some d) = d

unfoldable pub set_post_logout_redirect_uris : List Text → Client → Result Client
unfolding get_client_metadata
set_post_logout_redirect_uris uris c =
    let metadata = metadata_to_write (get_client_metadata c) in
    let written = dict_set (codes "post_logout_redirect_uris") (list (list_of uris)) metadata in
    set_item (codes "client_metadata") (dict written) (or_empty c.extra) >>= λ extra.
    ok (record c { extra = extra })
