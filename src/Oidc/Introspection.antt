-- ===== src/Oidc/Introspection.antt =====
-- allauth/idp/oidc/internal/tokens.py and introspect_token of
-- allauth/idp/oidc/internal/oauthlib/request_validator.py: what a client may learn of a token.
pub mod Permitted
mod Tests
use django_allauth.Prelude.{
  ℕ, ◌/◌, Bool, true, false, not, ◌&&◌, ◌||◌, Option, none, some, List, [], ◌∷◌, tally, ◌==◌,
  nat_eq, Text, text_eq, codes, join, if◌then◌else◌,
}
use django_allauth.Oidc.Results.{Result, ok, err, rate_limited}
use django_allauth.Oidc.Models.{Client}
use django_allauth.Oidc.Context.{
  User, Token, TokenType, initial_access_token, access_token, refresh_token, authorization_code,
  Provider,
}
use django_allauth.Oidc.Uris.{starts_with}
use django_allauth.Oidc.Tokens.{get_resources, lookup_by_value, same_type}
use django_allauth.Oidc.Tokens
use django_allauth.Oidc.Validator.Bearer.{user_of, client_of, is_blocked, is_same}

abbrev dots : Text → ℕ
dots = tally (λ c. c == b'.')

pub is_jwt_token : Text → Bool
is_jwt_token token = starts_with (codes "ey") token && (dots token == 2 || dots token == 4)

-- The types that are tried, and those that are tried next; none where there are none.
abbrev pub Types : Type 0
Types = Option (List TokenType) × Option (List TokenType)

abbrev pub both_types : List TokenType
both_types = access_token ∷ refresh_token ∷ []

abbrev pub types_by_hint : Option Text → Types
types_by_hint none = (some both_types, none)
types_by_hint (some hint) =
    if hint == codes "access_token"
    then (some (access_token ∷ []), some (refresh_token ∷ []))
    else if hint == codes "refresh_token"
    then (some (refresh_token ∷ []), some (access_token ∷ []))
    else (some both_types, none)

-- `token_use` of a token that was decoded.
abbrev pub types_of_jwt : Option (Option Text) → Option Text → Types
types_of_jwt none hint = types_by_hint hint
types_of_jwt (some use_) hint =
    (if is_same use_ (codes "access") then some (access_token ∷ []) else none, none)

-- What the server says of an active token.
pub record Claims : Type 0 where
  pub iat : ℕ
  pub token_type : Text
  pub scope : Text
  pub aud : List Text
  pub exp : Option ℕ
  pub sub : Option Text
  pub client_id : Option Text

abbrev type_text : TokenType → Text
type_text refresh_token = codes "refresh_token"
type_text access_token = codes "access_token"
type_text initial_access_token = codes "access_token"
type_text authorization_code = codes "access_token"

abbrev in_seconds : Option ℕ → Option ℕ
in_seconds none = none
in_seconds (some t) = some (t / 1000)

abbrev subject : Option User → Option Client → Option Text
subject (some user) (some client) = some user.pk
subject (some user) none = none
subject none client = none

abbrev id_of : Option Client → Option Text
id_of none = none
id_of (some client) = some client.id

-- `decode` is `decode_jwt_token`: of a token with a valid signature, issuer and time, its `token_use`.
module _ (decode : Text → Option (Option Text)) (p : Provider) (now : ℕ) where
  pub determine_token_type : Text → Option Text → Types
  unfolding is_jwt_token
  determine_token_type token hint =
      if is_jwt_token token then types_of_jwt (decode token) hint else types_by_hint hint

  abbrev pub or_fallback : Option Token → Option (List TokenType) → Text → List Token → Option Token
  or_fallback (some t) fallback token rows = some t
  or_fallback none none token rows = none
  or_fallback none (some []) token rows = none
  or_fallback none (some (x ∷ types)) token rows = lookup_by_value p now (x ∷ types) token rows

  abbrev pub find_token : Types → Text → List Token → Option Token
  find_token (none, fallback) token rows = none
  find_token (some types, fallback) token rows =
      or_fallback (lookup_by_value p now types token rows) fallback token rows

  abbrev pub claims_of : Token → Claims
  claims_of t = record {
    iat = t.created_at / 1000;
    token_type = type_text t.type;
    scope = join b' ' (Tokens.get_scopes t);
    aud = get_resources t;
    exp = in_seconds t.expires_at;
    sub = subject (user_of p t) (client_of p t);
    client_id = id_of (client_of p t);
  }

  -- `instance.client_id == request.client.pk`
  abbrev pub is_own : Token → Client → Bool
  is_own t caller = is_same t.client_id caller.id

  module _ (is_introspection_allowed : Token → Client → Bool) where
    abbrev pub disclose : Client → Option Token → Option Claims
    disclose caller none = none
    disclose caller (some t) =
        if is_blocked p (user_of p t)
        then none
        else if not p.settings.introspection_cross_client_allowed && not (is_own t caller)
        then none
        else if not (is_introspection_allowed t caller)
        then none
        else some (claims_of t)

    -- `within_rate` is what the rate limit `introspect_client` answers for the caller.
    pub introspect_token : Bool → Client → Text → Option Text → List Token → Result (Option Claims)
    unfolding determine_token_type
    introspect_token false caller token hint rows = err rate_limited
    introspect_token true caller token hint rows =
        ok (disclose caller (find_token (determine_token_type token hint) token rows))
