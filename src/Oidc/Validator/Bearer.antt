-- ===== src/Oidc/Validator/Bearer.antt =====
-- allauth/idp/oidc/internal/oauthlib/request_validator.py: the tokens that clients present.
pub mod Accepted
pub mod Revoked
mod Tests
use django_allauth.Prelude.{
  ℕ, Bool, true, false, not, ◌&&◌, ◌||◌, Option, none, some, List, [], ◌∷◌, ◌++◌, any, keep, ◌==◌,
  Text, text_eq, if◌then◌else◌, lookup, is_some, codes, ◌/◌,
}
use django_allauth.Statekit.{truthy}
use django_allauth.Oidc.Models.{
  Client, is_public, AuthenticationMethod, without_secret, contains, is_subset,
}
use django_allauth.Oidc.Context.{
  User, Token, TokenType, access_token, refresh_token, Provider, Request, ValidatorContext,
}
use django_allauth.Oidc.Tokens.{
  lookup_token, lookup_by_value, by_value, valid, type_in, same_type, first_of, of_type,
  get_resources,
}
use django_allauth.Oidc.Tokens
use django_allauth.Oidc.Validator.{Session, use_client, supports, validate_client_id}

-- A row that another row refers to.
abbrev pub referred {ℓ} : {A : Type ℓ} → Option Text → (Text → Option A) → Option A
referred none find = none
referred (some id) find = find id

-- The types that a hint stands for.
abbrev pub hinted_types : Text → List TokenType
hinted_types hint =
    if hint == codes "access_token"
    then access_token ∷ []
    else if hint == codes "refresh_token"
    then refresh_token ∷ []
    else access_token ∷ refresh_token ∷ []

abbrev pub is_same : Option Text → Text → Bool
is_same none t = false
is_same (some q) t = q == t

module _ (p : Provider) where
  abbrev pub user_of : Token → Option User
  user_of t = referred t.user_id (λ id. lookup id p.users)

  abbrev pub client_of : Token → Option Client
  client_of t = referred t.client_id (λ id. lookup id p.clients)

  -- `instance.user and not instance.user.is_active`
  abbrev pub is_blocked : Option User → Bool
  is_blocked none = false
  is_blocked (some user) = not user.is_active

  abbrev pub bearer_client : Text → Token → Option Client → Session → Bool × Session
  bearer_client value t none v = (false, v)
  bearer_client value t (some client) v =
      if is_public client.type && not (supports p without_secret v)
      then (false, v)
      else let v' = use_client client v in
        (
          true,
          record v' {
            request = record v'.request { scopes = Tokens.get_scopes t; access_token = some value };
            ctx = record v'.ctx { access_token = some t };
          },
        )

  abbrev pub bearer_found : Text → List Text → Option Token → Session → Bool × Session
  bearer_found value scopes none v = (false, v)
  bearer_found value scopes (some t) v =
      if is_blocked (user_of t)
      then (false, v)
      else if not (is_subset scopes (Tokens.get_scopes t))
      then (false, v)
      else bearer_client value t (client_of t)
          (record v { request = record v.request { user = user_of t } })

  -- `in_query` is the access token in the query of the URI.
  pub validate_bearer_token :
      ℕ → Option Text → Text → List Text → List Token → Session → Bool × Session
  validate_bearer_token now in_query [] scopes rows v = (false, v)
  validate_bearer_token now in_query (x ∷ value) scopes rows v =
      if is_same in_query (x ∷ value)
      then (false, v)
      else bearer_found (x ∷ value) scopes (lookup_token p now access_token (x ∷ value) rows) v

  abbrev refresh_found : Option Token → Option User → Session → Bool × Session
  refresh_found none user v = (false, v)
  refresh_found (some t) none v = (false, v)
  refresh_found (some t) (some user) v = if not user.is_active then (false, v) else (
    true,
    record {
      request = record v.request { user = some user };
      ctx = record v.ctx { refresh_token = some t };
    },
  )

  abbrev user_of_found : Option Token → Option User
  user_of_found none = none
  user_of_found (some t) = user_of t

  -- `Token.objects.filter(client=client)`
  abbrev pub of_client : Client → List Token → List Token
  of_client client = keep (λ t. elim t.client_id [ none ↦ false | some id ↦ id == client.id ])

  pub validate_refresh_token : ℕ → Text → Client → List Token → Session → Bool × Session
  validate_refresh_token now value client rows v =
      let found = lookup_token p now refresh_token value (of_client client rows) in
      refresh_found found (user_of_found found) v

  pub revoke_token : Text → Text → List Token → List Token
  revoke_token value hint rows =
      keep (λ t. not (t.hash == p.hash_token value && type_in (hinted_types hint) t)) rows

  -- The scopes of all tokens of the user who is signed in.
  abbrev granted_scopes : List Token → List Text
  granted_scopes [] = []
  granted_scopes (t ∷ ts) = Tokens.get_scopes t ++ granted_scopes ts

  abbrev of_user : User → List Token → List Token
  of_user user = keep (λ t. elim t.user_id [ none ↦ false | some id ↦ id == user.pk ])

  pub validate_silent_authorization : ℕ → User → Request → List Token → Bool
  validate_silent_authorization now user request rows = is_subset request.scopes (
      granted_scopes
        (keep (type_in (refresh_token ∷ access_token ∷ [])) (of_user user (valid now rows))))
