-- ===== src/Oidc/Issuing.antt =====
-- allauth/idp/oidc/internal/oauthlib/request_validator.py: the tokens that are saved when oauthlib has
-- made new ones. Times are in milliseconds.
pub mod Rows
pub mod Rotation
pub mod Granted
pub mod Refused
mod Tests
use django_allauth.Prelude.{
  ℕ, ◌+◌, ◌-◌, ◌*◌, ◌/◌, zero, suc, Bool, true, false, not, ◌&&◌, ◌||◌, Option, none, some, List,
  [], ◌∷◌, ◌++◌, if◌then◌else◌, ◌==◌, Text, text_eq, codes,
}
use django_allauth.Statekit.{truthy}
use django_allauth.Oidc.Results.{Result, ok, err, ◌>>=◌, invalid_target, assertion_error}
use django_allauth.Oidc.Json.{null}
use django_allauth.Oidc.Models.{Client, contains, values_to_text}
use django_allauth.Oidc.Context.{
  Token, TokenType, access_token, refresh_token, User, Provider, Request, ValidatorContext,
}
use django_allauth.Oidc.Uris.{ParseResult}
use django_allauth.Oidc.Resources.{listed, is_empty_list, is_resources_subset}
use django_allauth.Oidc.Tokens.{
  set_scopes, set_scope_email, get_scope_email, get_resources, set_resources, delete_token,
}

-- The rows, and the primary key that the database gives next.
pub record Table : Type 0 where
  pub rows : List Token
  pub next_pk : ℕ

-- oauthlib's new token.
pub record BearerToken : Type 0 where
  pub access_value : Text
  pub expires_in : ℕ
  pub refresh_value : Option Text

abbrev pub bulk_create : List Token → Table → Table
bulk_create [] t = t
bulk_create (r ∷ rs) t =
    bulk_create rs
      (record { rows = t.rows ++ (record r { pk = some t.next_pk } ∷ []); next_pk = suc t.next_pk })

abbrev client_id_of : Option Client → Option Text
client_id_of none = none
client_id_of (some client) = some client.id

abbrev user_id_of : Option User → Option Text
user_id_of none = none
user_id_of (some user) = some user.pk

abbrev pub new_token : TokenType → Text → Option ℕ → ℕ → Request → Token
new_token type hash expires_at now request = record {
  pk = none;
  type = type;
  hash = hash;
  client_id = client_id_of request.client;
  user_id = user_id_of request.user;
  extra = null;
  created_at = now;
  expires_at = expires_at;
  scopes = [];
}

-- `if resources: token.set_resources(resources)`
abbrev pub with_resources : List Text → Token → Result Token
with_resources resources t = if is_empty_list resources then ok t else set_resources resources t

-- Of `REFRESH_TOKEN_EXPIRES_IN`, a setting of 0 is as none.
abbrev pub refresh_expires_at : Option ℕ → ℕ → Option ℕ
refresh_expires_at none now = none
refresh_expires_at (some zero) now = none
refresh_expires_at (some (suc n)) now = some (now + suc n * 1000)

-- `max(0, int((rt.expires_at - timezone.now()).total_seconds()))`
abbrev pub seconds_left : ℕ → Option ℕ → Option ℕ
seconds_left now none = none
seconds_left now (some expires_at) = some ((expires_at - now) / 1000)

-- `if not rt.pk: tokens.append(rt)`
abbrev pub unsaved_as : Option ℕ → Token → List Token
unsaved_as none rt = rt ∷ []
unsaved_as (some pk) rt = []

module _ (urlparse : Text → ParseResult) (p : Provider) (now : ℕ) (request : Request) where
  pub prep_access_token : ValidatorContext → BearerToken → Result Token
  prep_access_token ctx token =
      let base =
        new_token access_token (p.hash_token token.access_value)
          (some (now + token.expires_in * 1000)) now request in
      if is_empty_list (listed ctx.requested_resources)
      then with_resources (listed ctx.granted_resources) base
      else if not (is_resources_subset urlparse ctx.requested_resources ctx.granted_resources)
      then err invalid_target
      else with_resources (listed ctx.requested_resources) base

  -- What a refresh token that is used says of the grant.
  abbrev pub refreshed_context : Token → ValidatorContext → ValidatorContext
  refreshed_context rt ctx = record ctx {
    granted_resources = some (get_resources rt);
    email =
        if not (truthy ctx.email) && contains (codes "email") request.scopes
        then get_scope_email rt
        else ctx.email;
  }

  abbrev pub new_refresh_token : Text → List Text → Result Token
  new_refresh_token hash resources = with_resources resources (
      new_token refresh_token hash (refresh_expires_at p.settings.refresh_token_expires_in now) now
        request)

  abbrev pub refresh_with :
      Option Token
      → Text
      → ValidatorContext
      → List Token
      → Result Token × List Token × ValidatorContext
  refresh_with none hash ctx rows =
      (new_refresh_token hash (listed ctx.granted_resources), rows, ctx)
  refresh_with (some rt) hash ctx rows =
      let ctx' = refreshed_context rt ctx in
      let same = hash == rt.hash in
      if not p.settings.rotate_refresh_token && same
      then (ok rt, rows, ctx')
      else if p.settings.rotate_refresh_token || not same
      then (new_refresh_token hash (get_resources rt), delete_token rt rows, ctx')
      else (err assertion_error, rows, ctx')

  pub prep_refresh_token :
      ValidatorContext → Text → List Token → Result Token × List Token × ValidatorContext
  prep_refresh_token ctx value rows = refresh_with ctx.refresh_token (p.hash_token value) ctx rows

  -- The scopes and the email of every token that is created.
  abbrev pub labelled : Option Text → Token → Result Token
  labelled email t =
      let scoped = set_scopes request.scopes t in
      elim email [
        | none ↦ ok scoped
        | some address ↦ if truthy (some address) then set_scope_email address scoped else ok scoped
      ]

  abbrev pub labelled_all : Option Text → List Token → Result (List Token)
  labelled_all email [] = ok []
  labelled_all email (t ∷ ts) =
      labelled email t >>= λ t'. labelled_all email ts >>= λ ts'. ok (t' ∷ ts')

  abbrev pub created :
      Result (List Token)
      → Option ℕ
      → Table
      → ValidatorContext
      → Result (Option ℕ) × Table × ValidatorContext
  created (err e) left table ctx = (err e, table, ctx)
  created (ok tokens) left table ctx = (ok left, bulk_create tokens table, ctx)

  -- The access token comes last; what was deleted before it is refused stays deleted.
  abbrev pub save_with :
      BearerToken
      → Result (List Token)
      → Option ℕ
      → Table
      → ValidatorContext
      → Result (Option ℕ) × Table × ValidatorContext
  unfolding prep_access_token
  save_with token (err e) left table ctx = (err e, table, ctx)
  save_with token (ok tokens) left table ctx =
      created (prep_access_token ctx token >>= λ at. labelled_all ctx.email (tokens ++ (at ∷ [])))
        left table ctx

  abbrev pub save_refreshed :
      BearerToken
      → Result Token × List Token × ValidatorContext
      → Table
      → Result (Option ℕ) × Table × ValidatorContext
  unfolding save_with
  save_refreshed token (err e, rows, ctx) table = (err e, record table { rows = rows }, ctx)
  save_refreshed token (ok rt, rows, ctx) table =
      save_with token (ok (unsaved_as rt.pk rt)) (seconds_left now rt.expires_at)
        (record table { rows = rows }) ctx

  abbrev pub save_value :
      BearerToken
      → Option Text
      → ValidatorContext
      → Table
      → Result (Option ℕ) × Table × ValidatorContext
  unfolding save_with save_refreshed prep_refresh_token
  save_value token none ctx table = save_with token (ok []) none table ctx
  save_value token (some []) ctx table = save_with token (ok []) none table ctx
  save_value token (some (x ∷ value)) ctx table =
      save_refreshed token (prep_refresh_token ctx (x ∷ value) table.rows) table

  -- `refresh_expires_in`, where it is told to the client, the rows and the context.
  pub save_bearer_token :
      BearerToken → ValidatorContext → Table → Result (Option ℕ) × Table × ValidatorContext
  unfolding save_value
  save_bearer_token token ctx table = save_value token token.refresh_value ctx table
