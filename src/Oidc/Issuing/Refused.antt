-- ===== src/Oidc/Issuing/Refused.antt =====
-- allauth/idp/oidc/internal/oauthlib/request_validator.py: a refresh that is refused for its resources.
use django_allauth.Prelude.{
  ℕ, ◌≡◌, refl, true, false, ◌==◌, Option, none, some, List, [], ◌∷◌, Text, text_eq, arith, ap, ◌∙◌,
  ◌++◌,
}
use django_allauth.Statekit.{truthy}
use django_allauth.Oidc.Results.{Result, ok, err, invalid_target, after_err}
use django_allauth.Oidc.Context.{Token, Provider, Request, ValidatorContext, refresh_token}
use django_allauth.Oidc.Uris.{ParseResult}
use django_allauth.Oidc.Resources.{all_contained, is_resources_subset}
use django_allauth.Oidc.Tokens.{lookup_token, get_resources, set_resources, delete_token}
use django_allauth.Oidc.Issuing.{
  Table, BearerToken, prep_access_token, refresh_with, prep_refresh_token, save_with,
  save_refreshed, save_value, save_bearer_token, created, labelled_all, unsaved_as, seconds_left,
  refreshed_context, new_refresh_token,
}
use django_allauth.Oidc.Issuing.Rows.{Sole}
use django_allauth.Oidc.Issuing.Rotation.{rotated_away, rotating}

module _ (urlparse : Text → ParseResult) (p : Provider) (now : ℕ) (request : Request) where
  prep_access_token-refused :
      (ctx : ValidatorContext) (token : BearerToken) (r g : Text) (rs gs : List Text)
      → ctx.requested_resources ≡ some (r ∷ rs)
      → ctx.granted_resources ≡ some (g ∷ gs)
      → all_contained urlparse (r ∷ rs) (g ∷ gs) ≡ false
      → prep_access_token urlparse p now request ctx token ≡ err invalid_target
  unfolding prep_access_token is_resources_subset
  prep_access_token-refused ctx token r g rs gs asked granted outside = ground arith

  save_with-refused :
      (ctx : ValidatorContext) (token : BearerToken) (ts : List Token) (left : Option ℕ)
      (table : Table)
      → prep_access_token urlparse p now request ctx token ≡ err invalid_target
      → save_with urlparse p now request token (ok ts) left table ctx
        ≡ (err invalid_target, table, ctx)
  unfolding save_with
  save_with-refused ctx token ts left table h =
      ap (λ (r : Result (List Token)). created urlparse p now request r left table ctx)
        (after_err (λ at. labelled_all urlparse p now request ctx.email (ts ++ (at ∷ []))) h)

  new_refresh_token-made :
      (hash g : Text) (gs : List Text)
      → (t : Token) × (new_refresh_token urlparse p now request hash (g ∷ gs) ≡ ok t)
  unfolding set_resources
  new_refresh_token-made hash g gs = (_, refl)

  save_refreshed-refused :
      (made : Result Token) (t : Token) (rows : List Token) (token : BearerToken)
      (ctx : ValidatorContext) (table : Table)
      → made ≡ ok t
      → prep_access_token urlparse p now request ctx token ≡ err invalid_target
      → save_refreshed urlparse p now request token (made, rows, ctx) table
        ≡ (err invalid_target, record table { rows = rows }, ctx)
  unfolding save_refreshed
  save_refreshed-refused made t rows token ctx table e h =
      ap (λ m. save_refreshed urlparse p now request token (m, rows, ctx) table) e
      ∙ save_with-refused ctx token (unsaved_as t.pk t) (seconds_left now t.expires_at)
          (record table { rows = rows }) h

  refresh_with-refused :
      (hash r g : Text) (rs gs : List Text) (rt : Token) (token : BearerToken)
      (ctx : ValidatorContext) (table : Table)
      → p.settings.rotate_refresh_token ≡ true
      → ctx.requested_resources ≡ some (r ∷ rs)
      → get_resources rt ≡ g ∷ gs
      → all_contained urlparse (r ∷ rs) (g ∷ gs) ≡ false
      → save_refreshed urlparse p now request token
          (refresh_with urlparse p now request (some rt) hash ctx table.rows)
          table
        ≡ (
          err invalid_target,
          record table { rows = delete_token rt table.rows },
          refreshed_context urlparse p now request rt ctx,
        )
  refresh_with-refused hash r g rs gs rt token ctx table rotate asked granted outside =
      let ctx' = refreshed_context urlparse p now request rt ctx in
      let (t, made) = new_refresh_token-made hash g gs in
      ap (λ x. save_refreshed urlparse p now request token x table)
        (rotating p.settings.rotate_refresh_token (hash == rt.hash) _ _ _ rotate)
      ∙ save_refreshed-refused _ t (delete_token rt table.rows) token ctx' table
          (ap (new_refresh_token urlparse p now request hash) granted ∙ made)
          (prep_access_token-refused ctx' token r g rs gs asked (ap some granted) outside)

  -- With rotation, a refresh request that asks for a resource outside of those granted is refused with
  -- `invalid_target`, and all the same the refresh token that it presented is gone: no lookup finds it
  -- again, and none has taken its place. The view turns the error into a response within its
  -- transaction, so that the deletion is committed.
  pub refused_refresh_loses_token :
      (old new r g : Text) (rs gs : List Text) (rt : Token) (token : BearerToken)
      (ctx : ValidatorContext) (table : Table)
      → p.settings.rotate_refresh_token ≡ true
      → ctx.refresh_token ≡ some rt
      → lookup_token p now refresh_token old table.rows ≡ some rt
      → Sole rt table.rows
      → token.refresh_value ≡ some new
      → truthy (some new) ≡ true
      → (p.hash_token new == p.hash_token old) ≡ false
      → ctx.requested_resources ≡ some (r ∷ rs)
      → get_resources rt ≡ g ∷ gs
      → all_contained urlparse (r ∷ rs) (g ∷ gs) ≡ false
      → let (result, table', ctx') = save_bearer_token urlparse p now request token ctx table in
        (result ≡ err invalid_target)
        × (table'.rows ≡ delete_token rt table.rows)
        × ((later : ℕ) → lookup_token p later refresh_token old table'.rows ≡ none)
  unfolding save_bearer_token save_value prep_refresh_token
  refused_refresh_loses_token old [] r g rs gs rt token ctx table rotate used found sole issued
        filled other asked granted outside =
      cc
  refused_refresh_loses_token old (x ∷ new) r g rs gs rt token ctx table rotate used found sole
        issued filled other asked granted outside =
      let hash = p.hash_token (x ∷ new) in
      let e =
        ap (λ v. save_value urlparse p now request token v ctx table) issued
        ∙ ap
            (λ u.
              save_refreshed urlparse p now request token
                (refresh_with urlparse p now request u hash ctx table.rows) table)
            used
        ∙ refresh_with-refused hash r g rs gs rt token ctx table rotate asked granted outside in
      (
        ap (λ x. x.0) e,
        ap (λ x. x.1.rows) e,
        rotated_away urlparse p now request old (x ∷ new) rt token ctx table rotate used found sole
            issued filled other,
      )
