-- ===== src/Oidc/Issuing/Rotation.antt =====
-- allauth/idp/oidc/internal/oauthlib/request_validator.py: a refresh token that is rotated.
use django_allauth.Prelude.{
  ℕ, ◌≡◌, refl, Bool, true, false, not, ◌&&◌, ◌||◌, Option, none, some, List, [], ◌∷◌, ◌++◌, ◌==◌,
  Text, text_eq, arith, All-append, if◌then◌else◌, ◌∙◌, sym, subst,
}
use django_allauth.Statekit.{truthy}
use django_allauth.Oidc.Results.{Result, ok, err, invalid_target, taken_apart}
use django_allauth.Oidc.Context.{
  Token, TokenType, access_token, refresh_token, Provider, Request, ValidatorContext,
}
use django_allauth.Oidc.Uris.{ParseResult}
use django_allauth.Oidc.Tokens.{lookup_token, delete_token, set_scopes, get_resources}
use django_allauth.Oidc.Issuing.{
  Table, BearerToken, new_token, with_resources, prep_access_token, refresh_with,
  prep_refresh_token, labelled, labelled_all, created, save_with, save_refreshed, save_bearer_token,
  save_value, unsaved_as, seconds_left, new_refresh_token, refreshed_context, refresh_expires_at,
}
use django_allauth.Oidc.Issuing.Rows.{
  is_row, Sole, Lacks, lookup_token-Lacks, lookup_token-some, delete_token-Lacks, bulk_create-Lacks,
  Kin, set_scope_email-Kin, with_resources-Kin, Kin-is_row,
}

pub rotating {ℓ} :
    {A : Type ℓ} (rotate same : Bool) (x y z : A)
    → rotate ≡ true
    → (if not rotate && same then x else if rotate || not same then y else z) ≡ y
rotating true same x y z h = refl
rotating false same x y z h = cc

module _ (urlparse : Text → ParseResult) (p : Provider) (now : ℕ) (request : Request) where
  labelled-Kin :
      (email : Option Text) (t : Token) {u : Token}
      → labelled urlparse p now request email t ≡ ok u
      → Kin t u
  labelled-Kin none t h = ground arith
  labelled-Kin (some []) t h = ground arith
  labelled-Kin (some (x ∷ e)) t h = set_scope_email-Kin (x ∷ e) (set_scopes request.scopes t) h

  labelled_all-Lacks :
      (type : TokenType) (hash : Text) (email : Option Text) (ts : List Token) {us : List Token}
      → Lacks type hash ts
      → labelled_all urlparse p now request email ts ≡ ok us
      → Lacks type hash us
  labelled_all-Lacks type hash email [] l h = let e : [] ≡ _ = cc in subst (Lacks type hash) e tt
  labelled_all-Lacks type hash email (t ∷ ts) {us} (l, ls) h =
      taken_apart (labelled urlparse p now request email t) _ h (λ u made h1.
        taken_apart (labelled_all urlparse p now request email ts) _ h1 (λ vs rest h2.
          let e : u ∷ vs ≡ us = cc in
          subst (Lacks type hash) e (
            Kin-is_row type hash t u (labelled-Kin email t made) ∙ l,
            labelled_all-Lacks type hash email ts ls rest,
          )))

  prepared-Kin :
      (a b : Bool) (rs qs : List Text) (base : Token) {t : Token}
      → (if a
          then with_resources rs base
          else if b
          then err invalid_target
          else with_resources qs base)
        ≡ ok t
      → Kin base t
  prepared-Kin true b rs qs base h = with_resources-Kin rs base h
  prepared-Kin false true rs qs base h = cc
  prepared-Kin false false rs qs base h = with_resources-Kin qs base h

  prep_access_token-type :
      (ctx : ValidatorContext) (token : BearerToken) {t : Token}
      → prep_access_token urlparse p now request ctx token ≡ ok t
      → t.type ≡ access_token
  unfolding prep_access_token
  prep_access_token-type ctx token h = (prepared-Kin _ _ _ _ _ h).0

  module _ (old : Text) (left : Option ℕ) where
    created-Lacks :
        (r : Result (List Token)) (table : Table) (ctx : ValidatorContext)
        → ((ts : List Token) → r ≡ ok ts → Lacks refresh_token old ts)
        → Lacks refresh_token old table.rows
        → Lacks refresh_token old (created urlparse p now request r left table ctx).1.rows
    created-Lacks (err e) table ctx new l = l
    created-Lacks (ok ts) table ctx new l =
        bulk_create-Lacks refresh_token old ts table (new ts refl) l

    save_with-Lacks :
        (token : BearerToken) (ts : List Token) (table : Table) (ctx : ValidatorContext)
        → Lacks refresh_token old ts
        → Lacks refresh_token old table.rows
        → Lacks refresh_token old
            (save_with urlparse p now request token (ok ts) left table ctx).1.rows
    unfolding save_with
    save_with-Lacks token ts table ctx new l =
        created-Lacks _ table ctx
          (λ us h.
            taken_apart (prep_access_token urlparse p now request ctx token) _ h (λ at made h1.
              labelled_all-Lacks refresh_token old ctx.email (ts ++ (at ∷ []))
                (All-append (λ r. is_row refresh_token old r ≡ false) ts (at ∷ []) new
                  (ground (arith, prep_access_token-type ctx token made), tt))
                h1))
          l

  unsaved-Lacks :
      (old : Text) (pk : Option ℕ) (t : Token)
      → is_row refresh_token old t ≡ false
      → Lacks refresh_token old (unsaved_as pk t)
  unsaved-Lacks old none t h = (h, tt)
  unsaved-Lacks old (some pk) t h = tt

  module _ (old : Text) (token : BearerToken) (table : Table) where
    save_refreshed-Lacks :
        (r : Result Token) (rows : List Token) (ctx : ValidatorContext)
        → ((t : Token) → r ≡ ok t → is_row refresh_token old t ≡ false)
        → Lacks refresh_token old rows
        → Lacks refresh_token old
            (save_refreshed urlparse p now request token (r, rows, ctx) table).1.rows
    unfolding save_refreshed
    save_refreshed-Lacks (err e) rows ctx new l = l
    save_refreshed-Lacks (ok rt) rows ctx new l =
        save_with-Lacks old (seconds_left now rt.expires_at) token _ _ ctx
          (unsaved-Lacks old rt.pk rt (new rt refl)) l

    refresh_with-Lacks :
        (rt : Token) (hash : Text) (ctx : ValidatorContext)
        → p.settings.rotate_refresh_token ≡ true
        → rt.type ≡ refresh_token
        → rt.hash ≡ old
        → (hash == old) ≡ false
        → Sole rt table.rows
        → Lacks refresh_token old
            (save_refreshed urlparse p now request token
              (refresh_with urlparse p now request (some rt) hash ctx table.rows)
              table).1.rows
    refresh_with-Lacks rt hash ctx rotate same_kind same_hash other sole =
        subst
          (λ x.
            Lacks refresh_token old (save_refreshed urlparse p now request token x table).1.rows)
          (sym (rotating p.settings.rotate_refresh_token (hash == rt.hash) _ _ _ rotate))
          (save_refreshed-Lacks (new_refresh_token urlparse p now request hash (get_resources rt))
            (delete_token rt table.rows) (refreshed_context urlparse p now request rt ctx)
            (λ t made.
              Kin-is_row refresh_token old
                (new_token refresh_token hash
                  (refresh_expires_at p.settings.refresh_token_expires_in now) now request)
                t (with_resources-Kin (get_resources rt) _ made)
              ∙ other)
            (subst (λ x. Lacks x old (delete_token rt table.rows)) same_kind
              (subst (λ x. Lacks rt.type x (delete_token rt table.rows)) same_hash
                (delete_token-Lacks rt table.rows sole))))

  -- With rotation, a refresh token is good for one use. When a client has presented one, which the
  -- table holds and no other row shares, and oauthlib saves the new tokens, then the old refresh token
  -- is not found again, now or later, whether or not the request is granted in the end: it is gone
  -- too where the new access token is refused. The new token must have another digest than the old.
  pub rotated_away :
      (old new : Text) (rt : Token) (token : BearerToken) (ctx : ValidatorContext) (table : Table)
      → p.settings.rotate_refresh_token ≡ true
      → ctx.refresh_token ≡ some rt
      → lookup_token p now refresh_token old table.rows ≡ some rt
      → Sole rt table.rows
      → token.refresh_value ≡ some new
      → truthy (some new) ≡ true
      → (p.hash_token new == p.hash_token old) ≡ false
      → (later : ℕ)
      → lookup_token p later refresh_token old
          (save_bearer_token urlparse p now request token ctx table).1.rows
        ≡ none
  unfolding save_bearer_token save_value prep_refresh_token
  rotated_away old [] rt token ctx table rotate used found sole issued filled other later = cc
  rotated_away old (x ∷ new) rt token ctx table rotate used found sole issued filled other later =
      let (kind, hash) = lookup_token-some p now refresh_token old table.rows found in
      lookup_token-Lacks p later refresh_token old _ (
        subst
          (λ v.
            Lacks refresh_token (p.hash_token old)
              (save_value urlparse p now request token v ctx table).1.rows)
          (sym issued)
          (subst
            (λ u.
              Lacks refresh_token (p.hash_token old)
                (save_refreshed urlparse p now request token
                  (refresh_with urlparse p now request u (p.hash_token (x ∷ new)) ctx table.rows)
                  table).1.rows)
            (sym used)
            (refresh_with-Lacks (p.hash_token old) token table rt (p.hash_token (x ∷ new)) ctx
              rotate kind hash other sole)))
