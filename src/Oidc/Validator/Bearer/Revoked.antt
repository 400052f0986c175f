-- ===== src/Oidc/Validator/Bearer/Revoked.antt =====
-- allauth/idp/oidc/internal/oauthlib/request_validator.py: what is left after a revocation.
use django_allauth.Prelude.{
  ℕ, ◌≡◌, refl, Bool, true, false, not, ◌&&◌, Option, none, some, List, [], ◌∷◌, any, ◌==◌, Text,
  text_eq, arith, if◌then◌else◌, ap, ◌∙◌, sym, codes,
}
use django_allauth.Oidc.Context.{
  Token, TokenType, initial_access_token, access_token, refresh_token, authorization_code, Provider,
}
use django_allauth.Oidc.Tokens.{same_type, lookup_token, is_valid, type_in}
use django_allauth.Oidc.Issuing.Rows.{same_type-eq}
use django_allauth.Oidc.Validator.Bearer.{hinted_types, revoke_token}

-- The kinds of tokens that a revocation under a hint is after: a hint of one kind of token spares the
-- other kind, and any other hint spares neither. Tokens of a third kind are always spared.
pub reaches : Text → TokenType → Bool
reaches hint access_token = not (hint == codes "refresh_token")
reaches hint refresh_token = not (hint == codes "access_token")
reaches hint initial_access_token = false
reaches hint authorization_code = false

-- The types of the source, in the three cases of its hint.
of_hint :
    (a r : Bool) (type : TokenType)
    → (a ≡ true → r ≡ false)
    → any (same_type type) (
        if a
        then access_token ∷ []
        else if r
        then refresh_token ∷ []
        else access_token ∷ refresh_token ∷ [])
      ≡ elim type [
        | access_token ↦ not r
        | refresh_token ↦ not a
        | initial_access_token ↦ false
        | authorization_code ↦ false
      ]
of_hint a r initial_access_token apart = ground arith
of_hint a r access_token apart = ground arith
of_hint a r refresh_token apart = ground arith
of_hint a r authorization_code apart = ground arith

apart :
    (hint : Text) → (hint == codes "access_token") ≡ true → (hint == codes "refresh_token") ≡ false
apart hint h =
    ap (λ (x : Text). x == codes "refresh_token") ((text_eq.agrees hint (codes "access_token")).0 h)

reaches_lem :
    (hint : Text) (type : TokenType) → any (same_type type) (hinted_types hint) ≡ reaches hint type
unfolding reaches
reaches_lem hint type =
    of_hint (hint == codes "access_token") (hint == codes "refresh_token") type (apart hint)
    ∙ by_type type
  where
    by_type :
        (type : TokenType)
        → elim type [
          | access_token ↦ not (hint == codes "refresh_token")
          | refresh_token ↦ not (hint == codes "access_token")
          | initial_access_token ↦ false
          | authorization_code ↦ false
        ]
          ≡ reaches hint type
    by_type initial_access_token = refl
    by_type access_token = refl
    by_type refresh_token = refl
    by_type authorization_code = refl

module _ (p : Provider) (now : ℕ) where
  -- A lookup, row by row.
  abbrev fits : TokenType → Text → Token → Bool
  fits type value t =
      is_valid now t.expires_at && t.hash == p.hash_token value && same_type t.type type

  lookup_token-step :
      (type : TokenType) (value : Text) (r : Token) (rows : List Token)
      → lookup_token p now type value (r ∷ rows)
        ≡ (if fits type value r then some r else lookup_token p now type value rows)
  unfolding lookup_token
  lookup_token-step type value r rows = ground arith

  -- The row is revoked.
  abbrev is_revoked : Text → Text → Token → Bool
  is_revoked value hint t = t.hash == p.hash_token value && type_in (hinted_types hint) t

  -- Of the rows that a lookup may find, the revoked are those of the value and of a hinted type.
  fits-revoked :
      (value hint other : Text) (type : TokenType) (r : Token)
      → fits type other r ≡ true
      → is_revoked value hint r ≡ (p.hash_token other == p.hash_token value && reaches hint type)
  fits-revoked value hint other type r h =
      let same : r.type ≡ type = same_type-eq r.type type (ground arith) in
      let hash : r.hash ≡ p.hash_token other =
        (text_eq.agrees r.hash (p.hash_token other)).0 (ground arith) in
      (λ i. hash i == p.hash_token value && any (same_type (same i)) (hinted_types hint))
      ∙ ap (λ b. p.hash_token other == p.hash_token value && b) (reaches_lem hint type)

  row_by_row :
      (f v g : Bool) (r : Token) (x y : Option Token)
      → (f ≡ true → v ≡ g)
      → x ≡ (if g then none else y)
      → (if not v then (if f then some r else x) else x)
        ≡ (if g then none else (if f then some r else y))
  row_by_row f v g r x y h e = ground arith

  kept_row :
      (v : Bool) (type : TokenType) (value : Text) (r : Token) (rows : List Token)
      → lookup_token p now type value (if v then r ∷ rows else rows) ≡ (
          if v
          then (if fits type value r then some r else lookup_token p now type value rows)
          else lookup_token p now type value rows)
  kept_row true type value r rows = lookup_token-step type value r rows
  kept_row false type value r rows = refl

  -- A revocation removes exactly the access and refresh tokens of that value, save those of the kind
  -- that the hint does not name: a lookup afterwards finds nothing where it asks for a value of the same
  -- digest and a kind that the hint reaches, and otherwise what it would have found before. The hint of
  -- a refresh token spares access tokens, that of an access token spares refresh tokens, any other
  -- spares neither, and tokens of other kinds are always spared. So an access token that is revoked
  -- under the hint of a refresh token stays, and the other way round.
  pub lookup-revoke :
      (value hint other : Text) (type : TokenType) (rows : List Token)
      → lookup_token p now type other (revoke_token p value hint rows) ≡ (
          if p.hash_token other == p.hash_token value && reaches hint type
          then none
          else lookup_token p now type other rows)
  unfolding revoke_token
  lookup-revoke value hint other type [] = unfold lookup_token in ground arith
  lookup-revoke value hint other type (r ∷ rows) =
      kept_row (not (is_revoked value hint r)) type other r (revoke_token p value hint rows)
      ∙ row_by_row (fits type other r) (is_revoked value hint r) _ r _
          (lookup_token p now type other rows) (fits-revoked value hint other type r)
          (lookup-revoke value hint other type rows)
      ∙ ap (λ x. if p.hash_token other == p.hash_token value && reaches hint type then none else x)
          (sym (lookup_token-step type other r rows))
