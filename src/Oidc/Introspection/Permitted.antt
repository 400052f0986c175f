-- ===== src/Oidc/Introspection/Permitted.antt =====
-- allauth/idp/oidc/internal/tokens.py and introspect_token: what is disclosed, and to whom.
use django_allauth.Prelude.{
  ℕ, ◌≡◌, refl, Bool, true, false, ◌||◌, Option, none, some, List, [], ◌∷◌, keep, any, ◌==◌, Text,
  text_eq, codes, arith, if◌then◌else◌, Bool-cases, inl, inr, ◌⊎◌, ap, ◌∙◌,
}
use django_allauth.Oidc.Results.{ok}
use django_allauth.Oidc.Models.{Client}
use django_allauth.Oidc.Context.{
  Token, TokenType, access_token, refresh_token, initial_access_token, authorization_code, Provider,
}
use django_allauth.Oidc.Tokens.{lookup_by_value, valid, by_value, type_in, same_type, only}
use django_allauth.Oidc.Introspection.{
  Types, both_types, types_by_hint, is_jwt_token, determine_token_type, find_token, or_fallback,
  disclose, introspect_token,
}

-- No two entries pass the test.
abbrev pub AtMostOne : (Token → Bool) → List Token → Type 0
AtMostOne f rows = (keep f rows ≡ []) ⊎ ((t : Token) × (keep f rows ≡ t ∷ []))

abbrev first_or : Option Token → Option Token → Option Token
first_or (some t) o = some t
first_or none o = o

module _ (a b ab : Token → Bool) (either_way : (t : Token) → ab t ≡ (a t || b t))
    (apart : (t : Token) → a t ≡ true → b t ≡ false) where
  keep-empty : (rows : List Token) → keep ab rows ≡ [] → (keep a rows ≡ []) × (keep b rows ≡ [])
  keep-empty [] h = (refl, refl)
  keep-empty (t ∷ rows) h = ground (arith, either_way t, keep-empty rows)

  later_rows :
      (t : Token) (rows : List Token) → AtMostOne ab (t ∷ rows) → ab t ≡ false → AtMostOne ab rows
  later_rows t rows (inl e) f = inl (ground arith)
  later_rows t rows (inr (u, e)) f = inr (u, ground arith)

  no_more :
      (t : Token) (rows : List Token) → AtMostOne ab (t ∷ rows) → ab t ≡ true → keep ab rows ≡ []
  no_more t rows (inl e) f = ground arith
  no_more t rows (inr (u, e)) f = ground arith

  only-either :
      (rows : List Token)
      → AtMostOne ab rows
      → first_or (only (keep a rows)) (only (keep b rows)) ≡ only (keep ab rows)
  only-either [] h = refl
  only-either (t ∷ rows) h = elim (Bool-cases (ab t)) [
    | inl e ↦
        let none_left = no_more t rows h e in
        let (no_a, no_b) = keep-empty rows none_left in ground (arith, either_way t, apart t)
    | inr e ↦ ground (arith, either_way t, only-either rows (later_rows t rows h e))
  ]

one_of_two :
    (x y : TokenType) (t : Token)
    → type_in (x ∷ y ∷ []) t ≡ (type_in (x ∷ []) t || type_in (y ∷ []) t)
one_of_two x y t = ground arith

access_or_refresh :
    (t : Token)
    → type_in both_types t ≡ (type_in (refresh_token ∷ []) t || type_in (access_token ∷ []) t)
access_or_refresh t = ground arith

not_refresh :
    (type : TokenType)
    → any (same_type type) (access_token ∷ []) ≡ true
    → any (same_type type) (refresh_token ∷ []) ≡ false
not_refresh initial_access_token h = cc
not_refresh access_token h = refl
not_refresh refresh_token h = cc
not_refresh authorization_code h = cc

not_access :
    (type : TokenType)
    → any (same_type type) (refresh_token ∷ []) ≡ true
    → any (same_type type) (access_token ∷ []) ≡ false
not_access initial_access_token h = cc
not_access access_token h = cc
not_access refresh_token h = refl
not_access authorization_code h = cc

module _ (decode : Text → Option (Option Text)) (p : Provider) (now : ℕ) where
  fallback-first_or :
      (o : Option Token) (x : TokenType) (token : Text) (rows : List Token)
      → or_fallback decode p now o (some (x ∷ [])) token rows
        ≡ first_or o (lookup_by_value p now (x ∷ []) token rows)
  fallback-first_or (some t) x token rows = refl
  fallback-first_or none x token rows = refl

  fallback_none :
      (o : Option Token) (token : Text) (rows : List Token)
      → or_fallback decode p now o none token rows ≡ o
  fallback_none (some t) token rows = refl
  fallback_none none token rows = refl

  opaque_types :
      (b : Bool) (x y : Types) (token : Text) (rows : List Token)
      → b ≡ false
      → find_token decode p now (if b then x else y) token rows
        ≡ find_token decode p now y token rows
  opaque_types true x y token rows h = cc
  opaque_types false x y token rows h = refl

  -- The rows of the value that have not expired.
  abbrev pub candidates : Text → List Token → List Token
  candidates token rows = by_value p token (valid now rows)

  by_hint :
      (hint : Option Text) (token : Text) (rows : List Token)
      → AtMostOne (type_in both_types) (candidates token rows)
      → find_token decode p now (types_by_hint hint) token rows
        ≡ lookup_by_value p now both_types token rows
  unfolding lookup_by_value
  by_hint none token rows h = fallback_none _ token rows
  by_hint (some hint) token rows h = elim (Bool-cases (hint == codes "access_token")) [
    | inl e ↦ rw e (
        fallback-first_or _ refresh_token token rows
        ∙ only-either (type_in (access_token ∷ [])) (type_in (refresh_token ∷ []))
            (type_in both_types) (one_of_two access_token refresh_token) (λ t. not_refresh t.type)
            (candidates token rows) h)
    | inr e ↦ elim (Bool-cases (hint == codes "refresh_token")) [
      | inl f ↦ rw e (
          rw f (
            fallback-first_or _ access_token token rows
            ∙ only-either (type_in (refresh_token ∷ [])) (type_in (access_token ∷ []))
                (type_in both_types) access_or_refresh (λ t. not_access t.type)
                (candidates token rows) h))
      | inr f ↦ rw e (rw f (fallback_none _ token rows))
    ]
  ]

  -- Of an opaque token, whose digest stands at most once among the access and refresh tokens that
  -- have not expired, an introspection tells every caller the same, whatever the hint: namely what the
  -- caller may know of the token that a search of both kinds finds. So a wrong hint, or one that is
  -- unknown, hides nothing.
  pub introspect_token-hint :
      (is_introspection_allowed : Token → Client → Bool) (caller : Client) (token : Text)
      (hint : Option Text) (rows : List Token)
      → is_jwt_token token ≡ false
      → AtMostOne (type_in both_types) (candidates token rows)
      → introspect_token decode p now is_introspection_allowed true caller token hint rows
        ≡ ok (
            disclose decode p now is_introspection_allowed caller
              (lookup_by_value p now both_types token rows))
  unfolding introspect_token determine_token_type
  introspect_token-hint allowed caller token hint rows opaque h =
      ap (λ o. ok (disclose decode p now allowed caller o))
        (opaque_types (is_jwt_token token) _ _ token rows opaque ∙ by_hint hint token rows h)
