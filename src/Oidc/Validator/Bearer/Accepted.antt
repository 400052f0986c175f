-- ===== src/Oidc/Validator/Bearer/Accepted.antt =====
-- allauth/idp/oidc/internal/oauthlib/request_validator.py: when an access token opens a resource.
use django_allauth.Prelude.{
  ℕ, ◌≡◌, refl, ◌↔◌, Bool, true, false, not, ◌&&◌, Option, none, some, List, [], ◌∷◌, Text, text_eq,
  arith, if◌then◌else◌, ap, ◌∙◌, sym, Bool-cases, inl, inr,
}
use django_allauth.Statekit.{truthy}
use django_allauth.Oidc.Models.{Client, is_public, without_secret, is_subset}
use django_allauth.Oidc.Context.{Token, access_token, Provider}
use django_allauth.Oidc.Tokens.{lookup_token}
use django_allauth.Oidc.Tokens
use django_allauth.Oidc.Validator.{Session, supports}
use django_allauth.Oidc.Validator.Bearer.{
  is_same, user_of, client_of, is_blocked, bearer_client, bearer_found, validate_bearer_token,
}

both {ℓ} :
    {A : Type ℓ} (b c : Bool) (x y : A)
    → b ≡ false
    → c ≡ true
    → (if b then x else if not c then x else y) ≡ y
both true c x y h k = cc
both false true x y h k = refl
both false false x y h k = cc

refused_not {ℓ} : {A : Type ℓ} (b : Bool) (x y : A) → b ≡ false → (if b then x else y) ≡ y
refused_not true x y h = cc
refused_not false x y h = refl

module _ (p : Provider) (value : Text) (scopes : List Text) (v : Session) where
  -- The request as the token leaves it.
  abbrev pub opened : Token → Client → Session
  opened t client = record {
    request = record v.request {
      client = some client;
      user = user_of p t;
      scopes = Tokens.get_scopes t;
      access_token = some value;
    };
    ctx = record v.ctx { access_token = some t };
  }

  -- What a valid token must satisfy.
  pub record Opens (t : Token) (v' : Session) : Type 0 where
    pub user_active : is_blocked p (user_of p t) ≡ false
    pub scopes_granted : is_subset scopes (Tokens.get_scopes t) ≡ true
    pub client : Client
    pub known : client_of p t ≡ some client
    pub method : (is_public client.type && not (supports p without_secret v)) ≡ false
    pub after : v' ≡ opened t client

  client-inv :
      (t : Token) (o : Option Client) {v' : Session}
      → bearer_client p value t o (record v { request = record v.request { user = user_of p t } })
        ≡ (true, v')
      → (client : Client) × (o ≡ some client)
        × ((is_public client.type && not (supports p without_secret v)) ≡ false)
        × (v' ≡ opened t client)
  client-inv t none h = cc
  client-inv t (some client) h =
      elim (Bool-cases (is_public client.type && not (supports p without_secret v))) [
        | inl e ↦ cc
        | inr e ↦ (client, refl, e, ground arith)
      ]

  found-inv :
      (o : Option Token) {v' : Session}
      → bearer_found p value scopes o v ≡ (true, v')
      → (t : Token) × (o ≡ some t) × Opens t v'
  found-inv none h = cc
  found-inv (some t) h = elim (Bool-cases (is_blocked p (user_of p t))) [
    | inl e ↦ cc
    | inr active ↦ elim (Bool-cases (is_subset scopes (Tokens.get_scopes t))) [
      | inl granted ↦
          let (client, known, method, after) = client-inv t (client_of p t) (ground arith) in
          (
            t,
            refl,
            record {
              user_active = active;
              scopes_granted = granted;
              client = client;
              known = known;
              method = method;
              after = after;
            },
          )
      | inr e ↦ cc
    ]
  ]

  Opens-found :
      (t : Token) {v' : Session} → Opens t v' → bearer_found p value scopes (some t) v ≡ (true, v')
  Opens-found t r =
      let v1 = record v { request = record v.request { user = user_of p t } } in
      both (is_blocked p (user_of p t)) (is_subset scopes (Tokens.get_scopes t)) (false, v)
        (bearer_client p value t (client_of p t) v1) r.user_active r.scopes_granted
      ∙ ap (λ o. bearer_client p value t o v1) r.known
      ∙ refused_not (is_public r.client.type && not (supports p without_secret v)) _ _ r.method
      ∙ ap (λ x. (true, x)) (sym r.after)

module _ (p : Provider) (now : ℕ) (in_query : Option Text) where
  -- A request with an access token is let in exactly when all of this holds: the token is not empty
  -- and does not stand in the query of the URI; the table holds it and it has not expired; its user,
  -- where it has one, is active; its scopes contain those that are asked for; and it belongs to a
  -- client, which is confidential unless clients without a secret are supported. The request then
  -- carries this client, this user and the scopes of the token, whatever it carried before.
  pub validate_bearer_token_iff :
      (value : Text) (scopes : List Text) (rows : List Token) (v v' : Session)
      → (validate_bearer_token p now in_query value scopes rows v ≡ (true, v')) ↔ (
          (truthy (some value) ≡ true)
          × (is_same in_query value ≡ false)
          × ((t : Token) × (lookup_token p now access_token value rows ≡ some t)
              × Opens p value scopes v t v'))
  unfolding validate_bearer_token
  validate_bearer_token_iff [] scopes rows v v' = (λ h. cc, λ h. cc)
  validate_bearer_token_iff (x ∷ value) scopes rows v v' =
      let found = lookup_token p now access_token (x ∷ value) rows in
      (
        λ h. elim (Bool-cases (is_same in_query (x ∷ value))) [
          | inl e ↦ cc
          | inr e ↦ (refl, e, found-inv p (x ∷ value) scopes v found (ground arith))
        ],
        λ h.
            let (filled, elsewhere, found_one) = h in
            let (t, stored, opens) = found_one in
            refused_not (is_same in_query (x ∷ value)) _ _ elsewhere
            ∙ ap (λ o. bearer_found p (x ∷ value) scopes o v) stored
            ∙ Opens-found p (x ∷ value) scopes v t opens,
      )
