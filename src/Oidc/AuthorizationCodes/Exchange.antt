-- ===== src/Oidc/AuthorizationCodes/Exchange.antt =====
-- allauth/idp/oidc/internal/oauthlib/authorization_codes.py: a code is exchanged for what was granted.
use django_allauth.Prelude.{
  ℕ, ◌+◌, ◌*◌, ◌≤◌, ◌≡◌, refl, Bool, true, false, Option, none, some, ◌==◌, Text, text_eq, ap, ◌∙◌,
  sym, ltb, ◌≢◌, [], ◌∷◌, Bool-cases, inl, inr, if◌then◌else◌, eq_refl, subst,
}
use django_allauth.Cache.{Cache}
use django_allauth.Account.UserCode.{lower}
use django_allauth.Oidc.Models.{Client}
use django_allauth.Oidc.Context.{User, AuthorizationCode, Provider, Request, ValidatorContext}
use django_allauth.Oidc.Clients.{get_user_by_sub}
use django_allauth.Oidc.Stored.{Entry, authorization, cache_key}
use django_allauth.Oidc.AuthorizationCodes.{
  code_entry, kept_email, authorization_code, save_authorization_code, lookup_code,
  invalidate_authorization_code, with_pkce, accept, accept_found, validate_code,
}

-- The email that a code keeps, given the primary one of the user: none where there is none, or an
-- empty one, or one that is the primary one in lower case.
pub data KeptEmail (primary : Option Text) : Option Text → Option Text → Type 0 where
  no_email : KeptEmail primary none none
  empty_email : KeptEmail primary (some []) none
  primary_email : (e : Text) → e ≢ [] → primary ≡ some (lower e) → KeptEmail primary (some e) none
  other_email : (e : Text) → e ≢ [] → primary ≢ some (lower e) → KeptEmail primary (some e) (some e)

-- What the token endpoint is told of a code: whether it is accepted, and then what was granted, by
-- the request of the authorization endpoint and its context.
pub record Exchanged (alive : Bool) (primary : Option Text) (user : User) (granted : Request)
    (ctx : ValidatorContext) (asking : Request) (ctx' : ValidatorContext)
    (r : Bool × Request × ValidatorContext) : Type 0 where
  pub accepted : r.0 ≡ alive
  pub same_user : alive ≡ true → r.1.user ≡ some user
  pub same_scopes : alive ≡ true → r.1.scopes ≡ granted.scopes
  pub same_claims : alive ≡ true → r.1.claims ≡ granted.claims
  pub same_resources : alive ≡ true → r.2.granted_resources ≡ ctx.requested_resources
  pub kept : alive ≡ true → KeptEmail primary ctx.email r.2.email
  pub refused : alive ≡ false → r ≡ (false, asking, ctx')

kept_email-KeptEmail :
    (primary email : Option Text) → KeptEmail primary email (kept_email primary email)
kept_email-KeptEmail none none = no_email
kept_email-KeptEmail (some primary) none = no_email
kept_email-KeptEmail none (some []) = empty_email
kept_email-KeptEmail (some primary) (some []) = empty_email
kept_email-KeptEmail none (some (c ∷ e)) = other_email (c ∷ e) (λ h. cc) (λ h. cc)
kept_email-KeptEmail (some primary) (some (c ∷ e)) =
    let compared = text_eq.agrees primary (lower (c ∷ e)) in
    elim (Bool-cases (primary == lower (c ∷ e))) [
      | inl same ↦ rw same (primary_email (c ∷ e) (λ h. cc) (ap some (compared.0 same)))
      | inr other ↦
          rw other (other_email (c ∷ e) (λ h. cc) (λ h. let same = compared.1 (unsome h) in cc))
    ]
  where
    unsome : {s t : Text} → some s ≡ some t → s ≡ t
    unsome h = cc

with_pkce-user : (o : Option (Text × Option Text)) (r : Request) → (with_pkce o r).user ≡ r.user
with_pkce-user none r = refl
with_pkce-user (some (challenge, method)) r = refl

with_pkce-scopes :
    (o : Option (Text × Option Text)) (r : Request) → (with_pkce o r).scopes ≡ r.scopes
with_pkce-scopes none r = refl
with_pkce-scopes (some (challenge, method)) r = refl

module _ (c : Cache Entry) (p : Provider) where
  open c use {State, get, set, delete, get-set, get-delete}

  entry_alive :
      (b : Bool) (a : AuthorizationCode)
      → code_entry (if b then some (authorization a) else none) ≡ (if b then some a else none)
  entry_alive true a = refl
  entry_alive false a = refl

  module _ (now later : ℕ) (primary : Option Text) (client : Client) (code : Text) (user : User)
      (granted : Request) (ctx : ValidatorContext) (s : State) where
    abbrev alive : Bool
    alive = ltb later (now + p.settings.authorization_code_expires_in * 1000)

    abbrev granted_code : AuthorizationCode
    granted_code = authorization_code c p primary client code user granted ctx

    saved :
        now ≤ later
        → lookup_code c p later client.id code
            (save_authorization_code c p now primary client code user granted ctx s)
          ≡ (if alive then some granted_code else none)
    unfolding save_authorization_code
    saved le =
        let k = cache_key client.id code in
        ap code_entry (get-set now later k k (authorization granted_code) _ s le)
        ∙ ap
            (λ b. code_entry (
              if b
              then (if alive then some (authorization granted_code) else none)
              else get later k s))
            (eq_refl k)
        ∙ entry_alive alive granted_code

    accept-Exchanged :
        (asking : Request) (ctx' : ValidatorContext)
        → Exchanged true primary user granted ctx asking ctx'
            (accept c p (some user) granted_code asking ctx')
    accept-Exchanged asking ctx' =
        let base = record asking { scopes = granted.scopes; user = some user } in
        record {
          accepted = refl;
          same_user = λ h. with_pkce-user granted_code.pkce base;
          same_scopes = λ h. with_pkce-scopes granted_code.pkce base;
          same_claims = λ h. refl;
          same_resources = λ h. refl;
          kept = λ h. kept_email-KeptEmail primary ctx.email;
          refused = λ h. cc;
        }

    found-Exchanged :
        (b : Bool) (asking : Request) (ctx' : ValidatorContext)
        → get_user_by_sub p user.pk ≡ some user
        → Exchanged b primary user granted ctx asking ctx'
            (accept_found c p (if b then some granted_code else none) asking ctx')
    found-Exchanged true asking ctx' known =
        subst
          (λ o.
            Exchanged true primary user granted ctx asking ctx'
              (accept c p o granted_code asking ctx'))
          (sym known) (accept-Exchanged asking ctx')
    found-Exchanged false asking ctx' known = record {
      accepted = refl;
      same_user = λ h. cc;
      same_scopes = λ h. cc;
      same_claims = λ h. cc;
      same_resources = λ h. cc;
      kept = λ h. cc;
      refused = λ h. refl;
    }

  gone : (b : Bool) (o : Option Entry) → b ≡ true → code_entry (if b then none else o) ≡ none
  gone true o h = refl
  gone false o h = cc

  -- Authorization codes make a round trip. A code that is saved for a client, when a user has granted
  -- a request, is accepted from that client exactly as long as it lives, provided that the user still
  -- exists and is active. It then gives the request of the token endpoint the user who granted and the
  -- scopes and claims of the request that was granted, and the context the resources that were
  -- requested and the email that was chosen, if it is one and not the user's primary one; where it is
  -- refused, it changes nothing. Once the code was invalidated, it is refused at any later time.
  pub validate-save :
      (now later : ℕ) (primary : Option Text) (client : Client) (code : Text) (user : User)
      (granted asking : Request) (ctx ctx' : ValidatorContext) (s : State)
      → now ≤ later
      → get_user_by_sub p user.pk ≡ some user
      → let s' = save_authorization_code c p now primary client code user granted ctx s in
        Exchanged
          (ltb later (now + p.settings.authorization_code_expires_in * 1000))
          primary
          user
          granted
          ctx
          asking
          ctx'
          (validate_code c p later client.id code asking ctx' s')
        × (validate_code c p later client.id code asking ctx'
              (invalidate_authorization_code c p client.id code s')
            ≡ (false, asking, ctx'))
  unfolding validate_code invalidate_authorization_code
  validate-save now later primary client code user granted asking ctx ctx' s le known =
      let alive = ltb later (now + p.settings.authorization_code_expires_in * 1000) in
      let k = cache_key client.id code in
      let s' = save_authorization_code c p now primary client code user granted ctx s in
      (
        subst
            (λ o.
              Exchanged alive primary user granted ctx asking ctx' (accept_found c p o asking ctx'))
            (sym (saved now later primary client code user granted ctx s le))
            (found-Exchanged now later primary client code user granted ctx s alive asking ctx'
              known),
        ap (λ o. accept_found c p o asking ctx')
            (ap code_entry (get-delete later k k s') ∙ gone (k == k) (get later k s') (eq_refl k)),
      )
