-- ===== src/Oidc/DeviceCodes/Life/Confirmed.antt =====
-- allauth/idp/oidc/internal/oauthlib/device_codes.py: no grant without a confirmation.
use django_allauth.Prelude.{
  ℕ, ◌≡◌, true, Option, some, none, List, [], ◌∷◌, Text, text_eq, lookup, subst, sym, ◌∙◌, arith,
}
use django_allauth.Cache.{Cache}
use django_allauth.Oidc.Results.{ok}
use django_allauth.Oidc.Context.{User, Provider, ValidatorContext}
use django_allauth.Oidc.Stored.{DeviceData, Entry}
use django_allauth.Oidc.DeviceCodes.{given, poll_device_code}
use django_allauth.Oidc.DeviceCodes.Polling.{Granted, poll_device_code_iff}
use django_allauth.Oidc.DeviceCodes.Life.{Event, World, run, LastHandedOut, DecidedSince}
use django_allauth.Oidc.DeviceCodes.Life.Holding.{Holds}
use django_allauth.Oidc.DeviceCodes.Life.Backing.{Backed, run-Backed}

given-ok_inv : (o : Option Text) {t : Text} → given o ≡ ok t → o ≡ some t
given-ok_inv none h = cc
given-ok_inv (some []) h = cc
given-ok_inv (some (x ∷ t)) h = cc

same_value {ℓ} : {A : Type ℓ} {b : A} (a : A) → some a ≡ some b → a ≡ b
same_value a h = cc

-- The request names the code and the client to whom it was handed out last; since then, an active
-- user has confirmed this very code.
pub record IsEarned (p : Provider) (client_id device_code : Option Text) (es : List Event)
    (user : User) : Type 0 where
  pub cid : Text
  pub dc : Text
  pub pk : Text
  pub from_client : client_id ≡ some cid
  pub for_code : device_code ≡ some dc
  pub handed_to : LastHandedOut dc cid es
  pub confirmed : DecidedSince dc pk true es
  pub known : lookup pk p.users ≡ some user
  pub active : user.is_active ≡ true

module _ (c : Cache Entry) (p : Provider) where
  open c use {State}

  Granted-IsEarned :
      (es : List Event) (now : ℕ) (s : State) (client_id device_code : Option Text)
      (ctx : ValidatorContext) (user : User) (e : DeviceData)
      → Holds c (Backed es) now s
      → Granted c p now client_id device_code ctx s user e
      → IsEarned p client_id device_code es user
  Granted-IsEarned es now s client_id device_code ctx user e h g =
      let r = g.passed in
      let found = h now (omega arith) g.dc g.found r.stored in
      let (pk, decided_by, since) = found.backed true g.confirmed in
      let same : pk ≡ g.named.pk = same_value _ (sym decided_by ∙ g.named.decided_by) in
      record {
        cid = r.cid;
        dc = g.dc;
        pk = pk;
        from_client = given-ok_inv client_id r.named_client;
        for_code = given-ok_inv device_code r.named_code;
        handed_to = subst (λ x. LastHandedOut g.dc x es) r.same_client found.registered;
        confirmed = since;
        known = subst (λ x. lookup x p.users ≡ some user) (sym same) g.named.known;
        active = g.named.active;
      }

  -- Whatever calls hand out, decide and poll device codes, in whatever order and at whatever times,
  -- from a cache that holds no device code: when a poll hands out a grant for a user, then the code it
  -- names was handed out to the client it names, and since the last time that it was, this user, who
  -- exists and is active, has confirmed this code.
  pub poll_device_code-IsEarned :
      (es : List Event) (w : World State) (client_id device_code : Option Text)
      (ctx : ValidatorContext) (user : User) (e : DeviceData)
      → Holds c (λ dc d. ⊥) w.now w.cache
      → let w' = run c p es w in
        (poll_device_code c p w'.now client_id device_code ctx w'.cache).0 ≡ ok (user, e)
        → IsEarned p client_id device_code es user
  poll_device_code-IsEarned es w client_id device_code ctx user e empty h =
      let w' = run c p es w in
      Granted-IsEarned es w'.now w'.cache client_id device_code ctx user e
        (run-Backed c p es w empty)
        ((poll_device_code_iff c p w'.now client_id device_code ctx w'.cache user e).0 h)
