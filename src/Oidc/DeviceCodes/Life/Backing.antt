-- ===== src/Oidc/DeviceCodes/Life/Backing.antt =====
-- allauth/idp/oidc/internal/oauthlib/device_codes.py: what the cache holds of a device code goes back
-- to calls that were made since the code was handed out.
use django_allauth.Prelude.{ℕ, ◌≡◌, refl, Bool, some, List, [], ◌∷◌, Text, text_eq, inl, inr}
use django_allauth.Cache.{Cache}
use django_allauth.Oidc.Context.{Provider}
use django_allauth.Oidc.Stored.{DeviceData, Entry}
use django_allauth.Oidc.DeviceCodes.Life.Holding.{Holds, Carries, step-Holds}
use django_allauth.Oidc.DeviceCodes.Life.{
  Event, handed_out, decided, polled_for, passed, World, run, Keeps, LastHandedOut, DecidedSince,
}

-- What is held of a code was handed out to its client, and a decision on it was made since.
pub record Backed (es : List Event) (dc : Text) (d : DeviceData) : Type 0 where
  pub registered : LastHandedOut dc d.client_id es
  pub backed :
      (b : Bool) → d.granted ≡ some b → (pk : Text) × (d.user ≡ some pk) × DecidedSince dc pk b es

Backed-later :
    (e : Event) (es : List Event) (dc : Text) (d : DeviceData)
    → Keeps dc e
    → Backed es dc d
    → Backed (e ∷ es) dc d
Backed-later e es dc d k r = record {
  registered = inr (k, r.registered);
  backed = λ b g. let (pk, named, since) = r.backed b g in (pk, named, inr (k, since));
}

event-Carries :
    (e : Event) (es : List Event) (now : ℕ) → Carries e now (Backed es) (Backed (e ∷ es))
event-Carries (handed_out client_id scope device ctx) es now =
    let e = handed_out client_id scope device ctx in
    (
      record { registered = inl (refl, refl); backed = λ b g. cc },
      λ j ne d. Backed-later e es j d ne,
    )
event-Carries (decided user dc confirm) es now =
    let e = decided user dc confirm in
    (
      λ d r. record {
        registered = inr (tt, r.registered);
        backed = λ b g. (user.pk, refl, inl (refl, refl, cc));
      },
      λ j d. Backed-later e es j d tt,
    )
event-Carries (polled_for client_id device_code ctx) es now =
    let e = polled_for client_id device_code ctx in
    (
      λ j d r. record {
        registered = inr (tt, r.registered);
        backed = λ b g. let (pk, named, since) = r.backed b g in (pk, named, inr (tt, since));
      },
      λ j d. Backed-later e es j d tt,
    )
event-Carries (passed time) es now = λ j d. Backed-later (passed time) es j d tt

module _ (c : Cache Entry) (p : Provider) where
  open c use {State}

  -- Whatever calls are made in whatever order, from a cache that holds no device code yet.
  pub run-Backed :
      (es : List Event) (w : World State)
      → Holds c (λ dc d. ⊥) w.now w.cache
      → let w' = run c p es w in Holds c (Backed es) w'.now w'.cache
  unfolding run
  run-Backed [] w h = λ later le dc d found. absurd (h later le dc d found)
  run-Backed (e ∷ es) w h =
      let w' = run c p es w in
      step-Holds c p (Backed es) (Backed (e ∷ es)) e w' (event-Carries e es w'.now)
        (run-Backed es w h)
