-- ===== src/Oidc/DeviceCodes/Life/Spent.antt =====
-- allauth/idp/oidc/internal/oauthlib/device_codes.py: a confirmed code is good for one grant.
use django_allauth.Prelude.{
  ℕ, ◌≡◌, ◌≢◌, refl, Bool, true, false, Option, none, some, List, [], ◌∷◌, ◌==◌, Text, text_eq,
  arith, ap, sym, ◌∙◌, if◌then◌else◌, All, eq_refl, subst,
}
use django_allauth.Cache.{Cache}
use django_allauth.Oidc.Results.{ok}
use django_allauth.Oidc.Context.{User, Provider, ValidatorContext}
use django_allauth.Oidc.Stored.{DeviceData, Entry, cache_device_code_key, device_code_key-eq}
use django_allauth.Oidc.DeviceCodes.{
  state_of, given, answer, poll_checked, check_poll, poll_device_code, update_device_state,
}
use django_allauth.Oidc.DeviceCodes.Polling.{
  Granted, Passed-check_poll, polled, poll_device_code_iff,
}
use django_allauth.Oidc.DeviceCodes.Life.{
  Event, handed_out, decided, polled_for, passed, World, step, run, Keeps,
}
use django_allauth.Oidc.DeviceCodes.Life.Holding.{Holds, Carries, step-Holds}

-- Another code than this one.
abbrev pub Other : Text → Text → DeviceData → Type 0
Other dc j d = (dc == j) ≡ false

event-Carries : (dc : Text) (e : Event) (now : ℕ) → Keeps dc e → Carries e now (Other dc) (Other dc)
event-Carries dc (handed_out client_id scope device ctx) now k = (
  ground (arith, text_eq.agrees device.device_code dc, text_eq.agrees dc device.device_code),
  λ j ne d o. o,
)
event-Carries dc (decided user device_code confirm) now k = (λ d o. o, λ j d o. o)
event-Carries dc (polled_for client_id device_code ctx) now k = (λ j d o. o, λ j d o. o)
event-Carries dc (passed time) now k = λ j d o. o

module _ (c : Cache Entry) (p : Provider) where
  open c use {State, get, delete, get-delete}

  run-Other :
      (dc : Text) (es : List Event) (w : World State)
      → All (Keeps dc) es
      → Holds c (Other dc) w.now w.cache
      → let w' = run c p es w in Holds c (Other dc) w'.now w'.cache
  unfolding run
  run-Other dc [] w k h = h
  run-Other dc (e ∷ es) w k h =
      let w' = run c p es w in
      step-Holds c p (Other dc) (Other dc) e w' (event-Carries dc e w'.now k.0)
        (run-Other dc es w k.1 h)

  gone :
      (b : Bool) (o : Option Entry) {e : DeviceData}
      → state_of (if b then none else o) ≡ some e
      → b ≡ false
  gone true o h = cc
  gone false o h = refl

  delete-Other :
      (dc : Text) (now : ℕ) (s : State)
      → Holds c (Other dc) now (delete (cache_device_code_key dc) s)
  delete-Other dc now s later le j e found =
      sym (device_code_key-eq dc j)
      ∙ gone _ (get later (cache_device_code_key j) s) (
          sym
            (ap state_of (get-delete later (cache_device_code_key dc) (cache_device_code_key j) s))
          ∙ found)

  module _ (now : ℕ) (client_id device_code : Option Text) (ctx : ValidatorContext)
      (s : State) where
    Granted-deleted :
        {user : User} {e : DeviceData}
        → (g : Granted c p now client_id device_code ctx s user e)
        → (poll_checked c p now (check_poll c p now client_id device_code s) ctx s).1
          ≡ delete
              (cache_device_code_key g.dc)
              (update_device_state c now g.dc (polled now g.found) s).1
    unfolding poll_checked
    Granted-deleted g =
        ap (λ r. (poll_checked c p now r ctx s).1)
          (Passed-check_poll c p now client_id device_code s g.passed)
        ∙ ap
            (λ b.
              (answer c p g.dc (polled now g.found) b ctx
                (update_device_state c now g.dc (polled now g.found) s).1).1)
            g.confirmed

    Granted-Other :
        {user : User} {e : DeviceData}
        → (g : Granted c p now client_id device_code ctx s user e)
        → Holds c (Other g.dc) now (poll_device_code c p now client_id device_code ctx s).1
    unfolding poll_device_code
    Granted-Other g =
        subst (Holds c (Other g.dc) now) (sym (Granted-deleted g)) (delete-Other g.dc now _)

  named_code : (dc : Text) {t : Text} → given (some dc) ≡ ok t → t ≡ dc
  named_code [] h = cc
  named_code (x ∷ dc) h = cc

  -- The rest of the life of a code that has been granted.
  not-Granted :
      (dc : Text) (w : World State) (client_id : Option Text) (ctx : ValidatorContext) (user : User)
      (e : DeviceData)
      → Holds c (Other dc) w.now w.cache
      → ¬ Granted c p w.now client_id (some dc) ctx w.cache user e
  not-Granted dc w client_id ctx user e h g =
      let same = named_code dc g.passed.named_code in
      let other = h w.now (omega arith) g.dc g.found g.passed.stored in
      let itself = eq_refl dc in cc

  -- A poll that hands out a grant uses the code up: until that code is handed out again, no later
  -- poll for it, by whatever client, hands out a grant, whatever calls of polls and decisions come in
  -- between and however much time passes.
  pub poll_device_code_once :
      (w : World State) (client_id : Option Text) (dc : Text) (ctx : ValidatorContext) (user : User)
      (e : DeviceData)
      → (poll_device_code c p w.now client_id (some dc) ctx w.cache).0 ≡ ok (user, e)
      → (es : List Event) → All (Keeps dc) es
      → (later_client : Option Text) (later_ctx : ValidatorContext) (later_user : User)
        (later_e : DeviceData)
      → let w' = run c p es (step c p (polled_for client_id (some dc) ctx) w) in
        (poll_device_code c p w'.now later_client (some dc) later_ctx w'.cache).0
        ≢ ok (later_user, later_e)
  unfolding step
  poll_device_code_once w client_id dc ctx user e h es k later_client later_ctx later_user later_e
        again =
      let g = (poll_device_code_iff c p w.now client_id (some dc) ctx w.cache user e).0 h in
      let spent = Granted-Other w.now client_id (some dc) ctx w.cache g in
      let w1 = step c p (polled_for client_id (some dc) ctx) w in
      let w' = run c p es w1 in
      not-Granted dc w' later_client later_ctx later_user later_e
        (run-Other dc es w1 k (
          subst (λ x. Holds c (Other x) w1.now w1.cache) (named_code dc g.passed.named_code) spent))
        ((poll_device_code_iff c p w'.now later_client (some dc) later_ctx w'.cache later_user
            later_e).0
          again)
