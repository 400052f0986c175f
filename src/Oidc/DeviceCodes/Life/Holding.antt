-- ===== src/Oidc/DeviceCodes/Life/Holding.antt =====
-- allauth/idp/oidc/internal/oauthlib/device_codes.py: what each call does to the device codes that
-- the cache holds.
use django_allauth.Prelude.{
  ℕ, ◌+◌, ◌-◌, ◌*◌, ◌/◌, ◌≤◌, ◌≡◌, refl, Bool, true, false, Option, none, some, ◌==◌, Text, text_eq,
  inl, inr, arith, ltb, if◌then◌else◌, Bool-cases, is_some, ap, sym, ◌∙◌, subst, leb,
}
use django_allauth.Cache.{Cache}
use django_allauth.Oidc.Results.{Result, ok, err}
use django_allauth.Oidc.Context.{User, Provider, ValidatorContext}
use django_allauth.Oidc.Stored.{
  DeviceData, Entry, device_state, device_code_of, cache_device_code_key, cache_user_code_key,
  device_code_key-eq,
}
use django_allauth.Oidc.DeviceCodes.{
  state_of, data_at, new_state, create, update_device_state, decide, confirm_or_deny_device_code,
  answer, poll_checked, check_poll, poll_device_code,
}
use django_allauth.Oidc.DeviceCodes.Polling.{check_poll-Passed, polled}
use django_allauth.Oidc.DeviceCodes.Life.{
  Event, handed_out, decided, polled_for, passed, World, step,
}

module _ (c : Cache Entry) where
  open c use {State, get, set, delete, get-set, get-delete}

  -- From now on, whatever the cache still holds of a code satisfies the predicate.
  abbrev pub Holds : (Text → DeviceData → Type 0) → ℕ → State → Type 0
  Holds P now s =
      (later : ℕ)
      → now ≤ later
      → (dc : Text) (d : DeviceData) → data_at c later dc s ≡ some d
      → P dc d

  abbrev kept_until : Bool → Entry → Option Entry
  kept_until b v = if b then some v else none

  state-kept :
      (b : Bool) (d e : DeviceData) → state_of (kept_until b (device_state d)) ≡ some e → e ≡ d
  state-kept true d e h = cc
  state-kept false d e h = cc

  at_key :
      (Q : DeviceData → Type 0) (same live : Bool) (d e : DeviceData) (rest : Option Entry)
      → (same ≡ true → Q d)
      → (same ≡ false → state_of rest ≡ some e → Q e)
      → state_of (if same then kept_until live (device_state d) else rest) ≡ some e
      → Q e
  at_key Q true live d e rest here there h = subst Q (sym (state-kept live d e h)) (here refl)
  at_key Q false live d e rest here there h = there refl h

  data_at-set :
      (now later : ℕ) (dc j : Text) (d : DeviceData) (timeout : ℕ) (s : State)
      → now ≤ later
      → data_at c later j (set now (cache_device_code_key dc) (device_state d) timeout s)
        ≡ state_of (
            if dc == j
            then kept_until (ltb later (now + timeout)) (device_state d)
            else get later (cache_device_code_key j) s)
  data_at-set now later dc j d timeout s le =
      ap state_of (
        get-set now later (cache_device_code_key dc) (cache_device_code_key j) (device_state d)
          timeout s le)
      ∙ ap
          (λ b. state_of (
            if b
            then kept_until (ltb later (now + timeout)) (device_state d)
            else get later (cache_device_code_key j) s))
          (device_code_key-eq dc j)

  module _ (P Q : Text → DeviceData → Type 0) (now : ℕ) (s : State) where
    -- The state of one code is written, and that of the others stays.
    Holds-set :
        (dc : Text) (d : DeviceData) (timeout : ℕ)
        → Q dc d
        → ((j : Text) → (dc == j) ≡ false → (e : DeviceData) → P j e → Q j e)
        → Holds P now s
        → Holds Q now (set now (cache_device_code_key dc) (device_state d) timeout s)
    Holds-set dc d timeout here others h later le j e found =
        at_key (Q j) (dc == j) (ltb later (now + timeout)) d e
          (get later (cache_device_code_key j) s)
          (λ t. subst (λ x. Q x d) ((text_eq.agrees dc j).0 t) here)
          (λ f r. others j f e (h later le j e r))
          (sym (data_at-set now later dc j d timeout s le) ∙ found)

    Holds-weaken : ((j : Text) (e : DeviceData) → P j e → Q j e) → Holds P now s → Holds Q now s
    Holds-weaken w h later le j e found = w j e (h later le j e found)

  module _ (P : Text → DeviceData → Type 0) (now : ℕ) (s : State) where
    Holds-set_code :
        (user_code dc : Text) (timeout : ℕ)
        → Holds P now s
        → Holds P now (set now (cache_user_code_key user_code) (device_code_of dc) timeout s)
    Holds-set_code user_code dc timeout h later le j e found = h later le j e (
        sym (
          ap state_of (
            get-set now later (cache_user_code_key user_code) (cache_device_code_key j)
              (device_code_of dc) timeout s le))
        ∙ found)

    after_delete :
        (same : Bool) (e : DeviceData) (rest : Option Entry)
        → state_of (if same then none else rest) ≡ some e
        → state_of rest ≡ some e
    after_delete true e rest h = cc
    after_delete false e rest h = h

    Holds-delete : (dc : Text) → Holds P now s → Holds P now (delete (cache_device_code_key dc) s)
    Holds-delete dc h later le j e found = h later le j e (
        after_delete _ e _ (
          sym
            (ap state_of (get-delete later (cache_device_code_key dc) (cache_device_code_key j) s))
          ∙ found))

  module _ (P Q : Text → DeviceData → Type 0) (now : ℕ) (s : State) where
    Holds-update :
        (dc : Text) (d : DeviceData)
        → Q dc d
        → ((j : Text) (e : DeviceData) → P j e → Q j e)
        → Holds P now s
        → Holds Q now (update_device_state c now dc d s).1
    unfolding update_device_state
    Holds-update dc d here others h = elim (Bool-cases (leb (d.expires_at + 1000) now)) [
      | inl late ↦ rw late (Holds-weaken P Q now s others h)
      | inr early ↦ rw early (
          Holds-set P Q now s dc d ((d.expires_at - now) / 1000 * 1000) here (λ j ne e. others j e)
            h)
    ]

-- What is asked of two predicates, such that what the cache holds satisfies the second after an event
-- if it satisfied the first before.
abbrev pub Carries : Event → ℕ → (P Q : Text → DeviceData → Type 0) → Type 0
Carries (handed_out client_id scope device ctx) now P Q =
    Q device.device_code (new_state now client_id scope device ctx.requested_resources)
    × ((j : Text) → (device.device_code == j) ≡ false → (d : DeviceData) → P j d → Q j d)
Carries (decided user dc confirm) now P Q =
    ((d : DeviceData) → P dc d → Q dc (record d { granted = some confirm; user = some user.pk }))
    × ((j : Text) (d : DeviceData) → P j d → Q j d)
Carries (polled_for client_id device_code ctx) now P Q =
    ((j : Text) (d : DeviceData) → P j d → Q j (polled now d))
    × ((j : Text) (d : DeviceData) → P j d → Q j d)
Carries (passed time) now P Q = (j : Text) (d : DeviceData) → P j d → Q j d

module _ (c : Cache Entry) (p : Provider) (now : ℕ) (P Q : Text → DeviceData → Type 0) where
  open c use {State}

  decide-Holds :
      (user : User) (dc : Text) (confirm : Bool) (o : Option DeviceData) (s : State)
      → o ≡ data_at c now dc s
      → Carries (decided user dc confirm) now P Q
      → Holds c P now s
      → Holds c Q now (decide c now user dc confirm o s).1
  unfolding decide
  decide-Holds user dc confirm none s q (hit, keep) h = Holds-weaken c P Q now s keep h
  decide-Holds user dc confirm (some d) s q (hit, keep) h = elim (Bool-cases (is_some d.granted)) [
    | inl made ↦ rw made (Holds-weaken c P Q now s keep h)
    | inr undecided ↦
        rw undecided
          (Holds-update c P Q now s dc _ (hit d (h now (omega arith) dc d (sym q))) keep h)
  ]

  answer-Holds :
      (dc : Text) (d : DeviceData) (g : Option Bool) (ctx : ValidatorContext) (s : State)
      → Holds c Q now s
      → Holds c Q now (answer c p dc d g ctx s).1
  answer-Holds dc d none ctx s h = h
  answer-Holds dc d (some false) ctx s h = h
  answer-Holds dc d (some true) ctx s h = Holds-delete c Q now s dc h

  module _ (client_id device_code : Option Text) (ctx : ValidatorContext) (s : State) where
    checked-Holds :
        (r : Result (Text × DeviceData))
        → check_poll c p now client_id device_code s ≡ r
        → Carries (polled_for client_id device_code ctx) now P Q
        → Holds c P now s
        → Holds c Q now (poll_checked c p now r ctx s).1
    unfolding poll_checked
    checked-Holds (err x) q (hit, keep) h = Holds-weaken c P Q now s keep h
    checked-Holds (ok (dc, d)) q (hit, keep) h =
        let r = check_poll-Passed c p now client_id device_code s q in
        answer-Holds dc (polled now d) d.granted ctx _ (
          Holds-update c P Q now s dc (polled now d) (hit dc d (h now (omega arith) dc d r.stored))
            keep h)

module _ (c : Cache Entry) (p : Provider) (P Q : Text → DeviceData → Type 0) where
  open c use {State}

  pub step-Holds :
      (e : Event) (w : World State)
      → Carries e w.now P Q
      → Holds c P w.now w.cache
      → let w' = step c p e w in Holds c Q w'.now w'.cache
  unfolding step create confirm_or_deny_device_code poll_device_code
  step-Holds (handed_out client_id scope device ctx) w (hit, keep) h =
      Holds-set c P Q w.now _ device.device_code _ _ hit keep
        (Holds-set_code c P w.now w.cache device.user_code device.device_code _ h)
  step-Holds (decided user device_code confirm) w o h =
      decide-Holds c p w.now P Q user device_code confirm _ w.cache refl o h
  step-Holds (polled_for client_id device_code ctx) w o h =
      checked-Holds c p w.now P Q client_id device_code ctx w.cache _ refl o h
  step-Holds (passed time) w keep h =
      λ later le dc d found. keep dc d (h later (omega (arith, le)) dc d found)
