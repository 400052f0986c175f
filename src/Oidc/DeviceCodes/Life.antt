-- ===== src/Oidc/DeviceCodes/Life.antt =====
-- allauth/idp/oidc/internal/oauthlib/device_codes.py: the life of device codes, as a sequence of
-- calls that hand out, decide and poll, in any order and at any time.
pub mod Holding
pub mod Backing
pub mod Confirmed
pub mod Spent
mod Tests
use django_allauth.Prelude.{
  ℕ, ◌+◌, ◌≡◌, Bool, false, Option, List, [], ◌∷◌, ◌==◌, ◌⊎◌, Text, text_eq,
}
use django_allauth.Cache.{Cache}
use django_allauth.Oidc.Context.{User, Provider, ValidatorContext}
use django_allauth.Oidc.Stored.{Device, Entry}
use django_allauth.Oidc.DeviceCodes.{create, confirm_or_deny_device_code, poll_device_code}

pub data Event : Type 0 where
  handed_out : Text → Option (List Text) → Device → ValidatorContext → Event
  decided : User → Text → Bool → Event
  polled_for : Option Text → Option Text → ValidatorContext → Event
  passed : ℕ → Event

pub record World (S : Type 0) : Type 0 where
  pub now : ℕ
  pub cache : S

module _ (c : Cache Entry) (p : Provider) where
  open c use {State}

  pub step : Event → World State → World State
  step (handed_out client_id scope device ctx) w = record w {
    cache = create c w.now client_id scope device ctx w.cache;
  }
  step (decided user device_code confirm) w = record w {
    cache = (confirm_or_deny_device_code c w.now user device_code confirm w.cache).1;
  }
  step (polled_for client_id device_code ctx) w = record w {
    cache = (poll_device_code c p w.now client_id device_code ctx w.cache).1;
  }
  step (passed time) w = record w { now = w.now + time }

  -- The events, the last one first.
  pub run : List Event → World State → World State
  unfolding step
  run [] w = w
  run (e ∷ es) w = step e (run es w)

-- The code is handed out to the client.
abbrev pub HandsOut : Text → Text → Event → Type 0
HandsOut dc cid (handed_out client_id scope device ctx) =
    (device.device_code ≡ dc) × (client_id ≡ cid)
HandsOut dc cid (decided user device_code confirm) = ⊥
HandsOut dc cid (polled_for client_id device_code ctx) = ⊥
HandsOut dc cid (passed time) = ⊥

-- The code is not handed out.
abbrev pub Keeps : Text → Event → Type 0
Keeps dc (handed_out client_id scope device ctx) = (device.device_code == dc) ≡ false
Keeps dc (decided user device_code confirm) = Unit
Keeps dc (polled_for client_id device_code ctx) = Unit
Keeps dc (passed time) = Unit

-- The user decides on the code.
abbrev pub Decides : Text → Text → Bool → Event → Type 0
Decides dc pk b (handed_out client_id scope device ctx) = ⊥
Decides dc pk b (decided user device_code confirm) =
    (device_code ≡ dc) × (user.pk ≡ pk) × (confirm ≡ b)
Decides dc pk b (polled_for client_id device_code ctx) = ⊥
Decides dc pk b (passed time) = ⊥

-- The code was handed out to the client when it was handed out last.
abbrev pub LastHandedOut : Text → Text → List Event → Type 0
LastHandedOut dc cid [] = ⊥
LastHandedOut dc cid (e ∷ es) = HandsOut dc cid e ⊎ (Keeps dc e × LastHandedOut dc cid es)

-- The user has decided on the code since it was handed out last.
abbrev pub DecidedSince : Text → Text → Bool → List Event → Type 0
DecidedSince dc pk b [] = ⊥
DecidedSince dc pk b (e ∷ es) = Decides dc pk b e ⊎ (Keeps dc e × DecidedSince dc pk b es)
