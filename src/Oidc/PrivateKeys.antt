-- ===== src/Oidc/PrivateKeys.antt =====
-- allauth/idp/oidc/internal/private_keys.py, and get_jwks_cache_control of
-- allauth/idp/oidc/adapter.py: the keys that sign and verify. Times are in milliseconds.
pub mod Signing
mod Tests
use django_allauth.Prelude.{
  ℕ, ◌-◌, ◌/◌, Bool, true, false, not, ◌&&◌, ◌||◌, Option, none, some, List, [], ◌∷◌, keep, leb,
  ltb, Text, if◌then◌else◌,
}

pub record PrivateKey : Type 0 where
  pub not_before : Option ℕ
  pub expires_at : Option ℕ
  pub issued_at : Option ℕ
  pub pem : Text

abbrev pub did_activate : ℕ → Option ℕ → Bool
did_activate now none = true
did_activate now (some t) = leb t now

abbrev pub is_active : ℕ → Option ℕ → Bool
is_active now none = true
is_active now (some t) = ltb now t

pub filter_keys : ℕ → List PrivateKey → Bool → Bool → List PrivateKey
filter_keys now keys activated active =
    keep
      (λ k.
        (not activated || did_activate now k.not_before)
        && (not active || is_active now k.expires_at))
      keys

-- `_signing_priority`: a key without a time stands below all others.
abbrev pub signing_priority : PrivateKey → Option ℕ
signing_priority k = elim k.issued_at [ some t ↦ some t | none ↦ k.not_before ]

abbrev pub is_higher : Option ℕ → Option ℕ → Bool
is_higher none other = false
is_higher (some a) none = true
is_higher (some a) (some b) = ltb b a

-- `max(keys, key=_signing_priority)`: the first of the highest.
abbrev pub highest_from : PrivateKey → List PrivateKey → PrivateKey
highest_from best [] = best
highest_from best (k ∷ keys) =
    highest_from (if is_higher (signing_priority k) (signing_priority best) then k else best) keys

pub pick_signing_key : List PrivateKey → Option PrivateKey
pick_signing_key [] = none
pick_signing_key (k ∷ keys) = some (highest_from k keys)

-- The key that signs, where there is one: `get_signing_key`.
pub get_signing_key : ℕ → List PrivateKey → Option PrivateKey
unfolding pick_signing_key filter_keys
get_signing_key now keys = pick_signing_key (filter_keys now keys true true)

abbrev clamp : ℕ → ℕ → Option ℕ → ℕ
clamp now cache_control none = cache_control
clamp now cache_control (some expires_at) =
    if ltb ((expires_at - now) / 1000) cache_control
    then (expires_at - now) / 1000
    else cache_control

abbrev pub clamp_all : ℕ → ℕ → List PrivateKey → ℕ
clamp_all now cache_control [] = cache_control
clamp_all now cache_control (k ∷ keys) = clamp_all now (clamp now cache_control k.expires_at) keys

-- In seconds; `max(0, …)` is for keys whose time is over, of which there are none.
pub get_jwks_cache_control : ℕ → ℕ → List PrivateKey → ℕ
unfolding filter_keys
get_jwks_cache_control now cache_control keys =
    clamp_all now cache_control (filter_keys now keys false true)
