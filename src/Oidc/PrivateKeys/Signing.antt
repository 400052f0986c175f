-- ===== src/Oidc/PrivateKeys/Signing.antt =====
-- allauth/idp/oidc/internal/private_keys.py: the key that signs, and how long keys may be cached.
use django_allauth.Prelude.{
  ℕ, ◌+◌, ◌*◌, ◌≤◌, ◌≡◌, refl, Bool, true, false, ◌&&◌, Option, none, some, List, [], ◌∷◌, keep,
  arith, All, if◌then◌else◌, Bool-cases, inl, inr, ◌⊎◌, subst, sym,
}
use django_allauth.Oidc.PrivateKeys.{
  PrivateKey, did_activate, is_active, filter_keys, signing_priority, is_higher, highest_from,
  pick_signing_key, get_signing_key, clamp, clamp_all, get_jwks_cache_control,
}

-- The key may be cached for so many seconds.
abbrev pub OutlivesCache : ℕ → ℕ → Option ℕ → Type 0
OutlivesCache now seconds none = Unit
OutlivesCache now seconds (some expires_at) = now + seconds * 1000 ≤ expires_at

clamp-le : (now c : ℕ) (e : Option ℕ) → clamp now c e ≤ c
clamp-le now c none = omega arith
clamp-le now c (some e) = ground arith

clamp_all-le : (now c : ℕ) (keys : List PrivateKey) → clamp_all now c keys ≤ c
clamp_all-le now c [] = omega arith
clamp_all-le now c (k ∷ keys) =
    omega (arith, clamp_all-le now (clamp now c k.expires_at) keys, clamp-le now c k.expires_at)

clamped :
    (now c d : ℕ) (e : Option ℕ)
    → is_active now e ≡ true
    → d ≤ clamp now c e
    → OutlivesCache now d e
clamped now c d none h le = tt
clamped now c d (some e) h le = ground arith

clamp_all-OutlivesCache :
    (now c : ℕ) (keys : List PrivateKey)
    → All (λ k. is_active now k.expires_at ≡ true) keys
    → All (λ k. OutlivesCache now (clamp_all now c keys) k.expires_at) keys
clamp_all-OutlivesCache now c [] h = tt
clamp_all-OutlivesCache now c (k ∷ keys) (h, hs) = (
  clamped now c _ k.expires_at h (clamp_all-le now (clamp now c k.expires_at) keys),
  clamp_all-OutlivesCache now (clamp now c k.expires_at) keys hs,
)

keep-All : {A : Type 0} (f : A → Bool) (keys : List A) → All (λ k. f k ≡ true) (keep f keys)
keep-All f [] = tt
keep-All f (k ∷ keys) = elim (Bool-cases (f k)) [
  | inl e ↦ rw e (e, keep-All f keys)
  | inr e ↦ rw e (keep-All f keys)
]

-- The time for which the published keys may be cached is at most the one that is configured, and no
-- published key expires within it. So a client that fetches the keys again when it is over never
-- verifies by a key whose time is over.
pub jwks-OutlivesCache :
    (now configured : ℕ) (keys : List PrivateKey)
    → let seconds = get_jwks_cache_control now configured keys in
      (seconds ≤ configured)
      × All (λ k. OutlivesCache now seconds k.expires_at) (filter_keys now keys false true)
unfolding get_jwks_cache_control filter_keys
jwks-OutlivesCache now configured keys =
    let published = keep (λ k. is_active now k.expires_at) keys in
    (
      clamp_all-le now configured published,
      clamp_all-OutlivesCache now configured published
          (keep-All (λ k. is_active now k.expires_at) keys),
    )

higher_trans :
    (a b c : Option ℕ) → is_higher a b ≡ false → is_higher b c ≡ false → is_higher a c ≡ false
higher_trans none b c h k = refl
higher_trans (some a) none c h k = cc
higher_trans (some a) (some b) none h k = cc
higher_trans (some a) (some b) (some c) h k = ground arith

higher_refl : (a : Option ℕ) → is_higher a a ≡ false
higher_refl none = refl
higher_refl (some a) = ground arith

higher_asym : (a b : Option ℕ) → is_higher a b ≡ true → is_higher b a ≡ false
higher_asym none b h = cc
higher_asym (some a) none h = refl
higher_asym (some a) (some b) h = ground arith

-- No key of the list is newer.
abbrev pub Newest : PrivateKey → List PrivateKey → Type 0
Newest k = All (λ j. is_higher (signing_priority j) (signing_priority k) ≡ false)

highest_from-All :
    (P : PrivateKey → Type 0) (best : PrivateKey) (keys : List PrivateKey)
    → P best
    → All P keys
    → P (highest_from best keys)
highest_from-All P best [] h hs = h
highest_from-All P best (k ∷ keys) h (hk, hs) =
    elim (Bool-cases (is_higher (signing_priority k) (signing_priority best))) [
      | inl e ↦ rw e (highest_from-All P k keys hk hs)
      | inr e ↦ rw e (highest_from-All P best keys h hs)
    ]

Newest-highest_from :
    (best : PrivateKey) (keys : List PrivateKey) → Newest (highest_from best keys) (best ∷ keys)
Newest-highest_from best [] = (higher_refl (signing_priority best), tt)
Newest-highest_from best (k ∷ keys) =
    let chosen : Bool → PrivateKey = λ b. highest_from (if b then k else best) keys in
    elim (Bool-cases (is_higher (signing_priority k) (signing_priority best))) [
      | inl e ↦
          let (top, rest) = Newest-highest_from k keys in
          subst (λ b. Newest (chosen b) (best ∷ k ∷ keys)) (sym e)
            (
              higher_trans (signing_priority best) (signing_priority k) _
                  (higher_asym (signing_priority k) (signing_priority best) e) top,
              (top, rest),
            )
      | inr e ↦
          let (top, rest) = Newest-highest_from best keys in
          subst (λ b. Newest (chosen b) (best ∷ k ∷ keys)) (sym e)
            (top, (higher_trans (signing_priority k) (signing_priority best) _ e top, rest))
    ]

-- What the key that signs must satisfy: its time has begun and is not over.
abbrev pub IsUsable : ℕ → PrivateKey → Type 0
IsUsable now k = (did_activate now k.not_before ≡ true) × (is_active now k.expires_at ≡ true)

both_true : (a b : Bool) → (a && b) ≡ true → (a ≡ true) × (b ≡ true)
both_true true b h = (refl, h)
both_true false b h = cc

IsUsable-of :
    (now : ℕ) (keys : List PrivateKey)
    → All (λ k. (did_activate now k.not_before && is_active now k.expires_at) ≡ true) keys
    → All (IsUsable now) keys
IsUsable-of now [] h = tt
IsUsable-of now (k ∷ keys) (h, hs) = (both_true _ _ h, IsUsable-of now keys hs)

usable : (now : ℕ) (keys : List PrivateKey) → All (IsUsable now) (filter_keys now keys true true)
unfolding filter_keys
usable now keys =
    IsUsable-of now _
      (keep-All (λ k. did_activate now k.not_before && is_active now k.expires_at) keys)

picked :
    (now : ℕ) (ks : List PrivateKey)
    → All (IsUsable now) ks
    → ((pick_signing_key ks ≡ none) × (ks ≡ []))
      ⊎ ((k : PrivateKey) × (pick_signing_key ks ≡ some k) × IsUsable now k × Newest k ks)
unfolding pick_signing_key
picked now [] h = inl (refl, refl)
picked now (k ∷ ks) (h, hs) =
    inr
      (highest_from k ks, refl, highest_from-All (IsUsable now) k ks h hs, Newest-highest_from k ks)

-- The key that signs new tokens is one whose time has begun and is not over, and none of those is
-- newer. There is one whenever there is such a key.
pub get_signing_key-Newest :
    (now : ℕ) (keys : List PrivateKey)
    → ((get_signing_key now keys ≡ none) × (filter_keys now keys true true ≡ []))
      ⊎ ((k : PrivateKey) × (get_signing_key now keys ≡ some k)
          × IsUsable now k
          × Newest k (filter_keys now keys true true))
unfolding get_signing_key
get_signing_key-Newest now keys = picked now (filter_keys now keys true true) (usable now keys)
