-- ===== src/Mfa/Trust/Tests.antt =====
-- A signer that writes the trusts down as they are.
use django_allauth.Prelude.{
  ◌%◌, nat_eqb, if◌then◌else◌, ◌+◌, ◌*◌, ◌/◌, ◌≡◌, ◌≢◌, refl, true, Option, none, some, List, [],
  ◌∷◌, ◌++◌, arith, Text, text_eq, codes, ◌<◌, ◌↔◌, ◌⊎◌, inr, str, digits_of,
}
use django_allauth.Mfa.Trust.{Env, IssuedTrust, User, trust_browser, is_trusted_browser}
use django_allauth.Mfa.Trust.Cookie.{SameConfig, trusted_after}

-- A trust begins with an odd number, and its fingerprint is in even ones.
abbrev doubled : Text → Text
doubled [] = []
doubled (c ∷ s) = (c * 2) ∷ doubled s

abbrev written : List IssuedTrust → Text
written [] = []
written (t ∷ ts) = (t.at * 2 + 1) ∷ (doubled t.fingerprint ++ written ts)

-- The fingerprint that was read so far, from the end, and the trusts after it.
abbrev reading : Text → Text × List IssuedTrust
reading [] = ([], [])
reading (c ∷ s) =
    let (fingerprint, ts) = reading s in
    if nat_eqb (c % 2) 0
    then (c / 2 ∷ fingerprint, ts)
    else ([], record { fingerprint = fingerprint; at = c / 2 } ∷ ts)

reading-doubled :
    (s rest : Text) (ts : List IssuedTrust)
    → reading rest ≡ ([], ts)
    → reading (doubled s ++ rest) ≡ (s, ts)
reading-doubled [] rest ts h = h
reading-doubled (c ∷ s) rest ts h = ground (arith, reading-doubled s rest ts h)

reading-written : (ts : List IssuedTrust) → reading (written ts) ≡ ([], ts)
reading-written [] = refl
reading-written (t ∷ ts) =
    ground (arith, reading-doubled t.fingerprint (written ts) ts (reading-written ts))

abbrev unsigned : Text → Option (List IssuedTrust)
unsigned [] = none
unsigned (c ∷ s) = some (reading s).1

abbrev env : Env
env = record {
  trust_stage_enabled = true;
  trust_cookie_age = 100;
  sign_object = λ ts. 7 ∷ written ts;
  unsign_object = unsigned;
  salted_hmac = λ s. s;
}

round_trip : (ts : List IssuedTrust) → unsigned (7 ∷ written ts) ≡ some ts
round_trip ts = rw (reading-written ts) refl

never_empty : (ts : List IssuedTrust) → 7 ∷ written ts ≢ []
never_empty ts = λ h. cc

abbrev ann : User
ann = record { pk = 1; password = codes "a"; authenticators = [] }

abbrev ann_after : User
ann_after = record { pk = 1; password = codes "b"; authenticators = [] }

collision_free : (s t : Text) → env.salted_hmac s ≡ env.salted_hmac t → s ≡ t
collision_free s t h = h

trusted_after_example :
    (is_trusted_browser env 9000 (some (trust_browser env 5000 none ann)) ann_after ≡ true) ↔ (
      (is_trusted_browser env 9000 none ann_after ≡ true)
      ⊎ ((true ≡ true) × (9000 < (5000 / 1000 + 100) * 1000) × SameConfig ann ann_after))
unfolding str digits_of
trusted_after_example =
    trusted_after env round_trip never_empty collision_free 5000 9000 none ann ann_after
      (omega arith) ((refl, tt), ((refl, tt), tt)) ((refl, tt), ((refl, tt), tt))

abbrev ann_still : SameConfig ann ann
ann_still = record { same_pk = refl; same_password = refl; same_authenticators = refl }

stays_trusted : is_trusted_browser env 9000 (some (trust_browser env 5000 none ann)) ann ≡ true
unfolding str digits_of
stays_trusted =
    let both =
      trusted_after env round_trip never_empty collision_free 5000 9000 none ann ann (omega arith)
        ((refl, tt), ((refl, tt), tt)) ((refl, tt), ((refl, tt), tt)) in
    both.1 (inr (refl, omega arith, ann_still))
