-- ===== src/Mfa/Totp/Tests.antt =====
-- A code used twice.
use django_allauth.Prelude.{
  ℕ, zero, suc, ◌+◌, ◌*◌, ◌≡◌, refl, true, false, none, some, List, [], ◌∷◌, arith, length, Text,
  text_eq, codes, lookup,
}
use django_allauth.Cache.Local.{local_cache, fresh}
use django_allauth.Mfa.Totp.{
  Env, Totp, is_insecure_bypass, hotp_value, format_hotp_value, validate_code,
}
use django_allauth.Mfa.Totp.Replay.{refused_in_period, replayed}

abbrev bytes : ℕ → ℕ → List ℕ
bytes zero b = []
bytes (suc n) b = b ∷ bytes n (b + 1)

abbrev totp : Env
totp = record {
  totp_period = 30;
  totp_digits = 6;
  totp_tolerance = 1;
  totp_insecure_bypass_code = none;
  hmac_sha1 = λ secret counter. bytes 20 (counter + length secret);
  decrypt = λ s. s;
}

abbrev app : Totp
app = record { user_id = 1; secret = codes "s" }

abbrev shown : Text
shown = format_hotp_value totp (hotp_value totp (codes "s") 100)

honest : is_insecure_bypass totp shown ≡ false
unfolding is_insecure_bypass
honest = refl

replayed_example :
    let (first, s') = validate_code totp local_cache app shown 3000000 fresh in
    (first ≡ some true)
    × ((validate_code totp local_cache app shown (3000000 + 30 * 1000) s').0 ≡ some true)
unfolding lookup
replayed_example =
    replayed totp local_cache app shown honest 3000000 fresh (omega arith) (omega arith)
      (omega arith) refl refl

accepted_first : (validate_code totp local_cache app shown 3000000 fresh).0 ≡ some true
accepted_first = replayed_example.0

refused_in_period_example :
    (validate_code totp local_cache app shown 3010000
      (validate_code totp local_cache app shown 3000000 fresh).1).0
    ≡ some false
refused_in_period_example =
    refused_in_period totp local_cache app shown honest 3000000 3010000 fresh (omega arith)
      accepted_first (omega arith) refl
