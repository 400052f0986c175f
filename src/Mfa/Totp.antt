-- ===== src/Mfa/Totp.antt =====
-- allauth/mfa/totp/internal/auth.py: time-based one-time passwords. The clock is in milliseconds.
pub mod Replay
pub mod Shape
mod Tests
use django_allauth.Prelude.{
  ℕ, zero, suc, ◌+◌, ◌-◌, ◌*◌, ◌/◌, ◌%◌, ◌^◌, Bool, true, false, not, ◌&&◌, Option, none, some,
  List, [], ◌∷◌, ◌++◌, if◌then◌else◌, ◌==◌, Text, text_eq, codes, str, zfill, compare_digest,
}
use django_allauth.Cache.{Cache, Stored, mark}
use django_allauth.Mfa.RecoveryCodes.{from_bytes}

-- The settings, and what the program takes from elsewhere: the HMAC-SHA1 digest of a counter under a
-- base-32 secret, as bytes, and the adapter's decryption.
pub record Env : Type 0 where
  pub totp_period : ℕ
  pub totp_digits : ℕ
  pub totp_tolerance : ℕ
  pub totp_insecure_bypass_code : Option Text
  pub hmac_sha1 : Text → ℕ → List ℕ
  pub decrypt : Text → Text

-- `Authenticator` of this type: the user's primary key and the encrypted secret.
pub record Totp : Type 0 where
  pub user_id : ℕ
  pub secret : Text

-- `hmac_result[-1]`, and `hmac_result[offset : offset + 4]`.
abbrev last : List ℕ → ℕ
last [] = 0
last (b ∷ []) = b
last (b ∷ (b' ∷ bs)) = last (b' ∷ bs)

abbrev slice : ℕ → ℕ → List ℕ → List ℕ
slice start n [] = []
slice (suc start) n (b ∷ bs) = slice start n bs
slice zero zero (b ∷ bs) = []
slice zero (suc n) (b ∷ bs) = b ∷ slice zero n bs

-- The first byte without its highest bit.
abbrev truncate : List ℕ → List ℕ
truncate [] = []
truncate (b ∷ bs) = b % 128 ∷ bs

-- Counters from a first one.
abbrev counters_from : ℕ → ℕ → List ℕ
counters_from first zero = []
counters_from first (suc n) = first ∷ counters_from (first + 1) n

-- `none` raises, a success returns, and a failure goes on.
abbrev pub or_next : Option Bool → Option Bool → Option Bool
or_next none next = none
or_next (some true) next = some true
or_next (some false) next = next

module _ (env : Env) where
  open env use {totp_period, totp_digits, totp_tolerance, totp_insecure_bypass_code, hmac_sha1}

  -- `int(time.time()) // TOTP_PERIOD`
  abbrev pub counter_at : ℕ → ℕ
  counter_at now = (now / 1000) / totp_period

  -- The counters from `-TOTP_TOLERANCE` to `TOTP_TOLERANCE` around the current one. The clock is past
  -- the first periods, so that none is below zero.
  pub yield_hotp_counters_from_time : ℕ → List ℕ
  yield_hotp_counters_from_time now =
      counters_from (counter_at now - totp_tolerance) (2 * totp_tolerance + 1)

  pub hotp_value : Text → ℕ → ℕ
  hotp_value secret counter =
      let hmac_result = hmac_sha1 secret counter in
      let offset = last hmac_result % 16 in
      from_bytes 0 (truncate (slice offset 4 hmac_result)) % 10 ^ totp_digits

  pub format_hotp_value : ℕ → Text
  format_hotp_value value = zfill totp_digits (str value)

  abbrev bypasses : Text → Option Text → Bool
  bypasses code none = false
  bypasses [] (some bypass) = false
  bypasses (c ∷ code) (some bypass) = bypass == c ∷ code

  pub is_insecure_bypass : Text → Bool
  is_insecure_bypass code = bypasses code totp_insecure_bypass_code

  -- The loop over the counters; `none` is the `TypeError` of `compare_digest`.
  pub matches : Text → Text → List ℕ → Option Bool
  matches secret code [] = some false
  matches secret code (counter ∷ counters) =
      or_next (compare_digest code (format_hotp_value (hotp_value secret counter)))
        (matches secret code counters)

  pub validate_totp_code : Text → Text → ℕ → Option Bool
  unfolding matches
  validate_totp_code secret code now =
      if is_insecure_bypass code
      then some true
      else matches secret code (yield_hotp_counters_from_time now)

  pub used_cache_key : Totp → Text → Text
  used_cache_key t code =
      codes "allauth.mfa.totp.used?user=" ++ str t.user_id ++ codes "&code=" ++ code

  module _ (c : Cache Stored) where
    mark_code_used : Totp → Text → ℕ → c.State → Bool × c.State
    mark_code_used t code now s = c.add now (used_cache_key t code) mark (totp_period * 1000) s

    abbrev pub when_valid : Totp → Text → ℕ → Option Bool → c.State → Option Bool × c.State
    unfolding mark_code_used
    when_valid t code now none s = (none, s)
    when_valid t code now (some false) s = (some false, s)
    when_valid t code now (some true) s =
        let (marked, s') = mark_code_used t code now s in (some marked, s')

    pub validate_code : Totp → Text → ℕ → c.State → Option Bool × c.State
    unfolding when_valid
    validate_code t code now s =
        if is_insecure_bypass code
        then (some true, s)
        else when_valid t code now (validate_totp_code (env.decrypt t.secret) code now) s
