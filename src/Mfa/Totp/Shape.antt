-- ===== src/Mfa/Totp/Shape.antt =====
-- The codes that an authenticator app shows.
use django_allauth.Prelude.{
  ℕ, suc, ◌^◌, ◌<◌, ◌≡◌, length, length-zfill_mod, mod_pow-lt, Text, text_eq,
}
use django_allauth.Mfa.Totp.{Env, hotp_value, format_hotp_value}

-- Whatever the digest, a value is below `10 ** TOTP_DIGITS`, and the code that is shown for it has
-- exactly `TOTP_DIGITS` characters, if there is to be one at least.
pub format_hotp_value_width :
    (env : Env) (w : ℕ) (secret : Text) (counter : ℕ)
    → env.totp_digits ≡ suc w
    → (hotp_value env secret counter < 10 ^ env.totp_digits)
      × (length (format_hotp_value env (hotp_value env secret counter)) ≡ env.totp_digits)
unfolding hotp_value format_hotp_value
format_hotp_value_width env w secret counter wide =
    (mod_pow-lt _ env.totp_digits, length-zfill_mod env.totp_digits w _ wide)
