-- ===== src/Mfa/RecoveryCodes/Shape.antt =====
-- The codes that are derived from a seed.
use django_allauth.Prelude.{
  ℕ, zero, suc, ◌+◌, ◌≡◌, refl, ap, none, [], All, length, length-zfill_mod, Text, str, rjust,
  codes, ◌++◌,
}
use django_allauth.Mfa.RecoveryCodes.{Env, Data, derive, generate_codes}

module _ (env : Env) (w : ℕ) (wide : env.recovery_code_digits ≡ suc w) where
  abbrev pub HasWidth : Text → Type 0
  HasWidth c = length c ≡ env.recovery_code_digits

  derive_shape :
      (seed : Text) (left i : ℕ) (message : Text)
      → (length (derive env seed left i message) ≡ left)
        × All HasWidth (derive env seed left i message)
  unfolding derive
  derive_shape seed zero i message = (refl, tt)
  derive_shape seed (suc left) i message =
      let message' = message ++ rjust 3 (str i) ++ codes "," in
      let (many, wide_each) = derive_shape seed left (i + 1) message' in
      (ap suc many, (length-zfill_mod env.recovery_code_digits w _ wide, wide_each))

  -- Without migrated codes there are always as many codes as the setting says, each a text of as
  -- many characters as the setting says, at least one.
  pub generate_codes_shape :
      (d : Data)
      → d.migrated_codes ≡ none
      → (length (generate_codes env d) ≡ env.recovery_code_count)
        × All HasWidth (generate_codes env d)
  unfolding generate_codes
  generate_codes_shape d e =
      rw (e, generate_codes) (derive_shape (env.decrypt d.seed) env.recovery_code_count 0 [])
