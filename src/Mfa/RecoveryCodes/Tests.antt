-- ===== src/Mfa/RecoveryCodes/Tests.antt =====
-- Three recovery codes, one of them used.
use django_allauth.Prelude.{
  ℕ, zero, suc, ◌+◌, ◌≡◌, none, List, [], ◌∷◌, length, text_eq, codes, is_ascii, false, ◌⊎◌, ◌≢◌,
}
use django_allauth.Mfa.RecoveryCodes.{Env, validate_code, Data, get_unused_codes}
use django_allauth.Mfa.RecoveryCodes.Unused.{accepts, spend, validate_code-refines}

-- A digest of twenty bytes.
abbrev bytes : ℕ → ℕ → List ℕ
bytes zero b = []
bytes (suc n) b = b ∷ bytes n (b + 1)

abbrev recovery : Env
recovery = record {
  recovery_code_count = 3;
  recovery_code_digits = 8;
  digest = λ key message. bytes 20 (length message);
  digest_size = 20;
  decrypt = λ s. s;
}

abbrev some_used : Data
some_used = record { seed = codes "seed"; used_mask = 2; migrated_codes = none; viewed_at = none }

validate_code-refines_example :
    let (valid, d') = validate_code recovery (codes "67438087") some_used in
    ((accepts valid, get_unused_codes recovery d')
      ≡ spend (codes "67438087") (get_unused_codes recovery some_used))
    × ((is_ascii (codes "67438087") ≡ false) ⊎ (valid ≢ none))
validate_code-refines_example = validate_code-refines recovery (codes "67438087") some_used
