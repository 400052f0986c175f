-- ===== src/Mfa/RecoveryCodes.antt =====
-- allauth/mfa/recovery_codes/internal/auth.py: one-time recovery codes. The codes are derived from a
-- seed, and a mask remembers the used ones; older authenticators hold a list of codes instead.
pub mod Unused
pub mod Shape
mod Tests
use Prim.Native.Nat.{min}
use django_allauth.Prelude.{
  ℕ, zero, suc, ◌+◌, ◌-◌, ◌*◌, ◌/◌, ◌%◌, ◌^◌, Bool, true, false, Option, none, some, List, [], ◌∷◌,
  ◌++◌, map, if◌then◌else◌, ◌==◌, is_some, Text, text_eq, codes, str, zfill, rjust, compare_digest,
}
use django_allauth.Mfa.Bits.{test_bit, set_bit}

-- The settings, and what the program takes from elsewhere: the digest of an HMAC-SHA1 for a key and
-- a message, as bytes, and the adapter's decryption.
pub record Env : Type 0 where
  pub recovery_code_count : ℕ
  pub recovery_code_digits : ℕ
  pub digest : Text → Text → List ℕ
  pub digest_size : ℕ
  pub decrypt : Text → Text

-- `instance.data` of an authenticator of this type.
pub record Data : Type 0 where
  pub seed : Text
  pub used_mask : ℕ
  pub migrated_codes : Option (List Text)
  pub viewed_at : Option ℕ

abbrev take : ℕ → List ℕ → List ℕ
take zero xs = []
take (suc n) [] = []
take (suc n) (x ∷ xs) = x ∷ take n xs

-- `int.from_bytes(…, byteorder="big")`, from the number read so far.
unfoldable pub from_bytes : ℕ → List ℕ → ℕ
from_bytes acc [] = acc
from_bytes acc (b ∷ bs) = from_bytes (acc * 256 + b) bs

-- `RecoveryCodes.activate`, when there is none: a fresh seed (encrypted) and nothing used.
pub activate : Text → Data
activate seed = record { seed = seed; used_mask = 0; migrated_codes = none; viewed_at = none }

-- The loop of `get_unused_codes`, from an index.
pub unused_from : ℕ → ℕ → List Text → List Text
unused_from mask i [] = []
unused_from mask i (c ∷ cs) =
    let rest = unused_from mask (i + 1) cs in if test_bit mask i then rest else c ∷ rest

-- `codes.index(code)`; `none` is the `ValueError`.
abbrev index : Text → List Text → Option ℕ
index code [] = none
index code (c ∷ cs) =
    if c == code then some 0 else elim (index code cs) [ none ↦ none | some n ↦ some (suc n) ]

abbrev pop : ℕ → List Text → List Text
pop i [] = []
pop zero (c ∷ cs) = cs
pop (suc i) (c ∷ cs) = c ∷ pop i cs

-- What the loop of `validate_code` comes to: an index, no index, or the `TypeError` of
-- `compare_digest`.
pub data Search : Type 0 where
  found_at : ℕ → Search
  missing raised : Search

abbrev pub or_search : ℕ → Option Bool → Search → Search
or_search i none rest = raised
or_search i (some true) rest = found_at i
or_search i (some false) rest = rest

-- The loop: the first unused code that is the given one.
pub find_unused : Text → ℕ → ℕ → List Text → Search
find_unused code mask i [] = missing
find_unused code mask i (c ∷ cs) =
    let rest = find_unused code mask (i + 1) cs in
    if test_bit mask i then rest else or_search i (compare_digest code c) rest

module _ (env : Env) where
  open env use {recovery_code_count, recovery_code_digits, digest, digest_size, decrypt}

  abbrev byte_count : ℕ
  byte_count = min (recovery_code_digits / 2) digest_size

  abbrev code_of : Text → Text → Text
  code_of seed message =
      zfill recovery_code_digits
        (str (from_bytes 0 (take byte_count (digest seed message)) % 10 ^ recovery_code_digits))

  -- The loop: the number of codes left, the next index, and the message hashed so far.
  pub derive : Text → ℕ → ℕ → Text → List Text
  derive seed zero i message = []
  derive seed (suc left) i message =
      let message' = message ++ rjust 3 (str i) ++ codes "," in
      code_of seed message' ∷ derive seed left (i + 1) message'

  pub get_migrated_codes : Data → Option (List Text)
  get_migrated_codes d = elim d.migrated_codes [ none ↦ none | some cs ↦ some (map decrypt cs) ]

  pub generate_codes : Data → List Text
  unfolding get_migrated_codes derive
  generate_codes d = elim (get_migrated_codes d) [
    | some migrated ↦ migrated
    | none ↦ derive (decrypt d.seed) recovery_code_count 0 []
  ]

  pub get_unused_codes : Data → List Text
  unfolding get_migrated_codes unused_from
  get_unused_codes d = elim (get_migrated_codes d) [
    | some migrated ↦ migrated
    | none ↦ unused_from d.used_mask 0 (generate_codes d)
  ]

  -- The index is one of the list that is decrypted, and of the one that is stored.
  validate_migrated : Text → List Text → Data → Option Bool × Data
  validate_migrated code stored d = elim (index code (map decrypt stored)) [
    | none ↦ (some false, d)
    | some i ↦ (some true, record d { migrated_codes = some (pop i stored) })
  ]

  validate_seeded : Text → Data → Option Bool × Data
  unfolding find_unused
  validate_seeded code d = elim (find_unused code d.used_mask 0 (generate_codes d)) [
    | missing ↦ (some false, d)
    | raised ↦ (none, d)
    | found_at i ↦ (some true, record d { used_mask = set_bit d.used_mask i })
  ]

  -- `validate_code`, on the data that the locked row holds; `none` is a `TypeError`.
  pub validate_code : Text → Data → Option Bool × Data
  unfolding validate_migrated validate_seeded
  validate_code code d = elim d.migrated_codes [
    | some stored ↦ validate_migrated code stored d
    | none ↦ validate_seeded code d
  ]

-- `mark_as_viewed`, at a moment.
pub mark_as_viewed : ℕ → Data → Data
mark_as_viewed now d = if is_some d.viewed_at then d else record d { viewed_at = some now }
