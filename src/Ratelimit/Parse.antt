-- ===== src/Ratelimit/Parse.antt =====
-- allauth/core/internal/ratelimit.py: `parse_duration`, `parse_rate` and `parse_rates`, which read
-- settings such as "10/m/ip,5/5m/key". Ticks are milliseconds.
pub mod Reads
use django_allauth.Prelude.{
  ℕ, suc, ◌+◌, ◌-◌, ◌*◌, ◌/◌, ◌^◌, ◌&&◌, Option, none, some, List, [], ◌∷◌, ◌++◌, reverse, length,
  leb, Bool, if◌then◌else◌, ◌==◌, Dict, lookup, Text, text_eq, nat_eq, codes, split, strip,
}
use django_allauth.Ratelimit.Window.{Rate}

-- `ValueError`, or a result.
pub data Parsed {ℓ} (A : Type ℓ) : Type ℓ where
  ok : A → Parsed A
  value_error : Parsed A

infixl 5 ◌>>=◌
abbrev pub ◌>>=◌ {ℓ κ} : {A : Type ℓ} {B : Type κ} → Parsed A → (A → Parsed B) → Parsed B
ok a >>= f = f a
value_error >>= f = value_error

abbrev pub is_digit : ℕ → Bool
is_digit c = leb b'0' c && leb c b'9'

unfoldable pub digits : ℕ → Text → Parsed ℕ
digits n [] = ok n
digits n (c ∷ s) = if is_digit c then digits (n * 10 + (c - b'0')) s else value_error

-- A text of digits, with one at least.
unfoldable pub natural : Text → Parsed ℕ
unfolding digits
natural [] = value_error
natural (c ∷ s) = digits 0 (c ∷ s)

-- Python's `int` on an unsigned decimal text.
unfoldable pub int : Text → Parsed ℕ
unfolding natural
int s = natural (strip s)

-- A decimal number: its digits as one number, and how many of them follow the point.
pub record Decimal : Type 0 where
  pub mantissa : ℕ
  pub places : ℕ

-- Python's `float` on an unsigned decimal text, with or without a point.
unfoldable pub float : Text → Parsed Decimal
unfolding natural
float s = elim (split b'.' (strip s)) [
  | whole ∷ [] ↦ do n ← natural whole; ok (record { mantissa = n; places = 0 })
  | whole ∷ (part ∷ []) ↦ do
    n ← natural (whole ++ part)
    ok (record { mantissa = n; places = length part })
  | _ ↦ value_error
]

-- `unit_map`
unfoldable pub unit_map : Dict ℕ ℕ
unit_map = (b's', 1) ∷ (b'm', 60) ∷ (b'h', 3600) ∷ (b'd', 86400) ∷ []

ticks : Decimal → ℕ → ℕ
ticks value unit = (value.mantissa * unit * 1000) / 10 ^ value.places

abbrev one : Decimal
one = record { mantissa = 1; places = 0 }

duration_value : Text → Parsed Decimal
unfolding float
duration_value [] = ok one
duration_value (c ∷ s) = float (c ∷ s)

-- The text back to front: its last character is the unit, and the rest the value.
duration_from : Text → Parsed ℕ
unfolding duration_value ticks
duration_from [] = value_error
duration_from (unit ∷ value) = elim (lookup unit unit_map) [
  | none ↦ value_error
  | some u ↦ do v ← duration_value (reverse value); ok (ticks v u)
]

unfoldable pub parse_duration : Text → Parsed ℕ
unfolding duration_from
parse_duration duration = duration_from (reverse duration)

rate_of : Text → Text → Text → Parsed Rate
unfolding parse_duration
rate_of amount duration per = do
  amount_v ← int amount
  duration_v ← parse_duration duration
  ok (record { amount = amount_v; duration = duration_v; per = per })

unfoldable pub parse_rate : Text → Parsed Rate
unfolding rate_of
parse_rate rate = elim (split b'/' rate) [
  | amount ∷ (duration ∷ []) ↦ rate_of amount duration (codes "ip")
  | amount ∷ (duration ∷ (per ∷ [])) ↦ rate_of amount duration per
  | _ ↦ value_error
]

-- The loop over the comma-separated parts.
unfoldable pub parse_parts : List Text → Parsed (List Rate)
unfolding parse_rate
parse_parts [] = ok []
parse_parts (part ∷ parts) = do
  rate ← parse_rate (strip part)
  rest ← parse_parts parts
  ok (rate ∷ rest)

parse_stripped : Text → Parsed (List Rate)
unfolding parse_parts
parse_stripped [] = ok []
parse_stripped (c ∷ s) = parse_parts (split b',' (c ∷ s))

-- `None` and a text of white space give no rates.
unfoldable pub parse_rates : Option Text → Parsed (List Rate)
unfolding parse_stripped
parse_rates none = ok []
parse_rates (some rates) = parse_stripped (strip rates)
