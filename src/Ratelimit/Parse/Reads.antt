-- ===== src/Ratelimit/Parse/Reads.antt =====
-- What the texts of a setting mean: the parser against numerals written digit by digit.
use mathlib.Core.List.{reverse-append, reverse-reverse}
use native.Mathlib.Nat.{pow-suc}
use django_allauth.Prelude.{
  ℕ, ◌+◌, ◌-◌, ◌*◌, ◌^◌, ◌<◌, ◌≡◌, refl, ◌∙◌, ap, some, false, List, [], ◌∷◌, ◌++◌, map, reverse,
  arith, length, All, All-append, All-reverse, Text, Free, split-join, split-Free, join, is_space,
  lstrip, strip, lookup, ◌==◌, nat_eq,
}
use django_allauth.Ratelimit.Parse.{
  ok, parse_rate, digits, natural, int, float, parse_duration, duration_from, duration_value, ticks,
  Decimal, rate_of, unit_map,
}

-- A number by its decimal digits, most significant first, and its text.
abbrev pub IsDecimal : List ℕ → Type 0
IsDecimal = All (λ d. d < 10)

abbrev pub value : List ℕ → ℕ
value [] = 0
value (d ∷ ds) = d * 10 ^ length ds + value ds

abbrev pub numeral : List ℕ → Text
numeral = map (λ d. 48 + d)

digits-step : (n d p v : ℕ) → (n * 10 + (48 + d - 48)) * p + v ≡ n * (p * 10) + (d * p + v)
digits-step n d p v = grind arith

digits-numeral :
    (n : ℕ) (ds : List ℕ)
    → IsDecimal ds
    → digits n (numeral ds) ≡ ok (n * 10 ^ length ds + value ds)
unfolding digits
digits-numeral n [] h = ap ok (omega arith)
digits-numeral n (d ∷ ds) h = ground (
  arith,
  digits-numeral (n * 10 + (48 + d - 48)) ds h.1,
  digits-step n d (10 ^ length ds) (value ds),
  pow-suc 10 (length ds),
)

-- Texts with no white space are what `strip` leaves alone.
abbrev NoSpace : Text → Type 0
NoSpace = All (λ c. is_space c ≡ false)

lstrip_id : (s : Text) → NoSpace s → lstrip s ≡ s
unfolding lstrip
lstrip_id [] h = refl
lstrip_id (c ∷ s) h = rw h.0

strip_id : (s : Text) → NoSpace s → strip s ≡ s
unfolding strip
strip_id s h = rw (lstrip_id s h, lstrip_id (reverse s) (All-reverse _ s h)) (reverse-reverse s)

numeral-NoSpace : (ds : List ℕ) → IsDecimal ds → NoSpace (numeral ds)
numeral-NoSpace [] h = tt
numeral-NoSpace (d ∷ ds) h = (ground arith, numeral-NoSpace ds h.1)

-- A separator below the digits, such as a point, a comma or a slash.
numeral-Free : (sep : ℕ) (ds : List ℕ) → sep < 48 → Free sep (numeral ds)
numeral-Free sep [] h = tt
numeral-Free sep (d ∷ ds) h = (ground arith, numeral-Free sep ds h)

natural-numeral :
    (d : ℕ) (ds : List ℕ) → IsDecimal (d ∷ ds) → natural (numeral (d ∷ ds)) ≡ ok (value (d ∷ ds))
unfolding natural
natural-numeral d ds h = digits-numeral 0 (d ∷ ds) h ∙ ap ok (omega arith)

int-numeral :
    (d : ℕ) (ds : List ℕ) → IsDecimal (d ∷ ds) → int (numeral (d ∷ ds)) ≡ ok (value (d ∷ ds))
unfolding int
int-numeral d ds h =
    rw (strip_id (numeral (d ∷ ds)) (numeral-NoSpace (d ∷ ds) h)) (natural-numeral d ds h)

float-numeral :
    (d : ℕ) (ds : List ℕ)
    → IsDecimal (d ∷ ds)
    → float (numeral (d ∷ ds)) ≡ ok (record { mantissa = value (d ∷ ds); places = 0 })
unfolding float
float-numeral d ds h = rw (
  strip_id (numeral (d ∷ ds)) (numeral-NoSpace (d ∷ ds) h),
  split-Free b'.' (numeral (d ∷ ds)) (numeral-Free b'.' (d ∷ ds) (omega arith)),
  natural-numeral d ds h,
  float,
)

duration_from-unit :
    (unit u : ℕ) (s : Text) (v : Decimal)
    → lookup unit unit_map ≡ some u
    → duration_value (reverse s) ≡ ok v
    → duration_from (unit ∷ s) ≡ ok (ticks v u)
unfolding duration_from
duration_from-unit unit u s v known h = rw (known, h, duration_from)

ticks_whole : (n u : ℕ) → ticks (record { mantissa = n; places = 0 }) u ≡ n * u * 1000
unfolding ticks
ticks_whole n u = omega arith

parse_duration-numeral :
    (d : ℕ) (ds : List ℕ) (unit u : ℕ)
    → IsDecimal (d ∷ ds)
    → lookup unit unit_map ≡ some u
    → parse_duration (numeral (d ∷ ds) ++ unit ∷ []) ≡ ok (value (d ∷ ds) * u * 1000)
unfolding parse_duration duration_value
parse_duration-numeral d ds unit u h known = rw (reverse-append (numeral (d ∷ ds)) (unit ∷ [])) (
    duration_from-unit unit u (reverse (numeral (d ∷ ds)))
      (record { mantissa = value (d ∷ ds); places = 0 }) known
      (rw (reverse-reverse (numeral (d ∷ ds))) (float-numeral d ds h))
    ∙ ap ok (ticks_whole (value (d ∷ ds)) u))

unit-Free : (unit u : ℕ) → lookup unit unit_map ≡ some u → (unit == b'/') ≡ false
unfolding unit_map lookup
unit-Free unit u known = ground arith

rate_of-ok :
    (amount duration per : Text) (a t : ℕ)
    → int amount ≡ ok a
    → parse_duration duration ≡ ok t
    → rate_of amount duration per ≡ ok (record { amount = a; duration = t; per = per })
unfolding rate_of
rate_of-ok amount duration per a t ha ht = rw (ha, ht, rate_of)

-- A rate written as amount, duration with a unit, and kind, between slashes, is read as these: the
-- amount and the duration are the numbers that the decimal digits stand for, at least one digit
-- each, the unit is one that `unit_map` has, and the duration is in milliseconds. The kind has no
-- slash in it.
pub parse_rate_reads :
    (a : ℕ) (as_ : List ℕ) (d : ℕ) (ds : List ℕ) (unit u : ℕ) (per : Text)
    → IsDecimal (a ∷ as_)
    → IsDecimal (d ∷ ds)
    → lookup unit unit_map ≡ some u
    → Free b'/' per
    → parse_rate (join b'/' (numeral (a ∷ as_) ∷ (numeral (d ∷ ds) ++ unit ∷ []) ∷ per ∷ []))
      ≡ ok (record { amount = value (a ∷ as_); duration = value (d ∷ ds) * u * 1000; per = per })
unfolding parse_rate
parse_rate_reads a as_ d ds unit u per ha hd known free =
    rw
      (
        split-join b'/' (numeral (a ∷ as_)) ((numeral (d ∷ ds) ++ unit ∷ []) ∷ per ∷ []) (
          numeral-Free b'/' (a ∷ as_) (omega arith),
          (
            All-append _ (numeral (d ∷ ds)) (unit ∷ []) (numeral-Free b'/' (d ∷ ds) (omega arith))
                (unit-Free unit u known, tt),
            (free, tt),
          ),
        ),
        parse_rate,
      )
      (rate_of-ok (numeral (a ∷ as_)) (numeral (d ∷ ds) ++ unit ∷ []) per _ _ (int-numeral a as_ ha)
        (parse_duration-numeral d ds unit u hd known))
