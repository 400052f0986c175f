-- ===== src/Prelude/Numerals.antt =====
-- Python's decimal notation of a number.
use Prim.Native.Nat.{ℕ, zero, suc, ◌+◌, ◌-◌, ◌/◌, ◌%◌, ◌^◌, ◌<◌, ◌≤◌}
use mathlib.Core.Path.{◌≡◌, refl}
use mathlib.Core.Bool.{true}
use mathlib.Core.List.{[], ◌∷◌}
use native.Mathlib.Omega.{arith}
use native.Mathlib.Nat.{pow-suc, mod-lt}
use django_allauth.Prelude.Tests.{ltb, if◌then◌else◌}
use django_allauth.Prelude.Lists.{length}
use django_allauth.Prelude.Texts.{Text, is_ascii}

-- The digits in front of what is already written; the number itself is fuel enough.
unfoldable pub digits_of : ℕ → ℕ → Text → Text
digits_of zero n s = (48 + n % 10) ∷ s
digits_of (suc fuel) n s =
    let more = digits_of fuel (n / 10) ((48 + n % 10) ∷ s) in
    if ltb n 10 then (48 + n % 10) ∷ s else more

-- `str(n)`
unfoldable pub str : ℕ → Text
unfolding digits_of
str n = digits_of n n []

abbrev pub pad : ℕ → ℕ → Text → Text
pad c zero s = s
pad c (suc n) s = c ∷ pad c n s

-- `s.zfill(width)`, and `f"{n:0{width}}"` of a number that is written `s`.
unfoldable pub zfill : ℕ → Text → Text
zfill width s = pad b'0' (width - length s) s

-- `f"{n:{width}}"` of a number that is written `s`.
unfoldable pub rjust : ℕ → Text → Text
rjust width s = pad b' ' (width - length s) s

length-digits_of :
    (fuel n w : ℕ) (s : Text) → n < 10 ^ suc w → length (digits_of fuel n s) ≤ suc w + length s
unfolding digits_of
length-digits_of zero n w s h = omega arith
length-digits_of (suc fuel) n zero s h = ground arith
length-digits_of (suc fuel) n (suc w) s h =
    ground (arith, length-digits_of fuel (n / 10) w ((48 + n % 10) ∷ s), pow-suc 10 (suc w))

length-pad : (c n : ℕ) (s : Text) → length (pad c n s) ≡ n + length s
length-pad c zero s = omega arith
length-pad c (suc n) s = omega (arith, length-pad c n s)

-- A number of at most `w + 1` digits, filled up to that width, has exactly that many.
pub length-zfill : (n w : ℕ) → n < 10 ^ suc w → length (zfill (suc w) (str n)) ≡ suc w
unfolding zfill str
length-zfill n w h = omega (
  arith,
  length-pad b'0' (suc w - length (digits_of n n [])) (digits_of n n []),
  length-digits_of n n w [] h,
)

pow_pos : (w : ℕ) → 0 < 10 ^ w
pow_pos zero = omega arith
pow_pos (suc w) = omega (arith, pow-suc 10 w, pow_pos w)

pub mod_pow-lt : (v w : ℕ) → v % 10 ^ w < 10 ^ w
mod_pow-lt v w = mod-lt v (pow_pos w)

pub length-zfill_mod :
    (width w v : ℕ) → width ≡ suc w → length (zfill width (str (v % 10 ^ width))) ≡ width
length-zfill_mod width w v e = rw e (length-zfill (v % 10 ^ suc w) w (mod_pow-lt v (suc w)))

-- Numerals are in ASCII.
ascii-digits_of : (fuel n : ℕ) (s : Text) → is_ascii s ≡ true → is_ascii (digits_of fuel n s) ≡ true
unfolding digits_of
ascii-digits_of zero n s h = ground (arith, h)
ascii-digits_of (suc fuel) n s h =
    ground (arith, h, ascii-digits_of fuel (n / 10) ((48 + n % 10) ∷ s))

ascii-pad : (n : ℕ) (s : Text) → is_ascii s ≡ true → is_ascii (pad b'0' n s) ≡ true
ascii-pad zero s h = h
ascii-pad (suc n) s h = ascii-pad n s h

pub ascii-zfill : (w n : ℕ) → is_ascii (zfill w (str n)) ≡ true
unfolding zfill str
ascii-zfill w n =
    ascii-pad (w - length (digits_of n n [])) (digits_of n n []) (ascii-digits_of n n [] refl)
