-- ===== src/Prelude/Texts.antt =====
-- Texts that the program takes apart, as lists of code points, with Python's `split`, `join` and
-- `strip`.
use Prim.Native.Nat.{ℕ}
use Prim.Native.Char.{code}
use Prim.Native.String.{String}
use mathlib.Core.Path.{◌≡◌, refl, ap, ◌∙◌}
use mathlib.Core.Logic.{◌↔◌}
use mathlib.Core.Bool.{Bool, true, false, ◌&&◌, ◌||◌}
use mathlib.Core.Option.{Option, none, some}
use mathlib.Core.List.{List, [], ◌∷◌, ◌++◌, reverse}
use native.Mathlib.Omega.{arith}
use django_allauth.Prelude.Tests.{nat_eqb, leb, if◌then◌else◌, Eq, ◌==◌, nat_eq}
use django_allauth.Prelude.Lists.{All}

abbrev pub Text : Type 0
Text = List ℕ

abbrev pub codes : String → Text
codes String.[] = []
codes (String.◌∷◌ c s) = code c ∷ codes s

abbrev text_eqb : Text → Text → Bool
text_eqb [] [] = true
text_eqb (x ∷ xs) (y ∷ ys) = nat_eqb x y && text_eqb xs ys
text_eqb _ _ = false

pub text_eqb_iff : (s t : Text) → (text_eqb s t ≡ true) ↔ (s ≡ t)
text_eqb_iff [] [] = ground arith
text_eqb_iff [] (y ∷ ys) = ground arith
text_eqb_iff (x ∷ xs) [] = ground arith
text_eqb_iff (x ∷ xs) (y ∷ ys) =
    let (sound, complete) = text_eqb_iff xs ys in
    (λ h. ground (arith, sound), λ h. ground (arith, complete))

instance abbrev pub text_eq : Eq Text
text_eq = record { equal = text_eqb; agrees = text_eqb_iff }

abbrev prepend : ℕ → List Text → List Text
prepend c [] = (c ∷ []) ∷ []
prepend c (w ∷ ws) = (c ∷ w) ∷ ws

-- `s.split(sep)` at one character.
unfoldable pub split : ℕ → Text → List Text
split sep [] = [] ∷ []
split sep (c ∷ s) = let rest = split sep s in if c == sep then [] ∷ rest else prepend c rest

-- `sep.join(words)` with one character.
unfoldable pub join : ℕ → List Text → Text
join sep [] = []
join sep (w ∷ []) = w
join sep (w ∷ (v ∷ ws)) = w ++ sep ∷ join sep (v ∷ ws)

-- `s.isascii()`
abbrev pub is_ascii : Text → Bool
is_ascii [] = true
is_ascii (c ∷ s) = leb c 127 && is_ascii s

-- `secrets.compare_digest` on texts; `none` is the `TypeError` that it raises beyond ASCII.
abbrev pub compare_digest : Text → Text → Option Bool
compare_digest a b = if is_ascii a && is_ascii b then some (a == b) else none

-- Texts in ASCII are compared, and a text beyond it raises.
pub compare_digest-ascii :
    (a b : Text) → is_ascii a ≡ true → is_ascii b ≡ true → compare_digest a b ≡ some (a == b)
compare_digest-ascii a b ha hb = ground (arith, ha, hb)

pub compare_digest_beyond : (a b : Text) → is_ascii a ≡ false → compare_digest a b ≡ none
compare_digest_beyond a b h = rw h refl

-- ASCII white space.
abbrev pub is_space : ℕ → Bool
is_space c = c == 32 || (leb 9 c && leb c 13)

unfoldable pub lstrip : Text → Text
lstrip [] = []
lstrip (c ∷ s) = if is_space c then lstrip s else c ∷ s

-- `s.strip()`
unfoldable pub strip : Text → Text
unfolding lstrip
strip s = reverse (lstrip (reverse (lstrip s)))

-- The text does not contain the character.
abbrev pub Free : ℕ → Text → Type 0
Free sep = All (λ c. (c == sep) ≡ false)

split-append : (sep : ℕ) (w s : Text) → Free sep w → split sep (w ++ sep ∷ s) ≡ w ∷ split sep s
unfolding split
split-append sep [] s f = ground arith
split-append sep (c ∷ w) s f = ground (arith, split-append sep w s f.1)

pub split-Free : (sep : ℕ) (w : Text) → Free sep w → split sep w ≡ w ∷ []
unfolding split
split-Free sep [] f = refl
split-Free sep (c ∷ w) f = ground (arith, split-Free sep w f.1)

-- Splitting what was joined gives the words back, where none holds the separator.
pub split-join :
    (sep : ℕ) (w : Text) (ws : List Text)
    → All (Free sep) (w ∷ ws)
    → split sep (join sep (w ∷ ws)) ≡ w ∷ ws
unfolding join
split-join sep w [] f = split-Free sep w f.0
split-join sep w (v ∷ ws) f =
    split-append sep w (join sep (v ∷ ws)) f.0 ∙ ap (◌∷◌ w) (split-join sep v ws f.1)

-- A text is not one that continues it.
pub append-ne : (s : Text) (c : ℕ) (t : Text) → ((s ++ c ∷ t) == s) ≡ false
append-ne [] c t = refl
append-ne (x ∷ s) c t = ground (arith, append-ne s c t)
