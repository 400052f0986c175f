-- ===== src/Account/UserCode.antt =====
-- allauth/core/internal/cryptokit.py: codes that a user types in.
pub mod Reading
mod Tests
use django_allauth.Prelude.{
  ℕ, zero, suc, ◌+◌, Bool, true, false, Option, none, some, not, ◌&&◌, ◌||◌, List, [], ◌∷◌, ◌++◌,
  map, keep, length, leb, if◌then◌else◌, ◌==◌, nat_eq, Text, text_eq, is_space, join, is_ascii,
  compare_digest,
}

-- `string.punctuation`
abbrev pub is_punctuation : ℕ → Bool
is_punctuation c =
    (leb 33 c && leb c 47)
    || (leb 58 c && leb c 64)
    || (leb 91 c && leb c 96)
    || (leb 123 c && leb c 126)

-- The characters of ASCII, and the only other one, the Kelvin sign, whose lower case is one of them.
abbrev pub lower_char : ℕ → ℕ
lower_char c = if leb b'A' c && leb c b'Z' then c + 32 else if c == 8490 then b'k' else c

-- `s.lower()`, on texts in which these are the only characters that have a case.
abbrev pub lower : Text → Text
lower = map lower_char

-- What a reader does not count: punctuation and `string.whitespace`.
abbrev pub is_ignored : ℕ → Bool
is_ignored c = is_punctuation c || is_space c

pub strip_punctuation : Text → Text
strip_punctuation = keep (λ c. not (is_ignored c))

abbrev pub is_empty : Text → Bool
is_empty [] = true
is_empty (c ∷ s) = false

-- `none`: the comparison raises. Of the other characters beyond ASCII none has a lower case in ASCII,
-- so that it raises for them in whatever case.
unfoldable pub compare_user_code : Text → Text → Option Bool
unfolding strip_punctuation
compare_user_code actual expected =
    let actual' = lower (strip_punctuation actual) in
    let expected' = lower (strip_punctuation expected) in
    if is_empty expected' then some false else compare_digest actual' expected'
