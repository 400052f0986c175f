-- ===== src/Oidc/Uris.antt =====
-- The parts of a URI, as Python's `urllib.parse.urlparse` returns them; the parser itself is a
-- parameter of what uses it.
use django_allauth.Prelude.{
  ℕ, Bool, true, false, Option, [], ◌∷◌, ◌==◌, Text, nat_eq, if◌then◌else◌,
}

pub record ParseResult : Type 0 where
  pub scheme : Text
  pub netloc : Text
  pub path : Text
  pub query : Text
  pub fragment : Text
  pub hostname : Option Text
  pub port : Option ℕ
  pub username : Option Text
  pub password : Option Text

-- `s.startswith(p)`
abbrev pub starts_with : Text → Text → Bool
starts_with [] s = true
starts_with (x ∷ p) [] = false
starts_with (x ∷ p) (y ∷ s) = if x == y then starts_with p s else false

abbrev pub without_last : ℕ → ℕ → Text → Text
without_last c x [] = if x == c then [] else x ∷ []
without_last c x (y ∷ r) = x ∷ y ∷ r

-- `s.rstrip(c)` for one character.
unfoldable pub rstrip : ℕ → Text → Text
rstrip c [] = []
rstrip c (x ∷ s) = without_last c x (rstrip c s)
