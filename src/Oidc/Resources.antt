-- ===== src/Oidc/Resources.antt =====
-- allauth/idp/oidc/internal/resources.py: the resources for which a token is requested and granted.
pub mod Containment
use django_allauth.Prelude.{
  Bool, true, false, not, ◌&&◌, ◌||◌, Option, none, some, List, [], ◌∷◌, ◌++◌, any, ◌==◌, Text,
  text_eq, if◌then◌else◌,
}
use django_allauth.Oidc.Uris.{ParseResult, starts_with, rstrip}

-- Python's truth of an optional list.
abbrev pub listed : Option (List Text) → List Text
listed none = []
listed (some rs) = rs

abbrev pub is_empty_list : List Text → Bool
is_empty_list [] = true
is_empty_list (x ∷ xs) = false

-- The path of what was granted, with one slash at its end.
abbrev pub directory : Text → Text
directory path = rstrip b'/' path ++ (b'/' ∷ [])

module _ (urlparse : Text → ParseResult) where
  unfoldable pub is_contained_by : Text → Text → Bool
  is_contained_by resource granted =
      let r = urlparse resource in
      let g = urlparse granted in
      if not (r.scheme == g.scheme) || not (r.netloc == g.netloc)
      then false
      else r.path == g.path || starts_with (directory g.path) r.path

  unfoldable pub all_contained : List Text → List Text → Bool
  all_contained [] granted = true
  all_contained (r ∷ rs) granted =
      let rest = all_contained rs granted in
      if not (any (λ g. is_contained_by r g) granted) then false else rest

  unfoldable pub is_resources_subset : Option (List Text) → Option (List Text) → Bool
  unfolding all_contained
  is_resources_subset requested granted =
      if is_empty_list (listed granted) || is_empty_list (listed requested)
      then true
      else all_contained (listed requested) (listed granted)
