-- ===== src/Oidc/Redirects.antt =====
-- allauth/idp/oidc/internal/clientkit.py: the URIs to which the provider sends users back. `urlparse`
-- and `parse_qsl` of Python are parameters.
pub mod Wildcards
pub mod Registered
mod Tests
use django_allauth.Prelude.{
  ℕ, Bool, true, false, not, ◌&&◌, ◌||◌, Option, none, some, List, [], ◌∷◌, ◌++◌, any, tally, leb,
  ltb, ◌==◌, nat_eq, Text, text_eq, codes, if◌then◌else◌,
}
use django_allauth.Statekit.{truthy}
use django_allauth.Oidc.Results.{Result, ok, err, value_error}
use django_allauth.Oidc.Models.{
  Client, ClientType, confidential, public, contains, is_subset, get_redirect_uris,
  get_post_logout_redirect_uris,
}
use django_allauth.Oidc.Uris.{ParseResult}

abbrev pub same_text : Option Text → Option Text → Bool
same_text none none = true
same_text (some a) (some b) = a == b
same_text none (some b) = false
same_text (some a) none = false

abbrev pub same_number : Option ℕ → Option ℕ → Bool
same_number none none = true
same_number (some a) (some b) = a == b
same_number none (some b) = false
same_number (some a) none = false

abbrev pub is_loopback : ParseResult → Bool
is_loopback u =
    u.scheme == codes "http"
    && (same_text u.hostname (some (codes "127.0.0.1"))
        || same_text u.hostname (some (codes "::1")))

abbrev pub stars : Text → ℕ
stars = tally (λ c. c == b'*')

abbrev pub has_star : Text → Bool
has_star t = ltb 0 (stars t)

-- `parse` is `urlparse`, where a URI that it refuses with a ValueError is none. What is refused raises a
-- validation error.
pub validate_uri_wildcard_format : (Text → Option ParseResult) → Text → Bool → Bool
validate_uri_wildcard_format parse uri false = not (has_star uri)
validate_uri_wildcard_format parse uri true =
    if ltb 1 (stars uri) then false else elim (parse uri) [
      | none ↦ false
      | some u ↦ not (has_star u.scheme || has_star u.path || has_star u.query)
    ]

-- Whether the text matches the pattern of `_wildcard_to_regex`, in which a star stands for one or more
-- characters that are no dots. The `$` of the expression also matches in front of a last line break.
unfoldable pub wildcard_matches : Text → Text → Bool
wildcard_matches [] [] = true
wildcard_matches [] (c ∷ s) = c == 10 && s == []
wildcard_matches (x ∷ p) [] = false
wildcard_matches (x ∷ p) (c ∷ s) =
    let rest = wildcard_matches p s in
    let longer = wildcard_matches (x ∷ p) s in
    if x == b'*' then not (c == b'.') && (rest || longer) else x == c && rest

abbrev pub host_matches : Text → Option Text → Bool
host_matches pattern none = false
host_matches pattern (some host) = truthy (some host) && wildcard_matches pattern host

-- Of a registered host, whether it is a pattern.
abbrev pub is_pattern : Bool → Option Text → Bool
is_pattern allow none = false
is_pattern allow (some host) = allow && truthy (some host) && has_star host

abbrev pub text_or_empty : Option Text → Text
text_or_empty none = []
text_or_empty (some t) = t

abbrev pub is_scheme_hostname_allowed : ParseResult → ParseResult → Bool → Bool
is_scheme_hostname_allowed uri allowed allow_uri_wildcards =
    if not (allowed.scheme == uri.scheme)
    then false
    else if is_pattern allow_uri_wildcards allowed.hostname
    then host_matches (text_or_empty allowed.hostname) uri.hostname
    else same_text allowed.hostname uri.hostname

-- `set(a).issubset(b)` on pairs of names and values.
abbrev same_pair : Text × Text → Text × Text → Bool
same_pair (a, b) (c, d) = a == c && b == d

abbrev pub pairs_subset : List (Text × Text) → List (Text × Text) → Bool
pairs_subset [] ys = true
pairs_subset (x ∷ xs) ys =
    let rest = pairs_subset xs ys in if any (same_pair x) ys then rest else false

module _ (urlparse : Text → ParseResult) (parse_qsl : Text → List (Text × Text)) where
  unfoldable pub is_parsed_redirect_uri_allowed : ParseResult → Text → Bool → Bool
  is_parsed_redirect_uri_allowed uri allowed_uri allow_uri_wildcards =
      let allowed = urlparse allowed_uri in
      if not (is_scheme_hostname_allowed uri allowed allow_uri_wildcards)
      then false
      else if not (allowed.path == uri.path)
      then false
      else if not (is_loopback allowed) && not (same_number allowed.port uri.port)
      then false
      else pairs_subset (parse_qsl allowed.query) (parse_qsl uri.query)

  unfoldable pub is_redirect_uri_allowed : Text → List Text → Bool → Bool
  is_redirect_uri_allowed uri allowed_uris allow_uri_wildcards =
      any (λ a. is_parsed_redirect_uri_allowed (urlparse uri) a allow_uri_wildcards) allowed_uris

  abbrev origin_allowed : Bool → ParseResult → ParseResult → Bool
  origin_allowed allow_uri_wildcards origin allowed =
      is_scheme_hostname_allowed origin allowed allow_uri_wildcards
      && same_text origin.username allowed.username
      && same_text origin.password allowed.password
      && same_number origin.port allowed.port

  unfoldable pub is_origin_allowed : Text → List Text → Bool → Bool
  is_origin_allowed origin allowed_origins allow_uri_wildcards =
      any (λ a. origin_allowed allow_uri_wildcards (urlparse origin) (urlparse a)) allowed_origins

  pub is_post_logout_redirect_uri_allowed : Client → Text → ParseResult → Bool
  is_post_logout_redirect_uri_allowed client uri parsed =
      elim (get_post_logout_redirect_uris client) [
        | u ∷ us ↦ is_redirect_uri_allowed uri (u ∷ us) client.allow_uri_wildcards
        | [] ↦
            if parsed.scheme == codes "http" || parsed.scheme == codes "https"
            then is_origin_allowed uri (get_redirect_uris client) client.allow_uri_wildcards
            else true
      ]

  abbrev schemes_of : List Text → List Text
  schemes_of [] = []
  schemes_of (u ∷ us) =
      let rest = schemes_of us in
      let scheme = (urlparse u).scheme in if truthy (some scheme) then scheme ∷ rest else rest

  pub get_used_schemes : Client → List Text
  get_used_schemes client =
      schemes_of (get_redirect_uris client ++ get_post_logout_redirect_uris client)

  abbrev schemes_for : ClientType → List Text → List Text
  schemes_for confidential schemes = codes "http" ∷ codes "https" ∷ schemes
  schemes_for public schemes = codes "https" ∷ schemes

  -- `is_url` is Django's URLField; a validation error is `value_error` here.
  abbrev checked_uri : (Text → Bool) → Client → Text → Result (Option Text)
  unfolding is_post_logout_redirect_uri_allowed get_used_schemes
  checked_uri is_url client uri =
      let parsed = urlparse uri in
      let schemes = schemes_for client.type (get_used_schemes client) in
      if not (truthy (some parsed.scheme)) || not (contains parsed.scheme schemes)
      then err value_error
      else if (parsed.scheme == codes "http" || parsed.scheme == codes "https") && not (is_url uri)
      then err value_error
      else if not (is_post_logout_redirect_uri_allowed client uri parsed)
      then err value_error
      else ok (some uri)

  pub clean_post_logout_redirect_uri :
      (Text → Bool) → Option Text → Option Client → Result (Option Text)
  unfolding checked_uri
  clean_post_logout_redirect_uri is_url uri none = ok none
  clean_post_logout_redirect_uri is_url none (some client) = ok none
  clean_post_logout_redirect_uri is_url (some []) (some client) = ok none
  clean_post_logout_redirect_uri is_url (some (x ∷ uri)) (some client) =
      checked_uri is_url client (x ∷ uri)
