-- ===== src/Oidc/Redirects/Tests.antt =====
-- Redirects to hosts that a pattern describes.
use django_allauth.Prelude.{◌≡◌, refl, true, false, none, some, List, [], ◌∷◌, Text, codes, arith}
use django_allauth.Oidc.Uris.{ParseResult}
use django_allauth.Oidc.Redirects.{
  wildcard_matches, is_parsed_redirect_uri_allowed, is_redirect_uri_allowed,
}
use django_allauth.Oidc.Redirects.Registered.{AnyOf, Admits, is_redirect_uri_allowed-Admits}

-- A parser of URIs that are a host and nothing else.
abbrev as_host : Text → ParseResult
as_host t = record {
  scheme = codes "https";
  netloc = t;
  path = codes "/cb";
  query = [];
  fragment = [];
  hostname = some t;
  port = none;
  username = none;
  password = none;
}

abbrev no_query : Text → List (Text × Text)
no_query t = []

abbrev patterns : List Text
patterns = codes "*.io" ∷ []

is_redirect_uri_allowed-Admits_example :
    AnyOf (λ a. Admits true (as_host a) (as_host (codes "a.io"))) patterns
unfolding is_redirect_uri_allowed is_parsed_redirect_uri_allowed wildcard_matches
is_redirect_uri_allowed-Admits_example =
    is_redirect_uri_allowed-Admits as_host no_query (codes "a.io") patterns true (omega arith, tt)
      (refl, (refl, (refl, (refl, tt)))) refl

-- Neither two labels nor none stand for a star.
refuses :
    (is_redirect_uri_allowed as_host no_query (codes "a.b.io") patterns true ≡ false)
    × (is_redirect_uri_allowed as_host no_query (codes ".io") patterns true ≡ false)
    × (is_redirect_uri_allowed as_host no_query (codes "a.io") patterns false ≡ false)
unfolding is_redirect_uri_allowed is_parsed_redirect_uri_allowed wildcard_matches
refuses = (refl, refl, refl)
