-- ===== src/Oidc/Redirects/Registered.antt =====
-- allauth/idp/oidc/internal/clientkit.py: a redirect goes to a URI that was registered.
use django_allauth.Prelude.{
  ℕ, ◌≤◌, ◌≡◌, refl, Bool, true, false, not, ◌&&◌, Option, none, some, List, [], ◌∷◌, nat_eq, Text,
  text_eq, arith, if◌then◌else◌, Bool-cases, inl, inr, ◌⊎◌, ap, sym, Free, All,
}
use django_allauth.Oidc.Uris.{ParseResult}
use django_allauth.Oidc.Redirects.{
  stars, host_matches, is_pattern, same_text, same_number, is_loopback,
  is_parsed_redirect_uri_allowed, is_redirect_uri_allowed, text_or_empty,
}
use django_allauth.Oidc.Redirects.Wildcards.{Instantiates, matches_once}

-- The registered host has one star at most, as the validation of URIs asks.
abbrev pub HasOneStar : Option Text → Type 0
HasOneStar none = Unit
HasOneStar (some host) = stars host ≤ 1

-- The host has no line break; a parser of URIs removes them.
abbrev pub IsOneLine : Option Text → Type 0
IsOneLine none = Unit
IsOneLine (some host) = Free 10 host

-- The host is the registered one, or one of those that its pattern describes.
abbrev pub SameHost : Bool → Option Text → Option Text → Type 0
SameHost allow registered host =
    (host ≡ registered)
    ⊎ ((allow ≡ true)
        × ((p : Text) × (h : Text) × (registered ≡ some p) × (host ≡ some h) × Instantiates p h))

same_text-eq : (a b : Option Text) → same_text a b ≡ true → b ≡ a
same_text-eq none none h = refl
same_text-eq none (some b) h = cc
same_text-eq (some a) none h = cc
same_text-eq (some a) (some b) h = ap some (sym ((text_eq.agrees a b).0 h))

same_number-eq : (a b : Option ℕ) → same_number a b ≡ true → b ≡ a
same_number-eq none none h = refl
same_number-eq none (some b) h = cc
same_number-eq (some a) none h = cc
same_number-eq (some a) (some b) h = ap some (sym ((nat_eq.agrees a b).0 h))

hosts :
    (allow : Bool) (registered host : Option Text)
    → HasOneStar registered
    → IsOneLine host
    → (if is_pattern allow registered
        then host_matches (text_or_empty registered) host
        else same_text registered host)
      ≡ true
    → SameHost allow registered host
hosts allow none host one line h = inl (same_text-eq none host h)
hosts allow (some p) none one line h = elim (Bool-cases (is_pattern allow (some p))) [
  | inl e ↦ cc
  | inr e ↦ cc
]
hosts allow (some p) (some host) one line h = elim (Bool-cases (is_pattern allow (some p))) [
  | inl e ↦ inr (
    ground arith,
    (p, host, refl, refl, matches_once p host one (ground arith) line (ground arith)),
  )
  | inr e ↦ inl (same_text-eq (some p) (some host) (ground arith))
]

-- What a redirect has in common with the registered URI that admits it.
pub record Admits (allow : Bool) (registered uri : ParseResult) : Type 0 where
  pub same_scheme : uri.scheme ≡ registered.scheme
  pub same_path : uri.path ≡ registered.path
  pub same_host : SameHost allow registered.hostname uri.hostname
  pub same_port : (is_loopback registered ≡ true) ⊎ (uri.port ≡ registered.port)

-- One of the URIs is such.
abbrev pub AnyOf : (Text → Type 0) → List Text → Type 0
AnyOf P [] = ⊥
AnyOf P (u ∷ us) = P u ⊎ AnyOf P us

gates :
    (scheme host path loopback port query : Bool)
    → (if not (if not scheme then false else host)
        then false
        else if not path
        then false
        else if not loopback && not port
        then false
        else query)
      ≡ true
    → (scheme ≡ true) × (host ≡ true) × (path ≡ true) × ((loopback ≡ true) ⊎ (port ≡ true))
gates false host path loopback port query h = cc
gates true false path loopback port query h = cc
gates true true false loopback port query h = cc
gates true true true true port query h = (refl, refl, refl, inl refl)
gates true true true false true query h = (refl, refl, refl, inr refl)
gates true true true false false query h = cc

module _ (urlparse : Text → ParseResult) (parse_qsl : Text → List (Text × Text)) where
  parsed-Admits :
      (allow : Bool) (uri : ParseResult) (a : Text)
      → HasOneStar (urlparse a).hostname
      → IsOneLine uri.hostname
      → is_parsed_redirect_uri_allowed urlparse parse_qsl uri a allow ≡ true
      → Admits allow (urlparse a) uri
  unfolding is_parsed_redirect_uri_allowed
  parsed-Admits allow uri a one line h =
      let r = urlparse a in
      let (scheme, host, path, port) = gates _ _ _ _ _ _ h in
      record {
        same_scheme = sym ((text_eq.agrees r.scheme uri.scheme).0 scheme);
        same_path = sym ((text_eq.agrees r.path uri.path).0 path);
        same_host = hosts allow r.hostname uri.hostname one line host;
        same_port = elim port [ inl e ↦ inl e | inr e ↦ inr (same_number-eq r.port uri.port e) ];
      }

  -- A redirect URI that the provider accepts goes to a place that was registered. One of the
  -- registered URIs has its scheme, its path and, except for a loopback address, its port; and its
  -- host, or else, where the client may use wildcards, a pattern of hosts from which this host comes
  -- by one label, not empty and without a dot, in place of the star. The registered hosts must have
  -- one star at most, which is what their validation asks, and the host no line break.
  pub is_redirect_uri_allowed-Admits :
      (uri : Text) (registered : List Text) (allow : Bool)
      → All (λ a. HasOneStar (urlparse a).hostname) registered
      → IsOneLine (urlparse uri).hostname
      → is_redirect_uri_allowed urlparse parse_qsl uri registered allow ≡ true
      → AnyOf (λ a. Admits allow (urlparse a) (urlparse uri)) registered
  unfolding is_redirect_uri_allowed
  is_redirect_uri_allowed-Admits uri [] allow one line h = cc
  is_redirect_uri_allowed-Admits uri (a ∷ registered) allow (first, rest) line h =
      elim (Bool-cases (is_parsed_redirect_uri_allowed urlparse parse_qsl (urlparse uri) a allow)) [
        | inl e ↦ inl (parsed-Admits allow (urlparse uri) a first line e)
        | inr e ↦ inr (is_redirect_uri_allowed-Admits uri registered allow rest line (ground arith))
      ]
