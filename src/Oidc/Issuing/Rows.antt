-- ===== src/Oidc/Issuing/Rows.antt =====
-- allauth/idp/oidc/internal/oauthlib/request_validator.py: rows of tokens, by their type and their hash.
use django_allauth.Prelude.{
  ℕ, ◌≡◌, refl, Bool, true, false, ◌&&◌, none, some, List, [], ◌∷◌, ◌==◌, Text, text_eq, arith, All,
  All-append, Bool-cases, inl, inr,
}
use django_allauth.Oidc.Results.{Result, ok, err, ◌>>=◌, taken_apart}
use django_allauth.Oidc.Json.{Json, or_empty}
use django_allauth.Oidc.Context.{
  Token, TokenType, initial_access_token, access_token, refresh_token, authorization_code, Provider,
}
use django_allauth.Oidc.Tokens.{
  same_type, lookup_token, same_pk, delete_token, set_scope_email, set_resources, with_extra,
  dict_only,
}
use django_allauth.Oidc.Issuing.{Table, bulk_create, with_resources}

-- A row of the type with the hash.
abbrev pub is_row : TokenType → Text → Token → Bool
is_row type hash t = same_type t.type type && t.hash == hash

-- The constraint of the table for one row: no other has its type and its hash.
abbrev pub Sole : Token → List Token → Type 0
Sole rt = All (λ r. is_row rt.type rt.hash r ≡ true → same_pk r.pk rt.pk ≡ true)

-- No row has the type and the hash.
abbrev pub Lacks : TokenType → Text → List Token → Type 0
Lacks type hash = All (λ r. is_row type hash r ≡ false)

pub lookup_token-Lacks :
    (p : Provider) (now : ℕ) (type : TokenType) (value : Text) (rows : List Token)
    → Lacks type (p.hash_token value) rows
    → lookup_token p now type value rows ≡ none
unfolding lookup_token
lookup_token-Lacks p now type value [] h = refl
lookup_token-Lacks p now type value (r ∷ rows) h =
    ground (arith, lookup_token-Lacks p now type value rows h.1)

pub same_type-eq : (a b : TokenType) → same_type a b ≡ true → a ≡ b
same_type-eq initial_access_token initial_access_token h = refl
same_type-eq initial_access_token access_token h = cc
same_type-eq initial_access_token refresh_token h = cc
same_type-eq initial_access_token authorization_code h = cc
same_type-eq access_token initial_access_token h = cc
same_type-eq access_token access_token h = refl
same_type-eq access_token refresh_token h = cc
same_type-eq access_token authorization_code h = cc
same_type-eq refresh_token initial_access_token h = cc
same_type-eq refresh_token access_token h = cc
same_type-eq refresh_token refresh_token h = refl
same_type-eq refresh_token authorization_code h = cc
same_type-eq authorization_code initial_access_token h = cc
same_type-eq authorization_code access_token h = cc
same_type-eq authorization_code refresh_token h = cc
same_type-eq authorization_code authorization_code h = refl

-- What a lookup finds has the type and the hash that it asked for.
pub lookup_token-some :
    (p : Provider) (now : ℕ) (type : TokenType) (value : Text) (rows : List Token) {t : Token}
    → lookup_token p now type value rows ≡ some t
    → (t.type ≡ type) × (t.hash ≡ p.hash_token value)
unfolding lookup_token
lookup_token-some p now type value [] h = cc
lookup_token-some p now type value (r ∷ rows) {t} h = ground (
  arith,
  lookup_token-some p now type value rows {t = t},
  same_type-eq r.type type,
  text_eq.agrees r.hash (p.hash_token value),
)

pub delete_token-Lacks :
    (rt : Token) (rows : List Token) → Sole rt rows → Lacks rt.type rt.hash (delete_token rt rows)
delete_token-Lacks rt [] h = tt
delete_token-Lacks rt (r ∷ rows) (s, h) = elim (Bool-cases (same_pk r.pk rt.pk)) [
  | inl e ↦ rw e (delete_token-Lacks rt rows h)
  | inr e ↦ rw e (ground arith, delete_token-Lacks rt rows h)
]

-- Rows that were added without the hash.
pub bulk_create-Lacks :
    (type : TokenType) (hash : Text) (ts : List Token) (table : Table)
    → Lacks type hash ts
    → Lacks type hash table.rows
    → Lacks type hash (bulk_create ts table).rows
bulk_create-Lacks type hash [] table new old = old
bulk_create-Lacks type hash (t ∷ ts) table new old =
    bulk_create-Lacks type hash ts _ new.1
      (All-append (λ r. is_row type hash r ≡ false) table.rows _ old (new.0, tt))

-- The same type and the same hash.
abbrev pub Kin : Token → Token → Type 0
Kin t u = (u.type ≡ t.type) × (u.hash ≡ t.hash)

with_extra-Kin :
    (t : Token) (m : Result Json) {u : Token}
    → (m >>= λ extra. ok (with_extra t extra)) ≡ ok u
    → Kin t u
with_extra-Kin t (ok extra) h = ground arith
with_extra-Kin t (err e) h = cc

pub set_scope_email-Kin :
    (email : Text) (t : Token) {u : Token} → set_scope_email email t ≡ ok u → Kin t u
unfolding set_scope_email
set_scope_email-Kin email t h = with_extra-Kin t _ h

set_resources-Kin : (rs : List Text) (t : Token) {u : Token} → set_resources rs t ≡ ok u → Kin t u
unfolding set_resources
set_resources-Kin rs t h =
    taken_apart (dict_only (or_empty t.extra)) _ h (λ extra made e. with_extra-Kin t _ e)

pub with_resources-Kin :
    (rs : List Text) (t : Token) {u : Token} → with_resources rs t ≡ ok u → Kin t u
with_resources-Kin [] t h = ground arith
with_resources-Kin (r ∷ rs) t h = set_resources-Kin (r ∷ rs) t h

pub Kin-is_row :
    (type : TokenType) (hash : Text) (t u : Token)
    → Kin t u
    → is_row type hash u ≡ is_row type hash t
Kin-is_row type hash t u (same, same_hash) = λ i. same_type (same i) type && same_hash i == hash
