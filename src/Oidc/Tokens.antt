-- ===== src/Oidc/Tokens.antt =====
-- allauth/idp/oidc/models.py: tokens and the queries on their table. Times are in milliseconds.
use django_allauth.Prelude.{
  ℕ, Bool, true, false, not, Option, none, some, List, [], ◌∷◌, any, keep, ltb, ◌==◌, nat_eq, Text,
  text_eq, codes,
}
use django_allauth.Oidc.Results.{Result, ok, err, ◌>>=◌, value_error}
use django_allauth.Oidc.Json.{
  Json, null, text, number, list, dict, dict_get, set_item, or_empty, texts_of, list_of,
}
use django_allauth.Oidc.Models.{values_from_text, values_to_text}
use django_allauth.Oidc.Context.{
  Token, TokenType, initial_access_token, access_token, refresh_token, authorization_code, Provider,
}

abbrev pub same_type : TokenType → TokenType → Bool
same_type initial_access_token initial_access_token = true
same_type access_token access_token = true
same_type refresh_token refresh_token = true
same_type authorization_code authorization_code = true
same_type _ _ = false

abbrev pub get_scopes : Token → List Text
get_scopes t = values_from_text t.scopes

abbrev pub set_scopes : List Text → Token → Token
set_scopes scopes t = record t { scopes = values_to_text scopes }

abbrev pub set_value : Provider → Text → Token → Token
set_value p value t = record t { hash = p.hash_token value }

abbrev pub with_extra : Token → Json → Token
with_extra t extra = record t { extra = extra }

unfoldable pub set_scope_email : Text → Token → Result Token
set_scope_email email t =
    set_item (codes "email") (text email) (or_empty t.extra) >>= λ extra. ok (with_extra t extra)

-- An email that is no text is none that the program has stored.
abbrev pub text_or_none : Json → Option Text
text_or_none (text t) = some t
text_or_none null = none
text_or_none (number n) = none
text_or_none (list l) = none
text_or_none (dict d) = none

-- `self.data.get(key)` where the data is a dictionary.
abbrev pub field_of : Text → Json → Json
field_of key (dict d) = dict_get key d
field_of key null = null
field_of key (text t) = null
field_of key (number n) = null
field_of key (list l) = null

pub get_scope_email : Token → Option Text
get_scope_email t = text_or_none (field_of (codes "email") t.extra)

abbrev pub texts_or_empty : Json → List Text
texts_or_empty (list l) = elim (texts_of l) [ none ↦ [] | some ts ↦ ts ]
texts_or_empty null = []
texts_or_empty (text t) = []
texts_or_empty (number n) = []
texts_or_empty (dict d) = []

unfoldable pub get_resources : Token → List Text
get_resources t = texts_or_empty (field_of (codes "resources") t.extra)

-- What is neither a dictionary nor missing is refused.
abbrev pub dict_only : Json → Result Json
dict_only (dict d) = ok (dict d)
dict_only null = err value_error
dict_only (text t) = err value_error
dict_only (number n) = err value_error
dict_only (list l) = err value_error

unfoldable pub set_resources : List Text → Token → Result Token
set_resources resources t = dict_only (or_empty t.extra) >>= λ extra.
    set_item (codes "resources") (list (list_of resources)) extra >>= λ extra.
    ok (with_extra t extra)

-- The queries of `TokenQuerySet`, on the rows in the order of the database.
abbrev pub is_valid : ℕ → Option ℕ → Bool
is_valid now none = true
is_valid now (some expires_at) = ltb now expires_at

abbrev pub valid : ℕ → List Token → List Token
valid now = keep (λ t. is_valid now t.expires_at)

abbrev pub expired : ℕ → List Token → List Token
expired now = keep (λ t. not (is_valid now t.expires_at))

abbrev pub by_value : Provider → Text → List Token → List Token
by_value p value = keep (λ t. t.hash == p.hash_token value)

abbrev pub of_type : TokenType → List Token → List Token
of_type type = keep (λ t. same_type t.type type)

-- `filter(type__in=types)`
abbrev pub type_in : List TokenType → Token → Bool
type_in types t = any (same_type t.type) types

-- `.first()`, and `.get()`, which wants exactly one.
abbrev pub first_of : List Token → Option Token
first_of [] = none
first_of (t ∷ ts) = some t

abbrev pub only : List Token → Option Token
only [] = none
only (t ∷ []) = some t
only (t ∷ u ∷ ts) = none

module _ (p : Provider) (now : ℕ) where
  unfoldable pub lookup_token : TokenType → Text → List Token → Option Token
  lookup_token type value rows = first_of (of_type type (by_value p value (valid now rows)))

  unfoldable pub lookup_by_value : List TokenType → Text → List Token → Option Token
  lookup_by_value types value rows = only (keep (type_in types) (by_value p value (valid now rows)))

-- `instance.delete()`, by the primary key.
abbrev pub same_pk : Option ℕ → Option ℕ → Bool
same_pk (some a) (some b) = a == b
same_pk none none = false
same_pk none (some b) = false
same_pk (some a) none = false

abbrev pub delete_token : Token → List Token → List Token
delete_token t = keep (λ r. not (same_pk r.pk t.pk))
