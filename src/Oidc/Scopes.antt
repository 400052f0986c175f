-- ===== src/Oidc/Scopes.antt =====
-- allauth/idp/oidc/internal/scope.py: whether the scopes that an endpoint wants are granted.
use django_allauth.Prelude.{
  Bool, true, false, Option, none, some, List, [], ◌∷◌, Text, text_eq, Dict, lookup, if◌then◌else◌,
}
use django_allauth.Oidc.Results.{Result, ok, ◌>>=◌, assertion_error, require}
use django_allauth.Oidc.Models.{contains, is_subset}
use django_allauth.Oidc.Context.{Token}
use django_allauth.Oidc.Tokens

-- One scope, all of a list, or all of one of several lists.
pub data Wanted : Type 0 where
  one_scope : Text → Wanted
  all_scopes : List Text → Wanted
  one_of : List (List Text) → Wanted

abbrev any_list : List (List Text) → List Text → Bool
any_list [] granted = false
any_list (scopes ∷ rest) granted = if is_subset scopes granted then true else any_list rest granted

-- The empty list asks for nothing.
pub is_wanted_granted : Wanted → List Text → Bool
is_wanted_granted (one_scope s) granted = contains s granted
is_wanted_granted (all_scopes []) granted = true
is_wanted_granted (all_scopes (s ∷ scopes)) granted = any_list ((s ∷ scopes) ∷ []) granted
is_wanted_granted (one_of []) granted = true
is_wanted_granted (one_of (scopes ∷ rest)) granted = any_list (scopes ∷ rest) granted

-- What an endpoint wants: nothing, the same of all methods, or something of each method.
pub data Policy : Type 0 where
  anything : Policy
  always : Wanted → Policy
  by_method : Dict Text Wanted → Policy

abbrev scopes_of : Option Token → List Text
scopes_of none = []
scopes_of (some t) = Tokens.get_scopes t

pub is_scope_granted : Policy → Option Token → Option Text → Result Bool
unfolding is_wanted_granted
is_scope_granted anything token method = ok true
is_scope_granted (always scope) token method = ok (is_wanted_granted scope (scopes_of token))
is_scope_granted (by_method scopes) token none = ok false
is_scope_granted (by_method scopes) token (some []) = ok false
is_scope_granted (by_method scopes) token (some (x ∷ method)) =
    require assertion_error (lookup (x ∷ method) scopes) >>= λ scope.
    ok (is_wanted_granted scope (scopes_of token))
