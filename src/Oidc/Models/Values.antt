-- ===== src/Oidc/Models/Values.antt =====
-- allauth/idp/oidc/models.py: lists of values that are kept in one text, a value per line.
mod Tests
use django_allauth.Prelude.{
  ℕ, ◌≡◌, refl, ap, ◌∙◌, false, List, [], ◌∷◌, map, keep, not, arith, Text, split, join, strip,
  Free, split-join, split-Free, All,
}
use django_allauth.Oidc.Models.{
  is_blank, values_from_text, values_to_text, Client, get_scopes, set_scopes, get_redirect_uris,
  set_redirect_uris, get_grant_types, set_grant_types,
}

-- A value is not empty, stands in one line, and neither starts nor ends with white space.
abbrev pub IsValue : Text → Type 0
IsValue t = (strip t ≡ t) × Free b'\n' t × (is_blank t ≡ false)

one_line : (vs : List Text) → All IsValue vs → All (Free b'\n') vs
one_line [] h = tt
one_line (v ∷ vs) (h, hs) = (h.1, one_line vs hs)

map-strip : (vs : List Text) → All IsValue vs → map strip vs ≡ vs
map-strip [] h = refl
map-strip (v ∷ vs) (h, hs) = λ i. h.0 i ∷ map-strip vs hs i

keep-filled : (vs : List Text) → All IsValue vs → keep (λ s. not (is_blank s)) vs ≡ vs
keep-filled [] h = refl
keep-filled (v ∷ vs) (h, hs) = rw (h.2) (ap (◌∷◌ v) (keep-filled vs hs))

-- What `_values_to_text` writes, `_values_from_text` reads back, whatever the values are, as long as
-- each is a line of its own: not empty, without a line break, and with no white space around it.
pub values_from_text-values_to_text :
    (vs : List Text) → All IsValue vs → values_from_text (values_to_text vs) ≡ vs
unfolding values_from_text values_to_text
values_from_text-values_to_text [] h = unfold join split strip in refl
values_from_text-values_to_text (v ∷ vs) h =
    ap (λ l. keep (λ s. not (is_blank s)) (map strip l))
      (split-join b'\n' v vs (one_line (v ∷ vs) h))
    ∙ ap (keep (λ s. not (is_blank s))) (map-strip (v ∷ vs) h)
    ∙ keep-filled (v ∷ vs) h
