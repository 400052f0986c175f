-- ===== src/Oidc/Models/Values/Tests.antt =====
-- Values on lines.
use django_allauth.Prelude.{◌≡◌, refl, List, [], ◌∷◌, Text, codes, split, strip, lstrip}
use django_allauth.Oidc.Models.{values_from_text}

abbrev two : List Text
two = codes "openid" ∷ codes "email" ∷ []

reads_lines : values_from_text (codes " openid \n\n email") ≡ two
unfolding values_from_text split strip lstrip
reads_lines = refl
