-- ===== src/Account/UserCode/Tests.antt =====
-- Two codes, typed and shown.
use django_allauth.Prelude.{◌≡◌, refl, ◌⊎◌, ◌↔◌, true, false, none, some, [], ◌∷◌, codes}
use django_allauth.Account.UserCode.{compare_user_code}
use django_allauth.Account.UserCode.Reading.{IsReadable, ReadsAs, compare_user_code_iff}

compare_user_code_iff_example :
    ((compare_user_code (codes "ab-12") (codes "AB12") ≡ some true)
      ↔ (IsReadable (codes "AB12") × ReadsAs (codes "ab-12") (codes "AB12")))
    × ((compare_user_code (codes "ab-12") (codes "AB12") ≡ some true)
        ⊎ (compare_user_code (codes "ab-12") (codes "AB12") ≡ some false))
compare_user_code_iff_example = compare_user_code_iff (codes "ab-12") (codes "AB12") refl refl

agrees : compare_user_code (codes "ab-12") (codes "AB12") ≡ some true
unfolding compare_user_code
agrees = refl

-- The Kelvin sign has the lower case of the letter, and no other sign beyond ASCII is compared.
kelvin : compare_user_code (8490 ∷ []) (codes "K") ≡ some true
unfolding compare_user_code
kelvin = refl

accented : compare_user_code (233 ∷ []) (codes "E") ≡ none
unfolding compare_user_code
accented = refl
