-- ===== src/Oidc/Stored.antt =====
-- What the OpenID Connect provider keeps in the cache, and the keys under which it does:
-- allauth/idp/oidc/internal/oauthlib/device_codes.py and authorization_codes.py.
use django_allauth.Prelude.{
  ℕ, ◌≡◌, refl, Bool, false, Option, List, [], ◌∷◌, ◌++◌, ◌==◌, Text, text_eq, codes, arith,
}
use django_allauth.Account.UserCode.{lower}
use django_allauth.Oidc.Context.{AuthorizationCode}

-- oauthlib's answer to a request for a device code.
pub record Device : Type 0 where
  pub user_code : Text
  pub device_code : Text
  pub expires_in : ℕ
  pub interval : ℕ

pub record DeviceData : Type 0 where
  pub expires_at : ℕ
  pub granted : Option Bool
  pub last_poll_at : ℕ
  pub client_id : Text
  pub scope : Option (List Text)
  pub device : Device
  pub resources : Option (List Text)
  -- the user who decided
  pub user : Option Text

pub data Entry : Type 0 where
  device_code_of : Text → Entry
  device_state : DeviceData → Entry
  authorization : AuthorizationCode → Entry

abbrev pub cache_user_code_key : Text → Text
cache_user_code_key user_code =
    codes "allauth.idp.oidc.user_code[" ++ (lower user_code ++ codes "]")

abbrev pub cache_device_code_key : Text → Text
cache_device_code_key device_code =
    codes "allauth.idp.oidc.device_code[" ++ (device_code ++ codes "]")

abbrev pub cache_key : Text → Text → Text
cache_key client_id code =
    codes "allauth.idp.oidc.authorization_code[" ++ (client_id ++ (b':' ∷ (code ++ codes "]")))

-- Texts that one character closes are equal as what stands in front of it.
pub closed-eq : (a b : Text) (c : ℕ) → ((a ++ c ∷ []) == (b ++ c ∷ [])) ≡ (a == b)
closed-eq [] [] c = ground arith
closed-eq [] (y ∷ []) c = ground arith
closed-eq [] (y ∷ z ∷ b) c = ground arith
closed-eq (x ∷ []) [] c = ground arith
closed-eq (x ∷ z ∷ a) [] c = ground arith
closed-eq (x ∷ a) (y ∷ b) c = ground (arith, closed-eq a b c)

-- The three kinds of keys do not meet, and device codes have keys of their own.
pub device_code_key-eq :
    (a b : Text) → (cache_device_code_key a == cache_device_code_key b) ≡ (a == b)
device_code_key-eq a b = closed-eq a b b']'

pub user_code_key-ne : (a b : Text) → (cache_user_code_key a == cache_device_code_key b) ≡ false
user_code_key-ne a b = refl
