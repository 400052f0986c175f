-- ===== src/Oidc/PrivateKeys/Tests.antt =====
-- A key that is being replaced by another.
use django_allauth.Prelude.{◌≤◌, ◌≡◌, refl, true, false, none, some, List, [], ◌∷◌, codes, All}
use django_allauth.Oidc.PrivateKeys.{
  PrivateKey, filter_keys, get_signing_key, get_jwks_cache_control,
}
use django_allauth.Oidc.PrivateKeys.Signing.{OutlivesCache, jwks-OutlivesCache}

abbrev old_key : PrivateKey
old_key = record {
  not_before = none;
  expires_at = some 100000;
  issued_at = some 1000;
  pem = codes "old";
}

abbrev next_key : PrivateKey
next_key = record {
  not_before = some 50000;
  expires_at = none;
  issued_at = some 40000;
  pem = codes "next";
}

abbrev keys : List PrivateKey
keys = old_key ∷ next_key ∷ []

-- The next key signs once its time has come.
signs : (get_signing_key 45000 keys ≡ some old_key) × (get_signing_key 50000 keys ≡ some next_key)
unfolding get_signing_key filter_keys
signs = (refl, refl)

clamps : get_jwks_cache_control 45000 3600 keys ≡ 55
unfolding get_jwks_cache_control filter_keys
clamps = refl

jwks-OutlivesCache_example :
    let seconds = get_jwks_cache_control 45000 3600 keys in
    (seconds ≤ 3600)
    × All (λ k. OutlivesCache 45000 seconds k.expires_at) (filter_keys 45000 keys false true)
jwks-OutlivesCache_example = jwks-OutlivesCache 45000 3600 keys
