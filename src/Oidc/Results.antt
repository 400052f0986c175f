-- ===== src/Oidc/Results.antt =====
-- The exceptions that the OpenID Connect provider raises, as values.
use django_allauth.Prelude.{◌≡◌, refl, ap, ◌∙◌, Option, none, some}

pub data Error : Type 0 where
  -- oauthlib's errors, in the words of the protocol
  invalid_request invalid_client invalid_grant unsupported_grant_type slow_down
        authorization_pending access_denied invalid_target :
      Error
  -- allauth's validation error, and Python's own
  incorrect_code value_error type_error key_error assertion_error rate_limited : Error

pub data Result {ℓ} (A : Type ℓ) : Type ℓ where
  ok : A → Result A
  err : Error → Result A

infixl 5 ◌>>=◌
abbrev pub ◌>>=◌ {ℓ κ} : {A : Type ℓ} {B : Type κ} → Result A → (A → Result B) → Result B
ok a >>= f = f a
err e >>= f = err e

-- A missing value raises.
abbrev pub require {ℓ} : {A : Type ℓ} → Error → Option A → Result A
require e none = err e
require e (some a) = ok a

-- A chain of results is taken step by step, and apart.
module _ {ℓ κ} {A : Type ℓ} {B : Type κ} where
  pub after_ok :
      {m : Result A} (f : A → Result B) {a : A} {r : Result B} → m ≡ ok a → f a ≡ r → (m >>= f) ≡ r
  after_ok {m} f e h = ap (λ x. x >>= f) e ∙ h

  pub after_err : {m : Result A} (f : A → Result B) {e : Error} → m ≡ err e → (m >>= f) ≡ err e
  after_err {m} f h = ap (λ x. x >>= f) h

  pub taken_apart {μ} :
      {C : Type μ} (m : Result A) (f : A → Result B) {b : B}
      → (m >>= f) ≡ ok b
      → ((a : A) → m ≡ ok a → f a ≡ ok b → C)
      → C
  taken_apart (ok a) f h k = k a refl h
  taken_apart (err e) f h k = cc

pub require-ok {ℓ} :
    {A : Type ℓ} (e : Error) (o : Option A) {a : A} → require e o ≡ ok a → o ≡ some a
require-ok e none h = cc
require-ok e (some b) h = cc
