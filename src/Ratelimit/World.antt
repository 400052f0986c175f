-- ===== src/Ratelimit/World.antt =====
-- What a rate limit touches: the clock, the shared cache, and the waits of a process that finds a
-- lock taken. A call changes these and returns or raises; what was written before a raise stays.
use django_allauth.Prelude.{ℕ, List}

-- One `time.sleep`: how many milliseconds more than asked it took, and what the other processes did
-- to the cache in that time.
pub record Wait {ℓ} (S : Type ℓ) : Type ℓ where
  pub late : ℕ
  pub others : S → S

pub record World {ℓ} (S : Type ℓ) : Type ℓ where
  pub now : ℕ
  pub cache : S
  pub waits : List (Wait S)

-- `unfinished`: the call is still waiting when the listed waits are over.
pub data Outcome {ℓ} (A : Type ℓ) : Type ℓ where
  done : A → Outcome A
  rate_limited improperly_configured value_error unfinished : Outcome A

abbrev pub M {ℓ κ} : Type ℓ → Type κ → Type (ℓ ⊔ κ)
M S A = World S → Outcome A × World S

module _ {ℓ κ} {S : Type ℓ} {A : Type κ} where
  abbrev pub pure : A → M S A
  pure a w = (done a, w)

  abbrev pub raise : Outcome A → M S A
  raise e w = (e, w)

module _ {ℓ κ μ} {S : Type ℓ} {A : Type κ} {B : Type μ} where
  abbrev pub continue : Outcome A → (A → M S B) → M S B
  continue (done a) f w = f a w
  continue rate_limited f w = (rate_limited, w)
  continue improperly_configured f w = (improperly_configured, w)
  continue value_error f w = (value_error, w)
  continue unfinished f w = (unfinished, w)

  infixl 5 ◌>>=◌ ◌>>◌
  abbrev pub ◌>>=◌ : M S A → (A → M S B) → M S B
  ◌>>=◌ m f w = let (r, w') = m w in continue r f w'

  abbrev pub ◌>>◌ : M S A → M S B → M S B
  m >> n = m >>= λ _. n
