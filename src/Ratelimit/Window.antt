-- ===== src/Ratelimit/Window.antt =====
-- allauth/core/internal/ratelimit.py: `Rate` and `apply_rate`, the sliding window itself. Times and
-- durations are counted in ticks.
pub mod Bound
pub mod Live
use django_allauth.Prelude.{
  ℕ, ◌+◌, Text, Bool, not, ◌&&◌, List, [], ◌∷◌, reverse, length, ltb, leb, if◌then◌else◌,
}

pub record Rate : Type 0 where
  pub amount : ℕ
  pub duration : ℕ
  pub per : Text

-- `while history and history[-1] <= now - rate.duration: history.pop()`, oldest timestamp first.
-- The comparison adds the duration on the left, since `-` on ℕ stops at 0.
unfoldable pub drop_expired : ℕ → ℕ → List ℕ → List ℕ
drop_expired now duration [] = []
drop_expired now duration (ts ∷ rest) =
    if leb (ts + duration) now then drop_expired now duration rest else ts ∷ rest

-- The loop on the history, which holds the newest timestamp first.
unfoldable pub evict : ℕ → ℕ → List ℕ → List ℕ
unfolding drop_expired
evict now duration history = reverse (drop_expired now duration (reverse history))

unfoldable pub apply_rate : List ℕ → ℕ → Rate → Bool → Bool × List ℕ
unfolding evict
apply_rate history now rate dry_run =
    let live = evict now rate.duration history in
    let allowed = ltb (length live) rate.amount in
    if allowed && not dry_run then (allowed, now ∷ live) else (allowed, live)
