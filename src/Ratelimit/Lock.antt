-- ===== src/Ratelimit/Lock.antt =====
-- allauth/core/internal/ratelimit.py: `cache_lock`, a lock kept in the cache. A process that finds it
-- taken sleeps and tries again, with growing intervals, until a deadline.
pub mod Spin
pub mod Free
use Prim.Native.Nat.{min}
use django_allauth.Prelude.{
  ℕ, ◌+◌, ◌-◌, ◌*◌, Bool, true, false, Option, none, some, List, [], ◌∷◌, ◌++◌, leb, if◌then◌else◌,
  Text, codes,
}
use django_allauth.Cache.{Cache, Stored, mark}
use django_allauth.Ratelimit.World.{Wait, World, Outcome, unfinished, M}

abbrev pub cache_lock_timeout : ℕ
cache_lock_timeout = 10000

abbrev pub cache_lock_wait_timeout : ℕ
cache_lock_wait_timeout = 1000

abbrev pub cache_lock_retry_interval : ℕ
cache_lock_retry_interval = 10

abbrev pub cache_lock_max_retry_interval : ℕ
cache_lock_max_retry_interval = 100

-- f"{cache_key}:lock"
abbrev pub lock_key : Text → Text
lock_key cache_key = cache_key ++ codes ":lock"

module _ (c : Cache Stored) where
  open c use {State, add, delete}

  -- The `while` loop, one wait for each round: whether the lock was taken, or `none` while the loop
  -- still runs.
  pub spin : Text → ℕ → ℕ → ℕ → List (Wait State) → State → Option Bool × World State
  spin key deadline interval now [] s =
      let (locked, s') = add now key mark cache_lock_timeout s in
      let w : World State = record { now = now; cache = s'; waits = [] } in
      if locked then (some true, w) else if leb deadline now then (some false, w) else (none, w)
  spin key deadline interval now (wait ∷ waits) s =
      let (locked, s') = add now key mark cache_lock_timeout s in
      let w : World State = record { now = now; cache = s'; waits = wait ∷ waits } in
      let rest =
        spin key deadline (min (interval * 2) cache_lock_max_retry_interval)
          (now + min interval (deadline - now) + wait.late) waits (wait.others s') in
      if locked then (some true, w) else if leb deadline now then (some false, w) else rest

  module _ {ℓ} {A : Type ℓ} where
    -- The body of the `with`, and the `finally` that deletes the lock if it was taken.
    abbrev pub guarded : Text → (Bool → M State A) → Option Bool → M State A
    guarded cache_key body none w = (unfinished, w)
    guarded cache_key body (some false) w = body false w
    guarded cache_key body (some true) w =
        let (r, w') = body true w in (r, record w' { cache = delete (lock_key cache_key) w'.cache })

    -- `with cache_lock(cache_key) as locked: body`
    pub cache_lock : Text → (Bool → M State A) → M State A
    cache_lock cache_key body w =
        let (locked, w') =
          spin (lock_key cache_key) (w.now + cache_lock_wait_timeout) cache_lock_retry_interval
            w.now w.waits w.cache in
        guarded cache_key body locked w'
