-- ===== src/Ratelimit/Consume.antt =====
-- allauth/core/internal/ratelimit.py: `get_cache_key`, `_consume_single_rate`, `consume`, `clear` and
-- the roll back of a usage.
pub mod Single
use django_allauth.Prelude.{
  ℕ, Bool, true, false, not, ◌&&◌, Option, none, some, List, [], ◌∷◌, ◌++◌, keep, if◌then◌else◌,
  ◌==◌, Dict, lookup, Text, text_eq, nat_eq, codes, join,
}
use django_allauth.Cache.{Cache, Stored, hits, history_of}
use django_allauth.Ratelimit.Window.{Rate, apply_rate}
use django_allauth.Ratelimit.Parse.{Parsed, ok, value_error, parse_rates}
use django_allauth.Ratelimit.World.{
  World, Outcome, done, rate_limited, improperly_configured, M, pure, raise, ◌>>=◌, ◌>>◌,
}
use django_allauth.Ratelimit.World
use django_allauth.Ratelimit.Lock.{cache_lock}

-- What `consume` reads of a request: the method, the address that `get_ip` returns, and the primary
-- key of `request.user`, if authenticated.
pub record Request : Type 0 where
  pub method : Text
  pub ip : Text
  pub user : Option Text

pub record SingleRateLimitUsage : Type 0 where
  pub cache_key : Text
  pub cache_duration : ℕ
  pub timestamp : ℕ

abbrev either : Option Text → Option Text → Option Text
either (some u) other = some u
either none other = other

abbrev or_improper : Option Text → (Text → List Text) → Outcome (List Text)
or_improper none f = improperly_configured
or_improper (some t) f = done (f t)

-- `sha256` is the hexadecimal digest of hashlib.
key_source : (Text → Text) → Request → Text → Option Text → Option Text → Outcome (List Text)
key_source sha256 request per key user =
    if per == codes "ip"
    then done (codes "ip" ∷ request.ip ∷ [])
    else if per == codes "user"
    then or_improper (either user request.user) (λ u. codes "user" ∷ u ∷ [])
    else if per == codes "key"
    then or_improper key (λ k. sha256 k ∷ [])
    else World.value_error

abbrev key_of : Text → Outcome (List Text) → Outcome Text
key_of action (done source) = done (join b':' (codes "allauth" ∷ codes "rl" ∷ action ∷ source))
key_of action rate_limited = rate_limited
key_of action improperly_configured = improperly_configured
key_of action World.value_error = World.value_error
key_of action World.unfinished = World.unfinished

unfoldable pub get_cache_key :
    (Text → Text) → Request → Text → Rate → Option Text → Option Text → Outcome Text
unfolding key_source
get_cache_key sha256 request action rate key user =
    key_of action (key_source sha256 request rate.per key user)

module _ (c : Cache Stored) where
  open c use {State, get, set, delete}

  abbrev pub history : Text → World State → List ℕ
  history cache_key w = history_of (get w.now cache_key w.cache)

  abbrev pub usage_at : Text → Rate → ℕ → SingleRateLimitUsage
  usage_at cache_key rate now = record {
    cache_key = cache_key;
    cache_duration = rate.duration;
    timestamp = now;
  }

  abbrev refused : Bool → M State (Option SingleRateLimitUsage)
  refused raise_exception = if raise_exception then raise rate_limited else pure none

  -- The body under the lock. The clock is read once: the lock is held for less than a tick.
  pub consume_locked : Text → Rate → Bool → Bool → Bool → M State (Option SingleRateLimitUsage)
  consume_locked cache_key rate dry_run raise_exception false w = refused raise_exception w
  consume_locked cache_key rate dry_run raise_exception true w =
      let (allowed, history') = apply_rate (history cache_key w) w.now rate dry_run in
      let stored : World State = record w {
        cache = set w.now cache_key (hits history') rate.duration w.cache;
      } in
      if allowed
      then (done (some (usage_at cache_key rate w.now)), if dry_run then w else stored)
      else refused raise_exception w

  pub consume_key : Text → Rate → Bool → Bool → M State (Option SingleRateLimitUsage)
  consume_key cache_key rate dry_run raise_exception =
      cache_lock c cache_key (consume_locked cache_key rate dry_run raise_exception)

  pub consume_single_rate :
      (Text → Text)
      → Request
      → Text
      → Rate
      → Option Text
      → Option Text
      → Bool
      → Bool
      → M State (Option SingleRateLimitUsage)
  consume_single_rate sha256 request action rate key user dry_run raise_exception = do
    cache_key ← raise (get_cache_key sha256 request action rate key user)
    consume_key cache_key rate dry_run raise_exception

  -- The loop of `consume`, with the usage so far; it breaks at the first rate that refuses.
  pub consume_rates :
      (Text → Text)
      → Request
      → Text
      → Option Text
      → Option Text
      → Bool
      → Bool
      → List Rate
      → List SingleRateLimitUsage
      → M State (Option (List SingleRateLimitUsage))
  consume_rates sha256 request action key user dry_run raise_exception [] usage = pure (some usage)
  consume_rates sha256 request action key user dry_run raise_exception (rate ∷ rates) usage =
      consume_single_rate sha256 request action rate key user dry_run raise_exception >>= λ single.
      elim single [
        | none ↦ pure none
        | some u ↦
            consume_rates sha256 request action key user dry_run raise_exception rates
              (usage ++ u ∷ [])
      ]

  abbrev rates_or_raise : Parsed (List Rate) → M State (List Rate)
  rates_or_raise (ok rates) = pure rates
  rates_or_raise value_error = raise World.value_error

  -- `config` is a settings dictionary such as `ACCOUNT_RATE_LIMITS`.
  pub consume :
      (Text → Text)
      → Request
      → Text
      → Dict Text Text
      → Option Text
      → Option Text
      → Bool
      → Bool
      → Bool
      → M State (Option (List SingleRateLimitUsage))
  consume sha256 request action config key user dry_run limit_get raise_exception =
      if not limit_get && request.method == codes "GET" then pure (some []) else do
        rates ← rates_or_raise (parse_rates (lookup action config))
        consume_rates sha256 request action key user dry_run raise_exception rates []

  rollback_locked : SingleRateLimitUsage → Bool → M State (Unit {0})
  rollback_locked usage false w = (done tt, w)
  rollback_locked usage true w =
      let kept = keep (λ ts. not (ts == usage.timestamp)) (history usage.cache_key w) in
      (
        done tt,
        record w { cache = set w.now usage.cache_key (hits kept) usage.cache_duration w.cache },
      )

  -- `SingleRateLimitUsage.rollback`
  pub rollback_single : SingleRateLimitUsage → M State (Unit {0})
  rollback_single usage = cache_lock c usage.cache_key (rollback_locked usage)

  -- `RateLimitUsage.rollback`
  pub rollback : List SingleRateLimitUsage → M State (Unit {0})
  rollback [] = pure tt
  rollback (usage ∷ rest) = do rollback_single usage; rollback rest

  clear_locked : Text → Bool → M State (Unit {0})
  clear_locked cache_key false w = (done tt, w)
  clear_locked cache_key true w = (done tt, record w { cache = delete cache_key w.cache })

  pub clear_rates :
      (Text → Text) → Request → Text → Option Text → Option Text → List Rate → M State (Unit {0})
  clear_rates sha256 request action key user [] = pure tt
  clear_rates sha256 request action key user (rate ∷ rates) = do
    cache_key ← raise (get_cache_key sha256 request action rate key user)
    cache_lock c cache_key (clear_locked cache_key)
    clear_rates sha256 request action key user rates

  pub clear :
      (Text → Text)
      → Request
      → Dict Text Text
      → Text
      → Option Text
      → Option Text
      → M State (Unit {0})
  clear sha256 request config action key user = do
    rates ← rates_or_raise (parse_rates (lookup action config))
    clear_rates sha256 request action key user rates
