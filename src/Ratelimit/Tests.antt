-- ===== src/Ratelimit/Tests.antt =====
-- Runs of the rate limit on small inputs.
use django_allauth.Prelude.{
  ℕ, zero, suc, ◌+◌, ◌*◌, ◌≤◌, ◌≡◌, refl, true, false, ◌&&◌, none, some, List, [], ◌∷◌, ◌++◌, arith,
  tally, keep, is_some, if◌then◌else◌, ◌==◌, Text, text_eq, codes, join, lookup, nat_eq,
}
use django_allauth.Cache.{Cache, Stored}
use django_allauth.Cache.Local.{local_cache, fresh}
use django_allauth.Ratelimit.Window.{Rate, apply_rate}
use django_allauth.Ratelimit.Window.Bound.{in_window, allowed_hits, allowed_hits-le-amount}
use django_allauth.Ratelimit.Window.Live.{
  apply_rate_by_filter, IsDescending, is_live, apply_rate-eq-by_filter,
}
use django_allauth.Ratelimit.Parse.{ok, parse_rate, unit_map}
use django_allauth.Ratelimit.Parse.Reads.{numeral, value, parse_rate_reads}
use django_allauth.Ratelimit.World.{Wait, World, done}
use django_allauth.Ratelimit.Lock.{spin, lock_key}
use django_allauth.Ratelimit.Lock.Free.{IsFree}
use django_allauth.Ratelimit.Lock.Spin.{lateness, spin_ends_in_time}
use django_allauth.Ratelimit.Consume.{
  Request, SingleRateLimitUsage, get_cache_key, consume_single_rate, history, usage_at, consume_key,
  rollback_single,
}
use django_allauth.Ratelimit.Consume.Single.{consume_key_refines}
use django_allauth.Ratelimit.Consume.Single.Undo.{rollback-consume}

abbrev two_a_minute : Rate
two_a_minute = record { amount = 2; duration = 60000; per = codes "ip" }

abbrev three_hits : List ℕ
three_hits = 100 ∷ 200 ∷ 300 ∷ []

allowed_hits-le-amount_example :
    tally (in_window 50 60000) (allowed_hits two_a_minute [] [] three_hits) ≤ 2
allowed_hits-le-amount_example = allowed_hits-le-amount two_a_minute three_hits 50 (omega arith)

apply_rate-eq-by_filter_example :
    (apply_rate (200 ∷ 100 ∷ []) 60150 two_a_minute false
      ≡ apply_rate_by_filter (200 ∷ 100 ∷ []) 60150 two_a_minute false)
    × IsDescending 60150 (apply_rate (200 ∷ 100 ∷ []) 60150 two_a_minute false).1
apply_rate-eq-by_filter_example =
    apply_rate-eq-by_filter (200 ∷ 100 ∷ []) 60150 two_a_minute false (omega arith)

minutes : lookup b'm' unit_map ≡ some 60
unfolding lookup unit_map
minutes = refl

-- "20/5m/ip"
parse_rate_reads_example :
    parse_rate
      (join b'/' (numeral (2 ∷ 0 ∷ []) ∷ (numeral (5 ∷ []) ++ b'm' ∷ []) ∷ codes "ip" ∷ []))
    ≡ ok (record {
      amount = value (2 ∷ 0 ∷ []);
      duration = value (5 ∷ []) * 60 * 1000;
      per = codes "ip";
    })
parse_rate_reads_example =
    parse_rate_reads 2 (0 ∷ []) 5 [] b'm' 60 (codes "ip") (omega arith) (omega arith) minutes
      (refl, (refl, tt))

abbrev idle : ℕ → List (Wait (Cache.State (local_cache {V = Stored})))
idle zero = []
idle (suc n) = record { late = 1; others = λ s. s } ∷ idle n

abbrev key : Text
key = codes "k"

spin_ends_in_time_example :
    let (locked, w) = spin local_cache (lock_key key) (5 + 1000) 10 5 (idle 100) fresh in
    (is_some locked ≡ true) × (w.now ≤ 5 + 1000 + lateness (idle 100))
spin_ends_in_time_example =
    spin_ends_in_time local_cache (lock_key key) 5 (idle 100) fresh (omega arith)

abbrev start : World (Cache.State (local_cache {V = Stored}))
start = record { now = 7; cache = fresh; waits = [] }

consume_key_refines_example :
    let (r, w') = consume_key local_cache key two_a_minute false false start in
    let (allowed, h') = apply_rate (history local_cache key start) 7 two_a_minute false in
    (r ≡ (if allowed then done (some (usage_at local_cache key two_a_minute 7)) else done none))
    × (history local_cache key w'
        ≡ (if allowed && key == key then h' else history local_cache key start))
    × IsFree local_cache key w'
    × (w'.now ≡ 7)
unfolding lookup
consume_key_refines_example =
    consume_key_refines local_cache key two_a_minute false start refl (omega arith) key refl

abbrev visit : Request
visit = record { method = codes "POST"; ip = codes "::1"; user = none }

abbrev ip_key : Text
ip_key = codes "allauth:rl:login:ip:::1"

rollback-consume_example :
    let (r, w') =
      consume_single_rate local_cache
        (λ s. s)
        visit
        (codes "login")
        two_a_minute
        none
        none
        false
        false
        start in
    (usage : SingleRateLimitUsage) × (r ≡ done (some usage))
    × (history local_cache ip_key (rollback_single local_cache usage w').1 ≡ (
        if ip_key == ip_key
        then keep (is_live 7 60000) (history local_cache ip_key start)
        else history local_cache ip_key start))
unfolding apply_rate lookup get_cache_key join
rollback-consume_example =
    rollback-consume local_cache (λ s. s) visit (codes "login") two_a_minute none none false ip_key
      start refl refl (omega arith) tt tt refl ip_key refl
