-- ===== src/Ratelimit/Consume/Single/Undo.antt =====
-- Rolling a usage back.
use django_allauth.Prelude.{
  ℕ, ◌<◌, ◌≡◌, refl, ap, ◌∙◌, Bool, true, false, not, Option, none, some, List, [], ◌∷◌, reverse,
  arith, keep, All, All-reverse, if◌then◌else◌, ◌==◌, Text, text_eq, nat_eq, eq_refl,
}
use django_allauth.Cache.{Cache, Stored, hits, history_of}
use django_allauth.Ratelimit.Window.{Rate, apply_rate, evict, drop_expired}
use django_allauth.Ratelimit.Window.Live.{IsDescending, is_live, evict-eq-keep}
use django_allauth.Ratelimit.World.{World, done, rate_limited}
use django_allauth.Ratelimit.Lock.{lock_key}
use django_allauth.Ratelimit.Lock.Free.{lock_key-ne, IsFree, held, cache_lock_free}
use django_allauth.Ratelimit.Consume.{
  Request, get_cache_key, consume_single_rate, SingleRateLimitUsage, history, usage_at, consume_key,
  rollback_single, rollback_locked,
}
use django_allauth.Ratelimit.Consume.Single.{get-set_now, get-held, get-unlock, consume_key_refines}

-- No hit has this timestamp.
abbrev pub IsNew : ℕ → List ℕ → Type 0
IsNew now = All (λ ts. (ts == now) ≡ false)

drop_expired-IsNew : (now d t : ℕ) (h : List ℕ) → IsNew t h → IsNew t (drop_expired now d h)
unfolding drop_expired
drop_expired-IsNew now d t [] f = tt
drop_expired-IsNew now d t (ts ∷ rest) f = ground (arith, drop_expired-IsNew now d t rest f.1)

evict-IsNew : (now d t : ℕ) (h : List ℕ) → IsNew t h → IsNew t (evict now d h)
unfolding evict
evict-IsNew now d t h f =
    All-reverse _ _ (drop_expired-IsNew now d t (reverse h) (All-reverse _ h f))

keep-IsNew : (t : ℕ) (h : List ℕ) → IsNew t h → keep (λ ts. not (ts == t)) h ≡ h
keep-IsNew t [] f = refl
keep-IsNew t (ts ∷ rest) f = ground (arith, keep-IsNew t rest f.1)

keep-apply_rate :
    (h : List ℕ) (now : ℕ) (rate : Rate)
    → IsNew now h
    → (apply_rate h now rate false).0 ≡ true
    → keep (λ ts. not (ts == now)) (apply_rate h now rate false).1 ≡ (apply_rate h now rate true).1
unfolding apply_rate
keep-apply_rate h now rate f allowed =
    ground
      (arith, keep-IsNew now (evict now rate.duration h) (evict-IsNew now rate.duration now h f))

module _ (c : Cache Stored) where
  open c use {State, get, set, delete, get-delete}

  module _ (u : SingleRateLimitUsage) (w : World State) (free : IsFree c u.cache_key w)
      (pos : 0 < u.cache_duration) where
    abbrev removed : List ℕ → List ℕ
    removed = keep (λ ts. not (ts == u.timestamp))

    abbrev undone : List ℕ → World State
    undone h = record w {
      cache =
          delete (lock_key u.cache_key) (
            set w.now u.cache_key (hits (removed h)) u.cache_duration (held c u.cache_key w).cache);
    }

    rollback-undone : rollback_single c u w ≡ (done tt, undone (history c u.cache_key w))
    unfolding rollback_single rollback_locked
    rollback-undone =
        cache_lock_free c u.cache_key (rollback_locked c u) w free
        ∙ ap (λ h. (done tt, undone h))
            (ap history_of (get-held c u.cache_key u.cache_key w (lock_key-ne u.cache_key)))

    -- With the lock free, a roll back takes the usage's timestamp out of the history of its key, and
    -- touches no other.
    pub rollback_lem :
        (j : Text)
        → (lock_key u.cache_key == j) ≡ false
        → history c j (rollback_single c u w).1
          ≡ (if u.cache_key == j then removed (history c u.cache_key w) else history c j w)
    rollback_lem j ne =
        rw
          (
            rollback-undone,
            get-unlock c w.now u.cache_key j
                (set w.now u.cache_key (hits (removed (history c u.cache_key w))) u.cache_duration
                  (held c u.cache_key w).cache)
                ne,
            get-set_now c w.now u.cache_key j (removed (history c u.cache_key w)) u.cache_duration
                (held c u.cache_key w).cache pos,
            get-held c u.cache_key j w ne,
          )
          (ground arith)

-- The history of a key that is rolled back at once, and the histories of the others.
undone_key :
    (c : Cache Stored) (k : Text) (rate : Rate) (raise_exception : Bool) (w : World c.State)
    → IsFree c k w
    → 0 < rate.duration
    → IsNew w.now (history c k w)
    → (apply_rate (history c k w) w.now rate false).0 ≡ true
    → (j : Text) → (lock_key k == j) ≡ false
    → history c j
        (rollback_single c
          (usage_at c k rate w.now)
          (consume_key c k rate false raise_exception w).1).1
      ≡ (if k == j then (apply_rate (history c k w) w.now rate true).1 else history c j w)
undone_key c k rate raise_exception w free pos new allowed j ne =
    let refined = consume_key_refines c k rate raise_exception w free pos j ne in
    let own = consume_key_refines c k rate raise_exception w free pos k (lock_key-ne k) in
    let w' = (consume_key c k rate false raise_exception w).1 in
    ground (
      arith,
      rollback_lem c (usage_at c k rate w.now) w' refined.2 pos j ne,
      own.1,
      refined.1,
      eq_refl k,
      keep-apply_rate (history c k w) w.now rate new allowed,
    )

-- What a usage is answered with, where the hit is allowed.
usage_answered :
    (c : Cache Stored) (k : Text) (rate : Rate) (raise_exception : Bool) (w : World c.State)
    → IsFree c k w
    → 0 < rate.duration
    → (apply_rate (history c k w) w.now rate false).0 ≡ true
    → (consume_key c k rate false raise_exception w).0 ≡ done (some (usage_at c k rate w.now))
usage_answered c k rate raise_exception w free pos allowed =
    let refined = consume_key_refines c k rate raise_exception w free pos k (lock_key-ne k) in
    refined.0
    ∙ ap
        (λ b.
          if b
          then done (some (usage_at c k rate w.now))
          else if raise_exception
          then rate_limited
          else done none)
        allowed

still_live :
    (h : List ℕ) (now : ℕ) (rate : Rate)
    → IsDescending now h
    → (apply_rate h now rate true).1 ≡ keep (is_live now rate.duration) h
unfolding apply_rate
still_live h now rate o = ground (arith, evict-eq-keep now rate.duration now h o)

consumed :
    (c : Cache Stored) (sha256 : Text → Text) (request : Request) (action : Text) (rate : Rate)
    (key user : Option Text) (dry_run raise_exception : Bool) (k : Text) (w : World c.State)
    → get_cache_key sha256 request action rate key user ≡ done k
    → consume_single_rate c sha256 request action rate key user dry_run raise_exception w
      ≡ consume_key c k rate dry_run raise_exception w
unfolding consume_single_rate
consumed c sha256 request action rate key user dry_run raise_exception k w e = rw e refl

-- A hit that one rate allows is taken back by rolling its usage back: the call answers with a usage,
-- and rolled back at once that leaves in the history of the key what was there and is still inside the
-- window, and the histories of all other keys as they were. The history has the newest timestamp
-- first, none above the clock, and none with its present value; the lock is free, and the duration
-- positive.
pub rollback-consume :
    (c : Cache Stored) (sha256 : Text → Text) (request : Request) (action : Text) (rate : Rate)
    (key user : Option Text) (raise_exception : Bool) (k : Text) (w : World c.State)
    → get_cache_key sha256 request action rate key user ≡ done k
    → IsFree c k w
    → 0 < rate.duration
    → IsDescending w.now (history c k w)
    → IsNew w.now (history c k w)
    → (apply_rate (history c k w) w.now rate false).0 ≡ true
    → (j : Text) → (lock_key k == j) ≡ false
    → let (r, w') =
        consume_single_rate c sha256 request action rate key user false raise_exception w in
      (usage : SingleRateLimitUsage) × (r ≡ done (some usage))
      × (history c j (rollback_single c usage w').1
          ≡ (if k == j then keep (is_live w.now rate.duration) (history c k w) else history c j w))
rollback-consume c sha256 request action rate key user raise_exception k w has_key free pos ordered
      new allowed j ne =
    let same = consumed c sha256 request action rate key user false raise_exception k w has_key in
    let usage = usage_at c k rate w.now in
    (
      usage,
      ap (λ x. x.0) same ∙ usage_answered c k rate raise_exception w free pos allowed,
      ap (λ x. history c j (rollback_single c usage x.1).1) same
          ∙ undone_key c k rate raise_exception w free pos new allowed j ne
          ∙ ap (λ h. if k == j then h else history c j w)
              (still_live (history c k w) w.now rate ordered),
    )
