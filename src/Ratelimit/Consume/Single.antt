-- ===== src/Ratelimit/Consume/Single.antt =====
-- One rate under a free lock: the cache as a table of histories, which a call changes by
-- `apply_rate`.
pub mod Undo
use django_allauth.Prelude.{
  ℕ, ◌+◌, ◌≤◌, ◌<◌, ◌≡◌, refl, ap, sym, ◌∙◌, ◌≢◌, Bool, true, false, ◌&&◌, Option, none, some, List,
  [], ◌∷◌, arith, eq_refl, if◌then◌else◌, ◌==◌, Text, text_eq, text_eqb_iff, ltb, inl, inr,
  Bool-cases,
}
use native.Mathlib.Nat.{le_refl}
use django_allauth.Cache.{Cache, Stored, mark, hits, history_of}
use django_allauth.Ratelimit.Window.{Rate, apply_rate}
use django_allauth.Ratelimit.World.{World, Outcome, done, rate_limited, M}
use django_allauth.Ratelimit.Lock.{lock_key, cache_lock}
use django_allauth.Ratelimit.Lock.Free.{lock_key-ne, ne-lock_key, IsFree, held, cache_lock_free}
use django_allauth.Ratelimit.Consume.{
  SingleRateLimitUsage, history, usage_at, consume_locked, consume_key,
}

ne→eqb : (j k : Text) → j ≢ k → (k == j) ≡ false
ne→eqb j k ne = ground (arith, text_eqb_iff k j)

module _ (c : Cache Stored) where
  open c use {State, get, set, delete, get-set, get-delete}

  get-set_now :
      (now : ℕ) (k j : Text) (h : List ℕ) (timeout : ℕ) (s : State)
      → 0 < timeout
      → get now j (set now k (hits h) timeout s) ≡ (if k == j then some (hits h) else get now j s)
  get-set_now now k j h timeout s pos =
      rw (get-set now now k j (hits h) timeout s (le_refl now)) (ground arith)

  -- The lock's own entry shows under no other key.
  get-held :
      (k j : Text) (w : World State)
      → (lock_key k == j) ≡ false
      → get w.now j (held c k w).cache ≡ get w.now j w.cache
  get-held k j w ne = rw (get-set w.now w.now (lock_key k) j mark 10000 w.cache (le_refl w.now), ne)

  get-unlock :
      (now : ℕ) (k j : Text) (s : State)
      → (lock_key k == j) ≡ false
      → get now j (delete (lock_key k) s) ≡ get now j s
  get-unlock now k j s ne = rw (get-delete now (lock_key k) j s, ne)

  module _ (k : Text) (rate : Rate) (raise_exception : Bool) (w : World State) (free : IsFree c k w)
      (pos : 0 < rate.duration) where
    abbrev pub before : List ℕ
    before = history c k w

    abbrev verdict : Bool × List ℕ
    verdict = apply_rate before w.now rate false

    abbrev after : World State
    after = (consume_key c k rate false raise_exception w).1

    history-held : history c k (held c k w) ≡ before
    history-held = ap history_of (get-held k k w (lock_key-ne k))

    consume_key-free : consume_key c k rate false raise_exception w ≡ (
        let (r, w') = consume_locked c k rate false raise_exception true (held c k w) in
        (r, record w' { cache = delete (lock_key k) w'.cache }))
    unfolding consume_key
    consume_key-free = cache_lock_free c k (consume_locked c k rate false raise_exception) w free

    -- The result for a history, with the lock given back.
    abbrev finish : List ℕ → Outcome (Option SingleRateLimitUsage) × World State
    finish h =
        let (allowed, h') = apply_rate h w.now rate false in
        let taken = held c k w in
        if allowed
        then (
          done (some (usage_at c k rate w.now)),
          record w {
            cache = delete (lock_key k) (set w.now k (hits h') rate.duration taken.cache);
          },
        )
        else (
          (if raise_exception then rate_limited else done none),
          record w { cache = delete (lock_key k) taken.cache },
        )

    locked-finish :
        (let (r, w') = consume_locked c k rate false raise_exception true (held c k w) in
          (r, record w' { cache = delete (lock_key k) w'.cache }))
        ≡ finish (history c k (held c k w))
    unfolding consume_locked
    locked-finish = ground arith

    consume_key-finish : consume_key c k rate false raise_exception w ≡ finish before
    consume_key-finish = consume_key-free ∙ locked-finish ∙ ap finish history-held

    -- What a call does to the table of histories: the key's own entry is replaced by what
    -- `apply_rate` returns, if it allows the hit, and no other entry changes.
    history-finish :
        (j : Text)
        → (lock_key k == j) ≡ false
        → let (allowed, h') = apply_rate before w.now rate false in
          history c j (finish before).1 ≡ (if allowed && k == j then h' else history c j w)
    history-finish j ne = elim (Bool-cases verdict.0) [
      | inl allowed ↦
          rw
            (
              allowed,
              get-unlock w.now k j (set w.now k (hits verdict.1) rate.duration (held c k w).cache)
                  ne,
              get-set_now w.now k j verdict.1 rate.duration (held c k w).cache pos,
              get-held k j w ne,
            )
            (ground arith)
      | inr refused ↦
          rw (refused, get-unlock w.now k j (held c k w).cache ne, get-held k j w ne) (ground arith)
    ]

    IsFree-finish : IsFree c k (finish before).1
    IsFree-finish = ground (
      arith,
      eq_refl (lock_key k),
      get-delete w.now (lock_key k) (lock_key k) (held c k w).cache,
      get-delete w.now (lock_key k) (lock_key k)
          (set w.now k (hits verdict.1) rate.duration (held c k w).cache),
    )

    -- With the lock free, one call is one `apply_rate` on the history that the cache holds for its
    -- key: it answers with a usage exactly when `apply_rate` allows the hit, refuses by `None` or by
    -- raising as asked, replaces that history by the one that `apply_rate` returns (a refusal leaves
    -- it), touches no other entry but the lock's, and leaves the lock free and the clock as it was.
    -- The duration is positive.
    pub consume_key_refines :
        (j : Text)
        → (lock_key k == j) ≡ false
        → let (r, w') = consume_key c k rate false raise_exception w in
          let (allowed, h') = apply_rate before w.now rate false in
          (r ≡ (
            if allowed
            then done (some (usage_at c k rate w.now))
            else if raise_exception
            then rate_limited
            else done none))
          × (history c j w' ≡ (if allowed && k == j then h' else history c j w))
          × IsFree c k w'
          × (w'.now ≡ w.now)
    consume_key_refines j ne =
        rw consume_key-finish (ground arith, history-finish j ne, IsFree-finish, ground arith)
