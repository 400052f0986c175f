-- ===== src/Ratelimit/Lock/Free.antt =====
-- A lock that nobody holds.
use django_allauth.Prelude.{
  ℕ, ◌+◌, ◌≡◌, Bool, true, false, some, none, List, [], ◌∷◌, arith, ◌==◌, Text, text_eq,
  text_eqb_iff, append-ne,
}
use django_allauth.Cache.{Cache, Stored, mark}
use django_allauth.Ratelimit.World.{Wait, World, M}
use django_allauth.Ratelimit.Lock.{lock_key, spin, cache_lock}

pub lock_key-ne : (k : Text) → (lock_key k == k) ≡ false
lock_key-ne k = append-ne k b':' _

pub ne-lock_key : (k : Text) → (k == lock_key k) ≡ false
ne-lock_key k =
    ground (arith, text_eqb_iff k (lock_key k), text_eqb_iff (lock_key k) k, lock_key-ne k)

module _ (c : Cache Stored) where
  open c use {State, get, set, add, delete, get-set, get-delete, add_free}

  -- Nobody holds the lock of the key.
  abbrev pub IsFree : Text → World State → Type 0
  IsFree k w = get w.now (lock_key k) w.cache ≡ none

  abbrev pub held : Text → World State → World State
  held k w = record w { cache = set w.now (lock_key k) mark 10000 w.cache }

  spin_free :
      (k : Text) (deadline interval now : ℕ) (waits : List (Wait State)) (s : State)
      → get now (lock_key k) s ≡ none
      → spin c (lock_key k) deadline interval now waits s ≡ (
        some true,
        record { now = now; cache = set now (lock_key k) mark 10000 s; waits = waits },
      )
  unfolding spin
  spin_free k deadline interval now [] s free = rw (add_free now (lock_key k) mark 10000 s free)
  spin_free k deadline interval now (wait ∷ waits) s free =
      rw (add_free now (lock_key k) mark 10000 s free)

  -- With the lock free, a `with` block runs its body once and gives the lock back.
  pub cache_lock_free {ℓ} :
      {A : Type ℓ} (k : Text) (body : Bool → M State A) (w : World State)
      → IsFree k w
      → cache_lock c k body w ≡ (
          let (r, w') = body true (held k w) in
          (r, record w' { cache = delete (lock_key k) w'.cache }))
  unfolding cache_lock
  cache_lock_free k body w free = rw (spin_free k (w.now + 1000) 10 w.now w.waits w.cache free)
