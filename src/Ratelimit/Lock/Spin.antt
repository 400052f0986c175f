-- ===== src/Ratelimit/Lock/Spin.antt =====
-- How long a process waits for the lock.
use Prim.Native.Nat.{min}
use django_allauth.Prelude.{
  ℕ, ◌+◌, ◌-◌, ◌*◌, ◌≤◌, ◌≡◌, true, List, [], ◌∷◌, arith, length, is_some, Text,
}
use django_allauth.Cache.{Cache, Stored, mark}
use django_allauth.Ratelimit.World.{Wait}
use django_allauth.Ratelimit.Lock.{spin}

abbrev pub lateness {ℓ} : {S : Type ℓ} → List (Wait S) → ℕ
lateness [] = 0
lateness (wait ∷ waits) = wait.late + lateness waits

module _ (c : Cache Stored) where
  open c use {State}

  spin_ends :
      (key : Text) (deadline interval now : ℕ) (waits : List (Wait State)) (s : State)
      → 10 ≤ interval
      → deadline ≤ now + 10 * length waits
      → is_some (spin c key deadline interval now waits s).0 ≡ true
  unfolding spin
  spin_ends key deadline interval now [] s long enough = ground arith
  spin_ends key deadline interval now (wait ∷ waits) s long enough = ground (
    arith,
    spin_ends key deadline (min (interval * 2) 100)
        (now + min interval (deadline - now) + wait.late) waits
        (wait.others (c.add now key mark 10000 s).1),
  )

  spin_bound :
      (key : Text) (deadline interval now slack : ℕ) (waits : List (Wait State)) (s : State)
      → now ≤ deadline + slack
      → (spin c key deadline interval now waits s).1.now ≤ deadline + slack + lateness waits
  unfolding spin
  spin_bound key deadline interval now slack [] s le = ground arith
  spin_bound key deadline interval now slack (wait ∷ waits) s le = ground (
    arith,
    spin_bound key deadline (min (interval * 2) 100)
        (now + min interval (deadline - now) + wait.late) (slack + wait.late) waits
        (wait.others (c.add now key mark 10000 s).1),
  )

  -- However the other processes treat the cache, a hundred rounds are enough for a process to have
  -- the lock or to give up, and its clock is then at most one second, and the lateness of its
  -- sleeps, later than at the start.
  pub spin_ends_in_time :
      (key : Text) (now : ℕ) (waits : List (Wait State)) (s : State)
      → 100 ≤ length waits
      → let (locked, w) = spin c key (now + 1000) 10 now waits s in
        (is_some locked ≡ true) × (w.now ≤ now + 1000 + lateness waits)
  spin_ends_in_time key now waits s enough = (
    spin_ends key (now + 1000) 10 now waits s (omega arith) (omega arith),
    omega (arith, spin_bound key (now + 1000) 10 now 0 waits s (omega arith)),
  )
