-- ===== src/Cache.antt =====
-- The cache of Django, which the program calls and does not implement: the operations that it uses,
-- with what the documentation of the cache promises of each. Time is in milliseconds.
pub mod Local
use django_allauth.Prelude.{
  ℕ, ◌+◌, ◌≤◌, ◌≡◌, Bool, true, false, Option, none, some, List, [], ltb, if◌then◌else◌, ◌==◌, Text,
  text_eq,
}

-- What rate limits and one-time passwords store: a mere mark, or the timestamps of a rate limit.
pub data Stored : Type 0 where
  mark : Stored
  hits : List ℕ → Stored

pub record Cache (V : Type 0) : Type 1 where
  pub State : Type 0
  -- `cache.get(key)` at a moment
  pub get : ℕ → Text → State → Option V
  -- `cache.set(key, value, timeout)`
  pub set : ℕ → Text → V → ℕ → State → State
  -- `cache.add(key, value, timeout)`
  pub add : ℕ → Text → V → ℕ → State → Bool × State
  -- `cache.delete(key)`
  pub delete : Text → State → State
  pub get-set :
      (now later : ℕ) (k j : Text) (v : V) (timeout : ℕ) (s : State)
      → now ≤ later
      → get later j (set now k v timeout s)
        ≡ (if k == j then (if ltb later (now + timeout) then some v else none) else get later j s)
  pub get-delete :
      (now : ℕ) (k j : Text) (s : State)
      → get now j (delete k s) ≡ (if k == j then none else get now j s)
  pub add_free :
      (now : ℕ) (k : Text) (v : V) (timeout : ℕ) (s : State)
      → get now k s ≡ none
      → add now k v timeout s ≡ (true, set now k v timeout s)
  pub add_taken :
      (now : ℕ) (k : Text) (v : V) (timeout : ℕ) (s : State) {w : V}
      → get now k s ≡ some w
      → add now k v timeout s ≡ (false, s)

-- `cache.get(key, [])`, where timestamps are kept.
abbrev pub history_of : Option Stored → List ℕ
history_of (some (hits h)) = h
history_of (some mark) = []
history_of none = []
