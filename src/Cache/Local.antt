-- ===== src/Cache/Local.antt =====
-- A cache in memory, which has what is asked of a cache.
use django_allauth.Prelude.{
  ℕ, ◌+◌, ◌≤◌, ◌≡◌, Bool, true, false, Option, none, some, [], arith, ltb, if◌then◌else◌, ◌==◌,
  Text, text_eq, Dict, lookup, insert, erase, lookup-insert, lookup-erase,
}
use django_allauth.Cache.{Cache}

-- A value, and the moment at which it is gone.
abbrev Entries : Type 0 → Type 0
Entries V = Dict Text (V × ℕ)

module _ {V : Type 0} where
  abbrev unexpired : ℕ → Option (V × ℕ) → Option V
  unexpired now none = none
  unexpired now (some (v, expires)) = if ltb now expires then some v else none

  abbrev local_get : ℕ → Text → Entries V → Option V
  local_get now k s = unexpired now (lookup k s)

  abbrev local_set : ℕ → Text → V → ℕ → Entries V → Entries V
  local_set now k v timeout s = insert k (v, now + timeout) s

  abbrev add_to : ℕ → Text → V → ℕ → Entries V → Option V → Bool × Entries V
  add_to now k v timeout s none = (true, local_set now k v timeout s)
  add_to now k v timeout s (some w) = (false, s)

  abbrev local_add : ℕ → Text → V → ℕ → Entries V → Bool × Entries V
  local_add now k v timeout s = add_to now k v timeout s (local_get now k s)

  pub get-set_local :
      (now later : ℕ) (k j : Text) (v : V) (timeout : ℕ) (s : Entries V)
      → now ≤ later
      → local_get later j (local_set now k v timeout s) ≡ (
          if k == j
          then (if ltb later (now + timeout) then some v else none)
          else local_get later j s)
  get-set_local now later k j v timeout s le =
      rw (lookup-insert k j (v, now + timeout) s) (ground arith)

  pub get-delete_local :
      (now : ℕ) (k j : Text) (s : Entries V)
      → local_get now j (erase k s) ≡ (if k == j then none else local_get now j s)
  get-delete_local now k j s = rw (lookup-erase k j s) (ground arith)

  pub add_free_local :
      (now : ℕ) (k : Text) (v : V) (timeout : ℕ) (s : Entries V)
      → local_get now k s ≡ none
      → local_add now k v timeout s ≡ (true, local_set now k v timeout s)
  add_free_local now k v timeout s h = rw h

  pub add_taken_local :
      (now : ℕ) (k : Text) (v : V) (timeout : ℕ) (s : Entries V) {w : V}
      → local_get now k s ≡ some w
      → local_add now k v timeout s ≡ (false, s)
  add_taken_local now k v timeout s h = rw h

  abbrev pub local_cache : Cache V
  local_cache = record {
    State = Entries V;
    get = local_get;
    set = local_set;
    add = local_add;
    delete = erase;
    get-set = get-set_local;
    get-delete = get-delete_local;
    add_free = add_free_local;
    add_taken = add_taken_local;
  }

-- The empty cache.
abbrev pub fresh : {V : Type 0} → Cache.State (local_cache {V = V})
fresh = []
