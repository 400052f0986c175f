-- ===== src/Statekit/Extreme.antt =====
-- What `get_oldest_state` finds, from either end.
use django_allauth.Prelude.{
  ℕ, ◌≤◌, ◌≡◌, refl, ◌⊎◌, Bool, true, false, Option, none, some, [], ◌∷◌, arith, inl, inr, All,
  Bool-cases, Text,
}
use django_allauth.Statekit.{States, Oldest, improves, oldest_from, get_oldest_state}

-- How the timestamp that was found stands to another: the highest, if reversed, or the lowest.
abbrev pub Bounds : Bool → ℕ → ℕ → Type 0
Bounds true found ts = ts ≤ found
Bounds false found ts = found ≤ ts

Bounds-refl : (rev : Bool) (a : ℕ) → Bounds rev a a
Bounds-refl true a = omega arith
Bounds-refl false a = omega arith

Bounds-trans : (rev : Bool) (a b c : ℕ) → Bounds rev a b → Bounds rev b c → Bounds rev a c
Bounds-trans true a b c h k = omega arith
Bounds-trans false a b c h k = omega arith

module _ {S : Type 0} where
  -- The entry is one of the dictionary's.
  abbrev pub Holds : Oldest S → States S → Type 0
  Holds o [] = ⊥
  Holds o ((id, (state, ts)) ∷ rest) =
      (o ≡ record { ts = ts; id = id; state = state }) ⊎ Holds o rest

  abbrev pub BoundsAll : Bool → ℕ → States S → Type 0
  BoundsAll rev found = All (λ e. Bounds rev found e.1.1)

  improves-Bounds :
      (rev : Bool) (ts : ℕ) (b : Oldest S) → improves rev ts (some b) ≡ true → Bounds rev ts b.ts
  improves-Bounds true ts b h = ground arith
  improves-Bounds false ts b h = ground arith

  worse-Bounds :
      (rev : Bool) (ts : ℕ) (b : Oldest S) → improves rev ts (some b) ≡ false → Bounds rev b.ts ts
  worse-Bounds true ts b h = ground arith
  worse-Bounds false ts b h = ground arith

  -- What the loop makes of the entries from one that it has set.
  abbrev Finds : Bool → Oldest S → States S → Option (Oldest S) → Type 0
  Finds rev b states r =
      (o : Oldest S) × (r ≡ some o)
      × Bounds rev o.ts b.ts
      × BoundsAll rev o.ts states
      × ((o ≡ b) ⊎ Holds o states)

  oldest_from-Finds :
      (rev : Bool) (b : Oldest S) (states : States S)
      → Finds rev b states (oldest_from rev (some b) states)
  unfolding oldest_from
  oldest_from-Finds rev b [] = (b, refl, Bounds-refl rev b.ts, tt, inl refl)
  oldest_from-Finds rev b ((id, (state, ts)) ∷ rest) =
      elim (Bool-cases (improves rev ts (some b))) [
        | inl better ↦
            let e : Oldest S = record { ts = ts; id = id; state = state } in
            let (o, found, bound, all, which) = oldest_from-Finds rev e rest in
            (
              o,
              rw (better, oldest_from) found,
              Bounds-trans rev o.ts ts b.ts bound (improves-Bounds rev ts b better),
              (bound, all),
              inr which,
            )
        | inr worse ↦
            let (o, found, bound, all, which) = oldest_from-Finds rev b rest in
            (
              o,
              rw (worse, oldest_from) found,
              bound,
              (Bounds-trans rev o.ts b.ts ts bound (worse-Bounds rev ts b worse), all),
              elim which [ inl same ↦ inl same | inr later ↦ inr (inr later) ],
            )
      ]

  -- An empty dictionary has no oldest state. In any other one, `get_oldest_state` returns an entry
  -- of it, with the lowest timestamp of all, or, reversed, with the highest.
  pub get_oldest_state_lem :
      (rev : Bool) (id : Text) (state : S) (ts : ℕ) (rest : States S)
      → let states = (id, (state, ts)) ∷ rest in
        (get_oldest_state {S = S} rev [] ≡ none)
        × ((o : Oldest S) × (get_oldest_state rev states ≡ some o)
            × BoundsAll rev o.ts states
            × Holds o states)
  unfolding get_oldest_state
  get_oldest_state_lem rev id state ts rest =
      let e : Oldest S = record { ts = ts; id = id; state = state } in
      let (o, found, bound, all, which) = oldest_from-Finds rev e rest in
      (refl, (o, found, (bound, all), which))
