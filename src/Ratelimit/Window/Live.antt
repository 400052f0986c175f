-- ===== src/Ratelimit/Window/Live.antt =====
-- On a history with the newest timestamp first, the loop is a filter, so a refusal is justified.
use mathlib.Core.List.{reverse-cons, reverse-reverse}
use django_allauth.Prelude.{
  inl, inr, Bool-cases, false, ℕ, ◌+◌, ◌≤◌, ◌<◌, ◌≡◌, refl, sym, ap, ◌∙◌, Bool, true, not, ◌&&◌,
  List, [], ◌∷◌, ◌++◌, reverse, arith, length, keep, ltb, leb, if◌then◌else◌,
}
use django_allauth.Ratelimit.Window.{Rate, drop_expired, evict, apply_rate}

-- The newest timestamp is the first, and none is above the bound.
abbrev pub IsDescending : ℕ → List ℕ → Type 0
IsDescending bound [] = Unit
IsDescending bound (ts ∷ rest) = (ts ≤ bound) × IsDescending ts rest

-- Still inside the window that ends at `now`.
abbrev pub is_live : ℕ → ℕ → ℕ → Bool
is_live now d ts = ltb now (ts + d)

abbrev or_newest : ℕ → ℕ → ℕ → List ℕ → List ℕ
or_newest now d ts [] = if leb (ts + d) now then [] else ts ∷ []
or_newest now d ts (y ∷ rest) = (y ∷ rest) ++ ts ∷ []

-- The newest timestamp is looked at only when all older ones are gone.
drop_expired-snoc :
    (now d ts : ℕ) (ys : List ℕ)
    → drop_expired now d (ys ++ ts ∷ []) ≡ or_newest now d ts (drop_expired now d ys)
unfolding drop_expired
drop_expired-snoc now d ts [] = refl
drop_expired-snoc now d ts (y ∷ ys) = ground (arith, drop_expired-snoc now d ts ys)

none_live :
    (now d bound : ℕ) (h : List ℕ)
    → IsDescending bound h
    → bound + d ≤ now
    → keep (is_live now d) h ≡ []
none_live now d bound [] o le = refl
none_live now d bound (ts ∷ rest) o le = ground (arith, none_live now d ts rest o.1)

or_newest_live : (now d ts : ℕ) (ys : List ℕ) → now < ts + d → or_newest now d ts ys ≡ ys ++ ts ∷ []
or_newest_live now d ts [] h = ground arith
or_newest_live now d ts (y ∷ ys) h = refl

drop_expired-reverse_cons :
    (now d ts : ℕ) (rest : List ℕ)
    → IsDescending ts rest
    → drop_expired now d (reverse rest) ≡ reverse (keep (is_live now d) rest)
    → drop_expired now d (reverse (ts ∷ rest)) ≡ reverse (keep (is_live now d) (ts ∷ rest))
drop_expired-reverse_cons now d ts rest o step = elim (Bool-cases (ltb now (ts + d))) [
  | inl live ↦
      rw (live, reverse-cons ts rest, drop_expired-snoc now d ts (reverse rest), step)
        (or_newest_live now d ts (reverse (keep (is_live now d) rest)) (ground arith)
          ∙ sym (reverse-cons ts (keep (is_live now d) rest)))
  | inr gone ↦
      let nothing = none_live now d ts rest o (ground arith) in
      rw (gone, reverse-cons ts rest, drop_expired-snoc now d ts (reverse rest), step, nothing)
        (ground arith)
]

drop_expired-reverse :
    (now d bound : ℕ) (h : List ℕ)
    → IsDescending bound h
    → drop_expired now d (reverse h) ≡ reverse (keep (is_live now d) h)
unfolding drop_expired
drop_expired-reverse now d bound [] o = refl
drop_expired-reverse now d bound (ts ∷ rest) o =
    drop_expired-reverse_cons now d ts rest o.1 (drop_expired-reverse now d ts rest o.1)

-- The loop from the back computes the filter by "still inside the window".
pub evict-eq-keep :
    (now d bound : ℕ) (h : List ℕ) → IsDescending bound h → evict now d h ≡ keep (is_live now d) h
unfolding evict
evict-eq-keep now d bound h o =
    ap reverse (drop_expired-reverse now d bound h o) ∙ reverse-reverse (keep (is_live now d) h)

-- `apply_rate` by a single pass: what the rate means.
abbrev pub apply_rate_by_filter : List ℕ → ℕ → Rate → Bool → Bool × List ℕ
apply_rate_by_filter history now rate dry_run =
    let live = keep (is_live now rate.duration) history in
    let allowed = ltb (length live) rate.amount in
    if allowed && not dry_run then (allowed, now ∷ live) else (allowed, live)

IsDescending-mono : (a b : ℕ) (h : List ℕ) → a ≤ b → IsDescending a h → IsDescending b h
IsDescending-mono a b [] le o = tt
IsDescending-mono a b (ts ∷ rest) le o = (omega arith, o.1)

keep-IsDescending :
    (p : ℕ → Bool) (bound : ℕ) (h : List ℕ) → IsDescending bound h → IsDescending bound (keep p h)
keep-IsDescending p bound [] o = tt
keep-IsDescending p bound (ts ∷ rest) o =
    ground (arith, keep-IsDescending p ts rest o.1, IsDescending-mono ts bound (keep p rest) o.0)

by_filter-IsDescending :
    (h : List ℕ) (now : ℕ) (rate : Rate) (dry_run : Bool)
    → IsDescending now h
    → IsDescending now (apply_rate_by_filter h now rate dry_run).1
by_filter-IsDescending h now rate dry_run o =
    ground (arith, keep-IsDescending (is_live now rate.duration) now h o)

-- On a history with the newest timestamp first and none after `now`, `apply_rate` answers by the
-- number of hits whose window still runs, keeps exactly those, and leaves the history in that order:
-- so a request is refused only when `amount` hits are still inside the window.
pub apply_rate-eq-by_filter :
    (h : List ℕ) (now : ℕ) (rate : Rate) (dry_run : Bool)
    → IsDescending now h
    → (apply_rate h now rate dry_run ≡ apply_rate_by_filter h now rate dry_run)
      × IsDescending now (apply_rate h now rate dry_run).1
unfolding apply_rate
apply_rate-eq-by_filter h now rate dry_run o =
    rw (evict-eq-keep now rate.duration now h o) (refl, by_filter-IsDescending h now rate dry_run o)

drop_expired_idem :
    (now d : ℕ) (h : List ℕ) → drop_expired now d (drop_expired now d h) ≡ drop_expired now d h
unfolding drop_expired
drop_expired_idem now d [] = refl
drop_expired_idem now d (ts ∷ rest) = ground (arith, drop_expired_idem now d rest)

evict_idem : (now d : ℕ) (h : List ℕ) → evict now d (evict now d h) ≡ evict now d h
unfolding evict
evict_idem now d h =
    rw (reverse-reverse (drop_expired now d (reverse h)), drop_expired_idem now d (reverse h))

-- A dry run answers as the real call would, at the same moment, and the real call after it has the
-- answer and the history that it would have had without the dry run.
pub apply_rate_dry_run :
    (h : List ℕ) (now : ℕ) (rate : Rate)
    → let (allowed, h') = apply_rate h now rate true in
      (allowed ≡ (apply_rate h now rate false).0)
      × (apply_rate h' now rate false ≡ apply_rate h now rate false)
unfolding apply_rate
apply_rate_dry_run h now rate = ground (arith, evict_idem now rate.duration h)
