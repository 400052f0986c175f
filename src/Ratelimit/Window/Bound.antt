-- ===== src/Ratelimit/Window/Bound.antt =====
-- How many hits a window of the rate's duration can hold, over any sequence of requests.
use mathlib.Core.List.{reverse-cons}
use django_allauth.Prelude.{
  ℕ, ◌+◌, ◌≤◌, ◌≡◌, refl, Bool, false, ◌&&◌, List, [], ◌∷◌, reverse, arith, tally, tally-append,
  tally-le-length, ltb, leb, if◌then◌else◌,
}
use django_allauth.Ratelimit.Window.{Rate, drop_expired, evict, apply_rate}

tally-reverse : (p : ℕ → Bool) (xs : List ℕ) → tally p (reverse xs) ≡ tally p xs
tally-reverse p [] = refl
tally-reverse p (x ∷ xs) =
    ground (arith, reverse-cons x xs, tally-append p (reverse xs) (x ∷ []), tally-reverse p xs)

-- The window that opens just after `w` and lasts `d`.
abbrev pub in_window : ℕ → ℕ → ℕ → Bool
in_window w d ts = ltb w ts && leb ts (w + d)

-- A window that reaches the present has lost no hit to the loop.
tally-drop_expired :
    (now d w : ℕ) (h : List ℕ)
    → now ≤ w + d
    → tally (in_window w d) (drop_expired now d h) ≡ tally (in_window w d) h
unfolding drop_expired
tally-drop_expired now d w [] le = refl
tally-drop_expired now d w (ts ∷ rest) le = ground (arith, tally-drop_expired now d w rest le)

pub tally-evict :
    (now d w : ℕ) (h : List ℕ)
    → now ≤ w + d
    → tally (in_window w d) (evict now d h) ≡ tally (in_window w d) h
unfolding evict
tally-evict now d w h le = omega (
  arith,
  tally-reverse (in_window w d) (drop_expired now d (reverse h)),
  tally-drop_expired now d w (reverse h) le,
  tally-reverse (in_window w d) h,
)

-- Requests at the given times, in order; the log holds the times of those that were allowed.
pub allowed_hits : Rate → List ℕ → List ℕ → List ℕ → List ℕ
allowed_hits rate history log [] = log
allowed_hits rate history log (now ∷ later) =
    let (allowed, history') = apply_rate history now rate false in
    allowed_hits rate history' (if allowed then now ∷ log else log) later

-- Times do not fall.
abbrev pub IsAscending : ℕ → List ℕ → Type 0
IsAscending t [] = Unit
IsAscending t (now ∷ later) = (t ≤ now) × IsAscending now later

-- The history accounts for every allowed hit that a window reaching `now` can hold.
record Covers (rate : Rate) (now : ℕ) (history log : List ℕ) : Type 0 where
  seen :
      (w : ℕ)
      → now ≤ w + rate.duration
      → tally (in_window w rate.duration) log ≤ tally (in_window w rate.duration) history
  bounded : (w : ℕ) → tally (in_window w rate.duration) log ≤ rate.amount

module _ (rate : Rate) (t now : ℕ) (history log : List ℕ) where
  hit-Covers :
      t ≤ now
      → Covers rate t history log
      → let (allowed, history') = apply_rate history now rate false in
        Covers rate now history' (if allowed then now ∷ log else log)
  unfolding apply_rate
  hit-Covers le c = record {
    seen = λ w reach. ground (arith, c.seen w, tally-evict now rate.duration w history);
    bounded = λ w. ground (
      arith,
      c.seen w,
      c.bounded w,
      tally-evict now rate.duration w history,
      tally-le-length (in_window w rate.duration) (evict now rate.duration history),
    );
  }

allowed_hits_bounded :
    (rate : Rate) (t : ℕ) (history log times : List ℕ)
    → IsAscending t times
    → Covers rate t history log
    → (w : ℕ)
    → tally (in_window w rate.duration) (allowed_hits rate history log times) ≤ rate.amount
unfolding allowed_hits
allowed_hits_bounded rate t history log [] up c w = c.bounded w
allowed_hits_bounded rate t history log (now ∷ later) up c w =
    allowed_hits_bounded rate now _ _ later up.1 (hit-Covers rate t now history log up.0 c) w

-- Whatever the requests, as long as the clock does not go back, no window of the rate's duration
-- holds more than `amount` allowed hits: `apply_rate`, called with the history that its last call
-- returned, enforces the rate over every window, not only over those that begin at a hit.
pub allowed_hits-le-amount :
    (rate : Rate) (times : List ℕ) (w : ℕ)
    → IsAscending 0 times
    → tally (in_window w rate.duration) (allowed_hits rate [] [] times) ≤ rate.amount
allowed_hits-le-amount rate times w up =
    allowed_hits_bounded rate 0 [] [] times up
      (record { seen = λ w reach. omega arith; bounded = λ w. omega arith }) w
