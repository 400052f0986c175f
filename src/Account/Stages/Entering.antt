-- ===== src/Account/Stages/Entering.antt =====
-- Which login a view of a stage finds in the session.
use django_allauth.Prelude.{
  ℕ, ◌+◌, ◌≤◌, ◌≡◌, refl, ap, sym, subst, ◌↔◌, Bool, true, false, ◌&&◌, Option, none, some, List,
  arith, ltb, if◌then◌else◌, Bool-cases, inl, inr,
}
use django_allauth.Account.Login.{StageKey, key_eq, key_eqb_iff, Login, Session}
use django_allauth.Account.Stages.{
  Stage, is_current, has_key, entered, unexpired, unstash_login, enter,
}

is_current_iff : (key : StageKey) (o : Option StageKey) → (is_current key o ≡ true) ↔ (o ≡ some key)
is_current_iff key none = (λ h. cc, λ h. cc)
is_current_iff key (some c) =
    let (sound, complete) = key_eqb_iff c key in (λ h. let e = sound h in cc, λ h. complete cc)

gate_iff :
    (a b : Bool) (x y : Login)
    → ((if a && b then some x else none) ≡ some y) ↔ ((x ≡ y) × (a ≡ true) × (b ≡ true))
gate_iff true true x y = (λ h. (cc, refl, refl), λ h. ap some h.0)
gate_iff true false x y = (λ h. cc, λ h. cc)
gate_iff false b x y = (λ h. cc, λ h. cc)

module _ (login_timeout : ℕ) (stages : List Stage) (key : StageKey) (now : ℕ) (login : Login) where
  -- What a stashed login must be.
  abbrev pub IsEntered : Login → Type 0
  IsEntered stashed =
      (stashed ≡ login)
      × (now ≤ stashed.initiated_at + login_timeout)
      × (stashed.current ≡ some key)
      × (has_key key stages ≡ true)

  entered_iff :
      (stashed : Login) (session : Session)
      → (entered stages key (unexpired login_timeout now (some stashed) session).0 ≡ some login)
        ↔ IsEntered stashed
  entered_iff stashed session =
      let (sound, complete) = is_current_iff key stashed.current in
      elim (Bool-cases (ltb (stashed.initiated_at + login_timeout) now)) [
        | inl late ↦ rw late (λ h. cc, λ h. absurd (ground (arith, late, h.1)))
        | inr early ↦
            let (into, back) =
              gate_iff (is_current key stashed.current) (has_key key stages) stashed login in
            rw early (
              λ h.
                  let (same, current, there) = into h in
                  (same, ground (arith, early), sound current, there),
              λ h. back (h.0, complete h.2, h.3),
            )
      ]

-- A view of a stage finds exactly the login that is stashed in the session, if `LOGIN_TIMEOUT` is not
-- over since it was initiated, the stage is its current one, and the stage is among those of the
-- adapter.
pub enter_iff :
    (login_timeout : ℕ) (stages : List Stage) (key : StageKey) (now : ℕ) (login : Login)
    (session : Session)
    → ((enter login_timeout stages key now session).0 ≡ some login) ↔ (
        (session.account_login ≡ some login)
        × (now ≤ login.initiated_at + login_timeout)
        × (login.current ≡ some key)
        × (has_key key stages ≡ true))
unfolding enter unstash_login
enter_iff login_timeout stages key now login session = of_stashed session.account_login
  where
    of_stashed :
        (o : Option Login)
        → (entered stages key (unexpired login_timeout now o session).0 ≡ some login) ↔ (
            (o ≡ some login)
            × (now ≤ login.initiated_at + login_timeout)
            × (login.current ≡ some key)
            × (has_key key stages ≡ true))
    of_stashed none = (λ h. cc, λ h. absurd (ground (arith, h.0)))
    of_stashed (some stashed) =
        let (into, back) = entered_iff login_timeout stages key now login stashed session in
        (
          λ h.
              let (same, time, current, there) = into h in
              (
                ap some same,
                subst (λ (l : Login). now ≤ l.initiated_at + login_timeout) same time,
                subst (λ (l : Login). l.current ≡ some key) same current,
                there,
              ),
          λ h.
              let same : stashed ≡ login = cc in
              back (
                same,
                subst (λ (l : Login). now ≤ l.initiated_at + login_timeout) (sym same) h.1,
                subst (λ (l : Login). l.current ≡ some key) (sym same) h.2,
                h.3,
              ),
        )
