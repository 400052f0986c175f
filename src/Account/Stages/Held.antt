-- ===== src/Account/Stages/Held.antt =====
-- A login that a stage holds up, whatever the stages are.
use django_allauth.Prelude.{
  ◌≡◌, refl, ◌∙◌, sym, ap, subst, inl, inr, true, false, none, some, List, [], ◌∷◌, arith, All,
  Bool-cases, eq_refl,
}
use django_allauth.Account.Login.{key_eq, put_stage, StageKey, Login, Session, stash_login}
use django_allauth.Account.Stages.{
  Response, to_stage, to_login, Reply, reply, raised, Stage, set_current, is_handled, set_handled,
  Progress, answered, after_reply, handle_stages, has_key,
}
use django_allauth.Account.Stages.Past.{IsTransparent}

-- The same login in another state of its stages.
pub record IsSameLogin (login other : Login) : Type 0 where
  pub user : login.user ≡ other.user
  pub initiated_at : login.initiated_at ≡ other.initiated_at
  pub current : login.current ≡ other.current

-- What a stage may answer: its own page, with the login held, or the login page, with the login ended.
abbrev pub Fits : Stage → Login → Reply × Login × Session → Type 0
Fits stage before (raised, login, session) = Unit
Fits stage before (reply none goes_on, login, session) = Unit
Fits stage before (reply (some response) true, login, session) =
    (response ≡ to_stage stage.key) × IsSameLogin login before
Fits stage before (reply (some response) false, login, session) = response ≡ to_login

abbrev pub IsPolite : Stage → Type 0
IsPolite stage = (login : Login) (session : Session) → Fits stage login (stage.handle login session)

-- The login is in the session, at the stage that answered.
abbrev pub IsHeld : List Stage → Login → StageKey → Progress × Login × Session → Type 0
IsHeld stages login key (p, after, session) =
    (session.account_login ≡ some after)
    × (after.current ≡ some key)
    × (after.user ≡ login.user)
    × (after.initiated_at ≡ login.initiated_at)
    × (has_key key stages ≡ true)

abbrev pub MayHold : List Stage → Login → StageKey → Progress × Login × Session → Type 0
MayHold stages login key r = r.0 ≡ answered (to_stage key) → IsHeld stages login key r

has_key-first : (stage : Stage) (rest : List Stage) → has_key stage.key (stage ∷ rest) ≡ true
has_key-first stage rest = rw (eq_refl stage.key) refl

has_key-rest :
    (key : StageKey) (stage : Stage) (rest : List Stage)
    → has_key key rest ≡ true
    → has_key key (stage ∷ rest) ≡ true
has_key-rest key stage rest h = ground (arith, h)

set_handled-IsSame :
    (key : StageKey) (login : Login)
    → ((set_handled key login).user ≡ login.user)
      × ((set_handled key login).initiated_at ≡ login.initiated_at)
unfolding set_handled put_stage
set_handled-IsSame key login = (refl, refl)

set_current-IsSame :
    (key : StageKey) (login : Login)
    → ((set_current key login).user ≡ login.user)
      × ((set_current key login).initiated_at ≡ login.initiated_at)
      × ((set_current key login).current ≡ some key)
unfolding set_current
set_current-IsSame key login = (refl, refl, refl)

module _ (key : StageKey) (stage : Stage) (rest : List Stage) (login : Login) (session : Session)
    (transparent : IsTransparent stage)
    (step : (l : Login) (s : Session) → MayHold rest l key (handle_stages rest l s)) where
  abbrev before : Login
  before = set_current stage.key login

  held_here :
      (response : Response) (l : Login) (s : Session)
      → Fits stage before (reply (some response) true, l, s)
      → MayHold (stage ∷ rest) login key (answered response, l, stash_login l s)
  held_here response l s (own, same) h =
      let c = set_current-IsSame stage.key login in
      let here : stage.key ≡ key = cc in
      (
        refl,
        same.current ∙ c.2 ∙ ap some here,
        same.user ∙ c.0,
        same.initiated_at ∙ c.1,
        subst (λ (k : StageKey). has_key k (stage ∷ rest) ≡ true) here (has_key-first stage rest),
      )

  held_later :
      (l : Login) (s : Session)
      → l ≡ before
      → MayHold (stage ∷ rest) login key (handle_stages rest (set_handled stage.key l) s)
  held_later l s kept h =
      let c = set_current-IsSame stage.key login in
      let n = set_handled-IsSame stage.key l in
      let (stashed, current, user, at, there) = step (set_handled stage.key l) s h in
      (
        stashed,
        current,
        user ∙ n.0 ∙ ap (λ (x : Login). x.user) kept ∙ c.0,
        at ∙ n.1 ∙ ap (λ (x : Login). x.initiated_at) kept ∙ c.1,
        has_key-rest key stage rest there,
      )

  hold :
      (r : Reply × Login × Session)
      → stage.handle before session ≡ r
      → Fits stage before r
      → MayHold (stage ∷ rest) login key (after_reply stage.key (handle_stages rest) r)
  hold (raised, l, s) e fits = λ h. cc
  hold (reply (some response) true, l, s) e fits = held_here response l s fits
  hold (reply (some response) false, l, s) e fits = λ h. cc
  hold (reply none false, l, s) e fits = λ h. cc
  hold (reply none true, l, s) e fits =
      held_later l s (sym (ap (λ r. r.1) e) ∙ transparent before session (ap (λ r. r.0) e))

-- A login that is answered by the page of a stage is held in the session, at this stage.
pub held_lem :
    (key : StageKey) (stages : List Stage) (login : Login) (session : Session)
    → All IsTransparent stages
    → All IsPolite stages
    → MayHold stages login key (handle_stages stages login session)
unfolding handle_stages
held_lem key [] login session t p = λ h. cc
held_lem key (stage ∷ rest) login session t p = elim (Bool-cases (is_handled stage.key login)) [
  | inl handled ↦
      let ih = held_lem key rest login session t.1 p.1 in
      rw (handled, handle_stages)
        (λ h. let (a, b, c, d, there) = ih h in (a, b, c, d, has_key-rest key stage rest there))
  | inr pending ↦
      rw (pending, handle_stages)
        (hold key stage rest login session t.0 (λ l s. held_lem key rest l s t.1 p.1)
          (stage.handle (set_current stage.key login) session) refl
          (p.0 (set_current stage.key login) session))
]
