-- ===== src/Account/Stages/Handlers/Resumable.antt =====
-- A login that is held up is found again.
use django_allauth.Prelude.{ℕ, ◌+◌, ◌≤◌, ◌≡◌, refl, ◌∙◌, sym, ap, subst, Option, none, some}
use django_allauth.Account.Login.{StageKey, key_eq, Login, Session}
use django_allauth.Account.Stages.{
  to_stage, Progress, passed, answered, failed, handle_stages, responded, resumed_by, resume_login,
  login_of, enter,
}
use django_allauth.Account.Stages.Held.{held_lem}
use django_allauth.Account.Stages.Entering.{enter_iff}
use django_allauth.Account.Stages.Env.{Env}
use django_allauth.Account.Stages.Handlers.{get_login_stages}
use django_allauth.Account.Stages.Handlers.Lawful.{get_login_stages-IsTransparent}
use django_allauth.Account.Stages.Handlers.Polite.{get_login_stages-IsPolite}

held_back :
    (key : StageKey) (r : Progress × Login × Session)
    → (resumed_by r).0 ≡ responded (to_stage key)
    → (r.0 ≡ answered (to_stage key)) × ((resumed_by r).1 ≡ r.2)
held_back key (answered response, l, s) h = (cc, refl)
held_back key (failed, l, s) h = cc
held_back key (passed, l, s) h = of_user l.user h
  where
    of_user :
        (o : Option ℕ)
        → login_of o ≡ responded (to_stage key)
        → (passed ≡ answered (to_stage key)) × ((resumed_by (passed, l, s)).1 ≡ s)
    of_user none k = cc
    of_user (some u) k = cc

-- A login that is answered by the page of a stage is not lost: until `LOGIN_TIMEOUT` after it was
-- initiated, the view of that stage finds it in the session, for the same user.
pub enter-resume_login :
    (env : Env) (login : Login) (session : Session) (key : StageKey) (login_timeout now : ℕ)
    → (resume_login (get_login_stages env) login session).0 ≡ responded (to_stage key)
    → now ≤ login.initiated_at + login_timeout
    → (held : Login) × ((enter login_timeout
          (get_login_stages env)
          key
          now
          (resume_login (get_login_stages env) login session).1).0
        ≡ some held)
      × (held.user ≡ login.user)
unfolding resume_login
enter-resume_login env login session key login_timeout now h in_time =
    let stages = get_login_stages env in
    let r = handle_stages stages login session in
    let (answer, left) = held_back key r h in
    let (stashed, current, user, at, there) =
      held_lem key stages login session (get_login_stages-IsTransparent env)
        (get_login_stages-IsPolite env) answer in
    (
      r.1,
      (enter_iff login_timeout stages key now r.1 (resumed_by r).1).1 (
        ap (λ (s : Session). s.account_login) left ∙ stashed,
        subst (λ (t : ℕ). now ≤ t + login_timeout) (sym at) in_time,
        current,
        there,
      ),
      user,
    )
