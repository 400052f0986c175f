-- ===== src/Account/Stages/Past.antt =====
-- A login that is past all its stages, whatever the stages are.
use django_allauth.Prelude.{
  ◌≡◌, subst, refl, ◌∙◌, sym, ap, ◌⊎◌, inl, inr, true, false, none, some, List, [], ◌∷◌, All,
  Bool-cases, if◌then◌else◌, ◌==◌, lookup, insert, lookup-insert,
}
use django_allauth.Account.Login.{
  StageKey, key_eq, Login, Session, stage_state, put_stage, or_fresh,
}
use django_allauth.Account.Stages.{
  Reply, reply, raised, Stage, set_current, is_handled, set_handled, Progress, passed, after_reply,
  handle_stages,
}

-- The login of the same user, by the same address and with the same demands.
pub record IsSame (login other : Login) : Type 0 where
  pub user : login.user ≡ other.user
  pub email : login.email ≡ other.email
  pub email_verification : login.email_verification ≡ other.email_verification

-- A stage that lets a login through leaves it as it is.
abbrev pub IsTransparent : Stage → Type 0
IsTransparent stage =
    (login : Login) (session : Session)
    → (stage.handle login session).0 ≡ reply none true
    → (stage.handle login session).1 ≡ login

abbrev pub IsDistinct : List Stage → Type 0
IsDistinct [] = Unit
IsDistinct (stage ∷ rest) =
    All (λ (other : Stage). (stage.key == other.key) ≡ false) rest × IsDistinct rest

-- The stage was handled before, or it lets the login through by itself.
abbrev pub IsPast : Login → Stage → Type 0
IsPast login stage =
    (is_handled stage.key login ≡ true)
    ⊎ ((seen : Login) × (session : Session) × IsSame seen login
        × ((stage.handle seen session).0 ≡ reply none true))

-- The login after a stage has let it through.
abbrev next : StageKey → Login → Login
next key login = set_handled key (set_current key login)

next-IsSame : (key : StageKey) (login : Login) → IsSame (next key login) login
unfolding set_handled set_current put_stage
next-IsSame key login = record { user = refl; email = refl; email_verification = refl }

set_current-IsSame : (key : StageKey) (login : Login) → IsSame (set_current key login) login
unfolding set_current
set_current-IsSame key login = record { user = refl; email = refl; email_verification = refl }

is_handled-next :
    (key other : StageKey) (login : Login)
    → (key == other) ≡ false
    → is_handled other (next key login) ≡ is_handled other login
unfolding is_handled set_handled set_current put_stage stage_state
is_handled-next key other login ne =
    let s' = record (or_fresh (lookup key login.stages)) { handled = true } in
    let found : lookup other (insert key s' login.stages) ≡ lookup other login.stages =
      lookup-insert key other s' login.stages
      ∙ ap (λ b. if b then some s' else lookup other login.stages) ne in
    ap (λ o. (or_fresh o).handled) found

earlier :
    (key : StageKey) (login : Login) (stage : Stage)
    → (key == stage.key) ≡ false
    → IsPast (next key login) stage
    → IsPast login stage
earlier key login stage ne (inl handled) =
    inl (sym (is_handled-next key stage.key login ne) ∙ handled)
earlier key login stage ne (inr (seen, session, same, through)) =
    let n = next-IsSame key login in
    inr (
      seen,
      session,
      record {
        user = same.user ∙ n.user;
        email = same.email ∙ n.email;
        email_verification = same.email_verification ∙ n.email_verification;
      },
      through,
    )

earlier-All :
    (key : StageKey) (login : Login) (rest : List Stage)
    → All (λ (other : Stage). (key == other.key) ≡ false) rest
    → All (IsPast (next key login)) rest
    → All (IsPast login) rest
earlier-All key login [] ne h = tt
earlier-All key login (stage ∷ rest) ne h =
    (earlier key login stage ne.0 h.0, earlier-All key login rest ne.1 h.1)

set_handled-user : (key : StageKey) (login : Login) → (set_handled key login).user ≡ login.user
unfolding set_handled put_stage
set_handled-user key login = refl

-- A login that is past some stages is still of the same user.
pub record IsPassed (stages : List Stage) (login after : Login) : Type 0 where
  pub past : All (IsPast login) stages
  pub same_user : after.user ≡ login.user

abbrev pub Concluded : List Stage → Login → Progress × Login × Session → Type 0
Concluded stages login (p, after, session) = p ≡ passed → IsPassed stages login after

module _ (stage : Stage) (rest : List Stage) (login : Login) (session : Session)
    (transparent : IsTransparent stage)
    (new : All (λ (other : Stage). (stage.key == other.key) ≡ false) rest)
    (step : (l : Login) (s : Session) → Concluded rest l (handle_stages rest l s)) where
  abbrev before : Login
  before = set_current stage.key login

  conclude :
      (r : Reply × Login × Session)
      → stage.handle before session ≡ r
      → Concluded (stage ∷ rest) login (after_reply stage.key (handle_stages rest) r)
  conclude (raised, l, s) e h = cc
  conclude (reply (some response) true, l, s) e h = cc
  conclude (reply (some response) false, l, s) e h = cc
  conclude (reply none false, l, s) e h = cc
  conclude (reply none true, l, s) e h =
      let through : (stage.handle before session).0 ≡ reply none true = ap (λ r. r.0) e in
      let kept : l ≡ before = sym (ap (λ r. r.1) e) ∙ transparent before session through in
      let p = step (set_handled stage.key l) s h in
      record {
        past = (
          inr (before, session, set_current-IsSame stage.key login, through),
          earlier-All stage.key login rest new
              (subst (λ (x : Login). All (IsPast (set_handled stage.key x)) rest) kept p.past),
        );
        same_user =
            p.same_user
            ∙ set_handled-user stage.key l
            ∙ ap (λ (x : Login). x.user) kept
            ∙ (set_current-IsSame stage.key login).user;
      }

pub passed-All :
    (stages : List Stage) (login : Login) (session : Session)
    → All IsTransparent stages
    → IsDistinct stages
    → Concluded stages login (handle_stages stages login session)
unfolding handle_stages
passed-All [] login session t d = λ h. record { past = tt; same_user = refl }
passed-All (stage ∷ rest) login session t d = elim (Bool-cases (is_handled stage.key login)) [
  | inl handled ↦
      let p = passed-All rest login session t.1 d.1 in
      rw (handled, handle_stages)
        (λ h. record { past = (inl handled, (p h).past); same_user = (p h).same_user })
  | inr pending ↦
      rw (pending, handle_stages)
        (conclude stage rest login session t.0 d.0 (λ l s. passed-All rest l s t.1 d.1)
          (stage.handle (set_current stage.key login) session) refl)
]
