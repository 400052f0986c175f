-- ===== src/Account/Reauthentication/Recency.antt =====
-- How long an authentication counts.
use django_allauth.Prelude.{
  ℕ, ◌+◌, ◌≡◌, refl, Bool, true, false, Option, none, some, List, [], ◌∷◌, ◌++◌, ltb, if◌then◌else◌,
  Text,
}
use django_allauth.Account.Stages.Env.{AuthenticationRecord}
use django_allauth.Account.Reauthentication.{
  Settings, Account, Flow, record_authentication, get_reauthentication_flows, authenticated_at,
  recent_unless, did_recently_authenticate,
}

authenticated_at-append :
    (records : List AuthenticationRecord) (r : AuthenticationRecord)
    → authenticated_at (records ++ r ∷ []) ≡ some r.at
authenticated_at-append [] r = refl
authenticated_at-append (s ∷ []) r = refl
authenticated_at-append (s ∷ (u ∷ records)) r = authenticated_at-append (u ∷ records) r

abbrev pub has_flow : List Flow → Bool
has_flow [] = false
has_flow (flow ∷ flows) = true

unless_lem :
    (settings : Settings) (flows : List Flow) (later at : ℕ) (records : List AuthenticationRecord)
    → authenticated_at records ≡ some at
    → recent_unless settings flows later records
      ≡ (if has_flow flows then ltb later (at + settings.reauthentication_timeout) else true)
unless_lem settings [] later at records e = refl
unless_lem settings (flow ∷ flows) later at records e = rw e refl

-- After an authentication is recorded, whatever was recorded before, a user who has a way to
-- reauthenticate counts as recently authenticated for `REAUTHENTICATION_TIMEOUT`, and not from then
-- on; a user without one always does, and an anonymous one never.
pub recent_after_record :
    (settings : Settings) (account : Account) (now later : ℕ) (method : Text) (type : Option Text)
    (passwordless : Bool) (records : List AuthenticationRecord)
    → let records' = record_authentication now method type passwordless records in
      (did_recently_authenticate settings (some account) later records' ≡ (
        if has_flow (get_reauthentication_flows settings account)
        then ltb later (now + settings.reauthentication_timeout)
        else true))
      × (did_recently_authenticate settings none later records' ≡ false)
unfolding did_recently_authenticate record_authentication
recent_after_record settings account now later method type passwordless records =
    let r : AuthenticationRecord = record {
      method = method;
      at = now;
      type = type;
      passwordless = passwordless;
    } in
    (
      unless_lem settings (get_reauthentication_flows settings account) later now
          (records ++ r ∷ []) (authenticated_at-append records r),
      refl,
    )
