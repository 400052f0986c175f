-- ===== src/Oidc/DeviceCodes/Polling.antt =====
-- allauth/idp/oidc/internal/oauthlib/device_codes.py: when a poll hands out the user's grant.
use django_allauth.Prelude.{
  ℕ, ◌+◌, ◌*◌, ◌≡◌, refl, ◌↔◌, Bool, true, false, Option, none, some, ltb, Text, text_eq, arith, ap,
  sym, subst, lookup, ◌∙◌,
}
use django_allauth.Cache.{Cache}
use django_allauth.Oidc.Results.{
  Result, ok, err, require, invalid_client, key_error, after_ok, taken_apart, require-ok,
}
use django_allauth.Oidc.Models.{Client, get_grant_types, contains, grant_type_value, GrantType}
use django_allauth.Oidc.Context.{User, Provider, ValidatorContext}
use django_allauth.Oidc.Clients.{lookup_public_client}
use django_allauth.Oidc.Stored.{DeviceData, Entry}
use django_allauth.Oidc.DeviceCodes.{
  data_at, given, check_client, check_data, check_pace, check_poll, granting_user, active_user,
  answer, poll_checked, poll_device_code, update_device_state,
}

client-ok :
    (client : Client)
    → contains (grant_type_value GrantType.device_code) (get_grant_types client) ≡ true
    → check_client client ≡ ok client
client-ok client h = ground arith

client-ok_inv :
    (client cl : Client)
    → check_client client ≡ ok cl
    → (cl ≡ client)
      × (contains (grant_type_value GrantType.device_code) (get_grant_types client) ≡ true)
client-ok_inv client cl h = ground arith

data-ok :
    (cid : Text) (o : Option DeviceData) {d : DeviceData}
    → o ≡ some d
    → d.client_id ≡ cid
    → check_data cid o ≡ ok d
data-ok cid none e h = cc
data-ok cid (some d) e h = ground (arith, text_eq.agrees d.client_id cid)

data-ok_inv :
    (cid : Text) (o : Option DeviceData) {d : DeviceData}
    → check_data cid o ≡ ok d
    → (o ≡ some d) × (d.client_id ≡ cid)
data-ok_inv cid none h = cc
data-ok_inv cid (some d) h = ground (arith, text_eq.agrees d.client_id cid)

pace-ok :
    (now : ℕ) (d : DeviceData)
    → ltb now (d.last_poll_at + d.device.interval * 1000) ≡ false
    → check_pace now d ≡ ok d
pace-ok now d h = rw h

pace-ok_inv :
    (now : ℕ) (d e : DeviceData)
    → check_pace now d ≡ ok e
    → (e ≡ d) × (ltb now (d.last_poll_at + d.device.interval * 1000) ≡ false)
pace-ok_inv now d e h = ground arith

active-ok_inv :
    (o : Option User) {user : User}
    → active_user o ≡ ok user
    → (o ≡ some user) × (user.is_active ≡ true)
active-ok_inv none h = cc
active-ok_inv (some user) h = ground arith

active-ok : (user : User) → user.is_active ≡ true → active_user (some user) ≡ ok user
active-ok user h = rw h

-- The grant as it is handed out.
abbrev pub polled : ℕ → DeviceData → DeviceData
polled now d = record d { last_poll_at = now }

module _ (c : Cache Entry) (p : Provider) where
  open c use {State}

  -- What a poll must find before it is answered: a public client that may use device codes, and a
  -- code that was handed out to this client and is not polled too fast.
  pub record Passed (now : ℕ) (client_id device_code : Option Text) (s : State) (dc : Text)
      (d : DeviceData) : Type 0 where
    pub cid : Text
    pub named_client : given client_id ≡ ok cid
    pub named_code : given device_code ≡ ok dc
    pub client : Client
    pub registered : lookup_public_client p cid ≡ some client
    pub allowed : contains (grant_type_value GrantType.device_code) (get_grant_types client) ≡ true
    pub stored : data_at c now dc s ≡ some d
    pub same_client : d.client_id ≡ cid
    pub paced : ltb now (d.last_poll_at + d.device.interval * 1000) ≡ false

  module _ (now : ℕ) (client_id device_code : Option Text) (s : State) {dc : Text}
      {d : DeviceData} where
    pub Passed-check_poll :
        Passed now client_id device_code s dc d
        → check_poll c p now client_id device_code s ≡ ok (dc, d)
    unfolding check_poll
    Passed-check_poll r = after_ok _ r.named_client (
        after_ok _ r.named_code (
          after_ok _ (ap (require invalid_client) r.registered) (
            after_ok _ (client-ok r.client r.allowed) (
              after_ok _ (data-ok r.cid _ r.stored r.same_client)
                (after_ok _ (pace-ok now d r.paced) refl)))))

    pub check_poll-Passed :
        check_poll c p now client_id device_code s ≡ ok (dc, d)
        → Passed now client_id device_code s dc d
    unfolding check_poll
    check_poll-Passed h = taken_apart (given client_id) _ h (λ cid named_client h1.
        taken_apart (given device_code) _ h1 (λ code named_code h2.
          taken_apart (require invalid_client (lookup_public_client p cid)) _ h2
            (λ client registered h3. taken_apart (check_client client) _ h3 (λ cl allowed h4.
              taken_apart (check_data cid (data_at c now code s)) _ h4 (λ found checked h5.
                taken_apart (check_pace now found) _ h5 (λ paced fast h6.
                  let same_code : code ≡ dc = cc in
                  let same_data : paced ≡ d = cc in
                  let (stored, same_client) = data-ok_inv cid (data_at c now code s) checked in
                  let (unchanged, slow) = pace-ok_inv now found paced fast in
                  let e : found ≡ d = sym unchanged ∙ same_data in
                  record {
                    cid = cid;
                    named_client = named_client;
                    named_code = subst (λ x. given device_code ≡ ok x) same_code named_code;
                    client = client;
                    registered = require-ok invalid_client _ registered;
                    allowed = (client-ok_inv client cl allowed).1;
                    stored = subst (λ x. data_at c now x s ≡ some d) same_code (stored ∙ ap some e);
                    same_client = subst (λ x. x.client_id ≡ cid) e same_client;
                    paced =
                        subst (λ x. ltb now (x.last_poll_at + x.device.interval * 1000) ≡ false) e
                          slow;
                  }))))))

  -- The user whom a confirmed code names.
  pub record Named (d : DeviceData) (user : User) : Type 0 where
    pub pk : Text
    pub decided_by : d.user ≡ some pk
    pub known : lookup pk p.users ≡ some user
    pub active : user.is_active ≡ true

  granting_user-Named : (d : DeviceData) {user : User} → granting_user p d ≡ ok user → Named d user
  granting_user-Named d h = taken_apart (require key_error d.user) _ h (λ pk decided h1.
      let (known, active) = active-ok_inv (lookup pk p.users) h1 in
      record {
        pk = pk;
        decided_by = require-ok key_error d.user decided;
        known = known;
        active = active;
      })

  Named-granting_user : (d : DeviceData) {user : User} → Named d user → granting_user p d ≡ ok user
  Named-granting_user d r =
      after_ok _ (ap (require key_error) r.decided_by)
        (ap active_user r.known ∙ active-ok _ r.active)

  module _ (now : ℕ) (client_id device_code : Option Text) (ctx : ValidatorContext)
      (s : State) where
    -- What a poll has found when it hands out the grant `e` of a user.
    pub record Granted (user : User) (e : DeviceData) : Type 0 where
      pub dc : Text
      pub found : DeviceData
      pub passed : Passed now client_id device_code s dc found
      pub confirmed : found.granted ≡ some true
      pub named : Named found user
      pub handed_out : e ≡ polled now found

    abbrev outcome : Result (User × DeviceData)
    outcome = (poll_device_code c p now client_id device_code ctx s).0

    answer-Granted :
        (dc : Text) (d : DeviceData) (g : Option Bool) (s' : State) {user : User} {e : DeviceData}
        → g ≡ d.granted
        → Passed now client_id device_code s dc d
        → (answer c p dc (polled now d) g ctx s').0 ≡ ok (user, e)
        → Granted user e
    answer-Granted dc d none s' g r h = cc
    answer-Granted dc d (some false) s' g r h = cc
    answer-Granted dc d (some true) s' {user} {e} g r h =
        taken_apart (granting_user p (polled now d)) _ h (λ u named h1.
          let same_user : u ≡ user = cc in
          record {
            dc = dc;
            found = d;
            passed = r;
            confirmed = sym g;
            named = subst (Named d) same_user (granting_user-Named d named);
            handed_out = cc;
          })

    checked-Granted :
        (r : Result (Text × DeviceData)) {user : User} {e : DeviceData}
        → check_poll c p now client_id device_code s ≡ r
        → (poll_checked c p now r ctx s).0 ≡ ok (user, e)
        → Granted user e
    unfolding poll_checked
    checked-Granted (err x) q h = cc
    checked-Granted (ok (dc, d)) q h =
        answer-Granted dc d d.granted _ refl (check_poll-Passed now client_id device_code s q) h

    Granted-outcome :
        {user : User} {e : DeviceData}
        → Granted user e
        → (poll_checked c p now (check_poll c p now client_id device_code s) ctx s).0 ≡ ok (user, e)
    unfolding poll_checked
    Granted-outcome {user} {e} g =
        let d = g.found in
        ap (λ r. (poll_checked c p now r ctx s).0)
          (Passed-check_poll now client_id device_code s g.passed)
        ∙ ap
            (λ b.
              (answer c p g.dc (polled now d) b ctx
                (update_device_state c now g.dc (polled now d) s).1).0)
            g.confirmed
        ∙ after_ok _ (Named-granting_user d g.named) (ap (λ x. ok (user, x)) (sym g.handed_out))

    -- A poll hands out a grant exactly when all of this holds: the request names a public client that
    -- is registered for device codes, and a device code that the cache still holds and that was
    -- handed out to this client; the interval since the last poll is over; a user has confirmed; and
    -- that user still exists and is active. What is handed out is the stored state, with the time of
    -- this poll.
    pub poll_device_code_iff :
        (user : User) (e : DeviceData)
        → ((poll_device_code c p now client_id device_code ctx s).0 ≡ ok (user, e)) ↔ Granted user e
    unfolding poll_device_code
    poll_device_code_iff user e = (checked-Granted _ refl, Granted-outcome)
