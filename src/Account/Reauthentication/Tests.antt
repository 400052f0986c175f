-- ===== src/Account/Reauthentication/Tests.antt =====
-- A user with a password.
use django_allauth.Prelude.{◌+◌, ◌≡◌, true, false, none, some, [], ltb, if◌then◌else◌, codes}
use django_allauth.Account.Reauthentication.{
  Settings, Account, record_authentication, get_reauthentication_flows, did_recently_authenticate,
}
use django_allauth.Account.Reauthentication.Recency.{has_flow, recent_after_record}

abbrev settings : Settings
settings = record { mfa_enabled = true; reauthentication_timeout = 300000 }

abbrev account : Account
account = record {
  has_usable_password = true;
  mfa = record { pk = 1; password = codes "p"; authenticators = [] };
}

recent_after_record_example :
    let records' = record_authentication 1000 (codes "password") none false [] in
    (did_recently_authenticate settings (some account) 5000 records' ≡ (
      if has_flow (get_reauthentication_flows settings account)
      then ltb 5000 (1000 + 300000)
      else true))
    × (did_recently_authenticate settings none 5000 records' ≡ false)
recent_after_record_example =
    recent_after_record settings account 1000 5000 (codes "password") none false []
