-- ===== src/Oidc/DeviceCodes/Life/Tests.antt =====
-- A device code that is handed out, confirmed and polled for.
use django_allauth.Prelude.{
  ◌≡◌, ◌≢◌, refl, true, none, some, List, [], ◌∷◌, codes, lookup, insert, split, strip, lstrip,
  erase,
}
use django_allauth.Cache.{Cache}
use django_allauth.Cache.Local.{local_cache, fresh}
use django_allauth.Oidc.Results.{ok}
use django_allauth.Oidc.Models.{values_from_text}
use django_allauth.Oidc.Context.{ValidatorContext, new_context}
use django_allauth.Oidc.Clients.{lookup_client, lookup_public_client}
use django_allauth.Oidc.Stored.{Device, DeviceData, Entry}
use django_allauth.Oidc.Samples.{defaults, ann, site}
use django_allauth.Oidc.DeviceCodes.{
  create, update_device_state, decide, confirm_or_deny_device_code, check_poll, poll_checked,
  poll_device_code,
}
use django_allauth.Oidc.DeviceCodes.Life.{
  Event, handed_out, decided, polled_for, passed, World, step, run,
}
use django_allauth.Oidc.DeviceCodes.Polling.{Granted, poll_device_code_iff}
use django_allauth.Oidc.DeviceCodes.Life.Spent.{poll_device_code_once}
use django_allauth.Oidc.DeviceCodes.Life.Confirmed.{IsEarned, poll_device_code-IsEarned}

abbrev device : Device
device = record { user_code = codes "AB"; device_code = codes "dc"; expires_in = 300; interval = 5 }

abbrev ctx : ValidatorContext
ctx = new_context defaults

abbrev begin : World (Cache.State (local_cache {V = Entry}))
begin = record { now = 100000; cache = fresh }

abbrev calls : List Event
calls =
    passed 5000
    ∷ decided ann (codes "dc") true
    ∷ polled_for (some (codes "tv")) (some (codes "dc")) ctx
    ∷ passed 1000
    ∷ handed_out (codes "tv") none device ctx
    ∷ []

abbrev done : World (Cache.State (local_cache {V = Entry}))
done = run local_cache site calls begin

abbrev confirmed_state : DeviceData
confirmed_state = record {
  expires_at = 400000;
  granted = some true;
  last_poll_at = 106000;
  client_id = codes "tv";
  scope = none;
  device = device;
  resources = none;
  user = some (codes "1");
}

poll_device_code-IsEarned_example : IsEarned site (some (codes "tv")) (some (codes "dc")) calls ann
unfolding poll_device_code poll_checked check_poll lookup_public_client lookup_client lookup
    values_from_text split strip lstrip run step confirm_or_deny_device_code decide
    update_device_state create insert erase
poll_device_code-IsEarned_example =
    poll_device_code-IsEarned local_cache site calls begin (some (codes "tv")) (some (codes "dc"))
      ctx ann confirmed_state (λ later le dc d found. cc) refl

ready :
    (poll_device_code local_cache site 106000
      (some (codes "tv"))
      (some (codes "dc"))
      ctx
      done.cache).0
    ≡ ok (ann, confirmed_state)
unfolding poll_device_code poll_checked check_poll lookup_public_client lookup_client lookup
    values_from_text split strip lstrip run step confirm_or_deny_device_code decide
    update_device_state create insert erase
ready = refl

poll_device_code_iff_example :
    Granted local_cache site 106000
      (some (codes "tv"))
      (some (codes "dc"))
      ctx
      done.cache
      ann
      confirmed_state
poll_device_code_iff_example =
    (poll_device_code_iff local_cache site 106000 (some (codes "tv")) (some (codes "dc")) ctx
        done.cache ann confirmed_state).0
      ready

abbrev polled_twice : World (Cache.State (local_cache {V = Entry}))
polled_twice =
    run local_cache site (passed 7000 ∷ [])
      (step local_cache site (polled_for (some (codes "tv")) (some (codes "dc")) ctx) done)

poll_device_code_once_example :
    (poll_device_code local_cache site polled_twice.now
      (some (codes "tv"))
      (some (codes "dc"))
      ctx
      polled_twice.cache).0
    ≢ ok (ann, confirmed_state)
unfolding run step
poll_device_code_once_example =
    poll_device_code_once local_cache site done (some (codes "tv")) (codes "dc") ctx ann
      confirmed_state ready (passed 7000 ∷ []) (tt, tt) (some (codes "tv")) ctx ann confirmed_state
