-- ===== src/Account/Addresses/Tests.antt =====
-- A user with a primary address and a new one.
use django_allauth.Prelude.{
  ◌≡◌, ◌⊎◌, refl, true, false, some, [], ◌∷◌, nat_eq, codes, lookup, text_eq,
}
use django_allauth.Account.Addresses.{
  Settings, Address, Table, get_primary, set_as_primary, mark_as_primary, can_mark_as_primary,
  can_set_verified, verify_email, delete_email, can_delete_email,
}
use django_allauth.Account.Addresses.Rows.{promoted, IsSound}
use django_allauth.Account.Addresses.Primary.{
  IsMadePrimary, set_as_primary_lem, mark_as_primary_lem,
}
use django_allauth.Account.Addresses.Change.{IsOnly, verify_email_lem}
use django_allauth.Account.Addresses.Deletion.{has_address, delete_email_lem}

abbrev settings : Settings
settings = record {
  unique_email = true;
  change_email = true;
  max_email_addresses = 0;
  login_by_email = true;
}

abbrev old : Address
old = record { pk = 1; user = 1; email = codes "a@b"; verified = true; primary = true }

abbrev new : Address
new = record { pk = 2; user = 1; email = codes "c@d"; verified = false; primary = false }

abbrev proven : Address
proven = record new { verified = true }

abbrev t : Table
t = record {
  rows = old ∷ (new ∷ []);
  next_pk = 3;
  user_emails = (1, codes "a@b") ∷ [];
  max_length = 254;
}

abbrev both_verified : Table
both_verified = record t { rows = old ∷ (proven ∷ []) }

set_as_primary_lem_example :
    IsMadePrimary settings proven t (set_as_primary settings false proven t)
set_as_primary_lem_example =
    set_as_primary_lem settings proven t refl refl (((refl, refl), tt), (tt, tt)) (refl, (refl, tt))
      refl

mark_as_primary_lem_example :
    (t' : Table) × (mark_as_primary settings proven both_verified ≡ some (true, t'))
    × (get_primary 1 t' ≡ some (promoted proven))
    × IsSound settings t'.rows
    × (lookup 1 t'.user_emails ≡ some (codes "c@d"))
unfolding can_mark_as_primary
mark_as_primary_lem_example =
    mark_as_primary_lem settings 2 proven both_verified refl (((refl, refl), tt), (tt, tt)) refl
      refl

verify_email_lem_example : IsOnly settings (promoted proven) (verify_email settings new t)
unfolding can_set_verified
verify_email_lem_example =
    verify_email_lem settings 2 new t refl refl refl (((refl, refl), tt), (tt, tt)) refl

delete_email_lem_example :
    let t' = (delete_email settings new t).1 in
    ((has_address 1 t' ≡ true) ⊎ (true ≡ false)) × ((false ≡ false) ⊎ (has_address 1 t' ≡ false))
unfolding delete_email can_delete_email
delete_email_lem_example = delete_email_lem settings new t refl refl
