-- ===== src/Account/Addresses.antt =====
-- allauth/account/models.py (`EmailAddress`), allauth/account/managers.py,
-- allauth/account/internal/flows/manage_email.py, `verify_email` of
-- allauth/account/internal/flows/email_verification.py and `can_delete_email` of
-- allauth/account/adapter.py: the table of email addresses, and the field of the users with the
-- address that is in use.
pub mod Rows
pub mod Primary
pub mod Change
pub mod Deletion
mod Tests
use django_allauth.Prelude.{
  ℕ, zero, suc, Bool, true, false, not, ◌&&◌, ◌||◌, Option, none, some, List, [], ◌∷◌, ◌++◌, map,
  keep, any, tally, ltb, if◌then◌else◌, ◌==◌, nat_eq, Text, text_eq, Dict, lookup, insert, is_some,
}
use django_allauth.Account.UserCode.{lower}

pub record Settings : Type 0 where
  pub unique_email : Bool
  pub change_email : Bool
  -- zero for none
  pub max_email_addresses : ℕ
  -- `LOGIN_METHODS == {EMAIL}`
  pub login_by_email : Bool

-- An address; primary keys begin at one, and zero is the key of one that is not saved.
pub record Address : Type 0 where
  pub pk : ℕ
  pub user : ℕ
  pub email : Text
  pub verified : Bool
  pub primary : Bool

pub record Table : Type 0 where
  pub rows : List Address
  pub next_pk : ℕ
  pub user_emails : Dict ℕ Text
  -- `max_length` of that field
  pub max_length : ℕ

-- `.filter(…).first()`
abbrev pub first_row : (Address → Bool) → List Address → Option Address
first_row p [] = none
first_row p (r ∷ rows) = if p r then some r else first_row p rows

abbrev pub and_then {ℓ κ} : {A : Type ℓ} {B : Type κ} → Option A → (A → Option B) → Option B
and_then none f = none
and_then (some a) f = f a

abbrev text_or_empty : Option Text → Text
text_or_empty none = []
text_or_empty (some s) = s

abbrev user_email : ℕ → Table → Text
user_email user t = lower (text_or_empty (lookup user t.user_emails))

abbrev pub take : ℕ → Text → Text
take zero s = []
take (suc n) [] = []
take (suc n) (c ∷ s) = c ∷ take n s

-- What `user_email`, the setter, writes: the address in lower case, cut to the length of the field.
abbrev pub stored_email : Table → Text → Text
stored_email t email = take t.max_length (lower email)

abbrev set_user_email : ℕ → Text → Table → Table
set_user_email user email t = record t {
  user_emails = insert user (stored_email t email) t.user_emails;
}

-- `get_primary`
pub get_primary : ℕ → Table → Option Address
get_primary user t = first_row (λ r. r.user == user && r.primary) t.rows

-- `get_new`, in the order of primary keys.
abbrev last_row : (Address → Bool) → List Address → Option Address
last_row p [] = none
last_row p (r ∷ rows) =
    let rest = last_row p rows in if is_some rest then rest else if p r then some r else none

pub get_new : ℕ → Table → Option Address
get_new user t = last_row (λ r. r.user == user && not r.verified) t.rows

module _ (settings : Settings) where
  -- `unique_together` and the constraints of the model.
  abbrev pub conflict : Address → Address → Bool
  conflict r s =
      (r.user == s.user && (r.email == s.email || (r.primary && s.primary)))
      || (settings.unique_email && (r.email == s.email && (r.verified && s.verified)))

  -- `save` of a row that is there; `none` is the `IntegrityError`.
  pub update_row : Address → Table → Option Table
  update_row r t =
      if any (λ s. not (s.pk == r.pk) && conflict s r) t.rows
      then none
      else some (record t { rows = map (λ s. if s.pk == r.pk then r else s) t.rows })

  pub create : Address → Table → Option (Address × Table)
  create r t =
      let r' = record r { pk = t.next_pk } in
      if any (λ s. conflict s r') t.rows
      then none
      else some (r', record t { rows = t.rows ++ r' ∷ []; next_pk = suc t.next_pk })

  -- `save`
  pub save : Address → Table → Option (Address × Table)
  save r t = if r.pk == 0 then create r t else and_then (update_row r t) (λ t'. some (r, t'))

  abbrev make_primary : Address → Table → Option (Bool × Address × Table)
  make_primary r t =
      and_then (save (record r { primary = true }) t)
        (λ s. some (true, s.0, set_user_email r.user r.email s.1))

  abbrev instead_of : Bool → Address → Option Address → Table → Option (Bool × Address × Table)
  instead_of conditional r none t = make_primary r t
  instead_of conditional r (some old) t =
      if conditional
      then some (false, r, t)
      else and_then (update_row (record old { primary = false }) t) (λ t'. make_primary r t')

  -- `set_as_primary`
  pub set_as_primary : Bool → Address → Table → Option (Bool × Address × Table)
  set_as_primary conditional r t = instead_of conditional r (get_primary r.user t) t

  -- `can_set_verified`
  pub can_set_verified : Address → Table → Bool
  can_set_verified r t =
      r.verified
      || not (
          settings.unique_email
          && any (λ s. not (s.pk == r.pk) && (s.verified && s.email == r.email)) t.rows)

  -- `set_verified`, not committed.
  pub set_verified : Address → Table → Bool × Address
  set_verified r t =
      if can_set_verified r t then (true, record r { verified = true }) else (r.verified, r)

  abbrev alternative : ℕ → Table → Text
  alternative user t = elim (first_row (λ s. s.user == user && s.verified) t.rows) [
    | some s ↦ s.email
    | none ↦ elim (first_row (λ s. s.user == user) t.rows) [ some s ↦ s.email | none ↦ [] ]
  ]

  -- `remove`
  pub remove : Address → Table → Table
  remove r t =
      let t' = record t { rows = keep (λ s. not (s.pk == r.pk)) t.rows } in
      if user_email r.user t == r.email
      then set_user_email r.user (alternative r.user t') t'
      else t'

  pub remove_each : List Address → Table → Table
  remove_each [] t = t
  remove_each (r ∷ rs) t = remove_each rs (remove r t)

  abbrev others_of : Address → Table → List Address
  others_of r t = keep (λ s. s.user == r.user && not (s.pk == r.pk)) t.rows

  abbrev settled : Address × Table → Bool × Address × Table
  settled (r, t) = (true, r, if settings.change_email then remove_each (others_of r t) t else t)

  -- `verify_email`
  pub verify_email : Address → Table → Option (Bool × Address × Table)
  verify_email r t =
      let (ok, r') = set_verified r t in
      if ok
      then and_then (set_as_primary (not settings.change_email) r' t)
          (λ s. and_then (save s.1 s.2) (λ saved. some (settled saved)))
      else some (false, r', t)

  -- `can_add_email`
  pub can_add_email : ℕ → Table → Bool
  can_add_email user t =
      settings.change_email
      || (settings.max_email_addresses == 0
          || ltb (tally (λ r. r.user == user) t.rows) settings.max_email_addresses)

  abbrev without_new : Option Address → Table → Table
  without_new none t = t
  without_new (some r) t = remove r t

  abbrev new_address : ℕ → Text → Address
  new_address user email = record {
    pk = 0;
    user = user;
    email = lower email;
    verified = false;
    primary = false;
  }

  -- `add_new_email`
  pub add_new_email : ℕ → Text → Table → Option (Address × Table)
  add_new_email user email t = create (new_address user email) (without_new (get_new user t) t)

  abbrev or_create : Option Address → Address → Table → Option (Address × Table)
  or_create (some r) new t = some (r, t)
  or_create none new t = create new t

  -- `add_email`
  pub add_email : ℕ → Text → Table → Option (Address × Table)
  add_email user email t =
      or_create (first_row (λ r. r.user == user && r.email == lower email) t.rows)
        (new_address user email) t

  -- `can_delete_email` of the adapter.
  pub can_delete_email : Address → Table → Bool
  can_delete_email r t =
      let has_other = any (λ s. s.user == r.user && not (s.pk == r.pk)) t.rows in
      if r.pk == 0
      then true
      else if r.primary
      then not has_other && not settings.login_by_email
      else has_other || not settings.login_by_email

  -- `delete_email`
  pub delete_email : Address → Table → Bool × Table
  delete_email r t = if can_delete_email r t then (true, remove r t) else (false, t)

  -- `can_mark_as_primary`
  pub can_mark_as_primary : Address → Table → Bool
  can_mark_as_primary r t =
      not (r.pk == 0) && (r.verified || not (any (λ s. s.user == r.user && s.verified) t.rows))

  -- `mark_as_primary`
  pub mark_as_primary : Address → Table → Option (Bool × Table)
  mark_as_primary r t =
      if can_mark_as_primary r t
      then and_then (set_as_primary false r t) (λ s. some (true, s.2))
      else some (false, t)
