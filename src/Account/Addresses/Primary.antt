-- ===== src/Account/Addresses/Primary.antt =====
-- Moving the primary address.
use django_allauth.Prelude.{
  is_ascii, ℕ, ◌≡◌, refl, ◌∙◌, ap, subst, Bool, true, false, not, ◌&&◌, Option, none, some, List,
  [], ◌∷◌, map, arith, All, ◌==◌, nat_eq, text_eq, lookup, lookup-insert, eq_refl,
}
use django_allauth.Account.UserCode.{lower}
use django_allauth.Account.Addresses.{
  Settings, Address, Table, first_row, get_primary, update_row, save, make_primary, instead_of,
  set_as_primary, set_user_email, stored_email, take, can_mark_as_primary, mark_as_primary,
}
use django_allauth.Account.Addresses.Rows.{
  All-first, All-map2, All→any, replaced, demoted, promoted, IsSound, is_in_way, found_demoted,
  is_primary_of, only_primary, no_primary, replaced-IsSound, promote_free, promote_after, has_key,
  has_key-replaced, first-promoted, has_key-found,
}

module _ (settings : Settings) where
  -- The outcome that is wanted: nothing is refused, and the row is the one primary row.
  abbrev pub IsMadePrimary : Address → Table → Option (Bool × Address × Table) → Type 0
  IsMadePrimary r t outcome =
      (t' : Table) × (outcome ≡ some (true, promoted r, t'))
      × (get_primary r.user t' ≡ some (promoted r))
      × IsSound settings t'.rows
      × (lookup r.user t'.user_emails ≡ some (take t.max_length (lower r.email)))

  make_primary_lem :
      (r : Address) (t : Table)
      → (r.pk == 0) ≡ false
      → has_key settings r.pk t.rows ≡ true
      → IsSound settings t.rows
      → All (λ s. is_in_way settings (promoted r) s ≡ false) t.rows
      → IsMadePrimary r t (make_primary settings r t)
  unfolding save update_row get_primary
  make_primary_lem r t saved present sound free =
      let rows' = map (replaced (promoted r)) t.rows in
      let t' : Table = set_user_email r.user r.email (record t { rows = rows' }) in
      (
        t',
        rw (saved, All→any (is_in_way settings (promoted r)) t.rows free) refl,
        first-promoted settings r t.rows present free,
        replaced-IsSound settings (promoted r) t.rows sound free,
        rw (lookup-insert r.user r.user (stored_email t r.email) t.user_emails, eq_refl r.user)
            refl,
      )

  instead_of_lem :
      (r : Address) (t : Table) (o : Option Address)
      → first_row (is_primary_of settings r.user) t.rows ≡ o
      → (r.pk == 0) ≡ false
      → has_key settings r.pk t.rows ≡ true
      → IsSound settings t.rows
      → All (λ s. is_in_way settings (demoted r) s ≡ false) t.rows
      → IsMadePrimary r t (instead_of settings false r o t)
  unfolding update_row
  instead_of_lem r t none e saved present sound free = make_primary_lem r t saved present sound (
      subst (λ (rows : List Address). All (λ s. is_in_way settings (promoted r) s ≡ false) rows)
        (map_id t.rows)
        (All-map2 (λ s. is_primary_of settings r.user s ≡ false)
          (λ s. is_in_way settings (demoted r) s ≡ false)
          (λ s. is_in_way settings (promoted r) s ≡ false) (λ s. s)
          (λ s a b. promote_free settings r s a b) t.rows (no_primary settings r.user t.rows e)
          free))
    where
      map_id : (rows : List Address) → map (λ s. s) rows ≡ rows
      map_id [] = refl
      map_id (s ∷ rows) = ap (◌∷◌ s) (map_id rows)
  instead_of_lem r t (some old) e saved present sound free =
      let cleared = found_demoted settings (is_primary_of settings r.user) t.rows old e sound in
      let rows' = map (replaced (demoted old)) t.rows in
      let t1 : Table = record t { rows = rows' } in
      let free_old =
        All-first (λ s. is_in_way settings (demoted r) s ≡ false) (is_primary_of settings r.user)
          t.rows old e free in
      rw (All→any (is_in_way settings (demoted old)) t.rows cleared) (
        make_primary_lem r t1 saved (has_key-replaced settings r.pk (demoted old) t.rows ∙ present)
          (replaced-IsSound settings (demoted old) t.rows sound cleared)
          (All-map2 (λ s. (not (s.pk == old.pk) && is_primary_of settings r.user s) ≡ false)
            (λ s. is_in_way settings (demoted r) s ≡ false)
            (λ s. is_in_way settings (promoted r) s ≡ false) (replaced (demoted old))
            (λ s a b. promote_after settings r old s free_old a b) t.rows
            (only_primary settings r.user t.rows old e sound) free))

pub made_primary :
    (settings : Settings) (r : Address) (t : Table)
    → (r.pk == 0) ≡ false
    → has_key settings r.pk t.rows ≡ true
    → IsSound settings t.rows
    → All (λ s. is_in_way settings (demoted r) s ≡ false) t.rows
    → IsMadePrimary settings r t (set_as_primary settings false r t)
unfolding set_as_primary get_primary
made_primary settings r t saved present sound free =
    instead_of_lem settings r t (get_primary r.user t) refl saved present sound free

-- On a table that the constraints allow, `set_as_primary`, unless conditional, is never refused by
-- them: for an address that is in the table, and that could be saved there if it were not primary,
-- it succeeds, makes the address the primary one of its user in place of any other, writes it, in lower
-- case and cut to the length of the field, to the user, and leaves a table that the constraints allow.
-- The address is in ASCII.
pub set_as_primary_lem :
    (settings : Settings) (r : Address) (t : Table)
    → (r.pk == 0) ≡ false
    → has_key settings r.pk t.rows ≡ true
    → IsSound settings t.rows
    → All (λ s. is_in_way settings (demoted r) s ≡ false) t.rows
    → is_ascii r.email ≡ true
    → IsMadePrimary settings r t (set_as_primary settings false r t)
set_as_primary_lem settings r t saved present sound free ascii =
    made_primary settings r t saved present sound free

-- On a table that the constraints allow, an address of the table that may be marked as primary is
-- made the primary one of its user, with the result that the user's field has it, in lower case and cut
-- to the length of the field, and is never refused by the constraints, which the table still meets. The
-- address is in ASCII.
pub mark_as_primary_lem :
    (settings : Settings) (k : ℕ) (r : Address) (t : Table)
    → first_row (λ s. s.pk == k) t.rows ≡ some r
    → IsSound settings t.rows
    → can_mark_as_primary settings r t ≡ true
    → is_ascii r.email ≡ true
    → (t' : Table) × (mark_as_primary settings r t ≡ some (true, t'))
      × (get_primary r.user t' ≡ some (promoted r))
      × IsSound settings t'.rows
      × (lookup r.user t'.user_emails ≡ some (take t.max_length (lower r.email)))
unfolding mark_as_primary can_mark_as_primary
mark_as_primary_lem settings k r t found sound may ascii =
    let (t', done, primary, sound', field) =
      made_primary settings r t (ground arith)
        (has_key-found settings (λ s. s.pk == k) t.rows r found) sound
        (found_demoted settings (λ s. s.pk == k) t.rows r found sound) in
    (t', rw (may, done) refl, primary, sound', field)
