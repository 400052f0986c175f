-- ===== src/Account/Addresses/Deletion.antt =====
-- Deleting an address.
use django_allauth.Prelude.{
  ℕ, ◌≡◌, refl, ◌⊎◌, Bool, true, false, not, ◌&&◌, List, [], ◌∷◌, keep, any, arith, ◌==◌, nat_eq,
  text_eq,
}
use django_allauth.Account.Addresses.{
  Settings, Address, Table, remove, can_delete_email, delete_email,
}

any-keep :
    (user k : ℕ) (rows : List Address)
    → any (λ s. s.user == user) (keep (λ s. not (s.pk == k)) rows)
      ≡ any (λ s. s.user == user && not (s.pk == k)) rows
any-keep user k [] = refl
any-keep user k (s ∷ rows) = ground (arith, any-keep user k rows)

abbrev pub has_address : ℕ → Table → Bool
has_address user t = any (λ s. s.user == user) t.rows

has_address-remove :
    (settings : Settings) (r : Address) (t : Table)
    → has_address r.user (remove settings r t)
      ≡ any (λ s. s.user == r.user && not (s.pk == r.pk)) t.rows
unfolding remove
has_address-remove settings r t = ground (arith, any-keep r.user r.pk t.rows)

-- A saved address that is deleted was not the last way to log in: the user still has an address, or
-- can log in by other means than by email; and it was not the primary one, or no address is left. So
-- a user with addresses left keeps the primary one.
pub delete_email_lem :
    (settings : Settings) (r : Address) (t : Table)
    → (r.pk == 0) ≡ false
    → (delete_email settings r t).0 ≡ true
    → let t' = (delete_email settings r t).1 in
      ((has_address r.user t' ≡ true) ⊎ (settings.login_by_email ≡ false))
      × ((r.primary ≡ false) ⊎ (has_address r.user t' ≡ false))
unfolding delete_email can_delete_email
delete_email_lem settings r t saved deleted =
    ground (arith, has_address-remove settings r t, saved, deleted)
