-- ===== src/Mfa/Authenticators/Cleanup.antt =====
-- What is left after an authenticator is deleted.
use django_allauth.Prelude.{
  inl, inr, ◌∙◌, ℕ, ◌≡◌, refl, sym, true, false, not, ◌&&◌, List, [], ◌∷◌, keep, any, arith,
  Bool-cases, ◌==◌, nat_eq,
}
use django_allauth.Mfa.Authenticators.{
  Authenticator, is_of, is_factor_of, delete_dangling_recovery_codes, delete_and_cleanup,
}

factor-any :
    (user : ℕ) (rows : List Authenticator)
    → any (is_factor_of user) rows ≡ true
    → any (is_of user) rows ≡ true
factor-any user [] h = cc
factor-any user (a ∷ rows) h = ground (arith, factor-any user rows)

any-none :
    (user : ℕ) (rows : List Authenticator)
    → (any (is_of user) (keep (λ a. not (is_of user a)) rows) ≡ false)
      × (any (is_factor_of user) (keep (λ a. not (is_of user a)) rows) ≡ false)
any-none user [] = (refl, refl)
any-none user (a ∷ rows) = ground (arith, any-none user rows)

others-keep :
    (user pk : ℕ) (rows : List Authenticator)
    → keep (λ a. not (is_of user a)) (keep (λ a. not (a.pk == pk)) rows)
      ≡ keep (λ a. not (is_of user a) && not (a.pk == pk)) rows
others-keep user pk [] = refl
others-keep user pk (a ∷ rows) = ground (arith, others-keep user pk rows)

keep_idem :
    (user : ℕ) (rows : List Authenticator)
    → keep (λ a. not (is_of user a)) (keep (λ a. not (is_of user a)) rows)
      ≡ keep (λ a. not (is_of user a)) rows
keep_idem user [] = refl
keep_idem user (a ∷ rows) = ground (arith, keep_idem user rows)

-- After an authenticator is deleted, its user has authenticators only if one of them is more than
-- recovery codes: recovery codes are never left alone. The other users keep all of theirs, but for
-- the deleted row.
pub delete_and_cleanup_lem :
    (authenticator : Authenticator) (rows : List Authenticator)
    → let user = authenticator.user in
      let rows' = delete_and_cleanup authenticator rows in
      (any (is_of user) rows' ≡ any (is_factor_of user) rows')
      × (keep (λ a. not (is_of user a)) rows'
          ≡ keep (λ a. not (is_of user a) && not (a.pk == authenticator.pk)) rows)
unfolding delete_and_cleanup delete_dangling_recovery_codes
delete_and_cleanup_lem authenticator rows =
    let user = authenticator.user in
    let left = keep (λ a. not (a.pk == authenticator.pk)) rows in
    elim (Bool-cases (any (is_factor_of user) left)) [
      | inl some_factor ↦ rw some_factor (
        rw (factor-any user left some_factor, some_factor) refl,
        others-keep user authenticator.pk rows,
      )
      | inr no_factor ↦ rw no_factor (
        (any-none user left).0 ∙ sym (any-none user left).1,
        keep_idem user left ∙ others-keep user authenticator.pk rows,
      )
    ]
