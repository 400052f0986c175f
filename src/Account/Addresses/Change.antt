-- ===== src/Account/Addresses/Change.antt =====
-- Verifying an address where a user has one address only.
use django_allauth.Prelude.{
  ℕ, ◌≡◌, refl, ◌∙◌, sym, ap, subst, ◌⊎◌, inl, inr, Bool, true, false, not, ◌&&◌, Option, some,
  List, [], ◌∷◌, map, keep, any, arith, All, Bool-cases, ◌==◌, nat_eq, text_eq,
}
use django_allauth.Account.Addresses.{
  Settings, Address, Table, first_row, and_then, get_primary, update_row, save, set_as_primary,
  can_set_verified, set_verified, remove, remove_each, others_of, settled, verify_email,
}
use django_allauth.Account.Addresses.Rows.{
  All-first, All→any, replaced, demoted, promoted, Compatible, IsSound, is_in_way, conflict_sym,
  found_demoted, has_key-found,
}
use django_allauth.Account.Addresses.Primary.{made_primary}

module _ (settings : Settings) where
  All-free :
      (r : Address) (rows : List Address)
      → All (Compatible settings r) rows
      → All (λ s. is_in_way settings r s ≡ false) rows
  All-free r [] h = tt
  All-free r (s ∷ rows) h = (ground (arith, h.0.1), All-free r rows h.1)

  -- A row that was found is in nobody's way.
  found_free :
      (p : Address → Bool) (rows : List Address) (old : Address)
      → first_row p rows ≡ some old
      → IsSound settings rows
      → All (λ s. is_in_way settings old s ≡ false) rows
  found_free p [] old e sound = cc
  found_free p (r ∷ rows) old e sound = elim (Bool-cases (p r)) [
    | inl here ↦
        let same : r ≡ old = ground (arith, e, here) in
        subst (λ (o : Address). All (λ s. is_in_way settings o s ≡ false) (r ∷ rows)) same
          (ground arith, All-free r rows sound.0)
    | inr later ↦
        let e' : first_row p rows ≡ some old = ground (arith, e, later) in
        let c = All-first (Compatible settings r) p rows old e' sound.0 in
        (ground (arith, conflict_sym settings r old ∙ c.1), found_free p rows old e' sound.1)
  ]

  -- To be removed, or none of the others.
  abbrev IsListed : (Address → Bool) → List Address → Address → Type 0
  IsListed p rs s = (p s ≡ false) ⊎ (any (λ o. o.pk == s.pk) rs ≡ true)

  keep-IsListed :
      (p : Address → Bool) (o : Address) (rs rows : List Address)
      → All (IsListed p (o ∷ rs)) rows
      → All (IsListed p rs) (keep (λ s. not (s.pk == o.pk)) rows)
  keep-IsListed p o rs [] h = tt
  keep-IsListed p o rs (s ∷ rows) h =
      let rest = keep-IsListed p o rs rows h.1 in
      elim (Bool-cases (s.pk == o.pk)) [
        | inl gone ↦ rw gone rest
        | inr kept ↦
            rw kept (elim h.0 [ inl free ↦ inl free | inr listed ↦ inr (ground arith) ], rest)
      ]

  remove_rows :
      (o : Address) (t : Table) → (remove settings o t).rows ≡ keep (λ s. not (s.pk == o.pk)) t.rows
  unfolding remove
  remove_rows o t = ground arith

  none_left :
      (p : Address → Bool) (rows : List Address)
      → All (IsListed p []) rows
      → All (λ s. p s ≡ false) rows
  none_left p [] h = tt
  none_left p (s ∷ rows) h = (elim h.0 [ inl free ↦ free | inr listed ↦ cc ], none_left p rows h.1)

  remove_each-IsListed :
      (p : Address → Bool) (rs : List Address) (t : Table)
      → All (IsListed p rs) t.rows
      → All (λ s. p s ≡ false) (remove_each settings rs t).rows
  unfolding remove_each
  remove_each-IsListed p [] t h = none_left p t.rows h
  remove_each-IsListed p (o ∷ rs) t h = remove_each-IsListed p rs (remove settings o t) (
      subst (λ (rows : List Address). All (IsListed p rs) rows) (sym (remove_rows o t))
        (keep-IsListed p o rs t.rows h))

  weaken-IsListed :
      (p : Address → Bool) (o : Address) (rs rows : List Address)
      → All (IsListed p rs) rows
      → All (IsListed p (o ∷ rs)) rows
  weaken-IsListed p o rs [] h = tt
  weaken-IsListed p o rs (s ∷ rows) h = (
    elim h.0 [ inl free ↦ inl free | inr listed ↦ inr (ground arith) ],
    weaken-IsListed p o rs rows h.1,
  )

  keep-true :
      (p : Address → Bool) (s : Address) (rows : List Address)
      → p s ≡ true
      → s ∷ keep p rows ≡ keep p (s ∷ rows)
  keep-true p s rows e = rw e refl

  keep-false :
      (p : Address → Bool) (s : Address) (rows : List Address)
      → p s ≡ false
      → keep p rows ≡ keep p (s ∷ rows)
  keep-false p s rows e = rw e refl

  IsListed-All : (p : Address → Bool) (rows : List Address) → All (IsListed p (keep p rows)) rows
  IsListed-All p [] = tt
  IsListed-All p (s ∷ rows) = elim (Bool-cases (p s)) [
    | inl other ↦
        subst (λ (l : List Address). All (IsListed p l) (s ∷ rows)) (keep-true p s rows other)
          (inr (ground arith), weaken-IsListed p s (keep p rows) rows (IsListed-All p rows))
    | inr own ↦
        subst (λ (l : List Address). All (IsListed p l) (s ∷ rows)) (keep-false p s rows own)
          (inl own, IsListed-All p rows)
  ]

  abbrev is_other : Address → Address → Bool
  is_other r s = s.user == r.user && not (s.pk == r.pk)

  -- What is found first stays there, where no row of its key goes and no row before it comes in.
  first-keep :
      (p : Address → Bool) (o r : Address) (rows : List Address)
      → first_row p rows ≡ some r
      → (r.pk == o.pk) ≡ false
      → first_row p (keep (λ s. not (s.pk == o.pk)) rows) ≡ some r
  first-keep p o r [] e ne = e
  first-keep p o r (s ∷ rows) e ne = elim (Bool-cases (p s)) [
    | inl here ↦
        let same : s ≡ r = ground (arith, e, here) in
        let kept : (s.pk == o.pk) ≡ false = ap (λ (x : Address). x.pk == o.pk) same ∙ ne in
        rw (kept, here) (ap some same)
    | inr later ↦
        let rest = first-keep p o r rows (ground (arith, e, later)) ne in
        elim (Bool-cases (s.pk == o.pk)) [
          | inl gone ↦ rw gone rest
          | inr kept ↦ rw (kept, later) rest
        ]
  ]

  first-remove_each :
      (p : Address → Bool) (r : Address) (rs : List Address) (t : Table)
      → first_row p t.rows ≡ some r
      → All (λ s. (r.pk == s.pk) ≡ false) rs
      → first_row p (remove_each settings rs t).rows ≡ some r
  unfolding remove_each
  first-remove_each p r [] t e h = e
  first-remove_each p r (o ∷ rs) t e h =
      first-remove_each p r rs (remove settings o t)
        (ap (first_row p) (remove_rows o t) ∙ first-keep p o r t.rows e h.0) h.1

  others-ne :
      (r : Address) (rows : List Address)
      → All (λ s. (r.pk == s.pk) ≡ false) (keep (λ s. s.user == r.user && not (s.pk == r.pk)) rows)
  others-ne r [] = tt
  others-ne r (s ∷ rows) = elim (Bool-cases (s.user == r.user && not (s.pk == r.pk))) [
    | inl other ↦ rw other (ground (arith, other), others-ne r rows)
    | inr own ↦ rw own (others-ne r rows)
  ]

  -- A row that is found first still is when it is saved.
  first-replaced :
      (p : Address → Bool) (r : Address) (rows : List Address)
      → first_row p rows ≡ some r
      → first_row p (map (replaced r) rows) ≡ some r
  first-replaced p r [] e = e
  first-replaced p r (s ∷ rows) e = elim (Bool-cases (p s)) [
    | inl here ↦
        let same : s ≡ r = ground (arith, e, here) in
        let found : p r ≡ true = ap p (sym same) ∙ here in
        elim (Bool-cases (s.pk == r.pk)) [
          | inl own ↦ rw (own, found) refl
          | inr other ↦ rw (other, here) (ap some same)
        ]
    | inr later ↦
        let rest = first-replaced p r rows (ground (arith, e, later)) in
        elim (Bool-cases (s.pk == r.pk)) [
          | inl own ↦ elim (Bool-cases (p r)) [
            | inl found ↦ rw (own, found) refl
            | inr missed ↦ rw (own, missed) rest
          ]
          | inr other ↦ rw (other, later) rest
        ]
  ]

  -- Of the user's addresses the one is there, as the primary one, and no other.
  abbrev pub IsOnly : Address → Option (Bool × Address × Table) → Type 0
  IsOnly r outcome =
      (t' : Table) × (outcome ≡ some (true, r, t'))
      × (get_primary r.user t' ≡ some r)
      × All (λ s. is_other r s ≡ false) t'.rows

  settled_lem :
      (r : Address) (t : Table)
      → settings.change_email ≡ true
      → (r.pk == 0) ≡ false
      → IsSound settings t.rows
      → get_primary r.user t ≡ some r
      → IsOnly r (and_then (save settings r t) (λ saved. some (settled settings saved)))
  unfolding save update_row get_primary
  settled_lem r t change saved sound found =
      let t' : Table = record t { rows = map (replaced r) t.rows } in
      let free = found_free (λ s. s.user == r.user && s.primary) t.rows r found sound in
      (
        remove_each settings (others_of settings r t') t',
        rw (saved, All→any (is_in_way settings r) t.rows free, change) refl,
        first-remove_each (λ s. s.user == r.user && s.primary) r (others_of settings r t') t'
            (first-replaced (λ s. s.user == r.user && s.primary) r t.rows found)
            (others-ne r (map (replaced r) t.rows)),
        remove_each-IsListed (is_other r) (others_of settings r t') t'
            (IsListed-All (is_other r) (map (replaced r) t.rows)),
      )

  abbrev as_verified : Address → Address
  as_verified r = record r { verified = true }

  verified_free :
      (r : Address) (rows : List Address)
      → (r.verified ≡ true)
        ⊎ ((settings.unique_email
              && any (λ s. not (s.pk == r.pk) && (s.verified && s.email == r.email)) rows)
            ≡ false)
      → All (λ s. is_in_way settings (demoted r) s ≡ false) rows
      → All (λ s. is_in_way settings (demoted (as_verified r)) s ≡ false) rows
  verified_free r [] may h = tt
  verified_free r (s ∷ rows) may h = (
    elim may [
      | inl already ↦ ground (arith, h.0, already)
      | inr unique ↦ ground (arith, h.0, unique)
    ],
    verified_free r rows
        (elim may [ inl already ↦ inl already | inr unique ↦ inr (ground (arith, unique)) ]) h.1,
  )

  may_verify :
      (r : Address) (t : Table)
      → can_set_verified settings r t ≡ true
      → (r.verified ≡ true)
        ⊎ ((settings.unique_email
              && any (λ s. not (s.pk == r.pk) && (s.verified && s.email == r.email)) t.rows)
            ≡ false)
  unfolding can_set_verified
  may_verify r t may = elim (Bool-cases r.verified) [
    | inl already ↦ inl already
    | inr new ↦ inr (ground (arith, may, new))
  ]

-- Where users have one address and change it, on a table that the constraints allow: a saved address
-- of the table that may be set as verified becomes verified and is then in the table as the primary
-- address of its user, all other addresses of that user are gone, and no constraint refuses it.
pub verify_email_lem :
    (settings : Settings) (k : ℕ) (r : Address) (t : Table)
    → settings.change_email ≡ true
    → (r.pk == 0) ≡ false
    → first_row (λ s. s.pk == k) t.rows ≡ some r
    → IsSound settings t.rows
    → can_set_verified settings r t ≡ true
    → IsOnly settings (promoted (record r { verified = true })) (verify_email settings r t)
unfolding verify_email set_verified
verify_email_lem settings k r t change saved found sound may =
    let r1 : Address = record r { verified = true } in
    let (t2, done, primary, sound2, field) =
      made_primary settings r1 t saved (has_key-found settings (λ s. s.pk == k) t.rows r found)
        sound
        (verified_free settings r t.rows (may_verify settings r t may)
          (found_demoted settings (λ s. s.pk == k) t.rows r found sound)) in
    let step : set_as_primary settings (not settings.change_email) r1 t
        ≡ some (true, promoted r1, t2) =
      ap (λ (b : Bool). set_as_primary settings (not b) r1 t) change ∙ done in
    rw may (
      subst
        (λ (o : Option (Bool × Address × Table)).
          IsOnly settings (promoted r1) (
            and_then o
              (λ s. and_then (save settings s.1 s.2) (λ row. some (settled settings row)))))
        (sym step) (settled_lem settings (promoted r1) t2 change saved sound2 primary))
