-- ===== src/Account/Addresses/Rows.antt =====
-- Rows that the constraints of the model allow together, and what saving one leaves of them.
use django_allauth.Prelude.{
  ℕ, ◌≡◌, refl, ◌∙◌, subst, inl, inr, Bool, true, false, not, ◌&&◌, none, some, List, [], ◌∷◌, map,
  any, arith, All, Bool-cases, if◌then◌else◌, ◌==◌, nat_eq, text_eq, text_eqb_iff,
}
use django_allauth.Account.Addresses.{Settings, Address, first_row, conflict}

pub All-first {κ} :
    (P : Address → Type κ) (p : Address → Bool) (rows : List Address) (found : Address)
    → first_row p rows ≡ some found
    → All P rows
    → P found
All-first P p [] found e h = cc
All-first P p (r ∷ rows) found e h = elim (Bool-cases (p r)) [
  | inl here ↦ subst P (ground (arith, e, here)) h.0
  | inr later ↦ All-first P p rows found (ground (arith, e, later)) h.1
]

pub All-map2 :
    (P Q R : Address → Type 0) (f : Address → Address)
    → ((s : Address) → P s → Q s → R (f s))
    → (rows : List Address) → All P rows
    → All Q rows
    → All R (map f rows)
All-map2 P Q R f step [] p q = tt
All-map2 P Q R f step (s ∷ rows) p q = (step s p.0 q.0, All-map2 P Q R f step rows p.1 q.1)

pub any→All :
    (q : Address → Bool) (rows : List Address) → any q rows ≡ false → All (λ s. q s ≡ false) rows
any→All q [] h = tt
any→All q (s ∷ rows) h = (ground arith, any→All q rows (ground arith))

pub All→any :
    (q : Address → Bool) (rows : List Address) → All (λ s. q s ≡ false) rows → any q rows ≡ false
All→any q [] h = refl
All→any q (s ∷ rows) h = ground (arith, h.0, All→any q rows h.1)

-- The row with the key is another one.
abbrev pub replaced : Address → Address → Address
replaced r s = if s.pk == r.pk then r else s

abbrev pub demoted : Address → Address
demoted r = record r { primary = false }

abbrev pub promoted : Address → Address
promoted r = record r { primary = true }

module _ (settings : Settings) where
  -- Two rows that the constraints allow.
  abbrev pub Compatible : Address → Address → Type 0
  Compatible r s = ((s.pk == r.pk) ≡ false) × (conflict settings s r ≡ false)

  -- What the constraints of the model promise of the table.
  abbrev pub IsSound : List Address → Type 0
  IsSound [] = Unit
  IsSound (r ∷ rows) = All (Compatible r) rows × IsSound rows

  -- A row does not get into the way of another one.
  abbrev pub is_in_way : Address → Address → Bool
  is_in_way r s = not (s.pk == r.pk) && conflict settings s r

  pub conflict_sym : (r s : Address) → conflict settings r s ≡ conflict settings s r
  conflict_sym r s = ground (arith, text_eqb_iff r.email s.email, text_eqb_iff s.email r.email)

  pub no_conflict-demoted :
      (s r : Address) → conflict settings s r ≡ false → conflict settings s (demoted r) ≡ false
  no_conflict-demoted s r h = ground arith

  pub All-demoted :
      (r : Address) (rows : List Address)
      → All (Compatible r) rows
      → All (λ s. is_in_way (demoted r) s ≡ false) rows
  All-demoted r [] h = tt
  All-demoted r (s ∷ rows) h =
      (ground (arith, no_conflict-demoted s r h.0.1), All-demoted r rows h.1)

  -- Once it is not primary, a row that was found is in nobody's way.
  pub found_demoted :
      (p : Address → Bool) (rows : List Address) (old : Address)
      → first_row p rows ≡ some old
      → IsSound rows
      → All (λ s. is_in_way (demoted old) s ≡ false) rows
  found_demoted p [] old e sound = cc
  found_demoted p (r ∷ rows) old e sound = elim (Bool-cases (p r)) [
    | inl here ↦
        let same : r ≡ old = ground (arith, e, here) in
        subst (λ (o : Address). All (λ s. is_in_way (demoted o) s ≡ false) (r ∷ rows)) same
          (ground arith, All-demoted r rows sound.0)
    | inr later ↦
        let e' : first_row p rows ≡ some old = ground (arith, e, later) in
        let c = All-first (Compatible r) p rows old e' sound.0 in
        (
          ground (arith, no_conflict-demoted r old (conflict_sym r old ∙ c.1)),
          found_demoted p rows old e' sound.1,
        )
  ]

  -- The primary rows of a user.
  abbrev pub is_primary_of : ℕ → Address → Bool
  is_primary_of user s = s.user == user && s.primary

  pub All-only :
      (user : ℕ) (r : Address) (rows : List Address)
      → is_primary_of user r ≡ true
      → All (Compatible r) rows
      → All (λ s. (not (s.pk == r.pk) && is_primary_of user s) ≡ false) rows
  All-only user r [] e h = tt
  All-only user r (s ∷ rows) e h = (ground (arith, h.0.1, e), All-only user r rows e h.1)

  pub only_primary :
      (user : ℕ) (rows : List Address) (old : Address)
      → first_row (is_primary_of user) rows ≡ some old
      → IsSound rows
      → All (λ s. (not (s.pk == old.pk) && is_primary_of user s) ≡ false) rows
  only_primary user [] old e sound = cc
  only_primary user (r ∷ rows) old e sound = elim (Bool-cases (is_primary_of user r)) [
    | inl here ↦
        let same : r ≡ old = ground (arith, e, here) in
        subst
          (λ (o : Address).
            All (λ s. (not (s.pk == o.pk) && is_primary_of user s) ≡ false) (r ∷ rows))
          same (ground arith, All-only user r rows here sound.0)
    | inr later ↦
        (ground (arith, later), only_primary user rows old (ground (arith, e, later)) sound.1)
  ]

  pub no_primary :
      (user : ℕ) (rows : List Address)
      → first_row (is_primary_of user) rows ≡ none
      → All (λ s. is_primary_of user s ≡ false) rows
  no_primary user [] e = tt
  no_primary user (r ∷ rows) e = (ground arith, no_primary user rows (ground arith))

  -- A row that is in nobody's way can be saved: the table stays sound.
  pub Compatible-replaced :
      (r s u : Address)
      → is_in_way u r ≡ false
      → Compatible r s
      → is_in_way u s ≡ false
      → Compatible (replaced u r) (replaced u s)
  Compatible-replaced r s u hr c hs =
      ground (arith, c.0, c.1, conflict_sym u s, conflict_sym u r, conflict_sym s r)

  pub replaced-IsSound :
      (u : Address) (rows : List Address)
      → IsSound rows
      → All (λ s. is_in_way u s ≡ false) rows
      → IsSound (map (replaced u) rows)
  replaced-IsSound u [] sound h = tt
  replaced-IsSound u (r ∷ rows) sound h = (
    All-map2 (Compatible r) (λ s. is_in_way u s ≡ false) (Compatible (replaced u r)) (replaced u)
        (λ s c hs. Compatible-replaced r s u h.0 c hs) rows sound.0 h.1,
    replaced-IsSound u rows sound.1 h.1,
  )

  pub promote_free :
      (r s : Address)
      → is_primary_of r.user s ≡ false
      → is_in_way (demoted r) s ≡ false
      → is_in_way (promoted r) s ≡ false
  promote_free r s none_ free = ground arith

  pub promote_after :
      (r old s : Address)
      → is_in_way (demoted r) old ≡ false
      → (not (s.pk == old.pk) && is_primary_of r.user s) ≡ false
      → is_in_way (demoted r) s ≡ false
      → is_in_way (promoted r) (replaced (demoted old) s) ≡ false
  promote_after r old s free_old only free = ground arith

  abbrev pub has_key : ℕ → List Address → Bool
  has_key k rows = any (λ s. s.pk == k) rows

  pub has_key-replaced :
      (k : ℕ) (u : Address) (rows : List Address)
      → has_key k (map (replaced u) rows) ≡ has_key k rows
  has_key-replaced k u [] = refl
  has_key-replaced k u (s ∷ rows) = ground (arith, has_key-replaced k u rows)

  -- The row that was put in is the primary one of its user.
  pub first-promoted :
      (r : Address) (rows : List Address)
      → has_key r.pk rows ≡ true
      → All (λ s. is_in_way (promoted r) s ≡ false) rows
      → first_row (is_primary_of r.user) (map (replaced (promoted r)) rows) ≡ some (promoted r)
  first-promoted r [] e h = cc
  first-promoted r (s ∷ rows) e h = elim (Bool-cases (s.pk == r.pk)) [
    | inl here ↦ rw here (ground arith)
    | inr other ↦ ground (arith, other, h.0, first-promoted r rows (ground arith) h.1)
  ]

  pub has_key-found :
      (p : Address → Bool) (rows : List Address) (found : Address)
      → first_row p rows ≡ some found
      → has_key found.pk rows ≡ true
  has_key-found p [] found e = cc
  has_key-found p (r ∷ rows) found e = elim (Bool-cases (p r)) [
    | inl here ↦
        let same : r ≡ found = ground (arith, e, here) in
        subst (λ (o : Address). has_key o.pk (r ∷ rows) ≡ true) same (ground arith)
    | inr later ↦ ground (arith, has_key-found p rows found (ground (arith, e, later)))
  ]
