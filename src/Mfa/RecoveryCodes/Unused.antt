-- ===== src/Mfa/RecoveryCodes/Unused.antt =====
-- The unused codes as a list from which a code is spent.
use django_allauth.Prelude.{
  ℕ, ◌+◌, ◌≤◌, ◌<◌, ◌≡◌, refl, Bool, true, false, Option, none, some, List, [], ◌∷◌, map, arith,
  inl, inr, if◌then◌else◌, ◌==◌, Text, text_eq, text_eqb_iff, zero, suc, sym, ap, ◌≢◌, ascii-zfill,
  ◌⊎◌, All, is_ascii, compare_digest-ascii, compare_digest_beyond, Bool-cases,
}
use django_allauth.Mfa.Bits.{set_bit, test_bit-set_bit}
use django_allauth.Mfa.RecoveryCodes.{
  Search, found_at, missing, raised, Env, Data, derive, index, pop, unused_from, find_unused,
  generate_codes, get_unused_codes, validate_code,
}

eq_sym : (s t : Text) → (s == t) ≡ (t == s)
eq_sym s t = ground (arith, text_eqb_iff s t, text_eqb_iff t s)

-- The specification: whether the code is in the list, and the list without its first occurrence.
pub spend : Text → List Text → Bool × List Text
spend code [] = (false, [])
spend code (c ∷ cs) =
    let (found, rest) = spend code cs in if code == c then (true, cs) else (found, c ∷ rest)

abbrev popped : (Text → Text) → List Text → Option ℕ → Bool × List Text
popped decrypt stored none = (false, map decrypt stored)
popped decrypt stored (some i) = (true, map decrypt (pop i stored))

popped-index :
    (decrypt : Text → Text) (code : Text) (stored : List Text)
    → popped decrypt stored (index code (map decrypt stored)) ≡ spend code (map decrypt stored)
unfolding spend
popped-index decrypt code [] = refl
popped-index decrypt code (c ∷ stored) =
    ground (arith, eq_sym (decrypt c) code, popped-index decrypt code stored)

-- A bit below the list's indices does not show.
unused_from-below :
    (mask i k : ℕ) (cs : List Text)
    → k < i
    → unused_from (set_bit mask k) i cs ≡ unused_from mask i cs
unfolding unused_from
unused_from-below mask i k [] lt = refl
unused_from-below mask i k (c ∷ cs) lt =
    ground (arith, test_bit-set_bit mask k i, unused_from-below mask (i + 1) k cs)

find_unused-le :
    (code : Text) (mask i k : ℕ) (cs : List Text) → find_unused code mask i cs ≡ found_at k → i ≤ k
unfolding find_unused
find_unused-le code mask i k [] h = cc
find_unused-le code mask i k (c ∷ cs) h = ground (arith, find_unused-le code mask (i + 1) k cs)

abbrev AreAscii : List Text → Type 0
AreAscii = All (λ c. is_ascii c ≡ true)

abbrev marked : ℕ → ℕ → List Text → Search → Bool × List Text
marked mask i cs missing = (false, unused_from mask i cs)
marked mask i cs raised = (false, unused_from mask i cs)
marked mask i cs (found_at k) = (true, unused_from (set_bit mask k) i cs)

Search-cases : (o : Search) → ((o ≡ missing) ⊎ (o ≡ raised)) ⊎ ((k : ℕ) × (o ≡ found_at k))
Search-cases missing = inl (inl refl)
Search-cases raised = inl (inr refl)
Search-cases (found_at k) = inr (k, refl)

marked-find_unused :
    (code : Text) (mask i : ℕ) (cs : List Text)
    → is_ascii code ≡ true
    → AreAscii cs
    → marked mask i cs (find_unused code mask i cs) ≡ spend code (unused_from mask i cs)
unfolding spend unused_from find_unused
marked-find_unused code mask i [] ascii all = refl
marked-find_unused code mask i (c ∷ cs) ascii all =
    let compared = compare_digest-ascii code c ascii all.0 in
    let ih = marked-find_unused code mask (i + 1) cs ascii all.1 in
    elim (Search-cases (find_unused code mask (i + 1) cs)) [
      | inl (inl e) ↦
          ground
            (arith, e, compared, ih, test_bit-set_bit mask i i, unused_from-below mask (i + 1) i cs)
      | inl (inr e) ↦
          ground
            (arith, e, compared, ih, test_bit-set_bit mask i i, unused_from-below mask (i + 1) i cs)
      | inr (k, later) ↦ ground (
        arith,
        later,
        compared,
        ih,
        test_bit-set_bit mask i i,
        test_bit-set_bit mask k i,
        find_unused-le code mask (i + 1) k cs later,
        unused_from-below mask (i + 1) i cs,
      )
    ]

-- A code in ASCII is compared without a `TypeError`.
find_unused-ne-raised :
    (code : Text) (mask i : ℕ) (cs : List Text)
    → is_ascii code ≡ true
    → AreAscii cs
    → find_unused code mask i cs ≢ raised
unfolding find_unused
find_unused-ne-raised code mask i [] ascii all = λ h. cc
find_unused-ne-raised code mask i (c ∷ cs) ascii all =
    let compared = compare_digest-ascii code c ascii all.0 in
    let ih = find_unused-ne-raised code mask (i + 1) cs ascii all.1 in
    λ h. ground (arith, h, compared, ih)

beyond-ne : (code c : Text) → is_ascii code ≡ false → is_ascii c ≡ true → (code == c) ≡ false
beyond-ne code c beyond ascii = elim (Bool-cases (code == c)) [
  | inl same ↦ let e : is_ascii code ≡ is_ascii c = ap is_ascii ((text_eqb_iff code c).0 same) in cc
  | inr other ↦ other
]

-- A code beyond ASCII is in no list of ASCII codes, and is not found.
spend_beyond :
    (code : Text) (mask i : ℕ) (cs : List Text)
    → is_ascii code ≡ false
    → AreAscii cs
    → spend code (unused_from mask i cs) ≡ (false, unused_from mask i cs)
unfolding spend unused_from
spend_beyond code mask i [] beyond all = refl
spend_beyond code mask i (c ∷ cs) beyond all =
    ground (arith, beyond-ne code c beyond all.0, spend_beyond code mask (i + 1) cs beyond all.1)

find_unused-ne-found :
    (code : Text) (mask i k : ℕ) (cs : List Text)
    → is_ascii code ≡ false
    → find_unused code mask i cs ≢ found_at k
unfolding find_unused
find_unused-ne-found code mask i k [] beyond = λ h. cc
find_unused-ne-found code mask i k (c ∷ cs) beyond =
    let raises = compare_digest_beyond code c beyond in
    let ih = find_unused-ne-found code mask (i + 1) k cs beyond in
    λ h. ground (arith, h, raises, ih)

marked_any :
    (code : Text) (mask : ℕ) (cs : List Text)
    → AreAscii cs
    → marked mask 0 cs (find_unused code mask 0 cs) ≡ spend code (unused_from mask 0 cs)
marked_any code mask cs all = elim (Bool-cases (is_ascii code)) [
  | inl ascii ↦ marked-find_unused code mask 0 cs ascii all
  | inr beyond ↦ elim (Search-cases (find_unused code mask 0 cs)) [
    | inl (inl e) ↦ rw e (sym (spend_beyond code mask 0 cs beyond all))
    | inl (inr e) ↦ rw e (sym (spend_beyond code mask 0 cs beyond all))
    | inr (k, e) ↦ absurd (find_unused-ne-found code mask 0 k cs beyond e)
  ]
]

-- Whether a call accepts.
abbrev pub accepts : Option Bool → Bool
accepts none = false
accepts (some valid) = valid

module _ (env : Env) where
  derive-AreAscii :
      (seed : Text) (left i : ℕ) (message : Text) → AreAscii (derive env seed left i message)
  unfolding derive
  derive-AreAscii seed zero i message = tt
  derive-AreAscii seed (suc left) i message =
      (ascii-zfill env.recovery_code_digits _, derive-AreAscii seed left (i + 1) _)

  abbrev derived : Data → List Text
  derived d = derive env (env.decrypt d.seed) env.recovery_code_count 0 []

  all_ascii : (d : Data) → AreAscii (derived d)
  all_ascii d = derive-AreAscii (env.decrypt d.seed) env.recovery_code_count 0 []

  spends :
      (code : Text) (d : Data) (m : Option (List Text))
      → d.migrated_codes ≡ m
      → let (valid, d') = validate_code env code d in
        (accepts valid, get_unused_codes env d') ≡ spend code (get_unused_codes env d)
  unfolding validate_code get_unused_codes generate_codes
  spends code d none e =
      rw e (ground (arith, marked_any code d.used_mask (derived d) (all_ascii d)))
  spends code d (some stored) e = rw e (ground (arith, popped-index env.decrypt code stored))

  answered :
      (code : Text) (d : Data) (m : Option (List Text))
      → d.migrated_codes ≡ m
      → is_ascii code ≡ true
      → (validate_code env code d).0 ≢ none
  unfolding validate_code generate_codes
  answered code d none e ascii =
      let defined = find_unused-ne-raised code d.used_mask 0 (derived d) ascii (all_ascii d) in
      λ h. ground (arith, e, h, defined)
  answered code d (some stored) e ascii = λ h. ground (arith, e, h)

  -- Validating a code is spending it from the list of unused codes: it is accepted exactly when it
  -- is one of them, and then its first occurrence is gone from the list and nothing else, so that a
  -- code is good for as many uses as the list holds it; a code that is not accepted changes nothing.
  -- So for the codes derived from a seed and for migrated ones. Only for a code beyond ASCII can the
  -- call end by an exception, which is no acceptance.
  pub validate_code-refines :
      (code : Text) (d : Data)
      → let (valid, d') = validate_code env code d in
        ((accepts valid, get_unused_codes env d') ≡ spend code (get_unused_codes env d))
        × ((is_ascii code ≡ false) ⊎ (valid ≢ none))
  validate_code-refines code d = (
    spends code d d.migrated_codes refl,
    elim (Bool-cases (is_ascii code)) [
      | inl ascii ↦ inr (answered code d d.migrated_codes refl ascii)
      | inr beyond ↦ inl beyond
    ],
  )
