-- ===== src/Oidc/Resources/Containment.antt =====
-- allauth/idp/oidc/internal/resources.py: containment of resources is reflexive and transitive.
use mathlib.Core.List.{append_assoc}
use django_allauth.Prelude.{
  All, ℕ, ◌≡◌, refl, true, [], ◌∷◌, ◌++◌, ◌==◌, Text, text_eq, nat_eq, arith, inl, inr, Bool-cases,
  ap, ◌⊎◌, ◌↔◌, subst, sym, ◌∙◌,
}
use django_allauth.Oidc.Uris.{ParseResult, starts_with, rstrip, without_last}
use django_allauth.Oidc.Resources.{is_contained_by, directory}

starts_with_trans :
    (p q s : Text) → starts_with p q ≡ true → starts_with q s ≡ true → starts_with p s ≡ true
starts_with_trans [] q s h k = refl
starts_with_trans (x ∷ p) [] s h k = cc
starts_with_trans (x ∷ p) (y ∷ q) [] h k = cc
starts_with_trans (x ∷ p) (y ∷ q) (z ∷ s) h k = ground (arith, starts_with_trans p q s)

module _ (c x : ℕ) where
  without_last-tail : (r u : Text) → without_last c x r ≡ x ∷ u → r ≡ u
  without_last-tail [] u h = ground arith
  without_last-tail (y ∷ r) u h = ground arith

  rstrip-without_last :
      (r : Text) → rstrip c r ≡ r → rstrip c (without_last c x r) ≡ without_last c x r
  unfolding rstrip
  rstrip-without_last [] h = elim (Bool-cases (x == c)) [
    | inl e ↦ rw e refl
    | inr e ↦ rw e (rw e refl)
  ]
  rstrip-without_last (y ∷ r) h = ap (without_last c x) h

rstrip-rstrip : (c : ℕ) (s : Text) → rstrip c (rstrip c s) ≡ rstrip c s
unfolding rstrip
rstrip-rstrip c [] = refl
rstrip-rstrip c (x ∷ s) = rstrip-without_last c x (rstrip c s) (rstrip-rstrip c s)

starts_slash :
    (y : ℕ) (r : Text)
    → (b'/' == y) ≡ true
    → starts_with (b'/' ∷ []) (without_last b'/' y r ++ b'/' ∷ []) ≡ true
starts_slash y [] h = ground arith
starts_slash y (z ∷ r) h = ground arith

starts_longer :
    (x y : ℕ) (u r : Text)
    → without_last b'/' x (rstrip b'/' u) ≡ x ∷ u
    → (x == y) ≡ true
    → starts_with (u ++ b'/' ∷ []) (r ++ b'/' ∷ []) ≡ true
    → starts_with (x ∷ u ++ b'/' ∷ []) (without_last b'/' y r ++ b'/' ∷ []) ≡ true
unfolding rstrip
starts_longer x y u (z ∷ r) e q h = ground arith
starts_longer x y [] [] e q h = ground arith
starts_longer x y (a ∷ []) [] e q h = ground arith
starts_longer x y (a ∷ b ∷ u) [] e q h = ground arith

-- A directory is a directory of what it contains, with its slashes put in order.
directory-starts :
    (u s : Text)
    → rstrip b'/' u ≡ u
    → starts_with (u ++ b'/' ∷ []) s ≡ true
    → starts_with (u ++ b'/' ∷ []) (directory s) ≡ true
unfolding rstrip
directory-starts [] [] e h = cc
directory-starts [] (y ∷ s) e h = starts_slash y (rstrip b'/' s) (ground arith)
directory-starts (x ∷ u) [] e h = cc
directory-starts (x ∷ u) (y ∷ s) e h =
    starts_longer x y u (rstrip b'/' s) e (ground arith)
      (directory-starts u s (without_last-tail b'/' x (rstrip b'/' u) u e) (ground arith))

module _ (urlparse : Text → ParseResult) where
  -- One resource lies within another.
  pub record Within (r g : ParseResult) : Type 0 where
    pub same_scheme : r.scheme ≡ g.scheme
    pub same_netloc : r.netloc ≡ g.netloc
    pub below : (r.path ≡ g.path) ⊎ (starts_with (directory g.path) r.path ≡ true)

  contained_iff :
      (r g : Text) → (is_contained_by urlparse r g ≡ true) ↔ Within (urlparse r) (urlparse g)
  unfolding is_contained_by
  contained_iff r g =
      let rp = urlparse r in
      let gp = urlparse g in
      let scheme = text_eq.agrees rp.scheme gp.scheme in
      let netloc = text_eq.agrees rp.netloc gp.netloc in
      let path = text_eq.agrees rp.path gp.path in
      (
        λ h. record {
          same_scheme = ground (arith, scheme);
          same_netloc = ground (arith, netloc);
          below = elim (Bool-cases (rp.path == gp.path)) [
            | inl e ↦ inl (path.0 e)
            | inr e ↦ inr (ground arith)
          ];
        },
        λ w. ground (arith, scheme, netloc, path),
      )

  Within-trans : {r s g : ParseResult} → Within r s → Within s g → Within r g
  Within-trans {r} {s} {g} a b = record {
    same_scheme = a.same_scheme ∙ b.same_scheme;
    same_netloc = a.same_netloc ∙ b.same_netloc;
    below = elim a.below [
      | inl e ↦ elim b.below [
        | inl f ↦ inl (e ∙ f)
        | inr f ↦ inr (subst (λ x. starts_with (directory g.path) x ≡ true) (sym e) f)
      ]
      | inr e ↦ elim b.below [
        | inl f ↦ inr (subst (λ x. starts_with (directory x) r.path ≡ true) f e)
        | inr f ↦ inr (
            starts_with_trans (directory g.path) (directory s.path) r.path
              (directory-starts (rstrip b'/' g.path) s.path (rstrip-rstrip b'/' g.path) f) e)
      ]
    ];
  }

  -- Each resource is contained in itself, and containment is transitive.
  pub is_contained_by-preorder :
      (r s g : Text)
      → (is_contained_by urlparse r r ≡ true)
        × (is_contained_by urlparse r s ≡ true
            → is_contained_by urlparse s g ≡ true
            → is_contained_by urlparse r g ≡ true)
  is_contained_by-preorder r s g = (
    (contained_iff r r).1 record { same_scheme = refl; same_netloc = refl; below = inl refl },
    λ h k. (contained_iff r g).1 (Within-trans ((contained_iff r s).0 h) ((contained_iff s g).0 k)),
  )

-- What a text starts with, and the rest.
starts_with_split : (p s : Text) → starts_with p s ≡ true → (rest : Text) × (s ≡ p ++ rest)
starts_with_split [] s h = (s, refl)
starts_with_split (x ∷ p) [] h = cc
starts_with_split (x ∷ p) (y ∷ s) h =
    let (rest, e) = starts_with_split p s (ground arith) in (rest, ground (arith, e))

-- Nothing but slashes.
abbrev pub AreSlashes : Text → Type 0
AreSlashes = All (λ c. c ≡ b'/')

rstrip-slashes : (s : Text) → AreSlashes s → rstrip b'/' s ≡ []
unfolding rstrip
rstrip-slashes [] h = refl
rstrip-slashes (c ∷ s) h = rw (rstrip-slashes s h.1, h.0) refl

without_last_split :
    (x : ℕ) (r slashes : Text)
    → AreSlashes slashes
    → (tail : Text) × (x ∷ r ++ slashes ≡ without_last b'/' x r ++ tail) × AreSlashes tail
without_last_split x [] slashes h = elim (Bool-cases (x == b'/')) [
  | inl slash ↦ rw slash (x ∷ slashes, refl, ((text_nat x slash), h))
  | inr other ↦ rw other (slashes, refl, h)
]
  where
    text_nat : (x : ℕ) → (x == b'/') ≡ true → x ≡ b'/'
    text_nat x h = ground arith
without_last_split x (y ∷ r) slashes h = (slashes, refl, h)

-- What is stripped are slashes.
rstrip_split : (s : Text) → (slashes : Text) × (s ≡ rstrip b'/' s ++ slashes) × AreSlashes slashes
unfolding rstrip
rstrip_split [] = ([], refl, tt)
rstrip_split (x ∷ s) =
    let (slashes, e, all) = rstrip_split s in
    let (tail, f, all') = without_last_split x (rstrip b'/' s) slashes all in
    (tail, ap (◌∷◌ x) e ∙ f, all')

-- A text with slashes at its end starts, without them, what follows it after a slash.
starts_below :
    (base slashes rest : Text)
    → AreSlashes slashes
    → starts_with (directory (base ++ slashes)) (base ++ b'/' ∷ rest) ≡ true
unfolding rstrip
starts_below [] slashes rest h = rw (rstrip-slashes slashes h) refl
starts_below (x ∷ base) slashes rest h =
    step (rstrip b'/' (base ++ slashes)) (starts_below base slashes rest h)
  where
    step :
        (r : Text)
        → starts_with (r ++ b'/' ∷ []) (base ++ b'/' ∷ rest) ≡ true
        → starts_with (without_last b'/' x r ++ b'/' ∷ []) (x ∷ base ++ b'/' ∷ rest) ≡ true
    step [] h = ground (arith, h)
    step (y ∷ r) h = ground (arith, h)

-- One path is below another: it goes on with a slash after what the other is without some of the
-- slashes at its end.
abbrev pub IsBelow : Text → Text → Type 0
IsBelow path other =
    (base : Text) × (slashes : Text) × (rest : Text) × AreSlashes slashes
    × (other ≡ base ++ slashes)
    × (path ≡ base ++ b'/' ∷ rest)

IsBelow-iff : (path other : Text) → (starts_with (directory other) path ≡ true) ↔ IsBelow path other
IsBelow-iff path other = (
  λ h.
      let (rest, e) = starts_with_split (directory other) path h in
      let (slashes, f, all) = rstrip_split other in
      (
        rstrip b'/' other,
        slashes,
        rest,
        all,
        f,
        e ∙ append_assoc (rstrip b'/' other) (b'/' ∷ []) rest,
      ),
  λ (base, slashes, rest, all, e, f). rw (e, f) (starts_below base slashes rest all),
)

-- A resource is contained in a granted one, by whatever parser of URIs, exactly when both have the
-- same scheme and network location, and the paths are the same or that of the resource is below the
-- granted one: what is left of it after the granted path, without slashes at the end of that path,
-- begins with a slash. So "/photos" holds "/photos/1" and not "/photos-private".
pub is_contained_by_iff :
    (urlparse : Text → ParseResult) (resource granted : Text)
    → (is_contained_by urlparse resource granted ≡ true) ↔ (
        ((urlparse resource).scheme ≡ (urlparse granted).scheme)
        × ((urlparse resource).netloc ≡ (urlparse granted).netloc)
        × (((urlparse resource).path ≡ (urlparse granted).path)
            ⊎ IsBelow (urlparse resource).path (urlparse granted).path))
is_contained_by_iff urlparse resource granted =
    let within = contained_iff urlparse resource granted in
    let below = IsBelow-iff (urlparse resource).path (urlparse granted).path in
    (
      λ h.
          let w = within.0 h in
          (
            w.same_scheme,
            w.same_netloc,
            elim w.below [ inl same ↦ inl same | inr starts ↦ inr (below.0 starts) ],
          ),
      λ h. within.1 (record {
        same_scheme = h.0;
        same_netloc = h.1;
        below = elim h.2 [ inl same ↦ inl same | inr lower_ ↦ inr (below.1 lower_) ];
      }),
    )
