-- ===== src/Oidc/Redirects/Wildcards.antt =====
-- allauth/idp/oidc/internal/clientkit.py: a redirect stays within the hosts that were registered.
use django_allauth.Prelude.{
  ◌≤◌, ◌≡◌, refl, true, some, [], ◌∷◌, ◌++◌, ◌==◌, nat_eq, Text, text_eq, arith, Bool-cases, inl,
  inr, ap, subst, Free,
}
use django_allauth.Statekit.{truthy}
use django_allauth.Oidc.Redirects.{stars, has_star, wildcard_matches}

matches_literal : (p s : Text) → stars p ≡ 0 → Free 10 s → wildcard_matches p s ≡ true → s ≡ p
unfolding wildcard_matches
matches_literal [] [] n f h = refl
matches_literal [] (c ∷ s) n f h = ground (arith, f.0)
matches_literal (x ∷ p) [] n f h = cc
matches_literal (x ∷ p) (c ∷ s) n f h =
    let here : c ≡ x = ground arith in
    let rest : s ≡ p = matches_literal p s (ground arith) f.1 (ground arith) in λ i. here i ∷ rest i

-- What a star has stood for: a text that is not empty and has no dot.
abbrev pub Label : Text → Type 0
Label t = (truthy (some t) ≡ true) × Free b'.' t

matches_star :
    (p s : Text)
    → stars p ≡ 0
    → Free 10 s
    → wildcard_matches (b'*' ∷ p) s ≡ true
    → (label : Text) × (s ≡ label ++ p) × Label label
unfolding wildcard_matches
matches_star p [] n f h = cc
matches_star p (c ∷ s) n f h = elim (Bool-cases (wildcard_matches p s)) [
  | inl e ↦ (c ∷ [], ap (◌∷◌ c) (matches_literal p s n f.1 e), (refl, (ground arith, tt)))
  | inr e ↦
      let (label, split_at, shape) = matches_star p s n f.1 (ground arith) in
      (c ∷ label, ap (◌∷◌ c) split_at, (refl, (ground arith, shape.1)))
]

-- The host is what the pattern says, with one label in place of its star.
pub record Instantiates (pattern host : Text) : Type 0 where
  pub before : Text
  pub label : Text
  pub after : Text
  pub of_pattern : pattern ≡ before ++ (b'*' ∷ after)
  pub of_host : host ≡ before ++ (label ++ after)
  pub shape : Label label

pub matches_once :
    (p s : Text)
    → stars p ≤ 1
    → has_star p ≡ true
    → Free 10 s
    → wildcard_matches p s ≡ true
    → Instantiates p s
unfolding wildcard_matches
matches_once [] s one has f h = cc
matches_once (x ∷ p) [] one has f h = cc
matches_once (x ∷ p) (c ∷ s) one has f h = elim (Bool-cases (x == b'*')) [
  | inl e ↦
      let star : x ≡ b'*' = ground arith in
      let (label, split_at, shape) =
        matches_star p (c ∷ s) (ground arith) f
          (subst (λ y. wildcard_matches (y ∷ p) (c ∷ s) ≡ true) star h) in
      record {
        before = [];
        label = label;
        after = p;
        of_pattern = ap (λ y. y ∷ p) star;
        of_host = split_at;
        shape = shape;
      }
  | inr e ↦
      let here : c ≡ x = ground arith in
      let r = matches_once p s (ground arith) (ground arith) f.1 (ground arith) in
      record {
        before = x ∷ r.before;
        label = r.label;
        after = r.after;
        of_pattern = ap (◌∷◌ x) r.of_pattern;
        of_host = λ i. here i ∷ r.of_host i;
        shape = r.shape;
      }
]
